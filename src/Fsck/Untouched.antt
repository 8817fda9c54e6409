-- ===== src/Fsck/Untouched.antt =====
-- The checks of src/s3ql/fsck.py that read the backend or the paths, on a state without errors.
use s3ql.Prelude.{ℕ, ◌≡◌, refl, ap, sym, ◌∙◌, true, false, not, ◌&&◌, List, [], ◌∷◌, arith}
use s3ql.Prelude.Sql.{count, delete, has_key, count-delete-le}
use s3ql.Prelude.Effect.{returned, pure, raise, branch, gets, modify, ◌>>=◌}
use s3ql.BlockCache.State.{member}
use s3ql.Fsck.State.{blob, Fsck, Env, object_key, has_row, is_named, root_inode}
use s3ql.Fsck.Rows.{delete-none, get_row_one, count-stronger, wrong-found}
use s3ql.Fsck.Objects.{
  lost_found, is_wrong, listed, is_set, drop_spurious, drop_all_spurious, is_missing, drop_missing,
  check_objects_refcount, check_objects_id,
}
use s3ql.Fsck.ObjectCounts.{check_objects_refcount_run}
use s3ql.Fsck.Idle.{fix_refcounts_idle, or_false}

pub check_objects_refcount_idle :
    (s : Fsck)
    → count (is_wrong s.blocks) s.objects ≡ 0
    → check_objects_refcount s ≡ (returned tt, s)
check_objects_refcount_idle s h =
    check_objects_refcount_run s ∙ ap (λ t. (returned tt, t)) (fix_refcounts_idle s h)

drop_all_spurious_idle :
    (ids : List ℕ) (s : Fsck)
    → ((id : ℕ) → member id ids ≡ true → has_row object_key id s.objects ≡ true)
    → drop_all_spurious s.objects ids s ≡ s
unfolding drop_all_spurious drop_spurious member
drop_all_spurious_idle [] s h = refl
drop_all_spurious_idle (id ∷ ids) s h =
    rw (h id (ground arith)) (drop_all_spurious_idle ids s (λ j e. h j (ground (arith, e))))

pub check_objects_id_idle :
    (env : Env) (s : Fsck)
    → count (is_named s.names (blob lost_found) root_inode) s.contents ≡ 1
    → is_set (listed (env.list_objects s)) ≡ true
    → ((id : ℕ) → member id (listed (env.list_objects s)) ≡ has_row object_key id s.objects)
    → check_objects_id env s ≡ (returned tt, s)
unfolding check_objects_id ◌>>=◌ pure raise branch gets modify drop_missing is_missing has_row
    delete
check_objects_id_idle env s one unique complete =
    let ids : List ℕ = listed (env.list_objects s) in
    let (r, e, got) =
      get_row_one (λ t. t.contents) (is_named s.names (blob lost_found) root_inode) s one in
    let all : count (λ x. not (has_row object_key x.id s.objects)) s.objects ≡ 0 =
      wrong-found (λ x. true) object_key s.objects s.objects
        (λ k f.
          ground (arith, f, count-delete-le (λ x. not true) (has_key object_key k) s.objects)) in
    let there : count (is_missing ids s.stored) s.objects ≡ 0 = omega (
      arith,
      all,
      count-stronger (λ x. true && not (has_row object_key x.id s.objects))
          (is_missing ids s.stored) s.objects (λ x e. ground (arith, e, complete x.id)),
    ) in
    rw
      (
        got,
        unique,
        drop_all_spurious_idle ids s (λ id e. sym (complete id) ∙ e),
        there,
        or_false s.found_errors false refl,
        delete-none (is_missing ids s.stored) s.objects there,
      )
      refl
