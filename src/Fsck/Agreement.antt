-- ===== src/Fsck/Agreement.antt =====
-- `check_objects_id` of src/s3ql/fsck.py makes the table of objects and the backend agree.
use s3ql.Prelude.{
  ℕ, ◌≡◌, refl, Bool, true, false, not, ◌&&◌, List, [], ◌∷◌, Option, none, some, ◌==◌,
  if◌then◌else◌, arith, inl, inr, Bool-cases,
}
use s3ql.Prelude.Sql.{select, count, has_key, select-delete}
use s3ql.Prelude.Effect.{returned, pure, raise, branch, gets, modify, ◌>>=◌}
use s3ql.BlockCache.State.{member}
use s3ql.Fsck.State.{
  blob, Object, Stored, Fsck, Env, object_key, stored_key, has_row, is_some, is_named, root_inode,
}
use s3ql.Fsck.Rows.{absent-select, get_row_one, has_row_lem, select-delete_key}
use s3ql.Fsck.Objects.{
  lost_found, listed, is_set, drop_spurious, drop_all_spurious, is_missing, drop_missing,
  check_objects_id,
}

drop_spurious-stored :
    (objects : List Object) (k id : ℕ) (s : Fsck)
    → select (has_key stored_key k) (drop_spurious objects id s).stored ≡ (
        if id == k && not (has_row object_key k objects)
        then none
        else select (has_key stored_key k) s.stored)
unfolding drop_spurious
drop_spurious-stored objects k id s =
    elim (Bool-cases (not (has_row object_key id objects) && has_row stored_key id s.stored)) [
      | inl w ↦ rw w (
          rw (select-delete stored_key k id s.stored) (elim (Bool-cases (id == k)) [
            | inl e ↦ let i : id ≡ k = ground (arith, e) in ground (arith, e, w, i)
            | inr e ↦ ground (arith, e)
          ]))
      | inr w ↦ rw w (elim (Bool-cases (id == k)) [
        | inl e ↦
            let i : id ≡ k = ground (arith, e) in
            elim (Bool-cases (has_row stored_key k s.stored)) [
              | inl f ↦ ground (arith, e, w, i, f)
              | inr f ↦
                  let absent : select (has_key stored_key k) s.stored ≡ none =
                    absent-select stored_key k s.stored f in
                  ground (arith, e, w, i, f, absent)
            ]
        | inr e ↦ ground (arith, e)
      ])
    ]

drop_all_spurious-stored :
    (objects : List Object) (k : ℕ) (ids : List ℕ) (s : Fsck)
    → select (has_key stored_key k) (drop_all_spurious objects ids s).stored ≡ (
        if member k ids && not (has_row object_key k objects)
        then none
        else select (has_key stored_key k) s.stored)
unfolding drop_all_spurious member
drop_all_spurious-stored objects k [] s = refl
drop_all_spurious-stored objects k (id ∷ ids) s =
    rw
      (
        drop_all_spurious-stored objects k ids (drop_spurious objects id s),
        drop_spurious-stored objects k id s,
      )
      ground arith

drop_all_spurious-objects :
    (objects : List Object) (ids : List ℕ) (s : Fsck)
    → (drop_all_spurious objects ids s).objects ≡ s.objects
unfolding drop_all_spurious drop_spurious
drop_all_spurious-objects objects [] s = refl
drop_all_spurious-objects objects (id ∷ ids) s =
    ground (arith, drop_all_spurious-objects objects ids (drop_spurious objects id s))

-- The object of the table and the one of the backend, each kept where the other is there.
kept_object :
    (a : Option Object) (b : Option Stored)
    → (if not (is_some b) && not (is_some (if is_some b && not (is_some a) then none else b))
        then none
        else a)
      ≡ (if is_some b then a else none)
unfolding is_some
kept_object none none = refl
kept_object none (some b) = refl
kept_object (some a) none = refl
kept_object (some a) (some b) = refl

kept_stored :
    (a : Bool) (b : Option Stored)
    → (if is_some b && not a then none else b) ≡ (if a then b else none)
unfolding is_some
kept_stored true none = refl
kept_stored true (some b) = refl
kept_stored false none = refl
kept_stored false (some b) = refl

kept_objects :
    (ids : List ℕ) (k : ℕ) (s : Fsck)
    → ((id : ℕ) → member id ids ≡ has_row stored_key id s.stored)
    → let after = drop_missing ids (drop_all_spurious s.objects ids s) in
      (select (has_key object_key k) after.objects
        ≡ (if has_row stored_key k s.stored then select (has_key object_key k) s.objects else none))
      × (select (has_key stored_key k) after.stored ≡ (
          if has_row object_key k s.objects then select (has_key stored_key k) s.stored else none))
unfolding drop_missing is_missing
kept_objects ids k s complete = (
  rw
      (
        drop_all_spurious-objects s.objects ids s,
        select-delete_key object_key
            (λ id.
              not (member id ids)
              && not (has_row stored_key id (drop_all_spurious s.objects ids s).stored))
            k s.objects,
        has_row_lem stored_key k (drop_all_spurious s.objects ids s).stored,
        drop_all_spurious-stored s.objects k ids s,
        complete k,
        has_row_lem stored_key k s.stored,
        has_row_lem object_key k s.objects,
      )
      (kept_object (select (has_key object_key k) s.objects)
        (select (has_key stored_key k) s.stored)),
  rw (drop_all_spurious-stored s.objects k ids s, complete k, has_row_lem stored_key k s.stored)
      (kept_stored (has_row object_key k s.objects) (select (has_key stored_key k) s.stored)),
)

-- With lost+found there once, and a backend that lists each of its objects once and no others, the
-- check returns. An object is in the table afterwards, unchanged, if it was in both before, and so is
-- it in the backend.
pub check_objects_id_lem :
    (env : Env) (s : Fsck) (k : ℕ)
    → count (is_named s.names (blob lost_found) root_inode) s.contents ≡ 1
    → is_set (listed (env.list_objects s)) ≡ true
    → ((id : ℕ) → member id (listed (env.list_objects s)) ≡ has_row stored_key id s.stored)
    → let (r, after) = check_objects_id env s in
      (r ≡ returned tt)
      × (select (has_key object_key k) after.objects ≡ (
          if has_row stored_key k s.stored then select (has_key object_key k) s.objects else none))
      × (select (has_key stored_key k) after.stored ≡ (
          if has_row object_key k s.objects then select (has_key stored_key k) s.stored else none))
unfolding check_objects_id ◌>>=◌ pure raise branch gets modify
check_objects_id_lem env s k one unique complete =
    let (r, e, got) =
      get_row_one (λ t. t.contents) (is_named s.names (blob lost_found) root_inode) s one in
    let (a, b) = kept_objects (listed (env.list_objects s)) k s complete in
    rw (got, unique) (refl, a, b)
