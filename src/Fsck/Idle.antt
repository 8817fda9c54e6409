-- ===== src/Fsck/Idle.antt =====
-- Each check of src/s3ql/fsck.py leaves a state as it is in which it finds no error.
use s3ql.Prelude.{ℕ, ◌≡◌, refl, Bool, true, false, not, ◌||◌, List, [], ◌∷◌, All, arith}
use s3ql.Prelude.Sql.{count}
use s3ql.Prelude.Effect.{returned, pure, ◌>>=◌}
use s3ql.Fsck.State.{Fsck, M, has_row, for_each, delete_rows}
use s3ql.Fsck.Rows.{delete-not_none}
use s3ql.Fsck.Objects.{is_null, is_wrong, fix_objects, fix_refcounts, check_objects_hash}
use s3ql.Fsck.Attributes.{
  miscounts, fix_names, check_names_refcount, is_orphan, del_names, check_ext_attributes_inode,
  has_no_inode, check_symlinks_inode,
}
use s3ql.Fsck.Inodes.{
  is_short, check_inodes_size, is_miscounted, miscounted, fix_links, check_inodes_refcount,
  unlink_objects, check_inode_blocks_inode, has_no_object, check_inode_blocks_obj_id,
}
use s3ql.Fsck.Inodes
use s3ql.Fsck.Unix.{refers}

pub or_false : (b c : Bool) → c ≡ false → (b || c) ≡ b
or_false true c e = refl
or_false false c e = e

pub for_each_idle :
    {A : Type 0} (f : A → M (Unit {0})) (s : Fsck) (rows : List A)
    → All (λ x. f x s ≡ (returned tt, s)) rows
    → for_each rows f s ≡ (returned tt, s)
unfolding for_each ◌>>=◌ pure
for_each_idle f s [] h = refl
for_each_idle f s (x ∷ rows) (e, h) = rw e (for_each_idle f s rows h)

pub check_names_refcount_idle :
    (s : Fsck) → count (miscounts s.contents s.xattrs) s.names ≡ 0 → check_names_refcount s ≡ s
unfolding check_names_refcount fix_names
check_names_refcount_idle s h =
    rw
      (
        delete-not_none (miscounts s.contents s.xattrs) s.names h,
        or_false s.found_errors false refl,
      )
      refl

pub check_objects_hash_idle : (s : Fsck) → count is_null s.objects ≡ 0 → check_objects_hash s ≡ s
unfolding check_objects_hash
check_objects_hash_idle s h = rw h refl

pub fix_refcounts_idle : (s : Fsck) → count (is_wrong s.blocks) s.objects ≡ 0 → fix_refcounts s ≡ s
unfolding fix_refcounts fix_objects
fix_refcounts_idle s h =
    rw (delete-not_none (is_wrong s.blocks) s.objects h, or_false s.found_errors false refl) refl

pub check_inode_blocks_inode_idle :
    (s : Fsck) → count (Inodes.has_no_inode s.inodes) s.blocks ≡ 0 → check_inode_blocks_inode s ≡ s
unfolding check_inode_blocks_inode unlink_objects delete_rows
check_inode_blocks_inode_idle s h =
    rw
      (
        delete-not_none (Inodes.has_no_inode s.inodes) s.blocks h,
        or_false s.found_errors false refl,
      )
      refl

pub check_ext_attributes_inode_idle :
    (s : Fsck) → count (is_orphan s.inodes) s.xattrs ≡ 0 → check_ext_attributes_inode s ≡ s
unfolding check_ext_attributes_inode del_names delete_rows
check_ext_attributes_inode_idle s h =
    rw (delete-not_none (is_orphan s.inodes) s.xattrs h, or_false s.found_errors false refl) refl

pub check_symlinks_inode_idle :
    (s : Fsck) → count (has_no_inode s.inodes) s.symlinks ≡ 0 → check_symlinks_inode s ≡ s
unfolding check_symlinks_inode delete_rows
check_symlinks_inode_idle s h =
    rw (delete-not_none (has_no_inode s.inodes) s.symlinks h, or_false s.found_errors false refl)
      refl

-- Rows whose references are there.
module _ {A B : Type 0} (ref : A → ℕ) (key : B → ℕ) (t : List B) where
  pub refers-count :
      (rows : List A)
      → refers ref key rows t ≡ true
      → count (λ r. not (has_row key (ref r) t)) rows ≡ 0
  unfolding refers
  refers-count [] h = refl
  refers-count (r ∷ rows) h = ground (arith, h, refers-count rows)

  pub refers-All :
      (rows : List A) → refers ref key rows t ≡ true → All (λ r. has_row key (ref r) t ≡ true) rows
  unfolding refers
  refers-All [] h = tt
  refers-All (r ∷ rows) h = (ground (arith, h), refers-All rows (ground (arith, h)))
