-- ===== src/Fsck/Dangling.antt =====
-- What is left by the checks of src/s3ql/fsck.py for blocks, targets and attributes of inodes that are
-- gone.
use mathlib.Core.Option
use s3ql.Prelude.{
  ℕ, ◌+◌, ◌≡◌, refl, ap, sym, Bool, not, ◌||◌, List, [], ◌∷◌, Option, none, some, ◌==◌, arith, inl,
  inr, Bool-cases,
}
use s3ql.Prelude.Int.{ℤ, pos, ◌-ℤ◌, eq_of_parts, -ℤ_parts}
use s3ql.Prelude.Sql.{select, count, update, delete, has_key, count-delete_self, select-update}
use s3ql.Fsck.State.{Xattr, Object, Block, Fsck, xattr_key, symlink_key, object_key, block_key}
use s3ql.Fsck.Rows.{IsKey, count-split, delete_rows_lem, length-wrong}
use s3ql.Fsck.Paths.{del_name}
use s3ql.Fsck.Objects.{uses}
use s3ql.Fsck.Inodes.{less, unlink_objects, check_inode_blocks_inode}
use s3ql.Fsck.Inodes
use s3ql.Fsck.Attributes.{
  has_no_inode, is_orphan, del_names, check_symlinks_inode, check_ext_attributes_inode,
}

-- The check of the targets of symbolic links leaves exactly the targets whose inode is there, and
-- reports an error if and only if there are others.
pub check_symlinks_inode_lem :
    (s : Fsck)
    → IsKey symlink_key s.symlinks
    → let after = check_symlinks_inode s in
      (after.symlinks ≡ delete (has_no_inode s.inodes) s.symlinks)
      × (count (has_no_inode after.inodes) after.symlinks ≡ 0)
      × (after.found_errors
          ≡ (s.found_errors || not (count (has_no_inode s.inodes) s.symlinks == 0)))
unfolding check_symlinks_inode
check_symlinks_inode_lem s u =
    rw
      (
        delete_rows_lem symlink_key (has_no_inode s.inodes) s.symlinks u,
        length-wrong (has_no_inode s.inodes) s.symlinks,
      )
      (refl, count-delete_self (has_no_inode s.inodes) s.symlinks, refl)

del_names-inodes : (rows : List Xattr) (s : Fsck) → (del_names rows s).inodes ≡ s.inodes
unfolding del_names del_name
del_names-inodes [] s = refl
del_names-inodes (r ∷ rows) s = del_names-inodes rows (del_name r.name_id s)

-- The check of the inodes of extended attributes leaves exactly the attributes whose inode is there, and
-- reports an error if and only if there are others.
pub check_ext_attributes_inode_lem :
    (s : Fsck)
    → IsKey xattr_key s.xattrs
    → let after = check_ext_attributes_inode s in
      (after.xattrs ≡ delete (is_orphan s.inodes) s.xattrs)
      × (count (is_orphan after.inodes) after.xattrs ≡ 0)
      × (after.found_errors ≡ (s.found_errors || not (count (is_orphan s.inodes) s.xattrs == 0)))
unfolding check_ext_attributes_inode
check_ext_attributes_inode_lem s u =
    rw
      (
        delete_rows_lem xattr_key (is_orphan s.inodes) s.xattrs u,
        length-wrong (is_orphan s.inodes) s.xattrs,
        del_names-inodes (delete (λ r. not (is_orphan s.inodes r)) s.xattrs) s,
      )
      (refl, count-delete_self (is_orphan s.inodes) s.xattrs, refl)

-- The count of an object after blocks that refer to it went.
abbrev fewer : ℕ → Object → Object
fewer n r = record r { refcount = r.refcount -ℤ pos n }

minus_minus : (a : ℤ) (n : ℕ) → a -ℤ pos 1 -ℤ pos n ≡ a -ℤ pos (1 + n)
minus_minus a n =
    eq_of_parts (a -ℤ pos 1 -ℤ pos n) (a -ℤ pos (1 + n))
      (omega (arith, -ℤ_parts a (pos 1), -ℤ_parts (a -ℤ pos 1) (pos n), -ℤ_parts a (pos (1 + n))))

minus_zero : (a : ℤ) → a -ℤ pos 0 ≡ a
minus_zero a = eq_of_parts (a -ℤ pos 0) a (omega (arith, -ℤ_parts a (pos 0)))

minus_pos : (m n k : ℕ) → m ≡ n + k → pos m -ℤ pos n ≡ pos k
minus_pos m n k e =
    eq_of_parts (pos m -ℤ pos n) (pos k) (omega (arith, e, -ℤ_parts (pos m) (pos n)))

fewer_none : (o : Option Object) → Option.map (fewer 0) o ≡ o
fewer_none none = refl
fewer_none (some r) = rw (minus_zero r.refcount) refl

fewer-less :
    (n : ℕ) (o : Option Object)
    → Option.map (fewer n) (Option.map less o) ≡ Option.map (fewer (1 + n)) o
fewer-less n none = refl
fewer-less n (some r) = rw (minus_minus r.refcount n) refl

zero_plus : (n : ℕ) → n ≡ 0 + n
zero_plus n = omega arith

unlink_objects-fewer :
    (k : ℕ) (rows : List Block) (s : Fsck)
    → select (has_key object_key k) (unlink_objects rows s).objects
      ≡ Option.map (fewer (uses k rows)) (select (has_key object_key k) s.objects)
unfolding unlink_objects
unlink_objects-fewer k [] s = sym (fewer_none (select (has_key object_key k) s.objects))
unlink_objects-fewer k (r ∷ rows) s =
    let after : Fsck = record s {
      objects = update (has_key object_key r.obj_id) less s.objects;
      unlinked_objects = r.obj_id ∷ s.unlinked_objects;
    } in
    rw
      (
        unlink_objects-fewer k rows after,
        select-update object_key k r.obj_id less s.objects (λ x. refl),
      )
      (elim (Bool-cases (r.obj_id == k)) [
        | inl e ↦ rw e (fewer-less (uses k rows) (select (has_key object_key k) s.objects))
        | inr e ↦ rw e (
            ap (λ n. Option.map (fewer n) (select (has_key object_key k) s.objects))
              (zero_plus (uses k rows)))
      ])

unlink_objects-inodes : (rows : List Block) (s : Fsck) → (unlink_objects rows s).inodes ≡ s.inodes
unfolding unlink_objects
unlink_objects-inodes [] s = refl
unlink_objects-inodes (r ∷ rows) s = unlink_objects-inodes rows (record s {
  objects = update (has_key object_key r.obj_id) less s.objects;
  unlinked_objects = r.obj_id ∷ s.unlinked_objects;
})

-- The check of the inodes of blocks leaves exactly the blocks whose inode is there, and reports an error
-- if and only if there are others. An object that counted the blocks that refer to it does so afterwards.
pub check_inode_blocks_inode_lem :
    (s : Fsck) (k : ℕ) (r : Object)
    → IsKey block_key s.blocks
    → select (has_key object_key k) s.objects ≡ some r
    → r.refcount ≡ pos (uses k s.blocks)
    → let after = check_inode_blocks_inode s in
      (after.blocks ≡ delete (Inodes.has_no_inode s.inodes) s.blocks)
      × (count (Inodes.has_no_inode after.inodes) after.blocks ≡ 0)
      × (after.found_errors
          ≡ (s.found_errors || not (count (Inodes.has_no_inode s.inodes) s.blocks == 0)))
      × (select (has_key object_key k) after.objects
          ≡ some (record r { refcount = pos (uses k after.blocks) }))
unfolding check_inode_blocks_inode
check_inode_blocks_inode_lem s k r u e c =
    let wrong : Block → Bool = Inodes.has_no_inode s.inodes in
    let n : ℕ = uses k (delete (λ x. not (wrong x)) s.blocks) in
    let fits : r.refcount -ℤ pos n ≡ pos (uses k (delete wrong s.blocks)) = rw c (
      minus_pos (uses k s.blocks) n (uses k (delete wrong s.blocks))
        (sym (count-split wrong (λ x. x.obj_id == k) s.blocks))) in
    rw
      (
        delete_rows_lem block_key wrong s.blocks u,
        length-wrong wrong s.blocks,
        unlink_objects-inodes (delete (λ x. not (wrong x)) s.blocks) s,
        unlink_objects-fewer k (delete (λ x. not (wrong x)) s.blocks) s,
        e,
        fits,
      )
      (refl, count-delete_self wrong s.blocks, refl, refl)
