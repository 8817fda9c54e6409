-- ===== src/Fs/XattrCount.antt =====
-- The references of names across `setxattr` of src/s3ql/fs.py.
use mathlib.Core.Option
use s3ql.Prelude.{
  ℕ, ◌+◌, ◌≡◌, refl, Bool, false, List, [], ◌∷◌, some, arith, String, length, ltb, ◌==◌,
}
use s3ql.Prelude.Sql.{select, count, update, delete, has_key, select-update, count-append}
use s3ql.Prelude.Effect.{returned, pure, raise, gets, branch, modify, ◌>>=◌}
use s3ql.Fs.State.{
  Name, Inode, Xattr, Fs, Env, M, name_key, inode_key, has_name, is_xattr, inode, found_inode,
  set_inode, add_name, add_name_row, ctrl_inode,
}
use s3ql.Fs.Attr.{is_acl_name, put_xattr, unless_locked, setxattr_checked, setxattr}

count-delete_same : {A : Type 0} (p : A → Bool) (t : List A) → count p (delete p t) ≡ 0
unfolding delete
count-delete_same p [] = refl
count-delete_same p (x ∷ t) = ground (arith, count-delete_same p t)

module _ (env : Env) (query : String → M (List ℕ)) (command : String → List ℕ → M (Unit {0}))
    (max_blob_size : ℕ) (id : ℕ) (name : String) (value : List ℕ) (row : Inode) (n : Name) (s : Fs)
    (file : (id == ctrl_inode) ≡ false) (plain : is_acl_name name ≡ false)
    (safe : s.failsafe ≡ false) (found : select (has_key inode_key id) s.inodes ≡ some row)
    (unlocked : row.locked ≡ false) (small : ltb max_blob_size (length value) ≡ false)
    (named : select (has_name name) s.names ≡ some n) where
  after_set : Fs
  after_set = put_xattr id n.id value (add_name_row name (some n) s)

  setxattr-done : setxattr env query command max_blob_size id name value s ≡ (
    returned tt,
    record after_set {
      inodes =
          update
            (has_key inode_key id)
            (λ r. record r { ctime_ns = env.time_ns after_set })
            s.inodes;
    },
  )
  unfolding setxattr setxattr_checked unless_locked add_name add_name_row put_xattr set_inode inode
      found_inode branch gets raise pure modify after_set ◌>>=◌
  setxattr-done = rw (file, plain, safe, found, unlocked, small, named, found) refl

  -- Setting an attribute (of a file that is there and not locked, outside failsafe mode, with a plain
  -- name that is in the table and a value that is not too long) returns and leaves one row for the
  -- attribute, whether it was there before or not; in both cases the name counts one reference more
  -- than before.
  pub setxattr_lem :
      select (has_key name_key n.id) s.names ≡ some n
      → let (r, t) = setxattr env query command max_blob_size id name value s in
        (r ≡ returned tt)
        × (count (is_xattr id n.id) t.xattrs ≡ 1)
        × (Option.map (λ (x : Name). x.refcount) (select (has_key name_key n.id) t.names)
            ≡ some (n.refcount + 1))
  unfolding after_set put_xattr add_name_row
  setxattr_lem key =
      let one = count-delete_same (is_xattr id n.id) s.xattrs in
      let new : Xattr = record { inode = id; name_id = n.id; value = value } in
      rw (setxattr-done) (
        refl,
        ground (
          arith,
          one,
          count-append (is_xattr id n.id) (delete (is_xattr id n.id) s.xattrs) (new ∷ []),
        ),
        ground (
          arith,
          key,
          select-update name_key n.id n.id (λ x. record x { refcount = x.refcount + 1 }) s.names
              (λ r. refl),
        ),
      )
