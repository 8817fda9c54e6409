-- ===== src/Fs/Attr.antt =====
-- Attributes of src/s3ql/fs.py: `readlink`, `getxattr`, `listxattr`, `setxattr` and `removexattr`.
use text.Mathlib.Text.{◌==◌ as ◌=text=◌}
use s3ql.Prelude.{
  ℕ, Bool, ◌&&◌, ◌||◌, not, List, [], ◌∷◌, ◌++◌, none, some, String, length, ltb, ◌==◌,
}
use s3ql.Prelude.Sql.{select, count, delete, has_key}
use s3ql.Prelude.Effect.{pure, raise, gets, branch, modify, catch, ◌>>=◌, ◌>>◌}
use s3ql.Fs.State.{
  Name, Inode, Xattr, Error, eperm, einval, enoattr, acl, no_such_row, Fs, M, Env, name_key,
  is_xattr, get_row, inode, set_inode, ctrl_inode, add_name, del_name,
}
use s3ql.Fs.Namespace.{names_id}

abbrev pub is_acl_name : String → Bool
is_acl_name n = n =text= "system.posix_acl_access" || n =text= "system.posix_acl_default"

-- `atime_ns` is brought up to date if it is behind one of the other times.
abbrev pub stale : Inode → Bool
stale r = ltb r.atime_ns r.ctime_ns || ltb r.atime_ns r.mtime_ns

unfoldable pub touch_atime : ℕ → ℕ → M (Unit {0})
unfolding inode set_inode
touch_atime id now = do
  row ← inode id
  branch (stale row) (set_inode id (λ r. record r { atime_ns = now })) (pure tt)

-- `except NoSuchRowError: raise e`
unfoldable pub no_row : {A : Type 0} → Error → Error → M A
no_row e no_such_row = raise e
no_row e x = raise x

-- `SELECT value FROM ext_attributes_v WHERE inode=? AND name=?`
unfoldable pub find_value : ℕ → String → M Xattr
unfolding get_row
find_value id name s =
    get_row (λ t. t.xattrs) (λ x. x.inode == id && names_id s.names x.name_id name) s

unfoldable pub listxattr : ℕ → M (List String)
listxattr id = gets (λ s. names_of s.names (delete (λ x. not (x.inode == id)) s.xattrs))
  where
    names_of : List Name → List Xattr → List String
    names_of names [] = []
    names_of names (x ∷ xs) =
        let rest = names_of names xs in
        elim (select (has_key name_key x.name_id) names) [ none ↦ rest | some r ↦ r.name ∷ rest ]

-- `INSERT OR REPLACE INTO ext_attributes`
unfoldable pub put_xattr : ℕ → ℕ → List ℕ → Fs → Fs
put_xattr id name_id value s = record s {
  xattrs =
      delete (is_xattr id name_id) s.xattrs
      ++ (record { inode = id; name_id = name_id; value = value }) ∷ [];
}

unfoldable pub delete_xattr : ℕ → ℕ → Fs → Fs
delete_xattr id name_id s = record s { xattrs = delete (is_xattr id name_id) s.xattrs }

module _ (env : Env) where
  unfoldable pub readlink : ℕ → M (List ℕ)
  unfolding touch_atime get_row no_row
  readlink id = do
    now ← gets env.time_ns
    touch_atime id now
    row ← catch (get_row (λ s. s.symlinks) (λ x. x.inode == id)) (no_row einval)
    pure row.target

  -- `if self.failsafe or self.inodes[id_].locked: raise FUSEError(errno.EPERM)`
  unfoldable pub unless_locked : {A : Type 0} → ℕ → M A → M A
  unfolding inode
  unless_locked id m = do
    failed ← gets (λ s. s.failsafe)
    branch failed (raise eperm) do row ← inode id; branch row.locked (raise eperm) m

  unfoldable pub removexattr : ℕ → String → M (Unit {0})
  unfolding unless_locked del_name no_row delete_xattr set_inode
  removexattr id name = unless_locked id do
    name_id ← catch (del_name name) (no_row enoattr)
    changes ← gets (λ s. count (is_xattr id name_id) s.xattrs)
    modify (delete_xattr id name_id)
    branch (changes == 0) (raise enoattr)
        do now ← gets env.time_ns; set_inode id (λ r. record r { ctime_ns = now })

  -- What the control file answers and does is a parameter, and so is the largest size of a value.
  module _ (query : String → M (List ℕ)) (command : String → List ℕ → M (Unit {0}))
      (max_blob_size : ℕ) where
    unfoldable pub getxattr : ℕ → String → M (List ℕ)
    unfolding find_value no_row
    getxattr id name = branch (id == ctrl_inode) (query name) (
        branch (is_acl_name name) (raise acl)
          do row ← catch (find_value id name) (no_row enoattr); pure row.value)

    unfoldable pub setxattr_checked : ℕ → String → List ℕ → M (Unit {0})
    unfolding add_name put_xattr set_inode
    setxattr_checked id name value = do
      name_id ← add_name name
      modify (put_xattr id name_id value)
      now ← gets env.time_ns
      set_inode id (λ r. record r { ctime_ns = now })

    unfoldable pub setxattr : ℕ → String → List ℕ → M (Unit {0})
    unfolding unless_locked setxattr_checked
    setxattr id name value = branch (id == ctrl_inode) (command name value) (
        branch (is_acl_name name) (raise acl) (
          unless_locked id (
            branch (ltb max_blob_size (length value)) (raise einval)
              (setxattr_checked id name value))))
