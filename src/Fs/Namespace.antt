-- ===== src/Fs/Namespace.antt =====
-- Directory entries of src/s3ql/fs.py: `_lookup`, `_create` and the operations that make an entry
-- through it, and `link`.
use text.Mathlib.Text.{◌==◌ as ◌=text=◌}
use s3ql.Prelude.{
  ℕ, ◌+◌, ◌-◌, ◌/◌, ◌*◌, Bool, false, ◌&&◌, ◌||◌, List, [], ◌∷◌, ◌++◌, none, some, String, length,
  ltb, ◌==◌, if◌then◌else◌,
}
use s3ql.Prelude.Sql.{select, count, update, delete, has_key}
use s3ql.Prelude.Effect.{pure, raise, gets, branch, modify, catch, ◌>>=◌, ◌>>◌}
use s3ql.Fs.State.{
  Name, DirEntry, Inode, Xattr, Error, enoent, eperm, einval, eacces, no_such_row, constraint,
  key_error, Fs, M, Ctx, Env, name_key, inode_key, is_entry, has_parent, get_row, inode, set_inode,
  open_inode, is_dir, has_setgid, add_setgid, ctrl_name, ctrl_inode, add_name,
}

-- `WHERE name=? AND parent_inode=?` on the join `contents_v` of entries and names.
abbrev pub names_id : List Name → ℕ → String → Bool
names_id names id n = elim (select (has_key name_key id) names) [
  | none ↦ false
  | some r ↦ r.name =text= n
]

abbrev pub is_named : String → ℕ → Fs → DirEntry → Bool
is_named n parent s r = has_parent parent r && names_id s.names r.name_id n

unfoldable pub find_entry : String → ℕ → M DirEntry
unfolding get_row
find_entry n parent s = get_row (λ t. t.contents) (is_named n parent s) s

-- `except NoSuchRowError: raise e`
unfoldable pub missing : {A : Type 0} → Error → Error → M A
missing e no_such_row = raise e
missing e x = raise x

-- `has_val("SELECT 1 FROM contents WHERE parent_inode=?")`
unfoldable pub has_children : ℕ → Fs → Bool
has_children id s = ltb 0 (count (has_parent id) s.contents)

unfoldable pub lookup_named : ℕ → String → M Inode
unfolding find_entry missing inode
lookup_named id_p name = do row ← catch (find_entry name id_p) (missing enoent); inode row.inode

unfoldable pub lookup_parent : ℕ → M Inode
unfolding get_row inode
lookup_parent id = do row ← get_row (λ s. s.contents) (λ r. r.inode == id); inode row.parent_inode

-- `_lookup`. The owner of the control file, which is taken from the process, is not modelled.
unfoldable pub lookup : ℕ → String → M Inode
unfolding lookup_named lookup_parent open_inode
lookup id_p name = do
  row ← branch (name =text= ctrl_name) (inode ctrl_inode) (
      branch (name =text= ".") (inode id_p)
        (branch (name =text= "..") (lookup_parent id_p) (lookup_named id_p name)))
  modify (open_inode row.id)
  pure row

-- `INSERT INTO contents`: an entry of that name and parent may not be there.
unfoldable pub insert_entry : ℕ → ℕ → ℕ → M (Unit {0})
insert_entry name_id id parent = do
  n ← gets (λ s. count (is_entry name_id parent) s.contents)
  branch (ltb 0 n) (raise constraint) (
      modify (λ s. record s {
        contents =
            s.contents ++ (record { name_id = name_id; inode = id; parent_inode = parent }) ∷ [];
      }))

-- `InodeCache.create_inode`
unfoldable pub create_inode : (ℕ → Inode) → M Inode
unfolding inode
create_inode attrs = do
  id ← gets (λ s. s.last_inode + 1)
  modify (λ s. record s { inodes = s.inodes ++ attrs id ∷ []; last_inode = id })
  inode id

abbrev pub touch : ℕ → Inode → Inode
touch now i = record i { mtime_ns = now; ctime_ns = now }

-- The `UPDATE`, `DELETE` and `del` at the end of an inode that nothing refers to.
abbrev pub attr_names : ℕ → Fs → Name → Bool
attr_names id s r = ltb 0 (count (λ (x : Xattr). x.inode == id && x.name_id == r.id) s.xattrs)

abbrev pub decr_attr_names : ℕ → Fs → List Name
decr_attr_names id s =
    update (attr_names id s) (λ r. record r { refcount = r.refcount - 1 }) s.names

unfoldable pub drop_attr_names : ℕ → Fs → Fs
drop_attr_names id s = record s {
  names = delete (λ r. r.refcount == 0 && attr_names id s r) (decr_attr_names id s);
  xattrs = delete (λ x. x.inode == id) s.xattrs;
  symlinks = delete (λ x. x.inode == id) s.symlinks;
}

unfoldable pub delete_inode : ℕ → M (Unit {0})
delete_inode id = do
  n ← gets (λ s. count (has_key inode_key id) s.inodes)
  modify (λ s. record s { inodes = delete (has_key inode_key id) s.inodes })
  branch (n == 0) (raise key_error) (pure tt)

-- `int(math.ceil(size / max_obj_size))`
abbrev pub ceil_div : ℕ → ℕ → ℕ
ceil_div a b = (a + b - 1) / b

module _ (env : Env) where
  unfoldable pub new_inode : Ctx → Inode → ℕ → ℕ → ℕ → ℕ → ℕ → Inode
  new_inode ctx inode_p mode rdev size now id = record {
    id = id;
    mode = if has_setgid inode_p.mode && is_dir mode then add_setgid mode else mode;
    refcount = 1;
    uid = ctx.uid;
    gid = if has_setgid inode_p.mode then inode_p.gid else ctx.gid;
    size = size;
    locked = false;
    rdev = rdev;
    atime_ns = now;
    mtime_ns = now;
    ctime_ns = now;
  }

  -- The part of `_create` behind its checks.
  unfoldable pub make_entry : ℕ → String → ℕ → Ctx → ℕ → ℕ → ℕ → Inode → M Inode
  unfolding set_inode create_inode new_inode add_name insert_entry
  make_entry id_p name mode ctx rdev size now inode_p = do
    set_inode id_p (touch now)
    row ← create_inode (new_inode ctx inode_p mode rdev size now)
    name_id ← add_name name
    insert_entry name_id row.id id_p
    pure row

  unfoldable pub create_entry : ℕ → String → ℕ → Ctx → ℕ → ℕ → M Inode
  unfolding inode make_entry
  create_entry id_p name mode ctx rdev size = branch (name =text= ctrl_name) (raise eacces) do
    now ← gets env.time_ns
    inode_p ← inode id_p
    branch inode_p.locked (raise eperm) (
        branch (inode_p.refcount == 0) (raise einval)
          (make_entry id_p name mode ctx rdev size now inode_p))

  -- `if self.failsafe: raise FUSEError(errno.EPERM)`
  unfoldable pub unless_failsafe : {A : Type 0} → M A → M A
  unless_failsafe m = do failed ← gets (λ s. s.failsafe); branch failed (raise eperm) m

  unfoldable pub mknod : ℕ → String → ℕ → ℕ → Ctx → M Inode
  unfolding unless_failsafe create_entry open_inode
  mknod id_p name mode rdev ctx =
      unless_failsafe
        do row ← create_entry id_p name mode ctx rdev 0; modify (open_inode row.id); pure row

  unfoldable pub mkdir : ℕ → String → ℕ → Ctx → M Inode
  unfolding unless_failsafe create_entry open_inode
  mkdir id_p name mode ctx =
      unless_failsafe
        do row ← create_entry id_p name mode ctx 0 0; modify (open_inode row.id); pure row

  -- The mode is `S_IFLNK` with all permissions.
  unfoldable pub symlink : ℕ → String → List ℕ → Ctx → M Inode
  unfolding unless_failsafe create_entry open_inode
  symlink id_p name target ctx = unless_failsafe do
    row ← create_entry id_p name (10 * 4096 + 0o777) ctx 0 (length target)
    modify (λ s. record s {
      symlinks = s.symlinks ++ (record { inode = row.id; target = target }) ∷ [];
    })
    modify (open_inode row.id)
    pure row

  unfoldable pub link_checked : ℕ → ℕ → String → ℕ → M Inode
  unfolding set_inode add_name insert_entry inode open_inode
  link_checked id new_id_p new_name now = do
    set_inode new_id_p (touch now)
    name_id ← add_name new_name
    insert_entry name_id id new_id_p
    set_inode id (λ i. record i { refcount = i.refcount + 1; ctime_ns = now })
    modify (open_inode id)
    inode id

  unfoldable pub link : ℕ → ℕ → String → M Inode
  unfolding inode link_checked
  link id new_id_p new_name =
      branch (new_name =text= ctrl_name || id == ctrl_inode) (raise eacces) do
        now ← gets env.time_ns
        inode_p ← inode new_id_p
        failed ← gets (λ s. s.failsafe)
        branch (inode_p.refcount == 0) (raise einval) (
            branch (failed || inode_p.locked) (raise eperm) (link_checked id new_id_p new_name now))
