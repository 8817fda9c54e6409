-- ===== src/Fs/State.antt =====
-- The state of `Operations` in src/s3ql/fs.py: the tables of the metadata database that it changes
-- (src/s3ql/metadata.py), the open inodes, and what it knows of broken blocks.
use mathlib.Core.Option
use text.Mathlib.Text.{◌==◌ as ◌=text=◌}
use s3ql.Prelude.{
  ℕ, ◌+◌, ◌-◌, ◌/◌, ◌%◌, max, Bool, true, false, ◌&&◌, List, [], ◌∷◌, ◌++◌, Option, none, some,
  String, ltb, ◌==◌, if◌then◌else◌,
}
use s3ql.Prelude.Int.{ℤ, pos, ◌+ℤ◌}
use s3ql.Prelude.Sql.{select, count, update, delete, has_key}
use s3ql.Prelude.Effect.{Action, pure, raise, gets, branch, modify, ◌>>=◌, ◌>>◌}

-- A row of `names`. Names are bytes, which are only compared.
pub record Name : Type 0 where
  pub id : ℕ
  pub name : String
  pub refcount : ℕ

-- A row of `contents`: a directory entry.
pub record DirEntry : Type 0 where
  pub name_id : ℕ
  pub inode : ℕ
  pub parent_inode : ℕ

-- A row of `inodes`.
pub record Inode : Type 0 where
  pub id : ℕ
  pub mode : ℕ
  pub refcount : ℕ
  pub uid : ℕ
  pub gid : ℕ
  pub size : ℕ
  pub locked : Bool
  pub rdev : ℕ
  pub atime_ns : ℕ
  pub mtime_ns : ℕ
  pub ctime_ns : ℕ

-- A row of `ext_attributes`.
pub record Xattr : Type 0 where
  pub inode : ℕ
  pub name_id : ℕ
  pub value : List ℕ

-- A row of `symlink_targets`.
pub record Symlink : Type 0 where
  pub inode : ℕ
  pub target : List ℕ

-- The errors of the protocol, and the exceptions that are not caught.
pub data Error : Type 0 where
  enoent eperm einval enotempty eisdir enotdir eacces enotsup eio enoattr acl : Error
  no_such_row no_unique_value key_error constraint no_such_object corrupted_object : Error

-- `open_inodes` and `broken_blocks` are dictionaries by inode. `blocks` is the data of the files,
-- by inode and block, as the block cache gives it.
pub record Fs : Type 0 where
  pub names : List Name
  pub contents : List DirEntry
  pub inodes : List Inode
  pub last_inode : ℕ
  pub xattrs : List Xattr
  pub symlinks : List Symlink
  pub open_inodes : ℕ → Option ℤ
  pub broken_blocks : ℕ → List ℕ
  pub failsafe : Bool
  pub blocks : ℕ → ℕ → List ℕ

abbrev pub M : Type 0 → Type 0
M = Action Error Fs

-- The caller of an operation.
pub record Ctx : Type 0 where
  pub uid : ℕ
  pub gid : ℕ

-- What the operations call: the clock, the largest size of a block, and the removal of blocks
-- `BlockCache.remove(inode, start, end)`, during which other tasks run.
pub record Env : Type 0 where
  pub time_ns : Fs → ℕ
  pub max_obj_size : ℕ
  pub remove_blocks : ℕ → ℕ → ℕ → M (Unit {0})

abbrev pub name_key : Name → ℕ
name_key r = r.id

abbrev pub inode_key : Inode → ℕ
inode_key r = r.id

abbrev pub has_name : String → Name → Bool
has_name n r = r.name =text= n

abbrev pub is_entry : ℕ → ℕ → DirEntry → Bool
is_entry name_id parent r = r.name_id == name_id && r.parent_inode == parent

abbrev pub has_parent : ℕ → DirEntry → Bool
has_parent parent r = r.parent_inode == parent

abbrev pub is_xattr : ℕ → ℕ → Xattr → Bool
is_xattr i name_id r = r.inode == i && r.name_id == name_id

-- The largest id of a table, from which SQLite counts on for a plain primary key.
unfoldable pub max_id : List Name → ℕ
max_id [] = 0
max_id (r ∷ t) = max r.id (max_id t)

-- `get_row`: one row, or an exception.
unfoldable pub one_row : {A : Type 0} → ℕ → Option A → M A
one_row n none = raise no_such_row
one_row n (some r) = branch (ltb 1 n) (raise no_unique_value) (pure r)

unfoldable pub get_row : {A : Type 0} → (Fs → List A) → (A → Bool) → M A
unfolding one_row
get_row table p = do
  n ← gets (λ s. count p (table s))
  row ← gets (λ s. select p (table s))
  one_row n row

-- `self.inodes[id]`
unfoldable pub found_inode : Option Inode → M Inode
found_inode none = raise key_error
found_inode (some r) = pure r

unfoldable pub inode : ℕ → M Inode
unfolding found_inode
inode id = do row ← gets (λ s. select (has_key inode_key id) s.inodes); found_inode row

-- Attributes of `self.inodes[id]` are assigned.
unfoldable pub set_inode : ℕ → (Inode → Inode) → M (Unit {0})
unfolding inode
set_inode id f = do
  inode id
  modify (λ s. record s { inodes = update (has_key inode_key id) f s.inodes })

-- `open_inodes[id] += 1`
unfoldable pub open_inode : ℕ → Fs → Fs
open_inode id s = record s {
  open_inodes = λ j.
      if id == j then some (Option.get_or (s.open_inodes j) (pos 0) +ℤ pos 1) else s.open_inodes j;
}

abbrev pub is_open : ℕ → Fs → Bool
is_open id s = elim (s.open_inodes id) [ none ↦ false | some _ ↦ true ]

-- `stat.S_ISDIR`, `stat.S_ISREG`, and the bit `stat.S_ISGID`.
abbrev pub is_dir : ℕ → Bool
is_dir mode = mode / 4096 % 16 == 4

abbrev pub is_reg : ℕ → Bool
is_reg mode = mode / 4096 % 16 == 8

abbrev pub has_setgid : ℕ → Bool
has_setgid mode = mode / 1024 % 2 == 1

abbrev pub add_setgid : ℕ → ℕ
add_setgid mode = if has_setgid mode then mode else mode + 1024

abbrev pub ctrl_name : String
ctrl_name = ".__s3ql__ctrl__"

-- `pyfuse3.ROOT_INODE` is 1.
abbrev pub ctrl_inode : ℕ
ctrl_inode = 2

-- `_add_name`: the id of a name, which counts one more reference.
abbrev pub name_id_of : Option Name → ℕ → ℕ
name_id_of none fresh = fresh
name_id_of (some r) fresh = r.id

unfoldable pub add_name_row : String → Option Name → Fs → Fs
unfolding max_id
add_name_row n none s = record s {
  names = s.names ++ (record { id = max_id s.names + 1; name = n; refcount = 1 }) ∷ [];
}
add_name_row n (some r) s = record s {
  names = update (has_key name_key r.id) (λ x. record x { refcount = x.refcount + 1 }) s.names;
}

unfoldable pub add_name : String → M ℕ
unfolding add_name_row max_id
add_name n = do
  row ← gets (λ s. select (has_name n) s.names)
  fresh ← gets (λ s. max_id s.names + 1)
  modify (add_name_row n row)
  pure (name_id_of row fresh)

-- `_del_name`: the id of the name, which counts one reference less, and goes with the last.
unfoldable pub del_name_row : Name → Fs → Fs
del_name_row r s =
    if ltb 1 r.refcount
    then record s {
      names = update (has_key name_key r.id) (λ x. record x { refcount = x.refcount - 1 }) s.names;
    }
    else record s { names = delete (has_key name_key r.id) s.names }

unfoldable pub del_name : String → M ℕ
unfolding get_row del_name_row
del_name n = do row ← get_row (λ s. s.names) (has_name n); modify (del_name_row row); pure row.id
