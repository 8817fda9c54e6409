-- ===== src/Fsck/Attributes.antt =====
-- The checks in src/s3ql/fsck.py of the counts of names, of extended attributes and of the targets of
-- symbolic links.
use s3ql.Prelude.{ℕ, zero, suc, ◌+◌, Bool, not, ◌&&◌, ◌||◌, List, [], ◌∷◌, ◌++◌, length, ltb, ◌==◌}
use s3ql.Prelude.Int.{pos}
use s3ql.Prelude.Sql.{select, count, update, delete, has_key}
use s3ql.Prelude.Effect.{pure, raise, gets, branch, modify, ◌>>=◌, ◌>>◌}
use s3ql.Fs.State.{Inode, Symlink, inode_key}
use s3ql.Fsck.State.{
  Value, text, Name, DirEntry, Xattr, unresolved, Fsck, M, name_key, xattr_key, symlink_key,
  has_row, eq_ℤ, found_error, for_each, first_row, delete_rows,
}
use s3ql.Fsck.Paths.{add_name, bytes_of, decimal, del_name, get_path}
use s3ql.Fsck.Objects.{lost_found}

-- `refcounts`: a row for each name, with the number of entries and attributes that have it.
abbrev pub name_uses : ℕ → List DirEntry → List Xattr → ℕ
name_uses id contents xattrs =
    count (λ r. r.name_id == id) contents + count (λ r. r.name_id == id) xattrs

unfoldable pub miscounts : List DirEntry → List Xattr → Name → Bool
unfolding eq_ℤ
miscounts contents xattrs r = not (eq_ℤ r.refcount (pos (name_uses r.id contents xattrs)))

abbrev pub set_refcount : ℕ → Name → Name
set_refcount n r = record r { refcount = pos n }

-- Every name has a row in `refcounts`, so that `cnt` is never None.
unfoldable pub fix_names : List DirEntry → List Xattr → List Name → List Name → List Name
fix_names contents xattrs [] t = t
fix_names contents xattrs (r ∷ wrong) t =
    fix_names contents xattrs wrong
      (update (has_key name_key r.id) (set_refcount (name_uses r.id contents xattrs)) t)

unfoldable pub check_names_refcount : Fsck → Fsck
unfolding miscounts fix_names
check_names_refcount s =
    let wrong = delete (λ r. not (miscounts s.contents s.xattrs r)) s.names in
    record s {
      names = fix_names s.contents s.xattrs wrong s.names;
      found_errors = s.found_errors || not (length wrong == 0);
    }

-- `'lost+found_%d' % rowid`, a string
unfoldable pub attr_name : ℕ → Value
unfolding decimal
attr_name rowid = text (lost_found ++ 95 ∷ decimal rowid)

-- `_del_name` of a string: no id of a name is equal to it.
unfoldable pub del_name_text : Value → Fsck → Fsck
del_name_text n s = s

abbrev pub is_attr : ℕ → ℕ → Xattr → Bool
is_attr name_id inode r = r.name_id == name_id && r.inode == inode

-- `UPDATE ext_attributes SET name_id=? WHERE rowid=?`
unfoldable pub rename_attr : ℕ → ℕ → Fsck → Fsck
rename_attr rowid name_id s = record s {
  xattrs = update (has_key xattr_key rowid) (λ r. record r { name_id = name_id }) s.xattrs;
}

-- The loop of `check_ext_attributes_name`. It counts `rowid` up, which says the row, too.
unfoldable pub rename_loop : ℕ → ℕ → ℕ → M (Unit {0})
unfolding attr_name add_name del_name_text rename_attr
rename_loop zero rowid inode = raise unresolved
rename_loop (suc n) rowid inode = do
  name_id ← add_name (attr_name rowid)
  taken ← gets (λ s. ltb 0 (count (is_attr name_id inode) s.xattrs))
  branch (not taken) (modify (rename_attr rowid name_id))
      do modify (del_name_text (attr_name rowid)); rename_loop n (rowid + 1) inode

-- The paths of the attribute's inode are told to be logged.
unfoldable pub log_path : DirEntry → M (Unit {0})
unfolding first_row bytes_of get_path
log_path r = do
  row ← gets (λ s. select (has_key name_key r.name_id) s.names)
  name ← first_row row
  n ← bytes_of name.name
  get_path r.parent_inode (n ∷ [])
  pure tt

unfoldable pub fix_attr_name : Xattr → M (Unit {0})
unfolding found_error for_each log_path rename_loop has_row
fix_attr_name r = do
  modify found_error
  entries ←
      gets (λ s.
        delete (λ e. not (e.inode == r.inode && has_row name_key e.name_id s.names)) s.contents)
  for_each entries log_path
  rows ← gets (λ s. length s.xattrs)
  rename_loop (suc rows) r.rowid r.inode

unfoldable pub check_attr_name : Xattr → M (Unit {0})
unfolding has_row fix_attr_name
check_attr_name r = do
  there ← gets (λ s. has_row name_key r.name_id s.names)
  branch there (pure tt) (fix_attr_name r)

unfoldable pub check_ext_attributes_name : M (Unit {0})
unfolding for_each check_attr_name
check_ext_attributes_name = do rows ← gets (λ s. s.xattrs); for_each rows check_attr_name

-- Attributes of an inode that is gone
unfoldable pub is_orphan : List Inode → Xattr → Bool
unfolding has_row
is_orphan inodes r = not (has_row inode_key r.inode inodes)

unfoldable pub del_names : List Xattr → Fsck → Fsck
unfolding del_name
del_names [] s = s
del_names (r ∷ rows) s = del_names rows (del_name r.name_id s)

unfoldable pub check_ext_attributes_inode : Fsck → Fsck
unfolding is_orphan del_names delete_rows
check_ext_attributes_inode s =
    let rows = delete (λ r. not (is_orphan s.inodes r)) s.xattrs in
    let after = del_names rows s in
    record after {
      xattrs = delete_rows xattr_key rows s.xattrs;
      found_errors = s.found_errors || not (length rows == 0);
    }

-- Targets of an inode that is gone
unfoldable pub has_no_inode : List Inode → Symlink → Bool
unfolding has_row
has_no_inode inodes r = not (has_row inode_key r.inode inodes)

unfoldable pub check_symlinks_inode : Fsck → Fsck
unfolding has_no_inode delete_rows
check_symlinks_inode s =
    let rows = delete (λ r. not (has_no_inode s.inodes r)) s.symlinks in
    record s {
      symlinks = delete_rows symlink_key rows s.symlinks;
      found_errors = s.found_errors || not (length rows == 0);
    }
