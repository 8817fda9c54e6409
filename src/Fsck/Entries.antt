-- ===== src/Fsck/Entries.antt =====
-- The checks of `contents` in src/s3ql/fsck.py: lost+found, and the names, parents and inodes that
-- directory entries refer to. A row of the outer table is joined when the loop comes to it.
use s3ql.Prelude.{
  ℕ, ◌+◌, ◌/◌, ◌%◌, Bool, not, ◌&&◌, ◌||◌, List, [], ◌∷◌, ◌++◌, none, some, drop, ltb, leb, ◌==◌,
  if◌then◌else◌,
}
use s3ql.Prelude.Sql.{select, update, delete, has_key}
use s3ql.Prelude.Effect.{pure, raise, gets, branch, modify, catch, ◌>>=◌, ◌>>◌}
use s3ql.Fs.State.{Inode, inode_key, is_dir}
use s3ql.BlockCache.State.{member}
use s3ql.Fsck.State.{
  Bytes, blob, DirEntry, Error, no_such_row, type_error, M, Env, name_key, entry_key, has_row,
  root_inode, found_error, for_each, first_row, get_row, has_name_id, is_named,
}
use s3ql.Fsck.Paths.{
  put_contents, insert_entry, move_entry, add_name, del_name, create_inode, bytes_of, get_path,
  decimal, resolve_free,
}
use s3ql.Fsck.Objects.{lost_found}

-- `except NoSuchRowError: h`
unfoldable pub if_no_row : {A : Type 0} → M A → Error → M A
if_no_row h no_such_row = h
if_no_row h e = raise e

-- b"/lost+found"
abbrev pub lost_found_path : Bytes
lost_found_path = 47 ∷ lost_found

-- S_IFDIR | S_IRUSR | S_IWUSR | S_IXUSR
abbrev pub dir_mode : ℕ
dir_mode = 16832

-- The entry of lost+found, which may have been moved into itself or be missing.
unfoldable pub move_lof : DirEntry → M (ℕ × ℕ)
unfolding put_contents
move_lof r = do
  t ← gets (λ s. s.contents)
  put_contents (update (λ x. x.inode == r.inode) (λ x. record x { parent_inode = root_inode }) t)
  pure (r.inode, r.name_id)

unfoldable pub create_lof : Env → M (ℕ × ℕ)
unfolding create_inode add_name insert_entry
create_lof env = do
  inode_l ← create_inode env dir_mode 1
  name_id ← add_name (blob lost_found)
  insert_entry name_id inode_l root_inode
  pure (inode_l, name_id)

unfoldable pub recover_lof : Env → M (ℕ × ℕ)
unfolding found_error get_row has_name_id if_no_row move_lof create_lof
recover_lof env = do
  modify found_error
  names ← gets (λ s. s.names)
  row ←
      catch
        (do
          r ←
              get_row (λ s. s.contents)
                (λ r. r.parent_inode == r.inode && has_name_id names (blob lost_found) r.name_id)
          pure (some r))
        (if_no_row (pure none))
  elim row [ some r ↦ move_lof r | none ↦ create_lof env ]

unfoldable pub find_lof : Env → M (ℕ × ℕ)
unfolding get_row is_named if_no_row recover_lof
find_lof env = do
  names ← gets (λ s. s.names)
  row ←
      catch
        (do
          r ← get_row (λ s. s.contents) (is_named names (blob lost_found) root_inode)
          pure (some r))
        (if_no_row (pure none))
  elim row [ some r ↦ pure (r.inode, r.name_id) | none ↦ recover_lof env ]

unfoldable pub replace_lof : Env → ℕ → M (Unit {0})
unfolding found_error create_inode
replace_lof env name_id = do
  modify found_error
  inode_l ← create_inode env dir_mode 1
  modify (λ s. record s {
    contents =
        update (λ r. r.name_id == name_id && r.parent_inode == root_inode)
          (λ r. record r { inode = inode_l }) s.contents;
  })

unfoldable pub check_lof : Env → M (Unit {0})
unfolding find_lof first_row replace_lof
check_lof env = do
  (inode_l, name_id) ← find_lof env
  row ← gets (λ s. select (has_key inode_key inode_l) s.inodes)
  inode ← first_row row
  branch (is_dir inode.mode) (pure tt) (replace_lof env name_id)

-- `escape`: slashes become underscores, of a path without its first byte.
unfoldable pub escape_bytes : Bytes → Bytes
escape_bytes [] = []
escape_bytes (x ∷ s) =
    let rest = escape_bytes s in
    if x == 95 then 95 ∷ 95 ∷ rest else if x == 47 then 95 ∷ rest else x ∷ rest

unfoldable pub escape : Bytes → Bytes
unfolding escape_bytes
escape path = escape_bytes (drop 1 path)

-- The entry gets a name that is free in lost+found.
unfoldable pub move_to_lof : ℕ → Bytes → M (Unit {0})
unfolding resolve_free add_name move_entry
move_to_lof rowid name = do
  (id_p_new, newname) ← resolve_free lost_found_path name
  name_id ← add_name (blob newname)
  move_entry rowid name_id id_p_new

-- The name in lost+found of an entry whose name is lost. `path` is cut twice, here and by `escape`.
unfoldable pub name_from_path : DirEntry → M Bytes
unfolding get_path decimal escape if_no_row
name_from_path r =
    catch
      (do path ← get_path r.parent_inode []; pure (escape (drop 1 path) ++ 45 ∷ decimal r.inode))
      (if_no_row (pure (45 ∷ decimal r.inode)))

unfoldable pub fix_entry_name : DirEntry → M (Unit {0})
unfolding name_from_path found_error move_to_lof
fix_entry_name r = do modify found_error; newname ← name_from_path r; move_to_lof r.rowid newname

unfoldable pub check_entry_name : DirEntry → M (Unit {0})
unfolding has_row fix_entry_name
check_entry_name r = do
  there ← gets (λ s. has_row name_key r.name_id s.names)
  branch there (pure tt) (fix_entry_name r)

unfoldable pub check_contents_name : M (Unit {0})
unfolding check_entry_name for_each
check_contents_name = do rows ← gets (λ s. s.contents); for_each rows check_entry_name

-- `'%s' % name` of bytes is `repr(name)`. 92 is the backslash, 39 the single quote and 34 the double.
abbrev pub hex_digit : ℕ → ℕ
hex_digit d = if ltb d 10 then 48 + d else 87 + d

unfoldable pub repr_byte : ℕ → ℕ → Bytes
repr_byte quote x =
    if x == quote || x == 92
    then 92 ∷ x ∷ []
    else if x == 9
    then 92 ∷ 116 ∷ []
    else if x == 10
    then 92 ∷ 110 ∷ []
    else if x == 13
    then 92 ∷ 114 ∷ []
    else if leb 32 x && ltb x 127
    then x ∷ []
    else 92 ∷ 120 ∷ hex_digit (x / 16) ∷ hex_digit (x % 16) ∷ []

unfoldable pub repr_bytes : ℕ → Bytes → Bytes
unfolding repr_byte
repr_bytes quote [] = quote ∷ []
repr_bytes quote (x ∷ s) = repr_byte quote x ++ repr_bytes quote s

unfoldable pub repr : Bytes → Bytes
unfolding repr_bytes member
repr s =
    let quote = if member 39 s && not (member 34 s) then 34 else 39 in
    98 ∷ quote ∷ repr_bytes quote s

-- `('[%d]-%s' % (inode_p, name)).encode()`
unfoldable pub orphan_name : ℕ → Bytes → Bytes
unfolding decimal repr
orphan_name inode_p name = 91 ∷ (decimal inode_p ++ 93 ∷ 45 ∷ repr name)

unfoldable pub fix_entry_parent : DirEntry → M (Unit {0})
unfolding found_error get_row bytes_of resolve_free del_name add_name move_entry orphan_name
fix_entry_parent r = do
  modify found_error
  row ← get_row (λ s. s.names) (has_key name_key r.name_id)
  name ← bytes_of row.name
  (id_p_new, newname) ← resolve_free lost_found_path (orphan_name r.parent_inode name)
  modify (del_name r.name_id)
  name_id ← add_name (blob newname)
  move_entry r.rowid name_id id_p_new

unfoldable pub check_entry_parent : DirEntry → M (Unit {0})
unfolding has_row fix_entry_parent
check_entry_parent r = do
  there ← gets (λ s. has_row inode_key r.parent_inode s.inodes)
  branch there (pure tt) (fix_entry_parent r)

unfoldable pub check_contents_parent_inode : M (Unit {0})
unfolding check_entry_parent for_each
check_contents_parent_inode = do rows ← gets (λ s. s.contents); for_each rows check_entry_parent

unfoldable pub dangles : List Inode → DirEntry → Bool
unfolding has_row
dangles inodes r = not (has_row inode_key r.inode inodes)

-- What `path` may be: bytes, or a string.
pub data Label : Type 0 where
  path_bytes path_text : Bytes → Label

-- `to_str`, to log the path: `str` with an encoding takes bytes only. What it makes of them is not looked at.
unfoldable pub to_str : Label → M (Unit {0})
to_str (path_bytes s) = pure tt
to_str (path_text s) = raise type_error

-- '[inode %d, parent %d]'
unfoldable pub entry_label : DirEntry → Bytes
unfolding decimal
entry_label r =
    (b'[' ∷ b'i' ∷ b'n' ∷ b'o' ∷ b'd' ∷ b'e' ∷ b' ' ∷ decimal r.inode)
    ++ (b','
        ∷ b' '
        ∷ b'p'
        ∷ b'a'
        ∷ b'r'
        ∷ b'e'
        ∷ b'n'
        ∷ b't'
        ∷ b' '
        ∷ (decimal r.parent_inode ++ b']' ∷ []))

unfoldable pub path_of : DirEntry → M Label
unfolding get_path if_no_row entry_label
path_of r =
    catch (do path ← get_path r.inode []; pure (path_bytes (drop 1 path)))
      (if_no_row (pure (path_text (entry_label r))))

-- An entry of an inode that is gone is to be deleted.
unfoldable pub forget_entry : DirEntry → M (Unit {0})
unfolding found_error path_of to_str del_name
forget_entry r = do modify found_error; path ← path_of r; to_str path; modify (del_name r.name_id)

unfoldable pub check_contents_inode : M (Unit {0})
unfolding dangles forget_entry for_each
check_contents_inode = do
  rows ← gets (λ s. delete (λ r. not (dangles s.inodes r)) s.contents)
  for_each rows forget_entry
  for_each rows
      (λ r. modify (λ s. record s { contents = delete (has_key entry_key r.rowid) s.contents }))
