-- ===== src/Fsck/Inodes.antt =====
-- The checks in src/s3ql/fsck.py of the sizes and counts of inodes, and of the blocks that belong to
-- them.
use s3ql.Prelude.{
  ℕ, ◌+◌, ◌*◌, max, Bool, not, ◌&&◌, ◌||◌, List, [], ◌∷◌, none, some, length, ltb, ◌==◌,
  if◌then◌else◌,
}
use s3ql.Prelude.Int.{pos, ◌-ℤ◌}
use s3ql.Prelude.Sql.{select, count, update, delete, has_key}
use s3ql.Prelude.Effect.{pure, gets, branch, modify, ◌>>=◌, ◌>>◌}
use s3ql.Fs.State.{Inode, inode_key, ctrl_inode}
use s3ql.Fsck.State.{
  Bytes, Value, blob, Name, DirEntry, Object, Block, Fsck, M, Env, name_key, object_key, block_key,
  has_row, root_inode, found_error, for_each, delete_rows,
}
use s3ql.Fsck.Paths.{
  put_contents, insert_entry, add_name, bytes_of, decimal, del_name, get_path, resolve_free,
}
use s3ql.Fsck.Entries.{lost_found_path, escape}

-- `MAX(blockno * ? + length)` of the blocks of an inode that have an object
unfoldable pub block_end : ℕ → List Object → Block → ℕ
block_end max_obj_size objects r = elim (select (has_key object_key r.obj_id) objects) [
  | none ↦ 0
  | some o ↦ r.blockno * max_obj_size + o.length
]

unfoldable pub min_size : ℕ → List Object → ℕ → List Block → ℕ
unfolding block_end
min_size max_obj_size objects id [] = 0
min_size max_obj_size objects id (r ∷ blocks) =
    let rest = min_size max_obj_size objects id blocks in
    if r.inode == id then max (block_end max_obj_size objects r) rest else rest

-- `wrong_sizes`. An inode without blocks has no minimum, and none is below 0.
unfoldable pub is_short : ℕ → List Object → List Block → Inode → Bool
unfolding min_size
is_short max_obj_size objects blocks r = ltb r.size (min_size max_obj_size objects r.id blocks)

abbrev pub with_size : ℕ → Inode → Inode
with_size n r = record r { size = n }

unfoldable pub fix_size : Env → Inode → M (Unit {0})
unfolding found_error get_path min_size
fix_size env r = do
  modify found_error
  get_path r.id []
  size ← gets (λ s. min_size env.max_obj_size s.objects r.id s.blocks)
  modify (λ s. record s { inodes = update (has_key inode_key r.id) (with_size size) s.inodes })

unfoldable pub check_inodes_size : Env → M (Unit {0})
unfolding is_short fix_size for_each
check_inodes_size env = do
  rows ← gets (λ s. delete (λ r. not (is_short env.max_obj_size s.objects s.blocks r)) s.inodes)
  for_each rows (fix_size env)

-- `refcounts`: how many entries refer to an inode. There is no row for 0.
abbrev pub links : ℕ → List DirEntry → ℕ
links id contents = count (λ r. r.inode == id) contents

unfoldable pub is_miscounted : List DirEntry → Inode → Bool
is_miscounted contents r = not (r.refcount == links r.id contents) || links r.id contents == 0

abbrev pub with_refcount : ℕ → Inode → Inode
with_refcount n r = record r { refcount = n }

unfoldable pub set_links : ℕ → ℕ → Fsck → Fsck
set_links id n s = record s { inodes = update (has_key inode_key id) (with_refcount n) s.inodes }

-- b"inode-%d"
unfoldable pub inode_name : ℕ → Bytes
unfolding decimal
inode_name id = 105 ∷ 110 ∷ 111 ∷ 100 ∷ 101 ∷ 45 ∷ decimal id

unfoldable pub adopt : ℕ → M (Unit {0})
unfolding resolve_free add_name insert_entry set_links inode_name
adopt id = do
  (id_p, name) ← resolve_free lost_found_path (inode_name id)
  name_id ← add_name (blob name)
  insert_entry name_id id id_p
  modify (set_links id 1)

-- `cnt` is what `refcounts` had before the loop.
unfoldable pub fix_links : Inode × ℕ → M (Unit {0})
unfolding found_error adopt get_path set_links
fix_links (r, cnt) = branch (r.id == root_inode || r.id == ctrl_inode) (pure tt) do
  modify found_error
  branch (cnt == 0) (adopt r.id) do get_path r.id []; modify (set_links r.id cnt)

unfoldable pub miscounted : List DirEntry → List Inode → List (Inode × ℕ)
unfolding is_miscounted
miscounted contents [] = []
miscounted contents (r ∷ t) =
    let rest = miscounted contents t in
    if is_miscounted contents r then (r, links r.id contents) ∷ rest else rest

unfoldable pub check_inodes_refcount : M (Unit {0})
unfolding miscounted fix_links for_each
check_inodes_refcount = do
  rows ← gets (λ s. miscounted s.contents s.inodes)
  for_each rows fix_links

-- A block of an inode that is gone
unfoldable pub has_no_inode : List Inode → Block → Bool
unfolding has_row
has_no_inode inodes r = not (has_row inode_key r.inode inodes)

abbrev pub less : Object → Object
less r = record r { refcount = r.refcount -ℤ pos 1 }

unfoldable pub unlink_objects : List Block → Fsck → Fsck
unlink_objects [] s = s
unlink_objects (r ∷ rows) s = unlink_objects rows (record s {
  objects = update (has_key object_key r.obj_id) less s.objects;
  unlinked_objects = r.obj_id ∷ s.unlinked_objects;
})

unfoldable pub check_inode_blocks_inode : Fsck → Fsck
unfolding has_no_inode unlink_objects delete_rows
check_inode_blocks_inode s =
    let rows = delete (λ r. not (has_no_inode s.inodes r)) s.blocks in
    let after = unlink_objects rows s in
    record after {
      blocks = delete_rows block_key rows s.blocks;
      found_errors = s.found_errors || not (length rows == 0);
    }

-- A block of an object that is gone: the files that have it are moved to lost+found.
unfoldable pub has_no_object : List Object → Block → Bool
unfolding has_row
has_no_object objects r = not (has_row object_key r.obj_id objects)

-- `UPDATE contents SET name_id=?, parent_inode=? WHERE name_id=? AND parent_inode=?`
unfoldable pub move_named : ℕ → ℕ → ℕ → ℕ → M (Unit {0})
unfolding put_contents
move_named name_id parent new_id new_parent = do
  t ← gets (λ s. s.contents)
  put_contents (
      update (λ r. r.name_id == name_id && r.parent_inode == parent)
        (λ r. record r { name_id = new_id; parent_inode = new_parent }) t)

unfoldable pub move_affected : DirEntry × Value → M (Unit {0})
unfolding bytes_of get_path resolve_free add_name move_named del_name escape
move_affected (e, name) = do
  n ← bytes_of name
  path ← get_path e.parent_inode (n ∷ [])
  (lof_id, newname) ← resolve_free lost_found_path (escape path)
  name_id ← add_name (blob newname)
  move_named e.name_id e.parent_inode name_id lof_id
  modify (del_name e.name_id)

-- `SELECT … FROM contents_v WHERE inode=?`
unfoldable pub entries_of : ℕ → List Name → List DirEntry → List (DirEntry × Value)
entries_of id names [] = []
entries_of id names (e ∷ t) =
    let rest = entries_of id names t in
    if e.inode == id
    then elim (select (has_key name_key e.name_id) names) [
      | none ↦ rest
      | some r ↦ (e, r.name) ∷ rest
    ]
    else rest

unfoldable pub fix_block : Block → M (Unit {0})
unfolding found_error entries_of for_each move_affected
fix_block r = do
  modify found_error
  affected ← gets (λ s. entries_of r.inode s.names s.contents)
  for_each affected move_affected

unfoldable pub check_inode_blocks_obj_id : M (Unit {0})
unfolding has_no_object fix_block for_each delete_rows
check_inode_blocks_obj_id = do
  rows ← gets (λ s. delete (λ r. not (has_no_object s.objects r)) s.blocks)
  for_each rows fix_block
  modify (λ s. record s { blocks = delete_rows block_key rows s.blocks })
