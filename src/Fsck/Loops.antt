-- ===== src/Fsck/Loops.antt =====
-- `check_loops` of src/s3ql/fsck.py: directories that cannot be reached from the root are moved to
-- lost+found.
use mathlib.Core.Option
use s3ql.Prelude.{
  ℕ, zero, suc, Bool, false, not, ◌&&◌, List, [], ◌∷◌, Option, none, some, length, ltb, ◌==◌,
  if◌then◌else◌,
}
use s3ql.Prelude.Sql.{select, count, update, delete, has_key}
use s3ql.Prelude.Effect.{pure, raise, gets, modify, ◌>>=◌, ◌>>◌}
use s3ql.Fsck.State.{
  blob, DirEntry, recursion, unresolved, M, name_key, has_row, root_inode, found_error, first_row,
}
use s3ql.Fsck.Paths.{put_contents, add_name, bytes_of, del_name, resolve_free}
use s3ql.Fsck.Entries.{lost_found_path}

-- A row of `loopcheck`: a directory, and the one that it is in.
pub record Loop : Type 0 where
  pub inode : ℕ
  pub parent_inode : Option ℕ

abbrev pub loop_key : Loop → ℕ
loop_key r = r.inode

abbrev pub parent_of : Option DirEntry → Option ℕ
parent_of none = none
parent_of (some e) = some e.parent_inode

unfoldable pub loopcheck : List DirEntry → List DirEntry → List Loop
unfolding has_row
loopcheck all [] = []
loopcheck all (e ∷ t) =
    let rest = loopcheck all t in
    if has_row loop_key e.parent_inode rest
    then rest
    else (record {
      inode = e.parent_inode;
      parent_inode = parent_of (select (λ r. r.inode == e.parent_inode) all);
    })
      ∷ rest

abbrev pub is_in : ℕ → Loop → Bool
is_in parent r = elim r.parent_inode [ none ↦ false | some p ↦ p == parent ]

-- A call for each child, one after the other.
unfoldable pub each : (ℕ → List ℕ → Option (List ℕ)) → List Loop → List ℕ → Option (List ℕ)
each f [] left = some left
each f (r ∷ rows) left = elim (f r.inode left) [ none ↦ none | some now ↦ each f rows now ]

abbrev pub without : ℕ → List ℕ → List ℕ
without id left = delete (λ x. x == id) left

-- `delete_tree`, on what is left of `loopcheck2`. It is `none` when it calls itself without an end.
unfoldable pub delete_tree : ℕ → List Loop → ℕ → List ℕ → Option (List ℕ)
unfolding each
delete_tree zero loops inode_p left = none
delete_tree (suc n) loops inode_p left =
    Option.map (without inode_p)
      (each (delete_tree n loops) (delete (λ r. not (is_in inode_p r)) loops) left)

-- "Try obvious culprits first"
unfoldable pub culprit : List DirEntry → ℕ → List ℕ → ℕ
culprit contents first left =
    elim (select (λ id. ltb 0 (count (λ e. e.inode == id && e.parent_inode == id) contents)) left) [
      | some id ↦ id
      | none ↦ first
    ]

unfoldable pub least : ℕ → List ℕ → ℕ
least x [] = x
least x (y ∷ ys) = if ltb y x then least y ys else least x ys

-- The entry of the directory is moved to lost+found.
unfoldable pub reanchor : ℕ → M ℕ
unfolding first_row bytes_of resolve_free add_name put_contents del_name has_row
reanchor id = do
  row ← gets (λ s. select (λ r. r.inode == id && has_row name_key r.name_id s.names) s.contents)
  entry ← first_row row
  named ← gets (λ s. select (has_key name_key entry.name_id) s.names)
  old ← first_row named
  n ← bytes_of old.name
  (id_p, name) ← resolve_free lost_found_path n
  name_id ← add_name (blob name)
  t ← gets (λ s. s.contents)
  put_contents (
      update (λ r. r.inode == id && r.name_id == entry.name_id)
        (λ r. record r { name_id = name_id; parent_inode = id_p }) t)
  modify (del_name entry.name_id)
  pure id_p

-- What cannot be reached from a directory.
unfoldable pub unreached : List Loop → ℕ → List ℕ → Option (List ℕ)
unfolding delete_tree
unreached loops root left = delete_tree (suc (length loops)) loops root left

-- The loop of `check_loops`, at `root`.
unfoldable pub anchor_loop : ℕ → List Loop → ℕ → List ℕ → M (Unit {0})
unfolding culprit least reanchor found_error
anchor_loop zero loops root left = raise unresolved
anchor_loop (suc n) loops root left = elim (unreached loops root left) [
  | none ↦ raise recursion
  | some [] ↦ pure tt
  | some (x ∷ xs) ↦ do
    modify found_error
    contents ← gets (λ s. s.contents)
    let id = culprit contents (least x xs) (x ∷ xs)
    id_p ← reanchor id
    anchor_loop n (update (has_key loop_key id) (λ r. record r { parent_inode = some id_p }) loops)
        id (x ∷ xs)
]

abbrev pub inodes_of : List Loop → List ℕ
inodes_of [] = []
inodes_of (r ∷ rows) = r.inode ∷ inodes_of rows

unfoldable pub check_loops : M (Unit {0})
unfolding loopcheck anchor_loop
check_loops = do
  loops ← gets (λ s. loopcheck s.contents s.contents)
  anchor_loop (suc (length loops)) loops root_inode (inodes_of loops)
