-- ===== src/Fsck/Unix.antt =====
-- `check_unix` and `check_foreign_keys` of src/s3ql/fsck.py.
use s3ql.Prelude.{
  ℕ, ◌+◌, ◌/◌, ◌%◌, Bool, true, false, not, ◌&&◌, ◌||◌, List, [], ◌∷◌, Option, none, some, length,
  ltb, ◌==◌, if◌then◌else◌,
}
use s3ql.Prelude.Sql.{select, count, update, has_key}
use s3ql.Prelude.Effect.{pure, gets, branch, modify, ◌>>=◌, ◌>>◌}
use s3ql.Fs.State.{Inode, Symlink, inode_key, is_dir, is_reg}
use s3ql.Fsck.State.{
  Value, Name, DirEntry, Xattr, Block, blob, text, Fsck, M, name_key, object_key, symlink_key,
  has_row, found_error, for_each,
}
use s3ql.Fsck.Paths.{get_path, bytes_of}

-- `stat.S_IFMT`, and the types of `stat`
abbrev pub ifmt : ℕ → ℕ
ifmt mode = mode / 4096 % 16

abbrev pub is_lnk : ℕ → Bool
is_lnk mode = ifmt mode == 10

abbrev pub is_device : ℕ → Bool
is_device mode = ifmt mode == 6 || ifmt mode == 2

-- The mode that an inode without a type gets: S_IFDIR is 4 * 4096, and S_IFREG 8 * 4096.
unfoldable pub mended_mode : Bool → ℕ → ℕ
mended_mode children mode =
    if ifmt mode == 0 then (if children then mode + 16384 else mode + 32768) else mode

-- The conventions in the order they are checked, each with whether it is violated.
unfoldable pub violations : Bool → Bool → Option (List ℕ) → ℕ → Inode → List Bool
violations children blocks target mode r =
    (is_lnk mode && elim target [ none ↦ true | some t ↦ false ])
    ∷ (is_lnk mode && elim target [ none ↦ false | some t ↦ not (r.size == length t) ])
    ∷ (not (r.size == 0) && not (is_reg mode) && not (is_lnk mode) && not (is_dir mode))
    ∷ (not (is_lnk mode) && elim target [ none ↦ false | some t ↦ true ])
    ∷ (not (r.rdev == 0) && not (is_device mode))
    ∷ (children && not (is_dir mode))
    ∷ (not (is_reg mode) && blocks)
    ∷ []

-- Each is an error, which is logged with the path.
unfoldable pub report : ℕ → Bool → M (Unit {0})
unfolding found_error get_path
report id violated = branch (not violated) (pure tt) do modify found_error; get_path id []; pure tt

unfoldable pub mend_mode : Bool → Inode → M (Unit {0})
unfolding found_error get_path mended_mode
mend_mode children r = branch (not (ifmt r.mode == 0)) (pure tt) do
  modify found_error
  get_path r.id []
  modify (λ s. record s {
    inodes =
        update (has_key inode_key r.id) (λ x. record x { mode = mended_mode children r.mode })
          s.inodes;
  })

abbrev pub target_of : Option Symlink → Option (List ℕ)
target_of none = none
target_of (some r) = some r.target

unfoldable pub check_inode : Inode → M (Unit {0})
unfolding mend_mode violations report for_each
check_inode r = do
  children ← gets (λ s. ltb 0 (count (λ e. e.parent_inode == r.id) s.contents))
  mend_mode children r
  blocks ← gets (λ s. ltb 0 (count (λ b. b.inode == r.id) s.blocks))
  target ← gets (λ s. target_of (select (has_key symlink_key r.id) s.symlinks))
  for_each (violations children blocks target (mended_mode children r.mode) r) (report r.id)

-- `LENGTH(name) > 255`
abbrev pub value_length : Value → ℕ
value_length (blob s) = length s
value_length (text s) = length s

unfoldable pub check_length : DirEntry → Option Name → M (Unit {0})
unfolding found_error bytes_of get_path
check_length e none = pure tt
check_length e (some r) =
    branch (not (ltb 255 (value_length r.name))) (pure tt)
      do n ← bytes_of r.name; get_path e.parent_inode (n ∷ []); modify found_error

unfoldable pub check_name_length : DirEntry → M (Unit {0})
unfolding check_length
check_name_length e = do
  row ← gets (λ s. select (has_key name_key e.name_id) s.names)
  check_length e row

unfoldable pub check_unix : M (Unit {0})
unfolding check_inode check_name_length for_each
check_unix = do
  inodes ← gets (λ s. s.inodes)
  for_each inodes check_inode
  contents ← gets (λ s. s.contents)
  for_each contents check_name_length

-- `check_foreign_keys`: the references that the tables of src/s3ql/metadata.py declare.
unfoldable pub refers : {A B : Type 0} → (A → ℕ) → (B → ℕ) → List A → List B → Bool
unfolding has_row
refers ref key [] t = true
refers ref key (r ∷ rows) t = let rest = refers ref key rows t in has_row key (ref r) t && rest

unfoldable pub has_no_dangling : Fsck → Bool
unfolding refers
has_no_dangling s =
    refers (λ (r : Block). r.inode) inode_key s.blocks s.inodes
    && refers (λ (r : Block). r.obj_id) object_key s.blocks s.objects
    && refers (λ (r : Symlink). r.inode) inode_key s.symlinks s.inodes
    && refers (λ (r : DirEntry). r.name_id) name_key s.contents s.names
    && refers (λ (r : DirEntry). r.inode) inode_key s.contents s.inodes
    && refers (λ (r : DirEntry). r.parent_inode) inode_key s.contents s.inodes
    && refers (λ (r : Xattr). r.inode) inode_key s.xattrs s.inodes
    && refers (λ (r : Xattr). r.name_id) name_key s.xattrs s.names

unfoldable pub check_foreign_keys : Fsck → Fsck
unfolding has_no_dangling found_error
check_foreign_keys s =
    if has_no_dangling s then s else record (found_error s) { uncorrectable_errors = true }
