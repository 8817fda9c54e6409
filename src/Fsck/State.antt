-- ===== src/Fsck/State.antt =====
-- The state of `Fsck` in src/s3ql/fsck.py: the tables of the metadata database (src/s3ql/metadata.py)
-- that it reads and repairs, the objects of the backend, the files of the cache directory, and what
-- the checker knows.
use s3ql.Prelude.{
  ℕ, ◌≡◌, max, Bool, true, false, ◌&&◌, List, [], ◌∷◌, Option, none, some, ltb, ◌==◌, arith, refl,
}
use s3ql.Prelude.Int.{ℤ, pos, negsuc}
use s3ql.Prelude.Sql.{select, count, delete, has_key}
use s3ql.Prelude.Effect.{Action, pure, raise, gets, branch, ◌>>=◌, ◌>>◌}
use s3ql.Fs.State.{Inode, Symlink}

-- Bytes, and strings as their code points.
abbrev pub Bytes : Type 0
Bytes = List ℕ

unfoldable pub eq_bytes : Bytes → Bytes → Bool
eq_bytes [] [] = true
eq_bytes (x ∷ s) (y ∷ t) = let rest = eq_bytes s t in x == y && rest
eq_bytes _ _ = false

-- SQLite does not take a string for the bytes that encode it.
pub data Value : Type 0 where
  blob text : Bytes → Value

unfoldable pub eq_value : Value → Value → Bool
unfolding eq_bytes
eq_value (blob s) (blob t) = eq_bytes s t
eq_value (text s) (text t) = eq_bytes s t
eq_value _ _ = false

-- A row of `names`.
pub record Name : Type 0 where
  pub id : ℕ
  pub name : Value
  pub refcount : ℤ

-- A row of `contents`.
pub record DirEntry : Type 0 where
  pub rowid : ℕ
  pub name_id : ℕ
  pub inode : ℕ
  pub parent_inode : ℕ

-- A row of `ext_attributes`, whose value is not read.
pub record Xattr : Type 0 where
  pub rowid : ℕ
  pub inode : ℕ
  pub name_id : ℕ

-- A row of `objects`. A hash is a number, and `none` for NULL.
pub record Object : Type 0 where
  pub id : ℕ
  pub hash : Option ℕ
  pub refcount : ℤ
  pub phys_size : ℤ
  pub length : ℕ

-- A row of `inode_blocks`.
pub record Block : Type 0 where
  pub rowid : ℕ
  pub inode : ℕ
  pub blockno : ℕ
  pub obj_id : ℕ

-- What the backend holds under `s3ql_data_<id>`: its size there.
pub record Stored : Type 0 where
  pub id : ℕ
  pub size : ℕ

-- A file of the cache directory: one `<inode>-<blockno>`, a temporary one, or another.
pub data CacheFile : Type 0 where
  block_file : ℕ → ℕ → Bytes → CacheFile
  temp_file : ℕ → ℕ → CacheFile
  strange_file : CacheFile

-- A directory of the local backend: its files and directories, one after the other.
pub data Dir : Type 0 where
  empty : Dir
  file : Bytes → Dir → Dir
  folder : Bytes → Dir → Dir → Dir

pub data Error : Type 0 where
  no_such_row no_unique_value key_error constraint no_such_object unresolved type_error strange
        recursion :
      Error

-- `prefix` is the directory of a local backend.
pub record Fsck : Type 0 where
  pub names : List Name
  pub contents : List DirEntry
  pub last_entry : ℕ
  pub inodes : List Inode
  pub last_inode : ℕ
  pub xattrs : List Xattr
  pub symlinks : List Symlink
  pub objects : List Object
  pub last_object : ℕ
  pub blocks : List Block
  pub stored : List Stored
  pub prefix : Option Dir
  pub cached : List CacheFile
  pub unlinked_objects : List ℕ
  pub found_errors : Bool
  pub uncorrectable_errors : Bool

abbrev pub M : Type 0 → Type 0
M = Action Error Fsck

-- What the code does not decide: the time, the user, the hash function, what size an object gets in
-- the backend, and what the backend lists under `s3ql_data_`, `none` for a name that is no number.
pub record Env : Type 0 where
  pub time_ns : ℕ
  pub uid : ℕ
  pub gid : ℕ
  pub sha256 : Bytes → ℕ
  pub obj_size : Bytes → ℕ
  pub list_objects : Fsck → List (Option ℕ)
  pub max_obj_size : ℕ

abbrev pub name_key : Name → ℕ
name_key r = r.id

abbrev pub entry_key : DirEntry → ℕ
entry_key r = r.rowid

abbrev pub xattr_key : Xattr → ℕ
xattr_key r = r.rowid

abbrev pub symlink_key : Symlink → ℕ
symlink_key r = r.inode

abbrev pub object_key : Object → ℕ
object_key r = r.id

abbrev pub block_key : Block → ℕ
block_key r = r.rowid

abbrev pub stored_key : Stored → ℕ
stored_key r = r.id

-- There is a row with that key.
unfoldable pub has_row : {A : Type 0} → (A → ℕ) → ℕ → List A → Bool
has_row key k t = ltb 0 (count (has_key key k) t)

unfoldable pub is_some : {A : Type 0} → Option A → Bool
is_some none = false
is_some (some a) = true

unfoldable pub eq_ℤ : ℤ → ℤ → Bool
eq_ℤ (pos a) (pos b) = a == b
eq_ℤ (negsuc a) (negsuc b) = a == b
eq_ℤ _ _ = false

-- `pyfuse3.ROOT_INODE` and `CTRL_INODE`
abbrev pub root_inode : ℕ
root_inode = 1

-- `self.found_errors = True`
unfoldable pub found_error : Fsck → Fsck
found_error s = record s { found_errors = true }

-- A loop over the rows of a query.
unfoldable pub for_each : {A : Type 0} → List A → (A → M (Unit {0})) → M (Unit {0})
for_each [] f = pure tt
for_each (x ∷ xs) f = f x >> for_each xs f

-- `DELETE … WHERE rowid=?` for each of some rows
unfoldable pub delete_rows : {A : Type 0} → (A → ℕ) → List A → List A → List A
delete_rows key [] t = t
delete_rows key (r ∷ rows) t = delete_rows key rows (delete (has_key key (key r)) t)

-- `SELECT … LIMIT 1` by `get_row` or `get_val`
unfoldable pub first_row : {A : Type 0} → Option A → M A
first_row none = raise no_such_row
first_row (some r) = pure r

-- `get_row` and `get_val`, where several rows are an error too
unfoldable pub get_row : {A : Type 0} → (Fsck → List A) → (A → Bool) → M A
unfolding first_row
get_row table p = do
  n ← gets (λ s. count p (table s))
  row ← gets (λ s. select p (table s))
  branch (ltb 1 n) (raise no_unique_value) (first_row row)

-- `WHERE name=?` on the join `contents_v` of entries and names.
unfoldable pub has_name_id : List Name → Value → ℕ → Bool
unfolding eq_value
has_name_id names n id = elim (select (has_key name_key id) names) [
  | none ↦ false
  | some r ↦ eq_value r.name n
]

unfoldable pub is_named : List Name → Value → ℕ → DirEntry → Bool
unfolding has_name_id
is_named names n parent r = r.parent_inode == parent && has_name_id names n r.name_id

-- The id that SQLite gives to a row of a table without AUTOINCREMENT.
unfoldable pub max_id : {A : Type 0} → (A → ℕ) → List A → ℕ
max_id key [] = 0
max_id key (r ∷ t) = max (key r) (max_id key t)

pub eq_bytes_refl : (s : Bytes) → eq_bytes s s ≡ true
unfolding eq_bytes
eq_bytes_refl [] = refl
eq_bytes_refl (x ∷ s) = ground (arith, eq_bytes_refl s)

pub eq_bytes-eq : (s t : Bytes) → eq_bytes s t ≡ true → s ≡ t
unfolding eq_bytes
eq_bytes-eq [] [] h = refl
eq_bytes-eq [] (y ∷ t) h = ground arith
eq_bytes-eq (x ∷ s) [] h = ground arith
eq_bytes-eq (x ∷ s) (y ∷ t) h = ground (arith, eq_bytes-eq s t)
