-- ===== src/Fs/Tests.antt =====
-- The theorems on src/s3ql/fs.py at a file of six bytes, in blocks of four.
use s3ql.Prelude.{
  ℕ, ◌≡◌, refl, false, List, [], ◌∷◌, Option, none, some, arith, ◌==◌, if◌then◌else◌, get_elem?,
  length,
}
use s3ql.Prelude.Sql.{select, count, has_key}
use s3ql.Prelude.Effect.{returned, pure}
use mathlib.Core.Option
use s3ql.Fs.State.{Name, name_key, is_xattr, Inode, Error, Fs, Env}
use s3ql.Fs.Attr.{setxattr}
use s3ql.Fs.XattrCount.{setxattr_lem}
use s3ql.Fs.Data.{read, write}
use s3ql.Fs.Data.Bytes.{file_byte}
use s3ql.Fs.Data.Read.{write_lem, read_lem, row_of}
use s3ql.Fs.Data.RoundTrip.{read-write_file}

-- Blocks of four bytes.
unfoldable small : Env
small = record { time_ns = λ s. 5; max_obj_size = 4; remove_blocks = λ i a b. pure tt }

abbrev sound : ℕ → ℕ → Fs → Option Error
sound id b s = none

abbrev file : Inode
file = record {
  id = 3;
  mode = 33188;
  refcount = 1;
  uid = 0;
  gid = 0;
  size = 6;
  locked = false;
  rdev = 0;
  atime_ns = 0;
  mtime_ns = 1;
  ctime_ns = 1;
}

unfoldable stored : Fs
stored = record {
  names = [];
  contents = [];
  inodes = file ∷ [];
  last_inode = 3;
  xattrs = [];
  symlinks = [];
  open_inodes = λ i. none;
  broken_blocks = λ i. [];
  failsafe = false;
  blocks = λ i b. if b == 0 then 1 ∷ 2 ∷ 3 ∷ 4 ∷ [] else if b == 1 then 5 ∷ 6 ∷ [] else [];
}

write_lem_example :
    let (r, t) = write small sound 3 2 (7 ∷ 8 ∷ 9 ∷ []) stored in
    (r ≡ returned 3)
    × (file_byte 4 3 4 t ≡ 9)
    × (Option.map (λ (x : Inode). x.size) (row_of 3 t) ≡ some 6)
unfolding small stored select
write_lem_example =
    write_lem small sound 3 file (λ b s. refl) (omega arith) 2 (7 ∷ 8 ∷ 9 ∷ []) 4 stored refl refl
      refl refl

read_lem_example :
    (buf : List ℕ) × ((read small sound 3 2 9 stored).0 ≡ returned buf)
    × (length buf ≡ 4)
    × (get_elem? buf 3 ≡ some 6)
unfolding small stored select
read_lem_example =
    read_lem small sound 3 file (λ b s. refl) (omega arith) 2 9 3 stored refl refl (omega arith)

read-write_file_example :
    (read small sound 3 2 5 (write small sound 3 2 (7 ∷ 8 ∷ 9 ∷ 1 ∷ 2 ∷ []) stored).1).0
    ≡ returned (7 ∷ 8 ∷ 9 ∷ 1 ∷ 2 ∷ [])
unfolding small stored select
read-write_file_example =
    read-write_file small sound 3 file 2 (7 ∷ 8 ∷ 9 ∷ 1 ∷ 2 ∷ []) stored (λ b s. refl) (omega arith)
      refl refl refl refl

-- The file has an attribute "user.a", whose name is referred to once.
abbrev tagged : Fs
tagged = record stored {
  names = (record { id = 4; name = "user.a"; refcount = 1 }) ∷ [];
  xattrs = (record { inode = 3; name_id = 4; value = 1 ∷ [] }) ∷ [];
}

setxattr_lem_example :
    let (r, t) = setxattr small (λ n. pure []) (λ n v. pure tt) 9 3 "user.a" (2 ∷ []) tagged in
    (r ≡ returned tt)
    × (count (is_xattr 3 4) t.xattrs ≡ 1)
    × (Option.map (λ (x : Name). x.refcount) (select (has_key name_key 4) t.names) ≡ some 2)
unfolding stored select
setxattr_lem_example =
    setxattr_lem small (λ n. pure []) (λ n v. pure tt) 9 3 "user.a" (2 ∷ []) file
      (record { id = 4; name = "user.a"; refcount = 1 }) tagged refl refl refl refl refl refl refl
      refl
