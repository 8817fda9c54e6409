-- ===== src/Fsck/Tests.antt =====
-- The checks of src/s3ql/fsck.py on a small file system: lost+found and one file of a block.
use mathlib.Core.Path.{subst}
use s3ql.Prelude.{
  ℕ, ◌≡◌, ◌+◌, ◌≤◌, ◌⊎◌, Option, refl, inl, inr, if◌then◌else◌, true, false, ◌&&◌, [], ◌∷◌, none,
  some, map, ltb, ◌==◌, arith,
}
use s3ql.Prelude.Int.{pos}
use s3ql.Prelude.Sql.{select, count, delete, has_key}
use s3ql.Prelude.Effect.{returned, raised, ◌>>=◌}
use s3ql.Fs.State.{Inode, inode_key}
use s3ql.BlockCache.State.{member}
use s3ql.Fsck.State.{
  eq_bytes, eq_value, has_name_id, is_named, is_some, Bytes, blob, DirEntry, Object, Block, Stored,
  block_file, Dir, empty, file, folder, Fsck, Error, Env, type_error, unresolved, name_key,
  object_key, stored_key, has_row,
}
use s3ql.Fsck.Check.{all, check}
use s3ql.Fsck.Healthy.{IsHealthy, IsTyped, IsTidy, check_lem}
use s3ql.Fsck.Unix.{value_length}
use s3ql.Fsck.Inodes.{is_short, min_size, block_end, is_miscounted}
use s3ql.Fsck.Loops.{loopcheck}
use s3ql.Fsck.Objects.{is_set, listed, lost_found, check_objects_refcount, check_objects_id}
use s3ql.Fsck.ObjectCounts.{counted, check_objects_refcount_lem}
use s3ql.Fsck.Agreement.{check_objects_id_lem}
use s3ql.Fsck.Attributes.{check_names_refcount}
use s3ql.Fsck.NameCounts.{check_names_refcount_lem}
use s3ql.Fsck.Paths.{
  numbered, shortened, is_taken, resolve_free, inode_for_path, lstrip, rstrip, split, traverse,
  missing, get_path, path_loop, parent_entry, all_bytes, bytes_of, join,
}
use s3ql.Fsck.State.{get_row, first_row}
use s3ql.Fsck.Entries.{lost_found_path, dangles, check_contents_inode}
use s3ql.Fsck.Free.{resolve_free_lem}
use s3ql.Fsck.Dangling.{check_inode_blocks_inode_lem}
use s3ql.Fsck.Objects.{uses}
use s3ql.Fsck.Inodes
use s3ql.Fsck.Inodes.{check_inode_blocks_inode, check_inodes_size}
use s3ql.Fsck.Sizes.{check_inodes_size_lem}
use s3ql.Fsck.Temp.{is_temp, cleaned, has_temp, check_objects_temp}
use s3ql.Fsck.Cleaned.{files, has_empty, check_objects_temp_lem}
use s3ql.Fsck.Cache.{is_clean, has_hash, same_file, check_file}
use s3ql.Fsck.Committed.{check_file_lem}
use s3ql.Fsck.Crash.{check_contents_inode_lem}

abbrev env : Env
env = record {
  time_ns = 5;
  uid = 0;
  gid = 0;
  sha256 = λ bytes. 7;
  obj_size = λ bytes. 9;
  list_objects = λ s. map (λ (r : Stored). some r.id) s.stored;
  max_obj_size = 10;
}

abbrev inode_row : ℕ → ℕ → ℕ → Inode
inode_row id mode size = record {
  id = id;
  mode = mode;
  refcount = 1;
  uid = 0;
  gid = 0;
  size = size;
  locked = false;
  rdev = 0;
  atime_ns = 0;
  mtime_ns = 0;
  ctime_ns = 0;
}

-- b"f"
abbrev file_name : Bytes
file_name = 102 ∷ []

abbrev lof_row : DirEntry
lof_row = record { rowid = 1; name_id = 1; inode = 3; parent_inode = 1 }

abbrev file_row : DirEntry
file_row = record { rowid = 2; name_id = 2; inode = 4; parent_inode = 1 }

abbrev object_row : ℕ → ℕ → Object
object_row id n = record { id = id; hash = some 7; refcount = pos n; phys_size = pos 9; length = 5 }

abbrev block_row : Block
block_row = record { rowid = 1; inode = 4; blockno = 0; obj_id = 1 }

abbrev small : Fsck
small = record {
  names =
      (record { id = 1; name = blob lost_found; refcount = pos 1 })
      ∷ (record { id = 2; name = blob file_name; refcount = pos 1 })
      ∷ [];
  contents = lof_row ∷ file_row ∷ [];
  last_entry = 2;
  inodes =
      inode_row 1 16877 0 ∷ inode_row 2 32768 0 ∷ inode_row 3 16832 0 ∷ inode_row 4 33188 5 ∷ [];
  last_inode = 4;
  xattrs = [];
  symlinks = [];
  objects = object_row 1 1 ∷ [];
  last_object = 1;
  blocks = block_row ∷ [];
  stored = (record { id = 1; size = 9 }) ∷ [];
  prefix = none;
  cached = [];
  unlinked_objects = [];
  found_errors = false;
  uncorrectable_errors = false;
}

-- With a symbolic link in lost+found, and an attribute of the file.
abbrev linked : Fsck
linked = record small {
  names =
      (record { id = 1; name = blob lost_found; refcount = pos 1 })
      ∷ (record { id = 2; name = blob file_name; refcount = pos 3 })
      ∷ [];
  contents =
      lof_row ∷ file_row ∷ (record { rowid = 3; name_id = 2; inode = 5; parent_inode = 3 }) ∷ [];
  last_entry = 3;
  inodes =
      inode_row 1 16877 0
      ∷ inode_row 2 32768 0
      ∷ inode_row 3 16832 0
      ∷ inode_row 4 33188 5
      ∷ inode_row 5 41471 3
      ∷ [];
  last_inode = 5;
  xattrs = (record { rowid = 1; inode = 4; name_id = 2 }) ∷ [];
  symlinks = (record { inode = 5; target = 97 ∷ 98 ∷ 99 ∷ [] }) ∷ [];
  prefix = some (folder file_name (file file_name empty) empty);
}

some-inj : {A : Type 0} {a b : A} → ◌≡◌ {A = Option A} (some a) (some b) → a ≡ b
some-inj h = ground (arith, h)

linked_dir-IsTidy : IsTidy (folder file_name (file file_name empty) empty)
unfolding is_temp
linked_dir-IsTidy = (refl, (refl, tt), tt)

root-IsTyped : IsTyped linked (inode_row 1 16877 0)
unfolding select
root-IsTyped = record {
  typed = omega arith;
  link = λ h. absurd (ground (arith, h));
  no_link = λ e. refl;
  sized = λ h. absurd (ground (arith, h));
  device = λ h. absurd (ground (arith, h));
  folder = λ h. refl;
  regular = λ h. absurd (ground (arith, h));
}

ctrl-IsTyped : IsTyped linked (inode_row 2 32768 0)
unfolding select
ctrl-IsTyped = record {
  typed = omega arith;
  link = λ h. absurd (ground (arith, h));
  no_link = λ e. refl;
  sized = λ h. absurd (ground (arith, h));
  device = λ h. absurd (ground (arith, h));
  folder = λ h. absurd (ground (arith, h));
  regular = λ h. absurd (ground (arith, h));
}

lof-IsTyped : IsTyped linked (inode_row 3 16832 0)
unfolding select
lof-IsTyped = record {
  typed = omega arith;
  link = λ h. absurd (ground (arith, h));
  no_link = λ e. refl;
  sized = λ h. absurd (ground (arith, h));
  device = λ h. absurd (ground (arith, h));
  folder = λ h. refl;
  regular = λ h. absurd (ground (arith, h));
}

file-IsTyped : IsTyped linked (inode_row 4 33188 5)
unfolding select
file-IsTyped = record {
  typed = omega arith;
  link = λ h. absurd (ground (arith, h));
  no_link = λ e. refl;
  sized = λ h. inl refl;
  device = λ h. absurd (ground (arith, h));
  folder = λ h. absurd (ground (arith, h));
  regular = λ h. refl;
}

linked_link-IsTyped : IsTyped linked (inode_row 5 41471 3)
unfolding select
linked_link-IsTyped = record {
  typed = omega arith;
  link = λ e. (record { inode = 5; target = 97 ∷ 98 ∷ 99 ∷ [] }, refl, refl);
  no_link = λ e. absurd (ground (arith, e));
  sized = λ h. inr (inl refl);
  device = λ h. absurd (omega (arith, h));
  folder = λ h. absurd (ground (arith, h));
  regular = λ h. absurd (ground (arith, h));
}

linked-IsHealthy : IsHealthy env linked
unfolding select is_named has_name_id eq_value eq_bytes has_row is_some listed loopcheck is_temp
linked-IsHealthy = record {
  lof = lof_row;
  lof_inode = inode_row 3 16832 0;
  lof_once = refl;
  lof_there = refl;
  lof_row = refl;
  lof_dir = refl;
  uncached = refl;
  tidy = λ d e. subst IsTidy (some-inj e) linked_dir-IsTidy;
  block_inodes = (refl, tt);
  block_objects = (refl, tt);
  link_inodes = (refl, tt);
  entry_names = (refl, (refl, (refl, tt)));
  entry_inodes = (refl, (refl, (refl, tt)));
  entry_parents = (refl, (refl, (refl, tt)));
  xattr_inodes = (refl, tt);
  xattr_names = (refl, tt);
  names_counted = (refl, (refl, tt));
  objects_counted = ((omega arith, refl), tt);
  inodes_counted = (
    inl refl,
    (inl refl, (inr (omega arith, refl), (inr (omega arith, refl), (inr (omega arith, refl), tt)))),
  );
  complete = λ id. ground arith;
  hashed = (refl, tt);
  sized = ((9, refl), tt);
  large_enough = (
    (λ o e f. absurd (ground (arith, e)), tt),
    (
      (λ o e f. absurd (ground (arith, e)), tt),
      (
        (λ o e f. absurd (ground (arith, e)), tt),
        (
          (λ o e f. subst (λ x. 0 + x.length ≤ 5) (some-inj f) (omega arith), tt),
          ((λ o e f. absurd (ground (arith, e)), tt), tt),
        ),
      ),
    ),
  );
  depth = λ p. if p == 3 then 1 else 0;
  top = refl;
  levels = (
    (omega arith, inl (refl, refl)),
    ((omega arith, inl (refl, refl)), ((omega arith, inr (lof_row, refl, refl)), tt)),
  );
  conventional =
      (root-IsTyped, (ctrl-IsTyped, (lof-IsTyped, (file-IsTyped, (linked_link-IsTyped, tt)))));
  short_named = (
    λ n e. subst (λ x. value_length x.name ≤ 255) (some-inj e) (ground arith),
    (
      λ n e. subst (λ x. value_length x.name ≤ 255) (some-inj e) (ground arith),
      (λ n e. subst (λ x. value_length x.name ≤ 255) (some-inj e) (ground arith), tt),
    ),
  );
}

check_lem_example : check env all linked ≡ (returned tt, linked)
check_lem_example = check_lem env all linked linked-IsHealthy

-- Object 1 has a wrong count, and no block has object 2, which the backend does not have.
abbrev miscounted_objects : Fsck
miscounted_objects = record small { objects = object_row 1 3 ∷ object_row 2 1 ∷ [] }

check_objects_refcount_lem_example :
    let (r, after) = check_objects_refcount miscounted_objects in
    (r ≡ returned tt)
    × (after.stored ≡ miscounted_objects.stored)
    × ((k : ℕ)
        → select (has_key object_key k) after.objects
          ≡ counted miscounted_objects.blocks
              (select (has_key object_key k) miscounted_objects.objects))
check_objects_refcount_lem_example = check_objects_refcount_lem miscounted_objects

-- The backend has object 3, too.
abbrev disagreeing : Fsck
disagreeing = record miscounted_objects {
  stored = (record { id = 1; size = 9 }) ∷ (record { id = 3; size = 9 }) ∷ [];
}

check_objects_id_lem_example :
    let (r, after) = check_objects_id env disagreeing in
    (r ≡ returned tt)
    × (select (has_key object_key 2) after.objects ≡ none)
    × (select (has_key stored_key 2) after.stored ≡ none)
unfolding select delete is_named has_name_id eq_value eq_bytes is_set listed member has_row
check_objects_id_lem_example = check_objects_id_lem env disagreeing 2 refl refl (λ id. ground arith)

-- Name 2 has a wrong count, and nothing has name 5.
abbrev miscounted_names : Fsck
miscounted_names = record small {
  names =
      (record { id = 2; name = blob file_name; refcount = pos 8 })
      ∷ (record { id = 5; name = blob []; refcount = pos 1 })
      ∷ [];
}

check_names_refcount_lem_example :
    let after = check_names_refcount miscounted_names in
    (select (has_key name_key 5) after.names
      ≡ some (record { id = 5; name = blob []; refcount = pos 0 }))
    × (count (has_key name_key 5) after.names ≡ 1)
unfolding select
check_names_refcount_lem_example = check_names_refcount_lem miscounted_names 5

-- The file's entry is in lost+found, under the name that is asked for.
abbrev moved : Fsck
moved = record small {
  contents = lof_row ∷ (record { rowid = 2; name_id = 2; inode = 4; parent_inode = 3 }) ∷ [];
}

resolve_free_lem_example :
    (j : ℕ) × (resolve_free lost_found_path file_name moved
      ≡ (returned (3, numbered (shortened file_name) j), moved))
    × (is_taken (numbered (shortened file_name) j) 3 moved ≡ false)
unfolding inode_for_path lstrip rstrip split traverse get_row first_row missing is_named has_name_id
    eq_value eq_bytes select ◌>>=◌
resolve_free_lem_example =
    resolve_free_lem lost_found_path file_name 3 moved refl (λ m. ground arith)

-- Inode 4 is gone.
abbrev dangling : Fsck
dangling = record small { inodes = inode_row 1 16877 0 ∷ inode_row 3 16832 0 ∷ [] }

check_inode_blocks_inode_lem_example :
    let after = check_inode_blocks_inode dangling in
    (after.blocks ≡ [])
    × (count (Inodes.has_no_inode after.inodes) after.blocks ≡ 0)
    × (after.found_errors ≡ true)
    × (select (has_key object_key 1) after.objects
        ≡ some (record {
          id = 1;
          hash = some 7;
          refcount = pos (uses 1 after.blocks);
          phys_size = pos 9;
          length = 5;
        }))
unfolding select delete Inodes.has_no_inode has_row
check_inode_blocks_inode_lem_example =
    check_inode_blocks_inode_lem dangling 1 (object_row 1 1) (λ k. ground arith) refl refl

-- The file is recorded with fewer bytes than it has.
abbrev short : Fsck
short = record small { inodes = inode_row 1 16877 0 ∷ inode_row 4 33188 2 ∷ [] }

check_inodes_size_lem_example :
    let (result, after) = check_inodes_size env short in
    (result ≡ returned tt)
    × (select (has_key inode_key 4) after.inodes ≡ some (inode_row 4 33188 5))
    × (count (λ b. b.inode == 4 && ltb 5 (block_end 10 after.objects b)) after.blocks ≡ 0)
unfolding select delete is_short min_size block_end get_path path_loop parent_entry first_row
    all_bytes bytes_of has_row join ◌>>=◌
check_inodes_size_lem_example =
    check_inodes_size_lem env short 4 (inode_row 4 33188 2) ((47 ∷ file_name, refl), tt)
      (λ k. ground arith) refl

-- A temporary file beside an object, and one that is alone in its directory. 97 is the letter a.
abbrev temp_name : Bytes
temp_name = 97 ∷ 35 ∷ 49 ∷ 45 ∷ 50 ∷ 46 ∷ 116 ∷ 109 ∷ 112 ∷ []

abbrev untidy : Dir
untidy = file file_name (file temp_name (folder (98 ∷ []) (file temp_name empty) empty))

check_objects_temp_lem_example :
    let after = check_objects_temp (record small { prefix = some untidy }) in
    (after.prefix ≡ some (file file_name empty))
    × (files [] (cleaned untidy) ≡ delete (λ (folders, name). is_temp name) (files [] untidy))
    × (has_temp (cleaned untidy) ≡ false)
    × (has_empty (cleaned untidy) ≡ false)
    × (after.found_errors ≡ true)
unfolding cleaned is_temp has_temp
check_objects_temp_lem_example =
    check_objects_temp_lem (record small { prefix = some untidy }) untidy refl

-- A block of the file is left in the cache, with data of another hash than the object has.
abbrev uncommitted : Fsck
uncommitted = record small {
  objects =
      (record { id = 1; hash = some 6; refcount = pos 1; phys_size = pos 9; length = 5 }) ∷ [];
  cached = block_file 4 0 (1 ∷ 2 ∷ []) ∷ [];
}

check_file_lem_example :
    let f = block_file 4 0 (1 ∷ 2 ∷ []) in
    let (r, after) = check_file env false f uncommitted in
    (r ≡ returned tt)
    × (is_clean 4 0 7 after ≡ true)
    × (after.cached ≡ [])
    × (after.found_errors ≡ true)
unfolding is_clean has_hash select delete same_file has_row
check_file_lem_example =
    check_file_lem env false 4 0 (1 ∷ 2 ∷ []) uncommitted (λ k. ground arith) refl

-- The entry of the file is in a directory that has no entry, and the inode of the file is gone.
abbrev lost : Fsck
lost = record dangling {
  contents = lof_row ∷ (record { rowid = 2; name_id = 2; inode = 4; parent_inode = 8 }) ∷ [];
}

check_contents_inode_lem_example :
    (e : Error) × ((check_contents_inode lost).0 ≡ raised e)
    × ((e ≡ type_error) ⊎ (e ≡ unresolved))
    × ((check_contents_inode lost).1.contents ≡ lost.contents)
unfolding dangles has_row
check_contents_inode_lem_example =
    check_contents_inode_lem lost (lof_row ∷ []) []
      (record { rowid = 2; name_id = 2; inode = 4; parent_inode = 8 }) refl refl refl
      (λ h. absurd (ground (arith, h)), (λ h. refl, tt))
