-- ===== src/Fsck/Cache.antt =====
-- `check_cache` of src/s3ql/fsck.py: the blocks in the cache directory that were not uploaded.
use s3ql.Prelude.{
  ℕ, ◌+◌, Bool, false, ◌&&◌, [], ◌∷◌, ◌++◌, Option, none, some, length, ◌==◌, if◌then◌else◌,
}
use s3ql.Prelude.Int.{pos, ◌+ℤ◌, ◌-ℤ◌}
use s3ql.Prelude.Sql.{select, update, delete, has_key}
use s3ql.Prelude.Effect.{pure, raise, gets, branch, modify, ◌>>=◌, ◌>>◌}
use s3ql.Fsck.State.{
  Bytes, Object, Block, CacheFile, block_file, temp_file, strange_file, strange, Fsck, M, Env,
  object_key, block_key, stored_key, max_id, found_error, for_each,
}

abbrev pub is_block : ℕ → ℕ → Block → Bool
is_block inode blockno r = r.inode == inode && r.blockno == blockno

unfoldable pub has_hash : ℕ → Object → Bool
has_hash h r = elim r.hash [ none ↦ false | some x ↦ x == h ]

-- Whether the object that the table has for the block has that hash.
unfoldable pub is_clean : ℕ → ℕ → ℕ → Fsck → Bool
unfolding has_hash
is_clean inode blockno h s = elim (select (is_block inode blockno) s.blocks) [
  | none ↦ false
  | some r ↦ elim (select (has_key object_key r.obj_id) s.objects) [
    | none ↦ false
    | some o ↦ has_hash h o
  ]
]

abbrev pub more : Object → Object
more r = record r { refcount = r.refcount +ℤ pos 1 }

abbrev pub less : Object → Object
less r = record r { refcount = r.refcount -ℤ pos 1 }

-- The object with that hash, which is written to the backend when there is none, counts one more.
unfoldable pub link_object : Env → Bytes → Option Object → Fsck → Fsck
link_object env bytes none s =
    let id = s.last_object + 1 in
    record s {
      objects =
          s.objects
          ++ (record {
            id = id;
            hash = some (env.sha256 bytes);
            refcount = pos 1;
            phys_size = pos (env.obj_size bytes);
            length = length bytes;
          })
            ∷ [];
      last_object = id;
      stored =
          delete (has_key stored_key id) s.stored
          ++ (record { id = id; size = env.obj_size bytes }) ∷ [];
    }
link_object env bytes (some o) s = record s {
  objects = update (has_key object_key o.id) more s.objects;
}

abbrev pub linked_id : Option Object → ℕ → ℕ
linked_id none fresh = fresh
linked_id (some o) fresh = o.id

-- The block refers to the object from now on.
unfoldable pub link_block : ℕ → ℕ → ℕ → Option Block → Fsck → Fsck
unfolding max_id
link_block inode blockno obj_id none s = record s {
  blocks =
      s.blocks
      ++ (record {
        rowid = max_id block_key s.blocks + 1;
        inode = inode;
        blockno = blockno;
        obj_id = obj_id;
      })
        ∷ [];
}
link_block inode blockno obj_id (some old) s = record s {
  blocks = update (is_block inode blockno) (λ r. record r { obj_id = obj_id }) s.blocks;
  objects = update (has_key object_key old.obj_id) less s.objects;
  unlinked_objects = old.obj_id ∷ s.unlinked_objects;
}

unfoldable pub commit : Env → ℕ → ℕ → Bytes → Fsck → Fsck
unfolding found_error link_object link_block has_hash
commit env inode blockno bytes s =
    let o = select (has_hash (env.sha256 bytes)) s.objects in
    let linked = link_object env bytes o (found_error s) in
    link_block inode blockno (linked_id o (s.last_object + 1))
      (select (is_block inode blockno) s.blocks) linked

-- Files are unlinked by their names.
unfoldable pub same_file : CacheFile → CacheFile → Bool
same_file (block_file i b x) (block_file j c y) = i == j && b == c
same_file (temp_file i b) (temp_file j c) = i == j && b == c
same_file _ _ = false

unfoldable pub unlink : CacheFile → Fsck → Fsck
unfolding same_file
unlink f s = record s { cached = delete (same_file f) s.cached }

unfoldable pub unless_kept : Bool → CacheFile → Fsck → Fsck
unfolding unlink
unless_kept keep_cache f s = if keep_cache then s else unlink f s

unfoldable pub check_file : Env → Bool → CacheFile → M (Unit {0})
unfolding is_clean commit unless_kept unlink found_error
check_file env keep_cache (block_file inode blockno bytes) = do
  clean ← gets (is_clean inode blockno (env.sha256 bytes))
  branch clean (pure tt) (modify (commit env inode blockno bytes))
  modify (unless_kept keep_cache (block_file inode blockno bytes))
check_file env keep_cache (temp_file inode blockno) = do
  modify found_error
  modify (unlink (temp_file inode blockno))
check_file env keep_cache strange_file = raise strange

unfoldable pub check_cache : Env → Bool → M (Unit {0})
unfolding check_file for_each
check_cache env keep_cache = do
  candidates ← gets (λ s. s.cached)
  for_each candidates (check_file env keep_cache)
