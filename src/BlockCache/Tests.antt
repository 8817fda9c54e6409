-- ===== src/BlockCache/Tests.antt =====
-- The theorems on src/s3ql/block_cache.py at a cache with one dirty entry, and runs of the code there.
use s3ql.Prelude.{
  ℕ, ◌≡◌, refl, true, false, List, [], ◌∷◌, none, some, arith, sum, if◌then◌else◌, ◌==◌,
}
use s3ql.Prelude.Int.{pos}
use s3ql.Prelude.Sql.{select, delete}
use s3ql.Prelude.Effect.{Outcome, returned, ◌>>=◌}
use s3ql.BlockCache.Entry.{CacheEntry, open_entry, read, seek, truncate, write, read_all}
use s3ql.BlockCache.Entry.Contents.{IsConsistent, entry-IsConsistent, read-write}
use s3ql.BlockCache.Entry.Whole.{read_all-bytes}
use s3ql.MultiLock
use s3ql.BlockCache.State.{member, acquire_loop, State, Error, Env, block_object}
use s3ql.BlockCache.Upload.{delete_object}
use s3ql.BlockCache.Flush.{do_upload, store_object, upload_if_dirty}
use s3ql.BlockCache.Access.{open_object}
use s3ql.BlockCache.Expire
use s3ql.BlockCache.Expire.{get, expire, start_flush, flush, remove}
use s3ql.BlockCache.Refs.{IsBalanced}
use s3ql.BlockCache.Refs.Uploads.{IsQuiet}
use s3ql.BlockCache.Refs.Operations.{
  EndsBalanced, operations-refs, upload_if_dirty-refs, remove-refs,
}
use s3ql.BlockCache.Refs.Worker.{do_upload-refs}
use s3ql.BlockCache.Stored.{open_object-store_object}

-- Nothing else runs, and the hash of some bytes is their sum.
unfoldable calm : Env
calm = record {
  other = λ s. s;
  patience = 3;
  sha256 = sum;
  notified = λ s. true;
  contended = λ s. false;
  corrupt = λ s o. false;
}

calm-IsQuiet : IsQuiet calm
unfolding calm
calm-IsQuiet d s h = h

abbrev draft : CacheEntry
draft = record {
  dirty = true;
  inode = 5;
  blockno = 0;
  last_write = 9;
  size = 2;
  pos = 2;
  bytes = 7 ∷ 8 ∷ [];
  offset = 2;
}

draft-IsConsistent : IsConsistent draft
draft-IsConsistent = record { pos = refl; size = refl }

-- Block 0 of inode 5 refers to object 1, and its entry has been changed since.
unfoldable changed : State
changed = record {
  heap = λ e. draft;
  next_entry = 1;
  cache = (record { inode = 5; blockno = 0; entry = 0 }) ∷ [];
  cache_size = pos 2;
  max_size = 1;
  max_entries = 4;
  locked_keys = [];
  in_transit = [];
  to_upload = [];
  upload_threads = 1;
  to_remove = [];
  removal_threads = 1;
  objects = (record { id = 1; hash = some 3; refcount = 1; phys_size = some 2; size = 2 }) ∷ [];
  last_object = 1;
  blocks = (record { inode = 5; blockno = 0; obj_id = 1 }) ∷ [];
  stored = λ o. if o == 1 then some (3 ∷ []) else none;
  clock = 0;
}

changed-IsBalanced : IsBalanced [] changed
unfolding changed select
changed-IsBalanced = record {
  balanced = λ id. ground arith;
  fresh = λ id lt. ground arith;
  nonzero = refl;
  unique = λ i b. ground arith;
}

-- The body of a read of the whole block.
abbrev read_block : CacheEntry → Outcome Error (List ℕ) × CacheEntry
read_block el = (returned (read el none).0, (read el none).1)

operations-refs_example :
    EndsBalanced (get calm 5 0 read_block changed)
    × EndsBalanced (expire calm changed)
    × EndsBalanced (Expire.drop calm changed)
    × EndsBalanced (start_flush calm (some 5) changed)
    × EndsBalanced (flush calm changed)
operations-refs_example =
    operations-refs calm changed 5 0 read_block (some 5) calm-IsQuiet changed-IsBalanced

upload_if_dirty-refs_example : EndsBalanced (upload_if_dirty calm 0 changed)
upload_if_dirty-refs_example = upload_if_dirty-refs calm 0 changed calm-IsQuiet changed-IsBalanced

remove-refs_example : EndsBalanced (remove calm 5 0 (some 3) changed)
remove-refs_example = remove-refs calm 5 0 (some 3) changed calm-IsQuiet changed-IsBalanced

open_object-store_object_example :
    let t = store_object 0 2 (some 2) changed in
    ((open_object calm 5 0 2 false (t.stored 2) t).0 ≡ returned t.next_entry)
    × ((open_object calm 5 0 2 false (t.stored 2) t).1.heap t.next_entry
        ≡ open_entry 5 0 (7 ∷ 8 ∷ []))
    × (t.stored 1 ≡ changed.stored 1)
unfolding changed
open_object-store_object_example =
    open_object-store_object 0 2 2 changed draft-IsConsistent calm 5 0 1 (ground arith)

abbrev short : CacheEntry
short = open_entry 5 0 (1 ∷ 2 ∷ [])

short-IsConsistent : IsConsistent short
unfolding open_entry
short-IsConsistent = record { pos = refl; size = refl }

read-write_example : (read (seek (write (seek short 3) (7 ∷ []) 4) 3) (some 1)).0 ≡ 7 ∷ []
read-write_example = read-write short 3 (7 ∷ []) 4 (ground arith) short-IsConsistent

entry-IsConsistent_example :
    IsConsistent (read short (some 1)).1
    × IsConsistent (seek short 5)
    × IsConsistent (truncate short (some 1))
    × IsConsistent (write short (7 ∷ []) 4)
entry-IsConsistent_example =
    entry-IsConsistent short (some 1) 5 4 (7 ∷ []) (ground arith) short-IsConsistent

read_all-bytes_example : (read_all draft).0 ≡ 7 ∷ 8 ∷ []
read_all-bytes_example = read_all-bytes draft draft-IsConsistent

-- The upload is queued, and the block refers to the new object.
upload_changed : (upload_if_dirty calm 0 changed).0 ≡ returned true
unfolding calm changed upload_if_dirty ◌>>=◌ member acquire_loop MultiLock.acquire_round
    MultiLock.is_locked select read_all MultiLock.key_eq delete_object MultiLock.release delete
upload_changed = refl

block_changed : block_object 5 0 (upload_if_dirty calm 0 changed).1 ≡ some 2
unfolding calm changed upload_if_dirty ◌>>=◌ member acquire_loop MultiLock.acquire_round
    MultiLock.is_locked select read_all MultiLock.key_eq delete_object MultiLock.release delete
block_changed = refl

do_upload-refs_example : IsBalanced [] (do_upload calm 0 1 (some 2) changed).1
do_upload-refs_example = do_upload-refs calm [] 0 1 (some 2) changed calm-IsQuiet changed-IsBalanced
