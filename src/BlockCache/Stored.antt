-- ===== src/BlockCache/Stored.antt =====
-- What an upload puts into the backend, and what opening the object again makes of it: `do_write` of
-- `_do_upload` and `do_read` of `_get_entry` in src/s3ql/block_cache.py.
use s3ql.Prelude.{ℕ, ◌≡◌, ◌≢◌, refl, false, some, arith}
use s3ql.Prelude.Effect.{returned, branch, ◌>>=◌}
use s3ql.BlockCache.Entry.{open_entry}
use s3ql.BlockCache.Entry.Contents.{IsConsistent}
use s3ql.BlockCache.Entry.Whole.{read_all-bytes}
use s3ql.BlockCache.State.{State, Env, put_entry}
use s3ql.BlockCache.Flush.{store_object}
use s3ql.BlockCache.Access.{new_entry, open_object}

module _ (e obj size : ℕ) (s : State) (h : IsConsistent (s.heap e)) where
  stored-store_object : (store_object e obj (some size) s).stored obj ≡ some (s.heap e).bytes
  unfolding store_object
  stored-store_object = ground (arith, read_all-bytes (s.heap e) h)

  -- An upload that succeeds stores the bytes of a consistent entry under its object, all of them and
  -- no others, and changes no other object: opening the object then, for any block, gives a new clean
  -- entry of these bytes.
  pub open_object-store_object :
      (env : Env) (i b other : ℕ)
      → obj ≢ other
      → let t = store_object e obj (some size) s in
        ((open_object env i b obj false (t.stored obj) t).0 ≡ returned t.next_entry)
        × ((open_object env i b obj false (t.stored obj) t).1.heap t.next_entry
            ≡ open_entry i b (s.heap e).bytes)
        × (t.stored other ≡ s.stored other)
  unfolding open_object new_entry put_entry store_object branch ◌>>=◌
  open_object-store_object env i b other ne =
      let same = stored-store_object in (rw (same) refl, rw (same) (ground arith), ground arith)
