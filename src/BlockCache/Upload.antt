-- ===== src/BlockCache/Upload.antt =====
-- Reference counts and queues: `_queue_upload`, `_queue_removal` and `_deref_obj` of
-- src/s3ql/block_cache.py, and the statements of `upload_if_dirty`.
use mathlib.Core.Option
use s3ql.Prelude.{
  ℕ, zero, suc, ◌+◌, ◌-◌, Bool, false, [], ◌∷◌, ◌++◌, Option, none, some, length, ltb, ◌==◌,
}
use s3ql.Prelude.Sql.{select, update, delete, has_key}
use s3ql.Prelude.Effect.{pure, raise, gets, branch, modify, ◌>>=◌, ◌>>◌}
use s3ql.BlockCache.State.{
  Object, State, cancelled, no_worker_threads, no_such_row, Env, M, obj_key, is_block, id_of,
  without, put_entry, find_object, pause, acquire, release,
}

-- `INSERT INTO objects (refcount, hash, length, phys_size) VALUES (1, hash, size, -1)`
unfoldable pub insert_object : ℕ → ℕ → State → State
insert_object hash size s = record s {
  objects =
      s.objects
      ++ (record {
        id = s.last_object + 1;
        hash = some hash;
        refcount = 1;
        phys_size = none;
        size = size;
      })
        ∷ [];
  last_object = s.last_object + 1;
}

-- `INSERT OR REPLACE INTO inode_blocks (obj_id, inode, blockno)`
unfoldable pub link_block : ℕ → ℕ → ℕ → State → State
link_block obj i b s = record s {
  blocks = delete (is_block i b) s.blocks ++ (record { inode = i; blockno = b; obj_id = obj }) ∷ [];
}

-- `UPDATE objects SET refcount=refcount+1 WHERE id=?`, and the same with -1
unfoldable pub incr_refcount : ℕ → State → State
incr_refcount obj s = record s {
  objects = update (has_key id_of obj) (λ o. record o { refcount = o.refcount + 1 }) s.objects;
}

unfoldable pub decr_refcount : ℕ → State → State
decr_refcount obj s = record s {
  objects = update (has_key id_of obj) (λ o. record o { refcount = o.refcount - 1 }) s.objects;
}

-- `DELETE FROM objects WHERE id=?`
unfoldable pub delete_object : ℕ → State → State
delete_object obj s = record s { objects = delete (has_key id_of obj) s.objects }

-- `SELECT id FROM objects WHERE hash=?`
abbrev pub has_hash : ℕ → Object → Bool
has_hash h o = elim o.hash [ none ↦ false | some g ↦ g == h ]

unfoldable pub object_with_hash : ℕ → State → Option ℕ
object_with_hash h s = Option.map id_of (select (has_hash h) s.objects)

unfoldable pub remove_from_transit : ℕ → State → State
remove_from_transit e s = record s { in_transit = without e s.in_transit }

unfoldable pub clean_entry : ℕ → State → State
unfolding put_entry
clean_entry e s = put_entry e (record (s.heap e) { dirty = false }) s

-- The limit of the removal queue.
abbrev pub removal_slots : ℕ
removal_slots = 1000

module _ (env : Env) where
  -- The item is handed to a worker thread once one takes it; the call fails when none is alive.
  unfoldable pub queue_upload : ℕ → ℕ → M (Unit {0})
  unfolding pause
  queue_upload e obj = do
    pause env
    alive ← gets (λ s. s.upload_threads)
    branch (alive == 0) (raise no_worker_threads)
        (modify (λ s. record s { to_upload = s.to_upload ++ (e, obj) ∷ [] }))

  -- Rounds of five seconds; a queue that stays full is given up when no thread is alive.
  unfoldable pub queue_removal : ℕ → ℕ → M (Unit {0})
  unfolding pause
  queue_removal zero obj = raise cancelled
  queue_removal (suc n) obj =
      let again = queue_removal n obj in
      do
        pause env
        room ← gets (λ s. ltb (length s.to_remove) removal_slots)
        alive ← gets (λ s. s.removal_threads)
        branch room (modify (λ s. record s { to_remove = s.to_remove ++ obj ∷ [] }))
            (branch (alive == 0) (raise no_worker_threads) again)

  -- The end of `_deref_obj`, for an object whose row has been deleted.
  unfoldable pub forget_object : ℕ → Option ℕ → M (Unit {0})
  unfolding acquire release queue_removal
  forget_object obj size = do
    acquire env (obj_key obj)
    release env false (obj_key obj)
    room ← gets (λ s. ltb (length s.to_remove) removal_slots)
    elim size [
      | none ↦ pure tt
      | some _ ↦
          branch room (modify (λ s. record s { to_remove = s.to_remove ++ obj ∷ [] }))
            (queue_removal env.patience obj)
    ]

  -- `_deref_obj`, for the row that was selected
  unfoldable pub deref_row : ℕ → Option Object → M (Unit {0})
  unfolding forget_object
  deref_row obj none = raise no_such_row
  deref_row obj (some o) =
      branch (ltb 1 o.refcount) (modify (decr_refcount obj))
        do modify (delete_object obj); forget_object obj o.phys_size

  unfoldable pub deref_obj : ℕ → M (Unit {0})
  unfolding deref_row find_object
  deref_obj obj = do row ← gets (find_object obj); deref_row obj row
