-- ===== src/BlockCache/Expire.antt =====
-- `get`, `expire`, `drop`, `wait`, `start_flush`, `flush` and `remove` of `BlockCache` in
-- src/s3ql/block_cache.py. A loop that the code bounds by nothing takes fuel, and is cancelled when
-- that is used up.
use s3ql.Prelude.{
  ℕ, zero, suc, ◌+◌, ◌-◌, Bool, false, not, ◌&&◌, ◌||◌, List, [], ◌∷◌, Option, none, some, length,
  ltb, ◌==◌, if◌then◌else◌, map,
}
use s3ql.Prelude.Int.{ℤ, pos, sub_ℕ, ltb_ℤ, ◌+ℤ◌, ◌-ℤ◌}
use s3ql.Prelude.Sql.{delete}
use s3ql.Prelude.Effect.{Outcome, returned, pure, raise, gets, branch, modify, ◌>>=◌, ◌>>◌}
use s3ql.MultiLock
use s3ql.BlockCache.Entry.{CacheEntry}
use s3ql.BlockCache.State.{
  State, Error, cancelled, Env, M, block_key, is_block, put_entry, find_slot, block_object, pause,
  acquire, release,
}
use s3ql.BlockCache.Upload.{deref_obj}
use s3ql.BlockCache.Flush.{option_eq, upload_if_dirty}
use s3ql.BlockCache.Access.{cache_remove, is_full, entries, get_entry, releasing}

-- What the loop of `expire` does to an entry once it holds its lock.
unfoldable pub evict : ℕ → ℕ → ℕ → State → State
unfolding option_eq cache_remove
evict e i b s =
    if not (option_eq (find_slot i b s) (some e))
    then s
    else if (s.heap e).dirty
    then s
    else cache_remove i b s

abbrev nothing_needed : ℤ → ℤ → Bool
nothing_needed size count = not (ltb_ℤ (pos 0) size) && not (ltb_ℤ (pos 0) count)

-- `range(start, end)`
unfoldable pub range : ℕ → ℕ → List ℕ
range start zero = []
range start (suc n) = start ∷ range (start + 1) n

unfoldable pub delete_block : ℕ → ℕ → State → State
delete_block i b s = record s { blocks = delete (is_block i b) s.blocks }

-- The body of `async with cache.get(…) as el`, and the `finally` that brings the size up to date.
unfoldable pub use_entry : {A : Type 0} → ℕ → (CacheEntry → Outcome Error A × CacheEntry) → M A
unfolding put_entry
use_entry e body s =
    let old = (s.heap e).size in
    let (r, el) = body (s.heap e) in
    let s' = put_entry e el s in
    (r, record s' { cache_size = s.cache_size +ℤ (pos el.size -ℤ pos old) })

module _ (env : Env) where
  unfoldable pub wait_loop : ℕ → M (Unit {0})
  unfolding pause
  wait_loop zero = raise cancelled
  wait_loop (suc n) =
      let again = wait_loop n in
      do
        busy ← gets (λ s. ltb 0 (length s.in_transit))
        branch (not busy) (pure tt)
            do pause env; over ← gets env.notified; branch over (pure tt) again

  unfoldable pub wait : M (Unit {0})
  wait = wait_loop env.patience

  unfoldable pub evict_locked : ℕ → ℕ → ℕ → M (Unit {0})
  unfolding acquire release evict
  evict_locked e i b = do
    acquire env (block_key i b)
    modify (evict e i b)
    release env false (block_key i b)

  -- The inner loop of `expire`: the size and the number of entries that are still to go, and
  -- whether something is being uploaded.
  unfoldable pub expire_pass : List ℕ → ℤ → ℤ → Bool → M Bool
  unfolding upload_if_dirty evict_locked
  expire_pass [] size count busy = pure busy
  expire_pass (e ∷ es) size count busy = branch (nothing_needed size count) (pure busy) do
    el ← gets (λ s. s.heap e)
    queued ← upload_if_dirty env e
    branch queued (pure tt) (evict_locked e el.inode el.blockno)
    expire_pass es (size -ℤ pos el.size) (count -ℤ pos 1) (queued || busy)

  unfoldable pub expire_loop : ℕ → M (Unit {0})
  unfolding expire_pass wait
  expire_loop zero = raise cancelled
  expire_loop (suc n) =
      let again = expire_loop n in
      do
        size ← gets (λ s. s.cache_size -ℤ pos s.max_size)
        count ← gets (λ s. sub_ℕ (length s.cache) s.max_entries)
        es ← gets entries
        branch (nothing_needed size count) (pure tt)
            do busy ← expire_pass es size count false; branch busy wait (pure tt); again

  unfoldable pub expire : M (Unit {0})
  unfolding expire_loop
  expire = expire_loop env.patience

  unfoldable pub get : {A : Type 0} → ℕ → ℕ → (CacheEntry → Outcome Error A × CacheEntry) → M A
  unfolding is_full expire acquire get_entry use_entry releasing
  get i b body = do
    full ← gets is_full
    branch full expire (pure tt)
    acquire env (block_key i b)
    releasing env i b (do e ← get_entry env i b; use_entry e body)

  -- `max_entries` is put back only if `expire` returns.
  unfoldable pub drop : M (Unit {0})
  unfolding expire
  drop = do
    bak ← gets (λ s. s.max_entries)
    modify (λ s. record s { max_entries = 0 })
    expire
    modify (λ s. record s { max_entries = bak })

  -- Uploads these entries, and says whether any is on its way.
  unfoldable pub upload_all : List ℕ → Bool → M Bool
  unfolding upload_if_dirty
  upload_all [] busy = pure busy
  upload_all (e ∷ es) busy = do queued ← upload_if_dirty env e; upload_all es (queued || busy)

  unfoldable pub start_flush : Option ℕ → M (Unit {0})
  unfolding upload_all
  start_flush none = do es ← gets entries; upload_all es false; pure tt
  start_flush (some i) = do
    es ← gets (λ s. map (λ r. r.entry) (delete (λ r. not (r.inode == i)) s.cache))
    upload_all es false
    pure tt

  unfoldable pub flush_loop : ℕ → M (Unit {0})
  unfolding upload_all wait
  flush_loop zero = raise cancelled
  flush_loop (suc n) =
      let again = flush_loop n in
      do es ← gets entries; busy ← upload_all es false; branch (not busy) (pure tt) (do wait; again)

  unfoldable pub flush : M (Unit {0})
  unfolding flush_loop
  flush = flush_loop env.patience

  -- A block that is in the database is detached from its inode before its lock is released; then
  -- the object that it referred to loses a reference.
  unfoldable pub detach : ℕ → ℕ → Option ℕ → M (Unit {0})
  unfolding delete_block deref_obj release
  detach i b none = release env false (block_key i b)
  detach i b (some obj) = do
    modify (delete_block i b)
    release env false (block_key i b)
    deref_obj env obj

  unfoldable pub remove_locked : ℕ → ℕ → M (Unit {0})
  unfolding cache_remove block_object detach
  remove_locked i b = do
    modify (cache_remove i b)
    obj_id ← gets (block_object i b)
    detach i b obj_id

  -- `mlock.acquire_nowait`
  unfoldable pub try_lock : ℕ → ℕ → M Bool
  try_lock i b s =
      let (ok, ls) = MultiLock.acquire_nowait (env.contended s) (block_key i b) s.locked_keys in
      (returned ok, record s { locked_keys = ls })

  -- The opportunistic pass: the blocks whose lock is not free at once are left for the second.
  unfoldable pub remove_free : ℕ → List ℕ → M (List ℕ)
  unfolding try_lock remove_locked
  remove_free i [] = pure []
  remove_free i (b ∷ bs) = do
    ok ← try_lock i b
    branch ok (remove_locked i b) (pure tt)
    left ← remove_free i bs
    pure (if ok then left else b ∷ left)

  unfoldable pub remove_rest : ℕ → List ℕ → M (Unit {0})
  unfolding acquire remove_locked
  remove_rest i [] = pure tt
  remove_rest i (b ∷ bs) = do acquire env (block_key i b); remove_locked i b; remove_rest i bs

  -- `remove(inode, start_no, end_no)`; without `end_no` the one block.
  unfoldable pub remove : ℕ → ℕ → Option ℕ → M (Unit {0})
  unfolding range remove_free remove_rest
  remove i start none = do left ← remove_free i (range start 1); remove_rest i left
  remove i start (some end_no) = do
    left ← remove_free i (range start (end_no - start))
    remove_rest i left
