-- ===== src/BlockCache/Access.antt =====
-- `CacheDict`, and `load_cache`, `get_usage` and `_get_entry` of `BlockCache` in
-- src/s3ql/block_cache.py.
use s3ql.Prelude.{
  ℕ, ◌+◌, Bool, false, ◌||◌, List, [], ◌∷◌, ◌++◌, Option, none, some, length, ltb, if◌then◌else◌,
  map,
}
use s3ql.Prelude.Int.{ℤ, pos, ltb_ℤ, ◌+ℤ◌, ◌-ℤ◌}
use s3ql.Prelude.Sql.{delete}
use s3ql.Prelude.Effect.{pure, raise, gets, branch, modify, catch, ◌>>=◌, ◌>>◌}
use s3ql.BlockCache.Entry.{CacheEntry, open_entry}
use s3ql.BlockCache.State.{
  Slot, State, no_such_object, corrupted_object, Env, M, obj_key, block_key, is_slot, put_entry,
  find_slot, block_object, pause, acquire, release,
}

-- `CacheDict.remove`: the entry leaves the dictionary, and its size is taken off.
unfoldable pub cache_remove : ℕ → ℕ → State → State
unfolding find_slot
cache_remove i b s = elim (find_slot i b s) [
  | none ↦ s
  | some e ↦ record s {
    cache = delete (is_slot i b) s.cache;
    cache_size = s.cache_size -ℤ pos (s.heap e).size;
  }
]

unfoldable pub is_full : State → Bool
is_full s = ltb_ℤ (pos s.max_size) s.cache_size || ltb s.max_entries (length s.cache)

-- A new entry object at the end of the dictionary, over a file with these bytes.
unfoldable pub new_entry : ℕ → ℕ → List ℕ → State → State
unfolding put_entry open_entry
new_entry i b bytes s =
    let s' = put_entry s.next_entry (open_entry i b bytes) s in
    record s' {
      next_entry = s.next_entry + 1;
      cache = s.cache ++ (record { inode = i; blockno = b; entry = s.next_entry }) ∷ [];
      cache_size = s.cache_size +ℤ pos (length bytes);
    }

-- `load_cache`: the files of the cache directory whose names are a pair of numbers, with their
-- contents, in the order of the directory.
unfoldable pub load_cache : List (ℕ × ℕ × List ℕ) → State → State
unfolding new_entry
load_cache [] s = s
load_cache ((i, b, bytes) ∷ files) s = load_cache files (new_entry i b bytes s)

unfoldable pub move_to_end : ℕ → ℕ → ℕ → State → State
move_to_end i b e s = record s {
  cache = delete (is_slot i b) s.cache ++ (record { inode = i; blockno = b; entry = e }) ∷ [];
}

abbrev pub entries : State → List ℕ
entries s = map (λ (r : Slot). r.entry) s.cache

-- `(len, used, dirty_cnt, dirty_size, remove_cnt)`
unfoldable pub dirty_usage : (ℕ → CacheEntry) → List ℕ → ℕ × ℕ
dirty_usage heap [] = (0, 0)
dirty_usage heap (e ∷ es) =
    let (cnt, size) = dirty_usage heap es in
    if (heap e).dirty then (cnt + 1, size + (heap e).size) else (cnt, size)

unfoldable pub get_usage : State → ℕ × ℤ × ℕ × ℕ × ℕ
unfolding dirty_usage
get_usage s =
    let (cnt, size) = dirty_usage s.heap (entries s) in
    (length s.cache, s.cache_size, cnt, size, length s.to_remove)

module _ (env : Env) where
  -- What the backend has under the object's key: an entry over a copy of it, or an error.
  unfoldable pub open_object : ℕ → ℕ → ℕ → Bool → Option (List ℕ) → M ℕ
  unfolding new_entry
  open_object i b obj bad none = raise (no_such_object obj)
  open_object i b obj bad (some bytes) =
      branch bad (raise (corrupted_object obj))
        do e ← gets (λ s. s.next_entry); modify (new_entry i b bytes); pure e

  -- Taking the lock of the object waits for its upload.
  unfoldable pub download : ℕ → ℕ → ℕ → M ℕ
  unfolding acquire release pause open_object
  download i b obj = do
    acquire env (obj_key obj)
    release env false (obj_key obj)
    pause env
    bytes ← gets (λ s. s.stored obj)
    bad ← gets (λ s. env.corrupt s obj)
    open_object i b obj bad bytes

  -- `_get_entry`, for what the cache and the table have for the block
  unfoldable pub choose_entry : ℕ → ℕ → Option ℕ → Option ℕ → M ℕ
  unfolding new_entry move_to_end download
  choose_entry i b (some e) obj_id = do modify (move_to_end i b e); pure e
  choose_entry i b none none = do e ← gets (λ s. s.next_entry); modify (new_entry i b []); pure e
  choose_entry i b none (some obj) = download i b obj

  -- The `CacheEntry` of a block, by its identity.
  unfoldable pub get_entry : ℕ → ℕ → M ℕ
  unfolding find_slot block_object choose_entry
  get_entry i b = do
    cached ← gets (find_slot i b)
    obj_id ← gets (block_object i b)
    choose_entry i b cached obj_id

  -- `finally: await self.mlock.release(inode, blockno)`
  unfoldable pub releasing : {A : Type 0} → ℕ → ℕ → M A → M A
  unfolding release
  releasing i b m = do
    r ← catch m (λ x. do release env false (block_key i b); raise x)
    release env false (block_key i b)
    pure r
