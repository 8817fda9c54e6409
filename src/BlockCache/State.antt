-- ===== src/BlockCache/State.antt =====
-- The state of src/s3ql/block_cache.py: the cache, the queues, and of the database the tables
-- `objects` and `inode_blocks`; and the actions that it is changed by.
use mathlib.Core.Option
use s3ql.Prelude.{
  ℕ, zero, suc, ◌+◌, Bool, true, false, ◌&&◌, List, [], ◌∷◌, Option, none, some, ◌==◌,
  if◌then◌else◌,
}
use s3ql.Prelude.Int.{ℤ}
use s3ql.Prelude.Sql.{select, has_key}
use s3ql.Prelude.Effect.{Action, returned, raised, ◌>>◌}
use s3ql.MultiLock
use s3ql.MultiLock.{Key}
use s3ql.BlockCache.Entry.{CacheEntry}

-- A row of `objects`. `phys_size` is `none` for -1, and `hash` is `none` for NULL.
pub record Object : Type 0 where
  pub id : ℕ
  pub hash : Option ℕ
  pub refcount : ℕ
  pub phys_size : Option ℕ
  pub size : ℕ

-- A row of `inode_blocks`.
pub record Block : Type 0 where
  pub inode : ℕ
  pub blockno : ℕ
  pub obj_id : ℕ

-- An item of the ordered dictionary: its key, and the entry object by its identity.
pub record Slot : Type 0 where
  pub inode : ℕ
  pub blockno : ℕ
  pub entry : ℕ

pub data Error : Type 0 where
  no_worker_threads no_such_row key_error cancelled : Error
  no_such_object corrupted_object : ℕ → Error

-- `heap` holds the `CacheEntry` objects by identity. `to_upload` holds what a worker has taken and
-- not finished. The numbers of threads count those that are alive. `stored` is the backend: what it
-- holds under `s3ql_data_<id>`. `clock` counts the waits.
pub record State : Type 0 where
  pub heap : ℕ → CacheEntry
  pub next_entry : ℕ
  pub cache : List Slot
  pub cache_size : ℤ
  pub max_size : ℕ
  pub max_entries : ℕ
  pub locked_keys : List Key
  pub in_transit : List ℕ
  pub to_upload : List (ℕ × ℕ)
  pub upload_threads : ℕ
  pub to_remove : List ℕ
  pub removal_threads : ℕ
  pub objects : List Object
  pub last_object : ℕ
  pub blocks : List Block
  pub stored : ℕ → Option (List ℕ)
  pub clock : ℕ

-- What the code does not decide: what other tasks do while this one waits, how many wake-ups a
-- waiting task lives to see (it is cancelled after them), the hash function, whether a wait of five
-- seconds was ended by a notification, whether the lock inside `MultiLock` is taken just now, and
-- whether the backend finds an object malformed.
pub record Env : Type 0 where
  pub other : State → State
  pub patience : ℕ
  pub sha256 : List ℕ → ℕ
  pub notified : State → Bool
  pub contended : State → Bool
  pub corrupt : State → ℕ → Bool

abbrev pub M : Type 0 → Type 0
M = Action Error State

abbrev pub obj_key : ℕ → Key
obj_key id = id ∷ []

abbrev pub block_key : ℕ → ℕ → Key
block_key i b = i ∷ b ∷ []

abbrev pub is_block : ℕ → ℕ → Block → Bool
is_block i b r = r.inode == i && r.blockno == b

abbrev pub is_slot : ℕ → ℕ → Slot → Bool
is_slot i b r = r.inode == i && r.blockno == b

abbrev pub id_of : Object → ℕ
id_of o = o.id

-- `x in s` and `s.discard(x)` for a set of entries.
unfoldable pub member : ℕ → List ℕ → Bool
member x [] = false
member x (y ∷ s) = if y == x then true else member x s

unfoldable pub without : ℕ → List ℕ → List ℕ
without x [] = []
without x (y ∷ s) = let rest = without x s in if y == x then rest else y ∷ rest

unfoldable pub put_entry : ℕ → CacheEntry → State → State
put_entry e el s = record s { heap = λ i. if e == i then el else s.heap i }

-- `self.cache.get(key)`
unfoldable pub find_slot : ℕ → ℕ → State → Option ℕ
find_slot i b s = Option.map (λ (r : Slot). r.entry) (select (is_slot i b) s.cache)

-- `SELECT obj_id FROM inode_blocks WHERE inode=? AND blockno=?`
unfoldable pub block_object : ℕ → ℕ → State → Option ℕ
block_object i b s = Option.map (λ (r : Block). r.obj_id) (select (is_block i b) s.blocks)

unfoldable pub find_object : ℕ → State → Option Object
find_object id s = select (has_key id_of id) s.objects

module _ (env : Env) where
  -- A point at which other tasks run.
  unfoldable pub pause : M (Unit {0})
  pause s = (returned tt, env.other (record s { clock = s.clock + 1 }))

  -- The loop of `MultiLock.acquire`; a task that has waited too often is cancelled.
  unfoldable pub acquire_loop : ℕ → Key → M (Unit {0})
  unfolding pause
  acquire_loop zero k s = (raised cancelled, s)
  acquire_loop (suc n) k s =
      let s' = (pause s).1 in
      elim (MultiLock.acquire_round k s'.locked_keys) [
        | none ↦ acquire_loop n k s'
        | some ls ↦ (returned tt, record s' { locked_keys = ls })
      ]

  unfoldable pub acquire : Key → M (Unit {0})
  acquire k = acquire_loop env.patience k

  unfoldable pub release_now : Bool → Key → M (Unit {0})
  release_now noerror k s = elim (MultiLock.release noerror k s.locked_keys) [
    | none ↦ (raised key_error, s)
    | some ls ↦ (returned tt, record s { locked_keys = ls })
  ]

  unfoldable pub release : Bool → Key → M (Unit {0})
  unfolding pause release_now
  release noerror k = do pause; release_now noerror k
