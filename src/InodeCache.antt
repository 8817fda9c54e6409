-- ===== src/InodeCache.antt =====
-- src/s3ql/inode_cache.py: rows of the table `inodes`, kept in memory and written back.
pub mod Coherence
pub mod Slots
pub mod Flush
mod Tests
use mathlib.Core.Option
use s3ql.Prelude.{
  ℕ, ◌+◌, ◌%◌, Bool, true, false, List, [], ◌∷◌, ◌++◌, Option, none, some, get_elem?, set,
  replicate, ◌==◌, if◌then◌else◌,
}
use s3ql.Prelude.Sql.{select, update, delete, has_key}
use s3ql.Prelude.Effect.{Outcome, returned, raised}
use s3ql.Fs.State.{Inode, Error, key_error, inode_key}

-- An `_Inode` object: its attributes, and whether they have been assigned since.
pub record Cached : Type 0 where
  pub row : Inode
  pub dirty : Bool

-- `attrs` and `cached_rows` of the cache, and the table it stands before.
pub record Cache : Type 0 where
  pub table : List Inode
  pub last_id : ℕ
  pub attrs : ℕ → Option Cached
  pub cached_rows : List (Option ℕ)
  pub pos : ℕ

abbrev pub cache_size : ℕ
cache_size = 100

unfoldable pub empty_cache : List Inode → ℕ → Cache
empty_cache table last_id = record {
  table = table;
  last_id = last_id;
  attrs = λ i. none;
  cached_rows = replicate cache_size none;
  pos = 0;
}

-- `self.attrs[id] = c`, and `del self.attrs[id]` for `none`
unfoldable pub put_attrs : ℕ → Option Cached → Cache → Cache
put_attrs id c s = record s { attrs = λ j. if id == j then c else s.attrs j }

-- The `UPDATE` of `setattr`: all columns but the id.
unfoldable pub write_row : Inode → List Inode → List Inode
write_row c t = update (has_key inode_key c.id) (λ r. record c { id = r.id }) t

-- `setattr`, as far as the table goes
unfoldable pub setattr : Cached → Cache → Cache
unfolding write_row
setattr c s = if c.dirty then record s { table = write_row c.row s.table } else s

-- The entry in a slot is given up: it is written back if it was changed.
unfoldable pub evict : Option ℕ → Cache → Cache
unfolding setattr put_attrs
evict none s = s
evict (some old) s = elim (s.attrs old) [ none ↦ s | some c ↦ setattr c (put_attrs old none s) ]

-- The next slot of `__getitem__` is taken for an inode, and what was in it is given up.
unfoldable pub take_slot : ℕ → Cache → Cache
unfolding evict
take_slot id s =
    let old = Option.get_or (get_elem? s.cached_rows s.pos) none in
    evict old
      (record s { cached_rows = set s.cached_rows s.pos (some id); pos = (s.pos + 1) % cache_size })

-- The part of `__getitem__` behind a miss.
unfoldable pub cache_row : ℕ → Inode → Cache → Cache
unfolding take_slot put_attrs
cache_row id row s = put_attrs id (some (record { row = row; dirty = false })) (take_slot id s)

-- `__getitem__`
unfoldable pub getitem : ℕ → Cache → Outcome Error Inode × Cache
unfolding cache_row
getitem id s = elim (s.attrs id) [
  | some c ↦ (returned c.row, s)
  | none ↦ elim (select (has_key inode_key id) s.table) [
    | none ↦ (raised key_error, s)
    | some row ↦ (returned row, cache_row id row s)
  ]
]

-- An assignment to an attribute (not the id) of the object that the cache holds.
unfoldable pub assign : ℕ → (Inode → Inode) → Cache → Cache
unfolding put_attrs
assign id f s = elim (s.attrs id) [
  | none ↦ s
  | some c ↦ put_attrs id (some (record { row = f c.row; dirty = true })) s
]

-- `__delitem__`
unfoldable pub delitem : ℕ → Cache → Outcome Error (Unit {0}) × Cache
unfolding put_attrs
delitem id s = elim (select (has_key inode_key id) s.table) [
  | none ↦ (raised key_error, s)
  | some _ ↦
      (returned tt, put_attrs id none (record s { table = delete (has_key inode_key id) s.table }))
]

-- `create_inode`: the attributes are those of a row with the next id.
unfoldable pub create_inode : (ℕ → Inode) → Cache → Outcome Error Inode × Cache
unfolding getitem
create_inode attrs s =
    let id = s.last_id + 1 in
    getitem id (record s { table = s.table ++ attrs id ∷ []; last_id = id })

-- `flush_id`: the object is clean then.
unfoldable pub flush_id : ℕ → Cache → Cache
unfolding setattr put_attrs
flush_id id s = elim (s.attrs id) [
  | none ↦ s
  | some c ↦ setattr c (put_attrs id (some (record c { dirty = false })) s)
]

-- `flush`, and `destroy`: the slots in order
unfoldable pub flush_slots : List (Option ℕ) → Cache → Cache
unfolding flush_id
flush_slots [] s = s
flush_slots (none ∷ rows) s = flush_slots rows s
flush_slots (some id ∷ rows) s = flush_slots rows (flush_id id s)

unfoldable pub flush : Cache → Cache
unfolding flush_slots
flush s = flush_slots s.cached_rows s

unfoldable pub destroy_slots : List (Option ℕ) → Cache → Cache
unfolding evict
destroy_slots [] s = s
destroy_slots (id ∷ rows) s = destroy_slots rows (evict id s)

-- The slots are all empty then.
unfoldable pub destroy : Cache → Cache
unfolding destroy_slots
destroy s = record (destroy_slots s.cached_rows s) { cached_rows = replicate cache_size none }
