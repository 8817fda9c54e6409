-- ===== src/InodeCache/Coherence.antt =====
-- The cache of inodes against the table: what its operations make of the attributes that a client
-- sees, and that no change is lost.
use mathlib.Core.Option
use s3ql.Prelude.{
  ◌%◌, get_elem?, set, ℕ, ◌+◌, ◌≡◌, refl, ap, false, List, [], ◌∷◌, Option, none, some, inl, inr,
  arith, ◌==◌, if◌then◌else◌, Bool-cases, Option-cases,
}
use s3ql.Prelude.Sql.{select, update, has_key, select-delete, select-holds}
use s3ql.Prelude.Effect.{Outcome, returned, raised}
use s3ql.Fs.State.{Inode, Error, key_error, inode_key}
use s3ql.InodeCache.{
  cache_size, Cached, Cache, put_attrs, write_row, setattr, evict, take_slot, cache_row, getitem,
  assign, delitem,
}

abbrev pub stored_row : ℕ → Cache → Option Inode
stored_row i s = select (has_key inode_key i) s.table

abbrev view_of : Option Cached → Option Inode → Option Inode
view_of (some c) r = some c.row
view_of none r = r

-- The attributes of an inode as a client sees them: those of the object, or those of the row.
abbrev pub view : ℕ → Cache → Option Inode
view i s = view_of (s.attrs i) (stored_row i s)

-- Each object has the id it is kept under, stands for a row of the table, and is equal to it unless
-- it was changed.
pub record IsCoherent (s : Cache) : Type 0 where
  pub key : (i : ℕ) (c : Cached) → s.attrs i ≡ some c → c.row.id ≡ i
  pub known : (i : ℕ) → stored_row i s ≡ none → s.attrs i ≡ none
  pub clean :
      (i : ℕ) (c : Cached) → s.attrs i ≡ some c → c.dirty ≡ false → stored_row i s ≡ some c.row

row-id : (c r : Inode) → r.id ≡ c.id → record c { id = r.id } ≡ c
row-id c r e = ap (λ i. record c { id = i }) e

abbrev replaced : Inode → Option Inode → Option Inode
replaced c none = none
replaced c (some r) = some c

pub select-write_row :
    (i : ℕ) (c : Inode) (t : List Inode)
    → select (has_key inode_key i) (write_row c t) ≡ (
        if c.id == i
        then replaced c (select (has_key inode_key i) t)
        else select (has_key inode_key i) t)
unfolding write_row select update
select-write_row i c [] = ground arith
select-write_row i c (r ∷ t) = elim (Bool-cases (r.id == c.id)) [
  | inl e ↦
      let same = row-id c r (ground arith) in rw (e, same) (ground (arith, select-write_row i c t))
  | inr e ↦ rw (e) (ground (arith, select-write_row i c t))
]

-- Writing an object back and dropping it.
module _ (old : ℕ) (s : Cache) (h : IsCoherent s) where
  view-evict_one :
      (c : Cached)
      → s.attrs old ≡ some c
      → (j : ℕ) → view j (setattr c (put_attrs old none s)) ≡ view j s
  unfolding setattr put_attrs
  view-evict_one c e j =
      ground
        (arith, e, h.key old c e, h.known old, h.clean old c e, select-write_row j c.row s.table)

  evict_one-IsCoherent :
      (c : Cached) → s.attrs old ≡ some c → IsCoherent (setattr c (put_attrs old none s))
  unfolding setattr put_attrs
  evict_one-IsCoherent c e = record {
    key = λ i d a. ground (arith, h.key i d);
    known = λ i n. ground (arith, h.known i, h.key old c e, select-write_row i c.row s.table);
    clean = λ i d a q. ground (arith, h.clean i d, h.key old c e, select-write_row i c.row s.table);
  }

pub view-evict :
    (old : Option ℕ) (s : Cache) → IsCoherent s → (j : ℕ) → view j (evict old s) ≡ view j s
unfolding evict
view-evict none s h j = refl
view-evict (some old) s h j = elim (Option-cases (s.attrs old)) [
  | inl e ↦ rw (evict, e) refl
  | inr (c, e) ↦ rw (evict, e) (view-evict_one old s h c e j)
]

pub evict-IsCoherent : (old : Option ℕ) (s : Cache) → IsCoherent s → IsCoherent (evict old s)
unfolding evict
evict-IsCoherent none s h = h
evict-IsCoherent (some old) s h = elim (Option-cases (s.attrs old)) [
  | inl e ↦ rw (evict, e) h
  | inr (c, e) ↦ rw (evict, e) (evict_one-IsCoherent old s h c e)
]

-- A row that is read from the table joins the cache.
module _ (id : ℕ) (row : Inode) (s : Cache) (h : IsCoherent s) where
  pub join-IsCoherent :
      stored_row id s ≡ some row
      → IsCoherent (put_attrs id (some (record { row = row; dirty = false })) s)
  unfolding put_attrs
  join-IsCoherent e = record {
    key = λ i d a. ground (arith, h.key i d, select-holds (has_key inode_key id) s.table row e);
    known = λ i n. ground (arith, h.known i);
    clean = λ i d a q. ground (arith, h.clean i d);
  }

pub attrs-evict :
    (old : Option ℕ) (s : Cache) (id : ℕ) → s.attrs id ≡ none → (evict old s).attrs id ≡ none
unfolding evict setattr put_attrs
attrs-evict none s id e = e
attrs-evict (some old) s id e = elim (Option-cases (s.attrs old)) [
  | inl f ↦ rw (evict, f) e
  | inr (c, f) ↦ rw (evict, f) (ground (arith, e))
]

IsCoherent-slots :
    (s : Cache) (rows : List (Option ℕ)) (n : ℕ)
    → IsCoherent s
    → IsCoherent (record s { cached_rows = rows; pos = n })
IsCoherent-slots s rows n h = record { key = h.key; known = h.known; clean = h.clean }

-- A miss.
module _ (id : ℕ) (s : Cache) (h : IsCoherent s) where
  view-take_slot : (j : ℕ) → view j (take_slot id s) ≡ view j s
  unfolding take_slot
  view-take_slot j = view-evict _ _ (IsCoherent-slots s _ _ h) j

  take_slot-IsCoherent : IsCoherent (take_slot id s)
  unfolding take_slot
  take_slot-IsCoherent = evict-IsCoherent _ _ (IsCoherent-slots s _ _ h)

  attrs-take_slot : s.attrs id ≡ none → (take_slot id s).attrs id ≡ none
  unfolding take_slot
  attrs-take_slot e =
      let old = Option.get_or (get_elem? s.cached_rows s.pos) none in
      let next = record s {
        cached_rows = set s.cached_rows s.pos (some id);
        pos = (s.pos + 1) % cache_size;
      } in
      attrs-evict old next id e

  module _ (row : Inode) (miss : s.attrs id ≡ none) (found : stored_row id s ≡ some row) where
    stored-take_slot : stored_row id (take_slot id s) ≡ some row
    stored-take_slot = ground (arith, view-take_slot id, attrs-take_slot miss, miss, found)

    cache_row-IsCoherent : IsCoherent (cache_row id row s)
    unfolding cache_row
    cache_row-IsCoherent =
        join-IsCoherent id row (take_slot id s) take_slot-IsCoherent stored-take_slot

    view-cache_row : (j : ℕ) → view j (cache_row id row s) ≡ view j s
    unfolding cache_row put_attrs
    view-cache_row j =
        ground (arith, view-take_slot j, attrs-take_slot miss, stored-take_slot, miss, found)

abbrev pub read_result : Option Inode → Outcome Error Inode
read_result none = raised key_error
read_result (some r) = returned r

-- Reading an inode through a coherent cache returns the attributes that a client sees, or raises KeyError
-- where there is no such inode; it changes what a client sees of no inode, and the cache stays
-- coherent, whatever it gives up for the row.
pub getitem_lem :
    (id j : ℕ) (s : Cache)
    → IsCoherent s
    → ((getitem id s).0 ≡ read_result (view id s))
      × (view j (getitem id s).1 ≡ view j s)
      × IsCoherent (getitem id s).1
unfolding getitem
getitem_lem id j s h = elim (Option-cases (s.attrs id)) [
  | inr (c, e) ↦ rw (getitem, e) (refl, refl, h)
  | inl e ↦ elim (Option-cases (stored_row id s)) [
    | inl f ↦ rw (getitem, e, f) (refl, refl, h)
    | inr (row, f) ↦
        rw (getitem, e, f)
          (refl, view-cache_row id s h row e f j, cache_row-IsCoherent id s h row e f)
  ]
]

-- An assignment to an attribute, not the id, of an inode that a coherent cache holds changes what a
-- client sees of it, and of no other inode, and the cache stays coherent.
pub assign_lem :
    (id j : ℕ) (c : Cached) (f : Inode → Inode) (s : Cache)
    → ((r : Inode) → (f r).id ≡ r.id)
    → s.attrs id ≡ some c
    → IsCoherent s
    → (view j (assign id f s) ≡ (if id == j then some (f c.row) else view j s))
      × IsCoherent (assign id f s)
unfolding assign put_attrs
assign_lem id j c f s same e h =
    rw (assign, e)
      (
        ground arith,
        record {
          key = λ i d a. ground (arith, h.key i d, h.key id c e, same c.row);
          known = λ i n. ground (arith, h.known i, e);
          clean = λ i d a q. ground (arith, h.clean i d);
        },
      )

-- After deleting an inode through a coherent cache it is absent for a client, no other inode has
-- changed, and the cache is coherent.
pub delitem_lem :
    (id j : ℕ) (s : Cache)
    → IsCoherent s
    → (view j (delitem id s).1 ≡ (if id == j then none else view j s)) × IsCoherent (delitem id s).1
unfolding delitem put_attrs
delitem_lem id j s h = elim (Option-cases (stored_row id s)) [
  | inl e ↦ rw (delitem, e) (ground (arith, e, h.known id), h)
  | inr (r, e) ↦
      rw (delitem, e)
        (
          ground (arith, select-delete inode_key j id s.table),
          record {
            key = λ i d a. ground (arith, h.key i d);
            known = λ i n. ground (arith, h.known i, select-delete inode_key i id s.table);
            clean = λ i d a q. ground (arith, h.clean i d, select-delete inode_key i id s.table);
          },
        )
]
