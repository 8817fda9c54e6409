-- ===== src/InodeCache/Flush.antt =====
-- Writing back: after `flush` and after `destroy` of src/s3ql/inode_cache.py the table has all that
-- a client sees.
use s3ql.Prelude.{
  ℕ, ◌≡◌, refl, ◌∙◌, Bool, false, List, [], ◌∷◌, Option, none, some, inl, inr, arith, ◌==◌,
  if◌then◌else◌, Option-cases,
}
use s3ql.InodeCache.{Cached, Cache, put_attrs, setattr, flush_id, flush_slots, flush}
use s3ql.InodeCache.Slots.{has_slot, IsTracked}
use s3ql.InodeCache.Coherence.{stored_row, view, IsCoherent, select-write_row}

abbrev dirty_of : Option Cached → Bool
dirty_of none = false
dirty_of (some c) = c.dirty

abbrev is_dirty : ℕ → Cache → Bool
is_dirty j s = dirty_of (s.attrs j)

stored-clean : (j : ℕ) (s : Cache) → IsCoherent s → is_dirty j s ≡ false → stored_row j s ≡ view j s
stored-clean j s h d = elim (Option-cases (s.attrs j)) [
  | inl e ↦ rw e refl
  | inr (c, e) ↦ rw e (h.clean j c e (ground (arith, e)))
]

module _ (id : ℕ) (s : Cache) (h : IsCoherent s) (c : Cached) (e : s.attrs id ≡ some c) where
  written : Cache
  written = setattr c (put_attrs id (some (record c { dirty = false })) s)

  view-written : (j : ℕ) → view j written ≡ view j s
  unfolding written setattr put_attrs
  view-written j =
      ground (arith, e, h.key id c e, h.known id, h.clean id c e, select-write_row j c.row s.table)

  written-IsCoherent : IsCoherent written
  unfolding written setattr put_attrs
  written-IsCoherent = record {
    key = λ i d a. ground (arith, e, h.key i d, h.key id c e);
    known = λ i n.
        ground (arith, h.known i, h.known id, h.key id c e, select-write_row i c.row s.table);
    clean = λ i d a q. ground (
      arith,
      e,
      h.clean i d,
      h.key id c e,
      h.clean id c e,
      h.known id,
      select-write_row i c.row s.table,
    );
  }

  dirty-written : (j : ℕ) → is_dirty j written ≡ (if id == j then false else is_dirty j s)
  unfolding written setattr put_attrs
  dirty-written j = ground (arith, e)

module _ (id : ℕ) (s : Cache) (h : IsCoherent s) where
  view-flush_id : (j : ℕ) → view j (flush_id id s) ≡ view j s
  unfolding flush_id written
  view-flush_id j = elim (Option-cases (s.attrs id)) [
    | inl e ↦ rw (flush_id, e) refl
    | inr (c, e) ↦ rw (flush_id, e) (view-written id s h c e j)
  ]

  flush_id-IsCoherent : IsCoherent (flush_id id s)
  unfolding flush_id written
  flush_id-IsCoherent = elim (Option-cases (s.attrs id)) [
    | inl e ↦ rw (flush_id, e) h
    | inr (c, e) ↦ rw (flush_id, e) (written-IsCoherent id s h c e)
  ]

  dirty-flush_id : (j : ℕ) → is_dirty j (flush_id id s) ≡ (if id == j then false else is_dirty j s)
  unfolding flush_id written
  dirty-flush_id j = elim (Option-cases (s.attrs id)) [
    | inl e ↦ rw (flush_id, e) (ground (arith, e))
    | inr (c, e) ↦ rw (flush_id, e) (dirty-written id s h c e j)
  ]

view-flush_slots :
    (rows : List (Option ℕ)) (s : Cache)
    → IsCoherent s
    → (j : ℕ) → view j (flush_slots rows s) ≡ view j s
unfolding flush_slots
view-flush_slots [] s h j = refl
view-flush_slots (none ∷ rows) s h j = view-flush_slots rows s h j
view-flush_slots (some id ∷ rows) s h j =
    view-flush_slots rows (flush_id id s) (flush_id-IsCoherent id s h) j ∙ view-flush_id id s h j

flush_slots-IsCoherent :
    (rows : List (Option ℕ)) (s : Cache) → IsCoherent s → IsCoherent (flush_slots rows s)
unfolding flush_slots
flush_slots-IsCoherent [] s h = h
flush_slots-IsCoherent (none ∷ rows) s h = flush_slots-IsCoherent rows s h
flush_slots-IsCoherent (some id ∷ rows) s h =
    flush_slots-IsCoherent rows (flush_id id s) (flush_id-IsCoherent id s h)

dirty-flush_slots :
    (rows : List (Option ℕ)) (s : Cache) (j : ℕ)
    → IsCoherent s
    → is_dirty j (flush_slots rows s) ≡ (if has_slot j rows then false else is_dirty j s)
unfolding flush_slots
dirty-flush_slots [] s j h = refl
dirty-flush_slots (none ∷ rows) s j h = dirty-flush_slots rows s j h
dirty-flush_slots (some id ∷ rows) s j h = ground (
  arith,
  dirty-flush_slots rows (flush_id id s) j (flush_id-IsCoherent id s h),
  dirty-flush_id id s h j,
)

-- After `flush` of a coherent cache whose objects are all in slots each inode's row in the table is
-- what a client saw of it before, what a client sees is unchanged, and the cache is coherent.
pub flush_lem :
    (j : ℕ) (s : Cache)
    → IsCoherent s
    → IsTracked s
    → (stored_row j (flush s) ≡ view j s) × (view j (flush s) ≡ view j s) × IsCoherent (flush s)
unfolding flush
flush_lem j s h t =
    let rows = s.cached_rows in
    let coherent = flush_slots-IsCoherent rows s h in
    let same = view-flush_slots rows s h j in
    let clean : is_dirty j (flush_slots rows s) ≡ false =
      ground (arith, dirty-flush_slots rows s j h, t j) in
    (stored-clean j (flush_slots rows s) coherent clean ∙ same, same, coherent)
