-- ===== src/InodeCache/Slots.antt =====
-- The slots of the cache of inodes: each object is in one of them, so `flush` and `destroy` of
-- src/s3ql/inode_cache.py, which go through the slots, reach every object.
use mathlib.Core.Option
use s3ql.Prelude.{
  ℕ, sym, zero, suc, ◌+◌, ◌%◌, ◌<◌, ◌≡◌, ◌⊎◌, refl, ◌∙◌, ap, Bool, true, false, List, [], ◌∷◌,
  Option, none, some, inl, inr, arith, ◌==◌, if◌then◌else◌, Option-cases, get_elem?, set, length,
}
use s3ql.Fs.State.{Inode}
use s3ql.InodeCache.{
  cache_size, Cache, put_attrs, setattr, evict, take_slot, cache_row, getitem, destroy_slots,
  destroy,
}
use s3ql.InodeCache.Coherence.{
  stored_row, view, IsCoherent, attrs-evict, view-evict, evict-IsCoherent,
}

abbrev pub has_slot : ℕ → List (Option ℕ) → Bool
has_slot j [] = false
has_slot j (none ∷ rows) = has_slot j rows
has_slot j (some i ∷ rows) = if i == j then true else has_slot j rows

-- Each object is in one of the slots.
abbrev pub IsTracked : Cache → Type 0
IsTracked s = (j : ℕ) → has_slot j s.cached_rows ≡ false → s.attrs j ≡ none

set-has_slot :
    (rows : List (Option ℕ)) (n j : ℕ) (x : Option ℕ)
    → has_slot j (set rows n x) ≡ false
    → has_slot j rows ≡ false ⊎ (Option.get_or (get_elem? rows n) none ≡ some j)
set-has_slot [] n j x h = inl refl
set-has_slot (none ∷ rows) zero j none h = inl h
set-has_slot (none ∷ rows) zero j (some k) h = inl (ground (arith, h))
set-has_slot (some i ∷ rows) zero j none h = ground (arith, h)
set-has_slot (some i ∷ rows) zero j (some k) h = ground (arith, h)
set-has_slot (none ∷ rows) (suc n) j x h = set-has_slot rows n j x h
set-has_slot (some i ∷ rows) (suc n) j x h = ground (arith, set-has_slot rows n j x)

has_slot-set :
    (rows : List (Option ℕ)) (n j : ℕ) → n < length rows → has_slot j (set rows n (some j)) ≡ true
has_slot-set [] n j lt = absurd (omega arith)
has_slot-set (x ∷ rows) zero j lt = ground arith
has_slot-set (none ∷ rows) (suc n) j lt = has_slot-set rows n j (omega arith)
has_slot-set (some i ∷ rows) (suc n) j lt = ground (arith, has_slot-set rows n j (omega arith))

attrs-evict_self : (j : ℕ) (s : Cache) → (evict (some j) s).attrs j ≡ none
unfolding evict setattr put_attrs
attrs-evict_self j s = elim (Option-cases (s.attrs j)) [
  | inl f ↦ rw (evict, f) f
  | inr (c, f) ↦ rw (evict, f) (ground arith)
]

slots-evict : (old : Option ℕ) (s : Cache) → (evict old s).cached_rows ≡ s.cached_rows
unfolding evict setattr put_attrs
slots-evict none s = refl
slots-evict (some old) s = elim (Option-cases (s.attrs old)) [
  | inl f ↦ rw (evict, f) refl
  | inr (c, f) ↦ rw (evict, f) (ground arith)
]

length-set : {A : Type 0} (xs : List A) (n : ℕ) (x : A) → length (set xs n x) ≡ length xs
length-set [] n x = refl
length-set (y ∷ xs) zero x = refl
length-set (y ∷ xs) (suc n) x = ap suc (length-set xs n x)

-- The slots are as many as `CACHE_SIZE`, and the next one to use is among them.
pub record IsLaidOut (s : Cache) : Type 0 where
  pub tracked : IsTracked s
  pub bound : s.pos < cache_size
  pub size : length s.cached_rows ≡ cache_size

attrs-evict_given :
    (old : Option ℕ) (s : Cache) (j : ℕ) → old ≡ some j → (evict old s).attrs j ≡ none
attrs-evict_given old s j e = rw e (attrs-evict_self j s)

has_slot-evict :
    (old : Option ℕ) (s : Cache) (j : ℕ)
    → has_slot j (evict old s).cached_rows ≡ has_slot j s.cached_rows
has_slot-evict old s j = ap (has_slot j) (slots-evict old s)

take_slot-tracked :
    (id j : ℕ) (s : Cache)
    → IsLaidOut s
    → has_slot j (take_slot id s).cached_rows ≡ false
    → (take_slot id s).attrs j ≡ none
unfolding take_slot
take_slot-tracked id j s h e =
    let old = Option.get_or (get_elem? s.cached_rows s.pos) none in
    let next = record s {
      cached_rows = set s.cached_rows s.pos (some id);
      pos = (s.pos + 1) % cache_size;
    } in
    elim (set-has_slot s.cached_rows s.pos j (some id) (sym (has_slot-evict old next j) ∙ e)) [
      | inl f ↦ attrs-evict old next j (h.tracked j f)
      | inr g ↦ attrs-evict_given old next j g
    ]

pos-evict : (old : Option ℕ) (s : Cache) → (evict old s).pos ≡ s.pos
unfolding evict setattr put_attrs
pos-evict none s = refl
pos-evict (some old) s = elim (Option-cases (s.attrs old)) [
  | inl f ↦ rw (evict, f) refl
  | inr (c, f) ↦ rw (evict, f) (ground arith)
]

cache_row-IsLaidOut :
    (id : ℕ) (row : Inode) (s : Cache) → IsLaidOut s → IsLaidOut (cache_row id row s)
unfolding cache_row take_slot put_attrs
cache_row-IsLaidOut id row s h =
    let old = Option.get_or (get_elem? s.cached_rows s.pos) none in
    let next = record s {
      cached_rows = set s.cached_rows s.pos (some id);
      pos = (s.pos + 1) % cache_size;
    } in
    record {
      tracked = λ j e. ground (
        arith,
        take_slot-tracked id j s h e,
        has_slot-evict old next j,
        has_slot-set s.cached_rows s.pos id (omega (arith, h.bound, h.size)),
      );
      bound = omega (arith, pos-evict old next);
      size = ap length (slots-evict old next) ∙ length-set s.cached_rows s.pos (some id) ∙ h.size;
    }

-- Reading an inode through the cache keeps each object in one of the slots, of which there are as
-- many as before, and the next one to use among them.
pub getitem-IsLaidOut : (id : ℕ) (s : Cache) → IsLaidOut s → IsLaidOut (getitem id s).1
unfolding getitem
getitem-IsLaidOut id s h = elim (Option-cases (s.attrs id)) [
  | inr (c, e) ↦ rw (getitem, e) h
  | inl e ↦ elim (Option-cases (stored_row id s)) [
    | inl f ↦ rw (getitem, e, f) h
    | inr (row, f) ↦ rw (getitem, e, f) (cache_row-IsLaidOut id row s h)
  ]
]

-- Giving up slots one after the other.
module _ (j : ℕ) where
  attrs-destroy_slots :
      (rows : List (Option ℕ)) (s : Cache)
      → has_slot j rows ≡ true ⊎ (s.attrs j ≡ none)
      → (destroy_slots rows s).attrs j ≡ none
  unfolding destroy_slots
  attrs-destroy_slots [] s h = ground (arith, h)
  attrs-destroy_slots (none ∷ rows) s h = attrs-destroy_slots rows s h
  attrs-destroy_slots (some i ∷ rows) s h =
      attrs-destroy_slots rows (evict (some i) s)
        (ground (arith, h, attrs-evict (some i) s j, attrs-evict_given (some i) s j))

  view-destroy_slots :
      (rows : List (Option ℕ)) (s : Cache) → IsCoherent s → view j (destroy_slots rows s) ≡ view j s
  unfolding destroy_slots
  view-destroy_slots [] s h = refl
  view-destroy_slots (r ∷ rows) s h =
      view-destroy_slots rows (evict r s) (evict-IsCoherent r s h) ∙ view-evict r s h j

-- `destroy` of a coherent cache whose objects are all in slots leaves no object in it, and the row of
-- each inode in the table is what a client saw of it before.
pub destroy_lem :
    (j : ℕ) (s : Cache)
    → IsCoherent s
    → IsLaidOut s
    → ((destroy s).attrs j ≡ none) × (stored_row j (destroy s) ≡ view j s)
unfolding destroy
destroy_lem j s h l =
    let empty = attrs-destroy_slots j s.cached_rows s (ground (arith, l.tracked j)) in
    let same = view-destroy_slots j s.cached_rows s h in (empty, ground (arith, empty, same))
