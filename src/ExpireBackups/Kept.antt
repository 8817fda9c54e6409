-- ===== src/ExpireBackups/Kept.antt =====
-- `process_backups` of contrib/expire_backups.py keeps a backup in each range that has one.
use mathlib.Core.Option
use s3ql.Prelude.{
  ℕ, zero, suc, ◌+◌, ◌≤◌, ◌<◌, ◌≡◌, refl, ap, Bool, true, not, ◌&&◌, List, [], ◌∷◌, Option, none,
  some, inl, inr, arith, Bool-cases, Option-cases, get_elem?,
}
use s3ql.Prelude.Sql.{select, count, delete, select-holds, select-none}
use s3ql.BlockCache.State.{member}
use s3ql.ExpireBackups.{
  Backup, actual, Sim, Plan, in_range, update_state, ranges_from, max_of, any_sim, sim_eq, put_sim,
  age_sims, keep_found, keep_range, keep_ranges, advance, keep_steps, kept, process_backups,
}

-- The number of backups in a range of ages, and of those that are kept.
abbrev pub in_count : ℕ → ℕ → List Backup → ℕ
in_count lo hi state = count (λ (r : Backup). in_range lo hi r.age) state

abbrev pub kept_count : ℕ → ℕ → List ℕ → List Backup → ℕ
kept_count lo hi keep state =
    count (λ (r : Backup). in_range lo hi r.age && member r.name keep) state

kept_count-more :
    (lo hi x : ℕ) (keep : List ℕ) (state : List Backup)
    → kept_count lo hi keep state ≤ kept_count lo hi (x ∷ keep) state
unfolding member
kept_count-more lo hi x keep [] = omega arith
kept_count-more lo hi x keep (r ∷ state) = ground (arith, kept_count-more lo hi x keep state)

-- A backup that is found for one range counts for each range that it is in.
kept_count-found :
    (lo hi : ℕ) (p : Backup → Bool) (keep : List ℕ) (state : List Backup) (r : Backup)
    → select p state ≡ some r
    → in_range lo hi r.age ≡ true
    → 0 < kept_count lo hi (r.name ∷ keep) state
unfolding member select
kept_count-found lo hi p keep [] r f i = absurd (ground (arith, f))
kept_count-found lo hi p keep (x ∷ state) r f i = elim (Bool-cases (p x)) [
  | inl e ↦ let same : some x ≡ some r = ground (arith, e, f) in ground (arith, same, i)
  | inr e ↦ ground (arith, e, f, i, kept_count-found lo hi p keep state r)
]

any_sim-delete :
    (lo hi : ℕ) (q : Sim → Bool) (sims : List Sim)
    → any_sim lo hi (delete q sims) ≡ true
    → any_sim lo hi sims ≡ true
unfolding any_sim delete
any_sim-delete lo hi q [] h = h
any_sim-delete lo hi q (x ∷ sims) h = ground (arith, h, any_sim-delete lo hi q sims)

module _ (state : List Backup) where
  -- In the first step, each simulated backup stands for one that is kept.
  record IsActual (p : Plan) : Type 0 where
    stands : (lo hi : ℕ) → any_sim lo hi p.sims ≡ true → 0 < kept_count lo hi p.keep state

  keep_found-IsActual :
      (q : Backup → Bool) (o : Option Backup) (p : Plan)
      → select q state ≡ o
      → IsActual p
      → IsActual (keep_found 0 o p)
  unfolding keep_found put_sim any_sim
  keep_found-IsActual q none p e h = h
  keep_found-IsActual q (some r) p e h = record {
    stands = λ lo hi any. elim (Bool-cases (in_range lo hi r.age)) [
      | inl i ↦ kept_count-found lo hi q p.keep state r e i
      | inr i ↦
          let rest = any_sim-delete lo hi (λ x. sim_eq (actual r.name) x.key) p.sims in
          ground (arith, any, i, rest, h.stands lo hi, kept_count-more lo hi r.name p.keep state)
    ];
  }

  keep_range-IsActual : (r : ℕ × ℕ) (p : Plan) → IsActual p → IsActual (keep_range 0 state r p)
  unfolding keep_range
  keep_range-IsActual (lo, hi) p h = elim (Bool-cases (any_sim lo hi p.sims)) [
    | inl e ↦ rw e h
    | inr e ↦ rw e (keep_found-IsActual (λ r. in_range lo hi (r.age + 0)) _ p refl h)
  ]

  keep_found-more :
      (step lo hi : ℕ) (o : Option Backup) (p : Plan)
      → kept_count lo hi p.keep state ≤ kept_count lo hi (keep_found step o p).keep state
  unfolding keep_found
  keep_found-more step lo hi none p = omega arith
  keep_found-more step lo hi (some r) p = kept_count-more lo hi r.name p.keep state

  keep_range-more :
      (step lo hi : ℕ) (r : ℕ × ℕ) (p : Plan)
      → kept_count lo hi p.keep state ≤ kept_count lo hi (keep_range step state r p).keep state
  unfolding keep_range
  keep_range-more step lo hi (l, h) p = elim (Bool-cases (any_sim l h p.sims)) [
    | inl e ↦ rw e (omega arith)
    | inr e ↦ rw e (keep_found-more step lo hi _ p)
  ]

  keep_ranges-more :
      (step lo hi : ℕ) (rs : List (ℕ × ℕ)) (p : Plan)
      → kept_count lo hi p.keep state ≤ kept_count lo hi (keep_ranges step state rs p).keep state
  unfolding keep_ranges
  keep_ranges-more step lo hi [] p = omega arith
  keep_ranges-more step lo hi (r ∷ rs) p = omega (
    arith,
    keep_range-more step lo hi r p,
    keep_ranges-more step lo hi rs (keep_range step state r p),
  )

  keep_steps-more :
      (step n lo hi : ℕ) (rs : List (ℕ × ℕ)) (p : Plan)
      → kept_count lo hi p.keep state ≤ kept_count lo hi (keep_steps step n state rs p).keep state
  unfolding keep_steps advance
  keep_steps-more step zero lo hi rs p = omega arith
  keep_steps-more step (suc n) lo hi rs p = omega (
    arith,
    keep_ranges-more step lo hi rs (advance step p),
    keep_steps-more (step + 1) n lo hi rs (keep_ranges step state rs (advance step p)),
  )

  now_count :
      (lo hi : ℕ) (t : List Backup)
      → count (λ (r : Backup). in_range lo hi (r.age + 0)) t ≡ in_count lo hi t
  now_count lo hi [] = refl
  now_count lo hi (r ∷ t) = ground (arith, now_count lo hi t)

  keep_range-kept :
      (lo hi : ℕ) (p : Plan)
      → IsActual p
      → 0 < in_count lo hi state
      → 0 < kept_count lo hi (keep_range 0 state (lo, hi) p).keep state
  unfolding keep_range keep_found
  keep_range-kept lo hi p h some_one = elim (Bool-cases (any_sim lo hi p.sims)) [
    | inl e ↦ rw e (h.stands lo hi e)
    | inr e ↦
        let q : Backup → Bool = λ r. in_range lo hi (r.age + 0) in
        elim (Option-cases (select q state)) [
          | inl n ↦ absurd (omega (arith, select-none q state n, now_count lo hi state, some_one))
          | inr (r, f) ↦
              let found = select-holds q state r f in
              rw (e, f) (kept_count-found lo hi q p.keep state r f (ground (arith, found)))
        ]
  ]

  keep_ranges-kept :
      (lo hi i : ℕ) (rs : List (ℕ × ℕ)) (p : Plan)
      → IsActual p
      → get_elem? rs i ≡ some (lo, hi)
      → 0 < in_count lo hi state
      → 0 < kept_count lo hi (keep_ranges 0 state rs p).keep state
  unfolding keep_ranges
  keep_ranges-kept lo hi i [] p h at some_one = absurd (ground (arith, at))
  keep_ranges-kept lo hi zero (r ∷ rs) p h at some_one =
      let same : r ≡ (lo, hi) = ap (λ o. Option.get_or o r) at in
      let first : 0 < kept_count lo hi (keep_range 0 state r p).keep state =
        rw same (keep_range-kept lo hi p h some_one) in
      omega (arith, first, keep_ranges-more 0 lo hi rs (keep_range 0 state r p))
  keep_ranges-kept lo hi (suc i) (r ∷ rs) p h at some_one =
      keep_ranges-kept lo hi i rs (keep_range 0 state r p) (keep_range-IsActual r p h) at some_one

count-left :
    (lo hi : ℕ) (keep : List ℕ) (state : List Backup)
    → in_count lo hi (delete (λ (r : Backup). not (member r.name keep)) state)
      ≡ kept_count lo hi keep state
unfolding delete
count-left lo hi keep [] = refl
count-left lo hi keep (r ∷ state) = ground (arith, count-left lo hi keep state)

in_count-pos : (lo hi : ℕ) (state : List Backup) → 0 < in_count lo hi state → 0 < hi
in_count-pos lo hi [] h = absurd (omega arith)
in_count-pos lo hi (r ∷ state) h = ground (arith, h, in_count-pos lo hi state)

max_of-ranges_from :
    (l lo hi i : ℕ) (cycles : List ℕ)
    → get_elem? (ranges_from l cycles) i ≡ some (lo, hi)
    → hi ≤ max_of cycles
unfolding ranges_from max_of
max_of-ranges_from l lo hi i [] e = absurd (ground (arith, e))
max_of-ranges_from l lo hi zero (c ∷ cycles) e =
    let same : c ≡ hi = ap (λ (o : Option (ℕ × ℕ)). elim o [ none ↦ c | some r ↦ r.1 ]) e in
    omega arith
max_of-ranges_from l lo hi (suc i) (c ∷ cycles) e =
    omega (arith, max_of-ranges_from c lo hi i cycles e)

empty-IsActual : (state : List Backup) → IsActual state (record { sims = []; keep = [] })
unfolding any_sim
empty-IsActual state = record { stands = λ lo hi any. absurd (ground (arith, any)) }

first_step :
    (n lo hi i : ℕ) (state : List Backup) (rs : List (ℕ × ℕ))
    → 0 < n
    → get_elem? rs i ≡ some (lo, hi)
    → 0 < in_count lo hi state
    → 0 < kept_count lo hi (keep_steps 0 n state rs (record { sims = []; keep = [] })).keep state
unfolding keep_steps advance age_sims
first_step zero lo hi i state rs n at some_one = absurd (omega arith)
first_step (suc n) lo hi i state rs pos at some_one =
    let none_yet : Plan = record { sims = []; keep = [] } in
    omega (
      arith,
      keep_ranges-kept state lo hi i rs none_yet (empty-IsActual state) at some_one,
      keep_steps-more state (0 + 1) n lo hi rs (keep_ranges 0 state rs none_yet),
    )

-- In each range of ages in which there is a backup once the new ones have been taken in, a backup is
-- left after `process_backups`; ranges are those between the cycles, the first from 0.
pub process_backups_lem :
    (names : List ℕ) (state : List Backup) (cycles : List ℕ) (i lo hi : ℕ)
    → get_elem? (ranges_from 0 cycles) i ≡ some (lo, hi)
    → 0 < in_count lo hi (update_state names state)
    → 0 < in_count lo hi (process_backups names state cycles).1
unfolding process_backups kept
process_backups_lem names state cycles i lo hi at some_one =
    let now = update_state names state in
    let steps : 0 < max_of cycles =
      omega (arith, max_of-ranges_from 0 lo hi i cycles at, in_count-pos lo hi now some_one) in
    let left = first_step (max_of cycles) lo hi i now (ranges_from 0 cycles) steps at some_one in
    omega (arith, left, count-left lo hi (kept now cycles) now)
