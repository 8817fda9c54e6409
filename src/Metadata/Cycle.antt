-- ===== src/Metadata/Cycle.antt =====
-- `cycle_metadata` of src/s3ql/metadata.py keeps every copy but the oldest.
use s3ql.Prelude.{
  ℕ, zero, suc, ◌<◌, ◌≤◌, ◌≡◌, refl, sym, ap, ◌∙◌, Bool, true, false, ◌&&◌, Option, none, some, inl,
  inr, arith, ltb, ◌==◌, if◌then◌else◌, Bool-cases, Option-cases,
}
use s3ql.Prelude.Effect.{returned, catch, pure, modify, branch, bind_returned, ◌>>=◌}
use s3ql.Metadata.{
  Key, current, fresh, bak, key_eq, Backend, put, put_moved, cycle_fn, try_cycle, cycle_baks,
  replace_current, cycle_metadata,
}

abbrev pub or_else : Option ℕ → Option ℕ → Option ℕ
or_else none old = old
or_else (some d) old = some d

-- What is under the key of a copy when it was the source of a move before it is the target of one.
abbrev pub left : Bool → ℕ → Backend → ℕ → Option ℕ
left renames keep b j = if renames && ltb j keep then none else b (bak j)

-- The backend afterwards, each object told by where it was.
abbrev pub rotated : Bool → ℕ → Backend → Backend
rotated renames keep b current = b fresh
rotated renames keep b fresh = none
rotated renames keep b (bak zero) = or_else (b current) (left renames keep b 0)
rotated renames keep b (bak (suc i)) =
    if ltb i keep then or_else (b (bak i)) (left renames keep b (suc i)) else b (bak (suc i))

replace_current-moved :
    (renames : Bool) (n : ℕ) (b : Backend)
    → b fresh ≡ some n
    → replace_current renames b ≡ (returned tt, put fresh none (put current (some n) b))
unfolding replace_current cycle_fn put_moved branch modify pure ◌>>=◌
replace_current-moved true n b e = rw e refl
replace_current-moved false n b e = rw e refl

module _ (renames : Bool) where
  module _ (src dest : Key) (b : Backend) where
    returned-try_cycle : (try_cycle renames src dest b).0 ≡ returned tt
    unfolding try_cycle cycle_fn put_moved catch pure
    returned-try_cycle = elim (Option-cases (b src)) [
      | inl e ↦ rw (try_cycle, e) refl
      | inr (d, e) ↦ rw (try_cycle, e) refl
    ]

    try_cycle-other :
        (j : Key)
        → key_eq src j ≡ false
        → key_eq dest j ≡ false
        → (try_cycle renames src dest b).1 j ≡ b j
    unfolding try_cycle cycle_fn put_moved put catch pure
    try_cycle-other j s d = elim (Option-cases (b src)) [
      | inl e ↦ rw (try_cycle, e) refl
      | inr (x, e) ↦ rw (try_cycle, e) (ground (arith, s, d))
    ]

    -- A copy that is there replaces what was under the key; where there is none, that stays.
    try_cycle-dest :
        key_eq src dest ≡ false
        → key_eq dest dest ≡ true
        → (try_cycle renames src dest b).1 dest ≡ or_else (b src) (b dest)
    unfolding try_cycle cycle_fn put_moved put catch pure
    try_cycle-dest s r = elim (Option-cases (b src)) [
      | inl e ↦ rw (try_cycle, e) refl
      | inr (d, e) ↦ rw (try_cycle, e) (ground (arith, s, r))
    ]

    -- A renamed object is gone, a copied one is still there.
    try_cycle-src :
        key_eq src src ≡ true
        → key_eq src dest ≡ false
        → key_eq dest src ≡ false
        → (try_cycle renames src dest b).1 src ≡ (if renames then none else b src)
    unfolding try_cycle cycle_fn put_moved put catch pure
    try_cycle-src r s d = elim (Option-cases (b src)) [
      | inl e ↦ elim (Bool-cases renames) [
        | inl f ↦ rw (try_cycle, e, f) e
        | inr f ↦ rw (try_cycle, e, f) e
      ]
      | inr (x, e) ↦ elim (Bool-cases renames) [
        | inl f ↦ rw (try_cycle, e, f) (ground (arith, r))
        | inr f ↦ rw (try_cycle, e, f) (ground (arith, s, d, e))
      ]
    ]

  cycle_baks-suc :
      (n : ℕ) (b : Backend)
      → cycle_baks renames (suc n) b
        ≡ cycle_baks renames n (try_cycle renames (bak n) (bak (suc n)) b).1
  unfolding cycle_baks ◌>>=◌
  cycle_baks-suc n b = rw (returned-try_cycle (bak n) (bak (suc n)) b) refl

  cycle_baks-other :
      (n : ℕ) (b : Backend) (j : Key)
      → ((i : ℕ) → i ≤ n → key_eq (bak i) j ≡ false)
      → (cycle_baks renames n b).1 j ≡ b j
  unfolding cycle_baks
  cycle_baks-other zero b j h = refl
  cycle_baks-other (suc n) b j h = rw (cycle_baks-suc n b) (
      cycle_baks-other n _ j (λ i le. h i (omega arith))
      ∙ try_cycle-other (bak n) (bak (suc n)) b j (h n (omega arith)) (h (suc n) (omega arith)))

  left-end : (n : ℕ) (b : Backend) → left renames (suc n) b (suc n) ≡ b (bak (suc n))
  left-end n b = ground arith

  -- What the moves after the first find.
  left-once :
      (n j : ℕ) (b : Backend)
      → j ≤ n
      → left renames n (try_cycle renames (bak n) (bak (suc n)) b).1 j ≡ left renames (suc n) b j
  unfolding key_eq
  left-once n j b le =
      let once : Backend = (try_cycle renames (bak n) (bak (suc n)) b).1 in
      elim (Bool-cases (j == n)) [
        | inl q ↦
            let same : j ≡ n = ground arith in
            let here : once (bak n) ≡ (if renames then none else b (bak n)) =
              try_cycle-src (bak n) (bak (suc n)) b (ground arith) (ground arith) (ground arith) in
            rw same (ground (arith, here))
        | inr q ↦
            let here : once (bak j) ≡ b (bak j) =
              try_cycle-other (bak n) (bak (suc n)) b (bak j) (ground arith) (ground arith) in
            ground (arith, here, q)
      ]

  cycle_baks-moved :
      (n i : ℕ) (b : Backend)
      → i < n
      → (cycle_baks renames n b).1 (bak (suc i)) ≡ or_else (b (bak i)) (left renames n b (suc i))
  unfolding key_eq
  cycle_baks-moved zero i b lt = absurd (omega arith)
  cycle_baks-moved (suc n) i b lt =
      let once : Backend = (try_cycle renames (bak n) (bak (suc n)) b).1 in
      rw (cycle_baks-suc n b) (elim (Bool-cases (i == n)) [
        | inl q ↦
            let same : i ≡ n = ground arith in
            rw same (
              cycle_baks-other n once (bak (suc n)) (λ k le. ground arith)
              ∙ try_cycle-dest (bak n) (bak (suc n)) b (ground arith) (ground arith)
              ∙ ap (or_else (b (bak n))) (sym (left-end n b)))
        | inr q ↦
            cycle_baks-moved n i once (ground arith)
            ∙ ap (λ o. or_else o (left renames n once (suc i)))
                (try_cycle-other (bak n) (bak (suc n)) b (bak i) (ground arith) (ground arith))
            ∙ ap (or_else (b (bak i))) (left-once n (suc i) b (ground arith))
      ])

  cycle_baks-first : (n : ℕ) (b : Backend) → (cycle_baks renames n b).1 (bak 0) ≡ left renames n b 0
  unfolding cycle_baks
  cycle_baks-first zero b = ground arith
  cycle_baks-first (suc n) b = rw (cycle_baks-suc n b) (
      cycle_baks-first n (try_cycle renames (bak n) (bak (suc n)) b).1
      ∙ left-once n 0 b (omega arith))

  returned-cycle_baks : (n : ℕ) (b : Backend) → (cycle_baks renames n b).0 ≡ returned tt
  unfolding cycle_baks pure
  returned-cycle_baks zero b = refl
  returned-cycle_baks (suc n) b = rw (cycle_baks-suc n b) (returned-cycle_baks n _)

  -- The backend when the copies have been moved, and the metadata.
  moved : ℕ → Backend → Backend
  moved keep b = (try_cycle renames current (bak 0) (cycle_baks renames keep b).1).1

  cycle_metadata-moved :
      (keep n : ℕ) (b : Backend)
      → moved keep b fresh ≡ some n
      → cycle_metadata renames keep b
        ≡ (returned tt, put fresh none (put current (some n) (moved keep b)))
  unfolding cycle_metadata moved
  cycle_metadata-moved keep n b e =
      bind_returned (cycle_baks renames keep) _ b tt (returned-cycle_baks keep b)
      ∙ bind_returned (try_cycle renames current (bak 0)) _ (cycle_baks renames keep b).1 tt
          (returned-try_cycle current (bak 0) (cycle_baks renames keep b).1)
      ∙ replace_current-moved renames n (moved keep b) e

  moved-other :
      (keep : ℕ) (b : Backend) (j : Key)
      → key_eq current j ≡ false
      → ((i : ℕ) → key_eq (bak i) j ≡ false)
      → moved keep b j ≡ b j
  unfolding moved
  moved-other keep b j c h =
      try_cycle-other current (bak 0) (cycle_baks renames keep b).1 j c (h 0)
      ∙ cycle_baks-other keep b j (λ i le. h i)

rotated-key :
    (renames : Bool) (keep n : ℕ) (b : Backend) (k : Key)
    → b fresh ≡ some n
    → put fresh none (put current (some n) (moved renames keep b)) k ≡ rotated renames keep b k
unfolding key_eq put moved
rotated-key renames keep n b current fe = sym fe
rotated-key renames keep n b fresh fe = refl
rotated-key renames keep n b (bak zero) fe =
    let one : Backend = (cycle_baks renames keep b).1 in
    let first : one current ≡ b current = cycle_baks-other renames keep b current (λ k le. refl) in
    try_cycle-dest renames current (bak 0) one refl refl
    ∙ ap (λ o. or_else o (one (bak 0))) first
    ∙ ap (or_else (b current)) (cycle_baks-first renames keep b)
rotated-key renames keep n b (bak (suc i)) fe =
    try_cycle-other renames current (bak 0) (cycle_baks renames keep b).1 (bak (suc i)) refl
      (ground arith)
    ∙ elim (Bool-cases (ltb i keep)) [
      | inl e ↦ rw e (cycle_baks-moved renames keep i b (ground (arith, e)))
      | inr e ↦ rw e (cycle_baks-other renames keep b (bak (suc i)) (λ k le. ground (arith, e)))
    ]

-- With new metadata in the backend, whatever else is there, rotating the copies returns, and then each key has
-- what `rotated` says: the new metadata is the current one and is nowhere else, the one that was current is the
-- first copy, and each copy but the last is the one after. Where an object was not there, none is put in place of
-- what has the key it would be moved to, which is still there unless it was renamed before.
pub cycle_metadata_lem :
    (renames : Bool) (keep n : ℕ) (b : Backend)
    → b fresh ≡ some n
    → let (r, after) = cycle_metadata renames keep b in
      (r ≡ returned tt) × ((k : Key) → after k ≡ rotated renames keep b k)
unfolding key_eq
cycle_metadata_lem renames keep n b fe =
    let start : moved renames keep b fresh ≡ some n =
      moved-other renames keep b fresh refl (λ k. refl) ∙ fe in
    rw (cycle_metadata-moved renames keep n b start) (refl, λ k. rotated-key renames keep n b k fe)
