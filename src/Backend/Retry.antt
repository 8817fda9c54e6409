-- ===== src/Backend/Retry.antt =====
-- The wrapper `retry` of src/s3ql/backends/common.py. Times are in fiftieths of a second, the first
-- interval; the random part of a pause is only slept, and not counted by the code.
use mathlib.Core.Path.{subst}
use s3ql.Prelude.{
  ℕ, zero, suc, ◌+◌, ◌*◌, ◌<◌, ◌≤◌, min, ◌≡◌, refl, sym, ap, ◌⊎◌, ◌&&◌, Bool, true, false, not,
  Option, none, some, inl, inr, arith, ltb, ◌==◌, if◌then◌else◌, Bool-cases,
}
use s3ql.Prelude.Effect.{Outcome, returned, raised}

-- How one call of the method ends: it returns, or raises an exception, which `is_temp_failure` holds
-- for temporary or not, and which may have an attribute `retry_after`.
pub data Attempt (E A : Type 0) : Type 0 where
  done : A → Attempt E A
  failed : E → Bool → Option ℕ → Attempt E A

abbrev pub retry_timeout : ℕ
retry_timeout = 60 * 60 * 24 * 50

abbrev pub max_interval : ℕ
max_interval = 5 * 60 * 50

-- `if hasattr(exc, 'retry_after') and exc.retry_after: interval = exc.retry_after`
unfoldable pub asked_interval : Option ℕ → ℕ → ℕ
asked_interval none interval = interval
asked_interval (some t) interval = if t == 0 then interval else t

module _ {E A : Type 0} (timeout : ℕ) (calls : ℕ → Attempt E A) where
  -- The loop, before its call number k; the result is that of the call whose number is with it.
  unfoldable pub retry_loop : ℕ → ℕ → ℕ → ℕ → Option (Outcome E A × ℕ)
  unfolding asked_interval
  retry_loop zero k interval waited = none
  retry_loop (suc n) k interval waited = elim (calls k) [
    | done a ↦ some (returned a, k)
    | failed e temporary after ↦
        let pause = asked_interval after interval in
        let again = retry_loop n (suc k) (min max_interval (2 * pause)) (waited + pause) in
        if not temporary
        then some (raised e, k)
        else if ltb timeout waited
        then some (raised e, k)
        else again
  ]

  -- The interval before the k-th repetition may change it, and the time waited, when the calls before
  -- have failed.
  unfoldable pub schedule : ℕ → ℕ × ℕ
  unfolding asked_interval
  schedule zero = (1, 0)
  schedule (suc k) =
      let (interval, waited) = schedule k in
      elim (calls k) [
        | done a ↦ (interval, waited)
        | failed e temporary after ↦
            let pause = asked_interval after interval in
            (min max_interval (2 * pause), waited + pause)
      ]

-- `retry` for these calls: a round for each fiftieth of a second of the timeout, and two more.
unfoldable pub retry : {E A : Type 0} → (ℕ → Attempt E A) → Option (Outcome E A × ℕ)
unfolding retry_loop
retry calls = retry_loop retry_timeout calls (retry_timeout + 2) 0 1 0

abbrev pub is_temporary : {E A : Type 0} → Attempt E A → Bool
is_temporary (done a) = false
is_temporary (failed e temporary after) = temporary

abbrev pub outcome_of : {E A : Type 0} → Attempt E A → Outcome E A
outcome_of (done a) = returned a
outcome_of (failed e temporary after) = raised e

Attempt-cases :
    {E A : Type 0} (x : Attempt E A)
    → ((a : A) × (x ≡ done a))
      ⊎ ((e : E) × (t : Bool) × (after : Option ℕ) × (x ≡ failed e t after))
Attempt-cases (done a) = inl (a, refl)
Attempt-cases (failed e t after) = inr (e, t, after, refl)

asked_interval-pos :
    (after : Option ℕ) (interval : ℕ) → 0 < interval → 0 < asked_interval after interval
unfolding asked_interval
asked_interval-pos none interval h = h
asked_interval-pos (some t) interval h = ground arith

module _ {E A : Type 0} (timeout : ℕ) (calls : ℕ → Attempt E A) where
  -- The result r is that of the call whose number is with it: the calls before have failed for a time,
  -- each when no more than the timeout had been waited, and this one has only if more had been.
  pub record IsResult (r : Outcome E A × ℕ) : Type 0 where
    pub before : (j : ℕ) → j < r.1 → is_temporary (calls j) ≡ true
    pub patient : (j : ℕ) → j < r.1 → (schedule timeout calls j).1 ≤ timeout
    pub last : outcome_of (calls r.1) ≡ r.0
    pub waited : is_temporary (calls r.1) ≡ true → timeout < (schedule timeout calls r.1).1

  all_before : (P : ℕ → Type 0) (k : ℕ) → ((j : ℕ) → j < k → P j) → P k → (j : ℕ) → j < suc k → P j
  all_before P k before last j lt = elim (Bool-cases (j == k)) [
    | inl e ↦ let same : j ≡ k = ground arith in subst P (sym same) last
    | inr e ↦ before j (ground arith)
  ]

  schedule-suc :
      (k interval waited : ℕ) (e : E) (t : Bool) (after : Option ℕ)
      → calls k ≡ failed e t after
      → schedule timeout calls k ≡ (interval, waited)
      → schedule timeout calls (suc k) ≡ (
        min max_interval (2 * asked_interval after interval),
        waited + asked_interval after interval,
      )
  unfolding schedule asked_interval
  schedule-suc k interval waited e t after c s = rw (schedule, c, s) refl

  retry_loop_lem :
      (n k interval waited : ℕ)
      → schedule timeout calls k ≡ (interval, waited)
      → ((j : ℕ) → j < k → is_temporary (calls j) ≡ true)
      → ((j : ℕ) → j < k → (schedule timeout calls j).1 ≤ timeout)
      → 0 < n
      → timeout + 1 < n + waited
      → 0 < interval
      → (r : Outcome E A × ℕ) × (retry_loop timeout calls n k interval waited ≡ some r) × IsResult r
  unfolding retry_loop
  retry_loop_lem zero k interval waited s before patient some_left enough pos = absurd (omega arith)
  retry_loop_lem (suc n) k interval waited s before patient some_left enough pos =
      elim (Attempt-cases (calls k)) [
        | inl (a, c) ↦ (
          (returned a, k),
          rw (retry_loop, c) refl,
          record {
            before = before;
            patient = patient;
            last = ap outcome_of c;
            waited = λ t. absurd (ground (arith, c, t));
          },
        )
        | inr (e, t, after, c) ↦ elim (Bool-cases (t && not (ltb timeout waited))) [
          | inr f ↦ (
            (raised e, k),
            rw (retry_loop, c) (ground (arith, f)),
            record {
              before = before;
              patient = patient;
              last = ap outcome_of c;
              waited = λ q. ground (arith, c, f, q, s);
            },
          )
          | inl f ↦
              let pause = asked_interval after interval in
              let positive = asked_interval-pos after interval pos in
              let (r, q, w) =
                retry_loop_lem n (suc k) (min max_interval (2 * pause)) (waited + pause)
                  (schedule-suc k interval waited e t after c s)
                  (all_before (λ j. is_temporary (calls j) ≡ true) k before (ground (arith, c, f)))
                  (all_before (λ j. (schedule timeout calls j).1 ≤ timeout) k patient
                    (ground (arith, f, s)))
                  (ground (arith, positive, enough, f)) (ground (arith, positive, enough))
                  (ground (arith, positive)) in
              (r, rw (retry_loop, c) (ground (arith, f, q)), w)
        ]
      ]

-- `retry` ends for every method: its result is that of the first call that returns, fails for good,
-- or fails for a time after more than the timeout has been waited. All the calls before have failed
-- for a time, and when each of them failed no more than the timeout had been waited.
pub retry_lem :
    {E A : Type 0} (calls : ℕ → Attempt E A)
    → (r : Outcome E A × ℕ) × (retry calls ≡ some r) × IsResult retry_timeout calls r
unfolding retry schedule
retry_lem calls =
    retry_loop_lem retry_timeout calls (retry_timeout + 2) 0 1 0 refl (λ j lt. absurd (omega arith))
      (λ j lt. absurd (omega arith)) (omega arith) (omega arith) (omega arith)
