-- ===== src/Prelude/Sql.antt =====
-- Tables as lists of rows, and the statements that the program sends to SQLite: a `SELECT` of one
-- row, `UPDATE … WHERE`, `DELETE … WHERE` and `COUNT`, each with what it does to a count or to a
-- row that is found by its primary key.
use Prim.Native.Nat.{ℕ, ◌+◌, ◌≤◌, ◌<◌}
use mathlib.Core.Path.{◌≡◌, refl}
use mathlib.Core.Bool.{Bool, true, ◌&&◌}
use mathlib.Core.List.{List, [], ◌∷◌, ◌++◌}
use mathlib.Core.Option
use mathlib.Core.Option.{Option, none, some}
use native.Mathlib.Omega.{arith}
use mathlib.Core.Logic.{inl, inr}
use s3ql.Prelude.Tests.{if◌then◌else◌, ◌==◌, Bool-cases}

module _ {ℓ} {A : Type ℓ} where
  -- The first row that satisfies the condition.
  unfoldable pub select : (A → Bool) → List A → Option A
  select p [] = none
  select p (r ∷ t) = if p r then some r else select p t

  abbrev pub count : (A → Bool) → List A → ℕ
  count p [] = 0
  count p (r ∷ t) = (if p r then 1 else 0) + count p t

  unfoldable pub update : (A → Bool) → (A → A) → List A → List A
  update p f [] = []
  update p f (r ∷ t) = (if p r then f r else r) ∷ update p f t

  unfoldable pub delete : (A → Bool) → List A → List A
  delete p [] = []
  delete p (r ∷ t) = let rest = delete p t in if p r then rest else r ∷ rest

  pub count-append : (p : A → Bool) (s t : List A) → count p (s ++ t) ≡ count p s + count p t
  count-append p [] t = omega arith
  count-append p (r ∷ s) t = omega (arith, count-append p s t)

  pub count-delete :
      (p q : A → Bool) (t : List A) → count q (delete p t) + count (λ r. p r && q r) t ≡ count q t
  unfolding delete
  count-delete p q [] = omega arith
  count-delete p q (r ∷ t) = ground (arith, count-delete p q t)

  -- No row is left that satisfies the condition.
  pub count-delete_self : (p : A → Bool) (t : List A) → count p (delete p t) ≡ 0
  unfolding delete
  count-delete_self p [] = refl
  count-delete_self p (r ∷ t) = ground (arith, count-delete_self p t)

  pub count-delete-le : (p q : A → Bool) (t : List A) → count q (delete p t) ≤ count q t
  count-delete-le p q t = omega (arith, count-delete p q t)

  pub count-update :
      (p q : A → Bool) (f : A → A) (t : List A)
      → count q (update p f t) + count (λ r. p r && q r) t
        ≡ count q t + count (λ r. p r && q (f r)) t
  unfolding update
  count-update p q f [] = omega arith
  count-update p q f (r ∷ t) = ground (arith, count-update p q f t)

  pub select-holds : (p : A → Bool) (t : List A) (r : A) → select p t ≡ some r → p r ≡ true
  unfolding select
  select-holds p [] r h = ground arith
  select-holds p (x ∷ t) r h = ground (arith, select-holds p t r)

  pub select-none : (p : A → Bool) (t : List A) → select p t ≡ none → count p t ≡ 0
  unfolding select
  select-none p [] h = refl
  select-none p (x ∷ t) h = ground (arith, select-none p t)

  pub count-and-le : (p q : A → Bool) (t : List A) → count (λ r. p r && q r) t ≤ count p t
  count-and-le p q [] = omega arith
  count-and-le p q (r ∷ t) = ground (arith, count-and-le p q t)

  pub count-select-pos : (p : A → Bool) (t : List A) (r : A) → select p t ≡ some r → 0 < count p t
  unfolding select
  count-select-pos p [] r h = ground arith
  count-select-pos p (x ∷ t) r h = ground (arith, count-select-pos p t r)

  -- Where the condition is a key, the row that is found is the only one.
  pub count_unique :
      (p q : A → Bool) (t : List A) (r : A)
      → count p t ≤ 1
      → select p t ≡ some r
      → count (λ x. p x && q x) t ≡ (if q r then 1 else 0)
  unfolding select
  count_unique p q [] r u h = ground arith
  count_unique p q (x ∷ t) r u h = ground (arith, count_unique p q t r, count-and-le p q t)

  pub count-none : (p q : A → Bool) (t : List A) → select p t ≡ none → count (λ x. p x && q x) t ≡ 0
  count-none p q t h = omega (arith, count-and-le p q t, select-none p t h)

-- Rows with a primary key.
module _ {ℓ} {A : Type ℓ} (key : A → ℕ) where
  abbrev pub has_key : ℕ → A → Bool
  has_key k r = key r == k

  pub select-update :
      (j k : ℕ) (f : A → A) (t : List A)
      → ((r : A) → key (f r) ≡ key r)
      → select (has_key j) (update (has_key k) f t)
        ≡ (if k == j then Option.map f (select (has_key j) t) else select (has_key j) t)
  unfolding select update
  select-update j k f [] same = ground arith
  select-update j k f (r ∷ t) same = ground (arith, same r, select-update j k f t same)

  pub select-delete :
      (j k : ℕ) (t : List A)
      → select (has_key j) (delete (has_key k) t) ≡ (if k == j then none else select (has_key j) t)
  unfolding select delete
  select-delete j k [] = ground arith
  select-delete j k (r ∷ t) = ground (arith, select-delete j k t)

  pub select-insert :
      (j : ℕ) (t : List A) (r : A)
      → select (has_key j) (t ++ r ∷ []) ≡ elim (select (has_key j) t) [
        | some x ↦ some x
        | none ↦ if key r == j then some r else none
      ]
  unfolding select
  select-insert j [] r = ground arith
  select-insert j (x ∷ t) r = ground (arith, select-insert j t r)

  -- A row that was found by another condition is found by its key.
  pub select-key :
      (p : A → Bool) (t : List A) (r : A)
      → select p t ≡ some r
      → (o : A) × (select (has_key (key r)) t ≡ some o)
  unfolding select
  select-key p [] r h = absurd (ground arith)
  select-key p (x ∷ t) r h = elim (Bool-cases (key x == key r)) [
    | inl e ↦ (x, rw e)
    | inr e ↦ let (o, f) = select-key p t r (ground (arith)) in (o, rw e f)
  ]
