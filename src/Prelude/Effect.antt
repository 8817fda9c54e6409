-- ===== src/Prelude/Effect.antt =====
-- Methods that change an object and may raise. What was written before a raise stays written, so
-- an action returns the state beside its outcome in either case.
use mathlib.Core.Path.{◌≡◌, refl}
use mathlib.Core.Bool.{Bool, true, false}
use s3ql.Prelude.Tests.{if◌then◌else◌}

pub data Outcome (E A : Type 0) : Type 0 where
  returned : A → Outcome E A
  raised : E → Outcome E A

abbrev pub Action : Type 0 → Type 0 → Type 0 → Type 0
Action E S A = S → Outcome E A × S

module _ {E S A : Type 0} where
  unfoldable pub pure : A → Action E S A
  pure a s = (returned a, s)

  unfoldable pub raise : E → Action E S A
  raise e s = (raised e, s)

  unfoldable pub gets : (S → A) → Action E S A
  gets f s = (returned (f s), s)

  abbrev handle : Outcome E A → (E → Action E S A) → Action E S A
  handle (returned a) h s = (returned a, s)
  handle (raised e) h s = h e s

  -- `try: m except e: h e`
  unfoldable pub catch : Action E S A → (E → Action E S A) → Action E S A
  catch m h s = let (r, s') = m s in handle r h s'

  -- `if b: m else: n`
  unfoldable pub branch : Bool → Action E S A → Action E S A → Action E S A
  branch b m n = if b then m else n

  -- `try: m finally: f`, for an `f` that does not raise
  unfoldable pub finally : Action E S A → (S → S) → Action E S A
  finally m f s = let (r, s') = m s in (r, f s')

unfoldable pub modify : {E S : Type 0} → (S → S) → Action E S (Unit {0})
modify f s = (returned tt, f s)

module _ {E S A B : Type 0} where
  abbrev continue : Outcome E A → (A → Action E S B) → Action E S B
  continue (returned a) f s = f a s
  continue (raised e) f s = (raised e, s)

  infixl 5 ◌>>=◌ ◌>>◌
  -- To open this is to open the basic actions too.
  unfoldable pub ◌>>=◌ : Action E S A → (A → Action E S B) → Action E S B
  unfolding pure raise gets branch catch finally modify
  ◌>>=◌ m f s = let (r, s') = m s in continue r f s'

  abbrev pub ◌>>◌ : Action E S A → Action E S B → Action E S B
  m >> n = m >>= λ _. n

-- What a do block makes of a step that returns.
pub bind_returned :
    {E S A B : Type 0} (m : Action E S A) (f : A → Action E S B) (s : S) (a : A)
    → (m s).0 ≡ returned a
    → (m >>= f) s ≡ f a (m s).1
unfolding ◌>>=◌
bind_returned m f s a e = rw e refl

-- The action keeps `P`, whether it returns or raises.
pub record Keeps {E S A : Type 0} (P : S → Type 0) (m : Action E S A) : Type 0 where
  pub at : (s : S) → P s → P (m s).1

module _ {E S A : Type 0} {P : S → Type 0} where
  pub Keeps-pure : (a : A) → Keeps {E = E} P (pure a)
  unfolding pure
  Keeps-pure a = record { at = λ s h. h }

  pub Keeps-raise : (e : E) → Keeps {A = A} P (raise e)
  unfolding raise
  Keeps-raise e = record { at = λ s h. h }

  pub Keeps-gets : (f : S → A) → Keeps {E = E} P (gets f)
  unfolding gets
  Keeps-gets f = record { at = λ s h. h }

  pub Keeps-branch :
      (b : Bool) (m n : Action E S A)
      → (b ≡ true → Keeps P m)
      → (b ≡ false → Keeps P n)
      → Keeps P (branch b m n)
  unfolding branch
  Keeps-branch true m n km kn = km refl
  Keeps-branch false m n km kn = kn refl

  pub Keeps-catch :
      (m : Action E S A) (h : E → Action E S A)
      → Keeps P m
      → ((e : E) → Keeps P (h e))
      → Keeps P (catch m h)
  unfolding catch
  Keeps-catch m h km kh = record { at = λ s p. after (m s).0 (m s).1 (km.at s p) }
    where
      after : (r : Outcome E A) (s : S) → P s → P (handle r h s).1
      after (returned a) s p = p
      after (raised e) s p = (kh e).at s p

pub Keeps-modify :
    {E S : Type 0} {P : S → Type 0} (f : S → S)
    → ((s : S) → P s → P (f s))
    → Keeps {E = E} P (modify f)
unfolding modify
Keeps-modify f k = record { at = k }

module _ {E S A B : Type 0} {P : S → Type 0} where
  pub Keeps-bind :
      (m : Action E S A) (f : A → Action E S B)
      → Keeps P m
      → ((a : A) → Keeps P (f a))
      → Keeps P (m >>= f)
  unfolding ◌>>=◌
  Keeps-bind m f km kf = record { at = λ s p. after (m s).0 (m s).1 (km.at s p) }
    where
      after : (r : Outcome E A) (s : S) → P s → P (continue r f s).1
      after (returned a) s p = (kf a).at s p
      after (raised e) s p = p

pub ruleset keeps_rules = (Keeps-pure, Keeps-raise, Keeps-gets, Keeps-branch, Keeps-bind)

-- From `P` the action returns with `Q` of its result, or raises with `R`.
abbrev pub Post : {E S A : Type 0} → (A → S → Type 0) → (S → Type 0) → Outcome E A → S → Type 0
Post Q R (returned a) s = Q a s
Post Q R (raised e) s = R s

pub record Ensures {E S A : Type 0} (P : S → Type 0) (m : Action E S A) (Q : A → S → Type 0)
    (R : S → Type 0) : Type 0 where
  pub at : (s : S) → P s → Post Q R (m s).0 (m s).1

module _ {E S A : Type 0} {P : S → Type 0} where
  pub Ensures-of_Keeps :
      {m : Action E S A} {R : S → Type 0}
      → Keeps P m
      → ((s : S) → P s → R s)
      → Ensures P m (λ _. P) R
  Ensures-of_Keeps {m} {R} k w = record { at = λ s p. after (m s).0 (m s).1 (k.at s p) }
    where
      after : (r : Outcome E A) (s : S) → P s → Post (λ _. P) R r s
      after (returned a) s p = p
      after (raised e) s p = w s p

  pub Keeps-of_Ensures : {m : Action E S A} → Ensures P m (λ _. P) P → Keeps P m
  Keeps-of_Ensures {m} k = record { at = λ s p. after (m s).0 (m s).1 (k.at s p) }
    where
      after : (r : Outcome E A) (s : S) → Post (λ _. P) P r s → P s
      after (returned a) s p = p
      after (raised e) s p = p

module _ {E S A B : Type 0} {P R : S → Type 0} where
  pub Ensures-bind :
      {m : Action E S A} {f : A → Action E S B} {Q : A → S → Type 0} {T : B → S → Type 0}
      → Ensures P m Q R
      → ((a : A) → Ensures (Q a) (f a) T R)
      → Ensures P (m >>= f) T R
  unfolding ◌>>=◌
  Ensures-bind {m} {f} {Q} {T} km kf = record { at = λ s p. after (m s).0 (m s).1 (km.at s p) }
    where
      after :
          (r : Outcome E A) (s : S) → Post Q R r s → Post T R (continue r f s).0 (continue r f s).1
      after (returned a) s p = (kf a).at s p
      after (raised e) s p = p

module _ {E S : Type 0} {P R : S → Type 0} where
  -- What was read is known.
  pub Ensures-gets :
      {A B : Type 0} (f : S → A) (k : A → Action E S B) {T : B → S → Type 0}
      → ((a : A) → Ensures (λ s. P s × (f s ≡ a)) (k a) T R)
      → Ensures P (gets f >>= k) T R
  unfolding ◌>>=◌
  Ensures-gets f k h = record { at = λ s p. (h (f s)).at s (p, refl) }

  pub Ensures-modify :
      {B : Type 0} (f : S → S) (k : Action E S B) (Q : S → Type 0) {T : B → S → Type 0}
      → ((s : S) → P s → Q (f s))
      → Ensures Q k T R
      → Ensures P (modify f >> k) T R
  unfolding ◌>>=◌
  Ensures-modify f k Q w h = record { at = λ s p. h.at (f s) (w s p) }

  pub Ensures-branch :
      {B : Type 0} (b : Bool) (m n : Action E S B) {T : B → S → Type 0}
      → (b ≡ true → Ensures P m T R)
      → (b ≡ false → Ensures P n T R)
      → Ensures P (branch b m n) T R
  unfolding branch
  Ensures-branch true m n hm hn = hm refl
  Ensures-branch false m n hm hn = hn refl

  pub Ensures-pre :
      {B : Type 0} {m : Action E S B} (Q : S → Type 0) {T : B → S → Type 0}
      → ((s : S) → P s → Q s)
      → Ensures Q m T R
      → Ensures P m T R
  Ensures-pre Q w h = record { at = λ s p. h.at s (w s p) }

  pub Ensures-pure :
      {B : Type 0} (b : B) {T : B → S → Type 0}
      → ((s : S) → P s → T b s)
      → Ensures {E = E} P (pure b) T R
  unfolding pure
  Ensures-pure b w = record { at = w }

-- `P` is kept by an action that returns; one that raises may leave `R` only.
pub record KeepsOr {E S A : Type 0} (P R : S → Type 0) (m : Action E S A) : Type 0 where
  pub ensures : Ensures P m (λ _. P) R

module _ {E S A : Type 0} {P R : S → Type 0} where
  pub KeepsOr-of_Keeps : {m : Action E S A} → Keeps P m → ((s : S) → P s → R s) → KeepsOr P R m
  KeepsOr-of_Keeps k w = record { ensures = Ensures-of_Keeps k w }

  pub KeepsOr-pure : (a : A) → KeepsOr {E = E} P R (pure a)
  unfolding pure
  KeepsOr-pure a = record { ensures = record { at = λ s h. h } }

  pub KeepsOr-gets : (f : S → A) → KeepsOr {E = E} P R (gets f)
  unfolding gets
  KeepsOr-gets f = record { ensures = record { at = λ s h. h } }

  pub KeepsOr-branch :
      (b : Bool) (m n : Action E S A)
      → (b ≡ true → KeepsOr P R m)
      → (b ≡ false → KeepsOr P R n)
      → KeepsOr P R (branch b m n)
  unfolding branch
  KeepsOr-branch true m n km kn = km refl
  KeepsOr-branch false m n km kn = kn refl

module _ {E S A B : Type 0} {P R : S → Type 0} where
  pub KeepsOr-bind :
      (m : Action E S A) (f : A → Action E S B)
      → KeepsOr P R m
      → ((a : A) → KeepsOr P R (f a))
      → KeepsOr P R (m >>= f)
  KeepsOr-bind m f km kf = record { ensures = Ensures-bind km.ensures (λ a. (kf a).ensures) }

pub ruleset keeps_or_rules = (KeepsOr-pure, KeepsOr-gets, KeepsOr-branch, KeepsOr-bind)
