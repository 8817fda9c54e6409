-- ===== src/Fsck/Digits.antt =====
-- The names that `resolve_free` of src/s3ql/fsck.py tries are different from each other.
use s3ql.Prelude.{
  ℕ, zero, suc, ◌+◌, ◌-◌, ◌*◌, ◌/◌, ◌%◌, ◌≤◌, ◌≡◌, refl, ap, sym, ◌∙◌, [], ◌∷◌, ◌++◌, length, drop,
  length-append, drop-length-append, ltb, ◌==◌, arith, inl, inr, Bool-cases,
}
use s3ql.Fsck.State.{Bytes}
use s3ql.Fsck.Paths.{digits, decimal, numbered}

-- The number that digits stand for, after those that stand for `acc`.
abbrev decode : ℕ → Bytes → ℕ
decode acc [] = acc
decode acc (c ∷ s) = decode (acc * 10 + (c - 48)) s

decode-append : (acc c : ℕ) (s : Bytes) → decode acc (s ++ c ∷ []) ≡ decode acc s * 10 + (c - 48)
decode-append acc c [] = refl
decode-append acc c (x ∷ s) = decode-append (acc * 10 + (x - 48)) c s

decode-digits : (f n : ℕ) → n ≤ f → decode 0 (digits f n) ≡ n
unfolding digits
decode-digits zero n h = omega (arith, h)
decode-digits (suc f) n h = elim (Bool-cases (ltb n 10)) [
  | inl e ↦ rw e omega arith
  | inr e ↦
      let ih : decode 0 (digits f (n / 10)) ≡ n / 10 =
        decode-digits f (n / 10) (ground (arith, h, e)) in
      rw e (rw (decode-append 0 (48 + n % 10) (digits f (n / 10)), ih) omega arith)
]

decimal-inj : (i j : ℕ) → decimal i ≡ decimal j → i ≡ j
unfolding decimal
decimal-inj i j h =
    sym (decode-digits i i (omega arith)) ∙ ap (decode 0) h ∙ decode-digits j j (omega arith)

abbrev tail : Bytes → Bytes
tail [] = []
tail (x ∷ s) = s

pub numbered-inj : (name : Bytes) (i j : ℕ) → numbered name i ≡ numbered name j → i ≡ j
unfolding numbered
numbered-inj name i j h = elim (Bool-cases (i == 0)) [
  | inl e ↦ elim (Bool-cases (j == 0)) [
    | inl f ↦ ground (arith, e, f)
    | inr f ↦ absurd (differ (decimal j) (rw (e, f) at h))
  ]
  | inr e ↦ elim (Bool-cases (j == 0)) [
    | inl f ↦ absurd (differ (decimal i) (sym (rw (e, f) at h)))
    | inr f ↦ decimal-inj i j (cancel (rw (e, f) at h))
  ]
]
  where
    differ : (d : Bytes) → name ≡ name ++ 45 ∷ d → ⊥
    differ d e = ground (arith, ap length e, length-append name (45 ∷ d))

    cancel : name ++ 45 ∷ decimal i ≡ name ++ 45 ∷ decimal j → decimal i ≡ decimal j
    cancel e = ap tail (
        sym (drop-length-append name (45 ∷ decimal i))
        ∙ ap (drop (length name)) e
        ∙ drop-length-append name (45 ∷ decimal j))
