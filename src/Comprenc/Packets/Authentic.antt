-- ===== src/Comprenc/Packets/Authentic.antt =====
-- What `DecryptFilter` of src/s3ql/backends/comprenc.py accepts, of whatever bytes are in the object.
use mathlib.Core.List.{append-nil, append_assoc}
use mathlib.Core.Path.{subst}
use s3ql.Prelude.{
  ℕ, zero, suc, ◌+◌, ◌≡◌, refl, ap, sym, ◌∙◌, true, false, not, ◌||◌, [], ◌∷◌, ◌++◌, arith, length,
  take, drop, ltb, ◌==◌, inl, inr, Bool-cases,
}
use s3ql.Prelude.Effect.{
  Outcome, Action, returned, raised, pure, raise, gets, branch, modify, ◌>>=◌,
}
use s3ql.Fsck.State.{Bytes, eq_bytes, eq_bytes-eq}
use s3ql.Comprenc.Meta.{crypt}
use s3ql.Comprenc.Packets.{
  Error, Env, Reader, hmac_size, is_empty, got, read_and_decrypt, fill, verify_digest, check_hmac,
}
use s3ql.Comprenc.Packets.Frames.{crypt-append}
use s3ql.Comprenc.Packets.Decrypted.{plain}

pub bind-inv :
    {E S A B : Type 0} (m : Action E S A) (f : A → Action E S B) (s t : S) (x : B)
    → (m >>= f) s ≡ (returned x, t)
    → (a : A) × (s' : S) × (m s ≡ (returned a, s')) × (f a s' ≡ (returned x, t))
unfolding ◌>>=◌
bind-inv {E} {S} {A} {B} m f s t x h = after (m s).0 refl
  where
    after :
        (r : Outcome E A)
        → (m s).0 ≡ r
        → (a : A) × (s' : S) × (m s ≡ (returned a, s')) × (f a s' ≡ (returned x, t))
    after (returned a) e = (a, (m s).1, ap (λ r. (r, (m s).1)) e, rw e at h)
    after (raised y) e = absurd (ground (arith, ap (λ p. p.0) (rw e at h)))

pub returned-inj :
    {E A : Type 0} (a b : A) → ◌≡◌ {A = Outcome E A} (returned a) (returned b) → a ≡ b
returned-inj a b h = ground (arith, h)

take-rest : (n : ℕ) (s : Bytes) → take n s ++ drop (length (take n s)) s ≡ s
take-rest zero s = refl
take-rest (suc n) [] = refl
take-rest (suc n) (x ∷ s) = ap (◌∷◌ x) (take-rest n s)

empty : (s : Bytes) → not (is_empty s) ≡ false → s ≡ []
empty [] h = refl
empty (x ∷ s) h = absurd (ground (arith, h))

module _ (env : Env) where
  -- `buf` was taken from what is left.
  pub record TookFrom (s t : Reader) (buf : Bytes) : Type 0 where
    pub all : buf ++ plain env t ≡ plain env s
    pub hashed : t.hashed ≡ s.hashed
    pub hmac_checked : t.hmac_checked ≡ s.hmac_checked

  pub read_and_decrypt-TookFrom :
      (size : ℕ) (s t : Reader) (buf : Bytes)
      → read_and_decrypt env size s ≡ (returned buf, t)
      → TookFrom s t buf
  unfolding read_and_decrypt got plain ◌>>=◌ branch gets modify pure raise
  read_and_decrypt-TookFrom size s t buf h =
      let x : Bytes = take (env.chunk (length s.input) size) s.input in
      let buf0 : Bytes = crypt env.stream s.position x in
      let t0 : Reader = record s {
        input = drop (length x) s.input;
        position = s.position + length x;
      } in
      let taken : TookFrom s t0 buf0 = record {
        all =
            sym (crypt-append env.stream s.position x (drop (length x) s.input))
            ∙ ap (crypt env.stream s.position)
                (take-rest (env.chunk (length s.input) size) s.input);
        hashed = refl;
        hmac_checked = refl;
      } in
      elim (Bool-cases (size == 0)) [
        | inl e ↦ absurd (ground (arith, ap (λ p. p.0) (rw e at h)))
        | inr e ↦ elim (Bool-cases (is_empty x)) [
          | inl f ↦ absurd (ground (arith, ap (λ p. p.0) (rw (e, f) at h)))
          | inr f ↦
              let h2 : ◌≡◌ {A = Outcome Error Bytes × Reader} (returned buf0, t0)
                  (returned buf, t) =
                rw (e, f) at h in
              subst (λ u. TookFrom s u buf) (ap (λ p. p.1) h2)
                (subst (TookFrom s t0) (returned-inj buf0 buf (ap (λ p. p.0) h2)) taken)
        ]
      ]

  fill-TookFrom :
      (n : ℕ) (inbuf mac : Bytes) (s t : Reader)
      → fill env n inbuf s ≡ (returned mac, t)
      → (inbuf ++ plain env s ≡ mac ++ plain env t) × (t.hashed ≡ s.hashed)
  unfolding fill ◌>>=◌ branch pure raise
  fill-TookFrom zero inbuf mac s t h = absurd (ground (arith, ap (λ p. p.0) h))
  fill-TookFrom (suc n) inbuf mac s t h = elim (Bool-cases (not (ltb (length inbuf) hmac_size))) [
    | inl e ↦
        let h2 : ◌≡◌ {A = Outcome Error Bytes × Reader} (returned inbuf, s) (returned mac, t) =
          rw e at h in
        let same : s ≡ t = ap (λ p. p.1) h2 in
        (
          ap (λ c. c ++ plain env s) (returned-inj inbuf mac (ap (λ p. p.0) h2))
              ∙ ap (λ u. mac ++ plain env u) same,
          sym (ap (λ u. u.hashed) same),
        )
    | inr e ↦
        let h2 : (read_and_decrypt env (hmac_size + 1) >>= λ buf. fill env n (inbuf ++ buf)) s
            ≡ (returned mac, t) =
          rw e at h in
        let (buf, u, run, rest) =
          bind-inv (read_and_decrypt env (hmac_size + 1)) (λ buf. fill env n (inbuf ++ buf)) s t mac
            h2 in
        let took = read_and_decrypt-TookFrom (hmac_size + 1) s u buf run in
        let (all, same) = fill-TookFrom n (inbuf ++ buf) mac u t rest in
        (
          ap (λ c. inbuf ++ c) (sym took.all) ∙ sym (append_assoc inbuf buf (plain env u)) ∙ all,
          same ∙ took.hashed,
        )
  ]

  -- What is accepted at the end is the HMAC of what was read, and nothing follows it.
  abbrev pub IsAccepted : Bytes → Reader → Reader → Type 0
  IsAccepted left s t = (left ≡ env.hmac t.hashed) × (t.hashed ≡ s.hashed) × (t.hmac_checked ≡ true)

  verify_digest-IsAccepted :
      (inbuf : Bytes) (s t : Reader)
      → verify_digest env inbuf s ≡ (returned tt, t)
      → IsAccepted (inbuf ++ plain env s) s t
  unfolding verify_digest plain crypt ◌>>=◌ gets branch modify pure raise
  verify_digest-IsAccepted inbuf s t h =
      elim (Bool-cases (ltb hmac_size (length inbuf) || not (is_empty s.input))) [
        | inl e ↦ absurd (ground (arith, ap (λ p. p.0) (rw e at h)))
        | inr e ↦ elim (Bool-cases (not (eq_bytes inbuf (env.hmac s.hashed)))) [
          | inl f ↦ absurd (ground (arith, ap (λ p. p.0) (rw (e, f) at h)))
          | inr f ↦
              let t0 : Reader = record s { hmac_checked = true } in
              let h2 : ◌≡◌ {A = Outcome Error (Unit {0}) × Reader} (returned tt, t0)
                  (returned tt, t) =
                rw (e, f) at h in
              let none_left : crypt env.stream s.position s.input ≡ [] =
                ap (crypt env.stream s.position) (empty s.input (ground (arith, e))) in
              let same : inbuf ≡ env.hmac s.hashed =
                eq_bytes-eq inbuf (env.hmac s.hashed) (ground (arith, f)) in
              subst (IsAccepted (inbuf ++ plain env s) s) (ap (λ p. p.1) h2)
                (ap (λ c. inbuf ++ c) none_left ∙ append-nil inbuf ∙ same, refl, refl)
        ]
      ]

  pub check_hmac-IsAccepted :
      (start : Bytes) (s t : Reader)
      → check_hmac env start s ≡ (returned tt, t)
      → IsAccepted (start ++ plain env s) s t
  unfolding check_hmac ◌>>=◌ gets
  check_hmac-IsAccepted start s t h =
      let (inbuf, u, run, rest) =
        bind-inv (fill env (suc (length s.input)) start) (verify_digest env) s t tt h in
      let (all, same) = fill-TookFrom (suc (length s.input)) start inbuf s u run in
      let (left, hashed, checked) = verify_digest-IsAccepted inbuf u t rest in
      (all ∙ left, hashed ∙ same, checked)
