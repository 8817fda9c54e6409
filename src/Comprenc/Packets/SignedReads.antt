-- ===== src/Comprenc/Packets/SignedReads.antt =====
-- Reading an object of whatever bytes to its end, by `readall` and `DecryptFilter` of
-- src/s3ql/backends/comprenc.py.
use mathlib.Core.List.{append_assoc}
use mathlib.Core.Path.{subst}
use s3ql.Prelude.{
  ℕ, zero, suc, ◌*◌, ◌<◌, ◌≡◌, refl, ap, sym, ◌∙◌, true, false, [], ◌++◌, arith, length, ◌==◌, inl,
  inr, Bool-cases,
}
use s3ql.Prelude.Effect.{Outcome, returned, pure, raise, gets, branch, ◌>>=◌}
use s3ql.Fsck.State.{Bytes}
use s3ql.Comprenc.Meta.{crypt}
use s3ql.Comprenc.Packets.{Error, Env, Reader, M, new_reader, is_empty, read_loop, read, read_all}
use s3ql.Comprenc.Packets.Decrypted.{plain}
use s3ql.Comprenc.Packets.RoundTrip.{read-checked}
use s3ql.Comprenc.Packets.Authentic.{bind-inv}
use s3ql.Comprenc.Packets.Accepted.{IsHashed, read_loop-IsHashed}

module _ (env : Env) where
  read-IsHashed :
      (size : ℕ) (s t : Reader) (d : Bytes)
      → 0 < size
      → s.hmac_checked ≡ false
      → read env size s ≡ (returned d, t)
      → IsHashed env (plain env s) s d t
  unfolding read ◌>>=◌ gets branch
  read-IsHashed size s t d some_bytes unchecked h =
      let asked : (size == 0) ≡ false = ground (arith, some_bytes) in
      let loop : M Bytes = read_loop env (suc (2 * length s.input)) size [] [] in
      let h2 : branch s.hmac_checked (pure []) loop s ≡ (returned d, t) = rw asked at h in
      let h3 : loop s ≡ (returned d, t) =
        sym (ap (λ c. branch c (pure []) loop s) unchecked) ∙ h2 in
      read_loop-IsHashed env (suc (2 * length s.input)) size [] [] d s t h3

  -- A checked reader gets nothing more.
  read_all-idle :
      (bufsize fuel : ℕ) (s t : Reader) (d : Bytes)
      → 0 < bufsize
      → s.hmac_checked ≡ true
      → read_all env bufsize fuel s ≡ (returned d, t)
      → s ≡ t
  unfolding read_all ◌>>=◌ branch pure raise
  read_all-idle bufsize zero s t d b checked h = absurd (ground (arith, ap (λ p. p.0) h))
  read_all-idle bufsize (suc fuel) s t d b checked h =
      let h2 : ◌≡◌ {A = Outcome Error Bytes × Reader} (returned [], s) (returned d, t) =
        rw (read-checked env bufsize s checked b) at h in
      ap (λ p. p.1) h2

  -- What was left was hashed, and an HMAC of all that was.
  abbrev IsSigned : Reader → Reader → Type 0
  IsSigned s t =
      (x : Bytes) × (plain env s ≡ x ++ env.hmac t.hashed)
      × (t.hashed ≡ s.hashed ++ x)
      × (t.hmac_checked ≡ true)

  IsSigned-after :
      (s u v : Reader) (x y : Bytes)
      → plain env s ≡ x ++ y
      → u.hashed ≡ s.hashed ++ x
      → y ≡ plain env u
      → IsSigned u v
      → IsSigned s v
  IsSigned-after s u v x y all hashed left (x2, all2, hashed2, checked) = (
    x ++ x2,
    all ∙ ap (λ c. x ++ c) (left ∙ all2) ∙ sym (append_assoc x x2 (env.hmac v.hashed)),
    hashed2 ∙ ap (λ c. c ++ x2) hashed ∙ append_assoc s.hashed x x2,
    checked,
  )

  read_all-IsSigned :
      (fuel bufsize : ℕ) (s t : Reader) (d : Bytes)
      → 0 < bufsize
      → s.hmac_checked ≡ false
      → read_all env bufsize fuel s ≡ (returned d, t)
      → IsSigned s t
  unfolding read_all ◌>>=◌ branch pure raise
  read_all-IsSigned zero bufsize s t d b unchecked h = absurd (ground (arith, ap (λ p. p.0) h))
  read_all-IsSigned (suc fuel) bufsize s t d b unchecked h =
      let follow : Bytes → M Bytes =
        λ got. read_all env bufsize fuel >>= λ rest. pure (got ++ rest) in
      let next : Bytes → M Bytes = λ got. branch (is_empty got) (pure []) (follow got) in
      let (got, u, run, rest) = bind-inv (read env bufsize) next s t d h in
      let (x, y, all, hashed, end) = read-IsHashed bufsize s u got b unchecked run in
      elim end [
        | inl (same, more, left) ↦
            let h2 : follow got u ≡ (returned d, t) = rw more at rest in
            let (r, v, run2, rest2) =
              bind-inv (read_all env bufsize fuel) (λ r. pure (got ++ r)) u t d h2 in
            IsSigned-after s u t x y all hashed left (
              subst (IsSigned u) (ap (λ p. p.1) rest2)
                (read_all-IsSigned fuel bufsize u v r b (same ∙ unchecked) run2))
        | inr (checked, mac) ↦
            let signed : IsSigned s u = (x, all ∙ ap (λ c. x ++ c) mac, hashed, checked) in
            elim (Bool-cases (is_empty got)) [
              | inl e ↦
                  let h2 : ◌≡◌ {A = Outcome Error Bytes × Reader} (returned [], u) (returned d, t) =
                    rw e at rest in
                  subst (IsSigned s) (ap (λ p. p.1) h2) signed
              | inr e ↦
                  let h2 : follow got u ≡ (returned d, t) = rw e at rest in
                  let (r, v, run2, rest2) =
                    bind-inv (read_all env bufsize fuel) (λ r. pure (got ++ r)) u t d h2 in
                  subst (IsSigned s)
                    (read_all-idle bufsize fuel u v r b checked run2 ∙ ap (λ p. p.1) rest2) signed
            ]
      ]

-- With reads of a size that is not 0, an object of any bytes is read to its end without an error only where its
-- bytes, decrypted, are those that the reader hashed and the HMAC of these, with nothing behind it.
pub read_all-returned :
    (env : Env) (object data_ : Bytes) (bufsize fuel : ℕ) (t : Reader)
    → 0 < bufsize
    → read_all env bufsize fuel (new_reader object) ≡ (returned data_, t)
    → (crypt env.stream 0 object ≡ t.hashed ++ env.hmac t.hashed) × (t.hmac_checked ≡ true)
unfolding plain
read_all-returned env object data_ bufsize fuel t b h =
    let (x, all, hashed, checked) =
      read_all-IsSigned env fuel bufsize (new_reader object) t data_ b refl h in
    (all ∙ ap (λ c. c ++ env.hmac t.hashed) (sym hashed), checked)
