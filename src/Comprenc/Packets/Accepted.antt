-- ===== src/Comprenc/Packets/Accepted.antt =====
-- Reading an object of whatever bytes to its end, by `DecryptFilter` of src/s3ql/backends/comprenc.py.
use mathlib.Core.List.{append_assoc}
use mathlib.Core.Path.{subst}
use s3ql.Prelude.{
  ℕ, zero, suc, ◌+◌, ◌-◌, ◌≡◌, ◌⊎◌, refl, ap, sym, ◌∙◌, true, false, not, ◌&&◌, ◌||◌, [], ◌∷◌, ◌++◌,
  arith, length, take, drop, ltb, leb, ◌==◌, if◌then◌else◌, inl, inr, Bool-cases,
}
use s3ql.Prelude.Effect.{Outcome, returned, pure, raise, gets, branch, modify, ◌>>=◌}
use s3ql.Fsck.State.{Bytes}
use s3ql.Comprenc.Packets.{
  Error, Env, Reader, M, off_size, is_empty, unpack, got, read_and_decrypt, check_hmac, hash_read,
  read_loop,
}
use s3ql.Comprenc.Packets.Frames.{take-drop}
use s3ql.Comprenc.Packets.Decrypted.{plain}
use s3ql.Comprenc.Packets.Authentic.{
  bind-inv, returned-inj, TookFrom, read_and_decrypt-TookFrom, IsAccepted, check_hmac-IsAccepted,
}

filled : (s u : Bytes) → is_empty u ≡ false → is_empty (s ++ u) ≡ false
filled [] u h = h
filled (x ∷ s) u h = refl

module _ (env : Env) where
  -- What a read made of what was left: `x` was hashed, and `y` is left, or was the HMAC.
  abbrev pub IsHashed : Bytes → Reader → Bytes → Reader → Type 0
  IsHashed left s got t =
      (x : Bytes) × (y : Bytes) × (left ≡ x ++ y)
      × (t.hashed ≡ s.hashed ++ x)
      × (((t.hmac_checked ≡ s.hmac_checked) × (is_empty got ≡ false) × (y ≡ plain env t))
          ⊎ ((t.hmac_checked ≡ true) × (y ≡ env.hmac t.hashed)))

  IsHashed-took :
      (inbuf buf d : Bytes) (s u t : Reader)
      → TookFrom env s u buf
      → IsHashed ((inbuf ++ buf) ++ plain env u) u d t
      → IsHashed (inbuf ++ plain env s) s d t
  IsHashed-took inbuf buf d s u t took (x, y, all, hashed, end) = (
    x,
    y,
    ap (λ c. inbuf ++ c) (sym took.all) ∙ sym (append_assoc inbuf buf (plain env u)) ∙ all,
    hashed ∙ ap (λ c. c ++ x) took.hashed,
    elim end [
      | inl (checked, more, left) ↦ inl (checked ∙ took.hmac_checked, more, left)
      | inr done ↦ inr done
    ],
  )

  -- The first `k` bytes were hashed.
  abbrev cut : ℕ → ℕ → Bytes → Reader → Reader
  cut k n inbuf s = hash_read (take k inbuf) (record s { remaining = n })

  IsHashed-cut :
      (inbuf d : Bytes) (s : Reader) (n k : ℕ) (t : Reader)
      → IsHashed (drop k inbuf ++ plain env (cut k n inbuf s)) (cut k n inbuf s) d t
      → IsHashed (inbuf ++ plain env s) s d t
  unfolding plain
  IsHashed-cut inbuf d s n k t (x, y, all, hashed, end) = (
    take k inbuf ++ x,
    y,
    ap (λ c. c ++ plain env s) (sym (take-drop k inbuf))
        ∙ append_assoc (take k inbuf) (drop k inbuf) (plain env s)
        ∙ ap (λ c. take k inbuf ++ c) all
        ∙ sym (append_assoc (take k inbuf) x y),
    hashed ∙ append_assoc s.hashed (take k inbuf) x,
    end,
  )

  IsHashed-last :
      (inbuf d : Bytes) (s : Reader) (n k : ℕ) (t : Reader)
      → IsAccepted env (drop k inbuf ++ plain env (cut k n inbuf s)) (cut k n inbuf s) t
      → IsHashed (inbuf ++ plain env s) s d t
  unfolding plain
  IsHashed-last inbuf d s n k t (all, hashed, checked) = (
    take k inbuf,
    env.hmac t.hashed,
    ap (λ c. c ++ plain env s) (sym (take-drop k inbuf))
        ∙ append_assoc (take k inbuf) (drop k inbuf) (plain env s)
        ∙ ap (λ c. take k inbuf ++ c) all,
    hashed,
    inr (checked, refl),
  )

  pub read_loop-IsHashed :
      (fuel size : ℕ) (out inbuf data_ : Bytes) (s t : Reader)
      → read_loop env fuel size out inbuf s ≡ (returned data_, t)
      → IsHashed (inbuf ++ plain env s) s data_ t
  unfolding read_loop plain ◌>>=◌ gets branch modify pure raise
  read_loop-IsHashed zero size out inbuf data_ s t h = absurd (ground (arith, ap (λ p. p.0) h))
  read_loop-IsHashed (suc fuel) size out inbuf data_ s t h =
      elim (Bool-cases (not (is_empty inbuf) && leb (length inbuf) s.remaining)) [
        | inl e ↦
            let t0 : Reader =
              hash_read inbuf (record s { remaining = s.remaining - length inbuf }) in
            let h2 : ◌≡◌ {A = Outcome Error Bytes × Reader} (returned (out ++ inbuf), t0)
                (returned data_, t) =
              rw e at h in
            subst (λ u. IsHashed (inbuf ++ plain env s) s data_ u) (ap (λ p. p.1) h2)
              (subst (λ c. IsHashed (inbuf ++ plain env s) s c t0)
                (returned-inj (out ++ inbuf) data_ (ap (λ p. p.0) h2))
                (
                  inbuf,
                  plain env s,
                  refl,
                  refl,
                  inl (refl, filled out inbuf (ground (arith, e)), refl),
                ))
        | inr e ↦
            elim (Bool-cases (is_empty inbuf || ltb (length inbuf) (s.remaining + off_size))) [
              | inl f ↦
                  let next : Bytes → M Bytes = λ buf. read_loop env fuel size out (inbuf ++ buf) in
                  let asked : ℕ =
                    if is_empty inbuf
                    then size - length out
                    else s.remaining + off_size - length inbuf in
                  let h2 : (read_and_decrypt env asked >>= next) s ≡ (returned data_, t) =
                    rw (e, f) at h in
                  let (buf, u, run, rest) =
                    bind-inv (read_and_decrypt env asked) next s t data_ h2 in
                  IsHashed-took inbuf buf data_ s u t
                    (read_and_decrypt-TookFrom env asked s u buf run)
                    (read_loop-IsHashed fuel size out (inbuf ++ buf) data_ u t rest)
              | inr f ↦
                  let k : ℕ = s.remaining + off_size in
                  let n : ℕ = unpack (drop s.remaining inbuf) in
                  let s0 : Reader = hash_read (take k inbuf) (record s { remaining = n }) in
                  let out2 : Bytes = out ++ take s.remaining inbuf in
                  elim (Bool-cases (n == 0)) [
                    | inl g ↦
                        let h2 : (check_hmac env (drop k inbuf) >>= λ _. pure out2) s0
                            ≡ (returned data_, t) =
                          rw (e, f, g) at h in
                        let (u, s1, run, rest) =
                          bind-inv (check_hmac env (drop k inbuf)) (λ _. pure out2) s0 t data_ h2 in
                        IsHashed-last inbuf data_ s n k t (
                          subst (IsAccepted env (drop k inbuf ++ plain env s0) s0)
                            (ap (λ p. p.1) rest)
                            (check_hmac-IsAccepted env (drop k inbuf) s0 s1 run))
                    | inr g ↦
                        let h2 : read_loop env fuel size out2 (drop k inbuf) s0
                            ≡ (returned data_, t) =
                          rw (e, f, g) at h in
                        IsHashed-cut inbuf data_ s n k t
                          (read_loop-IsHashed fuel size out2 (drop k inbuf) data_ s0 t h2)
                  ]
            ]
      ]
