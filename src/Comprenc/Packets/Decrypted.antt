-- ===== src/Comprenc/Packets/Decrypted.antt =====
-- What `DecryptFilter` of src/s3ql/backends/comprenc.py gets from the stream below: `_read_and_decrypt`, and
-- the check of the HMAC at the end.
use mathlib.Core.List.{append-nil, append_assoc}
use s3ql.Prelude.{
  ℕ, zero, suc, ◌+◌, ◌≤◌, ◌<◌, ◌≡◌, refl, ap, sym, ◌∙◌, true, false, [], ◌∷◌, ◌++◌, arith, length,
  take, drop, min, ltb, ◌==◌, inl, inr, Bool-cases, length-append, length-take, length-drop,
}
use s3ql.Prelude.Effect.{returned, pure, gets, branch, modify, ◌>>=◌}
use s3ql.Fsck.State.{Bytes, eq_bytes, eq_bytes_refl}
use s3ql.Comprenc.Meta.{crypt}
use s3ql.Comprenc.Packets.{
  Env, Reader, hmac_size, is_empty, got, read_and_decrypt, fill, verify_digest, check_hmac,
}
use s3ql.Comprenc.Packets.Frames.{length-crypt, crypt-take, crypt-drop, take-drop}

-- A read of the stream below gets a byte at least where there is one, and no more than it asks for.
abbrev pub IsStream : Env → Type 0
IsStream env =
    (left size : ℕ) → 0 < left → 0 < size → (0 < env.chunk left size) × (env.chunk left size ≤ size)

pub prefix :
    (a b c d : Bytes)
    → a ++ b ≡ c ++ d
    → length a ≤ length c
    → (e : Bytes) × (c ≡ a ++ e) × (b ≡ e ++ d)
prefix [] b c d h l = (c, refl, h)
prefix (x ∷ a) b [] d h l = absurd (omega (arith, l))
prefix (x ∷ a) b (y ∷ c) d h l =
    let (e, p, q) = prefix a b c d (ground (arith, h)) (omega (arith, l)) in
    (e, ground (arith, h, p), q)

module _ (env : Env) where
  -- What is left in the object, decrypted.
  unfoldable pub plain : Reader → Bytes
  plain s = crypt env.stream s.position s.input

  -- A read of the stream took `buf`.
  pub record Took (s t : Reader) (buf : Bytes) : Type 0 where
    pub all : buf ++ plain t ≡ plain s
    pub some_bytes : 0 < length buf
    pub less : length t.input + length buf ≡ length s.input
    pub hashed : t.hashed ≡ s.hashed
    pub remaining : t.remaining ≡ s.remaining
    pub hmac_checked : t.hmac_checked ≡ s.hmac_checked

  pub length-plain : (s : Reader) → length (plain s) ≡ length s.input
  unfolding plain
  length-plain s = length-crypt env.stream s.position s.input

  filled : (s : Bytes) → 0 < length s → is_empty s ≡ false
  filled [] h = absurd (omega (arith, h))
  filled (x ∷ s) h = refl

  pub read_and_decrypt_lem :
      (size : ℕ) (s : Reader)
      → IsStream env
      → 0 < size
      → 0 < length s.input
      → (buf : Bytes) × (t : Reader) × (read_and_decrypt env size s ≡ (returned buf, t))
        × (length buf ≤ size)
        × Took s t buf
  unfolding read_and_decrypt got plain ◌>>=◌ branch gets modify pure
  read_and_decrypt_lem size s stream h l =
      let n : ℕ = env.chunk (length s.input) size in
      let (some_bytes, few) = stream (length s.input) size l h in
      let taken : length (take n s.input) ≡ min n (length s.input) = length-take n s.input in
      let buf : Bytes = crypt env.stream s.position (take n s.input) in
      let k : ℕ = length (take n s.input) in
      let t : Reader = record s { input = drop k s.input; position = s.position + k } in
      let size_buf : length buf ≡ k = length-crypt env.stream s.position (take n s.input) in
      let e : (size == 0) ≡ false = ground (arith, h) in
      let f : is_empty (take n s.input) ≡ false =
        filled (take n s.input) (omega (arith, taken, some_bytes, l)) in
      let left : crypt env.stream (s.position + k) (drop k s.input)
          ≡ drop n (crypt env.stream s.position s.input) =
        crypt-drop env.stream s.position n s.input in
      let same : buf ≡ take n (crypt env.stream s.position s.input) =
        crypt-take env.stream s.position n s.input in
      (
        buf,
        t,
        rw (e, f) refl,
        omega (arith, size_buf, taken, few),
        record {
          all =
              ap (λ c. c ++ plain t) same
              ∙ ap (λ c. take n (plain s) ++ c) left
              ∙ take-drop n (plain s);
          some_bytes = omega (arith, size_buf, taken, some_bytes, l);
          less = omega (arith, size_buf, taken, length-drop k s.input);
          hashed = refl;
          remaining = refl;
          hmac_checked = refl;
        },
      )

  nothing : (s : Bytes) → length s ≡ 0 → s ≡ []
  nothing [] h = refl
  nothing (x ∷ s) h = absurd (omega (arith, h))

  fill_lem :
      (n : ℕ) (inbuf mac : Bytes) (s : Reader)
      → IsStream env
      → inbuf ++ plain s ≡ mac
      → length mac ≡ hmac_size
      → length s.input < n
      → (t : Reader) × (fill env n inbuf s ≡ (returned mac, t))
        × (t.input ≡ [])
        × (t.hashed ≡ s.hashed)
  unfolding fill ◌>>=◌ branch pure
  fill_lem zero inbuf mac s stream h l f = absurd (omega (arith, f))
  fill_lem (suc n) inbuf mac s stream h l f =
      let size : length inbuf + length s.input ≡ hmac_size =
        sym (length-append inbuf (plain s) ∙ ap (λ k. length inbuf + k) (length-plain s))
        ∙ ap length h
        ∙ l in
      elim (Bool-cases (ltb (length inbuf) hmac_size)) [
        | inl e ↦
            let (buf, t, run, few, took) =
              read_and_decrypt_lem (hmac_size + 1) s stream (omega arith)
                (ground (arith, e, size)) in
            let all : (inbuf ++ buf) ++ plain t ≡ mac =
              append_assoc inbuf buf (plain t) ∙ ap (λ c. inbuf ++ c) took.all ∙ h in
            let (u, rest, empty, same) =
              fill_lem n (inbuf ++ buf) mac t stream all l
                (omega (arith, took.less, took.some_bytes, f)) in
            (u, rw (e, run) rest, empty, same ∙ took.hashed)
        | inr e ↦
            let empty : s.input ≡ [] = nothing s.input (ground (arith, e, size)) in
            let none_left : plain s ≡ [] = nothing (plain s) (length-plain s ∙ ap length empty) in
            let all : inbuf ≡ mac =
              sym (append-nil inbuf) ∙ ap (λ c. inbuf ++ c) (sym none_left) ∙ h in
            (s, rw e (ap (λ c. (returned c, s)) all), empty, refl)
      ]

  -- The HMAC of what was read is what is left: it is accepted.
  pub check_hmac_lem :
      (start : Bytes) (s : Reader)
      → IsStream env
      → start ++ plain s ≡ env.hmac s.hashed
      → length (env.hmac s.hashed) ≡ hmac_size
      → (t : Reader) × (check_hmac env start s ≡ (returned tt, t)) × (t.hmac_checked ≡ true)
  unfolding check_hmac verify_digest ◌>>=◌ gets branch modify
  check_hmac_lem start s stream h l =
      let (t, run, empty, same) =
        fill_lem (suc (length s.input)) start (env.hmac s.hashed) s stream h l (omega arith) in
      let size : ltb hmac_size (length (env.hmac s.hashed)) ≡ false = ground (arith, l) in
      let over : is_empty t.input ≡ true = ap is_empty empty in
      let accepted : eq_bytes (env.hmac s.hashed) (env.hmac t.hashed) ≡ true =
        ap (λ c. eq_bytes (env.hmac s.hashed) (env.hmac c)) same
        ∙ eq_bytes_refl (env.hmac s.hashed) in
      (record t { hmac_checked = true }, rw (run, size, over, accepted) refl, refl)
