-- ===== src/Comprenc/Packets/RoundTrip.antt =====
-- An object that was written by `EncryptFilter` and is read by `DecryptFilter`, of
-- src/s3ql/backends/comprenc.py.
use mathlib.Core.List.{append-nil, append_assoc}
use s3ql.Prelude.{
  ℕ, zero, suc, ◌*◌, ◌<◌, ◌≡◌, refl, ap, sym, ◌∙◌, true, false, List, [], ◌∷◌, ◌++◌, arith, length,
  ◌==◌, inl, inr, Bool-cases, All, length-append,
}
use s3ql.Prelude.Effect.{returned, pure, gets, branch, ◌>>=◌}
use s3ql.Fsck.State.{Bytes}
use s3ql.Comprenc.Meta.{pack}
use s3ql.Comprenc.Signed.{crypt_twice}
use s3ql.Comprenc.Packets.{
  Env, Reader, M, new_writer, new_reader, hmac_size, is_empty, close, read_loop, read, read_all,
}
use s3ql.Comprenc.Packets.Frames.{frames, joined}
use s3ql.Comprenc.Packets.Encrypted.{
  write_all, packets, IsShort, packets-IsPacket, encrypted, close_lem,
}
use s3ql.Comprenc.Packets.Decrypted.{IsStream, plain}
use s3ql.Comprenc.Packets.Rounds.{At}
use s3ql.Comprenc.Packets.Reads.{empty-length, payload, read-IsRead}

module _ (env : Env) where
  -- After the HMAC was checked nothing more is read.
  pub read-checked :
      (bufsize : ℕ) (t : Reader)
      → t.hmac_checked ≡ true
      → 0 < bufsize
      → read env bufsize t ≡ (returned [], t)
  unfolding read ◌>>=◌ gets branch pure
  read-checked bufsize t checked b =
      let e : (bufsize == 0) ≡ false = ground (arith, b) in
      let loop : M Bytes = read_loop env (suc (2 * length t.input)) bufsize [] [] in
      rw e (ap (λ c. branch c (pure []) loop t) checked)

  pub read_all-checked :
      (bufsize fuel : ℕ) (t : Reader)
      → t.hmac_checked ≡ true
      → 0 < bufsize
      → 0 < fuel
      → read_all env bufsize fuel t ≡ (returned [], t)
  unfolding read_all ◌>>=◌ branch pure
  read_all-checked bufsize zero t checked b f = absurd (omega (arith, f))
  read_all-checked bufsize (suc fuel) t checked b f = rw (read-checked bufsize t checked b) refl

  read_all_lem :
      (whole : Bytes) (fuel bufsize : ℕ) (s : Reader) (cur : Bytes) (ps : List Bytes)
      → IsStream env
      → length (env.hmac whole) ≡ hmac_size
      → 0 < bufsize
      → At env whole s [] cur ps
      → length (payload cur ps) < fuel
      → (t : Reader) × (read_all env bufsize fuel s ≡ (returned (payload cur ps), t))
        × (t.hmac_checked ≡ true)
  unfolding read_all ◌>>=◌ branch pure
  read_all_lem whole zero bufsize s cur ps stream l b at f = absurd (omega (arith, f))
  read_all_lem whole (suc fuel) bufsize s cur ps stream l b at f =
      let (got, t, run, (few, end)) = read-IsRead env whole bufsize s cur ps stream l b at in
      elim end [
        | inl (some_bytes, c, qs, after, same) ↦
            let full : is_empty got ≡ false = ground (arith, empty-length got, some_bytes) in
            let (u, rest, checked) =
              read_all_lem whole fuel bufsize t c qs stream l b after
                (omega (arith, f, some_bytes, ap length same, length-append got (payload c qs))) in
            (u, rw (run, full, rest) (ap (λ x. (returned x, u)) same), checked)
        | inr (checked, same) ↦ elim (Bool-cases (is_empty got)) [
          | inl e ↦
              let empty : payload cur ps ≡ [] =
                nothing (payload cur ps) (omega (arith, ap length same, length-empty got e)) in
              (t, rw (run, e) (ap (λ x. (returned x, t)) (sym empty)), checked)
          | inr e ↦
              let more : 0 < fuel = ground (arith, e, empty-length got, ap length same, f) in
              let rest = read_all-checked bufsize fuel t checked b more in
              (t, rw (run, e, rest) (ap (λ x. (returned x, t)) (append-nil got ∙ same)), checked)
        ]
      ]
    where
      nothing : (s : Bytes) → length s ≡ 0 → s ≡ []
      nothing [] h = refl
      nothing (x ∷ s) h = absurd (omega (arith, h))

      length-empty : (s : Bytes) → is_empty s ≡ true → length s ≡ 0
      length-empty [] h = refl
      length-empty (x ∷ s) h = absurd (ground (arith, h))

joined-packets : (ds : List Bytes) → joined (packets ds) ≡ joined ds
joined-packets [] = refl
joined-packets ([] ∷ ds) = joined-packets ds
joined-packets ((x ∷ d) ∷ ds) = ap (λ c. (x ∷ d) ++ c) (joined-packets ds)

-- With a key stream that a second pass undoes, an HMAC of 32 bytes, writes of less than 2^32 bytes each, and any
-- size of the reads above and below: the writes and close do not fail, get_obj_size is the size of the object, and
-- reading the object to its end gives the data that was written, with the HMAC checked.
pub read_all-write_all :
    (env : Env) (ds : List Bytes) (bufsize : ℕ)
    → IsStream env
    → ((pos x : ℕ) → env.stream pos (env.stream pos x) ≡ x)
    → ((s : Bytes) → length (env.hmac s) ≡ hmac_size)
    → All IsShort ds
    → 0 < bufsize
    → let (r, w) = write_all env ds new_writer in
      let object = close env w in
      (t : Reader) × (r ≡ returned tt)
      × (object.obj_size ≡ length object.sink)
      × (read_all env bufsize (suc (length (joined ds))) (new_reader object.sink)
          ≡ (returned (joined ds), t))
      × (t.hmac_checked ≡ true)
unfolding plain
read_all-write_all env ds bufsize stream twice mac short b =
    let (written, sink, size, closed, again) = close_lem env ds short in
    let ps : List Bytes = packets ds in
    let whole : Bytes = frames ps ++ pack 0 in
    let object : Bytes = encrypted env ps in
    let at : At env whole (new_reader object) [] [] ps = record {
      left =
          crypt_twice env.stream 0 (whole ++ env.hmac whole) twice
          ∙ append_assoc (frames ps) (pack 0) (env.hmac whole);
      hashed = refl;
      remaining = refl;
      packets = packets-IsPacket ds short;
      unchecked = refl;
    } in
    let same : joined ps ≡ joined ds = joined-packets ds in
    let (t, run, checked) =
      read_all_lem env whole (suc (length (joined ds))) bufsize (new_reader object) [] ps stream
        (mac whole) b at (omega (arith, ap length same)) in
    (
      t,
      written,
      size,
      ap (λ c. read_all env bufsize (suc (length (joined ds))) (new_reader c)) sink
          ∙ run
          ∙ ap (λ c. (returned c, t)) same,
      checked,
    )
