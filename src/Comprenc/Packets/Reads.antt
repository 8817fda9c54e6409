-- ===== src/Comprenc/Packets/Reads.antt =====
-- What `DecryptFilter.read` of src/s3ql/backends/comprenc.py returns, for an object that was written as
-- packets and their HMAC.
use mathlib.Core.Path.{subst}
use mathlib.Core.List.{append-nil, append_assoc}
use s3ql.Prelude.{
  ℕ, zero, suc, ◌+◌, ◌-◌, ◌*◌, ◌≤◌, ◌<◌, ◌≡◌, ◌⊎◌, refl, ap, sym, ◌∙◌, Bool, true, false, not, ◌&&◌,
  ◌||◌, List, [], ◌∷◌, ◌++◌, arith, length, ltb, leb, ◌==◌, if◌then◌else◌, inl, inr, Bool-cases,
  length-append,
}
use s3ql.Prelude.Effect.{returned, pure, gets, branch, modify, ◌>>=◌}
use s3ql.Fsck.State.{Bytes}
use s3ql.Comprenc.Meta.{pack}
use s3ql.Comprenc.Packets.{
  Env, Reader, M, hmac_size, off_size, is_empty, check_hmac, hash_read, read_loop, read,
}
use s3ql.Comprenc.Packets.Frames.{frames, joined, length-pack}
use s3ql.Comprenc.Packets.Room.{Fits, Fits-more, Fits-cut}
use s3ql.Comprenc.Packets.Decrypted.{
  IsStream, plain, read_and_decrypt_lem, length-plain, check_hmac_lem,
}
use s3ql.Comprenc.Packets.Rounds.{At, tail, cut_round, part, read-At, next_packet, last_packet}

pub empty-length : (s : Bytes) → is_empty s ≡ (length s == 0)
empty-length [] = refl
empty-length (x ∷ s) = ground arith

-- The data that is left.
abbrev pub payload : Bytes → List Bytes → Bytes
payload cur ps = cur ++ joined ps

module _ (env : Env) (whole : Bytes) where
  -- How a read ends that had `total` to return: there is more to return, or it was the end of the object.
  abbrev pub IsRead : ℕ → Bytes → Bytes → Reader → Type 0
  IsRead size total got t =
      (length got ≤ size)
      × (((0 < length got)
            × (cur : Bytes) × (ps : List Bytes) × At env whole t [] cur ps
            × (got ++ payload cur ps ≡ total))
          ⊎ ((t.hmac_checked ≡ true) × (got ≡ total)))

  more_left :
      (s : Reader) (inbuf cur : Bytes) (ps : List Bytes)
      → At env whole s inbuf cur ps
      → length (env.hmac whole) ≡ hmac_size
      → length inbuf < length cur + 4
      → 0 < length s.input
  more_left s inbuf cur ps at l h =
      let size = ap length at.left in
      omega (
        arith,
        size,
        length-append inbuf (plain env s),
        length-plain env s,
        length-append cur (tail env whole ps),
        length-append (frames ps) (pack 0 ++ env.hmac whole),
        length-append (pack 0) (env.hmac whole),
        l,
        h,
      )

  abbrev Result : ℕ → ℕ → Bytes → Bytes → Reader → Bytes → Type 0
  Result fuel size out inbuf s total =
      (got : Bytes) × (t : Reader) × (read_loop env fuel size out inbuf s ≡ (returned got, t))
      × IsRead size total got t

  -- What is shown for each number of rounds.
  abbrev Reads : ℕ → ℕ → Type 0
  Reads fuel size =
      (out inbuf : Bytes) (s : Reader) (cur : Bytes) (ps : List Bytes)
      → At env whole s inbuf cur ps
      → Fits size (length out) (length inbuf) (length cur)
      → 2 * length s.input + length inbuf < fuel
      → Result fuel size out inbuf s (out ++ payload cur ps)

  -- The test for data that is all of the current packet, and that for more to read.
  abbrev is_part : Bytes → Reader → Bool
  is_part inbuf s = not (is_empty inbuf) && leb (length inbuf) s.remaining

  abbrev has_less : Bytes → Reader → Bool
  has_less inbuf s = is_empty inbuf || ltb (length inbuf) (s.remaining + off_size)

  returns :
      (fuel size : ℕ) (out inbuf : Bytes) (s : Reader) (cur : Bytes) (ps : List Bytes)
      → At env whole s inbuf cur ps
      → Fits size (length out) (length inbuf) (length cur)
      → is_part inbuf s ≡ true
      → Result (suc fuel) size out inbuf s (out ++ payload cur ps)
  unfolding read_loop ◌>>=◌ gets branch modify pure
  returns fuel size out inbuf s cur ps at fits e =
      let short : length inbuf ≤ length cur = ground (arith, e, at.remaining) in
      let (rest, same, after) = part env whole s inbuf cur ps at short in
      let some_bytes : 0 < length (out ++ inbuf) =
        ground (arith, e, empty-length inbuf, length-append out inbuf) in
      let total : (out ++ inbuf) ++ payload rest ps ≡ out ++ payload cur ps =
        append_assoc out inbuf (payload rest ps)
        ∙ ap (λ c. out ++ c)
            (sym (append_assoc inbuf rest (joined ps)) ∙ ap (λ c. c ++ joined ps) (sym same)) in
      (
        out ++ inbuf,
        hash_read inbuf (record s { remaining = s.remaining - length inbuf }),
        rw e refl,
        (
          omega (arith, length-append out inbuf, fits.within short),
          inl (some_bytes, rest, ps, after, total),
        ),
      )

  reads :
      (fuel size : ℕ) (out inbuf : Bytes) (s : Reader) (cur : Bytes) (ps : List Bytes)
      → Reads fuel size
      → IsStream env
      → length (env.hmac whole) ≡ hmac_size
      → At env whole s inbuf cur ps
      → Fits size (length out) (length inbuf) (length cur)
      → 2 * length s.input + length inbuf < suc fuel
      → is_part inbuf s ≡ false
      → has_less inbuf s ≡ true
      → Result (suc fuel) size out inbuf s (out ++ payload cur ps)
  unfolding read_loop ◌>>=◌ gets branch modify pure
  reads fuel size out inbuf s cur ps rounds stream l at fits enough e f =
      let asked : ℕ =
        if is_empty inbuf then size - length out else s.remaining + off_size - length inbuf in
      let some_bytes : 0 < asked = ground (arith, empty-length inbuf, fits.room, f) in
      let (buf, t, run, few, took) =
        read_and_decrypt_lem env asked s stream some_bytes (
          more_left s inbuf cur ps at l (ground (arith, e, f, empty-length inbuf, at.remaining))) in
      let fits2 : Fits size (length out) (length (inbuf ++ buf)) (length cur) =
        rw (length-append inbuf buf) (
          Fits-more size (length out) (length inbuf) (length cur) (length buf) fits
            (λ h. ground (arith, few, fits.room, empty-length inbuf, h))
            (λ h. (
              ground (arith, e, f, empty-length inbuf, at.remaining, h),
              ground (arith, e, f, few, empty-length inbuf, at.remaining, h),
            ))) in
      let (got, u, rest, done) =
        rounds out (inbuf ++ buf) t cur ps (read-At env whole s t inbuf buf cur ps at took) fits2
          (omega (arith, took.less, took.some_bytes, enough, length-append inbuf buf)) in
      (got, u, rw (e, f, run) rest, done)

  cuts :
      (fuel size : ℕ) (out inbuf : Bytes) (s : Reader) (cur : Bytes) (ps : List Bytes)
      → Reads fuel size
      → IsStream env
      → length (env.hmac whole) ≡ hmac_size
      → At env whole s inbuf cur ps
      → Fits size (length out) (length inbuf) (length cur)
      → 2 * length s.input + length inbuf < suc fuel
      → is_part inbuf s ≡ false
      → has_less inbuf s ≡ false
      → Result (suc fuel) size out inbuf s (out ++ payload cur ps)
  unfolding ◌>>=◌ branch pure
  cuts fuel size out inbuf s cur [] rounds stream l at fits enough e f =
      let long : length cur + 4 ≤ length inbuf = ground (arith, f, at.remaining) in
      let (rest, same, left, all) = last_packet env whole s inbuf cur at long in
      let s0 : Reader = hash_read (cur ++ pack 0) (record s { remaining = 0 }) in
      let (t, run, checked) =
        check_hmac_lem env rest s0 stream left (ap (λ c. length (env.hmac c)) all ∙ l) in
      let round : read_loop env (suc fuel) size out inbuf s
          ≡ (check_hmac env rest >>= λ _. pure (out ++ cur)) s0 =
        cut_round env whole fuel size out inbuf s cur 0 rest same at.remaining (omega arith) e f in
      let past = fits.past (omega (arith, long)) in
      (
        out ++ cur,
        t,
        ◌∙◌ {c = (returned (out ++ cur), t)} round (rw run refl),
        (
          omega (arith, length-append out cur, past),
          inr (checked, ap (λ c. out ++ c) (sym (append-nil cur))),
        ),
      )
  cuts fuel size out inbuf s cur (d ∷ ps) rounds stream l at fits enough e f =
      let long : length cur + 4 ≤ length inbuf = ground (arith, f, at.remaining) in
      let (rest, same, after) = next_packet env whole s inbuf cur d ps at long in
      let (some_bytes, small) = at.packets.0 in
      let n : ℕ = length d in
      let s0 : Reader = hash_read (cur ++ pack n) (record s { remaining = n }) in
      let goes_on : (n == 0) ≡ false = ground (arith, some_bytes) in
      let round : read_loop env (suc fuel) size out inbuf s
          ≡ read_loop env fuel size (out ++ cur) rest s0 =
        rw goes_on at
          (cut_round env whole fuel size out inbuf s cur n rest same at.remaining small e f) in
      let sizes : length inbuf ≡ length cur + 4 + length rest = omega (
        arith,
        ap length same,
        length-append (cur ++ pack n) rest,
        length-append cur (pack n),
        length-pack n,
      ) in
      let fits2 : Fits size (length (out ++ cur)) (length rest) n =
        rw (length-append out cur)
          (Fits-cut size (length out) (length rest) (length cur) n (rw sizes at fits)) in
      let (got, t, run, done) =
        rounds (out ++ cur) rest s0 d ps after fits2 (omega (arith, sizes, enough)) in
      (
        got,
        t,
        ◌∙◌ {c = (returned got, t)} round run,
        subst (λ c. IsRead size c got t) (append_assoc out cur (payload d ps)) done,
      )

  read_loop_lem :
      (fuel size : ℕ) → IsStream env → length (env.hmac whole) ≡ hmac_size → Reads fuel size
  read_loop_lem zero size stream l out inbuf s cur ps at fits enough =
      absurd (omega (arith, enough))
  read_loop_lem (suc fuel) size stream l out inbuf s cur ps at fits enough =
      let rounds : Reads fuel size = read_loop_lem fuel size stream l in
      elim (Bool-cases (is_part inbuf s)) [
        | inl e ↦ returns fuel size out inbuf s cur ps at fits e
        | inr e ↦ elim (Bool-cases (has_less inbuf s)) [
          | inl f ↦ reads fuel size out inbuf s cur ps rounds stream l at fits enough e f
          | inr f ↦ cuts fuel size out inbuf s cur ps rounds stream l at fits enough e f
        ]
      ]

  -- Where the reader stands in a packet of an object as it was written, with a size that is not 0: `read` returns,
  -- with no more than that many bytes, the next ones of the data. Either there are some, and the reader stands
  -- in a packet again, or these are all that was left, and the HMAC was checked.
  pub read-IsRead :
      (size : ℕ) (s : Reader) (cur : Bytes) (ps : List Bytes)
      → IsStream env
      → length (env.hmac whole) ≡ hmac_size
      → 0 < size
      → At env whole s [] cur ps
      → (got : Bytes) × (t : Reader) × (read env size s ≡ (returned got, t))
        × IsRead size (payload cur ps) got t
  unfolding read ◌>>=◌ gets branch
  read-IsRead size s cur ps stream l some_bytes at =
      let fits : Fits size 0 0 (length cur) = record {
        room = some_bytes;
        within = λ h. omega arith;
        past = λ h. absurd (omega (arith, h));
        next = λ h. omega arith;
      } in
      let (got, t, run, done) =
        read_loop_lem (suc (2 * length s.input)) size stream l [] [] s cur ps at fits
          (omega arith) in
      let asked : (size == 0) ≡ false = ground (arith, some_bytes) in
      let loop : M Bytes = read_loop env (suc (2 * length s.input)) size [] [] in
      (got, t, rw asked (ap (λ c. branch c (pure []) loop s) at.unchecked ∙ run), done)
