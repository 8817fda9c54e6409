-- ===== src/Comprenc/Filters/Decompressed.antt =====
-- What `DecompressFilter` of src/s3ql/backends/comprenc.py returns, read to its end.
use mathlib.Core.List.{append-nil}
use s3ql.Prelude.{
  ℕ, zero, suc, ◌<◌, ◌≡◌, ◌⊎◌, refl, ap, sym, ◌∙◌, true, false, [], ◌∷◌, ◌++◌, arith, length, take,
  drop, ◌==◌, inl, inr, Bool-cases, length-append, length-take, length-drop,
}
use s3ql.Prelude.Effect.{returned, pure, gets, branch, modify, ◌>>=◌}
use s3ql.Fsck.State.{Bytes}
use s3ql.Comprenc.Packets.{is_empty}
use s3ql.Comprenc.Packets.Frames.{take-drop}
use s3ql.Comprenc.Filters.{
  done, Decompressor, Reader, below, decompressed, at_end, read_loop, read, read_all,
}

nothing : (s : Bytes) → is_empty s ≡ true → s ≡ []
nothing [] h = refl
nothing (x ∷ s) h = absurd (ground (arith, h))

some-length : (s : Bytes) → is_empty s ≡ false → 0 < length s
some-length [] e = absurd (ground (arith, e))
some-length (x ∷ s) e = omega arith

drop-nil : (n : ℕ) → drop {A = ℕ} n [] ≡ []
drop-nil zero = refl
drop-nil (suc n) = refl

take-nil : (n : ℕ) → take {A = ℕ} n [] ≡ []
take-nil zero = refl
take-nil (suc n) = refl

filled : (s : Bytes) → 0 < length s → is_empty s ≡ false
filled [] h = absurd (omega (arith, h))
filled (x ∷ s) h = refl

module _ {D : Type 0} (z : Decompressor D) where
  -- A read of the stream below gets a byte at least where there is one.
  abbrev pub IsStream : Type 0
  IsStream = (left size : ℕ) → 0 < left → 0 < size → 0 < z.chunk left size

  -- What can be decompressed at once, with nothing behind the end of the stream, can be in two pieces, and the end
  -- is not reached before the second.
  abbrev pub IsIncremental : Type 0
  IsIncremental =
      (d d2 : D) (x y data_ : Bytes)
      → z.eof d ≡ false
      → 0 < length x
      → 0 < length y
      → z.unused_data d2 ≡ []
      → z.decompress d (x ++ y) ≡ done data_ d2
      → (u : Bytes) × (d1 : D) × (v : Bytes) × (z.eof d1 ≡ false)
        × (z.decompress d x ≡ done u d1)
        × (z.decompress d1 y ≡ done v d2)
        × (data_ ≡ u ++ v)

  module _ (stream : IsStream) (incremental : IsIncremental) (d2 : D) (whole : z.eof d2 ≡ true)
      (nothing_left : z.unused_data d2 ≡ []) where
    -- `data_` is left: at the end of the stream, or before it.
    abbrev Left : Bytes → Reader D → Type 0
    Left data_ s =
        ((s.input ≡ []) × (data_ ≡ []) × (s.decomp ≡ d2))
        ⊎ ((0 < length s.input)
            × (z.eof s.decomp ≡ false)
            × (z.decompress s.decomp s.input ≡ done data_ d2))

    at_end_lem : (s : Reader D) → s.decomp ≡ d2 → at_end z s ≡ (returned [], s)
    unfolding at_end ◌>>=◌ gets branch pure
    at_end_lem s same =
        let over : z.eof s.decomp ≡ true = ap z.eof same ∙ whole in
        let none_left : is_empty (z.unused_data s.decomp) ≡ true =
          ap (λ d. is_empty (z.unused_data d)) same ∙ ap is_empty nothing_left in
        rw (over, none_left) refl

    -- What the decompressor makes of the first bytes, and what is left.
    piece :
        (d : D) (x y data_ : Bytes)
        → z.eof d ≡ false
        → 0 < length x
        → z.decompress d (x ++ y) ≡ done data_ d2
        → (u : Bytes) × (d1 : D) × (v : Bytes) × (z.decompress d x ≡ done u d1)
          × Left v (record { input = y; decomp = d1 })
          × (u ++ v ≡ data_)
    piece d x [] data_ open_stream some_bytes h = (
      data_,
      d2,
      [],
      ap (z.decompress d) (sym (append-nil x)) ∙ h,
      inl (refl, refl, refl),
      append-nil data_,
    )
    piece d x (y ∷ ys) data_ open_stream some_bytes h =
        let (u, d1, v, open_after, first, second, both) =
          incremental d d2 x (y ∷ ys) data_ open_stream some_bytes (omega arith) nothing_left h in
        (u, d1, v, first, inr (omega arith, open_after, second), sym both)

    -- What a read returns, `rest` being left.
    abbrev Returns : Bytes → Bytes → Bytes → Type 0
    Returns data_ got rest =
        (got ++ rest ≡ data_) × ((is_empty got ≡ false) ⊎ ((got ≡ []) × (rest ≡ [])))

    read_loop_lem :
        (fuel size : ℕ) (s : Reader D) (data_ : Bytes)
        → Left data_ s
        → 0 < size
        → length s.input < fuel
        → (got : Bytes) × (t : Reader D) × (rest : Bytes) × (read_loop z fuel size s
            ≡ (returned got, t))
          × Left rest t
          × Returns data_ got rest
    unfolding read_loop below decompressed ◌>>=◌ gets branch modify pure
    read_loop_lem zero size s data_ h b l = absurd (omega (arith, l))
    read_loop_lem (suc fuel) size s data_ (inl (no_input, no_data, same)) b l =
        let n : ℕ = z.chunk (length s.input) size in
        let none_got : is_empty (take n s.input) ≡ true =
          ap (λ c. is_empty (take n c)) no_input ∙ ap is_empty (take-nil n) in
        let none_after : drop n s.input ≡ [] = ap (drop n) no_input ∙ drop-nil n in
        let s1 : Reader D = record s { input = drop n s.input } in
        (
          [],
          s1,
          [],
          rw none_got (at_end_lem s1 same),
          inl (none_after, refl, same),
          (sym no_data, inr (refl, refl)),
        )
    read_loop_lem (suc fuel) size s data_ (inr (some_input, open_stream, h)) b l =
        let n : ℕ = z.chunk (length s.input) size in
        let x : Bytes = take n s.input in
        let y : Bytes = drop n s.input in
        let some_bytes : 0 < length x =
          omega
            (arith, length-take n s.input, some_input, stream (length s.input) size some_input b) in
        let e : is_empty x ≡ false = filled x some_bytes in
        let (u, d1, v, first, left1, both) =
          piece s.decomp x y data_ open_stream some_bytes
            (ap (z.decompress s.decomp) (take-drop n s.input) ∙ h) in
        let s1 : Reader D = record { input = y; decomp = d1 } in
        elim (Bool-cases (is_empty u)) [
          | inr f ↦ (u, s1, v, rw (e, first, f) refl, left1, (both, inl f))
          | inl f ↦
              let shorter : length y < fuel =
                omega (arith, l, some_bytes, length-drop n s.input, length-take n s.input) in
              let (got, t, rest, run, left, (all, end)) =
                read_loop_lem fuel size s1 v left1 b shorter in
              let same : v ≡ data_ = sym (ap (λ c. c ++ v) (nothing u f)) ∙ both in
              (got, t, rest, rw (e, first, f) run, left, (all ∙ same, end))
        ]

    read_all_lem :
        (fuel bufsize : ℕ) (s : Reader D) (data_ : Bytes)
        → Left data_ s
        → 0 < bufsize
        → length data_ < fuel
        → (t : Reader D) × (read_all z bufsize fuel s ≡ (returned data_, t))
    unfolding read_all read ◌>>=◌ gets branch pure
    read_all_lem zero bufsize s data_ h b l = absurd (omega (arith, l))
    read_all_lem (suc fuel) bufsize s data_ h b l =
        let asked : (bufsize == 0) ≡ false = ground (arith, b) in
        let (got, t, rest, run, left, (all, end)) =
          read_loop_lem (suc (length s.input)) bufsize s data_ h b (omega arith) in
        elim end [
          | inl e ↦
              let (u, after) =
                read_all_lem fuel bufsize t rest left b
                  (omega (arith, l, some-length got e, ap length all, length-append got rest)) in
              (u, rw (asked, run, e, after) (ap (λ c. (returned c, u)) all))
          | inr (nothing_got, empty) ↦
              let stop : is_empty got ≡ true = ap is_empty nothing_got in
              let no_data : [] ≡ data_ = sym (ap (λ c. c ++ rest) nothing_got ∙ empty) ∙ all in
              (t, rw (asked, run, stop) (ap (λ c. (returned c, t)) no_data))
        ]

    -- Data that decompresses at once is what reading it in pieces gives.
    pub read_all-decompress :
        (object data_ : Bytes) (d0 : D) (bufsize : ℕ)
        → z.eof d0 ≡ false
        → 0 < length object
        → z.decompress d0 object ≡ done data_ d2
        → 0 < bufsize
        → (t : Reader D) × (read_all z bufsize
              (suc (length data_))
              (record { input = object; decomp = d0 })
            ≡ (returned data_, t))
    read_all-decompress object data_ d0 bufsize open_stream some_bytes h b =
        read_all_lem (suc (length data_)) bufsize (record { input = object; decomp = d0 }) data_
          (inr (some_bytes, open_stream, h)) b (omega arith)
