-- ===== src/Comprenc/Filters/RoundTrip.antt =====
-- An object that was written by `CompressFilter` and is read by `DecompressFilter`, of
-- src/s3ql/backends/comprenc.py.
use mathlib.Core.List.{append_assoc}
use s3ql.Prelude.{
  ℕ, suc, ◌+◌, ◌<◌, ◌≡◌, refl, ap, ◌∙◌, Bool, true, false, List, [], ◌∷◌, ◌++◌, arith, length,
  if◌then◌else◌, length-append,
}
use s3ql.Prelude.Effect.{returned}
use s3ql.Fsck.State.{Bytes}
use s3ql.Comprenc.Packets.Frames.{joined}
use s3ql.Comprenc.Filters.{
  done, Compressor, Decompressor, Writer, Reader, emit, write, close, read_all,
}
use s3ql.Comprenc.Filters.Decompressed.{IsStream, IsIncremental, read_all-decompress}

module _ {C : Type 0} (z : Compressor C) where
  -- What the compressor makes of data that it gets in pieces.
  abbrev pub compressed : C → List Bytes → Bytes
  compressed c [] = z.flush c
  compressed c (d ∷ ds) = (z.compress c d).0 ++ compressed (z.compress c d).1 ds

  -- The data that a client writes, one call after the other.
  unfoldable pub write_all : List Bytes → Writer C → Writer C
  unfolding write
  write_all [] w = w
  write_all (d ∷ ds) w = write_all ds (write z d w)

  closed :
      (w : Writer C)
      → w.closed ≡ false
      → close z w ≡ record (emit z (z.flush w.compr) w) { closed = true }
  unfolding close emit
  closed w fresh =
      ap (λ (c : Bool). if c then w else record (emit z (z.flush w.compr) w) { closed = true })
        fresh

  close_lem :
      (ds : List Bytes) (w : Writer C)
      → w.closed ≡ false
      → w.obj_size ≡ length w.sink
      → let c = close z (write_all ds w) in
        (c.sink ≡ w.sink ++ compressed w.compr ds) × (c.obj_size ≡ length c.sink) × (close z c ≡ c)
  unfolding write_all write close emit
  close_lem [] w fresh e =
      let size : w.obj_size + length (z.flush w.compr) ≡ length (w.sink ++ z.flush w.compr) =
        omega (arith, e, length-append w.sink (z.flush w.compr)) in
      rw (closed w fresh) (refl, size, refl)
  close_lem (d ∷ ds) w fresh e =
      let out : Bytes = (z.compress w.compr d).0 in
      let size : w.obj_size + length out ≡ length (w.sink ++ out) =
        omega (arith, e, length-append w.sink out) in
      let (sink, total, again) = close_lem ds (write z d w) fresh size in
      (sink ∙ append_assoc w.sink out (compressed (z.compress w.compr d).1 ds), total, again)

abbrev pub new_writer : {C : Type 0} → C → Writer C
new_writer c = record { sink = []; compr = c; obj_size = 0; closed = false }

-- With a decompressor that takes its data in pieces of any size as long as the end of the stream is not reached, that
-- reaches the end, without bytes left, on what the compressor made of the data, which is not empty, and gives the
-- data there, and with a stream below that gets a byte at least where there is one: get_obj_size is the size of the
-- object, a second close changes nothing, and reading the object to its end gives the data that was written.
pub read_all-close :
    {C D : Type 0} (z : Compressor C) (y : Decompressor D) (c0 : C) (d0 d2 : D) (ds : List Bytes)
    (bufsize : ℕ)
    → IsStream y
    → IsIncremental y
    → y.eof d0 ≡ false
    → y.eof d2 ≡ true
    → y.unused_data d2 ≡ []
    → y.decompress d0 (compressed z c0 ds) ≡ done (joined ds) d2
    → 0 < length (compressed z c0 ds)
    → 0 < bufsize
    → let object = close z (write_all z ds (new_writer c0)) in
      (t : Reader D) × (object.obj_size ≡ length object.sink)
      × (close z object ≡ object)
      × (read_all y bufsize (suc (length (joined ds))) (record { input = object.sink; decomp = d0 })
          ≡ (returned (joined ds), t))
read_all-close z y c0 d0 d2 ds bufsize stream incremental start whole nothing_left h some_bytes b =
    let (sink, size, again) = close_lem z ds (new_writer c0) refl refl in
    let (t, run) =
      read_all-decompress y stream incremental d2 whole nothing_left (compressed z c0 ds)
        (joined ds) d0 bufsize start some_bytes h b in
    (
      t,
      size,
      again,
      ap (λ c. read_all y bufsize (suc (length (joined ds))) (record { input = c; decomp = d0 }))
            sink
          ∙ run,
    )
