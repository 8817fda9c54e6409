-- ===== src/Comprenc/Filters/Tests.antt =====
-- A witness for the theorem on `CompressFilter` and `DecompressFilter` of src/s3ql/backends/comprenc.py: the data
-- is stored as it is, and the stream ends after five bytes.
use s3ql.Prelude.{
  ℕ, ◌+◌, ◌≡◌, refl, ap, sym, List, [], ◌∷◌, ◌++◌, arith, length, min, ◌==◌, ltb, false, ◌≤◌, ◌<◌,
  if◌then◌else◌, length-append,
}
use s3ql.Prelude.Effect.{returned}
use s3ql.Fsck.State.{Bytes}
use s3ql.Comprenc.Filters.{done, stopped, Compressor, Decompressor, Reader, close, read_all}
use s3ql.Comprenc.Filters.Decompressed.{IsStream, IsIncremental}
use s3ql.Comprenc.Filters.RoundTrip.{write_all, new_writer, read_all-close}

abbrev plain_compressor : Compressor (Unit {0})
plain_compressor = record { compress = λ c d. (d, c); flush = λ c. [] }

abbrev plain_decompressor : Decompressor ℕ
plain_decompressor = record {
  decompress = λ n s. if n == 5 then stopped else done s (n + length s);
  eof = λ n. n == 5;
  unused_data = λ n. if ltb 5 n then 0 ∷ [] else [];
  chunk = λ left size. min size 3;
}

plain-IsStream : IsStream plain_decompressor
plain-IsStream left size l h = omega (arith, h)

fits : (n : ℕ) → plain_decompressor.unused_data n ≡ [] → n ≤ 5
fits n h = ground (arith, h)

plain-IsIncremental : IsIncremental plain_decompressor
plain-IsIncremental d d2 x y data_ open_stream some_x some_y unused h =
    let h2 : done (x ++ y) (d + length (x ++ y)) ≡ done data_ d2 = rw open_stream at h in
    let total : d + length (x ++ y) ≡ d2 = ground (arith, h2) in
    let both : x ++ y ≡ data_ = ground (arith, h2) in
    let after : d + length x + length y ≡ d2 = omega (arith, total, length-append x y) in
    let short : d + length x < 5 = omega (arith, after, some_y, fits d2 unused) in
    let before : (d + length x == 5) ≡ false = ground (arith, short) in
    (x, d + length x, y, before, rw open_stream refl, rw before (ap (done y) after), sym both)

abbrev pieces : List Bytes
pieces = (1 ∷ 2 ∷ []) ∷ [] ∷ (3 ∷ 4 ∷ 5 ∷ []) ∷ []

-- Three writes, one of them without data, and reads of two bytes each.
read_all-close_example :
    let object = close plain_compressor (write_all plain_compressor pieces (new_writer tt)) in
    (t : Reader ℕ) × (object.obj_size ≡ length object.sink)
    × (close plain_compressor object ≡ object)
    × (read_all plain_decompressor 2 6 (record { input = object.sink; decomp = 0 })
        ≡ (returned (1 ∷ 2 ∷ 3 ∷ 4 ∷ 5 ∷ []), t))
read_all-close_example =
    read_all-close plain_compressor plain_decompressor tt 0 5 pieces 2 plain-IsStream
      plain-IsIncremental refl refl refl refl (omega arith) (omega arith)
