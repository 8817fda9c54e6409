-- ===== src/Comprenc/Filters.antt =====
-- `CompressFilter` and `DecompressFilter` of src/s3ql/backends/comprenc.py, for a compressor and a decompressor
-- that are parameters.
use s3ql.Prelude.{
  ℕ, zero, suc, ◌+◌, Bool, true, false, not, List, [], ◌∷◌, ◌++◌, length, take, drop, ◌==◌,
  if◌then◌else◌,
}
use s3ql.Prelude.Effect.{Action, pure, raise, gets, branch, modify, ◌>>=◌, ◌>>◌}
use s3ql.Fsck.State.{Bytes}
use s3ql.Comprenc.Packets.{is_empty}
pub mod Decompressed
pub mod RoundTrip
mod Tests

pub data Error : Type 0 where
  premature_end data_after_end invalid_stream other_error out_of_fuel : Error

-- What a call of `decomp.decompress` does: it returns, raises an exception that `decompress` turns into a
-- CorruptedObjectError, or raises another one, as those of `bz2` and `lzma` do after the end of the stream.
pub data CallResult (D : Type 0) : Type 0 where
  done : Bytes → D → CallResult D
  invalid stopped : CallResult D

-- The objects of `bz2`, `lzma` and `zlib`. `chunk` says how many bytes a read of the stream below gets, of those
-- that are left and those that it asks for.
pub record Compressor (C : Type 0) : Type 0 where
  pub compress : C → Bytes → Bytes × C
  pub flush : C → Bytes

pub record Decompressor (D : Type 0) : Type 0 where
  pub decompress : D → Bytes → CallResult D
  pub eof : D → Bool
  pub unused_data : D → Bytes
  pub chunk : ℕ → ℕ → ℕ

pub record Writer (C : Type 0) : Type 0 where
  pub sink : Bytes
  pub compr : C
  pub obj_size : ℕ
  pub closed : Bool

pub record Reader (D : Type 0) : Type 0 where
  pub input : Bytes
  pub decomp : D

abbrev pub M : Type 0 → Type 0 → Type 0
M D A = Action Error (Reader D) A

module _ {C : Type 0} (z : Compressor C) where
  -- `if buf: self.fh.write(buf)`, and the sum of the lengths
  unfoldable pub emit : Bytes → Writer C → Writer C
  emit buf w = record w { sink = w.sink ++ buf; obj_size = w.obj_size + length buf }

  -- `CompressFilter.write`
  unfoldable pub write : Bytes → Writer C → Writer C
  unfolding emit
  write data_ w = let (buf, c) = z.compress w.compr data_ in emit buf (record w { compr = c })

  -- `CompressFilter.close`
  unfoldable pub close : Writer C → Writer C
  unfolding emit
  close w = if w.closed then w else record (emit (z.flush w.compr) w) { closed = true }

module _ {D : Type 0} (z : Decompressor D) where
  -- `self.fh.read(size)`
  unfoldable pub below : ℕ → M D Bytes
  below size = do
    buf ← gets (λ s. take (z.chunk (length s.input) size) s.input)
    modify (λ s. record s { input = drop (z.chunk (length s.input) size) s.input })
    pure buf

  -- Where the stream is invalid, the rest of it is read and dropped.
  unfoldable pub decompressed : CallResult D → M D Bytes
  decompressed invalid = do modify (λ s. record s { input = [] }); raise invalid_stream
  decompressed stopped = raise other_error
  decompressed (done buf d) = do modify (λ s. record s { decomp = d }); pure buf

  unfoldable pub at_end : M D Bytes
  at_end = do
    d ← gets (λ s. s.decomp)
    branch (not (z.eof d)) (raise premature_end)
        do branch (not (is_empty (z.unused_data d))) (raise data_after_end) (pure [])

  -- `while not buf`
  unfoldable pub read_loop : ℕ → ℕ → M D Bytes
  unfolding below decompressed at_end
  read_loop zero size = raise out_of_fuel
  read_loop (suc fuel) size = do
    buf ← below size
    branch (is_empty buf) at_end do
      d ← gets (λ s. s.decomp)
      data_ ← decompressed (z.decompress d buf)
      branch (is_empty data_) (read_loop fuel size) (pure data_)

  -- `DecompressFilter.read` for a size that is not -1
  unfoldable pub read : ℕ → M D Bytes
  unfolding read_loop
  read size =
      branch (size == 0) (pure []) do left ← gets (λ s. length s.input); read_loop (suc left) size

  -- `readall`, with the block size that it reads
  unfoldable pub read_all : ℕ → ℕ → M D Bytes
  unfolding read
  read_all bufsize zero = raise out_of_fuel
  read_all bufsize (suc fuel) = do
    data_ ← read bufsize
    branch (is_empty data_) (pure []) do rest ← read_all bufsize fuel; pure (data_ ++ rest)
