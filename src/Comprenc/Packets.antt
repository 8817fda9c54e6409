-- ===== src/Comprenc/Packets.antt =====
-- The data of an encrypted object: `EncryptFilter` and `DecryptFilter` of src/s3ql/backends/comprenc.py. The
-- object is a list of bytes, and `chunk` says how many bytes a read of the unbuffered stream below gets,
-- of those that are left and those that it asks for.
use s3ql.Prelude.{
  ℕ, zero, suc, ◌+◌, ◌-◌, ◌*◌, ◌^◌, Bool, true, false, not, ◌&&◌, ◌||◌, List, [], ◌∷◌, ◌++◌, length,
  take, drop, ltb, leb, ◌==◌, if◌then◌else◌,
}
use s3ql.Prelude.Effect.{Action, pure, raise, gets, branch, modify, ◌>>=◌, ◌>>◌}
use s3ql.Fsck.State.{Bytes, eq_bytes}
use s3ql.Comprenc.Meta.{pack, crypt}
pub mod Frames
pub mod Encrypted
pub mod Decrypted
pub mod Rounds
pub mod Room
pub mod Reads
pub mod RoundTrip
pub mod Authentic
pub mod Accepted
pub mod SignedReads
mod Tests

pub data Error : Type 0 where
  struct_error premature_end exact_size_required extraneous_data hmac_mismatch out_of_fuel : Error

-- The key stream and the HMAC of the data key, and the stream below.
pub record Env : Type 0 where
  pub stream : ℕ → ℕ → ℕ
  pub hmac : Bytes → Bytes
  pub chunk : ℕ → ℕ → ℕ

abbrev pub hmac_size : ℕ
hmac_size = 32

-- `off_size`
abbrev pub off_size : ℕ
off_size = 4

abbrev pub is_empty : Bytes → Bool
is_empty [] = true
is_empty (x ∷ s) = false

-- `EncryptFilter`: what is in `fh`, the position of `encryptor`, and what `hmac` was updated with.
pub record Writer : Type 0 where
  pub sink : Bytes
  pub position : ℕ
  pub hashed : Bytes
  pub obj_size : ℕ
  pub closed : Bool

pub record Reader : Type 0 where
  pub input : Bytes
  pub position : ℕ
  pub remaining : ℕ
  pub hmac_checked : Bool
  pub hashed : Bytes

abbrev pub M : Type 0 → Type 0
M = Action Error Reader

abbrev pub new_writer : Writer
new_writer = record { sink = []; position = 0; hashed = []; obj_size = 0; closed = false }

abbrev pub new_reader : Bytes → Reader
new_reader s = record { input = s; position = 0; remaining = 0; hmac_checked = false; hashed = [] }

-- `struct.unpack('<I', buf)[0]`
unfoldable pub unpack : Bytes → ℕ
unpack (a ∷ b ∷ c ∷ d ∷ s) = a + b * 256 + c * 65536 + d * 16777216
unpack s = 0

-- `buf2 = self.encryptor.update(buf)` and what follows it
unfoldable pub emit : Env → Bytes → Writer → Writer
unfolding crypt
emit env buf w =
    let buf2 = crypt env.stream w.position buf in
    record w {
      sink = w.sink ++ buf2;
      position = w.position + length buf;
      obj_size = w.obj_size + length buf2;
    }

abbrev pub hash_written : Bytes → Writer → Writer
hash_written buf w = record w { hashed = w.hashed ++ buf }

-- `EncryptFilter.write`
unfoldable pub write : Env → Bytes → Action Error Writer (Unit {0})
unfolding pack emit
write env data_ = branch (length data_ == 0) (pure tt) do
  branch (not (ltb (length data_) (2 ^ 32))) (raise struct_error) do
    modify (hash_written (pack (length data_) ++ data_))
    modify (emit env (pack (length data_) ++ data_))

-- `EncryptFilter.close`
unfoldable pub close : Env → Writer → Writer
unfolding pack emit
close env w =
    if w.closed
    then w
    else let w1 = hash_written (pack 0) w in
      record (emit env (pack 0 ++ env.hmac w1.hashed) w1) { closed = true }

-- The bytes that `self.fh.read(size)` gets.
unfoldable pub got : Env → ℕ → Bytes → Bytes
got env size s = take (env.chunk (length s) size) s

-- `_read_and_decrypt`
unfoldable pub read_and_decrypt : Env → ℕ → M Bytes
unfolding got crypt
read_and_decrypt env size = branch (size == 0) (raise exact_size_required) do
  buf ← gets (λ s. got env size s.input)
  branch (is_empty buf) (raise premature_end) do
    plain ← gets (λ s. crypt env.stream s.position buf)
    modify (λ s. record s { input = drop (length buf) s.input; position = s.position + length buf })
    pure plain

-- `while len(inbuf) < HMAC_SIZE`
unfoldable pub fill : Env → ℕ → Bytes → M Bytes
unfolding read_and_decrypt
fill env zero inbuf = raise out_of_fuel
fill env (suc n) inbuf =
    branch (not (ltb (length inbuf) hmac_size)) (pure inbuf)
      do buf ← read_and_decrypt env (hmac_size + 1); fill env n (inbuf ++ buf)

-- Nothing may follow the HMAC. Where something does, the rest of the stream is read and dropped.
unfoldable pub verify_digest : Env → Bytes → M (Unit {0})
unfolding eq_bytes
verify_digest env inbuf = do
  input ← gets (λ s. s.input)
  branch (ltb hmac_size (length inbuf) || not (is_empty input))
      (do modify (λ s. record s { input = [] }); raise extraneous_data)
      do
        digest ← gets (λ s. env.hmac s.hashed)
        branch (not (eq_bytes inbuf digest)) (raise hmac_mismatch)
            (modify (λ s. record s { hmac_checked = true }))

-- End of file: read and check the HMAC.
unfoldable pub check_hmac : Env → Bytes → M (Unit {0})
unfolding fill verify_digest
check_hmac env start = do
  left ← gets (λ s. length s.input)
  inbuf ← fill env (suc left) start
  verify_digest env inbuf

abbrev pub hash_read : Bytes → Reader → Reader
hash_read buf s = record s { hashed = s.hashed ++ buf }

-- The loop of `read`, a round for each number of `fuel`
unfoldable pub read_loop : Env → ℕ → ℕ → Bytes → Bytes → M Bytes
unfolding read_and_decrypt check_hmac unpack
read_loop env zero size outbuf inbuf = raise out_of_fuel
read_loop env (suc fuel) size outbuf inbuf = do
  remaining ← gets (λ s. s.remaining)
  branch (not (is_empty inbuf) && leb (length inbuf) remaining)
      (do
        modify (λ s. hash_read inbuf (record s { remaining = s.remaining - length inbuf }))
        pure (outbuf ++ inbuf))
      do
        branch (is_empty inbuf || ltb (length inbuf) (remaining + off_size))
            (do
              buf ← read_and_decrypt env (
                  if is_empty inbuf
                  then size - length outbuf
                  else remaining + off_size - length inbuf)
              read_loop env fuel size outbuf (inbuf ++ buf))
            do
              let packet = unpack (drop remaining inbuf)
              modify (λ s.
                  hash_read (take (remaining + off_size) inbuf) (record s { remaining = packet }))
              branch (packet == 0)
                  (do
                    check_hmac env (drop (remaining + off_size) inbuf)
                    pure (outbuf ++ take remaining inbuf))
                  do
                    read_loop env fuel size (outbuf ++ take remaining inbuf)
                        (drop (remaining + off_size) inbuf)

-- `DecryptFilter.read` for a size that is not -1
unfoldable pub read : Env → ℕ → M Bytes
unfolding read_loop
read env size = branch (size == 0) (pure []) do
  checked ← gets (λ s. s.hmac_checked)
  left ← gets (λ s. length s.input)
  branch checked (pure []) (read_loop env (suc (2 * left)) size [] [])

-- `readall`, with the block size that it reads
unfoldable pub read_all : Env → ℕ → ℕ → M Bytes
unfolding read
read_all env bufsize zero = raise out_of_fuel
read_all env bufsize (suc fuel) = do
  data_ ← read env bufsize
  branch (is_empty data_) (pure []) do rest ← read_all env bufsize fuel; pure (data_ ++ rest)
