-- ===== src/Comprenc/Packets/Tests.antt =====
-- Witnesses for the theorems on `EncryptFilter` and `DecryptFilter` of src/s3ql/backends/comprenc.py, with a
-- stream that gets three bytes at a time.
use s3ql.Prelude.{
  ℕ, ◌≡◌, refl, true, List, [], ◌∷◌, ◌++◌, arith, length, min, ◌==◌, if◌then◌else◌,
  length-replicate, replicate,
}
use s3ql.Prelude.Effect.{returned, ◌>>=◌}
use s3ql.Fsck.State.{Bytes}
use s3ql.Comprenc.Meta.{pack, crypt}
use s3ql.Comprenc.Packets.{Env, Reader, new_writer, new_reader, close, read, read_all}
use s3ql.Comprenc.Packets.Encrypted.{write_all}
use s3ql.Comprenc.Packets.Decrypted.{IsStream, plain}
use s3ql.Comprenc.Packets.Rounds.{At}
use s3ql.Comprenc.Packets.Reads.{IsRead, read-IsRead}
use s3ql.Comprenc.Packets.RoundTrip.{read_all-write_all}
use s3ql.Comprenc.Packets.SignedReads.{read_all-returned}

abbrev env : Env
env = record {
  stream = λ pos x. if x == 0 then 1 else if x == 1 then 0 else x;
  hmac = λ s. replicate 32 (length s);
  chunk = λ left size. min size 3;
}

env-IsStream : IsStream env
env-IsStream left size l h = (omega (arith, h), omega arith)

env-twice : (pos x : ℕ) → env.stream pos (env.stream pos x) ≡ x
env-twice pos x = ground arith

abbrev pieces : List Bytes
pieces = (1 ∷ 2 ∷ 3 ∷ []) ∷ [] ∷ (4 ∷ 5 ∷ []) ∷ []

-- Three writes, one of them without data, and reads of two bytes each.
read_all-write_all_example :
    let (r, w) = write_all env pieces new_writer in
    let object = close env w in
    (t : Reader) × (r ≡ returned tt)
    × (object.obj_size ≡ length object.sink)
    × (read_all env 2 6 (new_reader object.sink) ≡ (returned (1 ∷ 2 ∷ 3 ∷ 4 ∷ 5 ∷ []), t))
    × (t.hmac_checked ≡ true)
read_all-write_all_example =
    read_all-write_all env pieces 2 env-IsStream env-twice (λ s. length-replicate 32 (length s))
      (omega arith, (omega arith, (omega arith, tt))) (omega arith)

abbrev whole : Bytes
whole = 3 ∷ 0 ∷ 0 ∷ 0 ∷ 1 ∷ 2 ∷ 3 ∷ 0 ∷ 0 ∷ 0 ∷ 0 ∷ []

abbrev start : Reader
start = new_reader (crypt env.stream 0 (whole ++ env.hmac whole))

start-At : At env whole start [] [] ((1 ∷ 2 ∷ 3 ∷ []) ∷ [])
unfolding plain crypt pack
start-At = record {
  left = refl;
  hashed = refl;
  remaining = refl;
  packets = ((omega arith, omega arith), tt);
  unchecked = refl;
}

-- The first bytes of a packet of three.
read-IsRead_example :
    (got : Bytes) × (t : Reader) × (read env 2 start ≡ (returned got, t))
    × IsRead env whole 2 (1 ∷ 2 ∷ 3 ∷ []) got t
read-IsRead_example =
    read-IsRead env whole 2 start [] ((1 ∷ 2 ∷ 3 ∷ []) ∷ []) env-IsStream
      (length-replicate 32 (length whole)) (omega arith) start-At

abbrev end : Reader
end = (read_all env 2 6 start).1

start-read : read_all env 2 6 start ≡ (returned (1 ∷ 2 ∷ 3 ∷ []), end)
unfolding read_all ◌>>=◌
start-read = refl

read_all-returned_example :
    (crypt env.stream 0 start.input ≡ end.hashed ++ env.hmac end.hashed) × (end.hmac_checked ≡ true)
read_all-returned_example =
    read_all-returned env start.input (1 ∷ 2 ∷ 3 ∷ []) 2 6 end (omega arith) start-read
