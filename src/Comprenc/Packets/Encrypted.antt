-- ===== src/Comprenc/Packets/Encrypted.antt =====
-- What `EncryptFilter` of src/s3ql/backends/comprenc.py makes of the data that is written to it.
use mathlib.Core.List.{append-nil, append_assoc}
use s3ql.Prelude.{
  ◌+◌, ◌^◌, ◌<◌, ◌≡◌, refl, ap, sym, ◌∙◌, true, false, List, [], ◌∷◌, ◌++◌, arith, length, ltb,
  ◌==◌, All, length-append,
}
use s3ql.Prelude.Effect.{Action, returned, pure, branch, modify, ◌>>=◌, ◌>>◌}
use s3ql.Fsck.State.{Bytes}
use s3ql.Comprenc.Meta.{pack, crypt}
use s3ql.Comprenc.Packets.{Error, Env, Writer, new_writer, emit, hash_written, write, close}
use s3ql.Comprenc.Packets.Frames.{frame, frames, IsPacket, length-crypt, crypt-append}

-- The data that a client writes, one call after the other.
unfoldable pub write_all : Env → List Bytes → Action Error Writer (Unit {0})
unfolding write
write_all env [] = pure tt
write_all env (d ∷ ds) = do write env d; write_all env ds

-- No packet is made of a write without data.
abbrev pub packets : List Bytes → List Bytes
packets [] = []
packets ([] ∷ ds) = packets ds
packets ((x ∷ d) ∷ ds) = (x ∷ d) ∷ packets ds

abbrev pub IsShort : Bytes → Type 0
IsShort d = length d < 2 ^ 32

pub packets-IsPacket : (ds : List Bytes) → All IsShort ds → All IsPacket (packets ds)
packets-IsPacket [] h = tt
packets-IsPacket ([] ∷ ds) (h, hs) = packets-IsPacket ds hs
packets-IsPacket ((x ∷ d) ∷ ds) (h, hs) = ((omega arith, h), packets-IsPacket ds hs)

-- The object, and its length.
abbrev pub encrypted : Env → List Bytes → Bytes
encrypted env ps = let body = frames ps ++ pack 0 in crypt env.stream 0 (body ++ env.hmac body)

writer_eq :
    (v w : Writer)
    → v.sink ≡ w.sink
    → v.position ≡ w.position
    → v.hashed ≡ w.hashed
    → v.obj_size ≡ w.obj_size
    → v.closed ≡ w.closed
    → v ≡ w
writer_eq v w a b c d e =
    let same : record {
      sink = v.sink;
      position = v.position;
      hashed = v.hashed;
      obj_size = v.obj_size;
      closed = v.closed;
    }
        ≡ record {
          sink = w.sink;
          position = w.position;
          hashed = w.hashed;
          obj_size = w.obj_size;
          closed = w.closed;
        } =
      rw (a, b, c, d, e) refl in
    same

module _ (env : Env) where
  abbrev put_all : Bytes → Writer → Writer
  put_all buf w = emit env buf (hash_written buf w)

  put_all-nil : (w : Writer) → put_all [] w ≡ w
  unfolding emit crypt
  put_all-nil w =
      writer_eq (put_all [] w) w (append-nil w.sink) (omega arith) (append-nil w.hashed)
        (omega arith) refl

  put_all-append : (s t : Bytes) (w : Writer) → put_all t (put_all s w) ≡ put_all (s ++ t) w
  unfolding emit
  put_all-append s t w =
      let first : Bytes = crypt env.stream w.position s in
      let second : Bytes = crypt env.stream (w.position + length s) t in
      writer_eq (put_all t (put_all s w)) (put_all (s ++ t) w)
        (append_assoc w.sink first second
          ∙ ap (λ c. w.sink ++ c) (sym (crypt-append env.stream w.position s t)))
        (omega (arith, length-append s t)) (append_assoc w.hashed s t)
        (omega (
          arith,
          length-append s t,
          length-crypt env.stream w.position s,
          length-crypt env.stream (w.position + length s) t,
          length-crypt env.stream w.position (s ++ t),
        ))
        refl

  write_all_lem :
      (ds : List Bytes) (w : Writer)
      → All IsShort ds
      → write_all env ds w ≡ (returned tt, put_all (frames (packets ds)) w)
  unfolding write_all write branch pure modify ◌>>=◌
  write_all_lem [] w h = ap (λ v. (returned tt, v)) (sym (put_all-nil w))
  write_all_lem ([] ∷ ds) w (h, hs) = write_all_lem ds w hs
  write_all_lem ((x ∷ d) ∷ ds) w (h, hs) =
      let short : ltb (length (x ∷ d)) (2 ^ 32) ≡ true = ground (arith, h) in
      let after : Writer = put_all (frame (x ∷ d)) w in
      let rest : write_all env ds after ≡ (returned tt, put_all (frames (packets ds)) after) =
        write_all_lem ds after hs in
      let some_data : (length (x ∷ d) == 0) ≡ false = ground arith in
      rw (some_data, short)
        (rest ∙ ap (λ v. (returned tt, v)) (put_all-append (frame (x ∷ d)) (frames (packets ds)) w))

  -- With writes of less than 2^32 bytes each: no call fails, and after `close` the object is the encrypted
  -- packets of the writes that have data, an empty packet, and the HMAC of all of these; its length is obj_size.
  pub close_lem :
      (ds : List Bytes)
      → All IsShort ds
      → let (r, w) = write_all env ds new_writer in
        let c = close env w in
        (r ≡ returned tt)
        × (c.sink ≡ encrypted env (packets ds))
        × (c.obj_size ≡ length c.sink)
        × (c.closed ≡ true)
        × (close env c ≡ c)
  unfolding close emit
  close_lem ds h =
      let fs : Bytes = frames (packets ds) in
      let mac : Bytes = env.hmac (fs ++ pack 0) in
      let first : Bytes = crypt env.stream 0 fs in
      let second : Bytes = crypt env.stream (0 + length fs) (pack 0 ++ mac) in
      let run : write_all env ds new_writer ≡ (returned tt, put_all fs new_writer) =
        write_all_lem ds new_writer h in
      let sink : first ++ second ≡ encrypted env (packets ds) = sym (
        ap (λ c. crypt env.stream 0 c) (append_assoc fs (pack 0) mac)
        ∙ crypt-append env.stream 0 fs (pack 0 ++ mac)) in
      let size : 0 + length first + length second ≡ length (first ++ second) =
        omega (arith, length-append first second) in
      rw run (refl, sink, size, refl, refl)
