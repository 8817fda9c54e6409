-- ===== src/Comprenc/Packets/Rounds.antt =====
-- One round of the loop of `DecryptFilter.read` in src/s3ql/backends/comprenc.py: what is left of the packets
-- after it.
use mathlib.Core.List.{append_assoc}
use s3ql.Prelude.{
  ℕ, suc, ◌+◌, ◌-◌, ◌^◌, ◌≤◌, ◌<◌, ◌≡◌, refl, ap, sym, ◌∙◌, false, not, ◌&&◌, ◌||◌, List, [], ◌∷◌,
  ◌++◌, arith, length, take, drop, ltb, leb, ◌==◌, All, length-append, take-length-append,
  drop-length-append,
}
use s3ql.Prelude.Effect.{pure, gets, branch, modify, ◌>>=◌}
use s3ql.Fsck.State.{Bytes}
use s3ql.Comprenc.Meta.{pack}
use s3ql.Comprenc.Packets.{
  Env, Reader, off_size, is_empty, unpack, check_hmac, hash_read, read_loop,
}
use s3ql.Comprenc.Packets.Frames.{frame, frames, IsPacket, unpack-pack, length-pack}
use s3ql.Comprenc.Packets.Decrypted.{plain, prefix, Took}

module _ (env : Env) (whole : Bytes) where
  -- What follows the current packet, without the HMAC and with it.
  abbrev pub body : List Bytes → Bytes
  body ps = frames ps ++ pack 0

  abbrev pub tail : List Bytes → Bytes
  tail ps = frames ps ++ (pack 0 ++ env.hmac whole)

  -- The reader stands in a packet of which `cur` is left, and packets follow; `inbuf` is read already.
  pub record At (s : Reader) (inbuf cur : Bytes) (ps : List Bytes) : Type 0 where
    pub left : inbuf ++ plain env s ≡ cur ++ tail ps
    pub hashed : s.hashed ++ (cur ++ body ps) ≡ whole
    pub remaining : s.remaining ≡ length cur
    pub packets : All IsPacket ps
    pub unchecked : s.hmac_checked ≡ false

  split_packet :
      (inbuf p cur : Bytes) (n : ℕ) (x : Bytes)
      → inbuf ++ p ≡ cur ++ (pack n ++ x)
      → length cur + 4 ≤ length inbuf
      → (e : Bytes) × (inbuf ≡ (cur ++ pack n) ++ e) × (x ≡ e ++ p)
  split_packet inbuf p cur n x h l =
      let (e, f, g) =
        prefix (cur ++ pack n) x inbuf p (append_assoc cur (pack n) x ∙ sym h)
          (omega (arith, l, length-append cur (pack n), length-pack n)) in
      (e, f, g)

  -- A round that goes on to the next packet, or to the end.
  pub cut_round :
      (fuel size : ℕ) (out inbuf : Bytes) (s : Reader) (cur : Bytes) (n : ℕ) (e : Bytes)
      → inbuf ≡ (cur ++ pack n) ++ e
      → s.remaining ≡ length cur
      → n < 2 ^ 32
      → (not (is_empty inbuf) && leb (length inbuf) s.remaining) ≡ false
      → (is_empty inbuf || ltb (length inbuf) (s.remaining + off_size)) ≡ false
      → read_loop env (suc fuel) size out inbuf s
        ≡ branch
            (n == 0)
            (check_hmac env e >>= λ _. pure (out ++ cur))
            (read_loop env fuel size (out ++ cur) e)
            (hash_read (cur ++ pack n) (record s { remaining = n }))
  unfolding read_loop ◌>>=◌ gets modify
  cut_round fuel size out inbuf s cur n e h r small f g =
      let size_cur : length (cur ++ pack n) ≡ s.remaining + 4 =
        omega (arith, length-append cur (pack n), length-pack n, r) in
      let header : take (s.remaining + 4) inbuf ≡ cur ++ pack n =
        ap (λ k. take k inbuf) (sym size_cur)
        ∙ ap (take (length (cur ++ pack n))) h
        ∙ take-length-append (cur ++ pack n) e in
      let after : drop (s.remaining + 4) inbuf ≡ e =
        ap (λ k. drop k inbuf) (sym size_cur)
        ∙ ap (drop (length (cur ++ pack n))) h
        ∙ drop-length-append (cur ++ pack n) e in
      let h2 : inbuf ≡ cur ++ (pack n ++ e) = h ∙ append_assoc cur (pack n) e in
      let rest : take s.remaining inbuf ≡ cur =
        ap (λ k. take k inbuf) r
        ∙ ap (take (length cur)) h2
        ∙ take-length-append cur (pack n ++ e) in
      let number : unpack (drop s.remaining inbuf) ≡ n =
        ap unpack (
          ap (λ k. drop k inbuf) r
          ∙ ap (drop (length cur)) h2
          ∙ drop-length-append cur (pack n ++ e))
        ∙ unpack-pack n e small in
      rw (f, g, number, header, after, rest) refl

  -- A round that returns a part of the packet.
  pub part :
      (s : Reader) (inbuf cur : Bytes) (ps : List Bytes)
      → At s inbuf cur ps
      → length inbuf ≤ length cur
      → (rest : Bytes) × (cur ≡ inbuf ++ rest)
        × At (hash_read inbuf (record s { remaining = s.remaining - length inbuf })) [] rest ps
  unfolding plain
  part s inbuf cur ps at l =
      let (rest, e, f) = prefix inbuf (plain env s) cur (tail ps) at.left l in
      (
        rest,
        e,
        record {
          left = f;
          hashed =
              append_assoc s.hashed inbuf (rest ++ body ps)
              ∙ ap (λ c. s.hashed ++ c)
                  (sym (append_assoc inbuf rest (body ps)) ∙ ap (λ c. c ++ body ps) (sym e))
              ∙ at.hashed;
          remaining = omega (arith, at.remaining, ap length e, length-append inbuf rest);
          packets = at.packets;
          unchecked = at.unchecked;
        },
      )

  -- A round that reads.
  pub read-At :
      (s t : Reader) (inbuf buf cur : Bytes) (ps : List Bytes)
      → At s inbuf cur ps
      → Took env s t buf
      → At t (inbuf ++ buf) cur ps
  read-At s t inbuf buf cur ps at took = record {
    left = append_assoc inbuf buf (plain env t) ∙ ap (λ c. inbuf ++ c) took.all ∙ at.left;
    hashed = ap (λ c. c ++ (cur ++ body ps)) took.hashed ∙ at.hashed;
    remaining = took.remaining ∙ at.remaining;
    packets = at.packets;
    unchecked = took.hmac_checked ∙ at.unchecked;
  }

  -- The next packet becomes the current one.
  pub next_packet :
      (s : Reader) (inbuf cur d : Bytes) (ps : List Bytes)
      → At s inbuf cur (d ∷ ps)
      → length cur + 4 ≤ length inbuf
      → (e : Bytes) × (inbuf ≡ (cur ++ pack (length d)) ++ e)
        × At (hash_read (cur ++ pack (length d)) (record s { remaining = length d })) e d ps
  unfolding plain
  next_packet s inbuf cur d ps at l =
      let n : ℕ = length d in
      let shape : (mac : Bytes) → frames (d ∷ ps) ++ mac ≡ pack n ++ (d ++ (frames ps ++ mac)) =
        λ mac.
          append_assoc (frame d) (frames ps) mac ∙ append_assoc (pack n) d (frames ps ++ mac) in
      let (e, f, g) =
        split_packet inbuf (plain env s) cur n (d ++ tail ps)
          (at.left ∙ ap (λ c. cur ++ c) (shape (pack 0 ++ env.hmac whole))) l in
      (
        e,
        f,
        record {
          left = sym g;
          hashed =
              append_assoc s.hashed (cur ++ pack n) (d ++ body ps)
              ∙ ap (λ c. s.hashed ++ c)
                  (append_assoc cur (pack n) (d ++ body ps)
                    ∙ ap (λ c. cur ++ c) (sym (shape (pack 0))))
              ∙ at.hashed;
          remaining = refl;
          packets = at.packets.1;
          unchecked = at.unchecked;
        },
      )

  -- After the last packet the HMAC is left, and it is that of what was read.
  pub last_packet :
      (s : Reader) (inbuf cur : Bytes)
      → At s inbuf cur []
      → length cur + 4 ≤ length inbuf
      → let t = hash_read (cur ++ pack 0) (record s { remaining = 0 }) in
        (e : Bytes) × (inbuf ≡ (cur ++ pack 0) ++ e)
        × (e ++ plain env t ≡ env.hmac t.hashed)
        × (t.hashed ≡ whole)
  unfolding plain
  last_packet s inbuf cur at l =
      let (e, f, g) = split_packet inbuf (plain env s) cur 0 (env.hmac whole) at.left l in
      (e, f, sym g ∙ ap env.hmac (sym at.hashed), at.hashed)
