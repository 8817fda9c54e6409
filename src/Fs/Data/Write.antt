-- ===== src/Fs/Data/Write.antt =====
-- What `write` of src/s3ql/fs.py makes of the bytes of a file, across blocks.
use native.Mathlib.Nat.{mod-add-div', mod-lt}
use s3ql.Prelude.{
  ℕ, zero, suc, ◌+◌, ◌-◌, ◌*◌, ◌/◌, ◌≤◌, ◌<◌, ◌≡◌, refl, ap, ◌∙◌, List, [], ◌∷◌, Option, none, inl,
  inr, arith, length, take, drop, get_elem?, leb, Bool-cases, length-take, length-drop,
  get_elem?-take, get_elem?-drop,
}
use s3ql.Prelude.Effect.{returned, branch, gets, catch, pure, modify, bind_returned, ◌>>=◌}
use s3ql.BlockCache.Entry
use s3ql.BlockCache.Entry.{put_bytes, open_entry, seek}
use s3ql.BlockCache.Entry.Contents.{IsConsistent, offset-seek, bytes-seek}
use s3ql.BlockCache.State.{member}
use s3ql.Fs.State.{Error, Fs, Env}
use s3ql.Fs.Data.{put_block, on_block, cache_get, fitting, access_block, write_some, write_loop}
use s3ql.Fs.Data.Bytes.{file_byte, overwritten, byte-put_block}

pub opened-IsConsistent : (id b : ℕ) (bytes : List ℕ) → IsConsistent (open_entry id b bytes)
unfolding open_entry
opened-IsConsistent id b bytes = record { pos = refl; size = refl }

bytes-write :
    (id b off : ℕ) (bytes buf : List ℕ)
    → (Entry.write (seek (open_entry id b bytes) off) buf 0).bytes ≡ put_bytes bytes off buf
unfolding Entry.write open_entry
bytes-write id b off bytes buf =
    rw
      (
        offset-seek (open_entry id b bytes) off (opened-IsConsistent id b bytes),
        bytes-seek (open_entry id b bytes) off,
      )
      refl

-- Two writes that follow each other are one.
overwritten-split :
    (offset n : ℕ) (buf : List ℕ) (i old : ℕ)
    → n ≤ length buf
    → overwritten (offset + n) (drop n buf) i (overwritten offset (take n buf) i old)
      ≡ overwritten offset buf i old
overwritten-split offset n buf i old le = elim (Bool-cases (leb (offset + n) i)) [
  | inl q ↦
      let index : n + (i - (offset + n)) ≡ i - offset = ground (arith, q) in
      ground (
        arith,
        q,
        ap (get_elem? buf) index,
        length-take n buf,
        length-drop n buf,
        get_elem?-drop n (i - (offset + n)) buf,
      )
  | inr q ↦
      ground (arith, q, length-take n buf, length-drop n buf, get_elem?-take n (i - offset) buf)
]

-- The block cache finds every block of the file.
module _ (env : Env) (fault : ℕ → ℕ → Fs → Option Error) (id : ℕ)
    (sound : (b : ℕ) (s : Fs) → fault id b s ≡ none) where
  -- What one round of the loop writes.
  after_some : ℕ → List ℕ → Fs → Fs
  after_some offset buf s =
      let b = offset / env.max_obj_size in
      put_block id b
        (put_bytes (s.blocks id b) (offset - b * env.max_obj_size)
          (take (fitting env offset (length buf)) buf))
        s

  write_some_lem :
      (offset : ℕ) (buf : List ℕ) (s : Fs)
      → s.broken_blocks id ≡ []
      → write_some env fault id offset buf s
        ≡ (returned (fitting env offset (length buf)), after_some offset buf s)
  unfolding write_some access_block cache_get on_block member after_some branch gets catch pure
      modify ◌>>=◌
  write_some_lem offset buf s whole =
      let b = offset / env.max_obj_size in
      let n = fitting env offset (length buf) in
      let written = bytes-write id b (offset - b * env.max_obj_size) (s.blocks id b) (take n buf) in
      rw (whole, sound b s) (ap (λ c. (returned n, put_block id b c s)) written)

  module _ (pos : 0 < env.max_obj_size) where
    fitting-pos : (offset n : ℕ) → 0 < n → 0 < fitting env offset n
    fitting-pos offset n h = ground (arith, mod-add-div' offset env.max_obj_size, mod-lt offset pos)

    byte-after_some :
        (offset x : ℕ) (buf : List ℕ) (s : Fs) (i : ℕ)
        → file_byte env.max_obj_size id i (after_some offset (x ∷ buf) s)
          ≡ overwritten offset
              (take (fitting env offset (length (x ∷ buf))) (x ∷ buf))
              i
              (file_byte env.max_obj_size id i s)
    unfolding after_some
    byte-after_some offset x buf s i =
        let n = fitting env offset (length (x ∷ buf)) in
        let some_bytes = fitting-pos offset (length (x ∷ buf)) (omega arith) in
        let size = length-take n (x ∷ buf) in
        let start = mod-add-div' offset env.max_obj_size in
        let within = mod-lt offset pos in
        byte-put_block env.max_obj_size id offset (take n (x ∷ buf)) s pos
          (λ e. let none_left = ap length e in ground (arith, some_bytes, size, none_left)) i
          (ground (arith, size, start, within))

    -- How a loop that has written `buf` at `offset` ends.
    pub record IsWritten (offset : ℕ) (buf : List ℕ) (s t : Fs) : Type 0 where
      pub bytes :
          (i : ℕ)
          → file_byte env.max_obj_size id i t
            ≡ overwritten offset buf i (file_byte env.max_obj_size id i s)
      pub whole : t.broken_blocks id ≡ []
      pub inodes : t.inodes ≡ s.inodes

    pub write_loop_lem :
        (fuel offset : ℕ) (buf : List ℕ) (s : Fs)
        → length buf ≤ fuel
        → s.broken_blocks id ≡ []
        → (t : Fs) × (write_loop env fault fuel id offset buf s ≡ (returned tt, t))
          × IsWritten offset buf s t
    unfolding write_loop after_some put_block pure
    write_loop_lem fuel offset [] s le w =
        (s, refl, record { bytes = λ i. ground arith; whole = w; inodes = refl })
    write_loop_lem zero offset (x ∷ buf) s le w = absurd (omega arith)
    write_loop_lem (suc fuel) offset (x ∷ buf) s le w =
        let n = fitting env offset (length (x ∷ buf)) in
        let some_bytes = fitting-pos offset (length (x ∷ buf)) (omega arith) in
        let step = write_some_lem offset (x ∷ buf) s w in
        let (t, rest, done) =
          write_loop_lem fuel (offset + n) (drop n (x ∷ buf)) (after_some offset (x ∷ buf) s)
            (ground (arith, length-drop n (x ∷ buf), some_bytes, le)) w in
        (
          t,
          bind_returned (write_some env fault id offset (x ∷ buf)) _ s n (ap (λ p. p.0) step)
              ∙ ap (λ p. write_loop env fault fuel id (offset + n) (drop n (x ∷ buf)) p.1) step
              ∙ rest,
          record {
            bytes = λ i.
                done.bytes i
                ∙ ap (overwritten (offset + n) (drop n (x ∷ buf)) i)
                    (byte-after_some offset x buf s i)
                ∙ overwritten-split offset n (x ∷ buf) i _ (ground arith);
            whole = done.whole;
            inodes = done.inodes;
          },
        )
