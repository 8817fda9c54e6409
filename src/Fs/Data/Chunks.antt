-- ===== src/Fs/Data/Chunks.antt =====
-- What a round of the loop of `read` in src/s3ql/fs.py reads, and what all of them read.
use native.Mathlib.Nat.{mod-add-div', mod-lt}
use s3ql.Prelude.{
  ℕ, zero, suc, ◌+◌, ◌-◌, ◌*◌, ◌/◌, ◌%◌, ◌≤◌, ◌<◌, ◌≡◌, refl, sym, ap, ◌∙◌, List, [], ◌∷◌, ◌++◌,
  Option, none, some, inl, inr, arith, length, take, drop, replicate, get_elem?, ltb, ◌==◌,
  Bool-cases, length-take, length-drop, length-append, length-replicate, get_elem?-take,
  get_elem?-drop, get_elem?-append, get_elem?-replicate,
}
use s3ql.Prelude.Effect.{returned, branch, gets, catch, pure, modify, ◌>>=◌}
use s3ql.BlockCache.Entry
use s3ql.BlockCache.Entry.{put_bytes, open_entry, seek}
use s3ql.BlockCache.Entry.Contents.{offset-seek, bytes-seek}
use s3ql.BlockCache.State.{member}
use s3ql.Fs.State.{Error, Fs, Env}
use s3ql.Fs.Data.{put_block, on_block, cache_get, fitting, access_block, read_some, read_loop}
use s3ql.Fs.Data.Bytes.{file_byte, byte_at, block_of, get_elem?-above}
use s3ql.Fs.Data.Write.{opened-IsConsistent}

pub get_elem?-below :
    (xs : List ℕ) (i : ℕ) → i < length xs → get_elem? xs i ≡ some (byte_at (get_elem? xs i))
get_elem?-below [] i h = absurd (omega arith)
get_elem?-below (x ∷ xs) zero h = refl
get_elem?-below (x ∷ xs) (suc i) h = get_elem?-below xs i (omega arith)

-- n bytes from an offset of a block, with null bytes for those that are missing.
abbrev padded : ℕ → ℕ → List ℕ → List ℕ
padded off n bytes = let buf = take n (drop off bytes) in buf ++ replicate (n - length buf) 0

length-padded : (off n : ℕ) (bytes : List ℕ) → length (padded off n bytes) ≡ n
length-padded off n bytes =
    let buf = take n (drop off bytes) in
    ground (
      arith,
      length-append buf (replicate (n - length buf) 0),
      length-replicate {A = ℕ} (n - length buf) 0,
      length-take n (drop off bytes),
    )

get_elem?-padded :
    (off n : ℕ) (bytes : List ℕ) (k : ℕ)
    → k < n
    → get_elem? (padded off n bytes) k ≡ some (byte_at (get_elem? bytes (off + k)))
get_elem?-padded off n bytes k lt =
    let buf = take n (drop off bytes) in
    ground (
      arith,
      lt,
      get_elem?-append buf (replicate (n - length buf) 0) k,
      get_elem?-replicate {A = ℕ} (n - length buf) (k - length buf) 0,
      length-take n (drop off bytes),
      length-drop off bytes,
      get_elem?-take n k (drop off bytes),
      get_elem?-drop off k bytes,
      get_elem?-below bytes (off + k),
      get_elem?-above bytes (off + k),
    )

entry-read :
    (id b off n : ℕ) (bytes : List ℕ)
    → (Entry.read (seek (open_entry id b bytes) off) (some n)).0 ≡ take n (drop off bytes)
unfolding Entry.read open_entry
entry-read id b off n bytes =
    rw
      (
        offset-seek (open_entry id b bytes) off (opened-IsConsistent id b bytes),
        bytes-seek (open_entry id b bytes) off,
      )
      refl

bytes-entry-read :
    (id b off n : ℕ) (bytes : List ℕ)
    → (Entry.read (seek (open_entry id b bytes) off) (some n)).1.bytes ≡ bytes
unfolding Entry.read open_entry
bytes-entry-read id b off n bytes = bytes-seek (open_entry id b bytes) off

module _ (env : Env) (fault : ℕ → ℕ → Fs → Option Error) (id : ℕ)
    (sound : (b : ℕ) (s : Fs) → fault id b s ≡ none) where
  -- A round reads the block's file, and puts it back as it was.
  after_read : ℕ → Fs → Fs
  after_read offset s = let b = offset / env.max_obj_size in put_block id b (s.blocks id b) s

  abbrev chunk : ℕ → ℕ → Fs → List ℕ
  chunk offset want s =
      let b = offset / env.max_obj_size in
      padded (offset - b * env.max_obj_size) (fitting env offset want) (s.blocks id b)

  read_some_lem :
      (offset want : ℕ) (s : Fs)
      → s.broken_blocks id ≡ []
      → read_some env fault id offset want s ≡ (returned (chunk offset want s), after_read offset s)
  unfolding read_some access_block cache_get on_block member after_read branch gets catch pure
      modify ◌>>=◌
  read_some_lem offset want s whole =
      let b = offset / env.max_obj_size in
      let off = offset - b * env.max_obj_size in
      let n = fitting env offset want in
      rw
        (
          whole,
          sound b s,
          entry-read id b off n (s.blocks id b),
          bytes-entry-read id b off n (s.blocks id b),
        )
        refl

  byte-after_read :
      (offset i : ℕ) (s : Fs)
      → file_byte env.max_obj_size id i (after_read offset s) ≡ file_byte env.max_obj_size id i s
  unfolding after_read put_block
  byte-after_read offset i s =
      elim (Bool-cases (offset / env.max_obj_size == i / env.max_obj_size)) [
        | inl e ↦
            let same : offset / env.max_obj_size ≡ i / env.max_obj_size = ground (arith, e) in
            ground (arith, e, ap (s.blocks id) same)
        | inr e ↦ ground (arith, e)
      ]

  module _ (pos : 0 < env.max_obj_size) where
    get_elem?-chunk :
        (offset want k : ℕ) (s : Fs)
        → k < fitting env offset want
        → get_elem? (chunk offset want s) k ≡ some (file_byte env.max_obj_size id (offset + k) s)
    get_elem?-chunk offset want k s lt =
        let b = offset / env.max_obj_size in
        let start = mod-add-div' offset env.max_obj_size in
        let within = mod-lt offset pos in
        let same =
          block_of env.max_obj_size b (offset + k) (ground (arith, start))
            (ground (arith, start, within, lt)) in
        let at = mod-add-div' (offset + k) env.max_obj_size in
        let index : offset - b * env.max_obj_size + k ≡ (offset + k) % env.max_obj_size =
          ground (arith, start, at, ap (λ q. q * env.max_obj_size) same) in
        get_elem?-padded (offset - b * env.max_obj_size) (fitting env offset want) (s.blocks id b) k
          lt
        ∙ ap (λ j. some (byte_at (get_elem? (s.blocks id b) j))) index
        ∙ ap (λ c. some (byte_at (get_elem? (s.blocks id c) ((offset + k) % env.max_obj_size))))
            (sym same)

    -- How a loop that has read `buf` at `offset` ends.
    pub record IsRead (offset want : ℕ) (buf : List ℕ) (s t : Fs) : Type 0 where
      pub size : length buf ≡ want
      pub read :
          (k : ℕ) → k < want → get_elem? buf k ≡ some (file_byte env.max_obj_size id (offset + k) s)
      pub bytes : (i : ℕ) → file_byte env.max_obj_size id i t ≡ file_byte env.max_obj_size id i s
      pub inodes : t.inodes ≡ s.inodes

    join-IsRead :
        (offset want n : ℕ) (buf rest : List ℕ) (s s' t : Fs)
        → n ≤ want
        → length buf ≡ n
        → ((k : ℕ) → k < n → get_elem? buf k ≡ some (file_byte env.max_obj_size id (offset + k) s))
        → ((i : ℕ) → file_byte env.max_obj_size id i s' ≡ file_byte env.max_obj_size id i s)
        → s'.inodes ≡ s.inodes
        → IsRead (offset + n) (want - n) rest s' t
        → IsRead offset want (buf ++ rest) s t
    join-IsRead offset want n buf rest s s' t le size first same inodes done = record {
      size = ground (arith, length-append buf rest, size, le, done.size);
      read = λ k lt. get_elem?-append buf rest k ∙ elim (Bool-cases (ltb k n)) [
        | inl q ↦ rw size (rw q (first k (ground (arith, q))))
        | inr q ↦
            let index : offset + n + (k - n) ≡ offset + k = ground (arith, q) in
            rw size (
              rw q (
                done.read (k - n) (ground (arith, q, lt))
                ∙ ap some (same (offset + n + (k - n)))
                ∙ ap (λ i. some (file_byte env.max_obj_size id i s)) index))
      ];
      bytes = λ i. done.bytes i ∙ same i;
      inodes = done.inodes ∙ inodes;
    }

    fitting-le : (offset want : ℕ) → fitting env offset want ≤ want
    fitting-le offset want = ground arith

    fitting-some : (offset want : ℕ) → 0 < fitting env offset (suc want)
    fitting-some offset want =
        ground (arith, mod-add-div' offset env.max_obj_size, mod-lt offset pos)

    length-chunk :
        (offset want : ℕ) (s : Fs) → length (chunk offset want s) ≡ fitting env offset want
    length-chunk offset want s =
        let b = offset / env.max_obj_size in
        length-padded (offset - b * env.max_obj_size) (fitting env offset want) (s.blocks id b)

    pub read_loop_lem :
        (fuel offset want : ℕ) (s : Fs)
        → want ≤ fuel
        → s.broken_blocks id ≡ []
        → (buf : List ℕ) × (t : Fs) × (read_loop env fault fuel id offset want s
            ≡ (returned buf, t))
          × IsRead offset want buf s t
    unfolding read_loop after_read put_block pure ◌>>=◌
    read_loop_lem fuel offset zero s le w = (
      [],
      s,
      refl,
      record { size = refl; read = λ k lt. absurd (omega arith); bytes = λ i. refl; inodes = refl },
    )
    read_loop_lem zero offset (suc want) s le w = absurd (omega arith)
    read_loop_lem (suc fuel) offset (suc want) s le w =
        let n = fitting env offset (suc want) in
        let buf = chunk offset (suc want) s in
        let size = length-chunk offset (suc want) s in
        let (rest, t, later, done) =
          read_loop_lem fuel (offset + length buf) (suc want - length buf) (after_read offset s)
            (ground (arith, fitting-some offset want, size, le)) w in
        (
          buf ++ rest,
          t,
          rw (read_some_lem offset (suc want) s w) (rw later refl),
          join-IsRead offset (suc want) (length buf) buf rest s (after_read offset s) t
              (ground (arith, fitting-le offset (suc want), size)) refl
              (λ k lt. get_elem?-chunk offset (suc want) k s (ground (arith, lt, size)))
              (λ i. byte-after_read offset i s) refl done,
        )
