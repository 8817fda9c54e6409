-- ===== src/BlockCache/Entry/Contents.antt =====
-- What reads, writes and truncations of a `CacheEntry` do to its bytes, and that `size` and `pos`
-- say what the file says.
use mathlib.Core.Path.{subst}
use s3ql.Prelude.{
  ℕ, ◌+◌, ◌-◌, ◌≡◌, ◌≢◌, refl, List, [], ◌∷◌, ◌++◌, Option, none, some, max, arith, ltb,
  if◌then◌else◌, length, take, drop, replicate, get_elem?, length-append, length-take, length-drop,
  length-replicate, get_elem?-append, get_elem?-take, get_elem?-drop, get_elem?-replicate,
  take-length-append, drop-length-append,
}
use s3ql.BlockCache.Entry.{CacheEntry, resize, put_bytes, read, seek, truncate, write}

pub record IsConsistent (el : CacheEntry) : Type 0 where
  pub size : el.size ≡ length el.bytes
  pub pos : el.pos ≡ el.offset

pub length-resize : (n : ℕ) (bytes : List ℕ) → length (resize n bytes) ≡ n
unfolding resize
length-resize n bytes = omega (
  arith,
  length-take n (bytes ++ replicate (n - length bytes) 0),
  length-append bytes (replicate (n - length bytes) 0),
  length-replicate {0} {A = ℕ} (n - length bytes) 0,
)

pub length-put_bytes :
    (bytes : List ℕ) (off : ℕ) (buf : List ℕ)
    → buf ≢ []
    → length (put_bytes bytes off buf) ≡ max (off + length buf) (length bytes)
unfolding put_bytes
length-put_bytes bytes off [] h = absurd (h refl)
length-put_bytes bytes off (b ∷ buf) h = omega (
  arith,
  length-append (resize off bytes) ((b ∷ buf) ++ drop (off + length (b ∷ buf)) bytes),
  length-resize off bytes,
  length-append (b ∷ buf) (drop (off + length (b ∷ buf)) bytes),
  length-drop (off + length (b ∷ buf)) bytes,
)

pub read-IsConsistent :
    (el : CacheEntry) (n : Option ℕ) → IsConsistent el → IsConsistent (read el n).1
unfolding read
read-IsConsistent el none h = ground arith
read-IsConsistent el (some n) h = ground arith

pub seek-IsConsistent : (el : CacheEntry) (off : ℕ) → IsConsistent el → IsConsistent (seek el off)
unfolding seek
seek-IsConsistent el off h = ground arith

pub truncate-IsConsistent :
    (el : CacheEntry) (n : Option ℕ) → IsConsistent el → IsConsistent (truncate el n)
unfolding truncate
truncate-IsConsistent el none h = record {
  size = omega (arith, length-resize el.offset el.bytes, h.pos);
  pos = h.pos;
}
truncate-IsConsistent el (some n) h = record {
  size = omega (arith, length-resize n el.bytes);
  pos = h.pos;
}

pub write-IsConsistent :
    (el : CacheEntry) (buf : List ℕ) (now : ℕ)
    → buf ≢ []
    → IsConsistent el
    → IsConsistent (write el buf now)
unfolding write
write-IsConsistent el buf now h c = record {
  size = omega (arith, length-put_bytes el.bytes el.offset buf h, c.size, c.pos);
  pos = omega (arith, c.pos);
}

-- A byte of a file after a write: before the offset the old byte, or a zero in a gap; then the
-- bytes that were written; after them the old byte.
abbrev pub byte_after : List ℕ → ℕ → List ℕ → ℕ → Option ℕ
byte_after bytes off buf i =
    if ltb i off
    then (if ltb i (length bytes) then get_elem? bytes i else some 0)
    else if ltb i (off + length buf)
    then get_elem? buf (i - off)
    else get_elem? bytes i

get_elem?-resize :
    (n : ℕ) (bytes : List ℕ) (i : ℕ)
    → get_elem? (resize n bytes) i
      ≡ (if ltb i n then (if ltb i (length bytes) then get_elem? bytes i else some 0) else none)
unfolding resize
get_elem?-resize n bytes i = ground (
  arith,
  get_elem?-take n i (bytes ++ replicate (n - length bytes) 0),
  get_elem?-append bytes (replicate (n - length bytes) 0) i,
  get_elem?-replicate {A = ℕ} (n - length bytes) (i - length bytes) 0,
)

pub put_bytes_lem :
    (bytes : List ℕ) (off : ℕ) (buf : List ℕ) (i : ℕ)
    → buf ≢ []
    → get_elem? (put_bytes bytes off buf) i ≡ byte_after bytes off buf i
unfolding put_bytes
put_bytes_lem bytes off [] i h = absurd (h refl)
put_bytes_lem bytes off (b ∷ buf) i h =
    let new : List ℕ = b ∷ buf in
    let rest = drop (off + length new) bytes in
    ground (
      arith,
      get_elem?-append (resize off bytes) (new ++ rest) i,
      length-resize off bytes,
      get_elem?-resize off bytes i,
      get_elem?-append new rest (i - off),
      get_elem?-drop (off + length new) (i - off - length new) bytes,
    )

take-drop-put_bytes :
    (bytes : List ℕ) (off : ℕ) (buf : List ℕ)
    → buf ≢ []
    → take (length buf) (drop off (put_bytes bytes off buf)) ≡ buf
unfolding put_bytes
take-drop-put_bytes bytes off [] h = absurd (h refl)
take-drop-put_bytes bytes off (b ∷ buf) h =
    subst (λ n. take (length new) (drop n (front ++ (new ++ rest))) ≡ new) (length-resize off bytes)
      (rw (drop-length-append front (new ++ rest)) (take-length-append new rest))
  where
    new : List ℕ
    new = b ∷ buf

    front : List ℕ
    front = resize off bytes

    rest : List ℕ
    rest = drop (off + length new) bytes

pub offset-seek : (el : CacheEntry) (off : ℕ) → IsConsistent el → (seek el off).offset ≡ off
unfolding seek
offset-seek el off h = ground arith

pub bytes-seek : (el : CacheEntry) (off : ℕ) → (seek el off).bytes ≡ el.bytes
unfolding seek
bytes-seek el off = ground arith

-- What a non-empty write puts at an offset of a consistent entry, after a seek, is read back after a
-- seek to the same offset.
pub read-write :
    (el : CacheEntry) (off : ℕ) (buf : List ℕ) (now : ℕ)
    → buf ≢ []
    → IsConsistent el
    → (read (seek (write (seek el off) buf now) off) (some (length buf))).0 ≡ buf
read-write el off buf now h c =
    unfold read in
    rw
      (
        offset-seek written off (write-IsConsistent at buf now h (seek-IsConsistent el off c)),
        bytes-seek written off,
      )
      (unfold write in rw (offset-seek el off c) (take-drop-put_bytes at.bytes off buf h))
  where
    at : CacheEntry
    at = seek el off

    written : CacheEntry
    written = write at buf now

-- From a consistent entry, whose `size` and `pos` are what its file says, `read`, `seek`, `truncate`
-- and a write that is not empty lead to one.
pub entry-IsConsistent :
    (el : CacheEntry) (n : Option ℕ) (off now : ℕ) (buf : List ℕ)
    → buf ≢ []
    → IsConsistent el
    → IsConsistent (read el n).1
      × IsConsistent (seek el off)
      × IsConsistent (truncate el n)
      × IsConsistent (write el buf now)
entry-IsConsistent el n off now buf h c = (
  read-IsConsistent el n c,
  seek-IsConsistent el off c,
  truncate-IsConsistent el n c,
  write-IsConsistent el buf now h c,
)
