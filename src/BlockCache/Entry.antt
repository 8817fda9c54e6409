-- ===== src/BlockCache/Entry.antt =====
-- `CacheEntry` of src/s3ql/block_cache.py: a cached block, with the local file that holds it.
pub mod Contents
pub mod Whole
use s3ql.Prelude.{
  ℕ, zero, suc, ◌+◌, ◌*◌, ◌-◌, Bool, true, false, List, [], ◌∷◌, ◌++◌, Option, none, some, max,
  length, take, drop, replicate, ◌==◌, if◌then◌else◌,
}

-- The attributes, and the file behind `fh`: its bytes and its own position. `last_write` is a
-- reading of the clock, which is the argument `now` of `write`.
pub record CacheEntry : Type 0 where
  pub dirty : Bool
  pub inode : ℕ
  pub blockno : ℕ
  pub last_write : ℕ
  pub size : ℕ
  pub pos : ℕ
  pub bytes : List ℕ
  pub offset : ℕ

-- A file of `n` bytes: the rest is cut off, and what is missing is zeros.
unfoldable pub resize : ℕ → List ℕ → List ℕ
resize n bytes = take n (bytes ++ replicate (n - length bytes) 0)

-- `write(2)` at an offset: it fills a gap with zeros, and writing nothing changes nothing.
unfoldable pub put_bytes : List ℕ → ℕ → List ℕ → List ℕ
unfolding resize
put_bytes bytes off [] = bytes
put_bytes bytes off (b ∷ buf) =
    resize off bytes ++ ((b ∷ buf) ++ drop (off + length (b ∷ buf)) bytes)

-- A new entry, over a file with the given contents (none for mode 'w+b').
unfoldable pub open_entry : ℕ → ℕ → List ℕ → CacheEntry
open_entry inode blockno bytes = record {
  dirty = false;
  inode = inode;
  blockno = blockno;
  last_write = 0;
  size = length bytes;
  pos = 0;
  bytes = bytes;
  offset = 0;
}

-- `read(size)`: what is left if it is less. `None` reads to the end.
unfoldable pub read : CacheEntry → Option ℕ → List ℕ × CacheEntry
read el none =
    let buf = drop el.offset el.bytes in
    (buf, record el { pos = el.pos + length buf; offset = el.offset + length buf })
read el (some n) =
    let buf = take n (drop el.offset el.bytes) in
    (buf, record el { pos = el.pos + length buf; offset = el.offset + length buf })

unfoldable pub seek : CacheEntry → ℕ → CacheEntry
seek el off = if el.pos == off then el else record el { pos = off; offset = off }

unfoldable pub tell : CacheEntry → ℕ
tell el = el.pos

unfoldable pub truncate : CacheEntry → Option ℕ → CacheEntry
unfolding resize
truncate el none = record el { dirty = true; bytes = resize el.offset el.bytes; size = el.pos }
truncate el (some n) = record el { dirty = true; bytes = resize n el.bytes; size = n }

unfoldable pub write : CacheEntry → List ℕ → ℕ → CacheEntry
unfolding put_bytes
write el buf now = record el {
  dirty = true;
  bytes = put_bytes el.bytes el.offset buf;
  offset = el.offset + length buf;
  pos = el.pos + length buf;
  size = max (el.pos + length buf) el.size;
  last_write = now;
}

abbrev pub bufsize : ℕ
bufsize = 64 * 1024

-- The loops `buf = el.read(BUFSIZE)` of `do_write` and `with_lock_released`: all that they read, in
-- chunks of k bytes.
unfoldable pub copy_loop : ℕ → ℕ → CacheEntry → List ℕ × CacheEntry
unfolding read
copy_loop k zero el = ([], el)
copy_loop k (suc n) el =
    let (buf, el') = read el (some k) in
    elim buf [
      | [] ↦ ([], el')
      | b ∷ rest ↦ let (more, el'') = copy_loop k n el' in ((b ∷ rest) ++ more, el'')
    ]

-- `el.seek(0)` and the loop. A file of n bytes is read in n rounds at most.
unfoldable pub read_all : CacheEntry → List ℕ × CacheEntry
unfolding copy_loop seek
read_all el = copy_loop bufsize (suc (length el.bytes)) (seek el 0)
