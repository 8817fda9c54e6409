-- ===== src/Fs/Data.antt =====
-- The contents of files in src/s3ql/fs.py: `_readwrite`, `read` and `write`. A block is the file of
-- an entry of the block cache.
pub mod Bytes
pub mod Write
pub mod Read
pub mod Chunks
pub mod RoundTrip
use s3ql.Prelude.{
  ℕ, zero, suc, ◌+◌, ◌-◌, ◌*◌, ◌/◌, ◌%◌, min, max, Bool, true, ◌&&◌, ◌||◌, not, List, [], ◌∷◌, ◌++◌,
  Option, none, some, String, length, take, drop, replicate, ltb, ◌==◌, if◌then◌else◌,
}
use s3ql.Prelude.Effect.{pure, raise, gets, branch, modify, catch, ◌>>=◌, ◌>>◌}
use s3ql.BlockCache.Entry
use s3ql.BlockCache.Entry.{CacheEntry, open_entry, seek, truncate}
use s3ql.BlockCache.State.{member}
use s3ql.Fs.State.{
  Inode, Error, einval, eio, no_such_row, no_such_object, corrupted_object, Fs, M, Ctx, Env, inode,
  set_inode, open_inode,
}
use s3ql.Fs.Namespace.{find_entry, ceil_div, create_entry, unless_failsafe}
use s3ql.Fs.Attr.{touch_atime, unless_locked}

-- `broken_blocks[id].add(b)`, with failsafe mode set
unfoldable pub add_broken : ℕ → ℕ → Fs → Fs
add_broken id b s = record s {
  failsafe = true;
  broken_blocks = λ j. if id == j then b ∷ s.broken_blocks j else s.broken_blocks j;
}

-- The handlers of `_readwrite`.
unfoldable pub block_failed : {A : Type 0} → ℕ → ℕ → Error → M A
unfolding add_broken
block_failed id b no_such_object = do modify (add_broken id b); raise eio
block_failed id b corrupted_object = do modify (add_broken id b); raise eio
block_failed id b x = raise x

unfoldable pub put_block : ℕ → ℕ → List ℕ → Fs → Fs
put_block id b bytes s = record s {
  blocks = λ i c. if id == i && b == c then bytes else s.blocks i c;
}

-- `async with self.cache.get(id, blockno) as fh`, for what the cache may raise
unfoldable pub on_block : {A : Type 0} → ℕ → ℕ → (CacheEntry → A × CacheEntry) → Option Error → M A
unfolding put_block open_entry
on_block id b body (some x) = raise x
on_block id b body none = do
  bytes ← gets (λ s. s.blocks id b)
  modify (put_block id b (body (open_entry id b bytes)).1.bytes)
  pure (body (open_entry id b bytes)).0

-- As many of n bytes as fit into the block of the offset.
abbrev pub fitting : Env → ℕ → ℕ → ℕ
fitting env offset n =
    let rel = offset - offset / env.max_obj_size * env.max_obj_size in
    if ltb env.max_obj_size (rel + n) then env.max_obj_size - rel else n

-- `fault` is what the block cache raises for a block, if it raises. No other request runs in between.
module _ (env : Env) (fault : ℕ → ℕ → Fs → Option Error) where
  unfoldable pub cache_get : {A : Type 0} → ℕ → ℕ → (CacheEntry → A × CacheEntry) → M A
  unfolding on_block
  cache_get id b body = do error ← gets (fault id b); on_block id b body error

  unfoldable pub access_block : {A : Type 0} → ℕ → ℕ → (CacheEntry → A × CacheEntry) → M A
  unfolding member cache_get block_failed
  access_block id b body = do
    broken ← gets (λ s. member b (s.broken_blocks id))
    branch broken (raise eio) (catch (cache_get id b body) (block_failed id b))

  -- `_readwrite` with `buf`: the number of bytes that were written.
  unfoldable pub write_some : ℕ → ℕ → List ℕ → M ℕ
  unfolding access_block seek
  write_some id offset buf =
      let b = offset / env.max_obj_size in
      let rel = offset - b * env.max_obj_size in
      let n = fitting env offset (length buf) in
      do access_block id b (λ el. (tt, Entry.write (seek el rel) (take n buf) 0)); pure n

  -- `_readwrite` with `length`: what is missing in the block reads as null bytes.
  unfoldable pub read_some : ℕ → ℕ → ℕ → M (List ℕ)
  unfolding access_block seek
  read_some id offset want =
      let b = offset / env.max_obj_size in
      let rel = offset - b * env.max_obj_size in
      let n = fitting env offset want in
      do
        buf ← access_block id b (λ el. Entry.read (seek el rel) (some n))
        pure (buf ++ replicate (n - length buf) 0)

  -- `while buf:`; a round writes a byte at least.
  unfoldable pub write_loop : ℕ → ℕ → ℕ → List ℕ → M (Unit {0})
  unfolding write_some
  write_loop fuel id offset [] = pure tt
  write_loop zero id offset (x ∷ buf) = pure tt
  write_loop (suc fuel) id offset (x ∷ buf) =
      let again : ℕ → M (Unit {0}) = λ n. write_loop fuel id (offset + n) (drop n (x ∷ buf)) in
      do written ← write_some id offset (x ∷ buf); again written

  unfoldable pub write : ℕ → ℕ → List ℕ → M ℕ
  unfolding unless_locked write_loop set_inode
  write id offset buf = unless_locked env id do
    write_loop (length buf) id offset buf
    now ← gets env.time_ns
    set_inode id
        (λ r. record r { size = max r.size (offset + length buf); mtime_ns = now; ctime_ns = now })
    pure (length buf)

  -- `while length > 0:`; a round reads a byte at least.
  unfoldable pub read_loop : ℕ → ℕ → ℕ → ℕ → M (List ℕ)
  unfolding read_some
  read_loop fuel id offset zero = pure []
  read_loop zero id offset (suc want) = pure []
  read_loop (suc fuel) id offset (suc want) =
      let again : ℕ → M (List ℕ) = λ n. read_loop fuel id (offset + n) (suc want - n) in
      do buf ← read_some id offset (suc want); rest ← again (length buf); pure (buf ++ rest)

  unfoldable pub read : ℕ → ℕ → ℕ → M (List ℕ)
  unfolding inode read_loop touch_atime
  read id offset want = do
    row ← inode id
    buf ← read_loop want id offset (min (row.size - offset) want)
    now ← gets env.time_ns
    touch_atime id now
    pure buf
