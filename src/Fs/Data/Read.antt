-- ===== src/Fs/Data/Read.antt =====
-- `read` and `write` of src/s3ql/fs.py as a client sees them.
use mathlib.Core.Option
use s3ql.Prelude.{
  ℕ, ◌+◌, ◌-◌, ◌<◌, ◌≡◌, min, max, refl, ap, ◌∙◌, false, List, [], Option, none, some, inl, inr,
  arith, length, get_elem?, Bool-cases,
}
use s3ql.Prelude.Sql.{select, update, has_key, select-update}
use s3ql.Prelude.Effect.{returned, branch, gets, pure, modify, bind_returned, ◌>>=◌, ◌>>◌}
use s3ql.Fs.State.{Inode, Error, Fs, Env, M, inode_key, inode, found_inode, set_inode}
use s3ql.Fs.Attr.{unless_locked, touch_atime, stale}
use s3ql.Fs.Data.{write_loop, write, read}
use s3ql.Fs.Data.Bytes.{file_byte, overwritten}
use s3ql.Fs.Data.Write.{write_loop_lem}
use s3ql.Fs.Data.Chunks.{IsRead, read_loop_lem}

abbrev pub row_of : ℕ → Fs → Option Inode
row_of id s = select (has_key inode_key id) s.inodes

module _ (env : Env) (id : ℕ) (row : Inode) where
  unless_locked_lem :
      {A : Type 0} (m : M A) (s : Fs)
      → s.failsafe ≡ false
      → row_of id s ≡ some row
      → row.locked ≡ false
      → unless_locked env id m s ≡ m s
  unfolding unless_locked inode found_inode branch gets pure ◌>>=◌
  unless_locked_lem m s f r l = rw (f, r, l) refl

  set_inode_lem :
      (f : Inode → Inode) (s : Fs)
      → row_of id s ≡ some row
      → set_inode id f s
        ≡ (returned tt, record s { inodes = update (has_key inode_key id) f s.inodes })
  unfolding set_inode inode found_inode gets pure modify ◌>>=◌
  set_inode_lem f s r = rw r refl

-- The block cache finds every block of the file, which is not known to be broken; the file is there
-- and not locked, and the file system is not in failsafe mode.
module _ (env : Env) (fault : ℕ → ℕ → Fs → Option Error) (id : ℕ) (row : Inode)
    (sound : (b : ℕ) (s : Fs) → fault id b s ≡ none) (pos : 0 < env.max_obj_size) where
  abbrev pub size_to : ℕ → ℕ → Inode → Inode
  size_to end_pos now r = record r { size = max r.size end_pos; mtime_ns = now; ctime_ns = now }

  finish_write :
      (offset n : ℕ) (t : Fs)
      → row_of id t ≡ some row
      → (do now ← gets env.time_ns; set_inode id (size_to (offset + n) now); pure n) t ≡ (
        returned n,
        record t {
          inodes = update (has_key inode_key id) (size_to (offset + n) (env.time_ns t)) t.inodes;
        },
      )
  unfolding set_inode inode found_inode gets pure modify ◌>>=◌
  finish_write offset n t r = rw r refl

  -- The state that `write` leaves.
  pub record IsFinished (offset : ℕ) (buf : List ℕ) (s t : Fs) : Type 0 where
    pub bytes :
        (i : ℕ)
        → file_byte env.max_obj_size id i t
          ≡ overwritten offset buf i (file_byte env.max_obj_size id i s)
    pub whole : t.broken_blocks id ≡ []
    pub resized : (now : ℕ) × (row_of id t ≡ some (size_to (offset + length buf) now row))

  pub write-IsFinished :
      (offset : ℕ) (buf : List ℕ) (s : Fs)
      → s.failsafe ≡ false
      → row_of id s ≡ some row
      → row.locked ≡ false
      → s.broken_blocks id ≡ []
      → (t : Fs) × (write env fault id offset buf s ≡ (returned (length buf), t))
        × IsFinished offset buf s t
  unfolding write
  write-IsFinished offset buf s f r l w =
      let (t, loop, done) =
        write_loop_lem env fault id sound pos (length buf) offset buf s (omega arith) w in
      let found : row_of id t ≡ some row = ap (select (has_key inode_key id)) done.inodes ∙ r in
      let now = env.time_ns t in
      let grow = size_to (offset + length buf) in
      let resized = select-update inode_key id id (grow now) t.inodes (λ r. refl) in
      (
        record t { inodes = update (has_key inode_key id) (grow now) t.inodes },
        unless_locked_lem env id row _ s f r l
            ∙ bind_returned (write_loop env fault (length buf) id offset buf) _ s tt
                (ap (λ p. p.0) loop)
            ∙ ap (λ p. (do now ← gets env.time_ns; set_inode id (grow now); pure (length buf)) p.1)
                loop
            ∙ finish_write offset (length buf) t found,
        record {
          bytes = done.bytes;
          whole = done.whole;
          resized = (now, ground (arith, resized, found));
        },
      )

  -- With the block cache finding every block of the file, none of them known to be broken, the file
  -- there and not locked, and no failsafe mode: `write` returns the number of bytes it was given;
  -- each byte of the file from the offset on is that of the buffer, across the borders of blocks,
  -- and every other byte is as it was; the file grows to the end of the buffer, or keeps its size.
  pub write_lem :
      (offset : ℕ) (buf : List ℕ) (i : ℕ) (s : Fs)
      → s.failsafe ≡ false
      → row_of id s ≡ some row
      → row.locked ≡ false
      → s.broken_blocks id ≡ []
      → let (r, t) = write env fault id offset buf s in
        (r ≡ returned (length buf))
        × (file_byte env.max_obj_size id i t
            ≡ overwritten offset buf i (file_byte env.max_obj_size id i s))
        × (Option.map (λ (x : Inode). x.size) (row_of id t)
            ≡ some (max row.size (offset + length buf)))
  write_lem offset buf i s f r l w =
      let (t, all, done) = write-IsFinished offset buf s f r l w in
      rw all (refl, done.bytes i, rw (done.resized.1) refl)

  touched : (now : ℕ) (t : Fs) → row_of id t ≡ some row → (touch_atime id now t).0 ≡ returned tt
  unfolding touch_atime set_inode inode found_inode branch gets pure modify ◌>>=◌
  touched now t r =
      rw r (elim (Bool-cases (stale row)) [ inl e ↦ rw (e, r) refl | inr e ↦ rw e refl ])

  pub read_returned :
      (offset want : ℕ) (s : Fs)
      → row_of id s ≡ some row
      → s.broken_blocks id ≡ []
      → (buf : List ℕ) × (t : Fs) × ((read env fault id offset want s).0 ≡ returned buf)
        × IsRead env fault id sound pos offset (min (row.size - offset) want) buf s t
  unfolding read inode found_inode gets pure ◌>>=◌
  read_returned offset want s r w =
      let (buf, t, loop, done) =
        read_loop_lem env fault id sound pos want offset (min (row.size - offset) want) s
          (ground arith) w in
      let found : row_of id t ≡ some row = ap (select (has_key inode_key id)) done.inodes ∙ r in
      (buf, t, rw r (rw loop (rw (touched (env.time_ns t) t found) refl)), done)

  -- With the block cache finding every block of the file, none of them known to be broken, and the
  -- file there: `read` returns the bytes of the file from the offset on, as many as were asked for or
  -- as there are up to the size of the file, across the borders of blocks, with null bytes where a
  -- block is too short.
  pub read_lem :
      (offset want k : ℕ) (s : Fs)
      → row_of id s ≡ some row
      → s.broken_blocks id ≡ []
      → k < min (row.size - offset) want
      → (buf : List ℕ) × ((read env fault id offset want s).0 ≡ returned buf)
        × (length buf ≡ min (row.size - offset) want)
        × (get_elem? buf k ≡ some (file_byte env.max_obj_size id (offset + k) s))
  read_lem offset want k s r w lt =
      let (buf, t, all, done) = read_returned offset want s r w in
      (buf, all, done.size, done.read k lt)
