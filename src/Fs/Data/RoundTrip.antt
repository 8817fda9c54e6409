-- ===== src/Fs/Data/RoundTrip.antt =====
-- `read` after `write` in src/s3ql/fs.py.
use s3ql.Prelude.{
  ℕ, zero, suc, ◌+◌, ◌-◌, ◌<◌, ◌≡◌, max, refl, sym, ap, ◌∙◌, false, List, [], ◌∷◌, Option, none,
  some, arith, length, get_elem?,
}
use s3ql.Prelude.Effect.{returned}
use s3ql.Fs.State.{Inode, Error, Fs, Env}
use s3ql.Fs.Data.{read, write}
use s3ql.Fs.Data.Bytes.{overwritten, byte_at}
use s3ql.Fs.Data.Chunks.{get_elem?-below}
use s3ql.Fs.Data.Read.{row_of, write-IsFinished, read_returned}

-- Lists are equal that have the same elements.
same_elements :
    (xs ys : List ℕ)
    → length xs ≡ length ys
    → ((k : ℕ) → k < length ys → get_elem? xs k ≡ get_elem? ys k)
    → xs ≡ ys
same_elements [] [] l h = refl
same_elements [] (y ∷ ys) l h = absurd (omega arith)
same_elements (x ∷ xs) [] l h = absurd (omega arith)
same_elements (x ∷ xs) (y ∷ ys) l h =
    let head : x ≡ y = ap byte_at (h zero (omega arith)) in
    let tail = same_elements xs ys (omega arith) (λ k lt. h (suc k) (omega arith)) in
    ap (λ z. z ∷ xs) head ∙ ap (◌∷◌ y) tail

overwritten-at :
    (offset : ℕ) (buf : List ℕ) (k old : ℕ)
    → k < length buf
    → overwritten offset buf (offset + k) old ≡ byte_at (get_elem? buf k)
overwritten-at offset buf k old lt =
    let index : offset + k - offset ≡ k = omega arith in
    ground (arith, lt, ap (get_elem? buf) index)

-- With the block cache finding every block of the file, none of them known to be broken, the file
-- there and not locked, and no failsafe mode: what `write` has put at an offset, of any length and
-- across the borders of blocks, `read` returns for that offset and length.
pub read-write_file :
    (env : Env) (fault : ℕ → ℕ → Fs → Option Error) (id : ℕ) (row : Inode) (offset : ℕ)
    (buf : List ℕ) (s : Fs)
    → ((b : ℕ) (t : Fs) → fault id b t ≡ none)
    → 0 < env.max_obj_size
    → s.failsafe ≡ false
    → row_of id s ≡ some row
    → row.locked ≡ false
    → s.broken_blocks id ≡ []
    → (read env fault id offset (length buf) (write env fault id offset buf s).1).0 ≡ returned buf
read-write_file env fault id row offset buf s sound pos f r l w =
    let (t, wrote, done) = write-IsFinished env fault id row sound pos offset buf s f r l w in
    let (now, found) = done.resized in
    let grown : Inode = record row {
      size = max row.size (offset + length buf);
      mtime_ns = now;
      ctime_ns = now;
    } in
    let (out, u, all, got) =
      read_returned env fault id grown sound pos offset (length buf) t found done.whole in
    let size : length out ≡ length buf = ground (arith, got.size) in
    let same = same_elements out buf size (λ k lt.
      got.read k (ground (arith, lt))
      ∙ ap some (done.bytes (offset + k) ∙ overwritten-at offset buf k _ lt)
      ∙ sym (get_elem?-below buf k lt)) in
    rw wrote (all ∙ ap returned same)
