-- ===== src/BlockCache/Entry/Whole.antt =====
-- The read loop of an upload: it ends, and has read the whole file.
use s3ql.Prelude.{
  ℕ, zero, suc, ◌+◌, ◌-◌, ◌<◌, ◌≡◌, ◌∙◌, refl, sym, ap, List, [], ◌∷◌, ◌++◌, some, arith, length,
  take, drop, length-drop,
}
use s3ql.BlockCache.Entry.{CacheEntry, read, seek, copy_loop, read_all}
use s3ql.BlockCache.Entry.Contents.{IsConsistent, offset-seek, bytes-seek}

drop-nil : (n : ℕ) → drop {A = ℕ} n [] ≡ []
drop-nil zero = refl
drop-nil (suc n) = refl

take-append-rest : (k : ℕ) (xs : List ℕ) → take k xs ++ drop (length (take k xs)) xs ≡ xs
take-append-rest zero xs = refl
take-append-rest (suc k) [] = refl
take-append-rest (suc k) (x ∷ xs) = ap (◌∷◌ x) (take-append-rest k xs)

drop-drop : (m n k : ℕ) (xs : List ℕ) → m + n ≡ k → drop n (drop m xs) ≡ drop k xs
drop-drop zero n k xs e = ap (λ j. drop j xs) (omega arith)
drop-drop (suc m) n k [] e = drop-nil n ∙ sym (drop-nil k)
drop-drop (suc m) n zero (x ∷ xs) e = absurd (omega arith)
drop-drop (suc m) n (suc k) (x ∷ xs) e = drop-drop m n k xs (omega arith)

-- One chunk of a file, and what is left of it.
chunk : ℕ → CacheEntry → List ℕ
chunk k el = take k (drop el.offset el.bytes)

module _ (el : CacheEntry) where
  chunk-rest :
      (k : ℕ)
      → chunk k el ++ drop (el.offset + length (chunk k el)) el.bytes ≡ drop el.offset el.bytes
  unfolding chunk
  chunk-rest k =
      ap (◌++◌ (chunk k el)) (sym (drop-drop el.offset (length (chunk k el)) _ el.bytes refl))
      ∙ take-append-rest k (drop el.offset el.bytes)

-- One round, given what the rounds after it read.
copy_loop-round :
    (k n : ℕ) (el : CacheEntry) (rest : List ℕ)
    → drop el.offset el.bytes ≡ rest
    → length el.bytes - el.offset < suc n
    → ((next : CacheEntry)
        → length next.bytes - next.offset < n
        → (copy_loop (suc k) n next).0 ≡ drop next.offset next.bytes)
    → (copy_loop (suc k) (suc n) el).0 ≡ rest
unfolding copy_loop read chunk
copy_loop-round k n el [] e h later = rw (copy_loop, e) refl
copy_loop-round k n el (b ∷ rest) e h later =
    let next = (read el (some (suc k))).1 in
    let left = length-drop el.offset el.bytes in
    let size = ap length e in
    let taken = ap (λ xs. length (take (suc k) xs)) e in
    let more = later next (omega arith) in
    rw (copy_loop, e)
      (ap (◌++◌ (b ∷ take k rest)) more
        ∙ ap (λ xs. take (suc k) xs ++ drop next.offset el.bytes) (sym e)
        ∙ chunk-rest el (suc k)
        ∙ e)

-- With a round for each byte that is left, and one more, everything is read.
copy_loop-rest :
    (k n : ℕ) (el : CacheEntry)
    → length el.bytes - el.offset < n
    → (copy_loop (suc k) n el).0 ≡ drop el.offset el.bytes
copy_loop-rest k zero el h = absurd (omega arith)
copy_loop-rest k (suc n) el h =
    copy_loop-round k n el (drop el.offset el.bytes) refl h (copy_loop-rest k n)

-- The read loop of an upload returns all the bytes of the file of a consistent entry, in order,
-- wherever its position was.
pub read_all-bytes : (el : CacheEntry) → IsConsistent el → (read_all el).0 ≡ el.bytes
unfolding read_all
read_all-bytes el h =
    let start = offset-seek el 0 h in
    let same = bytes-seek el 0 in
    copy_loop-rest 65535 (suc (length el.bytes)) (seek el 0) (omega (arith, ap length same))
    ∙ rw (start, same) refl
