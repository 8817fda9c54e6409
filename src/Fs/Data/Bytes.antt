-- ===== src/Fs/Data/Bytes.antt =====
-- A file as its bytes: what a write of one block makes of each byte (`_readwrite` of src/s3ql/fs.py).
use native.Mathlib.Nat.{div-eq_of_lt-le, mod-add-div', mod-lt, add-mul}
use s3ql.Prelude.{
  ℕ, zero, suc, ◌+◌, ◌-◌, ◌*◌, ◌/◌, ◌%◌, ◌≤◌, ◌<◌, ◌≡◌, ◌≢◌, refl, ap, ◌&&◌, List, [], ◌∷◌, Option,
  none, some, inl, inr, arith, length, get_elem?, leb, ltb, ◌==◌, if◌then◌else◌, Bool-cases,
}
use s3ql.BlockCache.Entry.{put_bytes}
use s3ql.BlockCache.Entry.Contents.{put_bytes_lem}
use s3ql.Fs.State.{Fs}
use s3ql.Fs.Data.{put_block}

abbrev pub byte_at : Option ℕ → ℕ
byte_at none = 0
byte_at (some x) = x

-- The byte of a file at a position; where no block has it, a null byte.
abbrev pub file_byte : ℕ → ℕ → ℕ → Fs → ℕ
file_byte m id i s = byte_at (get_elem? (s.blocks id (i / m)) (i % m))

-- A byte after a write of `buf` at `offset`, given the byte before.
abbrev pub overwritten : ℕ → List ℕ → ℕ → ℕ → ℕ
overwritten offset buf i old =
    if leb offset i && ltb i (offset + length buf)
    then byte_at (get_elem? buf (i - offset))
    else old

-- The block of a position, from the bounds of the block.
pub block_of : (m b i : ℕ) → b * m ≤ i → i < b * m + m → i / m ≡ b
block_of m b i le lt = div-eq_of_lt-le m le (omega (arith, add-mul b 1 m))

pub get_elem?-above : (xs : List ℕ) (i : ℕ) → length xs ≤ i → get_elem? xs i ≡ none
get_elem?-above [] i h = refl
get_elem?-above (x ∷ xs) zero h = absurd (omega arith)
get_elem?-above (x ∷ xs) (suc i) h = get_elem?-above xs i (omega arith)

module _ (m id offset : ℕ) (buf : List ℕ) (s : Fs) (pos : 0 < m) (some_bytes : buf ≢ []) where
  abbrev rel : ℕ
  rel = offset - offset / m * m

  abbrev old : List ℕ
  old = s.blocks id (offset / m)

  byte-put_bytes :
      (i : ℕ)
      → rel + length buf ≤ m
      → offset / m ≡ i / m
      → byte_at (get_elem? (put_bytes old rel buf) (i % m))
        ≡ overwritten offset buf i (byte_at (get_elem? old (i % m)))
  byte-put_bytes i fits e =
      let at = mod-add-div' i m in
      let start = mod-add-div' offset m in
      let same = ap (λ q. q * m) e in
      let within = mod-lt i pos in
      let above = get_elem?-above old (i % m) in
      rw (put_bytes_lem old rel buf (i % m) some_bytes) (elim (Bool-cases (leb offset i)) [
        | inl q ↦
            let sub : i % m - rel ≡ i - offset = ground (arith, at, start, same, q) in
            rw (sub) (ground (arith, at, start, same, within, q))
        | inr q ↦ ground (arith, at, start, same, within, q, above)
      ])

  -- Writing into the block of an offset as much as fits there changes the bytes from the offset on.
  pub byte-put_block :
      (i : ℕ)
      → rel + length buf ≤ m
      → file_byte m id i (put_block id (offset / m) (put_bytes old rel buf) s)
        ≡ overwritten offset buf i (file_byte m id i s)
  unfolding put_block
  byte-put_block i fits = elim (Bool-cases (offset / m == i / m)) [
    | inl e ↦
        let same : offset / m ≡ i / m = ground (arith, e) in
        let written = byte-put_bytes i fits same in
        ground (arith, e, written, ap (s.blocks id) same)
    | inr e ↦ elim (Bool-cases (leb offset i && ltb i (offset + length buf))) [
      | inr q ↦ ground (arith, e, q)
      | inl q ↦
          let start = mod-add-div' offset m in
          let found =
            block_of m (offset / m) i (ground (arith, start, q)) (ground (arith, start, q, fits)) in
          absurd (ground (arith, e, found))
    ]
  ]
