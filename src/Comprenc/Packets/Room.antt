-- ===== src/Comprenc/Packets/Room.antt =====
-- The room that `DecryptFilter.read` of src/s3ql/backends/comprenc.py has left for the bytes that it returns.
use s3ql.Prelude.{ℕ, zero, suc, ◌+◌, ◌≤◌, ◌<◌, ◌≡◌, refl, arith}

-- With `o` bytes to return, `l` bytes read and `r` left of the packet: no more than `size` will be returned,
-- and a read asks for a byte at least.
pub record Fits (size o l r : ℕ) : Type 0 where
  pub room : o < size
  pub within : l ≤ r → o + l ≤ size
  pub past : r < l → o + r < size
  pub next : r + 4 < l → o + l ≤ size

-- After a read of `k` bytes.
pub Fits-more :
    (size o l r k : ℕ)
    → Fits size o l r
    → (l ≡ 0 → o + k ≤ size)
    → (0 < l → (r < l) × (l + k ≤ r + 4))
    → Fits size o (l + k) r
Fits-more size o zero r k fits a b = record {
  room = fits.room;
  within = λ h. omega (arith, a refl);
  past = λ h. omega (arith, h, a refl);
  next = λ h. omega (arith, a refl);
}
Fits-more size o (suc l) r k fits a b =
    let (past, few) = b (omega arith) in
    record {
      room = fits.room;
      within = λ h. absurd (omega (arith, h, past));
      past = λ h. fits.past past;
      next = λ h. absurd (omega (arith, h, few));
    }

-- After the end of the packet, with the next one of length `n`.
pub Fits-cut : (size o l r n : ℕ) → Fits size o (r + 4 + l) r → Fits size (o + r) l n
Fits-cut size o zero r n fits =
    let past = fits.past (omega arith) in
    record {
      room = past;
      within = λ h. omega (arith, past);
      past = λ h. omega (arith, past, h);
      next = λ h. omega (arith, past);
    }
Fits-cut size o (suc l) r n fits =
    let next = fits.next (omega arith) in
    record {
      room = omega (arith, next);
      within = λ h. omega (arith, next);
      past = λ h. omega (arith, next, h);
      next = λ h. omega (arith, next);
    }
