-- ===== src/Comprenc/Packets/Frames.antt =====
-- The packets of an encrypted object in src/s3ql/backends/comprenc.py, and key streams over several reads.
use s3ql.Prelude.{
  ℕ, zero, suc, ◌+◌, ◌^◌, ◌<◌, ◌≡◌, refl, ap, ◌∙◌, List, [], ◌∷◌, ◌++◌, arith, length, take, drop,
}
use s3ql.Fsck.State.{Bytes}
use s3ql.Comprenc.Meta.{pack, crypt}
use s3ql.Comprenc.Packets.{unpack}

abbrev pub frame : Bytes → Bytes
frame d = pack (length d) ++ d

abbrev pub frames : List Bytes → Bytes
frames [] = []
frames (d ∷ ds) = frame d ++ frames ds

abbrev pub joined : List Bytes → Bytes
joined [] = []
joined (d ∷ ds) = d ++ joined ds

-- Lengths of packets: none is empty, and the length has 32 bits.
abbrev pub IsPacket : Bytes → Type 0
IsPacket d = (0 < length d) × (length d < 2 ^ 32)

pub length-crypt :
    (stream : ℕ → ℕ → ℕ) (pos : ℕ) (s : Bytes) → length (crypt stream pos s) ≡ length s
unfolding crypt
length-crypt stream pos [] = refl
length-crypt stream pos (x ∷ s) = ap suc (length-crypt stream (suc pos) s)

pub crypt-append :
    (stream : ℕ → ℕ → ℕ) (pos : ℕ) (s t : Bytes)
    → crypt stream pos (s ++ t) ≡ crypt stream pos s ++ crypt stream (pos + length s) t
unfolding crypt
crypt-append stream pos [] t = ap (λ n. crypt stream n t) (omega arith)
crypt-append stream pos (x ∷ s) t =
    let next : suc pos + length s ≡ pos + suc (length s) = omega arith in
    ap (◌∷◌ (stream pos x)) (
      crypt-append stream (suc pos) s t
      ∙ ap (λ n. crypt stream (suc pos) s ++ crypt stream n t) next)

-- What a read gets, decrypted.
pub crypt-take :
    (stream : ℕ → ℕ → ℕ) (pos n : ℕ) (s : Bytes)
    → crypt stream pos (take n s) ≡ take n (crypt stream pos s)
unfolding crypt
crypt-take stream pos zero s = refl
crypt-take stream pos (suc n) [] = refl
crypt-take stream pos (suc n) (x ∷ s) = ap (◌∷◌ (stream pos x)) (crypt-take stream (suc pos) n s)

-- What it leaves.
pub crypt-drop :
    (stream : ℕ → ℕ → ℕ) (pos n : ℕ) (s : Bytes)
    → crypt stream (pos + length (take n s)) (drop (length (take n s)) s)
      ≡ drop n (crypt stream pos s)
unfolding crypt
crypt-drop stream pos zero s = ap (λ n. crypt stream n s) (omega arith)
crypt-drop stream pos (suc n) [] = refl
crypt-drop stream pos (suc n) (x ∷ s) =
    let next : pos + suc (length (take n s)) ≡ suc pos + length (take n s) = omega arith in
    ap (λ m. crypt stream m (drop (length (take n s)) s)) next ∙ crypt-drop stream (suc pos) n s

pub take-drop : (n : ℕ) (s : Bytes) → take n s ++ drop n s ≡ s
take-drop zero s = refl
take-drop (suc n) [] = refl
take-drop (suc n) (x ∷ s) = ap (◌∷◌ x) (take-drop n s)

pub length-pack : (n : ℕ) → length (pack n) ≡ 4
unfolding pack
length-pack n = refl

pub unpack-pack : (n : ℕ) (s : Bytes) → n < 2 ^ 32 → unpack (pack n ++ s) ≡ n
unfolding unpack pack
unpack-pack n s h = omega arith
