-- ===== src/Comprenc/Tests.antt =====
-- Witnesses for the theorems on src/s3ql/backends/comprenc.py, with a small cipher and hash.
use s3ql.Prelude.{
  ℕ, ◌≡◌, refl, true, false, [], ◌∷◌, ◌++◌, Option, none, some, length, arith, ◌==◌, if◌then◌else◌,
}
use s3ql.Prelude.Effect.{returned, branch, ◌>>=◌}
use s3ql.Fsck.State.{Bytes, eq_bytes}
use s3ql.Comprenc.Meta.{
  zlib, RawMeta, Backend, Env, checksum_basic_mapping, meta_key, crypt, raw_meta, verify_meta,
}
use s3ql.Comprenc.Objects.{lookup, write_object, copy_or_rename}
use s3ql.Comprenc.Signed.{IsCipher, IsReadable, copy_or_rename_lem}
use s3ql.Comprenc.Authentic.{verify_meta_lem}

abbrev swap : Bytes → ℕ → ℕ → ℕ
swap key pos x = if x == 0 then 1 else if x == 1 then 0 else x

abbrev thaw : Bytes → Option ℕ
thaw [] = none
thaw (x ∷ s) = some x

abbrev env : Env ℕ
env = record {
  passphrase = some (5 ∷ []);
  sha256 = λ s. length s ∷ [];
  hmac = λ k s. k ++ s;
  cipher = swap;
  freeze = λ n. n ∷ [];
  thaw = thaw;
  time = 1 ∷ 2 ∷ 3 ∷ 4 ∷ 5 ∷ 6 ∷ 7 ∷ 8 ∷ [];
}

abbrev empty : Backend
empty = λ k. none

abbrev first : Bytes
first = 11 ∷ []

abbrev second : Bytes
second = 12 ∷ []

env-IsCipher : IsCipher env
env-IsCipher key pos x = ground (arith)

env-IsReadable : IsReadable env
env-IsReadable n = refl

different : ¬ (eq_bytes first second ≡ true)
unfolding eq_bytes
different e = ground (arith, e)

-- An object is written and renamed without new metadata.
copy_or_rename_lem_example :
    let written = write_object env first 1 zlib false (9 ∷ []) empty in
    let (r, after) = copy_or_rename env first second true none written in
    (lookup env first written ≡ (returned 1, written))
    × (r ≡ returned tt)
    × (lookup env second after ≡ (returned 1, after))
copy_or_rename_lem_example =
    copy_or_rename_lem env first second 1 none zlib false true (9 ∷ []) empty env-IsCipher
      env-IsReadable refl (λ e. absurd (different e))

abbrev signed : RawMeta
signed = raw_meta env first 1 zlib (some (5 ∷ []))

verified : (verify_meta env first signed empty).0 ≡ returned (some (env.time ++ first), 1)
unfolding verify_meta raw_meta branch ◌>>=◌ eq_bytes checksum_basic_mapping meta_key crypt
verified = refl

verify_meta_lem_example :
    (nonce : Bytes) × (some (env.time ++ first) ≡ some nonce)
    × (signed.signature ≡ some (checksum_basic_mapping env signed (meta_key env (5 ∷ []) nonce)))
    × (signed.object_id ≡ some first)
verify_meta_lem_example =
    verify_meta_lem env first (5 ∷ []) signed (some (env.time ++ first)) 1 empty refl verified
