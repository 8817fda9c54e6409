-- ===== src/Comprenc/Authentic.antt =====
-- What `_verify_meta` of src/s3ql/backends/comprenc.py returns with a passphrase.
use s3ql.Prelude.{◌≡◌, refl, ap, ◌∙◌, Bool, true, false, not, Option, none, some, arith}
use s3ql.Prelude.Effect.{Outcome, Action, returned, raised, pure, raise, branch, ◌>>=◌}
use s3ql.Fsck.State.{Bytes, eq_bytes, eq_bytes-eq}
use s3ql.Comprenc.Meta.{
  Encryption, unencrypted, aes_v2, other_encryption, RawMeta, Backend, corrupted_object, thaw_error,
  Env, crypt, required, checksum_basic_mapping, meta_key, thawed, verify_encrypted, verify_by,
  verify_with, verify_meta,
}

-- A step that returned, and what followed it.
bind-returned :
    {E S A B : Type 0} (m : Action E S A) (f : A → Action E S B) (s : S) (x : B)
    → ((m >>= f) s).0 ≡ returned x
    → (a : A) × ((m s).0 ≡ returned a) × ((f a (m s).1).0 ≡ returned x)
unfolding ◌>>=◌
bind-returned {E} {S} {A} {B} m f s x h = after (m s).0 refl
  where
    after :
        (r : Outcome E A)
        → (m s).0 ≡ r
        → (a : A) × ((m s).0 ≡ returned a) × ((f a (m s).1).0 ≡ returned x)
    after (returned a) e = (a, e, rw e at h)
    after (raised y) e = absurd (ground (arith, rw e at h))

branch-returned :
    {E S A : Type 0} (b : Bool) (e : E) (m : Action E S A) (s : S) (x : A)
    → (branch b (raise e) m s).0 ≡ returned x
    → (b ≡ false) × ((m s).0 ≡ returned x)
unfolding branch raise
branch-returned true e m s x h = absurd (ground (arith, h))
branch-returned false e m s x h = (refl, h)

required-returned :
    {A : Type 0} (o : Option A) (b : Backend) (a : A) → (required o b).0 ≡ returned a → o ≡ some a
unfolding required raise pure
required-returned none b a h = absurd (ground (arith, h))
required-returned (some x) b a h = ground (arith, h)

same : (s t : Bytes) → not (eq_bytes s t) ≡ false → s ≡ t
same s t h = eq_bytes-eq s t (ground (arith, h))

module _ {A : Type 0} (env : Env A) where
  -- What an encrypted object is accepted for.
  abbrev IsSigned : Bytes → Bytes → RawMeta → Option Bytes → Type 0
  IsSigned key passphrase m n =
      (nonce : Bytes) × (n ≡ some nonce)
      × (m.signature ≡ some (checksum_basic_mapping env m (meta_key env passphrase nonce)))
      × (m.object_id ≡ some key)

  encrypted-IsSigned :
      (key passphrase buf : Bytes) (m : RawMeta) (n : Option Bytes) (metadata : A) (b : Backend)
      → (verify_encrypted env key passphrase m buf b).0 ≡ returned (n, metadata)
      → IsSigned key passphrase m n
  unfolding verify_encrypted pure
  encrypted-IsSigned key passphrase buf m n metadata b h =
      let (nonce, en, h1) = bind-returned (required m.nonce) _ b (n, metadata) h in
      let (signature, es, h2) = bind-returned (required m.signature) _ _ (n, metadata) h1 in
      let (stored_key, ek, h3) = bind-returned (required m.object_id) _ _ (n, metadata) h2 in
      let chk : Bytes = checksum_basic_mapping env m (meta_key env passphrase nonce) in
      let (signed, h4) =
        branch-returned (not (eq_bytes signature chk)) corrupted_object _ _ (n, metadata) h3 in
      let (kept, h5) =
        branch-returned (not (eq_bytes stored_key key)) corrupted_object _ _ (n, metadata) h4 in
      let (meta, et, h6) =
        bind-returned
          (thawed env thaw_error
            (env.thaw (crypt (env.cipher (meta_key env passphrase nonce)) 0 buf)))
          _ _ (n, metadata) h5 in
      (
        nonce,
        ground (arith, h6),
        required-returned m.signature _ signature es ∙ ap some (same signature chk signed),
        required-returned m.object_id _ stored_key ek ∙ ap some (same stored_key key kept),
      )

  by-IsSigned :
      (key passphrase buf : Bytes) (e : Encryption) (m : RawMeta) (n : Option Bytes) (metadata : A)
      (b : Backend)
      → (verify_by env key e (some passphrase) m buf b).0 ≡ returned (n, metadata)
      → IsSigned key passphrase m n
  unfolding verify_by raise
  by-IsSigned key passphrase buf unencrypted m n metadata b h = absurd (ground (arith, h))
  by-IsSigned key passphrase buf aes_v2 m n metadata b h =
      encrypted-IsSigned key passphrase buf m n metadata b h
  by-IsSigned key passphrase buf other_encryption m n metadata b h =
      encrypted-IsSigned key passphrase buf m n metadata b h

  with-IsSigned :
      (key passphrase : Bytes) (m : RawMeta) (n : Option Bytes) (metadata : A) (b : Backend)
      → (verify_with env (some passphrase) key m b).0 ≡ returned (n, metadata)
      → IsSigned key passphrase m n
  unfolding verify_with
  with-IsSigned key passphrase m n metadata b h =
      let (version, h1) = branch-returned _ corrupted_object _ b (n, metadata) h in
      let (e, ee, h2) = bind-returned (required m.encryption) _ _ (n, metadata) h1 in
      let (c, ec, h3) = bind-returned (required m.compression) _ _ (n, metadata) h2 in
      let (buf, eb, h4) = bind-returned (required m.content) _ _ (n, metadata) h3 in
      by-IsSigned key passphrase buf e m n metadata _ h4

-- With a passphrase, metadata is returned for no object but one that carries the signature of its
-- metadata under the key that the passphrase and its nonce give, and that was signed for the key it is
-- stored under. The nonce that is returned is that of the signature.
pub verify_meta_lem :
    {A : Type 0} (env : Env A) (key passphrase : Bytes) (m : RawMeta) (n : Option Bytes)
    (metadata : A) (b : Backend)
    → env.passphrase ≡ some passphrase
    → (verify_meta env key m b).0 ≡ returned (n, metadata)
    → (nonce : Bytes) × (n ≡ some nonce)
      × (m.signature ≡ some (checksum_basic_mapping env m (meta_key env passphrase nonce)))
      × (m.object_id ≡ some key)
unfolding verify_meta meta_key checksum_basic_mapping
verify_meta_lem env key passphrase m n metadata b e h =
    with-IsSigned env key passphrase m n metadata b (rw e at h)
