-- ===== src/Comprenc/Signed.antt =====
-- What `_verify_meta` of src/s3ql/backends/comprenc.py accepts: metadata that was signed for the key it
-- is stored under.
use mathlib.Core.Option
use s3ql.Prelude.{
  ℕ, suc, ◌≡◌, refl, ap, ◌∙◌, Bool, true, [], ◌∷◌, ◌++◌, Option, none, some, length, arith, inl,
  inr, Bool-cases,
}
use s3ql.Prelude.Effect.{returned, pure, raise, gets, branch, modify, ◌>>=◌}
use s3ql.Fsck.State.{Bytes, eq_bytes, eq_bytes_refl, eq_bytes-eq}
use s3ql.Comprenc.Meta.{
  Compression, aes_v2, RawMeta, Stored, Backend, Env, crypt, required, checksum_basic_mapping,
  meta_key, thawed, verify_encrypted, verify_by, verify_with, verify_meta, sign, raw_meta, truthy,
  fresh_meta, entries,
}
use s3ql.Comprenc.Objects.{
  stored_at, put, chosen, lookup, write_object, with_meta, update_meta, move_object, copy_or_rename,
}

-- A cipher that a second pass undoes, and text that can be read back.
abbrev pub IsCipher : {A : Type 0} → Env A → Type 0
IsCipher env = (key : Bytes) (pos x : ℕ) → env.cipher key pos (env.cipher key pos x) ≡ x

abbrev pub IsReadable : {A : Type 0} → Env A → Type 0
IsReadable {A} env = (a : A) → env.thaw (env.freeze a) ≡ some a

pub crypt_twice :
    (stream : ℕ → ℕ → ℕ) (pos : ℕ) (s : Bytes)
    → ((pos x : ℕ) → stream pos (stream pos x) ≡ x)
    → crypt stream pos (crypt stream pos s) ≡ s
unfolding crypt
crypt_twice stream pos [] h = refl
crypt_twice stream pos (x ∷ s) h = rw (h pos x, crypt_twice stream (suc pos) s h) refl

put-key : (key : Bytes) (o : Option Stored) (b : Backend) → put key o b key ≡ o
unfolding put
put-key key o b = rw (eq_bytes_refl key) refl

module _ {A : Type 0} (env : Env A) where
  checksum-signature :
      (m : RawMeta) (key : Bytes) (x : Option Bytes)
      → checksum_basic_mapping env (record m { signature = x }) key
        ≡ checksum_basic_mapping env m key
  unfolding checksum_basic_mapping entries
  checksum-signature m key x = refl

  -- Signed metadata is accepted under its key.
  signed-verify :
      (key passphrase nonce : Bytes) (o : RawMeta) (metadata : A) (b : Backend)
      → IsCipher env
      → IsReadable env
      → let m = record o { nonce = some nonce; object_id = some key } in
        verify_encrypted env key passphrase
          (sign env key passphrase nonce m)
          (crypt (env.cipher (meta_key env passphrase nonce)) 0 (env.freeze metadata))
          b
        ≡ (returned (some nonce, metadata), b)
  unfolding verify_encrypted sign required thawed ◌>>=◌ raise pure branch
  signed-verify key passphrase nonce o metadata b cipher readable =
      let m : RawMeta = record o { nonce = some nonce; object_id = some key } in
      let mkey : Bytes = meta_key env passphrase nonce in
      let chk : Bytes = checksum_basic_mapping env m mkey in
      rw
        (
          checksum-signature m mkey (some chk),
          eq_bytes_refl chk,
          eq_bytes_refl key,
          crypt_twice (env.cipher mkey) 0 (env.freeze metadata) (cipher mkey),
          readable metadata,
        )
        refl

  abbrev nonce_of : Bytes → Option Bytes → Option Bytes
  nonce_of key none = none
  nonce_of key (some p) = some (env.time ++ key)

  raw_meta-verify :
      (key : Bytes) (metadata : A) (c : Compression) (p : Option Bytes) (b : Backend)
      → IsCipher env
      → IsReadable env
      → verify_with env p key (raw_meta env key metadata c p) b
        ≡ (returned (nonce_of key p, metadata), b)
  unfolding verify_with raw_meta verify_by required thawed ◌>>=◌ pure branch
  raw_meta-verify key metadata c none b cipher readable = rw (readable metadata) refl
  raw_meta-verify key metadata c (some p) b cipher readable =
      let nonce : Bytes = env.time ++ key in
      let o : RawMeta = record {
        format_version = some 2;
        encryption = some aes_v2;
        compression = some c;
        content = some (crypt (env.cipher (meta_key env p nonce)) 0 (env.freeze metadata));
        nonce = some nonce;
        object_id = some key;
        payload_offset = none;
        signature = none;
      } in
      signed-verify key p nonce o metadata b cipher readable

  verify-lookup :
      (key : Bytes) (o : Stored) (n : Option Bytes) (metadata : A) (b : Backend)
      → b key ≡ some o
      → verify_meta env key o.meta b ≡ (returned (n, metadata), b)
      → lookup env key b ≡ (returned metadata, b)
  unfolding lookup stored_at ◌>>=◌ gets pure
  verify-lookup key o n metadata b e v = rw (e, v) refl

  -- The metadata of an object that was written and then copied.
  fresh_meta-verify :
      (src dest : Bytes) (metadata : A) (c : Compression) (changed : Option A) (p : Option Bytes)
      (b : Backend)
      → IsCipher env
      → IsReadable env
      → let m = raw_meta env src metadata c p in
        verify_with env p dest
          (Option.get_or (fresh_meta env dest m p (nonce_of src p) metadata changed) m)
          b
        ≡ (returned (nonce_of src p, Option.get_or changed metadata), b)
  unfolding verify_with raw_meta fresh_meta verify_by required thawed ◌>>=◌ pure branch
  fresh_meta-verify src dest metadata c none none b cipher readable = rw (readable metadata) refl
  fresh_meta-verify src dest metadata c (some a) none b cipher readable = rw (readable a) refl
  fresh_meta-verify src dest metadata c changed (some p) b cipher readable =
      let nonce : Bytes = env.time ++ src in
      let new : A = Option.get_or changed metadata in
      signed-verify dest p nonce
        (record (raw_meta env src metadata c (some p)) {
          content = some (crypt (env.cipher (meta_key env p nonce)) 0 (env.freeze new));
        })
        new b cipher readable

  copy_or_rename_run :
      (src dest : Bytes) (rename : Bool) (changed : Option A) (o : Stored) (n : Option Bytes)
      (old : A) (b : Backend)
      → b src ≡ some o
      → verify_meta env src o.meta b ≡ (returned (n, old), b)
      → copy_or_rename env src dest rename changed b
        ≡ move_object src dest rename
            (fresh_meta env dest o.meta env.passphrase (truthy n) old changed)
            o
            b
  unfolding copy_or_rename stored_at ◌>>=◌ gets pure
  copy_or_rename_run src dest rename changed o n old b e v = rw (e, v) refl

  -- New metadata for an object is metadata for the backend.
  fresh_meta-changed :
      (dest : Bytes) (m : RawMeta) (key : Bytes) (p : Option Bytes) (old a : A)
      → (x : RawMeta) × (fresh_meta env dest m p (nonce_of key p) old (some a) ≡ some x)
  unfolding fresh_meta
  fresh_meta-changed dest m key none old a = (_, refl)
  fresh_meta-changed dest m key (some p) old a = (_, refl)

  truthy-nonce_of :
      (key : Bytes) (p : Option Bytes)
      → length env.time ≡ 8
      → truthy (nonce_of key p) ≡ nonce_of key p
  unfolding truthy
  truthy-nonce_of key none h = refl
  truthy-nonce_of key (some p) h = packed env.time h
    where
      packed : (t : Bytes) → length t ≡ 8 → truthy (some (t ++ key)) ≡ some (t ++ key)
      packed [] h = absurd (ground (arith, h))
      packed (x ∷ t) h = refl

-- What is at the target after a copy, a renaming or an update.
moved-dest :
    (src dest : Bytes) (rename : Bool) (m : Option RawMeta) (o : Stored) (b : Backend)
    → (eq_bytes src dest ≡ true → (x : RawMeta) × (m ≡ some x))
    → (after : Backend) × (move_object src dest rename m o b ≡ (returned tt, after))
      × (after dest ≡ some (with_meta m o))
unfolding move_object update_meta branch modify
moved-dest src dest rename m o b h = elim (Bool-cases (eq_bytes src dest)) [
  | inl e ↦
      let (x, ex) = h e in
      let at : put src (some (with_meta (some x) o)) b dest ≡ some (with_meta (some x) o) =
        rw (eq_bytes-eq src dest e) (put-key dest (some (with_meta (some x) o)) b) in
      (put src (some (with_meta (some x) o)) b, rw (e, ex) refl, rw ex at)
  | inr e ↦ elim (Bool-cases rename) [
    | inl f ↦ (
      put dest (some (with_meta m o)) (put src none b),
      rw (e, f) refl,
      put-key dest (some (with_meta m o)) (put src none b),
    )
    | inr f ↦
        (put dest (some (with_meta m o)) b, rw (e, f) refl, put-key dest (some (with_meta m o)) b)
  ]
]

-- With a cipher that a second pass undoes, metadata that can be read back and a time of eight bytes: the
-- metadata of an object that was written is what looking it up returns, and after it was copied, renamed or
-- given new metadata (which a copy onto itself needs), looking up the key it is under then returns the new
-- metadata, or that of the source where none was given.
pub copy_or_rename_lem :
    {A : Type 0} (env : Env A) (src dest : Bytes) (metadata : A) (changed : Option A)
    (c : Compression) (is_compressed rename : Bool) (payload : Bytes) (b : Backend)
    → IsCipher env
    → IsReadable env
    → length env.time ≡ 8
    → (eq_bytes src dest ≡ true → (a : A) × (changed ≡ some a))
    → let written = write_object env src metadata c is_compressed payload b in
      let (r, after) = copy_or_rename env src dest rename changed written in
      (lookup env src written ≡ (returned metadata, written))
      × (r ≡ returned tt)
      × (lookup env dest after ≡ (returned (Option.get_or changed metadata), after))
unfolding write_object verify_meta
copy_or_rename_lem env src dest metadata changed c is_compressed rename payload b cipher readable
      time given =
    let comp : Compression = chosen is_compressed c in
    let o : Stored = record {
      meta = raw_meta env src metadata comp env.passphrase;
      payload = payload;
    } in
    let written : Backend = put src (some o) b in
    let there : written src ≡ some o = put-key src (some o) b in
    let n : Option Bytes = nonce_of env src env.passphrase in
    let new : Option RawMeta = fresh_meta env dest o.meta env.passphrase n metadata changed in
    let v : verify_with env env.passphrase src o.meta written ≡ (returned (n, metadata), written) =
      raw_meta-verify env src metadata comp env.passphrase written cipher readable in
    let (after, moved, at) = moved-dest src dest rename new o written (λ e.
      let (a, ea) = given e in
      rw ea (fresh_meta-changed env dest o.meta src env.passphrase metadata a)) in
    let w : verify_with env env.passphrase dest (with_meta new o).meta after
        ≡ (returned (n, Option.get_or changed metadata), after) =
      fresh_meta-verify env src dest metadata comp changed env.passphrase after cipher readable in
    let run0 : copy_or_rename env src dest rename changed written
        ≡ move_object src dest rename
            (fresh_meta env dest o.meta env.passphrase (truthy n) metadata changed) o written =
      copy_or_rename_run env src dest rename changed o n metadata written there v in
    let run : copy_or_rename env src dest rename changed written ≡ (returned tt, after) =
      (rw (truthy-nonce_of env src env.passphrase time) at run0) ∙ moved in
    let found : lookup env dest after ≡ (returned (Option.get_or changed metadata), after) =
      verify-lookup env dest (with_meta new o) n (Option.get_or changed metadata) after at w in
    (verify-lookup env src o n metadata written there v, ap (λ r. r.0) run, rw run found)
