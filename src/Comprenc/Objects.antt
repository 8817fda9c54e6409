-- ===== src/Comprenc/Objects.antt =====
-- The operations of `ComprencBackend` in src/s3ql/backends/comprenc.py on the plain backend: `lookup`,
-- `open_read`, `open_write` and `_copy_or_rename`. The filters that `open_read` puts on the data are told
-- as a list, the first of them at the data.
use mathlib.Core.Option
use s3ql.Prelude.{ℕ, Bool, List, [], ◌∷◌, ◌++◌, Option, none, some, if◌then◌else◌}
use s3ql.Prelude.Effect.{pure, raise, gets, branch, modify, ◌>>=◌}
use s3ql.Fsck.State.{Bytes, eq_bytes}
use s3ql.Comprenc.Meta.{
  Encryption, Compression, unencrypted, aes_v2, uncompressed, bzip2, lzma, zlib, RawMeta, Stored,
  Backend, M, unsupported, type_error, truthy, no_such_object, Env, data_key, verify_meta, raw_meta,
  fresh_meta,
}

unfoldable pub stored_at : Option Stored → M Stored
stored_at none = raise no_such_object
stored_at (some o) = pure o

-- What the plain backend makes of a key.
unfoldable pub put : Bytes → Option Stored → Backend → Backend
put key o b = λ k. if eq_bytes k key then o else b k

pub data Filter : Type 0 where
  decrypt : Bytes → Filter
  decompress : Compression → Filter

-- What `open_read` returns: the metadata, the bytes to skip, and the filters.
pub record Opened (A : Type 0) : Type 0 where
  pub metadata : A
  pub skip : ℕ
  pub filters : List Filter

abbrev offset_of : Option ℕ → ℕ
offset_of none = 0
offset_of (some n) = n

-- Decryption without a key is an error too, one of Python.
unfoldable pub decrypt_layer : Option Encryption → Option Bytes → M (List Filter)
decrypt_layer (some aes_v2) (some key) = pure (decrypt key ∷ [])
decrypt_layer (some unencrypted) key = pure []
decrypt_layer _ key = raise unsupported

unfoldable pub decompress_layer : Option Compression → M (List Filter)
decompress_layer (some bzip2) = pure (decompress bzip2 ∷ [])
decompress_layer (some lzma) = pure (decompress lzma ∷ [])
decompress_layer (some zlib) = pure (decompress zlib ∷ [])
decompress_layer (some uncompressed) = pure []
decompress_layer _ = raise unsupported

-- `self.compression` of the backend, unless the data is compressed already
unfoldable pub chosen : Bool → Compression → Compression
chosen is_compressed c = if is_compressed then uncompressed else c

-- `update_meta`, `rename` and `copy` of the plain backend, with new metadata or that of the source
abbrev pub with_meta : Option RawMeta → Stored → Stored
with_meta m o = record o { meta = Option.get_or m o.meta }

unfoldable pub update_meta : Bytes → Option RawMeta → Stored → M (Unit {0})
unfolding put
update_meta key none o = raise type_error
update_meta key (some m) o = modify (put key (some (with_meta (some m) o)))

unfoldable pub move_object : Bytes → Bytes → Bool → Option RawMeta → Stored → M (Unit {0})
unfolding put update_meta
move_object src dest rename m o = branch (eq_bytes src dest) (update_meta src m o) do
  branch rename (modify (λ b. put dest (some (with_meta m o)) (put src none b)))
      (modify (put dest (some (with_meta m o))))

module _ {A : Type 0} (env : Env A) where
  unfoldable pub lookup : Bytes → M A
  unfolding stored_at verify_meta
  lookup key = do
    row ← gets (λ b. b key)
    o ← stored_at row
    (nonce, meta) ← verify_meta env key o.meta
    pure meta

  -- `data_key = sha256(self.passphrase + nonce)`
  unfoldable pub key_of : Option Bytes → Option Bytes → Option Bytes
  key_of (some passphrase) (some nonce) = some (data_key env passphrase nonce)
  key_of none (some nonce) = none
  key_of _ none = none

  unfoldable pub open_read : Bytes → M (Opened A)
  unfolding stored_at verify_meta truthy key_of decrypt_layer decompress_layer
  open_read key = do
    row ← gets (λ b. b key)
    o ← stored_at row
    (nonce, meta) ← verify_meta env key o.meta
    inner ← decrypt_layer o.meta.encryption (key_of env.passphrase (truthy nonce))
    outer ← decompress_layer o.meta.compression
    pure (record {
      metadata = meta;
      skip = offset_of o.meta.payload_offset;
      filters = inner ++ outer;
    })

  -- `open_write` and the end of what is written: `payload` is what the filters made of the data.
  unfoldable pub write_object : Bytes → A → Compression → Bool → Bytes → Backend → Backend
  unfolding put raw_meta chosen
  write_object key metadata compression is_compressed payload b =
      put key
        (some (record {
          meta = raw_meta env key metadata (chosen is_compressed compression) env.passphrase;
          payload = payload;
        }))
        b

  -- `_copy_or_rename`
  unfoldable pub copy_or_rename : Bytes → Bytes → Bool → Option A → M (Unit {0})
  unfolding stored_at verify_meta truthy fresh_meta move_object
  copy_or_rename src dest rename metadata = do
    row ← gets (λ b. b src)
    o ← stored_at row
    (nonce, old) ← verify_meta env src o.meta
    move_object src dest rename
        (fresh_meta env dest o.meta env.passphrase (truthy nonce) old metadata) o
