-- ===== src/Comprenc/Meta.antt =====
-- The metadata of an object in src/s3ql/backends/comprenc.py: what `open_write` signs and encrypts, what
-- `_verify_meta` accepts, and `_copy_or_rename`; with `checksum_basic_mapping` of
-- src/s3ql/backends/common.py.
use mathlib.Core.Option
use s3ql.Prelude.{
  ℕ, suc, ◌/◌, ◌%◌, Bool, false, not, List, [], ◌∷◌, ◌++◌, Option, none, some, length, ◌==◌,
}
use s3ql.Prelude.Effect.{Action, pure, raise, branch, ◌>>=◌, ◌>>◌}
use s3ql.Fsck.State.{Bytes, eq_bytes}
use s3ql.Fsck.Paths.{decimal}

-- `metadata['encryption']`, and `metadata['compression']`
pub data Encryption : Type 0 where
  unencrypted aes_v2 other_encryption : Encryption

pub data Compression : Type 0 where
  uncompressed bzip2 lzma zlib other_compression : Compression

-- The dictionary that is stored with an object, with the keys that the program writes.
pub record RawMeta : Type 0 where
  pub format_version : Option ℕ
  pub encryption : Option Encryption
  pub compression : Option Compression
  pub content : Option Bytes
  pub nonce : Option Bytes
  pub object_id : Option Bytes
  pub payload_offset : Option ℕ
  pub signature : Option Bytes

pub data Error : Type 0 where
  corrupted_object object_not_encrypted thaw_error unsupported type_error no_such_object : Error

-- An object in the backend: its metadata and its data.
pub record Stored : Type 0 where
  pub meta : RawMeta
  pub payload : Bytes

abbrev pub Backend : Type 0
Backend = Bytes → Option Stored

abbrev pub M : Type 0 → Type 0
M = Action Error Backend

-- What the program gets from elsewhere: the passphrase, the hash functions, the key stream of the cipher
-- (CTR mode, the byte at a position with a byte of the stream), `freeze_basic_mapping` and
-- `thaw_basic_mapping`, which write a mapping as text and read it, and the packed time.
pub record Env (A : Type 0) : Type 0 where
  pub passphrase : Option Bytes
  pub sha256 : Bytes → Bytes
  pub hmac : Bytes → Bytes → Bytes
  pub cipher : Bytes → ℕ → ℕ → ℕ
  pub freeze : A → Bytes
  pub thaw : Bytes → Option A
  pub time : Bytes

-- A value of `checksum_basic_mapping`
pub data Value : Type 0 where
  str_value bytes_value : Bytes → Value
  int_value : ℕ → Value

-- `struct.pack('<I', n)`
unfoldable pub pack : ℕ → Bytes
pack n = n % 256 ∷ n / 256 % 256 ∷ n / 65536 % 256 ∷ n / 16777216 % 256 ∷ []

-- 115 is the letter s, 105 is i and 98 is b.
unfoldable pub encode_value : Value → Bytes
unfolding decimal pack
encode_value (str_value s) = 0 ∷ 115 ∷ (s ++ 0 ∷ [])
encode_value (int_value n) = 0 ∷ 105 ∷ (decimal n ++ 0 ∷ [])
encode_value (bytes_value s) = 0 ∷ 98 ∷ (pack (length s) ++ s)

unfoldable pub encode_entries : List (Bytes × Value) → Bytes
unfolding encode_value
encode_entries [] = []
encode_entries ((k, v) ∷ d) = k ++ encode_value v ++ encode_entries d

-- The names of the values, and of the keys.
unfoldable pub encryption_name : Encryption → Bytes
encryption_name unencrypted = b'N' ∷ b'o' ∷ b'n' ∷ b'e' ∷ []
encryption_name aes_v2 = b'A' ∷ b'E' ∷ b'S' ∷ b'_' ∷ b'v' ∷ b'2' ∷ []
encryption_name other_encryption = b'?' ∷ []

unfoldable pub compression_name : Compression → Bytes
compression_name uncompressed = b'N' ∷ b'o' ∷ b'n' ∷ b'e' ∷ []
compression_name bzip2 = b'B' ∷ b'Z' ∷ b'I' ∷ b'P' ∷ b'2' ∷ []
compression_name lzma = b'L' ∷ b'Z' ∷ b'M' ∷ b'A' ∷ []
compression_name zlib = b'Z' ∷ b'L' ∷ b'I' ∷ b'B' ∷ []
compression_name other_compression = b'?' ∷ []

unfoldable pub entry : {A : Type 0} → Bytes → (A → Value) → Option A → List (Bytes × Value)
entry k f none = []
entry k f (some a) = (k, f a) ∷ []

-- The entries in the order of their keys, without the signature.
unfoldable pub entries : RawMeta → List (Bytes × Value)
unfolding entry encryption_name compression_name
entries m =
    entry (b'c' ∷ b'o' ∷ b'm' ∷ b'p' ∷ b'r' ∷ b'e' ∷ b's' ∷ b's' ∷ b'i' ∷ b'o' ∷ b'n' ∷ [])
      (λ c. str_value (compression_name c)) m.compression
    ++ entry (b'd' ∷ b'a' ∷ b't' ∷ b'a' ∷ []) bytes_value m.content
    ++ entry (b'e' ∷ b'n' ∷ b'c' ∷ b'r' ∷ b'y' ∷ b'p' ∷ b't' ∷ b'i' ∷ b'o' ∷ b'n' ∷ [])
        (λ e. str_value (encryption_name e)) m.encryption
    ++ entry
        (b'f' ∷ b'o' ∷ b'r' ∷ b'm' ∷ b'a' ∷ b't' ∷ b'_' ∷ b'v' ∷ b'e' ∷ b'r' ∷ b's' ∷ b'i' ∷ b'o'
          ∷ b'n' ∷ [])
        int_value m.format_version
    ++ entry (b'n' ∷ b'o' ∷ b'n' ∷ b'c' ∷ b'e' ∷ []) bytes_value m.nonce
    ++ entry (b'o' ∷ b'b' ∷ b'j' ∷ b'e' ∷ b'c' ∷ b't' ∷ b'_' ∷ b'i' ∷ b'd' ∷ []) str_value
        m.object_id
    ++ entry
        (b'p' ∷ b'a' ∷ b'y' ∷ b'l' ∷ b'o' ∷ b'a' ∷ b'd' ∷ b'_' ∷ b'o' ∷ b'f' ∷ b'f' ∷ b's' ∷ b'e'
          ∷ b't' ∷ [])
        int_value m.payload_offset

-- `encryptor.update(buf)` and `decryptor.update(buf)`, with the stream at `pos`
unfoldable pub crypt : (ℕ → ℕ → ℕ) → ℕ → Bytes → Bytes
crypt stream pos [] = []
crypt stream pos (x ∷ s) = stream pos x ∷ crypt stream (suc pos) s

-- b'meta'
abbrev pub meta_suffix : Bytes
meta_suffix = b'm' ∷ b'e' ∷ b't' ∷ b'a' ∷ []

-- `metadata[key]` for a key that is there, or an exception.
unfoldable pub required : {A : Type 0} → Option A → M A
required none = raise corrupted_object
required (some a) = pure a

-- `if nonce:`, which an empty nonce does not pass
unfoldable pub truthy : Option Bytes → Option Bytes
truthy none = none
truthy (some []) = none
truthy (some (x ∷ s)) = some (x ∷ s)

module _ {A : Type 0} (env : Env A) where
  -- `checksum_basic_mapping`, which leaves the signature out
  unfoldable pub checksum_basic_mapping : RawMeta → Bytes → Bytes
  unfolding encode_entries entries
  checksum_basic_mapping m key = env.hmac key (encode_entries (entries m))

  unfoldable pub meta_key : Bytes → Bytes → Bytes
  meta_key passphrase nonce = env.sha256 (passphrase ++ nonce ++ meta_suffix)

  unfoldable pub data_key : Bytes → Bytes → Bytes
  data_key passphrase nonce = env.sha256 (passphrase ++ nonce)

  unfoldable pub thawed : Error → Option A → M A
  thawed e none = raise e
  thawed e (some a) = pure a

  -- The part of `_verify_meta` for an encrypted object. `thaw_basic_mapping` is called before the `try`.
  unfoldable pub verify_encrypted : Bytes → Bytes → RawMeta → Bytes → M (Option Bytes × A)
  unfolding required thawed
  verify_encrypted key passphrase m buf = do
    nonce ← required m.nonce
    signature ← required m.signature
    stored_key ← required m.object_id
    branch (not (eq_bytes signature (checksum_basic_mapping m (meta_key passphrase nonce))))
        (raise corrupted_object)
        do
          branch (not (eq_bytes stored_key key)) (raise corrupted_object) do
            meta ←
                thawed thaw_error (env.thaw (crypt (env.cipher (meta_key passphrase nonce)) 0 buf))
            pure (some nonce, meta)

  unfoldable pub verify_by :
      Bytes → Encryption → Option Bytes → RawMeta → Bytes → M (Option Bytes × A)
  unfolding thawed verify_encrypted
  verify_by key unencrypted none m buf = do
    meta ← thawed corrupted_object (env.thaw buf)
    pure (none, meta)
  verify_by key unencrypted (some p) m buf = raise object_not_encrypted
  verify_by key aes_v2 none m buf = raise corrupted_object
  verify_by key aes_v2 (some p) m buf = verify_encrypted key p m buf
  verify_by key other_encryption none m buf = raise corrupted_object
  verify_by key other_encryption (some p) m buf = verify_encrypted key p m buf

  -- `metadata.get('format_version', 0) != 2`
  abbrev is_version_2 : Option ℕ → Bool
  is_version_2 none = false
  is_version_2 (some n) = n == 2

  -- `_verify_meta` with a passphrase or without one
  unfoldable pub verify_with : Option Bytes → Bytes → RawMeta → M (Option Bytes × A)
  unfolding required verify_by
  verify_with passphrase key m =
      branch (not (is_version_2 m.format_version)) (raise corrupted_object) do
        encryption ← required m.encryption
        required m.compression
        buf ← required m.content
        verify_by key encryption passphrase m buf

  unfoldable pub verify_meta : Bytes → RawMeta → M (Option Bytes × A)
  unfolding verify_with
  verify_meta key m = verify_with env.passphrase key m

  -- The metadata that `open_write` stores.
  unfoldable pub sign : Bytes → Bytes → Bytes → RawMeta → RawMeta
  sign key passphrase nonce m =
      let mkey = meta_key passphrase nonce in
      record m { signature = some (checksum_basic_mapping m mkey) }

  unfoldable pub raw_meta : Bytes → A → Compression → Option Bytes → RawMeta
  unfolding sign
  raw_meta key metadata compression none = record {
    format_version = some 2;
    encryption = some unencrypted;
    compression = some compression;
    content = some (env.freeze metadata);
    nonce = none;
    object_id = none;
    payload_offset = none;
    signature = none;
  }
  raw_meta key metadata compression (some passphrase) =
      let nonce = env.time ++ key in
      sign key passphrase nonce (record {
        format_version = some 2;
        encryption = some aes_v2;
        compression = some compression;
        content = some (crypt (env.cipher (meta_key passphrase nonce)) 0 (env.freeze metadata));
        nonce = some nonce;
        object_id = some key;
        payload_offset = none;
        signature = none;
      })

  -- The metadata that `_copy_or_rename` gives the backend, `none` for that of the source.
  unfoldable pub fresh_meta :
      Bytes → RawMeta → Option Bytes → Option Bytes → A → Option A → Option RawMeta
  unfolding sign
  fresh_meta dest m (some passphrase) (some nonce) old metadata = some (
      sign dest passphrase nonce (record m {
        content = some (
            crypt (env.cipher (meta_key passphrase nonce)) 0
              (env.freeze (Option.get_or metadata old)));
        object_id = some dest;
      }))
  fresh_meta dest m none (some nonce) old metadata = none
  fresh_meta dest m passphrase none old none = none
  fresh_meta dest m passphrase none old (some a) = some (record m { content = some (env.freeze a) })
