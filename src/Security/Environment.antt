-- ===== src/Security/Environment.antt =====
-- What the program takes from outside of its sources: the operating system's page pinning, argon2
-- (argon2-cffi), the two AEAD ciphers (cryptography), pydantic's reading and writing of JSON, and msgpack.
-- The laws are the documented behaviour of those libraries.
use gpg_meister.Base.{Bool, Error, Option, [], length, ok, some, ℕ, ◌+◌, ◌≡◌}
use gpg_meister.Model.Fields.{CipherAlgorithm}
use gpg_meister.Model.Manifest.{VaultManifest, validate_manifest}
use gpg_meister.Model.VaultHeader.{VaultHeader, validate_header}
use gpg_meister.Python.{Bytes, IsBytes}

-- Header bytes that are decoded, parsed by `json.loads` and given to the model: a
-- `UnicodeDecodeError` or a `JSONDecodeError`, another exception of `json.loads` (a plain
-- `ValueError` for a number of too many digits, a `RecursionError` for deep nesting), fields of
-- other names or types than the model's, or the model's fields.
pub data HeaderRead : Type 0 where
  not_json : HeaderRead
  json_raised : Error → HeaderRead
  wrong_fields : HeaderRead
  header_fields : VaultHeader → HeaderRead

-- Bytes that `msgpack.unpackb` reads: an exception of its own, a value that is no map, a map with
-- other fields than the model's, or the model's fields.
pub data ManifestRead : Type 0 where
  msgpack_raised : Error → ManifestRead
  no_map : ManifestRead
  wrong_manifest : ManifestRead
  manifest_fields : VaultManifest → ManifestRead

pub record Environment : Type 0 where
  -- whether the system pins a buffer of the size
  pub mlock : ℕ → Bool
  -- `hash_secret_raw(secret, salt, time, memory, lanes, hash_len)`; `none` is an `Argon2Error`
  pub argon2 : Bytes → Bytes → ℕ → ℕ → ℕ → ℕ → Option Bytes
  -- `aead.encrypt(nonce, data, associated_data)` under a key
  pub seal : CipherAlgorithm → Bytes → Bytes → Bytes → Bytes → Bytes
  -- `aead.decrypt(nonce, data, associated_data)` under a key; `none` is `InvalidTag`
  pub unseal : CipherAlgorithm → Bytes → Bytes → Bytes → Bytes → Option Bytes
  -- `json.dumps` of a header's `model_dump` without its unset fields, with sorted keys and no white
  -- space, in UTF-8, and reading JSON as the fields of a header
  pub header_json : VaultHeader → Bytes
  pub read_header : Bytes → HeaderRead
  -- a manifest as msgpack, and reading msgpack as the fields of a manifest
  pub manifest_msgpack : VaultManifest → Bytes
  pub read_manifest : Bytes → ManifestRead
  pub length-argon2 :
      (secret salt : Bytes) (time memory lanes hash_len : ℕ) (raw : Bytes)
      → argon2 secret salt time memory lanes hash_len ≡ some raw
      → length raw ≡ hash_len
  pub unseal-seal :
      (c : CipherAlgorithm) (key nonce text aad : Bytes)
      → unseal c key nonce (seal c key nonce text aad) aad ≡ some text
  -- the tag is 16 bytes
  pub length-seal :
      (c : CipherAlgorithm) (key nonce text aad : Bytes)
      → length (seal c key nonce text aad) ≡ length text + 16
  pub seal-IsBytes :
      (c : CipherAlgorithm) (key nonce text aad : Bytes)
      → IsBytes text
      → IsBytes (seal c key nonce text aad)
  pub read_header-header_json :
      (h : VaultHeader) → validate_header h ≡ ok h → read_header (header_json h) ≡ header_fields h
  -- a valid manifest is within the size limits of `_deserialise_manifest`
  pub read_manifest-manifest_msgpack :
      (m : VaultManifest)
      → validate_manifest m ≡ ok m
      → read_manifest (manifest_msgpack m) ≡ manifest_fields m
  -- the empty text is no JSON
  pub read_header-nil : read_header [] ≡ not_json
