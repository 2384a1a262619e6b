-- ===== src/Model/Fields.antt =====
-- models/vault.py and models/key_info.py: the fields that vault headers and unlock slots share. A
-- record stands for the fields as pydantic reads them; `validate_*` are the source's validators,
-- which run on every construction. The first failing validator's message is kept, where pydantic
-- collects them all.
use gpg_meister.Base.{
  Bool, Result, String, all, err, if◌then◌else◌, length, none, not, ok, raise_if, some,
  validation_error, value_error, within, ℕ, ◌&&◌, ◌==◌, ◌>>=◌, ◌>>◌,
}
use gpg_meister.Model.KdfParams.{
  KdfAlgorithm, KdfParams, costs_in_bounds, kdf_params, max_salt_len, min_salt_len,
}
use gpg_meister.Python.{Bytes, Text}
use gpg_meister.Python.Base64.Digits.{b64decode, b64encode}
use gpg_meister.Python.Text.{is_upper_hex, upper}

abbrev pub nonce_len : ℕ
nonce_len = 12

abbrev pub fingerprint_length : ℕ
fingerprint_length = 40

-- models/key_info.py
unfoldable pub normalise_fingerprint : Text → Result Text
unfolding is_upper_hex
normalise_fingerprint value =
    let up = upper value in
    if (length up == fingerprint_length) && all is_upper_hex up
    then ok up
    else err (value_error "fingerprint must be 40 uppercase hex characters")

-- A base64 field whose decoded bytes pass a test; the callers differ in the test alone.
abbrev pub checked_b64 : Text → (Bytes → Bool) → String → Result Text
checked_b64 value good message = elim (b64decode value) [
  | none ↦ err (validation_error "must be valid base64")
  | some raw ↦ if good raw then ok value else err (validation_error message)
]

unfoldable pub validate_nonce_b64 : Text → Result Text
validate_nonce_b64 value =
    checked_b64 value (λ raw. length raw == nonce_len) "nonce must decode to 12 bytes"

pub data CipherAlgorithm : Type 0 where
  chacha20_poly1305 aes_256_gcm : CipherAlgorithm

pub record CipherParams : Type 0 where
  pub algorithm : CipherAlgorithm
  pub nonce_b64 : Text

unfoldable pub validate_cipher : CipherParams → Result CipherParams
unfolding validate_nonce_b64
validate_cipher c = validate_nonce_b64 c.nonce_b64 >>= λ _. ok c

pub record KdfFields : Type 0 where
  pub algorithm : KdfAlgorithm
  pub salt_b64 : Text
  pub time_cost : ℕ
  pub memory_cost : ℕ
  pub parallelism : ℕ
  pub hash_len : ℕ

unfoldable pub validate_kdf_fields : KdfFields → Result KdfFields
unfolding costs_in_bounds
validate_kdf_fields k = do
  raise_if (not (costs_in_bounds k.time_cost k.memory_cost k.parallelism k.hash_len))
      (validation_error "KDFFields field out of range")
  checked_b64 k.salt_b64 (λ raw. within min_salt_len max_salt_len (length raw))
      "salt must decode to between 16 and 64 bytes"
  ok k

-- The properties `nonce`, `salt` and `wrapped_key` decode a field that was validated before; a
-- field that does not decode raises again.
unfoldable pub decoded : Text → Result Bytes
decoded value = elim (b64decode value) [
  | none ↦ err (value_error "invalid base64")
  | some raw ↦ ok raw
]

-- `KDFFields.from_params(params, salt)`
unfoldable pub from_params : KdfParams → Bytes → Result KdfFields
unfolding validate_kdf_fields
from_params params salt = validate_kdf_fields (record {
  algorithm = params.algorithm;
  salt_b64 = b64encode salt;
  time_cost = params.time_cost;
  memory_cost = params.memory_cost;
  parallelism = params.parallelism;
  hash_len = params.hash_len;
})

-- `KDFFields.to_params()`
unfoldable pub to_params : KdfFields → Result KdfParams
unfolding decoded kdf_params
to_params k = do
  salt ← decoded k.salt_b64
  kdf_params (record {
    algorithm = k.algorithm;
    time_cost = k.time_cost;
    memory_cost = k.memory_cost;
    parallelism = k.parallelism;
    hash_len = k.hash_len;
    salt_len = length salt;
  })
