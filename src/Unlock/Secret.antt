-- ===== src/Unlock/Secret.antt =====
-- security/key_unlock.py: wrapping and unwrapping of a key's passphrase. A function that draws
-- random bytes takes the number of its first draw.
pub mod RoundTrip
use gpg_meister.Base.{
  Bool, List, Option, Result, [], any, contains, decryption_error, err, false, length, none, not,
  ok, raise_if, some, true, value_error, within, ℕ, ◌++◌, ◌+◌, ◌==◌, ◌>>=◌, ◌>>◌, ◌∷◌,
}
use gpg_meister.Model.Fields.{CipherAlgorithm, KdfFields, decoded, from_params}
use gpg_meister.Model.KdfParams.{KdfParams}
use gpg_meister.Python.{Bytes, Text}
use gpg_meister.Python.Base64.Digits.{b64encode}
use gpg_meister.Python.Text.{codes}
use gpg_meister.Security.Aead.{decrypt, encrypt, generate_nonce, key_len}
use gpg_meister.Security.Buffers.{SecureBytes, from_bytes, view}
use gpg_meister.Security.Entropy.{Entropy}
use gpg_meister.Security.Environment.{Environment}
use gpg_meister.Security.Kdf.{derive_key, generate_salt}
use gpg_meister.Unlock.Slot.{
  FidoCredential, KeyUnlockSlot, UnlockSlotType, by_fido, by_passphrase, unlock_format_tag,
  validate_unlock_slot,
}

abbrev pub key_secret_raw_len : ℕ
key_secret_raw_len = 32

abbrev pub max_key_secret_len : ℕ
max_key_secret_len = 200

abbrev pub framing_bytes : List ℕ
framing_bytes = 0x00 ∷ 0x0a ∷ 0x0d ∷ []

abbrev pub token_secret_len : ℕ
token_secret_len = key_len

abbrev unlock_type_value : UnlockSlotType → Text
unlock_type_value by_passphrase = codes "passphrase"
unlock_type_value by_fido = codes "fido"

-- `slot_associated_data(slot_type)`
unfoldable pub unlock_associated_data : UnlockSlotType → Bytes
unlock_associated_data t = unlock_format_tag ++ (codes ":slot:" ++ unlock_type_value t)

unfoldable pub generate_key_secret : Environment → Entropy → ℕ → SecureBytes
generate_key_secret env random i =
    from_bytes env.mlock (b64encode (random.token_bytes i key_secret_raw_len))

-- `check_secret(secret)`
unfoldable pub check_secret : SecureBytes → Result (Unit {0})
check_secret secret = do
  raise_if (not (within 1 max_key_secret_len secret.size))
      (value_error "a key secret must be 1 to 200 bytes")
  bytes ← view secret
  raise_if (any (λ byte. contains byte framing_bytes) bytes)
      (value_error "a key secret must not contain NUL or newline characters")

-- `_secret_from_bytes(raw)`
unfoldable pub secret_from_bytes : Environment → Bytes → Result SecureBytes
secret_from_bytes env raw = do
  raise_if (not (within 1 max_key_secret_len (length raw)))
      (decryption_error "unwrapped key secret has an implausible length")
  ok (from_bytes env.mlock raw)

-- `wrap_with_passphrase(secret, passphrase, params, label, cipher)`
unfoldable pub wrap_secret_with_passphrase :
    Environment
    → Entropy
    → ℕ
    → SecureBytes
    → SecureBytes
    → KdfParams
    → Text
    → CipherAlgorithm
    → Result KeyUnlockSlot
wrap_secret_with_passphrase env random i secret pw params label cipher = do
  check_secret secret
  salt ← generate_salt (random.token_bytes i) params.salt_len
  let nonce = generate_nonce (random.token_bytes (i + 1))
  slot_key ← derive_key env pw salt params
  plaintext ← view secret
  wrapped ← encrypt env plaintext slot_key nonce (unlock_associated_data by_passphrase) cipher
  kdf ← from_params params salt
  validate_unlock_slot (record {
    type = by_passphrase;
    wrapped_secret_b64 = b64encode wrapped;
    nonce_b64 = b64encode nonce;
    kdf = some kdf;
    fido = none;
    label = label;
  })

unlock_kdf : UnlockSlotType → Option KdfFields → Result KdfFields
unlock_kdf by_passphrase (some k) = ok k
unlock_kdf by_passphrase none = err (value_error "not a passphrase unlock slot")
unlock_kdf by_fido k = err (value_error "not a passphrase unlock slot")

-- `unwrap_with_passphrase(slot, passphrase, params, cipher)`
unfoldable pub unwrap_secret_with_passphrase :
    Environment → KeyUnlockSlot → SecureBytes → KdfParams → CipherAlgorithm → Result SecureBytes
unfolding unlock_kdf
unwrap_secret_with_passphrase env slot pw params cipher = do
  k ← unlock_kdf slot.type slot.kdf
  salt ← decoded k.salt_b64
  slot_key ← derive_key env pw salt params
  wrapped ← decoded slot.wrapped_secret_b64
  nonce ← decoded slot.nonce_b64
  raw ← decrypt env wrapped slot_key nonce (unlock_associated_data by_passphrase) cipher
  secret_from_bytes env raw

-- `_check_token_secret(token_secret)`
unfoldable pub check_token_secret : SecureBytes → Result (Unit {0})
check_token_secret token_secret =
    raise_if (not (token_secret.size == token_secret_len))
      (value_error "a token secret must be exactly 32 bytes")

-- `wrap_with_token(secret, token_secret, credential, cipher)`
unfoldable pub wrap_with_token :
    Environment
    → Entropy
    → ℕ
    → SecureBytes
    → SecureBytes
    → FidoCredential
    → CipherAlgorithm
    → Result KeyUnlockSlot
wrap_with_token env random i secret token_secret credential cipher = do
  check_secret secret
  check_token_secret token_secret
  let nonce = generate_nonce (random.token_bytes i)
  plaintext ← view secret
  wrapped ← encrypt env plaintext token_secret nonce (unlock_associated_data by_fido) cipher
  validate_unlock_slot (record {
    type = by_fido;
    wrapped_secret_b64 = b64encode wrapped;
    nonce_b64 = b64encode nonce;
    kdf = none;
    fido = some credential;
    label = credential.label;
  })

is_token_slot : UnlockSlotType → Option FidoCredential → Bool
is_token_slot by_fido (some f) = true
is_token_slot by_fido none = false
is_token_slot by_passphrase f = false

-- `unwrap_with_token(slot, token_secret, cipher)`
unfoldable pub unwrap_with_token :
    Environment → KeyUnlockSlot → SecureBytes → CipherAlgorithm → Result SecureBytes
unfolding is_token_slot
unwrap_with_token env slot token_secret cipher = do
  raise_if (not (is_token_slot slot.type slot.fido)) (value_error "not a FIDO unlock slot")
  check_token_secret token_secret
  wrapped ← decoded slot.wrapped_secret_b64
  nonce ← decoded slot.nonce_b64
  raw ← decrypt env wrapped token_secret nonce (unlock_associated_data by_fido) cipher
  secret_from_bytes env raw
