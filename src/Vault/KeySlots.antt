-- ===== src/Vault/KeySlots.antt =====
-- security/vault_keyslots.py: the key slots of version 3 vaults, each a wrapped copy of the random
-- key that the payload is encrypted with. A function that draws random bytes takes the number of
-- its first draw.
pub mod RoundTrip
use gpg_meister.Base.{
  Option, Result, err, length, none, not, ok, raise_if, some, value_error, ℕ, ◌++◌, ◌+◌, ◌==◌,
  ◌>>=◌, ◌>>◌,
}
use gpg_meister.Model.Fields.{CipherAlgorithm, KdfFields, decoded, from_params}
use gpg_meister.Model.KdfParams.{KdfParams}
use gpg_meister.Model.KeySlot.{VaultKeySlot, VaultSlotType, openpgp, passphrase, validate_slot}
use gpg_meister.Model.VaultHeader.{vault_format_tag}
use gpg_meister.Python.{Bytes, Text}
use gpg_meister.Python.Base64.Digits.{b64encode}
use gpg_meister.Python.Text.{codes}
use gpg_meister.Security.Aead.{decrypt, encrypt, generate_nonce, key_len}
use gpg_meister.Security.Buffers.{SecureBytes, from_bytes, view}
use gpg_meister.Security.Entropy.{Entropy}
use gpg_meister.Security.Environment.{Environment}
use gpg_meister.Security.Kdf.{derive_key, generate_salt}

abbrev pub file_key_len : ℕ
file_key_len = key_len

abbrev slot_type_value : VaultSlotType → Text
slot_type_value passphrase = codes "passphrase"
slot_type_value openpgp = codes "openpgp"

-- `slot_associated_data(slot_type)`; the text is ASCII, so its bytes are its code points
unfoldable pub slot_associated_data : VaultSlotType → Bytes
slot_associated_data t = vault_format_tag ++ (codes ":slot:" ++ slot_type_value t)

unfoldable pub generate_file_key : Environment → Entropy → ℕ → SecureBytes
generate_file_key env random i = from_bytes env.mlock (random.token_bytes i file_key_len)

-- `file_key_from_bytes(raw)`
unfoldable pub file_key_from_bytes : Environment → Bytes → Result SecureBytes
file_key_from_bytes env raw = do
  raise_if (not (length raw == file_key_len))
      (value_error "unwrapped vault key has the wrong length")
  ok (from_bytes env.mlock raw)

-- `wrap_with_passphrase(file_key, passphrase, params, cipher)`
unfoldable pub wrap_with_passphrase :
    Environment
    → Entropy
    → ℕ
    → SecureBytes
    → SecureBytes
    → KdfParams
    → CipherAlgorithm
    → Result VaultKeySlot
wrap_with_passphrase env random i file_key pw params cipher = do
  salt ← generate_salt (random.token_bytes i) params.salt_len
  let nonce = generate_nonce (random.token_bytes (i + 1))
  slot_key ← derive_key env pw salt params
  plaintext ← view file_key
  wrapped ← encrypt env plaintext slot_key nonce (slot_associated_data passphrase) cipher
  kdf ← from_params params salt
  validate_slot (record {
    type = passphrase;
    wrapped_key_b64 = b64encode wrapped;
    kdf = some kdf;
    nonce_b64 = some (b64encode nonce);
    fingerprint = none;
    label = codes "Master passphrase";
  })

passphrase_kdf : VaultSlotType → Option KdfFields → Result KdfFields
passphrase_kdf passphrase (some k) = ok k
passphrase_kdf passphrase none = err (value_error "not a passphrase key slot")
passphrase_kdf openpgp k = err (value_error "not a passphrase key slot")

-- `VaultKeySlot.nonce`
slot_nonce : Option Text → Result Bytes
slot_nonce none = err (value_error "this slot has no nonce")
slot_nonce (some b) = decoded b

-- `unwrap_with_passphrase(slot, passphrase, params, cipher)`
unfoldable pub unwrap_with_passphrase :
    Environment → VaultKeySlot → SecureBytes → KdfParams → CipherAlgorithm → Result SecureBytes
unfolding passphrase_kdf slot_nonce
unwrap_with_passphrase env slot pw params cipher = do
  k ← passphrase_kdf slot.type slot.kdf
  salt ← decoded k.salt_b64
  slot_key ← derive_key env pw salt params
  wrapped ← decoded slot.wrapped_key_b64
  nonce ← slot_nonce slot.nonce_b64
  raw ← decrypt env wrapped slot_key nonce (slot_associated_data passphrase) cipher
  file_key_from_bytes env raw

-- `openpgp_slot(wrapped, fingerprint, label)`
unfoldable pub openpgp_slot : Bytes → Text → Text → Result VaultKeySlot
openpgp_slot wrapped fingerprint label = validate_slot (record {
  type = openpgp;
  wrapped_key_b64 = b64encode wrapped;
  kdf = none;
  nonce_b64 = none;
  fingerprint = some fingerprint;
  label = label;
})
