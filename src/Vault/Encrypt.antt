-- ===== src/Vault/Encrypt.antt =====
-- services/vault_service.py: the encryption of a payload into a vault frame, under a key that is
-- derived from the passphrase (version 2) or under a random key in key slots (version 3).
-- `_build_header(cipher, salt, nonce, params)`
use gpg_meister.Base.{
  List, Option, Result, [], is_empty, length, ltb, none, ok, raise_if, some, vault_service_error,
  ◌++◌, ◌>>=◌, ◌>>◌, ◌∷◌,
}
use gpg_meister.Model.Fields.{CipherAlgorithm, from_params, validate_cipher}
use gpg_meister.Model.KdfParams.{KdfParams}
use gpg_meister.Model.KeySlot.{VaultKeySlot, max_vault_key_slots}
use gpg_meister.Model.VaultHeader.{
  VaultHeader, validate_header, vault_format_tag, vault_format_version, vault_format_version_slots,
}
use gpg_meister.Python.{Bytes}
use gpg_meister.Python.Base64.Digits.{b64encode}
use gpg_meister.Security.Aead.{encrypt, generate_nonce}
use gpg_meister.Security.Buffers.{SecureBytes}
use gpg_meister.Security.Entropy.{Entropy}
use gpg_meister.Security.Environment.{Environment}
use gpg_meister.Security.Kdf.{derive_key, generate_salt}
use gpg_meister.Vault.Cards.{wrap_for_keys}
use gpg_meister.Vault.Format.{pack}
use gpg_meister.Vault.KeySlots.{generate_file_key, wrap_with_passphrase}
use gpg_meister.Vault.Open.{vault_key}

unfoldable pub build_header : CipherAlgorithm → Bytes → Bytes → KdfParams → Result VaultHeader
build_header cipher salt nonce params = do
  kdf ← from_params params salt
  cipher_params ← validate_cipher (record { algorithm = cipher; nonce_b64 = b64encode nonce })
  validate_header (record {
    format = vault_format_tag;
    version = vault_format_version;
    kdf = some kdf;
    cipher = cipher_params;
    key_slots = none;
  })

-- What both encryptions end with: the header is packed with no ciphertext for the associated data,
-- and packed again with the ciphertext.
unfoldable pub seal_frame :
    Environment → VaultHeader → Bytes → SecureBytes → Bytes → CipherAlgorithm → Result Bytes
seal_frame env header plaintext key nonce cipher = do
  (empty_frame, header_bytes) ← pack env header []
  ciphertext ← encrypt env plaintext key nonce header_bytes cipher
  (frame, same_bytes) ← pack env header ciphertext
  ok frame

-- `_encrypt_payload(plaintext, master_passphrase, params, cipher)`
unfoldable pub encrypt_payload :
    Environment → Entropy → Bytes → SecureBytes → KdfParams → CipherAlgorithm → Result Bytes
encrypt_payload env random plaintext pw params cipher = do
  salt ← generate_salt (random.token_bytes 0) params.salt_len
  let nonce = generate_nonce (random.token_bytes 1)
  header ← build_header cipher salt nonce params
  vault_key ← derive_key env pw salt params
  seal_frame env header plaintext vault_key nonce cipher

passphrase_slots :
    Environment
    → Entropy
    → SecureBytes
    → Option SecureBytes
    → KdfParams
    → CipherAlgorithm
    → Result (List VaultKeySlot)
passphrase_slots env random file_key none params cipher = ok []
passphrase_slots env random file_key (some pw) params cipher = do
  slot ← wrap_with_passphrase env random 2 file_key pw params cipher
  ok (slot ∷ [])

-- `_encrypt_payload_with_slots(plaintext, master_passphrase, params, cipher, wrap_for_keys)`
unfoldable pub encrypt_payload_with_slots :
    Environment
    → Entropy
    → Bytes
    → Option SecureBytes
    → KdfParams
    → CipherAlgorithm
    → (SecureBytes → Result (List VaultKeySlot))
    → Result Bytes
unfolding passphrase_slots
encrypt_payload_with_slots env random plaintext pw params cipher wrap_for_keys = do
  let nonce = generate_nonce (random.token_bytes 0)
  let file_key = generate_file_key env random 1
  own ← passphrase_slots env random file_key pw params cipher
  others ← wrap_for_keys file_key
  let slots = own ++ others
  raise_if (is_empty slots) (vault_service_error "a vault needs at least one unlock method")
  raise_if (ltb max_vault_key_slots (length slots))
      (vault_service_error "too many unlock methods for one vault")
  cipher_params ← validate_cipher (record { algorithm = cipher; nonce_b64 = b64encode nonce })
  header ← validate_header (record {
    format = vault_format_tag;
    version = vault_format_version_slots;
    kdf = none;
    cipher = cipher_params;
    key_slots = some slots;
  })
  seal_frame env header plaintext file_key nonce cipher
