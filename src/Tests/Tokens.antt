-- ===== src/Tests/Tokens.antt =====
-- The theorem on smartcard vaults at a concrete input: a keyring that encrypts nothing but checks
-- that it is given bytes.
use gpg_meister.Base.{
  Bool-cases, Result, [], all, ap, arith, err, false, gpg_process_error, if◌then◌else◌, inl, inr,
  ltb, none, ok, refl, some, ◌∷◌, ◌≡◌,
}
use gpg_meister.Model.Fields.{
  aes_256_gcm, from_params, normalise_fingerprint, validate_cipher, validate_kdf_fields,
  validate_nonce_b64,
}
use gpg_meister.Model.KdfParams.{costs_in_bounds, high_memory_params}
use gpg_meister.Model.KeySlot.{as_validation, slot_shape, validate_slot, validate_wrapped}
use gpg_meister.Model.VaultHeader.{validate_header, validate_slots, version_shape}
use gpg_meister.Python.{Bytes, IsBytes}
use gpg_meister.Python.Base64.Digits.{b64_digit, b64_value, b64decode, b64encode}
use gpg_meister.Python.Hex.{fromhex}
use gpg_meister.Python.Struct.{pack_u32}
use gpg_meister.Python.Text.{codes, upper}
use gpg_meister.Security.Aead.{check_inputs, encrypt, generate_nonce}
use gpg_meister.Security.Buffers.{from_bytes, to_bytes, view}
use gpg_meister.Security.Kdf.{derive_key, generate_salt, validate_params}
use gpg_meister.Tests.Inputs.{
  IsBytes-ltb, no_legacy, no_sidecar, toy-IsCollected, toy_entry, toy_item, toy_manifest,
  toy_payload, toy_payload-written, toy_pw, toy_random, value_of,
}
use gpg_meister.Tests.Toy.{toy}
use gpg_meister.Vault.Cards.{Keyring, UnlockKey, unlock_slot_label, wrap_for_keys}
use gpg_meister.Vault.Cards.Reopen.{Decrypts, open_vault-wrap_for_keys}
use gpg_meister.Vault.Encrypt.{
  build_header, encrypt_payload, encrypt_payload_with_slots, seal_frame,
}
use gpg_meister.Vault.Format.{one_byte, pack}
use gpg_meister.Vault.KeySlots.{generate_file_key, openpgp_slot}
use gpg_meister.Vault.Open.{CardDecrypt, open_vault}
use gpg_meister.Vault.Open.Reopen.{GivesBack}
use gpg_meister.Vault.Payload.{append_all, append_key_material, serialise_segmented_payload}

abbrev toy_unlock_key : UnlockKey
toy_unlock_key = record {
  fingerprint = toy_entry.fingerprint;
  is_revoked = false;
  is_expired = false;
  storage_label = codes "YubiKey 1";
  primary_user_id = codes "Ada";
}

abbrev checked_bytes : Bytes → Result Bytes
checked_bytes raw = if all (λ b. ltb b 256) raw then ok raw else err (gpg_process_error "no bytes")

abbrev toy_ring : Keyring
toy_ring = record { find_key = λ fp. ok toy_unlock_key; encrypt_to = λ raw fp. checked_bytes raw }

abbrev toy_reader : CardDecrypt
toy_reader wrapped pin = ok wrapped

checked_bytes_inv :
    (raw armored : Bytes) → checked_bytes raw ≡ ok armored → (armored ≡ raw) × IsBytes raw
checked_bytes_inv raw armored h = elim (Bool-cases (all (λ b. ltb b 256) raw)) [
  | inl e ↦ (ground arith, IsBytes-ltb raw e)
  | inr e ↦ absurd (ground arith)
]

toy_ring-Decrypts : Decrypts toy_ring toy_reader toy_entry.fingerprint toy_pw
toy_ring-Decrypts = record {
  back = λ raw armored h. ap ok (checked_bytes_inv raw armored h).0;
  bytes = λ raw armored h. let (e, b) = checked_bytes_inv raw armored h in rw e b;
}

abbrev toy_token_vault : Bytes
toy_token_vault = value_of [] (
    encrypt_payload_with_slots toy toy_random toy_payload none high_memory_params aes_256_gcm
      (wrap_for_keys toy_ring (toy_entry.fingerprint ∷ [])))

toy_token_vault-encrypted :
    encrypt_payload_with_slots toy toy_random toy_payload none high_memory_params aes_256_gcm
      (wrap_for_keys toy_ring (toy_entry.fingerprint ∷ []))
    ≡ ok toy_token_vault
unfolding encrypt_payload_with_slots generate_file_key validate_slots validate_slot as_validation
    validate_wrapped slot_shape openpgp_slot normalise_fingerprint upper wrap_for_keys to_bytes
    unlock_slot_label encrypt_payload generate_salt build_header from_params b64decode b64encode
    validate_cipher generate_nonce validate_header version_shape derive_key from_bytes view
    seal_frame pack pack_u32 encrypt validate_kdf_fields validate_nonce_b64 costs_in_bounds
    b64_digit b64_value check_inputs validate_params one_byte serialise_segmented_payload append_all
    append_key_material fromhex
toy_token_vault-encrypted = refl

open_vault-wrap_for_keys_example :
    GivesBack
      (toy_item ∷ [])
      toy_manifest
      toy_payload
      (open_vault toy no_legacy toy_reader no_sidecar none (some toy_pw) toy_token_vault)
open_vault-wrap_for_keys_example =
    open_vault-wrap_for_keys toy toy_random no_legacy toy_reader no_sidecar (toy_item ∷ [])
      toy_manifest toy_manifest toy_ring toy_entry.fingerprint [] none toy_pw high_memory_params
      aes_256_gcm toy-IsCollected toy_payload-written toy_ring-Decrypts toy_token_vault-encrypted
      refl
