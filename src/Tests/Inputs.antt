-- ===== src/Tests/Inputs.antt =====
-- The concrete inputs: a vault with one key.
use gpg_meister.Base.{
  Bool, List, Result, [], all, arith, err, false, gpg_card_error, ltb, none, ok, refl,
  runtime_error, some, true, ℕ, ◌%◌, ◌>>=◌, ◌∷◌, ◌≡◌,
}
use gpg_meister.Model.Fields.{
  aes_256_gcm, chacha20_poly1305, from_params, normalise_fingerprint, validate_cipher,
  validate_kdf_fields, validate_nonce_b64,
}
use gpg_meister.Model.KdfParams.{argon2id, costs_in_bounds, high_memory_params}
use gpg_meister.Model.KeySlot.{
  VaultKeySlot, as_validation, openpgp, slot_shape, validate_slot, validate_wrapped,
}
use gpg_meister.Model.Manifest.{
  VaultKeyEntry, VaultManifest, validate_entries, validate_entry, validate_manifest,
}
use gpg_meister.Model.VaultHeader.{
  VaultHeader, validate_header, validate_slots, vault_format_tag, version_shape,
}
use gpg_meister.Python.{Bytes, IsBytes, Text}
use gpg_meister.Python.Base64.Digits.{b64_digit, b64_value, b64decode, b64encode}
use gpg_meister.Python.Hex.{fromhex, hex_upper}
use gpg_meister.Python.Struct.{pack_u32, unpack_u32}
use gpg_meister.Python.Text.{codes, upper}
use gpg_meister.Security.Aead.{check_inputs, encrypt, generate_nonce}
use gpg_meister.Security.Buffers.{SecureBytes, from_bytes, view}
use gpg_meister.Security.Entropy.{Entropy}
use gpg_meister.Security.Kdf.{derive_key, generate_salt, validate_params}
use gpg_meister.Tests.Toy.{length-repeat, repeat, repeat-IsBytes, toy}
use gpg_meister.Vault.Encrypt.{
  build_header, encrypt_payload, encrypt_payload_with_slots, seal_frame,
}
use gpg_meister.Vault.Format.{UnpackedFrame, one_byte, pack, unpack}
use gpg_meister.Vault.KeySlots.{
  generate_file_key, openpgp_slot, slot_associated_data, wrap_with_passphrase,
}
use gpg_meister.Vault.Open.{CardDecrypt, Logged}
use gpg_meister.Vault.Open.Limits.{InLimits}
use gpg_meister.Vault.Payload.{
  CollectedEntry, KeySlice, append_all, append_key_material, deserialise_manifest,
  deserialise_segmented_payload, put_slice, read_front, read_key_slice, read_key_slices,
  read_manifest_segment, read_u32, serialise_segmented_payload,
}
use gpg_meister.Vault.Payload.RoundTrip.{IsCollected}

abbrev pub toy_random : Entropy
toy_random = record {
  token_bytes = λ i n. repeat (i % 256) n;
  length-token_bytes = λ i n. length-repeat (i % 256) n;
  token_bytes-IsBytes = λ i n. repeat-IsBytes (i % 256) n (omega arith);
}

abbrev pub toy_pw : SecureBytes
toy_pw = from_bytes toy.mlock (7 ∷ 8 ∷ 9 ∷ [])

abbrev pub toy_entry : VaultKeyEntry
toy_entry = record {
  fingerprint = codes "0123456789ABCDEF0123456789ABCDEF01234567";
  user_ids = codes "Ada" ∷ [];
  has_private_key = true;
  is_stub = false;
  created_at = codes "2024-01-01T00:00:00Z";
  expires_at = none;
}

abbrev pub toy_item : CollectedEntry
toy_item = record {
  entry = toy_entry;
  public_key = 1 ∷ 2 ∷ [];
  private_key = some (3 ∷ 4 ∷ 5 ∷ []);
}

abbrev pub toy_manifest : VaultManifest
toy_manifest = record {
  created_by = codes "Ada";
  created_at = codes "2024-01-01T00:00:00Z";
  app_version = codes "1";
  description = [];
  keys = toy_entry ∷ [];
}

abbrev pub value_of : {A : Type 0} → A → Result A → A
value_of a (ok b) = b
value_of a (err e) = a

abbrev pub is_ok : {A : Type 0} → Result A → Bool
is_ok (ok b) = true
is_ok (err e) = false

pub value_of-is_ok : {A : Type 0} (a : A) (r : Result A) → is_ok r ≡ true → r ≡ ok (value_of a r)
value_of-is_ok a (ok b) h = refl
value_of-is_ok a (err e) h = absurd (cc h)

abbrev pub toy_payload : Bytes
toy_payload = value_of [] (serialise_segmented_payload toy (toy_item ∷ []) toy_manifest)

abbrev pub toy_stored : Bytes
toy_stored =
    value_of []
      (encrypt_payload toy toy_random toy_payload toy_pw high_memory_params chacha20_poly1305)

pub toy_payload-written :
    serialise_segmented_payload toy (toy_item ∷ []) toy_manifest ≡ ok toy_payload
unfolding serialise_segmented_payload pack_u32 append_all append_key_material fromhex
toy_payload-written =
    value_of-is_ok [] (serialise_segmented_payload toy (toy_item ∷ []) toy_manifest) refl

pub toy_stored-encrypted :
    encrypt_payload toy toy_random toy_payload toy_pw high_memory_params chacha20_poly1305
    ≡ ok toy_stored
unfolding encrypt_payload generate_salt build_header from_params b64decode b64encode validate_cipher
    generate_nonce validate_header version_shape derive_key from_bytes view seal_frame pack pack_u32
    encrypt validate_kdf_fields validate_nonce_b64 costs_in_bounds b64_digit b64_value check_inputs
    validate_params one_byte serialise_segmented_payload append_all append_key_material fromhex
toy_stored-encrypted =
    value_of-is_ok []
      (encrypt_payload toy toy_random toy_payload toy_pw high_memory_params chacha20_poly1305) refl

pub toy-InLimits : InLimits high_memory_params
toy-InLimits = record {
  time_floor = omega arith;
  time_limit = omega arith;
  memory_floor = omega arith;
  memory_limit = omega arith;
  parallelism_limit = omega arith;
}

pub toy-IsCollected : IsCollected toy (toy_item ∷ []) toy_manifest toy_manifest
unfolding validate_manifest validate_entries validate_entry as_validation normalise_fingerprint
    upper
toy-IsCollected = record {
  built = refl;
  listed = refl;
  writable = (record { fpr_length = refl; fpr_hex = refl; agrees = λ h. omega arith }, tt);
  distinct = (tt, tt);
  manifest_size = omega arith;
}

-- the vault with a passphrase slot and no other, and the vault with one smartcard slot
abbrev pub no_cards : SecureBytes → Result (List VaultKeySlot)
no_cards key = ok []

abbrev pub one_card : SecureBytes → Result (List VaultKeySlot)
one_card key = openpgp_slot (1 ∷ 2 ∷ 3 ∷ []) toy_entry.fingerprint [] >>= λ s. ok (s ∷ [])

abbrev pub toy_slotted : Bytes
toy_slotted = value_of [] (
    encrypt_payload_with_slots toy toy_random toy_payload (some toy_pw) high_memory_params
      aes_256_gcm no_cards)

pub toy_slotted-encrypted :
    encrypt_payload_with_slots toy toy_random toy_payload
      (some toy_pw)
      high_memory_params
      aes_256_gcm
      no_cards
    ≡ ok toy_slotted
unfolding encrypt_payload_with_slots generate_file_key wrap_with_passphrase slot_associated_data
    validate_slots validate_slot as_validation validate_wrapped slot_shape encrypt_payload
    generate_salt build_header from_params b64decode b64encode validate_cipher generate_nonce
    validate_header version_shape derive_key from_bytes view seal_frame pack pack_u32 encrypt
    validate_kdf_fields validate_nonce_b64 costs_in_bounds b64_digit b64_value check_inputs
    validate_params one_byte serialise_segmented_payload append_all append_key_material fromhex
toy_slotted-encrypted =
    value_of-is_ok []
      (encrypt_payload_with_slots toy toy_random toy_payload (some toy_pw) high_memory_params
        aes_256_gcm no_cards)
      refl

abbrev pub toy_card : Bytes
toy_card = value_of [] (
    encrypt_payload_with_slots toy toy_random toy_payload none high_memory_params aes_256_gcm
      one_card)

pub IsBytes-ltb : (l : Bytes) → all (λ b. ltb b 256) l ≡ true → IsBytes l
IsBytes-ltb [] h = tt
IsBytes-ltb (b ∷ l) h = (ground arith, IsBytes-ltb l (ground arith))

pub toy_card-IsBytes : IsBytes toy_card
unfolding encrypt_payload_with_slots generate_file_key wrap_with_passphrase slot_associated_data
    validate_slots validate_slot as_validation validate_wrapped slot_shape openpgp_slot
    normalise_fingerprint upper encrypt_payload generate_salt build_header from_params b64decode
    b64encode validate_cipher generate_nonce validate_header version_shape derive_key from_bytes
    view seal_frame pack pack_u32 encrypt validate_kdf_fields validate_nonce_b64 costs_in_bounds
    b64_digit b64_value check_inputs validate_params one_byte serialise_segmented_payload append_all
    append_key_material fromhex
toy_card-IsBytes = IsBytes-ltb toy_card refl

abbrev pub toy_header : VaultHeader
toy_header = record {
  format = vault_format_tag;
  version = 2;
  kdf = some (record {
    algorithm = argon2id;
    salt_b64 = b64encode (repeat 7 16);
    time_cost = 3;
    memory_cost = 262_144;
    parallelism = 4;
    hash_len = 32;
  });
  cipher = record { algorithm = aes_256_gcm; nonce_b64 = b64encode (repeat 9 12) };
  key_slots = none;
}

abbrev pub toy_frame : UnpackedFrame
toy_frame =
    value_of (record { header = toy_header; header_bytes = []; ciphertext = [] })
      (unpack toy toy_card)

pub toy_header-built : validate_header toy_header ≡ ok toy_header
unfolding validate_header validate_cipher validate_kdf_fields validate_nonce_b64 costs_in_bounds
    version_shape b64decode b64encode b64_digit b64_value
toy_header-built = refl

abbrev pub toy_pack : Bytes × Bytes
toy_pack = value_of ([], []) (pack toy toy_header (1 ∷ 2 ∷ []))

pub toy_pack-packed : pack toy toy_header (1 ∷ 2 ∷ []) ≡ ok toy_pack
unfolding pack one_byte pack_u32 b64encode
toy_pack-packed = refl

abbrev pub no_legacy : Bytes → Result (VaultManifest × ℕ × Bytes)
no_legacy payload = err (runtime_error "no legacy payload")

abbrev pub no_token : CardDecrypt
no_token wrapped pin = err (gpg_card_error "no card")

abbrev pub no_sidecar : Bytes → Logged (Unit {0})
no_sidecar stored = ([], ok tt)

abbrev pub toy_slot : VaultKeySlot
toy_slot =
    value_of
      (record {
        type = openpgp;
        wrapped_key_b64 = [];
        kdf = none;
        nonce_b64 = none;
        fingerprint = none;
        label = [];
      })
      (wrap_with_passphrase toy toy_random 2 (from_bytes toy.mlock (repeat 5 32)) toy_pw
        high_memory_params aes_256_gcm)

pub toy_slot-wrapped :
    wrap_with_passphrase toy toy_random 2
      (from_bytes toy.mlock (repeat 5 32))
      toy_pw
      high_memory_params
      aes_256_gcm
    ≡ ok toy_slot
unfolding encrypt_payload_with_slots generate_file_key wrap_with_passphrase slot_associated_data
    validate_slots validate_slot as_validation validate_wrapped slot_shape encrypt_payload
    generate_salt build_header from_params b64decode b64encode validate_cipher generate_nonce
    validate_header version_shape derive_key from_bytes view seal_frame pack pack_u32 encrypt
    validate_kdf_fields validate_nonce_b64 costs_in_bounds b64_digit b64_value check_inputs
    validate_params one_byte serialise_segmented_payload append_all append_key_material fromhex
toy_slot-wrapped = refl

abbrev pub toy_slot_header : VaultHeader
toy_slot_header = record {
  format = vault_format_tag;
  version = 3;
  kdf = none;
  cipher = record { algorithm = aes_256_gcm; nonce_b64 = b64encode (repeat 9 12) };
  key_slots = some (toy_slot ∷ []);
}

abbrev pub toy_read : VaultManifest × List (Text × KeySlice) × Bytes
toy_read = value_of (toy_manifest, [], []) (deserialise_segmented_payload toy no_legacy toy_payload)

pub toy_payload-read : deserialise_segmented_payload toy no_legacy toy_payload ≡ ok toy_read
unfolding deserialise_segmented_payload read_front read_manifest_segment read_u32 unpack_u32
    deserialise_manifest read_key_slices read_key_slice put_slice hex_upper
    serialise_segmented_payload pack_u32 append_all append_key_material fromhex validate_manifest
    validate_entries validate_entry as_validation normalise_fingerprint upper
toy_payload-read = refl
