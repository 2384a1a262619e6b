-- ===== src/Tests/Vaults.antt =====
-- The theorems on vault files at concrete inputs.
use gpg_meister.Base.{
  All, List, RaisesOnly, [], arith, err, false, none, ok, recursion_error, refl, some, true, ◌++◌,
  ◌↔◌, ◌∷◌, ◌≡◌,
}
use gpg_meister.Model.Fields.{aes_256_gcm, chacha20_poly1305}
use gpg_meister.Model.KdfParams.{high_memory_params, kdf_params}
use gpg_meister.Model.KeySlot.{passphrase}
use gpg_meister.Model.VaultHeader.{slots_of}
use gpg_meister.Python.{Bytes, Text}
use gpg_meister.Python.Hex.{hex_upper}
use gpg_meister.Python.Text.{codes}
use gpg_meister.Python.Words.{split_words, word_parts}
use gpg_meister.Security.Buffers.{from_bytes}
use gpg_meister.Tests.Inputs.{
  IsBytes-ltb, no_cards, no_legacy, no_sidecar, no_token, toy-InLimits, toy-IsCollected, toy_card,
  toy_card-IsBytes, toy_frame, toy_header, toy_header-built, toy_item, toy_manifest, toy_pack,
  toy_pack-packed, toy_payload, toy_payload-read, toy_payload-written, toy_pw, toy_random, toy_read,
  toy_slot, toy_slot-wrapped, toy_slot_header, toy_slotted, toy_slotted-encrypted, toy_stored,
  toy_stored-encrypted,
}
use gpg_meister.Tests.Toy.{deep, length-repeat, nested, read_deep, repeat, repeat-IsBytes, toy}
use gpg_meister.Vault.Format.{unpack}
use gpg_meister.Vault.Format.Errors.{IsReadError, unpack-raises}
use gpg_meister.Vault.Format.Uncaught.{unpack-uncaught}
use gpg_meister.Vault.Format.Windows.{frame_bytes}
use gpg_meister.Vault.Format.Exact.{IsFrame, unpack_exact}
use gpg_meister.Vault.Format.RoundTrip.{unpack-pack}
use gpg_meister.Vault.KeySlots.{unwrap_with_passphrase}
use gpg_meister.Vault.KeySlots.RoundTrip.{unwrap-wrap}
use gpg_meister.Vault.Open.{
  Logged, OpenedVault, open_vault, unwrap_passphrase_slot, validate_import_kdf,
}
use gpg_meister.Vault.Open.Derived.{open_vault-encrypt_payload}
use gpg_meister.Vault.Open.Limits.{InLimits, validate_import_kdf_lem}
use gpg_meister.Vault.Open.Order.{FirstOpens, unwrap_passphrase_slot_lem}
use gpg_meister.Vault.Open.Reopen.{GivesBack}
use gpg_meister.Vault.Open.Slotted.{open_vault-encrypt_payload_with_slots}
use gpg_meister.Vault.Payload.{KeySlice, deserialise_segmented_payload, key_material}
use gpg_meister.Vault.Payload.Bounds.{Inside, deserialise-Inside}
use gpg_meister.Vault.Payload.RoundTrip.{deserialise-serialise, material}
use gpg_meister.Vault.Sidecar.{
  check_sidecar, compare_digest, hex_digest, lower_ascii, open_file, read_sidecar_digest,
  verify_sidecar,
}
use gpg_meister.Vault.Sidecar.Checked.{open_file-checked}

open_vault-encrypt_payload_example :
    GivesBack
      (toy_item ∷ [])
      toy_manifest
      toy_payload
      (open_vault toy no_legacy no_token no_sidecar (some toy_pw) none toy_stored)
unfolding kdf_params
open_vault-encrypt_payload_example =
    open_vault-encrypt_payload toy toy_random no_legacy no_token no_sidecar (toy_item ∷ [])
      toy_manifest toy_manifest toy_pw high_memory_params chacha20_poly1305 toy-IsCollected
      toy_payload-written refl toy-InLimits toy_stored-encrypted refl

open_vault-encrypt_payload_with_slots_example :
    GivesBack
      (toy_item ∷ [])
      toy_manifest
      toy_payload
      (open_vault toy no_legacy no_token no_sidecar (some toy_pw) none toy_slotted)
unfolding kdf_params
open_vault-encrypt_payload_with_slots_example =
    open_vault-encrypt_payload_with_slots toy toy_random no_legacy no_token no_sidecar
      (toy_item ∷ []) toy_manifest toy_manifest toy_pw high_memory_params aes_256_gcm no_cards
      toy-IsCollected toy_payload-written refl toy-InLimits toy_slotted-encrypted refl

unpack_exact_example : (unpack toy toy_card ≡ ok toy_frame) ↔ IsFrame toy toy_card toy_frame
unpack_exact_example = unpack_exact toy toy_card toy_frame toy_card-IsBytes

unpack-raises_example :
    RaisesOnly (IsReadError deep (1 ∷ 2 ∷ 255 ∷ [])) (unpack deep (1 ∷ 2 ∷ 255 ∷ []))
unpack-raises_example = unpack-raises deep (1 ∷ 2 ∷ 255 ∷ []) (IsBytes-ltb (1 ∷ 2 ∷ 255 ∷ []) refl)

unpack-uncaught_example :
    unpack deep (frame_bytes 2 nested []) ≡ err (recursion_error "maximum recursion depth exceeded")
unfolding read_deep
unpack-uncaught_example =
    unpack-uncaught deep 2 nested [] (recursion_error "maximum recursion depth exceeded") refl
      (omega arith) (omega arith) refl

unpack-pack_example :
    unpack toy toy_pack.0
    ≡ ok (record { header = toy_header; header_bytes = toy_pack.1; ciphertext = 1 ∷ 2 ∷ [] })
unpack-pack_example =
    unpack-pack toy toy_header toy_header (1 ∷ 2 ∷ []) toy_header-built (omega arith)
      toy_pack-packed

deserialise-serialise_example :
    (slices : List (Text × KeySlice)) × (deserialise_segmented_payload toy no_legacy toy_payload
      ≡ ok (toy_manifest, slices, toy_payload))
    × All
        (λ item. key_material toy_payload slices item.entry.fingerprint ≡ ok (material item))
        (toy_item ∷ [])
deserialise-serialise_example =
    deserialise-serialise toy no_legacy (toy_item ∷ []) toy_manifest toy_manifest toy-IsCollected
      toy_payload-written

deserialise-Inside_example : Inside toy_read.2 toy_read.1
deserialise-Inside_example = deserialise-Inside toy no_legacy toy_payload toy_payload-read

unwrap_passphrase_slot_lem_example :
    unwrap_passphrase_slot toy toy_slot_header toy_pw aes_256_gcm
      ≡ ok (from_bytes toy.mlock (repeat 5 32))
    ↔ FirstOpens toy toy_pw aes_256_gcm
        (slots_of toy_slot_header passphrase)
        (from_bytes toy.mlock (repeat 5 32))
unwrap_passphrase_slot_lem_example =
    unwrap_passphrase_slot_lem toy toy_pw aes_256_gcm toy_slot_header
      (from_bytes toy.mlock (repeat 5 32))

unwrap-wrap_example :
    unwrap_with_passphrase toy toy_slot toy_pw high_memory_params aes_256_gcm
    ≡ ok (from_bytes toy.mlock (repeat 5 32))
unwrap-wrap_example =
    unwrap-wrap toy toy_random 2 (repeat 5 32) toy_pw high_memory_params aes_256_gcm
      (repeat-IsBytes 5 32 (omega arith)) (length-repeat 5 32) toy_slot-wrapped

validate_import_kdf_lem_example :
    validate_import_kdf high_memory_params ≡ ok tt ↔ InLimits high_memory_params
validate_import_kdf_lem_example = validate_import_kdf_lem high_memory_params

-- the digest of everything, and a file that names it
abbrev digest_of : Bytes → Bytes
digest_of stored = repeat 0xab 32

abbrev checksum_file : Bytes
checksum_file = hex_digest digest_of [] ++ codes "  backup.vault"

checksum-passed : check_sidecar digest_of (some checksum_file) false toy_stored ≡ ([], ok tt)
unfolding check_sidecar verify_sidecar compare_digest read_sidecar_digest split_words word_parts
    lower_ascii hex_upper
checksum-passed = refl

abbrev opened_checked : Logged OpenedVault
opened_checked =
    open_file toy no_legacy no_token digest_of (some toy_pw) none false (some checksum_file)
      toy_stored

toy_opened : GivesBack (toy_item ∷ []) toy_manifest toy_payload opened_checked
unfolding kdf_params open_file
toy_opened =
    open_vault-encrypt_payload toy toy_random no_legacy no_token
      (check_sidecar digest_of (some checksum_file) false) (toy_item ∷ []) toy_manifest toy_manifest
      toy_pw high_memory_params chacha20_poly1305 toy-IsCollected toy_payload-written refl
      toy-InLimits toy_stored-encrypted checksum-passed

abbrev opened_vault : OpenedVault
opened_vault = record {
  manifest = toy_manifest;
  plaintext = toy_payload;
  key_slices = toy_opened.key_slices;
}

open_file-checked_example :
    opened_checked ≡ ([], ok opened_vault)
    ↔ (open_file toy no_legacy no_token digest_of
          (some toy_pw)
          none
          true
          (some checksum_file)
          toy_stored
        ≡ ([], ok opened_vault))
      × (read_sidecar_digest checksum_file ≡ ok (hex_digest digest_of toy_stored))
open_file-checked_example =
    open_file-checked toy no_legacy no_token digest_of (some toy_pw) none checksum_file toy_stored
      [] opened_vault

-- the file opens with the check, so both sides hold
checked_and_named :
    (open_file toy no_legacy no_token digest_of
        (some toy_pw)
        none
        true
        (some checksum_file)
        toy_stored
      ≡ ([], ok opened_vault))
    × (read_sidecar_digest checksum_file ≡ ok (hex_digest digest_of toy_stored))
checked_and_named = open_file-checked_example.0 toy_opened.result
