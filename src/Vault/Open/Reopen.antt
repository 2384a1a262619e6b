-- ===== src/Vault/Open/Reopen.antt =====
-- A vault that was created is opened, and its payload read back.
use gpg_meister.Base.{All, List, Option, Result, [], arith, false, length, ok, refl, ℕ, ◌≡◌}
use gpg_meister.Model.Fields.{decoded, nonce_len}
use gpg_meister.Model.Manifest.{VaultManifest}
use gpg_meister.Model.VaultHeader.{VaultHeader, validate_header}
use gpg_meister.Model.VaultHeader.Shape.{validate_header_lem}
use gpg_meister.Python.{Bytes, Text}
use gpg_meister.Security.Buffers.{SecureBytes}
use gpg_meister.Security.Environment.{Environment}
use gpg_meister.Vault.Format.{UnpackedFrame, unpack}
use gpg_meister.Vault.Open.{
  CardDecrypt, Logged, OpenedVault, and_then, decrypt_frame, no_unlock, open_stored, open_vault,
  read_payload, record_failure, vault_key,
}
use gpg_meister.Vault.Open.Frames.{Sealed, decrypt_with-Sealed, unpack-Sealed}
use gpg_meister.Vault.Payload.{CollectedEntry, KeySlice, key_material, serialise_segmented_payload}
use gpg_meister.Vault.Payload.RoundTrip.{IsCollected, deserialise-serialise, material}

pub open_vault-eq :
    (env : Environment) (rebuild_legacy : Bytes → Result (VaultManifest × ℕ × Bytes))
    (card_decrypt : CardDecrypt) (sidecar : Bytes → Logged (Unit {0})) (pw pin : Option SecureBytes)
    (stored plaintext : Bytes) (frame : UnpackedFrame) {vault : OpenedVault}
    → no_unlock pin pw ≡ false
    → unpack env stored ≡ ok frame
    → decrypt_frame env card_decrypt frame pw pin ≡ ([], ok plaintext)
    → sidecar stored ≡ ([], ok tt)
    → read_payload env rebuild_legacy frame.header plaintext ≡ ok vault
    → open_vault env rebuild_legacy card_decrypt sidecar pw pin stored ≡ ([], ok vault)
unfolding open_vault open_stored record_failure and_then
open_vault-eq env rebuild_legacy card_decrypt sidecar pw pin stored plaintext frame given unpacked
      plain checked read =
    rw (given, unpacked, plain, checked, read) refl

decoded_nonce :
    (fields : VaultHeader) {h : VaultHeader}
    → validate_header fields ≡ ok h
    → (raw : Bytes) × (decoded h.cipher.nonce_b64 ≡ ok raw) × (length raw ≡ nonce_len)
unfolding decoded
decoded_nonce fields {h} built =
    let (raw, e, len) = (validate_header_lem fields built).nonce in (raw, ground (arith, e), len)

-- What an opened vault must give back: the manifest, the plaintext, and under each fingerprint the
-- key material of its entry.
pub record GivesBack (collected : List CollectedEntry) (manifest : VaultManifest)
    (plaintext : Bytes) (log : Logged OpenedVault) : Type 0 where
  pub key_slices : List (Text × KeySlice)
  pub result :
      log
      ≡ ([], ok (record { manifest = manifest; plaintext = plaintext; key_slices = key_slices }))
  pub keys :
      All
        (λ item. key_material plaintext key_slices item.entry.fingerprint ≡ ok (material item))
        collected

module _ (env : Environment) (rebuild_legacy : Bytes → Result (VaultManifest × ℕ × Bytes))
    (card_decrypt : CardDecrypt) (sidecar : Bytes → Logged (Unit {0})) (pw pin : Option SecureBytes)
    (collected : List CollectedEntry) (fields manifest : VaultManifest) {plaintext : Bytes}
    (c : IsCollected env collected fields manifest)
    (written : serialise_segmented_payload env collected manifest ≡ ok plaintext) where
  pub open_vault-Sealed :
      (header_fields h : VaultHeader) (key : SecureBytes) (nonce : Bytes) {stored : Bytes}
      → no_unlock pin pw ≡ false
      → validate_header header_fields ≡ ok h
      → decoded h.cipher.nonce_b64 ≡ ok nonce
      → vault_key env card_decrypt h pw pin ≡ ([], ok key)
      → Sealed env h plaintext key nonce h.cipher.algorithm stored
      → sidecar stored ≡ ([], ok tt)
      → GivesBack collected manifest plaintext
          (open_vault env rebuild_legacy card_decrypt sidecar pw pin stored)
  unfolding decrypt_frame read_payload and_then
  open_vault-Sealed header_fields h key nonce {stored} given built read_nonce keyed sealed checked =
      let (slices, payload, materials) =
        deserialise-serialise env rebuild_legacy collected fields manifest c written in
      let (raw, nonce_read, nonce_size) = decoded_nonce header_fields built in
      let plain = decrypt_with-Sealed env h plaintext key nonce read_nonce sealed in
      record {
        key_slices = slices;
        result =
            open_vault-eq env rebuild_legacy card_decrypt sidecar pw pin stored plaintext _ given
              (unpack-Sealed env header_fields h plaintext key nonce h.cipher.algorithm built
                sealed)
              (rw (keyed, plain) refl) checked (ground (arith, payload, nonce_read, nonce_size));
        keys = materials;
      }
