-- ===== src/Vault/Open/Derived.antt =====
-- A version 2 vault is opened by the passphrase that its key was derived from.
use gpg_meister.Base.{
  List, Result, Result-cases, [], arith, inl, inr, none, ok, refl, some, sym, ℕ, ◌∙◌, ◌≡◌,
}
use gpg_meister.Model.Fields.{
  CipherAlgorithm, CipherParams, KdfFields, decoded, from_params, nonce_len, to_params,
  validate_cipher,
}
use gpg_meister.Model.KdfParams.{KdfParams, kdf_params}
use gpg_meister.Model.Manifest.{VaultManifest}
use gpg_meister.Model.VaultHeader.{
  VaultHeader, uses_key_slots, validate_header, vault_format_tag, vault_format_version,
}
use gpg_meister.Python.{Bytes}
use gpg_meister.Python.Base64.Digits.{b64encode}
use gpg_meister.Security.Aead.{generate_nonce}
use gpg_meister.Security.Buffers.{SecureBytes}
use gpg_meister.Security.Entropy.{Entropy}
use gpg_meister.Security.Environment.{Environment}
use gpg_meister.Security.Kdf.{derive_key, generate_salt}
use gpg_meister.Vault.Encrypt.{build_header, encrypt_payload, seal_frame}
use gpg_meister.Vault.KeySlots.RoundTrip.{decoded-b64encode, from_params_inv, to_params-from_params}
use gpg_meister.Vault.Open.{CardDecrypt, Logged, derived_key, open_vault, vault_key}
use gpg_meister.Vault.Open.Frames.{seal_frame_inv}
use gpg_meister.Vault.Open.Limits.{InLimits, validate_import_kdf_lem}
use gpg_meister.Vault.Open.Reopen.{GivesBack, open_vault-Sealed}
use gpg_meister.Vault.Payload.{CollectedEntry, serialise_segmented_payload}
use gpg_meister.Vault.Payload.RoundTrip.{IsCollected}

abbrev header_fields : CipherParams → KdfFields → VaultHeader
header_fields c kdf = record {
  format = vault_format_tag;
  version = vault_format_version;
  kdf = some kdf;
  cipher = c;
  key_slots = none;
}

abbrev cipher_fields : CipherAlgorithm → Bytes → CipherParams
cipher_fields cipher nonce = record { algorithm = cipher; nonce_b64 = b64encode nonce }

record Created (env : Environment) (salt nonce plaintext : Bytes) (pw : SecureBytes)
    (params : KdfParams) (cipher : CipherAlgorithm) (frame : Bytes) : Type 0 where
  kdf : KdfFields
  header : VaultHeader
  key : SecureBytes
  fields : from_params params salt ≡ ok kdf
  built : validate_header (header_fields (cipher_fields cipher nonce) kdf) ≡ ok header
  same_fields : header ≡ header_fields (cipher_fields cipher nonce) kdf
  key_made : derive_key env pw salt params ≡ ok key
  sealed : seal_frame env header plaintext key nonce cipher ≡ ok frame

derived_header :
    (c : CipherParams) (kdf : KdfFields) {h : VaultHeader}
    → validate_header (header_fields c kdf) ≡ ok h
    → h ≡ header_fields c kdf
unfolding validate_header
derived_header c kdf h = ground arith

pub validate_cipher-eq : (c : CipherParams) {d : CipherParams} → validate_cipher c ≡ ok d → d ≡ c
unfolding validate_cipher
validate_cipher-eq c h = ground arith

encrypt_payload_inv :
    (env : Environment) (random : Entropy) (plaintext : Bytes) (pw : SecureBytes)
    (params : KdfParams) (cipher : CipherAlgorithm) {frame : Bytes}
    → encrypt_payload env random plaintext pw params cipher ≡ ok frame
    → Created env
        (random.token_bytes 0 params.salt_len)
        (random.token_bytes 1 nonce_len)
        plaintext
        pw
        params
        cipher
        frame
unfolding encrypt_payload generate_salt generate_nonce build_header
encrypt_payload_inv env random plaintext pw params cipher {frame} h =
    let salt = random.token_bytes 0 params.salt_len in
    let nonce = random.token_bytes 1 nonce_len in
    elim (Result-cases (from_params params salt)) [
      | inl (e, bad) ↦ absurd (ground arith)
      | inr (kdf, made) ↦ elim (Result-cases (validate_cipher (cipher_fields cipher nonce))) [
        | inl (e, bad) ↦ absurd (ground arith)
        | inr (c, checked) ↦
            let same_cipher = validate_cipher-eq _ checked in
            elim (Result-cases (validate_header (header_fields c kdf))) [
              | inl (e, bad) ↦ absurd (ground arith)
              | inr (header, accepted) ↦ elim (Result-cases (derive_key env pw salt params)) [
                | inl (e, bad) ↦ absurd (ground arith)
                | inr (key, keyed) ↦ record {
                  kdf = kdf;
                  header = header;
                  key = key;
                  fields = made;
                  built = rw (sym same_cipher) accepted;
                  same_fields = derived_header _ kdf accepted ∙ rw same_cipher refl;
                  key_made = keyed;
                  sealed = ground arith;
                }
              ]
            ]
      ]
    ]

module _ (env : Environment) (random : Entropy) where
  -- If the parameters are valid and within the limits of an import, a payload was serialised and
  -- encrypted under a passphrase, and the checksum raises nothing, then opening the stored vault
  -- with that passphrase records no failure and gives back the manifest, the plaintext and each
  -- entry's key material.
  pub open_vault-encrypt_payload :
      (rebuild_legacy : Bytes → Result (VaultManifest × ℕ × Bytes)) (card_decrypt : CardDecrypt)
      (sidecar : Bytes → Logged (Unit {0})) (collected : List CollectedEntry)
      (fields manifest : VaultManifest) (pw : SecureBytes) (params : KdfParams)
      (cipher : CipherAlgorithm) {plaintext stored : Bytes}
      → IsCollected env collected fields manifest
      → serialise_segmented_payload env collected manifest ≡ ok plaintext
      → kdf_params params ≡ ok params
      → InLimits params
      → encrypt_payload env random plaintext pw params cipher ≡ ok stored
      → sidecar stored ≡ ([], ok tt)
      → GivesBack collected manifest plaintext
          (open_vault env rebuild_legacy card_decrypt sidecar (some pw) none stored)
  unfolding vault_key uses_key_slots derived_key
  open_vault-encrypt_payload rebuild_legacy card_decrypt sidecar collected fields manifest pw params
        cipher {plaintext} {stored} c written valid within_limits encrypted checked =
      let w = encrypt_payload_inv env random plaintext pw params cipher encrypted in
      let nonce = random.token_bytes 1 nonce_len in
      let salt_bytes = random.token_bytes-IsBytes 0 params.salt_len in
      let read_salt : decoded w.kdf.salt_b64 ≡ ok (random.token_bytes 0 params.salt_len) =
        rw (from_params_inv params _ w.fields) (decoded-b64encode _ salt_bytes) in
      let read_params : to_params w.kdf ≡ ok params =
        to_params-from_params params _ valid salt_bytes
          (random.length-token_bytes 0 params.salt_len) w.fields in
      let read_nonce : decoded w.header.cipher.nonce_b64 ≡ ok nonce =
        rw w.same_fields (decoded-b64encode _ (random.token_bytes-IsBytes 1 nonce_len)) in
      let keyed : vault_key env card_decrypt w.header (some pw) none ≡ ([], ok w.key) =
        rw w.same_fields (
          rw (read_params, (validate_import_kdf_lem params).1 within_limits, read_salt, w.key_made)
            refl) in
      let same_cipher : w.header.cipher.algorithm ≡ cipher = rw w.same_fields refl in
      open_vault-Sealed env rebuild_legacy card_decrypt sidecar (some pw) none collected fields
        manifest c written (header_fields (cipher_fields cipher nonce) w.kdf) w.header w.key nonce
        refl w.built read_nonce keyed
        (rw same_cipher (seal_frame_inv env w.header plaintext w.key nonce cipher w.sealed)) checked
