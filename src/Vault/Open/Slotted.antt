-- ===== src/Vault/Open/Slotted.antt =====
-- A version 3 vault is opened by its passphrase slot.
use gpg_meister.Base.{
  List, Result, Result-cases, [], ap, arith, inl, inr, none, ok, refl, same, some, sym, true, ℕ,
  ◌∙◌, ◌∷◌, ◌≡◌,
}
use gpg_meister.Model.Fields.{
  CipherAlgorithm, CipherParams, KdfFields, decoded, nonce_len, to_params, validate_cipher,
}
use gpg_meister.Model.KdfParams.{KdfParams, kdf_params}
use gpg_meister.Model.KeySlot.{VaultKeySlot, is_slot_type, passphrase, validate_slot}
use gpg_meister.Model.Manifest.{VaultManifest}
use gpg_meister.Model.VaultHeader.{
  VaultHeader, filter_slots, slots_of, uses_key_slots, validate_header, validate_slots,
  vault_format_tag, vault_format_version_slots,
}
use gpg_meister.Model.VaultHeader.Shape.{validate_slot_idem}
use gpg_meister.Python.{Bytes}
use gpg_meister.Python.Base64.Digits.{b64encode}
use gpg_meister.Security.Aead.{generate_nonce}
use gpg_meister.Security.Buffers.{SecureBytes, from_bytes}
use gpg_meister.Security.Entropy.{Entropy}
use gpg_meister.Security.Environment.{Environment}
use gpg_meister.Vault.Cards.{wrap_for_keys}
use gpg_meister.Vault.Encrypt.{encrypt_payload_with_slots, seal_frame}
use gpg_meister.Vault.KeySlots.{
  file_key_len, generate_file_key, unwrap_with_passphrase, wrap_with_passphrase,
}
use gpg_meister.Vault.KeySlots.RoundTrip.{
  decoded-b64encode, slot_fields, to_params-from_params, unwrap-wrap, wrap_inv,
}
use gpg_meister.Vault.Open.{
  CardDecrypt, Logged, key_opened, open_vault, record_failure, slotted_key, try_params, try_slot,
  try_slots, unwrap_passphrase_slot, vault_key,
}
use gpg_meister.Vault.Open.Derived.{validate_cipher-eq}
use gpg_meister.Vault.Open.Frames.{seal_frame_inv}
use gpg_meister.Vault.Open.Limits.{InLimits, validate_import_kdf_lem}
use gpg_meister.Vault.Open.Order.{tried}
use gpg_meister.Vault.Open.Reopen.{GivesBack, open_vault-Sealed}
use gpg_meister.Vault.Payload.{CollectedEntry, serialise_segmented_payload}
use gpg_meister.Vault.Payload.RoundTrip.{IsCollected}

abbrev pub slotted_fields : CipherParams → List VaultKeySlot → VaultHeader
slotted_fields c slots = record {
  format = vault_format_tag;
  version = vault_format_version_slots;
  kdf = none;
  cipher = c;
  key_slots = some slots;
}

abbrev pub header_cipher : CipherAlgorithm → Bytes → CipherParams
header_cipher cipher nonce = record { algorithm = cipher; nonce_b64 = b64encode nonce }

pub slotted_header :
    (c : CipherParams) (slot : VaultKeySlot) (others : List VaultKeySlot) {h : VaultHeader}
    → validate_slot slot ≡ ok slot
    → validate_header (slotted_fields c (slot ∷ others)) ≡ ok h
    → (rest : List VaultKeySlot) × (h ≡ slotted_fields c (slot ∷ rest))
unfolding validate_header validate_slots
slotted_header c slot others valid built = elim (Result-cases (validate_slots others)) [
  | inl (e, bad) ↦ absurd (ground (arith, valid))
  | inr (rest, good) ↦ (rest, ground (arith, valid))
]

slots_of-first :
    (c : CipherParams) (slot : VaultKeySlot) (rest : List VaultKeySlot)
    → slot.type ≡ passphrase
    → slots_of (slotted_fields c (slot ∷ rest)) passphrase ≡ slot ∷ filter_slots passphrase rest
unfolding slots_of filter_slots is_slot_type
slots_of-first c slot rest typed =
    let e : is_slot_type slot.type passphrase ≡ true = ap (λ t. is_slot_type t passphrase) typed in
    rw e refl

-- A slot within the limits that unwraps ends the loop with its key.
pub try_slot-key_opened :
    (env : Environment) (slot : VaultKeySlot) (pw key : SecureBytes) (cipher : CipherAlgorithm)
    (k : KdfFields) (params : KdfParams)
    → slot.kdf ≡ some k
    → to_params k ≡ ok params
    → InLimits params
    → unwrap_with_passphrase env slot pw params cipher ≡ ok key
    → try_slot env slot pw cipher slot.kdf ≡ key_opened key
unfolding try_slot try_params
try_slot-key_opened env slot pw key cipher k params has read within_limits unwrapped =
    ap (try_slot env slot pw cipher) has
    ∙ rw (read, (validate_import_kdf_lem params).1 within_limits, unwrapped) refl

-- The first passphrase slot opens the header.
unwrap_passphrase_slot-first :
    (env : Environment) (c : CipherParams) (slot : VaultKeySlot) (rest : List VaultKeySlot)
    (pw key : SecureBytes) (cipher : CipherAlgorithm)
    → slot.type ≡ passphrase
    → try_slot env slot pw cipher slot.kdf ≡ key_opened key
    → unwrap_passphrase_slot env (slotted_fields c (slot ∷ rest)) pw cipher ≡ ok key
unfolding unwrap_passphrase_slot try_slots
unwrap_passphrase_slot-first env c slot rest pw key cipher typed tried =
    rw (slots_of-first c slot rest typed, tried) refl

record Created3 (env : Environment) (random : Entropy) (plaintext : Bytes) (pw : SecureBytes)
    (params : KdfParams) (cipher : CipherAlgorithm) (stored : Bytes) : Type 0 where
  slot : VaultKeySlot
  slots : List VaultKeySlot
  header : VaultHeader
  wrapped :
      wrap_with_passphrase env random 2 (generate_file_key env random 1) pw params cipher ≡ ok slot
  built :
      validate_header
        (slotted_fields (header_cipher cipher (random.token_bytes 0 nonce_len)) (slot ∷ slots))
      ≡ ok header
  sealed :
      seal_frame env header plaintext
        (generate_file_key env random 1)
        (random.token_bytes 0 nonce_len)
        cipher
      ≡ ok stored

with_slots_inv :
    (env : Environment) (random : Entropy) (plaintext : Bytes) (pw : SecureBytes)
    (params : KdfParams) (cipher : CipherAlgorithm)
    (wrap_for_keys : SecureBytes → Result (List VaultKeySlot)) {stored : Bytes}
    → encrypt_payload_with_slots env random plaintext (some pw) params cipher wrap_for_keys
      ≡ ok stored
    → Created3 env random plaintext pw params cipher stored
unfolding encrypt_payload_with_slots generate_nonce
with_slots_inv env random plaintext pw params cipher wrap_for_keys {stored} h =
    let nonce = random.token_bytes 0 nonce_len in
    let file_key = generate_file_key env random 1 in
    elim (Result-cases (wrap_with_passphrase env random 2 file_key pw params cipher)) [
      | inl (e, bad) ↦ absurd (ground arith)
      | inr (slot, wrapping) ↦ elim (Result-cases (wrap_for_keys file_key)) [
        | inl (e, bad) ↦ absurd (ground arith)
        | inr (others, more) ↦ elim (Result-cases (validate_cipher (header_cipher cipher nonce))) [
          | inl (e, bad) ↦ absurd (ground arith)
          | inr (c, checked) ↦
              let same_cipher = validate_cipher-eq _ checked in
              elim (Result-cases (validate_header (slotted_fields c (slot ∷ others)))) [
                | inl (e, bad) ↦ absurd (ground arith)
                | inr (header, accepted) ↦ record {
                  slot = slot;
                  slots = others;
                  header = header;
                  wrapped = wrapping;
                  built = rw (sym same_cipher) accepted;
                  sealed = ground arith;
                }
              ]
        ]
      ]
    ]

-- If the parameters are valid and within the limits of an import, a payload was serialised and
-- encrypted under a random key with a passphrase slot and any other slots, and the checksum raises
-- nothing, then opening the stored vault with that passphrase records no failure and gives back
-- the manifest, the plaintext and each entry's key material.
pub open_vault-encrypt_payload_with_slots :
    (env : Environment) (random : Entropy)
    (rebuild_legacy : Bytes → Result (VaultManifest × ℕ × Bytes)) (card_decrypt : CardDecrypt)
    (sidecar : Bytes → Logged (Unit {0})) (collected : List CollectedEntry)
    (fields manifest : VaultManifest) (pw : SecureBytes) (params : KdfParams)
    (cipher : CipherAlgorithm) (wrap_for_keys : SecureBytes → Result (List VaultKeySlot))
    {plaintext stored : Bytes}
    → IsCollected env collected fields manifest
    → serialise_segmented_payload env collected manifest ≡ ok plaintext
    → kdf_params params ≡ ok params
    → InLimits params
    → encrypt_payload_with_slots env random plaintext (some pw) params cipher wrap_for_keys
      ≡ ok stored
    → sidecar stored ≡ ([], ok tt)
    → GivesBack collected manifest plaintext
        (open_vault env rebuild_legacy card_decrypt sidecar (some pw) none stored)
unfolding vault_key uses_key_slots slotted_key record_failure generate_file_key
open_vault-encrypt_payload_with_slots env random rebuild_legacy card_decrypt sidecar collected
      fields manifest pw params cipher wrap_for_keys {plaintext} {stored} c written valid
      within_limits encrypted checked =
    let w = with_slots_inv env random plaintext pw params cipher wrap_for_keys encrypted in
    let raw = random.token_bytes 1 file_key_len in
    let nonce = random.token_bytes 0 nonce_len in
    let file_key = from_bytes env.mlock raw in
    let v = wrap_inv env random 2 raw pw params cipher w.wrapped in
    let (rest, same) =
      slotted_header (header_cipher cipher nonce) w.slot w.slots
        (validate_slot_idem (slot_fields v.sealed v.kdf _) v.accepted) w.built in
    let read_params : to_params v.kdf ≡ ok params =
      to_params-from_params params _ valid (random.token_bytes-IsBytes 2 params.salt_len)
        (random.length-token_bytes 2 params.salt_len) v.fields in
    let unwrapped =
      unwrap-wrap env random 2 raw pw params cipher (random.token_bytes-IsBytes 1 file_key_len)
        (random.length-token_bytes 1 file_key_len) w.wrapped in
    let tried =
      try_slot-key_opened env w.slot pw file_key cipher v.kdf params (rw v.built refl) read_params
        within_limits unwrapped in
    let found =
      unwrap_passphrase_slot-first env (header_cipher cipher nonce) w.slot rest pw file_key cipher
        (rw v.built refl) tried in
    let keyed : vault_key env card_decrypt w.header (some pw) none ≡ ([], ok file_key) =
      rw same (rw found refl) in
    let read_nonce : decoded w.header.cipher.nonce_b64 ≡ ok nonce =
      rw same (decoded-b64encode _ (random.token_bytes-IsBytes 0 nonce_len)) in
    let same_cipher : w.header.cipher.algorithm ≡ cipher = rw same refl in
    open_vault-Sealed env rebuild_legacy card_decrypt sidecar (some pw) none collected fields
      manifest c written _ w.header file_key nonce refl w.built read_nonce keyed
      (rw same_cipher (seal_frame_inv env w.header plaintext file_key nonce cipher w.sealed))
      checked
