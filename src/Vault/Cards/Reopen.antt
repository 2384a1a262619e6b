-- ===== src/Vault/Cards/Reopen.antt =====
-- A vault without a passphrase slot is opened by the token of its first key.
-- What GnuPG documents: what was encrypted to the key is bytes, and the token decrypts it.
use gpg_meister.Base.{
  List, Option, Result, Result-cases, [], ap, arith, inl, inr, length, none, ok, refl, some, sym,
  true, ℕ, ◌∙◌, ◌∷◌, ◌≡◌,
}
use gpg_meister.Model.Fields.{
  CipherAlgorithm, CipherParams, decoded, nonce_len, normalise_fingerprint, validate_cipher,
}
use gpg_meister.Model.KdfParams.{KdfParams}
use gpg_meister.Model.KeySlot.{
  VaultKeySlot, as_validation, is_slot_type, openpgp, validate_optional, validate_slot,
}
use gpg_meister.Model.Manifest.{VaultManifest}
use gpg_meister.Model.VaultHeader.{
  VaultHeader, filter_slots, slots_of, uses_key_slots, validate_header,
}
use gpg_meister.Model.VaultHeader.Shape.{validate_slot_idem}
use gpg_meister.Python.{Bytes, IsBytes, Text}
use gpg_meister.Python.Base64.Digits.{b64encode}
use gpg_meister.Security.Aead.{generate_nonce}
use gpg_meister.Security.Buffers.{SecureBytes, from_bytes, to_bytes}
use gpg_meister.Security.Buffers.Lifecycle.{view-from_bytes}
use gpg_meister.Security.Entropy.{Entropy}
use gpg_meister.Security.Environment.{Environment}
use gpg_meister.Vault.Cards.{Keyring, unlock_slot_label, wrap_for_keys}
use gpg_meister.Vault.Encrypt.{encrypt_payload_with_slots, seal_frame}
use gpg_meister.Vault.KeySlots.{file_key_from_bytes, file_key_len, generate_file_key, openpgp_slot}
use gpg_meister.Vault.KeySlots.RoundTrip.{decoded-b64encode}
use gpg_meister.Vault.Open.{
  CardDecrypt, Logged, open_vault, slotted_key, try_cards, unwrap_openpgp_slot, vault_key,
}
use gpg_meister.Vault.Open.Derived.{validate_cipher-eq}
use gpg_meister.Vault.Open.Frames.{seal_frame_inv}
use gpg_meister.Vault.Open.Reopen.{GivesBack, open_vault-Sealed}
use gpg_meister.Vault.Open.Slotted.{header_cipher, slotted_fields, slotted_header}
use gpg_meister.Vault.Payload.{CollectedEntry, serialise_segmented_payload}
use gpg_meister.Vault.Payload.RoundTrip.{IsCollected}

pub record Decrypts (gpg : Keyring) (card_decrypt : CardDecrypt) (fp : Text) (pin : SecureBytes)
    : Type 0 where
  pub back :
      (raw armored : Bytes) → gpg.encrypt_to raw fp ≡ ok armored → card_decrypt armored pin ≡ ok raw
  pub bytes : (raw armored : Bytes) → gpg.encrypt_to raw fp ≡ ok armored → IsBytes armored

record FirstCard (gpg : Keyring) (fp : Text) (raw : Bytes) (slots : List VaultKeySlot)
    : Type 0 where
  slot : VaultKeySlot
  others : List VaultKeySlot
  armored : Bytes
  encrypted : gpg.encrypt_to raw fp ≡ ok armored
  listed : slots ≡ slot ∷ others
  valid : validate_slot slot ≡ ok slot
  typed : slot.type ≡ openpgp
  holds : slot.wrapped_key_b64 ≡ b64encode armored

validate_slot-keeps :
    (s : VaultKeySlot) {t : VaultKeySlot}
    → validate_slot s ≡ ok t
    → (t.type ≡ s.type) × (t.wrapped_key_b64 ≡ s.wrapped_key_b64)
unfolding validate_slot
validate_slot-keeps s h =
    elim (Result-cases (as_validation (validate_optional normalise_fingerprint s.fingerprint))) [
      | inl (e, bad) ↦ absurd (ground arith)
      | inr (fpr, good) ↦ ground arith
    ]

openpgp_slot_inv :
    (armored : Bytes) (fpr label : Text) {slot : VaultKeySlot}
    → openpgp_slot armored fpr label ≡ ok slot
    → (validate_slot slot ≡ ok slot)
      × (slot.type ≡ openpgp)
      × (slot.wrapped_key_b64 ≡ b64encode armored)
unfolding openpgp_slot
openpgp_slot_inv armored fpr label {slot} h =
    let fields : VaultKeySlot = record {
      type = openpgp;
      wrapped_key_b64 = b64encode armored;
      kdf = none;
      nonce_b64 = none;
      fingerprint = some fpr;
      label = label;
    } in
    let (same_type, same_key) = validate_slot-keeps fields h in
    (validate_slot_idem fields h, same_type, same_key)

wrap_for_keys_inv :
    (env : Environment) (gpg : Keyring) (fp : Text) (fps : List Text) (raw : Bytes)
    {slots : List VaultKeySlot}
    → wrap_for_keys gpg (fp ∷ fps) (from_bytes env.mlock raw) ≡ ok slots
    → FirstCard gpg fp raw slots
unfolding wrap_for_keys to_bytes
wrap_for_keys_inv env gpg fp fps raw {slots} h =
    let seen = view-from_bytes env.mlock raw in
    elim (Result-cases (gpg.find_key fp)) [
      | inl (e, bad) ↦ absurd (ground arith)
      | inr (key, found) ↦ elim (Result-cases (gpg.encrypt_to raw fp)) [
        | inl (e, bad) ↦ absurd (ground (arith, seen))
        | inr (armored, encrypted) ↦
            elim (Result-cases (openpgp_slot armored key.fingerprint (unlock_slot_label key))) [
              | inl (e, bad) ↦ absurd (ground (arith, seen))
              | inr (slot, made) ↦
                  elim (Result-cases (wrap_for_keys gpg fps (from_bytes env.mlock raw))) [
                    | inl (e, bad) ↦ absurd (ground (arith, seen))
                    | inr (rest, more) ↦
                        let (valid, typed, holds) = openpgp_slot_inv armored _ _ made in
                        record {
                          slot = slot;
                          others = rest;
                          armored = armored;
                          encrypted = encrypted;
                          listed = ground (arith, seen);
                          valid = valid;
                          typed = typed;
                          holds = holds;
                        }
                  ]
            ]
      ]
    ]

-- The first smartcard slot of a header opens it.
unwrap_openpgp_slot-first :
    (env : Environment) (card_decrypt : CardDecrypt) (c : CipherParams) (slot : VaultKeySlot)
    (rest : List VaultKeySlot) (pin : SecureBytes) (armored raw : Bytes)
    → slot.type ≡ openpgp
    → decoded slot.wrapped_key_b64 ≡ ok armored
    → card_decrypt armored pin ≡ ok raw
    → length raw ≡ file_key_len
    → unwrap_openpgp_slot env card_decrypt (slotted_fields c (slot ∷ rest)) pin
      ≡ ([], ok (from_bytes env.mlock raw))
unfolding unwrap_openpgp_slot try_cards file_key_from_bytes slots_of filter_slots is_slot_type
unwrap_openpgp_slot-first env card_decrypt c slot rest pin armored raw typed read back len =
    let e : is_slot_type slot.type openpgp ≡ true = ap (λ t. is_slot_type t openpgp) typed in
    rw e (rw (read, back) (rw len refl))

record CreatedForCards (env : Environment) (random : Entropy) (plaintext : Bytes)
    (slots : List VaultKeySlot) (cipher : CipherAlgorithm) (stored : Bytes) : Type 0 where
  header : VaultHeader
  built :
      validate_header (slotted_fields (header_cipher cipher (random.token_bytes 0 nonce_len)) slots)
      ≡ ok header
  sealed :
      seal_frame env header plaintext
        (generate_file_key env random 1)
        (random.token_bytes 0 nonce_len)
        cipher
      ≡ ok stored

with_cards_inv :
    (env : Environment) (random : Entropy) (plaintext : Bytes) (params : KdfParams)
    (cipher : CipherAlgorithm) (wrap : SecureBytes → Result (List VaultKeySlot))
    (slots : List VaultKeySlot) {stored : Bytes}
    → wrap (generate_file_key env random 1) ≡ ok slots
    → encrypt_payload_with_slots env random plaintext none params cipher wrap ≡ ok stored
    → CreatedForCards env random plaintext slots cipher stored
unfolding encrypt_payload_with_slots generate_nonce
with_cards_inv env random plaintext params cipher wrap slots {stored} wrapped h =
    let nonce = random.token_bytes 0 nonce_len in
    elim (Result-cases (validate_cipher (header_cipher cipher nonce))) [
      | inl (e, bad) ↦ absurd (ground arith)
      | inr (c, checked) ↦
          let same_cipher = validate_cipher-eq _ checked in
          elim (Result-cases (validate_header (slotted_fields c slots))) [
            | inl (e, bad) ↦ absurd (ground arith)
            | inr (header, accepted) ↦ record {
              header = header;
              built = rw (sym same_cipher) accepted;
              sealed = ground arith;
            }
          ]
    ]

-- If a payload was serialised and encrypted under a random key that is wrapped for smartcard keys
-- alone, the token decrypts with the PIN what is encrypted to the first of the keys, and the
-- checksum raises nothing, then opening the stored vault with the PIN records no failure and gives
-- back the manifest, the plaintext and each entry's key material.
pub open_vault-wrap_for_keys :
    (env : Environment) (random : Entropy)
    (rebuild_legacy : Bytes → Result (VaultManifest × ℕ × Bytes)) (card_decrypt : CardDecrypt)
    (sidecar : Bytes → Logged (Unit {0})) (collected : List CollectedEntry)
    (fields manifest : VaultManifest) (gpg : Keyring) (fp : Text) (fps : List Text)
    (pw : Option SecureBytes) (pin : SecureBytes) (params : KdfParams) (cipher : CipherAlgorithm)
    {plaintext stored : Bytes}
    → IsCollected env collected fields manifest
    → serialise_segmented_payload env collected manifest ≡ ok plaintext
    → Decrypts gpg card_decrypt fp pin
    → encrypt_payload_with_slots env random plaintext none params cipher
        (wrap_for_keys gpg (fp ∷ fps))
      ≡ ok stored
    → sidecar stored ≡ ([], ok tt)
    → GivesBack collected manifest plaintext
        (open_vault env rebuild_legacy card_decrypt sidecar pw (some pin) stored)
unfolding vault_key uses_key_slots slotted_key generate_file_key
open_vault-wrap_for_keys env random rebuild_legacy card_decrypt sidecar collected fields manifest
      gpg fp fps pw pin params cipher {plaintext} {stored} c written token encrypted checked =
    let raw = random.token_bytes 1 file_key_len in
    let nonce = random.token_bytes 0 nonce_len in
    let file_key = from_bytes env.mlock raw in
    elim (Result-cases (wrap_for_keys gpg (fp ∷ fps) file_key)) [
      | inl (e, bad) ↦ absurd (unfold encrypt_payload_with_slots in ground arith)
      | inr (slots, wrapped) ↦
          let w = wrap_for_keys_inv env gpg fp fps raw wrapped in
          let v =
            with_cards_inv env random plaintext params cipher (wrap_for_keys gpg (fp ∷ fps))
              (w.slot ∷ w.others) (wrapped ∙ ap ok w.listed) encrypted in
          let (rest, same_fields) =
            slotted_header (header_cipher cipher nonce) w.slot w.others w.valid v.built in
          let read_key : decoded w.slot.wrapped_key_b64 ≡ ok w.armored =
            ap decoded w.holds
            ∙ decoded-b64encode w.armored (token.bytes raw w.armored w.encrypted) in
          let found =
            unwrap_openpgp_slot-first env card_decrypt (header_cipher cipher nonce) w.slot rest pin
              w.armored raw w.typed read_key (token.back raw w.armored w.encrypted)
              (random.length-token_bytes 1 file_key_len) in
          let keyed : vault_key env card_decrypt v.header pw (some pin) ≡ ([], ok file_key) =
            rw same_fields found in
          let read_nonce : decoded v.header.cipher.nonce_b64 ≡ ok nonce =
            rw same_fields (decoded-b64encode _ (random.token_bytes-IsBytes 0 nonce_len)) in
          let same_cipher : v.header.cipher.algorithm ≡ cipher = rw same_fields refl in
          open_vault-Sealed env rebuild_legacy card_decrypt sidecar pw (some pin) collected fields
            manifest c written _ v.header file_key nonce refl v.built read_nonce keyed
            (rw same_cipher (seal_frame_inv env v.header plaintext file_key nonce cipher v.sealed))
            checked
    ]
