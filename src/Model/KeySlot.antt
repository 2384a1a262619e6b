-- ===== src/Model/KeySlot.antt =====
-- models/vault.py: `VaultKeySlot`, one unlock method of a version 3 vault.
use gpg_meister.Base.{
  Bool, Option, Result, err, false, is_empty, leb, length, ltb, none, not, ok, raise_if, some, true,
  validation_error, value_error, ℕ, ◌*◌, ◌>>=◌, ◌>>◌,
}
use gpg_meister.Model.Fields.{
  KdfFields, checked_b64, normalise_fingerprint, validate_kdf_fields, validate_nonce_b64,
}
use gpg_meister.Python.{Text}

abbrev pub max_vault_key_slots : ℕ
max_vault_key_slots = 8

abbrev pub max_wrapped_key_length : ℕ
max_wrapped_key_length = 16 * 1024

abbrev pub max_vault_slot_label_length : ℕ
max_vault_slot_label_length = 128

pub data VaultSlotType : Type 0 where
  passphrase openpgp : VaultSlotType

pub record VaultKeySlot : Type 0 where
  pub type : VaultSlotType
  pub wrapped_key_b64 : Text
  pub kdf : Option KdfFields
  pub nonce_b64 : Option Text
  pub fingerprint : Option Text
  pub label : Text

unfoldable pub validate_wrapped : Text → ℕ → Result Text
validate_wrapped value limit = do
  checked_b64 value (λ raw. not (is_empty raw)) "wrapped key must not be empty"
  checked_b64 value (λ raw. leb (length raw) limit) "wrapped key is too large"

abbrev pub validate_optional {ℓ} : {A : Type ℓ} → (A → Result A) → Option A → Result (Option A)
validate_optional f none = ok none
validate_optional f (some a) = f a >>= λ b. ok (some b)

-- `VaultKeySlot._validate_slot_shape`, on the four fields that it reads
unfoldable pub slot_shape :
    VaultSlotType → Option KdfFields → Option Text → Option Text → Result (Unit {0})
slot_shape passphrase (some k) (some n) none = ok tt
slot_shape passphrase (some k) (some n) (some f) =
    err (validation_error "a passphrase slot must not carry a key fingerprint")
slot_shape passphrase (some k) none f =
    err (validation_error "a passphrase slot needs KDF parameters and a nonce")
slot_shape passphrase none n f =
    err (validation_error "a passphrase slot needs KDF parameters and a nonce")
slot_shape openpgp k n none =
    err (validation_error "an OpenPGP slot needs the recipient fingerprint")
slot_shape openpgp none none (some f) = ok tt
slot_shape openpgp (some k) n (some f) =
    err (validation_error "an OpenPGP slot must not carry KDF parameters")
slot_shape openpgp none (some n) (some f) =
    err (validation_error "an OpenPGP slot must not carry KDF parameters")

-- A validator's `ValueError` becomes pydantic's `ValidationError`.
unfoldable pub as_validation {ℓ} : {A : Type ℓ} → Result A → Result A
as_validation (ok a) = ok a
as_validation (err (value_error m)) = err (validation_error m)
as_validation (err e) = err e

-- `VaultKeySlot(...)`: the fingerprint is stored in upper case.
unfoldable pub validate_slot : VaultKeySlot → Result VaultKeySlot
validate_slot s = do
  validate_wrapped s.wrapped_key_b64 max_wrapped_key_length
  validate_optional validate_kdf_fields s.kdf
  validate_optional validate_nonce_b64 s.nonce_b64
  fpr ← as_validation (validate_optional normalise_fingerprint s.fingerprint)
  raise_if (ltb max_vault_slot_label_length (length s.label)) (validation_error "label is too long")
  slot_shape s.type s.kdf s.nonce_b64 fpr
  ok (record s { fingerprint = fpr })

unfoldable pub is_slot_type : VaultSlotType → VaultSlotType → Bool
is_slot_type passphrase passphrase = true
is_slot_type passphrase openpgp = false
is_slot_type openpgp passphrase = false
is_slot_type openpgp openpgp = true
