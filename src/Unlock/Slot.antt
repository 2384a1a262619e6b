-- ===== src/Unlock/Slot.antt =====
-- models/key_unlock.py: token bindings and unlock slots, with their validators.
use gpg_meister.Base.{
  Bool, List, Option, Result, [], err, false, if◌then◌else◌, is_empty, length, ltb, none, not, ok,
  raise_if, some, true, validation_error, within, ℕ, ◌==◌, ◌>>◌, ◌∷◌,
}
use gpg_meister.Model.Fields.{KdfFields, checked_b64, validate_kdf_fields, validate_nonce_b64}
use gpg_meister.Model.KeySlot.{validate_optional, validate_wrapped}
use gpg_meister.Python.{Text}
use gpg_meister.Python.Text.{codes}

abbrev pub max_key_unlock_slots : ℕ
max_key_unlock_slots = 8

abbrev pub max_unlock_slot_label_length : ℕ
max_unlock_slot_label_length = 96

abbrev pub max_wrapped_secret_length : ℕ
max_wrapped_secret_length = 256

abbrev pub max_credential_id_length : ℕ
max_credential_id_length = 1023

abbrev pub prf_salt_len : ℕ
prf_salt_len = 32

abbrev pub unlock_format_tag : Text
unlock_format_tag = codes "gpg-meister-key-unlock/1"

pub data UnlockSlotType : Type 0 where
  by_passphrase by_fido : UnlockSlotType

pub record FidoCredential : Type 0 where
  pub credential_id_b64 : Text
  pub salt_b64 : Text
  pub rp_id : Text
  pub resident : Bool
  pub user_verification : Bool
  pub label : Text

-- `FidoCredential(...)`
unfoldable pub validate_credential : FidoCredential → Result FidoCredential
validate_credential c = do
  validate_wrapped c.credential_id_b64 max_credential_id_length
  checked_b64 c.salt_b64 (λ raw. length raw == prf_salt_len) "PRF salt must decode to 32 bytes"
  raise_if (not (within 1 253 (length c.rp_id))) (validation_error "rp_id has the wrong length")
  raise_if (ltb max_unlock_slot_label_length (length c.label))
      (validation_error "label is too long")
  ok c

pub record KeyUnlockSlot : Type 0 where
  pub type : UnlockSlotType
  pub wrapped_secret_b64 : Text
  pub nonce_b64 : Text
  pub kdf : Option KdfFields
  pub fido : Option FidoCredential
  pub label : Text

-- `KeyUnlockSlot._validate_slot_shape`, on the three fields that it reads
unfoldable pub unlock_slot_shape :
    UnlockSlotType → Option KdfFields → Option FidoCredential → Result (Unit {0})
unlock_slot_shape by_passphrase none f =
    err (validation_error "a passphrase slot needs KDF parameters")
unlock_slot_shape by_passphrase (some k) (some f) =
    err (validation_error "a passphrase slot must not carry a token binding")
unlock_slot_shape by_passphrase (some k) none = ok tt
unlock_slot_shape by_fido k none = err (validation_error "a FIDO slot needs its token binding")
unlock_slot_shape by_fido (some k) (some f) =
    err (validation_error "a FIDO slot must not carry KDF parameters")
unlock_slot_shape by_fido none (some f) = ok tt

-- `KeyUnlockSlot(...)`
unfoldable pub validate_unlock_slot : KeyUnlockSlot → Result KeyUnlockSlot
validate_unlock_slot s = do
  validate_wrapped s.wrapped_secret_b64 max_wrapped_secret_length
  validate_nonce_b64 s.nonce_b64
  validate_optional validate_kdf_fields s.kdf
  validate_optional validate_credential s.fido
  raise_if (ltb max_unlock_slot_label_length (length s.label))
      (validation_error "label is too long")
  unlock_slot_shape s.type s.kdf s.fido
  ok s

unfoldable pub is_unlock_type : UnlockSlotType → UnlockSlotType → Bool
is_unlock_type by_passphrase by_passphrase = true
is_unlock_type by_passphrase by_fido = false
is_unlock_type by_fido by_passphrase = false
is_unlock_type by_fido by_fido = true

-- `slots_of(slots, slot_type)`
unfoldable pub unlock_slots_of : List KeyUnlockSlot → UnlockSlotType → List KeyUnlockSlot
unlock_slots_of [] t = []
unlock_slots_of (s ∷ slots) t =
    let rest = unlock_slots_of slots t in if is_unlock_type s.type t then s ∷ rest else rest

unfoldable pub has_emergency_passphrase : List KeyUnlockSlot → Bool
has_emergency_passphrase slots = not (is_empty (unlock_slots_of slots by_passphrase))
