-- ===== src/Model/VaultHeader.antt =====
-- models/vault.py: `VaultHeader`, the unencrypted header of a vault.
pub mod Shape
pub mod Raises
use gpg_meister.Base.{
  Bool, List, Option, Result, [], contains, err, false, if◌then◌else◌, is_empty, length, ltb, none,
  not, ok, raise_if, same, some, validation_error, ℕ, ◌==◌, ◌>>=◌, ◌>>◌, ◌∷◌,
}
use gpg_meister.Model.Fields.{CipherParams, KdfFields, validate_cipher, validate_kdf_fields}
use gpg_meister.Model.KeySlot.{
  VaultKeySlot, VaultSlotType, is_slot_type, max_vault_key_slots, validate_optional, validate_slot,
}
use gpg_meister.Python.{Text}
use gpg_meister.Python.Text.{codes}

abbrev pub vault_format_tag : Text
vault_format_tag = codes "GPGMEISTER_VAULT"

abbrev pub vault_format_version : ℕ
vault_format_version = 2

abbrev pub vault_format_version_slots : ℕ
vault_format_version_slots = 3

abbrev pub supported_vault_versions : List ℕ
supported_vault_versions = vault_format_version ∷ vault_format_version_slots ∷ []

pub record VaultHeader : Type 0 where
  pub format : Text
  pub version : ℕ
  pub kdf : Option KdfFields
  pub cipher : CipherParams
  pub key_slots : Option (List VaultKeySlot)

-- `bool(self.key_slots)`
unfoldable pub uses_key_slots : VaultHeader → Bool
uses_key_slots h = elim h.key_slots [ none ↦ false | some slots ↦ not (is_empty slots) ]

unfoldable pub filter_slots : VaultSlotType → List VaultKeySlot → List VaultKeySlot
unfolding is_slot_type
filter_slots t [] = []
filter_slots t (s ∷ slots) =
    let rest = filter_slots t slots in if is_slot_type s.type t then s ∷ rest else rest

-- `VaultHeader.slots_of`
unfoldable pub slots_of : VaultHeader → VaultSlotType → List VaultKeySlot
unfolding filter_slots
slots_of h t = elim h.key_slots [ none ↦ [] | some slots ↦ filter_slots t slots ]

shape_2 : Option KdfFields → Option (List VaultKeySlot) → Result (Unit {0})
shape_2 (some k) none = ok tt
shape_2 (some k) (some slots) = err (validation_error "key slots require vault version 3")
shape_2 none slots = err (validation_error "a version 2 vault header needs KDF parameters")

shape_3 : Option KdfFields → Option (List VaultKeySlot) → Result (Unit {0})
shape_3 none (some (s ∷ slots)) = ok tt
shape_3 (some k) (some (s ∷ slots)) =
    err (validation_error "a version 3 vault header derives no key from the header KDF")
shape_3 k (some []) = err (validation_error "a version 3 vault header needs at least one key slot")
shape_3 k none = err (validation_error "a version 3 vault header needs at least one key slot")

abbrev too_many : Option (List VaultKeySlot) → Bool
too_many none = false
too_many (some slots) = ltb max_vault_key_slots (length slots)

-- `VaultHeader._validate_version_shape`, on the three fields that it reads
unfoldable pub version_shape : ℕ → Option KdfFields → Option (List VaultKeySlot) → Result (Unit {0})
unfolding shape_2 shape_3
version_shape version kdf slots =
    if version == vault_format_version then shape_2 kdf slots else shape_3 kdf slots

unfoldable pub validate_slots : List VaultKeySlot → Result (List VaultKeySlot)
unfolding validate_slot
validate_slots [] = ok []
validate_slots (s ∷ slots) = do
  first ← validate_slot s
  rest ← validate_slots slots
  ok (first ∷ rest)

-- `VaultHeader(...)` and `VaultHeader.model_validate(...)`
unfoldable pub validate_header : VaultHeader → Result VaultHeader
validate_header h = do
  raise_if (not (same h.format vault_format_tag)) (validation_error "unknown vault format tag")
  raise_if (not (contains h.version supported_vault_versions))
      (validation_error "unsupported vault version")
  validate_optional validate_kdf_fields h.kdf
  validate_cipher h.cipher
  slots ← validate_optional validate_slots h.key_slots
  raise_if (too_many slots) (validation_error "too many key slots")
  version_shape h.version h.kdf slots
  ok (record h { key_slots = slots })
