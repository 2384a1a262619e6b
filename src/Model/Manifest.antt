-- ===== src/Model/Manifest.antt =====
-- models/vault.py: the manifest, which is the encrypted part of a vault. A date is the text that
-- its ISO form has in the manifest.

pub mod Valid
use gpg_meister.Base.{
  Bool, List, Option, Result, [], any, length, ltb, not, ok, raise_if, validation_error, ℕ, ◌*◌,
  ◌==◌, ◌>>=◌, ◌>>◌, ◌∷◌,
}
use gpg_meister.Model.Fields.{fingerprint_length, normalise_fingerprint}
use gpg_meister.Model.KeySlot.{as_validation}
use gpg_meister.Python.{Text}

abbrev pub max_vault_keys : ℕ
max_vault_keys = 1024

abbrev pub max_vault_user_ids : ℕ
max_vault_user_ids = 16

abbrev pub max_vault_user_id_length : ℕ
max_vault_user_id_length = 512

abbrev pub max_vault_description_length : ℕ
max_vault_description_length = 4096

abbrev pub max_vault_created_by_length : ℕ
max_vault_created_by_length = 256

abbrev pub max_vault_armor_length : ℕ
max_vault_armor_length = 8 * 1024 * 1024

pub record VaultKeyEntry : Type 0 where
  pub fingerprint : Text
  pub user_ids : List Text
  pub has_private_key : Bool
  pub is_stub : Bool
  pub created_at : Text
  pub expires_at : Option Text

pub record VaultManifest : Type 0 where
  pub created_by : Text
  pub created_at : Text
  pub app_version : Text
  pub description : Text
  pub keys : List VaultKeyEntry

-- `VaultKeyEntry(...)`
unfoldable pub validate_entry : VaultKeyEntry → Result VaultKeyEntry
validate_entry e = do
  raise_if (not (length e.fingerprint == fingerprint_length))
      (validation_error "fingerprint has the wrong length")
  fpr ← as_validation (normalise_fingerprint e.fingerprint)
  raise_if (ltb max_vault_user_ids (length e.user_ids)) (validation_error "too many user IDs")
  raise_if (any (λ u. ltb max_vault_user_id_length (length u)) e.user_ids)
      (validation_error "vault user ID is too long")
  ok (record e { fingerprint = fpr })

unfoldable pub validate_entries : List VaultKeyEntry → Result (List VaultKeyEntry)
validate_entries [] = ok []
validate_entries (e ∷ entries) = do
  first ← validate_entry e
  rest ← validate_entries entries
  ok (first ∷ rest)

-- `VaultManifest(...)` and `VaultManifest.model_validate(...)`
unfoldable pub validate_manifest : VaultManifest → Result VaultManifest
validate_manifest m = do
  raise_if (ltb max_vault_created_by_length (length m.created_by))
      (validation_error "created_by is too long")
  raise_if (ltb max_vault_description_length (length m.description))
      (validation_error "description is too long")
  keys ← validate_entries m.keys
  raise_if (ltb max_vault_keys (length keys)) (validation_error "too many keys")
  ok (record m { keys = keys })
