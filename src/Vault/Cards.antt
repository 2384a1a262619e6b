-- ===== src/Vault/Cards.antt =====
-- services/vault_service.py: the key slots of smartcard keys. GnuPG's key list and its encryption
-- to a key are arguments.
pub mod Reopen
use gpg_meister.Base.{
  Bool, List, Result, [], ok, raise_if, take, vault_service_error, ◌++◌, ◌>>=◌, ◌>>◌, ◌∷◌,
}
use gpg_meister.Model.KeySlot.{VaultKeySlot, max_vault_slot_label_length}
use gpg_meister.Python.{Bytes, Text}
use gpg_meister.Python.Text.{codes}
use gpg_meister.Security.Buffers.{SecureBytes, to_bytes}
use gpg_meister.Vault.KeySlots.{openpgp_slot}

-- What is read of a `KeyInfo`: the label of its storage and its first user ID beside its state.
pub record UnlockKey : Type 0 where
  pub fingerprint : Text
  pub is_revoked : Bool
  pub is_expired : Bool
  pub storage_label : Text
  pub primary_user_id : Text

-- `_unlock_slot_label(key)`
unfoldable pub unlock_slot_label : UnlockKey → Text
unlock_slot_label key =
    take max_vault_slot_label_length (key.storage_label ++ (codes " · " ++ key.primary_user_id))

-- `self._gpg.find_key(fp)`, and `self._gpg.encrypt(raw, recipient_fingerprints=[fp])` in UTF-8
pub record Keyring : Type 0 where
  pub find_key : Text → Result UnlockKey
  pub encrypt_to : Bytes → Text → Result Bytes

-- `_wrap_for_keys(file_key, fingerprints)`
unfoldable pub wrap_for_keys : Keyring → List Text → SecureBytes → Result (List VaultKeySlot)
wrap_for_keys gpg [] file_key = ok []
wrap_for_keys gpg (fp ∷ fingerprints) file_key = do
  key ← gpg.find_key fp
  raise_if key.is_revoked (vault_service_error "a revoked key cannot be used to unlock a vault")
  raise_if key.is_expired (vault_service_error "an expired key cannot be used to unlock a vault")
  raw ← to_bytes file_key
  armored ← gpg.encrypt_to raw fp
  slot ← openpgp_slot armored key.fingerprint (unlock_slot_label key)
  rest ← wrap_for_keys gpg fingerprints file_key
  ok (slot ∷ rest)
