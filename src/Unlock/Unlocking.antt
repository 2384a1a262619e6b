-- ===== src/Unlock/Unlocking.antt =====
-- services/key_unlock_service.py: `unlock_with_token` and `unlock_with_passphrase`. The token is an
-- argument, which derives a secret from a credential and a PIN.
use gpg_meister.Audit.Secrets.{no_entries}
use gpg_meister.Base.{
  Bool, Error, List, Option, Result, String, [], checksum_mismatch_error, decryption_error, err,
  false, fido_credential_error, fido_pin_error, fido_touch_error, fido_unavailable_error,
  gpg_card_error, gpg_card_pin_error, gpg_key_not_found_error, gpg_passphrase_error,
  gpg_process_error, gpg_service_error, gpg_validation_error, if◌then◌else◌, key_unlock_error,
  no_unlock_method_error, none, not, ok, some, true, vault_service_error, ℕ, ◌&&◌, ◌>>=◌, ◌||◌, ◌∷◌,
}
use gpg_meister.Model.Fields.{KdfFields, chacha20_poly1305, to_params}
use gpg_meister.Python.{Text}
use gpg_meister.Python.Text.{codes}
use gpg_meister.Security.Buffers.{SecureBytes}
use gpg_meister.Security.Environment.{Environment}
use gpg_meister.Unlock.Secret.{unwrap_secret_with_passphrase, unwrap_with_token}
use gpg_meister.Unlock.Service.{Event, slots_alone}
use gpg_meister.Unlock.Slot.{FidoCredential, KeyUnlockSlot, by_fido, by_passphrase, unlock_slots_of}
use gpg_meister.Unlock.Store.{SlotJson, SlotTable, unlock_slots}

abbrev pub Derive : Type 0
Derive = FidoCredential → SecureBytes → Result SecureBytes

-- `isinstance(exc, ServiceError)`
unfoldable pub is_service_error : Error → Bool
is_service_error (vault_service_error m) = true
is_service_error (checksum_mismatch_error m) = true
is_service_error (gpg_service_error m) = true
is_service_error (gpg_card_error m) = true
is_service_error (gpg_card_pin_error m) = true
is_service_error (gpg_passphrase_error m) = true
is_service_error (gpg_process_error m) = true
is_service_error (gpg_key_not_found_error m) = true
is_service_error (gpg_validation_error m) = true
is_service_error (key_unlock_error m) = true
is_service_error (no_unlock_method_error m) = true
is_service_error (fido_unavailable_error m) = true
is_service_error (fido_pin_error m) = true
is_service_error (fido_touch_error m) = true
is_service_error (fido_credential_error m) = true
is_service_error _ = false

-- `_is_fatal_token_error(exc)`
unfoldable pub is_fatal_token_error : Error → Bool
is_fatal_token_error (fido_pin_error m) = true
is_fatal_token_error (fido_touch_error m) = true
is_fatal_token_error (fido_unavailable_error m) = true
is_fatal_token_error _ = false

unfoldable pub is_decryption_error : Error → Bool
is_decryption_error (decryption_error m) = true
is_decryption_error _ = false

-- What one slot comes to: the loop goes on, returns, or raises.
pub data Attempt : Type 0 where
  passed_over : Attempt
  unlocked : SecureBytes → Attempt
  raised_by_token : Error → Attempt

-- whether the loop goes on behind an exception
unfoldable pub is_passed_over : Error → Bool
unfolding is_decryption_error is_service_error is_fatal_token_error
is_passed_over e = is_decryption_error e || (is_service_error e && not (is_fatal_token_error e))

abbrev pub attempt_of : Result SecureBytes → Attempt
attempt_of (ok secret) = unlocked secret
attempt_of (err e) = if is_passed_over e then passed_over else raised_by_token e

-- the body of the loop over the token slots
abbrev pub try_credential :
    Environment → Derive → SecureBytes → KeyUnlockSlot → Option FidoCredential → Attempt
try_credential env derive pin slot none = passed_over
try_credential env derive pin slot (some credential) = attempt_of (
    derive credential pin >>= λ token_secret.
    unwrap_with_token env slot token_secret chacha20_poly1305)

unfoldable pub try_token_slot : Environment → Derive → SecureBytes → KeyUnlockSlot → Attempt
try_token_slot env derive pin slot = try_credential env derive pin slot slot.fido

-- What a call returns or raises, and the audit events that it emits.
pub record Unlocked : Type 0 where
  pub outcome : Result SecureBytes
  pub events : List Event

abbrev pub unlock_event : String → String → List Event
unlock_event event outcome =
    record { event = codes event; outcome = codes outcome; payload = no_entries } ∷ []

abbrev pub after_attempt : Attempt → Unlocked → Unlocked
after_attempt passed_over rest = rest
after_attempt (unlocked secret) rest = record {
  outcome = ok secret;
  events = unlock_event "key_unlocked_with_token" "ok";
}
after_attempt (raised_by_token e) rest = record { outcome = err e; events = [] }

unfoldable pub try_tokens : Environment → Derive → SecureBytes → List KeyUnlockSlot → Unlocked
try_tokens env derive pin [] = record {
  outcome = err (key_unlock_error "no enrolled security key could open this key");
  events = unlock_event "key_unlocked_with_token" "failed";
}
try_tokens env derive pin (slot ∷ slots) =
    after_attempt (try_token_slot env derive pin slot) (try_tokens env derive pin slots)

abbrev pub some_tokens : Environment → Derive → SecureBytes → List KeyUnlockSlot → Unlocked
some_tokens env derive pin [] = record {
  outcome = err (no_unlock_method_error "no security key is enrolled for this key");
  events = [];
}
some_tokens env derive pin (slot ∷ slots) = try_tokens env derive pin (slot ∷ slots)

abbrev pub found_slots :
    Result (List (ℕ × KeyUnlockSlot)) → (List KeyUnlockSlot → Unlocked) → Unlocked
found_slots (err e) next = record { outcome = err e; events = [] }
found_slots (ok slots) next = next (slots_alone slots)

-- `unlock_with_token(fingerprint, pin)`
unfoldable pub unlock_with_token :
    Environment → SlotJson → Derive → Text → SecureBytes → SlotTable → Unlocked
unlock_with_token env json derive fingerprint pin t =
    found_slots (unlock_slots json fingerprint t)
      (λ slots. some_tokens env derive pin (unlock_slots_of slots by_fido))

-- the slots of a passphrase with their parameters
abbrev pub onto_kdf :
    Option KdfFields
    → KeyUnlockSlot
    → List (KeyUnlockSlot × KdfFields)
    → List (KeyUnlockSlot × KdfFields)
onto_kdf none slot rest = rest
onto_kdf (some kdf) slot rest = (slot, kdf) ∷ rest

unfoldable pub with_kdf : List KeyUnlockSlot → List (KeyUnlockSlot × KdfFields)
with_kdf [] = []
with_kdf (slot ∷ slots) = onto_kdf slot.kdf slot (with_kdf slots)

abbrev pub after_passphrase : Result SecureBytes → Unlocked → Unlocked
after_passphrase (ok secret) rest = record {
  outcome = ok secret;
  events = unlock_event "key_unlocked_with_passphrase" "ok";
}
after_passphrase (err e) rest =
    if is_decryption_error e then rest else record { outcome = err e; events = [] }

unfoldable pub try_passphrases :
    Environment → SecureBytes → List (KeyUnlockSlot × KdfFields) → Unlocked
try_passphrases env pw [] = record {
  outcome = err (key_unlock_error "that passphrase did not open this key");
  events = unlock_event "key_unlocked_with_passphrase" "failed";
}
try_passphrases env pw ((slot, kdf) ∷ slots) =
    after_passphrase
      (to_params kdf >>= λ params.
        unwrap_secret_with_passphrase env slot pw params chacha20_poly1305)
      (try_passphrases env pw slots)

abbrev pub some_passphrases :
    Environment → SecureBytes → List (KeyUnlockSlot × KdfFields) → Unlocked
some_passphrases env pw [] = record {
  outcome = err (no_unlock_method_error "this key has no passphrase fallback");
  events = [];
}
some_passphrases env pw (slot ∷ slots) = try_passphrases env pw (slot ∷ slots)

-- `unlock_with_passphrase(fingerprint, passphrase)`
unfoldable pub unlock_with_passphrase :
    Environment → SlotJson → Text → SecureBytes → SlotTable → Unlocked
unlock_with_passphrase env json fingerprint pw t =
    found_slots (unlock_slots json fingerprint t)
      (λ slots. some_passphrases env pw (with_kdf (unlock_slots_of slots by_passphrase)))
