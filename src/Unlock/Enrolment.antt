-- ===== src/Unlock/Enrolment.antt =====
-- services/key_unlock_service.py: `bind_existing_key` and `create_key_with_token`. What GnuPG and the
-- token do is an argument.
pub mod Bound
pub mod Created
pub mod Undone
use gpg_meister.Audit.Secrets.{entry_of, no_entries, str_key, str_value}
use gpg_meister.Base.{
  Bool, Error, List, Option, Result, [], drop, err, if◌then◌else◌, key_unlock_error, length, none,
  ok, some, ℕ, ◌++◌, ◌+◌, ◌-◌, ◌>>=◌, ◌>>◌, ◌∷◌,
}
use gpg_meister.Model.Fields.{chacha20_poly1305, normalise_fingerprint}
use gpg_meister.Model.KdfParams.{KdfParams}
use gpg_meister.Python.{Text}
use gpg_meister.Python.Text.{codes}
use gpg_meister.Security.Buffers.{SecureBytes}
use gpg_meister.Security.Entropy.{Entropy}
use gpg_meister.Security.Environment.{Environment}
use gpg_meister.Services.Validation.{
  KeyAlgorithm, validate_email, validate_expiry, validate_key_algorithm_and_length,
  validate_user_name,
}
use gpg_meister.Unlock.Secret.{
  check_secret, generate_key_secret, wrap_secret_with_passphrase, wrap_with_token,
}
use gpg_meister.Unlock.Service.{Change, Event, StoreFaults, persist}
use gpg_meister.Unlock.Slot.{FidoCredential, KeyUnlockSlot}
use gpg_meister.Unlock.Store.{SlotJson, SlotTable}
use gpg_meister.Unlock.Unlocking.{is_service_error}

pub record KeyRequest : Type 0 where
  pub name : Text
  pub email : Text
  pub algorithm : KeyAlgorithm
  pub length : ℕ
  pub expiry : Text

pub record Devices : Type 0 where
  -- whether `date.fromisoformat` takes a text
  pub is_iso_date : Text → Bool
  -- `FidoService.enroll(pin, user_label)`
  pub enroll : SecureBytes → Text → Result (FidoCredential × SecureBytes)
  -- `GPGService.sign` of the probe, `generate_key` and `delete_key`
  pub sign : Text → SecureBytes → Result (Unit {0})
  pub generate_key : KeyRequest → SecureBytes → Result Text
  pub delete_key : Text → SecureBytes → Result (Unit {0})

abbrev pub as_unlock_error : Result (Unit {0}) → Result (Unit {0})
as_unlock_error (ok u) = ok u
as_unlock_error (err e) =
    if is_service_error e
    then err (key_unlock_error "that passphrase does not open this key, so it was not enrolled")
    else err e

-- `_verify_passphrase(fingerprint, passphrase)`
unfoldable pub verify_passphrase : Devices → Text → SecureBytes → Result (Unit {0})
verify_passphrase devices fpr pw = as_unlock_error (devices.sign fpr pw)

-- `bind_existing_key` up to its call of `_persist`
unfoldable pub bound_slot :
    Environment
    → Entropy
    → Devices
    → Text
    → SecureBytes
    → SecureBytes
    → Result (Text × KeyUnlockSlot)
bound_slot env random devices fingerprint pw pin = do
  fpr ← normalise_fingerprint fingerprint
  check_secret pw
  verify_passphrase devices fpr pw
  (credential, token_secret) ← devices.enroll pin (drop (length fpr - 16) fpr)
  slot ← wrap_with_token env random 0 pw token_secret credential chacha20_poly1305
  ok (fpr, slot)

abbrev pub persist_bound :
    SlotJson → StoreFaults → SlotTable → Result (Text × KeyUnlockSlot) → Change (Unit {0})
persist_bound json faults t (err e) = record { outcome = err e; table = t; events = [] }
persist_bound json faults t (ok (fpr, slot)) =
    persist json faults fpr (slot ∷ []) (codes "key_bound_to_token") t

-- `bind_existing_key(fingerprint, passphrase, pin)`
unfoldable pub bind_existing_key :
    Environment
    → Entropy
    → SlotJson
    → StoreFaults
    → Devices
    → Text
    → SecureBytes
    → SecureBytes
    → SlotTable
    → Change (Unit {0})
bind_existing_key env random json faults devices fingerprint pw pin t =
    persist_bound json faults t (bound_slot env random devices fingerprint pw pin)

-- the emergency slot of `_build_slots`
unfoldable pub emergency_slots :
    Environment
    → Entropy
    → ℕ
    → SecureBytes
    → KdfParams
    → Option SecureBytes
    → Result (List KeyUnlockSlot)
emergency_slots env random i secret params none = ok []
emergency_slots env random i secret params (some pw) = do
  slot ←
      wrap_secret_with_passphrase env random i secret pw params (codes "Emergency passphrase")
        chacha20_poly1305
  ok (slot ∷ [])

-- `_build_slots(secret, token_secret, credential, emergency_passphrase)`
unfoldable pub build_slots :
    Environment
    → Entropy
    → ℕ
    → SecureBytes
    → SecureBytes
    → FidoCredential
    → KdfParams
    → Option SecureBytes
    → Result (List KeyUnlockSlot)
build_slots env random i secret token_secret credential params emergency = do
  slot ← wrap_with_token env random i secret token_secret credential chacha20_poly1305
  more ← emergency_slots env random (i + 1) secret params emergency
  ok (slot ∷ more)

abbrev pub user_label : KeyRequest → Text
user_label request = request.name ++ (codes " <" ++ (request.email ++ codes ">"))

-- A key that GnuPG made, with the secret that opens it and the slots that are to be stored.
pub record NewKey : Type 0 where
  pub fingerprint : Text
  pub secret : SecureBytes
  pub slots : List KeyUnlockSlot

-- the checks before the token is touched
unfoldable pub validate_request : (Text → Bool) → KeyRequest → Result (Unit {0})
validate_request is_iso_date request = do
  validate_user_name request.name
  validate_email request.email
  validate_key_algorithm_and_length request.algorithm request.length
  validate_expiry is_iso_date request.expiry
  ok tt

-- `create_key_with_token` up to the creation of the key
unfoldable pub new_key :
    Environment
    → Entropy
    → Devices
    → KeyRequest
    → SecureBytes
    → KdfParams
    → Option SecureBytes
    → Result NewKey
new_key env random devices request pin params emergency = do
  validate_request devices.is_iso_date request
  (credential, token_secret) ← devices.enroll pin (user_label request)
  let secret = generate_key_secret env random 0
  slots ← build_slots env random 1 secret token_secret credential params emergency
  fingerprint ← devices.generate_key request secret
  ok (record { fingerprint = fingerprint; secret = secret; slots = slots })

-- What GnuPG was made to do, in order: a key was created, deleted, or could not be deleted.
pub data GpgCall : Type 0 where
  key_generated key_deleted key_not_deleted : Text → GpgCall

pub record Creation : Type 0 where
  pub outcome : Result Text
  pub table : SlotTable
  pub events : List Event
  pub calls : List GpgCall

-- `_discard_unopenable_key(fingerprint, secret)`
abbrev pub discarded : Error → Text → Change (Unit {0}) → Result (Unit {0}) → Creation
discarded e fpr change (ok u) = record {
  outcome = err e;
  table = change.table;
  events = change.events;
  calls = key_generated fpr ∷ key_deleted fpr ∷ [];
}
discarded e fpr change (err raised) = record {
  outcome = err e;
  table = change.table;
  events =
      change.events
      ++ record {
        event = codes "key_created_with_token";
        outcome = codes "failed";
        payload = entry_of (str_key (codes "reason")) (str_value (codes "orphan_key")) no_entries;
      }
        ∷ [];
  calls = key_generated fpr ∷ key_not_deleted fpr ∷ [];
}

abbrev pub end_create : Devices → NewKey → Change (Unit {0}) → Result (Unit {0}) → Creation
end_create devices key change (ok u) = record {
  outcome = ok key.fingerprint;
  table = change.table;
  events = change.events;
  calls = key_generated key.fingerprint ∷ [];
}
end_create devices key change (err e) =
    discarded e key.fingerprint change (devices.delete_key key.fingerprint key.secret)

abbrev pub persist_created : SlotJson → StoreFaults → Devices → SlotTable → Result NewKey → Creation
persist_created json faults devices t (err e) = record {
  outcome = err e;
  table = t;
  events = [];
  calls = [];
}
persist_created json faults devices t (ok key) =
    let change = persist json faults key.fingerprint key.slots (codes "key_created_with_token") t in
    end_create devices key change change.outcome

-- `create_key_with_token(...)`
unfoldable pub create_key_with_token :
    Environment
    → Entropy
    → SlotJson
    → StoreFaults
    → Devices
    → KeyRequest
    → SecureBytes
    → KdfParams
    → Option SecureBytes
    → SlotTable
    → Creation
create_key_with_token env random json faults devices request pin params emergency t =
    persist_created json faults devices t (new_key env random devices request pin params emergency)
