-- ===== src/Unlock/Enrolment/Undone.antt =====
-- services/key_unlock_service.py: a key whose slots could not be stored is deleted again, or reported.
use gpg_meister.Audit.Secrets.{entry_of, no_entries, str_key, str_value}
use gpg_meister.Base.{Error, List, [], err, ok, ◌++◌, ◌∷◌, ◌≡◌, ◌⊎◌}
use gpg_meister.Model.KdfParams.{KdfParams}
use gpg_meister.Python.{Text}
use gpg_meister.Python.Text.{codes}
use gpg_meister.Security.Buffers.{SecureBytes}
use gpg_meister.Security.Entropy.{Entropy}
use gpg_meister.Security.Environment.{Environment}
use gpg_meister.Unlock.Enrolment.{Creation, Devices, key_deleted, key_generated, key_not_deleted}
use gpg_meister.Unlock.Service.{Event}

-- the event that a key was left behind
abbrev pub orphan_event : Event
orphan_event = record {
  event = codes "key_created_with_token";
  outcome = codes "failed";
  payload = entry_of (str_key (codes "reason")) (str_value (codes "orphan_key")) no_entries;
}

-- GnuPG made a key and deleted it; or it refused the deletion, and the last event says so.
abbrev pub IsTriedBack : Devices → Text → SecureBytes → Creation → Type 0
IsTriedBack devices fpr secret c =
    ((devices.delete_key fpr secret ≡ ok tt) × (c.calls ≡ key_generated fpr ∷ key_deleted fpr ∷ []))
    ⊎ ((refused : Error) × (devices.delete_key fpr secret ≡ err refused)
        × (c.calls ≡ key_generated fpr ∷ key_not_deleted fpr ∷ [])
        × ((before : List Event) × (c.events ≡ before ++ orphan_event ∷ [])))

-- No key was made, or the one that was made was taken back.
abbrev pub IsTakenBack : Devices → Creation → Type 0
IsTakenBack devices c =
    (c.calls ≡ []) ⊎ ((fpr : Text) × (secret : SecureBytes) × IsTriedBack devices fpr secret c)
