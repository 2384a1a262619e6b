-- ===== src/Unlock/Service.antt =====
-- services/key_unlock_service.py: the stored unlock methods of a key, their enrolment and the
-- unlocking. GnuPG and the tokens are arguments, and an operation returns the audit events that it
-- emits beside its outcome and the table.
pub mod Atomic
pub mod Stored
use gpg_meister.Audit.Secrets.{Entries, entry_of, no_entries, other_value, str_key, str_value}
use gpg_meister.Base.{
  Bool, Error, List, Result, [], err, if◌then◌else◌, is_empty, length, map, not, ok, suc, ℕ, ◌&&◌,
  ◌++◌, ◌>>=◌, ◌>>◌, ◌||◌, ◌∷◌,
}
use gpg_meister.Python.{Text}
use gpg_meister.Python.Text.{codes}
use gpg_meister.Unlock.Slot.{KeyUnlockSlot, by_fido, has_emergency_passphrase, unlock_slots_of}
use gpg_meister.Unlock.Store.{
  SlotJson, SlotTable, add_unlock_slot, delete_unlock_slot, delete_unlock_slots, unlock_slots,
}

pub record UnlockMethods : Type 0 where
  pub token_labels : List Text
  pub has_passphrase : Bool

unfoldable pub has_token : UnlockMethods → Bool
has_token m = not (is_empty m.token_labels)

unfoldable pub is_token_only : UnlockMethods → Bool
unfolding has_token
is_token_only m = has_token m && not m.has_passphrase

unfoldable pub is_managed : UnlockMethods → Bool
unfolding has_token
is_managed m = has_token m || m.has_passphrase

abbrev pub slots_alone : List (ℕ × KeyUnlockSlot) → List KeyUnlockSlot
slots_alone = map (λ (n, slot). slot)

abbrev pub label_or_default : KeyUnlockSlot → Text
label_or_default slot = if is_empty slot.label then codes "Security key" else slot.label

-- `methods_for(fingerprint)`
unfoldable pub methods_for : SlotJson → Text → SlotTable → Result UnlockMethods
methods_for json fingerprint t = do
  stored ← unlock_slots json fingerprint t
  let slots = slots_alone stored
  ok (record {
    token_labels = map label_or_default (unlock_slots_of slots by_fido);
    has_passphrase = has_emergency_passphrase slots;
  })

-- An audit event.
pub record Event : Type 0 where
  pub event : Text
  pub outcome : Text
  pub payload : Entries

-- What an operation returns or raises, and what it leaves.
pub record Change (A : Type 0) : Type 0 where
  pub outcome : Result A
  pub table : SlotTable
  pub events : List Event

-- Which of the writes of one call the database refuses, by their number.
pub record StoreFaults : Type 0 where
  pub insert_refused : ℕ → Bool
  pub delete_refused : ℕ → Bool

-- how the loop of `_persist` ends, with the ids that it stored
pub data Added : Type 0 where
  all_added : List ℕ → SlotTable → Added
  not_added : Error → List ℕ → SlotTable → Added

abbrev pub after_add :
    Result (ℕ × SlotTable) → List ℕ → SlotTable → (List ℕ → SlotTable → Added) → Added
after_add (err e) stored t next = not_added e stored t
after_add (ok (n, after)) stored t next = next (stored ++ n ∷ []) after

unfoldable pub add_slots :
    SlotJson → (ℕ → Bool) → Text → List KeyUnlockSlot → ℕ → List ℕ → SlotTable → Added
add_slots json refused fingerprint [] i stored t = all_added stored t
add_slots json refused fingerprint (slot ∷ slots) i stored t =
    after_add (add_unlock_slot json (refused i) fingerprint slot t) stored t
      (add_slots json refused fingerprint slots (suc i))

abbrev pub after_delete :
    Result SlotTable
    → SlotTable
    → (SlotTable → Result (Unit {0}) × SlotTable)
    → Result (Unit {0}) × SlotTable
after_delete (err e) t next = (err e, t)
after_delete (ok after) t next = next after

-- the deletion of the ids that were stored
unfoldable pub take_back : (ℕ → Bool) → List ℕ → ℕ → SlotTable → Result (Unit {0}) × SlotTable
take_back refused [] i t = (ok tt, t)
take_back refused (n ∷ stored) i t =
    after_delete (delete_unlock_slot (refused i) n t) t (take_back refused stored (suc i))

abbrev pub taken_back : Error → Text → Result (Unit {0}) × SlotTable → Change (Unit {0})
taken_back e event (err raised, t) = record { outcome = err raised; table = t; events = [] }
taken_back e event (ok u, t) = record {
  outcome = err e;
  table = t;
  events =
      record {
        event = event;
        outcome = codes "failed";
        payload = entry_of (str_key (codes "reason")) (str_value (codes "store")) no_entries;
      }
      ∷ [];
}

abbrev pub end_persist : (ℕ → Bool) → Text → ℕ → Added → Change (Unit {0})
end_persist refused event count (not_added e stored t) =
    taken_back e event (take_back refused stored 0 t)
end_persist refused event count (all_added stored t) = record {
  outcome = ok tt;
  table = t;
  events =
      record {
        event = event;
        outcome = codes "ok";
        payload = entry_of (str_key (codes "slot_count")) (other_value count) no_entries;
      }
      ∷ [];
}

-- `_persist(fingerprint, slots, event)`
unfoldable pub persist :
    SlotJson → StoreFaults → Text → List KeyUnlockSlot → Text → SlotTable → Change (Unit {0})
persist json faults fingerprint slots event t =
    end_persist faults.delete_refused event (length slots)
      (add_slots json faults.insert_refused fingerprint slots 0 [] t)

-- `forget_key(fingerprint)`
abbrev pub forgotten : SlotTable → Result SlotTable → Change (Unit {0})
forgotten t (err e) = record { outcome = err e; table = t; events = [] }
forgotten t (ok after) = record {
  outcome = ok tt;
  table = after;
  events =
      record { event = codes "key_unlock_forgotten"; outcome = codes "ok"; payload = no_entries }
      ∷ [];
}

unfoldable pub forget_key : Bool → Text → SlotTable → Change (Unit {0})
forget_key refused fingerprint t = forgotten t (delete_unlock_slots refused fingerprint t)
