-- ===== src/Unlock/Store.antt =====
-- storage/metadata_store.py: the table of unlock slots. A transaction that the database refuses
-- leaves the table as it was and raises. Columns that no query reads are left out.
pub mod Rows
use gpg_meister.Base.{
  Bool, List, Option, Result, [], database_error, if◌then◌else◌, is_empty, leb, length,
  metadata_store_error, none, not, ok, raise_if, same, some, suc, ℕ, ◌++◌, ◌==◌, ◌>>=◌, ◌>>◌, ◌∷◌,
  ◌≡◌,
}
use gpg_meister.Model.Fields.{normalise_fingerprint}
use gpg_meister.Python.{Text}
use gpg_meister.Unlock.Slot.{KeyUnlockSlot, max_key_unlock_slots, validate_unlock_slot}

-- pydantic's `model_dump_json` and `model_validate_json` of a slot, where `none` is a
-- `ValidationError`
pub record SlotJson : Type 0 where
  pub dump : KeyUnlockSlot → Text
  pub load : Text → Option KeyUnlockSlot
  pub load-dump : (s : KeyUnlockSlot) → validate_unlock_slot s ≡ ok s → load (dump s) ≡ some s

pub record SlotRow : Type 0 where
  pub id : ℕ
  pub fingerprint : Text
  pub slot_json : Text

-- The rows in the order in which they were inserted, which is that of their ids, and the id that
-- AUTOINCREMENT gives out next.
pub record SlotTable : Type 0 where
  pub rows : List SlotRow
  pub next_id : ℕ

-- `WHERE fingerprint = ?`
unfoldable pub rows_of : Text → List SlotRow → List SlotRow
rows_of fpr [] = []
rows_of fpr (r ∷ rows) =
    let rest = rows_of fpr rows in if same r.fingerprint fpr then r ∷ rest else rest

-- what a DELETE with that condition leaves
unfoldable pub rows_without : Text → List SlotRow → List SlotRow
rows_without fpr [] = []
rows_without fpr (r ∷ rows) =
    let rest = rows_without fpr rows in if same r.fingerprint fpr then rest else r ∷ rest

-- what a DELETE by id leaves
unfoldable pub rows_without_id : ℕ → List SlotRow → List SlotRow
rows_without_id n [] = []
rows_without_id n (r ∷ rows) =
    let rest = rows_without_id n rows in if r.id == n then rest else r ∷ rest

-- `add_unlock_slot(fingerprint, slot)`, where `refused` says whether the database fails
unfoldable pub add_unlock_slot :
    SlotJson → Bool → Text → KeyUnlockSlot → SlotTable → Result (ℕ × SlotTable)
add_unlock_slot json refused fingerprint slot t = do
  fpr ← normalise_fingerprint fingerprint
  raise_if (leb max_key_unlock_slots (length (rows_of fpr t.rows)))
      (metadata_store_error "a key cannot have more than 8 unlock methods")
  raise_if refused (database_error "insert failed")
  let row : SlotRow = record { id = t.next_id; fingerprint = fpr; slot_json = json.dump slot }
  ok (t.next_id, record { rows = t.rows ++ row ∷ []; next_id = suc t.next_id })

abbrev pub onto_parsed :
    ℕ → Option KeyUnlockSlot → List (ℕ × KeyUnlockSlot) → List (ℕ × KeyUnlockSlot)
onto_parsed n none rest = rest
onto_parsed n (some slot) rest = (n, slot) ∷ rest

-- the loop of `unlock_slots`, which passes over a row that does not parse
unfoldable pub parsed_slots : SlotJson → List SlotRow → List (ℕ × KeyUnlockSlot)
parsed_slots json [] = []
parsed_slots json (r ∷ rows) = onto_parsed r.id (json.load r.slot_json) (parsed_slots json rows)

-- `unlock_slots(fingerprint)`
unfoldable pub unlock_slots : SlotJson → Text → SlotTable → Result (List (ℕ × KeyUnlockSlot))
unlock_slots json fingerprint t = do
  fpr ← normalise_fingerprint fingerprint
  ok (parsed_slots json (rows_of fpr t.rows))

-- `has_unlock_slots(fingerprint)`
unfoldable pub has_unlock_slots : Text → SlotTable → Result Bool
has_unlock_slots fingerprint t = do
  fpr ← normalise_fingerprint fingerprint
  ok (not (is_empty (rows_of fpr t.rows)))

-- `delete_unlock_slot(slot_id)`
unfoldable pub delete_unlock_slot : Bool → ℕ → SlotTable → Result SlotTable
delete_unlock_slot refused slot_id t = do
  raise_if refused (database_error "delete failed")
  ok (record t { rows = rows_without_id slot_id t.rows })

-- `delete_unlock_slots(fingerprint)`
unfoldable pub delete_unlock_slots : Bool → Text → SlotTable → Result SlotTable
delete_unlock_slots refused fingerprint t = do
  fpr ← normalise_fingerprint fingerprint
  raise_if refused (database_error "delete failed")
  ok (record t { rows = rows_without fpr t.rows })
