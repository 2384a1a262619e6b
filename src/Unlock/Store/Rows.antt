-- ===== src/Unlock/Store/Rows.antt =====
-- storage/metadata_store.py: what every sequence of operations keeps of the table of slots.
use gpg_meister.Base.{
  All, All-append, Bool, Bool-cases, List, Result-cases, [], append-nil, arith, false, inl, inr,
  leb, length, length-append, ok, refl, same, same→eq, subst, suc, ℕ, ◌++◌, ◌<◌, ◌==◌, ◌∷◌, ◌≡◌,
  ◌≤◌,
}
use gpg_meister.Model.Fields.{normalise_fingerprint}
use gpg_meister.Python.{Text}
use gpg_meister.Unlock.Slot.{KeyUnlockSlot, max_key_unlock_slots}
use gpg_meister.Unlock.Store.{
  SlotJson, SlotRow, SlotTable, add_unlock_slot, delete_unlock_slot, delete_unlock_slots, rows_of,
  rows_without, rows_without_id,
}

-- The ids grow, and all are below a bound.
pub data IsOrdered : ℕ → List SlotRow → Type 0 where
  no_rows : (bound : ℕ) → IsOrdered bound []
  first_row :
      (bound : ℕ) (r : SlotRow) (rows : List SlotRow)
      → r.id < bound
      → All (λ s. r.id < s.id) rows
      → IsOrdered bound rows
      → IsOrdered bound (r ∷ rows)

-- The ids are those that were given out, in order, and no key has more slots than the cap.
pub record IsTable (t : SlotTable) : Type 0 where
  pub ordered : IsOrdered t.next_id t.rows
  pub capped : (fpr : Text) → length (rows_of fpr t.rows) ≤ max_key_unlock_slots

-- One operation that changes the table and is not refused.
pub data TableStep (json : SlotJson) (t : SlotTable) : SlotTable → Type 0 where
  insert_step :
      (fingerprint : Text) (slot : KeyUnlockSlot) (n : ℕ) (after : SlotTable)
      → add_unlock_slot json false fingerprint slot t ≡ ok (n, after)
      → TableStep json t after
  delete_step :
      (n : ℕ) (after : SlotTable) → delete_unlock_slot false n t ≡ ok after → TableStep json t after
  delete_all_step :
      (fingerprint : Text) (after : SlotTable)
      → delete_unlock_slots false fingerprint t ≡ ok after
      → TableStep json t after

All-rows_without_id :
    (P : SlotRow → Type 0) (n : ℕ) (rows : List SlotRow)
    → All P rows
    → All P (rows_without_id n rows)
unfolding rows_without_id
All-rows_without_id P n [] h = tt
All-rows_without_id P n (r ∷ rows) h = elim (Bool-cases (r.id == n)) [
  | inl e ↦ rw e (All-rows_without_id P n rows h.1)
  | inr e ↦ rw e (h.0, All-rows_without_id P n rows h.1)
]

All-rows_without :
    (P : SlotRow → Type 0) (fpr : Text) (rows : List SlotRow)
    → All P rows
    → All P (rows_without fpr rows)
unfolding rows_without
All-rows_without P fpr [] h = tt
All-rows_without P fpr (r ∷ rows) h = elim (Bool-cases (same r.fingerprint fpr)) [
  | inl e ↦ rw e (All-rows_without P fpr rows h.1)
  | inr e ↦ rw e (h.0, All-rows_without P fpr rows h.1)
]

pub IsOrdered-rows_without_id :
    {bound : ℕ} (n : ℕ) {rows : List SlotRow}
    → IsOrdered bound rows
    → IsOrdered bound (rows_without_id n rows)
unfolding rows_without_id
IsOrdered-rows_without_id n (no_rows bound) = no_rows bound
IsOrdered-rows_without_id n (first_row bound r rows low above rest) =
    elim (Bool-cases (r.id == n)) [
      | inl e ↦ rw e (IsOrdered-rows_without_id n rest)
      | inr e ↦ rw e (
          first_row bound r (rows_without_id n rows) low
            (All-rows_without_id (λ s. r.id < s.id) n rows above)
            (IsOrdered-rows_without_id n rest))
    ]

IsOrdered-rows_without :
    {bound : ℕ} (fpr : Text) {rows : List SlotRow}
    → IsOrdered bound rows
    → IsOrdered bound (rows_without fpr rows)
unfolding rows_without
IsOrdered-rows_without fpr (no_rows bound) = no_rows bound
IsOrdered-rows_without fpr (first_row bound r rows low above rest) =
    elim (Bool-cases (same r.fingerprint fpr)) [
      | inl e ↦ rw e (IsOrdered-rows_without fpr rest)
      | inr e ↦ rw e (
          first_row bound r (rows_without fpr rows) low
            (All-rows_without (λ s. r.id < s.id) fpr rows above) (IsOrdered-rows_without fpr rest))
    ]

length-rows_without_id :
    (fpr : Text) (n : ℕ) (rows : List SlotRow)
    → length (rows_of fpr (rows_without_id n rows)) ≤ length (rows_of fpr rows)
unfolding rows_of rows_without_id
length-rows_without_id fpr n [] = omega arith
length-rows_without_id fpr n (r ∷ rows) = ground (arith, length-rows_without_id fpr n rows)

length-rows_without :
    (fpr gone : Text) (rows : List SlotRow)
    → length (rows_of fpr (rows_without gone rows)) ≤ length (rows_of fpr rows)
unfolding rows_of rows_without
length-rows_without fpr gone [] = omega arith
length-rows_without fpr gone (r ∷ rows) = ground (arith, length-rows_without fpr gone rows)

-- a new row at the end
IsOrdered-append :
    (r : SlotRow) {rows : List SlotRow}
    → IsOrdered r.id rows
    → IsOrdered (suc r.id) (rows ++ r ∷ [])
IsOrdered-append r (no_rows _) = first_row (suc r.id) r [] (omega arith) tt (no_rows (suc r.id))
IsOrdered-append r (first_row _ s rows low above rest) =
    first_row (suc r.id) s (rows ++ r ∷ []) (omega arith)
      (All-append (λ x. s.id < x.id) rows (r ∷ []) above (low, tt)) (IsOrdered-append r rest)

pub rows_of-append :
    (fpr : Text) (xs ys : List SlotRow) → rows_of fpr (xs ++ ys) ≡ rows_of fpr xs ++ rows_of fpr ys
unfolding rows_of
rows_of-append fpr [] ys = refl
rows_of-append fpr (r ∷ xs) ys = elim (Bool-cases (same r.fingerprint fpr)) [
  | inl e ↦ rw (e, rows_of-append fpr xs ys) refl
  | inr e ↦ rw (e, rows_of-append fpr xs ys) refl
]

-- what an insertion that is not refused does
pub record Inserted (json : SlotJson) (fingerprint : Text) (slot : KeyUnlockSlot) (t : SlotTable)
    (n : ℕ) (after : SlotTable) : Type 0 where
  pub fpr : Text
  pub normal : normalise_fingerprint fingerprint ≡ ok fpr
  pub room : leb max_key_unlock_slots (length (rows_of fpr t.rows)) ≡ false
  pub id : n ≡ t.next_id
  pub table : after ≡ record {
    rows = t.rows ++ record { id = t.next_id; fingerprint = fpr; slot_json = json.dump slot } ∷ [];
    next_id = suc t.next_id;
  }

pub add_unlock_slot-Inserted :
    (json : SlotJson) (refused : Bool) (fingerprint : Text) (slot : KeyUnlockSlot) (t : SlotTable)
    {n : ℕ} {after : SlotTable}
    → add_unlock_slot json refused fingerprint slot t ≡ ok (n, after)
    → Inserted json fingerprint slot t n after
unfolding add_unlock_slot
add_unlock_slot-Inserted json refused fingerprint slot t h =
    elim (Result-cases (normalise_fingerprint fingerprint)) [
      | inl (e, bad) ↦ absurd (ground (arith, bad, h))
      | inr (fpr, normal) ↦ record {
        fpr = fpr;
        normal = normal;
        room = ground (arith, normal, h);
        id = ground (arith, normal, h);
        table = ground (arith, normal, h);
      }
    ]

room_for :
    (fpr given : Text) (rows : List SlotRow) (n : ℕ) (stored : Text)
    → leb max_key_unlock_slots (length (rows_of given rows)) ≡ false
    → length (rows_of fpr rows) ≤ max_key_unlock_slots
    → length (
        rows_of fpr rows
        ++ rows_of fpr (record { id = n; fingerprint = given; slot_json = stored } ∷ []))
      ≤ max_key_unlock_slots
unfolding rows_of
room_for fpr given rows n stored room capped = elim (Bool-cases (same given fpr)) [
  | inl e ↦
      let short : length (rows_of fpr rows) < max_key_unlock_slots =
        subst (λ f. length (rows_of f rows) < max_key_unlock_slots) (same→eq given fpr e)
          (ground (arith, room)) in
      let row : SlotRow = record { id = n; fingerprint = given; slot_json = stored } in
      rw e (omega (arith, short, length-append (rows_of fpr rows) (row ∷ [])))
  | inr e ↦ rw (e, append-nil) capped
]

pub IsTable-Inserted :
    {json : SlotJson} {fingerprint : Text} {slot : KeyUnlockSlot} {t : SlotTable} {n : ℕ}
    {after : SlotTable}
    → IsTable t
    → Inserted json fingerprint slot t n after
    → IsTable after
IsTable-Inserted {json = json} {slot = slot} {t = t} good step =
    let row : SlotRow = record {
      id = t.next_id;
      fingerprint = step.fpr;
      slot_json = json.dump slot;
    } in
    rw step.table (record {
      ordered = IsOrdered-append row good.ordered;
      capped = λ fpr.
          rw (rows_of-append fpr t.rows (row ∷ []))
            (room_for fpr step.fpr t.rows t.next_id (json.dump slot) step.room (good.capped fpr));
    })

delete_unlock_slot-eq :
    (refused : Bool) (n : ℕ) (t : SlotTable) {after : SlotTable}
    → delete_unlock_slot refused n t ≡ ok after
    → after ≡ record t { rows = rows_without_id n t.rows }
unfolding delete_unlock_slot
delete_unlock_slot-eq refused n t h = ground (arith, h)

delete_unlock_slots-eq :
    (refused : Bool) (fingerprint : Text) (t : SlotTable) {after : SlotTable}
    → delete_unlock_slots refused fingerprint t ≡ ok after
    → (fpr : Text) × (after ≡ record t { rows = rows_without fpr t.rows })
unfolding delete_unlock_slots
delete_unlock_slots-eq refused fingerprint t h =
    elim (Result-cases (normalise_fingerprint fingerprint)) [
      | inl (e, bad) ↦ absurd (ground (arith, bad, h))
      | inr (fpr, normal) ↦ (fpr, ground (arith, normal, h))
    ]

TableStep-IsTable :
    {json : SlotJson} {t after : SlotTable} → IsTable t → TableStep json t after → IsTable after
TableStep-IsTable {json = json} {t = t} good (insert_step fingerprint slot n after h) =
    IsTable-Inserted good (add_unlock_slot-Inserted json false fingerprint slot t h)
TableStep-IsTable {t = t} good (delete_step n after h) =
    rw (delete_unlock_slot-eq false n t h) (record {
      ordered = IsOrdered-rows_without_id n good.ordered;
      capped = λ fpr. omega (arith, good.capped fpr, length-rows_without_id fpr n t.rows);
    })
TableStep-IsTable {t = t} good (delete_all_step fingerprint after h) =
    let (gone, e) = delete_unlock_slots-eq false fingerprint t h in
    rw e (record {
      ordered = IsOrdered-rows_without gone good.ordered;
      capped = λ fpr. omega (arith, good.capped fpr, length-rows_without fpr gone t.rows);
    })

-- The tables that operations reach from the empty one.
pub data ReachesTable (json : SlotJson) : SlotTable → Type 0 where
  empty_table : ReachesTable json (record { rows = []; next_id = 1 })
  after_step :
      (t after : SlotTable) → ReachesTable json t → TableStep json t after → ReachesTable json after

-- Whatever slots are added and deleted, the ids of the rows grow and are below the next one, and no
-- key has more than eight slots.
pub ReachesTable-IsTable : {json : SlotJson} {t : SlotTable} → ReachesTable json t → IsTable t
ReachesTable-IsTable empty_table = record {
  ordered = no_rows 1;
  capped = λ fpr. unfold rows_of in omega arith;
}
ReachesTable-IsTable (after_step t after reached step) =
    TableStep-IsTable (ReachesTable-IsTable reached) step
