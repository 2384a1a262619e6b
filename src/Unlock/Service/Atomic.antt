-- ===== src/Unlock/Service/Atomic.antt =====
-- services/key_unlock_service.py: `_persist` stores all slots or none.
use gpg_meister.Base.{
  ==_self, All, Bool, Error, List, Result-cases, [], ap, append-nil, append_assoc, arith, err,
  false, inl, inr, length, map, ok, refl, subst, suc, sym, ℕ, ◌++◌, ◌<◌, ◌==◌, ◌∙◌, ◌∷◌, ◌≡◌,
}
use gpg_meister.Python.{Text}
use gpg_meister.Unlock.Service.{
  Added, StoreFaults, add_slots, all_added, end_persist, not_added, persist, take_back,
}
use gpg_meister.Unlock.Slot.{KeyUnlockSlot}
use gpg_meister.Unlock.Store.{
  SlotJson, SlotRow, SlotTable, add_unlock_slot, delete_unlock_slot, rows_without_id,
}
use gpg_meister.Unlock.Store.Rows.{
  IsOrdered, IsOrdered-rows_without_id, IsTable, IsTable-Inserted, add_unlock_slot-Inserted,
  first_row,
}

abbrev row_ids : List SlotRow → List ℕ
row_ids = map (λ r. r.id)

row_ids-append :
    (xs : List SlotRow) (r : SlotRow) → row_ids (xs ++ r ∷ []) ≡ row_ids xs ++ r.id ∷ []
row_ids-append [] r = refl
row_ids-append (x ∷ xs) r = ap (λ t. x.id ∷ t) (row_ids-append xs r)

rows_without_id-above :
    (n : ℕ) (rows : List SlotRow) → All (λ s. n < s.id) rows → rows_without_id n rows ≡ rows
unfolding rows_without_id
rows_without_id-above n [] h = refl
rows_without_id-above n (r ∷ rows) h =
    let e : (r.id == n) ≡ false = ground (arith, h.0) in
    rw (e, rows_without_id-above n rows h.1) refl

middle_id :
    (low : ℕ) (base : List SlotRow) (r : SlotRow) (rest : List SlotRow)
    → All (λ s. low < s.id) (base ++ r ∷ rest)
    → low < r.id
middle_id low [] r rest h = h.0
middle_id low (s ∷ base) r rest h = middle_id low base r rest h.1

rows_without_id-middle :
    {bound : ℕ} (base : List SlotRow) (r : SlotRow) (rest : List SlotRow)
    → IsOrdered bound (base ++ r ∷ rest)
    → rows_without_id r.id (base ++ r ∷ rest) ≡ base ++ rest
unfolding rows_without_id
rows_without_id-middle [] r rest (first_row _ _ _ low above ordered) =
    rw (==_self r.id, rows_without_id-above r.id rest above) refl
rows_without_id-middle (s ∷ base) r rest (first_row _ _ _ low above ordered) =
    let smaller = middle_id s.id base r rest above in
    let e : (s.id == r.id) ≡ false = ground (arith, smaller) in
    rw (e, rows_without_id-middle base r rest ordered) refl

-- Rows that stand behind the ones of a table are taken back by their ids.
take_back-appended :
    (refused : ℕ → Bool) {bound : ℕ} (base added : List SlotRow) (i : ℕ) (t : SlotTable)
    → ((k : ℕ) → refused k ≡ false)
    → IsOrdered bound (base ++ added)
    → t.rows ≡ base ++ added
    → take_back refused (row_ids added) i t ≡ (ok tt, record t { rows = base })
unfolding take_back
take_back-appended refused base [] i t works ordered e =
    ap (λ rows. (ok tt, record t { rows = rows })) (e ∙ append-nil base)
take_back-appended refused base (r ∷ added) i t works ordered e =
    let gone : rows_without_id r.id t.rows ≡ base ++ added =
      ap (rows_without_id r.id) e ∙ rows_without_id-middle base r added ordered in
    let deleted : delete_unlock_slot (refused i) r.id t
        ≡ ok (record t { rows = rows_without_id r.id t.rows }) =
      unfold delete_unlock_slot in rw (works i) refl in
    rw deleted (
      take_back-appended refused base added (suc i)
        (record t { rows = rows_without_id r.id t.rows }) works
        (subst (IsOrdered _) (rows_without_id-middle base r added ordered)
          (IsOrdered-rows_without_id r.id ordered))
        gone)

-- How far the loop of `_persist` got from a table whose rows are `base`.
data AddedTo (base : List SlotRow) : Added → Type 0 where
  stopped_behind :
      (e : Error) (new : List SlotRow) (t : SlotTable)
      → IsTable t
      → t.rows ≡ base ++ new
      → AddedTo base (not_added e (row_ids new) t)
  added_everything : (stored : List ℕ) (t : SlotTable) → AddedTo base (all_added stored t)

add_slots-AddedTo :
    (json : SlotJson) (refused : ℕ → Bool) (fingerprint : Text) (slots : List KeyUnlockSlot) (i : ℕ)
    (base new : List SlotRow) (t : SlotTable)
    → IsTable t
    → t.rows ≡ base ++ new
    → AddedTo base (add_slots json refused fingerprint slots i (row_ids new) t)
unfolding add_slots
add_slots-AddedTo json refused fingerprint [] i base new t good e = added_everything (row_ids new) t
add_slots-AddedTo json refused fingerprint (slot ∷ slots) i base new t good e =
    elim (Result-cases (add_unlock_slot json (refused i) fingerprint slot t)) [
      | inl (raised, bad) ↦ rw bad (stopped_behind raised new t good e)
      | inr ((n, after), h) ↦
          let step = add_unlock_slot-Inserted json (refused i) fingerprint slot t h in
          let row : SlotRow = record {
            id = t.next_id;
            fingerprint = step.fpr;
            slot_json = json.dump slot;
          } in
          let rows : after.rows ≡ base ++ (new ++ row ∷ []) =
            ap (λ a. a.rows) step.table
            ∙ (ap (λ old. old ++ row ∷ []) e ∙ append_assoc base new (row ∷ [])) in
          let ids : row_ids (new ++ row ∷ []) ≡ row_ids new ++ n ∷ [] =
            row_ids-append new row ∙ ap (λ k. row_ids new ++ k ∷ []) (sym step.id) in
          rw h (
            subst
              (λ stored.
                AddedTo base (add_slots json refused fingerprint slots (suc i) stored after))
              ids
              (add_slots-AddedTo json refused fingerprint slots (suc i) base (new ++ row ∷ []) after
                (IsTable-Inserted good step) rows))
    ]

end_persist-AddedTo :
    (refused : ℕ → Bool) (event : Text) (count : ℕ) (base : List SlotRow) {how : Added} (e : Error)
    → ((k : ℕ) → refused k ≡ false)
    → AddedTo base how
    → (end_persist refused event count how).outcome ≡ err e
    → (end_persist refused event count how).table.rows ≡ base
end_persist-AddedTo refused event count base e works (stopped_behind raised new t good rows) h =
    rw
      (take_back-appended refused base new 0 t works (subst (IsOrdered t.next_id) rows good.ordered)
        rows)
      refl
end_persist-AddedTo refused event count base e works (added_everything stored t) h = absurd (cc h)

-- When `_persist` raises on a table with growing ids and capped keys, and the database refuses none of the deletions, the table holds the rows
-- that it held before.
pub persist-unchanged :
    (json : SlotJson) (faults : StoreFaults) (fingerprint : Text) (slots : List KeyUnlockSlot)
    (event : Text) (t : SlotTable) (e : Error)
    → IsTable t
    → ((k : ℕ) → faults.delete_refused k ≡ false)
    → (persist json faults fingerprint slots event t).outcome ≡ err e
    → (persist json faults fingerprint slots event t).table.rows ≡ t.rows
unfolding persist
persist-unchanged json faults fingerprint slots event t e good works h =
    end_persist-AddedTo faults.delete_refused event (length slots) t.rows e works
      (add_slots-AddedTo json faults.insert_refused fingerprint slots 0 t.rows [] t good
        (sym (append-nil t.rows)))
      h
