-- ===== src/Unlock/Service/Stored.antt =====
-- services/key_unlock_service.py: the slots that `_persist` stored are found again.
use gpg_meister.Base.{
  All, Bool, Error, List, Option-cases, Result, Result-cases, [], ap, append-nil, append_assoc, ap₂,
  arith, err, inl, inr, length, ok, refl, same_self, subst, suc, sym, ℕ, ◌++◌, ◌∙◌, ◌∷◌, ◌≡◌, ◌≢◌,
}
use gpg_meister.Python.{Text}
use gpg_meister.Unlock.Service.{
  Added, StoreFaults, add_slots, after_add, all_added, end_persist, not_added, persist, slots_alone,
  take_back, taken_back,
}
use gpg_meister.Unlock.Slot.{KeyUnlockSlot, validate_unlock_slot}
use gpg_meister.Unlock.Store.{
  SlotJson, SlotRow, SlotTable, add_unlock_slot, parsed_slots, rows_of, unlock_slots,
}
use gpg_meister.Unlock.Store.Rows.{Inserted, add_unlock_slot-Inserted, rows_of-append}

parsed_slots-append :
    (json : SlotJson) (xs ys : List SlotRow)
    → parsed_slots json (xs ++ ys) ≡ parsed_slots json xs ++ parsed_slots json ys
unfolding parsed_slots
parsed_slots-append json [] ys = refl
parsed_slots-append json (r ∷ xs) ys = elim (Option-cases (json.load r.slot_json)) [
  | inl e ↦ rw (e, parsed_slots-append json xs ys) refl
  | inr (slot, e) ↦ rw (e, parsed_slots-append json xs ys) refl
]

parsed_slots-row :
    (json : SlotJson) (fpr : Text) (n : ℕ) (slot : KeyUnlockSlot)
    → validate_unlock_slot slot ≡ ok slot
    → parsed_slots json
        (rows_of fpr (record { id = n; fingerprint = fpr; slot_json = json.dump slot } ∷ []))
      ≡ (n, slot) ∷ []
unfolding rows_of parsed_slots
parsed_slots-row json fpr n slot valid = rw (same_self fpr, json.load-dump slot valid) refl

parsed_slots-insert :
    (json : SlotJson) (fpr : Text) (n : ℕ) (slot : KeyUnlockSlot) (rows : List SlotRow)
    → validate_unlock_slot slot ≡ ok slot
    → parsed_slots json (
        rows_of fpr (rows ++ record { id = n; fingerprint = fpr; slot_json = json.dump slot } ∷ []))
      ≡ parsed_slots json (rows_of fpr rows) ++ (n, slot) ∷ []
parsed_slots-insert json fpr n slot rows valid =
    let row : SlotRow = record { id = n; fingerprint = fpr; slot_json = json.dump slot } in
    ap (parsed_slots json) (rows_of-append fpr rows (row ∷ []))
    ∙ (parsed_slots-append json (rows_of fpr rows) (rows_of fpr (row ∷ []))
        ∙ ap (λ l. parsed_slots json (rows_of fpr rows) ++ l)
            (parsed_slots-row json fpr n slot valid))

-- A slot that is stored stands behind the ones of its key.
unlock_slots-Inserted :
    {json : SlotJson} {fingerprint : Text} {slot : KeyUnlockSlot} {t : SlotTable} {n : ℕ}
    {after : SlotTable} {before : List (ℕ × KeyUnlockSlot)}
    → validate_unlock_slot slot ≡ ok slot
    → Inserted json fingerprint slot t n after
    → unlock_slots json fingerprint t ≡ ok before
    → unlock_slots json fingerprint after ≡ ok (before ++ (n, slot) ∷ [])
unfolding unlock_slots
unlock_slots-Inserted {json = json} {slot = slot} {t = t} {n = n} {before = before} valid step h =
    let old : parsed_slots json (rows_of step.fpr t.rows) ≡ before =
      ground (arith, step.normal, h) in
    rw (step.normal, step.table)
      (ap ok (
        parsed_slots-insert json step.fpr t.next_id slot t.rows valid
        ∙ ap₂ (λ l k. l ++ (k, slot) ∷ []) old (sym step.id)))

slots_alone-append :
    (xs : List (ℕ × KeyUnlockSlot)) (n : ℕ) (slot : KeyUnlockSlot)
    → slots_alone (xs ++ (n, slot) ∷ []) ≡ slots_alone xs ++ slot ∷ []
slots_alone-append [] n slot = refl
slots_alone-append (x ∷ xs) n slot = ap (λ l. x.1 ∷ l) (slots_alone-append xs n slot)

-- Behind the loop of `_persist`, the slots of the key are the old ones and the new ones.
add_slots-stored :
    (json : SlotJson) (refused : ℕ → Bool) (fingerprint : Text) (slots : List KeyUnlockSlot) (i : ℕ)
    (stored : List ℕ) (t : SlotTable) {before : List (ℕ × KeyUnlockSlot)} {ids : List ℕ}
    {after : SlotTable}
    → All (λ s. validate_unlock_slot s ≡ ok s) slots
    → unlock_slots json fingerprint t ≡ ok before
    → add_slots json refused fingerprint slots i stored t ≡ all_added ids after
    → (new : List (ℕ × KeyUnlockSlot)) × (unlock_slots json fingerprint after ≡ ok (before ++ new))
      × (slots_alone new ≡ slots)
unfolding add_slots
add_slots-stored json refused fingerprint [] i stored t {before = before} {after = after} valid h
      done =
    let e : t ≡ after = cc done in
    (
      [],
      subst (λ x. unlock_slots json fingerprint x ≡ ok (before ++ [])) e
          (h ∙ ap ok (sym (append-nil before))),
      refl,
    )
add_slots-stored json refused fingerprint (slot ∷ slots) i stored t {before = before} {ids = ids}
      {after = after} valid h done =
    let loop : Result (ℕ × SlotTable) → Added =
      λ r. after_add r stored t (add_slots json refused fingerprint slots (suc i)) in
    elim (Result-cases (add_unlock_slot json (refused i) fingerprint slot t)) [
      | inl (raised, bad) ↦
          let end : not_added raised stored t ≡ all_added ids after = sym (ap loop bad) ∙ done in
          absurd (cc end)
      | inr ((n, next), good) ↦
          let end : add_slots json refused fingerprint slots (suc i) (stored ++ n ∷ []) next
              ≡ all_added ids after =
            sym (ap loop good) ∙ done in
          let step = add_unlock_slot-Inserted json (refused i) fingerprint slot t good in
          let found = unlock_slots-Inserted valid.0 step h in
          let (new, at, slots_of_new) =
            add_slots-stored json refused fingerprint slots (suc i) (stored ++ n ∷ []) next valid.1
              found end in
          (
            (n, slot) ∷ new,
            at ∙ ap ok (append_assoc before ((n, slot) ∷ []) new),
            ap (λ l. slot ∷ l) slots_of_new,
          )
    ]

taken_back-raised :
    (e : Error) (event : Text) (r : Result (Unit {0}) × SlotTable)
    → (taken_back e event r).outcome ≢ ok tt
taken_back-raised e event (err raised, t) h = cc h
taken_back-raised e event (ok u, t) h = cc h

end_persist-ok :
    (refused : ℕ → Bool) (event : Text) (count : ℕ) (how : Added)
    → (end_persist refused event count how).outcome ≡ ok tt
    → (ids : List ℕ) × (how ≡ all_added ids (end_persist refused event count how).table)
end_persist-ok refused event count (all_added stored t) h = (stored, refl)
end_persist-ok refused event count (not_added e stored t) h =
    absurd (taken_back-raised e event (take_back refused stored 0 t) h)

-- When `_persist` returns, and the slots it was given are valid, the key has its old slots and then
-- the new ones.
pub persist-stored :
    (json : SlotJson) (faults : StoreFaults) (fingerprint : Text) (slots : List KeyUnlockSlot)
    (event : Text) (t : SlotTable) {before : List (ℕ × KeyUnlockSlot)}
    → All (λ s. validate_unlock_slot s ≡ ok s) slots
    → unlock_slots json fingerprint t ≡ ok before
    → (persist json faults fingerprint slots event t).outcome ≡ ok tt
    → (new : List (ℕ × KeyUnlockSlot)) × (unlock_slots json fingerprint
          (persist json faults fingerprint slots event t).table
        ≡ ok (before ++ new))
      × (slots_alone new ≡ slots)
unfolding persist
persist-stored json faults fingerprint slots event t valid h done =
    let how = add_slots json faults.insert_refused fingerprint slots 0 [] t in
    let (ids, e) = end_persist-ok faults.delete_refused event (length slots) how done in
    add_slots-stored json faults.insert_refused fingerprint slots 0 [] t valid h e
