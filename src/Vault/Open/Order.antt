-- ===== src/Vault/Open/Order.antt =====
-- The order in which the passphrase slots of a header are tried.
-- The loop goes on after the slot.
use gpg_meister.Base.{
  Bool, Error, List, Option, Result, [], all, ap, arith, false, is_empty, none, ok, refl, some,
  true, ◌++◌, ◌↔◌, ◌∙◌, ◌∷◌, ◌≡◌,
}
use gpg_meister.Model.Fields.{CipherAlgorithm}
use gpg_meister.Model.KeySlot.{VaultKeySlot, passphrase}
use gpg_meister.Model.VaultHeader.{VaultHeader, slots_of}
use gpg_meister.Security.Buffers.{SecureBytes}
use gpg_meister.Security.Environment.{Environment}
use gpg_meister.Vault.Open.{
  SlotOutcome, after_slot, key_opened, slot_raised, slot_refused, slot_skipped, try_slot, try_slots,
  unwrap_passphrase_slot,
}

abbrev pub goes_on : SlotOutcome → Bool
goes_on (key_opened key) = false
goes_on (slot_refused e) = true
goes_on (slot_raised e) = false
goes_on slot_skipped = true

abbrev pub tried : Environment → SecureBytes → CipherAlgorithm → VaultKeySlot → SlotOutcome
tried env pw cipher slot = try_slot env slot pw cipher slot.kdf

-- A slot opens with the key, and the loop goes on after each slot before it.
pub record FirstOpens (env : Environment) (pw : SecureBytes) (cipher : CipherAlgorithm)
    (slots : List VaultKeySlot) (key : SecureBytes) : Type 0 where
  pub before : List VaultKeySlot
  pub slot : VaultKeySlot
  pub after : List VaultKeySlot
  pub order : slots ≡ before ++ slot ∷ after
  pub passed : all (λ s. goes_on (tried env pw cipher s)) before ≡ true
  pub opens : tried env pw cipher slot ≡ key_opened key

after_slot-goes_on :
    (o : SlotOutcome) (last : Option Error) (rest : Option Error → Result SecureBytes)
    {r : Result SecureBytes}
    → goes_on o ≡ true
    → ((l : Option Error) → rest l ≡ r)
    → after_slot o last rest ≡ r
after_slot-goes_on (key_opened key) last rest h f = absurd (cc h)
after_slot-goes_on (slot_refused e) last rest h f = f (some e)
after_slot-goes_on (slot_raised e) last rest h f = absurd (cc h)
after_slot-goes_on slot_skipped last rest h f = f last

is_empty-middle :
    (before after : List VaultKeySlot) (s : VaultKeySlot) → is_empty (before ++ s ∷ after) ≡ false
is_empty-middle [] after s = refl
is_empty-middle (t ∷ before) after s = refl

module _ (env : Environment) (pw : SecureBytes) (cipher : CipherAlgorithm) where
  try_slots-before :
      (before after : List VaultKeySlot) (slot : VaultKeySlot) (key : SecureBytes)
      (last : Option Error)
      → all (λ s. goes_on (tried env pw cipher s)) before ≡ true
      → tried env pw cipher slot ≡ key_opened key
      → try_slots env pw cipher (before ++ slot ∷ after) last ≡ ok key
  unfolding try_slots
  try_slots-before [] after slot key last passed opens = rw opens refl
  try_slots-before (s ∷ before) after slot key last passed opens =
      after_slot-goes_on (tried env pw cipher s) last _ (ground arith)
        (λ l. try_slots-before before after slot key l (ground arith) opens)

  further :
      (s : VaultKeySlot) (slots : List VaultKeySlot) {key : SecureBytes}
      → goes_on (tried env pw cipher s) ≡ true
      → FirstOpens env pw cipher slots key
      → FirstOpens env pw cipher (s ∷ slots) key
  further s slots on w = record {
    before = s ∷ w.before;
    slot = w.slot;
    after = w.after;
    order = ap (λ t. s ∷ t) w.order;
    passed = ground (arith, w.passed);
    opens = w.opens;
  }

  by_outcome :
      (s : VaultKeySlot) (slots : List VaultKeySlot) (last : Option Error)
      (rest : Option Error → Result SecureBytes) (o : SlotOutcome) {key : SecureBytes}
      → tried env pw cipher s ≡ o
      → after_slot o last rest ≡ ok key
      → ((l : Option Error) → rest l ≡ ok key → FirstOpens env pw cipher slots key)
      → FirstOpens env pw cipher (s ∷ slots) key
  by_outcome s slots last rest (key_opened k) e h more = record {
    before = [];
    slot = s;
    after = slots;
    order = refl;
    passed = refl;
    opens = e ∙ ap key_opened (cc h);
  }
  by_outcome s slots last rest (slot_refused x) e h more =
      further s slots (rw e refl) (more (some x) h)
  by_outcome s slots last rest (slot_raised x) e h more = absurd (cc h)
  by_outcome s slots last rest slot_skipped e h more = further s slots (rw e refl) (more last h)

  try_slots_inv :
      (slots : List VaultKeySlot) (last : Option Error) {key : SecureBytes}
      → try_slots env pw cipher slots last ≡ ok key
      → FirstOpens env pw cipher slots key
  unfolding try_slots
  try_slots_inv [] none h = absurd (cc h)
  try_slots_inv [] (some e) h = absurd (cc h)
  try_slots_inv (s ∷ slots) last {key} h =
      by_outcome s slots last (try_slots env pw cipher slots) (tried env pw cipher s) refl h
        (λ l. try_slots_inv slots l)

  -- Unwrapping returns a key exactly if a passphrase slot of the header opens with that key and
  -- each passphrase slot before it is refused or has no KDF parameters: the first slot that opens
  -- decides, and an earlier one that cannot be opened does no harm.
  pub unwrap_passphrase_slot_lem :
      (h : VaultHeader) (key : SecureBytes)
      → unwrap_passphrase_slot env h pw cipher ≡ ok key
        ↔ FirstOpens env pw cipher (slots_of h passphrase) key
  unfolding unwrap_passphrase_slot
  unwrap_passphrase_slot_lem h key = (
    λ done. try_slots_inv (slots_of h passphrase) none (ground arith),
    λ w.
        let found : is_empty (slots_of h passphrase) ≡ false =
          rw w.order (is_empty-middle w.before w.after w.slot) in
        rw (found, w.order) (try_slots-before w.before w.after w.slot key none w.passed w.opens),
  )
