-- ===== src/Unlock/Enrolment/Bound.antt =====
-- services/key_unlock_service.py: a token that was bound to a key opens it.
use gpg_meister.Base.{
  All, Bool-cases, List, Result, Result-cases, [], ap, arith, drop, err, inl, inr, length, none, ok,
  refl, some, sym, ℕ, ◌++◌, ◌-◌, ◌∙◌, ◌∷◌, ◌≡◌,
}
use gpg_meister.Model.Fields.{CipherAlgorithm, chacha20_poly1305, normalise_fingerprint}
use gpg_meister.Model.VaultHeader.Shape.{normalise_fingerprint_idem}
use gpg_meister.Python.{Bytes, IsBytes, Text}
use gpg_meister.Python.Base64.Digits.{b64encode}
use gpg_meister.Python.Text.{codes}
use gpg_meister.Security.Aead.{encrypt, generate_nonce}
use gpg_meister.Security.Buffers.{SecureBytes, from_bytes, view}
use gpg_meister.Security.Entropy.{Entropy}
use gpg_meister.Security.Environment.{Environment}
use gpg_meister.Unlock.Enrolment.{Devices, bind_existing_key, bound_slot, persist_bound}
use gpg_meister.Unlock.Secret.{unlock_associated_data, wrap_with_token}
use gpg_meister.Unlock.Secret.RoundTrip.{unwrap_with_token-wrap_with_token, validate_unlock_slot-eq}
use gpg_meister.Unlock.Service.{StoreFaults, persist, slots_alone}
use gpg_meister.Unlock.Service.Stored.{persist-stored}
use gpg_meister.Unlock.Slot.{
  FidoCredential, KeyUnlockSlot, UnlockSlotType, by_fido, is_unlock_type, unlock_slots_of,
  validate_unlock_slot,
}
use gpg_meister.Unlock.Store.{SlotJson, SlotTable, unlock_slots}
use gpg_meister.Unlock.Unlocking.{
  Derive, passed_over, some_tokens, try_credential, try_token_slot, try_tokens, unlock_event,
  unlock_with_token, unlocked,
}

-- A slot that was wrapped under a token is valid and carries its credential.
pub wrap_with_token_inv :
    (env : Environment) (random : Entropy) (i : ℕ) (secret token_secret : SecureBytes)
    (credential : FidoCredential) (cipher : CipherAlgorithm) {slot : KeyUnlockSlot}
    → wrap_with_token env random i secret token_secret credential cipher ≡ ok slot
    → (validate_unlock_slot slot ≡ ok slot) × (slot.type ≡ by_fido) × (slot.fido ≡ some credential)
unfolding wrap_with_token
wrap_with_token_inv env random i secret token_secret credential cipher {slot} h =
    let nonce = generate_nonce (random.token_bytes i) in
    elim (Result-cases (view secret)) [
      | inl (e, bad) ↦ absurd (ground (arith, bad))
      | inr (plain, seen) ↦
          elim (Result-cases
            (encrypt env plain token_secret nonce (unlock_associated_data by_fido) cipher)) [
              | inl (e, bad) ↦ absurd (ground (arith, seen, bad))
              | inr (sealed, encrypted) ↦
                  let fields : KeyUnlockSlot = record {
                    type = by_fido;
                    wrapped_secret_b64 = b64encode sealed;
                    nonce_b64 = b64encode nonce;
                    kdf = none;
                    fido = some credential;
                    label = credential.label;
                  } in
                  let made : validate_unlock_slot fields ≡ ok slot =
                    ground (arith, seen, encrypted) in
                  let e : slot ≡ fields = validate_unlock_slot-eq fields made in
                  (ap validate_unlock_slot e ∙ made, ap (λ s. s.type) e, ap (λ s. s.fido) e)
            ]
    ]

pub try_tokens-passed_over :
    (env : Environment) (derive : Derive) (pin : SecureBytes) (old slots : List KeyUnlockSlot)
    → All (λ s. try_token_slot env derive pin s ≡ passed_over) old
    → try_tokens env derive pin (old ++ slots) ≡ try_tokens env derive pin slots
unfolding try_tokens
try_tokens-passed_over env derive pin [] slots h = refl
try_tokens-passed_over env derive pin (s ∷ old) slots h =
    rw h.0 (try_tokens-passed_over env derive pin old slots h.1)

pub unlock_slots_of-append :
    (xs ys : List KeyUnlockSlot) (t : UnlockSlotType)
    → unlock_slots_of (xs ++ ys) t ≡ unlock_slots_of xs t ++ unlock_slots_of ys t
unfolding unlock_slots_of
unlock_slots_of-append [] ys t = refl
unlock_slots_of-append (s ∷ xs) ys t = elim (Bool-cases (is_unlock_type s.type t)) [
  | inl e ↦ rw (e, unlock_slots_of-append xs ys t) refl
  | inr e ↦ rw (e, unlock_slots_of-append xs ys t) refl
]

slots_alone-append_all :
    (xs ys : List (ℕ × KeyUnlockSlot)) → slots_alone (xs ++ ys) ≡ slots_alone xs ++ slots_alone ys
slots_alone-append_all [] ys = refl
slots_alone-append_all (x ∷ xs) ys = ap (λ l. x.1 ∷ l) (slots_alone-append_all xs ys)

some_tokens-append :
    (env : Environment) (derive : Derive) (pin : SecureBytes) (old : List KeyUnlockSlot)
    (slot : KeyUnlockSlot) (slots : List KeyUnlockSlot)
    → some_tokens env derive pin (old ++ slot ∷ slots)
      ≡ try_tokens env derive pin (old ++ slot ∷ slots)
some_tokens-append env derive pin [] slot slots = refl
some_tokens-append env derive pin (s ∷ old) slot slots = refl

unlock_slots_of-token :
    (slot : KeyUnlockSlot) (others : List KeyUnlockSlot)
    → slot.type ≡ by_fido
    → unlock_slots_of (slot ∷ others) by_fido ≡ slot ∷ unlock_slots_of others by_fido
unfolding unlock_slots_of is_unlock_type
unlock_slots_of-token slot others token = rw token refl

try_tokens-unlocked :
    (env : Environment) (derive : Derive) (pin : SecureBytes) (slot : KeyUnlockSlot)
    (slots : List KeyUnlockSlot) (secret : SecureBytes)
    → try_token_slot env derive pin slot ≡ unlocked secret
    → try_tokens env derive pin (slot ∷ slots)
      ≡ record { outcome = ok secret; events = unlock_event "key_unlocked_with_token" "ok" }
unfolding try_tokens
try_tokens-unlocked env derive pin slot slots secret opens = rw opens refl

-- A new token slot that opens, behind token slots that are passed over, opens the key.
pub unlock_with_token-opens :
    (env : Environment) (json : SlotJson) (derive : Derive) (fingerprint : Text) (pin : SecureBytes)
    (t : SlotTable) (old new : List (ℕ × KeyUnlockSlot)) (slot : KeyUnlockSlot)
    (others : List KeyUnlockSlot) (secret : SecureBytes)
    → unlock_slots json fingerprint t ≡ ok (old ++ new)
    → slots_alone new ≡ slot ∷ others
    → All
        (λ s. try_token_slot env derive pin s ≡ passed_over)
        (unlock_slots_of (slots_alone old) by_fido)
    → slot.type ≡ by_fido
    → try_token_slot env derive pin slot ≡ unlocked secret
    → unlock_with_token env json derive fingerprint pin t
      ≡ record { outcome = ok secret; events = unlock_event "key_unlocked_with_token" "ok" }
unfolding unlock_with_token
unlock_with_token-opens env json derive fingerprint pin t old new slot others secret found at over
      token opens =
    let others_of = unlock_slots_of others by_fido in
    let first : unlock_slots_of (slot ∷ others) by_fido ≡ slot ∷ others_of =
      unlock_slots_of-token slot others token in
    let split : unlock_slots_of (slots_alone (old ++ new)) by_fido
        ≡ unlock_slots_of (slots_alone old) by_fido ++ slot ∷ others_of =
      ap (λ l. unlock_slots_of l by_fido)
        (slots_alone-append_all old new ∙ ap (λ l. slots_alone old ++ l) at)
      ∙ (unlock_slots_of-append (slots_alone old) (slot ∷ others) by_fido
          ∙ ap (λ l. unlock_slots_of (slots_alone old) by_fido ++ l) first) in
    rw (found, split)
      (some_tokens-append env derive pin (unlock_slots_of (slots_alone old) by_fido) slot others_of
        ∙ (try_tokens-passed_over env derive pin (unlock_slots_of (slots_alone old) by_fido)
              (slot ∷ others_of) over
            ∙ try_tokens-unlocked env derive pin slot others_of secret opens))

-- the token derives from a credential what it derived when the credential was enrolled
abbrev pub Rederives : Devices → Derive → SecureBytes → Type 0
Rederives devices derive pin =
    (label : Text) (credential : FidoCredential) (token_secret : SecureBytes)
    → devices.enroll pin label ≡ ok (credential, token_secret)
    → derive credential pin ≡ ok token_secret

-- what `bind_existing_key` has at hand when it stores the slot
record BoundBy (env : Environment) (random : Entropy) (devices : Devices) (fingerprint : Text)
    (pw pin : SecureBytes) (fpr : Text) (slot : KeyUnlockSlot) : Type 0 where
  label : Text
  credential : FidoCredential
  token_secret : SecureBytes
  normal : normalise_fingerprint fingerprint ≡ ok fpr
  enrolled : devices.enroll pin label ≡ ok (credential, token_secret)
  wrapped : wrap_with_token env random 0 pw token_secret credential chacha20_poly1305 ≡ ok slot

bound_slot-BoundBy :
    (env : Environment) (random : Entropy) (devices : Devices) (fingerprint : Text)
    (pw pin : SecureBytes) {fpr : Text} {slot : KeyUnlockSlot}
    → bound_slot env random devices fingerprint pw pin ≡ ok (fpr, slot)
    → BoundBy env random devices fingerprint pw pin fpr slot
unfolding bound_slot
bound_slot-BoundBy env random devices fingerprint pw pin h =
    elim (Result-cases (normalise_fingerprint fingerprint)) [
      | inl (e, bad) ↦ absurd (ground (arith, bad))
      | inr (upper_fpr, normal) ↦
          let last_digits = drop (length upper_fpr - 16) upper_fpr in
          elim (Result-cases (devices.enroll pin last_digits)) [
            | inl (e, bad) ↦ absurd (ground (arith, normal, bad))
            | inr ((credential, token_secret), enrolled) ↦
                elim (Result-cases
                  (wrap_with_token env random 0 pw token_secret credential chacha20_poly1305)) [
                    | inl (e, bad) ↦ absurd (ground (arith, normal, enrolled, bad))
                    | inr (wrapped_slot, wrapped) ↦ record {
                      label = last_digits;
                      credential = credential;
                      token_secret = token_secret;
                      normal = ground (arith, normal, enrolled, wrapped);
                      enrolled = enrolled;
                      wrapped = ground (arith, normal, enrolled, wrapped);
                    }
                  ]
          ]
    ]

unlock_slots-normal :
    (json : SlotJson) (fingerprint : Text) (t : SlotTable) {fpr : Text}
    → normalise_fingerprint fingerprint ≡ ok fpr
    → unlock_slots json fingerprint t ≡ unlock_slots json fpr t
unfolding unlock_slots
unlock_slots-normal json fingerprint t normal =
    rw (normal, normalise_fingerprint_idem fingerprint normal) refl

pub try_token_slot-wrapped :
    (env : Environment) (random : Entropy) (i : ℕ) (derive : Derive) (pin : SecureBytes)
    (raw : Bytes) (token_secret : SecureBytes) (credential : FidoCredential) {slot : KeyUnlockSlot}
    → IsBytes raw
    → wrap_with_token env random i
        (from_bytes env.mlock raw)
        token_secret
        credential
        chacha20_poly1305
      ≡ ok slot
    → derive credential pin ≡ ok token_secret
    → try_token_slot env derive pin slot ≡ unlocked (from_bytes env.mlock raw)
unfolding try_token_slot
try_token_slot-wrapped env random i derive pin raw token_secret credential {slot} bytes wrapped
      again =
    let (valid, token, at) =
      wrap_with_token_inv env random i (from_bytes env.mlock raw) token_secret credential
        chacha20_poly1305 wrapped in
    let unwrapped =
      unwrap_with_token-wrap_with_token env random i raw token_secret credential chacha20_poly1305
        bytes wrapped in
    ap (try_credential env derive pin slot) at ∙ rw (again, unwrapped) refl

persist_bound-ok :
    (json : SlotJson) (faults : StoreFaults) (t : SlotTable) (r : Result (Text × KeyUnlockSlot))
    → (persist_bound json faults t r).outcome ≡ ok tt
    → (fpr : Text) × (slot : KeyUnlockSlot) × (r ≡ ok (fpr, slot))
persist_bound-ok json faults t (err e) h = absurd (cc h)
persist_bound-ok json faults t (ok (fpr, slot)) h = (fpr, slot, refl)

-- When `bind_existing_key` returns for a passphrase of bytes, the token unlocks the key with that
-- passphrase, if it derives what it derived at the enrolment and the older token slots of the key
-- are passed over.
pub unlock_with_token-bind_existing_key :
    (env : Environment) (random : Entropy) (json : SlotJson) (faults : StoreFaults)
    (devices : Devices) (derive : Derive) (fingerprint : Text) (raw : Bytes) (pin : SecureBytes)
    (t : SlotTable) {before : List (ℕ × KeyUnlockSlot)}
    → IsBytes raw
    → Rederives devices derive pin
    → unlock_slots json fingerprint t ≡ ok before
    → All
        (λ s. try_token_slot env derive pin s ≡ passed_over)
        (unlock_slots_of (slots_alone before) by_fido)
    → (bind_existing_key env random json faults devices fingerprint
        (from_bytes env.mlock raw)
        pin
        t).outcome
      ≡ ok tt
    → unlock_with_token env json derive fingerprint pin
        (bind_existing_key env random json faults devices fingerprint
          (from_bytes env.mlock raw)
          pin
          t).table
      ≡ record {
        outcome = ok (from_bytes env.mlock raw);
        events = unlock_event "key_unlocked_with_token" "ok";
      }
unfolding bind_existing_key
unlock_with_token-bind_existing_key env random json faults devices derive fingerprint raw pin t
      {before} bytes again found over done =
    let pw = from_bytes env.mlock raw in
    let (fpr, slot, at) =
      persist_bound-ok json faults t (bound_slot env random devices fingerprint pw pin) done in
    let bound = bound_slot-BoundBy env random devices fingerprint pw pin at in
    let (valid, token, fido_at) =
      wrap_with_token_inv env random 0 pw bound.token_secret bound.credential chacha20_poly1305
        bound.wrapped in
    let stored : (persist json faults fpr (slot ∷ []) (codes "key_bound_to_token") t).outcome
        ≡ ok tt =
      sym (ap (λ r. (persist_bound json faults t r).outcome) at) ∙ done in
    let (new, slots, alone) =
      persist-stored json faults fpr (slot ∷ []) (codes "key_bound_to_token") t (valid, tt)
        (sym (unlock_slots-normal json fingerprint t bound.normal) ∙ found) stored in
    let after = (persist json faults fpr (slot ∷ []) (codes "key_bound_to_token") t).table in
    rw at (
      unlock_with_token-opens env json derive fingerprint pin after before new slot [] pw
        (unlock_slots-normal json fingerprint after bound.normal ∙ slots) alone over token
        (try_token_slot-wrapped env random 0 derive pin raw bound.token_secret bound.credential
          bytes bound.wrapped
          (again bound.label bound.credential bound.token_secret bound.enrolled)))
