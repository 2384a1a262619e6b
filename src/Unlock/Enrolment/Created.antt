-- ===== src/Unlock/Enrolment/Created.antt =====
-- services/key_unlock_service.py: a key that was created with a token is opened by it.
use gpg_meister.Base.{
  All, Error, List, Option, Result, Result-cases, [], ap, arith, err, inl, inr, none, ok, refl,
  some, subst, sym, ℕ, ◌%◌, ◌*◌, ◌+◌, ◌/◌, ◌<◌, ◌>>=◌, ◌∙◌, ◌∷◌, ◌≡◌,
}
use gpg_meister.Model.Fields.{CipherAlgorithm, chacha20_poly1305}
use gpg_meister.Model.KdfParams.{KdfParams}
use gpg_meister.Python.{Bytes, IsBytes, Text}
use gpg_meister.Python.Base64.Digits.{b64_digit, b64encode}
use gpg_meister.Python.Text.{codes}
use gpg_meister.Security.Buffers.{SecureBytes, from_bytes}
use gpg_meister.Security.Entropy.{Entropy}
use gpg_meister.Security.Environment.{Environment}
use gpg_meister.Unlock.Enrolment.{
  Devices, KeyRequest, NewKey, build_slots, create_key_with_token, discarded, emergency_slots,
  end_create, new_key, persist_created, user_label,
}
use gpg_meister.Unlock.Enrolment.Bound.{
  Rederives, try_token_slot-wrapped, unlock_with_token-opens, wrap_with_token_inv,
}
use gpg_meister.Unlock.Secret.{
  generate_key_secret, key_secret_raw_len, wrap_secret_with_passphrase, wrap_with_token,
}
use gpg_meister.Unlock.Secret.RoundTrip.{validate_unlock_slot-eq}
use gpg_meister.Unlock.Service.{Change, StoreFaults, persist}
use gpg_meister.Unlock.Service.Stored.{persist-stored}
use gpg_meister.Unlock.Slot.{FidoCredential, KeyUnlockSlot, unlock_slots_of, validate_unlock_slot}
use gpg_meister.Unlock.Store.{SlotJson, SlotTable, unlock_slots}
use gpg_meister.Unlock.Unlocking.{Derive, unlock_event, unlock_with_token}

-- what `create_key_with_token` has at hand when it stores the slots
record MadeBy (env : Environment) (random : Entropy) (devices : Devices) (request : KeyRequest)
    (pin : SecureBytes) (key : NewKey) : Type 0 where
  credential : FidoCredential
  token_secret : SecureBytes
  slot : KeyUnlockSlot
  more : List KeyUnlockSlot
  secret : key.secret ≡ generate_key_secret env random 0
  slots : key.slots ≡ slot ∷ more
  enrolled : devices.enroll pin (user_label request) ≡ ok (credential, token_secret)
  wrapped :
      wrap_with_token env random 1
        (generate_key_secret env random 0)
        token_secret
        credential
        chacha20_poly1305
      ≡ ok slot
  more_valid : All (λ s. validate_unlock_slot s ≡ ok s) more

abbrev IsValidSlot : KeyUnlockSlot → Type 0
IsValidSlot slot = validate_unlock_slot slot ≡ ok slot

-- A computation returns only valid slots.
record ReturnsValid (r : Result KeyUnlockSlot) : Type 0 where
  at : (slot : KeyUnlockSlot) → r ≡ ok slot → IsValidSlot slot

ReturnsValid-validate : (s : KeyUnlockSlot) → ReturnsValid (validate_unlock_slot s)
ReturnsValid-validate s = record {
  at = λ slot h. ap validate_unlock_slot (validate_unlock_slot-eq s h) ∙ h;
}

ReturnsValid-bind :
    {A : Type 0} (m : Result A) (f : A → Result KeyUnlockSlot)
    → ((a : A) → ReturnsValid (f a))
    → ReturnsValid (m >>= f)
ReturnsValid-bind (ok a) f h = h a
ReturnsValid-bind (err e) f h = record { at = λ slot bad. absurd (cc bad) }

wrap_secret_with_passphrase-ReturnsValid :
    (env : Environment) (random : Entropy) (i : ℕ) (secret pw : SecureBytes) (params : KdfParams)
    (label : Text) (cipher : CipherAlgorithm)
    → ReturnsValid (wrap_secret_with_passphrase env random i secret pw params label cipher)
unfolding wrap_secret_with_passphrase
wrap_secret_with_passphrase-ReturnsValid env random i secret pw params label cipher =
    search (ReturnsValid-bind, ReturnsValid-validate) depth 9

emergency_slots-valid :
    (env : Environment) (random : Entropy) (i : ℕ) (secret : SecureBytes) (params : KdfParams)
    (emergency : Option SecureBytes) (more : List KeyUnlockSlot)
    → emergency_slots env random i secret params emergency ≡ ok more
    → All (λ s. validate_unlock_slot s ≡ ok s) more
unfolding emergency_slots
emergency_slots-valid env random i secret params none more h =
    let e : [] ≡ more = cc h in subst (All (λ s. validate_unlock_slot s ≡ ok s)) e tt
emergency_slots-valid env random i secret params (some pw) more h =
    elim (Result-cases (
      wrap_secret_with_passphrase env random i secret pw params (codes "Emergency passphrase")
        chacha20_poly1305)) [
          | inl (e, bad) ↦ absurd (ground (arith, bad))
          | inr (slot, wrapped) ↦
              let e : slot ∷ [] ≡ more = ground (arith, wrapped) in
              subst (All (λ s. validate_unlock_slot s ≡ ok s)) e (
                (wrap_secret_with_passphrase-ReturnsValid env random i secret pw params
                      (codes "Emergency passphrase") chacha20_poly1305).at
                    slot wrapped,
                tt,
              )
        ]

b64_digit_bound : (x : ℕ) → b64_digit x < 256
unfolding b64_digit
b64_digit_bound x = ground arith

b64encode-IsBytes : (bs : Bytes) → IsBytes (b64encode bs)
unfolding b64encode
b64encode-IsBytes [] = tt
b64encode-IsBytes (a ∷ []) =
    (b64_digit_bound (a / 4), (b64_digit_bound (a % 4 * 16), (omega arith, (omega arith, tt))))
b64encode-IsBytes (a ∷ b ∷ []) = (
  b64_digit_bound (a / 4),
  (b64_digit_bound (a % 4 * 16 + b / 16), (b64_digit_bound (b % 16 * 4), (omega arith, tt))),
)
b64encode-IsBytes (a ∷ b ∷ c ∷ r) = (
  b64_digit_bound (a / 4),
  (
    b64_digit_bound (a % 4 * 16 + b / 16),
    (b64_digit_bound (b % 16 * 4 + c / 64), (b64_digit_bound (c % 64), b64encode-IsBytes r)),
  ),
)

build_slots-split :
    (env : Environment) (random : Entropy) (i : ℕ) (secret token_secret : SecureBytes)
    (credential : FidoCredential) (params : KdfParams) (emergency : Option SecureBytes)
    {slots : List KeyUnlockSlot}
    → build_slots env random i secret token_secret credential params emergency ≡ ok slots
    → (slot : KeyUnlockSlot) × (more : List KeyUnlockSlot) × (slots ≡ slot ∷ more)
      × (wrap_with_token env random i secret token_secret credential chacha20_poly1305 ≡ ok slot)
      × All IsValidSlot more
unfolding build_slots
build_slots-split env random i secret token_secret credential params emergency h =
    elim (Result-cases
      (wrap_with_token env random i secret token_secret credential chacha20_poly1305)) [
        | inl (e, bad) ↦ absurd (ground (arith, bad))
        | inr (slot, wrapped) ↦
            elim (Result-cases (emergency_slots env random (i + 1) secret params emergency)) [
              | inl (e, bad) ↦ absurd (ground (arith, wrapped, bad))
              | inr (more, built) ↦ (
                slot,
                more,
                ground (arith, wrapped, built),
                wrapped,
                emergency_slots-valid env random (i + 1) secret params emergency more built,
              )
            ]
      ]

new_key-MadeBy :
    (env : Environment) (random : Entropy) (devices : Devices) (request : KeyRequest)
    (pin : SecureBytes) (params : KdfParams) (emergency : Option SecureBytes) {key : NewKey}
    → new_key env random devices request pin params emergency ≡ ok key
    → MadeBy env random devices request pin key
unfolding new_key
new_key-MadeBy env random devices request pin params emergency {key} h =
    let secret = generate_key_secret env random 0 in
    elim (Result-cases (devices.enroll pin (user_label request))) [
      | inl (e, bad) ↦ absurd (ground (arith, bad))
      | inr ((credential, token_secret), enrolled) ↦
          elim (Result-cases
            (build_slots env random 1 secret token_secret credential params emergency)) [
              | inl (e, bad) ↦ absurd (ground (arith, enrolled, bad))
              | inr (slots, built) ↦
                  let (slot, more, at, wrapped, valid) =
                    build_slots-split env random 1 secret token_secret credential params emergency
                      built in
                  record {
                    credential = credential;
                    token_secret = token_secret;
                    slot = slot;
                    more = more;
                    secret = ground (arith, enrolled, built);
                    slots = ground (arith, enrolled, built, at);
                    enrolled = enrolled;
                    wrapped = wrapped;
                    more_valid = valid;
                  }
            ]
    ]

persist_created-ok :
    (json : SlotJson) (faults : StoreFaults) (devices : Devices) (t : SlotTable) (r : Result NewKey)
    (fpr : Text)
    → (persist_created json faults devices t r).outcome ≡ ok fpr
    → (key : NewKey) × (r ≡ ok key)
      × (key.fingerprint ≡ fpr)
      × ((persist json faults key.fingerprint key.slots (codes "key_created_with_token") t).outcome
          ≡ ok tt)
      × ((persist_created json faults devices t r).table
          ≡ (persist json faults key.fingerprint key.slots
              (codes "key_created_with_token")
              t).table)
persist_created-ok json faults devices t (err e) fpr h = absurd (cc h)
persist_created-ok json faults devices t (ok key) fpr h =
    let (at, done, table) =
      end_ok (persist json faults key.fingerprint key.slots (codes "key_created_with_token") t)
        (persist json faults key.fingerprint key.slots (codes "key_created_with_token") t).outcome
        h in
    (key, refl, at, done, table)
  where
    discarded-raised :
        (raised : Error) (change : Change (Unit {0})) (d : Result (Unit {0}))
        → (discarded raised key.fingerprint change d).outcome ≡ err raised
    discarded-raised raised change (ok u) = refl
    discarded-raised raised change (err e) = refl

    end_ok :
        (change : Change (Unit {0})) (r : Result (Unit {0}))
        → (end_create devices key change r).outcome ≡ ok fpr
        → (key.fingerprint ≡ fpr)
          × (r ≡ ok tt)
          × ((end_create devices key change r).table ≡ change.table)
    end_ok change (ok u) good = (cc good, refl, refl)
    end_ok change (err raised) good =
        let bad = discarded-raised raised change (devices.delete_key key.fingerprint key.secret) in
        absurd (cc (good, bad))

-- When `create_key_with_token` returns, the token unlocks the key with the secret that was drawn for
-- it, if the token derives what it derived at the enrolment and the table had no slot of the key.
pub unlock_with_token-create_key_with_token :
    (env : Environment) (random : Entropy) (json : SlotJson) (faults : StoreFaults)
    (devices : Devices) (derive : Derive) (request : KeyRequest) (pin : SecureBytes)
    (params : KdfParams) (emergency : Option SecureBytes) (t : SlotTable) (fpr : Text)
    → Rederives devices derive pin
    → unlock_slots json fpr t ≡ ok []
    → (create_key_with_token env random json faults devices request pin params emergency t).outcome
      ≡ ok fpr
    → unlock_with_token env json derive fpr pin
        (create_key_with_token env random json faults devices request pin params emergency t).table
      ≡ record {
        outcome = ok (generate_key_secret env random 0);
        events = unlock_event "key_unlocked_with_token" "ok";
      }
unfolding create_key_with_token generate_key_secret
unlock_with_token-create_key_with_token env random json faults devices derive request pin params
      emergency t fpr again found done =
    let r = new_key env random devices request pin params emergency in
    let raw = b64encode (random.token_bytes 0 key_secret_raw_len) in
    let (key, at, name, stored, table) = persist_created-ok json faults devices t r fpr done in
    let made = new_key-MadeBy env random devices request pin params emergency at in
    let (valid, token, fido_at) =
      wrap_with_token_inv env random 1 (from_bytes env.mlock raw) made.token_secret made.credential
        chacha20_poly1305 made.wrapped in
    let valid_slots : All IsValidSlot key.slots =
      subst (All IsValidSlot) (sym made.slots) (valid, made.more_valid) in
    let (new, slots, alone) =
      persist-stored json faults key.fingerprint key.slots (codes "key_created_with_token") t
        valid_slots (subst (λ f. unlock_slots json f t ≡ ok []) (sym name) found) stored in
    let after =
      (persist json faults key.fingerprint key.slots (codes "key_created_with_token") t).table in
    ap (unlock_with_token env json derive fpr pin) table
    ∙ unlock_with_token-opens env json derive fpr pin after [] new made.slot made.more
        (from_bytes env.mlock raw) (subst (λ f. unlock_slots json f after ≡ ok new) name slots)
        (alone ∙ made.slots) (unfold unlock_slots_of in tt) token
        (try_token_slot-wrapped env random 1 derive pin raw made.token_secret made.credential
          (b64encode-IsBytes (random.token_bytes 0 key_secret_raw_len)) made.wrapped
          (again (user_label request) made.credential made.token_secret made.enrolled))
