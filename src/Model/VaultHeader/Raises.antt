-- ===== src/Model/VaultHeader/Raises.antt =====
-- The validators raise nothing but pydantic's `ValidationError`.
use gpg_meister.Base.{
  Bool, Bool-cases, Error, IsValidationError, List, Option, Option-cases, RaisesOnly,
  RaisesOnly-bind, RaisesOnly-guard, RaisesOnly-if, RaisesOnly-ok, Result, String, [], all,
  contains, inl, inr, length, ltb, none, not, raises_rules, same, some, validation_error, ℕ, ◌&&◌,
  ◌==◌, ◌∷◌,
}
use gpg_meister.Model.Fields.{
  CipherParams, KdfFields, checked_b64, fingerprint_length, normalise_fingerprint, validate_cipher,
  validate_kdf_fields, validate_nonce_b64,
}
use gpg_meister.Model.KeySlot.{
  VaultKeySlot, VaultSlotType, as_validation, max_vault_slot_label_length, max_wrapped_key_length,
  openpgp, passphrase, slot_shape, validate_optional, validate_slot, validate_wrapped,
}
use gpg_meister.Model.VaultHeader.{
  VaultHeader, shape_2, shape_3, supported_vault_versions, too_many, validate_header,
  validate_slots, vault_format_tag, version_shape,
}
use gpg_meister.Python.{Bytes, Text}
use gpg_meister.Python.Base64.Digits.{b64decode}
use gpg_meister.Python.Text.{is_upper_hex, upper}

abbrev V : Error → Type 0
V = IsValidationError

checked_b64-raises :
    (value : Text) (good : Bytes → Bool) (m : String) → RaisesOnly V (checked_b64 value good m)
checked_b64-raises value good m = elim (Option-cases (b64decode value)) [
  | inl e ↦ rw (e, checked_b64) (search raises_rules)
  | inr (raw, e) ↦ rw (e, checked_b64) (search raises_rules)
]

optional-raises :
    {A : Type 0} (f : A → Result A) (o : Option A)
    → ((a : A) → RaisesOnly V (f a))
    → RaisesOnly V (validate_optional f o)
optional-raises f none h = search raises_rules
optional-raises f (some a) h = search (raises_rules, h)

validate_kdf_fields-raises : (k : KdfFields) → RaisesOnly V (validate_kdf_fields k)
unfolding validate_kdf_fields
validate_kdf_fields-raises k = search (raises_rules, checked_b64-raises)

validate_nonce_b64-raises : (t : Text) → RaisesOnly V (validate_nonce_b64 t)
unfolding validate_nonce_b64
validate_nonce_b64-raises t = checked_b64-raises t _ _

validate_cipher-raises : (c : CipherParams) → RaisesOnly V (validate_cipher c)
unfolding validate_cipher
validate_cipher-raises c = search (raises_rules, checked_b64-raises)

fingerprint-raises :
    (o : Option Text) → RaisesOnly V (as_validation (validate_optional normalise_fingerprint o))
unfolding as_validation normalise_fingerprint
fingerprint-raises none = search raises_rules
fingerprint-raises (some t) =
    elim (Bool-cases ((length (upper t) == fingerprint_length) && all is_upper_hex (upper t))) [
      | inl e ↦ rw e (search raises_rules)
      | inr e ↦ rw e (search raises_rules)
    ]

slot_shape-raises :
    (t : VaultSlotType) (k : Option KdfFields) (n f : Option Text)
    → RaisesOnly V (slot_shape t k n f)
unfolding slot_shape
slot_shape-raises passphrase (some k) (some n) none = search raises_rules
slot_shape-raises passphrase (some k) (some n) (some f) = search raises_rules
slot_shape-raises passphrase (some k) none f = search raises_rules
slot_shape-raises passphrase none n f = search raises_rules
slot_shape-raises openpgp k n none = search raises_rules
slot_shape-raises openpgp none none (some f) = search raises_rules
slot_shape-raises openpgp (some k) n (some f) = search raises_rules
slot_shape-raises openpgp none (some n) (some f) = search raises_rules

validate_wrapped-raises : (t : Text) (n : ℕ) → RaisesOnly V (validate_wrapped t n)
unfolding validate_wrapped
validate_wrapped-raises t n = search (raises_rules, checked_b64-raises)

validate_slot-raises : (s : VaultKeySlot) → RaisesOnly V (validate_slot s)
unfolding validate_slot
validate_slot-raises s =
    RaisesOnly-bind _ _ (validate_wrapped-raises s.wrapped_key_b64 max_wrapped_key_length) (λ _ _.
      RaisesOnly-bind _ _ (optional-raises validate_kdf_fields s.kdf validate_kdf_fields-raises)
        (λ _ _.
          RaisesOnly-bind _ _
            (optional-raises validate_nonce_b64 s.nonce_b64 validate_nonce_b64-raises)
            (λ _ _. RaisesOnly-bind _ _ (fingerprint-raises s.fingerprint) (λ fpr _.
              RaisesOnly-guard (ltb max_vault_slot_label_length (length s.label))
                (validation_error "label is too long") _ tt
                (λ _.
                  RaisesOnly-bind _ _ (slot_shape-raises s.type s.kdf s.nonce_b64 fpr)
                    (λ _ _. RaisesOnly-ok (record s { fingerprint = fpr })))))))

validate_slots-raises : (slots : List VaultKeySlot) → RaisesOnly V (validate_slots slots)
unfolding validate_slots
validate_slots-raises [] = search raises_rules
validate_slots-raises (s ∷ slots) =
    search (raises_rules, validate_slot-raises s, validate_slots-raises slots)

version_shape-raises :
    (v : ℕ) (k : Option KdfFields) (slots : Option (List VaultKeySlot))
    → RaisesOnly V (version_shape v k slots)
unfolding version_shape
version_shape-raises v k slots =
    RaisesOnly-if _ _ _ (shape_2-raises k slots) (shape_3-raises k slots)
  where
    shape_2-raises :
        (k : Option KdfFields) (slots : Option (List VaultKeySlot)) → RaisesOnly V (shape_2 k slots)
    shape_2-raises (some k) none = search raises_rules
    shape_2-raises (some k) (some slots) = search raises_rules
    shape_2-raises none slots = search raises_rules

    shape_3-raises :
        (k : Option KdfFields) (slots : Option (List VaultKeySlot)) → RaisesOnly V (shape_3 k slots)
    shape_3-raises none (some (s ∷ slots)) = search raises_rules
    shape_3-raises (some k) (some (s ∷ slots)) = search raises_rules
    shape_3-raises k (some []) = search raises_rules
    shape_3-raises k none = search raises_rules

pub validate_header-raises : (h : VaultHeader) → RaisesOnly IsValidationError (validate_header h)
unfolding validate_header
validate_header-raises h =
    RaisesOnly-guard (not (same h.format vault_format_tag))
      (validation_error "unknown vault format tag") _ tt
      (λ _.
        RaisesOnly-guard (not (contains h.version supported_vault_versions))
          (validation_error "unsupported vault version") _ tt
          (λ _.
            RaisesOnly-bind _ _
              (optional-raises validate_kdf_fields h.kdf validate_kdf_fields-raises)
              (λ _ _. RaisesOnly-bind _ _ (validate_cipher-raises h.cipher) (λ _ _.
                RaisesOnly-bind _ _
                  (optional-raises validate_slots h.key_slots validate_slots-raises)
                  (λ slots _.
                    RaisesOnly-guard (too_many slots) (validation_error "too many key slots") _ tt
                      (λ _.
                        RaisesOnly-bind _ _ (version_shape-raises h.version h.kdf slots)
                          (λ _ _. RaisesOnly-ok (record h { key_slots = slots }))))))))
