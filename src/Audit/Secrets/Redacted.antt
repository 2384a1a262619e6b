-- ===== src/Audit/Secrets/Redacted.antt =====
-- What the redaction keeps and what it leaves no trace of.
use gpg_meister.Audit.Secrets.{
  Entries, Items, Value, Violation, contains_secret_marker, dict_value, entry_of, find_in_entries,
  find_in_items, find_secret_violation, is_forbidden, item_of, list_value, no_entries, no_items,
  or_else, other_value, redact_entries, redact_items, redact_secrets, str_value, tuple_value,
}
use gpg_meister.Base.{
  Bool-cases, List, Option, [], ap, arith, false, inl, inr, none, refl, some, ◌||◌, ◌≡◌,
}
use gpg_meister.Python.{Text}

pub or_else-none : (a b : Option Violation) → or_else a b ≡ none → (a ≡ none) × (b ≡ none)
or_else-none (some v) b h = absurd (cc h)
or_else-none none b h = (refl, h)

module _ (lower : Text → Text) (placeholder : Value) where
  mutual
    unfolding find_secret_violation redact_secrets

    kept_value :
        (reserved : List Text) (v : Value)
        → find_secret_violation lower reserved v ≡ none
        → redact_secrets lower placeholder v ≡ v
    kept_value reserved (str_value t) h = refl
    kept_value reserved (other_value n) h = refl
    kept_value reserved (dict_value es) h = ap dict_value (kept_entries reserved es h)
    kept_value reserved (list_value l) h = ap list_value (kept_items l h)
    kept_value reserved (tuple_value l) h = ap tuple_value (kept_items l h)

    kept_entries :
        (reserved : List Text) (es : Entries)
        → find_in_entries lower reserved es ≡ none
        → redact_entries lower placeholder es ≡ es
    kept_entries reserved no_entries h = refl
    kept_entries reserved (entry_of k v es) h =
        let a : is_forbidden lower k ≡ false = ground arith in
        let b : contains_secret_marker v ≡ false = ground arith in
        let both : or_else (find_secret_violation lower [] v) (find_in_entries lower reserved es)
            ≡ none =
          ground arith in
        let (c, d) = or_else-none _ _ both in
        rw (a, b, kept_value [] v c, kept_entries reserved es d) refl

    kept_items : (l : Items) → find_in_items lower l ≡ none → redact_items lower placeholder l ≡ l
    kept_items no_items h = refl
    kept_items (item_of v l) h =
        let b : contains_secret_marker v ≡ false = ground arith in
        let both : or_else (find_secret_violation lower [] v) (find_in_items lower l) ≡ none =
          ground arith in
        let (c, d) = or_else-none _ _ both in rw (b, kept_value [] v c, kept_items l d) refl

  -- A value in which the audit log finds no violation is not changed by the redaction of the
  -- diagnostic log, whatever the reserved keys and the placeholder.
  pub redact_secrets-clean :
      (reserved : List Text) (v : Value)
      → find_secret_violation lower reserved v ≡ none
      → redact_secrets lower placeholder v ≡ v
  redact_secrets-clean reserved v h = kept_value reserved v h

contains_secret_marker-redact_secrets :
    (lower : Text → Text) (placeholder v : Value)
    → contains_secret_marker (redact_secrets lower placeholder v) ≡ contains_secret_marker v
unfolding redact_secrets contains_secret_marker
contains_secret_marker-redact_secrets lower placeholder (str_value t) = refl
contains_secret_marker-redact_secrets lower placeholder (other_value n) = refl
contains_secret_marker-redact_secrets lower placeholder (dict_value es) = refl
contains_secret_marker-redact_secrets lower placeholder (list_value l) = refl
contains_secret_marker-redact_secrets lower placeholder (tuple_value l) = refl

module _ (lower : Text → Text) (p : Text)
    (unmarked : contains_secret_marker (str_value p) ≡ false) where
  mutual
    unfolding redact_secrets

    again_value :
        (v : Value)
        → redact_secrets lower (str_value p) (redact_secrets lower (str_value p) v)
          ≡ redact_secrets lower (str_value p) v
    again_value (str_value t) = refl
    again_value (other_value n) = refl
    again_value (dict_value es) = ap dict_value (again_entries es)
    again_value (list_value l) = ap list_value (again_items l)
    again_value (tuple_value l) = ap tuple_value (again_items l)

    again_entries :
        (es : Entries)
        → redact_entries lower (str_value p) (redact_entries lower (str_value p) es)
          ≡ redact_entries lower (str_value p) es
    again_entries no_entries = refl
    again_entries (entry_of k v es) =
        elim (Bool-cases (is_forbidden lower k || contains_secret_marker v)) [
          | inl e ↦
              elim (Bool-cases (is_forbidden lower k || contains_secret_marker (str_value p))) [
                | inl f ↦ rw (e, f, again_entries es) refl
                | inr f ↦ rw (e, f, again_entries es) refl
              ]
          | inr e ↦
              rw
                (
                  e,
                  contains_secret_marker-redact_secrets lower (str_value p) v,
                  e,
                  again_value v,
                  again_entries es,
                )
                refl
        ]

    again_items :
        (l : Items)
        → redact_items lower (str_value p) (redact_items lower (str_value p) l)
          ≡ redact_items lower (str_value p) l
    again_items no_items = refl
    again_items (item_of v l) = elim (Bool-cases (contains_secret_marker v)) [
      | inl e ↦ rw (e, unmarked, again_items l) refl
      | inr e ↦
          rw
            (
              e,
              contains_secret_marker-redact_secrets lower (str_value p) v,
              e,
              again_value v,
              again_items l,
            )
            refl
    ]

  -- If the placeholder has no secret marker, a second redaction changes nothing.
  pub redact_secrets_idem :
      (v : Value)
      → redact_secrets lower (str_value p) (redact_secrets lower (str_value p) v)
        ≡ redact_secrets lower (str_value p) v
  redact_secrets_idem v = again_value v
