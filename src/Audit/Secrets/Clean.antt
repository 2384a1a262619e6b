-- ===== src/Audit/Secrets/Clean.antt =====
-- storage/secret_keys.py: what a value without a violation does not hold, at any depth.
use gpg_meister.Audit.Secrets.{
  Entries, Items, Key, Value, contains_secret_marker, content_triggers, dict_value, entry_of,
  find_in_entries, find_in_items, find_secret_violation, forbidden_keys, is_forbidden,
  is_forbidden_key, is_member, is_reserved, item_of, list_value, no_entries, no_items, occurs_in,
  or_else, other_key, other_value, str_key, str_value, tuple_value,
}
use gpg_meister.Audit.Secrets.Occurs.{occurs_in-middle}
use gpg_meister.Audit.Secrets.Redacted.{or_else-none}
use gpg_meister.Base.{
  All, All-append, All-of_any, IsNone, IsNone-of_any, List, [], ap, arith, false, none, ◌++◌, ◌∷◌,
  ◌≡◌, ◌≢◌,
}
use gpg_meister.Python.{Text}

-- The texts that stand anywhere in a value.
unfoldable mutual
  pub texts_in : Value → List Text
  texts_in (str_value t) = t ∷ []
  texts_in (other_value n) = []
  texts_in (dict_value es) = texts_in_entries es
  texts_in (list_value l) = texts_in_items l
  texts_in (tuple_value l) = texts_in_items l

  pub texts_in_entries : Entries → List Text
  texts_in_entries no_entries = []
  texts_in_entries (entry_of k v es) = texts_in v ++ texts_in_entries es

  pub texts_in_items : Items → List Text
  texts_in_items no_items = []
  texts_in_items (item_of v l) = texts_in v ++ texts_in_items l

abbrev pub name_of : Key → List Text
name_of (str_key k) = k ∷ []
name_of (other_key n) = []

-- The names of the dictionaries that stand anywhere in a value.
unfoldable mutual
  pub names_in : Value → List Text
  names_in (str_value t) = []
  names_in (other_value n) = []
  names_in (dict_value es) = names_in_entries es
  names_in (list_value l) = names_in_items l
  names_in (tuple_value l) = names_in_items l

  pub names_in_entries : Entries → List Text
  names_in_entries no_entries = []
  names_in_entries (entry_of k v es) = name_of k ++ (names_in v ++ names_in_entries es)

  pub names_in_items : Items → List Text
  names_in_items no_items = []
  names_in_items (item_of v l) = names_in v ++ names_in_items l

-- the names of a dictionary itself
unfoldable pub own_names : Entries → List Text
own_names no_entries = []
own_names (entry_of k v es) = name_of k ++ own_names es

-- None of `parts` stands in the text, wherever.
abbrev pub HoldsNone : List Text → Text → Type 0
HoldsNone parts t = All (λ part. (before rest : Text) → t ≢ before ++ (part ++ rest)) parts

-- A dictionary without secrets: no text in it, at any depth, holds the start of a private key or of a
-- message, no dictionary in it has a name of the deny list, and it has no reserved name itself.
pub record IsClean (lower : Text → Text) (reserved : List Text) (es : Entries) : Type 0 where
  pub no_marker : All (HoldsNone content_triggers) (texts_in_entries es)
  pub no_forbidden_name : All (λ k. IsNone forbidden_keys (lower k)) (names_in_entries es)
  pub no_reserved_name : All (IsNone reserved) (own_names es)

All-weaken : (P Q : Text → Type 0) → ((t : Text) → P t → Q t) → (l : List Text) → All P l → All Q l
All-weaken P Q f [] h = tt
All-weaken P Q f (t ∷ l) h = (f t h.0, All-weaken P Q f l h.1)

unmarked : (t : Text) → contains_secret_marker (str_value t) ≡ false → HoldsNone content_triggers t
unfolding contains_secret_marker
unmarked t h =
    All-of_any (λ part. occurs_in part t)
      (λ part. (before rest : Text) → t ≢ before ++ (part ++ rest))
      (λ part absent before rest e.
        let found = occurs_in-middle before part rest in
        absurd (cc (ap (occurs_in part) e, found, absent)))
      content_triggers h

not_member : (t : Text) (names : List Text) → is_member t names ≡ false → IsNone names t
unfolding is_member
not_member t names h = IsNone-of_any names t h

module _ (lower : Text → Text) where
  abbrev IsUnmarked : Text → Type 0
  IsUnmarked t = contains_secret_marker (str_value t) ≡ false

  abbrev IsPermitted : Text → Type 0
  IsPermitted k = is_forbidden_key lower k ≡ false

  name_of-IsPermitted : (k : Key) → is_forbidden lower k ≡ false → All IsPermitted (name_of k)
  unfolding is_forbidden
  name_of-IsPermitted (str_key k) h = (h, tt)
  name_of-IsPermitted (other_key n) h = tt

  mutual
    unfolding find_secret_violation texts_in names_in

    clean_value :
        (v : Value)
        → contains_secret_marker v ≡ false
        → find_secret_violation lower [] v ≡ none
        → All IsUnmarked (texts_in v) × All IsPermitted (names_in v)
    clean_value (str_value t) b h = ((b, tt), tt)
    clean_value (other_value n) b h = (tt, tt)
    clean_value (dict_value es) b h = clean_entries [] es h
    clean_value (list_value l) b h = clean_items l h
    clean_value (tuple_value l) b h = clean_items l h

    clean_entries :
        (reserved : List Text) (es : Entries)
        → find_in_entries lower reserved es ≡ none
        → All IsUnmarked (texts_in_entries es) × All IsPermitted (names_in_entries es)
    clean_entries reserved no_entries h = (tt, tt)
    clean_entries reserved (entry_of k v es) h =
        let a : is_forbidden lower k ≡ false = ground arith in
        let b : contains_secret_marker v ≡ false = ground arith in
        let both : or_else (find_secret_violation lower [] v) (find_in_entries lower reserved es)
            ≡ none =
          ground arith in
        let (c, d) = or_else-none _ _ both in
        let (texts, names) = clean_value v b c in
        let (more_texts, more_names) = clean_entries reserved es d in
        (
          All-append IsUnmarked (texts_in v) (texts_in_entries es) texts more_texts,
          All-append IsPermitted (name_of k) (names_in v ++ names_in_entries es)
              (name_of-IsPermitted k a)
              (All-append IsPermitted (names_in v) (names_in_entries es) names more_names),
        )

    clean_items :
        (l : Items)
        → find_in_items lower l ≡ none
        → All IsUnmarked (texts_in_items l) × All IsPermitted (names_in_items l)
    clean_items no_items h = (tt, tt)
    clean_items (item_of v l) h =
        let b : contains_secret_marker v ≡ false = ground arith in
        let both : or_else (find_secret_violation lower [] v) (find_in_items lower l) ≡ none =
          ground arith in
        let (c, d) = or_else-none _ _ both in
        let (texts, names) = clean_value v b c in
        let (more_texts, more_names) = clean_items l d in
        (
          All-append IsUnmarked (texts_in v) (texts_in_items l) texts more_texts,
          All-append IsPermitted (names_in v) (names_in_items l) names more_names,
        )

  own_names-IsNone :
      (reserved : List Text) (es : Entries)
      → find_in_entries lower reserved es ≡ none
      → All (IsNone reserved) (own_names es)
  unfolding own_names find_in_entries
  own_names-IsNone reserved no_entries h = tt
  own_names-IsNone reserved (entry_of k v es) h =
      let a : is_reserved reserved k ≡ false = ground arith in
      let both : or_else (find_secret_violation lower [] v) (find_in_entries lower reserved es)
          ≡ none =
        ground arith in
      let (c, d) = or_else-none _ _ both in
      All-append (IsNone reserved) (name_of k) (own_names es) (own k a)
        (own_names-IsNone reserved es d)
    where
      own : (k : Key) → is_reserved reserved k ≡ false → All (IsNone reserved) (name_of k)
      own (str_key k) h = (not_member k reserved h, tt)
      own (other_key n) h = tt

  -- A dictionary in which no violation is found holds no secret.
  pub find_secret_violation-IsClean :
      (reserved : List Text) (es : Entries)
      → find_secret_violation lower reserved (dict_value es) ≡ none
      → IsClean lower reserved es
  unfolding find_secret_violation is_forbidden_key
  find_secret_violation-IsClean reserved es h =
      let (texts, names) = clean_entries reserved es h in
      record {
        no_marker =
            All-weaken IsUnmarked (HoldsNone content_triggers) unmarked (texts_in_entries es) texts;
        no_forbidden_name =
            All-weaken IsPermitted (λ k. IsNone forbidden_keys (lower k))
              (λ k p. not_member (lower k) forbidden_keys p) (names_in_entries es) names;
        no_reserved_name = own_names-IsNone reserved es h;
      }
