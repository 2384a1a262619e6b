-- ===== src/Security/Policy/Accepted.antt =====
-- security/password_policy.py: what an accepted passphrase is.
use gpg_meister.Base.{
  All, All-of_any, Bool, Bool-cases, Has, Has-of_any, IsNone, IsNone-of_any, [], any, any-of_All,
  any-of_Has, any-of_IsNone, arith, false, inl, inr, leb, not, ok, raise_if, refl, true,
  value_error, within, ℕ, ◌&&◌, ◌+◌, ◌>>=◌, ◌||◌, ◌↔◌, ◌∷◌, ◌≡◌, ◌≤◌, ◌⊎◌,
}
use gpg_meister.Python.{Text}
use gpg_meister.Security.Policy.{
  Unicode, assess, assess_length, assess_normalised, character_classes, common_passwords,
  encoded_length, is_common, min_passphrase_bytes, min_password_bytes, one_if, reason_or_default,
  require_acceptable, utf8_length, word_count,
}
use gpg_meister.Security.Policy.Counting.{Words, Words-words_from, words_from-Words}

-- the two ways to be accepted, as tests of the normalised text
abbrev is_passphrase : Unicode → Text → Bool
is_passphrase u t =
    any u.is_blank t && leb 4 (word_count u t) && leb min_passphrase_bytes (utf8_length t)

abbrev is_password : Unicode → Text → Bool
is_password u t = leb min_password_bytes (utf8_length t) && leb 3 (character_classes u t)

-- What the code asks for.
abbrev meets_policy : Unicode → Text → Bool
meets_policy u t =
    not (any (within 0xd800 0xdfff) t)
    && not (is_common u t)
    && (is_passphrase u t || is_password u t)

of_normalised :
    (u : Unicode) (t : Text)
    → (assess_normalised u t >>= λ a.
          raise_if (not a.accepted) (value_error (reason_or_default a.reason)))
        ≡ ok tt
      ↔ meets_policy u t ≡ true
unfolding assess_normalised assess_length encoded_length utf8_length
of_normalised u [] = (λ h. absurd (ground arith), λ h. absurd (ground arith))
of_normalised u (c ∷ t) = (λ h. ground arith, λ h. ground arith)

-- A passphrase: white space, at least four words, and at least 12 bytes.
pub record IsPassphrase (u : Unicode) (t : Text) : Type 0 where
  pub blank : Has u.is_blank t
  pub words : (n : ℕ) × Words u.is_word t n × (4 ≤ n)
  pub size : 12 ≤ utf8_length t

abbrev pub is_symbol : Unicode → ℕ → Bool
is_symbol u c = not (u.is_alnum c)

-- Characters of at least three of the four classes.
abbrev pub HasThreeClasses : Unicode → Text → Type 0
HasThreeClasses u t =
    (Has u.is_upper t × Has u.is_digit t × Has (is_symbol u) t)
    ⊎ (Has u.is_lower t × Has u.is_digit t × Has (is_symbol u) t)
    ⊎ (Has u.is_lower t × Has u.is_upper t × Has (is_symbol u) t)
    ⊎ (Has u.is_lower t × Has u.is_upper t × Has u.is_digit t)

-- A password: at least 16 bytes of at least three classes.
pub record IsPassword (u : Unicode) (t : Text) : Type 0 where
  pub size : 16 ≤ utf8_length t
  pub classes : HasThreeClasses u t

-- What the policy asks of a normalised text: it has no surrogate, in lower case it is no common
-- password, and it is a passphrase or a password.
pub record IsAcceptable (u : Unicode) (t : Text) : Type 0 where
  pub encodes : All (λ c. ¬ ((0xd800 ≤ c) × (c ≤ 0xdfff))) t
  pub uncommon : IsNone common_passwords (u.lower t)
  pub strong : IsPassphrase u t ⊎ IsPassword u t

three_of :
    (a b c d : Bool)
    → leb 3 (one_if a + one_if b + one_if c + one_if d) ≡ true
    → ((b ≡ true) × (c ≡ true) × (d ≡ true))
      ⊎ ((a ≡ true) × (c ≡ true) × (d ≡ true))
      ⊎ ((a ≡ true) × (b ≡ true) × (d ≡ true))
      ⊎ ((a ≡ true) × (b ≡ true) × (c ≡ true))
three_of false true true true h = inl (refl, refl, refl)
three_of true false true true h = inr (inl (refl, refl, refl))
three_of true true false true h = inr (inr (inl (refl, refl, refl)))
three_of true true true d h = inr (inr (inr (refl, refl, refl)))
three_of a b c d h = absurd (ground arith)

three_of_conv :
    (a b c d : Bool)
    → ((b ≡ true) × (c ≡ true) × (d ≡ true))
      ⊎ ((a ≡ true) × (c ≡ true) × (d ≡ true))
      ⊎ ((a ≡ true) × (b ≡ true) × (d ≡ true))
      ⊎ ((a ≡ true) × (b ≡ true) × (c ≡ true))
    → leb 3 (one_if a + one_if b + one_if c + one_if d) ≡ true
three_of_conv true true true d h = ground arith
three_of_conv true true false true h = refl
three_of_conv true false true true h = refl
three_of_conv false true true true h = refl
three_of_conv a b c d h = absurd (ground arith)

module _ (u : Unicode) (t : Text) where
  is_password-IsPassword : is_password u t ≡ true ↔ IsPassword u t
  unfolding character_classes
  is_password-IsPassword = (
    λ h.
        let three =
          three_of (any u.is_lower t) (any u.is_upper t) (any u.is_digit t) (any (is_symbol u) t)
            (ground arith) in
        record { size = ground arith; classes = classes_of three },
    λ p.
        let three =
          three_of_conv (any u.is_lower t) (any u.is_upper t) (any u.is_digit t)
            (any (is_symbol u) t) (tests_of (p.classes)) in
        let size = p.size in rw three (ground arith),
  )
    where
      has : (p : ℕ → Bool) → any p t ≡ true → Has p t
      has p h = Has-of_any p t h

      test : (p : ℕ → Bool) → Has p t → any p t ≡ true
      test p h = any-of_Has p t h

      classes_of :
          ((any u.is_upper t ≡ true) × (any u.is_digit t ≡ true) × (any (is_symbol u) t ≡ true))
            ⊎ ((any u.is_lower t ≡ true) × (any u.is_digit t ≡ true) × (any (is_symbol u) t ≡ true))
            ⊎ ((any u.is_lower t ≡ true) × (any u.is_upper t ≡ true) × (any (is_symbol u) t ≡ true))
            ⊎ ((any u.is_lower t ≡ true) × (any u.is_upper t ≡ true) × (any u.is_digit t ≡ true))
          → HasThreeClasses u t
      classes_of (inl (a, b, c)) = inl (has _ a, has _ b, has _ c)
      classes_of (inr (inl (a, b, c))) = inr (inl (has _ a, has _ b, has _ c))
      classes_of (inr (inr (inl (a, b, c)))) = inr (inr (inl (has _ a, has _ b, has _ c)))
      classes_of (inr (inr (inr (a, b, c)))) = inr (inr (inr (has _ a, has _ b, has _ c)))

      tests_of :
          HasThreeClasses u t
          → ((any u.is_upper t ≡ true) × (any u.is_digit t ≡ true) × (any (is_symbol u) t ≡ true))
            ⊎ ((any u.is_lower t ≡ true) × (any u.is_digit t ≡ true) × (any (is_symbol u) t ≡ true))
            ⊎ ((any u.is_lower t ≡ true) × (any u.is_upper t ≡ true) × (any (is_symbol u) t ≡ true))
            ⊎ ((any u.is_lower t ≡ true) × (any u.is_upper t ≡ true) × (any u.is_digit t ≡ true))
      tests_of (inl (a, b, c)) = inl (test _ a, test _ b, test _ c)
      tests_of (inr (inl (a, b, c))) = inr (inl (test _ a, test _ b, test _ c))
      tests_of (inr (inr (inl (a, b, c)))) = inr (inr (inl (test _ a, test _ b, test _ c)))
      tests_of (inr (inr (inr (a, b, c)))) = inr (inr (inr (test _ a, test _ b, test _ c)))

  is_passphrase-IsPassphrase : is_passphrase u t ≡ true ↔ IsPassphrase u t
  unfolding word_count
  is_passphrase-IsPassphrase = (
    λ h. record {
      blank = Has-of_any u.is_blank t (ground arith);
      words = (word_count u t, Words-words_from u.is_word t, ground arith);
      size = ground arith;
    },
    λ p.
        let blank = any-of_Has u.is_blank t (p.blank) in
        let (n, cut, four) = p.words in
        let counted = words_from-Words u.is_word cut in
        let size = p.size in rw blank (ground arith),
  )

split_policy :
    (s c p q : Bool)
    → (not s && not c && (p || q)) ≡ true
    → (s ≡ false) × (c ≡ false) × ((p ≡ true) ⊎ (q ≡ true))
split_policy false false true q h = (refl, refl, inl refl)
split_policy false false false true h = (refl, refl, inr refl)
split_policy s c p q h = absurd (ground arith)

meets_policy-IsAcceptable : (u : Unicode) (t : Text) → meets_policy u t ≡ true ↔ IsAcceptable u t
unfolding is_common
meets_policy-IsAcceptable u t = (to, from)
  where
    either :
        (is_passphrase u t ≡ true) ⊎ (is_password u t ≡ true) → IsPassphrase u t ⊎ IsPassword u t
    either (inl a) = inl ((is_passphrase-IsPassphrase u t).0 a)
    either (inr a) = inr ((is_password-IsPassword u t).0 a)

    to : meets_policy u t ≡ true → IsAcceptable u t
    to h =
        let (a, b, c) =
          split_policy (any (within 0xd800 0xdfff) t) (is_common u t) (is_passphrase u t)
            (is_password u t) h in
        record {
          encodes =
              All-of_any (within 0xd800 0xdfff) (λ c. ¬ ((0xd800 ≤ c) × (c ≤ 0xdfff)))
                (λ c outside k. absurd (ground arith)) t a;
          uncommon = IsNone-of_any common_passwords (u.lower t) b;
          strong = either c;
        }

    strong_enough :
        IsPassphrase u t ⊎ IsPassword u t → (is_passphrase u t || is_password u t) ≡ true
    strong_enough (inl p) = let a = (is_passphrase-IsPassphrase u t).1 p in rw a refl
    strong_enough (inr p) =
        let a = (is_password-IsPassword u t).1 p in
        elim (Bool-cases (is_passphrase u t)) [ inl e ↦ rw e refl | inr e ↦ rw (e, a) refl ]

    outside : (c : ℕ) → ¬ ((0xd800 ≤ c) × (c ≤ 0xdfff)) → within 0xd800 0xdfff c ≡ false
    outside c h = elim (Bool-cases (within 0xd800 0xdfff c)) [
      | inl e ↦ absurd (h (ground arith, ground arith))
      | inr e ↦ e
    ]

    from : IsAcceptable u t → meets_policy u t ≡ true
    from h =
        let a =
          any-of_All (within 0xd800 0xdfff) (λ c. ¬ ((0xd800 ≤ c) × (c ≤ 0xdfff))) outside t
            (h.encodes) in
        let b : is_common u t ≡ false = any-of_IsNone common_passwords (u.lower t) (h.uncommon) in
        let c = strong_enough (h.strong) in rw (a, b, c) refl

-- Requiring a passphrase raises nothing exactly if its normal form has no surrogate, is in lower
-- case none of the common passwords, and is a passphrase or a password: it has white space, can
-- be cut into four words or more, and has 12 bytes of UTF-8, or it has 16 bytes and characters of
-- three of the four classes.
pub require_acceptable_lem :
    (u : Unicode) (pw : Text)
    → require_acceptable u pw ≡ ok tt ↔ IsAcceptable u (u.normalise_nfkc pw)
unfolding require_acceptable assess
require_acceptable_lem u pw =
    let code = of_normalised u (u.normalise_nfkc pw) in
    let spec = meets_policy-IsAcceptable u (u.normalise_nfkc pw) in
    (λ h. spec.0 (code.0 h), λ k. code.1 (spec.1 k))
