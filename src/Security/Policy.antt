-- ===== src/Security/Policy.antt =====
-- security/password_policy.py: the assessment of a master passphrase.
pub mod Counting
pub mod Accepted
use gpg_meister.Base.{
  Bool, List, Option, Result, String, [], any, false, if◌then◌else◌, leb, ltb, none, not, ok,
  raise_if, same, some, true, value_error, within, ℕ, ◌&&◌, ◌+◌, ◌>>=◌, ◌>>◌, ◌∷◌,
}
use gpg_meister.Python.{Text}
use gpg_meister.Python.Text.{codes}

-- What is used of Unicode: `unicodedata.normalize("NFKC", s)`, `str.lower`, the tests on a
-- character, and the characters that `\w` matches.
pub record Unicode : Type 0 where
  pub normalise_nfkc : Text → Text
  pub lower : Text → Text
  pub is_lower : ℕ → Bool
  pub is_upper : ℕ → Bool
  pub is_digit : ℕ → Bool
  pub is_alnum : ℕ → Bool
  pub is_blank : ℕ → Bool
  pub is_word : ℕ → Bool

abbrev pub common_passwords : List Text
common_passwords =
    codes "password"
    ∷ codes "passw0rd"
    ∷ codes "passwort"
    ∷ codes "123456"
    ∷ codes "12345678"
    ∷ codes "qwerty"
    ∷ codes "qwertz"
    ∷ codes "letmein"
    ∷ codes "iloveyou"
    ∷ codes "admin"
    ∷ codes "welcome"
    ∷ codes "monkey"
    ∷ codes "dragon"
    ∷ codes "baseball"
    ∷ codes "football"
    ∷ codes "test1234"
    ∷ codes "abc123"
    ∷ codes "p@ssw0rd"
    ∷ codes "changeme"
    ∷ codes "secret"
    ∷ codes "master"
    ∷ codes "sunshine"
    ∷ codes "princess"
    ∷ codes "azerty"
    ∷ codes "hunter2"
    ∷ []

abbrev pub min_passphrase_bytes : ℕ
min_passphrase_bytes = 12

abbrev pub min_password_bytes : ℕ
min_password_bytes = 16

pub data PasswordStrength : Type 0 where
  rejected weak acceptable strong : PasswordStrength

pub record PasswordAssessment : Type 0 where
  pub strength : PasswordStrength
  pub accepted : Bool
  pub reason : Option String

-- the length of a code point in UTF-8
abbrev utf8_width : ℕ → ℕ
utf8_width c = if ltb c 0x80 then 1 else if ltb c 0x800 then 2 else if ltb c 0x10000 then 3 else 4

unfoldable pub utf8_length : Text → ℕ
utf8_length [] = 0
utf8_length (c ∷ t) = utf8_width c + utf8_length t

-- `len(s.encode("utf-8"))`; a surrogate does not encode
unfoldable pub encoded_length : Text → Result ℕ
encoded_length t = do
  raise_if (any (within 0xd800 0xdfff) t) (value_error "surrogates not allowed")
  ok (utf8_length t)

-- the matches of `\b\w+\b` from a place on, `inside` of a word or not: each maximal run of word
-- characters is one match
unfoldable pub words_from : (ℕ → Bool) → Bool → Text → ℕ
words_from is_word inside [] = 0
words_from is_word inside (c ∷ t) =
    let rest = words_from is_word (is_word c) t in
    if is_word c && not inside then 1 + rest else rest

-- `_word_count(value)`
unfoldable pub word_count : Unicode → Text → ℕ
word_count u t = words_from u.is_word false t

abbrev pub one_if : Bool → ℕ
one_if true = 1
one_if false = 0

-- `_character_classes(value)`
unfoldable pub character_classes : Unicode → Text → ℕ
character_classes u t =
    one_if (any u.is_lower t)
    + one_if (any u.is_upper t)
    + one_if (any u.is_digit t)
    + one_if (any (λ c. not (u.is_alnum c)) t)

unfoldable pub is_common : Unicode → Text → Bool
is_common u t = any (λ w. same w (u.lower t)) common_passwords

abbrev rejected_for : String → PasswordAssessment
rejected_for m = record { strength = rejected; accepted = false; reason = some m }

abbrev accepted_as : PasswordStrength → PasswordAssessment
accepted_as s = record { strength = s; accepted = true; reason = none }

-- what follows the computing of the encoded length
unfoldable pub assess_length : Unicode → Text → ℕ → PasswordAssessment
assess_length u t n =
    if is_common u t
    then rejected_for "passphrase appears in a list of common passwords"
    else if any u.is_blank t && leb 4 (word_count u t) && leb min_passphrase_bytes n
    then accepted_as (if leb 24 n then strong else acceptable)
    else if leb min_password_bytes n && leb 3 (character_classes u t)
    then accepted_as (if leb 20 n then strong else acceptable)
    else if ltb n min_passphrase_bytes
    then rejected_for "too short — use at least 4 unrelated words or 16 mixed characters"
    else record {
      strength = weak;
      accepted = false;
      reason = some "too easy to guess — use more words or add mixed character types";
    }

-- `assess(passphrase)`, on the normalised text
unfoldable pub assess_normalised : Unicode → Text → Result PasswordAssessment
assess_normalised u [] = ok (rejected_for "passphrase is empty")
assess_normalised u (c ∷ t) = do n ← encoded_length (c ∷ t); ok (assess_length u (c ∷ t) n)

unfoldable pub assess : Unicode → Text → Result PasswordAssessment
assess u pw = assess_normalised u (u.normalise_nfkc pw)

-- `result.reason or "passphrase policy violation"`
abbrev pub reason_or_default : Option String → String
reason_or_default none = "passphrase policy violation"
reason_or_default (some m) = m

-- `require_acceptable(passphrase)`
unfoldable pub require_acceptable : Unicode → Text → Result (Unit {0})
require_acceptable u pw = do
  a ← assess u pw
  raise_if (not a.accepted) (value_error (reason_or_default a.reason))
