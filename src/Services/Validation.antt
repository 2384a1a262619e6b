-- ===== src/Services/Validation.antt =====
-- services/validation.py: the checks of what is passed to GnuPG. A regular expression is a test by
-- clauses; its `$` also matches in front of a newline that ends the text, as in Python.
pub mod Fingerprint
pub mod Argv
pub mod Newline
use gpg_meister.Audit.Secrets.{occurs_in}
use gpg_meister.Base.{
  Bool, List, Option, Result, [], all, contains, drop, err, false, gpg_validation_error,
  if◌then◌else◌, is_empty, leb, length, none, not, ok, raise_if, reverse, same, some, suc, take,
  true, within, zero, ℕ, ◌&&◌, ◌==◌, ◌>>=◌, ◌>>◌, ◌||◌, ◌∷◌,
}
use gpg_meister.Model.Fields.{fingerprint_length}
use gpg_meister.Python.{Bytes, Text}
use gpg_meister.Python.Decimal.{is_decimal_digit}
use gpg_meister.Python.Lines.{newline}
use gpg_meister.Python.Text.{codes, is_upper_hex, upper}

pub data KeyAlgorithm : Type 0 where
  rsa dsa ecdsa eddsa ecdh unknown : KeyAlgorithm

-- `$`
abbrev pub at_end : Text → Bool
at_end [] = true
at_end (c ∷ []) = c == newline
at_end (c ∷ d ∷ t) = false

abbrev pub is_letter : ℕ → Bool
is_letter c = within 65 90 c || within 97 122 c

abbrev pub is_ascii_alnum : ℕ → Bool
is_ascii_alnum c = is_letter c || is_decimal_digit c

-- `_FINGERPRINT_RE`
unfoldable pub matches_fingerprint : Text → Bool
matches_fingerprint t =
    leb fingerprint_length (length t)
    && all is_upper_hex (take fingerprint_length t)
    && at_end (drop fingerprint_length t)

-- `validate_fingerprint(fingerprint)`
unfoldable pub validate_fingerprint : Text → Result Text
validate_fingerprint fingerprint =
    let up = upper fingerprint in
    if not (length up == fingerprint_length) || not (matches_fingerprint up)
    then err (gpg_validation_error "fingerprint must be 40 uppercase hex characters")
    else ok up

-- the pieces between the separators
abbrev pub onto_piece : ℕ → List Text → List Text
onto_piece c [] = (c ∷ []) ∷ []
onto_piece c (p ∷ pieces) = (c ∷ p) ∷ pieces

unfoldable pub pieces_of : ℕ → Text → List Text
pieces_of sep [] = [] ∷ []
pieces_of sep (c ∷ t) =
    let rest = pieces_of sep t in if c == sep then [] ∷ rest else onto_piece c rest

-- the last character and those of the middle
abbrev pub last_is_alnum : (ℕ → Bool) → Text → Bool
last_is_alnum middle [] = true
last_is_alnum middle (c ∷ []) = is_ascii_alnum c
last_is_alnum middle (c ∷ d ∷ t) = middle c && last_is_alnum middle (d ∷ t)

-- `[A-Za-z0-9](?:[...]{0,n}[A-Za-z0-9])?`, where `limit` is `n + 2`
abbrev pub is_part : ℕ → (ℕ → Bool) → Text → Bool
is_part limit middle [] = false
is_part limit middle (c ∷ t) =
    is_ascii_alnum c && last_is_alnum middle t && leb (length (c ∷ t)) limit

abbrev pub is_local_char : ℕ → Bool
is_local_char c = is_ascii_alnum c || contains c (codes "._%+-")

abbrev pub is_label_char : ℕ → Bool
is_label_char c = is_ascii_alnum c || c == b'-'

abbrev pub one_more : Option ℕ → Option ℕ
one_more none = none
one_more (some n) = some (suc n)

-- the length of the last label, which is letters alone in front of the end
unfoldable pub tld_length : Text → Option ℕ
tld_length [] = some 0
tld_length (c ∷ t) =
    let rest = tld_length t in
    if is_letter c then one_more rest else if at_end (c ∷ t) then some 0 else none

abbrev pub is_tld_length : Option ℕ → Bool
is_tld_length none = false
is_tld_length (some n) = within 2 63 n

-- the labels behind the `@`: one at least, and the last is the top-level domain
abbrev pub is_domain : List Text → Bool
is_domain [] = false
is_domain (tld ∷ []) = is_tld_length (tld_length tld)
is_domain (label ∷ more ∷ labels) = is_part 63 is_label_char label && is_domain (more ∷ labels)

abbrev pub is_dotted : List Text → Bool
is_dotted [] = false
is_dotted (tld ∷ []) = false
is_dotted (label ∷ more ∷ labels) = is_domain (label ∷ more ∷ labels)

abbrev pub is_address : List Text → Bool
is_address [] = false
is_address (local ∷ []) = false
is_address (local ∷ domain ∷ []) =
    is_part 64 is_local_char local && is_dotted (pieces_of b'.' domain)
is_address (local ∷ domain ∷ more ∷ pieces) = false

-- `_EMAIL_RE`
unfoldable pub matches_email : Text → Bool
matches_email t = is_address (pieces_of b'@' t)

-- `validate_email(email)`
unfoldable pub validate_email : Text → Result Text
validate_email email =
    if not (matches_email email)
    then err (gpg_validation_error "invalid email address")
    else ok email

-- `str.isspace`
abbrev pub is_unicode_space : ℕ → Bool
is_unicode_space c =
    within 9 13 c
    || within 28 32 c
    || within 8192 8202 c
    || contains c (133 ∷ 160 ∷ 5760 ∷ 8232 ∷ 8233 ∷ 8239 ∷ 8287 ∷ 12288 ∷ [])

unfoldable pub strip_left : Text → Text
strip_left [] = []
strip_left (c ∷ t) = let rest = strip_left t in if is_unicode_space c then rest else c ∷ t

-- `str.strip`
unfoldable pub strip_text : Text → Text
unfolding strip_left
strip_text t = reverse (strip_left (reverse (strip_left t)))

abbrev pub is_name_char : ℕ → Bool
is_name_char c = is_ascii_alnum c || contains c (codes " ._-")

-- what follows the first character of a name: allowed characters, and the end
abbrev pub is_name_rest : ℕ → Text → Bool
is_name_rest zero t = at_end t
is_name_rest (suc n) [] = true
is_name_rest (suc n) (c ∷ t) = if is_name_char c then is_name_rest n t else at_end (c ∷ t)

-- `_USER_NAME_RE`
unfoldable pub matches_user_name : Text → Bool
matches_user_name [] = false
matches_user_name (c ∷ t) = is_ascii_alnum c && is_name_rest 63 t

-- `validate_user_name(name)`
unfoldable pub validate_user_name : Text → Result Text
validate_user_name name = do
  let stripped = strip_text name
  raise_if (is_empty stripped) (gpg_validation_error "user name must not be empty")
  raise_if (not (matches_user_name stripped) || occurs_in (codes "--") stripped)
      (gpg_validation_error "user name must contain only ASCII characters of the allow-list")
  ok stripped

-- `_ALLOWED_KEY_LENGTHS`
abbrev pub allowed_key_lengths : KeyAlgorithm → Option (List ℕ)
allowed_key_lengths rsa = some (2048 ∷ 3072 ∷ 4096 ∷ [])
allowed_key_lengths dsa = none
allowed_key_lengths ecdsa = some (256 ∷ 384 ∷ 521 ∷ [])
allowed_key_lengths eddsa = some (255 ∷ [])
allowed_key_lengths ecdh = some (255 ∷ [])
allowed_key_lengths unknown = none

abbrev pub check_length : Option (List ℕ) → ℕ → Result (Unit {0})
check_length none length_given = err (gpg_validation_error "unsupported algorithm")
check_length (some allowed) length_given =
    raise_if (not (contains length_given allowed)) (gpg_validation_error "length not allowed")

-- `validate_key_algorithm_and_length(algorithm, length)`
unfoldable pub validate_key_algorithm_and_length : KeyAlgorithm → ℕ → Result (Unit {0})
validate_key_algorithm_and_length algorithm n = check_length (allowed_key_lengths algorithm) n

-- digits, a unit and the end
unfoldable pub is_offset_rest : Text → Bool
is_offset_rest [] = false
is_offset_rest (c ∷ t) =
    let rest = is_offset_rest t in
    if is_decimal_digit c then rest else contains c (codes "ymwd") && at_end t

-- `_EXPIRY_OFFSET_RE`
unfoldable pub matches_expiry_offset : Text → Bool
matches_expiry_offset [] = false
matches_expiry_offset (c ∷ t) = within 49 57 c && is_offset_rest t

-- `validate_expiry(value)`, where `is_iso_date` is whether `date.fromisoformat` takes the value
unfoldable pub validate_expiry : (Text → Bool) → Text → Result Text
validate_expiry is_iso_date value =
    if same value (codes "0")
    then ok value
    else if matches_expiry_offset value
    then ok value
    else if is_iso_date value
    then ok value
    else err (gpg_validation_error "expiry must be ISO 8601 date or offset like '2y'/'30d'")

-- `reject_passphrase_in_argv(argv, passphrase)`, where `encode` is the UTF-8 encoding that leaves
-- out what it cannot encode
unfoldable pub reject_in_items : (Text → Bytes) → List Text → Bytes → Result (Unit {0})
reject_in_items encode [] needle = ok tt
reject_in_items encode (item ∷ argv) needle = do
  raise_if (occurs_in needle (encode item))
      (gpg_validation_error "passphrase bytes appeared in subprocess argv - refusing to call GPG")
  reject_in_items encode argv needle

unfoldable pub reject_passphrase_in_argv : (Text → Bytes) → List Text → Bytes → Result (Unit {0})
reject_passphrase_in_argv encode argv needle =
    if is_empty needle then ok tt else reject_in_items encode argv needle
