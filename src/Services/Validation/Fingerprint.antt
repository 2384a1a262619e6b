-- ===== src/Services/Validation/Fingerprint.antt =====
-- services/validation.py and models/key_info.py accept the same fingerprints.
use gpg_meister.Base.{
  ==→eq, Bool, Bool-cases, Error, [], all, arith, drop, drop-all, err, false, if◌then◌else◌, inl,
  inr, length, not, ok, refl, take_within, true, ◌&&◌, ◌==◌, ◌||◌, ◌↔◌, ◌≡◌,
}
use gpg_meister.Model.Fields.{fingerprint_length, normalise_fingerprint}
use gpg_meister.Python.{Text}
use gpg_meister.Python.Text.{is_upper_hex, upper}
use gpg_meister.Services.Validation.{matches_fingerprint, validate_fingerprint}

all-drop_nil : (t : Text) → length t ≡ fingerprint_length → drop fingerprint_length t ≡ []
all-drop_nil t h = drop-all fingerprint_length t (omega (arith, h))

matches_fingerprint-exact :
    (t : Text) → length t ≡ fingerprint_length → matches_fingerprint t ≡ all is_upper_hex t
unfolding matches_fingerprint
matches_fingerprint-exact t h =
    rw (all-drop_nil t h, take_within fingerprint_length t (omega (arith, h))) (ground (arith, h))

fingerprint_tests :
    (up : Text)
    → (not (length up == fingerprint_length) || not (matches_fingerprint up))
      ≡ not ((length up == fingerprint_length) && all is_upper_hex up)
fingerprint_tests up = elim (Bool-cases (length up == fingerprint_length)) [
  | inl e ↦ rw (e, matches_fingerprint-exact up (==→eq (length up) fingerprint_length e)) refl
  | inr e ↦ rw e refl
]

same_outcome :
    (b : Bool) (up fpr : Text) (e f : Error)
    → ((if not b then err e else ok up) ≡ ok fpr) ↔ ((if b then ok up else err f) ≡ ok fpr)
same_outcome true up fpr e f = (λ h. h, λ h. h)
same_outcome false up fpr e f = (λ h. absurd (cc h), λ h. absurd (cc h))

-- `validate_fingerprint` and `normalise_fingerprint` accept the same texts and return the same.
pub validate_fingerprint_lem :
    (value fpr : Text)
    → (validate_fingerprint value ≡ ok fpr) ↔ (normalise_fingerprint value ≡ ok fpr)
unfolding validate_fingerprint normalise_fingerprint
validate_fingerprint_lem value fpr = rw (fingerprint_tests (upper value)) (
    same_outcome ((length (upper value) == fingerprint_length) && all is_upper_hex (upper value))
      (upper value) fpr _ _)
