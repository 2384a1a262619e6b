-- ===== src/Services/Validation/Newline.antt =====
-- services/validation.py: a newline at the end of an accepted text.
use gpg_meister.Base.{
  Bool, Bool-cases, [], all, arith, contains, false, if◌then◌else◌, inl, inr, not, ok, refl, same,
  true, within, ◌&&◌, ◌++◌, ◌==◌, ◌∷◌, ◌≡◌,
}
use gpg_meister.Python.{Text}
use gpg_meister.Python.Decimal.{is_decimal_digit}
use gpg_meister.Python.Lines.{IsOneLine, newline}
use gpg_meister.Python.Text.{codes}
use gpg_meister.Services.Validation.{at_end, is_offset_rest, matches_expiry_offset, validate_expiry}

at_end-newline : (t : Text) → IsOneLine t → at_end t ≡ true → at_end (t ++ newline ∷ []) ≡ true
at_end-newline [] one_line h = refl
at_end-newline (c ∷ []) one_line h = absurd (ground (arith, one_line, h))
at_end-newline (c ∷ d ∷ t) one_line h = absurd (cc h)

else_branch : (b x y : Bool) → b ≡ false → (if b then x else y) ≡ true → y ≡ true
else_branch true x y e h = absurd (cc e)
else_branch false x y e h = h

then_branch : (b x y : Bool) → b ≡ true → (if b then x else y) ≡ true → x ≡ true
then_branch true x y e h = h
then_branch false x y e h = absurd (cc e)

both_true : (a b : Bool) → (a && b) ≡ true → (a ≡ true) × (b ≡ true)
both_true true b h = (refl, h)
both_true false b h = absurd (cc h)

is_offset_rest-newline :
    (t : Text) → IsOneLine t → is_offset_rest t ≡ true → is_offset_rest (t ++ newline ∷ []) ≡ true
unfolding is_offset_rest
is_offset_rest-newline [] one_line h = absurd (cc h)
is_offset_rest-newline (c ∷ t) one_line h =
    let (no_newline, behind) =
      both_true (not (c == newline)) (all (λ b. not (b == newline)) t) one_line in
    elim (Bool-cases (is_decimal_digit c)) [
      | inl e ↦ rw e (is_offset_rest-newline t behind (then_branch (is_decimal_digit c) _ _ e h))
      | inr e ↦
          let (unit, ends) =
            both_true (contains c (codes "ymwd")) (at_end t)
              (else_branch (is_decimal_digit c) _ _ e h) in
          rw (e, unit) (at_end-newline t behind ends)
    ]

matches_expiry_offset-newline :
    (value : Text)
    → IsOneLine value
    → matches_expiry_offset value ≡ true
    → matches_expiry_offset (value ++ newline ∷ []) ≡ true
unfolding matches_expiry_offset
matches_expiry_offset-newline [] one_line h = absurd (cc h)
matches_expiry_offset-newline (c ∷ t) one_line h =
    let (no_newline, behind) =
      both_true (not (c == newline)) (all (λ b. not (b == newline)) t) one_line in
    let (digit, rest) = both_true (within 49 57 c) (is_offset_rest t) h in
    rw digit (is_offset_rest-newline t behind rest)

-- An offset that `validate_expiry` accepts is also accepted, and returned, with a newline behind it.
pub validate_expiry-newline :
    (is_iso_date : Text → Bool) (value : Text)
    → IsOneLine value
    → matches_expiry_offset value ≡ true
    → validate_expiry is_iso_date (value ++ newline ∷ []) ≡ ok (value ++ newline ∷ [])
unfolding validate_expiry
validate_expiry-newline is_iso_date value one_line h =
    elim (Bool-cases (same (value ++ newline ∷ []) (codes "0"))) [
      | inl e ↦ rw e refl
      | inr e ↦ rw (e, matches_expiry_offset-newline value one_line h) refl
    ]
