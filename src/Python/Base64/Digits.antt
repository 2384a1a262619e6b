-- ===== src/Python/Base64/Digits.antt =====
-- The alphabet, and the two directions in groups of three bytes and four characters.
use gpg_meister.Base.Options.{◌>>=◌}
use gpg_meister.Base.{
  List, Option, [], if◌then◌else◌, is_empty, ltb, none, some, within, ℕ, ◌%◌, ◌*◌, ◌+◌, ◌-◌, ◌/◌,
  ◌==◌, ◌∷◌,
}

-- A-Z a-z 0-9 + /
unfoldable pub b64_digit : ℕ → ℕ
b64_digit x =
    if ltb x 26
    then x + 65
    else if ltb x 52
    then x + 71
    else if ltb x 62
    then x - 4
    else if x == 62
    then 43
    else 47

unfoldable pub b64_value : ℕ → Option ℕ
b64_value c =
    if within 65 90 c
    then some (c - 65)
    else if within 97 122 c
    then some (c - 71)
    else if within 48 57 c
    then some (c + 4)
    else if c == 43
    then some 62
    else if c == 47
    then some 63
    else none

unfoldable pub b64encode : List ℕ → List ℕ
unfolding b64_digit
b64encode [] = []
b64encode (a ∷ []) = b64_digit (a / 4) ∷ b64_digit (a % 4 * 16) ∷ 61 ∷ 61 ∷ []
b64encode (a ∷ b ∷ []) =
    b64_digit (a / 4) ∷ b64_digit (a % 4 * 16 + b / 16) ∷ b64_digit (b % 16 * 4) ∷ 61 ∷ []
b64encode (a ∷ b ∷ c ∷ r) =
    b64_digit (a / 4)
    ∷ b64_digit (a % 4 * 16 + b / 16)
    ∷ b64_digit (b % 16 * 4 + c / 64)
    ∷ b64_digit (c % 64)
    ∷ b64encode r

one_byte : ℕ → ℕ → Option (List ℕ)
unfolding b64_value
one_byte w x = do p ← b64_value w; q ← b64_value x; some ((p * 4 + q / 16) ∷ [])

two_bytes : ℕ → ℕ → ℕ → Option (List ℕ)
unfolding b64_value
two_bytes w x y = do
  p ← b64_value w
  q ← b64_value x
  r ← b64_value y
  some ((p * 4 + q / 16) ∷ (q % 16 * 16 + r / 4) ∷ [])

three_bytes : ℕ → ℕ → ℕ → ℕ → Option (List ℕ) → Option (List ℕ)
unfolding b64_value
three_bytes w x y z rest = do
  p ← b64_value w
  q ← b64_value x
  r ← b64_value y
  s ← b64_value z
  t ← rest
  some ((p * 4 + q / 16) ∷ (q % 16 * 16 + r / 4) ∷ (r % 4 * 64 + s) ∷ t)

-- `none` is the `ValueError` of the strict mode: a character outside of the alphabet, padding that
-- is not at the end, or a length that is no multiple of four.
unfoldable pub b64decode : List ℕ → Option (List ℕ)
unfolding one_byte two_bytes three_bytes
b64decode [] = some []
b64decode (w ∷ x ∷ y ∷ z ∷ rest) =
    if z == 61
    then (if is_empty rest then (if y == 61 then one_byte w x else two_bytes w x y) else none)
    else three_bytes w x y z (b64decode rest)
b64decode _ = none
