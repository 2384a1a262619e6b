-- ===== src/Python/Base64/RoundTrip.antt =====
-- Decoding what was encoded gives the bytes back.
use gpg_meister.Base.{
  List, [], arith, false, refl, some, ℕ, ◌%◌, ◌*◌, ◌+◌, ◌/◌, ◌<◌, ◌==◌, ◌∷◌, ◌≡◌,
}
use gpg_meister.Python.{IsBytes}
use gpg_meister.Python.Base64.Digits.{b64_digit, b64_value, b64decode, b64encode}

pub b64_value-b64_digit : (x : ℕ) → x < 64 → b64_value (b64_digit x) ≡ some x
unfolding b64_value b64_digit
b64_value-b64_digit x h = ground arith

-- No digit is the padding character.
pub b64_digit-ne-pad : (x : ℕ) → x < 64 → (b64_digit x == 61) ≡ false
unfolding b64_digit
b64_digit-ne-pad x h = ground arith

-- `b64decode(b64encode(b), validate=True) == b`
pub b64decode-b64encode : (bs : List ℕ) → IsBytes bs → b64decode (b64encode bs) ≡ some bs
unfolding b64encode b64decode
b64decode-b64encode [] h = refl
b64decode-b64encode (a ∷ []) h =
    ground (arith, b64_value-b64_digit (a / 4), b64_value-b64_digit (a % 4 * 16))
b64decode-b64encode (a ∷ b ∷ []) h = ground (
  arith,
  b64_digit-ne-pad (b % 16 * 4),
  b64_value-b64_digit (a / 4),
  b64_value-b64_digit (a % 4 * 16 + b / 16),
  b64_value-b64_digit (b % 16 * 4),
)
b64decode-b64encode (a ∷ b ∷ c ∷ r) h = ground (
  arith,
  b64_digit-ne-pad (c % 64),
  b64_value-b64_digit (a / 4),
  b64_value-b64_digit (a % 4 * 16 + b / 16),
  b64_value-b64_digit (b % 16 * 4 + c / 64),
  b64_value-b64_digit (c % 64),
  b64decode-b64encode r,
)
