-- ===== src/Python/Hex.antt =====
-- `bytes.fromhex(s)` and `b.hex().upper()`.
use gpg_meister.Base.Options.{◌>>=◌}
use gpg_meister.Base.{
  Bool, Bool-cases, List, Option, [], all, arith, false, if◌then◌else◌, inl, inr, length, ltb, none,
  refl, some, suc, true, within, zero, ℕ, ◌%◌, ◌*◌, ◌+◌, ◌-◌, ◌/◌, ◌<◌, ◌==◌, ◌||◌, ◌∷◌, ◌≡◌,
}
use gpg_meister.Python.{IsBytes}
use gpg_meister.Python.Text.{is_upper_hex}

unfoldable pub hex_digit : ℕ → ℕ
hex_digit x = if ltb x 10 then x + 48 else x + 55

unfoldable pub hex_value : ℕ → Option ℕ
hex_value c =
    if within 48 57 c
    then some (c - 48)
    else if within 65 70 c
    then some (c - 55)
    else if within 97 102 c
    then some (c - 87)
    else none

-- ASCII white space, which `fromhex` skips between two bytes
abbrev is_space : ℕ → Bool
is_space c = c == 32 || within 9 13 c

hex_pair : ℕ → ℕ → Option (List ℕ) → Option (List ℕ)
unfolding hex_value
hex_pair c d rest = do hi ← hex_value c; lo ← hex_value d; bs ← rest; some ((hi * 16 + lo) ∷ bs)

-- `none` is the `ValueError` of a text that is not pairs of hex digits.
unfoldable pub fromhex : List ℕ → Option (List ℕ)
unfolding hex_pair
fromhex [] = some []
fromhex (c ∷ []) = if is_space c then some [] else none
fromhex (c ∷ d ∷ s) =
    let skipped = fromhex (d ∷ s) in
    let read = hex_pair c d (fromhex s) in if is_space c then skipped else read

-- The upper-case hex digits of the bytes.
unfoldable pub hex_upper : List ℕ → List ℕ
unfolding hex_digit
hex_upper [] = []
hex_upper (b ∷ bs) = hex_digit (b / 16) ∷ hex_digit (b % 16) ∷ hex_upper bs

hex_value-hex_digit : (x : ℕ) → x < 16 → hex_value (hex_digit x) ≡ some x
unfolding hex_value hex_digit
hex_value-hex_digit x h = ground arith

hex_digit-ne-space : (x : ℕ) → x < 16 → is_space (hex_digit x) ≡ false
unfolding hex_digit
hex_digit-ne-space x h = ground arith

-- `bytes.fromhex(b.hex().upper()) == b`
pub fromhex-hex_upper : (bs : List ℕ) → IsBytes bs → fromhex (hex_upper bs) ≡ some bs
unfolding fromhex hex_upper
fromhex-hex_upper [] h = refl
fromhex-hex_upper (b ∷ bs) h = ground (
  arith,
  hex_digit-ne-space (b / 16),
  hex_value-hex_digit (b / 16),
  hex_value-hex_digit (b % 16),
  fromhex-hex_upper bs,
)

hex_digit-hex_value :
    (c : ℕ)
    → is_upper_hex c ≡ true
    → (x : ℕ) × (hex_value c ≡ some x) × (x < 16) × (hex_digit x ≡ c) × (is_space c ≡ false)
unfolding hex_value hex_digit is_upper_hex
hex_digit-hex_value c h = elim (Bool-cases (within 48 57 c)) [
  | inl e ↦ (c - 48, ground arith, ground arith, ground arith, ground arith)
  | inr e ↦ (c - 55, ground arith, ground arith, ground arith, ground arith)
]

-- `b.hex().upper() == s` for `b = bytes.fromhex(s)`, if `s` is `2 * n` upper-case hex digits, and
-- `b` is `n` bytes.
pub hex_upper-fromhex :
    (n : ℕ) (s : List ℕ)
    → length s ≡ 2 * n
    → all is_upper_hex s ≡ true
    → (bs : List ℕ) × (fromhex s ≡ some bs) × (hex_upper bs ≡ s) × (length bs ≡ n) × IsBytes bs
unfolding fromhex hex_upper
hex_upper-fromhex n [] e h = ([], refl, refl, omega arith, tt)
hex_upper-fromhex n (c ∷ []) e h = absurd (omega arith)
hex_upper-fromhex zero (c ∷ d ∷ s) e h = absurd (omega arith)
hex_upper-fromhex (suc n) (c ∷ d ∷ s) e h =
    let (bs, read, back, len, bytes) = hex_upper-fromhex n s (omega arith) (ground arith) in
    let (x, ex, lx, dx, nx) = hex_digit-hex_value c (ground arith) in
    let (y, ey, ly, dy, ny) = hex_digit-hex_value d (ground arith) in
    let q : (x * 16 + y) / 16 ≡ x = omega arith in
    let r : (x * 16 + y) % 16 ≡ y = omega arith in
    ((x * 16 + y) ∷ bs, ground arith, rw (q, r) (ground arith), omega arith, ground arith)
