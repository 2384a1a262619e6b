-- ===== src/Python/Text.antt =====
-- `str.upper`, as far as the modelled code depends on it, and tests on characters.
use Prim.Native.Char.{code}
use Prim.Native.String.{String}
use gpg_meister.Base.{
  Bool, List, [], all, arith, if◌then◌else◌, refl, true, within, ℕ, ◌++◌, ◌-◌, ◌==◌, ◌||◌, ◌∷◌, ◌≡◌,
}

-- The code points of a text literal.
abbrev pub codes : String → List ℕ
codes String.[] = []
codes (String.◌∷◌ c s) = code c ∷ codes s

-- The upper case of one character. Beside a to z one character has an upper case made of hex
-- digits, the ligature U+FB00; the others are left as they are, and are no hex digits either way.
unfoldable pub upper_char : ℕ → List ℕ
upper_char c =
    if within 97 122 c then (c - 32) ∷ [] else if c == 0xFB00 then 70 ∷ 70 ∷ [] else c ∷ []

unfoldable pub upper : List ℕ → List ℕ
unfolding upper_char
upper [] = []
upper (c ∷ s) = upper_char c ++ upper s

-- `c in "0123456789ABCDEF"`
unfoldable pub is_upper_hex : ℕ → Bool
is_upper_hex c = within 48 57 c || within 65 70 c

-- A text of upper-case hex digits is its own upper case.
pub upper_of_hex : (s : List ℕ) → all is_upper_hex s ≡ true → upper s ≡ s
unfolding upper is_upper_hex
upper_of_hex [] h = refl
upper_of_hex (c ∷ s) h = ground (arith, upper_of_hex s)
