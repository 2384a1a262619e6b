-- ===== src/Python/Decimal.antt =====
-- `str(n)` and `int(s)` for natural numbers.
use gpg_meister.Base.{
  Bool, Bool-cases, [], all, arith, if◌then◌else◌, inl, inr, is_empty, length, length-append, ltb,
  not, refl, suc, true, within, zero, ℕ, ◌%◌, ◌&&◌, ◌*◌, ◌++◌, ◌+◌, ◌-◌, ◌/◌, ◌<◌, ◌^◌, ◌∙◌, ◌∷◌,
  ◌≡◌, ◌≤◌,
}
use gpg_meister.Python.{Text}

decimal_from : ℕ → ℕ → Text
decimal_from zero n = []
decimal_from (suc fuel) n =
    let more = decimal_from fuel (n / 10) in
    if ltb n 10 then (48 + n) ∷ [] else more ++ (48 + n % 10) ∷ []

-- A number has fewer digits than `n + 1`, so the fuel is enough.
unfoldable pub decimal : ℕ → Text
unfolding decimal_from
decimal n = decimal_from (suc n) n

abbrev pub is_decimal_digit : ℕ → Bool
is_decimal_digit c = within 48 57 c

-- `s.isdigit()`
abbrev pub is_decimal : Text → Bool
is_decimal t = not (is_empty t) && all is_decimal_digit t

unfoldable pub int_from : ℕ → Text → ℕ
int_from acc [] = acc
int_from acc (c ∷ t) = int_from (acc * 10 + (c - 48)) t

int_from-append : (acc : ℕ) (s t : Text) → int_from acc (s ++ t) ≡ int_from (int_from acc s) t
unfolding int_from
int_from-append acc [] t = refl
int_from-append acc (c ∷ s) t = int_from-append (acc * 10 + (c - 48)) s t

int_from-decimal_from : (fuel n : ℕ) → n < fuel → int_from 0 (decimal_from fuel n) ≡ n
unfolding int_from decimal_from
int_from-decimal_from zero n h = elim h [ ]
int_from-decimal_from (suc fuel) n h = elim (Bool-cases (ltb n 10)) [
  | inl e ↦ rw e (omega arith)
  | inr e ↦
      rw
        (
          e,
          int_from-append 0 (decimal_from fuel (n / 10)) ((48 + n % 10) ∷ []),
          int_from-decimal_from fuel (n / 10) (ground arith),
        )
        (omega arith)
]

-- `int(str(n)) == n`
pub int_from-decimal : (n : ℕ) → int_from 0 (decimal n) ≡ n
unfolding decimal
int_from-decimal n = int_from-decimal_from (suc n) n (omega arith)

all-append : (p : ℕ → Bool) (s t : Text) → all p (s ++ t) ≡ (all p s && all p t)
all-append p [] t = refl
all-append p (c ∷ s) t = ground (arith, all-append p s t)

decimal_from-is_decimal :
    (fuel n : ℕ)
    → n < fuel
    → (all is_decimal_digit (decimal_from fuel n) ≡ true) × (0 < length (decimal_from fuel n))
unfolding decimal_from
decimal_from-is_decimal zero n h = elim h [ ]
decimal_from-is_decimal (suc fuel) n h = elim (Bool-cases (ltb n 10)) [
  | inl e ↦ rw e (ground arith, omega arith)
  | inr e ↦ rw e (
    all-append is_decimal_digit (decimal_from fuel (n / 10)) ((48 + n % 10) ∷ [])
        ∙ ground (arith, decimal_from-is_decimal fuel (n / 10)),
    omega (arith, length-append (decimal_from fuel (n / 10)) ((48 + n % 10) ∷ [])),
  )
]

pub decimal-is_decimal :
    (n : ℕ) → (all is_decimal_digit (decimal n) ≡ true) × (0 < length (decimal n))
unfolding decimal
decimal-is_decimal n = decimal_from-is_decimal (suc n) n (omega arith)

-- A number below the k-th power of ten has at most k digits.
length-decimal_from : (k fuel n : ℕ) → n < 10 ^ suc k → length (decimal_from fuel n) ≤ suc k
unfolding decimal_from
length-decimal_from k zero n h = omega arith
length-decimal_from zero (suc fuel) n h =
    let e : ltb n 10 ≡ true = ground arith in rw e (omega arith)
length-decimal_from (suc k) (suc fuel) n h = elim (Bool-cases (ltb n 10)) [
  | inl e ↦ rw e (omega arith)
  | inr e ↦ rw e (
      omega (
        arith,
        length-append (decimal_from fuel (n / 10)) ((48 + n % 10) ∷ []),
        length-decimal_from k fuel (n / 10) (omega arith),
      ))
]

pub length-decimal : (k n : ℕ) → n < 10 ^ suc k → length (decimal n) ≤ suc k
unfolding decimal
length-decimal k n h = length-decimal_from k (suc n) n h
