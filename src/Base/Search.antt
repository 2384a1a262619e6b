-- ===== src/Base/Search.antt =====
-- What `any` says of the elements of a list.
use Prim.Native.Nat.{ℕ}
use mathlib.Core.Path.{◌≡◌, refl, sym, ap}
use mathlib.Core.Bool.{Bool, true, false}
use mathlib.Core.Logic.{◌≢◌, inl, inr}
use mathlib.Core.List.{List, [], ◌∷◌, ◌++◌}
use native.Mathlib.Omega.{arith}
use gpg_meister.Base.Lists.{All, any, same, same_self, same→eq}
use gpg_meister.Base.Tests.{Bool-cases}

module _ {ℓ} {A : Type ℓ} where
  -- An element of the list passes the test.
  abbrev pub Has : (A → Bool) → List A → Type ℓ
  Has p l =
      (before : List A) × (a : A) × (after : List A) × (l ≡ before ++ a ∷ after) × (p a ≡ true)

  pub Has-of_any : (p : A → Bool) (l : List A) → any p l ≡ true → Has p l
  Has-of_any p [] h = absurd (cc h)
  Has-of_any p (x ∷ l) h = elim (Bool-cases (p x)) [
    | inl e ↦ ([], x, l, refl, e)
    | inr e ↦
        let (before, a, after, at, good) = Has-of_any p l (ground arith) in
        (x ∷ before, a, after, ap (λ m. x ∷ m) at, good)
  ]

  pub any-append :
      (p : A → Bool) (before after : List A) (a : A)
      → p a ≡ true
      → any p (before ++ a ∷ after) ≡ true
  any-append p [] after a h = ground arith
  any-append p (b ∷ before) after a h = ground (arith, any-append p before after a h)

  pub any-of_Has : (p : A → Bool) (l : List A) → Has p l → any p l ≡ true
  any-of_Has p l (before, a, after, at, good) = rw at (any-append p before after a good)

  pub All-of_any {κ} :
      (p : A → Bool) (P : A → Type κ)
      → ((a : A) → p a ≡ false → P a)
      → (l : List A) → any p l ≡ false
      → All P l
  All-of_any p P f [] h = tt
  All-of_any p P f (a ∷ l) h = (f a (ground arith), All-of_any p P f l (ground arith))

  pub any-of_All {κ} :
      (p : A → Bool) (P : A → Type κ)
      → ((a : A) → P a → p a ≡ false)
      → (l : List A) → All P l
      → any p l ≡ false
  any-of_All p P f [] h = refl
  any-of_All p P f (a ∷ l) h = ground (arith, f a h.0, any-of_All p P f l h.1)

-- The text is none of `names`.
abbrev pub IsNone : List (List ℕ) → List ℕ → Type 0
IsNone names t = All (λ name. t ≢ name) names

pub IsNone-of_any :
    (names : List (List ℕ)) (t : List ℕ) → any (λ u. same u t) names ≡ false → IsNone names t
IsNone-of_any names t h =
    All-of_any (λ u. same u t) (λ name. t ≢ name)
      (λ name other e. let found = same_self t in absurd (cc (ap (λ u. same u t) e, found, other)))
      names h

pub any-of_IsNone :
    (names : List (List ℕ)) (t : List ℕ) → IsNone names t → any (λ u. same u t) names ≡ false
any-of_IsNone names t h = any-of_All (λ u. same u t) (λ name. t ≢ name) other names h
  where
    other : (name : List ℕ) → t ≢ name → same name t ≡ false
    other name differs = elim (Bool-cases (same name t)) [
      | inl e ↦ absurd (differs (sym (same→eq name t e)))
      | inr e ↦ e
    ]
