-- ===== src/Base/Results.antt =====
-- Python's exceptions as values: the class of the exception and its message, without the values
-- that the source interpolates into it.
use Prim.Native.String.{String}
use mathlib.Core.Path.{◌≡◌, refl, subst}
use mathlib.Core.Logic.{◌⊎◌, inl, inr}
use mathlib.Core.Bool.{Bool, true, false}
use gpg_meister.Base.Tests.{if◌then◌else◌}

pub data Error : Type 0 where
  value_error type_error key_error runtime_error struct_error index_error : String → Error
  recursion_error : String → Error
  validation_error attribute_error database_error : String → Error
  fido_unavailable_error fido_pin_error fido_touch_error fido_credential_error : String → Error
  kdf_error decryption_error vault_format_error : String → Error
  vault_service_error metadata_store_error audit_log_error : String → Error
  checksum_mismatch_error gpg_service_error gpg_card_error gpg_card_pin_error : String → Error
  gpg_passphrase_error gpg_process_error gpg_key_not_found_error : String → Error
  gpg_validation_error key_unlock_error no_unlock_method_error : String → Error

-- What a call returns, or the exception that it raises.
pub data Result {ℓ} (A : Type ℓ) : Type ℓ where
  err : Error → Result A
  ok : A → Result A

infixl 5 ◌>>=◌ ◌>>◌
abbrev pub ◌>>=◌ {ℓ κ} : {A : Type ℓ} {B : Type κ} → Result A → (A → Result B) → Result B
err raised >>= next = err raised
ok value >>= next = next value

abbrev pub ◌>>◌ {ℓ κ} : {A : Type ℓ} {B : Type κ} → Result A → Result B → Result B
first >> next = first >>= λ _. next

-- `if b: raise e`
abbrev pub raise_if : Bool → Error → Result (Unit {0})
raise_if true e = err e
raise_if false e = ok tt

pub Result-cases {ℓ} :
    {A : Type ℓ} (r : Result A) → ((e : Error) × (r ≡ err e)) ⊎ ((a : A) × (r ≡ ok a))
Result-cases (ok a) = inr (a, refl)
Result-cases (err e) = inl (e, refl)

-- Every exception of `r` is one of `P`.
pub record RaisesOnly {ℓ} {A : Type ℓ} (P : Error → Type 0) (r : Result A) : Type ℓ where
  pub at : (e : Error) → r ≡ err e → P e

module _ {ℓ} {A : Type ℓ} {P : Error → Type 0} where
  pub RaisesOnly-ok : (a : A) → RaisesOnly P (ok a)
  RaisesOnly-ok a = record { at = λ e h. absurd (cc h) }

  pub RaisesOnly-err : (e : Error) → P e → RaisesOnly {A = A} P (err e)
  RaisesOnly-err e p = record { at = λ e' h. subst P (cc h) p }

module _ {P : Error → Type 0} where
  pub RaisesOnly-raise_if : (b : Bool) (e : Error) → P e → RaisesOnly P (raise_if b e)
  RaisesOnly-raise_if true e p = RaisesOnly-err e p
  RaisesOnly-raise_if false e p = RaisesOnly-ok tt

module _ {ℓ} {A : Type ℓ} {P : Error → Type 0} where
  -- behind a guard the test is known to have failed
  pub RaisesOnly-guard :
      (b : Bool) (e : Error) (k : Result A)
      → P e
      → (b ≡ false → RaisesOnly P k)
      → RaisesOnly P (raise_if b e >> k)
  RaisesOnly-guard true e k p h = RaisesOnly-err e p
  RaisesOnly-guard false e k p h = h refl

module _ {ℓ κ} {A : Type ℓ} {B : Type κ} {P : Error → Type 0} where
  pub RaisesOnly-bind :
      (m : Result A) (f : A → Result B)
      → RaisesOnly P m
      → ((a : A) → m ≡ ok a → RaisesOnly P (f a))
      → RaisesOnly P (m >>= f)
  RaisesOnly-bind (ok a) f hm hf = hf a refl
  RaisesOnly-bind (err e) f hm hf = record { at = λ e' h. hm.at e' (cc h) }

module _ {ℓ} {A : Type ℓ} {P : Error → Type 0} where
  pub RaisesOnly-if :
      (b : Bool) (m n : Result A)
      → RaisesOnly P m
      → RaisesOnly P n
      → RaisesOnly P (if b then m else n)
  RaisesOnly-if true m n hm hn = hm
  RaisesOnly-if false m n hm hn = hn

pub ruleset raises_rules =
    (RaisesOnly-ok, RaisesOnly-err, RaisesOnly-raise_if, RaisesOnly-bind, RaisesOnly-if, tt)

-- The exception classes that reading untrusted data may raise.
abbrev pub IsFormatError : Error → Type 0
IsFormatError (vault_format_error m) = Unit
IsFormatError _ = ⊥

abbrev pub IsValidationError : Error → Type 0
IsValidationError (validation_error m) = Unit
IsValidationError _ = ⊥
