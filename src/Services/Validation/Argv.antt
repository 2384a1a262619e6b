-- ===== src/Services/Validation/Argv.antt =====
-- services/validation.py: `reject_passphrase_in_argv` finds every occurrence.
use gpg_meister.Audit.Secrets.{occurs_in}
use gpg_meister.Audit.Secrets.Occurs.{occurs_in-middle}
use gpg_meister.Base.{
  All, Bool-cases, List, [], ap, arith, false, inl, inr, length, ok, ◌++◌, ◌<◌, ◌∷◌, ◌≡◌, ◌≢◌,
}
use gpg_meister.Python.{Bytes, Text}
use gpg_meister.Services.Validation.{reject_in_items, reject_passphrase_in_argv}

reject_in_items-ok :
    (encode : Text → Bytes) (argv : List Text) (needle : Bytes)
    → reject_in_items encode argv needle ≡ ok tt
    → All (λ item. occurs_in needle (encode item) ≡ false) argv
unfolding reject_in_items
reject_in_items-ok encode [] needle h = tt
reject_in_items-ok encode (item ∷ argv) needle h =
    elim (Bool-cases (occurs_in needle (encode item))) [
      | inl e ↦ absurd (ground (arith, e, h))
      | inr e ↦ (e, reject_in_items-ok encode argv needle (ground (arith, e, h)))
    ]

-- No item of an argument list that passes contains the passphrase, wherever it may stand.
pub reject_passphrase_in_argv_lem :
    (encode : Text → Bytes) (argv : List Text) (needle : Bytes)
    → 0 < length needle
    → reject_passphrase_in_argv encode argv needle ≡ ok tt
    → All (λ item. (before rest : Bytes) → encode item ≢ before ++ (needle ++ rest)) argv
unfolding reject_passphrase_in_argv
reject_passphrase_in_argv_lem encode argv [] some_byte h = elim some_byte [ ]
reject_passphrase_in_argv_lem encode argv (c ∷ needle) some_byte h =
    All-map argv (reject_in_items-ok encode argv (c ∷ needle) h)
  where
    All-map :
        (items : List Text)
        → All (λ item. occurs_in (c ∷ needle) (encode item) ≡ false) items
        → All (λ item. (before rest : Bytes) → encode item ≢ before ++ ((c ∷ needle) ++ rest)) items
    All-map [] k = tt
    All-map (item ∷ items) k = (
      λ before rest e.
          let found = occurs_in-middle before (c ∷ needle) rest in
          absurd (cc (ap (occurs_in (c ∷ needle)) e, found, k.0)),
      All-map items k.1,
    )
