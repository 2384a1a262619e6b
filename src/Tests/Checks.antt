-- ===== src/Tests/Checks.antt =====
-- The theorems on the checks of user input at concrete inputs.
use gpg_meister.Audit.Secrets.{occurs_in, starts_with}
use gpg_meister.Base.{All, [], arith, false, ok, refl, ◌++◌, ◌↔◌, ◌∷◌, ◌≡◌, ◌≢◌}
use gpg_meister.Model.Fields.{normalise_fingerprint}
use gpg_meister.Python.{Bytes}
use gpg_meister.Python.Lines.{newline}
use gpg_meister.Python.Text.{codes}
use gpg_meister.Services.Validation.{
  is_offset_rest, matches_expiry_offset, reject_in_items, reject_passphrase_in_argv,
  validate_expiry, validate_fingerprint,
}
use gpg_meister.Services.Validation.Argv.{reject_passphrase_in_argv_lem}
use gpg_meister.Services.Validation.Fingerprint.{validate_fingerprint_lem}
use gpg_meister.Services.Validation.Newline.{validate_expiry-newline}
use gpg_meister.Tests.Inputs.{toy_entry}

reject_passphrase_in_argv_lem_example :
    All
      (λ item. (before rest : Bytes) → item ≢ before ++ (codes "s3cret" ++ rest))
      (codes "--batch" ∷ codes "--pinentry-mode" ∷ [])
unfolding reject_passphrase_in_argv reject_in_items occurs_in starts_with
reject_passphrase_in_argv_lem_example =
    reject_passphrase_in_argv_lem (λ t. t) (codes "--batch" ∷ codes "--pinentry-mode" ∷ [])
      (codes "s3cret") (omega arith) refl

validate_fingerprint_lem_example :
    (validate_fingerprint toy_entry.fingerprint ≡ ok toy_entry.fingerprint)
    ↔ (normalise_fingerprint toy_entry.fingerprint ≡ ok toy_entry.fingerprint)
validate_fingerprint_lem_example =
    validate_fingerprint_lem toy_entry.fingerprint toy_entry.fingerprint

validate_expiry-newline_example :
    validate_expiry (λ t. false) (codes "2y" ++ newline ∷ []) ≡ ok (codes "2y" ++ newline ∷ [])
unfolding matches_expiry_offset is_offset_rest
validate_expiry-newline_example = validate_expiry-newline (λ t. false) (codes "2y") refl refl
