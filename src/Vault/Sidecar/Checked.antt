-- ===== src/Vault/Sidecar/Checked.antt =====
-- What a checksum file ensures of a vault that was opened.
-- The steps of a sequence that returns.
use gpg_meister.Base.{
  Bool-cases, List, Option, Result, [], ap, arith, err, inl, inr, ok, refl, same, same_self,
  same→eq, some, sym, ℕ, ◌∙◌, ◌↔◌, ◌≡◌, true, false,
}
use gpg_meister.Model.Manifest.{VaultManifest}
use gpg_meister.Python.{Bytes, Text}
use gpg_meister.Security.Buffers.{SecureBytes}
use gpg_meister.Security.Environment.{Environment}
use gpg_meister.Vault.Open.{
  CardDecrypt, Logged, OpenedVault, Reason, and_then, no_unlock, open_stored, open_vault,
}
use gpg_meister.Vault.Sidecar.{
  check_sidecar, compare_digest, hex_digest, open_file, read_sidecar_digest, verify_sidecar,
}

record Steps {A B : Type 0} (first : Logged A) (next : A → Logged B) (b : B) : Type 0 where
  value : A
  before : List Reason
  after : List Reason
  came : first ≡ (before, ok value)
  went : next value ≡ (after, ok b)

and_then_inv :
    {A B : Type 0} (first : Logged A) (next : A → Logged B) {log : List Reason} {b : B}
    → and_then first next ≡ (log, ok b)
    → Steps first next b
unfolding and_then
and_then_inv (l, err e) next h = absurd (cc (ap (λ p. p.1) h))
and_then_inv (l, ok a) next {log} {b} h = record {
  value = a;
  before = l;
  after = (next a).0;
  came = refl;
  went = let e : (next a).1 ≡ ok b = ap (λ p. p.1) h in ap (λ r. ((next a).0, r)) e;
}

compare_digest_inv :
    (r : Result Text) (actual : Text) {log : List Reason}
    → compare_digest r actual ≡ (log, ok tt)
    → r ≡ ok actual
unfolding compare_digest
compare_digest_inv (err e) actual h = absurd (cc (ap (λ p. p.1) h))
compare_digest_inv (ok expected) actual h = elim (Bool-cases (same expected actual)) [
  | inl e ↦ ap ok (same→eq expected actual e)
  | inr e ↦ absurd (ground arith)
]

stored-checked :
    (env : Environment) (rebuild_legacy : Bytes → Result (VaultManifest × ℕ × Bytes))
    (card_decrypt : CardDecrypt) (sha256 : Bytes → Bytes) (content stored : Bytes)
    (pw pin : Option SecureBytes) {log : List Reason} {vault : OpenedVault}
    → open_stored env rebuild_legacy card_decrypt
        (verify_sidecar sha256 (some content))
        pw
        pin
        stored
      ≡ (log, ok vault)
    → read_sidecar_digest content ≡ ok (hex_digest sha256 stored)
unfolding open_stored verify_sidecar
stored-checked env rebuild_legacy card_decrypt sha256 content stored pw pin h =
    let framed = and_then_inv _ _ h in
    let decrypted = and_then_inv _ _ framed.went in
    let checked = and_then_inv _ _ decrypted.went in
    compare_digest_inv (read_sidecar_digest content) (hex_digest sha256 stored) checked.came

verified :
    (env : Environment) (rebuild_legacy : Bytes → Result (VaultManifest × ℕ × Bytes))
    (card_decrypt : CardDecrypt) (sha256 : Bytes → Bytes) (content stored : Bytes)
    (pw pin : Option SecureBytes) {log : List Reason} {vault : OpenedVault}
    → open_vault env rebuild_legacy card_decrypt
        (verify_sidecar sha256 (some content))
        pw
        pin
        stored
      ≡ (log, ok vault)
    → read_sidecar_digest content ≡ ok (hex_digest sha256 stored)
unfolding open_vault verify_sidecar
verified env rebuild_legacy card_decrypt sha256 content stored pw pin {log} {vault} h =
    elim (Bool-cases (no_unlock pin pw)) [
      | inl e ↦ absurd (ground arith)
      | inr e ↦
          let given : open_stored env rebuild_legacy card_decrypt
                (verify_sidecar sha256 (some content)) pw pin stored
              ≡ (log, ok vault) =
            rw e at h in
          stored-checked env rebuild_legacy card_decrypt sha256 content stored pw pin given
    ]

verify_sidecar-passes :
    (sha256 : Bytes → Bytes) (content stored : Bytes)
    → read_sidecar_digest content ≡ ok (hex_digest sha256 stored)
    → verify_sidecar sha256 (some content) stored ≡ ([], ok tt)
unfolding verify_sidecar compare_digest
verify_sidecar-passes sha256 content stored named =
    rw (named, same_self (hex_digest sha256 stored)) refl

-- a checksum step that passes and one that is skipped are the same
module _ (env : Environment) (rebuild_legacy : Bytes → Result (VaultManifest × ℕ × Bytes))
    (card_decrypt : CardDecrypt) (sha256 : Bytes → Bytes) (pw pin : Option SecureBytes)
    (content stored : Bytes) where
  checked-skipped :
      read_sidecar_digest content ≡ ok (hex_digest sha256 stored)
      → open_file env rebuild_legacy card_decrypt sha256 pw pin false (some content) stored
        ≡ open_file env rebuild_legacy card_decrypt sha256 pw pin true (some content) stored
  unfolding open_file open_vault open_stored check_sidecar
  checked-skipped named = rw (verify_sidecar-passes sha256 content stored named) refl

  -- A vault that has a checksum file is opened with the check exactly if it is opened with the check
  -- skipped, with the same result and the same recorded failures, and the file names the SHA-256
  -- digest of exactly the bytes that are opened.
  pub open_file-checked :
      (log : List Reason) (vault : OpenedVault)
      → open_file env rebuild_legacy card_decrypt sha256 pw pin false (some content) stored
          ≡ (log, ok vault)
        ↔ (open_file env rebuild_legacy card_decrypt sha256 pw pin true (some content) stored
            ≡ (log, ok vault))
          × (read_sidecar_digest content ≡ ok (hex_digest sha256 stored))
  unfolding open_file check_sidecar
  open_file-checked log vault = (forwards, λ both. checked-skipped both.1 ∙ both.0)
    where
      forwards :
          open_file env rebuild_legacy card_decrypt sha256 pw pin false (some content) stored
            ≡ (log, ok vault)
          → (open_file env rebuild_legacy card_decrypt sha256 pw pin true (some content) stored
              ≡ (log, ok vault))
            × (read_sidecar_digest content ≡ ok (hex_digest sha256 stored))
      forwards h =
          let named = verified env rebuild_legacy card_decrypt sha256 content stored pw pin h in
          (sym (checked-skipped named) ∙ h, named)
