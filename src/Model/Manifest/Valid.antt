-- ===== src/Model/Manifest/Valid.antt =====
-- The validators of a manifest accept their own results.
use gpg_meister.Base.{List, Result-cases, [], arith, inl, inr, ok, ◌∷◌, ◌≡◌}
use gpg_meister.Model.Fields.{normalise_fingerprint}
use gpg_meister.Model.KeySlot.{as_validation}
use gpg_meister.Model.Manifest.{
  VaultKeyEntry, VaultManifest, validate_entries, validate_entry, validate_manifest,
}
use gpg_meister.Model.VaultHeader.Shape.{normalise_fingerprint_idem, normalise_fingerprint_inv}

validate_entry_idem :
    (e : VaultKeyEntry) {f : VaultKeyEntry} → validate_entry e ≡ ok f → validate_entry f ≡ ok f
unfolding validate_entry as_validation
validate_entry_idem e h = elim (Result-cases (normalise_fingerprint e.fingerprint)) [
  | inl (x, bad) ↦ absurd (ground arith)
  | inr (g, good) ↦ ground (
    arith,
    normalise_fingerprint_idem e.fingerprint good,
    normalise_fingerprint_inv e.fingerprint good,
  )
]

validate_entries_idem :
    (es : List VaultKeyEntry) {out : List VaultKeyEntry}
    → validate_entries es ≡ ok out
    → validate_entries out ≡ ok out
unfolding validate_entries
validate_entries_idem [] h = ground arith
validate_entries_idem (e ∷ es) {out} h = elim (Result-cases (validate_entry e)) [
  | inl (x, bad) ↦ absurd (ground arith)
  | inr (f, good) ↦ elim (Result-cases (validate_entries es)) [
    | inl (x, bad) ↦ absurd (ground arith)
    | inr (rest, fine) ↦
        let e : out ≡ f ∷ rest = ground arith in
        rw (e, validate_entry_idem _ good, validate_entries_idem es fine)
  ]
]

-- Building a manifest from the fields of a built manifest gives that manifest again.
pub validate_manifest_idem :
    (m : VaultManifest) {n : VaultManifest}
    → validate_manifest m ≡ ok n
    → validate_manifest n ≡ ok n
unfolding validate_manifest
validate_manifest_idem m h = elim (Result-cases (validate_entries m.keys)) [
  | inl (x, bad) ↦ absurd (ground arith)
  | inr (out, good) ↦ ground (arith, validate_entries_idem m.keys good)
]
