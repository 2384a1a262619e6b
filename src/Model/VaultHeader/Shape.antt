-- ===== src/Model/VaultHeader/Shape.antt =====
-- What the validators of a vault header accept, and that they accept their own results.
use gpg_meister.Base.{
  ==→eq, Bool-cases, List, Option-cases, Result-cases, [], all, arith, contains, false, inl, inr,
  length, none, ok, same→eq, some, true, ◌==◌, ◌∷◌, ◌≡◌, ◌≤◌,
}
use gpg_meister.Model.Fields.{
  CipherParams, KdfFields, fingerprint_length, nonce_len, normalise_fingerprint, validate_cipher,
}
use gpg_meister.Model.KeySlot.{VaultKeySlot, as_validation, validate_slot}
use gpg_meister.Model.VaultHeader.{
  VaultHeader, supported_vault_versions, too_many, validate_header, validate_slots,
  vault_format_tag, version_shape,
}
use gpg_meister.Python.{Bytes, Text}
use gpg_meister.Python.Base64.Digits.{b64decode}
use gpg_meister.Python.Text.{is_upper_hex, upper, upper_of_hex}

pub normalise_fingerprint_inv :
    (value : Text) {fpr : Text}
    → normalise_fingerprint value ≡ ok fpr
    → (fpr ≡ upper value) × (length fpr ≡ fingerprint_length) × (all is_upper_hex fpr ≡ true)
unfolding normalise_fingerprint
normalise_fingerprint_inv value h = ground arith

pub normalise_fingerprint_idem :
    (value : Text) {fpr : Text}
    → normalise_fingerprint value ≡ ok fpr
    → normalise_fingerprint fpr ≡ ok fpr
normalise_fingerprint_idem value {fpr} h =
    let (e, l, a) = normalise_fingerprint_inv value h in
    let u : upper fpr ≡ fpr = upper_of_hex fpr a in
    unfold normalise_fingerprint in rw u (ground arith)

pub validate_slot_idem :
    (s : VaultKeySlot) {t : VaultKeySlot} → validate_slot s ≡ ok t → validate_slot t ≡ ok t
unfolding validate_slot as_validation
validate_slot_idem s h = elim (Option-cases s.fingerprint) [
  | inl e ↦ ground arith
  | inr (f, e) ↦ elim (Result-cases (normalise_fingerprint f)) [
    | inl (x, bad) ↦ ground arith
    | inr (g, good) ↦ ground (arith, normalise_fingerprint_idem f good)
  ]
]

validate_slots_idem :
    (slots : List VaultKeySlot) {out : List VaultKeySlot}
    → validate_slots slots ≡ ok out
    → validate_slots out ≡ ok out
unfolding validate_slots
validate_slots_idem [] h = ground arith
validate_slots_idem (s ∷ slots) {out} h = elim (Result-cases (validate_slot s)) [
  | inl (e, bad) ↦ ground arith
  | inr (t, good) ↦ elim (Result-cases (validate_slots slots)) [
    | inl (e, bad) ↦ ground arith
    | inr (rest, fine) ↦
        let e : out ≡ t ∷ rest = ground arith in
        rw (e, validate_slot_idem s good, validate_slots_idem slots fine)
  ]
]

-- Building a header from the fields of a built header gives that header again.
pub validate_header_idem :
    (h : VaultHeader) {g : VaultHeader} → validate_header h ≡ ok g → validate_header g ≡ ok g
unfolding validate_header
validate_header_idem h built = elim (Option-cases h.key_slots) [
  | inl e ↦ ground arith
  | inr (slots, e) ↦ elim (Result-cases (validate_slots slots)) [
    | inl (x, bad) ↦ ground arith
    | inr (out, good) ↦ ground (arith, validate_slots_idem slots good)
  ]
]

-- The two kinds of vault, by what holds the payload key.
pub data HeaderKind (h : VaultHeader) : Type 0 where
  derived : (k : KdfFields) → h.version ≡ 2 → h.kdf ≡ some k → h.key_slots ≡ none → HeaderKind h
  slotted :
      (s : VaultKeySlot) (slots : List VaultKeySlot)
      → h.version ≡ 3
      → h.kdf ≡ none
      → h.key_slots ≡ some (s ∷ slots)
      → length (s ∷ slots) ≤ 8
      → HeaderKind h

-- A built header is of one of the two kinds, its format tag is the vault's, and its nonce decodes
-- to twelve bytes.
pub record IsWellFormed (h : VaultHeader) : Type 0 where
  pub kind : HeaderKind h
  pub tagged : h.format ≡ vault_format_tag
  pub supported : contains h.version supported_vault_versions ≡ true
  pub nonce : (raw : Bytes) × (b64decode h.cipher.nonce_b64 ≡ some raw) × (length raw ≡ nonce_len)

kind_of :
    (h : VaultHeader)
    → contains h.version supported_vault_versions ≡ true
    → too_many h.key_slots ≡ false
    → version_shape h.version h.kdf h.key_slots ≡ ok tt
    → HeaderKind h
unfolding version_shape
kind_of h sv few shape = elim (Bool-cases (h.version == 2)) [
  | inl v2 ↦ elim (Option-cases h.kdf) [
    | inl e ↦ absurd (ground arith)
    | inr (k, e) ↦ derived k (==→eq _ _ v2) e (ground arith)
  ]
  | inr v3 ↦ elim (Option-cases h.key_slots) [
    | inl e ↦ absurd (ground arith)
    | inr (slots, e) ↦ with_slots slots e
  ]
]
  where
    with_slots : (slots : List VaultKeySlot) → h.key_slots ≡ some slots → HeaderKind h
    with_slots [] e = absurd (ground arith)
    with_slots (s ∷ slots) e = slotted s slots (ground arith) (ground arith) e (ground arith)

validate_cipher_inv :
    (c : CipherParams) {d : CipherParams}
    → validate_cipher c ≡ ok d
    → (raw : Bytes) × (b64decode c.nonce_b64 ≡ some raw) × (length raw ≡ nonce_len)
unfolding validate_cipher
validate_cipher_inv c h = elim (Option-cases (b64decode c.nonce_b64)) [
  | inl e ↦ absurd (ground arith)
  | inr (raw, e) ↦ (raw, e, ground arith)
]

-- A header that its constructor returns has the vault's tag, a supported version and a nonce that
-- decodes to twelve bytes. Either it is of version 2, with KDF parameters and no key slots, or it
-- is of version 3, with between one and eight key slots and no KDF parameters.
pub validate_header_lem :
    (h : VaultHeader) {g : VaultHeader} → validate_header h ≡ ok g → IsWellFormed g
unfolding validate_header
validate_header_lem h {g} built = record {
  kind = kind_of g (ground arith) (ground arith) (ground arith);
  tagged = same→eq g.format vault_format_tag (ground arith);
  supported = ground arith;
  nonce = elim (Result-cases (validate_cipher h.cipher)) [
    | inl (e, bad) ↦ absurd (ground arith)
    | inr (d, good) ↦
        let e : g.cipher ≡ h.cipher = ground arith in rw e (validate_cipher_inv h.cipher good)
  ];
}
