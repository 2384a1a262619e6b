-- ===== src/Vault/Format/Errors.antt =====
-- The exceptions that reading a file can raise.
use gpg_meister.Base.{
  Bool-cases, Error, IsFormatError, IsValidationError, RaisesOnly, RaisesOnly-bind, RaisesOnly-err,
  RaisesOnly-guard, RaisesOnly-ok, Result, [], arith, contains, err, inl, inr, length, ltb, not, ok,
  raise_if, raises_rules, refl, same, slice, suc, validation_error, vault_format_error, zero, ℕ,
  ◌+◌, ◌<◌, ◌==◌, ◌>>=◌, ◌>>◌, ◌||◌, ◌∷◌, ◌≡◌, ◌≤◌, ◌⊎◌,
}
use gpg_meister.Model.VaultHeader.{VaultHeader, supported_vault_versions, validate_header}
use gpg_meister.Model.VaultHeader.Raises.{validate_header-raises}
use gpg_meister.Python.{Bytes, IsBytes}
use gpg_meister.Python.Struct.{unpack_u32}
use gpg_meister.Security.Environment.{
  Environment, HeaderRead, header_fields, json_raised, not_json, wrong_fields,
}
use gpg_meister.Vault.Format.{
  byte_at, magic, max_header_size, or_invalid_fields, or_not_json, parse_header, unpack,
  unpack_ciphertext,
}
use gpg_meister.Vault.Format.Exact.{window_u32}

unpack_ciphertext-raises :
    (bytes hb : Bytes) (h : VaultHeader) (e : ℕ)
    → IsBytes bytes
    → e + 4 ≤ length bytes
    → RaisesOnly IsFormatError (unpack_ciphertext bytes h hb e)
unfolding unpack_ciphertext
unpack_ciphertext-raises bytes hb h e all_bytes fits =
    let (m, em, lm, bm) = window_u32 e bytes all_bytes fits in rw em (search raises_rules)

-- What reading the header window can raise: `VaultFormatError`, or an exception of `json.loads` that
-- is not caught.
abbrev IsHeaderError : Environment → Bytes → Error → Type 0
IsHeaderError env hb e = IsFormatError e ⊎ (env.read_header hb ≡ json_raised e)

parse_header-raises :
    (env : Environment) (hb : Bytes) → RaisesOnly (IsHeaderError env hb) (parse_header env hb)
unfolding parse_header
parse_header-raises env hb = reads (env.read_header hb) refl
  where
    invalid :
        (r : Result VaultHeader)
        → RaisesOnly IsValidationError r
        → RaisesOnly (IsHeaderError env hb) (or_invalid_fields r)
    invalid (ok h) k = RaisesOnly-ok h
    invalid (err e) k = bad e (k.at e refl)
      where
        bad :
            (e : Error)
            → IsValidationError e
            → RaisesOnly (IsHeaderError env hb) (or_invalid_fields (err e))
        bad (validation_error m) v = RaisesOnly-err _ (inl tt)
        bad e v = absurd v

    reads :
        (r : HeaderRead)
        → env.read_header hb ≡ r
        → RaisesOnly
            (IsHeaderError env hb)
            (do fields ← or_not_json r; or_invalid_fields (validate_header fields))
    reads not_json at = RaisesOnly-err _ (inl tt)
    reads (json_raised e) at = RaisesOnly-err e (inr at)
    reads wrong_fields at = RaisesOnly-err _ (inl tt)
    reads (header_fields h) at = invalid (validate_header h) (validate_header-raises h)

byte_at-raises :
    (i : ℕ) (bytes : Bytes) → i < length bytes → RaisesOnly IsFormatError (byte_at i bytes)
unfolding byte_at
byte_at-raises i [] h = absurd (omega arith)
byte_at-raises zero (b ∷ bytes) h = RaisesOnly-ok b
byte_at-raises (suc i) (b ∷ bytes) h = byte_at-raises i bytes (omega arith)

u32-raises :
    (e : ℕ) (bytes : Bytes)
    → IsBytes bytes
    → e + 4 ≤ length bytes
    → RaisesOnly IsFormatError (unpack_u32 (slice e (e + 4) bytes))
u32-raises e bytes all_bytes fits =
    let (n, en, ln, bn) = window_u32 e bytes all_bytes fits in rw en (RaisesOnly-ok n)

-- What reading a file can raise: `VaultFormatError`, and what `json.loads` raises on the header
-- window without its being caught.
abbrev pub IsReadError : Environment → Bytes → Error → Type 0
IsReadError env bytes e =
    IsFormatError e
    ⊎ ((n : ℕ) × (unpack_u32 (slice 5 9 bytes) ≡ ok n)
        × (env.read_header (slice 9 (9 + n) bytes) ≡ json_raised e))

format_only :
    {A : Type 0} (env : Environment) (bytes : Bytes) (r : Result A)
    → RaisesOnly IsFormatError r
    → RaisesOnly (IsReadError env bytes) r
format_only env bytes r h = record { at = λ e k. inl (h.at e k) }

header_only :
    {A : Type 0} (env : Environment) (bytes : Bytes) (n : ℕ) (r : Result A)
    → unpack_u32 (slice 5 9 bytes) ≡ ok n
    → RaisesOnly (IsHeaderError env (slice 9 (9 + n) bytes)) r
    → RaisesOnly (IsReadError env bytes) r
header_only env bytes n r window h = record { at = λ e k. widen e (h.at e k) }
  where
    widen : (e : Error) → IsHeaderError env (slice 9 (9 + n) bytes) e → IsReadError env bytes e
    widen e (inl f) = inl f
    widen e (inr at) = inr (n, window, at)

long_file :
    (env : Environment) (bytes : Bytes)
    → IsBytes bytes
    → 13 ≤ length bytes
    → RaisesOnly (IsReadError env bytes) (unpack env bytes)
unfolding unpack
long_file env bytes all_bytes k =
    RaisesOnly-guard (ltb (length bytes) 13)
      (vault_format_error "file truncated: not enough bytes for frame header") _ (inl tt)
      (λ _.
        RaisesOnly-guard (not (same (slice 0 4 bytes) magic))
          (vault_format_error "magic bytes do not match") _ (inl tt)
          (λ _.
            RaisesOnly-bind _ _ (format_only env bytes _ (byte_at-raises 4 bytes (omega arith)))
              (λ v _.
                RaisesOnly-guard (not (contains v supported_vault_versions))
                  (vault_format_error "unsupported vault version") _ (inl tt)
                  (λ _.
                    RaisesOnly-bind _ _
                      (format_only env bytes _ (u32-raises 5 bytes all_bytes (omega arith)))
                      (λ n window.
                        RaisesOnly-guard ((n == 0) || ltb max_header_size n)
                          (vault_format_error "invalid header length") _ (inl tt)
                          (λ _. behind_length v n window))))))
  where
    behind_header :
        (v n : ℕ) (h : VaultHeader)
        → 9 + n + 4 ≤ length bytes
        → RaisesOnly (IsReadError env bytes) (do
          raise_if
              (not (h.version == v))
              (vault_format_error "frame version does not match header version")
          unpack_ciphertext bytes h (slice 9 (9 + n) bytes) (9 + n))
    behind_header v n h fits =
        RaisesOnly-guard (not (h.version == v))
          (vault_format_error "frame version does not match header version") _ (inl tt)
          (λ _.
            format_only env bytes _
              (unpack_ciphertext-raises bytes (slice 9 (9 + n) bytes) h (9 + n) all_bytes fits))

    behind_length :
        (v n : ℕ)
        → unpack_u32 (slice 5 9 bytes) ≡ ok n
        → RaisesOnly (IsReadError env bytes) (do
          raise_if
              (ltb (length bytes) (9 + n + 4))
              (vault_format_error "file truncated: header extends past file end")
          h ← parse_header env (slice 9 (9 + n) bytes)
          raise_if
              (not (h.version == v))
              (vault_format_error "frame version does not match header version")
          unpack_ciphertext bytes h (slice 9 (9 + n) bytes) (9 + n))
    behind_length v n window =
        RaisesOnly-guard (ltb (length bytes) (9 + n + 4))
          (vault_format_error "file truncated: header extends past file end") _ (inl tt)
          (λ fits.
            RaisesOnly-bind _ _
              (header_only env bytes n _ window (parse_header-raises env (slice 9 (9 + n) bytes)))
              (λ h _. behind_header v n h (ground arith)))

-- Reading a byte string raises nothing but `VaultFormatError` and what `json.loads` raises, other
-- than a `JSONDecodeError`, on the header window whose length the file names: no slice, index,
-- struct or validation error escapes, whatever the bytes.
pub unpack-raises :
    (env : Environment) (bytes : Bytes)
    → IsBytes bytes
    → RaisesOnly (IsReadError env bytes) (unpack env bytes)
unfolding unpack
unpack-raises env bytes all_bytes = elim (Bool-cases (ltb (length bytes) 13)) [
  | inl short ↦ rw short (RaisesOnly-err _ (inl tt))
  | inr long ↦ let k : 13 ≤ length bytes = ground arith in long_file env bytes all_bytes k
]
