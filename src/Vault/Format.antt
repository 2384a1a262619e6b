-- ===== src/Vault/Format.antt =====
-- security/vault_format.py: the binary frame of a vault file.
pub mod Windows
pub mod Read
pub mod Exact
pub mod Errors
pub mod Uncaught
pub mod RoundTrip
use gpg_meister.Base.{
  Result, [], contains, err, get_elem?, if◌then◌else◌, index_error, length, ltb, none, not, ok,
  raise_if, same, slice, some, validation_error, value_error, vault_format_error, ℕ, ◌*◌, ◌++◌, ◌+◌,
  ◌==◌, ◌>>=◌, ◌>>◌, ◌||◌, ◌∷◌,
}
use gpg_meister.Model.VaultHeader.{VaultHeader, supported_vault_versions, validate_header}
use gpg_meister.Python.{Bytes}
use gpg_meister.Python.Struct.{pack_u32, unpack_u32}
use gpg_meister.Python.Text.{codes}
use gpg_meister.Security.Environment.{
  Environment, HeaderRead, header_fields, json_raised, not_json, wrong_fields,
}

abbrev pub magic : Bytes
magic = codes "GPGV"

abbrev pub magic_len : ℕ
magic_len = 4

abbrev pub length_field : ℕ
length_field = 4

-- Four bytes of magic, one of version and four of length.
abbrev pub header_offset : ℕ
header_offset = 9

abbrev pub max_header_size : ℕ
max_header_size = 64 * 1024

abbrev pub max_ciphertext_size : ℕ
max_ciphertext_size = 256 * 1024 * 1024

pub record UnpackedFrame : Type 0 where
  pub header : VaultHeader
  pub header_bytes : Bytes
  pub ciphertext : Bytes

-- `bytes([n])`
unfoldable pub one_byte : ℕ → Result Bytes
one_byte n = if ltb n 256 then ok (n ∷ []) else err (value_error "bytes must be in range(0, 256)")

-- `pack(header, ciphertext)`: the frame and the header bytes
unfoldable pub pack : Environment → VaultHeader → Bytes → Result (Bytes × Bytes)
unfolding one_byte
pack env header ciphertext = do
  let header_bytes = env.header_json header
  raise_if (ltb max_header_size (length header_bytes))
      (vault_format_error "header exceeds 65536 bytes")
  raise_if (ltb max_ciphertext_size (length ciphertext))
      (vault_format_error "ciphertext exceeds 268435456 bytes")
  version ← one_byte header.version
  header_len ← pack_u32 (length header_bytes)
  ct_len ← pack_u32 (length ciphertext)
  ok (magic ++ (version ++ (header_len ++ (header_bytes ++ (ct_len ++ ciphertext)))), header_bytes)

-- `data[i]`
unfoldable pub byte_at : ℕ → Bytes → Result ℕ
byte_at i bytes = elim (get_elem? bytes i) [
  | none ↦ err (index_error "index out of range")
  | some b ↦ ok b
]

-- `except (UnicodeDecodeError, json.JSONDecodeError)`: no other exception of `json.loads` is caught.
or_not_json : HeaderRead → Result VaultHeader
or_not_json not_json = err (vault_format_error "header is not valid UTF-8 JSON")
or_not_json (json_raised e) = err e
or_not_json wrong_fields = err (vault_format_error "header fields are invalid")
or_not_json (header_fields h) = ok h

-- `except ValidationError`
or_invalid_fields : Result VaultHeader → Result VaultHeader
or_invalid_fields (ok h) = ok h
or_invalid_fields (err (validation_error m)) = err (vault_format_error "header fields are invalid")
or_invalid_fields (err e) = err e

-- The header window as a header: JSON, then the model's fields and validators.
unfoldable pub parse_header : Environment → Bytes → Result VaultHeader
unfolding or_not_json or_invalid_fields
parse_header env header_bytes = do
  fields ← or_not_json (env.read_header header_bytes)
  or_invalid_fields (validate_header fields)

-- The second half of `unpack`, from `header_end` on.
unfoldable pub unpack_ciphertext : Bytes → VaultHeader → Bytes → ℕ → Result UnpackedFrame
unpack_ciphertext bytes header header_bytes header_end = do
  ct_len ← unpack_u32 (slice header_end (header_end + length_field) bytes)
  raise_if ((ct_len == 0) || ltb max_ciphertext_size ct_len)
      (vault_format_error "invalid ciphertext length")
  let ct_start = header_end + length_field
  let ct_end = ct_start + ct_len
  raise_if (ltb (length bytes) ct_end)
      (vault_format_error "file truncated: ciphertext extends past file end")
  raise_if (ltb ct_end (length bytes)) (vault_format_error "file has trailing bytes")
  ok (record {
    header = header;
    header_bytes = header_bytes;
    ciphertext = slice ct_start ct_end bytes;
  })

unfoldable pub unpack : Environment → Bytes → Result UnpackedFrame
unfolding byte_at
unpack env bytes = do
  raise_if (ltb (length bytes) (header_offset + length_field))
      (vault_format_error "file truncated: not enough bytes for frame header")
  raise_if (not (same (slice 0 magic_len bytes) magic))
      (vault_format_error "magic bytes do not match")
  version ← byte_at magic_len bytes
  raise_if (not (contains version supported_vault_versions))
      (vault_format_error "unsupported vault version")
  header_len ← unpack_u32 (slice 5 header_offset bytes)
  raise_if ((header_len == 0) || ltb max_header_size header_len)
      (vault_format_error "invalid header length")
  let header_end = header_offset + header_len
  raise_if (ltb (length bytes) (header_end + length_field))
      (vault_format_error "file truncated: header extends past file end")
  let header_bytes = slice header_offset header_end bytes
  header ← parse_header env header_bytes
  raise_if (not (header.version == version))
      (vault_format_error "frame version does not match header version")
  unpack_ciphertext bytes header header_bytes header_end
