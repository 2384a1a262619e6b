-- ===== src/Vault/Format/Uncaught.antt =====
-- The exceptions of `json.loads` that reading a vault file does not catch.
use gpg_meister.Base.{
  Error, arith, contains, err, length, ok, slice, true, ℕ, ◌+◌, ◌<◌, ◌≡◌, ◌≤◌, refl,
}
use gpg_meister.Model.VaultHeader.{supported_vault_versions}
use gpg_meister.Python.{Bytes}
use gpg_meister.Python.Struct.{unpack_u32, unpack_u32-be32}
use gpg_meister.Security.Environment.{Environment, json_raised}
use gpg_meister.Vault.Format.{byte_at, magic, max_header_size, parse_header, unpack}
use gpg_meister.Vault.Format.Windows.{frame_bytes, header_window, length-frame_bytes}

parse_header-uncaught :
    (env : Environment) (hb : Bytes) (e : Error)
    → env.read_header hb ≡ json_raised e
    → parse_header env hb ≡ err e
unfolding parse_header
parse_header-uncaught env hb e at = rw at

module _ (env : Environment) (bytes hb : Bytes) (e : Error) (v n : ℕ)
    (magic_window : slice 0 4 bytes ≡ magic) (version_byte : byte_at 4 bytes ≡ ok v)
    (supported : contains v supported_vault_versions ≡ true)
    (header_len : unpack_u32 (slice 5 9 bytes) ≡ ok n) (header_bytes : slice 9 (9 + n) bytes ≡ hb)
    (parsed : parse_header env hb ≡ err e) (total : 13 + n ≤ length bytes) (n0 : 0 < n)
    (n1 : n ≤ max_header_size) where
  raised_of_windows : unpack env bytes ≡ err e
  unfolding unpack
  raised_of_windows = rw (magic_window, version_byte) (ground arith)

-- A frame of a supported version, whose header window has an accepted length: what `json.loads`
-- raises on that window, other than a `JSONDecodeError`, `unpack` raises as it is.
pub unpack-uncaught :
    (env : Environment) (v : ℕ) (hb ct : Bytes) (e : Error)
    → contains v supported_vault_versions ≡ true
    → 0 < length hb
    → length hb ≤ max_header_size
    → env.read_header hb ≡ json_raised e
    → unpack env (frame_bytes v hb ct) ≡ err e
unfolding frame_bytes byte_at
unpack-uncaught env v hb ct e supported n0 n1 raised =
    raised_of_windows env (frame_bytes v hb ct) hb e v (length hb) refl refl supported
      (unpack_u32-be32 (length hb) (omega arith)) (header_window v hb ct)
      (parse_header-uncaught env hb e raised) (omega (arith, length-frame_bytes v hb ct)) n0 n1
