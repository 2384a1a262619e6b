-- ===== src/Vault/Sidecar.antt =====
-- services/vault_service.py: the checksum file beside a vault. SHA-256 is an argument.
pub mod Checked
use gpg_meister.Base.{
  Bool, List, Option, Result, [], any, checksum_mismatch_error, err, if◌then◌else◌, leb, length,
  none, not, ok, raise_if, same, some, take, value_error, vault_service_error, within, ℕ, ◌+◌, ◌==◌,
  ◌>>=◌, ◌>>◌, ◌||◌, ◌∷◌,
}
use gpg_meister.Model.Manifest.{VaultManifest}
use gpg_meister.Python.{Bytes, Text}
use gpg_meister.Python.Hex.{hex_upper}
use gpg_meister.Python.Words.{split_words}
use gpg_meister.Security.Buffers.{SecureBytes}
use gpg_meister.Security.Environment.{Environment}
use gpg_meister.Vault.Open.{CardDecrypt, Logged, OpenedVault, bad_checksum, open_vault}

abbrev lower_char : ℕ → ℕ
lower_char c = if within 65 90 c then c + 32 else c

-- `s.lower()` of an ASCII text
unfoldable pub lower_ascii : Text → Text
lower_ascii [] = []
lower_ascii (c ∷ t) = lower_char c ∷ lower_ascii t

abbrev is_lower_hex : ℕ → Bool
is_lower_hex c = within 48 57 c || within 97 102 c

or_empty_sidecar : List Text → Result Text
or_empty_sidecar [] = err (vault_service_error "vault checksum sidecar is empty")
or_empty_sidecar (w ∷ words) = ok w

-- `_read_sidecar_digest(sidecar)`, on the content of the file
unfoldable pub read_sidecar_digest : Bytes → Result Text
unfolding or_empty_sidecar
read_sidecar_digest content = do
  let raw = take 256 content
  raise_if (any (λ b. leb 128 b) raw) (value_error "'ascii' codec can't decode byte")
  word ← or_empty_sidecar (split_words raw)
  let digest = lower_ascii word
  raise_if (not (length digest == 64) || any (λ c. not (is_lower_hex c)) digest)
      (vault_service_error "vault checksum sidecar is malformed")
  ok digest

-- `hashlib.sha256(data).hexdigest().lower()`
abbrev pub hex_digest : (Bytes → Bytes) → Bytes → Text
hex_digest sha256 stored = lower_ascii (hex_upper (sha256 stored))

unfoldable pub compare_digest : Result Text → Text → Logged (Unit {0})
compare_digest (err e) actual = ([], err e)
compare_digest (ok expected) actual =
    if same expected actual
    then ([], ok tt)
    else (bad_checksum ∷ [], err (checksum_mismatch_error "vault checksum mismatch"))

-- `_verify_sidecar(src, data)`, on the content of the sidecar if there is one
unfoldable pub verify_sidecar : (Bytes → Bytes) → Option Bytes → Bytes → Logged (Unit {0})
verify_sidecar sha256 none stored = ([], ok tt)
verify_sidecar sha256 (some content) stored =
    compare_digest (read_sidecar_digest content) (hex_digest sha256 stored)

-- `if not skip_checksum: self._verify_sidecar(src, data)`
unfoldable pub check_sidecar : (Bytes → Bytes) → Option Bytes → Bool → Bytes → Logged (Unit {0})
check_sidecar sha256 sidecar skip_checksum stored =
    if skip_checksum then ([], ok tt) else verify_sidecar sha256 sidecar stored

-- `_open(source_path, master_passphrase, smartcard_pin, skip_checksum)` on a stored file and on the
-- content of its sidecar, if there is one
unfoldable pub open_file :
    Environment
    → (Bytes → Result (VaultManifest × ℕ × Bytes))
    → CardDecrypt
    → (Bytes → Bytes)
    → Option SecureBytes
    → Option SecureBytes
    → Bool
    → Option Bytes
    → Bytes
    → Logged OpenedVault
open_file env rebuild_legacy card_decrypt sha256 pw pin skip_checksum sidecar stored =
    open_vault env rebuild_legacy card_decrypt (check_sidecar sha256 sidecar skip_checksum) pw pin
      stored
