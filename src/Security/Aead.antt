-- ===== src/Security/Aead.antt =====
-- security/aead.py: authenticated encryption.
use gpg_meister.Base.{
  Option, Result, arith, decryption_error, err, length, none, not, ok, raise_if, some, take, ℕ,
  ◌==◌, ◌>>=◌, ◌>>◌, ◌≡◌,
}
use gpg_meister.Model.Fields.{CipherAlgorithm, nonce_len}
use gpg_meister.Python.{Bytes}
use gpg_meister.Security.Buffers.{SecureBytes, view}
use gpg_meister.Security.Environment.{Environment}

abbrev pub key_len : ℕ
key_len = 32

unfoldable pub generate_nonce : (ℕ → Bytes) → Bytes
generate_nonce token_bytes = token_bytes nonce_len

unfoldable pub check_inputs : SecureBytes → Bytes → Result (Unit {0})
check_inputs key nonce = do
  raise_if key.closed (decryption_error "key buffer is closed")
  raise_if (not (key.size == key_len)) (decryption_error "key length mismatch")
  raise_if (not (length nonce == nonce_len)) (decryption_error "nonce length mismatch")

-- `encrypt(plaintext, key, nonce, associated_data, cipher)`
unfoldable pub encrypt :
    Environment → Bytes → SecureBytes → Bytes → Bytes → CipherAlgorithm → Result Bytes
unfolding check_inputs
encrypt env plaintext key nonce associated_data cipher = do
  check_inputs key nonce
  raw ← view key
  ok (env.seal cipher raw nonce plaintext associated_data)

or_decryption_error : Option Bytes → Result Bytes
or_decryption_error none = err (decryption_error "decryption failed")
or_decryption_error (some plaintext) = ok plaintext

unfoldable pub decrypt :
    Environment → Bytes → SecureBytes → Bytes → Bytes → CipherAlgorithm → Result Bytes
unfolding check_inputs or_decryption_error
decrypt env ciphertext key nonce associated_data cipher = do
  check_inputs key nonce
  raw ← view key
  or_decryption_error (env.unseal cipher raw nonce ciphertext associated_data)

-- What was encrypted decrypts under the same key, nonce, associated data and cipher.
pub decrypt-encrypt :
    (env : Environment) (text : Bytes) (key : SecureBytes) (nonce aad : Bytes) (c : CipherAlgorithm)
    {sealed : Bytes}
    → encrypt env text key nonce aad c ≡ ok sealed
    → decrypt env sealed key nonce aad c ≡ ok text
unfolding encrypt decrypt view
decrypt-encrypt env text key nonce aad c h =
    ground (arith, env.unseal-seal c (take key.size key.buffer) nonce text aad)
