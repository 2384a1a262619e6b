-- ===== src/Vault/KeySlots/RoundTrip.antt =====
-- A key slot gives back the key that it wraps.
use gpg_meister.Base.{
  Result-cases, arith, inl, inr, length, none, ok, refl, some, sym, take, ℕ, ◌+◌, ◌≡◌,
}
use gpg_meister.Model.Fields.{
  CipherAlgorithm, KdfFields, decoded, from_params, nonce_len, to_params, validate_kdf_fields,
}
use gpg_meister.Model.KdfParams.{KdfParams, kdf_params}
use gpg_meister.Model.KeySlot.{VaultKeySlot, as_validation, passphrase, validate_slot}
use gpg_meister.Python.{Bytes, IsBytes}
use gpg_meister.Python.Base64.Digits.{b64encode}
use gpg_meister.Python.Base64.RoundTrip.{b64decode-b64encode}
use gpg_meister.Python.Text.{codes}
use gpg_meister.Security.Aead.{decrypt-encrypt, encrypt, generate_nonce}
use gpg_meister.Security.Buffers.{SecureBytes, from_bytes, view}
use gpg_meister.Security.Buffers.Lifecycle.{view-from_bytes}
use gpg_meister.Security.Entropy.{Entropy}
use gpg_meister.Security.Environment.{Environment}
use gpg_meister.Security.Kdf.{derive_key, generate_salt}
use gpg_meister.Vault.KeySlots.{
  file_key_from_bytes, file_key_len, slot_associated_data, unwrap_with_passphrase,
  wrap_with_passphrase,
}

pub decoded-b64encode : (raw : Bytes) → IsBytes raw → decoded (b64encode raw) ≡ ok raw
unfolding decoded
decoded-b64encode raw h = ground (arith, b64decode-b64encode raw h)

-- The KDF fields of a header, and what is read back from them.
pub from_params_inv :
    (params : KdfParams) (salt : Bytes) {k : KdfFields}
    → from_params params salt ≡ ok k
    → k ≡ record {
      algorithm = params.algorithm;
      salt_b64 = b64encode salt;
      time_cost = params.time_cost;
      memory_cost = params.memory_cost;
      parallelism = params.parallelism;
      hash_len = params.hash_len;
    }
unfolding from_params validate_kdf_fields
from_params_inv params salt h = ground arith

pub to_params-from_params :
    (params : KdfParams) (salt : Bytes) {k : KdfFields}
    → kdf_params params ≡ ok params
    → IsBytes salt
    → length salt ≡ params.salt_len
    → from_params params salt ≡ ok k
    → to_params k ≡ ok params
unfolding to_params
to_params-from_params params salt {k} valid bytes len built =
    rw (from_params_inv params salt built, decoded-b64encode salt bytes, len) valid

-- What an encryption that does not raise returns.
pub length-encrypt :
    (env : Environment) (text : Bytes) (key : SecureBytes) (nonce aad : Bytes) (c : CipherAlgorithm)
    {sealed : Bytes}
    → encrypt env text key nonce aad c ≡ ok sealed
    → length sealed ≡ length text + 16
unfolding encrypt view
length-encrypt env text key nonce aad c {sealed} h =
    ground (arith, env.length-seal c (take key.size key.buffer) nonce text aad)

pub encrypt-IsBytes :
    (env : Environment) (text : Bytes) (key : SecureBytes) (nonce aad : Bytes) (c : CipherAlgorithm)
    {sealed : Bytes}
    → encrypt env text key nonce aad c ≡ ok sealed
    → IsBytes text
    → IsBytes sealed
unfolding encrypt view
encrypt-IsBytes env text key nonce aad c {sealed} h bytes =
    let e : env.seal c (take key.size key.buffer) nonce text aad ≡ sealed = ground arith in
    rw (sym e) (env.seal-IsBytes c (take key.size key.buffer) nonce text aad bytes)

passphrase_slot_inv :
    (s : VaultKeySlot) {t : VaultKeySlot} → s.fingerprint ≡ none → validate_slot s ≡ ok t → t ≡ s
unfolding validate_slot as_validation
passphrase_slot_inv s e h = ground (arith, e)

-- The fields of a passphrase slot.
abbrev pub slot_fields : Bytes → KdfFields → Bytes → VaultKeySlot
slot_fields sealed kdf nonce = record {
  type = passphrase;
  wrapped_key_b64 = b64encode sealed;
  kdf = some kdf;
  nonce_b64 = some (b64encode nonce);
  fingerprint = none;
  label = codes "Master passphrase";
}

-- What a wrapping that does not raise has computed.
pub record Wrapped (env : Environment) (salt nonce : Bytes) (raw : Bytes) (pw : SecureBytes)
    (params : KdfParams) (cipher : CipherAlgorithm) (slot : VaultKeySlot) : Type 0 where
  pub slot_key : SecureBytes
  pub sealed : Bytes
  pub kdf : KdfFields
  pub key_made : derive_key env pw salt params ≡ ok slot_key
  pub encrypted :
      encrypt env raw slot_key nonce (slot_associated_data passphrase) cipher ≡ ok sealed
  pub fields : from_params params salt ≡ ok kdf
  pub accepted : validate_slot (slot_fields sealed kdf nonce) ≡ ok slot
  pub built : slot ≡ slot_fields sealed kdf nonce

pub wrap_inv :
    (env : Environment) (random : Entropy) (i : ℕ) (raw : Bytes) (pw : SecureBytes)
    (params : KdfParams) (cipher : CipherAlgorithm) {slot : VaultKeySlot}
    → wrap_with_passphrase env random i (from_bytes env.mlock raw) pw params cipher ≡ ok slot
    → Wrapped env
        (random.token_bytes i params.salt_len)
        (random.token_bytes (i + 1) nonce_len)
        raw
        pw
        params
        cipher
        slot
unfolding wrap_with_passphrase generate_salt generate_nonce
wrap_inv env random i raw pw params cipher {slot} h =
    let salt = random.token_bytes i params.salt_len in
    let nonce = random.token_bytes (i + 1) nonce_len in
    let seen = view-from_bytes env.mlock raw in
    elim (Result-cases (derive_key env pw salt params)) [
      | inl (e, bad) ↦ absurd (ground (arith, seen))
      | inr (slot_key, made) ↦
          elim (Result-cases
            (encrypt env raw slot_key nonce (slot_associated_data passphrase) cipher)) [
              | inl (e, bad) ↦ absurd (ground (arith, seen))
              | inr (sealed, encrypted) ↦ elim (Result-cases (from_params params salt)) [
                | inl (e, bad) ↦ absurd (ground (arith, seen))
                | inr (kdf, fields) ↦ record {
                  slot_key = slot_key;
                  sealed = sealed;
                  kdf = kdf;
                  key_made = made;
                  encrypted = encrypted;
                  fields = fields;
                  accepted = ground (arith, seen);
                  built =
                      passphrase_slot_inv (slot_fields sealed kdf nonce) refl
                        (ground (arith, seen));
                }
              ]
            ]
    ]

module _ (env : Environment) (random : Entropy) (i : ℕ) (raw : Bytes) (pw : SecureBytes)
    (params : KdfParams) (cipher : CipherAlgorithm) where
  -- If the file key is 32 bytes and wrapping it under a passphrase does not raise, then the slot
  -- unwraps under the same passphrase, parameters and cipher, to a buffer with the same key.
  pub unwrap-wrap :
      {slot : VaultKeySlot}
      → IsBytes raw
      → length raw ≡ file_key_len
      → wrap_with_passphrase env random i (from_bytes env.mlock raw) pw params cipher ≡ ok slot
      → unwrap_with_passphrase env slot pw params cipher ≡ ok (from_bytes env.mlock raw)
  unfolding unwrap_with_passphrase file_key_from_bytes
  unwrap-wrap {slot} bytes len h =
      let w = wrap_inv env random i raw pw params cipher h in
      let sealed_bytes = encrypt-IsBytes env raw _ _ _ cipher w.encrypted bytes in
      let salted : decoded w.kdf.salt_b64 ≡ ok (random.token_bytes i params.salt_len) =
        rw (from_params_inv params _ w.fields)
          (decoded-b64encode _ (random.token_bytes-IsBytes i params.salt_len)) in
      let opened = decrypt-encrypt env raw w.slot_key _ _ cipher w.encrypted in
      rw w.built (
        ground (
          arith,
          salted,
          w.key_made,
          opened,
          decoded-b64encode w.sealed sealed_bytes,
          decoded-b64encode _ (random.token_bytes-IsBytes (i + 1) nonce_len),
        ))
