-- ===== src/Unlock/Secret/RoundTrip.antt =====
-- A wrapped key secret is unwrapped again.
use gpg_meister.Base.{
  Result-cases, arith, inl, inr, length, none, ok, refl, some, true, within, ℕ, ◌+◌, ◌≡◌,
}
use gpg_meister.Model.Fields.{CipherAlgorithm, decoded, from_params, nonce_len}
use gpg_meister.Model.KdfParams.{KdfParams}
use gpg_meister.Python.{Bytes, IsBytes, Text}
use gpg_meister.Python.Base64.Digits.{b64encode}
use gpg_meister.Security.Aead.{decrypt-encrypt, encrypt, generate_nonce}
use gpg_meister.Security.Buffers.{SecureBytes, from_bytes}
use gpg_meister.Security.Buffers.Lifecycle.{view-from_bytes}
use gpg_meister.Security.Entropy.{Entropy}
use gpg_meister.Security.Environment.{Environment}
use gpg_meister.Security.Kdf.{derive_key, generate_salt}
use gpg_meister.Unlock.Secret.{
  check_secret, max_key_secret_len, secret_from_bytes, unlock_associated_data,
  unwrap_secret_with_passphrase, unwrap_with_token, wrap_secret_with_passphrase, wrap_with_token,
}
use gpg_meister.Unlock.Slot.{
  FidoCredential, KeyUnlockSlot, by_fido, by_passphrase, validate_unlock_slot,
}
use gpg_meister.Vault.KeySlots.RoundTrip.{decoded-b64encode, encrypt-IsBytes, from_params_inv}

pub validate_unlock_slot-eq :
    (s : KeyUnlockSlot) {t : KeyUnlockSlot} → validate_unlock_slot s ≡ ok t → t ≡ s
unfolding validate_unlock_slot
validate_unlock_slot-eq s h = ground arith

-- If a secret of bytes is wrapped under a token's secret without an error, then the slot unwraps
-- under the same token secret and cipher to a buffer with the same secret.
pub unwrap_with_token-wrap_with_token :
    (env : Environment) (random : Entropy) (i : ℕ) (raw : Bytes) (token_secret : SecureBytes)
    (credential : FidoCredential) (cipher : CipherAlgorithm) {slot : KeyUnlockSlot}
    → IsBytes raw
    → wrap_with_token env random i (from_bytes env.mlock raw) token_secret credential cipher
      ≡ ok slot
    → unwrap_with_token env slot token_secret cipher ≡ ok (from_bytes env.mlock raw)
unfolding wrap_with_token unwrap_with_token check_secret secret_from_bytes generate_nonce from_bytes
unwrap_with_token-wrap_with_token env random i raw token_secret credential cipher {slot} bytes h =
    let seen = view-from_bytes env.mlock raw in
    let nonce = random.token_bytes i nonce_len in
    elim (Result-cases
      (encrypt env raw token_secret nonce (unlock_associated_data by_fido) cipher)) [
        | inl (e, bad) ↦ absurd (ground (arith, seen))
        | inr (sealed, encrypted) ↦
            let fields : KeyUnlockSlot = record {
              type = by_fido;
              wrapped_secret_b64 = b64encode sealed;
              nonce_b64 = b64encode nonce;
              kdf = none;
              fido = some credential;
              label = credential.label;
            } in
            let same_fields : slot ≡ fields =
              validate_unlock_slot-eq fields (ground (arith, seen)) in
            let bounded : within 1 max_key_secret_len (length raw) ≡ true = ground (arith, seen) in
            rw same_fields (
              ground (
                arith,
                seen,
                bounded,
                decrypt-encrypt env raw token_secret nonce _ cipher encrypted,
                decoded-b64encode sealed (encrypt-IsBytes env raw _ _ _ cipher encrypted bytes),
                decoded-b64encode nonce (random.token_bytes-IsBytes i nonce_len),
              ))
      ]

-- If a secret of bytes is wrapped under a passphrase without an error, then the slot unwraps under
-- the same passphrase, parameters and cipher to a buffer with the same secret.
pub unwrap_secret-wrap_secret :
    (env : Environment) (random : Entropy) (i : ℕ) (raw : Bytes) (pw : SecureBytes)
    (params : KdfParams) (label : Text) (cipher : CipherAlgorithm) {slot : KeyUnlockSlot}
    → IsBytes raw
    → wrap_secret_with_passphrase env random i (from_bytes env.mlock raw) pw params label cipher
      ≡ ok slot
    → unwrap_secret_with_passphrase env slot pw params cipher ≡ ok (from_bytes env.mlock raw)
unfolding wrap_secret_with_passphrase unwrap_secret_with_passphrase check_secret secret_from_bytes
    generate_nonce generate_salt
unwrap_secret-wrap_secret env random i raw pw params label cipher {slot} bytes h =
    let seen = view-from_bytes env.mlock raw in
    let sized : (from_bytes env.mlock raw).size ≡ length raw = unfold from_bytes in refl in
    let salt = random.token_bytes i params.salt_len in
    let nonce = random.token_bytes (i + 1) nonce_len in
    elim (Result-cases (derive_key env pw salt params)) [
      | inl (e, bad) ↦ absurd (ground (arith, seen))
      | inr (slot_key, made) ↦
          elim (Result-cases
            (encrypt env raw slot_key nonce (unlock_associated_data by_passphrase) cipher)) [
              | inl (e, bad) ↦ absurd (ground (arith, seen))
              | inr (sealed, encrypted) ↦ elim (Result-cases (from_params params salt)) [
                | inl (e, bad) ↦ absurd (ground (arith, seen))
                | inr (kdf, built) ↦
                    let fields : KeyUnlockSlot = record {
                      type = by_passphrase;
                      wrapped_secret_b64 = b64encode sealed;
                      nonce_b64 = b64encode nonce;
                      kdf = some kdf;
                      fido = none;
                      label = label;
                    } in
                    let same_fields : slot ≡ fields =
                      validate_unlock_slot-eq fields (ground (arith, seen)) in
                    let bounded : within 1 max_key_secret_len (length raw) ≡ true =
                      ground (arith, seen, sized) in
                    let salted : decoded kdf.salt_b64 ≡ ok salt =
                      rw (from_params_inv params salt built)
                        (decoded-b64encode salt (random.token_bytes-IsBytes i params.salt_len)) in
                    rw same_fields (
                      ground (
                        arith,
                        bounded,
                        salted,
                        made,
                        decrypt-encrypt env raw slot_key nonce _ cipher encrypted,
                        decoded-b64encode sealed
                            (encrypt-IsBytes env raw _ _ _ cipher encrypted bytes),
                        decoded-b64encode nonce (random.token_bytes-IsBytes (i + 1) nonce_len),
                      ))
              ]
            ]
    ]
