-- ===== src/Vault/Open/Frames.antt =====
-- A frame that was sealed decrypts under its key.
-- What a sealed frame is.
use gpg_meister.Base.{Result-cases, [], arith, inl, inr, ok, refl, ◌≡◌}
use gpg_meister.Model.Fields.{CipherAlgorithm, decoded}
use gpg_meister.Model.VaultHeader.{VaultHeader, validate_header}
use gpg_meister.Python.{Bytes}
use gpg_meister.Security.Aead.{decrypt-encrypt, encrypt}
use gpg_meister.Security.Buffers.{SecureBytes}
use gpg_meister.Security.Environment.{Environment}
use gpg_meister.Vault.Encrypt.{seal_frame}
use gpg_meister.Vault.Format.{pack, unpack}
use gpg_meister.Vault.Format.RoundTrip.{pack_inv, unpack-pack}
use gpg_meister.Vault.KeySlots.RoundTrip.{length-encrypt}
use gpg_meister.Vault.Open.{and_then, decrypt_with, record_failure}

pub record Sealed (env : Environment) (h : VaultHeader) (plaintext : Bytes) (key : SecureBytes)
    (nonce : Bytes) (cipher : CipherAlgorithm) (frame : Bytes) : Type 0 where
  pub header_bytes : Bytes
  pub ciphertext : Bytes
  pub encrypted : encrypt env plaintext key nonce header_bytes cipher ≡ ok ciphertext
  pub packed : pack env h ciphertext ≡ ok (frame, header_bytes)

pub seal_frame_inv :
    (env : Environment) (h : VaultHeader) (plaintext : Bytes) (key : SecureBytes) (nonce : Bytes)
    (cipher : CipherAlgorithm) {frame : Bytes}
    → seal_frame env h plaintext key nonce cipher ≡ ok frame
    → Sealed env h plaintext key nonce cipher frame
unfolding seal_frame
seal_frame_inv env h plaintext key nonce cipher {frame} done = elim (Result-cases (pack env h [])) [
  | inl (e, bad) ↦ absurd (ground arith)
  | inr ((empty_frame, hb), first) ↦
      elim (Result-cases (encrypt env plaintext key nonce hb cipher)) [
        | inl (e, bad) ↦ absurd (ground arith)
        | inr (ct, sealed) ↦ elim (Result-cases (pack env h ct)) [
          | inl (e, bad) ↦ absurd (ground arith)
          | inr ((whole, same_bytes), second) ↦ record {
            header_bytes = hb;
            ciphertext = ct;
            encrypted = sealed;
            packed =
                let e : same_bytes ≡ hb =
                  cc ((pack_inv env h ct second).0, (pack_inv env h [] first).0) in
                ground (arith, e);
          }
        ]
      ]
]

pub unpack-Sealed :
    (env : Environment) (fields h : VaultHeader) (plaintext : Bytes) (key : SecureBytes)
    (nonce : Bytes) (cipher : CipherAlgorithm) {frame : Bytes}
    → validate_header fields ≡ ok h
    → (s : Sealed env h plaintext key nonce cipher frame)
    → unpack env frame
      ≡ ok (record { header = h; header_bytes = s.header_bytes; ciphertext = s.ciphertext })
unpack-Sealed env fields h plaintext key nonce cipher built s =
    unpack-pack env fields h s.ciphertext built
      (omega (arith, length-encrypt env plaintext key nonce s.header_bytes cipher s.encrypted))
      s.packed

pub decrypt_with-Sealed :
    (env : Environment) (h : VaultHeader) (plaintext : Bytes) (key : SecureBytes) (nonce : Bytes)
    {frame : Bytes}
    → decoded h.cipher.nonce_b64 ≡ ok nonce
    → (s : Sealed env h plaintext key nonce h.cipher.algorithm frame)
    → decrypt_with env
        (record { header = h; header_bytes = s.header_bytes; ciphertext = s.ciphertext })
        key
      ≡ ([], ok plaintext)
unfolding decrypt_with record_failure and_then
decrypt_with-Sealed env h plaintext key nonce read s =
    rw (read, decrypt-encrypt env plaintext key nonce s.header_bytes h.cipher.algorithm s.encrypted)
      refl
