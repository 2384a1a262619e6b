-- ===== src/Vault/Format/Read.antt =====
-- Reading a frame that was laid out as `frame_bytes` lays it out.
use gpg_meister.Base.{
  ap, arith, contains, length, ok, refl, slice, true, ℕ, ◌+◌, ◌<◌, ◌∙◌, ◌≡◌, ◌≤◌,
}
use gpg_meister.Model.VaultHeader.{VaultHeader, supported_vault_versions}
use gpg_meister.Python.{Bytes}
use gpg_meister.Python.Struct.{unpack_u32, unpack_u32-be32}
use gpg_meister.Security.Environment.{Environment}
use gpg_meister.Vault.Format.{
  byte_at, magic, max_ciphertext_size, max_header_size, parse_header, unpack, unpack_ciphertext,
}
use gpg_meister.Vault.Format.Windows.{
  ciphertext_window, frame_bytes, header_window, length-frame_bytes, length_window,
}

-- `unpack` on any bytes, from what its windows hold.
module _ (env : Environment) (bytes hb ct : Bytes) (h : VaultHeader) (v n m : ℕ)
    (magic_window : slice 0 4 bytes ≡ magic) (version_byte : byte_at 4 bytes ≡ ok v)
    (supported : contains v supported_vault_versions ≡ true)
    (header_len : unpack_u32 (slice 5 9 bytes) ≡ ok n) (header_bytes : slice 9 (9 + n) bytes ≡ hb)
    (parsed : parse_header env hb ≡ ok h) (same_version : h.version ≡ v)
    (ct_len : unpack_u32 (slice (9 + n) (9 + n + 4) bytes) ≡ ok m)
    (ct_bytes : slice (9 + n + 4) (9 + n + 4 + m) bytes ≡ ct) (total : length bytes ≡ 13 + n + m)
    (n0 : 0 < n) (n1 : n ≤ max_header_size) (m0 : 0 < m) (m1 : m ≤ max_ciphertext_size) where
  ciphertext_of_windows :
      unpack_ciphertext bytes h hb (9 + n)
      ≡ ok (record { header = h; header_bytes = hb; ciphertext = ct })
  unfolding unpack_ciphertext
  ciphertext_of_windows = ground arith

  unpack_of_windows :
      unpack env bytes ≡ ok (record { header = h; header_bytes = hb; ciphertext = ct })
  unfolding unpack
  unpack_of_windows = rw (magic_window, version_byte) (ground (arith, ciphertext_of_windows))

module _ (env : Environment) (h : VaultHeader) (v : ℕ) (hb ct : Bytes) where
  pub unpack-frame_bytes :
      contains v supported_vault_versions ≡ true
      → h.version ≡ v
      → parse_header env hb ≡ ok h
      → 0 < length hb
      → length hb ≤ max_header_size
      → 0 < length ct
      → length ct ≤ max_ciphertext_size
      → unpack env (frame_bytes v hb ct)
        ≡ ok (record { header = h; header_bytes = hb; ciphertext = ct })
  unfolding frame_bytes byte_at
  unpack-frame_bytes sv e p n0 n1 m0 m1 =
      unpack_of_windows env (frame_bytes v hb ct) hb ct h v (length hb) (length ct) refl refl sv
        (unpack_u32-be32 (length hb) (omega arith)) (header_window v hb ct) p e
        (ap unpack_u32 (length_window v hb ct) ∙ unpack_u32-be32 (length ct) (omega arith))
        (ciphertext_window v hb ct) (length-frame_bytes v hb ct) n0 n1 m0 m1
