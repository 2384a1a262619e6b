-- ===== src/Vault/Payload/Segment.antt =====
-- One key of the stream is read back.
use gpg_meister.Base.{
  arith, length, ok, same, same_self, slice, subst, true, ℕ, ◌++◌, ◌+◌, ◌<◌, ◌≡◌, ◌≤◌,
}
use gpg_meister.Model.Manifest.{VaultKeyEntry, max_vault_armor_length}
use gpg_meister.Python.{Bytes}
use gpg_meister.Python.Hex.{hex_upper}
use gpg_meister.Python.Struct.{be32}
use gpg_meister.Vault.Payload.{KeySlice, read_key_slice, read_u32}
use gpg_meister.Vault.Payload.Walk.{At, At-slice, At-step, read_u32-At}

-- One key's part of the stream, with what follows it.
abbrev pub segment : Bytes → Bytes → Bytes → Bytes → Bytes
segment raw public private rest =
    raw ++ (be32 (length public) ++ (public ++ (be32 (length private) ++ (private ++ rest))))

abbrev pub slice_at : ℕ → Bytes → Bytes → KeySlice
slice_at offset public private = record {
  public_start = offset + 20 + 4;
  public_end = offset + 20 + 4 + length public;
  private_start = offset + 20 + 4 + length public + 4;
  private_end = offset + 20 + 4 + length public + 4 + length private;
}

module _ {stream : Bytes} {offset : ℕ} (raw public private rest : Bytes)
    (length_raw : length raw ≡ 20) (here : At stream offset (segment raw public private rest)) where
  behind_fingerprint :
      At stream
        (offset + 20)
        (be32 (length public) ++ (public ++ (be32 (length private) ++ (private ++ rest))))
  behind_fingerprint =
      subst
        (λ n.
          At stream (offset + n)
            (be32 (length public) ++ (public ++ (be32 (length private) ++ (private ++ rest)))))
        length_raw (At-step raw _ here)

  behind_public :
      At stream (offset + 20 + 4 + length public) (be32 (length private) ++ (private ++ rest))
  behind_public = At-step public _ (At-step (be32 (length public)) _ behind_fingerprint)

  At-private : At stream (offset + 20 + 4 + length public + 4) (private ++ rest)
  At-private = At-step (be32 (length private)) _ behind_public

  pub behind_segment : At stream (offset + 20 + 4 + length public + 4 + length private) rest
  behind_segment = At-step private rest At-private

  pub public_part : slice (offset + 20 + 4) (offset + 20 + 4 + length public) stream ≡ public
  public_part = At-slice public _ (At-step (be32 (length public)) _ behind_fingerprint)

  pub private_part :
      slice
        (offset + 20 + 4 + length public + 4)
        (offset + 20 + 4 + length public + 4 + length private)
        stream
      ≡ private
  private_part = At-slice private rest At-private

  pub read_segment :
      (entry : VaultKeyEntry)
      → hex_upper raw ≡ entry.fingerprint
      → 0 < length public
      → length public ≤ max_vault_armor_length
      → length private ≤ max_vault_armor_length
      → (entry.has_private_key ≡ true → 0 < length private)
      → read_key_slice stream offset entry
        ≡ ok (slice_at offset public private, offset + 20 + 4 + length public + 4 + length private)
  unfolding read_key_slice
  read_segment entry fpr p0 p1 q1 agrees =
      let window : slice offset (offset + 20) stream ≡ raw =
        subst (λ n. slice offset (offset + n) stream ≡ raw) length_raw (At-slice raw _ here) in
      let same_fpr : same (hex_upper (slice offset (offset + 20) stream)) entry.fingerprint ≡ true =
        rw (window, fpr) (same_self entry.fingerprint) in
      let read_public : read_u32 stream (offset + 20) ≡ ok (length public, offset + 20 + 4) =
        read_u32-At (length public) _ (omega arith) behind_fingerprint in
      let read_private : read_u32 stream (offset + 20 + 4 + length public)
          ≡ ok (length private, offset + 20 + 4 + length public + 4) =
        read_u32-At (length private) _ (omega arith) behind_public in
      let total = behind_segment.total in ground arith
