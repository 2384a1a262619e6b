-- ===== src/Vault/Format/RoundTrip.antt =====
-- A frame that `pack` wrote is read back.
use gpg_meister.Base.{[], ap, arith, length, ok, refl, ◌<◌, ◌∷◌, ◌≡◌, ◌≤◌}
use gpg_meister.Model.VaultHeader.{VaultHeader, validate_header}
use gpg_meister.Model.VaultHeader.Shape.{validate_header_idem, validate_header_lem}
use gpg_meister.Python.{Bytes}
use gpg_meister.Python.Struct.{pack_u32}
use gpg_meister.Security.Environment.{Environment}
use gpg_meister.Vault.Format.{max_ciphertext_size, max_header_size, pack, parse_header, unpack}
use gpg_meister.Vault.Format.Read.{unpack-frame_bytes}
use gpg_meister.Vault.Format.Windows.{frame_bytes}

-- What `pack` returns when it does not raise.
pub pack_inv :
    (env : Environment) (h : VaultHeader) (ct : Bytes) {frame hb : Bytes}
    → pack env h ct ≡ ok (frame, hb)
    → (hb ≡ env.header_json h)
      × (frame ≡ frame_bytes h.version hb ct)
      × (length hb ≤ max_header_size)
      × (length ct ≤ max_ciphertext_size)
unfolding pack frame_bytes pack_u32
pack_inv env h ct packed = ground arith

-- The JSON of a valid header is not empty.
pub header_json_nonempty :
    (env : Environment) (h : VaultHeader)
    → validate_header h ≡ ok h
    → 0 < length (env.header_json h)
header_json_nonempty env h valid = nonempty (env.header_json h) refl
  where
    nonempty : (hb : Bytes) → env.header_json h ≡ hb → 0 < length hb
    nonempty [] e =
        absurd (cc (ap env.read_header e, env.read_header-header_json h valid, env.read_header-nil))
    nonempty (b ∷ hb) e = omega arith

-- The JSON of a header that passes its validators unchanged parses as that header.
pub parse_header-header_json :
    (env : Environment) (h : VaultHeader)
    → validate_header h ≡ ok h
    → parse_header env (env.header_json h) ≡ ok h
unfolding parse_header
parse_header-header_json env h valid = ground (arith, env.read_header-header_json h valid)

-- If a header was built by its constructor, the ciphertext is not empty and `pack` does not raise,
-- then `unpack` of the frame returns that header, the header bytes that `pack` returned (the
-- associated data), and the ciphertext.
pub unpack-pack :
    (env : Environment) (fields h : VaultHeader) (ct : Bytes) {frame hb : Bytes}
    → validate_header fields ≡ ok h
    → 0 < length ct
    → pack env h ct ≡ ok (frame, hb)
    → unpack env frame ≡ ok (record { header = h; header_bytes = hb; ciphertext = ct })
unpack-pack env fields h ct built c0 packed =
    let (e, f, hl, cl) = pack_inv env h ct packed in
    rw f (
      unpack-frame_bytes env h h.version _ ct (validate_header_lem fields built).supported refl
        (rw e (parse_header-header_json env h (validate_header_idem fields built)))
        (rw e (header_json_nonempty env h (validate_header_idem fields built))) hl c0 cl)
