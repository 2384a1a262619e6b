-- ===== src/Vault/Format/Windows.antt =====
-- The layout of a frame, and the windows that `unpack` cuts out of it.
use gpg_meister.Base.{
  ap, arith, drop, drop-append, drop-drop, length, length-append, slice, sym, take, take-all,
  take-append, ℕ, ◌++◌, ◌+◌, ◌-◌, ◌∙◌, ◌∷◌, ◌≡◌,
}
use gpg_meister.Python.{Bytes}
use gpg_meister.Python.Struct.{be32}
use gpg_meister.Vault.Format.{magic}

-- Magic, version, header length, header, ciphertext length, ciphertext.
unfoldable pub frame_bytes : ℕ → Bytes → Bytes → Bytes
frame_bytes version header_bytes ciphertext =
    magic
    ++ (version
        ∷ (be32 (length header_bytes)
            ++ (header_bytes ++ (be32 (length ciphertext) ++ ciphertext))))

module _ (v : ℕ) (hb ct : Bytes) where
  pub length-frame_bytes : length (frame_bytes v hb ct) ≡ 13 + length hb + length ct
  unfolding frame_bytes
  length-frame_bytes = omega (arith, length-append hb (be32 (length ct) ++ ct))

  -- the header window starts at 9
  pub header_window : slice 9 (9 + length hb) (frame_bytes v hb ct) ≡ hb
  unfolding frame_bytes
  header_window =
      ap (λ n. take n (hb ++ (be32 (length ct) ++ ct))) e ∙ take-append hb (be32 (length ct) ++ ct)
    where
      e : 9 + length hb - 9 ≡ length hb
      e = omega arith

  behind_header : drop (9 + length hb) (frame_bytes v hb ct) ≡ be32 (length ct) ++ ct
  unfolding frame_bytes
  behind_header =
      sym (drop-drop 9 (length hb) (frame_bytes v hb ct)) ∙ drop-append hb (be32 (length ct) ++ ct)

  pub length_window :
      slice (9 + length hb) (9 + length hb + 4) (frame_bytes v hb ct) ≡ be32 (length ct)
  length_window =
      ap (λ n. take n (drop (9 + length hb) (frame_bytes v hb ct))) e
      ∙ ap (λ t. take 4 t) behind_header
    where
      e : 9 + length hb + 4 - (9 + length hb) ≡ 4
      e = omega arith

  pub ciphertext_window :
      slice (9 + length hb + 4) (9 + length hb + 4 + length ct) (frame_bytes v hb ct) ≡ ct
  ciphertext_window =
      ap (λ n. take n (drop (9 + length hb + 4) (frame_bytes v hb ct))) e
      ∙ (ap (λ t. take (length ct) t)
            (sym (drop-drop (9 + length hb) 4 (frame_bytes v hb ct))
              ∙ ap (λ t. drop 4 t) behind_header)
          ∙ take-all ct)
    where
      e : 9 + length hb + 4 + length ct - (9 + length hb + 4) ≡ length ct
      e = omega arith
