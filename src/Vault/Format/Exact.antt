-- ===== src/Vault/Format/Exact.antt =====
-- What an accepted file looks like, byte for byte.
use gpg_meister.Base.{
  All-drop, All-take, Option-cases, Result-cases, ap, append-nil, ap₂, arith, contains, cut, drop,
  drop-all, drop-get_elem?, get_elem?, inl, inr, length, length-slice, ok, refl, same, same→eq,
  slice, some, true, ℕ, ◌++◌, ◌+◌, ◌-◌, ◌<◌, ◌^◌, ◌↔◌, ◌∙◌, ◌∷◌, ◌≡◌, ◌≤◌,
}
use gpg_meister.Model.VaultHeader.{VaultHeader, supported_vault_versions}
use gpg_meister.Python.{Bytes, IsBytes}
use gpg_meister.Python.Struct.{be32, unpack_u32, unpack_u32_total}
use gpg_meister.Security.Environment.{Environment}
use gpg_meister.Vault.Format.{
  UnpackedFrame, magic, max_ciphertext_size, max_header_size, parse_header, unpack,
  unpack_ciphertext,
}
use gpg_meister.Vault.Format.Read.{unpack-frame_bytes}
use gpg_meister.Vault.Format.Windows.{frame_bytes}

-- Four bytes of the file as a number.
pub window_u32 :
    (e : ℕ) (bytes : Bytes)
    → IsBytes bytes
    → e + 4 ≤ length bytes
    → (m : ℕ) × (unpack_u32 (slice e (e + 4) bytes) ≡ ok m)
      × (m < 2 ^ 32)
      × (slice e (e + 4) bytes ≡ be32 m)
window_u32 e bytes all_bytes fits =
    unpack_u32_total (slice e (e + 4) bytes) (length-slice e (e + 4) bytes (omega arith) fits ∙ k) (
      All-take (λ b. b < 256) (e + 4 - e) (drop e bytes)
        (All-drop (λ b. b < 256) e bytes all_bytes))
  where
    k : e + 4 - e ≡ 4
    k = omega arith

-- The second half of an accepted file.
ciphertext_inv :
    (bytes hb : Bytes) (h : VaultHeader) (e : ℕ) {f : UnpackedFrame}
    → IsBytes bytes
    → e + 4 ≤ length bytes
    → unpack_ciphertext bytes h hb e ≡ ok f
    → (m : ℕ) × (slice e (e + 4) bytes ≡ be32 m)
      × (0 < m)
      × (m ≤ max_ciphertext_size)
      × (length bytes ≡ e + 4 + m)
      × (f ≡ record { header = h; header_bytes = hb; ciphertext = slice (e + 4) (e + 4 + m) bytes })
unfolding unpack_ciphertext
ciphertext_inv bytes hb h e all_bytes fits accepted =
    let (m, em, lm, bm) = window_u32 e bytes all_bytes fits in
    (m, bm, ground arith, ground arith, ground arith, ground arith)

abbrev FrontOf : Environment → Bytes → UnpackedFrame → ℕ → ℕ → VaultHeader → Type 0
FrontOf env bytes f v n h =
    (slice 0 4 bytes ≡ magic)
    × (get_elem? bytes 4 ≡ some v)
    × (contains v supported_vault_versions ≡ true)
    × (slice 5 9 bytes ≡ be32 n)
    × (0 < n)
    × (n ≤ max_header_size)
    × (9 + n + 4 ≤ length bytes)
    × (parse_header env (slice 9 (9 + n) bytes) ≡ ok h)
    × (h.version ≡ v)
    × (unpack_ciphertext bytes h (slice 9 (9 + n) bytes) (9 + n) ≡ ok f)

long_enough :
    (env : Environment) (bytes : Bytes) {f : UnpackedFrame}
    → unpack env bytes ≡ ok f
    → (13 ≤ length bytes) × (same (slice 0 4 bytes) magic ≡ true)
unfolding unpack
long_enough env bytes accepted = ground arith

-- The first half of an accepted file.
front_inv :
    (env : Environment) (bytes : Bytes) {f : UnpackedFrame}
    → IsBytes bytes
    → unpack env bytes ≡ ok f
    → (v n : ℕ) × (h : VaultHeader) × FrontOf env bytes f v n h
unfolding unpack
front_inv env bytes {f} all_bytes accepted =
    let (long, magical) = long_enough env bytes accepted in
    let (n, en, ln, bn) = window_u32 5 bytes all_bytes (omega arith) in
    elim (Option-cases (get_elem? bytes 4)) [
      | inl e ↦ absurd (ground arith)
      | inr (v, ev) ↦ elim (Result-cases (parse_header env (slice 9 (9 + n) bytes))) [
        | inl (e, eh) ↦ absurd (ground arith)
        | inr (h, eh) ↦ (
          v,
          n,
          h,
          (
            same→eq _ _ magical,
            ev,
            ground arith,
            bn,
            ground arith,
            ground arith,
            ground arith,
            eh,
            ground arith,
            ground arith,
          ),
        )
      ]
    ]

-- The file is the frame of the four parts.
glue :
    (bytes : Bytes) (v n m : ℕ)
    → slice 0 4 bytes ≡ magic
    → get_elem? bytes 4 ≡ some v
    → slice 5 9 bytes ≡ be32 n
    → slice (9 + n) (9 + n + 4) bytes ≡ be32 m
    → length bytes ≡ 9 + n + 4 + m
    → bytes ≡ frame_bytes v (slice 9 (9 + n) bytes) (slice (9 + n + 4) (9 + n + 4 + m) bytes)
unfolding frame_bytes
glue bytes v n m e0 e1 e2 e3 total =
    rw (length_hb, length_ct)
      (cut 0 4 bytes (omega arith)
        ∙ ap₂ (λ s t. s ++ t) e0
            (drop-get_elem? 4 bytes e1
              ∙ ap (λ t. v ∷ t)
                  (cut 5 9 bytes (omega arith)
                    ∙ ap₂ (λ s t. s ++ t) e2
                        (cut 9 (9 + n) bytes (omega arith)
                          ∙ ap (λ t. slice 9 (9 + n) bytes ++ t) rest))))
  where
    length_hb : length (slice 9 (9 + n) bytes) ≡ n
    length_hb = omega (arith, length-slice 9 (9 + n) bytes (omega arith) (omega arith))

    length_ct : length (slice (9 + n + 4) (9 + n + 4 + m) bytes) ≡ m
    length_ct =
        omega (arith, length-slice (9 + n + 4) (9 + n + 4 + m) bytes (omega arith) (omega arith))

    rest : drop (9 + n) bytes ≡ be32 m ++ slice (9 + n + 4) (9 + n + 4 + m) bytes
    rest =
        cut (9 + n) (9 + n + 4) bytes (omega arith)
        ∙ ap₂ (λ s t. s ++ t) e3
            (cut (9 + n + 4) (9 + n + 4 + m) bytes (omega arith)
              ∙ (ap (λ t. slice (9 + n + 4) (9 + n + 4 + m) bytes ++ t)
                    (drop-all (9 + n + 4 + m) bytes (omega arith))
                  ∙ append-nil _))

-- What a frame must be to be accepted: its version is supported and is its header's, the header
-- window is the header's JSON, and both lengths are in range.
pub record IsFrame (env : Environment) (bytes : Bytes) (f : UnpackedFrame) : Type 0 where
  pub layout : bytes ≡ frame_bytes f.header.version f.header_bytes f.ciphertext
  pub supported : contains f.header.version supported_vault_versions ≡ true
  pub parsed : parse_header env f.header_bytes ≡ ok f.header
  pub header_nonempty : 0 < length f.header_bytes
  pub header_fits : length f.header_bytes ≤ max_header_size
  pub ciphertext_nonempty : 0 < length f.ciphertext
  pub ciphertext_fits : length f.ciphertext ≤ max_ciphertext_size

unpack-IsFrame :
    (env : Environment) (bytes : Bytes) (f : UnpackedFrame)
    → IsBytes bytes
    → unpack env bytes ≡ ok f
    → IsFrame env bytes f
unpack-IsFrame env bytes f all_bytes accepted =
    let (v, n, h, (e0, e1, e2, e3, e4, e5, e6, e7, e8, e9)) =
      front_inv env bytes all_bytes accepted in
    let (m, l0, l1, l2, l3, l4) =
      ciphertext_inv bytes (slice 9 (9 + n) bytes) h (9 + n) all_bytes e6 e9 in
    let a : 9 ≤ 9 + n = omega arith in
    let b : 9 + n ≤ length bytes = omega arith in
    let c : 9 + n + 4 ≤ 9 + n + 4 + m = omega arith in
    let d : 9 + n + 4 + m ≤ length bytes = omega arith in
    rw l4 (record {
      layout = rw e8 (glue bytes v n m e0 e1 e3 l0 l3);
      supported = rw e8 e2;
      parsed = e7;
      header_nonempty = omega (arith, length-slice 9 (9 + n) bytes a b);
      header_fits = omega (arith, length-slice 9 (9 + n) bytes a b);
      ciphertext_nonempty = omega (arith, length-slice (9 + n + 4) (9 + n + 4 + m) bytes c d);
      ciphertext_fits = omega (arith, length-slice (9 + n + 4) (9 + n + 4 + m) bytes c d);
    })

IsFrame-unpack :
    (env : Environment) (bytes : Bytes) (f : UnpackedFrame)
    → IsFrame env bytes f
    → unpack env bytes ≡ ok f
IsFrame-unpack env bytes f i = rw (i.layout) (
    unpack-frame_bytes env f.header f.header.version f.header_bytes f.ciphertext i.supported refl
      i.parsed i.header_nonempty i.header_fits i.ciphertext_nonempty i.ciphertext_fits)

-- `unpack` accepts a byte string exactly when it is a frame, and returns that frame's parts: every
-- byte is accounted for, with no slack and nothing behind the ciphertext.
pub unpack_exact :
    (env : Environment) (bytes : Bytes) (f : UnpackedFrame)
    → IsBytes bytes
    → (unpack env bytes ≡ ok f) ↔ IsFrame env bytes f
unpack_exact env bytes f all_bytes =
    (unpack-IsFrame env bytes f all_bytes, IsFrame-unpack env bytes f)
