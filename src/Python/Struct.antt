-- ===== src/Python/Struct.antt =====
-- `struct.pack(">I", n)` and `struct.unpack(">I", b)`: 32-bit big-endian integers.
use gpg_meister.Base.{
  List, Result, [], arith, err, if◌then◌else◌, length, ltb, lt→ltb, ok, refl, struct_error, ℕ, ◌%◌,
  ◌*◌, ◌+◌, ◌/◌, ◌<◌, ◌^◌, ◌∷◌, ◌≡◌,
}
use gpg_meister.Python.{IsBytes}

-- The four bytes of `n`, most significant first.
abbrev pub be32 : ℕ → List ℕ
be32 n = n / 2 ^ 24 ∷ n / 2 ^ 16 % 256 ∷ n / 2 ^ 8 % 256 ∷ n % 256 ∷ []

unfoldable pub pack_u32 : ℕ → Result (List ℕ)
pack_u32 n = if ltb n (2 ^ 32) then ok (be32 n) else err (struct_error "argument out of range")

-- `unpack` wants a buffer of exactly four bytes.
unfoldable pub unpack_u32 : List ℕ → Result ℕ
unpack_u32 (a ∷ b ∷ c ∷ d ∷ []) = ok (((a * 256 + b) * 256 + c) * 256 + d)
unpack_u32 _ = err (struct_error "unpack requires a buffer of 4 bytes")

pub pack_u32-eq-ok : (n : ℕ) → n < 2 ^ 32 → pack_u32 n ≡ ok (be32 n)
unfolding pack_u32
pack_u32-eq-ok n h = rw (lt→ltb _ _ h)

pub pack_u32_inv : (n : ℕ) {b : List ℕ} → pack_u32 n ≡ ok b → (n < 2 ^ 32) × (b ≡ be32 n)
unfolding pack_u32
pack_u32_inv n h = ground arith

pub unpack_u32-be32 : (n : ℕ) → n < 2 ^ 32 → unpack_u32 (be32 n) ≡ ok n
unfolding unpack_u32
unpack_u32-be32 n h = ground arith

-- Four bytes always unpack, to a number that packs into the same four bytes.
pub unpack_u32_total :
    (b : List ℕ)
    → length b ≡ 4
    → IsBytes b
    → (n : ℕ) × (unpack_u32 b ≡ ok n) × (n < 2 ^ 32) × (b ≡ be32 n)
unfolding unpack_u32
unpack_u32_total [] h k = absurd (omega arith)
unpack_u32_total (a ∷ []) h k = absurd (omega arith)
unpack_u32_total (a ∷ b ∷ []) h k = absurd (omega arith)
unpack_u32_total (a ∷ b ∷ c ∷ []) h k = absurd (omega arith)
unpack_u32_total (a ∷ b ∷ c ∷ d ∷ []) h k =
    (((a * 256 + b) * 256 + c) * 256 + d, refl, ground arith, ground arith)
unpack_u32_total (a ∷ b ∷ c ∷ d ∷ e ∷ r) h k = absurd (omega arith)
