-- ===== src/Vault/Payload/Walk.antt =====
-- Reading at a position of the stream: what stands behind it.
use gpg_meister.Base.{
  ap, arith, drop, drop-append, drop-drop, ge→ltb, length, length-append, ok, refl, slice, sym,
  take, take-append, ℕ, ◌++◌, ◌+◌, ◌-◌, ◌<◌, ◌^◌, ◌∙◌, ◌≡◌, ◌≤◌,
}
use gpg_meister.Python.{Bytes}
use gpg_meister.Python.Struct.{be32, unpack_u32-be32}
use gpg_meister.Vault.Payload.{read_u32}

-- Behind `offset` the stream holds exactly `rest`.
pub record At (stream : Bytes) (offset : ℕ) (rest : Bytes) : Type 0 where
  pub behind : drop offset stream ≡ rest
  pub total : length stream ≡ offset + length rest

pub At-start : (stream : Bytes) → At stream 0 stream
At-start stream = record { behind = refl; total = omega arith }

module _ {stream : Bytes} {offset : ℕ} where
  pub At-step : (a rest : Bytes) → At stream offset (a ++ rest) → At stream (offset + length a) rest
  At-step a rest h = record {
    behind =
        sym (drop-drop offset (length a) stream)
        ∙ (ap (λ t. drop (length a) t) h.behind ∙ drop-append a rest);
    total = omega (arith, length-append a rest, h.total);
  }

  pub At-slice :
      (a rest : Bytes) → At stream offset (a ++ rest) → slice offset (offset + length a) stream ≡ a
  At-slice a rest h =
      ap (λ n. take n (drop offset stream)) e
      ∙ (ap (λ t. take (length a) t) h.behind ∙ take-append a rest)
    where
      e : offset + length a - offset ≡ length a
      e = omega arith

  pub read_u32-At :
      (n : ℕ) (rest : Bytes)
      → n < 2 ^ 32
      → At stream offset (be32 n ++ rest)
      → read_u32 stream offset ≡ ok (n, offset + 4)
  unfolding read_u32
  read_u32-At n rest small h =
      let e : slice offset (offset + 4) stream ≡ be32 n = At-slice (be32 n) rest h in
      let long : offset + 4 ≤ length stream = omega (arith, h.total) in
      rw (ge→ltb (length stream) (offset + 4) long, e, unpack_u32-be32 n small) refl
