-- ===== src/Security/Entropy.antt =====
-- The system's random numbers: `secrets.token_bytes`, as a function of the number of the call and
-- of the size that is asked for.
use gpg_meister.Base.{length, ℕ, ◌≡◌}
use gpg_meister.Python.{Bytes, IsBytes}

pub record Entropy : Type 0 where
  pub token_bytes : ℕ → ℕ → Bytes
  pub length-token_bytes : (i n : ℕ) → length (token_bytes i n) ≡ n
  pub token_bytes-IsBytes : (i n : ℕ) → IsBytes (token_bytes i n)
