-- ===== src/Security/Kdf.antt =====
-- security/kdf.py: Argon2id key derivation. The bytes of `secrets.token_bytes(n)` are an argument,
-- the function `token_bytes`, at each call that draws some.
use gpg_meister.Base.{
  Option, Option-cases, Result, Result-cases, arith, err, false, inl, inr, kdf_error, length, ltb,
  none, not, ok, raise_if, some, take, within, ℕ, ◌==◌, ◌>>=◌, ◌>>◌, ◌≡◌, ◌≤◌,
}
use gpg_meister.Model.KdfParams.{
  KdfParams, max_hash_len, max_memory_cost_kb, max_parallelism, max_salt_len, max_time_cost,
  min_hash_len, min_memory_cost_kb, min_salt_len, min_time_cost,
}
use gpg_meister.Python.{Bytes}
use gpg_meister.Security.Buffers.{SecureBytes, from_bytes, view}
use gpg_meister.Security.Environment.{Environment}

unfoldable pub generate_salt : (ℕ → Bytes) → ℕ → Result Bytes
generate_salt token_bytes n = do
  raise_if (ltb n min_salt_len) (kdf_error "salt length is below the floor")
  ok (token_bytes n)

-- The test of the algorithm cannot fail: there is one.
unfoldable pub validate_params : KdfParams → Result (Unit {0})
validate_params p = do
  raise_if (not (within min_time_cost max_time_cost p.time_cost)) (kdf_error "time_cost outside")
  raise_if (not (within min_memory_cost_kb max_memory_cost_kb p.memory_cost))
      (kdf_error "memory_cost outside")
  raise_if (not (within 1 max_parallelism p.parallelism)) (kdf_error "parallelism outside")
  raise_if (not (within min_hash_len max_hash_len p.hash_len)) (kdf_error "hash_len outside")
  raise_if (not (within min_salt_len max_salt_len p.salt_len)) (kdf_error "salt_len outside")

or_kdf_error : Option Bytes → Result Bytes
or_kdf_error none = err (kdf_error "argon2id failed")
or_kdf_error (some raw) = ok raw

-- The second attempt after a `TypeError` calls argon2 on a copy of the same bytes.
unfoldable pub derive_key : Environment → SecureBytes → Bytes → KdfParams → Result SecureBytes
unfolding validate_params or_kdf_error
derive_key env pw salt p = do
  validate_params p
  raise_if (not (length salt == p.salt_len)) (kdf_error "salt length does not match")
  raise_if pw.closed (kdf_error "passphrase SecureBytes is closed")
  secret ← view pw
  raw ← or_kdf_error (env.argon2 secret salt p.time_cost p.memory_cost p.parallelism p.hash_len)
  ok (from_bytes env.mlock raw)

-- The bounds of the parameters, those of models/kdf_params.py.
pub record IsBounded (p : KdfParams) : Type 0 where
  pub time : (2 ≤ p.time_cost) × (p.time_cost ≤ 20)
  pub memory : (19_456 ≤ p.memory_cost) × (p.memory_cost ≤ 2_097_152)
  pub lanes : (1 ≤ p.parallelism) × (p.parallelism ≤ 64)
  pub key_size : (32 ≤ p.hash_len) × (p.hash_len ≤ 64)
  pub salt_size : (16 ≤ p.salt_len) × (p.salt_len ≤ 64)

validate_params-IsBounded : (p : KdfParams) → validate_params p ≡ ok tt → IsBounded p
unfolding validate_params
validate_params-IsBounded p h = record {
  time = ground arith;
  memory = ground arith;
  lanes = ground arith;
  key_size = ground arith;
  salt_size = ground arith;
}

-- What `derive_key` does once the parameters are known to be valid.
validated :
    (env : Environment) (pw : SecureBytes) (salt : Bytes) (p : KdfParams) {key : SecureBytes}
    → derive_key env pw salt p ≡ ok key
    → validate_params p ≡ ok tt
unfolding derive_key
validated env pw salt p h = elim (Result-cases (validate_params p)) [
  | inl (e, bad) ↦ absurd (ground (arith, bad))
  | inr (u, good) ↦ good
]

-- If a key is derived, then every parameter was within its bounds, the salt had the length that
-- the parameters name and the passphrase was open; the key is open and has the length that was
-- asked for.
pub derive_key_inv :
    (env : Environment) (pw : SecureBytes) (salt : Bytes) (p : KdfParams) {key : SecureBytes}
    → derive_key env pw salt p ≡ ok key
    → (key.size ≡ p.hash_len)
      × (key.closed ≡ false)
      × (length salt ≡ p.salt_len)
      × (pw.closed ≡ false)
      × IsBounded p
unfolding derive_key from_bytes view
derive_key_inv env pw salt p {key} h =
    let (size, opened, salted, given) = made in
    (size, opened, salted, given, validate_params-IsBounded p (validated env pw salt p h))
  where
    made :
        (key.size ≡ p.hash_len)
        × (key.closed ≡ false)
        × (length salt ≡ p.salt_len)
        × (pw.closed ≡ false)
    made =
        elim (Option-cases (
          env.argon2 (take pw.size pw.buffer) salt p.time_cost p.memory_cost p.parallelism
            p.hash_len)) [
              | inl e ↦ ground arith
              | inr (raw, e) ↦ ground (
                arith,
                env.length-argon2 (take pw.size pw.buffer) salt p.time_cost p.memory_cost
                    p.parallelism p.hash_len raw e,
              )
            ]
