-- ===== src/Vault/Open/Limits.antt =====
-- The limits on the key derivation of an untrusted vault.
-- The parameters that a vault may ask for at an import.
use gpg_meister.Base.{Result, Result-cases, arith, err, inl, inr, ok, refl, some, ◌↔◌, ◌≡◌, ◌≤◌}
use gpg_meister.Model.Fields.{CipherAlgorithm, KdfFields, decoded, to_params}
use gpg_meister.Model.KdfParams.{
  KdfParams, max_import_memory_cost_kb, max_import_parallelism, max_import_time_cost,
  min_memory_cost_kb, min_time_cost,
}
use gpg_meister.Model.KeySlot.{VaultKeySlot}
use gpg_meister.Security.Buffers.{SecureBytes}
use gpg_meister.Security.Environment.{Environment}
use gpg_meister.Security.Kdf.{derive_key, derive_key_inv}
use gpg_meister.Vault.Open.{derived_key, key_opened, outcome_of, try_params, validate_import_kdf}

pub record InLimits (p : KdfParams) : Type 0 where
  pub time_floor : min_time_cost ≤ p.time_cost
  pub time_limit : p.time_cost ≤ max_import_time_cost
  pub memory_floor : min_memory_cost_kb ≤ p.memory_cost
  pub memory_limit : p.memory_cost ≤ max_import_memory_cost_kb
  pub parallelism_limit : p.parallelism ≤ max_import_parallelism

-- The check passes exactly the parameters within the limits.
pub validate_import_kdf_lem : (p : KdfParams) → validate_import_kdf p ≡ ok tt ↔ InLimits p
unfolding validate_import_kdf
validate_import_kdf_lem p = (
  λ h. record {
    time_floor = ground arith;
    time_limit = ground arith;
    memory_floor = ground arith;
    memory_limit = ground arith;
    parallelism_limit = ground arith;
  },
  λ l.
      ground
        (arith, l.time_floor, l.time_limit, l.memory_floor, l.memory_limit, l.parallelism_limit),
)

-- If the header of a version 2 vault yields a key, then the parameters that it names were within
-- the limits, and the key has the length that it names.
pub derived_key-InLimits :
    (env : Environment) (k : KdfFields) (pw : SecureBytes) {key : SecureBytes}
    → derived_key env (some k) (some pw) ≡ ok key
    → (p : KdfParams) × (to_params k ≡ ok p) × InLimits p × (key.size ≡ p.hash_len)
unfolding derived_key
derived_key-InLimits env k pw {key} h = elim (Result-cases (to_params k)) [
  | inl (e, bad) ↦ absurd (ground arith)
  | inr (p, read) ↦ elim (Result-cases (decoded k.salt_b64)) [
    | inl (e, bad) ↦ absurd (ground arith)
    | inr (salt, salted) ↦
        let made : derive_key env pw salt p ≡ ok key = ground arith in
        (
          p,
          read,
          (validate_import_kdf_lem p).0 (ground arith),
          (derive_key_inv env pw salt p made).0,
        )
  ]
]

-- A slot that opens named parameters within the limits.
pub try_params-InLimits :
    (env : Environment) (slot : VaultKeySlot) (pw : SecureBytes) (cipher : CipherAlgorithm)
    (r : Result KdfParams) {key : SecureBytes}
    → try_params env slot pw cipher r ≡ key_opened key
    → (p : KdfParams) × (r ≡ ok p) × InLimits p
unfolding try_params outcome_of
try_params-InLimits env slot pw cipher (err e) h = absurd (cc h)
try_params-InLimits env slot pw cipher (ok p) h = elim (Result-cases (validate_import_kdf p)) [
  | inl (e, bad) ↦ absurd (unfold validate_import_kdf in ground arith)
  | inr (u, good) ↦ (p, refl, (validate_import_kdf_lem p).0 (ground arith))
]
