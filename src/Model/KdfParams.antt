-- ===== src/Model/KdfParams.antt =====
-- models/kdf_params.py: the Argon2id parameters, their bounds and the built-in profiles.
use gpg_meister.Base.{Bool, Result, err, if◌then◌else◌, ok, validation_error, within, ℕ, ◌&&◌, ◌*◌}

abbrev pub min_time_cost : ℕ
min_time_cost = 2

abbrev pub min_memory_cost_kb : ℕ
min_memory_cost_kb = 19_456

abbrev pub min_hash_len : ℕ
min_hash_len = 32

abbrev pub min_salt_len : ℕ
min_salt_len = 16

abbrev pub max_time_cost : ℕ
max_time_cost = 20

abbrev pub max_memory_cost_kb : ℕ
max_memory_cost_kb = 2 * 1024 * 1024

abbrev pub max_hash_len : ℕ
max_hash_len = 64

abbrev pub max_salt_len : ℕ
max_salt_len = 64

abbrev pub max_parallelism : ℕ
max_parallelism = 64

abbrev pub max_import_time_cost : ℕ
max_import_time_cost = 3

abbrev pub max_import_memory_cost_kb : ℕ
max_import_memory_cost_kb = 262_144

abbrev pub max_import_parallelism : ℕ
max_import_parallelism = 4

pub data KdfAlgorithm : Type 0 where
  argon2id : KdfAlgorithm

pub data KdfProfile : Type 0 where
  high_memory balanced : KdfProfile

pub record KdfParams : Type 0 where
  pub algorithm : KdfAlgorithm
  pub time_cost : ℕ
  pub memory_cost : ℕ
  pub parallelism : ℕ
  pub hash_len : ℕ
  pub salt_len : ℕ

-- The annotated field types `TimeCost`, `MemoryCost`, `Parallelism` and `HashLen`.
unfoldable pub costs_in_bounds : ℕ → ℕ → ℕ → ℕ → Bool
costs_in_bounds time memory lanes hash =
    within min_time_cost max_time_cost time
    && within min_memory_cost_kb max_memory_cost_kb memory
    && within 1 max_parallelism lanes
    && within min_hash_len max_hash_len hash

-- `KDFParams(...)`
unfoldable pub kdf_params : KdfParams → Result KdfParams
unfolding costs_in_bounds
kdf_params p =
    if costs_in_bounds p.time_cost p.memory_cost p.parallelism p.hash_len
      && within min_salt_len max_salt_len p.salt_len
    then ok p
    else err (validation_error "KDFParams field out of range")

-- The profiles are literals inside the bounds, so building them does not raise.
abbrev pub high_memory_params : KdfParams
high_memory_params = record {
  algorithm = argon2id;
  time_cost = 3;
  memory_cost = 262_144;
  parallelism = 4;
  hash_len = 32;
  salt_len = 16;
}

abbrev pub balanced_params : KdfParams
balanced_params = record {
  algorithm = argon2id;
  time_cost = 4;
  memory_cost = 65_536;
  parallelism = 4;
  hash_len = 32;
  salt_len = 16;
}

unfoldable pub params_for_profile : KdfProfile → KdfParams
params_for_profile high_memory = high_memory_params
params_for_profile balanced = balanced_params
