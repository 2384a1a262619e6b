-- ===== src/Tests/Parts.antt =====
-- The theorems on the parts of vaults at concrete inputs.
use gpg_meister.Base.{
  [], arith, true, err, false, length, ok, refl, runtime_error, some, ◌+◌, ◌∷◌, ◌≡◌,
}
use gpg_meister.Model.Fields.{KdfFields, aes_256_gcm, decoded, to_params}
use gpg_meister.Model.KdfParams.{
  KdfParams, argon2id, costs_in_bounds, high_memory_params, kdf_params,
}
use gpg_meister.Model.VaultHeader.Shape.{IsWellFormed, validate_header_lem}
use gpg_meister.Python.{Bytes}
use gpg_meister.Python.Base64.Digits.{b64_digit, b64_value, b64decode, b64encode}
use gpg_meister.Security.Aead.{check_inputs, encrypt}
use gpg_meister.Security.Buffers.{SecureBytes, close, enter, from_bytes, to_bytes, view, zeros}
use gpg_meister.Security.Buffers.Lifecycle.{
  Held, Uses, closed_is_wiped, fresh, none_yet, poke, poke_all, shut, take_view, then_use,
  write_late,
}
use gpg_meister.Security.Kdf.{IsBounded, derive_key, derive_key_inv, validate_params}
use gpg_meister.Tests.Inputs.{toy_header, toy_header-built, toy_pw, value_of}
use gpg_meister.Tests.Toy.{repeat, toy}
use gpg_meister.Vault.Open.{derived_key, validate_import_kdf}
use gpg_meister.Vault.Open.Limits.{InLimits, derived_key-InLimits}

-- A view that outlives the buffer: it is taken, the buffer is closed, and a byte is written.
abbrev kept_view : Held
kept_view = record (fresh toy.mlock (7 ∷ 8 ∷ 9 ∷ [])) { viewed = true }

abbrev closed_view : Held
closed_view = record kept_view { sb = close toy_pw }

abbrev written_late : Held
written_late = record {
  sb = record (close toy_pw) { buffer = poke (close toy_pw).buffer 1 5 };
  viewed = true;
  late = (1, 5) ∷ [];
}

late_write : Uses (fresh toy.mlock (7 ∷ 8 ∷ 9 ∷ [])) written_late
unfolding close from_bytes view
late_write =
    then_use
      (then_use
        (then_use none_yet (take_view (fresh toy.mlock (7 ∷ 8 ∷ 9 ∷ [])) (7 ∷ 8 ∷ 9 ∷ []) refl))
        (shut kept_view))
      (write_late closed_view 1 5 refl refl (omega arith))

closed_is_wiped_example :
    (written_late.sb.buffer ≡ poke_all ((1, 5) ∷ []) (zeros (written_late.sb.size + 1)))
    × (written_late.sb.locked ≡ false)
    × (view written_late.sb ≡ err (runtime_error "SecureBytes is closed"))
    × (to_bytes written_late.sb ≡ err (runtime_error "SecureBytes is closed"))
    × (enter written_late.sb ≡ err (runtime_error "cannot re-enter a closed SecureBytes"))
unfolding close from_bytes
closed_is_wiped_example = closed_is_wiped toy.mlock (7 ∷ 8 ∷ 9 ∷ []) late_write refl

validate_header_lem_example : IsWellFormed toy_header
validate_header_lem_example = validate_header_lem toy_header toy_header-built

abbrev toy_key : SecureBytes
toy_key = from_bytes toy.mlock (repeat 5 32)

abbrev toy_sealed : Bytes
toy_sealed = value_of [] (encrypt toy (1 ∷ 2 ∷ []) toy_key (repeat 9 12) [] aes_256_gcm)

toy_sealed-encrypted : encrypt toy (1 ∷ 2 ∷ []) toy_key (repeat 9 12) [] aes_256_gcm ≡ ok toy_sealed
unfolding encrypt check_inputs view from_bytes
toy_sealed-encrypted = refl

abbrev toy_derived : SecureBytes
toy_derived = value_of toy_key (derive_key toy toy_pw (repeat 6 16) high_memory_params)

toy_derived-made : derive_key toy toy_pw (repeat 6 16) high_memory_params ≡ ok toy_derived
unfolding derive_key validate_params view from_bytes
toy_derived-made = refl

derive_key_inv_example :
    (toy_derived.size ≡ 32)
    × (toy_derived.closed ≡ false)
    × (length (repeat 6 16) ≡ 16)
    × (toy_pw.closed ≡ false)
    × IsBounded high_memory_params
derive_key_inv_example = derive_key_inv toy toy_pw (repeat 6 16) high_memory_params toy_derived-made

abbrev toy_fields : KdfFields
toy_fields = record {
  algorithm = argon2id;
  salt_b64 = b64encode (repeat 7 16);
  time_cost = 3;
  memory_cost = 262_144;
  parallelism = 4;
  hash_len = 32;
}

abbrev toy_derived2 : SecureBytes
toy_derived2 = value_of toy_key (derived_key toy (some toy_fields) (some toy_pw))

toy_derived2-made : derived_key toy (some toy_fields) (some toy_pw) ≡ ok toy_derived2
unfolding derived_key derive_key validate_params view from_bytes to_params decoded kdf_params
    costs_in_bounds validate_import_kdf b64encode b64decode b64_digit b64_value
toy_derived2-made = refl

derived_key-InLimits_example :
    (p : KdfParams) × (to_params toy_fields ≡ ok p) × InLimits p × (toy_derived2.size ≡ p.hash_len)
derived_key-InLimits_example = derived_key-InLimits toy toy_fields toy_pw toy_derived2-made
