-- ===== src/Tests/Secrets.antt =====
-- The theorems on key secrets, passphrases and logs at concrete inputs.
use gpg_meister.Audit.Secrets.{
  Value, contains_secret_marker, dict_value, entry_of, find_secret_violation, is_forbidden,
  is_forbidden_key, is_member, item_of, list_value, no_entries, no_items, occurs_in, redact_secrets,
  starts_with, str_key, str_value,
}
use gpg_meister.Audit.Secrets.Redacted.{redact_secrets-clean}
use gpg_meister.Base.{[], arith, false, none, ok, refl, true, within, ◌==◌, ◌||◌, ◌↔◌, ◌∷◌, ◌≡◌}
use gpg_meister.Model.Fields.{aes_256_gcm, from_params, validate_kdf_fields, validate_nonce_b64}
use gpg_meister.Model.KdfParams.{costs_in_bounds, high_memory_params}
use gpg_meister.Model.KeySlot.{validate_wrapped}
use gpg_meister.Python.Base64.Digits.{b64_digit, b64_value, b64decode, b64encode}
use gpg_meister.Python.Text.{codes}
use gpg_meister.Security.Aead.{check_inputs, encrypt, generate_nonce}
use gpg_meister.Security.Buffers.{SecureBytes, from_bytes, view}
use gpg_meister.Security.Kdf.{derive_key, generate_salt, validate_params}
use gpg_meister.Security.Policy.{Unicode, require_acceptable}
use gpg_meister.Security.Policy.Accepted.{IsAcceptable, require_acceptable_lem}
use gpg_meister.Tests.Inputs.{toy_pw, toy_random, value_of}
use gpg_meister.Tests.Toy.{repeat, repeat-IsBytes, toy}
use gpg_meister.Unlock.Secret.{
  check_secret, check_token_secret, unlock_associated_data, unwrap_secret_with_passphrase,
  unwrap_with_token, wrap_secret_with_passphrase, wrap_with_token,
}
use gpg_meister.Unlock.Secret.RoundTrip.{
  unwrap_secret-wrap_secret, unwrap_with_token-wrap_with_token,
}
use gpg_meister.Unlock.Slot.{
  FidoCredential, KeyUnlockSlot, by_fido, unlock_slot_shape, validate_credential,
  validate_unlock_slot,
}

abbrev pub toy_token : SecureBytes
toy_token = from_bytes toy.mlock (repeat 4 32)

abbrev pub toy_credential : FidoCredential
toy_credential = record {
  credential_id_b64 = b64encode (repeat 3 8);
  salt_b64 = b64encode (repeat 2 32);
  rp_id = codes "gpg-meister";
  resident = true;
  user_verification = true;
  label = codes "Token";
}

abbrev pub toy_unlock : KeyUnlockSlot
toy_unlock =
    value_of
      (record {
        type = by_fido;
        wrapped_secret_b64 = [];
        nonce_b64 = [];
        kdf = none;
        fido = none;
        label = [];
      })
      (wrap_with_token toy toy_random 0 (from_bytes toy.mlock (repeat 65 44)) toy_token
        toy_credential aes_256_gcm)

pub toy_unlock-wrapped :
    wrap_with_token toy toy_random 0
      (from_bytes toy.mlock (repeat 65 44))
      toy_token
      toy_credential
      aes_256_gcm
    ≡ ok toy_unlock
unfolding wrap_with_token check_secret view check_token_secret from_bytes generate_nonce encrypt
    check_inputs unlock_associated_data validate_unlock_slot validate_wrapped validate_nonce_b64
    validate_credential unlock_slot_shape b64encode b64decode b64_digit b64_value
toy_unlock-wrapped = refl

unwrap_with_token-wrap_with_token_example :
    unwrap_with_token toy toy_unlock toy_token aes_256_gcm
    ≡ ok (from_bytes toy.mlock (repeat 65 44))
unwrap_with_token-wrap_with_token_example =
    unwrap_with_token-wrap_with_token toy toy_random 0 (repeat 65 44) toy_token toy_credential
      aes_256_gcm (repeat-IsBytes 65 44 (omega arith)) toy_unlock-wrapped

abbrev ascii : Unicode
ascii = record {
  normalise_nfkc = λ t. t;
  lower = λ t. t;
  is_lower = within 97 122;
  is_upper = within 65 90;
  is_digit = within 48 57;
  is_alnum = λ c. within 97 122 c || within 65 90 c || within 48 57 c;
  is_blank = λ c. c == 32;
  is_word = λ c. within 97 122 c || within 65 90 c || within 48 57 c || c == 95;
}

require_acceptable_lem_example :
    require_acceptable ascii (codes "correct horse battery staple") ≡ ok tt
    ↔ IsAcceptable ascii (codes "correct horse battery staple")
require_acceptable_lem_example = require_acceptable_lem ascii (codes "correct horse battery staple")

abbrev toy_value : Value
toy_value = dict_value (
    entry_of (str_key (codes "path")) (list_value (item_of (str_value (codes "a.vault")) no_items))
      no_entries)

toy_value-clean : find_secret_violation (λ t. t) (codes "event" ∷ []) toy_value ≡ none
unfolding find_secret_violation contains_secret_marker occurs_in starts_with is_forbidden
    is_forbidden_key is_member
toy_value-clean = refl

redact_secrets-clean_example :
    redact_secrets (λ t. t) (str_value (codes "[redacted]")) toy_value ≡ toy_value
redact_secrets-clean_example =
    redact_secrets-clean (λ t. t) (str_value (codes "[redacted]")) (codes "event" ∷ []) toy_value
      toy_value-clean

abbrev secret_value : Value
secret_value = dict_value (entry_of (str_key (codes "pin")) (str_value (codes "1234")) no_entries)

placeholder-unmarked : contains_secret_marker (str_value (codes "[redacted]")) ≡ false
unfolding contains_secret_marker occurs_in starts_with
placeholder-unmarked = refl

abbrev toy_emergency : KeyUnlockSlot
toy_emergency = value_of toy_unlock (
    wrap_secret_with_passphrase toy toy_random 0 (from_bytes toy.mlock (repeat 65 44)) toy_pw
      high_memory_params [] aes_256_gcm)

toy_emergency-wrapped :
    wrap_secret_with_passphrase toy toy_random 0
      (from_bytes toy.mlock (repeat 65 44))
      toy_pw
      high_memory_params
      []
      aes_256_gcm
    ≡ ok toy_emergency
unfolding wrap_secret_with_passphrase check_secret view generate_salt from_bytes generate_nonce
    derive_key validate_params encrypt check_inputs unlock_associated_data from_params
    validate_kdf_fields costs_in_bounds validate_unlock_slot validate_wrapped validate_nonce_b64
    unlock_slot_shape b64encode b64decode b64_digit b64_value
toy_emergency-wrapped = refl

unwrap_secret-wrap_secret_example :
    unwrap_secret_with_passphrase toy toy_emergency toy_pw high_memory_params aes_256_gcm
    ≡ ok (from_bytes toy.mlock (repeat 65 44))
unwrap_secret-wrap_secret_example =
    unwrap_secret-wrap_secret toy toy_random 0 (repeat 65 44) toy_pw high_memory_params []
      aes_256_gcm (repeat-IsBytes 65 44 (omega arith)) toy_emergency-wrapped
