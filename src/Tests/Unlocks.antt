-- ===== src/Tests/Unlocks.antt =====
-- The theorems on unlock slots, in a store whose JSON is a list of numbers and with a token and a
-- GnuPG that always answer.
use gpg_meister.Audit.Secrets.{occurs_in, starts_with}
use gpg_meister.Base.{
  List, [], arith, database_error, false, ok, refl, some, suc, zero, ℕ, ◌++◌, ◌==◌, ◌∷◌, ◌≡◌,
}
use gpg_meister.Model.Fields.{aes_256_gcm, from_params, normalise_fingerprint, validate_nonce_b64}
use gpg_meister.Model.KdfParams.{high_memory_params}
use gpg_meister.Model.KeySlot.{validate_wrapped}
use gpg_meister.Python.Base64.Digits.{b64decode, b64encode}
use gpg_meister.Python.Text.{codes, upper}
use gpg_meister.Security.Aead.{encrypt, generate_nonce}
use gpg_meister.Security.Buffers.{SecureBytes, from_bytes, view}
use gpg_meister.Security.Kdf.{derive_key, generate_salt}
use gpg_meister.Services.Validation.{
  matches_email, matches_user_name, pieces_of, rsa, strip_text, tld_length, validate_email,
  validate_expiry, validate_key_algorithm_and_length, validate_user_name,
}
use gpg_meister.Tests.Codec.{Codec, number, option, pair, read_all, read_all-put, via}
use gpg_meister.Tests.Inputs.{toy_entry, toy_pw, toy_random}
use gpg_meister.Tests.Secrets.{toy_credential, toy_token, toy_unlock, toy_unlock-wrapped}
use gpg_meister.Tests.Toy.{bool_codec, kdf_codec, repeat, repeat-IsBytes, text_codec, toy}
use gpg_meister.Unlock.Enrolment.{
  Devices, KeyRequest, bind_existing_key, bound_slot, build_slots, create_key_with_token,
  emergency_slots, new_key, validate_request, verify_passphrase,
}
use gpg_meister.Unlock.Enrolment.Bound.{
  Rederives, unlock_with_token-bind_existing_key, wrap_with_token_inv,
}
use gpg_meister.Unlock.Enrolment.Created.{unlock_with_token-create_key_with_token}
use gpg_meister.Unlock.Secret.{
  check_secret, check_token_secret, generate_key_secret, wrap_secret_with_passphrase,
  wrap_with_token,
}
use gpg_meister.Unlock.Service.{StoreFaults, add_slots, persist, slots_alone, take_back}
use gpg_meister.Unlock.Service.Atomic.{persist-unchanged}
use gpg_meister.Unlock.Service.Stored.{persist-stored}
use gpg_meister.Unlock.Slot.{
  FidoCredential, KeyUnlockSlot, UnlockSlotType, by_fido, by_passphrase, unlock_slot_shape,
  unlock_slots_of, validate_credential, validate_unlock_slot,
}
use gpg_meister.Unlock.Store.{
  SlotJson, SlotTable, add_unlock_slot, delete_unlock_slot, parsed_slots, rows_of, unlock_slots,
}
use gpg_meister.Unlock.Store.Rows.{
  IsTable, ReachesTable-IsTable, after_step, empty_table, insert_step,
}
use gpg_meister.Unlock.Unlocking.{Derive, unlock_event, unlock_with_token}

abbrev of_unlock_type : UnlockSlotType → ℕ
of_unlock_type by_passphrase = 0
of_unlock_type by_fido = 1

abbrev to_unlock_type : ℕ → UnlockSlotType
to_unlock_type zero = by_passphrase
to_unlock_type (suc n) = by_fido

to_unlock_type-of_unlock_type : (t : UnlockSlotType) → to_unlock_type (of_unlock_type t) ≡ t
to_unlock_type-of_unlock_type by_passphrase = refl
to_unlock_type-of_unlock_type by_fido = refl

abbrev credential_codec : Codec FidoCredential
credential_codec =
    via
      (λ c. (
        c.credential_id_b64,
        (c.salt_b64, (c.rp_id, (c.resident, (c.user_verification, c.label)))),
      ))
      (λ (i, (s, (r, (d, (v, l))))). record {
        credential_id_b64 = i;
        salt_b64 = s;
        rp_id = r;
        resident = d;
        user_verification = v;
        label = l;
      })
      (λ c. refl)
      (pair text_codec
        (pair text_codec (pair text_codec (pair bool_codec (pair bool_codec text_codec)))))

abbrev slot_codec : Codec KeyUnlockSlot
slot_codec =
    via
      (λ s.
        (of_unlock_type s.type, (s.wrapped_secret_b64, (s.nonce_b64, (s.kdf, (s.fido, s.label))))))
      (λ (t, (w, (n, (k, (f, l))))). record {
        type = to_unlock_type t;
        wrapped_secret_b64 = w;
        nonce_b64 = n;
        kdf = k;
        fido = f;
        label = l;
      })
      (λ s. rw (to_unlock_type-of_unlock_type s.type) refl)
      (pair number (
        pair text_codec
          (pair text_codec (pair (option kdf_codec) (pair (option credential_codec) text_codec)))))

abbrev toy_json : SlotJson
toy_json = record {
  dump = λ s. slot_codec.put s [];
  load = read_all slot_codec;
  load-dump = λ s valid. read_all-put slot_codec s;
}

abbrev toy_devices : Devices
toy_devices = record {
  is_iso_date = λ t. false;
  enroll = λ pin label. ok (toy_credential, toy_token);
  sign = λ fpr pw. ok tt;
  generate_key = λ request pw. ok toy_entry.fingerprint;
  delete_key = λ fpr pw. ok tt;
}

abbrev toy_derive : Derive
toy_derive credential pin = ok toy_token

toy-Rederives : (pin : SecureBytes) → Rederives toy_devices toy_derive pin
toy-Rederives pin label credential token_secret h = ground (arith, h)

abbrev empty_slots : SlotTable
empty_slots = record { rows = []; next_id = 1 }

abbrev all_work : StoreFaults
all_work = record { insert_refused = λ k. false; delete_refused = λ k. false }

abbrev second_fails : StoreFaults
second_fails = record { insert_refused = λ k. k == 1; delete_refused = λ k. false }

abbrev toy_table : SlotTable
toy_table = record {
  rows =
      record { id = 1; fingerprint = toy_entry.fingerprint; slot_json = toy_json.dump toy_unlock }
      ∷ [];
  next_id = 2;
}

toy_table-stored :
    add_unlock_slot toy_json false toy_entry.fingerprint toy_unlock empty_slots ≡ ok (1, toy_table)
unfolding add_unlock_slot normalise_fingerprint upper rows_of
toy_table-stored = refl

ReachesTable-IsTable_example : IsTable toy_table
ReachesTable-IsTable_example = ReachesTable-IsTable (
    after_step empty_slots toy_table empty_table
      (insert_step toy_entry.fingerprint toy_unlock 1 toy_table toy_table-stored))

empty_slots-IsTable : IsTable empty_slots
empty_slots-IsTable = ReachesTable-IsTable {json = toy_json} empty_table

persist-unchanged_example :
    (persist toy_json second_fails toy_entry.fingerprint
      (toy_unlock ∷ toy_unlock ∷ [])
      (codes "key_created_with_token")
      empty_slots).table.rows
    ≡ []
unfolding persist add_slots add_unlock_slot normalise_fingerprint upper rows_of take_back
    delete_unlock_slot
persist-unchanged_example =
    persist-unchanged toy_json second_fails toy_entry.fingerprint (toy_unlock ∷ toy_unlock ∷ [])
      (codes "key_created_with_token") empty_slots (database_error "insert failed")
      empty_slots-IsTable (λ k. refl) refl

toy_unlock-valid : validate_unlock_slot toy_unlock ≡ ok toy_unlock
toy_unlock-valid =
    (wrap_with_token_inv toy toy_random 0 (from_bytes toy.mlock (repeat 65 44)) toy_token
      toy_credential aes_256_gcm toy_unlock-wrapped).0

persist-stored_example :
    (new : List (ℕ × KeyUnlockSlot)) × (unlock_slots toy_json toy_entry.fingerprint
        (persist toy_json all_work toy_entry.fingerprint
          (toy_unlock ∷ [])
          (codes "key_bound_to_token")
          empty_slots).table
      ≡ ok ([] ++ new))
    × (slots_alone new ≡ toy_unlock ∷ [])
unfolding unlock_slots normalise_fingerprint upper persist add_slots add_unlock_slot rows_of
    parsed_slots
persist-stored_example =
    persist-stored toy_json all_work toy_entry.fingerprint (toy_unlock ∷ [])
      (codes "key_bound_to_token") empty_slots (toy_unlock-valid, tt) refl refl

abbrev toy_pin : SecureBytes
toy_pin = from_bytes toy.mlock (repeat 49 6)

unlock_with_token-bind_existing_key_example :
    unlock_with_token toy toy_json toy_derive toy_entry.fingerprint toy_pin
      (bind_existing_key toy toy_random toy_json all_work toy_devices toy_entry.fingerprint
        (from_bytes toy.mlock (repeat 65 44))
        toy_pin
        empty_slots).table
    ≡ record {
      outcome = ok (from_bytes toy.mlock (repeat 65 44));
      events = unlock_event "key_unlocked_with_token" "ok";
    }
unfolding unlock_slots normalise_fingerprint upper parsed_slots rows_of unlock_slots_of
    bind_existing_key bound_slot check_secret from_bytes view verify_passphrase wrap_with_token
    check_token_secret encrypt generate_nonce validate_unlock_slot validate_wrapped b64decode
    b64encode validate_nonce_b64 validate_credential unlock_slot_shape persist add_slots
    add_unlock_slot
unlock_with_token-bind_existing_key_example =
    unlock_with_token-bind_existing_key toy toy_random toy_json all_work toy_devices toy_derive
      toy_entry.fingerprint (repeat 65 44) toy_pin empty_slots {before = []}
      (repeat-IsBytes 65 44 (omega arith)) (toy-Rederives toy_pin) refl tt refl

abbrev toy_request : KeyRequest
toy_request = record {
  name = codes "Ada";
  email = codes "ada@example.org";
  algorithm = rsa;
  length = 4096;
  expiry = codes "0";
}

unlock_with_token-create_key_with_token_example :
    unlock_with_token toy toy_json toy_derive toy_entry.fingerprint toy_pin
      (create_key_with_token toy toy_random toy_json all_work toy_devices toy_request toy_pin
        high_memory_params
        (some toy_pw)
        empty_slots).table
    ≡ record {
      outcome = ok (generate_key_secret toy toy_random 0);
      events = unlock_event "key_unlocked_with_token" "ok";
    }
unfolding unlock_slots normalise_fingerprint upper parsed_slots rows_of create_key_with_token
    new_key build_slots wrap_with_token check_secret generate_key_secret from_bytes b64encode view
    check_token_secret encrypt generate_nonce validate_unlock_slot validate_wrapped b64decode
    validate_nonce_b64 validate_credential unlock_slot_shape emergency_slots
    wrap_secret_with_passphrase generate_salt derive_key from_params persist add_slots
    add_unlock_slot validate_request validate_user_name strip_text matches_user_name occurs_in
    starts_with validate_email matches_email pieces_of tld_length validate_key_algorithm_and_length
    validate_expiry
unlock_with_token-create_key_with_token_example =
    unlock_with_token-create_key_with_token toy toy_random toy_json all_work toy_devices toy_derive
      toy_request toy_pin high_memory_params (some toy_pw) empty_slots toy_entry.fingerprint
      (toy-Rederives toy_pin) refl refl
