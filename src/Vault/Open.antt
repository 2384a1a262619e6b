-- ===== src/Vault/Open.antt =====
-- services/vault_service.py: opening a vault file. The GnuPG call of a smartcard slot, the rebuilding
-- of a legacy payload and SHA-256 are arguments, and so is what is read from the disk.
pub mod Limits
pub mod Frames
pub mod Reopen
pub mod Derived
pub mod Slotted
pub mod Order
use gpg_meister.Base.{
  Bool, Error, List, Option, Result, [], decryption_error, err, false, gpg_card_error,
  gpg_card_pin_error, gpg_passphrase_error, gpg_process_error, if◌then◌else◌, is_empty, length, ltb,
  none, not, ok, raise_if, some, true, vault_format_error, vault_service_error, ℕ, ◌++◌, ◌==◌,
  ◌>>=◌, ◌>>◌, ◌||◌, ◌∷◌,
}
use gpg_meister.Model.Fields.{CipherAlgorithm, KdfFields, decoded, nonce_len, to_params}
use gpg_meister.Model.KdfParams.{
  KdfParams, max_import_memory_cost_kb, max_import_parallelism, max_import_time_cost,
  min_memory_cost_kb, min_time_cost,
}
use gpg_meister.Model.KeySlot.{VaultKeySlot, openpgp, passphrase}
use gpg_meister.Model.Manifest.{VaultManifest}
use gpg_meister.Model.VaultHeader.{VaultHeader, slots_of, uses_key_slots}
use gpg_meister.Python.{Bytes, Text}
use gpg_meister.Security.Aead.{decrypt}
use gpg_meister.Security.Buffers.{SecureBytes}
use gpg_meister.Security.Environment.{Environment}
use gpg_meister.Security.Kdf.{derive_key}
use gpg_meister.Vault.Format.{UnpackedFrame, unpack}
use gpg_meister.Vault.KeySlots.{file_key_from_bytes, unwrap_with_passphrase}
use gpg_meister.Vault.Payload.{KeySlice, deserialise_segmented_payload}

-- `_validate_import_kdf(params)`
unfoldable pub validate_import_kdf : KdfParams → Result (Unit {0})
validate_import_kdf params = do
  raise_if (ltb params.time_cost min_time_cost || ltb params.memory_cost min_memory_cost_kb)
      (vault_format_error "vault KDF parameters are below the import safety floor")
  raise_if
      (ltb max_import_time_cost params.time_cost
        || ltb max_import_memory_cost_kb params.memory_cost
        || ltb max_import_parallelism params.parallelism)
      (vault_format_error "vault KDF parameters exceed import safety limits")

-- What one turn of the loop over the passphrase slots does: return a key, remember an error, let
-- an error through, or go on.
pub data SlotOutcome : Type 0 where
  key_opened : SecureBytes → SlotOutcome
  slot_refused slot_raised : Error → SlotOutcome
  slot_skipped : SlotOutcome

-- `except (DecryptionError, VaultFormatError)`
abbrev pub refusal : Error → SlotOutcome
refusal (decryption_error m) = slot_refused (decryption_error m)
refusal (vault_format_error m) = slot_refused (vault_format_error m)
refusal e = slot_raised e

outcome_of : Result SecureBytes → SlotOutcome
outcome_of (ok key) = key_opened key
outcome_of (err e) = refusal e

-- The limits are checked before the key derivation runs.
unfoldable pub try_params :
    Environment → VaultKeySlot → SecureBytes → CipherAlgorithm → Result KdfParams → SlotOutcome
unfolding outcome_of
try_params env slot pw cipher (err e) = slot_raised e
try_params env slot pw cipher (ok params) =
    outcome_of (validate_import_kdf params >> unwrap_with_passphrase env slot pw params cipher)

unfoldable pub try_slot :
    Environment → VaultKeySlot → SecureBytes → CipherAlgorithm → Option KdfFields → SlotOutcome
try_slot env slot pw cipher none = slot_skipped
try_slot env slot pw cipher (some k) = try_params env slot pw cipher (to_params k)

-- `raise last_error or DecryptionError(...)`
abbrev pub give_up : Option Error → Result SecureBytes
give_up none = err (decryption_error "no key slot accepted this passphrase")
give_up (some e) = err e

abbrev after_slot :
    SlotOutcome → Option Error → (Option Error → Result SecureBytes) → Result SecureBytes
after_slot (key_opened key) last rest = ok key
after_slot (slot_refused e) last rest = rest (some e)
after_slot (slot_raised e) last rest = err e
after_slot slot_skipped last rest = rest last

unfoldable pub try_slots :
    Environment
    → SecureBytes
    → CipherAlgorithm
    → List VaultKeySlot
    → Option Error
    → Result SecureBytes
try_slots env pw cipher [] last = give_up last
try_slots env pw cipher (slot ∷ slots) last =
    after_slot (try_slot env slot pw cipher slot.kdf) last (try_slots env pw cipher slots)

-- `_unwrap_passphrase_slot(header, master_passphrase, cipher)`
unfoldable pub unwrap_passphrase_slot :
    Environment → VaultHeader → SecureBytes → CipherAlgorithm → Result SecureBytes
unwrap_passphrase_slot env header pw cipher = do
  raise_if (is_empty (slots_of header passphrase))
      (vault_service_error "this vault cannot be opened with a passphrase")
  try_slots env pw cipher (slots_of header passphrase) none

-- What an import failure is recorded as in the audit log.
pub data Reason : Type 0 where
  bad_format bad_decryption bad_payload bad_smartcard bad_checksum : Reason

-- The import failures that were recorded, and what is returned or slot_raised.
abbrev pub Logged {ℓ} : Type ℓ → Type ℓ
Logged A = List Reason × Result A

-- `self._gpg.decrypt(wrapped_key, passphrase=smartcard_pin)`, as the plaintext alone
abbrev pub CardDecrypt : Type 0
CardDecrypt = Bytes → SecureBytes → Result Bytes

-- `except (GPGCardError, GPGPassphraseError, GPGProcessError)`; a wrong PIN is a `GPGCardError`
abbrev pub is_card_failure : Error → Bool
is_card_failure (gpg_card_error m) = true
is_card_failure (gpg_card_pin_error m) = true
is_card_failure (gpg_passphrase_error m) = true
is_card_failure (gpg_process_error m) = true
is_card_failure e = false

abbrev after_card :
    Environment → Result Bytes → (Option Error → Logged SecureBytes) → Logged SecureBytes
after_card env (ok raw) rest = ([], file_key_from_bytes env raw)
after_card env (err e) rest =
    let more = rest (some e) in if is_card_failure e then more else ([], err e)

abbrev give_up_card : Option Error → Logged SecureBytes
give_up_card none =
    (bad_smartcard ∷ [], err (decryption_error "no smartcard key slot could be opened"))
give_up_card (some e) = (bad_smartcard ∷ [], err e)

-- The wrapped key is decoded inside of the `try`, and its `ValueError` is let through.
unfoldable pub try_cards :
    Environment → CardDecrypt → SecureBytes → List VaultKeySlot → Option Error → Logged SecureBytes
try_cards env card_decrypt pin [] last = give_up_card last
try_cards env card_decrypt pin (slot ∷ slots) last =
    after_card env (decoded slot.wrapped_key_b64 >>= λ wrapped. card_decrypt wrapped pin)
      (try_cards env card_decrypt pin slots)

-- `_unwrap_openpgp_slot(header, smartcard_pin, src)`
unfoldable pub unwrap_openpgp_slot :
    Environment → CardDecrypt → VaultHeader → SecureBytes → Logged SecureBytes
unwrap_openpgp_slot env card_decrypt header pin =
    if is_empty (slots_of header openpgp)
    then ([], err (vault_service_error "this vault has no smartcard unlock method"))
    else try_cards env card_decrypt pin (slots_of header openpgp) none

abbrev pub is_decryption_error : Error → Bool
is_decryption_error (decryption_error m) = true
is_decryption_error e = false

abbrev pub is_vault_format_error : Error → Bool
is_vault_format_error (vault_format_error m) = true
is_vault_format_error e = false

-- `except ...: self._emit_import_failed(src, reason); raise`
unfoldable pub record_failure {ℓ} : {A : Type ℓ} → (Error → Bool) → Reason → Result A → Logged A
record_failure caught reason (ok a) = ([], ok a)
record_failure caught reason (err e) = if caught e then (reason ∷ [], err e) else ([], err e)

-- the sequence of two steps that may record failures
unfoldable pub and_then {ℓ κ} : {A : Type ℓ} {B : Type κ} → Logged A → (A → Logged B) → Logged B
and_then (log, err e) next = (log, err e)
and_then (log, ok a) next = (log ++ (next a).0, (next a).1)

-- the version 2 branch of `_vault_key`
unfoldable pub derived_key :
    Environment → Option KdfFields → Option SecureBytes → Result SecureBytes
derived_key env none pw = err (vault_format_error "vault header is missing KDF parameters")
derived_key env (some k) none = err (vault_service_error "this vault predates smartcard unlocking")
derived_key env (some k) (some pw) = do
  params ← to_params k
  validate_import_kdf params
  salt ← decoded k.salt_b64
  derive_key env pw salt params

-- the version 3 branch of `_vault_key`
unfoldable pub slotted_key :
    Environment
    → CardDecrypt
    → VaultHeader
    → Option SecureBytes
    → Option SecureBytes
    → Logged SecureBytes
slotted_key env card_decrypt header pw (some pin) = unwrap_openpgp_slot env card_decrypt header pin
slotted_key env card_decrypt header none none =
    ([], err (vault_service_error "a master passphrase or a smartcard PIN is required"))
slotted_key env card_decrypt header (some pw) none =
    record_failure is_decryption_error bad_decryption
      (unwrap_passphrase_slot env header pw header.cipher.algorithm)

-- `_vault_key(frame, master_passphrase, smartcard_pin, src)`
unfoldable pub vault_key :
    Environment
    → CardDecrypt
    → VaultHeader
    → Option SecureBytes
    → Option SecureBytes
    → Logged SecureBytes
vault_key env card_decrypt header pw pin =
    if uses_key_slots header
    then slotted_key env card_decrypt header pw pin
    else ([], derived_key env header.kdf pw)

unfoldable pub decrypt_with : Environment → UnpackedFrame → SecureBytes → Logged Bytes
decrypt_with env frame key =
    and_then ([], decoded frame.header.cipher.nonce_b64)
      (λ nonce.
        record_failure is_decryption_error bad_decryption
          (decrypt env frame.ciphertext key nonce frame.header_bytes frame.header.cipher.algorithm))

-- `_decrypt_frame(frame, master_passphrase, src, smartcard_pin)`
unfoldable pub decrypt_frame :
    Environment
    → CardDecrypt
    → UnpackedFrame
    → Option SecureBytes
    → Option SecureBytes
    → Logged Bytes
decrypt_frame env card_decrypt frame pw pin =
    and_then (vault_key env card_decrypt frame.header pw pin) (decrypt_with env frame)

-- `_OpenedVault`, without the path
pub record OpenedVault : Type 0 where
  pub manifest : VaultManifest
  pub plaintext : Bytes
  pub key_slices : List (Text × KeySlice)

-- The body of the `try` after the decryption. `verify_sidecar` records its own failure.
unfoldable pub read_payload :
    Environment
    → (Bytes → Result (VaultManifest × ℕ × Bytes))
    → VaultHeader
    → Bytes
    → Result OpenedVault
read_payload env rebuild_legacy header plaintext = do
  (manifest, key_slices, stream) ← deserialise_segmented_payload env rebuild_legacy plaintext
  nonce ← decoded header.cipher.nonce_b64
  raise_if (not (length nonce == nonce_len)) (vault_format_error "vault nonce length mismatch")
  ok (record { manifest = manifest; plaintext = stream; key_slices = key_slices })

-- What `_open` does on the data of a file that exists once an unlock method is given; `sidecar` is
-- the checksum step, as Sidecar.check_sidecar makes it from `skip_checksum` and the sidecar.
unfoldable pub open_stored :
    Environment
    → (Bytes → Result (VaultManifest × ℕ × Bytes))
    → CardDecrypt
    → (Bytes → Logged (Unit {0}))
    → Option SecureBytes
    → Option SecureBytes
    → Bytes
    → Logged OpenedVault
open_stored env rebuild_legacy card_decrypt sidecar pw pin stored =
    and_then (record_failure is_vault_format_error bad_format (unpack env stored)) (λ frame.
      and_then (decrypt_frame env card_decrypt frame pw pin) (λ plaintext.
        and_then (sidecar stored) (λ _.
          record_failure is_vault_format_error bad_payload
            (read_payload env rebuild_legacy frame.header plaintext))))

-- Neither a smartcard PIN nor a master passphrase is given.
abbrev pub no_unlock : Option SecureBytes → Option SecureBytes → Bool
no_unlock (some pin) pw = false
no_unlock none (some pw) = false
no_unlock none none = true

-- `_open`, with its checksum step as the argument `sidecar`
unfoldable pub open_vault :
    Environment
    → (Bytes → Result (VaultManifest × ℕ × Bytes))
    → CardDecrypt
    → (Bytes → Logged (Unit {0}))
    → Option SecureBytes
    → Option SecureBytes
    → Bytes
    → Logged OpenedVault
open_vault env rebuild_legacy card_decrypt sidecar pw pin stored =
    if no_unlock pin pw
    then ([], err (vault_service_error "a master passphrase or a smartcard PIN is required"))
    else open_stored env rebuild_legacy card_decrypt sidecar pw pin stored
