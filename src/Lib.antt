-- ===== src/Lib.antt =====
-- GPG Meister: vault files and the cryptography that they stand on.
--
-- The program keeps GnuPG keys in encrypted vault files. A vault is a binary frame: a magic, a
-- version, an unencrypted JSON header, and a ciphertext whose associated data is that header. The
-- plaintext is a msgpack manifest and then the key material, entry by entry. A version 2 vault
-- derives the payload key from the passphrase, a version 3 vault draws a random key and wraps a
-- copy of it per unlock method into a key slot. Paths are below src/gpg_meister.
--
-- - Base: lists, options and Boolean tests over the native numbers, the errors that the program
--   raises, the result type and the rules on which errors a computation can raise.
-- - Python: what is used of struct, base64, bytes.hex, bytes.fromhex, str.upper,
--   str.split, bytes.split, bytes.strip and the decimals of an int. A byte string
--   is a list of numbers, a text a list of code points.
-- - Model: models/kdf_params.py, models/vault.py, normalise_fingerprint of models/key_info.py. A
--   record holds a class's fields and validate_* is its constructor, which runs the validators.
-- - Security: security/secure_bytes.py (Buffers), security/kdf.py (Kdf), security/aead.py (Aead)
--   and security/password_policy.py (Policy). Environment holds what is taken from outside: memory
--   pinning, argon2, the ciphers, pydantic's JSON and msgpack, each with its documented laws; the
--   exceptions of json.loads and msgpack.unpackb that the source does not catch are among their
--   results. Writing a header's JSON (header_to_canonical_json) is one parameter, for the two library
--   calls that it makes. Entropy is secrets.token_bytes.
-- - Vault: security/vault_format.py (Format), security/vault_keyslots.py (KeySlots), and of
--   services/vault_service.py the payload (Payload), _encrypt_payload and
--   _encrypt_payload_with_slots (Encrypt), _open with what it calls (Open), _verify_sidecar and
--   _open with its skip_checksum (Sidecar) and _wrap_for_keys (Cards). A call that may record an
--   import failure returns the recorded reasons beside its result.
-- - Unlock: models/key_unlock.py (Slot), security/key_unlock.py (Secret), the table of slots of
--   storage/metadata_store.py (Store) and services/key_unlock_service.py (Service, Unlocking,
--   Enrolment). Which writes the database refuses, the token and GnuPG are arguments, and an
--   operation returns the table, the audit events and the calls of GnuPG beside its outcome.
-- - Audit: storage/secret_keys.py (Secrets) and storage/audit_log.py: its records (Record), emit and
--   what it calls (Log), verify_chain (Verify) and proofs on the chain of records (Chain). A log file
--   and its tip are a Disk that several processes share. What the system does with the writes of one
--   record is an argument (Faults), and the bytes that the buffered file object keeps after a failed
--   flush are part of the log's state: how many it keeps, all or fewer, is among the Faults.
-- - Services: services/validation.py (Validation), whose regular expressions are tests by clauses.
-- - Tests: the theorems at concrete inputs, in an environment whose ciphers append a tag made of
--   the key and whose JSON and msgpack are lists of numbers.
--
-- Every loop is a structural recursion over a list, so no fuel is used. A number that is packed
-- into four bytes is checked against 2 ^ 32, as struct does.
--
-- Not modelled: the user interface, the GnuPG subprocess and its output, devices, file locks and
-- the disk. Opening starts from the bytes that were read; the smartcard's decryption and the
-- rebuilding of legacy payloads are arguments. Wiping of temporary copies is modelled for
-- SecureBytes alone, and a bytearray that is zeroed after its last use is not.
pub mod Base
pub mod Python
pub mod Model
pub mod Security
pub mod Vault
pub mod Unlock
pub mod Audit
pub mod Services
pub mod Tests
