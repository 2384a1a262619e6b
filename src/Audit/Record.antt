-- ===== src/Audit/Record.antt =====
-- storage/audit_log.py: its constants, a record, the state of a log and what it takes from outside:
-- the JSON encoder and decoder, SHA-256 and `str.lower`. Time and actor of a record, and what the
-- disk does with a write, are arguments of the operations.
use gpg_meister.Audit.Secrets.{Entries}
use gpg_meister.Base.{
  Bool, List, Option, Result, [], all, length, not, some, true, ℕ, ◌*◌, ◌++◌, ◌∷◌, ◌≡◌,
}
use gpg_meister.Python.{Bytes, Text}
use gpg_meister.Python.Lines.{IsOneLine}
use gpg_meister.Python.Text.{codes}
use gpg_meister.Python.Words.{is_split_space}

abbrev pub allowed_events : List Text
allowed_events =
    codes "audit_log_opened"
    ∷ codes "gpg_binary_resolved"
    ∷ codes "gpg_binary_rejected"
    ∷ codes "startup_environment_check"
    ∷ codes "key_generated"
    ∷ codes "key_deleted"
    ∷ codes "key_imported"
    ∷ codes "key_exported_public"
    ∷ codes "key_exported_private"
    ∷ codes "message_signed"
    ∷ codes "message_decrypted"
    ∷ codes "message_decrypt_failed"
    ∷ codes "folder_encrypted"
    ∷ codes "folder_decrypted"
    ∷ codes "folder_decrypt_failed"
    ∷ codes "smartcard_detected"
    ∷ codes "smartcard_keys_synced"
    ∷ codes "smartcard_pin_changed"
    ∷ codes "smartcard_key_moved"
    ∷ codes "smartcard_key_generated"
    ∷ codes "fido_enrolled"
    ∷ codes "fido_derived"
    ∷ codes "key_created_with_token"
    ∷ codes "key_bound_to_token"
    ∷ codes "key_unlocked_with_token"
    ∷ codes "key_unlocked_with_passphrase"
    ∷ codes "key_unlock_forgotten"
    ∷ codes "vault_created"
    ∷ codes "vault_imported"
    ∷ codes "vault_import_failed"
    ∷ codes "config_loaded"
    ∷ codes "config_saved"
    ∷ []

abbrev pub valid_outcomes : List Text
valid_outcomes = codes "ok" ∷ codes "failed" ∷ codes "warning" ∷ []

abbrev pub reserved_envelope_keys : List Text
reserved_envelope_keys =
    codes "event" ∷ codes "ts" ∷ codes "actor" ∷ codes "outcome" ∷ codes "prev_hash" ∷ []

abbrev pub tail_chunk : ℕ
tail_chunk = 64 * 1024

-- A record before it is serialised: the envelope, the payload, and the fields that `_write_record`
-- sets, where `none` is a field that it leaves out.
pub record AuditFields : Type 0 where
  pub ts : Text
  pub event : Text
  pub actor : Text
  pub outcome : Text
  pub payload : Entries
  pub prev_hash : Option Text
  pub seq : Option ℕ
  pub dropped : Option ℕ

-- A field of a JSON object, as far as the log looks at it: a missing field and `null` are one, an
-- integer is a natural number or negative, and a Boolean is an integer, as in Python.
pub data JsonField : Type 0 where
  no_field negative_field other_field : JsonField
  text_field : Text → JsonField
  nat_field : ℕ → JsonField

-- What `json.loads` makes of a line: an error, a value that is no object, or an object with its
-- `prev_hash` and its `seq`.
pub data JsonLine : Type 0 where
  bad_json no_object : JsonLine
  object_line : JsonField → JsonField → JsonLine

-- `json.dumps` writes an object on one line, between braces.
pub record IsObjectLine (line : Bytes) : Type 0 where
  pub body : Bytes
  pub braces : line ≡ b'{' ∷ (body ++ b'}' ∷ [])
  pub one_line : IsOneLine line

pub record AuditLibrary : Type 0 where
  -- `hashlib.sha256(b).hexdigest()`
  pub digest : Bytes → Text
  -- `_serialise(record)` in UTF-8; `none` is a `TypeError`, for a payload that JSON does not know
  pub dumps : AuditFields → Option Bytes
  -- `json.loads` of a line, decoded first; that a line is no UTF-8, which raises where the tail is
  -- scanned, is left out
  pub loads : Bytes → JsonLine
  pub lower : Text → Text
  pub length-digest : (b : Bytes) → length (digest b) ≡ 64
  pub digest-word : (b : Bytes) → all (λ c. not (is_split_space c)) (digest b) ≡ true
  pub dumps-IsObjectLine :
      (f : AuditFields) (line : Bytes) → dumps f ≡ some line → IsObjectLine line
  pub loads-dumps :
      (f : AuditFields) (line : Bytes) (h : Text) (n : ℕ)
      → dumps f ≡ some line
      → f.prev_hash ≡ some h
      → f.seq ≡ some n
      → loads line ≡ object_line (text_field h) (nat_field n)

-- The log file and its `.tip` file, which processes share.
pub record Disk : Type 0 where
  pub file : Bytes
  pub tip : Option Bytes

-- The state of an `AuditLog`. `pending` is what its buffered file object holds back: bytes that a
-- flush could not write and that stay there, and the next flush writes them first.
pub record AuditLog : Type 0 where
  pub hash_chain : Bool
  pub prev_hash : Option Text
  pub seq : ℕ
  pub dropped : ℕ
  pub pending : Bytes

-- What the system does with the writes of a record: the append may raise an `OSError` after some
-- bytes (after all of them where `fsync` fails), and so may the write of the tip, which is atomic.
-- `kept` is what the file object keeps of the bytes that it could not write: all of them where they
-- fit its buffer of about 8 KiB, and less or nothing for a longer record.
pub record Faults : Type 0 where
  pub failed_after : Option ℕ
  pub kept : Bytes → Bytes
  pub tip_failed : Bool

-- Time and actor of a record.
pub record Stamp : Type 0 where
  pub now : Text
  pub actor : Text

-- What a call returns or raises, and what it leaves.
pub record Emitted : Type 0 where
  pub outcome : Result (Unit {0})
  pub log : AuditLog
  pub disk : Disk
