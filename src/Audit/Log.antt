-- ===== src/Audit/Log.antt =====
-- storage/audit_log.py: the writing of records, and the recovery of the state from the tail.
-- `_check_payload(event, payload)`
pub mod Safe
pub mod Losses
use gpg_meister.Audit.Record.{
  AuditFields, AuditLibrary, AuditLog, Disk, Emitted, Faults, JsonField, JsonLine, Stamp,
  allowed_events, nat_field, object_line, reserved_envelope_keys, tail_chunk, valid_outcomes,
}
use gpg_meister.Audit.Secrets.{
  Entries, Violation, dict_value, entry_of, find_secret_violation, is_member, no_entries,
  other_value, str_key,
}
use gpg_meister.Base.{
  Bool, List, Option, Result, [], audit_log_error, drop, err, if◌then◌else◌, is_empty, length, ltb,
  min, none, not, ok, raise_if, reverse, some, take, type_error, ℕ, ◌++◌, ◌+◌, ◌-◌, ◌>>=◌, ◌>>◌,
  ◌∷◌,
}
use gpg_meister.Python.{Bytes, Text}
use gpg_meister.Python.Decimal.{decimal}
use gpg_meister.Python.Lines.{newline, split_lines, strip}
use gpg_meister.Python.Text.{codes}

unfoldable pub no_violation : Option Violation → Result (Unit {0})
no_violation none = ok tt
no_violation (some v) = err (audit_log_error "audit payload policy violation")

unfoldable pub check_payload : AuditLibrary → Text → Entries → Result (Unit {0})
unfolding no_violation
check_payload lib event payload = do
  raise_if (not (is_member event allowed_events))
      (audit_log_error "event is not in the audit whitelist")
  no_violation (find_secret_violation lib.lower reserved_envelope_keys (dict_value payload))

-- `_seq_after(line)`
abbrev pub after_field : JsonField → ℕ
after_field (nat_field n) = n + 1
after_field f = 0

abbrev pub after_json : JsonLine → ℕ
after_json (object_line h f) = after_field f
after_json l = 0

unfoldable pub seq_after : AuditLibrary → Bytes → ℕ
seq_after lib line = after_json (lib.loads line)

-- the first line that is not blank, stripped
unfoldable pub first_nonblank : List Bytes → Option Bytes
first_nonblank [] = none
first_nonblank (l ∷ ls) =
    let rest = first_nonblank ls in if is_empty (strip l) then rest else some (strip l)

-- the full scan, which keeps the last line that is not blank
unfoldable pub last_nonblank : List Bytes → Option Bytes → Option Bytes
last_nonblank [] last = last
last_nonblank (l ∷ ls) last = last_nonblank ls (if is_empty (strip l) then last else some (strip l))

abbrev pub or_full_scan : Bytes → Option Bytes → Option Bytes
or_full_scan file (some l) = some l
or_full_scan file none = last_nonblank (split_lines file) none

abbrev pub state_of : AuditLibrary → Option Bytes → Option Text × ℕ
state_of lib none = (none, 0)
state_of lib (some l) = (some (lib.digest l), seq_after lib l)

-- the last `min(size, _TAIL_CHUNK)` bytes
abbrev pub tail_of : Bytes → Bytes
tail_of file = drop (length file - min (length file) tail_chunk) file

-- `_scan_tail_state()`
unfoldable pub scan_tail_state : AuditLibrary → Bytes → Option Text × ℕ
scan_tail_state lib [] = (none, 0)
scan_tail_state lib (b ∷ file) =
    state_of lib
      (or_full_scan (b ∷ file) (first_nonblank (reverse (split_lines (tail_of (b ∷ file))))))

-- `self._prev_hash or ""`
abbrev pub or_empty_hash : Option Text → Text
or_empty_hash none = []
or_empty_hash (some h) = h

-- the fields that `_write_record` adds
unfoldable pub chain_fields : AuditLog → AuditFields → AuditFields
chain_fields log f = record f {
  prev_hash = if log.hash_chain then some (or_empty_hash log.prev_hash) else none;
  seq = if log.hash_chain then some log.seq else none;
  dropped = if ltb 0 log.dropped then some log.dropped else none;
}

-- `f"{self._prev_hash} {self._seq - 1}\n"`, where `n` is the number of the record
abbrev pub tip_bytes : Text → ℕ → Bytes
tip_bytes h n = h ++ b' ' ∷ (decimal n ++ newline ∷ [])

-- the tip that a write leaves
abbrev pub next_tip : Bool → Option Bytes → Text → ℕ → Option Bytes
next_tip failed tip h n = if failed then tip else some (tip_bytes h n)

-- the append of a line, and what follows it
unfoldable pub append_line : AuditLibrary → Faults → Bytes → AuditLog → Disk → Emitted
append_line lib faults line log d =
    let flushed = log.pending ++ (line ++ newline ∷ []) in
    elim faults.failed_after [
      | some k ↦ record {
        outcome = ok tt;
        log = record log { dropped = log.dropped + 1; pending = faults.kept (drop k flushed) };
        disk = record d { file = d.file ++ take k flushed };
      }
      | none ↦ record {
        outcome = ok tt;
        log = record log {
          dropped = 0;
          seq = log.seq + 1;
          prev_hash = if log.hash_chain then some (lib.digest line) else log.prev_hash;
          pending = [];
        };
        disk = record {
          file = d.file ++ flushed;
          tip =
              if log.hash_chain
              then next_tip faults.tip_failed d.tip (lib.digest line) log.seq
              else d.tip;
        };
      }
    ]

abbrev pub write_line : AuditLibrary → Faults → Option Bytes → AuditLog → Disk → Emitted
write_line lib faults none log d = record {
  outcome = err (type_error "Object is not JSON serializable");
  log = log;
  disk = d;
}
write_line lib faults (some line) log d = append_line lib faults line log d

-- `_write_record(record)`
unfoldable pub write_record : AuditLibrary → Faults → AuditFields → AuditLog → Disk → Emitted
write_record lib faults f log d = write_line lib faults (lib.dumps (chain_fields log f)) log d

-- the state after `self._prev_hash, self._seq = self._scan_tail_state()`
unfoldable pub rescan : AuditLibrary → AuditLog → Disk → AuditLog
rescan lib log d = record log {
  prev_hash = (scan_tail_state lib d.file).0;
  seq = (scan_tail_state lib d.file).1;
}

-- the guards of `emit`
unfoldable pub check_emit : AuditLibrary → Text → Text → Entries → Result (Unit {0})
check_emit lib event outcome payload = do
  raise_if (not (is_member outcome valid_outcomes)) (audit_log_error "invalid outcome")
  check_payload lib event payload

abbrev pub fields_of : Stamp → Text → Text → Entries → AuditFields
fields_of stamp event outcome payload = record {
  ts = stamp.now;
  event = event;
  actor = stamp.actor;
  outcome = outcome;
  payload = payload;
  prev_hash = none;
  seq = none;
  dropped = none;
}

abbrev pub emit_checked :
    AuditLibrary → Faults → Result (Unit {0}) → AuditFields → AuditLog → Disk → Emitted
emit_checked lib faults (err e) f log d = record { outcome = err e; log = log; disk = d }
emit_checked lib faults (ok u) f log d =
    write_record lib faults f (if log.hash_chain then rescan lib log d else log) d

-- `emit(event, outcome, **payload)`
unfoldable pub emit :
    AuditLibrary → Faults → Stamp → Text → Text → Entries → AuditLog → Disk → Emitted
emit lib faults stamp event outcome payload log d =
    emit_checked lib faults (check_emit lib event outcome payload)
      (fields_of stamp event outcome payload) log d

-- `AuditLog(path, hash_chain=...)`: the state is set up and the log announces itself.
unfoldable pub open_log : AuditLibrary → Faults → Stamp → Bool → Disk → Emitted
open_log lib faults stamp hash_chain d =
    let fresh : AuditLog = record {
      hash_chain = hash_chain;
      prev_hash = none;
      seq = 0;
      dropped = 0;
      pending = [];
    } in
    emit lib faults stamp (codes "audit_log_opened") (codes "ok")
      (entry_of (str_key (codes "hash_chain")) (other_value (if hash_chain then 1 else 0))
        no_entries)
      (if hash_chain then rescan lib fresh d else fresh) d

-- `emit_best_effort(audit, event, outcome, **payload)`: an exception is swallowed.
unfoldable pub emit_best_effort :
    AuditLibrary → Faults → Stamp → Text → Text → Entries → AuditLog → Disk → Emitted
emit_best_effort lib faults stamp event outcome payload log d =
    record (emit lib faults stamp event outcome payload log d) { outcome = ok tt }
