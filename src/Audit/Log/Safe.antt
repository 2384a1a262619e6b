-- ===== src/Audit/Log/Safe.antt =====
-- storage/audit_log.py: what `emit` lets through to the disk.
use gpg_meister.Audit.Log.{
  append_line, chain_fields, check_emit, emit, emit_checked, fields_of, rescan, write_line,
  write_record,
}
use gpg_meister.Audit.Record.{
  AuditFields, AuditLibrary, AuditLog, Disk, Faults, Stamp, allowed_events, reserved_envelope_keys,
  valid_outcomes,
}
use gpg_meister.Audit.Secrets.{Entries}
use gpg_meister.Audit.Secrets.Clean.{IsClean}
use gpg_meister.Base.{
  Error, List, Option, Option-cases, Result, err, if◌then◌else◌, inl, inr, none, ok, refl, some,
  ◌++◌, ◌∷◌, ◌≡◌,
}
use gpg_meister.Python.{Bytes, Text}

-- `t` is one of `names`.
abbrev pub IsAmong : List Text → Text → Type 0
IsAmong names t = (before after : List Text) × (names ≡ before ++ t ∷ after)

-- What may be written: an event of the whitelist, an outcome that there is, and a payload that holds
-- no secret at any depth and no key of the envelope.
pub record IsAllowed (lib : AuditLibrary) (event outcome : Text) (payload : Entries) : Type 0 where
  pub known_event : IsAmong allowed_events event
  pub known_outcome : IsAmong valid_outcomes outcome
  pub no_secret : IsClean lib.lower reserved_envelope_keys payload

append_line-ok :
    (lib : AuditLibrary) (faults : Faults) (line : Bytes) (log : AuditLog) (d : Disk)
    → (append_line lib faults line log d).outcome ≡ ok tt
unfolding append_line
append_line-ok lib faults line log d = elim (Option-cases faults.failed_after) [
  | inl e ↦ rw e refl
  | inr (k, e) ↦ rw e refl
]

write_line-raised :
    (lib : AuditLibrary) (faults : Faults) (written : Option Bytes) (log : AuditLog) (d : Disk)
    (e : Error)
    → (write_line lib faults written log d).outcome ≡ err e
    → (write_line lib faults written log d).disk ≡ d
write_line-raised lib faults none log d e h = refl
write_line-raised lib faults (some line) log d e h =
    let passed = append_line-ok lib faults line log d in absurd (cc (h, passed))

emit_checked-raised :
    (lib : AuditLibrary) (faults : Faults) (checked : Result (Unit {0})) (f : AuditFields)
    (log : AuditLog) (d : Disk) (e : Error)
    → (emit_checked lib faults checked f log d).outcome ≡ err e
    → (emit_checked lib faults checked f log d).disk ≡ d
unfolding write_record
emit_checked-raised lib faults (err e') f log d e h = refl
emit_checked-raised lib faults (ok u) f log d e h =
    let state = if log.hash_chain then rescan lib log d else log in
    write_line-raised lib faults (lib.dumps (chain_fields state f)) state d e h

-- A call that raises leaves the disk as it was: a write that fails does not raise.
pub emit-raised :
    (lib : AuditLibrary) (faults : Faults) (stamp : Stamp) (event outcome : Text)
    (payload : Entries) (log : AuditLog) (d : Disk) (e : Error)
    → (emit lib faults stamp event outcome payload log d).outcome ≡ err e
    → (emit lib faults stamp event outcome payload log d).disk ≡ d
unfolding emit
emit-raised lib faults stamp event outcome payload log d e h =
    emit_checked-raised lib faults (check_emit lib event outcome payload)
      (fields_of stamp event outcome payload) log d e h
