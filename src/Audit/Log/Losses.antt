-- ===== src/Audit/Log/Losses.antt =====
-- storage/audit_log.py: records that could not be written are counted, and the count is reported.
use gpg_meister.Audit.Log.{
  append_line, chain_fields, check_emit, emit, fields_of, rescan, write_record,
}
use gpg_meister.Audit.Record.{AuditFields, AuditLibrary, AuditLog, Disk, Faults, Stamp}
use gpg_meister.Audit.Secrets.{Entries}
use gpg_meister.Base.{
  Bool-cases, [], ap, arith, if◌then◌else◌, inl, inr, none, ok, refl, some, suc, ℕ, ◌++◌, ◌+◌, ◌∙◌,
  ◌∷◌, ◌≡◌,
}
use gpg_meister.Python.{Bytes, Text}
use gpg_meister.Python.Lines.{newline}

-- the state in which `_write_record` finds the log
abbrev pub writing_state : AuditLibrary → AuditLog → Disk → AuditLog
writing_state lib log d = if log.hash_chain then rescan lib log d else log

-- An event that passes the guards and can be serialised, to the line.
pub record IsEvent (lib : AuditLibrary) (stamp : Stamp) (event outcome : Text) (payload : Entries)
    (log : AuditLog) (d : Disk) (line : Bytes) : Type 0 where
  pub checked : check_emit lib event outcome payload ≡ ok tt
  pub written :
      lib.dumps (chain_fields (writing_state lib log d) (fields_of stamp event outcome payload))
      ≡ some line

-- A run of events whose appends fail, by their number. In between, the disk is anything.
pub data Loses (lib : AuditLibrary) : ℕ → AuditLog → AuditLog → Type 0 where
  none_lost : (log : AuditLog) → Loses lib 0 log log
  one_lost :
      (n : ℕ) (log after : AuditLog) (faults : Faults) (stamp : Stamp) (event outcome : Text)
      (payload : Entries) (d : Disk) (line : Bytes) (k : ℕ)
      → Loses lib n log after
      → faults.failed_after ≡ some k
      → IsEvent lib stamp event outcome payload after d line
      → Loses lib (suc n) log (emit lib faults stamp event outcome payload after d).log

emit-IsEvent :
    {lib : AuditLibrary} {stamp : Stamp} {event outcome : Text} {payload : Entries} {log : AuditLog}
    {d : Disk} {line : Bytes} (faults : Faults)
    → IsEvent lib stamp event outcome payload log d line
    → emit lib faults stamp event outcome payload log d
      ≡ append_line lib faults line (writing_state lib log d) d
unfolding emit write_record
emit-IsEvent faults event = rw (event.checked, event.written) refl

writing_state-dropped :
    (lib : AuditLibrary) (log : AuditLog) (d : Disk)
    → (writing_state lib log d).dropped ≡ log.dropped
unfolding rescan
writing_state-dropped lib log d = elim (Bool-cases log.hash_chain) [
  | inl e ↦ rw e refl
  | inr e ↦ rw e refl
]

append_line-lost :
    (lib : AuditLibrary) (faults : Faults) (line : Bytes) (log : AuditLog) (d : Disk) (k : ℕ)
    → faults.failed_after ≡ some k
    → (append_line lib faults line log d).log.dropped ≡ log.dropped + 1
unfolding append_line
append_line-lost lib faults line log d k failed = rw failed refl

append_line-whole :
    (lib : AuditLibrary) (faults : Faults) (line : Bytes) (log : AuditLog) (d : Disk)
    → faults.failed_after ≡ none
    → ((append_line lib faults line log d).disk.file
        ≡ d.file ++ (log.pending ++ (line ++ newline ∷ [])))
      × ((append_line lib faults line log d).log.dropped ≡ 0)
unfolding append_line
append_line-whole lib faults line log d whole = rw whole (refl, refl)

chain_fields-dropped :
    (log : AuditLog) (f : AuditFields) (n : ℕ)
    → log.dropped ≡ suc n
    → (chain_fields log f).dropped ≡ some (suc n)
unfolding chain_fields
chain_fields-dropped log f n h = ground (arith, h)

writing_state-pending :
    (lib : AuditLibrary) (log : AuditLog) (d : Disk)
    → (writing_state lib log d).pending ≡ log.pending
unfolding rescan
writing_state-pending lib log d = elim (Bool-cases log.hash_chain) [
  | inl e ↦ rw e refl
  | inr e ↦ rw e refl
]

Loses-dropped :
    {lib : AuditLibrary} {n : ℕ} {log after : AuditLog}
    → Loses lib n log after
    → after.dropped ≡ log.dropped + n
Loses-dropped (none_lost log) = omega arith
Loses-dropped {lib = lib}
      (one_lost n log after faults stamp event outcome payload d line k lost failed is_event) =
    rw (emit-IsEvent faults is_event) (
      append_line-lost lib faults line (writing_state lib after d) d k failed
      ∙ omega (arith, writing_state-dropped lib after d, Loses-dropped lost))

-- A process without losses whose next events, one at least, pass the guards and fail to be written:
-- the next record that is written in full tells their number, stands in the file behind what was
-- pending, and the count starts again.
pub Loses-reported :
    {lib : AuditLibrary} {n : ℕ} {log after : AuditLog} {stamp : Stamp} {event outcome : Text}
    {payload : Entries} {d : Disk} {line : Bytes} (faults : Faults)
    → log.dropped ≡ 0
    → Loses lib (suc n) log after
    → IsEvent lib stamp event outcome payload after d line
    → faults.failed_after ≡ none
    → ((chain_fields (writing_state lib after d) (fields_of stamp event outcome payload)).dropped
        ≡ some (suc n))
      × ((emit lib faults stamp event outcome payload after d).disk.file
          ≡ d.file ++ (after.pending ++ (line ++ newline ∷ [])))
      × ((emit lib faults stamp event outcome payload after d).log.dropped ≡ 0)
Loses-reported {lib = lib} {n = n} {after = after} {stamp = stamp} {event = event}
      {outcome = outcome} {payload = payload} {d = d} {line = line} faults none_before lost is_event
      whole =
    let (file, reset) = append_line-whole lib faults line (writing_state lib after d) d whole in
    let event_step = emit-IsEvent faults is_event in
    (
      chain_fields-dropped (writing_state lib after d) (fields_of stamp event outcome payload) n
          (omega (arith, writing_state-dropped lib after d, Loses-dropped lost)),
      rw event_step (
          file
          ∙ ap (λ held. d.file ++ (held ++ (line ++ newline ∷ [])))
              (writing_state-pending lib after d)),
      rw event_step reset,
    )
