-- ===== src/Audit/Chain/Reached.antt =====
-- storage/audit_log.py: the disks that the processes which emit events reach.
use gpg_meister.Audit.Chain.{file_of, no_records}
use gpg_meister.Audit.Chain.Emitted.{
  Extends, FitsTail, IsChained, emit_checked-IsChained, emit_checked-written, line_of, line_of-next,
  scan-IsChained,
}
use gpg_meister.Audit.Chain.Tip.{max_records, no_tip, tip_at, verify_chain-IsChain}
use gpg_meister.Audit.Log.{
  append_line, check_emit, emit, fields_of, rescan, scan_tail_state, tip_bytes,
}
use gpg_meister.Audit.Record.{AuditLibrary, AuditLog, Disk, Faults, Stamp, tail_chunk}
use gpg_meister.Audit.Secrets.{Entries}
use gpg_meister.Audit.Verify.{verify_chain}
use gpg_meister.Base.{
  List, [], ap, arith, false, length, none, ok, refl, some, suc, true, ◌++◌, ◌+◌, ◌<◌, ◌∙◌, ◌∷◌,
  ◌≡◌,
}
use gpg_meister.Python.{Bytes, Text}
use gpg_meister.Python.Lines.{newline}

-- Some process, with any state of its own but no failed flush behind it, emits an event.
pub data Emits (lib : AuditLibrary) (d : Disk) : Disk → Type 0 where
  emitted :
      (faults : Faults) (stamp : Stamp) (event outcome : Text) (payload : Entries) (log : AuditLog)
      → log.hash_chain ≡ true
      → log.pending ≡ []
      → FitsTail lib faults (fields_of stamp event outcome payload) log d
      → Emits lib d (emit lib faults stamp event outcome payload log d).disk

-- The disks that processes reach from a disk without a log.
pub data Reaches (lib : AuditLibrary) : Disk → Type 0 where
  no_log : Reaches lib (record { file = []; tip = none })
  after_emit : (d after : Disk) → Reaches lib d → Emits lib d after → Reaches lib after

-- On a chained log, `emit` is an operation of the abstract log: it leaves the list of records as it
-- was or puts one record in front. A line must be shorter than the tail, appends fail in full, and
-- no process emits behind a failed flush of its own.
pub Emits-IsChained :
    {lib : AuditLibrary} {lines : List Bytes} {d after : Disk}
    → IsChained lib lines d
    → Emits lib d after
    → (more : List Bytes) × Extends lines more × IsChained lib more after
unfolding emit
Emits-IsChained {lib = lib} {d = d} sound
      (emitted faults stamp event outcome payload log mode clean fits) =
    emit_checked-IsChained lib faults (fields_of stamp event outcome payload) log
      (check_emit lib event outcome payload) sound mode clean fits

-- Whatever processes emit, in any order and with whatever appends and tip writes fail in full, the
-- log file holds a chain of records, and the tip file is missing or names one of them. A line must
-- be shorter than the tail, and no process emits behind a failed flush of its own.
pub Reaches-IsChained :
    {lib : AuditLibrary} {d : Disk} → Reaches lib d → (lines : List Bytes) × IsChained lib lines d
Reaches-IsChained no_log =
    ([], record { file_lines = unfold file_of in refl; chain = no_records; tip = no_tip [] })
Reaches-IsChained (after_emit d after reached step) =
    let (lines, sound) = Reaches-IsChained reached in
    let (more, extends, chained) = Emits-IsChained sound step in (more, chained)

append_line-written :
    (lib : AuditLibrary) (line : Bytes) (log : AuditLog) (d : Disk)
    → log.hash_chain ≡ true
    → log.pending ≡ []
    → (append_line lib
        (record { failed_after = none; kept = λ b. b; tip_failed = false })
        line
        log
        d).disk
      ≡ record {
        file = d.file ++ (line ++ newline ∷ []);
        tip = some (tip_bytes (lib.digest line) log.seq);
      }
unfolding append_line
append_line-written lib line log d mode clean = rw (mode, clean) refl

emit-written :
    (lib : AuditLibrary) (stamp : Stamp) (event outcome : Text) (payload : Entries) (log : AuditLog)
    (d : Disk) (line : Bytes)
    → log.hash_chain ≡ true
    → log.pending ≡ []
    → check_emit lib event outcome payload ≡ ok tt
    → line_of lib (fields_of stamp event outcome payload) log d ≡ some line
    → (emit lib
        (record { failed_after = none; kept = λ b. b; tip_failed = false })
        stamp
        event
        outcome
        payload
        log
        d).disk
      ≡ record {
        file = d.file ++ (line ++ newline ∷ []);
        tip = some (tip_bytes (lib.digest line) (scan_tail_state lib d.file).1);
      }
unfolding emit
emit-written lib stamp event outcome payload log d line mode clean checked written =
    rw
      (
        checked,
        emit_checked-written lib (record { failed_after = none; kept = λ b. b; tip_failed = false })
            tt (fields_of stamp event outcome payload) log d mode,
        written,
      )
      (append_line-written lib line (rescan lib log d) d (unfold rescan in mode)
          (unfold rescan in clean)
        ∙ unfold rescan in refl)

-- On a chained log of fewer than 10^19 records, whatever its tip was before: an event that passes the
-- guards and is written in full, by a process with nothing pending and on a line shorter than the
-- tail, leaves a log that verifies with one record more.
pub emit-verify_chain :
    (lib : AuditLibrary) (stamp : Stamp) (event outcome : Text) (payload : Entries) (log : AuditLog)
    {lines : List Bytes} (d : Disk) (line : Bytes)
    → IsChained lib lines d
    → length lines < max_records
    → log.hash_chain ≡ true
    → log.pending ≡ []
    → check_emit lib event outcome payload ≡ ok tt
    → line_of lib (fields_of stamp event outcome payload) log d ≡ some line
    → length line < tail_chunk
    → verify_chain lib
        (emit lib
          (record { failed_after = none; kept = λ b. b; tip_failed = false })
          stamp
          event
          outcome
          payload
          log
          d).disk
      ≡ ok (true, length lines + 1)
emit-verify_chain lib stamp event outcome payload log {lines = lines} d line sound few mode clean
      checked written short =
    rw
      (
        emit-written lib stamp event outcome payload log d line mode clean checked written,
        ap (λ state. state.1) (scan-IsChained lib sound),
        sound.file_lines,
      )
      (recorded ∙ ap (λ n. ok (true, n)) (omega arith))
  where
    recorded :
        verify_chain lib (record {
          file = file_of lines ++ (line ++ newline ∷ []);
          tip = some (tip_bytes (lib.digest line) (length lines));
        })
        ≡ ok (true, suc (length lines))
    recorded =
        unfold file_of in
        verify_chain-IsChain lib
          (line_of-next lib (fields_of stamp event outcome payload) log sound mode written short)
          (tip_at [] line lines) (omega arith)
