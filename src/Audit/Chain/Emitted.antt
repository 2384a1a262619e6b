-- ===== src/Audit/Chain/Emitted.antt =====
-- storage/audit_log.py: what `emit` makes of a chained log that several processes write.
use gpg_meister.Audit.Chain.{IsChain, file_of, head_of, next_record}
use gpg_meister.Audit.Chain.Tail.{scan_tail_state-file_of}
use gpg_meister.Audit.Chain.Tip.{IsTip, no_tip, tip_at}
use gpg_meister.Audit.Log.{
  append_line, chain_fields, emit_checked, next_tip, or_empty_hash, rescan, scan_tail_state,
  write_line, write_record,
}
use gpg_meister.Audit.Record.{AuditFields, AuditLibrary, AuditLog, Disk, Faults, tail_chunk}
use gpg_meister.Base.{
  Bool, List, Option, Result, [], ap, append-nil, arith, err, false, length, length-append, none,
  ok, refl, some, sym, take, take_within, true, ℕ, ◌++◌, ◌+◌, ◌<◌, ◌∙◌, ◌∷◌, ◌≡◌,
}
use gpg_meister.Python.{Bytes, Text}
use gpg_meister.Python.Lines.{newline}

-- The disk holds the records of a chain, and a tip of it.
pub record IsChained (lib : AuditLibrary) (lines : List Bytes) (d : Disk) : Type 0 where
  pub file_lines : d.file ≡ file_of lines
  pub chain : IsChain lib lines
  pub tip : IsTip lib lines d.tip

-- An append writes all of a line or nothing: it succeeds, it fails before the first byte, or the
-- `fsync` behind it fails.
pub data IsWhole (size : ℕ) : Option ℕ → Type 0 where
  write_done : IsWhole size none
  write_lost : IsWhole size (some 0)
  sync_lost : IsWhole size (some size)

IsTip-newer :
    {lib : AuditLibrary} {lines : List Bytes} {tip : Option Bytes} (line : Bytes)
    → IsTip lib lines tip
    → IsTip lib (line ∷ lines) tip
IsTip-newer line (no_tip lines) = no_tip (line ∷ lines)
IsTip-newer line (tip_at newer first older) = tip_at (line ∷ newer) first older

-- the line that a process writes for a record
abbrev pub line_of : AuditLibrary → AuditFields → AuditLog → Disk → Option Bytes
line_of lib f log d = lib.dumps (chain_fields (rescan lib log d) f)

rescan-chain_fields :
    (lib : AuditLibrary) (f : AuditFields) (log : AuditLog) (d : Disk) (h : Option Text) (n : ℕ)
    → log.hash_chain ≡ true
    → scan_tail_state lib d.file ≡ (h, n)
    → ((chain_fields (rescan lib log d) f).prev_hash ≡ some (or_empty_hash h))
      × ((chain_fields (rescan lib log d) f).seq ≡ some n)
unfolding chain_fields rescan
rescan-chain_fields lib f log d h n mode scan = rw (mode, scan) (refl, refl)

pub scan-IsChained :
    (lib : AuditLibrary) {lines : List Bytes} {d : Disk}
    → IsChained lib lines d
    → scan_tail_state lib d.file ≡ (head_of lib lines, length lines)
scan-IsChained lib sound =
    ap (scan_tail_state lib) sound.file_lines ∙ scan_tail_state-file_of lib sound.chain

pub line_of-next :
    (lib : AuditLibrary) (f : AuditFields) (log : AuditLog) {lines : List Bytes} {d : Disk}
    {line : Bytes}
    → IsChained lib lines d
    → log.hash_chain ≡ true
    → line_of lib f log d ≡ some line
    → length line < tail_chunk
    → IsChain lib (line ∷ lines)
line_of-next lib f log {lines = lines} {d = d} {line = line} sound mode written short =
    let fields = chain_fields (rescan lib log d) f in
    let (hash, at) =
      rescan-chain_fields lib f log d (head_of lib lines) (length lines) mode
        (scan-IsChained lib sound) in
    next_record line lines (lib.dumps-IsObjectLine fields line written)
      (lib.loads-dumps fields line (or_empty_hash (head_of lib lines)) (length lines) written hash
        at)
      short sound.chain

-- the disk behind a line that was written
written_line :
    (lib : AuditLibrary) (line : Bytes) {lines : List Bytes} {d : Disk} {tip : Option Bytes}
    → IsChained lib lines d
    → IsChain lib (line ∷ lines)
    → IsTip lib (line ∷ lines) tip
    → IsChained lib (line ∷ lines) (record { file = d.file ++ (line ++ newline ∷ []); tip = tip })
written_line lib line sound next at = record {
  file_lines = unfold file_of in ap (λ file. file ++ (line ++ newline ∷ [])) sound.file_lines;
  chain = next;
  tip = at;
}

next_tip-IsTip :
    (lib : AuditLibrary) (failed : Bool) (line : Bytes) {lines : List Bytes} {tip : Option Bytes}
    → IsTip lib lines tip
    → IsTip lib (line ∷ lines) (next_tip failed tip (lib.digest line) (length lines))
next_tip-IsTip lib true line at = IsTip-newer line at
next_tip-IsTip lib false line {lines = lines} at = tip_at [] line lines

kept_disk :
    {lib : AuditLibrary} {lines : List Bytes} {d : Disk}
    → IsChained lib lines d
    → IsChained lib lines (record d { file = d.file ++ [] })
kept_disk {d = d} sound = record {
  file_lines = append-nil d.file ∙ sound.file_lines;
  chain = sound.chain;
  tip = sound.tip;
}

-- The abstract log: a list of records that an event leaves or makes one longer.
pub data Extends (lines : List Bytes) : List Bytes → Type 0 where
  unchanged : Extends lines lines
  one_more : (line : Bytes) → Extends lines (line ∷ lines)

append_line-IsChained :
    (lib : AuditLibrary) (line : Bytes) (failed_after : Option ℕ) (kept : Bytes → Bytes)
    (tip_failed : Bool) (log : AuditLog) {lines : List Bytes} {d : Disk}
    → IsChained lib lines d
    → IsChain lib (line ∷ lines)
    → IsWhole (length line + 1) failed_after
    → log.hash_chain ≡ true
    → log.pending ≡ []
    → log.seq ≡ length lines
    → (after : List Bytes) × Extends lines after
      × IsChained lib after
          (append_line lib
            (record { failed_after = failed_after; kept = kept; tip_failed = tip_failed })
            line
            log
            d).disk
unfolding append_line
append_line-IsChained lib line _ kept tip_failed log {lines = lines} sound next write_done mode
      clean at =
    (
      line ∷ lines,
      one_more line,
      rw (mode, at, clean)
          (written_line lib line sound next (next_tip-IsTip lib tip_failed line sound.tip)),
    )
append_line-IsChained lib line _ kept tip_failed log {lines = lines} sound next write_lost mode
      clean at =
    (lines, unchanged, kept_disk sound)
append_line-IsChained lib line _ kept tip_failed log {lines = lines} {d = d} sound next sync_lost
      mode clean at =
    let whole : take (length line + 1) (line ++ newline ∷ []) ≡ line ++ newline ∷ [] =
      take_within (length line + 1) (line ++ newline ∷ [])
        (omega (arith, length-append line (newline ∷ []))) in
    (
      line ∷ lines,
      one_more line,
      rw (clean, whole) (written_line lib line sound next (IsTip-newer line sound.tip)),
    )

-- What the writer and the disk do with one event: a line that fits the tail is appended whole.
abbrev pub FitsTail : AuditLibrary → Faults → AuditFields → AuditLog → Disk → Type 0
FitsTail lib faults f log d =
    (line : Bytes)
    → line_of lib f log d ≡ some line
    → (length line < tail_chunk) × IsWhole (length line + 1) faults.failed_after

pub emit_checked-written :
    (lib : AuditLibrary) (faults : Faults) (u : Unit {0}) (f : AuditFields) (log : AuditLog)
    (d : Disk)
    → log.hash_chain ≡ true
    → emit_checked lib faults (ok u) f log d
      ≡ write_line lib faults (line_of lib f log d) (rescan lib log d) d
unfolding write_record
emit_checked-written lib faults u f log d mode = rw mode refl

write_line-IsChained :
    (lib : AuditLibrary) (faults : Faults) (f : AuditFields) (log : AuditLog) {lines : List Bytes}
    {d : Disk} (written : Option Bytes)
    → written ≡ line_of lib f log d
    → IsChained lib lines d
    → log.hash_chain ≡ true
    → log.pending ≡ []
    → FitsTail lib faults f log d
    → (after : List Bytes) × Extends lines after
      × IsChained lib after (write_line lib faults written (rescan lib log d) d).disk
write_line-IsChained lib faults f log {lines = lines} none e sound mode clean fits =
    (lines, unchanged, sound)
write_line-IsChained lib faults f log {d = d} (some line) e sound mode clean fits =
    let (short, whole) = fits line (sym e) in
    append_line-IsChained lib line faults.failed_after faults.kept faults.tip_failed
      (rescan lib log d) sound (line_of-next lib f log sound mode (sym e) short) whole
      (unfold rescan in mode) (unfold rescan in clean)
      (unfold rescan in ap (λ state. state.1) (scan-IsChained lib sound))

pub emit_checked-IsChained :
    (lib : AuditLibrary) (faults : Faults) (f : AuditFields) (log : AuditLog)
    (checked : Result (Unit {0})) {lines : List Bytes} {d : Disk}
    → IsChained lib lines d
    → log.hash_chain ≡ true
    → log.pending ≡ []
    → FitsTail lib faults f log d
    → (after : List Bytes) × Extends lines after
      × IsChained lib after (emit_checked lib faults checked f log d).disk
emit_checked-IsChained lib faults f log (err e) {lines = lines} sound mode clean fits =
    (lines, unchanged, sound)
emit_checked-IsChained lib faults f log (ok u) {d = d} sound mode clean fits =
    rw (emit_checked-written lib faults u f log d mode)
      (write_line-IsChained lib faults f log (line_of lib f log d) refl sound mode clean fits)
