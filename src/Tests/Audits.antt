-- ===== src/Tests/Audits.antt =====
-- The theorems on the audit log, on a log that two processes write.
use gpg_meister.Audit.Chain.{IsChain, file_of, next_record, no_records}
use gpg_meister.Audit.Chain.Edited.{IsRefused, verify_chain-edited, verify_chain-truncated}
use gpg_meister.Audit.Chain.Emitted.{Extends, FitsTail, IsChained, line_of, write_done}
use gpg_meister.Audit.Chain.Reached.{
  Emits-IsChained, Reaches-IsChained, after_emit, emit-verify_chain, emitted, no_log,
}
use gpg_meister.Audit.Chain.Removed.{verify_chain-removed}
use gpg_meister.Audit.Chain.Stale.{emit-repeated}
use gpg_meister.Audit.Chain.Tip.{tip_at, verify_chain-IsChain}
use gpg_meister.Audit.Log.{
  append_line, chain_fields, check_emit, check_payload, emit, fields_of, first_nonblank, rescan,
  scan_tail_state, seq_after, tip_bytes, write_record,
}
use gpg_meister.Audit.Log.Losses.{IsEvent, Loses-reported, none_lost, one_lost, writing_state}
use gpg_meister.Audit.Log.Safe.{emit-raised}
use gpg_meister.Audit.Record.{
  AuditFields, AuditLog, Disk, Faults, IsObjectLine, Stamp, nat_field, object_line, tail_chunk,
  text_field,
}
use gpg_meister.Audit.Secrets.{
  Entries, entry_of, find_secret_violation, is_member, item_of, list_value, no_entries, no_items,
  str_key, str_value,
}
use gpg_meister.Audit.Verify.{verify_chain}
use gpg_meister.Base.{
  List, String, [], ap, arith, audit_log_error, false, length, none, ok, refl, some, subst, true, ℕ,
  ◌++◌, ◌<◌, ◌∷◌, ◌≡◌,
}
use gpg_meister.Python.{Bytes, Text}
use gpg_meister.Python.Lines.{lstrip, newline, split_lines, strip}
use gpg_meister.Python.Text.{codes}
use gpg_meister.Tests.AuditToy.{audit_toy, fields_line}

abbrev stamp : Stamp
stamp = record { now = codes "2026-01-01T00:00:00Z"; actor = codes "user" }

-- the state of a process that opened an empty log
abbrev writer : AuditLog
writer = record { hash_chain = true; prev_hash = none; seq = 0; dropped = 0; pending = [] }

abbrev no_faults : Faults
no_faults = record { failed_after = none; kept = λ b. b; tip_failed = false }

abbrev empty_disk : Disk
empty_disk = record { file = []; tip = none }

-- the record of an event, with the hash and the number that it carries
abbrev recorded : String → Text → ℕ → AuditFields
recorded event h n = record (fields_of stamp (codes event) (codes "ok") no_entries) {
  prev_hash = some h;
  seq = some n;
}

abbrev line_of_event : String → Text → ℕ → Bytes
line_of_event event h n = fields_line (recorded event h n)

abbrev first : Bytes
first = line_of_event "audit_log_opened" [] 0

abbrev second : Bytes
second = line_of_event "key_generated" (audit_toy.digest first) 1

abbrev third : Bytes
third = line_of_event "key_deleted" (audit_toy.digest second) 2

abbrev edited : Bytes
edited = line_of_event "key_imported" (audit_toy.digest first) 1

shape : (event : String) (h : Text) (n : ℕ) → IsObjectLine (line_of_event event h n)
shape event h n = audit_toy.dumps-IsObjectLine (recorded event h n) (line_of_event event h n) refl

follows :
    (event : String) (h : Text) (n : ℕ)
    → audit_toy.loads (line_of_event event h n) ≡ object_line (text_field h) (nat_field n)
follows event h n =
    audit_toy.loads-dumps (recorded event h n) (line_of_event event h n) h n refl refl refl

first-IsChain : IsChain audit_toy (first ∷ [])
first-IsChain =
    next_record first [] (shape "audit_log_opened" [] 0) (follows "audit_log_opened" [] 0)
      (omega arith) no_records

second-IsChain : IsChain audit_toy (second ∷ first ∷ [])
second-IsChain =
    next_record second (first ∷ []) (shape "key_generated" (audit_toy.digest first) 1)
      (follows "key_generated" (audit_toy.digest first) 1) (omega arith) first-IsChain

third-IsChain : IsChain audit_toy (third ∷ second ∷ first ∷ [])
third-IsChain =
    next_record third (second ∷ first ∷ []) (shape "key_deleted" (audit_toy.digest second) 2)
      (follows "key_deleted" (audit_toy.digest second) 2) (omega arith) second-IsChain

verify_chain-IsChain_example :
    verify_chain audit_toy (record {
      file = file_of (third ∷ second ∷ first ∷ []);
      tip = some (tip_bytes (audit_toy.digest second) 1);
    })
    ≡ ok (false, 3)
verify_chain-IsChain_example =
    verify_chain-IsChain audit_toy third-IsChain (tip_at (third ∷ []) second (first ∷ []))
      (omega arith)

verify_chain-removed_example :
    verify_chain audit_toy (record { file = file_of (third ∷ first ∷ []); tip = none })
    ≡ ok (false, 2)
verify_chain-removed_example =
    verify_chain-removed audit_toy [] third (second ∷ []) (first ∷ []) none third-IsChain
      (omega arith)

verify_chain-edited_example :
    IsRefused
      (verify_chain audit_toy (record { file = file_of (third ∷ edited ∷ first ∷ []); tip = none }))
verify_chain-edited_example =
    verify_chain-edited audit_toy [] third second edited (first ∷ []) none third-IsChain
      (shape "key_imported" (audit_toy.digest first) 1) (λ e. absurd (omega (arith, ap checksum e)))
  where
    checksum : Text → ℕ
    checksum [] = 0
    checksum (c ∷ t) = c

verify_chain-truncated_example :
    verify_chain audit_toy
      (record { file = file_of (first ∷ []); tip = some (tip_bytes (audit_toy.digest third) 2) })
    ≡ ok (false, 1)
verify_chain-truncated_example =
    verify_chain-truncated audit_toy third first (second ∷ []) [] third-IsChain (omega arith)

abbrev disk_2 : Disk
disk_2 = record {
  file = file_of (second ∷ first ∷ []);
  tip = some (tip_bytes (audit_toy.digest first) 0);
}

disk_2-IsChained : IsChained audit_toy (second ∷ first ∷ []) disk_2
disk_2-IsChained = record {
  file_lines = refl;
  chain = second-IsChain;
  tip = tip_at (second ∷ []) first [];
}

deleted_line :
    line_of audit_toy (fields_of stamp (codes "key_deleted") (codes "ok") no_entries) writer disk_2
    ≡ some third
unfolding chain_fields rescan scan_tail_state file_of first_nonblank split_lines strip lstrip
    seq_after
deleted_line = refl

emit-verify_chain_example :
    verify_chain audit_toy
      (emit audit_toy no_faults stamp
        (codes "key_deleted")
        (codes "ok")
        no_entries
        writer
        disk_2).disk
    ≡ ok (true, 3)
unfolding check_emit is_member check_payload find_secret_violation
emit-verify_chain_example =
    emit-verify_chain audit_toy stamp (codes "key_deleted") (codes "ok") no_entries writer disk_2
      third disk_2-IsChained (omega arith) refl refl refl deleted_line (omega arith)

emit-repeated_example :
    verify_chain audit_toy
      (emit audit_toy no_faults stamp
        (codes "key_deleted")
        (codes "ok")
        no_entries
        (record writer { pending = third ++ newline ∷ [] })
        disk_2).disk
    ≡ ok (false, 4)
unfolding check_emit is_member check_payload find_secret_violation rescan chain_fields
emit-repeated_example =
    emit-repeated audit_toy stamp (codes "key_deleted") (codes "ok") no_entries third third
      (record writer { pending = third ++ newline ∷ [] }) disk_2 disk_2-IsChained third-IsChain refl
      refl refl deleted_line (omega arith)

announced :
    line_of audit_toy
      (fields_of stamp (codes "audit_log_opened") (codes "ok") no_entries)
      writer
      empty_disk
    ≡ some first
unfolding chain_fields rescan scan_tail_state
announced = refl

fits :
    FitsTail audit_toy no_faults
      (fields_of stamp (codes "audit_log_opened") (codes "ok") no_entries)
      writer
      empty_disk
fits line e =
    let at_first : first ≡ line = cc (e, announced) in
    (subst (λ l. length l < tail_chunk) at_first (omega arith), write_done)

deleted_fits :
    FitsTail audit_toy no_faults
      (fields_of stamp (codes "key_deleted") (codes "ok") no_entries)
      writer
      disk_2
deleted_fits line e =
    let at_third : third ≡ line = cc (e, deleted_line) in
    (subst (λ l. length l < tail_chunk) at_third (omega arith), write_done)

Emits-IsChained_example :
    (more : List Bytes) × Extends (second ∷ first ∷ []) more
    × IsChained audit_toy more
        (emit audit_toy no_faults stamp
          (codes "key_deleted")
          (codes "ok")
          no_entries
          writer
          disk_2).disk
Emits-IsChained_example = Emits-IsChained disk_2-IsChained (
    emitted no_faults stamp (codes "key_deleted") (codes "ok") no_entries writer refl refl
      deleted_fits)

Reaches-IsChained_example :
    (lines : List Bytes) × IsChained audit_toy lines
      (emit audit_toy no_faults stamp
        (codes "audit_log_opened")
        (codes "ok")
        no_entries
        writer
        empty_disk).disk
Reaches-IsChained_example = Reaches-IsChained (
    after_emit empty_disk
      (emit audit_toy no_faults stamp (codes "audit_log_opened") (codes "ok") no_entries writer
        empty_disk).disk
      no_log
      (emitted no_faults stamp (codes "audit_log_opened") (codes "ok") no_entries writer refl refl
        fits))

-- the payload of a record that names a key
abbrev key_payload : Entries
key_payload =
    entry_of (str_key (codes "fingerprint"))
      (list_value (item_of (str_value (codes "AB12")) no_items)) no_entries

emit-raised_example :
    (emit audit_toy no_faults stamp
      (codes "key_renamed")
      (codes "ok")
      no_entries
      writer
      disk_2).disk
    ≡ disk_2
unfolding emit check_emit is_member check_payload
emit-raised_example =
    emit-raised audit_toy no_faults stamp (codes "key_renamed") (codes "ok") no_entries writer
      disk_2 (audit_log_error "event is not in the audit whitelist") refl

-- a process that writes without a chain, before and after a record that it loses
abbrev plain_writer : AuditLog
plain_writer = record { hash_chain = false; prev_hash = none; seq = 0; dropped = 0; pending = [] }

abbrev full_disk : Faults
full_disk = record { failed_after = some 0; kept = λ b. b; tip_failed = false }

abbrev after_loss : AuditLog
after_loss =
    (emit audit_toy full_disk stamp (codes "key_deleted") (codes "ok") no_entries plain_writer
      empty_disk).log

abbrev plain_line : Bytes
plain_line = fields_line (fields_of stamp (codes "key_deleted") (codes "ok") no_entries)

plain_line-IsEvent :
    IsEvent audit_toy stamp
      (codes "key_deleted")
      (codes "ok")
      no_entries
      plain_writer
      empty_disk
      plain_line
unfolding check_emit is_member check_payload find_secret_violation chain_fields
plain_line-IsEvent = record { checked = refl; written = refl }

after_loss-IsEvent :
    IsEvent audit_toy stamp
      (codes "key_deleted")
      (codes "ok")
      no_entries
      after_loss
      empty_disk
      plain_line
unfolding check_emit is_member check_payload find_secret_violation chain_fields emit write_record
    append_line
after_loss-IsEvent = record { checked = refl; written = refl }

Loses-reported_example :
    ((chain_fields
        (writing_state audit_toy after_loss empty_disk)
        (fields_of stamp (codes "key_deleted") (codes "ok") no_entries)).dropped
      ≡ some 1)
    × ((emit audit_toy no_faults stamp
          (codes "key_deleted")
          (codes "ok")
          no_entries
          after_loss
          empty_disk).disk.file
        ≡ empty_disk.file ++ (after_loss.pending ++ (plain_line ++ newline ∷ [])))
    × ((emit audit_toy no_faults stamp
          (codes "key_deleted")
          (codes "ok")
          no_entries
          after_loss
          empty_disk).log.dropped
        ≡ 0)
Loses-reported_example =
    Loses-reported no_faults refl
      (one_lost 0 plain_writer plain_writer full_disk stamp (codes "key_deleted") (codes "ok")
        no_entries empty_disk plain_line 0 (none_lost plain_writer) refl plain_line-IsEvent)
      after_loss-IsEvent refl
