-- ===== src/Audit/Chain/Stale.antt =====
-- storage/audit_log.py: what a process writes to a chained log after a flush that failed.
use gpg_meister.Audit.Chain.{IsChain, file_of, head_of, next_record}
use gpg_meister.Audit.Chain.Emitted.{IsChained, emit_checked-written, line_of, line_of-next}
use gpg_meister.Audit.Chain.Removed.{check_line-gap}
use gpg_meister.Audit.Chain.Walk.{walk_at, walk_lines-file_of, walk_lines-line}
use gpg_meister.Audit.Log.{append_line, check_emit, emit, fields_of, or_empty_hash, rescan}
use gpg_meister.Audit.Record.{AuditLibrary, AuditLog, Disk, Stamp, tail_chunk}
use gpg_meister.Audit.Secrets.{Entries}
use gpg_meister.Audit.Verify.{end_result, start_walk, verify_chain, walk_lines, walk_stopped}
use gpg_meister.Base.{
  List, [], ap, append_assoc, arith, false, length, none, ok, some, sym, true, ◌++◌, ◌+◌, ◌<◌, ◌∙◌,
  ◌∷◌, ◌≡◌,
}
use gpg_meister.Python.{Bytes, Text}
use gpg_meister.Python.Lines.{newline, split_lines}

-- What the next event of a process adds to the file, when its file object still holds the line that
-- it could not flush.
flushed_both :
    (lib : AuditLibrary) (held line : Bytes) (log : AuditLog) (d : Disk)
    → log.pending ≡ held ++ newline ∷ []
    → (append_line lib
        (record { failed_after = none; kept = λ b. b; tip_failed = false })
        line
        log
        d).disk.file
      ≡ d.file ++ (held ++ newline ∷ (line ++ newline ∷ []))
unfolding append_line
flushed_both lib held line log d pending =
    rw pending (ap (λ t. d.file ++ t) (append_assoc held (newline ∷ []) (line ++ newline ∷ [])))

walk_lines-repeated :
    (lib : AuditLibrary) {lines : List Bytes} (held line : Bytes) (rest : Bytes)
    → IsChain lib (held ∷ lines)
    → IsChain lib (line ∷ lines)
    → walk_lines lib (split_lines (line ++ newline ∷ rest)) (walk_at lib (held ∷ lines))
      ≡ walk_stopped (length lines + 2)
walk_lines-repeated lib {lines = lines} held line rest before
      (next_record _ _ shape loaded short chain) =
    walk_lines-line lib rest (walk_at lib (held ∷ lines)) shape
    ∙ rw
        (check_line-gap lib line (held ∷ lines) (or_empty_hash (head_of lib lines)) (length lines)
          loaded (ground arith))
        (ap walk_stopped (omega arith))

append_line-repeated :
    (lib : AuditLibrary) (held line : Bytes) (log : AuditLog) {lines : List Bytes} (d : Disk)
    → d.file ≡ file_of lines
    → IsChain lib (held ∷ lines)
    → IsChain lib (line ∷ lines)
    → log.pending ≡ held ++ newline ∷ []
    → verify_chain lib
        (append_line lib
          (record { failed_after = none; kept = λ b. b; tip_failed = false })
          line
          log
          d).disk
      ≡ ok (false, length lines + 2)
unfolding verify_chain
append_line-repeated lib held line log {lines = lines} d lines_of before next pending =
    let after =
      (append_line lib (record { failed_after = none; kept = λ b. b; tip_failed = false }) line log
        d).disk in
    ap (λ file. end_result after (walk_lines lib (split_lines file) start_walk)) both
    ∙ ap (end_result after) (
        walk_lines-file_of lib (line ++ newline ∷ []) before
        ∙ walk_lines-repeated lib held line [] before next)
  where
    both :
        (append_line lib
          (record { failed_after = none; kept = λ b. b; tip_failed = false })
          line
          log
          d).disk.file
        ≡ file_of (held ∷ lines) ++ (line ++ newline ∷ [])
    both =
        flushed_both lib held line log d pending
        ∙ rw lines_of (
            unfold file_of in
            sym (
              append_assoc (file_of lines) (held ++ newline ∷ []) (line ++ newline ∷ [])
              ∙ ap (λ t. file_of lines ++ t)
                  (append_assoc held (newline ∷ []) (line ++ newline ∷ []))))

-- A process that writes a chained log and still holds a record back, which it built on the chain and
-- could not flush, writes both records at its next event, if that passes the guards, fits the tail
-- and is written in full. They carry the same number, and `verify_chain` refuses the log at the
-- second one.
pub emit-repeated :
    (lib : AuditLibrary) (stamp : Stamp) (event outcome : Text) (payload : Entries)
    (held line : Bytes) (log : AuditLog) {lines : List Bytes} (d : Disk)
    → IsChained lib lines d
    → IsChain lib (held ∷ lines)
    → log.pending ≡ held ++ newline ∷ []
    → log.hash_chain ≡ true
    → check_emit lib event outcome payload ≡ ok tt
    → line_of lib (fields_of stamp event outcome payload) log d ≡ some line
    → length line < tail_chunk
    → verify_chain lib
        (emit lib
          (record { failed_after = none; kept = λ b. b; tip_failed = false })
          stamp
          event
          outcome
          payload
          log
          d).disk
      ≡ ok (false, length lines + 2)
unfolding emit
emit-repeated lib stamp event outcome payload held line log d sound before pending mode checked
      written short =
    let fields = fields_of stamp event outcome payload in
    rw
      (
        checked,
        emit_checked-written lib (record { failed_after = none; kept = λ b. b; tip_failed = false })
            tt fields log d mode,
        written,
      )
      (append_line-repeated lib held line (rescan lib log d) d sound.file_lines before
        (line_of-next lib fields log sound mode written short) (unfold rescan in pending))
