-- ===== src/Audit/Chain/Tail.antt =====
-- storage/audit_log.py: `_scan_tail_state` finds the state that follows the records of a chain.
use gpg_meister.Audit.Chain.{
  IsChain, file_of, file_of-IsComplete, head_of, next_record, no_records, strip-IsObjectLine,
}
use gpg_meister.Audit.Log.{
  first_nonblank, or_full_scan, scan_tail_state, seq_after, state_of, tail_of,
}
use gpg_meister.Audit.Record.{AuditLibrary, IsObjectLine, tail_chunk}
use gpg_meister.Base.{
  List, [], ap, arith, drop, drop-append_within, false, is_empty, length, length-append, min, refl,
  reverse, reverse-append, some, ◌++◌, ◌-◌, ◌<◌, ◌∙◌, ◌∷◌, ◌≡◌,
}
use gpg_meister.Python.{Bytes}
use gpg_meister.Python.Lines.{
  IsComplete, drop-IsComplete, lstrip, newline, rstrip, split_lines, split_lines_last, strip,
}

is_empty-IsObjectLine : {line : Bytes} → IsObjectLine line → is_empty line ≡ false
is_empty-IsObjectLine shape = rw shape.braces refl

strip-nil : strip [] ≡ []
unfolding strip lstrip rstrip
strip-nil = refl

first_nonblank-last :
    {line : Bytes} (before : List Bytes)
    → IsObjectLine line
    → first_nonblank (reverse (before ++ line ∷ [] ∷ [])) ≡ some line
unfolding first_nonblank
first_nonblank-last {line = line} before shape =
    let e : reverse (before ++ line ∷ [] ∷ []) ≡ [] ∷ line ∷ reverse before =
      reverse-append before (line ∷ [] ∷ []) in
    rw (e, strip-nil, strip-IsObjectLine shape, is_empty-IsObjectLine shape) refl

-- the tail of a file whose last record is short enough
tail_of-last :
    (older : List Bytes) (line : Bytes)
    → length line < tail_chunk
    → (before : Bytes) × IsComplete before
      × (tail_of (file_of older ++ (line ++ newline ∷ [])) ≡ before ++ (line ++ newline ∷ []))
tail_of-last older line short =
    let size = length (file_of older ++ (line ++ newline ∷ [])) in
    let k = size - min size tail_chunk in
    (
      drop k (file_of older),
      drop-IsComplete k (file_of-IsComplete older),
      drop-append_within k (file_of older) (line ++ newline ∷ []) (
          omega (
            arith,
            length-append (file_of older) (line ++ newline ∷ []),
            length-append line (newline ∷ []),
          )),
    )

scan_tail_state_lem :
    (lib : AuditLibrary) (file : Bytes)
    → 0 < length file
    → scan_tail_state lib file
      ≡ state_of lib (or_full_scan file (first_nonblank (reverse (split_lines (tail_of file)))))
unfolding scan_tail_state
scan_tail_state_lem lib [] h = elim h [ ]
scan_tail_state_lem lib (b ∷ file) h = refl

-- Behind a record that the tail holds, the state is its hash and the number after its own.
pub scan_tail_state-last :
    (lib : AuditLibrary) (older : List Bytes) (line : Bytes)
    → IsObjectLine line
    → length line < tail_chunk
    → scan_tail_state lib (file_of older ++ (line ++ newline ∷ []))
      ≡ (some (lib.digest line), seq_after lib line)
scan_tail_state-last lib older line shape short =
    let (before, complete, e) = tail_of-last older line short in
    let (lines, split) = split_lines_last line complete shape.one_line in
    scan_tail_state_lem lib (file_of older ++ (line ++ newline ∷ [])) (
      omega (
        arith,
        length-append (file_of older) (line ++ newline ∷ []),
        length-append line (newline ∷ []),
      ))
    ∙ rw (e, split, first_nonblank-last lines shape) refl

-- The state that `_scan_tail_state` recovers from a chain.
pub scan_tail_state-file_of :
    (lib : AuditLibrary) {lines : List Bytes}
    → IsChain lib lines
    → scan_tail_state lib (file_of lines) ≡ (head_of lib lines, length lines)
unfolding file_of seq_after
scan_tail_state-file_of lib no_records = unfold scan_tail_state in refl
scan_tail_state-file_of lib (next_record line older shape loaded short chain) =
    scan_tail_state-last lib older line shape short
    ∙ rw loaded (ap (λ n. (some (lib.digest line), n)) (omega arith))
