-- ===== src/Audit/Chain/Walk.antt =====
-- storage/audit_log.py: the loop of `verify_chain` over the records of a chain.
use gpg_meister.Audit.Chain.{IsChain, file_of, head_of, next_record, no_records}
use gpg_meister.Audit.Log.{or_empty_hash}
use gpg_meister.Audit.Record.{AuditLibrary, IsObjectLine, nat_field, object_line, text_field}
use gpg_meister.Audit.Verify.{Walk, after_verdict, check_line, start_walk, verdict_next, walk_lines}
use gpg_meister.Base.{
  ==_self, List, [], ap, append_assoc, arith, length, refl, same_self, some, subst, sym, ◌++◌, ◌+◌,
  ◌∙◌, ◌∷◌, ◌≡◌,
}
use gpg_meister.Python.{Bytes}
use gpg_meister.Python.Lines.{newline, split_lines, split_lines_line}

-- where the walk stands behind the records
abbrev pub walk_at : AuditLibrary → List Bytes → Walk
walk_at lib lines = record {
  prev_hash = head_of lib lines;
  expected_seq = length lines;
  count = length lines;
}

pub walk_lines-line :
    (lib : AuditLibrary) {line : Bytes} (rest : Bytes) (w : Walk)
    → IsObjectLine line
    → walk_lines lib (split_lines (line ++ newline ∷ rest)) w
      ≡ after_verdict (check_line lib line w) (w.count + 1) (walk_lines lib (split_lines rest))
walk_lines-line lib {line = line} rest w shape =
    ap (λ ls. walk_lines lib ls w) (split_lines_line line rest shape.one_line) ∙ after_braces
  where
    at_braces :
        (body : Bytes) (ls : List Bytes)
        → walk_lines lib ((b'{' ∷ body) ∷ ls) w
          ≡ after_verdict (check_line lib (b'{' ∷ body) w) (w.count + 1) (walk_lines lib ls)
    at_braces body ls = unfold walk_lines in refl

    after_braces :
        walk_lines lib (line ∷ split_lines rest) w
        ≡ after_verdict (check_line lib line w) (w.count + 1) (walk_lines lib (split_lines rest))
    after_braces =
        subst
          (λ l.
            walk_lines lib (l ∷ split_lines rest) w
            ≡ after_verdict (check_line lib l w) (w.count + 1) (walk_lines lib (split_lines rest)))
          (sym shape.braces) (at_braces (shape.body ++ b'}' ∷ []) (split_lines rest))

-- A record that follows on the records before it is passed.
pub check_line-next :
    (lib : AuditLibrary) (line : Bytes) (older : List Bytes)
    → lib.loads line
      ≡ object_line (text_field (or_empty_hash (head_of lib older))) (nat_field (length older))
    → check_line lib line (walk_at lib older)
      ≡ verdict_next (some (lib.digest line)) (length older + 1)
unfolding check_line
check_line-next lib line older loaded =
    rw (loaded, same_self (or_empty_hash (head_of lib older)), ==_self (length older)) refl

-- The loop passes the records of a chain at the front of a file.
pub walk_lines-file_of :
    (lib : AuditLibrary) {lines : List Bytes} (rest : Bytes)
    → IsChain lib lines
    → walk_lines lib (split_lines (file_of lines ++ rest)) start_walk
      ≡ walk_lines lib (split_lines rest) (walk_at lib lines)
unfolding file_of
walk_lines-file_of lib rest no_records = refl
walk_lines-file_of lib rest (next_record line older shape loaded short chain) =
    ap (λ file. walk_lines lib (split_lines file) start_walk)
      (append_assoc (file_of older) (line ++ newline ∷ []) rest
        ∙ ap (λ t. file_of older ++ t) (append_assoc line (newline ∷ []) rest))
    ∙ walk_lines-file_of lib (line ++ newline ∷ rest) chain
    ∙ walk_lines-line lib rest (walk_at lib older) shape
    ∙ rw (check_line-next lib line older loaded) (
        ap
          (λ n.
            walk_lines lib (split_lines rest)
              (record { prev_hash = some (lib.digest line); expected_seq = n; count = n }))
          (omega arith))
