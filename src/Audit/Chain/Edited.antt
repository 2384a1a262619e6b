-- ===== src/Audit/Chain/Edited.antt =====
-- storage/audit_log.py: `verify_chain` on a chain with an edited record, and on one that lost its
-- newest records.
use gpg_meister.Audit.Chain.{IsChain, file_of, next_record}
use gpg_meister.Audit.Chain.Removed.{IsChain-older, file_of-gap}
use gpg_meister.Audit.Chain.Tip.{max_records, verify_chain-walked, verify_tip-tip_bytes}
use gpg_meister.Audit.Chain.Walk.{walk_at, walk_lines-file_of, walk_lines-line}
use gpg_meister.Audit.Log.{or_empty_hash, tip_bytes}
use gpg_meister.Audit.Record.{
  AuditLibrary, Disk, IsObjectLine, JsonField, JsonLine, bad_json, nat_field, no_object,
  object_line, text_field,
}
use gpg_meister.Audit.Verify.{
  Verdict, Walk, after_verdict, check_json, check_line, check_object, end_result, verdict_broken,
  verdict_next, verdict_raised, verify_chain, walk_lines,
}
use gpg_meister.Base.{
  Bool, Bool-cases, List, Option, Result, [], ap, append_assoc, arith, err, false, inl, inr, length,
  length-append, none, ok, refl, same, same→eq, some, suc, sym, ℕ, ◌++◌, ◌+◌, ◌∙◌, ◌∷◌, ◌≡◌, ◌≢◌,
  ◌≤◌, ◌⊎◌,
}
use gpg_meister.Python.{Bytes, Text}
use gpg_meister.Python.Lines.{newline, split_lines}

-- `verify_chain` does not vouch for the log.
abbrev pub IsRefused : Result (Bool × ℕ) → Type 0
IsRefused (err e) = Unit
IsRefused (ok (valid, count)) = valid ≡ false

-- A record does not follow on a walk that stands at another hash.
check_line-other :
    (lib : AuditLibrary) (next : Bytes) (hash : Text) (n : ℕ) (w : Walk)
    → lib.loads next ≡ object_line (text_field hash) (nat_field n)
    → same hash (or_empty_hash w.prev_hash) ≡ false
    → check_line lib next w ≡ verdict_broken
unfolding check_line
check_line-other lib next hash n w loaded differs = rw (loaded, differs) refl

-- A record that is passed leaves its own hash, or none was and is there.
check_object-hash :
    (hash : Text) (stored seq : JsonField) (prev : Option Text) (expected : ℕ) (h : Option Text)
    (n : ℕ)
    → check_object hash stored seq prev expected ≡ verdict_next h n
    → (h ≡ some hash) ⊎ (h ≡ none)
check_object-hash hash stored seq prev expected h n e = ground (arith, e)

check_json-hash :
    (hash : Text) (read : JsonLine) (prev : Option Text) (expected : ℕ) (h : Option Text) (n : ℕ)
    → check_json hash read prev expected ≡ verdict_next h n
    → (h ≡ some hash) ⊎ (h ≡ none)
check_json-hash hash bad_json prev expected h n e = absurd (cc e)
check_json-hash hash no_object prev expected h n e = absurd (cc e)
check_json-hash hash (object_line stored seq) prev expected h n e =
    check_object-hash hash stored seq prev expected h n e

-- so the record behind an edited one is not passed
check_line-edited :
    (lib : AuditLibrary) (next line edited : Bytes) (n m count : ℕ) (w : Walk) (h : Option Text)
    → lib.loads next ≡ object_line (text_field (lib.digest line)) (nat_field n)
    → lib.digest edited ≢ lib.digest line
    → check_line lib edited w ≡ verdict_next h m
    → check_line lib next (record { prev_hash = h; expected_seq = m; count = count })
      ≡ verdict_broken
check_line-edited lib next line edited n m count w h loaded differs e =
    check_line-other lib next (lib.digest line) n
      (record { prev_hash = h; expected_seq = m; count = count }) loaded
      (other h (
        unfold check_line in
        check_json-hash (lib.digest edited) (lib.loads edited) w.prev_hash w.expected_seq h m e))
  where
    differs→same : (x y : Text) → x ≢ y → same y x ≡ false
    differs→same x y d = elim (Bool-cases (same y x)) [
      | inl t ↦ absurd (d (sym (same→eq y x t)))
      | inr f ↦ f
    ]

    other :
        (g : Option Text)
        → (g ≡ some (lib.digest edited)) ⊎ (g ≡ none)
        → same (lib.digest line) (or_empty_hash g) ≡ false
    other g (inl at) = rw at (differs→same (lib.digest edited) (lib.digest line) differs)
    other g (inr at) = rw at (
        differs→same [] (lib.digest line)
          (λ t. absurd (omega (arith, lib.length-digest line, ap length t))))

walk_lines-edited :
    (lib : AuditLibrary) (next line edited : Bytes) (n : ℕ) (w : Walk) (rest : Bytes) (d : Disk)
    → IsObjectLine next
    → IsObjectLine edited
    → lib.loads next ≡ object_line (text_field (lib.digest line)) (nat_field n)
    → lib.digest edited ≢ lib.digest line
    → IsRefused (
        end_result d
          (walk_lines lib (split_lines (edited ++ newline ∷ (next ++ newline ∷ rest))) w))
walk_lines-edited lib next line edited n w rest d next_shape shape loaded differs =
    rw (walk_lines-line lib (next ++ newline ∷ rest) w shape)
      (behind (check_line lib edited w) refl)
  where
    behind :
        (v : Verdict)
        → v ≡ check_line lib edited w
        → IsRefused (
            end_result d (
              after_verdict v
                (w.count + 1)
                (walk_lines lib (split_lines (next ++ newline ∷ rest)))))
    behind verdict_broken e = refl
    behind (verdict_raised error) e = tt
    behind (verdict_next h m) e =
        rw
          (
            walk_lines-line lib rest
                (record { prev_hash = h; expected_seq = m; count = w.count + 1 }) next_shape,
            check_line-edited lib next line edited n m (w.count + 1) w h loaded differs (sym e),
          )
          refl

file_of-edited :
    (front : List Bytes) (next edited : Bytes) (older : List Bytes)
    → file_of (front ++ next ∷ edited ∷ older)
      ≡ file_of older ++ (edited ++ newline ∷ (next ++ newline ∷ file_of front))
unfolding file_of
file_of-edited front next edited older =
    file_of-gap front next (edited ∷ older)
    ∙ (append_assoc (file_of older) (edited ++ newline ∷ []) (next ++ newline ∷ file_of front)
        ∙ ap (λ t. file_of older ++ t)
            (append_assoc edited (newline ∷ []) (next ++ newline ∷ file_of front)))

-- A record of a chain that was replaced by another JSON object on one line, unless it is the newest,
-- makes `verify_chain` refuse the log, by False or an exception, as long as the digest tells the two
-- apart. The tip file is any.
pub verify_chain-edited :
    (lib : AuditLibrary) (front : List Bytes) (next line edited : Bytes) (older : List Bytes)
    (tip : Option Bytes)
    → IsChain lib (front ++ next ∷ line ∷ older)
    → IsObjectLine edited
    → lib.digest edited ≢ lib.digest line
    → IsRefused
        (verify_chain lib (record { file = file_of (front ++ next ∷ edited ∷ older); tip = tip }))
unfolding verify_chain
verify_chain-edited lib front next line edited older tip chain shape differs =
    from_next (IsChain-older front (next ∷ line ∷ older) chain)
  where
    from_next :
        IsChain lib (next ∷ line ∷ older)
        → IsRefused (
            verify_chain lib
              (record { file = file_of (front ++ next ∷ edited ∷ older); tip = tip }))
    from_next
          (next_record _ _ next_shape loaded short
            (next_record _ _ line_shape line_loaded line_short chain)) =
        let d : Disk = record { file = file_of (front ++ next ∷ edited ∷ older); tip = tip } in
        rw
          (
            file_of-edited front next edited older,
            walk_lines-file_of lib (edited ++ newline ∷ (next ++ newline ∷ file_of front)) chain,
          )
          (walk_lines-edited lib next line edited (suc (length older)) (walk_at lib older)
            (file_of front) d next_shape shape loaded differs)

-- When a chain of at most 10^19 records lost its newest ones, the tip still names the newest and one
-- record at least is left, `verify_chain` returns False with the number of those left.
pub verify_chain-truncated :
    (lib : AuditLibrary) (newest line : Bytes) (lost older : List Bytes)
    → IsChain lib (newest ∷ (lost ++ line ∷ older))
    → length lost + length older + 2 ≤ max_records
    → verify_chain lib (record {
      file = file_of (line ∷ older);
      tip = some (tip_bytes (lib.digest newest) (length (lost ++ line ∷ older)));
    })
      ≡ ok (false, length older + 1)
verify_chain-truncated lib newest line lost older (next_record _ _ shape loaded short chain) few =
    verify_chain-walked lib (some (tip_bytes (lib.digest newest) (length (lost ++ line ∷ older))))
      (IsChain-older lost (line ∷ older) chain)
    ∙ rw
        (verify_tip-tip_bytes lib newest (lib.digest line) (length (lost ++ line ∷ older))
          (suc (length older)) (omega (arith, length-append lost (line ∷ older))))
        (ground (arith, length-append lost (line ∷ older)))
