-- ===== src/Audit/Verify.antt =====
-- storage/audit_log.py: `verify_chain`, which walks a log and compares its head with the tip file.
-- The walk's variables.
use gpg_meister.Audit.Log.{or_empty_hash}
use gpg_meister.Audit.Record.{
  AuditLibrary, Disk, JsonField, JsonLine, bad_json, nat_field, negative_field, no_field, no_object,
  object_line, other_field, text_field,
}
use gpg_meister.Base.{
  Bool, Error, List, Option, Result, [], attribute_error, err, false, if◌then◌else◌, length, none,
  not, ok, same, some, take, true, ℕ, ◌&&◌, ◌+◌, ◌==◌, ◌∷◌,
}
use gpg_meister.Python.{Bytes, Text}
use gpg_meister.Python.Decimal.{int_from, is_decimal}
use gpg_meister.Python.Lines.{split_lines}
use gpg_meister.Python.Words.{split_words}

pub record Walk : Type 0 where
  pub prev_hash : Option Text
  pub expected_seq : ℕ
  pub count : ℕ

pub data Verdict : Type 0 where
  verdict_broken : Verdict
  verdict_raised : Error → Verdict
  verdict_next : Option Text → ℕ → Verdict

-- a `seq` that is no integer is passed over
abbrev pub check_seq : Text → JsonField → ℕ → Verdict
check_seq hash (nat_field n) expected =
    if n == expected then verdict_next (some hash) (n + 1) else verdict_broken
check_seq hash negative_field expected = verdict_broken
check_seq hash no_field expected = verdict_next (some hash) expected
check_seq hash other_field expected = verdict_next (some hash) expected
check_seq hash (text_field t) expected = verdict_next (some hash) expected

-- the tests on the object of one line, where `hash` is the digest of the line
abbrev pub check_object : Text → JsonField → JsonField → Option Text → ℕ → Verdict
check_object hash no_field seq none expected = verdict_next none expected
check_object hash no_field seq (some p) expected = verdict_broken
check_object hash (text_field stored) seq prev expected =
    if same stored (or_empty_hash prev) then check_seq hash seq expected else verdict_broken
check_object hash (nat_field n) seq prev expected = verdict_broken
check_object hash negative_field seq prev expected = verdict_broken
check_object hash other_field seq prev expected = verdict_broken

abbrev pub check_json : Text → JsonLine → Option Text → ℕ → Verdict
check_json hash bad_json prev expected = verdict_broken
check_json hash no_object prev expected =
    verdict_raised (attribute_error "object has no attribute 'get'")
check_json hash (object_line stored seq) prev expected = check_object hash stored seq prev expected

-- the body of the loop for a line that is not empty
unfoldable pub check_line : AuditLibrary → Bytes → Walk → Verdict
check_line lib line w = check_json (lib.digest line) (lib.loads line) w.prev_hash w.expected_seq

-- How the loop ends: by a `return False`, an exception, or at the end of the file.
pub data WalkEnd : Type 0 where
  walk_stopped : ℕ → WalkEnd
  walk_raised : Error → WalkEnd
  walk_done : Walk → WalkEnd

abbrev pub after_verdict : Verdict → ℕ → (Walk → WalkEnd) → WalkEnd
after_verdict verdict_broken count next = walk_stopped count
after_verdict (verdict_raised e) count next = walk_raised e
after_verdict (verdict_next h n) count next =
    next (record { prev_hash = h; expected_seq = n; count = count })

unfoldable pub walk_lines : AuditLibrary → List Bytes → Walk → WalkEnd
walk_lines lib [] w = walk_done w
walk_lines lib ([] ∷ lines) w = walk_lines lib lines w
walk_lines lib ((b ∷ line) ∷ lines) w =
    after_verdict (check_line lib (b ∷ line) w) (w.count + 1) (walk_lines lib lines)

-- `len(tip_fields) > 1 and tip_fields[1].isdigit() and int(tip_fields[1]) != expected_seq - 1`
abbrev pub tip_seq_differs : List Text → ℕ → Bool
tip_seq_differs [] expected = false
tip_seq_differs (h ∷ []) expected = false
tip_seq_differs (h ∷ n ∷ words) expected = is_decimal n && not (int_from 0 n + 1 == expected)

abbrev pub first_or_empty : List Text → Text
first_or_empty [] = []
first_or_empty (w ∷ words) = w

abbrev pub tip_agrees : List Text → Text → ℕ → Bool
tip_agrees words hash expected =
    (length (first_or_empty words) == 64)
    && same (first_or_empty words) hash
    && not (tip_seq_differs words expected)

-- `_verify_tip(path, prev_hash, expected_seq)`; a byte that is no ASCII is read as one that is
-- neither blank nor a digit
unfoldable pub verify_tip : Option Bytes → Text → ℕ → Bool
verify_tip none hash expected = true
verify_tip (some tip) hash expected = tip_agrees (split_words (take 256 tip)) hash expected

abbrev pub walk_result : Disk → Option Text → Walk → Bool × ℕ
walk_result d none w = (true, w.count)
walk_result d (some h) w = (verify_tip d.tip h w.expected_seq, w.count)

abbrev pub end_result : Disk → WalkEnd → Result (Bool × ℕ)
end_result d (walk_stopped count) = ok (false, count)
end_result d (walk_raised e) = err e
end_result d (walk_done w) = ok (walk_result d w.prev_hash w)

abbrev pub start_walk : Walk
start_walk = record { prev_hash = none; expected_seq = 0; count = 0 }

-- `verify_chain(path)`: whether the log is consistent, and the number of records looked at
unfoldable pub verify_chain : AuditLibrary → Disk → Result (Bool × ℕ)
verify_chain lib d = end_result d (walk_lines lib (split_lines d.file) start_walk)
