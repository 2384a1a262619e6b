-- ===== src/Audit/Chain.antt =====
-- storage/audit_log.py: the contents of a chained log file, by its records from the newest to the
-- oldest.
pub mod Tail
pub mod Walk
pub mod Tip
pub mod Removed
pub mod Emitted
pub mod Reached
pub mod Edited
pub mod Stale
use gpg_meister.Audit.Log.{or_empty_hash}
use gpg_meister.Audit.Record.{
  AuditLibrary, IsObjectLine, nat_field, object_line, tail_chunk, text_field,
}
use gpg_meister.Base.{
  List, Option, [], append_assoc, length, none, refl, some, subst, sym, ◌++◌, ◌<◌, ◌∷◌, ◌≡◌,
}
use gpg_meister.Python.{Bytes, Text}
use gpg_meister.Python.Lines.{IsComplete, complete_text, empty_text, newline, strip, strip_lem}

-- the file whose records are the lines, the newest first
unfoldable pub file_of : List Bytes → Bytes
file_of [] = []
file_of (line ∷ older) = file_of older ++ (line ++ newline ∷ [])

-- the hash that the next record carries, and the number of the records
abbrev pub head_of : AuditLibrary → List Bytes → Option Text
head_of lib [] = none
head_of lib (line ∷ older) = some (lib.digest line)

-- Every record carries the hash of the one before it and its number, and fits the tail.
pub data IsChain (lib : AuditLibrary) : List Bytes → Type 0 where
  no_records : IsChain lib []
  next_record :
      (line : Bytes) (older : List Bytes)
      → IsObjectLine line
      → lib.loads line
        ≡ object_line (text_field (or_empty_hash (head_of lib older))) (nat_field (length older))
      → length line < tail_chunk
      → IsChain lib older
      → IsChain lib (line ∷ older)

pub file_of-IsComplete : (lines : List Bytes) → IsComplete (file_of lines)
unfolding file_of
file_of-IsComplete [] = empty_text
file_of-IsComplete (line ∷ older) =
    subst IsComplete (append_assoc (file_of older) line (newline ∷ []))
      (complete_text (file_of older ++ line))

pub strip-IsObjectLine : {line : Bytes} → IsObjectLine line → strip line ≡ line
strip-IsObjectLine shape =
    let fixed : strip (b'{' ∷ (shape.body ++ b'}' ∷ [])) ≡ b'{' ∷ (shape.body ++ b'}' ∷ []) =
      strip_lem b'{' shape.body b'}' refl refl in
    subst (λ l. strip l ≡ l) (sym shape.braces) fixed
