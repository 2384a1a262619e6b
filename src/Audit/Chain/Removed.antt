-- ===== src/Audit/Chain/Removed.antt =====
-- storage/audit_log.py: `verify_chain` on a chain that lost records.
use gpg_meister.Audit.Chain.{IsChain, file_of, head_of, next_record}
use gpg_meister.Audit.Chain.Walk.{walk_at, walk_lines-file_of, walk_lines-line}
use gpg_meister.Audit.Log.{or_empty_hash}
use gpg_meister.Audit.Record.{AuditLibrary, Disk, nat_field, object_line, text_field}
use gpg_meister.Audit.Verify.{
  check_line, end_result, start_walk, verdict_broken, verify_chain, walk_lines, walk_stopped,
}
use gpg_meister.Base.{
  List, Option, [], ap, append-nil, append_assoc, arith, false, length, length-append, ok, refl,
  sym, ℕ, ◌++◌, ◌+◌, ◌<◌, ◌==◌, ◌∙◌, ◌∷◌, ◌≡◌,
}
use gpg_meister.Python.{Bytes, Text}
use gpg_meister.Python.Lines.{newline, split_lines}

file_of-append :
    (newer older : List Bytes) → file_of (newer ++ older) ≡ file_of older ++ file_of newer
unfolding file_of
file_of-append [] older = sym (append-nil (file_of older))
file_of-append (line ∷ newer) older =
    ap (λ file. file ++ (line ++ newline ∷ [])) (file_of-append newer older)
    ∙ append_assoc (file_of older) (file_of newer) (line ++ newline ∷ [])

pub IsChain-older :
    {lib : AuditLibrary} (newer older : List Bytes)
    → IsChain lib (newer ++ older)
    → IsChain lib older
IsChain-older [] older chain = chain
IsChain-older (line ∷ newer) older (next_record _ _ shape loaded short chain) =
    IsChain-older newer older chain

-- A record whose number is not the expected one ends the walk.
pub check_line-gap :
    (lib : AuditLibrary) (line : Bytes) (older : List Bytes) (hash : Text) (n : ℕ)
    → lib.loads line ≡ object_line (text_field hash) (nat_field n)
    → (n == length older) ≡ false
    → check_line lib line (walk_at lib older) ≡ verdict_broken
unfolding check_line
check_line-gap lib line older hash n loaded gap = rw loaded (ground (arith, gap))

pub file_of-gap :
    (front : List Bytes) (line : Bytes) (older : List Bytes)
    → file_of (front ++ line ∷ older) ≡ file_of older ++ (line ++ newline ∷ file_of front)
unfolding file_of
file_of-gap front line older =
    file_of-append front (line ∷ older)
    ∙ (append_assoc (file_of older) (line ++ newline ∷ []) (file_of front)
        ∙ ap (λ t. file_of older ++ t) (append_assoc line (newline ∷ []) (file_of front)))

walk_lines-gap :
    {lib : AuditLibrary} (line : Bytes) (lost older : List Bytes) (rest : Bytes)
    → IsChain lib (line ∷ (lost ++ older))
    → 0 < length lost
    → walk_lines lib (split_lines (line ++ newline ∷ rest)) (walk_at lib older)
      ≡ walk_stopped (length older + 1)
walk_lines-gap {lib = lib} line lost older rest (next_record _ _ shape loaded short chain)
      some_lost =
    walk_lines-line lib rest (walk_at lib older) shape
    ∙ rw
        (check_line-gap lib line older (or_empty_hash (head_of lib (lost ++ older)))
          (length (lost ++ older)) loaded (ground (arith, length-append lost older)))
        refl

-- When records are taken out of a chain and newer ones stay, `verify_chain` stops at the first
-- record behind the gap.
pub verify_chain-removed :
    (lib : AuditLibrary) (front : List Bytes) (line : Bytes) (lost older : List Bytes)
    (tip : Option Bytes)
    → IsChain lib (front ++ line ∷ (lost ++ older))
    → 0 < length lost
    → verify_chain lib (record { file = file_of (front ++ line ∷ older); tip = tip })
      ≡ ok (false, length older + 1)
unfolding verify_chain
verify_chain-removed lib front line lost older tip chain some_lost =
    let d : Disk = record { file = file_of (front ++ line ∷ older); tip = tip } in
    let rest = IsChain-older front (line ∷ (lost ++ older)) chain in
    ap (λ file. end_result d (walk_lines lib (split_lines file) start_walk))
      (file_of-gap front line older)
    ∙ ap (end_result d) (
        walk_lines-file_of lib (line ++ newline ∷ file_of front)
          (IsChain-older (line ∷ lost) older rest)
        ∙ walk_lines-gap line lost older (file_of front) rest some_lost)
