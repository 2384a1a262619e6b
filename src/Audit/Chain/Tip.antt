-- ===== src/Audit/Chain/Tip.antt =====
-- storage/audit_log.py: `verify_chain` on the records of a chain, by what the tip file holds.
use gpg_meister.Audit.Chain.{IsChain, file_of, head_of}
use gpg_meister.Audit.Chain.Walk.{walk_at, walk_lines-file_of}
use gpg_meister.Audit.Log.{tip_bytes}
use gpg_meister.Audit.Record.{AuditLibrary, Disk}
use gpg_meister.Audit.Verify.{
  end_result, start_walk, verify_chain, verify_tip, walk_lines, walk_result,
}
use gpg_meister.Base.{
  Bool, List, Option, [], all, ap, append-nil, arith, is_empty, length, length-append, none, not,
  ok, refl, same, same_self, some, suc, sym, take, take_within, true, ℕ, ◌&&◌, ◌++◌, ◌+◌, ◌<◌, ◌==◌,
  ◌^◌, ◌∙◌, ◌∷◌, ◌≡◌, ◌≤◌,
}
use gpg_meister.Python.{Bytes, Text}
use gpg_meister.Python.Decimal.{
  decimal, decimal-is_decimal, int_from-decimal, is_decimal, is_decimal_digit, length-decimal,
}
use gpg_meister.Python.Lines.{newline, split_lines}
use gpg_meister.Python.Words.{IsWord, is_split_space, split_words, split_words_two}

-- `verify_chain` reads 256 bytes of the tip, which hold the number of a record below this bound.
abbrev pub max_records : ℕ
max_records = 10 ^ 19

length-tip_bytes :
    (lib : AuditLibrary) (line : Bytes) (n : ℕ)
    → n < max_records
    → length (tip_bytes (lib.digest line) n) ≤ 256
length-tip_bytes lib line n h = omega (
  arith,
  length-append (lib.digest line) (b' ' ∷ (decimal n ++ newline ∷ [])),
  length-append (decimal n) (newline ∷ []),
  lib.length-digest line,
  length-decimal 18 n h,
)

no_space_digits :
    (t : Text) → all is_decimal_digit t ≡ true → all (λ c. not (is_split_space c)) t ≡ true
no_space_digits [] h = refl
no_space_digits (c ∷ t) h = ground (arith, no_space_digits t)

digest-IsWord : (lib : AuditLibrary) (line : Bytes) → IsWord (lib.digest line)
digest-IsWord lib line = (lib.digest-word line, omega (arith, lib.length-digest line))

decimal-IsWord : (n : ℕ) → IsWord (decimal n)
decimal-IsWord n = (no_space_digits (decimal n) (decimal-is_decimal n).0, (decimal-is_decimal n).1)

tip_words :
    (lib : AuditLibrary) (line : Bytes) (n : ℕ)
    → n < max_records
    → split_words (take 256 (tip_bytes (lib.digest line) n)) ≡ lib.digest line ∷ decimal n ∷ []
tip_words lib line n h =
    ap split_words (take_within 256 (tip_bytes (lib.digest line) n) (length-tip_bytes lib line n h))
    ∙ split_words_two (lib.digest line) (decimal n) (digest-IsWord lib line) (decimal-IsWord n)

is_decimal-decimal : (n : ℕ) → is_decimal (decimal n) ≡ true
is_decimal-decimal n =
    let (digits, some_digit) = decimal-is_decimal n in ground (arith, digits, some_digit)

-- The tip of the record with the number `n`, when the walk expects `expected`.
pub verify_tip-tip_bytes :
    (lib : AuditLibrary) (line : Bytes) (hash : Text) (n expected : ℕ)
    → n < max_records
    → verify_tip (some (tip_bytes (lib.digest line) n)) hash expected
      ≡ (same (lib.digest line) hash && (n + 1 == expected))
unfolding verify_tip
verify_tip-tip_bytes lib line hash n expected h =
    rw (tip_words lib line n h, lib.length-digest line, is_decimal-decimal n, int_from-decimal n)
      (ground arith)

-- The tip file of a chain: none, or that of the record behind some of the older ones.
pub data IsTip (lib : AuditLibrary) : List Bytes → Option Bytes → Type 0 where
  no_tip : (lines : List Bytes) → IsTip lib lines none
  tip_at :
      (newer : List Bytes) (line : Bytes) (older : List Bytes)
      → IsTip lib (newer ++ line ∷ older) (some (tip_bytes (lib.digest line) (length older)))

-- whether the tip is missing or names the newest record
abbrev pub tip_is_fresh :
    {lib : AuditLibrary} {lines : List Bytes} {tip : Option Bytes} → IsTip lib lines tip → Bool
tip_is_fresh (no_tip lines) = true
tip_is_fresh (tip_at newer line older) = is_empty newer

verify_tip-IsTip :
    (lib : AuditLibrary) {lines : List Bytes} {tip : Option Bytes}
    → (at : IsTip lib lines tip) → length lines ≤ max_records
    → (head : Text) → head_of lib lines ≡ some head
    → verify_tip tip head (length lines) ≡ tip_is_fresh at
verify_tip-IsTip lib (no_tip lines) short head e = unfold verify_tip in refl
verify_tip-IsTip lib (tip_at [] line older) short head e =
    verify_tip-tip_bytes lib line head (length older) (suc (length older)) (omega arith)
    ∙ ground (arith, same_self (lib.digest line))
verify_tip-IsTip lib (tip_at (first ∷ newer) line older) short head e =
    verify_tip-tip_bytes lib line head (length older) (suc (length (newer ++ line ∷ older)))
      (omega (arith, length-append newer (line ∷ older)))
    ∙ ground (arith, length-append newer (line ∷ older))

walk_result-head :
    (lib : AuditLibrary) (lines : List Bytes) (d : Disk) (fresh : Bool)
    → (lines ≡ [] → fresh ≡ true)
    → ((head : Text) → head_of lib lines ≡ some head → verify_tip d.tip head (length lines) ≡ fresh)
    → walk_result d (head_of lib lines) (walk_at lib lines) ≡ (fresh, length lines)
walk_result-head lib [] d fresh on_empty on_head = ap (λ b. (b, 0)) (sym (on_empty refl))
walk_result-head lib (line ∷ older) d fresh on_empty on_head =
    ap (λ b. (b, length (line ∷ older))) (on_head (lib.digest line) refl)

tip_is_fresh-nil :
    {lib : AuditLibrary} {lines : List Bytes} {tip : Option Bytes}
    → (at : IsTip lib lines tip) → lines ≡ []
    → tip_is_fresh at ≡ true
tip_is_fresh-nil (no_tip lines) e = refl
tip_is_fresh-nil (tip_at [] line older) e = refl
tip_is_fresh-nil (tip_at (first ∷ newer) line older) e = absurd (cc e)

pub verify_chain-walked :
    (lib : AuditLibrary) {lines : List Bytes} (tip : Option Bytes)
    → IsChain lib lines
    → verify_chain lib (record { file = file_of lines; tip = tip })
      ≡ ok (
          walk_result
            (record { file = file_of lines; tip = tip })
            (head_of lib lines)
            (walk_at lib lines))
unfolding verify_chain walk_lines split_lines
verify_chain-walked lib {lines = lines} tip chain =
    ap
      (λ file.
        end_result (record { file = file_of lines; tip = tip })
          (walk_lines lib (split_lines file) start_walk))
      (sym (append-nil (file_of lines)))
    ∙ ap (end_result (record { file = file_of lines; tip = tip })) (walk_lines-file_of lib [] chain)

-- On a chain of at most 10^19 records whose tip file is missing or names one of them, `verify_chain`
-- counts all records and says whether the tip is missing or names the newest one.
pub verify_chain-IsChain :
    (lib : AuditLibrary) {lines : List Bytes} {tip : Option Bytes}
    → IsChain lib lines
    → (at : IsTip lib lines tip) → length lines ≤ max_records
    → verify_chain lib (record { file = file_of lines; tip = tip })
      ≡ ok (tip_is_fresh at, length lines)
verify_chain-IsChain lib {lines = lines} {tip = tip} chain at short =
    verify_chain-walked lib tip chain
    ∙ ap ok (
        walk_result-head lib lines (record { file = file_of lines; tip = tip }) (tip_is_fresh at)
          (tip_is_fresh-nil at) (verify_tip-IsTip lib at short))
