-- ===== src/Python/Lines.antt =====
-- `b.split(b"\n")`, `b.strip()` and `s.split()`.
use gpg_meister.Base.{
  Bool, Bool-cases, List, [], all, ap, append_assoc, arith, drop, false, if◌then◌else◌, inl, inr,
  not, refl, reverse, reverse-append, reverse-reverse, suc, sym, true, within, zero, ℕ, ◌++◌, ◌==◌,
  ◌||◌, ◌∙◌, ◌∷◌, ◌≡◌,
}
use gpg_meister.Python.{Bytes}

abbrev pub newline : ℕ
newline = 10

-- What follows a byte goes to its line.
abbrev onto_first : ℕ → List Bytes → List Bytes
onto_first b [] = (b ∷ []) ∷ []
onto_first b (l ∷ ls) = (b ∷ l) ∷ ls

unfoldable pub split_lines : Bytes → List Bytes
split_lines [] = [] ∷ []
split_lines (b ∷ bs) =
    let rest = split_lines bs in if b == newline then [] ∷ rest else onto_first b rest

-- the bytes that `strip` removes
abbrev pub is_blank_byte : ℕ → Bool
is_blank_byte b = within 9 13 b || b == 32

unfoldable pub lstrip : Bytes → Bytes
lstrip [] = []
lstrip (b ∷ bs) = let rest = lstrip bs in if is_blank_byte b then rest else b ∷ bs

unfoldable pub rstrip : Bytes → Bytes
rstrip bs = reverse (lstrip (reverse bs))

unfoldable pub strip : Bytes → Bytes
unfolding rstrip
strip bs = rstrip (lstrip bs)

-- No byte of a line is a newline.
abbrev pub IsOneLine : Bytes → Type 0
IsOneLine l = all (λ b. not (b == newline)) l ≡ true

pub split_lines_line :
    (l rest : Bytes) → IsOneLine l → split_lines (l ++ newline ∷ rest) ≡ l ∷ split_lines rest
unfolding split_lines
split_lines_line [] rest h = refl
split_lines_line (b ∷ l) rest h =
    let e : (b == newline) ≡ false = ground arith in rw (split_lines_line l rest (ground arith), e)

-- A text that is empty or whose last line is complete.
pub data IsComplete : Bytes → Type 0 where
  empty_text : IsComplete []
  complete_text : (bs : Bytes) → IsComplete (bs ++ newline ∷ [])

pub split_lines_complete :
    (bs rest : Bytes)
    → (l : Bytes) × (ls : List Bytes) × (split_lines (bs ++ newline ∷ rest)
        ≡ l ∷ (ls ++ split_lines rest))
unfolding split_lines
split_lines_complete [] rest = ([], [], refl)
split_lines_complete (b ∷ bs) rest =
    let (l, ls, e) = split_lines_complete bs rest in
    elim (Bool-cases (b == newline)) [
      | inl f ↦ ([], l ∷ ls, rw (f, e))
      | inr f ↦ (b ∷ l, ls, rw (f, e))
    ]

-- The last complete line of a text stands before the empty rest.
pub split_lines_last :
    {before : Bytes} (l : Bytes)
    → IsComplete before
    → IsOneLine l
    → (ls : List Bytes) × (split_lines (before ++ (l ++ newline ∷ [])) ≡ ls ++ l ∷ [] ∷ [])
split_lines_last l empty_text h = ([], split_lines_line l [] h ∙ unfold split_lines in refl)
split_lines_last l (complete_text bs) h =
    let (k, ks, e) = split_lines_complete bs (l ++ newline ∷ []) in
    (
      k ∷ ks,
      ap split_lines (append_assoc bs (newline ∷ []) (l ++ newline ∷ []))
          ∙ (e ∙ rw (split_lines_line l [] h) (unfold split_lines in refl)),
    )

pub drop-IsComplete : (n : ℕ) {bs : Bytes} → IsComplete bs → IsComplete (drop n bs)
drop-IsComplete n empty_text = drop_nil n
  where
    drop_nil : (k : ℕ) → IsComplete (drop k [])
    drop_nil zero = empty_text
    drop_nil (suc k) = empty_text
drop-IsComplete n (complete_text bs) = drop_complete n bs
  where
    drop_complete : (k : ℕ) (cs : Bytes) → IsComplete (drop k (cs ++ newline ∷ []))
    drop_complete zero cs = complete_text cs
    drop_complete (suc zero) [] = empty_text
    drop_complete (suc (suc k)) [] = empty_text
    drop_complete (suc k) (c ∷ cs) = drop_complete k cs

-- A text that begins and ends with bytes that are no blanks is not changed.
pub strip_lem :
    (a : ℕ) (body : Bytes) (b : ℕ)
    → is_blank_byte a ≡ false
    → is_blank_byte b ≡ false
    → strip (a ∷ (body ++ b ∷ [])) ≡ a ∷ (body ++ b ∷ [])
unfolding strip lstrip
strip_lem a body b ha hb =
    let e : reverse (a ∷ (body ++ b ∷ [])) ≡ b ∷ reverse (a ∷ body) =
      reverse-append (a ∷ body) (b ∷ []) in
    rw (ha, e) (rw hb (ap reverse (sym e) ∙ reverse-reverse (a ∷ (body ++ b ∷ []))))
