-- ===== src/Python/Words.antt =====
-- `s.split()` for ASCII white space.
use gpg_meister.Base.{
  Bool, List, [], all, ap, append-nil, arith, false, if◌then◌else◌, length, not, refl, true, within,
  ℕ, ◌++◌, ◌<◌, ◌||◌, ◌∙◌, ◌∷◌, ◌≡◌,
}
use gpg_meister.Python.{Text}

abbrev pub is_split_space : ℕ → Bool
is_split_space c = within 9 13 c || within 28 32 c

abbrev pub put_word : Text → List Text → List Text
put_word [] ws = ws
put_word (c ∷ w) ws = (c ∷ w) ∷ ws

abbrev onto_word : ℕ → Text × List Text → Text × List Text
onto_word c (w, ws) = if is_split_space c then ([], put_word w ws) else (c ∷ w, ws)

-- the characters up to the first white space, and the words behind it
unfoldable pub word_parts : Text → Text × List Text
word_parts [] = ([], [])
word_parts (c ∷ t) = onto_word c (word_parts t)

unfoldable pub split_words : Text → List Text
unfolding word_parts
split_words t = put_word (word_parts t).0 (word_parts t).1

abbrev pub IsWord : Text → Type 0
IsWord w = (all (λ c. not (is_split_space c)) w ≡ true) × (0 < length w)

word_parts-cons : (c : ℕ) (t : Text) → word_parts (c ∷ t) ≡ onto_word c (word_parts t)
unfolding word_parts
word_parts-cons c t = refl

word_parts-append :
    (w rest : Text)
    → all (λ c. not (is_split_space c)) w ≡ true
    → word_parts (w ++ rest) ≡ (w ++ (word_parts rest).0, (word_parts rest).1)
unfolding word_parts
word_parts-append [] rest h = refl
word_parts-append (c ∷ w) rest h =
    let e : is_split_space c ≡ false = ground arith in
    rw (word_parts-append w rest (ground arith), e)

put_word-IsWord : (w : Text) (ws : List Text) → 0 < length w → put_word w ws ≡ w ∷ ws
put_word-IsWord [] ws h = elim h [ ]
put_word-IsWord (c ∷ w) ws h = refl

word_parts_two :
    (v w : Text) → IsWord v → IsWord w → word_parts (v ++ 32 ∷ (w ++ 10 ∷ [])) ≡ (v, w ∷ [])
word_parts_two v w hv hw =
    let second : word_parts (w ++ 10 ∷ []) ≡ (w, []) =
      word_parts-append w (10 ∷ []) hw.0 ∙ unfold word_parts in rw append-nil refl in
    let behind : word_parts (32 ∷ (w ++ 10 ∷ [])) ≡ ([], w ∷ []) =
      word_parts-cons 32 (w ++ 10 ∷ [])
      ∙ (ap (onto_word 32) second ∙ ap (λ ws. ([], ws)) (put_word-IsWord w [] hw.1)) in
    word_parts-append v (32 ∷ (w ++ 10 ∷ [])) hv.0 ∙ rw (behind, append-nil) refl

-- Two words with a space between them and a newline behind.
pub split_words_two :
    (v w : Text) → IsWord v → IsWord w → split_words (v ++ 32 ∷ (w ++ 10 ∷ [])) ≡ v ∷ w ∷ []
unfolding split_words
split_words_two v w hv hw =
    ap (λ p. put_word p.0 p.1) (word_parts_two v w hv hw) ∙ put_word-IsWord v (w ∷ []) hv.1
