-- ===== src/Security/Policy/Counting.antt =====
-- security/password_policy.py: the words that `_word_count` counts.
use gpg_meister.Base.{
  All, Bool, Bool-cases, [], ap, arith, false, inl, inr, refl, suc, sym, true, ℕ, ◌++◌, ◌+◌, ◌∙◌,
  ◌∷◌, ◌≡◌,
}
use gpg_meister.Python.{Text}
use gpg_meister.Security.Policy.{words_from}

module _ (is_word : ℕ → Bool) where
  -- Runs of word characters and of others.
  abbrev pub IsWord : Text → Type 0
  IsWord t = All (λ c. is_word c ≡ true) t

  abbrev pub IsGap : Text → Type 0
  IsGap t = All (λ c. is_word c ≡ false) t

  abbrev pub StartsGap : Text → Type 0
  StartsGap [] = Unit
  StartsGap (c ∷ t) = is_word c ≡ false

  -- The text is cut into `n` words, which are not empty and do not touch, with gaps around them.
  pub data Words : Text → ℕ → Type 0 where
    no_word : (t : Text) (n : ℕ) → n ≡ 0 → IsGap t → Words t n
    next_word :
        (t gap : Text) (c : ℕ) (word rest : Text) (m n : ℕ)
        → t ≡ gap ++ (c ∷ (word ++ rest))
        → n ≡ suc m
        → IsGap gap
        → is_word c ≡ true
        → IsWord word
        → StartsGap rest
        → Words rest m
        → Words t n

  words_from-gap :
      (gap rest : Text)
      → IsGap gap
      → words_from is_word false (gap ++ rest) ≡ words_from is_word false rest
  unfolding words_from
  words_from-gap [] rest h = refl
  words_from-gap (c ∷ gap) rest h = rw (h.0) (words_from-gap gap rest h.1)

  words_from-word :
      (word rest : Text)
      → IsWord word
      → words_from is_word true (word ++ rest) ≡ words_from is_word true rest
  unfolding words_from
  words_from-word [] rest h = refl
  words_from-word (c ∷ word) rest h = rw (h.0) (words_from-word word rest h.1)

  words_from-start :
      (rest : Text) → StartsGap rest → words_from is_word true rest ≡ words_from is_word false rest
  unfolding words_from
  words_from-start [] h = refl
  words_from-start (c ∷ rest) h = rw h refl

  words_from-first :
      (c : ℕ) (t : Text)
      → is_word c ≡ true
      → words_from is_word false (c ∷ t) ≡ 1 + words_from is_word true t
  unfolding words_from
  words_from-first c t h = rw h refl

  words_from-only_gap : (t : Text) → IsGap t → words_from is_word false t ≡ 0
  unfolding words_from
  words_from-only_gap [] h = refl
  words_from-only_gap (c ∷ t) h = rw (h.0) (words_from-only_gap t h.1)

  -- Every cutting of a text has the number of words that is counted.
  pub words_from-Words : {t : Text} {n : ℕ} → Words t n → words_from is_word false t ≡ n
  words_from-Words (no_word t n z h) = words_from-only_gap t h ∙ sym z
  words_from-Words (next_word t gap c word rest m n cut next g first w start more) =
      let counted = words_from-Words more in
      ap (words_from is_word false) cut
      ∙ (words_from-gap gap (c ∷ (word ++ rest)) g
          ∙ (words_from-first c (word ++ rest) first
              ∙ (ap (λ k. 1 + k)
                    (words_from-word word rest w ∙ (words_from-start rest start ∙ counted))
                  ∙ omega (arith, next))))

  Words-gap : (c : ℕ) {t : Text} {n : ℕ} → is_word c ≡ false → Words t n → Words (c ∷ t) n
  Words-gap c h (no_word t n z g) = no_word (c ∷ t) n z (h, g)
  Words-gap c h (next_word t gap d word rest m n cut next g first w start more) =
      next_word (c ∷ t) (c ∷ gap) d word rest m n (ap (λ l. c ∷ l) cut) next (h, g) first w start
        more

  -- the rest of a word, and what follows it
  record Tail (t : Text) : Type 0 where
    word : Text
    rest : Text
    cut : t ≡ word ++ rest
    all_word : IsWord word
    starts : StartsGap rest
    more : Words rest (words_from is_word true t)

  Words-both : (t : Text) → Words t (words_from is_word false t) × Tail t
  unfolding words_from
  Words-both [] = (
    no_word [] 0 refl tt,
    record {
      word = [];
      rest = [];
      cut = refl;
      all_word = tt;
      starts = tt;
      more = no_word [] 0 refl tt;
    },
  )
  Words-both (c ∷ t) =
      let (words, tail) = Words-both t in
      elim (Bool-cases (is_word c)) [
        | inl e ↦ rw e (
          next_word (c ∷ t) [] c tail.word tail.rest (words_from is_word true t) _
              (ap (λ l. c ∷ l) tail.cut) (omega arith) tt e tail.all_word tail.starts tail.more,
          record {
            word = c ∷ tail.word;
            rest = tail.rest;
            cut = ap (λ l. c ∷ l) tail.cut;
            all_word = (e, tail.all_word);
            starts = tail.starts;
            more = rw e (tail.more);
          },
        )
        | inr e ↦ (
          rw e (Words-gap c e words),
          record {
            word = [];
            rest = c ∷ t;
            cut = refl;
            all_word = tt;
            starts = e;
            more = rw e (Words-gap c e words);
          },
        )
      ]

  -- Every text can be cut into the words that are counted.
  pub Words-words_from : (t : Text) → Words t (words_from is_word false t)
  Words-words_from t = (Words-both t).0
