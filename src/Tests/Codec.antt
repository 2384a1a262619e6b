-- ===== src/Tests/Codec.antt =====
-- A way to write data as a list of numbers and read it back, which stands in for JSON and msgpack
-- where a theorem is applied to concrete data.
use gpg_meister.Base.{List, Option, [], length, none, refl, some, suc, zero, ℕ, ◌∙◌, ◌∷◌, ◌≡◌}

pub record Codec (A : Type 0) : Type 0 where
  pub put : A → List ℕ → List ℕ
  pub get : List ℕ → Option (A × List ℕ)
  pub get-put : (a : A) (rest : List ℕ) → get (put a rest) ≡ some (a, rest)

abbrev get_number : List ℕ → Option (ℕ × List ℕ)
get_number [] = none
get_number (n ∷ rest) = some (n, rest)

abbrev pub number : Codec ℕ
number = record { put = λ n rest. n ∷ rest; get = get_number; get-put = λ n rest. refl }

abbrev mapped : {A B : Type 0} → (B → A) → Option (B × List ℕ) → Option (A × List ℕ)
mapped f none = none
mapped f (some (b, rest)) = some (f b, rest)

pub mapped-some :
    {A B : Type 0} (f : B → A) (o : Option (B × List ℕ)) (b : B) (rest : List ℕ)
    → o ≡ some (b, rest)
    → mapped f o ≡ some (f b, rest)
mapped-some f o b rest e = rw e refl

-- data that another codec writes
abbrev pub via :
    {A B : Type 0} (to : A → B) (from : B → A) → ((a : A) → from (to a) ≡ a) → Codec B → Codec A
via to from back c = record {
  put = λ a. c.put (to a);
  get = λ l. mapped from (c.get l);
  get-put = λ a rest. mapped-some from _ (to a) rest (c.get-put (to a) rest) ∙ rw (back a) refl;
}

abbrev get_second : {A B : Type 0} → Codec B → Option (A × List ℕ) → Option ((A × B) × List ℕ)
get_second c none = none
get_second c (some (a, l)) = mapped (λ b. (a, b)) (c.get l)

abbrev pub pair : {A B : Type 0} → Codec A → Codec B → Codec (A × B)
pair c d = record {
  put = λ (a, b) rest. c.put a (d.put b rest);
  get = λ l. get_second d (c.get l);
  get-put = λ (a, b) rest. rw (c.get-put a (d.put b rest), d.get-put b rest) refl;
}

abbrev put_all : {A : Type 0} → Codec A → List A → List ℕ → List ℕ
put_all c [] rest = rest
put_all c (a ∷ l) rest = c.put a (put_all c l rest)

abbrev consed : {A : Type 0} → A → Option (List A × List ℕ) → Option (List A × List ℕ)
consed a = mapped (λ l. a ∷ l)

abbrev get_rest :
    {A : Type 0}
    → (List ℕ → Option (List A × List ℕ))
    → Option (A × List ℕ)
    → Option (List A × List ℕ)
get_rest more none = none
get_rest more (some (a, l)) = consed a (more l)

abbrev get_all : {A : Type 0} → Codec A → ℕ → List ℕ → Option (List A × List ℕ)
get_all c zero l = some ([], l)
get_all c (suc n) l = get_rest (get_all c n) (c.get l)

pub get_all-put_all :
    {A : Type 0} (c : Codec A) (l : List A) (rest : List ℕ)
    → get_all c (length l) (put_all c l rest) ≡ some (l, rest)
get_all-put_all c [] rest = refl
get_all-put_all c (a ∷ l) rest = rw (c.get-put a (put_all c l rest), get_all-put_all c l rest) refl

abbrev get_list : {A : Type 0} → Codec A → List ℕ → Option (List A × List ℕ)
get_list c [] = none
get_list c (n ∷ l) = get_all c n l

abbrev pub list : {A : Type 0} → Codec A → Codec (List A)
list c = record {
  put = λ l rest. (length l) ∷ put_all c l rest;
  get = get_list c;
  get-put = get_all-put_all c;
}

abbrev put_option : {A : Type 0} → Codec A → Option A → List ℕ → List ℕ
put_option c none rest = 0 ∷ rest
put_option c (some a) rest = 1 ∷ c.put a rest

abbrev get_option : {A : Type 0} → Codec A → List ℕ → Option (Option A × List ℕ)
get_option c [] = none
get_option c (zero ∷ l) = some (none, l)
get_option c (suc n ∷ l) = mapped some (c.get l)

pub get_option-put_option :
    {A : Type 0} (c : Codec A) (o : Option A) (rest : List ℕ)
    → get_option c (put_option c o rest) ≡ some (o, rest)
get_option-put_option c none rest = refl
get_option-put_option c (some a) rest = rw (c.get-put a rest) refl

abbrev pub option : {A : Type 0} → Codec A → Codec (Option A)
option c = record { put = put_option c; get = get_option c; get-put = get_option-put_option c }

abbrev forget_rest : {A : Type 0} → Option (A × List ℕ) → Option A
forget_rest none = none
forget_rest (some (a, rest)) = some a

-- what is read from a whole list
abbrev pub read_all : {A : Type 0} → Codec A → List ℕ → Option A
read_all c l = forget_rest (c.get l)

pub read_all-put : {A : Type 0} (c : Codec A) (a : A) → read_all c (c.put a []) ≡ some a
read_all-put c a = rw (c.get-put a []) refl
