-- ===== src/Audit/Secrets/Occurs.antt =====
-- storage/secret_keys.py: the search of a text in a text finds every occurrence.
use gpg_meister.Audit.Secrets.{occurs_in, starts_with}
use gpg_meister.Base.{==_self, [], arith, refl, true, ◌++◌, ◌∷◌, ◌≡◌}
use gpg_meister.Python.{Text}

starts_with-append : (p rest : Text) → starts_with (p ++ rest) p ≡ true
unfolding starts_with
starts_with-append [] [] = refl
starts_with-append [] (c ∷ rest) = refl
starts_with-append (c ∷ p) rest = rw (==_self c, starts_with-append p rest) refl

pub occurs_in-middle : (before p rest : Text) → occurs_in p (before ++ (p ++ rest)) ≡ true
unfolding occurs_in
occurs_in-middle [] [] [] = unfold starts_with in refl
occurs_in-middle [] [] (c ∷ rest) = unfold starts_with in refl
occurs_in-middle [] (c ∷ p) rest = rw (starts_with-append (c ∷ p) rest) refl
occurs_in-middle (d ∷ before) p rest = rw (occurs_in-middle before p rest) (ground arith)
