-- ===== src/Security/Buffers/Lifecycle.antt =====
-- The life of a buffer: what it holds while it is open, and that nothing is left when it is closed.
use gpg_meister.Base.{
  Bool, Bool-cases, List, [], ap, arith, err, false, inl, inr, length, length-append, ok, refl,
  runtime_error, suc, sym, take-append, true, zero, ℕ, ◌+◌, ◌<◌, ◌∙◌, ◌∷◌, ◌≡◌,
}
use gpg_meister.Python.{Bytes}
use gpg_meister.Security.Buffers.{SecureBytes, close, enter, from_bytes, to_bytes, view, zeros}

-- A write of a byte through a view; the NUL slot is out of reach.
abbrev pub poke : List ℕ → ℕ → ℕ → List ℕ
poke [] i v = []
poke (x ∷ xs) zero v = v ∷ xs
poke (x ∷ xs) (suc i) v = x ∷ poke xs i v

-- several writes, the last one in front
abbrev pub poke_all : List (ℕ × ℕ) → List ℕ → List ℕ
poke_all [] xs = xs
poke_all ((i, v) ∷ writes) xs = poke (poke_all writes xs) i v

-- A buffer, whether a view of it was handed out, and the writes through views since it was closed.
-- A view is a `memoryview` of the same memory: `close` does not release it.
pub record Held : Type 0 where
  pub sb : SecureBytes
  pub viewed : Bool
  pub late : List (ℕ × ℕ)

-- What a holder of the buffer can do.
pub data Use : Held → Held → Type 0 where
  take_view : (h : Held) (shown : Bytes) → view h.sb ≡ ok shown → Use h (record h { viewed = true })
  write :
      (h : Held) (i v : ℕ)
      → h.viewed ≡ true
      → h.sb.closed ≡ false
      → i < h.sb.size
      → Use h (record h { sb = record (h.sb) { buffer = poke h.sb.buffer i v } })
  write_late :
      (h : Held) (i v : ℕ)
      → h.viewed ≡ true
      → h.sb.closed ≡ true
      → i < h.sb.size
      → Use h (record h {
        sb = record (h.sb) { buffer = poke h.sb.buffer i v };
        late = (i, v) ∷ h.late;
      })
  shut : (h : Held) → Use h (record h { sb = close h.sb })

pub data Uses (s : Held) : Held → Type 0 where
  none_yet : Uses s s
  then_use : {t u : Held} → Uses s t → Use t u → Uses s u

-- a buffer that was just made
abbrev pub fresh : (ℕ → Bool) → Bytes → Held
fresh mlock source = record { sb = from_bytes mlock source; viewed = false; late = [] }

pub record IsSound (h : Held) : Type 0 where
  pub measured : length h.sb.buffer ≡ h.sb.size + 1
  pub wiped : h.sb.closed ≡ true → h.sb.buffer ≡ poke_all h.late (zeros (h.sb.size + 1))
  pub unlocked : h.sb.closed ≡ true → h.sb.locked ≡ false
  pub in_time : h.sb.closed ≡ false → h.late ≡ []

length-zeros : (n : ℕ) → length (zeros n) ≡ n
unfolding zeros
length-zeros zero = refl
length-zeros (suc n) = ap suc (length-zeros n)

length-poke : (xs : List ℕ) (i v : ℕ) → length (poke xs i v) ≡ length xs
length-poke [] i v = refl
length-poke (x ∷ xs) zero v = refl
length-poke (x ∷ xs) (suc i) v = ap suc (length-poke xs i v)

fresh-IsSound : (mlock : ℕ → Bool) (source : Bytes) → IsSound (fresh mlock source)
unfolding from_bytes
fresh-IsSound mlock source = record {
  measured = omega (arith, length-append source (0 ∷ []));
  wiped = λ e. cc;
  unlocked = λ e. cc;
  in_time = λ _. refl;
}

close-IsSound : (h : Held) → IsSound h → IsSound (record h { sb = close h.sb })
unfolding close
close-IsSound h s = elim (Bool-cases h.sb.closed) [
  | inl e ↦ simp e s
  | inr e ↦ simp e (record {
    measured = length-zeros (length h.sb.buffer) ∙ s.measured;
    wiped =
        λ _. ap zeros s.measured ∙ sym (ap (λ l. poke_all l (zeros (h.sb.size + 1))) (s.in_time e));
    unlocked = λ _. refl;
    in_time = λ never. absurd (cc never);
  })
]

Use-IsSound : {s t : Held} → Use s t → IsSound s → IsSound t
Use-IsSound (take_view h shown e) k = record {
  measured = k.measured;
  wiped = k.wiped;
  unlocked = k.unlocked;
  in_time = k.in_time;
}
Use-IsSound (write h i v seen e lt) k = record {
  measured = length-poke h.sb.buffer i v ∙ k.measured;
  wiped = λ c. cc;
  unlocked = λ c. cc;
  in_time = k.in_time;
}
Use-IsSound (write_late h i v seen e lt) k = record {
  measured = length-poke h.sb.buffer i v ∙ k.measured;
  wiped = λ c. ap (λ b. poke b i v) (k.wiped c);
  unlocked = k.unlocked;
  in_time = λ c. cc;
}
Use-IsSound (shut h) k = close-IsSound h k

Uses-IsSound : {s t : Held} → Uses s t → IsSound s → IsSound t
Uses-IsSound none_yet h = h
Uses-IsSound (then_use us u) h = Use-IsSound u (Uses-IsSound us h)

-- From a fresh buffer, whatever views its holder takes, whatever is written through them, before
-- the buffer is closed or after, and whenever it is closed: a closed buffer holds zeros, the NUL
-- slot included, at its full length, but for the writes through a view that came after the
-- closing, in their order. It counts as not locked, and no longer shows a new view or a copy or
-- enters a `with` block.
pub closed_is_wiped :
    (mlock : ℕ → Bool) (source : Bytes) {h : Held}
    → Uses (fresh mlock source) h
    → h.sb.closed ≡ true
    → (h.sb.buffer ≡ poke_all h.late (zeros (h.sb.size + 1)))
      × (h.sb.locked ≡ false)
      × (view h.sb ≡ err (runtime_error "SecureBytes is closed"))
      × (to_bytes h.sb ≡ err (runtime_error "SecureBytes is closed"))
      × (enter h.sb ≡ err (runtime_error "cannot re-enter a closed SecureBytes"))
unfolding view to_bytes enter
closed_is_wiped mlock source uses c =
    let s = Uses-IsSound uses (fresh-IsSound mlock source) in
    (s.wiped c, s.unlocked c, rw c, rw c, rw c)

-- What was put in is what a fresh buffer shows.
pub view-from_bytes :
    (mlock : ℕ → Bool) (source : Bytes) → view (from_bytes mlock source) ≡ ok source
unfolding view from_bytes
view-from_bytes mlock source = ap ok (take-append source (0 ∷ []))
