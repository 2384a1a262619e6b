-- ===== src/Tests/AuditToy.antt =====
-- An audit library in which the theorems on the audit log are applied: a line is written as numbers
-- above the newline, and a digest repeats a letter.
use gpg_meister.Audit.Record.{
  AuditFields, AuditLibrary, IsObjectLine, JsonField, JsonLine, bad_json, nat_field, no_field,
  no_object, object_line, text_field,
}
use gpg_meister.Base.{
  List, Option, [], all, arith, if◌then◌else◌, length, length-append, map, none, not, refl, some,
  subst, suc, take, take-append, true, zero, ℕ, ◌%◌, ◌++◌, ◌+◌, ◌-◌, ◌<◌, ◌==◌, ◌∙◌, ◌∷◌, ◌≡◌,
}
use gpg_meister.Python.{Bytes, Text}
use gpg_meister.Python.Lines.{newline}
use gpg_meister.Python.Words.{is_split_space}
use gpg_meister.Tests.Codec.{Codec, list, number, option, pair}
use gpg_meister.Tests.Toy.{length-repeat, repeat}

abbrev link : Codec (Option Text × Option ℕ)
link = pair (option (list number)) (option number)

abbrev raised_numbers : List ℕ → Bytes
raised_numbers = map (λ n. n + 11)

abbrev lowered : Bytes → List ℕ
lowered = map (λ n. n - 11)

lowered-raised_numbers : (l : List ℕ) → lowered (raised_numbers l) ≡ l
lowered-raised_numbers [] = refl
lowered-raised_numbers (n ∷ l) =
    let e : n + 11 - 11 ≡ n = omega arith in rw (e, lowered-raised_numbers l) refl

abbrev pub fields_line : AuditFields → Bytes
fields_line f =
    b'{' ∷ (raised_numbers (link.put (f.prev_hash, f.seq) (f.event ++ f.outcome)) ++ b'}' ∷ [])

abbrev pub field_text : Option Text → JsonField
field_text none = no_field
field_text (some t) = text_field t

abbrev pub field_nat : Option ℕ → JsonField
field_nat none = no_field
field_nat (some n) = nat_field n

abbrev object_of : Option ((Option Text × Option ℕ) × List ℕ) → JsonLine
object_of none = no_object
object_of (some ((h, n), rest)) = object_line (field_text h) (field_nat n)

abbrev toy_loads : Bytes → JsonLine
toy_loads [] = bad_json
toy_loads (b ∷ body) =
    if b == b'{' then object_of (link.get (lowered (take (length body - 1) body))) else bad_json

pub toy_loads-fields_line :
    (f : AuditFields)
    → toy_loads (fields_line f) ≡ object_line (field_text f.prev_hash) (field_nat f.seq)
toy_loads-fields_line f =
    let body = raised_numbers (link.put (f.prev_hash, f.seq) (f.event ++ f.outcome)) in
    let size : length (body ++ b'}' ∷ []) - 1 ≡ length body =
      omega (arith, length-append body (b'}' ∷ [])) in
    rw
      (
        size,
        take-append body (b'}' ∷ []),
        lowered-raised_numbers (link.put (f.prev_hash, f.seq) (f.event ++ f.outcome)),
        link.get-put (f.prev_hash, f.seq) (f.event ++ f.outcome),
      )
      refl

abbrev sum : Bytes → ℕ
sum [] = 0
sum (b ∷ l) = b + sum l

abbrev toy_digest : Bytes → Text
toy_digest l = repeat (97 + sum l % 26) 64

pub repeat-word : (c n : ℕ) → 32 < c → all (λ x. not (is_split_space x)) (repeat c n) ≡ true
repeat-word c zero h = refl
repeat-word c (suc n) h = ground (arith, repeat-word c n h)

pub raised_numbers-IsOneLine :
    (l : List ℕ) → all (λ b. not (b == newline)) (raised_numbers l ++ b'}' ∷ []) ≡ true
raised_numbers-IsOneLine [] = refl
raised_numbers-IsOneLine (n ∷ l) = ground (arith, raised_numbers-IsOneLine l)

pub fields_line-IsObjectLine : (f : AuditFields) → IsObjectLine (fields_line f)
fields_line-IsObjectLine f =
    let numbers = link.put (f.prev_hash, f.seq) (f.event ++ f.outcome) in
    record {
      body = raised_numbers numbers;
      braces = refl;
      one_line = raised_numbers-IsOneLine numbers;
    }

pub written-IsObjectLine :
    (f : AuditFields) (line : Bytes) → some (fields_line f) ≡ some line → IsObjectLine line
written-IsObjectLine f line h =
    let e : fields_line f ≡ line = cc h in subst IsObjectLine e (fields_line-IsObjectLine f)

pub toy_loads-written :
    (f : AuditFields) (line : Bytes) (h : Text) (n : ℕ)
    → some (fields_line f) ≡ some line
    → f.prev_hash ≡ some h
    → f.seq ≡ some n
    → toy_loads line ≡ object_line (text_field h) (nat_field n)
toy_loads-written f line h n written hash number =
    let e : line ≡ fields_line f = cc written in
    rw e (toy_loads-fields_line f ∙ rw (hash, number) refl)

abbrev pub audit_toy : AuditLibrary
audit_toy = record {
  digest = toy_digest;
  dumps = λ f. some (fields_line f);
  loads = toy_loads;
  lower = λ t. t;
  length-digest = λ b. length-repeat (97 + sum b % 26) 64;
  digest-word = λ b. repeat-word (97 + sum b % 26) 64 (omega arith);
  dumps-IsObjectLine = written-IsObjectLine;
  loads-dumps = toy_loads-written;
}
