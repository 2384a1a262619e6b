-- ===== src/Tests/Toy.antt =====
-- An environment in which the theorems are applied: its ciphers append a tag of 16 bytes, its
-- argon2 repeats a byte, and its JSON and msgpack are lists of numbers.
use gpg_meister.Base.{
  All-append, Bool, Bool-cases, Option, [], ap, arith, drop, drop-append, false, if◌then◌else◌,
  length, length-append, none, refl, same, same_self, same→eq, some, inl, inr, ◌∙◌, recursion_error,
  suc, sym, take, take-append, true, zero, ℕ, ◌%◌, ◌++◌, ◌-◌, ◌<◌, ◌∷◌, ◌≡◌,
}
use gpg_meister.Model.Fields.{
  CipherAlgorithm, CipherParams, KdfFields, aes_256_gcm, chacha20_poly1305,
}
use gpg_meister.Model.KdfParams.{KdfAlgorithm, argon2id}
use gpg_meister.Model.KeySlot.{VaultKeySlot, VaultSlotType, openpgp, passphrase}
use gpg_meister.Model.Manifest.{VaultKeyEntry, VaultManifest}
use gpg_meister.Model.VaultHeader.{VaultHeader}
use gpg_meister.Python.{Bytes, IsBytes, Text}
use gpg_meister.Security.Environment.{
  Environment, HeaderRead, ManifestRead, header_fields, json_raised, manifest_fields, no_map,
  not_json,
}
use gpg_meister.Tests.Codec.{Codec, list, number, option, pair, read_all, read_all-put, via}

abbrev pub text_codec : Codec Text
text_codec = list number

abbrev pub of_bool : Bool → ℕ
of_bool false = 0
of_bool true = 1

abbrev pub to_bool : ℕ → Bool
to_bool zero = false
to_bool (suc n) = true

pub to_bool-of_bool : (b : Bool) → to_bool (of_bool b) ≡ b
to_bool-of_bool false = refl
to_bool-of_bool true = refl

abbrev pub bool_codec : Codec Bool
bool_codec = via of_bool to_bool to_bool-of_bool number

abbrev of_cipher : CipherAlgorithm → ℕ
of_cipher aes_256_gcm = 0
of_cipher chacha20_poly1305 = 1

abbrev to_cipher : ℕ → CipherAlgorithm
to_cipher zero = aes_256_gcm
to_cipher (suc n) = chacha20_poly1305

pub to_cipher-of_cipher : (c : CipherAlgorithm) → to_cipher (of_cipher c) ≡ c
to_cipher-of_cipher aes_256_gcm = refl
to_cipher-of_cipher chacha20_poly1305 = refl

abbrev cipher : Codec CipherParams
cipher =
    via (λ c. (of_cipher c.algorithm, c.nonce_b64))
      (λ (a, n). record { algorithm = to_cipher a; nonce_b64 = n })
      (λ c. rw (to_cipher-of_cipher c.algorithm) refl) (pair number text_codec)

abbrev of_slot_type : VaultSlotType → ℕ
of_slot_type passphrase = 0
of_slot_type openpgp = 1

abbrev to_slot_type : ℕ → VaultSlotType
to_slot_type zero = passphrase
to_slot_type (suc n) = openpgp

pub to_slot_type-of_slot_type : (t : VaultSlotType) → to_slot_type (of_slot_type t) ≡ t
to_slot_type-of_slot_type passphrase = refl
to_slot_type-of_slot_type openpgp = refl

abbrev pub of_kdf : KdfAlgorithm → ℕ
of_kdf argon2id = 0

pub to_kdf-of_kdf : (a : KdfAlgorithm) → argon2id ≡ a
to_kdf-of_kdf argon2id = refl

abbrev pub kdf_codec : Codec KdfFields
kdf_codec =
    via
      (λ k. (
        of_kdf k.algorithm,
        (k.salt_b64, (k.time_cost, (k.memory_cost, (k.parallelism, k.hash_len)))),
      ))
      (λ (a, (s, (t, (m, (p, h))))). record {
        algorithm = argon2id;
        salt_b64 = s;
        time_cost = t;
        memory_cost = m;
        parallelism = p;
        hash_len = h;
      })
      (λ k. rw (sym (to_kdf-of_kdf k.algorithm)) refl)
      (pair number (pair text_codec (pair number (pair number (pair number number)))))

abbrev slot : Codec VaultKeySlot
slot =
    via
      (λ s. (
        of_slot_type s.type,
        (s.wrapped_key_b64, (s.kdf, (s.nonce_b64, (s.fingerprint, s.label)))),
      ))
      (λ (t, (w, (k, (n, (f, l))))). record {
        type = to_slot_type t;
        wrapped_key_b64 = w;
        kdf = k;
        nonce_b64 = n;
        fingerprint = f;
        label = l;
      })
      (λ s. rw (to_slot_type-of_slot_type s.type) refl)
      (pair number (
        pair text_codec (
          pair (option kdf_codec)
            (pair (option text_codec) (pair (option text_codec) text_codec)))))

abbrev header : Codec VaultHeader
header =
    via (λ h. (h.format, (h.version, (h.kdf, (h.cipher, h.key_slots)))))
      (λ (f, (v, (k, (c, s)))). record {
        format = f;
        version = v;
        kdf = k;
        cipher = c;
        key_slots = s;
      })
      (λ h. refl)
      (pair text_codec (pair number (pair (option kdf_codec) (pair cipher (option (list slot))))))

abbrev key_entry : Codec VaultKeyEntry
key_entry =
    via
      (λ e. (
        e.fingerprint,
        (e.user_ids, (e.has_private_key, (e.is_stub, (e.created_at, e.expires_at)))),
      ))
      (λ (f, (u, (p, (s, (c, x))))). record {
        fingerprint = f;
        user_ids = u;
        has_private_key = p;
        is_stub = s;
        created_at = c;
        expires_at = x;
      })
      (λ e. refl)
      (pair text_codec (
        pair (list text_codec)
          (pair bool_codec (pair bool_codec (pair text_codec (option text_codec))))))

abbrev manifest : Codec VaultManifest
manifest =
    via (λ m. (m.created_by, (m.created_at, (m.app_version, (m.description, m.keys)))))
      (λ (b, (a, (v, (d, k)))). record {
        created_by = b;
        created_at = a;
        app_version = v;
        description = d;
        keys = k;
      })
      (λ m. refl)
      (pair text_codec (pair text_codec (pair text_codec (pair text_codec (list key_entry)))))

abbrev pub repeat : ℕ → ℕ → Bytes
repeat b zero = []
repeat b (suc n) = b ∷ repeat b n

pub length-repeat : (b n : ℕ) → length (repeat b n) ≡ n
length-repeat b zero = refl
length-repeat b (suc n) = rw (length-repeat b n) refl

abbrev toy_argon2 : Bytes → Bytes → ℕ → ℕ → ℕ → ℕ → Option Bytes
toy_argon2 secret salt time memory lanes n = some (repeat (length secret) n)

pub length-toy_argon2 :
    (secret salt : Bytes) (time memory lanes n : ℕ) (raw : Bytes)
    → toy_argon2 secret salt time memory lanes n ≡ some raw
    → length raw ≡ n
length-toy_argon2 secret salt time memory lanes n raw h =
    let e : repeat (length secret) n ≡ raw = cc h in rw (sym e) (length-repeat (length secret) n)

-- the tag is made of the first byte of the key
abbrev head_or_zero : Bytes → ℕ
head_or_zero [] = 0
head_or_zero (b ∷ l) = b % 256

abbrev tag : Bytes → Bytes
tag key = repeat (head_or_zero key) 16

abbrev toy_unseal : Bytes → Bytes → Option Bytes
toy_unseal key sealed =
    if same (drop (length sealed - 16) sealed) (tag key)
    then some (take (length sealed - 16) sealed)
    else none

pub length-tag : (key : Bytes) → length (tag key) ≡ 16
length-tag key = length-repeat (head_or_zero key) 16

tag_start : (key plain : Bytes) → length (plain ++ tag key) - 16 ≡ length plain
tag_start key plain = omega (arith, length-append plain (tag key), length-tag key)

pub toy_unseal-append : (key plain : Bytes) → toy_unseal key (plain ++ tag key) ≡ some plain
toy_unseal-append key plain =
    rw
      (
        tag_start key plain,
        drop-append plain (tag key),
        same_self (tag key),
        take-append plain (tag key),
      )
      refl

pub repeat-IsBytes : (b n : ℕ) → b < 256 → IsBytes (repeat b n)
repeat-IsBytes b zero h = tt
repeat-IsBytes b (suc n) h = (h, repeat-IsBytes b n h)

pub head_or_zero_bound : (key : Bytes) → head_or_zero key < 256
head_or_zero_bound [] = omega arith
head_or_zero_bound (b ∷ l) = omega arith

abbrev as_header : Option VaultHeader → HeaderRead
as_header none = not_json
as_header (some h) = header_fields h

abbrev as_manifest : Option VaultManifest → ManifestRead
as_manifest none = no_map
as_manifest (some m) = manifest_fields m

abbrev pub toy : Environment
toy = record {
  mlock = λ n. true;
  argon2 = toy_argon2;
  seal = λ c key nonce plain aad. plain ++ tag key;
  unseal = λ c key nonce sealed aad. toy_unseal key sealed;
  header_json = λ h. header.put h [];
  read_header = λ l. as_header (read_all header l);
  manifest_msgpack = λ m. manifest.put m [];
  read_manifest = λ l. as_manifest (read_all manifest l);
  length-argon2 = length-toy_argon2;
  unseal-seal = λ c key nonce plain aad. toy_unseal-append key plain;
  length-seal =
      λ c key nonce plain aad. omega (arith, length-append plain (tag key), length-tag key);
  seal-IsBytes = λ c key nonce plain aad h.
      All-append (λ b. b < 256) plain (tag key) h
        (repeat-IsBytes (head_or_zero key) 16 (head_or_zero_bound key));
  read_header-header_json = λ h _. ap as_header (read_all-put header h);
  read_manifest-manifest_msgpack = λ m _. ap as_manifest (read_all-put manifest m);
  read_header-nil = refl;
}

-- An environment whose JSON reader gives up on one text, as on one that is nested too deeply.
abbrev pub nested : Bytes
nested = b'[' ∷ []

unfoldable pub read_deep : Bytes → HeaderRead
read_deep l =
    if same l nested
    then json_raised (recursion_error "maximum recursion depth exceeded")
    else as_header (read_all header l)

pub read_deep-put :
    (h : VaultHeader) (l : Bytes) → header.put h [] ≡ l → read_deep l ≡ header_fields h
unfolding read_deep
read_deep-put h l at = elim (Bool-cases (same l nested)) [
  | inl e ↦
      let none_read : read_all header nested ≡ none = refl in
      let put : read_all header (header.put h []) ≡ some h = read_all-put header h in
      absurd (cc (ap (read_all header) (at ∙ same→eq l nested e), put, none_read))
  | inr e ↦ rw e (ap as_header (ap (read_all header) (sym at) ∙ read_all-put header h))
]

pub read_deep-nil : read_deep [] ≡ not_json
unfolding read_deep
read_deep-nil = refl

abbrev pub deep : Environment
deep = record toy {
  read_header = read_deep;
  read_header-header_json = λ h _. read_deep-put h (header.put h []) refl;
  read_header-nil = read_deep-nil;
}
