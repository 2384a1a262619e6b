-- ===== src/Vault/Payload/Written.antt =====
-- What the serialisation of a payload writes.
use gpg_meister.Base.{
  All, List, Result-cases, [], append-nil, append_assoc, arith, false, inl, inr, is_empty, length,
  ok, refl, sym, true, ◌++◌, ◌<◌, ◌∙◌, ◌∷◌, ◌≡◌, ◌≤◌,
}
use gpg_meister.Model.Manifest.{max_vault_armor_length}
use gpg_meister.Python.{Bytes, Text}
use gpg_meister.Python.Hex.{fromhex}
use gpg_meister.Python.Struct.{pack_u32}
use gpg_meister.Vault.Payload.{CollectedEntry, append_all, append_key_material, or_empty}
use gpg_meister.Vault.Payload.Segment.{segment}

-- The bytes of a fingerprint.
abbrev pub raw_of : Text → Bytes
raw_of fingerprint = or_empty (fromhex fingerprint)

-- The key stream of the collected entries.
abbrev pub key_stream : List CollectedEntry → Bytes
key_stream [] = []
key_stream (item ∷ collected) =
    segment (raw_of item.entry.fingerprint) item.public_key (or_empty item.private_key)
      (key_stream collected)

-- The sizes that `append_key_material` lets pass.
pub record IsSized (item : CollectedEntry) : Type 0 where
  pub public_nonempty : 0 < length item.public_key
  pub public_limit : length item.public_key ≤ max_vault_armor_length
  pub private_limit : length (or_empty item.private_key) ≤ max_vault_armor_length

pub nonempty : (b : Bytes) → is_empty b ≡ false → 0 < length b
nonempty [] h = absurd (cc h)
nonempty (x ∷ b) h = omega arith

pub empty : (b : Bytes) → is_empty b ≡ true → length b ≡ 0
empty [] h = refl
empty (x ∷ b) h = absurd (cc h)

append_key_material_inv :
    (payload : Bytes) (item : CollectedEntry) {out : Bytes}
    → append_key_material payload item.entry.fingerprint item.public_key item.private_key ≡ ok out
    → IsSized item
      × (out
          ≡ payload
            ++ segment
                (raw_of item.entry.fingerprint)
                item.public_key
                (or_empty item.private_key)
                [])
unfolding append_key_material pack_u32
append_key_material_inv payload item {out} h = (
  record {
    public_nonempty = nonempty item.public_key (ground arith);
    public_limit = ground arith;
    private_limit = ground arith;
  },
  rw append-nil (ground arith),
)

-- A serialised key stream is the given beginning and then the entries in order.
pub append_all_inv :
    (payload : Bytes) (collected : List CollectedEntry) {out : Bytes}
    → append_all payload collected ≡ ok out
    → All IsSized collected × (out ≡ payload ++ key_stream collected)
unfolding append_all
append_all_inv payload [] h = (tt, rw append-nil (sym (cc h)))
append_all_inv payload (item ∷ collected) {out} h =
    elim (Result-cases
      (append_key_material payload item.entry.fingerprint item.public_key item.private_key)) [
        | inl (e, bad) ↦ absurd (ground arith)
        | inr (longer, good) ↦
            let (sized, e) = append_key_material_inv payload item good in
            let tail : append_all longer collected ≡ ok out = ground arith in
            let (rest_sized, f) = append_all_inv longer collected tail in
            ((sized, rest_sized), f ∙ rw e (simp (append_assoc, append-nil)))
      ]
