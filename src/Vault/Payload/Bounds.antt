-- ===== src/Vault/Payload/Bounds.antt =====
-- Every slice that is read lies inside of the payload, whatever the payload holds.
use gpg_meister.Base.{
  All, Bool-cases, List, Result, Result-cases, [], arith, inl, inr, length, ok, same, same→eq,
  slice, subst, true, ℕ, ◌+◌, ◌-◌, ◌<◌, ◌∷◌, ◌≡◌, ◌≤◌,
}
use gpg_meister.Model.Manifest.{VaultKeyEntry, VaultManifest, max_vault_armor_length}
use gpg_meister.Python.{Bytes, Text}
use gpg_meister.Python.Hex.{hex_upper}
use gpg_meister.Python.Struct.{unpack_u32}
use gpg_meister.Security.Environment.{Environment}
use gpg_meister.Vault.Payload.{
  KeySlice, deserialise_segmented_payload, put_slice, read_front, read_key_slice, read_key_slices,
  read_u32,
}

-- The public part is not empty, the private part stands four bytes behind it, both are of a length
-- that is allowed, and all of it lies in `stream`.
pub record IsInside (stream : Bytes) (s : KeySlice) : Type 0 where
  pub public_nonempty : s.public_start < s.public_end
  pub in_order : s.private_start ≡ s.public_end + 4
  pub private_forward : s.private_start ≤ s.private_end
  pub in_stream : s.private_end ≤ length stream
  pub public_limit : s.public_end - s.public_start ≤ max_vault_armor_length
  pub private_limit : s.private_end - s.private_start ≤ max_vault_armor_length

read_u32_inv :
    (stream : Bytes) (offset : ℕ) {n after : ℕ}
    → read_u32 stream offset ≡ ok (n, after)
    → (after ≡ offset + 4) × (offset + 4 ≤ length stream)
unfolding read_u32
read_u32_inv stream offset h = elim (Result-cases (unpack_u32 (slice offset (offset + 4) stream))) [
  | inl (e, bad) ↦ absurd (ground arith)
  | inr (n, good) ↦ ground arith
]

pub read_key_slice_inv :
    (stream : Bytes) (offset : ℕ) (entry : VaultKeyEntry) {s : KeySlice} {after : ℕ}
    → read_key_slice stream offset entry ≡ ok (s, after)
    → IsInside stream s
      × (s.public_start ≡ offset + 24)
      × (after ≡ s.private_end)
      × (hex_upper (slice offset (offset + 20) stream) ≡ entry.fingerprint)
      × (entry.has_private_key ≡ true → s.private_start < s.private_end)
unfolding read_key_slice
read_key_slice_inv stream offset entry {s} {after} h =
    elim (Result-cases (read_u32 stream (offset + 20))) [
      | inl (e, bad) ↦ absurd (ground arith)
      | inr ((n, p), good) ↦
          let (ep, lp) = read_u32_inv stream (offset + 20) good in
          elim (Result-cases (read_u32 stream (p + n))) [
            | inl (e, bad) ↦ absurd (ground arith)
            | inr ((m, q), fine) ↦
                let (eq, lq) = read_u32_inv stream (p + n) fine in
                (
                  ground arith,
                  ground arith,
                  ground arith,
                  same→eq _ _ (ground arith),
                  λ p. ground arith,
                )
          ]
    ]

abbrev pub Inside : Bytes → List (Text × KeySlice) → Type 0
Inside stream = All (λ kv. IsInside stream kv.1)

put_slice-Inside :
    (stream : Bytes) (k : Text) (v : KeySlice) (d : List (Text × KeySlice))
    → IsInside stream v
    → Inside stream d
    → Inside stream (put_slice k v d)
unfolding put_slice
put_slice-Inside stream k v [] h hd = (h, tt)
put_slice-Inside stream k v ((j, w) ∷ d) h hd = elim (Bool-cases (same j k)) [
  | inl e ↦ rw e (h, hd.1)
  | inr e ↦ rw e (hd.0, put_slice-Inside stream k v d h hd.1)
]

read_key_slices-Inside :
    (stream : Bytes) (offset : ℕ) (entries : List VaultKeyEntry) (d : List (Text × KeySlice))
    {out : List (Text × KeySlice)} {end : ℕ}
    → Inside stream d
    → read_key_slices stream offset entries d ≡ ok (out, end)
    → Inside stream out
unfolding read_key_slices
read_key_slices-Inside stream offset [] d hd h = subst (Inside stream) (cc h) hd
read_key_slices-Inside stream offset (entry ∷ entries) d {out} {end} hd h =
    elim (Result-cases (read_key_slice stream offset entry)) [
      | inl (e, bad) ↦ absurd (ground arith)
      | inr ((s, after), good) ↦
          let tail : read_key_slices stream after entries (put_slice entry.fingerprint s d)
              ≡ ok (out, end) =
            ground arith in
          read_key_slices-Inside stream after entries (put_slice entry.fingerprint s d)
            (put_slice-Inside stream entry.fingerprint s d
              (read_key_slice_inv stream offset entry good).0 hd)
            tail
    ]

-- Whatever the decrypted payload holds, and whichever of the two forms it has: if it is accepted,
-- every key slice lies inside of the payload, its public part is not empty, its parts do not
-- overlap, and neither is longer than 8 MiB.
pub deserialise-Inside :
    (env : Environment) (rebuild_legacy : Bytes → Result (VaultManifest × ℕ × Bytes))
    (payload : Bytes) {manifest : VaultManifest} {slices : List (Text × KeySlice)} {stream : Bytes}
    → deserialise_segmented_payload env rebuild_legacy payload ≡ ok (manifest, slices, stream)
    → Inside stream slices
unfolding deserialise_segmented_payload
deserialise-Inside env rebuild_legacy payload {manifest} {slices} {stream} h =
    elim (Result-cases (read_front env rebuild_legacy payload)) [
      | inl (e, bad) ↦ absurd (ground arith)
      | inr ((m, offset, st), front) ↦ elim (Result-cases (read_key_slices st offset m.keys [])) [
        | inl (e, bad) ↦ absurd (ground arith)
        | inr ((d, end), good) ↦
            let same_stream : stream ≡ st = ground arith in
            let same_slices : slices ≡ d = ground arith in
            rw (same_stream, same_slices) (read_key_slices-Inside st offset m.keys [] tt good)
      ]
    ]
