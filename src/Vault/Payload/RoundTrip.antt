-- ===== src/Vault/Payload/RoundTrip.antt =====
-- A payload that was written is read back, key by key.
use gpg_meister.Base.{
  ==_self, All, Bool-cases, List, Result, [], all, ap, arith, false, ge→ltb, if◌then◌else◌, inl,
  inr, is_empty, length, length-append, lt→ltb, map, ok, refl, same, same_self, same→eq, slice,
  some, true, within, ℕ, ◌++◌, ◌+◌, ◌/◌, ◌<◌, ◌^◌, ◌∙◌, ◌∷◌, ◌≡◌,
}
use gpg_meister.Model.Manifest.{VaultManifest, validate_manifest}
use gpg_meister.Model.Manifest.Valid.{validate_manifest_idem}
use gpg_meister.Python.{Bytes, Text}
use gpg_meister.Python.Hex.{hex_upper, hex_upper-fromhex}
use gpg_meister.Python.Struct.{be32, pack_u32-eq-ok}
use gpg_meister.Python.Text.{is_upper_hex}
use gpg_meister.Security.Environment.{Environment}
use gpg_meister.Vault.Payload.{
  CollectedEntry, KeySlice, append_all, deserialise_manifest, deserialise_segmented_payload,
  get_slice, key_material, or_empty, put_slice, read_front, read_key_slices, read_manifest_segment,
  read_u32, serialise_segmented_payload,
}
use gpg_meister.Vault.Payload.Segment.{
  behind_segment, private_part, public_part, read_segment, slice_at,
}
use gpg_meister.Vault.Payload.Walk.{At, At-slice, At-start, At-step, read_u32-At}
use gpg_meister.Vault.Payload.Written.{IsSized, append_all_inv, empty, key_stream, nonempty, raw_of}

-- What `_collect_entry` ensures of an entry: its fingerprint is 40 upper-case hex digits, and an
-- entry that is marked to have a private key has private key material.
pub record IsWritable (item : CollectedEntry) : Type 0 where
  pub fpr_length : length item.entry.fingerprint ≡ 40
  pub fpr_hex : all is_upper_hex item.entry.fingerprint ≡ true
  pub agrees : item.entry.has_private_key ≡ true → 0 < length (or_empty item.private_key)

-- No two entries have one fingerprint.
abbrev pub Absent : Text → List CollectedEntry → Type 0
Absent k = All (λ item. same item.entry.fingerprint k ≡ false)

abbrev pub Distinct : List CollectedEntry → Type 0
Distinct [] = Unit
Distinct (item ∷ collected) = Absent item.entry.fingerprint collected × Distinct collected

-- The key material that an import hands to GnuPG: the private part if there is one.
abbrev pub material : CollectedEntry → Bytes
material item =
    if is_empty (or_empty item.private_key) then item.public_key else or_empty item.private_key

abbrev size_of : CollectedEntry → ℕ → ℕ
size_of item offset =
    offset + 20 + 4 + length item.public_key + 4 + length (or_empty item.private_key)

abbrev slice_of : CollectedEntry → ℕ → KeySlice
slice_of item offset = slice_at offset item.public_key (or_empty item.private_key)

slices_from : ℕ → List CollectedEntry → List (Text × KeySlice) → List (Text × KeySlice)
slices_from offset [] d = d
slices_from offset (item ∷ collected) d =
    slices_from (size_of item offset) collected
      (put_slice item.entry.fingerprint (slice_of item offset) d)

same_apart : (i j k : Text) → same i j ≡ false → same i k ≡ true → same j k ≡ false
same_apart i j k apart ik = elim (Bool-cases (same j k)) [
  | inl jk ↦ absurd (cc (apart, ap (λ t. same i t) (same→eq j k jk), ik))
  | inr e ↦ e
]

get_slice-put_slice :
    (k j : Text) (v : KeySlice) (d : List (Text × KeySlice))
    → get_slice k (put_slice j v d) ≡ (if same j k then some v else get_slice k d)
unfolding get_slice put_slice
get_slice-put_slice k j v [] = refl
get_slice-put_slice k j v ((i, w) ∷ d) = elim (Bool-cases (same i j)) [
  | inl e ↦ let eq : i ≡ j = same→eq i j e in rw (eq, same_self j) (ground arith)
  | inr e ↦ rw e (ground (arith, same_apart i j k e, get_slice-put_slice k j v d))
]

get_slice-slices_from :
    (k : Text) (offset : ℕ) (collected : List CollectedEntry) (d : List (Text × KeySlice))
    → Absent k collected
    → get_slice k (slices_from offset collected d) ≡ get_slice k d
unfolding slices_from
get_slice-slices_from k offset [] d absent = refl
get_slice-slices_from k offset (item ∷ collected) d absent =
    get_slice-slices_from k (size_of item offset) collected _ absent.1
    ∙ rw (get_slice-put_slice k item.entry.fingerprint (slice_of item offset) d, absent.0) refl

raw_of_lem :
    (item : CollectedEntry)
    → IsWritable item
    → (length (raw_of item.entry.fingerprint) ≡ 20)
      × (hex_upper (raw_of item.entry.fingerprint) ≡ item.entry.fingerprint)
raw_of_lem item w =
    let (raw, read, back, len, bytes) =
      hex_upper-fromhex 20 item.entry.fingerprint w.fpr_length w.fpr_hex in
    let e : raw_of item.entry.fingerprint ≡ raw = ap or_empty read in rw e (len, back)

key_material-found :
    (stream : Bytes) (d : List (Text × KeySlice)) (item : CollectedEntry) (offset : ℕ)
    → get_slice item.entry.fingerprint d ≡ some (slice_of item offset)
    → slice (slice_of item offset).public_start (slice_of item offset).public_end stream
      ≡ item.public_key
    → slice (slice_of item offset).private_start (slice_of item offset).private_end stream
      ≡ or_empty item.private_key
    → key_material stream d item.entry.fingerprint ≡ ok (material item)
unfolding key_material
key_material-found stream d item offset found public private =
    rw found (elim (Bool-cases (is_empty (or_empty item.private_key))) [
      | inl e ↦
          let z : length (or_empty item.private_key) ≡ 0 = empty _ e in
          rw
            (
              e,
              ge→ltb (slice_of item offset).private_start (slice_of item offset).private_end
                  (omega arith),
            )
            (ap ok public)
      | inr e ↦
          let z : 0 < length (or_empty item.private_key) = nonempty _ e in
          rw
            (
              e,
              lt→ltb (slice_of item offset).private_start (slice_of item offset).private_end
                  (omega arith),
            )
            (ap ok private)
    ])

module _ {stream : Bytes} where
  read_key_slices-At :
      (offset : ℕ) (collected : List CollectedEntry) (d : List (Text × KeySlice))
      → All IsSized collected
      → All IsWritable collected
      → At stream offset (key_stream collected)
      → read_key_slices stream offset (map (λ item. item.entry) collected) d
        ≡ ok (slices_from offset collected d, length stream)
  unfolding read_key_slices slices_from
  read_key_slices-At offset [] d sized writable here =
      let e : offset ≡ length stream = omega (arith, here.total) in rw e refl
  read_key_slices-At offset (item ∷ collected) d sized writable here =
      let (len, back) = raw_of_lem item writable.0 in
      rw
        (read_segment _ item.public_key (or_empty item.private_key) (key_stream collected) len here
          item.entry back sized.0.public_nonempty sized.0.public_limit sized.0.private_limit
          writable.0.agrees)
        (read_key_slices-At (size_of item offset) collected _ sized.1 writable.1 (
          behind_segment _ item.public_key (or_empty item.private_key) (key_stream collected) len
            here))

  key_material-At :
      (offset : ℕ) (collected : List CollectedEntry) (d : List (Text × KeySlice))
      → All IsSized collected
      → All IsWritable collected
      → Distinct collected
      → At stream offset (key_stream collected)
      → All
          (λ item.
            key_material stream (slices_from offset collected d) item.entry.fingerprint
            ≡ ok (material item))
          collected
  unfolding slices_from
  key_material-At offset [] d sized writable distinct here = tt
  key_material-At offset (item ∷ collected) d sized writable distinct here =
      let (len, back) = raw_of_lem item writable.0 in
      (
        key_material-found stream _ item offset
            (get_slice-slices_from item.entry.fingerprint (size_of item offset) collected _
                distinct.0
              ∙ (get_slice-put_slice item.entry.fingerprint item.entry.fingerprint
                    (slice_of item offset) d
                  ∙ rw (same_self item.entry.fingerprint) refl))
            (public_part _ item.public_key (or_empty item.private_key) (key_stream collected) len
              here)
            (private_part _ item.public_key (or_empty item.private_key) (key_stream collected) len
              here),
        key_material-At (size_of item offset) collected _ sized.1 writable.1 distinct.1 (
            behind_segment _ item.public_key (or_empty item.private_key) (key_stream collected) len
              here),
      )

read_manifest_segment-written :
    (env : Environment) (m : VaultManifest) (rest : Bytes)
    → validate_manifest m ≡ ok m
    → length (env.manifest_msgpack m) < 2 ^ 31
    → read_manifest_segment env
        (be32 (length (env.manifest_msgpack m)) ++ (env.manifest_msgpack m ++ rest))
      ≡ ok (m, 4 + length (env.manifest_msgpack m))
unfolding read_manifest_segment deserialise_manifest
read_manifest_segment-written env m rest valid small =
    let blob = env.manifest_msgpack m in
    let payload = be32 (length blob) ++ (blob ++ rest) in
    let start : At payload 0 payload = At-start payload in
    let read : read_u32 payload 0 ≡ ok (length blob, 4) =
      read_u32-At (length blob) (blob ++ rest) (omega arith) start in
    let behind : At payload 4 (blob ++ rest) = At-step (be32 (length blob)) (blob ++ rest) start in
    let window : slice 4 (4 + length blob) payload ≡ blob = At-slice blob rest behind in
    let total : length payload ≡ 4 + length blob + length rest =
      omega (arith, length-append blob rest, behind.total) in
    rw (read, window, env.read_manifest-manifest_msgpack m valid, valid) (ground arith)

-- What must hold of the collected entries and of their manifest, which lists them in order, was
-- built by its constructor, and serialises to less than 2 GiB.
pub record IsCollected (env : Environment) (collected : List CollectedEntry)
    (fields manifest : VaultManifest) : Type 0 where
  pub built : validate_manifest fields ≡ ok manifest
  pub listed : manifest.keys ≡ map (λ item. item.entry) collected
  pub writable : All IsWritable collected
  pub distinct : Distinct collected
  pub manifest_size : length (env.manifest_msgpack manifest) < 2 ^ 31

abbrev written_as : Environment → VaultManifest → Bytes → Bytes
written_as env m rest = be32 (length (env.manifest_msgpack m)) ++ (env.manifest_msgpack m ++ rest)

key_stream-At :
    (env : Environment) (m : VaultManifest) (rest : Bytes)
    → At (written_as env m rest) (4 + length (env.manifest_msgpack m)) rest
key_stream-At env m rest =
    let blob = env.manifest_msgpack m in
    At-step blob rest
      (At-step (be32 (length blob)) (blob ++ rest) (At-start (written_as env m rest)))

deserialise-layout :
    (env : Environment) (rebuild_legacy : Bytes → Result (VaultManifest × ℕ × Bytes))
    (collected : List CollectedEntry) (fields manifest : VaultManifest)
    → IsCollected env collected fields manifest
    → All IsSized collected
    → deserialise_segmented_payload env rebuild_legacy
        (written_as env manifest (key_stream collected))
      ≡ ok (
        manifest,
        slices_from (4 + length (env.manifest_msgpack manifest)) collected [],
        written_as env manifest (key_stream collected),
      )
unfolding deserialise_segmented_payload read_front
deserialise-layout env rebuild_legacy collected fields manifest c sized =
    let n = length (env.manifest_msgpack manifest) in
    let modern : within 0x80 0x8f (n / 2 ^ 24) ≡ false = ground (arith, c.manifest_size) in
    let segment_read =
      read_manifest_segment-written env manifest (key_stream collected)
        (validate_manifest_idem fields c.built) c.manifest_size in
    let stream = written_as env manifest (key_stream collected) in
    let walked : read_key_slices stream (4 + n) manifest.keys []
        ≡ ok (slices_from (4 + n) collected [], length stream) =
      ap (λ ks. read_key_slices stream (4 + n) ks []) c.listed
      ∙ read_key_slices-At (4 + n) collected [] sized c.writable
          (key_stream-At env manifest (key_stream collected)) in
    rw (modern, segment_read) (rw walked (rw (==_self (length stream)) refl))

-- If a payload of distinct, well-formed entries was serialised, then it is read back without an
-- error and not as a legacy payload: the manifest is the one that was written, the payload is left
-- as it is, and under each entry's fingerprint stands the entry's own private key material, or its
-- public key if it has none.
pub deserialise-serialise :
    (env : Environment) (rebuild_legacy : Bytes → Result (VaultManifest × ℕ × Bytes))
    (collected : List CollectedEntry) (fields manifest : VaultManifest) {payload : Bytes}
    → IsCollected env collected fields manifest
    → serialise_segmented_payload env collected manifest ≡ ok payload
    → (slices : List (Text × KeySlice)) × (deserialise_segmented_payload env rebuild_legacy payload
        ≡ ok (manifest, slices, payload))
      × All
          (λ item. key_material payload slices item.entry.fingerprint ≡ ok (material item))
          collected
unfolding serialise_segmented_payload
deserialise-serialise env rebuild_legacy collected fields manifest {payload} c written =
    let blob = env.manifest_msgpack manifest in
    let small : length blob < 2 ^ 32 = omega (arith, c.manifest_size) in
    let appended : append_all (be32 (length blob) ++ blob) collected ≡ ok payload =
      rw (pack_u32-eq-ok (length blob) small) at written in
    let (sized, layout) = append_all_inv (be32 (length blob) ++ blob) collected appended in
    rw layout (
      slices_from (4 + length blob) collected [],
      deserialise-layout env rebuild_legacy collected fields manifest c sized,
      key_material-At (4 + length blob) collected [] sized c.writable c.distinct
          (key_stream-At env manifest (key_stream collected)),
    )
