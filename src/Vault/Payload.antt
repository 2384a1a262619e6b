-- ===== src/Vault/Payload.antt =====
-- services/vault_service.py: the decrypted payload, which is the manifest and then, key by key, a
-- fingerprint, the public and the private key material.
pub mod Walk
pub mod Bounds
pub mod Segment
pub mod Written
pub mod RoundTrip
use gpg_meister.Base.{
  Bool, List, Option, Result, [], err, false, if◌then◌else◌, is_empty, key_error, length, ltb, none,
  not, ok, raise_if, same, slice, some, value_error, vault_format_error, within, ℕ, ◌&&◌, ◌++◌, ◌+◌,
  ◌==◌, ◌>>=◌, ◌>>◌, ◌||◌, ◌∷◌,
}
use gpg_meister.Model.Manifest.{
  VaultKeyEntry, VaultManifest, max_vault_armor_length, validate_manifest,
}
use gpg_meister.Python.{Bytes, Text}
use gpg_meister.Python.Hex.{fromhex, hex_upper}
use gpg_meister.Python.Struct.{pack_u32, unpack_u32}
use gpg_meister.Security.Environment.{
  Environment, ManifestRead, manifest_fields, msgpack_raised, no_map, wrong_manifest,
}

abbrev pub fingerprint_bytes : ℕ
fingerprint_bytes = 20

-- `_CollectedEntry`
pub record CollectedEntry : Type 0 where
  pub entry : VaultKeyEntry
  pub public_key : Bytes
  pub private_key : Option Bytes

-- `_KeySlice`
pub record KeySlice : Type 0 where
  pub public_start : ℕ
  pub public_end : ℕ
  pub private_start : ℕ
  pub private_end : ℕ

-- `private_key or b""`
abbrev pub or_empty : Option Bytes → Bytes
or_empty none = []
or_empty (some b) = b

or_value_error : Option Bytes → Result Bytes
or_value_error none = err (value_error "non-hexadecimal number found")
or_value_error (some b) = ok b

-- `_append_key_material(payload, fingerprint, public_key, private_key)`
unfoldable pub append_key_material : Bytes → Text → Bytes → Option Bytes → Result Bytes
unfolding or_value_error
append_key_material payload fingerprint public_key private_key = do
  raise_if (is_empty public_key || ltb max_vault_armor_length (length public_key))
      (vault_format_error "public key material length is invalid")
  raise_if (ltb max_vault_armor_length (length (or_empty private_key)))
      (vault_format_error "private key material length is invalid")
  raw ← or_value_error (fromhex fingerprint)
  public_len ← pack_u32 (length public_key)
  private_len ← pack_u32 (length (or_empty private_key))
  ok (payload ++ (raw ++ (public_len ++ (public_key ++ (private_len ++ or_empty private_key)))))

-- the loop over the collected entries
unfoldable pub append_all : Bytes → List CollectedEntry → Result Bytes
append_all payload [] = ok payload
append_all payload (item ∷ collected) = do
  longer ← append_key_material payload item.entry.fingerprint item.public_key item.private_key
  append_all longer collected

-- `_serialise_segmented_payload(collected, manifest)`
unfoldable pub serialise_segmented_payload :
    Environment → List CollectedEntry → VaultManifest → Result Bytes
serialise_segmented_payload env collected manifest = do
  let manifest_bytes = env.manifest_msgpack manifest
  manifest_len ← pack_u32 (length manifest_bytes)
  append_all (manifest_len ++ manifest_bytes) collected

-- `_read_u32(stream, offset)`
unfoldable pub read_u32 : Bytes → ℕ → Result (ℕ × ℕ)
read_u32 stream offset = do
  raise_if (ltb (length stream) (offset + 4)) (vault_format_error "vault payload is truncated")
  n ← unpack_u32 (slice offset (offset + 4) stream)
  ok (n, offset + 4)

-- `_read_key_slice(stream, offset, entry)`
unfoldable pub read_key_slice : Bytes → ℕ → VaultKeyEntry → Result (KeySlice × ℕ)
read_key_slice stream offset entry = do
  raise_if (ltb (length stream) (offset + fingerprint_bytes))
      (vault_format_error "vault key stream is truncated")
  let fingerprint = hex_upper (slice offset (offset + fingerprint_bytes) stream)
  (public_len, public_start) ← read_u32 stream (offset + fingerprint_bytes)
  raise_if (ltb public_len 1 || ltb max_vault_armor_length public_len)
      (vault_format_error "public key segment length is invalid")
  let public_end = public_start + public_len
  raise_if (ltb (length stream) public_end) (vault_format_error "public key segment is truncated")
  (private_len, private_start) ← read_u32 stream public_end
  raise_if (ltb max_vault_armor_length private_len)
      (vault_format_error "private key segment length is invalid")
  let private_end = private_start + private_len
  raise_if (ltb (length stream) private_end) (vault_format_error "private key segment is truncated")
  raise_if (not (same fingerprint entry.fingerprint))
      (vault_format_error "key stream fingerprint order mismatch")
  raise_if (entry.has_private_key && ltb private_len 1)
      (vault_format_error "private key entry is missing private key material")
  ok (
    record {
      public_start = public_start;
      public_end = public_end;
      private_start = private_start;
      private_end = private_end;
    },
    private_end,
  )

-- `key_slices[fingerprint] = key_slice`
unfoldable pub put_slice : Text → KeySlice → List (Text × KeySlice) → List (Text × KeySlice)
put_slice k v [] = (k, v) ∷ []
put_slice k v ((j, w) ∷ d) =
    let rest = put_slice k v d in if same j k then (j, v) ∷ d else (j, w) ∷ rest

unfoldable pub get_slice : Text → List (Text × KeySlice) → Option KeySlice
get_slice k [] = none
get_slice k ((j, w) ∷ d) = let rest = get_slice k d in if same j k then some w else rest

-- the loop over `manifest.keys`
unfoldable pub read_key_slices :
    Bytes → ℕ → List VaultKeyEntry → List (Text × KeySlice) → Result (List (Text × KeySlice) × ℕ)
read_key_slices stream offset [] slices = ok (slices, offset)
read_key_slices stream offset (entry ∷ entries) slices = do
  (key_slice, after) ← read_key_slice stream offset entry
  read_key_slices stream after entries (put_slice entry.fingerprint key_slice slices)

-- What `msgpack.unpackb` raises is not caught.
or_manifest_error : ManifestRead → Result VaultManifest
or_manifest_error (msgpack_raised e) = err e
or_manifest_error no_map = err (vault_format_error "vault payload is not a manifest object")
or_manifest_error wrong_manifest = err (vault_format_error "manifest validation failed")
or_manifest_error (manifest_fields m) = ok m

or_invalid_manifest : Result VaultManifest → Result VaultManifest
or_invalid_manifest (ok m) = ok m
or_invalid_manifest (err e) = err (vault_format_error "manifest validation failed")

-- `_deserialise_manifest(blob)`
unfoldable pub deserialise_manifest : Environment → Bytes → Result VaultManifest
unfolding or_manifest_error or_invalid_manifest
deserialise_manifest env blob = do
  fields ← or_manifest_error (env.read_manifest blob)
  or_invalid_manifest (validate_manifest fields)

-- The manifest segment of a payload that does not begin like a legacy msgpack map, and where the
-- key stream starts.
unfoldable pub read_manifest_segment : Environment → Bytes → Result (VaultManifest × ℕ)
read_manifest_segment env payload = do
  (manifest_len, offset) ← read_u32 payload 0
  let manifest_end = offset + manifest_len
  raise_if (ltb (length payload) manifest_end)
      (vault_format_error "vault manifest segment is truncated")
  manifest ← deserialise_manifest env (slice offset manifest_end payload)
  ok (manifest, manifest_end)

-- `0x80 <= payload[0] <= 0x8F`
abbrev pub is_legacy : Bytes → Bool
is_legacy [] = false
is_legacy (b ∷ payload) = within 0x80 0x8f b

-- The two forms of a payload: the manifest, the start of the key stream, and the payload, which
-- the legacy branch, the argument `rebuild_legacy`, replaces in place.
unfoldable pub read_front :
    Environment
    → (Bytes → Result (VaultManifest × ℕ × Bytes))
    → Bytes
    → Result (VaultManifest × ℕ × Bytes)
read_front env rebuild_legacy payload =
    if is_legacy payload
    then rebuild_legacy payload
    else (do (manifest, offset) ← read_manifest_segment env payload; ok (manifest, offset, payload))

-- `_deserialise_segmented_payload(payload)`: the manifest, the slices, and the payload they are in
unfoldable pub deserialise_segmented_payload :
    Environment
    → (Bytes → Result (VaultManifest × ℕ × Bytes))
    → Bytes
    → Result (VaultManifest × List (Text × KeySlice) × Bytes)
deserialise_segmented_payload env rebuild_legacy payload = do
  raise_if (is_empty payload) (vault_format_error "vault payload is empty")
  (manifest, offset, stream) ← read_front env rebuild_legacy payload
  (key_slices, end) ← read_key_slices stream offset manifest.keys []
  raise_if (not (end == length stream)) (vault_format_error "vault key stream has trailing data")
  ok (manifest, key_slices, stream)

unfoldable pub material_at : Bytes → Option KeySlice → Result Bytes
material_at plaintext none = err (key_error "fingerprint")
material_at plaintext (some s) =
    if ltb s.private_start s.private_end
    then ok (slice s.private_start s.private_end plaintext)
    else ok (slice s.public_start s.public_end plaintext)

-- `_OpenedVault.key_material(fingerprint)`
unfoldable pub key_material : Bytes → List (Text × KeySlice) → Text → Result Bytes
unfolding material_at
key_material plaintext key_slices fingerprint =
    material_at plaintext (get_slice fingerprint key_slices)
