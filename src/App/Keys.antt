-- ===== src/App/Keys.antt =====
-- crates/document-app/src/keys.rs and digest.rs: object keys, event ids and checksums.
use delphi.Base.{ℕ, zero, suc, List, [], ◌∷◌, ◌++◌, Text, codes}
use delphi.Platform.{Platform}

unfoldable pub object_key : Text → Text → Text
object_key tenant upload =
    codes "tenants/" ++ (tenant ++ (codes "/blobs/" ++ (upload ++ codes "/original")))

-- `&digest[..16]`; a digest of SHA-256 has 32 bytes.
abbrev pub first {ℓ} : {A : Type ℓ} → ℕ → List A → List A
first zero xs = []
first (suc n) [] = []
first (suc n) (a ∷ xs) = a ∷ first n xs

-- The bytes that the hasher is fed: tenant, upload and kind, with `|` between them.
abbrev pub event_preimage : Text → Text → Text → Text
event_preimage tenant upload kind = tenant ++ (b'|' ∷ (upload ++ (b'|' ∷ kind)))

module _ (x : Platform) where
  -- The ids are ASCII, so that their code points are their bytes.
  unfoldable pub event_id : Text → Text → Text → Text
  event_id tenant upload kind =
      x.hex_encode (first 16 (x.sha256 (event_preimage tenant upload kind)))

  unfoldable pub created_event_id : Text → Text → Text
  unfolding event_id
  created_event_id tenant upload = event_id tenant upload (codes "created")

  unfoldable pub blob_validated_event_id : Text → Text → Text
  unfolding event_id
  blob_validated_event_id tenant upload = event_id tenant upload (codes "blob_validated")

unfoldable pub upload_completed_command_id : Text → Text → Text
upload_completed_command_id tenant upload = codes "upload-completed:" ++ (tenant ++ (b':' ∷ upload))

-- digest.rs
unfoldable pub checksum : Text → Text
checksum sha256_hex = codes "sha256:" ++ sha256_hex
