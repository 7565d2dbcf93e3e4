-- ===== src/App/Uploads.antt =====
-- crates/document-app/src/upload_state.rs and command.rs: the record of an upload and the work item
-- that `/complete` publishes.
use delphi.Base.{ℕ, Bool, true, false, Option, ◌++◌, ◌∷◌, Text, codes}
use delphi.Platform.{Platform}
use delphi.Domain.Events.{MetadataPatch}

pub data UploadMode : Type 0 where
  create replace : UploadMode

pub data UploadStatus : Type 0 where
  uploading scanning : UploadStatus
  -- `version` and `superseded`
  accepted : ℕ → Bool → UploadStatus
  rejected : Text → UploadStatus

-- `UploadStatus::as_str`
unfoldable pub upload_status_str : UploadStatus → Text
upload_status_str uploading = codes "uploading"
upload_status_str scanning = codes "scanning"
upload_status_str (accepted version superseded) = codes "accepted"
upload_status_str (rejected reason) = codes "rejected"

unfoldable pub is_terminal : UploadStatus → Bool
is_terminal uploading = false
is_terminal scanning = false
is_terminal (accepted version superseded) = true
is_terminal (rejected reason) = true

pub record UploadState (x : Platform) : Type 0 where
  pub tenant_id : Text
  pub owner_user_id : Text
  pub upload_id : Text
  pub document_id : Text
  pub mode : UploadMode
  pub storage_key : Text
  pub multipart_upload_id : Text
  pub filename : Text
  pub content_type : Text
  pub declared_size : ℕ
  pub part_size_bytes : ℕ
  pub part_count : ℕ
  pub status : UploadStatus
  pub created_at : x.Time
  pub updated_at : x.Time

-- `UploadState::key`: `<tenant_id>/<user_id>/<upload_id>`
unfoldable pub key : Text → Text → Text → Text
key tenant user upload = tenant ++ (b'/' ∷ (user ++ (b'/' ∷ upload)))

-- `UploadState::own_key`
abbrev pub own_key : {x : Platform} → UploadState x → Text
own_key s = key s.tenant_id s.owner_user_id s.upload_id

unfoldable pub with_status : {x : Platform} → UploadState x → UploadStatus → x.Time → UploadState x
with_status s status now = record s { status = status; updated_at = now }

pub record StoredUpload (x : Platform) : Type 0 where
  pub state : UploadState x
  pub revision : ℕ

-- `reject_reason`
abbrev pub multipart_lost : Text
multipart_lost = codes "multipart_lost"

abbrev pub invalid_parts : Text
invalid_parts = codes "invalid_parts"

abbrev pub size_mismatch : Text
size_mismatch = codes "size_mismatch"

abbrev pub malware_detected : Text
malware_detected = codes "malware_detected"

abbrev pub version_conflict : Text
version_conflict = codes "version_conflict"

abbrev pub content_rejected : Text
content_rejected = codes "content_rejected"

abbrev pub corrupt_history : Text
corrupt_history = codes "corrupt_history"

abbrev pub pipeline_failed : Text
pipeline_failed = codes "pipeline_failed"

abbrev pub upload_expired : Text
upload_expired = codes "upload_expired"

pub data ConflictPolicy : Type 0 where
  supersede fail : ConflictPolicy

pub record UploadCompleted (x : Platform) : Type 0 where
  pub v : ℕ
  pub command_id : Text
  pub tenant_id : Text
  pub owner_user_id : Text
  pub upload_id : Text
  pub document_id : Text
  pub mode : UploadMode
  pub storage_key : Text
  pub multipart_upload_id : Text
  pub filename : Text
  pub content_type : Text
  pub declared_size : ℕ
  pub if_match : Option ℕ
  pub on_conflict : ConflictPolicy
  pub patch : MetadataPatch x
  pub ts : x.Time
