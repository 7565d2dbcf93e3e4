-- ===== src/App/Service.antt =====
-- crates/document-app/src/service.rs: `DocumentService`, the use cases behind the HTTP API.
mod Requests
mod Answers
pub mod Sizes
pub mod Batches
pub mod Renewal
pub mod Pages
pub mod Resuming
pub mod Completing
unfoldable pub use Requests.*
unfoldable pub use Answers.*
use delphi.Base.{
  ℕ, ◌%◌, ◌^◌, min, max, Bool, true, false, not, Option, none, some, List, [], ◌∷◌, map, Text,
  codes, Result, ok, err, Action, pure, ◌>>=◌, ◌>>◌, attempt, go_on, ok_or, map_err, decimal, ◌++◌,
  leb, ◌==◌, length, last?, keep, ◌&&◌, if◌then◌else◌,
}
use delphi.Platform.{Platform}
use delphi.Domain.Events.{document_contract_version}
use delphi.Domain.Fold.{DocumentState, DocState, active, deleted}
use delphi.Domain.Validation.{validate_metadata_patch}
use delphi.App.Errors.{
  DocumentError, invalid, gone, not_found, internal_error, blob_error_str, from_event_store,
  from_read, from_queue, from_context, from_validation, ContextError, BlobError,
}
use delphi.App.Uploads.{
  UploadMode, create, replace, UploadState, uploading, scanning, UploadCompleted,
}
use delphi.App.Keys.{object_key, upload_completed_command_id}
use delphi.App.Ports.{DocumentCursor, PresignedPart, UploadedPart}
use delphi.App.Transition.{load, set_status}

module _ {x : Platform} {W : Type 0} (s : DocumentService x W) where
  open s use {events, blobs, uploads, documents, queue, clock, ids, policy}

  -- ------------------------------------------------------------ preflight

  unfoldable pub resolve_replace_target : Text → Text → Action W (Result DocumentError (Unit {0}))
  resolve_replace_target tenant document =
      attempt (events.last tenant document) from_event_store λ at.
        proceed (exists_in at)
          λ _. attempt (documents.get tenant document) from_read λ found. pure (check_target found)

  -- Failures of both calls are logged and dropped.
  unfoldable pub unwind_preflight : UploadState x → Action W (Unit {0})
  unwind_preflight state =
      uploads.delete state.tenant_id state.owner_user_id state.upload_id
      >> blobs.abort_multipart state.storage_key state.multipart_upload_id
      >> pure tt

  unfoldable pub target : Text → Option Text → Action W (Result DocumentError (Text × UploadMode))
  unfolding resolve_replace_target
  target tenant none = ids >>= λ document. pure (ok (document, create))
  target tenant (some document) =
      attempt (resolve_replace_target tenant document) (λ e. e) λ _. pure (ok (document, replace))

  unfoldable pub after_record :
      UploadState x
      → Result ContextError (Unit {0})
      → Action W (Result DocumentError PreflightResponse)
  unfolding unwind_preflight
  after_record state (ok done) = pure (ok (response_of state))
  after_record state (err error) = unwind_preflight state >> pure (err (from_context error))

  -- The record of the upload, and what its write answers.
  unfoldable pub record_upload :
      Text
      → Text
      → PreflightRequest
      → Text × ℕ × ℕ
      → Text × UploadMode
      → Text
      → Text
      → Action W (Result DocumentError PreflightResponse)
  unfolding after_record
  record_upload tenant user request plan chosen upload multipart = clock >>= λ now.
      let state = new_state tenant user request plan chosen upload multipart now in
      uploads.create state >>= after_record state

  unfoldable pub open_upload :
      Text
      → Text
      → PreflightRequest
      → Text × ℕ × ℕ
      → Text × UploadMode
      → Action W (Result DocumentError PreflightResponse)
  unfolding record_upload
  open_upload tenant user request plan chosen = do
    upload ← ids
    attempt
        (blobs.begin_multipart (object_key tenant upload)
          (resolved_content_type request.content_type))
        (blob_failed (codes "begin multipart"))
        (record_upload tenant user request plan chosen upload)

  unfoldable pub preflight :
      Text → Text → PreflightRequest → Action W (Result DocumentError PreflightResponse)
  unfolding plan_upload target open_upload
  preflight tenant user request = proceed (plan_upload policy request) λ plan.
      attempt (target tenant request.document_id) (λ e. e)
        λ chosen. open_upload tenant user request plan chosen

  -- ------------------------------------------------------------ parts and renewal

  unfoldable pub load_context : Text → Text → Text → Action W (Result DocumentError (UploadState x))
  load_context tenant user upload =
      attempt (load uploads tenant user upload) (λ e. e) λ found. pure (ok_or found not_found)

  -- `list_parts`, with `Gone` for a multipart that is no more
  unfoldable pub stored_parts : UploadState x → Action W (Result DocumentError (List UploadedPart))
  stored_parts context =
      attempt (blobs.list_parts context.storage_key context.multipart_upload_id)
        (blob_failed (codes "list parts")) λ found. pure (ok_or found gone)

  unfoldable pub uploaded_parts :
      Text → Text → Text → Action W (Result DocumentError UploadedPartsResponse)
  unfolding load_context stored_parts
  uploaded_parts tenant user upload =
      attempt (load_context tenant user upload) (λ e. e)
        λ context.
          attempt (stored_parts context) (λ e. e) λ uploaded. pure (ok (parts_of context uploaded))

  -- `(first, skip)` of a renewal
  unfoldable pub window : UploadState x → Option ℕ → Action W (Result DocumentError (ℕ × List ℕ))
  unfolding stored_parts first_missing
  window context (some from) =
      if leb 1 from && leb from context.part_count
      then pure (ok (from, []))
      else pure
          (err (invalid (codes "from_part must be between 1 and " ++ decimal context.part_count)))
  window context none =
      attempt (stored_parts context) (λ e. e)
        λ uploaded.
          let already = map (λ p. p.part_number) uploaded in
          pure (ok (first_missing context.part_count already, already))

  -- The loop over the part numbers of the window.
  unfoldable pub presign_each :
      UploadState x → List ℕ → List ℕ → Action W (Result DocumentError (List (PresignedPart x)))
  presign_each context skip [] = pure (ok [])
  presign_each context skip (n ∷ ns) = elim (contains n skip) [
    | true ↦ presign_each context skip ns
    | false ↦
        attempt
          (blobs.presign_part context.storage_key context.multipart_upload_id n policy.part_url_ttl)
          (blob_failed (codes "presign part"))
          λ part. attempt (presign_each context skip ns) (λ e. e) λ parts. pure (ok (part ∷ parts))
  ]

  unfoldable pub presign_window :
      UploadState x → ℕ → ℕ → List ℕ → Action W (Result DocumentError (List (PresignedPart x)))
  unfolding presign_each range
  presign_window context first last skip = presign_each context skip (range_to first last)

  -- The batch of a renewal from its first part on.
  unfoldable pub sign_from :
      RenewRequest → UploadState x → ℕ × List ℕ → Action W (Result DocumentError (RenewResponse x))
  unfolding last_of_batch presign_window
  sign_from request context (first, skip) =
      attempt
        (presign_window context first (last_of_batch request.count first context.part_count) skip)
        (λ e. e) λ parts. pure (ok (record { parts = parts }))

  unfoldable pub renew_parts :
      RenewRequest → UploadState x → Action W (Result DocumentError (RenewResponse x))
  unfolding window sign_from
  renew_parts request context =
      attempt (window context request.from_part) (λ e. e) (sign_from request context)

  unfoldable pub renew :
      Text → Text → Text → RenewRequest → Action W (Result DocumentError (RenewResponse x))
  unfolding load_context renew_parts
  renew tenant user upload request =
      attempt (load_context tenant user upload) (λ e. e) (renew_parts request)

  -- ------------------------------------------------------------ complete

  -- The status that the client polls, after the work item is published.
  unfoldable pub mark : Text → Text → Text → Action W (Result DocumentError (Unit {0}))
  mark tenant user upload = clock >>= λ now.
      attempt (set_status uploads tenant user upload scanning now) (λ e. e) λ _. pure (ok tt)

  unfoldable pub publish :
      Text
      → Text
      → Text
      → CompleteRequest x
      → UploadState x
      → Action W (Result DocumentError (Unit {0}))
  unfolding mark
  publish tenant user upload request context = clock >>= λ now.
      attempt (queue (completed_command tenant user upload context request now)) from_queue
        (λ _. mark tenant user upload)

  unfoldable pub complete_loaded :
      Text
      → Text
      → Text
      → CompleteRequest x
      → UploadState x
      → Action W (Result DocumentError (Unit {0}))
  unfolding publish
  complete_loaded tenant user upload request context =
      proceed (mode_conflict request.if_match context.mode)
        (λ _. publish tenant user upload request context)

  unfoldable pub complete :
      Text → Text → Text → CompleteRequest x → Action W (Result DocumentError (Unit {0}))
  unfolding load_context complete_loaded
  complete tenant user upload request =
      proceed (map_err from_validation (validate_metadata_patch request.patch)) λ _.
        attempt (load_context tenant user upload) (λ e. e)
          (complete_loaded tenant user upload request)

  -- ------------------------------------------------------------ reads

  abbrev pub upload_state : Text → Text → Text → Action W (Result DocumentError (UploadState x))
  upload_state = load_context

  unfoldable pub get_document : Text → Text → Action W (Result DocumentError (DocumentState x))
  get_document tenant document =
      attempt (documents.get tenant document) from_read λ found. pure (ok_or found not_found)

  unfoldable pub list_documents :
      Text → ℕ → Option (DocumentCursor x) → Action W (Result DocumentError (DocumentPage x))
  unfolding page_of
  list_documents tenant limit after =
      attempt (documents.list tenant (clamp_limit limit) after) from_read
        λ items. pure (ok (page_of (clamp_limit limit) items))
