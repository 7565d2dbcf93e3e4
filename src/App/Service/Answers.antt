-- ===== src/App/Service/Answers.antt =====
-- crates/document-app/src/service.rs: the records, work items and answers that the use cases of
-- `DocumentService` build, and their tests on what the ports answered.
use delphi.App.Service.Requests.{
  PreflightRequest, PreflightResponse, UploadedPartsResponse, CompleteRequest, DocumentPage,
  max_list_limit, resolved_content_type, is_resumable,
}
use delphi.Base.{
  ℕ, ◌%◌, ◌^◌, min, max, Option, none, some, List, Text, codes, Result, ok, err, Action, go_on,
  ◌==◌, length, last?, keep, if◌then◌else◌,
}
use delphi.Platform.{Platform}
use delphi.Domain.Events.{document_contract_version}
use delphi.Domain.Fold.{DocumentState, DocState, active, deleted}
use delphi.App.Errors.{DocumentError, invalid, not_found, internal_error, blob_error_str, BlobError}
use delphi.App.Uploads.{UploadMode, create, UploadState, uploading, UploadCompleted}
use delphi.App.Keys.{object_key, upload_completed_command_id}
use delphi.App.Ports.{DocumentCursor, UploadedPart}

-- `DocumentError::internal(context, error)` for an error of the blob store.
abbrev pub blob_failed : Text → BlobError → DocumentError
blob_failed context error = internal_error context (blob_error_str error)

-- The check of the state in `resolve_replace_target`.
abbrev pub not_deleted : DocState → Result DocumentError (Unit {0})
not_deleted active = ok tt
not_deleted deleted = err DocumentError.deleted

-- `?` on a result that is there already
abbrev pub proceed :
    {W E A B : Type 0} → Result E A → (A → Action W (Result E B)) → Action W (Result E B)
proceed r k = go_on (λ e. e) k r

abbrev pub exists_in : Option (ℕ × ℕ) → Result DocumentError (Unit {0})
exists_in none = err not_found
exists_in (some at) = ok tt

-- `limit.clamp(1, MAX_LIST_LIMIT)`
abbrev pub clamp_limit : ℕ → ℕ
clamp_limit limit = min (max limit 1) max_list_limit

abbrev pub mode_conflict : Option ℕ → UploadMode → Result DocumentError (Unit {0})
mode_conflict (some expected) create =
    err (invalid (codes "if_match is not valid for a new document"))
mode_conflict _ mode = ok tt

module _ {x : Platform} where
  -- A document that the projection does not have yet is too new to be deleted.
  abbrev pub check_target : Option (DocumentState x) → Result DocumentError (Unit {0})
  check_target none = ok tt
  check_target (some document) = not_deleted document.state

  -- `.map(|document| DocumentCursor { … })`
  abbrev pub cursor_of : Option (DocumentState x) → Option (DocumentCursor x)
  cursor_of none = none
  cursor_of (some document) =
      some (record { updated_at = document.updated_at; document_id = document.document_id })

  -- The page: its cursor from the length of the page and the clamped limit.
  unfoldable pub page_of : ℕ → List (DocumentState x) → DocumentPage x
  page_of limit items = record {
    items = items;
    next = if length items % 2 ^ 32 == limit then cursor_of (last? items) else none;
  }

  abbrev pub parts_of : UploadState x → List UploadedPart → UploadedPartsResponse
  parts_of context uploaded = record {
    part_size_bytes = context.part_size_bytes;
    part_count = context.part_count;
    parts = keep (is_resumable context) uploaded;
  }

  abbrev pub response_of : UploadState x → PreflightResponse
  response_of state = record {
    upload_id = state.upload_id;
    document_id = state.document_id;
    key = state.storage_key;
    part_size_bytes = state.part_size_bytes;
    part_count = state.part_count;
  }

  abbrev pub new_state :
      Text
      → Text
      → PreflightRequest
      → Text × ℕ × ℕ
      → Text × UploadMode
      → Text
      → Text
      → x.Time
      → UploadState x
  new_state tenant user request (filename, part_size, total) (document, mode) upload multipart now =
      record {
        tenant_id = tenant;
        owner_user_id = user;
        upload_id = upload;
        document_id = document;
        mode = mode;
        storage_key = object_key tenant upload;
        multipart_upload_id = multipart;
        filename = filename;
        content_type = resolved_content_type request.content_type;
        declared_size = request.size;
        part_size_bytes = part_size;
        part_count = total;
        status = uploading;
        created_at = now;
        updated_at = now;
      }

  abbrev pub completed_command :
      Text → Text → Text → UploadState x → CompleteRequest x → x.Time → UploadCompleted x
  completed_command tenant user upload context request now = record {
    v = document_contract_version;
    command_id = upload_completed_command_id tenant upload;
    tenant_id = tenant;
    owner_user_id = user;
    upload_id = upload;
    document_id = context.document_id;
    mode = context.mode;
    storage_key = context.storage_key;
    multipart_upload_id = context.multipart_upload_id;
    filename = context.filename;
    content_type = context.content_type;
    declared_size = context.declared_size;
    if_match = request.if_match;
    on_conflict = request.on_conflict;
    patch = request.patch;
    ts = now;
  }
