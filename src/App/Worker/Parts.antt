-- ===== src/App/Worker/Parts.antt =====
-- crates/document-app/src/worker.rs: the outcomes of the worker, the events that it writes, and the
-- parts of it that call no port.
use delphi.Base.{
  ℕ, ◌-◌, Bool, false, not, Option, none, some, List, [], ◌∷◌, ◌++◌, Text, codes, Result, same, leb,
  ◌==◌, find, if◌then◌else◌,
}
use delphi.Platform.{Platform}
use delphi.Domain.Events.{
  user, DocumentEvent, DocumentEventPayload, document_created, document_blob_validated, blob_ref,
  document_contract_version,
}
use delphi.Domain.Fold.{DocumentState, FoldError, Log, fold_from}
use delphi.App.Uploads.{UploadStatus, uploading, scanning, upload_status_str, UploadCompleted}
use delphi.App.Keys.{created_event_id, blob_validated_event_id, checksum}
use delphi.App.Ports.{
  EventStore, BlobStore, BlobScanner, ContentValidator, UploadStateStore, Clock, BlobHead,
  UploadedPart, CompletedPart, DeclaredContent,
}

abbrev pub prefix_bytes : ℕ
prefix_bytes = 512

pub data FinishOutcome : Type 0 where
  -- `document_id`, `version` and `superseded`
  accepted : Text → ℕ → Bool → FinishOutcome
  rejected : Text → FinishOutcome
  retry : Text → FinishOutcome

pub data Assembled (x : Platform) : Type 0 where
  ready : Option (BlobHead x) → Assembled x
  terminal : FinishOutcome → Assembled x

pub record UploadFinisher (x : Platform) (W : Type 0) : Type 0 where
  pub blobs : BlobStore x W
  pub scanner : BlobScanner x W
  pub validator : ContentValidator x W
  pub events : EventStore x W
  pub uploads : UploadStateStore x W
  pub clock : Clock x W

-- `a != b.saturating_sub(1)`, where `a` is there
abbrev pub was_superseded : Option ℕ → ℕ → Bool
was_superseded none version = false
was_superseded (some based) version = not (based == version - 1)

-- `event.payload.blob_ref() == Some(upload_id)`
abbrev pub names_blob : Text → Option Text → Bool
names_blob upload none = false
names_blob upload (some blob) = same blob upload

module _ {x : Platform} where
  unfoldable pub replay : UploadCompleted x → UploadStatus → FinishOutcome
  unfolding upload_status_str
  replay c (UploadStatus.accepted version superseded) = accepted c.document_id version superseded
  replay c (UploadStatus.rejected reason) = rejected reason
  replay c uploading =
      retry (codes "replay called with the non-terminal status " ++ upload_status_str uploading)
  replay c scanning =
      retry (codes "replay called with the non-terminal status " ++ upload_status_str scanning)

  -- `fold_history`
  abbrev pub fold_history : Log x → Result FoldError (Option (DocumentState x))
  fold_history history = fold_from none history

  superseded_of : DocumentEventPayload x → ℕ → Bool
  superseded_of (document_blob_validated b) version = was_superseded b.based_on_version version
  superseded_of _ version = false

  unfoldable pub superseded_flag : DocumentEvent x → Bool
  unfolding superseded_of
  superseded_flag e = superseded_of e.payload e.version

  unfoldable pub applied_event : Text → Log x → Option (ℕ × DocumentEvent x)
  unfolding blob_ref
  applied_event upload history =
      find (λ entry. names_blob upload (blob_ref entry.1.payload)) history

  -- `.map(|(_, event)| event.version)`
  abbrev pub version_of : Option (ℕ × DocumentEvent x) → Option ℕ
  version_of none = none
  version_of (some (seq, event)) = some event.version

  abbrev pub created_event : UploadCompleted x → Text → x.Time → DocumentEvent x
  created_event c sha256_hex now = record {
    v = document_contract_version;
    event_id = created_event_id x c.tenant_id c.upload_id;
    tenant_id = c.tenant_id;
    document_id = c.document_id;
    actor = user c.owner_user_id;
    version = 1;
    ts = now;
    payload = document_created (record {
      blob_ref = c.upload_id;
      filename = c.filename;
      content_type = c.content_type;
      byte_size = c.declared_size;
      checksum = checksum sha256_hex;
      patch = c.patch;
    });
  }

  abbrev pub validated_event : UploadCompleted x → Text → x.Time → ℕ → DocumentEvent x
  validated_event c sha256_hex now version = record {
    v = document_contract_version;
    event_id = blob_validated_event_id x c.tenant_id c.upload_id;
    tenant_id = c.tenant_id;
    document_id = c.document_id;
    actor = user c.owner_user_id;
    version = version;
    ts = now;
    payload = document_blob_validated (record {
      blob_ref = c.upload_id;
      filename = c.filename;
      content_type = c.content_type;
      byte_size = c.declared_size;
      checksum = checksum sha256_hex;
      patch = c.patch;
      based_on_version = c.if_match;
    });
  }

-- What the validator is told of the upload.
abbrev pub declared_content : {x : Platform} → UploadCompleted x → DeclaredContent
declared_content c = record {
  filename = c.filename;
  content_type = c.content_type;
  byte_size = c.declared_size;
}

-- `completed.sort_by_key(|part| part.part_number)`, a stable sort.
abbrev pub insert_part : CompletedPart → List CompletedPart → List CompletedPart
insert_part p [] = p ∷ []
insert_part p (q ∷ ps) =
    if leb p.part_number q.part_number then p ∷ (q ∷ ps) else q ∷ insert_part p ps

unfoldable pub sort_parts : List CompletedPart → List CompletedPart
sort_parts [] = []
sort_parts (p ∷ ps) = insert_part p (sort_parts ps)

abbrev pub completed_part : UploadedPart → CompletedPart
completed_part p = record { part_number = p.part_number; etag = p.etag }
