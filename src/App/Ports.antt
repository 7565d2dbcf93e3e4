-- ===== src/App/Ports.antt =====
-- crates/document-app/src/ports.rs: the port traits, each a record of actions on a world `W` that the
-- adapters share. Nothing is assumed of a port, so a model over them covers every answer, failure
-- and interleaving with other processes that a port can show.
use delphi.Base.{ℕ, Bool, Option, List, Text, Result, Action}
use delphi.Platform.{Platform}
use delphi.Domain.Events.{DocumentEvent}
use delphi.Domain.Fold.{DocumentState, Log}
use delphi.App.Errors.{
  BlobError, EventStoreError, ContextError, ReadError, QueueError, ScanError, ValidateError,
}
use delphi.App.Uploads.{UploadState, StoredUpload, UploadCompleted}

pub data Expect : Type 0 where
  create_only : Expect
  exactly : ℕ → Expect

pub record Appended : Type 0 where
  pub stream_seq : ℕ
  pub version : ℕ
  pub duplicate : Bool

pub record EventStore (x : Platform) (W : Type 0) : Type 0 where
  pub append : DocumentEvent x → Expect → Action W (Result EventStoreError Appended)
  -- `(version, stream_seq)` of a tenant's document
  pub last : Text → Text → Action W (Result EventStoreError (Option (ℕ × ℕ)))
  pub read_stream : Text → Text → Action W (Result EventStoreError (Log x))

pub record PresignedPart (x : Platform) : Type 0 where
  pub part_number : ℕ
  pub url : Text
  pub expires_at : x.Time

pub record UploadedPart : Type 0 where
  pub part_number : ℕ
  pub etag : Text
  pub size : ℕ

pub record CompletedPart : Type 0 where
  pub part_number : ℕ
  pub etag : Text

pub record BlobHead (x : Platform) : Type 0 where
  pub byte_size : ℕ
  pub content_type : Option Text
  pub last_modified : x.Time

-- `std::time::Duration`, in nanoseconds
abbrev pub Duration : Type 0
Duration = ℕ

pub record BlobStore (x : Platform) (W : Type 0) : Type 0 where
  pub begin_multipart : Text → Text → Action W (Result BlobError Text)
  pub presign_part : Text → Text → ℕ → Duration → Action W (Result BlobError (PresignedPart x))
  pub list_parts : Text → Text → Action W (Result BlobError (Option (List UploadedPart)))
  pub complete_multipart : Text → Text → List CompletedPart → Action W (Result BlobError (Unit {0}))
  pub abort_multipart : Text → Text → Action W (Result BlobError (Unit {0}))
  pub head : Text → Action W (Result BlobError (Option (BlobHead x)))
  pub open_read : Text → Action W (Result BlobError (x.Reader))
  pub read_prefix : Text → ℕ → Action W (Result BlobError (List ℕ))
  pub delete : Text → Action W (Result BlobError (Unit {0}))

pub data ScanVerdict : Type 0 where
  clean : ScanVerdict
  infected : Text → ScanVerdict

pub record ScanOutcome : Type 0 where
  pub verdict : ScanVerdict
  pub sha256_hex : Text
  pub byte_count : ℕ

-- `BlobScanner::scan`
abbrev pub BlobScanner : Platform → Type 0 → Type 0
BlobScanner x W = x.Reader → Action W (Result ScanError ScanOutcome)

pub record DeclaredContent : Type 0 where
  pub filename : Text
  pub content_type : Text
  pub byte_size : ℕ

pub data ContentVerdict : Type 0 where
  -- `Ok`
  fine : ContentVerdict
  rejected : Text → ContentVerdict

-- `ContentValidator::validate`
abbrev pub ContentValidator : Platform → Type 0 → Type 0
ContentValidator x W =
    BlobHead x → List ℕ → DeclaredContent → Action W (Result ValidateError ContentVerdict)

pub record UploadStateStore (x : Platform) (W : Type 0) : Type 0 where
  pub create : UploadState x → Action W (Result ContextError (Unit {0}))
  pub get : Text → Text → Text → Action W (Result ContextError (Option (StoredUpload x)))
  pub update : UploadState x → ℕ → Action W (Result ContextError ℕ)
  pub delete : Text → Text → Text → Action W (Result ContextError (Unit {0}))

pub record DocumentCursor (x : Platform) : Type 0 where
  pub updated_at : x.Time
  pub document_id : Text

pub record DocumentReadModel (x : Platform) (W : Type 0) : Type 0 where
  pub get : Text → Text → Action W (Result ReadError (Option (DocumentState x)))
  pub list :
      Text → ℕ → Option (DocumentCursor x) → Action W (Result ReadError (List (DocumentState x)))

-- `WorkQueue::publish_upload_completed`
abbrev pub WorkQueue : Platform → Type 0 → Type 0
WorkQueue x W = UploadCompleted x → Action W (Result QueueError (Unit {0}))

-- `Clock::now`
abbrev pub Clock : Platform → Type 0 → Type 0
Clock x W = Action W (x.Time)

-- `IdGen::ulid`
abbrev pub IdGen : Type 0 → Type 0
IdGen W = Action W Text
