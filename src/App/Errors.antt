-- ===== src/App/Errors.antt =====
-- crates/document-app/src/errors.rs: the errors of the use cases and of the ports, with the texts
-- that `thiserror` derives for them.
use delphi.Base.{ℕ, ◌++◌, Text, codes, decimal}
use delphi.Domain.Geometry.{
  GeometryError, empty, invalid_part_size, zero_part_size, too_many_parts, min_part_bytes,
  max_part_bytes, max_object_bytes, max_parts,
}
use delphi.Domain.Validation.{
  ValidationError, title, tag_count, tag, description, metadata_shape, metadata_size,
  max_title_chars, max_tags, max_tag_chars, max_description_chars, max_metadata_bytes,
}

pub data DocumentError : Type 0 where
  not_found forbidden gone : DocumentError
  invalid too_large : Text → DocumentError
  conflict : ℕ → DocumentError
  deleted : DocumentError
  internal : Text → DocumentError

-- `DocumentError::internal(context, error)`
abbrev pub internal_error : Text → Text → DocumentError
internal_error context error = internal (context ++ (codes ": " ++ error))

unfoldable pub document_error_str : DocumentError → Text
document_error_str not_found = codes "not found"
document_error_str forbidden = codes "forbidden"
document_error_str gone = codes "gone"
document_error_str (invalid m) = codes "invalid request: " ++ m
document_error_str (too_large m) = codes "payload too large: " ++ m
document_error_str (conflict v) = codes "version conflict; current version is " ++ decimal v
document_error_str deleted = codes "document is deleted"
document_error_str (internal m) = codes "internal error: " ++ m

pub data BlobErrorKind : Type 0 where
  no_such_upload invalid_parts not_found transient permanent : BlobErrorKind

unfoldable pub blob_error_kind_str : BlobErrorKind → Text
blob_error_kind_str no_such_upload = codes "NoSuchUpload"
blob_error_kind_str invalid_parts = codes "InvalidParts"
blob_error_kind_str BlobErrorKind.not_found = codes "NotFound"
blob_error_kind_str transient = codes "Transient"
blob_error_kind_str permanent = codes "Permanent"

pub record BlobError : Type 0 where
  pub kind : BlobErrorKind
  pub message : Text

unfoldable pub blob_error_str : BlobError → Text
blob_error_str e = blob_error_kind_str e.kind ++ (codes ": " ++ e.message)

pub data EventStoreError : Type 0 where
  conflict : EventStoreError
  unavailable payload : Text → EventStoreError

unfoldable pub event_store_error_str : EventStoreError → Text
event_store_error_str EventStoreError.conflict = codes "expected sequence conflict"
event_store_error_str (unavailable m) = codes "event store unavailable: " ++ m
event_store_error_str (payload m) = codes "event store payload error: " ++ m

pub data ContextError : Type 0 where
  already_exists conflict expired : ContextError
  unavailable payload : Text → ContextError

unfoldable pub context_error_str : ContextError → Text
context_error_str already_exists = codes "upload state already exists"
context_error_str ContextError.conflict = codes "upload state changed underneath this write"
context_error_str expired = codes "upload state has expired"
context_error_str (ContextError.unavailable m) = codes "upload state store unavailable: " ++ m
context_error_str (ContextError.payload m) = codes "upload state payload error: " ++ m

pub data ReadError : Type 0 where
  unavailable payload : Text → ReadError

unfoldable pub read_error_str : ReadError → Text
read_error_str (ReadError.unavailable m) = codes "read model unavailable: " ++ m
read_error_str (ReadError.payload m) = codes "read model payload error: " ++ m

pub data QueueError : Type 0 where
  unavailable payload : Text → QueueError

unfoldable pub queue_error_str : QueueError → Text
queue_error_str (QueueError.unavailable m) = codes "work queue unavailable: " ++ m
queue_error_str (QueueError.payload m) = codes "work queue payload error: " ++ m

pub data ScanError : Type 0 where
  unavailable read : Text → ScanError

unfoldable pub scan_error_str : ScanError → Text
scan_error_str (ScanError.unavailable m) = codes "scanner unavailable: " ++ m
scan_error_str (read m) = codes "scan read failed: " ++ m

pub data ValidateError : Type 0 where
  unavailable : Text → ValidateError

unfoldable pub validate_error_str : ValidateError → Text
validate_error_str (ValidateError.unavailable m) = codes "content validator unavailable: " ++ m

pub data AppendError : Type 0 where
  already_created no_such_document : AppendError
  -- `client` and `current`
  version_mismatch : ℕ → ℕ → AppendError
  conflict_retry_exhausted : AppendError
  store : EventStoreError → AppendError

unfoldable pub append_error_str : AppendError → Text
append_error_str already_created = codes "document already created"
append_error_str no_such_document = codes "document does not exist"
append_error_str (version_mismatch client current) =
    codes "client version "
    ++ (decimal client ++ (codes " does not match current version " ++ decimal current))
append_error_str conflict_retry_exhausted =
    codes "gave up after repeated expected-sequence conflicts"
append_error_str (store e) = event_store_error_str e

-- The `From` instances into `DocumentError`.
unfoldable pub from_event_store : EventStoreError → DocumentError
from_event_store e = internal_error (codes "event store") (event_store_error_str e)

unfoldable pub from_read : ReadError → DocumentError
from_read e = internal_error (codes "read model") (read_error_str e)

unfoldable pub from_queue : QueueError → DocumentError
from_queue e = internal_error (codes "work queue") (queue_error_str e)

-- An expired record is `410`; every other failure of the store is internal.
unfoldable pub from_context : ContextError → DocumentError
from_context expired = gone
from_context e = internal_error (codes "upload state") (context_error_str e)

unfoldable pub from_append : AppendError → DocumentError
from_append (version_mismatch client current) = DocumentError.conflict current
from_append no_such_document = DocumentError.not_found
from_append e = internal_error (codes "append") (append_error_str e)

-- The texts of `GeometryError` and `ValidationError`, and their `From` instances.
unfoldable pub geometry_error_str : GeometryError → Text
geometry_error_str empty = codes "file size must be greater than zero"
geometry_error_str (invalid_part_size p) =
    codes "configured part size "
    ++ (decimal p
        ++ (codes " must be between "
            ++ (decimal min_part_bytes
                ++ (codes " and " ++ (decimal max_part_bytes ++ codes " bytes")))))
geometry_error_str (GeometryError.too_large size) =
    codes "file size "
    ++ (decimal size
        ++ (codes " exceeds the " ++ (decimal max_object_bytes ++ codes " byte object limit")))
geometry_error_str zero_part_size = codes "part size must be greater than zero"
geometry_error_str (too_many_parts size part_size parts) =
    codes "file size "
    ++ (decimal size
        ++ (codes " at part size "
            ++ (decimal part_size
                ++ (codes " needs "
                    ++ (decimal parts
                        ++ (codes " parts, over the " ++ (decimal max_parts ++ codes " limit")))))))

unfoldable pub from_geometry : GeometryError → DocumentError
from_geometry e = invalid (geometry_error_str e)

unfoldable pub validation_error_str : ValidationError → Text
validation_error_str title =
    codes "title must be between 1 and " ++ (decimal max_title_chars ++ codes " characters")
validation_error_str tag_count = codes "at most " ++ (decimal max_tags ++ codes " tags are allowed")
validation_error_str tag =
    codes "each tag must be between 1 and "
    ++ (decimal max_tag_chars ++ codes " characters with no control characters")
validation_error_str description =
    codes "description must be at most " ++ (decimal max_description_chars ++ codes " characters")
validation_error_str metadata_shape = codes "metadata must be a JSON object"
validation_error_str metadata_size =
    codes "metadata must serialize to at most " ++ (decimal max_metadata_bytes ++ codes " bytes")

unfoldable pub from_validation : ValidationError → DocumentError
from_validation e = invalid (validation_error_str e)
