-- ===== src/App/Service/Requests.antt =====
-- crates/document-app/src/service.rs: the requests and answers of `DocumentService`, and the parts of
-- its use cases that call no port.
use delphi.Base.{
  ℕ, zero, suc, ◌+◌, ◌-◌, ◌*◌, min, max, Bool, false, not, ◌||◌, Option, none, some, List, [], ◌∷◌,
  ◌++◌, Text, codes, decimal, Result, ok, err, ltb, leb, ◌==◌, find, any, is_empty, trim,
  if◌then◌else◌,
}
use delphi.Platform.{Platform}
use delphi.Domain.Events.{MetadataPatch}
use delphi.Domain.Fold.{DocumentState}
use delphi.Domain.Geometry.{part_size_bytes, part_count, u64_max}
use delphi.App.Errors.{DocumentError, invalid, too_large, from_geometry}
use delphi.App.Uploads.{UploadState, ConflictPolicy}
use delphi.App.Ports.{
  EventStore, BlobStore, UploadStateStore, DocumentReadModel, DocumentCursor, WorkQueue, Clock,
  IdGen, PresignedPart, UploadedPart, Duration,
}

abbrev pub default_content_type : Text
default_content_type = codes "application/octet-stream"

abbrev pub max_list_limit : ℕ
max_list_limit = 200

pub record UploadPolicy : Type 0 where
  pub part_url_ttl : Duration
  pub max_upload_bytes : ℕ
  pub part_size_bytes : ℕ

pub record DocumentService (x : Platform) (W : Type 0) : Type 0 where
  pub events : EventStore x W
  pub blobs : BlobStore x W
  pub uploads : UploadStateStore x W
  pub documents : DocumentReadModel x W
  pub queue : WorkQueue x W
  pub clock : Clock x W
  pub ids : IdGen W
  pub policy : UploadPolicy

pub record PreflightRequest : Type 0 where
  pub document_id : Option Text
  pub filename : Text
  pub size : ℕ
  pub content_type : Option Text

pub record PreflightResponse : Type 0 where
  pub upload_id : Text
  pub document_id : Text
  pub key : Text
  pub part_size_bytes : ℕ
  pub part_count : ℕ

pub record RenewRequest : Type 0 where
  pub from_part : Option ℕ
  pub count : Option ℕ

pub record RenewResponse (x : Platform) : Type 0 where
  pub parts : List (PresignedPart x)

pub record UploadedPartsResponse : Type 0 where
  pub part_size_bytes : ℕ
  pub part_count : ℕ
  pub parts : List UploadedPart

pub record CompleteRequest (x : Platform) : Type 0 where
  pub if_match : Option ℕ
  pub on_conflict : ConflictPolicy
  pub patch : MetadataPatch x

pub record DocumentPage (x : Platform) : Type 0 where
  pub items : List (DocumentState x)
  pub next : Option (DocumentCursor x)

-- The content type of a request, trimmed, or the default.
unfoldable pub resolved_content_type : Option Text → Text
resolved_content_type none = default_content_type
resolved_content_type (some t) = if is_empty (trim t) then default_content_type else trim t

-- The checks of `preflight` before any call: the file name, the size of a part and their number.
unfoldable pub plan_upload : UploadPolicy → PreflightRequest → Result DocumentError (Text × ℕ × ℕ)
plan_upload policy request =
    if is_empty (trim request.filename)
    then err (invalid (codes "filename cannot be empty"))
    else if ltb policy.max_upload_bytes request.size
    then err (
        too_large (
          codes "file is "
          ++ (decimal request.size
              ++ (codes " bytes, over the "
                  ++ (decimal policy.max_upload_bytes ++ codes " byte upload limit")))))
    else elim (part_size_bytes request.size policy.part_size_bytes) [
      | err e ↦ err (from_geometry e)
      | ok part_size ↦ elim (part_count request.size part_size) [
        | err e ↦ err (from_geometry e)
        | ok total ↦ ok (trim request.filename, part_size, total)
      ]
    ]

-- `Some(part.size) == expected_part_size(…)`
abbrev pub is_size : Option ℕ → ℕ → Bool
is_size none size = false
is_size (some expected) size = size == expected

module _ {x : Platform} where
  -- `expected_part_size`, with `checked_mul` and `checked_sub` on `u64`
  unfoldable pub expected_part_size : UploadState x → ℕ → Option ℕ
  expected_part_size context part_number =
      if part_number == 0 || ltb context.part_count part_number
      then none
      else if ltb part_number context.part_count
      then some context.part_size_bytes
      else let consumed = (context.part_count - 1) * context.part_size_bytes in
        if ltb u64_max consumed
        then none
        else if leb consumed context.declared_size
        then some (context.declared_size - consumed)
        else none

  abbrev pub is_resumable : UploadState x → UploadedPart → Bool
  is_resumable context part = is_size (expected_part_size context part.part_number) part.size

-- The numbers `first`, `first + 1`, … of a range with `n` members.
unfoldable pub range : ℕ → ℕ → List ℕ
range first zero = []
range first (suc n) = first ∷ range (first + 1) n

-- `first..=last`
abbrev pub range_to : ℕ → ℕ → List ℕ
range_to first last = range first (last + 1 - first)

-- `.contains(&part)`
abbrev pub contains : ℕ → List ℕ → Bool
contains n = any (λ m. m == n)

abbrev pub or_number : Option ℕ → ℕ → ℕ
or_number none d = d
or_number (some n) d = n

-- The first part that storage does not have.
unfoldable pub first_missing : ℕ → List ℕ → ℕ
unfolding range
first_missing total already =
    or_number (find (λ n. not (contains n already)) (range_to 1 total)) total

-- `first.saturating_add(count.max(1) - 1).min(part_count)` on `u16`
unfoldable pub last_of_batch : Option ℕ → ℕ → ℕ → ℕ
last_of_batch none first total = total
last_of_batch (some count) first total = min (min (first + (max count 1 - 1)) 65535) total
