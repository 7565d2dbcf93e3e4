-- ===== src/Examples/Serving.antt =====
-- The use cases of the API in a small world: one open upload, three parts, one of them stored.
use mathlib.Core.Path.{subst}
use delphi.Base.{
  ok_inj, zero, suc, Text, arith, take, ◌⊎◌, ℕ, ◌*◌, ◌≡◌, refl, ◌≤◌, true, Option, none, some, List,
  [], ◌∷◌, codes, ok, same, trim, length,
}
use delphi.Domain.Geometry.{part_size_bytes, part_count, div_ceil}
use delphi.Domain.Geometry.Bounds.{IsGeometry}
use delphi.Domain.Validation.{validate_metadata_patch}
use delphi.Domain.Fold.{DocumentState}
use delphi.App.Uploads.{
  UploadState, UploadCompleted, replace, scanning, uploading, supersede, key, is_terminal,
  with_status,
}
use delphi.App.Keys.{object_key}
use delphi.App.Ports.{DocumentCursor, UploadedPart, PresignedPart}
use delphi.App.Transition.{Transition, load, set_status}
use delphi.App.MemoryUploads.{
  UploadStateInner, memory_upload_store, get_record, create_record, update_record,
}
use delphi.App.Service.{
  DocumentService, PreflightRequest, PreflightResponse, RenewRequest, CompleteRequest, DocumentPage,
  preflight, renew, uploaded_parts, complete, list_documents, load_context, stored_parts, range_to,
  expected_part_size,
}
use delphi.App.Service.Sizes.{total_size, total_size-declared, preflight-IsGeometry}
use delphi.App.Service.Renewal.{missing_in, stored_numbers, renew-numbers}
use delphi.App.Service.Pages.{IsPage, IsLimit, list_documents-next}
use delphi.App.Service.Batches.{IsBatch}
use delphi.App.Service.Resuming.{IsAnswer, uploaded_parts-IsAnswer}
use delphi.App.Service.Completing.{IsWorkItem, complete_publishes}
use delphi.Examples.Demo.{demo, titled, at_two}
use delphi.Examples.World.{upload_at}

abbrev mebibyte : ℕ
mebibyte = 1048576

-- 12 MiB in three parts of 5 MiB.
abbrev context : UploadState demo
context = record (upload_at uploading) {
  declared_size = 12 * mebibyte;
  part_size_bytes = 5 * mebibyte;
  part_count = 3;
}

abbrev start : UploadStateInner demo
start = record { entries = record { state = context; revision = 1 } ∷ []; conflict_once = none }

abbrev stored : List UploadedPart
stored = record { part_number = 1; etag = codes "e"; size = 5 * mebibyte } ∷ []

abbrev service : DocumentService demo (UploadStateInner demo)
service = record {
  events = record {
    append = λ e expect w. (ok (record { stream_seq = 1; version = 1; duplicate = true }), w);
    last = λ t d w. (ok (some (1, 1)), w);
    read_stream = λ t d w. (ok [], w);
  };
  blobs = record {
    begin_multipart = λ k t w. (ok (codes "m1"), w);
    presign_part = λ k u n ttl w. (ok (record { part_number = n; url = k; expires_at = ttl }), w);
    list_parts = λ k u w. (ok (some stored), w);
    complete_multipart = λ k u ps w. (ok tt, w);
    abort_multipart = λ k u w. (ok tt, w);
    head = λ k w. (ok none, w);
    open_read = λ k w. (ok [], w);
    read_prefix = λ k n w. (ok [], w);
    delete = λ k w. (ok tt, w);
  };
  uploads = memory_upload_store;
  documents = record {
    get = λ t d w. (ok (some at_two), w);
    list = λ t n after w. (ok (take n (at_two ∷ [])), w);
  };
  queue = λ c w. (ok tt, w);
  clock = λ w. (2000, w);
  ids = λ w. (codes "i2", w);
  policy = record {
    part_url_ttl = 300;
    max_upload_bytes = 100 * mebibyte;
    part_size_bytes = 5 * mebibyte;
  };
}

part_size_context : part_size_bytes (12 * mebibyte) (5 * mebibyte) ≡ ok (5 * mebibyte)
unfolding part_size_bytes div_ceil
part_size_context = refl

part_count_context : part_count (12 * mebibyte) (5 * mebibyte) ≡ ok 3
unfolding part_count div_ceil
part_count_context = refl

total_size-declared_example : total_size context (range_to 1 3) ≡ some (12 * mebibyte)
total_size-declared_example =
    total_size-declared context (5 * mebibyte) part_size_context part_count_context

abbrev request : PreflightRequest
request = record {
  document_id = some (codes "d1");
  filename = codes "film.mp4";
  size = 12 * mebibyte;
  content_type = none;
}

abbrev response : PreflightResponse
response = record {
  upload_id = codes "i2";
  document_id = codes "d1";
  key = codes "tenants/t1/blobs/i2/original";
  part_size_bytes = 5 * mebibyte;
  part_count = 3;
}

preflight-request : (preflight service (codes "t1") (codes "u1") request start).0 ≡ ok response
unfolding preflight trim part_size_bytes part_count div_ceil create_record same key object_key
preflight-request = refl

preflight-IsGeometry_example :
    (12 * mebibyte ≤ 100 * mebibyte) × IsGeometry (12 * mebibyte) (5 * mebibyte) (5 * mebibyte) 3
preflight-IsGeometry_example =
    preflight-IsGeometry service (codes "t1") (codes "u1") request start preflight-request

abbrev url : ℕ → PresignedPart demo
url n = record { part_number = n; url = codes "k1"; expires_at = 300 }

abbrev the_rest : RenewRequest
the_rest = record { from_part = none; count = none }

renew-the_rest :
    (renew service (codes "t1") (codes "u1") (codes "i1") the_rest start).0
    ≡ ok (record { parts = url 2 ∷ (url 3 ∷ []) })
unfolding renew load get_record same key
renew-the_rest = refl

renew-numbers_example :
    (c : UploadState demo) × ((load_context service (codes "t1") (codes "u1") (codes "i1") start).0
      ≡ ok c)
    × ((from : ℕ)
        → ◌≡◌ {A = Option ℕ} none (some from)
        → (1 ≤ from) × (from ≤ c.part_count) × IsBatch none from c.part_count (2 ∷ (3 ∷ [])))
    × (◌≡◌ {A = Option ℕ} none none
        → ◌≡◌ {A = Option ℕ} none none
        → 1 ≤ c.part_count
        → (uploaded : List UploadedPart) × ((stored_parts service c
              (load_context service (codes "t1") (codes "u1") (codes "i1") start).1).0
            ≡ ok uploaded)
          × (2 ∷ (3 ∷ []) ≡ missing_in (stored_numbers uploaded) (range_to 1 c.part_count)))
renew-numbers_example =
    renew-numbers service (λ k u n ttl w p h. ground arith) (codes "t1") (codes "u1") (codes "i1")
      the_rest start renew-the_rest

uploaded-context :
    (uploaded_parts service (codes "t1") (codes "u1") (codes "i1") start).0
    ≡ ok (record { part_size_bytes = 5 * mebibyte; part_count = 3; parts = stored })
unfolding uploaded_parts load get_record same key expected_part_size
uploaded-context = refl

uploaded_parts-IsAnswer_example :
    (c : UploadState demo) × ((load_context service (codes "t1") (codes "u1") (codes "i1") start).0
      ≡ ok c)
    × (uploaded : List UploadedPart) × ((stored_parts service c
          (load_context service (codes "t1") (codes "u1") (codes "i1") start).1).0
        ≡ ok uploaded)
    × IsAnswer c uploaded
        (record { part_size_bytes = 5 * mebibyte; part_count = 3; parts = stored })
uploaded_parts-IsAnswer_example =
    uploaded_parts-IsAnswer service (codes "t1") (codes "u1") (codes "i1") start uploaded-context

abbrev page : DocumentPage demo
page = record {
  items = at_two ∷ [];
  next = some (record { updated_at = 1002; document_id = codes "d1" });
}

one_at_most :
    (t : Text) (n : ℕ) (from : Option (DocumentCursor demo)) (w : UploadStateInner demo)
    (items : List (DocumentState demo))
    → (service.documents.list t n from w).0 ≡ ok items
    → length items ≤ n
one_at_most t n from w items h = subst (λ items. length items ≤ n) (ok_inj h) (short n)
  where
    short : (n : ℕ) → length (take n (at_two ∷ [])) ≤ n
    short zero = omega arith
    short (suc zero) = omega arith
    short (suc (suc n)) = omega arith

list-page : (list_documents service (codes "t1") 0 none start).0 ≡ ok page
unfolding list_documents
list-page = refl

list_documents-next_example :
    (n : ℕ) × IsLimit 0 n
    × ((service.documents.list (codes "t1") n none start).0 ≡ ok page.items)
    × IsPage n page
list_documents-next_example =
    list_documents-next service (codes "t1") 0 none start one_at_most list-page

abbrev submit : CompleteRequest demo
submit = record { if_match = none; on_conflict = supersede; patch = titled }

complete-submit : (complete service (codes "t1") (codes "u1") (codes "i1") submit start).0 ≡ ok tt
unfolding complete load get_record same key validate_metadata_patch trim set_status is_terminal
    update_record with_status
complete-submit = refl

complete_publishes_example :
    (validate_metadata_patch titled ≡ ok tt)
    × (c : UploadState demo) × ((load_context service
          (codes "t1")
          (codes "u1")
          (codes "i1")
          start).0
        ≡ ok c)
    × (◌≡◌ {A = Option ℕ} none none ⊎ (c.mode ≡ replace))
    × let (now, w) =
        service.clock (load_context service (codes "t1") (codes "u1") (codes "i1") start).1 in
      (item : UploadCompleted demo) × IsWorkItem
        (codes "t1")
        (codes "u1")
        (codes "i1")
        c
        submit
        now
        item
      × ((service.queue item w).0 ≡ ok tt)
      × let (later, w') = service.clock (service.queue item w).1 in
        (t : Transition demo) × ((set_status service.uploads
            (codes "t1")
            (codes "u1")
            (codes "i1")
            scanning
            later
            w').0
          ≡ ok t)
        × ((complete service (codes "t1") (codes "u1") (codes "i1") submit start).1
            ≡ (set_status service.uploads
                (codes "t1")
                (codes "u1")
                (codes "i1")
                scanning
                later
                w').1)
complete_publishes_example =
    complete_publishes service (codes "t1") (codes "u1") (codes "i1") submit start complete-submit
