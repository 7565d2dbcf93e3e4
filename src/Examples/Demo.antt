-- ===== src/Examples/Demo.antt =====
-- Sample data: a platform whose time is a number and whose JSON value is its own length, and the
-- events of one document.
use delphi.Base.{ℕ, ◌+◌, true, false, none, some, List, [], ◌∷◌, codes, leb}
use delphi.Platform.{Platform}
use delphi.Domain.Events.{
  user, MetadataPatch, DocumentEvent, DocumentEventPayload, DocumentCreated, DocumentBlobValidated,
  document_created, document_blob_validated, document_metadata_changed, document_indexed,
  document_deleted,
}
use delphi.Domain.Fold.{DocumentState, Log, active, current}

abbrev pub demo : Platform
demo = record {
  Time = ℕ;
  timestamp_micros = λ t. (false, t);
  from_timestamp_micros = λ t. some t.1;
  at_or_before = λ s t. leb s t;
  plus_seconds = λ t n. t + n;
  Json = ℕ;
  empty_object = 2;
  null = 4;
  is_object = λ j. true;
  serialized_len = λ j. some j;
  Reader = List ℕ;
  sha256 = λ bytes. bytes;
  hex_encode = λ bytes. bytes;
  hex_decode = λ text. some text;
  utf8 = λ text. text;
  from_utf8 = λ bytes. some bytes;
}

abbrev pub titled : MetadataPatch demo
titled = record { title = some (codes "Lease"); tags = none; description = none; metadata = none }

abbrev pub tagged : MetadataPatch demo
tagged = record {
  title = none;
  tags = some (codes "signed" ∷ []);
  description = none;
  metadata = some 12;
}

abbrev pub event : ℕ → DocumentEventPayload demo → DocumentEvent demo
event n payload = record {
  v = 1;
  event_id = 100 ∷ n ∷ [];
  tenant_id = codes "t1";
  document_id = codes "d1";
  actor = user (codes "u1");
  version = n;
  ts = 1000 + n;
  payload = payload;
}

abbrev pub creation : DocumentCreated demo
creation = record {
  blob_ref = codes "b1";
  filename = codes "a.pdf";
  content_type = codes "application/pdf";
  byte_size = 10;
  checksum = codes "sha256:00";
  patch = titled;
}

abbrev pub upload_two : DocumentBlobValidated demo
upload_two = record {
  blob_ref = codes "b2";
  filename = codes "b.pdf";
  content_type = codes "application/pdf";
  byte_size = 20;
  checksum = codes "sha256:01";
  patch = tagged;
  based_on_version = some 1;
}

abbrev pub created : DocumentEvent demo
created = event 1 (document_created creation)

abbrev pub replaced : DocumentEvent demo
replaced = event 2 (document_blob_validated upload_two)

abbrev pub indexed : DocumentEvent demo
indexed =
    event 2
      (document_indexed (record { for_version = 2; vector_count = 3; embedding_model = codes "m" }))

abbrev pub retitled : DocumentEvent demo
retitled = event 3 (document_metadata_changed titled)

abbrev pub removed : DocumentEvent demo
removed = event 4 (document_deleted (codes "user request"))

-- What follows the creation in the log of the document.
abbrev pub updates : Log demo
updates = (2, replaced) ∷ (3, indexed) ∷ (4, retitled) ∷ []

-- The document at version 2, with an index that is current.
abbrev pub at_two : DocumentState demo
at_two = record {
  tenant_id = codes "t1";
  document_id = codes "d1";
  owner_user_id = codes "u1";
  version = 2;
  stream_seq = 3;
  state = active;
  index_state = current;
  index_version = some 2;
  current_blob = some (codes "b2");
  filename = some (codes "b.pdf");
  content_type = some (codes "application/pdf");
  byte_size = some 20;
  checksum = some (codes "sha256:01");
  title = some (codes "Lease");
  tags = codes "signed" ∷ [];
  description = none;
  metadata = 12;
  created_at = 1001;
  updated_at = 1002;
}
