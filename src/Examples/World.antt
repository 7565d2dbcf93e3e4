-- ===== src/Examples/World.antt =====
-- A small world for the worker: one log, one record of an upload, one object.
use delphi.Base.{ℕ, false, Option, none, some, List, [], ◌∷◌, codes, ok, Action, ◌≡◌, refl, length}
use delphi.App.Uploads.{create, UploadState, UploadStatus, supersede, UploadCompleted}
use delphi.App.Ports.{BlobHead, BlobStore, EventStore, UploadStateStore, UploadedPart, clean, fine}
use delphi.App.Memory.{EventStoreState, append, last, read_stream}
use delphi.App.MemoryUploads.{
  UploadStateInner, create_record, get_record, update_record, delete_record,
}
use delphi.App.Worker.{UploadFinisher}
use delphi.App.Worker.Frames.{Frame}
use delphi.Examples.Demo.{demo, titled}

pub record World : Type 0 where
  pub log : EventStoreState demo
  pub records : UploadStateInner demo
  -- The bytes of the object, once the multipart is completed.
  pub object : Option (List ℕ)

-- An action on the records alone.
abbrev on_records : {A : Type 0} → Action (UploadStateInner demo) A → Action World A
on_records m w = let (a, r) = m w.records in (a, record w { records = r })

abbrev bytes : List ℕ
bytes = 1 ∷ 2 ∷ 3 ∷ []

abbrev part : UploadedPart
part = record { part_number = 1; etag = codes "e1"; size = 3 }

abbrev bytes_of : Option (List ℕ) → List ℕ
bytes_of none = []
bytes_of (some b) = b

abbrev head_of : Option (List ℕ) → Option (BlobHead demo)
head_of none = none
head_of (some b) = some (record { byte_size = length b; content_type = none; last_modified = 0 })

abbrev blobs : BlobStore demo World
blobs = record {
  begin_multipart = λ k t w. (ok (codes "m1"), w);
  presign_part = λ k u n ttl w. (ok (record { part_number = n; url = k; expires_at = ttl }), w);
  list_parts = λ k u w. (ok (some (part ∷ [])), w);
  complete_multipart = λ k u ps w. (ok tt, record w { object = some bytes });
  abort_multipart = λ k u w. (ok tt, w);
  head = λ k w. (ok (head_of w.object), w);
  open_read = λ k w. (ok (bytes_of w.object), w);
  read_prefix = λ k n w. (ok (bytes_of w.object), w);
  delete = λ k w. (ok tt, record w { object = none });
}

abbrev events : EventStore demo World
events = record {
  append = λ e expect w. let (a, l) = append e expect w.log in (a, record w { log = l });
  last = λ t d w. ((last t d w.log).0, w);
  read_stream = λ t d w. ((read_stream t d w.log).0, w);
}

abbrev uploads : UploadStateStore demo World
uploads = record {
  create = λ s. on_records (create_record s);
  get = λ t u i w. ((get_record t u i w.records).0, w);
  update = λ s r. on_records (update_record s r);
  delete = λ t u i. on_records (delete_record t u i);
}

-- A scanner that finds every object clean, and a validator that passes every object.
abbrev pub finisher : UploadFinisher demo World
finisher = record {
  blobs = blobs;
  scanner =
      λ r w. (ok (record { verdict = clean; sha256_hex = codes "00"; byte_count = length r }), w);
  validator = λ h p d w. (ok fine, w);
  events = events;
  uploads = uploads;
  clock = λ w. (2000, w);
}

abbrev pub command : UploadCompleted demo
command = record {
  v = 1;
  command_id = codes "c1";
  tenant_id = codes "t1";
  owner_user_id = codes "u1";
  upload_id = codes "i1";
  document_id = codes "d1";
  mode = create;
  storage_key = codes "k1";
  multipart_upload_id = codes "m1";
  filename = codes "a.pdf";
  content_type = codes "application/pdf";
  declared_size = 3;
  if_match = none;
  on_conflict = supersede;
  patch = titled;
  ts = 1000;
}

abbrev pub upload_at : UploadStatus → UploadState demo
upload_at status = record {
  tenant_id = codes "t1";
  owner_user_id = codes "u1";
  upload_id = codes "i1";
  document_id = codes "d1";
  mode = create;
  storage_key = codes "k1";
  multipart_upload_id = codes "m1";
  filename = codes "a.pdf";
  content_type = codes "application/pdf";
  declared_size = 3;
  part_size_bytes = 5242880;
  part_count = 1;
  status = status;
  created_at = 900;
  updated_at = 900;
}

abbrev pub empty_log : EventStoreState demo
empty_log = record {
  streams = λ t d. none;
  seen = λ t d i. none;
  head = 0;
  conflicts_remaining = 0;
  always_conflict = false;
  is_unavailable = false;
}

abbrev pub records_at : UploadStatus → UploadStateInner demo
records_at status = record {
  entries = record { state = upload_at status; revision = 1 } ∷ [];
  conflict_once = none;
}

abbrev pub world_at : UploadStatus → World
world_at status = record { log = empty_log; records = records_at status; object = none }

abbrev pub expired_world : World
expired_world = record {
  log = empty_log;
  records = record { entries = []; conflict_once = none };
  object = some bytes;
}

abbrev pub HasBytes : World → Type 0
HasBytes w = w.object ≡ some bytes

abbrev pub HasEmptyLog : World → Type 0
HasEmptyLog w = w.log ≡ empty_log

pub bytes-Frame : Frame finisher HasBytes
bytes-Frame = record {
  list_parts = λ k u w q. q;
  complete_multipart = λ k u ps w q. refl;
  abort_multipart = λ k u w q. q;
  head = λ k w q. q;
  open_read = λ k w q. q;
  read_prefix = λ k n w q. q;
  scan = λ r w q. q;
  validate = λ h p d w q. q;
  last = λ t d w q. q;
  read_stream = λ t d w q. q;
  get = λ t u i w q. q;
  update = λ s r w q. q;
  now = λ w q. q;
}

pub log-Frame : Frame finisher HasEmptyLog
log-Frame = record {
  list_parts = λ k u w q. q;
  complete_multipart = λ k u ps w q. q;
  abort_multipart = λ k u w q. q;
  head = λ k w q. q;
  open_read = λ k w q. q;
  read_prefix = λ k n w q. q;
  scan = λ r w q. q;
  validate = λ h p d w q. q;
  last = λ t d w q. q;
  read_stream = λ t d w q. q;
  get = λ t u i w q. q;
  update = λ s r w q. q;
  now = λ w q. q;
}
