-- ===== src/Examples/Stores.antt =====
-- The in-memory stores: appends, lost swaps, and the one status change of an upload.
use delphi.Base.{ℕ, ◌+◌, ◌≡◌, refl, ◌<◌, true, false, none, some, codes, ok, err, same}
use delphi.Domain.Events.{DocumentEvent, document_metadata_changed}
use delphi.App.Errors.{EventStoreError, conflict_retry_exhausted}
use delphi.App.Uploads.{
  UploadState, UploadStatus, scanning, StoredUpload, key, is_terminal, with_status,
}
use delphi.App.Ports.{Appended, create_only}
use delphi.App.Append.{append_update}
use delphi.App.Memory.{EventStoreState, expected_seq, last_seq, land, append, memory_event_store}
use delphi.App.Memory.Streams.{IsValid, append_cases, append-IsValid}
use delphi.App.Memory.Retries.{IsReady, calm, append_update_retries}
use delphi.App.MemoryUploads.{UploadStateInner, get_record, update_record, memory_upload_store}
use delphi.App.MemoryUploads.Swaps.{Advances, record_at, put_record, memory-IsCas}
use delphi.App.Transition.{set_status, applied}
use delphi.App.Transition.Finality.{IsCas, Moved, set_status-Moved}
use delphi.Examples.Demo.{demo, titled, created, event}
use delphi.Examples.World.{upload_at, empty_log, records_at}

abbrev one_event : EventStoreState demo
one_event = land created empty_log

empty_log-IsValid : IsValid empty_log
empty_log-IsValid = record { ascending = λ t d. tt; entries = λ t d. tt }

append-IsValid_example : IsValid (append created create_only empty_log).1
append-IsValid_example = append-IsValid created create_only empty_log empty_log-IsValid

-- A second event, built for the version that it is given.
abbrev change : ℕ → DocumentEvent demo
change n = event n (document_metadata_changed titled)

one_event-IsReady : IsReady (codes "t1") (codes "d1") change 1 1 one_event
unfolding land same
one_event-IsReady = record {
  available = refl;
  no_storm = refl;
  at = refl;
  tenant = refl;
  document = refl;
  fresh = refl;
}

append_update_retries_example :
    (one_event.conflicts_remaining ≡ 0
      → 0 < 3
      → append_update memory_event_store (codes "t1") (codes "d1") none change one_event ≡ (
        ok (record { stream_seq = one_event.head + 1; version = 2; duplicate = false }),
        land (change 2) (calm (codes "t1") (codes "d1") change 1 1 one_event),
      ))
    × (one_event.conflicts_remaining ≡ 3 + 0
        → append_update memory_event_store (codes "t1") (codes "d1") none change one_event
          ≡ (err conflict_retry_exhausted, record one_event { conflicts_remaining = 0 }))
append_update_retries_example =
    append_update_retries (codes "t1") (codes "d1") change 1 1 0 one_event one_event-IsReady

append_cases_example :
    ((a : Appended)
      → append created create_only empty_log ≡ (ok a, one_event)
      → a.duplicate ≡ false
      → (empty_log.seen (codes "t1") (codes "d1") created.event_id ≡ none)
        × (last_seq (empty_log.streams (codes "t1") (codes "d1")) ≡ expected_seq create_only)
        × (a.stream_seq ≡ 1)
        × (a.version ≡ 1)
        × (one_event ≡ land created empty_log))
    × ((a : Appended)
        → append created create_only empty_log ≡ (ok a, one_event)
        → a.duplicate ≡ true
        → (empty_log.seen (codes "t1") (codes "d1") created.event_id ≡ some a.stream_seq)
          × (one_event ≡ empty_log))
    × ((error : EventStoreError)
        → append created create_only empty_log ≡ (err error, one_event)
        → (one_event.streams ≡ empty_log.streams)
          × (one_event.seen ≡ empty_log.seen)
          × (one_event.head ≡ empty_log.head))
append_cases_example = append_cases created create_only empty_log one_event

memory-IsCas_example :
    IsCas {x = demo} memory_upload_store record_at put_record Advances
    × ((s : UploadState demo) (r : ℕ) (w : UploadStateInner demo)
        → Advances w (update_record s r w).1)
memory-IsCas_example = memory-IsCas {x = demo}

abbrev finished : UploadState demo
finished = with_status (upload_at scanning) (UploadStatus.accepted 1 false) 2000

abbrev swapped : StoredUpload demo
swapped = record { state = finished; revision = 2 }

set_status_scanning :
    (set_status memory_upload_store
      (codes "t1")
      (codes "u1")
      (codes "i1")
      (UploadStatus.accepted 1 false)
      2000
      (records_at scanning)).0
    ≡ ok (applied finished)
unfolding set_status get_record same is_terminal with_status key update_record
set_status_scanning = refl

set_status-Moved_example :
    Moved memory_upload_store record_at put_record Advances memory-IsCas.0
      (key (codes "t1") (codes "u1") (codes "i1"))
      (UploadStatus.accepted 1 false)
      2000
      finished
      (set_status memory_upload_store
        (codes "t1")
        (codes "u1")
        (codes "i1")
        (UploadStatus.accepted 1 false)
        2000
        (records_at scanning)).1
set_status-Moved_example =
    set_status-Moved memory_upload_store record_at put_record Advances memory-IsCas.0 (codes "t1")
      (codes "u1") (codes "i1") (UploadStatus.accepted 1 false) 2000 finished (records_at scanning)
      set_status_scanning
