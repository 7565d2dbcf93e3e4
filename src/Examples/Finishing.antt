-- ===== src/Examples/Finishing.antt =====
-- The worker in the small world: a first run, a redelivery, and an expired record.
use delphi.Base.{ℕ, Bool, ◌≡◌, refl, ◌⊎◌, true, false, Text, codes, ◌∷◌, [], none, some, ok, same}
use delphi.Examples.Demo.{demo}
use delphi.App.Uploads.{key, is_terminal, UploadStatus, scanning, StoredUpload}
use delphi.App.Transition.{load}
use delphi.App.Append.{append_create}
use delphi.App.MemoryUploads.{get_record}
use delphi.App.Memory.{read_stream, append}
use delphi.App.Worker.{accepted, rejected, run, finish}
use delphi.App.Worker.Rules.{Checked}
use delphi.App.Worker.Safety.{
  UnlessRejected, IfRejected, run_keeps_bytes, run_rejects_silently, run_appends-Checked,
}
use delphi.App.Worker.Redelivery.{ExpiredAnswer, finish_replays, run_expired}
use delphi.Examples.World.{
  World, finisher, command, upload_at, world_at, expired_world, HasBytes, HasEmptyLog, bytes-Frame,
  log-Frame,
}

abbrev start : World
start = world_at scanning

-- A redelivery when the object is there already.
abbrev assembled_start : World
assembled_start = record start { object = some (1 ∷ 2 ∷ 3 ∷ []) }

run_keeps_bytes_example :
    UnlessRejected HasBytes
      (run finisher command assembled_start).0
      (run finisher command assembled_start).1
run_keeps_bytes_example =
    run_keeps_bytes finisher command HasBytes bytes-Frame (λ e expect w q. q) assembled_start refl

run_rejects_silently_example :
    IfRejected HasEmptyLog (run finisher command start).0 (run finisher command start).1
run_rejects_silently_example =
    run_rejects_silently finisher command HasEmptyLog log-Frame (λ k w q. q) start refl

run_appends-Checked_example :
    HasEmptyLog (run finisher command start).1 ⊎ ((sha : Text) × Checked finisher command sha)
run_appends-Checked_example =
    run_appends-Checked finisher command HasEmptyLog log-Frame (λ k w q. q) start refl

abbrev done : World
done = world_at (UploadStatus.accepted 1 false)

abbrev stored_done : StoredUpload demo
stored_done = record { state = upload_at (UploadStatus.accepted 1 false); revision = 1 }

get_done :
    (get_record (codes "t1") (codes "u1") (codes "i1") done.records).0 ≡ ok (some stored_done)
unfolding get_record same key
get_done = refl

finish_replays_example :
    ((version : ℕ) × (superseded : Bool) × (UploadStatus.accepted 1 false
        ≡ UploadStatus.accepted version superseded)
      × (finish finisher command true done ≡ (accepted (codes "d1") version superseded, done)))
    ⊎ ((reason : Text) × (UploadStatus.accepted 1 false ≡ UploadStatus.rejected reason)
        × (finish finisher command true done ≡ (rejected reason, done)))
unfolding is_terminal
finish_replays_example =
    finish_replays finisher command true done stored_done get_done refl refl refl

get_expired : (get_record (codes "t1") (codes "u1") (codes "i1") expired_world.records).0 ≡ ok none
unfolding get_record
get_expired = refl

run_expired_example :
    ExpiredAnswer finisher command
      (read_stream (codes "t1") (codes "d1") expired_world.log).0
      expired_world
      (run finisher command expired_world)
run_expired_example = run_expired finisher command expired_world get_expired

-- The first delivery accepts the upload at version 1.
run-start : (run finisher command start).0 ≡ accepted (codes "d1") 1 false
unfolding run get_record same append is_terminal load key append_create
run-start = refl
