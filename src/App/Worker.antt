-- ===== src/App/Worker.antt =====
-- crates/document-app/src/worker.rs: `UploadFinisher`, which drives one work item to its answer. Each
-- `match` on the answer of a port is a function by clauses, chained as the code chains them; the
-- log lines of `tracing` are left out.
mod Parts
mod Steps
pub mod Frames
pub mod Rules
pub mod Walk
pub mod Safety
pub mod Redelivery
unfoldable pub use Parts.*
unfoldable pub use Steps.*
use delphi.Base.{
  ℕ, Bool, true, false, not, Option, none, some, List, Text, Result, ok, err, Action, pure, ◌>>=◌,
  ◌>>◌, map_err, ◌==◌, if◌then◌else◌,
}
use delphi.Platform.{Platform}
use delphi.Domain.Events.{DocumentEvent}
use delphi.Domain.Fold.{Log}
use delphi.App.Errors.{
  DocumentError, BlobError, blob_error_str, event_store_error_str, scan_error_str,
  validate_error_str, document_error_str, EventStoreError, ScanError, ValidateError,
}
use delphi.App.Uploads.{
  UploadState, UploadStatus, is_terminal, UploadCompleted, multipart_lost, size_mismatch,
  malware_detected, content_rejected, pipeline_failed, upload_expired,
}
use delphi.App.Ports.{BlobHead, ScanVerdict, clean, infected, ScanOutcome, ContentVerdict, fine}
use delphi.App.Transition.{load}

module _ {x : Platform} {W : Type 0} (f : UploadFinisher x W) (c : UploadCompleted x) where
  open f use {blobs, scanner, validator, events, uploads, clock}

  -- ------------------------------------------------------------ the pipeline, last step first

  pub judge_scan : ScanVerdict → ScanOutcome → Action W FinishOutcome
  unfolding reject append_event
  judge_scan (infected signature) outcome = reject f c malware_detected
  judge_scan clean outcome =
      if not (outcome.byte_count == c.declared_size)
      then reject f c size_mismatch
      else append_event f c c.mode outcome.sha256_hex

  pub after_scan : Result ScanError ScanOutcome → Action W FinishOutcome
  unfolding judge_scan
  after_scan (ok outcome) = judge_scan outcome.verdict outcome
  after_scan (err error) = pure (retry (scan_error_str error))

  pub after_open : Result BlobError (x.Reader) → Action W FinishOutcome
  unfolding after_scan
  after_open (ok reader) = scanner reader >>= after_scan
  after_open (err error) = pure (retry (blob_error_str error))

  pub after_validate : Result ValidateError ContentVerdict → Action W FinishOutcome
  unfolding after_open reject
  after_validate (ok fine) = blobs.open_read c.storage_key >>= after_open
  after_validate (ok (ContentVerdict.rejected reason)) = reject f c content_rejected
  after_validate (err error) = pure (retry (validate_error_str error))

  pub after_prefix : BlobHead x → Result BlobError (List ℕ) → Action W FinishOutcome
  unfolding after_validate
  after_prefix head (ok prefix) = validator head prefix (declared_content c) >>= after_validate
  after_prefix head (err error) = pure (retry (blob_error_str error))

  pub check_size : BlobHead x → Action W FinishOutcome
  unfolding reject after_prefix
  check_size head =
      if not (head.byte_size == c.declared_size)
      then reject f c size_mismatch
      else (blobs.read_prefix c.storage_key prefix_bytes >>= after_prefix head)

  pub after_head : Result BlobError (Option (BlobHead x)) → Action W FinishOutcome
  unfolding reject check_size
  after_head (ok (some head)) = check_size head
  after_head (ok none) = reject f c multipart_lost
  after_head (err error) = pure (retry (blob_error_str error))

  pub after_assemble : Assembled x → Action W FinishOutcome
  unfolding check_size after_head
  after_assemble (terminal outcome) = pure outcome
  after_assemble (ready (some head)) = check_size head
  after_assemble (ready none) = blobs.head c.storage_key >>= after_head

  pub pipeline : Action W FinishOutcome
  unfolding assemble after_assemble
  pipeline = assemble f c >>= after_assemble

  -- ------------------------------------------------------------ an expired record

  -- The arms on `applied_version`: the log is asked before any byte is deleted.
  pub after_applied : Result EventStoreError (Log x) → Action W FinishOutcome
  unfolding reclaim
  after_applied (err error) = pure (retry (event_store_error_str error))
  after_applied (ok history) = elim (version_of (applied_event c.upload_id history)) [
    | some version ↦ pure (accepted c.document_id version false)
    | none ↦ reclaim f c >> pure (rejected upload_expired)
  ]

  pub discard_expired : Action W FinishOutcome
  unfolding after_applied
  discard_expired = events.read_stream c.tenant_id c.document_id >>= after_applied

  -- ------------------------------------------------------------ the work item

  -- The arms on `load_state`.
  pub after_state : Result DocumentError (Option (UploadState x)) → Action W FinishOutcome
  unfolding pipeline discard_expired
  after_state (err error) = pure (retry (document_error_str error))
  after_state (ok none) = discard_expired
  after_state (ok (some state)) =
      if is_terminal state.status then pure (replay c state.status) else pipeline

  unfoldable pub run : Action W FinishOutcome
  unfolding after_state
  run = load uploads c.tenant_id c.owner_user_id c.upload_id >>= after_state

  pub after_run : Bool → FinishOutcome → Action W FinishOutcome
  unfolding reject
  after_run true (retry error) = reject f c pipeline_failed
  after_run final_delivery outcome = pure outcome

  unfoldable pub finish : Bool → Action W FinishOutcome
  unfolding run after_run
  finish final_delivery = run >>= after_run final_delivery
