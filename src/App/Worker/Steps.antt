-- ===== src/App/Worker/Steps.antt =====
-- crates/document-app/src/worker.rs: the steps of `UploadFinisher`: assembling the object, appending
-- the event, recording the answer.
use delphi.App.Worker.Parts.{
  FinishOutcome, accepted, rejected, retry, Assembled, ready, terminal, UploadFinisher,
  was_superseded, superseded_flag, fold_history, applied_event, created_event, validated_event,
  sort_parts, completed_part,
}
use delphi.Base.{
  ℕ, Bool, true, false, Option, none, some, List, map, Text, codes, Result, ok, err, Action, pure,
  ◌>>=◌, ◌>>◌, ◌==◌, is_empty, if◌then◌else◌,
}
use delphi.Platform.{Platform}
use delphi.Domain.Fold.{DocumentState, FoldError, Log}
use delphi.App.Errors.{
  BlobErrorKind, BlobError, no_such_upload, transient, AppendError, already_created, blob_error_str,
  event_store_error_str, append_error_str, EventStoreError,
}
use delphi.App.Uploads.{
  UploadMode, create, replace, UploadStatus, ConflictPolicy, supersede, fail, UploadCompleted,
  multipart_lost, invalid_parts, version_conflict, corrupt_history,
}
use delphi.App.Ports.{BlobHead, UploadedPart, Appended}
use delphi.App.Transition.{finish_with}
use delphi.App.Append.{append_create, append_update}

module _ {x : Platform} {W : Type 0} (f : UploadFinisher x W) (c : UploadCompleted x) where
  open f use {blobs, scanner, validator, events, uploads, clock}

  -- Failures of both calls are logged and dropped.
  unfoldable pub reclaim : Action W (Unit {0})
  reclaim =
      blobs.abort_multipart c.storage_key c.multipart_upload_id
      >> blobs.delete c.storage_key
      >> pure tt

  unfoldable pub record_status : UploadStatus → Action W (Unit {0})
  record_status status = do
    now ← clock
    finish_with uploads c.tenant_id c.owner_user_id c.upload_id status now
    pure tt

  unfoldable pub accept : ℕ → Bool → Action W FinishOutcome
  unfolding record_status
  accept version superseded =
      record_status (UploadStatus.accepted version superseded)
      >> pure (accepted c.document_id version superseded)

  unfoldable pub reject : Text → Action W FinishOutcome
  unfolding reclaim record_status
  reject reason = reclaim >> record_status (UploadStatus.rejected reason) >> pure (rejected reason)

  -- ------------------------------------------------------------ assemble

  unfoldable pub reject_assembly : Text → Action W (Assembled x)
  unfolding reject
  reject_assembly reason = do outcome ← reject reason; pure (terminal outcome)

  -- One `HEAD` decides whether a multipart that is gone was completed earlier.
  unfoldable pub head_decides : Result BlobError (Option (BlobHead x)) → Action W (Assembled x)
  unfolding reject_assembly
  head_decides (ok (some head)) = pure (ready (some head))
  head_decides (ok none) = reject_assembly multipart_lost
  head_decides (err error) = pure (terminal (retry (blob_error_str error)))

  unfoldable pub complete_failed : BlobErrorKind → BlobError → Action W (Assembled x)
  unfolding head_decides
  complete_failed no_such_upload error = blobs.head c.storage_key >>= head_decides
  complete_failed transient error = pure (terminal (retry (blob_error_str error)))
  complete_failed _ error = reject_assembly invalid_parts

  unfoldable pub after_complete : Result BlobError (Unit {0}) → Action W (Assembled x)
  unfolding complete_failed
  after_complete (ok done) = pure (ready none)
  after_complete (err error) = complete_failed error.kind error

  unfoldable pub after_list : Result BlobError (Option (List UploadedPart)) → Action W (Assembled x)
  unfolding after_complete head_decides reject_assembly sort_parts
  after_list (err error) = pure (terminal (retry (blob_error_str error)))
  after_list (ok none) = blobs.head c.storage_key >>= head_decides
  after_list (ok (some parts)) =
      if is_empty parts
      then reject_assembly invalid_parts
      else (blobs.complete_multipart c.storage_key c.multipart_upload_id
            (sort_parts (map completed_part parts))
          >>= after_complete)

  unfoldable pub assemble : Action W (Assembled x)
  unfolding after_list
  assemble = blobs.list_parts c.storage_key c.multipart_upload_id >>= after_list

  -- ------------------------------------------------------------ append

  -- After `AlreadyCreated`: the version that the document has.
  unfoldable pub after_created_last :
      Result EventStoreError (Option (ℕ × ℕ)) → Action W FinishOutcome
  unfolding accept
  after_created_last (ok (some (version, seq))) = accept version false
  after_created_last (ok none) =
      pure (retry (codes "create conflicted but the document has no events"))
  after_created_last (err error) = pure (retry (event_store_error_str error))

  unfoldable pub after_append_created : Result AppendError Appended → Action W FinishOutcome
  unfolding accept after_created_last
  after_append_created (ok appended) = accept appended.version false
  after_append_created (err already_created) =
      events.last c.tenant_id c.document_id >>= after_created_last
  after_append_created (err error) = pure (retry (append_error_str error))

  unfoldable pub append_created : Text → Action W FinishOutcome
  unfolding after_append_created
  append_created sha256_hex = do
    now ← clock
    answer ← append_create events (created_event c sha256_hex now)
    after_append_created answer

  unfoldable pub after_append_replaced : Result AppendError Appended → Action W FinishOutcome
  unfolding accept
  after_append_replaced (ok appended) =
      accept appended.version (was_superseded c.if_match appended.version)
  after_append_replaced (err error) = pure (retry (append_error_str error))

  unfoldable pub append_validated : Text → Action W FinishOutcome
  unfolding after_append_replaced
  append_validated sha256_hex = do
    now ← clock
    answer ← append_update events c.tenant_id c.document_id none (validated_event c sha256_hex now)
    after_append_replaced answer

  abbrev pub fails_on_conflict : ConflictPolicy → Bool
  fails_on_conflict supersede = false
  fails_on_conflict fail = true

  -- `expected != current_version && on_conflict == Fail`, where `if_match` is there
  abbrev pub is_conflict : Option ℕ → ℕ → Bool
  is_conflict none current = false
  is_conflict (some expected) current =
      if expected == current then false else fails_on_conflict c.on_conflict

  unfoldable pub after_fold :
      Text → Result FoldError (Option (DocumentState x)) → Action W FinishOutcome
  unfolding reject append_validated
  after_fold sha256_hex (ok (some state)) =
      if is_conflict c.if_match state.version
      then reject version_conflict
      else append_validated sha256_hex
  after_fold sha256_hex (ok none) = reject multipart_lost
  after_fold sha256_hex (err error) = reject corrupt_history

  unfoldable pub after_history : Text → Result EventStoreError (Log x) → Action W FinishOutcome
  unfolding accept after_fold
  after_history sha256_hex (err error) = pure (retry (event_store_error_str error))
  after_history sha256_hex (ok history) = elim (applied_event c.upload_id history) [
    | some (seq, applied) ↦ accept applied.version (superseded_flag applied)
    | none ↦ after_fold sha256_hex (fold_history history)
  ]

  unfoldable pub append_replaced : Text → Action W FinishOutcome
  unfolding after_history
  append_replaced sha256_hex =
      events.read_stream c.tenant_id c.document_id >>= after_history sha256_hex

  unfoldable pub append_event : UploadMode → Text → Action W FinishOutcome
  unfolding append_created append_replaced
  append_event create sha256_hex = append_created sha256_hex
  append_event replace sha256_hex = append_replaced sha256_hex
