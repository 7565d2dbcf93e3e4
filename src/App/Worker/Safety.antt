-- ===== src/App/Worker/Safety.antt =====
-- What one run of the worker may do to the bytes of an upload and to the event log, whatever the
-- stores, the scanner and the other processes do meanwhile.
use delphi.Base.{
  ℕ, ◌⊎◌, inl, inr, Bool, false, Option, none, some, Text, Result, ok, err, Keeps, Triple, arith,
}
use delphi.Platform.{Platform}
use delphi.Domain.Events.{DocumentEvent}
use delphi.App.Errors.{AppendError, already_created, EventStoreError}
use delphi.App.Uploads.{UploadCompleted, UploadStatus}
use delphi.App.Ports.{Appended, Expect}
use delphi.App.Append.{append_create, append_update}
use delphi.App.Append.Frames.{append_create-Keeps, append_update-Keeps}
use delphi.App.Worker.{
  UploadFinisher, FinishOutcome, accepted, rejected, retry, accept, reject, reclaim,
  after_created_last, after_append_created, append_created, after_append_replaced, append_validated,
  created_event, validated_event, replay, run,
}
use delphi.App.Worker.Frames.{Frame, record_status-Keeps}
use delphi.App.Worker.Rules.{Checked}
use delphi.App.Worker.Walk.{run_walk}

module _ {W : Type 0} where
  abbrev pub UnlessRejected : (W → Type 0) → FinishOutcome → W → Type 0
  UnlessRejected Q (rejected reason) w = Unit
  UnlessRejected Q (accepted d v s) w = Q w
  UnlessRejected Q (retry e) w = Q w

  abbrev pub IfRejected : (W → Type 0) → FinishOutcome → W → Type 0
  IfRejected Q (rejected reason) w = Q w
  IfRejected Q (accepted d v s) w = Unit
  IfRejected Q (retry e) w = Unit

module _ {x : Platform} {W : Type 0} (f : UploadFinisher x W) (c : UploadCompleted x)
    (Q : W → Type 0) (frame : Frame f Q) where
  -- The ways out after an append: none of them deletes, and none of them rejects.
  module _ (R : FinishOutcome → W → Type 0)
      (accepts : (v : ℕ) (s : Bool) → Triple Q (accept f c v s) R)
      (retries : (error : Text) (w : W) → Q w → R (retry error) w) where
    after_created_last_walk :
        (r : Result EventStoreError (Option (ℕ × ℕ))) → Triple Q (after_created_last f c r) R
    unfolding after_created_last
    after_created_last_walk (ok (some (v, s))) w q = accepts v false w q
    after_created_last_walk (ok none) w q = retries _ w q
    after_created_last_walk (err e) w q = retries _ w q

    after_append_created_walk :
        (r : Result AppendError Appended) → Triple Q (after_append_created f c r) R
    unfolding after_append_created
    after_append_created_walk (ok a) w q = accepts a.version false w q
    after_append_created_walk (err already_created) w q =
        let step = f.events.last c.tenant_id c.document_id w in
        after_created_last_walk step.0 step.1 (frame.last c.tenant_id c.document_id w q)
    after_append_created_walk (err e) w q = retries _ w q

    after_append_replaced_walk :
        (r : Result AppendError Appended) → Triple Q (after_append_replaced f c r) R
    unfolding after_append_replaced
    after_append_replaced_walk (ok a) w q = accepts a.version _ w q
    after_append_replaced_walk (err e) w q = retries _ w q

  accept_keeps : (v : ℕ) (s : Bool) → Triple Q (accept f c v s) (UnlessRejected Q)
  unfolding accept
  accept_keeps v s w q = record_status-Keeps f c frame (UploadStatus.accepted v s) w q

  replay_keeps : (status : UploadStatus) (w : W) → Q w → UnlessRejected Q (replay c status) w
  unfolding replay
  replay_keeps status w q = ground arith

  module _
      (append_keeps : (e : DocumentEvent x) (expect : Expect)
        → Keeps Q (f.events.append e expect)) where
    append_created_keeps : (sha : Text) → Triple Q (append_created f c sha) (UnlessRejected Q)
    unfolding append_created
    append_created_keeps sha w q =
        let e = created_event c sha (f.clock w).0 in
        let step = append_create f.events e (f.clock w).1 in
        after_append_created_walk (UnlessRejected Q) accept_keeps (λ error w' q'. q') step.0 step.1
          (append_create-Keeps f.events Q append_keeps frame.last e (f.clock w).1 (frame.now w q))

    append_validated_keeps : (sha : Text) → Triple Q (append_validated f c sha) (UnlessRejected Q)
    unfolding append_validated
    append_validated_keeps sha w q =
        let build = validated_event c sha (f.clock w).0 in
        let step = append_update f.events c.tenant_id c.document_id none build (f.clock w).1 in
        after_append_replaced_walk (UnlessRejected Q) accept_keeps (λ error w' q'. q') step.0 step.1
          (append_update-Keeps f.events Q append_keeps frame.last c.tenant_id c.document_id none
            build (f.clock w).1 (frame.now w q))

    -- A run that does not reject deletes nothing: a fact of the world that every call but the
    -- deletion of an object keeps, such as that the bytes are there, still holds after a run that
    -- accepts the upload or asks for a retry.
    pub run_keeps_bytes : Triple Q (run f c) (UnlessRejected Q)
    unfolding reject
    run_keeps_bytes = run_walk f c {R = UnlessRejected Q} frame (record {
      retries = λ error w q. q;
      replays = replay_keeps;
      keeps_blob = λ v w q. q;
      rejects = λ reason w q. tt;
      discards = λ w q. tt;
      accepts = accept_keeps;
      creates = λ sha k. append_created_keeps sha;
      updates = λ sha k. append_validated_keeps sha;
    })

  module _ (delete_keeps : (k : Text) → Keeps Q (f.blobs.delete k)) where
    reclaim_keeps : Keeps Q (reclaim f c)
    unfolding reclaim
    reclaim_keeps w q =
        delete_keeps c.storage_key _ (frame.abort_multipart c.storage_key c.multipart_upload_id w q)

    reject_keeps : (reason : Text) → Keeps Q (reject f c reason)
    unfolding reject
    reject_keeps reason w q =
        record_status-Keeps f c frame (UploadStatus.rejected reason) (reclaim f c w).1
          (reclaim_keeps w q)

    after_created_last_says :
        (r : Result EventStoreError (Option (ℕ × ℕ))) (w : W)
        → IfRejected Q (after_created_last f c r w).0 (after_created_last f c r w).1
    unfolding after_created_last accept
    after_created_last_says (ok (some (v, s))) w = tt
    after_created_last_says (ok none) w = tt
    after_created_last_says (err e) w = tt

    after_append_created_says :
        (r : Result AppendError Appended) (w : W)
        → IfRejected Q (after_append_created f c r w).0 (after_append_created f c r w).1
    unfolding after_append_created accept
    after_append_created_says (ok a) w = tt
    after_append_created_says (err already_created) w = after_created_last_says _ _
    after_append_created_says (err e) w = tt

    after_append_replaced_says :
        (r : Result AppendError Appended) (w : W)
        → IfRejected Q (after_append_replaced f c r w).0 (after_append_replaced f c r w).1
    unfolding after_append_replaced accept
    after_append_replaced_says (ok a) w = tt
    after_append_replaced_says (err e) w = tt

    append_created_says : (sha : Text) → Triple Q (append_created f c sha) (IfRejected Q)
    unfolding append_created
    append_created_says sha w q = after_append_created_says _ _

    append_validated_says : (sha : Text) → Triple Q (append_validated f c sha) (IfRejected Q)
    unfolding append_validated
    append_validated_says sha w q = after_append_replaced_says _ _

    replay_says : (status : UploadStatus) (w : W) → Q w → IfRejected Q (replay c status) w
    unfolding replay
    replay_says status w q = ground arith

    -- A run that rejects appended nothing: a fact of the world that every call but `append` keeps,
    -- such as what the event log holds, still holds after a run that rejects the upload.
    pub run_rejects_silently : Triple Q (run f c) (IfRejected Q)
    unfolding reject accept
    run_rejects_silently = run_walk f c {R = IfRejected Q} frame (record {
      retries = λ error w q. tt {0};
      replays = replay_says;
      keeps_blob = λ v w q. tt {0};
      rejects = reject_keeps;
      discards = reclaim_keeps;
      accepts = λ v s w q. tt {0};
      creates = λ sha k. append_created_says sha;
      updates = λ sha k. append_validated_says sha;
    })

    -- Nothing is appended unchecked: where a run changes a fact that every call but `append` keeps,
    -- the worker has seen an object of the declared size that the validator passed and that a scan
    -- found clean, all of its declared bytes read.
    pub run_appends-Checked :
        Triple Q (run f c) (λ outcome w. Q w ⊎ ((sha : Text) × Checked f c sha))
    unfolding accept
    run_appends-Checked =
        run_walk f c {R = λ outcome w. Q w ⊎ ((sha : Text) × Checked f c sha)} frame (record {
          retries = λ error w q. inl q;
          replays = λ status w q. inl q;
          keeps_blob = λ v w q. inl q;
          rejects = λ reason w q. inl (reject_keeps reason w q);
          discards = λ w q. inl (reclaim_keeps w q);
          accepts = λ v s w q. inl (record_status-Keeps f c frame (UploadStatus.accepted v s) w q);
          creates = λ sha k w q. inr (sha, k);
          updates = λ sha k w q. inr (sha, k);
        })
