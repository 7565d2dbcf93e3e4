-- ===== src/App/Worker/Redelivery.antt =====
-- A work item that is delivered again: after a terminal answer, and after its record expired.
use delphi.Base.{
  ℕ, ◌≡◌, ◌≢◌, ◌⊎◌, inl, inr, refl, ap, ◌∙◌, Bool, true, false, Option, none, some, [], ◌∷◌, ◌++◌,
  Text, Result, ok, err, arith, All, same_iff, same_refl, same→eq, same, Bool-cases,
}
use delphi.Platform.{Platform}
use delphi.Domain.Events.{DocumentEvent, blob_ref}
use delphi.Domain.Fold.{Log}
use delphi.App.Errors.{EventStoreError, event_store_error_str}
use delphi.App.Uploads.{
  UploadStatus, uploading, scanning, UploadCompleted, StoredUpload, is_terminal, upload_expired,
}
use delphi.App.Transition.{load, after_load}
use delphi.App.Worker.{
  UploadFinisher, FinishOutcome, accepted, rejected, retry, reclaim, replay, run, after_state,
  discard_expired, after_applied, applied_event, names_blob, finish, after_run,
}

terminal-cases :
    (status : UploadStatus)
    → is_terminal status ≡ true
    → ((version : ℕ) × (superseded : Bool) × (status ≡ UploadStatus.accepted version superseded))
      ⊎ ((reason : Text) × (status ≡ UploadStatus.rejected reason))
unfolding is_terminal
terminal-cases (UploadStatus.accepted version superseded) h = inl (version, superseded, refl)
terminal-cases (UploadStatus.rejected reason) h = inr (reason, refl)
terminal-cases uploading h = absurd (cc)
terminal-cases scanning h = absurd (cc)

module _ {x : Platform} {W : Type 0} (f : UploadFinisher x W) (c : UploadCompleted x) where
  open f use {uploads, events}

  run-eq-replay :
      (w : W) (stored : StoredUpload x) (outcome : FinishOutcome)
      → (uploads.get c.tenant_id c.owner_user_id c.upload_id w).0 ≡ ok (some stored)
      → stored.state.owner_user_id ≡ c.owner_user_id
      → stored.state.tenant_id ≡ c.tenant_id
      → is_terminal stored.state.status ≡ true
      → replay c stored.state.status ≡ outcome
      → run f c w ≡ (outcome, (uploads.get c.tenant_id c.owner_user_id c.upload_id w).1)
  unfolding run after_state load after_load
  run-eq-replay w stored outcome got owner tenant done recorded = ground (
    arith,
    same_iff stored.state.owner_user_id c.owner_user_id,
    same_iff stored.state.tenant_id c.tenant_id,
  )

  after_run_accepted :
      (final_delivery : Bool) (document : Text) (version : ℕ) (superseded : Bool) (w : W)
      → after_run f c final_delivery (accepted document version superseded) w
        ≡ (accepted document version superseded, w)
  unfolding after_run
  after_run_accepted true document version superseded w = refl
  after_run_accepted false document version superseded w = refl

  after_run_rejected :
      (final_delivery : Bool) (reason : Text) (w : W)
      → after_run f c final_delivery (rejected reason) w ≡ (rejected reason, w)
  unfolding after_run
  after_run_rejected true reason w = refl
  after_run_rejected false reason w = refl

  -- A redelivery of finished work: when the record is the caller's and its status is terminal, the
  -- answer, on an early delivery and on the last one, is the acceptance or the rejection that the
  -- record tells, for the document of the work item, and the one call made is the read of the record.
  pub finish_replays :
      (final_delivery : Bool) (w : W) (stored : StoredUpload x)
      → (uploads.get c.tenant_id c.owner_user_id c.upload_id w).0 ≡ ok (some stored)
      → stored.state.owner_user_id ≡ c.owner_user_id
      → stored.state.tenant_id ≡ c.tenant_id
      → is_terminal stored.state.status ≡ true
      → let w' = (uploads.get c.tenant_id c.owner_user_id c.upload_id w).1 in
        ((version : ℕ) × (superseded : Bool) × (stored.state.status
            ≡ UploadStatus.accepted version superseded)
          × (finish f c final_delivery w ≡ (accepted c.document_id version superseded, w')))
        ⊎ ((reason : Text) × (stored.state.status ≡ UploadStatus.rejected reason)
            × (finish f c final_delivery w ≡ (rejected reason, w')))
  unfolding finish replay
  finish_replays final_delivery w stored got owner tenant done =
      elim (terminal-cases stored.state.status done) [
        | inl (version, superseded, q) ↦
            let ran = run-eq-replay w stored _ got owner tenant done (ap (replay c) q) in
            inl (
              version,
              superseded,
              q,
              ap (λ r. after_run f c final_delivery r.0 r.1) ran
                  ∙ after_run_accepted final_delivery c.document_id version superseded _,
            )
        | inr (reason, q) ↦
            let ran = run-eq-replay w stored _ got owner tenant done (ap (replay c) q) in
            inr (
              reason,
              q,
              ap (λ r. after_run f c final_delivery r.0 r.1) ran
                  ∙ after_run_rejected final_delivery reason _,
            )
      ]

  -- The entry of a log whose event holds the blob of the upload.
  abbrev IsApplied : ℕ × DocumentEvent x → Type 0
  IsApplied entry = blob_ref entry.1.payload ≡ some c.upload_id

  abbrev IsOther : ℕ × DocumentEvent x → Type 0
  IsOther entry = blob_ref entry.1.payload ≢ some c.upload_id

  -- What the run does after its record expired, from the history that it read: `result` is its
  -- outcome and the world after it.
  abbrev pub ExpiredAnswer : Result EventStoreError (Log x) → W → FinishOutcome × W → Type 0
  ExpiredAnswer (err error) w result = result ≡ (retry (event_store_error_str error), w)
  ExpiredAnswer (ok history) w result =
      ((before after : Log x) (entry : ℕ × DocumentEvent x)
        → history ≡ before ++ entry ∷ after
        → All IsOther before
        → IsApplied entry
        → result ≡ (accepted c.document_id entry.1.version false, w))
      × (All IsOther history
          → result ≡ (
            rejected upload_expired,
            (f.blobs.delete c.storage_key
                (f.blobs.abort_multipart c.storage_key c.multipart_upload_id w).1).1,
          ))

  names_blob-other :
      (blob : Option Text) → blob ≢ some c.upload_id → names_blob c.upload_id blob ≡ false
  names_blob-other none ne = refl
  names_blob-other (some blob) ne = elim (Bool-cases (same blob c.upload_id)) [
    | inl q ↦ absurd (ne (ap some (same→eq blob c.upload_id q)))
    | inr q ↦ q
  ]

  applied_event-none :
      (history : Log x) → All IsOther history → applied_event c.upload_id history ≡ none
  unfolding applied_event
  applied_event-none [] others = refl
  applied_event-none (entry ∷ rest) (other, others) =
      rw (names_blob-other (blob_ref entry.1.payload) other) (applied_event-none rest others)

  applied_event-some :
      (before after : Log x) (entry : ℕ × DocumentEvent x)
      → All IsOther before
      → IsApplied entry
      → applied_event c.upload_id (before ++ entry ∷ after) ≡ some entry
  unfolding applied_event
  applied_event-some [] after entry others here = rw (here, same_refl c.upload_id) refl
  applied_event-some (first ∷ rest) after entry (other, others) here =
      rw (names_blob-other (blob_ref first.1.payload) other)
        (applied_event-some rest after entry others here)

  after_applied_answer :
      (r : Result EventStoreError (Log x)) (w : W) → ExpiredAnswer r w (after_applied f c r w)
  unfolding after_applied reclaim
  after_applied_answer (err e) w = refl
  after_applied_answer (ok h) w = (
    λ before after entry q others here.
        let found : applied_event c.upload_id h ≡ some entry =
          rw q (applied_event-some before after entry others here) in
        rw (found, after_applied),
    λ others. rw (applied_event-none h others, after_applied, reclaim),
  )

  discard_answer :
      (w : W)
      → let (history, w') = events.read_stream c.tenant_id c.document_id w in
        ExpiredAnswer history w' (discard_expired f c w)
  unfolding discard_expired
  discard_answer w = after_applied_answer _ _

  run-eq-discard :
      (w : W)
      → (uploads.get c.tenant_id c.owner_user_id c.upload_id w).0 ≡ ok none
      → run f c w ≡ discard_expired f c (uploads.get c.tenant_id c.owner_user_id c.upload_id w).1
  unfolding run after_state load after_load
  run-eq-discard w got = ground arith

  -- An expired record: the log decides. If an event of it refers to this upload's blob, the upload is
  -- accepted at the version of the first such event and no call follows the read; if it cannot be
  -- read, the item is retried and no call follows; if no event refers to the blob, the upload is
  -- rejected, and the calls that follow are the abort of the multipart and the deletion of the object.
  pub run_expired :
      (w : W)
      → (uploads.get c.tenant_id c.owner_user_id c.upload_id w).0 ≡ ok none
      → let w' = (uploads.get c.tenant_id c.owner_user_id c.upload_id w).1 in
        let (history, w'') = events.read_stream c.tenant_id c.document_id w' in
        ExpiredAnswer history w'' (run f c w)
  run_expired w got =
      rw (run-eq-discard w got)
        (discard_answer (uploads.get c.tenant_id c.owner_user_id c.upload_id w).1)
