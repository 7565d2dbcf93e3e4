-- ===== src/App/Service/Completing.antt =====
-- What `complete` publishes.
use delphi.Base.{
  ◌⊎◌, inl, inr, ℕ, ◌≡◌, refl, Option, none, some, Text, ok, arith, attempt, attempt_ok, go_on_ok,
  pure, map_err,
}
use delphi.Platform.{Platform}
use delphi.Domain.Validation.{validate_metadata_patch}
use delphi.App.Errors.{from_validation, from_queue}
use delphi.App.Uploads.{UploadState, UploadStatus, UploadMode, create, replace, UploadCompleted}
use delphi.App.Transition.{Transition, set_status}
use delphi.App.Service.{
  DocumentService, CompleteRequest, load_context, complete, complete_loaded, publish, mark,
  completed_command, mode_conflict,
}

named_for_replace :
    (if_match : Option ℕ) (mode : UploadMode) {done : Unit {0}}
    → mode_conflict if_match mode ≡ ok done
    → (if_match ≡ none) ⊎ (mode ≡ replace)
named_for_replace none mode h = inl refl
named_for_replace (some revision) create h = absurd (cc)
named_for_replace (some revision) replace h = inr refl

-- The work item that a `complete` publishes, from the record of the upload, the request and the time.
abbrev pub IsWorkItem :
    {x : Platform}
    → Text
    → Text
    → Text
    → UploadState x
    → CompleteRequest x
    → x.Time
    → UploadCompleted x
    → Type 0
IsWorkItem tenant user upload context request now item =
    (item.tenant_id ≡ tenant)
    × (item.owner_user_id ≡ user)
    × (item.upload_id ≡ upload)
    × (item.document_id ≡ context.document_id)
    × (item.mode ≡ context.mode)
    × (item.storage_key ≡ context.storage_key)
    × (item.multipart_upload_id ≡ context.multipart_upload_id)
    × (item.filename ≡ context.filename)
    × (item.content_type ≡ context.content_type)
    × (item.declared_size ≡ context.declared_size)
    × (item.if_match ≡ request.if_match)
    × (item.on_conflict ≡ request.on_conflict)
    × (item.patch ≡ request.patch)
    × (item.ts ≡ now)

module _ {x : Platform} {W : Type 0} (s : DocumentService x W) where
  mark_ok :
      (tenant user upload : Text) (w : W) {done : Unit {0}}
      → (mark s tenant user upload w).0 ≡ ok done
      → let (now, w') = s.clock w in
        (t : Transition x) × ((set_status s.uploads tenant user upload UploadStatus.scanning now
            w').0
          ≡ ok t)
        × ((mark s tenant user upload w).1
            ≡ (set_status s.uploads tenant user upload UploadStatus.scanning now w').1)
  unfolding mark
  mark_ok tenant user upload w h =
      let (t, moved, rest) =
        attempt_ok (set_status s.uploads tenant user upload UploadStatus.scanning (s.clock w).0)
          (λ e. e) (λ _. pure (ok tt)) (s.clock w).1 h in
      (t, moved, rw moved refl)

  -- A `complete` that succeeds: the patch is valid, the record is the caller's, and a revision is
  -- named only for a replacement. The queue has taken a work item of that record and this request.
  -- Only after that the status of the record was asked to be scanning, and that transition, which
  -- leaves a record that is terminal or gone as it is, has not failed and is the last call.
  pub complete_publishes :
      (tenant user upload : Text) (request : CompleteRequest x) (w : W) {done : Unit {0}}
      → (complete s tenant user upload request w).0 ≡ ok done
      → (validate_metadata_patch request.patch ≡ ok tt)
        × (context : UploadState x) × ((load_context s tenant user upload w).0 ≡ ok context)
        × ((request.if_match ≡ none) ⊎ (context.mode ≡ replace))
        × let (now, w') = s.clock (load_context s tenant user upload w).1 in
          (item : UploadCompleted x) × IsWorkItem tenant user upload context request now item
          × ((s.queue item w').0 ≡ ok tt)
          × let (later, w'') = s.clock (s.queue item w').1 in
            (t : Transition x) × ((set_status s.uploads tenant user upload UploadStatus.scanning
                later w'').0
              ≡ ok t)
            × ((complete s tenant user upload request w).1
                ≡ (set_status s.uploads tenant user upload UploadStatus.scanning later w'').1)
  unfolding complete complete_loaded publish
  complete_publishes tenant user upload request w h =
      let (valid, checked, k) =
        go_on_ok (λ e. e)
          (λ _.
            attempt (load_context s tenant user upload) (λ e. e)
              (complete_loaded s tenant user upload request))
          (map_err from_validation (validate_metadata_patch request.patch)) w h in
      let (context, loaded, l) =
        attempt_ok (load_context s tenant user upload) (λ e. e)
          (complete_loaded s tenant user upload request) w k in
      let w' : W = (load_context s tenant user upload w).1 in
      let (fits, agreed, m) =
        go_on_ok (λ e. e) (λ _. publish s tenant user upload request context)
          (mode_conflict request.if_match context.mode) w' l in
      let item : UploadCompleted x =
        completed_command tenant user upload context request (s.clock w').0 in
      let (sent, taken, marked) =
        attempt_ok (s.queue item) from_queue (λ _. mark s tenant user upload) (s.clock w').1 m in
      let (t, moved, last) = mark_ok tenant user upload (s.queue item (s.clock w').1).1 marked in
      (
        ground arith,
        context,
        loaded,
        named_for_replace request.if_match context.mode agreed,
        (
          item,
          (refl, refl, refl, refl, refl, refl, refl, refl, refl, refl, refl, refl, refl, refl),
          taken,
          (t, moved, rw (checked, loaded, agreed, taken) last),
        ),
      )
