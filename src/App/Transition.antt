-- ===== src/App/Transition.antt =====
-- crates/document-app/src/transition.rs: the one way an upload's status moves.
pub mod Finality
pub mod Frames
use delphi.Base.{
  ℕ, zero, suc, Bool, true, false, not, ◌&&◌, Option, none, some, Text, codes, Result, ok, err,
  Action, pure, ◌>>=◌, same, map_err, if◌then◌else◌,
}
use delphi.Platform.{Platform}
use delphi.App.Errors.{DocumentError, ContextError, conflict, internal_error, from_context}
use delphi.App.Uploads.{UploadState, UploadStatus, StoredUpload, is_terminal, with_status}
use delphi.App.Ports.{UploadStateStore}

abbrev pub cas_attempts : ℕ
cas_attempts = 3

pub data Transition (x : Platform) : Type 0 where
  applied : UploadState x → Transition x
  already_terminal : UploadState x → Transition x
  expired : Transition x

module _ {x : Platform} where
  -- The check of the owner in `load`.
  unfoldable pub owned : Text → Text → Option (StoredUpload x) → Option (UploadState x)
  owned tenant user none = none
  owned tenant user (some stored) =
      if not (same stored.state.owner_user_id user && same stored.state.tenant_id tenant)
      then none
      else some stored.state

  unfoldable pub after_load :
      Text
      → Text
      → Result ContextError (Option (StoredUpload x))
      → Result DocumentError (Option (UploadState x))
  unfolding owned
  after_load tenant user (err error) = err (from_context error)
  after_load tenant user (ok found) = ok (owned tenant user found)

module _ {x : Platform} {W : Type 0} (store : UploadStateStore x W) where
  -- The answer of the compare-and-swap: written, lost (`continue`), expired or failed.
  pub after_update :
      Action W (Result DocumentError (Transition x))
      → UploadState x
      → Result ContextError ℕ
      → Action W (Result DocumentError (Transition x))
  after_update again next (ok revision) = pure (ok (applied next))
  after_update again next (err ContextError.conflict) = again
  after_update again next (err ContextError.expired) = pure (ok Transition.expired)
  after_update again next (err error) = pure (err (from_context error))

  -- One round of the loop, from the record that was read.
  pub after_get :
      Action W (Result DocumentError (Transition x))
      → UploadStatus
      → x.Time
      → Result ContextError (Option (StoredUpload x))
      → Action W (Result DocumentError (Transition x))
  unfolding after_update
  after_get again status now (err error) = pure (err (from_context error))
  after_get again status now (ok none) = pure (ok Transition.expired)
  after_get again status now (ok (some stored)) =
      if is_terminal stored.state.status
      then pure (ok (already_terminal stored.state))
      else (store.update (with_status stored.state status now) stored.revision
          >>= after_update again (with_status stored.state status now))

  pub set_status_rounds :
      ℕ
      → Text
      → Text
      → Text
      → UploadStatus
      → x.Time
      → Action W (Result DocumentError (Transition x))
  unfolding after_get
  set_status_rounds zero tenant user upload status now = pure (
      err (
        internal_error (codes "upload state")
          (codes "gave up after repeated compare-and-swap conflicts")))
  set_status_rounds (suc n) tenant user upload status now =
      store.get tenant user upload
      >>= after_get (set_status_rounds n tenant user upload status now) status now

  unfoldable pub set_status :
      Text → Text → Text → UploadStatus → x.Time → Action W (Result DocumentError (Transition x))
  unfolding set_status_rounds
  set_status = set_status_rounds cas_attempts

  -- `finish_with`
  abbrev pub finish_with :
      Text → Text → Text → UploadStatus → x.Time → Action W (Result DocumentError (Transition x))
  finish_with = set_status

  unfoldable pub load :
      Text → Text → Text → Action W (Result DocumentError (Option (UploadState x)))
  unfolding after_load
  load tenant user upload = do
    found ← store.get tenant user upload
    pure (after_load tenant user found)
