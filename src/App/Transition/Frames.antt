-- ===== src/App/Transition/Frames.antt =====
-- A change of status touches the world through `get` and `update` alone.
use delphi.Base.{ℕ, zero, suc, Option, none, some, Text, Result, ok, err, Action, Keeps, arith}
use delphi.Platform.{Platform}
use delphi.App.Errors.{ContextError}
use delphi.App.Uploads.{UploadStatus, StoredUpload, UploadState, with_status}
use delphi.App.Ports.{UploadStateStore}
use delphi.App.Transition.{Transition, set_status, set_status_rounds, after_get, after_update, load}

module _ {x : Platform} {W : Type 0} (store : UploadStateStore x W) (Q : W → Type 0)
    (get_keeps : (t u i : Text) → Keeps Q (store.get t u i)) where
  pub load-Keeps : (t u i : Text) → Keeps Q (load store t u i)
  unfolding load
  load-Keeps t u i w q = get_keeps t u i w q

  module _ (update_keeps : (s : UploadState x) (r : ℕ) → Keeps Q (store.update s r)) where
    after_update-Keeps :
        (again : Action W (Result _ (Transition x))) (next : UploadState x)
        (answer : Result ContextError ℕ)
        → Keeps Q again
        → Keeps Q (after_update store again next answer)
    unfolding after_update
    after_update-Keeps again next (ok revision) k w q = q
    after_update-Keeps again next (err ContextError.conflict) k w q = k w q
    after_update-Keeps again next (err error) k w q = q

    after_get-Keeps :
        (again : Action W (Result _ (Transition x))) (status : UploadStatus) (now : x.Time)
        (answer : Result ContextError (Option (StoredUpload x)))
        → Keeps Q again
        → Keeps Q (after_get store again status now answer)
    unfolding after_get
    after_get-Keeps again status now (err error) k w q = q
    after_get-Keeps again status now (ok none) k w q = q
    after_get-Keeps again status now (ok (some stored)) k w q = ground (
      arith,
      update_keeps (with_status stored.state status now) stored.revision w q,
      after_update-Keeps again (with_status stored.state status now)
          (store.update (with_status stored.state status now) stored.revision w).0 k
          (store.update (with_status stored.state status now) stored.revision w).1,
    )

    set_status_rounds-Keeps :
        (n : ℕ) (t u i : Text) (status : UploadStatus) (now : x.Time)
        → Keeps Q (set_status_rounds store n t u i status now)
    unfolding set_status_rounds
    set_status_rounds-Keeps zero t u i status now w q = q
    set_status_rounds-Keeps (suc n) t u i status now w q =
        after_get-Keeps (set_status_rounds store n t u i status now) status now
          (store.get t u i w).0 (set_status_rounds-Keeps n t u i status now) (store.get t u i w).1
          (get_keeps t u i w q)

    pub set_status-Keeps :
        (t u i : Text) (status : UploadStatus) (now : x.Time)
        → Keeps Q (set_status store t u i status now)
    unfolding set_status
    set_status-Keeps t u i status now w q = set_status_rounds-Keeps 3 t u i status now w q
