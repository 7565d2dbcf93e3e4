-- ===== src/App/Transition/Finality.antt =====
-- Who may move the status of an upload (crates/document-app/src/transition.rs), over a store that does
-- compare-and-swap by revision, with other writers between every read and write.
use delphi.Base.{
  ℕ, zero, suc, ◌≡◌, refl, sym, ◌∙◌, ap, inl, inr, false, Option, none, some, Text, Result, ok, err,
  Action, arith, Bool-cases,
}
use delphi.Platform.{Platform}
use delphi.App.Errors.{DocumentError, ContextError}
use delphi.App.Uploads.{
  UploadState, UploadStatus, StoredUpload, is_terminal, with_status, key, own_key,
}
use delphi.App.Ports.{UploadStateStore}
use delphi.App.Transition.{
  Transition, applied, after_update, after_get, set_status_rounds, set_status,
}

applied_inj :
    {x : Platform} {s t : UploadState x}
    → ◌≡◌ {A = Result DocumentError (Transition x)} (ok (applied s)) (ok (applied t))
    → s ≡ t
applied_inj h = cc

-- What a store with compare-and-swap promises. `view` is the record under a key, `Later w w'` says
-- that other processes and the expiry of records may turn `w` into `w'`, and `put` is the one write
-- of a successful update.
pub record IsCas {x : Platform} {W : Type 0} (store : UploadStateStore x W)
    (view : W → Text → Option (StoredUpload x)) (put : W → StoredUpload x → W)
    (Later : W → W → Type 0) : Type 0 where
  -- A read answers what is there.
  pub get_sound :
      (t u i : Text) (w : W) {found : Option (StoredUpload x)}
      → (store.get t u i w).0 ≡ ok found
      → view (store.get t u i w).1 (key t u i) ≡ found
  -- A write succeeds only at the revision that it names, whatever happened before it.
  pub update_swaps :
      (s : UploadState x) (r : ℕ) (w : W) {new : ℕ}
      → (store.update s r w).0 ≡ ok new
      → (w' : W) × (old : StoredUpload x) × Later w w'
        × (view w' (own_key s) ≡ some old)
        × (old.revision ≡ r)
        × ((store.update s r w).1 ≡ put w' (record { state = s; revision = new }))
  -- A revision of a key is written once.
  pub revisions :
      (w w' : W) (k : Text) {a b : StoredUpload x}
      → Later w w'
      → view w k ≡ some a
      → view w' k ≡ some b
      → a.revision ≡ b.revision
      → a ≡ b
  -- A record stands under its own key.
  pub keyed : (w : W) (k : Text) {a : StoredUpload x} → view w k ≡ some a → own_key a.state ≡ k

module _ {x : Platform} {W : Type 0} (store : UploadStateStore x W)
    (view : W → Text → Option (StoredUpload x)) (put : W → StoredUpload x → W)
    (Later : W → W → Type 0) (cas : IsCas store view put Later) where
  -- The write of `next` that made the world `w`: at the moment before it, the record under the key
  -- had a status that is not terminal, and `next` is that record with the new status.
  pub record Moved (k : Text) (status : UploadStatus) (now : x.Time) (next : UploadState x) (w : W)
      : Type 0 where
    pub before : W
    pub old : StoredUpload x
    pub revision : ℕ
    pub found : view before k ≡ some old
    pub open_status : is_terminal old.state.status ≡ false
    pub moved : next ≡ with_status old.state status now
    pub written : w ≡ put before (record { state = next; revision = revision })

  module _ (t u i : Text) (status : UploadStatus) (now : x.Time) (next : UploadState x)
      (again : Action W (Result DocumentError (Transition x)))
      (later_rounds : (w : W)
        → (again w).0 ≡ ok (applied next)
        → Moved (key t u i) status now next (again w).1) where
    after_update-Moved :
        (w : W) (stored : StoredUpload x) (answer : Result ContextError ℕ)
        → view w (key t u i) ≡ some stored
        → is_terminal stored.state.status ≡ false
        → (store.update (with_status stored.state status now) stored.revision w).0 ≡ answer
        → let result =
            after_update store again
              (with_status stored.state status now)
              answer
              (store.update (with_status stored.state status now) stored.revision w).1 in
          result.0 ≡ ok (applied next) → Moved (key t u i) status now next result.1
    unfolding after_update with_status
    after_update-Moved w stored (ok new) seen live q h =
        let (w', old, later, there, at, written) =
          cas.update_swaps (with_status stored.state status now) stored.revision w q in
        let there' : view w' (key t u i) ≡ some old = rw (← cas.keyed w (key t u i) seen) there in
        let unmoved : stored ≡ old = cas.revisions w w' (key t u i) later seen there' (sym at) in
        record {
          before = w';
          old = old;
          revision = new;
          found = there';
          open_status = rw (← unmoved) live;
          moved = rw (← unmoved) (sym (applied_inj h));
          written =
              written ∙ ap (λ s. put w' (record { state = s; revision = new })) (applied_inj h);
        }
    after_update-Moved w stored (err ContextError.conflict) seen live q h = later_rounds _ h
    after_update-Moved w stored (err error) seen live q h = absurd (cc)

    after_get-Moved :
        (w : W) (answer : Result ContextError (Option (StoredUpload x)))
        → ((found : Option (StoredUpload x)) → answer ≡ ok found → view w (key t u i) ≡ found)
        → (after_get store again status now answer w).0 ≡ ok (applied next)
        → Moved (key t u i) status now next (after_get store again status now answer w).1
    unfolding after_get
    after_get-Moved w (err error) seen h = absurd (cc)
    after_get-Moved w (ok none) seen h = absurd (cc)
    after_get-Moved w (ok (some stored)) seen h =
        elim (Bool-cases (is_terminal stored.state.status)) [
          | inl done ↦ absurd (ground arith)
          | inr live ↦
              rw live
                (after_update-Moved w stored _ (seen (some stored) refl) live refl (rw live at h))
        ]

  rounds_Moved :
      (n : ℕ) (t u i : Text) (status : UploadStatus) (now : x.Time) (next : UploadState x) (w : W)
      → (set_status_rounds store n t u i status now w).0 ≡ ok (applied next)
      → Moved (key t u i) status now next (set_status_rounds store n t u i status now w).1
  unfolding set_status_rounds
  rounds_Moved zero t u i status now next w h = absurd (cc)
  rounds_Moved (suc n) t u i status now next w h =
      after_get-Moved t u i status now next (set_status_rounds store n t u i status now)
        (λ w'. rounds_Moved n t u i status now next w') (store.get t u i w).1 (store.get t u i w).0
        (λ found q. cas.get_sound t u i w q) h

  -- A terminal status is final, with any number of other writers at work: when `set_status` reports
  -- that it applied a status, its last act was one write, and the record that the write replaced had
  -- a status that is not terminal and differs from the new record in status and time alone.
  pub set_status-Moved :
      (t u i : Text) (status : UploadStatus) (now : x.Time) (next : UploadState x) (w : W)
      → (set_status store t u i status now w).0 ≡ ok (applied next)
      → Moved (key t u i) status now next (set_status store t u i status now w).1
  unfolding set_status
  set_status-Moved = rounds_Moved 3
