-- ===== src/Domain/Fold/Laws.antt =====
-- What one fold keeps, changes and refuses (crates/document-domain/src/fold.rs, `apply`).
use delphi.Base.{
  ℕ, ◌≡◌, refl, ◌⊎◌, inl, inr, ◌↔◌, ◌≢◌, Option, none, some, Text, ok, err, same, arith, same→eq,
  same_iff, sym, ◌∙◌, Bool-cases,
}
use mathlib.Core.Bool.{false≢true}
use delphi.Platform.{Platform}
use delphi.Domain.Events.{
  Actor, user, system, DocumentEventPayload, DocumentEvent, DocumentCreated, document_created,
  type_name,
}
use delphi.Domain.Fold.{
  DocumentState, FoldError, apply, fold_payload, fold_created, fold_update, created_at_of, active,
  pending, document_mismatch, system_actor_create, no_prior_state,
}

module _ {x : Platform} where
  abbrev pub IsCreate : DocumentEventPayload x → Type 0
  IsCreate (document_created c) = Unit
  IsCreate _ = ⊥

  -- The state, if there is one, is that of the event's document.
  abbrev pub Fits : Option (DocumentState x) → DocumentEvent x → Type 0
  Fits none e = Unit
  Fits (some s) e = s.document_id ≡ e.document_id

  -- What an update leaves alone, whatever its payload.
  pub record Keeps (s t : DocumentState x) : Type 0 where
    pub tenant : t.tenant_id ≡ s.tenant_id
    pub document : t.document_id ≡ s.document_id
    pub owner : t.owner_user_id ≡ s.owner_user_id
    pub created : t.created_at ≡ s.created_at

  -- The version, the sequence and the time of the last event are in the state.
  pub record IsStamped (e : DocumentEvent x) (seq : ℕ) (t : DocumentState x) : Type 0 where
    pub version : t.version ≡ e.version
    pub sequence : t.stream_seq ≡ seq
    pub updated : t.updated_at ≡ e.ts
    pub document : t.document_id ≡ e.document_id

  pub fold_update-Keeps :
      (p : DocumentEventPayload x) (s : DocumentState x) → Keeps s (fold_update p s)
  unfolding fold_update
  fold_update-Keeps p s = ground arith

  fold_payload-stamps :
      (p : DocumentEventPayload x) (state : Option (DocumentState x)) (e : DocumentEvent x)
      (seq : ℕ) {t : DocumentState x}
      → Fits state e
      → fold_payload p state e seq ≡ ok t
      → IsStamped e seq t
  unfolding fold_payload
  fold_payload-stamps p none e seq h k = ground arith
  fold_payload-stamps p (some s) e seq h k = ground arith

  -- A create seeds a state by the user who made it, and keeps only the creation time of an old one.
  pub record IsSeeded (state : Option (DocumentState x)) (e : DocumentEvent x) (t : DocumentState x)
      : Type 0 where
    pub tenant : t.tenant_id ≡ e.tenant_id
    pub owner : e.actor ≡ user t.owner_user_id
    pub state_active : t.state ≡ active
    pub index_pending : t.index_state ≡ pending
    pub index_unset : t.index_version ≡ none
    pub created : t.created_at ≡ created_at_of state e

  fold_created-IsSeeded :
      (a : Actor) (state : Option (DocumentState x)) (e : DocumentEvent x) (c : DocumentCreated x)
      (seq : ℕ) {t : DocumentState x}
      → e.actor ≡ a
      → fold_created a state e c seq ≡ ok t
      → IsSeeded state e t
  unfolding fold_created
  fold_created-IsSeeded (user u) state e c seq q h = ground arith
  fold_created-IsSeeded (system u) state e c seq q h = cc

  -- An event that is refused, and why: one rule for each way.
  pub data Refused (state : Option (DocumentState x)) (e : DocumentEvent x) (f : FoldError)
      : Type 0 where
    mismatch :
        (s : DocumentState x)
        → state ≡ some s
        → s.document_id ≢ e.document_id
        → f ≡ document_mismatch s.document_id e.document_id
        → Refused state e f
    by_system :
        (c : DocumentCreated x) (component : Text)
        → Fits state e
        → e.payload ≡ document_created c
        → e.actor ≡ system component
        → f ≡ system_actor_create e.document_id
        → Refused state e f
    no_prior :
        state ≡ none
        → ((c : DocumentCreated x) → e.payload ≢ document_created c)
        → f ≡ no_prior_state e.document_id (type_name e.payload)
        → Refused state e f

  fold_created-Refused :
      (a : Actor) (state : Option (DocumentState x)) (e : DocumentEvent x) (c : DocumentCreated x)
      (seq : ℕ) {f : FoldError}
      → e.payload ≡ document_created c
      → e.actor ≡ a
      → Fits state e
      → fold_created a state e c seq ≡ err f
      → Refused state e f
  unfolding fold_created
  fold_created-Refused (user u) state e c seq q a h k = cc
  fold_created-Refused (system component) state e c seq q a h k = by_system c component h q a (cc)

  fold_payload-Refused :
      (p : DocumentEventPayload x) (state : Option (DocumentState x)) (e : DocumentEvent x)
      (seq : ℕ) {f : FoldError}
      → e.payload ≡ p
      → Fits state e
      → fold_payload p state e seq ≡ err f
      → Refused state e f
  unfolding fold_payload
  fold_payload-Refused (document_created c) state e seq q h k =
      fold_created-Refused e.actor state e c seq q refl h k
  fold_payload-Refused p none e seq q h k = no_prior refl (λ c r. cc) (cc)
  fold_payload-Refused p (some s) e seq q h k = cc

  -- An event of the same document reaches the arms of the match.
  pub apply-eq-fold_payload :
      (state : Option (DocumentState x)) (e : DocumentEvent x) (seq : ℕ)
      → Fits state e
      → apply state e seq ≡ fold_payload e.payload state e seq
  unfolding apply
  apply-eq-fold_payload none e seq h = refl
  apply-eq-fold_payload (some s) e seq h = ground (arith, same_iff s.document_id e.document_id)

  pub apply_mismatched :
      (s : DocumentState x) (e : DocumentEvent x) (seq : ℕ)
      → s.document_id ≢ e.document_id
      → apply (some s) e seq ≡ err (document_mismatch s.document_id e.document_id)
  unfolding apply
  apply_mismatched s e seq h = ground (arith, same_iff s.document_id e.document_id)

  pub Fits-cases :
      (state : Option (DocumentState x)) (e : DocumentEvent x)
      → Fits state e ⊎ ((s : DocumentState x) × (state ≡ some s) × (s.document_id ≢ e.document_id))
  Fits-cases none e = inl tt
  Fits-cases (some s) e = elim (Bool-cases (same s.document_id e.document_id)) [
    | inl q ↦ inl (same→eq _ _ q)
    | inr q ↦ inr (s, refl, λ r. false≢true (sym q ∙ (same_iff _ _).1 r))
  ]

  apply-Refused :
      (state : Option (DocumentState x)) (e : DocumentEvent x) (seq : ℕ) {f : FoldError}
      → apply state e seq ≡ err f
      → Refused state e f
  apply-Refused state e seq h = elim (Fits-cases state e) [
    | inl fits ↦
        fold_payload-Refused e.payload state e seq refl fits
          (sym (apply-eq-fold_payload state e seq fits) ∙ h)
    | inr (s, q, ne) ↦ mismatch s q ne (cc (apply_mismatched s e seq ne))
  ]

  fold_payload_no_prior :
      (p : DocumentEventPayload x) (e : DocumentEvent x) (seq : ℕ)
      → ((c : DocumentCreated x) → p ≢ document_created c)
      → fold_payload p none e seq ≡ err (no_prior_state e.document_id (type_name e.payload))
  unfolding fold_payload
  fold_payload_no_prior (document_created c) e seq h = absurd (h c refl)
  fold_payload_no_prior p e seq h = refl

  Refused-apply :
      (state : Option (DocumentState x)) (e : DocumentEvent x) (seq : ℕ) {f : FoldError}
      → Refused state e f
      → apply state e seq ≡ err f
  unfolding fold_payload
  Refused-apply state e seq (mismatch s q ne r) = cc (apply_mismatched s e seq ne)
  Refused-apply state e seq (by_system c component fits q a r) =
      ground (arith, apply-eq-fold_payload state e seq fits)
  Refused-apply state e seq (no_prior q h r) =
      cc (apply-eq-fold_payload none e seq tt, fold_payload_no_prior e.payload e seq h)

  -- A fold fails exactly when the event belongs to another document, a system actor creates, or a
  -- document that does not exist is updated; and the error names which.
  pub apply-eq-err_iff :
      (state : Option (DocumentState x)) (e : DocumentEvent x) (seq : ℕ) (f : FoldError)
      → (apply state e seq ≡ err f) ↔ Refused state e f
  apply-eq-err_iff state e seq f = (apply-Refused state e seq, Refused-apply state e seq)

  -- A successful fold stamps the state with the event's version, sequence, time and document.
  pub apply-IsStamped :
      (state : Option (DocumentState x)) (e : DocumentEvent x) (seq : ℕ) {t : DocumentState x}
      → apply state e seq ≡ ok t
      → IsStamped e seq t
  apply-IsStamped state e seq h = elim (Fits-cases state e) [
    | inl fits ↦
        fold_payload-stamps e.payload state e seq fits
          (sym (apply-eq-fold_payload state e seq fits) ∙ h)
    | inr (s, q, ne) ↦ absurd (cc (apply_mismatched s e seq ne))
  ]

  -- A create, on any state that it fits, gives the state that it seeds.
  pub apply-IsSeeded :
      (state : Option (DocumentState x)) (e : DocumentEvent x) (c : DocumentCreated x) (seq : ℕ)
      {t : DocumentState x}
      → e.payload ≡ document_created c
      → apply state e seq ≡ ok t
      → IsSeeded state e t
  unfolding fold_payload
  apply-IsSeeded state e c seq q h = elim (Fits-cases state e) [
    | inl fits ↦
        fold_created-IsSeeded e.actor state e c seq refl
          (ground (arith, apply-eq-fold_payload state e seq fits))
    | inr (s, r, ne) ↦ absurd (cc (apply_mismatched s e seq ne))
  ]
