-- ===== src/App/Projection/Outcomes.antt =====
-- When a payload becomes a row, and when it is reported as a violation.
use delphi.Base.{
  ℕ, ◌≡◌, refl, ◌↔◌, Bool, true, false, Option, List, ok, arith, Result-cases, inl, inr,
}
use delphi.Platform.{Platform}
use delphi.Domain.Events.{DocumentEvent}
use delphi.Domain.Fold.{DocumentState, FoldError, apply}
use delphi.Domain.Fold.Laws.{Refused, apply-eq-err_iff}
use delphi.App.Projection.{
  DecodedEvent, event, unknown, malformed, ProjectionOutcome, upsert, failure, Codec, decode_event,
  project_decoded, project_event,
}

module _ {x : Platform} (serde : Codec x) where
  -- A row of the projection: the payload is an event, and it folds to the row.
  abbrev pub IsRow : Option (DocumentState x) → DecodedEvent x → ℕ → DocumentState x → Type 0
  IsRow prior decoded seq state =
      (e : DocumentEvent x) × (decoded ≡ event e) × (apply prior e seq ≡ ok state)

  -- A violation: the payload is an event that the fold refuses.
  abbrev pub IsViolation : Option (DocumentState x) → DecodedEvent x → Type 0
  IsViolation prior decoded =
      (e : DocumentEvent x) × (decoded ≡ event e) × (f : FoldError) × Refused prior e f

  abbrev pub is_violation : ProjectionOutcome x → Bool
  is_violation (upsert state) = false
  is_violation (failure payload error domain_violation) = domain_violation

  IsRow-of :
      (prior : Option (DocumentState x)) (seq : ℕ) (decoded : DecodedEvent x)
      (state : DocumentState x)
      → project_decoded serde prior seq decoded ≡ upsert state
      → IsRow prior decoded seq state
  IsRow-of prior seq (event e) state h = elim (Result-cases (apply prior e seq)) [
    | inl (t, q) ↦ (e, refl, ground arith)
    | inr (f, q) ↦ absurd (ground arith)
  ]
  IsRow-of prior seq (unknown raw error) state h = absurd (cc)
  IsRow-of prior seq (malformed error) state h = absurd (cc)

  IsViolation-of :
      (prior : Option (DocumentState x)) (seq : ℕ) (decoded : DecodedEvent x)
      → is_violation (project_decoded serde prior seq decoded) ≡ true
      → IsViolation prior decoded
  IsViolation-of prior seq (event e) h = elim (Result-cases (apply prior e seq)) [
    | inl (t, q) ↦ absurd (ground arith)
    | inr (f, q) ↦ (e, refl, f, (apply-eq-err_iff prior e seq f).0 q)
  ]
  IsViolation-of prior seq (unknown raw error) h = absurd (cc)
  IsViolation-of prior seq (malformed error) h = absurd (cc)

  -- Every payload has an outcome. It is a row exactly when it decodes to an event that folds to that
  -- row; it is reported as a violation exactly when it decodes to an event that the fold refuses. A
  -- payload that does not decode is a failure that is no violation.
  pub project_event_iff :
      (prior : Option (DocumentState x)) (payload : List ℕ) (seq : ℕ) (state : DocumentState x)
      → ((project_event serde prior payload seq ≡ upsert state)
          ↔ IsRow prior (decode_event serde payload) seq state)
        × ((is_violation (project_event serde prior payload seq) ≡ true)
            ↔ IsViolation prior (decode_event serde payload))
  unfolding project_event
  project_event_iff prior payload seq state = (
    (IsRow-of prior seq (decode_event serde payload) state, λ row. rw (row.1, row.2) refl),
    (
      IsViolation-of prior seq (decode_event serde payload),
      λ bad. rw (bad.1, (apply-eq-err_iff prior bad.0 seq bad.2).1 bad.3) refl,
    ),
  )
