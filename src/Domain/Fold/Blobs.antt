-- ===== src/Domain/Fold/Blobs.antt =====
-- The blob that a document serves (`current_blob`) against the blobs that its log names
-- (`DocumentEventPayload::blob_ref`).
use delphi.Base.{
  ℕ, ◌≡◌, refl, inl, inr, Option, none, some, [], ◌∷◌, Text, ok, arith, sym, ap, ◌∙◌, Result-cases,
}
use delphi.Platform.{Platform}
use delphi.Domain.Events.{DocumentEventPayload, DocumentEvent, blob_ref}
use delphi.Domain.Fold.{DocumentState, Log, apply, fold_from, fold_payload, patched_some}
use delphi.Domain.Fold.Laws.{apply-eq-fold_payload, Fits-cases, apply_mismatched}

module _ {x : Platform} where
  abbrev pub served_blob : Option (DocumentState x) → Option Text
  served_blob none = none
  served_blob (some s) = s.current_blob

  -- The blob that the newest event with a blob names, or `b` if none does.
  pub newest_blob : Option Text → Log x → Option Text
  newest_blob b [] = b
  newest_blob b ((seq, e) ∷ log) = newest_blob (patched_some (blob_ref e.payload) b) log

  fold_payload-blob :
      (p : DocumentEventPayload x) (state : Option (DocumentState x)) (e : DocumentEvent x)
      (seq : ℕ) {t : DocumentState x}
      → e.payload ≡ p
      → fold_payload p state e seq ≡ ok t
      → t.current_blob ≡ patched_some (blob_ref p) (served_blob state)
  unfolding fold_payload blob_ref
  fold_payload-blob p none e seq q h = ground arith
  fold_payload-blob p (some s) e seq q h = ground arith

  apply-blob :
      (state : Option (DocumentState x)) (e : DocumentEvent x) (seq : ℕ) {t : DocumentState x}
      → apply state e seq ≡ ok t
      → t.current_blob ≡ patched_some (blob_ref e.payload) (served_blob state)
  apply-blob state e seq h = elim (Fits-cases state e) [
    | inl fits ↦
        fold_payload-blob e.payload state e seq refl
          (sym (apply-eq-fold_payload state e seq fits) ∙ h)
    | inr (s, q, ne) ↦ absurd (cc (apply_mismatched s e seq ne))
  ]

  -- The blob that a folded document serves is the one that the newest event with a blob introduced:
  -- a later upload replaces it, and no other event, the pruning of a blob included, moves it.
  pub current_blob-eq-newest :
      (state : Option (DocumentState x)) (log : Log x) {t : Option (DocumentState x)}
      → fold_from state log ≡ ok t
      → served_blob t ≡ newest_blob (served_blob state) log
  unfolding fold_from newest_blob
  current_blob-eq-newest state [] h = ground arith
  current_blob-eq-newest state ((seq, e) ∷ log) h = elim (Result-cases (apply state e seq)) [
    | inl (s, q) ↦
        current_blob-eq-newest (some s) log (rw (q, fold_from) at h)
        ∙ ap (λ b. newest_blob b log) (apply-blob state e seq q)
    | inr (f, q) ↦ absurd (ground arith)
  ]
