-- ===== src/Domain/Fold/History.antt =====
-- Folding a whole log (`fold_history` of crates/document-app/src/worker.rs, and the projection
-- loop, which folds the same events one by one).
use delphi.Base.{
  ℕ, ◌≡◌, refl, inl, inr, Option, none, some, [], ◌∷◌, ◌++◌, Result, ok, err, arith, Result-cases,
  All, sym, ◌∙◌, Text,
}
use delphi.Platform.{Platform}
use delphi.Domain.Events.{
  user, DocumentEventPayload, DocumentEvent, DocumentCreated, document_created,
}
use delphi.Domain.Fold.{
  DocumentState, FoldError, Log, apply, fold_from, fold_payload, fold_update, deleted,
}
use delphi.Domain.Fold.Laws.{
  Refused, mismatch, by_system, no_prior, apply-eq-err_iff, IsStamped, Keeps, IsCreate,
  apply-IsStamped, apply-IsSeeded, apply-eq-fold_payload, fold_update-Keeps,
}

module _ {x : Platform} where
  abbrev pub continue_fold :
      Result FoldError (Option (DocumentState x))
      → Log x
      → Result FoldError (Option (DocumentState x))
  continue_fold (ok state) log = fold_from state log
  continue_fold (err f) log = err f

  -- Folding a log in two parts is folding it at once: a projection that has folded a prefix and
  -- goes on from its row reaches the state that a rebuild from the whole log reaches.
  fold_from-append :
      (state : Option (DocumentState x)) (h k : Log x)
      → fold_from state (h ++ k) ≡ continue_fold (fold_from state h) k
  unfolding fold_from
  fold_from-append state [] k = refl
  fold_from-append state ((seq, e) ∷ h) k = elim (Result-cases (apply state e seq)) [
    | inl (s, q) ↦ rw (q, fold_from) (fold_from-append (some s) h k)
    | inr (f, q) ↦ rw (q, fold_from)
  ]

  last_of :
      (r : Result FoldError (Option (DocumentState x))) (seq : ℕ) (e : DocumentEvent x)
      {t : Option (DocumentState x)}
      → continue_fold r ((seq, e) ∷ []) ≡ ok t
      → (s : DocumentState x) × (t ≡ some s) × IsStamped e seq s
  unfolding fold_from
  last_of (err f) seq e h = absurd (cc)
  last_of (ok state) seq e h = elim (Result-cases (apply state e seq)) [
    | inl (s, q) ↦ (s, ground arith, apply-IsStamped state e seq q)
    | inr (f, q) ↦ absurd (ground arith)
  ]

  -- A create, or any other event.
  abbrev pub IsUpdate : DocumentEvent x → Type 0
  IsUpdate e = ¬ IsCreate e.payload

  -- The state after an update, before the payload's own changes.
  abbrev pub stamp : DocumentState x → DocumentEvent x → ℕ → DocumentState x
  stamp s e seq = record s { version = e.version; stream_seq = seq; updated_at = e.ts }

  fold_payload_update :
      (p : DocumentEventPayload x) (s : DocumentState x) (e : DocumentEvent x) (seq : ℕ)
      → e.payload ≡ p
      → ¬ IsCreate p
      → fold_payload p (some s) e seq ≡ ok (fold_update p (stamp s e seq))
  unfolding fold_payload
  fold_payload_update (document_created c) s e seq q h = absurd (h tt)
  fold_payload_update p s e seq q h = rw q

  pub apply_update :
      (s : DocumentState x) (e : DocumentEvent x) (seq : ℕ)
      → IsUpdate e
      → s.document_id ≡ e.document_id
      → apply (some s) e seq ≡ ok (fold_update e.payload (stamp s e seq))
  apply_update s e seq h q =
      apply-eq-fold_payload (some s) e seq q ∙ fold_payload_update e.payload s e seq refl h

  -- The events of one document's log after its creation.
  abbrev pub IsTail : Text → Log x → Type 0
  IsTail document = All (λ entry. (entry.1.document_id ≡ document) × IsUpdate entry.1)

  fold_update_stamp-Keeps :
      (p : DocumentEventPayload x) (s : DocumentState x) (e : DocumentEvent x) (seq : ℕ)
      → Keeps s (fold_update p (stamp s e seq))
  fold_update_stamp-Keeps p s e seq = ground (arith, fold_update-Keeps p (stamp s e seq))

  -- What every update keeps holds after a whole tail.
  fold_from_tail_inv :
      (P : DocumentState x → Type 0)
      → ((s : DocumentState x) (e : DocumentEvent x) (seq : ℕ)
          → P s
          → P (fold_update e.payload (stamp s e seq)))
      → (log : Log x) (s : DocumentState x) {t : Option (DocumentState x)}
      → IsTail s.document_id log
      → fold_from (some s) log ≡ ok t
      → P s
      → (r : DocumentState x) × (t ≡ some r) × P r
  unfolding fold_from
  fold_from_tail_inv P keep [] s tail h p = (s, ground arith, p)
  fold_from_tail_inv P keep ((seq, e) ∷ log) s tail h p =
      let s' : DocumentState x = fold_update e.payload (stamp s e seq) in
      fold_from_tail_inv P keep log s'
        (rw ((fold_update_stamp-Keeps e.payload s e seq).document) tail.1)
        (rw (apply_update s e seq tail.0.1 (sym tail.0.0), fold_from) at h) (keep s e seq p)

  fold_update_deleted :
      (p : DocumentEventPayload x) (s : DocumentState x)
      → s.state ≡ deleted
      → (fold_update p s).state ≡ deleted
  unfolding fold_update
  fold_update_deleted p s h = ground arith

  -- A deleted document stays deleted under every later event but a new create.
  fold_from_deleted :
      (log : Log x) (s : DocumentState x) {t : Option (DocumentState x)}
      → s.state ≡ deleted
      → IsTail s.document_id log
      → fold_from (some s) log ≡ ok t
      → (r : DocumentState x) × (t ≡ some r) × (r.state ≡ deleted)
  fold_from_deleted log s gone tail h =
      fold_from_tail_inv (λ r. r.state ≡ deleted)
        (λ r e seq p. fold_update_deleted e.payload (stamp r e seq) p) log s tail h gone

  Keeps_trans : {r s t : DocumentState x} → Keeps r s → Keeps s t → Keeps r t
  Keeps_trans h k = ground arith

  -- From a state of its document every later event folds, and tenant, document, owner and creation
  -- time stay.
  pub fold_from_tail :
      (log : Log x) (s : DocumentState x)
      → IsTail s.document_id log
      → (t : DocumentState x) × (fold_from (some s) log ≡ ok (some t)) × Keeps s t
  unfolding fold_from
  fold_from_tail [] s h = (s, refl, ground arith)
  fold_from_tail ((seq, e) ∷ log) s h =
      let s' : DocumentState x = fold_update e.payload (stamp s e seq) in
      let kept : Keeps s s' = fold_update_stamp-Keeps e.payload s e seq in
      let (t, q, k) = fold_from_tail log s' (rw (kept.document) h.1) in
      (t, rw (apply_update s e seq h.0.1 (sym h.0.0), fold_from) q, Keeps_trans kept k)

  -- The log of a document as the program writes it: a create by a user, then updates.
  abbrev pub IsHistory : Text → Log x → Type 0
  IsHistory document [] = ⊥
  IsHistory document ((seq, e) ∷ log) =
      (e.document_id ≡ document)
      × (c : DocumentCreated x) × (e.payload ≡ document_created c)
      × (u : Text) × (e.actor ≡ user u)
      × IsTail document log

  -- What a folded history says of its first event.
  pub record StartsFrom (e : DocumentEvent x) (t : DocumentState x) : Type 0 where
    pub tenant : t.tenant_id ≡ e.tenant_id
    pub document : t.document_id ≡ e.document_id
    pub owner : e.actor ≡ user t.owner_user_id
    pub created : t.created_at ≡ e.ts

  create_not_Refused :
      (e : DocumentEvent x) (c : DocumentCreated x) (u : Text) {f : FoldError}
      → e.payload ≡ document_created c
      → e.actor ≡ user u
      → ¬ Refused none e f
  create_not_Refused e c u q a (mismatch s r ne k) = cc
  create_not_Refused e c u q a (by_system d component fits r b k) = cc
  create_not_Refused e c u q a (no_prior r h k) = h c q

  apply_create :
      (e : DocumentEvent x) (c : DocumentCreated x) (u : Text) (seq : ℕ)
      → e.payload ≡ document_created c
      → e.actor ≡ user u
      → (t : DocumentState x) × (apply none e seq ≡ ok t) × StartsFrom e t
  apply_create e c u seq q a = elim (Result-cases (apply none e seq)) [
    | inl (t, k) ↦
        (t, k, ground (arith, apply-IsSeeded none e c seq q k, apply-IsStamped none e seq k))
    | inr (f, k) ↦ absurd (create_not_Refused e c u q a ((apply-eq-err_iff none e seq f).0 k))
  ]

  StartsFrom-Keeps :
      {e : DocumentEvent x} {s t : DocumentState x} → StartsFrom e s → Keeps s t → StartsFrom e t
  StartsFrom-Keeps h k = ground arith

  -- The log of a document, created by a user and only updated since, folds: a state comes out, and
  -- its tenant, document, owner and creation time are those of the first event.
  pub fold_from_history :
      (document : Text) (seq : ℕ) (e : DocumentEvent x) (log : Log x)
      → IsHistory document ((seq, e) ∷ log)
      → (t : DocumentState x) × (fold_from none ((seq, e) ∷ log) ≡ ok (some t)) × StartsFrom e t
  unfolding fold_from
  fold_from_history document seq e log (d, c, q, u, a, tail) =
      let (s, k, starts) = apply_create e c u seq q a in
      let (t, r, kept) = fold_from_tail log s (rw (starts.document ∙ d) tail) in
      (t, rw (k, fold_from) r, StartsFrom-Keeps starts kept)

  -- However the log began, the state that it folds to carries the version, the sequence, the time
  -- and the document of its last event.
  pub fold_from_last :
      (state : Option (DocumentState x)) (log : Log x) (seq : ℕ) (e : DocumentEvent x)
      {t : Option (DocumentState x)}
      → fold_from state (log ++ (seq, e) ∷ []) ≡ ok t
      → (s : DocumentState x) × (t ≡ some s) × IsStamped e seq s
  fold_from_last state log seq e h =
      last_of (fold_from state log) seq e (sym (fold_from-append state log ((seq, e) ∷ [])) ∙ h)
