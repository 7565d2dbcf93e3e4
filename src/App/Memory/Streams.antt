-- ===== src/App/Memory/Streams.antt =====
-- The log of the in-memory event store: what an append does on every branch, and the invariant of
-- the sequences.
use delphi.Base.{
  ℕ, ◌+◌, ◌≤◌, ◌<◌, ◌≡◌, refl, inl, inr, ◌&&◌, true, false, none, some, [], ◌∷◌, ◌++◌, Text, Result,
  ok, err, arith, same, same_iff, All, All-append, Bool-cases,
}
use mathlib.Core.Path.{subst}
use delphi.Platform.{Platform}
use delphi.Domain.Events.{DocumentEvent}
use delphi.Domain.Fold.{Log}
use delphi.App.Errors.{EventStoreError}
use delphi.App.Ports.{Expect, Appended}
use delphi.App.Memory.{EventStoreState, or_empty, last_seq, expected_seq, land, append}

hit_eq : (a b t d : Text) → (same a t && same b d) ≡ true → (a ≡ t) × (b ≡ d)
hit_eq a b t d h = (ground (arith, same_iff a t), ground (arith, same_iff b d))

module _ {x : Platform} where
  abbrev pub stream : EventStoreState x → Text → Text → Log x
  stream s t d = or_empty (s.streams t d)

  landed_case :
      (e : DocumentEvent x) (expect : Expect) (s s' : EventStoreState x) (a : Appended)
      → append e expect s ≡ (ok a, s')
      → a.duplicate ≡ false
      → (s.seen e.tenant_id e.document_id e.event_id ≡ none)
        × (last_seq (s.streams e.tenant_id e.document_id) ≡ expected_seq expect)
        × (a.stream_seq ≡ s.head + 1)
        × (a.version ≡ e.version)
        × (s' ≡ land e s)
  unfolding append
  landed_case e expect s s' a h d = ground arith

  -- Every way that an append can end. A write happens only for an event id that the store has not
  -- seen, at the sequence that the caller expects, and adds the event at the end of its stream; a
  -- redelivery is answered with the sequence of its first delivery and changes nothing; a failure
  -- leaves the streams, the ids and the head alone.
  pub append_cases :
      (e : DocumentEvent x) (expect : Expect) (s s' : EventStoreState x)
      → ((a : Appended)
          → append e expect s ≡ (ok a, s')
          → a.duplicate ≡ false
          → (s.seen e.tenant_id e.document_id e.event_id ≡ none)
            × (last_seq (s.streams e.tenant_id e.document_id) ≡ expected_seq expect)
            × (a.stream_seq ≡ s.head + 1)
            × (a.version ≡ e.version)
            × (s' ≡ land e s))
        × ((a : Appended)
            → append e expect s ≡ (ok a, s')
            → a.duplicate ≡ true
            → (s.seen e.tenant_id e.document_id e.event_id ≡ some a.stream_seq) × (s' ≡ s))
        × ((error : EventStoreError)
            → append e expect s ≡ (err error, s')
            → (s'.streams ≡ s.streams) × (s'.seen ≡ s.seen) × (s'.head ≡ s.head))
  unfolding append
  append_cases e expect s s' =
      (λ a h d. landed_case e expect s s' a h d, λ a h d. ground arith, λ error h. ground arith)

  abbrev pub Ascending : Log x → Type 0
  Ascending [] = Unit
  Ascending (entry ∷ log) = All (λ later. entry.0 < later.0) log × Ascending log

  -- An entry of the stream of `t` and `d`: its sequence was given out, and its id is remembered.
  abbrev pub IsEntry : EventStoreState x → Text → Text → ℕ × DocumentEvent x → Type 0
  IsEntry s t d entry =
      (1 ≤ entry.0)
      × (entry.0 ≤ s.head)
      × (entry.1.tenant_id ≡ t)
      × (entry.1.document_id ≡ d)
      × (s.seen t d entry.1.event_id ≡ some entry.0)

  pub record IsValid (s : EventStoreState x) : Type 0 where
    pub ascending : (t d : Text) → Ascending (stream s t d)
    pub entries : (t d : Text) → All (IsEntry s t d) (stream s t d)

  Ascending-snoc :
      (log : Log x) (n : ℕ) (e : DocumentEvent x)
      → Ascending log
      → All (λ entry. entry.0 < n) log
      → Ascending (log ++ (n, e) ∷ [])
  Ascending-snoc [] n e h k = (tt, tt)
  Ascending-snoc (entry ∷ log) n e h k = (
    All-append (λ later. entry.0 < later.0) log ((n, e) ∷ []) h.0 (k.0, tt),
    Ascending-snoc log n e h.1 k.1,
  )

  All-map :
      {P R : ℕ × DocumentEvent x → Type 0} (log : Log x)
      → ((entry : ℕ × DocumentEvent x) → P entry → R entry)
      → All P log
      → All R log
  All-map [] h k = tt
  All-map (entry ∷ log) h k = (h entry k.0, All-map log h k.1)

  -- The stream of a key after a write.
  stream-land_hit :
      (e : DocumentEvent x) (s : EventStoreState x)
      → stream (land e s) e.tenant_id e.document_id
        ≡ stream s e.tenant_id e.document_id ++ (s.head + 1, e) ∷ []
  unfolding land
  stream-land_hit e s =
      ground (arith, same_iff e.tenant_id e.tenant_id, same_iff e.document_id e.document_id)

  -- The entries of a stream stay entries after a write of an event that was not seen.
  IsEntry-land :
      (e : DocumentEvent x) (s : EventStoreState x) (t d : Text) (entry : ℕ × DocumentEvent x)
      → s.seen e.tenant_id e.document_id e.event_id ≡ none
      → IsEntry s t d entry
      → IsEntry (land e s) t d entry
  unfolding land
  IsEntry-land e s t d entry new (lo, hi, t_eq, d_eq, known) = (
    lo,
    omega arith,
    t_eq,
    d_eq,
    ground (
      arith,
      same_iff e.tenant_id t,
      same_iff e.document_id d,
      same_iff e.event_id entry.1.event_id,
    ),
  )

  IsEntry-landed :
      (e : DocumentEvent x) (s : EventStoreState x)
      → IsEntry (land e s) e.tenant_id e.document_id (s.head + 1, e)
  unfolding land
  IsEntry-landed e s = ground (
    arith,
    same_iff e.tenant_id e.tenant_id,
    same_iff e.document_id e.document_id,
    same_iff e.event_id e.event_id,
  )

  stream-land_miss :
      (e : DocumentEvent x) (s : EventStoreState x) (t d : Text)
      → (same e.tenant_id t && same e.document_id d) ≡ false
      → stream (land e s) t d ≡ stream s t d
  unfolding land
  stream-land_miss e s t d h = ground arith

  -- A predicate of streams that holds of every old stream and of the one with the new entry.
  land-inv :
      (P : Text → Text → Log x → Type 0) (e : DocumentEvent x) (s : EventStoreState x)
      → ((t d : Text) → P t d (stream s t d))
      → P e.tenant_id e.document_id (stream s e.tenant_id e.document_id ++ (s.head + 1, e) ∷ [])
      → (t d : Text) → P t d (stream (land e s) t d)
  land-inv P e s old new t d = elim (Bool-cases (same e.tenant_id t && same e.document_id d)) [
    | inr miss ↦ rw (stream-land_miss e s t d miss) (old t d)
    | inl hit ↦
        let (p, q) = hit_eq e.tenant_id e.document_id t d hit in
        subst (λ t'. P t' d (stream (land e s) t' d)) p
          (subst (λ d'. P e.tenant_id d' (stream (land e s) e.tenant_id d')) q
            (rw (stream-land_hit e s) new))
  ]

  land-IsValid :
      (e : DocumentEvent x) (s : EventStoreState x)
      → s.seen e.tenant_id e.document_id e.event_id ≡ none
      → IsValid s
      → IsValid (land e s)
  land-IsValid e s new v = record {
    ascending =
        land-inv (λ t d log. Ascending log) e s v.ascending
          (Ascending-snoc (stream s e.tenant_id e.document_id) (s.head + 1) e
            (v.ascending e.tenant_id e.document_id)
            (All-map (stream s e.tenant_id e.document_id) (λ entry h. omega (arith, h.1))
              (v.entries e.tenant_id e.document_id)));
    entries =
        land-inv (λ t d log. All (IsEntry (land e s) t d) log) e s
          (λ t d. All-map (stream s t d) (λ entry. IsEntry-land e s t d entry new) (v.entries t d))
          (All-append (IsEntry (land e s) e.tenant_id e.document_id)
            (stream s e.tenant_id e.document_id) ((s.head + 1, e) ∷ [])
            (All-map (stream s e.tenant_id e.document_id)
              (λ entry. IsEntry-land e s e.tenant_id e.document_id entry new)
              (v.entries e.tenant_id e.document_id))
            (IsEntry-landed e s, tt));
  }

  -- The streams decide the invariant together with the ids and the head.
  IsValid-same :
      (s s' : EventStoreState x)
      → s'.streams ≡ s.streams
      → s'.seen ≡ s.seen
      → s'.head ≡ s.head
      → IsValid s
      → IsValid s'
  IsValid-same s s' p q r v = record {
    ascending = λ t d. rw p (v.ascending t d);
    entries = λ t d. rw (p, q, r) (v.entries t d);
  }

  -- Every append keeps the invariant: in each stream the sequences ascend and were given out, every
  -- event is under its own tenant and document, and every stored event is known by its id.
  pub append-IsValid :
      (e : DocumentEvent x) (expect : Expect) (s : EventStoreState x)
      → IsValid s
      → IsValid (append e expect s).1
  append-IsValid e expect s v = split (append e expect s).0 (append e expect s).1 refl
    where
      split :
          (r : Result EventStoreError Appended) (s' : EventStoreState x)
          → append e expect s ≡ (r, s')
          → IsValid s'
      split (err error) s' h =
          let (p, q, k) = (append_cases e expect s s').2 error h in IsValid-same s s' p q k v
      split (ok a) s' h = elim (Bool-cases a.duplicate) [
        | inl dup ↦ rw (((append_cases e expect s s').1 a h dup).1) v
        | inr fresh ↦
            let (new, at, seq, version, done) = (append_cases e expect s s').0 a h fresh in
            rw done (land-IsValid e s new v)
      ]
