-- ===== src/App/Memory.antt =====
-- crates/document-app/src/testing.rs: the in-memory event store, the reference implementation of the
-- `EventStore` port. It deduplicates on the event id before it looks at the expected sequence, as
-- JetStream does. The maps are functions; a lock is held for the whole of each call.
pub mod Streams
pub mod Retries
use delphi.Base.{
  ℕ, ◌+◌, ◌-◌, Bool, true, false, not, ◌&&◌, Option, none, some, List, [], ◌∷◌, ◌++◌, Text, codes,
  Result, ok, err, Action, same, ltb, ◌==◌, last?, find, if◌then◌else◌,
}
use delphi.Platform.{Platform}
use delphi.Domain.Events.{DocumentEvent}
use delphi.Domain.Fold.{Log}
use delphi.App.Errors.{EventStoreError, conflict, unavailable}
use delphi.App.Ports.{EventStore, Expect, create_only, exactly, Appended}

pub record EventStoreState (x : Platform) : Type 0 where
  -- by tenant and document
  pub streams : Text → Text → Option (Log x)
  -- by tenant, document and event id: the sequence at which the event landed
  pub seen : Text → Text → Text → Option ℕ
  pub head : ℕ
  pub conflicts_remaining : ℕ
  pub always_conflict : Bool
  pub is_unavailable : Bool

abbrev pub expected_seq : Expect → ℕ
expected_seq create_only = 0
expected_seq (exactly seq) = seq

abbrev pub put_seen :
    Text → Text → Text → ℕ → (Text → Text → Text → Option ℕ) → Text → Text → Text → Option ℕ
put_seen t d i seq old t' d' i' =
    if same t t' && (same d d' && same i i') then some seq else old t' d' i'

module _ {x : Platform} where
  -- `.cloned().unwrap_or_default()`
  abbrev pub or_empty : Option (Log x) → Log x
  or_empty none = []
  or_empty (some log) = log

  abbrev pub seq_of : Option (ℕ × DocumentEvent x) → ℕ
  seq_of none = 0
  seq_of (some (seq, event)) = seq

  -- `last_seq`
  abbrev pub last_seq : Option (Log x) → ℕ
  last_seq log = seq_of (last? (or_empty log))

  abbrev pub version_or : Option (ℕ × DocumentEvent x) → ℕ → ℕ
  version_or none v = v
  version_or (some (seq, event)) v = event.version

  -- The version of the event that stands at the sequence, or that of the new event.
  unfoldable pub version_at : Option (Log x) → ℕ → ℕ → ℕ
  version_at log seq v = version_or (find (λ entry. entry.0 == seq) (or_empty log)) v

  abbrev pub put_stream :
      Text → Text → Log x → (Text → Text → Option (Log x)) → Text → Text → Option (Log x)
  put_stream t d log old t' d' = if same t t' && same d d' then some log else old t' d'

  -- The write itself: the new event at the next sequence.
  unfoldable pub land : DocumentEvent x → EventStoreState x → EventStoreState x
  land e s = record s {
    head = s.head + 1;
    seen = put_seen e.tenant_id e.document_id e.event_id (s.head + 1) s.seen;
    streams =
        put_stream e.tenant_id e.document_id
          (or_empty (s.streams e.tenant_id e.document_id) ++ (s.head + 1, e) ∷ []) s.streams;
  }

  -- The part behind the dedupe: injected conflicts, the expected sequence, and the write.
  unfoldable pub append_new :
      DocumentEvent x → Expect → Action (EventStoreState x) (Result EventStoreError Appended)
  unfolding land
  append_new e expect s =
      if s.always_conflict
      then (err conflict, s)
      else if ltb 0 s.conflicts_remaining
      then (err conflict, record s { conflicts_remaining = s.conflicts_remaining - 1 })
      else if not (last_seq (s.streams e.tenant_id e.document_id) == expected_seq expect)
      then (err conflict, s)
      else (
        ok (record { stream_seq = s.head + 1; version = e.version; duplicate = false }),
        land e s,
      )

  unfoldable pub append_seen :
      Option ℕ
      → DocumentEvent x
      → Expect
      → Action (EventStoreState x) (Result EventStoreError Appended)
  unfolding append_new version_at
  append_seen (some seq) e expect s = (
    ok (record {
      stream_seq = seq;
      version = version_at (s.streams e.tenant_id e.document_id) seq e.version;
      duplicate = true;
    }),
    s,
  )
  append_seen none e expect s = append_new e expect s

  unfoldable pub append :
      DocumentEvent x → Expect → Action (EventStoreState x) (Result EventStoreError Appended)
  unfolding append_seen
  append e expect s =
      if s.is_unavailable
      then (err (unavailable (codes "injected")), s)
      else append_seen (s.seen e.tenant_id e.document_id e.event_id) e expect s

  -- `.map(|(seq, event)| (event.version, *seq))`
  abbrev pub position : Option (ℕ × DocumentEvent x) → Option (ℕ × ℕ)
  position none = none
  position (some (seq, event)) = some (event.version, seq)

  unfoldable pub last :
      Text → Text → Action (EventStoreState x) (Result EventStoreError (Option (ℕ × ℕ)))
  last t d s =
      if s.is_unavailable
      then (err (unavailable (codes "injected")), s)
      else (ok (position (last? (or_empty (s.streams t d)))), s)

  unfoldable pub read_stream :
      Text → Text → Action (EventStoreState x) (Result EventStoreError (Log x))
  read_stream t d s =
      if s.is_unavailable
      then (err (unavailable (codes "injected")), s)
      else (ok (or_empty (s.streams t d)), s)

  abbrev pub memory_event_store : EventStore x (EventStoreState x)
  memory_event_store = record { append = append; last = last; read_stream = read_stream }
