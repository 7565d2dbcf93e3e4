-- ===== src/App/Memory/Retries.antt =====
-- `append_update` over the in-memory event store: the retry on a lost compare-and-swap.
use delphi.Base.{
  ℕ, zero, suc, ◌+◌, ◌<◌, ◌≡◌, refl, false, Option, none, some, Text, ok, err, arith, last?, ◌∙◌,
}
use delphi.Platform.{Platform}
use delphi.Domain.Events.{DocumentEvent}
use delphi.App.Errors.{conflict_retry_exhausted}
use delphi.App.Append.{
  append_update, append_update_rounds, after_last, after_append, next_version, resolve_duplicate,
}
use delphi.App.Memory.{EventStoreState, memory_event_store, land, append, last, position, seq_of}
use delphi.App.Memory.Streams.{stream}

module _ {x : Platform} (t d : Text) (build : ℕ → DocumentEvent x) (v seq : ℕ) where
  -- The store answers, the document is at version `v` and sequence `seq`, and the update that is
  -- built for it is an event of the document that the store has not seen.
  pub record IsReady (s : EventStoreState x) : Type 0 where
    pub available : s.is_unavailable ≡ false
    pub no_storm : s.always_conflict ≡ false
    pub at : position (last? (stream s t d)) ≡ some (v, seq)
    pub tenant : (build (next_version v)).tenant_id ≡ t
    pub document : (build (next_version v)).document_id ≡ d
    pub fresh : s.seen t d (build (next_version v)).event_id ≡ none

  seq_of-position : (o : Option (ℕ × DocumentEvent x)) → position o ≡ some (v, seq) → seq_of o ≡ seq
  seq_of-position none h = cc
  seq_of-position (some (n, e)) h = ground arith

  abbrev pub calm : EventStoreState x → EventStoreState x
  calm s = record s { conflicts_remaining = 0 }

  round_lands :
      (n : ℕ) (s : EventStoreState x)
      → IsReady s
      → s.conflicts_remaining ≡ 0
      → append_update_rounds memory_event_store (suc n) t d none build s ≡ (
        ok (record {
          stream_seq = s.head + 1;
          version = (build (next_version v)).version;
          duplicate = false;
        }),
        land (build (next_version v)) (calm s),
      )
  unfolding append_update_rounds land after_last after_append append last resolve_duplicate
  round_lands n s h k = ground (arith, seq_of-position (last? (stream s t d)))

  round_retries :
      (n k : ℕ) (s : EventStoreState x)
      → IsReady s
      → s.conflicts_remaining ≡ suc k
      → append_update_rounds memory_event_store (suc n) t d none build s
        ≡ append_update_rounds memory_event_store n t d none build
            (record s { conflicts_remaining = k })
  unfolding append_update_rounds after_last after_append append last resolve_duplicate
  round_retries n k s h c = ground arith

  calmer :
      (s : EventStoreState x) (k : ℕ) → IsReady s → IsReady (record s { conflicts_remaining = k })
  calmer s k h = record {
    available = h.available;
    no_storm = h.no_storm;
    at = h.at;
    tenant = h.tenant;
    document = h.document;
    fresh = h.fresh;
  }

  -- The rounds go on past fewer lost swaps than there are rounds, and append once.
  rounds_land :
      (n k : ℕ) (s : EventStoreState x)
      → IsReady s
      → s.conflicts_remaining ≡ k
      → k < n
      → append_update_rounds memory_event_store n t d none build s ≡ (
        ok (record {
          stream_seq = s.head + 1;
          version = (build (next_version v)).version;
          duplicate = false;
        }),
        land (build (next_version v)) (calm s),
      )
  rounds_land zero k s h c lt = elim lt [ ]
  rounds_land (suc n) zero s h c lt = round_lands n s h c
  rounds_land (suc n) (suc k) s h c lt =
      round_retries n k s h c
      ∙ rounds_land n k (record s { conflicts_remaining = k }) (calmer s k h) refl (omega arith)

  rounds_give_up :
      (n k : ℕ) (s : EventStoreState x)
      → IsReady s
      → s.conflicts_remaining ≡ n + k
      → append_update_rounds memory_event_store n t d none build s
        ≡ (err conflict_retry_exhausted, record s { conflicts_remaining = k })
  unfolding append_update_rounds
  rounds_give_up zero k s h c = ground arith
  rounds_give_up (suc n) k s h c =
      round_retries n (n + k) s h (c ∙ omega arith)
      ∙ rounds_give_up n k (record s { conflicts_remaining = n + k }) (calmer s (n + k) h) refl

  -- With the store answering, an update is appended in spite of up to two lost swaps, exactly once
  -- and at the version after the one that was read; and with three or more lost swaps it gives up,
  -- and leaves the streams and the ids as they were.
  pub append_update_retries :
      (k : ℕ) (s : EventStoreState x)
      → IsReady s
      → (s.conflicts_remaining ≡ k
          → k < 3
          → append_update memory_event_store t d none build s ≡ (
            ok (record {
              stream_seq = s.head + 1;
              version = (build (next_version v)).version;
              duplicate = false;
            }),
            land (build (next_version v)) (calm s),
          ))
        × (s.conflicts_remaining ≡ 3 + k
            → append_update memory_event_store t d none build s
              ≡ (err conflict_retry_exhausted, record s { conflicts_remaining = k }))
  unfolding append_update
  append_update_retries k s h = (λ c lt. rounds_land 3 k s h c lt, λ c. rounds_give_up 3 k s h c)
