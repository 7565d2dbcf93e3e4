-- ===== src/Chat/Events/History.antt =====
-- The log of the in-memory bus: numbered without a gap, and read back by number.
use delphi.Base.{
  ℕ, ◌+◌, ◌%◌, ◌^◌, ◌<◌, ◌≡◌, refl, ap, ◌∙◌, inl, inr, ◌&&◌, some, List, [], ◌∷◌, ◌++◌, Text, ok,
  same, decimal, parse_u64, parse_u64-decimal, keep, leb, length, length-append, if◌then◌else◌,
  arith, Bool-cases,
}
use delphi.Platform.{Platform}
use delphi.Chat.Contracts.{ChatEventEnvelope}
use delphi.Chat.Locks.{lock_key}
use delphi.Chat.Events.{
  SequencedChatEvent, EventBus, Replay, new_bus, or_no_turns, is_replay_index_event,
  update_in_memory_replay, publish_event, replay_events, within, is_of,
}
use delphi.Chat.Events.Indexes.{IsIndex, IsIndex-later, apply_replay_event-IsIndex}

module _ {x : Platform} where
  -- The events are numbered one after another, from the number after `n`.
  abbrev pub Numbered : ℕ → List (SequencedChatEvent x) → Type 0
  Numbered n [] = Unit {0}
  Numbered n (event ∷ log) = (event.event_id ≡ decimal (n + 1)) × Numbered (n + 1) log

  pub record IsValid (bus : EventBus x) : Type 0 where
    pub counted : bus.next_event_sequence ≡ length bus.event_log
    pub bounded : bus.next_event_sequence < 2 ^ 64
    pub numbered : Numbered 0 bus.event_log
    pub indexes : (key : Text) → IsIndex bus.next_event_sequence (or_no_turns (bus.replay key))

  Numbered-snoc :
      (n : ℕ) (log : List (SequencedChatEvent x)) (event : SequencedChatEvent x)
      → Numbered n log
      → event.event_id ≡ decimal (n + length log + 1)
      → Numbered n (log ++ event ∷ [])
  Numbered-snoc n [] event h e = (e ∙ ap decimal (omega arith), tt)
  Numbered-snoc n (first ∷ log) event h e =
      (h.0, Numbered-snoc (n + 1) log event h.1 (e ∙ ap decimal (omega arith)))

  update-IsIndex :
      (envelope : ChatEventEnvelope x) (replay : Replay) (head sequence : ℕ)
      → head < sequence
      → ((key : Text) → IsIndex head (or_no_turns (replay key)))
      → (key : Text)
      → IsIndex sequence (or_no_turns (update_in_memory_replay envelope sequence replay key))
  unfolding update_in_memory_replay
  update-IsIndex envelope replay head sequence h v key =
      elim (Bool-cases (is_replay_index_event envelope.event)) [
        | inr q ↦ rw q (IsIndex-later envelope.turn_id head sequence h _ (v key))
        | inl q ↦
            elim (Bool-cases (same (lock_key envelope.tenant_id envelope.conversation_id) key)) [
              | inr r ↦ rw (q, r) (IsIndex-later envelope.turn_id head sequence h _ (v key))
              | inl r ↦
                  rw (q, r)
                    (apply_replay_event-IsIndex envelope.turn_id head sequence h _
                      (v (lock_key envelope.tenant_id envelope.conversation_id)) envelope.event)
            ]
      ]

  pub new_bus-IsValid : IsValid (new_bus x)
  new_bus-IsValid = record {
    counted = refl;
    bounded = omega arith;
    numbered = tt;
    indexes = λ key. record { previous = tt; current = tt; ordered = tt };
  }

  -- Publishing keeps the bus in order, as long as a sequence is left: the latest sequence counts the
  -- events, the log holds them numbered from one on without a gap, and the index of every
  -- conversation names a current turn and another turn before it, each with a start that was given
  -- out and, if it ended, an end after its start.
  pub publish_event-IsValid :
      (envelope : ChatEventEnvelope x) (bus : EventBus x)
      → bus.next_event_sequence + 1 < 2 ^ 64
      → IsValid bus
      → IsValid (publish_event envelope bus).1
  unfolding publish_event
  publish_event-IsValid envelope bus room v =
      let e : (bus.next_event_sequence + 1) % 2 ^ 64 ≡ bus.next_event_sequence + 1 = omega arith in
      rw e (record {
        counted = omega (
          arith,
          v.counted,
          length-append bus.event_log (
              record { event_id = decimal (bus.next_event_sequence + 1); envelope = envelope }
              ∷ []),
        );
        bounded = room;
        numbered =
            Numbered-snoc 0 bus.event_log
              (record { event_id = decimal (bus.next_event_sequence + 1); envelope = envelope })
              v.numbered (ap decimal (omega (arith, v.counted)));
        indexes =
            update-IsIndex envelope bus.replay bus.next_event_sequence (bus.next_event_sequence + 1)
              (omega arith) v.indexes;
      })

  -- The events of a conversation whose numbers lie between two others, where the first event of the
  -- list has the number after `n`.
  abbrev pub between :
      Text → Text → ℕ → ℕ → ℕ → List (SequencedChatEvent x) → List (SequencedChatEvent x)
  between t c first last n [] = []
  between t c first last n (event ∷ log) =
      if leb first (n + 1) && leb (n + 1) last && is_of t c event.envelope
      then event ∷ between t c first last (n + 1) log
      else between t c first last (n + 1) log

  keep-between :
      (t c : Text) (first last n : ℕ) (log : List (SequencedChatEvent x))
      → Numbered n log
      → n + length log < 2 ^ 64
      → keep (λ event. within first last (parse_u64 event.event_id) && is_of t c event.envelope) log
        ≡ between t c first last n log
  keep-between t c first last n [] h b = refl
  keep-between t c first last n (event ∷ log) (e, h) b =
      let p : parse_u64 event.event_id ≡ some (n + 1) =
        rw e (parse_u64-decimal (n + 1) (omega arith)) in
      ground (arith, p, keep-between t c first last (n + 1) log h)

  pub replay_events-between :
      (t c : Text) (first last : ℕ) (bus : EventBus x)
      → IsValid bus
      → replay_events t c first last bus ≡ (ok (between t c first last 0 bus.event_log), bus)
  unfolding replay_events
  replay_events-between t c first last bus v =
      rw
        (keep-between t c first last 0 bus.event_log v.numbered
          (omega (arith, v.counted, v.bounded)))
        refl
