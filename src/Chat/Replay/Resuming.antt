-- ===== src/Chat/Replay/Resuming.antt =====
-- A client that comes back with the last event it saw is sent what it missed, each event once.
use delphi.Base.{
  ℕ, ◌+◌, ◌≤◌, ◌≡◌, refl, sym, ap, ◌∙◌, inl, inr, true, Option, none, some, List, map, keep, Text,
  ok, parse_u64, length, leb, le→leb, arith, Bool-cases, Option-cases, ok_inj, Result-cases,
}
use delphi.Platform.{Platform}
use delphi.Chat.Contracts.{ConversationDetail}
use delphi.Chat.Locks.{lock_key}
use delphi.Chat.Events.{
  ReplayTurn, ReplayIndex, SequencedChatEvent, EventBus, or_no_turns, load_replay_index,
  latest_event_sequence,
}
use delphi.Chat.Events.Indexes.{IsIndex, InOrder}
use delphi.Chat.Events.History.{IsValid, between, replay_events-between}
use delphi.Chat.Replay.{
  ReplayPlan, ReplayRange, memory_bus, or_else, turn_contains_sequence, contains_in, after_range,
  end_of, end_from_previous, required_from_previous, resume_range, replay_range,
  replay_is_incomplete, plan_of, plan_range, build_replay_plan,
}
use delphi.Chat.Replay.Sending.{message_of, send_events}
use delphi.Chat.Replay.Missed.{by_user, between-empty, send_events-between, missed}

resume_range_running :
    (index : ReplayIndex) (k latest : ℕ) (turn : ReplayTurn)
    → index.current_turn ≡ some turn
    → turn.end_seq ≡ none
    → turn.start_seq ≤ k
    → k ≤ latest
    → resume_range index k latest ≡ ok (after_range k latest none)
unfolding resume_range turn_contains_sequence
resume_range_running index k latest turn current running lo hi =
    rw (current, running, le→leb turn.start_seq k lo, le→leb k latest hi) refl

end_from_previous_current :
    (k latest : ℕ) (previous current : Option ReplayTurn)
    → InOrder previous current
    → contains_in previous k latest ≡ true
    → end_from_previous latest previous current ≡ or_else latest (end_of current)
end_from_previous_current k latest none current o h = absurd (cc)
end_from_previous_current k latest (some turn) none o h = absurd o
end_from_previous_current k latest (some turn) (some later) o h = refl

resume_range_cases :
    (index : ReplayIndex) (k latest : ℕ) (r : Option ReplayRange)
    → InOrder index.previous_turn index.current_turn
    → resume_range index k latest ≡ ok r
    → (required : Option ℕ) × (r
        ≡ after_range k (or_else latest (end_of index.current_turn)) required)
unfolding resume_range
resume_range_cases index k latest r o h =
    elim (Bool-cases (contains_in index.current_turn k latest)) [
      | inl q ↦ (end_of index.current_turn, sym (ok_inj (rw q at h)))
      | inr q ↦ elim (Bool-cases (contains_in index.previous_turn k latest)) [
        | inl p ↦ (
          required_from_previous index.previous_turn index.current_turn,
          rw (← end_from_previous_current k latest index.previous_turn index.current_turn o p)
              (sym (ok_inj (rw (q, p) at h))),
        )
        | inr p ↦ absurd (ground arith)
      ]
    ]

module _ {x : Platform} where
  -- Without a required start, the events that are read make the plan.
  plan_of_ok :
      (range : ReplayRange) (events : List (SequencedChatEvent x)) (plan : ReplayPlan x)
      → plan_of range events ≡ ok plan
      → plan ≡ record { events = events; last_seen_sequence = range.last_seen_sequence }
  unfolding plan_of
  plan_of_ok range events plan h = elim (Bool-cases (replay_is_incomplete events range)) [
    | inl q ↦ absurd (ground arith)
    | inr q ↦ sym (ok_inj (rw q at h))
  ]

  after_range_plan :
      (t c last_event : Text) (k end_seq : ℕ) (required : Option ℕ) (bus : EventBus x)
      (plan : ReplayPlan x)
      → IsValid bus
      → parse_u64 last_event ≡ some k
      → (plan_range
          (memory_bus x)
          t
          c
          (some last_event)
          (ok (after_range k end_seq required))
          bus).0
        ≡ ok plan
      → plan
        ≡ record { events = between t c (k + 1) end_seq 0 bus.event_log; last_seen_sequence = k }
  unfolding plan_range after_range
  after_range_plan t c last_event k end_seq required bus plan v e h =
      elim (Bool-cases (leb end_seq k)) [
        | inl q ↦
            sym (ok_inj (rw (q, e) at h))
            ∙ ap (λ events. record { events = events; last_seen_sequence = k })
                (sym (between-empty t c (k + 1) end_seq 0 bus.event_log (ground arith)))
        | inr q ↦
            plan_of_ok
              (record {
                start_seq = k + 1;
                end_seq = end_seq;
                last_seen_sequence = k;
                required_start_seq = none;
                required_end_seq = required;
              })
              (between t c (k + 1) end_seq 0 bus.event_log) plan
              (rw (q, replay_events-between t c (k + 1) end_seq bus v) at h)
      ]

  ordered_at :
      (bus : EventBus x) (key : Text) (index : ReplayIndex)
      → bus.replay key ≡ some index
      → IsValid bus
      → InOrder index.previous_turn index.current_turn
  ordered_at bus key index q v =
      let here : IsIndex bus.next_event_sequence (or_no_turns (bus.replay key)) = v.indexes key in
      let at_index : IsIndex bus.next_event_sequence index = rw q at here in at_index.ordered

  -- The end of the plan from an index, whose turns are in order.
  plan_range-missed :
      (t c last_event : Text) (k latest : ℕ) (bus : EventBus x) (index : ReplayIndex)
      (plan : ReplayPlan x)
      → IsValid bus
      → InOrder index.previous_turn index.current_turn
      → parse_u64 last_event ≡ some k
      → (plan_range (memory_bus x) t c (some last_event) (resume_range index k latest) bus).0
        ≡ ok plan
      → plan ≡ record {
        events = between t c (k + 1) (or_else latest (end_of index.current_turn)) 0 bus.event_log;
        last_seen_sequence = k;
      }
  unfolding plan_range
  plan_range-missed t c last_event k latest bus index plan v o e h =
      elim (Result-cases (resume_range index k latest)) [
        | inr (error, q) ↦ absurd (ground arith)
        | inl (range, q) ↦
            let (required, r) = resume_range_cases index k latest range o q in
            after_range_plan t c last_event k (or_else latest (end_of index.current_turn)) required
              bus plan v e (rw (q, r) at h)
      ]

  build_replay_plan-missed :
      (t c last_event : Text) (k : ℕ) (conversation : ConversationDetail x) (bus : EventBus x)
      (plan : ReplayPlan x)
      → IsValid bus
      → parse_u64 last_event ≡ some k
      → (build_replay_plan (memory_bus x) t c (some last_event) conversation bus).0 ≡ ok plan
      → plan ≡ record { events = missed bus t c k; last_seen_sequence = k }
  unfolding build_replay_plan load_replay_index latest_event_sequence replay_range
  build_replay_plan-missed t c last_event k conversation bus plan v e h =
      elim (Option-cases (bus.replay (lock_key t c))) [
        | inl q ↦ absurd (ground arith)
        | inr (index, q) ↦ rw q (
            plan_range-missed t c last_event k bus.next_event_sequence bus index plan v
              (ordered_at bus (lock_key t c) index q v) e
              (rw (build_replay_plan, q, replay_range, e) at h))
      ]

  -- A client that comes back with the sequence of the last event that it saw, on an in-memory bus
  -- that is in order, into a queue with room for the plan: where it is given a plan at all, it is
  -- sent exactly the events of its own user in the conversation that were published after that one,
  -- up to the end of the current turn or, while that runs, up to the latest, each once and in order.
  pub resume_sends_missed :
      (user t c last_event : Text) (k room : ℕ) (conversation : ConversationDetail x)
      (bus : EventBus x) (plan : ReplayPlan x)
      → IsValid bus
      → parse_u64 last_event ≡ some k
      → (build_replay_plan (memory_bus x) t c (some last_event) conversation bus).0 ≡ ok plan
      → length plan.events ≤ room
      → (final : ℕ) × (send_events user c room plan.last_seen_sequence plan.events
          ≡ some (map (message_of c) (keep (by_user user) (missed bus t c k)), final))
  resume_sends_missed user t c last_event k room conversation bus plan v e h r =
      let p = build_replay_plan-missed t c last_event k conversation bus plan v e h in
      rw p (
        send_events-between user t c (k + 1)
          (or_else bus.next_event_sequence
            (end_of (or_no_turns (bus.replay (lock_key t c))).current_turn))
          0 k room bus.event_log v.numbered (omega (arith, v.counted, v.bounded))
          (inl (omega arith)) (rw p at r))

  -- With no end to reach, whatever is read makes the plan.
  plan_open :
      (t c last_event : Text) (k end_seq : ℕ) (bus : EventBus x)
      → IsValid bus
      → parse_u64 last_event ≡ some k
      → plan_range (memory_bus x) t c (some last_event) (ok (after_range k end_seq none)) bus ≡ (
        ok (record {
          events = between t c (k + 1) end_seq 0 bus.event_log;
          last_seen_sequence = k;
        }),
        bus,
      )
  unfolding plan_range after_range plan_of replay_is_incomplete
  plan_open t c last_event k end_seq bus v e = elim (Bool-cases (leb end_seq k)) [
    | inl q ↦ rw (q, e, between-empty t c (k + 1) end_seq 0 bus.event_log (ground arith)) refl
    | inr q ↦ rw (q, replay_events-between t c (k + 1) end_seq bus v) refl
  ]

  -- A client that comes back while a turn runs, with the sequence of an event from the start of
  -- that turn on, always gets a plan, and the plan holds every event of the conversation that was
  -- published after that one.
  pub resume_running :
      (t c last_event : Text) (k : ℕ) (conversation : ConversationDetail x) (bus : EventBus x)
      (index : ReplayIndex) (turn : ReplayTurn)
      → IsValid bus
      → parse_u64 last_event ≡ some k
      → bus.replay (lock_key t c) ≡ some index
      → index.current_turn ≡ some turn
      → turn.end_seq ≡ none
      → turn.start_seq ≤ k
      → k ≤ bus.next_event_sequence
      → build_replay_plan (memory_bus x) t c (some last_event) conversation bus ≡ (
        ok (record {
          events = between t c (k + 1) bus.next_event_sequence 0 bus.event_log;
          last_seen_sequence = k;
        }),
        bus,
      )
  unfolding build_replay_plan load_replay_index latest_event_sequence replay_range
  resume_running t c last_event k conversation bus index turn v e q current running lo hi =
      rw (q, e, resume_range_running index k bus.next_event_sequence turn current running lo hi)
        (plan_open t c last_event k bus.next_event_sequence bus v e)
