-- ===== src/Examples/Resuming.antt =====
-- A bus with the events of a running turn, and clients that come back.
use delphi.Base.{
  ℕ, ◌≤◌, ◌≡◌, refl, none, some, [], ◌∷◌, map, ok, arith, codes, same, decimal, parse_u64, keep,
  length,
}
use delphi.Chat.Contracts.{
  ChatEvent, ChatEventEnvelope, ConversationDetail, ServerWsMessage, turn_started, text_delta,
}
use delphi.Chat.Locks.{lock_key}
use delphi.Chat.Events.{
  EventBus, ReplayIndex, ReplayTurn, new_bus, publish_event, replay_events, load_replay_index,
  latest_event_sequence,
}
use delphi.Chat.Events.History.{IsValid, between, new_bus-IsValid, publish_event-IsValid}
use delphi.Chat.Replay.{ReplayPlan, memory_bus, build_replay_plan}
use delphi.Chat.Replay.Sending.{message_of, send_events}
use delphi.Chat.Replay.Missed.{by_user, missed}
use delphi.Chat.Replay.Resuming.{resume_sends_missed, resume_running}
use delphi.Examples.Demo.{demo}

abbrev envelope : ChatEvent → ChatEventEnvelope demo
envelope event = record {
  v = 1;
  tenant_id = codes "t1";
  user_id = codes "u1";
  conversation_id = codes "c1";
  turn_id = codes "turn1";
  ts = 5;
  event = event;
}

abbrev one : EventBus demo
one = (publish_event (envelope (turn_started (codes "turn1"))) (new_bus demo)).1

abbrev two : EventBus demo
two = (publish_event (envelope (text_delta (codes "Hel"))) one).1

abbrev three : EventBus demo
three = (publish_event (envelope (text_delta (codes "lo"))) two).1

one-IsValid : IsValid one
one-IsValid =
    publish_event-IsValid (envelope (turn_started (codes "turn1"))) (new_bus demo) (omega arith)
      new_bus-IsValid

count_one : one.next_event_sequence ≡ 1
unfolding publish_event
count_one = refl

publish_event-IsValid_example : IsValid two
publish_event-IsValid_example =
    publish_event-IsValid (envelope (text_delta (codes "Hel"))) one (omega (arith, count_one))
      one-IsValid

count_two : two.next_event_sequence ≡ 2
unfolding publish_event
count_two = refl

three-IsValid : IsValid three
three-IsValid =
    publish_event-IsValid (envelope (text_delta (codes "lo"))) two (omega (arith, count_two)) (
      publish_event-IsValid (envelope (text_delta (codes "Hel"))) one (omega (arith, count_one))
        one-IsValid)

abbrev conversation : ConversationDetail demo
conversation = record { id = codes "c1"; title = codes "New chat"; messages = []; updated_at = 5 }

abbrev running_turn : ReplayTurn
running_turn = record { turn_id = codes "turn1"; start_seq = 1; end_seq = none }

abbrev index : ReplayIndex
index = record { previous_turn = none; current_turn = some running_turn }

indexed : three.replay (lock_key (codes "t1") (codes "c1")) ≡ some index
unfolding publish_event same
indexed = refl

seen_first : parse_u64 (codes "1") ≡ some 1
unfolding parse_u64
seen_first = refl

count_three : three.next_event_sequence ≡ 3
unfolding publish_event
count_three = refl

resume_running_example :
    build_replay_plan
      (memory_bus demo)
      (codes "t1")
      (codes "c1")
      (some (codes "1"))
      conversation
      three
    ≡ (
      ok (record {
        events = between (codes "t1") (codes "c1") 2 three.next_event_sequence 0 three.event_log;
        last_seen_sequence = 1;
      }),
      three,
    )
resume_running_example =
    resume_running (codes "t1") (codes "c1") (codes "1") 1 conversation three index running_turn
      three-IsValid seen_first indexed refl refl (omega arith) (omega (arith, count_three))

abbrev plan : ReplayPlan demo
plan = record {
  events = between (codes "t1") (codes "c1") 2 three.next_event_sequence 0 three.event_log;
  last_seen_sequence = 1;
}

two_missed : length plan.events ≤ 5
unfolding publish_event same
two_missed = omega arith

planned :
    (build_replay_plan
      (memory_bus demo)
      (codes "t1")
      (codes "c1")
      (some (codes "1"))
      conversation
      three).0
    ≡ ok plan
unfolding build_replay_plan publish_event replay_events load_replay_index latest_event_sequence same
    decimal parse_u64
planned = refl

resume_sends_missed_example :
    (final : ℕ) × (send_events (codes "u1") (codes "c1") 5 plan.last_seen_sequence plan.events
      ≡ some (
        map
            (message_of (codes "c1"))
            (keep (by_user (codes "u1")) (missed three (codes "t1") (codes "c1") 1)),
        final,
      ))
resume_sends_missed_example =
    resume_sends_missed (codes "u1") (codes "t1") (codes "c1") (codes "1") 1 5 conversation three
      plan three-IsValid seen_first planned two_missed

-- The two deltas.
deltas :
    send_events (codes "u1") (codes "c1") 5 1 plan.events
    ≡ some (
      ServerWsMessage.event (codes "c1") (codes "2") (text_delta (codes "Hel"))
          ∷ ServerWsMessage.event (codes "c1") (codes "3") (text_delta (codes "lo"))
          ∷ [],
      3,
    )
unfolding send_events publish_event same decimal parse_u64
deltas = refl
