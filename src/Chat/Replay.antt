-- ===== src/Chat/Replay.antt =====
-- services/realtime-service/src/main.rs: what a client that subscribes to a conversation is sent of
-- the events that it may have missed. The bus is a record of the three operations that are called.
pub mod Sending
pub mod Missed
pub mod Resuming
use delphi.Base.{
  ℕ, zero, suc, ◌+◌, ◌-◌, Bool, true, false, not, ◌&&◌, ◌||◌, Option, none, some, List, [], ◌∷◌,
  Text, Result, ok, err, Action, pure, attempt, codes, ◌++◌, same, same_option, and_some, is_empty,
  head?, parse_u64, any, last?, leb, ◌==◌, if◌then◌else◌,
}
use delphi.Platform.{Platform}
use delphi.Chat.Contracts.{ChatEvent, ConversationDetail, ServerWsMessage}
use delphi.Chat.Locks.{ChatBusError, unavailable, payload, in_flight}
use delphi.Chat.Events.{
  ReplayTurn, ReplayIndex, SequencedChatEvent, EventBus, load_replay_index, replay_events,
  latest_event_sequence,
}

-- `Display` of `ChatBusError`
unfoldable pub chat_bus_error_str : ChatBusError → Text
chat_bus_error_str unavailable = codes "chat bus unavailable"
chat_bus_error_str (payload m) = codes "chat bus payload error: " ++ m
chat_bus_error_str in_flight = codes "chat conversation already has an in-flight turn"

pub record ReplayBus (x : Platform) (W : Type 0) : Type 0 where
  pub load_index : Text → Text → Action W (Result ChatBusError (Option ReplayIndex))
  pub latest : Action W (Result ChatBusError ℕ)
  pub events : Text → Text → ℕ → ℕ → Action W (Result ChatBusError (List (SequencedChatEvent x)))

abbrev pub memory_bus : (x : Platform) → ReplayBus x (EventBus x)
memory_bus x = record {
  load_index = load_replay_index;
  latest = latest_event_sequence;
  events = replay_events;
}

pub record ReplayPlan (x : Platform) : Type 0 where
  pub events : List (SequencedChatEvent x)
  pub last_seen_sequence : ℕ

pub record ReplayRange : Type 0 where
  pub start_seq : ℕ
  pub end_seq : ℕ
  pub last_seen_sequence : ℕ
  pub required_start_seq : Option ℕ
  pub required_end_seq : Option ℕ

pub data ReplayDecisionError : Type 0 where
  resync_required : ReplayDecisionError
  internal : Text → ReplayDecisionError

abbrev pub to_internal : ChatBusError → ReplayDecisionError
to_internal error = internal (chat_bus_error_str error)

abbrev pub is_some : {A : Type 0} → Option A → Bool
is_some none = false
is_some (some a) = true

-- `Option::unwrap_or`
abbrev pub or_else : ℕ → Option ℕ → ℕ
or_else default none = default
or_else default (some n) = n

abbrev pub parse_event_id : Text → Option ℕ
parse_event_id value = parse_u64 value

unfoldable pub turn_contains_sequence : ReplayTurn → ℕ → ℕ → Bool
turn_contains_sequence turn sequence latest =
    leb turn.start_seq sequence && leb sequence (or_else latest turn.end_seq)

abbrev pub contains_in : Option ReplayTurn → ℕ → ℕ → Bool
contains_in none sequence latest = false
contains_in (some turn) sequence latest = turn_contains_sequence turn sequence latest

module _ {x : Platform} where
  unfoldable pub conversation_has_turn : ConversationDetail x → Text → Bool
  conversation_has_turn conversation turn =
      any (λ message. same_option message.turn_id (some turn)) conversation.messages

  -- `replay_range` for a client that names no event.
  unfoldable pub fresh_range : ConversationDetail x → ℕ → Option ReplayTurn → Option ReplayRange
  unfolding conversation_has_turn
  fresh_range conversation latest none = none
  fresh_range conversation latest (some turn) =
      if is_some turn.end_seq || conversation_has_turn conversation turn.turn_id
      then none
      else some (record {
        start_seq = turn.start_seq;
        end_seq = or_else latest turn.end_seq;
        last_seen_sequence = 0;
        required_start_seq = some turn.start_seq;
        required_end_seq = turn.end_seq;
      })

abbrev pub end_of : Option ReplayTurn → Option ℕ
end_of none = none
end_of (some turn) = turn.end_seq

-- From the event after the last one seen, unless that is the end.
unfoldable pub after_range : ℕ → ℕ → Option ℕ → Option ReplayRange
after_range last end_seq required =
    if leb end_seq last
    then none
    else some (record {
      start_seq = last + 1;
      end_seq = end_seq;
      last_seen_sequence = last;
      required_start_seq = none;
      required_end_seq = required;
    })

-- The end of a replay that starts in the previous turn: of the current turn, if there is one.
abbrev pub end_from_previous : ℕ → Option ReplayTurn → Option ReplayTurn → ℕ
end_from_previous latest previous none = or_else latest (end_of previous)
end_from_previous latest previous (some current) = or_else latest current.end_seq

abbrev pub required_from_previous : Option ReplayTurn → Option ReplayTurn → Option ℕ
required_from_previous previous none = end_of previous
required_from_previous previous (some current) = current.end_seq

-- `replay_range` for a client that saw the event of that sequence.
unfoldable pub resume_range : ReplayIndex → ℕ → ℕ → Result ReplayDecisionError (Option ReplayRange)
unfolding turn_contains_sequence after_range
resume_range index last latest =
    if contains_in index.current_turn last latest
    then ok
        (after_range last (or_else latest (end_of index.current_turn)) (end_of index.current_turn))
    else if contains_in index.previous_turn last latest
    then ok (
        after_range last (end_from_previous latest index.previous_turn index.current_turn)
          (required_from_previous index.previous_turn index.current_turn))
    else err resync_required

abbrev pub resume_at : ReplayIndex → ℕ → Option ℕ → Result ReplayDecisionError (Option ReplayRange)
resume_at index latest none = err resync_required
resume_at index latest (some last) = resume_range index last latest

abbrev pub same_number : Option ℕ → Option ℕ → Bool
same_number none none = true
same_number none (some b) = false
same_number (some a) none = false
same_number (some a) (some b) = a == b

module _ {x : Platform} where
  unfoldable pub replay_range :
      ReplayIndex
      → Option Text
      → ConversationDetail x
      → ℕ
      → Result ReplayDecisionError (Option ReplayRange)
  unfolding fresh_range resume_range
  replay_range index none conversation latest =
      ok (fresh_range conversation latest index.current_turn)
  replay_range index (some last_event) conversation latest =
      resume_at index latest (parse_event_id last_event)

  abbrev pub sequence_of : SequencedChatEvent x → Option ℕ
  sequence_of event = parse_event_id event.event_id

  unfoldable pub replay_is_incomplete : List (SequencedChatEvent x) → ReplayRange → Bool
  replay_is_incomplete events range =
      (is_some range.required_start_seq && is_empty events)
      || (is_some range.required_start_seq
          && not (same_number (and_some (head? events) sequence_of) range.required_start_seq))
      || (is_some range.required_end_seq
          && not (same_number (and_some (last? events) sequence_of) range.required_end_seq))

  -- What follows the read of the events.
  unfoldable pub plan_of :
      ReplayRange → List (SequencedChatEvent x) → Result ReplayDecisionError (ReplayPlan x)
  unfolding replay_is_incomplete
  plan_of range events =
      if replay_is_incomplete events range
      then err resync_required
      else ok (record { events = events; last_seen_sequence = range.last_seen_sequence })

  abbrev pub empty_plan : ℕ → ReplayPlan x
  empty_plan last = record { events = []; last_seen_sequence = last }

module _ {x : Platform} {W : Type 0} (bus : ReplayBus x W) (tenant conversation_id : Text) where
  -- What follows `replay_range`.
  unfoldable pub plan_range :
      Option Text
      → Result ReplayDecisionError (Option ReplayRange)
      → Action W (Result ReplayDecisionError (ReplayPlan x))
  unfolding plan_of
  plan_range last_event (err error) = pure (err error)
  plan_range last_event (ok none) =
      pure (ok (empty_plan (or_else 0 (and_some last_event parse_event_id))))
  plan_range last_event (ok (some range)) =
      attempt (bus.events tenant conversation_id range.start_seq range.end_seq) to_internal
        λ events. pure (plan_of range events)

  abbrev pub plan_index :
      Option Text
      → ConversationDetail x
      → ℕ
      → Option ReplayIndex
      → Action W (Result ReplayDecisionError (ReplayPlan x))
  plan_index none conversation latest none = pure (ok (empty_plan 0))
  plan_index (some last_event) conversation latest none = pure (err resync_required)
  plan_index last_event conversation latest (some index) =
      plan_range last_event (replay_range index last_event conversation latest)

  unfoldable pub build_replay_plan :
      Option Text → ConversationDetail x → Action W (Result ReplayDecisionError (ReplayPlan x))
  unfolding plan_range replay_range
  build_replay_plan last_event conversation =
      attempt (bus.load_index tenant conversation_id) to_internal λ index.
        attempt bus.latest to_internal λ latest. plan_index last_event conversation latest index
