-- ===== src/Chat/Events.antt =====
-- crates/nats/src/lib.rs: the events of the in-memory bus, numbered as they are published, and the
-- index of the turns of a conversation that can be replayed. Publishing is modelled as one step;
-- the receivers of the broadcast are not.
pub mod Indexes
pub mod History
use delphi.Base.{
  ℕ, ◌+◌, ◌%◌, ◌^◌, Bool, true, false, ◌&&◌, ◌||◌, Option, none, some, List, [], ◌∷◌, ◌++◌, Text,
  Result, ok, err, Action, same, decimal, parse_u64, keep, leb, if◌then◌else◌,
}
use delphi.Platform.{Platform}
use delphi.Chat.Contracts.{ChatEvent, ChatEventEnvelope, turn_started, finish, interrupted, clear}
use delphi.Chat.Locks.{ChatBusError, lock_key}

pub record ReplayTurn : Type 0 where
  pub turn_id : Text
  pub start_seq : ℕ
  pub end_seq : Option ℕ

pub record ReplayIndex : Type 0 where
  pub previous_turn : Option ReplayTurn
  pub current_turn : Option ReplayTurn

-- `ReplayIndex::default()`
abbrev pub no_turns : ReplayIndex
no_turns = record { previous_turn = none; current_turn = none }

pub record SequencedChatEvent (x : Platform) : Type 0 where
  pub event_id : Text
  pub envelope : ChatEventEnvelope x

unfoldable pub is_replay_index_event : ChatEvent → Bool
is_replay_index_event (turn_started turn) = true
is_replay_index_event (finish message reason) = true
is_replay_index_event (interrupted message content reason) = true
is_replay_index_event (clear reason) = true
is_replay_index_event other = false

abbrev pub is_turn : Text → Option ReplayTurn → Bool
is_turn id none = false
is_turn id (some turn) = same turn.turn_id id

abbrev pub ended_at : ℕ → Option ReplayTurn → Option ReplayTurn
ended_at sequence none = none
ended_at sequence (some turn) = some (record turn { end_seq = some sequence })

-- The two arms of `apply_replay_event`.
unfoldable pub start_turn : Text → ℕ → ReplayIndex → ReplayIndex
start_turn id sequence index = if is_turn id index.current_turn then index else record {
  previous_turn = index.current_turn;
  current_turn = some (record { turn_id = id; start_seq = sequence; end_seq = none });
}

unfoldable pub end_turn : Text → ℕ → ReplayIndex → ReplayIndex
end_turn id sequence index =
    if is_turn id index.current_turn
    then record index { current_turn = ended_at sequence index.current_turn }
    else if is_turn id index.previous_turn
    then record index { previous_turn = ended_at sequence index.previous_turn }
    else index

unfoldable pub apply_replay_event : Text → ℕ → ChatEvent → ReplayIndex → ReplayIndex
unfolding start_turn end_turn
apply_replay_event id sequence (turn_started turn) index = start_turn id sequence index
apply_replay_event id sequence (finish message reason) index = end_turn id sequence index
apply_replay_event id sequence (interrupted message content reason) index =
    end_turn id sequence index
apply_replay_event id sequence (clear reason) index = end_turn id sequence index
apply_replay_event id sequence other index = index

abbrev pub or_no_turns : Option ReplayIndex → ReplayIndex
or_no_turns none = no_turns
or_no_turns (some index) = index

-- The map of the indexes, by key.
abbrev pub Replay : Type 0
Replay = Text → Option ReplayIndex

module _ {x : Platform} where
  unfoldable pub update_in_memory_replay : ChatEventEnvelope x → ℕ → Replay → Replay
  unfolding apply_replay_event is_replay_index_event
  update_in_memory_replay envelope sequence replay =
      let key = lock_key envelope.tenant_id envelope.conversation_id in
      let index =
        apply_replay_event envelope.turn_id sequence envelope.event (or_no_turns (replay key)) in
      if is_replay_index_event envelope.event
      then (λ k. if same key k then some index else replay k)
      else replay

-- `is_ok_and`, on a sequence between two others
abbrev pub within : ℕ → ℕ → Option ℕ → Bool
within start_seq end_seq none = false
within start_seq end_seq (some sequence) = leb start_seq sequence && leb sequence end_seq

-- What the bus keeps of the events.
pub record EventBus (x : Platform) : Type 0 where
  pub replay : Replay
  pub event_log : List (SequencedChatEvent x)
  pub next_event_sequence : ℕ

module _ (x : Platform) where
  abbrev pub new_bus : EventBus x
  new_bus = record { replay = λ key. none; event_log = []; next_event_sequence = 0 }

module _ {x : Platform} where
  unfoldable pub publish_event :
      ChatEventEnvelope x → Action (EventBus x) (Result ChatBusError Text)
  unfolding update_in_memory_replay
  publish_event envelope bus =
      let sequence = (bus.next_event_sequence + 1) % 2 ^ 64 in
      (
        ok (decimal sequence),
        record {
          replay = update_in_memory_replay envelope sequence bus.replay;
          event_log =
              bus.event_log ++ record { event_id = decimal sequence; envelope = envelope } ∷ [];
          next_event_sequence = sequence;
        },
      )

  unfoldable pub load_replay_index :
      Text → Text → Action (EventBus x) (Result ChatBusError (Option ReplayIndex))
  load_replay_index tenant conversation bus = (ok (bus.replay (lock_key tenant conversation)), bus)

  abbrev pub is_of : Text → Text → ChatEventEnvelope x → Bool
  is_of tenant conversation envelope =
      same envelope.tenant_id tenant && same envelope.conversation_id conversation

  unfoldable pub replay_events :
      Text → Text → ℕ → ℕ → Action (EventBus x) (Result ChatBusError (List (SequencedChatEvent x)))
  unfolding parse_u64
  replay_events tenant conversation start_seq end_seq bus = (
    ok (
        keep
          (λ event.
            within start_seq end_seq (parse_u64 event.event_id)
            && is_of tenant conversation event.envelope)
          bus.event_log),
    bus,
  )

  unfoldable pub latest_event_sequence : Action (EventBus x) (Result ChatBusError ℕ)
  latest_event_sequence bus = (ok bus.next_event_sequence, bus)
