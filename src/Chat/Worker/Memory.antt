-- ===== src/Chat/Worker/Memory.antt =====
-- The worker over the in-memory bus and the in-memory repository: the ports that they make, and a
-- command that is delivered again after its turn was committed.
use delphi.Base.{
  ℕ, ◌+◌, ◌%◌, ◌^◌, ◌≡◌, false, none, some, List, [], ◌∷◌, ◌++◌, Text, Result, ok, Action, pure,
  same_refl, same_iff, decimal, arith,
}
use delphi.Platform.{Platform}
use delphi.Chat.Contracts.{TurnRequested, ChatEvent, FinishReason}
use delphi.Chat.Locks.{
  ChatLock, Locks, lock_key, load_lock, claim_lock, mark_lock_terminal,
  mark_terminal_event_published, stop_requested, release_lock, committed,
}
use delphi.Chat.Events.{EventBus, publish_event}
use delphi.Chat.Repository.{MemoryState, get_conversation, record_turn_failed}
use delphi.Chat.Repository.Commit.{commit_turn, commit_interrupted_turn}
use delphi.Chat.Worker.{TurnPorts, StopSignal, LlmMessage}
use delphi.Chat.Worker.Stream.{Signal, envelope}
use delphi.Chat.Worker.Steps.{run_turn, known_turn, publish_missing_terminal_event}

pub record Backend (x : Platform) : Type 0 where
  pub locks : Locks x
  pub bus : EventBus x
  pub rows : MemoryState x
  pub stops : List StopSignal

module _ {x : Platform} where
  abbrev pub on_locks : {A : Type 0} → Action (Locks x) A → Action (Backend x) A
  on_locks act w = let (a, locks') = act w.locks in (a, record w { locks = locks' })

  abbrev pub on_bus : {A : Type 0} → Action (EventBus x) A → Action (Backend x) A
  on_bus act w = let (a, bus') = act w.bus in (a, record w { bus = bus' })

  abbrev pub on_rows : {A : Type 0} → Action (MemoryState x) A → Action (Backend x) A
  on_rows act w = let (a, rows') = act w.rows in (a, record w { rows = rows' })

  -- The ports over the in-memory stores, at one reading of the clock, with one new id, and with a
  -- model that answers `stream`.
  abbrev pub memory_ports :
      ℕ → x.Time → Text → (List LlmMessage → Result Text (Unit {0})) → TurnPorts x (Backend x)
  memory_ports ttl now id stream = record {
    now = pure now;
    new_id = pure id;
    load_lock = λ t c. on_locks (load_lock t c);
    claim_lock = λ t c turn worker. on_locks (claim_lock ttl t c turn worker now now);
    mark_lock_terminal =
        λ t c turn worker terminal. on_locks (mark_lock_terminal ttl t c turn worker terminal now);
    mark_published = λ t c turn. on_locks (mark_terminal_event_published t c turn);
    stop_requested = λ t c turn. on_locks (stop_requested t c turn now);
    release_lock = λ t c turn. on_locks (λ locks. (tt, release_lock t c turn locks));
    ack = λ turn. pure (ok tt);
    publish = λ e. on_bus (publish_event e);
    waiting_stops = λ w. (w.stops, w);
    record_turn_failed = λ t u c turn error. on_rows (record_turn_failed t u c);
    get_conversation = λ t u c. on_rows (get_conversation t u c);
    commit_turn = λ t u c turn. on_rows (commit_turn t u c turn now);
    commit_interrupted_turn = λ t u c turn. on_rows (commit_interrupted_turn t u c turn now);
    stream_chat = λ messages. pure (stream messages);
    start_maintenance = pure tt;
    end_maintenance = pure tt;
    spawn_title_generation = λ text. pure tt;
  }

  -- A command that is delivered again after its turn was committed, when its last event was not
  -- published: the run succeeds, publishes the end of the turn with the stored message as the one
  -- new event, leaves the conversations alone, and gives the lock of the conversation free.
  pub committed_redelivered :
      (ttl : ℕ) (now : x.Time) (id : Text) (stream : List LlmMessage → Result Text (Unit {0}))
      (worker : Text) (command : TurnRequested x) (signals : List Signal) (w : Backend x)
      (lock : ChatLock x) (message : Text)
      → w.locks (lock_key command.tenant_id command.conversation_id) ≡ some lock
      → lock.turn_id ≡ command.turn_id
      → lock.state ≡ committed
      → lock.terminal_event_published ≡ false
      → lock.assistant_message_id ≡ some message
      → let after = run_turn (memory_ports ttl now id stream) worker command signals w in
        (after.0 ≡ ok tt)
        × (after.1.rows ≡ w.rows)
        × (after.1.locks (lock_key command.tenant_id command.conversation_id) ≡ none)
        × (after.1.bus.event_log
            ≡ w.bus.event_log
              ++ record {
                event_id = decimal ((w.bus.next_event_sequence + 1) % 2 ^ 64);
                envelope =
                    envelope
                      (memory_ports ttl now id stream)
                      command
                      (ChatEvent.finish message FinishReason.stop)
                      now;
              }
                ∷ [])
  unfolding run_turn known_turn publish_missing_terminal_event load_lock publish_event
      mark_terminal_event_published release_lock
  committed_redelivered ttl now id stream worker command signals w lock message found turn state
        unpublished stored =
      (
        ground (arith, same_iff lock.turn_id command.turn_id),
        ground (arith, same_iff lock.turn_id command.turn_id),
        ground (
          arith,
          same_iff lock.turn_id command.turn_id,
          same_refl (lock_key command.tenant_id command.conversation_id),
        ),
        ground (arith, same_iff lock.turn_id command.turn_id),
      )
