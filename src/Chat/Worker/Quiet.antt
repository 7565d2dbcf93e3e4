-- ===== src/Chat/Worker/Quiet.antt =====
-- A command whose turn is not to be claimed: what `run_turn` does not do.
use delphi.Base.{
  ◌≡◌, ◌≢◌, ◌⊎◌, inl, inr, Bool, true, false, ◌||◌, Option, none, some, List, Text, Result, ok, err,
  Action, Keeps, codes, go_on, attempt, attempt-Keeps, pure, ◌>>◌, same, same_iff, if◌then◌else◌,
  Bool-cases, arith,
}
use delphi.Platform.{Platform}
use delphi.Chat.Contracts.{
  TurnRequested, ChatEvent, ChatEventEnvelope, FinishReason, InterruptReason, ClearReason,
}
use delphi.Chat.Locks.{
  ChatBusError, ChatLock, ChatLockState, ChatTerminalUpdate, is_terminal, is_running, is_expired,
  committed, interrupted, failed, requested, running,
}
use delphi.Chat.Worker.{TurnPorts, TurnError, bus, store}
use delphi.Chat.Worker.Stream.{Signal, published, failed_turn_published, envelope}
use delphi.Chat.Worker.Steps.{
  run_turn, found_turn, known_turn, running_turn, running_expired, publish_missing_terminal_event,
  event_of_state, finished_event, interrupted_event, finish_command, command_published, then_do,
  lease_expired, ended, or_empty,
}

-- The calls that read or end a turn keep a fact of the world. Nothing is asked of the claim, of the
-- model, of the commits, nor of the reads and tasks of a turn that is driven.
pub record Quiet {x : Platform} {W : Type 0} (p : TurnPorts x W) (Q : W → Type 0) : Type 0 where
  pub now_keeps : Keeps Q p.now
  pub load_keeps : (t c : Text) → Keeps Q (p.load_lock t c)
  pub mark_keeps :
      (t c turn : Text) (worker : Option Text) (terminal : ChatTerminalUpdate)
      → Keeps Q (p.mark_lock_terminal t c turn worker terminal)
  pub published_keeps : (t c turn : Text) → Keeps Q (p.mark_published t c turn)
  pub release_keeps : (t c turn : Text) → Keeps Q (p.release_lock t c turn)
  pub ack_keeps : (turn : Text) → Keeps Q (p.ack turn)
  pub publish_keeps : (envelope : ChatEventEnvelope x) → Keeps Q (p.publish envelope)
  pub record_keeps : (t u c turn e : Text) → Keeps Q (p.record_turn_failed t u c turn e)

-- The lock that was loaded, if any, is not that of a requested turn of the command.
abbrev pub NotRequested :
    {x : Platform} → TurnRequested x → Result ChatBusError (Option (ChatLock x)) → Type 0
NotRequested command (err error) = Unit {0}
NotRequested command (ok none) = Unit {0}
NotRequested command (ok (some lock)) =
    (lock.turn_id ≢ command.turn_id) ⊎ ((is_terminal lock || is_running lock.state) ≡ true)

module _ {x : Platform} {W : Type 0} (p : TurnPorts x W) (Q : W → Type 0) (quiet : Quiet p Q)
    (command : TurnRequested x) where
  if-Keeps :
      {A : Type 0} (test : Bool) (m k : Action W (Result TurnError A))
      → Keeps Q m
      → Keeps Q k
      → Keeps Q (if test then m else k)
  if-Keeps true m k a b = a
  if-Keeps false m k a b = b

  published-Keeps :
      {A : Type 0} (event : ChatEvent) (rest : Action W (Result TurnError A))
      → Keeps Q rest
      → Keeps Q (published p command event rest)
  published-Keeps event rest keeps w q =
      attempt-Keeps Q (p.publish (envelope p command event (p.now w).0)) bus (λ id. rest)
        (quiet.publish_keeps (envelope p command event (p.now w).0)) (λ id. keeps) (p.now w).1
        (quiet.now_keeps w q)

  -- The two events of a turn that failed.
  error_clear-Keeps :
      {A : Type 0} (rest : Action W (Result TurnError A))
      → Keeps Q rest
      → Keeps Q (
          published p command
            (ChatEvent.error (codes "The assistant failed before the turn could be saved."))
            (published p command (ChatEvent.clear ClearReason.failed_before_commit) rest))
  error_clear-Keeps rest keeps =
      published-Keeps
        (ChatEvent.error (codes "The assistant failed before the turn could be saved."))
        (published p command (ChatEvent.clear ClearReason.failed_before_commit) rest)
        (published-Keeps (ChatEvent.clear ClearReason.failed_before_commit) rest keeps)

  failed_turn-Keeps :
      {A : Type 0} (user message : Text) (rest : Action W (Result TurnError A))
      → Keeps Q rest
      → Keeps Q (failed_turn_published p command user message rest)
  failed_turn-Keeps user message rest keeps w q =
      error_clear-Keeps rest keeps
        (p.record_turn_failed command.tenant_id user command.conversation_id command.turn_id message
          w).1
        (quiet.record_keeps command.tenant_id user command.conversation_id command.turn_id message w
          q)

  command_published-Keeps : Keeps Q (command_published p command)
  command_published-Keeps =
      attempt-Keeps Q (p.mark_published command.tenant_id command.conversation_id command.turn_id)
        bus (λ u. pure (ok tt))
        (quiet.published_keeps command.tenant_id command.conversation_id command.turn_id)
        (λ u w q. q)

  finish-Keeps : Keeps Q (finish_command p command)
  finish-Keeps =
      attempt-Keeps Q (p.ack command.turn_id) bus
        (λ u.
          p.release_lock command.tenant_id command.conversation_id command.turn_id >> pure (ok tt))
        (quiet.ack_keeps command.turn_id)
        (λ u w q. quiet.release_keeps command.tenant_id command.conversation_id command.turn_id w q)

  finished-Keeps : (message : Option Text) → Keeps Q (finished_event p command message)
  finished-Keeps none = λ w q. q
  finished-Keeps (some message) =
      published-Keeps (ChatEvent.finish message FinishReason.stop) (command_published p command)
        command_published-Keeps

  interrupted-Keeps :
      (message content : Option Text) → Keeps Q (interrupted_event p command message content)
  interrupted-Keeps none content = λ w q. q
  interrupted-Keeps (some message) content =
      published-Keeps
        (ChatEvent.interrupted message (or_empty content) InterruptReason.user_interrupted)
        (command_published p command) command_published-Keeps

  event_of_state-Keeps :
      (state : ChatLockState) (lock : ChatLock x) → Keeps Q (event_of_state p command state lock)
  unfolding event_of_state
  event_of_state-Keeps committed lock = finished-Keeps lock.assistant_message_id
  event_of_state-Keeps interrupted lock =
      interrupted-Keeps lock.assistant_message_id lock.terminal_content
  event_of_state-Keeps failed lock =
      error_clear-Keeps (command_published p command) command_published-Keeps
  event_of_state-Keeps requested lock = λ w q. q
  event_of_state-Keeps running lock = λ w q. q

  missing-Keeps : (lock : ChatLock x) → Keeps Q (publish_missing_terminal_event p command lock)
  unfolding publish_missing_terminal_event
  missing-Keeps lock =
      if-Keeps lock.terminal_event_published (pure (ok tt))
        (event_of_state p command lock.state lock) (λ w q. q) (event_of_state-Keeps lock.state lock)

  ending-Keeps :
      (lock : ChatLock x)
      → Keeps Q (
          then_do p command
            (publish_missing_terminal_event p command lock)
            (finish_command p command))
  ending-Keeps lock =
      attempt-Keeps Q (publish_missing_terminal_event p command lock) (λ error. error)
        (λ u. finish_command p command) (missing-Keeps lock) (λ u. finish-Keeps)

  module _ (worker : Text) (signals : List Signal) where
    expired-Keeps :
        (lock : ChatLock x) (expired : Bool)
        → Keeps Q (running_expired p worker command lock expired)
    unfolding running_expired
    expired-Keeps lock false = λ w q. q
    expired-Keeps lock true =
        attempt-Keeps Q
          (p.mark_lock_terminal command.tenant_id command.conversation_id command.turn_id none
            (ended failed none none (some (lease_expired p worker command))))
          bus
          (λ lock'.
            attempt
              (p.record_turn_failed command.tenant_id lock'.user_id command.conversation_id
                command.turn_id (lease_expired p worker command))
              store
              λ u.
                then_do p command (publish_missing_terminal_event p command lock')
                  (finish_command p command))
          (quiet.mark_keeps command.tenant_id command.conversation_id command.turn_id none
            (ended failed none none (some (lease_expired p worker command))))
          (λ lock'.
            attempt-Keeps Q
              (p.record_turn_failed command.tenant_id lock'.user_id command.conversation_id
                command.turn_id (lease_expired p worker command))
              store
              (λ u.
                then_do p command (publish_missing_terminal_event p command lock')
                  (finish_command p command))
              (quiet.record_keeps command.tenant_id lock'.user_id command.conversation_id
                command.turn_id (lease_expired p worker command))
              (λ u. ending-Keeps lock'))

    running-Keeps : (lock : ChatLock x) → Keeps Q (running_turn p worker command lock)
    unfolding running_turn
    running-Keeps lock w q =
        expired-Keeps lock (is_expired (p.now w).0 lock) (p.now w).1 (quiet.now_keeps w q)

    known-Keeps :
        (lock : ChatLock x)
        → NotRequested command (ok (some lock))
        → Keeps Q (known_turn p worker command signals lock)
    unfolding known_turn
    known-Keeps lock other w q = elim (Bool-cases (same lock.turn_id command.turn_id)) [
      | inr a ↦ rw a q
      | inl a ↦ elim (Bool-cases (is_terminal lock)) [
        | inl b ↦ rw (a, b) (ending-Keeps lock w q)
        | inr b ↦ elim (Bool-cases (is_running lock.state)) [
          | inl c ↦ rw (a, b, c) (running-Keeps lock w q)
          | inr c ↦ absurd (ground (arith, same_iff lock.turn_id command.turn_id))
        ]
      ]
    ]

    found-Keeps :
        (found : Option (ChatLock x))
        → NotRequested command (ok found)
        → Keeps Q (found_turn p worker command signals found)
    found-Keeps none other =
        failed_turn-Keeps command.user_id (codes "chat turn payload missing before worker claim")
          (attempt (p.ack command.turn_id) bus λ u. pure (ok tt))
          (attempt-Keeps Q (p.ack command.turn_id) bus (λ u. pure (ok tt))
            (quiet.ack_keeps command.turn_id) (λ u w q. q))
    found-Keeps (some lock) other = known-Keeps lock other

    loaded-Keeps :
        (answer : Result ChatBusError (Option (ChatLock x)))
        → NotRequested command answer
        → Keeps Q (go_on bus (found_turn p worker command signals) answer)
    loaded-Keeps (err error) other = λ w q. q
    loaded-Keeps (ok found) other = found-Keeps found other

    -- A command that is delivered again never works the turn again: unless the lock that it finds is
    -- that of its own turn, requested and not begun, the run makes no claim, no request to the model
    -- and no commit. Any fact of the world holds after it that the calls which read or end a turn
    -- keep, among them that the conversations are unchanged.
    pub run_turn-Keeps :
        (w : W)
        → NotRequested command (p.load_lock command.tenant_id command.conversation_id w).0
        → Q w
        → Q (run_turn p worker command signals w).1
    unfolding run_turn
    run_turn-Keeps w other q =
        loaded-Keeps (p.load_lock command.tenant_id command.conversation_id w).0 other
          (p.load_lock command.tenant_id command.conversation_id w).1
          (quiet.load_keeps command.tenant_id command.conversation_id w q)
