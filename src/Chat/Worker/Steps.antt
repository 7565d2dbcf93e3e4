-- ===== src/Chat/Worker/Steps.antt =====
-- services/chat-worker/src/main.rs: the steps of `run_turn`.
use delphi.Base.{
  Bool, true, false, not, ◌&&◌, Option, none, some, List, [], ◌++◌, Text, Result, ok, err, Action,
  pure, ◌>>=◌, ◌>>◌, attempt, codes, same, is_empty, trim, any, if◌then◌else◌,
}
use delphi.Platform.{Platform}
use delphi.Chat.Contracts.{
  ConversationDetail, TurnRequested, ChatEvent, FinishReason, InterruptReason, ClearReason,
}
use delphi.Chat.Locks.{
  ChatLock, ChatLockState, ChatTerminalUpdate, requested, running, committed, interrupted, failed,
  is_expired, is_terminal, is_running,
}
use delphi.Chat.Repository.{StorageError, default_title}
use delphi.Chat.Repository.Commit.{Turn}
use delphi.Chat.Worker.{
  TurnPorts, TurnError, bus, store, note, storage_error_str, llm_messages, is_stop_for_turn,
}
use delphi.Chat.Worker.Stream.{
  Signal, StreamEnd, completed, stopped, broken, published, stream_loop, failed_turn_published,
}

-- `unwrap_or_default`
abbrev pub or_empty : Option Text → Text
or_empty none = []
or_empty (some text) = text

abbrev pub ended : ChatLockState → Option Text → Option Text → Option Text → ChatTerminalUpdate
ended state message content error = record {
  state = state;
  assistant_message_id = message;
  content = content;
  error = error;
}

module _ {x : Platform} {W : Type 0} (p : TurnPorts x W) (command : TurnRequested x) where
  -- `mark_terminal_event_published(..).await?`, at the end of a step
  abbrev pub marked_published : ChatLock x → Action W (Result TurnError (Unit {0}))
  marked_published lock =
      attempt (p.mark_published lock.tenant_id lock.conversation_id lock.turn_id) bus
        λ u. pure (ok tt)

  abbrev pub command_published : Action W (Result TurnError (Unit {0}))
  command_published =
      attempt (p.mark_published command.tenant_id command.conversation_id command.turn_id) bus
        λ u. pure (ok tt)

  abbrev pub finished_event : Option Text → Action W (Result TurnError (Unit {0}))
  finished_event none = pure (err (note (codes "committed turn missing assistant message id")))
  finished_event (some message) =
      published p command (ChatEvent.finish message FinishReason.stop) command_published

  abbrev pub interrupted_event : Option Text → Option Text → Action W (Result TurnError (Unit {0}))
  interrupted_event none content =
      pure (err (note (codes "interrupted turn missing assistant message id")))
  interrupted_event (some message) content =
      published p command
        (ChatEvent.interrupted message (or_empty content) InterruptReason.user_interrupted)
        command_published

  -- The match of `publish_missing_terminal_event`.
  unfoldable pub event_of_state :
      ChatLockState → ChatLock x → Action W (Result TurnError (Unit {0}))
  event_of_state committed lock = finished_event lock.assistant_message_id
  event_of_state interrupted lock =
      interrupted_event lock.assistant_message_id lock.terminal_content
  event_of_state failed lock =
      published p command
        (ChatEvent.error (codes "The assistant failed before the turn could be saved."))
        (published p command (ChatEvent.clear ClearReason.failed_before_commit) command_published)
  event_of_state requested lock = pure (ok tt)
  event_of_state running lock = pure (ok tt)

  unfoldable pub publish_missing_terminal_event :
      ChatLock x → Action W (Result TurnError (Unit {0}))
  unfolding event_of_state
  publish_missing_terminal_event lock =
      if lock.terminal_event_published then pure (ok tt) else event_of_state lock.state lock

  -- The acknowledgement and the release that end a command.
  abbrev pub finish_command : Action W (Result TurnError (Unit {0}))
  finish_command =
      attempt (p.ack command.turn_id) bus λ u.
        p.release_lock command.tenant_id command.conversation_id command.turn_id >> pure (ok tt)

  -- `step.await?`, and what follows
  abbrev pub then_do :
      Action W (Result TurnError (Unit {0}))
      → Action W (Result TurnError (Unit {0}))
      → Action W (Result TurnError (Unit {0}))
  then_do step rest = attempt step (λ error. error) λ u. rest

module _ {x : Platform} {W : Type 0} (p : TurnPorts x W) (worker : Text)
    (command : TurnRequested x) where
  unfoldable pub fail_owned_turn : ChatLock x → Text → Action W (Result TurnError (Unit {0}))
  fail_owned_turn lock message =
      attempt
        (p.mark_lock_terminal command.tenant_id command.conversation_id command.turn_id
          (some worker) (ended failed none none (some message)))
        bus
        λ lock'.
          failed_turn_published p command lock.user_id message (marked_published p command lock')

  -- `let _ = fail_owned_turn(..)`, after a commit that failed
  abbrev pub fail_quietly : ChatLock x → Text → Action W (Result TurnError (Unit {0}))
  fail_quietly lock message = fail_owned_turn lock message >> pure (ok tt)

  abbrev pub turn_of : ChatLock x → Text → Text → Turn
  turn_of lock message text = record {
    turn_id = command.turn_id;
    user_message_id = lock.user_message_id;
    user_text = lock.text;
    parent_message_id = lock.parent_message_id;
    assistant_message_id = message;
    assistant_text = text;
    citations = [];
  }

  abbrev pub after_interrupted :
      ChatLock x
      → Text
      → Text
      → Result StorageError (ConversationDetail x)
      → Action W (Result TurnError (Unit {0}))
  after_interrupted lock text message (err error) =
      fail_quietly lock
        (codes "failed to commit interrupted chat turn: " ++ storage_error_str error)
  after_interrupted lock text message (ok detail) =
      attempt
        (p.mark_lock_terminal command.tenant_id command.conversation_id command.turn_id
          (some worker) (ended interrupted (some message) (some text) none))
        bus
        λ lock'.
          published p command (ChatEvent.interrupted message text InterruptReason.user_interrupted)
            (marked_published p command lock')

  unfoldable pub commit_interrupted : ChatLock x → Text → Action W (Result TurnError (Unit {0}))
  unfolding fail_owned_turn storage_error_str
  commit_interrupted lock text = do
    message ← p.new_id
    answer ←
        p.commit_interrupted_turn command.tenant_id lock.user_id command.conversation_id
          (turn_of lock message text)
    after_interrupted lock text message answer

  abbrev pub title_generated : Bool → Text → Action W (Result TurnError (Unit {0}))
  title_generated wanted text =
      if wanted && not (is_empty (trim text))
      then p.spawn_title_generation text >> pure (ok tt)
      else pure (ok tt)

  abbrev pub after_commit :
      ChatLock x
      → Bool
      → Text
      → Text
      → Result StorageError (ConversationDetail x)
      → Action W (Result TurnError (Unit {0}))
  after_commit lock wanted text message (err error) =
      fail_quietly lock (codes "failed to commit completed chat turn: " ++ storage_error_str error)
  after_commit lock wanted text message (ok detail) =
      attempt
        (p.mark_lock_terminal command.tenant_id command.conversation_id command.turn_id
          (some worker) (ended committed (some message) none none))
        bus
        λ lock'.
          published p command (ChatEvent.finish message FinishReason.stop)
            (then_do p command (marked_published p command lock') (title_generated wanted text))

  unfoldable pub commit_completed :
      ChatLock x → Bool → Text → Action W (Result TurnError (Unit {0}))
  unfolding fail_owned_turn storage_error_str
  commit_completed lock wanted text = do
    message ← p.new_id
    answer ←
        p.commit_turn command.tenant_id lock.user_id command.conversation_id
          (turn_of lock message text)
    after_commit lock wanted text message answer

  abbrev pub after_stream : ChatLock x → Bool → StreamEnd → Action W (Result TurnError (Unit {0}))
  after_stream lock wanted (completed text) = commit_completed lock wanted text
  after_stream lock wanted (stopped text) = commit_interrupted lock text
  after_stream lock wanted (broken message) = fail_owned_turn lock message

  abbrev pub after_request :
      ChatLock x
      → Bool
      → List Signal
      → Result Text (Unit {0})
      → Action W (Result TurnError (Unit {0}))
  after_request lock wanted signals (err error) =
      fail_owned_turn lock (codes "LLM request failed: " ++ error)
  after_request lock wanted signals (ok u) =
      attempt (stream_loop p command [] signals) (λ error. error) (after_stream lock wanted)

  -- `stop_requested`, from whether a signal for the turn was waiting.
  abbrev pub asked_elsewhere : Bool → Action W (Result TurnError Bool)
  asked_elsewhere true = pure (ok true)
  asked_elsewhere false =
      attempt (p.stop_requested command.tenant_id command.conversation_id command.turn_id) bus
        λ asked. pure (ok asked)

  -- `lock.stop_requested || stop_requested(..).await?`
  abbrev pub stop_asked : ChatLock x → Action W (Result TurnError Bool)
  stop_asked lock =
      if lock.stop_requested
      then pure (ok true)
      else do signals ← p.waiting_stops; asked_elsewhere (any (is_stop_for_turn command) signals)

  abbrev pub after_stop :
      ChatLock x
      → ConversationDetail x
      → List Signal
      → Bool
      → Action W (Result TurnError (Unit {0}))
  after_stop lock conversation signals true = commit_interrupted lock []
  after_stop lock conversation signals false =
      p.stream_chat (llm_messages conversation.messages lock.text)
      >>= after_request lock
          (same conversation.title default_title && is_empty conversation.messages) signals

  unfoldable pub drive_turn : ChatLock x → List Signal → Action W (Result TurnError (Unit {0}))
  unfolding commit_interrupted commit_completed stream_loop llm_messages
  drive_turn lock signals =
      attempt (p.get_conversation command.tenant_id lock.user_id command.conversation_id) store
        λ conversation. published p command (ChatEvent.turn_started command.turn_id) (
          published p command
            (ChatEvent.user_message lock.user_message_id (some command.turn_id) lock.text)
            (attempt (stop_asked lock) (λ error. error) (after_stop lock conversation signals)))

  -- After the claim: the turn, then the acknowledgement and the release if it went well.
  unfoldable pub claimed_turn : List Signal → ChatLock x → Action W (Result TurnError (Unit {0}))
  unfolding drive_turn
  claimed_turn signals lock = do
    started ← p.start_maintenance
    result ← drive_turn lock signals
    over ← p.end_maintenance
    then_do p command (pure result) (finish_command p command)

  abbrev pub lease_expired : Text
  lease_expired = codes "chat worker lease expired before completion"

  -- The arm of a turn that runs elsewhere, from whether its lease has run out.
  unfoldable pub running_expired : ChatLock x → Bool → Action W (Result TurnError (Unit {0}))
  unfolding publish_missing_terminal_event
  running_expired lock false =
      pure (err (note (codes "chat turn is already running with a fresh lease")))
  running_expired lock true =
      attempt
        (p.mark_lock_terminal command.tenant_id command.conversation_id command.turn_id none
          (ended failed none none (some lease_expired)))
        bus
        λ lock'.
          attempt
            (p.record_turn_failed command.tenant_id lock'.user_id command.conversation_id
              command.turn_id lease_expired)
            store
            λ u.
              then_do p command (publish_missing_terminal_event p command lock')
                (finish_command p command)

  unfoldable pub running_turn : ChatLock x → Action W (Result TurnError (Unit {0}))
  unfolding running_expired
  running_turn lock = do now ← p.now; running_expired lock (is_expired now lock)

  unfoldable pub known_turn : List Signal → ChatLock x → Action W (Result TurnError (Unit {0}))
  unfolding publish_missing_terminal_event running_turn claimed_turn
  known_turn signals lock =
      if not (same lock.turn_id command.turn_id)
      then pure (err (note (codes "conversation is owned by a different turn")))
      else if is_terminal lock
      then then_do p command (publish_missing_terminal_event p command lock)
          (finish_command p command)
      else if is_running lock.state
      then running_turn lock
      else attempt (p.claim_lock command.tenant_id command.conversation_id command.turn_id worker)
          bus (claimed_turn signals)

  abbrev pub found_turn : List Signal → Option (ChatLock x) → Action W (Result TurnError (Unit {0}))
  found_turn signals none =
      failed_turn_published p command command.user_id
        (codes "chat turn payload missing before worker claim")
        (attempt (p.ack command.turn_id) bus λ u. pure (ok tt))
  found_turn signals (some lock) = known_turn signals lock

  unfoldable pub run_turn : List Signal → Action W (Result TurnError (Unit {0}))
  unfolding known_turn
  run_turn signals =
      attempt (p.load_lock command.tenant_id command.conversation_id) bus (found_turn signals)
