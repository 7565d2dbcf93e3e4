-- ===== src/Chat/Worker.antt =====
-- services/chat-worker/src/main.rs: a turn from its command to the release of its lock. What the
-- worker calls is a record of actions on a world; the branches of its `select!` loop are a list of
-- signals, in the order in which they came, that ends where the model's stream ends.
pub mod Stream
pub mod Steps
pub mod Quiet
pub mod Memory
pub mod Titles
use delphi.Base.{
  ℕ, Bool, true, false, not, ◌&&◌, ◌||◌, Option, none, some, List, [], ◌∷◌, ◌++◌, Text, Result, ok,
  err, Action, pure, ◌>>=◌, attempt, codes, same, same_option, is_empty, last?, trim, any,
  if◌then◌else◌,
}
use delphi.Platform.{Platform}
use delphi.Chat.Contracts.{
  MessageRole, MessageDto, ConversationDetail, TurnRequested, ChatEventEnvelope, ChatEvent,
  FinishReason, InterruptReason, ClearReason,
}
use delphi.Chat.Locks.{
  ChatBusError, ChatLock, ChatLockState, ChatTerminalUpdate, requested, running, committed,
  interrupted, failed,
}
use delphi.Chat.Repository.{
  StorageError, not_found, forbidden, stale_parent, internal, default_title,
}
use delphi.Chat.Repository.Commit.{Turn}

pub record StopSignal : Type 0 where
  pub tenant_id : Text
  pub conversation_id : Text
  pub turn_id : Text

pub record LlmMessage : Type 0 where
  pub role : MessageRole
  pub content : Text

-- `anyhow::Error`: what a `?` passes on, or a message.
pub data TurnError : Type 0 where
  bus : ChatBusError → TurnError
  store : StorageError → TurnError
  note : Text → TurnError

pub record TurnPorts (x : Platform) (W : Type 0) : Type 0 where
  pub now : Action W x.Time
  pub new_id : Action W Text
  pub load_lock : Text → Text → Action W (Result ChatBusError (Option (ChatLock x)))
  pub claim_lock : Text → Text → Text → Text → Action W (Result ChatBusError (ChatLock x))
  pub mark_lock_terminal :
      Text
      → Text
      → Text
      → Option Text
      → ChatTerminalUpdate
      → Action W (Result ChatBusError (ChatLock x))
  pub mark_published : Text → Text → Text → Action W (Result ChatBusError (Unit {0}))
  pub stop_requested : Text → Text → Text → Action W (Result ChatBusError Bool)
  pub release_lock : Text → Text → Text → Action W (Unit {0})
  pub ack : Text → Action W (Result ChatBusError (Unit {0}))
  pub publish : ChatEventEnvelope x → Action W (Result ChatBusError Text)
  -- The stop signals that are waiting when the turn starts.
  pub waiting_stops : Action W (List StopSignal)
  pub record_turn_failed :
      Text → Text → Text → Text → Text → Action W (Result StorageError (Unit {0}))
  pub get_conversation : Text → Text → Text → Action W (Result StorageError (ConversationDetail x))
  pub commit_turn :
      Text → Text → Text → Turn → Action W (Result StorageError (ConversationDetail x))
  pub commit_interrupted_turn :
      Text → Text → Text → Turn → Action W (Result StorageError (ConversationDetail x))
  -- `llm.stream_chat`, with the text of its error
  pub stream_chat : List LlmMessage → Action W (Result Text (Unit {0}))
  -- `start_turn_maintenance`, its end, and `spawn_title_generation`
  pub start_maintenance : Action W (Unit {0})
  pub end_maintenance : Action W (Unit {0})
  pub spawn_title_generation : Text → Action W (Unit {0})

-- `Display` of `StorageError`
unfoldable pub storage_error_str : StorageError → Text
storage_error_str not_found = codes "not found"
storage_error_str forbidden = codes "forbidden"
storage_error_str stale_parent = codes "stale parent"
storage_error_str (internal m) = codes "storage error: " ++ m

abbrev pub interrupted_note : Text
interrupted_note =
    codes
      "The previous assistant response was interrupted by the user and may be incomplete. Treat it as partial context, not as a finished answer."

module _ {x : Platform} where
  abbrev pub last_id : Option (MessageDto x) → Option Text
  last_id none = none
  last_id (some message) = some message.id

  abbrev pub llm_message : MessageDto x → LlmMessage
  llm_message message = record { role = message.role; content = message.content }

  -- The loop of `llm_messages` over the history, whose last message has the id given.
  unfoldable pub history_messages : Option Text → List (MessageDto x) → List LlmMessage
  history_messages tail [] = []
  history_messages tail (message ∷ messages) =
      let rest = history_messages tail messages in
      if same_option (some message.id) tail && message.interrupted
      then llm_message message
        ∷ (record { role = MessageRole.system; content = interrupted_note } ∷ rest)
      else llm_message message ∷ rest

  unfoldable pub llm_messages : List (MessageDto x) → Text → List LlmMessage
  unfolding history_messages
  llm_messages history user_text =
      history_messages (last_id (last? history)) history
      ++ record { role = MessageRole.user; content = user_text } ∷ []

  abbrev pub is_stop_for_turn : TurnRequested x → StopSignal → Bool
  is_stop_for_turn command signal =
      same signal.tenant_id command.tenant_id
      && same signal.conversation_id command.conversation_id
      && same signal.turn_id command.turn_id
