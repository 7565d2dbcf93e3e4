-- ===== src/Chat/Contracts.antt =====
-- crates/contracts/src/lib.rs: the types that the chat services share.
use delphi.Base.{ℕ, Bool, Option, List, Text}
use delphi.Platform.{Platform}

pub data MessageRole : Type 0 where
  user assistant system : MessageRole

pub record CitationEntry : Type 0 where
  pub index : ℕ
  pub label : Text
  pub url : Option Text

pub record MessageDto (x : Platform) : Type 0 where
  pub id : Text
  pub role : MessageRole
  pub content : Text
  pub parent_message_id : Option Text
  pub citations : List CitationEntry
  pub turn_id : Option Text
  pub interrupted : Bool
  pub finish_reason : Option Text
  pub created_at : x.Time

pub record ConversationSummary (x : Platform) : Type 0 where
  pub id : Text
  pub title : Text
  pub updated_at : x.Time

pub record ConversationDetail (x : Platform) : Type 0 where
  pub id : Text
  pub title : Text
  pub messages : List (MessageDto x)
  pub updated_at : x.Time

pub record TurnRequested (x : Platform) : Type 0 where
  pub v : ℕ
  pub command_id : Text
  pub tenant_id : Text
  pub user_id : Text
  pub conversation_id : Text
  pub turn_id : Text
  pub ts : x.Time

pub data FinishReason : Type 0 where
  -- `Error` has the name `failure`.
  stop failure : FinishReason

pub data InterruptReason : Type 0 where
  user_interrupted : InterruptReason

pub data ClearReason : Type 0 where
  cancelled worker_lost failed_before_commit : ClearReason

pub data ChatEvent : Type 0 where
  turn_started : Text → ChatEvent
  user_message : Text → Option Text → Text → ChatEvent
  citations : List CitationEntry → ChatEvent
  text_delta : Text → ChatEvent
  finish : Text → FinishReason → ChatEvent
  interrupted : Text → Text → InterruptReason → ChatEvent
  clear : ClearReason → ChatEvent
  error : Text → ChatEvent
  title_updated : Text → ChatEvent

pub record ChatEventEnvelope (x : Platform) : Type 0 where
  pub v : ℕ
  pub tenant_id : Text
  pub user_id : Text
  pub conversation_id : Text
  pub turn_id : Text
  pub ts : x.Time
  pub event : ChatEvent

pub data ServerWsMessage : Type 0 where
  subscribed : Text → ServerWsMessage
  event : Text → Text → ChatEvent → ServerWsMessage
  resync_required : Text → ServerWsMessage
  error : Text → Text → ServerWsMessage
  pong : Option Text → ServerWsMessage
