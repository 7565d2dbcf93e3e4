-- ===== src/Chat/Repository/Commit.antt =====
-- crates/storage/src/lib.rs: the commit of a turn in the in-memory repository.
use delphi.Base.{
  ℕ, suc, ◌+◌, Bool, true, false, Option, none, some, List, [], ◌∷◌, ◌++◌, Text, Result, err,
  Action, pure, codes, same, take, length, if◌then◌else◌,
}
use delphi.Platform.{Platform}
use delphi.Chat.Contracts.{CitationEntry, MessageRole, MessageDto, ConversationDetail}
use delphi.Chat.Repository.{
  StorageError, stale_parent, StoredConversation, MemoryState, with_row, answer_detail,
}

-- The texts and ids of a turn that is committed.
pub record Turn : Type 0 where
  pub turn_id : Text
  pub user_message_id : Text
  pub user_text : Text
  pub parent_message_id : Option Text
  pub assistant_message_id : Text
  pub assistant_text : Text
  pub citations : List CitationEntry

abbrev pub one_more : Option ℕ → Option ℕ
one_more none = none
one_more (some n) = some (suc n)

module _ {x : Platform} where
  -- `iter().position(..)`, for the id of a message
  unfoldable pub position : Text → List (MessageDto x) → Option ℕ
  position id [] = none
  position id (message ∷ messages) =
      let later = one_more (position id messages) in if same message.id id then some 0 else later

  -- How many messages stay: those up to the parent.
  unfoldable pub retain_len : Option Text → List (MessageDto x) → Option ℕ
  unfolding position
  retain_len none messages = some 0
  retain_len (some parent) messages = one_more (position parent messages)

  abbrev pub user_message : Turn → x.Time → MessageDto x
  user_message turn now = record {
    id = turn.user_message_id;
    role = MessageRole.user;
    content = turn.user_text;
    parent_message_id = turn.parent_message_id;
    citations = [];
    turn_id = some turn.turn_id;
    interrupted = false;
    finish_reason = none;
    created_at = now;
  }

  abbrev pub assistant_message : Turn → Bool → Option Text → x.Time → MessageDto x
  assistant_message turn interrupted finish_reason now = record {
    id = turn.assistant_message_id;
    role = MessageRole.assistant;
    content = turn.assistant_text;
    parent_message_id = some turn.user_message_id;
    citations = turn.citations;
    turn_id = some turn.turn_id;
    interrupted = interrupted;
    finish_reason = finish_reason;
    created_at = now;
  }

  -- The messages after a commit that keeps the first `kept`.
  abbrev pub with_turn :
      Turn → Bool → Option Text → x.Time → ℕ → List (MessageDto x) → List (MessageDto x)
  with_turn turn interrupted finish_reason now kept messages =
      (take kept messages ++ user_message turn now ∷ [])
      ++ assistant_message turn interrupted finish_reason now ∷ []

  abbrev pub committed :
      Turn → Bool → Option Text → x.Time → ℕ → StoredConversation x → StoredConversation x
  committed turn interrupted finish_reason now kept row = record row {
    messages = with_turn turn interrupted finish_reason now kept row.messages;
    updated_at = now;
    next_message_ordinal =
        length (with_turn turn interrupted finish_reason now kept row.messages) + 1;
  }

  abbrev pub commit_kept :
      Turn
      → Bool
      → Option Text
      → x.Time
      → StoredConversation x
      → Option ℕ
      → Action (MemoryState x) (Result StorageError (ConversationDetail x))
  commit_kept turn interrupted finish_reason now row none = pure (err stale_parent)
  commit_kept turn interrupted finish_reason now row (some kept) =
      answer_detail (committed turn interrupted finish_reason now kept row)

  unfoldable pub commit_turn_with_metadata :
      Text
      → Text
      → Text
      → Turn
      → Bool
      → Option Text
      → x.Time
      → Action (MemoryState x) (Result StorageError (ConversationDetail x))
  unfolding retain_len
  commit_turn_with_metadata tenant user conversation turn interrupted finish_reason now =
      with_row tenant user conversation λ row.
        commit_kept turn interrupted finish_reason now row
          (retain_len turn.parent_message_id row.messages)

  unfoldable pub commit_turn :
      Text
      → Text
      → Text
      → Turn
      → x.Time
      → Action (MemoryState x) (Result StorageError (ConversationDetail x))
  unfolding commit_turn_with_metadata
  commit_turn tenant user conversation turn now =
      commit_turn_with_metadata tenant user conversation turn false none now

  unfoldable pub commit_interrupted_turn :
      Text
      → Text
      → Text
      → Turn
      → x.Time
      → Action (MemoryState x) (Result StorageError (ConversationDetail x))
  unfolding commit_turn_with_metadata
  commit_interrupted_turn tenant user conversation turn now =
      commit_turn_with_metadata tenant user conversation turn true (some (codes "user_interrupted"))
        now
