-- ===== src/Chat/Repository.antt =====
-- crates/storage/src/lib.rs: the in-memory repository of conversations. Every row of the source's
-- map stands under its own id, so that the map is the list of the rows.
pub mod Commit
pub mod Calls
pub mod Visibility
pub mod Turns
pub mod ReadBack
use delphi.Base.{
  ℕ, zero, suc, ◌+◌, Bool, true, false, not, ◌&&◌, Option, none, some, List, [], ◌∷◌, ◌++◌, map,
  Text, Result, ok, err, and_then, Action, pure, codes, same, same_option, keep, find, take, last?,
  length, and_some, if◌then◌else◌,
}
use delphi.Platform.{Platform}
use delphi.Chat.Contracts.{CitationEntry, MessageDto, ConversationSummary, ConversationDetail}

pub data StorageError : Type 0 where
  not_found forbidden stale_parent : StorageError
  internal : Text → StorageError

pub record StoredConversation (x : Platform) : Type 0 where
  pub id : Text
  pub tenant_id : Text
  pub user_id : Text
  pub title : Text
  pub updated_at : x.Time
  pub deleted_at : Option x.Time
  pub next_message_ordinal : ℕ
  pub messages : List (MessageDto x)

-- The values of the map `conversations`.
abbrev pub MemoryState : Platform → Type 0
MemoryState x = List (StoredConversation x)

abbrev pub default_title : Text
default_title = codes "New chat"

-- `Option::unwrap_or_else`
abbrev pub or_title : Option Text → Text
or_title none = default_title
or_title (some title) = title

abbrev pub is_none : {A : Type 0} → Option A → Bool
is_none none = true
is_none (some a) = false

module _ {x : Platform} where
  unfoldable pub visible_to : StoredConversation x → Text → Text → Bool
  visible_to row tenant user =
      is_none row.deleted_at && same row.tenant_id tenant && same row.user_id user

  unfoldable pub ensure_visible :
      StoredConversation x → Text → Text → Result StorageError (Unit {0})
  unfolding visible_to
  ensure_visible row tenant user =
      if visible_to row tenant user
      then ok tt
      else if same row.tenant_id tenant
      then err forbidden
      else err not_found

  abbrev pub to_detail : StoredConversation x → ConversationDetail x
  to_detail row = record {
    id = row.id;
    title = row.title;
    messages = row.messages;
    updated_at = row.updated_at;
  }

  abbrev pub to_summary : StoredConversation x → ConversationSummary x
  to_summary row = record { id = row.id; title = row.title; updated_at = row.updated_at }

  -- `conversations.get(id)`
  unfoldable pub row_at : Text → MemoryState x → Option (StoredConversation x)
  row_at id = find (λ row. same row.id id)

  -- A write through `get_mut`.
  unfoldable pub put_row : StoredConversation x → MemoryState x → MemoryState x
  put_row new [] = []
  put_row new (old ∷ rows) =
      let others = put_row new rows in if same old.id new.id then new ∷ rows else old ∷ others

  -- `conversations.insert(id, row)`, for the row's own id
  unfoldable pub insert_row : StoredConversation x → MemoryState x → MemoryState x
  unfolding row_at put_row
  insert_row new rows = elim (row_at new.id rows) [
    | none ↦ new ∷ rows
    | some old ↦ put_row new rows
  ]

  -- `ok_or(NotFound)?`, and `ensure_visible(..)?`
  unfoldable pub visible_row :
      Text → Text → Option (StoredConversation x) → Result StorageError (StoredConversation x)
  unfolding ensure_visible
  visible_row tenant user none = err not_found
  visible_row tenant user (some row) = and_then (ensure_visible row tenant user) λ u. ok row

  -- What an operation does with the row that it found.
  abbrev pub on_row :
      {A : Type 0}
      → (StoredConversation x → Action (MemoryState x) (Result StorageError A))
      → Result StorageError (StoredConversation x)
      → Action (MemoryState x) (Result StorageError A)
  on_row act (ok row) = act row
  on_row act (err error) = pure (err error)

  -- An operation on the row of a conversation that the caller can see.
  abbrev pub with_row :
      {A : Type 0}
      → Text
      → Text
      → Text
      → (StoredConversation x → Action (MemoryState x) (Result StorageError A))
      → Action (MemoryState x) (Result StorageError A)
  with_row tenant user conversation act rows =
      on_row act (visible_row tenant user (row_at conversation rows)) rows

  -- `sort_by_key(Reverse(updated_at))`, which is stable
  unfoldable pub insert_newest :
      ConversationSummary x → List (ConversationSummary x) → List (ConversationSummary x)
  insert_newest new [] = new ∷ []
  insert_newest new (old ∷ rows) =
      let rest = insert_newest new rows in
      if x.at_or_before old.updated_at new.updated_at then new ∷ (old ∷ rows) else old ∷ rest

  unfoldable pub newest_first : List (ConversationSummary x) → List (ConversationSummary x)
  unfolding insert_newest
  newest_first [] = []
  newest_first (row ∷ rows) = insert_newest row (newest_first rows)

  unfoldable pub list_conversations :
      Text → Text → Action (MemoryState x) (Result StorageError (List (ConversationSummary x)))
  unfolding visible_to newest_first
  list_conversations tenant user rows =
      (ok (newest_first (map to_summary (keep (λ row. visible_to row tenant user) rows))), rows)

  abbrev pub new_row : Text → Text → Option Text → x.Time → Text → StoredConversation x
  new_row tenant user title now id = record {
    id = id;
    tenant_id = tenant;
    user_id = user;
    title = or_title title;
    updated_at = now;
    deleted_at = none;
    next_message_ordinal = 1;
    messages = [];
  }

  unfoldable pub create_conversation :
      Text
      → Text
      → Option Text
      → x.Time
      → Text
      → Action (MemoryState x) (Result StorageError (ConversationDetail x))
  unfolding insert_row
  create_conversation tenant user title now id rows =
      let row = new_row tenant user title now id in (ok (to_detail row), insert_row row rows)

  unfoldable pub get_conversation :
      Text → Text → Text → Action (MemoryState x) (Result StorageError (ConversationDetail x))
  unfolding visible_row row_at
  get_conversation tenant user conversation =
      with_row tenant user conversation λ row. pure (ok (to_detail row))

  -- The write of a row, and the detail that is answered.
  abbrev pub answer_detail :
      StoredConversation x → Action (MemoryState x) (Result StorageError (ConversationDetail x))
  answer_detail row rows = (ok (to_detail row), put_row row rows)

  unfoldable pub rename_conversation :
      Text
      → Text
      → Text
      → Text
      → x.Time
      → Action (MemoryState x) (Result StorageError (ConversationDetail x))
  unfolding visible_row row_at put_row
  rename_conversation tenant user conversation title now =
      with_row tenant user conversation
        λ row. answer_detail (record row { title = title; updated_at = now })

  unfoldable pub rename_conversation_if_default :
      Text
      → Text
      → Text
      → Text
      → x.Time
      → Action (MemoryState x) (Result StorageError (Option (ConversationDetail x)))
  unfolding visible_row row_at put_row
  rename_conversation_if_default tenant user conversation title now =
      with_row tenant user conversation λ row rows.
        let renamed = record row { title = title; updated_at = now } in
        if not (same row.title default_title)
        then (ok none, rows)
        else (ok (some (to_detail renamed)), put_row renamed rows)

  unfoldable pub delete_conversation :
      Text → Text → Text → x.Time → Action (MemoryState x) (Result StorageError (Unit {0}))
  unfolding visible_row row_at put_row
  delete_conversation tenant user conversation now =
      with_row tenant user conversation
        λ row rows. (ok tt, put_row (record row { deleted_at = some now }) rows)

  abbrev pub id_of_last : Option (MessageDto x) → Option Text
  id_of_last none = none
  id_of_last (some message) = some message.id

  unfoldable pub assert_parent_tail :
      Text → Text → Text → Option Text → Action (MemoryState x) (Result StorageError (Unit {0}))
  unfolding visible_row row_at
  assert_parent_tail tenant user conversation parent = with_row tenant user conversation λ row.
      pure
        (if same_option (id_of_last (last? row.messages)) parent then ok tt else err stale_parent)

  unfoldable pub record_turn_failed :
      Text → Text → Text → Action (MemoryState x) (Result StorageError (Unit {0}))
  unfolding visible_row row_at
  record_turn_failed tenant user conversation =
      with_row tenant user conversation λ row. pure (ok tt)
