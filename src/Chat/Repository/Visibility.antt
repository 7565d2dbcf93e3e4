-- ===== src/Chat/Repository/Visibility.antt =====
-- What a caller cannot see, it neither reads nor changes.
use mathlib.Core.List.{Memᴰ}
use delphi.Base.{
  All, List, [], Option, map, keep, ok, ◌⊎◌, ◌≢◌, arith, same_iff, ◌≡◌, refl, sym, ◌∙◌, inl, inr,
  true, false, none, some, ◌∷◌, Text, err, same, same→eq, if◌then◌else◌, Bool-cases, Option-cases,
}
use delphi.Platform.{Platform}
use delphi.Chat.Contracts.{ConversationSummary}
use delphi.Chat.Repository.{
  assert_parent_tail, list_conversations, newest_first, insert_newest, to_summary, forbidden,
  not_found, StoredConversation, MemoryState, visible_to, is_none, ensure_visible, row_at, put_row,
  insert_row, visible_row, get_conversation, new_row, create_conversation, rename_conversation,
  rename_conversation_if_default, delete_conversation, default_title,
}
use delphi.Chat.Repository.Commit.{commit_turn_with_metadata, retain_len}
use delphi.Chat.Repository.Calls.{
  RepositoryCall, create, rename, rename_if_default, delete, commit, run_call, IsFresh, row_at-id,
  row_at-put_other, with_row-inv,
}

module _ {x : Platform} (tenant user : Text) (id : Text) (hidden : StoredConversation x)
    (unseen : visible_to hidden tenant user ≡ false) where
  -- A write to a row that the caller sees is a write to another row.
  put_row-hidden :
      (c : Text) (rows : MemoryState x) (row new : StoredConversation x)
      → row_at id rows ≡ some hidden
      → row_at c rows ≡ some row
      → visible_to row tenant user ≡ true
      → new.id ≡ row.id
      → row_at id (put_row new rows) ≡ some hidden
  put_row-hidden c rows row new h found seen e = elim (Bool-cases (same new.id id)) [
    | inr q ↦ row_at-put_other new rows id q ∙ h
    | inl q ↦
        let here : c ≡ id = sym (row_at-id c rows found) ∙ sym e ∙ same→eq new.id id q in
        let found_here : row_at id rows ≡ some row = rw (← here) found in absurd (cc)
  ]

  row_at-cons :
      (rows : MemoryState x) (new : StoredConversation x)
      → row_at id rows ≡ some hidden
      → row_at new.id rows ≡ none
      → row_at id (new ∷ rows) ≡ some hidden
  unfolding row_at
  row_at-cons rows new h fresh = elim (Bool-cases (same new.id id)) [
    | inr q ↦ rw q h
    | inl q ↦ let here : row_at id rows ≡ none = rw (← same→eq new.id id q) fresh in absurd (cc)
  ]

  insert_row-hidden :
      (rows : MemoryState x) (new : StoredConversation x)
      → row_at id rows ≡ some hidden
      → row_at new.id rows ≡ none
      → row_at id (insert_row new rows) ≡ some hidden
  unfolding insert_row
  insert_row-hidden rows new h fresh = rw (insert_row, fresh) (row_at-cons rows new h fresh)

  run_call-hidden :
      (call : RepositoryCall x) (rows : MemoryState x)
      → IsFresh call rows
      → row_at id rows ≡ some hidden
      → row_at id (run_call tenant user call rows) ≡ some hidden
  unfolding run_call create_conversation rename_conversation rename_conversation_if_default
      delete_conversation commit_turn_with_metadata
  run_call-hidden (create title now new) rows fresh h =
      insert_row-hidden rows (new_row tenant user title now new) h fresh
  run_call-hidden (rename c title now) rows fresh h =
      with_row-inv (λ rows. row_at id rows ≡ some hidden) tenant user c _ rows h
        (λ row found seen. put_row-hidden c rows row _ h found seen refl)
  run_call-hidden (rename_if_default c title now) rows fresh h =
      with_row-inv (λ rows. row_at id rows ≡ some hidden) tenant user c _ rows h
        (λ row found seen. elim (Bool-cases (same row.title default_title)) [
          | inl q ↦ rw q (put_row-hidden c rows row _ h found seen refl)
          | inr q ↦ rw q h
        ])
  run_call-hidden (delete c now) rows fresh h =
      with_row-inv (λ rows. row_at id rows ≡ some hidden) tenant user c _ rows h
        (λ row found seen. put_row-hidden c rows row _ h found seen refl)
  run_call-hidden (commit c turn interrupted finish_reason now) rows fresh h =
      with_row-inv (λ rows. row_at id rows ≡ some hidden) tenant user c _ rows h
        (λ row found seen. elim (Option-cases (retain_len turn.parent_message_id row.messages)) [
          | inl q ↦ rw q h
          | inr (kept, q) ↦ rw q (put_row-hidden c rows row _ h found seen refl)
        ])

  get_conversation-hidden :
      (rows : MemoryState x)
      → row_at id rows ≡ some hidden
      → get_conversation tenant user id rows
        ≡ (err (if same hidden.tenant_id tenant then forbidden else not_found), rows)
  unfolding get_conversation visible_row ensure_visible
  get_conversation-hidden rows h = elim (Bool-cases (same hidden.tenant_id tenant)) [
    | inl q ↦ rw (h, unseen, q) refl
    | inr q ↦ rw (h, unseen, q) refl
  ]

  assert_parent_tail-hidden :
      (parent : Option Text) (rows : MemoryState x)
      → row_at id rows ≡ some hidden
      → (assert_parent_tail tenant user id parent rows).0
        ≡ err (if same hidden.tenant_id tenant then forbidden else not_found)
  unfolding assert_parent_tail visible_row ensure_visible
  assert_parent_tail-hidden parent rows h = elim (Bool-cases (same hidden.tenant_id tenant)) [
    | inl q ↦ rw (h, unseen, q) refl
    | inr q ↦ rw (h, unseen, q) refl
  ]

-- The conversation was deleted, or belongs to another tenant or another user.
abbrev pub IsHidden : {x : Platform} → Text → Text → StoredConversation x → Type 0
IsHidden tenant user row =
    (is_none row.deleted_at ≡ false) ⊎ (row.tenant_id ≢ tenant) ⊎ (row.user_id ≢ user)

module _ {x : Platform} where
  visible_to-IsHidden :
      (tenant user : Text) (row : StoredConversation x)
      → IsHidden tenant user row
      → visible_to row tenant user ≡ false
  unfolding visible_to
  visible_to-IsHidden tenant user row h =
      ground (arith, same_iff row.tenant_id tenant, same_iff row.user_id user)

  visible_to-not-IsHidden :
      (tenant user : Text) (row : StoredConversation x)
      → visible_to row tenant user ≡ true
      → ¬ IsHidden tenant user row
  visible_to-not-IsHidden tenant user row h hidden =
      let unseen = visible_to-IsHidden tenant user row hidden in absurd (cc)

  -- The summary is that of a row that is not hidden.
  abbrev pub IsListed : Text → Text → MemoryState x → ConversationSummary x → Type 0
  IsListed tenant user rows summary =
      (row : StoredConversation x) × Memᴰ row rows
      × (¬ IsHidden tenant user row)
      × (summary ≡ to_summary row)

  insert_newest-All :
      (P : ConversationSummary x → Type 0) (new : ConversationSummary x)
      (rows : List (ConversationSummary x))
      → P new
      → All P rows
      → All P (insert_newest new rows)
  unfolding insert_newest
  insert_newest-All P new [] p all = (p, tt)
  insert_newest-All P new (old ∷ rows) p (first, rest) =
      elim (Bool-cases (x.at_or_before old.updated_at new.updated_at)) [
        | inl q ↦ rw q (p, (first, rest))
        | inr q ↦ rw q (first, insert_newest-All P new rows p rest)
      ]

  newest_first-All :
      (P : ConversationSummary x → Type 0) (rows : List (ConversationSummary x))
      → All P rows
      → All P (newest_first rows)
  unfolding newest_first
  newest_first-All P [] all = tt
  newest_first-All P (row ∷ rows) (first, rest) =
      insert_newest-All P row (newest_first rows) first (newest_first-All P rows rest)

  visible-IsListed :
      (tenant user : Text) (all : MemoryState x) (rows : MemoryState x)
      → ((row : StoredConversation x) → Memᴰ row rows → Memᴰ row all)
      → All
          (IsListed tenant user all)
          (map to_summary (keep (λ row. visible_to row tenant user) rows))
  visible-IsListed tenant user all [] within = tt
  visible-IsListed tenant user all (row ∷ rows) within =
      let rest = visible-IsListed tenant user all rows (λ r m. within r (Memᴰ.tail m)) in
      elim (Bool-cases (visible_to row tenant user)) [
        | inl q ↦ rw q (
          (row, within row (Memᴰ.head refl), visible_to-not-IsHidden tenant user row q, refl),
          rest,
        )
        | inr q ↦ rw q rest
      ]

  -- A conversation that was deleted, or that belongs to another tenant or another user: reading it,
  -- and checking its tail, fails, as forbidden within the tenant and as not found from outside; no
  -- call of the caller, on this or on any other conversation, changes it, if the id of a created
  -- conversation is new; and what the caller lists is made of conversations that are not so hidden.
  pub hidden_stays :
      (tenant user id : Text) (hidden : StoredConversation x) (parent : Option Text)
      (call : RepositoryCall x) (rows : MemoryState x)
      → IsHidden tenant user hidden
      → IsFresh call rows
      → row_at id rows ≡ some hidden
      → (row_at id (run_call tenant user call rows) ≡ some hidden)
        × (get_conversation tenant user id rows
            ≡ (err (if same hidden.tenant_id tenant then forbidden else not_found), rows))
        × ((assert_parent_tail tenant user id parent rows).0
            ≡ err (if same hidden.tenant_id tenant then forbidden else not_found))
        × (listed : List (ConversationSummary x)) × (list_conversations tenant user rows
            ≡ (ok listed, rows))
        × All (IsListed tenant user rows) listed
  unfolding list_conversations
  hidden_stays tenant user id hidden parent call rows h fresh found =
      let unseen = visible_to-IsHidden tenant user hidden h in
      (
        run_call-hidden tenant user id hidden unseen call rows fresh found,
        get_conversation-hidden tenant user id hidden unseen rows found,
        assert_parent_tail-hidden tenant user id hidden unseen parent rows found,
        newest_first (map to_summary (keep (λ row. visible_to row tenant user) rows)),
        refl,
        newest_first-All (IsListed tenant user rows) _
            (visible-IsListed tenant user rows rows (λ row m. m)),
      )
