-- ===== src/Chat/Repository/ReadBack.antt =====
-- A committed turn is read back.
use delphi.Base.{
  ℕ, suc, ◌≡◌, ◌≢◌, refl, sym, ap, ◌∙◌, inl, inr, Bool, true, false, none, List, All, same, same→eq,
  same_iff, Bool-cases, Option, some, [], ◌∷◌, ◌++◌, Text, ok, same_refl, arith, Option-cases,
  Result-cases, ok_inj, take, last?, last?-snoc,
}
use mathlib.Core.Path.{subst}
use mathlib.Core.List.{append_assoc}
use delphi.Platform.{Platform}
use delphi.Chat.Contracts.{MessageRole, MessageDto, ConversationDetail}
use delphi.Chat.Repository.{
  StoredConversation, MemoryState, visible_to, ensure_visible, row_at, put_row, visible_row,
  get_conversation, assert_parent_tail, to_detail,
}
use delphi.Chat.Repository.Commit.{
  Turn, commit_turn_with_metadata, retain_len, position, one_more, committed, user_message,
  assistant_message,
}
use delphi.Chat.Repository.Calls.{row_at-id, row_at-put_own, visible_row_ok}

-- The messages that stay when a turn is committed after `parent`: none without a parent, and else
-- those up to the first one with its id.
abbrev pub IsKept :
    {x : Platform} → Option Text → List (MessageDto x) → List (MessageDto x) → Type 0
IsKept none messages kept = kept ≡ []
IsKept {x} (some parent) messages kept =
    (earlier : List (MessageDto x)) × (tail : MessageDto x) × (later : List (MessageDto x))
    × (messages ≡ earlier ++ tail ∷ later)
    × (kept ≡ earlier ++ tail ∷ [])
    × (tail.id ≡ parent)
    × All (λ m. m.id ≢ parent) earlier

-- The message of the user that a turn stores.
abbrev pub IsUserMessage : {x : Platform} → Turn → x.Time → MessageDto x → Type 0
IsUserMessage turn now m =
    (m.id ≡ turn.user_message_id)
    × (m.role ≡ MessageRole.user)
    × (m.content ≡ turn.user_text)
    × (m.parent_message_id ≡ turn.parent_message_id)
    × (m.citations ≡ [])
    × (m.turn_id ≡ some turn.turn_id)
    × (m.interrupted ≡ false)
    × (m.finish_reason ≡ none)
    × (m.created_at ≡ now)

-- The message of the assistant that a turn stores.
abbrev pub IsAssistantMessage :
    {x : Platform} → Turn → Bool → Option Text → x.Time → MessageDto x → Type 0
IsAssistantMessage turn interrupted finish_reason now m =
    (m.id ≡ turn.assistant_message_id)
    × (m.role ≡ MessageRole.assistant)
    × (m.content ≡ turn.assistant_text)
    × (m.parent_message_id ≡ some turn.user_message_id)
    × (m.citations ≡ turn.citations)
    × (m.turn_id ≡ some turn.turn_id)
    × (m.interrupted ≡ interrupted)
    × (m.finish_reason ≡ finish_reason)
    × (m.created_at ≡ now)

one_more-some : (n : Option ℕ) {k : ℕ} → one_more n ≡ some k → (m : ℕ) × (n ≡ some m) × (k ≡ suc m)
one_more-some none h = absurd (cc)
one_more-some (some n) {k} h = (n, refl, ground arith)

position-IsKept :
    {x : Platform} (parent : Text) (messages : List (MessageDto x)) (n : ℕ)
    → position parent messages ≡ some n
    → IsKept (some parent) messages (take (suc n) messages)
unfolding position
position-IsKept parent [] n h = absurd (cc)
position-IsKept parent (m ∷ ms) n h = elim (Bool-cases (same m.id parent)) [
  | inl q ↦
      let first : n ≡ 0 = ground arith in
      ([], m, ms, refl, rw (first, take) refl, same→eq m.id parent q, tt)
  | inr q ↦
      let (k, found, next) = one_more-some (position parent ms) (rw q at h) in
      let (earlier, tail, later, all, kept, here, others) = position-IsKept parent ms k found in
      (
        m ∷ earlier,
        tail,
        later,
        ap (λ r. m ∷ r) all,
        rw next (ap (λ r. m ∷ r) kept),
        here,
        (
          λ e. let yes : same m.id parent ≡ true = (same_iff m.id parent).1 e in absurd (cc),
          others,
        ),
      )
]

retain_len-IsKept :
    {x : Platform} (parent : Option Text) (messages : List (MessageDto x)) (kept : ℕ)
    → retain_len parent messages ≡ some kept
    → IsKept parent messages (take kept messages)
unfolding retain_len
retain_len-IsKept none messages kept h =
    let zero_kept : kept ≡ 0 = ground arith in rw (zero_kept, take) refl
retain_len-IsKept (some parent) messages kept h =
    let (n, found, next) = one_more-some (position parent messages) h in
    subst (λ kept. IsKept (some parent) messages (take kept messages)) (sym next)
      (position-IsKept parent messages n found)

module _ {x : Platform} where
  commit_found :
      (tenant user c : Text) (turn : Turn) (interrupted : Bool) (finish_reason : Option Text)
      (now : x.Time) (rows : MemoryState x) (detail : ConversationDetail x)
      → (commit_turn_with_metadata tenant user c turn interrupted finish_reason now rows).0
        ≡ ok detail
      → (row : StoredConversation x) × (kept : ℕ) × (row_at c rows ≡ some row)
        × (visible_to row tenant user ≡ true)
        × (retain_len turn.parent_message_id row.messages ≡ some kept)
        × (detail ≡ to_detail (committed turn interrupted finish_reason now kept row))
        × ((commit_turn_with_metadata tenant user c turn interrupted finish_reason now rows).1
            ≡ put_row (committed turn interrupted finish_reason now kept row) rows)
  unfolding commit_turn_with_metadata
  commit_found tenant user c turn interrupted finish_reason now rows detail h =
      elim (Result-cases (visible_row tenant user (row_at c rows))) [
        | inr (error, q) ↦ absurd (ground arith)
        | inl (row, q) ↦ elim (Option-cases (retain_len turn.parent_message_id row.messages)) [
          | inl p ↦ absurd (ground arith)
          | inr (kept, p) ↦
              let (found, seen) = visible_row_ok tenant user (row_at c rows) q in
              (row, kept, found, seen, p, sym (ok_inj (rw (q, p) at h)), rw (q, p) refl)
        ]
      ]

  visible_row_seen :
      (tenant user : Text) (row : StoredConversation x)
      → visible_to row tenant user ≡ true
      → visible_row tenant user (some row) ≡ ok row
  unfolding visible_row ensure_visible
  visible_row_seen tenant user row h = rw h refl

  put_found :
      (c : Text) (rows : MemoryState x) (row new : StoredConversation x)
      → row_at c rows ≡ some row
      → new.id ≡ row.id
      → row_at c (put_row new rows) ≡ some new
  put_found c rows row new found e =
      let here : c ≡ new.id = sym (e ∙ row_at-id c rows found) in
      let found_new : row_at new.id rows ≡ some row = rw (← here) found in
      ap (λ id. row_at id (put_row new rows)) here ∙ row_at-put_own new rows found_new

  get_found :
      (tenant user c : Text) (rows : MemoryState x) (row : StoredConversation x)
      → row_at c rows ≡ some row
      → visible_to row tenant user ≡ true
      → (get_conversation tenant user c rows).0 ≡ ok (to_detail row)
  unfolding get_conversation
  get_found tenant user c rows row found seen =
      rw (found, visible_row_seen tenant user row seen) refl

  tail_found :
      (tenant user c : Text) (rows : MemoryState x) (row : StoredConversation x)
      (message : MessageDto x)
      → row_at c rows ≡ some row
      → visible_to row tenant user ≡ true
      → last? row.messages ≡ some message
      → (assert_parent_tail tenant user c (some message.id) rows).0 ≡ ok tt
  unfolding assert_parent_tail
  tail_found tenant user c rows row message found seen last =
      rw (found, visible_row_seen tenant user row seen, last, same_refl message.id) refl

  visible_committed :
      (tenant user : Text) (turn : Turn) (interrupted : Bool) (finish_reason : Option Text)
      (now : x.Time) (kept : ℕ) (row : StoredConversation x)
      → visible_to row tenant user ≡ true
      → visible_to (committed turn interrupted finish_reason now kept row) tenant user ≡ true
  unfolding visible_to
  visible_committed tenant user turn interrupted finish_reason now kept row h = h

  -- A committed turn is read back. The answer has the id and the title of the conversation, the
  -- messages up to the first with the parent's id, or none of them without a parent, then the message
  -- of the user and that of the assistant with the texts, ids and marks of the turn; the same caller
  -- gets that answer from then on, and the assistant's message is the tail that a next turn names.
  pub commit_turn-get_conversation :
      (tenant user c : Text) (turn : Turn) (interrupted : Bool) (finish_reason : Option Text)
      (now : x.Time) (rows : MemoryState x) (detail : ConversationDetail x)
      → (commit_turn_with_metadata tenant user c turn interrupted finish_reason now rows).0
        ≡ ok detail
      → (row : StoredConversation x) × (kept : List (MessageDto x)) × (asked : MessageDto x)
        × (answered : MessageDto x) × (row_at c rows ≡ some row)
        × (detail.id ≡ row.id)
        × (detail.title ≡ row.title)
        × IsKept turn.parent_message_id row.messages kept
        × (detail.messages ≡ kept ++ asked ∷ (answered ∷ []))
        × IsUserMessage turn now asked
        × IsAssistantMessage turn interrupted finish_reason now answered
        × ((get_conversation tenant user c
              (commit_turn_with_metadata tenant user c turn interrupted finish_reason now rows).1).0
            ≡ ok detail)
        × ((assert_parent_tail tenant user c
              (some turn.assistant_message_id)
              (commit_turn_with_metadata tenant user c turn interrupted finish_reason now rows).1).0
            ≡ ok tt)
  commit_turn-get_conversation tenant user c turn interrupted finish_reason now rows detail h =
      let (row, kept, found, seen, p, e, after) =
        commit_found tenant user c turn interrupted finish_reason now rows detail h in
      let stored =
        put_found c rows row (committed turn interrupted finish_reason now kept row) found refl in
      let visible =
        visible_committed tenant user turn interrupted finish_reason now kept row seen in
      (
        row,
        take kept row.messages,
        user_message turn now,
        assistant_message turn interrupted finish_reason now,
        found,
        ap (λ d. d.id) e,
        ap (λ d. d.title) e,
        retain_len-IsKept turn.parent_message_id row.messages kept p,
        ap (λ d. d.messages) e ∙ append_assoc (take kept row.messages) _ _,
        (refl, refl, refl, refl, refl, refl, refl, refl, refl),
        (refl, refl, refl, refl, refl, refl, refl, refl, refl),
        ap (λ rows'. (get_conversation tenant user c rows').0) after
            ∙ get_found tenant user c _ _ stored visible
            ∙ ap ok (sym e),
        ap (λ rows'. (assert_parent_tail tenant user c (some turn.assistant_message_id) rows').0)
              after
            ∙ tail_found tenant user c _ _ (assistant_message turn interrupted finish_reason now)
                stored visible
                (last?-snoc (take kept row.messages ++ user_message turn now ∷ []) _),
      )
