-- ===== src/Chat/Repository/Turns.antt =====
-- The messages of a conversation form one chain of parents, whatever is called.
use delphi.Base.{
  ℕ, suc, ◌+◌, ◌≡◌, refl, sym, ap, ◌∙◌, inl, inr, Bool, Option, none, some, List, [], ◌∷◌, ◌++◌,
  Text, same, same→eq, arith, Bool-cases, Option-cases, take, length, All,
}
use mathlib.Core.Path.{subst}
use delphi.Platform.{Platform}
use delphi.Chat.Contracts.{MessageDto}
use delphi.Chat.Repository.{
  StoredConversation, MemoryState, row_at, put_row, insert_row, new_row, create_conversation,
  rename_conversation, rename_conversation_if_default, delete_conversation, default_title,
}
use delphi.Chat.Repository.Commit.{
  Turn, commit_turn_with_metadata, position, retain_len, committed, user_message, assistant_message,
}
use delphi.Chat.Repository.Calls.{
  RepositoryCall, create, rename, rename_if_default, delete, commit, run_call, with_row-inv,
}

some_inj {ℓ} : {A : Type ℓ} {a b : A} → ◌≡◌ {A = Option A} (some a) (some b) → a ≡ b
some_inj h = cc

module _ {x : Platform} where
  -- Each message names the one before it as its parent; the first names the parent given.
  abbrev pub Chain : Option Text → List (MessageDto x) → Type 0
  Chain parent [] = Unit {0}
  Chain parent (message ∷ messages) =
      (message.parent_message_id ≡ parent) × Chain (some message.id) messages

  Chain-snoc :
      (parent : Option Text) (messages : List (MessageDto x)) (before next : MessageDto x)
      → Chain parent (messages ++ before ∷ [])
      → next.parent_message_id ≡ some before.id
      → Chain parent ((messages ++ before ∷ []) ++ next ∷ [])
  Chain-snoc parent [] before next h e = (h.0, (e, tt))
  Chain-snoc parent (message ∷ messages) before next h e =
      (h.0, Chain-snoc (some message.id) messages before next h.1 e)

  Chain-position :
      (id : Text) (messages : List (MessageDto x)) (parent : Option Text) (next : MessageDto x)
      (n : ℕ)
      → position id messages ≡ some n
      → Chain parent messages
      → next.parent_message_id ≡ some id
      → Chain parent (take (suc n) messages ++ next ∷ [])
  unfolding position
  Chain-position id [] parent next n h c e = absurd (cc)
  Chain-position id (message ∷ messages) parent next n h c e =
      elim (Bool-cases (same message.id id)) [
        | inl q ↦
            let zero_kept : n ≡ 0 = ground arith in
            rw zero_kept (c.0, (e ∙ ap some (sym (same→eq message.id id q)), tt))
        | inr q ↦ elim (Option-cases (position id messages)) [
          | inl p ↦ absurd (ground arith)
          | inr (k, p) ↦
              let more : n ≡ suc k = ground arith in
              rw more (c.0, Chain-position id messages (some message.id) next k p c.1 e)
        ]
      ]

  Chain-retain :
      (parent : Option Text) (messages : List (MessageDto x)) (next : MessageDto x) (kept : ℕ)
      → retain_len parent messages ≡ some kept
      → Chain none messages
      → next.parent_message_id ≡ parent
      → Chain none (take kept messages ++ next ∷ [])
  unfolding retain_len
  Chain-retain none messages next kept h c e =
      let nothing : kept ≡ 0 = ground arith in rw nothing (e, tt)
  Chain-retain (some id) messages next kept h c e = elim (Option-cases (position id messages)) [
    | inl p ↦ absurd (ground arith)
    | inr (k, p) ↦
        let more : kept ≡ suc k = ground arith in
        rw more (Chain-position id messages none next k p c e)
  ]

  pub record IsConversation (row : StoredConversation x) : Type 0 where
    pub chained : Chain none row.messages
    pub counted : row.next_message_ordinal ≡ length row.messages + 1

  -- The messages and the ordinal decide.
  IsConversation-same :
      (row row' : StoredConversation x)
      → row'.messages ≡ row.messages
      → row'.next_message_ordinal ≡ row.next_message_ordinal
      → IsConversation row
      → IsConversation row'
  IsConversation-same row row' p q v = record {
    chained = rw p v.chained;
    counted = rw (p, q) v.counted;
  }

  committed-IsConversation :
      (turn : Turn) (interrupted : Bool) (finish_reason : Option Text) (now : x.Time) (kept : ℕ)
      (row : StoredConversation x)
      → retain_len turn.parent_message_id row.messages ≡ some kept
      → IsConversation row
      → IsConversation (committed turn interrupted finish_reason now kept row)
  committed-IsConversation turn interrupted finish_reason now kept row h v = record {
    chained =
        Chain-snoc none (take kept row.messages) (user_message turn now)
          (assistant_message turn interrupted finish_reason now)
          (Chain-retain turn.parent_message_id row.messages (user_message turn now) kept h v.chained
            refl)
          refl;
    counted = refl;
  }

  put_row-All :
      (new : StoredConversation x) (rows : MemoryState x)
      → IsConversation new
      → All IsConversation rows
      → All IsConversation (put_row new rows)
  unfolding put_row
  put_row-All new [] v h = tt
  put_row-All new (old ∷ rows) v h = elim (Bool-cases (same old.id new.id)) [
    | inl q ↦ rw q (v, h.1)
    | inr q ↦ rw q (h.0, put_row-All new rows v h.1)
  ]

  row_at-All :
      (c : Text) (rows : MemoryState x) (row : StoredConversation x)
      → row_at c rows ≡ some row
      → All IsConversation rows
      → IsConversation row
  unfolding row_at
  row_at-All c [] row h v = absurd (cc)
  row_at-All c (first ∷ rows) row h v = elim (Bool-cases (same first.id c)) [
    | inl q ↦ subst IsConversation (some_inj (rw q at h)) v.0
    | inr q ↦ row_at-All c rows row (rw q at h) v.1
  ]

  insert_row-All :
      (new : StoredConversation x) (rows : MemoryState x)
      → IsConversation new
      → All IsConversation rows
      → All IsConversation (insert_row new rows)
  unfolding insert_row
  insert_row-All new rows v h = elim (Option-cases (row_at new.id rows)) [
    | inl q ↦ rw (insert_row, q) (v, h)
    | inr (old, q) ↦ rw (insert_row, q) (put_row-All new rows v h)
  ]

  -- Every call keeps all conversations in order: the first message has no parent, every other one
  -- names the message before it, and the next ordinal is one more than the number of messages. A
  -- turn that answers an earlier message cuts off what stood behind it.
  pub run_call-IsConversation :
      (tenant user : Text) (call : RepositoryCall x) (rows : MemoryState x)
      → All IsConversation rows
      → All IsConversation (run_call tenant user call rows)
  unfolding run_call create_conversation rename_conversation rename_conversation_if_default
      delete_conversation commit_turn_with_metadata
  run_call-IsConversation tenant user (create title now new) rows h =
      insert_row-All (new_row tenant user title now new) rows
        (record { chained = tt; counted = refl }) h
  run_call-IsConversation tenant user (rename c title now) rows h =
      with_row-inv (All IsConversation) tenant user c _ rows h (λ row found seen.
        put_row-All _ rows (IsConversation-same row _ refl refl (row_at-All c rows row found h)) h)
  run_call-IsConversation tenant user (rename_if_default c title now) rows h =
      with_row-inv (All IsConversation) tenant user c _ rows h (λ row found seen.
        elim (Bool-cases (same row.title default_title)) [
          | inl q ↦ rw q (
              put_row-All _ rows
                (IsConversation-same row _ refl refl (row_at-All c rows row found h)) h)
          | inr q ↦ rw q h
        ])
  run_call-IsConversation tenant user (delete c now) rows h =
      with_row-inv (All IsConversation) tenant user c _ rows h (λ row found seen.
        put_row-All _ rows (IsConversation-same row _ refl refl (row_at-All c rows row found h)) h)
  run_call-IsConversation tenant user (commit c turn interrupted finish_reason now) rows h =
      with_row-inv (All IsConversation) tenant user c _ rows h (λ row found seen.
        elim (Option-cases (retain_len turn.parent_message_id row.messages)) [
          | inl q ↦ rw q h
          | inr (kept, q) ↦ rw q (
              put_row-All _ rows
                (committed-IsConversation turn interrupted finish_reason now kept row q
                  (row_at-All c rows row found h))
                h)
        ])
