-- ===== src/Chat/Repository/Calls.antt =====
-- The calls that change conversations, as values, and what holds of the rows across them.
use delphi.Base.{
  ◌≡◌, refl, inl, inr, Bool, true, false, Option, none, some, [], ◌∷◌, Text, Result, ok, Action,
  same, same→eq, same_iff, same_refl, arith, Bool-cases, Result-cases,
}
use delphi.Platform.{Platform}
use delphi.Chat.Repository.{
  StorageError, StoredConversation, MemoryState, visible_to, ensure_visible, row_at, put_row,
  visible_row, with_row, create_conversation, rename_conversation, rename_conversation_if_default,
  delete_conversation,
}
use delphi.Chat.Repository.Commit.{Turn, commit_turn_with_metadata}

pub data RepositoryCall (x : Platform) : Type 0 where
  create : Option Text → x.Time → Text → RepositoryCall x
  rename : Text → Text → x.Time → RepositoryCall x
  rename_if_default : Text → Text → x.Time → RepositoryCall x
  delete : Text → x.Time → RepositoryCall x
  commit : Text → Turn → Bool → Option Text → x.Time → RepositoryCall x

module _ {x : Platform} where
  -- The rows after a call of a user of a tenant.
  unfoldable pub run_call : Text → Text → RepositoryCall x → MemoryState x → MemoryState x
  run_call tenant user (create title now id) rows =
      (create_conversation tenant user title now id rows).1
  run_call tenant user (rename c title now) rows =
      (rename_conversation tenant user c title now rows).1
  run_call tenant user (rename_if_default c title now) rows =
      (rename_conversation_if_default tenant user c title now rows).1
  run_call tenant user (delete c now) rows = (delete_conversation tenant user c now rows).1
  run_call tenant user (commit c turn interrupted finish_reason now) rows =
      (commit_turn_with_metadata tenant user c turn interrupted finish_reason now rows).1

  -- A created conversation has an id that no row has.
  abbrev pub IsFresh : RepositoryCall x → MemoryState x → Type 0
  IsFresh (create title now id) rows = row_at id rows ≡ none
  IsFresh call rows = Unit {0}

  pub row_at-id :
      (c : Text) (rows : MemoryState x) {row : StoredConversation x}
      → row_at c rows ≡ some row
      → row.id ≡ c
  unfolding row_at
  row_at-id c [] h = absurd (cc)
  row_at-id c (first ∷ rows) {row = row} h = elim (Bool-cases (same first.id c)) [
    | inl q ↦ ground (arith, same→eq first.id c q)
    | inr q ↦ row_at-id c rows {row = row} (rw q at h)
  ]

  pub row_at-put_own :
      (new : StoredConversation x) (rows : MemoryState x) {old : StoredConversation x}
      → row_at new.id rows ≡ some old
      → row_at new.id (put_row new rows) ≡ some new
  unfolding row_at put_row
  row_at-put_own new [] h = absurd (cc)
  row_at-put_own new (first ∷ rows) {old = old} h = elim (Bool-cases (same first.id new.id)) [
    | inl q ↦ rw (q, same_refl new.id) refl
    | inr q ↦ rw (q, q) (row_at-put_own new rows {old = old} (rw q at h))
  ]

  pub row_at-put_other :
      (new : StoredConversation x) (rows : MemoryState x) (id : Text)
      → same new.id id ≡ false
      → row_at id (put_row new rows) ≡ row_at id rows
  unfolding row_at put_row
  row_at-put_other new [] id h = refl
  row_at-put_other new (first ∷ rows) id h = ground (
    arith,
    row_at-put_other new rows id h,
    same_iff first.id new.id,
    same_iff new.id id,
    same_iff first.id id,
  )

  pub visible_row_ok :
      (tenant user : Text) (found : Option (StoredConversation x)) {row : StoredConversation x}
      → visible_row tenant user found ≡ ok row
      → (found ≡ some row) × (visible_to row tenant user ≡ true)
  unfolding visible_row ensure_visible
  visible_row_ok tenant user none h = absurd (cc)
  visible_row_ok tenant user (some first) h = (ground arith, ground arith)

  -- What holds of the rows, and of the rows after an operation on each row that the caller can see,
  -- holds after the operation.
  pub with_row-inv :
      {A : Type 0} (P : MemoryState x → Type 0) (tenant user c : Text)
      (act : StoredConversation x → Action (MemoryState x) (Result StorageError A))
      (rows : MemoryState x)
      → P rows
      → ((row : StoredConversation x)
          → row_at c rows ≡ some row
          → visible_to row tenant user ≡ true
          → P (act row rows).1)
      → P (with_row tenant user c act rows).1
  with_row-inv P tenant user c act rows h keep =
      elim (Result-cases (visible_row tenant user (row_at c rows))) [
        | inr (error, q) ↦ rw q h
        | inl (row, q) ↦
            let (found, seen) = visible_row_ok tenant user (row_at c rows) q in
            rw q (keep row found seen)
      ]
