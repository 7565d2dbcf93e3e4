-- ===== src/App/Append.antt =====
-- crates/document-app/src/append.rs: the two append paths.
pub mod Frames
use delphi.Base.{
  ℕ, zero, suc, ◌+◌, ◌%◌, ◌^◌, Bool, true, false, not, Option, none, some, Text, Result, ok, err,
  Action, pure, ◌>>=◌, ◌==◌, if◌then◌else◌,
}
use delphi.Platform.{Platform}
use delphi.Domain.Events.{DocumentEvent}
use delphi.App.Errors.{
  AppendError, EventStoreError, already_created, no_such_document, version_mismatch,
  conflict_retry_exhausted, store,
}
use delphi.App.Ports.{Expect, create_only, exactly, Appended, EventStore}

abbrev pub update_attempts : ℕ
update_attempts = 3

-- Addition on `u64` as a release build computes it.
abbrev pub next_version : ℕ → ℕ
next_version v = (v + 1) % 2 ^ 64

-- The arms on the answer of `last` in `resolve_duplicate`.
unfoldable pub resolved : Result EventStoreError (Option (ℕ × ℕ)) → Result AppendError Appended
resolved (err error) = err (store error)
resolved (ok none) = err no_such_document
resolved (ok (some (version, stream_seq))) =
    ok (record { stream_seq = stream_seq; version = version; duplicate = true })

-- The check of the caller's version: the error, if it does not match.
abbrev pub mismatch : Option ℕ → ℕ → Option AppendError
mismatch none current = none
mismatch (some client) current =
    if client == current then none else some (version_mismatch client current)

module _ {x : Platform} {W : Type 0} (events : EventStore x W) where
  unfoldable pub resolve_duplicate : Text → Text → Appended → Action W (Result AppendError Appended)
  unfolding resolved
  resolve_duplicate tenant document appended =
      if not appended.duplicate
      then pure (ok appended)
      else events.last tenant document >>= λ answer. pure (resolved answer)

  unfoldable pub after_create :
      Text → Text → Result EventStoreError Appended → Action W (Result AppendError Appended)
  unfolding resolve_duplicate
  after_create tenant document (ok appended) = resolve_duplicate tenant document appended
  after_create tenant document (err EventStoreError.conflict) = pure (err already_created)
  after_create tenant document (err error) = pure (err (store error))

  unfoldable pub append_create : DocumentEvent x → Action W (Result AppendError Appended)
  unfolding after_create
  append_create event =
      events.append event create_only >>= after_create event.tenant_id event.document_id

  unfoldable pub after_append :
      Action W (Result AppendError Appended)
      → Text
      → Text
      → Result EventStoreError Appended
      → Action W (Result AppendError Appended)
  unfolding resolve_duplicate
  after_append again tenant document (ok appended) = resolve_duplicate tenant document appended
  after_append again tenant document (err EventStoreError.conflict) = again
  after_append again tenant document (err error) = pure (err (store error))

  -- One round of the loop, from the answer of `last`.
  unfoldable pub after_last :
      Action W (Result AppendError Appended)
      → Text
      → Text
      → Option ℕ
      → (ℕ → DocumentEvent x)
      → Result EventStoreError (Option (ℕ × ℕ))
      → Action W (Result AppendError Appended)
  unfolding after_append
  after_last again tenant document client build (err error) = pure (err (store error))
  after_last again tenant document client build (ok none) = pure (err no_such_document)
  after_last again tenant document client build (ok (some (current_version, current_seq))) =
      elim (mismatch client current_version) [
        | some error ↦ pure (err error)
        | none ↦
            events.append (build (next_version current_version)) (exactly current_seq)
            >>= after_append again tenant document
      ]

  unfoldable pub append_update_rounds :
      ℕ → Text → Text → Option ℕ → (ℕ → DocumentEvent x) → Action W (Result AppendError Appended)
  unfolding after_last
  append_update_rounds zero tenant document client build = pure (err conflict_retry_exhausted)
  append_update_rounds (suc n) tenant document client build =
      events.last tenant document
      >>= after_last (append_update_rounds n tenant document client build) tenant document client
          build

  unfoldable pub append_update :
      Text → Text → Option ℕ → (ℕ → DocumentEvent x) → Action W (Result AppendError Appended)
  unfolding append_update_rounds
  append_update = append_update_rounds update_attempts
