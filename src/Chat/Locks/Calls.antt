-- ===== src/Chat/Locks/Calls.antt =====
-- The calls that the services make on the locks, as values, and what each does to one entry.
use delphi.Base.{
  ℕ, ◌≡◌, inl, inr, true, false, not, ◌&&◌, ◌||◌, Option, none, some, Text, same, same→eq,
  same_refl, if◌then◌else◌, arith, Bool-cases,
}
use mathlib.Core.Path.{subst}
use delphi.Platform.{Platform}
use delphi.Chat.Locks.{
  ChatLock, ChatTerminalUpdate, Locks, lock_key, is_expired, is_terminal, is_running, of_turn,
  of_worker, lock_expires_at, running, terminated, other_worker, acquire_lock, claim_lock,
  mark_lock_terminal, mark_terminal_event_published, request_stop, renew_lock, release_lock,
}

pub data LockCall (x : Platform) : Type 0 where
  acquire : ChatLock x → LockCall x
  claim_turn : Text → Text → Text → Text → LockCall x
  mark_terminal : Text → Text → Text → Option Text → ChatTerminalUpdate → LockCall x
  mark_published : Text → Text → Text → LockCall x
  ask_stop : Text → Text → Text → LockCall x
  renew : Text → Text → Text → Text → LockCall x
  release : Text → Text → Text → LockCall x

module _ {x : Platform} where
  abbrev pub key_of : LockCall x → Text
  key_of (acquire lock) = lock_key lock.tenant_id lock.conversation_id
  key_of (claim_turn t c turn worker) = lock_key t c
  key_of (mark_terminal t c turn worker terminal) = lock_key t c
  key_of (mark_published t c turn) = lock_key t c
  key_of (ask_stop t c by) = lock_key t c
  key_of (renew t c turn worker) = lock_key t c
  key_of (release t c turn) = lock_key t c

module _ {x : Platform} (ttl : ℕ) where
  -- The locks after a call, at two readings of the clock.
  unfoldable pub run_call : LockCall x → x.Time → x.Time → Locks x → Locks x
  run_call (acquire lock) now after locks = (acquire_lock now lock locks).1
  run_call (claim_turn t c turn worker) now after locks =
      (claim_lock ttl t c turn worker now after locks).1
  run_call (mark_terminal t c turn worker terminal) now after locks =
      (mark_lock_terminal ttl t c turn worker terminal after locks).1
  run_call (mark_published t c turn) now after locks =
      (mark_terminal_event_published t c turn locks).1
  run_call (ask_stop t c by) now after locks = (request_stop t c by now after locks).1
  run_call (renew t c turn worker) now after locks =
      (renew_lock ttl t c turn worker now after locks).1
  run_call (release t c turn) now after locks = release_lock t c turn locks

  -- The entry under a call's own key after the call, from the entry before it.
  abbrev pub effect : LockCall x → x.Time → x.Time → Option (ChatLock x) → Option (ChatLock x)
  effect (acquire lock) now after none = some lock
  effect (acquire lock) now after (some old) = if is_expired now old then some lock else some old
  effect (claim_turn t c turn worker) now after none = none
  effect (claim_turn t c turn worker) now after (some old) =
      if of_turn turn old
        && not (is_terminal old)
        && not (is_expired now old)
        && not (is_running old.state && not (of_worker worker old))
      then some (record old {
        state = running;
        worker_id = some worker;
        lease_expires_at = lock_expires_at x ttl after;
      })
      else some old
  effect (mark_terminal t c turn worker terminal) now after none = none
  effect (mark_terminal t c turn worker terminal) now after (some old) =
      if not (of_turn turn old) || other_worker worker old
      then some old
      else some (terminated ttl terminal after old)
  effect (mark_published t c turn) now after none = none
  effect (mark_published t c turn) now after (some old) =
      if of_turn turn old && is_terminal old
      then some (record old { terminal_event_published = true })
      else some old
  effect (ask_stop t c by) now after none = none
  effect (ask_stop t c by) now after (some old) =
      if is_expired now old
      then none
      else some (record old {
        stop_requested = true;
        stop_requested_by = some by;
        stop_requested_at = some after;
      })
  effect (renew t c turn worker) now after none = none
  effect (renew t c turn worker) now after (some old) =
      if of_turn turn old && of_worker worker old && not (is_expired now old)
      then some (record old { lease_expires_at = lock_expires_at x ttl after })
      else some old
  effect (release t c turn) now after none = none
  effect (release t c turn) now after (some old) = if of_turn turn old then none else some old

  -- A call leaves the entries of other keys alone.
  pub run_call-other :
      (call : LockCall x) (now after : x.Time) (locks : Locks x) (key : Text)
      → same (key_of call) key ≡ false
      → run_call call now after locks key ≡ locks key
  unfolding run_call acquire_lock claim_lock mark_lock_terminal mark_terminal_event_published
      request_stop renew_lock release_lock
  run_call-other (acquire lock) now after locks key h = ground arith
  run_call-other (claim_turn t c turn worker) now after locks key h = ground arith
  run_call-other (mark_terminal t c turn worker terminal) now after locks key h = ground arith
  run_call-other (mark_published t c turn) now after locks key h = ground arith
  run_call-other (ask_stop t c by) now after locks key h = ground arith
  run_call-other (renew t c turn worker) now after locks key h = ground arith
  run_call-other (release t c turn) now after locks key h = ground arith

  run_call-own :
      (call : LockCall x) (now after : x.Time) (locks : Locks x)
      → run_call call now after locks (key_of call) ≡ effect call now after (locks (key_of call))
  unfolding run_call acquire_lock claim_lock mark_lock_terminal mark_terminal_event_published
      request_stop renew_lock release_lock
  run_call-own (acquire lock) now after locks =
      ground (arith, same_refl (lock_key lock.tenant_id lock.conversation_id))
  run_call-own (claim_turn t c turn worker) now after locks =
      ground (arith, same_refl (lock_key t c))
  run_call-own (mark_terminal t c turn worker terminal) now after locks =
      ground (arith, same_refl (lock_key t c))
  run_call-own (mark_published t c turn) now after locks = ground (arith, same_refl (lock_key t c))
  run_call-own (ask_stop t c by) now after locks = ground (arith, same_refl (lock_key t c))
  run_call-own (renew t c turn worker) now after locks = ground (arith, same_refl (lock_key t c))
  run_call-own (release t c turn) now after locks = ground (arith, same_refl (lock_key t c))

  pub run_call-effect :
      (call : LockCall x) (now after : x.Time) (locks : Locks x) (key : Text)
      → run_call call now after locks key
        ≡ (if same (key_of call) key then effect call now after (locks key) else locks key)
  run_call-effect call now after locks key = elim (Bool-cases (same (key_of call) key)) [
    | inr q ↦ rw q (run_call-other call now after locks key q)
    | inl q ↦ rw q (
        subst (λ k. run_call call now after locks k ≡ effect call now after (locks k))
          (same→eq (key_of call) key q) (run_call-own call now after locks))
  ]
