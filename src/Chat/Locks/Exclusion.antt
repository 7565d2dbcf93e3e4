-- ===== src/Chat/Locks/Exclusion.antt =====
-- A conversation is worked on by one worker at a time: what the lock excludes.
use delphi.Base.{
  ℕ, ◌≡◌, ◌≢◌, refl, inl, inr, ◌⊎◌, true, false, ◌||◌, Option, none, some, Text, ok, err, same,
  same_refl, same_iff, arith, Bool-cases, Option-cases,
}
use delphi.Platform.{Platform}
use delphi.Chat.Locks.{
  in_flight, ChatLock, ChatTerminalUpdate, Locks, lock_key, is_expired, is_terminal, is_running,
  is_terminal_state, lock_expires_at, acquire_lock, claim_lock, claim, mark_lock_terminal,
  renew_lock,
}
use delphi.Chat.Locks.Calls.{
  LockCall, acquire, claim_turn, mark_terminal, mark_published, ask_stop, renew, release, key_of,
  run_call, effect, run_call-effect,
}

module _ {x : Platform} where
  -- The entry is the turn's, its worker is the one named, and it runs or has ended.
  abbrev pub HeldBy : Text → Text → Option (ChatLock x) → Type 0
  HeldBy turn worker none = ⊥
  HeldBy turn worker (some lock) =
      (lock.turn_id ≡ turn)
      × (lock.worker_id ≡ some worker)
      × ((is_running lock.state || is_terminal lock) ≡ true)

  abbrev pub IsLive : x.Time → Option (ChatLock x) → Type 0
  IsLive now none = ⊥
  IsLive now (some lock) = is_expired now lock ≡ false

  -- The calls that the services make while a turn is worked on: they end it only in a terminal
  -- state, and do not release it.
  abbrev pub LeavesTurn : Text → LockCall x → Type 0
  LeavesTurn turn (acquire lock) = Unit {0}
  LeavesTurn turn (claim_turn t c other worker) = Unit {0}
  LeavesTurn turn (mark_terminal t c other worker terminal) =
      is_terminal_state terminal.state ≡ true
  LeavesTurn turn (mark_published t c other) = Unit {0}
  LeavesTurn turn (ask_stop t c by) = Unit {0}
  LeavesTurn turn (renew t c other worker) = Unit {0}
  LeavesTurn turn (release t c other) = other ≢ turn

module _ {x : Platform} (ttl : ℕ) (key turn : Text) where
  -- Calls one after another, on this key or on others, each at a time at which the lease of the key
  -- has not run out.
  pub data Run (locks : Locks x) : Locks x → Type 0 where
    here : Run locks locks
    next :
        {mid : Locks x}
        → Run locks mid
        → (call : LockCall x) (now after : x.Time) → IsLive now (mid key)
        → LeavesTurn turn call
        → Run locks (run_call ttl call now after mid)

  effect-HeldBy :
      (worker : Text) (call : LockCall x) (now after : x.Time) (entry : Option (ChatLock x))
      → IsLive now entry
      → LeavesTurn turn call
      → HeldBy turn worker entry
      → HeldBy turn worker (effect ttl call now after entry)
  effect-HeldBy worker call now after none live leaves h = absurd h
  effect-HeldBy worker (acquire lock) now after (some old) live leaves h = ground arith
  effect-HeldBy worker (claim_turn t c other w) now after (some old) live leaves h =
      ground (arith, same_iff worker w)
  effect-HeldBy worker (mark_terminal t c other w terminal) now after (some old) live leaves h =
      ground arith
  effect-HeldBy worker (mark_published t c other) now after (some old) live leaves h = ground arith
  effect-HeldBy worker (ask_stop t c by) now after (some old) live leaves h = ground arith
  effect-HeldBy worker (renew t c other w) now after (some old) live leaves h = ground arith
  effect-HeldBy worker (release t c other) now after (some old) live leaves h =
      ground (arith, same_iff old.turn_id other)

  -- Whatever other calls come, in any order: while the lease is kept and the turn's own release is
  -- not called, the lock of a worker's turn stays the lock of that worker's turn.
  pub Run-HeldBy :
      (worker : Text) {locks locks' : Locks x}
      → Run locks locks'
      → HeldBy turn worker (locks key)
      → HeldBy turn worker (locks' key)
  Run-HeldBy worker here h = h
  Run-HeldBy worker (next {mid = mid} run call now after live leaves) h =
      elim (Bool-cases (same (key_of call) key)) [
        | inl q ↦
            rw (run_call-effect ttl call now after mid key, q)
              (effect-HeldBy worker call now after (mid key) live leaves (Run-HeldBy worker run h))
        | inr q ↦ rw (run_call-effect ttl call now after mid key, q) (Run-HeldBy worker run h)
      ]

module _ {x : Platform} (ttl : ℕ) (t c turn worker : Text) where
  -- The claim of a turn that has not ended is written with a new lease.
  claim_held :
      (key : Text) (now after : x.Time) (old : ChatLock x) (locks : Locks x) (lock : ChatLock x)
      → (claim ttl key turn worker now after old locks).0 ≡ ok lock
      → is_terminal lock ≡ false
      → (lock.lease_expires_at ≡ lock_expires_at x ttl after)
        × ((claim ttl key turn worker now after old locks).1 key ≡ some lock)
        × HeldBy turn worker (some lock)
  unfolding claim
  claim_held key now after old locks lock h live = (
    ground (arith, same_iff old.turn_id turn),
    ground (arith, same_refl key, same_iff old.turn_id turn),
    ground (arith, same_iff old.turn_id turn),
  )

  claim_lock-HeldBy :
      (now after : x.Time) (locks : Locks x) (lock : ChatLock x)
      → (claim_lock ttl t c turn worker now after locks).0 ≡ ok lock
      → is_terminal lock ≡ false
      → (lock.lease_expires_at ≡ lock_expires_at x ttl after)
        × ((claim_lock ttl t c turn worker now after locks).1 (lock_key t c) ≡ some lock)
        × HeldBy turn worker (some lock)
  unfolding claim_lock
  claim_lock-HeldBy now after locks lock h live = elim (Option-cases (locks (lock_key t c))) [
    | inl q ↦ absurd (ground arith)
    | inr (old, q) ↦
        rw (claim_lock, q)
          (claim_held (lock_key t c) now after old locks lock (rw (claim_lock, q) at h) live)
  ]

  module _ (now after : x.Time) (locks : Locks x) (lock : ChatLock x)
      (found : locks (lock_key t c) ≡ some lock) (live : is_expired now lock ≡ false)
      (held : HeldBy turn worker (some lock)) where
    acquire_refused :
        (other : ChatLock x)
        → lock_key other.tenant_id other.conversation_id ≡ lock_key t c
        → acquire_lock now other locks ≡ (err in_flight, locks)
    unfolding acquire_lock
    acquire_refused other e = rw (e, found, live) refl

    claim_other_refused :
        (turn' w : Text)
        → turn' ≢ turn
        → claim_lock ttl t c turn' w now after locks ≡ (err in_flight, locks)
    unfolding claim_lock
    claim_other_refused turn' w ne = rw (found) (ground (arith, same_iff lock.turn_id turn'))

    claim_again :
        (w : Text)
        → w ≢ worker
        → (claim_lock ttl t c turn w now after locks ≡ (err in_flight, locks))
          ⊎ ((ended : ChatLock x) × (is_terminal ended ≡ true)
              × (claim_lock ttl t c turn w now after locks ≡ (ok ended, locks)))
    unfolding claim_lock
    claim_again w ne = elim (Bool-cases (is_terminal lock)) [
      | inl q ↦ inr (lock, q, rw found (ground (arith, same_iff lock.turn_id turn)))
      | inr q ↦ inl (rw found (ground (arith, same_iff lock.turn_id turn, same_iff worker w)))
    ]

    renew_refused :
        (w : Text) → w ≢ worker → renew_lock ttl t c turn w now after locks ≡ (err in_flight, locks)
    unfolding renew_lock
    renew_refused w ne = rw found (ground (arith, same_iff worker w))

    mark_refused :
        (w : Text) (terminal : ChatTerminalUpdate)
        → w ≢ worker
        → mark_lock_terminal ttl t c turn (some w) terminal after locks ≡ (err in_flight, locks)
    unfolding mark_lock_terminal
    mark_refused w terminal ne = rw found (ground (arith, same_iff worker w))

  -- What a worker's claim of a turn excludes at a time at which its lease has not run out: another
  -- turn is not acquired and not claimed; another worker gets no claim that runs, no renewal and no
  -- end of the turn. All these calls change nothing.
  pub record Excludes (now after : x.Time) (locks : Locks x) : Type 0 where
    pub acquiring :
        (other : ChatLock x)
        → lock_key other.tenant_id other.conversation_id ≡ lock_key t c
        → acquire_lock now other locks ≡ (err in_flight, locks)
    pub other_turns :
        (turn' w : Text)
        → turn' ≢ turn
        → claim_lock ttl t c turn' w now after locks ≡ (err in_flight, locks)
    pub other_claims :
        (w : Text)
        → w ≢ worker
        → (claim_lock ttl t c turn w now after locks ≡ (err in_flight, locks))
          ⊎ ((ended : ChatLock x) × (is_terminal ended ≡ true)
              × (claim_lock ttl t c turn w now after locks ≡ (ok ended, locks)))
    pub renewals :
        (w : Text) → w ≢ worker → renew_lock ttl t c turn w now after locks ≡ (err in_flight, locks)
    pub ends :
        (w : Text) (terminal : ChatTerminalUpdate)
        → w ≢ worker
        → mark_lock_terminal ttl t c turn (some w) terminal after locks ≡ (err in_flight, locks)

  HeldBy-Excludes :
      (now after : x.Time) (locks : Locks x) (entry : Option (ChatLock x))
      → locks (lock_key t c) ≡ entry
      → IsLive now entry
      → HeldBy turn worker entry
      → Excludes now after locks
  HeldBy-Excludes now after locks none found live held = absurd held
  HeldBy-Excludes now after locks (some lock) found live held = record {
    acquiring = acquire_refused now after locks lock found live held;
    other_turns = claim_other_refused now after locks lock found live held;
    other_claims = claim_again now after locks lock found live held;
    renewals = renew_refused now after locks lock found live held;
    ends = mark_refused now after locks lock found live held;
  }

  -- A successful claim of a turn that has not ended stores the lock that it answers, with a lease
  -- from the time of the claim. From then on, whatever calls come, as long as the lease of the
  -- conversation has not run out at any of them and none releases the turn, the claim excludes other
  -- turns and other workers.
  pub claim_lock-Excludes :
      (now after : x.Time) (locks : Locks x) (lock : ChatLock x)
      → (claim_lock ttl t c turn worker now after locks).0 ≡ ok lock
      → is_terminal lock ≡ false
      → {locks' : Locks x}
      → Run ttl (lock_key t c) turn (claim_lock ttl t c turn worker now after locks).1 locks'
      → (later latest : x.Time) → IsLive later (locks' (lock_key t c))
      → (lock.lease_expires_at ≡ lock_expires_at x ttl after)
        × ((claim_lock ttl t c turn worker now after locks).1 (lock_key t c) ≡ some lock)
        × Excludes later latest locks'
  claim_lock-Excludes now after locks lock h live {locks' = locks'} run later latest kept =
      let (lease, stored, held) = claim_lock-HeldBy now after locks lock h live in
      (
        lease,
        stored,
        HeldBy-Excludes later latest locks' (locks' (lock_key t c)) refl kept
            (Run-HeldBy ttl (lock_key t c) turn worker run (rw stored held)),
      )
