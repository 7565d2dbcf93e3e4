-- ===== src/Chat/Locks/Ending.antt =====
-- The end of a turn on its lock: what a delivery after it finds, and how the lock becomes free.
use delphi.Base.{
  ℕ, ◌≡◌, sym, ◌∙◌, ap, inl, inr, not, ◌||◌, Bool-cases, Option-cases, true, false, Option, none,
  some, Text, ok, arith, ok_inj, same_refl, same_iff,
}
use mathlib.Core.Path.{subst}
use delphi.Platform.{Platform}
use delphi.Chat.Locks.{
  ChatLock, ChatTerminalUpdate, Locks, lock_key, load_lock, claim_lock, claim, mark_lock_terminal,
  mark_terminal_event_published, release_lock, is_terminal, is_terminal_state, of_turn,
  other_worker, terminated, set_lock,
}

-- What later calls find of a turn that ended with the lock `ended`: it is what a read answers and
-- what a claim by any worker answers, without a change; when its last event is marked as published,
-- that mark alone is new; and after its release the conversation has no lock.
abbrev pub IsEnded : {x : Platform} → ℕ → Text → Text → Text → ChatLock x → Locks x → Type 0
IsEnded {x} ttl t c turn ended locks =
    (load_lock t c locks ≡ (ok (some ended), locks))
    × ((worker : Text) (now later : x.Time)
        → claim_lock ttl t c turn worker now later locks ≡ (ok ended, locks))
    × ((load_lock t c (mark_terminal_event_published t c turn locks).1).0
        ≡ ok (some (record ended { terminal_event_published = true })))
    × ((load_lock t c (release_lock t c turn (mark_terminal_event_published t c turn locks).1)).0
        ≡ ok none)

module _ {x : Platform} (ttl : ℕ) where
  mark_found_ok :
      (t c turn : Text) (worker : Option Text) (terminal : ChatTerminalUpdate) (now : x.Time)
      (locks : Locks x) {ended : ChatLock x}
      → (mark_lock_terminal {x = x} ttl t c turn worker terminal now locks).0 ≡ ok ended
      → (old : ChatLock x) × (locks (lock_key t c) ≡ some old)
        × (old.turn_id ≡ turn)
        × (ended ≡ terminated ttl terminal now old)
        × ((mark_lock_terminal {x = x} ttl t c turn worker terminal now locks).1
            ≡ set_lock (lock_key t c) (some ended) locks)
  unfolding mark_lock_terminal
  mark_found_ok t c turn worker terminal now locks {ended} h =
      elim (Option-cases (locks (lock_key t c))) [
        | inl q ↦ absurd (ground arith)
        | inr (old, q) ↦ elim (Bool-cases (not (of_turn turn old) || other_worker worker old)) [
          | inl p ↦ absurd (ground arith)
          | inr p ↦
              let e = sym (ok_inj (rw (q, p) at h)) in
              (
                old,
                q,
                ground (arith, same_iff old.turn_id turn),
                e,
                rw (q, p) (ap (λ lock. set_lock (lock_key t c) (some lock) locks) (sym e)),
              )
        ]
      ]

  set_lock-IsEnded :
      (t c turn : Text) (ended : ChatLock x) (locks : Locks x)
      → ended.turn_id ≡ turn
      → is_terminal ended ≡ true
      → IsEnded ttl t c turn ended (set_lock (lock_key t c) (some ended) locks)
  unfolding load_lock claim_lock claim mark_terminal_event_published release_lock
  set_lock-IsEnded t c turn ended locks own done = (
    ground (arith, same_refl (lock_key t c)),
    λ worker now later. ground (arith, same_refl (lock_key t c), same_iff ended.turn_id turn),
    ground (arith, same_refl (lock_key t c), same_iff ended.turn_id turn),
    ground (arith, same_refl (lock_key t c), same_iff ended.turn_id turn),
  )

  -- A turn that is ended on its lock with a terminal state: the lock has that state, message, content
  -- and error, and no published end. A read from then on answers it, and so does a claim of the turn
  -- by any worker, without a change. Marking the end as published sets that mark and nothing else of
  -- the lock, and a release after that leaves the conversation without a lock.
  pub mark_lock_terminal-IsEnded :
      (t c turn : Text) (worker : Option Text) (terminal : ChatTerminalUpdate) (now : x.Time)
      (locks : Locks x) {ended : ChatLock x}
      → is_terminal_state terminal.state ≡ true
      → (mark_lock_terminal {x = x} ttl t c turn worker terminal now locks).0 ≡ ok ended
      → (ended.turn_id ≡ turn)
        × (ended.state ≡ terminal.state)
        × (ended.assistant_message_id ≡ terminal.assistant_message_id)
        × (ended.terminal_content ≡ terminal.content)
        × (ended.terminal_error ≡ terminal.error)
        × (ended.terminal_event_published ≡ false)
        × IsEnded ttl t c turn ended
            (mark_lock_terminal {x = x} ttl t c turn worker terminal now locks).1
  mark_lock_terminal-IsEnded t c turn worker terminal now locks {ended} done h =
      let (old, found, own, e, after) = mark_found_ok t c turn worker terminal now locks h in
      let own_ended : ended.turn_id ≡ turn = ap (λ l. l.turn_id) e ∙ own in
      (
        own_ended,
        ap (λ l. l.state) e,
        ap (λ l. l.assistant_message_id) e,
        ap (λ l. l.terminal_content) e,
        ap (λ l. l.terminal_error) e,
        ap (λ l. l.terminal_event_published) e,
        subst (IsEnded ttl t c turn ended) (sym after)
            (set_lock-IsEnded t c turn ended locks own_ended (ap (λ l. is_terminal l) e ∙ done)),
      )
