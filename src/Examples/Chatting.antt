-- ===== src/Examples/Chatting.antt =====
-- Locks, events and conversations, on sample data.
use delphi.Base.{◌≡◌, refl, false, none, some, Text, ok, codes, same}
use delphi.Chat.Locks.{
  ChatLock, Locks, lock_key, requested_lock, set_lock, claim_lock, acquire_lock, release_lock,
  running, lock_expires_at, ChatTerminalUpdate, committed, mark_lock_terminal,
}
use delphi.Chat.Locks.Ending.{IsEnded, mark_lock_terminal-IsEnded}
use delphi.Chat.Locks.Calls.{acquire, release, run_call}
use delphi.Chat.Locks.Exclusion.{Run, here, next, Excludes, claim_lock-Excludes}
use delphi.Examples.Demo.{demo}

abbrev waiting : ChatLock demo
waiting =
    requested_lock 900 (codes "t1") (codes "u1") (codes "c1") (codes "turn1") (codes "m1")
      (codes "hello") none (codes "u1") 100

abbrev second : ChatLock demo
second =
    requested_lock 900 (codes "t1") (codes "u1") (codes "c1") (codes "turn2") (codes "m2")
      (codes "again") none (codes "u1") 200

abbrev locked : Locks demo
locked = set_lock (lock_key (codes "t1") (codes "c1")) (some waiting) (λ key. none)

abbrev pub claimed : ChatLock demo
claimed = record waiting { state = running; worker_id = some (codes "w1"); lease_expires_at = 1010 }

claim_answered :
    (claim_lock 900 (codes "t1") (codes "c1") (codes "turn1") (codes "w1") 105 110 locked).0
    ≡ ok claimed
unfolding claim_lock same
claim_answered = refl

abbrev place : Text
place = lock_key (codes "t1") (codes "c1")

abbrev after_claim : Locks demo
after_claim =
    (claim_lock 900 (codes "t1") (codes "c1") (codes "turn1") (codes "w1") 105 110 locked).1

-- Another turn tries to start.
abbrev after_second : Locks demo
after_second = run_call 900 (acquire second) 200 201 after_claim

attempts : Run 900 place (codes "turn1") after_claim after_second
unfolding claim_lock same
attempts = next here (acquire second) 200 201 refl tt

claim_lock-Excludes_example :
    (claimed.lease_expires_at ≡ lock_expires_at demo 900 110)
    × (after_claim place ≡ some claimed)
    × Excludes 900 (codes "t1") (codes "c1") (codes "turn1") (codes "w1") 300 301 after_second
unfolding claim_lock run_call acquire_lock same
claim_lock-Excludes_example =
    claim_lock-Excludes 900 (codes "t1") (codes "c1") (codes "turn1") (codes "w1") 105 110 locked
      claimed claim_answered refl attempts 300 301 refl

abbrev end_of_turn : ChatTerminalUpdate
end_of_turn = record {
  state = committed;
  assistant_message_id = some (codes "m2");
  content = none;
  error = none;
}

abbrev ended : ChatLock demo
ended = record claimed {
  state = committed;
  assistant_message_id = some (codes "m2");
  lease_expires_at = 1100;
}

marked :
    (mark_lock_terminal 900
      (codes "t1")
      (codes "c1")
      (codes "turn1")
      (some (codes "w1"))
      end_of_turn
      200
      after_claim).0
    ≡ ok ended
unfolding mark_lock_terminal claim_lock same
marked = refl

mark_lock_terminal-IsEnded_example :
    (ended.turn_id ≡ codes "turn1")
    × (ended.state ≡ committed)
    × (ended.assistant_message_id ≡ some (codes "m2"))
    × (ended.terminal_content ≡ none)
    × (ended.terminal_error ≡ none)
    × (ended.terminal_event_published ≡ false)
    × IsEnded 900
        (codes "t1")
        (codes "c1")
        (codes "turn1")
        ended
        (mark_lock_terminal 900
          (codes "t1")
          (codes "c1")
          (codes "turn1")
          (some (codes "w1"))
          end_of_turn
          200
          after_claim).1
mark_lock_terminal-IsEnded_example =
    mark_lock_terminal-IsEnded 900 (codes "t1") (codes "c1") (codes "turn1") (some (codes "w1"))
      end_of_turn 200 after_claim refl marked

-- Only the turn that is locked is released.
kept_lock :
    run_call 900 (release (codes "t1") (codes "c1") (codes "turn2")) 300 301 after_claim place
    ≡ some claimed
unfolding run_call release_lock claim_lock same
kept_lock = refl
