-- ===== src/Chat/Replay/Missed.antt =====
-- The events that a client missed, and the loop that sends them.
use delphi.Base.{
  ℕ, suc, ◌+◌, ◌-◌, ◌^◌, ◌≤◌, ◌<◌, ◌≡◌, refl, inl, inr, ◌⊎◌, Bool, true, false, ◌&&◌, some, List,
  [], ◌∷◌, map, keep, Text, same, parse_u64-decimal, length, leb, ◌==◌, arith, Bool-cases,
}
use delphi.Platform.{Platform}
use delphi.Chat.Locks.{lock_key}
use delphi.Chat.Events.{SequencedChatEvent, EventBus, or_no_turns, is_of}
use delphi.Chat.Events.History.{Numbered, between}
use delphi.Chat.Replay.{or_else, sequence_of, end_of}
use delphi.Chat.Replay.Sending.{message_of, send_events}

module _ {x : Platform} where
  abbrev pub by_user : Text → SequencedChatEvent x → Bool
  by_user user event = same event.envelope.user_id user

  pub between-empty :
      (t c : Text) (first last n : ℕ) (log : List (SequencedChatEvent x))
      → last < first
      → between t c first last n log ≡ []
  between-empty t c first last n [] h = refl
  between-empty t c first last n (event ∷ log) h =
      ground (arith, between-empty t c first last (n + 1) log h)

  send_events-cons :
      (user c : Text) (room seen sequence : ℕ) (event : SequencedChatEvent x)
      (events : List (SequencedChatEvent x))
      → same event.envelope.user_id user ≡ true
      → sequence_of event ≡ some sequence
      → leb sequence seen ≡ false
      → (room == 0) ≡ false
      → (final : ℕ) × (send_events user c (room - 1) sequence events
          ≡ some (map (message_of c) (keep (by_user user) events), final))
      → (final : ℕ) × (send_events user c room seen (event ∷ events)
          ≡ some (map (message_of c) (keep (by_user user) (event ∷ events)), final))
  unfolding send_events
  send_events-cons user c room seen sequence event events u p fresh free (final, sent) =
      (final, rw (u, p, fresh, free, sent) refl)

  -- The loop drops no event of the user: what is stored in order is never below the last sent.
  pub send_events-between :
      (user t c : Text) (first last n seen room : ℕ) (log : List (SequencedChatEvent x))
      → Numbered n log
      → n + length log < 2 ^ 64
      → (seen < first) ⊎ (seen ≤ n)
      → length (between t c first last n log) ≤ room
      → (final : ℕ) × (send_events user c room seen (between t c first last n log)
          ≡ some (map (message_of c) (keep (by_user user) (between t c first last n log)), final))
  unfolding send_events
  send_events-between user t c first last n seen room [] h b s r = (seen, refl)
  send_events-between user t c first last n seen room (event ∷ log) (e, h) b s r =
      elim (Bool-cases (leb first (n + 1) && leb (n + 1) last && is_of t c event.envelope)) [
        | inr q ↦ rw q (
            send_events-between user t c first last (n + 1) seen room log h (omega (arith, b))
              (ground arith) (rw q at r))
        | inl q ↦
            let fits : suc (length (between t c first last (n + 1) log)) ≤ room = rw q at r in
            elim (Bool-cases (same event.envelope.user_id user)) [
              | inr u ↦
                  rw (q, u)
                    (send_events-between user t c first last (n + 1) seen room log h
                      (omega (arith, b)) (ground arith) (omega (arith, fits)))
              | inl u ↦
                  let p : sequence_of event ≡ some (n + 1) =
                    rw e (parse_u64-decimal (n + 1) (omega (arith, b))) in
                  let fresh : leb (n + 1) seen ≡ false = ground arith in
                  let free : (room == 0) ≡ false = ground arith in
                  rw q (
                    send_events-cons user c room seen (n + 1) event
                      (between t c first last (n + 1) log) u p fresh free
                      (send_events-between user t c first last (n + 1) (n + 1) (room - 1) log h
                        (omega (arith, b)) (inr (omega arith)) (omega (arith, fits))))
            ]
      ]

  -- The part of the log that a client which saw event `k` is missing, up to the end of the current
  -- turn of the conversation.
  abbrev pub missed : EventBus x → Text → Text → ℕ → List (SequencedChatEvent x)
  missed bus t c k =
      between t c (k + 1)
        (or_else bus.next_event_sequence
          (end_of (or_no_turns (bus.replay (lock_key t c))).current_turn))
        0 bus.event_log
