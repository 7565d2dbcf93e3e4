-- ===== src/Chat/Replay/Sending.antt =====
-- The loop of services/realtime-service/src/main.rs that sends the events of a plan to a client.
use delphi.Base.{
  ℕ, ◌-◌, Option, none, some, List, [], ◌∷◌, Text, not, same, leb, ◌==◌, if◌then◌else◌,
}
use delphi.Platform.{Platform}
use delphi.Chat.Contracts.{ServerWsMessage}
use delphi.Chat.Events.{SequencedChatEvent}
use delphi.Chat.Replay.{or_else, sequence_of}

abbrev pub sent_before :
    ServerWsMessage → Option (List ServerWsMessage × ℕ) → Option (List ServerWsMessage × ℕ)
sent_before message none = none
sent_before message (some (messages, last)) = some (message ∷ messages, last)

module _ {x : Platform} where
  abbrev pub message_of : Text → SequencedChatEvent x → ServerWsMessage
  message_of conversation sequenced =
      ServerWsMessage.event conversation sequenced.event_id sequenced.envelope.event

  -- The loop over the events of a plan, for a user, into a queue that has room for so many
  -- messages: the messages and the last sequence sent, or nothing where the queue is full.
  unfoldable pub send_events :
      Text → Text → ℕ → ℕ → List (SequencedChatEvent x) → Option (List ServerWsMessage × ℕ)
  send_events user conversation room last [] = some ([], last)
  send_events user conversation room last (event ∷ events) =
      let sequence = or_else 0 (sequence_of event) in
      let skipped = send_events user conversation room last events in
      let sent = send_events user conversation (room - 1) sequence events in
      if not (same event.envelope.user_id user)
      then skipped
      else if leb sequence last
      then skipped
      else if room == 0
      then none
      else sent_before (message_of conversation event) sent
