-- ===== src/Chat/Worker/Stream.antt =====
-- services/chat-worker/src/main.rs: the publication of events, and the loop over the model's stream.
pub mod Received
use delphi.Base.{
  ℕ, Bool, true, false, Option, none, some, List, [], ◌∷◌, ◌++◌, Text, Result, ok, err, Action,
  pure, ◌>>=◌, attempt, codes, if◌then◌else◌,
}
use delphi.Platform.{Platform}
use delphi.Chat.Contracts.{TurnRequested, ChatEvent, ChatEventEnvelope, ClearReason}
use delphi.Chat.Worker.{TurnPorts, TurnError, StopSignal, bus, store, is_stop_for_turn}

-- What a round of the `select!` loop sees; the end of the list is the end of the stream.
pub data Signal : Type 0 where
  -- The maintenance task changed its error, to this one or to none.
  maintenance : Option Text → Signal
  poll : Signal
  -- A stop signal, or an error of the channel.
  stop : Option StopSignal → Signal
  delta : Text → Signal
  delta_error : Text → Signal

-- How the loop is left, with the text so far.
pub data StreamEnd : Type 0 where
  completed : Text → StreamEnd
  stopped : Text → StreamEnd
  broken : Text → StreamEnd

module _ {x : Platform} {W : Type 0} (p : TurnPorts x W) (command : TurnRequested x) where
  abbrev pub envelope : ChatEvent → x.Time → ChatEventEnvelope x
  envelope event now = record {
    v = 1;
    tenant_id = command.tenant_id;
    user_id = command.user_id;
    conversation_id = command.conversation_id;
    turn_id = command.turn_id;
    ts = now;
    event = event;
  }

  -- `publish_event(..).await?`, and what follows
  abbrev pub published :
      {A : Type 0} → ChatEvent → Action W (Result TurnError A) → Action W (Result TurnError A)
  published event rest = do now ← p.now; attempt (p.publish (envelope event now)) bus λ id. rest

  -- One branch of the loop; `again` goes on with a text.
  unfoldable pub stream_round :
      (Text → Action W (Result TurnError StreamEnd))
      → Text
      → Signal
      → Action W (Result TurnError StreamEnd)
  stream_round again text (maintenance none) = again text
  stream_round again text (maintenance (some message)) = pure (ok (broken message))
  stream_round again text poll =
      attempt (p.stop_requested command.tenant_id command.conversation_id command.turn_id) bus
        λ requested. if requested then pure (ok (stopped text)) else again text
  stream_round again text (stop none) = again text
  stream_round again text (stop (some signal)) =
      if is_stop_for_turn command signal then pure (ok (stopped text)) else again text
  stream_round again text (delta chunk) =
      published (ChatEvent.text_delta chunk) (again (text ++ chunk))
  stream_round again text (delta_error error) =
      pure (ok (broken (codes "LLM stream failed: " ++ error)))

  unfoldable pub stream_loop : Text → List Signal → Action W (Result TurnError StreamEnd)
  unfolding stream_round
  stream_loop text [] = pure (ok (completed text))
  stream_loop text (signal ∷ signals) =
      stream_round (λ text'. stream_loop text' signals) text signal

  -- `publish_failed_turn(..).await?`, and what follows
  abbrev pub failed_turn_published :
      {A : Type 0} → Text → Text → Action W (Result TurnError A) → Action W (Result TurnError A)
  failed_turn_published user message rest = do
    recorded ←
        p.record_turn_failed command.tenant_id user command.conversation_id command.turn_id message
    published (ChatEvent.error (codes "The assistant failed before the turn could be saved."))
        (published (ChatEvent.clear ClearReason.failed_before_commit) rest)
