-- ===== src/Chat/Worker/Stream/Received.antt =====
-- The text with which the loop over the model's stream is left.
use delphi.Base.{◌≡◌, List, [], ◌∷◌, ◌++◌, Text}
use delphi.Platform.{Platform}
use delphi.Chat.Worker.Stream.{Signal, delta, StreamEnd, completed, stopped, broken}

abbrev pub text_of : Signal → Text
text_of (delta chunk) = chunk
text_of other = []

-- The texts of the model that came, in their order.
abbrev pub received : List Signal → Text
received [] = []
received (signal ∷ signals) = text_of signal ++ received signals

-- A turn that completes has every text that came; one that is stopped has those that came before.
abbrev pub HasReceived : Text → List Signal → StreamEnd → Type 0
HasReceived text signals (completed t) = t ≡ text ++ received signals
HasReceived text signals (stopped t) =
    (seen : List Signal) × (rest : List Signal) × (signals ≡ seen ++ rest)
    × (t ≡ text ++ received seen)
HasReceived text signals (broken message) = Unit {0}
