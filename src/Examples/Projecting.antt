-- ===== src/Examples/Projecting.antt =====
-- The projection of one payload, with a codec that reads one event.
use delphi.Base.{
  ℕ, ◌≡◌, refl, ◌↔◌, true, some, [], ◌∷◌, Text, codes, Result, ok, err, ◌==◌, if◌then◌else◌, length,
  same,
}
use delphi.Domain.Fold.{apply}
use delphi.Domain.Events.{DocumentEvent}
use delphi.App.Projection.{Codec, project_event, decode_event, upsert}
use delphi.App.Projection.Outcomes.{IsRow, IsViolation, is_violation, project_event_iff}
use delphi.Examples.Demo.{demo, indexed, at_two}

-- The value 2 is an event; no other value is.
abbrev read_value : ℕ → Result Text (DocumentEvent demo)
read_value n = if n == 2 then ok indexed else err (codes "unknown variant")

abbrev serde : Codec demo
serde = record {
  from_slice = λ bytes. ok (length bytes);
  from_value = read_value;
  to_value = λ e. some 2;
}

project_event_iff_example :
    ((project_event serde (some at_two) (7 ∷ (8 ∷ [])) 3 ≡ upsert at_two)
      ↔ IsRow serde (some at_two) (decode_event serde (7 ∷ (8 ∷ []))) 3 at_two)
    × ((is_violation serde (project_event serde (some at_two) (7 ∷ (8 ∷ [])) 3) ≡ true)
        ↔ IsViolation serde (some at_two) (decode_event serde (7 ∷ (8 ∷ []))))
project_event_iff_example = project_event_iff serde (some at_two) (7 ∷ (8 ∷ [])) 3 at_two

project-indexed : project_event serde (some at_two) (7 ∷ (8 ∷ [])) 3 ≡ upsert at_two
unfolding project_event apply same
project-indexed = refl
