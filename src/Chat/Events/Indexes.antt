-- ===== src/Chat/Events/Indexes.antt =====
-- The index of a conversation's turns stays in order, whatever is published.
use delphi.Base.{
  ℕ, ◌≤◌, ◌<◌, ◌≡◌, inl, inr, false, Option, none, some, Text, same, arith, Bool-cases,
}
use delphi.Chat.Contracts.{ChatEvent, turn_started, finish, interrupted, clear}
use delphi.Chat.Events.{
  ReplayTurn, ReplayIndex, is_turn, ended_at, start_turn, end_turn, apply_replay_event,
}

-- A turn that started at a sequence that was given out, and ended later, if it ended.
abbrev pub TurnBy : ℕ → Option ReplayTurn → Type 0
TurnBy head none = Unit {0}
TurnBy head (some turn) =
    (1 ≤ turn.start_seq)
    × (turn.start_seq ≤ head)
    × ((e : ℕ) → turn.end_seq ≡ some e → (turn.start_seq < e) × (e ≤ head))

-- The previous turn is another turn, and started first.
abbrev pub InOrder : Option ReplayTurn → Option ReplayTurn → Type 0
InOrder none later = Unit {0}
InOrder (some turn) none = ⊥
InOrder (some turn) (some later) =
    (turn.start_seq < later.start_seq) × (same turn.turn_id later.turn_id ≡ false)

pub record IsIndex (head : ℕ) (index : ReplayIndex) : Type 0 where
  pub previous : TurnBy head index.previous_turn
  pub current : TurnBy head index.current_turn
  pub ordered : InOrder index.previous_turn index.current_turn

pub TurnBy-mono :
    (head sequence : ℕ) (turn : Option ReplayTurn)
    → head ≤ sequence
    → TurnBy head turn
    → TurnBy sequence turn
TurnBy-mono head sequence none h t = tt
TurnBy-mono head sequence (some turn) h (a, b, c) =
    (a, omega arith, λ e q. ((c e q).0, omega (arith, (c e q).1)))

TurnBy-ended_at :
    (head sequence : ℕ) (turn : Option ReplayTurn)
    → head < sequence
    → TurnBy head turn
    → TurnBy sequence (ended_at sequence turn)
TurnBy-ended_at head sequence none h t = tt
TurnBy-ended_at head sequence (some turn) h (a, b, c) = (a, omega arith, λ e q. ground arith)

InOrder-ended_first :
    (sequence : ℕ) (a b : Option ReplayTurn) → InOrder a b → InOrder (ended_at sequence a) b
InOrder-ended_first sequence none b h = tt
InOrder-ended_first sequence (some a) none h = h
InOrder-ended_first sequence (some a) (some b) h = h

InOrder-ended_second :
    (sequence : ℕ) (a b : Option ReplayTurn) → InOrder a b → InOrder a (ended_at sequence b)
InOrder-ended_second sequence none b h = tt
InOrder-ended_second sequence (some a) none h = h
InOrder-ended_second sequence (some a) (some b) h = h

InOrder-started :
    (id : Text) (head sequence : ℕ) (turn : Option ReplayTurn)
    → head < sequence
    → TurnBy head turn
    → is_turn id turn ≡ false
    → InOrder turn (some (record { turn_id = id; start_seq = sequence; end_seq = none }))
InOrder-started id head sequence none h t q = tt
InOrder-started id head sequence (some turn) h t q = (omega arith, q)

module _ (id : Text) (head sequence : ℕ) (h : head < sequence) (index : ReplayIndex)
    (v : IsIndex head index) where
  pub IsIndex-later : IsIndex sequence index
  IsIndex-later = record {
    previous = TurnBy-mono head sequence index.previous_turn (omega arith) v.previous;
    current = TurnBy-mono head sequence index.current_turn (omega arith) v.current;
    ordered = v.ordered;
  }

  start_turn-IsIndex : IsIndex sequence (start_turn id sequence index)
  unfolding start_turn
  start_turn-IsIndex = elim (Bool-cases (is_turn id index.current_turn)) [
    | inl q ↦ rw q IsIndex-later
    | inr q ↦ rw q (record {
      previous = TurnBy-mono head sequence index.current_turn (omega arith) v.current;
      current = (omega arith, omega arith, λ e none_some. absurd (cc));
      ordered = InOrder-started id head sequence index.current_turn h v.current q;
    })
  ]

  end_turn-IsIndex : IsIndex sequence (end_turn id sequence index)
  unfolding end_turn
  end_turn-IsIndex = elim (Bool-cases (is_turn id index.current_turn)) [
    | inl q ↦ rw q (record {
      previous = TurnBy-mono head sequence index.previous_turn (omega arith) v.previous;
      current = TurnBy-ended_at head sequence index.current_turn h v.current;
      ordered = InOrder-ended_second sequence index.previous_turn index.current_turn v.ordered;
    })
    | inr q ↦ elim (Bool-cases (is_turn id index.previous_turn)) [
      | inr r ↦ rw (q, r) IsIndex-later
      | inl r ↦
          rw (q, r)
            (record {
              previous = TurnBy-ended_at head sequence index.previous_turn h v.previous;
              current = TurnBy-mono head sequence index.current_turn (omega arith) v.current;
              ordered =
                  InOrder-ended_first sequence index.previous_turn index.current_turn v.ordered;
            })
    ]
  ]

  pub apply_replay_event-IsIndex :
      (event : ChatEvent) → IsIndex sequence (apply_replay_event id sequence event index)
  unfolding apply_replay_event
  apply_replay_event-IsIndex (turn_started turn) = start_turn-IsIndex
  apply_replay_event-IsIndex (finish message reason) = end_turn-IsIndex
  apply_replay_event-IsIndex (interrupted message content reason) = end_turn-IsIndex
  apply_replay_event-IsIndex (clear reason) = end_turn-IsIndex
  apply_replay_event-IsIndex other = IsIndex-later
