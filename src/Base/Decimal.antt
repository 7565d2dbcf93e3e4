-- ===== src/Base/Decimal.antt =====
-- Decimal numbers as texts: `Display` of an unsigned integer, and `parse`.
pub mod Digits
use Prim.Native.Nat.{ℕ, zero, suc, ◌+◌, ◌-◌, ◌*◌, ◌/◌, ◌%◌, ◌^◌}
use mathlib.Core.Bool.{◌&&◌}
use mathlib.Core.List.{[], ◌∷◌}
use mathlib.Core.Option.{Option, none, some}
use delphi.Base.Tests.{leb, ltb, ◌==◌, if◌then◌else◌}
use delphi.Base.Texts.{Text}

-- The digits of `n` in front of `acc`; fuel `n + 1` is enough, since `n / 10` is below `n`.
digits_from : ℕ → ℕ → Text → Text
digits_from zero n acc = acc
digits_from (suc f) n acc =
    let rest = digits_from f (n / 10) ((b'0' + n % 10) ∷ acc) in
    if ltb n 10 then (b'0' + n) ∷ acc else rest

unfoldable pub decimal : ℕ → Text
unfolding digits_from
decimal n = digits_from (suc n) n []

-- The value of the digits of a text that stand behind digits of value `acc`.
unfoldable pub parse_from : ℕ → Text → Option ℕ
parse_from acc [] = some acc
parse_from acc (c ∷ s) =
    if leb b'0' c && leb c b'9' then parse_from (acc * 10 + (c - b'0')) s else none

-- The value of digits, of which there is at least one.
abbrev pub some_digits : Text → Option ℕ
some_digits [] = none
some_digits (c ∷ s) = parse_from 0 (c ∷ s)

abbrev pub below_or_none : ℕ → Option ℕ → Option ℕ
below_or_none bound none = none
below_or_none bound (some n) = if ltb n bound then some n else none

-- `parse::<u64>().ok()`: an optional plus sign, then digits.
unfoldable pub parse_u64 : Text → Option ℕ
unfolding parse_from
parse_u64 [] = none
parse_u64 (c ∷ s) = below_or_none (2 ^ 64) (some_digits (if c == b'+' then s else c ∷ s))
