-- ===== src/Base/Decimal/Digits.antt =====
-- Decimal texts are read back, and are digits alone, at least one.
use Prim.Native.Nat.{ℕ, zero, suc, ◌+◌, ◌-◌, ◌*◌, ◌/◌, ◌%◌, ◌^◌, ◌<◌}
use mathlib.Core.Path.{◌≡◌, refl, ◌∙◌, ap}
use mathlib.Core.Logic.{inl, inr}
use mathlib.Core.Bool.{true, Bool, ◌&&◌}
use mathlib.Core.List.{[], ◌∷◌}
use mathlib.Core.Option.{some}
use native.Mathlib.Omega.{arith}
use delphi.Base.Tests.{leb, ltb, Bool-cases, lt→ltb}
use delphi.Base.Lists.{all}
use delphi.Base.Texts.{Text}
use delphi.Base.Decimal.{digits_from, decimal, parse_from, some_digits, parse_u64, below_or_none}

abbrev pub is_digit : ℕ → Bool
is_digit c = leb b'0' c && leb c b'9'

parse_from_digit :
    (m d : ℕ) (acc : Text) → d < 10 → parse_from m ((b'0' + d) ∷ acc) ≡ parse_from (m * 10 + d) acc
unfolding parse_from
parse_from_digit m d acc h =
    let e : m * 10 + (b'0' + d - b'0') ≡ m * 10 + d = omega arith in ground arith

parse_from-digits_from :
    (f n : ℕ) (acc : Text) → n < f → parse_from 0 (digits_from f n acc) ≡ parse_from n acc
unfolding digits_from
parse_from-digits_from zero n acc h = absurd (omega arith)
parse_from-digits_from (suc f) n acc h = elim (Bool-cases (ltb n 10)) [
  | inl q ↦
      rw q (parse_from_digit 0 n acc (ground arith) ∙ ap (λ m. parse_from m acc) (omega arith))
  | inr q ↦ rw q (
      parse_from-digits_from f (n / 10) ((b'0' + n % 10) ∷ acc) (ground arith)
      ∙ parse_from_digit (n / 10) (n % 10) acc (omega arith)
      ∙ ap (λ m. parse_from m acc) (omega arith))
]

pub parse_from-decimal : (n : ℕ) → parse_from 0 (decimal n) ≡ some n
unfolding decimal parse_from
parse_from-decimal n = parse_from-digits_from (suc n) n [] (omega arith)

-- A property of every digit of a number, in front of a text that is not empty.
abbrev pub IsDigits : Text → Type 0
IsDigits s = (c : ℕ) × (r : Text) × (s ≡ c ∷ r) × (all is_digit s ≡ true)

IsDigits-digits_from :
    (f n c : ℕ) (r : Text) → all is_digit (c ∷ r) ≡ true → IsDigits (digits_from f n (c ∷ r))
unfolding digits_from
IsDigits-digits_from zero n c r h = (c, r, refl, h)
IsDigits-digits_from (suc f) n c r h = elim (Bool-cases (ltb n 10)) [
  | inl q ↦ rw q (b'0' + n, c ∷ r, refl, ground arith)
  | inr q ↦ rw q (IsDigits-digits_from f (n / 10) (b'0' + n % 10) (c ∷ r) (ground arith))
]

pub IsDigits-decimal : (n : ℕ) → IsDigits (decimal n)
unfolding decimal digits_from
IsDigits-decimal n = elim (Bool-cases (ltb n 10)) [
  | inl q ↦ rw q (b'0' + n, [], refl, ground arith)
  | inr q ↦ rw q (IsDigits-digits_from n (n / 10) (b'0' + n % 10) [] (ground arith))
]

pub some_digits-decimal : (n : ℕ) → some_digits (decimal n) ≡ some n
some_digits-decimal n =
    let (c, r, e, h) = IsDigits-decimal n in ground (arith, parse_from-decimal n, e)

parse_u64_digits :
    (c : ℕ) (r s : Text)
    → s ≡ c ∷ r
    → all is_digit s ≡ true
    → parse_u64 s ≡ below_or_none (2 ^ 64) (some_digits s)
unfolding parse_u64
parse_u64_digits c r s e d = rw e (ground (arith, rw e at d))

pub parse_u64-decimal : (n : ℕ) → n < 2 ^ 64 → parse_u64 (decimal n) ≡ some n
parse_u64-decimal n h =
    let (c, r, e, d) = IsDigits-decimal n in
    parse_u64_digits c r (decimal n) e d ∙ rw (some_digits-decimal n, lt→ltb n (2 ^ 64) h) refl
