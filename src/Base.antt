-- ===== src/Base.antt =====
-- The names that every part shares: the libraries', passed on, and those of the children (tests on
-- numbers, lists by native lengths, texts, results and the state monad of the use cases).
mod Tests
mod Lists
mod Results
mod Texts
mod Decimal
pub use Tests.*
pub use Lists.*
pub use Results.*
unfoldable pub use Texts.*
unfoldable pub use Decimal.*
pub use Decimal.Digits.{
  is_digit, IsDigits, some_digits-decimal, parse_u64-decimal, IsDigits-decimal,
}
pub use Prim.Native.Nat.{ℕ, zero, suc, ◌+◌, ◌-◌, ◌*◌, ◌/◌, ◌%◌, ◌^◌, ◌≤◌, ◌<◌, min, max}
pub use mathlib.Core.Path.{◌≡◌, refl, sym, ap, ◌∙◌}
pub use mathlib.Core.Logic.{◌≢◌, ◌↔◌, ◌⊎◌, inl, inr}
pub use mathlib.Core.Bool.{Bool, true, false, not, ◌&&◌, ◌||◌}
pub use mathlib.Core.Option.{Option, none, some}
pub use mathlib.Core.List.{List, [], ◌∷◌, ◌++◌, map}
pub use native.Mathlib.Omega.{arith}
