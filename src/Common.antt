-- ===== src/Common.antt =====
-- The names that the other modules share: those of the libraries, passed on, and of four children.
mod Tests
mod Lists
mod Words
mod Fallible
mod Dictionary
mod Int
mod Decimal
mod Texts
pub use Tests.*
pub use Lists.*
pub use Words.*
pub use Fallible.*
pub use Dictionary.{Eq, nat_eq, Dict, lookup-insert, lookup-erase, value_known}
unfoldable pub use Dictionary.{lookup, insert, erase}
pub use Int.*
pub use Texts.*
pub use Decimal.{
  read-decimal, decimal_inj, power_of_ten, length-decimal, decimal_digit, decimal_more,
}
unfoldable pub use Decimal.{decimal, read_decimal}
pub use Prim.Native.Nat.{ℕ, zero, suc, ◌+◌, ◌-◌, ◌*◌, ◌/◌, ◌%◌, ◌^◌, ◌≤◌, ◌<◌, min, bit_and, bit_or}
pub use mathlib.Core.Path.{◌≡◌, refl, sym, ap, ap₂, subst, fun_ext, ◌∙◌, ◌≡⟨◌⟩◌, ◌∎}
pub use mathlib.Core.Logic.{◌≢◌, ◌↔◌, ◌⊎◌, inl, inr}
pub use mathlib.Core.Bool.{Bool, true, false, not, ◌&&◌, ◌||◌}
pub use mathlib.Core.Option.{Option, none, some}
pub use mathlib.Core.List.{List, [], ◌∷◌, ◌++◌, map, append-nil, append_assoc}
pub use native.Mathlib.Omega.{arith}
