-- ===== src/Decimal.antt =====
-- fandos1/internal/decimal/decimal.go: the risk-side `Decimal` over shopspring.
pub mod Interface
pub mod Order
pub mod Example
pub mod Fixed64
mod Tests
use fandos.Prelude.{
  ◌≡◌, Bool, true, false, not, ◌&&◌, Option, none, some, List, [], ◌∷◌, if◌then◌else◌,
}
pub use Interface.{Shopspring}

module _ (S : Shopspring) where
  open S use {Decimal, zero, add, sub, neg, mul, floor, quotient, le}

  abbrev pub less_than_or_equal : Decimal → Decimal → Bool
  less_than_or_equal a b = le a b

  abbrev pub greater_than_or_equal : Decimal → Decimal → Bool
  greater_than_or_equal a b = le b a

  abbrev pub less_than : Decimal → Decimal → Bool
  less_than a b = not (le b a)

  abbrev pub greater_than : Decimal → Decimal → Bool
  greater_than a b = not (le a b)

  abbrev pub equal : Decimal → Decimal → Bool
  equal a b = le a b && le b a

  abbrev pub is_zero : Decimal → Bool
  is_zero a = equal a zero

  abbrev pub is_positive : Decimal → Bool
  is_positive a = greater_than a zero

  abbrev pub is_negative : Decimal → Bool
  is_negative a = less_than a zero

  abbrev pub abs : Decimal → Decimal
  abs a = if is_negative a then neg a else a

  abbrev pub min : Decimal → Decimal → Decimal
  min a b = if less_than a b then a else b

  abbrev pub max : Decimal → Decimal → Decimal
  max a b = if greater_than a b then a else b

  -- `none` is the panic on a zero divisor.
  abbrev pub div : Decimal → Decimal → Option Decimal
  div a b = if is_zero b then none else some (quotient a b)

  -- The quantised value and the residue; `none` is the panic on a zero step.
  abbrev pub quantize : Decimal → Decimal → Option (Decimal × Decimal)
  quantize d step =
      let quant = mul (floor (quotient d step)) step in
      if is_zero step then none else some (quant, sub d quant)

  sum_from : Decimal → List Decimal → Decimal
  sum_from out [] = out
  sum_from out (x ∷ xs) = sum_from (add out x) xs

  unfoldable pub sum : List Decimal → Decimal
  unfolding sum_from
  sum items = sum_from zero items
