-- ===== src/Decimal/Interface.antt =====
-- What fandos1/internal/decimal/decimal.go takes from github.com/shopspring/decimal, as an
-- interface: the operations that the wrapper calls, with the documented behaviour that the code
-- relies on. Addition, subtraction, multiplication and comparison of decimals are exact; division
-- keeps `DivisionPrecision` digits behind the point. Two decimals are identified when `Equal` holds.
use fandos.Prelude.{◌≡◌, ◌⊎◌, ◌≢◌, Bool, true}

pub record Shopspring : Type 1 where
  pub Decimal : Type 0
  pub zero : Decimal
  pub one : Decimal
  pub add : Decimal → Decimal → Decimal
  pub sub : Decimal → Decimal → Decimal
  pub mul : Decimal → Decimal → Decimal
  pub neg : Decimal → Decimal
  -- `Floor`, towards minus infinity.
  pub floor : Decimal → Decimal
  -- `Div`, which the wrapper calls with a divisor that is not zero.
  pub quotient : Decimal → Decimal → Decimal
  -- `LessThanOrEqual`.
  pub le : Decimal → Decimal → Bool
  -- A value with at most `DivisionPrecision` digits behind the point.
  pub IsPrecise : Decimal → Type 0
  pub add_comm : (a b : Decimal) → add a b ≡ add b a
  pub add_assoc : (a b c : Decimal) → add (add a b) c ≡ add a (add b c)
  pub add-zero : (a : Decimal) → add a zero ≡ a
  pub add-neg : (a : Decimal) → add a (neg a) ≡ zero
  pub sub-add : (a b : Decimal) → sub a b ≡ add a (neg b)
  pub le_total : (a b : Decimal) → (le a b ≡ true) ⊎ (le b a ≡ true)
  pub le_trans : (a b c : Decimal) → le a b ≡ true → le b c ≡ true → le a c ≡ true
  pub le_antisymm : (a b : Decimal) → le a b ≡ true → le b a ≡ true → a ≡ b
  pub add_mono : (a b c : Decimal) → le a b ≡ true → le (add a c) (add b c) ≡ true
  pub mul_comm : (a b : Decimal) → mul a b ≡ mul b a
  pub mul-one : (a : Decimal) → mul a one ≡ a
  pub mul-add : (a b c : Decimal) → mul a (add b c) ≡ add (mul a b) (mul a c)
  pub mul_mono :
      (a b c : Decimal) → le zero a ≡ true → le b c ≡ true → le (mul a b) (mul a c) ≡ true
  pub sub-IsPrecise : (a b : Decimal) → IsPrecise a → IsPrecise b → IsPrecise (sub a b)
  pub quotient-IsPrecise : (a c : Decimal) → c ≢ zero → IsPrecise (quotient a c)
  -- Rounding keeps a quotient on its side of every value that needs no rounding.
  pub quotient_le :
      (a b c : Decimal)
      → IsPrecise b
      → le zero c ≡ true
      → c ≢ zero
      → le a (mul c b) ≡ true
      → le (quotient a c) b ≡ true
  pub le_quotient :
      (a b c : Decimal)
      → IsPrecise b
      → le zero c ≡ true
      → c ≢ zero
      → le (mul c b) a ≡ true
      → le b (quotient a c) ≡ true
  pub floor_le : (a : Decimal) → le (floor a) a ≡ true
