-- ===== src/Decimal/Fixed64.antt =====
-- `Fixed64` of fandos1/internal/decimal/decimal.go. An int64 is an integer from -2^63 to 2^63 - 1, and
-- each operation of Go on it wraps around; an int8 scale is an integer.
pub mod Exact
pub mod Product
pub mod Refinement
use fandos.Prelude.{
  ℕ, zero, suc, ◌-◌, ◌/◌, ◌%◌, ◌^◌, ◌≡◌, Bool, true, false, ◌&&◌, ◌||◌, Option, none, some, ◌⊎◌,
  inl, inr, ltb, if◌then◌else◌, ℤ, pos, negsuc, sub_ℕ, ◌+ℤ◌, ◌-ℤ◌, ◌*ℤ◌, leb_ℤ, ltb_ℤ, not,
}

abbrev pub max_int64 : ℤ
max_int64 = pos (2 ^ 63 - 1)

abbrev pub min_int64 : ℤ
min_int64 = negsuc (2 ^ 63 - 1)

abbrev pub in_int64 : ℤ → Bool
in_int64 z = leb_ℤ min_int64 z && leb_ℤ z max_int64

-- The bit pattern of an integer in 64 bits.
abbrev pub pattern : ℤ → ℕ
pattern (pos n) = n % 2 ^ 64
pattern (negsuc n) = 2 ^ 64 - 1 - n % 2 ^ 64

abbrev pub signed : ℕ → ℤ
signed w = if ltb w (2 ^ 63) then pos w else negsuc (2 ^ 64 - w - 1)

-- What an int64 keeps of an integer.
unfoldable pub wrap : ℤ → ℤ
wrap z = signed (pattern z)

-- The opposite of a number.
abbrev pub opposite : ℕ → ℤ
opposite zero = pos 0
opposite (suc n) = negsuc n

-- Go's division of integers, towards zero; the divisor is not zero where it is called.
unfoldable pub quotient : ℤ → ℤ → ℤ
quotient (pos m) (pos n) = pos (m / n)
quotient (pos m) (negsuc n) = opposite (m / suc n)
quotient (negsuc m) (pos n) = opposite (suc m / n)
quotient (negsuc m) (negsuc n) = pos (suc m / suc n)

abbrev pub eq_ℤ : ℤ → ℤ → Bool
eq_ℤ a b = leb_ℤ a b && leb_ℤ b a

-- `none` is the overflow.
unfoldable pub add_unscaled : ℤ → ℤ → Option ℤ
add_unscaled a b =
    if ltb_ℤ (pos 0) b && ltb_ℤ (wrap (max_int64 -ℤ b)) a
    then none
    else if ltb_ℤ b (pos 0) && ltb_ℤ a (wrap (min_int64 -ℤ b))
    then none
    else some (wrap (a +ℤ b))

unfoldable pub mul_unscaled : ℤ → ℤ → Option ℤ
mul_unscaled a b =
    let r = wrap (a *ℤ b) in
    if eq_ℤ a (pos 0) || eq_ℤ b (pos 0)
    then some (pos 0)
    else if eq_ℤ a min_int64 && eq_ℤ b (negsuc 0) || eq_ℤ b min_int64 && eq_ℤ a (negsuc 0)
    then none
    else if not (eq_ℤ (wrap (quotient r b)) a)
    then none
    else some r

pub record Fixed : Type 0 where
  pub unscaled : ℤ
  pub scale : ℤ

pub data FixedError : Type 0 where
  scale_out_of_range scale_mismatch overflow : FixedError

unfoldable pub new_fixed : ℤ → ℤ → Fixed ⊎ FixedError
new_fixed unscaled scale =
    if ltb_ℤ scale (pos 0) || ltb_ℤ (pos 18) scale
    then inr scale_out_of_range
    else inl (record { unscaled = unscaled; scale = scale })

-- A result of the scale of the operand, or the overflow.
abbrev pub scaled : ℤ → Option ℤ → Fixed ⊎ FixedError
scaled scale none = inr overflow
scaled scale (some u) = inl (record { unscaled = u; scale = scale })

unfoldable pub add_with : Fixed → Fixed → Fixed ⊎ FixedError
add_with f o =
    if not (eq_ℤ f.scale o.scale)
    then inr scale_mismatch
    else scaled f.scale (add_unscaled f.unscaled o.unscaled)

unfoldable pub sub_with : Fixed → Fixed → Fixed ⊎ FixedError
sub_with f o =
    if not (eq_ℤ f.scale o.scale)
    then inr scale_mismatch
    else scaled f.scale (add_unscaled f.unscaled (wrap (pos 0 -ℤ o.unscaled)))

unfoldable pub negate : Fixed → Fixed ⊎ FixedError
negate f =
    if eq_ℤ f.unscaled min_int64
    then inr overflow
    else inl (record f { unscaled = wrap (pos 0 -ℤ f.unscaled) })

unfoldable pub mul_int : Fixed → ℤ → Fixed ⊎ FixedError
mul_int f m = scaled f.scale (mul_unscaled f.unscaled m)
