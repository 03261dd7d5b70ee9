-- ===== src/Decimal/Example.antt =====
-- The integers as decimals: the assumptions of `Shopspring` can be met, and code over decimals runs.
use native.Mathlib.Nat.{mul_comm, mul-le-mul_left, div-le_of_le-mul, le-div_iff_mul-le}
use fandos.Prelude.{
  ℕ, zero, suc, ◌+◌, ◌*◌, ◌/◌, ◌≡◌, refl, ap, ◌≢◌, ◌⊎◌, true, arith, ℤ, pos, negsuc, pos_part,
  neg_part, sub_ℕ, ◌+ℤ◌, ◌-ℤ◌, ◌*ℤ◌, leb_ℤ, ◌≤ℤ◌, +ℤ_parts, eq_of_parts, int_laws,
}
use fandos.Decimal.Interface.{Shopspring}

abbrev pub neg_ℤ : ℤ → ℤ
neg_ℤ a = sub_ℕ (neg_part a) (pos_part a)

-- Towards zero, for a divisor that is not negative.
abbrev pub quotient_ℤ : ℤ → ℤ → ℤ
quotient_ℤ a c = sub_ℕ (pos_part a / pos_part c) (neg_part a / pos_part c)

pub add_comm_ℤ : (a b : ℤ) → a +ℤ b ≡ b +ℤ a
add_comm_ℤ a b = omega int_laws

pub add_assoc_ℤ : (a b c : ℤ) → a +ℤ b +ℤ c ≡ a +ℤ (b +ℤ c)
add_assoc_ℤ a b c = omega int_laws

pub add_zero_ℤ : (a : ℤ) → a +ℤ pos 0 ≡ a
add_zero_ℤ a = omega int_laws

pub add_neg_ℤ : (a : ℤ) → a +ℤ neg_ℤ a ≡ pos 0
unfolding ◌+ℤ◌
add_neg_ℤ a = ground arith

pub sub_add_ℤ : (a b : ℤ) → a -ℤ b ≡ a +ℤ neg_ℤ b
unfolding ◌+ℤ◌ ◌-ℤ◌
sub_add_ℤ a b = ground arith

pub le_total_ℤ : (a b : ℤ) → (leb_ℤ a b ≡ true) ⊎ (leb_ℤ b a ≡ true)
le_total_ℤ a b = ground arith

pub le_trans_ℤ : (a b c : ℤ) → leb_ℤ a b ≡ true → leb_ℤ b c ≡ true → leb_ℤ a c ≡ true
le_trans_ℤ a b c h k = ground arith

pub le_antisymm_ℤ : (a b : ℤ) → leb_ℤ a b ≡ true → leb_ℤ b a ≡ true → a ≡ b
le_antisymm_ℤ a b h k = ground arith

pub add_mono_ℤ : (a b c : ℤ) → leb_ℤ a b ≡ true → leb_ℤ (a +ℤ c) (b +ℤ c) ≡ true
add_mono_ℤ a b c h = ground (arith, +ℤ_parts a c, +ℤ_parts b c)

*ℤ_parts :
    (a b : ℤ)
    → pos_part (a *ℤ b) + pos_part a * neg_part b + neg_part a * pos_part b
      ≡ neg_part (a *ℤ b) + pos_part a * pos_part b + neg_part a * neg_part b
unfolding ◌*ℤ◌
*ℤ_parts a b = ground arith

pub mul_comm_ℤ : (a b : ℤ) → a *ℤ b ≡ b *ℤ a
mul_comm_ℤ a b = eq_of_parts _ _ (omega (arith, *ℤ_parts a b, *ℤ_parts b a))

pub mul_add_ℤ : (a b c : ℤ) → a *ℤ (b +ℤ c) ≡ a *ℤ b +ℤ a *ℤ c
mul_add_ℤ (pos a) b c = grind (
  arith,
  *ℤ_parts (pos a) (b +ℤ c),
  *ℤ_parts (pos a) b,
  *ℤ_parts (pos a) c,
  +ℤ_parts b c,
  +ℤ_parts (pos a *ℤ b) (pos a *ℤ c),
  eq_of_parts (pos a *ℤ (b +ℤ c)) (pos a *ℤ b +ℤ pos a *ℤ c),
  ap (λ (t : ℕ). a * t) (+ℤ_parts b c),
)
mul_add_ℤ (negsuc a) b c = omega (
  arith,
  *ℤ_parts (negsuc a) (b +ℤ c),
  *ℤ_parts (negsuc a) b,
  *ℤ_parts (negsuc a) c,
  +ℤ_parts b c,
  +ℤ_parts (negsuc a *ℤ b) (negsuc a *ℤ c),
  eq_of_parts (negsuc a *ℤ (b +ℤ c)) (negsuc a *ℤ b +ℤ negsuc a *ℤ c),
  ap (λ (t : ℕ). suc a * t) (+ℤ_parts b c),
)

pub leb_ℤ→le : (a b : ℤ) → leb_ℤ a b ≡ true → a ≤ℤ b
leb_ℤ→le a b h = ground arith

pub le→leb_ℤ : (a b : ℤ) → a ≤ℤ b → leb_ℤ a b ≡ true
le→leb_ℤ a b h = ground arith

pub mul_mono_ℤ :
    (a b c : ℤ) → leb_ℤ (pos 0) a ≡ true → leb_ℤ b c ≡ true → leb_ℤ (a *ℤ b) (a *ℤ c) ≡ true
mul_mono_ℤ (pos a) b c h k =
    le→leb_ℤ (pos a *ℤ b) (pos a *ℤ c)
      (omega (arith, *ℤ_parts (pos a) b, *ℤ_parts (pos a) c, mul-le-mul_left a (leb_ℤ→le b c k)))
mul_mono_ℤ (negsuc a) b c h k = ground arith

pub quotient_le_ℤ :
    (a b c : ℤ)
    → Unit {0}
    → leb_ℤ (pos 0) c ≡ true
    → c ≢ pos 0
    → leb_ℤ a (c *ℤ b) ≡ true
    → leb_ℤ (quotient_ℤ a c) b ≡ true
quotient_le_ℤ a b (pos zero) u h ne k = absurd (ne refl)
quotient_le_ℤ (pos x) (pos y) (pos (suc c)) u h ne k =
    ground (arith, *ℤ_parts (pos (suc c)) (pos y), div-le_of_le-mul (suc c) {m = x} {n = y})
quotient_le_ℤ (pos x) (negsuc y) (pos (suc c)) u h ne k =
    ground (arith, *ℤ_parts (pos (suc c)) (negsuc y))
quotient_le_ℤ (negsuc x) (pos y) (pos (suc c)) u h ne k = ground arith
quotient_le_ℤ (negsuc x) (negsuc y) (pos (suc c)) u h ne k = ground (
  arith,
  *ℤ_parts (pos (suc c)) (negsuc y),
  mul_comm (suc c) (suc y),
  (le-div_iff_mul-le {k = suc c} {x = suc y} {y = suc x} (omega arith)).1,
)
quotient_le_ℤ a b (negsuc c) u h ne k = ground arith

pub le_quotient_ℤ :
    (a b c : ℤ)
    → Unit {0}
    → leb_ℤ (pos 0) c ≡ true
    → c ≢ pos 0
    → leb_ℤ (c *ℤ b) a ≡ true
    → leb_ℤ b (quotient_ℤ a c) ≡ true
le_quotient_ℤ a b (pos zero) u h ne k = absurd (ne refl)
le_quotient_ℤ (pos x) (pos y) (pos (suc c)) u h ne k = ground (
  arith,
  *ℤ_parts (pos (suc c)) (pos y),
  mul_comm (suc c) y,
  (le-div_iff_mul-le {k = suc c} {x = y} {y = x} (omega arith)).1,
)
le_quotient_ℤ (pos x) (negsuc y) (pos (suc c)) u h ne k = ground arith
le_quotient_ℤ (negsuc x) (pos y) (pos (suc c)) u h ne k =
    ground (arith, *ℤ_parts (pos (suc c)) (pos y))
le_quotient_ℤ (negsuc x) (negsuc y) (pos (suc c)) u h ne k =
    ground
      (arith, *ℤ_parts (pos (suc c)) (negsuc y), div-le_of_le-mul (suc c) {m = suc x} {n = suc y})
le_quotient_ℤ a b (negsuc c) u h ne k = ground arith

pub floor_le_ℤ : (a : ℤ) → leb_ℤ a a ≡ true
floor_le_ℤ a = ground arith

pub mul_one_ℤ : (a : ℤ) → a *ℤ pos 1 ≡ a
unfolding ◌*ℤ◌
mul_one_ℤ a = ground arith

abbrev pub integers : Shopspring
integers = record {
  Decimal = ℤ;
  zero = pos 0;
  one = pos 1;
  add = ◌+ℤ◌;
  sub = ◌-ℤ◌;
  mul = ◌*ℤ◌;
  neg = neg_ℤ;
  floor = λ a. a;
  quotient = quotient_ℤ;
  le = leb_ℤ;
  IsPrecise = λ a. Unit;
  add_comm = add_comm_ℤ;
  add_assoc = add_assoc_ℤ;
  add-zero = add_zero_ℤ;
  add-neg = add_neg_ℤ;
  sub-add = sub_add_ℤ;
  le_total = le_total_ℤ;
  le_trans = le_trans_ℤ;
  le_antisymm = le_antisymm_ℤ;
  add_mono = add_mono_ℤ;
  mul_comm = mul_comm_ℤ;
  mul-one = mul_one_ℤ;
  mul-add = mul_add_ℤ;
  mul_mono = mul_mono_ℤ;
  sub-IsPrecise = λ a b h k. tt;
  quotient-IsPrecise = λ a c h. tt;
  quotient_le = quotient_le_ℤ;
  le_quotient = le_quotient_ℤ;
  floor_le = floor_le_ℤ;
}
