-- ===== src/Decimal/Fixed64/Exact.antt =====
-- The checked operations of `Fixed64` in fandos1/internal/decimal/decimal.go against integers.
use fandos.Prelude.{
  ◌≡◌, refl, true, false, ◌&&◌, Option, none, some, inl, inr, arith, if◌then◌else◌, if-both,
  Bool-cases, ℤ, pos, negsuc, ◌+ℤ◌, ◌-ℤ◌, ltb_ℤ, +ℤ_parts, -ℤ_parts,
}
use fandos.Decimal.Fixed64.{max_int64, min_int64, in_int64, wrap, add_unscaled}

-- An int64 keeps an integer that is in its range.
pub wrap_in : (z : ℤ) → in_int64 z ≡ true → wrap z ≡ z
unfolding wrap
wrap_in (pos n) h = ground arith
wrap_in (negsuc n) h = ground arith

-- What is kept is always in the range.
pub in-wrap : (z : ℤ) → in_int64 (wrap z) ≡ true
unfolding wrap
in-wrap (pos n) = ground arith
in-wrap (negsuc n) = ground arith

-- The exact result of an operation, where an int64 has it.
abbrev pub exact : ℤ → Option ℤ
exact z = if in_int64 z then some z else none

-- The two tests of the sum see exactly whether it is in the range.
sum_in :
    (a b : ℤ)
    → in_int64 a ≡ true
    → in_int64 b ≡ true
    → (ltb_ℤ (pos 0) b && ltb_ℤ (max_int64 -ℤ b) a) ≡ false
    → (ltb_ℤ b (pos 0) && ltb_ℤ a (min_int64 -ℤ b)) ≡ false
    → in_int64 (a +ℤ b) ≡ true
sum_in a b ha hb h k = ground (arith, +ℤ_parts a b, -ℤ_parts max_int64 b, -ℤ_parts min_int64 b)

too_large :
    (a b : ℤ) → (ltb_ℤ (pos 0) b && ltb_ℤ (max_int64 -ℤ b) a) ≡ true → in_int64 (a +ℤ b) ≡ false
too_large a b h = ground (arith, +ℤ_parts a b, -ℤ_parts max_int64 b)

too_small :
    (a b : ℤ) → (ltb_ℤ b (pos 0) && ltb_ℤ a (min_int64 -ℤ b)) ≡ true → in_int64 (a +ℤ b) ≡ false
too_small a b h = ground (arith, +ℤ_parts a b, -ℤ_parts min_int64 b)

-- Where a test of the sum looks at its bound, the bound has not wrapped.
upper_test :
    (a b : ℤ)
    → in_int64 b ≡ true
    → (ltb_ℤ (pos 0) b && ltb_ℤ (wrap (max_int64 -ℤ b)) a)
      ≡ (ltb_ℤ (pos 0) b && ltb_ℤ (max_int64 -ℤ b) a)
upper_test a b hb = elim (Bool-cases (ltb_ℤ (pos 0) b)) [
  | inl e ↦ rw (e, wrap_in (max_int64 -ℤ b) (ground (arith, -ℤ_parts max_int64 b))) refl
  | inr e ↦ rw e refl
]

lower_test :
    (a b : ℤ)
    → in_int64 b ≡ true
    → (ltb_ℤ b (pos 0) && ltb_ℤ a (wrap (min_int64 -ℤ b)))
      ≡ (ltb_ℤ b (pos 0) && ltb_ℤ a (min_int64 -ℤ b))
lower_test a b hb = elim (Bool-cases (ltb_ℤ b (pos 0))) [
  | inl e ↦ rw (e, wrap_in (min_int64 -ℤ b) (ground (arith, -ℤ_parts min_int64 b))) refl
  | inr e ↦ rw e refl
]

-- `addUnscaled` is exact: for two int64 it gives the sum where the sum is in the range of int64, and
-- the overflow exactly where it is not.
pub add_unscaled-exact :
    (a b : ℤ) → in_int64 a ≡ true → in_int64 b ≡ true → add_unscaled a b ≡ exact (a +ℤ b)
unfolding add_unscaled
add_unscaled-exact a b ha hb =
    let Right : Option ℤ → Type 0 = λ r. r ≡ exact (a +ℤ b) in
    rw (upper_test a b hb, lower_test a b hb)
      (if-both Right (ltb_ℤ (pos 0) b && ltb_ℤ (max_int64 -ℤ b) a) (λ e. rw (too_large a b e) refl)
        (λ e.
          if-both Right (ltb_ℤ b (pos 0) && ltb_ℤ a (min_int64 -ℤ b))
            (λ f. rw (too_small a b f) refl)
            (λ f. let fits = sum_in a b ha hb e f in rw (fits, wrap_in (a +ℤ b) fits) refl)))
