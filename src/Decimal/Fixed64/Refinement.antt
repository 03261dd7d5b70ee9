-- ===== src/Decimal/Fixed64/Refinement.antt =====
-- The operations of `Fixed64` in fandos1/internal/decimal/decimal.go as operations on integers.
use fandos.Prelude.{
  ◌≡◌, refl, ap, ◌∙◌, true, false, not, ◌⊎◌, inl, inr, arith, if◌then◌else◌, if-both, Bool-cases, ℤ,
  pos, ◌+ℤ◌, ◌-ℤ◌, ◌*ℤ◌, +ℤ_parts, -ℤ_parts, eq_of_parts,
}
use fandos.Decimal.Fixed64.{
  min_int64, in_int64, wrap, eq_ℤ, add_unscaled, Fixed, FixedError, scale_mismatch, overflow,
  scaled, add_with, sub_with, negate, mul_int,
}
use fandos.Decimal.Fixed64.Exact.{exact, wrap_in, add_unscaled-exact}
use fandos.Decimal.Fixed64.Product.{eq_of_eq, mul_unscaled-exact}

-- The specification of a result: the integer at this scale, or the overflow where an int64 has not got
-- it.
abbrev pub exact_at : ℤ → ℤ → Fixed ⊎ FixedError
exact_at scale z = if in_int64 z then inl (record { unscaled = z; scale = scale }) else inr overflow

-- The specification of an operation on two values of one scale.
abbrev pub at_one_scale : Fixed → Fixed → ℤ → Fixed ⊎ FixedError
at_one_scale f o z = if not (eq_ℤ f.scale o.scale) then inr scale_mismatch else exact_at f.scale z

-- The operations do what the integers do. The difference does so unless the second value is the least
-- int64, whose opposite wraps around to itself: then it is the sum.
pub record Refines (f o : Fixed) (m : ℤ) : Type 0 where
  pub sum : add_with f o ≡ at_one_scale f o (f.unscaled +ℤ o.unscaled)
  pub difference :
      (sub_with f o ≡ at_one_scale f o (f.unscaled -ℤ o.unscaled))
      ⊎ ((o.unscaled ≡ min_int64) × (sub_with f o ≡ at_one_scale f o (f.unscaled +ℤ o.unscaled)))
  pub opposite : negate f ≡ exact_at f.scale (pos 0 -ℤ f.unscaled)
  pub multiple : mul_int f m ≡ exact_at f.scale (f.unscaled *ℤ m)

scaled-exact : (scale z : ℤ) → scaled scale (exact z) ≡ exact_at scale z
scaled-exact scale z = elim (Bool-cases (in_int64 z)) [ inl h ↦ rw h refl | inr h ↦ rw h refl ]

opposite_in : (z : ℤ) → in_int64 z ≡ true → eq_ℤ z min_int64 ≡ false → in_int64 (pos 0 -ℤ z) ≡ true
opposite_in z h k = ground (arith, -ℤ_parts (pos 0) z)

add_opposite : (a b : ℤ) → a +ℤ (pos 0 -ℤ b) ≡ a -ℤ b
add_opposite a b =
    let c = pos 0 -ℤ b in
    eq_of_parts (a +ℤ c) (a -ℤ b) (omega (arith, +ℤ_parts a c, -ℤ_parts (pos 0) b, -ℤ_parts a b))

least_wraps : wrap (pos 0 -ℤ min_int64) ≡ min_int64
unfolding wrap ◌-ℤ◌
least_wraps = refl

least_out : in_int64 (pos 0 -ℤ min_int64) ≡ false
unfolding ◌-ℤ◌
least_out = refl

module _ (f o : Fixed) (hf : in_int64 f.unscaled ≡ true) (ho : in_int64 o.unscaled ≡ true) where
  -- Where the scales are the same, what the scaled result is decides.
  sum_of :
      (z w : ℤ)
      → add_unscaled f.unscaled z ≡ exact w
      → (if not (eq_ℤ f.scale o.scale)
          then inr scale_mismatch
          else scaled f.scale (add_unscaled f.unscaled z))
        ≡ at_one_scale f o w
  sum_of z w h = rw (h, scaled-exact f.scale w) refl

  difference_of :
      (sub_with f o ≡ at_one_scale f o (f.unscaled -ℤ o.unscaled))
      ⊎ ((o.unscaled ≡ min_int64) × (sub_with f o ≡ at_one_scale f o (f.unscaled +ℤ o.unscaled)))
  unfolding sub_with
  difference_of = elim (Bool-cases (eq_ℤ o.unscaled min_int64)) [
    | inl e ↦
        let least = eq_of_eq o.unscaled min_int64 e in
        let same : wrap (pos 0 -ℤ o.unscaled) ≡ o.unscaled = rw least least_wraps in
        inr (
          least,
          sum_of (wrap (pos 0 -ℤ o.unscaled)) (f.unscaled +ℤ o.unscaled)
              (rw same (add_unscaled-exact f.unscaled o.unscaled hf ho)),
        )
    | inr e ↦
        let z = pos 0 -ℤ o.unscaled in
        let hz = opposite_in o.unscaled ho e in
        inl (
          sum_of (wrap z) (f.unscaled -ℤ o.unscaled) (
            rw (wrap_in z hz) (
              add_unscaled-exact f.unscaled z hf hz
              ∙ ap exact (add_opposite f.unscaled o.unscaled))))
  ]

  negate-exact : negate f ≡ exact_at f.scale (pos 0 -ℤ f.unscaled)
  unfolding negate
  negate-exact =
      let z = pos 0 -ℤ f.unscaled in
      if-both (λ r. r ≡ exact_at f.scale z) (eq_ℤ f.unscaled min_int64)
        (λ e. rw (eq_of_eq f.unscaled min_int64 e, least_out) refl)
        (λ e. let hz = opposite_in f.unscaled hf e in rw (hz, wrap_in z hz) refl)

  -- For values in int64, the operations of Fixed64 refine those of the integers: a sum, an opposite and
  -- a multiple are the exact integer of the scale where int64 has it, and the overflow exactly where it
  -- has not; a sum or a difference of two scales is the error of the scales. A difference is exact in
  -- the same way, or the second value is the least int64 and the result is that of the sum.
  pub fixed-Refines : (m : ℤ) → Refines f o m
  unfolding add_with mul_int
  fixed-Refines m = record {
    sum =
        sum_of o.unscaled (f.unscaled +ℤ o.unscaled)
          (add_unscaled-exact f.unscaled o.unscaled hf ho);
    difference = difference_of;
    opposite = negate-exact;
    multiple = rw (mul_unscaled-exact f.unscaled m hf) (scaled-exact f.scale (f.unscaled *ℤ m));
  }
