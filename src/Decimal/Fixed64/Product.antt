-- ===== src/Decimal/Fixed64/Product.antt =====
-- The checked multiplication of `Fixed64` in fandos1/internal/decimal/decimal.go against integers.
use native.Mathlib.Nat.{mul-div_cancel, zero-div, div-mul-le_self, div-le_self, div-lt_self}
use fandos.Prelude.{
  ℕ, zero, suc, ◌*◌, ◌/◌, ◌^◌, ◌≡◌, refl, sym, ◌∙◌, inl, inr, Bool, true, false, ◌&&◌, ◌||◌, not,
  Option, none, some, arith, if-both, Bool-cases, ℤ, pos, negsuc, ◌*ℤ◌, eq_of_parts,
}
use fandos.Decimal.Fixed64.{min_int64, in_int64, wrap, opposite, quotient, eq_ℤ, mul_unscaled}
use fandos.Decimal.Fixed64.Exact.{exact, wrap_in, in-wrap}

mul_pos_pos : (m n : ℕ) → pos m *ℤ pos n ≡ pos (m * n)
unfolding ◌*ℤ◌
mul_pos_pos m n = ground arith

mul_pos_neg : (m n : ℕ) → pos m *ℤ negsuc n ≡ opposite (m * suc n)
unfolding ◌*ℤ◌
mul_pos_neg m n = ground arith

mul_neg_pos : (m n : ℕ) → negsuc m *ℤ pos n ≡ opposite (suc m * n)
unfolding ◌*ℤ◌
mul_neg_pos m n = ground arith

mul_neg_neg : (m n : ℕ) → negsuc m *ℤ negsuc n ≡ pos (suc m * suc n)
unfolding ◌*ℤ◌
mul_neg_neg m n = ground arith

opposite_by_pos : (k n : ℕ) → quotient (opposite k) (pos (suc n)) ≡ opposite (k / suc n)
unfolding quotient
opposite_by_pos zero n = ground (arith, zero-div (suc n))
opposite_by_pos (suc k) n = refl

opposite_by_neg : (k n : ℕ) → quotient (opposite k) (negsuc n) ≡ pos (k / suc n)
unfolding quotient
opposite_by_neg zero n = ground (arith, zero-div (suc n))
opposite_by_neg (suc k) n = refl

-- A product divided by a factor that is not zero is the other factor.
quotient-mul : (a b : ℤ) → eq_ℤ b (pos 0) ≡ false → quotient (a *ℤ b) b ≡ a
unfolding quotient
quotient-mul (pos m) (pos zero) h = ground arith
quotient-mul (pos m) (pos (suc n)) h =
    rw (mul_pos_pos m (suc n), mul-div_cancel m {n = suc n} (omega arith)) refl
quotient-mul (pos m) (negsuc n) h =
    rw (mul_pos_neg m n, opposite_by_neg (m * suc n) n, mul-div_cancel m {n = suc n} (omega arith))
      refl
quotient-mul (negsuc m) (pos zero) h = ground arith
quotient-mul (negsuc m) (pos (suc n)) h =
    rw
      (
        mul_neg_pos m (suc n),
        opposite_by_pos (suc m * suc n) n,
        mul-div_cancel (suc m) {n = suc n} (omega arith),
      )
      refl
quotient-mul (negsuc m) (negsuc n) h =
    rw (mul_neg_neg m n, mul-div_cancel (suc m) {n = suc n} (omega arith)) refl

-- A quotient is in the range, except for the least int64 divided by -1.
quotient_in :
    (r b : ℤ) → in_int64 r ≡ true → eq_ℤ b (negsuc 0) ≡ false → in_int64 (quotient r b) ≡ true
unfolding quotient
quotient_in (pos m) (pos n) hr hb = ground (arith, div-le_self m n)
quotient_in (pos m) (negsuc n) hr hb = ground (arith, div-le_self m (suc n))
quotient_in (negsuc m) (pos n) hr hb = ground (arith, div-le_self (suc m) n)
quotient_in (negsuc m) (negsuc zero) hr hb = ground arith
quotient_in (negsuc m) (negsuc (suc n)) hr hb =
    ground (arith, div-lt_self {n = suc m} {k = suc (suc n)} (omega arith) (omega arith))

-- A quotient times its divisor is in the range, with its dividend.
quotient_mul_in : (r b : ℤ) → in_int64 r ≡ true → in_int64 (quotient r b *ℤ b) ≡ true
unfolding quotient ◌*ℤ◌
quotient_mul_in (pos m) (pos n) hr = ground (arith, div-mul-le_self m n)
quotient_mul_in (pos m) (negsuc n) hr = ground (arith, div-mul-le_self m (suc n))
quotient_mul_in (negsuc m) (pos n) hr = ground (arith, div-mul-le_self (suc m) n)
quotient_mul_in (negsuc m) (negsuc n) hr = ground (arith, div-mul-le_self (suc m) (suc n))

pub eq_of_eq : (a b : ℤ) → eq_ℤ a b ≡ true → a ≡ b
eq_of_eq a b h = eq_of_parts a b (ground arith)

eq_self : (a : ℤ) → eq_ℤ a a ≡ true
eq_self a = ground arith

zero_times : (b : ℤ) → pos 0 *ℤ b ≡ pos 0
unfolding ◌*ℤ◌
zero_times b = ground arith

times_zero : (a : ℤ) → a *ℤ pos 0 ≡ pos 0
unfolding ◌*ℤ◌
times_zero a = ground arith

-- Where one factor is zero.
zero_product : (a b : ℤ) → (eq_ℤ a (pos 0) || eq_ℤ b (pos 0)) ≡ true → some (pos 0) ≡ exact (a *ℤ b)
zero_product a b h = elim (Bool-cases (eq_ℤ a (pos 0))) [
  | inl e ↦ rw (eq_of_eq a (pos 0) e, zero_times b) refl
  | inr e ↦ rw (eq_of_eq b (pos 0) (ground arith), times_zero a) refl
]

least_times : min_int64 *ℤ negsuc 0 ≡ pos (2 ^ 63)
unfolding ◌*ℤ◌
least_times = refl

times_least : negsuc 0 *ℤ min_int64 ≡ pos (2 ^ 63)
unfolding ◌*ℤ◌
times_least = refl

abbrev is_least : ℤ → ℤ → Bool
is_least a b = eq_ℤ a min_int64 && eq_ℤ b (negsuc 0) || eq_ℤ b min_int64 && eq_ℤ a (negsuc 0)

least_product : (a b : ℤ) → is_least a b ≡ true → none ≡ exact (a *ℤ b)
least_product a b h = elim (Bool-cases (eq_ℤ a min_int64 && eq_ℤ b (negsuc 0))) [
  | inl e ↦
      let ea = eq_of_eq a min_int64 (ground arith) in
      let eb = eq_of_eq b (negsuc 0) (ground arith) in rw (ea, eb, least_times) refl
  | inr e ↦
      let eb = eq_of_eq b min_int64 (ground arith) in
      let ea = eq_of_eq a (negsuc 0) (ground arith) in rw (ea, eb, times_least) refl
]

times_minus_one :
    (a : ℤ) → in_int64 a ≡ true → eq_ℤ a min_int64 ≡ false → in_int64 (a *ℤ negsuc 0) ≡ true
unfolding ◌*ℤ◌
times_minus_one a ha h = ground arith

-- Where the quotient of what is kept gives the first factor back, the product is in the range.
checked_product :
    (a b : ℤ)
    → in_int64 a ≡ true
    → eq_ℤ b (pos 0) ≡ false
    → is_least a b ≡ false
    → eq_ℤ (wrap (quotient (wrap (a *ℤ b)) b)) a ≡ true
    → in_int64 (a *ℤ b) ≡ true
checked_product a b ha hb least h = elim (Bool-cases (eq_ℤ b (negsuc 0))) [
  | inl e ↦ let eb = eq_of_eq b (negsuc 0) e in rw eb (times_minus_one a ha (ground arith))
  | inr e ↦
      let r = wrap (a *ℤ b) in
      let hr = in-wrap (a *ℤ b) in
      let same : quotient r b ≡ a =
        sym (wrap_in (quotient r b) (quotient_in r b hr e)) ∙ eq_of_eq (wrap (quotient r b)) a h in
      rw⁻¹ same (quotient_mul_in r b hr)
]

-- Where the product is in the range, the quotient gives the first factor back.
kept_product :
    (a b : ℤ)
    → in_int64 a ≡ true
    → eq_ℤ b (pos 0) ≡ false
    → in_int64 (a *ℤ b) ≡ true
    → eq_ℤ (wrap (quotient (wrap (a *ℤ b)) b)) a ≡ true
kept_product a b ha hb fits =
    rw (wrap_in (a *ℤ b) fits, quotient-mul a b hb, wrap_in a ha) (eq_self a)

-- `mulUnscaled` is exact: for an int64 and an integer it gives the product where the product is in the
-- range of int64, and the overflow exactly where it is not.
pub mul_unscaled-exact : (a b : ℤ) → in_int64 a ≡ true → mul_unscaled a b ≡ exact (a *ℤ b)
unfolding mul_unscaled
mul_unscaled-exact a b ha =
    let Right : Option ℤ → Type 0 = λ r. r ≡ exact (a *ℤ b) in
    let r = wrap (a *ℤ b) in
    if-both Right (eq_ℤ a (pos 0) || eq_ℤ b (pos 0)) (λ e. zero_product a b e)
      (λ e.
        let hb : eq_ℤ b (pos 0) ≡ false = ground arith in
        if-both Right (is_least a b) (λ f. least_product a b f)
          (λ f.
            if-both Right (not (eq_ℤ (wrap (quotient r b)) a))
              (λ g. elim (Bool-cases (in_int64 (a *ℤ b))) [
                | inl fits ↦ let k = kept_product a b ha hb fits in ground arith
                | inr out ↦ rw out refl
              ])
              (λ g.
                let fits = checked_product a b ha hb f (ground arith) in
                rw (fits, wrap_in (a *ℤ b) fits) refl)))
