-- ===== src/Execution/Repair/Laws.antt =====
-- What the repair of a mismatch leads to.
use fandos.Prelude.{
  ◌≡◌, refl, ap, ◌∙◌, sym, true, false, not, ◌||◌, ◌⊎◌, inl, inr, Bool-cases, if-both, arith,
}
use fandos.Decimal.{Shopspring, abs, min, max, greater_than, is_zero}
use fandos.Decimal.Order.{
  add_sub_cancel, add_le_of_le_sub, le_of_not_le, sub_nonneg, le_of_sub_nonneg, sub_add_cancel,
  neg_sub,
}
use fandos.Execution.Repair.{
  repair_none, top_up_short_leg, reduce_excess, RepairDecision, TopUpResult, analyze_mismatch,
  top_up_not_done, apply_top_up,
}

module _ (S : Shopspring) where
  open S use {Decimal, zero, add, sub, le, add_comm, add_assoc, le_antisymm}

  pub abs_of_le : (a b : Decimal) → le b a ≡ true → abs S (sub a b) ≡ sub a b
  abs_of_le a b h = rw (sub_nonneg S a b h)

  pub abs_of_ge : (a b : Decimal) → le a b ≡ true → abs S (sub a b) ≡ sub b a
  abs_of_ge a b h = elim (Bool-cases (le zero (sub a b))) [
    | inl k ↦ let same : a ≡ b = le_antisymm a b h (le_of_sub_nonneg S a b k) in rw (k, same)
    | inr k ↦ rw (k, neg_sub S a b)
  ]

  min_of_le : (a b : Decimal) → le a b ≡ true → min S a b ≡ a
  min_of_le a b h = elim (Bool-cases (le b a)) [ inl k ↦ rw k (le_antisymm b a k h) | inr k ↦ rw k ]

  min_of_ge : (a b : Decimal) → le b a ≡ true → min S a b ≡ b
  min_of_ge a b h = rw h

  max_of_ge : (a b : Decimal) → le b a ≡ true → max S a b ≡ a
  max_of_ge a b h = elim (Bool-cases (le a b)) [ inl k ↦ rw k (le_antisymm b a h k) | inr k ↦ rw k ]

  max_of_le : (a b : Decimal) → le a b ≡ true → max S a b ≡ b
  max_of_le a b h = rw h

  -- The smaller leg and the distance make the larger one.
  min_add_distance : (a b : Decimal) → add (min S a b) (abs S (sub a b)) ≡ max S a b
  min_add_distance a b = elim (Bool-cases (le a b)) [
    | inl h ↦
        rw (min_of_le a b h, abs_of_ge a b h, max_of_le a b h)
          (add_comm a (sub b a) ∙ sub_add_cancel S b a)
    | inr k ↦
        let h = le_of_not_le S a b k in
        rw (min_of_ge a b h, abs_of_le a b h, max_of_ge a b h)
          (add_comm b (sub a b) ∙ sub_add_cancel S a b)
  ]

  sub_sub : (a b c : Decimal) → sub (sub a b) c ≡ sub a (add b c)
  sub_sub a b c =
      let y = sub (sub a b) c in
      cc (
        sub_add_cancel S (sub a b) c,
        sub_add_cancel S a b,
        add_assoc y c b,
        add_comm c b,
        add_sub_cancel S y (add c b),
      )

  abbrev pub distance : Decimal → Decimal → Decimal
  distance a b = abs S (sub a b)

  -- What the analysis of a mismatch may say: the legs are within the tolerance, or they are not, and
  -- the shortfall is what the smaller leg lacks of the larger one.
  abbrev pub Analyzed : Decimal → Decimal → Decimal → RepairDecision Decimal → Type 0
  Analyzed long_filled short_filled tolerance d =
      (d.common_qty ≡ min S long_filled short_filled)
      × (((d.action ≡ repair_none) × (le (distance long_filled short_filled) tolerance ≡ true))
          ⊎ ((d.action ≡ top_up_short_leg)
              × (le (distance long_filled short_filled) tolerance ≡ false)
              × (d.shortfall_qty ≡ distance long_filled short_filled)
              × (add d.common_qty d.shortfall_qty ≡ max S long_filled short_filled)))

  apart : (a b c x : Decimal) → c ≡ min S a b → x ≡ distance a b → add c x ≡ max S a b
  apart a b c x common short = rw (common, short) (min_add_distance a b)

  -- The analysis of a mismatch is right: its common quantity is the smaller leg; it does nothing
  -- exactly within the tolerance; and otherwise the shortfall, added to the smaller leg, makes the
  -- larger one.
  pub analyze_mismatch-Analyzed :
      (long_filled short_filled tolerance : Decimal)
      → Analyzed long_filled short_filled tolerance
          (analyze_mismatch S long_filled short_filled tolerance)
  unfolding analyze_mismatch
  analyze_mismatch-Analyzed a b tolerance =
      if-both (Analyzed a b tolerance) (le (distance a b) tolerance) (λ e. (refl, inl (refl, e)))
        (λ e.
          if-both (Analyzed a b tolerance) (greater_than S a b)
            (λ f.
              let h = le_of_not_le S a b (ground arith) in
              let c = sym (min_of_ge a b h) in
              let x = sym (abs_of_le a b h) in (c, inr (refl, e, x, apart a b b (sub a b) c x)))
            (λ f.
              let h : le a b ≡ true = ground arith in
              let c = sym (min_of_le a b h) in
              let x = sym (abs_of_ge a b h) in (c, inr (refl, e, x, apart a b a (sub b a) c x))))

  -- The contract of the caller: the smaller leg has grown by the fill, and the other has not changed.
  abbrev pub IsTopUp : Decimal → Decimal → TopUpResult Decimal → Type 0
  IsTopUp long_filled short_filled t =
      ((le long_filled short_filled ≡ false)
        × (t.new_long_qty ≡ long_filled)
        × (t.new_short_qty ≡ add short_filled t.filled_qty))
      ⊎ ((le long_filled short_filled ≡ true)
          × (t.new_long_qty ≡ add long_filled t.filled_qty)
          × (t.new_short_qty ≡ short_filled))

  -- What the top-up leads to: legs within the tolerance, or a reduction of the larger leg by exactly
  -- what it has more than the smaller one.
  abbrev pub Repaired : TopUpResult Decimal → Decimal → RepairDecision Decimal → Type 0
  Repaired t tolerance d =
      (d.common_qty ≡ min S t.new_long_qty t.new_short_qty)
      × (((d.action ≡ repair_none)
            × (le (distance t.new_long_qty t.new_short_qty) tolerance ≡ true))
          ⊎ ((d.action ≡ reduce_excess)
              × (add d.common_qty d.excess_qty ≡ max S t.new_long_qty t.new_short_qty)))

  -- The distance that a fill leaves.
  gap :
      (a b : Decimal) (t : TopUpResult Decimal)
      → IsTopUp a b t
      → le t.filled_qty (distance a b) ≡ true
      → distance t.new_long_qty t.new_short_qty ≡ sub (distance a b) t.filled_qty
  gap a b t (inl (heavy, nl, ns)) few =
      let h = le_of_not_le S a b heavy in
      let room : le (add b t.filled_qty) a ≡ true =
        add_le_of_le_sub S b t.filled_qty a (cc (abs_of_le a b h)) in
      rw (nl, ns, abs_of_le a (add b t.filled_qty) room, abs_of_le a b h)
        (sym (sub_sub a b t.filled_qty))
  gap a b t (inr (light, nl, ns)) few =
      let room : le (add a t.filled_qty) b ≡ true =
        add_le_of_le_sub S a t.filled_qty b (cc (abs_of_ge a b light)) in
      rw (nl, ns, abs_of_ge (add a t.filled_qty) b room, abs_of_ge a b light)
        (sym (sub_sub b a t.filled_qty))

  not_done-Repaired :
      (decision : RepairDecision Decimal) (t : TopUpResult Decimal) (tolerance : Decimal)
      → le t.filled_qty decision.shortfall_qty ≡ true
      → distance t.new_long_qty t.new_short_qty ≡ sub decision.shortfall_qty t.filled_qty
      → Repaired t tolerance (top_up_not_done S decision t)
  unfolding top_up_not_done
  not_done-Repaired decision t tolerance few g =
      rw (sub_nonneg S decision.shortfall_qty t.filled_qty few)
        (refl, inr (refl, rw (sym g) (min_add_distance t.new_long_qty t.new_short_qty)))

  -- A repair ends after one top-up: for legs that are too far apart, and a top-up by at most the
  -- shortfall that the caller reports as agreed, the decision is to do nothing, with the legs within
  -- the tolerance, or to reduce the larger leg by just what brings both to the common quantity.
  pub apply_top_up-Repaired :
      (long_filled short_filled tolerance : Decimal) (t : TopUpResult Decimal)
      → le (distance long_filled short_filled) tolerance ≡ false
      → IsTopUp long_filled short_filled t
      → le t.filled_qty (distance long_filled short_filled) ≡ true
      → Repaired t tolerance
          (apply_top_up S (analyze_mismatch S long_filled short_filled tolerance) t tolerance)
  unfolding apply_top_up
  apply_top_up-Repaired a b tolerance t far agreed few =
      let d = analyze_mismatch S a b tolerance in
      let lacks : d.shortfall_qty ≡ distance a b = shortfall_of a b tolerance far in
      if-both (Repaired t tolerance) (not t.success || is_zero S t.filled_qty)
        (λ e.
          not_done-Repaired d t tolerance (rw lacks few)
            (gap a b t agreed few ∙ ap (λ x. sub x t.filled_qty) (sym lacks)))
        (λ e.
          if-both (Repaired t tolerance) (le (distance t.new_long_qty t.new_short_qty) tolerance)
            (λ f. (refl, inl (refl, f)))
            (λ f. (refl, inr (refl, min_add_distance t.new_long_qty t.new_short_qty))))
    where
      shortfall_of :
          (a b tolerance : Decimal)
          → le (distance a b) tolerance ≡ false
          → (analyze_mismatch S a b tolerance).shortfall_qty ≡ distance a b
      shortfall_of a b tolerance far = elim (analyze_mismatch-Analyzed a b tolerance).1 [
        | inl h ↦ cc
        | inr h ↦ h.2
      ]
