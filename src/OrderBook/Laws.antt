-- ===== src/OrderBook/Laws.antt =====
-- What a walk over the levels of a book fills, and at which price.
use fandos.Prelude.{
  ◌≡◌, refl, ap, ◌∙◌, ◌≢◌, ◌⊎◌, inl, inr, true, false, not, ◌||◌, List, [], ◌∷◌, All, if-both,
  Bool-cases, arith,
}
use fandos.Decimal.{Shopspring, is_zero, is_positive}
use fandos.Decimal.Order.{
  mul-zero, le_refl, le_of_not_le, sub_nonneg, add_transfer, zero-add, add_mono₂, le_add,
}
use fandos.OrderBook.{
  PriceLevel, VwapResult, Walk, empty_result, is_empty, take_level, walk_levels, walked, walk,
  vwap_buy, vwap_sell,
}

module _ (S : Shopspring) where
  open S use {
    Decimal, zero, add, sub, mul, neg, quotient, le, IsPrecise, add_comm, add_assoc, add-zero,
    add-neg, le_antisymm, le_trans, mul_comm, mul-add, mul_mono, quotient_le, le_quotient,
  }

  -- The price of a level lies between the bounds.
  abbrev pub Within : Decimal → Decimal → PriceLevel Decimal → Type 0
  Within low high level = (le low level.price ≡ true) × (le level.price high ≡ true)

  -- What a walk has filled and what remains make the request, and its value lies between the filled
  -- quantity at the lowest and at the highest price.
  record IsWalk (low high requested : Decimal) (w : Walk Decimal) : Type 0 where
    total : add w.filled w.remaining ≡ requested
    filled_nonneg : le zero w.filled ≡ true
    rest_nonneg : le zero w.remaining ≡ true
    above : le (mul w.filled low) w.value ≡ true
    below : le w.value (mul w.filled high) ≡ true

  taken :
      (low high requested price take : Decimal) (w : Walk Decimal)
      → IsWalk low high requested w
      → le low price ≡ true
      → le price high ≡ true
      → le zero take ≡ true
      → le take w.remaining ≡ true
      → IsWalk low high requested (record {
        value = add w.value (mul price take);
        filled = add w.filled take;
        remaining = sub w.remaining take;
      })
  taken low high requested price take w h lp ph tp tr = record {
    total = add_transfer S w.filled take w.remaining ∙ h.total;
    filled_nonneg =
        le_trans zero w.filled (add w.filled take) h.filled_nonneg (le_add S w.filled take tp);
    rest_nonneg = sub_nonneg S w.remaining take tr;
    above = cc (
      distribute low,
      mul_comm take price,
      add_mono₂ S (mul w.filled low) w.value (mul take low) (mul take price) h.above
          (mul_mono take low price tp lp),
    );
    below = cc (
      distribute high,
      mul_comm take price,
      add_mono₂ S w.value (mul w.filled high) (mul take price) (mul take high) h.below
          (mul_mono take price high tp ph),
    );
  }
    where
      distribute : (b : Decimal) → mul (add w.filled take) b ≡ add (mul w.filled b) (mul take b)
      distribute b = cc (
        mul_comm (add w.filled take) b,
        mul-add b w.filled take,
        mul_comm b w.filled,
        mul_comm b take,
      )

  take_level-IsWalk :
      (low high requested : Decimal) (level : PriceLevel Decimal) (w : Walk Decimal)
      → IsWalk low high requested w
      → Within low high level
      → le zero level.qty ≡ true
      → IsWalk low high requested (take_level S level w)
  unfolding take_level
  take_level-IsWalk low high requested level w h p q =
      elim (Bool-cases (le level.qty w.remaining)) [
        | inl k ↦ rw k (taken low high requested level.price level.qty w h p.0 p.1 q k)
        | inr k ↦ rw k (
            taken low high requested level.price w.remaining w h p.0 p.1 h.rest_nonneg
              (le_refl S w.remaining))
      ]

  walk_levels-IsWalk :
      (low high requested : Decimal) (levels : List (PriceLevel Decimal)) (w : Walk Decimal)
      → All (Within low high) levels
      → IsWalk low high requested w
      → IsWalk low high requested (walk_levels S levels w)
  unfolding walk_levels
  walk_levels-IsWalk low high requested [] w p h = h
  walk_levels-IsWalk low high requested (level ∷ levels) w p h =
      if-both (IsWalk low high requested) (is_zero S w.remaining) (λ e. h)
        (λ e.
          if-both (IsWalk low high requested) (not (is_positive S level.qty))
            (λ f. walk_levels-IsWalk low high requested levels w p.1 h)
            (λ f. walk_levels-IsWalk low high requested levels (take_level S level w) p.1 (
              take_level-IsWalk low high requested level w h p.0
                (le_of_not_le S level.qty zero (ground arith)))))

  -- What a result promises: a quantity from zero to the request, the whole request where it says so,
  -- and a price between the bounds unless nothing was filled.
  pub record IsFill (low high requested : Decimal) (r : VwapResult Decimal) : Type 0 where
    pub nonneg : le zero r.filled_qty ≡ true
    pub bounded : le r.filled_qty requested ≡ true
    pub full : (r.fully_filled ≡ false) ⊎ (r.filled_qty ≡ requested)
    pub priced : (r.filled_qty ≡ zero) ⊎ ((le low r.vwap ≡ true) × (le r.vwap high ≡ true))

  is_zero-eq : (a : Decimal) → is_zero S a ≡ true → a ≡ zero
  is_zero-eq a h = le_antisymm a zero (ground arith) (ground arith)

  nonzero : (a : Decimal) → is_zero S a ≡ false → a ≢ zero
  nonzero a h e = ground (arith, le_refl S zero, ap (is_zero S) e)

  empty-IsFill :
      (low high requested : Decimal)
      → le zero requested ≡ true
      → IsFill low high requested (empty_result S)
  empty-IsFill low high requested h = record {
    nonneg = le_refl S zero;
    bounded = h;
    full = inl refl;
    priced = inl refl;
  }

  walked-IsFill :
      (low high requested : Decimal) (w : Walk Decimal)
      → IsPrecise low
      → IsPrecise high
      → le zero requested ≡ true
      → IsWalk low high requested w
      → IsFill low high requested (walked S w)
  unfolding walked
  walked-IsFill low high requested w pl ph pos h =
      if-both (IsFill low high requested) (is_zero S w.filled)
        (λ e. empty-IsFill low high requested pos)
        (λ e. record {
          nonneg = h.filled_nonneg;
          bounded = cc (h.total, le_add S w.filled w.remaining h.rest_nonneg);
          full = whole (Bool-cases (is_zero S w.remaining));
          priced = inr (
            le_quotient w.value low w.filled pl h.filled_nonneg (nonzero w.filled e) h.above,
            quotient_le w.value high w.filled ph h.filled_nonneg (nonzero w.filled e) h.below,
          );
        })
    where
      whole :
          (is_zero S w.remaining ≡ true) ⊎ (is_zero S w.remaining ≡ false)
          → (is_zero S w.remaining ≡ false) ⊎ (w.filled ≡ requested)
      whole (inl e) = inr (cc (h.total, is_zero-eq w.remaining e, add-zero w.filled))
      whole (inr e) = inl e

  start-IsWalk :
      (low high requested : Decimal)
      → le zero requested ≡ true
      → IsWalk low high requested (record { value = zero; filled = zero; remaining = requested })
  start-IsWalk low high requested h = record {
    total = zero-add S requested;
    filled_nonneg = le_refl S zero;
    rest_nonneg = h;
    above = cc (mul_comm zero low, mul-zero S low, le_refl S zero);
    below = cc (mul_comm zero high, mul-zero S high, le_refl S zero);
  }

  walk-IsFill :
      (low high requested : Decimal) (levels : List (PriceLevel Decimal))
      → IsPrecise low
      → IsPrecise high
      → le zero requested ≡ true
      → All (Within low high) levels
      → IsFill low high requested (walk S levels requested)
  unfolding walk
  walk-IsFill low high requested levels pl ph pos p =
      walked-IsFill low high requested _ pl ph pos
        (walk_levels-IsWalk low high requested levels _ p (start-IsWalk low high requested pos))

  -- A purchase or a sale over levels with prices between two bounds fills a quantity from zero to the
  -- request, the whole request where it says so, and at an average price between the bounds unless
  -- it fills nothing. The request is not negative; the bounds need no more digits than a division
  -- keeps.
  pub vwap-IsFill :
      (low high requested : Decimal) (levels : List (PriceLevel Decimal))
      → IsPrecise low
      → IsPrecise high
      → le zero requested ≡ true
      → All (Within low high) levels
      → IsFill low high requested (vwap_buy S levels requested)
        × IsFill low high requested (vwap_sell S levels requested)
  unfolding vwap_buy vwap_sell
  vwap-IsFill low high requested levels pl ph pos p =
      let none_filled = empty-IsFill low high requested pos in
      let some_filled = walk-IsFill low high requested levels pl ph pos p in
      let test = not (is_positive S requested) || is_empty levels in
      (
        if-both (IsFill low high requested) test (λ e. none_filled) (λ e. some_filled),
        if-both (IsFill low high requested) test (λ e. none_filled) (λ e. some_filled),
      )
