-- ===== src/OrderBook/Depth.antt =====
-- The quick check of the depth against the walk over the levels.
use fandos.Prelude.{
  ◌≡◌, refl, sym, ap, ◌∙◌, inl, inr, true, false, not, List, [], ◌∷◌, All, if-both, Bool-cases,
  arith,
}
use fandos.Decimal.{Shopspring, is_zero, is_positive}
use fandos.Decimal.Order.{
  le_refl, le_of_not_le, sub_nonneg, add_transfer, zero-add, sub_self, sub_add_cancel,
}
use fandos.OrderBook.{
  VwapResult, walked, walk, vwap_buy, vwap_sell, PriceLevel, Walk, take_level, walk_levels,
  depth_from, check_depth_sufficient,
}

module _ (S : Shopspring) where
  open S use {
    Decimal, zero, add, sub, mul, neg, le, add_comm, add_assoc, add-zero, add-neg, add_mono,
    le_antisymm,
  }

  shift : (a b : Decimal) → add (add a b) (neg a) ≡ b
  shift a b = cc (add_comm a b, add_assoc b a (neg a), add-neg a, add-zero b)

  le-add_left : (a b c : Decimal) → le (add a b) (add a c) ≡ le b c
  le-add_left a b c = elim (Bool-cases (le b c)) [
    | inl h ↦ rw h (cc (add_mono b c a h, add_comm a b, add_comm a c))
    | inr h ↦ elim (Bool-cases (le (add a b) (add a c))) [
      | inl k ↦ absurd (cc (add_mono (add a b) (add a c) (neg a) k, shift a b, shift a c))
      | inr k ↦ rw (h, k)
    ]
  ]

  nothing_left : (r q : Decimal) → le q r ≡ true → le r q ≡ true → is_zero S (sub r q) ≡ true
  nothing_left r q h k =
      let e : sub r q ≡ zero = ap (sub r) (le_antisymm q r h k) ∙ sub_self S r in
      cc (e, le_refl S zero)

  something_left : (r q : Decimal) → le r q ≡ false → is_zero S (sub r q) ≡ false
  something_left r q h = elim (Bool-cases (le (sub r q) zero)) [
    | inr k ↦ rw k
    | inl k ↦ absurd (cc (add_mono (sub r q) zero q k, sub_add_cancel S r q, zero-add S q))
  ]

  walk_done :
      (levels : List (PriceLevel Decimal)) (w : Walk Decimal)
      → is_zero S w.remaining ≡ true
      → is_zero S (walk_levels S levels w).remaining ≡ true
  unfolding walk_levels
  walk_done [] w h = h
  walk_done (level ∷ levels) w h =
      if-both (λ (x : Walk Decimal). is_zero S x.remaining ≡ true) (is_zero S w.remaining) (λ e. h)
        (λ e. absurd (cc))

  take_all :
      (level : PriceLevel Decimal) (w : Walk Decimal)
      → le w.remaining level.qty ≡ true
      → is_zero S (take_level S level w).remaining ≡ true
  unfolding take_level
  take_all level w h = elim (Bool-cases (le level.qty w.remaining)) [
    | inl k ↦ rw k (nothing_left w.remaining level.qty k h)
    | inr k ↦ rw k (nothing_left w.remaining w.remaining (le_refl S _) (le_refl S _))
  ]

  take_part :
      (level : PriceLevel Decimal) (w : Walk Decimal)
      → le w.remaining level.qty ≡ false
      → let w' = take_level S level w in
        (w'.filled ≡ add w.filled level.qty) × (w'.remaining ≡ sub w.remaining level.qty)
  unfolding take_level
  take_part level w h = let k = le_of_not_le S w.remaining level.qty h in rw k (refl, refl)

  positive_rest : (r : Decimal) → le zero r ≡ true → is_zero S r ≡ false → le r zero ≡ false
  positive_rest r h k = ground arith

  -- Whether the check and the walk agree from here on.
  abbrev Agree : List (PriceLevel Decimal) → Decimal → Walk Decimal → Type 0
  Agree levels requested w =
      depth_from S levels requested w.filled ≡ is_zero S (walk_levels S levels w).remaining

  record IsOpen (requested : Decimal) (w : Walk Decimal) : Type 0 where
    total : add w.filled w.remaining ≡ requested
    rest : le zero w.remaining ≡ true
    left : is_zero S w.remaining ≡ false

  reaches :
      (requested q : Decimal) (w : Walk Decimal)
      → IsOpen requested w
      → le requested (add w.filled q) ≡ le w.remaining q
  reaches requested q w h =
      ap (λ x. le x (add w.filled q)) (sym h.total) ∙ le-add_left w.filled w.remaining q

  part-IsOpen :
      (requested : Decimal) (level : PriceLevel Decimal) (w : Walk Decimal)
      → IsOpen requested w
      → le w.remaining level.qty ≡ false
      → IsOpen requested (take_level S level w)
  part-IsOpen requested level w h k =
      let (f, r) = take_part level w k in
      record {
        total = rw (f, r) (add_transfer S w.filled level.qty w.remaining ∙ h.total);
        rest = rw r (sub_nonneg S w.remaining level.qty (le_of_not_le S w.remaining level.qty k));
        left = rw r (something_left w.remaining level.qty k);
      }

  depth-walk :
      (levels : List (PriceLevel Decimal)) (w : Walk Decimal) (requested : Decimal)
      → IsOpen requested w
      → All (λ level. le zero level.qty ≡ true) levels
      → Agree levels requested w
  unfolding depth_from walk_levels
  depth-walk [] w requested h p = sym h.left
  depth-walk (level ∷ levels) w requested h p = elim (Bool-cases (le level.qty zero)) [
    | inl e ↦
        let q : level.qty ≡ zero = le_antisymm level.qty zero e p.0 in
        let same : add w.filled level.qty ≡ w.filled = ap (add w.filled) q ∙ add-zero w.filled in
        let short : le requested (add w.filled level.qty) ≡ false =
          reaches requested level.qty w h
          ∙ ap (le w.remaining) q
          ∙ positive_rest w.remaining h.rest h.left in
        rw (short, h.left, e)
          (ap (depth_from S levels requested) same ∙ depth-walk levels w requested h p.1)
    | inr e ↦ elim (Bool-cases (le w.remaining level.qty)) [
      | inl k ↦
          rw (reaches requested level.qty w h, k, h.left, e)
            (sym (walk_done levels (take_level S level w) (take_all level w k)))
      | inr k ↦
          rw (reaches requested level.qty w h, k, h.left, e)
            (ap (depth_from S levels requested) (sym (take_part level w k).0)
              ∙ depth-walk levels (take_level S level w) requested
                  (part-IsOpen requested level w h k) p.1)
    ]
  ]

  take_level_total :
      (level : PriceLevel Decimal) (w : Walk Decimal)
      → add (take_level S level w).filled (take_level S level w).remaining
        ≡ add w.filled w.remaining
  unfolding take_level
  take_level_total level w = add_transfer S w.filled _ w.remaining

  walk_levels_total :
      (levels : List (PriceLevel Decimal)) (w : Walk Decimal)
      → add (walk_levels S levels w).filled (walk_levels S levels w).remaining
        ≡ add w.filled w.remaining
  unfolding walk_levels
  walk_levels_total [] w = refl
  walk_levels_total (level ∷ levels) w =
      let Same : Walk Decimal → Type 0 = λ x. add x.filled x.remaining ≡ add w.filled w.remaining in
      if-both Same (is_zero S w.remaining) (λ e. refl)
        (λ e.
          if-both Same (not (is_positive S level.qty)) (λ f. walk_levels_total levels w)
            (λ f. walk_levels_total levels (take_level S level w) ∙ take_level_total level w))

  -- Behind the loop nothing is lost: an empty walk of a positive request has something left.
  walked_full :
      (requested : Decimal) (w : Walk Decimal)
      → add w.filled w.remaining ≡ requested
      → is_zero S requested ≡ false
      → (walked S w).fully_filled ≡ is_zero S w.remaining
  unfolding walked
  walked_full requested w total pos =
      if-both (λ (r : VwapResult Decimal). r.fully_filled ≡ is_zero S w.remaining)
        (is_zero S w.filled)
        (λ e.
          let f : w.filled ≡ zero = le_antisymm w.filled zero (ground arith) (ground arith) in
          sym (
            ap (is_zero S)
              (sym (zero-add S w.remaining) ∙ ap (λ x. add x w.remaining) (sym f) ∙ total)
            ∙ pos))
        (λ e. refl)

  positive_nonzero : (a : Decimal) → is_positive S a ≡ true → is_zero S a ≡ false
  positive_nonzero a h = ground arith

  -- For a positive request and levels without negative quantities, the quick check of the depth says
  -- yes exactly when the walk of a purchase, and that of a sale, is filled completely.
  pub check_depth_sufficient-vwap :
      (levels : List (PriceLevel Decimal)) (requested : Decimal)
      → is_positive S requested ≡ true
      → All (λ level. le zero level.qty ≡ true) levels
      → (check_depth_sufficient S levels requested ≡ (vwap_buy S levels requested).fully_filled)
        × (check_depth_sufficient S levels requested ≡ (vwap_sell S levels requested).fully_filled)
  unfolding check_depth_sufficient vwap_buy vwap_sell
  check_depth_sufficient-vwap [] requested pos p = rw pos (unfold depth_from in (refl, refl))
  check_depth_sufficient-vwap (level ∷ levels) requested pos p =
      let w : Walk Decimal = record { value = zero; filled = zero; remaining = requested } in
      let nonzero = positive_nonzero requested pos in
      let open_walk : IsOpen requested w = record {
        total = zero-add S requested;
        rest = le_of_not_le S requested zero (ground arith);
        left = nonzero;
      } in
      let agree : depth_from S (level ∷ levels) requested zero
          ≡ (walk S (level ∷ levels) requested).fully_filled =
        depth-walk (level ∷ levels) w requested open_walk p
        ∙ sym (
            unfold walk in
            walked_full requested (walk_levels S (level ∷ levels) w)
              (walk_levels_total (level ∷ levels) w ∙ zero-add S requested) nonzero) in
      rw pos (agree, agree)
