-- ===== src/Rebalance/Planner/Laws.antt =====
-- What a proposal of the planner in fandos1/internal/rebalance/planner.go may ask for.
use fandos.Prelude.{
  String, ◌≢◌, ◌≡◌, refl, true, false, ◌||◌, none, some, ◌⊎◌, inl, inr, [], ◌∷◌, arith, Bool-cases,
  if-both, Dict, lookup,
}
use fandos.Decimal.{
  Shopspring, is_zero, is_negative, less_than, greater_than, less_than_or_equal, min,
}
use fandos.Decimal.Order.{le_refl, le_of_not_le, add_le_of_le_sub}
use fandos.Rebalance.Plan.{PlanProposal}
use fandos.Rebalance.Planner.{
  PlannerConfig, Constants, hundred, Account, ProposeResult, reserve_of, propose_quantized,
  capped_amount, propose_amount, propose_relative, propose_transfer, propose_sides, total_of,
  propose_total, propose,
}

module _ (S : Shopspring) (k : Constants S.Decimal) (cfg : PlannerConfig S.Decimal)
    (reserves : Dict S.Decimal) where
  open S use {
    Decimal, IsPrecise, zero, one, add, sub, mul, floor, quotient, le, le_trans, mul_comm, mul_mono,
    quotient_le, floor_le, sub-IsPrecise, quotient-IsPrecise,
  }

  -- A transfer from one account to the other: it takes the source neither below the target nor below
  -- its reserve and the destination not above the target, and it is not zero, not below the minimum,
  -- and a whole number of cents.
  pub record IsTransfer (source dest : Account Decimal) (target : Decimal)
      (p : PlanProposal Decimal) : Type 0 where
    pub from : p.from_exchange ≡ source.exchange
    pub to : p.to_exchange ≡ dest.exchange
    pub above : le (add target p.gross_amount) source.equity ≡ true
    pub below : le (add dest.equity p.gross_amount) target ≡ true
    pub kept :
        le
          (add (reserve_of S k cfg reserves (lookup source.exchange reserves)) p.gross_amount)
          source.equity
        ≡ true
    pub enough : le cfg.min_transfer_usdt p.gross_amount ≡ true
    pub some_amount : is_zero S p.gross_amount ≡ false
    pub cents : (n : Decimal) × (p.gross_amount ≡ mul (floor n) k.cent)

  -- A result without a panic, whose proposal is a transfer from the first account to the second.
  abbrev Sent : Account Decimal → Account Decimal → Decimal → ProposeResult Decimal → Type 0
  Sent source dest target none = true ≡ false
  Sent source dest target (some (inl e)) = Unit
  Sent source dest target (some (inr none)) = Unit
  Sent source dest target (some (inr (some p))) = IsTransfer source dest target p

  -- What a proposal over two accounts may be, in terms of the half of their sum.
  abbrev pub Proposed : Account Decimal → Account Decimal → ProposeResult Decimal → Type 0
  Proposed a b none = true ≡ false
  Proposed a b (some (inl e)) = Unit
  Proposed a b (some (inr none)) = Unit
  Proposed a b (some (inr (some p))) =
      let target = quotient (add (add zero a.equity) b.equity) (add one one) in
      IsTransfer a b target p ⊎ IsTransfer b a target p

  min_le : (a b : Decimal) → (le (min S a b) a ≡ true) × (le (min S a b) b ≡ true)
  min_le a b = elim (Bool-cases (le b a)) [
    | inl h ↦ rw h (h, le_refl S b)
    | inr h ↦ rw h (le_refl S a, le_of_not_le S b a h)
  ]

  -- An amount that is allowed.
  abbrev Allowed : Account Decimal → Account Decimal → Decimal → Decimal → Decimal → Type 0
  Allowed source dest target available amount =
      (le amount (sub source.equity target) ≡ true)
      × (le amount (sub target dest.equity) ≡ true)
      × (le amount available ≡ true)

  capped_amount-Allowed :
      (source dest : Account Decimal) (target available : Decimal)
      → Allowed source dest target available
          (capped_amount S k cfg reserves source dest target available)
  unfolding capped_amount
  capped_amount-Allowed source dest target available =
      let low = min S (sub source.equity target) (sub target dest.equity) in
      let both = min_le (sub source.equity target) (sub target dest.equity) in
      if-both (Allowed source dest target available) (greater_than S low available)
        (λ e.
          let h = le_of_not_le S low available (ground arith) in
          (
            le_trans available low (sub source.equity target) h both.0,
            le_trans available low (sub target dest.equity) h both.1,
            le_refl S available,
          ))
        (λ e. (both.0, both.1, ground arith))

  -- The step of a cent is positive, two is not zero, and a precise value is a precise number of cents,
  -- which is its hundredfold.
  pub record IsCent : Type 0 where
    pub steps : is_zero S k.cent ≡ false
    pub upward : le zero k.cent ≡ true
    pub halves : is_zero S (add one one) ≡ false
    pub in_cents : (a : Decimal) → IsPrecise a → (b : Decimal) × IsPrecise b × (mul k.cent b ≡ a)

  -- The equity of an account and its reserve need no rounding.
  pub record IsPreciseAccount (a : Account Decimal) : Type 0 where
    pub equity : IsPrecise a.equity
    pub reserve : IsPrecise (reserve_of S k cfg reserves (lookup a.exchange reserves))

  nonzero : (a : Decimal) → is_zero S a ≡ false → a ≢ zero
  nonzero a h e = let bad : is_zero S zero ≡ false = cc in ground (arith, le_refl S zero)

  capped_amount-IsPrecise :
      (source dest : Account Decimal) (target available : Decimal)
      → IsPrecise source.equity
      → IsPrecise dest.equity
      → IsPrecise target
      → IsPrecise available
      → IsPrecise (capped_amount S k cfg reserves source dest target available)
  unfolding capped_amount
  capped_amount-IsPrecise source dest target available hs hd ht ha =
      let excess = sub source.equity target in
      let missing = sub target dest.equity in
      if-both IsPrecise (greater_than S (min S excess missing) available) (λ e. ha)
        (λ e.
          if-both IsPrecise (less_than S excess missing)
            (λ f. sub-IsPrecise source.equity target hs ht)
            (λ f. sub-IsPrecise target dest.equity ht hd))

  module _ (is_cent : IsCent) where
    -- The rounding of a precise amount to cents does not go up.
    down : (a : Decimal) → IsPrecise a → le (mul (floor (quotient a k.cent)) k.cent) a ≡ true
    down a h =
        let (b, precise, same) = is_cent.in_cents a h in
        let q = quotient a k.cent in
        let few : le q b ≡ true =
          quotient_le a b k.cent precise is_cent.upward (nonzero k.cent is_cent.steps)
            (cc (same, le_refl S a)) in
        let fewer = le_trans (floor q) q b (floor_le q) few in
        let cheaper = mul_mono k.cent (floor q) b is_cent.upward fewer in
        cc (cheaper, mul_comm k.cent (floor q), same)

    propose_amount-Sent :
        (source dest : Account Decimal) (target : Decimal)
        → IsPreciseAccount source
        → IsPreciseAccount dest
        → IsPrecise target
        → Sent source dest target (propose_amount S k cfg reserves source dest target)
    unfolding propose_amount propose_quantized
    propose_amount-Sent source dest target ps pd pt =
        let Fine = Sent source dest target in
        let reserve = reserve_of S k cfg reserves (lookup source.exchange reserves) in
        let available = sub source.equity reserve in
        let amount = capped_amount S k cfg reserves source dest target available in
        let allowed = capped_amount-Allowed source dest target available in
        let gross = mul (floor (quotient amount k.cent)) k.cent in
        let less = down amount (
          capped_amount-IsPrecise source dest target available ps.equity pd.equity pt
            (sub-IsPrecise source.equity reserve ps.equity ps.reserve)) in
        if-both Fine (less_than_or_equal S available zero) (λ e. tt)
          (λ e.
            if-both Fine (less_than S amount cfg.min_transfer_usdt || is_zero S amount) (λ f. tt)
              (λ f. rw is_cent.steps (
                if-both Fine (is_zero S gross) (λ g. tt)
                  (λ g.
                    if-both Fine (less_than S gross cfg.min_transfer_usdt) (λ x. tt)
                      (λ x. record {
                        from = refl;
                        to = refl;
                        above =
                            add_le_of_le_sub S target gross source.equity
                              (le_trans gross amount (sub source.equity target) less allowed.0);
                        below =
                            add_le_of_le_sub S dest.equity gross target
                              (le_trans gross amount (sub target dest.equity) less allowed.1);
                        kept =
                            add_le_of_le_sub S reserve gross source.equity
                              (le_trans gross amount available less allowed.2);
                        enough = ground arith;
                        some_amount = g;
                        cents = (quotient amount k.cent, refl);
                      })))))

    propose_transfer-Sent :
        (source dest : Account Decimal) (target : Decimal)
        → IsPreciseAccount source
        → IsPreciseAccount dest
        → IsPrecise target
        → Sent source dest target (propose_transfer S k cfg reserves source dest target)
    unfolding propose_transfer propose_relative
    propose_transfer-Sent source dest target ps pd pt =
        let Fine = Sent source dest target in
        let relative = quotient (sub source.equity target) target in
        if-both Fine (is_zero S target) (λ e. propose_amount-Sent source dest target ps pd pt)
          (λ e. rw e (
            if-both Fine (less_than S (mul relative (hundred S)) cfg.tolerance_pct) (λ f. tt)
              (λ f. propose_amount-Sent source dest target ps pd pt)))

    from_first :
        (a b : Account Decimal) (r : ProposeResult Decimal)
        → Sent a b (quotient (add (add zero a.equity) b.equity) (add one one)) r
        → Proposed a b r
    from_first a b (some (inl e)) h = tt
    from_first a b (some (inr none)) h = tt
    from_first a b (some (inr (some p))) h = inl h
    from_first a b none h = h

    from_second :
        (a b : Account Decimal) (r : ProposeResult Decimal)
        → Sent b a (quotient (add (add zero a.equity) b.equity) (add one one)) r
        → Proposed a b r
    from_second a b (some (inl e)) h = tt
    from_second a b (some (inr none)) h = tt
    from_second a b (some (inr (some p))) h = inr h
    from_second a b none h = h

    -- A proposal over two accounts never panics, and where it asks for a transfer, this goes from one
    -- of the two to the other, takes the source neither below half of the sum nor below its reserve,
    -- brings the destination not above that half, and its amount is not zero, not below the minimum,
    -- and it is a whole number of cents. This holds where the two equities and reserves have at most
    -- `DivisionPrecision` digits behind the point, two is not zero, and the step of a cent is positive
    -- and divides every such value into a value that needs no rounding.
    pub propose-Proposed :
        (a b : Account Decimal)
        → IsPreciseAccount a
        → IsPreciseAccount b
        → Proposed a b (propose S k cfg reserves (a ∷ b ∷ []))
    unfolding propose propose_total propose_sides total_of
    propose-Proposed a b pa pb =
        let Fine = Proposed a b in
        let total = add (add zero a.equity) b.equity in
        let target = quotient total (add one one) in
        let pt = quotient-IsPrecise total (add one one) (nonzero (add one one) is_cent.halves) in
        let Reached : String ⊎ Decimal → Type 0 =
          λ t. Fine (propose_total S k cfg reserves a b t) in
        if-both Reached (is_negative S a.equity) (λ e. tt)
          (λ e.
            if-both Reached (is_negative S b.equity) (λ f. tt)
              (λ f.
                if-both Fine (is_zero S total) (λ g. tt)
                  (λ g. rw is_cent.halves (
                    if-both Fine (greater_than S a.equity b.equity)
                      (λ x.
                        from_first a b (propose_transfer S k cfg reserves a b target)
                          (propose_transfer-Sent a b target pa pb pt))
                      (λ x.
                        from_second a b (propose_transfer S k cfg reserves b a target)
                          (propose_transfer-Sent b a target pb pa pt))))))
