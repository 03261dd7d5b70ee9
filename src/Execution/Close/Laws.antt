-- ===== src/Execution/Close/Laws.antt =====
-- What a coordinated close has closed, and what it leaves.
use fandos.Prelude.{
  ℕ, zero, suc, String, ◌≡◌, ◌≢◌, refl, sym, ap, ◌∙◌, true, false, not, ◌&&◌, ◌||◌, Option, none,
  some, ◌⊎◌, inl, inr, arith, Bool-cases, if-both,
}
use fandos.Decimal.{Shopspring, is_positive, is_zero, min, max}
use fandos.Decimal.Order.{le_refl, le_of_not_le, sub_nonneg, add_transfer, zero-add}
use fandos.Execution.Orders.{Requests, ExchangeError, PlaceOrderResult}
use fandos.Execution.Close.{
  requotes_exhausted, close_ambiguous, leg_unknown, which_leg, both_legs_failed, no_long_bid,
  no_short_ask, is_error, ClientOrderIdParts, CloseConfig, CloseRequest, CloseResult, CloseError,
  close_incomplete, Reason, LegAttemptResult, Venues, Markets, Closing, leg_result, place_close_leg,
  degrade, no_result, long_leg, short_leg, count_fills, after_legs, Round, priced, round, conclude,
  after_round, close_loop, coordinated_close, attempts,
}

module _ (S : Shopspring) where
  open S use {Decimal, zero as zero_amount, add, sub, le, add-zero, le_antisymm}

  -- What a leg has closed and what it has left make the target, and the rest is not negative.
  pub record IsTally (target closed left : Decimal) : Type 0 where
    pub total : add closed left ≡ target
    pub rest : le zero_amount left ≡ true

  filled-IsTally :
      (target closed left filled : Decimal)
      → IsTally target closed left
      → le filled left ≡ true
      → IsTally target (add closed filled) (sub left filled)
  filled-IsTally target closed left filled h k = record {
    total = add_transfer S closed filled left ∙ h.total;
    rest = sub_nonneg S left filled k;
  }

  max_zero : (a : Decimal) → le zero_amount a ≡ true → max S a zero_amount ≡ a
  max_zero a h = elim (Bool-cases (le a zero_amount)) [
    | inl k ↦ rw k (le_antisymm zero_amount a h k)
    | inr k ↦ rw k
  ]

  closed_all :
      (target closed left : Decimal)
      → IsTally target closed left
      → is_positive S left ≡ false
      → closed ≡ target
  closed_all target closed left h k =
      let none_left : left ≡ zero_amount = le_antisymm left zero_amount (ground arith) h.rest in
      sym (add-zero closed) ∙ ap (add closed) (sym none_left) ∙ h.total

  leg_result-filled :
      (cap : Decimal) (r : PlaceOrderResult Decimal ⊎ ExchangeError)
      → le zero_amount cap ≡ true
      → le (leg_result S cap r).filled cap ≡ true
  unfolding leg_result
  leg_result-filled cap (inl r) h = elim (Bool-cases (le r.order.filled_qty cap)) [
    | inl k ↦ rw k k
    | inr k ↦ rw k (le_refl S cap)
  ]
  leg_result-filled cap (inr e) h = h

  positive : (a : Decimal) → is_positive S a ≡ true → le zero_amount a ≡ true
  positive a h = le_of_not_le S a zero_amount (ground arith)

  -- How a close may end. With no error each leg has closed the target; with an error, what a leg has
  -- closed and its residual make the target.
  pub data Settled (target : Decimal) (c : Closing Decimal) : Type 0 where
    closed :
        c.error ≡ none
        → c.result.long_closed_qty ≡ target
        → c.result.short_closed_qty ≡ target
        → Settled target c
    degraded :
        c.error ≢ none
        → c.result.degraded ≡ true
        → IsTally target c.result.long_closed_qty c.result.residual_long_qty
        → IsTally target c.result.short_closed_qty c.result.residual_short_qty
        → Settled target c

  degraded-Settled :
      (target : Decimal) (r : CloseResult Decimal) (l s : Decimal) (reason : Reason)
      (e : CloseError) (v : Venues Decimal)
      → IsTally target r.long_closed_qty l
      → IsTally target r.short_closed_qty s
      → Settled target (record { result = degrade S r l s reason; error = some e; venues = v })
  unfolding degrade
  degraded-Settled target r l s reason e v hl hs =
      degraded (λ h. cc) refl (rw (max_zero l hl.rest) hl) (rw (max_zero s hs.rest) hs)

  conclude-Settled :
      (target : Decimal) (r : CloseResult Decimal) (l s : Decimal) (v : Venues Decimal)
      → IsTally target r.long_closed_qty l
      → IsTally target r.short_closed_qty s
      → Settled target (conclude S r l s v)
  unfolding conclude
  conclude-Settled target r l s v hl hs =
      if-both (Settled target) (is_positive S l || is_positive S s)
        (λ e. degraded-Settled target r l s requotes_exhausted close_incomplete v hl hs)
        (λ e.
          closed refl (closed_all target r.long_closed_qty l hl (ground arith))
            (closed_all target r.short_closed_qty s hs (ground arith)))

  -- What is known behind a round: an end that is settled, or counts that still make the target.
  abbrev pub RoundSettled : Decimal → Round S → Type 0
  RoundSettled target (inl c) = Settled target c
  RoundSettled target (inr (r, l, s, v)) =
      IsTally target r.long_closed_qty l × IsTally target r.short_closed_qty s

  after_legs-Settled :
      (target : Decimal) (r : CloseResult Decimal) (long_left short_left : Decimal)
      (l s : LegAttemptResult Decimal) (v : Venues Decimal)
      → IsTally target r.long_closed_qty long_left
      → IsTally target r.short_closed_qty short_left
      → le l.filled long_left ≡ true
      → le s.filled short_left ≡ true
      → RoundSettled target (after_legs S r long_left short_left l s v)
  unfolding after_legs
  after_legs-Settled target r long_left short_left l s v hl hs fl fs =
      let tl = filled-IsTally target r.long_closed_qty long_left l.filled hl fl in
      let ts = filled-IsTally target r.short_closed_qty short_left s.filled hs fs in
      if-both (RoundSettled target) (l.ambiguous || s.ambiguous)
        (λ e.
          degraded-Settled target (count_fills S r l s) _ _
            (leg_unknown (which_leg l.ambiguous s.ambiguous)) close_ambiguous v tl ts)
        (λ e.
          if-both (RoundSettled target)
            (is_error l.error && is_error s.error && is_zero S l.filled && is_zero S s.filled)
            (λ f.
              degraded-Settled target (count_fills S r l s) _ _ both_legs_failed close_incomplete v
                tl ts)
            (λ f. (tl, ts)))

  module _ (format : ClientOrderIdParts → String) (markets : Markets Decimal)
      (req : CloseRequest Decimal) (cfg : CloseConfig Decimal) where
    long_leg-filled :
        (attempt : ℕ) (left bid : Decimal) (t : Requests Decimal)
        → le zero_amount left ≡ true
        → le (long_leg S format markets req cfg attempt left bid t).0.filled left ≡ true
    unfolding long_leg place_close_leg
    long_leg-filled attempt left bid t h = elim (Bool-cases (is_positive S left)) [
      | inl p ↦ rw p (leg_result-filled left _ h)
      | inr p ↦ rw p h
    ]

    short_leg-filled :
        (attempt : ℕ) (left ask : Decimal) (t : Requests Decimal)
        → le zero_amount left ≡ true
        → le (short_leg S format markets req cfg attempt left ask t).0.filled left ≡ true
    unfolding short_leg place_close_leg
    short_leg-filled attempt left ask t h = elim (Bool-cases (is_positive S left)) [
      | inl p ↦ rw p (leg_result-filled left _ h)
      | inr p ↦ rw p h
    ]

    priced-Settled :
        (target : Decimal) (attempt : ℕ) (r : CloseResult Decimal) (l s : Decimal)
        (bid ask : Option Decimal) (v : Venues Decimal)
        → IsTally target r.long_closed_qty l
        → IsTally target r.short_closed_qty s
        → RoundSettled target (priced S format markets req cfg attempt r l s bid ask v)
    unfolding priced
    priced-Settled target attempt r l s none ask v hl hs =
        degraded-Settled target r l s no_long_bid close_incomplete v hl hs
    priced-Settled target attempt r l s (some bid) none v hl hs =
        degraded-Settled target r l s no_short_ask close_incomplete v hl hs
    priced-Settled target attempt r l s (some bid) (some ask) v hl hs =
        let (lr, tl) = long_leg S format markets req cfg attempt l bid v.long_requests in
        let (sr, ts) = short_leg S format markets req cfg attempt s ask v.short_requests in
        after_legs-Settled target r l s lr sr (record { long_requests = tl; short_requests = ts })
          hl hs (long_leg-filled attempt l bid v.long_requests hl.rest)
          (short_leg-filled attempt s ask v.short_requests hs.rest)

    round-Settled :
        (target : Decimal) (attempt : ℕ) (r : CloseResult Decimal) (l s : Decimal)
        (v : Venues Decimal)
        → IsTally target r.long_closed_qty l
        → IsTally target r.short_closed_qty s
        → RoundSettled target (round S format markets req cfg attempt r l s v)
    unfolding round
    round-Settled target attempt r l s v hl hs = priced-Settled target attempt r l s _ _ v hl hs

    after_round-Settled :
        (target : Decimal)
        (go_on : CloseResult Decimal → Decimal → Decimal → Venues Decimal → Closing Decimal)
        → ((r : CloseResult Decimal) (l s : Decimal) (v : Venues Decimal)
            → IsTally target r.long_closed_qty l
            → IsTally target r.short_closed_qty s
            → Settled target (go_on r l s v))
        → (x : Round S) → RoundSettled target x
        → Settled target (after_round S go_on x)
    unfolding after_round
    after_round-Settled target go_on h (inl c) k = k
    after_round-Settled target go_on h (inr (r, l, s, v)) k = h r l s v k.0 k.1

    close_loop-Settled :
        (target : Decimal) (n attempt : ℕ) (r : CloseResult Decimal) (l s : Decimal)
        (v : Venues Decimal)
        → IsTally target r.long_closed_qty l
        → IsTally target r.short_closed_qty s
        → Settled target (close_loop S format markets req cfg n attempt r l s v)
    unfolding close_loop
    close_loop-Settled target zero attempt r l s v hl hs = conclude-Settled target r l s v hl hs
    close_loop-Settled target (suc n) attempt r l s v hl hs =
        if-both (Settled target) (not (is_positive S l) && not (is_positive S s))
          (λ e. conclude-Settled target r l s v hl hs)
          (λ e.
            after_round-Settled target (close_loop S format markets req cfg n (suc attempt))
              (λ r' l' s' v' hl' hs'. close_loop-Settled target n (suc attempt) r' l' s' v' hl' hs')
              (round S format markets req cfg attempt r l s v)
              (round-Settled target attempt r l s v hl hs))

    -- Whatever the exchanges and the books answer, a close of a positive common quantity is settled:
    -- without an error each leg has closed exactly this quantity, and with an error the result is
    -- degraded and, on each leg, what is counted as closed and the residual make it up, with a
    -- residual that is not negative. Nothing is closed where the common quantity is not positive.
    pub coordinated_close-Settled :
        (v : Venues Decimal)
        → let target = min S req.long_remaining req.short_remaining in
          let c = coordinated_close S format markets req cfg v in
          ((is_positive S target ≡ true) × Settled target c)
          ⊎ ((is_positive S target ≡ false)
              × (c ≡ record { result = no_result S; error = none; venues = v }))
    unfolding coordinated_close
    coordinated_close-Settled v =
        let target = min S req.long_remaining req.short_remaining in
        let Ends : Closing Decimal → Type 0 = λ c.
          ((is_positive S target ≡ true) × Settled target c)
          ⊎ ((is_positive S target ≡ false)
              × (c ≡ record { result = no_result S; error = none; venues = v })) in
        if-both Ends (not (is_positive S target)) (λ e. inr (ground arith, refl))
          (λ e.
            let p : is_positive S target ≡ true = ground arith in
            let start : IsTally target zero_amount target = record {
              total = zero-add S target;
              rest = positive target p;
            } in
            inl (
              p,
              close_loop-Settled target (attempts cfg.max_requotes) 0 (no_result S) target target v
                  start start,
            ))
