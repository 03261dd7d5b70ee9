-- ===== src/Execution/Close/Bound.antt =====
-- The orders that a coordinated close sends.
use fandos.Prelude.{
  ℕ, zero, suc, ◌+◌, ◌≤◌, String, ◌≡◌, refl, ap, ◌∙◌, sym, true, not, ◌&&◌, ◌||◌, Option, none,
  some, inl, inr, List, [], ◌∷◌, ◌++◌, append_assoc, arith, length, length-append, All, All-append,
  if-both,
}
use fandos.Decimal.{Shopspring, is_positive, is_zero, min}
use fandos.Execution.Orders.{
  Side, long, short, marketable_limit_ioc, ioc, PlaceOrderRequest, Requests,
}
use fandos.Execution.Orders.Laws.{orders_of, place_once}
use fandos.Execution.Close.{
  is_error, ClientOrderIdParts, CloseConfig, CloseRequest, CloseResult, LegAttemptResult, Venues,
  Markets, Closing, place_close_leg, long_leg, short_leg, after_legs, Round, priced, round,
  conclude, after_round, close_loop, coordinated_close, attempts,
}

-- From `t` to `t'` at most `n` orders have been sent, each with the property.
pub record Sends {D : Type 0} (P : PlaceOrderRequest D → Type 0) (n : ℕ) (t t' : Requests D)
    : Type 0 where
  pub sent : List (PlaceOrderRequest D)
  pub orders : orders_of t' ≡ sent ++ orders_of t
  pub few : length sent ≤ n
  pub each : All P sent

-- An order that only reduces: an immediate one on the given side of the given symbol.
abbrev pub Reduces : {D : Type 0} → String → Side → PlaceOrderRequest D → Type 0
Reduces symbol side req =
    (req.reduce_only ≡ true)
    × (req.order_mode ≡ marketable_limit_ioc)
    × (req.time_in_force ≡ ioc)
    × (req.side ≡ side)
    × (req.symbol ≡ symbol)

module _ {D : Type 0} (P : PlaceOrderRequest D → Type 0) where
  Sends-none : (n : ℕ) (t : Requests D) → Sends P n t t
  Sends-none n t = record { sent = []; orders = refl; few = omega arith; each = tt }

  Sends-append :
      (m n o : ℕ) (t u v : Requests D) → m + n ≤ o → Sends P m t u → Sends P n u v → Sends P o t v
  Sends-append m n o t u v e h k = record {
    sent = k.sent ++ h.sent;
    orders =
        k.orders ∙ ap (λ l. k.sent ++ l) h.orders ∙ sym (append_assoc k.sent h.sent (orders_of t));
    few = omega (arith, length-append k.sent h.sent, h.few, k.few);
    each = All-append P k.sent h.sent k.each h.each;
  }

-- At most `n` orders on each leg.
abbrev pub SendsBoth : {D : Type 0} → CloseRequest D → ℕ → Venues D → Venues D → Type 0
SendsBoth req n v v' =
    Sends (Reduces req.long_symbol short) n v.long_requests v'.long_requests
    × Sends (Reduces req.short_symbol long) n v.short_requests v'.short_requests

module _ (S : Shopspring) (format : ClientOrderIdParts → String) (markets : Markets S.Decimal)
    (req : CloseRequest S.Decimal) (cfg : CloseConfig S.Decimal) where
  open S use {Decimal}

  venues_of : Round S → Venues Decimal
  venues_of (inl c) = c.venues
  venues_of (inr (r, l, s, v)) = v

  SendsBoth-none : (n : ℕ) (v : Venues Decimal) → SendsBoth req n v v
  SendsBoth-none n v = (Sends-none _ n _, Sends-none _ n _)

  SendsBoth-append :
      (n : ℕ) (u v w : Venues Decimal)
      → SendsBoth req 1 u v
      → SendsBoth req n v w
      → SendsBoth req (suc n) u w
  SendsBoth-append n u v w h k = (
    Sends-append _ 1 n (suc n) _ _ _ (omega arith) h.0 k.0,
    Sends-append _ 1 n (suc n) _ _ _ (omega arith) h.1 k.1,
  )

  long_leg-Sends :
      (attempt : ℕ) (left bid : Decimal) (t : Requests Decimal)
      → Sends
          (Reduces req.long_symbol short)
          1
          t
          (long_leg S format markets req cfg attempt left bid t).1
  unfolding long_leg place_close_leg
  long_leg-Sends attempt left bid t =
      if-both
        (λ (x : LegAttemptResult Decimal × Requests Decimal).
          Sends (Reduces req.long_symbol short) 1 t x.1)
        (is_positive S left)
        (λ e. record {
          sent = _ ∷ [];
          orders = place_once S markets.long_adapter _ t;
          few = omega arith;
          each = ((refl, refl, refl, refl, refl), tt);
        })
        (λ e. Sends-none _ 1 t)

  short_leg-Sends :
      (attempt : ℕ) (left ask : Decimal) (t : Requests Decimal)
      → Sends
          (Reduces req.short_symbol long)
          1
          t
          (short_leg S format markets req cfg attempt left ask t).1
  unfolding short_leg place_close_leg
  short_leg-Sends attempt left ask t =
      if-both
        (λ (x : LegAttemptResult Decimal × Requests Decimal).
          Sends (Reduces req.short_symbol long) 1 t x.1)
        (is_positive S left)
        (λ e. record {
          sent = _ ∷ [];
          orders = place_once S markets.short_adapter _ t;
          few = omega arith;
          each = ((refl, refl, refl, refl, refl), tt);
        })
        (λ e. Sends-none _ 1 t)

  after_legs_venues :
      (r : CloseResult Decimal) (long_left short_left : Decimal) (l s : LegAttemptResult Decimal)
      (v : Venues Decimal)
      → venues_of (after_legs S r long_left short_left l s v) ≡ v
  unfolding after_legs venues_of
  after_legs_venues r long_left short_left l s v =
      if-both (λ (x : Round S). venues_of x ≡ v) (l.ambiguous || s.ambiguous) (λ e. refl)
        (λ e.
          if-both (λ (x : Round S). venues_of x ≡ v)
            (is_error l.error && is_error s.error && is_zero S l.filled && is_zero S s.filled)
            (λ f. refl) (λ f. refl))

  priced-SendsBoth :
      (attempt : ℕ) (r : CloseResult Decimal) (l s : Decimal) (bid ask : Option Decimal)
      (v : Venues Decimal)
      → SendsBoth req 1 v (venues_of (priced S format markets req cfg attempt r l s bid ask v))
  unfolding priced venues_of
  priced-SendsBoth attempt r l s none ask v = SendsBoth-none 1 v
  priced-SendsBoth attempt r l s (some bid) none v = SendsBoth-none 1 v
  priced-SendsBoth attempt r l s (some bid) (some ask) v =
      rw
        (after_legs_venues r l s (long_leg S format markets req cfg attempt l bid v.long_requests).0
          (short_leg S format markets req cfg attempt s ask v.short_requests).0)
        (
          long_leg-Sends attempt l bid v.long_requests,
          short_leg-Sends attempt s ask v.short_requests,
        )

  after_round-SendsBoth :
      (n : ℕ) (v : Venues Decimal)
      (go_on : CloseResult Decimal → Decimal → Decimal → Venues Decimal → Closing Decimal)
      → ((r : CloseResult Decimal) (l s : Decimal) (v' : Venues Decimal)
          → SendsBoth req n v' (go_on r l s v').venues)
      → (x : Round S) → SendsBoth req 1 v (venues_of x)
      → SendsBoth req (suc n) v (after_round S go_on x).venues
  unfolding after_round venues_of
  after_round-SendsBoth n v go_on h (inl c) k =
      SendsBoth-append n v c.venues c.venues k (SendsBoth-none n c.venues)
  after_round-SendsBoth n v go_on h (inr (r, l, s, v')) k = SendsBoth-append n v v' _ k (h r l s v')

  conclude_venues :
      (r : CloseResult Decimal) (l s : Decimal) (v : Venues Decimal)
      → (conclude S r l s v).venues ≡ v
  unfolding conclude
  conclude_venues r l s v =
      if-both (λ (c : Closing Decimal). c.venues ≡ v) (is_positive S l || is_positive S s)
        (λ e. refl) (λ e. refl)

  close_loop-SendsBoth :
      (n attempt : ℕ) (r : CloseResult Decimal) (l s : Decimal) (v : Venues Decimal)
      → SendsBoth req n v (close_loop S format markets req cfg n attempt r l s v).venues
  unfolding close_loop round
  close_loop-SendsBoth zero attempt r l s v = rw (conclude_venues r l s v) (SendsBoth-none 0 v)
  close_loop-SendsBoth (suc n) attempt r l s v =
      if-both (λ (c : Closing Decimal). SendsBoth req (suc n) v c.venues)
        (not (is_positive S l) && not (is_positive S s))
        (λ e. rw (conclude_venues r l s v) (SendsBoth-none (suc n) v))
        (λ e.
          after_round-SendsBoth n v _
            (λ r' l' s' v'. close_loop-SendsBoth n (suc attempt) r' l' s' v') _
            (priced-SendsBoth attempt r l s _ _ v))

  -- A coordinated close sends at most one order for each attempt on each leg, whatever is answered:
  -- reduce-only immediate ones, which sell the symbol of the long leg and buy that of the short leg.
  pub coordinated_close-SendsBoth :
      (v : Venues Decimal)
      → SendsBoth req
          (attempts cfg.max_requotes)
          v
          (coordinated_close S format markets req cfg v).venues
  unfolding coordinated_close
  coordinated_close-SendsBoth v =
      if-both (λ (c : Closing Decimal). SendsBoth req (attempts cfg.max_requotes) v c.venues)
        (not (is_positive S (min S req.long_remaining req.short_remaining)))
        (λ e. SendsBoth-none (attempts cfg.max_requotes) v)
        (λ e. close_loop-SendsBoth (attempts cfg.max_requotes) 0 _ _ _ v)
