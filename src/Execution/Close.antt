-- ===== src/Execution/Close.antt =====
-- fandos1/internal/execution/close.go: the coordinated close. The two legs of an attempt are sent
-- at once to two exchanges; each has its own adapter and its own list of requests, so no order
-- between the two goroutines is observable. The book providers answer by both lists. `Format` of
-- client_order_id.go renders the parts of a client order id and is a parameter here.
pub mod Data
pub mod Laws
pub mod Bound
use fandos.Prelude.{
  ℕ, zero, suc, ◌+◌, ℤ, pos, negsuc, String, ◌≡◌, Bool, true, false, not, ◌&&◌, ◌||◌, Option, none,
  some, ◌⊎◌, inl, inr, if◌then◌else◌,
}
use fandos.Decimal.{Shopspring, is_positive, is_zero, greater_than, min, max}
use fandos.Execution.Orders.{
  Side, long, short, marketable_limit_ioc, market, ioc, PlaceOrderRequest, PlaceOrderResult,
  ExchangeError, order_not_found, Adapter, Requests, Placed, is_ambiguous_timeout, place,
}
unfoldable pub use Data.*

module _ (S : Shopspring) where
  open S use {Decimal, zero as zero_amount, add, sub, mul}

  -- How one attempt on one leg is classified.
  unfoldable pub leg_result :
      Decimal → PlaceOrderResult Decimal ⊎ ExchangeError → LegAttemptResult Decimal
  leg_result cap (inl r) = record {
    filled = if greater_than S r.order.filled_qty cap then cap else r.order.filled_qty;
    ambiguous = false;
    error = none;
  }
  leg_result cap (inr e) = record {
    filled = zero_amount;
    ambiguous = is_ambiguous_timeout e;
    error = some e;
  }

  unfoldable pub place_close_leg :
      Adapter Decimal
      → PlaceOrderRequest Decimal
      → Decimal
      → Requests Decimal
      → LegAttemptResult Decimal × Requests Decimal
  unfolding leg_result
  place_close_leg adapter req cap t = let (r, t') = place S adapter req t in (leg_result cap r, t')

  -- `degraded`.
  unfoldable pub degrade : CloseResult Decimal → Decimal → Decimal → Reason → CloseResult Decimal
  degrade r long_left short_left reason = record r {
    residual_long_qty = max S long_left zero_amount;
    residual_short_qty = max S short_left zero_amount;
    degraded = true;
    reason = reason;
  }

  abbrev pub no_result : CloseResult Decimal
  no_result = record {
    long_closed_qty = zero_amount;
    short_closed_qty = zero_amount;
    residual_long_qty = zero_amount;
    residual_short_qty = zero_amount;
    degraded = false;
    reason = none_given;
  }

  -- The zero value of a leg that an attempt leaves alone.
  abbrev pub untouched : LegAttemptResult Decimal
  untouched = record { filled = zero_amount; ambiguous = false; error = none }

  -- The fills of an attempt, added to the counts.
  abbrev pub count_fills :
      CloseResult Decimal
      → LegAttemptResult Decimal
      → LegAttemptResult Decimal
      → CloseResult Decimal
  count_fills r l s = record r {
    long_closed_qty = add r.long_closed_qty l.filled;
    short_closed_qty = add r.short_closed_qty s.filled;
  }

  -- One round of the loop: its end, or the counts and what is left for the next round.
  abbrev pub Round : Type 0
  Round = Closing Decimal ⊎ (CloseResult Decimal × Decimal × Decimal × Venues Decimal)

  -- From the answers of both legs on.
  unfoldable pub after_legs :
      CloseResult Decimal
      → Decimal
      → Decimal
      → LegAttemptResult Decimal
      → LegAttemptResult Decimal
      → Venues Decimal
      → Round
  unfolding degrade
  after_legs r long_left short_left l s v =
      let counted = count_fills r l s in
      let long_left' = sub long_left l.filled in
      let short_left' = sub short_left s.filled in
      if l.ambiguous || s.ambiguous
      then inl (record {
        result =
            degrade counted long_left' short_left'
              (leg_unknown (which_leg l.ambiguous s.ambiguous));
        error = some close_ambiguous;
        venues = v;
      })
      else if is_error l.error && is_error s.error && is_zero S l.filled && is_zero S s.filled
      then inl (record {
        result = degrade counted long_left' short_left' both_legs_failed;
        error = some close_incomplete;
        venues = v;
      })
      else inr (counted, long_left', short_left', v)

  -- The price of a leg that has something left; the zero value otherwise.
  abbrev pub quote_for : Decimal → Option Decimal → Option Decimal
  quote_for left best = if is_positive S left then best else some zero_amount

  -- What stands behind the loop.
  unfoldable pub conclude :
      CloseResult Decimal → Decimal → Decimal → Venues Decimal → Closing Decimal
  unfolding degrade
  conclude r long_left short_left v =
      if is_positive S long_left || is_positive S short_left
      then record {
        result = degrade r long_left short_left requotes_exhausted;
        error = some close_incomplete;
        venues = v;
      }
      else record { result = r; error = none; venues = v }

  -- What follows a round: its end, or the rest of the loop.
  unfoldable pub after_round :
      (CloseResult Decimal → Decimal → Decimal → Venues Decimal → Closing Decimal)
      → Round
      → Closing Decimal
  after_round go_on (inl c) = c
  after_round go_on (inr (r, long_left, short_left, v)) = go_on r long_left short_left v

  module _ (format : ClientOrderIdParts → String) where
    -- `CloseOneLegEmergency`, with its error.
    unfoldable pub close_one_leg_emergency :
        Adapter Decimal
        → String
        → Decimal
        → Side
        → String
        → Requests Decimal
        → Option ExchangeError × Requests Decimal
    close_one_leg_emergency adapter symbol qty side position_id t =
        let (r, t') =
          place S adapter
            (record {
              client_order_id = format (record {
                position_id = position_id;
                leg_side = side;
                slice_index = 0;
                nonce = 0;
                purpose = emergency;
              });
              symbol = symbol;
              side = side;
              order_mode = market;
              base_qty = qty;
              price = zero_amount;
              reduce_only = true;
              post_only = false;
              time_in_force = ioc;
            })
            t in
        if not (is_positive S qty)
        then (none, t)
        else (elim r [ inl x ↦ none | inr e ↦ some e ], t')

    abbrev pub exit_order :
        String → Side → Side → String → ℕ → Decimal → Decimal → PlaceOrderRequest Decimal
    exit_order position_id leg order_side symbol attempt qty limit = record {
      client_order_id = format (record {
        position_id = position_id;
        leg_side = leg;
        slice_index = attempt;
        nonce = 0;
        purpose = exit;
      });
      symbol = symbol;
      side = order_side;
      order_mode = marketable_limit_ioc;
      base_qty = qty;
      price = limit;
      reduce_only = true;
      post_only = false;
      time_in_force = ioc;
    }

    module _ (markets : Markets Decimal) (req : CloseRequest Decimal)
        (cfg : CloseConfig Decimal) where
      abbrev pub protection : Decimal
      protection = mul cfg.tick_size cfg.close_protection_ticks

      -- The goroutine of the long leg, if it is started.
      unfoldable pub long_leg :
          ℕ → Decimal → Decimal → Requests Decimal → LegAttemptResult Decimal × Requests Decimal
      long_leg attempt left bid t =
          if is_positive S left
          then place_close_leg markets.long_adapter
              (exit_order req.position_id long short req.long_symbol attempt left
                (sub bid protection))
              left t
          else (untouched, t)

      unfoldable pub short_leg :
          ℕ → Decimal → Decimal → Requests Decimal → LegAttemptResult Decimal × Requests Decimal
      short_leg attempt left ask t =
          if is_positive S left
          then place_close_leg markets.short_adapter
              (exit_order req.position_id short long req.short_symbol attempt left
                (add ask protection))
              left t
          else (untouched, t)

      -- From the prices on, of which one may be missing.
      unfoldable pub priced :
          ℕ
          → CloseResult Decimal
          → Decimal
          → Decimal
          → Option Decimal
          → Option Decimal
          → Venues Decimal
          → Round
      unfolding degrade long_leg short_leg after_legs
      priced attempt r long_left short_left none ask v = inl (record {
        result = degrade r long_left short_left no_long_bid;
        error = some close_incomplete;
        venues = v;
      })
      priced attempt r long_left short_left (some bid) none v = inl (record {
        result = degrade r long_left short_left no_short_ask;
        error = some close_incomplete;
        venues = v;
      })
      priced attempt r long_left short_left (some bid) (some ask) v =
          let (l, tl) = long_leg attempt long_left bid v.long_requests in
          let (s, ts) = short_leg attempt short_left ask v.short_requests in
          after_legs r long_left short_left l s (record { long_requests = tl; short_requests = ts })

      unfoldable pub round : ℕ → CloseResult Decimal → Decimal → Decimal → Venues Decimal → Round
      unfolding priced
      round attempt r long_left short_left v =
          priced attempt r long_left short_left
            (quote_for long_left (markets.best_bid req.long_symbol v))
            (quote_for short_left (markets.best_ask req.short_symbol v)) v

      -- The loop, for the number of attempts that are left.
      unfoldable pub close_loop :
          ℕ → ℕ → CloseResult Decimal → Decimal → Decimal → Venues Decimal → Closing Decimal
      unfolding after_round
      close_loop zero attempt r long_left short_left v = conclude r long_left short_left v
      close_loop (suc n) attempt r long_left short_left v =
          let ended =
            after_round (close_loop n (suc attempt)) (round attempt r long_left short_left v) in
          if not (is_positive S long_left) && not (is_positive S short_left)
          then conclude r long_left short_left v
          else ended

      -- `CoordinatedClose`.
      unfoldable pub coordinated_close : Venues Decimal → Closing Decimal
      coordinated_close v =
          let target = min S req.long_remaining req.short_remaining in
          if not (is_positive S target)
          then record { result = no_result; error = none; venues = v }
          else close_loop (attempts cfg.max_requotes) 0 no_result target target v
