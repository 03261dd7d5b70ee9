-- ===== src/Execution/Tests.antt =====
-- A long and a short leg over exchanges that fill, that fill half, and that do not answer.
use fandos.Prelude.{
  ◌≡◌, refl, ◌⊎◌, inl, inr, ℤ, pos, String, Bool, true, false, none, some, [], ◌∷◌, ◌+ℤ◌, ◌-ℤ◌,
}
use fandos.Decimal.{min, is_positive}
use fandos.Decimal.Example.{integers}
use fandos.Execution.Orders.{
  long, market, ioc, PlaceOrderRequest, Order, filled, acknowledged, timeout, Adapter, Requests,
  acked, place,
}
use fandos.Execution.Orders.Laws.{orders_of, place_once}
use fandos.Execution.Close.{
  ClientOrderIdParts, CloseConfig, CloseRequest, Venues, Markets, no_result, attempts,
  coordinated_close, close_loop, round, place_close_leg, conclude,
}
use fandos.Execution.Close.Laws.{Settled, coordinated_close-Settled}
use fandos.Execution.Close.Bound.{SendsBoth, coordinated_close-SendsBoth}
use fandos.Execution.Repair.{TopUpResult, analyze_mismatch, apply_top_up}
use fandos.Execution.Repair.Laws.{
  Analyzed, Repaired, analyze_mismatch-Analyzed, apply_top_up-Repaired,
}

abbrev buy : PlaceOrderRequest ℤ
buy = record {
  client_order_id = "ENTRY_P1_LONG_0_0";
  symbol = "BTCUSDT";
  side = long;
  order_mode = market;
  base_qty = pos 4;
  price = pos 0;
  reduce_only = false;
  post_only = false;
  time_in_force = ioc;
}

abbrev filled_order : Order ℤ
filled_order = record {
  exchange_order_id = "e1";
  client_order_id = "ENTRY_P1_LONG_0_0";
  symbol = "BTCUSDT";
  side = long;
  order_mode = market;
  reduce_only = false;
  requested_qty = pos 4;
  filled_qty = pos 4;
  avg_fill_price = pos 100;
  fees = pos 1;
  status = filled;
  exchange_timestamp = 3;
  ack_state = acked;
}

-- The acknowledgement is lost, and the query finds the order.
abbrev lossy : Adapter ℤ
lossy = record {
  place_answer = λ (t : Requests ℤ). inr timeout;
  order_answer = λ (t : Requests ℤ). inl filled_order;
}

abbrev stands : Requests ℤ → Bool
stands t = true

place_once_example : orders_of (place integers lossy buy []).1 ≡ buy ∷ []
place_once_example = place_once integers lossy buy []

abbrev format : ClientOrderIdParts → String
format parts = parts.position_id

abbrev prompt : Adapter ℤ
prompt = record {
  place_answer = λ (t : Requests ℤ). inl (record {
    exchange_order_id = "e1";
    client_order_id = "c1";
    status = acknowledged;
    timestamp = 2;
  });
  order_answer = λ (t : Requests ℤ). inl filled_order;
}

abbrev markets : Markets ℤ
markets = record {
  long_adapter = prompt;
  short_adapter = lossy;
  best_bid = λ (s : String) (v : Venues ℤ). some (pos 100);
  best_ask = λ (s : String) (v : Venues ℤ). some (pos 101);
}

abbrev close_request : CloseRequest ℤ
close_request = record {
  position_id = "P1";
  long_symbol = "BTCUSDT";
  long_remaining = pos 10;
  short_symbol = "BTC_USDT";
  short_remaining = pos 12;
}

abbrev close_config : CloseConfig ℤ
close_config = record { close_protection_ticks = pos 2; max_requotes = pos 3; tick_size = pos 1 }

abbrev idle : Venues ℤ
idle = record { long_requests = []; short_requests = [] }

-- The orders fill 4, then 4, then the last 2.
closes_all :
    (coordinated_close integers format markets close_request close_config
      idle).result.long_closed_qty
    ≡ pos 10
unfolding coordinated_close ◌+ℤ◌ ◌-ℤ◌ place close_loop round place_close_leg conclude
closes_all = refl

coordinated_close-Settled_example :
    let target = min integers close_request.long_remaining close_request.short_remaining in
    let c = coordinated_close integers format markets close_request close_config idle in
    ((is_positive integers target ≡ true) × Settled integers target c)
    ⊎ ((is_positive integers target ≡ false)
        × (c ≡ record { result = no_result integers; error = none; venues = idle }))
coordinated_close-Settled_example =
    coordinated_close-Settled integers format markets close_request close_config idle

coordinated_close-SendsBoth_example :
    SendsBoth close_request
      (attempts close_config.max_requotes)
      idle
      (coordinated_close integers format markets close_request close_config idle).venues
coordinated_close-SendsBoth_example =
    coordinated_close-SendsBoth integers format markets close_request close_config idle

analyze_mismatch-Analyzed_example :
    Analyzed integers
      (pos 60)
      (pos 50)
      (pos 1)
      (analyze_mismatch integers (pos 60) (pos 50) (pos 1))
analyze_mismatch-Analyzed_example = analyze_mismatch-Analyzed integers (pos 60) (pos 50) (pos 1)

abbrev partial_top_up : TopUpResult ℤ
partial_top_up = record {
  success = true;
  filled_qty = pos 4;
  new_long_qty = pos 60;
  new_short_qty = pos 54;
}

apply_top_up-Repaired_example : Repaired integers partial_top_up (pos 1) (
    apply_top_up integers
      (analyze_mismatch integers (pos 60) (pos 50) (pos 1))
      partial_top_up
      (pos 1))
unfolding ◌+ℤ◌ ◌-ℤ◌
apply_top_up-Repaired_example =
    apply_top_up-Repaired integers (pos 60) (pos 50) (pos 1) partial_top_up refl
      (inl (refl, refl, refl)) refl
