-- ===== src/Engine/Tests.antt =====
-- An engine over two exchanges; one fills four, the other five.
use fandos.Prelude.{
  ℕ, ◌≡◌, refl, inl, inr, ℤ, pos, String, Bool, true, false, none, some, List, [], ◌∷◌, arith,
  str_eq, if◌then◌else◌,
}
use fandos.Decimal.Example.{integers}
use fandos.Portfolio.{State, monitoring, new_position, Position, can_transition, is_terminal}
use fandos.Execution.Orders.{long, market, Order, filled, timeout, Adapter, Requests, acked}
use fandos.Execution.Close.{ClientOrderIdParts, Reason}
use fandos.Execution.Repair.{RepairReason}
use fandos.Engine.World.{
  Candidate, OpenPosition, Outside, Deps, EngineText, Config, Engine, resolve_symbols,
}
use fandos.Engine.Closing.{close_steps}
use fandos.Engine.Closing.Exit.{Exited, close_steps-Exited}
use fandos.Engine.Opening.{open_position}
use fandos.Engine.Opening.Balance.{IsEntered}
use fandos.Engine.Opening.Entered.{open_position-IsEntered}
use fandos.Engine.Cycle.{Happening, ticks, requests_close, run, tick}
use fandos.Engine.Cycle.Laws.{IsSound, run-IsSound, IsStill, tick-halted}

abbrev order_of : ℤ → Order ℤ
order_of quantity = record {
  exchange_order_id = "e1";
  client_order_id = "P1";
  symbol = "BTCUSDT";
  side = long;
  order_mode = market;
  reduce_only = false;
  requested_qty = pos 5;
  filled_qty = quantity;
  avg_fill_price = pos 100;
  fees = pos 0;
  status = filled;
  exchange_timestamp = 3;
  ack_state = acked;
}

abbrev fills : ℤ → Adapter ℤ
fills quantity = record {
  place_answer = λ (t : Requests ℤ). inr timeout;
  order_answer = λ (t : Requests ℤ). inl (order_of quantity);
}

abbrev btc : Candidate
btc = record { asset = "BTC"; long_exchange = "okx"; short_exchange = "gate"; eligible = true }

abbrev deps : Bool → Deps ℤ
deps halted = record {
  clock = λ (o : Outside ℤ). 1000;
  persister = λ (p : Position ℤ) (o : Outside ℤ). none;
  instrument = λ (ex asset : String) (o : Outside ℤ). some (record {
    exchange_symbol = "BTCUSDT";
    tick_size = pos 1;
    qty_step = pos 1;
    min_qty = pos 1;
  });
  market = λ (ex asset : String) (o : Outside ℤ).
      some (record { best_bid = pos 99; best_ask = pos 100; predicted_funding_rate = pos 1 });
  executor = λ (ex : String). some (fills (if str_eq ex "okx" then pos 4 else pos 5));
  has_adapter = λ (ex : String). true;
  has_legs = true;
  has_orders = true;
  has_notifier = true;
  is_halted = λ (o : Outside ℤ). (halted, "reason");
  scan = λ (o : Outside ℤ). btc ∷ [];
}

abbrev text : EngineText ℤ
text = record {
  format = λ (parts : ClientOrderIdParts). parts.position_id;
  position_id = λ (now seq : ℕ) (asset : String). "P1";
  close_reason = λ (r : Reason). "close";
  degraded_key = λ (id : String). id;
  repair_reason = λ (r : RepairReason). "repair";
  hedged_reason = λ (l s : ℤ). "hedged";
}

abbrev cfg : Config ℤ
cfg = record {
  max_open_positions = 1;
  orders_enabled = true;
  protection_ticks = pos 2;
  max_requotes = pos 2;
  target_qty = pos 5;
  delta_tolerance_base = pos 0;
  exit_if_funding_sign_changes = true;
}

abbrev quiet : Outside ℤ
quiet = record { events = []; requests = λ (ex : String). [] }

abbrev empty : Engine ℤ
empty = record {
  open_positions = [];
  close_req = [];
  seq = 0;
  last_notified = [];
  outside = quiet;
  crashed = false;
}

-- Nothing to open at first.
abbrev nothing_found : Deps ℤ
nothing_found = record (deps false) { scan = λ (o : Outside ℤ). [] }

-- The position that the second tick opens is visited in the third, behind the request to close it.
abbrev story : List (Happening ℤ)
story =
    ticks nothing_found []
    ∷ ticks (deps false) []
    ∷ requests_close "P1" ""
    ∷ ticks nothing_found (("P1", deps false) ∷ [])
    ∷ []

empty-IsSound : IsSound integers cfg empty
empty-IsSound = record { few = omega arith; balanced = tt }

run-IsSound_example : IsSound integers cfg (run integers text cfg story empty)
run-IsSound_example = run-IsSound integers text cfg story empty empty-IsSound

open_position-IsEntered_example :
    IsEntered integers cfg.delta_tolerance_base
      (open_position integers (deps false) text cfg "P1" btc quiet).outcome
open_position-IsEntered_example =
    open_position-IsEntered integers (deps false) text cfg "P1" btc quiet

tick-halted_example :
    IsStill integers text cfg empty
      (tick integers text cfg (deps true) (("P1", deps true) ∷ []) empty)
tick-halted_example = tick-halted integers text cfg (deps true) (("P1", deps true) ∷ []) empty refl

-- A hedge with one more on the long leg.
abbrev uneven : OpenPosition ℤ
uneven = record {
  position = record (new_position integers "P1" "BTC" "okx" "gate" 900) {
    state = monitoring;
    target_base_qty = pos 5;
    long_base_qty = pos 4;
    short_base_qty = pos 3;
  };
  long_sym = "BTCUSDT";
  short_sym = "BTCUSDT";
  long_ex = "okx";
  short_ex = "gate";
  asset = "BTC";
  tick_size = pos 1;
}

uneven-can :
    (is_terminal monitoring ≡ false) × (can_transition monitoring State.exit_requested ≡ true)
unfolding is_terminal can_transition
uneven-can = (refl, refl)

uneven-resolve : resolve_symbols integers (deps false) quiet uneven ≡ some uneven
unfolding resolve_symbols
uneven-resolve = refl

close_steps-Exited_example :
    Exited integers (pos 4) (pos 3) (close_steps integers (deps false) text cfg "why" uneven quiet)
unfolding new_position
close_steps-Exited_example =
    close_steps-Exited integers (deps false) text cfg (λ p o. refl) (fills (pos 4)) (fills (pos 5))
      "why" uneven uneven quiet uneven-resolve (inr (refl, uneven-can)) refl refl refl
