-- ===== src/Engine/Closing.antt =====
-- `closePosition` of fandos1/internal/engine/engine.go. The steps on the position and the outside
-- come first, with how they end; what the engine keeps of the end comes behind.
pub mod Exit
pub mod Balance
use fandos.Prelude.{
  ℕ, ℤ, String, ◌≡◌, Bool, true, false, not, ◌&&◌, inr, Option, none, some, List, [], ◌∷◌,
  if◌then◌else◌, str_eq, Dict, remove, adjust,
}
use fandos.Decimal.{Shopspring, is_zero, is_positive, min}
use fandos.Portfolio.{State, exit_requested, exiting, reconciling, closed, degraded, set_quantities}
use fandos.Execution.Orders.{Adapter, Requests, definite}
use fandos.Execution.Close.{
  CloseRequest, CloseConfig, CloseError, close_incomplete, close_ambiguous, Venues, Markets,
  Closing, coordinated_close,
}
use fandos.Engine.World.{
  MarketSnapshot, OpenPosition, info, failure, critical, position_closed, close_unknown,
  close_unfinished, Outside, Deps, EngineText, Config, Engine, is_some, with_requests,
  notify_operator, shift, persist_legs, resolve_symbols,
}

-- How `closePosition` ends.
pub data Ending : Type 0 where
  -- The symbols are not known yet, or a transition failed before any order was sent.
  not_started : Ending
  -- No executor is configured for a leg that has something to close: the call panics.
  panicked : Ending
  complete : Ending
  -- The close was complete, and the transition to CLOSED failed.
  not_recorded : Ending
  unknown_leg : Ending
  unfinished : Ending

pub record Ended (D : Type 0) : Type 0 where
  pub op : OpenPosition D
  pub outside : Outside D
  pub ending : Ending

abbrev pub is_exit_requested : State → Bool
is_exit_requested exit_requested = true
is_exit_requested _ = false

module _ (S : Shopspring) (deps : Deps S.Decimal) (text : EngineText S.Decimal)
    (cfg : Config S.Decimal) where
  open S use {Decimal, sub}

  -- `cacheBook`: the best price of the cache, unless it is missing or zero.
  abbrev pub price_of :
      (MarketSnapshot Decimal → Decimal) → Option (MarketSnapshot Decimal) → Option Decimal
  price_of price none = none
  price_of price (some m) = if is_zero S (price m) then none else some (price m)

  abbrev pub outside_of : OpenPosition Decimal → Outside Decimal → Venues Decimal → Outside Decimal
  outside_of op o v =
      with_requests op.short_ex v.short_requests (with_requests op.long_ex v.long_requests o)

  abbrev pub markets_of :
      OpenPosition Decimal → Outside Decimal → Adapter Decimal → Adapter Decimal → Markets Decimal
  markets_of op o long_adapter short_adapter = record {
    long_adapter = long_adapter;
    short_adapter = short_adapter;
    best_bid = λ symbol v.
        price_of (λ m. m.best_bid) (deps.market op.long_ex op.asset (outside_of op o v));
    best_ask = λ symbol v.
        price_of (λ m. m.best_ask) (deps.market op.short_ex op.asset (outside_of op o v));
  }

  abbrev pub request_of : OpenPosition Decimal → CloseRequest Decimal
  request_of op = record {
    position_id = op.position.id;
    long_symbol = op.long_sym;
    long_remaining = op.position.long_base_qty;
    short_symbol = op.short_sym;
    short_remaining = op.position.short_base_qty;
  }

  abbrev pub config_of : OpenPosition Decimal → CloseConfig Decimal
  config_of op = record {
    close_protection_ticks = cfg.protection_ticks;
    max_requotes = cfg.max_requotes;
    tick_size = op.tick_size;
  }

  abbrev pub venues_of : OpenPosition Decimal → Outside Decimal → Venues Decimal
  venues_of op o = record {
    long_requests = o.requests op.long_ex;
    short_requests = o.requests op.short_ex;
  }

  -- The call of CoordinatedClose for the quantities of the position.
  unfoldable pub run_close :
      OpenPosition Decimal → Outside Decimal → Adapter Decimal → Adapter Decimal → Closing Decimal
  run_close op o long_adapter short_adapter =
      coordinated_close S text.format (markets_of op o long_adapter short_adapter) (request_of op)
        (config_of op) (venues_of op o)

  -- The quantities of the position, less what the close has counted.
  unfoldable pub take_off :
      Closing Decimal → Outside Decimal → OpenPosition Decimal → OpenPosition Decimal
  take_off c o op =
      let p = op.position in
      record op {
        position =
            (set_quantities (sub p.long_base_qty c.result.long_closed_qty)
              (sub p.short_base_qty c.result.short_closed_qty) (deps.clock o) p).0;
      }

  -- The end of a close that is complete.
  unfoldable pub record_closed : String → OpenPosition Decimal → Outside Decimal → Ended Decimal
  record_closed reason op o =
      let (op', e) = shift S deps closed reason o op in
      if is_some e then record { op = op'; outside = o; ending = not_recorded } else record {
        op = op';
        outside = notify_operator S deps info (position_closed op.position.id reason) o;
        ending = complete;
      }

  -- The end of a close with a leg that is not known.
  unfoldable pub record_unknown :
      String → Closing Decimal → OpenPosition Decimal → Outside Decimal → Ended Decimal
  record_unknown id c op o = record {
    op =
        (shift S deps degraded "ambiguous close: manual reconciliation required" o
          (shift S deps reconciling (text.close_reason c.result.reason) o op).0).0;
    outside = notify_operator S deps critical (close_unknown id) o;
    ending = unknown_leg;
  }

  -- The end of any other close that is not complete.
  unfoldable pub record_unfinished :
      String → Closing Decimal → OpenPosition Decimal → Outside Decimal → Ended Decimal
  record_unfinished id c op o = record {
    op = (shift S deps degraded (text.close_reason c.result.reason) o op).0;
    outside =
        notify_operator S deps failure
          (close_unfinished id c.result.reason c.result.residual_long_qty
            c.result.residual_short_qty)
          o;
    ending = unfinished;
  }

  -- The `switch` on the error of the close.
  unfoldable pub conclude :
      String
      → Closing Decimal
      → Option CloseError
      → OpenPosition Decimal
      → Outside Decimal
      → Ended Decimal
  conclude reason c none op o =
      record_closed reason (shift S deps reconciling "close complete, verifying" o op).0 o
  conclude reason c (some close_ambiguous) op o = record_unknown op.position.id c op o
  conclude reason c (some close_incomplete) op o = record_unfinished op.position.id c op o

  -- From the close on.
  unfoldable pub settle :
      String → Closing Decimal → OpenPosition Decimal → Outside Decimal → Ended Decimal
  unfolding conclude
  settle reason c op o =
      let o' = outside_of op o c.venues in
      let op' = take_off c o' op in conclude reason c c.error op' (persist_legs S deps op' o')

  -- An executor that is missing in the map of the engine; it is asked nothing.
  abbrev pub or_missing : Option (Adapter Decimal) → Adapter Decimal
  or_missing (some adapter) = adapter
  or_missing none = record {
    place_answer = λ (t : Requests Decimal). inr (definite "missing");
    order_answer = λ (t : Requests Decimal). inr (definite "missing");
  }

  -- An order to a missing executor is a panic. Where neither leg has anything to close, no order is
  -- sent, and an executor may be missing.
  unfoldable pub close_legs :
      String
      → OpenPosition Decimal
      → Outside Decimal
      → Option (Adapter Decimal)
      → Option (Adapter Decimal)
      → Ended Decimal
  unfolding settle
  close_legs reason op o long_adapter short_adapter =
      let target = min S op.position.long_base_qty op.position.short_base_qty in
      if not (is_some long_adapter && is_some short_adapter) && is_positive S target
      then record { op = op; outside = o; ending = panicked }
      else settle reason (run_close op o (or_missing long_adapter) (or_missing short_adapter)) op o

  -- EXITING, and then the close.
  unfoldable pub exit_legs : String → OpenPosition Decimal → Outside Decimal → Ended Decimal
  unfolding close_legs
  exit_legs reason op o =
      let (op', e) = shift S deps exiting reason o op in
      if is_some e
      then record { op = op'; outside = o; ending = not_started }
      else close_legs reason op' o (deps.executor op.long_ex) (deps.executor op.short_ex)

  -- EXIT_REQUESTED, unless the position is there already.
  unfoldable pub request_exit : String → OpenPosition Decimal → Outside Decimal → Ended Decimal
  unfolding exit_legs
  request_exit reason op o =
      let (op', e) = shift S deps exit_requested reason o op in
      if is_exit_requested op.position.state
      then exit_legs reason op o
      else if is_some e
      then record { op = op'; outside = o; ending = not_started }
      else exit_legs reason op' o

  unfoldable pub close_steps : String → OpenPosition Decimal → Outside Decimal → Ended Decimal
  unfolding request_exit
  close_steps reason op o = elim (resolve_symbols S deps o op) [
    | none ↦ record { op = op; outside = o; ending = not_started }
    | some op' ↦ request_exit reason op' o
  ]

  -- The object that the map points to has changed.
  abbrev pub keep : String → Ended Decimal → Engine Decimal → Engine Decimal
  keep id r e = record e { open_positions = adjust id r.op e.open_positions; outside = r.outside }

  -- What the engine keeps of the end.
  unfoldable pub finish_close : String → Ended Decimal → Ending → Engine Decimal → Engine Decimal
  finish_close id r not_started e = keep id r e
  finish_close id r not_recorded e = keep id r e
  finish_close id r panicked e = record (keep id r e) { crashed = true }
  finish_close id r complete e = record (keep id r e) {
    open_positions = remove id (adjust id r.op e.open_positions);
    close_req = remove id e.close_req;
  }
  finish_close id r _ e = record (keep id r e) { close_req = remove id e.close_req }

  -- `closePosition`.
  unfoldable pub close_position :
      String → OpenPosition Decimal → String → Engine Decimal → Engine Decimal
  unfolding close_steps finish_close
  close_position id op reason e =
      let r = close_steps reason op e.outside in finish_close id r r.ending e
