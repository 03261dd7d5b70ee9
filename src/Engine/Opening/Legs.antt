-- ===== src/Engine/Opening/Legs.antt =====
-- The orders of `openPosition` in fandos1/internal/engine/engine.go: `placeEntryLegs`,
-- `repairImbalance` and `recordEntryOrders`.
use fandos.Prelude.{
  String, Bool, true, false, ◌&&◌, Option, none, some, ◌⊎◌, inl, inr, if◌then◌else◌, str_eq,
}
use fandos.Decimal.{Shopspring, min, greater_than, less_than, is_positive}
use fandos.Execution.Orders.{
  Side, long, short, marketable_limit_ioc, ioc, PlaceOrderRequest, PlaceOrderResult, ExchangeError,
  Order, Adapter, Placed, is_ambiguous_timeout, place,
}
use fandos.Execution.Close.{entry, repair}
use fandos.Execution.Repair.{
  RepairAction, repair_none, reduce_excess, RepairDecision, reduce_excess_action, apply_top_up,
  place_reduce_order,
}
use fandos.Engine.World.{
  OpenPosition, upsert_order, Outside, Deps, EngineText, Config, requests_of, with_requests, emit,
}

pub record LegResult (D : Type 0) : Type 0 where
  pub filled : D
  -- `none` is the zero order of a leg that has failed.
  pub order : Option (Order D)
  pub ambiguous : Bool

pub record EntryPrices (D : Type 0) : Type 0 where
  pub long_price : D
  pub short_price : D

-- One of the two legs of a position.
pub record Leg (D : Type 0) : Type 0 where
  pub exchange : String
  pub symbol : String
  pub side : Side
  pub price : D

abbrev pub is_repair_none : RepairAction → Bool
is_repair_none repair_none = true
is_repair_none _ = false

abbrev pub is_reduce_excess : RepairAction → Bool
is_reduce_excess reduce_excess = true
is_reduce_excess _ = false

module _ (S : Shopspring) where
  open S use {Decimal, zero, add}

  -- A fill counts up to the quantity that was asked for.
  abbrev pub capped : Decimal → Decimal → Decimal
  capped qty filled = if greater_than S filled qty then qty else filled

  -- How the entry of one leg is classified.
  unfoldable pub entry_result :
      Decimal → PlaceOrderResult Decimal ⊎ ExchangeError → LegResult Decimal
  unfolding is_ambiguous_timeout
  entry_result qty (inl r) = record {
    filled = capped qty r.order.filled_qty;
    order = some r.order;
    ambiguous = false;
  }
  entry_result qty (inr e) = record {
    filled = zero;
    order = none;
    ambiguous = is_ambiguous_timeout e;
  }

  -- The fill of the top-up; an ambiguous one is taken as unfilled.
  unfoldable pub top_up_fill : Decimal → PlaceOrderResult Decimal ⊎ ExchangeError → Decimal
  top_up_fill qty (inl r) = capped qty r.order.filled_qty
  top_up_fill qty (inr e) = zero

  abbrev pub long_entry : OpenPosition Decimal → EntryPrices Decimal → Leg Decimal
  long_entry op prices = record {
    exchange = op.long_ex;
    symbol = op.long_sym;
    side = long;
    price = prices.long_price;
  }

  abbrev pub short_entry : OpenPosition Decimal → EntryPrices Decimal → Leg Decimal
  short_entry op prices = record {
    exchange = op.short_ex;
    symbol = op.short_sym;
    side = short;
    price = prices.short_price;
  }

  -- The marketable limit order of a leg.
  unfoldable pub leg_order : String → Leg Decimal → Decimal → PlaceOrderRequest Decimal
  leg_order client_id leg qty = record {
    client_order_id = client_id;
    symbol = leg.symbol;
    side = leg.side;
    order_mode = marketable_limit_ioc;
    base_qty = qty;
    price = leg.price;
    reduce_only = false;
    post_only = false;
    time_in_force = ioc;
  }

module _ (S : Shopspring) (deps : Deps S.Decimal) where
  open S use {Decimal}

  -- `Place` through the executor of an exchange; `none` where there is none.
  abbrev pub through :
      String
      → (Adapter Decimal → Placed Decimal)
      → Outside Decimal
      → Option (PlaceOrderResult Decimal ⊎ ExchangeError) × Outside Decimal
  through ex call o =
      elim (deps.executor ex)
        as (λ x. Option (PlaceOrderResult Decimal ⊎ ExchangeError) × Outside Decimal) [
          | none ↦ (none, o)
          | some adapter ↦ let (r, t) = call adapter in (some r, with_requests ex t o)
        ]

  -- `recordEntryOrders`, whose errors are only logged.
  abbrev pub record_order : String → String → LegResult Decimal → Outside Decimal → Outside Decimal
  record_order id ex leg o = elim leg.order [
    | none ↦ o
    | some order ↦ if str_eq order.client_order_id "" then o else emit (upsert_order order ex id) o
  ]

  unfoldable pub record_entry_orders :
      OpenPosition Decimal
      → LegResult Decimal
      → LegResult Decimal
      → Outside Decimal
      → Outside Decimal
  record_entry_orders op l s o =
      let id = op.position.id in
      if deps.has_orders then record_order id op.short_ex s (record_order id op.long_ex l o) else o

module _ (S : Shopspring) (deps : Deps S.Decimal) (text : EngineText S.Decimal) where
  open S use {Decimal, zero, add}

  -- The entry order of one leg.
  unfoldable pub place_entry :
      String → Leg Decimal → Decimal → Outside Decimal → LegResult Decimal × Outside Decimal
  place_entry id leg qty o =
      let client_id = text.format (record {
        position_id = id;
        leg_side = leg.side;
        slice_index = 0;
        nonce = 0;
        purpose = entry;
      }) in
      let (r, o') =
        through S deps leg.exchange
          (λ adapter. place S adapter (leg_order S client_id leg qty) (requests_of leg.exchange o))
          o in
      (
        elim r [
          | none ↦ record { filled = zero; order = none; ambiguous = false }
          | some answer ↦ entry_result S qty answer
        ],
        o',
      )

  unfoldable pub place_entry_legs :
      String
      → OpenPosition Decimal
      → Decimal
      → EntryPrices Decimal
      → Outside Decimal
      → LegResult Decimal × LegResult Decimal × Outside Decimal
  place_entry_legs id op qty prices o =
      let (l, o₁) = place_entry id (long_entry S op prices) qty o in
      let (s, o₂) = place_entry id (short_entry S op prices) qty o₁ in (l, s, o₂)

  -- The one top-up of the lagging leg, with its fill.
  unfoldable pub top_up :
      String → Leg Decimal → Decimal → Outside Decimal → Decimal × Outside Decimal
  top_up id leg qty o =
      let client_id = text.format (record {
        position_id = id;
        leg_side = leg.side;
        slice_index = 1;
        nonce = 0;
        purpose = repair;
      }) in
      let (r, o') =
        through S deps leg.exchange
          (λ adapter. place S adapter (leg_order S client_id leg qty) (requests_of leg.exchange o))
          o in
      (elim r [ none ↦ zero | some answer ↦ top_up_fill S qty answer ], o')

  -- The reduce-only order for the excess; true where it has no error.
  unfoldable pub reduce_heavy :
      String → Leg Decimal → Decimal → Outside Decimal → Bool × Outside Decimal
  unfolding reduce_excess_action
  reduce_heavy id leg excess o =
      let client_id = text.format (record {
        position_id = id;
        leg_side = leg.side;
        slice_index = 2;
        nonce = 0;
        purpose = repair;
      }) in
      elim (deps.executor leg.exchange) as (λ x. Bool × Outside Decimal) [
        | none ↦ (false, o)
        | some adapter ↦
            let (e, t) =
              place_reduce_order S adapter
                (record {
                  symbol = leg.symbol;
                  excess_qty = excess;
                  side = reduce_excess_action leg.side;
                })
                client_id (requests_of leg.exchange o) in
            (elim e [ none ↦ true | some x ↦ false ], with_requests leg.exchange t o)
      ]

  module _ (cfg : Config S.Decimal) where
    -- From the fills behind the top-up on.
    unfoldable pub reduce_rest :
        String
        → OpenPosition Decimal
        → RepairDecision Decimal
        → Decimal
        → Decimal
        → EntryPrices Decimal
        → Outside Decimal
        → Decimal × Decimal × Outside Decimal
    reduce_rest id op after long_filled short_filled prices o =
        let heavy =
          if greater_than S long_filled short_filled
          then long_entry S op prices
          else short_entry S op prices in
        let (done, o') = reduce_heavy id heavy after.excess_qty o in
        let common = min S long_filled short_filled in
        if is_reduce_excess after.action && is_positive S after.excess_qty
        then if done then (common, common, o') else (long_filled, short_filled, o')
        else (long_filled, short_filled, o)

    unfoldable pub repair_imbalance :
        String
        → OpenPosition Decimal
        → RepairDecision Decimal
        → Decimal
        → Decimal
        → EntryPrices Decimal
        → Outside Decimal
        → Decimal × Decimal × Outside Decimal
    repair_imbalance id op decision long_filled short_filled prices o =
        let lag_is_long = less_than S long_filled short_filled in
        let lag = if lag_is_long then long_entry S op prices else short_entry S op prices in
        let (filled, o') = top_up id lag decision.shortfall_qty o in
        let long' = if lag_is_long then add long_filled filled else long_filled in
        let short' = if lag_is_long then short_filled else add short_filled filled in
        let after =
          apply_top_up S decision
            (record {
              success = is_positive S filled;
              filled_qty = filled;
              new_long_qty = long';
              new_short_qty = short';
            })
            cfg.delta_tolerance_base in
        reduce_rest id op after long' short' prices o'
