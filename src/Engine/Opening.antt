-- ===== src/Engine/Opening.antt =====
-- `openPosition` of fandos1/internal/engine/engine.go with `placeEntryLegs`, `repairImbalance` and
-- `recordEntryOrders`. The two entry orders go to two exchanges, each with its own requests, so no
-- order between the two goroutines is observable; the long one is written first.
pub mod Legs
pub mod Repaired
pub mod Balance
pub mod Entered
use fandos.Prelude.{
  ℕ, ◌+◌, String, Bool, true, false, not, ◌&&◌, ◌||◌, Option, none, some, inl, inr, if◌then◌else◌,
}
use fandos.Decimal.{
  Shopspring, abs, min, max, greater_than, less_than, is_zero, is_positive, quantize,
}
use fandos.Portfolio.{
  State, qualified, preparing, opening, partially_hedged, hedged, monitoring, degraded, failed,
  Error, Position, new_position, set_quantities,
}
use fandos.Execution.Orders.{long, short}
use fandos.Execution.Repair.{RepairAction, repair_none, RepairDecision, analyze_mismatch}
use fandos.Engine.World.{
  Instrument, MarketSnapshot, Candidate, OpenPosition, info, critical, entry_unknown, delta_open,
  position_opened, set_leverage, Outside, Deps, EngineText, Config, emit, notify_operator, shift,
  persist_legs,
}
use Legs.{
  LegResult, EntryPrices, place_entry_legs, record_entry_orders, is_repair_none, repair_imbalance,
}

-- How an opening ends.
pub data Outcome (D : Type 0) : Type 0 where
  -- It has panicked on a step of zero.
  panicked : Outcome D
  -- It returns before the position has its first transition.
  skipped : Outcome D
  -- It returns without a registration, and leaves the position as it is.
  dropped : OpenPosition D → Outcome D
  registered : OpenPosition D → Outcome D

pub record Opened (D : Type 0) : Type 0 where
  pub outcome : Outcome D
  pub outside : Outside D

module _ (S : Shopspring) (deps : Deps S.Decimal) (text : EngineText S.Decimal)
    (cfg : Config S.Decimal) where
  open S use {Decimal, zero, add, sub, mul}

  abbrev pub skip : Outside Decimal → Opened Decimal
  skip o = record { outcome = skipped; outside = o }

  abbrev pub drop : OpenPosition Decimal → Outside Decimal → Opened Decimal
  drop op o = record { outcome = dropped op; outside = o }

  -- `registerOpen`.
  abbrev pub register_open : OpenPosition Decimal → Outside Decimal → Opened Decimal
  register_open op o = record { outcome = registered op; outside = o }

  -- FAILED, without a registration.
  abbrev pub fail_opening : String → OpenPosition Decimal → Outside Decimal → Opened Decimal
  fail_opening reason op o = drop (shift S deps failed reason o op).0 o

  abbrev pub after_shift :
      (OpenPosition Decimal → Opened Decimal)
      → Outside Decimal
      → OpenPosition Decimal × Option Error
      → Opened Decimal
  after_shift go_on o (op, none) = go_on op
  after_shift go_on o (op, some e) = drop op o

  -- A transition, and what follows it where it has no error.
  unfoldable pub guarded :
      State
      → String
      → Outside Decimal
      → OpenPosition Decimal
      → (OpenPosition Decimal → Opened Decimal)
      → Opened Decimal
  guarded to reason o op go_on = after_shift go_on o (shift S deps to reason o op)

  abbrev pub with_quantities :
      Decimal → Decimal → Outside Decimal → OpenPosition Decimal → OpenPosition Decimal
  with_quantities long_filled short_filled o op = record op {
    position = (set_quantities long_filled short_filled (deps.clock o) op.position).0;
  }

  -- The registration of a position in MONITORING.
  unfoldable pub register_hedge : Decimal → OpenPosition Decimal → Outside Decimal → Opened Decimal
  register_hedge long_filled op o = register_open op (
      notify_operator S deps info (position_opened op.position.id long_filled)
        (persist_legs S deps op o))

  unfoldable pub start_monitoring :
      Decimal → OpenPosition Decimal → Outside Decimal → Opened Decimal
  start_monitoring long_filled op o =
      guarded monitoring "entering monitoring" o op (λ m. register_hedge long_filled m o)

  -- HEDGED and MONITORING.
  unfoldable pub finish_opening :
      Decimal → Decimal → OpenPosition Decimal → Outside Decimal → Opened Decimal
  finish_opening long_filled short_filled op o =
      guarded hedged (text.hedged_reason long_filled short_filled) o op
        (λ h. start_monitoring long_filled h o)

  -- DEGRADED with a difference that is not repaired.
  unfoldable pub give_up_repair :
      Decimal → Decimal → OpenPosition Decimal → Outside Decimal → Opened Decimal
  give_up_repair long_filled short_filled op o =
      let d = (shift S deps degraded "delta mismatch not repaired" o op).0 in
      register_open d (
        notify_operator S deps critical (delta_open d.position.id long_filled short_filled)
          (persist_legs S deps d o))

  unfoldable pub check_delta :
      Decimal → Decimal → OpenPosition Decimal → Outside Decimal → Opened Decimal
  check_delta long_filled short_filled op o =
      if greater_than S (abs S (sub long_filled short_filled)) cfg.delta_tolerance_base
        || (is_zero S long_filled && is_zero S short_filled)
      then give_up_repair long_filled short_filled op o
      else finish_opening long_filled short_filled op o

  -- The repair, and the check of the difference that is left.
  unfoldable pub repair_legs :
      RepairDecision Decimal
      → Decimal
      → Decimal
      → EntryPrices Decimal
      → OpenPosition Decimal
      → Outside Decimal
      → Opened Decimal
  repair_legs decision long_filled short_filled prices op o =
      let (long', short', o') =
        repair_imbalance S deps text cfg op.position.id op decision long_filled short_filled prices
          o in
      check_delta long' short' (with_quantities long' short' o' op) o'

  -- PARTIALLY_HEDGED and the repair.
  unfoldable pub repair_opening :
      RepairDecision Decimal
      → Decimal
      → Decimal
      → EntryPrices Decimal
      → OpenPosition Decimal
      → Outside Decimal
      → Opened Decimal
  repair_opening decision long_filled short_filled prices op o =
      guarded partially_hedged (text.repair_reason decision.reason) o op
        (λ p. repair_legs decision long_filled short_filled prices p o)

  -- From the fills of both legs on.
  unfoldable pub after_fills :
      Decimal
      → Decimal
      → EntryPrices Decimal
      → OpenPosition Decimal
      → Outside Decimal
      → Opened Decimal
  after_fills long_filled short_filled prices op o =
      let filled_op = with_quantities long_filled short_filled o op in
      let decision = analyze_mismatch S long_filled short_filled cfg.delta_tolerance_base in
      if is_zero S long_filled && is_zero S short_filled
      then fail_opening "no fills on entry" op o
      else if not (is_repair_none decision.action)
      then repair_opening decision long_filled short_filled prices filled_op o
      else finish_opening long_filled short_filled filled_op o

  -- DEGRADED with a leg that is not known.
  unfoldable pub unknown_entry : OpenPosition Decimal → Outside Decimal → Opened Decimal
  unknown_entry op o =
      let d = (shift S deps degraded "entry leg state unknown (ack+query timeout)" o op).0 in
      register_open d
        (notify_operator S deps critical (entry_unknown d.position.id) (persist_legs S deps d o))

  unfoldable pub after_entry :
      LegResult Decimal
      → LegResult Decimal
      → EntryPrices Decimal
      → OpenPosition Decimal
      → Outside Decimal
      → Opened Decimal
  after_entry l s prices op o =
      if l.ambiguous || s.ambiguous
      then unknown_entry op o
      else after_fills l.filled s.filled prices op (record_entry_orders S deps op l s o)

  -- The prices of the cache, with the protection.
  abbrev pub entry_prices :
      OpenPosition Decimal → MarketSnapshot Decimal → MarketSnapshot Decimal → EntryPrices Decimal
  entry_prices op long_market short_market =
      let protection = mul op.tick_size cfg.protection_ticks in
      record {
        long_price = add long_market.best_ask protection;
        short_price = sub short_market.best_bid protection;
      }

  -- The two entry orders, where the market data of both legs are there.
  unfoldable pub enter :
      Decimal
      → OpenPosition Decimal
      → Outside Decimal
      → Option (MarketSnapshot Decimal)
      → Option (MarketSnapshot Decimal)
      → Opened Decimal
  enter qty op o (some long_market) (some short_market) =
      let prices = entry_prices op long_market short_market in
      let (l, s, o') = place_entry_legs S deps text op.position.id op qty prices o in
      after_entry l s prices op o'
  enter qty op o _ _ = fail_opening "market data missing at entry" op o

  abbrev pub leverage_of : String → String → Outside Decimal → Outside Decimal
  leverage_of ex symbol o = if deps.has_adapter ex then emit (set_leverage ex symbol) o else o

  abbrev pub leveraged : OpenPosition Decimal → Outside Decimal → Outside Decimal
  leveraged op o = leverage_of op.short_ex op.short_sym (leverage_of op.long_ex op.long_sym o)

  -- OPENING and the entry.
  unfoldable pub start_entry : Decimal → OpenPosition Decimal → Outside Decimal → Opened Decimal
  start_entry qty op o =
      guarded opening "placing entry orders" o op
        (λ d. enter qty d o (deps.market d.long_ex d.asset o) (deps.market d.short_ex d.asset o))

  -- PREPARING and the leverage of both legs.
  unfoldable pub preflight : Decimal → OpenPosition Decimal → Outside Decimal → Opened Decimal
  preflight qty op o = guarded preparing "preflight" o op (λ p. start_entry qty p (leveraged p o))

  -- From QUALIFIED on.
  unfoldable pub prepare : Decimal → OpenPosition Decimal → Outside Decimal → Opened Decimal
  prepare qty op o = guarded qualified "passed filters+eligibility" o op (λ q. preflight qty q o)

  -- The position of a candidate before its first transition.
  abbrev pub new_open_position :
      String
      → Candidate
      → Instrument Decimal
      → Instrument Decimal
      → Decimal
      → Outside Decimal
      → OpenPosition Decimal
  new_open_position id cand li si qty o = record {
    position =
        record (new_position S id cand.asset cand.long_exchange cand.short_exchange
          (deps.clock o)) { target_base_qty = qty };
    long_sym = li.exchange_symbol;
    short_sym = si.exchange_symbol;
    long_ex = cand.long_exchange;
    short_ex = cand.short_exchange;
    asset = cand.asset;
    tick_size = max S li.tick_size si.tick_size;
  }

  unfoldable pub open_quantized :
      String
      → Candidate
      → Instrument Decimal
      → Instrument Decimal
      → Outside Decimal
      → Option (Decimal × Decimal)
      → Opened Decimal
  open_quantized id cand li si o none = record { outcome = panicked; outside = o }
  open_quantized id cand li si o (some (qty, residue)) =
      if not (is_positive S qty) || less_than S qty (max S li.min_qty si.min_qty)
      then skip o
      else prepare qty (new_open_position id cand li si qty o) o

  -- `openPosition` behind the new identifier.
  unfoldable pub open_position : String → Candidate → Outside Decimal → Opened Decimal
  open_position id cand o = elim (deps.instrument cand.long_exchange cand.asset o) [
    | none ↦ skip o
    | some li ↦ elim (deps.instrument cand.short_exchange cand.asset o) [
      | none ↦ skip o
      | some si ↦
          open_quantized id cand li si o (quantize S cfg.target_qty (max S li.qty_step si.qty_step))
    ]
  ]
