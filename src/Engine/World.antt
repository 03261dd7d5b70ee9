-- ===== src/Engine/World.antt =====
-- The state of the engine, what it asks of the outside, and the steps that closing and opening
-- share. The two exchanges of a pair have an adapter each; the registry of instruments, the cache of
-- market data, the persister, the clock and the scanner answer by all that went before. During the
-- visit of one position, reads of the clock with nothing in between give the same time.
use fandos.Prelude.{
  ℕ, ℤ, String, Bool, true, false, not, ◌&&◌, Option, none, some, List, ◌∷◌, if◌then◌else◌, str_eq,
  Dict,
}
use fandos.Decimal.{Shopspring, is_zero, max}
use fandos.Portfolio.{State, closed, degraded, Error, Position, transition_to}
use fandos.Execution.Orders.{Side, long, short, Order, Adapter, Requests}
use fandos.Execution.Close.{ClientOrderIdParts, Reason}
use fandos.Execution.Repair.{RepairReason}

pub record Instrument (D : Type 0) : Type 0 where
  pub exchange_symbol : String
  pub tick_size : D
  pub qty_step : D
  pub min_qty : D

pub record MarketSnapshot (D : Type 0) : Type 0 where
  pub best_bid : D
  pub best_ask : D
  pub predicted_funding_rate : D

-- What the engine reads of a candidate.
pub record Candidate : Type 0 where
  pub asset : String
  pub long_exchange : String
  pub short_exchange : String
  pub eligible : Bool

pub record OpenPosition (D : Type 0) : Type 0 where
  pub position : Position D
  pub long_sym : String
  pub short_sym : String
  pub long_ex : String
  pub short_ex : String
  pub asset : String
  pub tick_size : D

pub data LegStatus : Type 0 where
  leg_open leg_closed leg_degraded : LegStatus

pub data Severity : Type 0 where
  info warn failure critical : Severity

pub data Notice (D : Type 0) : Type 0 where
  engine_paused : String → Notice D
  observe_only : Notice D
  needs_attention : String → Notice D
  -- Position and reason.
  position_closed : String → String → Notice D
  close_unknown : String → Notice D
  -- Position, reason, residual of the long and of the short leg.
  close_unfinished : String → Reason → D → D → Notice D
  entry_unknown : String → Notice D
  delta_open : String → D → D → Notice D
  position_opened : String → D → Notice D

pub data Event (D : Type 0) : Type 0 where
  -- Position, side, exchange, symbol, quantity, status.
  upsert_leg : String → Side → String → String → D → LegStatus → Event D
  set_leverage : String → String → Event D
  upsert_order : Order D → String → String → Event D
  notify : Severity → Notice D → Event D

pub record Outside (D : Type 0) : Type 0 where
  -- Newest first.
  pub events : List (Event D)
  -- The requests that the adapter of each exchange has had.
  pub requests : String → Requests D

pub record Deps (D : Type 0) : Type 0 where
  pub clock : Outside D → ℕ
  pub persister : Position D → Outside D → Option String
  pub instrument : String → String → Outside D → Option (Instrument D)
  pub market : String → String → Outside D → Option (MarketSnapshot D)
  pub executor : String → Option (Adapter D)
  pub has_adapter : String → Bool
  pub has_legs : Bool
  pub has_orders : Bool
  pub has_notifier : Bool
  pub is_halted : Outside D → Bool × String
  pub scan : Outside D → List Candidate

-- The strings that the code formats.
pub record EngineText (D : Type 0) : Type 0 where
  pub format : ClientOrderIdParts → String
  -- Time, sequence number and asset.
  pub position_id : ℕ → ℕ → String → String
  pub close_reason : Reason → String
  -- The key of the notification of a degraded position.
  pub degraded_key : String → String
  pub repair_reason : RepairReason → String
  pub hedged_reason : D → D → String

pub record Config (D : Type 0) : Type 0 where
  pub max_open_positions : ℕ
  pub orders_enabled : Bool
  -- As the decimal that `MulInt` makes of it.
  pub protection_ticks : D
  pub max_requotes : ℤ
  pub target_qty : D
  pub delta_tolerance_base : D
  pub exit_if_funding_sign_changes : Bool

pub record Engine (D : Type 0) : Type 0 where
  pub open_positions : Dict (OpenPosition D)
  pub close_req : Dict String
  pub seq : ℕ
  pub last_notified : Dict ℕ
  pub outside : Outside D
  -- A panic has ended the process.
  pub crashed : Bool

abbrev pub leg_status : State → LegStatus
leg_status closed = leg_closed
leg_status degraded = leg_degraded
leg_status _ = leg_open

abbrev pub is_some {ℓ} : {A : Type ℓ} → Option A → Bool
is_some none = false
is_some (some a) = true

module _ {D : Type 0} where
  abbrev pub requests_of : String → Outside D → Requests D
  requests_of ex o = o.requests ex

  abbrev pub with_requests : String → Requests D → Outside D → Outside D
  with_requests ex t o = record o {
    requests = λ other. if str_eq ex other then t else o.requests other;
  }

  abbrev pub emit : Event D → Outside D → Outside D
  emit e o = record o { events = e ∷ o.events }

module _ (S : Shopspring) (deps : Deps S.Decimal) where
  open S use {Decimal}

  -- `notify`: nothing without a notifier.
  unfoldable pub notify_operator : Severity → Notice Decimal → Outside Decimal → Outside Decimal
  notify_operator severity notice o =
      if deps.has_notifier then emit (notify severity notice) o else o

  -- `TransitionTo` on the position of an open position.
  unfoldable pub shift :
      State → String → Outside Decimal → OpenPosition Decimal → OpenPosition Decimal × Option Error
  shift to reason o op =
      let (p, e) =
        transition_to to (deps.clock o) reason "system:engine" (some (λ p t. deps.persister p o))
          op.position in
      (record op { position = p }, e)

  -- `persistLegs`, whose errors are only logged.
  unfoldable pub persist_legs : OpenPosition Decimal → Outside Decimal → Outside Decimal
  persist_legs op o =
      let p = op.position in
      let status = leg_status p.state in
      if deps.has_legs
      then emit (upsert_leg p.id short op.short_ex op.short_sym p.short_base_qty status)
          (emit (upsert_leg p.id long op.long_ex op.long_sym p.long_base_qty status) o)
      else o

  -- The symbols and the tick from the registry; `none` where an instrument is not there.
  abbrev pub from_registry :
      OpenPosition Decimal
      → Option (Instrument Decimal)
      → Option (Instrument Decimal)
      → Option (OpenPosition Decimal)
  from_registry op (some li) (some si) = some (record op {
    long_sym = li.exchange_symbol;
    short_sym = si.exchange_symbol;
    tick_size = max S li.tick_size si.tick_size;
  })
  from_registry op _ _ = none

  -- `resolveSymbols`: the registry is asked unless the position has its symbols and its tick.
  unfoldable pub resolve_symbols :
      Outside Decimal → OpenPosition Decimal → Option (OpenPosition Decimal)
  resolve_symbols o op =
      if not (str_eq op.long_sym "") && not (str_eq op.short_sym "") && not (is_zero S op.tick_size)
      then some op
      else from_registry op (deps.instrument op.long_ex op.asset o)
          (deps.instrument op.short_ex op.asset o)
