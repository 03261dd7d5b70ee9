-- ===== src/Engine/Cycle.antt =====
-- The cycle of fandos1/internal/engine/engine.go: `RequestClose`, `Tick`, `monitor`, `tryOpen` and
-- what they call. A tick takes the identifiers of the open positions in the order in which Go's loop
-- over the map visits them, which may be any, each with what the outside answers during its visit:
-- between two visits and between two ticks the clock, the market data, the registry, the halter, the
-- scanner and the exchanges may change in any way. The mutex of the engine makes `RequestClose` one
-- step, which comes between two ticks here. After a panic nothing more happens.
pub mod Laws
use fandos.Prelude.{
  ℕ, zero, suc, ◌+◌, String, Bool, true, false, not, ◌&&◌, Option, none, some, List, [], ◌∷◌,
  if◌then◌else◌, ltb, leb, str_eq, length, Dict, lookup, insert, remove,
}
use fandos.Decimal.{Shopspring, is_positive}
use fandos.Portfolio.{State, monitoring, degraded, closed, failed}
use fandos.Engine.World.{
  MarketSnapshot, Candidate, OpenPosition, Severity, warn, critical, Notice, engine_paused,
  observe_only, needs_attention, Outside, Deps, EngineText, Config, Engine, notify_operator,
}
use fandos.Engine.Closing.{close_position}
use fandos.Engine.Opening.{Outcome, panicked, skipped, dropped, registered, Opened, open_position}

-- Ten minutes in nanoseconds.
abbrev pub notify_interval : ℕ
notify_interval = 600000000000

abbrev pub default_reason : String
default_reason = "operator request"

-- A visit of `monitor`: the identifier, and what the outside answers then.
abbrev pub Visit : Type 0 → Type 0
Visit D = String × Deps D

-- What happens to the engine: a tick, with what the outside answers to it and with its visits in
-- order, or the request of an operator.
pub data Happening (D : Type 0) : Type 0 where
  ticks : Deps D → List (Visit D) → Happening D
  requests_close : String → String → Happening D

module _ {D : Type 0} where
  -- `RequestClose`.
  unfoldable pub request_close : String → String → Engine D → Engine D
  request_close id reason e = record e {
    close_req = insert id (if str_eq reason "" then default_reason else reason) e.close_req;
  }

  -- `forget`.
  unfoldable pub forget : String → Engine D → Engine D
  forget id e = record e {
    open_positions = remove id e.open_positions;
    close_req = remove id e.close_req;
  }

  -- Whether a position with the asset is open.
  unfoldable pub has_asset : String → Dict (OpenPosition D) → Bool
  has_asset asset [] = false
  has_asset asset ((id, op) ∷ rest) =
      let further = has_asset asset rest in if str_eq op.asset asset then true else further

  -- `pickCandidate`.
  unfoldable pub pick_candidate : Dict (OpenPosition D) → List Candidate → Option Candidate
  unfolding has_asset
  pick_candidate open_positions [] = none
  pick_candidate open_positions (c ∷ rest) =
      let further = pick_candidate open_positions rest in
      if not c.eligible
      then further
      else if has_asset c.asset open_positions
      then further
      else some c

module _ (S : Shopspring) (deps : Deps S.Decimal) where
  open S use {Decimal, sub}

  -- Whether the last notification of the key is too recent.
  abbrev pub is_recent : ℕ → Option ℕ → Bool
  is_recent now none = false
  is_recent now (some last) = ltb now (last + notify_interval)

  -- `notifyOnce`.
  unfoldable pub notify_once : String → Severity → Notice Decimal → Engine Decimal → Engine Decimal
  notify_once key severity notice e =
      let now = deps.clock e.outside in
      if is_recent now (lookup key e.last_notified) then e else record e {
        last_notified = insert key now e.last_notified;
        outside = notify_operator S deps severity notice e.outside;
      }

  -- `fundingSpreadFlipped`.
  abbrev pub is_flipped : Option (MarketSnapshot Decimal) → Option (MarketSnapshot Decimal) → Bool
  is_flipped (some l) (some s) =
      not (is_positive S (sub s.predicted_funding_rate l.predicted_funding_rate))
  is_flipped _ _ = false

  unfoldable pub funding_spread_flipped : OpenPosition Decimal → Outside Decimal → Bool
  funding_spread_flipped op o =
      is_flipped (deps.market op.long_ex op.asset o) (deps.market op.short_ex op.asset o)

module _ (S : Shopspring) (deps : Deps S.Decimal) (text : EngineText S.Decimal)
    (cfg : Config S.Decimal) where
  open S use {Decimal}

  -- A position in MONITORING, with the reason of a close that is requested.
  unfoldable pub monitor_hedge :
      String → OpenPosition Decimal → Engine Decimal → Option String → Engine Decimal
  monitor_hedge id op e (some reason) = close_position S deps text cfg id op reason e
  monitor_hedge id op e none =
      if cfg.exit_if_funding_sign_changes && funding_spread_flipped S deps op e.outside
      then close_position S deps text cfg id op "funding spread sign changed" e
      else e

  -- A position in DEGRADED behind its notification.
  unfoldable pub monitor_degraded :
      String → OpenPosition Decimal → Engine Decimal → Option String → Engine Decimal
  monitor_degraded id op e (some reason) = close_position S deps text cfg id op reason e
  monitor_degraded id op e none = e

  -- The `switch` on the state.
  unfoldable pub monitor_by_state :
      String → OpenPosition Decimal → Engine Decimal → State → Engine Decimal
  unfolding monitor_hedge monitor_degraded
  monitor_by_state id op e monitoring = monitor_hedge id op e (lookup id e.close_req)
  monitor_by_state id op e degraded =
      monitor_degraded id op
        (notify_once S deps (text.degraded_key id) critical (needs_attention id) e)
        (lookup id e.close_req)
  monitor_by_state id op e closed = forget id e
  monitor_by_state id op e failed = forget id e
  monitor_by_state id op e _ = e

  unfoldable pub monitor_one : String → Engine Decimal → Engine Decimal
  unfolding monitor_by_state
  monitor_one id e = if e.crashed then e else elim (lookup id e.open_positions) [
    | none ↦ e
    | some op ↦ monitor_by_state id op e op.position.state
  ]

  -- What the engine keeps of an opening.
  unfoldable pub keep_opened :
      String → Opened Decimal → Outcome Decimal → Engine Decimal → Engine Decimal
  keep_opened id r panicked e = record e { outside = r.outside; crashed = true }
  keep_opened id r (registered op) e = record e {
    open_positions = insert id op e.open_positions;
    outside = r.outside;
  }
  keep_opened id r _ e = record e { outside = r.outside }

  -- The best candidate, if there is one.
  unfoldable pub open_candidate : Engine Decimal → Option Candidate → Engine Decimal
  unfolding keep_opened
  open_candidate e none = e
  open_candidate e (some cand) =
      let numbered = record e { seq = e.seq + 1 } in
      let id = text.position_id (deps.clock e.outside) (e.seq + 1) cand.asset in
      let r = open_position S deps text cfg id cand e.outside in
      if not cfg.orders_enabled
      then notify_once S deps "observe-only" warn observe_only e
      else keep_opened id r r.outcome numbered

  -- `tryOpen`.
  unfoldable pub try_open : Engine Decimal → Engine Decimal
  unfolding open_candidate
  try_open e =
      if e.crashed
      then e
      else if leb cfg.max_open_positions (length e.open_positions)
      then e
      else open_candidate e (pick_candidate e.open_positions (deps.scan e.outside))

module _ (S : Shopspring) (text : EngineText S.Decimal) (cfg : Config S.Decimal) where
  open S use {Decimal}

  -- `monitor`, over the visits.
  unfoldable pub monitor : List (Visit Decimal) → Engine Decimal → Engine Decimal
  monitor [] e = e
  monitor ((id, deps) ∷ rest) e = monitor rest (monitor_one S deps text cfg id e)

  -- `Tick`.
  unfoldable pub tick : Deps Decimal → List (Visit Decimal) → Engine Decimal → Engine Decimal
  unfolding monitor
  tick deps visits e =
      let (halted, reason) = deps.is_halted e.outside in
      if e.crashed
      then e
      else if halted
      then notify_once S deps "engine_halted" warn (engine_paused reason) e
      else try_open S deps text cfg (monitor visits e)

  unfoldable pub happen : Happening Decimal → Engine Decimal → Engine Decimal
  unfolding tick
  happen (ticks deps visits) e = tick deps visits e
  happen (requests_close id reason) e = request_close id reason e

  unfoldable pub run : List (Happening Decimal) → Engine Decimal → Engine Decimal
  unfolding happen
  run [] e = e
  run (h ∷ rest) e = run rest (happen h e)
