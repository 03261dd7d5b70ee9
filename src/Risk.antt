-- ===== src/Risk.antt =====
-- fandos1/internal/risk/engine.go: the checks of a position, of the loss of a day, of the reserve for a
-- counterparty and of the exposure to deleveraging. Strings are compared as Go compares them, by a
-- parameter.
pub mod Laws
mod Tests
use fandos.Prelude.{
  ℕ, String, Bool, true, false, not, ◌&&◌, ◌||◌, Option, none, some, List, [], ◌∷◌, ◌++◌,
  if◌then◌else◌, Dict, lookup,
}
use fandos.Decimal.{
  Shopspring, abs, is_negative, is_positive, greater_than, greater_than_or_equal, less_than,
}

-- What the checks read of the limits.
pub record Limits (D : Type 0) : Type 0 where
  pub delta_tolerance_base : D
  pub delta_tolerance_usd : D
  pub max_daily_loss_usdt : D
  pub max_position_loss_usdt : D
  pub minimum_distance_to_liquidation_percent : D
  pub emergency_margin_ratio : D
  pub risk_snap_after_max_daily_loss : Bool

pub record PositionInput (D : Type 0) : Type 0 where
  pub asset : String
  pub long_exchange : String
  pub short_exchange : String
  pub long_base_qty : D
  pub short_base_qty : D
  pub mark_price : D
  pub unrealized_pnl : D
  pub margin_ratio_per_leg : Dict D
  pub liquidation_distance_percent : Dict D

pub data Severity : Type 0 where
  severity_none severity_warning severity_critical : Severity

pub data Code : Type 0 where
  delta_base_breach delta_usd_breach emergency_margin liquidation_too_close : Code
  max_position_loss max_daily_loss : Code

-- Without the message; `exchange` is empty where the violation is of no exchange.
pub record Violation : Type 0 where
  pub severity : Severity
  pub code : Code
  pub exchange : String

pub record CheckResult (D : Type 0) : Type 0 where
  pub violations : List Violation
  pub delta_base : D
  pub delta_usd : D

abbrev pub is_critical : Severity → Bool
is_critical severity_critical = true
is_critical _ = false

abbrev pub is_warning : Severity → Bool
is_warning severity_warning = true
is_warning _ = false

-- `HasCritical`, over the violations of a result.
unfoldable pub has_critical : List Violation → Bool
has_critical [] = false
has_critical (v ∷ rest) =
    let further = has_critical rest in if is_critical v.severity then true else further

-- `HasWarning`.
unfoldable pub has_warning : List Violation → Bool
has_warning [] = false
has_warning (v ∷ rest) =
    let further = has_warning rest in if is_warning v.severity then true else further

abbrev pub critical : Code → String → Violation
critical code exchange = record { severity = severity_critical; code = code; exchange = exchange }

abbrev pub report_if : Bool → Violation → List Violation
report_if b v = if b then v ∷ [] else []

module _ {D : Type 0} where
  abbrev pub keys_of : Dict D → List String
  keys_of [] = []
  keys_of ((key, value) ∷ rest) = key ∷ keys_of rest

-- The keys in order.
module _ (is_before : String → String → Bool) where
  unfoldable pub put_in_order : String → List String → List String
  put_in_order key [] = key ∷ []
  put_in_order key (other ∷ rest) =
      let behind = other ∷ put_in_order key rest in
      if is_before other key then behind else key ∷ other ∷ rest

  unfoldable pub sorted_keys : List String → List String
  unfolding put_in_order
  sorted_keys [] = []
  sorted_keys (key ∷ rest) = put_in_order key (sorted_keys rest)

module _ (S : Shopspring) where
  open S use {Decimal, zero, sub, mul}

  abbrev pub value_at : Option Decimal → Decimal
  value_at none = zero
  value_at (some x) = x

  abbrev pub get : String → Dict Decimal → Decimal
  get key m = value_at (lookup key m)

  -- The violations of the exchanges whose value does not pass.
  unfoldable pub report_each : (Decimal → Bool) → Code → Dict Decimal → List String → List Violation
  report_each fails code m [] = []
  report_each fails code m (ex ∷ rest) =
      report_if (fails (get ex m)) (critical code ex) ++ report_each fails code m rest

  module _ (is_before : String → String → Bool) where
    -- `CheckPosition`.
    unfoldable pub check_position : PositionInput Decimal → Limits Decimal → CheckResult Decimal
    unfolding report_each sorted_keys
    check_position p limits =
        let delta_base = sub p.long_base_qty (abs S p.short_base_qty) in
        let delta_usd = mul delta_base p.mark_price in
        let margin = sorted_keys is_before (keys_of p.margin_ratio_per_leg) in
        let distance = sorted_keys is_before (keys_of p.liquidation_distance_percent) in
        record {
          violations =
              report_if (greater_than S (abs S delta_base) limits.delta_tolerance_base)
                (critical delta_base_breach "")
              ++ report_if (greater_than S (abs S delta_usd) limits.delta_tolerance_usd)
                  (critical delta_usd_breach "")
              ++ report_each (λ x. greater_than_or_equal S x limits.emergency_margin_ratio)
                  emergency_margin p.margin_ratio_per_leg margin
              ++ report_each (λ x. less_than S x limits.minimum_distance_to_liquidation_percent)
                  liquidation_too_close p.liquidation_distance_percent distance
              ++ (if is_positive S limits.max_position_loss_usdt
                    && greater_than S (abs S p.unrealized_pnl) limits.max_position_loss_usdt
                  then report_if (is_negative S p.unrealized_pnl) (critical max_position_loss "")
                  else []);
          delta_base = delta_base;
          delta_usd = delta_usd;
        }

  -- The status of a day, without its date.
  pub record DailyLossStatus : Type 0 where
    pub realised_loss_usdt : Decimal
    pub snapped : Bool

  unfoldable pub check_daily_loss : Decimal → Limits Decimal → DailyLossStatus × List Violation
  check_daily_loss pnl_today limits =
      let loss = if is_negative S pnl_today then abs S pnl_today else zero in
      if is_positive S limits.max_daily_loss_usdt && greater_than S loss limits.max_daily_loss_usdt
      then (
        record { realised_loss_usdt = loss; snapped = limits.risk_snap_after_max_daily_loss },
        critical max_daily_loss "" ∷ [],
      )
      else (record { realised_loss_usdt = loss; snapped = false }, [])

  -- `none` is a map that is nil, and a tier that is missing.
  unfoldable pub counterparty_reserve : Decimal → Option Decimal → Decimal
  counterparty_reserve notional none = zero
  counterparty_reserve notional (some haircut) =
      if not (is_positive S haircut) then zero else mul notional haircut

  unfoldable pub adl_exposure_breached : Decimal → Decimal → Bool × Decimal
  adl_exposure_breached current limit =
      if not (is_positive S limit)
      then (false, zero)
      else if greater_than S current limit
      then (true, sub current limit)
      else (false, zero)
