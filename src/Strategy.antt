-- ===== src/Strategy.antt =====
-- fandos1/internal/strategy: the expected profit of a candidate (expected_pnl.go) and the calendar of
-- its funding payments (funding_calendar.go). A duration that is not positive is zero here.
pub mod Calendar
mod Tests
use fandos.Prelude.{
  ℕ, zero, suc, ◌+◌, ◌-◌, ◌*◌, ◌/◌, ℤ, ltb_ℤ, String, Bool, true, false, not, ◌||◌, Option, none,
  some, List, [], ◌∷◌, if◌then◌else◌, ltb, leb, ◌==◌,
}
use fandos.Decimal.{Shopspring, sum, less_than, is_zero}
use fandos.Execution.Orders.{Side, long, short}

pub data ConfidenceLevel : Type 0 where
  confidence_none confidence_low confidence_medium confidence_high : ConfidenceLevel

-- The number of a level.
abbrev pub rank : ConfidenceLevel → ℕ
rank confidence_none = 0
rank confidence_low = 1
rank confidence_medium = 2
rank confidence_high = 3

-- `c--` on a level above none.
abbrev pub lower : ConfidenceLevel → ConfidenceLevel
lower confidence_none = confidence_none
lower confidence_low = confidence_none
lower confidence_medium = confidence_low
lower confidence_high = confidence_medium

unfoldable pub at_least : ConfidenceLevel → ConfidenceLevel → Bool
at_least c least = leb (rank least) (rank c)

-- `degradeConfidence`.
unfoldable pub degrade_confidence : ConfidenceLevel → ℕ → ConfidenceLevel
degrade_confidence c zero = c
degrade_confidence c (suc n) =
    let further = degrade_confidence (lower c) n in if leb (rank c) 0 then c else further

-- One payment that is expected; the rate is the predicted one.
pub record FundingEvent (D : Type 0) : Type 0 where
  pub exchange : String
  pub symbol : String
  pub leg_side : Side
  pub scheduled_at : ℕ
  pub funding_rate : D
  pub estimated_notional : D
  pub estimated_cash_flow : D
  pub confidence : ConfidenceLevel

pub record CalendarInput (D : Type 0) : Type 0 where
  pub exchange : String
  pub symbol : String
  pub side : Side
  pub predicted_rate : D
  pub funding_interval : ℕ
  pub next_funding_time : ℕ
  pub horizon : ℕ
  pub confidence : ConfidenceLevel
  pub notional : D

pub data IntervalClass : Type 0 where
  same_interval_aligned same_interval_unaligned different_interval : IntervalClass

-- `ClassifyInterval`; a time of zero is a missing one.
unfoldable pub classify_interval : ℕ → ℕ → ℕ → ℕ → ℕ → IntervalClass
classify_interval long_interval short_interval long_next short_next max_skew =
    let skew =
      if ltb long_next short_next then short_next - long_next else long_next - short_next in
    if not (long_interval == short_interval)
    then different_interval
    else if long_next == 0 || short_next == 0
    then same_interval_unaligned
    else if leb skew max_skew
    then same_interval_aligned
    else same_interval_unaligned

pub data Ineligibility : Type 0 where
  confidence_too_low too_late_to_enter net_pnl_too_low : Ineligibility

module _ (S : Shopspring) where
  open S use {Decimal, one, neg, mul, add, sub}

  -- `fundingCashFlow`.
  unfoldable pub funding_cash_flow : Side → Decimal → Decimal → Decimal
  funding_cash_flow long rate notional = mul (mul (neg one) rate) notional
  funding_cash_flow short rate notional = mul (mul one rate) notional

  unfoldable pub funding_event : CalendarInput Decimal → ℕ → ℕ → FundingEvent Decimal
  funding_event input t step = record {
    exchange = input.exchange;
    symbol = input.symbol;
    leg_side = input.side;
    scheduled_at = t;
    funding_rate = input.predicted_rate;
    estimated_notional = input.notional;
    estimated_cash_flow = funding_cash_flow input.side input.predicted_rate input.notional;
    confidence = degrade_confidence input.confidence step;
  }

  -- The loop, for at most so many events.
  unfoldable pub events_from : CalendarInput Decimal → ℕ → ℕ → ℕ → ℕ → List (FundingEvent Decimal)
  events_from input horizon_end zero t step = []
  events_from input horizon_end (suc fuel) t step =
      let further = events_from input horizon_end fuel (t + input.funding_interval) (step + 1) in
      if ltb horizon_end t then [] else funding_event input t step ∷ further

  -- `BuildFundingCalendar`. One event more than the horizon has units is enough.
  unfoldable pub build_funding_calendar : CalendarInput Decimal → ℕ → List (FundingEvent Decimal)
  unfolding events_from
  build_funding_calendar input now =
      if input.horizon == 0 || input.funding_interval == 0
      then []
      else if not (ltb now input.next_funding_time)
      then []
      else events_from input (now + input.horizon) (input.horizon + 1) input.next_funding_time 0

  -- `SumExpectedFundingCashFlow`, from a sum so far.
  unfoldable pub sum_cash_flow : Decimal → List (FundingEvent Decimal) → Decimal
  sum_cash_flow total [] = total
  sum_cash_flow total (e ∷ rest) = sum_cash_flow (add total e.estimated_cash_flow) rest

  pub record PnlInput : Type 0 where
    pub expected_funding_pnl : Decimal
    pub expected_basis_pnl : Decimal
    pub estimated_entry_fees : Decimal
    pub estimated_exit_fees : Decimal
    pub estimated_entry_slippage : Decimal
    pub estimated_exit_slippage : Decimal
    pub funding_uncertainty_reserve : Decimal
    pub basis_divergence_reserve : Decimal
    pub counterparty_risk_reserve : Decimal
    pub rebalance_cost_reserve : Decimal
    pub safety_reserve : Decimal

  -- The components that are shown: the two profits, and the others where they are not zero.
  abbrev pub shown : List (String × Decimal) → List (String × Decimal)
  shown [] = []
  shown ((name, value) ∷ rest) =
      let further = shown rest in if is_zero S value then further else (name, value) ∷ further

  -- `ExpectedNetPnL`: the net and the components.
  unfoldable pub expected_net_pnl : PnlInput → Decimal × List (String × Decimal)
  expected_net_pnl i = (
    sub (add i.expected_funding_pnl i.expected_basis_pnl) (
        sum S (
          i.estimated_entry_fees ∷ i.estimated_exit_fees ∷ i.estimated_entry_slippage
          ∷ i.estimated_exit_slippage ∷ i.funding_uncertainty_reserve ∷ i.basis_divergence_reserve
          ∷ i.counterparty_risk_reserve ∷ i.rebalance_cost_reserve ∷ i.safety_reserve ∷ [])),
    ("ExpectedFundingPnL", i.expected_funding_pnl)
        ∷ ("ExpectedBasisPnL", i.expected_basis_pnl)
        ∷ shown (
            ("EntryFees", neg i.estimated_entry_fees)
            ∷ ("ExitFees", neg i.estimated_exit_fees)
            ∷ ("EntrySlippage", neg i.estimated_entry_slippage)
            ∷ ("ExitSlippage", neg i.estimated_exit_slippage)
            ∷ ("FundingUncertaintyReserve", neg i.funding_uncertainty_reserve)
            ∷ ("BasisDivergenceReserve", neg i.basis_divergence_reserve)
            ∷ ("CounterpartyRiskReserve", neg i.counterparty_risk_reserve)
            ∷ ("RebalanceCostReserve", neg i.rebalance_cost_reserve)
            ∷ ("SafetyReserve", neg i.safety_reserve)
            ∷ []),
  )

  -- `CheckEligibility`; `none` is eligible. Times in seconds.
  unfoldable pub check_eligibility :
      Decimal → Decimal → ConfidenceLevel → ConfidenceLevel → ℤ → ℤ → Option Ineligibility
  unfolding at_least
  check_eligibility net min_net confidence min_confidence seconds min_seconds =
      if not (at_least confidence min_confidence)
      then some confidence_too_low
      else if ltb_ℤ seconds min_seconds
      then some too_late_to_enter
      else if less_than S net min_net
      then some net_pnl_too_low
      else none
