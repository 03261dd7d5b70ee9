-- ===== src/Risk/Tests.antt =====
-- A position that is near its liquidation on one exchange.
use fandos.Prelude.{String, pos, ℤ, true, Bool, [], ◌∷◌, str_eq}
use fandos.Decimal.Example.{integers}
use fandos.Risk.{Limits, PositionInput, check_position}
use fandos.Risk.Laws.{Says, is_broken, check_position-Says}

abbrev position : PositionInput ℤ
position = record {
  asset = "BTC";
  long_exchange = "okx";
  short_exchange = "gate";
  long_base_qty = pos 5;
  short_base_qty = pos 5;
  mark_price = pos 100;
  unrealized_pnl = pos 0;
  margin_ratio_per_leg = ("okx", pos 1) ∷ ("gate", pos 2) ∷ [];
  liquidation_distance_percent = ("okx", pos 30) ∷ ("gate", pos 4) ∷ [];
}

abbrev limits : Limits ℤ
limits = record {
  delta_tolerance_base = pos 0;
  delta_tolerance_usd = pos 10;
  max_daily_loss_usdt = pos 100;
  max_position_loss_usdt = pos 50;
  minimum_distance_to_liquidation_percent = pos 10;
  emergency_margin_ratio = pos 9;
  risk_snap_after_max_daily_loss = true;
}

abbrev gate_first : String → String → Bool
gate_first a b = str_eq a "gate"

check_position-Says_example :
    Says
      (is_broken integers position limits)
      (check_position integers gate_first position limits).violations
check_position-Says_example = check_position-Says integers gate_first position limits
