-- ===== src/Execution/Repair.antt =====
-- fandos1/internal/execution/repair.go: the repair of a mismatch between the legs.
pub mod Laws
use fandos.Prelude.{
  String, ◌≡◌, Bool, true, false, not, ◌||◌, Option, none, some, inl, inr, if◌then◌else◌,
}
use fandos.Decimal.{
  Shopspring, abs, min, greater_than, is_zero, is_negative, is_positive, less_than_or_equal,
}
use fandos.Execution.Orders.{
  Side, long, short, market, ioc, ExchangeError, Adapter, Requests, Placed, place,
}

pub data RepairAction : Type 0 where
  repair_none top_up_short_leg reduce_excess halt_and_degraded : RepairAction

pub data RepairReason : Type 0 where
  within_tolerance short_leg_underfilled long_leg_underfilled : RepairReason
  top_up_failed top_up_succeeded top_up_partial : RepairReason

pub record RepairDecision (D : Type 0) : Type 0 where
  pub action : RepairAction
  pub shortfall_qty : D
  pub excess_qty : D
  pub common_qty : D
  pub reason : RepairReason

pub record TopUpResult (D : Type 0) : Type 0 where
  pub success : Bool
  pub filled_qty : D
  pub new_long_qty : D
  pub new_short_qty : D

pub record ReduceExcessRequest (D : Type 0) : Type 0 where
  pub symbol : String
  pub excess_qty : D
  pub side : Side

unfoldable pub reduce_excess_action : Side → Side
reduce_excess_action long = short
reduce_excess_action short = long

module _ (S : Shopspring) where
  open S use {Decimal, zero, sub}

  unfoldable pub analyze_mismatch : Decimal → Decimal → Decimal → RepairDecision Decimal
  analyze_mismatch long_filled short_filled tolerance =
      if less_than_or_equal S (abs S (sub long_filled short_filled)) tolerance
      then record {
        action = repair_none;
        shortfall_qty = zero;
        excess_qty = zero;
        common_qty = min S long_filled short_filled;
        reason = within_tolerance;
      }
      else if greater_than S long_filled short_filled
      then record {
        action = top_up_short_leg;
        shortfall_qty = sub long_filled short_filled;
        excess_qty = zero;
        common_qty = short_filled;
        reason = short_leg_underfilled;
      }
      else record {
        action = top_up_short_leg;
        shortfall_qty = sub short_filled long_filled;
        excess_qty = zero;
        common_qty = long_filled;
        reason = long_leg_underfilled;
      }

  -- Where the top-up has not succeeded.
  unfoldable pub top_up_not_done :
      RepairDecision Decimal → TopUpResult Decimal → RepairDecision Decimal
  top_up_not_done decision top_up =
      let excess = sub decision.shortfall_qty top_up.filled_qty in
      record {
        action = reduce_excess;
        shortfall_qty = zero;
        excess_qty = if is_negative S excess then zero else excess;
        common_qty = min S top_up.new_long_qty top_up.new_short_qty;
        reason = top_up_failed;
      }

  unfoldable pub apply_top_up :
      RepairDecision Decimal → TopUpResult Decimal → Decimal → RepairDecision Decimal
  unfolding top_up_not_done
  apply_top_up decision top_up tolerance =
      let diff = abs S (sub top_up.new_long_qty top_up.new_short_qty) in
      if not top_up.success || is_zero S top_up.filled_qty
      then top_up_not_done decision top_up
      else if less_than_or_equal S diff tolerance
      then record {
        action = repair_none;
        shortfall_qty = zero;
        excess_qty = zero;
        common_qty = min S top_up.new_long_qty top_up.new_short_qty;
        reason = top_up_succeeded;
      }
      else record {
        action = reduce_excess;
        shortfall_qty = zero;
        excess_qty = diff;
        common_qty = min S top_up.new_long_qty top_up.new_short_qty;
        reason = top_up_partial;
      }

  unfoldable pub place_reduce_order :
      Adapter Decimal
      → ReduceExcessRequest Decimal
      → String
      → Requests Decimal
      → Option ExchangeError × Requests Decimal
  place_reduce_order adapter req client_id t =
      let (r, t') =
        place S adapter
          (record {
            client_order_id = client_id;
            symbol = req.symbol;
            side = req.side;
            order_mode = market;
            base_qty = req.excess_qty;
            price = zero;
            reduce_only = true;
            post_only = false;
            time_in_force = ioc;
          })
          t in
      if not (is_positive S req.excess_qty)
      then (none, t)
      else (elim r [ inl x ↦ none | inr e ↦ some e ], t')
