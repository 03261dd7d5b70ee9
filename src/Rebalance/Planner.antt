-- ===== src/Rebalance/Planner.antt =====
-- fandos1/internal/rebalance/planner.go. A map of equities is the list of its entries in the order of
-- Go's loop over it. The constants two and one hundred are sums of ones; the step of a cent, which is
-- no sum of ones, and the text of the reason are parameters.
pub mod Laws
use fandos.Prelude.{
  ℕ, String, ◌≡◌, Bool, true, false, not, ◌&&◌, ◌||◌, Option, none, some, ◌⊎◌, inl, inr, List, [],
  ◌∷◌, if◌then◌else◌, Dict, lookup,
}
use fandos.Decimal.{
  Shopspring, is_zero, is_negative, less_than, greater_than, less_than_or_equal, min, div, quantize,
}
use fandos.Rebalance.Plan.{PlanProposal}

pub record PlannerConfig (D : Type 0) : Type 0 where
  pub tolerance_pct : D
  pub min_transfer_usdt : D
  pub reserve_usdt : D

pub record Constants (D : Type 0) : Type 0 where
  -- `decimal.MustNew(1, -2)`.
  pub cent : D
  -- The text of the reason, from source, its equity, target, deficiency and amount.
  pub reason : String → D → D → D → D → String

pub data ProposeError : Type 0 where
  wrong_count : ProposeError
  negative_equity : String → ProposeError

-- One of the two exchanges, with its equity.
pub record Account (D : Type 0) : Type 0 where
  pub exchange : String
  pub equity : D

-- A proposal, or none; an error; or the panic of a division by zero.
abbrev pub ProposeResult : Type 0 → Type 0
ProposeResult D = Option (ProposeError ⊎ Option (PlanProposal D))

module _ (S : Shopspring) where
  open S use {Decimal, one, add, mul}

  abbrev pub two : Decimal
  two = add one one

  abbrev pub ten : Decimal
  ten = add (mul two (mul two two)) two

  abbrev pub hundred : Decimal
  hundred = mul ten ten

  -- `NewPlanner`; `none` is its error.
  unfoldable pub new_planner : PlannerConfig Decimal → Option (PlannerConfig Decimal)
  new_planner cfg =
      if is_negative S cfg.tolerance_pct
        || is_negative S cfg.min_transfer_usdt
        || is_negative S cfg.reserve_usdt
      then none
      else some cfg

module _ (S : Shopspring) (k : Constants S.Decimal) (cfg : PlannerConfig S.Decimal)
    (reserves : Dict S.Decimal) where
  open S use {Decimal, zero, add, sub, mul}

  abbrev pub nothing_to_do : ProposeResult Decimal
  nothing_to_do = some (inr none)

  -- The reserve of the source.
  abbrev pub reserve_of : Option Decimal → Decimal
  reserve_of none = cfg.reserve_usdt
  reserve_of (some r) = r

  -- Behind the rounding down to cents.
  unfoldable pub propose_quantized :
      Account Decimal
      → Account Decimal
      → Decimal
      → Option (Decimal × Decimal)
      → ProposeResult Decimal
  propose_quantized source dest target none = none
  propose_quantized source dest target (some (quantized, residue)) =
      if is_zero S quantized
      then nothing_to_do
      else if less_than S quantized cfg.min_transfer_usdt
      then nothing_to_do
      else some (
          inr (
            some (record {
              from_exchange = source.exchange;
              to_exchange = dest.exchange;
              asset = "USDT";
              gross_amount = quantized;
              reason =
                  k.reason source.exchange source.equity target (sub target dest.equity) quantized;
            })))

  -- The amount that both sides and the reserve allow.
  unfoldable pub capped_amount : Account Decimal → Account Decimal → Decimal → Decimal → Decimal
  capped_amount source dest target available =
      let amount = min S (sub source.equity target) (sub target dest.equity) in
      if greater_than S amount available then available else amount

  -- From the deficiency on.
  unfoldable pub propose_amount :
      Account Decimal → Account Decimal → Decimal → ProposeResult Decimal
  propose_amount source dest target =
      let available = sub source.equity (reserve_of (lookup source.exchange reserves)) in
      let amount = capped_amount source dest target available in
      if less_than_or_equal S available zero
      then nothing_to_do
      else if less_than S amount cfg.min_transfer_usdt || is_zero S amount
      then nothing_to_do
      else propose_quantized source dest target (quantize S amount k.cent)

  -- The test of the tolerance on the relative excess.
  unfoldable pub propose_relative :
      Account Decimal → Account Decimal → Decimal → Option Decimal → ProposeResult Decimal
  propose_relative source dest target none = none
  propose_relative source dest target (some relative) =
      if less_than S (mul relative (hundred S)) cfg.tolerance_pct
      then nothing_to_do
      else propose_amount source dest target

  -- From the source and the destination on.
  unfoldable pub propose_transfer :
      Account Decimal → Account Decimal → Decimal → ProposeResult Decimal
  propose_transfer source dest target =
      if is_zero S target
      then propose_amount source dest target
      else propose_relative source dest target (div S (sub source.equity target) target)

  -- From the target on.
  unfoldable pub propose_sides :
      Account Decimal → Account Decimal → Option Decimal → ProposeResult Decimal
  propose_sides a b none = none
  propose_sides a b (some target) =
      if greater_than S a.equity b.equity
      then propose_transfer a b target
      else propose_transfer b a target

  -- The sum of the equities, or the first exchange with a negative one.
  unfoldable pub total_of : Decimal → List (Account Decimal) → String ⊎ Decimal
  total_of total [] = inr total
  total_of total (a ∷ rest) =
      let further = total_of (add total a.equity) rest in
      if is_negative S a.equity then inl a.exchange else further

  unfoldable pub propose_total :
      Account Decimal → Account Decimal → String ⊎ Decimal → ProposeResult Decimal
  propose_total a b (inl exchange) = some (inl (negative_equity exchange))
  propose_total a b (inr total) =
      if is_zero S total then nothing_to_do else propose_sides a b (div S total (two S))

  -- `Propose`.
  unfoldable pub propose : List (Account Decimal) → ProposeResult Decimal
  propose (a ∷ b ∷ []) = propose_total a b (total_of zero (a ∷ b ∷ []))
  propose _ = some (inl wrong_count)
