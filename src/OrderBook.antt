-- ===== src/OrderBook.antt =====
-- fandos1/internal/orderbook/vwap.go, with PriceLevel of domain/market.go. Each division stands
-- behind the code's own test of its divisor, so it is the quotient of the interface. `bps` is the
-- decimal 10000.
pub mod Laws
pub mod Depth
mod Tests
use fandos.Prelude.{
  Bool, true, false, not, ◌&&◌, ◌||◌, Option, none, some, List, [], ◌∷◌, if◌then◌else◌,
}
use fandos.Decimal.{Shopspring, abs, is_zero, is_positive, greater_than, greater_than_or_equal}

pub record PriceLevel (D : Type 0) : Type 0 where
  pub price : D
  pub qty : D

pub record VwapResult (D : Type 0) : Type 0 where
  pub vwap : D
  pub filled_qty : D
  pub filled_value : D
  pub fully_filled : Bool

pub record Basis (D : Type 0) : Type 0 where
  pub basis : D
  pub long_vwap : D
  pub short_vwap : D

-- The three variables of the loop.
pub record Walk (D : Type 0) : Type 0 where
  pub value : D
  pub filled : D
  pub remaining : D

abbrev pub is_empty {ℓ} : {A : Type ℓ} → List A → Bool
is_empty [] = true
is_empty (x ∷ xs) = false

module _ (S : Shopspring) where
  open S use {Decimal, zero, one, add, sub, mul, quotient}

  abbrev pub empty_result : VwapResult Decimal
  empty_result = record {
    vwap = zero;
    filled_qty = zero;
    filled_value = zero;
    fully_filled = false;
  }

  unfoldable pub slippage_bps : Decimal → VwapResult Decimal → Decimal → Decimal
  slippage_bps bps r best =
      if is_zero S r.vwap || is_zero S best
      then zero
      else mul (quotient (abs S (sub r.vwap best)) best) bps

  -- What a level that is not skipped adds.
  unfoldable pub take_level : PriceLevel Decimal → Walk Decimal → Walk Decimal
  take_level level w =
      let take = if greater_than S level.qty w.remaining then w.remaining else level.qty in
      record {
        value = add w.value (mul level.price take);
        filled = add w.filled take;
        remaining = sub w.remaining take;
      }

  unfoldable pub walk_levels : List (PriceLevel Decimal) → Walk Decimal → Walk Decimal
  walk_levels [] w = w
  walk_levels (level ∷ levels) w =
      let skipped = walk_levels levels w in
      let taken = walk_levels levels (take_level level w) in
      if is_zero S w.remaining then w else if not (is_positive S level.qty) then skipped else taken

  -- The result behind the loop.
  unfoldable pub walked : Walk Decimal → VwapResult Decimal
  walked w = if is_zero S w.filled then empty_result else record {
    vwap = quotient w.value w.filled;
    filled_qty = w.filled;
    filled_value = w.value;
    fully_filled = is_zero S w.remaining;
  }

  unfoldable pub walk : List (PriceLevel Decimal) → Decimal → VwapResult Decimal
  walk levels requested =
      walked (walk_levels levels (record { value = zero; filled = zero; remaining = requested }))

  unfoldable pub vwap_buy : List (PriceLevel Decimal) → Decimal → VwapResult Decimal
  vwap_buy asks requested =
      if not (is_positive S requested) || is_empty asks then empty_result else walk asks requested

  unfoldable pub vwap_sell : List (PriceLevel Decimal) → Decimal → VwapResult Decimal
  vwap_sell bids requested =
      if not (is_positive S requested) || is_empty bids then empty_result else walk bids requested

  -- The basis of two results, with `ok` as an Option.
  abbrev pub basis_of :
      VwapResult Decimal
      → VwapResult Decimal
      → VwapResult Decimal
      → VwapResult Decimal
      → Option (Basis Decimal)
  basis_of over under lr sr =
      if not lr.fully_filled || not sr.fully_filled
      then none
      else if is_zero S under.vwap
      then none
      else some (record {
        basis = sub (quotient over.vwap under.vwap) one;
        long_vwap = lr.vwap;
        short_vwap = sr.vwap;
      })

  unfoldable pub entry_basis :
      List (PriceLevel Decimal) → List (PriceLevel Decimal) → Decimal → Option (Basis Decimal)
  entry_basis long_asks short_bids qty =
      let lr = vwap_buy long_asks qty in let sr = vwap_sell short_bids qty in basis_of sr lr lr sr

  unfoldable pub exit_basis :
      List (PriceLevel Decimal) → List (PriceLevel Decimal) → Decimal → Option (Basis Decimal)
  exit_basis long_bids short_asks qty =
      let lr = vwap_sell long_bids qty in let sr = vwap_buy short_asks qty in basis_of lr sr lr sr

  unfoldable pub depth_from : List (PriceLevel Decimal) → Decimal → Decimal → Bool
  depth_from [] qty total = false
  depth_from (level ∷ levels) qty total =
      let total' = add total level.qty in
      let deeper = depth_from levels qty total' in
      if greater_than_or_equal S total' qty then true else deeper

  unfoldable pub check_depth_sufficient : List (PriceLevel Decimal) → Decimal → Bool
  check_depth_sufficient levels qty = depth_from levels qty zero
