-- ===== src/Allocation.antt =====
-- fandos1/internal/allocation/allocator.go: how the candidates share the capital.
pub mod Grants
pub mod Within
pub mod Plans
mod Tests
use fandos.Prelude.{
  String, Bool, true, false, not, ◌&&◌, ◌||◌, Option, none, some, List, [], ◌∷◌, if◌then◌else◌,
  str_eq, Dict, lookup, insert,
}
use fandos.Decimal.{Shopspring, is_positive, is_zero, less_than, greater_than}

pub record CandidateRequest (D : Type 0) : Type 0 where
  pub id : String
  pub asset : String
  pub long_exchange : String
  pub short_exchange : String
  pub composite_score : D
  pub desired_qty : D
  pub notional_per_unit : D

pub record Limits (D : Type 0) : Type 0 where
  pub max_exposure : Dict D
  pub current_exposure : Dict D
  pub max_correlated : Dict D
  pub current_correlated : Dict D
  pub total_budget : D
  pub current_total : D

pub data Rejection : Type 0 where
  non_positive_qty non_positive_score zero_notional no_budget : Rejection
  over_exchange : String → Rejection

-- `rejected` has the reason where the request is rejected.
pub record Allocation (D : Type 0) : Type 0 where
  pub request : CandidateRequest D
  pub allocated_qty : D
  pub allocated_notional : D
  pub rejected : Option Rejection

-- What is spent of the limits.
pub record Spent (D : Type 0) : Type 0 where
  pub by_exchange : Dict D
  pub by_asset : Dict D
  pub total : D

pub record Plan (D : Type 0) : Type 0 where
  pub allocations : List (Allocation D)
  pub total_allocated : D
  pub remaining_budget : D

module _ (S : Shopspring) where
  open S use {Decimal, zero, add, sub, mul, quotient}

  -- A map of decimals at a key, which is zero where the key is missing.
  abbrev pub or_zero : Option Decimal → Decimal
  or_zero none = zero
  or_zero (some x) = x

  abbrev pub get : String → Dict Decimal → Decimal
  get key m = or_zero (lookup key m)

  -- What a limit leaves; `none` where there is no limit.
  abbrev pub left_of : Option Decimal → Decimal → Option Decimal
  left_of none used = none
  left_of (some cap) used = some (sub cap used)

  -- The smaller of an amount and what a limit leaves.
  abbrev pub lowered : Decimal → Option Decimal → Decimal
  lowered amount none = amount
  lowered amount (some available) = if less_than S available amount then available else amount

  abbrev pub is_exhausted : Option Decimal → Bool
  is_exhausted none = false
  is_exhausted (some available) = not (is_positive S available)

  abbrev pub reject : CandidateRequest Decimal → Rejection → Allocation Decimal
  reject req reason = record {
    request = req;
    allocated_qty = zero;
    allocated_notional = zero;
    rejected = some reason;
  }

  abbrev pub spend : String → Decimal → Dict Decimal → Dict Decimal
  spend key amount used = insert key (add (get key used) amount) used

  module _ (limits : Limits Decimal) where
    abbrev pub exchange_left : String → Spent Decimal → Option Decimal
    exchange_left ex b = left_of (lookup ex limits.max_exposure) (get ex b.by_exchange)

    abbrev pub asset_left : String → Spent Decimal → Option Decimal
    asset_left asset b = left_of (lookup asset limits.max_correlated) (get asset b.by_asset)

    -- The smallest of the amount that is asked for and what the limits leave.
    unfoldable pub allowed_notional : CandidateRequest Decimal → Spent Decimal → Decimal
    allowed_notional req b =
        let desired = mul req.desired_qty req.notional_per_unit in
        let for_long = lowered desired (exchange_left req.long_exchange b) in
        let for_both =
          if str_eq req.long_exchange req.short_exchange
          then for_long
          else lowered for_long (exchange_left req.short_exchange b) in
        let for_asset = lowered for_both (asset_left req.asset b) in
        lowered for_asset (some (sub limits.total_budget b.total))

    -- The quantity for an amount; the price of a unit is not zero here.
    unfoldable pub granted_qty : CandidateRequest Decimal → Decimal → Decimal
    granted_qty req allowed =
        let qty = quotient allowed req.notional_per_unit in
        if greater_than S qty req.desired_qty then req.desired_qty else qty

    unfoldable pub charge : CandidateRequest Decimal → Decimal → Spent Decimal → Spent Decimal
    charge req notional b =
        let on_long = spend req.long_exchange notional b.by_exchange in
        record {
          by_exchange =
              if str_eq req.long_exchange req.short_exchange
              then on_long
              else spend req.short_exchange notional on_long;
          by_asset = spend req.asset notional b.by_asset;
          total = add b.total notional;
        }

    unfoldable pub grant :
        CandidateRequest Decimal → Decimal → Spent Decimal → Allocation Decimal × Spent Decimal
    grant req allowed b =
        let qty = granted_qty req allowed in
        let notional = mul qty req.notional_per_unit in
        (
          record {
            request = req;
            allocated_qty = qty;
            allocated_notional = notional;
            rejected = none;
          },
          charge req notional b,
        )

    -- One round of the loop.
    unfoldable pub allocate_one :
        CandidateRequest Decimal → Spent Decimal → Allocation Decimal × Spent Decimal
    allocate_one req b =
        let allowed = allowed_notional req b in
        if not (is_positive S req.desired_qty)
        then (reject req non_positive_qty, b)
        else if not (is_positive S req.composite_score)
        then (reject req non_positive_score, b)
        else if is_zero S req.notional_per_unit
        then (reject req zero_notional, b)
        else if is_exhausted (exchange_left req.long_exchange b)
        then (reject req (over_exchange req.long_exchange), b)
        else if not (str_eq req.long_exchange req.short_exchange)
            && is_exhausted (exchange_left req.short_exchange b)
        then (reject req (over_exchange req.short_exchange), b)
        else if not (is_positive S allowed)
        then (reject req no_budget, b)
        else grant req allowed b

    -- The loop, with the allocations in order and what is spent in the end.
    unfoldable pub allocate_all :
        List (CandidateRequest Decimal) → Spent Decimal → List (Allocation Decimal) × Spent Decimal
    unfolding allocate_one
    allocate_all [] b = ([], b)
    allocate_all (req ∷ rest) b =
        let (a, b') = allocate_one req b in
        let (as', last) = allocate_all rest b' in (a ∷ as', last)

  -- The stable sort by falling score.
  unfoldable pub put_by_score :
      CandidateRequest Decimal → List (CandidateRequest Decimal) → List (CandidateRequest Decimal)
  put_by_score req [] = req ∷ []
  put_by_score req (other ∷ rest) =
      let behind = put_by_score req rest in
      if greater_than S other.composite_score req.composite_score
      then other ∷ behind
      else req ∷ other ∷ rest

  unfoldable pub sort_by_score : List (CandidateRequest Decimal) → List (CandidateRequest Decimal)
  unfolding put_by_score
  sort_by_score [] = []
  sort_by_score (req ∷ rest) = put_by_score req (sort_by_score rest)

  -- The sum of what is allocated.
  unfoldable pub total_notional : Decimal → List (Allocation Decimal) → Decimal
  total_notional total [] = total
  total_notional total (a ∷ rest) = total_notional (add total a.allocated_notional) rest

  -- `Allocate`.
  unfoldable pub allocate : List (CandidateRequest Decimal) → Limits Decimal → Plan Decimal
  unfolding allocate_all sort_by_score
  allocate requests limits =
      let (allocations, last) = allocate_all limits (sort_by_score requests) (record {
        by_exchange = limits.current_exposure;
        by_asset = limits.current_correlated;
        total = limits.current_total;
      }) in
      record {
        allocations = allocations;
        total_allocated = total_notional zero allocations;
        remaining_budget = sub limits.total_budget last.total;
      }
