-- ===== src/Allocation/Plans.antt =====
-- A whole plan of the allocator in fandos1/internal/allocation/allocator.go.
use fandos.Prelude.{
  String, ◌≡◌, refl, ap, true, false, not, ◌&&◌, some, inr, List, [], ◌∷◌, arith, if-both, str_eq,
  lookup, All,
}
use fandos.Decimal.{Shopspring, is_positive, is_zero, greater_than}
use fandos.Decimal.Order.{add_le_of_le_sub_add}
use fandos.Allocation.{
  CandidateRequest, Limits, Rejection, Allocation, Spent, get, exchange_left, is_exhausted,
  allowed_notional, granted_qty, charge, grant, allocate_one, allocate_all, put_by_score,
  sort_by_score, allocate, Plan,
}
use fandos.Allocation.Grants.{allowed_notional-IsAllowed, IsNear, granted_le}
use fandos.Allocation.Within.{
  exposure, asset_exposure, whole_exposure, Keeps, IsMove, still, IsMove-trans, IsRound,
  rejected-IsRound, loosened, charge-on_exchange, charge-on_asset,
}

module _ (S : Shopspring) (slack : S.Decimal) where
  open S use {Decimal, zero, add, sub, mul, le, le_trans, add_mono, add_comm}

  -- What a plan takes, but for the slack, of every limit that applies to an exchange and to an asset, and of the budget.
  pub record IsWithin (limits : Limits Decimal) (ex asset : String) (p : Plan Decimal)
      : Type 0 where
    pub on_exchange :
        let used = get S ex limits.current_exposure in
        Keeps S slack (lookup ex limits.max_exposure) used (add used (exposure S ex p.allocations))
    pub on_asset :
        let used = get S asset limits.current_correlated in
        Keeps S slack
          (lookup asset limits.max_correlated)
          used
          (add used (asset_exposure S asset p.allocations))
    pub in_budget :
        let used = limits.current_total in
        Keeps S slack (some limits.total_budget) used (add used (whole_exposure S p.allocations))
    pub rest :
        p.remaining_budget
        ≡ sub limits.total_budget (add limits.current_total (whole_exposure S p.allocations))

  -- The price of a request is so low that the rounding of a quantity stays within the slack.
  abbrev pub IsCheap : Decimal → CandidateRequest Decimal → Type 0
  IsCheap ulp req = le (mul ulp req.notional_per_unit) slack ≡ true

  -- Sorting keeps a property of all requests.
  put_by_score-All :
      (P : CandidateRequest Decimal → Type 0) (req : CandidateRequest Decimal)
      (rest : List (CandidateRequest Decimal))
      → P req
      → All P rest
      → All P (put_by_score S req rest)
  unfolding put_by_score
  put_by_score-All P req [] h hs = (h, tt)
  put_by_score-All P req (other ∷ rest) h hs =
      if-both (All P) (greater_than S other.composite_score req.composite_score)
        (λ e. (hs.0, put_by_score-All P req rest h hs.1)) (λ e. (h, hs))

  sort_by_score-All :
      (P : CandidateRequest Decimal → Type 0) (requests : List (CandidateRequest Decimal))
      → All P requests
      → All P (sort_by_score S requests)
  unfolding sort_by_score
  sort_by_score-All P [] hs = tt
  sort_by_score-All P (req ∷ rest) hs =
      put_by_score-All P req (sort_by_score S rest) hs.0 (sort_by_score-All P rest hs.1)

  module _ (limits : Limits Decimal) (ex asset : String) (ulp : Decimal) (near : IsNear S ulp) where
    granted-IsRound :
        (req : CandidateRequest Decimal) (b : Spent Decimal)
        → is_positive S req.desired_qty ≡ true
        → is_zero S req.notional_per_unit ≡ false
        → is_positive S (allowed_notional S limits req b) ≡ true
        → IsCheap ulp req
        → let r = grant S limits req (allowed_notional S limits req b) b in
          IsRound S slack limits ex asset b r.1 r.0
    unfolding grant charge
    granted-IsRound req b hq hu ha cheap =
        let amount = allowed_notional S limits req b in
        let allowed = allowed_notional-IsAllowed S limits req b in
        let n = mul (granted_qty S limits req amount) req.notional_per_unit in
        let more = mul ulp req.notional_per_unit in
        let few : le n (add amount slack) ≡ true =
          le_trans n (add amount more) (add amount slack)
            (granted_le S ulp near limits req amount hq hu ha allowed.wanted)
            (cc (add_mono more slack amount cheap, add_comm more amount, add_comm slack amount)) in
        record {
          on_exchange = charge-on_exchange S slack limits ex asset req b amount n allowed few;
          on_asset = charge-on_asset S slack limits ex asset req b amount n allowed few;
          in_budget = record {
            sum = refl;
            keeps = inr (
                add_le_of_le_sub_add S b.total n limits.total_budget slack (
                  loosened S slack n amount (sub limits.total_budget b.total) few
                    allowed.in_budget));
          };
        }

    allocate_one-IsRound :
        (req : CandidateRequest Decimal) (b : Spent Decimal)
        → IsCheap ulp req
        → let r = allocate_one S limits req b in IsRound S slack limits ex asset b r.1 r.0
    unfolding allocate_one
    allocate_one-IsRound req b cheap =
        let Fine : Allocation Decimal × Spent Decimal → Type 0 =
          λ r. IsRound S slack limits ex asset b r.1 r.0 in
        let allowed = allowed_notional S limits req b in
        if-both Fine (not (is_positive S req.desired_qty))
          (λ e. rejected-IsRound S slack limits ex asset req Rejection.non_positive_qty b)
          (λ q.
            if-both Fine (not (is_positive S req.composite_score))
              (λ e. rejected-IsRound S slack limits ex asset req Rejection.non_positive_score b)
              (λ c.
                if-both Fine (is_zero S req.notional_per_unit)
                  (λ e. rejected-IsRound S slack limits ex asset req Rejection.zero_notional b)
                  (λ u.
                    if-both Fine (is_exhausted S (exchange_left S limits req.long_exchange b))
                      (λ e.
                        rejected-IsRound S slack limits ex asset req
                          (Rejection.over_exchange req.long_exchange) b)
                      (λ l.
                        if-both Fine
                          (not (str_eq req.long_exchange req.short_exchange)
                            && is_exhausted S (exchange_left S limits req.short_exchange b))
                          (λ e.
                            rejected-IsRound S slack limits ex asset req
                              (Rejection.over_exchange req.short_exchange) b)
                          (λ s.
                            if-both Fine (not (is_positive S allowed))
                              (λ e.
                                rejected-IsRound S slack limits ex asset req Rejection.no_budget b)
                              (λ p.
                                granted-IsRound req b (ground arith) u (ground arith) cheap))))))

    -- What the loop takes.
    record IsRun (b b' : Spent Decimal) (allocations : List (Allocation Decimal)) : Type 0 where
      pub on_exchange :
          IsMove S slack
            (lookup ex limits.max_exposure)
            (get S ex b.by_exchange)
            (get S ex b'.by_exchange)
            (exposure S ex allocations)
      pub on_asset :
          IsMove S slack
            (lookup asset limits.max_correlated)
            (get S asset b.by_asset)
            (get S asset b'.by_asset)
            (asset_exposure S asset allocations)
      pub in_budget :
          IsMove S slack (some limits.total_budget) b.total b'.total (whole_exposure S allocations)

    allocate_all-IsRun :
        (requests : List (CandidateRequest Decimal)) (b : Spent Decimal)
        → All (IsCheap ulp) requests
        → let r = allocate_all S limits requests b in IsRun b r.1 r.0
    unfolding allocate_all
    allocate_all-IsRun [] b cheap = record {
      on_exchange = still S slack (lookup ex limits.max_exposure) _ zero refl;
      on_asset = still S slack (lookup asset limits.max_correlated) _ zero refl;
      in_budget = still S slack (some limits.total_budget) b.total zero refl;
    }
    allocate_all-IsRun (req ∷ rest) b cheap =
        let b' = (allocate_one S limits req b).1 in
        let first = allocate_one-IsRound req b cheap.0 in
        let further = allocate_all-IsRun rest b' cheap.1 in
        record {
          on_exchange =
              IsMove-trans S slack (lookup ex limits.max_exposure) _ _ _ _ _ first.on_exchange
                further.on_exchange;
          on_asset =
              IsMove-trans S slack (lookup asset limits.max_correlated) _ _ _ _ _ first.on_asset
                further.on_asset;
          in_budget =
              IsMove-trans S slack (some limits.total_budget) _ _ _ _ _ first.in_budget
                further.in_budget;
        }

    -- A plan stays within every limit but for the slack: with what is in use before it, it takes of the
    -- limit of an exchange (both legs on it counted once), of the limit of an asset and of the budget
    -- together at most the limit and once the slack, or it takes nothing of it; and the remaining budget
    -- is what the allocations leave. This holds where a quotient exceeds the exact one by at most `ulp`
    -- and the price of every request is at most the slack in units of `ulp`: the excess of a plan is the
    -- rounding of one quantity, not the sum over its allocations.
    pub allocate-IsWithin :
        (requests : List (CandidateRequest Decimal))
        → All (IsCheap ulp) requests
        → IsWithin limits ex asset (allocate S requests limits)
    unfolding allocate
    allocate-IsWithin requests cheap =
        let start : Spent Decimal = record {
          by_exchange = limits.current_exposure;
          by_asset = limits.current_correlated;
          total = limits.current_total;
        } in
        let done =
          allocate_all-IsRun (sort_by_score S requests) start
            (sort_by_score-All (IsCheap ulp) requests cheap) in
        record {
          on_exchange = rw⁻¹ done.on_exchange.sum done.on_exchange.keeps;
          on_asset = rw⁻¹ done.on_asset.sum done.on_asset.keeps;
          in_budget = rw⁻¹ done.in_budget.sum done.in_budget.keeps;
          rest = ap (sub limits.total_budget) done.in_budget.sum;
        }
