-- ===== src/Allocation/Grants.antt =====
-- What one grant of the allocator in fandos1/internal/allocation/allocator.go takes.
use fandos.Prelude.{
  String, ◌≡◌, ap, ◌∙◌, true, false, Option, none, some, inl, inr, arith, Bool-cases, if-both,
  if◌then◌else◌, str_eq, eq_iff, Dict, lookup, lookup-insert,
}
use fandos.Decimal.{Shopspring, is_positive, is_zero, less_than, greater_than}
use fandos.Decimal.Order.{le_refl, le_of_not_le, mul-zero}
use fandos.Allocation.{
  CandidateRequest, Limits, Spent, or_zero, get, left_of, lowered, spend, exchange_left, asset_left,
  allowed_notional, granted_qty,
}

module _ (S : Shopspring) where
  open S use {
    Decimal, zero, add, sub, mul, quotient, le, le_trans, le_antisymm, mul_comm, mul-add, mul_mono,
    add-zero,
  }

  lowered_le : (a : Decimal) (l : Option Decimal) → le (lowered S a l) a ≡ true
  lowered_le a none = le_refl S a
  lowered_le a (some available) =
      if-both (λ x. le x a ≡ true) (less_than S available a)
        (λ e. le_of_not_le S a available (ground arith)) (λ e. le_refl S a)

  lowered_left : (a available : Decimal) → le (lowered S a (some available)) available ≡ true
  lowered_left a available =
      if-both (λ x. le x available ≡ true) (less_than S available a) (λ e. le_refl S available)
        (λ e. ground arith)

  -- A map of decimals at a key behind a payment.
  pub get-spend :
      (key asked : String) (amount : Decimal) (m : Dict Decimal)
      → get S asked (spend S key amount m)
        ≡ (if str_eq key asked then add (get S asked m) amount else get S asked m)
  get-spend key asked amount m =
      let looked = lookup-insert key asked (add (get S key m) amount) m in
      elim (Bool-cases (str_eq key asked)) [
        | inl e ↦
            let same = (eq_iff key asked).0 e in
            rw e (ap (or_zero S) (rw e at looked) ∙ ap (λ k. add (get S k m) amount) same)
        | inr e ↦ rw e (ap (or_zero S) (rw e at looked))
      ]

  module _ (limits : Limits Decimal) where
    -- What is allowed is within everything that limits it.
    pub record IsAllowed (req : CandidateRequest Decimal) (b : Spent Decimal) (amount : Decimal)
        : Type 0 where
      pub wanted : le amount (mul req.desired_qty req.notional_per_unit) ≡ true
      pub on_long :
          (cap : Decimal)
          → lookup req.long_exchange limits.max_exposure ≡ some cap
          → le amount (sub cap (get S req.long_exchange b.by_exchange)) ≡ true
      pub on_short :
          (cap : Decimal)
          → lookup req.short_exchange limits.max_exposure ≡ some cap
          → le amount (sub cap (get S req.short_exchange b.by_exchange)) ≡ true
      pub on_asset :
          (cap : Decimal)
          → lookup req.asset limits.max_correlated ≡ some cap
          → le amount (sub cap (get S req.asset b.by_asset)) ≡ true
      pub in_budget : le amount (sub limits.total_budget b.total) ≡ true

    lowered_limit :
        (a used cap : Decimal) (limit : Option Decimal)
        → limit ≡ some cap
        → le (lowered S a (left_of S limit used)) (sub cap used) ≡ true
    lowered_limit a used cap limit h = rw h (lowered_left a (sub cap used))

    lowered_same :
        (a : Decimal) (b : Spent Decimal) (ex ex' : String) (cap : Decimal)
        → ex ≡ ex'
        → lookup ex' limits.max_exposure ≡ some cap
        → le (lowered S a (exchange_left S limits ex b)) (sub cap (get S ex' b.by_exchange)) ≡ true
    lowered_same a b ex ex' cap same h =
        rw same (lowered_limit a (get S ex' b.by_exchange) cap (lookup ex' limits.max_exposure) h)

    pub allowed_notional-IsAllowed :
        (req : CandidateRequest Decimal) (b : Spent Decimal)
        → IsAllowed req b (allowed_notional S limits req b)
    unfolding allowed_notional
    allowed_notional-IsAllowed req b =
        let desired = mul req.desired_qty req.notional_per_unit in
        let long_left = exchange_left S limits req.long_exchange b in
        let short_left = exchange_left S limits req.short_exchange b in
        let for_long = lowered S desired long_left in
        let for_short = lowered S for_long short_left in
        let both = if str_eq req.long_exchange req.short_exchange then for_long else for_short in
        let for_asset = lowered S both (asset_left S limits req.asset b) in
        let last = lowered S for_asset (some (sub limits.total_budget b.total)) in
        let by_both : le last both ≡ true =
          le_trans last for_asset both
            (lowered_le for_asset (some (sub limits.total_budget b.total)))
            (lowered_le both (asset_left S limits req.asset b)) in
        let by_long : le last for_long ≡ true = le_trans last both for_long by_both (
          if-both (λ x. le x for_long ≡ true) (str_eq req.long_exchange req.short_exchange)
            (λ e. le_refl S for_long) (λ e. lowered_le for_long short_left)) in
        record {
          wanted = le_trans last for_long desired by_long (lowered_le desired long_left);
          on_long = λ cap h.
              le_trans last for_long (sub cap (get S req.long_exchange b.by_exchange)) by_long (
                lowered_limit desired (get S req.long_exchange b.by_exchange) cap
                  (lookup req.long_exchange limits.max_exposure) h);
          on_short = λ cap h.
              le_trans last both (sub cap (get S req.short_exchange b.by_exchange)) by_both (
                if-both (λ x. le x (sub cap (get S req.short_exchange b.by_exchange)) ≡ true)
                  (str_eq req.long_exchange req.short_exchange)
                  (λ e.
                    lowered_same desired b req.long_exchange req.short_exchange cap
                      ((eq_iff req.long_exchange req.short_exchange).0 e) h)
                  (λ e.
                    lowered_limit for_long (get S req.short_exchange b.by_exchange) cap
                      (lookup req.short_exchange limits.max_exposure) h));
          on_asset = λ cap h.
              le_trans last for_asset (sub cap (get S req.asset b.by_asset))
                (lowered_le for_asset (some (sub limits.total_budget b.total)))
                (lowered_limit both (get S req.asset b.by_asset) cap
                  (lookup req.asset limits.max_correlated) h);
          in_budget = lowered_left for_asset (sub limits.total_budget b.total);
        }

  -- A quotient exceeds the exact one by at most `ulp`, a unit of its last digit.
  abbrev pub IsNear : Decimal → Type 0
  IsNear ulp =
      (a u : Decimal)
      → le zero a ≡ true
      → le zero u ≡ true
      → is_zero S u ≡ false
      → le (mul (quotient a u) u) (add a (mul ulp u)) ≡ true

  module _ (ulp : Decimal) (near : IsNear ulp) where
    -- The price of what is granted is positive.
    price_nonneg :
        (qty unit amount : Decimal)
        → is_positive S qty ≡ true
        → is_positive S amount ≡ true
        → le amount (mul qty unit) ≡ true
        → le zero unit ≡ true
    price_nonneg qty unit amount hq ha h = elim (Bool-cases (le zero unit)) [
      | inl e ↦ e
      | inr e ↦
          let below : le (mul qty unit) (mul qty zero) ≡ true =
            mul_mono qty unit zero (le_of_not_le S qty zero (ground arith))
              (le_of_not_le S zero unit e) in
          let none_left : le amount zero ≡ true =
            le_trans amount (mul qty unit) zero h (cc (below, mul-zero S qty)) in
          ground arith
    ]

    -- What is granted costs no more than what is allowed and `ulp` of the price.
    pub granted_le :
        (limits : Limits Decimal) (req : CandidateRequest Decimal) (amount : Decimal)
        → is_positive S req.desired_qty ≡ true
        → is_zero S req.notional_per_unit ≡ false
        → is_positive S amount ≡ true
        → le amount (mul req.desired_qty req.notional_per_unit) ≡ true
        → le
            (mul (granted_qty S limits req amount) req.notional_per_unit)
            (add amount (mul ulp req.notional_per_unit))
          ≡ true
    unfolding granted_qty
    granted_le limits req amount hq hu ha h =
        let unit = req.notional_per_unit in
        let qty = quotient amount unit in
        let price = price_nonneg req.desired_qty unit amount hq ha h in
        let paid = near amount unit (le_of_not_le S amount zero (ground arith)) price hu in
        if-both (λ x. le (mul x unit) (add amount (mul ulp unit)) ≡ true)
          (greater_than S qty req.desired_qty)
          (λ e.
            let fewer = le_of_not_le S qty req.desired_qty (ground arith) in
            let cheaper = mul_mono unit req.desired_qty qty price fewer in
            le_trans (mul req.desired_qty unit) (mul qty unit) (add amount (mul ulp unit))
              (cc (cheaper, mul_comm unit req.desired_qty, mul_comm unit qty)) paid)
          (λ e. paid)
