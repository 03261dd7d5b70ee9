-- ===== src/Allocation/Within.antt =====
-- What a plan of the allocator in fandos1/internal/allocation/allocator.go takes of every limit.
use fandos.Prelude.{
  String, ◌≡◌, refl, sym, ap, ◌∙◌, Bool, true, false, ◌||◌, Option, none, some, ◌⊎◌, inl, inr, List,
  [], ◌∷◌, arith, Bool-cases, if-both, if◌then◌else◌, str_eq, eq_iff, Dict, lookup,
}
use fandos.Decimal.{Shopspring}
use fandos.Decimal.Order.{add_le_of_le_sub_add}
use fandos.Allocation.{
  CandidateRequest, Limits, Rejection, Allocation, Spent, get, reject, charge, spend,
}
use fandos.Allocation.Grants.{get-spend, IsAllowed}

-- A request that takes capital on an exchange.
abbrev pub touches : {D : Type 0} → String → CandidateRequest D → Bool
touches ex req = str_eq req.long_exchange ex || str_eq req.short_exchange ex

module _ (S : Shopspring) where
  open S use {Decimal, zero, add}

  -- What an allocation takes of a limit.
  abbrev pub share : Bool → Allocation Decimal → Decimal
  share b a = if b then a.allocated_notional else zero

  abbrev pub exposure : String → List (Allocation Decimal) → Decimal
  exposure ex [] = zero
  exposure ex (a ∷ rest) = add (share (touches ex a.request) a) (exposure ex rest)

  abbrev pub asset_exposure : String → List (Allocation Decimal) → Decimal
  asset_exposure asset [] = zero
  asset_exposure asset (a ∷ rest) =
      add (share (str_eq a.request.asset asset) a) (asset_exposure asset rest)

  abbrev pub whole_exposure : List (Allocation Decimal) → Decimal
  whole_exposure [] = zero
  whole_exposure (a ∷ rest) = add a.allocated_notional (whole_exposure rest)

-- Limits hold but for a slack, which is for the rounding of a quantity.
module _ (S : Shopspring) (slack : S.Decimal) where
  open S use {Decimal, zero, add, sub, le, le_trans, add-zero, add_assoc, add_mono}

  -- A limit holds, but for the slack, for what was spent before and what is added, or nothing is added.
  abbrev pub Keeps : Option Decimal → Decimal → Decimal → Type 0
  Keeps none before after = Unit
  Keeps (some cap) before after = (after ≡ before) ⊎ (le after (add cap slack) ≡ true)

  pub record IsMove (limit : Option Decimal) (before after amount : Decimal) : Type 0 where
    pub sum : after ≡ add before amount
    pub keeps : Keeps limit before after

  pub still : (limit : Option Decimal) (a x : Decimal) → x ≡ zero → IsMove limit a a x
  still none a x h = record { sum = rw (h, add-zero a) refl; keeps = tt }
  still (some cap) a x h = record { sum = rw (h, add-zero a) refl; keeps = inl refl }

  Keeps-trans :
      (limit : Option Decimal) (a b c : Decimal)
      → Keeps limit a b
      → Keeps limit b c
      → Keeps limit a c
  Keeps-trans none a b c h k = tt
  Keeps-trans (some cap) a b c h (inr k) = inr k
  Keeps-trans (some cap) a b c (inl h) (inl k) = inl (k ∙ h)
  Keeps-trans (some cap) a b c (inr h) (inl k) = inr (rw k h)

  pub IsMove-trans :
      (limit : Option Decimal) (a b c x y : Decimal)
      → IsMove limit a b x
      → IsMove limit b c y
      → IsMove limit a c (add x y)
  IsMove-trans limit a b c x y h k = record {
    sum = cc (h.sum, k.sum, add_assoc a x y);
    keeps = Keeps-trans limit a b c h.keeps k.keeps;
  }

  pub loosened :
      (n amount room : Decimal)
      → le n (add amount slack) ≡ true
      → le amount room ≡ true
      → le n (add room slack) ≡ true
  loosened n amount room few h =
      le_trans n (add amount slack) (add room slack) few (add_mono amount room slack h)

  -- A payment within what a limit leaves and the slack.
  paid :
      (limit : Option Decimal) (before amount : Decimal)
      → ((cap : Decimal) → limit ≡ some cap → le amount (add (sub cap before) slack) ≡ true)
      → IsMove limit before (add before amount) amount
  paid none before amount h = record { sum = refl; keeps = tt }
  paid (some cap) before amount h = record {
    sum = refl;
    keeps = inr (add_le_of_le_sub_add S before amount cap slack (h cap refl));
  }

  share_zero : (b : Bool) → (if b then zero else zero) ≡ zero
  share_zero true = refl
  share_zero false = refl

  twice : (b : Bool) → b ≡ (b || b)
  twice true = refl
  twice false = refl

  module _ (limits : Limits Decimal) where
    -- What is spent on an exchange behind a charge.
    charge-get :
        (req : CandidateRequest Decimal) (n : Decimal) (b : Spent Decimal) (ex : String)
        → get S ex (charge S limits req n b).by_exchange
          ≡ (if touches ex req then add (get S ex b.by_exchange) n else get S ex b.by_exchange)
    unfolding charge
    charge-get req n b ex =
        let on_long = spend S req.long_exchange n b.by_exchange in
        let first = get-spend S req.long_exchange ex n b.by_exchange in
        let second = get-spend S req.short_exchange ex n on_long in
        let long_ex = eq_iff req.long_exchange ex in
        let short_ex = eq_iff req.short_exchange ex in
        let both = eq_iff req.long_exchange req.short_exchange in
        let Right : Dict Decimal → Type 0 = λ m.
          get S ex m
          ≡ (if touches ex req then add (get S ex b.by_exchange) n else get S ex b.by_exchange) in
        if-both Right (str_eq req.long_exchange req.short_exchange)
          (λ e.
            let same : str_eq req.short_exchange ex ≡ str_eq req.long_exchange ex =
              ap (λ x. str_eq x ex) (sym (both.0 e)) in
            first
            ∙ ap (λ t. if t then add (get S ex b.by_exchange) n else get S ex b.by_exchange)
                (rw same (twice (str_eq req.long_exchange ex))))
          (λ e. elim (Bool-cases (str_eq req.long_exchange ex)) [
            | inl l ↦ elim (Bool-cases (str_eq req.short_exchange ex)) [
              | inl s ↦
                  let t : str_eq req.long_exchange req.short_exchange ≡ true =
                    both.1 (long_ex.0 l ∙ sym (short_ex.0 s)) in
                  cc
              | inr s ↦ rw l ((rw s at second) ∙ (rw l at first))
            ]
            | inr l ↦ elim (Bool-cases (str_eq req.short_exchange ex)) [
              | inl s ↦ rw (l, s) ((rw s at second) ∙ ap (λ x. add x n) (rw l at first))
              | inr s ↦ rw (l, s) ((rw s at second) ∙ (rw l at first))
            ]
          ])

    module _ (ex asset : String) where
      -- What one round takes of the limits of an exchange, of an asset and of the budget.
      pub record IsRound (b b' : Spent Decimal) (a : Allocation Decimal) : Type 0 where
        pub on_exchange :
            IsMove
              (lookup ex limits.max_exposure)
              (get S ex b.by_exchange)
              (get S ex b'.by_exchange)
              (share S (touches ex a.request) a)
        pub on_asset :
            IsMove
              (lookup asset limits.max_correlated)
              (get S asset b.by_asset)
              (get S asset b'.by_asset)
              (share S (str_eq a.request.asset asset) a)
        pub in_budget : IsMove (some limits.total_budget) b.total b'.total a.allocated_notional

      pub rejected-IsRound :
          (req : CandidateRequest Decimal) (reason : Rejection) (b : Spent Decimal)
          → IsRound b b (reject S req reason)
      rejected-IsRound req reason b = record {
        on_exchange = still (lookup ex limits.max_exposure) _ _ (share_zero (touches ex req));
        on_asset =
            still (lookup asset limits.max_correlated) _ _ (share_zero (str_eq req.asset asset));
        in_budget = still (some limits.total_budget) b.total zero refl;
      }

      -- What is allowed for a request is allowed on each exchange that it touches.
      exchange_room :
          (req : CandidateRequest Decimal) (b : Spent Decimal) (amount cap : Decimal)
          → IsAllowed S limits req b amount
          → touches ex req ≡ true
          → lookup ex limits.max_exposure ≡ some cap
          → le amount (sub cap (get S ex b.by_exchange)) ≡ true
      exchange_room req b amount cap allowed t h = elim (Bool-cases (str_eq req.long_exchange ex)) [
        | inl l ↦
            let same = (eq_iff req.long_exchange ex).0 l in
            rw (sym same) (allowed.on_long cap (rw same h))
        | inr l ↦
            let same = (eq_iff req.short_exchange ex).0 (ground arith) in
            rw (sym same) (allowed.on_short cap (rw same h))
      ]

      pub charge-on_exchange :
          (req : CandidateRequest Decimal) (b : Spent Decimal) (amount n : Decimal)
          → IsAllowed S limits req b amount
          → le n (add amount slack) ≡ true
          → IsMove
              (lookup ex limits.max_exposure)
              (get S ex b.by_exchange)
              (get S ex (charge S limits req n b).by_exchange)
              (if touches ex req then n else zero)
      charge-on_exchange req b amount n allowed few = elim (Bool-cases (touches ex req)) [
        | inl t ↦
            rw (charge-get req n b ex, t)
              (paid (lookup ex limits.max_exposure) (get S ex b.by_exchange) n (λ cap h.
                loosened n amount (sub cap (get S ex b.by_exchange)) few
                  (exchange_room req b amount cap allowed t h)))
        | inr t ↦
            rw (charge-get req n b ex, t)
              (still (lookup ex limits.max_exposure) (get S ex b.by_exchange) zero refl)
      ]

      pub charge-on_asset :
          (req : CandidateRequest Decimal) (b : Spent Decimal) (amount n : Decimal)
          → IsAllowed S limits req b amount
          → le n (add amount slack) ≡ true
          → IsMove
              (lookup asset limits.max_correlated)
              (get S asset b.by_asset)
              (get S asset (charge S limits req n b).by_asset)
              (if str_eq req.asset asset then n else zero)
      unfolding charge
      charge-on_asset req b amount n allowed few =
          let after = get-spend S req.asset asset n b.by_asset in
          elim (Bool-cases (str_eq req.asset asset)) [
            | inl t ↦
                let same = (eq_iff req.asset asset).0 t in
                rw (after, t)
                  (paid (lookup asset limits.max_correlated) (get S asset b.by_asset) n (λ cap h.
                    loosened n amount (sub cap (get S asset b.by_asset)) few
                      (rw (sym same) (allowed.on_asset cap (rw same h)))))
            | inr t ↦
                rw (after, t)
                  (still (lookup asset limits.max_correlated) (get S asset b.by_asset) zero refl)
          ]
