-- ===== src/Risk/Laws.antt =====
-- What the check of a position in fandos1/internal/risk/engine.go reports.
use fandos.Prelude.{
  String, ◌≡◌, refl, ap, ◌∙◌, Bool, true, false, ◌&&◌, ◌||◌, List, [], ◌∷◌, ◌++◌, if◌then◌else◌,
  Dict, inl, inr, Bool-cases, arith, if-both,
}
use fandos.Decimal.{
  Shopspring, abs, is_negative, is_positive, greater_than, greater_than_or_equal, less_than,
}
use fandos.Risk.{
  Limits, PositionInput, Code, Violation, is_critical, is_warning, has_critical, has_warning,
  critical, report_if, keys_of, put_in_order, sorted_keys, get, report_each, check_position,
  emergency_margin, liquidation_too_close, delta_base_breach, delta_usd_breach, max_position_loss,
}

-- Some key of a list has a value that fails.
abbrev pub any_key : (String → Bool) → List String → Bool
any_key fails [] = false
any_key fails (key ∷ rest) = fails key || any_key fails rest

or_swap : (a b c : Bool) → (a || (b || c)) ≡ (b || (a || c))
or_swap a b c = ground arith

or_assoc : (a b c : Bool) → (a || (b || c)) ≡ ((a || b) || c)
or_assoc a b c = ground arith

module _ (is_before : String → String → Bool) (fails : String → Bool) where
  any_key-put_in_order :
      (key : String) (keys : List String)
      → any_key fails (put_in_order is_before key keys) ≡ (fails key || any_key fails keys)
  unfolding put_in_order
  any_key-put_in_order key [] = refl
  any_key-put_in_order key (other ∷ rest) =
      if-both (λ ks. any_key fails ks ≡ (fails key || (fails other || any_key fails rest)))
        (is_before other key)
        (λ e.
          ap (λ b. fails other || b) (any_key-put_in_order key rest)
          ∙ or_swap (fails other) (fails key) (any_key fails rest))
        (λ e. refl)

  -- The order of the keys does not matter.
  any_key-sorted_keys :
      (keys : List String) → any_key fails (sorted_keys is_before keys) ≡ any_key fails keys
  unfolding sorted_keys
  any_key-sorted_keys [] = refl
  any_key-sorted_keys (key ∷ rest) =
      any_key-put_in_order key (sorted_keys is_before rest)
      ∙ ap (λ b. fails key || b) (any_key-sorted_keys rest)

has_critical-append :
    (xs ys : List Violation) → has_critical (xs ++ ys) ≡ (has_critical xs || has_critical ys)
unfolding has_critical
has_critical-append [] ys = refl
has_critical-append (x ∷ xs) ys =
    let further = has_critical-append xs ys in
    elim (Bool-cases (is_critical x.severity)) [ inl e ↦ rw e refl | inr e ↦ rw e further ]

has_warning-append :
    (xs ys : List Violation) → has_warning (xs ++ ys) ≡ (has_warning xs || has_warning ys)
unfolding has_warning
has_warning-append [] ys = refl
has_warning-append (x ∷ xs) ys =
    let further = has_warning-append xs ys in
    elim (Bool-cases (is_warning x.severity)) [ inl e ↦ rw e refl | inr e ↦ rw e further ]

-- What a list of violations says: whether it is critical, and that it has no warning.
pub record Says (b : Bool) (vs : List Violation) : Type 0 where
  pub is : has_critical vs ≡ b
  pub no_warning : has_warning vs ≡ false

both-Says : (a b : Bool) (xs ys : List Violation) → Says a xs → Says b ys → Says (a || b) (xs ++ ys)
both-Says a b xs ys h k = record {
  is = has_critical-append xs ys ∙ ap (λ x. x || has_critical ys) h.is ∙ ap (λ y. a || y) k.is;
  no_warning = has_warning-append xs ys ∙ ap (λ x. x || has_warning ys) h.no_warning ∙ k.no_warning;
}

report_if-Says : (b : Bool) (code : Code) (ex : String) → Says b (report_if b (critical code ex))
unfolding has_critical has_warning
report_if-Says true code ex = record { is = refl; no_warning = refl }
report_if-Says false code ex = record { is = refl; no_warning = refl }

module _ (S : Shopspring) where
  open S use {Decimal, sub, mul}

  report_each-Says :
      (fails : Decimal → Bool) (code : Code) (m : Dict Decimal) (keys : List String)
      → Says (any_key (λ key. fails (get S key m)) keys) (report_each S fails code m keys)
  unfolding report_each has_critical has_warning
  report_each-Says fails code m [] = record { is = refl; no_warning = refl }
  report_each-Says fails code m (key ∷ rest) =
      both-Says (fails (get S key m)) _ (report_if (fails (get S key m)) (critical code key))
        (report_each S fails code m rest) (report_if-Says (fails (get S key m)) code key)
        (report_each-Says fails code m rest)

  -- Some limit of a position is broken.
  abbrev pub is_broken : PositionInput Decimal → Limits Decimal → Bool
  is_broken p limits =
      let delta = sub p.long_base_qty (abs S p.short_base_qty) in
      greater_than S (abs S delta) limits.delta_tolerance_base
      || greater_than S (abs S (mul delta p.mark_price)) limits.delta_tolerance_usd
      || any_key
          (λ ex.
            greater_than_or_equal S (get S ex p.margin_ratio_per_leg) limits.emergency_margin_ratio)
          (keys_of p.margin_ratio_per_leg)
      || any_key
          (λ ex.
            less_than S (get S ex p.liquidation_distance_percent)
              limits.minimum_distance_to_liquidation_percent)
          (keys_of p.liquidation_distance_percent)
      || (is_positive S limits.max_position_loss_usdt
          && is_negative S p.unrealized_pnl
          && greater_than S (abs S p.unrealized_pnl) limits.max_position_loss_usdt)

  loss-Says :
      (capped losing large : Bool)
      → Says
          (capped && losing && large)
          (if capped && large then report_if losing (critical max_position_loss "") else [])
  unfolding has_critical has_warning
  loss-Says true true true = record { is = refl; no_warning = refl }
  loss-Says true true false = record { is = refl; no_warning = refl }
  loss-Says true false true = record { is = refl; no_warning = refl }
  loss-Says true false false = record { is = refl; no_warning = refl }
  loss-Says false losing large = record { is = refl; no_warning = refl }

  -- The checks of the exchanges say whether some of their values fails, in any order of the keys.
  each-Says :
      (is_before : String → String → Bool) (fails : Decimal → Bool) (code : Code) (m : Dict Decimal)
      → Says
          (any_key (λ key. fails (get S key m)) (keys_of m))
          (report_each S fails code m (sorted_keys is_before (keys_of m)))
  each-Says is_before fails code m =
      let said = report_each-Says fails code m (sorted_keys is_before (keys_of m)) in
      record {
        is = said.is ∙ any_key-sorted_keys is_before (λ key. fails (get S key m)) (keys_of m);
        no_warning = said.no_warning;
      }

  -- The check of a position is right: in every order of the exchanges, it has a critical violation
  -- exactly if some limit is broken. These are the tolerance of the base delta, that of the delta in USD,
  -- the emergency margin ratio on some exchange, the least distance to liquidation on some exchange, and
  -- the greatest loss where one is set. It has never a warning.
  pub check_position-Says :
      (is_before : String → String → Bool) (p : PositionInput Decimal) (limits : Limits Decimal)
      → Says (is_broken p limits) (check_position S is_before p limits).violations
  unfolding check_position
  check_position-Says is_before p limits =
      let delta = sub p.long_base_qty (abs S p.short_base_qty) in
      let base = greater_than S (abs S delta) limits.delta_tolerance_base in
      let usd = greater_than S (abs S (mul delta p.mark_price)) limits.delta_tolerance_usd in
      let capped = is_positive S limits.max_position_loss_usdt in
      let losing = is_negative S p.unrealized_pnl in
      let large = greater_than S (abs S p.unrealized_pnl) limits.max_position_loss_usdt in
      both-Says _ (capped && losing && large) _ _
        (both-Says _ _ _ _
          (both-Says _ _ _ _
            (both-Says base usd _ _ (report_if-Says base delta_base_breach "")
              (report_if-Says usd delta_usd_breach ""))
            (each-Says is_before (λ x. greater_than_or_equal S x limits.emergency_margin_ratio)
              emergency_margin p.margin_ratio_per_leg))
          (each-Says is_before (λ x. less_than S x limits.minimum_distance_to_liquidation_percent)
            liquidation_too_close p.liquidation_distance_percent))
        (loss-Says capped losing large)
