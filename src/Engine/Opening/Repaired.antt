-- ===== src/Engine/Opening/Repaired.antt =====
-- What the orders of `openPosition` in fandos1/internal/engine/engine.go can fill.
use fandos.Prelude.{String, ◌≡◌, ◌∙◌, true, ◌&&◌, ◌⊎◌, inl, inr, Bool-cases, Option-cases, if-both}
use fandos.Decimal.{Shopspring, min, less_than, is_positive}
use fandos.Decimal.Order.{le_refl, le_of_not_le, sub_nonneg, sub_add_cancel}
use fandos.Execution.Orders.{PlaceOrderResult, ExchangeError}
use fandos.Execution.Repair.{RepairDecision}
use fandos.Execution.Repair.Laws.{distance, abs_of_le, abs_of_ge}
use fandos.Engine.World.{OpenPosition, Outside, Deps, EngineText, Config}
use fandos.Engine.Opening.Legs.{
  EntryPrices, Leg, long_entry, short_entry, is_reduce_excess, capped, entry_result, top_up_fill,
  place_entry, top_up, reduce_rest, repair_imbalance,
}

module _ (S : Shopspring) where
  open S use {Decimal, zero, add, sub, le, le_trans, add_comm, add_mono}

  capped_le : (qty filled : Decimal) → le (capped S qty filled) qty ≡ true
  capped_le qty filled = elim (Bool-cases (le filled qty)) [
    | inl h ↦ rw h h
    | inr h ↦ rw h (le_refl S qty)
  ]

  entry_result_le :
      (qty : Decimal) (r : PlaceOrderResult Decimal ⊎ ExchangeError)
      → le zero qty ≡ true
      → le (entry_result S qty r).filled qty ≡ true
  unfolding entry_result
  entry_result_le qty (inl r) h = capped_le qty r.order.filled_qty
  entry_result_le qty (inr e) h = h

  top_up_fill_le :
      (qty : Decimal) (r : PlaceOrderResult Decimal ⊎ ExchangeError)
      → le zero qty ≡ true
      → le (top_up_fill S qty r) qty ≡ true
  unfolding top_up_fill
  top_up_fill_le qty (inl r) h = capped_le qty r.order.filled_qty
  top_up_fill_le qty (inr e) h = h

  -- A leg that grows by at most what it lacks of the other stays within its bound.
  grown_le :
      (a b filled qty : Decimal)
      → le filled (sub b a) ≡ true
      → le b qty ≡ true
      → le (add a filled) qty ≡ true
  grown_le a b filled qty few h =
      let grown : le (add filled a) (add (sub b a) a) ≡ true = add_mono filled (sub b a) a few in
      le_trans (add a filled) b qty (cc (grown, sub_add_cancel S b a, add_comm a filled)) h

  distance_nonneg : (a b : Decimal) → le zero (distance S a b) ≡ true
  distance_nonneg a b = elim (Bool-cases (le a b)) [
    | inl h ↦ rw (abs_of_ge S a b h) (sub_nonneg S b a h)
    | inr h ↦ let h' = le_of_not_le S a b h in rw (abs_of_le S a b h') (sub_nonneg S a b h')
  ]

  -- Both legs are within a quantity.
  abbrev pub Within : Decimal → Decimal → Decimal → Type 0
  Within qty l s = (le l qty ≡ true) × (le s qty ≡ true)

module _ (S : Shopspring) (deps : Deps S.Decimal) (text : EngineText S.Decimal) where
  open S use {Decimal, zero, add, sub, le, le_antisymm}

  pub place_entry_le :
      (id : String) (leg : Leg Decimal) (qty : Decimal) (o : Outside Decimal)
      → le zero qty ≡ true
      → le (place_entry S deps text id leg qty o).0.filled qty ≡ true
  unfolding place_entry
  place_entry_le id leg qty o h = elim (Option-cases (deps.executor leg.exchange)) [
    | inl e ↦ rw (place_entry, e) h
    | inr (adapter, e) ↦ rw (place_entry, e) (entry_result_le S qty _ h)
  ]

  top_up_le :
      (id : String) (leg : Leg Decimal) (qty : Decimal) (o : Outside Decimal)
      → le zero qty ≡ true
      → le (top_up S deps text id leg qty o).0 qty ≡ true
  unfolding top_up
  top_up_le id leg qty o h = elim (Option-cases (deps.executor leg.exchange)) [
    | inl e ↦ rw (top_up, e) h
    | inr (adapter, e) ↦ rw (top_up, e) (top_up_fill_le S qty _ h)
  ]

  module _ (cfg : Config S.Decimal) where
    reduce_rest-Within :
        (id : String) (op : OpenPosition Decimal) (after : RepairDecision Decimal)
        (qty l s : Decimal) (prices : EntryPrices Decimal) (o : Outside Decimal)
        → Within S qty l s
        → let r = reduce_rest S deps text cfg id op after l s prices o in Within S qty r.0 r.1
    unfolding reduce_rest
    reduce_rest-Within id op after qty l s prices o h =
        let Both : Decimal × Decimal × Outside Decimal → Type 0 = λ r. Within S qty r.0 r.1 in
        let common : le (min S l s) qty ≡ true =
          if-both (λ x. le x qty ≡ true) (less_than S l s) (λ e. h.0) (λ e. h.1) in
        if-both Both (is_reduce_excess after.action && is_positive S after.excess_qty)
          (λ e. if-both Both _ (λ f. (common, common)) (λ f. h)) (λ e. h)

    -- The top-up by the distance of the legs is at most what the one lacks of the other.
    few :
        (id : String) (leg : Leg Decimal) (d lack l s : Decimal) (o : Outside Decimal)
        → d ≡ distance S l s
        → distance S l s ≡ lack
        → le (top_up S deps text id leg d o).0 lack ≡ true
    few id leg d lack l s o lacks same =
        rw⁻¹ (lacks ∙ same) (top_up_le id leg d o (rw lacks (distance_nonneg S l s)))

    -- A repair of legs that are within a quantity, by their distance, leaves both within it.
    pub repair_imbalance-Within :
        (id : String) (op : OpenPosition Decimal) (decision : RepairDecision Decimal)
        (qty l s : Decimal) (prices : EntryPrices Decimal) (o : Outside Decimal)
        → decision.shortfall_qty ≡ distance S l s
        → Within S qty l s
        → let r = repair_imbalance S deps text cfg id op decision l s prices o in
          Within S qty r.0 r.1
    unfolding repair_imbalance
    repair_imbalance-Within id op decision qty l s prices o lacks h =
        let d = decision.shortfall_qty in
        elim (Bool-cases (le s l)) [
          | inl e ↦
              let t =
                few id (short_entry S op prices) d (sub l s) l s o lacks (abs_of_le S l s e) in
              rw e (reduce_rest-Within id op _ qty _ _ prices _ (h.0, grown_le S s l _ qty t h.0))
          | inr e ↦
              let t =
                few id (long_entry S op prices) d (sub s l) l s o lacks
                  (abs_of_ge S l s (le_of_not_le S s l e)) in
              rw e (reduce_rest-Within id op _ qty _ _ prices _ (grown_le S l s _ qty t h.1, h.1))
        ]
