-- ===== src/Engine/Opening/Entered.antt =====
-- From the candidate to the registration in `openPosition` of fandos1/internal/engine/engine.go.
use fandos.Prelude.{
  String, ◌≡◌, refl, ap, ◌∙◌, true, false, not, ◌&&◌, ◌||◌, Option, none, some, inl, inr, arith,
  Option-cases, if-both,
}
use fandos.Decimal.{Shopspring, max, less_than, is_positive, is_zero}
use fandos.Decimal.Order.{le_of_not_le}
use fandos.Portfolio.{
  State, qualified, preparing, opening, partially_hedged, is_terminal, set_quantities, new_position,
}
use fandos.Execution.Repair.{RepairDecision, analyze_mismatch}
use fandos.Execution.Repair.Laws.{distance, analyze_mismatch-Analyzed}
use fandos.Engine.World.{
  Instrument, MarketSnapshot, Candidate, OpenPosition, Outside, Deps, EngineText, Config,
}
use fandos.Engine.Opening.Legs.{
  LegResult, EntryPrices, long_entry, short_entry, place_entry_legs, is_repair_none,
  repair_imbalance,
}
use fandos.Engine.Opening.Repaired.{Within, place_entry_le, repair_imbalance-Within}
use fandos.Engine.Opening.Balance.{
  is_hedge, IsEntered, Holds, same-Holds, Entered, guarded-Entered, finish-Entered,
  degraded-IsEntered, check_delta-Entered,
}
use fandos.Engine.Opening.{
  repair_legs, repair_opening, after_fills, unknown_entry, after_entry, enter, start_entry,
  preflight, prepare, new_open_position, open_quantized, open_position, with_quantities, leveraged,
  entry_prices,
}

-- The two states in which `openPosition` records quantities.
ongoing_of : (s t : State) → s ≡ t → is_terminal t ≡ false → is_terminal s ≡ false
ongoing_of s t at h = rw at h

opening_ongoing : is_terminal opening ≡ false
unfolding is_terminal
opening_ongoing = refl

partially_hedged_ongoing : is_terminal partially_hedged ≡ false
unfolding is_terminal
partially_hedged_ongoing = refl

module _ (S : Shopspring) (deps : Deps S.Decimal) (text : EngineText S.Decimal)
    (cfg : Config S.Decimal) where
  open S use {Decimal, zero, le, sub}

  with_quantities-Holds :
      (qty l s : Decimal) (op : OpenPosition Decimal) (o : Outside Decimal)
      → is_terminal op.position.state ≡ false
      → op.position.target_base_qty ≡ qty
      → Holds S qty l s (with_quantities S deps text cfg l s o op)
  unfolding set_quantities
  with_quantities-Holds qty l s op o ongoing target = record {
    long = rw ongoing refl;
    short = rw ongoing refl;
    target = rw ongoing target;
  }

  with_quantities-state :
      (l s : Decimal) (op : OpenPosition Decimal) (o : Outside Decimal)
      → is_terminal op.position.state ≡ false
      → (with_quantities S deps text cfg l s o op).position.state ≡ op.position.state
  unfolding set_quantities
  with_quantities-state l s op o ongoing = rw ongoing refl

  repair_legs-Entered :
      (decision : RepairDecision Decimal) (qty l s : Decimal) (prices : EntryPrices Decimal)
      (op : OpenPosition Decimal) (o : Outside Decimal)
      → op.position.state ≡ partially_hedged
      → op.position.target_base_qty ≡ qty
      → decision.shortfall_qty ≡ distance S l s
      → Within S qty l s
      → Entered S deps text cfg (repair_legs S deps text cfg decision l s prices op o)
  unfolding repair_legs
  repair_legs-Entered decision qty l s prices op o at target lacks w =
      let r = repair_imbalance S deps text cfg op.position.id op decision l s prices o in
      let ongoing = ongoing_of op.position.state partially_hedged at partially_hedged_ongoing in
      check_delta-Entered S deps text cfg qty r.0 r.1
        (with_quantities S deps text cfg r.0 r.1 r.2 op) r.2
        (ap is_hedge (with_quantities-state r.0 r.1 op r.2 ongoing ∙ at))
        (with_quantities-Holds qty r.0 r.1 op r.2 ongoing target)
        (repair_imbalance-Within S deps text cfg op.position.id op decision qty l s prices o lacks
          w)

  repair_opening-Entered :
      (decision : RepairDecision Decimal) (qty l s : Decimal) (prices : EntryPrices Decimal)
      (op : OpenPosition Decimal) (o : Outside Decimal)
      → op.position.target_base_qty ≡ qty
      → decision.shortfall_qty ≡ distance S l s
      → Within S qty l s
      → Entered S deps text cfg (repair_opening S deps text cfg decision l s prices op o)
  unfolding repair_opening
  repair_opening-Entered decision qty l s prices op o target lacks w =
      guarded-Entered S deps text cfg partially_hedged _ o op
        (λ p. repair_legs S deps text cfg decision l s prices p o)
        (λ p legs at.
          repair_legs-Entered decision qty l s prices p o at (legs.target ∙ target) lacks w)

  after_fills-Entered :
      (qty l s : Decimal) (prices : EntryPrices Decimal) (op : OpenPosition Decimal)
      (o : Outside Decimal)
      → op.position.state ≡ opening
      → op.position.target_base_qty ≡ qty
      → Within S qty l s
      → Entered S deps text cfg (after_fills S deps text cfg l s prices op o)
  unfolding after_fills
  after_fills-Entered qty l s prices op o at target w =
      let d = analyze_mismatch S l s cfg.delta_tolerance_base in
      let q = with_quantities S deps text cfg l s o op in
      let ongoing = ongoing_of op.position.state opening at opening_ongoing in
      let held = with_quantities-Holds qty l s op o ongoing target in
      let analysis = (analyze_mismatch-Analyzed S l s cfg.delta_tolerance_base).1 in
      if-both (Entered S deps text cfg) (is_zero S l && is_zero S s) (λ e. tt)
        (λ e.
          if-both (Entered S deps text cfg) (not (is_repair_none d.action))
            (λ f. elim analysis [
              | inl h ↦ cc
              | inr h ↦ repair_opening-Entered d qty l s prices q o held.target h.2 w
            ])
            (λ f. elim analysis [
              | inl h ↦ finish-Entered S deps text cfg qty l s q o h.1 held w
              | inr h ↦ cc
            ]))

  after_entry-Entered :
      (qty : Decimal) (l s : LegResult Decimal) (prices : EntryPrices Decimal)
      (op : OpenPosition Decimal) (o : Outside Decimal)
      → op.position.state ≡ opening
      → Holds S qty zero zero op
      → le zero qty ≡ true
      → Within S qty l.filled s.filled
      → Entered S deps text cfg (after_entry S deps text cfg l s prices op o)
  unfolding after_entry unknown_entry
  after_entry-Entered qty l s prices op o at held positive w =
      if-both (Entered S deps text cfg) (l.ambiguous || s.ambiguous)
        (λ e.
          degraded-IsEntered S deps text cfg _ qty zero zero op o (ap is_hedge at) held
            (positive, positive))
        (λ e. after_fills-Entered qty l.filled s.filled prices op _ at held.target w)

  enter-Entered :
      (qty : Decimal) (op : OpenPosition Decimal) (o : Outside Decimal)
      (long_market short_market : Option (MarketSnapshot Decimal))
      → op.position.state ≡ opening
      → Holds S qty zero zero op
      → le zero qty ≡ true
      → Entered S deps text cfg (enter S deps text cfg qty op o long_market short_market)
  unfolding enter place_entry_legs
  enter-Entered qty op o (some l) (some s) at held positive =
      let prices = entry_prices S deps text cfg op l s in
      after_entry-Entered qty _ _ prices op _ at held positive (
        place_entry_le S deps text op.position.id (long_entry S op prices) qty o positive,
        place_entry_le S deps text op.position.id (short_entry S op prices) qty _ positive,
      )
  enter-Entered qty op o (some l) none at held positive = tt
  enter-Entered qty op o none s at held positive = tt

  start_entry-Entered :
      (qty : Decimal) (op : OpenPosition Decimal) (o : Outside Decimal)
      → Holds S qty zero zero op
      → le zero qty ≡ true
      → Entered S deps text cfg (start_entry S deps text cfg qty op o)
  unfolding start_entry
  start_entry-Entered qty op o held positive =
      guarded-Entered S deps text cfg opening _ o op
        (λ d.
          enter S deps text cfg qty d o (deps.market d.long_ex d.asset o)
            (deps.market d.short_ex d.asset o))
        (λ d legs at.
          enter-Entered qty d o _ _ at (same-Holds S qty zero zero op d legs held) positive)

  preflight-Entered :
      (qty : Decimal) (op : OpenPosition Decimal) (o : Outside Decimal)
      → Holds S qty zero zero op
      → le zero qty ≡ true
      → Entered S deps text cfg (preflight S deps text cfg qty op o)
  unfolding preflight
  preflight-Entered qty op o held positive =
      guarded-Entered S deps text cfg preparing _ o op
        (λ p. start_entry S deps text cfg qty p (leveraged S deps text cfg p o))
        (λ p legs at.
          start_entry-Entered qty p _ (same-Holds S qty zero zero op p legs held) positive)

  prepare-Entered :
      (qty : Decimal) (op : OpenPosition Decimal) (o : Outside Decimal)
      → Holds S qty zero zero op
      → le zero qty ≡ true
      → Entered S deps text cfg (prepare S deps text cfg qty op o)
  unfolding prepare
  prepare-Entered qty op o held positive =
      guarded-Entered S deps text cfg qualified _ o op (λ q. preflight S deps text cfg qty q o)
        (λ q legs at.
          preflight-Entered qty q o (same-Holds S qty zero zero op q legs held) positive)

  open_quantized-Entered :
      (id : String) (cand : Candidate) (li si : Instrument Decimal) (o : Outside Decimal)
      (quantized : Option (Decimal × Decimal))
      → Entered S deps text cfg (open_quantized S deps text cfg id cand li si o quantized)
  unfolding open_quantized new_position
  open_quantized-Entered id cand li si o none = tt
  open_quantized-Entered id cand li si o (some (qty, residue)) =
      if-both (Entered S deps text cfg)
        (not (is_positive S qty) || less_than S qty (max S li.min_qty si.min_qty)) (λ e. tt)
        (λ e.
          prepare-Entered qty (new_open_position S deps text cfg id cand li si qty o) o
            (record { long = refl; short = refl; target = refl })
            (le_of_not_le S qty zero (ground arith)))

  -- Whatever the exchanges, the registry, the market data and the persister answer, a position that is
  -- registered has each leg at most at its target quantity; and if it is in HEDGED or MONITORING, its
  -- legs are within the tolerance of each other.
  pub open_position-IsEntered :
      (id : String) (cand : Candidate) (o : Outside Decimal)
      → IsEntered S cfg.delta_tolerance_base (open_position S deps text cfg id cand o).outcome
  unfolding open_position
  open_position-IsEntered id cand o =
      elim (Option-cases (deps.instrument cand.long_exchange cand.asset o)) [
        | inl e ↦ rw (open_position, e) tt
        | inr (li, e) ↦ elim (Option-cases (deps.instrument cand.short_exchange cand.asset o)) [
          | inl e' ↦ rw (open_position, e, e') tt
          | inr (si, e') ↦ rw (open_position, e, e') (open_quantized-Entered id cand li si o _)
        ]
      ]
