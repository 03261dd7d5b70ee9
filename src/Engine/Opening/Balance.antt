-- ===== src/Engine/Opening/Balance.antt =====
-- What `openPosition` of fandos1/internal/engine/engine.go registers.
use fandos.Prelude.{
  String, ◌≡◌, refl, ap, ◌∙◌, Bool, true, false, not, ◌&&◌, ◌||◌, Option, none, some, inl, inr,
  arith, if-both,
}
use fandos.Decimal.{Shopspring, greater_than, is_zero}
use fandos.Portfolio.{State, hedged, monitoring, degraded, Error}
use fandos.Execution.Repair.Laws.{distance}
use fandos.Engine.World.{OpenPosition, Outside, Deps, EngineText, Config, shift}
use fandos.Engine.Moves.{SameLegs, Shifted, shift-Shifted}
use fandos.Engine.Opening.Repaired.{Within}
use fandos.Engine.Opening.{
  Outcome, registered, Opened, after_shift, guarded, register_hedge, start_monitoring,
  finish_opening, give_up_repair, check_delta,
}

abbrev pub is_hedge : State → Bool
is_hedge hedged = true
is_hedge monitoring = true
is_hedge _ = false

module _ (S : Shopspring) where
  open S use {Decimal, zero, le, sub}

  -- A position in HEDGED or MONITORING has its legs within the tolerance of each other.
  abbrev pub is_balanced : Decimal → OpenPosition Decimal → Bool
  is_balanced tolerance op =
      let p = op.position in
      le (distance S p.long_base_qty p.short_base_qty) tolerance || not (is_hedge p.state)

  -- What is registered is balanced, and each leg is at most the target of the position.
  abbrev pub IsEntered : Decimal → Outcome Decimal → Type 0
  IsEntered tolerance (registered op) =
      let p = op.position in
      (is_balanced tolerance op ≡ true)
      × (le p.long_base_qty p.target_base_qty ≡ true)
      × (le p.short_base_qty p.target_base_qty ≡ true)
  IsEntered tolerance _ = Unit

  -- The quantities of a position.
  pub record Holds (qty l s : Decimal) (op : OpenPosition Decimal) : Type 0 where
    pub long : op.position.long_base_qty ≡ l
    pub short : op.position.short_base_qty ≡ s
    pub target : op.position.target_base_qty ≡ qty

  pub same-Holds :
      (qty l s : Decimal) (op op' : OpenPosition Decimal)
      → SameLegs op op'
      → Holds qty l s op
      → Holds qty l s op'
  same-Holds qty l s op op' legs h = record {
    long = legs.long ∙ h.long;
    short = legs.short ∙ h.short;
    target = legs.target ∙ h.target;
  }

  -- A position with these quantities and a state that is no hedge.
  pub unhedged-IsEntered :
      (tolerance qty l s : Decimal) (op : OpenPosition Decimal)
      → is_hedge op.position.state ≡ false
      → Holds qty l s op
      → Within S qty l s
      → IsEntered tolerance (registered op)
  unhedged-IsEntered tolerance qty l s op free h w =
      rw (h.long, h.short, h.target) (ground arith, w.0, w.1)

  hedged-IsEntered :
      (tolerance qty l s : Decimal) (op : OpenPosition Decimal)
      → le (distance S l s) tolerance ≡ true
      → Holds qty l s op
      → Within S qty l s
      → IsEntered tolerance (registered op)
  hedged-IsEntered tolerance qty l s op near h w =
      rw (h.long, h.short, h.target, near) (refl, w.0, w.1)

module _ (S : Shopspring) (deps : Deps S.Decimal) (text : EngineText S.Decimal)
    (cfg : Config S.Decimal) where
  open S use {Decimal, zero, le, sub}

  abbrev pub Entered : Opened Decimal → Type 0
  Entered r = IsEntered S cfg.delta_tolerance_base r.outcome

  after_shift-Entered :
      (to : State) (o : Outside Decimal) (op : OpenPosition Decimal)
      (go_on : OpenPosition Decimal → Opened Decimal)
      → ((op' : OpenPosition Decimal)
          → SameLegs op op'
          → op'.position.state ≡ to
          → Entered (go_on op'))
      → (r : OpenPosition Decimal × Option Error) → Shifted to op r
      → Entered (after_shift S deps text cfg go_on o r)
  after_shift-Entered to o op go_on h (q, none) (legs, inl (fine, at)) = h q legs at
  after_shift-Entered to o op go_on h (q, none) (legs, inr (bad, at)) = cc
  after_shift-Entered to o op go_on h (q, some e) m = tt

  pub guarded-Entered :
      (to : State) (reason : String) (o : Outside Decimal) (op : OpenPosition Decimal)
      (go_on : OpenPosition Decimal → Opened Decimal)
      → ((op' : OpenPosition Decimal)
          → SameLegs op op'
          → op'.position.state ≡ to
          → Entered (go_on op'))
      → Entered (guarded S deps text cfg to reason o op go_on)
  unfolding guarded
  guarded-Entered to reason o op go_on h =
      after_shift-Entered to o op go_on h _ (shift-Shifted S deps to reason o op)

  start_monitoring-Entered :
      (qty l s : Decimal) (op : OpenPosition Decimal) (o : Outside Decimal)
      → le (distance S l s) cfg.delta_tolerance_base ≡ true
      → Holds S qty l s op
      → Within S qty l s
      → Entered (start_monitoring S deps text cfg l op o)
  unfolding start_monitoring register_hedge
  start_monitoring-Entered qty l s op o near h w =
      guarded-Entered monitoring _ o op (λ m. register_hedge S deps text cfg l m o)
        (λ m legs at.
          hedged-IsEntered S cfg.delta_tolerance_base qty l s m near
            (same-Holds S qty l s op m legs h) w)

  pub finish-Entered :
      (qty l s : Decimal) (op : OpenPosition Decimal) (o : Outside Decimal)
      → le (distance S l s) cfg.delta_tolerance_base ≡ true
      → Holds S qty l s op
      → Within S qty l s
      → Entered (finish_opening S deps text cfg l s op o)
  unfolding finish_opening
  finish-Entered qty l s op o near h w =
      guarded-Entered hedged _ o op (λ q. start_monitoring S deps text cfg l q o)
        (λ q legs at.
          start_monitoring-Entered qty l s q o near (same-Holds S qty l s op q legs h) w)

  -- DEGRADED is taken, or the position stays in a state that is no hedge.
  pub degraded-IsEntered :
      (reason : String) (qty l s : Decimal) (op : OpenPosition Decimal) (o : Outside Decimal)
      → is_hedge op.position.state ≡ false
      → Holds S qty l s op
      → Within S qty l s
      → IsEntered S cfg.delta_tolerance_base (registered (shift S deps degraded reason o op).0)
  degraded-IsEntered reason qty l s op o free h w =
      let (legs, moves) = shift-Shifted S deps degraded reason o op in
      let d = (shift S deps degraded reason o op).0 in
      let still : is_hedge d.position.state ≡ false = elim moves [
        | inl (fine, at) ↦ ap is_hedge at
        | inr (bad, at) ↦ ap is_hedge at ∙ free
      ] in
      unhedged-IsEntered S cfg.delta_tolerance_base qty l s d still
        (same-Holds S qty l s op d legs h) w

  pub check_delta-Entered :
      (qty l s : Decimal) (op : OpenPosition Decimal) (o : Outside Decimal)
      → is_hedge op.position.state ≡ false
      → Holds S qty l s op
      → Within S qty l s
      → Entered (check_delta S deps text cfg l s op o)
  unfolding check_delta give_up_repair
  check_delta-Entered qty l s op o free h w =
      if-both Entered
        (greater_than S (distance S l s) cfg.delta_tolerance_base || (is_zero S l && is_zero S s))
        (λ e. degraded-IsEntered _ qty l s op o free h w)
        (λ e. finish-Entered qty l s op o (ground arith) h w)
