-- ===== src/Engine/Moves.antt =====
-- What a transition does to an open position of the engine.
use fandos.Prelude.{
  String, ◌≡◌, refl, true, false, ◌⊎◌, inl, inr, Option, none, some, [], ◌∷◌, ◌++◌, Option-cases,
  if-both,
}
use fandos.Decimal.{Shopspring}
use fandos.Portfolio.{
  State, exit_requested, exiting, reconciling, closed, degraded, is_terminal, can_transition, Error,
  Position, begin_transition, rollback, commit, finish_transition, transition_to, Transition,
  after_begin,
}
use fandos.Engine.World.{OpenPosition, Outside, Deps, is_some, shift}

-- The quantities of two open positions are the same.
pub record SameLegs {D : Type 0} (op op' : OpenPosition D) : Type 0 where
  pub long : op'.position.long_base_qty ≡ op.position.long_base_qty
  pub short : op'.position.short_base_qty ≡ op.position.short_base_qty
  pub target : op'.position.target_base_qty ≡ op.position.target_base_qty

same : {D : Type 0} {op : OpenPosition D} → SameLegs op op
same = record { long = refl; short = refl; target = refl }

-- A transition leaves the quantities alone, and the position is in the new state or has an error and
-- is in the old one.
abbrev pub Shifted : {D : Type 0} → State → OpenPosition D → OpenPosition D × Option Error → Type 0
Shifted to op r =
    SameLegs op r.0
    × (((r.1 ≡ none) × (r.0.position.state ≡ to))
        ⊎ ((is_some r.1 ≡ true) × (r.0.position.state ≡ op.position.state)))

-- The table allows a transition.
abbrev pub IsStep : State → State → Type 0
IsStep from to = (is_terminal from ≡ false) × (can_transition from to ≡ true)

pub same-IsStep : (s from to : State) → s ≡ from → IsStep from to → IsStep s to
same-IsStep s from to h step = rw h step

pub exit_requested_exiting : IsStep exit_requested exiting
unfolding is_terminal can_transition
exit_requested_exiting = (refl, refl)

pub exiting_reconciling : IsStep exiting reconciling
unfolding is_terminal can_transition
exiting_reconciling = (refl, refl)

pub exiting_degraded : IsStep exiting degraded
unfolding is_terminal can_transition
exiting_degraded = (refl, refl)

pub reconciling_closed : IsStep reconciling closed
unfolding is_terminal can_transition
reconciling_closed = (refl, refl)

pub reconciling_degraded : IsStep reconciling degraded
unfolding is_terminal can_transition
reconciling_degraded = (refl, refl)

module _ (S : Shopspring) (deps : Deps S.Decimal) where
  open S use {Decimal}

  -- The record of a transition.
  abbrev pub stamp : State → String → Outside Decimal → OpenPosition Decimal → Transition
  stamp to reason o op = record {
    from = op.position.state;
    to = to;
    at = deps.clock o;
    reason = reason;
    actor = "system:engine";
  }

  -- A position behind a transition.
  abbrev pub stepped : Position Decimal → Transition → Position Decimal
  stepped p t = record p { state = t.to; updated_at = t.at; history = p.history ++ t ∷ [] }

  -- What the second half of a transition makes of the first.
  abbrev MovedBy :
      State
      → OpenPosition Decimal
      → Outside Decimal
      → Position Decimal × (Error ⊎ Transition)
      → Type 0
  MovedBy to op o x =
      let r = after_begin (some (λ p t. deps.persister p o)) x in
      Shifted to op (record op { position = r.0 }, r.1)

  begun-MovedBy :
      (to : State) (o : Outside Decimal) (op : OpenPosition Decimal) (p : Position Decimal)
      (t : Transition)
      → SameLegs op (record op { position = p })
      → p.state ≡ to
      → t.from ≡ op.position.state
      → MovedBy to op o (p, inr t)
  unfolding finish_transition rollback commit
  begun-MovedBy to o op p t legs at from = elim (Option-cases (deps.persister p o)) [
    | inl h ↦
        rw h (record { long = legs.long; short = legs.short; target = legs.target }, inl (refl, at))
    | inr (x, h) ↦
        rw h
          (record { long = legs.long; short = legs.short; target = legs.target }, inr (refl, from))
  ]

  pub shift-Shifted :
      (to : State) (reason : String) (o : Outside Decimal) (op : OpenPosition Decimal)
      → Shifted to op (shift S deps to reason o op)
  unfolding shift transition_to begin_transition
  shift-Shifted to reason o op =
      let p = op.position in
      if-both (MovedBy to op o) (is_terminal p.state) (λ e. (same, inr (refl, refl)))
        (λ e.
          if-both (MovedBy to op o) p.persisting (λ f. (same, inr (refl, refl)))
            (λ f.
              if-both (MovedBy to op o) (can_transition p.state to)
                (λ g.
                  begun-MovedBy to o op
                    (stepped (record p { persisting = true }) (stamp to reason o op))
                    (stamp to reason o op) (record { long = refl; short = refl; target = refl })
                    refl refl)
                (λ g. (same, inr (refl, refl)))))

  -- What a transition does to a position that takes it.
  abbrev pub moved : State → String → Outside Decimal → OpenPosition Decimal → OpenPosition Decimal
  moved to reason o op = record op {
    position = record (stepped op.position (stamp to reason o op)) { persisting = false };
  }

  -- A transition that the table allows, with no other one under way, and that the persister takes,
  -- has no error.
  pub shift-moved :
      (to : State) (reason : String) (o : Outside Decimal) (op : OpenPosition Decimal)
      → IsStep op.position.state to
      → op.position.persisting ≡ false
      → ((p : Position Decimal) (o' : Outside Decimal) → deps.persister p o' ≡ none)
      → shift S deps to reason o op ≡ (moved to reason o op, none)
  unfolding shift transition_to begin_transition finish_transition commit
  shift-moved to reason o op (ongoing, allowed) idle saves = rw (
    ongoing,
    idle,
    allowed,
    saves (stepped (record op.position { persisting = true }) (stamp to reason o op)) o,
  )
