-- ===== src/Engine/Closing/Exit.antt =====
-- Where `closePosition` of fandos1/internal/engine/engine.go leaves a position.
use fandos.Prelude.{
  String, ◌≡◌, refl, ◌∙◌, ap, false, ◌⊎◌, inl, inr, Option, none, some, if◌then◌else◌,
}
use fandos.Decimal.{Shopspring, is_positive, min}
use fandos.Portfolio.{
  State, exit_requested, exiting, reconciling, closed, degraded, is_terminal, Position,
  set_quantities,
}
use fandos.Execution.Orders.{Adapter}
use fandos.Execution.Close.{CloseError, close_incomplete, close_ambiguous, Closing}
use fandos.Execution.Close.Laws.{IsTally, Settled, coordinated_close-Settled}
use fandos.Engine.World.{
  OpenPosition, Outside, Deps, EngineText, Config, shift, resolve_symbols, persist_legs,
}
use fandos.Engine.Moves.{
  IsStep, same-IsStep, exit_requested_exiting, exiting_reconciling, exiting_degraded,
  reconciling_closed, reconciling_degraded, moved, shift-moved,
}
use fandos.Engine.Closing.{
  complete, unknown_leg, unfinished, Ended, is_exit_requested, run_close, take_off, record_closed,
  record_unknown, record_unfinished, conclude, settle, close_legs, exit_legs, request_exit,
  close_steps, outside_of, markets_of, request_of, config_of, venues_of,
}

-- A state in which a close may start.
abbrev pub CanExit : State → Type 0
CanExit s = (s ≡ exit_requested) ⊎ ((is_exit_requested s ≡ false) × IsStep s exit_requested)

module _ (S : Shopspring) where
  open S use {Decimal, zero, sub, add, le}

  -- What a close of two legs sets out to close on both.
  abbrev pub close_target : Decimal → Decimal → Decimal
  close_target l s = let target = min S l s in if is_positive S target then target else zero

  -- What a position with these legs has after a close that has closed these quantities.
  abbrev pub HasLess : Decimal → Decimal → Decimal → Decimal → OpenPosition Decimal → Type 0
  HasLess l s long_closed short_closed op =
      (op.position.long_base_qty ≡ sub l long_closed)
      × (op.position.short_base_qty ≡ sub s short_closed)

  -- How a close of these legs may end. Where it is complete, the position is CLOSED and both legs are
  -- less by the target; where it is not, the position is DEGRADED, and each leg is less by what is
  -- closed of the target.
  pub data Exited (l s : Decimal) (r : Ended Decimal) : Type 0 where
    whole :
        r.ending ≡ complete
        → r.op.position.state ≡ closed
        → HasLess l s (close_target l s) (close_target l s) r.op
        → Exited l s r
    partial :
        (r.ending ≡ unknown_leg) ⊎ (r.ending ≡ unfinished)
        → r.op.position.state ≡ degraded
        → (long_closed short_closed long_left short_left : Decimal)
        → HasLess l s long_closed short_closed r.op
        → IsTally S (close_target l s) long_closed long_left
        → IsTally S (close_target l s) short_closed short_left
        → Exited l s r

module _ (S : Shopspring) (deps : Deps S.Decimal) (text : EngineText S.Decimal)
    (cfg : Config S.Decimal)
    (saves : (p : Position S.Decimal) (o : Outside S.Decimal) → deps.persister p o ≡ none) where
  open S use {Decimal, zero, sub}

  run_close-Settled :
      (op : OpenPosition Decimal) (o : Outside Decimal)
      (long_adapter short_adapter : Adapter Decimal)
      → Settled S
          (close_target S op.position.long_base_qty op.position.short_base_qty)
          (run_close S deps text cfg op o long_adapter short_adapter)
  unfolding run_close
  run_close-Settled op o long_adapter short_adapter =
      elim (coordinated_close-Settled S text.format
        (markets_of S deps text cfg op o long_adapter short_adapter) (request_of S deps text cfg op)
        (config_of S deps text cfg op) (venues_of S deps text cfg op o)) [
          | inl (p, h) ↦ rw p h
          | inr (p, h) ↦ rw (h, p) (Settled.closed refl refl refl)
        ]

  record_closed-Exited :
      (reason why : String) (l s : Decimal) (op : OpenPosition Decimal) (o : Outside Decimal)
      → IsStep op.position.state reconciling
      → op.position.persisting ≡ false
      → HasLess S l s (close_target S l s) (close_target S l s) op
      → Exited S l s (record_closed S deps text cfg reason (shift S deps reconciling why o op).0 o)
  unfolding record_closed
  record_closed-Exited reason why l s op o step idle less =
      rw
        (
          shift-moved S deps reconciling why o op step idle saves,
          shift-moved S deps closed reason o (moved S deps reconciling why o op) reconciling_closed
              refl saves,
        )
        (Exited.whole refl refl less)

  record_unknown-Exited :
      (id : String) (c : Closing Decimal) (l s : Decimal) (op : OpenPosition Decimal)
      (o : Outside Decimal)
      → IsStep op.position.state reconciling
      → op.position.persisting ≡ false
      → (long_left short_left : Decimal)
      → HasLess S l s c.result.long_closed_qty c.result.short_closed_qty op
      → IsTally S (close_target S l s) c.result.long_closed_qty long_left
      → IsTally S (close_target S l s) c.result.short_closed_qty short_left
      → Exited S l s (record_unknown S deps text cfg id c op o)
  unfolding record_unknown
  record_unknown-Exited id c l s op o step idle long_left short_left less hl hs =
      let why = text.close_reason c.result.reason in
      let last : String = "ambiguous close: manual reconciliation required" in
      rw
        (
          shift-moved S deps reconciling why o op step idle saves,
          shift-moved S deps degraded last o (moved S deps reconciling why o op)
              reconciling_degraded refl saves,
        )
        (Exited.partial (inl refl) refl _ _ long_left short_left less hl hs)

  record_unfinished-Exited :
      (id : String) (c : Closing Decimal) (l s : Decimal) (op : OpenPosition Decimal)
      (o : Outside Decimal)
      → IsStep op.position.state degraded
      → op.position.persisting ≡ false
      → (long_left short_left : Decimal)
      → HasLess S l s c.result.long_closed_qty c.result.short_closed_qty op
      → IsTally S (close_target S l s) c.result.long_closed_qty long_left
      → IsTally S (close_target S l s) c.result.short_closed_qty short_left
      → Exited S l s (record_unfinished S deps text cfg id c op o)
  unfolding record_unfinished
  record_unfinished-Exited id c l s op o step idle long_left short_left less hl hs =
      let why = text.close_reason c.result.reason in
      rw (shift-moved S deps degraded why o op step idle saves)
        (Exited.partial (inr refl) refl _ _ long_left short_left less hl hs)

  -- A position in EXITING, with its quantities less what is closed, ends as the close did.
  conclude-Exited :
      (reason : String) (c : Closing Decimal) (l s : Decimal) (op : OpenPosition Decimal)
      (o : Outside Decimal)
      → op.position.state ≡ exiting
      → op.position.persisting ≡ false
      → HasLess S l s c.result.long_closed_qty c.result.short_closed_qty op
      → Settled S (close_target S l s) c
      → (e : Option CloseError) → c.error ≡ e
      → Exited S l s (conclude S deps text cfg reason c e op o)
  unfolding conclude
  conclude-Exited reason c l s op o at idle less (Settled.closed e hl hs) none given =
      record_closed-Exited reason _ l s op o
        (same-IsStep op.position.state exiting _ at exiting_reconciling) idle
        (less.0 ∙ ap (sub _) hl, less.1 ∙ ap (sub _) hs)
  conclude-Exited reason c l s op o at idle less (Settled.closed e hl hs) (some x) given = cc
  conclude-Exited reason c l s op o at idle less (Settled.degraded e d hl hs) none given =
      absurd (e given)
  conclude-Exited reason c l s op o at idle less (Settled.degraded e d hl hs) (some close_ambiguous)
        given =
      record_unknown-Exited op.position.id c l s op o
        (same-IsStep op.position.state exiting _ at exiting_reconciling) idle _ _ less hl hs
  conclude-Exited reason c l s op o at idle less (Settled.degraded e d hl hs)
        (some close_incomplete) given =
      record_unfinished-Exited op.position.id c l s op o
        (same-IsStep op.position.state exiting _ at exiting_degraded) idle _ _ less hl hs

  -- The position less what the close has closed.
  abbrev less_by : Closing Decimal → OpenPosition Decimal → Outside Decimal → OpenPosition Decimal
  less_by c op o =
      let p = op.position in
      record op {
        position = record p {
          long_base_qty = sub p.long_base_qty c.result.long_closed_qty;
          short_base_qty = sub p.short_base_qty c.result.short_closed_qty;
          updated_at = deps.clock o;
        };
      }

  take_off-less_by :
      (c : Closing Decimal) (o : Outside Decimal) (op : OpenPosition Decimal)
      → is_terminal op.position.state ≡ false
      → take_off S deps text cfg c o op ≡ less_by c op o
  unfolding take_off set_quantities
  take_off-less_by c o op h = rw h refl

  settle-Exited :
      (reason : String) (c : Closing Decimal) (op : OpenPosition Decimal) (o : Outside Decimal)
      → op.position.state ≡ exiting
      → op.position.persisting ≡ false
      → Settled S (close_target S op.position.long_base_qty op.position.short_base_qty) c
      → Exited S op.position.long_base_qty op.position.short_base_qty
          (settle S deps text cfg reason c op o)
  unfolding settle
  settle-Exited reason c op o at idle h =
      let o' = outside_of S deps text cfg op o c.venues in
      let less = less_by c op o' in
      rw (take_off-less_by c o' op (same-IsStep op.position.state exiting _ at exiting_degraded).0)
        (conclude-Exited reason c _ _ less (persist_legs S deps less o') at idle (refl, refl) h
          c.error refl)

  module _ (long_adapter short_adapter : Adapter Decimal) where
    exit_legs-Exited :
        (reason : String) (op : OpenPosition Decimal) (o : Outside Decimal)
        → op.position.state ≡ exit_requested
        → op.position.persisting ≡ false
        → deps.executor op.long_ex ≡ some long_adapter
        → deps.executor op.short_ex ≡ some short_adapter
        → Exited S op.position.long_base_qty op.position.short_base_qty
            (exit_legs S deps text cfg reason op o)
    unfolding exit_legs close_legs
    exit_legs-Exited reason op o at idle on_long on_short =
        let q = moved S deps exiting reason o op in
        rw
          (
            shift-moved S deps exiting reason o op
                (same-IsStep op.position.state exit_requested _ at exit_requested_exiting) idle
                saves,
            on_long,
            on_short,
          )
          (settle-Exited reason (run_close S deps text cfg q o long_adapter short_adapter) q o refl
            refl (run_close-Settled q o long_adapter short_adapter))

    request_exit-Exited :
        (reason : String) (op : OpenPosition Decimal) (o : Outside Decimal)
        → CanExit op.position.state
        → op.position.persisting ≡ false
        → deps.executor op.long_ex ≡ some long_adapter
        → deps.executor op.short_ex ≡ some short_adapter
        → Exited S op.position.long_base_qty op.position.short_base_qty
            (request_exit S deps text cfg reason op o)
    unfolding request_exit
    request_exit-Exited reason op o can idle on_long on_short =
        let q = moved S deps exit_requested reason o op in
        elim can [
          | inl at ↦
              rw (ap is_exit_requested at) (exit_legs-Exited reason op o at idle on_long on_short)
          | inr (later, step) ↦
              rw (later, shift-moved S deps exit_requested reason o op step idle saves)
                (exit_legs-Exited reason q o refl refl on_long on_short)
        ]

    -- A close of a position that may leave is carried out, whatever the exchanges and the books
    -- answer. A position may leave in EXIT_REQUESTED and where the table allows EXIT_REQUESTED. With the
    -- symbols known, both executors configured, no other transition under way and a persister that never
    -- fails, the position ends CLOSED, and then each leg is less by exactly the smaller of both (by
    -- nothing if that is not positive); or it ends DEGRADED, and then each leg is less by what is closed
    -- of this quantity, with a rest that is not negative.
    pub close_steps-Exited :
        (reason : String) (op op' : OpenPosition Decimal) (o : Outside Decimal)
        → resolve_symbols S deps o op ≡ some op'
        → CanExit op'.position.state
        → op'.position.persisting ≡ false
        → deps.executor op'.long_ex ≡ some long_adapter
        → deps.executor op'.short_ex ≡ some short_adapter
        → Exited S op'.position.long_base_qty op'.position.short_base_qty
            (close_steps S deps text cfg reason op o)
    unfolding close_steps
    close_steps-Exited reason op op' o known can idle on_long on_short =
        rw (close_steps, known) (request_exit-Exited reason op' o can idle on_long on_short)
