-- ===== src/Engine/Closing/Balance.antt =====
-- A close in fandos1/internal/engine/engine.go leaves no hedge out of balance.
use fandos.Prelude.{
  String, ◌≡◌, refl, ap, ◌∙◌, true, false, not, ◌&&◌, Option, none, some, inl, inr, arith,
  Bool-cases, Option-cases, if-both, str_eq,
}
use fandos.Decimal.{Shopspring, is_zero, is_positive, min}
use fandos.Portfolio.{
  State, exit_requested, exiting, reconciling, closed, degraded, is_terminal, set_quantities,
}
use fandos.Execution.Orders.{Adapter}
use fandos.Execution.Close.{Closing, CloseError, close_ambiguous, close_incomplete}
use fandos.Engine.World.{
  Instrument, OpenPosition, Outside, Deps, from_registry, EngineText, Config, is_some, shift,
  resolve_symbols, persist_legs,
}
use fandos.Engine.Moves.{shift-Shifted}
use fandos.Engine.Opening.Balance.{is_hedge, is_balanced}
use fandos.Engine.Closing.{
  Ended, is_exit_requested, run_close, take_off, record_closed, record_unknown, record_unfinished,
  conclude, settle, or_missing, close_legs, exit_legs, request_exit, close_steps, outside_of,
}

module _ (S : Shopspring) where
  open S use {Decimal, le}

  abbrev pub IsUnhedged : OpenPosition Decimal → Type 0
  IsUnhedged op = is_hedge op.position.state ≡ false

  unhedged-balanced :
      (tolerance : Decimal) (op : OpenPosition Decimal)
      → IsUnhedged op
      → is_balanced S tolerance op ≡ true
  unhedged-balanced tolerance op h = ground arith

module _ (S : Shopspring) (deps : Deps S.Decimal) where
  open S use {Decimal, le}

  shift-IsUnhedged :
      (to : State) (reason : String) (o : Outside Decimal) (op : OpenPosition Decimal)
      → is_hedge to ≡ false
      → IsUnhedged S op
      → IsUnhedged S (shift S deps to reason o op).0
  shift-IsUnhedged to reason o op free h = elim (shift-Shifted S deps to reason o op).1 [
    | inl (fine, at) ↦ ap is_hedge at ∙ free
    | inr (bad, at) ↦ ap is_hedge at ∙ h
  ]

  -- A transition to a state that is no hedge keeps the balance.
  shift-balanced :
      (to : State) (reason : String) (o : Outside Decimal) (tolerance : Decimal)
      (op : OpenPosition Decimal)
      → is_hedge to ≡ false
      → is_balanced S tolerance op ≡ true
      → is_balanced S tolerance (shift S deps to reason o op).0 ≡ true
  shift-balanced to reason o tolerance op free h =
      let (legs, moves) = shift-Shifted S deps to reason o op in
      elim moves [
        | inl (fine, at) ↦
            unhedged-balanced S tolerance (shift S deps to reason o op).0 (ap is_hedge at ∙ free)
        | inr (bad, at) ↦ rw (legs.long, legs.short, at) h
      ]

  -- The symbols do not change the position.
  abbrev Kept : OpenPosition Decimal → Option (OpenPosition Decimal) → Type 0
  Kept op none = Unit
  Kept op (some op') = op'.position ≡ op.position

  from_registry-Kept :
      (op : OpenPosition Decimal) (li si : Option (Instrument Decimal))
      → Kept op (from_registry S deps op li si)
  from_registry-Kept op (some li) (some si) = refl
  from_registry-Kept op (some li) none = tt
  from_registry-Kept op none si = tt

  resolve_symbols-Kept :
      (o : Outside Decimal) (op : OpenPosition Decimal) → Kept op (resolve_symbols S deps o op)
  unfolding resolve_symbols
  resolve_symbols-Kept o op =
      if-both (Kept op)
        (not (str_eq op.long_sym "")
          && not (str_eq op.short_sym "")
          && not (is_zero S op.tick_size))
        (λ e. refl)
        (λ e.
          from_registry-Kept op (deps.instrument op.long_ex op.asset o)
            (deps.instrument op.short_ex op.asset o))

module _ (S : Shopspring) (deps : Deps S.Decimal) (text : EngineText S.Decimal)
    (cfg : Config S.Decimal) where
  open S use {Decimal, le}

  record_closed-IsUnhedged :
      (reason : String) (op : OpenPosition Decimal) (o : Outside Decimal)
      → IsUnhedged S op
      → IsUnhedged S (record_closed S deps text cfg reason op o).op
  unfolding record_closed
  record_closed-IsUnhedged reason op o h =
      let left = shift-IsUnhedged S deps closed reason o op refl h in
      elim (Bool-cases (is_some (shift S deps closed reason o op).1)) [
        | inl e ↦ rw (record_closed, e) left
        | inr e ↦ rw (record_closed, e) left
      ]

  conclude-IsUnhedged :
      (reason : String) (c : Closing Decimal) (e : Option CloseError) (op : OpenPosition Decimal)
      (o : Outside Decimal)
      → IsUnhedged S op
      → IsUnhedged S (conclude S deps text cfg reason c e op o).op
  unfolding conclude record_unknown record_unfinished
  conclude-IsUnhedged reason c none op o h =
      record_closed-IsUnhedged reason (shift S deps reconciling "close complete, verifying" o op).0
        o (shift-IsUnhedged S deps reconciling "close complete, verifying" o op refl h)
  conclude-IsUnhedged reason c (some close_ambiguous) op o h =
      let why = text.close_reason c.result.reason in
      shift-IsUnhedged S deps degraded "ambiguous close: manual reconciliation required" o
        (shift S deps reconciling why o op).0 refl
        (shift-IsUnhedged S deps reconciling why o op refl h)
  conclude-IsUnhedged reason c (some close_incomplete) op o h =
      shift-IsUnhedged S deps degraded (text.close_reason c.result.reason) o op refl h

  take_off-state :
      (c : Closing Decimal) (o : Outside Decimal) (op : OpenPosition Decimal)
      → (take_off S deps text cfg c o op).position.state ≡ op.position.state
  unfolding take_off set_quantities
  take_off-state c o op = elim (Bool-cases (is_terminal op.position.state)) [
    | inl e ↦ rw e refl
    | inr e ↦ rw e refl
  ]

  close_legs-IsUnhedged :
      (reason : String) (op : OpenPosition Decimal) (o : Outside Decimal)
      (l s : Option (Adapter Decimal))
      → IsUnhedged S op
      → IsUnhedged S (close_legs S deps text cfg reason op o l s).op
  unfolding close_legs settle
  close_legs-IsUnhedged reason op o l s h =
      let target = min S op.position.long_base_qty op.position.short_base_qty in
      let c =
        run_close S deps text cfg op o (or_missing S deps text cfg l)
          (or_missing S deps text cfg s) in
      let o' = outside_of S deps text cfg op o c.venues in
      let less = take_off S deps text cfg c o' op in
      if-both (λ (r : Ended Decimal). IsUnhedged S r.op)
        (not (is_some l && is_some s) && is_positive S target) (λ e. h)
        (λ e.
          conclude-IsUnhedged reason c c.error less (persist_legs S deps less o')
            (ap is_hedge (take_off-state c o' op) ∙ h))

  module _ (tolerance : Decimal) where
    abbrev Balanced : Ended Decimal → Type 0
    Balanced r = is_balanced S tolerance r.op ≡ true

    exit_legs-Balanced :
        (reason : String) (op : OpenPosition Decimal) (o : Outside Decimal)
        → is_balanced S tolerance op ≡ true
        → Balanced (exit_legs S deps text cfg reason op o)
    unfolding exit_legs
    exit_legs-Balanced reason op o h =
        let q = (shift S deps exiting reason o op).0 in
        let closing =
          close_legs S deps text cfg reason q o (deps.executor op.long_ex)
            (deps.executor op.short_ex) in
        elim (shift-Shifted S deps exiting reason o op).1 [
          | inl (fine, at) ↦
              let free =
                close_legs-IsUnhedged reason q o (deps.executor op.long_ex)
                  (deps.executor op.short_ex) (ap is_hedge at) in
              rw (exit_legs, fine) (unhedged-balanced S tolerance closing.op free)
          | inr (bad, at) ↦
              rw (exit_legs, bad) (shift-balanced S deps exiting reason o tolerance op refl h)
        ]

    request_exit-Balanced :
        (reason : String) (op : OpenPosition Decimal) (o : Outside Decimal)
        → is_balanced S tolerance op ≡ true
        → Balanced (request_exit S deps text cfg reason op o)
    unfolding request_exit
    request_exit-Balanced reason op o h =
        let asked = shift-balanced S deps exit_requested reason o tolerance op refl h in
        if-both Balanced (is_exit_requested op.position.state)
          (λ e. exit_legs-Balanced reason op o h)
          (λ e.
            if-both Balanced (is_some (shift S deps exit_requested reason o op).1) (λ f. asked)
              (λ f. exit_legs-Balanced reason (shift S deps exit_requested reason o op).0 o asked))

    -- The steps of a close keep the balance of the position.
    pub close_steps-Balanced :
        (reason : String) (op : OpenPosition Decimal) (o : Outside Decimal)
        → is_balanced S tolerance op ≡ true
        → Balanced (close_steps S deps text cfg reason op o)
    unfolding close_steps
    close_steps-Balanced reason op o h = elim (Option-cases (resolve_symbols S deps o op)) [
      | inl e ↦ rw (close_steps, e) h
      | inr (q, e) ↦
          let kept : q.position ≡ op.position = rw e at (resolve_symbols-Kept S deps o op) in
          rw (close_steps, e) (request_exit-Balanced reason q o (rw kept h))
    ]
