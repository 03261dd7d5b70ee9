-- ===== src/Engine/Cycle/Laws.antt =====
-- What the cycle of fandos1/internal/engine/engine.go keeps.
use fandos.Prelude.{
  ◌+◌, ◌≤◌, String, ◌≡◌, refl, true, not, ◌&&◌, Option, none, some, inl, inr, List, [], ◌∷◌, arith,
  Option-cases, if-both, leb, length, lookup, remove, adjust, length-remove, length-adjust,
  length-insert, AllValues, AllValues-remove, AllValues-adjust, AllValues-insert, AllValues-lookup,
}
use fandos.Decimal.{Shopspring}
use fandos.Portfolio.{State, monitoring, degraded, closed, failed}
use fandos.Engine.World.{
  Candidate, OpenPosition, Severity, Notice, critical, warn, needs_attention, engine_paused,
  observe_only, Outside, Deps, EngineText, Config, Engine, notify_operator,
}
use fandos.Engine.Closing.{
  Ending, not_started, complete, not_recorded, unknown_leg, unfinished, Ended, close_steps,
  finish_close, close_position,
}
use fandos.Engine.Closing.Balance.{close_steps-Balanced}
use fandos.Engine.Opening.{Outcome, skipped, dropped, registered, Opened, open_position}
use fandos.Engine.Opening.Balance.{is_balanced, IsEntered}
use fandos.Engine.Opening.Entered.{open_position-IsEntered}
use fandos.Engine.Cycle.{
  request_close, forget, pick_candidate, notify_once, is_recent, funding_spread_flipped,
  monitor_hedge, monitor_degraded, monitor_by_state, monitor_one, monitor, keep_opened,
  open_candidate, try_open, tick, Visit, Happening, ticks, requests_close, happen, run,
}

module _ (S : Shopspring) (cfg : Config S.Decimal) where
  open S use {Decimal}

  abbrev IsFair : OpenPosition Decimal → Type 0
  IsFair op = is_balanced S cfg.delta_tolerance_base op ≡ true

  -- The engine has no more positions than are allowed, and every one in HEDGED or MONITORING has its
  -- legs within the tolerance.
  pub record IsSound (e : Engine Decimal) : Type 0 where
    pub few : length e.open_positions ≤ cfg.max_open_positions
    pub balanced : AllValues IsFair e.open_positions

  -- A change of the engine that can only take positions away.
  removed-IsSound :
      (key : String) (e e' : Engine Decimal)
      → e'.open_positions ≡ remove key e.open_positions
      → IsSound e
      → IsSound e'
  removed-IsSound key e e' same h = record {
    few = rw same (omega (arith, h.few, length-remove key e.open_positions));
    balanced = rw same (AllValues-remove IsFair key e.open_positions h.balanced);
  }

  adjusted-IsSound :
      (key : String) (op : OpenPosition Decimal) (e e' : Engine Decimal)
      → e'.open_positions ≡ adjust key op e.open_positions
      → IsFair op
      → IsSound e
      → IsSound e'
  adjusted-IsSound key op e e' same fair h = record {
    few = rw same (omega (arith, h.few, length-adjust key op e.open_positions));
    balanced = rw same (AllValues-adjust IsFair key op e.open_positions fair h.balanced);
  }

  same-IsSound :
      (e e' : Engine Decimal) → e'.open_positions ≡ e.open_positions → IsSound e → IsSound e'
  same-IsSound e e' same h = record { few = rw same h.few; balanced = rw same h.balanced }

module _ (S : Shopspring) (deps : Deps S.Decimal) (text : EngineText S.Decimal)
    (cfg : Config S.Decimal) where
  open S use {Decimal}

  abbrev Sound : Engine Decimal → Type 0
  Sound = IsSound S cfg

  finish_close-IsSound :
      (id : String) (r : Ended Decimal) (ending : Ending) (e : Engine Decimal)
      → IsFair S cfg r.op
      → Sound e
      → Sound (finish_close S deps text cfg id r ending e)
  unfolding finish_close
  finish_close-IsSound id r not_started e fair h = adjusted-IsSound S cfg id r.op e _ refl fair h
  finish_close-IsSound id r not_recorded e fair h = adjusted-IsSound S cfg id r.op e _ refl fair h
  finish_close-IsSound id r Ending.panicked e fair h =
      adjusted-IsSound S cfg id r.op e _ refl fair h
  finish_close-IsSound id r unknown_leg e fair h = adjusted-IsSound S cfg id r.op e _ refl fair h
  finish_close-IsSound id r unfinished e fair h = adjusted-IsSound S cfg id r.op e _ refl fair h
  finish_close-IsSound id r complete e fair h =
      let e' = record e { open_positions = adjust id r.op e.open_positions } in
      removed-IsSound S cfg id e' _ refl (adjusted-IsSound S cfg id r.op e e' refl fair h)

  close_position-IsSound :
      (id : String) (op : OpenPosition Decimal) (reason : String) (e : Engine Decimal)
      → IsFair S cfg op
      → Sound e
      → Sound (close_position S deps text cfg id op reason e)
  unfolding close_position
  close_position-IsSound id op reason e fair h =
      let r = close_steps S deps text cfg reason op e.outside in
      finish_close-IsSound id r r.ending e
        (close_steps-Balanced S deps text cfg cfg.delta_tolerance_base reason op e.outside fair) h

  notify_once-IsSound :
      (key : String) (severity : Severity) (notice : Notice Decimal) (e : Engine Decimal)
      → Sound e
      → Sound (notify_once S deps key severity notice e)
  unfolding notify_once
  notify_once-IsSound key severity notice e h =
      if-both Sound (is_recent S deps (deps.clock e.outside) (lookup key e.last_notified)) (λ f. h)
        (λ f. same-IsSound S cfg e _ refl h)

  monitor_hedge-IsSound :
      (id : String) (op : OpenPosition Decimal) (e : Engine Decimal) (requested : Option String)
      → IsFair S cfg op
      → Sound e
      → Sound (monitor_hedge S deps text cfg id op e requested)
  unfolding monitor_hedge
  monitor_hedge-IsSound id op e (some reason) fair h = close_position-IsSound id op reason e fair h
  monitor_hedge-IsSound id op e none fair h =
      if-both Sound (cfg.exit_if_funding_sign_changes && funding_spread_flipped S deps op e.outside)
        (λ f. close_position-IsSound id op "funding spread sign changed" e fair h) (λ f. h)

  monitor_degraded-IsSound :
      (id : String) (op : OpenPosition Decimal) (e : Engine Decimal) (requested : Option String)
      → IsFair S cfg op
      → Sound e
      → Sound (monitor_degraded S deps text cfg id op e requested)
  unfolding monitor_degraded
  monitor_degraded-IsSound id op e (some reason) fair h =
      close_position-IsSound id op reason e fair h
  monitor_degraded-IsSound id op e none fair h = h

  monitor_by_state-IsSound :
      (id : String) (op : OpenPosition Decimal) (e : Engine Decimal) (state : State)
      → IsFair S cfg op
      → Sound e
      → Sound (monitor_by_state S deps text cfg id op e state)
  unfolding monitor_by_state forget
  monitor_by_state-IsSound id op e monitoring fair h =
      monitor_hedge-IsSound id op e (lookup id e.close_req) fair h
  monitor_by_state-IsSound id op e degraded fair h =
      monitor_degraded-IsSound id op _ (lookup id e.close_req) fair
        (notify_once-IsSound (text.degraded_key id) critical (needs_attention id) e h)
  monitor_by_state-IsSound id op e closed fair h = removed-IsSound S cfg id e _ refl h
  monitor_by_state-IsSound id op e failed fair h = removed-IsSound S cfg id e _ refl h
  monitor_by_state-IsSound id op e _ fair h = h

  monitor_one-IsSound :
      (id : String) (e : Engine Decimal) → Sound e → Sound (monitor_one S deps text cfg id e)
  unfolding monitor_one
  monitor_one-IsSound id e h =
      if-both Sound e.crashed (λ f. h)
        (λ f. elim (Option-cases (lookup id e.open_positions)) [
          | inl at ↦ rw at h
          | inr (op, at) ↦ rw at (
              monitor_by_state-IsSound id op e op.position.state
                (AllValues-lookup (IsFair S cfg) id e.open_positions op h.balanced at) h)
        ])

  keep_opened-IsSound :
      (id : String) (r : Opened Decimal) (outcome : Outcome Decimal) (e : Engine Decimal)
      → IsEntered S cfg.delta_tolerance_base outcome
      → length e.open_positions + 1 ≤ cfg.max_open_positions
      → Sound e
      → Sound (keep_opened S deps text cfg id r outcome e)
  unfolding keep_opened
  keep_opened-IsSound id r Outcome.panicked e t room h = same-IsSound S cfg _ _ refl h
  keep_opened-IsSound id r skipped e t room h = same-IsSound S cfg e _ refl h
  keep_opened-IsSound id r (dropped op) e t room h = same-IsSound S cfg e _ refl h
  keep_opened-IsSound id r (registered op) e t room h = record {
    few = omega (arith, room, length-insert id op e.open_positions);
    balanced = AllValues-insert (IsFair S cfg) id op e.open_positions t.0 h.balanced;
  }

  open_candidate-IsSound :
      (e : Engine Decimal) (best : Option Candidate)
      → length e.open_positions + 1 ≤ cfg.max_open_positions
      → Sound e
      → Sound (open_candidate S deps text cfg e best)
  unfolding open_candidate
  open_candidate-IsSound e none room h = h
  open_candidate-IsSound e (some cand) room h =
      let id = text.position_id (deps.clock e.outside) (e.seq + 1) cand.asset in
      let r = open_position S deps text cfg id cand e.outside in
      let numbered = record e { seq = e.seq + 1 } in
      if-both Sound (not cfg.orders_enabled)
        (λ f. notify_once-IsSound "observe-only" warn observe_only e h)
        (λ f.
          keep_opened-IsSound id r r.outcome numbered
            (open_position-IsEntered S deps text cfg id cand e.outside) room
            (same-IsSound S cfg e numbered refl h))

  try_open-IsSound : (e : Engine Decimal) → Sound e → Sound (try_open S deps text cfg e)
  unfolding try_open
  try_open-IsSound e h =
      if-both Sound e.crashed (λ f. h)
        (λ f.
          if-both Sound (leb cfg.max_open_positions (length e.open_positions)) (λ g. h)
            (λ g.
              open_candidate-IsSound e (pick_candidate e.open_positions (deps.scan e.outside))
                (ground arith) h))

module _ (S : Shopspring) (text : EngineText S.Decimal) (cfg : Config S.Decimal) where
  open S use {Decimal}

  abbrev Fine : Engine Decimal → Type 0
  Fine = IsSound S cfg

  monitor-IsSound :
      (visits : List (Visit Decimal)) (e : Engine Decimal)
      → Fine e
      → Fine (monitor S text cfg visits e)
  unfolding monitor
  monitor-IsSound [] e h = h
  monitor-IsSound ((id, deps) ∷ rest) e h =
      monitor-IsSound rest _ (monitor_one-IsSound S deps text cfg id e h)

  tick-IsSound :
      (deps : Deps Decimal) (visits : List (Visit Decimal)) (e : Engine Decimal)
      → Fine e
      → Fine (tick S text cfg deps visits e)
  unfolding tick
  tick-IsSound deps visits e h =
      if-both Fine e.crashed (λ f. h)
        (λ f.
          if-both Fine (deps.is_halted e.outside).0
            (λ g.
              notify_once-IsSound S deps text cfg "engine_halted" warn
                (engine_paused (deps.is_halted e.outside).1) e h)
            (λ g.
              try_open-IsSound S deps text cfg (monitor S text cfg visits e)
                (monitor-IsSound visits e h)))

  happen-IsSound :
      (h : Happening Decimal) (e : Engine Decimal) → Fine e → Fine (happen S text cfg h e)
  unfolding happen request_close
  happen-IsSound (ticks deps visits) e s = tick-IsSound deps visits e s
  happen-IsSound (requests_close id reason) e s = same-IsSound S cfg e _ refl s

  -- Through every sequence of ticks and close requests, in every order in which a tick visits the
  -- positions, and whatever the exchanges, the registry, the market data, the clock, the persister, the
  -- halter and the scanner answer to each tick and during each visit, the engine keeps this: it has at
  -- most the configured number of open positions, and every one of them in HEDGED or MONITORING has its
  -- legs within the tolerance of each other.
  pub run-IsSound :
      (happenings : List (Happening Decimal)) (e : Engine Decimal)
      → Fine e
      → Fine (run S text cfg happenings e)
  unfolding run
  run-IsSound [] e s = s
  run-IsSound (h ∷ rest) e s = run-IsSound rest (happen S text cfg h e) (happen-IsSound h e s)

  -- What the engine has asked of the exchanges, its positions and its close requests are as before.
  abbrev pub IsStill : Engine Decimal → Engine Decimal → Type 0
  IsStill e e' =
      (e'.outside.requests ≡ e.outside.requests)
      × (e'.open_positions ≡ e.open_positions)
      × (e'.close_req ≡ e.close_req)

  -- A tick while the halter says that trading is halted sends no request to any exchange, and leaves the
  -- positions and the close requests alone: the halt stops the monitoring and the closing of open
  -- positions too, also of those whose close has been requested.
  pub tick-halted :
      (deps : Deps Decimal) (visits : List (Visit Decimal)) (e : Engine Decimal)
      → (deps.is_halted e.outside).0 ≡ true
      → IsStill e (tick S text cfg deps visits e)
  unfolding tick notify_once notify_operator
  tick-halted deps visits e halted =
      if-both (IsStill e) e.crashed (λ f. (refl, refl, refl))
        (λ f.
          if-both (IsStill e) (deps.is_halted e.outside).0
            (λ g.
              if-both (IsStill e)
                (is_recent S deps (deps.clock e.outside) (lookup "engine_halted" e.last_notified))
                (λ x. (refl, refl, refl))
                (λ x. (
                  if-both (λ (o : Outside Decimal). o.requests ≡ e.outside.requests)
                      deps.has_notifier (λ y. refl) (λ y. refl),
                  refl,
                  refl,
                )))
            (λ g. cc))
