-- ===== src/Portfolio/Tests.antt =====
-- A position that is qualified, prepared and opened, a failing persister, and two interleaved calls.
use fandos.Prelude.{◌≡◌, refl, ◌≢◌, ◌⊎◌, inr, ℤ, pos, none, some, List, [], ◌∷◌}
use fandos.Decimal.Example.{integers}
use fandos.Portfolio.{
  State, qualified, preparing, opening, partially_hedged, closed, discovered, Error, Position,
  Persister, Transition, is_terminal, is_open_like, begin_transition, transition_to, set_quantities,
  commit, rollback, persist_failed, new_position,
}
use fandos.Portfolio.Table.{Visits}
use fandos.Portfolio.Laws.{
  Outcome, pending, record_of, Call, transition, quantities, call, calls, transition_to-Outcome,
  terminal_absorbs,
}
use fandos.Portfolio.Concurrent.{
  Shared, Step, Reach, Inv, rest, begin, persisted, persist_error, here, next, interleaving-Inv,
  exposure_needs_opening,
}

abbrev start : Position ℤ
start = new_position integers "p1" "BTC" "binance" "gate" 5

abbrev broken : Persister ℤ
broken p t = some "database is down"

persist_error_undoes :
    let (p, e) = transition_to qualified 7 "found" "system:scanner" (some broken) start in
    (p.state ≡ discovered) × (p.history ≡ []) × (e ≡ some (persist_failed "database is down"))
unfolding transition_to new_position
persist_error_undoes = (refl, refl, refl)

transition_to-Outcome_example :
    Outcome start qualified 7 "found" "system:scanner"
      (transition_to qualified 7 "found" "system:scanner" (some broken) start)
transition_to-Outcome_example =
    transition_to-Outcome qualified 7 "found" "system:scanner" (some broken) start

abbrev dead : Position ℤ
dead = record start { state = closed }

terminal_absorbs_example :
    let cs : List (Call ℤ) = quantities (pos 2) (pos 1) 9 ∷ [] in
    let c : Call ℤ = transition discovered 9 "again" "user" none in
    (calls integers cs dead ≡ dead) × ((call integers c (calls integers cs dead)).1 ≢ none)
unfolding is_terminal
terminal_absorbs_example =
    terminal_absorbs integers (quantities (pos 2) (pos 1) 9 ∷ [])
      (transition discovered 9 "again" "user" none) dead (refl)

-- The transition of one goroutine is being persisted; another goroutine writes quantities; then the
-- persister fails.
abbrev asked : Position ℤ × (Error ⊎ Transition)
asked = begin_transition qualified 7 "found" "system" start

abbrev record_1 : Transition
record_1 = record { from = discovered; to = qualified; at = 7; reason = "found"; actor = "system" }

abbrev written : Position ℤ
written = (set_quantities (pos 1) (pos 1) 8 asked.0).0

raced :
    Reach integers
      (rest integers start)
      (record { position = rollback discovered 7 written; in_flight = [] })
unfolding begin_transition set_quantities new_position
raced =
    next
      (next
        (next here (begin (rest integers start) qualified 7 "found" "system" asked.0 record_1 refl))
        (Step.quantities (record { position = asked.0; in_flight = record_1 ∷ [] }) (pos 1) (pos 1)
          8))
      (persist_error (record { position = written; in_flight = record_1 ∷ [] }) [] [] record_1 refl)

interleaving-Inv_example :
    Inv integers discovered (record { position = rollback discovered 7 written; in_flight = [] })
unfolding new_position
interleaving-Inv_example = interleaving-Inv integers start refl refl raced

-- A call whose persister succeeds.
abbrev advance : State → Position ℤ → Position ℤ
advance to p = commit (pending p to 9 "" "")

advance-Reach :
    {s : Shared ℤ} (p : Position ℤ) (to : State)
    → begin_transition to 9 "" "" p ≡ (pending p to 9 "" "", inr (record_of p to 9 "" ""))
    → Reach integers s (rest integers p)
    → Reach integers s (rest integers (advance to p))
advance-Reach p to h r = next (next r (begin (rest integers p) to 9 "" "" _ _ h)) (
    persisted (record { position = pending p to 9 "" ""; in_flight = record_of p to 9 "" "" ∷ [] })
      [] [] (record_of p to 9 "" "") refl)

abbrev opened : Position ℤ
opened = advance partially_hedged (advance opening (advance preparing (advance qualified start)))

opened-Reach : Reach integers (rest integers start) (rest integers opened)
unfolding begin_transition new_position commit
opened-Reach =
    advance-Reach (advance opening (advance preparing (advance qualified start))) partially_hedged
      refl
      (advance-Reach (advance preparing (advance qualified start)) opening refl (
        advance-Reach (advance qualified start) preparing refl
          (advance-Reach start qualified refl here)))

exposure_needs_opening_example : Visits opening opened.history
unfolding is_open_like commit
exposure_needs_opening_example =
    exposure_needs_opening integers "p1" "BTC" "binance" "gate" 5 opened-Reach refl
