-- ===== src/Lifecycle/Tests.antt =====
-- A lock that is one flag, pings that fail, and components that return.
use fandos.Prelude.{
  ℕ, String, ◌≡◌, refl, inl, inr, Bool, true, false, none, some, List, [], ◌∷◌, ◌++◌, map, arith,
  pos,
}
use fandos.Lifecycle.Halter.{LockControl, System, Texts, new_halter, halt, restart, restore_from_db}
use fandos.Lifecycle.Halter.Laws.{Reliable, halt_survives_restart}
use fandos.Lifecycle.Halter.Concurrent.{
  Shared, Step, start_halt, finish_halt, start_resume, finish_resume, start_restore, finish_restore,
  step, steps, is_apart, are_apart, IsSafe, steps-IsSafe,
}
use fandos.Lifecycle.Watchdog.{run_watchdog, threshold_of}
use fandos.Lifecycle.Watchdog.Laws.{run_watchdog-halted}
use fandos.Lifecycle.Supervisor.{
  clean, canceled, parent_done, exited, SupervisorEvent, supervise, collect, first_error,
}
use fandos.Lifecycle.Supervisor.Laws.{Stopped, supervise-Stopped}

abbrev flag : LockControl Bool
flag = record {
  engage = λ reason db. (true, none);
  release = λ db. (false, none);
  is_engaged = λ db. (db, none);
}

abbrev same : Bool → Bool
same db = db

flag-Reliable : Reliable flag same
flag-Reliable = record {
  engages = λ reason db h. refl;
  releases = λ db h. refl;
  keeps = λ db h. refl;
  reads = λ db h. refl;
}

abbrev texts : Texts
texts = record {
  engaged = λ reason. reason;
  persist_failed = λ reason. reason;
  safe_halt = λ reason. reason;
}

abbrev running : System Bool
running = record { halter = new_halter true true; db = false; outputs = [] }

abbrev alone : Shared Bool
alone = record {
  system = running;
  halting = 0;
  clearing = 0;
  found_engaged = 0;
  found_released = 0;
}

-- Two halts at once, and then a resumption with a restoration in it.
abbrev two_halts : List Step
two_halts =
    start_halt "operator"
    ∷ start_halt "clock"
    ∷ finish_halt "clock"
    ∷ finish_halt "operator"
    ∷ start_resume
    ∷ start_restore
    ∷ finish_resume
    ∷ finish_restore false
    ∷ []

alone-IsSafe : IsSafe flag texts same alone
alone-IsSafe = record {
  strict = inr refl;
  halts = inl refl;
  clears = inl refl;
  stores = inl refl;
  apart = inl refl;
}

two_halts-apart : are_apart flag texts two_halts alone ≡ true
unfolding are_apart is_apart step
two_halts-apart = refl

steps-IsSafe_example : IsSafe flag texts same (steps flag texts two_halts alone)
steps-IsSafe_example =
    steps-IsSafe flag texts same flag-Reliable two_halts alone two_halts-apart alone-IsSafe

-- A halt between the two steps of a resumption leaves the lock engaged and the flag cleared.
overtaken :
    let s =
      (steps flag texts
        (start_resume ∷ start_halt "clock" ∷ finish_halt "clock" ∷ finish_resume ∷ [])
        alone).system in
    (s.halter.halted ≡ false) × (s.db ≡ true)
unfolding steps step
overtaken = (refl, refl)

halt_survives_restart_example :
    (restart flag texts false true (halt flag texts "operator" running).0).0.halter.halted ≡ true
unfolding halt restore_from_db
halt_survives_restart_example =
    halt_survives_restart flag texts same flag-Reliable "operator" running false true refl refl

abbrev unavailable : ℕ → String → String
unavailable n e = e

abbrev two_failures : List String
two_failures = "timeout" ∷ "refused" ∷ []

run_watchdog-halted_example :
    (run_watchdog flag texts unavailable
      (pos 2)
      ((some "timeout" ∷ none ∷ []) ++ (map some two_failures ++ (none ∷ [])))
      running).halter.halted
    ≡ true
unfolding threshold_of
run_watchdog-halted_example =
    run_watchdog-halted flag texts unavailable (pos 2) (some "timeout" ∷ none ∷ []) (none ∷ [])
      two_failures running (omega arith) (omega arith)

abbrev shutdown : List SupervisorEvent
shutdown = parent_done ∷ exited "http" clean ∷ exited "scanner" canceled ∷ []

supervise-Stopped_example : Stopped 2 shutdown
unfolding supervise collect first_error
supervise-Stopped_example = supervise-Stopped 2 shutdown refl
