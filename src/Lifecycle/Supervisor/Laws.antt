-- ===== src/Lifecycle/Supervisor/Laws.antt =====
-- What an end of the supervisor without an error means.
use fandos.Prelude.{ℕ, zero, suc, ◌-◌, ◌≡◌, none, some, List, [], ◌∷◌, arith}
use mathlib.Core.Path.{subst}
use fandos.Lifecycle.Supervisor.{
  clean, canceled, failing, SupervisorEvent, parent_done, deadline, exited, ComponentFailed, ended,
  first_error, collect, supervise,
}

-- At least `n` components have returned, and the first `n` of them without a failure.
abbrev pub Stopped : ℕ → List SupervisorEvent → Type 0
Stopped zero events = Unit
Stopped (suc n) [] = ⊥
Stopped (suc n) (exited name (failing e) ∷ events) = ⊥
Stopped (suc n) (exited name x ∷ events) = Stopped n events
Stopped (suc n) (_ ∷ events) = Stopped (suc n) events

collect_error :
    (events : List SupervisorEvent) (n : ℕ) (e : ComponentFailed)
    → collect events n (some e) ≡ ended none
    → ⊥
unfolding collect first_error
collect_error events zero e h = cc
collect_error [] (suc n) e h = cc
collect_error (parent_done ∷ events) (suc n) e h = collect_error events (suc n) e h
collect_error (deadline ∷ events) (suc n) e h = cc
collect_error (exited name x ∷ events) (suc n) e h = collect_error events n e h

collect-Stopped :
    (events : List SupervisorEvent) (n : ℕ) → collect events n none ≡ ended none → Stopped n events
unfolding collect first_error
collect-Stopped events zero h = tt
collect-Stopped [] (suc n) h = cc
collect-Stopped (parent_done ∷ events) (suc n) h = collect-Stopped events (suc n) h
collect-Stopped (deadline ∷ events) (suc n) h = cc
collect-Stopped (exited name clean ∷ events) (suc n) h = collect-Stopped events n h
collect-Stopped (exited name canceled ∷ events) (suc n) h = collect-Stopped events n h
collect-Stopped (exited name (failing e) ∷ events) (suc n) h = absurd (collect_error events n _ h)

pred_suc : (n : ℕ) → suc n - 1 ≡ n
pred_suc n = omega arith

-- The supervisor swallows no failure and leaves nobody behind: it ends without an error only when all
-- the components have returned, each with no error or because of the cancellation.
pub supervise-Stopped :
    (n : ℕ) (events : List SupervisorEvent) → supervise n events ≡ ended none → Stopped n events
unfolding supervise first_error
supervise-Stopped zero events h = tt
supervise-Stopped (suc n) [] h = cc
supervise-Stopped (suc n) (parent_done ∷ events) h = collect-Stopped events (suc n) h
supervise-Stopped (suc n) (deadline ∷ events) h = supervise-Stopped (suc n) events h
supervise-Stopped (suc n) (exited name clean ∷ events) h =
    collect-Stopped events n (subst (λ k. collect events k none ≡ ended none) (pred_suc n) h)
supervise-Stopped (suc n) (exited name canceled ∷ events) h =
    collect-Stopped events n (subst (λ k. collect events k none ≡ ended none) (pred_suc n) h)
supervise-Stopped (suc n) (exited name (failing e) ∷ events) h =
    absurd (collect_error events (suc n - 1) (record { name = name; cause = e }) h)
