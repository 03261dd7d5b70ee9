-- ===== src/Rebalance/Plan/Laws.antt =====
-- Every sequence of calls of `Plan.Transition`.
use fandos.Prelude.{
  if◌then◌else◌, ℕ, String, ◌≡◌, refl, ◌≢◌, ◌⊎◌, inl, inr, Bool, true, false, ◌&&◌, none, List, [],
  ◌∷◌, arith, Option, some,
}
use fandos.Rebalance.Plan.{
  is_completed, is_failed, PlanError, PlanState, draft, planned, test_confirmed, main_sent,
  main_confirmed, completed, failed, cancelled, PlanProposal, Plan, is_terminal, allowed, new_plan,
  transition,
}

-- A call: the next state, the reason, and the time that the clock shows.
abbrev pub Call : Type 0
Call = PlanState × String × ℕ

-- The states in which no transfer has been sent.
abbrev pub is_unsent : PlanState → Bool
is_unsent draft = true
is_unsent planned = true
is_unsent failed = true
is_unsent cancelled = true
is_unsent _ = false

-- The states from the main transfer on.
abbrev pub is_main : PlanState → Bool
is_main main_sent = true
is_main main_confirmed = true
is_main completed = true
is_main _ = false

abbrev pub has_time : Option ℕ → Bool
has_time none = false
has_time (some t) = true

confirmed-cases : (s : PlanState) → (s ≡ test_confirmed) ⊎ (s ≢ test_confirmed)
confirmed-cases s = ground arith

-- A step from PLANNED to a state in which the plan goes on.
abbrev pub goes_on : PlanState → PlanState → Bool
goes_on planned failed = false
goes_on planned cancelled = false
goes_on planned next = true
goes_on state next = false

module _ {D : Type 0} where
  -- A dry run that would go on from PLANNED.
  abbrev pub is_held : Plan D → PlanState → Bool
  is_held p next = p.dry_run && goes_on p.state next

  unfoldable pub run : List Call → Plan D → Plan D
  run [] p = p
  run ((next, reason, now) ∷ cs) p = run cs (transition next reason now p).0

  -- What a call may do to the plan `p`: an error that leaves it alone, or the step.
  abbrev pub Outcome : PlanState → String → ℕ → Plan D → Plan D × Option PlanError → Type 0
  Outcome next reason now p (p', e) =
      ((e ≢ none)
        × (p' ≡ p)
        × ((is_terminal p.state ≡ true) ⊎ (allowed p.state next ≡ false) ⊎ (is_held p next ≡ true)))
      ⊎ ((e ≡ none)
          × (is_terminal p.state ≡ false)
          × (allowed p.state next ≡ true)
          × (is_held p next ≡ false)
          × (p'.state ≡ next)
          × (p'.id ≡ p.id)
          × (p'.dry_run ≡ p.dry_run)
          × (p'.proposal ≡ p.proposal)
          × (p'.created_at ≡ p.created_at)
          × (p'.updated_at ≡ now)
          × (p'.failure_reason ≡ (if is_failed next then reason else p.failure_reason))
          × (p'.completed_at ≡ (if is_completed next then some now else p.completed_at)))

  -- A call either returns an error and leaves the plan as it was, and then the state is terminal, or
  -- the table does not allow the step, or a dry run would leave PLANNED for another state than FAILED
  -- and CANCELLED; or it returns no error, and then none of the three holds, and the plan is in the
  -- requested state with this update time, with the same identifier, proposal, dry-run flag and
  -- creation time, with the reason if it has failed and the completion time if it is completed.
  pub transition-cases :
      (next : PlanState) (reason : String) (now : ℕ) (p : Plan D)
      → Outcome next reason now p (transition next reason now p)
  unfolding transition
  transition-cases next reason now p = ground arith

  -- The plan is in state `u` after one of the calls.
  abbrev pub Passes : PlanState → List Call → Plan D → Type 0
  Passes u [] p = ⊥
  Passes u ((next, reason, now) ∷ cs) p =
      ((transition next reason now p).0.state ≡ u) ⊎ Passes u cs (transition next reason now p).0

  dry_step :
      (next : PlanState) (reason : String) (now : ℕ) (p : Plan D)
      → p.dry_run ≡ true
      → is_unsent p.state ≡ true
      → ((transition next reason now p).0.dry_run ≡ true)
        × (is_unsent (transition next reason now p).0.state ≡ true)
  unfolding transition
  dry_step next reason now p d h = ground arith

  dry_run-run :
      (cs : List Call) (p : Plan D)
      → p.dry_run ≡ true
      → is_unsent p.state ≡ true
      → is_unsent (run cs p).state ≡ true
  unfolding run
  dry_run-run [] p d h = h
  dry_run-run ((next, reason, now) ∷ cs) p d h =
      let (d', h') = dry_step next reason now p d h in
      dry_run-run cs (transition next reason now p).0 d' h'

  -- A dry-run plan never gets past PLANNED: after any calls it is DRAFT, PLANNED, FAILED or
  -- CANCELLED.
  pub dry_run_unsent :
      (cs : List Call) (id : String) (proposal : PlanProposal D) (now : ℕ)
      → is_unsent (run cs (new_plan id proposal true now)).state ≡ true
  unfolding new_plan
  dry_run_unsent cs id proposal now = dry_run-run cs (new_plan id proposal true now) refl refl

  main_step :
      (next : PlanState) (reason : String) (now : ℕ) (p : Plan D)
      → is_main p.state ≡ false
      → p.state ≢ test_confirmed
      → is_main (transition next reason now p).0.state ≡ false
  unfolding transition
  main_step next reason now p h ne = ground arith

  main_run :
      (cs : List Call) (p : Plan D)
      → is_main p.state ≡ false
      → p.state ≢ test_confirmed
      → is_main (run cs p).state ≡ true
      → Passes test_confirmed cs p
  unfolding run
  main_run [] p h ne m = cc
  main_run ((next, reason, now) ∷ cs) p h ne m =
      let q = (transition next reason now p).0 in
      elim (confirmed-cases q.state) [
        | inl e ↦ inl e
        | inr ne' ↦ inr (main_run cs q (main_step next reason now p h ne) ne' m)
      ]

  -- The main transfer is behind the test barrier: a plan that any calls have brought to MAIN_SENT,
  -- MAIN_CONFIRMED or COMPLETED has been in TEST_CONFIRMED.
  pub main_needs_test :
      (cs : List Call) (id : String) (proposal : PlanProposal D) (dry : Bool) (now : ℕ)
      → is_main (run cs (new_plan id proposal dry now)).state ≡ true
      → Passes test_confirmed cs (new_plan id proposal dry now)
  unfolding new_plan
  main_needs_test cs id proposal dry now m =
      main_run cs (new_plan id proposal dry now) refl (ground arith) m

  -- The completion time and the state agree.
  abbrev pub Inv : Plan D → Type 0
  Inv p = has_time p.completed_at ≡ is_completed p.state

  transition-Inv :
      (next : PlanState) (reason : String) (now : ℕ) (p : Plan D)
      → Inv p
      → Inv (transition next reason now p).0
  unfolding transition
  transition-Inv next reason now p h = ground arith

  run_keeps_Inv : (cs : List Call) (p : Plan D) → Inv p → Inv (run cs p)
  unfolding run
  run_keeps_Inv [] p h = h
  run_keeps_Inv ((next, reason, now) ∷ cs) p h =
      run_keeps_Inv cs (transition next reason now p).0 (transition-Inv next reason now p h)

  -- After any calls on a new plan the completion time is set if the plan is COMPLETED, and only then.
  pub run-Inv :
      (cs : List Call) (id : String) (proposal : PlanProposal D) (dry : Bool) (now : ℕ)
      → Inv (run cs (new_plan id proposal dry now))
  unfolding new_plan
  run-Inv cs id proposal dry now = run_keeps_Inv cs (new_plan id proposal dry now) refl
