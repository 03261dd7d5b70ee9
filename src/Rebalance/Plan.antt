-- ===== src/Rebalance/Plan.antt =====
-- fandos1/internal/rebalance/state_machine.go, and the proposal of planner.go that a plan carries.
-- The injected clock is an argument `now` of the calls that read it.
pub mod Laws
use fandos.Prelude.{
  ℕ, String, ◌≡◌, Bool, true, false, not, ◌&&◌, ◌||◌, Option, none, some, if◌then◌else◌,
}

pub data PlanState : Type 0 where
  draft planned awaiting_approval test_sent test_confirmed main_sent main_confirmed : PlanState
  completed failed cancelled : PlanState

unfoldable pub is_terminal : PlanState → Bool
is_terminal completed = true
is_terminal failed = true
is_terminal cancelled = true
is_terminal _ = false

unfoldable pub is_active : PlanState → Bool
unfolding is_terminal
is_active s = not (is_terminal s)

-- `allowedPlanTransitions` and its lookup.
unfoldable pub allowed : PlanState → PlanState → Bool
allowed draft planned = true
allowed draft failed = true
allowed draft cancelled = true
allowed planned awaiting_approval = true
allowed planned failed = true
allowed planned cancelled = true
allowed awaiting_approval test_sent = true
allowed awaiting_approval failed = true
allowed awaiting_approval cancelled = true
allowed test_sent test_confirmed = true
allowed test_sent failed = true
allowed test_sent cancelled = true
allowed test_confirmed main_sent = true
allowed test_confirmed failed = true
allowed test_confirmed cancelled = true
allowed main_sent main_confirmed = true
allowed main_sent failed = true
allowed main_sent cancelled = true
allowed main_confirmed completed = true
allowed main_confirmed failed = true
allowed _ _ = false

pub data PlanError : Type 0 where
  invalid_transition terminal_state dry_run_stopped : PlanError

pub record PlanProposal (D : Type 0) : Type 0 where
  pub from_exchange : String
  pub to_exchange : String
  pub asset : String
  pub gross_amount : D
  pub reason : String

pub record Plan (D : Type 0) : Type 0 where
  pub id : String
  pub state : PlanState
  pub dry_run : Bool
  pub proposal : PlanProposal D
  pub failure_reason : String
  pub created_at : ℕ
  pub updated_at : ℕ
  pub completed_at : Option ℕ

abbrev pub is_planned : PlanState → Bool
is_planned planned = true
is_planned _ = false

abbrev pub is_failed : PlanState → Bool
is_failed failed = true
is_failed _ = false

abbrev pub is_cancelled : PlanState → Bool
is_cancelled cancelled = true
is_cancelled _ = false

abbrev pub is_completed : PlanState → Bool
is_completed completed = true
is_completed _ = false

module _ {D : Type 0} where
  unfoldable pub new_plan : String → PlanProposal D → Bool → ℕ → Plan D
  new_plan id proposal dry_run now = record {
    id = id;
    state = draft;
    dry_run = dry_run;
    proposal = proposal;
    failure_reason = "";
    created_at = now;
    updated_at = now;
    completed_at = none;
  }

  unfoldable pub transition : PlanState → String → ℕ → Plan D → Plan D × Option PlanError
  unfolding is_terminal allowed
  transition next reason now p =
      if is_terminal p.state
      then (p, some terminal_state)
      else if p.dry_run && is_planned p.state && not (is_failed next) && not (is_cancelled next)
      then (p, some dry_run_stopped)
      else if allowed p.state next
      then (
        record p {
          state = next;
          updated_at = now;
          failure_reason = if is_failed next then reason else p.failure_reason;
          completed_at = if is_completed next then some now else p.completed_at;
        },
        none,
      )
      else (p, some invalid_transition)
