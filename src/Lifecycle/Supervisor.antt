-- ===== src/Lifecycle/Supervisor.antt =====
-- Supervisor of fandos1/internal/lifecycle/lifecycle.go. Its two `select` statements read what comes
-- first; an event that the statement at hand does not wait for is skipped.
pub mod Laws
use fandos.Prelude.{
  ℕ, zero, suc, ◌-◌, String, ◌≡◌, Bool, true, false, Option, none, some, List, [], ◌∷◌,
  if◌then◌else◌,
}

-- How a component returns: with no error, with `context.Canceled`, or with another error.
pub data ComponentExit : Type 0 where
  clean canceled : ComponentExit
  failing : String → ComponentExit

pub data SupervisorEvent : Type 0 where
  parent_done deadline : SupervisorEvent
  exited : String → ComponentExit → SupervisorEvent

-- `ErrComponentFailed`, with the name of the component and its error.
pub record ComponentFailed : Type 0 where
  pub name : String
  pub cause : String

-- At the deadline: how many have not stopped, and the first failure.
pub data SupervisorError : Type 0 where
  component_failed : ComponentFailed → SupervisorError
  not_stopped : ℕ → Option ComponentFailed → SupervisorError

pub data Supervision : Type 0 where
  -- Still waiting behind the events.
  waiting : Supervision
  ended : Option SupervisorError → Supervision

-- `if firstErr == nil && e.err != nil && !errors.Is(e.err, context.Canceled)`.
unfoldable pub first_error :
    Option ComponentFailed → String → ComponentExit → Option ComponentFailed
first_error (some e) name x = some e
first_error none name (failing e) = some (record { name = name; cause = e })
first_error none name clean = none
first_error none name canceled = none

abbrev pub error_of : Option ComponentFailed → Option SupervisorError
error_of none = none
error_of (some e) = some (component_failed e)

-- The loop that collects the exits of the others, for the number that is missing.
unfoldable pub collect : List SupervisorEvent → ℕ → Option ComponentFailed → Supervision
collect events zero err = ended (error_of err)
collect [] (suc n) err = waiting
collect (parent_done ∷ events) (suc n) err = collect events (suc n) err
collect (deadline ∷ events) (suc n) err = ended (some (not_stopped (suc n) err))
collect (exited name x ∷ events) (suc n) err = collect events n (first_error err name x)

-- `Run`, for a number of components.
unfoldable pub supervise : ℕ → List SupervisorEvent → Supervision
unfolding collect first_error
supervise n [] = waiting
supervise n (parent_done ∷ events) = collect events n none
supervise n (deadline ∷ events) = supervise n events
supervise n (exited name x ∷ events) = collect events (n - 1) (first_error none name x)
