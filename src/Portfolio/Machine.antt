-- ===== src/Portfolio/Machine.antt =====
-- The states of a position in fandos1/internal/portfolio/state_machine.go, and the transition table.
use fandos.Prelude.{Bool, true, false}

pub data State : Type 0 where
  discovered qualified awaiting_approval preparing opening partially_hedged hedged : State
  monitoring exit_requested exiting reconciling closed degraded failed : State

unfoldable pub is_terminal : State → Bool
is_terminal closed = true
is_terminal failed = true
is_terminal _ = false

unfoldable pub is_open_like : State → Bool
is_open_like partially_hedged = true
is_open_like hedged = true
is_open_like monitoring = true
is_open_like exit_requested = true
is_open_like exiting = true
is_open_like degraded = true
is_open_like _ = false

-- `allowedTransitions` and its lookup.
unfoldable pub can_transition : State → State → Bool
can_transition discovered qualified = true
can_transition discovered failed = true
can_transition qualified awaiting_approval = true
can_transition qualified preparing = true
can_transition qualified failed = true
can_transition awaiting_approval preparing = true
can_transition awaiting_approval discovered = true
can_transition awaiting_approval failed = true
can_transition preparing opening = true
can_transition preparing failed = true
can_transition preparing discovered = true
can_transition opening partially_hedged = true
can_transition opening hedged = true
can_transition opening degraded = true
can_transition opening failed = true
can_transition partially_hedged hedged = true
can_transition partially_hedged degraded = true
can_transition partially_hedged exit_requested = true
can_transition partially_hedged failed = true
can_transition hedged monitoring = true
can_transition hedged exit_requested = true
can_transition monitoring exit_requested = true
can_transition monitoring degraded = true
can_transition monitoring reconciling = true
can_transition exit_requested exiting = true
can_transition exit_requested degraded = true
can_transition exiting reconciling = true
can_transition exiting degraded = true
can_transition exiting failed = true
can_transition reconciling closed = true
can_transition reconciling degraded = true
can_transition reconciling failed = true
can_transition degraded exit_requested = true
can_transition degraded reconciling = true
can_transition degraded failed = true
can_transition degraded closed = true
can_transition _ _ = false
