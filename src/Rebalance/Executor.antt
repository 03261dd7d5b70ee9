-- ===== src/Rebalance/Executor.antt =====
-- fandos1/internal/rebalance/executor.go and ValidateRoute of address.go: the two-phase transfer.
-- A run acts on the plan, the breaker and the outside world. What it asks of the world (the store,
-- the exchange, the confirmation checker, the clock, the context) is a list of effects, newest
-- first, and the world answers each by all that went before: an `Env` is any such behaviour.
pub mod Monad
pub mod Budget
pub mod Moves
pub mod Barrier
pub mod Waiting
unfoldable pub use Monad.*
use fandos.Prelude.{
  ℕ, zero, suc, ◌+◌, ℤ, ltb, String, ◌≡◌, Bool, true, false, not, ◌⊎◌, inl, inr, ◌&&◌, Option, none,
  some, List, [], ◌∷◌, if◌then◌else◌,
}
use fandos.Decimal.{Shopspring, greater_than}
use fandos.Rebalance.Plan.{
  PlanState, awaiting_approval, test_sent, test_confirmed, main_sent, main_confirmed, completed,
  failed, Plan, transition,
}
use fandos.Rebalance.Breaker.{CircuitBreaker, is_tripped, record_failure, record_success}

pub record ExecutorConfig (D : Type 0) : Type 0 where
  pub test_amount_usdt : D
  pub test_timeout : ℕ
  pub main_timeout : ℕ
  pub poll_interval : ℕ

pub record Route (D : Type 0) : Type 0 where
  pub route_id : ℕ
  pub from_exchange : String
  pub to_exchange : String
  pub asset : String
  pub network : String
  pub address : String
  pub address_fingerprint : String
  pub memo : String
  pub fee_cap : Option D
  pub approved_at : Option ℕ
  pub kind : AttemptKind

abbrev pub is_awaiting_approval : PlanState → Bool
is_awaiting_approval awaiting_approval = true
is_awaiting_approval _ = false

abbrev pub is_test_confirmed : PlanState → Bool
is_test_confirmed test_confirmed = true
is_test_confirmed _ = false

abbrev pub is_some {ℓ} : {A : Type ℓ} → Option A → Bool
is_some none = false
is_some (some a) = true

-- String concatenation, the breaker's wording and the rendering of errors are the caller's.
pub record Text : Type 0 where
  pub test_id : String → String
  pub main_id : String → String
  pub scope : String → String
  pub describe_trip : ℤ → String → String
  pub describe : ExecError → String

-- `route.FeeCap != nil && estimatedFee.GreaterThan(*route.FeeCap)`.
unfoldable pub exceeds_cap : (S : Shopspring) → S.Decimal → Option S.Decimal → Bool
exceeds_cap S fee none = false
exceeds_cap S fee (some cap) = greater_than S fee cap

module _ (S : Shopspring) (text : Text) (env : Env S.Decimal) where
  open S use {Decimal, zero as zero_amount}

  -- `plan.Transition`, with the time that the clock shows; the code reads the clock behind its guards,
  -- whose outcome does not depend on the time.
  unfoldable pub timed_transition : PlanState → String → Run Decimal (Unit {0})
  timed_transition next reason = do
    w ← get
    if is_some (transition next reason 0 w.plan).1
        then move (transition next reason 0)
        else (do now ← clock env; move (transition next reason now))

  unfoldable pub step_plan : PlanState → Run Decimal (Unit {0})
  step_plan next = timed_transition next ""

  unfoldable pub fail_plan : {A : Type 0} → ExecError → Run Decimal A
  fail_plan e = do
    _ ← attempt (timed_transition failed (text.describe e))
    w ← get
    _ ← store env (update_plan_state w.plan.id failed (text.describe e))
    raise e

  -- `e.breaker.RecordFailure(scope)`.
  unfoldable pub count_failure : String → Run Decimal (Unit {0})
  count_failure scope = do
    now ← clock env
    set_breaker (record_failure text.describe_trip scope now)

  -- The `switch` of `doTransfer`.
  unfoldable pub transfer_of_kind : AttemptKind → Route Decimal → Decimal → Run Decimal String
  transfer_of_kind on_chain route amount =
      send env (withdraw route.asset amount route.network route.address route.memo)
  transfer_of_kind internal route amount =
      send env (internal_transfer route.asset amount route.from_exchange route.to_exchange)
  transfer_of_kind unknown route amount = raise unknown_route_kind

  unfoldable pub do_transfer : Route Decimal → Decimal → Run Decimal String
  unfolding transfer_of_kind
  do_transfer route amount = transfer_of_kind route.kind route amount

  unfoldable pub wait_confirmation : ℕ → ℕ → String → ℕ → Run Decimal Bool
  wait_confirmation zero interval request_id deadline = raise out_of_fuel
  wait_confirmation (suc fuel) interval request_id deadline =
      let again = wait_confirmation fuel interval request_id deadline in
      do
        stop ← done env poll_context
        if stop then raise context_done else do
          now ← clock env
          if ltb deadline now then pure false else do
            credited ← check env request_id
            if credited
                then pure true
                else if ltb 0 interval
                then (do stop ← done env wait; if stop then raise context_done else again)
                else pure false

  -- The handling of a transfer that was not sent: the error of recording it is added to the error.
  unfoldable pub not_sent : String → String → ExecError → Run Decimal (Unit {0})
  not_sent scope request_id e = do
    count_failure scope
    r ← store env (update_attempt_status request_id AttemptStatus.failed (text.describe e))
    fail_plan (elim r [ none ↦ e | some x ↦ also e x ])

  -- The handling of a confirmation that did not come in time.
  unfoldable pub not_confirmed : String → String → ExecError → Run Decimal (Unit {0})
  not_confirmed scope request_id e = do
    count_failure scope
    _ ← store env (update_attempt_status request_id timed_out (text.describe e))
    fail_plan e

  -- The handling of a failed check in ExecuteMain, where the error of recording it is dropped.
  unfoldable pub check_failed : String → String → ExecError → Run Decimal (Unit {0})
  check_failed scope request_id e = do
    count_failure scope
    _ ← store env (update_attempt_status request_id AttemptStatus.failed (text.describe e))
    fail_plan e

  module _ (cfg : ExecutorConfig Decimal) (fuel : ℕ) (route : Route Decimal) where
    -- From the confirmation of the TEST transfer on.
    unfoldable pub finish_test : String → String → Run Decimal (Unit {0})
    finish_test scope request_id = do
      set_breaker (record_success scope)
      save env (update_attempt_status request_id confirmed "")
      step_plan test_confirmed
      w ← get
      save env (update_plan_state w.plan.id test_confirmed "")

    -- What the answer of the checker leads to.
    unfoldable pub after_test : String → String → ExecError ⊎ Bool → Run Decimal (Unit {0})
    after_test scope request_id (inl e) = not_sent scope request_id e
    after_test scope request_id (inr false) = not_confirmed scope request_id test_timeout
    after_test scope request_id (inr true) = finish_test scope request_id

    unfoldable pub await_test : String → String → ℕ → Run Decimal (Unit {0})
    await_test scope request_id now = do
      save env (update_attempt_status request_id sent "")
      answer ←
          attempt (wait_confirmation fuel cfg.poll_interval request_id (now + cfg.test_timeout))
      after_test scope request_id answer

    -- What the exchange's answer to the TEST transfer leads to.
    unfoldable pub after_send_test :
        String → String → ℕ → ExecError ⊎ String → Run Decimal (Unit {0})
    after_send_test scope request_id now (inl e) = not_sent scope request_id e
    after_send_test scope request_id now (inr id) = await_test scope request_id now

    -- `if plan.State == StateAwaitingApproval`.
    unfoldable pub enter_test : Run Decimal (Unit {0})
    enter_test = do
      w ← get
      if is_awaiting_approval w.plan.state
          then (do step_plan test_sent; save env (update_plan_state w.plan.id test_sent ""))
          else pure tt

    -- ExecuteTest behind its guards.
    unfoldable pub send_test : Run Decimal (Unit {0})
    send_test = do
      enter_test
      w ← get
      now ← clock env
      let request_id = text.test_id w.plan.id
      save env (
          record_attempt (record {
            request_id = request_id;
            plan_id = w.plan.id;
            phase = test;
            kind = route.kind;
            source = route.from_exchange;
            destination = route.to_exchange;
            asset = route.asset;
            gross_amount = cfg.test_amount_usdt;
            fee = zero_amount;
            withdrawal_id = "";
            fee_cap_check = pending;
            status = created;
            timeout_at = now + cfg.test_timeout;
            failure_reason = "";
            created_at = now;
            updated_at = now;
          }))
      answer ← attempt (do_transfer route cfg.test_amount_usdt)
      after_send_test (text.scope route.from_exchange) request_id now answer

    -- `ExecuteTest`.
    unfoldable pub execute_test : Run Decimal (Unit {0})
    execute_test = do
      w ← get
      if not (is_some route.approved_at)
          then fail_plan address_not_approved
          else if (is_tripped (text.scope route.from_exchange) w.breaker).0
          then raise breaker_tripped
          else send_test

    -- From the confirmation of the MAIN transfer on.
    unfoldable pub finish_main : String → String → Run Decimal (Unit {0})
    finish_main scope request_id = do
      set_breaker (record_success scope)
      save env (update_attempt_status request_id confirmed "")
      step_plan main_confirmed
      w ← get
      save env (update_plan_state w.plan.id main_confirmed "")
      step_plan completed
      save env (update_plan_state w.plan.id completed "")

    unfoldable pub after_main : String → String → ExecError ⊎ Bool → Run Decimal (Unit {0})
    after_main scope request_id (inl e) = check_failed scope request_id e
    after_main scope request_id (inr false) = not_confirmed scope request_id main_timeout
    after_main scope request_id (inr true) = finish_main scope request_id

    unfoldable pub await_main : String → String → ℕ → Run Decimal (Unit {0})
    await_main scope request_id now = do
      save env (update_attempt_status request_id sent "")
      answer ←
          attempt (wait_confirmation fuel cfg.poll_interval request_id (now + cfg.main_timeout))
      after_main scope request_id answer

    unfoldable pub after_send_main :
        String → String → ℕ → ExecError ⊎ String → Run Decimal (Unit {0})
    after_send_main scope request_id now (inl e) = not_sent scope request_id e
    after_send_main scope request_id now (inr id) = await_main scope request_id now

    -- From the saving of MAIN_SENT on, with the plan as it is then.
    unfoldable pub transfer_main : Decimal → Plan Decimal → Run Decimal (Unit {0})
    transfer_main estimated_fee plan = do
      save env (update_plan_state plan.id main_sent "")
      now ← clock env
      save env (
          record_attempt (record {
            request_id = text.main_id plan.id;
            plan_id = plan.id;
            phase = main;
            kind = route.kind;
            source = route.from_exchange;
            destination = route.to_exchange;
            asset = route.asset;
            gross_amount = plan.proposal.gross_amount;
            fee = estimated_fee;
            withdrawal_id = "";
            fee_cap_check = if is_some route.fee_cap then passed else pending;
            status = created;
            timeout_at = now + cfg.main_timeout;
            failure_reason = "";
            created_at = now;
            updated_at = now;
          }))
      answer ← attempt (do_transfer route plan.proposal.gross_amount)
      after_send_main (text.scope route.from_exchange) (text.main_id plan.id) now answer

    -- ExecuteMain behind its guards.
    unfoldable pub send_main : Decimal → Run Decimal (Unit {0})
    send_main estimated_fee = do step_plan main_sent; w ← get; transfer_main estimated_fee w.plan

    -- `ExecuteMain`.
    unfoldable pub execute_main : Decimal → Run Decimal (Unit {0})
    execute_main estimated_fee = do
      w ← get
      if not (is_test_confirmed w.plan.state)
          then raise main_before_test_confirmed
          else if not (is_some route.approved_at)
          then fail_plan address_not_approved
          else if (is_tripped (text.scope route.from_exchange) w.breaker).0
          then raise breaker_tripped
          else if exceeds_cap S estimated_fee route.fee_cap
          then fail_plan fee_cap_exceeded
          else send_main estimated_fee
