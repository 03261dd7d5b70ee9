-- ===== src/Rebalance/Executor/Moves.antt =====
-- Which parts of the executor ask the exchange for a transfer, and for how much.
use fandos.Prelude.{ℕ, zero, suc, ltb, String, refl, ◌⊎◌, inl, inr, Bool, true, false}
use fandos.Decimal.{Shopspring}
use fandos.Rebalance.Plan.{PlanState, failed, test_confirmed, transition}
use fandos.Rebalance.Executor.{
  is_some, timed_transition, ExecutorConfig, Route, Text, Env, ExecError, AttemptKind, on_chain,
  internal, unknown, step_plan, fail_plan, count_failure, transfer_of_kind, do_transfer,
  wait_confirmation, not_sent, not_confirmed, check_failed, finish_test, after_test, await_test,
  after_send_test, enter_test, send_test, finish_main, after_main, await_main, after_send_main,
  is_awaiting_approval,
}
use fandos.Rebalance.Executor.Budget.{
  Quiet, Pays, Quiet-bind, Pays-bind, Pays-bind_first, Quiet-Pays, Quiet-if, Quiet-pure,
  Quiet-raise, Quiet-attempt, Pays-attempt, Quiet-get, Quiet-set_breaker, Quiet-move, Quiet-clock,
  Quiet-poll, Quiet-wait, Quiet-check, Quiet-store, Quiet-save, Pays-send,
}

module _ (S : Shopspring) (text : Text) (env : Env S.Decimal) where
  open S use {Decimal}

  pub timed_transition-Quiet :
      (next : PlanState) (reason : String) → Quiet (timed_transition S text env next reason)
  unfolding timed_transition
  timed_transition-Quiet next reason = Quiet-bind _ _ Quiet-get λ w.
      Quiet-if (is_some (transition next reason 0 w.plan).1) (Quiet-move _)
        (Quiet-bind _ _ (Quiet-clock env) (λ now. Quiet-move _))

  pub step_plan-Quiet : (next : PlanState) → Quiet (step_plan S text env next)
  unfolding step_plan
  step_plan-Quiet next = timed_transition-Quiet next ""

  pub fail_plan-Quiet : {A : Type 0} (e : ExecError) → Quiet (fail_plan S text env {A = A} e)
  unfolding fail_plan
  fail_plan-Quiet e =
      Quiet-bind _ _ (Quiet-attempt _ (timed_transition-Quiet failed (text.describe e))) λ r.
        Quiet-bind _ _ Quiet-get
          λ w. Quiet-bind _ _ (Quiet-store env _ (λ es. refl)) λ r. Quiet-raise e

  pub count_failure-Quiet : (scope : String) → Quiet (count_failure S text env scope)
  unfolding count_failure
  count_failure-Quiet scope = Quiet-bind _ _ (Quiet-clock env) λ now. Quiet-set_breaker _

  pub wait_confirmation-Quiet :
      (fuel interval : ℕ) (request_id : String) (deadline : ℕ)
      → Quiet (wait_confirmation S text env fuel interval request_id deadline)
  unfolding wait_confirmation
  wait_confirmation-Quiet zero interval request_id deadline = Quiet-raise _
  wait_confirmation-Quiet (suc fuel) interval request_id deadline =
      Quiet-bind _ _ (Quiet-poll env) λ stop. Quiet-if stop (Quiet-raise _) (
        Quiet-bind _ _ (Quiet-clock env) λ now. Quiet-if (ltb deadline now) (Quiet-pure false) (
          Quiet-bind _ _ (Quiet-check env request_id) λ credited.
            Quiet-if credited (Quiet-pure true) (
              Quiet-if (ltb 0 interval)
                (Quiet-bind _ _ (Quiet-wait env) λ stop.
                  Quiet-if stop (Quiet-raise _)
                    (wait_confirmation-Quiet fuel interval request_id deadline))
                (Quiet-pure false))))

  pub kind-Pays :
      (kind : AttemptKind) (route : Route Decimal) (amount : Decimal)
      → Pays amount (transfer_of_kind S text env kind route amount)
  unfolding transfer_of_kind
  kind-Pays on_chain route amount = Pays-send env amount _ (λ es. refl)
  kind-Pays internal route amount = Pays-send env amount _ (λ es. refl)
  kind-Pays unknown route amount = Quiet-Pays amount _ (Quiet-raise _)

  pub do_transfer-Pays :
      (route : Route Decimal) (amount : Decimal) → Pays amount (do_transfer S text env route amount)
  unfolding do_transfer
  do_transfer-Pays route amount = kind-Pays route.kind route amount

  pub not_sent-Quiet :
      (scope request_id : String) (e : ExecError) → Quiet (not_sent S text env scope request_id e)
  unfolding not_sent
  not_sent-Quiet scope request_id e =
      Quiet-bind _ _ (count_failure-Quiet scope)
        λ u. Quiet-bind _ _ (Quiet-store env _ (λ es. refl)) λ r. fail_plan-Quiet _

  pub not_confirmed-Quiet :
      (scope request_id : String) (e : ExecError)
      → Quiet (not_confirmed S text env scope request_id e)
  unfolding not_confirmed
  not_confirmed-Quiet scope request_id e =
      Quiet-bind _ _ (count_failure-Quiet scope)
        λ u. Quiet-bind _ _ (Quiet-store env _ (λ es. refl)) λ r. fail_plan-Quiet e

  pub check_failed-Quiet :
      (scope request_id : String) (e : ExecError)
      → Quiet (check_failed S text env scope request_id e)
  unfolding check_failed
  check_failed-Quiet scope request_id e =
      Quiet-bind _ _ (count_failure-Quiet scope)
        λ u. Quiet-bind _ _ (Quiet-store env _ (λ es. refl)) λ r. fail_plan-Quiet e

  module _ (cfg : ExecutorConfig Decimal) (fuel : ℕ) (route : Route Decimal) where
    pub after_test-Quiet :
        (scope request_id : String) (answer : ExecError ⊎ Bool)
        → Quiet (after_test S text env cfg fuel route scope request_id answer)
    unfolding after_test finish_test
    after_test-Quiet scope request_id (inl e) = not_sent-Quiet scope request_id e
    after_test-Quiet scope request_id (inr false) = not_confirmed-Quiet scope request_id _
    after_test-Quiet scope request_id (inr true) = Quiet-bind _ _ (Quiet-set_breaker _) λ u.
        Quiet-bind _ _ (Quiet-save env _ (λ es. refl)) λ u.
          Quiet-bind _ _ (step_plan-Quiet test_confirmed)
            λ u. Quiet-bind _ _ Quiet-get λ w. Quiet-save env _ (λ es. refl)

    pub after_send_test-Quiet :
        (scope request_id : String) (now : ℕ) (answer : ExecError ⊎ String)
        → Quiet (after_send_test S text env cfg fuel route scope request_id now answer)
    unfolding after_send_test await_test
    after_send_test-Quiet scope request_id now (inl e) = not_sent-Quiet scope request_id e
    after_send_test-Quiet scope request_id now (inr id) =
        Quiet-bind _ _ (Quiet-save env _ (λ es. refl)) λ u.
          Quiet-bind _ _ (Quiet-attempt _ (wait_confirmation-Quiet fuel _ _ _))
            λ answer. after_test-Quiet scope request_id answer

    pub enter_test-Quiet : Quiet (enter_test S text env cfg fuel route)
    unfolding enter_test
    enter_test-Quiet = Quiet-bind _ _ Quiet-get λ w.
        Quiet-if (is_awaiting_approval w.plan.state)
          (Quiet-bind _ _ (step_plan-Quiet _) λ u. Quiet-save env _ (λ es. refl)) (Quiet-pure tt)

    pub send_test-Pays : Pays cfg.test_amount_usdt (send_test S text env cfg fuel route)
    unfolding send_test
    send_test-Pays = Pays-bind _ _ _ enter_test-Quiet λ u. Pays-bind _ _ _ Quiet-get λ w.
        Pays-bind _ _ _ (Quiet-clock env) λ now.
          Pays-bind _ _ _ (Quiet-save env _ (λ es. refl)) λ u.
            Pays-bind_first _ _ _ (Pays-attempt _ _ (do_transfer-Pays route _))
              λ answer. after_send_test-Quiet _ _ now answer

    pub after_main-Quiet :
        (scope request_id : String) (answer : ExecError ⊎ Bool)
        → Quiet (after_main S text env cfg fuel route scope request_id answer)
    unfolding after_main finish_main
    after_main-Quiet scope request_id (inl e) = check_failed-Quiet scope request_id e
    after_main-Quiet scope request_id (inr false) = not_confirmed-Quiet scope request_id _
    after_main-Quiet scope request_id (inr true) = Quiet-bind _ _ (Quiet-set_breaker _) λ u.
        Quiet-bind _ _ (Quiet-save env _ (λ es. refl)) λ u. Quiet-bind _ _ (step_plan-Quiet _) λ u.
          Quiet-bind _ _ Quiet-get λ w.
            Quiet-bind _ _ (Quiet-save env _ (λ es. refl))
              λ u. Quiet-bind _ _ (step_plan-Quiet _) λ u. Quiet-save env _ (λ es. refl)

    pub after_send_main-Quiet :
        (scope request_id : String) (now : ℕ) (answer : ExecError ⊎ String)
        → Quiet (after_send_main S text env cfg fuel route scope request_id now answer)
    unfolding after_send_main await_main
    after_send_main-Quiet scope request_id now (inl e) = not_sent-Quiet scope request_id e
    after_send_main-Quiet scope request_id now (inr id) =
        Quiet-bind _ _ (Quiet-save env _ (λ es. refl)) λ u.
          Quiet-bind _ _ (Quiet-attempt _ (wait_confirmation-Quiet fuel _ _ _))
            λ answer. after_main-Quiet scope request_id answer
