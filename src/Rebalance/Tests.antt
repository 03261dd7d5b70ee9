-- ===== src/Rebalance/Tests.antt =====
-- A plan that is carried out, a dry run, a breaker that trips and is reset, and the two transfers
-- over an exchange that answers at once.
use fandos.Rebalance.Planner.{Account, Constants, PlannerConfig, propose}
use fandos.Rebalance.Planner.Laws.{IsCent, IsPreciseAccount, Proposed, propose-Proposed}
use fandos.Prelude.{◌∙◌, ◌*ℤ◌}
use fandos.Prelude.{
  ◌+◌, ◌≡◌, refl, ◌≢◌, ◌⊎◌, inl, inr, ℤ, pos, String, true, false, none, some, List, [], ◌∷◌, ◌++◌,
  arith, lookup, insert, ◌+ℤ◌,
}
use Prim.Native.String.{◌++◌ as concat}
use fandos.Decimal.Example.{integers, mul_comm_ℤ}
use fandos.Rebalance.Plan.{
  planned, awaiting_approval, test_sent, test_confirmed, main_sent, main_confirmed, completed,
  PlanProposal, Plan, new_plan, transition,
}
use fandos.Rebalance.Plan.Laws as Plans
use fandos.Rebalance.Breaker.{
  CircuitBreaker, new_circuit_breaker, ensure_scope, is_tripped, fail, record_failure,
}
use fandos.Rebalance.Breaker.Laws as Breakers
use fandos.Rebalance.Executor.{
  ExecError, ExecutorConfig, Route, Text, Env, World, Trace, on_chain, err, out_of_fuel,
  execute_test, execute_main, wait_confirmation, is_some,
}
use fandos.Rebalance.Executor.Budget.{amounts}
use fandos.Rebalance.Executor.Barrier.{MayPay, main_barrier, test_barrier, test_in_any_state}
use fandos.Rebalance.Executor.Waiting.{waits, wait_confirmation_ends}

abbrev proposal : PlanProposal ℤ
proposal = record {
  from_exchange = "binance";
  to_exchange = "gate";
  asset = "USDT";
  gross_amount = pos 500;
  reason = "";
}

abbrev to_completion : List Plans.Call
to_completion =
    (planned, "", 1)
    ∷ (awaiting_approval, "", 2)
    ∷ (test_sent, "", 3)
    ∷ (test_confirmed, "", 4)
    ∷ (main_sent, "", 5)
    ∷ (main_confirmed, "", 6)
    ∷ (completed, "", 7)
    ∷ []

transition-cases_example :
    let p = new_plan "r1" proposal false 0 in
    Plans.Outcome planned "" 1 p (transition planned "" 1 p)
transition-cases_example = Plans.transition-cases planned "" 1 (new_plan "r1" proposal false 0)

dry_run_unsent_example :
    Plans.is_unsent (Plans.run to_completion (new_plan "r1" proposal true 0)).state ≡ true
dry_run_unsent_example = Plans.dry_run_unsent to_completion "r1" proposal 0

completes : Plans.is_main (Plans.run to_completion (new_plan "r1" proposal false 0)).state ≡ true
unfolding Plans.run new_plan transition
completes = refl

main_needs_test_example : Plans.Passes test_confirmed to_completion (new_plan "r1" proposal false 0)
main_needs_test_example = Plans.main_needs_test to_completion "r1" proposal false 0 completes

run-Inv_example : Plans.Inv (Plans.run to_completion (new_plan "r1" proposal false 0))
run-Inv_example = Plans.run-Inv to_completion "r1" proposal false 0

abbrev trip_text : ℤ → String → String
trip_text threshold scope = "tripped"

abbrev two_scopes : List Breakers.Event
two_scopes =
    Breakers.failure "gate" 1
    ∷ Breakers.failure "okx" 2
    ∷ Breakers.success "okx"
    ∷ Breakers.failure "gate" 3
    ∷ []

abbrev calm : CircuitBreaker
calm = new_circuit_breaker (pos 3)

run-own_example :
    ensure_scope "gate" (Breakers.run trip_text two_scopes calm)
    ≡ Breakers.own_run trip_text "gate" calm.threshold two_scopes (ensure_scope "gate" calm)
run-own_example = Breakers.run-own trip_text "gate" two_scopes calm

untripped-IsBelow_example :
    Breakers.IsBelow (pos 3) (ensure_scope "gate" (Breakers.run trip_text two_scopes calm))
untripped-IsBelow_example = Breakers.untripped-IsBelow trip_text "gate" (pos 3) two_scopes

failures_in_a_row_trip_example :
    (ensure_scope "gate"
      (Breakers.run trip_text (two_scopes ++ Breakers.failures_of "gate" 9 3) calm)).tripped
    ≡ true
failures_in_a_row_trip_example =
    Breakers.failures_in_a_row_trip trip_text "gate" (pos 3) two_scopes 9 3 (omega arith)
      (omega arith)

abbrev tripped_breaker : CircuitBreaker
tripped_breaker = record_failure trip_text "gate" 1 (new_circuit_breaker (pos 1))

tripped_until_reset_example :
    ensure_scope "gate" (Breakers.run trip_text two_scopes tripped_breaker)
    ≡ ensure_scope "gate" tripped_breaker
unfolding record_failure new_circuit_breaker ensure_scope fail lookup insert ◌+ℤ◌
tripped_until_reset_example =
    Breakers.tripped_until_reset trip_text "gate" two_scopes tripped_breaker
      (refl, (refl, (refl, (refl, tt)))) refl

abbrev text : Text
text = record {
  test_id = λ id. concat id "-test";
  main_id = λ id. concat id "-main";
  scope = λ e. concat "exchange:" e;
  describe_trip = trip_text;
  describe = λ (e : ExecError). "failed";
}

-- The clock shows how often anything was asked; everything else succeeds at once.
abbrev prompt : Env ℤ
prompt = record {
  time = waits;
  is_done = λ (t : Trace ℤ). false;
  store_fails = λ (t : Trace ℤ). none;
  transfer_answer = λ (t : Trace ℤ). inl "w1";
  check_answer = λ (t : Trace ℤ). inr true;
}

abbrev config : ExecutorConfig ℤ
config = record {
  test_amount_usdt = pos 5;
  test_timeout = 30;
  main_timeout = 60;
  poll_interval = 1;
}

abbrev route : Route ℤ
route = record {
  route_id = 1;
  from_exchange = "binance";
  to_exchange = "gate";
  asset = "USDT";
  network = "TRC20";
  address = "T1";
  address_fingerprint = "f";
  memo = "";
  fee_cap = some (pos 2);
  approved_at = some 1;
  kind = on_chain;
}

-- A world with the plan in some state.
abbrev world : Plan ℤ → World ℤ
world p = record { plan = p; breaker = new_circuit_breaker (pos 3); trace = [] }

abbrev tested_plan : Plan ℤ
tested_plan = record (new_plan "r1" proposal false 0) { state = test_confirmed }

main_barrier_example :
    let w' = (execute_main integers text prompt config 9 route (pos 1) (world tested_plan)).1 in
    (amounts w'.trace ≡ amounts (world tested_plan).trace)
    ⊎ ((amounts w'.trace ≡ tested_plan.proposal.gross_amount ∷ amounts (world tested_plan).trace)
        × MayPay integers text prompt config 9 route (pos 1) (world tested_plan))
main_barrier_example = main_barrier integers text prompt config 9 route (pos 1) (world tested_plan)

abbrev waiting_plan : Plan ℤ
waiting_plan = record (new_plan "r1" proposal false 0) { state = awaiting_approval }

test_barrier_example :
    let w' = (execute_test integers text prompt config 9 route (world waiting_plan)).1 in
    (amounts w'.trace ≡ amounts (world waiting_plan).trace)
    ⊎ ((amounts w'.trace ≡ config.test_amount_usdt ∷ amounts (world waiting_plan).trace)
        × (is_some route.approved_at ≡ true)
        × ((is_tripped (text.scope route.from_exchange) (world waiting_plan).breaker).0 ≡ false))
test_barrier_example = test_barrier integers text prompt config 9 route (world waiting_plan)

abbrev dry_plan : Plan ℤ
dry_plan = record (new_plan "r1" proposal true 0) { state = planned }

test_in_any_state_example :
    amounts (execute_test integers text prompt config 9 route (world dry_plan)).1.trace
    ≡ config.test_amount_usdt ∷ amounts (world dry_plan).trace
unfolding is_tripped new_circuit_breaker lookup
test_in_any_state_example =
    test_in_any_state integers text prompt config 9 route (world dry_plan) refl refl refl refl
      (λ t. refl)

wait_confirmation_ends_example :
    (wait_confirmation integers text prompt (60 + 2) 1 "r1-main" 60 (world tested_plan)).0
    ≢ err out_of_fuel
wait_confirmation_ends_example =
    wait_confirmation_ends integers text prompt "r1-main" 1 60 (world tested_plan)
      (λ t. omega arith)

abbrev constants : Constants ℤ
constants = record {
  cent = pos 1;
  reason = λ (source : String) (equity target deficiency amount : ℤ). source;
}

abbrev planner : PlannerConfig ℤ
planner = record { tolerance_pct = pos 5; min_transfer_usdt = pos 10; reserve_usdt = pos 30 }

abbrev rich : Account ℤ
rich = record { exchange = "okx"; equity = pos 100 }

abbrev poor : Account ℤ
poor = record { exchange = "gate"; equity = pos 20 }

one_is_cent : IsCent integers constants planner []
unfolding ◌+ℤ◌ ◌*ℤ◌
one_is_cent = record {
  steps = refl;
  upward = refl;
  halves = refl;
  in_cents = λ a h. (a, tt, mul_comm_ℤ (pos 1) a ∙ integers.mul-one a);
}

precise : (a : Account ℤ) → IsPreciseAccount integers constants planner [] a
precise a = record { equity = tt; reserve = tt }

propose-Proposed_example :
    Proposed integers constants planner [] rich poor
      (propose integers constants planner [] (rich ∷ poor ∷ []))
propose-Proposed_example =
    propose-Proposed integers constants planner [] one_is_cent rich poor (precise rich)
      (precise poor)
