-- ===== src/Rebalance/Executor/Barrier.antt =====
-- What money a run of the executor can move, and when.
use fandos.Prelude.{
  if-both, ap, ℕ, String, ◌≡◌, refl, ◌⊎◌, inl, inr, true, false, Option, none, some, ◌∷◌, arith,
  Bool-cases,
}
use fandos.Decimal.{Shopspring}
use fandos.Rebalance.Plan.{PlanState, test_confirmed, main_sent, Plan, transition}
use fandos.Rebalance.Breaker.{is_tripped}
use fandos.Rebalance.Executor.{
  ExecutorConfig, Route, Text, Env, World, Result, ok, err, continue, ◌>>=◌, get, moved, clock,
  save, send, caught, answered, Trace, withdraw, transfer_error, on_chain, step_plan,
  timed_transition, Run, transfer_of_kind, do_transfer, after_send_test, enter_test, send_test,
  execute_test, transfer_main, send_main, exceeds_cap, execute_main, is_test_confirmed,
  is_awaiting_approval, is_some,
}
use fandos.Rebalance.Executor.Moves.{
  step_plan-Quiet, fail_plan-Quiet, do_transfer-Pays, after_send_main-Quiet, after_send_test-Quiet,
  send_test-Pays,
}
use fandos.Rebalance.Executor.Budget.{
  amounts, Pays, Pays-bind, Pays-bind_first, Pays-attempt, Quiet-clock, Quiet-save,
}

module _ (S : Shopspring) (text : Text) (env : Env S.Decimal) where
  open S use {Decimal}

  module _ (cfg : ExecutorConfig Decimal) (fuel : ℕ) (route : Route Decimal) where
    transfer_main-Pays :
        (fee : Decimal) (plan : Plan Decimal)
        → Pays plan.proposal.gross_amount (transfer_main S text env cfg fuel route fee plan)
    unfolding transfer_main
    transfer_main-Pays fee plan = Pays-bind _ _ _ (Quiet-save env _ (λ es. refl)) λ u.
        Pays-bind _ _ _ (Quiet-clock env) λ now.
          Pays-bind _ _ _ (Quiet-save env _ (λ es. refl)) λ u.
            Pays-bind_first _ _ _ (Pays-attempt _ _ (do_transfer-Pays S text env route _))
              λ answer. after_send_main-Quiet S text env cfg fuel route _ _ now answer

    moved_proposal :
        (next : PlanState) (now : ℕ) (w : World Decimal)
        → (moved (transition next "" now w.plan) w).1.plan.proposal ≡ w.plan.proposal
    unfolding transition
    moved_proposal next now w = ground arith

    step_plan_proposal :
        (next : PlanState) (w : World Decimal)
        → (step_plan S text env next w).1.plan.proposal ≡ w.plan.proposal
    unfolding step_plan timed_transition clock
    step_plan_proposal next w =
        if-both (λ (m : Run Decimal (Unit {0})). (m w).1.plan.proposal ≡ w.plan.proposal)
          (is_some (transition next "" 0 w.plan).1) (λ e. moved_proposal next _ _)
          (λ e. moved_proposal next _ _)

    sent_main :
        (fee : Decimal) (r : Result (Unit {0}) × World Decimal)
        → let w' =
            (continue (λ _. get >>= λ w. transfer_main S text env cfg fuel route fee w.plan) r).1 in
          (amounts w'.trace ≡ amounts r.1.trace)
          ⊎ (amounts w'.trace ≡ r.1.plan.proposal.gross_amount ∷ amounts r.1.trace)
    sent_main fee (ok u, w) = (transfer_main-Pays fee w.plan).pays w
    sent_main fee (err e, w) = inl refl

    -- `send_main` moves at most the proposed amount.
    send_main_pays :
        (fee : Decimal) (w : World Decimal)
        → let w' = (send_main S text env cfg fuel route fee w).1 in
          (amounts w'.trace ≡ amounts w.trace)
          ⊎ (amounts w'.trace ≡ w.plan.proposal.gross_amount ∷ amounts w.trace)
    unfolding send_main
    send_main_pays fee w = ground (
      arith,
      sent_main fee (step_plan S text env main_sent w),
      step_plan_proposal main_sent w,
      (step_plan-Quiet S text env main_sent).quiet w,
    )

    cap_of_not_exceeds :
        (fee : Decimal) (o : Option Decimal)
        → exceeds_cap S fee o ≡ false
        → (o ≡ none) ⊎ ((cap : Decimal) × (o ≡ some cap) × (S.le fee cap ≡ true))
    unfolding exceeds_cap
    cap_of_not_exceeds fee none h = inl refl
    cap_of_not_exceeds fee (some cap) h = inr (cap, refl, ground arith)

    -- The guards of ExecuteMain, as the world stands when it is called.
    pub record MayPay (fee : Decimal) (w : World Decimal) : Type 0 where
      pub tested : w.plan.state ≡ test_confirmed
      pub approved : is_some route.approved_at ≡ true
      pub untripped : (is_tripped (text.scope route.from_exchange) w.breaker).0 ≡ false
      pub capped :
          (route.fee_cap ≡ none)
          ⊎ ((cap : Decimal) × (route.fee_cap ≡ some cap) × (S.le fee cap ≡ true))

    -- Whatever the store, the exchange, the checker, the clock and the context answer, ExecuteMain
    -- asks for no transfer at all, or for exactly one, of the proposed amount; and it asks for one
    -- only if the test transfer is confirmed, the address approved, the breaker of the source
    -- exchange not tripped and the fee within the cap of the route.
    pub main_barrier :
        (fee : Decimal) (w : World Decimal)
        → let w' = (execute_main S text env cfg fuel route fee w).1 in
          (amounts w'.trace ≡ amounts w.trace)
          ⊎ ((amounts w'.trace ≡ w.plan.proposal.gross_amount ∷ amounts w.trace) × MayPay fee w)
    unfolding execute_main
    main_barrier fee w = elim (Bool-cases (is_test_confirmed w.plan.state)) [
      | inr e ↦ rw e (inl refl)
      | inl tested ↦ elim (Bool-cases (is_some route.approved_at)) [
        | inr e ↦ rw (tested, e) (inl ((fail_plan-Quiet S text env _).quiet w))
        | inl approved ↦
            elim (Bool-cases (is_tripped (text.scope route.from_exchange) w.breaker).0) [
              | inl e ↦ rw (tested, approved, e) (inl refl)
              | inr untripped ↦ elim (Bool-cases (exceeds_cap S fee route.fee_cap)) [
                | inl e ↦
                    rw (tested, approved, untripped, e)
                      (inl ((fail_plan-Quiet S text env _).quiet w))
                | inr capped ↦
                    let may : MayPay fee w = record {
                      tested = ground arith;
                      approved = approved;
                      untripped = untripped;
                      capped = cap_of_not_exceeds fee route.fee_cap capped;
                    } in
                    rw (tested, approved, untripped, capped)
                      (elim (send_main_pays fee w) [ inl q ↦ inl q | inr q ↦ inr (q, may) ])
              ]
            ]
      ]
    ]

    -- ExecuteTest asks for at most one transfer, of the test amount, and only for an approved
    -- address and a breaker that has not tripped for the source exchange.
    pub test_barrier :
        (w : World Decimal)
        → let w' = (execute_test S text env cfg fuel route w).1 in
          (amounts w'.trace ≡ amounts w.trace)
          ⊎ ((amounts w'.trace ≡ cfg.test_amount_usdt ∷ amounts w.trace)
              × (is_some route.approved_at ≡ true)
              × ((is_tripped (text.scope route.from_exchange) w.breaker).0 ≡ false))
    unfolding execute_test
    test_barrier w = elim (Bool-cases (is_some route.approved_at)) [
      | inr e ↦ rw e (inl ((fail_plan-Quiet S text env _).quiet w))
      | inl approved ↦ elim (Bool-cases (is_tripped (text.scope route.from_exchange) w.breaker).0) [
        | inl e ↦ rw (approved, e) (inl refl)
        | inr untripped ↦
            rw (approved, untripped)
              (elim ((send_test-Pays S text env cfg fuel route).pays w) [
                | inl q ↦ inl q
                | inr q ↦ inr (q, refl, refl)
              ])
      ]
    ]

    after_sent :
        (scope request_id : String) (now : ℕ) (a : String ⊎ String) (w : World Decimal)
        → let w' =
            (continue
              (after_send_test S text env cfg fuel route scope request_id now)
              (caught (answered env a, w))).1 in
          amounts w'.trace ≡ amounts w.trace
    after_sent scope request_id now (inl id) w =
        (after_send_test-Quiet S text env cfg fuel route scope request_id now (inr id)).quiet w
    after_sent scope request_id now (inr e) w =
        (after_send_test-Quiet S text env cfg fuel route scope request_id now
            (inl (transfer_error e))).quiet
          w

    on_chain_transfer :
        (amount : Decimal)
        → route.kind ≡ on_chain
        → do_transfer S text env route amount
          ≡ send env (withdraw route.asset amount route.network route.address route.memo)
    unfolding do_transfer transfer_of_kind
    on_chain_transfer amount chain = ap (λ k. transfer_of_kind S text env k route amount) chain

    -- ExecuteTest does not look at the state of the plan but to enter TEST_SENT: with an approved
    -- on-chain route, an untripped breaker and a store that works, it asks for the test transfer in
    -- every state other than AWAITING_APPROVAL, a PLANNED dry run and a COMPLETED plan included.
    pub test_in_any_state :
        (w : World Decimal)
        → is_awaiting_approval w.plan.state ≡ false
        → is_some route.approved_at ≡ true
        → (is_tripped (text.scope route.from_exchange) w.breaker).0 ≡ false
        → route.kind ≡ on_chain
        → ((t : Trace Decimal) → env.store_fails t ≡ none)
        → amounts (execute_test S text env cfg fuel route w).1.trace
          ≡ cfg.test_amount_usdt ∷ amounts w.trace
    unfolding execute_test send_test enter_test clock save send
    test_in_any_state w waiting approved untripped chain works =
        rw (approved, untripped, waiting, works, on_chain_transfer cfg.test_amount_usdt chain)
          (after_sent _ _ _ (env.transfer_answer _) _)
