-- ===== src/Rebalance/Executor/Waiting.antt =====
-- The polling loop of `waitConfirmation` ends.
use fandos.Prelude.{ℕ, zero, suc, ◌+◌, ◌≤◌, ◌<◌, String, ◌≢◌, [], ◌∷◌, arith}
use fandos.Decimal.{Shopspring}
use fandos.Rebalance.Executor.{
  Text, Env, World, err, clock, done, check, emit, wait, poll_context, read_clock, is_confirmed,
  out_of_fuel, Trace, wait_confirmation,
}

-- How often the loop has slept for its interval.
abbrev pub waits : {D : Type 0} → Trace D → ℕ
waits [] = 0
waits (wait ∷ t) = suc (waits t)
waits (_ ∷ t) = waits t

module _ (S : Shopspring) (text : Text) (env : Env S.Decimal) where
  open S use {Decimal}

  module _ (request_id : String) where
    -- The world when the loop goes round again.
    abbrev after_round : World Decimal → World Decimal
    after_round w =
        emit wait (emit (is_confirmed request_id) (emit read_clock (emit poll_context w)))

    round_ends :
        (fuel interval deadline : ℕ) (w : World Decimal)
        → ((t : Trace Decimal) → waits t ≤ env.time t)
        → deadline + 1 < suc fuel + waits w.trace
        → (0 < fuel
            → deadline + 1 < fuel + waits (after_round w).trace
            → (wait_confirmation S text env fuel interval request_id deadline (after_round w)).0
              ≢ err out_of_fuel)
        → (wait_confirmation S text env (suc fuel) interval request_id deadline w).0
          ≢ err out_of_fuel
    unfolding wait_confirmation clock done check
    round_ends fuel interval deadline w advances enough again =
        ground (arith, advances (read_clock ∷ poll_context ∷ w.trace))

    rounds_end :
        (fuel interval deadline : ℕ) (w : World Decimal)
        → ((t : Trace Decimal) → waits t ≤ env.time t)
        → 0 < fuel
        → deadline + 1 < fuel + waits w.trace
        → (wait_confirmation S text env fuel interval request_id deadline w).0 ≢ err out_of_fuel
    rounds_end zero interval deadline w advances some_fuel enough = absurd (omega arith)
    rounds_end (suc fuel) interval deadline w advances some_fuel enough =
        round_ends fuel interval deadline w advances enough
          (λ f e. rounds_end fuel interval deadline (after_round w) advances f e)

    -- Where the clock has advanced by at least one unit for each interval slept, the loop ends by
    -- itself: fuel of two more than the deadline is never used up, whatever the checker answers.
    pub wait_confirmation_ends :
        (interval deadline : ℕ) (w : World Decimal)
        → ((t : Trace Decimal) → waits t ≤ env.time t)
        → (wait_confirmation S text env (deadline + 2) interval request_id deadline w).0
          ≢ err out_of_fuel
    wait_confirmation_ends interval deadline w advances =
        rounds_end (deadline + 2) interval deadline w advances (omega arith) (omega arith)
