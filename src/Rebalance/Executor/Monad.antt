-- ===== src/Rebalance/Executor/Monad.antt =====
-- The effects of the executor, the world that answers them, and runs over plan, breaker and trace.
use fandos.Prelude.{ℕ, String, Bool, ◌⊎◌, inl, inr, Option, none, some, List, ◌∷◌}
use fandos.Rebalance.Plan.{PlanState, PlanError, Plan}
use fandos.Rebalance.Breaker.{CircuitBreaker}

pub data AttemptPhase : Type 0 where
  test main : AttemptPhase

pub data AttemptStatus : Type 0 where
  created sent confirmed timed_out failed cancelled : AttemptStatus

-- `unknown` is any other string.
pub data AttemptKind : Type 0 where
  internal on_chain unknown : AttemptKind

pub data FeeCapStatus : Type 0 where
  pending passed failed : FeeCapStatus

pub record TransferAttempt (D : Type 0) : Type 0 where
  pub request_id : String
  pub plan_id : String
  pub phase : AttemptPhase
  pub kind : AttemptKind
  pub source : String
  pub destination : String
  pub asset : String
  pub gross_amount : D
  pub fee : D
  pub withdrawal_id : String
  pub fee_cap_check : FeeCapStatus
  pub status : AttemptStatus
  pub timeout_at : ℕ
  pub failure_reason : String
  pub created_at : ℕ
  pub updated_at : ℕ

pub data ExecError : Type 0 where
  main_before_test_confirmed address_not_approved breaker_tripped fee_cap_exceeded : ExecError
  test_timeout main_timeout unknown_route_kind context_done out_of_fuel : ExecError
  plan_error : PlanError → ExecError
  store_error transfer_error check_error : String → ExecError
  -- An error, and that of recording it.
  also : ExecError → String → ExecError

pub data Effect (D : Type 0) : Type 0 where
  read_clock poll_context wait : Effect D
  update_plan_state : String → PlanState → String → Effect D
  record_attempt : TransferAttempt D → Effect D
  update_attempt_status : String → AttemptStatus → String → Effect D
  -- Asset, amount, network, address, memo.
  withdraw : String → D → String → String → String → Effect D
  -- Asset, amount, from, to.
  internal_transfer : String → D → String → String → Effect D
  is_confirmed : String → Effect D

abbrev pub Trace : Type 0 → Type 0
Trace D = List (Effect D)

pub record Env (D : Type 0) : Type 0 where
  pub time : Trace D → ℕ
  pub is_done : Trace D → Bool
  -- The error of a call of the store, if any.
  pub store_fails : Trace D → Option String
  -- The identifier at the exchange, or the error.
  pub transfer_answer : Trace D → String ⊎ String
  pub check_answer : Trace D → String ⊎ Bool

pub record World (D : Type 0) : Type 0 where
  pub plan : Plan D
  pub breaker : CircuitBreaker
  pub trace : Trace D

pub data Result (A : Type 0) : Type 0 where
  ok : A → Result A
  err : ExecError → Result A

abbrev pub Run : Type 0 → Type 0 → Type 0
Run D A = World D → Result A × World D

abbrev pub continue : {D A B : Type 0} → (A → Run D B) → Result A × World D → Result B × World D
continue f (ok a, w) = f a w
continue f (err e, w) = (err e, w)

infixl 5 ◌>>=◌ ◌>>◌
abbrev pub ◌>>=◌ : {D A B : Type 0} → Run D A → (A → Run D B) → Run D B
◌>>=◌ m f w = continue f (m w)

abbrev pub ◌>>◌ : {D B : Type 0} → Run D (Unit {0}) → Run D B → Run D B
m >> k = m >>= λ _. k

module _ {D : Type 0} where
  abbrev pub pure : {A : Type 0} → A → Run D A
  pure a w = (ok a, w)

  abbrev pub raise : {A : Type 0} → ExecError → Run D A
  raise e w = (err e, w)

  abbrev pub emit : Effect D → World D → World D
  emit e w = record w { trace = e ∷ w.trace }

  -- Go's two results, the value or the error, without leaving the function.
  abbrev pub caught : {A : Type 0} → Result A × World D → Result (ExecError ⊎ A) × World D
  caught (ok a, w) = (ok (inr a), w)
  caught (err e, w) = (ok (inl e), w)

  abbrev pub attempt : {A : Type 0} → Run D A → Run D (ExecError ⊎ A)
  attempt m w = caught (m w)

  abbrev pub get : Run D (World D)
  get w = (ok w, w)

  unfoldable pub set_breaker : (CircuitBreaker → CircuitBreaker) → Run D (Unit {0})
  set_breaker f w = (ok tt, record w { breaker = f w.breaker })

  abbrev pub moved : Plan D × Option PlanError → World D → Result (Unit {0}) × World D
  moved (p, none) w = (ok tt, record w { plan = p })
  moved (p, some e) w = (err (plan_error e), record w { plan = p })

  -- A method of the plan that may return an error.
  abbrev pub move : (Plan D → Plan D × Option PlanError) → Run D (Unit {0})
  move f w = moved (f w.plan) w

module _ {D : Type 0} (env : Env D) where
  unfoldable pub clock : Run D ℕ
  clock w = let w' = emit read_clock w in (ok (env.time w'.trace), w')

  -- `ctx.Done()`, before a poll and while waiting for the next one.
  unfoldable pub done : Effect D → Run D Bool
  done e w = let w' = emit e w in (ok (env.is_done w'.trace), w')

  -- A call of the store with its error.
  unfoldable pub store : Effect D → Run D (Option String)
  store e w = let w' = emit e w in (ok (env.store_fails w'.trace), w')

  abbrev saved : Option String → Result (Unit {0})
  saved none = ok tt
  saved (some e) = err (store_error e)

  -- A call of the store whose error is returned.
  unfoldable pub save : Effect D → Run D (Unit {0})
  save e w = let w' = emit e w in (saved (env.store_fails w'.trace), w')

  abbrev pub answered : String ⊎ String → Result String
  answered (inl id) = ok id
  answered (inr e) = err (transfer_error e)

  -- A call of the exchange.
  unfoldable pub send : Effect D → Run D String
  send e w = let w' = emit e w in (answered (env.transfer_answer w'.trace), w')

  abbrev pub checked : String ⊎ Bool → Result Bool
  checked (inl e) = err (check_error e)
  checked (inr b) = ok b

  unfoldable pub check : String → Run D Bool
  check request_id w =
      let w' = emit (is_confirmed request_id) w in (checked (env.check_answer w'.trace), w')
