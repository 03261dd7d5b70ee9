-- ===== src/Rebalance/Executor/Budget.antt =====
-- What a run asks the exchange to move.
use fandos.Prelude.{
  String, ◌≡◌, refl, ◌∙◌, ◌⊎◌, inl, inr, Bool, true, false, Option, none, some, List, [], ◌∷◌,
  arith, if◌then◌else◌,
}
use fandos.Rebalance.Plan.{PlanError, Plan}
use fandos.Rebalance.Breaker.{CircuitBreaker}
use fandos.Rebalance.Executor.Monad.{
  Effect, poll_context, wait, withdraw, internal_transfer, Trace, Env, World, Result, ok, err,
  ExecError, Run, continue, ◌>>=◌, pure, raise, caught, moved, attempt, get, set_breaker, move,
  clock, done, store, save, send, check,
}

-- The amounts of the transfers asked for, newest first.
abbrev pub amounts : {D : Type 0} → Trace D → List D
amounts [] = []
amounts (withdraw asset amount network address memo ∷ es) = amount ∷ amounts es
amounts (internal_transfer asset amount from to ∷ es) = amount ∷ amounts es
amounts (_ ∷ es) = amounts es

-- The run asks for no transfer.
pub record Quiet {D A : Type 0} (m : Run D A) : Type 0 where
  pub quiet : (w : World D) → amounts (m w).1.trace ≡ amounts w.trace

-- The run asks for at most one transfer, of this amount.
pub record Pays {D A : Type 0} (x : D) (m : Run D A) : Type 0 where
  pub pays :
      (w : World D)
      → (amounts (m w).1.trace ≡ amounts w.trace) ⊎ (amounts (m w).1.trace ≡ x ∷ amounts w.trace)

module _ {D A B : Type 0} where
  Quiet-continue :
      (f : A → Run D B) (r : Result A × World D)
      → ((a : A) → Quiet (f a))
      → amounts (continue f r).1.trace ≡ amounts r.1.trace
  Quiet-continue f (ok a, w) h = (h a).quiet w
  Quiet-continue f (err e, w) h = refl

  Pays-continue :
      (x : D) (f : A → Run D B) (r : Result A × World D)
      → ((a : A) → Pays x (f a))
      → (amounts (continue f r).1.trace ≡ amounts r.1.trace)
        ⊎ (amounts (continue f r).1.trace ≡ x ∷ amounts r.1.trace)
  Pays-continue x f (ok a, w) h = (h a).pays w
  Pays-continue x f (err e, w) h = inl refl

  pub Quiet-bind :
      (m : Run D A) (f : A → Run D B) → Quiet m → ((a : A) → Quiet (f a)) → Quiet (m >>= f)
  Quiet-bind m f hm hf = record { quiet = λ w. Quiet-continue f (m w) hf ∙ hm.quiet w }

  -- The transfer may come behind a run that asks for none.
  pub Pays-bind :
      (x : D) (m : Run D A) (f : A → Run D B)
      → Quiet m
      → ((a : A) → Pays x (f a))
      → Pays x (m >>= f)
  Pays-bind x m f hm hf = record {
    pays = λ w. ground (arith, Pays-continue x f (m w) hf, hm.quiet w);
  }

  -- Or in front of one.
  pub Pays-bind_first :
      (x : D) (m : Run D A) (f : A → Run D B)
      → Pays x m
      → ((a : A) → Quiet (f a))
      → Pays x (m >>= f)
  Pays-bind_first x m f hm hf = record {
    pays = λ w. ground (arith, Quiet-continue f (m w) hf, hm.pays w);
  }

module _ {D A : Type 0} where
  pub Quiet-Pays : (x : D) (m : Run D A) → Quiet m → Pays x m
  Quiet-Pays x m h = record { pays = λ w. inl (h.quiet w) }

  pub Quiet-if : (b : Bool) {m n : Run D A} → Quiet m → Quiet n → Quiet (if b then m else n)
  Quiet-if true h k = h
  Quiet-if false h k = k

  pub Quiet-pure : (a : A) → Quiet {D = D} (pure a)
  Quiet-pure a = record { quiet = λ w. refl }

  pub Quiet-raise : (e : ExecError) → Quiet {D = D} {A = A} (raise e)
  Quiet-raise e = record { quiet = λ w. refl }

  attempt_amounts : (r : Result A × World D) → amounts (caught r).1.trace ≡ amounts r.1.trace
  attempt_amounts (ok a, w) = refl
  attempt_amounts (err e, w) = refl

  pub Quiet-attempt : (m : Run D A) → Quiet m → Quiet (attempt m)
  Quiet-attempt m h = record { quiet = λ w. attempt_amounts (m w) ∙ h.quiet w }

  pub Pays-attempt : (x : D) (m : Run D A) → Pays x m → Pays x (attempt m)
  Pays-attempt x m h = record { pays = λ w. ground (arith, attempt_amounts (m w), h.pays w) }

module _ {D : Type 0} where
  pub Quiet-get : Quiet {D = D} get
  Quiet-get = record { quiet = λ w. refl }

  pub Quiet-set_breaker : (f : CircuitBreaker → CircuitBreaker) → Quiet {D = D} (set_breaker f)
  unfolding set_breaker
  Quiet-set_breaker f = record { quiet = λ w. refl }

  amounts-moved :
      (r : Plan D × Option PlanError) (w : World D) → amounts (moved r w).1.trace ≡ amounts w.trace
  amounts-moved (p, none) w = refl
  amounts-moved (p, some e) w = refl

  pub Quiet-move : (f : Plan D → Plan D × Option PlanError) → Quiet (move f)
  Quiet-move f = record { quiet = λ w. amounts-moved (f w.plan) w }

  module _ (env : Env D) where
    pub Quiet-clock : Quiet (clock env)
    unfolding clock
    Quiet-clock = record { quiet = λ w. refl }

    pub Quiet-poll : Quiet (done env poll_context)
    unfolding done
    Quiet-poll = record { quiet = λ w. refl }

    pub Quiet-wait : Quiet (done env wait)
    unfolding done
    Quiet-wait = record { quiet = λ w. refl }

    pub Quiet-check : (request_id : String) → Quiet (check env request_id)
    unfolding check
    Quiet-check request_id = record { quiet = λ w. refl }

    -- A call of the store, which is no transfer.
    pub Quiet-store :
        (e : Effect D) → ((es : Trace D) → amounts (e ∷ es) ≡ amounts es) → Quiet (store env e)
    unfolding store
    Quiet-store e h = record { quiet = λ w. h w.trace }

    pub Quiet-save :
        (e : Effect D) → ((es : Trace D) → amounts (e ∷ es) ≡ amounts es) → Quiet (save env e)
    unfolding save
    Quiet-save e h = record { quiet = λ w. h w.trace }

    pub Pays-send :
        (x : D) (e : Effect D)
        → ((es : Trace D) → amounts (e ∷ es) ≡ x ∷ amounts es)
        → Pays x (send env e)
    unfolding send
    Pays-send x e h = record { pays = λ w. inr (h w.trace) }
