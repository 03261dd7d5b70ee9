-- ===== src/Rebalance/Breaker/Laws.antt =====
-- Every sequence of failures, successes and resets, over any number of scopes.
use mathlib.Core.Path.{ap₂}
use text.Mathlib.TextPositions.{eq_refl}
use fandos.Prelude.{
  ℕ, zero, suc, ◌+◌, ◌<◌, ℤ, pos, ◌≤ℤ◌, String, ◌≡◌, refl, ◌⊎◌, inl, inr, Bool, true, false, List,
  [], ◌∷◌, ◌++◌, arith, if◌then◌else◌, Bool-cases, str_eq, eq_iff, ap, not, All, ◌∙◌, ◌+ℤ◌,
  replicate, lookup, lookup-insert,
}
use fandos.Rebalance.Breaker.{
  ScopeState, CircuitBreaker, put, fresh, new_circuit_breaker, ensure_scope, fail, record_failure,
  record_success, reset,
}

pub data Event : Type 0 where
  failure : String → ℕ → Event
  success : String → Event
  manual_reset : String → Event

scope_of : Event → String
scope_of (failure scope now) = scope
scope_of (success scope) = scope
scope_of (manual_reset scope) = scope

ensure_scope-put :
    (a scope : String) (s : ScopeState) (cb : CircuitBreaker)
    → ensure_scope a (put scope s cb) ≡ (if str_eq scope a then s else ensure_scope a cb)
unfolding ensure_scope
ensure_scope-put a scope s cb = ground (arith, lookup-insert scope a s cb.states)

-- The scope has tripped, or has no failures in a row, or fewer than the threshold.
abbrev pub IsBelow : ℤ → ScopeState → Type 0
IsBelow threshold s = (s.tripped ≡ true) ⊎ (s.failures ≡ 0) ⊎ (pos s.failures +ℤ pos 1 ≤ℤ threshold)

-- `k` failures of scope `a` in a row.
abbrev pub failures_of : String → ℕ → ℕ → List Event
failures_of a now k = replicate k (failure a now)

-- The event is no reset of scope `a`.
abbrev pub is_no_reset : String → Event → Bool
is_no_reset a (manual_reset scope) = not (str_eq scope a)
is_no_reset a _ = true

module _ (describe : ℤ → String → String) where
  unfoldable pub apply : Event → CircuitBreaker → CircuitBreaker
  unfolding record_failure record_success reset
  apply (failure scope now) cb = record_failure describe scope now cb
  apply (success scope) cb = record_success scope cb
  apply (manual_reset scope) cb = reset scope cb

  unfoldable pub run : List Event → CircuitBreaker → CircuitBreaker
  run [] cb = cb
  run (e ∷ es) cb = run es (apply e cb)

  -- The reference: what an event does to its own scope, with no map.
  unfoldable pub own : ℤ → Event → ScopeState → ScopeState
  unfolding fail
  own threshold (failure scope now) s = fail describe threshold scope now s
  own threshold (success scope) s = if s.tripped then s else record s { failures = 0 }
  own threshold (manual_reset scope) s = fresh

  -- One scope by itself, which ignores the events of the others.
  unfoldable pub own_run : String → ℤ → List Event → ScopeState → ScopeState
  unfolding scope_of
  own_run a threshold [] s = s
  own_run a threshold (e ∷ es) s =
      own_run a threshold es (if str_eq (scope_of e) a then own threshold e s else s)

  apply-put :
      (e : Event) (cb : CircuitBreaker)
      → apply e cb ≡ put (scope_of e) (own cb.threshold e (ensure_scope (scope_of e) cb)) cb
  unfolding apply own scope_of
  apply-put (failure scope now) cb = refl
  apply-put (success scope) cb = refl
  apply-put (manual_reset scope) cb = refl

  apply-own :
      (a : String) (e : Event) (cb : CircuitBreaker)
      → ensure_scope a (apply e cb) ≡ (
          if str_eq (scope_of e) a
          then own cb.threshold e (ensure_scope a cb)
          else ensure_scope a cb)
  apply-own a e cb = elim (Bool-cases (str_eq (scope_of e) a)) [
    | inl same ↦
        rw (apply-put e cb, ensure_scope-put, same)
          (ap (λ t. own cb.threshold e (ensure_scope t cb)) ((eq_iff (scope_of e) a).0 same))
    | inr other ↦ rw (apply-put e cb, ensure_scope-put, other)
  ]

  apply-threshold : (e : Event) (cb : CircuitBreaker) → (apply e cb).threshold ≡ cb.threshold
  apply-threshold e cb = rw (apply-put e cb)

  -- Under any sequence of events over all scopes, the breaker keeps for each scope what that scope
  -- would have by itself: scopes do not affect one another.
  pub run-own :
      (a : String) (es : List Event) (cb : CircuitBreaker)
      → ensure_scope a (run es cb) ≡ own_run a cb.threshold es (ensure_scope a cb)
  unfolding run own_run
  run-own a [] cb = refl
  run-own a (e ∷ es) cb =
      run-own a es (apply e cb)
      ∙ ap₂ (λ t s. own_run a t es s) (apply-threshold e cb) (apply-own a e cb)

  own-IsBelow :
      (threshold : ℤ) (e : Event) (s : ScopeState)
      → IsBelow threshold s
      → IsBelow threshold (own threshold e s)
  unfolding own ◌+ℤ◌
  own-IsBelow threshold (failure scope now) s h = ground arith
  own-IsBelow threshold (success scope) s h = ground arith
  own-IsBelow threshold (manual_reset scope) s h = ground arith

  step-IsBelow :
      (b : Bool) (threshold : ℤ) (e : Event) (s : ScopeState)
      → IsBelow threshold s
      → IsBelow threshold (if b then own threshold e s else s)
  step-IsBelow true threshold e s h = own-IsBelow threshold e s h
  step-IsBelow false threshold e s h = h

  own_run-IsBelow :
      (a : String) (threshold : ℤ) (es : List Event) (s : ScopeState)
      → IsBelow threshold s
      → IsBelow threshold (own_run a threshold es s)
  unfolding own_run
  own_run-IsBelow a threshold [] s h = h
  own_run-IsBelow a threshold (e ∷ es) s h =
      own_run-IsBelow a threshold es _ (step-IsBelow (str_eq (scope_of e) a) threshold e s h)

  -- After any events on a new breaker, a scope that has not tripped has counted no failure in a row,
  -- or fewer than the threshold: the count is bounded by the threshold.
  pub untripped-IsBelow :
      (a : String) (threshold : ℤ) (es : List Event)
      → IsBelow threshold (ensure_scope a (run es (new_circuit_breaker threshold)))
  unfolding new_circuit_breaker ensure_scope lookup
  untripped-IsBelow a threshold es =
      rw (run-own a es (new_circuit_breaker threshold))
        (own_run-IsBelow a threshold es fresh (inr (inl refl)))

  run-append : (es fs : List Event) (cb : CircuitBreaker) → run (es ++ fs) cb ≡ run fs (run es cb)
  unfolding run
  run-append [] fs cb = refl
  run-append (e ∷ es) fs cb = run-append es fs (apply e cb)

  tripped_step :
      (a : String) (threshold : ℤ) (e : Event) (s : ScopeState)
      → is_no_reset a e ≡ true
      → s.tripped ≡ true
      → (if str_eq (scope_of e) a then own threshold e s else s) ≡ s
  unfolding own scope_of
  tripped_step a threshold (failure scope now) s n t = ground arith
  tripped_step a threshold (success scope) s n t = ground arith
  tripped_step a threshold (manual_reset scope) s n t = ground arith

  tripped_run :
      (a : String) (threshold : ℤ) (es : List Event) (s : ScopeState)
      → All (λ e. is_no_reset a e ≡ true) es
      → s.tripped ≡ true
      → own_run a threshold es s ≡ s
  unfolding own_run
  tripped_run a threshold [] s n t = refl
  tripped_run a threshold (e ∷ es) s n t =
      rw (tripped_step a threshold e s n.0 t) (tripped_run a threshold es s n.1 t)

  -- A scope that has tripped keeps its state, reason and time included, under any failures and
  -- successes of its own and any events of other scopes: only its own reset changes it.
  pub tripped_until_reset :
      (a : String) (es : List Event) (cb : CircuitBreaker)
      → All (λ e. is_no_reset a e ≡ true) es
      → (ensure_scope a cb).tripped ≡ true
      → ensure_scope a (run es cb) ≡ ensure_scope a cb
  tripped_until_reset a es cb n t =
      run-own a es cb ∙ tripped_run a cb.threshold es (ensure_scope a cb) n t

  failures-no_reset :
      (a : String) (now k : ℕ) → All (λ e. is_no_reset a e ≡ true) (failures_of a now k)
  failures-no_reset a now zero = tt
  failures-no_reset a now (suc k) = (refl, failures-no_reset a now k)

  fail-cases :
      (threshold : ℤ) (a : String) (now : ℕ) (s : ScopeState)
      → let t = fail describe threshold a now s in
        (t.tripped ≡ true) ⊎ (t.failures ≡ suc s.failures)
  unfolding fail
  fail-cases threshold a now s = ground arith

  own_run-failure :
      (a : String) (threshold : ℤ) (now k : ℕ) (s : ScopeState)
      → own_run a threshold (failures_of a now (suc k)) s
        ≡ own_run a threshold (failures_of a now k) (fail describe threshold a now s)
  unfolding own_run own scope_of
  own_run-failure a threshold now k s =
      ap
        (λ b.
          own_run a threshold (failures_of a now k)
            (if b then fail describe threshold a now s else s))
        (eq_refl a)

  own_failures :
      (a : String) (threshold : ℤ) (now k : ℕ) (s : ScopeState)
      → let t = own_run a threshold (failures_of a now k) s in
        (t.tripped ≡ true) ⊎ (t.failures ≡ s.failures + k)
  own_failures a threshold now zero s = unfold own_run in inr (omega arith)
  own_failures a threshold now (suc k) s =
      let s' = fail describe threshold a now s in
      rw (own_run-failure a threshold now k s) (elim (fail-cases threshold a now s) [
        | inl t ↦
            inl (
              rw (tripped_run a threshold (failures_of a now k) s' (failures-no_reset a now k) t) t)
        | inr n ↦ elim (own_failures a threshold now k s') [
          | inl t ↦ inl t
          | inr m ↦ inr (omega arith)
        ]
      ])

  above-tripped :
      (threshold : ℤ) (k : ℕ) (s : ScopeState)
      → 0 < k
      → threshold ≤ℤ pos k
      → (n : ℕ) → s.failures ≡ n + k
      → IsBelow threshold s
      → s.tripped ≡ true
  unfolding ◌+ℤ◌
  above-tripped threshold k s kp kt n e h = ground arith

  -- However a scope of a new breaker has come to its present state, `k` further failures in a row,
  -- with `k` positive and no less than the threshold, leave it tripped.
  pub failures_in_a_row_trip :
      (a : String) (threshold : ℤ) (es : List Event) (now k : ℕ)
      → 0 < k
      → threshold ≤ℤ pos k
      → (ensure_scope a (run (es ++ failures_of a now k) (new_circuit_breaker threshold))).tripped
        ≡ true
  unfolding ◌+ℤ◌ new_circuit_breaker
  failures_in_a_row_trip a threshold es now k kp kt =
      let cb = new_circuit_breaker threshold in
      let before = ensure_scope a (run es cb) in
      let after : ensure_scope a (run (es ++ failures_of a now k) cb)
          ≡ own_run a (run es cb).threshold (failures_of a now k) before =
        ap (ensure_scope a) (run-append es (failures_of a now k) cb)
        ∙ run-own a (failures_of a now k) (run es cb) in
      elim (own_failures a (run es cb).threshold now k before) [
        | inl t ↦ ap (λ (s : ScopeState). s.tripped) after ∙ t
        | inr n ↦
            above-tripped threshold k (ensure_scope a (run (es ++ failures_of a now k) cb)) kp kt
              before.failures (ap (λ (s : ScopeState). s.failures) after ∙ n)
              (untripped-IsBelow a threshold (es ++ failures_of a now k))
      ]
