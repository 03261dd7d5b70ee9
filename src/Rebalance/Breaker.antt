-- ===== src/Rebalance/Breaker.antt =====
-- fandos1/internal/rebalance/circuit_breaker.go: failures in a row, by scope. The mutex makes every
-- method one step; the persistent store is never read or written by these methods. `trip_reason`
-- renders the threshold and the scope as `fmt.Sprintf` does, and is a parameter.
pub mod Laws
use fandos.Prelude.{
  ℕ, suc, ◌+◌, ℤ, pos, leb_ℤ, String, ◌≡◌, Bool, true, false, Option, none, some, [], if◌then◌else◌,
  Dict, lookup, insert,
}

pub record ScopeState : Type 0 where
  pub failures : ℕ
  pub tripped : Bool
  pub trip_reason : String
  pub tripped_at : Option ℕ

pub record BreakerState : Type 0 where
  pub scope : String
  pub tripped : Bool
  pub trip_reason : String
  pub failures_count : ℕ
  pub tripped_at : Option ℕ
  pub manual_reset_required : Bool
  pub updated_at : ℕ

pub record CircuitBreaker : Type 0 where
  pub threshold : ℤ
  pub states : Dict ScopeState

unfoldable pub new_circuit_breaker : ℤ → CircuitBreaker
new_circuit_breaker threshold = record { threshold = threshold; states = [] }

-- `&scopeState{}`.
abbrev pub fresh : ScopeState
fresh = record { failures = 0; tripped = false; trip_reason = ""; tripped_at = none }

-- The state that `ensureScope` returns; the map entry is written with it by the callers below.
unfoldable pub ensure_scope : String → CircuitBreaker → ScopeState
ensure_scope scope cb = elim (lookup scope cb.states) [ none ↦ fresh | some s ↦ s ]

abbrev put : String → ScopeState → CircuitBreaker → CircuitBreaker
put scope s cb = record cb { states = insert scope s cb.states }

unfoldable pub is_tripped : String → CircuitBreaker → Bool × String
is_tripped scope cb = elim (lookup scope cb.states) [
  | none ↦ (false, "")
  | some s ↦ if s.tripped then (true, s.trip_reason) else (false, "")
]

-- What `RecordFailure` does to the state of the scope.
unfoldable pub fail : (ℤ → String → String) → ℤ → String → ℕ → ScopeState → ScopeState
fail describe threshold scope now s =
    let n = s.failures + 1 in
    if s.tripped
    then s
    else if leb_ℤ threshold (pos n)
    then record {
      failures = n;
      tripped = true;
      trip_reason = describe threshold scope;
      tripped_at = some now;
    }
    else record s { failures = n }

unfoldable pub record_failure : (ℤ → String → String) → String → ℕ → CircuitBreaker → CircuitBreaker
unfolding ensure_scope fail
record_failure describe scope now cb =
    put scope (fail describe cb.threshold scope now (ensure_scope scope cb)) cb

unfoldable pub record_success : String → CircuitBreaker → CircuitBreaker
unfolding ensure_scope
record_success scope cb =
    let s = ensure_scope scope cb in
    put scope (if s.tripped then s else record s { failures = 0 }) cb

unfoldable pub reset : String → CircuitBreaker → CircuitBreaker
unfolding ensure_scope
reset scope cb = put scope fresh cb

unfoldable pub state : String → ℕ → CircuitBreaker → BreakerState
state scope now cb = elim (lookup scope cb.states) [
  | none ↦ record {
    scope = scope;
    tripped = false;
    trip_reason = "";
    failures_count = 0;
    tripped_at = none;
    manual_reset_required = true;
    updated_at = now;
  }
  | some s ↦ record {
    scope = scope;
    tripped = s.tripped;
    trip_reason = s.trip_reason;
    failures_count = s.failures;
    tripped_at = s.tripped_at;
    manual_reset_required = true;
    updated_at = now;
  }
]

unfoldable pub failures_count : String → CircuitBreaker → ℕ
failures_count scope cb = elim (lookup scope cb.states) [ none ↦ 0 | some s ↦ s.failures ]
