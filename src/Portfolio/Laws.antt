-- ===== src/Portfolio/Laws.antt =====
-- The operations of a position, one call at a time.
use fandos.Prelude.{
  ℕ, String, ◌≡◌, refl, ◌≢◌, ◌⊎◌, inl, inr, true, false, Option, none, some, List, [], ◌∷◌, ◌++◌,
  arith, drop_last-append, Bool-cases,
}
use fandos.Decimal.{Shopspring}
use fandos.Portfolio.{
  State, Error, position_terminal, persist_in_progress, invalid_transition, Transition, Position,
  Persister, is_terminal, can_transition, begin_transition, finish_transition, transition_to,
  set_quantities, add_realised_pnl, add_funding_pnl,
}

-- What a call of `TransitionTo` has done to the position, by how it ended.
abbrev pub Outcome :
    {D : Type 0} → Position D → State → ℕ → String → String → Position D × Option Error → Type 0
Outcome p to now reason actor (p', none) =
    (is_terminal p.state ≡ false)
    × (p.persisting ≡ false)
    × (can_transition p.state to ≡ true)
    × (p' ≡ record p {
      state = to;
      updated_at = now;
      history =
          p.history
          ++ record { from = p.state; to = to; at = now; reason = reason; actor = actor } ∷ [];
    })
Outcome p to now reason actor (p', some e) =
    (p'.state ≡ p.state) × (p'.history ≡ p.history) × (p'.persisting ≡ p.persisting)

abbrev pub record_of : {D : Type 0} → Position D → State → ℕ → String → String → Transition
record_of p to now reason actor = record {
  from = p.state;
  to = to;
  at = now;
  reason = reason;
  actor = actor;
}

-- The position while its persister runs.
abbrev pub pending : {D : Type 0} → Position D → State → ℕ → String → String → Position D
pending p to now reason actor = record p {
  persisting = true;
  state = to;
  updated_at = now;
  history = p.history ++ record_of p to now reason actor ∷ [];
}

module _ {D : Type 0} where
  -- How the first critical section ends.
  pub begin-cases :
      (to : State) (now : ℕ) (reason actor : String) (p : Position D)
      → ((e : Error) × (begin_transition to now reason actor p ≡ (p, inl e)))
        ⊎ ((is_terminal p.state ≡ false)
            × (p.persisting ≡ false)
            × (can_transition p.state to ≡ true)
            × (begin_transition to now reason actor p
                ≡ (pending p to now reason actor, inr (record_of p to now reason actor))))
  unfolding begin_transition
  begin-cases to now reason actor p = elim (Bool-cases (is_terminal p.state)) [
    | inl e ↦ inl (position_terminal, rw e)
    | inr e ↦ elim (Bool-cases p.persisting) [
      | inl busy ↦ inl (persist_in_progress, ground arith)
      | inr idle ↦ elim (Bool-cases (can_transition p.state to)) [
        | inl allowed ↦ inr (e, idle, allowed, ground arith)
        | inr refused ↦ inl (invalid_transition, ground arith)
      ]
    ]
  ]

  finish-Outcome :
      (to : State) (now : ℕ) (reason actor : String) (answer : Option String) (p : Position D)
      → (e : is_terminal p.state ≡ false) → (idle : p.persisting ≡ false)
      → (allowed : can_transition p.state to ≡ true)
      → Outcome p to now reason actor (
          finish_transition answer
            (record_of p to now reason actor)
            (pending p to now reason actor))
  unfolding finish_transition
  finish-Outcome to now reason actor none p e idle allowed = (e, idle, allowed, ground arith)
  finish-Outcome to now reason actor (some x) p e idle allowed =
      (refl, drop_last-append p.history _, ground arith)

  -- A call of TransitionTo either succeeds, and then the position was neither terminal nor being
  -- persisted, the table allowed the transition, and the state, the time and one new record of the
  -- history are all that changed; or it fails, whatever the reason and the persister, and then the
  -- state, the history and the persisting flag are those from before the call.
  pub transition_to-Outcome :
      (to : State) (now : ℕ) (reason actor : String) (persister : Option (Persister D))
      (p : Position D)
      → Outcome p to now reason actor (transition_to to now reason actor persister p)
  unfolding transition_to
  transition_to-Outcome to now reason actor persister p = elim (begin-cases to now reason actor p) [
    | inl (e, refused) ↦ rw refused (refl, refl, refl)
    | inr (e, idle, allowed, begun) ↦
        rw begun (finish-Outcome to now reason actor _ p e idle allowed)
  ]

-- One call of a method that writes to the position.
pub data Call (D : Type 0) : Type 0 where
  transition : State → ℕ → String → String → Option (Persister D) → Call D
  quantities : D → D → ℕ → Call D
  realised funding : D → ℕ → Call D

module _ (S : Shopspring) where
  open S use {Decimal, zero, sub}

  unfoldable pub call : Call Decimal → Position Decimal → Position Decimal × Option Error
  call (transition to now reason actor persister) p = transition_to to now reason actor persister p
  call (quantities long short now) p = set_quantities long short now p
  call (realised amount now) p = add_realised_pnl S amount now p
  call (funding amount now) p = add_funding_pnl S amount now p

  unfoldable pub calls : List (Call Decimal) → Position Decimal → Position Decimal
  calls [] p = p
  calls (c ∷ cs) p = calls cs (call c p).0

  terminal_call :
      (c : Call Decimal) (p : Position Decimal)
      → is_terminal p.state ≡ true
      → ((call c p).0 ≡ p) × ((call c p).1 ≢ none)
  unfolding call transition_to set_quantities add_realised_pnl add_funding_pnl begin_transition
  terminal_call (transition to now reason actor persister) p h = (ground arith, ground arith)
  terminal_call (quantities long short now) p h = (ground arith, ground arith)
  terminal_call (realised amount now) p h = (ground arith, ground arith)
  terminal_call (funding amount now) p h = (ground arith, ground arith)

  -- A position that is CLOSED or FAILED stays exactly as it is under every sequence of writing
  -- calls, and any further call returns an error.
  pub terminal_absorbs :
      (cs : List (Call Decimal)) (c : Call Decimal) (p : Position Decimal)
      → is_terminal p.state ≡ true
      → (calls cs p ≡ p) × ((call c (calls cs p)).1 ≢ none)
  unfolding calls
  terminal_absorbs [] c p h = (refl, (terminal_call c p h).1)
  terminal_absorbs (d ∷ cs) c p h = rw ((terminal_call d p h).0) (terminal_absorbs cs c p h)
