-- ===== src/Portfolio.antt =====
-- fandos1/internal/portfolio/state_machine.go and restore.go: the pair position and its persistent
-- state machine. `Position.TransitionTo` takes the mutex twice, with the persister's callback in
-- between; the two critical sections are `begin_transition` and `commit` or `rollback`, and
-- `transition_to` puts them together. Decimals are a parameter `D`; times are nanoseconds.
pub mod Machine
pub mod Table
pub mod Concurrent
pub mod Laws
mod Tests
use fandos.Prelude.{
  ℕ, String, ◌≡◌, Bool, true, false, Option, none, some, List, [], ◌∷◌, ◌++◌, ◌⊎◌, inl, inr,
  if◌then◌else◌, drop_last,
}
use fandos.Decimal.{Shopspring, abs}
unfoldable pub use Machine.*

pub data Error : Type 0 where
  position_terminal persist_in_progress invalid_transition terminal_mutation : Error
  persist_failed : String → Error

pub record Transition : Type 0 where
  pub from : State
  pub to : State
  pub at : ℕ
  pub reason : String
  pub actor : String

pub record Position (D : Type 0) : Type 0 where
  pub id : String
  pub asset : String
  pub long_exchange : String
  pub short_exchange : String
  pub state : State
  pub entry_reason : String
  pub target_base_qty : D
  pub long_base_qty : D
  pub short_base_qty : D
  pub realised_pnl : D
  pub funding_pnl : D
  pub fees_paid : D
  pub created_at : ℕ
  pub updated_at : ℕ
  pub exit_reason : String
  pub exited_at : Option ℕ
  pub history : List Transition
  pub persisting : Bool

-- The persister reads the position and the transition, and answers nil or an error.
abbrev pub Persister : Type 0 → Type 0
Persister D = Position D → Transition → Option String

module _ {D : Type 0} where
  unfoldable pub current_state : Position D → State
  current_state p = p.state

  unfoldable pub position_is_terminal : Position D → Bool
  unfolding current_state
  position_is_terminal p = is_terminal (current_state p)

  -- The first critical section: the guards, and the transition with its record.
  unfoldable pub begin_transition :
      State → ℕ → String → String → Position D → Position D × (Error ⊎ Transition)
  unfolding is_terminal can_transition
  begin_transition to now reason actor p =
      let t : Transition = record {
        from = p.state;
        to = to;
        at = now;
        reason = reason;
        actor = actor;
      } in
      if is_terminal p.state
      then (p, inl position_terminal)
      else if p.persisting
      then (p, inl persist_in_progress)
      else if can_transition p.state to
      then (
        record p { persisting = true; state = to; updated_at = now; history = p.history ++ t ∷ [] },
        inr t,
      )
      else (p, inl invalid_transition)

  -- The critical section after an error of the persister.
  unfoldable pub rollback : State → ℕ → Position D → Position D
  rollback from now p = record p {
    state = from;
    updated_at = now;
    history = drop_last p.history;
    persisting = false;
  }

  -- The critical section after success.
  unfoldable pub commit : Position D → Position D
  commit p = record p { persisting = false }

  -- What `TransitionTo` does once the persister has answered.
  unfoldable pub finish_transition :
      Option String → Transition → Position D → Position D × Option Error
  unfolding rollback commit
  finish_transition none t p = (commit p, none)
  finish_transition (some e) t p = (rollback t.from t.at p, some (persist_failed e))

  -- A nil persister answers nothing.
  abbrev pub ask : Option (Persister D) → Position D → Transition → Option String
  ask none p t = none
  ask (some persister) p t = persister p t

  abbrev pub after_begin :
      Option (Persister D) → Position D × (Error ⊎ Transition) → Position D × Option Error
  after_begin persister (p, inl e) = (p, some e)
  after_begin persister (p, inr t) = finish_transition (ask persister p t) t p

  unfoldable pub transition_to :
      State → ℕ → String → String → Option (Persister D) → Position D → Position D × Option Error
  unfolding begin_transition finish_transition
  transition_to to now reason actor persister p =
      after_begin persister (begin_transition to now reason actor p)

  unfoldable pub set_quantities : D → D → ℕ → Position D → Position D × Option Error
  unfolding is_terminal
  set_quantities long short now p =
      if is_terminal p.state
      then (p, some terminal_mutation)
      else (record p { long_base_qty = long; short_base_qty = short; updated_at = now }, none)

  unfoldable pub history_copy : Position D → List Transition
  history_copy p = p.history

module _ (S : Shopspring) where
  open S use {Decimal, zero, add, sub}

  unfoldable pub new_position : String → String → String → String → ℕ → Position Decimal
  new_position id asset long_ex short_ex now = record {
    id = id;
    asset = asset;
    long_exchange = long_ex;
    short_exchange = short_ex;
    state = discovered;
    entry_reason = "";
    target_base_qty = zero;
    long_base_qty = zero;
    short_base_qty = zero;
    realised_pnl = zero;
    funding_pnl = zero;
    fees_paid = zero;
    created_at = now;
    updated_at = now;
    exit_reason = "";
    exited_at = none;
    history = [];
    persisting = false;
  }

  unfoldable pub delta_base : Position Decimal → Decimal
  delta_base p = sub p.long_base_qty (abs S p.short_base_qty)

  unfoldable pub add_realised_pnl : Decimal → ℕ → Position Decimal → Position Decimal × Option Error
  unfolding is_terminal
  add_realised_pnl amount now p =
      if is_terminal p.state
      then (p, some terminal_mutation)
      else (record p { realised_pnl = add p.realised_pnl amount; updated_at = now }, none)

  unfoldable pub add_funding_pnl : Decimal → ℕ → Position Decimal → Position Decimal × Option Error
  unfolding is_terminal
  add_funding_pnl amount now p =
      if is_terminal p.state
      then (p, some terminal_mutation)
      else (record p { funding_pnl = add p.funding_pnl amount; updated_at = now }, none)

-- What `Snapshot` hands out.
pub record Snapshot (D : Type 0) : Type 0 where
  pub id : String
  pub asset : String
  pub long_exchange : String
  pub short_exchange : String
  pub state : State
  pub target_base_qty : D
  pub long_base_qty : D
  pub short_base_qty : D
  pub realised_pnl : D
  pub funding_pnl : D
  pub fees_paid : D
  pub delta_base : D
  pub created_at : ℕ
  pub updated_at : ℕ

pub record RestoreArgs (D : Type 0) : Type 0 where
  pub id : String
  pub asset : String
  pub long_exchange : String
  pub short_exchange : String
  pub state : State
  pub target_base_qty : D
  pub actual_delta : D
  pub realised_pnl : D
  pub funding_pnl : D
  pub fees_paid : D
  pub entry_reason : String
  pub exit_reason : String
  pub exited_at : Option ℕ
  pub created_at : ℕ
  pub updated_at : ℕ

module _ (S : Shopspring) where
  open S use {Decimal, zero, sub}

  unfoldable pub snapshot : Position Decimal → Snapshot Decimal
  snapshot p = record {
    id = p.id;
    asset = p.asset;
    long_exchange = p.long_exchange;
    short_exchange = p.short_exchange;
    state = p.state;
    target_base_qty = p.target_base_qty;
    long_base_qty = p.long_base_qty;
    short_base_qty = p.short_base_qty;
    realised_pnl = p.realised_pnl;
    funding_pnl = p.funding_pnl;
    fees_paid = p.fees_paid;
    delta_base = sub p.long_base_qty (abs S p.short_base_qty);
    created_at = p.created_at;
    updated_at = p.updated_at;
  }

  -- The stored delta becomes the long quantity, and the short one is zero.
  unfoldable pub restore_position : RestoreArgs Decimal → Position Decimal
  restore_position args = record {
    id = args.id;
    asset = args.asset;
    long_exchange = args.long_exchange;
    short_exchange = args.short_exchange;
    state = args.state;
    entry_reason = args.entry_reason;
    target_base_qty = args.target_base_qty;
    long_base_qty = args.actual_delta;
    short_base_qty = zero;
    realised_pnl = args.realised_pnl;
    funding_pnl = args.funding_pnl;
    fees_paid = args.fees_paid;
    created_at = args.created_at;
    updated_at = args.updated_at;
    exit_reason = args.exit_reason;
    exited_at = args.exited_at;
    history = [];
    persisting = false;
  }
