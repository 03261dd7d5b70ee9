-- ===== src/Execution/Close/Data.antt =====
-- The types of fandos1/internal/execution/close.go.
use fandos.Prelude.{ℕ, ◌+◌, ℤ, pos, negsuc, String, Bool, true, false, Option, none, some}
use fandos.Execution.Orders.{Side, ExchangeError, Adapter, Requests}

pub data Purpose : Type 0 where
  entry exit repair emergency : Purpose

pub record ClientOrderIdParts : Type 0 where
  pub position_id : String
  pub leg_side : Side
  pub slice_index : ℕ
  pub nonce : ℕ
  pub purpose : Purpose

-- The number of ticks is the decimal that `MulInt` makes of it.
pub record CloseConfig (D : Type 0) : Type 0 where
  pub close_protection_ticks : D
  pub max_requotes : ℤ
  pub tick_size : D

pub record CloseRequest (D : Type 0) : Type 0 where
  pub position_id : String
  pub long_symbol : String
  pub long_remaining : D
  pub short_symbol : String
  pub short_remaining : D

pub data CloseError : Type 0 where
  close_incomplete close_ambiguous : CloseError

pub data Reason : Type 0 where
  none_given no_long_bid no_short_ask both_legs_failed requotes_exhausted : Reason
  leg_unknown : String → Reason

pub record CloseResult (D : Type 0) : Type 0 where
  pub long_closed_qty : D
  pub short_closed_qty : D
  pub residual_long_qty : D
  pub residual_short_qty : D
  pub degraded : Bool
  pub reason : Reason

pub record LegAttemptResult (D : Type 0) : Type 0 where
  pub filled : D
  pub ambiguous : Bool
  pub error : Option ExchangeError

-- The requests that the two adapters have had.
pub record Venues (D : Type 0) : Type 0 where
  pub long_requests : Requests D
  pub short_requests : Requests D

pub record Markets (D : Type 0) : Type 0 where
  pub long_adapter : Adapter D
  pub short_adapter : Adapter D
  pub best_bid : String → Venues D → Option D
  pub best_ask : String → Venues D → Option D

-- How a close ends.
pub record Closing (D : Type 0) : Type 0 where
  pub result : CloseResult D
  pub error : Option CloseError
  pub venues : Venues D

abbrev pub is_error : Option ExchangeError → Bool
is_error none = false
is_error (some e) = true

abbrev pub which_leg : Bool → Bool → String
which_leg true true = "both"
which_leg false true = "short"
which_leg _ false = "long"

-- `attempt <= cfg.MaxRequotes` from 0 on.
abbrev pub attempts : ℤ → ℕ
attempts (pos n) = n + 1
attempts (negsuc n) = 0
