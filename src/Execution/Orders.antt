-- ===== src/Execution/Orders.antt =====
-- fandos1/internal/execution/order_executor.go, with the order types of domain/market.go. The
-- exchange adapter answers each call by all the calls that it has had, newest first; its time-outs
-- are answers too. A call of `Place` takes this list and returns it with the calls it has made.
pub mod Laws
use fandos.Prelude.{
  ℕ, String, ◌≡◌, Bool, true, false, not, ◌||◌, ◌⊎◌, inl, inr, List, [], ◌∷◌, if◌then◌else◌,
}
use fandos.Decimal.{Shopspring}

pub data Side : Type 0 where
  long short : Side

pub data OrderMode : Type 0 where
  marketable_limit_ioc market : OrderMode

pub data TimeInForce : Type 0 where
  gtc ioc fok : TimeInForce

pub data OrderStatus : Type 0 where
  new acknowledged partially_filled filled cancelled rejected expired not_found : OrderStatus

pub data AckState : Type 0 where
  acked queried timed_out : AckState

-- The errors of the adapter that the executor tells apart; `definite` is any other one.
pub data ExchangeError : Type 0 where
  timeout network order_not_found : ExchangeError
  definite : String → ExchangeError

pub record PlaceOrderRequest (D : Type 0) : Type 0 where
  pub client_order_id : String
  pub symbol : String
  pub side : Side
  pub order_mode : OrderMode
  pub base_qty : D
  pub price : D
  pub reduce_only : Bool
  pub post_only : Bool
  pub time_in_force : TimeInForce

pub record OrderAck : Type 0 where
  pub exchange_order_id : String
  pub client_order_id : String
  pub status : OrderStatus
  pub timestamp : ℕ

pub record Order (D : Type 0) : Type 0 where
  pub exchange_order_id : String
  pub client_order_id : String
  pub symbol : String
  pub side : Side
  pub order_mode : OrderMode
  pub reduce_only : Bool
  pub requested_qty : D
  pub filled_qty : D
  pub avg_fill_price : D
  pub fees : D
  pub status : OrderStatus
  pub exchange_timestamp : ℕ
  pub ack_state : AckState

pub record OrderQuery : Type 0 where
  pub client_order_id : String
  pub exchange_order_id : String
  pub symbol : String

pub data ResultSource : Type 0 where
  ack query : ResultSource

-- The result where there is no error; with an error Go returns it twice, and nothing else.
pub record PlaceOrderResult (D : Type 0) : Type 0 where
  pub order : Order D
  pub source : ResultSource

pub data Request (D : Type 0) : Type 0 where
  place_order : PlaceOrderRequest D → Request D
  get_order : OrderQuery → Request D

abbrev pub Requests : Type 0 → Type 0
Requests D = List (Request D)

pub record Adapter (D : Type 0) : Type 0 where
  pub place_answer : Requests D → OrderAck ⊎ ExchangeError
  pub order_answer : Requests D → Order D ⊎ ExchangeError

unfoldable pub is_terminal_negative : OrderStatus → Bool
is_terminal_negative cancelled = true
is_terminal_negative rejected = true
is_terminal_negative expired = true
is_terminal_negative _ = false

unfoldable pub is_safe_retry : ExchangeError → Bool
is_safe_retry order_not_found = true
is_safe_retry _ = false

unfoldable pub is_ambiguous_timeout : ExchangeError → Bool
is_ambiguous_timeout timeout = true
is_ambiguous_timeout network = true
is_ambiguous_timeout _ = false

abbrev pub query_of : {D : Type 0} → PlaceOrderRequest D → OrderQuery
query_of req = record {
  client_order_id = req.client_order_id;
  exchange_order_id = "";
  symbol = req.symbol;
}

-- What a call of `Place` returns, with the requests that the adapter has had by then.
abbrev pub Placed : Type 0 → Type 0
Placed D = (PlaceOrderResult D ⊎ ExchangeError) × Requests D

module _ (S : Shopspring) (adapter : Adapter S.Decimal) where
  open S use {Decimal, zero}

  -- The order as the acknowledgement gives it.
  unfoldable pub acked_order : PlaceOrderRequest Decimal → OrderAck → Order Decimal
  acked_order req a = record {
    exchange_order_id = a.exchange_order_id;
    client_order_id = a.client_order_id;
    symbol = req.symbol;
    side = req.side;
    order_mode = req.order_mode;
    reduce_only = req.reduce_only;
    requested_qty = req.base_qty;
    filled_qty = zero;
    avg_fill_price = zero;
    fees = zero;
    status = a.status;
    exchange_timestamp = a.timestamp;
    ack_state = acked;
  }

  -- The details of the query, where it has an answer.
  unfoldable pub with_details :
      Order Decimal → Order Decimal ⊎ ExchangeError → PlaceOrderResult Decimal
  unfolding is_terminal_negative
  with_details order (inl q) = record {
    order = record order {
      filled_qty = q.filled_qty;
      avg_fill_price = q.avg_fill_price;
      fees = q.fees;
      status = q.status;
    };
    source = if is_terminal_negative q.status then query else ack;
  }
  with_details order (inr e) = record { order = order; source = ack }

  -- What is known of an order whose placement had no answer.
  unfoldable pub recovered :
      Order Decimal ⊎ ExchangeError → PlaceOrderResult Decimal ⊎ ExchangeError
  recovered (inl q) = inl (record { order = record q { ack_state = queried }; source = query })
  recovered (inr e) = inr e

  -- The query, for the requests that go before it.
  abbrev pub asked : PlaceOrderRequest Decimal → Requests Decimal → Requests Decimal
  asked req t = get_order (query_of req) ∷ t

  unfoldable pub after_place :
      PlaceOrderRequest Decimal → OrderAck ⊎ ExchangeError → Requests Decimal → Placed Decimal
  unfolding acked_order with_details recovered is_ambiguous_timeout
  after_place req (inl a) t =
      (inl (with_details (acked_order req a) (adapter.order_answer (asked req t))), asked req t)
  after_place req (inr e) t =
      if not (is_ambiguous_timeout e)
      then (inr e, t)
      else (recovered (adapter.order_answer (asked req t)), asked req t)

  -- `Place`.
  unfoldable pub place : PlaceOrderRequest Decimal → Requests Decimal → Placed Decimal
  unfolding after_place
  place req t = let t' = place_order req ∷ t in after_place req (adapter.place_answer t') t'
