-- ===== src/Execution/Orders/Laws.antt =====
-- What `Place` asks of the exchange, and what its errors say of the order.
use fandos.Prelude.{◌≡◌, refl, Bool, true, false, ◌⊎◌, inl, inr, List, [], ◌∷◌, arith}
use fandos.Decimal.{Shopspring}
use fandos.Execution.Orders.{
  PlaceOrderRequest, PlaceOrderResult, OrderAck, Order, ExchangeError, Requests, is_safe_retry,
  place_order, get_order, Adapter, query_of, is_ambiguous_timeout, after_place, place,
}

-- The orders sent, newest first.
abbrev pub orders_of : {D : Type 0} → Requests D → List (PlaceOrderRequest D)
orders_of [] = []
orders_of (place_order req ∷ t) = req ∷ orders_of t
orders_of (get_order q ∷ t) = orders_of t

-- Whether the exchange has the order of a request, as far as the adapter's answers tell: an
-- acknowledgement means that it does, a definite error of the placement that it does not, an answer to
-- the query that it does, an order not found that it does not. Any other error of the query tells
-- nothing, and a query changes nothing.
pub record Truthful {D : Type 0} (adapter : Adapter D) (stands : Requests D → Bool) : Type 0 where
  pub acknowledges :
      (req : PlaceOrderRequest D) (t : Requests D) (a : OrderAck)
      → adapter.place_answer (place_order req ∷ t) ≡ inl a
      → stands (place_order req ∷ t) ≡ true
  pub refuses :
      (req : PlaceOrderRequest D) (t : Requests D) (e : ExchangeError)
      → is_ambiguous_timeout e ≡ false
      → adapter.place_answer (place_order req ∷ t) ≡ inr e
      → stands (place_order req ∷ t) ≡ false
  pub queries :
      (req : PlaceOrderRequest D) (t : Requests D)
      → stands (get_order (query_of req) ∷ t) ≡ stands t
  pub finds :
      (req : PlaceOrderRequest D) (t : Requests D) (q : Order D)
      → adapter.order_answer (get_order (query_of req) ∷ t) ≡ inl q
      → stands t ≡ true
  pub finds_none :
      (req : PlaceOrderRequest D) (t : Requests D) (e : ExchangeError)
      → is_safe_retry e ≡ true
      → adapter.order_answer (get_order (query_of req) ∷ t) ≡ inr e
      → stands t ≡ false

-- What the caller may conclude, with the requests that the exchange has had behind the placement: an
-- order for a result; none for an error that is safe to retry, or for one that came without a query.
abbrev pub Known :
    {D : Type 0}
    → (Requests D → Bool)
    → Requests D
    → Requests D
    → PlaceOrderResult D ⊎ ExchangeError
    → Type 0
Known stands placed t (inl r) = stands t ≡ true
Known stands placed t (inr e) =
    (is_safe_retry e ≡ true → stands t ≡ false) × (t ≡ placed → stands t ≡ false)

module _ (S : Shopspring) (adapter : Adapter S.Decimal) where
  open S use {Decimal}

  after_place_once :
      (req : PlaceOrderRequest Decimal) (a : OrderAck ⊎ ExchangeError) (t : Requests Decimal)
      → orders_of (after_place S adapter req a t).1 ≡ orders_of t
  unfolding after_place
  after_place_once req (inl a) t = refl
  after_place_once req (inr e) t = ground arith

  -- `Place` never sends an order twice: whatever the exchange answers, it sends the one order that it
  -- was asked for, once.
  pub place_once :
      (req : PlaceOrderRequest Decimal) (t : Requests Decimal)
      → orders_of (place S adapter req t).1 ≡ req ∷ orders_of t
  unfolding place
  place_once req t =
      after_place_once req (adapter.place_answer (place_order req ∷ t)) (place_order req ∷ t)
