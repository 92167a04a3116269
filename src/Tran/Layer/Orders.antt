-- ===== src/Tran/Layer/Orders.antt =====
-- contrib/tranlayer/tranlayer.go: requestHandler sends the orders of a new transaction.
use airline_booking.Prelude.{
  ℕ, zero, suc, ◌<◌, ◌≡◌, refl, ap, ◌∙◌, none, some, List, [], ◌∷◌, arith, nat_eq, beq_self, length,
  Text, text_eq,
}
use airline_booking.Prelude.Assoc.{insert, delete}
use airline_booking.Tran.Types.{TranOrder, TranLayer, Effect, call, trans_timer, OldTransaction}
use airline_booking.Tran.Layer.{init_args, send_order, send_orders}
use mathlib.Core.Option.{map}

-- A message per order, in the order of the orders, and then the timer.
abbrev pub order_messages : Text → Text → List Text → List TranOrder → List Effect
order_messages self t ppts [] = trans_timer t ∷ []
order_messages self t ppts (o ∷ os) =
    call o.conn (init_args self t ppts o) ∷ order_messages self t ppts os

abbrev pub pending : Text → List Text → List TranOrder → TranLayer → TranLayer
pending t ppts orders tl = record tl {
  old_transaction_map = (t, record { order_list = orders; ppt_list = ppts }) ∷ [];
}

removed : (t : Text) (old : OldTransaction) → delete t ((t, old) ∷ []) ≡ []
unfolding delete
removed t old = rw (beq_self t) refl

moved : (t : Text) (old new : OldTransaction) → insert t new ((t, old) ∷ []) ≡ (t, new) ∷ []
unfolding insert
moved t old new = rw (beq_self t) refl

-- With a single new transaction of at least one order, and more rounds than orders: requestHandler
-- sends each order to its participant, in turn, starts the timer of the transaction once, and has no
-- transaction left to send.
pub send_orders_all :
    (t : Text) (ppts : List Text) (o : TranOrder) (os : List TranOrder) (rounds : ℕ)
    (tl : TranLayer)
    → length (o ∷ os) < rounds
    → send_orders rounds (pending t ppts (o ∷ os) tl)
      ≡ some (record tl { old_transaction_map = [] }, order_messages tl.myhostport t ppts (o ∷ os))
unfolding send_orders send_order delete insert
send_orders_all t ppts o os zero tl h = absurd (omega arith)
send_orders_all t ppts o os (suc zero) tl h = absurd (omega arith)
send_orders_all t ppts o [] (suc (suc rounds)) tl h =
    ap
      (λ m.
        map
          (λ (x : TranLayer × List Effect).
            (x.0, call o.conn (init_args tl.myhostport t ppts o) ∷ trans_timer t ∷ x.1))
          (send_orders (suc rounds) (record tl { old_transaction_map = m })))
      (removed t (record { order_list = o ∷ []; ppt_list = ppts }))
send_orders_all t ppts o (p ∷ os) (suc (suc rounds)) tl h =
    ap
      (λ m.
        map
          (λ (x : TranLayer × List Effect).
            (x.0, call o.conn (init_args tl.myhostport t ppts o) ∷ x.1))
          (send_orders (suc rounds) (record tl { old_transaction_map = m })))
      (moved t (record { order_list = o ∷ p ∷ os; ppt_list = ppts })
        (record { order_list = p ∷ os; ppt_list = ppts }))
    ∙ ap
        (map (λ (x : TranLayer × List Effect).
          (x.0, call o.conn (init_args tl.myhostport t ppts o) ∷ x.1)))
        (send_orders_all t ppts p os (suc rounds) tl (omega arith))

-- A transaction without orders stops the coordinator.
pub send_orders-none :
    (t : Text) (ppts : List Text) (rounds : ℕ) (tl : TranLayer)
    → send_orders rounds (pending t ppts [] tl) ≡ none
unfolding send_orders send_order
send_orders-none t ppts zero tl = refl
send_orders-none t ppts (suc rounds) tl = refl
