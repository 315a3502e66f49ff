-- ===== src/Orders.antt =====
-- baseline/orders_store.py over baseline/repositories/sqlite_orders.py.
use fake_ui.Prelude.{String, Option, none, some}
use fake_ui.Prelude.Table.{Table, lookup}
use fake_ui.Prelude.Result.{Result, ok, err}
use fake_ui.Prelude.Action.{Action, gets}
use fake_ui.Store.{Order, OrderStatus, Plan, World, Env}
use fake_ui.Store.Repository.{Row, upsert, update}

abbrev pub order_row : Row Order
order_row = record {
  id_of = λ o. o.id;
  set_id = λ k o. record o { id = k };
  no_id = "order id is required";
  not_found = "order not found";
}

unfoldable pub get_order : String → Action World (Option Order)
get_order order_id = gets (λ w. lookup order_id w.orders)

-- `plan_id` and `amount` of an order; an amount is the text of the float
abbrev pub plan_id_of : Option Plan → String
plan_id_of none = ""
plan_id_of (some plan) = plan.id

abbrev price_of : Option Plan → String
price_of none = "0.0"
price_of (some plan) = plan.price

-- The state after a write: the order and the new rows, or the error and the old ones.
abbrev pub commit : World → Result (Order × Table Order) → Result Order × World
commit w (ok (o, t)) = (ok o, record w { orders = t })
commit w (err e) = (err e, w)

abbrev pub paired : Order → Result (Table Order) → Result (Order × Table Order)
paired o (ok t) = ok (o, t)
paired o (err e) = err e

unfoldable pub record_order :
    Env → String → String → Option Plan → OrderStatus → String → String → Action World Order
record_order env username kind plan status note operator w =
    let order : Order = record {
      id = env.order_id;
      username = username;
      kind = kind;
      plan_id = plan_id_of plan;
      amount = price_of plan;
      status = status;
      note = note;
      operator = operator;
      payment_id = "";
      payment_status = none;
      created_at = some env.now;
      updated_at = none;
      cancelled_at = none;
      cancelled_by = "";
      confirmed_at = none;
      confirmed_by = "";
      recovered_at = none;
    } in
    commit w (paired order (upsert order_row order w.orders))

unfoldable pub create_pending_order :
    Env → String → String → Option Plan → String → String → Action World Order
unfolding record_order
create_pending_order env username kind plan note operator =
    record_order env username kind plan OrderStatus.pending note operator

unfoldable pub update_order : Env → String → (Order → Order) → Action World Order
update_order env order_id f w =
    commit w (update order_row order_id (λ o. record (f o) { updated_at = some env.now }) w.orders)
