-- ===== src/Admin/Once.antt =====
-- What a successful confirmation of an order leaves behind, and what a call meets that finds an
-- order in another status than pending. Service.Once joins them.
use fake_ui.Prelude.{
  String, false, Option, none, some, ◌≡◌, refl, sym, ◌∙◌, ap, inl, inr, arith, Option-cases,
}
use fake_ui.Prelude.Table.{lookup, insert, lookup-insert_self}
use fake_ui.Prelude.Result.{Result, ok, err}
use fake_ui.Prelude.Action.{lift, gets, check, ◌>>=◌, ◌>>◌, bind-ok, then-ok}
use fake_ui.Prelude.Keeps.{Keeps-run}
use fake_ui.Store.{Order, OrderStatus, World, Env}
use fake_ui.Store.Repository.{update, IsKeyed, update-eq}
use fake_ui.Orders.{order_row, get_order, update_order}
use fake_ui.Admin.{audit}
use fake_ui.Admin.Confirm.{pending_order, is_pending, apply_order, confirm_order}
use fake_ui.Admin.Frames.{Stays, pending_order-Stays, apply_order-Stays}

abbrev pub status_of : Option Order → Option OrderStatus
status_of none = none
status_of (some o) = some o.status

-- The status of the order in a world.
abbrev pub order_status : String → World → Option OrderStatus
order_status id w = status_of (lookup id w.orders)

-- A call that finds the order in another status than pending raises and changes nothing.
pub pending_order-eq_err :
    (id : String) (w : World) (s : OrderStatus)
    → order_status id w ≡ some s
    → is_pending s ≡ false
    → pending_order id w ≡ (err "order is not pending", w)
unfolding pending_order get_order ◌>>=◌ ◌>>◌ gets lift check
pending_order-eq_err id w s e h = ground arith

-- The row that an update by `f` stores under `id`.
abbrev pub stamped : Env → String → (Order → Order) → Order → Order
stamped env id f o = record (f o) { id = id; updated_at = some env.now }

module _ (env : Env) (id : String) (f : Order → Order) (w : World) where
  -- An update of an order that is there writes the changed order and nothing else.
  pub update_order-eq :
      (o : Order)
      → IsKeyed order_row w.orders
      → lookup id w.orders ≡ some o
      → (f o).id ≡ o.id
      → update_order env id f w
        ≡ (ok (stamped env id f o), record w { orders = insert id (stamped env id f o) w.orders })
  unfolding update_order
  update_order-eq o h found same =
      let named : (f o).id ≡ id = same ∙ (h.at id o found).0 in
      rw
        (update-eq order_row w.orders id o (λ p. record (f p) { updated_at = some env.now }) h found
          same)
        (ground arith)

  pub update_order-missing :
      lookup id w.orders ≡ none → update_order env id f w ≡ (err "order not found", w)
  unfolding update_order update
  update_order-missing missing = rw (missing, update)

  -- So a successful update found the order.
  pub update_order-ok :
      (o' : Order) (w' : World)
      → IsKeyed order_row w.orders
      → ((o : Order) → (f o).id ≡ o.id)
      → update_order env id f w ≡ (ok o', w')
      → (o : Order) × (lookup id w.orders ≡ some o)
        × (w' ≡ record w { orders = insert id (stamped env id f o) w.orders })
  update_order-ok o' w' h same e = elim (Option-cases (lookup id w.orders)) [
    | inl missing ↦ cc (update_order-missing missing)
    | inr (o, found) ↦ (o, found, cc (update_order-eq o h found (same o)))
  ]

abbrev confirmation : Env → String → Order → Order
confirmation env operator o = record o {
  status = OrderStatus.completed;
  confirmed_at = some env.now;
  confirmed_by = operator;
}

-- A confirmation that returns leaves the order completed.
pub confirm_order_completes :
    (env : Env) (id operator : String) (w w' : World)
    → IsKeyed order_row w.orders
    → confirm_order env id operator w ≡ (ok tt, w')
    → order_status id w' ≡ some OrderStatus.completed
unfolding confirm_order audit
confirm_order_completes env id operator w w' h e =
    let (order, w1, e1, rest1) = bind-ok (pending_order id) _ w tt w' e in
    let (done, w2, e2, rest2) = then-ok (apply_order env order operator) _ w1 tt w' rest1 in
    let (o', w3, e3, rest3) =
      then-ok (update_order env id (confirmation env operator)) _ w2 tt w' rest2 in
    let k1 : Stays w.payments w1 =
      Keeps-run (pending_order id) w (ok order) w1 (pending_order-Stays w.payments id)
        (record { payments = refl; keyed = h }) e1 in
    let k2 : Stays w.payments w2 =
      Keeps-run (apply_order env order operator) w1 (ok done) w2
        (apply_order-Stays w.payments env order operator) k1 e2 in
    let (o, found, now) =
      update_order-ok env id (confirmation env operator) w2 o' w3 k2.keyed (λ o. refl) e3 in
    let written : w'.orders ≡ insert id (stamped env id (confirmation env operator) o) w2.orders =
      sym (ap (λ (t : Result (Unit {0}) × World). t.1.orders) rest3)
      ∙ ap (λ (v : World). v.orders) now in
    rw (written, lookup-insert_self)
