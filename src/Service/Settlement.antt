-- ===== src/Service/Settlement.antt =====
-- A confirmed payment settles its order: a verification that returns leaves the order completed.
use fake_ui.Prelude.{String, true, Option, some, ◌≡◌, refl, sym, ap, ◌∙◌, inl, inr, ◌⊎◌, eq_iff}
use mathlib.Core.Path.{subst}
use fake_ui.Prelude.Table.{lookup, insert, lookup-insert_self}
use fake_ui.Prelude.Result.{Result, ok}
use fake_ui.Prelude.Action.{
  lift, pure, gets, ignore, ◌>>=◌, ◌>>◌, bind-run, then-run, bind-ok, then-ok, ignore-run,
  when-true,
}
use fake_ui.Store.{Order, OrderStatus, Payment, World, Env}
use fake_ui.Store.Repository.{IsKeyed, insert-IsKeyed}
use fake_ui.Orders.{order_row, get_order, update_order}
use fake_ui.Payments.{get_payment, update_payment}
use fake_ui.Payments.Frame.{
  OnlyPayments, update_payment-OnlyPayments, update_payment-Wrote, Wrote-row,
}
use fake_ui.Admin.Confirm.{is_pending}
use fake_ui.Admin.Once.{order_status, stamped, update_order-eq, confirm_order_completes}
use fake_ui.Service.{
  Verification, is_confirmed, is_current, verified, found_txid, recoverable, recover_order,
  settle_order, settle_order_of, apply_verification,
}
use fake_ui.Service.Sound.{IsSound}

-- The order that a confirmed payment can complete: pending, or cancelled not too long ago.
abbrev IsOpen : Env → Order → Type 0
IsOpen env o =
    (o.status ≡ OrderStatus.pending)
    ⊎ ((o.status ≡ OrderStatus.cancelled) × (recoverable env o ≡ true))

abbrev recovery : Env → Order → Order
recovery env o = record o { status = OrderStatus.pending; recovered_at = some env.now }

-- What is known of the order behind the recovery.
record Recovered (env : Env) (o : Order) (w : World) : Type 0 where
  order : Order
  world : World
  run : recover_order env o w ≡ (ok order, world)
  same_id : order.id ≡ o.id
  pending : is_pending order.status ≡ true
  keyed : IsKeyed order_row world.orders

recover_order-Recovered :
    (env : Env) (o cur : Order) (w : World)
    → IsKeyed order_row w.orders
    → lookup o.id w.orders ≡ some cur
    → IsOpen env o
    → Recovered env o w
unfolding recover_order is_pending pure recoverable insert
recover_order-Recovered env o cur w h found (inl pending) = record {
  order = o;
  world = w;
  run = rw pending;
  same_id = refl;
  pending = rw pending;
  keyed = h;
}
recover_order-Recovered env o cur w h found (inr (cancelled, recent)) =
    let key = h.at o.id cur found in
    record {
      order = stamped env o.id (recovery env) cur;
      world = record w { orders = insert o.id (stamped env o.id (recovery env) cur) w.orders };
      run = rw (cancelled, recent) (update_order-eq env o.id (recovery env) w cur h found refl);
      same_id = refl;
      pending = refl;
      keyed =
          insert-IsKeyed order_row w.orders o.id (stamped env o.id (recovery env) cur) h
            (refl, key.1, key.2);
    }

abbrev with_payment_status : Payment → Order → Order
with_payment_status p o = record o { payment_status = some p.status }

-- A settlement that returns has completed the order.
settle_order_completes :
    (env : Env) (operator : String) (p : Payment) (o : Order) (w w' : World)
    → IsKeyed order_row w.orders
    → lookup o.id w.orders ≡ some o
    → is_confirmed p.status ≡ true
    → IsOpen env o
    → settle_order env p o operator w ≡ (ok tt, w')
    → order_status o.id w' ≡ some OrderStatus.completed
unfolding settle_order
settle_order_completes env operator p o w w' h found confirmed opened e =
    let key = h.at o.id o found in
    let row : Order = stamped env o.id (with_payment_status p) o in
    let w1 : World = record w { orders = insert o.id row w.orders } in
    let keyed1 : IsKeyed order_row w1.orders =
      insert-IsKeyed order_row w.orders o.id row h (refl, key.1, key.2) in
    let back : Recovered env o w1 =
      recover_order-Recovered env o row w1 keyed1 (lookup-insert_self o.id row w.orders) opened in
    let updated : ignore (update_order env o.id (with_payment_status p)) w ≡ (ok tt, w1) =
      ignore-run (update_order env o.id (with_payment_status p)) w w1 row
        (update_order-eq env o.id (with_payment_status p) w o h found refl) in
    let behind = sym (then-run _ _ w w1 tt updated) ∙ e in
    let settled = sym (when-true _ _ w1 confirmed) ∙ behind in
    let confirming = sym (bind-run _ _ w1 back.world back.order back.run) ∙ settled in
    let done = sym (when-true _ _ back.world back.pending) ∙ confirming in
    subst (λ id. order_status id w' ≡ some OrderStatus.completed) back.same_id
      (confirm_order_completes env back.order.id operator back.world w' back.keyed done)

-- What `apply_verification` does behind the write of the payment.
settle_tail :
    (env : Env) (operator : String) (p updated : Payment) (o : Order) (w w' : World)
    → IsKeyed order_row w.orders
    → lookup p.order_id w.orders ≡ some o
    → o.payment_id ≡ p.id
    → is_confirmed p.status ≡ true
    → IsOpen env o
    → (get_order p.order_id >>= λ order. settle_order_of env p operator order >> pure p) w
      ≡ (ok updated, w')
    → {id : String} → p.order_id ≡ id
    → order_status id w' ≡ some OrderStatus.completed
unfolding settle_order_of is_current
settle_tail env operator p updated o w w' h ordered current confirmed opened e same =
    let id : o.id ≡ p.order_id = (h.at p.order_id o ordered).0 in
    let read =
      sym (
        bind-run (get_order p.order_id) _ w w (some o)
          (unfold get_order gets in ap (λ (r : Option Order). (ok r, w)) ordered))
      ∙ e in
    let (done, w2, ran, last) =
      then-ok (settle_order_of env p operator (some o)) (pure p) w updated w' read in
    let settled : settle_order env p o operator w ≡ (ok tt, w2) =
      sym (when-true (is_current o p) _ w ((eq_iff o.payment_id p.id).1 current)) ∙ ran in
    let completed : order_status o.id w2 ≡ some OrderStatus.completed =
      settle_order_completes env operator p o w w2 h
        (subst (λ k. lookup k w.orders ≡ some o) (sym id) ordered) confirmed opened settled in
    let final : w2 ≡ w' = unfold pure in ap (λ (t : Result Payment × World). t.1) last in
    subst (λ k. order_status k w' ≡ some OrderStatus.completed) (id ∙ same)
      (subst (λ x. order_status o.id x ≡ some OrderStatus.completed) final completed)

-- The same from the write on, whatever it has written.
settle_written :
    (env : Env) (operator id : String) (v : Verification) (p p' updated : Payment) (o : Order)
    (w w1 w' : World)
    → IsSound w
    → lookup id w.payments ≡ some p
    → lookup p.order_id w.orders ≡ some o
    → o.payment_id ≡ id
    → is_confirmed v.status ≡ true
    → IsOpen env o
    → update_payment env id (found_txid v) (verified env v) w ≡ (ok p', w1)
    → (get_order p'.order_id >>= λ order. settle_order_of env p' operator order >> pure p') w1
      ≡ (ok updated, w')
    → order_status p.order_id w' ≡ some OrderStatus.completed
unfolding verified
settle_written env operator id v p p' updated o w w1 w' h found ordered current confirmed opened
      writing rest =
    let (status, same_order, same_id) =
      Wrote-row id (verified env v) w p p'
        (update_payment-Wrote env id w p' w1 (found_txid v) (verified env v) writing) found in
    let only : OnlyPayments w w1 =
      subst (OnlyPayments w) (ap (λ (t : Result Payment × World). t.1) writing)
        (update_payment-OnlyPayments env id w (found_txid v) (verified env v)) in
    let same : w1.orders ≡ w.orders = ap (λ (x : World). x.orders) only in
    settle_tail env operator p' updated o w1 w' (subst (IsKeyed order_row) (sym same) h.orders)
      (ap (λ (k : String). lookup k w1.orders) same_order ∙ ap (lookup p.order_id) same ∙ ordered)
      (current ∙ sym (same_id ∙ (h.payments.keyed id p found).0))
      (ap is_confirmed status ∙ confirmed) opened rest same_order

-- Where payments and orders stand under their ids with distinct transaction ids: if the chain
-- confirms a payment that is the current one of its order, and the order is pending, or was
-- cancelled within the recovery window, then a verification that returns leaves the order
-- completed.
pub confirmed_payment_completes_order :
    (env : Env) (id operator : String) (v : Verification) (p updated : Payment) (o : Order)
    (w w' : World)
    → IsSound w
    → lookup id w.payments ≡ some p
    → lookup p.order_id w.orders ≡ some o
    → o.payment_id ≡ id
    → is_confirmed v.status ≡ true
    → IsOpen env o
    → apply_verification env id v operator w ≡ (ok updated, w')
    → order_status p.order_id w' ≡ some OrderStatus.completed
unfolding apply_verification
confirmed_payment_completes_order env id operator v p updated o w w' h found ordered current
      confirmed opened e =
    let read =
      sym (
        bind-run (get_payment id) _ w w (some p)
          (unfold get_payment gets in ap (λ (r : Option Payment). (ok r, w)) found))
      ∙ e in
    let read' = sym (bind-run (lift (ok p)) _ w w p (unfold lift in refl)) ∙ read in
    let (p', w1, writing, rest) =
      bind-ok (update_payment env id (found_txid v) (verified env v)) _ w updated w' read' in
    settle_written env operator id v p p' updated o w w1 w' h found ordered current confirmed opened
      writing rest
