-- ===== src/Service/Effects.antt =====
-- What a payment's verification does to the rest of the program: nothing at all once the payment
-- is final, and nothing to users and orders' statuses unless it is confirmed.
use fake_ui.Prelude.{
  String, Bool, true, false, Option, none, some, ◌≡◌, refl, ap, ◌∙◌, inl, inr, arith, eq_iff,
  Option-cases,
}
use fake_ui.Prelude.Table.{lookup, lookup-insert}
use fake_ui.Prelude.Action.{lift, pure, gets, check, when, ◌>>=◌, ◌>>◌}
use fake_ui.Prelude.Keeps.{
  Keeps, Keeps-bind, Keeps-bind_on, Keeps-pure, Keeps-lift, Keeps-when, Keeps-then, Keeps-ignore,
  keeps_rules,
}
use fake_ui.Store.{Order, Payment, World, Env}
use fake_ui.Store.Repository.{IsKeyed, insert-IsKeyed}
use fake_ui.Orders.{order_row, get_order, update_order}
use fake_ui.Payments.{get_payment, update_payment}
use fake_ui.Payments.Frame.{update_payment-OnlyPayments, update_payment-Wrote}
use fake_ui.Admin.Once.{order_status, stamped, update_order-eq, update_order-missing}
use fake_ui.Service.{
  Verification, Verifier, is_final, is_confirmed, is_current, verified, found_txid, settle_order,
  settle_order_of, apply_verification, owned_payment, refresh_payment, submit_tx_and_verify,
}

-- A final payment stays as it is: a refresh and a submitted transaction id change nothing in the
-- whole state, whoever asks.
pub final_payment_unchanged :
    (env : Env) (verify : Verifier) (id txid username : String) (admin : Bool) (p : Payment)
    (w : World)
    → lookup id w.payments ≡ some p
    → is_final p.status ≡ true
    → ((refresh_payment env verify id username admin w).1 ≡ w)
      × ((submit_tx_and_verify env verify id txid username admin w).1 ≡ w)
unfolding refresh_payment submit_tx_and_verify owned_payment get_payment ◌>>=◌ ◌>>◌ gets lift check
    pure
final_payment_unchanged env verify id txid username admin p w found final =
    (rw (found, refresh_payment) (ground arith), rw (found, submit_tx_and_verify) (ground arith))

-- Users, plans and the audit log as in `w0`, and every order in the status that it has there.
pub record Untouched (w0 w : World) : Type 0 where
  pub users : w.users ≡ w0.users
  pub plans : w.plans ≡ w0.plans
  pub audit : w.audit ≡ w0.audit
  pub orders : (j : String) → order_status j w ≡ order_status j w0
  pub keyed : IsKeyed order_row w.orders

module _ (w0 : World) where
  -- An update of an order that leaves its status alone.
  update_order-Untouched :
      (env : Env) (id : String) (f : Order → Order)
      → ((o : Order) → (f o).id ≡ o.id)
      → ((o : Order) → (f o).status ≡ o.status)
      → Keeps (Untouched w0) (update_order env id f)
  update_order-Untouched env id f same_id same_status = record {
    at = λ w h. elim (Option-cases (lookup id w.orders)) [
      | inl missing ↦ rw (update_order-missing env id f w missing) h
      | inr (o, found) ↦ rw (update_order-eq env id f w o h.keyed found (same_id o)) (record {
        users = h.users;
        plans = h.plans;
        audit = h.audit;
        orders = λ j. ground (
          arith,
          lookup-insert id j (stamped env id f o) w.orders,
          eq_iff id j,
          same_status o,
          h.orders j,
        );
        keyed =
            insert-IsKeyed order_row w.orders id (stamped env id f o) h.keyed
              (refl, (h.keyed.at id o found).1, (h.keyed.at id o found).2);
      })
    ];
  }

  update_payment-Untouched :
      (env : Env) (k : String) (txid : Option String) (f : Payment → Payment)
      → Keeps (Untouched w0) (update_payment env k txid f)
  update_payment-Untouched env k txid f = record {
    at = λ w h.
        let only = update_payment-OnlyPayments env k w txid f in
        record {
          users = ap (λ (v : World). v.users) only ∙ h.users;
          plans = ap (λ (v : World). v.plans) only ∙ h.plans;
          audit = ap (λ (v : World). v.audit) only ∙ h.audit;
          orders = λ j. ap (order_status j) only ∙ h.orders j;
          keyed = rw (ap (λ (v : World). v.orders) only) h.keyed;
        };
  }

  get_payment-Untouched : (id : String) → Keeps (Untouched w0) (get_payment id)
  unfolding get_payment
  get_payment-Untouched id = search keeps_rules

  get_order-Untouched : (id : String) → Keeps (Untouched w0) (get_order id)
  unfolding get_order
  get_order-Untouched id = search keeps_rules

  settle_order_of-Untouched :
      (env : Env) (p : Payment) (operator : String) (o : Option Order)
      → is_confirmed p.status ≡ false
      → Keeps (Untouched w0) (settle_order_of env p operator o)
  unfolding settle_order_of settle_order
  settle_order_of-Untouched env p operator none h = search keeps_rules
  settle_order_of-Untouched env p operator (some o) h = Keeps-when (is_current o p) _ (
      Keeps-then _ _
        (Keeps-ignore _ (
          update_order-Untouched env o.id (λ q. record q { payment_status = some p.status })
            (λ q. refl) (λ q. refl)))
        (rw h (unfold when in search keeps_rules)))

-- Where orders stand under their ids, an answer other than "confirmed" changes no user, no plan
-- and no audit entry, and leaves every order in its status.
pub unconfirmed_changes_no_order :
    (env : Env) (id : String) (v : Verification) (operator : String) (w : World)
    → IsKeyed order_row w.orders
    → is_confirmed v.status ≡ false
    → Untouched w (apply_verification env id v operator w).1
unconfirmed_changes_no_order env id v operator w keyed h =
    let kept : Keeps (Untouched w) (apply_verification env id v operator) =
      unfold apply_verification in
      Keeps-bind _ _ (get_payment-Untouched w id) λ found. Keeps-bind _ _ (Keeps-lift _) λ payment.
        Keeps-bind_on _ _ (update_payment-Untouched w env id (found_txid v) (verified env v))
          λ s s' updated e.
            let written =
              update_payment-Wrote env id s updated s' (found_txid v) (verified env v) e in
            let open_still : is_confirmed updated.status ≡ false =
              unfold verified in ap is_confirmed written.status ∙ h in
            Keeps-bind _ _ (get_order-Untouched w updated.order_id) λ order.
              Keeps-then _ _ (settle_order_of-Untouched w env updated operator order open_still)
                (Keeps-pure updated) in
    kept.at w
      (record { users = refl; plans = refl; audit = refl; orders = λ j. refl; keyed = keyed })
