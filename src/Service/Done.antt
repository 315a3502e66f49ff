-- ===== src/Service/Done.antt =====
-- A completed order stays completed in the calls of baseline/payment_service.py: a payment's expiry
-- cancels only pending orders, and only cancelled ones are recovered.
use fake_ui.Prelude.{
  ℕ, String, Bool, true, ◌&&◌, Option, none, some, ◌≡◌, ◌≢◌, refl, ap, arith, inl, inr, Bool-cases,
}
use fake_ui.Prelude.Result.{Result, ok, err}
use fake_ui.Prelude.Keeps.{
  Keeps, Keeps-bind, Keeps-bind_in, Keeps-pure, Keeps-lift, Keeps-if, Keeps-when, Keeps-when_on,
  Keeps-then, Keeps-ignore, keeps_rules,
}
use fake_ui.Store.{Payment, Order, OrderStatus, World, Env}
use fake_ui.Orders.{get_order}
use fake_ui.Payments.{get_payment, update_payment, attach_txid, get_method, create_payment}
use fake_ui.Payments.Frame.{update_payment-OnlyPayments, attach_txid-OnlyPayments}
use fake_ui.Admin.Confirm.{is_pending}
use fake_ui.Admin.Done.{
  Done, Fits, Done-frame, update_order-Done, get_order-Fits, confirm_order-Done,
}
use fake_ui.Service.Checkout.{
  Pricing, draw_id, owned_order, enabled_method, open_new_payment, reuse_or_open,
  create_payment_for_order,
}
use fake_ui.Service.{
  Verification, Verifier, is_final, is_current, is_cancelled, is_confirmed, recoverable,
  expire_order, expire_order_of, expire_payment, verified, found_txid, recover_order, settle_order,
  settle_order_of, apply_verification, owned_payment, by_answer, refresh_open, refresh_payment,
  submit_tx_and_verify,
}

module _ (j : String) where
  update_payment-Done :
      (env : Env) (k : String) (txid : Option String) (f : Payment → Payment)
      → Keeps (Done j) (update_payment env k txid f)
  update_payment-Done env k txid f = record {
    at = λ w h.
        Done-frame j w (update_payment env k txid f w).1
          (ap (λ (v : World). v.orders) (update_payment-OnlyPayments env k w txid f)) h;
  }

  attach_txid-Done : (env : Env) (k txid : String) → Keeps (Done j) (attach_txid env k txid)
  attach_txid-Done env k txid = record {
    at = λ w h.
        Done-frame j w (attach_txid env k txid w).1
          (ap (λ (v : World). v.orders) (attach_txid-OnlyPayments env k w txid)) h;
  }

  get_payment-Done : (id : String) → Keeps (Done j) (get_payment id)
  unfolding get_payment
  get_payment-Done id = search keeps_rules

  get_order-Done : (id : String) → Keeps (Done j) (get_order id)
  unfolding get_order
  get_order-Done id = search keeps_rules

  not_pending : (o : Order) → is_pending o.status ≡ true → o.status ≢ OrderStatus.completed
  unfolding is_pending
  not_pending o pending completed = absurd cc

  not_cancelled : (o : Order) → is_cancelled o.status ≡ true → o.status ≢ OrderStatus.completed
  not_cancelled o cancelled completed = absurd cc

  expire_order-Done :
      (env : Env) (p : Payment) (o : Order) → Fits j o → Keeps (Done j) (expire_order env p o)
  unfolding expire_order
  expire_order-Done env p o fits = Keeps-when (is_current o p) _ (
      Keeps-then _ _
        (Keeps-ignore _ (update_order-Done j env o.id _ (λ q. refl) (λ q _ done. done)))
        (Keeps-when_on (is_pending o.status) _ λ pending. Keeps-ignore _ (
          update_order-Done j env o.id _ (λ q. refl)
            (λ q same _. absurd (not_pending o pending (fits same))))))

  expire_order_of-Done :
      (env : Env) (p : Payment) (found : Option Order) (k : String) (s s' : World)
      → Done j s
      → get_order k s ≡ (ok found, s')
      → Keeps (Done j) (expire_order_of env p found)
  unfolding expire_order_of
  expire_order_of-Done env p none k s s' h e = Keeps-pure tt
  expire_order_of-Done env p (some o) k s s' h e =
      expire_order-Done env p o (get_order-Fits j k s s' o h e)

  expire_payment-Done : (env : Env) (id : String) → Keeps (Done j) (expire_payment env id)
  unfolding expire_payment
  expire_payment-Done env id = Keeps-bind _ _ (update_payment-Done env id none _) λ updated.
      Keeps-bind_in _ _ (get_order-Done updated.order_id) λ s s' found h e.
        Keeps-then _ _ (expire_order_of-Done env updated found updated.order_id s s' h e)
          (Keeps-pure updated)

  recover_order-Done : (env : Env) (o : Order) → Fits j o → Keeps (Done j) (recover_order env o)
  unfolding recover_order
  recover_order-Done env o fits = elim (Bool-cases (is_cancelled o.status)) [
    | inl cancelled ↦
        Keeps-if (is_cancelled o.status && recoverable env o) _ _
          (update_order-Done j env o.id _ (λ q. refl)
            (λ q same _. absurd (not_cancelled o cancelled (fits same))))
          (Keeps-pure o)
    | inr other ↦ rw other (Keeps-pure o)
  ]

  settle_order-Done :
      (env : Env) (p : Payment) (o : Order) (operator : String)
      → Fits j o
      → Keeps (Done j) (settle_order env p o operator)
  unfolding settle_order
  settle_order-Done env p o operator fits =
      Keeps-then _ _
        (Keeps-ignore _ (update_order-Done j env o.id _ (λ q. refl) (λ q _ done. done)))
        (Keeps-when (is_confirmed p.status) _ (
          Keeps-bind _ _ (recover_order-Done env o fits)
            λ o'. Keeps-when (is_pending o'.status) _ (confirm_order-Done j env o'.id operator)))

  settle_order_of-Done :
      (env : Env) (p : Payment) (operator : String) (found : Option Order) (k : String)
      (s s' : World)
      → Done j s
      → get_order k s ≡ (ok found, s')
      → Keeps (Done j) (settle_order_of env p operator found)
  unfolding settle_order_of
  settle_order_of-Done env p operator none k s s' h e = Keeps-pure tt
  settle_order_of-Done env p operator (some o) k s s' h e =
      Keeps-when (is_current o p) _
        (settle_order-Done env p o operator (get_order-Fits j k s s' o h e))

  apply_verification-Done :
      (env : Env) (id : String) (v : Verification) (operator : String)
      → Keeps (Done j) (apply_verification env id v operator)
  apply_verification-Done env id v operator =
      unfold apply_verification in
      Keeps-bind _ _ (get_payment-Done id) λ found. Keeps-bind _ _ (Keeps-lift _) λ payment.
        Keeps-bind _ _ (update_payment-Done env id (found_txid v) (verified env v)) λ updated.
          Keeps-bind_in _ _ (get_order-Done updated.order_id) λ s s' order h e.
            Keeps-then _ _
              (settle_order_of-Done env updated operator order updated.order_id s s' h e)
              (Keeps-pure updated)

  by_answer-Done :
      (env : Env) (id username : String) (r : Result Verification)
      → Keeps (Done j) (by_answer env id username r)
  unfolding by_answer
  by_answer-Done env id username (ok v) = apply_verification-Done env id v _
  by_answer-Done env id username (err e) = update_payment-Done env id none _

  owned_payment-Done :
      (id username : String) (admin : Bool) → Keeps (Done j) (owned_payment id username admin)
  unfolding owned_payment
  owned_payment-Done id username admin = search (keeps_rules, get_payment-Done) depth 8

  refresh_open-Done :
      (env : Env) (verify : Verifier) (payment : Payment) (id username : String)
      → Keeps (Done j) (refresh_open env verify payment id username)
  unfolding refresh_open
  refresh_open-Done env verify payment id username =
      search (keeps_rules, expire_payment-Done, by_answer-Done) depth 8

  pub refresh_payment-Done :
      (env : Env) (verify : Verifier) (id username : String) (admin : Bool)
      → Keeps (Done j) (refresh_payment env verify id username admin)
  unfolding refresh_payment
  refresh_payment-Done env verify id username admin =
      Keeps-bind _ _ (owned_payment-Done id username admin) λ payment.
        Keeps-if (is_final payment.status) _ _ (Keeps-pure payment)
          (refresh_open-Done env verify payment id username)

  pub submit_tx_and_verify-Done :
      (env : Env) (verify : Verifier) (id txid username : String) (admin : Bool)
      → Keeps (Done j) (submit_tx_and_verify env verify id txid username admin)
  unfolding submit_tx_and_verify
  submit_tx_and_verify-Done env verify id txid username admin =
      Keeps-bind _ _ (owned_payment-Done id username admin) λ payment.
        Keeps-if (is_final payment.status) _ _ (Keeps-pure payment) (
          Keeps-then _ _ (Keeps-when _ _ (Keeps-ignore _ (attach_txid-Done env id txid)))
            (refresh_payment-Done env verify id username admin))

  create_payment-Done : (p : Payment) (id : String) → Keeps (Done j) (create_payment p id)
  unfolding create_payment
  create_payment-Done p id = record {
    at = λ w h. Done-frame j w (create_payment p id w).1 (ground arith) h;
  }

  owned_order-Done :
      (id username : String) (admin : Bool) → Keeps (Done j) (owned_order id username admin)
  unfolding owned_order
  owned_order-Done id username admin = search (keeps_rules, get_order-Done) depth 10

  enabled_method-Done : (id : String) → Keeps (Done j) (enabled_method id)
  unfolding enabled_method get_method
  enabled_method-Done id = search keeps_rules depth 8

  draw_id-Done : (draws : ℕ → String) → Keeps (Done j) (draw_id draws)
  unfolding draw_id
  draw_id-Done draws = search keeps_rules

  open_new_payment-Done :
      (env : Env) (pricing : Pricing) (draws : ℕ → String) (o : Order) (method_id : String)
      → Keeps (Done j) (open_new_payment env pricing draws o method_id)
  unfolding open_new_payment
  open_new_payment-Done env pricing draws o method_id =
      Keeps-bind _ _ (enabled_method-Done method_id) λ method.
        Keeps-bind _ _ (Keeps-lift _) λ quote. Keeps-bind _ _ (draw_id-Done draws) λ id.
          Keeps-bind _ _ (create_payment-Done _ id) λ payment.
            Keeps-then _ _ (update_order-Done j env o.id _ (λ q. refl) (λ q _ done. done))
              (Keeps-pure payment)

  reuse_or_open-Done :
      (env : Env) (pricing : Pricing) (draws : ℕ → String) (o : Order) (method_id : String)
      (existing : Option Payment)
      → Keeps (Done j) (reuse_or_open env pricing draws o method_id existing)
  unfolding reuse_or_open
  reuse_or_open-Done env pricing draws o method_id (some p) = Keeps-pure p
  reuse_or_open-Done env pricing draws o method_id none =
      open_new_payment-Done env pricing draws o method_id

  pub create_payment_for_order-Done :
      (env : Env) (pricing : Pricing) (draws : ℕ → String) (id method_id username : String)
      (admin : Bool)
      → Keeps (Done j) (create_payment_for_order env pricing draws id method_id username admin)
  unfolding create_payment_for_order
  create_payment_for_order-Done env pricing draws id method_id username admin =
      search (keeps_rules, owned_order-Done, reuse_or_open-Done)
