-- ===== src/Service/Once.antt =====
-- An order of baseline/user_admin.py is confirmed once: no call of the service or of the
-- administration takes a completed order back.
use fake_ui.Prelude.{ℕ, String, Bool, Option, some, List, [], ◌∷◌, str_eq, false, ◌≡◌, refl, arith}
use fake_ui.Prelude.Text.{strip}
use fake_ui.Prelude.Result.{ok, err}
use fake_ui.Prelude.Action.{◌>>=◌}
use fake_ui.Prelude.Keeps.{Keeps-run}
use fake_ui.Store.{Plan, OrderStatus, World, Env}
use fake_ui.Store.Repository.{IsKeyed}
use fake_ui.Orders.{order_row, create_pending_order}
use fake_ui.Admin.Actions.{UserAction, Arguments, airport_user_action}
use fake_ui.Admin.Confirm.{
  pending_order, is_pending, confirm_order, cancel_order, create_or_renew_from_plan,
  replace_subscription_from_plan,
}
use fake_ui.Admin.Done.{
  Done, Done-IsFrame, record_order-Done, confirm_order-Done, cancel_order-Done,
}
use fake_ui.Admin.Frames.{
  confirm_order-Stays, airport_user_action-IsFrame, create_or_renew_from_plan-IsFrame,
  replace_subscription_from_plan-IsFrame,
}
use fake_ui.Admin.Once.{order_status, pending_order-eq_err, confirm_order_completes}
use fake_ui.Service.Checkout.{Pricing, create_payment_for_order}
use fake_ui.Service.{Verifier, refresh_payment, submit_tx_and_verify}
use fake_ui.Service.Done.{
  create_payment_for_order-Done, refresh_payment-Done, submit_tx_and_verify-Done,
}

module _ (j : String) where
  -- Calls of the service and of the administration, of any order, payment and user, at any time. A
  -- new pending order is opened under another id.
  pub data Call : Type 0 where
    confirm cancel : Env → String → String → Call
    refresh : Env → Verifier → String → String → Bool → Call
    submit : Env → Verifier → String → String → String → Bool → Call
    pay : Env → Pricing → (ℕ → String) → String → String → String → Bool → Call
    order :
        (env : Env)
        → str_eq (strip env.order_id) j ≡ false
        → String
        → String
        → Option Plan
        → String
        → String
        → Call
    user_action : Env → String → UserAction → Arguments → String → String → Call
    renew : Env → String → String → String → String → Option String → String → Call
    replace : Env → String → String → String → Call

  abbrev pub step : Call → World → World
  step (confirm env id operator) w = (confirm_order env id operator w).1
  step (cancel env id operator) w = (cancel_order env id operator w).1
  step (refresh env verify id username admin) w = (refresh_payment env verify id username admin w).1
  step (submit env verify id txid username admin) w =
      (submit_tx_and_verify env verify id txid username admin w).1
  step (pay env pricing draws id method_id username admin) w =
      (create_payment_for_order env pricing draws id method_id username admin w).1
  step (order env other username kind plan note operator) w =
      (create_pending_order env username kind plan note operator w).1
  step (user_action env name action args plan_id operator) w =
      (airport_user_action env name action args plan_id operator w).1
  step (renew env name plan_id password note hash operator) w =
      (create_or_renew_from_plan env name plan_id password note hash operator w).1
  step (replace env name plan_id operator) w =
      (replace_subscription_from_plan env name plan_id operator w).1

  unfoldable pub run : List Call → World → World
  run [] w = w
  run (c ∷ calls) w = run calls (step c w)

  step-Done : (c : Call) (w : World) → Done j w → Done j (step c w)
  step-Done (confirm env id operator) w h = (confirm_order-Done j env id operator).at w h
  step-Done (cancel env id operator) w h = (cancel_order-Done j env id operator).at w h
  step-Done (refresh env verify id username admin) w h =
      (refresh_payment-Done j env verify id username admin).at w h
  step-Done (submit env verify id txid username admin) w h =
      (submit_tx_and_verify-Done j env verify id txid username admin).at w h
  step-Done (pay env pricing draws id method_id username admin) w h =
      (create_payment_for_order-Done j env pricing draws id method_id username admin).at w h
  step-Done (order env other username kind plan note operator) w h =
      unfold create_pending_order in
      (record_order-Done j env username kind plan OrderStatus.pending note operator
          (λ same. absurd (ground (arith, same, other)))).at
        w h
  step-Done (user_action env name action args plan_id operator) w h =
      (airport_user_action-IsFrame (Done j) (Done-IsFrame j) env name action args plan_id
          operator).at
        w h
  step-Done (renew env name plan_id password note hash operator) w h =
      (create_or_renew_from_plan-IsFrame (Done j) (Done-IsFrame j) env name plan_id password note
          hash operator).at
        w h
  step-Done (replace env name plan_id operator) w h =
      (replace_subscription_from_plan-IsFrame (Done j) (Done-IsFrame j) env name plan_id
          operator).at
        w h

  run-Done : (calls : List Call) (w : World) → Done j w → Done j (run calls w)
  unfolding run
  run-Done [] w h = h
  run-Done (c ∷ calls) w h = run-Done calls (step c w) (step-Done c w h)

  confirmed-Done :
      (env : Env) (operator : String) (w w' : World)
      → IsKeyed order_row w.orders
      → confirm_order env j operator w ≡ (ok tt, w')
      → Done j w'
  confirmed-Done env operator w w' keyed e = record {
    completed = confirm_order_completes env j operator w w' keyed e;
    keyed =
        (Keeps-run (confirm_order env j operator) w (ok tt) w'
          (confirm_order-Stays w.payments env j operator)
          (record { payments = refl; keyed = keyed }) e).keyed;
  }

  -- Where orders stand under their ids, an order is confirmed once: after a confirmation that
  -- returned, whatever calls follow, it stays completed, and a further confirmation or
  -- cancellation is refused and changes nothing. The calls are confirmations, cancellations,
  -- refreshes, submitted transaction ids, payments for orders, actions on users, renewals and
  -- replacements, of any order, payment and user, and new pending orders whose id is not this
  -- order's.
  pub confirm_order_once :
      (env later : Env) (operator second : String) (calls : List Call) (w w' : World)
      → IsKeyed order_row w.orders
      → confirm_order env j operator w ≡ (ok tt, w')
      → let s = run calls w' in
        (order_status j s ≡ some OrderStatus.completed)
        × (confirm_order later j second s ≡ (err "order is not pending", s))
        × (cancel_order later j second s ≡ (err "order is not pending", s))
  unfolding confirm_order cancel_order ◌>>=◌
  confirm_order_once env later operator second calls w w' keyed e =
      let s = run calls w' in
      let done = run-Done calls w' (confirmed-Done env operator w w' keyed e) in
      let refused : pending_order j s ≡ (err "order is not pending", s) =
        pending_order-eq_err j s OrderStatus.completed done.completed (unfold is_pending in refl) in
      (done.completed, rw refused, rw refused)
