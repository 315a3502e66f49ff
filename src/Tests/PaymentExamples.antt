-- ===== src/Tests/PaymentExamples.antt =====
-- Payments at concrete inputs: their transaction ids, their verification and their orders.
use fake_ui.Prelude.{
  ℕ, suc, ◌+◌, String, Bool, true, false, Option, none, some, List, [], ◌∷◌, ◌≡◌, ◌≢◌, eq_iff, ap,
  ◌≤◌, zero, refl, inl, arith, is_empty,
}
use fake_ui.Prelude.Table.{Table, lookup, insert}
use fake_ui.Prelude.Text.{strip, lower, size}
use fake_ui.Prelude.Result.{Result, ok, err, is_ok}
use fake_ui.Prelude.Action.{Action}
use fake_ui.Store.{Payment, Status, Order, OrderStatus, World}
use fake_ui.Payments.{update_payment, attach_txid, create_payment, fresh_id}
use fake_ui.Payments.Txids.{IsValid, attach_txid-IsValid, attach_txid_refuses}
use fake_ui.Payments.Create.{fresh_id_total, create_payment_lem}
use fake_ui.Admin.Confirm.{confirm_order, cancel_order}
use fake_ui.Admin.Once.{order_status}
use fake_ui.Service.Once.{Call, refresh, renew, cancel, run, confirm_order_once}
use fake_ui.Service.{is_final, refresh_payment, submit_tx_and_verify, apply_verification}
use fake_ui.Service.Sound.{IsSound, refresh_payment-IsSound, submit_tx_and_verify-IsSound}
use fake_ui.Service.Effects.{Untouched, final_payment_unchanged, unconfirmed_changes_no_order}
use fake_ui.Service.Settlement.{confirmed_payment_completes_order}
use fake_ui.Tests.Fixtures.{
  payment, order, world, env, confirmation, detection, verify, payments-IsValid, orders-IsKeyed,
  world-IsSound,
}

abbrev value_of : {A : Type 0} → A → Result A → A
value_of d (ok a) = a
value_of d (err e) = d

-- A run that returns is its value and its state.
run-eq :
    {A : Type 0} (d : A) (run : Result A × World)
    → is_ok run.0 ≡ true
    → run ≡ (ok (value_of d run.0), run.1)
run-eq d (ok a, w) h = refl
run-eq d (err e, w) h = absurd cc

abbrev verification_run : Result Payment × World
verification_run = apply_verification env "pay" confirmation "ann" world

returned : is_ok verification_run.0 ≡ true
unfolding apply_verification lookup insert strip fake_ui.Prelude.Action.◌>>=◌
    fake_ui.Payments.get_payment fake_ui.Prelude.Action.gets fake_ui.Prelude.Action.lift
    update_payment lower fake_ui.Store.Repository.update fake_ui.Service.verified
    fake_ui.Orders.get_order fake_ui.Prelude.Action.◌>>◌ fake_ui.Service.settle_order_of
    fake_ui.Prelude.Action.when fake_ui.Service.is_current fake_ui.Service.settle_order
    fake_ui.Prelude.Action.ignore fake_ui.Orders.update_order fake_ui.Prelude.Action.pure
    fake_ui.Admin.Actions.airport_user_action fake_ui.Admin.Actions.changed_user
    fake_ui.Admin.Actions.extended fake_ui.Admin.Actions.find_user
    fake_ui.Admin.Actions.record_if_ordered fake_ui.Admin.Actions.renewal_base
    fake_ui.Admin.Actions.store_change fake_ui.Admin.Confirm.apply_order confirm_order
    fake_ui.Admin.Confirm.create_or_renew fake_ui.Admin.Confirm.create_or_renew_from_plan
    fake_ui.Admin.Confirm.find_plan fake_ui.Admin.Confirm.get_user fake_ui.Admin.Confirm.is_pending
    fake_ui.Admin.Confirm.pending_order fake_ui.Admin.Confirm.replace_existing
    fake_ui.Admin.Confirm.replace_or_create fake_ui.Admin.Confirm.replace_subscription_from_plan
    fake_ui.Admin.Confirm.replaced fake_ui.Admin.audit fake_ui.Admin.enforce_users_now
    fake_ui.Admin.save_user fake_ui.Orders.record_order fake_ui.Payments.has_txid
    fake_ui.Payments.txid_used fake_ui.Payments.write_payment fake_ui.Plans.add_missing
    fake_ui.Plans.default_plans fake_ui.Plans.get_plan fake_ui.Plans.get_plan_if
    fake_ui.Plans.load_plans fake_ui.Prelude.Action.check fake_ui.Prelude.Table.remove
    fake_ui.Prelude.Text.lower_char fake_ui.Prelude.Text.lstrip fake_ui.Prelude.Text.rstrip
    fake_ui.Prelude.Text.translate fake_ui.Service.Errors.sanitize_error
    fake_ui.Service.recover_order fake_ui.Service.recoverable fake_ui.Store.Repository.upsert
    fake_ui.Users.add_days fake_ui.Users.quota_reached fake_ui.Users.traffic_gb_to_bytes
returned = refl

confirmed_payment_completes_order_example :
    order_status "ord" verification_run.1 ≡ some OrderStatus.completed
unfolding lookup insert
confirmed_payment_completes_order_example =
    confirmed_payment_completes_order env "pay" "ann" confirmation payment
      (value_of payment verification_run.0) order world verification_run.1 world-IsSound refl refl
      refl refl (inl refl) (run-eq payment verification_run returned)

abbrev confirm_run : Result (Unit {0}) × World
confirm_run = confirm_order env "ord" "root" world

confirm_returned : is_ok confirm_run.0 ≡ true
unfolding apply_verification lookup insert strip fake_ui.Prelude.Action.◌>>=◌
    fake_ui.Payments.get_payment fake_ui.Prelude.Action.gets fake_ui.Prelude.Action.lift
    update_payment lower fake_ui.Store.Repository.update fake_ui.Service.verified
    fake_ui.Orders.get_order fake_ui.Prelude.Action.◌>>◌ fake_ui.Service.settle_order_of
    fake_ui.Prelude.Action.when fake_ui.Service.is_current fake_ui.Service.settle_order
    fake_ui.Prelude.Action.ignore fake_ui.Orders.update_order fake_ui.Prelude.Action.pure
    fake_ui.Admin.Actions.airport_user_action fake_ui.Admin.Actions.changed_user
    fake_ui.Admin.Actions.extended fake_ui.Admin.Actions.find_user
    fake_ui.Admin.Actions.record_if_ordered fake_ui.Admin.Actions.renewal_base
    fake_ui.Admin.Actions.store_change fake_ui.Admin.Confirm.apply_order confirm_order
    fake_ui.Admin.Confirm.create_or_renew fake_ui.Admin.Confirm.create_or_renew_from_plan
    fake_ui.Admin.Confirm.find_plan fake_ui.Admin.Confirm.get_user fake_ui.Admin.Confirm.is_pending
    fake_ui.Admin.Confirm.pending_order fake_ui.Admin.Confirm.replace_existing
    fake_ui.Admin.Confirm.replace_or_create fake_ui.Admin.Confirm.replace_subscription_from_plan
    fake_ui.Admin.Confirm.replaced fake_ui.Admin.audit fake_ui.Admin.enforce_users_now
    fake_ui.Admin.save_user fake_ui.Orders.record_order fake_ui.Payments.has_txid
    fake_ui.Payments.txid_used fake_ui.Payments.write_payment fake_ui.Plans.add_missing
    fake_ui.Plans.default_plans fake_ui.Plans.get_plan fake_ui.Plans.get_plan_if
    fake_ui.Plans.load_plans fake_ui.Prelude.Action.check fake_ui.Prelude.Table.remove
    fake_ui.Prelude.Text.lower_char fake_ui.Prelude.Text.lstrip fake_ui.Prelude.Text.rstrip
    fake_ui.Prelude.Text.translate fake_ui.Service.Errors.sanitize_error
    fake_ui.Service.recover_order fake_ui.Service.recoverable fake_ui.Store.Repository.upsert
    fake_ui.Users.add_days fake_ui.Users.quota_reached fake_ui.Users.traffic_gb_to_bytes
confirm_returned = refl

-- Between the two confirmations the payment is refreshed and the user renews.
abbrev calls : List (Call "ord")
calls =
    refresh env verify "pay" "ann" false
    ∷ renew env "ann" "basic" "" "" none "root"
    ∷ cancel env "ord" "root"
    ∷ []

confirm_order_once_example :
    let s = run "ord" calls confirm_run.1 in
    (order_status "ord" s ≡ some OrderStatus.completed)
    × (confirm_order env "ord" "eve" s ≡ (err "order is not pending", s))
    × (cancel_order env "ord" "eve" s ≡ (err "order is not pending", s))
confirm_order_once_example =
    confirm_order_once "ord" env env "root" "eve" calls world confirm_run.1 orders-IsKeyed
      (run-eq tt confirm_run confirm_returned)

-- A payment that another method has settled.
abbrev settled : Payment
settled = record payment { status = Status.expired; txid = "0xAA" }

abbrev settled_world : World
settled_world = record world { payments = insert "pay" settled [] }

final_payment_unchanged_example :
    ((refresh_payment env verify "pay" "ann" false settled_world).1 ≡ settled_world)
    × ((submit_tx_and_verify env verify "pay" "0xBB" "ann" false settled_world).1 ≡ settled_world)
unfolding lookup insert is_final
final_payment_unchanged_example =
    final_payment_unchanged env verify "pay" "0xBB" "ann" false settled settled_world refl refl

unconfirmed_changes_no_order_example :
    Untouched world (apply_verification env "pay" detection "ann" world).1
unconfirmed_changes_no_order_example =
    unconfirmed_changes_no_order env "pay" detection "ann" world orders-IsKeyed refl

refresh_payment-IsSound_example : IsSound (refresh_payment env verify "pay" "ann" false world).1
refresh_payment-IsSound_example =
    refresh_payment-IsSound env verify "pay" "ann" false world world-IsSound

submit_tx_and_verify-IsSound_example :
    IsSound (submit_tx_and_verify env verify "pay" " 0xAA " "ann" false world).1
submit_tx_and_verify-IsSound_example =
    submit_tx_and_verify-IsSound env verify "pay" " 0xAA " "ann" false world world-IsSound

attach_txid-IsValid_example : IsValid (attach_txid env "pay" " 0xAA " world).1.payments
attach_txid-IsValid_example = attach_txid-IsValid env "pay" world payments-IsValid " 0xAA "

new_ne : ◌≢◌ {A = String} "pay" "new"
new_ne e = let h : false ≡ true = (eq_iff "pay" "new").1 e in absurd cc

attach_txid_refuses_example :
    attach_txid env "new" " 0xaa " settled_world ≡ (err "txid already used", settled_world)
unfolding lookup insert strip lower
attach_txid_refuses_example =
    attach_txid_refuses env "new" "pay" " 0xaa " settled settled_world refl refl new_ne refl refl

abbrev draws : ℕ → String
draws zero = ""
draws (suc n) = String.◌∷◌ "a" (draws n)

length_of_draw : (n : ℕ) → size (draws n) ≡ n
length_of_draw zero = refl
length_of_draw (suc n) = ap suc (length_of_draw n)

fresh_id_total_example :
    (m : ℕ) × (0 ≤ m)
    × (fresh_id 2 draws 0 world.payments ≡ some (draws m))
    × (lookup (draws m) world.payments ≡ none)
unfolding insert
fresh_id_total_example =
    fresh_id_total 2 draws 0 world.payments
      (λ m n ne e. ne (cc (length_of_draw m, length_of_draw n, e))) (omega arith)

create_payment_lem_example :
    let (r, w') = create_payment payment "new" world in
    (r ≡ ok (record payment { id = "new" }))
    × IsValid w'.payments
    × (lookup "new" w'.payments ≡ some (record payment { id = "new" }))
    × ((j : String) → ◌≢◌ {A = String} "new" j → lookup j w'.payments ≡ lookup j world.payments)
unfolding lookup insert strip
create_payment_lem_example =
    create_payment_lem payment "new" world payments-IsValid refl refl refl refl
