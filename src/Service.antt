-- ===== src/Service.antt =====
-- baseline/payment_service.py: the life of a payment, from its creation for an order to the
-- order's confirmation. What the chain says of a payment is the parameter `Verifier`; Scan.Verify fills it.
pub mod Errors
pub mod Checkout
pub mod Sound
pub mod Effects
pub mod Settlement
pub mod Done
pub mod Once
use fake_ui.Prelude.{
  ℕ, zero, ◌+◌, ◌-◌, ◌*◌, String, Bool, true, false, not, ◌&&◌, ◌||◌, Option, none, some, List, [],
  ◌∷◌, if◌then◌else◌, ltb, leb, is_empty, str_eq, Decimal,
}
use fake_ui.Prelude.Text.{strip}
use fake_ui.Prelude.Table.{Table, lookup, is_some}
use fake_ui.Prelude.Result.{Result, ok, err}
use fake_ui.Prelude.Result
use fake_ui.Prelude.Action.{Action, pure, lift, gets, when, check, ignore, ◌>>=◌, ◌>>◌}
use fake_ui.Store.{Payment, Status, Method, Order, OrderStatus, World, Env}
use fake_ui.Orders.{get_order, update_order}
use fake_ui.Payments.{get_payment, get_method, update_payment, attach_txid}
use fake_ui.Admin.Confirm.{confirm_order, is_pending}
use Errors.{sanitize_error}

-- The dictionary that a verification gives; `txid` is "" where it has none.
pub record Verification : Type 0 where
  pub status : Status
  pub detected_amount : Option Decimal
  pub confirmations : ℕ
  pub error : String
  pub txid : String

-- `verify_payment`, asked of the chain at the time of the request: see Scan.Verify
abbrev pub Verifier : Type 0
Verifier = Table Payment → Payment → Method → Result Verification

-- FINAL_PAYMENT_STATUSES
unfoldable pub is_final : Status → Bool
is_final Status.confirmed = true
is_final Status.failed = true
is_final Status.expired = true
is_final _ = false

abbrev pub is_confirmed : Status → Bool
is_confirmed Status.confirmed = true
is_confirmed _ = false

abbrev pub is_ambiguous : Status → Bool
is_ambiguous Status.ambiguous = true
is_ambiguous _ = false

abbrev pub is_cancelled : OrderStatus → Bool
is_cancelled OrderStatus.cancelled = true
is_cancelled _ = false

-- `expires_at and now >= expires_at`
unfoldable pub payment_expired : Env → Payment → Bool
payment_expired env p = elim p.expires_at [ none ↦ false | some t ↦ leb t env.now ]

-- PAYMENT_RECOVERY_DAYS
abbrev pub recovery_window : ℕ
recovery_window = 7 * 86400

unfoldable pub recoverable : Env → Order → Bool
recoverable env o = elim o.cancelled_at [ none ↦ true | some t ↦ leb (env.now - t) recovery_window ]

unfoldable pub is_current : Order → Payment → Bool
is_current order payment = str_eq order.payment_id payment.id

unfoldable pub owned_payment : String → String → Bool → Action World Payment
owned_payment payment_id username admin = do
  found ← get_payment payment_id
  payment ← lift (Result.or_raise found "payment not found")
  check (not admin && not (str_eq payment.username username)) "payment not found"
  pure payment

unfoldable pub expire_order : Env → Payment → Order → Action World Unit
expire_order env updated order = when (is_current order updated) do
  ignore (update_order env order.id (λ o. record o { payment_status = some Status.expired }))
  when (is_pending order.status) (
      ignore (
        update_order env order.id λ o. record o {
          status = OrderStatus.cancelled;
          cancelled_at = some env.now;
          cancelled_by = "system";
        }))

unfoldable pub expire_order_of : Env → Payment → Option Order → Action World Unit
expire_order_of env updated none = pure tt
expire_order_of env updated (some order) = expire_order env updated order

unfoldable pub expire_payment : Env → String → Action World Payment
expire_payment env payment_id = do
  updated ← update_payment env payment_id none λ p. record p {
    status = Status.expired;
    error = "payment expired";
    verified_at = some env.now;
  }
  order ← get_order updated.order_id
  expire_order_of env updated order
  pure updated

-- The row that `apply_verification` writes; a txid that it found is written beside it.
unfoldable pub verified : Env → Verification → Payment → Payment
verified env v p = record p {
  status = v.status;
  detected_amount = v.detected_amount;
  confirmations = v.confirmations;
  error = (if is_empty v.error then "" else sanitize_error v.error);
  verified_at = some env.now;
  ambiguous_at =
      (if is_ambiguous v.status
        then (if is_some p.ambiguous_at then p.ambiguous_at else some env.now)
        else none);
}

abbrev pub found_txid : Verification → Option String
found_txid v = let txid = strip v.txid in if is_empty txid then none else some txid

-- A cancelled order is pending again if its payment is confirmed within the recovery window.
unfoldable pub recover_order : Env → Order → Action World Order
recover_order env order =
    if is_cancelled order.status && recoverable env order
    then update_order env order.id
        (λ o. record o { status = OrderStatus.pending; recovered_at = some env.now })
    else pure order

-- What happens to the order that a payment is the current one of.
unfoldable pub settle_order : Env → Payment → Order → String → Action World Unit
settle_order env updated order operator = do
  ignore (update_order env order.id (λ o. record o { payment_status = some updated.status }))
  when (is_confirmed updated.status) do
    order' ← recover_order env order
    when (is_pending order'.status) (confirm_order env order'.id operator)

unfoldable pub settle_order_of : Env → Payment → String → Option Order → Action World Unit
settle_order_of env updated operator none = pure tt
settle_order_of env updated operator (some order) =
    when (is_current order updated) (settle_order env updated order operator)

unfoldable pub apply_verification : Env → String → Verification → String → Action World Payment
apply_verification env payment_id v operator = do
  found ← get_payment payment_id
  payment ← lift (Result.or_raise found "payment not found")
  updated ← update_payment env payment_id (found_txid v) (verified env v)
  order ← get_order updated.order_id
  settle_order_of env updated operator order
  pure updated

abbrev record_failure : Env → String → String → Action World Payment
record_failure env payment_id error =
    update_payment env payment_id none
      (λ p. record p { error = sanitize_error error; verified_at = some env.now })

-- The method's row and the chain's answer; both are caught where they raise.
unfoldable pub verification_for : Verifier → Payment → World → Result Verification
verification_for verify payment w =
    Result.◌>>=◌ (Result.or_raise (lookup payment.method_id w.methods) "payment method not found")
      (verify w.payments payment)

abbrev operator_name : String → String
operator_name username = if is_empty username then "system" else username

unfoldable pub by_answer : Env → String → String → Result Verification → Action World Payment
by_answer env payment_id username (ok v) =
    apply_verification env payment_id v (operator_name username)
by_answer env payment_id username (err e) = record_failure env payment_id e

unfoldable pub refresh_open : Env → Verifier → Payment → String → String → Action World Payment
refresh_open env verify payment payment_id username =
    if payment_expired env payment
    then expire_payment env payment_id
    else gets (verification_for verify payment) >>= by_answer env payment_id username

unfoldable pub refresh_payment : Env → Verifier → String → String → Bool → Action World Payment
refresh_payment env verify payment_id username admin = do
  payment ← owned_payment payment_id username admin
  if is_final payment.status
      then pure payment
      else refresh_open env verify payment payment_id username

unfoldable pub submit_tx_and_verify :
    Env → Verifier → String → String → String → Bool → Action World Payment
submit_tx_and_verify env verify payment_id txid username admin = do
  payment ← owned_payment payment_id username admin
  if is_final payment.status then pure payment else do
    when (not (is_empty (strip txid))) (ignore (attach_txid env payment_id txid))
    refresh_payment env verify payment_id username admin
