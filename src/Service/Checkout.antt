-- ===== src/Service/Checkout.antt =====
-- `create_payment_for_order` of baseline/payment_service.py.
use fake_ui.Prelude.{
  ℕ, suc, ◌+◌, ◌*◌, String, Bool, not, ◌&&◌, Option, none, some, if◌then◌else◌, length, is_empty,
  str_eq, Decimal,
}
use fake_ui.Prelude.Table.{lookup}
use fake_ui.Prelude.Result.{Result, ok, err}
use fake_ui.Prelude.Result
use fake_ui.Prelude.Action.{Action, pure, lift, gets, check, ◌>>=◌, ◌>>◌}
use fake_ui.Store.{Payment, Status, Method, Order, World, Env}
use fake_ui.Orders.{get_order, update_order}
use fake_ui.Payments.{get_method, create_payment, fresh_id}
use fake_ui.Admin.Confirm.{is_pending}
use fake_ui.Service.{is_final}

-- What `payment_rates` and `payment_wallets.qr_payload` give for an amount and a method.
pub record Quote : Type 0 where
  pub crypto_amount : Decimal
  pub rate_usd : String
  pub qr_payload : String

abbrev pub Pricing : Type 0
Pricing = String → Method → Result Quote

-- PAYMENT_TTL_HOURS
abbrev payment_ttl : ℕ
payment_ttl = 2 * 3600

unfoldable pub new_payment : Env → Order → Method → Quote → Payment
new_payment env order method quote = record {
  id = "";
  order_id = order.id;
  username = order.username;
  method_id = method.id;
  status = Status.awaiting_payment;
  asset = method.asset;
  chain = method.chain;
  txid = "";
  usd_amount = order.amount;
  crypto_amount = some quote.crypto_amount;
  rate_usd = quote.rate_usd;
  address = method.address;
  qr_payload = quote.qr_payload;
  detected_amount = none;
  confirmations = 0;
  error = "";
  created_at = some env.now;
  updated_at = some env.now;
  expires_at = some (env.now + payment_ttl);
  verified_at = none;
  ambiguous_at = none;
}

-- The payment that the order already has, if it is not final.
unfoldable pub open_payment : Order → World → Option Payment
unfolding is_final
open_payment order w =
    if is_empty order.payment_id then none else elim (lookup order.payment_id w.payments) [
      | none ↦ none
      | some p ↦ if is_final p.status then none else some p
    ]

-- The loop draws at most one text more than there are payments, if the texts are distinct.
unfoldable pub draw_id : (ℕ → String) → Action World String
draw_id draws = do
  drawn ← gets (λ w. fresh_id (suc (length w.payments)) draws 0 w.payments)
  lift (Result.or_raise drawn "still drawing")

unfoldable pub owned_order : String → String → Bool → Action World Order
owned_order order_id username admin = do
  found ← get_order order_id
  order ← lift (Result.or_raise found "order not found")
  check (not admin && not (str_eq order.username username)) "order not found"
  check (not (is_pending order.status)) "order is not pending"
  pure order

unfoldable pub enabled_method : String → Action World Method
enabled_method method_id = do
  found ← get_method method_id
  method ← lift (Result.or_raise found "payment method not available")
  check (not method.enabled) "payment method not available"
  pure method

unfoldable pub open_new_payment :
    Env → Pricing → (ℕ → String) → Order → String → Action World Payment
open_new_payment env pricing draws order method_id = do
  method ← enabled_method method_id
  quote ← lift (pricing order.amount method)
  id ← draw_id draws
  payment ← create_payment (new_payment env order method quote) id
  update_order env order.id
      λ o. record o { payment_id = payment.id; payment_status = some payment.status }
  pure payment

unfoldable pub reuse_or_open :
    Env → Pricing → (ℕ → String) → Order → String → Option Payment → Action World Payment
reuse_or_open env pricing draws order method_id (some payment) = pure payment
reuse_or_open env pricing draws order method_id none =
    open_new_payment env pricing draws order method_id

unfoldable pub create_payment_for_order :
    Env → Pricing → (ℕ → String) → String → String → String → Bool → Action World Payment
create_payment_for_order env pricing draws order_id method_id username admin = do
  order ← owned_order order_id username admin
  existing ← gets (open_payment order)
  reuse_or_open env pricing draws order method_id existing
