-- ===== src/Service/Sound.antt =====
-- The invariant of the payment service: payments stand under their ids with distinct txids, and
-- orders under theirs. Every request keeps it, whether it returns or raises.
use fake_ui.Prelude.{String, Bool, Option, none, some, refl, ap}
use fake_ui.Prelude.Table.{Table}
use fake_ui.Prelude.Result.{Result, ok, err}
use fake_ui.Prelude.Action.{Action}
use fake_ui.Prelude.Keeps.{Keeps, Keeps-bind, Keeps-lift, Keeps-if, Keeps-then, keeps_rules}
use fake_ui.Store.{Order, Payment, World, Env}
use fake_ui.Store.Repository.{IsKeyed}
use fake_ui.Orders.{order_row, get_order, update_order}
use fake_ui.Payments.{get_payment, update_payment, attach_txid}
use fake_ui.Payments.Txids.{IsValid, KeepsKeys, update_payment-IsValid, attach_txid-IsValid}
use fake_ui.Payments.Frame.{update_payment-OnlyPayments, attach_txid-OnlyPayments}
use fake_ui.Admin.Confirm.{confirm_order}
use fake_ui.Admin.Frames.{Stays, update_order-Stays, confirm_order-Stays}
use fake_ui.Service.{
  Verification, Verifier, expire_order, expire_order_of, expire_payment, verified, found_txid,
  recover_order, settle_order, settle_order_of, apply_verification, owned_payment, by_answer,
  refresh_open, refresh_payment, is_final, submit_tx_and_verify,
}

pub record IsSound (w : World) : Type 0 where
  pub payments : IsValid w.payments
  pub orders : IsKeyed order_row w.orders

-- An action that leaves the payments alone and keeps the orders' keys is sound.
IsSound-of_Stays :
    {A : Type 0} (m : Action World A) → ((c : Table Payment) → Keeps (Stays c) m) → Keeps IsSound m
IsSound-of_Stays m stays = record {
  at = λ w h.
      let s = (stays w.payments).at w (record { payments = refl; keyed = h.orders }) in
      record { payments = rw s.payments h.payments; orders = s.keyed };
}

update_payment-IsSound :
    (env : Env) (k : String) (txid : Option String) (f : Payment → Payment)
    → KeepsKeys f
    → Keeps IsSound (update_payment env k txid f)
update_payment-IsSound env k txid f keeps = record {
  at = λ w h. record {
    payments = update_payment-IsValid env k w h.payments f txid keeps;
    orders =
        rw (ap (λ (v : World). v.orders) (update_payment-OnlyPayments env k w txid f)) h.orders;
  };
}

attach_txid-IsSound : (env : Env) (k txid : String) → Keeps IsSound (attach_txid env k txid)
attach_txid-IsSound env k txid = record {
  at = λ w h. record {
    payments = attach_txid-IsValid env k w h.payments txid;
    orders = rw (ap (λ (v : World). v.orders) (attach_txid-OnlyPayments env k w txid)) h.orders;
  };
}

update_order-IsSound :
    (env : Env) (id : String) (f : Order → Order) → Keeps IsSound (update_order env id f)
update_order-IsSound env id f =
    IsSound-of_Stays (update_order env id f) (λ c. update_order-Stays c env id f)

confirm_order-IsSound :
    (env : Env) (id operator : String) → Keeps IsSound (confirm_order env id operator)
confirm_order-IsSound env id operator =
    IsSound-of_Stays (confirm_order env id operator) (λ c. confirm_order-Stays c env id operator)

get_payment-IsSound : (id : String) → Keeps IsSound (get_payment id)
unfolding get_payment
get_payment-IsSound id = search keeps_rules

get_order-IsSound : (id : String) → Keeps IsSound (get_order id)
unfolding get_order
get_order-IsSound id = search keeps_rules

ruleset sound_rules = (
  keeps_rules, update_order-IsSound, confirm_order-IsSound, get_payment-IsSound, get_order-IsSound,
  attach_txid-IsSound,
)

expire_order_of-IsSound :
    (env : Env) (p : Payment) (o : Option Order) → Keeps IsSound (expire_order_of env p o)
unfolding expire_order_of expire_order
expire_order_of-IsSound env p none = search sound_rules
expire_order_of-IsSound env p (some o) = search sound_rules depth 8

expire_payment-IsSound : (env : Env) (id : String) → Keeps IsSound (expire_payment env id)
unfolding expire_payment
expire_payment-IsSound env id =
    Keeps-bind _ _
      (update_payment-IsSound env id none _ (record { same_id = λ p. refl; same_txid = λ p. refl }))
      (λ updated. search (sound_rules, expire_order_of-IsSound))

recover_order-IsSound : (env : Env) (o : Order) → Keeps IsSound (recover_order env o)
unfolding recover_order
recover_order-IsSound env o = search sound_rules

settle_order_of-IsSound :
    (env : Env) (p : Payment) (operator : String) (o : Option Order)
    → Keeps IsSound (settle_order_of env p operator o)
unfolding settle_order_of settle_order
settle_order_of-IsSound env p operator none = search sound_rules
settle_order_of-IsSound env p operator (some o) =
    search (sound_rules, recover_order-IsSound) depth 8

apply_verification-IsSound :
    (env : Env) (id : String) (v : Verification) (operator : String)
    → Keeps IsSound (apply_verification env id v operator)
apply_verification-IsSound env id v operator =
    unfold apply_verification in
    Keeps-bind _ _ (get_payment-IsSound id) λ found. Keeps-bind _ _ (Keeps-lift _) λ payment.
      Keeps-bind _ _
        (update_payment-IsSound env id (found_txid v) (verified env v)
          (unfold verified in record { same_id = λ p. refl; same_txid = λ p. refl }))
        (λ updated. search (sound_rules, settle_order_of-IsSound))

owned_payment-IsSound :
    (id username : String) (admin : Bool) → Keeps IsSound (owned_payment id username admin)
unfolding owned_payment
owned_payment-IsSound id username admin = search sound_rules depth 8

by_answer-IsSound :
    (env : Env) (id username : String) (r : Result Verification)
    → Keeps IsSound (by_answer env id username r)
unfolding by_answer
by_answer-IsSound env id username (ok v) = search apply_verification-IsSound
by_answer-IsSound env id username (err e) =
    update_payment-IsSound env id none _ (record { same_id = λ p. refl; same_txid = λ p. refl })

refresh_open-IsSound :
    (env : Env) (verify : Verifier) (p : Payment) (id username : String)
    → Keeps IsSound (refresh_open env verify p id username)
refresh_open-IsSound env verify p id username =
    unfold refresh_open in search (sound_rules, expire_payment-IsSound, by_answer-IsSound)

refresh_payment-Keeps :
    (env : Env) (verify : Verifier) (id username : String) (admin : Bool)
    → Keeps IsSound (refresh_payment env verify id username admin)
refresh_payment-Keeps env verify id username admin =
    unfold refresh_payment in search (sound_rules, owned_payment-IsSound, refresh_open-IsSound)

submit_tx_and_verify-Keeps :
    (env : Env) (verify : Verifier) (id txid username : String) (admin : Bool)
    → Keeps IsSound (submit_tx_and_verify env verify id txid username admin)
submit_tx_and_verify-Keeps env verify id txid username admin =
    unfold submit_tx_and_verify in
    Keeps-bind _ _ (owned_payment-IsSound id username admin) λ payment.
      Keeps-if (is_final payment.status) _ _ (search sound_rules)
        (Keeps-then _ _ (search sound_rules) (refresh_payment-Keeps env verify id username admin))

-- A refresh keeps payments under their ids with distinct transaction ids, and orders under theirs,
-- whatever the chain answers and however the refresh ends.
pub refresh_payment-IsSound :
    (env : Env) (verify : Verifier) (id username : String) (admin : Bool) (w : World)
    → IsSound w
    → IsSound (refresh_payment env verify id username admin w).1
refresh_payment-IsSound env verify id username admin =
    (refresh_payment-Keeps env verify id username admin).at

-- Submitting a transaction id keeps payments under their ids with distinct transaction ids, and
-- orders under theirs, whatever the chain answers and however the call ends.
pub submit_tx_and_verify-IsSound :
    (env : Env) (verify : Verifier) (id txid username : String) (admin : Bool) (w : World)
    → IsSound w
    → IsSound (submit_tx_and_verify env verify id txid username admin w).1
submit_tx_and_verify-IsSound env verify id txid username admin =
    (submit_tx_and_verify-Keeps env verify id txid username admin).at
