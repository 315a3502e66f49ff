-- ===== src/Payments.antt =====
-- baseline/payments_store.py over baseline/repositories/sqlite_payments.py: payments, and the
-- rule that a transaction id pays once. Payment methods are only read here.
pub mod Txids
pub mod Create
pub mod Frame
use fake_ui.Prelude.{
  ℕ, zero, suc, ◌+◌, String, Bool, true, false, not, ◌&&◌, ◌||◌, ◌≡◌, refl, Option, none, some,
  List, [], ◌∷◌, any, str_eq, is_empty, if◌then◌else◌, arith,
}
use fake_ui.Prelude.Text.{strip, lower}
use fake_ui.Prelude.Table.{Table, lookup, is_some}
use fake_ui.Prelude.Result.{Result, ok, err}
use fake_ui.Prelude.Action.{Action, gets}
use fake_ui.Store.{Payment, Method, Status, World, Env}
use fake_ui.Store.Repository.{Row, upsert, update}

abbrev pub payment_row : Row Payment
payment_row = record {
  id_of = λ p. p.id;
  set_id = λ k p. record p { id = k };
  no_id = "payment id is required";
  not_found = "payment not found";
}

-- `select 1 from payments where lower(txid) = ? and id != ? limit 1`; an empty id excludes none
unfoldable pub has_txid : String → String → String × Payment → Bool
has_txid txid exclude (id, p) =
    str_eq (lower p.txid) txid && (is_empty exclude || not (str_eq id exclude))

unfoldable pub txid_used : String → String → Table Payment → Bool
unfolding has_txid
txid_used txid exclude t =
    let normalized = lower (strip txid) in
    if is_empty normalized then false else any (has_txid normalized exclude) t

unfoldable pub get_payment : String → Action World (Option Payment)
get_payment payment_id = gets (λ w. lookup payment_id w.payments)

unfoldable pub get_method : String → Action World (Option Method)
get_method method_id = gets (λ w. lookup method_id w.methods)

-- The state after a write: the payment and the new rows, or the error and the old ones.
abbrev pub commit : World → Result (Payment × Table Payment) → Result Payment × World
commit w (ok (p, t)) = (ok p, record w { payments = t })
commit w (err e) = (err e, w)

-- The repository's `update`, and the end of `update_payment`.
unfoldable pub write_payment : Env → String → (Payment → Payment) → Action World Payment
write_payment env payment_id f w =
    commit w
      (update payment_row payment_id (λ p. record (f p) { updated_at = some env.now }) w.payments)

-- The keyword argument `txid` may be absent; the others are the function.
unfoldable pub update_payment :
    Env → String → Option String → (Payment → Payment) → Action World Payment
unfolding write_payment txid_used
update_payment env payment_id none f w = write_payment env payment_id f w
update_payment env payment_id (some txid) f w =
    let normalized = strip txid in
    if is_empty normalized
    then (err "txid required", w)
    else if txid_used normalized payment_id w.payments
    then (err "txid already used", w)
    else write_payment env payment_id (λ p. record (f p) { txid = normalized }) w

unfoldable pub attach_txid : Env → String → String → Action World Payment
unfolding update_payment
attach_txid env payment_id txid w =
    let normalized = strip txid in
    if is_empty normalized
    then (err "txid required", w)
    else if txid_used normalized payment_id w.payments
    then (err "txid already used", w)
    else update_payment env payment_id (some normalized) (λ p. p) w

-- `while repo.get(item["id"]): item["id"] = _new_payment_id()`, over the texts that are drawn;
-- `none` is a loop that is still running.
unfoldable pub fresh_id : ℕ → (ℕ → String) → ℕ → Table Payment → Option String
fresh_id zero draws n t = none
fresh_id (suc fuel) draws n t =
    let later = fresh_id fuel draws (n + 1) t in
    if is_some (lookup (draws n) t) then later else some (draws n)

unfoldable pub create_payment : Payment → String → Action World Payment
unfolding upsert
create_payment payment id w =
    let item : Payment = record payment { id = id } in
    elim (upsert payment_row item w.payments) [
      | ok t ↦ (ok item, record w { payments = t })
      | err e ↦ (err e, w)
    ]
