-- ===== src/Scan/Written.antt =====
-- A payment that a scan confirms is written: its transaction id is never refused.
use fake_ui.Prelude.{String, false, some, ◌≡◌, refl, sym, ap, ◌∙◌, is_empty, inl, inr, Bool-cases}
use fake_ui.Prelude.Text.{strip, strip_idem}
use fake_ui.Prelude.Table.{lookup, lookup-insert_self}
use fake_ui.Prelude.Result.{Result, ok}
use fake_ui.Store.{Payment, Method, Status, World, Env}
use fake_ui.Store.Repository.{IsKeyed, update-eq}
use fake_ui.Payments.{payment_row, txid_used, update_payment, write_payment}
use fake_ui.Payments.Txids.{IsValid}
use fake_ui.Service.{Verification, verified, found_txid}
use fake_ui.Scan.{Chain}
use fake_ui.Scan.Logs.{scan_evm_erc20_payment}
use fake_ui.Scan.Sound.{scan_confirms_sufficient}

-- What an update leaves behind that wrote the row `q` under the id.
abbrev pub IsStored : String → Payment → Result Payment × World → Type 0
IsStored id q run = (run.0 ≡ ok q) × (lookup id run.1.payments ≡ some q)

module _ (env : Env) (id : String) (p : Payment) (w : World) (h : IsValid w.payments)
    (found : lookup id w.payments ≡ some p) where
  -- The row that a write by `f` stores.
  abbrev row_by : (Payment → Payment) → Payment
  row_by f = record (f p) { id = id; updated_at = some env.now }

  write_payment-IsStored :
      (f : Payment → Payment) → (f p).id ≡ p.id → IsStored id (row_by f) (write_payment env id f w)
  unfolding write_payment
  write_payment-IsStored f same =
      let keyed : IsKeyed payment_row w.payments = record { at = h.keyed } in
      let own : (f p).id ≡ id = same ∙ (h.keyed id p found).0 in
      rw
        (update-eq payment_row w.payments id p (λ x. record (f x) { updated_at = some env.now })
          keyed found same)
        (
          ap (λ k. ok (record (f p) { id = k; updated_at = some env.now })) own,
          lookup-insert_self id _ w.payments,
        )

  same_use :
      (txid : String) → txid_used (strip (strip txid)) id w.payments ≡ txid_used txid id w.payments
  unfolding txid_used
  same_use txid = rw (strip_idem txid, strip_idem txid)

  -- In a valid table, if a scan confirms a stored payment, then the verification is written: the
  -- update returns a confirmed row with the amount and the confirmations that the scan reports,
  -- and this row stands under the payment's id.
  pub scanned_payment_is_written :
      (chain : Chain) (method : Method) (v : Verification)
      → scan_evm_erc20_payment chain w.payments p method ≡ ok v
      → v.status ≡ Status.confirmed
      → (q : Payment) × IsStored id q (update_payment env id (found_txid v) (verified env v) w)
        × (q.status ≡ Status.confirmed)
        × (q.detected_amount ≡ v.detected_amount)
        × (q.confirmations ≡ v.confirmations)
  unfolding update_payment verified
  scanned_payment_is_written chain method v scan confirmed =
      let new = scan_confirms_sufficient w.payments p chain method v scan confirmed in
      elim (Bool-cases (is_empty (strip v.txid))) [
        | inl bare ↦ (
          row_by (verified env v),
          rw bare (write_payment-IsStored (verified env v) refl),
          confirmed,
          refl,
          refl,
        )
        | inr named ↦
            let unused : txid_used (strip (strip v.txid)) id w.payments ≡ false =
              same_use v.txid
              ∙ ap (λ k. txid_used v.txid k w.payments) (sym (h.keyed id p found).0)
              ∙ new.paid_by.2.new.1 in
            let named_still : is_empty (strip (strip v.txid)) ≡ false =
              ap is_empty (strip_idem v.txid) ∙ named in
            let change : Payment → Payment =
              λ x. record (verified env v x) { txid = strip (strip v.txid) } in
            (
              row_by change,
              rw (named, named_still, unused, update_payment) (write_payment-IsStored change refl),
              confirmed,
              refl,
              refl,
            )
      ]
