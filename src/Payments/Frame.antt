-- ===== src/Payments/Frame.antt =====
-- Writing a payment touches the payments and nothing else.
use fake_ui.Prelude.{
  arith, Option-cases, String, ◌≡◌, refl, ap, ◌∙◌, Option, none, some, Bool-cases, inl, inr,
  is_empty,
}
use fake_ui.Prelude.Text.{strip}
use fake_ui.Prelude.Table.{Table, lookup}
use fake_ui.Prelude.Result.{Result, ok, err}
use fake_ui.Store.{Payment, World, Env}
use fake_ui.Store.Repository.{update}
use fake_ui.Payments.{payment_row, commit, write_payment, txid_used, update_payment, attach_txid}

-- `w'` is `w` but for the payments.
abbrev pub OnlyPayments : World → World → Type 0
OnlyPayments w w' = w' ≡ record w { payments = w'.payments }

commit-OnlyPayments :
    (w : World) (r : Result (Payment × Table Payment)) → OnlyPayments w (commit w r).1
commit-OnlyPayments w (ok (p, t)) = refl
commit-OnlyPayments w (err e) = refl

module _ (env : Env) (k : String) (w : World) where
  write_payment-OnlyPayments : (f : Payment → Payment) → OnlyPayments w (write_payment env k f w).1
  unfolding write_payment
  write_payment-OnlyPayments f =
      commit-OnlyPayments w
        (update payment_row k (λ p. record (f p) { updated_at = some env.now }) w.payments)

  pub update_payment-OnlyPayments :
      (txid : Option String) (f : Payment → Payment)
      → OnlyPayments w (update_payment env k txid f w).1
  unfolding update_payment
  update_payment-OnlyPayments none f = write_payment-OnlyPayments f
  update_payment-OnlyPayments (some txid) f = elim (Bool-cases (is_empty (strip txid))) [
    | inl empty ↦ rw empty
    | inr given ↦ elim (Bool-cases (txid_used (strip txid) k w.payments)) [
      | inl used ↦ rw (given, used)
      | inr unused ↦
          rw (given, unused) (write_payment-OnlyPayments (λ p. record (f p) { txid = strip txid }))
    ]
  ]

  pub attach_txid-OnlyPayments : (txid : String) → OnlyPayments w (attach_txid env k txid w).1
  unfolding attach_txid
  attach_txid-OnlyPayments txid = elim (Bool-cases (is_empty (strip txid))) [
    | inl empty ↦ rw empty
    | inr given ↦ elim (Bool-cases (txid_used (strip txid) k w.payments)) [
      | inl used ↦ rw (given, used)
      | inr unused ↦ rw (given, unused) (update_payment-OnlyPayments (some (strip txid)) (λ p. p))
    ]
  ]

-- What a write that returned `p'` has done: it found the row, and applied `f` to it.
pub record Wrote (k : String) (f : Payment → Payment) (w : World) (p' : Payment) : Type 0 where
  pub row : Payment
  pub found : lookup k w.payments ≡ some row
  pub status : p'.status ≡ (f row).status
  pub order_id : p'.order_id ≡ (f row).order_id
  pub id : p'.id ≡ (f row).id

module _ (env : Env) (k : String) (w : World) (p' : Payment) (w' : World) where
  write_payment-Wrote :
      (f : Payment → Payment) → write_payment env k f w ≡ (ok p', w') → Wrote k f w p'
  unfolding write_payment update
  write_payment-Wrote f e = elim (Option-cases (lookup k w.payments)) [
    | inl missing ↦ absurd (ground arith)
    | inr (p, found) ↦ record {
      row = p;
      found = found;
      status = ground arith;
      order_id = ground arith;
      id = ground arith;
    }
  ]

  pub update_payment-Wrote :
      (txid : Option String) (f : Payment → Payment)
      → update_payment env k txid f w ≡ (ok p', w')
      → Wrote k f w p'
  unfolding update_payment
  update_payment-Wrote none f e = write_payment-Wrote f e
  update_payment-Wrote (some txid) f e = elim (Bool-cases (is_empty (strip txid))) [
    | inl empty ↦ absurd (ground arith)
    | inr given ↦ elim (Bool-cases (txid_used (strip txid) k w.payments)) [
      | inl used ↦ absurd (ground arith)
      | inr unused ↦
          let written =
            write_payment-Wrote (λ p. record (f p) { txid = strip txid }) (ground arith) in
          record {
            row = written.row;
            found = written.found;
            status = written.status;
            order_id = written.order_id;
            id = written.id;
          }
    ]
  ]

-- So what is known of the row is known of the written payment.
pub Wrote-row :
    (k : String) (f : Payment → Payment) (w : World) (p p' : Payment)
    → Wrote k f w p'
    → lookup k w.payments ≡ some p
    → (p'.status ≡ (f p).status) × (p'.order_id ≡ (f p).order_id) × (p'.id ≡ (f p).id)
Wrote-row k f w p p' h found =
    let row : h.row ≡ p = cc (h.found) in
    (
      h.status ∙ ap (λ (q : Payment). (f q).status) row,
      h.order_id ∙ ap (λ (q : Payment). (f q).order_id) row,
      h.id ∙ ap (λ (q : Payment). (f q).id) row,
    )
