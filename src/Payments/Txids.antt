-- ===== src/Payments/Txids.antt =====
-- A transaction id pays for one payment: no two rows carry the same txid, whatever its case.
use fake_ui.Prelude.{
  String, false, ◌≡◌, ◌≢◌, refl, Option, none, some, eq_iff, is_empty, inl, inr, Bool-cases,
  Option-cases, arith, sym, ap, ◌∙◌,
}
use fake_ui.Prelude.Text.{strip, lower, strip_idem, lower-eq_empty}
use fake_ui.Prelude.Table.{Table, lookup, insert, lookup-insert}
use fake_ui.Prelude.Result.{err}
use fake_ui.Store.{Payment, World, Env}
use fake_ui.Store.Repository.{upsert, update, any-lookup}
use fake_ui.Payments.{has_txid, txid_used, update_payment, attach_txid, write_payment}

-- Every row stands under its stripped id, and different payments with a txid have different
-- ones, in lower case.
pub record IsValid (t : Table Payment) : Type 0 where
  pub keyed :
      (k : String) (p : Payment)
      → lookup k t ≡ some p
      → (p.id ≡ k) × (strip k ≡ k) × (is_empty k ≡ false)
  pub unique :
      (j k : String) (p q : Payment)
      → j ≢ k
      → lookup j t ≡ some p
      → lookup k t ≡ some q
      → is_empty p.txid ≡ false
      → lower p.txid ≢ lower q.txid

-- A txid that is not used belongs to no other row.
unused-lookup :
    (txid k j : String) (q : Payment) (t : Table Payment)
    → is_empty (lower (strip txid)) ≡ false
    → is_empty k ≡ false
    → txid_used txid k t ≡ false
    → j ≢ k
    → lookup j t ≡ some q
    → lower q.txid ≢ lower (strip txid)
unfolding txid_used
unused-lookup txid k j q t named key unused ne found e =
    let no_match : has_txid (lower (strip txid)) k (j, q) ≡ false =
      any-lookup (has_txid (lower (strip txid)) k) t j q (ground arith) found in
    unfold has_txid in ground (arith, eq_iff (lower q.txid) (lower (strip txid)), eq_iff j k)

-- What a row with the key `k` and the txid `txid` may not meet.
abbrev pub IsFree : String → String → Table Payment → Type 0
IsFree k txid t =
    (j : String) (q : Payment)
    → j ≢ k
    → lookup j t ≡ some q
    → is_empty txid ≡ false
    → lower q.txid ≢ lower txid

pub insert-IsValid :
    (k : String) (p : Payment) (t : Table Payment)
    → IsValid t
    → (p.id ≡ k) × (strip k ≡ k) × (is_empty k ≡ false)
    → IsFree k p.txid t
    → IsValid (insert k p t)
insert-IsValid k p t h key free = record {
  keyed = λ j q e. ground (arith, lookup-insert k j p t, eq_iff k j, h.keyed j q);
  unique = λ i j q r ne ei ej named same. ground (
    arith,
    lookup-insert k i p t,
    lookup-insert k j p t,
    eq_iff k i,
    eq_iff k j,
    h.unique i j q r ne,
    free j r,
    free i q,
    lower-eq_empty q.txid,
    lower-eq_empty r.txid,
  );
}

-- An update that leaves the id alone, and the txid too.
pub record KeepsKeys (f : Payment → Payment) : Type 0 where
  pub same_id : (p : Payment) → (f p).id ≡ p.id
  pub same_txid : (p : Payment) → (f p).txid ≡ p.txid

module _ (env : Env) (k : String) (w : World) (h : IsValid w.payments) where
  -- A row rewritten with a free txid.
  write-IsValid :
      (f : Payment → Payment)
      → ((p : Payment)
          → lookup k w.payments ≡ some p
          → ((f p).id ≡ k) × IsFree k (f p).txid w.payments)
      → IsValid (write_payment env k f w).1.payments
  unfolding write_payment update upsert
  write-IsValid f fits = elim (Option-cases (lookup k w.payments)) [
    | inl missing ↦ rw (missing, write_payment) h
    | inr (p, found) ↦
        let key = h.keyed k p found in
        let (id, free) = fits p found in
        ground (
          arith,
          insert-IsValid k (record (f p) { id = k; updated_at = some env.now }) w.payments h
              (refl, key.1, key.2) free,
        )
  ]

  -- A txid that is not used is free for an existing row.
  unused-IsFree :
      (txid : String) (p : Payment)
      → lookup k w.payments ≡ some p
      → txid_used (strip txid) k w.payments ≡ false
      → IsFree k (strip txid) w.payments
  unused-IsFree txid p found unused j q ne e named = rw (← strip_idem txid) (
      unused-lookup (strip txid) k j q w.payments (rw (strip_idem txid, lower-eq_empty) named)
        (h.keyed k p found).2 unused ne e)

  -- `update_payment(payment_id, **updates)` keeps the table valid, however it ends.
  pub update_payment-IsValid :
      (f : Payment → Payment) (txid : Option String)
      → KeepsKeys f
      → IsValid (update_payment env k txid f w).1.payments
  unfolding update_payment
  update_payment-IsValid f none keeps = write-IsValid f λ p found. (
    keeps.same_id p ∙ (h.keyed k p found).0,
    λ j q ne e named same.
        h.unique k j p q (λ s. ne (sym s)) found e (rw (keeps.same_txid p) at named)
          (sym (same ∙ ap lower (keeps.same_txid p))),
  )
  update_payment-IsValid f (some txid) keeps = elim (Bool-cases (is_empty (strip txid))) [
    | inl empty ↦ rw empty h
    | inr given ↦ elim (Bool-cases (txid_used (strip txid) k w.payments)) [
      | inl used ↦ rw (given, used) h
      | inr unused ↦
          rw (given, unused)
            (write-IsValid (λ p. record (f p) { txid = strip txid })
              λ p found.
                (keeps.same_id p ∙ (h.keyed k p found).0, unused-IsFree txid p found unused))
    ]
  ]

  -- attach_txid keeps the table of payments valid, that is, rows under their ids and transaction
  -- ids distinct whatever their case, whether it raises or not.
  pub attach_txid-IsValid : (txid : String) → IsValid (attach_txid env k txid w).1.payments
  unfolding attach_txid
  attach_txid-IsValid txid = elim (Bool-cases (is_empty (strip txid))) [
    | inl empty ↦ rw empty h
    | inr given ↦ elim (Bool-cases (txid_used (strip txid) k w.payments)) [
      | inl used ↦ rw (given, used) h
      | inr unused ↦
          rw (given, unused)
            (update_payment-IsValid (λ p. p) (some (strip txid))
              (record { same_id = λ p. refl; same_txid = λ p. refl }))
    ]
  ]

-- A transaction id that another payment carries, in whatever case, is refused for a payment whose
-- id is not empty, and nothing is written.
pub attach_txid_refuses :
    (env : Env) (k j txid : String) (q : Payment) (w : World)
    → is_empty (strip txid) ≡ false
    → is_empty k ≡ false
    → j ≢ k
    → lookup j w.payments ≡ some q
    → lower q.txid ≡ lower (strip txid)
    → attach_txid env k txid w ≡ (err "txid already used", w)
unfolding attach_txid
attach_txid_refuses env k j txid q w given key ne found same =
    elim (Bool-cases (txid_used (strip txid) k w.payments)) [
      | inl used ↦ rw (given, used)
      | inr unused ↦ absurd (
          unused-lookup (strip txid) k j q w.payments (rw (strip_idem txid, lower-eq_empty) given)
            key unused ne found (rw (strip_idem txid) same))
    ]
