-- ===== src/Verifier/Erc20.antt =====
-- `verify_evm_erc20_receipt` confirms exactly the receipts that pay what is due.
use fake_ui.Prelude.{
  ℕ, ◌≤◌, ◌<◌, String, Bool, true, false, ◌≡◌, refl, ap, ◌∙◌, ◌↔◌, Option, some, if◌then◌else◌,
  arith, Decimal, is_not_positive,
}
use mathlib.Core.Path.{subst}
use fake_ui.Prelude.Result.{Result, ok, err, >>=-eq-ok}
use fake_ui.Store.{Status}
use fake_ui.Verifier.Numbers.{parse_hex_int}
use fake_ui.Verifier.{
  Receipt, Outcome, transferred, amount_from_units, status_for_amount_and_confirmations,
  parse_required_amount, parse_decimals, parse_confirmations_required, confirmations,
  receipt_status_failed, verify_evm_erc20_receipt, failed, caught,
}
use fake_ui.Verifier.Sound.{IsPaid, Covers, paid_units, transferred-eq, status-confirmed}

parse_decimals-ok : (places : ℕ) → places ≤ 18 → parse_decimals places ≡ ok places
unfolding parse_decimals
parse_decimals-ok places h = ground arith

parse_required_amount-ok :
    (a : Decimal) → is_not_positive a ≡ false → parse_required_amount (some a) ≡ ok a
unfolding parse_required_amount
parse_required_amount-ok a h = rw h

parse_confirmations_required-ok : (n : ℕ) → 0 < n → parse_confirmations_required n ≡ ok n
unfolding parse_confirmations_required
parse_confirmations_required-ok n h = ground arith

pub parse_decimals-eq_ok :
    (places n : ℕ) → parse_decimals places ≡ ok n → (n ≡ places) × (places ≤ 18)
unfolding parse_decimals
parse_decimals-eq_ok places n h = ground arith

parse_confirmations_required-eq_ok :
    (n m : ℕ) → parse_confirmations_required n ≡ ok m → (m ≡ n) × (0 < n)
unfolding parse_confirmations_required
parse_confirmations_required-eq_ok n m h = ground arith

caught-confirmed :
    (places : ℕ) (m : Result Outcome)
    → (caught places m).status ≡ Status.confirmed
    → (o : Outcome) × (m ≡ ok o) × (o.status ≡ Status.confirmed)
unfolding failed
caught-confirmed places (ok o) h = (o, refl, h)
caught-confirmed places (err e) h = cc

-- A failed outcome is not the one of a run that confirms.
not_failed-eq_ok :
    (b : Bool) (x o : Outcome) (m : Result Outcome)
    → (if b then ok x else m) ≡ ok o
    → x.status ≡ Status.failed
    → o.status ≡ Status.confirmed
    → (b ≡ false) × (m ≡ ok o)
not_failed-eq_ok true x o m e bad good = absurd cc
not_failed-eq_ok false x o m e bad good = (refl, e)

ok-status :
    (s : Status) (x o : Outcome)
    → ok x ≡ ok o
    → x.status ≡ s
    → o.status ≡ Status.confirmed
    → s ≡ Status.confirmed
ok-status s x o e named confirmed = cc

module _ (r : Receipt) (tip : ℕ) (contract to : String) (required : Option Decimal)
    (places needed : ℕ) where
  abbrev outcome : Outcome
  outcome = verify_evm_erc20_receipt r tip contract to required places needed

  -- A receipt that pays is confirmed.
  IsPaid-confirmed :
      IsPaid r tip contract to required places needed → outcome.status ≡ Status.confirmed
  unfolding verify_evm_erc20_receipt status_for_amount_and_confirmations
  IsPaid-confirmed h =
      simp
        (
          h.required_amount,
          h.mined,
          h.succeeded,
          h.readable,
          parse_decimals-ok places h.precise,
          parse_required_amount-ok h.amount h.positive,
          parse_confirmations_required-ok needed h.some_needed,
        )
        (ground (arith, h.covers, h.deep))

  -- The part of the run behind the checks, for a receipt that is confirmed.
  settled-IsPaid :
      (p n found total : ℕ) (status : Status)
      → (p ≡ places) × (places ≤ 18)
      → (n ≡ needed) × (0 < needed)
      → confirmations r.block_number tip ≡ ok found
      → receipt_status_failed r ≡ false
      → transferred contract to r.logs 0 ≡ ok total
      → status_for_amount_and_confirmations (amount_from_units total p) required found n ≡ ok status
      → status ≡ Status.confirmed
      → IsPaid r tip contract to required places needed
  unfolding confirmations
  settled-IsPaid p n found total status (same_p, precise) (same_n, some_needed) counted succeeded
        read settled confirmed =
      let (block, mined, depth) =
        >>=-eq-ok (parse_hex_int r.block_number "blockNumber") _ counted in
      let units : total ≡ paid_units contract to r.logs =
        omega (arith, transferred-eq contract to r.logs 0 total read) in
      let (amount, required_amount, covers, deep, _, positive) =
        status-confirmed total p required found n (settled ∙ ap ok confirmed) in
      record {
        amount = amount;
        block = block;
        required_amount = required_amount;
        positive = positive;
        precise = precise;
        some_needed = some_needed;
        mined = mined;
        deep = ground (arith, depth, deep, same_n);
        succeeded = succeeded;
        readable = read ∙ ap ok units;
        covers =
            subst (λ u. Covers u places amount) units
              (subst (λ q. Covers total q amount) same_p covers);
      }

  -- A receipt is confirmed only if it pays.
  confirmed-IsPaid :
      outcome.status ≡ Status.confirmed → IsPaid r tip contract to required places needed
  unfolding verify_evm_erc20_receipt
  confirmed-IsPaid e =
      let (o, run, status) = caught-confirmed places _ e in
      let (p, e1, r1) = >>=-eq-ok (parse_decimals places) _ run in
      let (a, e2, r2) = >>=-eq-ok (parse_required_amount required) _ r1 in
      let (n, e3, r3) = >>=-eq-ok (parse_confirmations_required needed) _ r2 in
      let (found, e4, r4) = >>=-eq-ok (confirmations r.block_number tip) _ r3 in
      let (succeeded, r5) = not_failed-eq_ok (receipt_status_failed r) _ o _ r4 refl status in
      let (total, e5, r6) = >>=-eq-ok (transferred contract to r.logs 0) _ r5 in
      let (s, e6, r7) =
        >>=-eq-ok (status_for_amount_and_confirmations (amount_from_units total p) required found n)
          _ r6 in
      settled-IsPaid p n found total s (parse_decimals-eq_ok places p e1)
        (parse_confirmations_required-eq_ok needed n e3) e4 succeeded e5 e6
        (ok-status s _ o r7 refl status)

  -- A receipt is confirmed exactly if it succeeded, its block number and matching transfers can be
  -- read, it lies as deep as needed, at least one confirmation is needed, the token has at most 18
  -- places, and the transfers of the token to the address cover the required amount, which is
  -- positive.
  pub confirmed_iff_IsPaid :
      (outcome.status ≡ Status.confirmed) ↔ IsPaid r tip contract to required places needed
  confirmed_iff_IsPaid = (confirmed-IsPaid, IsPaid-confirmed)
