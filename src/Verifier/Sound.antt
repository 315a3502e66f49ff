-- ===== src/Verifier/Sound.antt =====
-- What "confirmed" means: a transaction is confirmed exactly when it succeeded, pays at least the
-- required amount in matching transfers, and lies deep enough.
use fake_ui.Prelude.{
  ℕ, ◌+◌, ◌*◌, ◌^◌, ◌≤◌, ◌<◌, String, false, ◌≡◌, refl, ap, Option, none, some, List, [], ◌∷◌,
  filter, inl, inr, arith, Bool-cases, Decimal, is_not_positive,
}
use fake_ui.Prelude.Result.{Result, ok, err, >>=-eq-ok}
use fake_ui.Store.{Status}
use fake_ui.Verifier.Numbers.{parse_hex_int}
use fake_ui.Verifier.{
  Log, Receipt, is_transfer, transferred, amount_from_units, status_for_amount_and_confirmations,
  count_confirmations, receipt_status_failed,
}

-- The units of a log, 0 where they cannot be read.
abbrev value_or_zero : Result ℕ → ℕ
value_or_zero (ok n) = n
value_or_zero (err e) = 0

abbrev pub log_units : Log → ℕ
log_units log = value_or_zero (parse_hex_int log.amount "log data")

abbrev pub total_units : List Log → ℕ
total_units [] = 0
total_units (log ∷ logs) = log_units log + total_units logs

-- The amount that the matching transfers of a list of logs carry.
abbrev pub paid_units : String → String → List Log → ℕ
paid_units contract to logs = total_units (filter (is_transfer contract to) logs)

-- The loop adds up the matching transfers.
pub transferred-eq :
    (contract to : String) (logs : List Log) (acc n : ℕ)
    → transferred contract to logs acc ≡ ok n
    → n ≡ acc + paid_units contract to logs
unfolding transferred
transferred-eq contract to [] acc n e = ground arith
transferred-eq contract to (log ∷ logs) acc n e = elim (Bool-cases (is_transfer contract to log)) [
  | inl match ↦
      let (units, read, rest) =
        >>=-eq-ok (parse_hex_int log.amount "log data")
          (λ u. transferred contract to logs (acc + u)) (rw (match, transferred) at e) in
      rw match
        (omega (arith, transferred-eq contract to logs (acc + units) n rest, ap value_or_zero read))
  | inr other ↦ rw other (transferred-eq contract to logs acc n (rw (other, transferred) at e))
]

-- An amount of `units` in `places` covers what is required.
abbrev pub Covers : ℕ → ℕ → Decimal → Type 0
Covers units places required = required.coefficient * 10 ^ places ≤ units * 10 ^ required.places

-- A positive required amount, and a positive number of confirmations.
pub status-confirmed :
    (units places : ℕ) (required : Option Decimal) (found needed : ℕ)
    → status_for_amount_and_confirmations (amount_from_units units places) required found needed
      ≡ ok Status.confirmed
    → (amount : Decimal) × (required ≡ some amount)
      × Covers units places amount
      × (needed ≤ found)
      × (0 < needed)
      × (is_not_positive amount ≡ false)
unfolding status_for_amount_and_confirmations
status-confirmed units places none found needed e = absurd (ground arith)
status-confirmed units places (some amount) found needed e =
    (amount, refl, ground arith, ground arith, ground arith, ground arith)

-- A receipt pays what is due: it succeeded, its block lies `needed` deep, its matching transfers
-- can be read, and they cover the required amount.
pub record IsPaid (r : Receipt) (tip : ℕ) (contract to : String) (required : Option Decimal)
    (places needed : ℕ) : Type 0 where
  pub amount : Decimal
  pub block : ℕ
  pub required_amount : required ≡ some amount
  pub positive : is_not_positive amount ≡ false
  pub precise : places ≤ 18
  pub some_needed : 0 < needed
  pub mined : parse_hex_int r.block_number "blockNumber" ≡ ok block
  pub deep : needed ≤ count_confirmations block tip
  pub succeeded : receipt_status_failed r ≡ false
  pub readable : transferred contract to r.logs 0 ≡ ok (paid_units contract to r.logs)
  pub covers : Covers (paid_units contract to r.logs) places amount
