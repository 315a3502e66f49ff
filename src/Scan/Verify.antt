-- ===== src/Scan/Verify.antt =====
-- `_scan_btc_payment` and `verify_payment` of baseline/payment_service.py.
use fake_ui.Prelude.{
  ℕ, String, Bool, false, not, ◌||◌, ◌&&◌, Option, none, some, List, [], ◌∷◌, if◌then◌else◌,
  is_empty, str_eq, Decimal,
}
use fake_ui.Prelude.Text.{strip}
use fake_ui.Prelude.Table.{Table}
use fake_ui.Prelude.Result.{Result, ok, err, ◌>>=◌}
use fake_ui.Store.{Payment, Method, Status}
use fake_ui.Payments.{txid_used}
use fake_ui.Service.{Verification}
use fake_ui.Verifier.{
  Outcome, BtcTransaction, verify_evm_erc20_receipt, verify_evm_native_tx, verify_btc_tx,
}
use fake_ui.Verifier.Numbers.{parse_hex_int}
use fake_ui.Scan.{Chain, BtcApi, created_at_floor, chain_name, time_of}
use fake_ui.Scan.Logs.{scan_evm_erc20_payment, too_early, candidate}
use fake_ui.Scan.Choose.{Candidate, choose}

abbrev both : {A : Type 0} → Result A → Result ℕ → Result (A × ℕ)
both (err e) tip = err e
both (ok a) (err e) = err e
both (ok a) (ok tip) = ok (a, tip)

-- The first explorer that answers both questions, or the last error.
unfoldable pub first_answer :
    {A : Type 0} → List BtcApi → (BtcApi → Result A) → String → Result (A × ℕ)
first_answer [] ask last = err last
first_answer (api ∷ rest) ask last = elim (both (ask api) api.tip_height) [
  | ok answer ↦ ok answer
  | err e ↦ first_answer rest ask e
]

-- A transaction from before the payment; without a block time it is none.
abbrev pub before_floor : Option ℕ → BtcTransaction → Bool
before_floor none tx = false
before_floor (some floor) tx = too_early floor (time_of tx.block_time)

unfoldable pub is_btc_candidate : Table Payment → Payment → BtcTransaction → Bool
unfolding txid_used created_at_floor
is_btc_candidate payments payment tx =
    let txid = strip tx.txid in
    if is_empty txid || txid_used txid payment.id payments
    then false
    else not (before_floor (created_at_floor payment) tx)

-- `result.get("detected_amount", "")`; every result of `verify_btc_tx` has one
abbrev pub amount_of : Option Decimal → Decimal
amount_of none = record { negative = false; coefficient = 0; places = 0 }
amount_of (some a) = a

abbrev pub candidate_of : String → Outcome → Candidate
candidate_of txid o = candidate txid (amount_of o.detected_amount) o.confirmations o.error

abbrev pub btc_sorted_in :
    String → Outcome → Status → List Candidate × List Candidate → List Candidate × List Candidate
btc_sorted_in txid o Status.confirmed (good, bad) = (candidate_of txid o ∷ good, bad)
btc_sorted_in txid o Status.detected (good, bad) = (good, candidate_of txid o ∷ bad)
btc_sorted_in txid o _ sorted = sorted

unfoldable pub sort_transactions :
    Table Payment → Payment → Method → ℕ → List BtcTransaction → List Candidate × List Candidate
unfolding is_btc_candidate verify_btc_tx
sort_transactions payments payment method tip [] = ([], [])
sort_transactions payments payment method tip (tx ∷ txs) =
    let others = sort_transactions payments payment method tip txs in
    let o =
      verify_btc_tx tx tip method.address payment.crypto_amount method.confirmations_required in
    if is_btc_candidate payments payment tx
    then btc_sorted_in (strip tx.txid) o o.status others
    else others

unfoldable pub scan_btc_payment : Chain → Table Payment → Payment → Method → Result Verification
unfolding first_answer sort_transactions choose
scan_btc_payment chain payments payment method =
    first_answer chain.explorers (λ api. api.transactions) "btc api error" >>= λ answer.
    let sorted = sort_transactions payments payment method answer.1 answer.0 in
    ok (choose payment sorted.0 sorted.1)

-- `is_evm_chain` of baseline/payment_wallets.py
abbrev pub is_evm_chain : String → Bool
is_evm_chain chain = str_eq chain "ethereum" || str_eq chain "bsc"

-- A verifier's result names no transaction.
abbrev pub answered : Outcome → Verification
answered o = record {
  status = o.status;
  detected_amount = o.detected_amount;
  confirmations = o.confirmations;
  error = o.error;
  txid = "";
}

abbrev pub txid_required : Payment → Verification
txid_required p = record {
  status = p.status;
  detected_amount = p.detected_amount;
  confirmations = p.confirmations;
  error = "txid required";
  txid = "";
}

abbrev pub unsupported : Verification
unsupported = record {
  status = Status.failed;
  detected_amount = none;
  confirmations = 0;
  error = "unsupported payment chain";
  txid = "";
}

-- Without a transaction id: a scan, where there is one.
unfoldable pub verify_by_scan : Chain → Table Payment → Payment → Method → Result Verification
unfolding scan_evm_erc20_payment scan_btc_payment
verify_by_scan chain payments payment method =
    let name = chain_name method in
    if is_evm_chain name && not (is_empty method.token_contract)
    then scan_evm_erc20_payment chain payments payment method
    else if str_eq name "bitcoin"
    then scan_btc_payment chain payments payment method
    else ok (txid_required payment)

unfoldable pub verify_token : Chain → Payment → Method → String → ℕ → Result Verification
unfolding verify_evm_erc20_receipt
verify_token chain payment method txid current = chain.receipt txid >>= λ receipt. ok (
    answered (
      verify_evm_erc20_receipt receipt current method.token_contract method.address
        payment.crypto_amount method.decimals method.confirmations_required))

unfoldable pub verify_native : Chain → Payment → Method → String → ℕ → Result Verification
unfolding verify_evm_native_tx
verify_native chain payment method txid current = chain.transaction txid >>= λ tx. ok (
    answered (
      verify_evm_native_tx tx current method.address payment.crypto_amount method.decimals
        method.confirmations_required))

unfoldable pub verify_evm : Chain → Payment → Method → String → Result Verification
unfolding verify_token verify_native
verify_evm chain payment method txid = do
  answer ← chain.block_number
  current ← parse_hex_int answer "blockNumber"
  if is_empty method.token_contract
      then verify_native chain payment method txid current
      else verify_token chain payment method txid current

unfoldable pub verify_btc : Chain → Payment → Method → String → Result Verification
unfolding first_answer verify_btc_tx
verify_btc chain payment method txid = do
  answer ← first_answer chain.explorers (λ api. api.transaction txid) "btc api error"
  ok (
      answered (
        verify_btc_tx answer.0 answer.1 method.address payment.crypto_amount
          method.confirmations_required))

unfoldable pub verify_payment : Chain → Table Payment → Payment → Method → Result Verification
unfolding verify_by_scan verify_evm verify_btc
verify_payment chain payments payment method =
    let txid = strip payment.txid in
    let name = chain_name method in
    if is_empty txid
    then verify_by_scan chain payments payment method
    else if is_evm_chain name
    then verify_evm chain payment method txid
    else if str_eq name "bitcoin"
    then verify_btc chain payment method txid
    else ok unsupported
