-- ===== src/Scan/Logs.antt =====
-- `_scan_evm_erc20_payment` of baseline/payment_service.py.
use fake_ui.Prelude.{
  ℕ, ◌+◌, ◌-◌, min, String, Bool, true, false, not, ◌||◌, ◌==◌, Option, none, some, List, [], ◌∷◌,
  if◌then◌else◌, ltb, is_empty, Decimal, decimal_ltb,
}
use fake_ui.Prelude.Text.{strip}
use fake_ui.Prelude.Table.{Table, lookup, insert}
use fake_ui.Prelude.Result.{Result, ok, ◌>>=◌}
use fake_ui.Store.{Payment, Method}
use fake_ui.Payments.{txid_used}
use fake_ui.Service.{Verification}
use fake_ui.Verifier.{
  Log, is_transfer, amount_from_units, parse_decimals, parse_required_amount,
  parse_confirmations_required,
}
use fake_ui.Verifier.Numbers.{parse_hex_int}
use fake_ui.Scan.{Chain, block_timestamp, created_at_floor, scan_from_block}
use fake_ui.Scan.Range.{scan_evm_logs}
use fake_ui.Scan.Choose.{Candidate, choose}

-- The transfers of one transaction: their units and their first block.
pub record Group : Type 0 where
  pub units : ℕ
  pub block_number : ℕ

-- A block before the payment was created; a block without a time is none.
abbrev pub too_early : ℕ → Option ℕ → Bool
too_early floor none = false
too_early floor (some time) = ltb time floor

unfoldable pub is_before : Chain → Option ℕ → ℕ → Result Bool
unfolding block_timestamp
is_before chain none block = ok false
is_before chain (some floor) block =
    block_timestamp chain block >>= λ time. ok (too_early floor time)

-- A log's units join the group of its transaction.
unfoldable pub joined : String → ℕ → ℕ → Table Group → Table Group
joined txid block units grouped = elim (lookup txid grouped) [
  | none ↦ insert txid (record { units = units; block_number = block }) grouped
  | some g ↦
      insert txid (record { units = g.units + units; block_number = min g.block_number block })
        grouped
]

-- A transfer under a transaction id that no other payment has used.
unfoldable pub add_log : Chain → Option ℕ → Log → String → Table Group → Result (Table Group)
unfolding is_before joined
add_log chain floor log txid grouped = do
  block ← parse_hex_int log.block_number "blockNumber"
  early ← is_before chain floor block
  if early
      then ok grouped
      else do units ← parse_hex_int log.amount "log data"; ok (joined txid block units grouped)

-- Which logs count for the payment.
unfoldable pub is_candidate : Table Payment → Payment → Method → Log → Bool
unfolding is_transfer txid_used
is_candidate payments payment method log =
    let txid = strip log.transaction_hash in
    if is_transfer method.token_contract method.address log
    then not (is_empty txid || txid_used txid payment.id payments)
    else false

unfoldable pub grouped_logs :
    Chain → Table Payment → Payment → Method → List Log → Table Group → Result (Table Group)
unfolding is_candidate add_log
grouped_logs chain payments payment method [] grouped = ok grouped
grouped_logs chain payments payment method (log ∷ logs) grouped =
    elim (is_candidate payments payment method log) [
      | false ↦ grouped_logs chain payments payment method logs grouped
      | true ↦
          add_log chain (created_at_floor payment) log (strip log.transaction_hash) grouped
          >>= grouped_logs chain payments payment method logs
    ]

-- `_confirmed_status`
pub data Match : Type 0 where
  low detected confirmed : Match

unfoldable pub confirmed_status : Decimal → Option Decimal → ℕ → ℕ → Result Match
unfolding parse_required_amount parse_confirmations_required
confirmed_status amount required_amount found needed = do
  required ← parse_required_amount required_amount
  if decimal_ltb amount required then ok low else do
    confirmations ← parse_confirmations_required needed
    ok (if ltb found confirmations then detected else confirmed)

-- Both heights included. A block ahead of the tip counts as no confirmation, where the source
-- reports a negative number; both are below every number that a method may ask for.
abbrev pub depth : ℕ → ℕ → ℕ
depth current block = if block == 0 then 0 else current + 1 - block

abbrev pub candidate : String → Decimal → ℕ → String → Candidate
candidate txid amount found error = record {
  txid = txid;
  detected_amount = amount;
  confirmations = found;
  error = error;
}

-- The groups as candidates and as transfers that do not suffice.
abbrev pub sorted_in :
    String → Decimal → ℕ → Match → List Candidate × List Candidate → List Candidate × List Candidate
sorted_in txid amount found confirmed (good, bad) = (candidate txid amount found "" ∷ good, bad)
sorted_in txid amount found detected (good, bad) =
    (good, candidate txid amount found "confirmations below required amount" ∷ bad)
sorted_in txid amount found low (good, bad) =
    (good, candidate txid amount found "detected amount below required amount" ∷ bad)

unfoldable pub sort_groups :
    Payment → Method → ℕ → Table Group → Result (List Candidate × List Candidate)
unfolding confirmed_status parse_decimals
sort_groups payment method current [] = ok ([], [])
sort_groups payment method current ((txid, g) ∷ rest) = do
  places ← parse_decimals method.decimals
  let amount = amount_from_units g.units places
  let found = depth current g.block_number
  status ← confirmed_status amount payment.crypto_amount found method.confirmations_required
  others ← sort_groups payment method current rest
  ok (sorted_in txid amount found status others)

unfoldable pub scan_evm_erc20_payment :
    Chain → Table Payment → Payment → Method → Result Verification
unfolding grouped_logs sort_groups choose scan_evm_logs scan_from_block
scan_evm_erc20_payment chain payments payment method = do
  answer ← chain.block_number
  current ← parse_hex_int answer "blockNumber"
  logs ← scan_evm_logs chain.logs (scan_from_block chain payment method current) current
  grouped ← grouped_logs chain payments payment method logs []
  sorted ← sort_groups payment method current grouped
  ok (choose payment sorted.0 sorted.1)
