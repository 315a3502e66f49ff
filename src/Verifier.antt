-- ===== src/Verifier.antt =====
-- baseline/payment_verifier.py: whether a transaction pays what is due. Amounts are counted in
-- the smallest unit; a `Decimal` of such a count is exact up to the 78 digits of the context.
-- Numbers of a row (decimals, confirmations) are the integers that `normalize_method` stores.
pub mod Numbers
pub mod Sound
pub mod Erc20
use fake_ui.Prelude.{
  ℕ, zero, suc, ◌+◌, ◌-◌, String, Bool, true, false, not, ◌&&◌, ◌||◌, ◌==◌, Option, none, some,
  List, [], ◌∷◌, length, if◌then◌else◌, ltb, leb, is_empty, str_eq, Decimal, decimal_ltb,
  is_not_positive,
}
use Prim.Native.String
use fake_ui.Prelude.Text.{strip, lower, size, drop, starts_with}
use fake_ui.Prelude.Result.{Result, ok, err, ◌>>=◌, ◌>>◌, raise_if}
use fake_ui.Store.{Status}
use Numbers.{Value, parse_hex_int}

abbrev pub erc20_transfer_topic : String
erc20_transfer_topic = "0xddf252ad1be2c89b69c2b068fc378daa952ba7f163c4a11628f55a4df523b3ef"

unfoldable pub normalize_address : String → String
unfolding strip lower
normalize_address value =
    let text = lower (strip value) in if starts_with text "0x" then text else String.◌++◌ "0x" text

-- `text[-40:]`
unfoldable pub topic_to_address : String → String
unfolding normalize_address
topic_to_address topic =
    let text = normalize_address topic in
    if ltb (size text) 42 then text else String.◌++◌ "0x" (drop (size text - 40) text)

abbrev pub amount_from_units : ℕ → ℕ → Decimal
amount_from_units units places = record { negative = false; coefficient = units; places = places }

-- The parsed text of an amount, `none` for a text that is no finite decimal.
unfoldable pub parse_required_amount : Option Decimal → Result Decimal
parse_required_amount none = err "required_amount must be a positive decimal"
parse_required_amount (some amount) =
    if is_not_positive amount then err "required_amount must be a positive decimal" else ok amount

unfoldable pub parse_decimals : ℕ → Result ℕ
parse_decimals places =
    if ltb 18 places then err "decimals must be an integer between 0 and 18" else ok places

unfoldable pub parse_confirmations_required : ℕ → Result ℕ
parse_confirmations_required n = if n == 0 then err "confirmations_required must be > 0" else ok n

-- Both heights included; 0 for a block that is not mined, or that is ahead of the tip.
unfoldable pub count_confirmations : ℕ → ℕ → ℕ
count_confirmations block tip = if block == 0 || ltb tip block then 0 else tip - block + 1

-- `_confirmations`; the tip is what `eth_blockNumber` gave, which is not negative
unfoldable pub confirmations : Value → ℕ → Result ℕ
unfolding count_confirmations
confirmations block_number tip = do
  block ← parse_hex_int block_number "blockNumber"
  ok (count_confirmations block tip)

unfoldable pub status_for_amount_and_confirmations :
    Decimal → Option Decimal → ℕ → ℕ → Result Status
unfolding parse_required_amount parse_confirmations_required
status_for_amount_and_confirmations detected required_amount found needed = do
  required ← parse_required_amount required_amount
  confirmations_needed ← parse_confirmations_required needed
  ok (
      if decimal_ltb detected required
      then Status.failed
      else if ltb found confirmations_needed
      then Status.detected
      else Status.confirmed)

-- The dictionary that `_result` builds.
pub record Outcome : Type 0 where
  pub status : Status
  pub detected_amount : Option Decimal
  pub confirmations : ℕ
  pub error : String

abbrev result : Status → Decimal → ℕ → String → Outcome
result status amount found error = record {
  status = status;
  detected_amount = some amount;
  confirmations = found;
  error = error;
}

-- `_failed`: an amount of zero in the method's places, or "0"
unfoldable pub failed : String → ℕ → Outcome
failed error places =
    result Status.failed (amount_from_units 0 (if ltb 18 places then 0 else places)) 0
      (if is_empty error then "verification failed" else error)

abbrev pub caught : ℕ → Result Outcome → Outcome
caught places (ok outcome) = outcome
caught places (err e) = failed e places

-- The fields of a log that are read.
pub record Log : Type 0 where
  pub address : String
  pub topics : List String
  pub amount : Value
  pub transaction_hash : String
  pub block_number : Value

-- A log is a transfer of the token to the address.
abbrev topic_at : ℕ → List String → String
topic_at n [] = ""
topic_at zero (t ∷ ts) = t
topic_at (suc n) (t ∷ ts) = topic_at n ts

unfoldable pub is_transfer : String → String → Log → Bool
unfolding normalize_address topic_to_address lower
is_transfer contract to log =
    str_eq (normalize_address log.address) (normalize_address contract)
    && not (ltb (length log.topics) 3)
    && str_eq (lower (topic_at 0 log.topics)) erc20_transfer_topic
    && str_eq (topic_to_address (topic_at 2 log.topics)) (normalize_address to)

-- The loop over the logs; a log that is no transfer is not read further.
unfoldable pub transferred : String → String → List Log → ℕ → Result ℕ
transferred contract to [] total = ok total
transferred contract to (log ∷ logs) total = elim (is_transfer contract to log) [
  | true ↦
      parse_hex_int log.amount "log data" >>= λ units. transferred contract to logs (total + units)
  | false ↦ transferred contract to logs total
]

-- A receipt; `status` is `none` where the key is missing.
pub record Receipt : Type 0 where
  pub block_number : Value
  pub status : Option Value
  pub logs : List Log

-- `_receipt_status_failed`: the texts "0x1" and "1", and the number 1, are a success
unfoldable pub receipt_status_failed : Receipt → Bool
receipt_status_failed r = elim r.status [ none ↦ false | some s ↦ not (Numbers.is_success s) ]

-- The message of an amount that was found and a status.
abbrev pub message : String → ℕ → Status → String
message missing total status = if total == 0 then missing else elim status [
  | Status.failed ↦ "detected amount below required amount"
  | Status.detected ↦ "confirmations below required amount"
  | _ ↦ ""
]

unfoldable pub verify_evm_erc20_receipt :
    Receipt → ℕ → String → String → Option Decimal → ℕ → ℕ → Outcome
unfolding parse_decimals parse_required_amount parse_confirmations_required confirmations
verify_evm_erc20_receipt receipt tip contract to required_amount decimals needed =
    caught decimals do
      places ← parse_decimals decimals
      required ← parse_required_amount required_amount
      confirmations_needed ← parse_confirmations_required needed
      found ← confirmations receipt.block_number tip
      if receipt_status_failed receipt
          then ok (result Status.failed (amount_from_units 0 places) found "transaction failed")
          else do
            total ← transferred contract to receipt.logs 0
            status ←
                status_for_amount_and_confirmations (amount_from_units total places) required_amount
                  found confirmations_needed
            ok (
                result status (amount_from_units total places) found
                  (message "matching ERC20 transfer not found" total status))

-- A native transaction.
pub record Transaction : Type 0 where
  pub block_number : Value
  pub value : Value
  pub to : String

unfoldable pub verify_evm_native_tx : Transaction → ℕ → String → Option Decimal → ℕ → ℕ → Outcome
unfolding parse_decimals parse_required_amount parse_confirmations_required confirmations
    normalize_address
verify_evm_native_tx tx tip to required_amount decimals needed = caught decimals do
  places ← parse_decimals decimals
  required ← parse_required_amount required_amount
  confirmations_needed ← parse_confirmations_required needed
  found ← confirmations tx.block_number tip
  units ← parse_hex_int tx.value "value"
  if not (str_eq (normalize_address tx.to) (normalize_address to))
      then ok
          (result Status.failed (amount_from_units 0 places) found "destination address mismatch")
      else do
        status ←
            status_for_amount_and_confirmations (amount_from_units units places) required_amount
              found confirmations_needed
        ok (result status (amount_from_units units places) found (message "" (suc units) status))

-- A Bitcoin transaction: the outputs as address and value, and `status`.
pub record BtcTransaction : Type 0 where
  pub txid : String
  pub confirmed : Bool
  pub block_height : ℕ
  pub block_time : ℕ
  pub outputs : List (String × ℕ)

unfoldable pub received : String → List (String × ℕ) → ℕ → ℕ
received to [] total = total
received to ((address, value) ∷ outputs) total =
    received to outputs (if str_eq address to then total + value else total)

unfoldable pub btc_confirmations : BtcTransaction → ℕ → ℕ
btc_confirmations tx tip =
    if tx.confirmed && ltb 0 tx.block_height && leb tx.block_height tip
    then tip - tx.block_height + 1
    else 0

unfoldable pub verify_btc_tx : BtcTransaction → ℕ → String → Option Decimal → ℕ → Outcome
unfolding parse_required_amount parse_confirmations_required received btc_confirmations
verify_btc_tx tx tip to required_amount needed = caught 8 do
  required ← parse_required_amount required_amount
  confirmations_needed ← parse_confirmations_required needed
  let total = received to tx.outputs 0
  let found = btc_confirmations tx tip
  status ←
      status_for_amount_and_confirmations (amount_from_units total 8) required_amount found
        confirmations_needed
  ok (
      result status (amount_from_units total 8) found
        (message "matching Bitcoin output not found" total status))
