-- ===== src/Scan.antt =====
-- The scans of baseline/payment_service.py: finding the transfer that pays when no transaction id
-- was submitted, and `verify_payment`, which chooses how a payment is verified.
-- What nodes and explorers answer is the parameter `Chain`.
pub mod Range
pub mod Logs
pub mod Paid
pub mod Groups
pub mod Choose
pub mod Verify
pub mod Sound
pub mod Written
use fake_ui.Prelude.{
  ℕ, ◌-◌, ◌*◌, ◌+◌, ◌/◌, max, String, Bool, true, false, Option, none, some, List, if◌then◌else◌,
  str_eq, ◌==◌, ltb,
}
use fake_ui.Prelude.Text.{strip, lower}
use fake_ui.Prelude.Result.{Result, ok, err, ◌>>=◌}
use fake_ui.Store.{Payment, Method}
use fake_ui.Verifier.{Log, Receipt, Transaction, BtcTransaction}
use fake_ui.Verifier.Numbers.{Value}

-- One of the Bitcoin explorers: the address's transactions, the height of the tip, a transaction.
pub record BtcApi : Type 0 where
  pub transactions : Result (List BtcTransaction)
  pub tip_height : Result ℕ
  pub transaction : String → Result BtcTransaction

-- What `rpc_call` gives for the method's nodes, and its explorers in their order. `timestamp` is
-- `hex_int` of a block's timestamp, 0 where there is none.
pub record Chain : Type 0 where
  pub block_number : Result Value
  pub timestamp : ℕ → Result ℕ
  pub logs : ℕ → ℕ → Result (List Log)
  pub receipt : String → Result Receipt
  pub transaction : String → Result Transaction
  pub explorers : List BtcApi

abbrev pub chain_name : Method → String
chain_name method = lower (strip method.chain)

-- `_block_timestamp`
abbrev pub time_of : ℕ → Option ℕ
time_of timestamp = if timestamp == 0 then none else some timestamp

unfoldable pub block_timestamp : Chain → ℕ → Result (Option ℕ)
block_timestamp chain block = chain.timestamp block >>= λ t. ok (time_of t)

-- `created_at - PAYMENT_TIME_SKEW_SECONDS`
unfoldable pub created_at_floor : Payment → Option ℕ
created_at_floor p = elim p.created_at [ none ↦ none | some t ↦ some (t - 60) ]

-- EVM_CHAIN_BLOCK_SECONDS and EVM_MIN_SCAN_BLOCKS, with their defaults
abbrev block_seconds : String → ℕ
block_seconds chain = if str_eq chain "bsc" then 3 else if str_eq chain "ethereum" then 12 else 6

abbrev min_scan_blocks : String → ℕ
min_scan_blocks chain = if str_eq chain "bsc" then 6000 else 1200

-- EVM_SCAN_BLOCK_LOOKBACK where the method has none
abbrev lookback : Method → ℕ
lookback method = if method.scan_block_lookback == 0 then 200000 else method.scan_block_lookback

abbrev pub caught_time : Result (Option ℕ) → Option ℕ
caught_time (ok t) = t
caught_time (err e) = none

-- How many blocks back a payment of that age may lie.
unfoldable pub scan_blocks : String → ℕ → ℕ
scan_blocks chain seconds = max (max 1 (seconds / block_seconds chain + 20)) (min_scan_blocks chain)

abbrev from_times : Method → ℕ → Option ℕ → Option ℕ → ℕ
from_times method current none _ = current - lookback method
from_times method current (some floor) none = current - lookback method
from_times method current (some floor) (some time) =
    max (current - lookback method) (current - scan_blocks (chain_name method) (time - floor))

unfoldable pub scan_from_block : Chain → Payment → Method → ℕ → ℕ
unfolding created_at_floor block_timestamp scan_blocks
scan_from_block chain payment method current =
    from_times method current (created_at_floor payment)
      (caught_time (block_timestamp chain current))
