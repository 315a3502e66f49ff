-- ===== src/Tests/ScanExamples.antt =====
-- A scan at a concrete chain: two blocks, of which the second holds the transfer.
use fake_ui.Prelude.{
  ℕ, ◌==◌, String, false, some, List, [], ◌∷◌, ◌≡◌, refl, inr, if◌then◌else◌, arith,
}
use fake_ui.Prelude.Text.{lower}
use fake_ui.Prelude.Table.{lookup, insert}
use fake_ui.Prelude.Result.{ok, err}
use fake_ui.Store.{Method, Payment, Status}
use fake_ui.Service.{Verification, verified, found_txid}
use fake_ui.Payments.{update_payment}
use fake_ui.Scan.Written.{IsStored, scanned_payment_is_written}
use fake_ui.Verifier.{Log, erc20_transfer_topic}
use fake_ui.Verifier.Numbers.{Value}
use fake_ui.Scan.{Chain}
use fake_ui.Scan.Range.{
  GetLogs, IsNode, logs_from, is_evm_log_range_error, scan_evm_logs, scan_evm_logs_complete,
}
use fake_ui.Scan.Logs.{scan_evm_erc20_payment}
use fake_ui.Tests.Fixtures.{payment, method, world, env, payments-IsValid}

abbrev token : String
token = "0xDEF0000000000000000000000000000000000def"

abbrev shop : String
shop = "0xabc0000000000000000000000000000000000ABC"

abbrev shop_method : Method
shop_method = record method { chain = "bsc"; address = shop; token_contract = token }

abbrev transfer : Log
transfer = record {
  address = token;
  topics =
      erc20_transfer_topic ∷ "0x00"
      ∷ "0x000000000000000000000000ABC0000000000000000000000000000000000abc" ∷ [];
  amount = Value.text "0x895440";
  transaction_hash = "0x01";
  block_number = Value.text "0x1";
}

-- A node that serves one block at a time.
abbrev block : ℕ → List Log
block n = if n == 1 then transfer ∷ [] else []

abbrev get : GetLogs
get start end = if start == end then ok (block start) else err "Limit exceeded"

get-IsNode : IsNode block get
unfolding is_evm_log_range_error lower
get-IsNode = record {
  single = λ n. ground arith;
  several = λ start end h. inr ("Limit exceeded", ground arith, refl);
}

scan_evm_logs_complete_example : scan_evm_logs get 0 3 ≡ ok (logs_from block 0 4)
scan_evm_logs_complete_example = scan_evm_logs_complete block get get-IsNode 0 3 (omega arith)

abbrev chain : Chain
chain = record {
  block_number = ok (Value.text "0x3");
  timestamp = λ n. ok 2000;
  logs = get;
  receipt = λ txid. err "no receipt";
  transaction = λ txid. err "no transaction";
  explorers = [];
}

abbrev scanned : Verification
scanned = record {
  status = Status.confirmed;
  detected_amount = some (record { negative = false; coefficient = 9000000; places = 6 });
  confirmations = 3;
  error = "";
  txid = "0x01";
}

scanned_payment_is_written_example :
    (q : Payment) × IsStored "pay" q
      (update_payment env "pay" (found_txid scanned) (verified env scanned) world)
    × (q.status ≡ Status.confirmed)
    × (q.detected_amount ≡ scanned.detected_amount)
    × (q.confirmations ≡ scanned.confirmations)
unfolding scan_evm_erc20_payment fake_ui.Verifier.Numbers.parse_hex_int is_evm_log_range_error
    insert lookup
scanned_payment_is_written_example =
    scanned_payment_is_written env "pay" payment world payments-IsValid refl chain shop_method
      scanned refl refl
