-- ===== src/Tests/VerifierExamples.antt =====
-- Receipts at concrete inputs.
use fake_ui.Prelude.{String, ◌↔◌, ◌≡◌, refl, some, [], ◌∷◌}
use fake_ui.Store.{Status}
use fake_ui.Verifier.Numbers.{Value}
use fake_ui.Verifier.{Log, Receipt, erc20_transfer_topic, verify_evm_erc20_receipt}
use fake_ui.Verifier.Sound.{IsPaid}
use fake_ui.Verifier.Erc20.{confirmed_iff_IsPaid}
use fake_ui.Tests.Fixtures.{amount}

abbrev token : String
token = "0xDEF0000000000000000000000000000000000def"

abbrev shop : String
shop = "0xabc0000000000000000000000000000000000ABC"

abbrev transfer : Log
transfer = record {
  address = token;
  topics =
      erc20_transfer_topic ∷ "0x00"
      ∷ "0x000000000000000000000000ABC0000000000000000000000000000000000abc" ∷ [];
  amount = Value.text "0x895440";
  transaction_hash = "0x01";
  block_number = Value.text "0x64";
}

abbrev receipt : Receipt
receipt = record {
  block_number = Value.text "0x64";
  status = some (Value.text "0x1");
  logs = transfer ∷ [];
}

-- 9 units of a token with 6 places, three blocks deep.
receipt_confirmed :
    (verify_evm_erc20_receipt receipt 102 token shop (some amount) 6 3).status ≡ Status.confirmed
unfolding verify_evm_erc20_receipt fake_ui.Verifier.Numbers.parse_hex_int
    fake_ui.Verifier.receipt_status_failed fake_ui.Verifier.Numbers.is_success
    fake_ui.Verifier.transferred fake_ui.Verifier.is_transfer
    fake_ui.Verifier.status_for_amount_and_confirmations
receipt_confirmed = refl

confirmed_iff_IsPaid_example :
    ((verify_evm_erc20_receipt receipt 102 token shop (some amount) 6 3).status ≡ Status.confirmed)
    ↔ IsPaid receipt 102 token shop (some amount) 6 3
confirmed_iff_IsPaid_example = confirmed_iff_IsPaid receipt 102 token shop (some amount) 6 3
