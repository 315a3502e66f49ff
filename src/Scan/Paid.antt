-- ===== src/Scan/Paid.antt =====
-- What a transaction pays for a payment, by the logs that the nodes gave: the sense of the groups of
-- `_scan_evm_erc20_payment` of baseline/payment_service.py.
use fake_ui.Prelude.{
  ℕ, ◌+◌, String, Bool, true, false, not, ◌&&◌, ◌==◌, List, ◌∷◌, filter, is_empty, str_eq, ◌≡◌,
  refl, ap, ◌∙◌, arith,
}
use fake_ui.Prelude.Text.{strip}
use fake_ui.Prelude.Table.{Table}
use fake_ui.Prelude.Result.{Result, ok, err, ◌>>=◌}
use fake_ui.Store.{Payment, Method}
use fake_ui.Payments.{txid_used}
use fake_ui.Verifier.{Log, is_transfer}
use fake_ui.Verifier.Numbers.{parse_hex_int}
use fake_ui.Verifier.Sound.{log_units, total_units}
use fake_ui.Scan.{Chain, created_at_floor}
use fake_ui.Scan.Logs.{is_before}

-- A transaction id that the payment may use.
abbrev pub IsNew : Table Payment → Payment → String → Type 0
IsNew payments payment txid = (is_empty txid ≡ false) × (txid_used txid payment.id payments ≡ false)

abbrev pub is_yes : Result Bool → Bool
is_yes (ok b) = b
is_yes (err e) = false

abbrev pub is_number : ℕ → Result ℕ → Bool
is_number n (ok m) = m == n
is_number n (err e) = false

abbrev pub block_of : Log → Result ℕ
block_of log = parse_hex_int log.block_number "blockNumber"

module _ (chain : Chain) (payment : Payment) (method : Method) where
  -- The log's block is older than the payment.
  abbrev pub is_early : Log → Bool
  is_early log = is_yes (block_of log >>= is_before chain (created_at_floor payment))

  -- A transfer of the method's token to its address under the transaction id, not before the
  -- payment was created.
  abbrev pub pays : String → Log → Bool
  pays txid log =
      is_transfer method.token_contract method.address log
      && str_eq (strip log.transaction_hash) txid
      && not (is_early log)

  -- What the transaction pays in all.
  abbrev pub paid : String → List Log → ℕ
  paid txid logs = total_units (filter (pays txid) logs)

  -- A transfer that pays, in the block.
  abbrev pub pays_in : String → ℕ → Log → Bool
  pays_in txid block log = pays txid log && is_number block (block_of log)

  pub paid-skip :
      (txid : String) (log : Log) (rest : List Log)
      → pays txid log ≡ false
      → paid txid (log ∷ rest) ≡ paid txid rest
  paid-skip txid log rest other = rw other refl

  pub paid-count :
      (txid : String) (log : Log) (rest : List Log)
      → pays txid log ≡ true
      → paid txid (log ∷ rest) ≡ log_units log + paid txid rest
  paid-count txid log rest counts = rw counts refl

  -- A log pays under its own transaction id only.
  pub pays-other :
      (k j : String) (log : Log)
      → strip log.transaction_hash ≡ k
      → str_eq k j ≡ false
      → pays j log ≡ false
  pays-other k j log own differ =
      let other : str_eq (strip log.transaction_hash) j ≡ false =
        ap (λ i. str_eq i j) own ∙ differ in
      rw other (ground arith)
