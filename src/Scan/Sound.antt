-- ===== src/Scan/Sound.antt =====
-- What a scan confirms: one transfer under a new transaction id, that is large and deep enough.
use fake_ui.Prelude.{
  ℕ, ◌+◌, any, ◌≤◌, ◌<◌, String, true, false, ◌≡◌, refl, ap, ◌∙◌, Option, none, some, List, [], ◌∷◌,
  All, Decimal, decimal_ltb, is_not_positive, arith,
}
use mathlib.Core.Path.{subst}
use fake_ui.Prelude.Table.{Table, lookup}
use fake_ui.Prelude.Result.{ok, ◌>>=◌, >>=-eq-ok, ok-injective}
use fake_ui.Store.{Payment, Method, Status}
use fake_ui.Service.{Verification}
use fake_ui.Verifier.{Log, amount_from_units, parse_decimals}
use fake_ui.Verifier.Numbers.{parse_hex_int}
use fake_ui.Scan.{Chain, scan_from_block}
use fake_ui.Scan.Range.{scan_evm_logs}
use fake_ui.Scan.Choose.{Candidate, choose, found}
use fake_ui.Scan.Paid.{IsNew, paid, pays_in}
use fake_ui.Scan.Groups.{units_of, rows-IsFound, Grouped, grouped_logs-Grouped, nothing-Grouped}
use fake_ui.Catalog.Distinct.{All-map}
use fake_ui.Verifier.Erc20.{parse_decimals-eq_ok}
use fake_ui.Scan.Logs.{
  Group, Match, low, detected, confirmed, grouped_logs, confirmed_status, depth, sorted_in,
  sort_groups, scan_evm_erc20_payment,
}

-- The amount and the depth that a payment asks for.
pub record Suffices (asked : Option Decimal) (needed : ℕ) (amount : Decimal) (found : ℕ)
    : Type 0 where
  pub required : Decimal
  pub is_asked : asked ≡ some required
  pub positive : is_not_positive required ≡ false
  pub covers : decimal_ltb amount required ≡ false
  pub deep : needed ≤ found
  pub some_needed : 0 < needed

confirmed_status-Suffices :
    (asked : Option Decimal) (needed : ℕ) (amount : Decimal) (found : ℕ)
    → confirmed_status amount asked found needed ≡ ok confirmed
    → Suffices asked needed amount found
unfolding confirmed_status
confirmed_status-Suffices none needed amount found e = absurd cc
confirmed_status-Suffices (some required) needed amount found e = record {
  required = required;
  is_asked = refl;
  positive = ground arith;
  covers = ground arith;
  deep = ground arith;
  some_needed = ground arith;
}

module _ (chain : Chain) (payments : Table Payment) (payment : Payment) (method : Method)
    (current : ℕ) (logs : List Log) where
  -- What the transaction pays, as an amount.
  abbrev pub paid_amount : String → Decimal
  paid_amount txid = amount_from_units (paid chain payment method txid logs) method.decimals

  -- A transaction that no other payment has, of which the logs hold a transfer in a block `found`
  -- deep, both ends counted, and that pays the amount.
  pub record PaidBy (txid : String) (amount : Decimal) (found : ℕ) : Type 0 where
    pub new : IsNew payments payment txid
    pub block : ℕ
    pub mined : any (pays_in chain payment method txid block) logs ≡ true
    pub counted : found + block ≡ current + 1
    pub pays : amount ≡ paid_amount txid
    pub sufficient : Suffices payment.crypto_amount method.confirmations_required amount found

  -- What the list of good candidates holds.
  abbrev AllPay : List Candidate → Type 0
  AllPay good = All (λ (c : Candidate). PaidBy c.txid c.detected_amount c.confirmations) good

  -- What is known of a group.
  abbrev IsGroup : String × Group → Type 0
  IsGroup row =
      IsNew payments payment row.0
      × (row.1.units ≡ paid chain payment method row.0 logs)
      × (any (pays_in chain payment method row.0 row.1.block_number) logs ≡ true)

  Grouped-IsGroup :
      (t : Table Group) → Grouped payments chain payment method logs [] t → All IsGroup t
  Grouped-IsGroup t h =
      All-map
        (λ (row : String × Group) (found : lookup row.0 t ≡ some row.1).
          let new = h.new row.0 row.1 found in
          (new, omega (arith, h.sum row.0 new, ap units_of found), h.block row.0 row.1 found))
        t (rows-IsFound t h.distinct)

  depth-counted :
      (block needed : ℕ)
      → 0 < needed
      → needed ≤ depth current block
      → depth current block + block ≡ current + 1
  depth-counted block needed some_needed deep = ground arith

  sorted_in-AllPay :
      (txid : String) (g : Group) (places : ℕ) (status : Match)
      (others : List Candidate × List Candidate)
      → IsGroup (txid, g)
      → places ≡ method.decimals
      → confirmed_status
          (amount_from_units g.units places)
          payment.crypto_amount
          (depth current g.block_number)
          method.confirmations_required
        ≡ ok status
      → AllPay others.0
      → AllPay
          (sorted_in txid
            (amount_from_units g.units places)
            (depth current g.block_number)
            status
            others).0
  sorted_in-AllPay txid g places confirmed others (new, units, mined) same e h =
      let enough =
        confirmed_status-Suffices payment.crypto_amount method.confirmations_required
          (amount_from_units g.units places) (depth current g.block_number) e in
      (
        record {
          new = new;
          block = g.block_number;
          mined = mined;
          counted =
              depth-counted g.block_number method.confirmations_required enough.some_needed
                enough.deep;
          pays =
              ap (λ u. amount_from_units u places) units
              ∙ ap (amount_from_units (paid chain payment method txid logs)) same;
          sufficient = enough;
        },
        h,
      )
  sorted_in-AllPay txid g places detected others group same e h = h
  sorted_in-AllPay txid g places low others group same e h = h

  sort_groups-AllPay :
      (t : Table Group) (sorted : List Candidate × List Candidate)
      → All IsGroup t
      → sort_groups payment method current t ≡ ok sorted
      → AllPay sorted.0
  unfolding sort_groups
  sort_groups-AllPay [] sorted h e = rw (← ok-injective _ sorted e) tt
  sort_groups-AllPay ((txid, g) ∷ t) sorted h e =
      let (places, e1, r1) = >>=-eq-ok (parse_decimals method.decimals) _ e in
      let (status, e2, r2) =
        >>=-eq-ok
          (confirmed_status (amount_from_units g.units places) payment.crypto_amount
            (depth current g.block_number) method.confirmations_required)
          _ r1 in
      let (others, e3, r3) = >>=-eq-ok (sort_groups payment method current t) _ r2 in
      rw (← ok-injective _ sorted r3) (
        sorted_in-AllPay txid g places status others h.0
          (parse_decimals-eq_ok method.decimals places e1).0 e2
          (sort_groups-AllPay t others h.1 e3))

  -- A verification that names a transaction that pays.
  abbrev pub IsPaidBy : Verification → Type 0
  IsPaidBy v =
      (amount : Decimal) × (v.detected_amount ≡ some amount) × PaidBy v.txid amount v.confirmations

  choose-confirmed :
      (good bad : List Candidate)
      → AllPay good
      → (choose payment good bad).status ≡ Status.confirmed
      → IsPaidBy (choose payment good bad)
  unfolding choose
  choose-confirmed (c ∷ []) bad h e = (c.detected_amount, refl, h.0)
  choose-confirmed (c ∷ d ∷ rest) bad h e = absurd cc
  choose-confirmed [] (c ∷ rest) h e = absurd cc
  choose-confirmed [] [] h e = absurd cc

module _ (payments : Table Payment) (payment : Payment) where
  -- The tip and the logs that a scan got from the nodes, and the transaction in them that pays.
  pub record Scanned (chain : Chain) (method : Method) (v : Verification) : Type 0 where
    pub current : ℕ
    pub logs : List Log
    pub tip : (chain.block_number >>= λ answer. parse_hex_int answer "blockNumber") ≡ ok current
    pub read :
        scan_evm_logs chain.logs (scan_from_block chain payment method current) current ≡ ok logs
    pub paid_by : IsPaidBy chain payments payment method current logs v

  pub scan_confirms_sufficient :
      (chain : Chain) (method : Method) (v : Verification)
      → scan_evm_erc20_payment chain payments payment method ≡ ok v
      → v.status ≡ Status.confirmed
      → Scanned chain method v
  unfolding scan_evm_erc20_payment
  scan_confirms_sufficient chain method v e confirms =
      let (answer, e1, r1) = >>=-eq-ok chain.block_number _ e in
      let (current, e2, r2) = >>=-eq-ok (parse_hex_int answer "blockNumber") _ r1 in
      let (logs, e3, r3) =
        >>=-eq-ok (scan_evm_logs chain.logs (scan_from_block chain payment method current) current)
          _ r2 in
      let (grouped, e4, r4) = >>=-eq-ok (grouped_logs chain payments payment method logs []) _ r3 in
      let (sorted, e5, r5) = >>=-eq-ok (sort_groups payment method current grouped) _ r4 in
      let chosen : choose payment sorted.0 sorted.1 ≡ v = ok-injective _ v r5 in
      let all =
        grouped_logs-Grouped payments chain payment method logs logs [] grouped e4
          (nothing-Grouped payments chain payment method logs) in
      record {
        current = current;
        logs = logs;
        tip = rw (e1, e2) refl;
        read = e3;
        paid_by = subst (IsPaidBy chain payments payment method current logs) chosen (
            choose-confirmed chain payments payment method current logs sorted.0 sorted.1
              (sort_groups-AllPay chain payments payment method current logs grouped sorted
                (Grouped-IsGroup chain payments payment method current logs grouped all) e5)
              (ap (λ (x : Verification). x.status) chosen ∙ confirms));
      }
