-- ===== src/Scan/Groups.antt =====
-- What the groups of `_scan_evm_erc20_payment` of baseline/payment_service.py hold of the logs that
-- the nodes gave: the transfers of each transaction, added up.
use fake_ui.Prelude.{
  ℕ, ◌+◌, min, String, Bool, true, false, ◌==◌, Option, none, some, List, [], ◌∷◌, any, All, str_eq,
  eq_iff, eq_refl, ◌≡◌, ◌⊎◌, refl, sym, ap, ◌∙◌, arith, inl, inr, Bool-cases, Option-cases,
}
use mathlib.Core.Path.{subst}
use fake_ui.Prelude.Text.{strip}
use fake_ui.Prelude.Table.{Table, lookup, insert, lookup-insert, lookup-insert_self}
use fake_ui.Prelude.Result.{ok, >>=-eq-ok, ok-injective}
use fake_ui.Store.{Payment, Method}
use fake_ui.Catalog.Distinct.{All-map}
use fake_ui.Verifier.{Log, is_transfer}
use fake_ui.Verifier.Numbers.{parse_hex_int}
use fake_ui.Verifier.Sound.{log_units}
use fake_ui.Scan.{Chain, created_at_floor}
use fake_ui.Scan.Logs.{Group, joined, is_before, add_log, is_candidate, grouped_logs}
use fake_ui.Scan.Paid.{
  IsNew, block_of, is_early, pays, paid, pays_in, paid-skip, paid-count, pays-other,
}

-- Every key stands once.
abbrev IsDistinct : Table Group → Type 0
IsDistinct [] = Unit {0}
IsDistinct ((k, g) ∷ t) = (lookup k t ≡ none) × IsDistinct t

insert-IsDistinct :
    (k : String) (g : Group) (t : Table Group) → IsDistinct t → IsDistinct (insert k g t)
unfolding insert lookup
insert-IsDistinct k g [] h = (refl, tt)
insert-IsDistinct k g ((j, x) ∷ t) h =
    ground (arith, insert-IsDistinct k g t h.1, lookup-insert k j g t, eq_iff j k, eq_iff k j)

-- So the rows are what `lookup` finds.
abbrev IsFound : Table Group → String × Group → Type 0
IsFound t row = lookup row.0 t ≡ some row.1

pub rows-IsFound : (t : Table Group) → IsDistinct t → All (IsFound t) t
unfolding lookup
rows-IsFound [] h = tt
rows-IsFound ((k, g) ∷ t) h = (
  rw (eq_refl k) refl,
  All-map
      (λ (row : String × Group) (found : IsFound t row). elim (Bool-cases (str_eq k row.0)) [
        | inl same ↦ absurd (
            let here : lookup k t ≡ some row.1 =
              ap (λ j. lookup j t) ((eq_iff k row.0).0 same) ∙ found in
            cc (here, h.0))
        | inr other ↦ rw other found
      ])
      t (rows-IsFound t h.1),
)

abbrev pub units_of : Option Group → ℕ
units_of none = 0
units_of (some g) = g.units

==-refl : (n : ℕ) → (n == n) ≡ true
==-refl n = ground arith

lookup-insert_other :
    (k j : String) (g : Group) (t : Table Group)
    → str_eq k j ≡ false
    → lookup j (insert k g t) ≡ lookup j t
lookup-insert_other k j g t differ = rw (lookup-insert, differ) refl

min-cases : (a b : ℕ) → (min a b ≡ a) ⊎ (min a b ≡ b)
min-cases a b = ground arith

module _ (payments : Table Payment) (chain : Chain) (payment : Payment) (method : Method)
    (all : List Log) where
  -- The groups when the logs of `rest` are still to be read.
  pub record Grouped (rest : List Log) (t : Table Group) : Type 0 where
    pub distinct : IsDistinct t
    pub new : (k : String) (g : Group) → lookup k t ≡ some g → IsNew payments payment k
    pub sum :
        (k : String)
        → IsNew payments payment k
        → paid chain payment method k all ≡ units_of (lookup k t) + paid chain payment method k rest
    pub block :
        (k : String) (g : Group)
        → lookup k t ≡ some g
        → any (pays_in chain payment method k g.block_number) all ≡ true
    pub suffix : (p : Log → Bool) → any p rest ≡ true → any p all ≡ true

  skip-Grouped :
      (log : Log) (rest : List Log) (t : Table Group)
      → ((k : String) → IsNew payments payment k → pays chain payment method k log ≡ false)
      → Grouped (log ∷ rest) t
      → Grouped rest t
  skip-Grouped log rest t other h = record {
    distinct = h.distinct;
    new = h.new;
    sum = λ k new.
        omega (arith, h.sum k new, paid-skip chain payment method k log rest (other k new));
    block = h.block;
    suffix = λ p there. h.suffix p (ground (arith, there));
  }

  -- A log that pays makes its group larger by its units.
  insert-Grouped :
      (log : Log) (rest : List Log) (t : Table Group) (k : String) (g : Group)
      → IsNew payments payment k
      → strip log.transaction_hash ≡ k
      → pays chain payment method k log ≡ true
      → g.units ≡ units_of (lookup k t) + log_units log
      → any (pays_in chain payment method k g.block_number) all ≡ true
      → Grouped (log ∷ rest) t
      → Grouped rest (insert k g t)
  insert-Grouped log rest t k g new own counts units block h = record {
    distinct = insert-IsDistinct k g t h.distinct;
    new = λ j x found. ground (arith, lookup-insert k j g t, eq_iff k j, h.new j x);
    sum = λ j fresh. elim (Bool-cases (str_eq k j)) [
      | inl same ↦
          let there : k ≡ j = (eq_iff k j).0 same in
          subst
            (λ i.
              paid chain payment method i all
              ≡ units_of (lookup i (insert k g t)) + paid chain payment method i rest)
            there
            (omega (
              arith,
              h.sum k new,
              paid-count chain payment method k log rest counts,
              units,
              ap units_of (lookup-insert_self k g t),
            ))
      | inr differ ↦ omega (
        arith,
        h.sum j fresh,
        paid-skip chain payment method j log rest
            (pays-other chain payment method k j log own differ),
        ap units_of (lookup-insert_other k j g t differ),
      )
    ];
    block = λ j x found. elim (Bool-cases (str_eq k j)) [
      | inl same ↦
          let there : k ≡ j = (eq_iff k j).0 same in
          let row : some g ≡ some x =
            sym (lookup-insert_self k g t) ∙ ap (λ i. lookup i (insert k g t)) there ∙ found in
          let here : g ≡ x = cc row in
          subst (λ (y : Group). any (pays_in chain payment method j y.block_number) all ≡ true) here
            (subst (λ i. any (pays_in chain payment method i g.block_number) all ≡ true) there
              block)
      | inr differ ↦ h.block j x (sym (lookup-insert_other k j g t differ) ∙ found)
    ];
    suffix = λ p there. h.suffix p (ground (arith, there));
  }

  -- The group that a log of a transaction joins.
  joined-Grouped :
      (log : Log) (rest : List Log) (t : Table Group) (b units : ℕ)
      → IsNew payments payment (strip log.transaction_hash)
      → pays chain payment method (strip log.transaction_hash) log ≡ true
      → block_of log ≡ ok b
      → parse_hex_int log.amount "log data" ≡ ok units
      → Grouped (log ∷ rest) t
      → Grouped rest (joined (strip log.transaction_hash) b units t)
  unfolding joined
  joined-Grouped log rest t b units new counts mined read h =
      let k = strip log.transaction_hash in
      let amount : log_units log ≡ units = rw read refl in
      let here : any (pays_in chain payment method k b) all ≡ true =
        h.suffix (pays_in chain payment method k b) (rw (counts, mined) (rw (==-refl b) refl)) in
      elim (Option-cases (lookup k t)) [
        | inl first ↦
            rw (first, joined)
              (insert-Grouped log rest t k (record { units = units; block_number = b }) new refl
                counts (omega (arith, amount, ap units_of first)) here h)
        | inr (g, more) ↦
            let least : any (pays_in chain payment method k (min g.block_number b)) all ≡ true =
              elim (min-cases g.block_number b) [
                | inl old ↦ rw old (h.block k g more)
                | inr late ↦ rw late here
              ] in
            rw (more, joined)
              (insert-Grouped log rest t k
                (record { units = g.units + units; block_number = min g.block_number b }) new refl
                counts (omega (arith, amount, ap units_of more)) least h)
      ]

  added-Grouped :
      (log : Log) (rest : List Log) (t t' : Table Group)
      → IsNew payments payment (strip log.transaction_hash)
      → is_transfer method.token_contract method.address log ≡ true
      → add_log chain (created_at_floor payment) log (strip log.transaction_hash) t ≡ ok t'
      → Grouped (log ∷ rest) t
      → Grouped rest t'
  unfolding add_log
  added-Grouped log rest t t' new transfer e h =
      let k = strip log.transaction_hash in
      let (block, mined, e1) = >>=-eq-ok (block_of log) _ e in
      let (early, timed, e2) = >>=-eq-ok (is_before chain (created_at_floor payment) block) _ e1 in
      let tested : is_early chain payment method log ≡ early = rw (mined, timed) refl in
      elim (Bool-cases early) [
        | inl old ↦
            let same : t ≡ t' = ok-injective t t' (rw old at e2) in
            subst (Grouped rest) same
              (skip-Grouped log rest t (λ j _. ground (arith, tested, old)) h)
        | inr late ↦
            let (units, read, e3) =
              >>=-eq-ok (parse_hex_int log.amount "log data") _ (rw late at e2) in
            subst (Grouped rest) (ok-injective _ t' e3) (
              joined-Grouped log rest t block units new
                (ground (arith, transfer, tested, late, eq_refl k)) mined read h)
      ]

  pub nothing-Grouped : Grouped all []
  unfolding lookup
  nothing-Grouped = record {
    distinct = tt;
    new = λ k g found. absurd cc;
    sum = λ k new. omega arith;
    block = λ k g found. absurd cc;
    suffix = λ p there. there;
  }

  not_candidate :
      (k : String) (log : Log)
      → IsNew payments payment k
      → is_candidate payments payment method log ≡ false
      → pays chain payment method k log ≡ false
  unfolding is_candidate
  not_candidate k log new other = elim (Bool-cases (str_eq (strip log.transaction_hash) k)) [
    | inl same ↦
        let own : k ≡ strip log.transaction_hash =
          sym ((eq_iff (strip log.transaction_hash) k).0 same) in
        let here = subst (IsNew payments payment) own new in ground (arith, here, other)
    | inr differ ↦ rw differ (ground arith)
  ]

  candidate_is :
      (log : Log)
      → is_candidate payments payment method log ≡ true
      → (is_transfer method.token_contract method.address log ≡ true)
        × IsNew payments payment (strip log.transaction_hash)
  unfolding is_candidate
  candidate_is log counts = (ground arith, (ground arith, ground arith))

  -- After all logs, the groups hold what the transactions pay in all.
  pub grouped_logs-Grouped :
      (logs : List Log) (t t' : Table Group)
      → grouped_logs chain payments payment method logs t ≡ ok t'
      → Grouped logs t
      → Grouped [] t'
  unfolding grouped_logs
  grouped_logs-Grouped [] t t' e h = subst (Grouped []) (ok-injective t t' e) h
  grouped_logs-Grouped (log ∷ logs) t t' e h =
      elim (Bool-cases (is_candidate payments payment method log)) [
        | inr other ↦
            grouped_logs-Grouped logs t t' (rw (other, grouped_logs) at e)
              (skip-Grouped log logs t (λ k new. not_candidate k log new other) h)
        | inl counts ↦
            let (grouped, added, rest) =
              >>=-eq-ok
                (add_log chain (created_at_floor payment) log (strip log.transaction_hash) t)
                (grouped_logs chain payments payment method logs)
                (rw (counts, grouped_logs) at e) in
            let (transfer, new) = candidate_is log counts in
            grouped_logs-Grouped logs grouped t' rest
              (added-Grouped log logs t grouped new transfer added h)
      ]
