-- ===== src/Pairing/Once.antt =====
-- A pairing of baseline/agent_pairing.py is consumed once, by whoever has its token, and calls of
-- other agents may stand between any two.
use fake_ui.Prelude.{
  ℕ, String, true, Option, some, List, [], ◌∷◌, All, str_eq, ◌≡◌, ◌≢◌, refl, sym, ap, ◌∙◌,
  Bool-cases, inl, inr,
}
use mathlib.Core.Path.{subst}
use fake_ui.Prelude.Text.{strip}
use fake_ui.Prelude.Table.{
  lookup, insert, is_some, lookup-insert, lookup-insert_self, lookup-insert_ne,
}
use fake_ui.Prelude.Result.{Result, ok, err, >>=-eq-ok, ok-injective}
use fake_ui.Tunnels.Clean.{clean_id}
use fake_ui.Pairing.{
  Pairing, Pairings, Draws, drawn_id, create_pairing, cleaned_pairing, written, new_pairing,
  pairing_snapshot, mark_pairing_used, validate_pairing_record, marked, update_store, committed,
  clean_bundle_kind, clean_pairing_platform, changed,
}
use fake_ui.Pairing.Marked.{mark_pairing_used-Marked}

module _ (token_hash : String → String) where
  -- The calls that agents and the panel make, in the order in which their transactions commit.
  pub data Call : Type 0 where
    create : ℕ → Draws → String → String → String → String → ℕ → Call
    snapshot : ℕ → String → String → Call
    mark : ℕ → String → String → Option Pairing → Call

  abbrev pub step : Call → Pairings → Pairings
  step (create now draws kind bridge platform by ttl) rows =
      (create_pairing token_hash now draws kind bridge platform by ttl rows).1
  step (snapshot now id token) rows = (pairing_snapshot token_hash now id token rows).1
  step (mark now id token expected) rows =
      (mark_pairing_used token_hash now id token expected rows).1

  unfoldable pub run : List Call → Pairings → Pairings
  run [] rows = rows
  run (c ∷ calls) rows = run calls (step c rows)

  -- The id is not drawn again.
  abbrev pub Leaves : String → Call → Type 0
  Leaves id (create now draws kind bridge platform by ttl) = drawn_id draws ≢ id
  Leaves id (snapshot now other token) = Unit
  Leaves id (mark now other token expected) = Unit

  -- A pairing stands under the id, and was used.
  abbrev IsUsed : String → Pairings → Type 0
  IsUsed id rows = (r : Pairing) × (lookup id rows ≡ some r) × (is_some r.used_at ≡ true)

  written-IsUsed :
      (id : String) (draws : Draws) (created : Result Pairing) (rows : Pairings)
      → drawn_id draws ≢ id
      → ((row : Pairing) → created ≡ ok row → row.token_id ≡ drawn_id draws)
      → IsUsed id rows
      → IsUsed id (written draws created rows).1
  unfolding update_store
  written-IsUsed id draws (err e) rows ne drawn h = h
  written-IsUsed id draws (ok row) rows ne drawn (r, found, used) = (
    r,
    lookup-insert_ne row.token_id id row rows (λ e. ne (sym (drawn row refl) ∙ e)) ∙ found,
    used,
  )

  insert-IsUsed :
      (id key : String) (used : Pairing) (rows : Pairings)
      → is_some used.used_at ≡ true
      → IsUsed id rows
      → IsUsed id (insert key used rows)
  insert-IsUsed id key row rows now_used (r, found, used) = elim (Bool-cases (str_eq key id)) [
    | inl here ↦ (row, lookup-insert key id row rows ∙ rw here, now_used)
    | inr other ↦ (r, lookup-insert key id row rows ∙ (rw other found), used)
  ]

  marked-IsUsed :
      (id : String) (now : ℕ) (other : String) (expected : Option Pairing) (valid : Result Pairing)
      (rows : Pairings)
      → IsUsed id rows
      → IsUsed id (committed (marked now other expected valid rows) rows).1
  marked-IsUsed id now other expected (err e) rows h = h
  marked-IsUsed id now other expected (ok r) rows h = elim (Bool-cases (changed r expected)) [
    | inl differs ↦ rw differs h
    | inr same ↦
        rw same (insert-IsUsed id (strip other) (record r { used_at = some now }) rows refl h)
  ]

  create-IsUsed :
      (id : String) (now : ℕ) (draws : Draws) (kind bridge platform by : String) (ttl : ℕ)
      (rows : Pairings)
      → drawn_id draws ≢ id
      → IsUsed id rows
      → IsUsed id (create_pairing token_hash now draws kind bridge platform by ttl rows).1
  unfolding create_pairing new_pairing
  create-IsUsed id now draws kind bridge platform by ttl rows ne h =
      written-IsUsed id draws (cleaned_pairing token_hash now draws kind bridge platform by ttl)
        rows ne
        (λ row e.
          let (k, _, e1) = >>=-eq-ok (clean_bundle_kind kind) _ e in
          let (b, _, e2) = >>=-eq-ok (clean_id bridge) _ e1 in
          let (p, _, e3) = >>=-eq-ok (clean_pairing_platform platform) _ e2 in
          ap (λ (r : Pairing). r.token_id)
            (sym (ok-injective (new_pairing token_hash now draws k b p by ttl) row e3)))
        h

  run-IsUsed :
      (id : String) (calls : List Call) (rows : Pairings)
      → All (Leaves id) calls
      → IsUsed id rows
      → IsUsed id (run calls rows)
  unfolding run mark_pairing_used update_store pairing_snapshot
  run-IsUsed id [] rows leaves h = h
  run-IsUsed id (create now draws kind bridge platform by ttl ∷ calls) rows leaves h =
      run-IsUsed id calls (create_pairing token_hash now draws kind bridge platform by ttl rows).1
        leaves.1 (create-IsUsed id now draws kind bridge platform by ttl rows leaves.0 h)
  run-IsUsed id (snapshot now other token ∷ calls) rows leaves h =
      run-IsUsed id calls rows leaves.1 h
  run-IsUsed id (mark now other token expected ∷ calls) rows leaves h =
      run-IsUsed id calls (mark_pairing_used token_hash now other token expected rows).1 leaves.1 (
        marked-IsUsed id now other expected
          (validate_pairing_record token_hash now other token rows) rows h)

  validate-used :
      (now : ℕ) (id token : String) (rows : Pairings)
      → IsUsed (strip id) rows
      → validate_pairing_record token_hash now id token rows ≡ err "pairing token already used"
  unfolding validate_pairing_record
  validate-used now id token rows (r, found, used) = rw (found, used) refl

  -- Once a pairing was consumed, no call consumes it again, whatever calls stand between, if its
  -- id is not drawn again.
  pub consumed_once :
      (now later : ℕ) (id id' token token' : String) (expected expected' : Option Pairing)
      (rows : Pairings) (r : Pairing) (rows' : Pairings) (calls : List Call)
      → mark_pairing_used token_hash now id token expected rows ≡ (ok r, rows')
      → All (Leaves (strip id)) calls
      → strip id' ≡ strip id
      → (mark_pairing_used token_hash later id' token' expected' (run calls rows')).0
        ≡ err "pairing token already used"
  unfolding mark_pairing_used update_store
  consumed_once now later id id' token token' expected expected' rows r rows' calls e leaves same =
      let m = mark_pairing_used-Marked token_hash now id token expected rows r rows' e in
      let used : IsUsed (strip id) rows' = (
        r,
        ap (lookup (strip id)) m.after ∙ lookup-insert_self (strip id) r rows,
        ap (λ (p : Pairing). is_some p.used_at) m.row,
      ) in
      rw
        (validate-used later id' token' (run calls rows') (
          subst (λ key. IsUsed key (run calls rows')) (sym same)
            (run-IsUsed (strip id) calls rows' leaves used)))
        refl
