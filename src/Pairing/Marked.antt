-- ===== src/Pairing/Marked.antt =====
-- What it takes to consume a pairing of baseline/agent_pairing.py.
use fake_ui.Prelude.{
  ℕ, ◌+◌, ◌*◌, ◌<◌, String, false, not, ◌||◌, Option, some, is_empty, str_eq, eq_iff, eq_refl, ◌≡◌,
  refl, sym, ap, ◌∙◌, arith, Bool-cases, inl, inr,
}
use mathlib.Core.Path.{subst}
use fake_ui.Prelude.Text.{strip}
use fake_ui.Prelude.Table.{lookup, insert, is_some, lookup-insert_self}
use fake_ui.Prelude.Result.{
  Result, ok, err, raise_if, or_raise, >>=-eq-ok, raise_if-eq-ok, or_raise-eq_ok, ok-injective,
}
use fake_ui.Tunnels.Clean.{clean_id}
use fake_ui.Pairing.{
  Pairing, Pairings, Draws, Created, drawn_id, create_pairing, cleaned_pairing, written,
  new_pairing, mark_pairing_used, validate_pairing_record, marked, update_store, committed,
  clean_bundle_kind, clean_pairing_platform, is_over, changed, consume_pairing, public_record,
  created_row, ttl_or_default,
}

no_error :
    {A S : Type 0} (e : String) (a : A) (s s' : S)
    → ◌≡◌ {A = Result A × S} (err e, s) (ok a, s')
    → ⊥
no_error e a s s' h = cc

module _ (token_hash : String → String) where
  -- What a validation that returned has tested.
  pub validate-eq_ok :
      (now : ℕ) (id token : String) (rows : Pairings) (old : Pairing)
      → validate_pairing_record token_hash now id token rows ≡ ok old
      → (lookup (strip id) rows ≡ some old)
        × (is_some old.used_at ≡ false)
        × (is_over old.expires_at now ≡ false)
        × (old.token_hash ≡ token_hash token)
  unfolding validate_pairing_record
  validate-eq_ok now id token rows old e =
      let (r, found, e1) =
        >>=-eq-ok (or_raise (lookup (strip id) rows) "pairing token is invalid") _ e in
      let (_, unused, e2) =
        >>=-eq-ok (raise_if (is_some r.used_at) "pairing token already used") _ e1 in
      let (_, in_time, e3) =
        >>=-eq-ok (raise_if (is_over r.expires_at now) "pairing token expired") _ e2 in
      let (_, hash, e4) =
        >>=-eq-ok
          (raise_if (is_empty r.token_hash || not (str_eq r.token_hash (token_hash token)))
            "pairing token is invalid")
          _ e3 in
      let same = ok-injective r old e4 in
      let hashed = raise_if-eq-ok _ _ _ hash in
      subst
        (λ (o : Pairing).
          (lookup (strip id) rows ≡ some o)
          × (is_some o.used_at ≡ false)
          × (is_over o.expires_at now ≡ false)
          × (o.token_hash ≡ token_hash token))
        same
        (
          or_raise-eq_ok (lookup (strip id) rows) "pairing token is invalid" r found,
          raise_if-eq-ok _ _ _ unused,
          raise_if-eq-ok _ _ _ in_time,
          ground (arith, hashed, eq_iff r.token_hash (token_hash token)),
        )

  -- What a mark that returned has done.
  pub record Marked (now : ℕ) (id token : String) (expected : Option Pairing) (rows : Pairings)
      (r : Pairing) (rows' : Pairings) : Type 0 where
    pub old : Pairing
    pub found : lookup (strip id) rows ≡ some old
    pub unused : is_some old.used_at ≡ false
    pub in_time : is_over old.expires_at now ≡ false
    pub hash : old.token_hash ≡ token_hash token
    pub as_expected : changed old expected ≡ false
    pub row : r ≡ (record old { used_at = some now })
    pub after : rows' ≡ insert (strip id) r rows

  marked-eq_ok :
      (now : ℕ) (id token : String) (expected : Option Pairing) (rows : Pairings)
      (valid : Result Pairing) (r : Pairing) (rows' : Pairings)
      → validate_pairing_record token_hash now id token rows ≡ valid
      → committed (marked now id expected valid rows) rows ≡ (ok r, rows')
      → Marked now id token expected rows r rows'
  marked-eq_ok now id token expected rows (err e) r rows' v m = absurd cc
  marked-eq_ok now id token expected rows (ok old) r rows' v m =
      elim (Bool-cases (changed old expected)) [
        | inl differs ↦ absurd (no_error "pairing token changed" r rows rows' (rw differs at m))
        | inr same ↦
            let (found, unused, in_time, hash) = validate-eq_ok now id token rows old v in
            let used : Pairing = record old { used_at = some now } in
            let done : (ok used, insert (strip id) used rows) ≡ (ok r, rows') = rw same at m in
            let row : used ≡ r =
              ok-injective used r (ap (λ (s : Result Pairing × Pairings). s.0) done) in
            record {
              old = old;
              found = found;
              unused = unused;
              in_time = in_time;
              hash = hash;
              as_expected = same;
              row = sym row;
              after =
                  ap (λ (s : Result Pairing × Pairings). s.1) (sym done)
                  ∙ ap (λ u. insert (strip id) u rows) row;
            }
      ]

  -- A pairing is consumed only if it stands under the id, was not used and is not over, for a
  -- token with its hash, and as the snapshot has it; then it is the same but for the time of its
  -- use.
  pub mark_pairing_used-Marked :
      (now : ℕ) (id token : String) (expected : Option Pairing) (rows : Pairings) (r : Pairing)
      (rows' : Pairings)
      → mark_pairing_used token_hash now id token expected rows ≡ (ok r, rows')
      → Marked now id token expected rows r rows'
  unfolding mark_pairing_used update_store
  mark_pairing_used-Marked now id token expected rows r rows' e =
      marked-eq_ok now id token expected rows (validate_pairing_record token_hash now id token rows)
        r rows' refl e

  written-eq_ok :
      (draws : Draws) (created : Result Pairing) (rows : Pairings) (c : Created) (rows' : Pairings)
      → written draws created rows ≡ (ok c, rows')
      → (row : Pairing) × (created ≡ ok row)
        × (created_row draws row ≡ c)
        × (insert row.token_id row rows ≡ rows')
  unfolding update_store
  written-eq_ok draws (err e) rows c rows' h = absurd (no_error e c rows rows' h)
  written-eq_ok draws (ok row) rows c rows' h = (
    row,
    refl,
    ok-injective (created_row draws row) c (ap (λ (s : Result Created × Pairings). s.0) h),
    ap (λ (s : Result Created × Pairings). s.1) h,
  )

  -- A pairing that passes the tests is consumed.
  consume-run :
      (later : ℕ) (id token : String) (rows : Pairings) (old : Pairing)
      → lookup (strip id) rows ≡ some old
      → is_some old.used_at ≡ false
      → is_over old.expires_at later ≡ false
      → is_empty (token_hash token) ≡ false
      → old.token_hash ≡ token_hash token
      → (consume_pairing token_hash later id token rows).0
        ≡ ok (record old { used_at = some later })
  unfolding consume_pairing mark_pairing_used update_store validate_pairing_record
  consume-run later id token rows old found unused in_time given hash =
      rw (found, unused, in_time, hash, given, eq_refl (token_hash token)) refl

  -- What create_pairing returned can be consumed with its token before its time is over, where
  -- stripping does not change the id and the hash is not empty.
  pub consume_pairing-create_pairing :
      (now later : ℕ) (draws : Draws) (kind bridge platform by : String) (ttl : ℕ)
      (rows rows' : Pairings) (c : Created)
      → create_pairing token_hash now draws kind bridge platform by ttl rows ≡ (ok c, rows')
      → strip (drawn_id draws) ≡ drawn_id draws
      → is_empty (token_hash draws.pairing_token) ≡ false
      → later < now + 60 * ttl_or_default ttl
      → (r : Pairing) × ((consume_pairing token_hash later c.row.token_id c.pairing_token rows').0
          ≡ ok r)
        × (public_record r ≡ (record c.row { used_at = some later }))
  unfolding create_pairing new_pairing public_record
  consume_pairing-create_pairing now later draws kind bridge platform by ttl rows rows' c e stripped
        hash in_time =
      let (row, created, same, stored) =
        written-eq_ok draws (cleaned_pairing token_hash now draws kind bridge platform by ttl) rows
          c rows' e in
      let (k, _, e1) = >>=-eq-ok (clean_bundle_kind kind) _ created in
      let (b, _, e2) = >>=-eq-ok (clean_id bridge) _ e1 in
      let (p, _, e3) = >>=-eq-ok (clean_pairing_platform platform) _ e2 in
      let new = new_pairing token_hash now draws k b p by ttl in
      let is_new : row ≡ new = sym (ok-injective new row e3) in
      let kept : insert (drawn_id draws) new rows ≡ rows' =
        ap (λ (r : Pairing). insert r.token_id r rows) (sym is_new) ∙ stored in
      let out : created_row draws new ≡ c = ap (created_row draws) (sym is_new) ∙ same in
      subst
        (λ (c' : Created).
          (r : Pairing) × ((consume_pairing token_hash later c'.row.token_id c'.pairing_token
              rows').0
            ≡ ok r)
          × (public_record r ≡ (record c'.row { used_at = some later })))
        out
        (
          record new { used_at = some later },
          consume-run later (drawn_id draws) draws.pairing_token rows' new
              (ap (λ s. lookup s rows') stripped
                ∙ ap (lookup (drawn_id draws)) (sym kept)
                ∙ lookup-insert_self (drawn_id draws) new rows)
              refl (ground arith) hash refl,
          refl,
        )
