-- ===== src/Payments/Create.antt =====
-- New payments: the loop that draws an id ends, and the row is added under a new key.
use fake_ui.Prelude.{
  ℕ, zero, suc, ◌+◌, ◌≤◌, ◌<◌, String, true, false, ◌≡◌, ◌≢◌, refl, none, some, [], ◌∷◌, length,
  eq_iff, eq_refl, is_empty, inl, inr, Option-cases, arith, ◌∙◌,
}
use fake_ui.Prelude.Text.{strip}
use fake_ui.Prelude.Table.{Table, lookup, remove, lookup-remove, lookup-insert}
use fake_ui.Prelude.Result.{ok}
use fake_ui.Store.{Payment, World}
use fake_ui.Payments.{fresh_id, create_payment}
use fake_ui.Payments.Txids.{IsValid, insert-IsValid}

abbrev IsInjective : (ℕ → String) → Type 0
IsInjective draws = (m n : ℕ) → m ≢ n → draws m ≢ draws n

module _ {V : Type 0} where
  length-remove_le : (k : String) (t : Table V) → length (remove k t) ≤ length t
  unfolding remove
  length-remove_le k [] = omega arith
  length-remove_le k ((j, v) ∷ t) = ground (arith, length-remove_le k t)

  length-remove :
      (k : String) (v : V) (t : Table V) → lookup k t ≡ some v → length (remove k t) < length t
  unfolding remove lookup
  length-remove k v [] e = cc
  length-remove k v ((j, w) ∷ t) e = ground (arith, length-remove k v t, length-remove_le k t)

fresh_id-agree :
    (fuel : ℕ) (draws : ℕ → String) (n : ℕ) (t t' : Table Payment)
    → ((m : ℕ) → n ≤ m → lookup (draws m) t ≡ lookup (draws m) t')
    → fresh_id fuel draws n t ≡ fresh_id fuel draws n t'
unfolding fresh_id
fresh_id-agree zero draws n t t' h = refl
fresh_id-agree (suc fuel) draws n t t' h =
    rw (h n (omega arith), fresh_id-agree fuel draws (n + 1) t t' (λ m le. h m (omega arith)))

-- With distinct draws, one draw more than there are payments gives an id that no row has.
pub fresh_id_total :
    (fuel : ℕ) (draws : ℕ → String) (n : ℕ) (t : Table Payment)
    → IsInjective draws
    → length t < fuel
    → (m : ℕ) × (n ≤ m) × (fresh_id fuel draws n t ≡ some (draws m)) × (lookup (draws m) t ≡ none)
unfolding fresh_id
fresh_id_total zero draws n t inj h = absurd (omega arith)
fresh_id_total (suc fuel) draws n t inj h = elim (Option-cases (lookup (draws n) t)) [
  | inl free ↦ (n, omega arith, rw free, free)
  | inr (p, taken) ↦
      let t' : Table Payment = remove (draws n) t in
      let same : ((m : ℕ) → n + 1 ≤ m → lookup (draws m) t ≡ lookup (draws m) t') = λ m le.
        rw lookup-remove (ground (arith, eq_iff (draws n) (draws m), inj n m (omega arith))) in
      let (m, le, found, free) =
        fresh_id_total fuel draws (n + 1) t' inj
          (omega (arith, length-remove (draws n) p t taken)) in
      (
        m,
        omega arith,
        rw taken (fresh_id-agree fuel draws (n + 1) t t' same ∙ found),
        same m le ∙ free,
      )
]

-- In a valid table, a payment created under a stripped, non-empty id that no row has, with no txid
-- yet, keeps the table valid, adds its row and leaves every other row.
pub create_payment_lem :
    (p : Payment) (id : String) (w : World)
    → IsValid w.payments
    → strip id ≡ id
    → is_empty id ≡ false
    → lookup id w.payments ≡ none
    → is_empty p.txid ≡ true
    → let (r, w') = create_payment p id w in
      (r ≡ ok (record p { id = id }))
      × IsValid w'.payments
      × (lookup id w'.payments ≡ some (record p { id = id }))
      × ((j : String) → id ≢ j → lookup j w'.payments ≡ lookup j w.payments)
unfolding create_payment strip lookup
create_payment_lem p id w h trimmed named free bare =
    rw (trimmed, named)
      (
        refl,
        insert-IsValid id (record p { id = id }) w.payments h (refl, trimmed, named)
            (λ j q ne e n. cc (n, bare)),
        rw (lookup-insert, eq_refl),
        λ j ne. rw lookup-insert (ground (arith, eq_iff id j)),
      )
