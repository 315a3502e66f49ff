-- ===== src/Store/Repository.antt =====
-- What the repositories share: `upsert` under the stripped id, `get`, `update`, `delete`.
--   baseline/repositories/sqlite_payments.py, sqlite_orders.py, sqlite_plans.py
-- A table keeps a row under its primary key; the order of rows is not observed here, since every
-- query that gives several rows sorts them.
use fake_ui.Prelude.{
  Bool, false, String, [], ◌∷◌, any, ◌≡◌, some, if◌then◌else◌, Bool-cases, Option-cases, inl, inr,
  sym, ap, ◌∙◌, str_eq, eq_iff, is_empty, arith,
}
use fake_ui.Prelude.Text.{strip, strip_idem}
use fake_ui.Prelude.Table.{Table, lookup, insert, remove, lookup-insert}
use fake_ui.Prelude.Result.{Result, ok, err, ◌>>=◌, or_raise}

-- How a table names its rows, and the messages of its errors.
pub record Row {ℓ} (V : Type ℓ) : Type ℓ where
  pub id_of : V → String
  pub set_id : String → V → V
  pub no_id : String
  pub not_found : String

module _ {ℓ} {V : Type ℓ} (row : Row V) where
  -- The row is read back with the column `id`, the stripped id.
  unfoldable pub upsert : V → Table V → Result (Table V)
  upsert v t =
      let key = strip (row.id_of v) in
      if is_empty key then err row.no_id else ok (insert key (row.set_id key v) t)

  unfoldable pub update : String → (V → V) → Table V → Result (V × Table V)
  unfolding upsert
  update key f t = do v ← or_raise (lookup key t) row.not_found; t' ← upsert (f v) t; ok (f v, t')

  unfoldable pub delete : String → Table V → Result (Table V)
  delete key t = do v ← or_raise (lookup key t) row.not_found; ok (remove key t)

  -- What a successful `upsert` has done, seen through `lookup`.
  pub upsert-lookup :
      (v : V) (t t' : Table V) (j : String)
      → upsert v t ≡ ok t'
      → lookup j t' ≡ (
          if str_eq (strip (row.id_of v)) j
          then some (row.set_id (strip (row.id_of v)) v)
          else lookup j t)
  unfolding upsert
  upsert-lookup v t t' j h = ground (
    arith,
    lookup-insert (strip (row.id_of v)) j (row.set_id (strip (row.id_of v)) v) t,
    eq_iff (strip (row.id_of v)) j,
  )

-- Every row stands under its id, which is stripped and not empty.
pub record IsKeyed {ℓ} {V : Type ℓ} (row : Row V) (t : Table V) : Type ℓ where
  pub at :
      (k : String) (v : V)
      → lookup k t ≡ some v
      → (row.id_of v ≡ k) × (strip k ≡ k) × (is_empty k ≡ false)

-- How ids are read back.
pub record IsRow {ℓ} {V : Type ℓ} (row : Row V) : Type ℓ where
  pub read_id : (k : String) (v : V) → row.id_of (row.set_id k v) ≡ k

module _ {ℓ} {V : Type ℓ} (row : Row V) (t : Table V) where
  -- A row written under its own, stripped id.
  pub insert-IsKeyed :
      (k : String) (v : V)
      → IsKeyed row t
      → (row.id_of v ≡ k) × (strip k ≡ k) × (is_empty k ≡ false)
      → IsKeyed row (insert k v t)
  insert-IsKeyed k v h key = record {
    at = λ j w found. ground (arith, lookup-insert k j v t, eq_iff k j, h.at j w);
  }

  pub upsert-IsKeyed :
      (v : V) (t' : Table V) → IsRow row → IsKeyed row t → upsert row v t ≡ ok t' → IsKeyed row t'
  upsert-IsKeyed v t' r h e = record {
    at = λ k w found.
        let key = strip (row.id_of v) in
        let named : is_empty key ≡ false = unfold upsert in ground arith in
        ground (
          arith,
          upsert-lookup row v t t' k e,
          eq_iff key k,
          h.at k w,
          r.read_id key v,
          strip_idem (row.id_of v),
        );
  }

  pub update-IsKeyed :
      (k : String) (f : V → V) (v : V) (t' : Table V)
      → IsRow row
      → IsKeyed row t
      → update row k f t ≡ ok (v, t')
      → IsKeyed row t'
  unfolding update
  update-IsKeyed k f v t' r h e = elim (Option-cases (lookup k t)) [
    | inl missing ↦ cc ((rw (missing, update) at e))
    | inr (u, found) ↦
        let stored : upsert row (f u) t ≡ ok t' = unfold update in ground arith in
        upsert-IsKeyed (f u) t' r h stored
  ]

  -- An update of a row that is there, by a function that leaves its id alone, cannot fail.
  pub update-eq :
      (k : String) (v : V) (f : V → V)
      → IsKeyed row t
      → lookup k t ≡ some v
      → row.id_of (f v) ≡ row.id_of v
      → update row k f t ≡ ok (f v, insert k (row.set_id k (f v)) t)
  unfolding update
  update-eq k v f h found same =
      let (id, stripped, named) = h.at k v found in ground (arith, ap strip (same ∙ id))

  -- A successful update found its row, and the changed row stands in its place.
  pub update-ok :
      (k : String) (f : V → V) (v' : V) (t' : Table V)
      → IsKeyed row t
      → ((v : V) → row.id_of (f v) ≡ row.id_of v)
      → update row k f t ≡ ok (v', t')
      → (v : V) × (lookup k t ≡ some v) × (v' ≡ f v) × (t' ≡ insert k (row.set_id k (f v)) t)
  update-ok k f v' t' h same e = elim (Option-cases (lookup k t)) [
    | inl missing ↦ absurd (unfold update in cc (missing, e))
    | inr (v, found) ↦
        let done : ok (f v, insert k (row.set_id k (f v)) t) ≡ ok (v', t') =
          sym (update-eq k v f h found (same v)) ∙ e in
        (v, found, cc done, cc done)
  ]

-- `any` over the rows of a table, refuted at a row that is there.
pub any-lookup {ℓ} :
    {V : Type ℓ} (p : String × V → Bool) (t : Table V) (k : String) (v : V)
    → any p t ≡ false
    → lookup k t ≡ some v
    → p (k, v) ≡ false
unfolding lookup
any-lookup p [] k v h e = cc
any-lookup p ((j, w) ∷ t) k v h e = elim (Bool-cases (str_eq j k)) [
  | inl same ↦ ground (arith, eq_iff j k)
  | inr other ↦ any-lookup p t k v (ground arith) (ground arith)
]
