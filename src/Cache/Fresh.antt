-- ===== src/Cache/Fresh.antt =====
-- How long a value is kept: until its time is over or its namespace is invalidated.
use fake_ui.Prelude.{
  ℕ, ◌+◌, ◌<◌, String, true, not, none, some, List, [], ◌∷◌, filter, ltb, ◌≡◌, refl, str_eq,
  eq_refl, Bool-cases, inl, inr, arith,
}
use fake_ui.Cache.{Item, is_at, find, store, valid, get, invalidate}

module _ {V : Type 0} where
  find-store :
      (new : Item V) (items : List (Item V))
      → find new.namespace new.key (store new items) ≡ some new
  unfolding find store
  find-store new [] = rw (eq_refl, eq_refl)
  find-store new (item ∷ items) = elim (Bool-cases (is_at new.namespace new.key item)) [
    | inl here ↦ rw (here, eq_refl, eq_refl)
    | inr other ↦ rw (other, other) (find-store new items)
  ]

  -- A value that `get` has loaded is given again, and nothing is loaded or changed, as long as its
  -- time is not over.
  pub get-get :
      (namespace key : String) (ttl ttl' now later : ℕ) (value other : V) (items : List (Item V))
      → valid now (find namespace key items) ≡ none
      → later < now + ttl
      → let items' = (get namespace key ttl now value items).1 in
        get namespace key ttl' later other items' ≡ (value, items')
  unfolding get
  get-get namespace key ttl ttl' now later value other items missing soon =
      let new : Item V = record {
        namespace = namespace;
        key = key;
        value = value;
        expires_at = now + ttl;
      } in
      let fresh : ltb later (now + ttl) ≡ true = ground arith in
      rw (missing, find-store new items, fresh)

  find-filter :
      (namespace key : String) (items : List (Item V))
      → find namespace key (filter (λ (item : Item V). not (str_eq item.namespace namespace)) items)
        ≡ none
  unfolding find
  find-filter namespace key [] = refl
  find-filter namespace key (item ∷ items) = ground (arith, find-filter namespace key items)

  -- After its namespace was invalidated, a key is loaded again.
  pub get-invalidate :
      (namespace key : String) (ttl now : ℕ) (value : V) (items : List (Item V))
      → (get namespace key ttl now value (invalidate (some namespace) items)).0 ≡ value
  unfolding get invalidate
  get-invalidate namespace key ttl now value items = rw (find-filter namespace key items)
