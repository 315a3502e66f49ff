-- ===== src/Cache.antt =====
-- baseline/cache_store.py: values that are kept for a while. A time is `time.monotonic()`, counted
-- in the smallest unit of the clock; what the loader gives is an argument, for a loader that
-- returns. The lock is left out: each operation is one step.
pub mod Fresh
use fake_ui.Prelude.{
  ℕ, ◌+◌, String, Bool, true, false, not, ◌&&◌, Option, none, some, List, [], ◌∷◌, filter, length,
  if◌then◌else◌, ltb, str_eq,
}

pub record Item {ℓ} (V : Type ℓ) : Type ℓ where
  pub namespace : String
  pub key : String
  pub value : V
  pub expires_at : ℕ

abbrev pub is_at {ℓ} : {V : Type ℓ} → String → String → Item V → Bool
is_at namespace key item = str_eq item.namespace namespace && str_eq item.key key

module _ {ℓ} {V : Type ℓ} where
  unfoldable pub find : String → String → List (Item V) → Option (Item V)
  find namespace key [] = none
  find namespace key (item ∷ items) =
      let later = find namespace key items in if is_at namespace key item then some item else later

  unfoldable pub store : Item V → List (Item V) → List (Item V)
  store new [] = new ∷ []
  store new (item ∷ items) =
      let rest = store new items in
      if is_at new.namespace new.key item then new ∷ items else item ∷ rest

  -- A value that is still valid.
  abbrev pub valid : ℕ → Option (Item V) → Option V
  valid now none = none
  valid now (some item) = if ltb now item.expires_at then some item.value else none

  abbrev pub loaded : String → String → ℕ → V → Option V → List (Item V) → V × List (Item V)
  loaded namespace key expiry value (some cached) items = (cached, items)
  loaded namespace key expiry value none items = (
    value,
    store (record { namespace = namespace; key = key; value = value; expires_at = expiry }) items,
  )

  -- `get` at the time `now`, where the loader gives `value`.
  unfoldable pub get : String → String → ℕ → ℕ → V → List (Item V) → V × List (Item V)
  unfolding find store
  get namespace key ttl now value items =
      loaded namespace key (now + ttl) value (valid now (find namespace key items)) items

  unfoldable pub invalidate : Option String → List (Item V) → List (Item V)
  invalidate none items = []
  invalidate (some namespace) items =
      filter (λ (item : Item V). not (str_eq item.namespace namespace)) items

  -- `active` of `stats`
  unfoldable pub active : ℕ → List (Item V) → ℕ
  active now items = length (filter (λ (item : Item V). ltb now item.expires_at) items)
