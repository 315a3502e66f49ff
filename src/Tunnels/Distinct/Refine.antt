-- ===== src/Tunnels/Distinct/Refine.antt =====
-- The stored catalogue of baseline/tunnel_catalog.py implements a map from ids to tunnels: the
-- operations as calls, what each promises of the map, and any sequence of them.
use fake_ui.Prelude.{
  ℕ, String, Bool, false, Option, none, some, List, [], ◌∷◌, All, is_empty, eq_refl, ◌≡◌, refl, sym,
  ap, ◌∙◌, Option-cases, inl, inr,
}
use mathlib.Core.Path.{subst}
use fake_ui.Prelude.Result.{Result, ok, err}
use fake_ui.Prelude.Action.{Action, lift, resume}
use fake_ui.Prelude.Action
use fake_ui.Catalog.{find_item, put_item}
use fake_ui.Catalog.Distinct.{find_item-id}
use fake_ui.Catalog.View.{View, put_at, find_item-put_item, find_item-remove_item}
use fake_ui.Tunnels.{Tunnel, Request, tunnel_id}
use fake_ui.Tunnels.Clean.{clean_id}
use fake_ui.Tunnels.Normalize.{
  normalize_tunnel, sought_id, stored_tunnel, upsert_tunnel, removed, delete_tunnel, switched,
  set_tunnel_enabled, get_tunnel,
}
use fake_ui.Tunnels.Normalize.Facts.{normalize_tunnel-Normalized}
use fake_ui.Tunnels.Distinct.{Apart, IsDistinct, apart-Differ}
use fake_ui.Tunnels.Distinct.Sought.{sought_id-clean}
use fake_ui.Tunnels.Distinct.Steps.{
  Normalized-id, upsert_tunnel-IsDistinct, delete_tunnel-IsDistinct, set_tunnel_enabled-IsDistinct,
}

-- A call of the catalogue, with what the clock and the random source give it.
pub data Call : Type 0 where
  upsert_call : ℕ → String → Request → Call
  delete_call : String → Call
  enable_call : ℕ → String → Bool → Call

abbrev pub step : Call → Action (List Tunnel) Tunnel
step (upsert_call now uuid r) = upsert_tunnel now uuid r
step (delete_call value) = delete_tunnel value
step (enable_call now value enabled) = set_tunnel_enabled now value enabled

-- The random UUIDs are not empty.
abbrev pub HasUuid : Call → Type 0
HasUuid (upsert_call now uuid r) = is_empty uuid ≡ false
HasUuid (delete_call value) = Unit
HasUuid (enable_call now value enabled) = Unit

unfoldable pub run : List Call → List Tunnel → List Tunnel
run [] tunnels = tunnels
run (c ∷ calls) tunnels = run calls (step c tunnels).1

abbrev pub view : List Tunnel → View Tunnel
view tunnels id = find_item tunnel_id id tunnels

-- The map `m'` is `m` with the value at the id changed.
abbrev pub Becomes : View Tunnel → String → Option Tunnel → View Tunnel → Type 0
Becomes m id value m' = (k : String) → m' k ≡ put_at m id value k

-- What a call that was made on the map `m` promises of its outcome and of the map behind it.
abbrev pub Promise : Call → View Tunnel → Result Tunnel → View Tunnel → Type 0
Promise c m (err e) m' = (k : String) → m' k ≡ m k
Promise (upsert_call now uuid r) m (ok t) m' = (sought_id r ≡ ok t.id) × Becomes m t.id (some t) m'
Promise (delete_call value) m (ok t) m' =
    (clean_id value ≡ ok t.id) × (m t.id ≡ some t) × Becomes m t.id none m'
Promise (enable_call now value enabled) m (ok t) m' =
    (clean_id value ≡ ok t.id)
    × ((old : Tunnel) × (m t.id ≡ some old)
        × (t ≡ (record old { enabled = enabled; updated_at = now })))
    × Becomes m t.id (some t) m'

-- Any sequence of calls leads from a catalogue of clean tunnels that share no id, no given domain,
-- no port and no UUID to such a catalogue, however the calls end, if the random UUIDs are not
-- empty.
pub run-IsDistinct :
    (calls : List Call) (tunnels : List Tunnel)
    → All HasUuid calls
    → IsDistinct tunnels
    → IsDistinct (run calls tunnels)
unfolding run
run-IsDistinct [] tunnels uuids h = h
run-IsDistinct (upsert_call now uuid r ∷ calls) tunnels uuids h =
    run-IsDistinct calls (upsert_tunnel now uuid r tunnels).1 uuids.1
      (upsert_tunnel-IsDistinct now uuid r tunnels uuids.0 h)
run-IsDistinct (delete_call value ∷ calls) tunnels uuids h =
    run-IsDistinct calls (delete_tunnel value tunnels).1 uuids.1
      (delete_tunnel-IsDistinct value tunnels h)
run-IsDistinct (enable_call now value enabled ∷ calls) tunnels uuids h =
    run-IsDistinct calls (set_tunnel_enabled now value enabled tunnels).1 uuids.1
      (set_tunnel_enabled-IsDistinct now value enabled tunnels h)

abbrev Kept : Call → List Tunnel → Result Tunnel × List Tunnel → Type 0
Kept c tunnels (outcome, after) = Promise c (view tunnels) outcome (view after)

stored_tunnel-Kept :
    (now : ℕ) (uuid : String) (r : Request) (id : String) (tunnels : List Tunnel)
    (outcome : Result Tunnel)
    → sought_id r ≡ ok id
    → ((t : Tunnel) → outcome ≡ ok t → t.id ≡ id)
    → Kept (upsert_call now uuid r) tunnels (stored_tunnel id outcome tunnels)
stored_tunnel-Kept now uuid r id tunnels (err e) sought same = λ k. refl
stored_tunnel-Kept now uuid r id tunnels (ok t) sought same =
    let e = same t refl in
    (
      sought ∙ ap ok (sym e),
      λ k.
          ap (λ j. find_item tunnel_id k (put_item tunnel_id j t tunnels)) (sym e)
          ∙ find_item-put_item tunnel_id t tunnels k,
    )

upsert-Kept :
    (now : ℕ) (uuid : String) (r : Request) (tunnels : List Tunnel)
    → IsDistinct tunnels
    → (sought : Result String) → sought_id r ≡ sought
    → Kept (upsert_call now uuid r) tunnels (
        resume sought tunnels (λ id ts.
          stored_tunnel id (normalize_tunnel now uuid r (find_item tunnel_id id ts) ts) ts))
upsert-Kept now uuid r tunnels h (err e) s = λ k. refl
upsert-Kept now uuid r tunnels h (ok id) s =
    stored_tunnel-Kept now uuid r id tunnels
      (normalize_tunnel now uuid r (find_item tunnel_id id tunnels) tunnels) s
      (λ t e.
        Normalized-id uuid r id tunnels t h s
          (normalize_tunnel-Normalized now uuid r (find_item tunnel_id id tunnels) tunnels t e))

delete-Kept :
    (value : String) (tunnels : List Tunnel)
    → IsDistinct tunnels
    → (cleaned : Result String) → clean_id value ≡ cleaned
    → Kept
        (delete_call value)
        tunnels
        (resume cleaned tunnels (λ id ts. removed id (find_item tunnel_id id ts) ts))
delete-Kept value tunnels h (err e) s = λ k. refl
delete-Kept value tunnels h (ok id) s = elim (Option-cases (find_item tunnel_id id tunnels)) [
  | inl missing ↦ rw missing (λ k. refl)
  | inr (t, found) ↦
      let e : t.id ≡ id = find_item-id tunnel_id id tunnels t found in
      rw found (
        s ∙ ap ok (sym e),
        ap (view tunnels) e ∙ found,
        λ k.
            find_item-remove_item tunnel_id Apart apart-Differ id tunnels k h.apart
            ∙ ap (λ j. put_at (view tunnels) j none k) (sym e),
      )
]

enable-Kept :
    (now : ℕ) (value : String) (enabled : Bool) (tunnels : List Tunnel) (cleaned : Result String)
    → clean_id value ≡ cleaned
    → Kept
        (enable_call now value enabled)
        tunnels
        (resume cleaned tunnels (λ id ts. switched id enabled now (find_item tunnel_id id ts) ts))
enable-Kept now value enabled tunnels (err e) s = λ k. refl
enable-Kept now value enabled tunnels (ok id) s =
    elim (Option-cases (find_item tunnel_id id tunnels)) [
      | inl missing ↦ rw missing (λ k. refl)
      | inr (t, found) ↦
          let e : t.id ≡ id = find_item-id tunnel_id id tunnels t found in
          let t' : Tunnel = record t { enabled = enabled; updated_at = now } in
          rw found (
            s ∙ ap ok (sym e),
            (t, ap (view tunnels) e ∙ found, refl),
            λ k.
                ap (λ j. find_item tunnel_id k (put_item tunnel_id j t' tunnels)) (sym e)
                ∙ find_item-put_item tunnel_id t' tunnels k,
          )
    ]

-- On a distinct catalogue each call implements a map from ids to tunnels: an upsert that returns
-- puts its tunnel under the id that was sought, a deletion takes out the one that it returns, a
-- switch changes only the flag and the time of the stored tunnel, and a call that raises leaves
-- the map as it is.
pub step_refines :
    (c : Call) (tunnels : List Tunnel)
    → IsDistinct tunnels
    → Promise c (view tunnels) (step c tunnels).0 (view (step c tunnels).1)
unfolding upsert_tunnel delete_tunnel set_tunnel_enabled lift Action.◌>>=◌
step_refines (upsert_call now uuid r) tunnels h =
    upsert-Kept now uuid r tunnels h (sought_id r) refl
step_refines (delete_call value) tunnels h = delete-Kept value tunnels h (clean_id value) refl
step_refines (enable_call now value enabled) [] h = λ k. refl
step_refines (enable_call now value enabled) (t ∷ rest) h =
    enable-Kept now value enabled (t ∷ rest) (clean_id value) refl

-- In a distinct catalogue, what upsert_tunnel returned is what get_tunnel then finds under its id,
-- if the random UUID is not empty.
pub get_tunnel-upsert_tunnel :
    (now : ℕ) (uuid : String) (r : Request) (tunnels tunnels' : List Tunnel) (t : Tunnel)
    → is_empty uuid ≡ false
    → IsDistinct tunnels
    → upsert_tunnel now uuid r tunnels ≡ (ok t, tunnels')
    → get_tunnel t.id tunnels' ≡ (ok t, tunnels')
unfolding get_tunnel
get_tunnel-upsert_tunnel now uuid r tunnels tunnels' t named h e =
    let promise =
      subst
        (λ (s : Result Tunnel × List Tunnel).
          Promise (upsert_call now uuid r) (view tunnels) s.0 (view s.1))
        e (step_refines (upsert_call now uuid r) tunnels h) in
    let (clean, _) = sought_id-clean r t.id promise.0 in
    let found : find_item tunnel_id t.id tunnels' ≡ some t = promise.1 t.id ∙ rw (eq_refl t.id) in
    rw (clean, found)
