-- ===== src/Tunnels/Distinct/Steps.antt =====
-- The operations of baseline/tunnel_catalog.py keep the catalogue distinct.
use fake_ui.Prelude.{
  ℕ, String, Bool, false, Option, none, some, List, [], ◌∷◌, is_empty, ◌≡◌, ◌≢◌, refl, sym, ◌∙◌,
  Option-cases, inl, inr,
}
use mathlib.Core.Path.{subst}
use fake_ui.Prelude.Result.{Result, ok, err, ok-injective}
use fake_ui.Prelude.Action.{lift, lift-ok}
use fake_ui.Prelude.Keeps.{Keeps-lift, Keeps-bind, Keeps-bind_on}
use fake_ui.Catalog.{find_item, put_item}
use fake_ui.Catalog.Distinct.{
  All-map, All-put_item, put_item-Pairwise, All-remove_item, remove_item-Pairwise, find_item-id,
  find_item-All, find_item-Fits,
}
use fake_ui.Tunnels.{Tunnel, Request, tunnel_id}
use fake_ui.Tunnels.Clean.{clean_id}
use fake_ui.Tunnels.Normalize.{
  normalize_tunnel, sought_id, stored_tunnel, upsert_tunnel, removed, delete_tunnel, switched,
  set_tunnel_enabled,
}
use fake_ui.Tunnels.Normalize.Facts.{Normalized, normalize_tunnel-Normalized}
use fake_ui.Tunnels.Distinct.{
  Apart, IsClean, IsDistinct, apart-Differ, check_keys-Free, Free-Fits, Normalized-IsClean,
}
use fake_ui.Tunnels.Distinct.Sought.{sought-none, sought-some}

-- A normalized item may be put into the catalogue.
put-IsDistinct :
    (uuid : String) (r : Request) (existing : Option Tunnel) (tunnels : List Tunnel) (t : Tunnel)
    → is_empty uuid ≡ false
    → IsDistinct tunnels
    → Normalized uuid r existing tunnels t
    → IsDistinct (put_item tunnel_id t.id t tunnels)
put-IsDistinct uuid r existing tunnels t named h n =
    let clean = Normalized-IsClean uuid r existing tunnels t named n in
    record {
      apart =
          put_item-Pairwise tunnel_id Apart apart-Differ t tunnels
            (Free-Fits t tunnels h.clean (check_keys-Free t tunnels n.keys)) h.apart;
      clean = All-put_item tunnel_id Apart apart-Differ t IsClean tunnels clean h.clean;
    }

-- The item has the id under which the catalogue was searched.
pub Normalized-id :
    (uuid : String) (r : Request) (id : String) (tunnels : List Tunnel) (t : Tunnel)
    → IsDistinct tunnels
    → sought_id r ≡ ok id
    → Normalized uuid r (find_item tunnel_id id tunnels) tunnels t
    → t.id ≡ id
Normalized-id uuid r id tunnels t h sought n =
    elim (Option-cases (find_item tunnel_id id tunnels)) [
      | inl missing ↦
          let n' = subst (λ o. Normalized uuid r o tunnels t) missing n in
          sought-none r t.public_domain id t.id sought n'.domain n'.id
      | inr (old, found) ↦
          let n' = subst (λ o. Normalized uuid r o tunnels t) found n in
          let kept =
            sought-some r old t.public_domain id sought
              (find_item-id tunnel_id id tunnels old found)
              (find_item-All tunnel_id IsClean id tunnels old h.clean found) in
          ok-injective t.id id (sym n'.id ∙ kept)
    ]

stored_tunnel-keeps :
    (id : String) (outcome : Result Tunnel) (tunnels : List Tunnel)
    → ((t : Tunnel) → outcome ≡ ok t → IsDistinct (put_item tunnel_id id t tunnels))
    → IsDistinct tunnels
    → IsDistinct (stored_tunnel id outcome tunnels).1
stored_tunnel-keeps id (ok t) tunnels put h = put t refl
stored_tunnel-keeps id (err e) tunnels put h = h

-- Whether `upsert_tunnel` returns or raises, the catalogue stays one of clean tunnels that share no
-- id, no domain, no port and no UUID. The random UUID is not empty.
pub upsert_tunnel-IsDistinct :
    (now : ℕ) (uuid : String) (r : Request) (tunnels : List Tunnel)
    → is_empty uuid ≡ false
    → IsDistinct tunnels
    → IsDistinct (upsert_tunnel now uuid r tunnels).1
unfolding upsert_tunnel
upsert_tunnel-IsDistinct now uuid r tunnels named h =
    (Keeps-bind_on {P = IsDistinct} (lift (sought_id r))
        (λ id ts. stored_tunnel id (normalize_tunnel now uuid r (find_item tunnel_id id ts) ts) ts)
        (Keeps-lift (sought_id r))
        (λ s s' id sought. record {
          at = λ ts kept.
              stored_tunnel-keeps id (normalize_tunnel now uuid r (find_item tunnel_id id ts) ts) ts
                (λ t e.
                  let n =
                    normalize_tunnel-Normalized now uuid r (find_item tunnel_id id ts) ts t e in
                  subst (λ key. IsDistinct (put_item tunnel_id key t ts))
                    (Normalized-id uuid r id ts t kept (lift-ok (sought_id r) s s' id sought) n)
                    (put-IsDistinct uuid r (find_item tunnel_id id ts) ts t named kept n))
                kept;
        })).at
      tunnels h

removed-keeps :
    (id : String) (found : Option Tunnel) (tunnels : List Tunnel)
    → IsDistinct tunnels
    → IsDistinct (removed id found tunnels).1
removed-keeps id none tunnels h = h
removed-keeps id (some t) tunnels h = record {
  apart = remove_item-Pairwise tunnel_id id Apart tunnels h.apart;
  clean = All-remove_item tunnel_id id IsClean tunnels h.clean;
}

-- `delete_tunnel` keeps the catalogue distinct, whether it returns or raises.
pub delete_tunnel-IsDistinct :
    (value : String) (tunnels : List Tunnel)
    → IsDistinct tunnels
    → IsDistinct (delete_tunnel value tunnels).1
unfolding delete_tunnel
delete_tunnel-IsDistinct value tunnels h =
    (Keeps-bind {P = IsDistinct} (lift (clean_id value))
        (λ id ts. removed id (find_item tunnel_id id ts) ts) (Keeps-lift (clean_id value))
        (λ id. record { at = λ ts kept. removed-keeps id (find_item tunnel_id id ts) ts kept })).at
      tunnels h

switched-keeps :
    (id : String) (enabled : Bool) (now : ℕ) (tunnels : List Tunnel)
    → IsDistinct tunnels
    → IsDistinct (switched id enabled now (find_item tunnel_id id tunnels) tunnels).1
switched-keeps id enabled now tunnels h = elim (Option-cases (find_item tunnel_id id tunnels)) [
  | inl missing ↦ rw missing h
  | inr (t, found) ↦
      let t' : Tunnel = record t { enabled = enabled; updated_at = now } in
      let cleaned = find_item-All tunnel_id IsClean id tunnels t h.clean found in
      let clean' : IsClean t' = record {
        id = cleaned.id;
        named = cleaned.named;
        domain = cleaned.domain;
        port = cleaned.port;
        client = cleaned.client;
      } in
      let fits =
        All-map {Q = λ x. tunnel_id x ≢ t.id → Apart t' x}
          (λ x fit ne.
            let a = fit ne in
            record { ids = a.ids; domains = a.domains; ports = a.ports; clients = a.clients })
          tunnels (find_item-Fits tunnel_id Apart apart-Differ id tunnels t h.apart found) in
      rw found (
        subst (λ key. IsDistinct (put_item tunnel_id key t' tunnels))
          (find_item-id tunnel_id id tunnels t found)
          (record {
            apart = put_item-Pairwise tunnel_id Apart apart-Differ t' tunnels fits h.apart;
            clean = All-put_item tunnel_id Apart apart-Differ t' IsClean tunnels clean' h.clean;
          }))
]

-- `set_tunnel_enabled` keeps the catalogue distinct, whether it returns or raises.
pub set_tunnel_enabled-IsDistinct :
    (now : ℕ) (value : String) (enabled : Bool) (tunnels : List Tunnel)
    → IsDistinct tunnels
    → IsDistinct (set_tunnel_enabled now value enabled tunnels).1
unfolding set_tunnel_enabled
set_tunnel_enabled-IsDistinct now value enabled [] h = h
set_tunnel_enabled-IsDistinct now value enabled (t ∷ rest) h =
    (Keeps-bind {P = IsDistinct} (lift (clean_id value))
        (λ id ts. switched id enabled now (find_item tunnel_id id ts) ts)
        (Keeps-lift (clean_id value))
        (λ id. record { at = λ ts kept. switched-keeps id enabled now ts kept })).at
      (t ∷ rest) h
