-- ===== src/Tunnels/Normalize/Facts.antt =====
-- What is known of an item that `normalize_tunnel` of baseline/tunnel_catalog.py returned.
use fake_ui.Prelude.{ℕ, String, false, Option, List, is_empty, ◌≡◌, arith, Bool-cases, inl, inr}
use mathlib.Core.Path.{subst}
use fake_ui.Prelude.Text.{strip}
use fake_ui.Prelude.Result.{ok, >>=-eq-ok, ok-injective}
use fake_ui.Tunnels.{Tunnel, Request, used_values}
use fake_ui.Tunnels.Clean.{
  clean_id, clean_domain, clean_id_idem, clean_kind, clean_bridge_mode, clean_bridge_platform,
}
use fake_ui.Tunnels.Ports.{next_portal_port}
use fake_ui.Tunnels.Normalize.{
  given, or_text, or_port, text_of, name_of, own_id, node_id_of, domain_seed, keys_of, check_keys,
  check_tags, tunnel_of, check_item, kind_default, normalize_tunnel,
}

-- An id that a request gives is clean.
pub node_id_of-clean :
    (r : Request) (existing : Option Tunnel) (domain id : String)
    → node_id_of r existing domain ≡ ok id
    → (clean_id id ≡ ok id) × (is_empty id ≡ false)
unfolding node_id_of
node_id_of-clean r existing domain id e =
    let given_id = or_text (text_of r.id) (own_id existing) in
    let named = or_text (text_of r.name) (name_of existing) in
    elim (Bool-cases (is_empty given_id)) [
      | inl without ↦
          let (seed, _, cleaned) =
            >>=-eq-ok (domain_seed domain) (λ seed. clean_id (or_text seed named))
              (rw without at e) in
          clean_id_idem (or_text seed named) id cleaned
      | inr with ↦ clean_id_idem given_id id (rw with at e)
    ]

-- The request's own or the default text, as `or` chooses it.
or_text-given : (a b : String) → is_empty b ≡ false → is_empty (or_text a b) ≡ false
or_text-given a b h = ground arith

pub record Normalized (uuid : String) (r : Request) (existing : Option Tunnel)
    (tunnels : List Tunnel) (t : Tunnel) : Type 0 where
  pub domain :
      clean_domain (given r.public_domain existing (λ o. o.public_domain) "") ≡ ok t.public_domain
  pub id : node_id_of r existing t.public_domain ≡ ok t.id
  pub client : is_empty uuid ≡ false → is_empty t.client_id ≡ false
  pub keys :
      check_keys (keys_of t.id t.public_domain t.portal_port t.client_id) (used_values tunnels t.id)
      ≡ ok tt
  pub item : check_item t ≡ ok tt

pub normalize_tunnel-Normalized :
    (now : ℕ) (uuid : String) (r : Request) (existing : Option Tunnel) (tunnels : List Tunnel)
    (t : Tunnel)
    → normalize_tunnel now uuid r existing tunnels ≡ ok t
    → Normalized uuid r existing tunnels t
unfolding normalize_tunnel tunnel_of
normalize_tunnel-Normalized now uuid r existing tunnels t e =
    let (domain, e_domain, e1) =
      >>=-eq-ok (clean_domain (given r.public_domain existing (λ t. t.public_domain) "")) _ e in
    let (kind, _, e2) =
      >>=-eq-ok (clean_kind (given r.kind existing (λ t. t.kind) (kind_default domain))) _ e1 in
    let (id, e_id, e3) = >>=-eq-ok (node_id_of r existing domain) _ e2 in
    let own = strip (given r.client_id existing (λ t. t.client_id) "") in
    let client_id = or_text own uuid in
    let port =
      or_port (given r.portal_port existing (λ t. t.portal_port) 0) (next_portal_port tunnels) in
    let keys = keys_of id domain port client_id in
    let (_, e_keys, e4) = >>=-eq-ok (check_keys keys (used_values tunnels id)) _ e3 in
    let (bridge_mode, _, e5) =
      >>=-eq-ok (clean_bridge_mode (given r.bridge_mode existing (λ t. t.bridge_mode) "dedicated"))
        _ e4 in
    let (bridge_id, _, e6) =
      >>=-eq-ok (clean_id (or_text (given r.bridge_id existing (λ t. t.bridge_id) id) id)) _ e5 in
    let (bridge_platform, _, e7) =
      >>=-eq-ok
        (clean_bridge_platform (given r.bridge_platform existing (λ t. t.bridge_platform) "macos"))
        _ e6 in
    let (_, _, e8) = >>=-eq-ok (check_tags keys (used_values tunnels id)) _ e7 in
    let item = tunnel_of r existing now keys kind bridge_mode bridge_id bridge_platform in
    let (_, e_item, e9) = >>=-eq-ok (check_item item) _ e8 in
    subst (Normalized uuid r existing tunnels) (ok-injective item t e9) (record {
      domain = e_domain;
      id = e_id;
      client = or_text-given own uuid;
      keys = e_keys;
      item = e_item;
    })
