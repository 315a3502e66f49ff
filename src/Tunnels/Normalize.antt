-- ===== src/Tunnels/Normalize.antt =====
-- `normalize_tunnel` of baseline/tunnel_catalog.py and the operations on the stored catalogue.
pub mod Facts
use fake_ui.Prelude.{
  ℕ, String, Bool, true, false, not, ◌&&◌, ◌||◌, ◌==◌, Option, none, some, List, [], ◌∷◌, any,
  filter, if◌then◌else◌, is_empty, str_eq,
}
use fake_ui.Prelude.Text.{strip}
use fake_ui.Prelude.Result.{Result, ok, err, raise_if, or_raise, ◌>>=◌, ◌>>◌}
use fake_ui.Prelude.Action.{Action, lift, gets}
use fake_ui.Prelude.Action
use fake_ui.Catalog.{find_item, put_item, remove_item}
use fake_ui.Tunnels.{Tunnel, Request, Used, used_values, tunnel_id, tagged}
use fake_ui.Tunnels.Clean.{
  clean_id, clean_domain, id_from_domain, clean_flow, clean_kind, clean_bridge_mode,
  clean_bridge_platform, or_default,
}
use fake_ui.Tunnels.Ports.{next_portal_port, has_port}

-- `data.get(key, existing.get(key, default))`
abbrev pub given {ℓ} : {A : Type ℓ} → Option A → Option Tunnel → (Tunnel → A) → A → A
given (some a) existing field default = a
given none (some t) field default = field t
given none none field default = default

-- `a or b`, for texts and for numbers
abbrev pub or_text : String → String → String
or_text a b = if is_empty a then b else a

abbrev pub or_port : ℕ → ℕ → ℕ
or_port a b = if a == 0 then b else a

abbrev pub text_of : Option String → String
text_of none = ""
text_of (some s) = s

abbrev pub name_of : Option Tunnel → String
name_of none = ""
name_of (some t) = t.name

abbrev pub own_id : Option Tunnel → String
own_id none = ""
own_id (some t) = t.id

-- The id that a domain gives, where one is needed.
abbrev domain_seed : String → Result String
domain_seed domain = if is_empty domain then ok "" else id_from_domain domain

unfoldable pub node_id_of : Request → Option Tunnel → String → Result String
unfolding id_from_domain clean_id
node_id_of r existing domain =
    let given_id = or_text (text_of r.id) (own_id existing) in
    let named = or_text (text_of r.name) (name_of existing) in
    if is_empty given_id
    then (domain_seed domain >>= λ seed. clean_id (or_text seed named))
    else clean_id given_id

-- What the uniqueness checks look at.
pub record Keys : Type 0 where
  pub id : String
  pub domain : String
  pub port : ℕ
  pub client_id : String
  pub email : String
  pub portal_tag : String
  pub reverse_tag : String

abbrev has_text : String → List String → Bool
has_text s used = any (str_eq s) used

unfoldable pub check_keys : Keys → Used → Result (Unit {0})
check_keys k used = do
  raise_if (has_text k.id used.ids) "tunnel id is duplicated"
  raise_if (not (is_empty k.domain) && has_text k.domain used.domains) "public domain is duplicated"
  raise_if (has_port k.port used.ports) "portal port is duplicated"
  raise_if (has_text k.client_id used.uuids) "tunnel UUID is duplicated"

unfoldable pub check_tags : Keys → Used → Result (Unit {0})
check_tags k used =
    raise_if
      (has_text k.email used.emails
        || has_text k.portal_tag used.portal_tags
        || has_text k.reverse_tag used.reverse_tags)
      "tunnel tag is duplicated"

abbrev pub keys_of : String → String → ℕ → String → Keys
keys_of id domain port client_id = record {
  id = id;
  domain = domain;
  port = port;
  client_id = client_id;
  email = tagged "tunnel:" id;
  portal_tag = tagged "tunnel-portal-" id;
  reverse_tag = tagged "tunnel-reverse-" id;
}

abbrev created_of : Option Tunnel → ℕ → ℕ
created_of none now = now
created_of (some t) now = t.created_at

-- The item, from the fields that were checked and those that were not.
unfoldable pub tunnel_of :
    Request → Option Tunnel → ℕ → Keys → String → String → String → String → Tunnel
unfolding clean_flow strip
tunnel_of r existing now k kind bridge_mode bridge_id bridge_platform = record {
  id = k.id;
  kind = kind;
  name = strip (or_text (given r.name existing (λ t. t.name) k.id) k.id);
  enabled = given r.enabled existing (λ t. t.enabled) true;
  mode = strip (or_text (given r.mode existing (λ t. t.mode) "port") "port");
  public_domain = k.domain;
  portal_port = k.port;
  target_host =
      strip (or_text (given r.target_host existing (λ t. t.target_host) "127.0.0.1") "127.0.0.1");
  target_port = given r.target_port existing (λ t. t.target_port) 0;
  client_id = k.client_id;
  email = k.email;
  portal_tag = k.portal_tag;
  reverse_tag = k.reverse_tag;
  bridge_mode = bridge_mode;
  bridge_id = bridge_id;
  bridge_platform = bridge_platform;
  flow = clean_flow (given r.flow existing (λ t. t.flow) "xtls-rprx-vision");
  reality_sni = strip (
      or_text (given r.reality_sni existing (λ t. t.reality_sni) "www.cloudflare.com")
        "www.cloudflare.com");
  server_address =
      strip (or_text (given r.server_address existing (λ t. t.server_address) k.domain) k.domain);
  server_port = or_port (given r.server_port existing (λ t. t.server_port) 443) 443;
  internal_port = or_port (given r.internal_port existing (λ t. t.internal_port) 9443) 9443;
  public_key = strip (given r.public_key existing (λ t. t.public_key) "");
  private_key = strip (given r.private_key existing (λ t. t.private_key) "");
  short_id = strip (given r.short_id existing (λ t. t.short_id) "");
  created_at = created_of existing now;
  updated_at = now;
}

-- The checks behind the item.
unfoldable pub check_item : Tunnel → Result (Unit {0})
check_item t = do
  raise_if (not (str_eq t.mode "port")) "only port tunnel mode is supported"
  raise_if (str_eq t.kind "public_https" && is_empty t.public_domain) "public domain is required"
  raise_if (t.portal_port == 0) "portal port is required"
  raise_if (is_empty t.target_host || t.target_port == 0) "target host and port are required"
  raise_if (is_empty t.server_address) "server address is required"

abbrev kind_default : String → String
kind_default domain = if is_empty domain then "private_tcp" else "public_https"

unfoldable pub normalize_tunnel : ℕ → String → Request → Option Tunnel → List Tunnel → Result Tunnel
normalize_tunnel now uuid r existing tunnels = do
  domain ← clean_domain (given r.public_domain existing (λ t. t.public_domain) "")
  kind ← clean_kind (given r.kind existing (λ t. t.kind) (kind_default domain))
  id ← node_id_of r existing domain
  let client_id = or_text (strip (given r.client_id existing (λ t. t.client_id) "")) uuid
  let port =
      or_port (given r.portal_port existing (λ t. t.portal_port) 0) (next_portal_port tunnels)
  let keys = keys_of id domain port client_id
  check_keys keys (used_values tunnels id)
  bridge_mode ← clean_bridge_mode (given r.bridge_mode existing (λ t. t.bridge_mode) "dedicated")
  bridge_id ← clean_id (or_text (given r.bridge_id existing (λ t. t.bridge_id) id) id)
  bridge_platform ←
      clean_bridge_platform (given r.bridge_platform existing (λ t. t.bridge_platform) "macos")
  check_tags keys (used_values tunnels id)
  let item = tunnel_of r existing now keys kind bridge_mode bridge_id bridge_platform
  check_item item
  ok item

-- The id under which `upsert_tunnel` looks for the item.
unfoldable pub sought_id : Request → Result String
unfolding node_id_of
sought_id r = do
  domain ←
      (if is_empty (text_of r.public_domain) then ok "" else clean_domain (text_of r.public_domain))
  node_id_of r none domain

-- The stored tunnels after a change, or the error and the old ones.
abbrev pub stored_tunnel : String → Result Tunnel → List Tunnel → Result Tunnel × List Tunnel
stored_tunnel id (ok t) tunnels = (ok t, put_item tunnel_id id t tunnels)
stored_tunnel id (err e) tunnels = (err e, tunnels)

unfoldable pub upsert_tunnel : ℕ → String → Request → Action (List Tunnel) Tunnel
unfolding sought_id normalize_tunnel find_item put_item
upsert_tunnel now uuid r tunnels =
    Action.◌>>=◌ (lift (sought_id r))
      (λ id ts. stored_tunnel id (normalize_tunnel now uuid r (find_item tunnel_id id ts) ts) ts)
      tunnels

-- The code looks through the sorted listing, which finds the same tunnel where ids differ.
unfoldable pub get_tunnel : String → Action (List Tunnel) Tunnel
unfolding clean_id find_item
get_tunnel value tunnels = (
  (clean_id value >>= λ id. or_raise (find_item tunnel_id id tunnels) "tunnel not found"),
  tunnels,
)

abbrev pub removed : String → Option Tunnel → List Tunnel → Result Tunnel × List Tunnel
removed id (some t) tunnels = (ok t, remove_item tunnel_id id tunnels)
removed id none tunnels = (err "tunnel not found", tunnels)

unfoldable pub delete_tunnel : String → Action (List Tunnel) Tunnel
unfolding clean_id find_item remove_item
delete_tunnel value =
    Action.◌>>=◌ (lift (clean_id value))
      λ id tunnels. removed id (find_item tunnel_id id tunnels) tunnels

abbrev pub switched : String → Bool → ℕ → Option Tunnel → List Tunnel → Result Tunnel × List Tunnel
switched id enabled now (some t) tunnels =
    let t' : Tunnel = record t { enabled = enabled; updated_at = now } in
    (ok t', put_item tunnel_id id t' tunnels)
switched id enabled now none tunnels = (err "tunnel not found", tunnels)

-- The id is cleaned in the loop: an empty catalogue answers before it is looked at.
unfoldable pub set_tunnel_enabled : ℕ → String → Bool → Action (List Tunnel) Tunnel
unfolding clean_id find_item put_item
set_tunnel_enabled now value enabled [] = (err "tunnel not found", [])
set_tunnel_enabled now value enabled (t ∷ rest) =
    Action.◌>>=◌ (lift (clean_id value))
      (λ id tunnels. switched id enabled now (find_item tunnel_id id tunnels) tunnels) (t ∷ rest)

-- `list_tunnels`, without the order of the listing
unfoldable pub enabled_tunnels : Bool → List Tunnel → List Tunnel
enabled_tunnels include_disabled tunnels =
    if include_disabled then tunnels else filter (λ (t : Tunnel). t.enabled) tunnels
