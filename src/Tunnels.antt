-- ===== src/Tunnels.antt =====
-- baseline/tunnel_catalog.py: the catalogue of tunnels. A request names the fields that it gives;
-- ports are natural numbers. The random UUID and the clock are arguments.
pub mod Clean
pub mod Ports
pub mod Normalize
pub mod Distinct
pub mod Portal
use fake_ui.Prelude.{
  ℕ, ◌+◌, String, Bool, true, false, not, ◌==◌, Option, none, some, List, [], ◌∷◌, if◌then◌else◌,
  is_empty,
}
use Prim.Native.String
use fake_ui.Prelude.Text.{lower}
use fake_ui.Catalog.{column}

pub record Tunnel : Type 0 where
  pub id : String
  pub kind : String
  pub name : String
  pub enabled : Bool
  pub mode : String
  pub public_domain : String
  pub portal_port : ℕ
  pub target_host : String
  pub target_port : ℕ
  pub client_id : String
  pub email : String
  pub portal_tag : String
  pub reverse_tag : String
  pub bridge_mode : String
  pub bridge_id : String
  pub bridge_platform : String
  pub flow : String
  pub reality_sni : String
  pub server_address : String
  pub server_port : ℕ
  pub internal_port : ℕ
  pub public_key : String
  pub private_key : String
  pub short_id : String
  pub created_at : ℕ
  pub updated_at : ℕ

-- The `data` of a request; `none` for a key that it does not have.
pub record Request : Type 0 where
  pub id : Option String
  pub kind : Option String
  pub name : Option String
  pub enabled : Option Bool
  pub mode : Option String
  pub public_domain : Option String
  pub portal_port : Option ℕ
  pub target_host : Option String
  pub target_port : Option ℕ
  pub client_id : Option String
  pub bridge_mode : Option String
  pub bridge_id : Option String
  pub bridge_platform : Option String
  pub flow : Option String
  pub reality_sni : Option String
  pub server_address : Option String
  pub server_port : Option ℕ
  pub internal_port : Option ℕ
  pub public_key : Option String
  pub private_key : Option String
  pub short_id : Option String

abbrev pub tunnel_id : Tunnel → String
tunnel_id t = t.id

-- The tags of an item that has none of its own.
abbrev pub tagged : String → String → String
tagged prefix id = String.◌++◌ prefix id

abbrev pub own_or : String → String → String
own_or text other = if is_empty text then other else text

-- The sets of `used_values`, without the item `exclude_id`.
pub record Used : Type 0 where
  pub ids : List String
  pub domains : List String
  pub ports : List ℕ
  pub uuids : List String
  pub emails : List String
  pub portal_tags : List String
  pub reverse_tags : List String

abbrev has_id : Tunnel → Bool
has_id t = not (is_empty t.id)

unfoldable pub used_values : List Tunnel → String → Used
unfolding column
used_values tunnels exclude_id = record {
  ids = column tunnel_id has_id tunnel_id exclude_id tunnels;
  domains =
      column tunnel_id (λ t. not (is_empty t.public_domain)) (λ t. lower t.public_domain) exclude_id
        tunnels;
  ports = column tunnel_id (λ t. not (t.portal_port == 0)) (λ t. t.portal_port) exclude_id tunnels;
  uuids = column tunnel_id (λ t. not (is_empty t.client_id)) (λ t. t.client_id) exclude_id tunnels;
  emails = column tunnel_id has_id (λ t. own_or t.email (tagged "tunnel:" t.id)) exclude_id tunnels;
  portal_tags =
      column tunnel_id has_id (λ t. own_or t.portal_tag (tagged "tunnel-portal-" t.id)) exclude_id
        tunnels;
  reverse_tags =
      column tunnel_id has_id (λ t. own_or t.reverse_tag (tagged "tunnel-reverse-" t.id)) exclude_id
        tunnels;
}
