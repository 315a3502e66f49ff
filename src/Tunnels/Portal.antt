-- ===== src/Tunnels/Portal.antt =====
-- baseline/tunnel_config_builder.py: the part of the Xray configuration that serves the tunnels.
-- An inbound, a client and a rule have the fields that the builder reads or writes. The tag of the
-- panel's own inbound (INBOUND_TAG) is a parameter.
pub mod Rebuild
use fake_ui.Prelude.{
  ℕ, String, Bool, true, false, not, ◌&&◌, ◌||◌, ◌==◌, Option, none, some, List, [], ◌∷◌, ◌++◌, map,
  any, filter, if◌then◌else◌, is_empty, str_eq,
}
use Prim.Native.String
use fake_ui.Prelude.Text.{strip, lower, starts_with}
use fake_ui.Prelude.Clean.{dash_runs, strip_by}
use fake_ui.Prelude.Result.{Result, ok, err, raise_if, or_raise, ◌>>=◌, ◌>>◌}
use fake_ui.Tunnels.{Tunnel}
use fake_ui.Tunnels.Clean.{is_id_char, is_hyphen, or_default}

abbrev pub portal_prefix : String
portal_prefix = "tunnel-portal-"

abbrev pub reverse_prefix : String
reverse_prefix = "tunnel-reverse-"

unfoldable pub safe_tag : String → String
unfolding strip lower dash_runs strip_by
safe_tag value =
    let clean = strip_by is_hyphen (dash_runs is_id_char false (lower (strip value))) in
    if is_empty clean then "node" else clean

unfoldable pub portal_tag : Tunnel → String
unfolding safe_tag
portal_tag node = String.◌++◌ portal_prefix (safe_tag node.id)

unfoldable pub reverse_tag : Tunnel → String
unfolding safe_tag
reverse_tag node = String.◌++◌ reverse_prefix (safe_tag node.id)

unfoldable pub bridge_email : Tunnel → String
unfolding safe_tag strip
bridge_email node =
    strip (if is_empty node.email then String.◌++◌ "tunnel:" (safe_tag node.id) else node.email)

unfoldable pub flow_for_node : Tunnel → String
unfolding strip
flow_for_node node =
    let flow = or_default node.flow "xtls-rprx-vision" in
    if is_empty flow then "xtls-rprx-vision" else flow

-- `reverse_tag` is the tag of `reverse`, empty for a client without.
pub record Client : Type 0 where
  pub id : String
  pub email : String
  pub reverse_tag : String
  pub flow : String

pub record Inbound : Type 0 where
  pub tag : String
  pub listen : String
  pub port : ℕ
  pub protocol : String
  pub clients : List Client

pub record Rule : Type 0 where
  pub inbound_tags : List String
  pub outbound_tag : String

-- The tags of the outbounds stand for them.
pub record Config : Type 0 where
  pub inbounds : List Inbound
  pub outbounds : List String
  pub rules : List Rule

unfoldable pub is_tunnel_client : Client → Bool
is_tunnel_client c = starts_with c.email "tunnel:" || starts_with c.reverse_tag reverse_prefix

unfoldable pub is_portal_inbound : Inbound → Bool
is_portal_inbound i = starts_with i.tag portal_prefix

unfoldable pub is_tunnel_rule : Rule → Bool
is_tunnel_rule r =
    any (λ tag. starts_with tag portal_prefix) r.inbound_tags
    || starts_with r.outbound_tag reverse_prefix

unfoldable pub find_reality_inbound : String → List Inbound → Option Inbound
find_reality_inbound tag [] = none
find_reality_inbound tag (i ∷ rest) =
    let later = find_reality_inbound tag rest in if str_eq i.tag tag then some i else later

-- The inbound that `find_reality_inbound` gives is changed where it stands.
unfoldable pub set_clients : String → List Client → List Inbound → List Inbound
set_clients tag clients [] = []
set_clients tag clients (i ∷ rest) =
    let later = set_clients tag clients rest in
    if str_eq i.tag tag then (record i { clients = clients }) ∷ rest else i ∷ later

-- What the loop over the tunnels has seen.
pub record Seen : Type 0 where
  pub client_ids : List String
  pub ports : List ℕ
  pub portal_tags : List String
  pub reverse_tags : List String
  pub emails : List String

abbrev pub has : String → List String → Bool
has s xs = any (str_eq s) xs

-- The text of a port's error leaves out its number.
abbrev about : Tunnel → String → String
about node what = String.◌++◌ "tunnel " (String.◌++◌ node.id what)

abbrev duplicated : String → String → String
duplicated what tag = String.◌++◌ what (String.◌++◌ tag " is duplicated")

unfoldable pub check_node : List String → Seen → Tunnel → Result (Unit {0})
unfolding strip portal_tag reverse_tag bridge_email
check_node panel_ids seen node = do
  raise_if (is_empty (strip node.client_id)) (about node " UUID is required")
  raise_if (has (strip node.client_id) panel_ids)
      (about node " UUID conflicts with an existing panel user")
  raise_if (has (strip node.client_id) seen.client_ids) (about node " UUID is duplicated")
  raise_if (any (λ p. node.portal_port == p) seen.ports) "tunnel portal port is duplicated"
  raise_if (has (portal_tag node) seen.portal_tags)
      (duplicated "tunnel portal tag " (portal_tag node))
  raise_if (has (reverse_tag node) seen.reverse_tags)
      (duplicated "tunnel reverse tag " (reverse_tag node))
  raise_if (has (bridge_email node) seen.emails) (duplicated "tunnel email " (bridge_email node))

unfoldable pub see : Seen → Tunnel → Seen
unfolding strip portal_tag reverse_tag bridge_email
see seen node = record {
  client_ids = strip node.client_id ∷ seen.client_ids;
  ports = node.portal_port ∷ seen.ports;
  portal_tags = portal_tag node ∷ seen.portal_tags;
  reverse_tags = reverse_tag node ∷ seen.reverse_tags;
  emails = bridge_email node ∷ seen.emails;
}

unfoldable pub check_nodes : List String → Seen → List Tunnel → Result (Unit {0})
unfolding check_node see
check_nodes panel_ids seen [] = ok tt
check_nodes panel_ids seen (node ∷ nodes) =
    check_node panel_ids seen node >> check_nodes panel_ids (see seen node) nodes

unfoldable pub client_of : Tunnel → Client
unfolding strip bridge_email reverse_tag flow_for_node
client_of node = record {
  id = strip node.client_id;
  email = bridge_email node;
  reverse_tag = reverse_tag node;
  flow = flow_for_node node;
}

unfoldable pub inbound_of : Tunnel → Inbound
unfolding portal_tag
inbound_of node = record {
  tag = portal_tag node;
  listen = "0.0.0.0";
  port = node.portal_port;
  protocol = "tunnel";
  clients = [];
}

unfoldable pub rule_of : Tunnel → Rule
unfolding portal_tag reverse_tag
rule_of node = record { inbound_tags = portal_tag node ∷ []; outbound_tag = reverse_tag node }

abbrev pub own_clients : List Client → List Client
own_clients clients = filter (λ c. not (is_tunnel_client c)) clients

abbrev pub enabled_nodes : List Tunnel → List Tunnel
enabled_nodes nodes = filter (λ (n : Tunnel). n.enabled) nodes

-- The ids and the e-mails of the panel's own clients.
abbrev pub panel_client_ids : List Client → List String
panel_client_ids clients =
    filter (λ id. not (is_empty id)) (map (λ (c : Client). strip c.id) clients)

abbrev pub panel_emails : List Client → List String
panel_emails clients =
    map (λ (c : Client). strip c.email) (filter (λ (c : Client). not (is_empty c.email)) clients)

abbrev pub seen_first : List Client → Seen
seen_first clients = record {
  client_ids = [];
  ports = [];
  portal_tags = [];
  reverse_tags = [];
  emails = panel_emails clients;
}

abbrev pub with_direct : List String → List String
with_direct outbounds =
    if any (str_eq "direct") outbounds then outbounds else outbounds ++ ("direct" ∷ [])

-- The configuration, from the panel's own clients and the enabled tunnels.
unfoldable pub portal_config : String → Config → List Client → List Tunnel → Config
unfolding is_tunnel_rule is_portal_inbound client_of inbound_of rule_of set_clients
portal_config inbound_tag cfg own nodes = record {
  inbounds =
      filter (λ i. not (is_portal_inbound i))
        (set_clients inbound_tag (own ++ map client_of nodes) cfg.inbounds)
      ++ map inbound_of nodes;
  outbounds = with_direct cfg.outbounds;
  rules = map rule_of nodes ++ filter (λ r. not (is_tunnel_rule r)) cfg.rules;
}

abbrev pub missing : String → String
missing inbound_tag = String.◌++◌ "未找到 Xray 入站 tag=" inbound_tag

unfoldable pub build_portal_config : String → Config → List Tunnel → Result Config
unfolding find_reality_inbound is_tunnel_client check_nodes portal_config strip
build_portal_config inbound_tag cfg nodes = do
  inbound ← or_raise (find_reality_inbound inbound_tag cfg.inbounds) (missing inbound_tag)
  let own = own_clients inbound.clients
  check_nodes (panel_client_ids own) (seen_first own) (enabled_nodes nodes)
  ok (portal_config inbound_tag cfg own (enabled_nodes nodes))
