-- ===== src/Domains.antt =====
-- baseline/tunnel_domains.py: which public domain a tunnel may have. What the resolver answers is a
-- parameter (none where `getaddrinfo` raises), and the environment's variables are arguments.
pub mod Accepted
use fake_ui.Prelude.{
  ℕ, String, Bool, true, false, not, ◌&&◌, ◌||◌, ◌==◌, leb, Option, none, some, List, [], ◌∷◌, ◌++◌,
  map, any, filter, if◌then◌else◌, is_empty, str_eq,
}
use Prim.Native.String
use Prim.Native.Char.{code}
use fake_ui.Prelude.Text.{strip, lower, is_space}
use fake_ui.Prelude.Clean.{split_on, cons_head, all_chars, rstrip_by, any_char}
use fake_ui.Prelude.Result.{Result, ok, err}

abbrev is_digit : ℕ → Bool
is_digit c = leb 48 c && leb c 57

abbrev is_number : String → Bool
is_number s = not (is_empty s) && all_chars is_digit s

abbrev four_numbers : List String → Bool
four_numbers (a ∷ b ∷ c ∷ d ∷ []) = is_number a && is_number b && is_number c && is_number d
four_numbers other = false

-- `^\d+(?:\.\d+){3}$`
unfoldable pub is_ip : String → Bool
unfolding split_on
is_ip s = four_numbers (split_on 46 s)

unfoldable pub clean_domain : String → String
unfolding strip lower rstrip_by is_ip
clean_domain value =
    let domain = rstrip_by (λ c. c == 46) (lower (strip value)) in
    if is_empty domain
    then ""
    else if is_ip domain
    then ""
    else if any_char (λ c. c == 46) domain
    then domain
    else ""

-- `[\s,;]`
abbrev is_separator : ℕ → Bool
is_separator c = is_space c || c == 44 || c == 59

-- The parts between separators. Where `re.split` of a run gives one cut, this gives empty parts
-- between the separators of the run, which all callers drop.
unfoldable pub split_parts : String → List String
split_parts String.[] = "" ∷ []
split_parts (String.◌∷◌ c s) =
    let rest = split_parts s in if is_separator (code c) then "" ∷ rest else cons_head c rest

abbrev pub listed : String → List String → Bool
listed s seen = any (str_eq s) seen

-- The texts that are given, each once, in the order of their first places.
unfoldable pub distinct_from : List String → List String → List String
distinct_from seen [] = []
distinct_from seen (s ∷ rest) =
    let without = distinct_from seen rest in
    let others = distinct_from (s ∷ seen) rest in
    if is_empty s || listed s seen then without else s ∷ others

abbrev pub distinct : List String → List String
distinct values = distinct_from [] values

unfoldable pub split_domains : String → List String
unfolding split_parts clean_domain distinct_from
split_domains value = distinct (map clean_domain (split_parts value))

-- The values of a node that name a domain.
pub record NodeNames : Type 0 where
  pub address : String
  pub domain : String
  pub server : String
  pub server_name : String
  pub host : String
  pub sni : String
  pub reality_sni : String
  pub proxy_addr : String

abbrev node_values : NodeNames → List String
node_values n =
    n.address ∷ n.domain ∷ n.server ∷ n.server_name ∷ n.host ∷ n.sni ∷ n.reality_sni ∷ n.proxy_addr
    ∷ []

abbrev all_values : List NodeNames → List String
all_values [] = []
all_values (n ∷ nodes) = node_values n ++ all_values nodes

unfoldable pub node_reserved_domains : List NodeNames → List String
unfolding clean_domain distinct_from
node_reserved_domains nodes = distinct (map clean_domain (all_values nodes))

-- The id and the public domain of a tunnel.
pub record Named : Type 0 where
  pub id : String
  pub public_domain : String

abbrev pub nonempty : List String → List String
nonempty texts = filter (λ s. not (is_empty s)) texts

unfoldable pub tunnel_domains : List Named → List String
unfolding clean_domain
tunnel_domains tunnels = nonempty (map (λ (t : Named). clean_domain t.public_domain) tunnels)

unfoldable pub candidate_domains : String → String → List String → List Named → List String
unfolding split_domains clean_domain distinct_from
candidate_domains candidates suffixes extra tunnels = distinct (
    split_domains candidates
    ++ split_domains suffixes
    ++ map clean_domain extra
    ++ map (λ (t : Named). clean_domain t.public_domain) tunnels)

-- `HY2_DOMAIN`, `HY_DOMAIN`, and `HY_DOMAIN` of the loaded file: empty where it cannot be loaded.
unfoldable pub hy2_reserved_domains : String → String → String → List String
unfolding clean_domain distinct_from
hy2_reserved_domains hy2_domain hy_domain loaded =
    distinct (clean_domain hy2_domain ∷ clean_domain hy_domain ∷ clean_domain loaded ∷ [])

pub data DomainStatus : Type 0 where
  invalid reserved unresolved resolved unchecked : DomainStatus

pub data Reason : Type 0 where
  no_reason invalid_domain reserved_panel_domain reserved_node_domain already_used_by_tunnel
        not_resolved_to_server server_ip_unknown :
      Reason

pub record DomainItem : Type 0 where
  pub domain : String
  pub status : DomainStatus
  pub reason : Reason
  pub ips : List String

-- The domains that a tunnel must not have.
pub record Taken : Type 0 where
  pub panel_domains : List String
  pub node_domains : List String
  pub tunnels : List Named
  pub nodes : List NodeNames
  pub exclude_tunnel_id : String

unfoldable pub panel_set : Taken → List String
unfolding clean_domain
panel_set k = nonempty (map clean_domain k.panel_domains)

unfoldable pub node_set : Taken → List String
unfolding clean_domain node_reserved_domains
node_set k = nonempty (map clean_domain k.node_domains) ++ node_reserved_domains k.nodes

unfoldable pub tunnel_set : Taken → List String
unfolding tunnel_domains
tunnel_set k =
    tunnel_domains (filter (λ (t : Named). not (str_eq t.id k.exclude_tunnel_id)) k.tunnels)

abbrev item_of : String → DomainStatus → Reason → List String → DomainItem
item_of domain status reason ips = record {
  domain = domain;
  status = status;
  reason = reason;
  ips = ips;
}

abbrev pub is_none : List String → Bool
is_none [] = true
is_none (s ∷ rest) = false

-- `set(xs) & set(ys)`
abbrev pub meets : List String → List String → Bool
meets xs ys = any (λ x. listed x ys) xs

unfoldable pub server_set : List String → List String
unfolding strip
server_set server_ips = nonempty (map strip server_ips)

pub record Options : Type 0 where
  pub available : List DomainItem
  pub unavailable : List DomainItem
  pub server_ips : List String

abbrev pub is_resolved : DomainStatus → Bool
is_resolved DomainStatus.resolved = true
is_resolved other = false

abbrev pub placed : DomainItem → Options → Options
placed item options =
    if is_resolved item.status
    then record options { available = item ∷ options.available }
    else record options { unavailable = item ∷ options.unavailable }

-- The end of `validate_tunnel_domain`.
abbrev pub verdict : List String → DomainItem → Result DomainItem
verdict server_ips item = elim item.status [
  | DomainStatus.resolved ↦ ok item
  | _ ↦ elim item.reason [
    | Reason.not_resolved_to_server ↦
        if is_none server_ips
        then ok (record item { status = DomainStatus.unchecked; reason = Reason.server_ip_unknown })
        else err "public domain must resolve to this server before it can be used"
    | Reason.reserved_panel_domain ↦ err "public domain is reserved for the panel"
    | Reason.reserved_node_domain ↦ err "public domain is reserved for a proxy node"
    | Reason.already_used_by_tunnel ↦ err "public domain is already used by another tunnel"
    | _ ↦ err "public domain is invalid"
  ]
]

abbrev resolved_item : String → List String → List String → DomainItem
resolved_item domain servers ips =
    if not (is_none servers) && not (meets ips servers)
    then item_of domain DomainStatus.unresolved Reason.not_resolved_to_server ips
    else if is_none ips
    then item_of domain DomainStatus.unresolved Reason.not_resolved_to_server []
    else item_of domain DomainStatus.resolved Reason.no_reason ips

module _ (getaddrinfo : String → Option (List String)) where
  unfoldable pub resolve_ips : String → List String
  unfolding distinct_from
  resolve_ips domain = elim (getaddrinfo domain) [ none ↦ [] | some addresses ↦ distinct addresses ]

  abbrev resolved_all : List String → List String
  resolved_all [] = []
  resolved_all (domain ∷ rest) = resolve_ips domain ++ resolved_all rest

  -- TUNNEL_SERVER_IPS, with addresses and domains, or else the addresses of the panel's domains.
  unfoldable pub server_ips_from_env : String → List String → List String
  unfolding strip is_ip split_parts split_domains clean_domain distinct_from resolve_ips
  server_ips_from_env raw_env panel_domains =
      if is_empty (strip raw_env)
      then distinct (resolved_all (nonempty (map clean_domain panel_domains)))
      else distinct (
          filter (λ s. is_ip (strip s)) (split_parts raw_env)
          ++ resolved_all (split_domains raw_env))

  abbrev pub classify_clean : String → List String → Taken → DomainItem
  classify_clean domain server_ips k =
      if is_empty domain
      then item_of "" DomainStatus.invalid Reason.invalid_domain []
      else if listed domain (panel_set k)
      then item_of domain DomainStatus.reserved Reason.reserved_panel_domain []
      else if listed domain (node_set k)
      then item_of domain DomainStatus.reserved Reason.reserved_node_domain []
      else if listed domain (tunnel_set k)
      then item_of domain DomainStatus.reserved Reason.already_used_by_tunnel []
      else resolved_item domain (server_set server_ips) (resolve_ips domain)

  unfoldable pub classify_domain : String → List String → Taken → DomainItem
  unfolding clean_domain panel_set node_set tunnel_set server_set resolve_ips
  classify_domain domain server_ips k = classify_clean (clean_domain domain) server_ips k

  abbrev pub options_of : List String → Taken → List String → Options
  options_of server_ips k [] = record { available = []; unavailable = []; server_ips = server_ips }
  options_of server_ips k (domain ∷ rest) =
      placed (classify_domain domain server_ips k) (options_of server_ips k rest)

  unfoldable pub domain_options : List String → List String → Taken → Options
  unfolding clean_domain distinct_from classify_domain
  domain_options candidates server_ips k =
      options_of server_ips k (distinct (map clean_domain candidates))

  unfoldable pub validate_tunnel_domain : String → List String → Taken → Result DomainItem
  unfolding classify_domain
  validate_tunnel_domain domain server_ips k =
      verdict server_ips (classify_domain domain server_ips k)
