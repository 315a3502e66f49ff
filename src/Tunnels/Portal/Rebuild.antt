-- ===== src/Tunnels/Portal/Rebuild.antt =====
-- A second build of the configuration of baseline/tunnel_config_builder.py takes out all that the
-- first has put in.
use fake_ui.Prelude.{
  String, Bool, true, false, not, some, List, [], ◌∷◌, ◌++◌, map, any, filter, str_eq, eq_iff, ◌≡◌,
  refl, sym, ap, ◌∙◌, arith, Bool-cases, inl, inr,
}
use Prim.Native.String
use Prim.Native.String.append
use mathlib.Core.Path.{subst}
use fake_ui.Prelude.Text.{starts_with}
use fake_ui.Prelude.Result.{Result, ok, or_raise, or_raise-eq_ok, ok-injective, >>=-eq-ok, ◌>>◌}
use fake_ui.Tunnels.{Tunnel}
use fake_ui.Tunnels.Portal.{
  safe_tag, Client, Inbound, Rule, Config, portal_prefix, reverse_prefix, portal_tag, reverse_tag,
  is_tunnel_client, is_portal_inbound, is_tunnel_rule, find_reality_inbound, set_clients, client_of,
  inbound_of, rule_of, own_clients, enabled_nodes, panel_client_ids, seen_first, check_nodes,
  with_direct, portal_config, build_portal_config, missing,
}

-- Lists: what a filter keeps of two parts, and of itself.
module _ {A : Type 0} (p : A → Bool) where
  filter-append : (xs ys : List A) → filter p (xs ++ ys) ≡ filter p xs ++ filter p ys
  filter-append [] ys = refl
  filter-append (x ∷ xs) ys = ground (arith, filter-append xs ys)

  filter_idem : (xs : List A) → filter p (filter p xs) ≡ filter p xs
  filter_idem [] = refl
  filter_idem (x ∷ xs) = ground (arith, filter_idem xs)

  filter-map_none :
      {B : Type 0} (f : B → A) (never : (b : B) → p (f b) ≡ false) (bs : List B)
      → filter p (map f bs) ≡ []
  filter-map_none f never [] = refl
  filter-map_none f never (b ∷ bs) = ground (arith, never b, filter-map_none f never bs)

append_nil : {A : Type 0} (xs : List A) → xs ++ [] ≡ xs
append_nil [] = refl
append_nil (x ∷ xs) = ap (λ ys. x ∷ ys) (append_nil xs)

starts_with-append : (p s : String) → starts_with (String.◌++◌ p s) p ≡ true
starts_with-append String.[] s = refl
starts_with-append (String.◌∷◌ c p) s =
    rw (append.cons c p s) (ground (arith, starts_with-append p s))

client_of-IsTunnel : (node : Tunnel) → not (is_tunnel_client (client_of node)) ≡ false
unfolding is_tunnel_client client_of reverse_tag
client_of-IsTunnel node = ground (arith, starts_with-append reverse_prefix (safe_tag node.id))

inbound_of-IsPortal : (node : Tunnel) → not (is_portal_inbound (inbound_of node)) ≡ false
unfolding is_portal_inbound inbound_of portal_tag
inbound_of-IsPortal node = ground (arith, starts_with-append portal_prefix (safe_tag node.id))

rule_of-IsTunnel : (node : Tunnel) → not (is_tunnel_rule (rule_of node)) ≡ false
unfolding is_tunnel_rule rule_of portal_tag
rule_of-IsTunnel node = ground (arith, starts_with-append portal_prefix (safe_tag node.id))

some-injective : {A : Type 0} (a b : A) → some a ≡ some b → a ≡ b
some-injective a b e = cc

some-tag :
    (tag : String) (j i : Inbound)
    → str_eq j.tag tag ≡ true
    → some j ≡ some i
    → str_eq i.tag tag ≡ true
some-tag tag j i here e = cc

-- The tag of an inbound that is found.
find-tag :
    (tag : String) (is : List Inbound) (i : Inbound)
    → find_reality_inbound tag is ≡ some i
    → str_eq i.tag tag ≡ true
unfolding find_reality_inbound
find-tag tag [] i e = absurd cc
find-tag tag (j ∷ rest) i e = elim (Bool-cases (str_eq j.tag tag)) [
  | inl here ↦ some-tag tag j i here (rw here at e)
  | inr other ↦ find-tag tag rest i (rw other at e)
]

module _ (tag : String) (own_tag : starts_with tag portal_prefix ≡ false) where
  -- The panel's own inbound is none of the portals'.
  own_portal : (i : Inbound) → str_eq i.tag tag ≡ true → starts_with i.tag portal_prefix ≡ false
  own_portal i here = let same : i.tag ≡ tag = (eq_iff i.tag tag).0 here in rw same own_tag

  abbrev kept : List Inbound → List Inbound
  kept is = filter (λ i. not (is_portal_inbound i)) is

  find-rebuilt :
      (clients : List Client) (is new : List Inbound) (i : Inbound)
      → find_reality_inbound tag is ≡ some i
      → find_reality_inbound tag (kept (set_clients tag clients is) ++ new)
        ≡ some (record i { clients = clients })
  unfolding find_reality_inbound set_clients is_portal_inbound
  find-rebuilt clients [] new i e = absurd cc
  find-rebuilt clients (j ∷ rest) new i e = elim (Bool-cases (str_eq j.tag tag)) [
    | inl here ↦
        let own : starts_with j.tag portal_prefix ≡ false = own_portal j here in
        let same : some j ≡ some i = rw here at e in
        rw (here, own, here)
          (ap (λ (x : Inbound). some (record x { clients = clients })) (some-injective j i same))
    | inr other ↦
        let ih = find-rebuilt clients rest new i (rw other at e) in
        elim (Bool-cases (starts_with j.tag portal_prefix)) [
          | inl portal ↦ rw (other, portal) ih
          | inr own ↦ rw (other, own, other) ih
        ]
  ]

  -- Setting the clients again.
  set-rebuilt :
      (clients clients' : List Client) (is new : List Inbound) (i : Inbound)
      → find_reality_inbound tag is ≡ some i
      → kept (set_clients tag clients' (kept (set_clients tag clients is) ++ new))
        ≡ kept (set_clients tag clients' is) ++ kept new
  unfolding find_reality_inbound set_clients is_portal_inbound
  set-rebuilt clients clients' [] new i e = absurd cc
  set-rebuilt clients clients' (j ∷ rest) new i e = elim (Bool-cases (str_eq j.tag tag)) [
    | inl here ↦
        let own : starts_with j.tag portal_prefix ≡ false = own_portal j here in
        rw (here, own, here, own)
          (ap (λ is. record j { clients = clients' } ∷ is)
            (filter-append (λ x. not (is_portal_inbound x)) (kept rest) new
              ∙ ap (λ is. is ++ kept new) (filter_idem (λ x. not (is_portal_inbound x)) rest)))
    | inr other ↦
        let ih = set-rebuilt clients clients' rest new i (rw other at e) in
        elim (Bool-cases (starts_with j.tag portal_prefix)) [
          | inl portal ↦ rw (other, portal) ih
          | inr own ↦ rw (other, own, other, own) (ap (λ is. j ∷ is) ih)
        ]
  ]

-- The build behind the inbound that was found.
abbrev built : String → Config → List Client → List Tunnel → Result Config
built tag cfg own nodes =
    check_nodes (panel_client_ids own) (seen_first own) (enabled_nodes nodes)
    >> ok (portal_config tag cfg own (enabled_nodes nodes))

build-run :
    (tag : String) (cfg : Config) (nodes : List Tunnel) (i : Inbound)
    → find_reality_inbound tag cfg.inbounds ≡ some i
    → build_portal_config tag cfg nodes ≡ built tag cfg (own_clients i.clients) nodes
unfolding build_portal_config
build-run tag cfg nodes i found = rw found refl

-- The panel's own clients stay those that they were.
own_clients-rebuilt :
    (clients : List Client) (nodes : List Tunnel)
    → own_clients (own_clients clients ++ map client_of nodes) ≡ own_clients clients
own_clients-rebuilt clients nodes =
    filter-append (λ c. not (is_tunnel_client c)) (own_clients clients) (map client_of nodes)
    ∙ ap (λ cs. own_clients (own_clients clients) ++ cs)
        (filter-map_none (λ c. not (is_tunnel_client c)) client_of client_of-IsTunnel nodes)
    ∙ append_nil (own_clients (own_clients clients))
    ∙ filter_idem (λ c. not (is_tunnel_client c)) clients

any-append_last :
    (outbounds : List String) → any (str_eq "direct") (outbounds ++ ("direct" ∷ [])) ≡ true
any-append_last [] = refl
any-append_last (o ∷ rest) = ground (arith, any-append_last rest)

with_direct_idem :
    (outbounds : List String) → with_direct (with_direct outbounds) ≡ with_direct outbounds
with_direct_idem outbounds = elim (Bool-cases (any (str_eq "direct") outbounds)) [
  | inl has ↦ rw (has, has) refl
  | inr lacks ↦ rw (lacks, any-append_last outbounds) refl
]

abbrev no_rule : Rule → Bool
no_rule r = not (is_tunnel_rule r)

rules-rebuilt :
    (rules : List Rule) (nodes : List Tunnel)
    → filter no_rule (map rule_of nodes ++ filter no_rule rules) ≡ filter no_rule rules
rules-rebuilt rules nodes =
    filter-append no_rule (map rule_of nodes) (filter no_rule rules)
    ∙ ap (λ rs. rs ++ filter no_rule (filter no_rule rules))
        (filter-map_none no_rule rule_of rule_of-IsTunnel nodes)
    ∙ filter_idem no_rule rules

module _ (tag : String) (own_tag : starts_with tag portal_prefix ≡ false) where
  config-rebuilt :
      (cfg : Config) (own own' : List Client) (nodes nodes' : List Tunnel) (i : Inbound)
      → find_reality_inbound tag cfg.inbounds ≡ some i
      → portal_config tag (portal_config tag cfg own nodes) own' nodes'
        ≡ portal_config tag cfg own' nodes'
  unfolding portal_config
  config-rebuilt cfg own own' nodes nodes' i found =
      let inbounds =
        set-rebuilt tag own_tag (own ++ map client_of nodes) (own' ++ map client_of nodes')
          cfg.inbounds (map inbound_of nodes) i found
        ∙ ap
            (λ is.
              kept tag own_tag (set_clients tag (own' ++ map client_of nodes') cfg.inbounds) ++ is)
            (filter-map_none (λ x. not (is_portal_inbound x)) inbound_of inbound_of-IsPortal nodes)
        ∙ append_nil
            (kept tag own_tag (set_clients tag (own' ++ map client_of nodes') cfg.inbounds)) in
      rw (inbounds, with_direct_idem cfg.outbounds, rules-rebuilt cfg.rules nodes) refl

  found_again :
      (cfg : Config) (own : List Client) (nodes : List Tunnel) (i : Inbound)
      → find_reality_inbound tag cfg.inbounds ≡ some i
      → find_reality_inbound tag (portal_config tag cfg own nodes).inbounds
        ≡ some (record i { clients = own ++ map client_of nodes })
  unfolding portal_config
  found_again cfg own nodes i found =
      find-rebuilt tag own_tag (own ++ map client_of nodes) cfg.inbounds (map inbound_of nodes) i
        found

  -- A configuration that was built once is rebuilt, for other tunnels, as if only the second build
  -- had taken place: the first leaves no client, inbound or rule behind. The tag of the panel's
  -- inbound does not start as a portal's.
  pub build_portal_config-rebuild :
      (cfg cfg' : Config) (nodes nodes' : List Tunnel)
      → build_portal_config tag cfg nodes ≡ ok cfg'
      → build_portal_config tag cfg' nodes' ≡ build_portal_config tag cfg nodes'
  unfolding build_portal_config
  build_portal_config-rebuild cfg cfg' nodes nodes' e =
      let (i, found_i, e1) =
        >>=-eq-ok (or_raise (find_reality_inbound tag cfg.inbounds) (missing tag)) _ e in
      let found = or_raise-eq_ok (find_reality_inbound tag cfg.inbounds) (missing tag) i found_i in
      let own = own_clients i.clients in
      let (_, _, e2) =
        >>=-eq-ok (check_nodes (panel_client_ids own) (seen_first own) (enabled_nodes nodes)) _
          e1 in
      let is_cfg' : portal_config tag cfg own (enabled_nodes nodes) ≡ cfg' =
        ok-injective (portal_config tag cfg own (enabled_nodes nodes)) cfg' e2 in
      let clients = own ++ map client_of (enabled_nodes nodes) in
      subst (λ c. build_portal_config tag c nodes' ≡ build_portal_config tag cfg nodes') is_cfg'
        (build-run tag (portal_config tag cfg own (enabled_nodes nodes)) nodes'
            (record i { clients = clients }) (found_again cfg own (enabled_nodes nodes) i found)
          ∙ ap (λ o. built tag (portal_config tag cfg own (enabled_nodes nodes)) o nodes')
              (own_clients-rebuilt i.clients (enabled_nodes nodes))
          ∙ ap
              (λ c.
                check_nodes (panel_client_ids own) (seen_first own) (enabled_nodes nodes') >> ok c)
              (config-rebuilt cfg own own (enabled_nodes nodes) (enabled_nodes nodes') i found)
          ∙ sym (build-run tag cfg nodes' i found))
