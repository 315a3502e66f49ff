-- ===== src/Pairing/Own.antt =====
-- The configuration that baseline/agent_pairing.py gives to an agent: the tunnels of its own bridge.
use fake_ui.Prelude.{
  String, Bool, true, false, List, [], ◌∷◌, filter, any, All, if◌then◌else◌, str_eq, eq_iff, ◌≡◌,
  ◌≢◌, refl, sym, ◌∙◌, arith, inl, inr, Bool-cases,
}
use mathlib.Core.Path.{subst}
use fake_ui.Prelude.Text.{strip, lower}
use fake_ui.Prelude.Result.{ok, >>=-eq-ok, ok-injective}
use fake_ui.Tunnels.{Tunnel}
use fake_ui.Tunnels.Clean.{clean_id, clean_bridge_platform}
use fake_ui.Tunnels.Normalize.{get_tunnel}
use fake_ui.Tunnels.Portal.{enabled_nodes}
use fake_ui.Pairing.{Pairing}
use fake_ui.Pairing.Bootstrap.{
  is_shared, some_tunnels, shared_bridge_tunnels, shared_bridge_config, check_shared,
  effective_platform_for_record, bridge_config_for_pairing, capabilities_for_payload,
}

-- A tunnel of the shared bridge with the clean id.
abbrev pub IsShared : String → Tunnel → Type 0
IsShared id t = (t.enabled ≡ true) × (t.bridge_mode ≡ "shared") × (t.bridge_id ≡ id)

-- The tunnels of a pairing's bridge: the one tunnel of a dedicated bridge, and of a shared bridge
-- enabled ones, all in their order, and at least one.
pub data OwnTunnels (pairing : Pairing) (tunnels : List Tunnel) : List Tunnel → Type 0 where
  dedicated :
      (t : Tunnel)
      → pairing.bundle_kind ≡ "dedicated"
      → (get_tunnel pairing.bridge_id tunnels).0 ≡ ok t
      → OwnTunnels pairing tunnels (t ∷ [])
  shared :
      (id : String) (own : List Tunnel)
      → pairing.bundle_kind ≡ "shared"
      → clean_id pairing.bridge_id ≡ ok id
      → own ≢ []
      → own ≡ filter (is_shared id) tunnels
      → All (IsShared id) own
      → OwnTunnels pairing tunnels own

filter-IsShared :
    (id : String) (tunnels : List Tunnel) → All (IsShared id) (filter (is_shared id) tunnels)
filter-IsShared id [] = tt
filter-IsShared id (t ∷ rest) = elim (Bool-cases (is_shared id t)) [
  | inl own ↦ rw own (
    (
      ground arith,
      (eq_iff t.bridge_mode "shared").0 (ground arith),
      (eq_iff t.bridge_id id).0 (ground arith),
    ),
    filter-IsShared id rest,
  )
  | inr other ↦ rw other (filter-IsShared id rest)
]

cons_ne : (t : Tunnel) (rest nodes : List Tunnel) → (t ∷ rest) ≡ nodes → nodes ≢ []
cons_ne t rest nodes e none_left = let no : (t ∷ rest) ≡ [] = e ∙ none_left in absurd cc

some_tunnels-ok :
    (own nodes : List Tunnel) → some_tunnels own ≡ ok nodes → (own ≡ nodes) × (nodes ≢ [])
some_tunnels-ok [] nodes e = absurd cc
some_tunnels-ok (t ∷ rest) nodes e = (cc e, cons_ne t rest nodes (cc e))

shared_bridge_config-own :
    (pairing : Pairing) (tunnels config : List Tunnel)
    → pairing.bundle_kind ≡ "shared"
    → shared_bridge_config pairing.bridge_id tunnels ≡ ok config
    → OwnTunnels pairing tunnels config
unfolding shared_bridge_config shared_bridge_tunnels
shared_bridge_config-own pairing tunnels config kind e =
    let (nodes, e1, r1) = >>=-eq-ok (shared_bridge_tunnels pairing.bridge_id tunnels) _ e in
    let (id, cleaned, e2) = >>=-eq-ok (clean_id pairing.bridge_id) _ e1 in
    let (_, checked, last) = >>=-eq-ok (check_shared ("direct" ∷ []) (enabled_nodes nodes)) _ r1 in
    let (own, some_left) = some_tunnels-ok (filter (is_shared id) tunnels) nodes e2 in
    let kept : All (IsShared id) nodes =
      subst (All (IsShared id)) own (filter-IsShared id tunnels) in
    subst (OwnTunnels pairing tunnels) (ok-injective nodes config last)
      (shared id nodes kind cleaned some_left (sym own) kept)

pub bridge_config-own :
    (pairing : Pairing) (platform : String) (tunnels config : List Tunnel)
    → bridge_config_for_pairing pairing platform tunnels ≡ ok config
    → OwnTunnels pairing tunnels config
unfolding bridge_config_for_pairing
bridge_config-own pairing platform tunnels config e =
    let (checked, e1, r1) = >>=-eq-ok (effective_platform_for_record pairing platform) _ e in
    elim (Bool-cases (str_eq pairing.bundle_kind "dedicated")) [
      | inl one ↦
          let (t, got, last) =
            >>=-eq-ok (get_tunnel pairing.bridge_id tunnels).0 _ (rw one at r1) in
          subst (OwnTunnels pairing tunnels) (ok-injective (t ∷ []) config last)
            (dedicated t ((eq_iff pairing.bundle_kind "dedicated").0 one) got)
      | inr other ↦ elim (Bool-cases (str_eq pairing.bundle_kind "shared")) [
        | inl several ↦
            shared_bridge_config-own pairing tunnels config
              ((eq_iff pairing.bundle_kind "shared").0 several) (rw (other, several) at r1)
        | inr unknown ↦ absurd cc (rw (other, unknown) at r1)
      ]
    ]

pub capabilities-desktop :
    (has_desktop : Bool)
    → any (str_eq "remote_desktop") (capabilities_for_payload has_desktop) ≡ has_desktop
unfolding capabilities_for_payload
capabilities-desktop true = refl
capabilities-desktop false = refl

pub effective_platform-own :
    (pairing : Pairing) (requested p : String)
    → effective_platform_for_record pairing requested ≡ ok p
    → clean_bridge_platform (
        if str_eq (lower (strip pairing.platform)) "auto"
        then lower (strip requested)
        else lower (strip pairing.platform))
      ≡ ok p
unfolding effective_platform_for_record
effective_platform-own pairing requested p e = ground arith
