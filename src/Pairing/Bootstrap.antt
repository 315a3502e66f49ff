-- ===== src/Pairing/Bootstrap.antt =====
-- `bootstrap_agent` of baseline/agent_pairing.py: an agent shows its token and gets the configuration
-- of its bridge. The configuration stands for its tunnels; of the shared one, the check of the tags of
-- baseline/tunnel_config_builder.py is modelled. What `remote_desktop_for_bridge` gives is an argument.
use fake_ui.Prelude.{
  ℕ, String, Bool, not, ◌&&◌, some, List, [], ◌∷◌, ◌++◌, filter, any, if◌then◌else◌, is_empty,
  str_eq,
}
use Prim.Native.String
use fake_ui.Prelude.Text.{strip, lower}
use fake_ui.Prelude.Result.{Result, ok, err, raise_if}
use fake_ui.Prelude.Result
use fake_ui.Prelude.Action.{Action, lift, pure, ◌>>=◌}
use fake_ui.Tunnels.{Tunnel}
use fake_ui.Tunnels.Clean.{clean_id, clean_bridge_platform}
use fake_ui.Tunnels.Normalize.{get_tunnel}
use fake_ui.Tunnels.Portal.{safe_tag, enabled_nodes, has}
use fake_ui.Pairing.{Pairing, Pairings, pairing_snapshot, mark_pairing_used, base_capabilities}

-- The fields of a request's body, empty where it has none.
pub record Body : Type 0 where
  pub schema : String
  pub token_id : String
  pub pairing_token : String
  pub platform : String

unfoldable pub validate_bootstrap_request : Body → Result (String × String)
unfolding strip
validate_bootstrap_request b =
    Result.◌>>◌ (raise_if (not (str_eq b.schema "1")) "schema is invalid") (
      Result.◌>>◌ (raise_if (is_empty (strip b.token_id)) "token_id is required") (
        Result.◌>>◌ (raise_if (is_empty (strip b.pairing_token)) "pairing_token is required")
          (ok (strip b.token_id, strip b.pairing_token))))

unfoldable pub effective_platform_for_record : Pairing → String → Result String
unfolding strip lower clean_bridge_platform
effective_platform_for_record r requested_platform =
    let platform = lower (strip r.platform) in
    let requested = lower (strip requested_platform) in
    if not (str_eq platform "auto")
    then clean_bridge_platform platform
    else if any (str_eq requested) ("auto" ∷ "universal" ∷ "" ∷ [])
    then err "agent platform is required"
    else clean_bridge_platform requested

abbrev pub is_shared : String → Tunnel → Bool
is_shared bridge_id t = t.enabled && str_eq t.bridge_mode "shared" && str_eq t.bridge_id bridge_id

abbrev pub some_tunnels : List Tunnel → Result (List Tunnel)
some_tunnels [] = err "shared bridge not found"
some_tunnels (t ∷ rest) = ok (t ∷ rest)

-- In the order of the catalogue, where the listing has them by their ports.
unfoldable pub shared_bridge_tunnels : String → List Tunnel → Result (List Tunnel)
unfolding clean_id
shared_bridge_tunnels bridge_id tunnels =
    Result.◌>>=◌ (clean_id bridge_id) λ id. some_tunnels (filter (is_shared id) tunnels)

-- The three tags of a tunnel in the shared configuration.
unfoldable pub shared_tags : Tunnel → List String
unfolding safe_tag
shared_tags t =
    let tag = safe_tag t.id in
    String.◌++◌ "tunnel-local-service-" tag
    ∷ String.◌++◌ "tunnel-reverse-out-" tag
    ∷ String.◌++◌ "tunnel-reverse-in-" tag
    ∷ []

abbrev see_tags : String → List String → List String → Result (List String)
see_tags id seen [] = ok seen
see_tags id seen (tag ∷ tags) =
    Result.◌>>◌ (raise_if (has tag seen) (String.◌++◌ "shared bridge tag is duplicated for " id))
      (see_tags id (tag ∷ seen) tags)

unfoldable pub check_shared : List String → List Tunnel → Result (Unit {0})
unfolding shared_tags strip
check_shared seen [] = ok tt
check_shared seen (t ∷ nodes) =
    Result.◌>>=◌ (see_tags (strip t.id) seen (shared_tags t)) λ later. check_shared later nodes

unfoldable pub shared_bridge_config : String → List Tunnel → Result (List Tunnel)
unfolding shared_bridge_tunnels check_shared
shared_bridge_config bridge_id tunnels =
    Result.◌>>=◌ (shared_bridge_tunnels bridge_id tunnels)
      λ nodes. Result.◌>>◌ (check_shared ("direct" ∷ []) (enabled_nodes nodes)) (ok nodes)

unfoldable pub bridge_config_for_pairing : Pairing → String → List Tunnel → Result (List Tunnel)
unfolding effective_platform_for_record get_tunnel shared_bridge_config
bridge_config_for_pairing r platform tunnels =
    Result.◌>>=◌ (effective_platform_for_record r platform) λ checked.
      if str_eq r.bundle_kind "dedicated"
      then Result.◌>>=◌ (get_tunnel r.bridge_id tunnels).0 (λ t. ok (t ∷ []))
      else if str_eq r.bundle_kind "shared"
      then shared_bridge_config r.bridge_id tunnels
      else err "bundle kind is invalid"

abbrev desktop_capability : Bool → List String
desktop_capability has_desktop = if has_desktop then "remote_desktop" ∷ [] else []

-- The configuration is never empty.
unfoldable pub capabilities_for_payload : Bool → List String
capabilities_for_payload has_desktop =
    base_capabilities
    ++ ("tcp_tunnel" ∷ [])
    ++ desktop_capability has_desktop
    ++ ("proxy_compat" ∷ [])

pub record Agent : Type 0 where
  pub agent_id : String
  pub bridge_id : String
  pub bundle_kind : String
  pub platform : String
  pub capabilities : List String
  pub tunnels : List Tunnel

abbrev pub agent_of : Pairing → String → Bool → List Tunnel → Agent
agent_of r platform has_desktop tunnels = record {
  agent_id = r.agent_id;
  bridge_id = r.bridge_id;
  bundle_kind = r.bundle_kind;
  platform = platform;
  capabilities = capabilities_for_payload has_desktop;
  tunnels = tunnels;
}

module _ (token_hash : String → String) where
  -- What is made of a snapshot, before the pairing is marked.
  abbrev pub prepared :
      Body → Result Bool → List Tunnel → Pairing → Result (String × Bool × List Tunnel)
  prepared body desktop tunnels snapshot =
      Result.◌>>=◌ (effective_platform_for_record snapshot body.platform) λ platform.
        Result.◌>>=◌ (bridge_config_for_pairing snapshot platform tunnels)
          λ config. Result.◌>>=◌ desktop λ has_desktop. ok (platform, has_desktop, config)

  abbrev pub finish :
      ℕ → String → String → Pairing → String × Bool × List Tunnel → Action Pairings Agent
  finish now token_id token snapshot (platform, has_desktop, config) =
      mark_pairing_used token_hash now token_id token (some snapshot) >>= λ r.
      pure (agent_of r platform has_desktop config)

  unfoldable pub bootstrap_agent : ℕ → Body → Result Bool → List Tunnel → Action Pairings Agent
  unfolding validate_bootstrap_request pairing_snapshot mark_pairing_used
      effective_platform_for_record bridge_config_for_pairing capabilities_for_payload lift pure
      ◌>>=◌
  bootstrap_agent now body desktop tunnels = lift (validate_bootstrap_request body) >>= λ tokens.
      pairing_snapshot token_hash now tokens.0 tokens.1 >>= λ snapshot.
      lift (prepared body desktop tunnels snapshot) >>= finish now tokens.0 tokens.1 snapshot
