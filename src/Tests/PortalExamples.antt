-- ===== src/Tests/PortalExamples.antt =====
-- A configuration with one tunnel, built again without it.
use fake_ui.Prelude.{String, Bool, true, false, none, some, List, [], ◌∷◌, ◌≡◌, refl}
use fake_ui.Prelude.Result.{ok, err}
use fake_ui.Tunnels.{Tunnel}
use fake_ui.Tunnels.Normalize.{upsert_tunnel}
use fake_ui.Tunnels.Distinct.Refine.{run, upsert_call}
use fake_ui.Tunnels.Portal.{Inbound, Config, build_portal_config, portal_config}
use fake_ui.Tunnels.Portal.Rebuild.{build_portal_config-rebuild}
use fake_ui.Tests.TunnelExamples.{home, home_tunnel}

abbrev panel : Inbound
panel = record {
  tag = "in-443";
  listen = "";
  port = 443;
  protocol = "vless";
  clients = (record { id = "u1"; email = "ann"; reverse_tag = ""; flow = "" }) ∷ [];
}

abbrev base : Config
base = record { inbounds = panel ∷ []; outbounds = []; rules = [] }

abbrev with_home : Config
with_home = portal_config "in-443" base panel.clients (home_tunnel ∷ [])

build_test : build_portal_config "in-443" base (home_tunnel ∷ []) ≡ ok with_home
unfolding build_portal_config
build_test = refl

build_portal_config-rebuild_example :
    build_portal_config "in-443" with_home [] ≡ build_portal_config "in-443" base []
build_portal_config-rebuild_example =
    build_portal_config-rebuild "in-443" refl base with_home (home_tunnel ∷ []) [] build_test

-- Ids that differ in case have the same tags, for which no configuration is built.
case_test :
    build_portal_config "in-443" base (
      run
        (upsert_call 1000 "uuid-1"
            (record home { id = some "home"; public_domain = some "a.example.org" })
          ∷ upsert_call 1001 "uuid-2"
              (record home { id = some "Home"; public_domain = some "b.example.org" })
          ∷ [])
        [])
    ≡ err "tunnel portal tag tunnel-portal-home is duplicated"
unfolding build_portal_config run upsert_tunnel fake_ui.Prelude.Action.◌>>=◌
    fake_ui.Prelude.Action.lift fake_ui.Tunnels.Clean.clean_domain fake_ui.Tunnels.Clean.clean_kind
    fake_ui.Tunnels.Normalize.check_keys fake_ui.Tunnels.used_values
    fake_ui.Tunnels.Clean.clean_bridge_mode fake_ui.Tunnels.Clean.clean_bridge_platform
    fake_ui.Tunnels.Normalize.check_tags fake_ui.Tunnels.Normalize.check_item
    fake_ui.Tunnels.Normalize.tunnel_of fake_ui.Tunnels.Ports.next_portal_port
case_test = refl
