-- ===== src/Tests/TunnelExamples.antt =====
-- A catalogue of two tunnels.
use fake_ui.Prelude.{
  ℕ, String, Bool, true, false, none, some, List, [], ◌∷◌, is_empty, ◌≡◌, refl, arith,
}
use fake_ui.Prelude.Result.{ok}
use fake_ui.Tunnels.{Tunnel, Request, used_values}
use fake_ui.Tunnels.Clean.{clean_id, clean_id_idem}
use fake_ui.Tunnels.Normalize.{upsert_tunnel, get_tunnel}
use fake_ui.Tunnels.Ports.{next_portal_port, next_portal_port-IsFirstFree, IsFirstFree}
use fake_ui.Tunnels.Distinct.{IsDistinct}
use fake_ui.Tunnels.Distinct.Refine.{
  Call, upsert_call, delete_call, enable_call, step, run, view, Promise, run-IsDistinct,
  step_refines, get_tunnel-upsert_tunnel,
}

abbrev pub home : Request
home = record {
  id = none;
  kind = none;
  name = some "my home";
  enabled = none;
  mode = none;
  public_domain = some "home.example.org";
  portal_port = none;
  target_host = none;
  target_port = some 8080;
  client_id = none;
  bridge_mode = none;
  bridge_id = none;
  bridge_platform = none;
  flow = none;
  reality_sni = none;
  server_address = none;
  server_port = none;
  internal_port = none;
  public_key = none;
  private_key = none;
  short_id = none;
}

abbrev office : Request
office = record home { public_domain = some "office.example.org" }

abbrev calls : List Call
calls =
    upsert_call 1000 "uuid-1" home
    ∷ upsert_call 1001 "uuid-2" office
    ∷ enable_call 1002 "home-example-org" false
    ∷ []

empty-IsDistinct : IsDistinct []
empty-IsDistinct = record { apart = tt; clean = tt }

abbrev pub home_tunnel : Tunnel
home_tunnel = record {
  id = "home-example-org";
  kind = "public_https";
  name = "my home";
  enabled = true;
  mode = "port";
  public_domain = "home.example.org";
  portal_port = 18081;
  target_host = "127.0.0.1";
  target_port = 8080;
  client_id = "uuid-1";
  email = "tunnel:home-example-org";
  portal_tag = "tunnel-portal-home-example-org";
  reverse_tag = "tunnel-reverse-home-example-org";
  bridge_mode = "dedicated";
  bridge_id = "home-example-org";
  bridge_platform = "macos";
  flow = "xtls-rprx-vision";
  reality_sni = "www.cloudflare.com";
  server_address = "home.example.org";
  server_port = 443;
  internal_port = 9443;
  public_key = "";
  private_key = "";
  short_id = "";
  created_at = 1000;
  updated_at = 1000;
}

upsert_home : upsert_tunnel 1000 "uuid-1" home [] ≡ (ok home_tunnel, home_tunnel ∷ [])
unfolding upsert_tunnel fake_ui.Prelude.Action.◌>>=◌ fake_ui.Prelude.Action.lift
    fake_ui.Tunnels.Clean.clean_domain fake_ui.Tunnels.Clean.clean_kind
    fake_ui.Tunnels.Normalize.check_keys used_values fake_ui.Tunnels.Clean.clean_bridge_mode
    fake_ui.Tunnels.Clean.clean_bridge_platform fake_ui.Tunnels.Normalize.check_tags
    fake_ui.Tunnels.Normalize.check_item fake_ui.Tunnels.Normalize.tunnel_of next_portal_port
upsert_home = refl

get_tunnel-upsert_tunnel_example :
    get_tunnel home_tunnel.id (home_tunnel ∷ []) ≡ (ok home_tunnel, home_tunnel ∷ [])
get_tunnel-upsert_tunnel_example =
    get_tunnel-upsert_tunnel 1000 "uuid-1" home [] (home_tunnel ∷ []) home_tunnel refl
      empty-IsDistinct upsert_home

my_home : clean_id " my home!" ≡ ok "my-home"
unfolding clean_id
my_home = refl

run-IsDistinct_example : IsDistinct (run calls [])
run-IsDistinct_example = run-IsDistinct calls [] (refl, (refl, (tt, tt))) empty-IsDistinct

step_refines_example :
    Promise
      (delete_call "home-example-org")
      (view (run calls []))
      (step (delete_call "home-example-org") (run calls [])).0
      (view (step (delete_call "home-example-org") (run calls [])).1)
step_refines_example =
    step_refines (delete_call "home-example-org") (run calls [])
      (run-IsDistinct calls [] (refl, (refl, (tt, tt))) empty-IsDistinct)

clean_id_idem_example : (clean_id "my-home" ≡ ok "my-home") × (is_empty "my-home" ≡ false)
clean_id_idem_example = clean_id_idem " my home!" "my-home" my_home

next_portal_port-IsFirstFree_example :
    IsFirstFree
      (used_values (home_tunnel ∷ []) "").ports
      18081
      (next_portal_port (home_tunnel ∷ []))
next_portal_port-IsFirstFree_example = next_portal_port-IsFirstFree (home_tunnel ∷ [])
