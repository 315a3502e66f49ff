-- ===== src/Tests/PairingExamples.antt =====
-- A pairing that is created and consumed.
use fake_ui.Prelude.{
  ℕ, String, Bool, true, false, none, some, List, [], ◌∷◌, ◌≡◌, ◌≢◌, refl, eq_iff, arith,
}
use fake_ui.Prelude.Result.{ok, err}
use fake_ui.Pairing.{
  Pairing, Draws, Created, PublicPairing, create_pairing, consume_pairing, mark_pairing_used,
  public_record,
}
use fake_ui.Pairing.Marked.{Marked, mark_pairing_used-Marked, consume_pairing-create_pairing}
use fake_ui.Pairing.Bootstrap.{Body, Agent, bootstrap_agent}
use fake_ui.Pairing.Atomic.{
  RollsBack, Bootstrapped, bootstrap_agent-RollsBack, bootstrap_agent-Bootstrapped,
}
use fake_ui.Tests.TunnelExamples.{home_tunnel}
use fake_ui.Pairing.Once.{Call, snapshot, mark, run, consumed_once}

abbrev plain : String → String
plain s = s

abbrev draws : Draws
draws = record { pairing_token = "secret"; token = "t1"; agent = "a1" }

abbrev row : Pairing
row = record {
  token_id = "pair_t1";
  token_hash = "secret";
  bridge_id = "home";
  bundle_kind = "dedicated";
  platform = "macos";
  expires_at = some 2800;
  used_at = none;
  created_at = 1000;
  created_by = "admin";
  agent_id = "agent_a1";
  capabilities = "bootstrap" ∷ "local_status" ∷ [];
}

abbrev public_row : PublicPairing
public_row = record {
  token_id = "pair_t1";
  bridge_id = "home";
  bundle_kind = "dedicated";
  platform = "macos";
  expires_at = some 2800;
  used_at = none;
  created_at = 1000;
  created_by = "admin";
  agent_id = "agent_a1";
  capabilities = "bootstrap" ∷ "local_status" ∷ [];
}

abbrev created : Created
created = record { pairing_token = "secret"; row = public_row }

create_test :
    create_pairing plain 1000 draws "dedicated" "home" "macos" "" 0 []
    ≡ (ok created, ("pair_t1", row) ∷ [])
unfolding create_pairing public_record fake_ui.Prelude.Table.insert
create_test = refl

abbrev used : Pairing
used = record row { used_at = some 1500 }

mark_test :
    mark_pairing_used plain 1500 "pair_t1" "secret" none (("pair_t1", row) ∷ [])
    ≡ (ok used, ("pair_t1", used) ∷ [])
unfolding mark_pairing_used
mark_test = refl

mark_pairing_used-Marked_example :
    Marked plain 1500 "pair_t1" "secret" none (("pair_t1", row) ∷ []) used (("pair_t1", used) ∷ [])
mark_pairing_used-Marked_example =
    mark_pairing_used-Marked plain 1500 "pair_t1" "secret" none (("pair_t1", row) ∷ []) used
      (("pair_t1", used) ∷ []) mark_test

abbrev between : List (Call plain)
between = snapshot 1501 "pair_t1" "secret" ∷ mark 1502 "pair_t1" "secret" none ∷ []

consumed_once_example :
    (mark_pairing_used plain 1600 " pair_t1" "secret" none
      (run plain between (("pair_t1", used) ∷ []))).0
    ≡ err "pairing token already used"
unfolding fake_ui.Prelude.Text.strip
consumed_once_example =
    consumed_once plain 1500 1600 "pair_t1" " pair_t1" "secret" "secret" none none
      (("pair_t1", row) ∷ []) used (("pair_t1", used) ∷ []) between mark_test (tt, (tt, tt)) refl

consume_pairing-create_pairing_example :
    (r : Pairing) × ((consume_pairing plain 1500 created.row.token_id created.pairing_token
        (("pair_t1", row) ∷ [])).0
      ≡ ok r)
    × (public_record r ≡ (record created.row { used_at = some 1500 }))
unfolding fake_ui.Prelude.Text.strip
consume_pairing-create_pairing_example =
    consume_pairing-create_pairing plain 1000 1500 draws "dedicated" "home" "macos" "" 0 []
      (("pair_t1", row) ∷ []) created create_test refl refl (ground arith)

-- An agent that gets the configuration of a dedicated bridge.
abbrev body : Body
body = record { schema = "1"; token_id = "pair_t1"; pairing_token = " secret"; platform = "" }

abbrev home_row : Pairing
home_row = record row { bridge_id = "home-example-org" }

abbrev agent : Agent
agent = record {
  agent_id = "agent_a1";
  bridge_id = "home-example-org";
  bundle_kind = "dedicated";
  platform = "macos";
  capabilities = "bootstrap" ∷ "local_status" ∷ "tcp_tunnel" ∷ "proxy_compat" ∷ [];
  tunnels = home_tunnel ∷ [];
}

bootstrap_test :
    bootstrap_agent plain 1500 body (ok false) (home_tunnel ∷ []) (("pair_t1", home_row) ∷ [])
    ≡ (ok agent, ("pair_t1", (record home_row { used_at = some 1500 })) ∷ [])
unfolding bootstrap_agent
bootstrap_test = refl

bootstrap_agent-Bootstrapped_example :
    Bootstrapped plain 1500 body
      (ok false)
      (home_tunnel ∷ [])
      (("pair_t1", home_row) ∷ [])
      agent
      (("pair_t1", (record home_row { used_at = some 1500 })) ∷ [])
bootstrap_agent-Bootstrapped_example =
    bootstrap_agent-Bootstrapped plain 1500 body (ok false) (home_tunnel ∷ [])
      (("pair_t1", home_row) ∷ []) agent
      (("pair_t1", (record home_row { used_at = some 1500 })) ∷ []) bootstrap_test

bootstrap_agent-RollsBack_example :
    RollsBack
      (("pair_t1", row) ∷ [])
      (bootstrap_agent plain 1500 body (ok false) [] (("pair_t1", row) ∷ []))
bootstrap_agent-RollsBack_example =
    bootstrap_agent-RollsBack plain 1500 body (ok false) [] (("pair_t1", row) ∷ [])
