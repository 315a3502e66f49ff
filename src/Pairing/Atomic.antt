-- ===== src/Pairing/Atomic.antt =====
-- A bootstrap of baseline/agent_pairing.py consumes its pairing or leaves all pairings as they are.
use fake_ui.Prelude.{
  ℕ, String, Bool, some, List, ◌≡◌, refl, sym, ap, ◌∙◌, arith, any, str_eq, if◌then◌else◌,
}
use fake_ui.Prelude.Result.{Result, ok, err, >>=-eq-ok, ok-injective}
use fake_ui.Prelude.Action.{Action, lift, pure, resume, ◌>>=◌, bind-ok}
use fake_ui.Tunnels.{Tunnel}
use fake_ui.Pairing.{
  Pairing, Pairings, pairing_snapshot, mark_pairing_used, committed, marked,
  validate_pairing_record, update_store,
}
use fake_ui.Pairing.Marked.{Marked, validate-eq_ok, mark_pairing_used-Marked}
use fake_ui.Prelude.Text.{strip, lower}
use mathlib.Core.Path.{subst}
use fake_ui.Tunnels.Clean.{clean_bridge_platform}
use fake_ui.Pairing.Own.{
  OwnTunnels, bridge_config-own, capabilities-desktop, effective_platform-own,
}
use fake_ui.Pairing.Bootstrap.{
  effective_platform_for_record, bridge_config_for_pairing, Body, Agent, validate_bootstrap_request,
  prepared, finish, agent_of, bootstrap_agent,
}

-- A call that raises leaves the state as it is.
abbrev pub RollsBack : {S A : Type 0} → S → Result A × S → Type 0
RollsBack s (ok a, s') = Unit
RollsBack s (err e, s') = s' ≡ s

committed-RollsBack :
    {A : Type 0} (outcome : Result Pairing × Pairings) (rows : Pairings) (value : Pairing → A)
    → RollsBack rows (
        resume
          (committed outcome rows).0
          (committed outcome rows).1
          (λ r (s : Pairings). (ok (value r), s)))
committed-RollsBack (ok r, written) rows value = tt
committed-RollsBack (err e, written) rows value = refl

resume-RollsBack :
    {A B : Type 0} (r : Result A) (rows : Pairings) (f : A → Action Pairings B)
    → ((a : A) → RollsBack rows (f a rows))
    → RollsBack rows (resume r rows f)
resume-RollsBack (ok a) rows f h = h a
resume-RollsBack (err e) rows f h = refl

pure-ok :
    {A : Type 0} (a b : A) (s s' : Pairings)
    → ◌≡◌ {A = Result A × Pairings} (ok b, s) (ok a, s')
    → a ≡ b
pure-ok a b s s' e = cc

module _ (token_hash : String → String) where
  finish-RollsBack :
      (now : ℕ) (token_id token : String) (snapshot : Pairing) (p : String × Bool × List Tunnel)
      (rows : Pairings)
      → RollsBack rows (finish token_hash now token_id token snapshot p rows)
  unfolding mark_pairing_used update_store pure ◌>>=◌
  finish-RollsBack now token_id token snapshot (platform, has_desktop, config) rows =
      committed-RollsBack
        (marked now token_id (some snapshot)
          (validate_pairing_record token_hash now token_id token rows) rows)
        rows (λ r. agent_of r platform has_desktop config)

  -- A bootstrap that raises, for whatever reason, leaves every pairing as it is, so that the agent
  -- can try again with its token.
  pub bootstrap_agent-RollsBack :
      (now : ℕ) (body : Body) (desktop : Result Bool) (tunnels : List Tunnel) (rows : Pairings)
      → RollsBack rows (bootstrap_agent token_hash now body desktop tunnels rows)
  unfolding bootstrap_agent pairing_snapshot lift ◌>>=◌
  bootstrap_agent-RollsBack now body desktop tunnels rows =
      resume-RollsBack (validate_bootstrap_request body) rows _ (λ tokens.
        resume-RollsBack (validate_pairing_record token_hash now tokens.0 tokens.1 rows) rows _
          (λ snapshot.
            resume-RollsBack (prepared token_hash body desktop tunnels snapshot) rows _
              (λ p. finish-RollsBack now tokens.0 tokens.1 snapshot p rows)))

  -- What a bootstrap that returned has consumed, and what its agent is.
  pub record Bootstrapped (now : ℕ) (body : Body) (desktop : Result Bool) (tunnels : List Tunnel)
      (rows : Pairings) (agent : Agent) (rows' : Pairings) : Type 0 where
    pub pairing : Pairing
    pub has_desktop : Bool
    pub consumed :
        Marked token_hash now
          (strip body.token_id)
          (strip body.pairing_token)
          (some pairing)
          rows
          (record pairing { used_at = some now })
          rows'
    pub agent_id : agent.agent_id ≡ pairing.agent_id
    pub bridge_id : agent.bridge_id ≡ pairing.bridge_id
    pub bundle_kind : agent.bundle_kind ≡ pairing.bundle_kind
    pub desktop_read : desktop ≡ ok has_desktop
    pub platform :
        clean_bridge_platform (
          if str_eq (lower (strip pairing.platform)) "auto"
          then lower (strip body.platform)
          else lower (strip pairing.platform))
        ≡ ok agent.platform
    pub offers_desktop : any (str_eq "remote_desktop") agent.capabilities ≡ has_desktop
    pub own_tunnels : OwnTunnels pairing tunnels agent.tunnels

  -- The same call on an equal state.
  moved :
      {A : Type 0} (m : Action Pairings A) (s s' : Pairings) (out : Result A × Pairings)
      → s ≡ s'
      → m s' ≡ out
      → m s ≡ out
  moved m s s' out e h = ap m e ∙ h

  finish-Marked :
      (now : ℕ) (token_id token : String) (snapshot : Pairing) (p : String × Bool × List Tunnel)
      (rows : Pairings) (agent : Agent) (rows' : Pairings)
      → finish token_hash now token_id token snapshot p rows ≡ (ok agent, rows')
      → (row : Pairing) × Marked token_hash now token_id token (some snapshot) rows row rows'
        × (agent ≡ agent_of row p.0 p.1 p.2)
  unfolding pure
  finish-Marked now token_id token snapshot (platform, has_desktop, config) rows agent rows' e =
      let (row, s, mark, done) =
        bind-ok (mark_pairing_used token_hash now token_id token (some snapshot))
          (λ r. pure (agent_of r platform has_desktop config)) rows agent rows' e in
      (
        row,
        mark_pairing_used-Marked token_hash now token_id token (some snapshot) rows row rows' (
            mark
            ∙ ap (λ (t : Pairings). (ok row, t)) (ap (λ (o : Result Agent × Pairings). o.1) done)),
        pure-ok agent (agent_of row platform has_desktop config) s rows' done,
      )

  requested :
      (body : Body) (tokens : String × String)
      → validate_bootstrap_request body ≡ ok tokens
      → (strip body.token_id, strip body.pairing_token) ≡ tokens
  unfolding validate_bootstrap_request
  requested body tokens e = ground arith

  -- The snapshot is the row that was consumed.
  taken_row :
      (now : ℕ) (id token : String) (rows rows' : Pairings) (snapshot row : Pairing)
      → Marked token_hash now id token (some snapshot) rows row rows'
      → validate_pairing_record token_hash now id token rows ≡ ok snapshot
      → row ≡ record snapshot { used_at = some now }
  taken_row now id token rows rows' snapshot row m taken =
      let (found, _, _, _) = validate-eq_ok token_hash now id token rows snapshot taken in
      let same : m.old ≡ snapshot = cc (m.found, found) in
      m.row ∙ ap (λ (o : Pairing). record o { used_at = some now }) same

  prepared-Bootstrapped :
      (now : ℕ) (body : Body) (desktop : Result Bool) (tunnels : List Tunnel)
      (rows rows' : Pairings) (snapshot row : Pairing) (p : String × Bool × List Tunnel)
      → Marked token_hash now
          (strip body.token_id)
          (strip body.pairing_token)
          (some snapshot)
          rows
          row
          rows'
      → row ≡ record snapshot { used_at = some now }
      → prepared token_hash body desktop tunnels snapshot ≡ ok p
      → Bootstrapped now body desktop tunnels rows (agent_of row p.0 p.1 p.2) rows'
  prepared-Bootstrapped now body desktop tunnels rows rows' snapshot row p m same ready =
      let (platform, e1, r1) =
        >>=-eq-ok (effective_platform_for_record snapshot body.platform) _ ready in
      let (config, e2, r2) = >>=-eq-ok (bridge_config_for_pairing snapshot platform tunnels) _ r1 in
      let (has_desktop, e3, r3) = >>=-eq-ok desktop _ r2 in
      let parts : (platform, has_desktop, config) ≡ p = ok-injective _ p r3 in
      let platform_of = ap (λ (q : String × Bool × List Tunnel). q.0) parts in
      let desktop_of = ap (λ (q : String × Bool × List Tunnel). q.1) parts in
      let config_of = ap (λ (q : String × Bool × List Tunnel). q.2) parts in
      record {
        pairing = snapshot;
        has_desktop = p.1;
        consumed =
            subst
              (λ r.
                Marked token_hash now (strip body.token_id) (strip body.pairing_token)
                  (some snapshot) rows r rows')
              same m;
        agent_id = ap (λ (r : Pairing). r.agent_id) same;
        bridge_id = ap (λ (r : Pairing). r.bridge_id) same;
        bundle_kind = ap (λ (r : Pairing). r.bundle_kind) same;
        platform = effective_platform-own snapshot body.platform platform e1 ∙ ap ok platform_of;
        desktop_read = e3 ∙ ap ok desktop_of;
        offers_desktop = capabilities-desktop p.1;
        own_tunnels =
            subst (OwnTunnels snapshot tunnels) config_of
              (bridge_config-own snapshot platform tunnels config e2);
      }

  -- A bootstrap that returns has consumed a pairing, and its agent has the pairing's id, bridge
  -- and kind, the pairing's platform or, if that is "auto", the request's, the remote desktop
  -- exactly if the bridge has one, and the tunnels of this bridge: the one of a dedicated bridge,
  -- or all enabled ones of a shared bridge, of which there is at least one.
  pub bootstrap_agent-Bootstrapped :
      (now : ℕ) (body : Body) (desktop : Result Bool) (tunnels : List Tunnel) (rows : Pairings)
      (agent : Agent) (rows' : Pairings)
      → bootstrap_agent token_hash now body desktop tunnels rows ≡ (ok agent, rows')
      → Bootstrapped now body desktop tunnels rows agent rows'
  unfolding bootstrap_agent pairing_snapshot lift
  bootstrap_agent-Bootstrapped now body desktop tunnels rows agent rows' e =
      let (tokens, s1, request, e1) =
        bind-ok (lift (validate_bootstrap_request body)) _ rows agent rows' e in
      let (snapshot, s2, snapped, e2) =
        bind-ok (pairing_snapshot token_hash now tokens.0 tokens.1) _ s1 agent rows' e1 in
      let (p, s3, ready, e3) =
        bind-ok (lift (prepared token_hash body desktop tunnels snapshot)) _ s2 agent rows' e2 in
      let same : rows ≡ s3 =
        ap (λ (o : Result (String × String) × Pairings). o.1) request
        ∙ ap (λ (o : Result Pairing × Pairings). o.1) snapped
        ∙ ap (λ (o : Result (String × Bool × List Tunnel) × Pairings). o.1) ready in
      let (row, consumed, answer) =
        finish-Marked now tokens.0 tokens.1 snapshot p rows agent rows' (
          moved (finish token_hash now tokens.0 tokens.1 snapshot p) rows s3 (ok agent, rows') same
            e3) in
      let named : (strip body.token_id, strip body.pairing_token) ≡ tokens =
        requested body tokens (ap (λ (o : Result (String × String) × Pairings). o.0) request) in
      let taken : validate_pairing_record token_hash now tokens.0 tokens.1 rows ≡ ok snapshot =
        ap (validate_pairing_record token_hash now tokens.0 tokens.1)
          (ap (λ (o : Result (String × String) × Pairings). o.1) request)
        ∙ ap (λ (o : Result Pairing × Pairings). o.0) snapped in
      let prepared_so = ap (λ (o : Result (String × Bool × List Tunnel) × Pairings). o.0) ready in
      let whole : Bootstrapped now body desktop tunnels rows (agent_of row p.0 p.1 p.2) rows' =
        prepared-Bootstrapped now body desktop tunnels rows rows' snapshot row p
          (subst
            (λ (t : String × String). Marked token_hash now t.0 t.1 (some snapshot) rows row rows')
            (sym named) consumed)
          (taken_row now tokens.0 tokens.1 rows rows' snapshot row consumed taken) prepared_so in
      subst (λ a. Bootstrapped now body desktop tunnels rows a rows') (sym answer) whole
