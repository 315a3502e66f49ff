-- ===== src/Pairing.antt =====
-- baseline/agent_pairing.py: pairing tokens, by which an agent gets the configuration of its bridge
-- once. The hash (SHA-256) is a parameter, and the clock and the drawn tokens are arguments.
pub mod Marked
pub mod Once
pub mod Bootstrap
pub mod Own
pub mod Atomic
use fake_ui.Prelude.{
  ℕ, ◌+◌, ◌*◌, String, Bool, true, false, not, ◌&&◌, ◌||◌, ◌==◌, leb, Option, none, some, List, [],
  ◌∷◌, any, if◌then◌else◌, is_empty, str_eq,
}
use Prim.Native.String
use fake_ui.Prelude.Text.{strip, lower}
use fake_ui.Prelude.Table.{Table, lookup, insert, is_some}
use fake_ui.Prelude.Result.{Result, ok, err, raise_if, or_raise, ◌>>=◌, ◌>>◌}
use fake_ui.Prelude.Action.{Action}
use fake_ui.Tunnels.Clean.{clean_id, clean_bridge_platform, one_of}

-- A time is a number of seconds, `none` for an empty text.
pub record Pairing : Type 0 where
  pub token_id : String
  pub token_hash : String
  pub bridge_id : String
  pub bundle_kind : String
  pub platform : String
  pub expires_at : Option ℕ
  pub used_at : Option ℕ
  pub created_at : ℕ
  pub created_by : String
  pub agent_id : String
  pub capabilities : List String

-- A record without its hash.
pub record PublicPairing : Type 0 where
  pub token_id : String
  pub bridge_id : String
  pub bundle_kind : String
  pub platform : String
  pub expires_at : Option ℕ
  pub used_at : Option ℕ
  pub created_at : ℕ
  pub created_by : String
  pub agent_id : String
  pub capabilities : List String

unfoldable pub public_record : Pairing → PublicPairing
public_record r = record {
  token_id = r.token_id;
  bridge_id = r.bridge_id;
  bundle_kind = r.bundle_kind;
  platform = r.platform;
  expires_at = r.expires_at;
  used_at = r.used_at;
  created_at = r.created_at;
  created_by = r.created_by;
  agent_id = r.agent_id;
  capabilities = r.capabilities;
}

-- The settings row with the pairings by their ids.
abbrev pub Pairings : Type 0
Pairings = Table Pairing

abbrev pub committed : {A : Type 0} → Result A × Pairings → Pairings → Result A × Pairings
committed (ok a, written) rows = (ok a, written)
committed (err e, written) rows = (err e, rows)

-- A transaction: what was written is rolled back if the mutator raises.
unfoldable pub update_store : {A : Type 0} → Action Pairings A → Action Pairings A
update_store mutator rows = committed (mutator rows) rows

unfoldable pub clean_bundle_kind : String → Result String
unfolding strip lower
clean_bundle_kind value =
    one_of ("dedicated" ∷ "shared" ∷ []) "bundle kind is invalid" (lower (strip value))

unfoldable pub clean_pairing_platform : String → Result String
unfolding strip lower clean_bridge_platform
clean_pairing_platform value =
    let platform = lower (strip value) in
    if any (str_eq platform) ("auto" ∷ "universal" ∷ [])
    then ok "auto"
    else clean_bridge_platform platform

abbrev pub base_capabilities : List String
base_capabilities = "bootstrap" ∷ "local_status" ∷ []

-- What `secrets.token_urlsafe` draws for a pairing.
pub record Draws : Type 0 where
  pub pairing_token : String
  pub token : String
  pub agent : String

-- The id of the record that a draw makes.
abbrev pub drawn_id : Draws → String
drawn_id draws = String.◌++◌ "pair_" draws.token

abbrev ttl_or_default : ℕ → ℕ
ttl_or_default minutes = if minutes == 0 then 30 else minutes

abbrev admin_or : String → String
admin_or created_by = if is_empty created_by then "admin" else created_by

pub record Created : Type 0 where
  pub pairing_token : String
  pub row : PublicPairing

abbrev pub created_row : Draws → Pairing → Created
created_row draws row = record { pairing_token = draws.pairing_token; row = public_record row }

abbrev write_pairing : Draws → Pairing → Action Pairings Created
write_pairing draws row rows = (ok (created_row draws row), insert row.token_id row rows)

abbrev pub written : Draws → Result Pairing → Action Pairings Created
written draws (ok row) rows = update_store (write_pairing draws row) rows
written draws (err e) rows = (err e, rows)

-- `expires_at and expires_at <= now`
abbrev pub is_over : Option ℕ → ℕ → Bool
is_over none now = false
is_over (some t) now = leb t now

abbrev same_list : List String → List String → Bool
same_list [] [] = true
same_list [] (b ∷ bs) = false
same_list (a ∷ rest) [] = false
same_list (a ∷ rest) (b ∷ bs) = str_eq a b && same_list rest bs

-- The fields that a snapshot is compared in.
abbrev pub changed : Pairing → Option Pairing → Bool
changed r none = false
changed r (some e) = not (
    str_eq r.token_id e.token_id
    && str_eq r.bridge_id e.bridge_id
    && str_eq r.bundle_kind e.bundle_kind
    && str_eq r.platform e.platform
    && str_eq r.agent_id e.agent_id
    && same_list r.capabilities e.capabilities)

-- The record is changed in the loaded store, where it stands under the stripped id.
abbrev pub marked : ℕ → String → Option Pairing → Result Pairing → Action Pairings Pairing
marked now token_id expected (err e) rows = (err e, rows)
marked now token_id expected (ok r) rows =
    let used : Pairing = record r { used_at = some now } in
    if changed r expected
    then (err "pairing token changed", rows)
    else (ok used, insert (strip token_id) used rows)

module _ (token_hash : String → String) where
  unfoldable pub new_pairing : ℕ → Draws → String → String → String → String → ℕ → Pairing
  new_pairing now draws kind bridge_id platform created_by ttl_minutes = record {
    token_id = drawn_id draws;
    token_hash = token_hash draws.pairing_token;
    bridge_id = bridge_id;
    bundle_kind = kind;
    platform = platform;
    expires_at = some (now + 60 * ttl_or_default ttl_minutes);
    used_at = none;
    created_at = now;
    created_by = admin_or created_by;
    agent_id = String.◌++◌ "agent_" draws.agent;
    capabilities = base_capabilities;
  }

  abbrev pub cleaned_pairing : ℕ → Draws → String → String → String → String → ℕ → Result Pairing
  cleaned_pairing now draws bundle_kind bridge_id platform created_by ttl_minutes =
      clean_bundle_kind bundle_kind >>= λ kind. clean_id bridge_id >>= λ clean_bridge_id.
      clean_pairing_platform platform >>= λ clean_platform.
      ok (new_pairing now draws kind clean_bridge_id clean_platform created_by ttl_minutes)

  unfoldable pub create_pairing :
      ℕ → Draws → String → String → String → String → ℕ → Action Pairings Created
  unfolding clean_bundle_kind clean_id clean_pairing_platform new_pairing update_store
  create_pairing now draws bundle_kind bridge_id platform created_by ttl_minutes =
      written draws
        (cleaned_pairing now draws bundle_kind bridge_id platform created_by ttl_minutes)

  unfoldable pub validate_pairing_record : ℕ → String → String → Pairings → Result Pairing
  unfolding lookup strip
  validate_pairing_record now token_id pairing_token rows = do
    r ← or_raise (lookup (strip token_id) rows) "pairing token is invalid"
    raise_if (is_some r.used_at) "pairing token already used"
    raise_if (is_over r.expires_at now) "pairing token expired"
    raise_if (is_empty r.token_hash || not (str_eq r.token_hash (token_hash pairing_token)))
        "pairing token is invalid"
    ok r

  unfoldable pub pairing_snapshot : ℕ → String → String → Action Pairings Pairing
  unfolding validate_pairing_record
  pairing_snapshot now token_id pairing_token rows =
      (validate_pairing_record now token_id pairing_token rows, rows)

  unfoldable pub mark_pairing_used : ℕ → String → String → Option Pairing → Action Pairings Pairing
  unfolding validate_pairing_record insert strip update_store
  mark_pairing_used now token_id pairing_token expected = update_store (λ rows.
      marked now token_id expected (validate_pairing_record now token_id pairing_token rows) rows)

  unfoldable pub consume_pairing : ℕ → String → String → Action Pairings Pairing
  unfolding mark_pairing_used
  consume_pairing now token_id pairing_token = mark_pairing_used now token_id pairing_token none
