-- ===== src/Quota.antt =====
-- baseline/quota_collect.py, with `nodes_for_user` of baseline/node_catalog.py: the counters of the
-- proxies become a user's used bytes. Counters are natural numbers; `last_traffic_update` and the
-- retention of samples are not modelled.
pub mod Growth
use Prim.Native.String
use fake_ui.Prelude.{
  ℕ, ◌+◌, ◌-◌, String, Bool, true, false, not, ◌&&◌, ◌||◌, ◌==◌, Option, none, some, List, [], ◌∷◌,
  ◌++◌, if◌then◌else◌, ltb, leb, any, filter, is_empty, str_eq,
}
use fake_ui.Prelude.Text.{strip}
use fake_ui.Prelude.Table.{Table, lookup, insert, is_some}
use fake_ui.Store.{User, Counters}
use fake_ui.Users.{quota_reached}

pub record Node : Type 0 where
  pub id : String
  pub kind : String
  pub group : String

-- One reading of the proxies: Xray's counters by their names, Hysteria2's by user.
pub record Reading : Type 0 where
  pub xray : String → Option ℕ
  pub hy2 : String → Option Counters

pub record Sample : Type 0 where
  pub username : String
  pub source : String
  pub node_id : String
  pub uplink_bytes : ℕ
  pub downlink_bytes : ℕ

abbrev is_id : String → Bool
is_id item = not (is_empty (strip item))

-- The nodes that a user was given by id, or else those of the user's groups.
abbrev given_to : List String → List String → Node → Bool
given_to [] groups node = any (str_eq node.group) groups
given_to (id ∷ ids) groups node = any (str_eq node.id) (id ∷ ids)

abbrev stripped : List String → List String
stripped [] = []
stripped (item ∷ items) = if is_id item then strip item ∷ stripped items else stripped items

-- `nodes_for_user(user, kind="vless", include_disabled=True)`, for a user with groups
unfoldable pub nodes_for_user : List Node → User → List Node
nodes_for_user catalog user =
    filter
      (λ (node : Node).
        str_eq node.kind "vless" && given_to (stripped user.node_ids) user.node_groups node)
      catalog

-- A counter that fell was reset, and has counted from 0 since.
unfoldable pub delta : ℕ → ℕ → ℕ
delta now last = if leb last now then now - last else now

-- The name that a node knows the user by (baseline/node_mutations.py).
unfoldable pub vless_node_email : String → String → String
vless_node_email username node_id =
    if str_eq node_id "vless-main"
    then String.◌++◌ "panel-user:" username
    else String.◌++◌ "panel-user:" (String.◌++◌ username (String.◌++◌ ":" node_id))

-- The keys of a node's counters.
abbrev up_key : String → String
up_key email = String.◌++◌ "user>>>" (String.◌++◌ email ">>>traffic>>>uplink")

abbrev down_key : String → String
down_key email = String.◌++◌ "user>>>" (String.◌++◌ email ">>>traffic>>>downlink")

abbrev value_or_zero : Option ℕ → ℕ
value_or_zero none = 0
value_or_zero (some n) = n

abbrev pub counted : Option ℕ → Option ℕ → Option Counters
counted none none = none
counted up down = some (record { up = value_or_zero up; down = value_or_zero down })

-- What a reading says of a user on a node, `none` where neither counter is there.
unfoldable pub read_node : Reading → String → Node → Option Counters
unfolding vless_node_email
read_node r username node =
    let name = vless_node_email username node.id in
    counted (r.xray (up_key name)) (r.xray (down_key name))

abbrev pub plus : Counters → Counters → Counters
plus a b = record { up = a.up + b.up; down = a.down + b.down }

abbrev pub total_with : Option Counters → Option Counters → Option Counters
total_with none rest = rest
total_with (some c) none = some c
total_with (some c) (some d) = some (plus c d)

-- `xray_totals_for_user`, `none` where no counter was seen
unfoldable pub xray_totals : Reading → String → List Node → Option Counters
unfolding read_node
xray_totals r username [] = none
xray_totals r username (node ∷ nodes) =
    total_with (read_node r username node) (xray_totals r username nodes)

-- `xray_node_deltas`: the first reading of a node is only stored.
unfoldable pub growth : Counters → Counters → Counters
unfolding delta
growth now last = record { up = delta now.up last.up; down = delta now.down last.down }

abbrev pub sum : Counters → ℕ
sum c = c.up + c.down

abbrev sampled : String → String → String → Counters → List Sample
sampled username source node_id c =
    if sum c == 0
    then []
    else record {
      username = username;
      source = source;
      node_id = node_id;
      uplink_bytes = c.up;
      downlink_bytes = c.down;
    }
      ∷ []

abbrev node_sample : String → String → Counters → Option Counters → List Sample
node_sample username node_id now none = []
node_sample username node_id now (some last) = sampled username "xray" node_id (growth now last)

abbrev node_step : String → String → Option Counters → Table Counters → Table Counters × List Sample
node_step username node_id none stats = (stats, [])
node_step username node_id (some now) stats =
    let key = String.◌++◌ "xray:" node_id in
    (insert key now stats, node_sample username node_id now (lookup key stats))

unfoldable pub node_deltas :
    Reading → String → List Node → Table Counters → Table Counters × List Sample
unfolding read_node growth
node_deltas r username [] stats = (stats, [])
node_deltas r username (node ∷ nodes) stats =
    let (stats', samples) = node_step username node.id (read_node r username node) stats in
    let (stats'', later) = node_deltas r username nodes stats' in (stats'', samples ++ later)

abbrev pub with_xray : Option Counters → User → User
with_xray none u = u
with_xray (some now) u = record u {
  used_bytes = u.used_bytes + sum (growth now u.last_xray_stats);
  last_xray_stats = now;
}

abbrev pub with_hy2 : Option Counters → User → User
with_hy2 none u = u
with_hy2 (some now) u = record u {
  used_bytes = u.used_bytes + sum (growth now u.last_hy2_stats);
  last_hy2_stats = now;
}

abbrev hy2_sample : String → Option Counters → User → List Sample
hy2_sample username none u = []
hy2_sample username (some now) u = sampled username "hy2" "hy2-main" (growth now u.last_hy2_stats)

abbrev pub hy2_name : String → User → String
hy2_name username u = if is_empty u.hy2_username then username else u.hy2_username

abbrev pub flagged : User → User
flagged u = record u { quota_exceeded = quota_reached u }

-- One round of the loop in `main`: the user and the samples that are stored.
unfoldable pub collect_user : List Node → Reading → String → User → User × List Sample
unfolding nodes_for_user node_deltas xray_totals growth quota_reached
collect_user catalog r username u =
    let nodes = nodes_for_user catalog u in
    let (stats, samples) = node_deltas r username nodes u.last_node_stats in
    let u1 = with_xray (xray_totals r username nodes) (record u { last_node_stats = stats }) in
    let now = r.hy2 (hy2_name username u) in
    (flagged (with_hy2 now u1), samples ++ hy2_sample username now u1)

unfoldable pub collect : List Node → Reading → Table User → Table User × List Sample
unfolding collect_user
collect catalog r [] = ([], [])
collect catalog r ((username, u) ∷ users) =
    let (u', samples) = collect_user catalog r username u in
    let (users', later) = collect catalog r users in ((username, u') ∷ users', samples ++ later)
