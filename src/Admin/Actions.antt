-- ===== src/Admin/Actions.antt =====
-- `airport_user_action` of baseline/user_admin.py.
use fake_ui.Prelude.{
  ℕ, String, Bool, true, false, not, ◌&&◌, Option, none, some, List, [], if◌then◌else◌, ltb, ℤ,
  Float, is_nonpositive, is_empty,
}
use fake_ui.Prelude.Text.{strip}
use fake_ui.Prelude.Table.{lookup, remove}
use fake_ui.Prelude.Result.{Result, ok, err}
use fake_ui.Prelude.Result
use fake_ui.Prelude.Action.{Action, pure, lift, gets, ignore, ◌>>=◌, ◌>>◌}
use fake_ui.Store.{User, Plan, OrderStatus, World, Env}
use fake_ui.Orders.{record_order}
use fake_ui.Plans.{get_plan_if}
use fake_ui.Users.{add_days, quota_reached, traffic_gb_to_bytes}
use fake_ui.Admin.{normalize_node_ids, enforce_users_now, audit, save_user}
use fake_ui.Admin.Create.{days_of, traffic_of}

-- The texts that `action` is compared with.
pub data UserAction : Type 0 where
  disable enable extend set_quota set_nodes reset_traffic reset delete : UserAction
  other : String → UserAction

-- days, quota_gb (`none` for an empty one) and node_ids
pub record Arguments : Type 0 where
  pub days : ℤ
  pub quota_gb : Option Float
  pub node_ids : List String

abbrev pub action_name : UserAction → String
action_name UserAction.disable = "user.disable"
action_name UserAction.enable = "user.enable"
action_name UserAction.extend = "user.extend"
action_name UserAction.set_quota = "user.set_quota"
action_name UserAction.set_nodes = "user.set_nodes"
action_name UserAction.reset_traffic = "user.reset_traffic"
action_name UserAction.reset = "user.reset"
action_name UserAction.delete = "user.delete"
action_name (UserAction.other name) = name

-- `current_exp if current_exp and current_exp > now else now`
unfoldable pub renewal_base : Option ℕ → ℕ → ℕ
renewal_base none now = now
renewal_base (some t) now = if ltb now t then t else now

abbrev with_plan : Option Plan → User → User
with_plan none u = u
with_plan (some plan) u = record u { plan_id = plan.id; node_groups = plan.node_groups }

-- A quota that is given is stored, and clears the flag.
abbrev with_quota : Option Float → User → Result User
with_quota none u = ok u
with_quota (some gb) u =
    Result.◌>>=◌ (traffic_gb_to_bytes (some gb))
      λ quota. ok (record u { quota_bytes = quota; quota_exceeded = false })

unfoldable pub extended : Env → Arguments → Option Plan → User → Result User
unfolding renewal_base
extended env args plan u =
    let days = days_of plan args.days in
    if is_nonpositive days
    then err "延长天数必须大于 0。"
    else with_quota (traffic_of plan args.quota_gb) (record (with_plan plan u) {
      expires_at = some (add_days (renewal_base u.expires_at env.now) days);
      enabled = true;
    })

-- The branches that change the row.
unfoldable pub changed_user : Env → UserAction → Arguments → Option Plan → User → Result User
unfolding extended quota_reached
changed_user env UserAction.disable args plan u = ok (record u { enabled = false })
changed_user env UserAction.enable args plan u = ok (record u {
  enabled = true;
  quota_exceeded =
      (if ltb 0 u.quota_bytes && ltb u.used_bytes u.quota_bytes then false else u.quota_exceeded);
})
changed_user env UserAction.extend args plan u = extended env args plan u
changed_user env UserAction.set_quota args plan u =
    Result.◌>>=◌ (traffic_gb_to_bytes args.quota_gb) λ quota.
      let u' : User = record u { quota_bytes = quota } in
      ok (record u' { quota_exceeded = quota_reached u' })
changed_user env UserAction.set_nodes args plan u =
    Result.◌>>=◌ (normalize_node_ids env.node_catalog args.node_ids [])
      λ ids. ok (record u { node_ids = ids })
changed_user env UserAction.reset_traffic args plan u = ok (record u {
  used_bytes = 0;
  quota_exceeded = false;
  last_xray_stats = env.xray_stats u.username;
  last_hy2_stats = env.hy2_stats u.username;
})
changed_user env UserAction.reset args plan u =
    ok (record u { panel_password = env.hash env.password; sub_token = env.token })
changed_user env UserAction.delete args plan u = ok u
changed_user env (UserAction.other name) args plan u = err "未知操作。"

-- `delete` removes the row, everything else saves it.
unfoldable pub store_change : UserAction → String → User → Action World Unit
unfolding save_user
store_change UserAction.delete name u w = (ok tt, record w { users = remove name w.users })
store_change _ name u w = save_user name u w

unfoldable pub ordered : UserAction → Bool
ordered UserAction.extend = true
ordered UserAction.set_quota = true
ordered _ = false

unfoldable pub record_if_ordered :
    Env → UserAction → String → Option Plan → String → Action World Unit
record_if_ordered env UserAction.extend name plan operator =
    ignore (record_order env name "extend" plan OrderStatus.completed "extend" operator)
record_if_ordered env UserAction.set_quota name plan operator =
    ignore (record_order env name "set_quota" plan OrderStatus.completed "set_quota" operator)
record_if_ordered env _ name plan operator = pure tt

unfoldable pub find_user : String → Action World User
find_user name = do found ← gets (λ w. lookup name w.users); lift (Result.or_raise found "用户不存在。")

unfoldable pub airport_user_action :
    Env → String → UserAction → Arguments → String → String → Action World Unit
airport_user_action env name action args plan_id operator = do
  let username = strip name
  user ← find_user username
  plan ← get_plan_if (not (is_empty plan_id)) plan_id
  user' ← lift (changed_user env action args plan user)
  store_change action username user'
  enforce_users_now env
  record_if_ordered env action username plan operator
  audit operator (action_name action) username
