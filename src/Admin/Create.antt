-- ===== src/Admin/Create.antt =====
-- `create_airport_user` of baseline/user_admin.py.
use fake_ui.Prelude.{
  ℕ, String, true, false, not, Option, none, some, List, [], ◌∷◌, if◌then◌else◌, ltb, ℤ, Float,
  is_nonpositive, is_empty,
}
use fake_ui.Prelude.Text.{strip, size}
use fake_ui.Prelude.Table.{lookup, is_some}
use fake_ui.Prelude.Result.{Result, ok, err}
use fake_ui.Prelude.Action.{Action, lift, gets, check, ◌>>=◌, ◌>>◌}
use fake_ui.Store.{User, Plan, OrderStatus, Counters, World, Env}
use fake_ui.Orders.{record_order, plan_id_of}
use fake_ui.Plans.{get_plan_if}
use fake_ui.Users.{add_days, traffic_gb_to_bytes}
use fake_ui.Admin.{is_username, enforce_users_now, audit, save_user}

abbrev pub days_of : Option Plan → ℤ → ℤ
days_of none days = days
days_of (some plan) days = plan.days

abbrev pub traffic_of : Option Plan → Option Float → Option Float
traffic_of none gb = gb
traffic_of (some plan) gb = some plan.traffic_gb

abbrev pub groups_of : Option Plan → List String
groups_of none = "default" ∷ []
groups_of (some plan) = plan.node_groups

abbrev pub zero_counters : Counters
zero_counters = record { up = 0; down = 0 }

-- The stored password: a given hash (`none` for an empty one), or the hash of a given or of a drawn password.
unfoldable pub panel_password : Env → String → Option String → Result String
panel_password env input (some hash) = ok hash
panel_password env input none =
    let given = strip input in
    if is_empty given
    then ok (env.hash env.password)
    else if ltb (size given) 8
    then err "用户登录密码至少 8 位。"
    else ok (env.hash given)

unfoldable pub new_user : Env → String → ℤ → String → Option Plan → ℕ → String → User
new_user env username days note plan quota password = record {
  username = username;
  enabled = true;
  panel_password = password;
  sub_token = env.token;
  expires_at = some (add_days env.now days);
  note = note;
  plan_id = plan_id_of plan;
  node_groups = groups_of plan;
  node_ids = [];
  quota_bytes = quota;
  used_bytes = 0;
  quota_exceeded = false;
  expired = false;
  last_xray_stats = zero_counters;
  last_hy2_stats = zero_counters;
  last_node_stats = [];
  hy2_username = username;
}

-- What the checks at the start give: the plan, the days, the quota and the stored password.
unfoldable pub create_airport_user :
    Env
    → String
    → ℤ
    → String
    → String
    → Option Float
    → String
    → String
    → Option String
    → Action World Unit
create_airport_user env name days note input traffic plan_id operator hash = do
  let username = strip name
  check (is_empty username) "用户名不能为空。"
  check (not (is_username username)) "用户名只能包含字母、数字、下划线和短横线。"
  plan ← get_plan_if (not (is_empty plan_id)) plan_id
  let days' = days_of plan days
  check (is_nonpositive days') "有效期天数必须大于 0。"
  quota ← lift (traffic_gb_to_bytes (traffic_of plan traffic))
  check (← gets (λ w. is_some (lookup username w.users))) "用户已存在。"
  password ← lift (panel_password env input hash)
  save_user username (new_user env username days' note plan quota password)
  enforce_users_now env
  record_order env username "create" plan OrderStatus.completed "create user" operator
  audit operator "user.create" username
