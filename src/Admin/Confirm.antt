-- ===== src/Admin/Confirm.antt =====
-- Renewals and orders of baseline/user_admin.py: `create_or_renew_from_plan`,
-- `replace_subscription_from_plan`, `confirm_order` and `cancel_order`.
use fake_ui.Prelude.{
  ℕ, String, Bool, true, false, not, ◌||◌, Option, none, some, [], if◌then◌else◌, pos, str_eq,
}
use fake_ui.Prelude.Text.{strip}
use fake_ui.Prelude.Table.{lookup}
use fake_ui.Prelude.Result.{Result, ok, err}
use fake_ui.Prelude.Result
use fake_ui.Prelude.Action.{Action, pure, lift, gets, check, ◌>>=◌, ◌>>◌}
use fake_ui.Store.{User, Plan, Order, OrderStatus, World, Env}
use fake_ui.Orders.{get_order, update_order, record_order}
use fake_ui.Plans.{get_plan}
use fake_ui.Users.{add_days, traffic_gb_to_bytes}
use fake_ui.Admin.{enforce_users_now, audit, save_user}
use fake_ui.Admin.Create.{create_airport_user}
use fake_ui.Admin.Actions.{UserAction, Arguments, airport_user_action}

-- The arguments that a call leaves at their defaults: days "30", no quota, no nodes.
abbrev pub default_arguments : Arguments
default_arguments = record { days = pos 30; quota_gb = none; node_ids = [] }

unfoldable pub find_plan : String → Action World Plan
find_plan plan_id = do plan ← get_plan plan_id; lift (Result.or_raise plan "plan not found")

unfoldable pub get_user : String → Action World (Option User)
get_user name = gets (λ w. lookup name w.users)

-- The two ways on, by whether the user exists.
unfoldable pub create_or_renew :
    Env
    → String
    → Plan
    → String
    → String
    → String
    → Option String
    → String
    → Option User
    → Action World Unit
create_or_renew env name plan plan_id password note hash operator (some user) =
    airport_user_action env name UserAction.extend default_arguments plan_id operator
create_or_renew env name plan plan_id password note hash operator none =
    create_airport_user env name plan.days note password (some plan.traffic_gb) plan_id operator
      hash

unfoldable pub create_or_renew_from_plan :
    Env → String → String → String → String → Option String → String → Action World Unit
create_or_renew_from_plan env name plan_id password note hash operator = do
  plan ← find_plan plan_id
  existing ← get_user name
  create_or_renew env name plan plan_id password note hash operator existing

-- The row that a replaced subscription has.
unfoldable pub replaced : Env → Plan → ℕ → User → User
replaced env plan quota user = record user {
  enabled = true;
  plan_id = plan.id;
  node_groups = plan.node_groups;
  node_ids = [];
  expires_at = some (add_days env.now plan.days);
  quota_bytes = quota;
  used_bytes = 0;
  quota_exceeded = false;
  last_xray_stats = env.xray_stats user.username;
  last_hy2_stats = env.hy2_stats user.username;
}

unfoldable pub replace_existing : Env → String → Plan → User → String → Action World Unit
replace_existing env username plan user operator = do
  quota ← lift (traffic_gb_to_bytes (some plan.traffic_gb))
  save_user username (replaced env plan quota user)
  enforce_users_now env
  record_order env username "replace" (some plan) OrderStatus.completed "replace subscription"
      operator
  audit operator "user.replace_plan" username

unfoldable pub replace_or_create :
    Env → String → Plan → String → String → Option User → Action World Unit
replace_or_create env username plan plan_id operator (some user) =
    replace_existing env username plan user operator
replace_or_create env username plan plan_id operator none =
    create_airport_user env username plan.days "" "" (some plan.traffic_gb) plan_id operator none

unfoldable pub replace_subscription_from_plan : Env → String → String → String → Action World Unit
replace_subscription_from_plan env name plan_id operator = do
  plan ← find_plan plan_id
  let username = strip name
  existing ← get_user username
  replace_or_create env username plan plan_id operator existing

-- The pending order, or the error.
unfoldable pub is_pending : OrderStatus → Bool
is_pending OrderStatus.pending = true
is_pending _ = false

unfoldable pub pending_order : String → Action World Order
pending_order order_id = do
  found ← get_order order_id
  order ← lift (Result.or_raise found "order not found")
  check (not (is_pending order.status)) "order is not pending"
  pure order

-- What an order brings its user.
unfoldable pub apply_order : Env → Order → String → Action World Unit
apply_order env order operator =
    if str_eq order.kind "new" || str_eq order.kind "create" || str_eq order.kind "replace"
    then replace_subscription_from_plan env order.username order.plan_id operator
    else create_or_renew_from_plan env order.username order.plan_id "" "manual order" none operator

unfoldable pub confirm_order : Env → String → String → Action World Unit
confirm_order env order_id operator = do
  order ← pending_order order_id
  apply_order env order operator
  update_order env order_id λ o. record o {
    status = OrderStatus.completed;
    confirmed_at = some env.now;
    confirmed_by = operator;
  }
  audit operator "order.confirm" order_id

unfoldable pub cancel_order : Env → String → String → Action World Unit
cancel_order env order_id operator = do
  order ← pending_order order_id
  update_order env order_id λ o. record o {
    status = OrderStatus.cancelled;
    cancelled_at = some env.now;
    cancelled_by = operator;
  }
  audit operator "order.cancel" order_id
