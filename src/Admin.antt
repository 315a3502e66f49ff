-- ===== src/Admin.antt =====
-- baseline/user_admin.py: creating, changing and renewing users, and confirming orders. A call
-- that raises keeps what it has written. Log files and credentials are not modelled.
pub mod Create
pub mod Actions
pub mod Confirm
pub mod Frames
pub mod Once
pub mod Done
pub mod Returns
use Prim.Native.Char.{Char, code}
use Prim.Native.String
use fake_ui.Prelude.{
  ℕ, zero, ◌+◌, String, Bool, true, false, not, ◌&&◌, ◌||◌, ◌==◌, Option, none, some, List, [], ◌∷◌,
  ◌++◌, if◌then◌else◌, ltb, leb, any, ℤ, pos, Float, is_nonpositive, str_eq, is_empty,
}
use fake_ui.Prelude.Text.{strip, size}
use fake_ui.Prelude.Table.{Table, lookup, insert, remove, is_some}
use fake_ui.Prelude.Result.{Result, ok, err}
use fake_ui.Prelude.Result
use fake_ui.Prelude.Action.{Action, pure, raise, lift, gets, ◌>>=◌, ◌>>◌}
use fake_ui.Store.{User, Plan, Order, OrderStatus, Counters, World, Env, AuditEntry}
use fake_ui.Orders.{get_order, update_order, record_order}
use fake_ui.Plans.{get_plan, get_plan_if}
use fake_ui.Users.{add_days, quota_reached, traffic_gb_to_bytes}

abbrev is_alnum : ℕ → Bool
is_alnum c = (leb 48 c && leb c 57) || (leb 65 c && leb c 90) || (leb 97 c && leb c 122)

abbrev is_dash : ℕ → Bool
is_dash c = c == 95 || c == 45

abbrev all_name_chars : String → Bool
all_name_chars String.[] = true
all_name_chars (String.◌∷◌ c s) = (is_alnum (code c) || is_dash (code c)) && all_name_chars s

abbrev some_alnum : String → Bool
some_alnum String.[] = false
some_alnum (String.◌∷◌ c s) = is_alnum (code c) || some_alnum s

-- `username.replace("_", "").replace("-", "").isalnum()`
unfoldable pub is_username : String → Bool
is_username name = all_name_chars name && some_alnum name

abbrev sync_result : Option String → Result (Unit {0})
sync_result none = ok tt
sync_result (some out) = err (String.◌++◌ "同步用户到 Xray / Hysteria2 失败：\n" out)

unfoldable pub enforce_users_now : Env → Action World Unit
enforce_users_now env = lift (sync_result env.sync_failure)

unfoldable pub audit : String → String → String → Action World Unit
audit operator action target w = (
  ok tt,
  record w { audit = record { operator = operator; action = action; target = target } ∷ w.audit },
)

unfoldable pub save_user : String → User → Action World Unit
save_user name u w = (ok tt, record w { users = insert name u w.users })

-- `normalize_node_ids` on a list: the ids stripped, without the empty ones and repetitions
unfoldable pub normalize_node_ids : List String → List String → List String → Result (List String)
normalize_node_ids catalog [] result = ok result
normalize_node_ids catalog (raw ∷ rest) result =
    let item = strip raw in
    let skip = normalize_node_ids catalog rest result in
    let add = normalize_node_ids catalog rest (result ++ item ∷ []) in
    if is_empty item
    then skip
    else if not (any (str_eq item) catalog)
    then err (String.◌++◌ "节点不存在：" item)
    else if any (str_eq item) result
    then skip
    else add
