-- ===== src/Admin/Returns.antt =====
-- When a confirmation returns.
use fake_ui.Prelude.{String, false, none, some, ◌≡◌, refl, ap, is_empty, is_negative, str_eq}
use fake_ui.Prelude.Text.{strip}
use fake_ui.Prelude.Table.{lookup, lookup-insert}
use fake_ui.Prelude.Result.{Result, ok}
use fake_ui.Prelude.Action.{lift, pure, gets, check, ◌>>=◌, ◌>>◌}
use fake_ui.Store.{Order, OrderStatus, Plan, User, World, Env}
use fake_ui.Store.Repository.{update, upsert, IsKeyed}
use fake_ui.Orders.{order_row, get_order, update_order, record_order}
use fake_ui.Plans.{load_plans, get_plan}
use fake_ui.Users.{traffic_gb_to_bytes}
use fake_ui.Admin.{enforce_users_now, save_user, audit}
use fake_ui.Admin.Confirm.{
  find_plan, get_user, replace_existing, replace_or_create, replace_subscription_from_plan,
  is_pending, pending_order, apply_order, confirm_order,
}
use fake_ui.Admin.Once.{order_status, confirm_order_completes}

-- What a confirmation of an order for a new subscription of an existing user needs.
pub record CanReplace (env : Env) (id : String) (w : World) : Type 0 where
  pub order : Order
  pub plan : Plan
  pub user : User
  pub keyed : IsKeyed order_row w.orders
  pub ordered : lookup id w.orders ≡ some order
  pub pending : order.status ≡ OrderStatus.pending
  pub replaces : order.kind ≡ "replace"
  pub planned : lookup order.plan_id (load_plans w.plans) ≡ some plan
  pub known : lookup (strip order.username) w.users ≡ some user
  pub traffic : is_negative plan.traffic_gb ≡ false
  pub synced : env.sync_failure ≡ none
  pub new_id : strip env.order_id ≡ env.order_id
  pub named : is_empty env.order_id ≡ false
  pub other : str_eq env.order_id id ≡ false

module _ (env : Env) (id operator : String) (w : World) (h : CanReplace env id w) where
  confirm_order_returns : (confirm_order env id operator w).0 ≡ ok tt
  unfolding confirm_order pending_order get_order apply_order replace_subscription_from_plan
      find_plan get_plan get_user replace_or_create replace_existing save_user enforce_users_now
      record_order audit update_order update upsert traffic_gb_to_bytes is_pending ◌>>=◌ ◌>>◌ gets
      lift check pure
  confirm_order_returns =
      let key = h.keyed.at id h.order h.ordered in
      simp
        (
          h.ordered, h.pending, h.replaces, h.planned, h.known, h.traffic, h.synced, h.new_id,
          h.named, h.other, key.0, key.1, key.2, lookup-insert,
        )
        refl

  -- A pending order that replaces an existing user's subscription can be confirmed: if orders
  -- stand under their ids, its plan exists with a quota that is not negative, the sync with the
  -- proxies succeeds and the drawn order id is new, then the confirmation returns and the order is
  -- completed.
  pub confirm_order_succeeds :
      (w' : World) × (confirm_order env id operator w ≡ (ok tt, w'))
      × (order_status id w' ≡ some OrderStatus.completed)
  confirm_order_succeeds =
      let w' : World = (confirm_order env id operator w).1 in
      let run : confirm_order env id operator w ≡ (ok tt, w') =
        ap (λ (r : Result (Unit {0})). (r, w')) confirm_order_returns in
      (w', run, confirm_order_completes env id operator w w' h.keyed run)
