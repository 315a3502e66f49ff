-- ===== src/Admin/Frames.antt =====
-- What the administration of users leaves alone: the payments, and the keys of the orders.
use fake_ui.Prelude.{String, Bool, true, false, Option, none, some, ◌≡◌, refl, ◌∙◌, ℤ, Float}
use fake_ui.Prelude.Table.{Table}
use fake_ui.Prelude.Result.{Result, ok, err}
use fake_ui.Prelude.Keeps.{Keeps, keeps_rules}
use fake_ui.Store.{User, Plan, Payment, Order, OrderStatus, World, Env}
use fake_ui.Store.Repository.{IsKeyed, IsRow, upsert-IsKeyed, update-IsKeyed}
use fake_ui.Orders.{order_row, commit, paired, get_order, update_order, record_order}
use fake_ui.Plans.{get_plan, get_plan_if}
use fake_ui.Admin.{enforce_users_now, audit, save_user}
use fake_ui.Admin.Create.{create_airport_user}
use fake_ui.Admin.Actions.{
  UserAction, Arguments, find_user, store_change, record_if_ordered, airport_user_action,
}
use fake_ui.Admin.Confirm.{
  find_plan, get_user, create_or_renew, create_or_renew_from_plan, replace_existing,
  replace_or_create, replace_subscription_from_plan, pending_order, apply_order, confirm_order,
}

pub order_row-IsRow : IsRow order_row
order_row-IsRow = record { read_id = λ k v. refl }

-- The payments are those of `c`, and every order stands under its id.
pub record Stays (c : Table Payment) (w : World) : Type 0 where
  pub payments : w.payments ≡ c
  pub keyed : IsKeyed order_row w.orders

paired-ok :
    (p : Order) (r : Result (Table Order)) (o : Order) (t : Table Order)
    → paired p r ≡ ok (o, t)
    → r ≡ ok t
paired-ok p (ok t) o t' e = cc
paired-ok p (err m) o t e = cc

-- What holds of a world whatever becomes of its users, plans and audit log, and whatever order is
-- recorded as completed.
pub record IsFrame (P : World → Type 0) : Type 0 where
  pub frame : (w w' : World) → w'.payments ≡ w.payments → w'.orders ≡ w.orders → P w → P w'
  pub recorded :
      (env : Env) (name kind : String) (plan : Option Plan) (note operator : String)
      → Keeps P (record_order env name kind plan OrderStatus.completed note operator)

module _ (P : World → Type 0) (f : IsFrame P) where
  get_plan_if-IsFrame : (given : Bool) (plan_id : String) → Keeps P (get_plan_if given plan_id)
  unfolding get_plan_if
  get_plan_if-IsFrame true plan_id = record { at = λ w h. f.frame w _ refl refl h }
  get_plan_if-IsFrame false plan_id = search keeps_rules

  get_plan-IsFrame : (plan_id : String) → Keeps P (get_plan plan_id)
  unfolding get_plan
  get_plan-IsFrame plan_id = record { at = λ w h. f.frame w _ refl refl h }

  save_user-IsFrame : (name : String) (u : User) → Keeps P (save_user name u)
  unfolding save_user
  save_user-IsFrame name u = record { at = λ w h. f.frame w _ refl refl h }

  pub audit-IsFrame : (operator action target : String) → Keeps P (audit operator action target)
  unfolding audit
  audit-IsFrame operator action target = record { at = λ w h. f.frame w _ refl refl h }

  enforce-IsFrame : (env : Env) → Keeps P (enforce_users_now env)
  unfolding enforce_users_now
  enforce-IsFrame env = search keeps_rules

  find_user-IsFrame : (name : String) → Keeps P (find_user name)
  unfolding find_user
  find_user-IsFrame name = search keeps_rules

  get_user-IsFrame : (name : String) → Keeps P (get_user name)
  unfolding get_user
  get_user-IsFrame name = search keeps_rules

  get_order-IsFrame : (name : String) → Keeps P (get_order name)
  unfolding get_order
  get_order-IsFrame name = search keeps_rules

  recorded_order-IsFrame :
      (env : Env) (name kind : String) (plan : Option Plan) (note operator : String)
      → Keeps P (record_order env name kind plan OrderStatus.completed note operator)
  recorded_order-IsFrame = f.recorded

  store_change-IsFrame :
      (action : UserAction) (name : String) (u : User) → Keeps P (store_change action name u)
  unfolding store_change
  store_change-IsFrame UserAction.delete name u = record { at = λ w h. f.frame w _ refl refl h }
  store_change-IsFrame _ name u = record { at = λ w h. f.frame w _ refl refl h }

  ruleset frame_rules = (
    keeps_rules, get_plan_if-IsFrame, get_plan-IsFrame, save_user-IsFrame, audit-IsFrame,
    enforce-IsFrame, find_user-IsFrame, get_user-IsFrame, get_order-IsFrame, recorded_order-IsFrame,
    store_change-IsFrame,
  )

  record_if_ordered-IsFrame :
      (env : Env) (action : UserAction) (name : String) (plan : Option Plan) (operator : String)
      → Keeps P (record_if_ordered env action name plan operator)
  unfolding record_if_ordered
  record_if_ordered-IsFrame env UserAction.extend name plan operator = search frame_rules
  record_if_ordered-IsFrame env UserAction.set_quota name plan operator = search frame_rules
  record_if_ordered-IsFrame env _ name plan operator = search frame_rules

  pub airport_user_action-IsFrame :
      (env : Env) (name : String) (action : UserAction) (args : Arguments)
      (plan_id operator : String)
      → Keeps P (airport_user_action env name action args plan_id operator)
  airport_user_action-IsFrame env name action args plan_id operator =
      unfold airport_user_action in search (frame_rules, record_if_ordered-IsFrame) depth 12

  pub create_airport_user-IsFrame :
      (env : Env) (name : String) (days : ℤ) (note input : String) (traffic : Option Float)
      (plan_id operator : String) (hash : Option String)
      → Keeps P (create_airport_user env name days note input traffic plan_id operator hash)
  create_airport_user-IsFrame env name days note input traffic plan_id operator hash =
      unfold create_airport_user in search frame_rules depth 16

  create_or_renew-IsFrame :
      (env : Env) (name : String) (plan : Plan) (plan_id password note : String)
      (hash : Option String) (operator : String) (existing : Option User)
      → Keeps P (create_or_renew env name plan plan_id password note hash operator existing)
  unfolding create_or_renew
  create_or_renew-IsFrame env name plan plan_id password note hash operator none =
      search create_airport_user-IsFrame
  create_or_renew-IsFrame env name plan plan_id password note hash operator (some user) =
      search airport_user_action-IsFrame

  find_plan-IsFrame : (plan_id : String) → Keeps P (find_plan plan_id)
  unfolding find_plan
  find_plan-IsFrame plan_id = search frame_rules

  pub create_or_renew_from_plan-IsFrame :
      (env : Env) (name plan_id password note : String) (hash : Option String) (operator : String)
      → Keeps P (create_or_renew_from_plan env name plan_id password note hash operator)
  create_or_renew_from_plan-IsFrame env name plan_id password note hash operator =
      unfold create_or_renew_from_plan in
      search (frame_rules, find_plan-IsFrame, create_or_renew-IsFrame)

  replace_existing-IsFrame :
      (env : Env) (name : String) (plan : Plan) (user : User) (operator : String)
      → Keeps P (replace_existing env name plan user operator)
  replace_existing-IsFrame env name plan user operator =
      unfold replace_existing in search frame_rules depth 10

  replace_or_create-IsFrame :
      (env : Env) (name : String) (plan : Plan) (plan_id operator : String) (existing : Option User)
      → Keeps P (replace_or_create env name plan plan_id operator existing)
  unfolding replace_or_create
  replace_or_create-IsFrame env name plan plan_id operator none = search create_airport_user-IsFrame
  replace_or_create-IsFrame env name plan plan_id operator (some user) =
      search replace_existing-IsFrame

  pub replace_subscription_from_plan-IsFrame :
      (env : Env) (name plan_id operator : String)
      → Keeps P (replace_subscription_from_plan env name plan_id operator)
  replace_subscription_from_plan-IsFrame env name plan_id operator =
      unfold replace_subscription_from_plan in
      search (frame_rules, find_plan-IsFrame, replace_or_create-IsFrame)

  pub pending_order-IsFrame : (id : String) → Keeps P (pending_order id)
  unfolding pending_order
  pending_order-IsFrame id = search frame_rules depth 8

  pub apply_order-IsFrame :
      (env : Env) (order : Order) (operator : String) → Keeps P (apply_order env order operator)
  unfolding apply_order
  apply_order-IsFrame env order operator =
      search
        (keeps_rules, create_or_renew_from_plan-IsFrame, replace_subscription_from_plan-IsFrame)

module _ (c : Table Payment) where
  commit-Stays :
      (w : World) (r : Result (Order × Table Order))
      → Stays c w
      → ((o : Order) (t : Table Order) → r ≡ ok (o, t) → IsKeyed order_row t)
      → Stays c (commit w r).1
  commit-Stays w (ok (o, t)) h keyed = record { payments = h.payments; keyed = keyed o t refl }
  commit-Stays w (err e) h keyed = h

  pub record_order-Stays :
      (env : Env) (name kind : String) (plan : Option Plan) (status : OrderStatus)
      (note operator : String)
      → Keeps (Stays c) (record_order env name kind plan status note operator)
  unfolding record_order
  record_order-Stays env name kind plan status note operator = record {
    at = λ w h. commit-Stays w _ h (λ o t e.
        upsert-IsKeyed order_row w.orders _ t order_row-IsRow h.keyed (paired-ok _ _ o t e));
  }

  pub update_order-Stays :
      (env : Env) (id : String) (f : Order → Order) → Keeps (Stays c) (update_order env id f)
  unfolding update_order
  update_order-Stays env id f = record {
    at = λ w h.
        commit-Stays w _ h
          (λ o t. update-IsKeyed order_row w.orders id _ o t order_row-IsRow h.keyed);
  }

  Stays-IsFrame : IsFrame (Stays c)
  Stays-IsFrame = record {
    frame = λ w w' payments orders h. record {
      payments = payments ∙ h.payments;
      keyed = rw orders h.keyed;
    };
    recorded = λ env name kind plan. record_order-Stays env name kind plan OrderStatus.completed;
  }

  pub pending_order-Stays : (id : String) → Keeps (Stays c) (pending_order id)
  pending_order-Stays = pending_order-IsFrame (Stays c) Stays-IsFrame

  pub apply_order-Stays :
      (env : Env) (order : Order) (operator : String)
      → Keeps (Stays c) (apply_order env order operator)
  apply_order-Stays = apply_order-IsFrame (Stays c) Stays-IsFrame

  audit-Stays : (operator action target : String) → Keeps (Stays c) (audit operator action target)
  audit-Stays = audit-IsFrame (Stays c) Stays-IsFrame

  -- Confirming an order changes no payment and keeps every order under its id.
  pub confirm_order-Stays :
      (env : Env) (id operator : String) → Keeps (Stays c) (confirm_order env id operator)
  unfolding confirm_order
  confirm_order-Stays env id operator =
      search (keeps_rules, pending_order-Stays, apply_order-Stays, update_order-Stays, audit-Stays)
        depth 8
