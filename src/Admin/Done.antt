-- ===== src/Admin/Done.antt =====
-- A completed order of baseline/user_admin.py stays completed in the calls of the administration:
-- they change only orders that are pending.
use fake_ui.Prelude.{
  String, Option, some, str_eq, eq_iff, ◌≡◌, ◌≢◌, refl, sym, ap, ◌∙◌, inl, inr, Bool-cases,
  Option-cases, true,
}
use mathlib.Core.Path.{subst}
use fake_ui.Prelude.Text.{strip}
use fake_ui.Prelude.Table.{Table, lookup, lookup-insert}
use fake_ui.Prelude.Result.{Result, ok, err}
use fake_ui.Prelude.Action.{gets}
use fake_ui.Prelude.Keeps.{Keeps, Keeps-bind_in, Keeps-then}
use fake_ui.Store.{Plan, Order, OrderStatus, World, Env}
use fake_ui.Store.Repository.{IsKeyed, insert-IsKeyed, upsert, upsert-lookup, upsert-IsKeyed}
use fake_ui.Orders.{order_row, get_order, update_order, record_order, commit, paired}
use fake_ui.Admin.Confirm.{pending_order, is_pending, confirm_order, cancel_order}
use fake_ui.Admin.Frames.{
  IsFrame, order_row-IsRow, apply_order-IsFrame, pending_order-IsFrame, audit-IsFrame,
}
use fake_ui.Admin.Once.{
  order_status, status_of, stamped, update_order-eq, update_order-missing, pending_order-eq_err,
}

module _ (j : String) where
  -- The order is completed, and orders stand under their ids.
  pub record Done (w : World) : Type 0 where
    pub completed : order_status j w ≡ some OrderStatus.completed
    pub keyed : IsKeyed order_row w.orders

  pub Done-frame : (w w' : World) → w'.orders ≡ w.orders → Done w → Done w'
  Done-frame w w' orders h = record { completed = rw orders h.completed; keyed = rw orders h.keyed }

  found-completed :
      (k : String) (o : Order) (w : World)
      → Done w
      → lookup k w.orders ≡ some o
      → k ≡ j
      → o.status ≡ OrderStatus.completed
  found-completed k o w h found same =
      let there : order_status k w ≡ some OrderStatus.completed =
        subst (λ i. order_status i w ≡ some OrderStatus.completed) (sym same) h.completed in
      let here : some o.status ≡ some OrderStatus.completed = sym (ap status_of found) ∙ there in
      cc here

  recorded :
      (w : World) (o : Order) (r : Result (Table Order))
      → upsert order_row o w.orders ≡ r
      → (str_eq (strip o.id) j ≡ true → o.status ≡ OrderStatus.completed)
      → Done w
      → Done (commit w (paired o r)).1
  recorded w o (err m) e fits h = h
  recorded w o (ok t) e fits h = record {
    completed = elim (Bool-cases (str_eq (strip o.id) j)) [
      | inl same ↦ rw (upsert-lookup order_row o w.orders t j e, same) (ap some (fits same))
      | inr differ ↦ rw (upsert-lookup order_row o w.orders t j e, differ) h.completed
    ];
    keyed = upsert-IsKeyed order_row w.orders o t order_row-IsRow h.keyed e;
  }

  pub record_order-Done :
      (env : Env) (name kind : String) (plan : Option Plan) (status : OrderStatus)
      (note operator : String)
      → (str_eq (strip env.order_id) j ≡ true → status ≡ OrderStatus.completed)
      → Keeps Done (record_order env name kind plan status note operator)
  unfolding record_order
  record_order-Done env name kind plan status note operator h = record {
    at = λ w done. recorded w _ (upsert order_row _ w.orders) refl h done;
  }

  pub update_order-Done :
      (env : Env) (id : String) (f : Order → Order)
      → ((o : Order) → (f o).id ≡ o.id)
      → ((o : Order)
          → id ≡ j
          → o.status ≡ OrderStatus.completed
          → (f o).status ≡ OrderStatus.completed)
      → Keeps Done (update_order env id f)
  update_order-Done env id f same_id same = record {
    at = λ w h. elim (Option-cases (lookup id w.orders)) [
      | inl missing ↦ rw (update_order-missing env id f w missing) h
      | inr (o, found) ↦ rw (update_order-eq env id f w o h.keyed found (same_id o)) (record {
        completed = elim (Bool-cases (str_eq id j)) [
          | inl here ↦
              let there : id ≡ j = (eq_iff id j).0 here in
              rw (lookup-insert id j (stamped env id f o) w.orders, here)
                (ap some (same o there (found-completed id o w h found there)))
          | inr differ ↦ rw (lookup-insert id j (stamped env id f o) w.orders, differ) h.completed
        ];
        keyed =
            insert-IsKeyed order_row w.orders id (stamped env id f o) h.keyed
              (refl, (h.keyed.at id o found).1, (h.keyed.at id o found).2);
      })
    ];
  }

  -- An order as the table has it, if the one with the id is completed.
  abbrev pub Fits : Order → Type 0
  Fits o = o.id ≡ j → o.status ≡ OrderStatus.completed

  pub get_order-Fits :
      (k : String) (s s' : World) (o : Order) → Done s → get_order k s ≡ (ok (some o), s') → Fits o
  unfolding get_order gets
  get_order-Fits k s s' o h e same =
      let found : lookup k s.orders ≡ some o = cc e in
      let own : k ≡ j = sym (h.keyed.at k o found).0 ∙ same in found-completed k o s h found own

  pub Done-IsFrame : IsFrame Done
  Done-IsFrame = record {
    frame = λ w w' payments orders h. Done-frame w w' orders h;
    recorded = λ env name kind plan note operator.
        record_order-Done env name kind plan OrderStatus.completed note operator (λ here. refl);
  }

  -- A pending order is another one.
  pending_order-other :
      (id : String) (s s' : World) (o : Order) → Done s → pending_order id s ≡ (ok o, s') → id ≢ j
  pending_order-other id s s' o h e same =
      let refused =
        pending_order-eq_err id s OrderStatus.completed
          (subst (λ k. order_status k s ≡ some OrderStatus.completed) (sym same) h.completed)
          (unfold is_pending in refl) in
      absurd cc

  pub confirm_order-Done :
      (env : Env) (id operator : String) → Keeps Done (confirm_order env id operator)
  unfolding confirm_order
  confirm_order-Done env id operator =
      Keeps-bind_in (pending_order id) _ (pending_order-IsFrame Done Done-IsFrame id)
        λ s s' order h e.
          let other = pending_order-other id s s' order h e in
          Keeps-then _ _ (apply_order-IsFrame Done Done-IsFrame env order operator) (
            Keeps-then _ _
              (update_order-Done env id _ (λ o. refl) (λ o same _. absurd (other same)))
              (audit-IsFrame Done Done-IsFrame operator "order.confirm" id))

  pub cancel_order-Done :
      (env : Env) (id operator : String) → Keeps Done (cancel_order env id operator)
  unfolding cancel_order
  cancel_order-Done env id operator =
      Keeps-bind_in (pending_order id) _ (pending_order-IsFrame Done Done-IsFrame id)
        λ s s' order h e.
          let other = pending_order-other id s s' order h e in
          Keeps-then _ _ (update_order-Done env id _ (λ o. refl) (λ o same _. absurd (other same)))
            (audit-IsFrame Done Done-IsFrame operator "order.cancel" id)
