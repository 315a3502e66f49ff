-- ===== src/Tests/ConfirmExamples.antt =====
-- An order that replaces a subscription.
use fake_ui.Prelude.{some, [], ◌≡◌, refl}
use fake_ui.Prelude.Table.{lookup, insert}
use fake_ui.Prelude.Text.{strip}
use fake_ui.Prelude.Result.{ok}
use fake_ui.Store.{Order, OrderStatus, World}
use fake_ui.Store.Repository.{IsKeyed, insert-IsKeyed}
use fake_ui.Orders.{order_row}
use fake_ui.Plans.{load_plans}
use fake_ui.Admin.Confirm.{confirm_order}
use fake_ui.Admin.Once.{order_status}
use fake_ui.Admin.Returns.{CanReplace, confirm_order_succeeds}
use fake_ui.Tests.Fixtures.{order, user, plan, world, env}

abbrev replacement : Order
replacement = record order { kind = "replace" }

abbrev shop : World
shop = record world { orders = insert "ord" replacement [] }

shop-IsKeyed : IsKeyed order_row shop.orders
unfolding strip lookup
shop-IsKeyed =
    insert-IsKeyed order_row [] "ord" replacement (record { at = λ k v e. absurd cc })
      (refl, refl, refl)

shop-CanReplace : CanReplace env "ord" shop
unfolding strip lookup insert load_plans
shop-CanReplace = record {
  order = replacement;
  plan = plan;
  user = user;
  keyed = shop-IsKeyed;
  ordered = refl;
  pending = refl;
  replaces = refl;
  planned = refl;
  known = refl;
  traffic = refl;
  synced = refl;
  new_id = refl;
  named = refl;
  other = refl;
}

confirm_order_succeeds_example :
    (w' : World) × (confirm_order env "ord" "root" shop ≡ (ok tt, w'))
    × (order_status "ord" w' ≡ some OrderStatus.completed)
confirm_order_succeeds_example = confirm_order_succeeds env "ord" "root" shop shop-CanReplace
