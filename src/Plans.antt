-- ===== src/Plans.antt =====
-- baseline/plans_store.py: the plans, with the two default ones added when they are missing.
use fake_ui.Prelude.{ℕ, String, Bool, false, Option, none, List, [], ◌∷◌, if◌then◌else◌, pos, Float}
use fake_ui.Prelude.Table.{Table, lookup, insert, is_some}
use fake_ui.Prelude.Result.{ok}
use fake_ui.Prelude.Action.{Action, pure}
use fake_ui.Store.{Plan, World}

abbrev whole : ℕ → Float
whole n = record { negative = false; mantissa = n; shift = 0 }

unfoldable pub default_plans : List Plan
default_plans =
    record {
      id = "starter";
      days = pos 30;
      traffic_gb = whole 100;
      price = "0.0";
      node_groups = "default" ∷ [];
    }
    ∷ record {
      id = "standard";
      days = pos 30;
      traffic_gb = whole 300;
      price = "0.0";
      node_groups = "default" ∷ [];
    }
    ∷ []

unfoldable pub add_missing : List Plan → Table Plan → Table Plan
add_missing [] t = t
add_missing (plan ∷ rest) t =
    add_missing rest (if is_some (lookup plan.id t) then t else insert plan.id plan t)

unfoldable pub load_plans : Table Plan → Table Plan
unfolding add_missing default_plans
load_plans t = add_missing default_plans t

unfoldable pub get_plan : String → Action World (Option Plan)
unfolding load_plans
get_plan plan_id w = let t = load_plans w.plans in (ok (lookup plan_id t), record w { plans = t })

-- `plans_store.get_plan(plan_id) if plan_id else None`
unfoldable pub get_plan_if : Bool → String → Action World (Option Plan)
unfolding get_plan
get_plan_if given plan_id = if given then get_plan plan_id else pure none
