-- ===== src/Quota/Growth.antt =====
-- What quota collection adds up: while the counters do not fall, exactly what they grew by.
use fake_ui.Prelude.{ℕ, ◌+◌, ◌≤◌, String, some, List, [], ◌∷◌, ◌≡◌}
use fake_ui.Store.{User, Counters}
use fake_ui.Quota.{Node, Reading, nodes_for_user, xray_totals, hy2_name, sum, collect_user}

-- `a` is at most `b` in both directions.
abbrev pub IsBelow : Counters → Counters → Type 0
IsBelow a b = (a.up ≤ b.up) × (a.down ≤ b.down)

-- The user after a list of readings.
unfoldable pub collect_all : List Node → String → List Reading → User → User
unfolding collect_user
collect_all catalog username [] u = u
collect_all catalog username (r ∷ rs) u =
    collect_all catalog username rs (collect_user catalog r username u).0

-- Readings that find the user at both proxies, with counters that do not fall. Before them the
-- proxies' counters added up to `n`, and at the last of them to `m`.
pub data Steady (catalog : List Node) (username : String)
    : List Reading → User → ℕ → ℕ → Type 0 where
  done :
      {u : User} {n : ℕ}
      → n ≡ sum u.last_xray_stats + sum u.last_hy2_stats
      → Steady catalog username [] u n n
  next :
      {r : Reading} {rs : List Reading} {u : User} {n m : ℕ} (x h : Counters)
      → n ≡ sum u.last_xray_stats + sum u.last_hy2_stats
      → xray_totals r username (nodes_for_user catalog u) ≡ some x
      → r.hy2 (hy2_name username u) ≡ some h
      → IsBelow u.last_xray_stats x
      → IsBelow u.last_hy2_stats h
      → Steady catalog username rs (collect_user catalog r username u).0 (sum x + sum h) m
      → Steady catalog username (r ∷ rs) u n m
