-- ===== src/Tests/QuotaExamples.antt =====
-- Two readings of one user.
use fake_ui.Prelude.{ℕ, true, none, some, List, [], ◌∷◌, ◌≡◌, refl, if◌then◌else◌, str_eq}
use fake_ui.Store.{User, Counters}
use fake_ui.Quota.{Node, Reading, collect_user}
use fake_ui.Tests.Fixtures.{user}

abbrev catalog : List Node
catalog = record { id = "vless-main"; kind = "vless"; group = "default" } ∷ []

abbrev member : User
member = record user { node_groups = "default" ∷ []; quota_bytes = 250 }

abbrev counters : ℕ → ℕ → Counters
counters up down = record { up = up; down = down }

abbrev reading : ℕ → Reading
reading n = record {
  xray = λ key. if str_eq key "user>>>panel-user:ann>>>traffic>>>uplink" then some n else none;
  hy2 = λ name. some (counters 0 n);
}

quota_test : (collect_user catalog (reading 130) "ann" member).0.quota_exceeded ≡ true
unfolding collect_user
quota_test = refl
