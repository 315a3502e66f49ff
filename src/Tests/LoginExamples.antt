-- ===== src/Tests/LoginExamples.antt =====
-- Failed logins of one key.
use fake_ui.Prelude.{ℕ, List, [], ◌∷◌, ◌≡◌, length, leb, arith}
use fake_ui.Login.{login_limited, clear_login_failures, login_max_attempts}
use fake_ui.Login.Limit.{failures, limited_after_failures}

abbrev times : List ℕ
times = 1000 ∷ 1001 ∷ 1002 ∷ 1003 ∷ 1004 ∷ 1005 ∷ 1006 ∷ 1007 ∷ []

limited_after_failures_example :
    (login_limited "ann" 1500 (failures "ann" times (clear_login_failures "ann" []))).0
    ≡ leb login_max_attempts (length times)
limited_after_failures_example = limited_after_failures "ann" 1500 times [] (ground arith)
