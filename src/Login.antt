-- ===== src/Login.antt =====
-- The limit on failed logins of baseline/security.py. A time is a number of seconds.
pub mod Limit
use fake_ui.Prelude.{
  ℕ, ◌-◌, ◌*◌, String, Bool, Option, none, some, List, [], ◌∷◌, ◌++◌, filter, length, ltb, leb,
}
use fake_ui.Prelude.Table.{Table, lookup, insert, remove}

-- LOGIN_WINDOW_SECONDS and LOGIN_MAX_ATTEMPTS
abbrev pub login_window : ℕ
login_window = 15 * 60

abbrev pub login_max_attempts : ℕ
login_max_attempts = 8

-- _LOGIN_ATTEMPTS: the times of the failed logins by key
abbrev pub Attempts : Type 0
Attempts = Table (List ℕ)

abbrev pub stored : Option (List ℕ) → List ℕ
stored none = []
stored (some times) = times

abbrev pub within : ℕ → ℕ → Bool
within now time = ltb (now - time) login_window

abbrev pub recent : String → ℕ → Attempts → List ℕ
recent key now s = filter (within now) (stored (lookup key s))

unfoldable pub login_limited : String → ℕ → Attempts → Bool × Attempts
login_limited key now s =
    let attempts = recent key now s in
    (leb login_max_attempts (length attempts), insert key attempts s)

unfoldable pub record_login_failure : String → ℕ → Attempts → Attempts
record_login_failure key now s = insert key (recent key now s ++ now ∷ []) s

unfoldable pub clear_login_failures : String → Attempts → Attempts
clear_login_failures key s = remove key s
