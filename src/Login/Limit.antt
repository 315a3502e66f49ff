-- ===== src/Login/Limit.antt =====
-- When a key is limited: at eight failures in the window.
use fake_ui.Prelude.{
  ℕ, ◌+◌, ◌≤◌, ◌<◌, String, true, List, [], ◌∷◌, ◌++◌, filter, length, All, ◌≡◌, refl, sym, ◌∙◌,
  leb, arith, eq_refl,
}
use mathlib.Core.List.{append_assoc, append-nil}
use fake_ui.Prelude.Table.{lookup, remove, lookup-insert_self, lookup-remove}
use fake_ui.Login.{
  Attempts, stored, within, login_window, login_max_attempts, login_limited, record_login_failure,
  clear_login_failures,
}

-- Failures of one key, in their order.
unfoldable pub failures : String → List ℕ → Attempts → Attempts
failures key [] s = s
failures key (time ∷ times) s = failures key times (record_login_failure key time s)

-- A time that the window of `now` holds.
abbrev pub IsRecent : ℕ → ℕ → Type 0
IsRecent now time = (time ≤ now) × (now < time + login_window)

filter-recent :
    (now later : ℕ) (times : List ℕ)
    → now ≤ later
    → All (IsRecent later) times
    → filter (within now) times ≡ times
filter-recent now later [] le h = refl
filter-recent now later (time ∷ times) le h =
    let kept : within now time ≡ true = ground (arith, h.0.1) in
    rw (kept, filter-recent now later times le h.1)

All-snoc :
    (now : ℕ) (times : List ℕ) (time : ℕ)
    → All (IsRecent now) times
    → IsRecent now time
    → All (IsRecent now) (times ++ time ∷ [])
All-snoc now [] time h k = (k, tt)
All-snoc now (t ∷ times) time h k = (h.0, All-snoc now times time h.1 k)

failures-stored :
    (key : String) (now : ℕ) (times before : List ℕ) (s : Attempts)
    → stored (lookup key s) ≡ before
    → All (IsRecent now) before
    → All (IsRecent now) times
    → stored (lookup key (failures key times s)) ≡ before ++ times
unfolding failures record_login_failure
failures-stored key now [] before s e h k = e ∙ sym (append-nil before)
failures-stored key now (time ∷ times) before s e h k =
    let first : stored (lookup key (record_login_failure key time s)) ≡ before ++ time ∷ [] =
      rw (lookup-insert_self, e, filter-recent time now before k.0.0 h) in
    failures-stored key now times (before ++ time ∷ []) (record_login_failure key time s) first
      (All-snoc now before time h k.0) k.1
    ∙ append_assoc before (time ∷ []) times

-- After a login that cleared a key's failures, and failures that all lie in the window and not in
-- the future, the key is limited exactly if there are at least eight of them.
pub limited_after_failures :
    (key : String) (now : ℕ) (times : List ℕ) (s : Attempts)
    → All (IsRecent now) times
    → (login_limited key now (failures key times (clear_login_failures key s))).0
      ≡ leb login_max_attempts (length times)
unfolding login_limited clear_login_failures
limited_after_failures key now times s h =
    let cleared : stored (lookup key (remove key s)) ≡ [] = rw (lookup-remove, eq_refl) in
    rw (
      failures-stored key now times [] (remove key s) cleared tt h,
      filter-recent now now times (omega arith) h,
    )
