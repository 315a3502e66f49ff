-- ===== src/Users.antt =====
-- baseline/user_store.py: when a user may connect, what is recomputed on the way to the proxies,
-- and the quota arithmetic. Credentials of the protocols (`ensure_hy2_credentials`) are not part
-- of a modelled user.
use fake_ui.Prelude.{
  ℕ, ◌+◌, ◌-◌, ◌*◌, String, Bool, false, not, ◌&&◌, Option, none, some, [], ◌∷◌, if◌then◌else◌, ltb,
  leb, ℤ, pos, negsuc, Float, is_negative, gib, str_eq, suc, max,
}
use fake_ui.Prelude.Table.{Table}
use fake_ui.Prelude.Result.{Result, ok, err}
use fake_ui.Store.{User}

abbrev pub day : ℕ
day = 86400

-- `time + timedelta(days=days)`; a time before the epoch is the epoch
unfoldable pub add_days : ℕ → ℤ → ℕ
add_days time (pos n) = time + n * day
add_days time (negsuc n) = time - suc n * day

-- `exp is not None and exp <= now`
unfoldable pub is_expired : Option ℕ → ℕ → Bool
is_expired none now = false
is_expired (some t) now = leb t now

unfoldable pub quota_reached : User → Bool
quota_reached u = ltb 0 u.quota_bytes && leb u.quota_bytes u.used_bytes

-- `user_is_active` for a user that exists
unfoldable pub user_is_active : ℕ → User → Bool
unfolding is_expired quota_reached
user_is_active now u =
    if not u.enabled
    then false
    else if is_expired u.expires_at now
    then false
    else not (quota_reached u)

-- One round of the loop in `active_users`: the row as it is saved, and whether it is handed on.
unfoldable pub refresh_flags : ℕ → User → User × Bool
unfolding is_expired quota_reached
refresh_flags now u = (
  record u { expired = is_expired u.expires_at now; quota_exceeded = quota_reached u },
  u.enabled && not (is_expired u.expires_at now) && not (quota_reached u),
)

unfoldable pub active_users : ℕ → Table User → Table User × Table User
unfolding refresh_flags
active_users now [] = ([], [])
active_users now ((name, u) ∷ t) =
    let (saved, active) = active_users now t in
    let (u', on) = refresh_flags now u in
    ((name, u') ∷ saved, (if on then (name, u') ∷ active else active))

-- `find_user_by_token`: the first user with the token
unfoldable pub find_user_by_token : String → Table User → Option (String × User)
find_user_by_token token [] = none
find_user_by_token token ((name, u) ∷ t) =
    let later = find_user_by_token token t in
    if str_eq u.sub_token token then some (name, u) else later

-- `traffic_gb_to_bytes`; an absent amount is 0
unfoldable pub traffic_gb_to_bytes : Option Float → Result ℕ
traffic_gb_to_bytes none = ok 0
traffic_gb_to_bytes (some gb) = if is_negative gb then err "流量额度不能小于 0。" else ok (gib gb)

-- The remaining bytes that `quota_text` prints, `none` for an unlimited user.
unfoldable pub remaining : User → Option ℕ
remaining u = if leb u.quota_bytes 0 then none else some (max 0 (u.quota_bytes - u.used_bytes))
