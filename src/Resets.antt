-- ===== src/Resets.antt =====
-- baseline/password_reset_service.py and the resets of baseline/registration_store.py: codes that are
-- mailed to a user and allow a new password. The hashes (SHA-256 of codes, and of passwords) and the
-- mail server are parameters; the clock and the drawn texts are arguments.
pub mod Attempts
pub mod Users
pub mod Confirmed
pub mod Counted
use fake_ui.Prelude.{
  ℕ, ◌+◌, ◌*◌, String, Bool, true, false, not, ◌&&◌, ◌||◌, ◌==◌, leb, ltb, Option, none, some, List,
  [], ◌∷◌, filter, any, if◌then◌else◌, is_empty, str_eq,
}
use Prim.Native.Nat.{Ordering}
use Prim.Native.String.{compare}
use fake_ui.Prelude.Text.{strip, lower, size}
use fake_ui.Prelude.Table.{Table, lookup, insert, is_some}
use fake_ui.Prelude.Result.{Result, ok, err, raise_if, or_raise}
use fake_ui.Prelude.Action.{Action, lift, gets, check, raise, pure, ◌>>=◌, ◌>>◌}
use fake_ui.Prelude.Action
use fake_ui.Store.{AuditEntry}

pub data ResetStatus : Type 0 where
  pending expired locked consumed : ResetStatus

pub record Reset : Type 0 where
  pub token : String
  pub username : String
  pub email : String
  pub status : ResetStatus
  pub code_hash : String
  pub attempts : ℕ
  pub created_at : ℕ
  pub expires_at : Option ℕ

pub record Account : Type 0 where
  pub email : String
  pub panel_password : String

pub record State : Type 0 where
  pub enabled : Bool
  pub users : Table Account
  pub resets : Table Reset
  pub audit : List AuditEntry

abbrev pub max_attempts : ℕ
max_attempts = 5

abbrev pub is_pending_reset : ResetStatus → Bool
is_pending_reset ResetStatus.pending = true
is_pending_reset other = false

-- `items.values()`
abbrev pub rows : {A : Type 0} → Table A → List A
rows [] = []
rows ((key, a) ∷ rest) = a ∷ rows rest

-- The users whose e-mail it is, whatever the case.
unfoldable pub with_email : String → Table Account → Table Account
unfolding lower
with_email email [] = []
with_email email ((name, user) ∷ rest) =
    let later = with_email email rest in
    if str_eq (lower user.email) (lower email) then (name, user) ∷ later else later

-- `("", None)` is `none`.
abbrev matched : Table Account → Result (Option (String × Account))
matched [] = ok none
matched (m ∷ []) = ok (some m)
matched (m ∷ n ∷ rest) = err "email matches multiple users"

abbrev account_named : String → Option Account → Table Account → Result (Option (String × Account))
account_named name (some user) others = ok (some (name, user))
account_named name none others = matched others

unfoldable pub matching_user : String → Table Account → Result (Option (String × Account))
unfolding strip lookup with_email
matching_user identifier users =
    let name = strip identifier in
    if is_empty name
    then err "username or email is required"
    else account_named name (lookup name users) (with_email name users)

abbrev id_precedes : String → String → Bool
id_precedes a b = elim (compare a b) [ Ordering.lt ↦ true | _ ↦ false ]

-- The one with the latest time, and among those the one with the last id, as `sorted(..., reverse=True)[0]` gives.
abbrev later_of : Reset → Option Reset → Reset
later_of a none = a
later_of a (some b) =
    if ltb a.created_at b.created_at
      || (a.created_at == b.created_at && id_precedes a.token b.token)
    then b
    else a

unfoldable pub latest : List Reset → Option Reset
latest [] = none
latest (a ∷ rest) = some (later_of a (latest rest))

-- `registration_store.list_resets("pending")` of the user, the latest first
unfoldable pub current : String → String → Table Reset → Option Reset
unfolding latest
current username email resets = latest (
    filter
      (λ (i : Reset).
        is_pending_reset i.status && str_eq i.username username && str_eq i.email email)
      (rows resets))

-- `SQLitePasswordResetsRepository().upsert`
unfoldable pub upsert_reset : Reset → Action State (Unit {0})
unfolding strip insert
upsert_reset item s =
    let token = strip item.token in
    if is_empty token
    then (err "token is required", s)
    else (ok tt, record s { resets = insert token (record item { token = token }) s.resets })

abbrev pub set_reset : (Reset → Reset) → Option Reset → Action State (Unit {0})
set_reset change none s = (err "request not found", s)
set_reset change (some i) s = upsert_reset (change i) s

unfoldable pub update_reset : String → (Reset → Reset) → Action State (Unit {0})
unfolding lookup upsert_reset
update_reset token change s = set_reset change (lookup token s.resets) s

abbrev pub audited : String → String → Action State (Unit {0})
audited user action s = (
  ok tt,
  record s { audit = (record { operator = user; action = action; target = user }) ∷ s.audit },
)

-- `int(attempts) + 1`, and the lock at the last
unfoldable pub count_failure : Reset → Reset → Reset
count_failure item i =
    let attempts = item.attempts + 1 in
    record i {
      attempts = attempts;
      status = if leb max_attempts attempts then ResetStatus.locked else i.status;
    }

abbrev pub with_status : ResetStatus → Reset → Reset
with_status status i = record i { status = status }

abbrev pub set_for : String → String → Option Account → State → State
set_for username hash none s = s
set_for username hash (some u) s = record s {
  users = insert username (record u { panel_password = hash }) s.users;
}

unfoldable pub set_password : String → String → State → State
unfolding insert lookup
set_password username hash s = set_for username hash (lookup username s.users) s

abbrev pub is_past : Option ℕ → ℕ → Bool
is_past none now = false
is_past (some t) now = leb t now

-- What `send_code` draws: the code and the token.
pub record Drawn : Type 0 where
  pub code : String
  pub token : String

-- Whether the mail could be sent (`none`, or the error).
abbrev pub mailed : Option String → Action State (Unit {0})
mailed none s = (ok tt, s)
mailed (some e) s = (err e, s)

module _ (hash_code : String → String) (make_password_hash : String → String) where
  unfoldable pub new_reset : ℕ → Drawn → String → Account → Reset
  new_reset now drawn username user = record {
    token = drawn.token;
    username = username;
    email = user.email;
    status = ResetStatus.pending;
    code_hash = hash_code drawn.code;
    attempts = 0;
    created_at = now;
    expires_at = some (now + 10 * 60);
  }

  abbrev pub send_to : ℕ → Drawn → Option String → Option (String × Account) → Action State String
  send_to now drawn mail none = pure "verification code sent"
  send_to now drawn mail (some (username, user)) =
      if is_empty username || is_empty user.email
      then pure "verification code sent"
      else (upsert_reset (new_reset now drawn username user)
          >> mailed mail
          >> audited username "password_reset.code_sent"
          >> pure "verification code sent")

  unfoldable pub send_code : ℕ → Drawn → Option String → String → Action State String
  unfolding matching_user upsert_reset new_reset lift raise pure Action.◌>>=◌ Action.◌>>◌
  send_code now drawn mail identifier s =
      (if s.enabled
          then lift (matching_user identifier s.users) >>= send_to now drawn mail
          else raise "password reset is disabled")
        s

  abbrev pub consume : String → String → Reset → Action State String
  consume username new_password item s =
      let s' = set_password username (make_password_hash new_password) s in
      (update_reset item.token (with_status ResetStatus.consumed)
          >> audited username "password_reset.confirm"
          >> pure "password reset complete")
        s'

  abbrev pub refuse : String → (Reset → Reset) → String → Action State String
  refuse token change message = update_reset token change >> raise message

  abbrev pub attempt : ℕ → String → String → String → Option Reset → Action State String
  attempt now username code new_password none = raise "invalid verification code"
  attempt now username code new_password (some item) =
      if is_past item.expires_at now
      then refuse item.token (with_status ResetStatus.expired) "verification code expired"
      else if leb max_attempts item.attempts
      then raise "too many verification attempts"
      else if str_eq item.code_hash (hash_code code)
      then consume username new_password item
      else refuse item.token (count_failure item) "invalid verification code"

  abbrev pub confirm_for : ℕ → String → String → Option (String × Account) → Action State String
  confirm_for now code new_password none s = (err "invalid verification code", s)
  confirm_for now code new_password (some (username, user)) s =
      if is_empty username
      then (err "invalid verification code", s)
      else attempt now username code new_password (current username user.email s.resets) s

  unfoldable pub confirm : ℕ → String → String → String → Action State String
  unfolding matching_user current update_reset set_password count_failure lift raise pure
      Action.◌>>=◌ Action.◌>>◌
  confirm now identifier code new_password s =
      (if not s.enabled
          then raise "password reset is disabled"
          else if ltb (size new_password) 8
          then raise "new password must be at least 8 characters"
          else lift (matching_user identifier s.users) >>= confirm_for now code new_password)
        s
