-- ===== src/Resets/Counted.antt =====
-- What baseline/password_reset_service.py does with a code that may be tried.
use fake_ui.Prelude.{
  ℕ, ◌+◌, String, Bool, true, false, not, leb, ltb, Option, some, ◌∷◌, if◌then◌else◌, is_empty,
  str_eq, ◌≡◌, refl, ap, ◌∙◌, Bool-cases, inl, inr,
}
use fake_ui.Prelude.Text.{strip, size}
use fake_ui.Prelude.Table.{lookup, insert}
use fake_ui.Prelude.Result.{Result, ok, err}
use fake_ui.Prelude.Action.{lift, raise, pure, resume, ◌>>=◌, ◌>>◌}
use fake_ui.Resets.{
  ResetStatus, Reset, Account, State, max_attempts, is_past, with_status, count_failure,
  upsert_reset, update_reset, set_for, set_password, matching_user, current, consume, refuse,
  attempt, confirm_for, confirm,
}

-- The user that a confirmation names has a code that may be tried, and its row and the user's stand
-- under their keys.
pub record IsLive (now : ℕ) (identifier : String) (s : State) (username : String) (user : Account)
    (item : Reset) : Type 0 where
  pub switch : s.enabled ≡ true
  pub found : matching_user identifier s.users ≡ ok (some (username, user))
  pub name : is_empty username ≡ false
  pub account : lookup username s.users ≡ some user
  pub latest : current username user.email s.resets ≡ some item
  pub stored : lookup item.token s.resets ≡ some item
  pub stripped : strip item.token ≡ item.token
  pub given : is_empty item.token ≡ false
  pub in_time : is_past item.expires_at now ≡ false

update_reset-run :
    (token : String) (change : Reset → Reset) (i : Reset) (s : State)
    → lookup token s.resets ≡ some i
    → strip (change i).token ≡ token
    → is_empty token ≡ false
    → update_reset token change s
      ≡ (ok tt, record s { resets = insert token (record (change i) { token = token }) s.resets })
unfolding update_reset upsert_reset
update_reset-run token change i s found stripped given = rw (found, stripped, given) refl

module _ (hash_code : String → String) (make_password_hash : String → String) where
  -- What a confirmation leaves behind.
  abbrev pub after_wrong : Reset → State → State
  after_wrong item s = record s {
    resets =
        insert item.token
          (record item {
            attempts = item.attempts + 1;
            status = if leb 5 (item.attempts + 1) then ResetStatus.locked else item.status;
          })
          s.resets;
  }

  abbrev pub after_right : String → String → Account → Reset → State → State
  after_right username new_password user item s = record s {
    users =
        insert username (record user { panel_password = make_password_hash new_password }) s.users;
    resets = insert item.token (record item { status = ResetStatus.consumed }) s.resets;
    audit =
        (record { operator = username; action = "password_reset.confirm"; target = username })
        ∷ s.audit;
  }

  abbrev pub tried : String → String → String → Account → Reset → State → Result String × State
  tried code new_password username user item s =
      if str_eq item.code_hash (hash_code code)
      then (ok "password reset complete", after_right username new_password user item s)
      else (err "invalid verification code", after_wrong item s)

  refused :
      (item : Reset) (s : State)
      → lookup item.token s.resets ≡ some item
      → strip item.token ≡ item.token
      → is_empty item.token ≡ false
      → refuse hash_code make_password_hash item.token
          (count_failure item)
          "invalid verification code"
          s
        ≡ (err "invalid verification code", after_wrong item s)
  unfolding ◌>>=◌ ◌>>◌ raise count_failure
  refused item s stored stripped given =
      rw (update_reset-run item.token (count_failure item) item s stored stripped given) refl

  accepted :
      (username new_password : String) (user : Account) (item : Reset) (s : State)
      → lookup username s.users ≡ some user
      → lookup item.token s.resets ≡ some item
      → strip item.token ≡ item.token
      → is_empty item.token ≡ false
      → consume hash_code make_password_hash username new_password item s
        ≡ (ok "password reset complete", after_right username new_password user item s)
  unfolding ◌>>=◌ ◌>>◌ pure set_password
  accepted username new_password user item s account stored stripped given =
      let s' = set_for username (make_password_hash new_password) (some user) s in
      let row =
        update_reset-run item.token (with_status ResetStatus.consumed) item s' stored stripped
          given in
      rw (account, row) refl

  attempt-tried :
      (now : ℕ) (identifier code new_password username : String) (user : Account) (item : Reset)
      (s : State)
      → IsLive now identifier s username user item
      → leb max_attempts item.attempts ≡ false
      → attempt hash_code make_password_hash now username code new_password (some item) s
        ≡ tried code new_password username user item s
  attempt-tried now identifier code new_password username user item s h few =
      elim (Bool-cases (str_eq item.code_hash (hash_code code))) [
        | inl right ↦
            rw (h.in_time, few, right)
              (accepted username new_password user item s h.account h.stored h.stripped h.given)
        | inr wrong ↦ rw (h.in_time, few, wrong) (refused item s h.stored h.stripped h.given)
      ]

  tested :
      (now : ℕ) (code new_password : String) (s : State) (off short : Bool)
      (found : Result (Option (String × Account)))
      → off ≡ false
      → short ≡ false
      → (if off
            then raise "password reset is disabled"
            else if short
            then raise "new password must be at least 8 characters"
            else lift found >>= confirm_for hash_code make_password_hash now code new_password)
          s
        ≡ resume found s (confirm_for hash_code make_password_hash now code new_password)
  unfolding ◌>>=◌ lift
  tested now code new_password s off short found no_switch long = rw (no_switch, long) refl

  -- With a live code, a confirmation with a new password of at least eight characters is an
  -- attempt at this code.
  pub confirm-attempt :
      (now : ℕ) (identifier code new_password username : String) (user : Account) (item : Reset)
      (s : State)
      → ltb (size new_password) 8 ≡ false
      → IsLive now identifier s username user item
      → confirm hash_code make_password_hash now identifier code new_password s
        ≡ attempt hash_code make_password_hash now username code new_password (some item) s
  unfolding confirm
  confirm-attempt now identifier code new_password username user item s long h =
      tested now code new_password s (not s.enabled) (ltb (size new_password) 8)
        (matching_user identifier s.users) (ap not h.switch) long
      ∙ ap (λ f. resume f s (confirm_for hash_code make_password_hash now code new_password))
          h.found
      ∙ rw (h.name, h.latest) refl

  -- A live code that was tried fewer than five times and is confirmed with a new password of at
  -- least eight characters: if it is wrong, it is refused and its attempts grow by one, with which
  -- it is locked if they are five; if it is right, the password is set and the code is consumed.
  -- Nothing else changes but the audit log.
  pub confirm-tried :
      (now : ℕ) (identifier code new_password username : String) (user : Account) (item : Reset)
      (s : State)
      → ltb (size new_password) 8 ≡ false
      → IsLive now identifier s username user item
      → leb max_attempts item.attempts ≡ false
      → confirm hash_code make_password_hash now identifier code new_password s
        ≡ tried code new_password username user item s
  confirm-tried now identifier code new_password username user item s long h few =
      confirm-attempt now identifier code new_password username user item s long h
      ∙ attempt-tried now identifier code new_password username user item s h few
