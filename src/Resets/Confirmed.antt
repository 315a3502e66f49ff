-- ===== src/Resets/Confirmed.antt =====
-- When baseline/password_reset_service.py changes a password.
use fake_ui.Prelude.{
  ℕ, ◌≤◌, ◌<◌, String, Bool, true, false, not, leb, ltb, Option, none, some, if◌then◌else◌,
  is_empty, str_eq, eq_iff, ◌≡◌, ◌≢◌, ◌⊎◌, refl, ◌∙◌, arith, Bool-cases, inl, inr,
}
use fake_ui.Prelude.Text.{strip, size}
use fake_ui.Prelude.Table.{Table, lookup, insert, lookup-insert_self, lookup-insert_ne}
use fake_ui.Prelude.Result.{Result, ok, err}
use fake_ui.Prelude.Action.{lift, raise, pure, resume, ◌>>=◌, ◌>>◌}
use fake_ui.Prelude.Keeps.{Keeps, Keeps-then, Keeps-pure}
use fake_ui.Resets.{
  ResetStatus, Reset, Account, State, max_attempts, is_past, with_status, count_failure,
  upsert_reset, set_reset, update_reset, set_password, audited, matching_user, current, consume,
  refuse, attempt, confirm_for, confirm,
}
use fake_ui.Resets.Users.{matching_user-IsUser}

set_password-users :
    (username hash : String) (a : Account) (s : State)
    → lookup username s.users ≡ some a
    → (set_password username hash s).users
      ≡ insert username (record a { panel_password = hash }) s.users
unfolding set_password
set_password-users username hash a s found = rw found refl

module _ (hash_code : String → String) (make_password_hash : String → String) where
  -- What it takes to set the password of a user, and what it sets.
  pub record Allowed (now : ℕ) (identifier code new_password : String) (s s' : State) : Type 0 where
    pub username : String
    pub user : Account
    pub item : Reset
    pub found : matching_user identifier s.users ≡ ok (some (username, user))
    pub latest : current username user.email s.resets ≡ some item
    pub in_time : is_past item.expires_at now ≡ false
    pub tries : item.attempts < max_attempts
    pub right : item.code_hash ≡ hash_code code
    pub long : 8 ≤ size new_password
    pub before : Account
    pub stored : lookup username s.users ≡ some before
    pub now_stored :
        lookup username s'.users
        ≡ some (record before { panel_password = make_password_hash new_password })
    pub others : (k : String) → username ≢ k → lookup k s'.users ≡ lookup k s.users

  upsert_reset-users : (item : Reset) (s : State) → (upsert_reset item s).1.users ≡ s.users
  unfolding upsert_reset
  upsert_reset-users item s = elim (Bool-cases (is_empty (strip item.token))) [
    | inl empty ↦ rw empty refl
    | inr given ↦ rw given refl
  ]

  set_reset-users :
      (change : Reset → Reset) (found : Option Reset) (s : State)
      → (set_reset change found s).1.users ≡ s.users
  set_reset-users change none s = refl
  set_reset-users change (some i) s = upsert_reset-users (change i) s

  -- The users are those that they are.
  abbrev Users : Table Account → State → Type 0
  Users users s = s.users ≡ users

  update_reset-Users :
      (users : Table Account) (token : String) (change : Reset → Reset)
      → Keeps (Users users) (update_reset token change)
  unfolding update_reset
  update_reset-Users users token change = record {
    at = λ s h. set_reset-users change (lookup token s.resets) s ∙ h;
  }

  refuse-users :
      (token : String) (change : Reset → Reset) (message : String) (s : State)
      → (refuse hash_code make_password_hash token change message s).1.users ≡ s.users
  unfolding raise
  refuse-users token change message s =
      (Keeps-then {P = Users s.users} (update_reset token change) (raise message)
          (update_reset-Users s.users token change) (record { at = λ s h. h })).at
        s refl

  consume-users :
      (username new_password : String) (item : Reset) (s : State)
      → (consume hash_code make_password_hash username new_password item s).1.users
        ≡ (set_password username (make_password_hash new_password) s).users
  consume-users username new_password item s =
      let s' = set_password username (make_password_hash new_password) s in
      (Keeps-then {P = Users s'.users}
          (update_reset item.token (with_status ResetStatus.consumed)
            >> audited username "password_reset.confirm")
          (pure "password reset complete")
          (Keeps-then (update_reset item.token (with_status ResetStatus.consumed))
            (audited username "password_reset.confirm")
            (update_reset-Users s'.users item.token (with_status ResetStatus.consumed))
            (record { at = λ s h. h }))
          (Keeps-pure "password reset complete")).at
        s' refl

  -- The end of a confirmation of the user that was found.
  attempt-Guarded :
      (now : ℕ) (identifier code new_password username : String) (user : Account) (s : State)
      (found : Option Reset)
      → matching_user identifier s.users ≡ ok (some (username, user))
      → ltb (size new_password) 8 ≡ false
      → current username user.email s.resets ≡ found
      → let s' = (attempt hash_code make_password_hash now username code new_password found s).1 in
        (s'.users ≡ s.users) ⊎ Allowed now identifier code new_password s s'
  unfolding raise
  attempt-Guarded now identifier code new_password username user s none f l c = inl refl
  attempt-Guarded now identifier code new_password username user s (some item) f l c =
      elim (Bool-cases (is_past item.expires_at now)) [
        | inl over ↦ rw over (
            inl (
              refuse-users item.token (with_status ResetStatus.expired) "verification code expired"
                s))
        | inr in_time ↦ elim (Bool-cases (leb max_attempts item.attempts)) [
          | inl many ↦ rw (in_time, many) (inl refl)
          | inr few ↦ elim (Bool-cases (str_eq item.code_hash (hash_code code))) [
            | inl right ↦
                let (before, stored) = matching_user-IsUser identifier s.users (username, user) f in
                let hash = make_password_hash new_password in
                let users =
                  consume-users username new_password item s
                  ∙ set_password-users username hash before s stored in
                rw (in_time, few, right)
                  (inr (record {
                    username = username;
                    user = user;
                    item = item;
                    found = f;
                    latest = c;
                    in_time = in_time;
                    tries = ground (arith, few);
                    right = (eq_iff item.code_hash (hash_code code)).0 right;
                    long = ground (arith, l);
                    before = before;
                    stored = stored;
                    now_stored = rw (users, lookup-insert_self);
                    others = λ k ne. rw users (lookup-insert_ne username k _ s.users ne);
                  }))
            | inr wrong ↦
                rw (in_time, few, wrong)
                  (inl (refuse-users item.token (count_failure item) "invalid verification code" s))
          ]
        ]
      ]

  found-Guarded :
      (now : ℕ) (identifier code new_password : String) (s : State)
      (found : Result (Option (String × Account)))
      → matching_user identifier s.users ≡ found
      → ltb (size new_password) 8 ≡ false
      → let s' =
          (resume found s (confirm_for hash_code make_password_hash now code new_password)).1 in
        (s'.users ≡ s.users) ⊎ Allowed now identifier code new_password s s'
  found-Guarded now identifier code new_password s (err e) f l = inl refl
  found-Guarded now identifier code new_password s (ok none) f l = inl refl
  found-Guarded now identifier code new_password s (ok (some (username, user))) f l =
      elim (Bool-cases (is_empty username)) [
        | inl empty ↦ rw empty (inl refl)
        | inr given ↦ rw given (
            attempt-Guarded now identifier code new_password username user s
              (current username user.email s.resets) f l refl)
      ]

  tested-Guarded :
      (now : ℕ) (identifier code new_password : String) (s : State) (off short : Bool)
      → ltb (size new_password) 8 ≡ short
      → let s' =
          ((if off
              then raise "password reset is disabled"
              else if short
              then raise "new password must be at least 8 characters"
              else lift (matching_user identifier s.users)
                >>= confirm_for hash_code make_password_hash now code new_password)
            s).1 in
        (s'.users ≡ s.users) ⊎ Allowed now identifier code new_password s s'
  unfolding lift raise ◌>>=◌
  tested-Guarded now identifier code new_password s true short l = inl refl
  tested-Guarded now identifier code new_password s false true l = inl refl
  tested-Guarded now identifier code new_password s false false l =
      found-Guarded now identifier code new_password s (matching_user identifier s.users) refl l

  -- A confirmation changes no user, unless its code has the hash of the latest pending reset of
  -- the user that it names, which is not over and was tried fewer than five times, and the new
  -- password has at least eight characters; then the row under this user's name has the hash of
  -- the new password and is otherwise the same, and no other name's row changes.
  pub confirm-Allowed :
      (now : ℕ) (identifier code new_password : String) (s : State)
      → let s' = (confirm hash_code make_password_hash now identifier code new_password s).1 in
        (s'.users ≡ s.users) ⊎ Allowed now identifier code new_password s s'
  unfolding confirm
  confirm-Allowed now identifier code new_password s =
      tested-Guarded now identifier code new_password s (not s.enabled) (ltb (size new_password) 8)
        refl
