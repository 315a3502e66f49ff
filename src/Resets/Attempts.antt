-- ===== src/Resets/Attempts.antt =====
-- How often a code of baseline/password_reset_service.py may be tried.
use fake_ui.Prelude.{
  ℕ, ◌+◌, ◌≤◌, String, true, false, leb, ltb, some, str_eq, if◌then◌else◌, ◌≡◌, refl, sym, ap, ◌∙◌,
  arith, Bool-cases, inl, inr,
}
use fake_ui.Prelude.Text.{size}
use fake_ui.Prelude.Table.{lookup, lookup-insert_self}
use fake_ui.Prelude.Result.{Result, ok, err}
use fake_ui.Prelude.Action.{raise}
use fake_ui.Resets.{ResetStatus, Reset, Account, State, max_attempts, is_past, attempt, confirm}
use fake_ui.Resets.Counted.{IsLive, after_wrong, confirm-attempt, confirm-tried}

no_answer : {e f : String} → ◌≡◌ {A = Result String} (ok e) (err f) → ⊥
no_answer e = cc

other_message :
    ◌≡◌ {A = Result String} (err "too many verification attempts") (err "invalid verification code")
    → ⊥
other_message e = cc

allowed : (n : ℕ) → leb max_attempts n ≡ false → n + 1 ≤ 5
allowed n few = ground arith

module _ (hash_code : String → String) (make_password_hash : String → String) where
  -- Wrong guesses at the code of one reset, counted by the answers that the guesser gets: while
  -- the code is live, a confirmation is answered "invalid verification code". Between them the
  -- state changes in any way that leaves this reset's row as it is.
  pub data Guessed (token : String) : ℕ → State → State → Type 0 where
    start : {s : State} → Guessed token 0 s s
    guess :
        {n : ℕ} {s0 s : State} (now : ℕ) (identifier code new_password username : String)
        (user : Account) (item : Reset)
        → Guessed token n s0 s
        → IsLive now identifier s username user item
        → item.token ≡ token
        → ltb (size new_password) 8 ≡ false
        → (confirm hash_code make_password_hash now identifier code new_password s).0
          ≡ err "invalid verification code"
        → Guessed token
            (n + 1)
            s0
            (confirm hash_code make_password_hash now identifier code new_password s).1
    elsewhere :
        {n : ℕ} {s0 s s' : State}
        → Guessed token n s0 s
        → lookup token s'.resets ≡ lookup token s.resets
        → Guessed token n s0 s'

  too_many :
      (now : ℕ) (username code new_password : String) (item : Reset) (s : State)
      → is_past item.expires_at now ≡ false
      → leb max_attempts item.attempts ≡ true
      → (attempt hash_code make_password_hash now username code new_password (some item) s).0
        ≡ err "too many verification attempts"
  unfolding raise
  too_many now username code new_password item s in_time many = rw (in_time, many) refl

  -- A wrong guess at a live code leaves the row with one attempt more, of which there were fewer
  -- than five.
  guess-counted :
      (now : ℕ) (identifier code new_password username : String) (user : Account) (item : Reset)
      (s : State)
      → IsLive now identifier s username user item
      → ltb (size new_password) 8 ≡ false
      → (confirm hash_code make_password_hash now identifier code new_password s).0
        ≡ err "invalid verification code"
      → let s' = (confirm hash_code make_password_hash now identifier code new_password s).1 in
        (leb max_attempts item.attempts ≡ false)
        × (s' ≡ after_wrong hash_code make_password_hash item s)
  guess-counted now identifier code new_password username user item s h long answer =
      elim (Bool-cases (leb max_attempts item.attempts)) [
        | inl many ↦
            let run =
              confirm-attempt hash_code make_password_hash now identifier code new_password username
                user item s long h in
            absurd (
              other_message (
                sym (too_many now username code new_password item s h.in_time many)
                ∙ sym (ap (λ (o : Result String × State). o.0) run)
                ∙ answer))
        | inr few ↦
            let run =
              confirm-tried hash_code make_password_hash now identifier code new_password username
                user item s long h few in
            elim (Bool-cases (str_eq item.code_hash (hash_code code))) [
              | inl right ↦ absurd (
                  no_answer
                    (rw right at (sym (ap (λ (o : Result String × State). o.0) run) ∙ answer)))
              | inr wrong ↦ (few, ap (λ (o : Result String × State). o.1) run ∙ rw wrong refl)
            ]
      ]

  -- A code is guessed wrongly at most five times: from a row with at most five attempts on, each
  -- answer "invalid verification code" to a confirmation, with a new password of at least eight
  -- characters, of a code that is live adds one attempt to the row, and together the attempts stay
  -- at most five, however the state changes between the guesses, if the row stays as it is.
  pub guesses_bounded :
      (token : String) (n : ℕ) (s0 s : State) (first : Reset)
      → lookup token s0.resets ≡ some first
      → first.attempts ≤ 5
      → Guessed token n s0 s
      → (i : Reset) × (lookup token s.resets ≡ some i)
        × (i.attempts ≡ first.attempts + n)
        × (first.attempts + n ≤ 5)
  guesses_bounded token n s0 s first found le start = (first, found, omega arith, omega arith)
  guesses_bounded token n s0 s first found le (elsewhere g same) =
      let (i, row, count, bound) = guesses_bounded token n s0 _ first found le g in
      (i, same ∙ row, count, bound)
  guesses_bounded token n s0 s first found le
        (guess {n = m} {s = before} now identifier code new_password username user item g live own
          long answer) =
      let (i, row, count, bound) = guesses_bounded token m s0 before first found le g in
      let (few, after) =
        guess-counted now identifier code new_password username user item before live long answer in
      let stored : lookup token before.resets ≡ some item =
        ap (λ k. lookup k before.resets) (sym own) ∙ live.stored in
      let same : item ≡ i = cc (stored, row) in
      (
        record item {
          attempts = item.attempts + 1;
          status = if leb 5 (item.attempts + 1) then ResetStatus.locked else item.status;
        },
        rw (after, own) (lookup-insert_self token _ before.resets),
        omega (arith, ap (λ (r : Reset). r.attempts) same, count),
        omega (arith, ap (λ (r : Reset). r.attempts) same, count, allowed item.attempts few),
      )
