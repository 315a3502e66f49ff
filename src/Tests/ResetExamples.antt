-- ===== src/Tests/ResetExamples.antt =====
-- A code that is mailed to Ann and tried.
use fake_ui.Prelude.{◌+◌, ◌≤◌, String, true, none, some, [], ◌∷◌, ◌≡◌, ◌⊎◌, refl, arith}
use fake_ui.Resets.{State, Account, Reset, ResetStatus, Drawn, send_code, confirm}
use fake_ui.Prelude.Table.{lookup}
use fake_ui.Resets.Attempts.{Guessed, start, guess, guesses_bounded}
use fake_ui.Resets.Counted.{IsLive, tried, confirm-tried}
use fake_ui.Resets.Confirmed.{Allowed, confirm-Allowed}

abbrev plain : String → String
plain s = s

abbrev ann : Account
ann = record { email = "ann@example.org"; panel_password = "old" }

abbrev first : State
first = record { enabled = true; users = ("ann", ann) ∷ []; resets = []; audit = [] }

abbrev drawn : Drawn
drawn = record { code = "123456"; token = "t1" }

abbrev sent : State
sent = (send_code plain plain 1000 drawn none "ann" first).1

confirm-Allowed_example :
    ((confirm plain plain 1001 "ann" "123456" "a long password" sent).1.users ≡ sent.users)
    ⊎ Allowed plain plain 1001 "ann" "123456" "a long password" sent
        (confirm plain plain 1001 "ann" "123456" "a long password" sent).1
confirm-Allowed_example = confirm-Allowed plain plain 1001 "ann" "123456" "a long password" sent

abbrev item : Reset
item = record {
  token = "t1";
  username = "ann";
  email = "ann@example.org";
  status = ResetStatus.pending;
  code_hash = "123456";
  attempts = 0;
  created_at = 1000;
  expires_at = some 1600;
}

sent-IsLive : IsLive 1001 "ann" sent "ann" ann item
unfolding send_code fake_ui.Resets.current
sent-IsLive = record {
  switch = refl;
  found = refl;
  name = refl;
  account = refl;
  latest = refl;
  stored = refl;
  stripped = refl;
  given = refl;
  in_time = refl;
}

confirm-tried_example :
    confirm plain plain 1001 "ann" "000000" "a long password" sent
    ≡ tried plain plain "000000" "a long password" "ann" ann item sent
confirm-tried_example =
    confirm-tried plain plain 1001 "ann" "000000" "a long password" "ann" ann item sent refl
      sent-IsLive refl

-- Two wrong guesses.
abbrev guessed : State → State
guessed s = (confirm plain plain 1001 "ann" "000000" "a long password" s).1

guessed-IsLive : IsLive 1001 "ann" (guessed sent) "ann" ann (record item { attempts = 1 })
unfolding send_code confirm fake_ui.Resets.current
guessed-IsLive = record {
  switch = refl;
  found = refl;
  name = refl;
  account = refl;
  latest = refl;
  stored = refl;
  stripped = refl;
  given = refl;
  in_time = refl;
}

guesses : Guessed plain plain "t1" 2 sent (guessed (guessed sent))
unfolding send_code confirm
guesses =
    guess 1001 "ann" "000000" "a long password" "ann" ann (record item { attempts = 1 })
      (guess 1001 "ann" "000000" "a long password" "ann" ann item start sent-IsLive refl refl refl)
      guessed-IsLive refl refl refl

guesses_bounded_example :
    (i : Reset) × (lookup "t1" (guessed (guessed sent)).resets ≡ some i)
    × (i.attempts ≡ 0 + 2)
    × (0 + 2 ≤ 5)
unfolding send_code
guesses_bounded_example =
    guesses_bounded plain plain "t1" 2 sent (guessed (guessed sent)) item refl (omega arith) guesses

-- The right code sets the password.
set_test :
    (confirm plain plain 1002 "ANN@example.org" "123456" "a long password" (guessed sent)).1.users
    ≡ ("ann", (record ann { panel_password = "a long password" })) ∷ []
unfolding send_code confirm
set_test = refl
