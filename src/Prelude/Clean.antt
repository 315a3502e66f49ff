-- ===== src/Prelude/Clean.antt =====
-- Python's text functions with a class of characters: `strip(chars)`, `split(sep)`, and
-- `re.sub("[^...]+", "-", text)`. A class is a test of the code point.
use Prim.Native.Nat.{ℕ}
use Prim.Native.Char.{code}
use Prim.Native.String.{[], ◌∷◌}
use mathlib.Core.Path.{◌≡◌, refl}
use mathlib.Core.Bool.{Bool, true, false, ◌&&◌, ◌||◌}
use mathlib.Core.List.{List}
use native.Mathlib.Omega.{arith}
use fake_ui.Prelude.Tests.{leb, ◌==◌, if◌then◌else◌}
use fake_ui.Prelude.Text.{String, is_empty, is_space, lstrip, rstrip, strip}

-- `[a-zA-Z0-9]`
abbrev pub is_ascii_alnum : ℕ → Bool
is_ascii_alnum c = (leb 48 c && leb c 57) || (leb 65 c && leb c 90) || (leb 97 c && leb c 122)

abbrev pub all_chars : (ℕ → Bool) → String → Bool
all_chars p [] = true
all_chars p (c ∷ s) = p (code c) && all_chars p s

abbrev pub any_char : (ℕ → Bool) → String → Bool
any_char p [] = false
any_char p (c ∷ s) = p (code c) || any_char p s

unfoldable pub lstrip_by : (ℕ → Bool) → String → String
lstrip_by p [] = []
lstrip_by p (c ∷ s) = let rest = lstrip_by p s in if p (code c) then rest else c ∷ s

unfoldable pub rstrip_by : (ℕ → Bool) → String → String
rstrip_by p [] = []
rstrip_by p (c ∷ s) = let r = rstrip_by p s in if is_empty r && p (code c) then [] else c ∷ r

-- `text.strip(chars)`
unfoldable pub strip_by : (ℕ → Bool) → String → String
unfolding lstrip_by rstrip_by
strip_by p s = rstrip_by p (lstrip_by p s)

-- Each run of characters outside the class becomes one dash; `inside` a run it has been written.
unfoldable pub dash_runs : (ℕ → Bool) → Bool → String → String
dash_runs p inside [] = []
dash_runs p inside (c ∷ s) =
    let kept = dash_runs p false s in
    let run = dash_runs p true s in
    if p (code c) then c ∷ kept else if inside then run else "-" ∷ run

abbrev pub cons_head : Prim.Native.Char.Char → List String → List String
cons_head c List.[] = List.◌∷◌ (c ∷ []) List.[]
cons_head c (List.◌∷◌ s rest) = List.◌∷◌ (c ∷ s) rest

-- `text.split(sep)`
unfoldable pub split_on : ℕ → String → List String
split_on sep [] = List.◌∷◌ [] List.[]
split_on sep (c ∷ s) =
    let rest = split_on sep s in if code c == sep then List.◌∷◌ [] rest else cons_head c rest

module _ (p : ℕ → Bool) where
  lstrip_by-rstrip_by : (s : String) → lstrip_by p (rstrip_by p s) ≡ rstrip_by p (lstrip_by p s)
  unfolding lstrip_by rstrip_by
  lstrip_by-rstrip_by [] = refl
  lstrip_by-rstrip_by (c ∷ s) = ground (arith, lstrip_by-rstrip_by s)

  lstrip_by_idem : (s : String) → lstrip_by p (lstrip_by p s) ≡ lstrip_by p s
  unfolding lstrip_by
  lstrip_by_idem [] = refl
  lstrip_by_idem (c ∷ s) = ground (arith, lstrip_by_idem s)

  rstrip_by_idem : (s : String) → rstrip_by p (rstrip_by p s) ≡ rstrip_by p s
  unfolding rstrip_by
  rstrip_by_idem [] = refl
  rstrip_by_idem (c ∷ s) = ground (arith, rstrip_by_idem s)

  pub strip_by_idem : (s : String) → strip_by p (strip_by p s) ≡ strip_by p s
  strip_by_idem s = unfold strip_by in simp (lstrip_by-rstrip_by, rstrip_by_idem, lstrip_by_idem)

  -- What a strip leaves is a part of the text.
  all_chars-lstrip_by :
      (q : ℕ → Bool) (s : String) → all_chars q s ≡ true → all_chars q (lstrip_by p s) ≡ true
  unfolding lstrip_by
  all_chars-lstrip_by q [] h = refl
  all_chars-lstrip_by q (c ∷ s) h = ground (arith, all_chars-lstrip_by q s)

  all_chars-rstrip_by :
      (q : ℕ → Bool) (s : String) → all_chars q s ≡ true → all_chars q (rstrip_by p s) ≡ true
  unfolding rstrip_by
  all_chars-rstrip_by q [] h = refl
  all_chars-rstrip_by q (c ∷ s) h = ground (arith, all_chars-rstrip_by q s)

  pub all_chars-strip_by :
      (q : ℕ → Bool) (s : String) → all_chars q s ≡ true → all_chars q (strip_by p s) ≡ true
  unfolding strip_by
  all_chars-strip_by q s h = all_chars-rstrip_by q (lstrip_by p s) (all_chars-lstrip_by q s h)

  -- Text of the class stays as it is, and all other text becomes such.
  pub dash_runs_id : (inside : Bool) (s : String) → all_chars p s ≡ true → dash_runs p inside s ≡ s
  unfolding dash_runs
  dash_runs_id inside [] h = refl
  dash_runs_id inside (c ∷ s) h = ground (arith, dash_runs_id false s)

  pub all_chars-dash_runs :
      (inside : Bool) (s : String) → p 45 ≡ true → all_chars p (dash_runs p inside s) ≡ true
  unfolding dash_runs
  all_chars-dash_runs inside [] h = refl
  all_chars-dash_runs inside (c ∷ s) h =
      ground (arith, all_chars-dash_runs false s h, all_chars-dash_runs true s h)

-- Text without spaces has none to strip.
lstrip_id : (s : String) → any_char is_space s ≡ false → lstrip s ≡ s
unfolding lstrip
lstrip_id [] h = refl
lstrip_id (c ∷ s) h = ground arith

rstrip_id : (s : String) → any_char is_space s ≡ false → rstrip s ≡ s
unfolding rstrip
rstrip_id [] h = refl
rstrip_id (c ∷ s) h = ground (arith, rstrip_id s)

pub strip_id : (s : String) → any_char is_space s ≡ false → strip s ≡ s
strip_id s h = unfold strip in rw (lstrip_id s h) (rstrip_id s h)

clean_test : strip_by (λ c. c == 45) (dash_runs is_ascii_alnum false " my  tunnel!") ≡ "my-tunnel"
unfolding strip_by dash_runs
clean_test = refl

split_test : split_on 46 "a.bc." ≡ List.◌∷◌ "a" (List.◌∷◌ "bc" (List.◌∷◌ "" List.[]))
unfolding split_on
split_test = refl
