-- ===== src/Desktops/Clean.antt =====
-- `clean_id` of baseline/desktop_catalog.py.
use fake_ui.Prelude.{
  ℕ, String, Bool, true, false, ◌&&◌, ◌||◌, ◌==◌, leb, if◌then◌else◌, is_empty, str_eq, eq_iff, ◌≡◌,
  refl, ap, ◌∙◌, sym, arith, Bool-cases, inl, inr,
}
use Prim.Native.Char.{Char, code}
use mathlib.Core.Path.{subst}
use fake_ui.Prelude.Text.{strip, lower, lower_char, is_space}
use fake_ui.Prelude.Clean.{
  all_chars, any_char, strip_by, dash_runs, strip_by_idem, all_chars-strip_by, dash_runs_id,
  all_chars-dash_runs, strip_id,
}
use fake_ui.Prelude.Result.{Result, ok, ok-injective}
use fake_ui.Tunnels.Clean.{is_hyphen, required_text, required_text-eq_ok}

-- `[a-z0-9_-]`
abbrev is_device_char : ℕ → Bool
is_device_char c = (leb 48 c && leb c 57) || (leb 97 c && leb c 122) || c == 95 || c == 45

abbrev dashed_id : String → String
dashed_id text = strip_by is_hyphen (dash_runs is_device_char false text)

-- The names of the panel's first devices.
abbrev named_device : String → Result String
named_device text =
    if str_eq text "macbook 控制端" || str_eq text "macbook"
    then ok "macbook"
    else if str_eq text "windows 主机" || str_eq text "windows"
    then ok "windows"
    else if str_eq text "linux 主机" || str_eq text "linux"
    then ok "linux"
    else required_text (dashed_id text) "desktop device id is required"

unfoldable pub clean_device_id : String → Result String
unfolding strip lower strip_by dash_runs
clean_device_id value = named_device (lower (strip value))

no_space : (s : String) → all_chars is_device_char s ≡ true → any_char is_space s ≡ false
no_space String.[] h = refl
no_space (String.◌∷◌ c s) h = ground (arith, no_space s)

lower_char-id : (c : Char) → is_device_char (code c) ≡ true → lower_char c ≡ c
unfolding lower_char
lower_char-id c h = ground arith

lower-id : (s : String) → all_chars is_device_char s ≡ true → lower s ≡ s
unfolding lower
lower-id String.[] h = refl
lower-id (String.◌∷◌ c s) h = rw (lower_char-id c (ground arith), lower-id s (ground arith))

true_ne_false : true ≡ false → ⊥
true_ne_false e = cc

dashed_id-chars : (text : String) → all_chars is_device_char (dashed_id text) ≡ true
dashed_id-chars text =
    all_chars-strip_by is_hyphen is_device_char (dash_runs is_device_char false text)
      (all_chars-dash_runs is_device_char false text refl)

-- No id is a name with other characters.
other_name :
    (id name : String)
    → all_chars is_device_char name ≡ false
    → all_chars is_device_char id ≡ true
    → str_eq id name ≡ false
other_name id name foreign own = elim (Bool-cases (str_eq id name)) [
  | inl same ↦
      let e : id ≡ name = (eq_iff id name).0 same in
      absurd (true_ne_false (sym own ∙ ap (all_chars is_device_char) e ∙ foreign))
  | inr other ↦ other
]

dashed_id-fixed : (text : String) → dashed_id (dashed_id text) ≡ dashed_id text
dashed_id-fixed text =
    ap (strip_by is_hyphen)
      (dash_runs_id is_device_char false (dashed_id text) (dashed_id-chars text))
    ∙ strip_by_idem is_hyphen (dash_runs is_device_char false text)

-- Text of an id's characters that is its own dashed form is its own clean form.
clean_device_id-fixed :
    (id : String)
    → all_chars is_device_char id ≡ true
    → dashed_id id ≡ id
    → is_empty id ≡ false
    → clean_device_id id ≡ ok id
unfolding clean_device_id
clean_device_id-fixed id chars fixed named =
    let text : lower (strip id) ≡ id =
      ap lower (strip_id id (no_space id chars)) ∙ lower-id id chars in
    ap named_device text
    ∙ rw
        (
          other_name id "macbook 控制端" refl chars,
          other_name id "windows 主机" refl chars,
          other_name id "linux 主机" refl chars,
        )
        (ground (arith, eq_iff id "macbook", eq_iff id "windows", eq_iff id "linux", fixed, named))

fixed_name :
    (name id : String)
    → all_chars is_device_char name ≡ true
    → dashed_id name ≡ name
    → is_empty name ≡ false
    → ok name ≡ ok id
    → (clean_device_id id ≡ ok id) × (is_empty id ≡ false)
fixed_name name id chars fixed named e =
    subst (λ n. (clean_device_id n ≡ ok n) × (is_empty n ≡ false)) (ok-injective name id e)
      (clean_device_id-fixed name chars fixed named, named)

named_device-fixed :
    (text id : String)
    → named_device text ≡ ok id
    → (clean_device_id id ≡ ok id) × (is_empty id ≡ false)
unfolding strip_by dash_runs
named_device-fixed text id e =
    elim (Bool-cases (str_eq text "macbook 控制端" || str_eq text "macbook")) [
      | inl mac ↦ fixed_name "macbook" id refl refl refl (rw mac at e)
      | inr no_mac ↦ elim (Bool-cases (str_eq text "windows 主机" || str_eq text "windows")) [
        | inl windows ↦ fixed_name "windows" id refl refl refl (rw (no_mac, windows) at e)
        | inr no_windows ↦ elim (Bool-cases (str_eq text "linux 主机" || str_eq text "linux")) [
          | inl linux ↦ fixed_name "linux" id refl refl refl (rw (no_mac, no_windows, linux) at e)
          | inr no_linux ↦
              let (same, named) =
                required_text-eq_ok (dashed_id text) "desktop device id is required" id
                  (rw (no_mac, no_windows, no_linux) at e) in
              (
                clean_device_id-fixed id
                    (subst (λ t. all_chars is_device_char t ≡ true) same (dashed_id-chars text))
                    (ap dashed_id (sym same) ∙ dashed_id-fixed text ∙ same)
                    (ap is_empty (sym same) ∙ named),
                ap is_empty (sym same) ∙ named,
              )
        ]
      ]
    ]

-- The id that `clean_id` gives a device is not empty, and is its own clean form.
pub clean_device_id_idem :
    (value id : String)
    → clean_device_id value ≡ ok id
    → (clean_device_id id ≡ ok id) × (is_empty id ≡ false)
unfolding clean_device_id
clean_device_id_idem value id e = named_device-fixed (lower (strip value)) id e
