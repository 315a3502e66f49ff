-- ===== src/Tunnels/Clean.antt =====
-- The functions of baseline/tunnel_catalog.py that check one field.
use Prim.Native.Char.{Char, code}
use fake_ui.Prelude.{
  ℕ, String, Bool, true, false, ◌&&◌, ◌||◌, ◌==◌, leb, List, [], ◌∷◌, any, if◌then◌else◌, is_empty,
  str_eq, ◌≡◌, refl, ap, ◌∙◌, sym, arith, Bool-cases, inl, inr,
}
use mathlib.Core.Path.{subst}
use fake_ui.Prelude.Text.{strip, lower, lower_char, size, is_space}
use fake_ui.Prelude.Clean.{
  is_ascii_alnum, all_chars, any_char, strip_by, rstrip_by, dash_runs, split_on, cons_head,
  strip_by_idem, all_chars-strip_by, dash_runs_id, all_chars-dash_runs, strip_id,
}
use fake_ui.Prelude.Result.{Result, ok, err, ok-injective, err-ne-ok}

-- `[a-zA-Z0-9_-]`
abbrev pub is_id_char : ℕ → Bool
is_id_char c = is_ascii_alnum c || c == 95 || c == 45

abbrev pub is_hyphen : ℕ → Bool
is_hyphen c = c == 45

abbrev pub id_text : String → String
id_text value = strip_by is_hyphen (dash_runs is_id_char false (strip value))

abbrev pub required_text : String → String → Result String
required_text text message = if is_empty text then err message else ok text

unfoldable pub clean_id : String → Result String
unfolding strip strip_by dash_runs
clean_id value = required_text (id_text value) "tunnel id is required"

abbrev is_dot : ℕ → Bool
is_dot c = c == 46

-- `[a-z0-9]`
abbrev is_lower_alnum : ℕ → Bool
is_lower_alnum c = (leb 48 c && leb c 57) || (leb 97 c && leb c 122)

abbrev is_label_char : ℕ → Bool
is_label_char c = is_lower_alnum c || c == 45

abbrev first_char : (ℕ → Bool) → String → Bool
first_char p String.[] = false
first_char p (String.◌∷◌ c s) = p (code c)

abbrev last_char : (ℕ → Bool) → String → Bool
last_char p String.[] = false
last_char p (String.◌∷◌ c String.[]) = p (code c)
last_char p (String.◌∷◌ c (String.◌∷◌ d s)) = last_char p (String.◌∷◌ d s)

-- `[a-z0-9](?:[a-z0-9-]{0,61}[a-z0-9])?`
abbrev pub is_label : String → Bool
is_label s =
    all_chars is_label_char s
    && first_char is_lower_alnum s
    && last_char is_lower_alnum s
    && leb (size s) 63

abbrev all_labels : List String → Bool
all_labels [] = true
all_labels (s ∷ rest) = is_label s && all_labels rest

-- At least two labels with dots between them.
abbrev two_or_more : List String → Bool
two_or_more [] = false
two_or_more (s ∷ []) = false
two_or_more (s ∷ t ∷ rest) = true

unfoldable pub is_domain : String → Bool
unfolding split_on
is_domain s = let labels = split_on 46 s in two_or_more labels && all_labels labels

unfoldable pub clean_domain : String → Result String
unfolding strip lower rstrip_by is_domain
clean_domain value =
    let domain = rstrip_by is_dot (lower (strip value)) in
    if is_empty domain
    then ok ""
    else if is_domain domain
    then ok domain
    else err "public domain is invalid"

-- `domain.replace(".", "-")`
unfoldable pub undotted : String → String
undotted String.[] = String.[]
undotted (String.◌∷◌ c s) = String.◌∷◌ (if is_dot (code c) then "-" else c) (undotted s)

unfoldable pub id_from_domain : String → Result String
unfolding clean_id undotted
id_from_domain domain = clean_id (undotted domain)

-- `str(value or default).strip()`
abbrev pub or_default : String → String → String
or_default value default = strip (if is_empty value then default else value)

unfoldable pub clean_flow : String → String
unfolding strip
clean_flow value =
    let flow = or_default value "xtls-rprx-vision" in
    if is_empty flow then "xtls-rprx-vision" else flow

-- A value that has to be one of a set.
abbrev pub one_of : List String → String → String → Result String
one_of set message value = if any (str_eq value) set then ok value else err message

unfoldable pub clean_kind : String → Result String
unfolding strip
clean_kind value =
    one_of ("public_https" ∷ "private_tcp" ∷ []) "tunnel kind is invalid"
      (or_default value "public_https")

unfoldable pub clean_bridge_mode : String → Result String
unfolding strip
clean_bridge_mode value =
    one_of ("dedicated" ∷ "shared" ∷ []) "bridge mode is invalid" (or_default value "dedicated")

unfoldable pub clean_bridge_platform : String → Result String
unfolding strip lower
clean_bridge_platform value =
    one_of ("macos" ∷ "linux" ∷ "windows" ∷ []) "bridge platform is invalid"
      (lower (or_default value "macos"))

-- An id that was cleaned is clean.
no_space : (s : String) → all_chars is_id_char s ≡ true → any_char is_space s ≡ false
no_space String.[] h = refl
no_space (String.◌∷◌ c s) h = ground (arith, no_space s)

id_text_idem : (value : String) → id_text (id_text value) ≡ id_text value
id_text_idem value =
    let allowed : all_chars is_id_char (id_text value) ≡ true =
      all_chars-strip_by is_hyphen is_id_char (dash_runs is_id_char false (strip value))
        (all_chars-dash_runs is_id_char false (strip value) refl) in
    ap (λ t. strip_by is_hyphen (dash_runs is_id_char false t))
      (strip_id (id_text value) (no_space (id_text value) allowed))
    ∙ ap (strip_by is_hyphen) (dash_runs_id is_id_char false (id_text value) allowed)
    ∙ strip_by_idem is_hyphen (dash_runs is_id_char false (strip value))

pub required_text-eq_ok :
    (text message id : String)
    → required_text text message ≡ ok id
    → (text ≡ id) × (is_empty text ≡ false)
required_text-eq_ok text message id e = ground arith

-- The id that clean_id gives is not empty, and is its own clean form.
pub clean_id_idem :
    (value id : String) → clean_id value ≡ ok id → (clean_id id ≡ ok id) × (is_empty id ≡ false)
unfolding clean_id
clean_id_idem value id e =
    let (same, given) = required_text-eq_ok (id_text value) "tunnel id is required" id e in
    let clean : id_text id ≡ id = ap id_text (sym same) ∙ id_text_idem value ∙ same in
    let named : is_empty id ≡ false = ap is_empty (sym same) ∙ given in
    (ap (λ t. required_text t "tunnel id is required") clean ∙ rw named, named)

-- A domain that was cleaned is in lower case.
abbrev is_domain_char : ℕ → Bool
is_domain_char c = is_label_char c || is_dot c

lower_char-id : (c : Char) → is_domain_char (code c) ≡ true → lower_char c ≡ c
unfolding lower_char
lower_char-id c h = ground arith

lower-id : (s : String) → all_chars is_domain_char s ≡ true → lower s ≡ s
unfolding lower
lower-id String.[] h = refl
lower-id (String.◌∷◌ c s) h = rw (lower_char-id c (ground arith), lower-id s (ground arith))

abbrev label_chars : List String → Bool
label_chars [] = true
label_chars (s ∷ rest) = all_chars is_label_char s && label_chars rest

all_labels-chars : (labels : List String) → all_labels labels ≡ true → label_chars labels ≡ true
all_labels-chars [] h = refl
all_labels-chars (s ∷ rest) h = ground (arith, all_labels-chars rest)

cons_head-chars :
    (c : Char) (rest : List String)
    → label_chars (cons_head c rest) ≡ true
    → (is_label_char (code c) ≡ true) × (label_chars rest ≡ true)
cons_head-chars c [] h = ground arith
cons_head-chars c (s ∷ rest) h = ground arith

split_on-chars :
    (s : String) → label_chars (split_on 46 s) ≡ true → all_chars is_domain_char s ≡ true
unfolding split_on
split_on-chars String.[] h = refl
split_on-chars (String.◌∷◌ c s) h =
    ground (arith, split_on-chars s, cons_head-chars c (split_on 46 s))

is_domain-lower : (s : String) → is_domain s ≡ true → lower s ≡ s
unfolding is_domain
is_domain-lower s h =
    lower-id s (split_on-chars s (all_labels-chars (split_on 46 s) (ground arith)))

checked-lower :
    (text domain : String)
    → (if is_empty text
        then ok ""
        else if is_domain text
        then ok text
        else err "public domain is invalid")
      ≡ ok domain
    → lower domain ≡ domain
unfolding lower
checked-lower text domain e = elim (Bool-cases (is_empty text)) [
  | inl empty ↦
      let none : ◌≡◌ {A = String} "" domain = ok-injective "" domain (rw empty at e) in
      subst (λ d. lower d ≡ d) none refl
  | inr given ↦ elim (Bool-cases (is_domain text)) [
    | inl valid ↦
        let same : text ≡ domain = ok-injective text domain (rw (given, valid) at e) in
        subst (λ d. lower d ≡ d) same (is_domain-lower text valid)
    | inr invalid ↦ absurd (err-ne-ok "public domain is invalid" domain (rw (given, invalid) at e))
  ]
]

pub clean_domain-lower :
    (value domain : String) → clean_domain value ≡ ok domain → lower domain ≡ domain
unfolding clean_domain
clean_domain-lower value domain e = checked-lower (rstrip_by is_dot (lower (strip value))) domain e
