-- ===== src/Service/Errors.antt =====
-- `_sanitize_error` of baseline/payment_service.py: the stored text of an error shows no secret
-- of a query string, and at most 200 characters.
use Prim.Native.Char.{Char, code}
use Prim.Native.String.{[], ◌∷◌, ◌++◌}
use fake_ui.Prelude.{
  ℕ, zero, suc, String, Bool, false, not, ◌&&◌, ◌||◌, ◌==◌, ◌≡◌, refl, if◌then◌else◌, is_empty,
  Option, none, some,
}
use fake_ui.Prelude.Text.{strip, lower_char, take, is_space}

-- `[^&\s]`
abbrev pub in_secret : Char → Bool
in_secret c = not (code c == b'&' || is_space (code c))

abbrev begins_secret : String → Bool
begins_secret [] = false
begins_secret (c ∷ s) = in_secret c

-- The length of `name=`, if the text goes on with it, in any case, and with a secret behind it.
abbrev pub key_length : String → ℕ → String → Bool
key_length key zero s = begins_secret s
key_length key (suc n) [] = false
key_length [] (suc n) (c ∷ s) = false
key_length (k ∷ key) (suc n) (c ∷ s) = code (lower_char c) == code k && key_length key n s

-- `(?:key|token|apikey|api_key)=`, and the first character of the secret
unfoldable pub match_key : String → Option ℕ
match_key s =
    if key_length "key=" 4 s
    then some 4
    else if key_length "token=" 6 s
    then some 6
    else if key_length "apikey=" 7 s
    then some 7
    else if key_length "api_key=" 8 s
    then some 8
    else none

-- Where the substitution stands: outside a match, `n` characters before the secret, or in it.
pub data Mode : Type 0 where
  outside : Mode
  before : ℕ → Mode
  inside : Mode

abbrev pub opens : Char → Bool
opens c = code c == b'?' || code c == b'&'

-- The mode behind a character that stands outside of a match.
unfoldable pub next_mode : Char → String → Mode
unfolding match_key
next_mode c s =
    if opens c
    then elim (match_key s) [ none ↦ Mode.outside | some n ↦ Mode.before n ]
    else Mode.outside

-- `SECRET_QUERY_RE.sub(r"\1[redacted]", text)`
unfoldable pub redact : Mode → String → String
unfolding next_mode
redact mode [] = []
redact Mode.outside (c ∷ s) = c ∷ redact (next_mode c s) s
redact (Mode.before (suc (suc n))) (c ∷ s) = c ∷ redact (Mode.before (suc n)) s
redact (Mode.before (suc zero)) (c ∷ s) = c ∷ ("[redacted]" ++ redact Mode.inside s)
redact (Mode.before zero) (c ∷ s) = c ∷ s
redact Mode.inside (c ∷ s) =
    let hidden = redact Mode.inside s in
    let shown = c ∷ redact (next_mode c s) s in if in_secret c then hidden else shown

unfoldable pub sanitize_error : String → String
unfolding redact
sanitize_error error =
    let given = strip error in
    take 200 (redact Mode.outside (if is_empty given then "verification failed" else given))

sanitize_test :
    sanitize_error " GET https://rpc.io/v2?KEY=s3cret&x=1&token=t  failed"
    ≡ "GET https://rpc.io/v2?KEY=[redacted]&x=1&token=[redacted]  failed"
unfolding sanitize_error lower_char strip
sanitize_test = refl
