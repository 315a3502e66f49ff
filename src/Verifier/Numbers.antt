-- ===== src/Verifier/Numbers.antt =====
-- `parse_hex_int` of baseline/payment_verifier.py, and Python's `int(text, base)` on ASCII text:
-- digits with single underscores between them, a sign in base 10, and the prefix 0x in base 16.
use Prim.Native.Char.{code}
use Prim.Native.String.{[], ◌∷◌}
use fake_ui.Prelude.{
  ℕ, ◌+◌, ◌-◌, ◌*◌, String, Bool, true, false, ◌&&◌, ◌||◌, ◌==◌, ◌≡◌, refl, Option, none, some,
  if◌then◌else◌, ltb, leb, is_empty, str_eq, ℤ, pos, negsuc, neg,
}
use Prim.Native.String
use mathlib.Core.Option
use fake_ui.Prelude.Text.{strip, lower, drop, starts_with}
use fake_ui.Prelude.Result.{Result, ok, err}

-- A field of an answer: absent or null, a number, or a text.
pub data Value : Type 0 where
  null : Value
  number : ℤ → Value
  text : String → Value

unfoldable pub is_success : Value → Bool
is_success null = false
is_success (number (pos n)) = n == 1
is_success (number (negsuc n)) = false
is_success (text s) = str_eq s "0x1" || str_eq s "1"

unfoldable pub digit_value : ℕ → ℕ → Option ℕ
digit_value base c =
    let value : ℕ =
      if leb 48 c && leb c 57
      then c - 48
      else if leb 65 c && leb c 70
      then c - 55
      else if leb 97 c && leb c 102
      then c - 87
      else 99 in
    if ltb value base then some value else none

-- `need`: a digit has to follow.
unfoldable pub digits : ℕ → ℕ → Bool → String → Option ℕ
unfolding digit_value
digits base n need [] = if need then none else some n
digits base n need (c ∷ s) = elim (code c == 95) [
  | true ↦ elim need [ true ↦ none | false ↦ digits base n true s ]
  | false ↦ elim (digit_value base (code c)) [
    | none ↦ none
    | some d ↦ digits base (n * base + d) false s
  ]
]

-- `int(text, 16)`, for a text with the prefix: an underscore may stand behind it
unfoldable pub hex_digits : String → Option ℕ
unfolding digits
hex_digits s = digits 16 0 true (if starts_with s "_" then drop 1 s else s)

-- `int(text, 10)`
unfoldable pub decimal_int : String → Option ℤ
unfolding digits
decimal_int s =
    let minus = Option.map neg (digits 10 0 true (drop 1 s)) in
    let plus = Option.map pos (digits 10 0 true (drop 1 s)) in
    let plain = Option.map pos (digits 10 0 true s) in
    if starts_with s "-" then minus else if starts_with s "+" then plus else plain

unfoldable pub int_of_text : String → Option ℤ
unfolding hex_digits decimal_int lower
int_of_text s =
    if starts_with (lower s) "0x" then Option.map pos (hex_digits (drop 2 s)) else decimal_int s

abbrev not_negative : String → ℤ → Result ℕ
not_negative field (pos n) = ok n
not_negative field (negsuc n) = err (String.◌++◌ field " must be a non-negative integer")

abbrev parsed : String → Option ℤ → Result ℕ
parsed field none = err (String.◌++◌ field " must be valid hex")
parsed field (some n) = not_negative field n

unfoldable pub parse_hex_int : Value → String → Result ℕ
unfolding int_of_text strip
parse_hex_int null field = err (String.◌++◌ field " required")
parse_hex_int (number n) field = not_negative field n
parse_hex_int (text s) field =
    let given = strip s in
    if is_empty given then err (String.◌++◌ field " required") else parsed field (int_of_text given)

parse_tests :
    (parse_hex_int (text " 0x1F ") "value" ≡ ok 31)
    × (parse_hex_int (text "1_000") "value" ≡ ok 1000)
    × (parse_hex_int (text "0x") "value" ≡ err "value must be valid hex")
    × (parse_hex_int (text "-7") "value" ≡ err "value must be a non-negative integer")
unfolding parse_hex_int
parse_tests = (refl, refl, refl, refl)
