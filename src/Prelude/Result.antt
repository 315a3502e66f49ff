-- ===== src/Prelude/Result.antt =====
-- What a function that may raise `RuntimeError` gives: a value, or the error's message.
use mathlib.Core.Path.{◌≡◌, refl}
use mathlib.Core.Bool.{Bool, true, false}
use mathlib.Core.Option.{Option, none, some}
use fake_ui.Prelude.Text.{String}

pub data Result {ℓ} (A : Type ℓ) : Type ℓ where
  ok : A → Result A
  err : String → Result A

abbrev pub is_ok {ℓ} : {A : Type ℓ} → Result A → Bool
is_ok (err message) = false
is_ok (ok value) = true

-- `if not found: raise RuntimeError(message)`
abbrev pub or_raise {ℓ} : {A : Type ℓ} → Option A → String → Result A
or_raise (some value) message = ok value
or_raise none message = err message

infixl 5 ◌>>=◌
abbrev pub ◌>>=◌ {ℓ κ} : {A : Type ℓ} {B : Type κ} → Result A → (A → Result B) → Result B
err message >>= rest = err message
ok value >>= rest = rest value

-- `if test: raise RuntimeError(message)`
abbrev pub raise_if : Bool → String → Result (Unit {0})
raise_if false message = ok tt
raise_if true message = err message

pub ok-injective {ℓ} : {A : Type ℓ} (a b : A) → ok a ≡ ok b → a ≡ b
ok-injective a b e = cc

pub err-ne-ok {ℓ} :
    {A : Type ℓ} (message : String) (a : A) → ◌≡◌ {A = Result A} (err message) (ok a) → ⊥
err-ne-ok message a e = cc

-- The two parts of a call that returned.
pub >>=-eq-ok {ℓ κ} :
    {A : Type ℓ} {B : Type κ} (first : Result A) (rest : A → Result B) {b : B}
    → (first >>= rest) ≡ ok b
    → (a : A) × (first ≡ ok a) × (rest a ≡ ok b)
>>=-eq-ok (err message) rest e = cc
>>=-eq-ok (ok value) rest e = (value, refl, e)

infixl 5 ◌>>◌
abbrev pub ◌>>◌ {ℓ} : {B : Type ℓ} → Result (Unit {0}) → Result B → Result B
first >> second = first >>= λ _. second

pub raise_if-eq-ok :
    (test : Bool) (message : String) (u : Unit {0}) → raise_if test message ≡ ok u → test ≡ false
raise_if-eq-ok false message u e = refl
raise_if-eq-ok true message u e = absurd (err-ne-ok message u e)

pub or_raise-eq_ok {ℓ} :
    {A : Type ℓ} (found : Option A) (message : String) (a : A)
    → or_raise found message ≡ ok a
    → found ≡ some a
or_raise-eq_ok none message a e = absurd (err-ne-ok message a e)
or_raise-eq_ok (some b) message a e = cc
