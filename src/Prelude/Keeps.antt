-- ===== src/Prelude/Keeps.antt =====
-- Predicates that an action preserves, whether it returns or raises: one rule for each way to
-- build an action.
use mathlib.Core.Path.{◌≡◌, refl, ap, subst}
use mathlib.Core.Bool.{Bool, true, false}
use fake_ui.Prelude.Tests.{if◌then◌else◌}
use fake_ui.Prelude.Text.{String}
use fake_ui.Prelude.Result.{Result, ok, err, raise_if}
use fake_ui.Prelude.Action.{Action, pure, lift, gets, resume, when, check, ignore, ◌>>=◌, ◌>>◌}

pub record Keeps {ℓ} {S A : Type ℓ} (P : S → Type ℓ) (m : Action S A) : Type ℓ where
  pub at : (w : S) → P w → P (m w).1

module _ {ℓ} {S : Type ℓ} {A : Type ℓ} {P : S → Type ℓ} where
  -- The state that a call has left.
  pub Keeps-run :
      (m : Action S A) (s : S) (r : Result A) (s' : S) → Keeps P m → P s → m s ≡ (r, s') → P s'
  Keeps-run m s r s' km h e = subst P (ap (λ (t : Result A × S). t.1) e) (km.at s h)

  pub Keeps-gets : (read : S → A) → Keeps P (gets read)
  unfolding gets
  Keeps-gets read = record { at = λ w kept. kept }

  -- A test that chooses between two actions.
  pub Keeps-if :
      (b : Bool) (m n : Action S A) → Keeps P m → Keeps P n → Keeps P (if b then m else n)
  Keeps-if false m n km kn = kn
  Keeps-if true m n km kn = km

  pub Keeps-pure : (value : A) → Keeps P (pure value)
  unfolding pure
  Keeps-pure value = record { at = λ w kept. kept }

  pub Keeps-lift : (outcome : Result A) → Keeps P (lift outcome)
  unfolding lift
  Keeps-lift outcome = record { at = λ w kept. kept }

module _ {ℓ} {S A B : Type ℓ} {P : S → Type ℓ} where
  after :
      (r : Result A) (s : S) (f : A → Action S B)
      → ((a : A) → Keeps P (f a))
      → P s
      → P (resume r s f).1
  after (ok a) s f kf h = (kf a).at s h
  after (err e) s f kf h = h

  on_result :
      (r : Result A) (s : S) (f : A → Action S B)
      → ((a : A) → r ≡ ok a → Keeps P (f a))
      → P s
      → P (resume r s f).1
  on_result (ok a) s f kf h = (kf a refl).at s h
  on_result (err e) s f kf h = h

  pub Keeps-bind :
      (first : Action S A) (rest : A → Action S B)
      → Keeps P first
      → ((value : A) → Keeps P (rest value))
      → Keeps P (first >>= rest)
  unfolding ◌>>=◌
  Keeps-bind first rest here later = record {
    at = λ w kept. let (outcome, w') = first w in after outcome w' rest later (here.at w kept);
  }

  -- The rest of the block may use what the first part returned.
  pub Keeps-bind_on :
      (m : Action S A) (f : A → Action S B)
      → Keeps P m
      → ((s s' : S) (a : A) → m s ≡ (ok a, s') → Keeps P (f a))
      → Keeps P (m >>= f)
  unfolding ◌>>=◌
  Keeps-bind_on m f km kf = record {
    at = λ s h. on_result (m s).0 (m s).1 f (λ a e. kf s (m s).1 a (cc e)) (km.at s h);
  }

  -- The rest may also use what held before the first part.
  pub Keeps-bind_in :
      (m : Action S A) (f : A → Action S B)
      → Keeps P m
      → ((s s' : S) (a : A) → P s → m s ≡ (ok a, s') → Keeps P (f a))
      → Keeps P (m >>= f)
  unfolding ◌>>=◌
  Keeps-bind_in m f km kf = record {
    at = λ s h. on_result (m s).0 (m s).1 f (λ a e. kf s (m s).1 a h (cc e)) (km.at s h);
  }

  pub Keeps-then : (m : Action S A) (k : Action S B) → Keeps P m → Keeps P k → Keeps P (m >> k)
  unfolding ◌>>◌
  Keeps-then m k km kk = Keeps-bind m (λ _. k) km (λ _. kk)

module _ {S : Type 0} {P : S → Type 0} where
  pub Keeps-when : (b : Bool) (m : Action S Unit) → Keeps P m → Keeps P (when b m)
  unfolding when
  Keeps-when b m km = Keeps-if b m (pure tt) km (Keeps-pure tt)

  -- A body that is run only if the test holds.
  pub Keeps-when_on : (b : Bool) (m : Action S Unit) → (b ≡ true → Keeps P m) → Keeps P (when b m)
  unfolding when
  Keeps-when_on true m km = km refl
  Keeps-when_on false m km = Keeps-pure tt

  pub Keeps-check : (b : Bool) (e : String) → Keeps P (check b e)
  unfolding check
  Keeps-check b e = Keeps-lift (raise_if b e)

  pub Keeps-ignore : {A : Type 0} (m : Action S A) → Keeps P m → Keeps P (ignore m)
  unfolding ignore
  Keeps-ignore m km = Keeps-bind m (λ _. pure tt) km (λ _. Keeps-pure tt)

pub ruleset keeps_rules = (
  Keeps-lift, Keeps-pure, Keeps-gets, Keeps-if, Keeps-bind, Keeps-then, Keeps-when, Keeps-check,
  Keeps-ignore,
)
