-- ===== src/Prelude/Action.antt =====
-- A call that reads and writes a state and may raise. The state comes back after a raise too:
-- every repository call commits its own transaction, so what was written stays written.
use mathlib.Core.Path.{◌≡◌, refl}
use mathlib.Core.Bool.{Bool, true}
use fake_ui.Prelude.Tests.{if◌then◌else◌}
use fake_ui.Prelude.Text.{String}
use fake_ui.Prelude.Result.{Result, ok, err, raise_if}

abbrev pub Action {ℓ} : Type ℓ → Type ℓ → Type ℓ
Action S A = S → Result A × S

module _ {ℓ} {S A : Type ℓ} where
  unfoldable pub pure : A → Action S A
  pure a s = (ok a, s)

  unfoldable pub raise : String → Action S A
  raise e s = (err e, s)

  unfoldable pub lift : Result A → Action S A
  lift r s = (r, s)

  unfoldable pub gets : (S → A) → Action S A
  gets f s = (ok (f s), s)

module _ {ℓ} {S A B : Type ℓ} where
  -- The rest of a call, behind a part that ended with `r` in the state `s`.
  abbrev pub resume : Result A → S → (A → Action S B) → Result B × S
  resume (ok a) s f = f a s
  resume (err e) s f = (err e, s)

  infixl 5 ◌>>=◌
  unfoldable pub ◌>>=◌ : Action S A → (A → Action S B) → Action S B
  m >>= f = λ s. let (r, s') = m s in resume r s' f

  infixl 5 ◌>>◌
  unfoldable pub ◌>>◌ : Action S A → Action S B → Action S B
  unfolding ◌>>=◌
  m >> k = m >>= λ _. k

module _ {S : Type 0} where
  -- `if test: body`
  unfoldable pub when : Bool → Action S Unit → Action S Unit
  when test body = if test then body else pure tt

  -- `if test: raise RuntimeError(message)`
  unfoldable pub check : Bool → String → Action S Unit
  check test message = lift (raise_if test message)

  -- A call whose result is not used.
  unfoldable pub ignore : {A : Type 0} → Action S A → Action S Unit
  ignore m = m >>= λ _. pure tt

module _ {ℓ} {S A B : Type ℓ} where
  resume-ok :
      (r : Result A) (s1 : S) (f : A → Action S B) (b : B) (s' : S)
      → resume r s1 f ≡ (ok b, s')
      → (a : A) × (r ≡ ok a) × (f a s1 ≡ (ok b, s'))
  resume-ok (ok a) s1 f b s' e = (a, refl, e)
  resume-ok (err m) s1 f b s' e = cc

  -- The parts of a call that returned.
  pub bind-ok :
      (m : Action S A) (f : A → Action S B) (s : S) (b : B) (s' : S)
      → (m >>= f) s ≡ (ok b, s')
      → (a : A) × (s1 : S) × (m s ≡ (ok a, s1)) × (f a s1 ≡ (ok b, s'))
  unfolding ◌>>=◌
  bind-ok m f s b s' e =
      let (a, returned, rest) = resume-ok (m s).0 (m s).1 f b s' e in
      (a, (m s).1, cc (returned), rest)

  pub then-ok :
      (m : Action S A) (k : Action S B) (s : S) (b : B) (s' : S)
      → (m >> k) s ≡ (ok b, s')
      → (a : A) × (s1 : S) × (m s ≡ (ok a, s1)) × (k s1 ≡ (ok b, s'))
  unfolding ◌>>◌
  then-ok m k = bind-ok m (λ _. k)

  -- A call behind a part whose end is known.
  pub bind-run :
      (m : Action S A) (f : A → Action S B) (s s1 : S) (a : A)
      → m s ≡ (ok a, s1)
      → (m >>= f) s ≡ f a s1
  unfolding ◌>>=◌
  bind-run m f s s1 a e = rw e

  pub then-run :
      (m : Action S A) (k : Action S B) (s s1 : S) (a : A) → m s ≡ (ok a, s1) → (m >> k) s ≡ k s1
  unfolding ◌>>◌
  then-run m k = bind-run m (λ _. k)

module _ {S : Type 0} where
  pub ignore-run :
      {A : Type 0} (m : Action S A) (s s1 : S) (a : A) → m s ≡ (ok a, s1) → ignore m s ≡ (ok tt, s1)
  unfolding ignore pure
  ignore-run m s s1 a e = bind-run m (λ _. pure tt) s s1 a e

  pub when-true : (b : Bool) (m : Action S Unit) (s : S) → b ≡ true → when b m s ≡ m s
  unfolding when
  when-true b m s e = rw e

module _ {ℓ} {S A : Type ℓ} where
  pub lift-ok : (r : Result A) (s s' : S) (a : A) → lift r s ≡ (ok a, s') → r ≡ ok a
  unfolding lift
  lift-ok r s s' a e = cc
