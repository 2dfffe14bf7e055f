-- ===== src/Common/Actions.antt =====
-- Code that changes a state and may raise: what was written before a raise stays written, so the
-- state comes back beside the exception too. An await of another component is such an action.
use mathlib.Core.Path.{◌≡◌, refl}
use sd_platform.Common.Results.{Exn, Result, ok, err}

abbrev pub Exec {ℓ κ} : Type ℓ → Type κ → Type (ℓ ⊔ κ)
Exec S A = S → Result A × S

module _ {ℓ} {S A : Type ℓ} where
  abbrev pub pure : A → Exec S A
  pure a s = (ok a, s)

  abbrev pub raise : Exn → Exec S A
  raise e s = (err e, s)

  -- a function without effects that may raise
  abbrev pub lift : Result A → Exec S A
  lift r s = (r, s)

  abbrev handle : (Exn → Exec S A) → Result A × S → Result A × S
  handle h (ok a, s) = (ok a, s)
  handle h (err e, s) = h e s

  -- `try: m` with `except Exception as exc: h exc`
  abbrev pub catch : Exec S A → (Exn → Exec S A) → Exec S A
  catch m h s = handle h (m s)

  -- A caught exception is turned into a value: the action always returns.
  catch_handled :
      (h : Exn → A) (r : Result A × S) → (a : A) × (handle (λ e. pure (h e)) r ≡ (ok a, r.1))
  catch_handled h (ok a, s) = (a, refl)
  catch_handled h (err e, s) = (h e, refl)

  pub catch_total :
      (m : Exec S A) (h : Exn → A) (s : S)
      → (a : A) × (catch m (λ e. pure (h e)) s ≡ (ok a, (m s).1))
  catch_total m h s = catch_handled h (m s)

  -- a transaction of its own: it commits with a result, and rolls back with an exception
  abbrev settle : S → Result (A × S) → Result A × S
  settle s (ok (a, s')) = (ok a, s')
  settle s (err e) = (err e, s)

  abbrev pub transaction : (S → Result (A × S)) → Exec S A
  transaction t s = settle s (t s)

module _ {ℓ κ} {S : Type ℓ} {A : Type κ} {B : Type ℓ} where
  abbrev pub continue : (A → Exec S B) → Result A × S → Result B × S
  continue f (ok a, s) = f a s
  continue f (err e, s) = (err e, s)

  infixl 5 ◌>>=◌
  abbrev pub ◌>>=◌ : Exec S A → (A → Exec S B) → Exec S B
  ◌>>=◌ m f s = continue f (m s)

  continue_ok :
      (f : A → Exec S B) (r : Result A × S) (b : B) (s' : S)
      → continue f r ≡ (ok b, s')
      → (a : A) × (t : S) × (r ≡ (ok a, t)) × (f a t ≡ (ok b, s'))
  continue_ok f (ok a, s) b s' e = (a, s, refl, e)
  continue_ok f (err x, s) b s' e = cc

  -- A sequence that gives a value has a first part that gives one.
  pub bind_ok :
      (m : Exec S A) (f : A → Exec S B) (s : S) (b : B) (s' : S)
      → (m >>= f) s ≡ (ok b, s')
      → (a : A) × (t : S) × (m s ≡ (ok a, t)) × (f a t ≡ (ok b, s'))
  bind_ok m f s b s' e = continue_ok f (m s) b s' e

  lifted_ok :
      (r : Result A) (f : A → Exec S B) (s : S) (b : B) (s' : S)
      → continue f (r, s) ≡ (ok b, s')
      → (a : A) × (r ≡ ok a) × (f a s ≡ (ok b, s'))
  lifted_ok (ok a) f s b s' e = (a, refl, e)
  lifted_ok (err x) f s b s' e = cc

module _ {ℓ} {S A B : Type ℓ} where
  -- A function without effects leaves the state alone.
  pub lift_ok :
      (r : Result A) (f : A → Exec S B) (s : S) (b : B) (s' : S)
      → (lift r >>= f) s ≡ (ok b, s')
      → (a : A) × (r ≡ ok a) × (f a s ≡ (ok b, s'))
  lift_ok r f s b s' e = lifted_ok r f s b s' e

module _ {ℓ} {S B : Type ℓ} where
  infixl 5 ◌>>◌
  abbrev pub ◌>>◌ : Exec S (Unit {0}) → Exec S B → Exec S B
  m >> k = m >>= λ _. k
