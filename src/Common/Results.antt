-- ===== src/Common/Results.antt =====
-- Python exceptions and the results of code that may raise. A database transaction is a `Result`
-- with the new tables in it, so a raise leaves none of its writes.
use Prim.Native.Nat.{ℕ}
use Prim.Native.String.{String}
use mathlib.Core.Path.{◌≡◌, refl}
use mathlib.Core.Bool.{Bool, true, false}
use mathlib.Core.Option.{Option, none, some}

-- The exception classes that the modelled code raises or catches, with the fields it reads. The
-- message that a person reads is a fixed text at each raise and is left out. `other` is an
-- exception of a library, by its class name.
pub data Exn : Type 0 where
  value_error : String → Exn
  runtime_error : String → Exn
  app_error : (class_name : String) (code : String) (status_code : ℕ) (retryable : Bool) → Exn
  other : String → Exn

-- `type(exc).__name__`
abbrev pub type_name : Exn → String
type_name (value_error m) = "ValueError"
type_name (runtime_error m) = "RuntimeError"
type_name (app_error c code status retryable) = c
type_name (other c) = c

-- What a call gives back: its value, or the exception that it raised.
pub data Result {ℓ} (A : Type ℓ) : Type ℓ where
  ok : A → Result A
  err : Exn → Result A

-- `if value is None: raise exc`
abbrev pub or_raise {ℓ} : {V : Type ℓ} → Option V → Exn → Result V
or_raise (some value) exc = ok value
or_raise none exc = err exc

-- `if not test: raise exc`
abbrev pub require : Bool → Exn → Result (Unit {0})
require passed exc = elim passed [ false ↦ err exc | true ↦ ok tt ]

-- A statement after another runs only if the first raised nothing.
infixl 5 ◌>>=◌
abbrev pub ◌>>=◌ {ℓ κ} : {V : Type ℓ} {W : Type κ} → Result V → (V → Result W) → Result W
◌>>=◌ (err exc) next = err exc
◌>>=◌ (ok value) next = next value

infixl 5 ◌>>◌
abbrev pub ◌>>◌ {ℓ} : {W : Type ℓ} → Result (Unit {0}) → Result W → Result W
◌>>◌ (err exc) next = err exc
◌>>◌ (ok done) next = next

-- A sequence that gives a value has a first part that raised nothing.
pub then_ok {ℓ} :
    {W : Type ℓ} (m : Result (Unit {0})) (next : Result W) (w : W)
    → (m >> next) ≡ ok w
    → (m ≡ ok tt) × (next ≡ ok w)
then_ok (ok tt) next w e = (refl, e)
then_ok (err exc) next w e = cc

pub then_value {ℓ κ} :
    {V : Type ℓ} {W : Type κ} (m : Result V) (next : V → Result W) (w : W)
    → (m >>= next) ≡ ok w
    → (v : V) × (m ≡ ok v) × (next v ≡ ok w)
then_value (ok v) next w e = (v, refl, e)
then_value (err exc) next w e = cc

pub test_passed : (b : Bool) (exc : Exn) → require b exc ≡ ok tt → b ≡ true
test_passed true exc e = refl
test_passed false exc e = cc
