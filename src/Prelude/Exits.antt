-- ===== src/Prelude/Exits.antt =====
-- How a piece of C code ends: with a value, by `exit (status)`, or in undefined behaviour.
use Prim.Native.Nat.{ℕ}
use mathlib.Core.Bool.{Bool, true, false}
use mathlib.Core.Option.{Option, none, some}
use mathlib.Core.Path.{◌≡◌, refl}

pub data Outcome {ℓ} (A : Type ℓ) : Type ℓ where
  done : A → Outcome A
  exit : ℕ → Outcome A
  fault : Outcome A

infixl 5 ◌>>=◌ ◌>>◌
abbrev pub ◌>>=◌ {ℓ κ} : {A : Type ℓ} {B : Type κ} → Outcome A → (A → Outcome B) → Outcome B
done a >>= f = f a
exit s >>= f = exit s
fault >>= f = fault

abbrev pub ◌>>◌ {ℓ} : {B : Type ℓ} → Outcome (Unit {0}) → Outcome B → Outcome B
m >> k = m >>= λ _. k

-- The laws of a sequence.
pub bind-bind {ℓ κ μ} :
    {A : Type ℓ} {B : Type κ} {C : Type μ} (r : Outcome A) (f : A → Outcome B) (g : B → Outcome C)
    → ((r >>= f) >>= g) ≡ (r >>= λ a. f a >>= g)
bind-bind (done a) f g = refl
bind-bind (exit s) f g = refl
bind-bind fault f g = refl

pub bind-done {ℓ} : {A : Type ℓ} (r : Outcome A) → (r >>= done) ≡ r
bind-done (done a) = refl
bind-done (exit s) = refl
bind-done fault = refl

pub bind_cong {ℓ κ} :
    {A : Type ℓ} {B : Type κ} (r : Outcome A) {f g : A → Outcome B}
    → ((a : A) → f a ≡ g a)
    → (r >>= f) ≡ (r >>= g)
bind_cong (done a) same = same a
bind_cong (exit s) same = refl
bind_cong fault same = refl

-- A read that may be out of range.
abbrev pub deref {ℓ} : {A : Type ℓ} → Option A → Outcome A
deref none = fault
deref (some a) = done a

abbrev pub exit_success : ℕ
exit_success = 0

abbrev pub exit_failure : ℕ
exit_failure = 1

-- A call that ends the program where it fails.
abbrev pub require : Bool → Outcome (Unit {0})
require true = done tt
require false = exit exit_failure
