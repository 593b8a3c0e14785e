-- ===== src/Process/Sound.antt =====
-- A logic for the actions of a process: what holds of the result and the state that an action leaves if
-- it does not crash. A loop that runs out of fuel is never sound.
use mage.Base.{◌≡◌, subst, ◌≢◌, refl, Bool, true, false, Option, none, some, if◌then◌else◌}
use mage.Base.Result.{Fault, Result, ok, crash}
use mage.Process.{Process, Outcome, done, crashed, out_of_fuel, M, lift, require, or_fail, and_then}

pub data Sound {A : Type 0} (Q : A → Process → Type 0) : Outcome A → Type 0 where
  returned : {a : A} {s : Process} → Q a s → Sound Q (done a s)
  stopped : (f : Fault) → Sound Q (crashed f)

module _ {A : Type 0} {P : A → Process → Type 0} where
  pub mono :
      {Q : A → Process → Type 0} {r : Outcome A}
      → Sound P r
      → ((a : A) (s : Process) → P a s → Q a s)
      → Sound Q r
  mono (returned p) weaken = returned (weaken _ _ p)
  mono (stopped f) weaken = stopped f

  pub both :
      {Q : A → Process → Type 0} {r : Outcome A}
      → Sound P r
      → Sound Q r
      → Sound (λ a s. P a s × Q a s) r
  both (returned p) (returned q) = returned (p, q)
  both (stopped f) q = stopped f

  pub not-out_of_fuel : {r : Outcome A} → Sound P r → r ≢ out_of_fuel
  not-out_of_fuel (returned p) e = cc
  not-out_of_fuel (stopped f) e = cc

-- The same, by cases of the outcome.
abbrev Post : {A : Type 0} → (A → Process → Type 0) → Outcome A → Type 0
Post Q (done a s) = Q a s
Post Q (crashed f) = Unit
Post Q out_of_fuel = ⊥

Post-of_Sound : {A : Type 0} {Q : A → Process → Type 0} {r : Outcome A} → Sound Q r → Post Q r
Post-of_Sound (returned q) = q
Post-of_Sound (stopped f) = tt

-- What is known of an action that returned.
pub at_done :
    {A : Type 0} {Q : A → Process → Type 0} {r : Outcome A} {a : A} {s : Process}
    → Sound Q r
    → r ≡ done a s
    → Q a s
at_done {Q} sound e = subst (Post Q) e (Post-of_Sound sound)

-- The lemma `f_lem` about an action `f` says what suffices for its postcondition. `seq` puts actions one
-- after the other.
pub seq :
    {A B : Type 0} {Q : B → Process → Type 0} {r : Outcome A} {k : A → M B}
    → Sound (λ a t. Sound Q (k a t)) r
    → Sound Q (and_then r k)
seq (returned q) = q
seq (stopped f) = stopped f

module _ {A : Type 0} {Q : A → Process → Type 0} (s : Process) where
  pub lift_lem : (r : Result A) → ((a : A) → r ≡ ok a → Q a s) → Sound Q (lift r s)
  lift_lem (ok a) h = returned (h a refl)
  lift_lem (crash f) h = stopped f

  pub or_fail_lem :
      (o : Option A) (f : Fault) → ((a : A) → o ≡ some a → Q a s) → Sound Q (or_fail o f s)
  or_fail_lem none f h = stopped f
  or_fail_lem (some a) f h = returned (h a refl)

  pub if_lem :
      (b : Bool) (m n : M A)
      → (b ≡ true → Sound Q (m s))
      → (b ≡ false → Sound Q (n s))
      → Sound Q ((if b then m else n) s)
  if_lem true m n h k = h refl
  if_lem false m n h k = k refl

pub require_lem :
    {Q : Unit {0} → Process → Type 0} (s : Process) (b : Bool)
    → (b ≡ true → Q tt s)
    → Sound Q (require b s)
require_lem s true h = returned (h refl)
require_lem s false h = stopped _
