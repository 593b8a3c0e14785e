-- ===== src/Process/Exact.antt =====
-- Exact runs: the result and the state that an action ends in, step by step.
use mage.Base.{
  ℕ, suc, zero, ◌≡◌, refl, sym, ap, ◌∙◌, Bool, true, false, List, [], ◌∷◌, ◌++◌, map, Option, some,
  get_elem?, set, get_elem?-set_self, get_elem?-lt,
}
use mathlib.Core.Option.{some-injective}
use mage.Base.Result.{Result, ok, Fault}
use mage.Endpoint.{Endpoint, Dispatch, lock_endpoint, unlock_endpoint}
use mage.Process.{Process, Outcome, done, M, Ref, dispatch, lift, require, or_fail, and_then}
use mage.Process.Heap.{deref, store, post, call_method, update, lock, unlock}
use mage.Process.Laws.{with_endpoint}

-- One action, then the next.
pub step :
    {A B : Type 0} {r : Outcome A} {a : A} {t : Process} (k : A → M B) {out : Outcome B}
    → r ≡ done a t
    → k a t ≡ out
    → and_then r k ≡ out
step k e f = ap (λ r. and_then r k) e ∙ f

pub require-true : (s : Process) (b : Bool) → b ≡ true → require b s ≡ done tt s
require-true s b e = ap (λ b. require b s) e

pub or_fail-some :
    {A : Type 0} {o : Option A} {a : A} (s : Process) (f : Fault)
    → o ≡ some a
    → or_fail o f s ≡ done a s
or_fail-some s f e = ap (λ o. or_fail o f s) e

pub lift-ok : {A : Type 0} {r : Result A} {a : A} (s : Process) → r ≡ ok a → lift r s ≡ done a s
lift-ok s e = ap (λ r. lift r s) e

-- The second store at a place covers the first.
pub set-set : {A : Type 0} (xs : List A) (i : ℕ) (a b : A) → set (set xs i a) i b ≡ set xs i b
set-set [] i a b = refl
set-set (x ∷ xs) zero a b = refl
set-set (x ∷ xs) (suc i) a b = ap (◌∷◌ x) (set-set xs i a b)

-- Stores at a place that a longer list has too.
pub set-set_append :
    {A : Type 0} (xs more : List A) (i : ℕ) (a b : A)
    → set (set xs i a ++ more) i b ≡ set (xs ++ more) i b
set-set_append [] more i a b = refl
set-set_append (x ∷ xs) more zero a b = refl
set-set_append (x ∷ xs) more (suc i) a b = ap (◌∷◌ x) (set-set_append xs more i a b)

-- A store of what is there already.
pub set-same :
    {A : Type 0} (xs : List A) (i : ℕ) (a : A) → get_elem? xs i ≡ some a → set xs i a ≡ xs
set-same [] i a h = refl
set-same (x ∷ xs) zero a h = ap (λ o. o ∷ xs) (sym (some-injective _ _ h))
set-same (x ∷ xs) (suc i) a h = ap (◌∷◌ x) (set-same xs i a h)

pub there-set :
    (heap : List Endpoint) (r : Ref) {e : Endpoint} (e' : Endpoint)
    → get_elem? heap r ≡ some e
    → get_elem? (set heap r e') r ≡ some e'
there-set heap r e' there = get_elem?-set_self heap r e' (get_elem?-lt heap r there)

module _ (s : Process) (r : Ref) {e : Endpoint} (there : get_elem? s.heap r ≡ some e) where
  pub deref-there : deref r s ≡ done e s
  unfolding deref
  deref-there = or_fail-some s _ there

  pub update-there :
      (f : Endpoint → Result Endpoint) {e' : Endpoint}
      → f e ≡ ok e'
      → update r f s ≡ done tt (with_endpoint s r e')
  unfolding update store
  update-there f ran = step _ deref-there (step _ (lift-ok s ran) refl)

  pub call_method-there :
      (f : Endpoint → Result (Endpoint × List Dispatch)) {e' : Endpoint} {ds : List Dispatch}
      → f e ≡ ok (e', ds)
      → call_method r f s
        ≡ done tt (record s { heap = set s.heap r e'; tasks = s.tasks ++ map dispatch ds })
  unfolding call_method store post
  call_method-there f ran = step _ deref-there (step _ (lift-ok s ran) refl)

  pub lock-there :
      e.lock ≡ false → lock r s ≡ done tt (with_endpoint s r (record e { lock = true }))
  unfolding lock lock_endpoint
  lock-there free =
      update-there lock_endpoint
        (ap (λ b. unfold lock_endpoint in lock_endpoint (record e { lock = b })) free)

  pub unlock-there : unlock r s ≡ done tt (with_endpoint s r (record e { lock = false }))
  unfolding unlock unlock_endpoint
  unlock-there = update-there (λ x. ok (unlock_endpoint x)) refl
