-- ===== src/Process/Live.antt =====
-- Actions of a process that come to an end: each returns, or stops with an error, and none waits for a
-- mutex that is held (mage/core/endpoint.h).
use mage.Base.{
  ◌≡◌, ◌≢◌, refl, sym, subst, Bool, true, false, Option, none, some, List, get_elem?, if◌then◌else◌,
  All, arith,
}
use mage.Base.Result.{Fault, Result, ok, crash, check_failed, bad_access, deadlock, not_reached}
use mage.Endpoint.{
  Endpoint, Address, Dispatch, take_queued_messages, lock_endpoint, unlock_endpoint, set_proxying,
}
use mage.Process.{
  Process, Outcome, done, crashed, out_of_fuel, M, Ref, lift, require, or_fail, and_then,
}
use mage.Process.Heap.{deref, store, post, call_method, update, lock, unlock, proxy_to, take_queue}
use mage.Process.Sound.{Sound, returned}
use mage.Process.Invariant.{All-get}
use mage.Process.Locks.{IsUnlocked}

pub data Live {A : Type 0} (Q : A → Process → Type 0) : Outcome A → Type 0 where
  returns : {a : A} {s : Process} → Q a s → Live Q (done a s)
  fails : (f : Fault) → f ≢ deadlock → Live Q (crashed f)

-- An action that ends, whatever it leaves.
abbrev pub Ends : {A : Type 0} → Outcome A → Type 0
Ends = Live (λ _ _. Unit {0})

pub ends : {A : Type 0} {a : A} {s : Process} → Ends (done a s)
ends = returns tt

pub Ends-no_deadlock :
    {A : Type 0} {r : Outcome A} → Ends r → (r ≢ crashed deadlock) × (r ≢ out_of_fuel)
Ends-no_deadlock (returns q) = (λ e. cc, λ e. cc)
Ends-no_deadlock (fails f h) = (λ e. h (cc), λ e. cc)

pub bad_access_lem : bad_access ≢ deadlock
bad_access_lem e = cc

pub check_failed_lem : check_failed ≢ deadlock
check_failed_lem e = cc

pub not_reached_lem : not_reached ≢ deadlock
not_reached_lem e = cc

-- What an action that ends leaves.
pub with_lem :
    {A : Type 0} {Q : A → Process → Type 0} {r : Outcome A} → Ends r → Sound Q r → Live Q r
with_lem (returns h) (returned q) = returns q
with_lem (fails f h) q = fails f h

pub weaken :
    {A : Type 0} {P Q : A → Process → Type 0} {r : Outcome A}
    → Live P r
    → ((a : A) (t : Process) → P a t → Q a t)
    → Live Q r
weaken (returns p) h = returns (h _ _ p)
weaken (fails f h') h = fails f h'

-- One action after the other.
pub then_live :
    {A B : Type 0} {Q : B → Process → Type 0} {r : Outcome A} {k : A → M B}
    → Live (λ a t. Live Q (k a t)) r
    → Live Q (and_then r k)
then_live (returns q) = q
then_live (fails f h) = fails f h

pub after :
    {A B : Type 0} {Q : B → Process → Type 0} {r : Outcome A} {k : A → M B}
    → Ends r
    → ((a : A) (t : Process) → Live Q (k a t))
    → Live Q (and_then r k)
after (returns q) h = h _ _
after (fails f h') h = fails f h'

module _ {A : Type 0} {Q : A → Process → Type 0} (s : Process) where
  pub lift_live :
      (r : Result A) → r ≢ crash deadlock → ((a : A) → r ≡ ok a → Q a s) → Live Q (lift r s)
  lift_live (ok a) h k = returns (k a refl)
  lift_live (crash f) h k = fails f λ e. h (cc)

  pub or_fail_live :
      (o : Option A) (f : Fault)
      → f ≢ deadlock
      → ((a : A) → o ≡ some a → Q a s)
      → Live Q (or_fail o f s)
  or_fail_live none f h k = fails f h
  or_fail_live (some a) f h k = returns (k a refl)

  pub lift_ok_live : (r : Result A) (a : A) → r ≡ ok a → Q a s → Live Q (lift r s)
  lift_ok_live r a e q = subst (λ r'. Live Q (lift r' s)) (sym e) (returns q)

  pub if_live :
      (b : Bool) (m n : M A)
      → (b ≡ true → Live Q (m s))
      → (b ≡ false → Live Q (n s))
      → Live Q ((if b then m else n) s)
  if_live true m n h k = h refl
  if_live false m n h k = k refl

module _ {Q : Unit {0} → Process → Type 0} (s : Process) where
  pub require_live : (b : Bool) → Q tt s → Live Q (require b s)
  require_live true h = returns h
  require_live false h = fails check_failed check_failed_lem

  pub require_live_when : (b : Bool) → (b ≡ true → Q tt s) → Live Q (require b s)
  require_live_when true h = returns (h refl)
  require_live_when false h = fails check_failed check_failed_lem

pub deref_live :
    {Q : Endpoint → Process → Type 0} (s : Process) (r : Ref)
    → ((e : Endpoint) → get_elem? s.heap r ≡ some e → Q e s)
    → Live Q (deref r s)
unfolding deref
deref_live s r h = or_fail_live s (get_elem? s.heap r) bad_access bad_access_lem h

pub call_method-Ends :
    (s : Process) (r : Ref) (f : Endpoint → Result (Endpoint × List Dispatch))
    → ((e : Endpoint) → get_elem? s.heap r ≡ some e → f e ≢ crash deadlock)
    → Ends (call_method r f s)
unfolding call_method store post
call_method-Ends s r f h =
    then_live (deref_live s r λ e there. then_live (lift_live s (f e) (h e there) λ a ran. ends))

update-Ends :
    (s : Process) (r : Ref) (f : Endpoint → Result Endpoint)
    → ((e : Endpoint) → get_elem? s.heap r ≡ some e → f e ≢ crash deadlock)
    → Ends (update r f s)
unfolding update store
update-Ends s r f h =
    then_live (deref_live s r λ e there. then_live (lift_live s (f e) (h e there) λ a ran. ends))

-- A mutex that nobody holds is acquired.
pub lock_endpoint_free : (e : Endpoint) → IsUnlocked e → lock_endpoint e ≢ crash deadlock
unfolding lock_endpoint
lock_endpoint_free e free h = ground (arith, free)

pub lock-Ends : (s : Process) (r : Ref) → All IsUnlocked s.heap → Ends (lock r s)
unfolding lock
lock-Ends s r free =
    update-Ends s r lock_endpoint
      λ e there. lock_endpoint_free e (All-get IsUnlocked s.heap r e free there)

pub unlock-Ends : (s : Process) (r : Ref) → Ends (unlock r s)
unfolding unlock
unlock-Ends s r = update-Ends s r (λ e. ok (unlock_endpoint e)) λ e there h. cc

set_proxying_ends : (e : Endpoint) (target : Address) → set_proxying e target ≢ crash deadlock
unfolding set_proxying
set_proxying_ends e target h = ground arith

pub proxy_to-Ends : (s : Process) (r : Ref) (target : Address) → Ends (proxy_to r target s)
unfolding proxy_to
proxy_to-Ends s r target =
    update-Ends s r (λ e. set_proxying e target) λ e there. set_proxying_ends e target

take_queued_ends : (e : Endpoint) → take_queued_messages e ≢ crash deadlock
unfolding take_queued_messages
take_queued_ends e h = ground arith

pub take_queue-Ends : (s : Process) (r : Ref) → Ends (take_queue r s)
unfolding take_queue store
take_queue-Ends s r = then_live (
    deref_live s r λ e there.
      then_live (lift_live s (take_queued_messages e) (take_queued_ends e) λ a ran. ends))
