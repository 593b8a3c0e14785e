-- ===== src/Bindings/Lifetime.antt =====
-- Binding and unbinding a remote (mage/public/bindings/remote.h), and the messages for a receiver that went
-- away (mage/public/bindings/receiver_delegate.h).
use mage.Base.{
  ℕ, zero, suc, ◌≡◌, refl, ◌∙◌, inl, inr, true, false, List, [], ◌∷◌, none, some, if◌then◌else◌,
  ◌==◌, ==_iff, Bool-cases, get_elem?, set, get_elem?-set_ne, arith,
}
use mage.Base.Result.{Result, ok, crash, check_failed}
use mage.Message.{Message, MessagePipe}
use mage.Endpoint.{Dispatch}
use mage.Process.{Process, crashed}
use mage.Magen.{Method, Arguments}
use mage.Magen.Proxy.{bind_to_pipe, unbind, call}
use mage.Magen.Stub.{Invocation}
use mage.Bindings.{
  Remote, new_remote, remote_bind, remote_unbind, Stubs, release_stub, dispatch_message,
  dispatch_message_if_still_alive, then_invocations, run_tasks,
}

-- A remote that is not bound binds to a pipe. Then a second binding fails its CHECK, and unbinding returns
-- the pipe and leaves a remote as new; on that one a second unbinding, and a call of any method, fail their
-- CHECK.
pub remote_unbind-remote_bind :
    (remote : Remote) (handle other : MessagePipe)
    → remote.proxy.bound ≡ false
    → (bound : Remote) × (remote_bind remote handle ≡ ok bound)
      × (remote_bind bound other ≡ crash check_failed)
      × (remote_unbind bound ≡ ok (handle, new_remote))
      × (remote_unbind new_remote ≡ crash check_failed)
      × ((method : Method) (arguments : Arguments method.types) (s : Process)
          → call new_remote.proxy method arguments s ≡ crashed check_failed)
unfolding remote_bind remote_unbind bind_to_pipe unbind call
remote_unbind-remote_bind remote handle other free = (
  record { proxy = record { bound = true; local_handle = handle } },
  rw free refl,
  refl,
  refl,
  refl,
  λ method arguments s. refl,
)

-- The tasks for other receivers.
abbrev pub for_others : ℕ → List Dispatch → List Dispatch
for_others self [] = []
for_others self (d ∷ ds) =
    let rest = for_others self ds in if d.receiver == self then rest else d ∷ rest

dispatch_message-released :
    (stubs : Stubs) (self : ℕ) (m : Message)
    → dispatch_message (get_elem? (set stubs self none) self) m ≡ ok []
unfolding dispatch_message
dispatch_message-released [] self m = refl
dispatch_message-released (stub ∷ stubs) zero m = refl
dispatch_message-released (stub ∷ stubs) (suc self) m = dispatch_message-released stubs self m

then_invocations-nothing : (r : Result (List Invocation)) → then_invocations (ok []) r ≡ r
then_invocations-nothing (ok invocations) = refl
then_invocations-nothing (crash fault) = refl

-- When a receiver is destroyed, the tasks that were posted run as if those for it were not there: its
-- messages are dropped, and the others are dispatched as before.
pub run_tasks-release_stub :
    (stubs : Stubs) (self : ℕ) (ds : List Dispatch)
    → run_tasks (release_stub (some self) stubs) ds ≡ run_tasks stubs (for_others self ds)
unfolding run_tasks dispatch_message_if_still_alive
run_tasks-release_stub stubs self [] = refl
run_tasks-release_stub stubs self (d ∷ ds) = elim (Bool-cases (d.receiver == self)) [
  | inl same ↦
      rw (same, (==_iff d.receiver self).0 same)
        (rw (dispatch_message-released stubs self d.message)
          (then_invocations-nothing _ ∙ run_tasks-release_stub stubs self ds))
  | inr other ↦
      rw
        (
          other,
          get_elem?-set_ne stubs self d.receiver none (λ e. absurd (ground arith)),
          run_tasks-release_stub stubs self ds,
        )
        refl
]
