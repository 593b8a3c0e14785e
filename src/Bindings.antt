-- ===== src/Bindings.antt =====
-- mage/public/bindings: remote.h, receiver.h and receiver_delegate.h, over the generated classes of
-- Magen.antt.
pub mod Calls
pub mod Bind
pub mod Lifetime
pub mod Move
use mage.Base.{
  ℕ, Bool, true, false, not, List, [], ◌∷◌, ◌++◌, Option, none, some, ◌==◌, get_elem?, set, length,
}
use mage.Base.Result.{Result, ok, crash}
use mage.Message.{Message, MessagePipe}
use mage.Endpoint.{Dispatch}
use mage.Process.{M, pure, require, ◌>>=◌, ◌>>◌}
use mage.Core.{bind_receiver_delegate_to_endpoint}
use mage.Magen.{Method}
use mage.Magen.Proxy.{Proxy, new_proxy, bind_to_pipe, unbind}
use mage.Magen.Stub.{Stub, new_stub, Invocation, on_received_message}

-- `operator->` is the proxy.
pub record Remote : Type 0 where
  pub proxy : Proxy

abbrev pub with_proxy : Result Proxy → Result Remote
with_proxy (crash fault) = crash fault
with_proxy (ok proxy) = ok (record { proxy = proxy })

abbrev pub new_remote : Remote
new_remote = record { proxy = new_proxy }

unfoldable pub remote_bind : Remote → MessagePipe → Result Remote
unfolding bind_to_pipe
remote_bind remote local_pipe = with_proxy (bind_to_pipe remote.proxy local_pipe)

-- The constructor that binds.
unfoldable pub bound_remote : MessagePipe → Result Remote
unfolding remote_bind
bound_remote local_handle = remote_bind new_remote local_handle

abbrev pub with_unbound : Result (MessagePipe × Proxy) → Result (MessagePipe × Remote)
with_unbound (crash fault) = crash fault
with_unbound (ok (handle, proxy)) = ok (handle, record { proxy = proxy })

unfoldable pub remote_unbind : Remote → Result (MessagePipe × Remote)
unfolding unbind
remote_unbind remote = with_unbound (unbind remote.proxy)

-- The stubs made so far, by reference. `none` is one that was destroyed: its weak pointers have expired.
abbrev pub Stubs : Type 0
Stubs = List (Option Stub)

-- `stub` is the shared pointer, which nothing else shares; `constructed_on` is the thread of the checker. A
-- thread is known by its task runner.
pub record Receiver : Type 0 where
  pub stub : Option ℕ
  pub constructed_on : ℕ

abbrev pub new_receiver : ℕ → Receiver
new_receiver thread = record { stub = none; constructed_on = thread }

-- The destructor of the shared pointer, also where it is assigned.
abbrev pub release_stub : Option ℕ → Stubs → Stubs
release_stub none stubs = stubs
release_stub (some self) stubs = set stubs self none

-- `BindToPipe` of a stub; `self` is what `weak_from_this` points to.
unfoldable pub stub_bind_to_pipe :
    Stub → (self : ℕ) → (local_handle : MessagePipe) → (impl impl_task_runner : ℕ) → M Stub
unfolding bind_receiver_delegate_to_endpoint
stub_bind_to_pipe stub self local_handle impl impl_task_runner = do
  require (not stub.bound)
  bind_receiver_delegate_to_endpoint local_handle (some self) (some impl_task_runner)
  pure (record {
    interface = stub.interface;
    bound = true;
    local_handle = local_handle;
    impl = some impl;
  })

-- `Receiver::Bind`, on the thread `current`.
unfoldable pub receiver_bind :
    List Method
    → Receiver
    → Stubs
    → (current : ℕ) → (local_pipe : MessagePipe) → (impl : ℕ) → M (Receiver × Stubs)
unfolding stub_bind_to_pipe
receiver_bind interface receiver stubs current local_pipe impl = do
  require (current == receiver.constructed_on)
  let self = length stubs
  stub ← stub_bind_to_pipe (new_stub interface) self local_pipe impl current
  pure (
    record { stub = some self; constructed_on = receiver.constructed_on },
    release_stub receiver.stub stubs ++ some stub ∷ [],
  )

abbrev pub with_invocation : Result Invocation → Result (List Invocation)
with_invocation (crash fault) = crash fault
with_invocation (ok invocation) = ok (invocation ∷ [])

-- A message for a weak pointer: to the stub that it locks, or to nobody, and then it is dropped.
abbrev pub dispatch_message : Option (Option Stub) → Message → Result (List Invocation)
unfolding on_received_message
dispatch_message none m = ok []
dispatch_message (some none) m = ok []
dispatch_message (some (some stub)) m = with_invocation (on_received_message stub m)

unfoldable pub dispatch_message_if_still_alive : Stubs → Dispatch → Result (List Invocation)
unfolding dispatch_message
dispatch_message_if_still_alive stubs d = dispatch_message (get_elem? stubs d.receiver) d.message

abbrev pub then_invocations :
    Result (List Invocation) → Result (List Invocation) → Result (List Invocation)
then_invocations (crash fault) rest = crash fault
then_invocations (ok invocations) (crash fault) = crash fault
then_invocations (ok invocations) (ok later) = ok (invocations ++ later)

-- The base library's task runner runs the tasks that were posted to it in their order; here no receiver goes
-- away meanwhile.
unfoldable pub run_tasks : Stubs → List Dispatch → Result (List Invocation)
unfolding dispatch_message_if_still_alive
run_tasks stubs [] = ok []
run_tasks stubs (d ∷ ds) =
    then_invocations (dispatch_message_if_still_alive stubs d) (run_tasks stubs ds)
