-- ===== src/Endpoint.antt =====
-- mage/core/endpoint.h and endpoint.cc: one end of a message pipe. The methods return the endpoint and
-- the tasks that they post, in order. `AcceptMessageOnDelegateThread` needs the handle table and stands
-- in Core.antt.
pub mod Valid
pub mod Fifo
pub mod Locked
use mage.Base.{
  ℕ, ◌≡◌, Bool, true, false, not, List, [], ◌∷◌, ◌++◌, Option, none, some, if◌then◌else◌,
}
use mage.Base.Result.{Result, ok, crash, check_failed, not_reached, deadlock, ◌>>=◌}
use mage.Message.{Message, Name}

pub record Address : Type 0 where
  pub node_name : Name
  pub endpoint_name : Name

pub data State : Type 0 where
  bound unbound_and_queueing unbound_and_proxying : State

-- A weak pointer to a `ReceiverDelegate`, and a shared pointer to a `base::TaskRunner`: `none` is
-- a pointer that was never assigned.
abbrev pub Delegate : Type 0
Delegate = Option ℕ

abbrev pub TaskRunner : Type 0
TaskRunner = Option ℕ

-- `lock` is true while `lock_` is held.
pub record Endpoint : Type 0 where
  pub name : Name
  pub peer_address : Address
  pub state : State
  pub proxy_target : Address
  pub incoming_message_queue : List Message
  pub delegate_task_runner : TaskRunner
  pub delegate : Delegate
  pub lock : Bool

-- A posted call of `DispatchMessageIfStillAlive`, with the runner that it was posted to.
pub record Dispatch : Type 0 where
  pub runner : ℕ
  pub receiver : ℕ
  pub message : Message

abbrev pub state_eq : State → State → Bool
state_eq bound bound = true
state_eq unbound_and_queueing unbound_and_queueing = true
state_eq unbound_and_proxying unbound_and_proxying = true
state_eq _ _ = false

-- `is_weak_ptr_assigned`, and the test of a shared pointer.
abbrev pub is_assigned : Option ℕ → Bool
is_assigned none = false
is_assigned (some _) = true

-- `CHECK(condition)`, with the rest of the function as its second argument.
abbrev pub check {ℓ} : {A : Type ℓ} → Bool → Result A → Result A
check condition rest = if condition then rest else crash check_failed

abbrev pub no_address : Address
no_address = record { node_name = []; endpoint_name = [] }

-- The constructor; the creator assigns the peer's address.
abbrev pub new_endpoint : Name → Address → Endpoint
new_endpoint name peer = record {
  name = name;
  peer_address = peer;
  state = unbound_and_queueing;
  proxy_target = no_address;
  incoming_message_queue = [];
  delegate_task_runner = none;
  delegate = none;
  lock = false;
}

-- A second `Lock` of a mutex that is held does not return.
unfoldable pub lock_endpoint : Endpoint → Result Endpoint
lock_endpoint e = if e.lock then crash deadlock else ok (record e { lock = true })

unfoldable pub unlock_endpoint : Endpoint → Endpoint
unlock_endpoint e = record e { lock = false }

unfoldable pub posted : TaskRunner → Delegate → Message → Result Dispatch
posted (some r) (some d) m = ok (record { runner = r; receiver = d; message = m })
posted (some r) none m = crash check_failed
posted none d m = crash check_failed

unfoldable pub post_message_to_delegate : Endpoint → Message → Result Dispatch
unfolding posted
post_message_to_delegate e m = check (state_eq e.state bound) (
    check (is_assigned e.delegate)
      (check (is_assigned e.delegate_task_runner) (posted e.delegate_task_runner e.delegate m)))

unfoldable pub accept_in : State → Endpoint → Message → Result (Endpoint × List Dispatch)
unfolding post_message_to_delegate
accept_in unbound_and_queueing e m =
    check (not (is_assigned e.delegate))
      (ok (record e { incoming_message_queue = e.incoming_message_queue ++ m ∷ [] }, []))
accept_in bound e m =
    check (is_assigned e.delegate) (post_message_to_delegate e m >>= λ task. ok (e, task ∷ []))
accept_in unbound_and_proxying e m = crash not_reached

unfoldable pub accept_message : Endpoint → Message → Result (Endpoint × List Dispatch)
unfolding accept_in
accept_message e m = check (not (state_eq e.state unbound_and_proxying)) (accept_in e.state e m)

unfoldable pub accept_message_on_io_thread : Endpoint → Message → Result (Endpoint × List Dispatch)
unfolding accept_message
accept_message_on_io_thread e m =
    check (not (state_eq e.state unbound_and_proxying)) (accept_message e m)

unfoldable pub take_queued_messages : Endpoint → Result (List Message × Endpoint)
take_queued_messages e =
    check (not (is_assigned e.delegate))
      (ok (e.incoming_message_queue, record e { incoming_message_queue = [] }))

-- The loop of `RegisterDelegate` over the queued messages.
unfoldable pub post_queued_messages : Endpoint → List Message → Result (List Dispatch)
unfolding post_message_to_delegate
post_queued_messages e [] = ok []
post_queued_messages e (m ∷ ms) = post_message_to_delegate e m >>= λ task.
    post_queued_messages e ms >>= λ tasks. ok (task ∷ tasks)

unfoldable pub deliver_queued : Endpoint → Result (Endpoint × List Dispatch)
unfolding post_queued_messages
deliver_queued e = post_queued_messages e e.incoming_message_queue >>= λ tasks.
    ok (record e { incoming_message_queue = [] }, tasks)

unfoldable pub register_delegate :
    Endpoint → Delegate → TaskRunner → Result (Endpoint × List Dispatch)
unfolding lock_endpoint unlock_endpoint deliver_queued
register_delegate e delegate runner = do
  locked ← lock_endpoint e
  check (state_eq locked.state unbound_and_queueing) (
      check (not (is_assigned locked.delegate)) (
        check (not (is_assigned locked.delegate_task_runner)) (do
          (delivered, tasks) ←
              deliver_queued (record locked {
                state = bound;
                delegate = delegate;
                delegate_task_runner = runner;
              })
          ok (unlock_endpoint delivered, tasks))))

-- Not implemented by the program.
unfoldable pub unregister_delegate : Endpoint → Result Endpoint
unregister_delegate e = crash not_reached

unfoldable pub set_proxying : Endpoint → Address → Result Endpoint
set_proxying e target =
    check (state_eq e.state unbound_and_queueing)
      (ok (record e { state = unbound_and_proxying; proxy_target = target }))
