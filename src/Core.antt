-- ===== src/Core.antt =====
-- mage/core/core.cc: the handle table of a process, and the helpers that turn endpoints into
-- descriptors and back. `Node::RegisterEndpoint` of mage/core/node.cc stands here too, because
-- `RegisterLocalHandleAndEndpoint` calls it. The static functions that call into the node are in Api.antt.
-- `handle_table_lock_`, `next_available_handle_lock_` and `local_endpoints_lock_` are held over single
-- accesses and never together, and are not modelled.
pub mod Invariant
pub mod Locks
pub mod Live
pub mod Framed
use mage.Base.{
  ℕ, ◌+◌, ◌%◌, ◌^◌, Bool, true, false, not, List, [], ◌∷◌, ◌++◌, Option, none, some, if◌then◌else◌,
  bytes_eq, ◌==◌,
}
use mage.Base.Result.{Result, ok, crash, check_failed, not_reached, bad_access}
use mage.Message.{
  Name, Message, MessagePipe, EndpointDescriptor, get_endpoint_descriptors, queue_pipe,
}
use mage.Map.{find, insert, name_key, pipe_key}
use mage.Endpoint.{
  Endpoint, Address, State, unbound_and_proxying, Delegate, TaskRunner, is_assigned, state_eq,
  new_endpoint, accept_message, register_delegate,
}
use mage.Process.{
  Process, Ref, Callback, Task, invitation_accepted, accepted_invitation, M, pure, fail, lift, gets,
  modify, require, or_fail, ◌>>=◌, ◌>>◌,
}
use mage.Process.Heap.{deref, allocate_endpoint, call_method, fresh_identifier}

abbrev pub is_none {ℓ} : {A : Type ℓ} → Option A → Bool
is_none none = true
is_none (some a) = false

-- `Node::RegisterEndpoint`.
unfoldable pub register_endpoint : Ref → M (Unit {0})
unfolding deref find insert
register_endpoint r = do
  e ← deref r
  locals ← gets (λ s. s.local_endpoints)
  require (is_none (find e.name locals))
  modify (λ s. record s { local_endpoints = insert e.name r s.local_endpoints })

-- The counter is a `uint32_t`.
unfoldable pub get_next_message_pipe : M MessagePipe
get_next_message_pipe = do
  handle ← gets (λ s. s.next_available_handle)
  modify (λ s. record s { next_available_handle = (s.next_available_handle + 1) % 2 ^ 32 })
  pure handle

unfoldable pub insert_handle : MessagePipe → Ref → M (Unit {0})
unfolding insert
insert_handle handle r = modify (λ s. record s { handle_table = insert handle r s.handle_table })

unfoldable pub register_local_handle_and_endpoint : MessagePipe → Ref → M (Unit {0})
unfolding find insert_handle register_endpoint
register_local_handle_and_endpoint handle r = do
  table ← gets (λ s. s.handle_table)
  require (is_none (find handle table))
  insert_handle handle r
  register_endpoint r

-- The loop over the handle table, in the order of the handles.
unfoldable pub handle_of_name : Name → List (MessagePipe × Ref) → M MessagePipe
unfolding deref bytes_eq
handle_of_name name [] = fail not_reached
handle_of_name name ((handle, r) ∷ table) = do
  e ← deref r
  let rest = handle_of_name name table
  if bytes_eq e.name name then pure handle else rest

unfoldable pub recover_existing_message_pipe : EndpointDescriptor → M MessagePipe
unfolding handle_of_name
recover_existing_message_pipe d = do
  table ← gets (λ s. s.handle_table)
  handle_of_name d.endpoint_name table

unfoldable pub recover_new_message_pipe : EndpointDescriptor → M MessagePipe
unfolding allocate_endpoint get_next_message_pipe register_local_handle_and_endpoint
recover_new_message_pipe d = do
  r ← allocate_endpoint (
      new_endpoint d.cross_node_endpoint_name
        (record { node_name = d.peer_node_name; endpoint_name = d.peer_endpoint_name }))
  handle ← get_next_message_pipe
  register_local_handle_and_endpoint handle r
  pure handle

-- The handles of `find(handle)->second`, which is not checked.
unfoldable pub endpoint_of_handle : MessagePipe → M Ref
unfolding find
endpoint_of_handle handle = do
  table ← gets (λ s. s.handle_table)
  or_fail (find handle table) bad_access

-- `PopulateEndpointDescriptor`: the descriptor of the endpoint behind `handle_to_send`.
unfoldable pub populate_endpoint_descriptor :
    (handle_to_send handle_of_preexisting_connection : MessagePipe) → M EndpointDescriptor
unfolding endpoint_of_handle deref fresh_identifier
populate_endpoint_descriptor handle_to_send handle_of_preexisting_connection = do
  carrier ← endpoint_of_handle handle_of_preexisting_connection
  carrier_endpoint ← deref carrier
  require (not (state_eq carrier_endpoint.state unbound_and_proxying))
  sent ← endpoint_of_handle handle_to_send
  endpoint_being_sent ← deref sent
  cross_node_endpoint_name ← fresh_identifier
  pure (record {
    endpoint_name = endpoint_being_sent.name;
    cross_node_endpoint_name = cross_node_endpoint_name;
    peer_node_name = endpoint_being_sent.peer_address.node_name;
    peer_endpoint_name = endpoint_being_sent.peer_address.endpoint_name;
  })

-- The loops that recover the pipes of a message, from a local sender and from another node.
unfoldable pub recover_pipes :
    (EndpointDescriptor → M MessagePipe) → List (ℕ × EndpointDescriptor) → Message → M Message
unfolding queue_pipe
recover_pipes recover [] m = pure m
recover_pipes recover ((at, d) ∷ ds) m = do
  pipe ← recover d
  recover_pipes recover ds (queue_pipe m pipe)

-- `Endpoint::AcceptMessageOnDelegateThread`.
unfoldable pub accept_message_on_delegate_thread : Ref → Message → M (Unit {0})
unfolding deref recover_existing_message_pipe recover_pipes get_endpoint_descriptors call_method
    accept_message
accept_message_on_delegate_thread r m = do
  e ← deref r
  require (not (state_eq e.state unbound_and_proxying))
  descriptors ← lift (get_endpoint_descriptors m)
  m' ← recover_pipes recover_existing_message_pipe descriptors m
  call_method r (λ e'. accept_message e' m')

unfoldable pub bind_receiver_delegate_to_endpoint :
    MessagePipe → Delegate → TaskRunner → M (Unit {0})
unfolding find call_method register_delegate
bind_receiver_delegate_to_endpoint handle delegate runner = do
  table ← gets (λ s. s.handle_table)
  r ← or_fail (find handle table) check_failed
  call_method r (λ e. register_delegate e delegate runner)

-- The callback is moved into the task; an empty one posts nothing.
unfoldable pub notify_inviter : Option Callback → M (Unit {0})
notify_inviter none = pure tt
notify_inviter (some callback) = modify (λ s. record s {
  tasks = s.tasks ++ invitation_accepted callback ∷ [];
  remote_has_accepted_invitation_callback = none;
})

unfoldable pub core_on_received_accept_invitation : M (Unit {0})
unfolding notify_inviter
core_on_received_accept_invitation = do
  callback ← gets (λ s. s.remote_has_accepted_invitation_callback)
  notify_inviter callback

unfoldable pub core_on_received_invitation : Ref → M (Unit {0})
unfolding get_next_message_pipe insert_handle
core_on_received_invitation local_endpoint = do
  handle ← get_next_message_pipe
  insert_handle handle local_endpoint
  finished ← gets (λ s. s.finished_accepting_invitation_callback)
  callback ← or_fail finished check_failed
  modify (λ s. record s { tasks = s.tasks ++ accepted_invitation callback handle ∷ [] })
