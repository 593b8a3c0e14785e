-- ===== src/Node.antt =====
-- mage/core/node.h and node.cc: the node of a process routes messages between its endpoints and the
-- channels to other nodes. A handler runs to its end before the next one starts: `node_channel_map_lock_`,
-- `pending_invitations_lock_` and `local_endpoints_lock_` are held over single accesses and are not
-- modelled; the lock of each endpoint is.
pub mod Pipes
pub mod Send
pub mod Invitation
pub mod Receive
pub mod Invariant
pub mod Locks
pub mod Live
pub mod Framed
use mage.Base.{
  ℕ, zero, suc, ◌+◌, Bool, true, false, not, List, [], ◌∷◌, ◌++◌, map, Option, none, some,
  if◌then◌else◌, bytes_eq, ◌==◌, length,
}
use mage.Base.Result.{Result, ok, crash, check_failed, not_reached, bad_access, deadlock}
use mage.Bytes.{Bytes, memcpy}
use mage.Message.{
  Name, Message, MessagePipe, EndpointDescriptor, type_code, user_message, send_invitation,
  accept_invitation, message_type, target_endpoint, set_target_endpoint, get_endpoint_descriptors,
  identifier_size,
}
use mage.Map.{find, insert, erase, name_key}
use mage.Endpoint.{
  Endpoint, Address, State, bound, unbound_and_queueing, unbound_and_proxying, state_eq,
  new_endpoint, accept_message_on_io_thread,
}
use mage.Process.{
  Process, Ref, Fd, M, pure, fail, lift, gets, modify, require, or_fail, ◌>>=◌, ◌>>◌,
}
use mage.Process.Heap.{
  deref, allocate_endpoint, call_method, lock, unlock, proxy_to, take_queue, fresh_identifier,
}
use mage.Channel.{
  InvitationParams, AcceptanceParams, invitation_message, acceptance_message, view_invitation,
  view_acceptance, start, stop, send_on_channel,
}
use mage.Core.{
  is_none, get_next_message_pipe, register_local_handle_and_endpoint, recover_new_message_pipe,
  recover_pipes, accept_message_on_delegate_thread, core_on_received_accept_invitation,
  core_on_received_invitation,
}

-- "INIT".
abbrev pub initial_channel_name : Name
initial_channel_name = 73 ∷ 78 ∷ 73 ∷ 84 ∷ []

unfoldable pub initialize_and_entangle_endpoints : M (Ref × Ref)
unfolding fresh_identifier allocate_endpoint
initialize_and_entangle_endpoints = do
  name_1 ← fresh_identifier
  name_2 ← fresh_identifier
  node ← gets (λ s. s.name)
  ep1 ←
      allocate_endpoint (new_endpoint name_1 (record { node_name = node; endpoint_name = name_2 }))
  ep2 ←
      allocate_endpoint (new_endpoint name_2 (record { node_name = node; endpoint_name = name_1 }))
  pure (ep1, ep2)

-- `CHECK_NE(local_endpoints_.find(endpoint->name), local_endpoints_.end())`.
unfoldable pub require_registered : Ref → M (Unit {0})
unfolding deref find
require_registered r = do
  e ← deref r
  locals ← gets (λ s. s.local_endpoints)
  require (not (is_none (find e.name locals)))

unfoldable pub create_message_pipes_and_get_endpoints :
    M ((MessagePipe × Ref) × (MessagePipe × Ref))
unfolding initialize_and_entangle_endpoints get_next_message_pipe register_local_handle_and_endpoint
    require_registered
create_message_pipes_and_get_endpoints = do
  (endpoint_1, endpoint_2) ← initialize_and_entangle_endpoints
  handle_1 ← get_next_message_pipe
  handle_2 ← get_next_message_pipe
  register_local_handle_and_endpoint handle_1 endpoint_1
  register_local_handle_and_endpoint handle_2 endpoint_2
  require_registered endpoint_1
  require_registered endpoint_2
  pure ((handle_1, endpoint_1), (handle_2, endpoint_2))

-- `node_channel_map_.insert`: where the key is there already, the new channel is destroyed.
unfoldable pub insert_channel : Name → Fd → M (Unit {0})
unfolding find insert stop
insert_channel node fd = do
  channels ← gets (λ s. s.node_channel_map)
  if is_none (find node channels)
      then modify (λ s. record s { node_channel_map = insert node fd s.node_channel_map })
      else stop fd

-- The channel of a node, through a pointer that is not checked.
unfoldable pub channel_of : Name → M Fd
unfolding find
channel_of node = do
  channels ← gets (λ s. s.node_channel_map)
  or_fail (find node channels) bad_access

-- `find`, CHECK that it is there, move the channel out and insert it under another name.
unfoldable pub rename_channel : (old new : Name) → M (Unit {0})
unfolding find erase insert_channel
rename_channel old new = do
  channels ← gets (λ s. s.node_channel_map)
  fd ← or_fail (find old channels) check_failed
  modify (λ s. record s { node_channel_map = erase old s.node_channel_map })
  insert_channel new fd
