-- ===== src/Node/Receive.antt =====
-- mage/core/node.cc: what a message from another node does.
pub mod Exact
pub mod Forward
pub mod Recover
use mage.Base.{
  ℕ, zero, suc, ◌+◌, Bool, true, false, not, List, [], ◌∷◌, ◌++◌, map, Option, none, some,
  if◌then◌else◌, bytes_eq, ◌==◌, length,
}
use mage.Base.Result.{Result, ok, crash, check_failed, not_reached, bad_access, deadlock}
use mage.Bytes.{Bytes, memcpy}
use mage.Message.{
  Name, Message, MessagePipe, EndpointDescriptor, type_code, user_message, send_invitation,
  accept_invitation, message_type, target_endpoint, set_target_endpoint, get_endpoint_descriptors,
  identifier_size,
}
use mage.Map.{find, insert, erase, name_key}
use mage.Endpoint.{
  Endpoint, Address, State, bound, unbound_and_queueing, unbound_and_proxying, state_eq,
  new_endpoint, accept_message_on_io_thread,
}
use mage.Process.{
  Process, Ref, Fd, M, pure, fail, lift, gets, modify, require, or_fail, ◌>>=◌, ◌>>◌,
}
use mage.Process.Heap.{
  deref, allocate_endpoint, call_method, lock, unlock, proxy_to, take_queue, fresh_identifier,
}
use mage.Channel.{
  InvitationParams, AcceptanceParams, invitation_message, acceptance_message, view_invitation,
  view_acceptance, start, stop, send_on_channel,
}
use mage.Core.{
  is_none, get_next_message_pipe, register_local_handle_and_endpoint, recover_new_message_pipe,
  recover_pipes, accept_message_on_delegate_thread, core_on_received_accept_invitation,
  core_on_received_invitation,
}
use mage.Node.{
  initial_channel_name, create_message_pipes_and_get_endpoints, insert_channel, channel_of,
  rename_channel, require_registered,
}
use mage.Node.Invitation.{on_received_invitation, on_received_accept_invitation}

-- The bytes of a descriptor in a message give its names anew.
unfoldable pub rename_descriptor :
    Message → ℕ → (endpoint_name cross_node_endpoint_name : Name) → Message
unfolding memcpy
rename_descriptor m at endpoint_name cross_node_endpoint_name = record m {
  payload_buffer =
      memcpy (memcpy m.payload_buffer at endpoint_name) (at + 15) cross_node_endpoint_name;
}

unfoldable pub prepare_to_forward_user_message :
    List (ℕ × EndpointDescriptor) → Name → Message → M Message
unfolding find fresh_identifier rename_descriptor proxy_to
prepare_to_forward_user_message [] proxy_target_node_name m = pure m
prepare_to_forward_user_message ((at, d) ∷ ds) proxy_target_node_name m = do
  locals ← gets (λ s. s.local_endpoints)
  backing_endpoint ← or_fail (find d.cross_node_endpoint_name locals) check_failed
  new_cross_node_endpoint_name ← fresh_identifier
  let m' = rename_descriptor m at d.cross_node_endpoint_name new_cross_node_endpoint_name
  proxy_to backing_endpoint
      (record { node_name = proxy_target_node_name; endpoint_name = new_cross_node_endpoint_name })
  prepare_to_forward_user_message ds proxy_target_node_name m'

unfoldable pub forward : Address → Message → M (Unit {0})
unfolding bytes_eq set_target_endpoint get_endpoint_descriptors prepare_to_forward_user_message
    channel_of send_on_channel
forward proxy_target m = do
  name ← gets (λ s. s.name)
  require (not (bytes_eq proxy_target.node_name name))
  let m' = set_target_endpoint m proxy_target.endpoint_name
  descriptors ← lift (get_endpoint_descriptors m')
  m'' ← prepare_to_forward_user_message descriptors proxy_target.node_name m'
  channel ← channel_of proxy_target.node_name
  send_on_channel channel m''

unfoldable pub handle_user_message : Ref → Endpoint → Message → M (Unit {0})
unfolding forward call_method accept_message_on_io_thread
handle_user_message endpoint e m =
    if state_eq e.state unbound_and_proxying
    then forward e.proxy_target m
    else call_method endpoint (λ e'. accept_message_on_io_thread e' m)

unfoldable pub on_received_user_message : Message → M (Unit {0})
unfolding target_endpoint find deref bytes_eq lock get_endpoint_descriptors recover_new_message_pipe
    recover_pipes handle_user_message unlock
on_received_user_message m = do
  let local_target_endpoint_name = target_endpoint m
  locals ← gets (λ s. s.local_endpoints)
  endpoint ← or_fail (find local_target_endpoint_name locals) check_failed
  e ← deref endpoint
  require (bytes_eq local_target_endpoint_name e.name)
  lock endpoint
  descriptors ← lift (get_endpoint_descriptors m)
  m' ← recover_pipes recover_new_message_pipe descriptors m
  e' ← deref endpoint
  handle_user_message endpoint e' m'
  unlock endpoint

-- `Node::OnReceivedMessage`.
unfoldable pub on_received_message : Message → M (Unit {0})
unfolding message_type on_received_invitation on_received_accept_invitation on_received_user_message
on_received_message m =
    if message_type m == type_code send_invitation
    then on_received_invitation m
    else if message_type m == type_code accept_invitation
    then on_received_accept_invitation m
    else if message_type m == type_code user_message
    then on_received_user_message m
    else fail not_reached
