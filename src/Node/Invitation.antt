-- ===== src/Node/Invitation.antt =====
-- mage/core/node.cc: invitations, sent and accepted. The channel is started after
-- it is in its map.
pub mod Invitee
pub mod Inviter
pub mod Invited
pub mod Once
use mage.Base.{true, not}
use mage.Base.Result.{check_failed}
use mage.Message.{Message, MessagePipe}
use mage.Map.{find, insert, erase, name_key}
use mage.Endpoint.{new_endpoint}
use mage.Process.{Fd, M, pure, lift, gets, modify, require, or_fail, ◌>>=◌, ◌>>◌}
use mage.Process.Heap.{
  deref, allocate_endpoint, lock, unlock, proxy_to, take_queue, fresh_identifier,
}
use mage.Channel.{
  invitation_message, acceptance_message, view_invitation, view_acceptance, start, send_on_channel,
}
use mage.Core.{core_on_received_accept_invitation, core_on_received_invitation}
use mage.Node.{
  initial_channel_name, create_message_pipes_and_get_endpoints, insert_channel, channel_of,
  rename_channel, require_registered,
}
use mage.Node.Send.{retarget, send_messages}

unfoldable pub node_send_invitation_and_get_message_pipe : Fd → M MessagePipe
unfolding create_message_pipes_and_get_endpoints fresh_identifier insert_channel insert deref
    channel_of start send_on_channel invitation_message
node_send_invitation_and_get_message_pipe fd = do
  ((local_handle, local_endpoint), (remote_handle, remote_endpoint)) ←
      create_message_pipes_and_get_endpoints
  temporary_remote_node_name ← fresh_identifier
  insert_channel temporary_remote_node_name fd
  modify (λ s. record s {
    pending_invitations = insert temporary_remote_node_name remote_endpoint s.pending_invitations;
  })
  channel ← channel_of temporary_remote_node_name
  start channel
  remote ← deref remote_endpoint
  inviter_name ← gets (λ s. s.name)
  send_on_channel channel (
      invitation_message (record {
        inviter_name = inviter_name;
        temporary_remote_node_name = temporary_remote_node_name;
        intended_endpoint_peer_name = remote.peer_address.endpoint_name;
      }))
  pure local_handle

unfoldable pub node_accept_invitation : Fd → M (Unit {0})
unfolding insert_channel channel_of start
node_accept_invitation fd = do
  accepted ← gets (λ s. s.has_accepted_invitation)
  require (not accepted)
  insert_channel initial_channel_name fd
  channel ← channel_of initial_channel_name
  start channel
  modify (λ s. record s { has_accepted_invitation = true })

unfoldable pub on_received_invitation : Message → M (Unit {0})
unfolding view_invitation rename_channel fresh_identifier allocate_endpoint insert channel_of
    send_on_channel acceptance_message core_on_received_invitation
on_received_invitation m = do
  params ← lift (view_invitation m)
  let inviter_name = params.inviter_name
  rename_channel initial_channel_name inviter_name
  endpoint_name ← fresh_identifier
  local_endpoint ← allocate_endpoint (
      new_endpoint endpoint_name
        (record { node_name = inviter_name; endpoint_name = params.intended_endpoint_peer_name }))
  modify (λ s. record s { local_endpoints = insert endpoint_name local_endpoint s.local_endpoints })
  channel ← channel_of inviter_name
  name ← gets (λ s. s.name)
  send_on_channel channel (
      acceptance_message (record {
        temporary_remote_node_name = params.temporary_remote_node_name;
        actual_node_name = name;
        accept_invitation_endpoint_name = endpoint_name;
      }))
  core_on_received_invitation local_endpoint

unfoldable pub on_received_accept_invitation : Message → M (Unit {0})
unfolding view_acceptance find erase require_registered lock proxy_to rename_channel take_queue
    retarget send_messages unlock core_on_received_accept_invitation
on_received_accept_invitation m = do
  params ← lift (view_acceptance m)
  pending ← gets (λ s. s.pending_invitations)
  remote_endpoint ← or_fail (find params.temporary_remote_node_name pending) check_failed
  modify (λ s. record s {
    pending_invitations = erase params.temporary_remote_node_name s.pending_invitations;
  })
  require_registered remote_endpoint
  lock remote_endpoint
  proxy_to remote_endpoint (record {
    node_name = params.actual_node_name;
    endpoint_name = params.accept_invitation_endpoint_name;
  })
  rename_channel params.temporary_remote_node_name params.actual_node_name
  messages_to_forward ← take_queue remote_endpoint
  send_messages (retarget params.accept_invitation_endpoint_name messages_to_forward)
      params.actual_node_name
  unlock remote_endpoint
  core_on_received_accept_invitation
