-- ===== src/Node/Send.antt =====
-- mage/core/node.cc: `SendMessage` and `SendMessagesAndRecursiveDependents`.
pub mod Drain
pub mod Content
pub mod Times
pub mod Exact
pub mod All
pub mod Move
use mage.Base.{
  ℕ, zero, suc, ◌+◌, Bool, true, false, not, List, [], ◌∷◌, ◌++◌, map, Option, none, some,
  if◌then◌else◌, bool_eq, bytes_eq, ◌==◌, length,
}
use mage.Base.Result.{Result, ok, crash, check_failed, not_reached, bad_access, deadlock}
use mage.Bytes.{Bytes, memcpy}
use mage.Message.{
  Name, Message, MessagePipe, EndpointDescriptor, type_code, user_message, send_invitation,
  accept_invitation, message_type, target_endpoint, set_target_endpoint, get_endpoint_descriptors,
  identifier_size,
}
use mage.Map.{find, insert, erase, name_key}
use mage.Endpoint.{
  Endpoint, Address, State, bound, unbound_and_queueing, unbound_and_proxying, state_eq,
  new_endpoint, accept_message_on_io_thread,
}
use mage.Process.{
  Process, Outcome, out_of_fuel, Ref, Fd, M, pure, fail, lift, gets, modify, require, or_fail,
  ◌>>=◌, ◌>>◌,
}
use mage.Process.Heap.{
  deref, allocate_endpoint, call_method, lock, unlock, proxy_to, take_queue, fresh_identifier,
}
use mage.Channel.{
  InvitationParams, AcceptanceParams, invitation_message, acceptance_message, view_invitation,
  view_acceptance, start, stop, send_on_channel,
}
use mage.Core.{
  is_none, get_next_message_pipe, register_local_handle_and_endpoint, recover_new_message_pipe,
  recover_pipes, accept_message_on_delegate_thread, core_on_received_accept_invitation,
  core_on_received_invitation,
}
use mage.Node.{
  initial_channel_name, create_message_pipes_and_get_endpoints, insert_channel, channel_of,
  rename_channel, require_registered,
}

-- `memcpy` of a name into the target of each message.
unfoldable pub retarget : Name → List Message → List Message
unfolding set_target_endpoint
retarget name [] = []
retarget name (m ∷ ms) = set_target_endpoint m name ∷ retarget name ms

-- The loop over the descriptors of a message that leaves for `target_node_name`: the endpoint behind
-- each is locked, its queue taken and retargeted, and it starts proxying. The result holds the messages
-- to send after this one, and the endpoints that are locked.
unfoldable pub proxy_dependents : List (ℕ × EndpointDescriptor) → Name → M (List Message × List Ref)
unfolding find lock take_queue retarget proxy_to
proxy_dependents [] target_node_name = pure ([], [])
proxy_dependents ((at, d) ∷ ds) target_node_name = do
  locals ← gets (λ s. s.local_endpoints)
  endpoint ← or_fail (find d.endpoint_name locals) check_failed
  lock endpoint
  sub_messages ← take_queue endpoint
  proxy_to endpoint
      (record { node_name = target_node_name; endpoint_name = d.cross_node_endpoint_name })
  (later_messages, locked) ← proxy_dependents ds target_node_name
  pure (retarget d.cross_node_endpoint_name sub_messages ++ later_messages, endpoint ∷ locked)

unfoldable pub unlock_all : List Ref → M (Unit {0})
unfolding unlock
unlock_all [] = pure tt
unlock_all (r ∷ rs) = do unlock r; unlock_all rs

-- One round of the loop: `message` leaves, and the messages queued behind its endpoints are returned.
unfoldable pub send_with_dependents : Message → Name → M (List Message)
unfolding get_endpoint_descriptors proxy_dependents channel_of send_on_channel unlock_all
send_with_dependents message target_node_name = do
  descriptors ← lift (get_endpoint_descriptors message)
  (sub_messages, locked) ← proxy_dependents descriptors target_node_name
  channel ← channel_of target_node_name
  send_on_channel channel message
  unlock_all locked
  pure sub_messages

unfoldable pub send_loop : ℕ → List Message → Name → M (Unit {0})
unfolding send_with_dependents
send_loop fuel [] target_node_name = pure tt
send_loop zero (m ∷ ms) target_node_name = λ _. out_of_fuel
send_loop (suc fuel) (m ∷ ms) target_node_name = do
  sub_messages ← send_with_dependents m target_node_name
  send_loop fuel (ms ++ sub_messages) target_node_name

-- All messages that wait in some endpoint.
unfoldable pub queued : List Endpoint → ℕ
queued [] = 0
queued (e ∷ es) = length e.incoming_message_queue + queued es

-- `SendMessagesAndRecursiveDependents`. Every round sends one message that was given or was queued.
unfoldable pub send_messages : List Message → Name → M (Unit {0})
unfolding queued send_loop
send_messages messages_to_send target_node_name = do
  waiting ← gets (λ s. queued s.heap)
  send_loop (length messages_to_send + waiting) messages_to_send target_node_name

-- No endpoint that is sent may be bound to a receiver.
unfoldable pub require_unbound : List (ℕ × EndpointDescriptor) → M (Unit {0})
unfolding find lock deref unlock
require_unbound [] = pure tt
require_unbound ((at, d) ∷ ds) = do
  locals ← gets (λ s. s.local_endpoints)
  endpoint ← or_fail (find d.endpoint_name locals) bad_access
  lock endpoint
  e ← deref endpoint
  require (not (state_eq e.state bound))
  unlock endpoint
  require_unbound ds

-- The peer is in this node, and locked.
unfoldable pub send_to_local_peer : Ref → Endpoint → Message → M (Unit {0})
unfolding send_messages set_target_endpoint accept_message_on_delegate_thread
send_to_local_peer peer e m =
    if state_eq e.state unbound_and_proxying
    then send_messages (set_target_endpoint m e.proxy_target.endpoint_name ∷ [])
        e.proxy_target.node_name
    else accept_message_on_delegate_thread peer m

unfoldable pub deliver : Option Ref → Name → Message → M (Unit {0})
unfolding send_messages lock deref send_to_local_peer unlock
deliver none peer_node_name m = send_messages (m ∷ []) peer_node_name
deliver (some peer) peer_node_name m = do
  lock peer
  e ← deref peer
  send_to_local_peer peer e m
  unlock peer

-- `Node::SendMessage`. The peer is an endpoint here, or behind a channel, and not both.
unfoldable pub node_send_message : Ref → Message → M (Unit {0})
unfolding message_type get_endpoint_descriptors require_unbound deref find set_target_endpoint
    deliver
node_send_message local_endpoint m = do
  require (message_type m == type_code user_message)
  descriptors ← lift (get_endpoint_descriptors m)
  require_unbound descriptors
  e ← deref local_endpoint
  locals ← gets (λ s. s.local_endpoints)
  channels ← gets (λ s. s.node_channel_map)
  let peer = e.peer_address
  require (
      not (
        bool_eq (is_none (find peer.endpoint_name locals))
          (is_none (find peer.node_name channels))))
  require (length peer.endpoint_name == identifier_size)
  deliver (find peer.endpoint_name locals) peer.node_name (set_target_endpoint m peer.endpoint_name)
