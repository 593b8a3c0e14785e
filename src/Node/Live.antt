-- ===== src/Node/Live.antt =====
-- The calls that mage/core/node.cc takes from its own process come to an end.
pub mod Sending
pub mod Handlers
use mage.Base.{
  ℕ, ◌+◌, ◌%◌, ◌^◌, ◌≡◌, ◌≢◌, refl, true, false, not, List, [], ◌∷◌, ◌++◌, some, none, All, arith,
  length, bytes_eq, ◌==◌,
}
use mage.Base.Result.{crash, deadlock, check_failed, bad_access, not_reached}
use mage.Bytes.{Bytes}
use mage.Util.{random_identifier}
use mage.Message.{
  Name, Message, MessagePipe, EndpointDescriptor, identifier_size, get_endpoint_descriptors,
  set_target_endpoint, target_endpoint, message_type, type_code, send_invitation, accept_invitation,
  user_message, size,
}
use mage.Map.{find, insert, name_key}
use mage.Endpoint.{
  Endpoint, Address, new_endpoint, state_eq, unbound_and_proxying, accept_message_on_io_thread,
}
use mage.Process.{Process, Ref, Fd}
use mage.Process.Heap.{allocate_endpoint, fresh_identifier}
use mage.Process.Locks.{IsUnlocked}
use mage.Process.Live.{
  Live, Ends, ends, returns, fails, then_live, after, lift_live, or_fail_live, if_live,
  require_live, deref_live, call_method-Ends, lock-Ends, unlock-Ends, proxy_to-Ends, bad_access_lem,
  check_failed_lem, not_reached_lem,
}
use mage.Channel.{
  view_invitation, send_on_channel, invitation_message, acceptance_message, read_message,
  receive_body,
}
use mage.Core.{is_none, get_next_message_pipe, recover_new_message_pipe}
use mage.Core.Live.{
  get_endpoint_descriptors_ends, accept_on_io_thread_ends, register_local-Ends, recover_new-Ends,
  recover_pipes-Ends, on_received_invitation-Ends,
}
use mage.Node.{
  initialize_and_entangle_endpoints, create_message_pipes_and_get_endpoints, require_registered,
  insert_channel, channel_of, rename_channel, initial_channel_name,
}
use mage.Node.Invitation.{
  node_send_invitation_and_get_message_pipe, node_accept_invitation, on_received_invitation,
}
use mage.Node.Receive.{
  prepare_to_forward_user_message, forward, handle_user_message, on_received_user_message,
  on_received_message,
}

pub require_registered-Ends : (s : Process) (r : Ref) → Ends (require_registered r s)
unfolding require_registered
require_registered-Ends s r = then_live (deref_live s r λ e there. require_live s _ tt)

insert_channel-Ends : (node : Name) (fd : Fd) (s : Process) → Ends (insert_channel node fd s)
unfolding insert_channel
insert_channel-Ends node fd s =
    if_live s (is_none (find node s.node_channel_map)) _ _ (λ _. ends) (λ _. ends)

pub rename_channel-Ends : (old new : Name) (s : Process) → Ends (rename_channel old new s)
unfolding rename_channel
rename_channel-Ends old new s = then_live (
    or_fail_live s (find old s.node_channel_map) _ check_failed_lem
      λ fd found. insert_channel-Ends new fd _)

pub channel_of-Ends : (node : Name) (s : Process) → Ends (channel_of node s)
unfolding channel_of
channel_of-Ends node s =
    or_fail_live s (find node s.node_channel_map) _ bad_access_lem λ fd found. tt

pub send_on_channel-Ends : (fd : Fd) (m : Message) (s : Process) → Ends (send_on_channel fd m s)
unfolding send_on_channel
send_on_channel-Ends fd m s =
    then_live (require_live s (size m == length m.payload_buffer % 2 ^ 32) (require_live _ _ tt))

pub create_pipes-Ends : (s : Process) → Ends (create_message_pipes_and_get_endpoints s)
unfolding create_message_pipes_and_get_endpoints initialize_and_entangle_endpoints fresh_identifier
    allocate_endpoint get_next_message_pipe
create_pipes-Ends s =
    let n₁ : Name = random_identifier s.world.draw s.drawn in
    let n₂ : Name = random_identifier s.world.draw (s.drawn + identifier_size) in
    let e₁ : Endpoint = new_endpoint n₁ (record { node_name = s.name; endpoint_name = n₂ }) in
    let one : List Endpoint = s.heap ++ e₁ ∷ [] in
    let h₁ : MessagePipe = s.next_available_handle in
    after (register_local-Ends _ h₁ (length s.heap)) λ _ t.
      after (register_local-Ends t ((h₁ + 1) % 2 ^ 32) (length one)) λ _ u.
        after (require_registered-Ends u (length s.heap))
          λ _ v. after (require_registered-Ends v (length one)) λ _ w. ends

pub node_send_invitation-Ends :
    (fd : Fd) (s : Process) → Ends (node_send_invitation_and_get_message_pipe fd s)
unfolding node_send_invitation_and_get_message_pipe fresh_identifier
node_send_invitation-Ends fd s = after (create_pipes-Ends s) λ ((h₁, r₁), (h₂, r₂)) t.
    let temporary : Name = random_identifier t.world.draw t.drawn in
    after (insert_channel-Ends temporary fd (record t { drawn = t.drawn + identifier_size })) λ _ u.
      let u' : Process = record u {
        pending_invitations = insert temporary r₂ u.pending_invitations;
      } in
      after (channel_of-Ends temporary u') λ channel v.
        let v' : Process = record v { watched = v.watched ++ channel ∷ [] } in
        then_live (
          deref_live v' r₂ λ remote there.
            after
              (send_on_channel-Ends channel
                (invitation_message (record {
                  inviter_name = v.name;
                  temporary_remote_node_name = temporary;
                  intended_endpoint_peer_name = remote.peer_address.endpoint_name;
                }))
                v')
              λ _ w. ends {a = h₁})

pub node_accept_invitation-Ends : (fd : Fd) (s : Process) → Ends (node_accept_invitation fd s)
unfolding node_accept_invitation
node_accept_invitation-Ends fd s = then_live (
    require_live s (not s.has_accepted_invitation) (
      after (insert_channel-Ends initial_channel_name fd s)
        λ _ t. after (channel_of-Ends initial_channel_name t) λ channel u. ends))
