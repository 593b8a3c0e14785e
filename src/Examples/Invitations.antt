-- ===== src/Examples/Invitations.antt =====
-- Invitations and proxies (mage/core/node.cc) at concrete states.
use mage.Base.Result.{check_failed}
use mage.Node.Invitation.Once.{node_accept_invitation_once, on_received_accept_invitation_once}
use mage.Base.{true, ◌≡◌, refl, sym, [], ◌∷◌, ◌++◌, some, arith, bytes_eq, bytes_eq_iff}
use mage.Bytes.{memcpy, slice, read_int, from_bytes}
use mage.Message.{
  Message, target_endpoint, set_target_endpoint, size, get_endpoint_descriptors, get_pointer,
  decode_pointer, read_array,
}
use mage.Map.{insert, find, erase, name_key, pipe_key}
use mage.Endpoint.{Endpoint, unbound_and_proxying, new_endpoint}
use mage.Process.{crashed, Process, done}
use mage.Channel.{start, InvitationParams, invitation_message, acceptance_message}
use mage.Channel.Params.{view_acceptance-acceptance_message}
use mage.Util.Laws.{length-random_identifier}
use mage.Node.{insert_channel, channel_of, initial_channel_name}
use mage.Node.Send.{send_messages}
use mage.Node.Send.All.{IsSendable, on_channel, send_messages-all}
use mage.Node.Receive.{on_received_user_message}
use mage.Node.Receive.Forward.{Forwards, on_received_user_message-forward}
use mage.Node.Invitation.{node_accept_invitation, on_received_accept_invitation}
use mage.Node.Invitation.Invitee.{acceptance, connected}
use mage.Node.Invitation.Inviter.{
  IsAccepted, flushed, notified, on_received_accept_invitation-flushed,
}
use mage.Api.{on_can_read_from_socket}
use mage.Api.Handshake.{IsNamed, Waits, Reserves, invitation_connects}
use mage.Examples.Data.{
  world, process, node_1, node_2, name_c, name_d, name_x, greeting, end_c, end_d, process_1,
}

greeting-IsSendable : IsSendable greeting
unfolding size read_int slice from_bytes get_endpoint_descriptors get_pointer decode_pointer
    read_array
greeting-IsSendable = record {
  whole = omega arith;
  alone = refl;
  sized = refl;
  small = omega arith;
}

found_node : find node_2 process_1.node_channel_map ≡ some 5
unfolding find bytes_eq
found_node = refl

send_messages-all_example :
    send_messages (greeting ∷ greeting ∷ []) node_2 process_1
    ≡ done tt (record process_1 { sent = [] ++ on_channel 5 (greeting ∷ greeting ∷ []) })
send_messages-all_example =
    send_messages-all (greeting ∷ greeting ∷ []) process_1 node_2 5
      (greeting-IsSendable, (greeting-IsSendable, tt)) found_node (λ sent bytes. refl)

-- `inviting` has reserved `end_c`, where a message waits, for the node it calls `name_x`.
abbrev inviting : Process
inviting =
    record (process node_1 (end_d ∷ end_c ∷ []) ((name_d, 0) ∷ (name_c, 1) ∷ []) ((1, 0) ∷ [])
      ((name_x, 5) ∷ [])) {
        pending_invitations = (name_x, 1) ∷ [];
        remote_has_accepted_invitation_callback = some 8;
      }

-- `invitee` has accepted an invitation, which has not come yet.
abbrev invitee : Process
invitee = record (process node_2 [] [] [] ((initial_channel_name, 6) ∷ [])) {
  finished_accepting_invitation_callback = some 3;
}

abbrev params : InvitationParams
params = record {
  inviter_name = node_1;
  temporary_remote_node_name = name_x;
  intended_endpoint_peer_name = name_d;
}

params-IsNamed : IsNamed params
params-IsNamed = record { inviter = refl; temporary = refl; intended = refl }

invitee-Waits : Waits invitee params 6 3
unfolding find erase bytes_eq
invitee-Waits =
    let (_, _, _, is) =
      view_acceptance-acceptance_message (acceptance invitee params) refl refl
        (length-random_identifier world.draw 0) in
    record { initial = refl; unknown = refl; calls = refl; own_name = refl; takes = is }

inviting-Reserves : Reserves inviting params node_2 1 end_c 5
unfolding find erase bytes_eq
inviting-Reserves = record {
  pending = refl;
  there = refl;
  registered = refl;
  queueing = refl;
  unserved = refl;
  free = refl;
  channel = refl;
  unknown = refl;
  sendable = (greeting-IsSendable, tt);
  takes = λ sent bytes. refl;
}

invitation_connects_example :
    (on_can_read_from_socket ((invitation_message params).payload_buffer ++ []) invitee
      ≡ done [] (connected invitee params 6 3))
    × (on_can_read_from_socket
          ((acceptance_message (acceptance invitee params)).payload_buffer ++ (1 ∷ []))
          inviting
        ≡ done
            (1 ∷ [])
            (notified (some 8) (flushed inviting (acceptance invitee params) 1 end_c 5)))
invitation_connects_example =
    invitation_connects inviting invitee params 1 end_c 5 6 3 (1 ∷ []) [] params-IsNamed
      invitee-Waits inviting-Reserves

-- The same acceptance, at the handler.
accepted :
    IsAccepted inviting
      (acceptance_message (acceptance invitee params))
      (acceptance invitee params)
      1
      end_c
      5
unfolding find erase bytes_eq
accepted =
    let (views, _, _, _) =
      view_acceptance-acceptance_message (acceptance invitee params) refl refl
        (length-random_identifier world.draw 0) in
    record {
      viewed = views;
      pending = refl;
      there = refl;
      registered = refl;
      queueing = refl;
      unserved = refl;
      free = refl;
      channel = refl;
      unknown = refl;
      named = length-random_identifier world.draw 0;
      sendable = (greeting-IsSendable, tt);
      takes = λ sent bytes. refl;
    }

on_received_accept_invitation-flushed_example :
    on_received_accept_invitation (acceptance_message (acceptance invitee params)) inviting
    ≡ done tt (notified (some 8) (flushed inviting (acceptance invitee params) 1 end_c 5))
on_received_accept_invitation-flushed_example =
    on_received_accept_invitation-flushed inviting (acceptance_message (acceptance invitee params))
      (acceptance invitee params) 1 end_c 5 accepted

-- `end_c` as a proxy for an endpoint of `node_2`.
abbrev proxy_c : Endpoint
proxy_c = record (new_endpoint name_c (record { node_name = node_1; endpoint_name = name_d })) {
  state = unbound_and_proxying;
  proxy_target = record { node_name = node_2; endpoint_name = name_x };
}

abbrev proxying : Process
proxying = process node_1 (proxy_c ∷ []) ((name_c, 0) ∷ []) [] ((node_2, 5) ∷ [])

abbrev for_c : Message
for_c = set_target_endpoint greeting name_c

target_c : target_endpoint for_c ≡ name_c
unfolding target_endpoint set_target_endpoint memcpy slice
target_c = refl

found_c : find (target_endpoint for_c) proxying.local_endpoints ≡ some 0
unfolding find bytes_eq target_endpoint set_target_endpoint memcpy slice
found_c = refl

forwards : Forwards proxying proxy_c 5 for_c
unfolding find bytes_eq set_target_endpoint memcpy slice size read_int from_bytes
    get_endpoint_descriptors get_pointer decode_pointer read_array
forwards = record {
  proxying = refl;
  away = λ h. cc ((bytes_eq_iff _ _).1 h);
  named = refl;
  channel = refl;
  whole = omega arith;
  alone = refl;
  writes = record { sized = refl; small = omega arith; whole = refl };
}

on_received_user_message-forward_example :
    on_received_user_message for_c proxying
    ≡ done tt (record proxying {
      sent = [] ++ (5, (set_target_endpoint for_c name_x).payload_buffer) ∷ [];
    })
on_received_user_message-forward_example =
    on_received_user_message-forward proxying for_c 0 proxy_c 5 found_c refl (sym target_c) refl
      forwards

-- A second acceptance, and a second invitation to accept.
on_received_accept_invitation_once_example :
    on_received_accept_invitation
      (acceptance_message (acceptance invitee params))
      (notified (some 8) (flushed inviting (acceptance invitee params) 1 end_c 5))
    ≡ crashed check_failed
on_received_accept_invitation_once_example =
    on_received_accept_invitation_once inviting
      (notified (some 8) (flushed inviting (acceptance invitee params) 1 end_c 5))
      (acceptance_message (acceptance invitee params)) (acceptance invitee params) 1 end_c 5
      accepted
      (on_received_accept_invitation-flushed inviting
        (acceptance_message (acceptance invitee params)) (acceptance invitee params) 1 end_c 5
        accepted)

abbrev new_node : Process
new_node = process node_2 [] [] [] []

abbrev accepting : Process
accepting = record new_node {
  node_channel_map = (initial_channel_name, 6) ∷ [];
  watched = 6 ∷ [];
  has_accepted_invitation = true;
}

run-accepts : node_accept_invitation 6 new_node ≡ done tt accepting
unfolding node_accept_invitation insert_channel channel_of start find insert bytes_eq
run-accepts = refl

node_accept_invitation_once_example : node_accept_invitation 7 accepting ≡ crashed check_failed
node_accept_invitation_once_example = node_accept_invitation_once 6 7 new_node accepting run-accepts
