-- ===== src/Examples/Networks.antt =====
-- Two processes and their sockets (mage/core/node.cc, mage/core/channel.cc) at concrete states.
use mage.Bytes.{read_int, slice, from_bytes}
use mage.Util.{random_identifier, identifier}
use mage.Process.{Process, done}
use mage.Node.Pipes.{second, first_handle, second_ref, second_name}
use mage.Node.Send.{retarget}
use mage.Map.{find, name_key, pipe_key, erase}
use mage.Util.Laws.{length-random_identifier}
use mage.Channel.{invitation_message, acceptance_message}
use mage.Channel.Params.{view_invitation-invitation_message, view_acceptance-acceptance_message}
use mage.Node.{initial_channel_name}
use mage.Node.Send.All.{IsSendable, on_channel}
use mage.Node.Invitation.{node_send_invitation_and_get_message_pipe}
use mage.Node.Invitation.Invited.{MayInvite, invitation, invited, node_send_invitation-invited}
use mage.Node.Invitation.Invitee.{acceptance, accepting_name, connected}
use mage.Node.Invitation.Inviter.{flushed, notified}
use mage.Api.Handshake.{Waits}
use mage.Api.Early.{Invites, early, early_messages_leave}
use mage.Message.{
  message_type, get_endpoint_descriptors, get_pointer, decode_pointer, read_array, size,
  target_endpoint, Message,
}
use mage.Base.{◌≡◌, refl, [], ◌∷◌, ◌++◌, map, some, arith, bytes_eq, bytes_eq_iff, replicate, ◌+◌}
use mage.Endpoint.Valid.{new_endpoint-IsValid}
use mage.Channel.Frames.{stream}
use mage.Api.Stream.{reads_frames, Queues, IsAddressed, reads_frames-stream}
use mage.Api.{on_can_read_from_socket, sends_invitation, new_process, sends, run}
use mage.Api.Pipe.{with_queued, with_queued_at}
use mage.Examples.Data.{name_b, end_b, process_2, process, node_2, world, greeting}
use mage.Examples.Histories.{start, start-IsFresh, greeting-IsPlain}

pub greeting-IsSendable : IsSendable greeting
unfolding size read_int slice from_bytes get_endpoint_descriptors get_pointer decode_pointer
    read_array
greeting-IsSendable = record {
  whole = omega arith;
  alone = refl;
  sized = refl;
  small = omega arith;
}

-- The same process as an inviter, and one that waits for its invitation.
pub start-MayInvite : MayInvite start 5
unfolding new_process find
start-MayInvite =
    let own = length-random_identifier world.draw 0 in
    let (_, _, _, is) =
      view_invitation-invitation_message (invitation start) own
        (length-random_identifier world.draw 45) (length-random_identifier world.draw 15) in
    record { fresh = start-IsFresh; unknown = refl; own_name = own; takes = is }

node_send_invitation-invited_example :
    node_send_invitation_and_get_message_pipe 5 start ≡ done (first_handle start) (invited start 5)
node_send_invitation-invited_example = node_send_invitation-invited start 5 start-MayInvite

abbrev invitee : Process
invitee = record (process node_2 [] [] [] ((initial_channel_name, 6) ∷ [])) {
  finished_accepting_invitation_callback = some 3;
}

start-Invites : Invites start invitee 5
unfolding new_process random_identifier identifier find bytes_eq
start-Invites = record {
  may = start-MayInvite;
  not_pending = refl;
  other_name = λ h. cc ((bytes_eq_iff _ _).1 h);
  not_itself = refl;
  not_invitee = refl;
  takes = λ sent bytes. refl;
}

invitee-Waits : Waits invitee (invitation start) 6 3
unfolding find erase bytes_eq
invitee-Waits =
    let (_, _, _, is) =
      view_acceptance-acceptance_message (acceptance invitee (invitation start))
        (length-random_identifier start.world.draw (start.drawn + 15 + 15)) refl
        (length-random_identifier world.draw 0) in
    record { initial = refl; unknown = refl; calls = refl; own_name = refl; takes = is }

early_messages_leave_example :
    let r = second_ref start in
    let e = with_queued (second start) (retarget (second_name start) (greeting ∷ [])) in
    let answer = acceptance invitee (invitation start) in
    (run
        (sends_invitation 5 start.remote_has_accepted_invitation_callback
          ∷ map (sends (first_handle start)) (greeting ∷ []))
        start
      ≡ done tt (early start 5 (greeting ∷ [])))
    × ((early start 5 (greeting ∷ [])).sent
        ≡ start.sent ++ (5, (invitation_message (invitation start)).payload_buffer) ∷ [])
    × (on_can_read_from_socket
          ((invitation_message (invitation start)).payload_buffer ++ [])
          invitee
        ≡ done [] (connected invitee (invitation start) 6 3))
    × (on_can_read_from_socket
          ((acceptance_message answer).payload_buffer ++ [])
          (early start 5 (greeting ∷ []))
        ≡ done [] (
            notified start.remote_has_accepted_invitation_callback
              (flushed (early start 5 (greeting ∷ [])) answer r e 5)))
    × ((flushed (early start 5 (greeting ∷ [])) answer r e 5).sent
        ≡ (early start 5 (greeting ∷ [])).sent
          ++ on_channel 5
              (retarget (accepting_name invitee) (retarget (second_name start) (greeting ∷ []))))
early_messages_leave_example =
    early_messages_leave start invitee (greeting ∷ []) 5 6 3 [] [] start-Invites invitee-Waits
      (greeting-IsPlain, tt) (greeting-IsSendable, tt)

-- Two messages for the endpoint of the process at the other end.
abbrev for_b : Message
for_b = record {
  payload_buffer =
      43
      ∷ 0
      ∷ 0
      ∷ 0
      ∷ 2
      ∷ 0
      ∷ 0
      ∷ 0
      ∷ (replicate 4 0 ++ (name_b ++ (replicate 13 0 ++ (7 ∷ 8 ∷ 9 ∷ []))));
  pipes = [];
}

process_2-Queues : Queues process_2 0 end_b
unfolding find bytes_eq
process_2-Queues = record {
  found = refl;
  there = refl;
  valid = new_endpoint-IsValid _ _;
  queueing = refl;
  free = refl;
}

for_b-IsAddressed : IsAddressed end_b for_b
unfolding size message_type target_endpoint read_int slice from_bytes get_endpoint_descriptors
    get_pointer decode_pointer read_array
for_b-IsAddressed = record {
  frame = (omega arith, (refl, omega arith));
  typed = refl;
  alone = refl;
  aimed = refl;
}

reads_frames-stream_example :
    reads_frames 2 (stream (for_b ∷ for_b ∷ []) ++ (1 ∷ [])) process_2
    ≡ done (1 ∷ []) (with_queued_at process_2 0 end_b (for_b ∷ for_b ∷ []))
reads_frames-stream_example =
    reads_frames-stream (for_b ∷ for_b ∷ []) process_2 0 end_b (1 ∷ []) process_2-Queues
      (for_b-IsAddressed, (for_b-IsAddressed, tt))
