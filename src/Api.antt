-- ===== src/Api.antt =====
-- The entry points of a process: mage/core/api.cc and mage/public/api.h, which defer to the static
-- functions of `Core` (mage/core/core.cc), and the socket's call of `Channel::OnCanReadFromSocket`
-- (mage/core/channel.cc). `Init` and `ShutdownCleanly` make and drop the state.
pub mod History
pub mod Locks
pub mod Live
pub mod Framed
pub mod Arrival
pub mod Pipe
pub mod Delivery
pub mod Handshake
pub mod Early
pub mod Stream
pub mod Move
use mage.Base.{ℕ, ◌+◌, Bool, true, false, not, List, [], ◌∷◌, Option, none, some}
use mage.Base.Result.{Result, ok, crash, check_failed}
use mage.Bytes.{Bytes}
use mage.Message.{Message, MessagePipe, EndpointDescriptor, identifier_size}
use mage.Map.{find, pipe_key}
use mage.Util.{random_identifier}
use mage.Process.{
  Process, World, Fd, Callback, M, pure, fail, lift, gets, modify, require, or_fail, ◌>>=◌, ◌>>◌,
}
use mage.Channel.{read_message}
use mage.Core.{
  is_none, bind_receiver_delegate_to_endpoint, populate_endpoint_descriptor,
  recover_existing_message_pipe, recover_new_message_pipe,
}
use mage.Node.{create_message_pipes_and_get_endpoints}
use mage.Node.Send.{node_send_message}
use mage.Node.Invitation.{node_send_invitation_and_get_message_pipe, node_accept_invitation}
use mage.Node.Receive.{on_received_message}

-- The constructors of `Core` and `Node`: the node draws its name.
unfoldable pub new_process : World → Process
unfolding random_identifier
new_process world = record {
  heap = [];
  handle_table = [];
  next_available_handle = 1;
  remote_has_accepted_invitation_callback = none;
  finished_accepting_invitation_callback = none;
  name = random_identifier world.draw 0;
  has_accepted_invitation = false;
  local_endpoints = [];
  node_channel_map = [];
  pending_invitations = [];
  tasks = [];
  sent = [];
  watched = [];
  drawn = identifier_size;
  world = world;
}

-- `Core::Init`, on the global pointer.
unfoldable pub init : World → Option Process → Result (Option Process)
unfolding new_process
init world none = ok (some (new_process world))
init world (some core) = crash check_failed

unfoldable pub shutdown_cleanly : Option Process → Option Process
shutdown_cleanly core = none

pub require_handle : MessagePipe → M (Unit {0})
unfolding find
require_handle handle = do
  table ← gets (λ s. s.handle_table)
  require (not (is_none (find handle table)))

unfoldable pub create_message_pipes : M (MessagePipe × MessagePipe)
unfolding create_message_pipes_and_get_endpoints require_handle
create_message_pipes = do
  ((handle_1, endpoint_1), (handle_2, endpoint_2)) ← create_message_pipes_and_get_endpoints
  require_handle handle_1
  require_handle handle_2
  pure (handle_1, handle_2)

-- The callback may be empty.
unfoldable pub send_invitation_and_get_message_pipe : Fd → Option Callback → M MessagePipe
unfolding node_send_invitation_and_get_message_pipe
send_invitation_and_get_message_pipe fd callback = do
  modify (λ s. record s { remote_has_accepted_invitation_callback = callback })
  node_send_invitation_and_get_message_pipe fd

unfoldable pub accept_invitation : Fd → Option Callback → M (Unit {0})
unfolding node_accept_invitation
accept_invitation fd callback = do
  modify (λ s. record s { finished_accepting_invitation_callback = callback })
  node_accept_invitation fd

unfoldable pub send_message : MessagePipe → Message → M (Unit {0})
unfolding find node_send_message
send_message local_handle m = do
  table ← gets (λ s. s.handle_table)
  endpoint ← or_fail (find local_handle table) check_failed
  node_send_message endpoint m

-- One message is read from the bytes that the socket holds; the rest stays there.
unfoldable pub on_can_read_from_socket : Bytes → M Bytes
unfolding read_message on_received_message
on_can_read_from_socket incoming = do
  (m, rest) ← lift (read_message incoming)
  on_received_message m
  pure rest

-- The calls that reach a process. A generated stub binds itself, which is alive, with the task runner of
-- its thread.
pub data Call : Type 0 where
  creates_pipes : Call
  sends_invitation : Fd → Option Callback → Call
  accepts_invitation : Fd → Option Callback → Call
  sends : MessagePipe → Message → Call
  binds : MessagePipe → (receiver runner : ℕ) → Call
  describes : (handle_to_send carrier : MessagePipe) → Call
  recovers_existing : EndpointDescriptor → Call
  recovers_new : EndpointDescriptor → Call
  reads : Bytes → Call

unfoldable pub perform : Call → M (Unit {0})
unfolding create_message_pipes send_invitation_and_get_message_pipe accept_invitation send_message
    bind_receiver_delegate_to_endpoint populate_endpoint_descriptor recover_existing_message_pipe
    recover_new_message_pipe on_can_read_from_socket
perform creates_pipes = do _ ← create_message_pipes; pure tt
perform (sends_invitation fd callback) = do
  _ ← send_invitation_and_get_message_pipe fd callback
  pure tt
perform (accepts_invitation fd callback) = accept_invitation fd callback
perform (sends handle m) = send_message handle m
perform (binds handle receiver runner) =
    bind_receiver_delegate_to_endpoint handle (some receiver) (some runner)
perform (describes handle carrier) = do _ ← populate_endpoint_descriptor handle carrier; pure tt
perform (recovers_existing d) = do _ ← recover_existing_message_pipe d; pure tt
perform (recovers_new d) = do _ ← recover_new_message_pipe d; pure tt
perform (reads incoming) = do _ ← on_can_read_from_socket incoming; pure tt

unfoldable pub run : List Call → M (Unit {0})
unfolding perform
run [] = pure tt
run (c ∷ cs) = do perform c; run cs
