-- ===== src/Api/Live.antt =====
-- Every call of the API (mage/core/api.cc) and every message from a socket (mage/core/channel.cc) comes to
-- an end, after any history.
use mage.Base.{◌≡◌, ◌≢◌, List, All, arith, ℕ, take, drop, some}
use mage.Base.Result.{ok, crash, deadlock}
use mage.Bytes.{Bytes, read_int}
use mage.Message.{MessagePipe, Message, message_type}
use mage.Map.{find, pipe_key}
use mage.Process.{Process, World, done, crashed, out_of_fuel}
use mage.Process.Locks.{IsUnlocked}
use mage.Process.Live.{
  Ends, ends, Ends-no_deadlock, then_live, after, lift_live, or_fail_live, require_live,
  check_failed_lem,
}
use mage.Channel.{read_message, receive_body}
use mage.Core.Live.{recover_existing-Ends, recover_new-Ends, populate-Ends, bind_receiver-Ends}
use mage.Node.Live.{create_pipes-Ends, node_send_invitation-Ends, node_accept_invitation-Ends}
use mage.Node.Live.Sending.{CarriesNothing, IsTargetNamed, node_send_message-Ends}
use mage.Node.Live.Handlers.{HoldsNothing, received_message-Ends}
use mage.Api.{
  new_process, require_handle, create_message_pipes, send_invitation_and_get_message_pipe,
  accept_invitation, send_message, on_can_read_from_socket, Call, creates_pipes, sends_invitation,
  accepts_invitation, sends, binds, describes, recovers_existing, recovers_new, reads, perform, run,
}
use mage.Api.Locks.{run-IsUnlocked}

-- Two kinds of calls may flush queues: those that send, and the reading of an acceptance. What they send
-- carries no endpoints, and proxies forward to names of 15 bytes.
abbrev pub IsUnhindered : Process → Call → Type 0
IsUnhindered s creates_pipes = Unit {0}
IsUnhindered s (sends_invitation fd callback) = Unit {0}
IsUnhindered s (accepts_invitation fd callback) = Unit {0}
IsUnhindered s (sends handle m) = CarriesNothing m × All IsTargetNamed s.heap
IsUnhindered s (binds handle receiver runner) = Unit {0}
IsUnhindered s (describes handle carrier) = Unit {0}
IsUnhindered s (recovers_existing d) = Unit {0}
IsUnhindered s (recovers_new d) = Unit {0}
IsUnhindered s (reads incoming) =
    (m : Message) (rest : Bytes)
    → read_message incoming ≡ ok (m, rest)
    → message_type m ≡ 1
    → All HoldsNothing s.heap

receive_body_ends :
    (header rest : Bytes) (total : ℕ) → receive_body header rest total ≢ crash deadlock
unfolding receive_body
receive_body_ends header rest total h = ground arith

read_message_ends : (incoming : Bytes) → read_message incoming ≢ crash deadlock
unfolding read_message
read_message_ends incoming h = ground (
  arith,
  receive_body_ends (take 40 incoming) (drop 40 incoming) (read_int (take 40 incoming) 0 4),
)

require_handle-Ends : (s : Process) (handle : MessagePipe) → Ends (require_handle handle s)
unfolding require_handle
require_handle-Ends s handle = require_live s _ tt

perform-Ends :
    (c : Call) (s : Process) → All IsUnlocked s.heap → IsUnhindered s c → Ends (perform c s)
unfolding perform create_message_pipes send_invitation_and_get_message_pipe accept_invitation
    send_message on_can_read_from_socket
perform-Ends creates_pipes s free u =
    after
      (after (create_pipes-Ends s) λ ((h₁, r₁), (h₂, r₂)) t.
        after (require_handle-Ends t h₁)
          λ _ v. after (require_handle-Ends v h₂) λ _ w. ends {a = (h₁, h₂)})
      λ _ t. ends
perform-Ends (sends_invitation fd callback) s free u =
    after
      (node_send_invitation-Ends fd
        (record s { remote_has_accepted_invitation_callback = callback }))
      λ _ t. ends
perform-Ends (accepts_invitation fd callback) s free u =
    node_accept_invitation-Ends fd (record s { finished_accepting_invitation_callback = callback })
perform-Ends (sends handle m) s free (one, named) = then_live (
    or_fail_live s (find handle s.handle_table) _ check_failed_lem
      λ r found. node_send_message-Ends r m s free named one)
perform-Ends (binds handle receiver runner) s free u =
    bind_receiver-Ends s handle (some receiver) (some runner) free
perform-Ends (describes handle carrier) s free u =
    after (populate-Ends handle carrier s) λ _ t. ends
perform-Ends (recovers_existing d) s free u = after (recover_existing-Ends d s) λ _ t. ends
perform-Ends (recovers_new d) s free u = after (recover_new-Ends d s) λ _ t. ends
perform-Ends (reads incoming) s free holds =
    after
      (then_live (
        lift_live s (read_message incoming) (read_message_ends incoming) λ (m, rest) read.
          after (received_message-Ends m s free (holds m rest read)) λ _ t. ends {a = rest}))
      λ _ t. ends

-- For every world and every list of calls that, performed one after the other from a process that was just
-- made, return: whatever call comes next, it returns, or it stops with an error; it does not wait for the
-- mutex of an endpoint that is held, and no loop of the model lacks fuel. The call may be the reading of
-- any bytes. Only two kinds of calls are restricted, since they may send what is queued: a message that the
-- call sends has a header and carries no endpoints, and every proxy forwards to a name of 15 bytes; and if
-- an acceptance is read, the messages that wait in the endpoints have headers and carry no endpoints.
pub perform_ends :
    (world : World) (cs : List Call) (s : Process) (c : Call)
    → run cs (new_process world) ≡ done tt s
    → IsUnhindered s c
    → (perform c s ≢ crashed deadlock) × (perform c s ≢ out_of_fuel)
perform_ends world cs s c ran unhindered =
    Ends-no_deadlock (perform-Ends c s (run-IsUnlocked world cs s ran) unhindered)
