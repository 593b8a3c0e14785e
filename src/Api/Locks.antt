-- ===== src/Api/Locks.antt =====
-- The mutexes of endpoints over every history of calls of the API and of messages from sockets
-- (mage/core/api.cc, channel.cc, node.cc).
use mage.Base.{◌≡◌, List, [], ◌∷◌, not, All}
use mage.Map.{find, pipe_key}
use mage.Endpoint.{state_eq, unbound_and_proxying}
use mage.Message.{MessagePipe}
use mage.Process.{Process, World, done}
use mage.Process.Sound.{Sound, returned, seq, mono, lift_lem, or_fail_lem, require_lem, at_done}
use mage.Process.Heap.{fresh_identifier}
use mage.Process.Laws.{deref_lem}
use mage.Process.Locks.{Balanced, Balanced-refl, Balanced-trans, IsUnlocked, All-IsUnlocked}
use mage.Channel.{read_message}
use mage.Core.{populate_endpoint_descriptor, endpoint_of_handle}
use mage.Core.Locks.{bind_receiver-Balanced}
use mage.Node.Locks.{node_send_message-Balanced}
use mage.Node.Locks.Handlers.{
  create_pipes-Balanced, node_send_invitation-Balanced, node_accept_invitation-Balanced,
  received_message-Balanced,
}
use mage.Core.Locks.{recover_existing-Balanced, recover_new-Balanced}
use mage.Api.{
  new_process, create_message_pipes, send_invitation_and_get_message_pipe, accept_invitation,
  send_message, on_can_read_from_socket, Call, creates_pipes, sends_invitation, accepts_invitation,
  sends, binds, describes, recovers_existing, recovers_new, reads, perform, run,
}
use mage.Api.History.{require_handle_lem}

describe-Balanced :
    (handle carrier : MessagePipe) (s : Process)
    → Sound (λ _ t. Balanced s.heap t.heap) (populate_endpoint_descriptor handle carrier s)
unfolding populate_endpoint_descriptor endpoint_of_handle fresh_identifier
describe-Balanced handle carrier s = seq (
    or_fail_lem s (find carrier s.handle_table) _ λ r found. seq (
      deref_lem s r λ e there. seq (
        require_lem s (not (state_eq e.state unbound_and_proxying)) λ _. seq (
          or_fail_lem s (find handle s.handle_table) _
            λ r' found'. seq (deref_lem s r' λ e' there'. returned (Balanced-refl s.heap))))))

pub perform-Balanced :
    (c : Call) (s : Process) → Sound (λ _ t. Balanced s.heap t.heap) (perform c s)
unfolding perform create_message_pipes send_invitation_and_get_message_pipe accept_invitation
    send_message on_can_read_from_socket
perform-Balanced creates_pipes s = seq (
    seq (
      mono (create_pipes-Balanced s) λ ((h₁, r₁), (h₂, r₂)) t a.
        seq (require_handle_lem t h₁ (seq (require_handle_lem t h₂ (returned (returned a)))))))
perform-Balanced (sends_invitation fd callback) s = seq (
    mono
      (node_send_invitation-Balanced fd
        (record s { remote_has_accepted_invitation_callback = callback }))
      λ _ t a. returned a)
perform-Balanced (accepts_invitation fd callback) s =
    node_accept_invitation-Balanced fd
      (record s { finished_accepting_invitation_callback = callback })
perform-Balanced (sends handle m) s =
    seq (or_fail_lem s (find handle s.handle_table) _ λ r found. node_send_message-Balanced r m s)
perform-Balanced (binds handle receiver runner) s = bind_receiver-Balanced s handle receiver runner
perform-Balanced (describes handle carrier) s =
    seq (mono (describe-Balanced handle carrier s) λ _ t a. returned a)
perform-Balanced (recovers_existing d) s =
    seq (mono (recover_existing-Balanced d s) λ _ t a. returned a)
perform-Balanced (recovers_new d) s = seq (mono (recover_new-Balanced d s) λ _ t a. returned a)
perform-Balanced (reads incoming) s = seq (
    seq (
      lift_lem s (read_message incoming) λ (m, rest) read.
        seq (mono (received_message-Balanced m s) λ _ t a. returned (returned a))))

run-Balanced : (cs : List Call) (s : Process) → Sound (λ _ t. Balanced s.heap t.heap) (run cs s)
unfolding run
run-Balanced [] s = returned (Balanced-refl s.heap)
run-Balanced (c ∷ cs) s = seq (
    mono (perform-Balanced c s)
      λ _ t a. mono (run-Balanced cs t) λ _ u b. Balanced-trans s.heap t.heap u.heap a b)

-- For every world and every list of calls, if the calls, performed one after the other from a process
-- that was just made, return, then no endpoint is locked: every handler, with all that it calls,
-- releases each mutex of an endpoint that it acquired.
pub run-IsUnlocked :
    (world : World) (cs : List Call) (s : Process)
    → run cs (new_process world) ≡ done tt s
    → All IsUnlocked s.heap
unfolding new_process
run-IsUnlocked world cs s ran =
    let (n, e) = at_done (run-Balanced cs (new_process world)) ran in All-IsUnlocked s.heap n e
