-- ===== src/Api/History.antt =====
-- Every history of calls of the API and of messages from sockets (mage/core/api.cc, channel.cc).
use mage.Base.{◌≡◌, List, [], ◌∷◌, Option, not}
use mage.Message.{MessagePipe}
use mage.Map.{find, pipe_key}
use mage.Endpoint.{state_eq, unbound_and_proxying}
use mage.Process.{Process, World, Callback, done}
use mage.Process.Sound.{Sound, returned, seq, mono, lift_lem, or_fail_lem, require_lem, at_done}
use mage.Process.Heap.{fresh_identifier}
use mage.Process.Laws.{deref_lem}
use mage.Process.Invariant.{Inv, After, After-refl, After-trans, Grows-refl}
use mage.Channel.{read_message}
use mage.Core.{is_none, populate_endpoint_descriptor, endpoint_of_handle}
use mage.Core.Invariant.{bind_receiver-After}
use mage.Node.Invariant.Inviting.{
  create_pipes-After, node_send_invitation-After, node_accept_invitation-After,
}
use mage.Node.Invariant.Sending.{node_send_message-After}
use mage.Node.Invariant.Receiving.{on_received_message-After}
use mage.Core.Invariant.{recover_existing-After, recover_new-After}
use mage.Api.{
  new_process, require_handle, create_message_pipes, send_invitation_and_get_message_pipe,
  accept_invitation, send_message, on_can_read_from_socket, Call, creates_pipes, sends_invitation,
  accepts_invitation, sends, binds, describes, recovers_existing, recovers_new, reads, perform, run,
}

-- A process that was just made has good tables.
pub new_process-Inv : (world : World) → Inv (new_process world)
unfolding new_process
new_process-Inv world = record { registered = tt; handled = tt; invited = tt; valid = tt }

pub require_handle_lem :
    {Q : Unit {0} → Process → Type 0} (s : Process) (handle : MessagePipe)
    → Q tt s
    → Sound Q (require_handle handle s)
unfolding require_handle
require_handle_lem s handle h = require_lem s (not (is_none (find handle s.handle_table))) λ _. h

-- Describing an endpoint changes nothing but the draws.
describe-After :
    (handle carrier : MessagePipe) (s : Process)
    → Inv s
    → Sound (λ _ t. After s t) (populate_endpoint_descriptor handle carrier s)
unfolding populate_endpoint_descriptor endpoint_of_handle fresh_identifier
describe-After handle carrier s i = seq (
    or_fail_lem s (find carrier s.handle_table) _ λ r found. seq (
      deref_lem s r λ e there. seq (
        require_lem s (not (state_eq e.state unbound_and_proxying)) λ _. seq (
          or_fail_lem s (find handle s.handle_table) _
            λ r' found'. seq (deref_lem s r' λ e' there'. returned (i, Grows-refl s.heap))))))

pub perform-After : (c : Call) (s : Process) → Inv s → Sound (λ _ t. After s t) (perform c s)
unfolding perform create_message_pipes send_invitation_and_get_message_pipe accept_invitation
    send_message on_can_read_from_socket
perform-After creates_pipes s i = seq (
    seq (
      mono (create_pipes-After s i) λ ((h₁, r₁), (h₂, r₂)) t (a, leads).
        seq (require_handle_lem t h₁ (seq (require_handle_lem t h₂ (returned (returned a)))))))
perform-After (sends_invitation fd callback) s i =
    let t₀ : Process = record s { remote_has_accepted_invitation_callback = callback } in
    seq (mono (node_send_invitation-After fd t₀ (kept callback)) λ _ t a. returned (a.0, a.1))
  where
    kept :
        (callback : Option Callback)
        → Inv (record s { remote_has_accepted_invitation_callback = callback })
    kept callback = record {
      registered = i.registered;
      handled = i.handled;
      invited = i.invited;
      valid = i.valid;
    }
perform-After (accepts_invitation fd callback) s i =
    let t₀ : Process = record s { finished_accepting_invitation_callback = callback } in
    mono (node_accept_invitation-After fd t₀ (kept callback)) λ _ t a. (a.0, a.1)
  where
    kept :
        (callback : Option Callback)
        → Inv (record s { finished_accepting_invitation_callback = callback })
    kept callback = record {
      registered = i.registered;
      handled = i.handled;
      invited = i.invited;
      valid = i.valid;
    }
perform-After (sends handle m) s i =
    seq (or_fail_lem s (find handle s.handle_table) _ λ r found. node_send_message-After r m s i)
perform-After (binds handle receiver runner) s i = bind_receiver-After s handle receiver runner i
perform-After (describes handle carrier) s i =
    seq (mono (describe-After handle carrier s i) λ _ t a. returned a)
perform-After (recovers_existing d) s i =
    seq (mono (recover_existing-After d s i) λ _ t a. returned a)
perform-After (recovers_new d) s i = seq (mono (recover_new-After s d i) λ _ t a. returned a)
perform-After (reads incoming) s i = seq (
    seq (
      lift_lem s (read_message incoming) λ (m, rest) read.
        seq (mono (on_received_message-After m s i) λ _ t a. returned (returned a))))

run-After : (cs : List Call) (s : Process) → Inv s → Sound (λ _ t. After s t) (run cs s)
unfolding run
run-After [] s i = returned (After-refl s i)
run-After (c ∷ cs) s i =
    seq
      (mono (perform-After c s i) λ _ t a. mono (run-After cs t a.0) λ _ u b. After-trans s t u a b)

-- For every world and every list of calls, if the calls, performed one after the other from a process that
-- was just made, return, then in the state that they leave: every registered name leads to an endpoint of
-- that name; every handle and every pending invitation leads to an endpoint; and every endpoint is valid,
-- which is to say that it has a delegate and a task runner just if it is bound, and queues nothing if it
-- is bound.
pub run-Inv :
    (world : World) (cs : List Call) (s : Process) → run cs (new_process world) ≡ done tt s → Inv s
run-Inv world cs s e = (at_done (run-After cs (new_process world) (new_process-Inv world)) e).0
