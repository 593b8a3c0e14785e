-- ===== src/Api/Framed.antt =====
-- Whatever call of the API (mage/core/api.cc) or message from a socket (mage/core/channel.cc) reaches a
-- process, it writes nothing but frames.
use mage.Base.{refl, not, All}
use mage.Map.{find, pipe_key}
use mage.Endpoint.{state_eq, unbound_and_proxying}
use mage.Message.{MessagePipe}
use mage.Process.{Process}
use mage.Process.Sound.{Sound, returned, seq, mono, lift_lem, or_fail_lem, require_lem}
use mage.Process.Heap.{fresh_identifier}
use mage.Process.Laws.{deref_lem}
use mage.Process.Framed.{IsSized, HoldsSized, Framed, Framed-trans}
use mage.Channel.{read_message}
use mage.Core.{populate_endpoint_descriptor, endpoint_of_handle}
use mage.Core.Framed.{unwritten, bind_receiver-Framed}
use mage.Node.Framed.{node_send_message-Framed}
use mage.Node.Framed.Sized.{read_message-IsSized}
use mage.Node.Framed.Calls.{
  create_pipes-Framed, node_send_invitation-Framed, node_accept_invitation-Framed,
}
use mage.Node.Framed.Handlers.{received_message-Framed}
use mage.Core.Framed.{recover_existing-Framed, recover_new-Framed}
use mage.Api.{
  create_message_pipes, send_invitation_and_get_message_pipe, accept_invitation, send_message,
  on_can_read_from_socket, Call, creates_pipes, sends_invitation, accepts_invitation, sends, binds,
  describes, recovers_existing, recovers_new, reads, perform,
}
use mage.Api.History.{require_handle_lem}

-- What a program gives to `SendMessage` has a header, and an `int` can hold its size.
abbrev pub SendsSized : Call → Type 0
SendsSized creates_pipes = Unit {0}
SendsSized (sends_invitation fd callback) = Unit {0}
SendsSized (accepts_invitation fd callback) = Unit {0}
SendsSized (sends handle m) = IsSized m
SendsSized (binds handle receiver runner) = Unit {0}
SendsSized (describes handle carrier) = Unit {0}
SendsSized (recovers_existing d) = Unit {0}
SendsSized (recovers_new d) = Unit {0}
SendsSized (reads incoming) = Unit {0}

describe-Framed :
    (handle carrier : MessagePipe) (s : Process)
    → All HoldsSized s.heap
    → Sound (λ _ t. Framed s t) (populate_endpoint_descriptor handle carrier s)
unfolding populate_endpoint_descriptor endpoint_of_handle fresh_identifier
describe-Framed handle carrier s h = seq (
    or_fail_lem s (find carrier s.handle_table) _ λ r found. seq (
      deref_lem s r λ e there. seq (
        require_lem s (not (state_eq e.state unbound_and_proxying)) λ _. seq (
          or_fail_lem s (find handle s.handle_table) _
            λ r' found'. seq (deref_lem s r' λ e' there'. returned (unwritten s _ h refl refl))))))

pub perform-Framed :
    (c : Call) (s : Process)
    → All HoldsSized s.heap
    → SendsSized c
    → Sound (λ _ t. Framed s t) (perform c s)
unfolding perform create_message_pipes send_invitation_and_get_message_pipe accept_invitation
    send_message on_can_read_from_socket
perform-Framed creates_pipes s h sized = seq (
    seq (
      mono (create_pipes-Framed s h) λ ((h₁, r₁), (h₂, r₂)) t a.
        seq (require_handle_lem t h₁ (seq (require_handle_lem t h₂ (returned (returned a)))))))
perform-Framed (sends_invitation fd callback) s h sized =
    let s' : Process = record s { remote_has_accepted_invitation_callback = callback } in
    seq (
      mono (node_send_invitation-Framed fd s' h)
        λ _ t a. returned (Framed-trans s s' t (unwritten s s' h refl refl) a))
perform-Framed (accepts_invitation fd callback) s h sized =
    let s' : Process = record s { finished_accepting_invitation_callback = callback } in
    mono (node_accept_invitation-Framed fd s' h)
      λ _ t a. Framed-trans s s' t (unwritten s s' h refl refl) a
perform-Framed (sends handle m) s h sized =
    seq (
      or_fail_lem s (find handle s.handle_table) _
        λ r found. node_send_message-Framed r m s h sized)
perform-Framed (binds handle receiver runner) s h sized =
    bind_receiver-Framed s handle receiver runner h
perform-Framed (describes handle carrier) s h sized =
    seq (mono (describe-Framed handle carrier s h) λ _ t a. returned a)
perform-Framed (recovers_existing d) s h sized =
    seq (mono (recover_existing-Framed d s h) λ _ t a. returned a)
perform-Framed (recovers_new d) s h sized =
    seq (mono (recover_new-Framed d s h) λ _ t a. returned a)
perform-Framed (reads incoming) s h sized = seq (
    seq (
      lift_lem s (read_message incoming) λ (m, rest) read. seq (
        mono (received_message-Framed m s h (read_message-IsSized incoming m rest read))
          λ _ t a. returned (returned a))))
