-- ===== src/Api/Handshake.antt =====
-- An invitation between two processes, over their sockets: `OnReceivedInvitation` in the one and
-- `OnReceivedAcceptInvitation` in the other (mage/core/node.cc, mage/core/channel.cc).
use mage.Util.Laws.{length-random_identifier}
use mage.Base.{◌≡◌, refl, sym, ap, ◌∙◌, false, ◌++◌, some, none, length, get_elem?, arith, All}
use mage.Bytes.{Bytes}
use mage.Message.{Name, Message, message_type, size}
use mage.Map.{find, erase, name_key}
use mage.Endpoint.{Endpoint, unbound_and_queueing}
use mage.Process.{Process, Ref, Fd, Callback, done}
use mage.Process.Exact.{step, lift-ok}
use mage.Channel.{
  InvitationParams, AcceptanceParams, invitation_message, acceptance_message, view_invitation,
  view_acceptance,
}
use mage.Channel.Frames.{IsFrame, received, read_message_lem}
use mage.Channel.Params.{view_invitation-invitation_message, view_acceptance-acceptance_message}
use mage.Node.{initial_channel_name}
use mage.Node.Send.All.{IsSendable, TakesAll}
use mage.Node.Invitation.Invitee.{acceptance, connected, on_received_invitation-connected}
use mage.Node.Invitation.Inviter.{notified, flushed, on_received_accept_invitation-flushed}
use mage.Node.Receive.{on_received_message}
use mage.Node.Invitation.{on_received_invitation, on_received_accept_invitation}
use mage.Api.{on_can_read_from_socket}

-- A control message says that it has 85 bytes, and has them.
pub control-IsFrame : (m : Message) → size m ≡ 85 → length m.payload_buffer ≡ 85 → IsFrame m
control-IsFrame m says is = (omega (arith, is), (says ∙ sym is, omega (arith, is)))

-- The handlers read the bytes of a control message only.
received_type : (m : Message) → message_type (received m) ≡ message_type m
unfolding message_type
received_type m = refl

received_invitation : (m : Message) → view_invitation (received m) ≡ view_invitation m
unfolding view_invitation
received_invitation m = refl

received_acceptance : (m : Message) → view_acceptance (received m) ≡ view_acceptance m
unfolding view_acceptance
received_acceptance m = refl

-- A process that waits for an invitation on the channel `fd`, whose socket takes the 85 bytes of the answer.
pub record Waits (s : Process) (p : InvitationParams) (fd : Fd) (callback : Callback) : Type 0 where
  pub initial : find initial_channel_name s.node_channel_map ≡ some fd
  pub unknown : find p.inviter_name (erase initial_channel_name s.node_channel_map) ≡ none
  pub calls : s.finished_accepting_invitation_callback ≡ some callback
  pub own_name : length s.name ≡ 15
  pub takes : s.world.write s.sent fd (acceptance_message (acceptance s p)).payload_buffer ≡ 85

-- The names of an invitation have 15 bytes.
pub record IsNamed (p : InvitationParams) : Type 0 where
  pub inviter : length p.inviter_name ≡ 15
  pub temporary : length p.temporary_remote_node_name ≡ 15
  pub intended : length p.intended_endpoint_peer_name ≡ 15

-- A frame that a handler takes to a state.
on_can_read-frame :
    (s t : Process) (m : Message) (rest : Bytes)
    → IsFrame m
    → on_received_message (received m) s ≡ done tt t
    → on_can_read_from_socket (m.payload_buffer ++ rest) s ≡ done rest t
unfolding on_can_read_from_socket
on_can_read-frame s t m rest frame handled =
    step _ (lift-ok s (read_message_lem m rest frame)) (step _ handled refl)

on_received_message-invitation :
    (s t : Process) (m : Message)
    → message_type m ≡ 0
    → on_received_invitation m s ≡ done tt t
    → on_received_message m s ≡ done tt t
unfolding on_received_message
on_received_message-invitation s t m typed handled = rw typed handled

on_received_message-acceptance :
    (s t : Process) (m : Message)
    → message_type m ≡ 1
    → on_received_accept_invitation m s ≡ done tt t
    → on_received_message m s ≡ done tt t
unfolding on_received_message
on_received_message-acceptance s t m typed handled = rw typed handled

pub on_can_read-invitation :
    (s : Process) (p : InvitationParams) (fd : Fd) (callback : Callback) (rest : Bytes)
    → IsNamed p
    → Waits s p fd callback
    → on_can_read_from_socket ((invitation_message p).payload_buffer ++ rest) s
      ≡ done rest (connected s p fd callback)
on_can_read-invitation s p fd callback rest n w =
    let m = invitation_message p in
    let (views, typed, says, is) =
      view_invitation-invitation_message p n.inviter n.temporary n.intended in
    on_can_read-frame s (connected s p fd callback) m rest (control-IsFrame m says is) (
      on_received_message-invitation s (connected s p fd callback) (received m)
        (received_type m ∙ typed)
        (on_received_invitation-connected s (received m) p fd callback
          (record {
            viewed = received_invitation m ∙ views;
            initial = w.initial;
            unknown = w.unknown;
            calls = w.calls;
            own_name = w.own_name;
            temporary_name = n.temporary;
          })
          w.takes))

-- The other process has reserved the endpoint `e` at `r` for the invitation, on the channel `fd`. Messages
-- without endpoints, each of which says its size, may wait there; the socket takes every buffer whole; and
-- the accepting node is not known yet.
pub record Reserves (s : Process) (p : InvitationParams) (actual_node_name : Name) (r : Ref)
    (e : Endpoint) (fd : Fd) : Type 0 where
  pub pending : find p.temporary_remote_node_name s.pending_invitations ≡ some r
  pub there : get_elem? s.heap r ≡ some e
  pub registered : find e.name s.local_endpoints ≡ some r
  pub queueing : e.state ≡ unbound_and_queueing
  pub unserved : e.delegate ≡ none
  pub free : e.lock ≡ false
  pub channel : find p.temporary_remote_node_name s.node_channel_map ≡ some fd
  pub unknown : find actual_node_name (erase p.temporary_remote_node_name s.node_channel_map) ≡ none
  pub sendable : All IsSendable e.incoming_message_queue
  pub takes : TakesAll s fd

on_can_read-acceptance :
    (s : Process) (p : InvitationParams) (q : AcceptanceParams) (r : Ref) (e : Endpoint) (fd : Fd)
    (rest : Bytes)
    → q.temporary_remote_node_name ≡ p.temporary_remote_node_name
    → IsNamed p
    → length q.actual_node_name ≡ 15
    → length q.accept_invitation_endpoint_name ≡ 15
    → Reserves s p q.actual_node_name r e fd
    → on_can_read_from_socket ((acceptance_message q).payload_buffer ++ rest) s
      ≡ done rest (notified s.remote_has_accepted_invitation_callback (flushed s q r e fd))
on_can_read-acceptance s p q r e fd rest same n actual accepting v =
    let m = acceptance_message q in
    let t = notified s.remote_has_accepted_invitation_callback (flushed s q r e fd) in
    let (views, typed, says, is) =
      view_acceptance-acceptance_message q (ap length same ∙ n.temporary) actual accepting in
    on_can_read-frame s t m rest (control-IsFrame m says is) (
      on_received_message-acceptance s t (received m) (received_type m ∙ typed) (
        on_received_accept_invitation-flushed s (received m) q r e fd (record {
          viewed = received_acceptance m ∙ views;
          pending = ap (λ n. find n s.pending_invitations) same ∙ v.pending;
          there = v.there;
          registered = v.registered;
          queueing = v.queueing;
          unserved = v.unserved;
          free = v.free;
          channel = ap (λ n. find n s.node_channel_map) same ∙ v.channel;
          unknown = ap (λ n. find q.actual_node_name (erase n s.node_channel_map)) same ∙ v.unknown;
          named = accepting;
          sendable = v.sendable;
          takes = v.takes;
        })))

-- Process `a` has reserved an endpoint for an invitation whose names have 15 bytes, and process `b` waits for
-- one. The bytes of the invitation, in front of any bytes on the socket of `b`, make `b` `connected`: it
-- answers, and posts its callback with the handle of its new endpoint, whose peer is the invitation's. The
-- bytes of this answer, in front of any bytes on the socket of `a`, make `a` `flushed` and `notified`: its
-- reserved endpoint is a proxy for the new endpoint of `b`, and all that waited there is written to `b` in
-- order, retargeted to that endpoint. Both processes read just these bytes.
pub invitation_connects :
    (a b : Process) (p : InvitationParams) (r : Ref) (e : Endpoint) (fd_a fd_b : Fd)
    (callback : Callback) (rest_a rest_b : Bytes)
    → IsNamed p
    → Waits b p fd_b callback
    → Reserves a p b.name r e fd_a
    → (on_can_read_from_socket ((invitation_message p).payload_buffer ++ rest_b) b
        ≡ done rest_b (connected b p fd_b callback))
      × (on_can_read_from_socket ((acceptance_message (acceptance b p)).payload_buffer ++ rest_a) a
          ≡ done rest_a (
              notified a.remote_has_accepted_invitation_callback
                (flushed a (acceptance b p) r e fd_a)))
invitation_connects a b p r e fd_a fd_b callback rest_a rest_b n waits reserves = (
  on_can_read-invitation b p fd_b callback rest_b n waits,
  on_can_read-acceptance a p (acceptance b p) r e fd_a rest_a refl n waits.own_name
      (length-random_identifier b.world.draw b.drawn) reserves,
)
