-- ===== src/Api/Early.antt =====
-- Messages that an inviter sends before its invitation is accepted (mage/core/api.cc, mage/core/node.cc).
use mage.Util.Laws.{length-random_identifier}
use mage.Base.{◌+◌, ◌≡◌, ◌≢◌, refl, ◌∙◌, List, [], ◌∷◌, ◌++◌, map, none, length-append, arith, All}
use mage.Bytes.{Bytes}
use mage.Message.{Message, identifier_size}
use mage.Map.{find, name_key}
use mage.Map.Laws.{find-insert_self, find-insert_ne, find-erase-insert}
use mage.Endpoint.{Endpoint}
use mage.Endpoint.Valid.{new_endpoint-IsValid}
use mage.Process.{Process, Fd, Callback, done}
use mage.Process.Exact.{step, there-set}
use mage.Channel.{invitation_message, acceptance_message}
use mage.Node.Pipes.{
  created, first, second, first_handle, first_ref, second_ref, second_name, create_pipes-Entangled,
}
use mage.Node.Send.{retarget}
use mage.Node.Send.All.{IsSendable, retarget-IsSendable, TakesAll, on_channel}
use mage.Node.Invitation.Invited.{
  MayInvite, invitation, temporary_name, invited, node_send_invitation-invited,
}
use mage.Node.Invitation.Invitee.{acceptance, accepting_name, connected}
use mage.Node.Invitation.Inviter.{flushed, notified}
use mage.Api.{
  send_invitation_and_get_message_pipe, sends_invitation, sends, perform, run,
  on_can_read_from_socket,
}
use mage.Api.Pipe.{IsPlain, LeadsTo, with_queued, with_queued_at, run-queues}
use mage.Api.Delivery.{run-append}
use mage.Api.Handshake.{IsNamed, Waits, Reserves, invitation_connects}

-- An inviter may send an invitation over `fd`, knows neither itself nor the invitee as another node, and its
-- socket takes every buffer whole.
pub record Invites (a b : Process) (fd : Fd) : Type 0 where
  pub may : MayInvite a fd
  pub not_pending : find (temporary_name a) a.pending_invitations ≡ none
  pub other_name : temporary_name a ≢ a.name
  pub not_itself : find a.name a.node_channel_map ≡ none
  pub not_invitee : find b.name a.node_channel_map ≡ none
  pub takes : TakesAll a fd

run-invites :
    (a : Process) (fd : Fd)
    → MayInvite a fd
    → run (sends_invitation fd a.remote_has_accepted_invitation_callback ∷ []) a
      ≡ done tt (invited a fd)
unfolding run perform send_invitation_and_get_message_pipe
run-invites a fd may = step _ (step _ (node_send_invitation-invited a fd may) refl) refl

-- The first handle leads to the endpoint that is reserved.
invited-LeadsTo :
    (a b : Process) (fd : Fd)
    → Invites a b fd
    → LeadsTo (invited a fd) (first_handle a) (second_ref a) (second a)
invited-LeadsTo a b fd i =
    let (made, entangled) = create_pipes-Entangled a i.may.fresh in
    record {
      sender = first_ref a;
      sending = first a;
      handled = entangled.handle_1;
      there = entangled.there_1;
      other = λ h. absurd (omega (arith, h, length-append a.heap (first a ∷ [])));
      target = refl;
      named = length-random_identifier a.world.draw (a.drawn + identifier_size);
      found = entangled.registered_2;
      apart =
          find-insert_ne (temporary_name a) fd a.node_channel_map i.may.unknown a.name i.other_name
          ∙ i.not_itself;
      peer = entangled.there_2;
      valid = new_endpoint-IsValid _ _;
      queueing = refl;
      free = refl;
    }

-- The inviter with messages that wait in the reserved endpoint.
abbrev pub early : Process → Fd → List Message → Process
early a fd ms =
    with_queued_at (invited a fd) (second_ref a) (second a) (retarget (second_name a) ms)

early-Reserves :
    (a b : Process) (fd : Fd) (ms : List Message)
    → Invites a b fd
    → All IsSendable ms
    → Reserves
        (early a fd ms)
        (invitation a)
        b.name
        (second_ref a)
        (with_queued (second a) (retarget (second_name a) ms))
        fd
early-Reserves a b fd ms i sendable =
    let (made, entangled) = create_pipes-Entangled a i.may.fresh in
    record {
      pending =
          find-insert_self (temporary_name a) (second_ref a) a.pending_invitations i.not_pending;
      there = there-set (created a).heap (second_ref a) _ entangled.there_2;
      registered = entangled.registered_2;
      queueing = refl;
      unserved = refl;
      free = refl;
      channel = find-insert_self (temporary_name a) fd a.node_channel_map i.may.unknown;
      unknown =
          find-erase-insert (temporary_name a) fd a.node_channel_map i.may.unknown b.name
            i.not_invitee;
      sendable =
          retarget-IsSendable (second_name a) ms
            (length-random_identifier a.world.draw (a.drawn + identifier_size)) sendable;
      takes = i.takes;
    }

-- Process `a` is one that `Invites`: its next handles and names are not in use, it knows neither itself
-- nor `b` as another node, and its socket takes every buffer whole. It invites over `fd_a`, with the
-- callback that it has, and sends user messages without endpoints, each of which says its size, on the
-- handle that it gets. Process `b` is one that `Waits` for an invitation on `fd_b`. All of this returns in
-- `a`, and writes the invitation only. Its bytes, in front of any bytes on the socket of `b`, connect `b`;
-- the bytes of the answer, in front of any bytes on the socket of `a`, are read in `a`, which then writes
-- the messages that it sent, each once and in their order, retargeted to the new endpoint of `b`.
pub early_messages_leave :
    (a b : Process) (ms : List Message) (fd_a fd_b : Fd) (callback : Callback)
    (rest_a rest_b : Bytes)
    → Invites a b fd_a
    → Waits b (invitation a) fd_b callback
    → All IsPlain ms
    → All IsSendable ms
    → let r = second_ref a in
      let e = with_queued (second a) (retarget (second_name a) ms) in
      let answer = acceptance b (invitation a) in
      (run
          (sends_invitation fd_a a.remote_has_accepted_invitation_callback
            ∷ map (sends (first_handle a)) ms)
          a
        ≡ done tt (early a fd_a ms))
      × ((early a fd_a ms).sent
          ≡ a.sent ++ (fd_a, (invitation_message (invitation a)).payload_buffer) ∷ [])
      × (on_can_read_from_socket ((invitation_message (invitation a)).payload_buffer ++ rest_b) b
          ≡ done rest_b (connected b (invitation a) fd_b callback))
      × (on_can_read_from_socket
            ((acceptance_message answer).payload_buffer ++ rest_a)
            (early a fd_a ms)
          ≡ done rest_a (
              notified a.remote_has_accepted_invitation_callback
                (flushed (early a fd_a ms) answer r e fd_a)))
      × ((flushed (early a fd_a ms) answer r e fd_a).sent
          ≡ (early a fd_a ms).sent
            ++ on_channel fd_a (retarget (accepting_name b) (retarget (second_name a) ms)))
early_messages_leave a b ms fd_a fd_b callback rest_a rest_b i waits plain sendable =
    let e : Endpoint = with_queued (second a) (retarget (second_name a) ms) in
    let named : IsNamed (invitation a) = record {
      inviter = i.may.own_name;
      temporary = length-random_identifier a.world.draw _;
      intended = length-random_identifier a.world.draw _;
    } in
    let (connects, flushes) =
      invitation_connects (early a fd_a ms) b (invitation a) (second_ref a) e fd_a fd_b callback
        rest_a rest_b named waits (early-Reserves a b fd_a ms i sendable) in
    (
      run-append (sends_invitation fd_a a.remote_has_accepted_invitation_callback ∷ []) _ a
            (invited a fd_a) (run-invites a fd_a i.may)
          ∙ run-queues ms (invited a fd_a) (first_handle a) (second_ref a) (second a)
              (invited-LeadsTo a b fd_a i) plain,
      refl,
      connects,
      flushes,
      refl,
    )
