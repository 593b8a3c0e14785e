-- ===== src/Node/Framed/Calls.antt =====
-- The calls that mage/core/node.cc takes from its own process write nothing but frames.
use mathlib.Core.List.{append-nil, append_assoc}
use mage.Util.{random_identifier}
use mage.Base.{
  ◌+◌, ◌%◌, ◌^◌, ◌≡◌, refl, sym, ap, ◌∙◌, List, [], ◌∷◌, ◌++◌, not, length, All, All-append,
}
use mage.Message.{Name, MessagePipe, identifier_size}
use mage.Map.{name_key}
use mage.Endpoint.{Endpoint, new_endpoint}
use mage.Process.{Process, Fd}
use mage.Process.Sound.{Sound, returned, seq, mono, require_lem}
use mage.Process.Heap.{allocate_endpoint, fresh_identifier}
use mage.Process.Laws.{deref_lem}
use mage.Process.Framed.{HoldsSized, Framed, send_on_channel-Framed}
use mage.Channel.{invitation_message, InvitationParams}
use mage.Core.{get_next_message_pipe}
use mage.Core.Locks.{register_local_lem}
use mage.Core.Framed.{unwritten}
use mage.Node.{
  initialize_and_entangle_endpoints, create_message_pipes_and_get_endpoints, initial_channel_name,
}
use mage.Node.Invariant.{require_registered_lem, insert_channel_lem}
use mage.Node.Send.Drain.{channel_of_lem}
use mage.Node.Invitation.{node_send_invitation_and_get_message_pipe, node_accept_invitation}
use mage.Node.Framed.Sized.{invitation_message-IsSized}

pub create_pipes-Framed :
    (s : Process)
    → All HoldsSized s.heap
    → Sound (λ _ t. Framed s t) (create_message_pipes_and_get_endpoints s)
unfolding create_message_pipes_and_get_endpoints initialize_and_entangle_endpoints fresh_identifier
    allocate_endpoint get_next_message_pipe
create_pipes-Framed s h =
    let n₁ : Name = random_identifier s.world.draw s.drawn in
    let n₂ : Name = random_identifier s.world.draw (s.drawn + identifier_size) in
    let e₁ : Endpoint = new_endpoint n₁ (record { node_name = s.name; endpoint_name = n₂ }) in
    let one : List Endpoint = s.heap ++ e₁ ∷ [] in
    let h₁ : MessagePipe = s.next_available_handle in
    seq (
      register_local_lem _ h₁ (length s.heap) λ handles locals. seq (
        register_local_lem _ ((h₁ + 1) % 2 ^ 32) (length one) λ handles' locals'. seq (
          require_registered_lem _ (length s.heap) (
            seq (
              require_registered_lem _ (length one) (
                returned (record {
                  queues =
                      All-append HoldsSized one _ (All-append HoldsSized s.heap _ h (tt, tt))
                        (tt, tt);
                  written = [];
                  sent = sym (append-nil s.sent);
                  frames = tt;
                })))))))

-- Steps before the state `t'` wrote nothing.
pub Framed-silent : (s t t' u : Process) → Framed s t → t'.sent ≡ t.sent → Framed t' u → Framed s u
Framed-silent s t t' u a silent b = record {
  queues = b.queues;
  written = a.written ++ b.written;
  sent =
      b.sent ∙ ap (λ l. l ++ b.written) (silent ∙ a.sent) ∙ append_assoc s.sent a.written b.written;
  frames = All-append _ a.written b.written a.frames b.frames;
}

pub node_send_invitation-Framed :
    (fd : Fd) (s : Process)
    → All HoldsSized s.heap
    → Sound (λ _ t. Framed s t) (node_send_invitation_and_get_message_pipe fd s)
unfolding node_send_invitation_and_get_message_pipe fresh_identifier
node_send_invitation-Framed fd s h = seq (
    mono (create_pipes-Framed s h) λ ((h₁, r₁), (h₂, r₂)) t a.
      let temporary : Name = random_identifier t.world.draw t.drawn in
      seq (
        insert_channel_lem (record t { drawn = t.drawn + identifier_size }) temporary fd
          λ channels watched. seq (
            channel_of_lem _ temporary λ channel found. seq (
              deref_lem _ r₂ λ remote there.
                let invitation : InvitationParams = record {
                  inviter_name = t.name;
                  temporary_remote_node_name = temporary;
                  intended_endpoint_peer_name = remote.peer_address.endpoint_name;
                } in
                seq (
                  mono
                    (send_on_channel-Framed _ channel (invitation_message invitation) a.queues
                      (invitation_message-IsSized invitation))
                    λ _ u b. returned (Framed-silent s t _ u a refl b))))))

pub node_accept_invitation-Framed :
    (fd : Fd) (s : Process)
    → All HoldsSized s.heap
    → Sound (λ _ t. Framed s t) (node_accept_invitation fd s)
unfolding node_accept_invitation
node_accept_invitation-Framed fd s h = seq (
    require_lem s (not s.has_accepted_invitation) λ _. seq (
      insert_channel_lem s initial_channel_name fd λ channels watched. seq (
        channel_of_lem _ initial_channel_name
          λ channel found. returned (unwritten s _ h refl refl))))
