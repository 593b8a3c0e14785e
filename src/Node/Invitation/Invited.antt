-- ===== src/Node/Invitation/Invited.antt =====
-- `SendInvitationAndGetMessagePipe` of mage/core/node.cc.
use mage.Util.{random_identifier}
use mage.Util.Laws.{length-random_identifier}
use mage.Base.{◌+◌, ◌≡◌, refl, sym, ◌∙◌, [], ◌∷◌, ◌++◌, none, length, arith}
use mage.Message.{Name, identifier_size}
use mage.Map.{find, insert, name_key}
use mage.Map.Laws.{find-insert_self}
use mage.Process.{Process, Fd, done}
use mage.Process.Heap.{fresh_identifier}
use mage.Process.Exact.{step, or_fail-some, deref-there}
use mage.Channel.{InvitationParams, invitation_message, start}
use mage.Channel.Write.{Writes, send_on_channel-Writes}
use mage.Channel.Params.{view_invitation-invitation_message}
use mage.Node.{insert_channel, channel_of}
use mage.Node.Pipes.{IsFresh, created, first_handle, second_ref, first_name, create_pipes-Entangled}
use mage.Node.Invitation.{node_send_invitation_and_get_message_pipe}

-- The name that the inviter gives the node that it does not know yet, and the invitation.
abbrev pub temporary_name : Process → Name
temporary_name s = random_identifier s.world.draw (s.drawn + identifier_size + identifier_size)

abbrev pub invitation : Process → InvitationParams
invitation s = record {
  inviter_name = s.name;
  temporary_remote_node_name = temporary_name s;
  intended_endpoint_peer_name = first_name s;
}

-- The inviter after it sent the invitation.
abbrev pub invited : Process → Fd → Process
invited s fd = record (created s) {
  drawn = s.drawn + identifier_size + identifier_size + identifier_size;
  node_channel_map = insert (temporary_name s) fd s.node_channel_map;
  pending_invitations = insert (temporary_name s) (second_ref s) s.pending_invitations;
  watched = s.watched ++ fd ∷ [];
  sent = s.sent ++ (fd, (invitation_message (invitation s)).payload_buffer) ∷ [];
}

-- The handles and names that are next are not in use, and the socket takes the 85 bytes of the invitation.
pub record MayInvite (s : Process) (fd : Fd) : Type 0 where
  pub fresh : IsFresh s
  pub unknown : find (temporary_name s) s.node_channel_map ≡ none
  pub own_name : length s.name ≡ 15
  pub takes : s.world.write s.sent fd (invitation_message (invitation s)).payload_buffer ≡ 85

invitation-Writes :
    (s t : Process) (fd : Fd)
    → length s.name ≡ 15
    → t.world.write t.sent fd (invitation_message (invitation s)).payload_buffer ≡ 85
    → Writes t fd (invitation_message (invitation s))
invitation-Writes s t fd own takes =
    let (_, _, says, is) =
      view_invitation-invitation_message (invitation s) own
        (length-random_identifier s.world.draw _) (length-random_identifier s.world.draw _) in
    record { sized = says ∙ sym is; small = omega (arith, is); whole = takes ∙ sym is }

insert_channel-fresh :
    (s : Process) (node : Name) (fd : Fd)
    → find node s.node_channel_map ≡ none
    → insert_channel node fd s
      ≡ done tt (record s { node_channel_map = insert node fd s.node_channel_map })
unfolding insert_channel
insert_channel-fresh s node fd unknown = rw unknown refl

-- A process whose next handles and names are not in use, with a name of 15 bytes, invites another over the
-- channel `fd`, whose socket takes the 85 bytes of the invitation. It returns the handle of the first of two
-- new entangled endpoints; the second is reserved under the temporary name; the channel stands under that
-- name, and is watched; and the invitation is written to it, with the names of the inviter and of the first
-- endpoint.
pub node_send_invitation-invited :
    (s : Process) (fd : Fd)
    → MayInvite s fd
    → node_send_invitation_and_get_message_pipe fd s ≡ done (first_handle s) (invited s fd)
unfolding node_send_invitation_and_get_message_pipe fresh_identifier channel_of start
node_send_invitation-invited s fd i =
    let (made, entangled) = create_pipes-Entangled s i.fresh in
    let s₁ : Process = record (created s) {
      drawn = s.drawn + identifier_size + identifier_size + identifier_size;
    } in
    let s₂ : Process = record s₁ {
      node_channel_map = insert (temporary_name s) fd s.node_channel_map;
      pending_invitations = insert (temporary_name s) (second_ref s) s.pending_invitations;
    } in
    let s₃ : Process = record s₂ { watched = s.watched ++ fd ∷ [] } in
    step _ made (
      step _ (insert_channel-fresh s₁ (temporary_name s) fd i.unknown) (
        step _
          (or_fail-some s₂ _ (find-insert_self (temporary_name s) fd s.node_channel_map i.unknown))
          (step _ (deref-there s₃ (second_ref s) entangled.there_2) (
            step _
              (send_on_channel-Writes s₃ fd (invitation_message (invitation s))
                (invitation-Writes s s₃ fd i.own_name i.takes))
              refl))))
