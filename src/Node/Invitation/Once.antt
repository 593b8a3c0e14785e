-- ===== src/Node/Invitation/Once.antt =====
-- In mage/core/node.cc a node accepts one invitation, and an invitation is accepted once.
use mage.Base.{◌≡◌, refl, sym, ap, ◌∙◌, true, not, Option, some, none, arith}
use mage.Base.Result.{ok, check_failed}
use mage.Message.{Message}
use mage.Map.{find, erase, name_key}
use mage.Map.Laws.{find-erase}
use mage.Endpoint.{Endpoint}
use mage.Process.{Process, Ref, Fd, Callback, done, crashed}
use mage.Process.Sound.{Sound, returned, seq, require_lem, at_done}
use mage.Process.Exact.{step, lift-ok}
use mage.Channel.{AcceptanceParams, view_acceptance, start}
use mage.Node.{initial_channel_name}
use mage.Node.Invariant.{insert_channel_lem}
use mage.Node.Send.Drain.{channel_of_lem}
use mage.Node.Invitation.{node_accept_invitation, on_received_accept_invitation}
use mage.Node.Invitation.Inviter.{
  IsAccepted, flushed, notified, on_received_accept_invitation-flushed,
}

has_accepted :
    (fd : Fd) (s : Process)
    → Sound (λ _ t. t.has_accepted_invitation ≡ true) (node_accept_invitation fd s)
unfolding node_accept_invitation start
has_accepted fd s = seq (
    require_lem s (not s.has_accepted_invitation) λ _. seq (
      insert_channel_lem s initial_channel_name fd λ channels watched.
        seq (channel_of_lem _ initial_channel_name λ channel found. returned refl)))

again :
    (fd : Fd) (t : Process)
    → t.has_accepted_invitation ≡ true
    → node_accept_invitation fd t ≡ crashed check_failed
unfolding node_accept_invitation
again fd t accepted = rw accepted refl

-- Where `AcceptInvitation` returned, a further one fails its CHECK, whatever the channel.
pub node_accept_invitation_once :
    (fd fd' : Fd) (s t : Process)
    → node_accept_invitation fd s ≡ done tt t
    → node_accept_invitation fd' t ≡ crashed check_failed
node_accept_invitation_once fd fd' s t e = again fd' t (at_done (has_accepted fd s) e)

pending_notified :
    (o : Option Callback) (s : Process) → (notified o s).pending_invitations ≡ s.pending_invitations
pending_notified none s = refl
pending_notified (some callback) s = refl

not_pending :
    (t : Process) (m : Message) (p : AcceptanceParams)
    → view_acceptance m ≡ ok p
    → find p.temporary_remote_node_name t.pending_invitations ≡ none
    → on_received_accept_invitation m t ≡ crashed check_failed
unfolding on_received_accept_invitation
not_pending t m p views absent = step _ (lift-ok t views) (rw absent refl)

-- An acceptance that is handled once, as `IsAccepted` describes, ends in a state where the same acceptance
-- fails its CHECK.
pub on_received_accept_invitation_once :
    (s t : Process) (m : Message) (p : AcceptanceParams) (r : Ref) (e : Endpoint) (fd : Fd)
    → IsAccepted s m p r e fd
    → on_received_accept_invitation m s ≡ done tt t
    → on_received_accept_invitation m t ≡ crashed check_failed
on_received_accept_invitation_once s t m p r e fd i ran =
    let name = p.temporary_remote_node_name in
    let u : Process = notified s.remote_has_accepted_invitation_callback (flushed s p r e fd) in
    let same : u ≡ t = cc (sym (on_received_accept_invitation-flushed s m p r e fd i) ∙ ran) in
    let gone : find name (erase name s.pending_invitations) ≡ none =
      ground (arith, find-erase name name s.pending_invitations, name_key.eq_iff name name) in
    not_pending t m p i.viewed (
      ap (λ q. find name q.pending_invitations) (sym same)
      ∙ ap (find name)
          (pending_notified s.remote_has_accepted_invitation_callback (flushed s p r e fd))
      ∙ gone)
