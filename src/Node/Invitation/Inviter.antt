-- ===== src/Node/Invitation/Inviter.antt =====
-- The process that sent an invitation, when it is accepted: `OnReceivedAcceptInvitation` of
-- mage/core/node.cc.
use mage.Base.{
  ◌≡◌, refl, ap, ◌∙◌, true, false, [], ◌∷◌, ◌++◌, Option, some, none, length, get_elem?, set, All,
}
use mage.Base.Result.{ok}
use mage.Message.{Message}
use mage.Map.{find, insert, erase, name_key}
use mage.Map.Laws.{find-insert_self}
use mage.Endpoint.{
  Endpoint, unbound_and_queueing, unbound_and_proxying, set_proxying, take_queued_messages,
}
use mage.Process.{Process, Ref, Fd, Callback, invitation_accepted, done}
use mage.Process.Heap.{proxy_to, take_queue, store}
use mage.Process.Exact.{
  step, or_fail-some, lift-ok, set-set, there-set, deref-there, update-there, lock-there,
  unlock-there,
}
use mage.Process.Laws.{with_endpoint}
use mage.Channel.{AcceptanceParams, view_acceptance}
use mage.Core.{core_on_received_accept_invitation, notify_inviter}
use mage.Node.Pipes.{require_registered-there}
use mage.Node.Send.{retarget}
use mage.Node.Send.All.{IsSendable, retarget-IsSendable, TakesAll, on_channel, send_messages-all}
use mage.Node.Invitation.{on_received_accept_invitation}
use mage.Node.Invitation.Invitee.{rename_channel-fresh}

take_queue-there :
    (s : Process) (r : Ref) (e : Endpoint)
    → get_elem? s.heap r ≡ some e
    → e.delegate ≡ none
    → take_queue r s
      ≡ done e.incoming_message_queue (with_endpoint s r (record e { incoming_message_queue = [] }))
unfolding take_queue store take_queued_messages
take_queue-there s r e there unserved = step _ (deref-there s r there) (rw unserved refl)

-- The acceptance of a pending invitation: the endpoint `e` at `r` was reserved for it, and what waits
-- there carries no endpoints.
pub record IsAccepted (s : Process) (m : Message) (p : AcceptanceParams) (r : Ref) (e : Endpoint)
    (fd : Fd) : Type 0 where
  pub viewed : view_acceptance m ≡ ok p
  pub pending : find p.temporary_remote_node_name s.pending_invitations ≡ some r
  pub there : get_elem? s.heap r ≡ some e
  pub registered : find e.name s.local_endpoints ≡ some r
  pub queueing : e.state ≡ unbound_and_queueing
  pub unserved : e.delegate ≡ none
  pub free : e.lock ≡ false
  pub channel : find p.temporary_remote_node_name s.node_channel_map ≡ some fd
  pub unknown :
      find p.actual_node_name (erase p.temporary_remote_node_name s.node_channel_map) ≡ none
  pub named : length p.accept_invitation_endpoint_name ≡ 15
  pub sendable : All IsSendable e.incoming_message_queue
  pub takes : TakesAll s fd

-- The reserved endpoint as a proxy for the accepting one.
abbrev pub proxy : Endpoint → AcceptanceParams → Endpoint
proxy e p = record e {
  state = unbound_and_proxying;
  proxy_target = record {
    node_name = p.actual_node_name;
    endpoint_name = p.accept_invitation_endpoint_name;
  };
  incoming_message_queue = [];
  lock = false;
}

-- The inviter afterwards, but for its callback.
abbrev pub flushed : Process → AcceptanceParams → Ref → Endpoint → Fd → Process
flushed s p r e fd = record s {
  pending_invitations = erase p.temporary_remote_node_name s.pending_invitations;
  node_channel_map =
      insert p.actual_node_name fd (erase p.temporary_remote_node_name s.node_channel_map);
  heap = set s.heap r (proxy e p);
  sent =
      s.sent ++ on_channel fd (retarget p.accept_invitation_endpoint_name e.incoming_message_queue);
}

-- The callback is posted, once.
abbrev pub notified : Option Callback → Process → Process
notified none s = s
notified (some callback) s = record s {
  tasks = s.tasks ++ invitation_accepted callback ∷ [];
  remote_has_accepted_invitation_callback = none;
}

core_on_received_accept-notified :
    (s : Process)
    → core_on_received_accept_invitation s
      ≡ done tt (notified s.remote_has_accepted_invitation_callback s)
unfolding core_on_received_accept_invitation notify_inviter
core_on_received_accept-notified s = by_cases s.remote_has_accepted_invitation_callback
  where
    by_cases : (o : Option Callback) → notify_inviter o s ≡ done tt (notified o s)
    by_cases none = refl
    by_cases (some callback) = refl

proxy_to-there :
    (s : Process) (r : Ref) (e : Endpoint) (p : AcceptanceParams)
    → get_elem? s.heap r ≡ some e
    → e.state ≡ unbound_and_queueing
    → proxy_to r
        (record {
          node_name = p.actual_node_name;
          endpoint_name = p.accept_invitation_endpoint_name;
        })
        s
      ≡ done tt (
          with_endpoint s r (record e {
            state = unbound_and_proxying;
            proxy_target = record {
              node_name = p.actual_node_name;
              endpoint_name = p.accept_invitation_endpoint_name;
            };
          }))
unfolding proxy_to set_proxying
proxy_to-there s r e p there queueing =
    update-there s r there
      (λ x. set_proxying x (record {
        node_name = p.actual_node_name;
        endpoint_name = p.accept_invitation_endpoint_name;
      }))
      (rw queueing refl)

-- The acceptance of a pending invitation arrives, whose reserved endpoint queues messages without endpoints,
-- each of which says its size, on a channel whose socket takes every buffer whole; the accepting node is
-- not known yet, and the name of its endpoint has 15 bytes. The invitation is pending no more; the channel
-- is named by the accepting node; the reserved endpoint is a proxy for the accepting endpoint, with an
-- empty queue and its lock released; what waited there is written to the channel in its order, retargeted to
-- the accepting endpoint; and the inviter's callback, if there is one, is posted and forgotten.
pub on_received_accept_invitation-flushed :
    (s : Process) (m : Message) (p : AcceptanceParams) (r : Ref) (e : Endpoint) (fd : Fd)
    → IsAccepted s m p r e fd
    → on_received_accept_invitation m s
      ≡ done tt (notified s.remote_has_accepted_invitation_callback (flushed s p r e fd))
unfolding on_received_accept_invitation
on_received_accept_invitation-flushed s m p r e fd i =
    let name = p.accept_invitation_endpoint_name in
    let queue = e.incoming_message_queue in
    let e₁ : Endpoint = record e { lock = true } in
    let e₂ : Endpoint = record e₁ {
      state = unbound_and_proxying;
      proxy_target = record { node_name = p.actual_node_name; endpoint_name = name };
    } in
    let e₃ : Endpoint = record e₂ { incoming_message_queue = [] } in
    let s₁ : Process = record s {
      pending_invitations = erase p.temporary_remote_node_name s.pending_invitations;
    } in
    let s₂ : Process = with_endpoint s₁ r e₁ in
    let s₃ : Process = with_endpoint s₂ r e₂ in
    let s₄ : Process = record s₃ {
      node_channel_map =
          insert p.actual_node_name fd (erase p.temporary_remote_node_name s.node_channel_map);
    } in
    let s₅ : Process = with_endpoint s₄ r e₃ in
    let s₆ : Process = record s₅ { sent = s.sent ++ on_channel fd (retarget name queue) } in
    let s₇ : Process = with_endpoint s₆ r (proxy e p) in
    let there₂ = there-set s.heap r e₁ i.there in
    let there₃ = there-set s₂.heap r e₂ there₂ in
    let there₅ = there-set s₃.heap r e₃ there₃ in
    step _ (lift-ok s i.viewed) (
      step _ (or_fail-some s _ i.pending) (
        step _ (require_registered-there s₁ r r e i.there i.registered) (
          step _ (lock-there s₁ r i.there i.free) (
            step _ (proxy_to-there s₂ r e₁ p there₂ i.queueing) (
              step _ (rename_channel-fresh s₃ _ _ fd i.channel i.unknown) (
                step _ (take_queue-there s₄ r e₂ there₃ i.unserved) (
                  step _
                    (send_messages-all (retarget name queue) s₅ p.actual_node_name fd
                      (retarget-IsSendable name queue i.named i.sendable)
                      (find-insert_self p.actual_node_name fd _ i.unknown) i.takes)
                    (step _ (unlock-there s₆ r there₅) (
                      core_on_received_accept-notified s₇
                      ∙ ap
                          (λ heap. done tt (
                            notified s.remote_has_accepted_invitation_callback
                              (record (flushed s p r e fd) { heap = heap })))
                          (set-set s₃.heap r e₃ (proxy e p)
                            ∙ set-set s₂.heap r e₂ (proxy e p)
                            ∙ set-set s.heap r e₁ (proxy e p)))))))))))
