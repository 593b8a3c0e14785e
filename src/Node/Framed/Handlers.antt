-- ===== src/Node/Framed/Handlers.antt =====
-- The handlers of mage/core/node.cc for messages from other nodes write nothing but frames.

use mage.Util.{random_identifier}
use mage.Base.{ℕ, refl, List, [], ◌∷◌, not, length, bytes_eq, ◌==◌, All, All-append}
use mage.Message.{
  Name, Message, EndpointDescriptor, get_endpoint_descriptors, set_target_endpoint, target_endpoint,
  message_type, type_code, send_invitation, accept_invitation, user_message,
}
use mage.Map.{find, name_key}
use mage.Endpoint.{Endpoint, Address, new_endpoint, state_eq, unbound_and_proxying}
use mage.Process.{Process}
use mage.Process.Sound.{
  Sound, returned, stopped, seq, mono, lift_lem, or_fail_lem, require_lem, if_lem,
}
use mage.Process.Heap.{allocate_endpoint, fresh_identifier}
use mage.Process.Laws.{deref_lem}
use mage.Process.Framed.{
  IsSized, HoldsSized, Framed, Framed-refl, Framed-trans, lock-Framed, unlock-Framed,
  proxy_to-Framed, take_queue-Framed, send_on_channel-Framed, set_target_endpoint-IsSized,
}
use mage.Channel.{view_invitation, view_acceptance, acceptance_message, AcceptanceParams}
use mage.Core.{recover_new_message_pipe}
use mage.Core.Framed.{
  recover_new-Framed, recover_pipes-Framed, accept_on_io_thread-Framed, on_received_accept-Framed,
  on_received_invitation-Framed,
}
use mage.Node.{initial_channel_name}
use mage.Node.Invariant.{require_registered_lem, rename_channel_lem}
use mage.Node.Send.{retarget}
use mage.Node.Send.Drain.{channel_of_lem}
use mage.Node.Framed.{retarget-IsSized, send_messages-Framed}
use mage.Node.Invitation.{on_received_invitation, on_received_accept_invitation}
use mage.Node.Receive.{
  prepare_to_forward_user_message, forward, handle_user_message, on_received_user_message,
  on_received_message,
}
use mage.Node.Framed.Sized.{acceptance_message-IsSized, rename_descriptor-IsSized}
use mage.Node.Framed.Calls.{Framed-silent}

received_invitation-Framed :
    (m : Message) (s : Process)
    → All HoldsSized s.heap
    → Sound (λ _ t. Framed s t) (on_received_invitation m s)
unfolding on_received_invitation fresh_identifier allocate_endpoint
received_invitation-Framed m s h = seq (
    lift_lem s (view_invitation m) λ params read. seq (
      rename_channel_lem s initial_channel_name params.inviter_name λ channels watched.
        let name : Name = random_identifier s.world.draw s.drawn in
        let e : Endpoint = new_endpoint name (record {
          node_name = params.inviter_name;
          endpoint_name = params.intended_endpoint_peer_name;
        }) in
        let answer : AcceptanceParams = record {
          temporary_remote_node_name = params.temporary_remote_node_name;
          actual_node_name = s.name;
          accept_invitation_endpoint_name = name;
        } in
        seq (
          channel_of_lem _ params.inviter_name λ channel found. seq (
            mono
              (send_on_channel-Framed _ channel (acceptance_message answer)
                (All-append HoldsSized s.heap (e ∷ []) h (tt, tt))
                (acceptance_message-IsSized answer))
              λ _ t a.
                mono (on_received_invitation-Framed t (length s.heap) a.queues)
                  λ _ u b. Framed-silent s s _ u (Framed-refl s h) refl (Framed-trans _ t u a b)))))

received_accept_invitation-Framed :
    (m : Message) (s : Process)
    → All HoldsSized s.heap
    → Sound (λ _ t. Framed s t) (on_received_accept_invitation m s)
unfolding on_received_accept_invitation
received_accept_invitation-Framed m s h = seq (
    lift_lem s (view_acceptance m) λ params read. seq (
      or_fail_lem s (find params.temporary_remote_node_name s.pending_invitations) _ λ r found.
        seq (
          require_registered_lem _ r (
            seq (
              mono (lock-Framed _ h r) λ _ t a. seq (
                mono (proxy_to-Framed t a.queues r _) λ _ u b. seq (
                  rename_channel_lem u _ _ λ channels watched. seq (
                    mono (take_queue-Framed _ b.queues r) λ queued v (fits, c). seq (
                      mono
                        (send_messages-Framed
                          (retarget params.accept_invitation_endpoint_name queued)
                          params.actual_node_name v c.queues
                          (retarget-IsSized params.accept_invitation_endpoint_name queued fits))
                        λ _ w d. seq (
                          mono (unlock-Framed w d.queues r) λ _ x e.
                            mono (on_received_accept-Framed x e.queues) λ _ y f.
                              Framed-silent s s _ y (Framed-refl s h) refl (
                                Framed-silent _ u _ y (Framed-trans _ t u a b) refl (
                                  Framed-trans _ v y c
                                    (Framed-trans v w y d (Framed-trans w x y e f))))))))))))))

prepare_to_forward-Framed :
    (ds : List (ℕ × EndpointDescriptor)) (target : Name) (m : Message) (s : Process)
    → All HoldsSized s.heap
    → IsSized m
    → Sound (λ m' t. IsSized m' × Framed s t) (prepare_to_forward_user_message ds target m s)
unfolding prepare_to_forward_user_message fresh_identifier
prepare_to_forward-Framed [] target m s h fits = returned (fits, Framed-refl s h)
prepare_to_forward-Framed ((at, d) ∷ ds) target m s h fits = seq (
    or_fail_lem s (find d.cross_node_endpoint_name s.local_endpoints) _ λ r found. seq (
      mono (proxy_to-Framed _ h r _) λ _ t a.
        mono
          (prepare_to_forward-Framed ds target _ t a.queues
            (rename_descriptor-IsSized m at _ _ fits))
          λ m' u (fits', b).
            (fits', Framed-silent s s _ u (Framed-refl s h) refl (Framed-trans _ t u a b))))

forward-Framed :
    (proxy_target : Address) (m : Message) (s : Process)
    → All HoldsSized s.heap
    → IsSized m
    → Sound (λ _ t. Framed s t) (forward proxy_target m s)
unfolding forward
forward-Framed proxy_target m s h fits = seq (
    require_lem s (not (bytes_eq proxy_target.node_name s.name)) λ _. seq (
      lift_lem s (get_endpoint_descriptors (set_target_endpoint m proxy_target.endpoint_name))
        λ ds read. seq (
          mono
            (prepare_to_forward-Framed ds proxy_target.node_name _ s h
              (set_target_endpoint-IsSized m proxy_target.endpoint_name fits))
            λ m' t (fits', a). seq (
              channel_of_lem t proxy_target.node_name λ fd found.
                mono (send_on_channel-Framed t fd m' a.queues fits')
                  λ _ u b. Framed-trans s t u a b))))

received_user_message-Framed :
    (m : Message) (s : Process)
    → All HoldsSized s.heap
    → IsSized m
    → Sound (λ _ t. Framed s t) (on_received_user_message m s)
unfolding on_received_user_message handle_user_message
received_user_message-Framed m s h fits = seq (
    or_fail_lem s (find (target_endpoint m) s.local_endpoints) _ λ r found. seq (
      deref_lem s r λ e₀ there₀. seq (
        require_lem s (bytes_eq (target_endpoint m) e₀.name) λ _. seq (
          mono (lock-Framed s h r) λ _ t a. seq (
            lift_lem t (get_endpoint_descriptors m) λ ds read. seq (
              mono
                (recover_pipes-Framed recover_new_message_pipe recover_new-Framed ds m t a.queues
                  fits)
                λ m' u (fits', b). seq (
                  deref_lem u r λ e' there'. seq (
                    mono
                      (if_lem u (state_eq e'.state unbound_and_proxying) _ _
                        (λ _. forward-Framed e'.proxy_target m' u b.queues fits')
                        (λ _. accept_on_io_thread-Framed u r m' b.queues fits'))
                      λ _ v c. mono (unlock-Framed v c.queues r) λ _ w d.
                        Framed-trans s t w a (Framed-trans t u w b (Framed-trans u v w c d))))))))))

pub received_message-Framed :
    (m : Message) (s : Process)
    → All HoldsSized s.heap
    → IsSized m
    → Sound (λ _ t. Framed s t) (on_received_message m s)
unfolding on_received_message
received_message-Framed m s h fits =
    if_lem s (message_type m == type_code send_invitation) _ _
      (λ _. received_invitation-Framed m s h)
      (λ _.
        if_lem s (message_type m == type_code accept_invitation) _ _
          (λ _. received_accept_invitation-Framed m s h)
          (λ _.
            if_lem s (message_type m == type_code user_message) _ _
              (λ _. received_user_message-Framed m s h fits) (λ _. stopped _)))
