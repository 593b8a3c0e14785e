-- ===== src/Node/Invariant/Receiving.antt =====
-- Receiving, in mage/core/node.cc, keeps the tables of a process.
use mage.Base.{ℕ, List, [], ◌∷◌, not, bytes_eq, ◌==◌}
use mage.Message.{
  Name, Message, EndpointDescriptor, get_endpoint_descriptors, set_target_endpoint, target_endpoint,
  message_type, type_code, send_invitation, accept_invitation, user_message,
}
use mage.Map.{find, name_key}
use mage.Endpoint.{Address, state_eq, unbound_and_proxying, accept_message_on_io_thread}
use mage.Endpoint.Valid.{IsValid, accept_message-IsValid, accept_on_io_thread-accept_message}
use mage.Process.{Process, Ref}
use mage.Process.Sound.{
  Sound, returned, stopped, seq, mono, lift_lem, or_fail_lem, require_lem, if_lem,
}
use mage.Process.Heap.{fresh_identifier, call_method}
use mage.Process.Laws.{deref_lem, call_method_lem}
use mage.Process.Invariant.{Inv, After, After-refl, After-trans, Grows-trans, All-get, set-After}
use mage.Channel.Write.{send_on_channel_lem}
use mage.Core.{recover_new_message_pipe}
use mage.Core.Invariant.{recover_new-After, recover_pipes-After}
use mage.Node.Send.Drain.{channel_of_lem}
use mage.Node.Invariant.{lock-After, unlock-After, proxy_to-After}
use mage.Node.Invariant.Inviting.{
  on_received_invitation-After', on_received_accept_invitation-After,
}
use mage.Node.Receive.{
  prepare_to_forward_user_message, forward, handle_user_message, on_received_user_message,
  on_received_message,
}

prepare_to_forward-After :
    (ds : List (ℕ × EndpointDescriptor)) (target : Name) (m : Message) (s : Process)
    → Inv s
    → Sound (λ _ t. After s t) (prepare_to_forward_user_message ds target m s)
unfolding prepare_to_forward_user_message fresh_identifier
prepare_to_forward-After [] target m s i = returned (After-refl s i)
prepare_to_forward-After ((at, d) ∷ ds) target m s i = seq (
    or_fail_lem s (find d.cross_node_endpoint_name s.local_endpoints) _ λ r found. seq (
      mono (proxy_to-After _ i r _) λ _ t a.
        mono (prepare_to_forward-After ds target _ t a.0)
          λ _ u b. (b.0, Grows-trans s.heap t.heap u.heap a.1 b.1)))

forward-After :
    (proxy_target : Address) (m : Message) (s : Process)
    → Inv s
    → Sound (λ _ t. After s t) (forward proxy_target m s)
unfolding forward
forward-After proxy_target m s i = seq (
    require_lem s (not (bytes_eq proxy_target.node_name s.name)) λ _. seq (
      lift_lem s (get_endpoint_descriptors (set_target_endpoint m proxy_target.endpoint_name))
        λ ds read. seq (
          mono (prepare_to_forward-After ds proxy_target.node_name _ s i) λ m' t a. seq (
            channel_of_lem t proxy_target.node_name
              λ fd found. send_on_channel_lem t fd m' (a.0, a.1)))))

accept_on_io_thread-After :
    (r : Ref) (m : Message) (s : Process)
    → Inv s
    → Sound (λ _ t. After s t) (call_method r (λ e. accept_message_on_io_thread e m) s)
accept_on_io_thread-After r m s i = call_method_lem s r _ λ e e' ds there ran.
    let (v, named) =
      accept_message-IsValid e e' m ds (All-get IsValid s.heap r e i.valid there)
        (accept_on_io_thread-accept_message e m (e', ds) ran) in
    let b = set-After s r e e' i there named v in (b.0, b.1)

pub on_received_user_message-After :
    (m : Message) (s : Process) → Inv s → Sound (λ _ t. After s t) (on_received_user_message m s)
unfolding on_received_user_message handle_user_message
on_received_user_message-After m s i = seq (
    or_fail_lem s (find (target_endpoint m) s.local_endpoints) _ λ r found. seq (
      deref_lem s r λ e there. seq (
        require_lem s (bytes_eq (target_endpoint m) e.name) λ _. seq (
          mono (lock-After s i r) λ _ t a. seq (
            lift_lem t (get_endpoint_descriptors m) λ ds read. seq (
              mono
                (recover_pipes-After recover_new_message_pipe (λ d u j. recover_new-After u d j) ds
                  m t a.0)
                λ m' u b. seq (
                  deref_lem u r λ e' there'. seq (
                    mono
                      (if_lem u (state_eq e'.state unbound_and_proxying) _ _
                        (λ _. forward-After e'.proxy_target m' u b.0)
                        (λ _. accept_on_io_thread-After r m' u b.0))
                      λ _ v c. mono (unlock-After v c.0 r) λ _ w f.
                        After-trans s t w a (After-trans t u w b (After-trans u v w c f))))))))))

pub on_received_message-After :
    (m : Message) (s : Process) → Inv s → Sound (λ _ t. After s t) (on_received_message m s)
unfolding on_received_message
on_received_message-After m s i =
    if_lem s (message_type m == type_code send_invitation) _ _
      (λ _. on_received_invitation-After' m s i)
      λ _.
        if_lem s (message_type m == type_code accept_invitation) _ _
          (λ _. on_received_accept_invitation-After m s i)
          λ _.
            if_lem s (message_type m == type_code user_message) _ _
              (λ _. on_received_user_message-After m s i) (λ _. stopped _)
