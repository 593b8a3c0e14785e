-- ===== src/Node/Locks/Handlers.antt =====
-- The other handlers of mage/core/node.cc release every mutex of an endpoint that they acquire.
use mage.Util.{random_identifier}
use mage.Base.{
  ℕ, ◌+◌, ◌%◌, ◌^◌, refl, ◌∙◌, true, false, List, [], ◌∷◌, ◌++◌, not, length, bytes_eq, ◌==◌,
}
use mage.Message.{
  Name, Message, MessagePipe, EndpointDescriptor, identifier_size, get_endpoint_descriptors,
  set_target_endpoint, target_endpoint, message_type, type_code, send_invitation, accept_invitation,
  user_message,
}
use mage.Map.{find, insert, name_key}
use mage.Node.Send.{retarget}
use mage.Endpoint.{Endpoint, Address, new_endpoint, state_eq, unbound_and_proxying}
use mage.Process.{Process, Fd}
use mage.Process.Sound.{
  Sound, returned, stopped, seq, mono, lift_lem, or_fail_lem, require_lem, if_lem,
}
use mage.Process.Heap.{allocate_endpoint, fresh_identifier}
use mage.Process.Laws.{with_endpoint, deref_lem, lock_lem, unlock_lem}
use mage.Process.Locks.{
  Balanced, Balanced-refl, Balanced-same, Balanced-trans, Balanced-allocated, release,
}
use mage.Channel.{view_invitation, view_acceptance, invitation_message, acceptance_message}
use mage.Channel.Write.{send_on_channel_lem}
use mage.Core.{get_next_message_pipe, recover_new_message_pipe}
use mage.Core.Locks.{
  register_local_lem, recover_new-Balanced, recover_pipes-Balanced, accept_on_io_thread-Balanced,
  on_received_accept-Balanced, on_received_invitation-Balanced,
}
use mage.Node.{
  initialize_and_entangle_endpoints, create_message_pipes_and_get_endpoints, initial_channel_name,
}
use mage.Node.Invariant.{require_registered_lem, insert_channel_lem, rename_channel_lem}
use mage.Node.Send.Drain.{channel_of_lem}
use mage.Node.Locks.{proxy_to-locks, take_queue-locks, send_messages-Balanced}
use mage.Node.Invitation.{
  node_send_invitation_and_get_message_pipe, node_accept_invitation, on_received_invitation,
  on_received_accept_invitation,
}
use mage.Node.Receive.{
  prepare_to_forward_user_message, forward, handle_user_message, on_received_user_message,
  on_received_message,
}

pub create_pipes-Balanced :
    (s : Process) → Sound (λ _ t. Balanced s.heap t.heap) (create_message_pipes_and_get_endpoints s)
unfolding create_message_pipes_and_get_endpoints initialize_and_entangle_endpoints fresh_identifier
    allocate_endpoint get_next_message_pipe
create_pipes-Balanced s =
    let n₁ : Name = random_identifier s.world.draw s.drawn in
    let n₂ : Name = random_identifier s.world.draw (s.drawn + identifier_size) in
    let e₁ : Endpoint = new_endpoint n₁ (record { node_name = s.name; endpoint_name = n₂ }) in
    let e₂ : Endpoint = new_endpoint n₂ (record { node_name = s.name; endpoint_name = n₁ }) in
    let one : List Endpoint = s.heap ++ e₁ ∷ [] in
    let made : Balanced s.heap (one ++ e₂ ∷ []) =
      Balanced-trans s.heap one (one ++ e₂ ∷ []) (Balanced-allocated s.heap e₁ refl)
        (Balanced-allocated one e₂ refl) in
    let h₁ : MessagePipe = s.next_available_handle in
    seq (
      register_local_lem _ h₁ (length s.heap) λ handles locals. seq (
        register_local_lem _ ((h₁ + 1) % 2 ^ 32) (length one) λ handles' locals'. seq (
          require_registered_lem _ (length s.heap)
            (seq (require_registered_lem _ (length one) (returned made))))))

pub node_send_invitation-Balanced :
    (fd : Fd) (s : Process)
    → Sound (λ _ t. Balanced s.heap t.heap) (node_send_invitation_and_get_message_pipe fd s)
unfolding node_send_invitation_and_get_message_pipe fresh_identifier
node_send_invitation-Balanced fd s = seq (
    mono (create_pipes-Balanced s) λ ((h₁, r₁), (h₂, r₂)) t a.
      let temporary : Name = random_identifier t.world.draw t.drawn in
      seq (
        insert_channel_lem (record t { drawn = t.drawn + identifier_size }) temporary fd
          λ channels watched. seq (
            channel_of_lem _ temporary λ channel found. seq (
              deref_lem _ r₂ λ remote there. seq (
                send_on_channel_lem _ channel
                  (invitation_message (record {
                    inviter_name = t.name;
                    temporary_remote_node_name = temporary;
                    intended_endpoint_peer_name = remote.peer_address.endpoint_name;
                  }))
                  (returned a))))))

pub node_accept_invitation-Balanced :
    (fd : Fd) (s : Process) → Sound (λ _ t. Balanced s.heap t.heap) (node_accept_invitation fd s)
unfolding node_accept_invitation
node_accept_invitation-Balanced fd s = seq (
    require_lem s (not s.has_accepted_invitation) λ _. seq (
      insert_channel_lem s initial_channel_name fd λ channels watched.
        seq
          (channel_of_lem _ initial_channel_name λ channel found. returned (Balanced-refl s.heap))))

received_invitation-Balanced :
    (m : Message) (s : Process) → Sound (λ _ t. Balanced s.heap t.heap) (on_received_invitation m s)
unfolding on_received_invitation fresh_identifier allocate_endpoint
received_invitation-Balanced m s = seq (
    lift_lem s (view_invitation m) λ params read. seq (
      rename_channel_lem s initial_channel_name params.inviter_name λ channels watched.
        let name : Name = random_identifier s.world.draw s.drawn in
        let e : Endpoint = new_endpoint name (record {
          node_name = params.inviter_name;
          endpoint_name = params.intended_endpoint_peer_name;
        }) in
        let answer : Message = acceptance_message (record {
          temporary_remote_node_name = params.temporary_remote_node_name;
          actual_node_name = s.name;
          accept_invitation_endpoint_name = name;
        }) in
        seq (
          channel_of_lem _ params.inviter_name λ channel found. seq (
            send_on_channel_lem _ channel answer (
              mono
                (on_received_invitation-Balanced
                  (record s {
                    heap = s.heap ++ e ∷ [];
                    local_endpoints = insert name (length s.heap) s.local_endpoints;
                    node_channel_map = channels;
                    watched = watched;
                    drawn = s.drawn + identifier_size;
                    sent = s.sent ++ (channel, answer.payload_buffer) ∷ [];
                  })
                  (length s.heap))
                λ _ t b.
                  Balanced-trans s.heap (s.heap ++ e ∷ []) t.heap (Balanced-allocated s.heap e refl)
                    b)))))

received_accept_invitation-Balanced :
    (m : Message) (s : Process)
    → Sound (λ _ t. Balanced s.heap t.heap) (on_received_accept_invitation m s)
unfolding on_received_accept_invitation
received_accept_invitation-Balanced m s = seq (
    lift_lem s (view_acceptance m) λ params read. seq (
      or_fail_lem s (find params.temporary_remote_node_name s.pending_invitations) _ λ r found.
        seq (
          require_registered_lem _ r (
            seq (
              lock_lem _ r λ e there free. seq (
                mono (proxy_to-locks _ r _) λ _ u proxies. seq (
                  rename_channel_lem u _ _ λ channels watched. seq (
                    mono (take_queue-locks _ r) λ queued v took. seq (
                      mono
                        (send_messages-Balanced
                          (retarget params.accept_invitation_endpoint_name queued)
                          params.actual_node_name v)
                        λ _ w sends. seq (
                          unlock_lem w r λ e' there'.
                            let held : Endpoint = record e { lock = true } in
                            let a =
                              release s.heap w.heap r e held (record e' { lock = false }) there free
                                refl
                                (Balanced-trans _ v.heap w.heap
                                  (Balanced-same _ v.heap (took ∙ proxies)) sends)
                                refl in
                            mono
                              (on_received_accept-Balanced
                                (with_endpoint w r (record e' { lock = false })))
                              λ _ x b. Balanced-trans s.heap _ x.heap a b))))))))))

prepare_to_forward-Balanced :
    (ds : List (ℕ × EndpointDescriptor)) (target : Name) (m : Message) (s : Process)
    → Sound (λ _ t. Balanced s.heap t.heap) (prepare_to_forward_user_message ds target m s)
unfolding prepare_to_forward_user_message fresh_identifier
prepare_to_forward-Balanced [] target m s = returned (Balanced-refl s.heap)
prepare_to_forward-Balanced ((at, d) ∷ ds) target m s = seq (
    or_fail_lem s (find d.cross_node_endpoint_name s.local_endpoints) _ λ r found. seq (
      mono (proxy_to-locks _ r _) λ _ t same.
        mono (prepare_to_forward-Balanced ds target _ t)
          λ _ u b. Balanced-trans s.heap t.heap u.heap (Balanced-same s.heap t.heap same) b))

forward-Balanced :
    (proxy_target : Address) (m : Message) (s : Process)
    → Sound (λ _ t. Balanced s.heap t.heap) (forward proxy_target m s)
unfolding forward
forward-Balanced proxy_target m s = seq (
    require_lem s (not (bytes_eq proxy_target.node_name s.name)) λ _. seq (
      lift_lem s (get_endpoint_descriptors (set_target_endpoint m proxy_target.endpoint_name))
        λ ds read. seq (
          mono (prepare_to_forward-Balanced ds proxy_target.node_name _ s) λ m' t a.
            seq
              (channel_of_lem t proxy_target.node_name λ fd found. send_on_channel_lem t fd m' a))))

received_user_message-Balanced :
    (m : Message) (s : Process)
    → Sound (λ _ t. Balanced s.heap t.heap) (on_received_user_message m s)
unfolding on_received_user_message handle_user_message
received_user_message-Balanced m s = seq (
    or_fail_lem s (find (target_endpoint m) s.local_endpoints) _ λ r found. seq (
      deref_lem s r λ e₀ there₀. seq (
        require_lem s (bytes_eq (target_endpoint m) e₀.name) λ _. seq (
          lock_lem s r λ e there free. seq (
            lift_lem _ (get_endpoint_descriptors m) λ ds read. seq (
              mono (recover_pipes-Balanced recover_new_message_pipe recover_new-Balanced ds m _)
                λ m' u a. seq (
                  deref_lem u r λ e' there'. seq (
                    mono
                      (if_lem u (state_eq e'.state unbound_and_proxying) _ _
                        (λ _. forward-Balanced e'.proxy_target m' u)
                        (λ _. accept_on_io_thread-Balanced u r m'))
                      λ _ v b. unlock_lem v r λ e'' there''.
                        release s.heap v.heap r e (record e { lock = true })
                          (record e'' { lock = false }) there free refl
                          (Balanced-trans _ u.heap v.heap a b) refl))))))))

pub received_message-Balanced :
    (m : Message) (s : Process) → Sound (λ _ t. Balanced s.heap t.heap) (on_received_message m s)
unfolding on_received_message
received_message-Balanced m s =
    if_lem s (message_type m == type_code send_invitation) _ _
      (λ _. received_invitation-Balanced m s)
      (λ _.
        if_lem s (message_type m == type_code accept_invitation) _ _
          (λ _. received_accept_invitation-Balanced m s)
          (λ _.
            if_lem s (message_type m == type_code user_message) _ _
              (λ _. received_user_message-Balanced m s) (λ _. stopped _)))
