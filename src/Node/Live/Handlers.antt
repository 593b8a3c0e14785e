-- ===== src/Node/Live/Handlers.antt =====
-- The handlers of mage/core/node.cc for messages from other nodes come to an end, where no mutex of an
-- endpoint is held before.
use mage.Base.{ℕ, ◌≡◌, ◌≢◌, true, not, List, [], ◌∷◌, All, arith, length, bytes_eq, ◌==◌}
use mage.Base.Result.{crash, deadlock, not_reached}
use mage.Util.{random_identifier}
use mage.Message.{
  Name, Message, EndpointDescriptor, get_endpoint_descriptors, set_target_endpoint, target_endpoint,
  message_type, type_code, send_invitation, accept_invitation, user_message,
}
use mage.Map.{find, name_key}
use mage.Endpoint.{Endpoint, Address, state_eq, unbound_and_proxying, accept_message_on_io_thread}
use mage.Process.{Process, Ref}
use mage.Process.Heap.{allocate_endpoint, fresh_identifier}
use mage.Process.Locks.{IsUnlocked}
use mage.Process.Live.{
  Ends, ends, fails, then_live, after, lift_live, or_fail_live, if_live, require_live, deref_live,
  call_method-Ends, lock-Ends, unlock-Ends, proxy_to-Ends, check_failed_lem, not_reached_lem,
}
use mage.Channel.{view_invitation, acceptance_message}
use mage.Core.{recover_new_message_pipe}
use mage.Core.Live.{
  get_endpoint_descriptors_ends, accept_on_io_thread_ends, recover_new-Ends, recover_pipes-Ends,
  on_received_invitation-Ends,
}
use mage.Node.{initial_channel_name}
use mage.Node.Invitation.{on_received_invitation}
use mage.Node.Receive.{
  prepare_to_forward_user_message, forward, handle_user_message, on_received_user_message,
  on_received_message,
}
use mage.Node.Live.{
  require_registered-Ends, rename_channel-Ends, channel_of-Ends, send_on_channel-Ends,
}
use mage.Node.Live.Sending.{CarriesNothing, retarget-CarriesNothing, send_messages-Ends}
use mage.Node.Invariant.{require_registered_lem, rename_channel_lem}
use mage.Node.Send.{retarget}
use mage.Core.Live.{on_received_accept-Ends}
use mage.Bytes.Laws.{length-slice}
use mage.Process.Invariant.{All-get, All-set}
use mage.Process.Laws.{lock_lem, proxy_to_lem, take_queue_lem}
use mage.Process.Live.{with_lem, take_queue-Ends}
use mage.Node.Invitation.{on_received_accept_invitation}
use mage.Channel.{view_acceptance, AcceptanceParams}
use mage.Base.Result.{ok}

view_invitation_ends : (m : Message) → view_invitation m ≢ crash deadlock
unfolding view_invitation
view_invitation_ends m h = ground arith

received_invitation-Ends : (m : Message) (s : Process) → Ends (on_received_invitation m s)
unfolding on_received_invitation fresh_identifier allocate_endpoint
received_invitation-Ends m s = then_live (
    lift_live s (view_invitation m) (view_invitation_ends m) λ params read.
      after (rename_channel-Ends initial_channel_name params.inviter_name s) λ _ t.
        after (channel_of-Ends params.inviter_name _) λ channel u.
          after
            (send_on_channel-Ends channel
              (acceptance_message (record {
                temporary_remote_node_name = params.temporary_remote_node_name;
                actual_node_name = u.name;
                accept_invitation_endpoint_name = random_identifier t.world.draw t.drawn;
              }))
              u)
            λ _ v. on_received_invitation-Ends v (length t.heap))

prepare_to_forward-Ends :
    (ds : List (ℕ × EndpointDescriptor)) (target : Name) (m : Message) (s : Process)
    → Ends (prepare_to_forward_user_message ds target m s)
unfolding prepare_to_forward_user_message fresh_identifier
prepare_to_forward-Ends [] target m s = ends
prepare_to_forward-Ends ((at, d) ∷ ds) target m s = then_live (
    or_fail_live s (find d.cross_node_endpoint_name s.local_endpoints) _ check_failed_lem
      λ r found. after (proxy_to-Ends _ r _) λ _ t. prepare_to_forward-Ends ds target _ t)

forward-Ends :
    (proxy_target : Address) (m : Message) (s : Process) → Ends (forward proxy_target m s)
unfolding forward
forward-Ends proxy_target m s =
    let m' : Message = set_target_endpoint m proxy_target.endpoint_name in
    then_live (
      require_live s (not (bytes_eq proxy_target.node_name s.name)) (
        then_live (
          lift_live s (get_endpoint_descriptors m') (get_endpoint_descriptors_ends m') λ ds read.
            after (prepare_to_forward-Ends ds proxy_target.node_name m' s) λ m'' t.
              after (channel_of-Ends proxy_target.node_name t)
                λ fd u. send_on_channel-Ends fd m'' u)))

handle_user_message-Ends :
    (r : Ref) (e : Endpoint) (m : Message) (s : Process) → Ends (handle_user_message r e m s)
unfolding handle_user_message
handle_user_message-Ends r e m s =
    if_live s (state_eq e.state unbound_and_proxying) _ _ (λ _. forward-Ends e.proxy_target m s)
      (λ _.
        call_method-Ends s r (λ e'. accept_message_on_io_thread e' m)
          λ e' there. accept_on_io_thread_ends e' m)

received_user_message-Ends :
    (m : Message) (s : Process) → All IsUnlocked s.heap → Ends (on_received_user_message m s)
unfolding on_received_user_message
received_user_message-Ends m s free = then_live (
    or_fail_live s (find (target_endpoint m) s.local_endpoints) _ check_failed_lem λ r found.
      then_live (
        deref_live s r λ e₀ there₀. then_live (
          require_live s (bytes_eq (target_endpoint m) e₀.name) (
            after (lock-Ends s r free) λ _ t. then_live (
              lift_live t (get_endpoint_descriptors m) (get_endpoint_descriptors_ends m) λ ds read.
                after (recover_pipes-Ends recover_new_message_pipe recover_new-Ends ds m t) λ m' u.
                  then_live (
                    deref_live u r λ e there.
                      after (handle_user_message-Ends r e m' u) λ _ v. unlock-Ends v r))))))

-- What waits in the endpoint carries no endpoints.
abbrev pub HoldsNothing : Endpoint → Type 0
HoldsNothing e = All CarriesNothing e.incoming_message_queue

view_acceptance_ends : (m : Message) → view_acceptance m ≢ crash deadlock
unfolding view_acceptance
view_acceptance_ends m h = ground arith

view_acceptance_named :
    (m : Message) (p : AcceptanceParams)
    → view_acceptance m ≡ ok p
    → length p.accept_invitation_endpoint_name ≡ 15
unfolding view_acceptance
view_acceptance_named m p h = ground (arith, length-slice m.payload_buffer 70 15)

received_acceptance-Ends :
    (m : Message) (s : Process)
    → All IsUnlocked s.heap
    → All HoldsNothing s.heap
    → Ends (on_received_accept_invitation m s)
unfolding on_received_accept_invitation
received_acceptance-Ends m s free h = then_live (
    lift_live s (view_acceptance m) (view_acceptance_ends m) λ params read. then_live (
      or_fail_live s (find params.temporary_remote_node_name s.pending_invitations) _
        check_failed_lem
        λ r found. then_live (
          with_lem (require_registered-Ends _ r) (
            require_registered_lem _ r (
              then_live (
                with_lem (lock-Ends _ r free) (
                  lock_lem _ r λ e there free'.
                    let h₁ =
                      All-set HoldsNothing s.heap r (record e { lock = true }) h
                        (All-get HoldsNothing s.heap r e h there) in
                    then_live (
                      with_lem (proxy_to-Ends _ r _) (
                        proxy_to_lem _ r _ λ e₁ there₁ queueing.
                          let h₂ =
                            All-set HoldsNothing _ r _ h₁ (All-get HoldsNothing _ r e₁ h₁ there₁) in
                          then_live (
                            with_lem (rename_channel-Ends _ _ _) (
                              rename_channel_lem _ _ _ λ channels watched. then_live (
                                with_lem (take_queue-Ends _ r) (
                                  take_queue_lem _ r λ e₂ there₂.
                                    after
                                      (send_messages-Ends
                                        (retarget params.accept_invitation_endpoint_name
                                          e₂.incoming_message_queue)
                                        params.actual_node_name _
                                        (retarget-CarriesNothing
                                          params.accept_invitation_endpoint_name
                                          e₂.incoming_message_queue
                                          (view_acceptance_named m params read)
                                          (All-get HoldsNothing _ r e₂ h₂ there₂)))
                                      λ _ w.
                                        after (unlock-Ends w r)
                                          λ _ x. on_received_accept-Ends x)))))))))))))

pub received_message-Ends :
    (m : Message) (s : Process)
    → All IsUnlocked s.heap
    → (message_type m ≡ type_code accept_invitation → All HoldsNothing s.heap)
    → Ends (on_received_message m s)
unfolding on_received_message
received_message-Ends m s free holds =
    if_live s (message_type m == type_code send_invitation) _ _ (λ _. received_invitation-Ends m s)
      (λ _.
        if_live s (message_type m == type_code accept_invitation) _ _
          (λ is. received_acceptance-Ends m s free (holds (ground (arith, is))))
          (λ _.
            if_live s (message_type m == type_code user_message) _ _
              (λ _. received_user_message-Ends m s free) (λ _. fails not_reached not_reached_lem)))
