-- ===== src/Node/Invariant/Inviting.antt =====
-- New pipes and invitations, in mage/core/node.cc, keep the tables of a process.
use mage.Util.{random_identifier}
use mage.Base.{◌+◌, ◌%◌, ◌^◌, List, [], ◌∷◌, ◌++◌, not, length}
use mage.Message.{Name, Message, MessagePipe, identifier_size}
use mage.Map.{find, erase, name_key}
use mage.Map.Laws.{All-insert, All-erase}
use mage.Endpoint.{Endpoint, Address, new_endpoint}
use mage.Process.{Process, Fd}
use mage.Process.Sound.{Sound, returned, seq, mono, lift_lem, or_fail_lem, require_lem}
use mage.Process.Heap.{allocate_endpoint, fresh_identifier}
use mage.Process.Laws.{deref_lem}
use mage.Process.Invariant.{
  Inv, After, Grows, Grows-refl, Grows-trans, Leads, Leads-Grows, Leads-allocated, allocate-After,
}
use mage.Channel.{
  view_invitation, view_acceptance, invitation_message, acceptance_message, AcceptanceParams,
}
use mage.Channel.Write.{send_on_channel_lem}
use mage.Core.{get_next_message_pipe}
use mage.Core.Invariant.{
  register_local-After, on_received_accept-After, on_received_invitation-After,
}
use mage.Node.{
  initialize_and_entangle_endpoints, create_message_pipes_and_get_endpoints, initial_channel_name,
}
use mage.Node.Send.Drain.{channel_of_lem}
use mage.Node.Invariant.{
  lock-After, unlock-After, proxy_to-After, take_queue-After, require_registered_lem,
  insert_channel_lem, rename_channel_lem,
}
use mage.Node.Invariant.Sending.{send_messages-After}
use mage.Node.Invitation.{
  node_send_invitation_and_get_message_pipe, node_accept_invitation, on_received_invitation,
  on_received_accept_invitation,
}

-- Two endpoints are made, and two handles lead to them.
pub create_pipes-After :
    (s : Process)
    → Inv s
    → Sound
        (λ ((_, _), (_, r)) t. After s t × ((name : Name) × Leads t.heap name r))
        (create_message_pipes_and_get_endpoints s)
unfolding create_message_pipes_and_get_endpoints initialize_and_entangle_endpoints fresh_identifier
    allocate_endpoint get_next_message_pipe
create_pipes-After s i =
    let n₁ : Name = random_identifier s.world.draw s.drawn in
    let n₂ : Name = random_identifier s.world.draw (s.drawn + identifier_size) in
    let p₁ : Address = record { node_name = s.name; endpoint_name = n₂ } in
    let p₂ : Address = record { node_name = s.name; endpoint_name = n₁ } in
    let one : List Endpoint = s.heap ++ new_endpoint n₁ p₁ ∷ [] in
    let two : List Endpoint = one ++ new_endpoint n₂ p₂ ∷ [] in
    let a = allocate-After s n₁ p₁ i in
    let b = allocate-After (record s { heap = one }) n₂ p₂ a.0 in
    let grown : Grows s.heap two = Grows-trans s.heap one two a.1 b.1 in
    let h₁ : MessagePipe = s.next_available_handle in
    let h₂ : MessagePipe = (h₁ + 1) % 2 ^ 32 in
    let to₁ : Leads two n₁ (length s.heap) =
      Leads-Grows one two n₁ _ b.1 (Leads-allocated s.heap (new_endpoint n₁ p₁)) in
    let to₂ : Leads two n₂ (length one) = Leads-allocated one (new_endpoint n₂ p₂) in
    seq (
      mono (register_local-After _ h₁ (length s.heap) n₁ b.0 to₁) λ _ t c.
        let to₂' = Leads-Grows two t.heap n₂ (length one) c.1 to₂ in
        seq (
          mono (register_local-After t h₂ (length one) n₂ c.0 to₂') λ _ u d. seq (
            require_registered_lem u (length s.heap) (
              seq (
                require_registered_lem u (length one) (
                  returned (
                    (
                      d.0,
                      Grows-trans s.heap two u.heap grown (Grows-trans two t.heap u.heap c.1 d.1),
                    ),
                    (n₂, Leads-Grows t.heap u.heap n₂ (length one) d.1 to₂'),
                  )))))))

pub node_send_invitation-After :
    (fd : Fd) (s : Process)
    → Inv s
    → Sound (λ _ t. After s t) (node_send_invitation_and_get_message_pipe fd s)
unfolding node_send_invitation_and_get_message_pipe
node_send_invitation-After fd s i = seq (
    mono (create_pipes-After s i) λ ((h₁, r₁), (h₂, r₂)) t (a, (name, leads)).
      let temporary : Name = random_identifier t.world.draw t.drawn in
      seq (
        insert_channel_lem (record t { drawn = t.drawn + identifier_size }) temporary fd
          λ channels watched. seq (
            channel_of_lem _ temporary λ channel found. seq (
              deref_lem _ r₂ λ remote there. seq (
                send_on_channel_lem _ channel
                  (invitation_message (record {
                    inviter_name = t.name;
                    temporary_remote_node_name = temporary;
                    intended_endpoint_peer_name = remote.peer_address.endpoint_name;
                  }))
                  (returned (
                    record {
                      registered = a.0.registered;
                      handled = a.0.handled;
                      invited =
                          All-insert _ temporary r₂ t.pending_invitations (name, leads) a.0.invited;
                      valid = a.0.valid;
                    },
                    a.1,
                  )))))))

pub node_accept_invitation-After :
    (fd : Fd) (s : Process) → Inv s → Sound (λ _ t. After s t) (node_accept_invitation fd s)
unfolding node_accept_invitation
node_accept_invitation-After fd s i = seq (
    require_lem s (not s.has_accepted_invitation) λ _. seq (
      insert_channel_lem s initial_channel_name fd λ channels watched.
        seq
          (channel_of_lem _ initial_channel_name λ channel found. returned (i, Grows-refl s.heap))))

pub on_received_invitation-After' :
    (m : Message) (s : Process) → Inv s → Sound (λ _ t. After s t) (on_received_invitation m s)
unfolding on_received_invitation
on_received_invitation-After' m s i = seq (
    lift_lem s (view_invitation m) λ params read. seq (
      rename_channel_lem s initial_channel_name params.inviter_name λ channels watched.
        let name : Name = random_identifier s.world.draw s.drawn in
        let peer : Address = record {
          node_name = params.inviter_name;
          endpoint_name = params.intended_endpoint_peer_name;
        } in
        let e : Endpoint = new_endpoint name peer in
        let a = allocate-After s name peer i in
        let leads = Leads-allocated s.heap e in
        seq (
          channel_of_lem _ params.inviter_name λ channel found. seq (
            send_on_channel_lem _ channel
              (acceptance_message (record {
                temporary_remote_node_name = params.temporary_remote_node_name;
                actual_node_name = s.name;
                accept_invitation_endpoint_name = name;
              }))
              (mono
                (on_received_invitation-After _ (length s.heap) name
                  (record {
                    registered =
                        All-insert _ name (length s.heap) s.local_endpoints leads a.0.registered;
                    handled = a.0.handled;
                    invited = a.0.invited;
                    valid = a.0.valid;
                  })
                  leads)
                λ _ t b. (b.0, Grows-trans s.heap (s.heap ++ e ∷ []) t.heap a.1 b.1))))))

pub on_received_accept_invitation-After :
    (m : Message) (s : Process)
    → Inv s
    → Sound (λ _ t. After s t) (on_received_accept_invitation m s)
unfolding on_received_accept_invitation
on_received_accept_invitation-After m s i = seq (
    lift_lem s (view_acceptance m) λ params read. seq (
      or_fail_lem s (find params.temporary_remote_node_name s.pending_invitations) _ λ r found.
        seq (
          require_registered_lem _ r (
            seq (
              mono (lock-After _ (erased params) r) λ _ t a. seq (
                mono (proxy_to-After t a.0 r _) λ _ u b. seq (
                  rename_channel_lem u _ _ λ channels watched. seq (
                    mono (take_queue-After _ b.0 r) λ queued v c. seq (
                      mono (send_messages-After _ _ v c.0) λ _ w e. seq (
                        mono (unlock-After w e.0 r) λ _ x f.
                          mono (on_received_accept-After x f.0) λ _ y g. (
                            g.0,
                            Grows-trans s.heap v.heap y.heap
                                (Grows-trans s.heap u.heap v.heap
                                  (Grows-trans s.heap t.heap u.heap a.1 b.1) c.1)
                                (Grows-trans v.heap x.heap y.heap
                                  (Grows-trans v.heap w.heap x.heap e.1 f.1) g.1),
                          )))))))))))
  where
    erased :
        (params : AcceptanceParams)
        → Inv (record s {
          pending_invitations = erase params.temporary_remote_node_name s.pending_invitations;
        })
    erased params = record {
      registered = i.registered;
      handled = i.handled;
      invited = All-erase _ params.temporary_remote_node_name s.pending_invitations i.invited;
      valid = i.valid;
    }
