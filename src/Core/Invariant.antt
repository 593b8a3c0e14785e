-- ===== src/Core/Invariant.antt =====
-- The functions of mage/core/core.cc keep the tables of a process.
use mage.Base.{ℕ, List, [], ◌∷◌, ◌++◌, Option, none, some, length, not, bytes_eq}
use mage.Message.{
  Name, Message, MessagePipe, EndpointDescriptor, get_endpoint_descriptors, queue_pipe,
}
use mage.Map.{find, name_key, pipe_key}
use mage.Map.Laws.{All-insert}
use mage.Endpoint.{Endpoint, Address, new_endpoint, state_eq, unbound_and_proxying}
use mage.Endpoint.Valid.{IsValid, accept_message-IsValid, register_delegate-IsValid}
use mage.Process.{Process, Ref, M, Callback}
use mage.Process.Sound.{
  Sound, returned, stopped, seq, mono, lift_lem, or_fail_lem, require_lem, if_lem,
}
use mage.Process.Laws.{deref_lem, call_method_lem}
use mage.Process.Heap.{allocate_endpoint}
use mage.Process.Invariant.{
  Inv, After, Grows-refl, Grows-trans, After-refl, After-trans, Leads, Leads-get, Leads-allocated,
  allocate-After, set-After, All-get,
}
use mage.Core.{
  is_none, register_endpoint, get_next_message_pipe, insert_handle,
  register_local_handle_and_endpoint, handle_of_name, recover_existing_message_pipe,
  recover_new_message_pipe, recover_pipes, accept_message_on_delegate_thread,
  bind_receiver_delegate_to_endpoint, notify_inviter, core_on_received_accept_invitation,
  core_on_received_invitation,
}

module _ (s : Process) (i : Inv s) where
  register_endpoint-After : (r : Ref) → Sound (λ _ t. After s t) (register_endpoint r s)
  unfolding register_endpoint
  register_endpoint-After r = seq (
      deref_lem s r λ e there. seq (
        require_lem s (is_none (find e.name s.local_endpoints)) λ _. returned (
          record {
            registered =
                All-insert _ e.name r s.local_endpoints (Leads-get s.heap r e there) i.registered;
            handled = i.handled;
            invited = i.invited;
            valid = i.valid;
          },
          Grows-refl s.heap,
        )))

  insert_handle-After :
      (handle : MessagePipe) (r : Ref) (name : Name)
      → Leads s.heap name r
      → Sound (λ _ t. After s t) (insert_handle handle r s)
  unfolding insert_handle
  insert_handle-After handle r name leads = returned (
    record {
      registered = i.registered;
      handled = All-insert _ handle r s.handle_table (name, leads) i.handled;
      invited = i.invited;
      valid = i.valid;
    },
    Grows-refl s.heap,
  )

pub register_local-After :
    (s : Process) (handle : MessagePipe) (r : Ref) (name : Name)
    → Inv s
    → Leads s.heap name r
    → Sound (λ _ t. After s t) (register_local_handle_and_endpoint handle r s)
unfolding register_local_handle_and_endpoint
register_local-After s handle r name i leads = seq (
    require_lem s (is_none (find handle s.handle_table)) λ _. seq (
      mono (insert_handle-After s i handle r name leads)
        λ _ t a. mono (register_endpoint-After t a.0 r) λ _ u b. After-trans s t u a b))

pub handle_of_name_lem :
    {Q : MessagePipe → Process → Type 0} (s : Process) (name : Name)
    (table : List (MessagePipe × Ref))
    → ((handle : MessagePipe) → Q handle s)
    → Sound Q (handle_of_name name table s)
unfolding handle_of_name
handle_of_name_lem s name [] h = stopped _
handle_of_name_lem s name ((handle, r) ∷ table) h = seq (
    deref_lem s r λ e there.
      if_lem s (bytes_eq e.name name) _ _ (λ _. returned (h handle))
        (λ _. handle_of_name_lem s name table h))

pub recover_new-After :
    (s : Process) (d : EndpointDescriptor)
    → Inv s
    → Sound (λ _ t. After s t) (recover_new_message_pipe d s)
unfolding recover_new_message_pipe allocate_endpoint get_next_message_pipe
recover_new-After s d i =
    let peer : Address = record {
      node_name = d.peer_node_name;
      endpoint_name = d.peer_endpoint_name;
    } in
    let e : Endpoint = new_endpoint d.cross_node_endpoint_name peer in
    let a = allocate-After s d.cross_node_endpoint_name peer i in
    seq (
      mono
        (register_local-After _ s.next_available_handle (length s.heap) e.name a.0
          (Leads-allocated s.heap e))
        λ _ t b. returned (b.0, Grows-trans s.heap (s.heap ++ e ∷ []) t.heap a.1 b.1))

pub recover_pipes-After :
    (recover : EndpointDescriptor → M MessagePipe)
    → ((d : EndpointDescriptor) (s : Process) → Inv s → Sound (λ _ t. After s t) (recover d s))
    → (ds : List (ℕ × EndpointDescriptor)) (m : Message) (s : Process) → Inv s
    → Sound (λ _ t. After s t) (recover_pipes recover ds m s)
unfolding recover_pipes
recover_pipes-After recover step [] m s i = returned (After-refl s i)
recover_pipes-After recover step ((at, d) ∷ ds) m s i = seq (
    mono (step d s i) λ pipe t a.
      mono (recover_pipes-After recover step ds (queue_pipe m pipe) t a.0)
        λ _ u b. After-trans s t u a b)

pub recover_existing-After :
    (d : EndpointDescriptor) (s : Process)
    → Inv s
    → Sound (λ _ t. After s t) (recover_existing_message_pipe d s)
unfolding recover_existing_message_pipe
recover_existing-After d s i =
    handle_of_name_lem s d.endpoint_name s.handle_table λ _. After-refl s i

pub accept_on_delegate_thread-After :
    (s : Process) (r : Ref) (m : Message)
    → Inv s
    → Sound (λ _ t. After s t) (accept_message_on_delegate_thread r m s)
unfolding accept_message_on_delegate_thread
accept_on_delegate_thread-After s r m i = seq (
    deref_lem s r λ e there. seq (
      require_lem s (not (state_eq e.state unbound_and_proxying)) λ _. seq (
        lift_lem s (get_endpoint_descriptors m) λ ds read. seq (
          mono (recover_pipes-After recover_existing_message_pipe recover_existing-After ds m s i)
            λ m' t a. call_method_lem t r _ λ e₁ e₂ tasks there₁ ran.
              let (v, named) =
                accept_message-IsValid e₁ e₂ m' tasks (All-get IsValid t.heap r e₁ a.0.valid there₁)
                  ran in
              let b = set-After t r e₁ e₂ a.0 there₁ named v in
              (b.0, Grows-trans s.heap t.heap _ a.1 b.1)))))

pub bind_receiver-After :
    (s : Process) (handle : MessagePipe) (receiver runner : ℕ)
    → Inv s
    → Sound
        (λ _ t. After s t)
        (bind_receiver_delegate_to_endpoint handle (some receiver) (some runner) s)
unfolding bind_receiver_delegate_to_endpoint
bind_receiver-After s handle receiver runner i = seq (
    or_fail_lem s (find handle s.handle_table) _ λ r found.
      call_method_lem s r _ λ e e' ds there ran.
        let (v, named) =
          register_delegate-IsValid e e' receiver runner ds
            (All-get IsValid s.heap r e i.valid there) ran in
        set-After s r e e' i there named v)

notify-After :
    (s : Process)
    → Inv s
    → (callback : Option Callback) → Sound (λ _ t. After s t) (notify_inviter callback s)
unfolding notify_inviter
notify-After s i none = returned (After-refl s i)
notify-After s i (some callback) = returned (i, Grows-refl s.heap)

pub on_received_accept-After :
    (s : Process) → Inv s → Sound (λ _ t. After s t) (core_on_received_accept_invitation s)
unfolding core_on_received_accept_invitation
on_received_accept-After s i = notify-After s i s.remote_has_accepted_invitation_callback

pub on_received_invitation-After :
    (s : Process) (r : Ref) (name : Name)
    → Inv s
    → Leads s.heap name r
    → Sound (λ _ t. After s t) (core_on_received_invitation r s)
unfolding core_on_received_invitation get_next_message_pipe
on_received_invitation-After s r name i leads = seq (
    or_fail_lem _ s.finished_accepting_invitation_callback _ λ callback found. returned (
      record {
        registered = i.registered;
        handled = All-insert _ s.next_available_handle r s.handle_table (name, leads) i.handled;
        invited = i.invited;
        valid = i.valid;
      },
      Grows-refl s.heap,
    ))
