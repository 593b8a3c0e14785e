-- ===== src/Core/Locks.antt =====
-- The helpers of mage/core/core.cc, and the methods of mage/core/endpoint.cc by reference, release every
-- mutex that they acquire.
use mage.Base.{ℕ, inl, inr, ◌≡◌, refl, true, not, List, [], ◌∷◌, Option, none, some, arith, length}
use mage.Base.Result.{Result, ok, Result-cases}
use mage.Message.{
  Name, Message, MessagePipe, EndpointDescriptor, get_endpoint_descriptors, queue_pipe,
}
use mage.Map.{find, name_key, pipe_key}
use mage.Endpoint.{
  Endpoint, Dispatch, bound, unbound_and_proxying, state_eq, accept_message, accept_in,
  register_delegate, lock_endpoint, unlock_endpoint, deliver_queued, post_queued_messages,
  accept_message_on_io_thread,
}
use mage.Endpoint.Valid.{accept_on_io_thread-accept_message}
use mage.Process.{Process, Ref, Callback, M}
use mage.Process.Sound.{Sound, returned, seq, mono, lift_lem, or_fail_lem, require_lem}
use mage.Process.Heap.{allocate_endpoint, call_method}
use mage.Process.Laws.{deref_lem, call_method_lem}
use mage.Process.Locks.{
  Balanced, Balanced-refl, Balanced-same, Balanced-trans, Balanced-allocated, locks-kept,
}
use mage.Core.{
  is_none, register_endpoint, insert_handle, register_local_handle_and_endpoint,
  recover_existing_message_pipe, recover_new_message_pipe, recover_pipes, get_next_message_pipe,
  accept_message_on_delegate_thread, bind_receiver_delegate_to_endpoint, notify_inviter,
  core_on_received_accept_invitation, core_on_received_invitation,
}
use mage.Core.Invariant.{handle_of_name_lem}

accept_message-keeps_lock :
    (e e' : Endpoint) (m : Message) (tasks : List Dispatch)
    → accept_message e m ≡ ok (e', tasks)
    → e'.lock ≡ e.lock
unfolding accept_message accept_in
accept_message-keeps_lock e e' m tasks h = ground arith

register_delegate-keeps_lock :
    (e e' : Endpoint) (receiver runner : ℕ) (tasks : List Dispatch)
    → register_delegate e (some receiver) (some runner) ≡ ok (e', tasks)
    → e'.lock ≡ e.lock
unfolding register_delegate lock_endpoint unlock_endpoint deliver_queued
register_delegate-keeps_lock e e' receiver runner tasks h =
    let e'' : Endpoint = record e {
      state = bound;
      delegate = some receiver;
      delegate_task_runner = some runner;
      lock = true;
    } in
    elim (Result-cases (post_queued_messages e'' e.incoming_message_queue)) [
      | inl (ts, made) ↦ ground (arith, made)
      | inr (f, failed) ↦ absurd (ground (arith, failed))
    ]

-- The tables are no part of the locks.
pub register_local_lem :
    {Q : Unit {0} → Process → Type 0} (s : Process) (handle : MessagePipe) (r : Ref)
    → ((handles : List (MessagePipe × Ref)) (locals : List (Name × Ref))
        → Q tt (record s { handle_table = handles; local_endpoints = locals }))
    → Sound Q (register_local_handle_and_endpoint handle r s)
unfolding register_local_handle_and_endpoint insert_handle register_endpoint
register_local_lem s handle r h = seq (
    require_lem s (is_none (find handle s.handle_table)) λ _. seq (
      deref_lem _ r λ e there.
        seq (require_lem _ (is_none (find e.name s.local_endpoints)) λ _. returned (h _ _))))

pub recover_new-Balanced :
    (d : EndpointDescriptor) (s : Process)
    → Sound (λ _ t. Balanced s.heap t.heap) (recover_new_message_pipe d s)
unfolding recover_new_message_pipe allocate_endpoint get_next_message_pipe
recover_new-Balanced d s = seq (
    register_local_lem _ s.next_available_handle (length s.heap)
      λ handles locals. returned (Balanced-allocated s.heap _ refl))

pub recover_existing-Balanced :
    (d : EndpointDescriptor) (s : Process)
    → Sound (λ _ t. Balanced s.heap t.heap) (recover_existing_message_pipe d s)
unfolding recover_existing_message_pipe
recover_existing-Balanced d s =
    handle_of_name_lem s d.endpoint_name s.handle_table λ _. Balanced-refl s.heap

pub recover_pipes-Balanced :
    (recover : EndpointDescriptor → M MessagePipe)
    → ((d : EndpointDescriptor) (s : Process) → Sound (λ _ t. Balanced s.heap t.heap) (recover d s))
    → (ds : List (ℕ × EndpointDescriptor)) (m : Message) (s : Process)
    → Sound (λ _ t. Balanced s.heap t.heap) (recover_pipes recover ds m s)
unfolding recover_pipes
recover_pipes-Balanced recover one [] m s = returned (Balanced-refl s.heap)
recover_pipes-Balanced recover one ((at, d) ∷ ds) m s = seq (
    mono (one d s) λ pipe t a.
      mono (recover_pipes-Balanced recover one ds (queue_pipe m pipe) t)
        λ _ u b. Balanced-trans s.heap t.heap u.heap a b)

-- A method that posts tasks and leaves the lock as it is.
call_method-Balanced :
    (s : Process) (r : Ref) (f : Endpoint → Result (Endpoint × List Dispatch))
    → ((e e' : Endpoint) (tasks : List Dispatch) → f e ≡ ok (e', tasks) → e'.lock ≡ e.lock)
    → Sound (λ _ t. Balanced s.heap t.heap) (call_method r f s)
call_method-Balanced s r f keeps = call_method_lem s r f λ e e' tasks there ran.
    Balanced-same s.heap _ (locks-kept s.heap r e e' there (keeps e e' tasks ran))

pub accept_on_io_thread-Balanced :
    (s : Process) (r : Ref) (m : Message)
    → Sound (λ _ t. Balanced s.heap t.heap) (call_method r (λ e. accept_message_on_io_thread e m) s)
accept_on_io_thread-Balanced s r m = call_method-Balanced s r _ λ e e' tasks ran.
    accept_message-keeps_lock e e' m tasks (accept_on_io_thread-accept_message e m (e', tasks) ran)

pub accept_on_delegate_thread-Balanced :
    (s : Process) (r : Ref) (m : Message)
    → Sound (λ _ t. Balanced s.heap t.heap) (accept_message_on_delegate_thread r m s)
unfolding accept_message_on_delegate_thread
accept_on_delegate_thread-Balanced s r m = seq (
    deref_lem s r λ e there. seq (
      require_lem s (not (state_eq e.state unbound_and_proxying)) λ _. seq (
        lift_lem s (get_endpoint_descriptors m) λ ds read. seq (
          mono
            (recover_pipes-Balanced recover_existing_message_pipe recover_existing-Balanced ds m s)
            λ m' t a.
              mono
                (call_method-Balanced t r _
                  λ e e' tasks ran. accept_message-keeps_lock e e' m' tasks ran)
                λ _ u b. Balanced-trans s.heap t.heap u.heap a b))))

pub bind_receiver-Balanced :
    (s : Process) (handle : MessagePipe) (receiver runner : ℕ)
    → Sound
        (λ _ t. Balanced s.heap t.heap)
        (bind_receiver_delegate_to_endpoint handle (some receiver) (some runner) s)
unfolding bind_receiver_delegate_to_endpoint
bind_receiver-Balanced s handle receiver runner = seq (
    or_fail_lem s (find handle s.handle_table) _ λ r found.
      call_method-Balanced s r _
        λ e e' tasks ran. register_delegate-keeps_lock e e' receiver runner tasks ran)

notify-Balanced :
    (callback : Option Callback) (s : Process)
    → Sound (λ _ t. Balanced s.heap t.heap) (notify_inviter callback s)
unfolding notify_inviter
notify-Balanced none s = returned (Balanced-refl s.heap)
notify-Balanced (some callback) s = returned (Balanced-refl s.heap)

pub on_received_accept-Balanced :
    (s : Process) → Sound (λ _ t. Balanced s.heap t.heap) (core_on_received_accept_invitation s)
unfolding core_on_received_accept_invitation
on_received_accept-Balanced s = notify-Balanced s.remote_has_accepted_invitation_callback s

pub on_received_invitation-Balanced :
    (s : Process) (r : Ref)
    → Sound (λ _ t. Balanced s.heap t.heap) (core_on_received_invitation r s)
unfolding core_on_received_invitation get_next_message_pipe insert_handle
on_received_invitation-Balanced s r = seq (
    or_fail_lem _ s.finished_accepting_invitation_callback _
      λ callback found. returned (Balanced-refl s.heap))
