-- ===== src/Core/Framed.antt =====
-- The helpers of mage/core/core.cc, and the methods of mage/core/endpoint.cc by reference, queue only
-- messages that they are given.
use mage.Base.{
  ℕ, inl, inr, ◌≡◌, refl, sym, subst, ◌∙◌, ◌⊎◌, true, not, List, [], ◌∷◌, ◌++◌, Option, none, some,
  arith, length, All, All-append,
}
use mathlib.Core.List.{append-nil}
use mage.Base.Result.{Result, ok, Result-cases}
use mage.Message.{Message, MessagePipe, EndpointDescriptor, get_endpoint_descriptors, queue_pipe}
use mage.Map.{find, pipe_key}
use mage.Endpoint.{
  Endpoint, Dispatch, bound, unbound_and_proxying, state_eq, accept_message, accept_in,
  register_delegate, lock_endpoint, unlock_endpoint, deliver_queued, post_queued_messages,
  accept_message_on_io_thread,
}
use mage.Endpoint.Valid.{accept_on_io_thread-accept_message}
use mage.Process.{Process, Ref, Callback, M}
use mage.Process.Sound.{Sound, returned, seq, mono, lift_lem, or_fail_lem, require_lem}
use mage.Process.Heap.{allocate_endpoint, call_method}
use mage.Process.Laws.{deref_lem, call_method_lem}
use mage.Process.Invariant.{All-get, All-set}
use mage.Process.Framed.{IsSized, HoldsSized, Framed, Framed-refl, Framed-trans}
use mage.Core.{
  recover_existing_message_pipe, recover_new_message_pipe, recover_pipes, get_next_message_pipe,
  accept_message_on_delegate_thread, bind_receiver_delegate_to_endpoint, notify_inviter,
  core_on_received_accept_invitation, core_on_received_invitation, insert_handle,
}
use mage.Core.Invariant.{handle_of_name_lem}
use mage.Core.Locks.{register_local_lem}

accept_message-queue :
    (e e' : Endpoint) (m : Message) (tasks : List Dispatch)
    → accept_message e m ≡ ok (e', tasks)
    → (e'.incoming_message_queue ≡ e.incoming_message_queue ++ m ∷ [])
      ⊎ (e'.incoming_message_queue ≡ e.incoming_message_queue)
unfolding accept_message accept_in
accept_message-queue e e' m tasks h = ground arith

accept_message-HoldsSized :
    (e e' : Endpoint) (m : Message) (tasks : List Dispatch)
    → HoldsSized e
    → IsSized m
    → accept_message e m ≡ ok (e', tasks)
    → HoldsSized e'
accept_message-HoldsSized e e' m tasks h fits ran = elim (accept_message-queue e e' m tasks ran) [
  | inl more ↦
      subst (All IsSized) (sym more)
        (All-append IsSized e.incoming_message_queue (m ∷ []) h (fits, tt))
  | inr same ↦ subst (All IsSized) (sym same) h
]

register_delegate-queue :
    (e e' : Endpoint) (receiver runner : ℕ) (tasks : List Dispatch)
    → register_delegate e (some receiver) (some runner) ≡ ok (e', tasks)
    → e'.incoming_message_queue ≡ []
unfolding register_delegate lock_endpoint unlock_endpoint deliver_queued
register_delegate-queue e e' receiver runner tasks h =
    let e'' : Endpoint = record e {
      state = bound;
      delegate = some receiver;
      delegate_task_runner = some runner;
      lock = true;
    } in
    elim (Result-cases (post_queued_messages e'' e.incoming_message_queue)) [
      | inl (ts, made) ↦ ground (arith, made)
      | inr (f, failed) ↦ absurd (ground (arith, failed))
    ]

-- A method that posts tasks.
call_method-Framed :
    (s : Process) (r : Ref) (f : Endpoint → Result (Endpoint × List Dispatch))
    → All HoldsSized s.heap
    → ((e e' : Endpoint) (tasks : List Dispatch)
        → HoldsSized e
        → f e ≡ ok (e', tasks)
        → HoldsSized e')
    → Sound (λ _ t. Framed s t) (call_method r f s)
call_method-Framed s r f h keeps = call_method_lem s r f λ e e' tasks there ran. record {
  queues =
      All-set HoldsSized s.heap r e' h
        (keeps e e' tasks (All-get HoldsSized s.heap r e h there) ran);
  written = [];
  sent = sym (append-nil s.sent);
  frames = tt;
}

pub recover_new-Framed :
    (d : EndpointDescriptor) (s : Process)
    → All HoldsSized s.heap
    → Sound (λ _ t. Framed s t) (recover_new_message_pipe d s)
unfolding recover_new_message_pipe allocate_endpoint get_next_message_pipe
recover_new-Framed d s h = seq (
    register_local_lem _ s.next_available_handle (length s.heap) λ handles locals.
      returned (record {
        queues = All-append HoldsSized s.heap _ h (tt, tt);
        written = [];
        sent = sym (append-nil s.sent);
        frames = tt;
      }))

pub recover_existing-Framed :
    (d : EndpointDescriptor) (s : Process)
    → All HoldsSized s.heap
    → Sound (λ _ t. Framed s t) (recover_existing_message_pipe d s)
unfolding recover_existing_message_pipe
recover_existing-Framed d s h =
    handle_of_name_lem s d.endpoint_name s.handle_table λ _. Framed-refl s h

-- The recovered pipes stand beside the buffer.
pub recover_pipes-Framed :
    (recover : EndpointDescriptor → M MessagePipe)
    → ((d : EndpointDescriptor) (s : Process)
        → All HoldsSized s.heap
        → Sound (λ _ t. Framed s t) (recover d s))
    → (ds : List (ℕ × EndpointDescriptor)) (m : Message) (s : Process) → All HoldsSized s.heap
    → IsSized m
    → Sound (λ m' t. IsSized m' × Framed s t) (recover_pipes recover ds m s)
unfolding recover_pipes queue_pipe
recover_pipes-Framed recover one [] m s h fits = returned (fits, Framed-refl s h)
recover_pipes-Framed recover one ((at, d) ∷ ds) m s h fits = seq (
    mono (one d s h) λ pipe t a.
      mono (recover_pipes-Framed recover one ds (queue_pipe m pipe) t a.queues fits)
        λ _ u (fits', b). (fits', Framed-trans s t u a b))

pub accept_on_io_thread-Framed :
    (s : Process) (r : Ref) (m : Message)
    → All HoldsSized s.heap
    → IsSized m
    → Sound (λ _ t. Framed s t) (call_method r (λ e. accept_message_on_io_thread e m) s)
accept_on_io_thread-Framed s r m h fits = call_method-Framed s r _ h λ e e' tasks holds ran.
    accept_message-HoldsSized e e' m tasks holds fits
      (accept_on_io_thread-accept_message e m (e', tasks) ran)

pub accept_on_delegate_thread-Framed :
    (s : Process) (r : Ref) (m : Message)
    → All HoldsSized s.heap
    → IsSized m
    → Sound (λ _ t. Framed s t) (accept_message_on_delegate_thread r m s)
unfolding accept_message_on_delegate_thread
accept_on_delegate_thread-Framed s r m h fits = seq (
    deref_lem s r λ e there. seq (
      require_lem s (not (state_eq e.state unbound_and_proxying)) λ _. seq (
        lift_lem s (get_endpoint_descriptors m) λ ds read. seq (
          mono
            (recover_pipes-Framed recover_existing_message_pipe recover_existing-Framed ds m s h
              fits)
            λ m' t (fits', a).
              mono
                (call_method-Framed t r _ a.queues
                  λ e e' tasks holds ran. accept_message-HoldsSized e e' m' tasks holds fits' ran)
                λ _ u b. Framed-trans s t u a b))))

pub bind_receiver-Framed :
    (s : Process) (handle : MessagePipe) (receiver runner : ℕ)
    → All HoldsSized s.heap
    → Sound
        (λ _ t. Framed s t)
        (bind_receiver_delegate_to_endpoint handle (some receiver) (some runner) s)
unfolding bind_receiver_delegate_to_endpoint
bind_receiver-Framed s handle receiver runner h = seq (
    or_fail_lem s (find handle s.handle_table) _ λ r found.
      call_method-Framed s r _ h λ e e' tasks holds ran.
        subst (All IsSized) (sym (register_delegate-queue e e' receiver runner tasks ran)) tt)

pub unwritten :
    (s t : Process) → All HoldsSized s.heap → t.heap ≡ s.heap → t.sent ≡ s.sent → Framed s t
unwritten s t h same silent = record {
  queues = subst (All HoldsSized) (sym same) h;
  written = [];
  sent = silent ∙ sym (append-nil s.sent);
  frames = tt;
}

notify-Framed :
    (callback : Option Callback) (s : Process)
    → All HoldsSized s.heap
    → Sound (λ _ t. Framed s t) (notify_inviter callback s)
unfolding notify_inviter
notify-Framed none s h = returned (Framed-refl s h)
notify-Framed (some callback) s h = returned (unwritten s _ h refl refl)

pub on_received_accept-Framed :
    (s : Process)
    → All HoldsSized s.heap
    → Sound (λ _ t. Framed s t) (core_on_received_accept_invitation s)
unfolding core_on_received_accept_invitation
on_received_accept-Framed s h = notify-Framed s.remote_has_accepted_invitation_callback s h

pub on_received_invitation-Framed :
    (s : Process) (r : Ref)
    → All HoldsSized s.heap
    → Sound (λ _ t. Framed s t) (core_on_received_invitation r s)
unfolding core_on_received_invitation get_next_message_pipe insert_handle
on_received_invitation-Framed s r h = seq (
    or_fail_lem _ s.finished_accepting_invitation_callback _
      λ callback found. returned (unwritten s _ h refl refl))
