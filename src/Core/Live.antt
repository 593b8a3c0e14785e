-- ===== src/Core/Live.antt =====
-- The helpers of mage/core/core.cc and the methods of mage/core/endpoint.cc come to an end.
use mage.Base.{
  ℕ, zero, suc, ◌+◌, ◌≢◌, true, not, List, [], ◌∷◌, Option, none, some, All, arith, length,
  bytes_eq,
}
use mage.Base.Result.{crash, deadlock, not_reached}
use mage.Bytes.{Bytes, read_int}
use mage.Message.{
  Name, Message, MessagePipe, EndpointDescriptor, get_endpoint_descriptors, read_array, rounds,
  array_header_size, read_descriptors, get_pointer, endpoints_at, queue_pipe,
}
use mage.Map.{find, pipe_key, name_key}
use mage.Endpoint.{
  Endpoint, State, bound, unbound_and_queueing, unbound_and_proxying, state_eq, accept_message,
  accept_in, accept_message_on_io_thread, post_message_to_delegate, posted, post_queued_messages,
  deliver_queued, register_delegate, lock_endpoint, Delegate, TaskRunner,
}
use mage.Process.{Callback, Process, Ref, M}
use mage.Process.Invariant.{All-get}
use mage.Process.Locks.{IsUnlocked}
use mage.Process.Heap.{allocate_endpoint, fresh_identifier}
use mage.Process.Live.{
  Ends, ends, fails, then_live, after, lift_live, or_fail_live, if_live, require_live, deref_live,
  call_method-Ends, bad_access_lem, check_failed_lem, not_reached_lem,
}
use mage.Core.{
  notify_inviter, core_on_received_accept_invitation, accept_message_on_delegate_thread, is_none,
  register_endpoint, register_local_handle_and_endpoint, insert_handle, get_next_message_pipe,
  handle_of_name, recover_existing_message_pipe, recover_new_message_pipe, recover_pipes,
  endpoint_of_handle, populate_endpoint_descriptor, bind_receiver_delegate_to_endpoint,
  core_on_received_invitation,
}

read_descriptors_ends : (bs : Bytes) (at n : ℕ) → read_descriptors bs at n ≢ crash deadlock
unfolding read_descriptors
read_descriptors_ends bs at zero h = cc
read_descriptors_ends bs at (suc n) h = ground (arith, read_descriptors_ends bs (at + 60) n)

read_array_ends : (bs : Bytes) (array : Option ℕ) → read_array bs array ≢ crash deadlock
unfolding read_array
read_array_ends bs none h = cc
read_array_ends bs (some array) h =
    ground
      (arith, read_descriptors_ends bs (array + array_header_size) (rounds (read_int bs array 4)))

pub get_endpoint_descriptors_ends : (m : Message) → get_endpoint_descriptors m ≢ crash deadlock
unfolding get_endpoint_descriptors
get_endpoint_descriptors_ends m =
    read_array_ends m.payload_buffer (get_pointer m.payload_buffer endpoints_at)

posted_ends :
    (runner : TaskRunner) (delegate : Delegate) (m : Message)
    → posted runner delegate m ≢ crash deadlock
unfolding posted
posted_ends (some r) (some d) m h = cc
posted_ends (some r) none m h = cc
posted_ends none d m h = cc

post_message_ends : (e : Endpoint) (m : Message) → post_message_to_delegate e m ≢ crash deadlock
unfolding post_message_to_delegate
post_message_ends e m h = ground (arith, posted_ends e.delegate_task_runner e.delegate m)

accept_in_ends : (state : State) (e : Endpoint) (m : Message) → accept_in state e m ≢ crash deadlock
unfolding accept_in
accept_in_ends bound e m h = ground (arith, post_message_ends e m)
accept_in_ends unbound_and_queueing e m h = ground arith
accept_in_ends unbound_and_proxying e m h = cc

accept_message_ends : (e : Endpoint) (m : Message) → accept_message e m ≢ crash deadlock
unfolding accept_message
accept_message_ends e m h = ground (arith, accept_in_ends e.state e m)

pub accept_on_io_thread_ends :
    (e : Endpoint) (m : Message) → accept_message_on_io_thread e m ≢ crash deadlock
unfolding accept_message_on_io_thread
accept_on_io_thread_ends e m h = ground (arith, accept_message_ends e m)

post_queued_ends : (e : Endpoint) (ms : List Message) → post_queued_messages e ms ≢ crash deadlock
unfolding post_queued_messages
post_queued_ends e [] h = cc
post_queued_ends e (m ∷ ms) h = ground (arith, post_message_ends e m, post_queued_ends e ms)

deliver_queued_ends : (e : Endpoint) → deliver_queued e ≢ crash deadlock
unfolding deliver_queued
deliver_queued_ends e h = ground (arith, post_queued_ends e e.incoming_message_queue)

-- A receiver binds to an endpoint whose mutex nobody holds.
register_delegate_ends :
    (e : Endpoint) (delegate : Delegate) (runner : TaskRunner)
    → IsUnlocked e
    → register_delegate e delegate runner ≢ crash deadlock
unfolding register_delegate lock_endpoint
register_delegate_ends e delegate runner free h = ground (
  arith,
  free,
  deliver_queued_ends
      (record e { state = bound; delegate = delegate; delegate_task_runner = runner; lock = true }),
)

register_endpoint-Ends : (s : Process) (r : Ref) → Ends (register_endpoint r s)
unfolding register_endpoint
register_endpoint-Ends s r = then_live (
    deref_live s r
      λ e there. then_live (require_live s (is_none (find e.name s.local_endpoints)) ends))

pub register_local-Ends :
    (s : Process) (handle : MessagePipe) (r : Ref)
    → Ends (register_local_handle_and_endpoint handle r s)
unfolding register_local_handle_and_endpoint insert_handle
register_local-Ends s handle r =
    then_live (require_live s (is_none (find handle s.handle_table)) (register_endpoint-Ends _ r))

handle_of_name-Ends :
    (name : Name) (table : List (MessagePipe × Ref)) (s : Process)
    → Ends (handle_of_name name table s)
unfolding handle_of_name
handle_of_name-Ends name [] s = fails not_reached not_reached_lem
handle_of_name-Ends name ((handle, r) ∷ table) s = then_live (
    deref_live s r λ e there.
      if_live s (bytes_eq e.name name) _ _ (λ _. ends) (λ _. handle_of_name-Ends name table s))

pub recover_existing-Ends :
    (d : EndpointDescriptor) (s : Process) → Ends (recover_existing_message_pipe d s)
unfolding recover_existing_message_pipe
recover_existing-Ends d s = handle_of_name-Ends d.endpoint_name s.handle_table s

pub recover_new-Ends : (d : EndpointDescriptor) (s : Process) → Ends (recover_new_message_pipe d s)
unfolding recover_new_message_pipe allocate_endpoint get_next_message_pipe
recover_new-Ends d s =
    after (register_local-Ends _ s.next_available_handle (length s.heap)) λ _ t. ends

pub recover_pipes-Ends :
    (recover : EndpointDescriptor → M MessagePipe)
    → ((d : EndpointDescriptor) (s : Process) → Ends (recover d s))
    → (ds : List (ℕ × EndpointDescriptor)) (m : Message) (s : Process)
    → Ends (recover_pipes recover ds m s)
unfolding recover_pipes
recover_pipes-Ends recover one [] m s = ends
recover_pipes-Ends recover one ((at, d) ∷ ds) m s =
    after (one d s) λ pipe t. recover_pipes-Ends recover one ds (queue_pipe m pipe) t

pub populate-Ends :
    (handle carrier : MessagePipe) (s : Process)
    → Ends (populate_endpoint_descriptor handle carrier s)
unfolding populate_endpoint_descriptor endpoint_of_handle fresh_identifier
populate-Ends handle carrier s = then_live (
    or_fail_live s (find carrier s.handle_table) _ bad_access_lem λ r found. then_live (
      deref_live s r λ e there. then_live (
        require_live s (not (state_eq e.state unbound_and_proxying)) (
          then_live (
            or_fail_live s (find handle s.handle_table) _ bad_access_lem
              λ r' found'. then_live (deref_live s r' λ e' there'. ends))))))

pub bind_receiver-Ends :
    (s : Process) (handle : MessagePipe) (delegate : Delegate) (runner : TaskRunner)
    → All IsUnlocked s.heap
    → Ends (bind_receiver_delegate_to_endpoint handle delegate runner s)
unfolding bind_receiver_delegate_to_endpoint
bind_receiver-Ends s handle delegate runner free = then_live (
    or_fail_live s (find handle s.handle_table) _ check_failed_lem λ r found.
      call_method-Ends s r _ λ e there.
        register_delegate_ends e delegate runner (All-get IsUnlocked s.heap r e free there))

pub on_received_invitation-Ends : (s : Process) (r : Ref) → Ends (core_on_received_invitation r s)
unfolding core_on_received_invitation get_next_message_pipe insert_handle
on_received_invitation-Ends s r = then_live (
    or_fail_live _ s.finished_accepting_invitation_callback _ check_failed_lem
      λ callback found. ends)

notify-Ends : (callback : Option Callback) (s : Process) → Ends (notify_inviter callback s)
unfolding notify_inviter
notify-Ends none s = ends
notify-Ends (some callback) s = ends

pub on_received_accept-Ends : (s : Process) → Ends (core_on_received_accept_invitation s)
unfolding core_on_received_accept_invitation
on_received_accept-Ends s = notify-Ends s.remote_has_accepted_invitation_callback s

pub accept_on_delegate_thread-Ends :
    (s : Process) (r : Ref) (m : Message) → Ends (accept_message_on_delegate_thread r m s)
unfolding accept_message_on_delegate_thread
accept_on_delegate_thread-Ends s r m = then_live (
    deref_live s r λ e there. then_live (
      require_live s (not (state_eq e.state unbound_and_proxying)) (
        then_live (
          lift_live s (get_endpoint_descriptors m) (get_endpoint_descriptors_ends m) λ ds read.
            after (recover_pipes-Ends recover_existing_message_pipe recover_existing-Ends ds m s)
              λ m' t.
                call_method-Ends t r (λ e'. accept_message e' m')
                  λ e' there'. accept_message_ends e' m'))))
