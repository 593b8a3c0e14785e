-- ===== src/Node/Receive/Recover.antt =====
-- `OnReceivedUserMessage` of mage/core/node.cc with a message that carries an endpoint from another process:
-- an endpoint is made for it, and its handle is queued on the message.
use mage.Base.{
  ℕ, ◌+◌, ◌%◌, ◌^◌, ◌≡◌, refl, ap, sym, ◌∙◌, length-set, true, false, List, [], ◌∷◌, ◌++◌, map,
  some, none, get_elem?, set, length, bytes_eq, bytes_eq_iff, get_elem?-append_left,
  get_elem?-append_length,
}
use mage.Base.Result.{ok}
use mage.Message.{
  Message, EndpointDescriptor, target_endpoint, get_endpoint_descriptors, queue_pipe,
}
use mage.Map.{find, insert, name_key, pipe_key}
use mage.Endpoint.{Endpoint, Dispatch, accept_message, new_endpoint}
use mage.Process.{Process, Ref, done, dispatch}
use mage.Process.Laws.{with_endpoint}
use mage.Process.Heap.{allocate_endpoint}
use mage.Process.Exact.{
  step, require-true, or_fail-some, lift-ok, set-set, set-set_append, there-set, deref-there,
  lock-there, unlock-there,
}
use mage.Core.{get_next_message_pipe, recover_new_message_pipe, recover_pipes}
use mage.Node.Pipes.{register_local-fresh}
use mage.Node.Receive.{on_received_user_message}
use mage.Node.Receive.Exact.{handle_user_message-accept}

-- The endpoint that is made from a descriptor.
abbrev pub arriving : EndpointDescriptor → Endpoint
arriving d =
    new_endpoint d.cross_node_endpoint_name
      (record { node_name = d.peer_node_name; endpoint_name = d.peer_endpoint_name })

-- The next handle and the name of the endpoint are not in use.
pub record HasRoom (s : Process) (d : EndpointDescriptor) : Type 0 where
  pub handle : find s.next_available_handle s.handle_table ≡ none
  pub name : find d.cross_node_endpoint_name s.local_endpoints ≡ none

-- The state with that endpoint.
abbrev pub with_arriving : Process → EndpointDescriptor → Process
with_arriving s d = record s {
  heap = s.heap ++ arriving d ∷ [];
  next_available_handle = (s.next_available_handle + 1) % 2 ^ 32;
  handle_table = insert s.next_available_handle (length s.heap) s.handle_table;
  local_endpoints = insert d.cross_node_endpoint_name (length s.heap) s.local_endpoints;
}

recover_new-runs :
    (s : Process) (d : EndpointDescriptor)
    → HasRoom s d
    → recover_new_message_pipe d s ≡ done s.next_available_handle (with_arriving s d)
unfolding recover_new_message_pipe allocate_endpoint get_next_message_pipe
recover_new-runs s d room =
    let t : Process = record s {
      heap = s.heap ++ arriving d ∷ [];
      next_available_handle = (s.next_available_handle + 1) % 2 ^ 32;
    } in
    step _
      (register_local-fresh t s.next_available_handle (length s.heap) (arriving d) room.handle
        (get_elem?-append_length s.heap [] (arriving d)) room.name)
      refl

recover_pipes-one :
    (s : Process) (at : ℕ) (d : EndpointDescriptor) (m : Message)
    → HasRoom s d
    → recover_pipes recover_new_message_pipe ((at, d) ∷ []) m s
      ≡ done (queue_pipe m s.next_available_handle) (with_arriving s d)
unfolding recover_pipes
recover_pipes-one s at d m room = step _ (recover_new-runs s d room) refl

-- A user message that carries one endpoint, whose target is registered here, not locked and named so, in a
-- state where the next handle and the endpoint's new name are not in use: an endpoint of that name is made,
-- with the peer that the descriptor says, is registered, and gets the handle; and if the target accepts
-- the message with this handle as its pipe, as `Endpoint::AcceptMessage` has it, then it does just that,
-- is not locked afterwards, and what it posts is posted.
pub on_received_user_message-recovers :
    (s : Process) (m : Message) (r : Ref) (e e' : Endpoint) (at : ℕ) (d : EndpointDescriptor)
    (tasks : List Dispatch)
    → find (target_endpoint m) s.local_endpoints ≡ some r
    → get_elem? s.heap r ≡ some e
    → e.name ≡ target_endpoint m
    → e.lock ≡ false
    → get_endpoint_descriptors m ≡ ok ((at, d) ∷ [])
    → HasRoom s d
    → accept_message e (queue_pipe m s.next_available_handle) ≡ ok (e', tasks)
    → on_received_user_message m s
      ≡ done tt (record (with_arriving s d) {
        heap = set (s.heap ++ arriving d ∷ []) r (record e' { lock = false });
        tasks = s.tasks ++ map dispatch tasks;
      })
unfolding on_received_user_message
on_received_user_message-recovers s m r e e' at d tasks found there named free carries room
      accepts =
    let locked : Endpoint = record e { lock = true } in
    let s₁ : Process = with_endpoint s r locked in
    let there₁ = there-set s.heap r locked there in
    let s₂ : Process = record (with_arriving s d) {
      heap = set s.heap r locked ++ arriving d ∷ [];
      handle_table = insert s.next_available_handle (length s₁.heap) s.handle_table;
      local_endpoints = insert d.cross_node_endpoint_name (length s₁.heap) s.local_endpoints;
    } in
    let there₂ : get_elem? s₂.heap r ≡ some locked =
      get_elem?-append_left (set s.heap r locked) _ r there₁ in
    let s₃ : Process = record s₂ {
      heap = set s₂.heap r (record e' { lock = true });
      tasks = s.tasks ++ map dispatch tasks;
    } in
    let there₃ = there-set s₂.heap r (record e' { lock = true }) there₂ in
    step _ (or_fail-some s _ found) (
      step _ (deref-there s r there) (
        step _
          (require-true s (bytes_eq (target_endpoint m) e.name) ((bytes_eq_iff _ _).1 (sym named)))
          (step _ (lock-there s r there free) (
            step _ (lift-ok s₁ carries) (
              step _
                (recover_pipes-one s₁ at d m (record { handle = room.handle; name = room.name }))
                (step _ (deref-there s₂ r there₂) (
                  step _ (handle_user_message-accept s₂ _ r e e' tasks there₂ accepts) (
                    unlock-there s₃ r there₃
                    ∙ ap
                        (λ h.
                          done tt (record s₂ { heap = h; tasks = s.tasks ++ map dispatch tasks }))
                        (set-set s₂.heap r _ _ ∙ set-set_append s.heap (arriving d ∷ []) r locked _)
                    ∙ ap
                        (λ n. done tt (record (with_arriving s d) {
                          heap = set (s.heap ++ arriving d ∷ []) r (record e' { lock = false });
                          handle_table = insert s.next_available_handle n s.handle_table;
                          local_endpoints = insert d.cross_node_endpoint_name n s.local_endpoints;
                          tasks = s.tasks ++ map dispatch tasks;
                        }))
                        (length-set s.heap r locked)))))))))
