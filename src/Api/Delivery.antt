-- ===== src/Api/Delivery.antt =====
-- From the creation of a pipe to its receiver, through the entry points of mage/core/api.cc.
use mage.Util.Laws.{length-random_identifier}
use mage.Base.{
  ◌+◌, ℕ, ◌≡◌, refl, ap, ◌∙◌, not, List, [], ◌∷◌, ◌++◌, map, some, none, arith, get_elem?, set,
  length-append, All,
}
use mage.Base.Result.{ok}
use mage.Message.{Message, MessagePipe, identifier_size}
use mage.Map.{find, name_key, pipe_key}
use mage.Endpoint.{Endpoint, Dispatch, bound, register_delegate}
use mage.Endpoint.Valid.{AllServed, register_delegate_lem, new_endpoint-IsValid}
use mage.Process.{Process, Outcome, done, crashed, out_of_fuel, M, and_then, Ref, dispatch}
use mage.Process.Exact.{step, or_fail-some, require-true, there-set, call_method-there}
use mage.Core.{is_none, bind_receiver_delegate_to_endpoint}
use mage.Node.Pipes.{
  IsFresh, created, first, second, first_handle, second_handle, first_ref, second_ref, second_name,
  create_pipes-Entangled,
}
use mage.Node.Send.{retarget}
use mage.Api.{create_message_pipes, require_handle, Call, creates_pipes, sends, binds, perform, run}
use mage.Api.Pipe.{IsPlain, LeadsTo, with_queued, with_queued_at, with_queued-IsValid, run-queues}

and_then_assoc :
    {A B C : Type 0} (r : Outcome A) (k : A → M C) (k' : A → M B) (l : B → M C)
    → ((a : A) (s : Process) → k a s ≡ and_then (k' a s) l)
    → and_then r k ≡ and_then (and_then r k') l
and_then_assoc (done a s) k k' l h = h a s
and_then_assoc (crashed f) k k' l h = refl
and_then_assoc out_of_fuel k k' l h = refl

-- A history in two stretches.
pub run-append :
    (cs ds : List Call) (s t : Process) → run cs s ≡ done tt t → run (cs ++ ds) s ≡ run ds t
unfolding run
run-append cs ds s t e = joined cs s ∙ ap (λ r. and_then r (λ _. run ds)) e
  where
    joined : (cs : List Call) (s : Process) → run (cs ++ ds) s ≡ and_then (run cs s) (λ _. run ds)
    joined [] s = refl
    joined (c ∷ cs) s =
        and_then_assoc (perform c s) (λ _. run (cs ++ ds)) (λ _. run cs) (λ _. run ds)
          (λ _ t. joined cs t)

-- `CreateMessagePipes` in a state where the handles and the names are fresh.
pub create_message_pipes-created :
    (s : Process)
    → IsFresh s
    → create_message_pipes s ≡ done (first_handle s, second_handle s) (created s)
unfolding create_message_pipes require_handle
create_message_pipes-created s fresh =
    let (made, entangled) = create_pipes-Entangled s fresh in
    step _ made (
      step _
        (require-true (created s) (not (is_none (find (first_handle s) (created s).handle_table)))
          (ap (λ o. not (is_none o)) entangled.handle_1))
        (step _
          (require-true (created s)
            (not (is_none (find (second_handle s) (created s).handle_table)))
            (ap (λ o. not (is_none o)) entangled.handle_2))
          refl))

pub run-creates : (s : Process) → IsFresh s → run (creates_pipes ∷ []) s ≡ done tt (created s)
unfolding run perform
run-creates s fresh = step _ (step _ (create_message_pipes-created s fresh) refl) refl

-- The first handle leads to the second endpoint.
pub created-LeadsTo :
    (s : Process)
    → IsFresh s
    → find s.name s.node_channel_map ≡ none
    → LeadsTo (created s) (first_handle s) (second_ref s) (second s)
created-LeadsTo s fresh apart =
    let (made, entangled) = create_pipes-Entangled s fresh in
    record {
      sender = first_ref s;
      sending = first s;
      handled = entangled.handle_1;
      there = entangled.there_1;
      other = λ h. absurd (omega (arith, h, length-append s.heap (first s ∷ [])));
      target = refl;
      named = length-random_identifier s.world.draw (s.drawn + identifier_size);
      found = entangled.registered_2;
      apart = apart;
      peer = entangled.there_2;
      valid = new_endpoint-IsValid _ _;
      queueing = refl;
      free = refl;
    }

-- The state after the messages wait and the receiver binds.
pub run-binds :
    (t : Process) (h : MessagePipe) (r : Ref) (e e' : Endpoint) (receiver runner : ℕ)
    (tasks : List Dispatch)
    → find h t.handle_table ≡ some r
    → get_elem? t.heap r ≡ some e
    → register_delegate e (some receiver) (some runner) ≡ ok (e', tasks)
    → run (binds h receiver runner ∷ []) t
      ≡ done tt (record t { heap = set t.heap r e'; tasks = t.tasks ++ map dispatch tasks })
unfolding run perform bind_receiver_delegate_to_endpoint
run-binds t h r e e' receiver runner tasks handled there registers =
    step _ (step _ (or_fail-some t _ handled) (call_method-there t r there _ registers)) refl

-- In a state where the next handles and the names that are drawn are fresh, and the node has no channel to
-- itself: a pipe is created, user messages without endpoints are sent on its first end, and a receiver
-- binds to its second end. All of this returns; it posts to the receiver's task runner, in the order in
-- which they were sent and each once, the messages, retargeted to the second end, and nothing else; and
-- nothing is written to a socket.
pub pipe_delivers :
    (s : Process) (ms : List Message) (receiver runner : ℕ)
    → IsFresh s
    → find s.name s.node_channel_map ≡ none
    → All IsPlain ms
    → (t : Process) × (tasks : List Dispatch) × (run
          (creates_pipes
            ∷ (map (sends (first_handle s)) ms ++ binds (second_handle s) receiver runner ∷ []))
          s
        ≡ done tt t)
      × (t.tasks ≡ s.tasks ++ map dispatch tasks)
      × AllServed (some receiver) (some runner) (retarget (second_name s) ms) tasks
      × (t.sent ≡ s.sent)
pipe_delivers s ms receiver runner fresh apart plain =
    let (made, entangled) = create_pipes-Entangled s fresh in
    let waiting : List Message = retarget (second_name s) ms in
    let e : Endpoint = with_queued (second s) waiting in
    let t : Process = with_queued_at (created s) (second_ref s) (second s) waiting in
    let (tasks, registers, served, valid) =
      register_delegate_lem e receiver runner
        (with_queued-IsValid (second s) waiting (new_endpoint-IsValid _ _) refl) refl refl in
    (
      record t {
        heap = set t.heap (second_ref s) (record e {
          state = bound;
          delegate = some receiver;
          delegate_task_runner = some runner;
          incoming_message_queue = [];
        });
        tasks = t.tasks ++ map dispatch tasks;
      },
      tasks,
      run-append (creates_pipes ∷ []) _ s (created s) (run-creates s fresh)
          ∙ run-append (map (sends (first_handle s)) ms) _ (created s) t (
              run-queues ms (created s) (first_handle s) (second_ref s) (second s)
                (created-LeadsTo s fresh apart) plain)
          ∙ run-binds t (second_handle s) (second_ref s) e _ receiver runner tasks
              entangled.handle_2 (there-set (created s).heap (second_ref s) e entangled.there_2)
              registers,
      refl,
      served,
      refl,
    )
