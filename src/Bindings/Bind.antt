-- ===== src/Bindings/Bind.antt =====
-- A receiver of mage/public/bindings/receiver.h binds to a pipe on which a remote called, and its task
-- runner makes the calls.
use mathlib.Core.Option.{some-injective}
use mage.Base.{
  ℕ, ◌≡◌, refl, sym, ap, ◌∙◌, true, List, [], ◌∷◌, ◌++◌, map, Option, none, some, arith, length,
  get_elem?, set, All, length-set, get_elem?-append_length, length-append, ◌==◌,
}
use mage.Base.Result.{ok}
use mage.Message.{Message, MessagePipe}
use mage.Map.{find, name_key, pipe_key}
use mage.Endpoint.{Endpoint, Dispatch, register_delegate}
use mage.Endpoint.Valid.{AllServed, register_delegate_lem, new_endpoint-IsValid}
use mage.Process.{Process, Ref, done, dispatch}
use mage.Process.Exact.{step, or_fail-some, require-true, there-set, call_method-there}
use mage.Core.{bind_receiver_delegate_to_endpoint}
use mage.Node.Pipes.{
  IsFresh, created, first, second, first_handle, second_handle, first_ref, second_ref,
  create_pipes-Entangled,
}
use mage.Api.{create_message_pipes}
use mage.Api.Pipe.{with_queued, with_queued_at, with_queued-IsValid}
use mage.Api.Delivery.{create_message_pipes-created, created-LeadsTo}
use mage.Magen.{Method}
use mage.Magen.Proxy.{bind_to_pipe}
use mage.Magen.Stub.{Stub, on_received_message}
use mage.Magen.Write.{IsCarrier}
use mage.Bindings.{
  Remote, bound_remote, remote_bind, Receiver, Stubs, release_stub, stub_bind_to_pipe,
  receiver_bind, dispatch_message, dispatch_message_if_still_alive, run_tasks,
}
use mage.Bindings.Calls.{RemoteCall, call_all, IsCall, invocation, Carries, call_all-CalledAll}

abbrev pub bound_stub : List Method → MessagePipe → ℕ → Stub
bound_stub interface handle impl = record {
  interface = interface;
  bound = true;
  local_handle = handle;
  impl = some impl;
}

-- The stubs after a receiver bound.
abbrev pub stubs_after : List Method → Receiver → Stubs → MessagePipe → ℕ → Stubs
stubs_after interface receiver stubs handle impl =
    release_stub receiver.stub stubs ++ some (bound_stub interface handle impl) ∷ []

length-release_stub : (o : Option ℕ) (stubs : Stubs) → length (release_stub o stubs) ≡ length stubs
length-release_stub none stubs = refl
length-release_stub (some self) stubs = length-set stubs self none

get_stub-stubs_after :
    (interface : List Method) (receiver : Receiver) (stubs : Stubs) (handle : MessagePipe)
    (impl : ℕ)
    → get_elem? (stubs_after interface receiver stubs handle impl) (length stubs)
      ≡ some (some (bound_stub interface handle impl))
get_stub-stubs_after interface receiver stubs handle impl =
    ap (λ n. get_elem? (stubs_after interface receiver stubs handle impl) n)
      (sym (length-release_stub receiver.stub stubs))
    ∙ get_elem?-append_length (release_stub receiver.stub stubs) [] _

receiver_bind-runs :
    (interface : List Method) (receiver : Receiver) (stubs : Stubs) (current : ℕ)
    (handle : MessagePipe) (impl : ℕ) (t : Process) (r : Ref) (e e' : Endpoint)
    (tasks : List Dispatch)
    → current ≡ receiver.constructed_on
    → find handle t.handle_table ≡ some r
    → get_elem? t.heap r ≡ some e
    → register_delegate e (some (length stubs)) (some current) ≡ ok (e', tasks)
    → receiver_bind interface receiver stubs current handle impl t
      ≡ done
          (
            record { stub = some (length stubs); constructed_on = receiver.constructed_on },
            stubs_after interface receiver stubs handle impl,
          )
          (record t { heap = set t.heap r e'; tasks = t.tasks ++ map dispatch tasks })
unfolding receiver_bind stub_bind_to_pipe bind_receiver_delegate_to_endpoint
receiver_bind-runs interface receiver stubs current handle impl t r e e' tasks same handled there
      registers =
    step _ (require-true t (current == receiver.constructed_on) (ground (arith, same))) (
      step _
        (step _ (step _ (or_fail-some t _ handled) (call_method-there t r there _ registers)) refl)
        refl)

run_tasks-Carries :
    (interface : List Method) (handle : MessagePipe) (impl self runner : ℕ) (stubs : Stubs)
    (cs : List RemoteCall) (ms : List Message) (tasks : List Dispatch)
    → get_elem? stubs self ≡ some (some (bound_stub interface handle impl))
    → Carries interface cs ms
    → AllServed (some self) (some runner) ms tasks
    → (run_tasks stubs tasks ≡ ok (map (invocation impl) cs))
      × All (λ (d : Dispatch). d.runner ≡ runner) tasks
unfolding run_tasks dispatch_message_if_still_alive dispatch_message on_received_message
run_tasks-Carries interface handle impl self runner stubs [] [] [] alive carries served = (refl, tt)
run_tasks-Carries interface handle impl self runner stubs [] [] (d ∷ ds) alive carries served =
    absurd served
run_tasks-Carries interface handle impl self runner stubs [] (m ∷ ms) tasks alive carries served =
    absurd carries
run_tasks-Carries interface handle impl self runner stubs (c ∷ cs) [] tasks alive carries served =
    absurd carries
run_tasks-Carries interface handle impl self runner stubs (c ∷ cs) (m ∷ ms) [] alive carries
      served =
    absurd served
run_tasks-Carries interface handle impl self runner stubs (c ∷ cs) (m ∷ ms) (d ∷ ds) alive
      (carries, more) (serves, served) =
    let (rest, runners) =
      run_tasks-Carries interface handle impl self runner stubs cs ms ds alive more served in
    let found = ap (λ i. get_elem? stubs i) (sym (some-injective _ _ serves.receiver)) ∙ alive in
    (
      rw (found, serves.message, carries impl, rest) refl,
      (sym (some-injective _ _ serves.runner), runners),
    )

-- In a state where the next handles and the names that are drawn are fresh, and the node has no channel to
-- itself: a pipe is created; a remote binds to its first end and calls methods of an interface, each without
-- handles and in a message shorter than 2 ^ 31 bytes; then a receiver, on the thread that made it, binds an
-- implementation of the interface to the second end. All of this returns; tasks are posted to that thread's
-- task runner alone; and when they run, they make the calls on the implementation, each once, in the order
-- in which the remote made them and with its arguments.
pub remote_calls_arrive :
    (s : Process) (interface : List Method) (cs : List RemoteCall) (receiver : Receiver)
    (stubs : Stubs) (current impl : ℕ)
    → IsFresh s
    → find s.name s.node_channel_map ≡ none
    → current ≡ receiver.constructed_on
    → All (IsCall interface) cs
    → (remote : Remote) × (t u : Process) × (receiver' : Receiver) × (stubs' : Stubs)
      × (tasks : List Dispatch) × (create_message_pipes s
          ≡ done (first_handle s, second_handle s) (created s))
      × (bound_remote (first_handle s) ≡ ok remote)
      × (call_all remote.proxy cs (created s) ≡ done tt t)
      × (receiver_bind interface receiver stubs current (second_handle s) impl t
          ≡ done (receiver', stubs') u)
      × (u.tasks ≡ s.tasks ++ map dispatch tasks)
      × All (λ (d : Dispatch). d.runner ≡ current) tasks
      × (run_tasks stubs' tasks ≡ ok (map (invocation impl) cs))
unfolding bound_remote remote_bind bind_to_pipe
remote_calls_arrive s interface cs receiver stubs current impl fresh apart same good =
    let (made, entangled) = create_pipes-Entangled s fresh in
    let carrier : IsCarrier (created s) (first_handle s) = record {
      ref = first_ref s;
      endpoint = first s;
      handled = entangled.handle_1;
      there = entangled.there_1;
      direct = refl;
    } in
    let all =
      call_all-CalledAll interface (created s) (first_handle s) (second_ref s) (second s) cs
        (created-LeadsTo s fresh apart) carrier
        (λ e. absurd (omega (arith, e, length-append s.heap (first s ∷ [])))) good in
    let e : Endpoint = with_queued (second s) all.messages in
    let t : Process =
      with_queued_at (record (created s) { drawn = all.drawn }) (second_ref s) (second s)
        all.messages in
    let (tasks, registers, served, valid) =
      register_delegate_lem e (length stubs) current
        (with_queued-IsValid (second s) all.messages (new_endpoint-IsValid _ _) refl) refl refl in
    let (runs, runners) =
      run_tasks-Carries interface (second_handle s) impl (length stubs) current
        (stubs_after interface receiver stubs (second_handle s) impl) cs all.messages tasks
        (get_stub-stubs_after interface receiver stubs (second_handle s) impl) all.carries served in
    (
      record { proxy = record { bound = true; local_handle = first_handle s } },
      t,
      _,
      _,
      _,
      tasks,
      create_message_pipes-created s fresh,
      refl,
      all.ran,
      receiver_bind-runs interface receiver stubs current (second_handle s) impl t (second_ref s) e
          _ tasks same entangled.handle_2
          (there-set (created s).heap (second_ref s) e entangled.there_2) registers,
      refl,
      runners,
      runs,
    )
