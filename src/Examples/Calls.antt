-- ===== src/Examples/Calls.antt =====
-- Calls through the generated classes of mage/public/parser/classes.tmpl and the bindings, at concrete states.
use mage.Base.{ℕ, ◌≡◌, refl, arith, List, [], ◌∷◌, ◌++◌, map, some, length, All}
use mage.Base.Result.{ok, crash, check_failed}
use mage.Message.{Message, EndpointDescriptor, message_type, size, get_endpoint_descriptors}
use mage.Message.Descriptors.{located}
use mage.Map.{find, name_key, pipe_key}
use mage.Endpoint.{Dispatch}
use mage.Process.{Process, done, crashed, dispatch}
use mage.Node.Pipes.{created, first_handle, second_handle}
use mage.Api.{create_message_pipes}
use mage.Magen.{
  native, string, message_pipe, bool, int, double, Method, Arguments, field_at, fields_end,
  params_align, params_size, count_handles,
}
use mage.Magen.Proxy.{serialize, call}
use mage.Magen.Stub.{dispatch_to}
use mage.Magen.Write.{IsSendable, IsCarrier, Describes}
use mage.Magen.RoundTrip.{here, later, arrived, serialize-dispatch_to}
use mage.Bindings.{
  Remote, new_remote, remote_bind, remote_unbind, bound_remote, Receiver, new_receiver, Stubs,
  release_stub, receiver_bind, run_tasks,
}
use mage.Bindings.Calls.{RemoteCall, call_all, IsCall, invocation}
use mage.Bindings.Bind.{bound_stub, remote_calls_arrive}
use mage.Bindings.Lifetime.{for_others, remote_unbind-remote_bind, run_tasks-release_stub}
use mage.Examples.Data.{name_b, process_1, end_a, end_c, greeting}
use mage.Examples.Histories.{start, start-IsFresh, no_channel}

-- `TestInterface` of mage/test/magen/test.magen, and a method that sends a handle behind a string.
abbrev pub method1 : Method
method1 = record { id = 41; types = native int ∷ native double ∷ string ∷ [] }

abbrev pub send_money : Method
send_money = record { id = 42; types = native int ∷ string ∷ [] }

abbrev pub name_and_pipe : Method
name_and_pipe = record { id = 43; types = string ∷ native bool ∷ message_pipe ∷ [] }

abbrev pub interface : List Method
interface = method1 ∷ send_money ∷ name_and_pipe ∷ []

abbrev pub usd : List ℕ
usd = 85 ∷ 83 ∷ 68 ∷ []

abbrev paid : RemoteCall
paid = record { method = send_money; arguments = (1000, (usd, tt)) }

abbrev asked : RemoteCall
asked = record { method = method1; arguments = (7, (4611686018427387904, (usd, tt))) }

paid-IsCall : IsCall interface paid
unfolding count_handles params_size fields_end field_at params_align
paid-IsCall = record {
  first = later (λ e. cc) here;
  known = omega arith;
  bits = (omega arith, (tt, tt));
  alone = refl;
  small = omega arith;
}

asked-IsCall : IsCall interface asked
unfolding count_handles params_size fields_end field_at params_align
asked-IsCall = record {
  first = here;
  known = omega arith;
  bits = (omega arith, (omega arith, (tt, tt)));
  alone = refl;
  small = omega arith;
}

remote_calls_arrive_example :
    (remote : Remote) × (t u : Process) × (receiver' : Receiver) × (stubs' : Stubs) × (tasks : List
      Dispatch)
    × (create_message_pipes start ≡ done (first_handle start, second_handle start) (created start))
    × (bound_remote (first_handle start) ≡ ok remote)
    × (call_all remote.proxy (paid ∷ asked ∷ paid ∷ []) (created start) ≡ done tt t)
    × (receiver_bind interface (new_receiver 5) [] 5 (second_handle start) 2 t
        ≡ done (receiver', stubs') u)
    × (u.tasks ≡ start.tasks ++ map dispatch tasks)
    × All (λ (d : Dispatch). d.runner ≡ 5) tasks
    × (run_tasks stubs' tasks ≡ ok (map (invocation 2) (paid ∷ asked ∷ paid ∷ [])))
remote_calls_arrive_example =
    remote_calls_arrive start interface (paid ∷ asked ∷ paid ∷ []) (new_receiver 5) [] 5 2
      start-IsFresh no_channel refl (paid-IsCall, (asked-IsCall, (paid-IsCall, tt)))

remote_unbind-remote_bind_example :
    (bound : Remote) × (remote_bind new_remote 3 ≡ ok bound)
    × (remote_bind bound 4 ≡ crash check_failed)
    × (remote_unbind bound ≡ ok (3, new_remote))
    × (remote_unbind new_remote ≡ crash check_failed)
    × ((method : Method) (arguments : Arguments method.types) (s : Process)
        → call new_remote.proxy method arguments s ≡ crashed check_failed)
remote_unbind-remote_bind_example = remote_unbind-remote_bind new_remote 3 4 refl

-- Two receivers, and a task for each.
abbrev two_stubs : Stubs
two_stubs = some (bound_stub interface 1 2) ∷ some (bound_stub interface 3 4) ∷ []

abbrev two_tasks : List Dispatch
two_tasks =
    record { runner = 5; receiver = 0; message = greeting }
    ∷ record { runner = 5; receiver = 1; message = greeting }
    ∷ []

run_tasks-release_stub_example :
    run_tasks (release_stub (some 0) two_stubs) two_tasks
    ≡ run_tasks two_stubs (for_others 0 two_tasks)
run_tasks-release_stub_example = run_tasks-release_stub two_stubs 0 two_tasks

-- The first endpoint of the process carries the second one.
end_a-IsCarrier : IsCarrier process_1 1
unfolding find
end_a-IsCarrier = record { ref = 0; endpoint = end_a; handled = refl; there = refl; direct = refl }

end_c-IsSendable : IsSendable process_1 2
unfolding find
end_c-IsSendable = record {
  ref = 1;
  endpoint = end_c;
  handled = refl;
  there = refl;
  named = refl;
  peer_node = refl;
  peer_endpoint = refl;
}

serialize-dispatch_to_example :
    (m : Message) × (drawn : ℕ) × (ds : List EndpointDescriptor) × (at : ℕ) × (serialize
        name_and_pipe
        (usd, (1, (2, tt)))
        1
        process_1
      ≡ done m (record process_1 { drawn = drawn }))
    × (message_type m ≡ 2)
    × (size m ≡ length m.payload_buffer)
    × (get_endpoint_descriptors m ≡ ok (located at ds))
    × Describes process_1 drawn (2 ∷ []) ds
    × (dispatch_to interface (some 6) (arrived m name_b (9 ∷ []))
        ≡ ok (record { impl = 6; method = name_and_pipe; arguments = (usd, (1, (9, tt))) }))
unfolding count_handles params_size fields_end field_at params_align
serialize-dispatch_to_example =
    serialize-dispatch_to process_1 interface name_and_pipe (usd, (1, (2, tt))) 1 6 name_b (9 ∷ [])
      (later (λ e. cc) (later (λ e. cc) here)) (omega arith) (tt, (omega arith, (tt, tt)))
      end_a-IsCarrier (end_c-IsSendable, tt) (omega arith) refl refl
