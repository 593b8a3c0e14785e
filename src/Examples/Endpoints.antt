-- ===== src/Examples/Endpoints.antt =====
-- Endpoints (mage/core/endpoint.cc) at concrete states.
use mage.Base.{◌≡◌, refl, List, [], ◌∷◌, ◌++◌, some}
use mage.Base.Result.{ok}
use mage.Endpoint.{
  Endpoint, bound, register_delegate, Dispatch, accept_message, lock_endpoint, unlock_endpoint,
  accept_in, post_message_to_delegate, post_queued_messages, deliver_queued, posted,
}
use mage.Endpoint.Valid.{IsValid, AllServed, register_delegate_lem}
use mage.Endpoint.Fifo.{Call, accepts, registers, call, run, delivered, IsDrained, run-fifo}
use mage.Examples.Data.{greeting, carrier, end_c}

end_c-IsValid : IsValid end_c
end_c-IsValid = record { served = refl; runs = refl; queues = λ h. cc }

register_delegate_lem_example :
    let e' : Endpoint = record end_c {
      state = bound;
      delegate = some 4;
      delegate_task_runner = some 5;
      incoming_message_queue = [];
    } in
    (tasks : List Dispatch) × (register_delegate end_c (some 4) (some 5) ≡ ok (e', tasks))
    × AllServed (some 4) (some 5) (greeting ∷ []) tasks
    × IsValid e'
register_delegate_lem_example = register_delegate_lem end_c 4 5 end_c-IsValid refl refl

-- One message waits, another comes, a receiver binds, and a third comes.
abbrev history : List Call
history = accepts carrier ∷ registers (some 4) (some 5) ∷ accepts greeting ∷ []

abbrev bound_c : Endpoint
bound_c = record end_c {
  state = bound;
  delegate = some 4;
  delegate_task_runner = some 5;
  incoming_message_queue = [];
}

abbrev tasks : List Dispatch
tasks =
    record { runner = 5; receiver = 4; message = greeting }
    ∷ record { runner = 5; receiver = 4; message = carrier }
    ∷ record { runner = 5; receiver = 4; message = greeting }
    ∷ []

run-history : run end_c history ≡ ok (bound_c, tasks)
unfolding run call accept_message register_delegate lock_endpoint unlock_endpoint
    post_message_to_delegate post_queued_messages accept_in deliver_queued posted
run-history = refl

run-fifo_example :
    (delivered tasks ++ [] ≡ (greeting ∷ []) ++ (carrier ∷ greeting ∷ [])) × IsDrained bound_c
run-fifo_example = run-fifo end_c bound_c history tasks (λ h. cc) run-history
