-- ===== src/Examples/Histories.antt =====
-- Histories of calls of the API (mage/core/api.cc) at concrete states.
use mage.Base.{
  All, ◌≡◌, ◌≢◌, refl, ◌∙◌, List, [], ◌∷◌, ◌++◌, map, some, none, arith, bytes_eq, bytes_eq_iff,
}
use mage.Message.{message_type, get_endpoint_descriptors, get_pointer, decode_pointer, read_array}
use mage.Bytes.{read_int, slice, from_bytes}
use mage.Util.{random_identifier, identifier}
use mage.Map.{find, name_key, pipe_key}
use mage.Endpoint.{Dispatch}
use mage.Endpoint.Valid.{AllServed}
use mage.Process.{Process, done, crashed, out_of_fuel, dispatch}
use mage.Process.Invariant.{Inv}
use mage.Node.{create_message_pipes_and_get_endpoints}
use mage.Node.Pipes.{
  IsFresh, Entangled, created, first, second, first_handle, second_handle, first_ref, second_ref,
  first_name, second_name, create_pipes-Entangled,
}
use mage.Node.Send.{retarget}
use mage.Api.{new_process, creates_pipes, sends, binds, run, perform}
use mage.Api.History.{run-Inv}
use mage.Base.Result.{deadlock}
use mage.Node.Live.Sending.{IsTargetNamed}
use mage.Api.Live.{perform_ends}
use mage.Api.Locks.{run-IsUnlocked}
use mage.Process.Locks.{IsUnlocked}
use mage.Api.Pipe.{IsPlain, with_queued_at, run-queues}
use mage.Api.Delivery.{run-creates, pipe_delivers, created-LeadsTo, run-append}
use mage.Examples.Data.{world, greeting}

abbrev pub start : Process
start = new_process world

pub start-IsFresh : IsFresh start
unfolding new_process random_identifier identifier find bytes_eq
start-IsFresh = record {
  distinct = λ h. names_differ h;
  unnamed_1 = refl;
  unnamed_2 = refl;
  unused_1 = refl;
  unused_2 = refl;
  handle_bound = omega arith;
}
  where
    names_differ : first_name start ≢ second_name start
    names_differ h = cc ((bytes_eq_iff _ _).1 h)

pub greeting-IsPlain : IsPlain greeting
unfolding message_type get_endpoint_descriptors get_pointer decode_pointer read_array read_int slice
    from_bytes
greeting-IsPlain = record { whole = omega arith; typed = refl; alone = refl }

pub no_channel : find start.name start.node_channel_map ≡ none
unfolding new_process find
no_channel = refl

create_pipes-Entangled_example :
    (create_message_pipes_and_get_endpoints start
      ≡ done
          ((first_handle start, first_ref start), (second_handle start, second_ref start))
          (created start))
    × Entangled
        (created start)
        (first_handle start)
        (second_handle start)
        (first_ref start)
        (second_ref start)
        (first start)
        (second start)
create_pipes-Entangled_example = create_pipes-Entangled start start-IsFresh

-- The history of a pipe with one message on its way.
abbrev waiting : Process
waiting =
    with_queued_at (created start) (second_ref start) (second start)
      (retarget (second_name start) (greeting ∷ []))

waiting-IsTargetNamed : All IsTargetNamed waiting.heap
unfolding new_process
waiting-IsTargetNamed = (λ h. cc, (λ h. cc, tt))

run-waiting : run (creates_pipes ∷ sends (first_handle start) greeting ∷ []) start ≡ done tt waiting
run-waiting =
    run-append (creates_pipes ∷ []) _ start (created start) (run-creates start start-IsFresh)
    ∙ run-queues (greeting ∷ []) (created start) (first_handle start) (second_ref start)
        (second start) (created-LeadsTo start start-IsFresh no_channel) (greeting-IsPlain, tt)

run-Inv_example : Inv waiting
run-Inv_example =
    run-Inv world (creates_pipes ∷ sends (first_handle start) greeting ∷ []) waiting run-waiting

run-IsUnlocked_example : All IsUnlocked waiting.heap
run-IsUnlocked_example =
    run-IsUnlocked world (creates_pipes ∷ sends (first_handle start) greeting ∷ []) waiting
      run-waiting

perform_ends_example :
    (perform (sends (first_handle start) greeting) waiting ≢ crashed deadlock)
    × (perform (sends (first_handle start) greeting) waiting ≢ out_of_fuel)
perform_ends_example =
    perform_ends world (creates_pipes ∷ sends (first_handle start) greeting ∷ []) waiting
      (sends (first_handle start) greeting) run-waiting
      ((greeting-IsPlain.whole, greeting-IsPlain.alone), waiting-IsTargetNamed)

run-queues_example :
    run
      (sends (first_handle start) greeting ∷ sends (first_handle start) greeting ∷ [])
      (created start)
    ≡ done tt (
        with_queued_at
          (created start)
          (second_ref start)
          (second start)
          (retarget (second_name start) (greeting ∷ greeting ∷ [])))
run-queues_example =
    run-queues (greeting ∷ greeting ∷ []) (created start) (first_handle start) (second_ref start)
      (second start) (created-LeadsTo start start-IsFresh no_channel)
      (greeting-IsPlain, (greeting-IsPlain, tt))

pipe_delivers_example :
    (t : Process) × (tasks : List Dispatch) × (run
        (creates_pipes
          ∷ (map (sends (first_handle start)) (greeting ∷ greeting ∷ [])
              ++ binds (second_handle start) 4 5 ∷ []))
        start
      ≡ done tt t)
    × (t.tasks ≡ start.tasks ++ map dispatch tasks)
    × AllServed (some 4) (some 5) (retarget (second_name start) (greeting ∷ greeting ∷ [])) tasks
    × (t.sent ≡ start.sent)
pipe_delivers_example =
    pipe_delivers start (greeting ∷ greeting ∷ []) 4 5 start-IsFresh no_channel
      (greeting-IsPlain, (greeting-IsPlain, tt))
