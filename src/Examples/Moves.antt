-- ===== src/Examples/Moves.antt =====
-- Endpoints that move between two processes (mage/core/node.cc) at concrete states.
use mage.Base.{ℕ, ◌≡◌, refl, arith, true, [], ◌∷◌, ◌++◌, map, some, length, set, bytes_eq}
use mage.Base.Result.{ok}
use mage.Util.{random_identifier}
use mage.Bytes.{read_int, slice, from_bytes}
use mage.Message.{Message, message_type, set_target_endpoint, queue_pipe}
use mage.Map.{find, name_key, pipe_key}
use mage.Endpoint.{Endpoint, Dispatch, bound, accept_message, accept_in}
use mage.Process.{Process, done}
use mage.Channel.Frames.{received, stream}
use mage.Node.Send.{retarget, node_send_message}
use mage.Node.Send.All.{on_channel}
use mage.Node.Send.Move.{Moves, moved, node_send_message-moved}
use mage.Node.Receive.Recover.{arriving}
use mage.Api.Pipe.{with_queued, with_queued_at}
use mage.Api.Stream.{reads_frames}
use mage.Api.Move.{Sends, Accepts, accepted, pipe_moves}
use mage.Magen.{field_at, fields_end, params_align, params_size, count_handles}
use mage.Magen.Proxy.{call}
use mage.Magen.RoundTrip.{here, later}
use mage.Bindings.{Stubs, run_tasks}
use mage.Bindings.Bind.{bound_stub}
use mage.Bindings.Move.{CallsWithPipe, Serving, call_moves_pipe}
use mage.Magen.Write.{described_by}
use mage.Examples.Data.{
  name_b, name_x, node_2, process, process_1, process_2, end_a, end_b, end_c, carrier, descriptor_c,
  greeting,
}
use mage.Examples.Messages.{carrier-IsFrame, get_endpoint_descriptors-carrier}
use mage.Examples.Histories.{greeting-IsPlain}
use mage.Examples.Networks.{greeting-IsSendable}
use mage.Examples.Calls.{interface, name_and_pipe, usd}

end_c-Moves : Moves process_1 descriptor_c 1 end_c
unfolding find bytes_eq
end_c-Moves = record { found = refl; there = refl; queueing = refl; unserved = refl; free = refl }

carrier-Sends : Sends process_1 carrier 0 1 end_a end_c descriptor_c 44 5
unfolding find bytes_eq message_type read_int slice from_bytes
carrier-Sends = record {
  there = refl;
  typed = refl;
  carries = get_endpoint_descriptors-carrier;
  frame = carrier-IsFrame;
  named = refl;
  absent = refl;
  channel = refl;
  takes = λ sent bytes. refl;
  moves = end_c-Moves;
  cross = refl;
  plain = (greeting-IsPlain, tt);
  sendable = (greeting-IsSendable, tt);
}

-- The peer with the carrier behind its queue.
abbrev end_b' : Endpoint
end_b' = with_queued end_b (queue_pipe (received (set_target_endpoint carrier name_b)) 9 ∷ [])

carrier-Accepts : Accepts process_2 name_b carrier 0 end_b end_b' descriptor_c []
unfolding find bytes_eq accept_message accept_in queue_pipe
carrier-Accepts = record {
  found = refl;
  there = refl;
  named = refl;
  free = refl;
  room = record { handle = refl; name = refl };
  accepts = refl;
}

pipe_moves_example :
    let ms = set_target_endpoint carrier name_b ∷ retarget name_x (greeting ∷ []) in
    let b' = accepted process_2 0 end_b' descriptor_c [] in
    (node_send_message 0 carrier process_1
      ≡ done tt (record process_1 {
        heap = set process_1.heap 1 (moved end_c descriptor_c node_2);
        sent = process_1.sent ++ on_channel 5 ms;
      }))
    × (reads_frames (length ms) (stream ms ++ (1 ∷ [])) process_2
        ≡ done (1 ∷ []) (
            with_queued_at b' 1
              (arriving descriptor_c)
              (map received (retarget name_x (greeting ∷ [])))))
    × (find 9 b'.handle_table ≡ some 1)
pipe_moves_example =
    pipe_moves process_1 process_2 carrier 0 1 0 end_a end_c end_b end_b' descriptor_c 44 5 (1 ∷ [])
      [] carrier-Sends carrier-Accepts

node_send_message-moved_example :
    node_send_message 0 carrier process_1
    ≡ done tt (record process_1 {
      heap = set process_1.heap 1 (moved end_c descriptor_c node_2);
      sent =
          process_1.sent
          ++ on_channel 5 (set_target_endpoint carrier name_b ∷ retarget name_x (greeting ∷ []));
    })
node_send_message-moved_example =
    node_send_message-moved process_1 carrier 0 1 end_a end_c descriptor_c 44 5 refl
      carrier-Sends.frame.0 carrier-Sends.typed carrier-Sends.carries carrier-Sends.frame.1.0
      carrier-Sends.frame.1.1 refl carrier-Sends.absent carrier-Sends.channel carrier-Sends.takes
      end_c-Moves refl carrier-Sends.sendable

-- The call that moves the second endpoint of the first process.
call_by_process_1 :
    CallsWithPipe process_1 interface name_and_pipe (usd, (1, (2, tt))) 1 2 0 1 end_a end_c 5
unfolding find bytes_eq count_handles params_size fields_end field_at params_align
call_by_process_1 = record {
  handled = refl;
  there = refl;
  direct = refl;
  named = refl;
  absent = refl;
  channel = refl;
  takes = λ sent bytes. refl;
  one = refl;
  carried = refl;
  registered = refl;
  there' = refl;
  own_name = refl;
  peer_node = refl;
  peer_endpoint = refl;
  queueing = refl;
  unserved = refl;
  free = refl;
  plain = (greeting-IsPlain, tt);
  sendable = (greeting-IsSendable, tt);
  first = later (λ e. cc) (later (λ e. cc) here);
  known = omega arith;
  bits = (tt, (omega arith, (tt, tt)));
  small = omega arith;
}

abbrev serving_b : Endpoint
serving_b = record end_b { state = bound; delegate = some 0; delegate_task_runner = some 7 }

abbrev serving_2 : Process
serving_2 = process node_2 (serving_b ∷ []) ((name_b, 0) ∷ []) ((1, 0) ∷ []) []

abbrev one_stub : Stubs
one_stub = some (bound_stub interface 1 6) ∷ []

serving_2-Serving :
    Serving serving_2 name_b 0 serving_b (described_by process_1 end_c) interface one_stub 0 6
unfolding find bytes_eq random_identifier
serving_2-Serving = record {
  found = refl;
  there = refl;
  named = refl;
  free = refl;
  valid = record { served = refl; runs = refl; queues = λ b. refl };
  served = refl;
  delegate = refl;
  handle = 1;
  alive = refl;
  room = record { handle = refl; name = refl };
}

call_moves_pipe_example :
    let d = described_by process_1 end_c in
    let waiting = retarget d.cross_node_endpoint_name (greeting ∷ []) in
    (m : Message) × (drawn : ℕ) × (task : Dispatch) × (call
        (record { bound = true; local_handle = 1 })
        name_and_pipe
        (usd, (1, (2, tt)))
        process_1
      ≡ done tt (record process_1 {
        drawn = drawn;
        heap = set process_1.heap 1 (moved end_c d node_2);
        sent = process_1.sent ++ on_channel 5 (m ∷ waiting);
      }))
    × (reads_frames (length (m ∷ waiting)) (stream (m ∷ waiting) ++ []) serving_2
        ≡ done [] (
            with_queued_at
              (accepted serving_2 0 serving_b d (task ∷ []))
              1
              (arriving d)
              (map received waiting)))
    × (run_tasks one_stub (task ∷ [])
        ≡ ok (record { impl = 6; method = name_and_pipe; arguments = (usd, (1, (9, tt))) } ∷ []))
    × (find 9 (accepted serving_2 0 serving_b d (task ∷ [])).handle_table ≡ some 1)
call_moves_pipe_example =
    call_moves_pipe process_1 serving_2 interface name_and_pipe (usd, (1, (2, tt))) 1 2 0 1 0 end_a
      end_c serving_b 5 one_stub 0 6 [] call_by_process_1 serving_2-Serving
