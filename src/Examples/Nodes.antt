-- ===== src/Examples/Nodes.antt =====
-- Handlers of a node (mage/core/node.cc) at concrete states.
use mage.Base.{◌+◌, ◌≡◌, refl, sym, [], ◌∷◌, ◌++◌, map, some, none, arith, bytes_eq}
use mage.Base.Result.{ok}
use mage.Message.{
  Message, set_target_endpoint, target_endpoint, size, message_type, get_endpoint_descriptors,
  get_pointer, decode_pointer, read_array, read_descriptors, descriptor_at,
}
use mage.Map.{find, name_key}
use mage.Endpoint.{
  Endpoint, accept_message, unbound_and_proxying, lock_endpoint, unlock_endpoint, set_proxying,
  take_queued_messages,
}
use mage.Endpoint.Valid.{accept_message_queueing, new_endpoint-IsValid}
use mage.Process.{Process, done, dispatch}
use mage.Process.Heap.{deref, store, update, lock, unlock, proxy_to, take_queue}
use mage.Channel.{send_on_channel}
use mage.Channel.Write.{Writes}
use mage.Channel.Frames.{received}
use mage.Node.{channel_of}
use mage.Node.Send.{
  retarget, proxy_dependents, unlock_all, send_with_dependents, send_loop, queued, send_messages,
  node_send_message,
}
use mage.Bytes.{memcpy, slice, read_int, from_bytes, Bytes}
use mage.Node.Send.Content.{send_messages_once}
use mage.Node.Send.Times.{times, payloads, waiting, written, blank}
use mage.Node.Send.Exact.{node_send_message-sent, node_send_message-accept_message}
use mage.Node.Receive.{on_received_user_message}
use mage.Node.Receive.Exact.{on_received_user_message-accept_message}
use mage.Api.{on_can_read_from_socket}
use mage.Api.Arrival.{send_arrives}
use mage.Examples.Data.{
  node_1, node_2, name_b, name_d, name_x, greeting, carrier, end_a, end_b, end_c, end_d, process_1,
  process_2,
}

-- After the carrier, the message that waited in the endpoint that it carries.
abbrev sent_1 : Process
sent_1 = record process_1 {
  heap =
      end_a
      ∷ record end_c {
        incoming_message_queue = [];
        state = unbound_and_proxying;
        proxy_target = record { node_name = node_2; endpoint_name = name_x };
      }
      ∷ end_d
      ∷ [];
  sent = (5, carrier.payload_buffer) ∷ (5, memcpy greeting.payload_buffer 12 name_x) ∷ [];
}

run_carrier : send_messages (carrier ∷ []) node_2 process_1 ≡ done tt sent_1
unfolding send_messages send_loop send_with_dependents proxy_dependents unlock_all queued retarget
    lock unlock take_queue proxy_to update deref store lock_endpoint unlock_endpoint set_proxying
    take_queued_messages channel_of send_on_channel find get_endpoint_descriptors get_pointer
    decode_pointer read_array read_descriptors descriptor_at read_int slice from_bytes size
    set_target_endpoint memcpy bytes_eq
run_carrier = refl

-- The content of the greeting is written once more, and waits no more.
abbrev content : Bytes
content = greeting.payload_buffer

send_messages_once_example :
    times content (written sent_1.sent) + times content (waiting sent_1.heap)
    ≡ times content (written process_1.sent)
      + times content (waiting process_1.heap)
      + times content (payloads (carrier ∷ []))
send_messages_once_example =
    send_messages_once content (carrier ∷ []) node_2 process_1 sent_1 run_carrier

-- Both sides are one.
times-content : times content (written sent_1.sent) ≡ 1
unfolding times bytes_eq memcpy blank
times-content = refl

-- `end_c` sends to `end_d`, which is in its process.
alone : get_endpoint_descriptors greeting ≡ ok []
unfolding get_endpoint_descriptors get_pointer decode_pointer read_array read_int slice from_bytes
alone = refl

typed : message_type greeting ≡ 2
unfolding message_type read_int slice from_bytes
typed = refl

found_d : find name_d process_1.local_endpoints ≡ some 2
unfolding find bytes_eq
found_d = refl

no_channel : find node_1 process_1.node_channel_map ≡ none
unfolding find bytes_eq
no_channel = refl

abbrev end_d' : Endpoint
end_d' = record end_d { incoming_message_queue = set_target_endpoint greeting name_d ∷ [] }

node_send_message-accept_message_example :
    node_send_message 1 greeting process_1
    ≡ done tt
        (record process_1 { heap = end_a ∷ end_c ∷ end_d' ∷ []; tasks = [] ++ map dispatch [] })
node_send_message-accept_message_example =
    node_send_message-accept_message process_1 greeting 1 2 end_c end_d end_d' [] refl (omega arith)
      typed alone refl found_d no_channel refl refl
      (accept_message_queueing end_d (set_target_endpoint greeting name_d)
        (new_endpoint-IsValid _ _) refl)

-- `end_a` sends to `end_b`, which is in the other process.
absent_b : find name_b process_1.local_endpoints ≡ none
unfolding find bytes_eq
absent_b = refl

found_node : find node_2 process_1.node_channel_map ≡ some 5
unfolding find bytes_eq
found_node = refl

abbrev for_b : Message
for_b = set_target_endpoint greeting name_b

writes : Writes process_1 5 for_b
unfolding set_target_endpoint memcpy size read_int slice from_bytes
writes = record { sized = refl; small = omega arith; whole = refl }

node_send_message-sent_example :
    node_send_message 0 greeting process_1
    ≡ done tt (record process_1 { sent = [] ++ (5, for_b.payload_buffer) ∷ [] })
node_send_message-sent_example =
    node_send_message-sent process_1 greeting 0 end_a 5 refl (omega arith) typed alone refl absent_b
      found_node writes

found_b : find name_b process_2.local_endpoints ≡ some 0
unfolding find bytes_eq
found_b = refl

abbrev end_b' : Endpoint
end_b' = record end_b { incoming_message_queue = received for_b ∷ [] }

accepts_b : accept_message end_b (received for_b) ≡ ok (end_b', [])
accepts_b = accept_message_queueing end_b (received for_b) (new_endpoint-IsValid _ _) refl

send_arrives_example :
    (node_send_message 0 greeting process_1
      ≡ done tt (record process_1 { sent = [] ++ (5, for_b.payload_buffer) ∷ [] }))
    × (on_can_read_from_socket (for_b.payload_buffer ++ (1 ∷ 2 ∷ [])) process_2
        ≡ done
            (1 ∷ 2 ∷ [])
            (record process_2 { heap = end_b' ∷ []; tasks = [] ++ map dispatch [] }))
send_arrives_example =
    send_arrives process_1 process_2 greeting 0 0 end_a end_b end_b' 5 (1 ∷ 2 ∷ []) [] refl
      (omega arith) typed alone refl absent_b found_node writes found_b refl refl refl accepts_b

-- The same message, as `process_2` receives it.
target_b : target_endpoint for_b ≡ name_b
unfolding target_endpoint set_target_endpoint memcpy slice
target_b = refl

alone_b : get_endpoint_descriptors for_b ≡ ok []
unfolding set_target_endpoint memcpy get_endpoint_descriptors get_pointer decode_pointer read_array
    read_int slice from_bytes
alone_b = refl

found_target : find (target_endpoint for_b) process_2.local_endpoints ≡ some 0
unfolding find bytes_eq target_endpoint set_target_endpoint memcpy slice
found_target = refl

on_received_user_message-accept_message_example :
    on_received_user_message for_b process_2
    ≡ done tt (record process_2 {
      heap = record end_b { incoming_message_queue = for_b ∷ [] } ∷ [];
      tasks = [] ++ map dispatch [];
    })
on_received_user_message-accept_message_example =
    on_received_user_message-accept_message process_2 for_b 0 end_b
      (record end_b { incoming_message_queue = for_b ∷ [] }) [] found_target refl (sym target_b)
      refl alone_b (accept_message_queueing end_b for_b (new_endpoint-IsValid _ _) refl)
