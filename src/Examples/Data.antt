-- ===== src/Examples/Data.antt =====
-- Concrete messages, endpoints and processes of mage/core for the runs in the other modules here.
use mage.Base.{ℕ, ◌%◌, false, List, [], ◌∷◌, ◌++◌, none, replicate, length}
use mage.Message.{Name, Message, EndpointDescriptor}
use mage.Endpoint.{Endpoint, new_endpoint}
use mage.Process.{Process, World, Ref, Fd}

abbrev pub node_1 : Name
node_1 = replicate 15 49

abbrev pub node_2 : Name
node_2 = replicate 15 50

abbrev pub name_a : Name
name_a = replicate 15 65

abbrev pub name_b : Name
name_b = replicate 15 66

abbrev pub name_c : Name
name_c = replicate 15 67

abbrev pub name_d : Name
name_d = replicate 15 68

abbrev pub name_x : Name
name_x = replicate 15 88

-- A user message of 43 bytes, three of them behind the header.
abbrev pub greeting : Message
greeting = record {
  payload_buffer = 43 ∷ 0 ∷ 0 ∷ 0 ∷ 2 ∷ 0 ∷ 0 ∷ 0 ∷ (replicate 32 0 ++ (7 ∷ 8 ∷ 9 ∷ []));
  pipes = [];
}

-- Endpoint `name_c` is sent, and will be known as `name_x`.
abbrev pub descriptor_c : EndpointDescriptor
descriptor_c = record {
  endpoint_name = name_c;
  cross_node_endpoint_name = name_x;
  peer_node_name = node_1;
  peer_endpoint_name = name_d;
}

-- A user message of 104 bytes that carries the descriptor.
abbrev pub carrier : Message
carrier = record {
  payload_buffer =
      104
      ∷ 0
      ∷ 0
      ∷ 0
      ∷ 2
      ∷ 0
      ∷ 0
      ∷ 0
      ∷ (replicate 24 0
          ++ (8
              ∷ 0
              ∷ 0
              ∷ 0
              ∷ 0
              ∷ 0
              ∷ 0
              ∷ 0
              ∷ 1
              ∷ 0
              ∷ 0
              ∷ 0
              ∷ (name_c ++ (name_x ++ (node_1 ++ name_d)))));
  pipes = [];
}

-- Draws that give different names one after the other; a socket that takes all bytes.
abbrev pub world : World
world = record { draw = λ i. i % 62; write = λ sent fd bytes. length bytes }

-- A process with these endpoints and channels.
abbrev pub process :
    Name → List Endpoint → List (Name × Ref) → List (ℕ × Ref) → List (Name × Fd) → Process
process name heap locals handles channels = record {
  heap = heap;
  handle_table = handles;
  next_available_handle = 9;
  remote_has_accepted_invitation_callback = none;
  finished_accepting_invitation_callback = none;
  name = name;
  has_accepted_invitation = false;
  local_endpoints = locals;
  node_channel_map = channels;
  pending_invitations = [];
  tasks = [];
  sent = [];
  watched = [];
  drawn = 0;
  world = world;
}

abbrev pub end_a : Endpoint
end_a = new_endpoint name_a (record { node_name = node_2; endpoint_name = name_b })

abbrev pub end_b : Endpoint
end_b = new_endpoint name_b (record { node_name = node_1; endpoint_name = name_a })

-- An endpoint where a message waits.
abbrev pub end_c : Endpoint
end_c = record (new_endpoint name_c (record { node_name = node_1; endpoint_name = name_d })) {
  incoming_message_queue = greeting ∷ [];
}

-- The peer of `end_c`.
abbrev pub end_d : Endpoint
end_d = new_endpoint name_d (record { node_name = node_1; endpoint_name = name_c })

-- `end_a` here has its peer in the other process; `end_c` and `end_d` are in this one.
abbrev pub process_1 : Process
process_1 =
    process node_1 (end_a ∷ end_c ∷ end_d ∷ []) ((name_a, 0) ∷ (name_c, 1) ∷ (name_d, 2) ∷ [])
      ((1, 0) ∷ (2, 1) ∷ (3, 2) ∷ []) ((node_2, 5) ∷ [])

abbrev pub process_2 : Process
process_2 = process node_2 (end_b ∷ []) ((name_b, 0) ∷ []) ((1, 0) ∷ []) ((node_1, 6) ∷ [])
