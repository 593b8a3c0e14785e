-- ===== src/Message.antt =====
-- mage/public/message.h and mage/core/message.cc: the message, its header and the endpoint
-- descriptors that it carries, in the bytes of its payload buffer. Addresses in the buffer are
-- offsets from its first byte. The layout is that of a 64-bit little-endian target: `int` has 4
-- bytes, `uint64_t` is aligned to 8, and `MessageHeader` is padded from 27 to 32 in front of it.
pub mod Header
pub mod Descriptors
pub mod RoundTrip
use mage.Base.{
  ℕ, zero, suc, ◌+◌, ◌-◌, ◌*◌, ◌^◌, Bool, List, [], ◌∷◌, ◌++◌, Option, none, some, ltb, ◌==◌,
  if◌then◌else◌, length, replicate,
}
use mage.Base.Result.{Result, ok, crash, check_failed, bad_access, ◌>>=◌}
use mage.Bytes.{Bytes, memcpy, slice, grow, read_int, write_int}

abbrev pub identifier_size : ℕ
identifier_size = 15

-- Node names and endpoint names.
abbrev pub Name : Type 0
Name = Bytes

-- A `uint32_t`.
abbrev pub MessagePipe : Type 0
MessagePipe = ℕ

-- `pipes` is the queue of recovered pipes, the front first.
pub record Message : Type 0 where
  pub payload_buffer : Bytes
  pub pipes : List MessagePipe

pub data MessageType : Type 0 where
  send_invitation accept_invitation user_message : MessageType

abbrev pub type_code : MessageType → ℕ
type_code send_invitation = 0
type_code accept_invitation = 1
type_code user_message = 2

-- sizeof and offsetof of `MessageHeader`.
abbrev pub header_size : ℕ
header_size = 40

abbrev pub size_at : ℕ
size_at = 0

abbrev pub type_at : ℕ
type_at = 4

abbrev pub user_message_id_at : ℕ
user_message_id_at = 8

abbrev pub target_endpoint_at : ℕ
target_endpoint_at = 12

abbrev pub endpoints_at : ℕ
endpoints_at = 32

-- sizeof(EndpointDescriptor), and sizeof(ArrayHeader) of an array of them.
abbrev pub descriptor_size : ℕ
descriptor_size = 60

abbrev pub array_header_size : ℕ
array_header_size = 4

-- `EncodePointer`: the offset that is stored at `location` for a pointer to `storage`.
unfoldable pub encode_pointer : Option ℕ → ℕ → Result ℕ
encode_pointer none location = ok 0
encode_pointer (some storage) location =
    if ltb location storage then ok (storage - location) else crash check_failed

-- A sum above 2 ^ 64, for which C++ defines nothing, leads behind the buffer here.
unfoldable pub decode_pointer : ℕ → ℕ → Option ℕ
decode_pointer location offset = if offset == 0 then none else some (location + offset)

-- `Pointer<T>::Set` and `Pointer<T>::Get` for the pointer that stands at `location`.
unfoldable pub set_pointer : Bytes → ℕ → Option ℕ → Result Bytes
unfolding encode_pointer
set_pointer bs location storage =
    encode_pointer storage location >>= λ offset. ok (write_int bs location 8 offset)

unfoldable pub get_pointer : Bytes → ℕ → Option ℕ
unfolding decode_pointer
get_pointer bs location = decode_pointer location (read_int bs location 8)

unfoldable pub new_message : MessageType → Message
new_message type = record {
  payload_buffer = write_int (grow [] header_size) type_at 4 (type_code type);
  pipes = [];
}

-- `Size()`, `Type()` and the other fields of the header; `int` fields as bit patterns.
unfoldable pub size : Message → ℕ
size m = read_int m.payload_buffer size_at 4

unfoldable pub message_type : Message → ℕ
message_type m = read_int m.payload_buffer type_at 4

unfoldable pub user_message_id : Message → ℕ
user_message_id m = read_int m.payload_buffer user_message_id_at 4

unfoldable pub target_endpoint : Message → Name
target_endpoint m = slice m.payload_buffer target_endpoint_at identifier_size

unfoldable pub set_user_message_id : Message → ℕ → Message
set_user_message_id m id = record m {
  payload_buffer = write_int m.payload_buffer user_message_id_at 4 id;
}

-- `memcpy(message.GetMutableMessageHeader().target_endpoint, name.c_str(), kIdentifierSize)`; a name
-- has `identifier_size` bytes.
unfoldable pub set_target_endpoint : Message → Name → Message
set_target_endpoint m name = record m {
  payload_buffer = memcpy m.payload_buffer target_endpoint_at name;
}

unfoldable pub finalize_size : Message → Message
finalize_size m = record m {
  payload_buffer = write_int m.payload_buffer size_at 4 (length m.payload_buffer);
}

unfoldable pub consume_buffer : Message → Bytes → Message
consume_buffer m incoming_buffer = record m { payload_buffer = incoming_buffer }

unfoldable pub queue_pipe : Message → MessagePipe → Message
queue_pipe m pipe = record m { pipes = m.pipes ++ pipe ∷ [] }

unfoldable pub take_next_pipe : Message → Result (MessagePipe × Message)
take_next_pipe m = elim m.pipes [
  | [] ↦ crash check_failed
  | pipe ∷ rest ↦ ok (pipe, record m { pipes = rest })
]

pub record EndpointDescriptor : Type 0 where
  pub endpoint_name : Name
  pub cross_node_endpoint_name : Name
  pub peer_node_name : Name
  pub peer_endpoint_name : Name

unfoldable pub descriptor_at : Bytes → ℕ → EndpointDescriptor
descriptor_at bs at = record {
  endpoint_name = slice bs at 15;
  cross_node_endpoint_name = slice bs (at + 15) 15;
  peer_node_name = slice bs (at + 30) 15;
  peer_endpoint_name = slice bs (at + 45) 15;
}

unfoldable pub descriptor_bytes : EndpointDescriptor → Bytes
descriptor_bytes d =
    d.endpoint_name ++ (d.cross_node_endpoint_name ++ (d.peer_node_name ++ d.peer_endpoint_name))

-- An `int` that counts: a negative one admits no round of a loop.
abbrev pub rounds : ℕ → ℕ
rounds n = if ltb n (2 ^ 31) then n else 0

-- The pointers to `n` descriptors in a row, each with what it points to.
unfoldable pub read_descriptors : Bytes → ℕ → ℕ → Result (List (ℕ × EndpointDescriptor))
unfolding descriptor_at
read_descriptors bs at zero = ok []
read_descriptors bs at (suc n) =
    let rest = read_descriptors bs (at + descriptor_size) n in
    if ltb (length bs) (at + descriptor_size)
    then crash bad_access
    else rest >>= λ ds. ok ((at, descriptor_at bs at) ∷ ds)

-- The array that a pointer leads to; a null pointer stands for no descriptors.
unfoldable pub read_array : Bytes → Option ℕ → Result (List (ℕ × EndpointDescriptor))
unfolding read_descriptors
read_array bs none = ok []
read_array bs (some array) =
    if ltb (length bs) (array + array_header_size)
    then crash bad_access
    else read_descriptors bs (array + array_header_size) (rounds (read_int bs array 4))

-- `GetEndpointDescriptors()`. A descriptor that reaches past the buffer is `bad_access`.
unfoldable pub get_endpoint_descriptors : Message → Result (List (ℕ × EndpointDescriptor))
unfolding read_array get_pointer
get_endpoint_descriptors m = read_array m.payload_buffer (get_pointer m.payload_buffer endpoints_at)

unfoldable pub number_of_pipes : Message → Result ℕ
unfolding get_pointer
number_of_pipes m = elim (get_pointer m.payload_buffer endpoints_at) [
  | none ↦ ok 0
  | some array ↦
      if ltb (length m.payload_buffer) (array + array_header_size)
      then crash bad_access
      else ok (read_int m.payload_buffer array 4)
]

-- `MessageFragment<T>::Allocate` for a `T` of `bytes` bytes: the starting index, and the message.
unfoldable pub allocate : Message → ℕ → ℕ × Message
allocate m bytes =
    (length m.payload_buffer, record m { payload_buffer = grow m.payload_buffer bytes })

-- `MessageFragment<ArrayHeader<T>>::AllocateArray`.
unfoldable pub allocate_array : Message → (element_size num_elements : ℕ) → ℕ × Message
unfolding allocate
allocate_array m element_size num_elements =
    let (start, grown) = allocate m (array_header_size + element_size * num_elements) in
    (start, record grown { payload_buffer = write_int grown.payload_buffer start 4 num_elements })

-- The loop of a generated proxy that copies the descriptors of a message into its array.
unfoldable pub write_descriptors : Bytes → ℕ → List EndpointDescriptor → Bytes
unfolding descriptor_bytes
write_descriptors bs at [] = bs
write_descriptors bs at (d ∷ ds) =
    write_descriptors (memcpy bs at (descriptor_bytes d)) (at + descriptor_size) ds

-- What a generated proxy does with the descriptors, behind the other arguments.
unfoldable pub write_endpoints : Message → List EndpointDescriptor → Result Message
unfolding allocate_array write_descriptors set_pointer
write_endpoints m endpoints_to_write =
    let (array, filled) = allocate_array m descriptor_size (length endpoints_to_write) in
    let bs =
      write_descriptors filled.payload_buffer (array + array_header_size) endpoints_to_write in
    set_pointer bs endpoints_at (some array) >>= λ bs'. ok (record filled { payload_buffer = bs' })
