-- ===== src/Message/Header.antt =====
-- The fields of `MessageHeader` in mage/public/message.h: each write reaches its own field only.
use mage.Base.{
  ℕ, zero, suc, ◌+◌, ◌^◌, ◌≤◌, ◌<◌, ◌≡◌, refl, sym, [], ◌∙◌, inl, inr, Bool-cases, some, arith,
  length, ◌==◌,
}
use mage.Base.Result.{ok}
use mage.Bytes.{Bytes, memcpy, slice, grow, read_int, write_int, to_bytes, from_bytes}
use mage.Bytes.Laws.{
  length-to_bytes, length-memcpy, length-write_int, slice-memcpy, read_int-memcpy_ne,
  read-write_int, slice-memcpy_ne,
}
use mage.Message.{
  Message, Name, MessageType, type_code, header_size, endpoints_at, new_message, size, message_type,
  user_message_id, target_endpoint, set_target_endpoint, finalize_size, descriptor_at,
  read_descriptors, read_array, get_pointer, decode_pointer, get_endpoint_descriptors, rounds,
  send_invitation, accept_invitation, user_message,
}

-- The buffer holds a whole header.
abbrev pub HasHeader : Message → Type 0
HasHeader m = header_size ≤ length m.payload_buffer

-- A write in front of the descriptors leaves them alone.
descriptor_at-memcpy :
    (bs : Bytes) (i : ℕ) (src : Bytes) (at : ℕ)
    → i + length src ≤ at
    → descriptor_at (memcpy bs i src) at ≡ descriptor_at bs at
unfolding descriptor_at
descriptor_at-memcpy bs i src at h = cc (
  slice-memcpy_ne bs i src at 15 (inr h),
  slice-memcpy_ne bs i src (at + 15) 15 (inr (omega arith)),
  slice-memcpy_ne bs i src (at + 30) 15 (inr (omega arith)),
  slice-memcpy_ne bs i src (at + 45) 15 (inr (omega arith)),
)

pub read_descriptors-memcpy :
    (bs : Bytes) (i : ℕ) (src : Bytes) (at n : ℕ)
    → i + length src ≤ at
    → read_descriptors (memcpy bs i src) at n ≡ read_descriptors bs at n
unfolding read_descriptors
read_descriptors-memcpy bs i src at zero h = refl
read_descriptors-memcpy bs i src at (suc n) h = rw (
  length-memcpy bs i src,
  read_descriptors-memcpy bs i src (at + 60) n (omega arith),
  descriptor_at-memcpy bs i src at h,
)

pub read_array-memcpy :
    (bs : Bytes) (i : ℕ) (src : Bytes) (at : ℕ)
    → i + length src ≤ at
    → read_array (memcpy bs i src) (some at) ≡ read_array bs (some at)
unfolding read_array
read_array-memcpy bs i src at h = rw (
  length-memcpy bs i src,
  read_int-memcpy_ne bs i src at 4 (inr h),
  read_descriptors-memcpy bs i src (at + 4) (rounds (read_int bs at 4)) (omega arith),
)

-- The pointer of the header leads behind itself.
decoded_array-memcpy :
    (bs : Bytes) (i : ℕ) (src : Bytes) (offset : ℕ)
    → i + length src ≤ endpoints_at
    → read_array (memcpy bs i src) (decode_pointer endpoints_at offset)
      ≡ read_array bs (decode_pointer endpoints_at offset)
unfolding decode_pointer read_array
decoded_array-memcpy bs i src offset h = elim (Bool-cases (offset == 0)) [
  | inl null ↦ rw null
  | inr far ↦ rw far (read_array-memcpy bs i src (32 + offset) (omega arith))
]

-- In a message that holds a header, `memcpy` of a name of 15 bytes to `target_endpoint` sets that field,
-- and leaves the size, the type, the id, the length of the buffer, the recovered pipes and the descriptors
-- as they were.
pub set_target_endpoint_lem :
    (m : Message) (name : Name)
    → HasHeader m
    → length name ≡ 15
    → (target_endpoint (set_target_endpoint m name) ≡ name)
      × (size (set_target_endpoint m name) ≡ size m)
      × (message_type (set_target_endpoint m name) ≡ message_type m)
      × (user_message_id (set_target_endpoint m name) ≡ user_message_id m)
      × (length (set_target_endpoint m name).payload_buffer ≡ length m.payload_buffer)
      × ((set_target_endpoint m name).pipes ≡ m.pipes)
      × (get_endpoint_descriptors (set_target_endpoint m name) ≡ get_endpoint_descriptors m)
unfolding set_target_endpoint target_endpoint size message_type user_message_id
    get_endpoint_descriptors get_pointer
set_target_endpoint_lem m name whole named = (
  slice-memcpy _ _ name 15 named (omega arith),
  read_int-memcpy_ne _ _ name _ _ (inl (omega arith)),
  read_int-memcpy_ne _ _ name _ _ (inl (omega arith)),
  read_int-memcpy_ne _ _ name _ _ (inl (omega arith)),
  length-memcpy _ _ name,
  refl,
  rw (read_int-memcpy_ne m.payload_buffer 12 name 32 8 (inr (omega arith)))
      (decoded_array-memcpy _ _ name _ (omega arith)),
)

-- A fresh message has a header of its type, and carries no descriptors and no pipes.
pub new_message_lem :
    (type : MessageType)
    → (length (new_message type).payload_buffer ≡ header_size)
      × (message_type (new_message type) ≡ type_code type)
      × (get_endpoint_descriptors (new_message type) ≡ ok [])
      × ((new_message type).pipes ≡ [])
unfolding new_message message_type get_endpoint_descriptors get_pointer decode_pointer grow read_int
    memcpy write_int to_bytes from_bytes slice read_array
new_message_lem send_invitation = (refl, refl, refl, refl)
new_message_lem accept_invitation = (refl, refl, refl, refl)
new_message_lem user_message = (refl, refl, refl, refl)

-- The size stands in front of the descriptors.
pub get_endpoint_descriptors-finalize_size :
    (m : Message) → get_endpoint_descriptors (finalize_size m) ≡ get_endpoint_descriptors m
unfolding get_endpoint_descriptors get_pointer finalize_size write_int
get_endpoint_descriptors-finalize_size m =
    let src = to_bytes 4 (length m.payload_buffer) in
    rw
      (read_int-memcpy_ne m.payload_buffer 0 src 32 8
        (inr (omega (arith, length-to_bytes 4 (length m.payload_buffer)))))
      (decoded_array-memcpy m.payload_buffer 0 src _
        (omega (arith, length-to_bytes 4 (length m.payload_buffer))))

-- In a message that holds a header and is shorter than 2 ^ 32 bytes, `FinalizeSize` records the length of
-- the buffer.
pub size-finalize_size :
    (m : Message)
    → HasHeader m
    → length m.payload_buffer < 2 ^ 32
    → size (finalize_size m) ≡ length (finalize_size m).payload_buffer
unfolding size finalize_size
size-finalize_size m whole small =
    read-write_int _ 0 4 _ (omega arith) small ∙ sym (length-write_int _ 0 4 _)
