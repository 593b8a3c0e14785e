-- ===== src/Message/RoundTrip.antt =====
-- A generated proxy attaches endpoint descriptors to a message (mage/public/parser/classes.tmpl), and
-- `GetEndpointDescriptors` of mage/public/message.h finds them.
use mage.Base.{
  ℕ, ◌+◌, ◌-◌, ◌*◌, ◌^◌, ◌≤◌, ◌<◌, ◌≡◌, refl, ap, ◌∙◌, ◌⊎◌, inl, inr, List, arith, length, All,
  some,
}
use mage.Base.Result.{ok, crash, check_failed}
use mage.Bytes.{Bytes, slice, grow, read_int, write_int, from_bytes, to_bytes}
use mage.Bytes.Laws.{
  length-grow, length-write_int, length-to_bytes, read-write_int, read_int-write_int_ne,
  slice-write_int_ne, slice-grow,
}
use mage.Message.{
  Message, EndpointDescriptor, read_descriptors, write_descriptors, write_endpoints, allocate_array,
  allocate, set_pointer, get_pointer, encode_pointer, decode_pointer, read_array,
  get_endpoint_descriptors, number_of_pipes,
}
use mage.Message.Header.{HasHeader, read_descriptors-memcpy}
use mage.Message.Descriptors.{
  IsNamed, located, length-write_descriptors, slice-write_descriptors,
  read_descriptors-write_descriptors,
}

-- A pointer that `EncodePointer` stores at a location with 8 bytes in the buffer, to a place behind that
-- location and less than 2 ^ 64 bytes away, is what `DecodePointer` reads there; the buffer keeps its
-- length.
pub get_pointer-set_pointer :
    (bs : Bytes) (location storage : ℕ)
    → location + 8 ≤ length bs
    → location < storage
    → storage < location + 2 ^ 64
    → (bs' : Bytes) × (set_pointer bs location (some storage) ≡ ok bs')
      × (get_pointer bs' location ≡ some storage)
      × (length bs' ≡ length bs)
unfolding set_pointer get_pointer encode_pointer decode_pointer
get_pointer-set_pointer bs location storage fits ahead near = (
  write_int bs location 8 (storage - location),
  ground arith,
  rw (read-write_int bs location 8 (storage - location) fits (omega arith)) (ground arith),
  length-write_int bs location 8 (storage - location),
)

pub set_pointer_behind :
    (bs : Bytes) (location storage : ℕ)
    → storage ≤ location
    → set_pointer bs location (some storage) ≡ crash check_failed
unfolding set_pointer encode_pointer
set_pointer_behind bs location storage h = ground arith

-- The buffer that `write_endpoints` leaves.
module _ (bs : Bytes) (ds : List EndpointDescriptor) where
  counted : Bytes
  counted = write_int (grow bs (4 + 60 * length ds)) (length bs) 4 (length ds)

  filled : Bytes
  unfolding counted
  filled = write_descriptors counted (length bs + 4) ds

  final : Bytes
  unfolding filled
  final = write_int filled 32 8 (length bs - 32)

  length-counted : length counted ≡ length bs + 4 + 60 * length ds
  unfolding counted
  length-counted = omega (
    arith,
    length-write_int (grow bs (4 + 60 * length ds)) (length bs) 4 (length ds),
    length-grow bs (4 + 60 * length ds),
  )

  length-filled : length filled ≡ length bs + 4 + 60 * length ds
  unfolding filled
  length-filled = length-write_descriptors counted (length bs + 4) ds ∙ length-counted

  length-final : length final ≡ length bs + 4 + 60 * length ds
  unfolding final
  length-final = length-write_int filled 32 8 (length bs - 32) ∙ length-filled

  -- Nothing changes but the pointer of the header.
  slice-final :
      (j n : ℕ)
      → 40 ≤ length bs
      → j + n ≤ length bs
      → (j + n ≤ 32) ⊎ (40 ≤ j)
      → slice final j n ≡ slice bs j n
  unfolding final filled counted
  slice-final j n whole h apart =
      slice-write_int_ne filled 32 8 (length bs - 32) j n apart
      ∙ slice-write_descriptors counted (length bs + 4) ds j n (omega arith)
      ∙ slice-write_int_ne (grow bs (4 + 60 * length ds)) (length bs) 4 (length ds) j n (inl h)
      ∙ slice-grow bs (4 + 60 * length ds) j n h

  pointer-final : 40 ≤ length bs → length bs < 2 ^ 63 → get_pointer final 32 ≡ some (length bs)
  unfolding get_pointer decode_pointer final
  pointer-final whole small =
      rw (read-write_int filled 32 8 (length bs - 32) (omega (arith, length-filled)) (omega arith))
        (ground arith)

  count-final : 40 ≤ length bs → length ds < 2 ^ 31 → read_int final (length bs) 4 ≡ length ds
  unfolding final filled counted read_int
  count-final whole few =
      unfold read_int in
      read_int-write_int_ne filled 32 8 (length bs - 32) (length bs) 4 (inr whole)
      ∙ ap from_bytes
          (slice-write_descriptors counted (length bs + 4) ds (length bs) 4 (omega arith))
      ∙ read-write_int (grow bs (4 + 60 * length ds)) (length bs) 4 (length ds)
          (omega (arith, length-grow bs (4 + 60 * length ds))) (omega arith)

  descriptors-final :
      40 ≤ length bs
      → All IsNamed ds
      → read_descriptors final (length bs + 4) (length ds) ≡ ok (located (length bs + 4) ds)
  unfolding final filled write_int
  descriptors-final whole named =
      read_descriptors-memcpy filled 32 (to_bytes 8 (length bs - 32)) (length bs + 4) (length ds)
        (omega (arith, length-to_bytes 8 (length bs - 32)))
      ∙ read_descriptors-write_descriptors counted (length bs + 4) ds named
          (omega (arith, length-counted))

  read_array-final :
      40 ≤ length bs
      → length ds < 2 ^ 31
      → All IsNamed ds
      → read_array final (some (length bs)) ≡ ok (located (length bs + 4) ds)
  unfolding read_array
  read_array-final whole few named =
      ground (arith, length-final, count-final whole few, descriptors-final whole named)

number_of_pipes-some :
    (m : Message) (array : ℕ)
    → get_pointer m.payload_buffer 32 ≡ some array
    → array + 4 ≤ length m.payload_buffer
    → number_of_pipes m ≡ ok (read_int m.payload_buffer array 4)
unfolding number_of_pipes
number_of_pipes-some m array e fits = rw (e, number_of_pipes) (ground arith)

-- The message that a proxy's `write_endpoints` makes of `m`.
with_endpoints : Message → List EndpointDescriptor → Message
unfolding final
with_endpoints m ds = record m { payload_buffer = final m.payload_buffer ds }

write_endpoints-ok :
    (m : Message) (ds : List EndpointDescriptor)
    → HasHeader m
    → write_endpoints m ds ≡ ok (with_endpoints m ds)
unfolding write_endpoints with_endpoints final filled counted set_pointer encode_pointer
    allocate_array allocate
write_endpoints-ok m ds whole = ground arith

-- A message with descriptors attached to `m`.
pub record Attached (m : Message) (ds : List EndpointDescriptor) : Type 0 where
  pub message : Message
  pub made : write_endpoints m ds ≡ ok message
  pub found : get_endpoint_descriptors message ≡ ok (located (length m.payload_buffer + 4) ds)
  pub counted : number_of_pipes message ≡ ok (length ds)
  pub longer : length message.payload_buffer ≡ length m.payload_buffer + 4 + 60 * length ds
  pub slices :
      (j n : ℕ)
      → j + n ≤ length m.payload_buffer
      → (j + n ≤ 32) ⊎ (40 ≤ j)
      → slice message.payload_buffer j n ≡ slice m.payload_buffer j n
  pub pipes : message.pipes ≡ m.pipes

pub write_endpoints-Attached :
    (m : Message) (ds : List EndpointDescriptor)
    → HasHeader m
    → length m.payload_buffer < 2 ^ 63
    → length ds < 2 ^ 31
    → All IsNamed ds
    → Attached m ds
unfolding get_endpoint_descriptors with_endpoints
write_endpoints-Attached m ds whole small few named =
    let bs = m.payload_buffer in
    record {
      message = with_endpoints m ds;
      made = write_endpoints-ok m ds whole;
      found = rw (pointer-final bs ds whole small) (read_array-final bs ds whole few named);
      counted =
          number_of_pipes-some _ _ (pointer-final bs ds whole small)
            (omega (arith, length-final bs ds))
          ∙ ap ok (count-final bs ds whole few);
      longer = length-final bs ds;
      slices = λ j n h apart. slice-final bs ds j n whole h apart;
      pipes = refl;
    }

-- For a message that holds a header, shorter than 2 ^ 63 bytes, and fewer than 2 ^ 31 descriptors, each
-- with four names of 15 bytes: the proxy attaches the descriptors behind the arguments of the message;
-- `GetEndpointDescriptors` then returns just these, in order and one behind the other; `NumberOfPipes`
-- counts them; the message is longer by the array; and the 32 bytes in front of the header's pointer
-- (size, type, id and target) are as they were.
pub get_endpoint_descriptors-write_endpoints :
    (m : Message) (ds : List EndpointDescriptor)
    → HasHeader m
    → length m.payload_buffer < 2 ^ 63
    → length ds < 2 ^ 31
    → All IsNamed ds
    → (m' : Message) × (write_endpoints m ds ≡ ok m')
      × (get_endpoint_descriptors m' ≡ ok (located (length m.payload_buffer + 4) ds))
      × (number_of_pipes m' ≡ ok (length ds))
      × (length m'.payload_buffer ≡ length m.payload_buffer + 4 + 60 * length ds)
      × (slice m'.payload_buffer 0 32 ≡ slice m.payload_buffer 0 32)
get_endpoint_descriptors-write_endpoints m ds whole small few named =
    let a = write_endpoints-Attached m ds whole small few named in
    (
      a.message,
      a.made,
      a.found,
      a.counted,
      a.longer,
      a.slices 0 32 (omega arith) (inl (omega arith)),
    )
