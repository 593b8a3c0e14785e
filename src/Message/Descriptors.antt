-- ===== src/Message/Descriptors.antt =====
-- The array of endpoint descriptors at the end of a message, as a generated proxy writes it and
-- `GetEndpointDescriptors` of mage/public/message.h reads it.
use mage.Base.{
  ℕ, ◌+◌, ◌*◌, ◌≤◌, ◌≡◌, refl, ◌∙◌, inl, List, [], ◌∷◌, ◌++◌, arith, length, length-append, All,
}
use mage.Base.Result.{ok}
use mage.Bytes.{Bytes, memcpy, slice}
use mage.Bytes.Laws.{
  length-memcpy, slice-memcpy_ne, slice-memcpy_part, slice-append_self, slice-append_skip,
  slice_whole,
}
use mage.Message.{
  EndpointDescriptor, descriptor_size, descriptor_at, descriptor_bytes, read_descriptors,
  write_descriptors,
}

-- Its four names fill their arrays.
pub record IsNamed (d : EndpointDescriptor) : Type 0 where
  pub endpoint : length d.endpoint_name ≡ 15
  pub cross_node_endpoint : length d.cross_node_endpoint_name ≡ 15
  pub peer_node : length d.peer_node_name ≡ 15
  pub peer_endpoint : length d.peer_endpoint_name ≡ 15

-- Descriptors in a row from an address on, as `read_descriptors` presents them.
abbrev pub located : ℕ → List EndpointDescriptor → List (ℕ × EndpointDescriptor)
located at [] = []
located at (d ∷ ds) = (at, d) ∷ located (at + descriptor_size) ds

module _ (d : EndpointDescriptor) (named : IsNamed d) where
  pub length-descriptor_bytes : length (descriptor_bytes d) ≡ 60
  unfolding descriptor_bytes
  length-descriptor_bytes = omega (
    arith,
    length-append d.endpoint_name
        (d.cross_node_endpoint_name ++ (d.peer_node_name ++ d.peer_endpoint_name)),
    length-append d.cross_node_endpoint_name (d.peer_node_name ++ d.peer_endpoint_name),
    length-append d.peer_node_name d.peer_endpoint_name,
    named.endpoint,
    named.cross_node_endpoint,
    named.peer_node,
    named.peer_endpoint,
  )

  -- Its bytes hold the four names one behind the other.
  endpoint-bytes : slice (descriptor_bytes d) 0 15 ≡ d.endpoint_name
  unfolding descriptor_bytes
  endpoint-bytes = slice-append_self _ _ 15 named.endpoint

  cross_node_endpoint-bytes : slice (descriptor_bytes d) 15 15 ≡ d.cross_node_endpoint_name
  unfolding descriptor_bytes
  cross_node_endpoint-bytes =
      slice-append_skip d.endpoint_name _ 15 0 15 (omega (arith, named.endpoint))
      ∙ slice-append_self _ _ 15 named.cross_node_endpoint

  peer_node-bytes : slice (descriptor_bytes d) 30 15 ≡ d.peer_node_name
  unfolding descriptor_bytes
  peer_node-bytes =
      slice-append_skip d.endpoint_name _ 30 15 15 (omega (arith, named.endpoint))
      ∙ slice-append_skip d.cross_node_endpoint_name _ 15 0 15
          (omega (arith, named.cross_node_endpoint))
      ∙ slice-append_self _ _ 15 named.peer_node

  peer_endpoint-bytes : slice (descriptor_bytes d) 45 15 ≡ d.peer_endpoint_name
  unfolding descriptor_bytes
  peer_endpoint-bytes =
      slice-append_skip d.endpoint_name _ 45 30 15 (omega (arith, named.endpoint))
      ∙ slice-append_skip d.cross_node_endpoint_name _ 30 15 15
          (omega (arith, named.cross_node_endpoint))
      ∙ slice-append_skip d.peer_node_name _ 15 0 15 (omega (arith, named.peer_node))
      ∙ slice_whole _ 15 named.peer_endpoint

  module _ (bs : Bytes) (at : ℕ) (fits : at + 60 ≤ length bs) where
    part :
        (j k : ℕ)
        → j ≡ at + k
        → k + 15 ≤ 60
        → slice (memcpy bs at (descriptor_bytes d)) j 15 ≡ slice (descriptor_bytes d) k 15
    part j k e h =
        slice-memcpy_part bs at (descriptor_bytes d) j k 15 e
          (omega (arith, length-descriptor_bytes)) (omega (arith, length-descriptor_bytes))

    pub descriptor_at-memcpy_self : descriptor_at (memcpy bs at (descriptor_bytes d)) at ≡ d
    unfolding descriptor_at
    descriptor_at-memcpy_self = λ i. record {
      endpoint_name = (part at 0 (omega arith) (omega arith) ∙ endpoint-bytes) i;
      cross_node_endpoint_name =
          (part (at + 15) 15 refl (omega arith) ∙ cross_node_endpoint-bytes) i;
      peer_node_name = (part (at + 30) 30 refl (omega arith) ∙ peer_node-bytes) i;
      peer_endpoint_name = (part (at + 45) 45 refl (omega arith) ∙ peer_endpoint-bytes) i;
    }

-- A write behind a descriptor leaves it alone.
descriptor_at-memcpy_behind :
    (bs : Bytes) (i : ℕ) (src : Bytes) (at : ℕ)
    → at + 60 ≤ i
    → descriptor_at (memcpy bs i src) at ≡ descriptor_at bs at
unfolding descriptor_at
descriptor_at-memcpy_behind bs i src at h = cc (
  slice-memcpy_ne bs i src at 15 (inl (omega arith)),
  slice-memcpy_ne bs i src (at + 15) 15 (inl (omega arith)),
  slice-memcpy_ne bs i src (at + 30) 15 (inl (omega arith)),
  slice-memcpy_ne bs i src (at + 45) 15 (inl (omega arith)),
)

pub length-write_descriptors :
    (bs : Bytes) (at : ℕ) (ds : List EndpointDescriptor)
    → length (write_descriptors bs at ds) ≡ length bs
unfolding write_descriptors
length-write_descriptors bs at [] = refl
length-write_descriptors bs at (d ∷ ds) =
    length-write_descriptors (memcpy bs at (descriptor_bytes d)) (at + 60) ds
    ∙ length-memcpy bs at (descriptor_bytes d)

-- What lies in front of the array is left alone.
pub slice-write_descriptors :
    (bs : Bytes) (at : ℕ) (ds : List EndpointDescriptor) (j n : ℕ)
    → j + n ≤ at
    → slice (write_descriptors bs at ds) j n ≡ slice bs j n
unfolding write_descriptors
slice-write_descriptors bs at [] j n h = refl
slice-write_descriptors bs at (d ∷ ds) j n h =
    slice-write_descriptors (memcpy bs at (descriptor_bytes d)) (at + 60) ds j n (omega arith)
    ∙ slice-memcpy_ne bs at (descriptor_bytes d) j n (inl h)

descriptor_at-write_descriptors :
    (bs : Bytes) (at : ℕ) (ds : List EndpointDescriptor) (j : ℕ)
    → j + 60 ≤ at
    → descriptor_at (write_descriptors bs at ds) j ≡ descriptor_at bs j
unfolding write_descriptors
descriptor_at-write_descriptors bs at [] j h = refl
descriptor_at-write_descriptors bs at (d ∷ ds) j h =
    descriptor_at-write_descriptors (memcpy bs at (descriptor_bytes d)) (at + 60) ds j (omega arith)
    ∙ descriptor_at-memcpy_behind bs at (descriptor_bytes d) j h

-- The descriptors that were written are read back, each at its place.
pub read_descriptors-write_descriptors :
    (bs : Bytes) (at : ℕ) (ds : List EndpointDescriptor)
    → All IsNamed ds
    → at + 60 * length ds ≤ length bs
    → read_descriptors (write_descriptors bs at ds) at (length ds) ≡ ok (located at ds)
unfolding read_descriptors write_descriptors
read_descriptors-write_descriptors bs at [] named fits = refl
read_descriptors-write_descriptors bs at (d ∷ ds) named fits =
    let bs' : Bytes = memcpy bs at (descriptor_bytes d) in
    let rest =
      read_descriptors-write_descriptors bs' (at + 60) ds named.1
        (omega (arith, length-memcpy bs at (descriptor_bytes d))) in
    let first : descriptor_at (write_descriptors bs' (at + 60) ds) at ≡ d =
      descriptor_at-write_descriptors bs' (at + 60) ds at (omega arith)
      ∙ descriptor_at-memcpy_self d named.0 bs at (omega arith) in
    rw
      (
        rest,
        first,
        length-write_descriptors bs' (at + 60) ds,
        length-memcpy bs at (descriptor_bytes d),
      )
      (ground arith)
