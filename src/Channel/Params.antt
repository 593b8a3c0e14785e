-- ===== src/Channel/Params.antt =====
-- The parameters of control messages, in mage/core/channel.cc and mage/public/message.h: what a handler
-- views is what the sender wrote.
use mage.Base.{ℕ, ◌^◌, ◌≤◌, ◌<◌, ◌≡◌, ap, ◌∙◌, inl, inr, [], arith, length}
use mage.Base.Result.{ok}
use mage.Bytes.{Bytes, memcpy, slice, grow, read_int, write_int}
use mage.Bytes.Laws.{
  length-memcpy, length-grow, length-write_int, slice-memcpy, slice-memcpy_ne, slice-write_int_ne,
  read_int-write_int_ne, read_int-memcpy_ne, read-write_int, read_int-grow,
}
use mage.Message.{
  Name, MessageType, type_code, send_invitation, accept_invitation, user_message, new_message,
  allocate, finalize_size, size, message_type,
}
use mage.Channel.{
  InvitationParams, AcceptanceParams, control_message, invitation_message, acceptance_message,
  view_invitation, view_acceptance,
}

-- Three names in a row, behind a header.
three : Bytes → (a b c : Name) → Bytes
three bs a b c = memcpy (memcpy (memcpy bs 40 a) 55 b) 70 c

module _ (bs : Bytes) (a b c : Name) (room : length bs ≡ 85) (la : length a ≡ 15)
    (lb : length b ≡ 15) (lc : length c ≡ 15) where
  length-three : length (three bs a b c) ≡ 85
  unfolding three
  length-three = length-memcpy _ 70 c ∙ length-memcpy _ 55 b ∙ length-memcpy bs 40 a ∙ room

  first-three : slice (three bs a b c) 40 15 ≡ a
  unfolding three
  first-three =
      slice-memcpy_ne _ 70 c 40 15 (inl (omega arith))
      ∙ slice-memcpy_ne _ 55 b 40 15 (inl (omega arith))
      ∙ slice-memcpy bs 40 a 15 la (omega arith)

  second-three : slice (three bs a b c) 55 15 ≡ b
  unfolding three
  second-three =
      slice-memcpy_ne _ 70 c 55 15 (inl (omega arith))
      ∙ slice-memcpy _ 55 b 15 lb (omega (arith, length-memcpy bs 40 a))

  third-three : slice (three bs a b c) 70 15 ≡ c
  unfolding three
  third-three =
      slice-memcpy _ 70 c 15 lc
        (omega (arith, length-memcpy (memcpy bs 40 a) 55 b, length-memcpy bs 40 a))

  type-three : read_int (three bs a b c) 4 4 ≡ read_int bs 4 4
  unfolding three
  type-three =
      read_int-memcpy_ne _ 70 c 4 4 (inl (omega arith))
      ∙ read_int-memcpy_ne _ 55 b 4 4 (inl (omega arith))
      ∙ read_int-memcpy_ne bs 40 a 4 4 (inl (omega arith))

-- A message of this type with room for the parameters.
blank : MessageType → Bytes
unfolding new_message
blank type = grow (new_message type).payload_buffer 45

length-new_message : (type : MessageType) → length (new_message type).payload_buffer ≡ 40
unfolding new_message grow
length-new_message type = length-write_int _ 4 4 (type_code type)

length-blank : (type : MessageType) → length (blank type) ≡ 85
unfolding blank
length-blank type =
    omega (arith, length-grow (new_message type).payload_buffer 45, length-new_message type)

small_code : (type : MessageType) → type_code type < 256 ^ 4
small_code send_invitation = omega arith
small_code accept_invitation = omega arith
small_code user_message = omega arith

type-blank : (type : MessageType) → read_int (blank type) 4 4 ≡ type_code type
unfolding blank new_message
type-blank type =
    read_int-grow _ 45 4 4
      (omega (arith, length-write_int (grow [] 40) 4 4 (type_code type), length-grow [] 40))
    ∙ read-write_int _ 4 4 (type_code type) (omega (arith, length-grow [] 40)) (small_code type)

payload-control_message :
    (type : MessageType) (a b c : Name)
    → (control_message type a b c).payload_buffer
      ≡ write_int (three (blank type) a b c) 0 4 (length (three (blank type) a b c))
unfolding control_message finalize_size allocate three blank
payload-control_message type a b c = rw (length-new_message type)

-- Whatever the names are, they are written inside the message.
pub length-control_message :
    (type : MessageType) (a b c : Name) → length (control_message type a b c).payload_buffer ≡ 85
unfolding three
length-control_message type a b c =
    ap length (payload-control_message type a b c)
    ∙ length-write_int _ 0 4 _
    ∙ length-memcpy _ 70 c
    ∙ length-memcpy _ 55 b
    ∙ length-memcpy (blank type) 40 a
    ∙ length-blank type

-- The header and the parameters of a control message.
module _ (type : MessageType) (a b c : Name) (la : length a ≡ 15) (lb : length b ≡ 15)
    (lc : length c ≡ 15) where
  length-control : length (control_message type a b c).payload_buffer ≡ 85
  length-control =
      ap length (payload-control_message type a b c)
      ∙ length-write_int _ 0 4 _
      ∙ length-three (blank type) a b c (length-blank type) la lb lc

  size-control : size (control_message type a b c) ≡ 85
  unfolding size
  size-control =
      let l = length-three (blank type) a b c (length-blank type) la lb lc in
      ap (λ bs. read_int bs 0 4) (payload-control_message type a b c)
      ∙ read-write_int _ 0 4 _ (omega arith) (omega arith)
      ∙ l

  type-control : message_type (control_message type a b c) ≡ type_code type
  unfolding message_type
  type-control =
      ap (λ bs. read_int bs 4 4) (payload-control_message type a b c)
      ∙ read_int-write_int_ne _ 0 4 _ 4 4 (inr (omega arith))
      ∙ type-three (blank type) a b c (length-blank type) la lb lc
      ∙ type-blank type

  name-control :
      (j : ℕ)
      → 40 ≤ j
      → slice (control_message type a b c).payload_buffer j 15
        ≡ slice (three (blank type) a b c) j 15
  name-control j behind =
      ap (λ bs. slice bs j 15) (payload-control_message type a b c)
      ∙ slice-write_int_ne _ 0 4 _ j 15 (inr (omega arith))

  first-control : slice (control_message type a b c).payload_buffer 40 15 ≡ a
  first-control =
      name-control 40 (omega arith) ∙ first-three (blank type) a b c (length-blank type) la lb lc

  second-control : slice (control_message type a b c).payload_buffer 55 15 ≡ b
  second-control =
      name-control 55 (omega arith) ∙ second-three (blank type) a b c (length-blank type) la lb lc

  third-control : slice (control_message type a b c).payload_buffer 70 15 ≡ c
  third-control =
      name-control 70 (omega arith) ∙ third-three (blank type) a b c (length-blank type) la lb lc

-- The three names of an invitation, each of 15 bytes, are what its receiver views; the message has the
-- invitation's type, is 85 bytes long and says so in its header.
pub view_invitation-invitation_message :
    (p : InvitationParams)
    → length p.inviter_name ≡ 15
    → length p.temporary_remote_node_name ≡ 15
    → length p.intended_endpoint_peer_name ≡ 15
    → (view_invitation (invitation_message p) ≡ ok p)
      × (message_type (invitation_message p) ≡ 0)
      × (size (invitation_message p) ≡ 85)
      × (length (invitation_message p).payload_buffer ≡ 85)
unfolding view_invitation invitation_message
view_invitation-invitation_message p la lb lc =
    let a = p.inviter_name in
    let b = p.temporary_remote_node_name in
    let c = p.intended_endpoint_peer_name in
    let t = send_invitation in
    (
      rw (
        length-control t a b c la lb lc,
        first-control t a b c la lb lc,
        second-control t a b c la lb lc,
        third-control t a b c la lb lc,
      ),
      type-control t a b c la lb lc,
      size-control t a b c la lb lc,
      length-control t a b c la lb lc,
    )

-- The three names of an acceptance, each of 15 bytes, are what its receiver views; the message has the
-- acceptance's type, is 85 bytes long and says so in its header.
pub view_acceptance-acceptance_message :
    (p : AcceptanceParams)
    → length p.temporary_remote_node_name ≡ 15
    → length p.actual_node_name ≡ 15
    → length p.accept_invitation_endpoint_name ≡ 15
    → (view_acceptance (acceptance_message p) ≡ ok p)
      × (message_type (acceptance_message p) ≡ 1)
      × (size (acceptance_message p) ≡ 85)
      × (length (acceptance_message p).payload_buffer ≡ 85)
unfolding view_acceptance acceptance_message
view_acceptance-acceptance_message p la lb lc =
    let a = p.temporary_remote_node_name in
    let b = p.actual_node_name in
    let c = p.accept_invitation_endpoint_name in
    let t = accept_invitation in
    (
      rw (
        length-control t a b c la lb lc,
        first-control t a b c la lb lc,
        second-control t a b c la lb lc,
        third-control t a b c la lb lc,
      ),
      type-control t a b c la lb lc,
      size-control t a b c la lb lc,
      length-control t a b c la lb lc,
    )
