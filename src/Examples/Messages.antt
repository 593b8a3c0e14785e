-- ===== src/Examples/Messages.antt =====
-- Messages and their bytes (mage/public/message.h, mage/core/channel.cc and util.cc) at concrete inputs.
use mage.Base.{ℕ, ◌≡◌, refl, ◌↔◌, [], ◌∷◌, ◌++◌, some, arith, length, get_elem?, get_or}
use mage.Base.Result.{ok}
use mage.Bytes.{Bytes, slice, read_int, from_bytes}
use mage.Message.{
  Message, target_endpoint, set_target_endpoint, size, message_type, user_message_id,
  get_endpoint_descriptors, number_of_pipes, write_endpoints, set_pointer, get_pointer,
  decode_pointer, read_array, read_descriptors, descriptor_at,
}
use mage.Message.Header.{set_target_endpoint_lem}
use mage.Message.Descriptors.{IsNamed, located}
use mage.Message.RoundTrip.{get_pointer-set_pointer, get_endpoint_descriptors-write_endpoints}
use mage.Channel.{
  InvitationParams, AcceptanceParams, view_invitation, invitation_message, view_acceptance,
  acceptance_message,
}
use mage.Channel.Frames.{IsFrame, stream, read_messages, read_messages-stream}
use mage.Channel.Params.{view_invitation-invitation_message, view_acceptance-acceptance_message}
use mage.Util.{alphanum, random_identifier}
use mage.Util.Laws.{random_identifier_lem}
use mage.Examples.Data.{greeting, descriptor_c, carrier, name_a, name_b, name_c, node_1, node_2}

descriptor_c-IsNamed : IsNamed descriptor_c
descriptor_c-IsNamed = record {
  endpoint = refl;
  cross_node_endpoint = refl;
  peer_node = refl;
  peer_endpoint = refl;
}

-- The size of a message is what its first bytes say.
greeting-IsFrame : IsFrame greeting
unfolding size read_int slice from_bytes
greeting-IsFrame = (omega arith, (refl, omega arith))

pub carrier-IsFrame : IsFrame carrier
unfolding size read_int slice from_bytes
carrier-IsFrame = (omega arith, (refl, omega arith))

get_endpoint_descriptors-write_endpoints_example :
    (m' : Message) × (write_endpoints greeting (descriptor_c ∷ descriptor_c ∷ []) ≡ ok m')
    × (get_endpoint_descriptors m' ≡ ok (located 47 (descriptor_c ∷ descriptor_c ∷ [])))
    × (number_of_pipes m' ≡ ok 2)
    × (length m'.payload_buffer ≡ 167)
    × (slice m'.payload_buffer 0 32 ≡ slice greeting.payload_buffer 0 32)
get_endpoint_descriptors-write_endpoints_example =
    get_endpoint_descriptors-write_endpoints greeting (descriptor_c ∷ descriptor_c ∷ [])
      (omega arith) (omega arith) (omega arith) (descriptor_c-IsNamed, (descriptor_c-IsNamed, tt))

-- The carrier, which was written byte by byte, has the descriptor at offset 44.
pub get_endpoint_descriptors-carrier :
    get_endpoint_descriptors carrier ≡ ok ((44, descriptor_c) ∷ [])
unfolding get_endpoint_descriptors get_pointer decode_pointer read_array read_descriptors
    descriptor_at read_int slice from_bytes
get_endpoint_descriptors-carrier = refl

set_target_endpoint_lem_example :
    (target_endpoint (set_target_endpoint carrier name_b) ≡ name_b)
    × (size (set_target_endpoint carrier name_b) ≡ size carrier)
    × (message_type (set_target_endpoint carrier name_b) ≡ message_type carrier)
    × (user_message_id (set_target_endpoint carrier name_b) ≡ user_message_id carrier)
    × (length (set_target_endpoint carrier name_b).payload_buffer ≡ length carrier.payload_buffer)
    × ((set_target_endpoint carrier name_b).pipes ≡ carrier.pipes)
    × (get_endpoint_descriptors (set_target_endpoint carrier name_b)
        ≡ get_endpoint_descriptors carrier)
set_target_endpoint_lem_example = set_target_endpoint_lem carrier name_b (omega arith) refl

get_pointer-set_pointer_example :
    (bs' : Bytes) × (set_pointer carrier.payload_buffer 32 (some 40) ≡ ok bs')
    × (get_pointer bs' 32 ≡ some 40)
    × (length bs' ≡ 104)
get_pointer-set_pointer_example =
    get_pointer-set_pointer carrier.payload_buffer 32 40 (omega arith) (omega arith) (omega arith)

read_messages-stream_example :
    read_messages 2 (stream (greeting ∷ carrier ∷ []) ++ (5 ∷ 6 ∷ []))
    ≡ ok (greeting ∷ carrier ∷ [], 5 ∷ 6 ∷ [])
read_messages-stream_example =
    read_messages-stream (greeting ∷ carrier ∷ []) (5 ∷ 6 ∷ [])
      (greeting-IsFrame, (carrier-IsFrame, tt))

abbrev invitation : InvitationParams
invitation = record {
  inviter_name = node_1;
  temporary_remote_node_name = name_c;
  intended_endpoint_peer_name = name_a;
}

view_invitation-invitation_message_example :
    (view_invitation (invitation_message invitation) ≡ ok invitation)
    × (message_type (invitation_message invitation) ≡ 0)
    × (size (invitation_message invitation) ≡ 85)
    × (length (invitation_message invitation).payload_buffer ≡ 85)
view_invitation-invitation_message_example =
    view_invitation-invitation_message invitation refl refl refl

abbrev acceptance : AcceptanceParams
acceptance = record {
  temporary_remote_node_name = name_c;
  actual_node_name = node_2;
  accept_invitation_endpoint_name = name_b;
}

view_acceptance-acceptance_message_example :
    (view_acceptance (acceptance_message acceptance) ≡ ok acceptance)
    × (message_type (acceptance_message acceptance) ≡ 1)
    × (size (acceptance_message acceptance) ≡ 85)
    × (length (acceptance_message acceptance).payload_buffer ≡ 85)
view_acceptance-acceptance_message_example =
    view_acceptance-acceptance_message acceptance refl refl refl

-- Draws of 70 only.
abbrev draws : ℕ → ℕ
draws i = 70

random_identifier_lem_example :
    (length (random_identifier draws 3) ≡ 15)
    × (get_elem? (random_identifier draws 3) 4 ≡ some (get_or alphanum 70 0))
    × ((get_or alphanum 70 0 ≡ 0) ↔ (draws 7 ≡ 70))
random_identifier_lem_example = random_identifier_lem draws 3 4 (λ _. omega arith) (omega arith)
