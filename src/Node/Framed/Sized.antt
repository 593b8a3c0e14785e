-- ===== src/Node/Framed/Sized.antt =====
-- The messages that mage/core/node.cc makes or changes, and those that mage/core/channel.cc reads, have a
-- header, and an `int` can hold their sizes.

use mage.Base.{
  ℕ, ◌+◌, ◌-◌, ◌^◌, ◌≤◌, ◌<◌, ◌≡◌, ap, ◌∙◌, ◌++◌, length, arith, take, drop, length-append,
  length-take,
}
use mage.Base.Result.{ok}
use mage.Bytes.{Bytes, read_int, memcpy}
use mage.Bytes.Laws.{length-memcpy}
use mage.Message.{Name, Message, send_invitation, accept_invitation}
use mage.Map.{name_key}
use mage.Process.Framed.{IsSized}
use mage.Channel.{
  invitation_message, acceptance_message, AcceptanceParams, InvitationParams, read_message,
  receive_body,
}
use mage.Channel.Params.{length-control_message}
use mage.Node.Receive.{rename_descriptor}

pub invitation_message-IsSized : (p : InvitationParams) → IsSized (invitation_message p)
unfolding invitation_message
invitation_message-IsSized p =
    let l =
      length-control_message send_invitation p.inviter_name p.temporary_remote_node_name
        p.intended_endpoint_peer_name in
    (omega (arith, l), omega (arith, l))

pub acceptance_message-IsSized : (p : AcceptanceParams) → IsSized (acceptance_message p)
unfolding acceptance_message
acceptance_message-IsSized p =
    let l =
      length-control_message accept_invitation p.temporary_remote_node_name p.actual_node_name
        p.accept_invitation_endpoint_name in
    (omega (arith, l), omega (arith, l))

pub rename_descriptor-IsSized :
    (m : Message) (at : ℕ) (a b : Name) → IsSized m → IsSized (rename_descriptor m at a b)
unfolding rename_descriptor
rename_descriptor-IsSized m at a b (whole, small) =
    let l =
      length-memcpy (memcpy m.payload_buffer at a) (at + 15) b
      ∙ length-memcpy m.payload_buffer at a in
    (omega (arith, l), omega (arith, l))

-- What a body that was read says of the size in the header.
receive_body-fits :
    (header rest : Bytes) (total : ℕ) (m : Message) (left : Bytes)
    → receive_body header rest total ≡ ok (m, left)
    → (40 ≤ total)
      × ((total < 2 ^ 31)
          × ((total - 40 ≤ length rest) × (m.payload_buffer ≡ header ++ take (total - 40) rest)))
unfolding receive_body
receive_body-fits header rest total m left ran =
    (ground arith, (ground arith, (ground arith, ground arith)))

read_message-body :
    (incoming : Bytes) (m : Message) (rest : Bytes)
    → read_message incoming ≡ ok (m, rest)
    → (40 ≤ length incoming)
      × (receive_body (take 40 incoming) (drop 40 incoming) (read_int (take 40 incoming) 0 4)
          ≡ ok (m, rest))
unfolding read_message
read_message-body incoming m rest ran = (ground arith, ground arith)

-- A message that was read from a socket.
pub read_message-IsSized :
    (incoming : Bytes) (m : Message) (rest : Bytes)
    → read_message incoming ≡ ok (m, rest)
    → IsSized m
read_message-IsSized incoming m rest ran =
    let (whole, body) = read_message-body incoming m rest ran in
    let header = take 40 incoming in
    let total = read_int header 0 4 in
    let (large, (small, (enough, made))) =
      receive_body-fits header (drop 40 incoming) total m rest body in
    let l = ap length made ∙ length-append header (take (total - 40) (drop 40 incoming)) in
    let h = length-take 40 incoming in
    let b = length-take (total - 40) (drop 40 incoming) in
    (omega (arith, l, h, b), omega (arith, l, h, b))
