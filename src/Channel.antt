-- ===== src/Channel.antt =====
-- mage/core/channel.h and channel.cc: control messages and their parameters (the structs at the end of
-- mage/public/message.h), writing a message to a socket, and reading one from what a socket holds.
pub mod Write
pub mod Frames
pub mod Params
use mage.Base.{
  ℕ, ◌+◌, ◌-◌, ◌%◌, ◌^◌, Bool, true, false, not, List, [], ◌∷◌, ◌++◌, ltb, leb, ◌==◌, if◌then◌else◌,
  length, take, drop, ◌||◌,
}
use mage.Base.Result.{Result, ok, crash, check_failed, bad_access, thrown}
use mage.Bytes.{Bytes, memcpy, slice, grow, read_int}
use mage.Message.{
  Name, Message, MessageType, send_invitation, accept_invitation, header_size, new_message,
  allocate, finalize_size, size, consume_buffer,
}
use mage.Process.{Fd, M, pure, gets, modify, require, ◌>>=◌, ◌>>◌}

-- `SendInvitationParams`.
pub record InvitationParams : Type 0 where
  pub inviter_name : Name
  pub temporary_remote_node_name : Name
  pub intended_endpoint_peer_name : Name

-- `SendAcceptInvitationParams`.
pub record AcceptanceParams : Type 0 where
  pub temporary_remote_node_name : Name
  pub actual_node_name : Name
  pub accept_invitation_endpoint_name : Name

-- sizeof of either: three identifiers.
abbrev pub params_size : ℕ
params_size = 45

-- A control message whose parameters are the names `a`, `b` and `c`.
unfoldable pub control_message : MessageType → (a b c : Name) → Message
unfolding new_message allocate memcpy finalize_size
control_message type a b c =
    let (params, m) = allocate (new_message type) params_size in
    finalize_size (record m {
      payload_buffer =
          memcpy (memcpy (memcpy m.payload_buffer params a) (params + 15) b) (params + 30) c;
    })

-- The messages that `SendInvitation` and `SendAcceptInvitation` build.
unfoldable pub invitation_message : InvitationParams → Message
unfolding control_message
invitation_message p =
    control_message send_invitation p.inviter_name p.temporary_remote_node_name
      p.intended_endpoint_peer_name

unfoldable pub acceptance_message : AcceptanceParams → Message
unfolding control_message
acceptance_message p =
    control_message accept_invitation p.temporary_remote_node_name p.actual_node_name
      p.accept_invitation_endpoint_name

-- `GetView` of the parameters; a message that is too short for them is read past its end.
unfoldable pub view_invitation : Message → Result InvitationParams
view_invitation m =
    let bs = m.payload_buffer in
    if ltb (length bs) (header_size + params_size)
    then crash bad_access
    else ok (record {
      inviter_name = slice bs header_size 15;
      temporary_remote_node_name = slice bs (header_size + 15) 15;
      intended_endpoint_peer_name = slice bs (header_size + 30) 15;
    })

unfoldable pub view_acceptance : Message → Result AcceptanceParams
view_acceptance m =
    let bs = m.payload_buffer in
    if ltb (length bs) (header_size + params_size)
    then crash bad_access
    else ok (record {
      temporary_remote_node_name = slice bs header_size 15;
      actual_node_name = slice bs (header_size + 15) 15;
      accept_invitation_endpoint_name = slice bs (header_size + 30) 15;
    })

unfoldable pub start : Fd → M (Unit {0})
start fd = modify (λ s. record s { watched = s.watched ++ fd ∷ [] })

remove_fd : Fd → List Fd → List Fd
remove_fd fd [] = []
remove_fd fd (g ∷ gs) = if fd == g then remove_fd fd gs else g ∷ remove_fd fd gs

-- The destructor.
unfoldable pub stop : Fd → M (Unit {0})
unfolding remove_fd
stop fd = modify (λ s. record s { watched = remove_fd fd s.watched })

-- `Channel::SendMessage`: a size that is not the buffer's, or a short write, fails a CHECK. So in any state
-- that is left, the whole buffer was written.
unfoldable pub send_on_channel : Fd → Message → M (Unit {0})
unfolding size
send_on_channel fd m = do
  require (size m == length m.payload_buffer % 2 ^ 32)
  rv ← gets (λ s. s.world.write s.sent fd m.payload_buffer)
  modify (λ s. record s { sent = s.sent ++ (fd, m.payload_buffer) ∷ [] })
  require (rv == size m)

-- The body that follows a header: a size that is negative, or smaller than the header, asks for a
-- vector that is too long to make.
unfoldable pub receive_body : (header rest : Bytes) → ℕ → Result (Message × Bytes)
receive_body header rest total =
    if ltb total header_size || leb (2 ^ 31) total
    then crash thrown
    else if ltb (length rest) (total - header_size)
    then crash check_failed
    else ok (
      record { payload_buffer = header ++ take (total - header_size) rest; pipes = [] },
      drop (total - header_size) rest,
    )

-- `OnCanReadFromSocket` up to the call of its delegate: the message, and what stays in the socket.
unfoldable pub read_message : Bytes → Result (Message × Bytes)
unfolding receive_body read_int
read_message incoming =
    if ltb (length incoming) header_size
    then crash check_failed
    else receive_body (take header_size incoming) (drop header_size incoming)
        (read_int (take header_size incoming) 0 4)
