-- ===== src/Network.antt =====
-- Two processes whose channels are the ends of one socket pair, step by step: mage/core/api.cc and
-- mage/core/channel.cc in each of them, and the bytes on their way between them.
pub mod Frames
pub mod Reach
use mage.Base.{ℕ, Bool, true, false, List, [], ◌∷◌, ◌++◌, if◌then◌else◌, ◌==◌, ◌≡◌, length, drop}
use mage.Base.Result.{ok}
use mage.Bytes.{Bytes}
use mage.Message.{Message}
use mage.Process.{Process, World, Fd, done}
use mage.Api.Framed.{SendsSized}
use mage.Channel.{read_message}
use mage.Api.{
  new_process, Call, creates_pipes, sends_invitation, accepts_invitation, sends, binds, describes,
  reads, perform,
}

-- The buffers that were written to a socket, of all that a process wrote.
unfoldable pub written_on : Fd → List (Fd × Bytes) → List Bytes
written_on fd [] = []
written_on fd ((fd', buffer) ∷ sent) =
    let later = written_on fd sent in if fd == fd' then buffer ∷ later else later

unfoldable pub join : List Bytes → Bytes
join [] = []
join (buffer ∷ buffers) = buffer ++ join buffers

-- What reaches the other end while a process goes from one state to the next.
unfoldable pub new_bytes : Fd → (before after : Process) → Bytes
unfolding written_on join
new_bytes fd before after = join (written_on fd (drop (length before.sent) after.sent))

-- The state of both processes, the bytes in the socket that each has yet to read, and the buffers of the
-- messages that each has read from it.
pub record Network : Type 0 where
  pub left : Process
  pub right : Process
  pub left_fd : Fd
  pub right_fd : Fd
  pub to_left : Bytes
  pub to_right : Bytes
  pub left_heard : List Bytes
  pub right_heard : List Bytes

abbrev pub mirrored : Network → Network
mirrored n = record {
  left = n.right;
  right = n.left;
  left_fd = n.right_fd;
  right_fd = n.left_fd;
  to_left = n.to_right;
  to_right = n.to_left;
  left_heard = n.right_heard;
  right_heard = n.left_heard;
}

-- Two processes that start, with nothing on their sockets.
abbrev pub starting : (left_world right_world : World) (left_fd right_fd : Fd) → Network
starting left_world right_world left_fd right_fd = record {
  left = new_process left_world;
  right = new_process right_world;
  left_fd = left_fd;
  right_fd = right_fd;
  to_left = [];
  to_right = [];
  left_heard = [];
  right_heard = [];
}

-- The left process is now `p`; what it wrote to the socket is on its way.
abbrev pub after_call : Network → Process → Network
after_call n p = record n { left = p; to_right = n.to_right ++ new_bytes n.left_fd n.left p }

abbrev pub after_read : Network → Message → Bytes → Process → Network
after_read n m rest p = record n {
  left = p;
  to_left = rest;
  to_right = n.to_right ++ new_bytes n.left_fd n.left p;
  left_heard = n.left_heard ++ m.payload_buffer ∷ [];
}

-- A step of the left process: any call that returns, among them the reading of any bytes from the sockets
-- of other processes; or the reading of the message that is next on the socket here.
pub data LeftStep (n : Network) : Network → Type 0 where
  calls :
      (c : Call) {p : Process}
      → SendsSized c
      → perform c n.left ≡ done tt p
      → LeftStep n (after_call n p)
  hears :
      {m : Message} {rest : Bytes} {p : Process}
      → read_message n.to_left ≡ ok (m, rest)
      → perform (reads n.to_left) n.left ≡ done tt p
      → LeftStep n (after_read n m rest p)

pub data Step (n : Network) : Network → Type 0 where
  left_steps : {m : Network} → LeftStep n m → Step n m
  right_steps : {m : Network} → LeftStep (mirrored n) (mirrored m) → Step n m

-- Any steps of both, in any order.
pub data Steps (n : Network) : Network → Type 0 where
  stays : Steps n n
  goes_on : {m l : Network} → Steps n m → Step m l → Steps n l
