-- ===== src/Network/Reach.antt =====
-- Two connected processes, over every sequence of steps (mage/core/api.cc, mage/core/channel.cc).

use mage.Base.{[], ◌≡◌, refl, All}
use mage.Process.{Process, World, Fd, done}
use mage.Process.Sound.{at_done}
use mage.Process.Invariant.{Inv}
use mage.Process.Locks.{IsUnlocked, Balanced-IsUnlocked}
use mage.Process.Framed.{HoldsSized, Framed}
use mage.Api.{new_process, Call, reads, perform}
use mage.Api.History.{new_process-Inv, perform-After}
use mage.Api.Locks.{perform-Balanced}
use mage.Api.Framed.{SendsSized, perform-Framed}
use mage.Network.{
  Network, written_on, join, mirrored, starting, LeftStep, calls, hears, Step, left_steps,
  right_steps, Steps, stays, goes_on,
}
use mage.Network.Frames.{Faithful, Faithful-write, Faithful-read}

-- The tables of a process are right, none of its endpoints is locked, and the messages that wait in them
-- fit in frames.
pub record IsSound (s : Process) : Type 0 where
  pub tables : Inv s
  pub unlocked : All IsUnlocked s.heap
  pub queues : All HoldsSized s.heap

-- Both processes are sound, and so are both directions of the socket.
pub record IsConnected (n : Network) : Type 0 where
  pub left : IsSound n.left
  pub right : IsSound n.right
  pub to_left : Faithful n.right_fd n.right n.to_left n.left_heard
  pub to_right : Faithful n.left_fd n.left n.to_right n.right_heard

new_process-IsSound : (world : World) → IsSound (new_process world)
unfolding new_process
new_process-IsSound world = record { tables = new_process-Inv world; unlocked = tt; queues = tt }

perform-IsSound :
    (c : Call) (s t : Process)
    → IsSound s
    → SendsSized c
    → perform c s ≡ done tt t
    → IsSound t × Framed s t
perform-IsSound c s t i sized ran =
    let framed : Framed s t = at_done (perform-Framed c s i.queues sized) ran in
    (
      record {
        tables = (at_done (perform-After c s i.tables) ran).0;
        unlocked =
            Balanced-IsUnlocked s.heap t.heap (at_done (perform-Balanced c s) ran) i.unlocked;
        queues = framed.queues;
      },
      framed,
    )

starting-IsConnected :
    (left_world right_world : World) (left_fd right_fd : Fd)
    → IsConnected (starting left_world right_world left_fd right_fd)
unfolding new_process written_on join
starting-IsConnected left_world right_world left_fd right_fd = record {
  left = new_process-IsSound left_world;
  right = new_process-IsSound right_world;
  to_left = record { waiting = []; order = refl; bytes = refl; frames = tt };
  to_right = record { waiting = []; order = refl; bytes = refl; frames = tt };
}

LeftStep-IsConnected : (n m : Network) → IsConnected n → LeftStep n m → IsConnected m
LeftStep-IsConnected n m i (calls c {p} sized ran) =
    let (sound, framed) = perform-IsSound c n.left p i.left sized ran in
    record {
      left = sound;
      right = i.right;
      to_left = i.to_left;
      to_right = Faithful-write n.left_fd n.left p n.to_right n.right_heard i.to_right framed;
    }
LeftStep-IsConnected n m i (hears {m = m'} {rest} {p} read ran) =
    let (sound, framed) = perform-IsSound (reads n.to_left) n.left p i.left tt ran in
    record {
      left = sound;
      right = i.right;
      to_left = Faithful-read n.right_fd n.right n.to_left n.left_heard m' rest i.to_left read;
      to_right = Faithful-write n.left_fd n.left p n.to_right n.right_heard i.to_right framed;
    }

mirrored-IsConnected : (n : Network) → IsConnected n → IsConnected (mirrored n)
mirrored-IsConnected n i = record {
  left = i.right;
  right = i.left;
  to_left = i.to_right;
  to_right = i.to_left;
}

Step-IsConnected : (n m : Network) → IsConnected n → Step n m → IsConnected m
Step-IsConnected n m i (left_steps s) = LeftStep-IsConnected n m i s
Step-IsConnected n m i (right_steps s) =
    mirrored-IsConnected (mirrored m)
      (LeftStep-IsConnected (mirrored n) (mirrored m) (mirrored-IsConnected n i) s)

-- Two processes start with nothing on the socket between them, and take any steps, each in any order: calls
-- that return, where what they send has a header and less than 2 ^ 31 bytes, bytes of any kind from other
-- processes, and messages of each other. Then in both directions, the buffers that were written to the
-- socket are, in order, those that the other process read, followed by those that lie on the socket, one
-- behind the other and each a frame: none is lost, doubled, split or out of order. In both processes the
-- tables lead to endpoints of the right name, every endpoint is valid, none is locked, and the messages that
-- wait in them fit in frames.
pub Steps-IsConnected :
    (left_world right_world : World) (left_fd right_fd : Fd) (n : Network)
    → Steps (starting left_world right_world left_fd right_fd) n
    → IsConnected n
Steps-IsConnected left_world right_world left_fd right_fd n stays =
    starting-IsConnected left_world right_world left_fd right_fd
Steps-IsConnected left_world right_world left_fd right_fd n (goes_on {m} before s) =
    Step-IsConnected m n (Steps-IsConnected left_world right_world left_fd right_fd m before) s
