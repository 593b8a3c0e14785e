-- ===== src/Channel/Write.antt =====
-- `Channel::SendMessage` of mage/core/channel.cc.
use mage.Base.{◌%◌, ◌^◌, ◌≡◌, ◌<◌, [], ◌∷◌, ◌++◌, length, ◌==◌, arith}
use mage.Message.{Message, size}
use mage.Process.{Process, Fd, done}
use mage.Process.Sound.{Sound, seq, require_lem}
use mage.Process.Exact.{step, require-true}
use mage.Channel.{send_on_channel}

pub send_on_channel_lem :
    {Q : Unit {0} → Process → Type 0} (s : Process) (fd : Fd) (m : Message)
    → Q tt (record s { sent = s.sent ++ (fd, m.payload_buffer) ∷ [] })
    → Sound Q (send_on_channel fd m s)
unfolding send_on_channel
send_on_channel_lem s fd m h =
    seq (require_lem s (size m == length m.payload_buffer % 2 ^ 32) λ _. require_lem _ _ λ _. h)

-- The socket takes the whole buffer of a message that says its size.
pub record Writes (s : Process) (fd : Fd) (m : Message) : Type 0 where
  pub sized : size m ≡ length m.payload_buffer
  pub small : length m.payload_buffer < 2 ^ 31
  pub whole : s.world.write s.sent fd m.payload_buffer ≡ length m.payload_buffer

pub send_on_channel-Writes :
    (s : Process) (fd : Fd) (m : Message)
    → Writes s fd m
    → send_on_channel fd m s ≡ done tt (record s { sent = s.sent ++ (fd, m.payload_buffer) ∷ [] })
unfolding send_on_channel
send_on_channel-Writes s fd m w =
    step _
      (require-true s (size m == length m.payload_buffer % 2 ^ 32)
        (ground (arith, w.sized, w.small)))
      (require-true (record s { sent = s.sent ++ (fd, m.payload_buffer) ∷ [] })
        (s.world.write s.sent fd m.payload_buffer == size m) (ground (arith, w.sized, w.whole)))
