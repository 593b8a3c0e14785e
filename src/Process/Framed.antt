-- ===== src/Process/Framed.antt =====
-- What a process writes to its sockets (mage/core/channel.cc) are frames, if the messages that wait in its
-- endpoints fit in one.
use mathlib.Core.List.{append-nil, append_assoc}
use mage.Base.{
  true, false, ◌%◌, ◌^◌, ◌≤◌, ◌<◌, ◌≡◌, refl, sym, ap, ◌∙◌, List, [], ◌∷◌, ◌++◌, arith, length, All,
  All-append, ◌==◌,
}
use mage.Bytes.{Bytes}
use mage.Bytes.Laws.{length-memcpy}
use mage.Message.{Name, Message, size, set_target_endpoint}
use mage.Endpoint.{Endpoint, Address, unbound_and_proxying}
use mage.Process.{Process, Ref, Fd}
use mage.Process.Sound.{Sound, seq, require_lem}
use mage.Process.Laws.{with_endpoint, lock_lem, unlock_lem, proxy_to_lem, take_queue_lem}
use mage.Process.Heap.{lock, unlock, proxy_to, take_queue}
use mage.Process.Invariant.{All-get, All-set}
use mage.Channel.{send_on_channel}
use mage.Channel.Frames.{IsFrame}

-- An `int` can hold its size, and it has a header.
abbrev pub IsSized : Message → Type 0
IsSized m = (40 ≤ length m.payload_buffer) × (length m.payload_buffer < 2 ^ 31)

abbrev pub HoldsSized : Endpoint → Type 0
HoldsSized e = All IsSized e.incoming_message_queue

-- The bytes of a frame.
abbrev pub IsFrameBytes : Bytes → Type 0
IsFrameBytes bs = IsFrame (record { payload_buffer = bs; pipes = [] })

-- In `t` the messages that wait fit in frames; from `s` to `t` nothing but frames was written.
pub record Framed (s t : Process) : Type 0 where
  pub queues : All HoldsSized t.heap
  pub written : List (Fd × Bytes)
  pub sent : t.sent ≡ s.sent ++ written
  pub frames : All (λ (w : Fd × Bytes). IsFrameBytes w.1) written

pub Framed-refl : (s : Process) → All HoldsSized s.heap → Framed s s
Framed-refl s h = record { queues = h; written = []; sent = sym (append-nil s.sent); frames = tt }

pub Framed-trans : (s t u : Process) → Framed s t → Framed t u → Framed s u
Framed-trans s t u a b = record {
  queues = b.queues;
  written = a.written ++ b.written;
  sent = b.sent ∙ ap (λ l. l ++ b.written) a.sent ∙ append_assoc s.sent a.written b.written;
  frames = All-append _ a.written b.written a.frames b.frames;
}

-- An endpoint changed, and what waits there fits.
pub Framed-set :
    (s : Process) (r : Ref) (e' : Endpoint)
    → All HoldsSized s.heap
    → HoldsSized e'
    → Framed s (with_endpoint s r e')
Framed-set s r e' h fits = record {
  queues = All-set HoldsSized s.heap r e' h fits;
  written = [];
  sent = sym (append-nil s.sent);
  frames = tt;
}

module _ (s : Process) (h : All HoldsSized s.heap) (r : Ref) where
  pub lock-Framed : Sound (λ _ t. Framed s t) (lock r s)
  lock-Framed = lock_lem s r λ e there free.
      Framed-set s r (record e { lock = true }) h (All-get HoldsSized s.heap r e h there)

  pub unlock-Framed : Sound (λ _ t. Framed s t) (unlock r s)
  unlock-Framed = unlock_lem s r λ e there.
      Framed-set s r (record e { lock = false }) h (All-get HoldsSized s.heap r e h there)

  pub proxy_to-Framed : (target : Address) → Sound (λ _ t. Framed s t) (proxy_to r target s)
  proxy_to-Framed target = proxy_to_lem s r target λ e there queueing.
      Framed-set s r (record e { state = unbound_and_proxying; proxy_target = target }) h
        (All-get HoldsSized s.heap r e h there)

  -- What is taken fits, too.
  pub take_queue-Framed : Sound (λ ms t. All IsSized ms × Framed s t) (take_queue r s)
  take_queue-Framed = take_queue_lem s r λ e there. (
    All-get HoldsSized s.heap r e h there,
    Framed-set s r (record e { incoming_message_queue = [] }) h tt,
  )

-- `Channel::SendMessage` checks that a message says its size.
pub send_on_channel-Framed :
    (s : Process) (fd : Fd) (m : Message)
    → All HoldsSized s.heap
    → IsSized m
    → Sound (λ _ t. Framed s t) (send_on_channel fd m s)
unfolding send_on_channel size
send_on_channel-Framed s fd m h (whole, small) = seq (
    require_lem s (size m == length m.payload_buffer % 2 ^ 32) λ says. require_lem _ _ λ _. record {
      queues = h;
      written = (fd, m.payload_buffer) ∷ [];
      sent = refl;
      frames = ((whole, (ground (arith, says), small)), tt);
    })

pub set_target_endpoint-IsSized :
    (m : Message) (name : Name) → IsSized m → IsSized (set_target_endpoint m name)
unfolding set_target_endpoint
set_target_endpoint-IsSized m name (whole, small) = (
  omega (arith, length-memcpy m.payload_buffer 12 name),
  omega (arith, length-memcpy m.payload_buffer 12 name),
)
