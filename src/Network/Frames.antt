-- ===== src/Network/Frames.antt =====
-- What is on the socket between two processes (mage/core/channel.cc): whole messages, in order.
use mathlib.Core.List.{append_assoc}
use mage.Base.{
  if◌then◌else◌, true, false, List, [], ◌∷◌, ◌++◌, ◌==◌, ◌≡◌, ◌≢◌, refl, sym, ap, ◌∙◌, arith, All,
  All-append, length, drop, drop-length-append,
}
use mage.Base.Result.{ok, ok-injective}
use mage.Bytes.{Bytes}
use mage.Message.{Message}
use mage.Process.{Process, Fd}
use mage.Process.Framed.{Framed, IsFrameBytes}
use mage.Channel.{read_message}
use mage.Channel.Frames.{read_message_lem}
use mage.Network.{written_on, join, new_bytes}

written_on-append :
    (fd : Fd) (a b : List (Fd × Bytes))
    → written_on fd (a ++ b) ≡ written_on fd a ++ written_on fd b
unfolding written_on
written_on-append fd [] b = refl
written_on-append fd ((fd', buffer) ∷ a) b = ground (arith, written_on-append fd a b)

join-append : (a b : List Bytes) → join (a ++ b) ≡ join a ++ join b
unfolding join
join-append [] b = refl
join-append (buffer ∷ a) b =
    ap (λ l. buffer ++ l) (join-append a b) ∙ sym (append_assoc buffer (join a) (join b))

All-written_on :
    (fd : Fd) (a : List (Fd × Bytes))
    → All (λ (w : Fd × Bytes). IsFrameBytes w.1) a
    → All IsFrameBytes (written_on fd a)
unfolding written_on
All-written_on fd [] h = tt
All-written_on fd ((fd', buffer) ∷ a) (frame, h) =
    let later = All-written_on fd a h in
    elim (fd == fd')
      as (λ b. All IsFrameBytes (if b then buffer ∷ written_on fd a else written_on fd a)) [
        | true ↦ (frame, later)
        | false ↦ later
      ]

-- Of all the buffers that a process wrote to `fd`, those that the other end heard come first; those that
-- wait are on the socket, one behind the other; and they are frames.
pub record Faithful (fd : Fd) (writer : Process) (socket : Bytes) (heard : List Bytes)
    : Type 0 where
  pub waiting : List Bytes
  pub order : written_on fd writer.sent ≡ heard ++ waiting
  pub bytes : socket ≡ join waiting
  pub frames : All IsFrameBytes waiting

module _ (fd : Fd) (s t : Process) (socket : Bytes) (heard : List Bytes) where
  pub Faithful-write :
      Faithful fd s socket heard → Framed s t → Faithful fd t (socket ++ new_bytes fd s t) heard
  unfolding new_bytes
  Faithful-write f w = record {
    waiting = f.waiting ++ written_on fd w.written;
    order =
        ap (written_on fd) w.sent
        ∙ written_on-append fd s.sent w.written
        ∙ ap (λ l. l ++ written_on fd w.written) f.order
        ∙ append_assoc heard f.waiting (written_on fd w.written);
    bytes =
        ap (λ l. l ++ join (written_on fd (drop (length s.sent) t.sent))) f.bytes
        ∙ ap (λ l. join f.waiting ++ join (written_on fd (drop (length s.sent) l))) w.sent
        ∙ ap (λ l. join f.waiting ++ join (written_on fd l)) (drop-length-append s.sent w.written)
        ∙ sym (join-append f.waiting (written_on fd w.written));
    frames =
        All-append IsFrameBytes f.waiting (written_on fd w.written) f.frames
          (All-written_on fd w.written w.frames);
  }

nothing_to_read :
    (m : Message) (rest socket : Bytes) → socket ≡ [] → read_message socket ≢ ok (m, rest)
unfolding read_message
nothing_to_read m rest socket empty read = ground (arith, empty)

-- What is read is the first of the buffers that wait.
pub Faithful-read :
    (fd : Fd) (s : Process) (socket : Bytes) (heard : List Bytes) (m : Message) (rest : Bytes)
    → Faithful fd s socket heard
    → read_message socket ≡ ok (m, rest)
    → Faithful fd s rest (heard ++ m.payload_buffer ∷ [])
unfolding join
Faithful-read fd s socket heard m rest f read = go f.waiting f.order f.bytes f.frames
  where
    go :
        (waiting : List Bytes)
        → written_on fd s.sent ≡ heard ++ waiting
        → socket ≡ join waiting
        → All IsFrameBytes waiting
        → Faithful fd s rest (heard ++ m.payload_buffer ∷ [])
    go [] order bytes frames = absurd (nothing_to_read m rest socket bytes read)
    go (w ∷ ws) order bytes (frame, frames) =
        let first : Message = record { payload_buffer = w; pipes = [] } in
        let e : (m, rest) ≡ (first, join ws) =
          ok-injective
            (sym read ∙ ap read_message bytes ∙ read_message_lem first (join ws) frame) in
        record {
          waiting = ws;
          order =
              order
              ∙ sym (append_assoc heard (w ∷ []) ws)
              ∙ ap (λ l. (heard ++ l.payload_buffer ∷ []) ++ ws) (sym (ap (λ l. l.0) e));
          bytes = ap (λ l. l.1) e;
          frames = frames;
        }
