-- ===== src/Channel/Frames.antt =====
-- Messages on a socket, in mage/core/channel.cc: what `OnCanReadFromSocket` reads from the bytes that
-- `SendMessage` wrote.
use mage.Base.{
  ℕ, zero, suc, ◌+◌, ◌-◌, ◌^◌, ◌<◌, ◌≡◌, refl, sym, ap, ◌∙◌, List, [], ◌∷◌, ◌++◌, map, arith,
  length, length-append, length-take, length-drop, take, drop, take-length-append,
  drop-length-append, take-append-drop, All,
}
use mathlib.Core.List.{append_assoc}
use mage.Base.Result.{Result, ok, ◌>>=◌}
use mage.Bytes.{Bytes, read_int, slice, from_bytes}
use mage.Bytes.Laws.{slice-append_left}
use mage.Message.{Message, size}
use mage.Message.Header.{HasHeader}
use mage.Channel.{read_message, receive_body}

take-append : (n : ℕ) (xs ys : Bytes) → length xs ≡ n → take n (xs ++ ys) ≡ xs
take-append n xs ys e = rw (← e) (take-length-append xs ys)

drop-append : (n : ℕ) (xs ys : Bytes) → length xs ≡ n → drop n (xs ++ ys) ≡ ys
drop-append n xs ys e = rw (← e) (drop-length-append xs ys)

-- A header and a body of the length that the header says.
receive_body-append :
    (header body rest : Bytes) (total : ℕ)
    → total ≡ 40 + length body
    → total < 2 ^ 31
    → receive_body header (body ++ rest) total
      ≡ ok (record { payload_buffer = header ++ body; pipes = [] }, rest)
unfolding receive_body
receive_body-append header body rest total e small = ground (
  arith,
  length-append body rest,
  take-append (total - 40) body rest (omega arith),
  drop-append (total - 40) body rest (omega arith),
)

read_message-append :
    (header body rest : Bytes)
    → length header ≡ 40
    → read_int header 0 4 ≡ 40 + length body
    → 40 + length body < 2 ^ 31
    → read_message (header ++ (body ++ rest))
      ≡ ok (record { payload_buffer = header ++ body; pipes = [] }, rest)
unfolding read_message
read_message-append header body rest whole said small = ground (
  arith,
  length-append header (body ++ rest),
  take-append 40 header (body ++ rest) whole,
  drop-append 40 header (body ++ rest) whole,
  receive_body-append header body rest (read_int header 0 4) said (omega arith),
)

-- A message that a sender may write: it has a header, which says its length, and an `int` can hold it.
abbrev pub IsFrame : Message → Type 0
IsFrame m = HasHeader m × ((size m ≡ length m.payload_buffer) × (length m.payload_buffer < 2 ^ 31))

-- What arrives of a message: its bytes.
abbrev pub received : Message → Message
received m = record m { pipes = [] }

pub read_message_lem :
    (m : Message) (rest : Bytes)
    → IsFrame m
    → read_message (m.payload_buffer ++ rest) ≡ ok (received m, rest)
unfolding size read_int
read_message_lem m rest (whole, (said, small)) =
    let bs = m.payload_buffer in
    let h = take 40 bs in
    let b = drop 40 bs in
    let whole' : length h ≡ 40 = omega (arith, length-take 40 bs) in
    let split : h ++ b ≡ bs = take-append-drop 40 bs in
    let said' : read_int h 0 4 ≡ 40 + length b =
      ap from_bytes (sym (slice-append_left h b 0 4 (omega arith)) ∙ ap (λ l. slice l 0 4) split)
      ∙ said
      ∙ omega (arith, length-drop 40 bs) in
    ap (λ l. read_message (l ++ rest)) (sym split)
    ∙ ap read_message (append_assoc h b rest)
    ∙ read_message-append h b rest whole' said' (omega (arith, length-drop 40 bs))
    ∙ ap (λ l. ok (record { payload_buffer = l; pipes = [] }, rest)) split

-- The bytes of the messages, one behind the other.
abbrev pub stream : List Message → Bytes
stream [] = []
stream (m ∷ ms) = m.payload_buffer ++ stream ms

-- The messages that `n` calls of the handler read.
unfoldable pub read_messages : ℕ → Bytes → Result (List Message × Bytes)
unfolding read_message
read_messages zero bs = ok ([], bs)
read_messages (suc n) bs =
    read_message bs >>= λ (m, rest). read_messages n rest >>= λ (ms, left). ok (m ∷ ms, left)

-- Messages that were written one behind the other, in front of any bytes, are read one by one in their
-- order, with their bytes as they were, and the bytes behind them stay. Each has a header that says its
-- length, which is below 2 ^ 31.
pub read_messages-stream :
    (ms : List Message) (rest : Bytes)
    → All IsFrame ms
    → read_messages (length ms) (stream ms ++ rest) ≡ ok (map received ms, rest)
unfolding read_messages
read_messages-stream [] rest frames = refl
read_messages-stream (m ∷ ms) rest (frame, frames) = rw (
  append_assoc m.payload_buffer (stream ms) rest,
  read_message_lem m (stream ms ++ rest) frame,
  read_messages-stream ms rest frames,
)
