-- ===== src/Node/Send/All.antt =====
-- What `SendMessagesAndRecursiveDependents` of mage/core/node.cc does with messages that carry no endpoints.
use mathlib.Core.List.{append-nil, append_assoc}
use mage.Base.{
  ℕ, suc, zero, ◌+◌, ◌≤◌, ◌<◌, ◌^◌, ◌≡◌, ap, sym, ◌∙◌, List, [], ◌∷◌, ◌++◌, some, arith, length,
  All,
}
use mage.Base.Result.{ok}
use mage.Bytes.{Bytes}
use mage.Message.{Name, Message, size, get_endpoint_descriptors}
use mage.Message.Header.{HasHeader, set_target_endpoint_lem}
use mage.Map.{find, name_key}
use mage.Process.{Process, Fd, done}
use mage.Process.Exact.{step}
use mage.Node.Send.{retarget, send_loop, send_messages, queued}
use mage.Node.Send.Exact.{send_with_dependents-alone}

-- A message without endpoints that says its size.
pub record IsSendable (m : Message) : Type 0 where
  pub whole : HasHeader m
  pub alone : get_endpoint_descriptors m ≡ ok []
  pub sized : size m ≡ length m.payload_buffer
  pub small : length m.payload_buffer < 2 ^ 31

pub retarget-IsSendable :
    (name : Name) (ms : List Message)
    → length name ≡ 15
    → All IsSendable ms
    → All IsSendable (retarget name ms)
unfolding retarget
retarget-IsSendable name [] named h = tt
retarget-IsSendable name (m ∷ ms) named (i, h) =
    let (_, says, _, _, long, _, carried) = set_target_endpoint_lem m name i.whole named in
    (
      record {
        whole = omega (arith, long, i.whole);
        alone = carried ∙ i.alone;
        sized = says ∙ i.sized ∙ sym long;
        small = omega (arith, long, i.small);
      },
      retarget-IsSendable name ms named h,
    )

-- The socket takes every buffer whole.
abbrev pub TakesAll : Process → Fd → Type 0
TakesAll s fd =
    (sent : List (Fd × Bytes)) (bytes : Bytes) → s.world.write sent fd bytes ≡ length bytes

-- The bytes of messages, for a channel.
abbrev pub on_channel : Fd → List Message → List (Fd × Bytes)
on_channel fd [] = []
on_channel fd (m ∷ ms) = (fd, m.payload_buffer) ∷ on_channel fd ms

pub send_loop-all :
    (fuel : ℕ) (ms : List Message) (s : Process) (node : Name) (fd : Fd)
    → length ms ≤ fuel
    → All IsSendable ms
    → find node s.node_channel_map ≡ some fd
    → TakesAll s fd
    → send_loop fuel ms node s ≡ done tt (record s { sent = s.sent ++ on_channel fd ms })
unfolding send_loop
send_loop-all zero [] s node fd enough h found takes =
    ap (λ l. done tt (record s { sent = l })) (sym (append-nil s.sent))
send_loop-all (suc fuel) [] s node fd enough h found takes =
    ap (λ l. done tt (record s { sent = l })) (sym (append-nil s.sent))
send_loop-all zero (m ∷ ms) s node fd enough h found takes = absurd (omega arith)
send_loop-all (suc fuel) (m ∷ ms) s node fd enough (i, h) found takes =
    let t : Process = record s { sent = s.sent ++ (fd, m.payload_buffer) ∷ [] } in
    step _
      (send_with_dependents-alone s m node fd i.alone found
        (record { sized = i.sized; small = i.small; whole = takes s.sent m.payload_buffer }))
      (ap (λ l. send_loop fuel l node t) (append-nil ms)
        ∙ send_loop-all fuel ms t node fd (omega arith) h found takes
        ∙ ap (λ l. done tt (record s { sent = l }))
            (append_assoc s.sent ((fd, m.payload_buffer) ∷ []) (on_channel fd ms)))

-- Messages without endpoints, each of which says its size, for a node with a channel whose socket takes
-- every buffer whole: they are written to that channel, each once and in their order, and nothing else changes.
pub send_messages-all :
    (ms : List Message) (s : Process) (node : Name) (fd : Fd)
    → All IsSendable ms
    → find node s.node_channel_map ≡ some fd
    → TakesAll s fd
    → send_messages ms node s ≡ done tt (record s { sent = s.sent ++ on_channel fd ms })
unfolding send_messages
send_messages-all ms s node fd h found takes =
    send_loop-all (length ms + queued s.heap) ms s node fd (omega arith) h found takes
