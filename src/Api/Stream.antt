-- ===== src/Api/Stream.antt =====
-- Messages that arrive one behind the other on a socket, for an endpoint where messages wait
-- (mage/core/channel.cc, mage/core/node.cc).
use mathlib.Core.List.{append-nil, append_assoc}
use mage.Base.{
  ℕ, suc, zero, ◌≡◌, refl, sym, ap, ◌∙◌, false, List, [], ◌∷◌, ◌++◌, map, some, get_elem?, set,
  length, All,
}
use mage.Base.Result.{ok}
use mage.Bytes.{Bytes}
use mage.Message.{Message, message_type, target_endpoint, get_endpoint_descriptors}
use mage.Map.{find, name_key}
use mage.Endpoint.{Endpoint, unbound_and_queueing}
use mage.Endpoint.Valid.{IsValid, accept_message_queueing}
use mage.Process.{Process, Ref, M, pure, ◌>>=◌, done}
use mage.Process.Exact.{step, set-same, set-set, there-set}
use mage.Channel.Frames.{IsFrame, received, stream}
use mage.Api.{on_can_read_from_socket}
use mage.Api.Arrival.{received_lem, on_can_read-accept}
use mage.Api.Pipe.{with_queued, with_queued_at, with_queued-IsValid}

-- The socket calls the handler `n` times.
unfoldable pub reads_frames : ℕ → Bytes → M Bytes
unfolding on_can_read_from_socket
reads_frames zero incoming = pure incoming
reads_frames (suc n) incoming = do rest ← on_can_read_from_socket incoming; reads_frames n rest

-- The endpoint `e` at `r` is registered and not locked, and messages wait there.
pub record Queues (s : Process) (r : Ref) (e : Endpoint) : Type 0 where
  pub found : find e.name s.local_endpoints ≡ some r
  pub there : get_elem? s.heap r ≡ some e
  pub valid : IsValid e
  pub queueing : e.state ≡ unbound_and_queueing
  pub free : e.lock ≡ false

-- A user message without endpoints for this endpoint, in a frame.
pub record IsAddressed (e : Endpoint) (m : Message) : Type 0 where
  pub frame : IsFrame m
  pub typed : message_type m ≡ 2
  pub alone : get_endpoint_descriptors m ≡ ok []
  pub aimed : target_endpoint m ≡ e.name

on_can_read-Queues :
    (s : Process) (r : Ref) (e : Endpoint) (m : Message) (rest : Bytes)
    → Queues s r e
    → IsAddressed e m
    → on_can_read_from_socket (m.payload_buffer ++ rest) s
      ≡ done rest (with_queued_at s r e (received m ∷ []))
on_can_read-Queues s r e m rest q a =
    let (type, target, carried) = received_lem m in
    on_can_read-accept s m rest r e (with_queued e (received m ∷ [])) [] a.frame
      (record {
        typed = type ∙ a.typed;
        alone = carried ∙ a.alone;
        found = ap (λ n. find n s.local_endpoints) (target ∙ a.aimed) ∙ q.found;
        there = q.there;
        named = sym (target ∙ a.aimed);
        free = q.free;
      })
      (accept_message_queueing e (received m) q.valid q.queueing)
    ∙ rw (append-nil s.tasks, q.free) refl

Queues-queued :
    (s : Process) (r : Ref) (e : Endpoint) (ms : List Message)
    → Queues s r e
    → Queues (with_queued_at s r e ms) r (with_queued e ms)
Queues-queued s r e ms q = record {
  found = q.found;
  there = there-set s.heap r (with_queued e ms) q.there;
  valid = with_queued-IsValid e ms q.valid q.queueing;
  queueing = q.queueing;
  free = q.free;
}

-- The queue does not change who is addressed.
IsAddressed-queued :
    (e : Endpoint) (queue : List Message) (ms : List Message)
    → All (IsAddressed e) ms
    → All (IsAddressed (with_queued e queue)) ms
IsAddressed-queued e queue [] h = tt
IsAddressed-queued e queue (m ∷ ms) (a, h) = (
  record { frame = a.frame; typed = a.typed; alone = a.alone; aimed = a.aimed },
  IsAddressed-queued e queue ms h,
)

-- User messages without endpoints for an endpoint that is registered, valid, not locked and queueing stand on
-- the socket in frames, one behind the other and in front of any bytes. As many calls of the handler as there
-- are messages read just these; the messages then wait in the endpoint, in their order, behind those that
-- waited before; and nothing else changes.
pub reads_frames-stream :
    (ms : List Message) (s : Process) (r : Ref) (e : Endpoint) (rest : Bytes)
    → Queues s r e
    → All (IsAddressed e) ms
    → reads_frames (length ms) (stream ms ++ rest) s
      ≡ done rest (with_queued_at s r e (map received ms))
unfolding reads_frames
reads_frames-stream [] s r e rest q h =
    ap (λ heap. done rest (record s { heap = heap }))
      (sym (set-same s.heap r e q.there)
        ∙ ap (λ l. set s.heap r (record e { incoming_message_queue = l }))
            (sym (append-nil e.incoming_message_queue)))
reads_frames-stream (m ∷ ms) s r e rest q (a, h) =
    let first = received m ∷ [] in
    ap (λ bytes. reads_frames (suc (length ms)) bytes s)
      (append_assoc m.payload_buffer (stream ms) rest)
    ∙ step _ (on_can_read-Queues s r e m (stream ms ++ rest) q a) (
        reads_frames-stream ms (with_queued_at s r e first) r (with_queued e first) rest
          (Queues-queued s r e first q) (IsAddressed-queued e first ms h)
        ∙ ap (λ heap. done rest (record s { heap = heap }))
            (set-set s.heap r _ _
              ∙ ap (λ l. set s.heap r (record e { incoming_message_queue = l }))
                  (append_assoc e.incoming_message_queue first (map received ms))))
