-- ===== src/Api/Move.antt =====
-- An endpoint moves from one process to another, in a message of a pipe between them, and the messages that
-- waited in it follow (mage/core/node.cc, mage/core/channel.cc).
use mathlib.Core.List.{append_assoc}
use mage.Base.{
  ℕ, suc, ◌≡◌, refl, sym, ap, ◌∙◌, false, List, [], ◌∷◌, ◌++◌, map, some, none, arith, get_elem?,
  set, length, All, get_elem?-set_ne, get_elem?-append_length, get_elem?-lt,
}
use mage.Base.Result.{ok}
use mage.Bytes.{Bytes}
use mage.Message.{
  Name, Message, EndpointDescriptor, message_type, set_target_endpoint, get_endpoint_descriptors,
  queue_pipe,
}
use mage.Message.Header.{set_target_endpoint_lem}
use mage.Map.{find, name_key, pipe_key}
use mage.Map.Laws.{find-insert_self}
use mage.Endpoint.{Endpoint, Dispatch, accept_message}
use mage.Endpoint.Valid.{new_endpoint-IsValid}
use mage.Process.{Process, Ref, Fd, done, dispatch}
use mage.Process.Exact.{step, lift-ok}
use mage.Channel.Frames.{IsFrame, received, stream, read_message_lem}
use mage.Node.Send.{retarget, node_send_message}
use mage.Node.Send.All.{IsSendable, TakesAll, on_channel}
use mage.Node.Send.Move.{Moves, moved, node_send_message-moved}
use mage.Node.Receive.{on_received_message, on_received_user_message}
use mage.Node.Receive.Recover.{arriving, HasRoom, with_arriving, on_received_user_message-recovers}
use mage.Api.{on_can_read_from_socket}
use mage.Api.Arrival.{received_lem}
use mage.Api.Pipe.{IsPlain, with_queued_at}
use mage.Api.Stream.{reads_frames, Queues, IsAddressed, reads_frames-stream}

-- The first process: the endpoint `e` at `sender`, on which `m` is sent, has its peer in another process; the
-- endpoint `p` at `r` is the one that `m` carries.
pub record Sends (s : Process) (m : Message) (sender r : Ref) (e p : Endpoint)
    (d : EndpointDescriptor) (at : ℕ) (fd : Fd) : Type 0 where
  pub there : get_elem? s.heap sender ≡ some e
  pub typed : message_type m ≡ 2
  pub carries : get_endpoint_descriptors m ≡ ok ((at, d) ∷ [])
  pub frame : IsFrame m
  pub named : length e.peer_address.endpoint_name ≡ 15
  pub absent : find e.peer_address.endpoint_name s.local_endpoints ≡ none
  pub channel : find e.peer_address.node_name s.node_channel_map ≡ some fd
  pub takes : TakesAll s fd
  pub moves : Moves s d r p
  pub cross : length d.cross_node_endpoint_name ≡ 15
  pub plain : All IsPlain p.incoming_message_queue
  pub sendable : All IsSendable p.incoming_message_queue

-- The other process: the peer `q` at `target` is registered, not locked, and accepts the message with the
-- next handle as its pipe; there is room for the endpoint.
pub record Accepts (s : Process) (name : Name) (m : Message) (target : Ref) (q q' : Endpoint)
    (d : EndpointDescriptor) (tasks : List Dispatch) : Type 0 where
  pub found : find name s.local_endpoints ≡ some target
  pub there : get_elem? s.heap target ≡ some q
  pub named : q.name ≡ name
  pub free : q.lock ≡ false
  pub room : HasRoom s d
  pub accepts :
      accept_message q (queue_pipe (received (set_target_endpoint m name)) s.next_available_handle)
      ≡ ok (q', tasks)

-- The other process after the carrier: the peer is `q'`, and the endpoint has arrived.
abbrev pub accepted :
    Process → (target : Ref) (q' : Endpoint) → EndpointDescriptor → List Dispatch → Process
accepted s target q' d tasks = record (with_arriving s d) {
  heap = set (s.heap ++ arriving d ∷ []) target (record q' { lock = false });
  tasks = s.tasks ++ map dispatch tasks;
}

retarget-IsAddressed :
    (d : EndpointDescriptor) (ms : List Message)
    → length d.cross_node_endpoint_name ≡ 15
    → All IsPlain ms
    → All IsSendable ms
    → All (IsAddressed (arriving d)) (retarget d.cross_node_endpoint_name ms)
unfolding retarget
retarget-IsAddressed d [] named h i = tt
retarget-IsAddressed d (m ∷ ms) named (p, h) (z, i) =
    let (aimed, says, type, _, long, _, carried) =
      set_target_endpoint_lem m d.cross_node_endpoint_name p.whole named in
    (
      record {
        frame = (
          omega (arith, long, p.whole),
          (says ∙ z.sized ∙ sym long, omega (arith, long, z.small)),
        );
        typed = type ∙ p.typed;
        alone = carried ∙ p.alone;
        aimed = aimed;
      },
      retarget-IsAddressed d ms named h i,
    )

on_received_message-user :
    (s : Process) (m : Message)
    → message_type m ≡ 2
    → on_received_message m s ≡ on_received_user_message m s
unfolding on_received_message
on_received_message-user s m typed = rw typed refl

module _ (s : Process) (name : Name) (m : Message) (target : Ref) (q q' : Endpoint)
    (d : EndpointDescriptor) (at : ℕ) (tasks : List Dispatch)
    (a : Accepts s name m target q q' d tasks) where
  reads_carrier :
      (rest : Bytes)
      → IsFrame m
      → length name ≡ 15
      → message_type m ≡ 2
      → get_endpoint_descriptors m ≡ ok ((at, d) ∷ [])
      → on_can_read_from_socket ((set_target_endpoint m name).payload_buffer ++ rest) s
        ≡ done rest (accepted s target q' d tasks)
  unfolding on_can_read_from_socket
  reads_carrier rest (whole, (said, small)) named typed carries =
      let (aimed, says, type, _, long, _, carried) = set_target_endpoint_lem m name whole named in
      let m' = set_target_endpoint m name in
      let (type', aimed', carried') = received_lem m' in
      step _
        (lift-ok s (
          read_message_lem m' rest
            (omega (arith, long), (says ∙ said ∙ sym long, omega (arith, long)))))
        (step _
          (on_received_message-user s (received m') (type' ∙ type ∙ typed)
            ∙ on_received_user_message-recovers s (received m') target q q' at d tasks
                (ap (λ n. find n s.local_endpoints) (aimed' ∙ aimed) ∙ a.found) a.there
                (a.named ∙ sym (aimed' ∙ aimed)) a.free (carried' ∙ carried ∙ carries) a.room
                a.accepts)
          refl)

  Queues-arriving : Queues (accepted s target q' d tasks) (length s.heap) (arriving d)
  Queues-arriving = record {
    found =
        find-insert_self d.cross_node_endpoint_name (length s.heap) s.local_endpoints a.room.name;
    there =
        get_elem?-set_ne (s.heap ++ arriving d ∷ []) target (length s.heap) _
          (λ e. absurd (omega (arith, e, get_elem?-lt s.heap target a.there)))
        ∙ get_elem?-append_length s.heap [] (arriving d);
    valid = new_endpoint-IsValid _ _;
    queueing = refl;
    free = refl;
  }

-- What the two processes are at: `a` is one that `Sends`, with the message `m`, the endpoint `p` to the peer
-- of `e`, and `b` is one that `Accepts` it. Sending `m` on `e` in `a` returns; it writes the carrier and then
-- the messages that waited in `p`, and makes `p` a proxy. When those bytes stand on the socket of `b`, in
-- front of any bytes, as many calls of the handler as there are messages read just these. The peer has then
-- accepted the carrier, with a new handle as its pipe; the handle leads to an endpoint with the name that
-- `p` forwards to and with the peer of `p`; and the messages that waited in `p` wait there, each once and in
-- their order.
pub pipe_moves :
    (a b : Process) (m : Message) (sender r target : Ref) (e p q q' : Endpoint)
    (d : EndpointDescriptor) (at : ℕ) (fd : Fd) (rest : Bytes) (tasks : List Dispatch)
    → Sends a m sender r e p d at fd
    → Accepts b e.peer_address.endpoint_name m target q q' d tasks
    → let ms =
        set_target_endpoint m e.peer_address.endpoint_name
        ∷ retarget d.cross_node_endpoint_name p.incoming_message_queue in
      let moves = retarget d.cross_node_endpoint_name p.incoming_message_queue in
      let b' = accepted b target q' d tasks in
      (node_send_message sender m a
        ≡ done tt (record a {
          heap = set a.heap r (moved p d e.peer_address.node_name);
          sent = a.sent ++ on_channel fd ms;
        }))
      × (reads_frames (length ms) (stream ms ++ rest) b
          ≡ done rest (with_queued_at b' (length b.heap) (arriving d) (map received moves)))
      × (find b.next_available_handle b'.handle_table ≡ some (length b.heap))
unfolding reads_frames
pipe_moves a b m sender r target e p q q' d at fd rest tasks s c =
    let name = e.peer_address.endpoint_name in
    let waiting = retarget d.cross_node_endpoint_name p.incoming_message_queue in
    let m' = set_target_endpoint m name in
    (
      node_send_message-moved a m sender r e p d at fd s.there s.frame.0 s.typed s.carries
          s.frame.1.0 s.frame.1.1 s.named s.absent s.channel s.takes s.moves s.cross s.sendable,
      ap (λ bytes. reads_frames (suc (length waiting)) bytes b)
            (append_assoc m'.payload_buffer (stream waiting) rest)
          ∙ step _
              (reads_carrier b name m target q q' d at tasks c (stream waiting ++ rest) s.frame
                s.named s.typed s.carries)
              (reads_frames-stream waiting (accepted b target q' d tasks) (length b.heap)
                (arriving d) rest (Queues-arriving b name m target q q' d at tasks c)
                (retarget-IsAddressed d p.incoming_message_queue s.cross s.plain s.sendable)),
      find-insert_self b.next_available_handle (length b.heap) b.handle_table c.room.handle,
    )
