-- ===== src/Api/Arrival.antt =====
-- A user message on its way from one process to another: `Node::SendMessage` and `Channel::SendMessage` in
-- the first, `Channel::OnCanReadFromSocket` and `Node::OnReceivedMessage` in the second
-- (mage/core/node.cc, mage/core/channel.cc).
use mage.Base.{
  ◌≡◌, refl, ap, sym, ◌∙◌, false, List, [], ◌∷◌, ◌++◌, map, some, none, arith, get_elem?, set,
  length,
}
use mage.Base.Result.{ok}
use mage.Bytes.{Bytes}
use mage.Message.{
  Message, target_endpoint, set_target_endpoint, get_endpoint_descriptors, message_type,
}
use mage.Message.Header.{HasHeader, set_target_endpoint_lem}
use mage.Map.{find, name_key}
use mage.Endpoint.{Endpoint, Dispatch, accept_message}
use mage.Process.{Process, Ref, Fd, done, dispatch}
use mage.Process.Exact.{step, lift-ok}
use mage.Channel.Write.{Writes}
use mage.Channel.Frames.{IsFrame, received, read_message_lem}
use mage.Node.Send.{node_send_message}
use mage.Node.Send.Exact.{node_send_message-sent}
use mage.Node.Receive.{on_received_message}
use mage.Node.Receive.Exact.{on_received_user_message-accept_message}
use mage.Api.{on_can_read_from_socket}

-- The message is for the endpoint `r`, which is `e`, of the process, and carries no endpoints.
pub record IsFor (s : Process) (r : Ref) (e : Endpoint) (m : Message) : Type 0 where
  pub typed : message_type m ≡ 2
  pub alone : get_endpoint_descriptors m ≡ ok []
  pub found : find (target_endpoint m) s.local_endpoints ≡ some r
  pub there : get_elem? s.heap r ≡ some e
  pub named : e.name ≡ target_endpoint m
  pub free : e.lock ≡ false

pub on_received_message-accept :
    (s : Process) (m : Message) (r : Ref) (e e' : Endpoint) (ds : List Dispatch)
    → IsFor s r e m
    → accept_message e m ≡ ok (e', ds)
    → on_received_message m s
      ≡ done tt (record s {
        heap = set s.heap r (record e' { lock = false });
        tasks = s.tasks ++ map dispatch ds;
      })
unfolding on_received_message
on_received_message-accept s m r e e' ds for accepts = rw for.typed (
    on_received_user_message-accept_message s m r e e' ds for.found for.there for.named for.free
      for.alone accepts)

-- A frame in front of other bytes on a socket.
pub on_can_read-accept :
    (s : Process) (m : Message) (rest : Bytes) (r : Ref) (e e' : Endpoint) (ds : List Dispatch)
    → IsFrame m
    → IsFor s r e (received m)
    → accept_message e (received m) ≡ ok (e', ds)
    → on_can_read_from_socket (m.payload_buffer ++ rest) s
      ≡ done rest (record s {
        heap = set s.heap r (record e' { lock = false });
        tasks = s.tasks ++ map dispatch ds;
      })
unfolding on_can_read_from_socket
on_can_read-accept s m rest r e e' ds frame for accepts =
    step _ (lift-ok s (read_message_lem m rest frame))
      (step _ (on_received_message-accept s (received m) r e e' ds for accepts) refl)

pub received_lem :
    (m : Message)
    → (message_type (received m) ≡ message_type m)
      × (target_endpoint (received m) ≡ target_endpoint m)
      × (get_endpoint_descriptors (received m) ≡ get_endpoint_descriptors m)
unfolding message_type target_endpoint get_endpoint_descriptors
received_lem m = (refl, refl, refl)

-- A user message that holds a header and carries no endpoints, for a peer in another process. In process
-- `a` the sender `e` has the peer's name, of 15 bytes, which is not registered there, and a channel to the
-- peer's node; the message says its size, which is below 2 ^ 31, and the socket takes it whole. In process
-- `b` an endpoint of that name is registered and not locked, and accepts the retargeted message as
-- `Endpoint::AcceptMessage` has it. Then sending it in `a` writes its retargeted bytes and changes nothing
-- else; and when they stand in front of any bytes on the socket of `b`, `b` reads just these, and does
-- what its endpoint does.
pub send_arrives :
    (a b : Process) (m : Message) (sender r : Ref) (e p p' : Endpoint) (fd : Fd) (rest : Bytes)
    (ds : List Dispatch)
    → get_elem? a.heap sender ≡ some e
    → HasHeader m
    → message_type m ≡ 2
    → get_endpoint_descriptors m ≡ ok []
    → length e.peer_address.endpoint_name ≡ 15
    → find e.peer_address.endpoint_name a.local_endpoints ≡ none
    → find e.peer_address.node_name a.node_channel_map ≡ some fd
    → Writes a fd (set_target_endpoint m e.peer_address.endpoint_name)
    → find e.peer_address.endpoint_name b.local_endpoints ≡ some r
    → get_elem? b.heap r ≡ some p
    → p.name ≡ e.peer_address.endpoint_name
    → p.lock ≡ false
    → accept_message p (received (set_target_endpoint m e.peer_address.endpoint_name)) ≡ ok (p', ds)
    → let bytes = (set_target_endpoint m e.peer_address.endpoint_name).payload_buffer in
      (node_send_message sender m a ≡ done tt (record a { sent = a.sent ++ (fd, bytes) ∷ [] }))
      × (on_can_read_from_socket (bytes ++ rest) b
          ≡ done rest (record b {
            heap = set b.heap r (record p' { lock = false });
            tasks = b.tasks ++ map dispatch ds;
          }))
send_arrives a b m sender r e p p' fd rest ds there whole typed alone named absent found writes
      found' there' same free accepts =
    let name = e.peer_address.endpoint_name in
    let m' = set_target_endpoint m name in
    let (target, _, type, _, long, _, carried) = set_target_endpoint_lem m name whole named in
    let (type', target', carried') = received_lem m' in
    (
      node_send_message-sent a m sender e fd there whole typed alone named absent found writes,
      on_can_read-accept b m' rest r p p' ds (omega (arith, long), (writes.sized, writes.small))
          (record {
            typed = type' ∙ type ∙ typed;
            alone = carried' ∙ carried ∙ alone;
            found = ap (λ n. find n b.local_endpoints) (target' ∙ target) ∙ found';
            there = there';
            named = same ∙ sym (target' ∙ target);
            free = free;
          })
          accepts,
    )
