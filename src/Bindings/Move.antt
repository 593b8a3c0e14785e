-- ===== src/Bindings/Move.antt =====
-- A call whose argument is a message pipe, from a remote in one process to a receiver in another: the
-- generated proxy and stub of mage/public/parser/classes.tmpl, and the move of the endpoint between them.
use mathlib.Core.Option.{some-injective}
use mage.Util.Laws.{length-random_identifier}
use mage.Base.{
  ℕ, ◌^◌, ◌<◌, ◌≡◌, refl, sym, ap, subst, ◌∙◌, true, false, List, [], ◌∷◌, ◌++◌, map, some, none,
  arith, length, get_elem?, set, All,
}
use mage.Base.Result.{ok}
use mage.Bytes.{Bytes}
use mage.Message.{
  Name, Message, MessagePipe, EndpointDescriptor, get_endpoint_descriptors, set_target_endpoint,
  queue_pipe,
}
use mage.Message.Descriptors.{located}
use mage.Map.{find, name_key, pipe_key}
use mage.Endpoint.{
  Endpoint, Dispatch, bound, unbound_and_queueing, unbound_and_proxying, state_eq, is_assigned,
}
use mage.Endpoint.Valid.{IsValid, accept_message_bound}
use mage.Process.{Process, Ref, Fd, done}
use mage.Process.Exact.{step, or_fail-some}
use mage.Channel.Frames.{received, stream}
use mage.Node.Send.{retarget}
use mage.Node.Send.All.{IsSendable, TakesAll, on_channel}
use mage.Node.Send.Move.{moved}
use mage.Node.Receive.Recover.{arriving, HasRoom}
use mage.Api.{send_message}
use mage.Api.Pipe.{IsPlain, with_queued_at}
use mage.Api.Stream.{reads_frames}
use mage.Api.Move.{accepted, pipe_moves}
use mage.Magen.{Method, Arguments}
use mage.Magen.Holds.{handles_of, HasBits}
use mage.Magen.Read.{recovered}
use mage.Magen.Proxy.{call}
use mage.Magen.Stub.{Invocation, dispatch_to, on_received_message}
use mage.Magen.Write.{Sendable, Described, nothing, also, described_by}
use mage.Magen.Serialize.{serialize-Serialized, serialized_size, length-handles_of}
use mage.Magen.RoundTrip.{IsFirst, Serialized-invoked}
use mage.Bindings.{Stubs, dispatch_message, dispatch_message_if_still_alive, run_tasks}
use mage.Bindings.Bind.{bound_stub}

-- In the calling process, `handle` leads to the endpoint `e`, whose peer is in another process, and `pipe`,
-- the one handle among the arguments, to the endpoint `p`, which queues, and which nobody uses now.
pub record CallsWithPipe (a : Process) (interface : List Method) (method : Method)
    (arguments : Arguments method.types) (handle pipe : MessagePipe) (sender r : Ref)
    (e p : Endpoint) (fd : Fd) : Type 0 where
  pub handled : find handle a.handle_table ≡ some sender
  pub there : get_elem? a.heap sender ≡ some e
  pub direct : state_eq e.state unbound_and_proxying ≡ false
  pub named : length e.peer_address.endpoint_name ≡ 15
  pub absent : find e.peer_address.endpoint_name a.local_endpoints ≡ none
  pub channel : find e.peer_address.node_name a.node_channel_map ≡ some fd
  pub takes : TakesAll a fd
  pub one : handles_of method.types arguments ≡ pipe ∷ []
  pub carried : find pipe a.handle_table ≡ some r
  pub registered : find p.name a.local_endpoints ≡ some r
  pub there' : get_elem? a.heap r ≡ some p
  pub own_name : length p.name ≡ 15
  pub peer_node : length p.peer_address.node_name ≡ 15
  pub peer_endpoint : length p.peer_address.endpoint_name ≡ 15
  pub queueing : p.state ≡ unbound_and_queueing
  pub unserved : is_assigned p.delegate ≡ false
  pub free : p.lock ≡ false
  pub plain : All IsPlain p.incoming_message_queue
  pub sendable : All IsSendable p.incoming_message_queue
  pub first : IsFirst method interface
  pub known : method.id < 2 ^ 31
  pub bits : HasBits method.types arguments
  pub small : serialized_size method.types arguments < 2 ^ 31

-- In the other process the peer `q` is bound to the stub `self` of the interface, which is alive.
pub record Serving (b : Process) (name : Name) (target : Ref) (q : Endpoint)
    (d : EndpointDescriptor) (interface : List Method) (stubs : Stubs) (self impl : ℕ)
    : Type 0 where
  pub found : find name b.local_endpoints ≡ some target
  pub there : get_elem? b.heap target ≡ some q
  pub named : q.name ≡ name
  pub free : q.lock ≡ false
  pub valid : IsValid q
  pub served : q.state ≡ bound
  pub delegate : q.delegate ≡ some self
  pub handle : MessagePipe
  pub alive : get_elem? stubs self ≡ some (some (bound_stub interface handle impl))
  pub room : HasRoom b d

Described-one :
    (s : Process) {j : ℕ} {hs : List MessagePipe} {ds : List EndpointDescriptor}
    (pipe : MessagePipe) (r : Ref) (p : Endpoint)
    → Described s.heap s.handle_table s.world.draw s.drawn j hs ds
    → hs ≡ pipe ∷ []
    → find pipe s.handle_table ≡ some r
    → get_elem? s.heap r ≡ some p
    → ds ≡ described_by s p ∷ []
Described-one s pipe r p nothing e found there = cc
Described-one s pipe r p (also {handle} {d} h n c q u named nothing) e found there =
    let same : h.endpoint ≡ p = some-injective _ _ (
      sym h.there
      ∙ ap (get_elem? s.heap)
          (some-injective _ _ (sym h.handled ∙ ap (λ k. find k s.handle_table) (cc) ∙ found))
      ∙ there) in
    cc
Described-one s pipe r p (also h n c q u named (also h' n' c' q' u' named' rest)) e found there = cc

run_tasks-one :
    (interface : List Method) (handle : MessagePipe) (impl self : ℕ) (stubs : Stubs)
    (task : Dispatch) (m : Message) (called : Invocation)
    → get_elem? stubs self ≡ some (some (bound_stub interface handle impl))
    → task.receiver ≡ self
    → task.message ≡ m
    → dispatch_to interface (some impl) m ≡ ok called
    → run_tasks stubs (task ∷ []) ≡ ok (called ∷ [])
unfolding run_tasks dispatch_message_if_still_alive dispatch_message on_received_message
run_tasks-one interface handle impl self stubs task m called alive to same calls =
    rw (to, alive, same, calls) refl

-- A process that `CallsWithPipe`, through a proxy that is bound to `handle`, and another that is `Serving`
-- the peer. The call returns; it writes the message of the call and then the messages that waited in `p`,
-- and makes `p` a proxy. When those bytes stand on the other's socket, in front of any bytes, as many calls of
-- the handler as there are messages read just these. Then one task is posted, and when it runs, it calls that
-- method of the implementation with those arguments, but a new handle in place of `pipe`; the handle
-- leads to an endpoint with the name that `p` forwards to and with the peer of `p`; and the messages that
-- waited in `p` wait there, each once and in their order.
pub call_moves_pipe :
    (a b : Process) (interface : List Method) (method : Method) (arguments : Arguments method.types)
    (handle pipe : MessagePipe) (sender r target : Ref) (e p q : Endpoint) (fd : Fd) (stubs : Stubs)
    (self impl : ℕ) (rest : Bytes)
    → CallsWithPipe a interface method arguments handle pipe sender r e p fd
    → Serving b e.peer_address.endpoint_name target q (described_by a p) interface stubs self impl
    → let d = described_by a p in
      let waiting = retarget d.cross_node_endpoint_name p.incoming_message_queue in
      let new = b.next_available_handle in
      (m : Message) × (drawn : ℕ) × (task : Dispatch) × (call
          (record { bound = true; local_handle = handle })
          method
          arguments
          a
        ≡ done tt (record a {
          drawn = drawn;
          heap = set a.heap r (moved p d e.peer_address.node_name);
          sent = a.sent ++ on_channel fd (m ∷ waiting);
        }))
      × (reads_frames (length (m ∷ waiting)) (stream (m ∷ waiting) ++ rest) b
          ≡ done rest (
              with_queued_at
                (accepted b target q d (task ∷ []))
                (length b.heap)
                (arriving d)
                (map received waiting)))
      × (run_tasks stubs (task ∷ [])
          ≡ ok (
              record {
                impl = impl;
                method = method;
                arguments = recovered method.types arguments (new ∷ []);
              }
              ∷ []))
      × (find new (accepted b target q d (task ∷ [])).handle_table ≡ some (length b.heap))
unfolding call send_message queue_pipe
call_moves_pipe a b interface method arguments handle pipe sender r target e p q fd stubs self impl
      rest c v =
    let d = described_by a p in
    let name = e.peer_address.endpoint_name in
    let z =
      serialize-Serialized a method arguments handle
        (record {
          ref = sender;
          endpoint = e;
          handled = c.handled;
          there = c.there;
          direct = c.direct;
        })
        (subst (All (Sendable a.heap a.handle_table)) (sym c.one) (
          record {
            ref = r;
            endpoint = p;
            handled = c.carried;
            there = c.there';
            named = c.own_name;
            peer_node = c.peer_node;
            peer_endpoint = c.peer_endpoint;
          },
          tt,
        ))
        c.bits c.known c.small in
    let a' : Process = record a { drawn = z.drawn } in
    let carries : get_endpoint_descriptors z.message ≡ ok ((z.attached.0, d) ∷ []) =
      z.attached.1
      ∙ ap (λ ds. ok (located z.attached.0 ds))
          (Described-one a pipe r p z.described c.one c.carried c.there') in
    let m' = set_target_endpoint z.message name in
    let pipes = b.next_available_handle ∷ [] in
    let (task, posts, serves) =
      accept_message_bound q (queue_pipe (received m') b.next_available_handle) v.valid v.served in
    let (sends, reads, leads) =
      pipe_moves a' b z.message sender r target e p q q d z.attached.0 fd rest (task ∷ [])
        (record {
          there = c.there;
          typed = z.typed;
          carries = carries;
          frame = (omega (arith, z.long), (z.sized, omega (arith, z.long, c.small)));
          named = c.named;
          absent = c.absent;
          channel = c.channel;
          takes = c.takes;
          moves = record {
            found = c.registered;
            there = c.there';
            queueing = c.queueing;
            unserved = c.unserved;
            free = c.free;
          };
          cross = length-random_identifier a.world.draw a.drawn;
          plain = c.plain;
          sendable = c.sendable;
        })
        (record {
          found = v.found;
          there = v.there;
          named = v.named;
          free = v.free;
          room = v.room;
          accepts = posts;
        }) in
    (
      m',
      z.drawn,
      task,
      step _ z.ran (step _ (or_fail-some a' _ c.handled) sends),
      reads,
      run_tasks-one interface v.handle impl self stubs task
          (queue_pipe (received m') b.next_available_handle) _ v.alive
          (sym (some-injective _ _ (sym v.delegate ∙ serves.receiver))) serves.message
          (Serialized-invoked a interface method arguments handle impl name pipes z c.first c.named
            (ap length (sym c.one) ∙ length-handles_of method.types arguments)),
      leads,
    )
