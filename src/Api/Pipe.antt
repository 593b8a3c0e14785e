-- ===== src/Api/Pipe.antt =====
-- A pipe inside one process, through the entry points of mage/core/api.cc: messages that are sent on one end
-- wait at the other, and reach the receiver that is bound there.
use mathlib.Core.List.{append-nil, append_assoc}
use mage.Base.{
  ◌≡◌, ◌≢◌, refl, ap, sym, ◌∙◌, false, List, [], ◌∷◌, ◌++◌, map, some, none, get_elem?, set, length,
  get_elem?-set_ne, All,
}
use mage.Base.Result.{ok}
use mage.Message.{Message, MessagePipe, set_target_endpoint, get_endpoint_descriptors, message_type}
use mage.Message.Header.{HasHeader}
use mage.Map.{find, name_key, pipe_key}
use mage.Endpoint.{Endpoint, unbound_and_queueing}
use mage.Endpoint.Valid.{IsValid, accept_message_queueing}
use mage.Process.{Process, Ref, done}
use mage.Process.Exact.{step, or_fail-some, set-same, set-set, there-set}
use mage.Node.Send.{retarget}
use mage.Node.Send.Exact.{node_send_message-accept_message}
use mage.Api.{send_message, sends, perform, run}

-- A user message that carries no endpoints.
pub record IsPlain (m : Message) : Type 0 where
  pub whole : HasHeader m
  pub typed : message_type m ≡ 2
  pub alone : get_endpoint_descriptors m ≡ ok []

-- Handle `h` leads to an endpoint whose peer is `e`, at another place of this process, where messages wait.
pub record LeadsTo (t : Process) (h : MessagePipe) (r : Ref) (e : Endpoint) : Type 0 where
  pub sender : Ref
  pub sending : Endpoint
  pub handled : find h t.handle_table ≡ some sender
  pub there : get_elem? t.heap sender ≡ some sending
  pub other : r ≢ sender
  pub target : sending.peer_address.endpoint_name ≡ e.name
  pub named : length e.name ≡ 15
  pub found : find e.name t.local_endpoints ≡ some r
  pub apart : find sending.peer_address.node_name t.node_channel_map ≡ none
  pub peer : get_elem? t.heap r ≡ some e
  pub valid : IsValid e
  pub queueing : e.state ≡ unbound_and_queueing
  pub free : e.lock ≡ false

-- The endpoint with more messages behind its queue.
abbrev pub with_queued : Endpoint → List Message → Endpoint
with_queued e ms = record e { incoming_message_queue = e.incoming_message_queue ++ ms }

abbrev pub with_queued_at : Process → Ref → Endpoint → List Message → Process
with_queued_at t r e ms = record t { heap = set t.heap r (with_queued e ms) }

pub with_queued-IsValid :
    (e : Endpoint) (ms : List Message)
    → IsValid e
    → e.state ≡ unbound_and_queueing
    → IsValid (with_queued e ms)
with_queued-IsValid e ms v q = record { served = v.served; runs = v.runs; queues = λ b. cc }

pub send_message-queues :
    (t : Process) (h : MessagePipe) (r : Ref) (e : Endpoint) (m : Message)
    → LeadsTo t h r e
    → IsPlain m
    → send_message h m t ≡ done tt (with_queued_at t r e (set_target_endpoint m e.name ∷ []))
unfolding send_message
send_message-queues t h r e m l plain =
    let name = l.sending.peer_address.endpoint_name in
    step _ (or_fail-some t _ l.handled) (
      node_send_message-accept_message t m l.sender r l.sending e
        (with_queued e (set_target_endpoint m name ∷ [])) [] l.there plain.whole plain.typed
        plain.alone (ap length l.target ∙ l.named)
        (ap (λ n. find n t.local_endpoints) l.target ∙ l.found) l.apart l.peer l.free
        (accept_message_queueing e (set_target_endpoint m name) l.valid l.queueing)
      ∙ rw (l.target, append-nil t.tasks, l.free) refl)

-- The handle leads on to the endpoint with its longer queue.
pub LeadsTo-queued :
    (t : Process) (h : MessagePipe) (r : Ref) (e : Endpoint) (ms : List Message)
    → LeadsTo t h r e
    → LeadsTo (with_queued_at t r e ms) h r (with_queued e ms)
LeadsTo-queued t h r e ms l = record {
  sender = l.sender;
  sending = l.sending;
  handled = l.handled;
  there = get_elem?-set_ne t.heap r l.sender _ l.other ∙ l.there;
  other = l.other;
  target = l.target;
  named = l.named;
  found = l.found;
  apart = l.apart;
  peer = there-set t.heap r _ l.peer;
  valid = with_queued-IsValid e ms l.valid l.queueing;
  queueing = l.queueing;
  free = l.free;
}

-- Messages that are sent one after the other on a handle that leads to a queueing endpoint wait there, in
-- their order, behind those that waited before, each retargeted to the endpoint; nothing else changes.
pub run-queues :
    (ms : List Message) (t : Process) (h : MessagePipe) (r : Ref) (e : Endpoint)
    → LeadsTo t h r e
    → All IsPlain ms
    → run (map (sends h) ms) t ≡ done tt (with_queued_at t r e (retarget e.name ms))
unfolding run perform retarget
run-queues [] t h r e l plain =
    ap (λ heap. done tt (record t { heap = heap }))
      (sym (set-same t.heap r e l.peer)
        ∙ ap (λ q. set t.heap r (record e { incoming_message_queue = q }))
            (sym (append-nil e.incoming_message_queue)))
run-queues (m ∷ ms) t h r e l (p, plain) =
    let first = set_target_endpoint m e.name ∷ [] in
    step _ (send_message-queues t h r e m l p) (
      run-queues ms (with_queued_at t r e first) h r (with_queued e first)
        (LeadsTo-queued t h r e first l) plain
      ∙ ap (λ heap. done tt (record t { heap = heap }))
          (set-set t.heap r _ _
            ∙ ap (λ q. set t.heap r (record e { incoming_message_queue = q }))
                (append_assoc e.incoming_message_queue first (retarget e.name ms))))
