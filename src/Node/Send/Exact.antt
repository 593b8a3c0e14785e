-- ===== src/Node/Send/Exact.antt =====
-- What `SendMessage` of mage/core/node.cc makes of a message that carries no endpoints: its peer here
-- accepts it, or its bytes leave on the channel of the peer's node.

use mage.Base.{
  ◌+◌, ℕ, suc, zero, ◌≡◌, refl, ap, ◌∙◌, Bool, true, false, not, List, [], ◌∷◌, ◌++◌, map, some,
  none, arith, get_elem?, set, length, ◌==◌, ==_iff, bool_eq,
}
use mage.Base.Result.{ok}
use mage.Message.{Name, Message, set_target_endpoint, get_endpoint_descriptors, message_type}
use mage.Message.Header.{HasHeader, set_target_endpoint_lem}
use mage.Map.{find, name_key}
use mage.Endpoint.{Endpoint, Dispatch, unbound_and_proxying, state_eq, accept_message}
use mage.Endpoint.Locked.{accept_message-not_proxying, accept_message-lock}
use mage.Process.{Process, Ref, Fd, done, dispatch}
use mage.Process.Laws.{with_endpoint}
use mage.Process.Exact.{
  step, require-true, or_fail-some, lift-ok, set-set, there-set, deref-there, call_method-there,
  lock-there, unlock-there,
}
use mage.Channel.Write.{Writes, send_on_channel-Writes}
use mage.Core.{accept_message_on_delegate_thread, is_none}
use mage.Node.{channel_of}
use mage.Node.Send.{
  send_with_dependents, send_loop, send_messages, send_to_local_peer, deliver, node_send_message,
  queued,
}

-- A message without endpoints leaves alone.
pub send_with_dependents-alone :
    (s : Process) (m : Message) (node : Name) (fd : Fd)
    → get_endpoint_descriptors m ≡ ok []
    → find node s.node_channel_map ≡ some fd
    → Writes s fd m
    → send_with_dependents m node s
      ≡ done [] (record s { sent = s.sent ++ (fd, m.payload_buffer) ∷ [] })
unfolding send_with_dependents channel_of
send_with_dependents-alone s m node fd alone found writes =
    step _ (lift-ok s alone)
      (step _ (or_fail-some s _ found) (step _ (send_on_channel-Writes s fd m writes) refl))

send_loop-alone :
    (fuel : ℕ) (s : Process) (m : Message) (node : Name) (fd : Fd)
    → get_endpoint_descriptors m ≡ ok []
    → find node s.node_channel_map ≡ some fd
    → Writes s fd m
    → send_loop (suc fuel) (m ∷ []) node s
      ≡ done tt (record s { sent = s.sent ++ (fd, m.payload_buffer) ∷ [] })
unfolding send_loop
send_loop-alone zero s m node fd alone found writes =
    step _ (send_with_dependents-alone s m node fd alone found writes) refl
send_loop-alone (suc fuel) s m node fd alone found writes =
    step _ (send_with_dependents-alone s m node fd alone found writes) refl

pub send_messages-alone :
    (s : Process) (m : Message) (node : Name) (fd : Fd)
    → get_endpoint_descriptors m ≡ ok []
    → find node s.node_channel_map ≡ some fd
    → Writes s fd m
    → send_messages (m ∷ []) node s
      ≡ done tt (record s { sent = s.sent ++ (fd, m.payload_buffer) ∷ [] })
unfolding send_messages
send_messages-alone s m node fd alone found writes =
    ap (λ fuel. send_loop fuel (m ∷ []) node s) first
    ∙ send_loop-alone (queued s.heap) s m node fd alone found writes
  where
    first : 1 + queued s.heap ≡ suc (queued s.heap)
    first = omega arith

accept_on_delegate_thread-alone :
    (s : Process) (m : Message) (r : Ref) (p p' : Endpoint) (ds : List Dispatch)
    → get_elem? s.heap r ≡ some (record p { lock = true })
    → get_endpoint_descriptors m ≡ ok []
    → accept_message p m ≡ ok (p', ds)
    → accept_message_on_delegate_thread r m s
      ≡ done tt (record s {
        heap = set s.heap r (record p' { lock = true });
        tasks = s.tasks ++ map dispatch ds;
      })
unfolding accept_message_on_delegate_thread
accept_on_delegate_thread-alone s m r p p' ds there alone accepts = step _ (deref-there s r there) (
    step _
      (require-true s (not (state_eq p.state unbound_and_proxying))
        (ap not (accept_message-not_proxying p p' m ds accepts)))
      (step _ (lift-ok s alone)
        (call_method-there s r there _ (accept_message-lock p p' m ds accepts))))

send-accept :
    (s : Process) (m : Message) (r : Ref) (p p' : Endpoint) (ds : List Dispatch)
    → get_elem? s.heap r ≡ some (record p { lock = true })
    → get_endpoint_descriptors m ≡ ok []
    → accept_message p m ≡ ok (p', ds)
    → send_to_local_peer r (record p { lock = true }) m s
      ≡ done tt (record s {
        heap = set s.heap r (record p' { lock = true });
        tasks = s.tasks ++ map dispatch ds;
      })
unfolding send_to_local_peer
send-accept s m r p p' ds there alone accepts =
    rw (accept_message-not_proxying p p' m ds accepts)
      (accept_on_delegate_thread-alone s m r p p' ds there alone accepts)

deliver-local :
    (s : Process) (m : Message) (node : Name) (r : Ref) (p p' : Endpoint) (ds : List Dispatch)
    → get_elem? s.heap r ≡ some p
    → p.lock ≡ false
    → get_endpoint_descriptors m ≡ ok []
    → accept_message p m ≡ ok (p', ds)
    → deliver (some r) node m s
      ≡ done tt (record s {
        heap = set s.heap r (record p' { lock = false });
        tasks = s.tasks ++ map dispatch ds;
      })
unfolding deliver send_to_local_peer
deliver-local s m node r p p' ds there free alone accepts =
    let locked : Endpoint = record p { lock = true } in
    let s₁ : Process = with_endpoint s r locked in
    let there₁ = there-set s.heap r locked there in
    let s₂ : Process = record s {
      heap = set (set s.heap r locked) r (record p' { lock = true });
      tasks = s.tasks ++ map dispatch ds;
    } in
    let there₂ = there-set s₁.heap r (record p' { lock = true }) there₁ in
    step _ (lock-there s r there free) (
      step _ (deref-there s₁ r there₁) (
        step _ (send-accept s₁ m r p p' ds there₁ alone accepts) (
          unlock-there s₂ r there₂
          ∙ ap (λ h. done tt (record s { heap = h; tasks = s.tasks ++ map dispatch ds }))
              (set-set (set s.heap r locked) r _ _ ∙ set-set s.heap r locked _))))

deliver-remote :
    (s : Process) (m : Message) (node : Name) (fd : Fd)
    → get_endpoint_descriptors m ≡ ok []
    → find node s.node_channel_map ≡ some fd
    → Writes s fd m
    → deliver none node m s ≡ done tt (record s { sent = s.sent ++ (fd, m.payload_buffer) ∷ [] })
unfolding deliver
deliver-remote s m node fd alone found writes = send_messages-alone s m node fd alone found writes

-- The steps of `SendMessage` in front of the delivery, for a message without endpoints.
node_send_message-deliver :
    (s : Process) (m : Message) (r : Ref) (e : Endpoint)
    → get_elem? s.heap r ≡ some e
    → message_type m ≡ 2
    → get_endpoint_descriptors m ≡ ok []
    → bool_eq
        (is_none (find e.peer_address.endpoint_name s.local_endpoints))
        (is_none (find e.peer_address.node_name s.node_channel_map))
      ≡ false
    → length e.peer_address.endpoint_name ≡ 15
    → node_send_message r m s
      ≡ deliver
          (find e.peer_address.endpoint_name s.local_endpoints)
          e.peer_address.node_name
          (set_target_endpoint m e.peer_address.endpoint_name)
          s
unfolding node_send_message
node_send_message-deliver s m r e there typed alone one named =
    let unique : Bool = not (
      bool_eq (is_none (find e.peer_address.endpoint_name s.local_endpoints))
        (is_none (find e.peer_address.node_name s.node_channel_map))) in
    step _ (require-true s (message_type m == 2) ((==_iff _ _).1 typed)) (
      step _ (lift-ok s alone) (
        step _ (deref-there s r there) (
          step _ (require-true s unique (ap not one)) (
            step _
              (require-true s (length e.peer_address.endpoint_name == 15) ((==_iff _ _).1 named))
              refl))))

-- A user message that holds a header and carries no endpoints, whose sender's peer is registered in this
-- node and not behind a channel, and is not locked: if the peer accepts it, as `Endpoint::AcceptMessage`
-- has it, retargeted to the peer's name of 15 bytes, then `SendMessage` does just that, releases the
-- peer's lock and posts what the peer posts.
pub node_send_message-accept_message :
    (s : Process) (m : Message) (sender r : Ref) (e p p' : Endpoint) (ds : List Dispatch)
    → get_elem? s.heap sender ≡ some e
    → HasHeader m
    → message_type m ≡ 2
    → get_endpoint_descriptors m ≡ ok []
    → length e.peer_address.endpoint_name ≡ 15
    → find e.peer_address.endpoint_name s.local_endpoints ≡ some r
    → find e.peer_address.node_name s.node_channel_map ≡ none
    → get_elem? s.heap r ≡ some p
    → p.lock ≡ false
    → accept_message p (set_target_endpoint m e.peer_address.endpoint_name) ≡ ok (p', ds)
    → node_send_message sender m s
      ≡ done tt (record s {
        heap = set s.heap r (record p' { lock = false });
        tasks = s.tasks ++ map dispatch ds;
      })
node_send_message-accept_message s m sender r e p p' ds there whole typed alone named found apart
      peer free accepts =
    let name = e.peer_address.endpoint_name in
    let (_, _, _, _, _, _, same) = set_target_endpoint_lem m name whole named in
    node_send_message-deliver s m sender e there typed alone (rw (found, apart) refl) named
    ∙ ap (λ o. deliver o e.peer_address.node_name (set_target_endpoint m name) s) found
    ∙ deliver-local s (set_target_endpoint m name) e.peer_address.node_name r p p' ds peer free
        (same ∙ alone) accepts

-- A user message that holds a header and carries no endpoints, whose sender's peer is not registered in
-- this node but behind the channel of the peer's node: its bytes, retargeted to the peer's name of 15
-- bytes, are written to that channel, and nothing else changes. The message says its size, which is below
-- 2 ^ 31, and the socket takes it whole.
pub node_send_message-sent :
    (s : Process) (m : Message) (sender : Ref) (e : Endpoint) (fd : Fd)
    → get_elem? s.heap sender ≡ some e
    → HasHeader m
    → message_type m ≡ 2
    → get_endpoint_descriptors m ≡ ok []
    → length e.peer_address.endpoint_name ≡ 15
    → find e.peer_address.endpoint_name s.local_endpoints ≡ none
    → find e.peer_address.node_name s.node_channel_map ≡ some fd
    → Writes s fd (set_target_endpoint m e.peer_address.endpoint_name)
    → node_send_message sender m s
      ≡ done tt (record s {
        sent =
            s.sent
            ++ (fd, (set_target_endpoint m e.peer_address.endpoint_name).payload_buffer) ∷ [];
      })
node_send_message-sent s m sender e fd there whole typed alone named absent found writes =
    let name = e.peer_address.endpoint_name in
    let (_, _, _, _, _, _, same) = set_target_endpoint_lem m name whole named in
    node_send_message-deliver s m sender e there typed alone (rw (absent, found) refl) named
    ∙ ap (λ o. deliver o e.peer_address.node_name (set_target_endpoint m name) s) absent
    ∙ deliver-remote s (set_target_endpoint m name) e.peer_address.node_name fd (same ∙ alone) found
        writes
