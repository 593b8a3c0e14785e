-- ===== src/Node/Send/Move.antt =====
-- `SendMessage` of mage/core/node.cc with a message that carries an endpoint to another process: the
-- endpoint becomes a proxy, and the messages that waited in it follow the carrier.
use mathlib.Core.List.{append-nil, append_assoc}
use mage.Base.{
  ℕ, suc, ◌+◌, ◌≤◌, ◌<◌, ◌^◌, ◌≡◌, refl, sym, ap, ◌∙◌, Bool, true, false, not, [], ◌∷◌, ◌++◌, some,
  none, arith, get_elem?, set, length, All, bool_eq, ◌==◌, ==_iff,
}
use mage.Base.Result.{ok}
use mage.Message.{
  Name, Message, EndpointDescriptor, message_type, size, set_target_endpoint,
  get_endpoint_descriptors,
}
use mage.Message.Header.{HasHeader, set_target_endpoint_lem}
use mage.Map.{find, name_key}
use mage.Endpoint.{
  Endpoint, unbound_and_queueing, unbound_and_proxying, bound, state_eq, is_assigned, set_proxying,
  take_queued_messages,
}
use mage.Process.{Process, Ref, Fd, done}
use mage.Process.Laws.{with_endpoint}
use mage.Process.Heap.{take_queue, proxy_to, store}
use mage.Process.Exact.{
  step, or_fail-some, require-true, lift-ok, set-set, set-same, there-set, deref-there,
  update-there, lock-there, unlock-there,
}
use mage.Channel.Write.{Writes, send_on_channel-Writes}
use mage.Core.{is_none}
use mage.Node.{channel_of}
use mage.Node.Send.{
  retarget, proxy_dependents, unlock_all, send_with_dependents, send_loop, send_messages, queued,
  require_unbound, deliver, node_send_message,
}
use mage.Node.Send.Drain.{queued-set, length-retarget}
use mage.Node.Send.All.{IsSendable, retarget-IsSendable, TakesAll, on_channel, send_loop-all}

-- The descriptor is that of the endpoint `p` at `r`, which queues, and which nobody uses now.
pub record Moves (s : Process) (d : EndpointDescriptor) (r : Ref) (p : Endpoint) : Type 0 where
  pub found : find d.endpoint_name s.local_endpoints ≡ some r
  pub there : get_elem? s.heap r ≡ some p
  pub queueing : p.state ≡ unbound_and_queueing
  pub unserved : is_assigned p.delegate ≡ false
  pub free : p.lock ≡ false

-- The endpoint after it moved to another node.
abbrev pub moved : Endpoint → EndpointDescriptor → Name → Endpoint
moved p d node = record p {
  state = unbound_and_proxying;
  proxy_target = record { node_name = node; endpoint_name = d.cross_node_endpoint_name };
  incoming_message_queue = [];
  lock = false;
}

take_queue-there :
    (s : Process) (r : Ref) (p : Endpoint)
    → get_elem? s.heap r ≡ some p
    → is_assigned p.delegate ≡ false
    → take_queue r s
      ≡ done p.incoming_message_queue (with_endpoint s r (record p { incoming_message_queue = [] }))
unfolding take_queue store take_queued_messages
take_queue-there s r p there unserved = step _ (deref-there s r there) (rw unserved refl)

module _ (s : Process) (d : EndpointDescriptor) (r : Ref) (p : Endpoint) (mv : Moves s d r p)
    (node : Name) where
  s₁ : Process
  s₁ = with_endpoint s r (record p { lock = true })

  s₂ : Process
  unfolding s₁
  s₂ = with_endpoint s₁ r (record p { lock = true; incoming_message_queue = [] })

  s₃ : Process
  unfolding s₂
  s₃ = with_endpoint s₂ r (record (moved p d node) { lock = true })

  there₁ : get_elem? s₁.heap r ≡ some (record p { lock = true })
  unfolding s₁
  there₁ = there-set s.heap r _ mv.there

  there₂ : get_elem? s₂.heap r ≡ some (record p { lock = true; incoming_message_queue = [] })
  unfolding s₂
  there₂ = there-set s₁.heap r _ there₁

  there₃ : get_elem? s₃.heap r ≡ some (record (moved p d node) { lock = true })
  unfolding s₃
  there₃ = there-set s₂.heap r _ there₂

  proxies : proxy_to r (moved p d node).proxy_target s₂ ≡ done tt s₃
  unfolding proxy_to set_proxying s₃
  proxies = update-there s₂ r there₂ _ (rw (mv.queueing) refl)

  proxy_dependents-one :
      (at : ℕ)
      → proxy_dependents ((at, d) ∷ []) node s
        ≡ done (retarget d.cross_node_endpoint_name p.incoming_message_queue, r ∷ []) s₃
  unfolding proxy_dependents s₁ s₂
  proxy_dependents-one at = step _ (or_fail-some s _ mv.found) (
      step _ (lock-there s r mv.there mv.free) (
        step _ (take_queue-there s₁ r (record p { lock = true }) there₁ mv.unserved)
          (step _ proxies (ap (λ subs. done (subs, r ∷ []) s₃) (append-nil _)))))

  module _ (fd : Fd) (m : Message) (channel : find node s.node_channel_map ≡ some fd)
      (w : Writes s fd m) where
    with_carrier : Process
    with_carrier = record s {
      heap = set s.heap r (moved p d node);
      sent = s.sent ++ (fd, m.payload_buffer) ∷ [];
    }

    send_with_dependents-one :
        (at : ℕ)
        → get_endpoint_descriptors m ≡ ok ((at, d) ∷ [])
        → send_with_dependents m node s
          ≡ done (retarget d.cross_node_endpoint_name p.incoming_message_queue) with_carrier
    unfolding send_with_dependents channel_of unlock_all s₁ s₂ s₃ with_carrier
    send_with_dependents-one at carries =
        let s₄ : Process = record s₃ { sent = s.sent ++ (fd, m.payload_buffer) ∷ [] } in
        step _ (lift-ok s carries) (
          step _ (proxy_dependents-one at) (
            step _ (or_fail-some s₃ _ channel) (
              step _
                (send_on_channel-Writes s₃ fd m
                  (record { sized = w.sized; small = w.small; whole = w.whole }))
                (step _ (step _ (unlock-there s₄ r there₃) refl) (
                  ap
                    (λ h.
                      done (retarget d.cross_node_endpoint_name p.incoming_message_queue)
                        (record s { heap = h; sent = s.sent ++ (fd, m.payload_buffer) ∷ [] }))
                    (set-set s₂.heap r _ _ ∙ set-set s₁.heap r _ _ ∙ set-set s.heap r _ _))))))

    -- The carrier, then the messages that waited.
    send_messages-one :
        (at : ℕ)
        → get_endpoint_descriptors m ≡ ok ((at, d) ∷ [])
        → All IsSendable p.incoming_message_queue
        → length d.cross_node_endpoint_name ≡ 15
        → TakesAll s fd
        → send_messages (m ∷ []) node s
          ≡ done tt (record s {
            heap = set s.heap r (moved p d node);
            sent =
                s.sent
                ++ on_channel fd (m ∷ retarget d.cross_node_endpoint_name p.incoming_message_queue);
          })
    unfolding send_messages send_loop with_carrier
    send_messages-one at carries sendable named takes =
        let subs = retarget d.cross_node_endpoint_name p.incoming_message_queue in
        let enough : length subs ≤ queued s.heap = omega (
          arith,
          length-retarget d.cross_node_endpoint_name p.incoming_message_queue,
          queued-set s.heap r p (moved p d node) mv.there,
        ) in
        ap (λ fuel. send_loop fuel (m ∷ []) node s) (one_more (queued s.heap))
        ∙ step _ (send_with_dependents-one at carries) (
            send_loop-all (queued s.heap) subs with_carrier node fd enough
              (retarget-IsSendable d.cross_node_endpoint_name p.incoming_message_queue named
                sendable)
              channel takes
            ∙ ap (λ l. done tt (record s { heap = set s.heap r (moved p d node); sent = l }))
                (append_assoc s.sent ((fd, m.payload_buffer) ∷ []) (on_channel fd subs)))
      where
        one_more : (n : ℕ) → 1 + n ≡ suc n
        one_more n = omega arith

  -- No endpoint that moves is bound, and looking at it leaves it as it is.
  require_unbound-one : (at : ℕ) → require_unbound ((at, d) ∷ []) s ≡ done tt s
  unfolding require_unbound s₁
  require_unbound-one at = step _ (or_fail-some s _ mv.found) (
      step _ (lock-there s r mv.there mv.free) (
        step _ (deref-there s₁ r there₁) (
          step _
            (require-true s₁ (not (state_eq p.state bound))
              (ap (λ st. not (state_eq st bound)) mv.queueing))
            (step _ (unlock-there s₁ r there₁) (
              ap (λ h. done tt (record s { heap = h }))
                (set-set s.heap r _ _
                  ∙ ap (λ l. set s.heap r (record p { lock = l })) (sym mv.free)
                  ∙ set-same s.heap r p mv.there))))))

-- A user message that carries one endpoint `p`, which queues, serves nobody and is not locked, is sent to a
-- peer of another process, whose name of 15 bytes is not registered here and whose node has a channel with a
-- socket that takes every buffer whole. The message says its size, and so do the messages that wait in `p`,
-- which carry no endpoints; the name that `p` gets over there has 15 bytes. Then the bytes of the carrier,
-- retargeted to the peer, are written to the channel, and behind them those of the messages that waited in
-- `p`, each once and in their order, retargeted to its new name; `p` is then a proxy for that name in the
-- peer's node, with an empty queue and not locked; and nothing else changes.
pub node_send_message-moved :
    (s : Process) (m : Message) (sender r : Ref) (e p : Endpoint) (d : EndpointDescriptor) (at : ℕ)
    (fd : Fd)
    → get_elem? s.heap sender ≡ some e
    → HasHeader m
    → message_type m ≡ 2
    → get_endpoint_descriptors m ≡ ok ((at, d) ∷ [])
    → size m ≡ length m.payload_buffer
    → length m.payload_buffer < 2 ^ 31
    → length e.peer_address.endpoint_name ≡ 15
    → find e.peer_address.endpoint_name s.local_endpoints ≡ none
    → find e.peer_address.node_name s.node_channel_map ≡ some fd
    → TakesAll s fd
    → Moves s d r p
    → length d.cross_node_endpoint_name ≡ 15
    → All IsSendable p.incoming_message_queue
    → node_send_message sender m s
      ≡ done tt (record s {
        heap = set s.heap r (moved p d e.peer_address.node_name);
        sent =
            s.sent
            ++ on_channel fd (
                set_target_endpoint m e.peer_address.endpoint_name
                ∷ retarget d.cross_node_endpoint_name p.incoming_message_queue);
      })
unfolding node_send_message deliver
node_send_message-moved s m sender r e p d at fd there whole typed carries sized small named absent
      channel takes mv cross sendable =
    let name = e.peer_address.endpoint_name in
    let node = e.peer_address.node_name in
    let (_, says, _, _, long, _, carried) = set_target_endpoint_lem m name whole named in
    let m' = set_target_endpoint m name in
    let unique : Bool =
      not (
        bool_eq (is_none (find name s.local_endpoints)) (is_none (find node s.node_channel_map))) in
    step _ (require-true s (message_type m == 2) ((==_iff _ _).1 typed)) (
      step _ (lift-ok s carries) (
        step _ (require_unbound-one s d r p mv node at) (
          step _ (deref-there s sender there) (
            step _ (require-true s unique (rw (absent, channel) refl)) (
              step _ (require-true s (length name == 15) ((==_iff _ _).1 named)) (
                ap (λ o. deliver o node m' s) absent
                ∙ send_messages-one s d r p mv node fd m' channel
                    (record {
                      sized = says ∙ sized ∙ sym long;
                      small = omega (arith, long);
                      whole = takes s.sent m'.payload_buffer;
                    })
                    at (carried ∙ carries) sendable cross takes))))))
