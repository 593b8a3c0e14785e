-- ===== src/Node/Framed.antt =====
-- Sending, in mage/core/node.cc, writes nothing but frames.
pub mod Sized
pub mod Calls
pub mod Handlers
use mage.Base.{
  ℕ, zero, suc, ◌+◌, ◌≤◌, ◌≡◌, ◌<◌, ◌^◌, List, [], ◌∷◌, ◌++◌, Option, some, none, not, length,
  arith, length-append, ◌==◌, bool_eq, All, All-append,
}
use mage.Message.{
  Name, Message, EndpointDescriptor, get_endpoint_descriptors, message_type, set_target_endpoint,
  type_code, user_message, identifier_size,
}
use mage.Map.{find, name_key}
use mage.Endpoint.{Endpoint, state_eq, bound, unbound_and_proxying}
use mage.Process.{Process, Ref}
use mage.Process.Sound.{
  Sound, returned, seq, mono, both, lift_lem, or_fail_lem, require_lem, if_lem,
}
use mage.Process.Laws.{deref_lem}
use mage.Process.Framed.{
  IsSized, HoldsSized, Framed, Framed-refl, Framed-trans, lock-Framed, unlock-Framed,
  proxy_to-Framed, take_queue-Framed, send_on_channel-Framed, set_target_endpoint-IsSized,
}
use mage.Core.{is_none}
use mage.Core.Framed.{accept_on_delegate_thread-Framed}
use mage.Node.Send.{
  retarget, proxy_dependents, unlock_all, send_with_dependents, send_loop, queued, send_messages,
  require_unbound, send_to_local_peer, deliver, node_send_message,
}
use mage.Node.Send.Drain.{channel_of_lem, send_with_dependents-Account}

pub retarget-IsSized :
    (name : Name) (ms : List Message) → All IsSized ms → All IsSized (retarget name ms)
unfolding retarget
retarget-IsSized name [] h = tt
retarget-IsSized name (m ∷ ms) (fits, h) =
    (set_target_endpoint-IsSized m name fits, retarget-IsSized name ms h)

proxy_dependents-Framed :
    (ds : List (ℕ × EndpointDescriptor)) (target : Name) (s : Process)
    → All HoldsSized s.heap
    → Sound (λ (subs, locked) t. All IsSized subs × Framed s t) (proxy_dependents ds target s)
unfolding proxy_dependents
proxy_dependents-Framed [] target s h = returned (tt, Framed-refl s h)
proxy_dependents-Framed ((at, d) ∷ ds) target s h = seq (
    or_fail_lem s (find d.endpoint_name s.local_endpoints) _ λ r found. seq (
      mono (lock-Framed s h r) λ _ t a. seq (
        mono (take_queue-Framed t a.queues r) λ subs u (fits, b). seq (
          mono (proxy_to-Framed u b.queues r _) λ _ v c. seq (
            mono (proxy_dependents-Framed ds target v c.queues) λ (later, locked) w (fits', e).
              returned (
                All-append IsSized (retarget d.cross_node_endpoint_name subs) later
                    (retarget-IsSized d.cross_node_endpoint_name subs fits) fits',
                Framed-trans s t w a (Framed-trans t u w b (Framed-trans u v w c e)),
              ))))))

unlock_all-Framed :
    (rs : List Ref) (s : Process)
    → All HoldsSized s.heap
    → Sound (λ _ t. Framed s t) (unlock_all rs s)
unfolding unlock_all
unlock_all-Framed [] s h = returned (Framed-refl s h)
unlock_all-Framed (r ∷ rs) s h = seq (
    mono (unlock-Framed s h r)
      λ _ t a. mono (unlock_all-Framed rs t a.queues) λ _ u b. Framed-trans s t u a b)

send_with_dependents-Framed :
    (m : Message) (target : Name) (s : Process)
    → All HoldsSized s.heap
    → IsSized m
    → Sound (λ subs t. All IsSized subs × Framed s t) (send_with_dependents m target s)
unfolding send_with_dependents
send_with_dependents-Framed m target s h fits = seq (
    lift_lem s (get_endpoint_descriptors m) λ ds read. seq (
      mono (proxy_dependents-Framed ds target s h) λ (subs, locked) t (fits', a). seq (
        channel_of_lem t target λ fd found. seq (
          mono (send_on_channel-Framed t fd m a.queues fits) λ _ u b. seq (
            mono (unlock_all-Framed locked u b.queues)
              λ _ v c. returned (fits', Framed-trans s t v a (Framed-trans t u v b c)))))))

send_loop-Framed :
    (fuel : ℕ) (ms : List Message) (target : Name) (s : Process)
    → length ms + queued s.heap ≤ fuel
    → All HoldsSized s.heap
    → All IsSized ms
    → Sound (λ _ t. Framed s t) (send_loop fuel ms target s)
unfolding send_loop
send_loop-Framed zero [] target s enough h fits = returned (Framed-refl s h)
send_loop-Framed zero (m ∷ ms) target s enough h fits = absurd (omega arith)
send_loop-Framed (suc fuel) [] target s enough h fits = returned (Framed-refl s h)
send_loop-Framed (suc fuel) (m ∷ ms) target s enough h (fits, rest) = seq (
    mono
      (both (send_with_dependents-Framed m target s h fits)
        (send_with_dependents-Account m target s))
      λ subs t ((fits', a), (sum, waits)).
        mono
          (send_loop-Framed fuel (ms ++ subs) target t (omega (arith, waits, length-append ms subs))
            a.queues (All-append IsSized ms subs rest fits'))
          λ _ u b. Framed-trans s t u a b)

pub send_messages-Framed :
    (ms : List Message) (target : Name) (s : Process)
    → All HoldsSized s.heap
    → All IsSized ms
    → Sound (λ _ t. Framed s t) (send_messages ms target s)
unfolding send_messages
send_messages-Framed ms target s h fits =
    send_loop-Framed (length ms + queued s.heap) ms target s (omega arith) h fits

require_unbound-Framed :
    (ds : List (ℕ × EndpointDescriptor)) (s : Process)
    → All HoldsSized s.heap
    → Sound (λ _ t. Framed s t) (require_unbound ds s)
unfolding require_unbound
require_unbound-Framed [] s h = returned (Framed-refl s h)
require_unbound-Framed ((at, d) ∷ ds) s h = seq (
    or_fail_lem s (find d.endpoint_name s.local_endpoints) _ λ r found. seq (
      mono (lock-Framed s h r) λ _ t a. seq (
        deref_lem t r λ e there. seq (
          require_lem t (not (state_eq e.state bound)) λ _. seq (
            mono (unlock-Framed t a.queues r) λ _ u b.
              mono (require_unbound-Framed ds u b.queues)
                λ _ v c. Framed-trans s t v a (Framed-trans t u v b c))))))

send_to_local_peer-Framed :
    (peer : Ref) (e : Endpoint) (m : Message) (s : Process)
    → All HoldsSized s.heap
    → IsSized m
    → Sound (λ _ t. Framed s t) (send_to_local_peer peer e m s)
unfolding send_to_local_peer
send_to_local_peer-Framed peer e m s h fits =
    if_lem s (state_eq e.state unbound_and_proxying) _ _
      (λ _.
        send_messages-Framed (set_target_endpoint m e.proxy_target.endpoint_name ∷ [])
          e.proxy_target.node_name s h
          (set_target_endpoint-IsSized m e.proxy_target.endpoint_name fits, tt))
      (λ _. accept_on_delegate_thread-Framed s peer m h fits)

deliver-Framed :
    (peer : Option Ref) (node : Name) (m : Message) (s : Process)
    → All HoldsSized s.heap
    → IsSized m
    → Sound (λ _ t. Framed s t) (deliver peer node m s)
unfolding deliver
deliver-Framed none node m s h fits = send_messages-Framed (m ∷ []) node s h (fits, tt)
deliver-Framed (some peer) node m s h fits = seq (
    mono (lock-Framed s h peer) λ _ t a. seq (
      deref_lem t peer λ e there. seq (
        mono (send_to_local_peer-Framed peer e m t a.queues fits) λ _ u b.
          mono (unlock-Framed u b.queues peer)
            λ _ v c. Framed-trans s t v a (Framed-trans t u v b c))))

pub node_send_message-Framed :
    (local_endpoint : Ref) (m : Message) (s : Process)
    → All HoldsSized s.heap
    → IsSized m
    → Sound (λ _ t. Framed s t) (node_send_message local_endpoint m s)
unfolding node_send_message
node_send_message-Framed local_endpoint m s h fits = seq (
    require_lem s (message_type m == type_code user_message) λ _. seq (
      lift_lem s (get_endpoint_descriptors m) λ ds read. seq (
        mono (require_unbound-Framed ds s h) λ _ t a. seq (
          deref_lem t local_endpoint λ e there. seq (
            require_lem t
              (not (
                bool_eq (is_none (find e.peer_address.endpoint_name t.local_endpoints))
                  (is_none (find e.peer_address.node_name t.node_channel_map))))
              λ _. seq (
                require_lem t (length e.peer_address.endpoint_name == identifier_size) λ _.
                  mono
                    (deliver-Framed (find e.peer_address.endpoint_name t.local_endpoints)
                      e.peer_address.node_name (set_target_endpoint m e.peer_address.endpoint_name)
                      t a.queues (set_target_endpoint-IsSized m e.peer_address.endpoint_name fits))
                    λ _ u b. Framed-trans s t u a b))))))
