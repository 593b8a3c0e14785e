-- ===== src/Node/Invariant/Sending.antt =====
-- Sending, in mage/core/node.cc, keeps the tables of a process.
use mage.Base.{
  ℕ, zero, suc, ◌+◌, ◌≤◌, List, [], ◌∷◌, ◌++◌, Option, some, none, not, length, arith,
  length-append, ◌==◌, bool_eq,
}
use mage.Message.{
  Name, Message, EndpointDescriptor, get_endpoint_descriptors, message_type, set_target_endpoint,
  type_code, user_message, identifier_size,
}
use mage.Map.{find, name_key}
use mage.Endpoint.{Endpoint, state_eq, bound, unbound_and_proxying}
use mage.Process.{Process, Ref}
use mage.Process.Sound.{
  Sound, returned, seq, mono, both, lift_lem, or_fail_lem, require_lem, if_lem,
}
use mage.Process.Laws.{deref_lem}
use mage.Process.Invariant.{Inv, After, After-refl, After-trans}
use mage.Channel.Write.{send_on_channel_lem}
use mage.Core.{is_none}
use mage.Core.Invariant.{accept_on_delegate_thread-After}
use mage.Node.Send.{
  proxy_dependents, unlock_all, send_with_dependents, send_loop, queued, send_messages,
  require_unbound, send_to_local_peer, deliver, node_send_message,
}
use mage.Node.Send.Drain.{channel_of_lem, send_with_dependents-Account}
use mage.Node.Invariant.{lock-After, unlock-After, proxy_to-After, take_queue-After}

proxy_dependents-After :
    (ds : List (ℕ × EndpointDescriptor)) (target : Name) (s : Process)
    → Inv s
    → Sound (λ _ t. After s t) (proxy_dependents ds target s)
unfolding proxy_dependents
proxy_dependents-After [] target s i = returned (After-refl s i)
proxy_dependents-After ((at, d) ∷ ds) target s i = seq (
    or_fail_lem s (find d.endpoint_name s.local_endpoints) _ λ r found. seq (
      mono (lock-After s i r) λ _ t a. seq (
        mono (take_queue-After t a.0 r) λ subs u b. seq (
          mono (proxy_to-After u b.0 r _) λ _ v c. seq (
            mono (proxy_dependents-After ds target v c.0) λ _ w e.
              returned (After-trans s t w a (After-trans t u w b (After-trans u v w c e))))))))

unlock_all-After :
    (rs : List Ref) (s : Process) → Inv s → Sound (λ _ t. After s t) (unlock_all rs s)
unfolding unlock_all
unlock_all-After [] s i = returned (After-refl s i)
unlock_all-After (r ∷ rs) s i = seq (
    mono (unlock-After s i r)
      λ _ t a. mono (unlock_all-After rs t a.0) λ _ u b. After-trans s t u a b)

send_with_dependents-After :
    (m : Message) (target : Name) (s : Process)
    → Inv s
    → Sound (λ _ t. After s t) (send_with_dependents m target s)
unfolding send_with_dependents
send_with_dependents-After m target s i = seq (
    lift_lem s (get_endpoint_descriptors m) λ ds read. seq (
      mono (proxy_dependents-After ds target s i) λ (subs, locked) t a. seq (
        channel_of_lem t target λ fd found. seq (
          send_on_channel_lem t fd m (
            seq
              (mono (unlock_all-After locked _ a.0) λ _ u b. returned (After-trans s t u a b)))))))

send_loop-After :
    (fuel : ℕ) (ms : List Message) (target : Name) (s : Process)
    → length ms + queued s.heap ≤ fuel
    → Inv s
    → Sound (λ _ t. After s t) (send_loop fuel ms target s)
unfolding send_loop
send_loop-After zero [] target s enough i = returned (After-refl s i)
send_loop-After zero (m ∷ ms) target s enough i = absurd (omega arith)
send_loop-After (suc fuel) [] target s enough i = returned (After-refl s i)
send_loop-After (suc fuel) (m ∷ ms) target s enough i = seq (
    mono (both (send_with_dependents-After m target s i) (send_with_dependents-Account m target s))
      λ subs t (a, (sum, waits)).
        mono
          (send_loop-After fuel (ms ++ subs) target t (omega (arith, waits, length-append ms subs))
            a.0)
          λ _ u b. After-trans s t u a b)

pub send_messages-After :
    (ms : List Message) (target : Name) (s : Process)
    → Inv s
    → Sound (λ _ t. After s t) (send_messages ms target s)
unfolding send_messages
send_messages-After ms target s i =
    send_loop-After (length ms + queued s.heap) ms target s (omega arith) i

require_unbound-After :
    (ds : List (ℕ × EndpointDescriptor)) (s : Process)
    → Inv s
    → Sound (λ _ t. After s t) (require_unbound ds s)
unfolding require_unbound
require_unbound-After [] s i = returned (After-refl s i)
require_unbound-After ((at, d) ∷ ds) s i = seq (
    or_fail_lem s (find d.endpoint_name s.local_endpoints) _ λ r found. seq (
      mono (lock-After s i r) λ _ t a. seq (
        deref_lem t r λ e there. seq (
          require_lem t (not (state_eq e.state bound)) λ _. seq (
            mono (unlock-After t a.0 r) λ _ u b.
              mono (require_unbound-After ds u b.0)
                λ _ v c. After-trans s t v a (After-trans t u v b c))))))

send_to_local_peer-After :
    (peer : Ref) (e : Endpoint) (m : Message) (s : Process)
    → Inv s
    → Sound (λ _ t. After s t) (send_to_local_peer peer e m s)
unfolding send_to_local_peer
send_to_local_peer-After peer e m s i =
    if_lem s (state_eq e.state unbound_and_proxying) _ _
      (λ _.
        send_messages-After (set_target_endpoint m e.proxy_target.endpoint_name ∷ [])
          e.proxy_target.node_name s i)
      (λ _. accept_on_delegate_thread-After s peer m i)

deliver-After :
    (peer : Option Ref) (node : Name) (m : Message) (s : Process)
    → Inv s
    → Sound (λ _ t. After s t) (deliver peer node m s)
unfolding deliver
deliver-After none node m s i = send_messages-After (m ∷ []) node s i
deliver-After (some peer) node m s i = seq (
    mono (lock-After s i peer) λ _ t a. seq (
      deref_lem t peer λ e there. seq (
        mono (send_to_local_peer-After peer e m t a.0) λ _ u b.
          mono (unlock-After u b.0 peer) λ _ v c. After-trans s t v a (After-trans t u v b c))))

pub node_send_message-After :
    (local_endpoint : Ref) (m : Message) (s : Process)
    → Inv s
    → Sound (λ _ t. After s t) (node_send_message local_endpoint m s)
unfolding node_send_message
node_send_message-After local_endpoint m s i = seq (
    require_lem s (message_type m == type_code user_message) λ _. seq (
      lift_lem s (get_endpoint_descriptors m) λ ds read. seq (
        mono (require_unbound-After ds s i) λ _ t a. seq (
          deref_lem t local_endpoint λ e there. seq (
            require_lem t
              (not (
                bool_eq (is_none (find e.peer_address.endpoint_name t.local_endpoints))
                  (is_none (find e.peer_address.node_name t.node_channel_map))))
              λ _. seq (
                require_lem t (length e.peer_address.endpoint_name == identifier_size) λ _.
                  mono
                    (deliver-After (find e.peer_address.endpoint_name t.local_endpoints)
                      e.peer_address.node_name (set_target_endpoint m e.peer_address.endpoint_name)
                      t a.0)
                    λ _ u b. After-trans s t u a b))))))
