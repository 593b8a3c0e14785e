-- ===== src/Node/Locks.antt =====
-- Sending, in mage/core/node.cc, releases every mutex of an endpoint that it acquires.
pub mod Handlers
use mage.Base.{
  ℕ, zero, suc, ◌+◌, ◌≤◌, ◌≡◌, refl, sym, ap, ◌∙◌, Bool, true, false, List, [], ◌∷◌, ◌++◌, Option,
  some, none, not, length, arith, length-append, ◌==◌, bool_eq, set, get_elem?,
}
use mage.Message.{
  Name, Message, EndpointDescriptor, get_endpoint_descriptors, message_type, set_target_endpoint,
  type_code, user_message, identifier_size,
}
use mage.Map.{find, name_key}
use mage.Endpoint.{Endpoint, state_eq, bound, unbound_and_proxying}
use mage.Process.{Process, Ref}
use mage.Process.Sound.{
  Sound, returned, seq, mono, both, lift_lem, or_fail_lem, require_lem, if_lem,
}
use mage.Process.Laws.{deref_lem, lock_lem, unlock_lem, proxy_to_lem, take_queue_lem}
use mage.Process.Heap.{take_queue, proxy_to}
use mage.Process.Exact.{set-set, set-same}
use mage.Process.Locks.{
  locks, Balanced, Balanced-refl, Balanced-same, Balanced-trans, locks-set, locks-kept, lock_at,
  release,
}
use mage.Channel.Write.{send_on_channel_lem}
use mage.Core.{is_none}
use mage.Core.Locks.{accept_on_delegate_thread-Balanced}
use mage.Node.Send.{
  proxy_dependents, unlock_all, send_with_dependents, send_loop, queued, send_messages,
  require_unbound, send_to_local_peer, deliver, node_send_message,
}
use mage.Node.Send.Drain.{channel_of_lem, send_with_dependents-Account}

pub proxy_to-locks :
    (s : Process) (r : Ref) (target : _)
    → Sound (λ _ t. locks t.heap ≡ locks s.heap) (proxy_to r target s)
proxy_to-locks s r target =
    proxy_to_lem s r target λ e there queueing. locks-kept s.heap r e _ there refl

pub take_queue-locks :
    (s : Process) (r : Ref) → Sound (λ _ t. locks t.heap ≡ locks s.heap) (take_queue r s)
take_queue-locks s r = take_queue_lem s r λ e there. locks-kept s.heap r e _ there refl

-- The flags after some endpoints are unlocked.
unset : List Ref → List Bool → List Bool
unset [] flags = flags
unset (r ∷ rs) flags = unset rs (set flags r false)

set_comm :
    (flags : List Bool) (i j : ℕ) (b : Bool) → set (set flags i b) j b ≡ set (set flags j b) i b
set_comm [] i j b = refl
set_comm (x ∷ flags) zero zero b = refl
set_comm (x ∷ flags) zero (suc j) b = refl
set_comm (x ∷ flags) (suc i) zero b = refl
set_comm (x ∷ flags) (suc i) (suc j) b = ap (◌∷◌ x) (set_comm flags i j b)

unset-set :
    (rs : List Ref) (flags : List Bool) (r : Ref)
    → unset rs (set flags r false) ≡ set (unset rs flags) r false
unfolding unset
unset-set [] flags r = refl
unset-set (q ∷ rs) flags r =
    ap (unset rs) (set_comm flags r q false) ∙ unset-set rs (set flags q false) r

-- The endpoints that the result names are locked, and unlocking them leaves the locks as they were.
proxy_dependents-locks :
    (ds : List (ℕ × EndpointDescriptor)) (target : Name) (s : Process)
    → Sound
        (λ (subs, locked) t. unset locked (locks t.heap) ≡ locks s.heap)
        (proxy_dependents ds target s)
unfolding proxy_dependents unset
proxy_dependents-locks [] target s = returned refl
proxy_dependents-locks ((at, d) ∷ ds) target s = seq (
    or_fail_lem s (find d.endpoint_name s.local_endpoints) _ λ r found. seq (
      lock_lem s r λ e there free. seq (
        mono (take_queue-locks _ r) λ subs u took. seq (
          mono (proxy_to-locks u r _) λ _ v proxies. seq (
            mono (proxy_dependents-locks ds target v) λ (later, locked) w rest. returned (
              unset-set locked (locks w.heap) r
              ∙ ap (λ l. set l r false) (rest ∙ proxies ∙ took ∙ locks-set s.heap r _)
              ∙ set-set (locks s.heap) r true false
              ∙ set-same (locks s.heap) r false (lock_at s.heap r e there ∙ ap some free)))))))

unlock_all-locks :
    (rs : List Ref) (s : Process)
    → Sound (λ _ t. locks t.heap ≡ unset rs (locks s.heap)) (unlock_all rs s)
unfolding unlock_all unset
unlock_all-locks [] s = returned refl
unlock_all-locks (r ∷ rs) s = seq (
    unlock_lem s r λ e there.
      mono (unlock_all-locks rs _)
        λ _ t same. same ∙ ap (unset rs) (locks-set s.heap r (record e { lock = false })))

send_with_dependents-locks :
    (m : Message) (target : Name) (s : Process)
    → Sound (λ _ t. locks t.heap ≡ locks s.heap) (send_with_dependents m target s)
unfolding send_with_dependents
send_with_dependents-locks m target s = seq (
    lift_lem s (get_endpoint_descriptors m) λ ds read. seq (
      mono (proxy_dependents-locks ds target s) λ (subs, locked) t held. seq (
        channel_of_lem t target λ fd found. seq (
          send_on_channel_lem t fd m
            (seq (mono (unlock_all-locks locked _) λ _ u opened. returned (opened ∙ held)))))))

send_loop-locks :
    (fuel : ℕ) (ms : List Message) (target : Name) (s : Process)
    → length ms + queued s.heap ≤ fuel
    → Sound (λ _ t. locks t.heap ≡ locks s.heap) (send_loop fuel ms target s)
unfolding send_loop
send_loop-locks zero [] target s enough = returned refl
send_loop-locks zero (m ∷ ms) target s enough = absurd (omega arith)
send_loop-locks (suc fuel) [] target s enough = returned refl
send_loop-locks (suc fuel) (m ∷ ms) target s enough = seq (
    mono (both (send_with_dependents-locks m target s) (send_with_dependents-Account m target s))
      λ subs t (same, (sum, waits)).
        mono
          (send_loop-locks fuel (ms ++ subs) target t (omega (arith, waits, length-append ms subs)))
          λ _ u same'. same' ∙ same)

pub send_messages-Balanced :
    (ms : List Message) (target : Name) (s : Process)
    → Sound (λ _ t. Balanced s.heap t.heap) (send_messages ms target s)
unfolding send_messages
send_messages-Balanced ms target s =
    mono (send_loop-locks (length ms + queued s.heap) ms target s (omega arith))
      λ _ t same. Balanced-same s.heap t.heap same

require_unbound-Balanced :
    (ds : List (ℕ × EndpointDescriptor)) (s : Process)
    → Sound (λ _ t. Balanced s.heap t.heap) (require_unbound ds s)
unfolding require_unbound
require_unbound-Balanced [] s = returned (Balanced-refl s.heap)
require_unbound-Balanced ((at, d) ∷ ds) s = seq (
    or_fail_lem s (find d.endpoint_name s.local_endpoints) _ λ r found. seq (
      lock_lem s r λ e there free. seq (
        deref_lem _ r λ e' there'. seq (
          require_lem _ (not (state_eq e'.state bound)) λ _. seq (
            unlock_lem _ r λ e'' there''.
              let a =
                release s.heap _ r e (record e { lock = true }) (record e'' { lock = false }) there
                  free refl (Balanced-refl _) refl in
              mono (require_unbound-Balanced ds _) λ _ u b. Balanced-trans s.heap _ u.heap a b)))))

send_to_local_peer-Balanced :
    (peer : Ref) (e : Endpoint) (m : Message) (s : Process)
    → Sound (λ _ t. Balanced s.heap t.heap) (send_to_local_peer peer e m s)
unfolding send_to_local_peer
send_to_local_peer-Balanced peer e m s =
    if_lem s (state_eq e.state unbound_and_proxying) _ _
      (λ _.
        send_messages-Balanced (set_target_endpoint m e.proxy_target.endpoint_name ∷ [])
          e.proxy_target.node_name s)
      (λ _. accept_on_delegate_thread-Balanced s peer m)

deliver-Balanced :
    (peer : Option Ref) (node : Name) (m : Message) (s : Process)
    → Sound (λ _ t. Balanced s.heap t.heap) (deliver peer node m s)
unfolding deliver
deliver-Balanced none node m s = send_messages-Balanced (m ∷ []) node s
deliver-Balanced (some peer) node m s = seq (
    lock_lem s peer λ e there free. seq (
      deref_lem _ peer λ e' there'. seq (
        mono (send_to_local_peer-Balanced peer e' m _) λ _ u b. unlock_lem u peer λ e'' there''.
          release s.heap u.heap peer e (record e { lock = true }) (record e'' { lock = false })
            there free refl b refl)))

pub node_send_message-Balanced :
    (local_endpoint : Ref) (m : Message) (s : Process)
    → Sound (λ _ t. Balanced s.heap t.heap) (node_send_message local_endpoint m s)
unfolding node_send_message
node_send_message-Balanced local_endpoint m s = seq (
    require_lem s (message_type m == type_code user_message) λ _. seq (
      lift_lem s (get_endpoint_descriptors m) λ ds read. seq (
        mono (require_unbound-Balanced ds s) λ _ t a. seq (
          deref_lem t local_endpoint λ e there. seq (
            require_lem t
              (not (
                bool_eq (is_none (find e.peer_address.endpoint_name t.local_endpoints))
                  (is_none (find e.peer_address.node_name t.node_channel_map))))
              λ _. seq (
                require_lem t (length e.peer_address.endpoint_name == identifier_size) λ _.
                  mono
                    (deliver-Balanced (find e.peer_address.endpoint_name t.local_endpoints)
                      e.peer_address.node_name (set_target_endpoint m e.peer_address.endpoint_name)
                      t)
                    λ _ u b. Balanced-trans s.heap t.heap u.heap a b))))))
