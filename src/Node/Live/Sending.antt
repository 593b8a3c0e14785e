-- ===== src/Node/Live/Sending.antt =====
-- `SendMessage` of mage/core/node.cc comes to an end, with messages that carry no endpoints.
use mathlib.Core.List.{append-nil}
use mage.Base.{
  ℕ, zero, suc, ◌+◌, ◌≤◌, ◌≡◌, refl, sym, subst, ap, ◌∙◌, true, not, List, [], ◌∷◌, ◌++◌, Option,
  some, none, All, arith, length, bool_eq, ◌==◌,
}
use mage.Base.Result.{ok}
use mage.Message.{
  Name, Message, identifier_size, get_endpoint_descriptors, set_target_endpoint, message_type,
  type_code, user_message,
}
use mage.Message.Header.{HasHeader, set_target_endpoint_lem}
use mage.Map.{find, name_key}
use mage.Endpoint.{Endpoint, state_eq, unbound_and_proxying}
use mage.Process.{Process, Ref}
use mage.Process.Laws.{lock_lem}
use mage.Process.Invariant.{All-get, All-set}
use mage.Process.Locks.{IsUnlocked}
use mage.Process.Live.{
  Live, Ends, ends, returns, then_live, after, with_lem, lift_ok_live, if_live, require_live,
  require_live_when, weaken, deref_live, lock-Ends, unlock-Ends,
}
use mage.Core.{is_none}
use mage.Core.Live.{accept_on_delegate_thread-Ends}
use mage.Node.Live.{channel_of-Ends, send_on_channel-Ends}
use mage.Node.Send.{
  retarget, proxy_dependents, unlock_all, send_with_dependents, send_loop, queued, send_messages,
  require_unbound, send_to_local_peer, deliver, node_send_message,
}

-- A message with a header and without endpoints.
abbrev pub CarriesNothing : Message → Type 0
CarriesNothing m = HasHeader m × (get_endpoint_descriptors m ≡ ok [])

-- As every identifier, the name that a proxy forwards to has 15 bytes.
abbrev pub IsTargetNamed : Endpoint → Type 0
IsTargetNamed e = e.state ≡ unbound_and_proxying → length e.proxy_target.endpoint_name ≡ 15

pub set_target_endpoint-CarriesNothing :
    (m : Message) (name : Name)
    → length name ≡ 15
    → CarriesNothing m
    → CarriesNothing (set_target_endpoint m name)
set_target_endpoint-CarriesNothing m name named (whole, alone) =
    let (_, _, _, _, long, _, same) = set_target_endpoint_lem m name whole named in
    (omega (arith, long), same ∙ alone)

pub retarget-CarriesNothing :
    (name : Name) (ms : List Message)
    → length name ≡ 15
    → All CarriesNothing ms
    → All CarriesNothing (retarget name ms)
unfolding retarget
retarget-CarriesNothing name [] named h = tt
retarget-CarriesNothing name (m ∷ ms) named (one, h) =
    (set_target_endpoint-CarriesNothing m name named one, retarget-CarriesNothing name ms named h)

send_with_dependents_alone :
    (m : Message) (target : Name) (s : Process)
    → CarriesNothing m
    → Live (λ subs t. subs ≡ []) (send_with_dependents m target s)
unfolding send_with_dependents proxy_dependents unlock_all
send_with_dependents_alone m target s (whole, alone) = then_live (
    lift_ok_live s (get_endpoint_descriptors m) [] alone (
      after (channel_of-Ends target s)
        λ fd t. after (send_on_channel-Ends fd m t) λ _ u. returns refl))

send_loop-Ends :
    (fuel : ℕ) (ms : List Message) (target : Name) (s : Process)
    → length ms ≤ fuel
    → All CarriesNothing ms
    → Ends (send_loop fuel ms target s)
unfolding send_loop
send_loop-Ends zero [] target s enough h = ends
send_loop-Ends zero (m ∷ ms) target s enough h = absurd (omega arith)
send_loop-Ends (suc fuel) [] target s enough h = ends
send_loop-Ends (suc fuel) (m ∷ ms) target s enough (one, h) = then_live (
    weaken (send_with_dependents_alone m target s one) λ subs t none.
      subst (λ l. Ends (send_loop fuel l target t)) (sym (ap (λ l. ms ++ l) none ∙ append-nil ms))
        (send_loop-Ends fuel ms target t (omega arith) h))

pub send_messages-Ends :
    (ms : List Message) (target : Name) (s : Process)
    → All CarriesNothing ms
    → Ends (send_messages ms target s)
unfolding send_messages
send_messages-Ends ms target s h =
    send_loop-Ends (length ms + queued s.heap) ms target s (omega arith) h

state_eq_lem :
    (e : Endpoint) → state_eq e.state unbound_and_proxying ≡ true → e.state ≡ unbound_and_proxying
state_eq_lem e h = ground (arith, h)

send_to_local_peer-Ends :
    (peer : Ref) (e : Endpoint) (m : Message) (s : Process)
    → CarriesNothing m
    → IsTargetNamed e
    → Ends (send_to_local_peer peer e m s)
unfolding send_to_local_peer
send_to_local_peer-Ends peer e m s one named =
    if_live s (state_eq e.state unbound_and_proxying) _ _
      (λ proxying.
        send_messages-Ends (set_target_endpoint m e.proxy_target.endpoint_name ∷ [])
          e.proxy_target.node_name s
          (
            set_target_endpoint-CarriesNothing m e.proxy_target.endpoint_name
                (named (state_eq_lem e proxying)) one,
            tt,
          ))
      (λ _. accept_on_delegate_thread-Ends s peer m)

deliver-Ends :
    (peer : Option Ref) (node : Name) (m : Message) (s : Process)
    → All IsUnlocked s.heap
    → All IsTargetNamed s.heap
    → CarriesNothing m
    → Ends (deliver peer node m s)
unfolding deliver
deliver-Ends none node m s free named one = send_messages-Ends (m ∷ []) node s (one, tt)
deliver-Ends (some peer) node m s free named one = then_live (
    with_lem (lock-Ends s peer free) (
      lock_lem s peer λ e there free'.
        let named' =
          All-set IsTargetNamed s.heap peer (record e { lock = true }) named
            (All-get IsTargetNamed s.heap peer e named there) in
        then_live (
          deref_live _ peer λ e' there'.
            after
              (send_to_local_peer-Ends peer e' m _ one
                (All-get IsTargetNamed _ peer e' named' there'))
              λ _ t. unlock-Ends t peer)))

-- A message without endpoints, where no mutex is held.
pub node_send_message-Ends :
    (r : Ref) (m : Message) (s : Process)
    → All IsUnlocked s.heap
    → All IsTargetNamed s.heap
    → CarriesNothing m
    → Ends (node_send_message r m s)
unfolding node_send_message require_unbound
node_send_message-Ends r m s free named (whole, alone) = then_live (
    require_live s (message_type m == type_code user_message) (
      then_live (
        lift_ok_live s (get_endpoint_descriptors m) [] alone (
          then_live (
            deref_live s r λ e there. then_live (
              require_live s
                (not (
                  bool_eq (is_none (find e.peer_address.endpoint_name s.local_endpoints))
                    (is_none (find e.peer_address.node_name s.node_channel_map))))
                (then_live (
                  require_live_when s (length e.peer_address.endpoint_name == identifier_size)
                    λ fifteen.
                      deliver-Ends (find e.peer_address.endpoint_name s.local_endpoints)
                        e.peer_address.node_name
                        (set_target_endpoint m e.peer_address.endpoint_name) s free named
                        (set_target_endpoint-CarriesNothing m e.peer_address.endpoint_name
                          (ground (arith, fifteen)) (whole, alone))))))))))
