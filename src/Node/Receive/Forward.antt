-- ===== src/Node/Receive/Forward.antt =====
-- What `OnReceivedUserMessage` of mage/core/node.cc does at an endpoint that is a proxy, with a message that
-- carries no endpoints.
use mage.Base.{
  ◌≡◌, ◌≢◌, ap, sym, ◌∙◌, true, false, not, inl, inr, Bool-cases, List, [], ◌∷◌, ◌++◌, some,
  get_elem?, set, length, bytes_eq, bytes_eq_iff,
}
use mage.Base.Result.{ok}
use mage.Message.{Name, Message, target_endpoint, set_target_endpoint, get_endpoint_descriptors}
use mage.Message.Header.{HasHeader, set_target_endpoint_lem}
use mage.Map.{find, name_key}
use mage.Endpoint.{Endpoint, unbound_and_proxying}
use mage.Process.{Process, Ref, Fd, done}
use mage.Process.Laws.{with_endpoint}
use mage.Process.Exact.{
  step, require-true, or_fail-some, lift-ok, set-same, set-set, there-set, deref-there, lock-there,
  unlock-there,
}
use mage.Channel.Write.{Writes, send_on_channel-Writes}
use mage.Node.{channel_of}
use mage.Node.Receive.{
  on_received_user_message, handle_user_message, forward, prepare_to_forward_user_message,
}

names_differ : (a b : Name) → a ≢ b → bytes_eq a b ≡ false
names_differ a b apart = elim (Bool-cases (bytes_eq a b)) [
  | inl same ↦ absurd (apart ((bytes_eq_iff a b).0 same))
  | inr other ↦ other
]

-- The proxy has its target in another node, behind the channel `fd`, which takes the retargeted message.
pub record Forwards (s : Process) (e : Endpoint) (fd : Fd) (m : Message) : Type 0 where
  pub proxying : e.state ≡ unbound_and_proxying
  pub away : e.proxy_target.node_name ≢ s.name
  pub named : length e.proxy_target.endpoint_name ≡ 15
  pub channel : find e.proxy_target.node_name s.node_channel_map ≡ some fd
  pub whole : HasHeader m
  pub alone : get_endpoint_descriptors m ≡ ok []
  pub writes : Writes s fd (set_target_endpoint m e.proxy_target.endpoint_name)

forward-sent :
    (s : Process) (e : Endpoint) (fd : Fd) (m : Message)
    → Forwards s e fd m
    → forward e.proxy_target m s
      ≡ done tt (record s {
        sent =
            s.sent
            ++ (fd, (set_target_endpoint m e.proxy_target.endpoint_name).payload_buffer) ∷ [];
      })
unfolding forward prepare_to_forward_user_message channel_of
forward-sent s e fd m f =
    let name = e.proxy_target.endpoint_name in
    let (_, _, _, _, _, _, same) = set_target_endpoint_lem m name f.whole f.named in
    step _
      (require-true s (not (bytes_eq e.proxy_target.node_name s.name))
        (ap not (names_differ _ _ f.away)))
      (step _ (lift-ok s (same ∙ f.alone)) (
        step _ (or_fail-some s _ f.channel)
          (send_on_channel-Writes s fd (set_target_endpoint m name) f.writes)))

-- The same while the proxy is locked.
Forwards-locked :
    (s : Process) (r : Ref) (e : Endpoint) (fd : Fd) (m : Message)
    → Forwards s e fd m
    → Forwards (with_endpoint s r (record e { lock = true })) (record e { lock = true }) fd m
Forwards-locked s r e fd m f = record {
  proxying = f.proxying;
  away = f.away;
  named = f.named;
  channel = f.channel;
  whole = f.whole;
  alone = f.alone;
  writes = record { sized = f.writes.sized; small = f.writes.small; whole = f.writes.whole };
}

handle_user_message-forward :
    (s : Process) (m : Message) (r : Ref) (e : Endpoint) (fd : Fd)
    → Forwards s e fd m
    → handle_user_message r e m s
      ≡ done tt (record s {
        sent =
            s.sent
            ++ (fd, (set_target_endpoint m e.proxy_target.endpoint_name).payload_buffer) ∷ [];
      })
unfolding handle_user_message
handle_user_message-forward s m r e fd f = rw f.proxying (forward-sent s e fd m f)

-- Locked and unlocked, an endpoint is what it was.
restored :
    (heap : List Endpoint) (r : Ref) (e : Endpoint)
    → get_elem? heap r ≡ some e
    → e.lock ≡ false
    → set (set heap r (record e { lock = true })) r (record e { lock = false }) ≡ heap
restored heap r e there free =
    set-set heap r _ _
    ∙ ap (λ b. set heap r (record e { lock = b })) (sym free)
    ∙ set-same heap r e there

-- A user message that holds a header and carries no endpoints, whose target is registered here, is named
-- so, is not locked and is a proxy for an endpoint of a 15 byte name in another node: the message is
-- written to the channel of that node, retargeted to the proxy's target, and nothing else changes. The
-- message says its size, which is below 2 ^ 31, and the socket takes it whole.
pub on_received_user_message-forward :
    (s : Process) (m : Message) (r : Ref) (e : Endpoint) (fd : Fd)
    → find (target_endpoint m) s.local_endpoints ≡ some r
    → get_elem? s.heap r ≡ some e
    → e.name ≡ target_endpoint m
    → e.lock ≡ false
    → Forwards s e fd m
    → on_received_user_message m s
      ≡ done tt (record s {
        sent =
            s.sent
            ++ (fd, (set_target_endpoint m e.proxy_target.endpoint_name).payload_buffer) ∷ [];
      })
unfolding on_received_user_message
on_received_user_message-forward s m r e fd found there named free f =
    let locked : Endpoint = record e { lock = true } in
    let s₁ : Process = with_endpoint s r locked in
    let there₁ = there-set s.heap r locked there in
    let sent =
      s.sent ++ (fd, (set_target_endpoint m e.proxy_target.endpoint_name).payload_buffer) ∷ [] in
    let s₂ : Process = record s₁ { sent = sent } in
    step _ (or_fail-some s _ found) (
      step _ (deref-there s r there) (
        step _
          (require-true s (bytes_eq (target_endpoint m) e.name) ((bytes_eq_iff _ _).1 (sym named)))
          (step _ (lock-there s r there free) (
            step _ (lift-ok s₁ f.alone) (
              step _ (deref-there s₁ r there₁) (
                step _ (handle_user_message-forward s₁ m r locked fd (Forwards-locked s r e fd m f))
                  (unlock-there s₂ r there₁
                    ∙ ap (λ heap. done tt (record s { heap = heap; sent = sent }))
                        (restored s.heap r e there free))))))))
