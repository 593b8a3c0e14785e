-- ===== src/Node/Send/Drain.antt =====
-- The loop of `SendMessagesAndRecursiveDependents` (mage/core/node.cc): a message that it takes from an
-- endpoint is sent once, and the loop ends.
use mage.Base.{
  ℕ, zero, suc, ◌+◌, ◌≤◌, ◌≡◌, refl, ap, List, [], ◌∷◌, ◌++◌, some, false, arith, length,
  length-append, get_elem?, set,
}
use mage.Message.{Name, Message, EndpointDescriptor, get_endpoint_descriptors}
use mage.Map.{find, name_key}
use mage.Endpoint.{Endpoint}
use mage.Process.{Process, Ref, Fd}
use mage.Process.Sound.{Sound, returned, seq, mono, lift_lem, or_fail_lem}
use mage.Process.Laws.{with_endpoint, lock_lem, unlock_lem, proxy_to_lem, take_queue_lem}
use mage.Channel.Write.{send_on_channel_lem}
use mage.Node.{channel_of}
use mage.Node.Send.{
  retarget, proxy_dependents, unlock_all, send_with_dependents, send_loop, queued, send_messages,
}

-- One endpoint counts for its own queue.
pub queued-set :
    (es : List Endpoint) (r : ℕ) (e e' : Endpoint)
    → get_elem? es r ≡ some e
    → queued (set es r e') + length e.incoming_message_queue
      ≡ queued es + length e'.incoming_message_queue
unfolding queued
queued-set [] r e e' h = ground arith
queued-set (x ∷ es) zero e e' h = ground arith
queued-set (x ∷ es) (suc r) e e' h = omega (arith, queued-set es r e e' h)

pub length-retarget : (name : Name) (ms : List Message) → length (retarget name ms) ≡ length ms
unfolding retarget
length-retarget name [] = refl
length-retarget name (m ∷ ms) = ap suc (length-retarget name ms)

pub channel_of_lem :
    {Q : Fd → Process → Type 0} (s : Process) (node : Name)
    → ((fd : Fd) → find node s.node_channel_map ≡ some fd → Q fd s)
    → Sound Q (channel_of node s)
unfolding channel_of
channel_of_lem s node h = or_fail_lem s (find node s.node_channel_map) _ h

pub unlock_all-queued :
    (rs : List Ref) (s : Process)
    → Sound (λ _ t. (queued t.heap ≡ queued s.heap) × (t.sent ≡ s.sent)) (unlock_all rs s)
unfolding unlock_all
unlock_all-queued [] s = returned (refl, refl)
unlock_all-queued (r ∷ rs) s = seq (
    unlock_lem s r λ e there.
      mono (unlock_all-queued rs (with_endpoint s r (record e { lock = false })))
        λ _ t (same, sent).
          (omega (arith, same, queued-set s.heap r e (record e { lock = false }) there), sent))

pub proxy_dependents-queued :
    (ds : List (ℕ × EndpointDescriptor)) (target : Name) (s : Process)
    → Sound
        (λ (subs, locked) t. (length subs + queued t.heap ≡ queued s.heap) × (t.sent ≡ s.sent))
        (proxy_dependents ds target s)
unfolding proxy_dependents
proxy_dependents-queued [] target s = returned (omega arith, refl)
proxy_dependents-queued ((at, d) ∷ ds) target s = seq (
    or_fail_lem s (find d.endpoint_name s.local_endpoints) _ λ r found. seq (
      lock_lem s r λ e there free. seq (
        take_queue_lem _ r λ e₁ there₁. seq (
          proxy_to_lem _ r _ λ e₂ there₂ queueing. seq (
            mono (proxy_dependents-queued ds target _) λ (subs, locked) t (same, sent). returned (
              omega (
                arith,
                same,
                queued-set _ r e _ there,
                queued-set _ r e₁ _ there₁,
                queued-set _ r e₂ _ there₂,
                length-append (retarget d.cross_node_endpoint_name e₁.incoming_message_queue) subs,
                length-retarget d.cross_node_endpoint_name e₁.incoming_message_queue,
              ),
              sent,
            ))))))

-- What is sent and what still waits, together with `n` messages that are at hand.
abbrev pub Account : ℕ → Process → ℕ → Process → Type 0
Account m s n t = n + queued t.heap + length t.sent ≡ m + queued s.heap + length s.sent

pub send_with_dependents-Account :
    (m : Message) (target : Name) (s : Process)
    → Sound
        (λ subs t. Account 1 s (length subs) t × (length subs + queued t.heap ≡ queued s.heap))
        (send_with_dependents m target s)
unfolding send_with_dependents
send_with_dependents-Account m target s = seq (
    lift_lem s (get_endpoint_descriptors m) λ ds read. seq (
      mono (proxy_dependents-queued ds target s) λ (subs, locked) t (same, sent). seq (
        channel_of_lem t target λ fd found. seq (
          send_on_channel_lem t fd m (
            seq (
              mono (unlock_all-queued locked _) λ _ u (same', sent'). returned (
                omega (
                  arith,
                  same,
                  same',
                  ap length sent',
                  ap length sent,
                  length-append t.sent ((fd, m.payload_buffer) ∷ []),
                ),
                omega (arith, same, same'),
              )))))))

-- Given as many rounds as there are messages at hand and in the endpoints' queues, the loop ends; and
-- each message at hand or queued was then sent once, or is queued still.
pub send_loop-Account :
    (fuel : ℕ) (ms : List Message) (target : Name) (s : Process)
    → length ms + queued s.heap ≤ fuel
    → Sound (λ _ t. Account (length ms) s 0 t) (send_loop fuel ms target s)
unfolding send_loop
send_loop-Account zero [] target s enough = returned refl
send_loop-Account (suc fuel) [] target s enough = returned refl
send_loop-Account zero (m ∷ ms) target s enough = absurd (omega arith)
send_loop-Account (suc fuel) (m ∷ ms) target s enough = seq (
    mono (send_with_dependents-Account m target s) λ subs t (sum, waits).
      mono
        (send_loop-Account fuel (ms ++ subs) target t (omega (arith, waits, length-append ms subs)))
        λ _ u sum'. omega (arith, sum, sum', length-append ms subs))

-- `SendMessagesAndRecursiveDependents` comes to an end.
pub send_messages-Account :
    (ms : List Message) (target : Name) (s : Process)
    → Sound (λ _ t. Account (length ms) s 0 t) (send_messages ms target s)
unfolding send_messages
send_messages-Account ms target s =
    send_loop-Account (length ms + queued s.heap) ms target s (omega arith)
