-- ===== src/Node/Send/Content.antt =====
-- What `SendMessagesAndRecursiveDependents` of mage/core/node.cc writes: the messages at hand and those that
-- it takes from endpoints, which it changes in their target only.
use mage.Base.{
  ℕ, suc, zero, ◌+◌, ◌≤◌, ◌≡◌, refl, ap, false, List, [], ◌∷◌, ◌++◌, Option, none, some, inl, inr,
  arith, length, subst, length-append, All, ltb, Bool-cases,
}
use mage.Base.Result.{ok, >>=-ok, ok-injective}
use mage.Bytes.{Bytes, read_int}
use mage.Bytes.Laws.{length-slice}
use mage.Message.{
  Name, Message, EndpointDescriptor, get_endpoint_descriptors, read_array, read_descriptors,
  descriptor_at, rounds,
}
use mage.Map.{find, name_key}
use mage.Process.{Process, Ref, done}
use mage.Process.Sound.{Sound, returned, seq, mono, both, lift_lem, or_fail_lem, at_done}
use mage.Process.Laws.{with_endpoint, lock_lem, unlock_lem, proxy_to_lem, take_queue_lem}
use mage.Channel.Write.{send_on_channel_lem}
use mage.Node.Send.{
  retarget, proxy_dependents, unlock_all, send_with_dependents, send_loop, queued, send_messages,
}
use mage.Node.Send.Drain.{channel_of_lem, send_with_dependents-Account}
use mage.Node.Send.Times.{
  times, payloads, waiting, written, zero_times, times-append, written-append, waiting-set,
  times-retarget, times-payloads-append,
}

-- The new names of the endpoints that a message carries.
abbrev HasNames : List (ℕ × EndpointDescriptor) → Type 0
HasNames = All (λ (at, d). length d.cross_node_endpoint_name ≡ 15)

read_descriptors-HasNames :
    (bs : Bytes) (at n : ℕ) (ds : List (ℕ × EndpointDescriptor))
    → read_descriptors bs at n ≡ ok ds
    → HasNames ds
unfolding read_descriptors descriptor_at
read_descriptors-HasNames bs at zero ds h = subst HasNames (ok-injective h) tt
read_descriptors-HasNames bs at (suc n) ds h = elim (Bool-cases (ltb (length bs) (at + 60))) [
  | inl short ↦ cc (rw short at h)
  | inr fits ↦
      let (rest, read, made) = >>=-ok _ _ (rw fits at h) in
      let named : HasNames ((at, descriptor_at bs at) ∷ rest) = (
        length-slice bs (at + 15) 15 (ground (arith, fits)),
        read_descriptors-HasNames bs (at + 60) n rest read,
      ) in
      subst HasNames (ok-injective made) named
]

read_array-HasNames :
    (bs : Bytes) (o : Option ℕ) (ds : List (ℕ × EndpointDescriptor))
    → read_array bs o ≡ ok ds
    → HasNames ds
unfolding read_array
read_array-HasNames bs none ds h = subst HasNames (ok-injective h) tt
read_array-HasNames bs (some array) ds h = elim (Bool-cases (ltb (length bs) (array + 4))) [
  | inl short ↦ cc (rw short at h)
  | inr fits ↦
      read_descriptors-HasNames bs (array + 4) (rounds (read_int bs array 4)) ds (rw fits at h)
]

get_endpoint_descriptors-HasNames :
    (m : Message) (ds : List (ℕ × EndpointDescriptor))
    → get_endpoint_descriptors m ≡ ok ds
    → HasNames ds
unfolding get_endpoint_descriptors
get_endpoint_descriptors-HasNames m ds h = read_array-HasNames m.payload_buffer _ ds h

-- What was written and what waits, together with what is at hand, for one content of a message.
abbrev Content : Bytes → List Message → Process → List Message → Process → Type 0
Content x at_first s at_last t =
    times x (payloads at_last) + times x (waiting t.heap) + times x (written t.sent)
    ≡ times x (payloads at_first) + times x (waiting s.heap) + times x (written s.sent)

unlock_all-Content :
    (x : Bytes) (rs : List Ref) (s : Process)
    → Sound
        (λ _ t. (times x (waiting t.heap) ≡ times x (waiting s.heap)) × (t.sent ≡ s.sent))
        (unlock_all rs s)
unfolding unlock_all
unlock_all-Content x [] s = returned (refl, refl)
unlock_all-Content x (r ∷ rs) s = seq (
    unlock_lem s r λ e there.
      mono (unlock_all-Content x rs (with_endpoint s r (record e { lock = false })))
        λ _ t (same, sent).
          (omega (arith, same, waiting-set x s.heap r e (record e { lock = false }) there), sent))

proxy_dependents-Content :
    (x : Bytes) (ds : List (ℕ × EndpointDescriptor)) (target : Name) (s : Process)
    → HasNames ds
    → Sound
        (λ (subs, locked) t.
          (times x (payloads subs) + times x (waiting t.heap) ≡ times x (waiting s.heap))
          × (t.sent ≡ s.sent))
        (proxy_dependents ds target s)
unfolding proxy_dependents
proxy_dependents-Content x [] target s named = returned (omega (arith, zero_times x), refl)
proxy_dependents-Content x ((at, d) ∷ ds) target s (named, later) = seq (
    or_fail_lem s (find d.endpoint_name s.local_endpoints) _ λ r found. seq (
      lock_lem s r λ e there free. seq (
        take_queue_lem _ r λ e₁ there₁. seq (
          proxy_to_lem _ r _ λ e₂ there₂ queueing. seq (
            mono (proxy_dependents-Content x ds target _ later) λ (subs, locked) t (same, sent).
              returned (
                omega (
                  arith,
                  same,
                  zero_times x,
                  waiting-set x _ r e _ there,
                  waiting-set x _ r e₁ _ there₁,
                  waiting-set x _ r e₂ _ there₂,
                  times-payloads-append x
                      (retarget d.cross_node_endpoint_name e₁.incoming_message_queue) subs,
                  times-retarget x d.cross_node_endpoint_name e₁.incoming_message_queue named,
                ),
                sent,
              ))))))

send_with_dependents-Content :
    (x : Bytes) (m : Message) (target : Name) (s : Process)
    → Sound (λ subs t. Content x (m ∷ []) s subs t) (send_with_dependents m target s)
unfolding send_with_dependents
send_with_dependents-Content x m target s = seq (
    lift_lem s (get_endpoint_descriptors m) λ ds read. seq (
      mono (proxy_dependents-Content x ds target s (get_endpoint_descriptors-HasNames m ds read))
        λ (subs, locked) t (same, sent). seq (
          channel_of_lem t target λ fd found. seq (
            send_on_channel_lem t fd m (
              seq (
                mono (unlock_all-Content x locked _) λ _ u (same', sent'). returned (
                  omega (
                    arith,
                    same,
                    same',
                    ap (λ l. times x (written l)) sent',
                    ap (λ l. times x (written l)) sent,
                    ap (times x) (written-append t.sent fd m.payload_buffer),
                    times-append x (written t.sent) (m.payload_buffer ∷ []),
                  ))))))))

send_loop-Content :
    (x : Bytes) (fuel : ℕ) (ms : List Message) (target : Name) (s : Process)
    → length ms + queued s.heap ≤ fuel
    → Sound (λ _ t. Content x ms s [] t) (send_loop fuel ms target s)
unfolding send_loop
send_loop-Content x zero [] target s enough = returned refl
send_loop-Content x (suc fuel) [] target s enough = returned refl
send_loop-Content x zero (m ∷ ms) target s enough = absurd (omega arith)
send_loop-Content x (suc fuel) (m ∷ ms) target s enough = seq (
    mono
      (both (send_with_dependents-Account m target s) (send_with_dependents-Content x m target s))
      λ subs t ((sum, waits), kept).
        mono
          (send_loop-Content x fuel (ms ++ subs) target t
            (omega (arith, waits, length-append ms subs)))
          λ _ u kept'. omega (
            arith,
            kept,
            kept',
            times-payloads-append x ms subs,
            times-payloads-append x (m ∷ []) ms,
            zero_times x,
          ))

send_messages-Content :
    (x : Bytes) (ms : List Message) (target : Name) (s : Process)
    → Sound (λ _ t. Content x ms s [] t) (send_messages ms target s)
unfolding send_messages
send_messages-Content x ms target s =
    send_loop-Content x (length ms + queued s.heap) ms target s (omega arith)

-- Where `SendMessagesAndRecursiveDependents` returns, each content of a message, which is all its bytes but
-- the 15 of its target, is among what is written and what waits in endpoints as often as it was among what was
-- written, what waited and what was at hand: no message is lost, doubled or changed in more than its target.
pub send_messages_once :
    (x : Bytes) (ms : List Message) (target : Name) (s t : Process)
    → send_messages ms target s ≡ done tt t
    → times x (written t.sent) + times x (waiting t.heap)
      ≡ times x (written s.sent) + times x (waiting s.heap) + times x (payloads ms)
send_messages_once x ms target s t e =
    omega (arith, zero_times x, at_done (send_messages-Content x ms target s) e)
