-- ===== src/Process/Laws.antt =====
-- What the accesses of Process/Heap.antt do to the state.
use mage.Base.{◌≡◌, sym, subst, true, false, arith, List, [], ◌++◌, map, some, get_elem?, set}
use mage.Base.Result.{Result, ok, ok-injective}
use mage.Message.{Message}
use mage.Endpoint.{
  Endpoint, Address, Dispatch, take_queued_messages, lock_endpoint, unlock_endpoint, set_proxying,
  unbound_and_queueing, unbound_and_proxying,
}
use mage.Process.{Process, Ref, dispatch, pure, ◌>>◌}
use mage.Process.Sound.{Sound, returned, seq, lift_lem, or_fail_lem}
use mage.Process.Heap.{deref, store, post, call_method, update, take_queue, lock, unlock, proxy_to}

-- The state with another endpoint at a reference.
abbrev pub with_endpoint : Process → Ref → Endpoint → Process
with_endpoint s r e = record s { heap = set s.heap r e }

pub deref_lem :
    {Q : Endpoint → Process → Type 0} (s : Process) (r : Ref)
    → ((e : Endpoint) → get_elem? s.heap r ≡ some e → Q e s)
    → Sound Q (deref r s)
unfolding deref
deref_lem s r h = or_fail_lem s (get_elem? s.heap r) _ h

lock_endpoint_ok :
    (e e' : Endpoint) → lock_endpoint e ≡ ok e' → (e.lock ≡ false) × (e' ≡ record e { lock = true })
unfolding lock_endpoint
lock_endpoint_ok e e' h = ground arith

set_proxying_ok :
    (e e' : Endpoint) (target : Address)
    → set_proxying e target ≡ ok e'
    → (e.state ≡ unbound_and_queueing)
      × (e' ≡ record e { state = unbound_and_proxying; proxy_target = target })
unfolding set_proxying
set_proxying_ok e e' target h = ground arith

module _ {Q : Unit {0} → Process → Type 0} (s : Process) (r : Ref) where
  pub update_lem :
      (f : Endpoint → Result Endpoint)
      → ((e e' : Endpoint)
          → get_elem? s.heap r ≡ some e
          → f e ≡ ok e'
          → Q tt (with_endpoint s r e'))
      → Sound Q (update r f s)
  unfolding update store
  update_lem f h =
      seq (deref_lem s r λ e there. seq (lift_lem s (f e) λ e' ran. returned (h e e' there ran)))

  pub call_method_lem :
      (f : Endpoint → Result (Endpoint × List Dispatch))
      → ((e e' : Endpoint) (ds : List Dispatch)
          → get_elem? s.heap r ≡ some e
          → f e ≡ ok (e', ds)
          → Q tt (record s { heap = set s.heap r e'; tasks = s.tasks ++ map dispatch ds }))
      → Sound Q (call_method r f s)
  unfolding call_method store post
  call_method_lem f h = seq (
      deref_lem s r
        λ e there. seq (lift_lem s (f e) λ (e', ds) ran. returned (h e e' ds there ran)))

  pub lock_lem :
      ((e : Endpoint)
        → get_elem? s.heap r ≡ some e
        → e.lock ≡ false
        → Q tt (with_endpoint s r (record e { lock = true })))
      → Sound Q (lock r s)
  unfolding lock
  lock_lem h = update_lem lock_endpoint λ e e' there ran.
      let (free, made) = lock_endpoint_ok e e' ran in
      subst (λ x. Q tt (with_endpoint s r x)) (sym made) (h e there free)

  pub unlock_lem :
      ((e : Endpoint)
        → get_elem? s.heap r ≡ some e
        → Q tt (with_endpoint s r (record e { lock = false })))
      → Sound Q (unlock r s)
  unfolding unlock unlock_endpoint
  unlock_lem h =
      update_lem _
        λ e e' there ran. subst (λ x. Q tt (with_endpoint s r x)) (ok-injective ran) (h e there)

  pub proxy_to_lem :
      (target : Address)
      → ((e : Endpoint)
          → get_elem? s.heap r ≡ some e
          → e.state ≡ unbound_and_queueing
          → Q tt (
              with_endpoint s r (record e { state = unbound_and_proxying; proxy_target = target })))
      → Sound Q (proxy_to r target s)
  unfolding proxy_to
  proxy_to_lem target h = update_lem _ λ e e' there ran.
      let (queueing, made) = set_proxying_ok e e' target ran in
      subst (λ x. Q tt (with_endpoint s r x)) (sym made) (h e there queueing)

take_queued_ok :
    (e : Endpoint) (taken : List Message × Endpoint)
    → take_queued_messages e ≡ ok taken
    → (e.incoming_message_queue, record e { incoming_message_queue = [] }) ≡ taken
unfolding take_queued_messages
take_queued_ok e taken h = ground arith

pub take_queue_lem :
    {Q : List Message → Process → Type 0} (s : Process) (r : Ref)
    → ((e : Endpoint)
        → get_elem? s.heap r ≡ some e
        → Q e.incoming_message_queue (with_endpoint s r (record e { incoming_message_queue = [] })))
    → Sound Q (take_queue r s)
unfolding take_queue store take_queued_messages
take_queue_lem {Q} s r h = seq (
    deref_lem s r λ e there. seq (
      lift_lem s (take_queued_messages e) λ taken ran.
        subst (λ x. Sound Q ((do store r x.1; pure x.0) s)) (take_queued_ok e taken ran)
          (returned (h e there))))
