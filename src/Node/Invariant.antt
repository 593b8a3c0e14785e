-- ===== src/Node/Invariant.antt =====
-- The helpers of mage/core/node.cc that every route goes through keep the tables of a process.
pub mod Sending
pub mod Inviting
pub mod Receiving
use mage.Base.{
  ℕ, ◌≡◌, refl, sym, ap, ◌∙◌, List, [], ◌∷◌, ◌++◌, true, false, some, none, not, get_elem?, length,
}
use mage.Message.{Name, Message}
use mage.Map.{find, insert, erase, name_key}
use mage.Endpoint.{Endpoint, Address, state_eq, bound, unbound_and_proxying}
use mage.Endpoint.Valid.{IsValid}
use mage.Process.{Process, Ref, Fd}
use mage.Process.Sound.{Sound, returned, stopped, seq, mono, or_fail_lem, require_lem, if_lem}
use mage.Process.Heap.{lock, unlock, proxy_to, take_queue}
use mage.Process.Laws.{lock_lem, unlock_lem, proxy_to_lem, take_queue_lem, deref_lem}
use mage.Process.Invariant.{Inv, After, After-trans, All-get, set-After}
use mage.Channel.{stop}
use mage.Core.{is_none}
use mage.Node.{insert_channel, channel_of, rename_channel, require_registered}

module _ (s : Process) (i : Inv s) (r : Ref) where
  IsValid-at : (e : Endpoint) → get_elem? s.heap r ≡ some e → IsValid e
  IsValid-at e there = All-get IsValid s.heap r e i.valid there

  pub lock-After : Sound (λ _ t. After s t) (lock r s)
  lock-After = lock_lem s r λ e there free.
      let v = IsValid-at e there in
      set-After s r e (record e { lock = true }) i there refl
        (record { served = v.served; runs = v.runs; queues = v.queues })

  pub unlock-After : Sound (λ _ t. After s t) (unlock r s)
  unlock-After = unlock_lem s r λ e there.
      let v = IsValid-at e there in
      set-After s r e (record e { lock = false }) i there refl
        (record { served = v.served; runs = v.runs; queues = v.queues })

  pub proxy_to-After : (target : Address) → Sound (λ _ t. After s t) (proxy_to r target s)
  proxy_to-After target = proxy_to_lem s r target λ e there queueing.
      let v = IsValid-at e there in
      let unbound : state_eq e.state bound ≡ false = ap (λ st. state_eq st bound) queueing in
      set-After s r e (record e { state = unbound_and_proxying; proxy_target = target }) i there
        refl
        (record { served = v.served ∙ unbound; runs = v.runs ∙ unbound; queues = λ b. absurd (cc) })

  pub take_queue-After : Sound (λ _ t. After s t) (take_queue r s)
  take_queue-After = take_queue_lem s r λ e there.
      let v = IsValid-at e there in
      set-After s r e (record e { incoming_message_queue = [] }) i there refl
        (record { served = v.served; runs = v.runs; queues = λ b. refl })

pub require_registered_lem :
    {Q : Unit {0} → Process → Type 0} (s : Process) (r : Ref)
    → Q tt s
    → Sound Q (require_registered r s)
unfolding require_registered
require_registered_lem s r h =
    seq (
      deref_lem s r λ e there. require_lem s (not (is_none (find e.name s.local_endpoints))) λ _. h)

-- The channels and the watched sockets are no part of the tables.
pub insert_channel_lem :
    {Q : Unit {0} → Process → Type 0} (s : Process) (node : Name) (fd : Fd)
    → ((channels : List (Name × Fd)) (watched : List Fd)
        → Q tt (record s { node_channel_map = channels; watched = watched }))
    → Sound Q (insert_channel node fd s)
unfolding insert_channel stop
insert_channel_lem s node fd h =
    if_lem s (is_none (find node s.node_channel_map)) _ _ (λ _. returned (h _ s.watched))
      (λ _. returned (h s.node_channel_map _))

pub rename_channel_lem :
    {Q : Unit {0} → Process → Type 0} (s : Process) (old new : Name)
    → ((channels : List (Name × Fd)) (watched : List Fd)
        → Q tt (record s { node_channel_map = channels; watched = watched }))
    → Sound Q (rename_channel old new s)
unfolding rename_channel
rename_channel_lem s old new h =
    seq (or_fail_lem s (find old s.node_channel_map) _ λ fd found. insert_channel_lem _ new fd h)
