-- ===== src/Process/Heap.antt =====
-- Endpoints by reference: the methods of mage/core/endpoint.cc on the endpoint that a shared pointer
-- leads to.
use mage.Base.{◌+◌, List, [], ◌∷◌, ◌++◌, map, get_elem?, set, length}
use mage.Base.Result.{Result, ok, bad_access}
use mage.Message.{Message, Name, identifier_size}
use mage.Endpoint.{
  Endpoint, Address, Dispatch, lock_endpoint, unlock_endpoint, set_proxying, take_queued_messages,
}
use mage.Process.{Ref, dispatch, M, pure, lift, gets, modify, or_fail, ◌>>=◌, ◌>>◌}
use mage.Util.{random_identifier}

unfoldable pub deref : Ref → M Endpoint
deref r = do heap ← gets (λ s. s.heap); or_fail (get_elem? heap r) bad_access

unfoldable pub store : Ref → Endpoint → M (Unit {0})
store r e = modify (λ s. record s { heap = set s.heap r e })

-- `new Endpoint`.
unfoldable pub allocate_endpoint : Endpoint → M Ref
allocate_endpoint e = do
  r ← gets (λ s. length s.heap)
  modify (λ s. record s { heap = s.heap ++ e ∷ [] })
  pure r

unfoldable pub post : List Dispatch → M (Unit {0})
post ds = modify (λ s. record s { tasks = s.tasks ++ map dispatch ds })

-- A method that posts tasks, and one that does not.
unfoldable pub call_method : Ref → (Endpoint → Result (Endpoint × List Dispatch)) → M (Unit {0})
unfolding deref store post
call_method r method = do e ← deref r; (e', ds) ← lift (method e); store r e'; post ds

unfoldable pub update : Ref → (Endpoint → Result Endpoint) → M (Unit {0})
unfolding deref store
update r method = do e ← deref r; e' ← lift (method e); store r e'

unfoldable pub lock : Ref → M (Unit {0})
unfolding update lock_endpoint
lock r = update r lock_endpoint

unfoldable pub unlock : Ref → M (Unit {0})
unfolding update unlock_endpoint
unlock r = update r (λ e. ok (unlock_endpoint e))

unfoldable pub proxy_to : Ref → Address → M (Unit {0})
unfolding update set_proxying
proxy_to r target = update r (λ e. set_proxying e target)

unfoldable pub take_queue : Ref → M (List Message)
unfolding deref store take_queued_messages
take_queue r = do e ← deref r; (queued, e') ← lift (take_queued_messages e); store r e'; pure queued

-- `util::RandomIdentifier()`.
unfoldable pub fresh_identifier : M Name
unfolding random_identifier
fresh_identifier = do
  name ← gets (λ s. random_identifier s.world.draw s.drawn)
  modify (λ s. record s { drawn = s.drawn + identifier_size })
  pure name
