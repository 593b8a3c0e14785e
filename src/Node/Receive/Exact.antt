-- ===== src/Node/Receive/Exact.antt =====
-- What `OnReceivedUserMessage` of mage/core/node.cc makes of a message that carries no endpoints.

use mage.Base.{
  ◌≡◌, ap, sym, ◌∙◌, true, false, List, [], ◌++◌, map, some, get_elem?, set, bytes_eq, bytes_eq_iff,
}
use mage.Base.Result.{ok}
use mage.Message.{Message, target_endpoint, get_endpoint_descriptors}
use mage.Map.{find, name_key}
use mage.Endpoint.{Endpoint, Dispatch, accept_message}
use mage.Endpoint.Locked.{accept_message-not_proxying, accept_on_io_thread-lock}
use mage.Process.{Process, Ref, done, dispatch}
use mage.Process.Laws.{with_endpoint}
use mage.Process.Exact.{
  step, require-true, or_fail-some, lift-ok, set-set, there-set, deref-there, call_method-there,
  lock-there, unlock-there,
}
use mage.Node.Receive.{on_received_user_message, handle_user_message}

pub handle_user_message-accept :
    (s : Process) (m : Message) (r : Ref) (e e' : Endpoint) (ds : List Dispatch)
    → get_elem? s.heap r ≡ some (record e { lock = true })
    → accept_message e m ≡ ok (e', ds)
    → handle_user_message r (record e { lock = true }) m s
      ≡ done tt (record s {
        heap = set s.heap r (record e' { lock = true });
        tasks = s.tasks ++ map dispatch ds;
      })
unfolding handle_user_message
handle_user_message-accept s m r e e' ds there accepts =
    rw (accept_message-not_proxying e e' m ds accepts)
      (call_method-there s r there _ (accept_on_io_thread-lock e e' m ds accepts))

-- A user message without endpoints, whose target is registered here, not locked and named so: if the
-- target accepts it, as `Endpoint::AcceptMessage` has it, then `OnReceivedUserMessage` does just that,
-- releases the target's lock and posts what the target posts.
pub on_received_user_message-accept_message :
    (s : Process) (m : Message) (r : Ref) (e e' : Endpoint) (ds : List Dispatch)
    → find (target_endpoint m) s.local_endpoints ≡ some r
    → get_elem? s.heap r ≡ some e
    → e.name ≡ target_endpoint m
    → e.lock ≡ false
    → get_endpoint_descriptors m ≡ ok []
    → accept_message e m ≡ ok (e', ds)
    → on_received_user_message m s
      ≡ done tt (record s {
        heap = set s.heap r (record e' { lock = false });
        tasks = s.tasks ++ map dispatch ds;
      })
unfolding on_received_user_message handle_user_message
on_received_user_message-accept_message s m r e e' ds found there named free none_carried accepts =
    let locked : Endpoint = record e { lock = true } in
    let s₁ : Process = with_endpoint s r locked in
    let there₁ = there-set s.heap r locked there in
    let s₂ : Process = record s {
      heap = set (set s.heap r locked) r (record e' { lock = true });
      tasks = s.tasks ++ map dispatch ds;
    } in
    let there₂ = there-set s₁.heap r (record e' { lock = true }) there₁ in
    step _ (or_fail-some s _ found) (
      step _ (deref-there s r there) (
        step _
          (require-true s (bytes_eq (target_endpoint m) e.name) ((bytes_eq_iff _ _).1 (sym named)))
          (step _ (lock-there s r there free) (
            step _ (lift-ok s₁ none_carried) (
              step _ (deref-there s₁ r there₁) (
                step _ (handle_user_message-accept s₁ m r e e' ds there₁ accepts) (
                  unlock-there s₂ r there₂
                  ∙ ap (λ h. done tt (record s { heap = h; tasks = s.tasks ++ map dispatch ds }))
                      (set-set (set s.heap r locked) r _ _ ∙ set-set s.heap r locked _))))))))
