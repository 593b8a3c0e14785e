-- ===== src/Endpoint/Locked.antt =====
-- The methods of mage/core/endpoint.cc while the node holds the endpoint's lock.
use mage.Base.{◌≡◌, ap, ◌∙◌, true, false, not, List, arith}
use mage.Base.Result.{ok}
use mage.Message.{Message}
use mage.Endpoint.{
  Endpoint, Dispatch, unbound_and_proxying, state_eq, accept_message, accept_message_on_io_thread,
  accept_in, post_message_to_delegate, posted, check,
}

-- An endpoint accepts a message while its lock is held as it does otherwise.
pub accept_message-lock :
    (e e' : Endpoint) (m : Message) (ds : List Dispatch)
    → accept_message e m ≡ ok (e', ds)
    → accept_message (record e { lock = true }) m ≡ ok (record e' { lock = true }, ds)
unfolding accept_message accept_in post_message_to_delegate posted
accept_message-lock e e' m ds h = ground arith

pub accept_message-not_proxying :
    (e e' : Endpoint) (m : Message) (ds : List Dispatch)
    → accept_message e m ≡ ok (e', ds)
    → state_eq e.state unbound_and_proxying ≡ false
unfolding accept_message
accept_message-not_proxying e e' m ds h = ground arith

pub accept_on_io_thread-lock :
    (e e' : Endpoint) (m : Message) (ds : List Dispatch)
    → accept_message e m ≡ ok (e', ds)
    → accept_message_on_io_thread (record e { lock = true }) m ≡ ok (record e' { lock = true }, ds)
unfolding accept_message_on_io_thread
accept_on_io_thread-lock e e' m ds h =
    ap (λ b. check (not b) (accept_message (record e { lock = true }) m))
      (accept_message-not_proxying e e' m ds h)
    ∙ accept_message-lock e e' m ds h
