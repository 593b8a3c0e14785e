-- ===== src/Endpoint/Fifo.antt =====
-- The promise of an endpoint of mage/core/endpoint.cc: it hands its messages to its delegate in the
-- order in which it accepted them, and loses none.
use mathlib.Core.List.{append-nil, append_assoc}
use mage.Base.{◌≡◌, refl, sym, ap, ◌∙◌, true, List, [], ◌∷◌, ◌++◌, arith, inl, inr}
use mage.Base.Result.{Result, ok, ◌>>=◌, >>=-ok, Result-cases}
use mage.Message.{Message}
use mage.Endpoint.{
  Endpoint, bound, Delegate, TaskRunner, Dispatch, accept_message, accept_in, posted,
  post_message_to_delegate, register_delegate, post_queued_messages, deliver_queued, lock_endpoint,
  unlock_endpoint,
}

-- What may happen to an endpoint that stays in its node.
pub data Call : Type 0 where
  accepts : Message → Call
  registers : Delegate → TaskRunner → Call

unfoldable pub call : Endpoint → Call → Result (Endpoint × List Dispatch)
unfolding accept_message register_delegate
call e (accepts m) = accept_message e m
call e (registers d r) = register_delegate e d r

-- The endpoint after a history of calls, and all that it posted.
unfoldable pub run : Endpoint → List Call → Result (Endpoint × List Dispatch)
unfolding call
run e [] = ok (e, [])
run e (c ∷ cs) = do (e', tasks) ← call e c; (e'', later) ← run e' cs; ok (e'', tasks ++ later)

abbrev pub accepted : List Call → List Message
accepted [] = []
accepted (accepts m ∷ cs) = m ∷ accepted cs
accepted (registers d r ∷ cs) = accepted cs

abbrev pub delivered : List Dispatch → List Message
delivered [] = []
delivered (t ∷ ts) = t.message ∷ delivered ts

delivered-append : (ts us : List Dispatch) → delivered (ts ++ us) ≡ delivered ts ++ delivered us
delivered-append [] us = refl
delivered-append (t ∷ ts) us = ap (◌∷◌ t.message) (delivered-append ts us)

-- A bound endpoint queues nothing.
abbrev pub IsDrained : Endpoint → Type 0
IsDrained e = e.state ≡ bound → e.incoming_message_queue ≡ []

post_message_to_delegate-message :
    (e : Endpoint) (m : Message) (task : Dispatch)
    → post_message_to_delegate e m ≡ ok task
    → task.message ≡ m
unfolding post_message_to_delegate posted
post_message_to_delegate-message e m task h = ground arith

post_queued-delivered :
    (e : Endpoint) (ms : List Message) (tasks : List Dispatch)
    → post_queued_messages e ms ≡ ok tasks
    → delivered tasks ≡ ms
unfolding post_queued_messages
post_queued-delivered e [] tasks h = ground arith
post_queued-delivered e (m ∷ ms) tasks h =
    let (task, posts, h') = >>=-ok _ _ h in
    let (rest, posts_rest, made) = >>=-ok _ _ h' in
    ground (
      arith,
      post_message_to_delegate-message e m task posts,
      post_queued-delivered e ms rest posts_rest,
    )

accept-fifo :
    (e e' : Endpoint) (m : Message) (tasks : List Dispatch)
    → IsDrained e
    → accept_message e m ≡ ok (e', tasks)
    → (delivered tasks ++ e'.incoming_message_queue ≡ e.incoming_message_queue ++ m ∷ [])
      × IsDrained e'
unfolding accept_message accept_in post_message_to_delegate posted
accept-fifo e e' m tasks dr h = (ground arith, λ b. ground arith)

deliver_queued-fifo :
    (e e' : Endpoint) (tasks : List Dispatch)
    → deliver_queued e ≡ ok (e', tasks)
    → (delivered tasks ≡ e.incoming_message_queue) × (e'.incoming_message_queue ≡ [])
unfolding deliver_queued
deliver_queued-fifo e e' tasks h =
    let (posts, posted, made) = >>=-ok _ _ h in
    ground (arith, post_queued-delivered e e.incoming_message_queue posts posted)

register-fifo :
    (e e' : Endpoint) (d : Delegate) (r : TaskRunner) (tasks : List Dispatch)
    → register_delegate e d r ≡ ok (e', tasks)
    → (delivered tasks ++ e'.incoming_message_queue ≡ e.incoming_message_queue)
      × (e'.incoming_message_queue ≡ [])
unfolding register_delegate lock_endpoint unlock_endpoint
register-fifo e e' d r tasks h =
    let e'' : Endpoint = record e {
      state = bound;
      delegate = d;
      delegate_task_runner = r;
      lock = true;
    } in
    elim (Result-cases (deliver_queued e'')) [
      | inl ((e₁, ts), made) ↦
          ground (arith, made, deliver_queued-fifo e'' e₁ ts made, append-nil (delivered ts))
      | inr (f, failed) ↦ ground (arith, failed)
    ]

call-fifo :
    (e e' : Endpoint) (c : Call) (tasks : List Dispatch)
    → IsDrained e
    → call e c ≡ ok (e', tasks)
    → (delivered tasks ++ e'.incoming_message_queue ≡ e.incoming_message_queue ++ accepted (c ∷ []))
      × IsDrained e'
unfolding call
call-fifo e e' (accepts m) tasks dr h = accept-fifo e e' m tasks dr h
call-fifo e e' (registers d r) tasks dr h =
    let (f, q) = register-fifo e e' d r tasks h in (f ∙ sym (append-nil _), λ _. q)

accepted-cons : (c : Call) (cs : List Call) → accepted (c ∷ cs) ≡ accepted (c ∷ []) ++ accepted cs
accepted-cons (accepts m) cs = refl
accepted-cons (registers d r) cs = refl

-- Two stretches of a history one after the other.
stretch-append :
    (d₁ d₂ q q₁ q₂ a b : List Message)
    → d₁ ++ q₁ ≡ q ++ a
    → d₂ ++ q₂ ≡ q₁ ++ b
    → (d₁ ++ d₂) ++ q₂ ≡ q ++ (a ++ b)
stretch-append d₁ d₂ q q₁ q₂ a b e f =
    append_assoc d₁ d₂ q₂
    ∙ ap (◌++◌ d₁) f
    ∙ sym (append_assoc d₁ q₁ b)
    ∙ ap (λ l. l ++ b) e
    ∙ append_assoc q a b

-- An endpoint queues nothing if it is bound. Over any history of accepted messages and registrations that
-- it survives, what it posted to its delegate followed by what it still queues is what it queued at first
-- followed by all messages that it accepted since, in the order in which it accepted them; and it still
-- queues nothing if it is bound.
pub run-fifo :
    (e e' : Endpoint) (cs : List Call) (tasks : List Dispatch)
    → IsDrained e
    → run e cs ≡ ok (e', tasks)
    → (delivered tasks ++ e'.incoming_message_queue ≡ e.incoming_message_queue ++ accepted cs)
      × IsDrained e'
unfolding run
run-fifo e e' [] tasks dr h =
    rw (append-nil e.incoming_message_queue) (ground arith, λ b. ground arith)
run-fifo e e' (c ∷ cs) tasks dr h =
    let ((e₁, first), called, h') = >>=-ok _ _ h in
    let ((e₂, later), ran, made) = >>=-ok _ _ h' in
    let (f, dr₁) = call-fifo e e₁ c first dr called in
    let (g, dr₂) = run-fifo e₁ e₂ cs later dr₁ ran in
    let same : e₂ ≡ e' = cc made in
    let joined : first ++ later ≡ tasks = cc made in
    rw (← joined, ← same, delivered-append first later, accepted-cons c cs)
      (stretch-append _ _ _ _ _ (accepted (c ∷ [])) (accepted cs) f g, dr₂)
