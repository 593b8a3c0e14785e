-- ===== src/Endpoint/Valid.antt =====
-- What holds of an endpoint of mage/core/endpoint.cc between two calls of its methods: the members
-- that its header wants updated together agree with each other.
use mage.Base.{
  ℕ, ◌≡◌, refl, ap, ◌∙◌, true, false, List, [], ◌∷◌, ◌++◌, Option, none, some, arith, inl, inr,
}
use mage.Base.Result.{ok, crash, check_failed, Result-cases}
use mage.Message.{Message, Name}
use mage.Endpoint.{
  Endpoint, Address, bound, unbound_and_queueing, unbound_and_proxying, Delegate, TaskRunner,
  Dispatch, new_endpoint, state_eq, is_assigned, accept_message, accept_message_on_io_thread,
  accept_in, posted, post_message_to_delegate, register_delegate, post_queued_messages,
  deliver_queued, lock_endpoint, unlock_endpoint,
}

-- A bound endpoint has a delegate and a task runner, and queues nothing; any other has neither.
pub record IsValid (e : Endpoint) : Type 0 where
  pub served : is_assigned e.delegate ≡ state_eq e.state bound
  pub runs : is_assigned e.delegate_task_runner ≡ state_eq e.state bound
  pub queues : e.state ≡ bound → e.incoming_message_queue ≡ []

pub new_endpoint-IsValid : (name : Name) (peer : Address) → IsValid (new_endpoint name peer)
new_endpoint-IsValid name peer = record { served = refl; runs = refl; queues = λ h. refl }

-- What a valid endpoint makes of a message: it queues it, posts it, or fails a CHECK.
pub accept_message_queueing :
    (e : Endpoint) (m : Message)
    → IsValid e
    → e.state ≡ unbound_and_queueing
    → accept_message e m
      ≡ ok (record e { incoming_message_queue = e.incoming_message_queue ++ m ∷ [] }, [])
unfolding accept_message
accept_message_queueing e m v s = ground (arith, v.served)

is_assigned-some : (o : Option ℕ) → is_assigned o ≡ true → (n : ℕ) × (o ≡ some n)
is_assigned-some none h = cc
is_assigned-some (some n) h = (n, refl)

-- A posted task carries the message, and names the delegate and the runner that it was posted for.
pub record Serves (d : Delegate) (r : TaskRunner) (m : Message) (task : Dispatch) : Type 0 where
  pub message : task.message ≡ m
  pub receiver : d ≡ some task.receiver
  pub runner : r ≡ some task.runner

pub post_message_to_delegate_bound :
    (e : Endpoint) (m : Message)
    → e.state ≡ bound
    → is_assigned e.delegate ≡ true
    → is_assigned e.delegate_task_runner ≡ true
    → (task : Dispatch) × (post_message_to_delegate e m ≡ ok task)
      × Serves e.delegate e.delegate_task_runner m task
unfolding post_message_to_delegate posted
post_message_to_delegate_bound e m s d r =
    let (receiver, de) = is_assigned-some e.delegate d in
    let (runner, re) = is_assigned-some e.delegate_task_runner r in
    (
      record { runner = runner; receiver = receiver; message = m },
      ground arith,
      record { message = refl; receiver = de; runner = re },
    )

pub accept_message_bound :
    (e : Endpoint) (m : Message)
    → IsValid e
    → e.state ≡ bound
    → (task : Dispatch) × (accept_message e m ≡ ok (e, task ∷ []))
      × Serves e.delegate e.delegate_task_runner m task
unfolding accept_message accept_in
accept_message_bound e m v s =
    let (task, posts, serves) =
      post_message_to_delegate_bound e m s (ground (arith, v.served)) (ground (arith, v.runs)) in
    (task, ground (arith, v.served, posts), serves)

pub accept_message_proxying :
    (e : Endpoint) (m : Message)
    → e.state ≡ unbound_and_proxying
    → accept_message e m ≡ crash check_failed
unfolding accept_message
accept_message_proxying e m s = ground arith

-- The loop of `RegisterDelegate` posts every queued message, in order.
abbrev pub AllServed : Delegate → TaskRunner → List Message → List Dispatch → Type 0
AllServed d r [] [] = Unit
AllServed d r [] (t ∷ ts) = ⊥
AllServed d r (m ∷ ms) [] = ⊥
AllServed d r (m ∷ ms) (t ∷ ts) = Serves d r m t × AllServed d r ms ts

pub post_queued_messages_bound :
    (e : Endpoint) (ms : List Message)
    → e.state ≡ bound
    → is_assigned e.delegate ≡ true
    → is_assigned e.delegate_task_runner ≡ true
    → (tasks : List Dispatch) × (post_queued_messages e ms ≡ ok tasks)
      × AllServed e.delegate e.delegate_task_runner ms tasks
unfolding post_queued_messages
post_queued_messages_bound e [] s d r = ([], refl, tt)
post_queued_messages_bound e (m ∷ ms) s d r =
    let (task, posts, serves) = post_message_to_delegate_bound e m s d r in
    let (tasks, rest, served) = post_queued_messages_bound e ms s d r in
    (task ∷ tasks, rw (posts, rest) refl, (serves, served))

deliver_queued-ok :
    (e : Endpoint) {tasks : List Dispatch}
    → post_queued_messages e e.incoming_message_queue ≡ ok tasks
    → deliver_queued e ≡ ok (record e { incoming_message_queue = [] }, tasks)
unfolding deliver_queued
deliver_queued-ok e posts = rw posts refl

-- `RegisterDelegate` on a valid, unlocked, queueing endpoint binds it and hands the delegate, on its task
-- runner, every message that was queued, in order and each once; afterwards the queue is empty and the
-- endpoint unlocked and valid.
pub register_delegate_lem :
    (e : Endpoint) (receiver runner : ℕ)
    → IsValid e
    → e.state ≡ unbound_and_queueing
    → e.lock ≡ false
    → let e' : Endpoint = record e {
      state = bound;
      delegate = some receiver;
      delegate_task_runner = some runner;
      incoming_message_queue = [];
    } in
      (tasks : List Dispatch) × (register_delegate e (some receiver) (some runner) ≡ ok (e', tasks))
      × AllServed (some receiver) (some runner) e.incoming_message_queue tasks
      × IsValid e'
unfolding register_delegate lock_endpoint unlock_endpoint
register_delegate_lem e receiver runner v s free =
    let idle : state_eq e.state bound ≡ false = ap (λ st. state_eq st bound) s in
    let e'' : Endpoint = record e {
      state = bound;
      delegate = some receiver;
      delegate_task_runner = some runner;
      lock = true;
    } in
    let (tasks, posts, served) =
      post_queued_messages_bound e'' e.incoming_message_queue refl refl refl in
    (
      tasks,
      rw (free, s, v.served ∙ idle, v.runs ∙ idle, deliver_queued-ok e'' posts) refl,
      served,
      record { served = refl; runs = refl; queues = λ _. refl },
    )

-- The methods keep an endpoint valid, and its name.
pub accept_message-IsValid :
    (e e' : Endpoint) (m : Message) (tasks : List Dispatch)
    → IsValid e
    → accept_message e m ≡ ok (e', tasks)
    → IsValid e' × (e'.name ≡ e.name)
unfolding accept_message accept_in
accept_message-IsValid e e' m tasks v h = (
  record {
    served = ground (arith, v.served);
    runs = ground (arith, v.runs);
    queues = λ b. ground (arith, v.queues);
  },
  ground arith,
)

pub register_delegate-IsValid :
    (e e' : Endpoint) (receiver runner : ℕ) (tasks : List Dispatch)
    → IsValid e
    → register_delegate e (some receiver) (some runner) ≡ ok (e', tasks)
    → IsValid e' × (e'.name ≡ e.name)
unfolding register_delegate lock_endpoint unlock_endpoint deliver_queued
register_delegate-IsValid e e' receiver runner tasks v h =
    let e'' : Endpoint = record e {
      state = bound;
      delegate = some receiver;
      delegate_task_runner = some runner;
      lock = true;
    } in
    elim (Result-cases (post_queued_messages e'' e.incoming_message_queue)) [
      | inl (ts, made) ↦ (
        record {
          served = ground (arith, made);
          runs = ground (arith, made);
          queues = λ b. ground (arith, made);
        },
        ground (arith, made),
      )
      | inr (f, failed) ↦ absurd (ground (arith, failed))
    ]

pub accept_on_io_thread-accept_message :
    (e : Endpoint) (m : Message) (out : Endpoint × List Dispatch)
    → accept_message_on_io_thread e m ≡ ok out
    → accept_message e m ≡ ok out
unfolding accept_message_on_io_thread
accept_on_io_thread-accept_message e m out h = ground arith
