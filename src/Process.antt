-- ===== src/Process.antt =====
-- The state of one process: the global `Core` (mage/core/core.h), its `Node` (mage/core/node.h), the
-- endpoints that both share, and what the process has handed to the world outside. An action of the
-- program is a function from a state to a result and the next state.
pub mod Sound
pub mod Heap
pub mod Laws
pub mod Exact
pub mod Invariant
pub mod Locks
pub mod Live
pub mod Framed
use mage.Base.{
  ℕ, suc, ◌+◌, ◌≡◌, Bool, true, false, List, [], ◌∷◌, ◌++◌, Option, none, some, if◌then◌else◌,
  get_elem?, set, length,
}
use mage.Base.Result.{Fault, Result, ok, crash, check_failed}
use mage.Bytes.{Bytes}
use mage.Message.{Name, Message, MessagePipe}
use mage.Endpoint.{Endpoint, Dispatch}

-- A `std::shared_ptr<Endpoint>`: the place of the endpoint among those made so far.
abbrev pub Ref : Type 0
Ref = ℕ

-- A file descriptor, for the `Channel` that owns it.
abbrev pub Fd : Type 0
Fd = ℕ

abbrev pub Callback : Type 0
Callback = ℕ

-- What the process posts to a task runner.
pub data Task : Type 0 where
  dispatch : Dispatch → Task
  invitation_accepted : Callback → Task
  accepted_invitation : Callback → MessagePipe → Task

-- Code that is not mage's: what the random distribution returns at each draw, and what `write`
-- returns for these bytes after all that was written before.
pub record World : Type 0 where
  pub draw : ℕ → ℕ
  pub write : List (Fd × Bytes) → Fd → Bytes → ℕ

pub record Process : Type 0 where
  pub heap : List Endpoint
  -- `Core`
  pub handle_table : List (MessagePipe × Ref)
  pub next_available_handle : MessagePipe
  pub remote_has_accepted_invitation_callback : Option Callback
  pub finished_accepting_invitation_callback : Option Callback
  -- `Node`
  pub name : Name
  pub has_accepted_invitation : Bool
  pub local_endpoints : List (Name × Ref)
  pub node_channel_map : List (Name × Fd)
  pub pending_invitations : List (Name × Ref)
  -- Effects: posted tasks, written bytes and watched sockets, the oldest first.
  pub tasks : List Task
  pub sent : List (Fd × Bytes)
  pub watched : List Fd
  -- The draws made so far.
  pub drawn : ℕ
  pub world : World

-- What an action ends in; `out_of_fuel` is a loop of the model that was given too few rounds.
pub data Outcome (A : Type 0) : Type 0 where
  done : A → Process → Outcome A
  crashed : Fault → Outcome A
  out_of_fuel : Outcome A

abbrev pub M : Type 0 → Type 0
M A = Process → Outcome A

abbrev pub pure : {A : Type 0} → A → M A
pure = done

abbrev pub fail : {A : Type 0} → Fault → M A
fail f s = crashed f

-- A result of code that does not touch the state.
abbrev pub lift : {A : Type 0} → Result A → M A
lift (ok a) s = done a s
lift (crash f) s = crashed f

abbrev pub gets : {A : Type 0} → (Process → A) → M A
gets f s = done (f s) s

abbrev pub modify : (Process → Process) → M (Unit {0})
modify f s = done tt (f s)

module _ {A B : Type 0} where
  abbrev pub and_then : Outcome A → (A → M B) → Outcome B
  and_then (done a s) k = k a s
  and_then (crashed f) k = crashed f
  and_then out_of_fuel k = out_of_fuel

  infixl 5 ◌>>=◌
  abbrev pub ◌>>=◌ : M A → (A → M B) → M B
  ◌>>=◌ m k s = and_then (m s) k

module _ {B : Type 0} where
  infixl 5 ◌>>◌
  abbrev pub ◌>>◌ : M (Unit {0}) → M B → M B
  m >> k = m >>= λ _. k

-- `CHECK`.
abbrev pub require : Bool → M (Unit {0})
require true = pure tt
require false = fail check_failed

-- A look-up that must succeed.
abbrev pub or_fail : {A : Type 0} → Option A → Fault → M A
or_fail none f = fail f
or_fail (some a) f = pure a
