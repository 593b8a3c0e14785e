-- ===== src/Node/Send/Times.antt =====
-- How often a message occurs in the queues of endpoints and among what was written, whatever its target
-- (mage/core/node.cc changes the target of a message that it forwards).
use mage.Base.{
  ℕ, suc, zero, ◌+◌, ◌≡◌, refl, ap, ◌∙◌, List, [], ◌∷◌, ◌++◌, map, some, arith, length, get_elem?,
  set, replicate, if◌then◌else◌, bytes_eq,
}
use mathlib.Core.Option.{some-injective}
use mage.Bytes.{Bytes, memcpy}
use mage.Message.{Name, Message, set_target_endpoint}
use mage.Map.{name_key}
use mage.Endpoint.{Endpoint}
use mage.Process.{Fd}
use mage.Node.Send.{retarget}

-- The bytes of a message, but for its target.
unfoldable pub blank : Bytes → Bytes
blank bs = memcpy bs 12 (replicate 15 0)

-- How often bytes stand in a list, but for targets.
unfoldable pub times : Bytes → List Bytes → ℕ
unfolding blank
times x [] = 0
times x (b ∷ bs) = (if bytes_eq (blank b) x then 1 else 0) + times x bs

abbrev pub payloads : List Message → List Bytes
payloads = map (λ m. m.payload_buffer)

-- What waits in the endpoints of a process, and what it has written.
abbrev pub waiting : List Endpoint → List Bytes
waiting [] = []
waiting (e ∷ es) = payloads e.incoming_message_queue ++ waiting es

abbrev pub written : List (Fd × Bytes) → List Bytes
written [] = []
written ((fd, b) ∷ sent) = b ∷ written sent

pub zero_times : (x : Bytes) → times x [] ≡ 0
unfolding times
zero_times x = refl

pub times-append : (x : Bytes) (bs cs : List Bytes) → times x (bs ++ cs) ≡ times x bs + times x cs
unfolding times
times-append x [] cs = omega arith
times-append x (b ∷ bs) cs = omega (arith, times-append x bs cs)

pub written-append :
    (sent : List (Fd × Bytes)) (fd : Fd) (b : Bytes)
    → written (sent ++ (fd, b) ∷ []) ≡ written sent ++ b ∷ []
written-append [] fd b = refl
written-append ((gd, c) ∷ sent) fd b = ap (◌∷◌ c) (written-append sent fd b)

pub waiting-set :
    (x : Bytes) (es : List Endpoint) (r : ℕ) (e e' : Endpoint)
    → get_elem? es r ≡ some e
    → times x (waiting (set es r e')) + times x (payloads e.incoming_message_queue)
      ≡ times x (waiting es) + times x (payloads e'.incoming_message_queue)
waiting-set x [] r e e' h = cc
waiting-set x (y ∷ es) zero e e' h = omega (
  arith,
  ap (λ q. times x (payloads q.incoming_message_queue)) (some-injective _ _ h),
  times-append x (payloads y.incoming_message_queue) (waiting es),
  times-append x (payloads e'.incoming_message_queue) (waiting es),
)
waiting-set x (y ∷ es) (suc r) e e' h = omega (
  arith,
  waiting-set x es r e e' h,
  times-append x (payloads y.incoming_message_queue) (waiting (set es r e')),
  times-append x (payloads y.incoming_message_queue) (waiting es),
)

-- A write of as many bytes at the same place covers the first.
memcpy-memcpy :
    (bs : Bytes) (i : ℕ) (src src' : Bytes)
    → length src ≡ length src'
    → memcpy (memcpy bs i src) i src' ≡ memcpy bs i src'
unfolding memcpy
memcpy-memcpy [] i src src' h = refl
memcpy-memcpy (b ∷ bs) zero [] src' h = refl
memcpy-memcpy (b ∷ bs) zero (c ∷ src) [] h = absurd (omega arith)
memcpy-memcpy (b ∷ bs) zero (c ∷ src) (d ∷ src') h =
    ap (◌∷◌ d) (memcpy-memcpy bs zero src src' (omega arith))
memcpy-memcpy (b ∷ bs) (suc i) src src' h = ap (◌∷◌ b) (memcpy-memcpy bs i src src' h)

pub times-retarget :
    (x : Bytes) (name : Name) (ms : List Message)
    → length name ≡ 15
    → times x (payloads (retarget name ms)) ≡ times x (payloads ms)
unfolding times retarget set_target_endpoint blank
times-retarget x name [] named = refl
times-retarget x name (m ∷ ms) named =
    rw (
      memcpy-memcpy m.payload_buffer 12 name (replicate 15 0) named,
      times-retarget x name ms named,
    )

payloads-append : (ms ns : List Message) → payloads (ms ++ ns) ≡ payloads ms ++ payloads ns
payloads-append [] ns = refl
payloads-append (m ∷ ms) ns = ap (◌∷◌ m.payload_buffer) (payloads-append ms ns)

pub times-payloads-append :
    (x : Bytes) (ms ns : List Message)
    → times x (payloads (ms ++ ns)) ≡ times x (payloads ms) + times x (payloads ns)
times-payloads-append x ms ns =
    ap (times x) (payloads-append ms ns) ∙ times-append x (payloads ms) (payloads ns)
