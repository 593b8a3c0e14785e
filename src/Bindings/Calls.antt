-- ===== src/Bindings/Calls.antt =====
-- Calls through a generated proxy of mage/public/parser/classes.tmpl, on a handle whose other end is in the
-- same process: the messages wait there, one for each call.
use mathlib.Core.List.{append-nil, append_assoc}
use mage.Base.{
  ℕ, ◌^◌, ◌<◌, ◌≡◌, refl, sym, ap, subst, ◌∙◌, true, List, [], ◌∷◌, some, arith, set, All, ◌≢◌,
  get_elem?-set_ne,
}
use mage.Base.Result.{ok}
use mage.Message.{Message, MessagePipe, EndpointDescriptor, set_target_endpoint}
use mage.Message.Descriptors.{located}
use mage.Endpoint.{Endpoint}
use mage.Process.{Process, Ref, M, done, pure, ◌>>◌}
use mage.Process.Exact.{step, set-same, set-set}
use mage.Api.Pipe.{
  IsPlain, LeadsTo, with_queued, with_queued_at, send_message-queues, LeadsTo-queued,
}
use mage.Magen.{MagenType, native, string, message_pipe, Arguments, Method, count_handles}
use mage.Magen.Holds.{handles_of, HasBits}
use mage.Magen.Read.{recovered}
use mage.Magen.Proxy.{Proxy, call}
use mage.Magen.Stub.{Invocation, dispatch_to}
use mage.Magen.Write.{IsSendable, IsCarrier, Described, nothing, also}
use mage.Magen.Serialize.{Serialized, serialize-Serialized, serialized_size}
use mage.Magen.RoundTrip.{IsFirst, Serialized-invoked}

pub record RemoteCall : Type 0 where
  pub method : Method
  pub arguments : Arguments method.types

-- The calls one after the other.
unfoldable pub call_all : Proxy → List RemoteCall → M (Unit {0})
unfolding call
call_all proxy [] = pure tt
call_all proxy (c ∷ cs) = do call proxy c.method c.arguments; call_all proxy cs

-- A call of a method of the interface, without handles, that fits in a message.
pub record IsCall (interface : List Method) (c : RemoteCall) : Type 0 where
  pub first : IsFirst c.method interface
  pub known : c.method.id < 2 ^ 31
  pub bits : HasBits c.method.types c.arguments
  pub alone : count_handles c.method.types ≡ 0
  pub small : serialized_size c.method.types c.arguments < 2 ^ 31

abbrev pub invocation : ℕ → RemoteCall → Invocation
invocation impl c = record { impl = impl; method = c.method; arguments = c.arguments }

-- For each call the message with which it is made, for whatever implementation.
abbrev pub Carries : List Method → List RemoteCall → List Message → Type 0
Carries interface [] [] = Unit
Carries interface [] (m ∷ ms) = ⊥
Carries interface (c ∷ cs) [] = ⊥
Carries interface (c ∷ cs) (m ∷ ms) =
    ((impl : ℕ) → dispatch_to interface (some impl) m ≡ ok (invocation impl c))
    × Carries interface cs ms

recovered-nothing :
    (ts : List MagenType) (arguments : Arguments ts) → recovered ts arguments [] ≡ arguments
recovered-nothing [] arguments = refl
recovered-nothing (native t ∷ ts) (a, arguments) =
    ap (λ rest. (a, rest)) (recovered-nothing ts arguments)
recovered-nothing (string ∷ ts) (a, arguments) =
    ap (λ rest. (a, rest)) (recovered-nothing ts arguments)
recovered-nothing (message_pipe ∷ ts) (a, arguments) =
    ap (λ rest. (a, rest)) (recovered-nothing ts arguments)

handles_of-nothing :
    (ts : List MagenType) (arguments : Arguments ts)
    → count_handles ts ≡ 0
    → handles_of ts arguments ≡ []
unfolding count_handles
handles_of-nothing [] arguments h = refl
handles_of-nothing (native t ∷ ts) (a, arguments) h = handles_of-nothing ts arguments h
handles_of-nothing (string ∷ ts) (a, arguments) h = handles_of-nothing ts arguments h
handles_of-nothing (message_pipe ∷ ts) (a, arguments) h = absurd (omega (arith, h))

Described-nothing :
    {heap : List Endpoint} {table : List (MessagePipe × Ref)} {draw : ℕ → ℕ} {i j : ℕ}
    {hs : List MessagePipe} {ds : List EndpointDescriptor}
    → Described heap table draw i j hs ds
    → hs ≡ []
    → ds ≡ []
Described-nothing nothing e = refl
Described-nothing (also h n c p q named rest) e = cc

LeadsTo-drawn :
    (t : Process) (h : MessagePipe) (r : Ref) (e : Endpoint) (drawn : ℕ)
    → LeadsTo t h r e
    → LeadsTo (record t { drawn = drawn }) h r e
LeadsTo-drawn t h r e drawn l = record {
  sender = l.sender;
  sending = l.sending;
  handled = l.handled;
  there = l.there;
  other = l.other;
  target = l.target;
  named = l.named;
  found = l.found;
  apart = l.apart;
  peer = l.peer;
  valid = l.valid;
  queueing = l.queueing;
  free = l.free;
}

Serialized-IsPlain :
    (t : Process) (c : RemoteCall) (h : MessagePipe)
    → (z : Serialized t c.method c.arguments h) → count_handles c.method.types ≡ 0
    → IsPlain z.message
Serialized-IsPlain t c h z alone =
    let none_described =
      Described-nothing z.described (handles_of-nothing c.method.types c.arguments alone) in
    record {
      whole = omega (arith, z.long);
      typed = z.typed;
      alone = z.attached.1 ∙ ap (λ ds. ok (located z.attached.0 ds)) none_described;
    }

-- What one call leaves.
record Called (interface : List Method) (t : Process) (h : MessagePipe) (r : Ref) (e : Endpoint)
    (c : RemoteCall) : Type 0 where
  drawn : ℕ
  message : Message
  ran :
      call (record { bound = true; local_handle = h }) c.method c.arguments t
      ≡ done tt (with_queued_at (record t { drawn = drawn }) r e (message ∷ []))
  carries : (impl : ℕ) → dispatch_to interface (some impl) message ≡ ok (invocation impl c)

call-Called :
    (interface : List Method) (t : Process) (h : MessagePipe) (r : Ref) (e : Endpoint)
    (c : RemoteCall)
    → LeadsTo t h r e
    → IsCarrier t h
    → IsCall interface c
    → Called interface t h r e c
unfolding call set_target_endpoint
call-Called interface t h r e c l carrier good =
    let no_handles = handles_of-nothing c.method.types c.arguments good.alone in
    let z =
      serialize-Serialized t c.method c.arguments h carrier
        (subst (All (IsSendable t)) (sym no_handles) tt) good.bits good.known good.small in
    let sent : Message = set_target_endpoint z.message e.name in
    record {
      drawn = z.drawn;
      message = sent;
      ran = step _ z.ran (
          send_message-queues (record t { drawn = z.drawn }) h r e z.message
            (LeadsTo-drawn t h r e z.drawn l) (Serialized-IsPlain t c h z good.alone));
      carries = λ impl.
          ap (λ pipes. dispatch_to interface (some impl) (record sent { pipes = pipes })) z.pipes
          ∙ Serialized-invoked t interface c.method c.arguments h impl e.name [] z good.first
              l.named (sym good.alone)
          ∙ ap (λ a. ok (record { impl = impl; method = c.method; arguments = a }))
              (recovered-nothing c.method.types c.arguments);
    }

-- What several calls leave.
pub record CalledAll (interface : List Method) (t : Process) (h : MessagePipe) (r : Ref)
    (e : Endpoint) (cs : List RemoteCall) : Type 0 where
  pub drawn : ℕ
  pub messages : List Message
  pub ran :
      call_all (record { bound = true; local_handle = h }) cs t
      ≡ done tt (with_queued_at (record t { drawn = drawn }) r e messages)
  pub carries : Carries interface cs messages

pub call_all-CalledAll :
    (interface : List Method) (t : Process) (h : MessagePipe) (r : Ref) (e : Endpoint)
    (cs : List RemoteCall)
    → LeadsTo t h r e
    → (carrier : IsCarrier t h) → r ≢ carrier.ref
    → All (IsCall interface) cs
    → CalledAll interface t h r e cs
unfolding call_all
call_all-CalledAll interface t h r e [] l carrier other good = record {
  drawn = t.drawn;
  messages = [];
  ran =
      ap (λ heap. done tt (record t { heap = heap }))
        (sym (set-same t.heap r e l.peer)
          ∙ ap (λ q. set t.heap r (record e { incoming_message_queue = q }))
              (sym (append-nil e.incoming_message_queue)));
  carries = tt;
}
call_all-CalledAll interface t h r e (c ∷ cs) l carrier other (good, rest) =
    let one = call-Called interface t h r e c l carrier good in
    let t' : Process = record t { drawn = one.drawn } in
    let first : List Message = one.message ∷ [] in
    let carrier' : IsCarrier (with_queued_at t' r e first) h = record {
      ref = carrier.ref;
      endpoint = carrier.endpoint;
      handled = carrier.handled;
      there = get_elem?-set_ne t.heap r carrier.ref _ other ∙ carrier.there;
      direct = carrier.direct;
    } in
    let more =
      call_all-CalledAll interface (with_queued_at t' r e first) h r (with_queued e first) cs
        (LeadsTo-queued t' h r e first (LeadsTo-drawn t h r e one.drawn l)) carrier' other rest in
    record {
      drawn = more.drawn;
      messages = one.message ∷ more.messages;
      ran = step _ one.ran (
          more.ran
          ∙ ap (λ heap. done tt (record t { drawn = more.drawn; heap = heap }))
              (set-set t.heap r _ _
                ∙ ap (λ q. set t.heap r (record e { incoming_message_queue = q }))
                    (append_assoc e.incoming_message_queue first more.messages)));
      carries = (one.carries, more.carries);
    }
