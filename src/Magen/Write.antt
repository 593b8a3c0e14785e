-- ===== src/Magen/Write.antt =====
-- A generated proxy of mage/public/parser/classes.tmpl writes the arguments of a call into a message.
use mage.Util.{random_identifier}
use mage.Util.Laws.{length-random_identifier}
use mage.Base.{
  ℕ, ◌+◌, ◌^◌, ◌≤◌, ◌<◌, ◌≡◌, refl, ap, ◌∙◌, false, not, List, [], ◌∷◌, ◌++◌, some, get_elem?,
  arith, length, All,
}
use mage.Bytes.{Bytes, memcpy, write_int}
use mage.Bytes.Laws.{length-memcpy, length-write_int, read-write_int}
use mage.Message.{Message, MessagePipe, EndpointDescriptor, descriptor_bytes}
use mage.Message.Descriptors.{IsNamed, length-descriptor_bytes}
use mage.Map.{find, pipe_key}
use mage.Endpoint.{Endpoint, state_eq, unbound_and_proxying}
use mage.Process.{Process, Outcome, Ref, done}
use mage.Process.Heap.{fresh_identifier}
use mage.Process.Exact.{step, or_fail-some, require-true, lift-ok, deref-there}
use mage.Core.{populate_endpoint_descriptor, endpoint_of_handle}
use mage.Magen.{
  MagenType, native, string, message_pipe, native_size, Argument, Arguments, field_size, field_at,
  fields_end,
}
use mage.Magen.Strings.{
  string_bytes, length-string_bytes, Keeps-string_bytes, Holds-string_bytes, write_string-ok,
}
use mage.Magen.Layout.{field_at-le, fields_end-le}
use mage.Magen.Holds.{
  Keeps, HoldsArgument, Holds, handle_of, handles_of, string_size, strings_size, HasBitsOf, HasBits,
  Keeps-trans, Keeps-lower, Keeps-memcpy, Keeps-write_int, HoldsArgument-Keeps,
}
use mage.Magen.Proxy.{write_argument, write_arguments}

-- A handle leads to an endpoint, whose names are names of 15 bytes.
pub record Sendable (heap : List Endpoint) (table : List (MessagePipe × Ref)) (handle : MessagePipe)
    : Type 0 where
  pub ref : Ref
  pub endpoint : Endpoint
  pub handled : find handle table ≡ some ref
  pub there : get_elem? heap ref ≡ some endpoint
  pub named : length endpoint.name ≡ 15
  pub peer_node : length endpoint.peer_address.node_name ≡ 15
  pub peer_endpoint : length endpoint.peer_address.endpoint_name ≡ 15

-- A handle leads to an endpoint that is no proxy.
pub record Carrier (heap : List Endpoint) (table : List (MessagePipe × Ref)) (handle : MessagePipe)
    : Type 0 where
  pub ref : Ref
  pub endpoint : Endpoint
  pub handled : find handle table ≡ some ref
  pub there : get_elem? heap ref ≡ some endpoint
  pub direct : state_eq endpoint.state unbound_and_proxying ≡ false

abbrev pub IsSendable : Process → MessagePipe → Type 0
IsSendable s = Sendable s.heap s.handle_table

abbrev pub IsCarrier : Process → MessagePipe → Type 0
IsCarrier s = Carrier s.heap s.handle_table

-- The descriptors of the endpoints behind these handles, in their order, each with a name that is drawn for
-- it; the draws from `from` to `to` are made for them.
pub data Described (heap : List Endpoint) (table : List (MessagePipe × Ref)) (draw : ℕ → ℕ)
    : (from to : ℕ) → List MessagePipe → List EndpointDescriptor → Type 0 where
  nothing : {at : ℕ} → Described heap table draw at at [] []
  also :
      {from to : ℕ} {handle : MessagePipe} {handles : List MessagePipe} {d : EndpointDescriptor}
      {ds : List EndpointDescriptor} (sendable : Sendable heap table handle)
      → d.endpoint_name ≡ sendable.endpoint.name
      → d.cross_node_endpoint_name ≡ random_identifier draw from
      → d.peer_node_name ≡ sendable.endpoint.peer_address.node_name
      → d.peer_endpoint_name ≡ sendable.endpoint.peer_address.endpoint_name
      → IsNamed d
      → Described heap table draw (from + 15) to handles ds
      → Described heap table draw from to (handle ∷ handles) (d ∷ ds)

abbrev pub Describes : Process → ℕ → List MessagePipe → List EndpointDescriptor → Type 0
Describes s drawn = Described s.heap s.handle_table s.world.draw s.drawn drawn

-- What the writing of some arguments leaves: the message, the endpoints to write and the draws.
pub record Written (s : Process) (m : Message) (high behind : ℕ) (handles : List MessagePipe)
    (added : ℕ) (Held : Bytes → Type 0)
    (run : Process → Outcome (Message × List EndpointDescriptor)) : Type 0 where
  pub message : Message
  pub endpoints : List EndpointDescriptor
  pub drawn : ℕ
  pub ran : run s ≡ done (message, endpoints) (record s { drawn = drawn })
  pub kept : Keeps 0 high behind m.payload_buffer message.payload_buffer
  pub holds : Held message.payload_buffer
  pub longer : length message.payload_buffer ≡ length m.payload_buffer + added
  pub pipes : message.pipes ≡ m.pipes
  pub described : Describes s drawn handles endpoints

-- What `PopulateEndpointDescriptor` makes of an endpoint.
abbrev pub described_by : Process → Endpoint → EndpointDescriptor
described_by s e = record {
  endpoint_name = e.name;
  cross_node_endpoint_name = random_identifier s.world.draw s.drawn;
  peer_node_name = e.peer_address.node_name;
  peer_endpoint_name = e.peer_address.endpoint_name;
}

populate-runs :
    (s : Process) (handle carrier : MessagePipe) (c : IsCarrier s carrier) (h : IsSendable s handle)
    → populate_endpoint_descriptor handle carrier s
      ≡ done (described_by s h.endpoint) (record s { drawn = s.drawn + 15 })
unfolding populate_endpoint_descriptor endpoint_of_handle fresh_identifier
populate-runs s handle carrier c h = step _ (or_fail-some s _ c.handled) (
    step _ (deref-there s c.ref c.there) (
      step _
        (require-true s (not (state_eq c.endpoint.state unbound_and_proxying)) (ap not c.direct))
        (step _ (or_fail-some s _ h.handled) (step _ (deref-there s h.ref h.there) refl))))

described_by-IsNamed :
    (s : Process) (handle : MessagePipe) (h : IsSendable s handle)
    → IsNamed (described_by s h.endpoint)
described_by-IsNamed s handle h = record {
  endpoint = h.named;
  cross_node_endpoint = length-random_identifier s.world.draw s.drawn;
  peer_node = h.peer_node;
  peer_endpoint = h.peer_endpoint;
}

write_argument-Written :
    (s : Process) (carrier : MessagePipe) (m : Message) (location behind : ℕ) (t : MagenType)
    (a : Argument t)
    → IsCarrier s carrier
    → All (IsSendable s) (handle_of t a)
    → HasBitsOf t a
    → location + field_size t ≤ behind
    → behind ≤ length m.payload_buffer
    → length m.payload_buffer + string_size t a < 2 ^ 31
    → Written s m location behind
        (handle_of t a)
        (string_size t a)
        (λ bs. HoldsArgument bs behind location t a)
        (write_argument t a carrier location m)
unfolding write_argument
write_argument-Written s carrier m location behind (native t) v c sendable fits member front small =
    record {
      message = record m { payload_buffer = write_int m.payload_buffer location (native_size t) v };
      endpoints = [];
      drawn = s.drawn;
      ran = refl;
      kept = Keeps-write_int m.payload_buffer location (native_size t) v behind member;
      holds = read-write_int m.payload_buffer location (native_size t) v (omega arith) fits;
      longer = omega (arith, length-write_int m.payload_buffer location (native_size t) v);
      pipes = refl;
      described = nothing;
    }
write_argument-Written s carrier m location behind string a c sendable fits member front small =
    record {
      message = record m { payload_buffer = string_bytes m.payload_buffer location a };
      endpoints = [];
      drawn = s.drawn;
      ran = step _ (lift-ok s (write_string-ok a location m (omega arith))) refl;
      kept = Keeps-string_bytes m.payload_buffer location a behind member front (omega arith);
      holds = Holds-string_bytes m.payload_buffer location a behind member front (omega arith);
      longer = omega (arith, length-string_bytes m.payload_buffer location a);
      pipes = refl;
      described = nothing;
    }
write_argument-Written s carrier m location behind message_pipe a c (h, _) fits member front small =
    let d = described_by s h.endpoint in
    let named = described_by-IsNamed s a h in
    record {
      message = record m { payload_buffer = memcpy m.payload_buffer location (descriptor_bytes d) };
      endpoints = d ∷ [];
      drawn = s.drawn + 15;
      ran = step _ (populate-runs s a carrier c h) refl;
      kept =
          Keeps-memcpy m.payload_buffer location (descriptor_bytes d) behind
            (omega (arith, length-descriptor_bytes d named));
      holds = tt;
      longer = omega (arith, length-memcpy m.payload_buffer location (descriptor_bytes d));
      pipes = refl;
      described = also h refl refl refl refl named nothing;
    }

Described-append :
    {heap : List Endpoint} {table : List (MessagePipe × Ref)} {draw : ℕ → ℕ} {i j k : ℕ}
    {hs hs' : List MessagePipe} {ds ds' : List EndpointDescriptor}
    → Described heap table draw i j hs ds
    → Described heap table draw j k hs' ds'
    → Described heap table draw i k (hs ++ hs') (ds ++ ds')
Described-append nothing q = q
Described-append (also h e c n p named rest) q = also h e c n p named (Described-append rest q)

All-append_left :
    (P : MessagePipe → Type 0) (xs ys : List MessagePipe) → All P (xs ++ ys) → All P xs
All-append_left P [] ys h = tt
All-append_left P (x ∷ xs) ys h = (h.0, All-append_left P xs ys h.1)

All-append_right :
    (P : MessagePipe → Type 0) (xs ys : List MessagePipe) → All P (xs ++ ys) → All P ys
All-append_right P [] ys h = h
All-append_right P (x ∷ xs) ys h = All-append_right P xs ys h.1

pub write_arguments-Written :
    (s : Process) (carrier : MessagePipe) (m : Message) (params end behind : ℕ)
    (ts : List MagenType) (arguments : Arguments ts)
    → IsCarrier s carrier
    → All (IsSendable s) (handles_of ts arguments)
    → HasBits ts arguments
    → params + fields_end end ts ≤ behind
    → behind ≤ length m.payload_buffer
    → length m.payload_buffer + strings_size ts arguments < 2 ^ 31
    → Written s m
        (params + end)
        behind
        (handles_of ts arguments)
        (strings_size ts arguments)
        (λ bs. Holds bs behind params end ts arguments)
        (write_arguments ts arguments carrier params end m)
unfolding write_arguments fields_end
write_arguments-Written s carrier m params end behind [] arguments c sendable fits member front
      small =
    record {
      message = m;
      endpoints = [];
      drawn = s.drawn;
      ran = refl;
      kept = record { longer = omega arith; slices = λ j n at. refl };
      holds = tt;
      longer = omega arith;
      pipes = refl;
      described = nothing;
    }
write_arguments-Written s carrier m params end behind (t ∷ ts) (a, arguments) c sendable fits member
      front small =
    let next = field_at end t + field_size t in
    let one =
      write_argument-Written s carrier m (params + field_at end t) behind t a c
        (All-append_left _ (handle_of t a) _ sendable) fits.0 (omega (arith, fields_end-le next ts))
        front (omega arith) in
    let s' : Process = record s { drawn = one.drawn } in
    let rest =
      write_arguments-Written s' carrier one.message params next behind ts arguments c
        (All-append_right _ (handle_of t a) _ sendable) fits.1 member (omega (arith, one.longer))
        (omega (arith, one.longer)) in
    record {
      message = rest.message;
      endpoints = one.endpoints ++ rest.endpoints;
      drawn = rest.drawn;
      ran = step _ one.ran (step _ rest.ran refl);
      kept =
          Keeps-trans 0 (params + end) (params + next) behind m.payload_buffer
            one.message.payload_buffer rest.message.payload_buffer
            (omega (arith, field_at-le end t))
            (Keeps-lower (params + end) (params + field_at end t) behind m.payload_buffer
              one.message.payload_buffer (omega (arith, field_at-le end t)) one.kept)
            rest.kept;
      holds = (
        HoldsArgument-Keeps one.message.payload_buffer rest.message.payload_buffer 0 (params + next)
            behind rest.kept (params + field_at end t) t a (omega arith) (omega arith) one.holds,
        rest.holds,
      );
      longer = omega (arith, one.longer, rest.longer);
      pipes = rest.pipes ∙ one.pipes;
      described = Described-append one.described rest.described;
    }
