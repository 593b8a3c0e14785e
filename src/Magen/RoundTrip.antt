-- ===== src/Magen/RoundTrip.antt =====
-- What a generated stub of mage/public/parser/classes.tmpl makes of the message of a generated proxy.
use mage.Base.{
  ℕ, ◌+◌, ◌^◌, ◌≤◌, ◌<◌, ◌≡◌, ◌≢◌, refl, sym, ap, ◌∙◌, List, [], ◌∷◌, arith, length, All, some,
}
use mathlib.Core.List.{append-nil}
use mage.Base.Result.{ok}
use mage.Bytes.{memcpy}
use mage.Message.{
  Name, Message, MessagePipe, EndpointDescriptor, message_type, size, user_message_id,
  get_endpoint_descriptors, set_target_endpoint,
}
use mage.Message.Header.{HasHeader, set_target_endpoint_lem}
use mage.Message.Descriptors.{located}
use mage.Process.{Process, done}
use mage.Magen.{Method, Arguments, count_handles, params_size}
use mage.Magen.Layout.{fields_end-le-params_size}
use mage.Magen.Holds.{Holds, handles_of, HasBits, Holds-Keeps}
use mage.Magen.Write.{IsSendable, IsCarrier, Describes}
use mage.Magen.Serialize.{Serialized, serialize-Serialized, serialized_size, Keeps-header}
use mage.Magen.Read.{recovered, read_arguments-recovered, >>=-run}
use mage.Magen.Proxy.{serialize}
use mage.Magen.Stub.{invoke, dispatch_to, read_arguments}

-- The first method with its id.
pub data IsFirst (method : Method) : List Method → Type 0 where
  here : {methods : List Method} → IsFirst method (method ∷ methods)
  later :
      {other : Method} {methods : List Method}
      → method.id ≢ other.id
      → IsFirst method methods
      → IsFirst method (other ∷ methods)

dispatch_to-first :
    (methods : List Method) (method : Method) (impl : ℕ) (m : Message)
    → IsFirst method methods
    → user_message_id m ≡ method.id
    → dispatch_to methods (some impl) m ≡ invoke (some impl) method m
unfolding dispatch_to
dispatch_to-first [] method impl m first known = elim first [ ]
dispatch_to-first (_ ∷ methods) method impl m here known = ground arith
dispatch_to-first (other ∷ methods) method impl m (later apart first) known =
    ground (arith, dispatch_to-first methods method impl m first known)

-- A message of a call, with the recovered pipes behind it, and sent to some endpoint.
abbrev pub arrived : Message → Name → List MessagePipe → Message
arrived m target pipes = record (set_target_endpoint m target) { pipes = pipes }

invoke-arrived :
    (method : Method) (arguments : Arguments method.types) (impl : ℕ) (m : Message) (target : Name)
    (pipes : List MessagePipe)
    → Holds m.payload_buffer (40 + params_size method.types) 40 4 method.types arguments
    → 40 + params_size method.types ≤ length m.payload_buffer
    → length target ≡ 15
    → length pipes ≡ count_handles method.types
    → invoke (some impl) method (arrived m target pipes)
      ≡ ok (record {
        impl = impl;
        method = method;
        arguments = recovered method.types arguments pipes;
      })
unfolding invoke set_target_endpoint
invoke-arrived method arguments impl m target pipes holds long named counted =
    let bs = m.payload_buffer in
    let fits = fields_end-le-params_size method.types in
    let kept =
      Keeps-header bs 12 target (40 + params_size method.types) (40 + params_size method.types)
        (omega arith) (omega arith) in
    let held =
      Holds-Keeps _ _ 40 (40 + params_size method.types) (40 + params_size method.types) kept 40 4
        method.types arguments (omega arith) (omega arith) holds in
    >>=-run _ _
      (ap
          (λ ps.
            unfold read_arguments in
            read_arguments method.types 40 4
              (record { payload_buffer = memcpy bs 12 target; pipes = ps }))
          (sym (append-nil pipes))
        ∙ read_arguments-recovered (memcpy bs 12 target) (40 + params_size method.types) 40 4
            method.types arguments pipes [] held (omega (arith, kept.longer)) counted)
      refl

user_message_id-arrived :
    (m : Message) (target : Name) (pipes : List MessagePipe)
    → HasHeader m
    → length target ≡ 15
    → user_message_id (arrived m target pipes) ≡ user_message_id m
unfolding user_message_id
user_message_id-arrived m target pipes whole named =
    let (_, _, _, same, _, _, _) = set_target_endpoint_lem m target whole named in
    unfold user_message_id in same

pub Serialized-invoked :
    (s : Process) (methods : List Method) (method : Method) (arguments : Arguments method.types)
    (carrier : MessagePipe) (impl : ℕ) (target : Name) (pipes : List MessagePipe)
    → (z : Serialized s method arguments carrier) → IsFirst method methods
    → length target ≡ 15
    → length pipes ≡ count_handles method.types
    → dispatch_to methods (some impl) (arrived z.message target pipes)
      ≡ ok (record {
        impl = impl;
        method = method;
        arguments = recovered method.types arguments pipes;
      })
Serialized-invoked s methods method arguments carrier impl target pipes z first named counted =
    dispatch_to-first methods method impl (arrived z.message target pipes) first
      (user_message_id-arrived z.message target pipes (omega (arith, z.long)) named ∙ z.identified)
    ∙ invoke-arrived method arguments impl z.message target pipes z.holds (omega (arith, z.long))
        named counted

-- For a method that is the first with its id in an interface, an id below 2 ^ 31, arguments whose native
-- values fit in their bits, a handle to send on that leads to an endpoint that is no proxy, handles among
-- the arguments that lead to endpoints with names of 15 bytes, and a message shorter than 2 ^ 31 bytes: the
-- proxy's serialization returns and changes nothing but the draws; its message is a user's, records its
-- length, and carries the descriptors of the handles in their order; and once the message is sent to an
-- endpoint and as many pipes are recovered as it has handles, the stub calls that method of the
-- implementation with those arguments, the recovered pipes in place of the handles.
pub serialize-dispatch_to :
    (s : Process) (methods : List Method) (method : Method) (arguments : Arguments method.types)
    (carrier : MessagePipe) (impl : ℕ) (target : Name) (pipes : List MessagePipe)
    → IsFirst method methods
    → method.id < 2 ^ 31
    → HasBits method.types arguments
    → IsCarrier s carrier
    → All (IsSendable s) (handles_of method.types arguments)
    → serialized_size method.types arguments < 2 ^ 31
    → length target ≡ 15
    → length pipes ≡ count_handles method.types
    → (m : Message) × (drawn : ℕ) × (ds : List EndpointDescriptor) × (at : ℕ) × (serialize method
          arguments carrier s
        ≡ done m (record s { drawn = drawn }))
      × (message_type m ≡ 2)
      × (size m ≡ length m.payload_buffer)
      × (get_endpoint_descriptors m ≡ ok (located at ds))
      × Describes s drawn (handles_of method.types arguments) ds
      × (dispatch_to methods (some impl) (arrived m target pipes)
          ≡ ok (record {
            impl = impl;
            method = method;
            arguments = recovered method.types arguments pipes;
          }))
serialize-dispatch_to s methods method arguments carrier impl target pipes first known bits c
      sendable small named counted =
    let z = serialize-Serialized s method arguments carrier c sendable bits known small in
    (
      z.message,
      z.drawn,
      z.endpoints,
      z.attached.0,
      z.ran,
      z.typed,
      z.sized,
      z.attached.1,
      z.described,
      Serialized-invoked s methods method arguments carrier impl target pipes z first named counted,
    )
