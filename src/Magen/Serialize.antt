-- ===== src/Magen/Serialize.antt =====
-- The message that a generated proxy of mage/public/parser/classes.tmpl makes of a call.
use mage.Base.{
  ℕ, suc, ◌+◌, ◌*◌, ◌^◌, ◌≤◌, ◌<◌, ◌≡◌, refl, ap, ◌∙◌, inl, inr, List, [], ◌∷◌, arith, length, All,
  ◌==◌,
}
use mage.Base.Result.{ok}
use mage.Bytes.{Bytes, memcpy, read_int, write_int, from_bytes, to_bytes}
use mage.Bytes.Laws.{
  length-memcpy, length-grow, length-write_int, length-to_bytes, slice-memcpy_ne, read-write_int,
  read_int-write_int_ne, read_int-grow,
}
use mage.Message.{
  Message, MessagePipe, EndpointDescriptor, user_message, new_message, allocate, message_type, size,
  user_message_id, set_user_message_id, get_endpoint_descriptors, finalize_size,
}
use mage.Message.Header.{
  new_message_lem, get_endpoint_descriptors-finalize_size, size-finalize_size,
}
use mage.Message.Descriptors.{IsNamed, located}
use mage.Message.RoundTrip.{Attached, write_endpoints-Attached}
use mage.Endpoint.{Endpoint}
use mage.Process.{Process, Ref, done}
use mage.Process.Exact.{step, require-true, lift-ok}
use mage.Magen.{
  MagenType, native, string, message_pipe, Arguments, Method, params_size, count_handles,
}
use mage.Magen.Layout.{fields_end-le-params_size}
use mage.Magen.Holds.{Keeps, Holds, handles_of, strings_size, HasBits, Holds-Keeps}
use mage.Magen.Write.{
  IsSendable, IsCarrier, Described, Describes, nothing, also, Written, write_arguments-Written,
}
use mage.Magen.Proxy.{write_arguments, serialize}

pub length-handles_of :
    (ts : List MagenType) (arguments : Arguments ts)
    → length (handles_of ts arguments) ≡ count_handles ts
unfolding count_handles
length-handles_of [] arguments = refl
length-handles_of (native t ∷ ts) (a, arguments) = length-handles_of ts arguments
length-handles_of (string ∷ ts) (a, arguments) = length-handles_of ts arguments
length-handles_of (message_pipe ∷ ts) (a, arguments) = omega (arith, length-handles_of ts arguments)

length-Described :
    {heap : List Endpoint} {table : List (MessagePipe × Ref)} {draw : ℕ → ℕ} {i j : ℕ}
    {hs : List MessagePipe} {ds : List EndpointDescriptor}
    → Described heap table draw i j hs ds
    → length ds ≡ length hs
length-Described nothing = refl
length-Described (also h e c n p named rest) = ap suc (length-Described rest)

Described-IsNamed :
    {heap : List Endpoint} {table : List (MessagePipe × Ref)} {draw : ℕ → ℕ} {i j : ℕ}
    {hs : List MessagePipe} {ds : List EndpointDescriptor}
    → Described heap table draw i j hs ds
    → All IsNamed ds
Described-IsNamed nothing = tt
Described-IsNamed (also h e c n p named rest) = (named, Described-IsNamed rest)

-- A write into the header keeps what is behind it.
pub Keeps-header :
    (bs : Bytes) (at : ℕ) (src : Bytes) (high behind : ℕ)
    → at + length src ≤ 40
    → 40 ≤ behind
    → Keeps 40 high behind bs (memcpy bs at src)
Keeps-header bs at src high behind h b = record {
  longer = omega (arith, length-memcpy bs at src);
  slices = λ j n apart. slice-memcpy_ne bs at src j n (omega arith);
}

Keeps-header_int :
    (bs : Bytes) (at v high behind : ℕ)
    → at + 4 ≤ 40
    → 40 ≤ behind
    → Keeps 40 high behind bs (write_int bs at 4 v)
unfolding write_int
Keeps-header_int bs at v high behind h b =
    Keeps-header bs at (to_bytes 4 v) high behind (omega (arith, length-to_bytes 4 v)) b

-- The bytes of a message with these arguments.
abbrev pub serialized_size : (ts : List MagenType) → Arguments ts → ℕ
serialized_size ts arguments =
    40 + params_size ts + strings_size ts arguments + 4 + 60 * count_handles ts

-- The message of a call: of the type of a user's message, with the method's id, its size, the descriptors of
-- the handles among the arguments, and the other arguments in its parameters.
pub record Serialized (s : Process) (method : Method) (arguments : Arguments method.types)
    (carrier : MessagePipe) : Type 0 where
  pub message : Message
  pub endpoints : List EndpointDescriptor
  pub drawn : ℕ
  pub ran : serialize method arguments carrier s ≡ done message (record s { drawn = drawn })
  pub typed : message_type message ≡ 2
  pub identified : user_message_id message ≡ method.id
  pub sized : size message ≡ length message.payload_buffer
  pub long : length message.payload_buffer ≡ serialized_size method.types arguments
  pub attached : (at : ℕ) × (get_endpoint_descriptors message ≡ ok (located at endpoints))
  pub holds :
      Holds message.payload_buffer (40 + params_size method.types) 40 4 method.types arguments
  pub pipes : message.pipes ≡ []
  pub described : Describes s drawn (handles_of method.types arguments) endpoints

module _ (s : Process) (method : Method) (arguments : Arguments method.types)
    (carrier : MessagePipe) (c : IsCarrier s carrier)
    (sendable : All (IsSendable s) (handles_of method.types arguments))
    (bits : HasBits method.types arguments) (known : method.id < 2 ^ 31)
    (small : serialized_size method.types arguments < 2 ^ 31) where
  blank : Message
  unfolding allocate
  blank = (allocate (new_message user_message) (params_size method.types)).1

  behind : ℕ
  behind = 40 + params_size method.types

  length-blank : length blank.payload_buffer ≡ behind
  unfolding blank allocate behind
  length-blank =
      length-grow (new_message user_message).payload_buffer (params_size method.types)
      ∙ ap (λ n. n + params_size method.types) (new_message_lem user_message).0

  type-blank : message_type blank ≡ 2
  unfolding blank allocate message_type
  type-blank =
      read_int-grow _ (params_size method.types) 4 4
        (omega (arith, (new_message_lem user_message).0))
      ∙ unfold message_type in (new_message_lem user_message).1

  written :
      Written s blank 44 behind
        (handles_of method.types arguments)
        (strings_size method.types arguments)
        (λ bs. Holds bs behind 40 4 method.types arguments)
        (write_arguments method.types arguments carrier 40 4 blank)
  unfolding behind
  written =
      write_arguments-Written s carrier blank 40 4 behind method.types arguments c sendable bits
        (omega (arith, fields_end-le-params_size method.types)) (omega (arith, length-blank))
        (omega (arith, length-blank))

  identified : Message
  identified = set_user_message_id written.message method.id

  length-identified :
      length identified.payload_buffer ≡ behind + strings_size method.types arguments
  unfolding identified set_user_message_id
  length-identified = omega (
    arith,
    length-write_int written.message.payload_buffer 8 4 method.id,
    written.longer,
    length-blank,
  )

  length-endpoints : length written.endpoints ≡ count_handles method.types
  length-endpoints = length-Described written.described ∙ length-handles_of method.types arguments

  attached : Attached identified written.endpoints
  unfolding behind
  attached =
      write_endpoints-Attached identified written.endpoints (omega (arith, length-identified))
        (omega (arith, length-identified)) (omega (arith, length-endpoints))
        (Described-IsNamed written.described)

  length-attached : length attached.message.payload_buffer ≡ serialized_size method.types arguments
  unfolding behind
  length-attached = omega (arith, attached.longer, length-identified, length-endpoints)

  kept_field :
      (j : ℕ)
      → j + 4 ≤ 12
      → 4 ≤ j
      → read_int (finalize_size attached.message).payload_buffer j 4
        ≡ read_int identified.payload_buffer j 4
  unfolding finalize_size read_int behind
  kept_field j h l =
      unfold read_int in
      read_int-write_int_ne attached.message.payload_buffer 0 4 _ j 4 (inr l)
      ∙ ap from_bytes (attached.slices j 4 (omega (arith, length-identified)) (inl (omega arith)))

  typed : message_type (finalize_size attached.message) ≡ 2
  unfolding message_type identified set_user_message_id read_int
  typed =
      kept_field 4 (omega arith) (omega arith)
      ∙ unfold read_int in
        read_int-write_int_ne written.message.payload_buffer 8 4 method.id 4 4 (inl (omega arith))
        ∙ ap from_bytes (written.kept.slices 4 4 (inl (omega arith, omega arith)))
        ∙ unfold message_type in type-blank

  numbered : user_message_id (finalize_size attached.message) ≡ method.id
  unfolding user_message_id identified set_user_message_id behind
  numbered =
      kept_field 8 (omega arith) (omega arith)
      ∙ read-write_int written.message.payload_buffer 8 4 method.id
          (omega (arith, written.longer, length-blank)) (omega arith)

  holds : Holds (finalize_size attached.message).payload_buffer behind 40 4 method.types arguments
  unfolding finalize_size identified set_user_message_id behind
  holds =
      let fits = fields_end-le-params_size method.types in
      let one =
        Holds-Keeps _ _ 40 behind behind
          (Keeps-header_int written.message.payload_buffer 8 method.id behind behind (omega arith)
            (omega arith))
          40 4 method.types arguments (omega arith) (omega arith) written.holds in
      let kept : Keeps 40 behind behind identified.payload_buffer attached.message.payload_buffer =
        record {
          longer = omega (arith, attached.longer);
          slices =
              λ j n at. attached.slices j n (omega (arith, length-identified)) (inr (omega arith));
        } in
      let two =
        Holds-Keeps _ _ 40 behind behind kept 40 4 method.types arguments (omega arith)
          (omega arith) one in
      Holds-Keeps _ _ 40 behind behind
        (Keeps-header_int attached.message.payload_buffer 0 _ behind behind (omega arith)
          (omega arith))
        40 4 method.types arguments (omega arith) (omega arith) two

  serialize-runs :
      serialize method arguments carrier s
      ≡ done (finalize_size attached.message) (record s { drawn = written.drawn })
  unfolding serialize allocate blank identified
  serialize-runs =
      let t : Process = record s { drawn = written.drawn } in
      step _
        (ap (λ params. write_arguments method.types arguments carrier params 4 blank s)
            (new_message_lem user_message).0
          ∙ written.ran)
        (step _
          (require-true t (count_handles method.types == length written.endpoints)
            (ground (arith, length-endpoints)))
          (step _ (lift-ok t attached.made) refl))

  no_pipes : (finalize_size attached.message).pipes ≡ []
  unfolding finalize_size identified set_user_message_id blank allocate
  no_pipes = attached.pipes ∙ written.pipes ∙ (new_message_lem user_message).3

  pub serialize-Serialized : Serialized s method arguments carrier
  unfolding behind finalize_size
  serialize-Serialized = record {
    message = finalize_size attached.message;
    endpoints = written.endpoints;
    drawn = written.drawn;
    ran = serialize-runs;
    typed = typed;
    identified = numbered;
    sized =
        size-finalize_size attached.message (omega (arith, length-attached))
          (omega (arith, length-attached));
    long = length-write_int attached.message.payload_buffer 0 4 _ ∙ length-attached;
    attached = (_, get_endpoint_descriptors-finalize_size attached.message ∙ attached.found);
    holds = holds;
    pipes = no_pipes;
    described = written.described;
  }
