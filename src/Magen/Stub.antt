-- ===== src/Magen/Stub.antt =====
-- mage/public/parser/classes.tmpl: the receiver stub of an interface, which deserializes a message and
-- calls the method of the implementation that it is for.
use mage.Base.{
  ℕ, ◌+◌, ◌^◌, Bool, false, List, [], ◌∷◌, Option, none, some, length, ltb, leb, ◌==◌,
  if◌then◌else◌,
}
use mage.Base.Result.{Result, ok, crash, bad_access, not_reached, thrown, ◌>>=◌}
use mage.Bytes.{Bytes, slice, read_int}
use mage.Message.{
  Message, MessagePipe, header_size, array_header_size, get_pointer, take_next_pipe,
  user_message_id,
}
use mage.Magen.{
  MagenType, native, string, message_pipe, native_size, Argument, Arguments, Method, field_size,
  field_at, first_field_at,
}

-- The characters of an array; a negative number of them makes the string's constructor throw.
unfoldable pub read_array_of_char : Bytes → Option ℕ → Result Bytes
unfolding read_int slice
read_array_of_char bs none = crash bad_access
read_array_of_char bs (some array) =
    if ltb (length bs) (array + array_header_size)
    then crash bad_access
    else if leb (2 ^ 31) (read_int bs array 4)
    then crash thrown
    else if ltb (length bs) (array + array_header_size + read_int bs array 4)
    then crash bad_access
    else ok (slice bs (array + array_header_size) (read_int bs array 4))

-- One argument, from its member at `location`. A member that reaches past the buffer is `bad_access`.
unfoldable pub read_argument : (t : MagenType) → ℕ → Message → Result (Argument t × Message)
unfolding read_int get_pointer read_array_of_char take_next_pipe
read_argument (native t) location m =
    if ltb (length m.payload_buffer) (location + native_size t)
    then crash bad_access
    else ok (read_int m.payload_buffer location (native_size t), m)
read_argument string location m =
    if ltb (length m.payload_buffer) (location + 8)
    then crash bad_access
    else read_array_of_char m.payload_buffer (get_pointer m.payload_buffer location) >>= λ s.
        ok (s, m)
read_argument message_pipe location m = take_next_pipe m

unfoldable pub read_arguments :
    (ts : List MagenType) → (params end : ℕ) → Message → Result (Arguments ts × Message)
unfolding field_at read_argument
read_arguments [] params end m = ok (tt, m)
read_arguments (t ∷ ts) params end m = read_argument t (params + field_at end t) m >>= λ (a, m').
    read_arguments ts params (field_at end t + field_size t) m' >>= λ (arguments, m'').
    ok ((a, arguments), m'')

-- A call of a method of the implementation.
pub record Invocation : Type 0 where
  pub impl : ℕ
  pub method : Method
  pub arguments : Arguments method.types

-- A method of the null pointer cannot be called.
unfoldable pub invoke : Option ℕ → (method : Method) → Message → Result Invocation
unfolding read_arguments
invoke none method m = crash bad_access
invoke (some impl) method m =
    read_arguments method.types header_size first_field_at m >>= λ (arguments, _).
    ok (record { impl = impl; method = method; arguments = arguments })

-- The methods are tried in the order of the interface.
unfoldable pub dispatch_to : List Method → Option ℕ → Message → Result Invocation
unfolding user_message_id invoke
dispatch_to [] impl m = crash not_reached
dispatch_to (method ∷ methods) impl m =
    if user_message_id m == method.id then invoke impl method m else dispatch_to methods impl m

-- A stub of the class of an interface; `impl` is a pointer to the implementation.
pub record Stub : Type 0 where
  pub interface : List Method
  pub bound : Bool
  pub local_handle : MessagePipe
  pub impl : Option ℕ

abbrev pub new_stub : List Method → Stub
new_stub interface = record { interface = interface; bound = false; local_handle = 0; impl = none }

unfoldable pub on_received_message : Stub → Message → Result Invocation
unfolding dispatch_to
on_received_message stub m = dispatch_to stub.interface stub.impl m
