-- ===== src/Magen.antt =====
-- mage/public/parser/gen.py and classes.tmpl: the interfaces of a magen file, and the layout of the
-- parameters of a method in a message. Magen/Proxy.antt and Magen/Stub.antt are the two generated classes.
pub mod Layout
pub mod Proxy
pub mod Stub
pub mod Holds
pub mod Strings
pub mod Write
pub mod Serialize
pub mod Read
pub mod RoundTrip
use mage.Base.{ℕ, ◌+◌, ◌-◌, ◌*◌, ◌/◌, List, [], ◌∷◌, ◌++◌, some, length, max}
use mage.Base.Result.{Result, ok, ◌>>=◌}
use mage.Bytes.{Bytes, memcpy}
use mage.Message.{Message, MessagePipe, allocate_array, array_header_size, set_pointer}

-- The types that `GetNativeType` hands on as they stand, as README.md lists them.
pub data NativeType : Type 0 where
  bool char int long double : NativeType

pub data MagenType : Type 0 where
  native : NativeType → MagenType
  string message_pipe : MagenType

-- sizeof on a 64-bit machine, where `long` has 8 bytes, which is also the alignment; a value is its bit
-- pattern.
abbrev pub native_size : NativeType → ℕ
native_size bool = 1
native_size char = 1
native_size int = 4
native_size long = 8
native_size double = 8

-- `GetNativeType`: the type of an argument in C++.
abbrev pub Argument : MagenType → Type 0
Argument (native t) = ℕ
Argument string = Bytes
Argument message_pipe = MessagePipe

abbrev pub Arguments : List MagenType → Type 0
Arguments [] = Unit
Arguments (t ∷ ts) = Argument t × Arguments ts

pub record Method : Type 0 where
  pub id : ℕ
  pub types : List MagenType

-- sizeof and alignof of `GetMagenParamsType`: the value, a `Pointer`, or an `EndpointDescriptor`.
abbrev pub field_size : MagenType → ℕ
field_size (native t) = native_size t
field_size string = 8
field_size message_pipe = 60

abbrev pub field_align : MagenType → ℕ
field_align (native t) = native_size t
field_align string = 8
field_align message_pipe = 1

-- The next multiple of `a`.
abbrev pub align : ℕ → ℕ → ℕ
align n a = (n + (a - 1)) / a * a

-- The place of a member behind `end` bytes of others, and the end of the members `ts`.
unfoldable pub field_at : ℕ → MagenType → ℕ
field_at end t = align end (field_align t)

unfoldable pub fields_end : ℕ → List MagenType → ℕ
unfolding field_at
fields_end end [] = end
fields_end end (t ∷ ts) = fields_end (field_at end t + field_size t) ts

-- `int bytes` is the first member; it is never written in a message.
abbrev pub first_field_at : ℕ
first_field_at = 4

unfoldable pub params_align : List MagenType → ℕ
params_align [] = 4
params_align (t ∷ ts) = max (field_align t) (params_align ts)

-- sizeof of the `Params` class of a method.
unfoldable pub params_size : List MagenType → ℕ
unfolding fields_end params_align
params_size ts = align (fields_end first_field_at ts) (params_align ts)

-- `num_endpoints_in_message`.
unfoldable pub count_handles : List MagenType → ℕ
count_handles [] = 0
count_handles (native t ∷ ts) = count_handles ts
count_handles (string ∷ ts) = count_handles ts
count_handles (message_pipe ∷ ts) = 1 + count_handles ts

-- The array of a string argument, and the pointer to it in the parameters.
unfoldable pub write_string : Bytes → ℕ → Message → Result Message
unfolding allocate_array memcpy set_pointer
write_string s location m =
    let (array, grown) = allocate_array m 1 (length s) in
    set_pointer (memcpy grown.payload_buffer (array + array_header_size) s) location (some array)
    >>= λ bs. ok (record grown { payload_buffer = bs })
