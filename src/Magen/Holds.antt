-- ===== src/Magen/Holds.antt =====
-- The arguments that a message holds, independently of how they were written
-- (mage/public/parser/classes.tmpl), and the writes that leave them alone.
use mage.Base.{
  ℕ, ◌+◌, ◌^◌, ◌≤◌, ◌<◌, ◌≡◌, ap, ◌∙◌, ◌⊎◌, inl, inr, List, [], ◌∷◌, ◌++◌, some, arith, length,
}
use mage.Bytes.{Bytes, memcpy, slice, read_int, write_int, from_bytes, to_bytes}
use mage.Bytes.Laws.{length-memcpy, slice-memcpy_ne, length-to_bytes}
use mage.Message.{MessagePipe, get_pointer, decode_pointer}
use mage.Magen.{
  MagenType, native, string, message_pipe, native_size, Argument, Arguments, field_size, field_at,
  fields_end,
}
use mage.Magen.Layout.{field_at-le, fields_end-le}

-- The bytes from `low` to `high`, and those from `behind` to the end, are in the second buffer as in the
-- first.
pub record Keeps (low high behind : ℕ) (bs bs' : Bytes) : Type 0 where
  pub longer : length bs ≤ length bs'
  pub slices :
      (j n : ℕ)
      → ((low ≤ j) × (j + n ≤ high)) ⊎ ((behind ≤ j) × (j + n ≤ length bs))
      → slice bs' j n ≡ slice bs j n

-- The bytes in front of `behind`, where the members are; the arrays are behind them.
abbrev pub HoldsArgument : Bytes → (behind location : ℕ) → (t : MagenType) → Argument t → Type 0
HoldsArgument bs behind location (native t) v = read_int bs location (native_size t) ≡ v
HoldsArgument bs behind location string s =
    (array : ℕ) × (get_pointer bs location ≡ some array)
    × (behind ≤ array)
    × (array + 4 + length s ≤ length bs)
    × (length s < 2 ^ 31)
    × (read_int bs array 4 ≡ length s)
    × (slice bs (array + 4) (length s) ≡ s)
HoldsArgument bs behind location message_pipe handle = Unit

abbrev pub Holds : Bytes → (behind params end : ℕ) → (ts : List MagenType) → Arguments ts → Type 0
Holds bs behind params end [] arguments = Unit
Holds bs behind params end (t ∷ ts) (a, arguments) =
    HoldsArgument bs behind (params + field_at end t) t a
    × Holds bs behind params (field_at end t + field_size t) ts arguments

-- The handles among the arguments, and the bytes that the arrays of the strings take.
abbrev pub handle_of : (t : MagenType) → Argument t → List MessagePipe
handle_of (native t) v = []
handle_of string s = []
handle_of message_pipe handle = handle ∷ []

abbrev pub handles_of : (ts : List MagenType) → Arguments ts → List MessagePipe
handles_of [] arguments = []
handles_of (t ∷ ts) (a, arguments) = handle_of t a ++ handles_of ts arguments

abbrev pub string_size : (t : MagenType) → Argument t → ℕ
string_size (native t) v = 0
string_size string s = 4 + length s
string_size message_pipe handle = 0

abbrev pub strings_size : (ts : List MagenType) → Arguments ts → ℕ
strings_size [] arguments = 0
strings_size (t ∷ ts) (a, arguments) = string_size t a + strings_size ts arguments

-- Native values fit in their bits.
abbrev pub HasBitsOf : (t : MagenType) → Argument t → Type 0
HasBitsOf (native t) v = v < 256 ^ native_size t
HasBitsOf string s = Unit
HasBitsOf message_pipe handle = Unit

abbrev pub HasBits : (ts : List MagenType) → Arguments ts → Type 0
HasBits [] arguments = Unit
HasBits (t ∷ ts) (a, arguments) = HasBitsOf t a × HasBits ts arguments

pub Keeps-trans :
    (low high high' behind : ℕ) (bs bs' bs'' : Bytes)
    → high ≤ high'
    → Keeps low high behind bs bs'
    → Keeps low high' behind bs' bs''
    → Keeps low high behind bs bs''
Keeps-trans low high high' behind bs bs' bs'' h k l = record {
  longer = omega (arith, k.longer, l.longer);
  slices = λ j n at. l.slices j n (omega (arith, k.longer)) ∙ k.slices j n at;
}

pub Keeps-lower :
    (high high' behind : ℕ) (bs bs' : Bytes)
    → high ≤ high'
    → Keeps 0 high' behind bs bs'
    → Keeps 0 high behind bs bs'
Keeps-lower high high' behind bs bs' h k = record {
  longer = k.longer;
  slices = λ j n at. k.slices j n (omega arith);
}

pub Keeps-memcpy :
    (bs : Bytes) (location : ℕ) (src : Bytes) (behind : ℕ)
    → location + length src ≤ behind
    → Keeps 0 location behind bs (memcpy bs location src)
Keeps-memcpy bs location src behind h = record {
  longer = omega (arith, length-memcpy bs location src);
  slices = λ j n at. slice-memcpy_ne bs location src j n (omega arith);
}

pub Keeps-write_int :
    (bs : Bytes) (location k v behind : ℕ)
    → location + k ≤ behind
    → Keeps 0 location behind bs (write_int bs location k v)
unfolding write_int
Keeps-write_int bs location k v behind h =
    Keeps-memcpy bs location (to_bytes k v) behind (omega (arith, length-to_bytes k v))

-- An argument that stands before `high`, and its array, stay.
module _ (bs bs' : Bytes) (low high behind : ℕ) (k : Keeps low high behind bs bs') where
  kept_int :
      (j n : ℕ)
      → ((low ≤ j) × (j + n ≤ high)) ⊎ ((behind ≤ j) × (j + n ≤ length bs))
      → read_int bs' j n ≡ read_int bs j n
  unfolding read_int
  kept_int j n at = ap from_bytes (k.slices j n at)

  pub HoldsArgument-Keeps :
      (location : ℕ) (t : MagenType) (a : Argument t)
      → low ≤ location
      → location + field_size t ≤ high
      → HoldsArgument bs behind location t a
      → HoldsArgument bs' behind location t a
  unfolding get_pointer
  HoldsArgument-Keeps location (native t) v l f h =
      kept_int location (native_size t) (inl (l, f)) ∙ h
  HoldsArgument-Keeps location string s l f (array, pointer, after, fits, small, counted, chars) = (
    array,
    ap (decode_pointer location) (kept_int location 8 (inl (l, f))) ∙ pointer,
    after,
    omega (arith, k.longer),
    small,
    kept_int array 4 (inr (after, omega arith)) ∙ counted,
    k.slices (array + 4) (length s) (inr (omega arith, fits)) ∙ chars,
  )
  HoldsArgument-Keeps location message_pipe handle l f h = tt

  pub Holds-Keeps :
      (params end : ℕ) (ts : List MagenType) (arguments : Arguments ts)
      → low ≤ params + end
      → params + fields_end end ts ≤ high
      → Holds bs behind params end ts arguments
      → Holds bs' behind params end ts arguments
  unfolding fields_end
  Holds-Keeps params end [] arguments l f h = tt
  Holds-Keeps params end (t ∷ ts) (a, arguments) l f (first, rest) =
      let next = field_at end t + field_size t in
      (
        HoldsArgument-Keeps (params + field_at end t) t a (omega (arith, field_at-le end t))
            (omega (arith, fields_end-le next ts)) first,
        Holds-Keeps params next ts arguments (omega (arith, field_at-le end t)) f rest,
      )
