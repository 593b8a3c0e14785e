-- ===== src/Magen/Read.antt =====
-- A generated stub of mage/public/parser/classes.tmpl reads the arguments that a message holds.
use mage.Base.{ℕ, ◌+◌, ◌^◌, ◌≤◌, ◌<◌, ◌≡◌, refl, ap, ◌∙◌, List, [], ◌∷◌, ◌++◌, some, arith, length}
use mage.Base.Result.{Result, ok, ◌>>=◌}
use mage.Bytes.{Bytes, slice, read_int}
use mage.Message.{MessagePipe, take_next_pipe}
use mage.Magen.{
  MagenType, native, string, message_pipe, Arguments, field_at, fields_end, count_handles,
  native_size,
}
use mage.Magen.Layout.{fields_end-le}
use mage.Magen.Holds.{HoldsArgument, Holds}
use mage.Magen.Stub.{read_array_of_char, read_argument, read_arguments}

-- The arguments as the receiver gets them: its own pipes, in their order, in place of the sender's handles.
abbrev pub recovered : (ts : List MagenType) → Arguments ts → List MessagePipe → Arguments ts
recovered [] arguments pipes = tt
recovered (native t ∷ ts) (a, arguments) pipes = (a, recovered ts arguments pipes)
recovered (string ∷ ts) (a, arguments) pipes = (a, recovered ts arguments pipes)
recovered (message_pipe ∷ ts) (a, arguments) [] = (a, recovered ts arguments [])
recovered (message_pipe ∷ ts) (a, arguments) (pipe ∷ pipes) = (pipe, recovered ts arguments pipes)

read_array_of_char-some :
    (bs : Bytes) (array : ℕ) (s : Bytes)
    → array + 4 + length s ≤ length bs
    → length s < 2 ^ 31
    → read_int bs array 4 ≡ length s
    → slice bs (array + 4) (length s) ≡ s
    → read_array_of_char bs (some array) ≡ ok s
unfolding read_array_of_char
read_array_of_char-some bs array s fits small counted chars = rw counted (ground (arith, chars))

read_native :
    (t : _) (v : ℕ) (bs : Bytes) (behind location : ℕ) (pipes : List MessagePipe)
    → HoldsArgument bs behind location (native t) v
    → location + native_size t ≤ length bs
    → read_argument (native t) location (record { payload_buffer = bs; pipes = pipes })
      ≡ ok (v, record { payload_buffer = bs; pipes = pipes })
unfolding read_argument
read_native t v bs behind location pipes holds fits = rw holds (ground arith)

read_string :
    (s : Bytes) (bs : Bytes) (behind location : ℕ) (pipes : List MessagePipe)
    → HoldsArgument bs behind location string s
    → location + 8 ≤ length bs
    → read_argument string location (record { payload_buffer = bs; pipes = pipes })
      ≡ ok (s, record { payload_buffer = bs; pipes = pipes })
unfolding read_argument
read_string s bs behind location pipes (array, pointer, after, fits, small, counted, chars) member =
    rw (pointer, read_array_of_char-some bs array s fits small counted chars) (ground arith)

-- A chain whose first part returns.
pub >>=-run {ι κ} :
    {First : Type ι} {Second : Type κ} {value : First} {last : Result Second} (r : Result First)
    (next : First → Result Second)
    → r ≡ ok value
    → next value ≡ last
    → (r >>= next) ≡ last
>>=-run r next e f = ap (λ r. r >>= next) e ∙ f

pub read_arguments-recovered :
    (bs : Bytes) (behind params end : ℕ) (ts : List MagenType) (arguments : Arguments ts)
    (pipes rest : List MessagePipe)
    → Holds bs behind params end ts arguments
    → params + fields_end end ts ≤ length bs
    → length pipes ≡ count_handles ts
    → read_arguments ts params end (record { payload_buffer = bs; pipes = pipes ++ rest })
      ≡ ok (recovered ts arguments pipes, record { payload_buffer = bs; pipes = rest })
unfolding read_arguments read_argument take_next_pipe fields_end count_handles
read_arguments-recovered bs behind params end [] arguments [] rest h fits counted = refl
read_arguments-recovered bs behind params end [] arguments (p ∷ pipes) rest h fits counted = cc
read_arguments-recovered bs behind params end (native t ∷ ts) (a, arguments) pipes rest h fits
      counted =
    let next = field_at end (native t) + native_size t in
    >>=-run _ _
      (read_native t a bs behind _ (pipes ++ rest) h.0 (omega (arith, fields_end-le next ts)))
      (>>=-run _ _
        (read_arguments-recovered bs behind params next ts arguments pipes rest h.1 fits counted)
        refl)
read_arguments-recovered bs behind params end (string ∷ ts) (a, arguments) pipes rest h fits
      counted =
    let next = field_at end string + 8 in
    >>=-run _ _
      (read_string a bs behind _ (pipes ++ rest) h.0 (omega (arith, fields_end-le next ts)))
      (>>=-run _ _
        (read_arguments-recovered bs behind params next ts arguments pipes rest h.1 fits counted)
        refl)
read_arguments-recovered bs behind params end (message_pipe ∷ ts) (a, arguments) [] rest h fits
      counted =
    absurd (omega (arith, counted))
read_arguments-recovered bs behind params end (message_pipe ∷ ts) (a, arguments) (p ∷ pipes) rest h
      fits counted =
    let next = field_at end message_pipe + 60 in
    >>=-run _ _
      (read_arguments-recovered bs behind params next ts arguments pipes rest h.1 fits
        (omega (arith, counted)))
      refl
