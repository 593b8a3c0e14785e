-- ===== src/Magen/Strings.antt =====
-- A string argument in a message, as a generated proxy of mage/public/parser/classes.tmpl writes it.

use mage.Base.{ℕ, ◌+◌, ◌-◌, ◌*◌, ◌^◌, ◌≤◌, ◌<◌, ◌≡◌, refl, ◌∙◌, ◌⊎◌, some, arith, length}
use mage.Base.Result.{ok}
use mage.Bytes.{Bytes, memcpy, slice, grow, read_int, write_int}
use mage.Bytes.Laws.{
  length-memcpy, length-grow, length-write_int, slice-memcpy, slice-memcpy_ne, slice-write_int_ne,
  slice-grow, read-write_int, read_int-write_int_ne, read_int-memcpy_ne,
}
use mage.Message.{
  Message, allocate_array, allocate, set_pointer, encode_pointer, get_pointer, decode_pointer,
}
use mage.Map.{pipe_key}
use mage.Magen.{string, write_string}
use mage.Magen.Holds.{Keeps, HoldsArgument}

-- The buffer after a string argument.
module _ (bs : Bytes) (location : ℕ) (s : Bytes) where
  string_array : Bytes
  string_array =
      memcpy (write_int (grow bs (4 + 1 * length s)) (length bs) 4 (length s)) (length bs + 4) s

  pub string_bytes : Bytes
  unfolding string_array
  string_bytes = write_int string_array location 8 (length bs - location)

  length-string_array : length string_array ≡ length bs + 4 + length s
  unfolding string_array
  length-string_array = omega (
    arith,
    length-memcpy (write_int (grow bs (4 + 1 * length s)) (length bs) 4 (length s)) (length bs + 4)
        s,
    length-write_int (grow bs (4 + 1 * length s)) (length bs) 4 (length s),
    length-grow bs (4 + 1 * length s),
  )

  pub length-string_bytes : length string_bytes ≡ length bs + 4 + length s
  unfolding string_bytes
  length-string_bytes = length-write_int string_array location 8 _ ∙ length-string_array

  slice-string_bytes :
      (j n : ℕ)
      → j + n ≤ length bs
      → (j + n ≤ location) ⊎ (location + 8 ≤ j)
      → slice string_bytes j n ≡ slice bs j n
  unfolding string_bytes string_array
  slice-string_bytes j n inside apart =
      slice-write_int_ne string_array location 8 _ j n apart
      ∙ slice-memcpy_ne _ (length bs + 4) s j n (omega arith)
      ∙ slice-write_int_ne (grow bs (4 + 1 * length s)) (length bs) 4 (length s) j n (omega arith)
      ∙ slice-grow bs (4 + 1 * length s) j n inside

  module _ (behind : ℕ) (member : location + 8 ≤ behind) (front : behind ≤ length bs)
      (small : length bs + 4 + length s < 2 ^ 31) where
    pub Keeps-string_bytes : Keeps 0 location behind bs string_bytes
    Keeps-string_bytes = record {
      longer = omega (arith, length-string_bytes);
      slices = λ j n at. slice-string_bytes j n (omega arith) (omega arith);
    }

    pointer-string_bytes : get_pointer string_bytes location ≡ some (length bs)
    unfolding get_pointer decode_pointer string_bytes
    pointer-string_bytes =
        rw
          (read-write_int string_array location 8 (length bs - location)
            (omega (arith, length-string_array)) (omega arith))
          (ground arith)

    count-string_bytes : read_int string_bytes (length bs) 4 ≡ length s
    unfolding string_bytes string_array
    count-string_bytes =
        read_int-write_int_ne string_array location 8 _ (length bs) 4 (omega arith)
        ∙ read_int-memcpy_ne _ (length bs + 4) s (length bs) 4 (omega arith)
        ∙ read-write_int (grow bs (4 + 1 * length s)) (length bs) 4 (length s)
            (omega (arith, length-grow bs (4 + 1 * length s))) (omega arith)

    chars-string_bytes : slice string_bytes (length bs + 4) (length s) ≡ s
    unfolding string_bytes string_array
    chars-string_bytes =
        slice-write_int_ne string_array location 8 _ (length bs + 4) (length s) (omega arith)
        ∙ slice-memcpy _ (length bs + 4) s (length s) refl (
            omega (
              arith,
              length-write_int (grow bs (4 + 1 * length s)) (length bs) 4 (length s),
              length-grow bs (4 + 1 * length s),
            ))

    pub Holds-string_bytes : HoldsArgument string_bytes behind location string s
    Holds-string_bytes = (
      length bs,
      pointer-string_bytes,
      front,
      omega (arith, length-string_bytes),
      omega arith,
      count-string_bytes,
      chars-string_bytes,
    )

pub write_string-ok :
    (s : Bytes) (location : ℕ) (m : Message)
    → location < length m.payload_buffer
    → write_string s location m
      ≡ ok (record m { payload_buffer = string_bytes m.payload_buffer location s })
unfolding write_string allocate_array allocate set_pointer encode_pointer string_bytes string_array
write_string-ok s location m h = ground arith
