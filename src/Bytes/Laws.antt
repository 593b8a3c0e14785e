-- ===== src/Bytes/Laws.antt =====
-- Reads of a buffer after a write or a resize.
use mage.Base.{
  ℕ, zero, suc, ◌+◌, ◌/◌, ◌^◌, ◌≤◌, ◌<◌, ◌≡◌, refl, ap, ◌∙◌, ◌⊎◌, inr, [], ◌∷◌, ◌++◌, arith, length,
  take, drop, replicate, length-append, length-replicate, take-length-append,
}
use native.Mathlib.Nat.{pow-suc}
use mage.Bytes.{Bytes, memcpy, slice, grow, to_bytes, from_bytes, read_int, write_int}

pub length-memcpy : (bs : Bytes) (i : ℕ) (src : Bytes) → length (memcpy bs i src) ≡ length bs
unfolding memcpy
length-memcpy [] i src = refl
length-memcpy (b ∷ bs) zero [] = refl
length-memcpy (b ∷ bs) zero (c ∷ src) = ap suc (length-memcpy bs zero src)
length-memcpy (b ∷ bs) (suc i) src = ap suc (length-memcpy bs i src)

pub length-grow : (bs : Bytes) (n : ℕ) → length (grow bs n) ≡ length bs + n
unfolding grow
length-grow bs n = omega (arith, length-append bs (replicate n 0), length-replicate n (zero))

pub length-slice : (bs : Bytes) (i n : ℕ) → i + n ≤ length bs → length (slice bs i n) ≡ n
unfolding slice
length-slice [] zero zero h = refl
length-slice [] zero (suc n) h = absurd (omega arith)
length-slice [] (suc i) n h = absurd (omega arith)
length-slice (b ∷ bs) zero zero h = refl
length-slice (b ∷ bs) zero (suc n) h = ap suc (unfold slice in length-slice bs zero n (omega arith))
length-slice (b ∷ bs) (suc i) n h = length-slice bs i n (omega arith)

pub length-to_bytes : (k n : ℕ) → length (to_bytes k n) ≡ k
unfolding to_bytes
length-to_bytes zero n = refl
length-to_bytes (suc k) n = ap suc (length-to_bytes k _)

-- What was written is read back.
pub slice-memcpy_self :
    (bs : Bytes) (i : ℕ) (src : Bytes)
    → i + length src ≤ length bs
    → slice (memcpy bs i src) i (length src) ≡ src
unfolding memcpy slice
slice-memcpy_self [] zero [] h = refl
slice-memcpy_self [] zero (c ∷ src) h = absurd (omega arith)
slice-memcpy_self [] (suc i) src h = absurd (omega arith)
slice-memcpy_self (b ∷ bs) zero [] h = refl
slice-memcpy_self (b ∷ bs) zero (c ∷ src) h =
    ap (◌∷◌ c) (slice-memcpy_self bs zero src (omega arith))
slice-memcpy_self (b ∷ bs) (suc i) src h = slice-memcpy_self bs i src (omega arith)

-- A write leaves the bytes before it and behind it alone.
pub slice-memcpy_ne :
    (bs : Bytes) (i : ℕ) (src : Bytes) (j n : ℕ)
    → (j + n ≤ i) ⊎ (i + length src ≤ j)
    → slice (memcpy bs i src) j n ≡ slice bs j n
unfolding memcpy slice
slice-memcpy_ne [] i src j n h = refl
slice-memcpy_ne (b ∷ bs) zero [] j n h = refl
slice-memcpy_ne (b ∷ bs) zero (c ∷ src) zero zero h = refl
slice-memcpy_ne (b ∷ bs) zero (c ∷ src) zero (suc n) h = absurd (omega arith)
slice-memcpy_ne (b ∷ bs) zero (c ∷ src) (suc j) zero h =
    slice-memcpy_ne bs zero src j zero (inr (omega arith))
slice-memcpy_ne (b ∷ bs) zero (c ∷ src) (suc j) (suc n) h =
    slice-memcpy_ne bs zero src j (suc n) (inr (omega arith))
slice-memcpy_ne (b ∷ bs) (suc i) src zero zero h = refl
slice-memcpy_ne (b ∷ bs) (suc i) src zero (suc n) h =
    ap (◌∷◌ b) (slice-memcpy_ne bs i src zero n (omega arith))
slice-memcpy_ne (b ∷ bs) (suc i) src (suc j) n h = slice-memcpy_ne bs i src j n (omega arith)

pub slice-append_left :
    (xs ys : Bytes) (j n : ℕ) → j + n ≤ length xs → slice (xs ++ ys) j n ≡ slice xs j n
unfolding slice
slice-append_left [] ys zero zero h = refl
slice-append_left [] ys zero (suc n) h = absurd (omega arith)
slice-append_left [] ys (suc j) n h = absurd (omega arith)
slice-append_left (x ∷ xs) ys zero zero h = refl
slice-append_left (x ∷ xs) ys zero (suc n) h =
    ap (◌∷◌ x) (slice-append_left xs ys zero n (omega arith))
slice-append_left (x ∷ xs) ys (suc j) n h = slice-append_left xs ys j n (omega arith)

pub slice-grow : (bs : Bytes) (k j n : ℕ) → j + n ≤ length bs → slice (grow bs k) j n ≡ slice bs j n
unfolding grow
slice-grow bs k j n h = slice-append_left bs (replicate k 0) j n h

-- An integer that fits is read back.
pub from_bytes-to_bytes : (k n : ℕ) → n < 256 ^ k → from_bytes (to_bytes k n) ≡ n
unfolding to_bytes from_bytes
from_bytes-to_bytes zero n h = omega arith
from_bytes-to_bytes (suc k) n h =
    omega (arith, pow-suc 256 k, from_bytes-to_bytes k (n / 256) (omega (arith, pow-suc 256 k)))

pub slice-memcpy :
    (bs : Bytes) (i : ℕ) (src : Bytes) (n : ℕ)
    → length src ≡ n
    → i + n ≤ length bs
    → slice (memcpy bs i src) i n ≡ src
slice-memcpy bs i src n e h = rw (← e) (slice-memcpy_self bs i src (omega arith))

pub read-write_int :
    (bs : Bytes) (i k n : ℕ)
    → i + k ≤ length bs
    → n < 256 ^ k
    → read_int (write_int bs i k n) i k ≡ n
unfolding read_int write_int
read-write_int bs i k n fits small =
    ap from_bytes (slice-memcpy bs i (to_bytes k n) k (length-to_bytes k n) fits)
    ∙ from_bytes-to_bytes k n small

-- An integer is read as before when the write is elsewhere.
pub read_int-memcpy_ne :
    (bs : Bytes) (i : ℕ) (src : Bytes) (j k : ℕ)
    → (j + k ≤ i) ⊎ (i + length src ≤ j)
    → read_int (memcpy bs i src) j k ≡ read_int bs j k
unfolding read_int
read_int-memcpy_ne bs i src j k h = ap from_bytes (slice-memcpy_ne bs i src j k h)

pub read_int-write_int_ne :
    (bs : Bytes) (i w n j k : ℕ)
    → (j + k ≤ i) ⊎ (i + w ≤ j)
    → read_int (write_int bs i w n) j k ≡ read_int bs j k
unfolding write_int
read_int-write_int_ne bs i w n j k h =
    read_int-memcpy_ne bs i (to_bytes w n) j k (omega (arith, length-to_bytes w n))

pub slice-write_int_ne :
    (bs : Bytes) (i w n j k : ℕ)
    → (j + k ≤ i) ⊎ (i + w ≤ j)
    → slice (write_int bs i w n) j k ≡ slice bs j k
unfolding write_int
slice-write_int_ne bs i w n j k h =
    slice-memcpy_ne bs i (to_bytes w n) j k (omega (arith, length-to_bytes w n))

pub length-write_int : (bs : Bytes) (i k n : ℕ) → length (write_int bs i k n) ≡ length bs
unfolding write_int
length-write_int bs i k n = length-memcpy bs i (to_bytes k n)

pub read_int-grow :
    (bs : Bytes) (n j k : ℕ) → j + k ≤ length bs → read_int (grow bs n) j k ≡ read_int bs j k
unfolding read_int
read_int-grow bs n j k h = ap from_bytes (slice-grow bs n j k h)

-- Part of what was written is read back.
pub slice-memcpy_part :
    (bs : Bytes) (i : ℕ) (src : Bytes) (j k n : ℕ)
    → j ≡ i + k
    → k + n ≤ length src
    → i + length src ≤ length bs
    → slice (memcpy bs i src) j n ≡ slice src k n
unfolding memcpy slice
slice-memcpy_part [] zero [] zero zero n e h fits = refl
slice-memcpy_part [] zero [] zero (suc k) n e h fits = absurd (omega arith)
slice-memcpy_part [] zero [] (suc j) zero n e h fits = absurd (omega arith)
slice-memcpy_part [] zero [] (suc j) (suc k) n e h fits = absurd (omega arith)
slice-memcpy_part [] zero (c ∷ src) j k n e h fits = absurd (omega arith)
slice-memcpy_part [] (suc i) src j k n e h fits = absurd (omega arith)
slice-memcpy_part (b ∷ bs) zero [] j zero zero e h fits = refl
slice-memcpy_part (b ∷ bs) zero [] j zero (suc n) e h fits = absurd (omega arith)
slice-memcpy_part (b ∷ bs) zero [] j (suc k) n e h fits = absurd (omega arith)
slice-memcpy_part (b ∷ bs) zero (c ∷ src) zero zero zero e h fits = refl
slice-memcpy_part (b ∷ bs) zero (c ∷ src) zero zero (suc n) e h fits =
    ap (◌∷◌ c) (slice-memcpy_part bs zero src zero zero n (omega arith) (omega arith) (omega arith))
slice-memcpy_part (b ∷ bs) zero (c ∷ src) zero (suc k) n e h fits = absurd (omega arith)
slice-memcpy_part (b ∷ bs) zero (c ∷ src) (suc j) zero n e h fits = absurd (omega arith)
slice-memcpy_part (b ∷ bs) zero (c ∷ src) (suc j) (suc k) n e h fits =
    slice-memcpy_part bs zero src j k n (omega arith) (omega arith) (omega arith)
slice-memcpy_part (b ∷ bs) (suc i) src zero k n e h fits = absurd (omega arith)
slice-memcpy_part (b ∷ bs) (suc i) src (suc j) k n e h fits =
    slice-memcpy_part bs i src j k n (omega arith) (omega arith) (omega arith)

pub slice-append_self : (xs ys : Bytes) (n : ℕ) → length xs ≡ n → slice (xs ++ ys) 0 n ≡ xs
unfolding slice
slice-append_self xs ys n e = rw (← e) (take-length-append xs ys)

pub slice-append_skip :
    (xs ys : Bytes) (j k n : ℕ) → length xs + k ≡ j → slice (xs ++ ys) j n ≡ slice ys k n
unfolding slice
slice-append_skip [] ys j k n e = ap (λ i. take n (drop i ys)) (omega arith)
slice-append_skip (x ∷ xs) ys zero k n e = absurd (omega arith)
slice-append_skip (x ∷ xs) ys (suc j) k n e = slice-append_skip xs ys j k n (omega arith)

pub slice_whole : (xs : Bytes) (n : ℕ) → length xs ≡ n → slice xs 0 n ≡ xs
unfolding slice
slice_whole [] zero e = refl
slice_whole [] (suc n) e = absurd (omega arith)
slice_whole (x ∷ xs) zero e = absurd (omega arith)
slice_whole (x ∷ xs) (suc n) e = ap (◌∷◌ x) (slice_whole xs n (omega arith))
