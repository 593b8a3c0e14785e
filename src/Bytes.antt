-- ===== src/Bytes.antt =====
-- The payload buffer of a message as a list of bytes, and the accesses that mage/public/message.h
-- makes to it: `memcpy` at an offset, a run of bytes at an offset, and little-endian integers.
pub mod Laws
use mage.Base.{ℕ, zero, suc, ◌+◌, ◌*◌, ◌/◌, ◌%◌, List, [], ◌∷◌, ◌++◌, take, drop, replicate}

abbrev pub Bytes : Type 0
Bytes = List ℕ

-- `memcpy(buffer + offset, source, source.size())`, inside the buffer.
unfoldable pub memcpy : Bytes → ℕ → Bytes → Bytes
memcpy [] i src = []
memcpy (b ∷ bs) zero [] = b ∷ bs
memcpy (b ∷ bs) zero (c ∷ src) = c ∷ memcpy bs zero src
memcpy (b ∷ bs) (suc i) src = b ∷ memcpy bs i src

-- The `n` bytes from `offset` on.
unfoldable pub slice : Bytes → ℕ → ℕ → Bytes
slice bs offset n = take n (drop offset bs)

-- `vector<char>::resize` to `n` more elements, which are zero.
unfoldable pub grow : Bytes → ℕ → Bytes
grow bs n = bs ++ replicate n 0

-- An unsigned integer in `k` bytes, the lowest first; a larger number wraps.
unfoldable pub to_bytes : ℕ → ℕ → Bytes
to_bytes zero n = []
to_bytes (suc k) n = (n % 256) ∷ to_bytes k (n / 256)

unfoldable pub from_bytes : Bytes → ℕ
from_bytes [] = 0
from_bytes (b ∷ bs) = b + 256 * from_bytes bs

unfoldable pub read_int : Bytes → ℕ → ℕ → ℕ
unfolding from_bytes slice
read_int bs offset k = from_bytes (slice bs offset k)

unfoldable pub write_int : Bytes → ℕ → ℕ → ℕ → Bytes
unfolding memcpy to_bytes
write_int bs offset k n = memcpy bs offset (to_bytes k n)
