-- ===== src/Util.antt =====
-- mage/public/util.h and mage/core/util.cc: the alphabet of identifiers and `RandomIdentifier`.
pub mod Laws
use mage.Base.{ℕ, zero, suc, ◌+◌, List, [], ◌∷◌, get_or}
use mage.Bytes.{Bytes}
use mage.Message.{Name, identifier_size}

-- "0-9", "!@#$%^&*", "A-Z", "a-z" and the zero that ends a string literal: 71 bytes.
abbrev pub alphanum : Bytes
alphanum =
    48 ∷ 49 ∷ 50 ∷ 51 ∷ 52 ∷ 53 ∷ 54 ∷ 55 ∷ 56 ∷ 57 ∷ 33 ∷ 64 ∷ 35 ∷ 36 ∷ 37 ∷ 94 ∷ 38 ∷ 42 ∷ 65
    ∷ 66 ∷ 67 ∷ 68 ∷ 69 ∷ 70 ∷ 71 ∷ 72 ∷ 73 ∷ 74 ∷ 75 ∷ 76 ∷ 77 ∷ 78 ∷ 79 ∷ 80 ∷ 81 ∷ 82 ∷ 83 ∷ 84
    ∷ 85 ∷ 86 ∷ 87 ∷ 88 ∷ 89 ∷ 90 ∷ 97 ∷ 98 ∷ 99 ∷ 100 ∷ 101 ∷ 102 ∷ 103 ∷ 104 ∷ 105 ∷ 106 ∷ 107
    ∷ 108 ∷ 109 ∷ 110 ∷ 111 ∷ 112 ∷ 113 ∷ 114 ∷ 115 ∷ 116 ∷ 117 ∷ 118 ∷ 119 ∷ 120 ∷ 121 ∷ 122 ∷ 0
    ∷ []

-- `draw i` is what the `i`-th call of the uniform distribution over 0 .. 70 returns.
unfoldable pub identifier : (draw : ℕ → ℕ) → (first count : ℕ) → Name
identifier draw first zero = []
identifier draw first (suc n) = get_or alphanum (draw first) 0 ∷ identifier draw (suc first) n

unfoldable pub random_identifier : (draw : ℕ → ℕ) → (first : ℕ) → Name
unfolding identifier
random_identifier draw first = identifier draw first identifier_size
