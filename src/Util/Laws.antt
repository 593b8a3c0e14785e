-- ===== src/Util/Laws.antt =====
-- What `RandomIdentifier` of mage/core/util.cc returns.
use mage.Base.{
  ℕ, zero, suc, ◌+◌, ◌≤◌, ◌<◌, ◌≡◌, refl, ap, ◌↔◌, length, get_or, get_elem?, some, arith, bool_eq,
  ◌==◌, ◌&&◌, Bool-cases, ==_iff, inl, inr, ◌∙◌, Bool, true,
}
use mage.Util.{alphanum, identifier, random_identifier}

length-identifier : (draw : ℕ → ℕ) (first n : ℕ) → length (identifier draw first n) ≡ n
unfolding identifier
length-identifier draw first zero = refl
length-identifier draw first (suc n) = ap suc (length-identifier draw (suc first) n)

pub length-random_identifier :
    (draw : ℕ → ℕ) (first : ℕ) → length (random_identifier draw first) ≡ 15
unfolding random_identifier
length-random_identifier draw first = length-identifier draw first 15

-- A test of every number below a bound.
all_below : ℕ → (ℕ → Bool) → Bool
all_below zero p = true
all_below (suc n) p = p n && all_below n p

all_below_sound : (n : ℕ) (p : ℕ → Bool) (i : ℕ) → all_below n p ≡ true → i < n → p i ≡ true
unfolding all_below
all_below_sound zero p i checked below = absurd (omega arith)
all_below_sound (suc n) p i checked below = elim (Bool-cases (i == n)) [
  | inl last ↦ ap p ((==_iff i n).0 last) ∙ ground arith
  | inr first ↦ all_below_sound n p i (ground arith) (ground arith)
]

-- The zero is the last entry of the alphabet, and the only one.
zero_is_last : ℕ → Bool
zero_is_last i = bool_eq (get_or alphanum i 0 == 0) (i == 70)

checked : all_below 71 zero_is_last ≡ true
unfolding all_below zero_is_last
checked = refl

zero_at : (i : ℕ) → i ≤ 70 → (get_or alphanum i 0 ≡ 0) ↔ (i ≡ 70)
unfolding zero_is_last
zero_at i h = ground (arith, all_below_sound 71 zero_is_last i checked (omega arith))

get_elem?-identifier :
    (draw : ℕ → ℕ) (first n i : ℕ)
    → i < n
    → get_elem? (identifier draw first n) i ≡ some (get_or alphanum (draw (first + i)) 0)
unfolding identifier
get_elem?-identifier draw first zero i h = absurd (omega arith)
get_elem?-identifier draw first (suc n) zero h =
    ap (λ k. some (get_or alphanum (draw k) 0)) (omega arith)
get_elem?-identifier draw first (suc n) (suc i) h =
    get_elem?-identifier draw (suc first) n i (omega arith)
    ∙ ap (λ k. some (get_or alphanum (draw k) 0)) (omega arith)

-- Where every draw is at most 70, an identifier has 15 bytes, and each is the entry of the alphabet that
-- was drawn; it is the zero at the end of the alphabet's literal just where 70 was drawn.
pub random_identifier_lem :
    (draw : ℕ → ℕ) (first i : ℕ)
    → ((k : ℕ) → draw k ≤ 70)
    → i < 15
    → (length (random_identifier draw first) ≡ 15)
      × (get_elem? (random_identifier draw first) i ≡ some (get_or alphanum (draw (first + i)) 0))
      × ((get_or alphanum (draw (first + i)) 0 ≡ 0) ↔ (draw (first + i) ≡ 70))
unfolding random_identifier
random_identifier_lem draw first i bounded inside = (
  length-identifier draw first 15,
  get_elem?-identifier draw first 15 i inside,
  zero_at (draw (first + i)) (bounded (first + i)),
)
