-- ===== src/Map.antt =====
-- `std::map`, as mage/core uses it: the entries in the order of their keys, each key once.
pub mod Laws
use mage.Base.{
  ℕ, ◌≡◌, ◌↔◌, Bool, true, false, List, [], ◌∷◌, Option, none, some, ltb, ◌==◌, bytes_eq,
  bytes_eq_iff, ==_iff, if◌then◌else◌, ◌&&◌, ◌||◌,
}
use mage.Bytes.{Bytes}

-- A type of keys: its equality and its order.
pub record Key (K : Type 0) : Type 0 where
  pub eq : K → K → Bool
  pub eq_iff : (a b : K) → (eq a b ≡ true) ↔ (a ≡ b)
  pub less : K → K → Bool

-- `std::string` compares bytes, and a prefix comes first.
unfoldable pub bytes_less : Bytes → Bytes → Bool
bytes_less [] [] = false
bytes_less [] (c ∷ cs) = true
bytes_less (b ∷ bs) [] = false
bytes_less (b ∷ bs) (c ∷ cs) = ltb b c || (b == c && bytes_less bs cs)

instance abbrev pub name_key : Key Bytes
name_key = record { eq = bytes_eq; eq_iff = bytes_eq_iff; less = bytes_less }

instance abbrev pub pipe_key : Key ℕ
pipe_key = record { eq = ◌==◌; eq_iff = ==_iff; less = ltb }

module _ {K V : Type 0} ⦃key : Key K⦄ where
  unfoldable pub find : K → List (K × V) → Option V
  find k [] = none
  find k ((j, v) ∷ m) = if key.eq j k then some v else find k m

  place : K → V → List (K × V) → List (K × V)
  place k v [] = (k, v) ∷ []
  place k v ((j, w) ∷ m) = if key.less k j then (k, v) ∷ (j, w) ∷ m else (j, w) ∷ place k v m

  -- `insert` leaves an entry that is there alone.
  unfoldable pub insert : K → V → List (K × V) → List (K × V)
  unfolding find place
  insert k v m = elim (find k m) [ none ↦ place k v m | some w ↦ m ]

  unfoldable pub erase : K → List (K × V) → List (K × V)
  erase k [] = []
  erase k ((j, v) ∷ m) = if key.eq j k then erase k m else (j, v) ∷ erase k m
