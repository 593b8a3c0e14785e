-- ===== src/Map/Laws.antt =====
-- Look-up in a map after an insertion or a removal.
use mage.Base.{
  ◌≡◌, ◌≢◌, refl, List, [], ◌∷◌, none, some, if◌then◌else◌, arith, Bool-cases, Option-cases, inl,
  inr, All,
}
use mage.Map.{Key, find, place, insert, erase}

module _ {K V : Type 0} ⦃key : Key K⦄ where
  find-place :
      (k j : K) (v : V) (m : List (K × V))
      → find k m ≡ none
      → find j (place k v m) ≡ (if key.eq k j then some v else find j m)
  unfolding find place
  find-place k j v [] h = refl
  find-place k j v ((i, w) ∷ m) h =
      ground (arith, key.eq_iff k j, key.eq_iff i j, key.eq_iff i k, find-place k j v m)

  pub find-insert :
      (k j : K) (v : V) (m : List (K × V))
      → find k m ≡ none
      → find j (insert k v m) ≡ (if key.eq k j then some v else find j m)
  unfolding insert
  find-insert k j v m h = rw (h, insert) (find-place k j v m h)

  pub insert_present : (k : K) (v w : V) (m : List (K × V)) → find k m ≡ some w → insert k v m ≡ m
  unfolding insert
  insert_present k v w m h = rw (h, insert) refl

  pub find-erase :
      (k j : K) (m : List (K × V)) → find j (erase k m) ≡ (if key.eq k j then none else find j m)
  unfolding find erase
  find-erase k j [] = ground arith
  find-erase k j ((i, w) ∷ m) =
      ground (arith, key.eq_iff k j, key.eq_iff i j, key.eq_iff i k, find-erase k j m)

  -- What holds of all entries.
  module _ (P : K × V → Type 0) where
    pub All-find : (k : K) (m : List (K × V)) (v : V) → All P m → find k m ≡ some v → P (k, v)
    unfolding find
    All-find k [] v h e = cc
    All-find k ((j, w) ∷ m) v h e = ground (arith, key.eq_iff j k, All-find k m v)

    All-place : (k : K) (v : V) (m : List (K × V)) → P (k, v) → All P m → All P (place k v m)
    unfolding place
    All-place k v [] p h = (p, tt)
    All-place k v ((j, w) ∷ m) p h = elim (Bool-cases (key.less k j)) [
      | inl before ↦ rw before (p, h)
      | inr after ↦ rw after (h.0, All-place k v m p h.1)
    ]

    pub All-insert : (k : K) (v : V) (m : List (K × V)) → P (k, v) → All P m → All P (insert k v m)
    unfolding insert
    All-insert k v m p h = elim (Option-cases (find k m)) [
      | inl new ↦ rw (new, insert) (All-place k v m p h)
      | inr (w, old) ↦ rw (old, insert) h
    ]

    pub All-erase : (k : K) (m : List (K × V)) → All P m → All P (erase k m)
    unfolding erase
    All-erase k [] h = tt
    All-erase k ((j, w) ∷ m) h = elim (Bool-cases (key.eq j k)) [
      | inl gone ↦ rw gone (All-erase k m h.1)
      | inr stays ↦ rw stays (h.0, All-erase k m h.1)
    ]

module _ {K V : Type 0} ⦃key : Key K⦄ (k : K) (v : V) (m : List (K × V))
    (new : find k m ≡ none) where
  pub find-insert_self : find k (insert k v m) ≡ some v
  find-insert_self = ground (arith, find-insert k k v m new, key.eq_iff k k)

  pub find-insert_ne : (j : K) → k ≢ j → find j (insert k v m) ≡ find j m
  find-insert_ne j apart = ground (arith, find-insert k j v m new, key.eq_iff k j)

  -- What was inserted is erased.
  pub find-erase-insert : (j : K) → find j m ≡ none → find j (erase k (insert k v m)) ≡ none
  find-erase-insert j absent =
      ground (arith, find-erase k j (insert k v m), find-insert k j v m new, key.eq_iff k j)
