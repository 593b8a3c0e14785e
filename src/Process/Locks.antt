-- ===== src/Process/Locks.antt =====
-- The mutexes of the endpoints of mage/core/endpoint.h: which are held, and what a handler does that
-- releases those that it acquired.
use mathlib.Core.List.{map-append, append-nil, append_assoc}
use mathlib.Core.Option.{some-injective}
use mage.Base.{
  ℕ, zero, suc, ◌+◌, ◌≡◌, refl, sym, ap, ◌∙◌, Bool, true, false, List, [], ◌∷◌, ◌++◌, map, some,
  get_elem?, set, replicate, All, get_elem?-append_left,
}
use native.Mathlib.Nat.{zero-add, suc-add}
use mage.Endpoint.{Endpoint}
use mage.Process.{Ref}
use mage.Process.Exact.{set-set_append, set-same}

abbrev pub locks : List Endpoint → List Bool
locks = map (λ e. e.lock)

-- The endpoints of the first heap are locked in the second as they were, and those made since are not.
abbrev pub Balanced : List Endpoint → List Endpoint → Type 0
Balanced old new = (n : ℕ) × (locks new ≡ locks old ++ replicate n false)

pub Balanced-same : (old new : List Endpoint) → locks new ≡ locks old → Balanced old new
Balanced-same old new e = (0, e ∙ sym (append-nil (locks old)))

pub Balanced-refl : (heap : List Endpoint) → Balanced heap heap
Balanced-refl heap = Balanced-same heap heap refl

replicate-append : (n k : ℕ) → replicate n false ++ replicate k false ≡ replicate (n + k) false
replicate-append zero k = rw (zero-add k) refl
replicate-append (suc n) k = rw (suc-add n k) (ap (◌∷◌ false) (replicate-append n k))

pub Balanced-trans : (a b c : List Endpoint) → Balanced a b → Balanced b c → Balanced a c
Balanced-trans a b c (n, e) (k, f) = (
  n + k,
  f
      ∙ ap (λ l. l ++ replicate k false) e
      ∙ append_assoc (locks a) (replicate n false) (replicate k false)
      ∙ ap (λ l. locks a ++ l) (replicate-append n k),
)

pub locks-set :
    (heap : List Endpoint) (r : Ref) (e : Endpoint)
    → locks (set heap r e) ≡ set (locks heap) r e.lock
locks-set [] r e = refl
locks-set (x ∷ heap) zero e = refl
locks-set (x ∷ heap) (suc r) e = ap (◌∷◌ x.lock) (locks-set heap r e)

pub lock_at :
    (heap : List Endpoint) (r : Ref) (e : Endpoint)
    → get_elem? heap r ≡ some e
    → get_elem? (locks heap) r ≡ some e.lock
lock_at [] r e h = cc
lock_at (x ∷ heap) zero e h = ap (λ o. some o.lock) (some-injective _ _ h)
lock_at (x ∷ heap) (suc r) e h = lock_at heap r e h

-- A method that leaves the lock as it is.
pub locks-kept :
    (heap : List Endpoint) (r : Ref) (e e' : Endpoint)
    → get_elem? heap r ≡ some e
    → e'.lock ≡ e.lock
    → locks (set heap r e') ≡ locks heap
locks-kept heap r e e' there same =
    locks-set heap r e'
    ∙ ap (set (locks heap) r) same
    ∙ set-same (locks heap) r e.lock (lock_at heap r e there)

-- What was done while one lock was held, and then the lock is released.
pub release :
    (heap new : List Endpoint) (r : Ref) (e held e' : Endpoint)
    → get_elem? heap r ≡ some e
    → e.lock ≡ false
    → held.lock ≡ true
    → Balanced (set heap r held) new
    → e'.lock ≡ false
    → Balanced heap (set new r e')
release heap new r e held e' there free locked (n, b) opened = (
  n,
  locks-set new r e'
      ∙ ap (set (locks new) r) opened
      ∙ ap (λ l. set l r false) (b ∙ ap (λ l. l ++ replicate n false) (locks-set heap r held))
      ∙ set-set_append (locks heap) (replicate n false) r held.lock false
      ∙ set-same (locks heap ++ replicate n false) r false (
          get_elem?-append_left (locks heap) (replicate n false) r
            (lock_at heap r e there ∙ ap some free)),
)

-- An endpoint that is made is not locked.
pub Balanced-allocated :
    (heap : List Endpoint) (e : Endpoint) → e.lock ≡ false → Balanced heap (heap ++ e ∷ [])
Balanced-allocated heap e free =
    (1, map-append _ heap (e ∷ []) ∙ ap (λ b. locks heap ++ b ∷ []) free)

abbrev pub IsUnlocked : Endpoint → Type 0
IsUnlocked e = e.lock ≡ false

pub All-IsUnlocked :
    (heap : List Endpoint) (n : ℕ) → locks heap ≡ replicate n false → All IsUnlocked heap
All-IsUnlocked [] n h = tt
All-IsUnlocked (e ∷ heap) zero h = cc
All-IsUnlocked (e ∷ heap) (suc n) h = (cc, All-IsUnlocked heap n (cc))

pub Balanced-IsUnlocked :
    (old new : List Endpoint) → Balanced old new → All IsUnlocked old → All IsUnlocked new
Balanced-IsUnlocked [] new (n, h) unlocked = All-IsUnlocked new n h
Balanced-IsUnlocked (e ∷ old) [] (n, h) unlocked = tt
Balanced-IsUnlocked (e ∷ old) (e' ∷ new) (n, h) (free, unlocked) =
    (cc, Balanced-IsUnlocked old new (n, cc) unlocked)
