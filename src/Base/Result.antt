-- ===== src/Base/Result.antt =====
-- What a call of the program ends in. A failed CHECK, NOTREACHED, a null or dangling pointer and a
-- second lock of a mutex that is held end the process.
use mathlib.Core.Path.{◌≡◌, refl}
use mathlib.Core.Logic.{◌⊎◌, inl, inr}

pub data Fault : Type 0 where
  -- `CHECK`, `CHECK_EQ`, `CHECK_NE`, `CHECK_GE` of base/check.h
  check_failed : Fault
  not_reached : Fault
  -- a null pointer, or `end()` of a map, is read through
  bad_access : Fault
  deadlock : Fault
  -- an exception of the standard library that nothing catches
  thrown : Fault

pub data Result {ℓ} (A : Type ℓ) : Type ℓ where
  ok : A → Result A
  crash : Fault → Result A

infixl 5 ◌>>=◌
abbrev pub ◌>>=◌ {ι κ} :
    {First : Type ι} {Second : Type κ} → Result First → (First → Result Second) → Result Second
crash fault >>= next = crash fault
ok value >>= next = next value

-- A chain that returns went through its first part.
pub >>=-ok {ι κ} :
    {First : Type ι} {Second : Type κ} {last : Second} (r : Result First)
    (next : First → Result Second)
    → (r >>= next) ≡ ok last
    → (value : First) × (r ≡ ok value) × (next value ≡ ok last)
>>=-ok (crash fault) next h = cc
>>=-ok (ok value) next h = (value, refl, h)

pub ok-injective {ℓ} : {A : Type ℓ} {a b : A} → ok a ≡ ok b → a ≡ b
ok-injective h = cc

pub Result-cases {ℓ} :
    {A : Type ℓ} (m : Result A) → ((a : A) × (m ≡ ok a)) ⊎ ((f : Fault) × (m ≡ crash f))
Result-cases (ok a) = inl (a, refl)
Result-cases (crash f) = inr (f, refl)
