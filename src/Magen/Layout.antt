-- ===== src/Magen/Layout.antt =====
-- Where the members of a `Params` class of mage/public/parser/classes.tmpl end.
use mage.Base.{ℕ, ◌+◌, ◌≤◌, ◌≡◌, ◌⊎◌, inl, inr, List, [], ◌∷◌, arith}
use mage.Magen.{
  MagenType, native, string, message_pipe, bool, char, int, long, double, field_size, field_at,
  fields_end, params_align, params_size,
}

pub field_at-le : (end : ℕ) (t : MagenType) → end ≤ field_at end t
unfolding field_at
field_at-le end (native bool) = omega arith
field_at-le end (native char) = omega arith
field_at-le end (native int) = omega arith
field_at-le end (native long) = omega arith
field_at-le end (native double) = omega arith
field_at-le end string = omega arith
field_at-le end message_pipe = omega arith

pub fields_end-le : (end : ℕ) (ts : List MagenType) → end ≤ fields_end end ts
unfolding fields_end
fields_end-le end [] = omega arith
fields_end-le end (t ∷ ts) =
    omega (arith, field_at-le end t, fields_end-le (field_at end t + field_size t) ts)

-- A class is aligned to 4, for its `int`, or to 8.
params_align-cases : (ts : List MagenType) → (params_align ts ≡ 4) ⊎ (params_align ts ≡ 8)
unfolding params_align
params_align-cases [] = omega arith
params_align-cases (native bool ∷ ts) = omega (arith, params_align-cases ts)
params_align-cases (native char ∷ ts) = omega (arith, params_align-cases ts)
params_align-cases (native int ∷ ts) = omega (arith, params_align-cases ts)
params_align-cases (native long ∷ ts) = omega (arith, params_align-cases ts)
params_align-cases (native double ∷ ts) = omega (arith, params_align-cases ts)
params_align-cases (string ∷ ts) = omega (arith, params_align-cases ts)
params_align-cases (message_pipe ∷ ts) = omega (arith, params_align-cases ts)

pub fields_end-le-params_size : (ts : List MagenType) → fields_end 4 ts ≤ params_size ts
unfolding params_size
fields_end-le-params_size ts = elim (params_align-cases ts) [
  | inl four ↦ rw four (omega arith)
  | inr eight ↦ rw eight (omega arith)
]
