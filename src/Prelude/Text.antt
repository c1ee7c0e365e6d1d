-- ===== src/Prelude/Text.antt =====
-- Texts as lists of code points: what the program does with Python's `str`.
use Prim.Native.Char.{code}
use Prim.Native.String.{String}
use dong_tai_server.Prelude.Tests.{nat_beq}
use dong_tai_server.Prelude.Lists.{Any}
use Prim.Native.Nat.{ℕ}
use mathlib.Core.Path.{◌≡◌, refl}
use mathlib.Core.Logic.{◌↔◌, inl, inr}
use mathlib.Core.Bool.{Bool, true, false, ◌&&◌, ◌||◌}
use mathlib.Core.List.{List, [], ◌∷◌, ◌++◌}
use native.Mathlib.Omega.{arith}

abbrev pub Text : Type 0
Text = List ℕ

-- The code points of a literal. `String` has its own `[]` and `∷`.
abbrev pub codes : String → Text
codes String.[] = []
codes (String.◌∷◌ c s) = code c ∷ codes s

-- `s.startswith(p)`
abbrev pub starts_with : Text → Text → Bool
starts_with s [] = true
starts_with [] (d ∷ p) = false
starts_with (c ∷ s) (d ∷ p) = nat_beq c d && starts_with s p

-- `a in s`
abbrev pub is_in : Text → Text → Bool
is_in a [] = starts_with [] a
is_in a (c ∷ s) = starts_with (c ∷ s) a || is_in a s

abbrev pub IsPrefix : Text → Text → Type 0
IsPrefix p s = (rest : Text) × (s ≡ p ++ rest)

pub starts_with_iff : (s p : Text) → (starts_with s p ≡ true) ↔ IsPrefix p s
starts_with_iff s [] = (λ h. (s, refl), λ h. refl)
starts_with_iff [] (d ∷ p) = (λ h. cc, λ h. cc (h.1))
starts_with_iff (c ∷ s) (d ∷ p) = (
  λ h.
      let both : (c ≡ d) × (starts_with s p ≡ true) = ground arith in
      let (rest, e) = (starts_with_iff s p).0 both.1 in (rest, cc (both.0, e)),
  λ h.
      let both : (c ≡ d) × (s ≡ p ++ h.0) = ground (arith, h.1) in
      let e = (starts_with_iff s p).1 (h.0, both.1) in ground arith,
)

-- `any(s.startswith(p) for p in ps)`
abbrev pub any_prefix : Text → List Text → Bool
any_prefix s [] = false
any_prefix s (p ∷ ps) = starts_with s p || any_prefix s ps

pub any_prefix_iff :
    (s : Text) (ps : List Text) → (any_prefix s ps ≡ true) ↔ Any (λ p. IsPrefix p s) ps
any_prefix_iff s [] = (λ h. cc, λ h. absurd h)
any_prefix_iff s (p ∷ ps) = (
  ground (arith, (starts_with_iff s p).0, (any_prefix_iff s ps).0),
  λ h. elim h [
    | inl m ↦ rw ((starts_with_iff s p).1 m)
    | inr m ↦ let e = (any_prefix_iff s ps).1 m in ground arith
  ],
)
