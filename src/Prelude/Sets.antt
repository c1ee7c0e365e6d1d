-- ===== src/Prelude/Sets.antt =====
-- Python's sets of numbers: the tests that the program makes on them, and their size.
use dong_tai_server.Prelude.Tests.{if◌then◌else◌, Bool-cases, number_comparison}
use dong_tai_server.Prelude.Lists.{◌∈◌, contains, contains_iff, length}
use Prim.Native.Nat.{ℕ, ◌≤◌}
use mathlib.Core.Path.{◌≡◌, refl}
use mathlib.Core.Logic.{◌↔◌, inl, inr}
use mathlib.Core.Bool.{Bool, true, false}
use mathlib.Core.List.{List, [], ◌∷◌}
use native.Mathlib.Omega.{arith}

-- `bool(set(xs) & set(ys))`
abbrev pub shares : List ℕ → List ℕ → Bool
shares [] ys = false
shares (x ∷ xs) ys = if contains ys x then true else shares xs ys

abbrev pub Meet : List ℕ → List ℕ → Type 0
Meet xs ys = (h : ℕ) × (h ∈ xs) × (h ∈ ys)

pub shares_iff : (xs ys : List ℕ) → (shares xs ys ≡ true) ↔ Meet xs ys
shares_iff [] ys = (λ h. cc, λ h. absurd h.1)
shares_iff (x ∷ xs) ys = elim (Bool-cases (contains ys x)) [
  | inl e ↦ (λ h. (x, inl refl, (contains_iff ys x).0 e), λ h. rw e)
  | inr e ↦ (
    λ h. let (a, m, k) = (shares_iff xs ys).0 (rw e at h) in (a, inr m, k),
    λ h. rw e (elim h.1 [
      | inl q ↦ cc ((contains_iff ys x).1 (rw q at h.2))
      | inr m ↦ (shares_iff xs ys).1 (h.0, m, h.2)
    ]),
  )
]

-- The elements of `set(xs)`, each once.
abbrev pub unique : List ℕ → List ℕ
unique [] = []
unique (x ∷ xs) = let rest = unique xs in if contains rest x then rest else x ∷ rest

pub length-unique-le : (xs : List ℕ) → length (unique xs) ≤ length xs
length-unique-le [] = omega arith
length-unique-le (x ∷ xs) = ground (arith, length-unique-le xs)

pub mem-unique : (a : ℕ) (xs : List ℕ) → (a ∈ unique xs) ↔ (a ∈ xs)
mem-unique a [] = (λ m. m, λ m. m)
mem-unique a (x ∷ xs) = elim (Bool-cases (contains (unique xs) x)) [
  | inl e ↦ (
    λ m. inr ((mem-unique a xs).0 (rw e at m)),
    λ m. rw e (elim m [
      | inl q ↦ rw q ((contains_iff (unique xs) x).0 e)
      | inr k ↦ (mem-unique a xs).1 k
    ]),
  )
  | inr e ↦ (ground (arith, e, (mem-unique a xs).0), ground (arith, e, (mem-unique a xs).1))
]
