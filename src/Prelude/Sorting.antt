-- ===== src/Prelude/Sorting.antt =====
-- Python's `sorted`, ascending or with `reverse=True`: insertion sort, which is stable.
use dong_tai_server.Prelude.Tests.{if◌then◌else◌, leb, Bool-cases}
use dong_tai_server.Prelude.Lists.{◌∈◌, All, All-map, length}
use Prim.Native.Nat.{ℕ, suc}
use mathlib.Core.Path.{◌≡◌, refl, ap, ◌∙◌}
use mathlib.Core.Logic.{◌↔◌, ◌⊎◌, inl, inr}
use mathlib.Core.Bool.{Bool, true, false}
use mathlib.Core.List.{List, [], ◌∷◌}
use native.Mathlib.Omega.{arith}

module _ {A : Type 0} (before : A → A → Bool) where
  -- `x` goes in front of the first element that it may precede.
  abbrev pub place : A → List A → List A
  place x [] = x ∷ []
  place x (y ∷ ys) = let rest = place x ys in if before x y then x ∷ y ∷ ys else y ∷ rest

  abbrev pub arrange : List A → List A
  arrange [] = []
  arrange (x ∷ xs) = place x (arrange xs)

  mem-place : (x a : A) (xs : List A) → (a ∈ place x xs) ↔ ((a ≡ x) ⊎ (a ∈ xs))
  mem-place x a [] = (λ m. m, λ m. m)
  mem-place x a (y ∷ ys) =
      (ground (arith, (mem-place x a ys).0), ground (arith, (mem-place x a ys).1))

  pub mem-arrange : (a : A) (xs : List A) → (a ∈ arrange xs) ↔ (a ∈ xs)
  mem-arrange a [] = (λ m. m, λ m. m)
  mem-arrange a (x ∷ xs) = (
    ground (arith, (mem-place x a (arrange xs)).0, (mem-arrange a xs).0),
    ground (arith, (mem-place x a (arrange xs)).1, (mem-arrange a xs).1),
  )

  All-place : (P : A → Type 0) (x : A) (xs : List A) → P x → All P xs → All P (place x xs)
  All-place P x [] h hs = (h, tt)
  All-place P x (y ∷ ys) h hs = elim (Bool-cases (before x y)) [
    | inl e ↦ rw e (h, hs)
    | inr e ↦ rw e (hs.0, All-place P x ys h hs.1)
  ]

  length-place : (x : A) (xs : List A) → length (place x xs) ≡ suc (length xs)
  length-place x [] = refl
  length-place x (y ∷ ys) = ground (arith, length-place x ys)

  pub length-arrange : (xs : List A) → length (arrange xs) ≡ length xs
  length-arrange [] = refl
  length-arrange (x ∷ xs) = length-place x (arrange xs) ∙ ap suc (length-arrange xs)

  -- Every element may precede all that follow it.
  abbrev pub InOrder : List A → Type 0
  InOrder [] = Unit
  InOrder (x ∷ xs) = All (λ y. before x y ≡ true) xs × InOrder xs

  place-front : (x : A) (xs : List A) → All (λ y. before x y ≡ true) xs → place x xs ≡ x ∷ xs
  place-front x [] h = refl
  place-front x (y ∷ ys) h = rw h.0

  -- A list that is in order stays as it is.
  pub arrange-eq_of_InOrder : (xs : List A) → InOrder xs → arrange xs ≡ xs
  arrange-eq_of_InOrder [] h = refl
  arrange-eq_of_InOrder (x ∷ xs) h = rw (arrange-eq_of_InOrder xs h.1) (place-front x xs h.0)

  module _ (total : (x y : A) → before x y ≡ false → before y x ≡ true)
      (trans : (x y z : A) → before x y ≡ true → before y z ≡ true → before x z ≡ true) where
    place-InOrder : (x : A) (xs : List A) → InOrder xs → InOrder (place x xs)
    place-InOrder x [] h = (tt, tt)
    place-InOrder x (y ∷ ys) h = elim (Bool-cases (before x y)) [
      | inl e ↦ rw e ((e, All-map _ _ (λ z le. trans x y z e le) ys h.0), h)
      | inr e ↦ rw e (All-place _ x ys (total x y e) h.0, place-InOrder x ys h.1)
    ]

    pub arrange-InOrder : (xs : List A) → InOrder (arrange xs)
    arrange-InOrder [] = tt
    arrange-InOrder (x ∷ xs) = place-InOrder x (arrange xs) (arrange-InOrder xs)

module _ {A : Type 0} (key : A → ℕ) where
  abbrev pub up : A → A → Bool
  up x y = leb (key x) (key y)

  abbrev pub down : A → A → Bool
  down x y = leb (key y) (key x)

  -- `sorted(xs, key=key)` and `sorted(xs, key=key, reverse=True)`
  abbrev pub sort_by : List A → List A
  sort_by xs = arrange up xs

  abbrev pub sort_down_by : List A → List A
  sort_down_by xs = arrange down xs

  pub sort_by-InOrder : (xs : List A) → InOrder up (sort_by xs)
  sort_by-InOrder = arrange-InOrder up (λ x y h. ground arith) (λ x y z h k. ground arith)

  pub sort_down_by-InOrder : (xs : List A) → InOrder down (sort_down_by xs)
  sort_down_by-InOrder = arrange-InOrder down (λ x y h. ground arith) (λ x y z h k. ground arith)
