-- ===== src/Prelude/Lists.antt =====
-- Lists measured and indexed by native numbers, and predicates on them that compute.
use Prim.Native.Nat.{ℕ, zero, suc, ◌+◌, ◌≤◌}
use mathlib.Core.Path.{◌≡◌, refl, sym, ap, subst}
use mathlib.Core.Logic.{◌↔◌, ◌⊎◌, inl, inr}
use mathlib.Core.Bool.{Bool, true, false}
use mathlib.Core.List.{List, [], ◌∷◌, ◌++◌, map}
use mathlib.Core.Option.{Option, none, some}
use native.Mathlib.Omega.{arith}
use dong_tai_server.Prelude.Tests.{Bool-cases, if◌then◌else◌, Comparison, ◌==◌}

module _ {ℓ} {A : Type ℓ} where
  abbrev pub length : List A → ℕ
  length [] = 0
  length (x ∷ xs) = suc (length xs)

  abbrev pub get_elem? : List A → ℕ → Option A
  get_elem? [] i = none
  get_elem? (x ∷ xs) zero = some x
  get_elem? (x ∷ xs) (suc i) = get_elem? xs i

  abbrev pub take : ℕ → List A → List A
  take zero xs = []
  take (suc n) [] = []
  take (suc n) (x ∷ xs) = x ∷ take n xs

  abbrev pub drop : ℕ → List A → List A
  drop zero xs = xs
  drop (suc n) [] = []
  drop (suc n) (x ∷ xs) = drop n xs

  pub length-append : (xs ys : List A) → length (xs ++ ys) ≡ length xs + length ys
  length-append [] ys = omega arith
  length-append (x ∷ xs) ys = omega (arith, length-append xs ys)

  -- Python's `filter` with a Boolean test.
  abbrev pub filter : (A → Bool) → List A → List A
  filter p [] = []
  filter p (x ∷ xs) = let rest = filter p xs in if p x then x ∷ rest else rest

  pub length-filter-le : (p : A → Bool) (xs : List A) → length (filter p xs) ≤ length xs
  length-filter-le p [] = omega arith
  length-filter-le p (x ∷ xs) = ground (arith, length-filter-le p xs)

pub length-map {ℓ κ} :
    {A : Type ℓ} {B : Type κ} (f : A → B) (xs : List A) → length (map f xs) ≡ length xs
length-map f [] = refl
length-map f (x ∷ xs) = ap suc (length-map f xs)

module _ {A : Type 0} where
  -- Membership and bounded quantification as predicates that compute.
  infix 40 ◌∈◌
  abbrev pub ◌∈◌ : A → List A → Type 0
  a ∈ [] = ⊥
  a ∈ x ∷ xs = (a ≡ x) ⊎ (a ∈ xs)

  abbrev pub All : (A → Type 0) → List A → Type 0
  All P [] = Unit
  All P (x ∷ xs) = P x × All P xs

  abbrev pub Any : (A → Type 0) → List A → Type 0
  Any P [] = ⊥
  Any P (x ∷ xs) = P x ⊎ Any P xs

  pub All-at : (P : A → Type 0) (a : A) (xs : List A) → All P xs → a ∈ xs → P a
  All-at P a [] h m = absurd m
  All-at P a (x ∷ xs) h (inl e) = subst P (sym e) h.0
  All-at P a (x ∷ xs) h (inr m) = All-at P a xs h.1 m

  pub All-map : (P Q : A → Type 0) → ((a : A) → P a → Q a) → (xs : List A) → All P xs → All Q xs
  All-map P Q f [] h = tt
  All-map P Q f (x ∷ xs) h = (f x h.0, All-map P Q f xs h.1)

  -- A bounded quantifier is a quantifier over the members.
  pub All-of : (P : A → Type 0) (xs : List A) → ((a : A) → a ∈ xs → P a) → All P xs
  All-of P [] f = tt
  All-of P (x ∷ xs) f = (f x (inl refl), All-of P xs (λ a m. f a (inr m)))

  pub All-append : (P : A → Type 0) (xs ys : List A) → All P xs → All P ys → All P (xs ++ ys)
  All-append P [] ys h k = k
  All-append P (x ∷ xs) ys h k = (h.0, All-append P xs ys h.1 k)

  pub mem-append_left : (a : A) (xs ys : List A) → a ∈ xs → a ∈ xs ++ ys
  mem-append_left a [] ys m = absurd m
  mem-append_left a (x ∷ xs) ys (inl e) = inl e
  mem-append_left a (x ∷ xs) ys (inr m) = inr (mem-append_left a xs ys m)

  pub mem-append_right : (a : A) (xs ys : List A) → a ∈ ys → a ∈ xs ++ ys
  mem-append_right a [] ys m = m
  mem-append_right a (x ∷ xs) ys m = inr (mem-append_right a xs ys m)

  pub mem-append_cases : (a : A) (xs ys : List A) → a ∈ xs ++ ys → (a ∈ xs) ⊎ (a ∈ ys)
  mem-append_cases a [] ys m = inr m
  mem-append_cases a (x ∷ xs) ys (inl e) = inl (inl e)
  mem-append_cases a (x ∷ xs) ys (inr m) = elim (mem-append_cases a xs ys m) [
    | inl l ↦ inl (inr l)
    | inr r ↦ inr r
  ]

  pub mem-take : (n : ℕ) (a : A) (xs : List A) → a ∈ take n xs → a ∈ xs
  mem-take zero a xs m = absurd m
  mem-take (suc n) a [] m = absurd m
  mem-take (suc n) a (x ∷ xs) (inl e) = inl e
  mem-take (suc n) a (x ∷ xs) (inr m) = inr (mem-take n a xs m)

  -- `filter` keeps exactly the members that pass.
  pub mem-filter :
      (p : A → Bool) (a : A) (xs : List A) → (a ∈ filter p xs) ↔ (a ∈ xs) × (p a ≡ true)
  mem-filter p a [] = (λ m. absurd m, λ m. absurd m.0)
  mem-filter p a (x ∷ xs) = elim (Bool-cases (p x)) [
    | inl e ↦ rw e (
      λ m. elim m [
        | inl q ↦ (inl q, rw q e)
        | inr r ↦ (inr ((mem-filter p a xs).0 r).0, ((mem-filter p a xs).0 r).1)
      ],
      λ m. elim m.0 [ inl q ↦ inl q | inr r ↦ inr ((mem-filter p a xs).1 (r, m.1)) ],
    )
    | inr e ↦ rw e (
      λ m. (inr ((mem-filter p a xs).0 m).0, ((mem-filter p a xs).0 m).1),
      λ m. elim m.0 [ inl q ↦ cc | inr r ↦ (mem-filter p a xs).1 (r, m.1) ],
    )
  ]

  -- Python's `x in xs`, by the computed equality.
  abbrev pub contains : ⦃c : Comparison A⦄ → List A → A → Bool
  contains [] a = false
  contains (x ∷ xs) a = if a == x then true else contains xs a

  pub contains_iff : ⦃c : Comparison A⦄ → (xs : List A) (a : A) → (contains xs a ≡ true) ↔ (a ∈ xs)
  contains_iff [] a = (λ h. cc, λ h. absurd h)
  contains_iff ⦃c⦄ (x ∷ xs) a =
      let test = c.same_iff a x in
      let rest = contains_iff xs a in (ground (arith, test, rest), ground (arith, test, rest))
