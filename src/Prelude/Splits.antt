-- ===== src/Prelude/Splits.antt =====
-- `s.split(c)`, `c.join(parts)` with one character, and the decimal texts of numbers.
use dong_tai_server.Prelude.Tests.{if◌then◌else◌, nat_beq, nat_beq_iff, ltb, Bool-cases}
use dong_tai_server.Prelude.Lists.{All, All-append}
use dong_tai_server.Prelude.Text.{Text}
use Prim.Native.Nat.{ℕ, zero, suc, ◌+◌, ◌*◌, ◌-◌, ◌<◌, ◌/◌, ◌%◌}
use mathlib.Core.Path.{◌≡◌, refl, ◌∙◌, ap}
use mathlib.Core.Logic.{◌≢◌, inl, inr}
use mathlib.Core.Bool.{Bool, true, false}
use mathlib.Core.Option.{Option, none, some}
use mathlib.Core.List.{List, [], ◌∷◌, ◌++◌}
use native.Mathlib.Omega.{arith}

abbrev pub on_head : ℕ → List Text → List Text
on_head d [] = []
on_head d (p ∷ ps) = (d ∷ p) ∷ ps

abbrev pub split : ℕ → Text → List Text
split c [] = [] ∷ []
split c (d ∷ s) = let rest = split c s in if nat_beq d c then [] ∷ rest else on_head d rest

abbrev pub join : ℕ → List Text → Text
join c [] = []
join c (p ∷ []) = p
join c (p ∷ q ∷ ps) = p ++ c ∷ join c (q ∷ ps)

pub split-one : (c : ℕ) (s : Text) → All (λ d. d ≢ c) s → split c s ≡ s ∷ []
split-one c [] h = refl
split-one c (d ∷ s) h =
    let off : nat_beq d c ≡ false = ground (arith, h.0) in rw (off, split-one c s h.1) refl

join-on_head :
    (c d : ℕ) (p : Text) (ps : List Text) → join c (on_head d (p ∷ ps)) ≡ d ∷ join c (p ∷ ps)
join-on_head c d p [] = refl
join-on_head c d p (q ∷ ps) = refl

abbrev IsNonempty : List Text → Type 0
IsNonempty ps = (q : Text) × (qs : List Text) × (ps ≡ q ∷ qs)

split-IsNonempty : (c : ℕ) (s : Text) → IsNonempty (split c s)
split-IsNonempty c [] = ([], [], refl)
split-IsNonempty c (d ∷ s) = elim (Bool-cases (nat_beq d c)) [
  | inl e ↦ rw e ([], split c s, refl)
  | inr e ↦ rw e (let (q, qs, f) = split-IsNonempty c s in rw f (d ∷ q, qs, refl))
]

-- Splitting a text and joining the parts gives the text back.
pub join-split : (c : ℕ) (s : Text) → join c (split c s) ≡ s
join-split c [] = refl
join-split c (d ∷ s) =
    let (q, qs, f) = split-IsNonempty c s in
    let rest = join-split c s in
    elim (Bool-cases (nat_beq d c)) [
      | inl e ↦
          let same : d ≡ c = (nat_beq_iff d c).0 e in
          rw e (rw f (let back = rw f at rest in cc (same, back)))
      | inr e ↦ rw e (rw f (join-on_head c d q qs ∙ ap (λ (t : Text). d ∷ t) (rw f at rest)))
    ]

abbrev zero_digit : ℕ
zero_digit = 48

unfoldable pub digits_from : ℕ → ℕ → Text
digits_from zero n = []
digits_from (suc fuel) n =
    let front = digits_from fuel (n / 10) in
    if ltb n 10 then (zero_digit + n) ∷ [] else front ++ (zero_digit + n % 10) ∷ []

-- `str(n)`
unfoldable pub digits : ℕ → Text
digits n = digits_from (suc n) n

abbrev pub is_digit : ℕ → Bool
is_digit c = if ltb c zero_digit then false else ltb c (zero_digit + 10)

unfoldable pub number_from : ℕ → Text → Option ℕ
number_from acc [] = some acc
number_from acc (c ∷ s) =
    let rest = number_from (acc * 10 + (c - zero_digit)) s in if is_digit c then rest else none

-- `int(s)` of a text without sign, space or underscore; `none` is the ValueError.
unfoldable pub number_of : Text → Option ℕ
number_of [] = none
number_of (c ∷ s) = number_from 0 (c ∷ s)

abbrev pub AreDigits : Text → Type 0
AreDigits s = All (λ c. is_digit c ≡ true) s

digits_from-AreDigits : (fuel n : ℕ) → AreDigits (digits_from fuel n)
unfolding digits_from
digits_from-AreDigits zero n = tt
digits_from-AreDigits (suc fuel) n = elim (Bool-cases (ltb n 10)) [
  | inl e ↦ rw e (ground arith, tt)
  | inr e ↦ rw e (
      All-append _ (digits_from fuel (n / 10)) _ (digits_from-AreDigits fuel (n / 10))
        (ground arith, tt))
]

number_from-append :
    (acc : ℕ) (s : Text) (c n : ℕ)
    → number_from acc s ≡ some n
    → is_digit c ≡ true
    → number_from acc (s ++ c ∷ []) ≡ some (n * 10 + (c - zero_digit))
unfolding number_from
number_from-append acc [] c n h d = rw d (ground arith)
number_from-append acc (b ∷ s) c n h d = elim (Bool-cases (is_digit b)) [
  | inl e ↦ rw e (number_from-append (acc * 10 + (b - zero_digit)) s c n (rw e at h) d)
  | inr e ↦ absurd (let no = rw e at h in cc)
]

number_from-digits : (fuel n : ℕ) → n < fuel → number_from 0 (digits_from fuel n) ≡ some n
unfolding digits_from number_from
number_from-digits zero n h = absurd (omega arith)
number_from-digits (suc fuel) n h = elim (Bool-cases (ltb n 10)) [
  | inl e ↦
      let fits : is_digit (zero_digit + n) ≡ true = ground arith in
      rw (e, fits) (ap some (omega arith))
  | inr e ↦ rw e (
      let small : n / 10 < fuel = ground arith in
      number_from-append 0 (digits_from fuel (n / 10)) (zero_digit + n % 10) (n / 10)
        (number_from-digits fuel (n / 10) small) (ground arith)
      ∙ ap some (omega arith))
]

append-nonempty : (s : Text) (c : ℕ) → s ++ c ∷ [] ≢ []
append-nonempty [] c e = cc
append-nonempty (b ∷ s) c e = cc

digits_from-nonempty : (fuel n : ℕ) → digits_from (suc fuel) n ≢ []
unfolding digits_from
digits_from-nonempty fuel n = elim (Bool-cases (ltb n 10)) [
  | inl e ↦ rw e (λ q. cc)
  | inr e ↦ rw e (append-nonempty (digits_from fuel (n / 10)) (zero_digit + n % 10))
]

number_of_eq : (s : Text) (n : ℕ) → s ≢ [] → number_from 0 s ≡ some n → number_of s ≡ some n
unfolding number_of
number_of_eq [] n h e = absurd (h refl)
number_of_eq (c ∷ s) n h e = e

-- The decimal text of a number reads as that number, and consists of digits.
pub number_of-digits : (n : ℕ) → number_of (digits n) ≡ some n
unfolding digits
number_of-digits n =
    number_of_eq (digits_from (suc n) n) n (digits_from-nonempty n n)
      (number_from-digits (suc n) n (omega arith))

pub digits-AreDigits : (n : ℕ) → AreDigits (digits n)
unfolding digits
digits-AreDigits n = digits_from-AreDigits (suc n) n
