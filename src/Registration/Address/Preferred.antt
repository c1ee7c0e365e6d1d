-- ===== src/Registration/Address/Preferred.antt =====
-- Which address get_ipaddress takes.
use dong_tai_server.Prelude.{
  ◌≡◌, refl, sym, ◌∙◌, ap, Bool, inl, inr, Option, none, some, List, [], ◌∷◌, All, Bool-cases,
  if◌then◌else◌,
}
use dong_tai_server.Prelude.Text.{Text, codes, starts_with}
use dong_tai_server.Registration.{Interface, interfaces}
use dong_tai_server.Registration.Address.{chosen, text_or_empty, get_ipaddress}

abbrev IsComplete : Interface → Type 0
IsComplete i = (name : Text) × (ip : Text) × (i.name ≡ some name) × (i.ip ≡ some ip)

abbrev first_where : (Interface → Bool) → List Interface → Option Interface
first_where test [] = none
first_where test (i ∷ is_) = if test i then some i else first_where test is_

abbrev later : Option Interface → Option Interface → Option Interface
later (some j) here = some j
later none here = here

abbrev last_where : (Interface → Bool) → List Interface → Option Interface
last_where test [] = none
last_where test (i ∷ is_) = later (last_where test is_) (if test i then some i else none)

abbrev is_marked : Interface → Bool
is_marked i = i.is_address

abbrev is_ethernet : Interface → Bool
is_ethernet i = starts_with (text_or_empty i.name) (codes "en")

abbrev pick : Text → Option Interface → Option Interface → Text
pick other (some i) ethernet = text_or_empty i.ip
pick other none (some i) = text_or_empty i.ip
pick other none none = other

-- The ip of the first interface that is marked as the address, else of the last whose name starts with "en", else the given one.
abbrev pub preferred : Text → List Interface → Text
preferred other is_ = pick other (first_where is_marked is_) (last_where is_ethernet is_)

pick-later :
    (other : Text) (i : Interface) (marked ethernet : Option Interface)
    → pick (text_or_empty i.ip) marked ethernet ≡ pick other marked (later ethernet (some i))
pick-later other i (some j) ethernet = refl
pick-later other i none (some j) = refl
pick-later other i none none = refl

later-none : (o : Option Interface) → o ≡ later o none
later-none none = refl
later-none (some i) = refl

chosen-preferred :
    (res : Text) (is_ : List Interface)
    → All IsComplete is_
    → chosen res is_ ≡ some (preferred res is_)
unfolding chosen
chosen-preferred res [] h = refl
chosen-preferred res (i ∷ is_) ((name, ip, named, has), h) = elim (Bool-cases i.is_address) [
  | inl e ↦
      let stops : chosen res (i ∷ is_) ≡ i.ip = rw (named, e, chosen) refl in
      let marked : first_where is_marked (i ∷ is_) ≡ some i =
        ap (λ b. if b then some i else first_where is_marked is_) e in
      stops
      ∙ has
      ∙ ap some (
          ap text_or_empty (sym has)
          ∙ ap (λ m. pick res m (last_where is_ethernet (i ∷ is_))) (sym marked))
  | inr e ↦
      let marked : first_where is_marked (i ∷ is_) ≡ first_where is_marked is_ =
        ap (λ b. if b then some i else first_where is_marked is_) e in
      elim (Bool-cases (starts_with name (codes "en"))) [
        | inl f ↦
            let goes : chosen res (i ∷ is_) ≡ chosen ip is_ = rw (named, e, f, has, chosen) refl in
            let found : last_where is_ethernet (i ∷ is_)
                ≡ later (last_where is_ethernet is_) (some i) =
              ap (λ b. later (last_where is_ethernet is_) (if b then some i else none))
                (ap (λ n. starts_with (text_or_empty n) (codes "en")) named ∙ f) in
            let shown : preferred ip is_ ≡ preferred (text_or_empty i.ip) is_ =
              ap (λ o. preferred (text_or_empty o) is_) (sym has) in
            goes
            ∙ chosen-preferred ip is_ h
            ∙ ap some (
                shown
                ∙ pick-later res i (first_where is_marked is_) (last_where is_ethernet is_)
                ∙ ap (λ l. pick res (first_where is_marked is_) l) (sym found)
                ∙ ap (λ m. pick res m (last_where is_ethernet (i ∷ is_))) (sym marked))
        | inr f ↦
            let goes : chosen res (i ∷ is_) ≡ chosen res is_ = rw (named, e, f, chosen) refl in
            let found : last_where is_ethernet (i ∷ is_)
                ≡ later (last_where is_ethernet is_) (none) =
              ap (λ b. later (last_where is_ethernet is_) (if b then some i else none))
                (ap (λ n. starts_with (text_or_empty n) (codes "en")) named ∙ f) in
            goes
            ∙ chosen-preferred res is_ h
            ∙ ap some (
                ap (λ l. pick res (first_where is_marked is_) l)
                  (later-none (last_where is_ethernet is_) ∙ sym found)
                ∙ ap (λ m. pick res m (last_where is_ethernet (i ∷ is_))) (sym marked))
      ]
]

-- For a list of interfaces that all have a name and an ip, get_ipaddress gives the ip of the first one that is
-- marked as the address; else that of the last one whose name starts with "en"; else that of the first one.
pub get_ipaddress-preferred :
    (i : Interface) (is_ : List Interface)
    → All IsComplete (i ∷ is_)
    → get_ipaddress (interfaces (i ∷ is_)) ≡ preferred (text_or_empty i.ip) (i ∷ is_)
unfolding get_ipaddress
get_ipaddress-preferred i is_ ((name, ip, named, has), h) =
    ap (λ o. elim o [ none ↦ [] | some ip ↦ text_or_empty (chosen ip (i ∷ is_)) ]) has
    ∙ ap text_or_empty (chosen-preferred ip (i ∷ is_) ((name, ip, named, has), h))
    ∙ ap (λ o. preferred (text_or_empty o) (i ∷ is_)) (sym has)
