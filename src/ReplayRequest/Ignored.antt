-- ===== src/ReplayRequest/Ignored.antt =====
-- A request is sent without any payload where "param_name" holds lists of names.
use dong_tai_server.Prelude.{
  ◌≡◌, refl, ◌∙◌, inl, inr, not, ◌&&◌, Option, none, some, List, [], ◌∷◌, length, All, arith,
  Bool-cases, Option-cases, ◌==◌, number_comparison, text_comparison,
}
use mathlib.Core.Option
use dong_tai_server.Prelude.Text.{Text, codes}
use dong_tai_server.ReplayRequest.{
  Named, name, names, Wire, Sent, rewrite_position, rewrite_positions, replace_body, replace_json,
  replace_in, replace_header, replace_cookie,
}
use dong_tai_server.ReplayRequest.Replaced.{replace_in-names}

abbrev pub IsList : Text × Named → Type 0
IsList (position, name n) = ⊥
IsList (position, names ns) = Unit

-- The parameters and the body of a request are those of another.
abbrev pub SameContent : Sent → Sent → Type 0
SameContent r s = (s.params ≡ r.params) × (s.body ≡ r.body)

replace_body-names :
    (wire : Wire) (ns : List Text) (payload : Text) (body : Option Text) (b : Text)
    → replace_body wire (names ns) payload body ≡ some b
    → some b ≡ body
unfolding replace_body replace_json
replace_body-names wire ns payload none b h = absurd (cc)
replace_body-names wire ns payload (some body) b h =
    let same = replace_in-names b'&' b'=' ns payload body in cc

map-eq_some :
    {A B : Type 0} (f : A → B) (o : Option A) (b : B)
    → Option.map f o ≡ some b
    → (a : A) × (o ≡ some a) × (b ≡ f a)
map-eq_some f none b h = absurd (cc)
map-eq_some f (some a) b h = (a, refl, (let same : some (f a) ≡ some b = h in cc))

rewrite_position-names :
    (wire : Wire) (payload taint position : Text) (ns : List Text) (r s : Sent)
    → rewrite_position wire payload taint position (names ns) r ≡ some s
    → SameContent r s
unfolding rewrite_position
rewrite_position-names wire payload taint position ns r s h =
    elim (Bool-cases (position == codes "GET")) [
      | inl e ↦
          let sent : some (record r { params = replace_in b'&' b'=' (names ns) payload r.params })
              ≡ some s =
            rw (rewrite_position, e) at h in
          let same = replace_in-names b'&' b'=' ns payload r.params in ground (arith, sent, same)
      | inr e1 ↦ elim (Bool-cases (position == codes "POST")) [
        | inl e ↦
            let (b, f, g) =
              map-eq_some (λ (b : Text). record r { body = some b })
                (replace_body wire (names ns) payload r.body) s
                (rw (rewrite_position, e1, e) at h) in
            let same = replace_body-names wire ns payload r.body b f in rw g (refl, same)
        | inr e2 ↦ elim (Bool-cases (position == codes "HEADER")) [
          | inl e ↦
              let (b, f, g) =
                map-eq_some (λ (x : Text). record r { header = x })
                  (replace_header wire (names ns) payload r.header) s
                  (rw (rewrite_position, e1, e2, e) at h) in
              rw g (refl, refl)
          | inr e3 ↦ elim (Bool-cases (position == codes "COOKIE")) [
            | inl e ↦
                let (b, f, g) =
                  map-eq_some (λ (x : Text). record r { header = x })
                    (replace_cookie wire (names ns) payload r.header) s
                    (rw (rewrite_position, e1, e2, e3, e) at h) in
                rw g (refl, refl)
            | inr e4 ↦ elim (Bool-cases (position == codes "PATH" && not (length taint == 0))) [
              | inl e ↦
                  (let sent = rw (rewrite_position, e1, e2, e3, e4, e) at h in ground (arith, sent))
              | inr e ↦
                  (let sent = rw (rewrite_position, e1, e2, e3, e4, e) at h in ground (arith, sent))
            ]
          ]
        ]
      ]
    ]

-- If "param_name" is a dict of lists, as parse_taint_position makes it, then the request that is sent
-- again has the parameters and the body of the old one: the payload is in neither.
pub rewrite_positions-SameContent :
    (wire : Wire) (payload taint : Text) (params : List (Text × Named)) (r s : Sent)
    → All IsList params
    → rewrite_positions wire payload taint params r ≡ some s
    → SameContent r s
unfolding rewrite_positions
rewrite_positions-SameContent wire payload taint [] r s h e = ground arith
rewrite_positions-SameContent wire payload taint ((position, name n) ∷ params) r s h e = absurd h.0
rewrite_positions-SameContent wire payload taint ((position, names ns) ∷ params) r s h e =
    elim (Option-cases (rewrite_position wire payload taint position (names ns) r)) [
      | inl f ↦ absurd (let no = rw (rewrite_positions, f) at e in cc)
      | inr (r', f) ↦
          let later : rewrite_positions wire payload taint params r' ≡ some s =
            rw (rewrite_positions, f) at e in
          let one = rewrite_position-names wire payload taint position ns r r' f in
          let rest = rewrite_positions-SameContent wire payload taint params r' s h.1 later in
          (rest.0 ∙ one.0, rest.1 ∙ one.1)
    ]
