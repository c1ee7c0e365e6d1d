-- ===== src/TaintOrigin/Listed.antt =====
-- Which parameter names parse_taint_position lists for each location of the request.
use dong_tai_server.Prelude.{
  ◌≡◌, ◌≢◌, ◌↔◌, ◌⊎◌, refl, sym, ap, subst, inl, inr, Option, none, some, List, [], ◌∷◌, ◌++◌, ◌∈◌,
  contains, contains_iff, mem-append_left, mem-append_right, mem-append_cases, arith, Bool-cases,
  Option-cases, if◌then◌else◌, ◌==◌, number_comparison, text_comparison, text_beq_iff,
}
use dong_tai_server.Prelude.Text.{Text}
use dong_tai_server.TaintOrigin.{Names, names_at, set, note_name, note_locations, note_values}

-- No name is listed twice.
abbrev pub NoRepeats : List Text → Type 0
NoRepeats [] = Unit
NoRepeats (x ∷ xs) = ¬ (x ∈ xs) × NoRepeats xs

NoRepeats-append :
    (x : Text) (xs : List Text) → NoRepeats xs → ¬ (x ∈ xs) → NoRepeats (xs ++ x ∷ [])
NoRepeats-append x [] h new = (λ m. m, tt)
NoRepeats-append x (y ∷ xs) h new = (
  λ m. elim (mem-append_cases y xs (x ∷ []) m) [
    | inl k ↦ h.0 k
    | inr k ↦ elim k [ inl e ↦ new (inl (sym e)) | inr z ↦ z ]
  ],
  NoRepeats-append x xs h.1 (λ m. new (inr m)),
)

names_at-set :
    (l k : Text) (v : List Text) (d : Names)
    → names_at l (set k v d) ≡ (if k == l then v else names_at l d)
names_at-set l k v [] = refl
names_at-set l k v ((j, w) ∷ d) =
    ground (arith, names_at-set l k v d, text_beq_iff j k, text_beq_iff k l, text_beq_iff j l)

-- What noting a name changes at a location.
mem-note_name :
    (l : Text) (found : Option Text) (names : Names) (at_ n : Text)
    → (n ∈ names_at at_ (note_name l found names))
      ↔ (n ∈ names_at at_ names) ⊎ ((at_ ≡ l) × (found ≡ some n) × (n ≢ []))
unfolding note_name
mem-note_name l none names at_ n =
    (λ m. inl m, λ h. elim h [ inl m ↦ m | inr k ↦ absurd (let no = k.1 in cc) ])
mem-note_name l (some []) names at_ n = (
  λ m. inl m,
  λ h. elim h [
    | inl m ↦ m
    | inr k ↦ absurd (let same : [] ≡ n = (let q = k.1 in cc) in k.2 (sym same))
  ],
)
mem-note_name l (some (c ∷ s)) names at_ n =
    let there = names_at l names in
    elim (Bool-cases (contains there (c ∷ s))) [
      | inl e ↦ rw e (
        λ m. inl m,
        λ h. elim h [
          | inl m ↦ m
          | inr k ↦
              let known = (contains_iff there (c ∷ s)).0 e in
              let same : c ∷ s ≡ n = (let q = k.1 in cc) in
              subst (λ (x : Text). n ∈ names_at x names) (sym k.0)
                (subst (λ (x : Text). x ∈ there) same known)
        ],
      )
      | inr e ↦
          rw (e, names_at-set at_ l (there ++ (c ∷ s) ∷ []) names)
            (elim (Bool-cases (l == at_)) [
              | inl q ↦
                  let one : at_ ≡ l = sym ((text_beq_iff l at_).0 q) in
                  rw q (
                    λ m. elim (mem-append_cases n there ((c ∷ s) ∷ []) m) [
                      | inl k ↦ inl (subst (λ (x : Text). n ∈ names_at x names) (sym one) k)
                      | inr k ↦ elim k [
                        | inl same ↦ inr (one, ap some (sym same), λ off. cc)
                        | inr z ↦ absurd z
                      ]
                    ],
                    λ h. elim h [
                      | inl m ↦
                          mem-append_left n there ((c ∷ s) ∷ [])
                            (subst (λ (x : Text). n ∈ names_at x names) one m)
                      | inr k ↦ mem-append_right n there ((c ∷ s) ∷ []) (inl (let same = k.1 in cc))
                    ],
                  )
              | inr q ↦ rw q (
                λ m. inl m,
                λ h. elim h [
                  | inl m ↦ m
                  | inr k ↦ absurd (let yes = (text_beq_iff l at_).1 (sym k.0) in cc)
                ],
              )
            ])
    ]

note_name-NoRepeats :
    (l : Text) (found : Option Text) (names : Names)
    → ((at_ : Text) → NoRepeats (names_at at_ names))
    → (at_ : Text) → NoRepeats (names_at at_ (note_name l found names))
unfolding note_name
note_name-NoRepeats l none names h at_ = h at_
note_name-NoRepeats l (some []) names h at_ = h at_
note_name-NoRepeats l (some (c ∷ s)) names h at_ =
    let there = names_at l names in
    elim (Bool-cases (contains there (c ∷ s))) [
      | inl e ↦ rw e (h at_)
      | inr e ↦
          rw (e, names_at-set at_ l (there ++ (c ∷ s) ∷ []) names)
            (elim (Bool-cases (l == at_)) [
              | inl q ↦ rw q (
                  NoRepeats-append (c ∷ s) there (h l)
                    (λ m. let yes = (contains_iff there (c ∷ s)).1 m in cc))
              | inr q ↦ rw q (h at_)
            ])
    ]

module _ (found : Text → Text → Option (Option Text)) where
  -- A parser finds the name `n` for one of the values `taints` at the location.
  abbrev pub Finds : List Text → List Text → Text → Text → Type 0
  Finds taints locations at_ n =
      (at_ ∈ locations) × ((t : Text) × (t ∈ taints) × (found at_ t ≡ some (some n))) × (n ≢ [])

  note_locations-mem :
      (taint : Text) (locations : List Text) (names out : Names) (at_ n : Text)
      → note_locations found taint locations names ≡ some out
      → (n ∈ names_at at_ out)
        ↔ (n ∈ names_at at_ names)
          ⊎ ((at_ ∈ locations) × (found at_ taint ≡ some (some n)) × (n ≢ []))
  unfolding note_locations
  note_locations-mem taint [] names out at_ n h =
      let q : names ≡ out = cc in
      subst
        (λ (o : Names).
          (n ∈ names_at at_ o)
          ↔ (n ∈ names_at at_ names) ⊎ ((at_ ∈ []) × (found at_ taint ≡ some (some n)) × (n ≢ [])))
        q (λ m. inl m, λ k. elim k [ inl m ↦ m | inr z ↦ absurd z.0 ])
  note_locations-mem taint (l ∷ locations) names out at_ n h = elim (Option-cases (found l taint)) [
    | inl e ↦ absurd (let no = rw (note_locations, e) at h in cc)
    | inr (name, e) ↦
        let later : note_locations found taint locations (note_name l name names) ≡ some out =
          rw (note_locations, e) at h in
        let ih = note_locations-mem taint locations (note_name l name names) out at_ n later in
        let noted = mem-note_name l name names at_ n in
        (
          λ m. elim (ih.0 m) [
            | inl k ↦ elim (noted.0 k) [
              | inl old ↦ inl old
              | inr (here, finds, off) ↦ inr (inl here, cc (here, finds, e), off)
            ]
            | inr (there, finds, off) ↦ inr (inr there, finds, off)
          ],
          λ k. elim k [
            | inl old ↦ ih.1 (inl (noted.1 (inl old)))
            | inr (inl here, finds, off) ↦ ih.1 (
                inl (
                  noted.1 (
                    inr (
                      here,
                      (let both : some name ≡ some (some n) = cc (here, finds, e) in cc),
                      off,
                    ))))
            | inr (inr there, finds, off) ↦ ih.1 (inr (there, finds, off))
          ],
        )
  ]

  note_locations-NoRepeats :
      (taint : Text) (locations : List Text) (names out : Names)
      → note_locations found taint locations names ≡ some out
      → ((at_ : Text) → NoRepeats (names_at at_ names))
      → (at_ : Text) → NoRepeats (names_at at_ out)
  unfolding note_locations
  note_locations-NoRepeats taint [] names out h once at_ =
      let q : names ≡ out = cc in subst (λ (o : Names). NoRepeats (names_at at_ o)) q (once at_)
  note_locations-NoRepeats taint (l ∷ locations) names out h once at_ =
      elim (Option-cases (found l taint)) [
        | inl e ↦ absurd (let no = rw (note_locations, e) at h in cc)
        | inr (name, e) ↦
            let later : note_locations found taint locations (note_name l name names) ≡ some out =
              rw (note_locations, e) at h in
            note_locations-NoRepeats taint locations (note_name l name names) out later
              (note_name-NoRepeats l name names once) at_
      ]

  -- What the two nested loops list at a location.
  abbrev pub Lists : List Text → List Text → Names → Names → Type 0
  Lists taints locations names out =
      (at_ : Text)
      → NoRepeats (names_at at_ out)
        × ((n : Text)
            → (n ∈ names_at at_ out) ↔ (n ∈ names_at at_ names) ⊎ Finds taints locations at_ n)

  pub note_values-Lists :
      (taints locations : List Text) (names out : Names)
      → note_values found taints locations names ≡ some out
      → ((at_ : Text) → NoRepeats (names_at at_ names))
      → Lists taints locations names out
  unfolding note_values
  note_values-Lists [] locations names out h once at_ =
      let q : names ≡ out = cc in
      subst
        (λ (o : Names).
          NoRepeats (names_at at_ o)
          × ((n : Text)
              → (n ∈ names_at at_ o) ↔ (n ∈ names_at at_ names) ⊎ Finds [] locations at_ n))
        q (once at_, λ n. (λ m. inl m, λ k. elim k [ inl m ↦ m | inr z ↦ absurd z.1.1 ]))
  note_values-Lists (t ∷ taints) locations names out h once at_ =
      elim (Option-cases (note_locations found t locations names)) [
        | inl e ↦ absurd (let no = rw (note_values, e) at h in cc)
        | inr (noted, e) ↦
            let later : note_values found taints locations noted ≡ some out =
              rw (note_values, e) at h in
            let (fresh, rest) =
              note_values-Lists taints locations noted out later
                (note_locations-NoRepeats t locations names noted e once) at_ in
            (
              fresh,
              λ n.
                  let first = note_locations-mem t locations names noted at_ n e in
                  (
                    λ m. elim ((rest n).0 m) [
                      | inl k ↦ elim (first.0 k) [
                        | inl old ↦ inl old
                        | inr (there, finds, off) ↦ inr (there, (t, inl refl, finds), off)
                      ]
                      | inr (there, (u, k, finds), off) ↦ inr (there, (u, inr k, finds), off)
                    ],
                    λ k. elim k [
                      | inl old ↦ (rest n).1 (inl (first.1 (inl old)))
                      | inr (there, (u, inl q, finds), off) ↦ (rest n).1 (
                          inl (
                            first.1 (
                              inr (
                                there,
                                subst (λ (x : Text). found at_ x ≡ some (some n)) q finds,
                                off,
                              ))))
                      | inr (there, (u, inr k, finds), off) ↦
                          (rest n).1 (inr (there, (u, k, finds), off))
                    ],
                  ),
            )
      ]
