-- ===== src/TaintOrigin/Url/Pattern.antt =====
-- The pattern of a URL whose tainted path segment is masked.
use dong_tai_server.Prelude.{
  ℕ, zero, suc, ◌+◌, ◌≡◌, ◌≢◌, refl, sym, ◌∙◌, ap, inl, inr, true, Option, some, List, [], ◌∷◌,
  ◌++◌, ◌∈◌, All-map, map, take, drop, get_elem?, arith, Bool-cases, Option-cases, ◌==◌,
  number_comparison, text_comparison, text_beq_iff,
}
use mathlib.Core.Option
use dong_tai_server.Prelude.Text.{Text, codes}
use dong_tai_server.Prelude.Splits.{
  split, split-one, on_head, join, digits, is_digit, digits-AreDigits, number_of-digits,
}
use dong_tai_server.TaintOrigin.{first_index, parse_path}
use dong_tai_server.TaintOrigin.Url.{
  second_number, both_parts, masked_url, location_of, locations_of, mask, mask_all,
  get_original_url,
}

abbrev placeholder : Text
placeholder = codes "<placeholder>"

abbrev pub masked_at : ℕ → List Text → List Text
masked_at i parts = take i parts ++ placeholder ∷ drop (suc i) parts

mask-at :
    (i : ℕ) (parts : List Text) (p : Text)
    → get_elem? parts i ≡ some p
    → mask i parts ≡ some (masked_at i parts)
unfolding mask
mask-at i [] p h = absurd (cc)
mask-at zero (part ∷ parts) p h = refl
mask-at (suc i) (part ∷ parts) p h = rw (mask-at i parts p h) refl

-- Where a text stands first.
abbrev pub FirstAt : Text → ℕ → List Text → Type 0
FirstAt taint i parts = (get_elem? parts i ≡ some taint) × ¬ (taint ∈ take i parts)

first_index-FirstAt :
    (taint : Text) (parts : List Text) (start n : ℕ)
    → first_index taint (map (λ p. some p) parts) start ≡ some n
    → (i : ℕ) × (n ≡ start + i) × FirstAt taint i parts
unfolding first_index
first_index-FirstAt taint [] start n h = absurd (cc)
first_index-FirstAt taint (p ∷ parts) start n h = elim (Bool-cases (p == taint)) [
  | inl e ↦
      let here = rw e at h in
      let same = (text_beq_iff p taint).0 e in (zero, ground arith, (ap some same, λ m. m))
  | inr e ↦
      let later = rw e at h in
      let (i, at_, first) = first_index-FirstAt taint parts (suc start) n later in
      (
        suc i,
        omega arith,
        (
          first.0,
          λ m. elim m [
            | inl q ↦ (let yes = (text_beq_iff p taint).1 (sym q) in cc)
            | inr k ↦ first.1 k
          ],
        ),
      )
]

no_colon : (c : ℕ) → is_digit c ≡ true → c ≢ b':'
no_colon c h = ground arith

split-description :
    (i : ℕ) → split b':' (codes "location:" ++ digits i) ≡ codes "location" ∷ digits i ∷ []
split-description i =
    let plain =
      All-map (λ c. is_digit c ≡ true) (λ c. c ≢ b':') no_colon (digits i) (digits-AreDigits i) in
    ap
      (λ (r : List Text). on_head b'l' (
        on_head b'o' (
          on_head b'c'
            (on_head b'a' (on_head b't' (on_head b'i' (on_head b'o' (on_head b'n' ([] ∷ r)))))))))
      (split-one b':' (digits i) plain)

location_of-digits : (i : ℕ) → location_of (codes "location:" ++ digits i) ≡ some i
unfolding location_of
location_of-digits i = ap second_number (split-description i) ∙ number_of-digits i

mask_all-one :
    (i : ℕ) (parts masked : List Text)
    → mask i parts ≡ some masked
    → mask_all (i ∷ []) parts ≡ some masked
unfolding mask_all
mask_all-one i parts masked h = rw (mask_all, h) refl

original_lem :
    (uri taint : Text) (i : ℕ)
    → FirstAt taint i (split b'/' uri)
    → get_original_url uri ((codes "location:" ++ digits i) ∷ [])
      ≡ some (join b'/' (masked_at i (split b'/' uri)))
unfolding get_original_url locations_of
original_lem uri taint i at_ =
    ap (λ (o : Option ℕ). masked_url uri (both_parts o (some []))) (location_of-digits i)
    ∙ ap (Option.map (join b'/'))
        (mask_all-one i (split b'/' uri) _ (mask-at i (split b'/' uri) taint at_.0))

-- If parse_path describes a place for a tainted text, then get_original_url takes that description
-- and masks in the URL the first segment that is the text, and nothing else.
pub parse_path-get_original_url :
    (uri taint desc : Text)
    → parse_path uri taint ≡ some desc
    → (i : ℕ) × FirstAt taint i (split b'/' uri)
      × (get_original_url uri (desc ∷ []) ≡ some (join b'/' (masked_at i (split b'/' uri))))
unfolding parse_path
parse_path-get_original_url uri taint desc h =
    elim (Option-cases (first_index taint (map (λ p. some p) (split b'/' uri)) 0)) [
      | inl e ↦ absurd (let no = rw e at h in cc)
      | inr e ↦
          let described = rw e.1 at h in
          let (i, at_, first) = first_index-FirstAt taint (split b'/' uri) 0 e.0 e.1 in
          let desc_eq : desc ≡ codes "location:" ++ digits i = ground (arith, described, at_) in
          (i, first, rw desc_eq (original_lem uri taint i first))
    ]
