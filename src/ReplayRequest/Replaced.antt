-- ===== src/ReplayRequest/Replaced.antt =====
-- What the payload replaces in a text of items.
use dong_tai_server.Prelude.{
  ℕ, ◌≡◌, ◌⊎◌, refl, ◌∙◌, ap, inl, inr, true, false, List, [], ◌∷◌, ◌++◌, All, Bool-cases,
  text_comparison,
}
use dong_tai_server.Prelude.Splits.{split, join, join-split}
use dong_tai_server.Prelude.Text.{Text}
use dong_tai_server.ReplayRequest.{Named, names, is_named, key_of, replace_item, replace_in}

-- None of the items has the name.
abbrev pub Lacks : ℕ → Named → List Text → Type 0
Lacks eq named items = All (λ i. is_named named (key_of eq i) ≡ false) items

-- `item` is the first of the items that has the name, between `before` and `after`.
abbrev pub FirstNamed : ℕ → Named → List Text → List Text → Text → List Text → Type 0
FirstNamed eq named items before item after =
    (items ≡ before ++ item ∷ after)
    × Lacks eq named before
    × (is_named named (key_of eq item) ≡ true)

replace_item-cases :
    (eq : ℕ) (named : Named) (payload : Text) (items : List Text)
    → (Lacks eq named items × (replace_item eq named payload items ≡ items))
      ⊎ ((before : List Text) × (item : Text) × (after : List Text) × FirstNamed eq named items
            before item after
          × (replace_item eq named payload items
              ≡ before ++ (key_of eq item ++ eq ∷ payload) ∷ after))
unfolding replace_item
replace_item-cases eq named payload [] = inl (tt, refl)
replace_item-cases eq named payload (i ∷ items) = elim (Bool-cases (is_named named (key_of eq i))) [
  | inl e ↦ inr ([], i, items, (refl, tt, e), rw e refl)
  | inr e ↦ elim (replace_item-cases eq named payload items) [
    | inl (lacks, same) ↦ inl ((e, lacks), rw (e, same) refl)
    | inr (before, item, after, (split_, lacks, hit), done) ↦ inr (
      i ∷ before,
      item,
      after,
      (ap (λ (l : List Text). i ∷ l) split_, (e, lacks), hit),
      rw (e, done) refl,
    )
  ]
]

-- The text keeps every item but the first with the name, which becomes the name with the payload; a
-- text without such an item stays as it is.
pub replace_in-cases :
    (sep eq : ℕ) (named : Named) (payload text : Text)
    → (Lacks eq named (split sep text) × (replace_in sep eq named payload text ≡ text))
      ⊎ ((before : List Text) × (item : Text) × (after : List Text) × FirstNamed eq named
            (split sep text)
            before
            item
            after
          × (replace_in sep eq named payload text
              ≡ join sep (before ++ (key_of eq item ++ eq ∷ payload) ∷ after)))
unfolding replace_in
replace_in-cases sep eq named payload text =
    elim (replace_item-cases eq named payload (split sep text)) [
      | inl (lacks, same) ↦ inl (lacks, ap (join sep) same ∙ join-split sep text)
      | inr (before, item, after, first, done) ↦
          inr (before, item, after, first, ap (join sep) done)
    ]

-- A list of names names no item.
pub replace_in-names :
    (sep eq : ℕ) (ns : List Text) (payload text : Text)
    → replace_in sep eq (names ns) payload text ≡ text
replace_in-names sep eq ns payload text = elim (replace_in-cases sep eq (names ns) payload text) [
  | inl h ↦ h.1
  | inr (before, item, after, first, done) ↦ absurd (let never = first.2 in cc)
]
