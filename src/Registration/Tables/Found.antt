-- ===== src/Registration/Tables/Found.antt =====
-- What the query of an update_or_create finds after it, and what a second one with the same query does.
use dong_tai_server.Prelude.{
  ℕ, suc, ◌≡◌, refl, sym, ◌∙◌, ap, Bool, true, false, inl, inr, none, some, List, [], ◌∷◌, ◌++◌,
  ◌≤◌, ◌∈◌, length, mem-append_right, equal_self, filter, arith, Bool-cases, subst,
  number_comparison,
}
use dong_tai_server.Registration.Tables.{
  Table, Made, Unique, IsProper, update_or_create, put_row, put_row-Unique, append-Unique,
  put_row_found, append_found,
}

pub filter_within :
    {A : Type 0} (p q : A → Bool) (xs : List A)
    → ((x : A) → q x ≡ true → p x ≡ true)
    → filter q (filter p xs) ≡ filter q xs
filter_within p q [] within = refl
filter_within p q (x ∷ xs) within =
    let rest = filter_within p q xs within in
    elim (Bool-cases (p x)) [
      | inl e ↦ elim (Bool-cases (q x)) [
        | inl f ↦ rw (e, f, rest) refl
        | inr f ↦ rw (e, f, rest) refl
      ]
      | inr e ↦ elim (Bool-cases (q x)) [
        | inl f ↦ absurd (let clash = within x f in cc)
        | inr f ↦ rw (e, f, rest) refl
      ]
    ]

pub found_passes :
    {A : Type 0} (test : A → Bool) (x : A) (xs : List A) → filter test xs ≡ x ∷ [] → test x ≡ true
found_passes test x [] e = absurd (cc)
found_passes test x (y ∷ xs) e = elim (Bool-cases (test y)) [
  | inl f ↦ let found = rw f at e in cc
  | inr f ↦ found_passes test x xs (rw f at e)
]

-- A row that is the only one found stays so when it is saved, if the test sees the same in it.
pub put_row_settled :
    {A : Type 0} (id_of : A → ℕ) (test : A → Bool) (t : Table A) (x row : A)
    → IsProper id_of t
    → filter test t.rows ≡ x ∷ []
    → id_of row ≡ id_of x
    → test row ≡ test x
    → Unique id_of (put_row id_of row t.rows) t.next_id
      × (filter test (put_row id_of row t.rows) ≡ row ∷ [])
put_row_settled id_of test t x row proper one same still = (
  put_row-Unique id_of row t.rows t.next_id proper,
  put_row_found id_of test x row t.rows t.next_id proper one same
      (still ∙ found_passes test x t.rows one),
)

module _ {A : Type 0} (id_of : A → ℕ) (test : A → Bool) (make : ℕ → A) (change : A → A)
    (fresh : (i : ℕ) → id_of (make i) ≡ i) (passes : (i : ℕ) → test (make i) ≡ true)
    (kept : (x : A) → id_of (change x) ≡ id_of x)
    (still : (x : A) → test x ≡ true → test (change x) ≡ true) where
  found-made :
      (found : List A) (taken : Bool) (t : Table A) (made : Made A)
      → filter test t.rows ≡ found
      → IsProper id_of t
      → update_or_create id_of found taken make change t ≡ some made
      → IsProper id_of made.table × (filter test made.table.rows ≡ made.row ∷ [])
  unfolding update_or_create
  found-made [] true t made none_found proper e = absurd (cc)
  found-made [] false t made none_found proper e =
      let row : A = make t.next_id in
      let is_made : record {
        row = row;
        created = true;
        table = record { rows = t.rows ++ row ∷ []; next_id = suc t.next_id };
      }
          ≡ made =
        cc in
      subst (λ m. IsProper id_of m.table × (filter test m.table.rows ≡ m.row ∷ [])) is_made
        (
          append-Unique id_of row t.rows t.next_id (fresh t.next_id) proper,
          append_found id_of test row t.rows none_found (passes t.next_id),
        )
  found-made (x ∷ []) taken t made one proper e =
      let row : A = change x in
      let is_made : record {
        row = row;
        created = false;
        table = record t { rows = put_row id_of row t.rows };
      }
          ≡ made =
        cc in
      subst (λ m. IsProper id_of m.table × (filter test m.table.rows ≡ m.row ∷ [])) is_made
        (
          put_row-Unique id_of row t.rows t.next_id proper,
          put_row_found id_of test x row t.rows t.next_id proper one (kept x)
              (still x (found_passes test x t.rows one)),
        )
  found-made (x ∷ y ∷ found) taken t made more proper e = absurd (cc)

  -- After update_or_create, the row made is the only one that its query finds.
  pub update_or_create_found :
      (taken : Bool) (t : Table A) (made : Made A)
      → IsProper id_of t
      → update_or_create id_of (filter test t.rows) taken make change t ≡ some made
      → IsProper id_of made.table × (filter test made.table.rows ≡ made.row ∷ [])
  update_or_create_found taken t made proper e =
      found-made (filter test t.rows) taken t made refl proper e

-- If its query finds one row, update_or_create saves that row.
pub update_or_create_one :
    {A : Type 0} (id_of : A → ℕ) (taken : Bool) (make : ℕ → A) (change : A → A) (t : Table A)
    (x : A)
    → update_or_create id_of (x ∷ []) taken make change t
      ≡ some (record {
        row = change x;
        created = false;
        table = record t { rows = put_row id_of (change x) t.rows };
      })
unfolding update_or_create
update_or_create_one id_of taken make change t x = refl

-- More than one row found is an error.
pub update_or_create_many :
    {A : Type 0} (id_of : A → ℕ) (found : List A) (taken : Bool) (make : ℕ → A) (change : A → A)
    (t : Table A)
    → 2 ≤ length found
    → update_or_create id_of found taken make change t ≡ none
unfolding update_or_create
update_or_create_many id_of [] taken make change t many = absurd (omega (arith, many))
update_or_create_many id_of (x ∷ []) taken make change t many = absurd (omega (arith, many))
update_or_create_many id_of (x ∷ y ∷ found) taken make change t many = refl

-- A row saved in place of one with its id is among the rows.
pub mem-put_row :
    {A : Type 0} (id_of : A → ℕ) (x row : A) (rows : List A)
    → x ∈ rows
    → id_of row ≡ id_of x
    → row ∈ put_row id_of row rows
mem-put_row id_of x row [] m e = absurd m
mem-put_row id_of x row (y ∷ rows) (inl same) e =
    inl (sym (rw (sym (ap id_of same) ∙ sym e, equal_self (id_of row)) refl))
mem-put_row id_of x row (y ∷ rows) (inr m) e = inr (mem-put_row id_of x row rows m e)

module _ {A : Type 0} (id_of : A → ℕ) (test : A → Bool) (make : ℕ → A) (change : A → A)
    (passes : (i : ℕ) → test (make i) ≡ true) (kept : (x : A) → id_of (change x) ≡ id_of x)
    (still : (x : A) → test x ≡ true → test (change x) ≡ true) where
  pub mem_made :
      (found : List A) (taken : Bool) (t : Table A) (made : Made A)
      → ((x : A) → x ∈ found → (x ∈ t.rows) × (test x ≡ true))
      → update_or_create id_of found taken make change t ≡ some made
      → (made.row ∈ made.table.rows) × (test made.row ≡ true)
  unfolding update_or_create
  mem_made [] true t made within e = absurd (cc)
  mem_made [] false t made within e =
      let row : A = make t.next_id in
      let is_made : record {
        row = row;
        created = true;
        table = record { rows = t.rows ++ row ∷ []; next_id = suc t.next_id };
      }
          ≡ made =
        cc in
      subst (λ m. (m.row ∈ m.table.rows) × (test m.row ≡ true)) is_made
        (mem-append_right row t.rows (row ∷ []) (inl refl), passes t.next_id)
  mem_made (x ∷ []) taken t made within e =
      let row : A = change x in
      let (m, passed) = within x (inl refl) in
      let is_made : record {
        row = row;
        created = false;
        table = record t { rows = put_row id_of row t.rows };
      }
          ≡ made =
        cc in
      subst (λ m. (m.row ∈ m.table.rows) × (test m.row ≡ true)) is_made
        (mem-put_row id_of x row t.rows m (kept x), still x passed)
  mem_made (x ∷ y ∷ found) taken t made within e = absurd (cc)
