-- ===== src/Registration/Tables.antt =====
-- Tables with ids that the database gives, and update_or_create on them.
pub mod Found
use dong_tai_server.Prelude.{
  ℕ, suc, ◌+◌, ◌<◌, ◌≡◌, ◌≢◌, refl, sym, ◌∙◌, ap, subst, ◌⊎◌, inl, inr, Bool, true, false, Option,
  none, some, List, [], ◌∷◌, ◌++◌, ◌∈◌, map, filter, length, All, arith, Bool-cases, Option-cases,
  if◌then◌else◌, ◌==◌, number_comparison, nat_beq_iff,
}

pub record Table (A : Type 0) : Type 0 where
  pub rows : List A
  pub next_id : ℕ

-- A row, whether it is new, and the table.
pub record Made (A : Type 0) : Type 0 where
  pub row : A
  pub created : Bool
  pub table : Table A

module _ {A : Type 0} (id_of : A → ℕ) where
  -- `save` of one row
  abbrev pub put_row : A → List A → List A
  put_row row rows = map (λ r. if id_of r == id_of row then row else r) rows

  -- `found` are the rows of the query, with those that a join repeats; `taken` says whether a unique
  -- constraint forbids the new row. More than one row found is MultipleObjectsReturned.
  unfoldable pub update_or_create : List A → Bool → (ℕ → A) → (A → A) → Table A → Option (Made A)
  update_or_create [] true make change t = none
  update_or_create [] false make change t = some (record {
    row = make t.next_id;
    created = true;
    table = record { rows = t.rows ++ make t.next_id ∷ []; next_id = suc t.next_id };
  })
  update_or_create (x ∷ []) taken make change t = some (record {
    row = change x;
    created = false;
    table = record t { rows = put_row (change x) t.rows };
  })
  update_or_create (x ∷ y ∷ found) taken make change t = none

module _ {A : Type 0} (id_of : A → ℕ) where
  -- The ids of the rows are all different, and below the next one.
  abbrev pub Unique : List A → ℕ → Type 0
  Unique [] next = Unit
  Unique (x ∷ xs) next = (id_of x < next) × All (λ y. id_of y ≢ id_of x) xs × Unique xs next

  abbrev pub IsProper : Table A → Type 0
  IsProper t = Unique t.rows t.next_id

  put_row_apart :
      (i : ℕ) (row : A) (rows : List A)
      → All (λ y. id_of y ≢ i) rows
      → All (λ y. id_of y ≢ i) (put_row id_of row rows)
  put_row_apart i row [] h = tt
  put_row_apart i row (x ∷ rows) (here, h) =
      let rest = put_row_apart i row rows h in
      elim (Bool-cases (id_of x == id_of row)) [
        | inl e ↦
            let same : id_of x ≡ id_of row = (nat_beq_iff (id_of x) (id_of row)).0 e in
            rw e (omega arith, rest)
        | inr e ↦ rw e (here, rest)
      ]

  pub put_row-Unique :
      (row : A) (rows : List A) (next : ℕ) → Unique rows next → Unique (put_row id_of row rows) next
  put_row-Unique row [] next u = tt
  put_row-Unique row (x ∷ rows) next (l, apart, u) =
      let rest = put_row-Unique row rows next u in
      let apart' = put_row_apart (id_of x) row rows apart in
      elim (Bool-cases (id_of x == id_of row)) [
        | inl e ↦
            let same : id_of x ≡ id_of row = (nat_beq_iff (id_of x) (id_of row)).0 e in
            rw e (
              omega arith,
              subst (λ i. All (λ y. id_of y ≢ i) (put_row id_of row rows)) same apart',
              rest,
            )
        | inr e ↦ rw e (l, apart', rest)
      ]

  append_apart :
      (i : ℕ) (row : A) (rows : List A)
      → id_of row ≢ i
      → All (λ y. id_of y ≢ i) rows
      → All (λ y. id_of y ≢ i) (rows ++ row ∷ [])
  append_apart i row [] n h = (n, tt)
  append_apart i row (x ∷ rows) n (here, h) = (here, append_apart i row rows n h)

  pub append-Unique :
      (row : A) (rows : List A) (next : ℕ)
      → id_of row ≡ next
      → Unique rows next
      → Unique (rows ++ row ∷ []) (suc next)
  append-Unique row [] next e u = (omega arith, tt, tt)
  append-Unique row (x ∷ rows) next e (l, apart, u) = (
    omega arith,
    append_apart (id_of x) row rows (omega arith) apart,
    append-Unique row rows next e u,
  )

  pub put_row_ids : (row : A) (rows : List A) → map id_of (put_row id_of row rows) ≡ map id_of rows
  put_row_ids row [] = refl
  put_row_ids row (x ∷ rows) =
      let rest = put_row_ids row rows in
      elim (Bool-cases (id_of x == id_of row)) [
        | inl e ↦
            let same : id_of x ≡ id_of row = (nat_beq_iff (id_of x) (id_of row)).0 e in
            rw (e, rest, same) refl
        | inr e ↦ rw (e, rest) refl
      ]

  put_row_others :
      (row : A) (rows : List A)
      → All (λ y. id_of y ≢ id_of row) rows
      → put_row id_of row rows ≡ rows
  put_row_others row [] h = refl
  put_row_others row (x ∷ rows) (apart, h) =
      let rest = put_row_others row rows h in
      elim (Bool-cases (id_of x == id_of row)) [
        | inl e ↦ absurd (apart ((nat_beq_iff (id_of x) (id_of row)).0 e))
        | inr e ↦ rw (e, rest) refl
      ]

  module _ (test : A → Bool) where
    filter_apart :
        (i : ℕ) (x : A) (rows : List A)
        → filter test rows ≡ x ∷ []
        → All (λ y. id_of y ≢ i) rows
        → id_of x ≢ i
    filter_apart i x [] e h = absurd (cc)
    filter_apart i x (y ∷ rows) e (here, h) = elim (Bool-cases (test y)) [
      | inl f ↦ let found = rw f at e in let same : y ≡ x = cc in subst (λ z. id_of z ≢ i) same here
      | inr f ↦ filter_apart i x rows (rw f at e) h
    ]

    -- If one row passes the test, and it is saved with its id and passes the test again, it is the one that passes.
    pub put_row_found :
        (x row : A) (rows : List A) (next : ℕ)
        → Unique rows next
        → filter test rows ≡ x ∷ []
        → id_of row ≡ id_of x
        → test row ≡ true
        → filter test (put_row id_of row rows) ≡ row ∷ []
    put_row_found x row [] next u e same passes = absurd (cc)
    put_row_found x row (y ∷ rows) next (l, apart, u) e same passes = elim (Bool-cases (test y)) [
      | inl f ↦
          let found = rw f at e in
          let here : y ≡ x = cc in
          let none_left : filter test rows ≡ [] = cc in
          let id : id_of y ≡ id_of row = ap id_of here ∙ sym same in
          let hit : (id_of y == id_of row) ≡ true = (nat_beq_iff (id_of y) (id_of row)).1 id in
          let rest = put_row_others row rows (subst (λ i. All (λ z. id_of z ≢ i) rows) id apart) in
          rw (hit, rest, passes, none_left) refl
      | inr f ↦
          let found = rw f at e in
          let miss = filter_apart (id_of y) x rows found apart in
          let off : (id_of y == id_of row) ≡ false = ground (arith, miss, same) in
          rw (off, f) (put_row_found x row rows next u found same passes)
    ]

    pub append_found :
        (row : A) (rows : List A)
        → filter test rows ≡ []
        → test row ≡ true
        → filter test (rows ++ row ∷ []) ≡ row ∷ []
    append_found row [] e passes = rw passes refl
    append_found row (y ∷ rows) e passes = elim (Bool-cases (test y)) [
      | inl f ↦ absurd (let clash = rw f at e in cc)
      | inr f ↦ rw f (append_found row rows (rw f at e) passes)
    ]
