-- ===== src/Cleanup/Old.antt =====
-- Which of the old rows a cleanup leaves.
use dong_tai_server.Prelude.{
  ℕ, zero, suc, ◌*◌, ◌≤◌, ◌≡◌, refl, sym, ◌∙◌, ap, inl, inr, some, List, [], ◌∷◌, ◌∈◌, All, All-at,
  mem-filter, arith, Bool-cases, Option-cases, if◌then◌else◌, ltb, leb,
}
use dong_tai_server.Cleanup.{
  PoolRow, last_id, first_id, old_rows, clean_between, data_cleanup, seconds_per_day,
}
use dong_tai_server.Cleanup.Batches.{batch_clean_exact}

-- The id stands on a row, and every row's id is at most, or at least, that one.
abbrev HasLast : List PoolRow → ℕ → Type 0
HasLast rows m = (last_id rows ≡ some m) × ((r : PoolRow) → r ∈ rows → r.id ≤ m)

abbrev HasFirst : List PoolRow → ℕ → Type 0
HasFirst rows m = (first_id rows ≡ some m) × ((r : PoolRow) → r ∈ rows → m ≤ r.id)

last_id-HasLast : (q : PoolRow) (rows : List PoolRow) → q ∈ rows → (m : ℕ) × HasLast rows m
unfolding last_id
last_id-HasLast q [] h = absurd h
last_id-HasLast q (r ∷ rows) h = elim (Option-cases (last_id rows)) [
  | inl e ↦ (
    r.id,
    (
      rw (last_id, e) refl,
      λ x m. elim m [
        | inl here ↦ rw here (omega arith)
        | inr there ↦ absurd (let (k, (f, _)) = last_id-HasLast x rows there in cc)
      ],
    ),
  )
  | inr (i, e) ↦ (
    if ltb i r.id then r.id else i,
    (
      rw (last_id, e) refl,
      λ x m. elim m [
        | inl here ↦ rw here (ground arith)
        | inr there ↦
            let (k, (f, most)) = last_id-HasLast x rows there in
            let same : k ≡ i = (let both : some k ≡ some i = cc (f, e) in cc) in
            let low : x.id ≤ k = most x there in ground arith
      ],
    ),
  )
]

first_id-HasFirst : (q : PoolRow) (rows : List PoolRow) → q ∈ rows → (m : ℕ) × HasFirst rows m
unfolding first_id
first_id-HasFirst q [] h = absurd h
first_id-HasFirst q (r ∷ rows) h = elim (Option-cases (first_id rows)) [
  | inl e ↦ (
    r.id,
    (
      rw (first_id, e) refl,
      λ x m. elim m [
        | inl here ↦ rw here (omega arith)
        | inr there ↦ absurd (let (k, (f, _)) = first_id-HasFirst x rows there in cc)
      ],
    ),
  )
  | inr (i, e) ↦ (
    if ltb r.id i then r.id else i,
    (
      rw (first_id, e) refl,
      λ x m. elim m [
        | inl here ↦ rw here (ground arith)
        | inr there ↦
            let (k, (f, least)) = first_id-HasFirst x rows there in
            let same : k ≡ i = (let both : some k ≡ some i = cc (f, e) in cc) in
            let high : k ≤ x.id = least x there in ground arith
      ],
    ),
  )
]

first_id-mem :
    (rows : List PoolRow) (m : ℕ) → first_id rows ≡ some m → (r : PoolRow) × (r ∈ rows) × (r.id ≡ m)
unfolding first_id
first_id-mem [] m h = absurd (cc)
first_id-mem (r ∷ rows) m h = elim (Option-cases (first_id rows)) [
  | inl e ↦ (r, inl refl, (let same = rw (first_id, e) at h in cc))
  | inr (i, e) ↦
      let (q, there, own) = first_id-mem rows i e in
      let pick = rw (first_id, e) at h in
      elim (Bool-cases (ltb r.id i)) [
        | inl less ↦ (r, inl refl, ground arith)
        | inr more ↦ (q, inr there, ground arith)
      ]
]

mem-old_rows :
    (now days : ℕ) (rows : List PoolRow) (r : PoolRow) → r ∈ old_rows now days rows → r ∈ rows
unfolding old_rows
mem-old_rows now days rows r m = elim (Bool-cases (leb (seconds_per_day * days) now)) [
  | inl e ↦ let there = rw e at m in ((mem-filter _ r rows).0 there).0
  | inr e ↦ absurd (rw e at m)
]

between_lem :
    (upper lower : ℕ) (rows : List PoolRow) (r : PoolRow)
    → 1 ≤ lower
    → lower ≤ r.id
    → r.id ≤ upper
    → r ∈ clean_between (some upper) (some lower) rows
    → r.id ≡ upper
unfolding clean_between
between_lem upper zero rows r one low high m = absurd (omega arith)
between_lem zero (suc lower) rows r one low high m = absurd (omega arith)
between_lem (suc upper) (suc lower) rows r one low high m =
    let (n, ends, all) = batch_clean_exact (suc upper) (suc lower) 10000 rows (omega arith) in
    elim ((all r).0 m).1 [
      | inl below ↦ absurd (omega arith)
      | inr above ↦ (let reach = ends.0 in omega arith)
    ]

-- Of the rows that are old, a cleanup leaves at most the one with the greatest id, if ids start at 1.
pub data_cleanup_leaves :
    (now days : ℕ) (rows : List PoolRow) (r : PoolRow)
    → All (λ x. 1 ≤ x.id) rows
    → r ∈ old_rows now days rows
    → r ∈ data_cleanup now days rows
    → last_id (old_rows now days rows) ≡ some r.id
unfolding data_cleanup
data_cleanup_leaves now days rows r ids old left =
    let (upper, (u, most)) = last_id-HasLast r (old_rows now days rows) old in
    let (lower, (l, least)) = first_id-HasFirst r (old_rows now days rows) old in
    let (q, there, own) = first_id-mem (old_rows now days rows) lower l in
    let one : 1 ≤ q.id = All-at (λ x. 1 ≤ x.id) q rows ids (mem-old_rows now days rows q there) in
    let still : r ∈ clean_between (some upper) (some lower) rows = rw (u, l) at left in
    let last : r.id ≡ upper =
      between_lem upper lower rows r (omega arith) (least r old) (most r old) still in
    u ∙ ap some (sym last)
