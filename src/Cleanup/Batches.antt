-- ===== src/Cleanup/Batches.antt =====
-- Which rows the batches of a cleanup delete.
use dong_tai_server.Prelude.{
  ℕ, zero, suc, ◌+◌, ◌-◌, ◌*◌, ◌≤◌, ◌<◌, ◌≡◌, ◌↔◌, ◌⊎◌, inl, inr, true, false, not, List, [], ◌∷◌,
  ◌∈◌, filter, mem-filter, arith, Bool-cases, ltb,
}
use dong_tai_server.Cleanup.{
  PoolRow, range, zip, chunk_range, is_between, data_clean_batch, loop_main, batch_clean,
}

-- No batch of the list contains the row.
abbrev Spared : List (ℕ × ℕ) → PoolRow → Type 0
Spared [] r = Unit
Spared (c ∷ cs) r = (is_between c r ≡ false) × Spared cs r

mem-loop_main :
    (ranges : List (ℕ × ℕ)) (rows : List PoolRow) (r : PoolRow)
    → (r ∈ loop_main ranges rows) ↔ (r ∈ rows) × Spared ranges r
unfolding loop_main data_clean_batch
mem-loop_main [] rows r = (λ m. (m, tt), λ h. h.0)
mem-loop_main (c ∷ ranges) rows r =
    let rest = mem-loop_main ranges (filter (λ x. not (is_between c x)) rows) r in
    let here = mem-filter (λ x. not (is_between c x)) r rows in
    (
      λ m.
          let (kept, spared) = rest.0 m in
          let (known, test) = here.0 kept in (known, (ground arith, spared)),
      λ h.
          let test : not (is_between c r) ≡ true = ground (arith, h.1.0) in
          rest.1 (here.1 (h.0, test), h.1.1),
    )

-- The batches reach from `lower` to `lower + n * size`, the first such number that is not below
-- `upper`.
abbrev pub Reaches : ℕ → ℕ → ℕ → ℕ → Type 0
Reaches upper lower size n =
    (upper ≤ lower + n * size) × ((k : ℕ) → k < n → lower + k * size < upper)

lt_or_le : (a b : ℕ) → (a < b) ⊎ (b ≤ a)
lt_or_le a b = elim (Bool-cases (ltb a b)) [
  | inl e ↦ inl (ground arith)
  | inr e ↦ inr (ground arith)
]

-- Where the bounds have met, there is no batch.
no_chunk :
    (upper lower size : ℕ)
    → upper ≤ lower
    → Reaches upper lower size 0
      × ((r : PoolRow) → Spared [] r ↔ (r.id < lower) ⊎ (lower + 0 * size ≤ r.id))
no_chunk upper lower size h = (
  (omega arith, λ k below. absurd (omega arith)),
  λ r. (λ _. elim (lt_or_le r.id lower) [ inl a ↦ inl a | inr b ↦ inr (omega arith) ], λ _. tt),
)

-- One batch in front of those that reach `m` sizes further.
next_chunk :
    (upper lower size m : ℕ)
    → lower < upper
    → Reaches upper (lower + size) size m
    → Reaches upper lower size (suc m)
next_chunk upper lower size m h (ends, within) = (
  grind arith,
  λ k below.
      elim k as (λ j. j < suc m → lower + j * size < upper) [
        | zero ↦ λ b. omega arith
        | suc j ↦ λ b. let earlier = within j (omega arith) in grind arith
      ]
        below,
)

chunks-Spared :
    (fuel upper lower size : ℕ)
    → upper ≤ lower + fuel
    → 1 ≤ size
    → (n : ℕ) × Reaches upper lower size n
      × ((r : PoolRow)
          → Spared
              (zip (range fuel (lower + size) (upper + size) size) (range fuel lower upper size))
              r
            ↔ (r.id < lower) ⊎ (lower + n * size ≤ r.id))
unfolding range zip
chunks-Spared zero upper lower size h s =
    let (ends, none_) = no_chunk upper lower size (omega arith) in (0, ends, none_)
chunks-Spared (suc fuel) upper lower size h s = elim (Bool-cases (ltb lower upper)) [
  | inr e ↦
      let shifted : ltb (lower + size) (upper + size) ≡ false = ground arith in
      let (ends, none_) = no_chunk upper lower size (ground arith) in (0, ends, rw shifted none_)
  | inl e ↦
      let shifted : ltb (lower + size) (upper + size) ≡ true = ground arith in
      let (m, ends, rest) = chunks-Spared fuel upper (lower + size) size (omega arith) s in
      let inside : lower < upper = ground arith in
      (
        suc m,
        next_chunk upper lower size m inside ends,
        rw (shifted, e)
            (λ r. (
              λ h. elim ((rest r).0 h.1) [
                | inl below ↦ inl (ground (arith, h.0))
                | inr above ↦ inr (grind arith)
              ],
              λ h. elim h [
                | inl below ↦ (ground arith, (rest r).1 (inl (omega arith)))
                | inr above ↦ (
                  let far : lower + size ≤ r.id = grind arith in ground arith,
                  (rest r).1 (inr (grind arith)),
                )
              ],
            )),
      )
]

-- From the lower id on, a batch clean deletes every row up to a whole number of batch sizes, the first
-- that is not below the upper id, and no other row: rows behind the upper id too, whenever they were
-- updated, and not the row with the upper id if the number fits exactly.
pub batch_clean_exact :
    (upper lower size : ℕ) (rows : List PoolRow)
    → 1 ≤ size
    → (n : ℕ) × Reaches upper lower size n
      × ((r : PoolRow)
          → (r ∈ batch_clean upper lower size rows)
            ↔ (r ∈ rows) × ((r.id < lower) ⊎ (lower + n * size ≤ r.id)))
unfolding batch_clean chunk_range
batch_clean_exact upper lower size rows s =
    let (n, ends, all) = chunks-Spared (upper - lower) upper lower size (omega arith) s in
    (
      n,
      ends,
      λ r.
          let kept = mem-loop_main (chunk_range upper lower size) rows r in
          (
            λ m. let (known, spared) = kept.0 m in (known, (all r).0 spared),
            λ h. kept.1 (h.0, (all r).1 h.1),
          ),
    )
