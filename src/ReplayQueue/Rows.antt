-- ===== src/ReplayQueue/Rows.antt =====
-- The rows of the replay queue before and after a write, row by row.
use dong_tai_server.Prelude.{
  ℕ, suc, ◌≤◌, ◌≡◌, ◌≢◌, refl, sym, ◌∙◌, ap, ◌⊎◌, inl, inr, Bool, true, List, [], ◌∷◌, ◌∈◌, map,
  arith, Bool-cases, if◌then◌else◌, number_comparison,
}
use dong_tai_server.Heartbeat.{Replay, waiting, solved, solving}
use dong_tai_server.ReplayQueue.{pending, discard, edit}

-- The same rows in the same order, each with `R` between what it was and what it is.
abbrev pub Pairs : (Replay → Replay → Type 0) → List Replay → List Replay → Type 0
Pairs R [] [] = Unit
Pairs R (r ∷ rows) (s ∷ after) = (s.id ≡ r.id) × R r s × Pairs R rows after
Pairs R _ _ = ⊥

-- How a row may go on, unless a task is created for it: it stays in its state, it is solved, a pending
-- row is made ready, a ready one is handed out, and one that is not solved is discarded.
abbrev pub Advances : Replay → Replay → Type 0
Advances r s =
    (s.state ≡ r.state)
    ⊎ (s.state ≡ solved)
    ⊎ ((r.state ≡ pending) × (s.state ≡ waiting))
    ⊎ ((r.state ≡ waiting) × (s.state ≡ solving))
    ⊎ ((r.state ≢ solved) × (s.state ≡ discard))

-- The ids go up along the table, and are all below the next one.
abbrev pub Ascending : ℕ → List Replay → ℕ → Type 0
Ascending low [] next = low ≤ next
Ascending low (r ∷ rows) next = (low ≤ r.id) × Ascending (suc r.id) rows next

pub Pairs-map :
    (R S : Replay → Replay → Type 0)
    → ((r s : Replay) → R r s → S r s)
    → (rows after : List Replay) → Pairs R rows after
    → Pairs S rows after
Pairs-map R S f [] [] h = tt
Pairs-map R S f [] (s ∷ after) h = absurd h
Pairs-map R S f (r ∷ rows) [] h = absurd h
Pairs-map R S f (r ∷ rows) (s ∷ after) (same, here, rest) =
    (same, f r s here, Pairs-map R S f rows after rest)

pub Pairs-refl :
    (R : Replay → Replay → Type 0)
    → ((r : Replay) → R r r)
    → (rows : List Replay) → Pairs R rows rows
Pairs-refl R f [] = tt
Pairs-refl R f (r ∷ rows) = (refl, f r, Pairs-refl R f rows)

pub Pairs-trans :
    (R : Replay → Replay → Type 0)
    → ((r s t : Replay) → R r s → R s t → R r t)
    → (rows mid after : List Replay) → Pairs R rows mid
    → Pairs R mid after
    → Pairs R rows after
Pairs-trans R f [] [] [] h k = tt
Pairs-trans R f [] [] (t ∷ after) h k = absurd k
Pairs-trans R f [] (s ∷ mid) after h k = absurd h
Pairs-trans R f (r ∷ rows) [] after h k = absurd h
Pairs-trans R f (r ∷ rows) (s ∷ mid) [] h k = absurd k
Pairs-trans R f (r ∷ rows) (s ∷ mid) (t ∷ after) (same, here, rest) (same', here', rest') =
    (same' ∙ same, f r s t here here', Pairs-trans R f rows mid after rest rest')

-- A write that is a map over the table.
pub map-Pairs :
    (R : Replay → Replay → Type 0) (f : Replay → Replay) (rows : List Replay)
    → ((r : Replay) → r ∈ rows → ((f r).id ≡ r.id) × R r (f r))
    → Pairs R rows (map f rows)
map-Pairs R f [] h = tt
map-Pairs R f (r ∷ rows) h =
    let (same, here) = h r (inl refl) in (same, here, map-Pairs R f rows (λ s m. h s (inr m)))

pub edit-Pairs :
    (R : Replay → Replay → Type 0) (test : Replay → Bool) (change : Replay → Replay)
    (rows : List Replay)
    → ((r : Replay) → R r r)
    → ((r : Replay) → r ∈ rows → test r ≡ true → ((change r).id ≡ r.id) × R r (change r))
    → Pairs R rows (edit test change rows)
unfolding edit
edit-Pairs R test change rows same h =
    map-Pairs R (λ r. if test r then change r else r) rows
      (λ r m. elim (Bool-cases (test r)) [ inl e ↦ rw e (h r m e) | inr e ↦ rw e (refl, same r) ])

pub Ascending-Pairs :
    (R : Replay → Replay → Type 0) (low next : ℕ) (rows after : List Replay)
    → Pairs R rows after
    → Ascending low rows next
    → Ascending low after next
Ascending-Pairs R low next [] [] h k = k
Ascending-Pairs R low next [] (s ∷ after) h k = absurd h
Ascending-Pairs R low next (r ∷ rows) [] h k = absurd h
Ascending-Pairs R low next (r ∷ rows) (s ∷ after) (same, here, rest) (l, k) =
    (rw same l, rw same (Ascending-Pairs R (suc r.id) next rows after rest k))

pub low-Ascending :
    (low next : ℕ) (rows : List Replay) (r : Replay)
    → Ascending low rows next
    → r ∈ rows
    → low ≤ r.id
low-Ascending low next [] r h m = absurd m
low-Ascending low next (s ∷ rows) r (l, h) (inl e) = rw e l
low-Ascending low next (s ∷ rows) r (l, h) (inr m) =
    let rest = low-Ascending (suc s.id) next rows r h m in omega arith

-- Two rows with one id are one row.
pub unique-Ascending :
    (low next : ℕ) (rows : List Replay) (r s : Replay)
    → Ascending low rows next
    → r ∈ rows
    → s ∈ rows
    → r.id ≡ s.id
    → r ≡ s
unique-Ascending low next [] r s h m k same = absurd m
unique-Ascending low next (t ∷ rows) r s (l, h) (inl e) (inl f) same = e ∙ sym f
unique-Ascending low next (t ∷ rows) r s (l, h) (inr m) (inr k) same =
    unique-Ascending (suc t.id) next rows r s h m k same
unique-Ascending low next (t ∷ rows) r s (l, h) (inl e) (inr k) same =
    let above = low-Ascending (suc t.id) next rows s h k in
    let here : r.id ≡ t.id = ap (λ (x : Replay). x.id) e in absurd (omega arith)
unique-Ascending low next (t ∷ rows) r s (l, h) (inr m) (inl f) same =
    let above = low-Ascending (suc t.id) next rows r h m in
    let here : s.id ≡ t.id = ap (λ (x : Replay). x.id) f in absurd (omega arith)
