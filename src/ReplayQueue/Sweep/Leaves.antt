-- ===== src/ReplayQueue/Sweep/Leaves.antt =====
-- What rounds and writes leave pending in the table.
use dong_tai_server.Prelude.{
  ℕ, ◌≡◌, ◌≢◌, ◌⊎◌, refl, sym, ◌∙◌, ap, inl, inr, true, false, some, List, [], ◌∷◌, ◌∈◌, map, All,
  arith, Bool-cases, ◌==◌, number_comparison, nat_beq_iff,
}
use dong_tai_server.Prelude.Text.{Text}
use dong_tai_server.Heartbeat.{Replay}
use dong_tai_server.ReplayRequest.{Wire}
use dong_tai_server.ReplayQueue.{pending, edit}
use dong_tai_server.ReplayQueue.Sweep.{Vulnerability, save, save_all, rounds, round}
use dong_tai_server.ReplayQueue.Sweep.Rewritten.{Settles}

-- Every row that is still pending is an old one, and none of those that were gone through.
abbrev pub Leaves : List Replay → List Replay → List Replay → Type 0
Leaves todo rows after =
    (map (λ (r : Replay). r.id) after ≡ map (λ (r : Replay). r.id) rows)
    × ((x : Replay)
        → x ∈ after
        → x.state ≡ pending
        → (x ∈ rows) × All (λ (r : Replay). x.id ≢ r.id) todo)

save-hit :
    (row y : Replay) (rows : List Replay)
    → (y.id == row.id) ≡ true
    → save row (y ∷ rows) ≡ row ∷ save row rows
unfolding save edit
save-hit row y rows e = rw e refl

save-miss :
    (row y : Replay) (rows : List Replay)
    → (y.id == row.id) ≡ false
    → save row (y ∷ rows) ≡ y ∷ save row rows
unfolding save edit
save-miss row y rows e = rw e refl

save-nil : (row : Replay) → save row [] ≡ []
unfolding save edit
save-nil row = refl

save-ids :
    (row : Replay) (rows : List Replay)
    → map (λ (r : Replay). r.id) (save row rows) ≡ map (λ (r : Replay). r.id) rows
save-ids row [] = rw save-nil refl
save-ids row (y ∷ rows) =
    let rest = save-ids row rows in
    elim (Bool-cases (y.id == row.id)) [
      | inl e ↦
          let same = (nat_beq_iff y.id row.id).0 e in rw (save-hit row y rows e, same, rest) refl
      | inr e ↦ rw (save-miss row y rows e, rest) refl
    ]

other : (row y x : Replay) → (y.id == row.id) ≡ false → x ≡ y → x.id ≢ row.id
other row y x e h q =
    let same : y.id ≡ row.id = sym (ap (λ (r : Replay). r.id) h) ∙ q in ground (arith, e, same)

save-mem :
    (row : Replay) (rows : List Replay) (x : Replay)
    → x ∈ save row rows
    → (x ≡ row) ⊎ ((x ∈ rows) × (x.id ≢ row.id))
save-mem row [] x m = absurd (rw save-nil at m)
save-mem row (y ∷ rows) x m = elim (Bool-cases (y.id == row.id)) [
  | inl e ↦ elim (rw (save-hit row y rows e) at m) [
    | inl h ↦ inl h
    | inr h ↦ later row y rows x (save-mem row rows x h)
  ]
  | inr e ↦ elim (rw (save-miss row y rows e) at m) [
    | inl h ↦ inr (inl h, other row y x e h)
    | inr h ↦ later row y rows x (save-mem row rows x h)
  ]
]
  where
    later :
        (row y : Replay) (rows : List Replay) (x : Replay)
        → (x ≡ row) ⊎ ((x ∈ rows) × (x.id ≢ row.id))
        → (x ≡ row) ⊎ ((x ∈ (y ∷ rows)) × (x.id ≢ row.id))
    later row y rows x (inl h) = inl h
    later row y rows x (inr (h, apart)) = inr (inr h, apart)

save-Leaves :
    (row r : Replay) (rows : List Replay)
    → row.id ≡ r.id
    → row.state ≢ pending
    → Leaves (r ∷ []) rows (save row rows)
save-Leaves row r rows same settled = (
  save-ids row rows,
  λ x m p. elim (save-mem row rows x m) [
    | inl h ↦ absurd (settled (sym (ap (λ (y : Replay). y.state) h) ∙ p))
    | inr (h, apart) ↦ (h, ((λ q. apart (q ∙ sym same)), tt))
  ],
)

Leaves-trans :
    (r : Replay) (rs rows mid after : List Replay)
    → Leaves (r ∷ []) rows mid
    → Leaves rs mid after
    → Leaves (r ∷ rs) rows after
Leaves-trans r rs rows mid after (ids, first) (ids', then_) = (
  ids' ∙ ids,
  λ x m p.
      let (old, apart) = then_ x m p in
      let (older, here) = first x old p in (older, (here.0, apart)),
)

pub save_all-Leaves :
    (rs rows : List Replay)
    → All (λ (r : Replay). r.state ≢ pending) rs
    → Leaves rs rows (save_all rs rows)
unfolding save_all
save_all-Leaves [] rows settled = (refl, λ x m p. (m, tt))
save_all-Leaves (r ∷ rs) rows (settled, rest) =
    Leaves-trans r rs rows (save r rows) (save_all rs (save r rows))
      (save-Leaves r r rows refl settled) (save_all-Leaves rs (save r rows) rest)

rounds-cons :
    (wire : Wire) (payloads : List (ℕ × Text)) (now : ℕ) (vul_data : List (ℕ × Vulnerability))
    (r row : Replay) (rs rows : List Replay)
    → round wire payloads now vul_data r ≡ some row
    → rounds wire payloads now vul_data (r ∷ rs) rows
      ≡ rounds wire payloads now vul_data rs (save row rows)
unfolding rounds
rounds-cons wire payloads now vul_data r row rs rows done = rw (rounds, done) refl

pub rounds-Leaves :
    (wire : Wire) (payloads : List (ℕ × Text)) (now : ℕ) (vul_data : List (ℕ × Vulnerability))
    (rs rows : List Replay)
    → All (λ (r : Replay). Settles r (round wire payloads now vul_data r)) rs
    → ((rounds wire payloads now vul_data rs rows).finished ≡ true)
      × Leaves rs rows (rounds wire payloads now vul_data rs rows).rows
unfolding rounds
rounds-Leaves wire payloads now vul_data [] rows go = (refl, (refl, λ x m p. (m, tt)))
rounds-Leaves wire payloads now vul_data (r ∷ rs) rows ((row, done, same, settled), go) =
    let (finished, leaves) = rounds-Leaves wire payloads now vul_data rs (save row rows) go in
    let step = rounds-cons wire payloads now vul_data r row rs rows done in
    (
      rw step finished,
      rw step
          (Leaves-trans r rs rows (save row rows) _ (save-Leaves row r rows same settled) leaves),
    )
