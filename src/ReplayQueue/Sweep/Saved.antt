-- ===== src/ReplayQueue/Sweep/Saved.antt =====
-- What a sweep makes of the rows of the table: a pending row stays, is made ready, or fails.
use dong_tai_server.Prelude.{
  ℕ, ◌≡◌, refl, sym, ◌∙◌, ap, subst, ◌⊎◌, inl, inr, false, not, ◌&&◌, some, List, [], ◌∷◌, ◌∈◌, map,
  filter, mem-take, mem-filter, length, All, arith, Bool-cases, Option-cases, ◌==◌,
  number_comparison, nat_beq_iff,
}
use dong_tai_server.Prelude.Text.{Text}
use dong_tai_server.Prelude.Sorting.{sort_down_by, down, mem-arrange}
use dong_tai_server.Heartbeat.{Replay, waiting, solved, vul_replay}
use dong_tai_server.ReplayRequest.{Wire, Loaded, invalid, no_dict, positions, rewrite_positions}
use dong_tai_server.ReplayQueue.{pending, failed, edit}
use dong_tai_server.ReplayQueue.Rows.{Pairs, Ascending, unique-Ascending, Pairs-refl}
use dong_tai_server.ReplayQueue.Sweep.Progress.{fail_row-id}
use dong_tai_server.ReplayQueue.Sweep.{
  Vulnerability, has_relation, fail_row, save, save_all, relation_ids, rounds, round,
  recheck_payload, prepared, made_ready, ready, sent_of, found_by, sub_replay_queue, sweep,
  vul_recheck, replay_payload_data,
}

-- The row as a round saves it: made ready, or failed.
abbrev Saved : Replay → Replay → Type 0
Saved r row = (row.id ≡ r.id) × ((row.state ≡ waiting) ⊎ (row.state ≡ solved))

-- A row as it was and as it is: only a pending one changes its state.
abbrev pub Sweeps : Replay → Replay → Type 0
Sweeps r s =
    (s.state ≡ r.state) ⊎ ((r.state ≡ pending) × ((s.state ≡ waiting) ⊎ (s.state ≡ solved)))

-- No row but pending ones has the id.
abbrev OnlyPending : List Replay → ℕ → Type 0
OnlyPending rows i = (r : Replay) → r ∈ rows → r.id ≡ i → r.state ≡ pending

made_ready-Saved :
    (wire : Wire) (now : ℕ) (text : Text) (v : Vulnerability) (loaded : Loaded) (r row : Replay)
    → made_ready wire now text v loaded r ≡ some row
    → Saved r row
unfolding made_ready ready failed
made_ready-Saved wire now text v invalid r row e =
    let same : ready now v (sent_of v) (failed now r) ≡ row = cc in
    subst (Saved r) same (refl, inl refl)
made_ready-Saved wire now text v no_dict r row e = absurd (cc)
made_ready-Saved wire now text v (positions params) r row e =
    elim (Option-cases (rewrite_positions wire text v.taint_value params (sent_of v))) [
      | inl f ↦ absurd (let no = rw f at e in cc)
      | inr (sent, f) ↦
          let here = rw f at e in
          let same : ready now v sent r ≡ row = cc in subst (Saved r) same (refl, inl refl)
    ]

prepared-Saved :
    (wire : Wire) (now : ℕ) (text : Text) (v : Vulnerability) (r row : Replay)
    → prepared wire now text v r ≡ some row
    → Saved r row
unfolding prepared ready
prepared-Saved wire now text v r row e = elim (Bool-cases (length v.param_name == 0)) [
  | inl f ↦
      let here = rw (prepared, f) at e in
      let same : ready now v (sent_of v) r ≡ row = cc in subst (Saved r) same (refl, inl refl)
  | inr f ↦
      made_ready-Saved wire now text v (wire.load_positions v.param_name) r row
        (rw (prepared, f) at e)
]

failed-Saved : (now : ℕ) (r : Replay) → Saved r (failed now r)
unfolding failed
failed-Saved now r = (refl, inr refl)

round-Saved :
    (wire : Wire) (payloads : List (ℕ × Text)) (now : ℕ) (vul_data : List (ℕ × Vulnerability))
    (r row : Replay)
    → round wire payloads now vul_data r ≡ some row
    → Saved r row
unfolding round
round-Saved wire payloads now vul_data r row e =
    elim (Option-cases (recheck_payload payloads r.payload_id)) [
      | inl f ↦ absurd (let no = rw (round, f) at e in cc)
      | inr (text, f) ↦ elim (Option-cases (found_by r.relation_id vul_data)) [
        | inl g ↦
            let here = rw (round, f, g) at e in
            let same : failed now r ≡ row = cc in subst (Saved r) same (failed-Saved now r)
        | inr (v, g) ↦ prepared-Saved wire now text v r row (rw (round, f, g) at e)
      ]
    ]

-- Saving a row under an id that only pending rows had.
save-Sweeps :
    (row : Replay) (rows cur : List Replay)
    → (row.state ≡ waiting) ⊎ (row.state ≡ solved)
    → OnlyPending rows row.id
    → Pairs Sweeps rows cur
    → Pairs Sweeps rows (save row cur)
unfolding save edit
save-Sweeps row [] [] state only h = tt
save-Sweeps row [] (s ∷ cur) state only h = absurd h
save-Sweeps row (r ∷ rows) [] state only h = absurd h
save-Sweeps row (r ∷ rows) (s ∷ cur) state only (same, here, rest) =
    let later = save-Sweeps row rows cur state (λ x m. only x (inr m)) rest in
    elim (Bool-cases (s.id == row.id)) [
      | inl e ↦
          let id : s.id ≡ row.id = (nat_beq_iff s.id row.id).0 e in
          rw e (sym id ∙ same, inr (only r (inl refl) (sym same ∙ id), state), later)
      | inr e ↦ rw e (same, here, later)
    ]

save_all-Sweeps :
    (todo rows cur : List Replay)
    → All (λ (r : Replay). OnlyPending rows r.id × ((r.state ≡ waiting) ⊎ (r.state ≡ solved))) todo
    → Pairs Sweeps rows cur
    → Pairs Sweeps rows (save_all todo cur)
unfolding save_all
save_all-Sweeps [] rows cur ok h = h
save_all-Sweeps (r ∷ todo) rows cur ((only, state), ok) h =
    save_all-Sweeps todo rows (save r cur) ok (save-Sweeps r rows cur state only h)

rounds-Sweeps :
    (wire : Wire) (payloads : List (ℕ × Text)) (now : ℕ) (vul_data : List (ℕ × Vulnerability))
    (todo rows cur : List Replay)
    → All (λ (r : Replay). OnlyPending rows r.id) todo
    → Pairs Sweeps rows cur
    → Pairs Sweeps rows (rounds wire payloads now vul_data todo cur).rows
unfolding rounds
rounds-Sweeps wire payloads now vul_data [] rows cur ok h = h
rounds-Sweeps wire payloads now vul_data (r ∷ todo) rows cur (only, ok) h =
    elim (Option-cases (round wire payloads now vul_data r)) [
      | inl e ↦ rw (rounds, e) h
      | inr (row, e) ↦
          let (same, state) = round-Saved wire payloads now vul_data r row e in
          rw (rounds, e)
            (rounds-Sweeps wire payloads now vul_data todo rows (save row cur) ok
              (save-Sweeps row rows cur state (rw same only) h))
    ]

mem-sub_replay_queue :
    (rows : List Replay) (r : Replay) → r ∈ sub_replay_queue rows → (r ∈ rows) × (r.state ≡ pending)
unfolding sub_replay_queue
mem-sub_replay_queue rows r m =
    let sorted = sort_down_by (λ (x : Replay). x.id) rows in
    let test = λ (x : Replay). x.replay_type == vul_replay && x.state == pending in
    let (found, passed) = (mem-filter test r sorted).0 (mem-take 100 r (filter test sorted) m) in
    ((mem-arrange (down (λ (x : Replay). x.id)) r rows).0 found, ground (arith, passed))

fail_row-Saved :
    (now : ℕ) (r : Replay) → has_relation (fail_row now r) ≡ false → (fail_row now r).state ≡ solved
unfolding fail_row failed
fail_row-Saved now r h = elim (Bool-cases (has_relation r)) [
  | inl e ↦ absurd (let here = rw e at h in cc)
  | inr e ↦ rw e refl
]

batch-OnlyPending :
    (now next : ℕ) (rows todo : List Replay)
    → Ascending 0 rows next
    → ((r : Replay) → r ∈ todo → (r ∈ rows) × (r.state ≡ pending))
    → All (λ (r : Replay). OnlyPending rows r.id) (map (fail_row now) todo)
batch-OnlyPending now next rows [] asc h = tt
batch-OnlyPending now next rows (r ∷ todo) asc h =
    let (there, state) = h r (inl refl) in
    (
      (λ x m same.
          let one : x ≡ r =
            unique-Ascending 0 next rows x r asc m there (same ∙ fail_row-id now r) in
          ap (λ (y : Replay). y.state) one ∙ state),
      batch-OnlyPending now next rows todo asc (λ x m. h x (inr m)),
    )

unrelated-OnlyPending :
    (now : ℕ) (rows todo : List Replay)
    → All (λ (r : Replay). OnlyPending rows r.id) (map (fail_row now) todo)
    → All
        (λ (r : Replay). OnlyPending rows r.id × ((r.state ≡ waiting) ⊎ (r.state ≡ solved)))
        (filter (λ r. not (has_relation r)) (map (fail_row now) todo))
unrelated-OnlyPending now rows [] h = tt
unrelated-OnlyPending now rows (r ∷ todo) (only, h) =
    elim (Bool-cases (has_relation (fail_row now r))) [
      | inl e ↦ rw e (unrelated-OnlyPending now rows todo h)
      | inr e ↦ rw e ((only, inr (fail_row-Saved now r e)), unrelated-OnlyPending now rows todo h)
    ]

-- If the ids of the table go up, then a sweep changes the state of pending rows alone, to waiting or solved,
-- whether it comes to its end or raises.
pub vul_recheck-Sweeps :
    (wire : Wire) (payloads : List (ℕ × Text)) (now next : ℕ) (vuls : List Vulnerability)
    (rows : List Replay)
    → Ascending 0 rows next
    → Pairs Sweeps rows (vul_recheck wire payloads now vuls rows).rows
unfolding vul_recheck sweep
vul_recheck-Sweeps wire payloads now next vuls rows asc =
    let todo = sub_replay_queue rows in
    let batch = map (fail_row now) todo in
    let only = batch-OnlyPending now next rows todo asc (mem-sub_replay_queue rows) in
    let unrelated = filter (λ r. not (has_relation r)) batch in
    let first : Pairs Sweeps rows (save_all unrelated rows) =
      save_all-Sweeps unrelated rows rows (unrelated-OnlyPending now rows todo only)
        (Pairs-refl Sweeps (λ r. inl refl) rows) in
    elim (Bool-cases (length (relation_ids batch) == 0)) [
      | inl e ↦ rw (vul_recheck, sweep, e) first
      | inr e ↦
          rw (vul_recheck, sweep, e)
            (rounds-Sweeps wire payloads now (replay_payload_data (relation_ids batch) vuls) batch
              rows (save_all unrelated rows) only first)
    ]
