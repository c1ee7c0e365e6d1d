-- ===== src/ReplayQueue/Sweep/Progress.antt =====
-- A sweep that meets no exception leaves no row of its batch pending.
use dong_tai_server.Prelude.{
  ℕ, ◌≡◌, ◌≢◌, refl, sym, ◌∙◌, ap, subst, inl, inr, true, false, not, List, [], ◌∷◌, map, filter,
  length, All, arith, Bool-cases, Option-cases, ◌==◌, number_comparison,
}
use dong_tai_server.Prelude.Text.{Text}
use dong_tai_server.Heartbeat.{Replay}
use dong_tai_server.ReplayRequest.{Wire}
use dong_tai_server.ReplayQueue.{pending, failed}
use dong_tai_server.ReplayQueue.Sweep.{
  Vulnerability, has_relation, fail_row, save_all, relation_ids, round, recheck_payload,
  sub_replay_queue, sweep, vul_recheck, replay_payload_data,
}
use dong_tai_server.ReplayQueue.Sweep.Rewritten.{CanGo, Settles, solved-pending, round-Settles}
use dong_tai_server.ReplayQueue.Sweep.Leaves.{Leaves, save_all-Leaves, rounds-Leaves}

pub fail_row-id : (now : ℕ) (r : Replay) → (fail_row now r).id ≡ r.id
unfolding fail_row failed
fail_row-id now r = elim (Bool-cases (has_relation r)) [ inl e ↦ rw e refl | inr e ↦ rw e refl ]

fail_row-payload : (now : ℕ) (r : Replay) → (fail_row now r).payload_id ≡ r.payload_id
unfolding fail_row failed
fail_row-payload now r = elim (Bool-cases (has_relation r)) [
  | inl e ↦ rw e refl
  | inr e ↦ rw e refl
]

fail_row-settled :
    (now : ℕ) (r : Replay)
    → has_relation (fail_row now r) ≡ false
    → (fail_row now r).state ≢ pending
unfolding fail_row failed
fail_row-settled now r h = elim (Bool-cases (has_relation r)) [
  | inl e ↦ absurd (let here = rw e at h in cc)
  | inr e ↦ rw e solved-pending
]

none-related :
    (rs : List Replay)
    → (length (relation_ids rs) == 0) ≡ true
    → filter (λ r. not (has_relation r)) rs ≡ rs
none-related [] h = refl
none-related (r ∷ rs) h = elim (Option-cases r.relation_id) [
  | inl e ↦ let rest = none-related rs (rw e at h) in rw (e, rest) refl
  | inr (i, e) ↦ absurd (let here = rw e at h in ground (arith, here))
]

sweep-Leaves :
    (wire : Wire) (payloads : List (ℕ × Text)) (now : ℕ) (vuls : List Vulnerability)
    (batch rows : List Replay)
    → All (λ (r : Replay). r.state ≢ pending) (filter (λ r. not (has_relation r)) batch)
    → All
        (λ (r : Replay).
          Settles r (round wire payloads now (replay_payload_data (relation_ids batch) vuls) r))
        batch
    → ((sweep wire payloads now vuls batch rows).finished ≡ true)
      × Leaves batch rows (sweep wire payloads now vuls batch rows).rows
unfolding sweep
sweep-Leaves wire payloads now vuls batch rows failing go =
    let unrelated = filter (λ r. not (has_relation r)) batch in
    let rows' = save_all unrelated rows in
    let (ids, kept) = save_all-Leaves unrelated rows failing in
    elim (Bool-cases (length (relation_ids batch) == 0)) [
      | inl e ↦
          let same = none-related batch e in
          (
            rw (sweep, e) refl,
            rw (sweep, e)
                (
                  ids,
                  λ x m p.
                      let (old, apart) = kept x m p in
                      (
                        old,
                        subst (λ (rs : List Replay). All (λ (r : Replay). x.id ≢ r.id) rs) same
                            apart,
                      ),
                ),
          )
      | inr e ↦
          let (finished, (ids', kept')) =
            rounds-Leaves wire payloads now (replay_payload_data (relation_ids batch) vuls) batch
              rows' go in
          (
            rw (sweep, e) finished,
            rw (sweep, e)
                (ids' ∙ ids, λ x m p. let (old, apart) = kept' x m p in ((kept x old p).0, apart)),
          )
    ]

failing-settled :
    (now : ℕ) (rs : List Replay)
    → All
        (λ (r : Replay). r.state ≢ pending)
        (filter (λ r. not (has_relation r)) (map (fail_row now) rs))
failing-settled now [] = tt
failing-settled now (r ∷ rs) = elim (Bool-cases (has_relation (fail_row now r))) [
  | inl e ↦ rw e (failing-settled now rs)
  | inr e ↦ rw e (fail_row-settled now r e, failing-settled now rs)
]

fail_row-Settles :
    (wire : Wire) (payloads : List (ℕ × Text)) (now : ℕ) (ids : List ℕ) (vuls : List Vulnerability)
    (rs : List Replay)
    → All (CanGo wire payloads vuls) rs
    → All
        (λ (r : Replay). Settles r (round wire payloads now (replay_payload_data ids vuls) r))
        (map (fail_row now) rs)
fail_row-Settles wire payloads now ids vuls [] go = tt
fail_row-Settles wire payloads now ids vuls (r ∷ rs) ((text, e, goes), go) = (
  round-Settles wire payloads now ids vuls (fail_row now r)
      (text, ap (recheck_payload payloads) (fail_row-payload now r) ∙ e, goes),
  fail_row-Settles wire payloads now ids vuls rs go,
)

apart-same :
    (now i : ℕ) (rs : List Replay)
    → All (λ (r : Replay). i ≢ r.id) (map (fail_row now) rs)
    → All (λ (r : Replay). i ≢ r.id) rs
apart-same now i [] apart = tt
apart-same now i (r ∷ rs) (here, apart) =
    ((λ q. here (q ∙ sym (fail_row-id now r))), apart-same now i rs apart)

-- If every row of the batch has a payload with which the request of every vulnerability can be rewritten,
-- then a sweep comes to its end, the table has the same rows, and those of the batch are no longer pending.
pub vul_recheck_progress :
    (wire : Wire) (payloads : List (ℕ × Text)) (now : ℕ) (vuls : List Vulnerability)
    (rows : List Replay)
    → All (CanGo wire payloads vuls) (sub_replay_queue rows)
    → ((vul_recheck wire payloads now vuls rows).finished ≡ true)
      × Leaves (sub_replay_queue rows) rows (vul_recheck wire payloads now vuls rows).rows
unfolding vul_recheck
vul_recheck_progress wire payloads now vuls rows go =
    let batch = map (fail_row now) (sub_replay_queue rows) in
    let (finished, (ids, kept)) =
      sweep-Leaves wire payloads now vuls batch rows (failing-settled now (sub_replay_queue rows))
        (fail_row-Settles wire payloads now (relation_ids batch) vuls (sub_replay_queue rows) go) in
    (
      finished,
      (
        ids,
        λ x m p.
            let (old, apart) = kept x m p in
            (old, apart-same now x.id (sub_replay_queue rows) apart),
      ),
    )
