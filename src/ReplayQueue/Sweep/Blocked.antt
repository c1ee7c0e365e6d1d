-- ===== src/ReplayQueue/Sweep/Blocked.antt =====
-- A pending row without a payload at the head of the batch stops the sweep.
use dong_tai_server.Prelude.{
  ℕ, ◌≡◌, refl, ◌∙◌, ap, true, false, not, List, [], ◌∷◌, map, filter, length, All, arith,
  Option-cases, inl, inr, ◌==◌, number_comparison,
}
use dong_tai_server.Prelude.Text.{Text}
use dong_tai_server.Heartbeat.{Replay, null}
use dong_tai_server.ReplayRequest.{Wire}
use dong_tai_server.ReplayQueue.Sweep.{
  Vulnerability, has_relation, fail_row, save_all, relation_ids, rounds, round, recheck_payload,
  sub_replay_queue, sweep, vul_recheck, replay_payload_data,
}

abbrev HaveRelations : List Replay → Type 0
HaveRelations rows = All (λ r. has_relation r ≡ true) rows

fail_row-HaveRelations :
    (now : ℕ) (rows : List Replay) → HaveRelations rows → map (fail_row now) rows ≡ rows
unfolding fail_row
fail_row-HaveRelations now [] h = refl
fail_row-HaveRelations now (r ∷ rows) (e, hs) =
    let rest = fail_row-HaveRelations now rows hs in rw (e, rest) refl

none-HaveRelations :
    (rows : List Replay) → HaveRelations rows → filter (λ r. not (has_relation r)) rows ≡ []
none-HaveRelations [] h = refl
none-HaveRelations (r ∷ rows) (e, hs) = let rest = none-HaveRelations rows hs in rw e rest

relation_ids-nonempty :
    (r : Replay) (rows : List Replay)
    → has_relation r ≡ true
    → (length (relation_ids (r ∷ rows)) == 0) ≡ false
relation_ids-nonempty r rows h = elim (Option-cases r.relation_id) [
  | inl e ↦ absurd (ground (arith, h, e))
  | inr (i, e) ↦ rw e (ground arith)
]

rounds_raise :
    (wire : Wire) (payloads : List (ℕ × Text)) (now : ℕ) (vul_data : List (ℕ × Vulnerability))
    (r : Replay) (rest rows : List Replay)
    → r.payload_id ≡ null
    → rounds wire payloads now vul_data (r ∷ rest) rows ≡ record { rows = rows; finished = false }
unfolding rounds round recheck_payload
rounds_raise wire payloads now vul_data r rest rows h = rw h refl

sweep_raises :
    (wire : Wire) (payloads : List (ℕ × Text)) (now : ℕ) (vuls : List Vulnerability) (r : Replay)
    (rest rows : List Replay)
    → HaveRelations (r ∷ rest)
    → r.payload_id ≡ null
    → sweep wire payloads now vuls (r ∷ rest) rows ≡ record { rows = rows; finished = false }
unfolding sweep save_all
sweep_raises wire payloads now vuls r rest rows related no_payload =
    let none_fail = none-HaveRelations (r ∷ rest) related in
    let some_ids = relation_ids-nonempty r rest related.0 in
    rw (sweep, none_fail, some_ids)
      (rounds_raise wire payloads now (replay_payload_data (relation_ids (r ∷ rest)) vuls) r rest
        rows no_payload)

-- If the newest pending row for a vulnerability has no payload, and every row of the batch has a
-- relation, then a sweep raises, and leaves the table as it was, so that it makes no row of the batch
-- ready.
pub vul_recheck_blocked :
    (wire : Wire) (payloads : List (ℕ × Text)) (now : ℕ) (vuls : List Vulnerability)
    (rows : List Replay) (r : Replay) (rest : List Replay)
    → sub_replay_queue rows ≡ r ∷ rest
    → HaveRelations (r ∷ rest)
    → r.payload_id ≡ null
    → vul_recheck wire payloads now vuls rows ≡ record { rows = rows; finished = false }
unfolding vul_recheck
vul_recheck_blocked wire payloads now vuls rows r rest batch related no_payload =
    let same = fail_row-HaveRelations now (r ∷ rest) related in
    ap (λ (rs : List Replay). sweep wire payloads now vuls (map (fail_row now) rs) rows) batch
    ∙ (ap (λ (rs : List Replay). sweep wire payloads now vuls rs rows) same
        ∙ sweep_raises wire payloads now vuls r rest rows related no_payload)
