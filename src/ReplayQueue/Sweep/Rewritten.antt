-- ===== src/ReplayQueue/Sweep/Rewritten.antt =====
-- A round that meets no exception saves its row, no longer pending.
use dong_tai_server.Prelude.{
  ℕ, ◌≡◌, ◌≢◌, refl, inl, inr, Option, none, some, List, [], ◌∷◌, ◌∈◌, contains, length, arith,
  Bool-cases, Option-cases, ◌==◌, number_comparison,
}
use dong_tai_server.Prelude.Dict.{lookup}
use dong_tai_server.Prelude.Text.{Text}
use dong_tai_server.Heartbeat.{Replay, waiting, solved}
use dong_tai_server.ReplayRequest.{
  Wire, Loaded, invalid, no_dict, positions, Sent, rewrite_positions,
}
use dong_tai_server.ReplayQueue.{pending, failed}
use dong_tai_server.ReplayQueue.Sweep.{
  Vulnerability, round, recheck_payload, prepared, made_ready, ready, sent_of, found_by,
  replay_payload_data,
}

-- The request of the vulnerability can be rewritten for the payload.
abbrev pub IsRewritable : Wire → Text → Vulnerability → Type 0
IsRewritable wire text v =
    (wire.load_positions v.param_name ≢ no_dict)
    × ((params : List (Text × _))
        → wire.load_positions v.param_name ≡ positions params
        → (sent : Sent) × (rewrite_positions wire text v.taint_value params (sent_of v)
            ≡ some sent))

-- The row has a payload, with which the request of every vulnerability can be rewritten.
abbrev pub CanGo : Wire → List (ℕ × Text) → List Vulnerability → Replay → Type 0
CanGo wire payloads vuls r =
    (text : Text) × (recheck_payload payloads r.payload_id ≡ some text)
    × ((v : Vulnerability) → v ∈ vuls → IsRewritable wire text v)

-- The row after a round: it is not pending, and it is the same row.
abbrev pub Settles : Replay → Option Replay → Type 0
Settles r o = (row : Replay) × (o ≡ some row) × (row.id ≡ r.id) × (row.state ≢ pending)

waiting-pending : waiting ≢ pending
waiting-pending = ground arith

pub solved-pending : solved ≢ pending
solved-pending = ground arith

made_ready-Settles :
    (wire : Wire) (now : ℕ) (text : Text) (v : Vulnerability) (loaded : Loaded) (r : Replay)
    → loaded ≢ no_dict
    → ((params : List (Text × _))
        → loaded ≡ positions params
        → (sent : Sent) × (rewrite_positions wire text v.taint_value params (sent_of v)
            ≡ some sent))
    → Settles r (made_ready wire now text v loaded r)
unfolding made_ready ready failed
made_ready-Settles wire now text v invalid r dict goes =
    (ready now v (sent_of v) (failed now r), refl, refl, waiting-pending)
made_ready-Settles wire now text v no_dict r dict goes = absurd (dict refl)
made_ready-Settles wire now text v (positions params) r dict goes =
    let (sent, e) = goes params refl in (ready now v sent r, rw e refl, refl, waiting-pending)

prepared-Settles :
    (wire : Wire) (now : ℕ) (text : Text) (v : Vulnerability) (r : Replay)
    → IsRewritable wire text v
    → Settles r (prepared wire now text v r)
unfolding prepared ready
prepared-Settles wire now text v r (dict, goes) = elim (Bool-cases (length v.param_name == 0)) [
  | inl e ↦ (ready now v (sent_of v) r, rw (prepared, e) refl, refl, waiting-pending)
  | inr e ↦
      let (row, done, same, settled) =
        made_ready-Settles wire now text v (wire.load_positions v.param_name) r dict goes in
      (row, rw (prepared, e) done, same, settled)
]

lookup-mem :
    (i : ℕ) (ids : List ℕ) (vuls : List Vulnerability) (v : Vulnerability)
    → lookup i (replay_payload_data ids vuls) ≡ some v
    → v ∈ vuls
unfolding replay_payload_data
lookup-mem i ids [] v h = absurd (cc)
lookup-mem i ids (u ∷ vuls) v h = elim (Bool-cases (contains ids u.id)) [
  | inr e ↦ inr (lookup-mem i ids vuls v (rw e at h))
  | inl e ↦
      let here = rw e at h in
      elim (Bool-cases (u.id == i)) [
        | inl f ↦ inl (let same = rw f at here in cc)
        | inr f ↦ inr (lookup-mem i ids vuls v (rw f at here))
      ]
]

found_by-mem :
    (o : Option ℕ) (ids : List ℕ) (vuls : List Vulnerability) (v : Vulnerability)
    → found_by o (replay_payload_data ids vuls) ≡ some v
    → v ∈ vuls
found_by-mem none ids vuls v h = absurd (cc)
found_by-mem (some i) ids vuls v h = lookup-mem i ids vuls v h

pub round-Settles :
    (wire : Wire) (payloads : List (ℕ × Text)) (now : ℕ) (ids : List ℕ) (vuls : List Vulnerability)
    (r : Replay)
    → CanGo wire payloads vuls r
    → Settles r (round wire payloads now (replay_payload_data ids vuls) r)
unfolding round
round-Settles wire payloads now ids vuls r (text, e, goes) =
    elim (Option-cases (found_by r.relation_id (replay_payload_data ids vuls))) [
      | inl f ↦ (failed now r, rw (round, e, f) refl, refl, solved-pending)
      | inr (v, f) ↦
          let (row, done, same, settled) =
            prepared-Settles wire now text v r (goes v (found_by-mem r.relation_id ids vuls v f)) in
          (row, rw (round, e, f) done, same, settled)
    ]
