-- ===== src/ReplayQueue/Lifecycle.antt =====
-- The writes to the replay queue as events of one machine: the poll of an agent, a replay that comes in,
-- the two outcomes of a verification, the creation of a task, the periodic sweep, and a request that a
-- user sends.
pub mod Solved
pub mod Goes
mod Tests
use dong_tai_server.Prelude.{
  ℕ, suc, ◌+◌, ◌≤◌, ◌≡◌, ◌≢◌, refl, sym, ◌∙◌, ap, ◌⊎◌, inl, inr, Bool, true, false, not, ◌&&◌, ◌||◌,
  Option, none, some, List, [], ◌∷◌, ◌++◌, ◌∈◌, map, filter, contains, All, arith, Bool-cases,
  Option-cases, if◌then◌else◌, ◌==◌, number_comparison, nat_beq_iff,
}
use dong_tai_server.Prelude.Text.{Text}
use dong_tai_server.Heartbeat.{
  Replay, PayloadRef, waiting, solved, solving, issue, replay_queryset, same_number, ids, has_uri,
}
use dong_tai_server.Heartbeat.Delivery.{issue_exact, after_poll}
use dong_tai_server.ReplayRequest.{Wire}
use dong_tai_server.ReplayQueue.{
  Queue, pending, discard, recheck_true, recheck_false, recheck_discard, edit, judged, answered,
  refuted, confirmed, replay_of, new_row, new_rows, payload_refs, count_of, enqueue,
  create_vul_recheck_task, is_validated,
}
use dong_tai_server.ReplayQueue.Rows.{
  Pairs, Advances, Ascending, Pairs-map, Pairs-refl, map-Pairs, edit-Pairs, Ascending-Pairs,
  unique-Ascending,
}
use dong_tai_server.ReplayQueue.Resent.{RawRequest, send_request_to_replay_queue}
use dong_tai_server.ReplayQueue.Sweep.{Vulnerability, vul_recheck}
use dong_tai_server.ReplayQueue.Sweep.Saved.{vul_recheck-Sweeps, Sweeps}

-- One write, with the arguments of its code.
pub data Event : Type 0 where
  polled : ℕ → List ℕ → Event
  replayed : ℕ → Event
  unverified : ℕ → ℕ → Event
  verified : ℕ → ℕ → ℕ → Event
  requested : Option ℕ → Bool → ℕ → ℕ → ℕ → List ℕ → Event
  swept : Wire → List (ℕ × Text) → ℕ → List Vulnerability → Event
  resent : ℕ → ℕ → ℕ → RawRequest → ℕ → Event

pub run : Event → Queue → Queue
run (polled now agents) q = record q {
  rows = (issue now (replay_queryset agents q.rows) q.rows).table;
}
run (replayed id) q = answered id q
run (unverified now id) q = refuted now id q
run (verified now id vul_id) q = confirmed now id vul_id q
run (requested validation state now vul_id agent_id payloads) q =
    create_vul_recheck_task validation state now vul_id agent_id payloads q
run (swept wire payloads now vuls) q = record q {
  rows = (vul_recheck wire payloads now vuls q.rows).rows;
}
run (resent now relation_id agent_id request replay_type) q =
    send_request_to_replay_queue now relation_id agent_id request replay_type q

abbrev pub IsNoRequest : Event → Type 0
IsNoRequest (requested _ _ _ _ _ _) = ⊥
IsNoRequest (resent _ _ _ _ _) = ⊥
IsNoRequest _ = Unit

-- By the creation of a task, a row that is neither pending, ready nor handed out may become pending;
-- by a request that is sent, one that is not ready may become ready.
abbrev pub Reopened : Event → Replay → Replay → Type 0
Reopened (requested _ _ _ _ _ _) r s =
    (r.state ≢ pending) × (r.state ≢ waiting) × (r.state ≢ solving) × (s.state ≡ pending)
Reopened (resent _ _ _ _ _) r s = (r.state ≢ waiting) × (s.state ≡ waiting)
Reopened _ r s = ⊥

abbrev pub Moves : Event → Replay → Replay → Type 0
Moves e r s = Advances r s ⊎ Reopened e r s

-- The state of a row that the event adds.
abbrev pub Comes : Event → Replay → Type 0
Comes (requested _ _ _ _ _ _) r = r.state ≡ pending
Comes (resent _ _ _ _ _) r = r.state ≡ waiting
Comes _ r = ⊥

Advances-refl : (r : Replay) → Advances r r
Advances-refl r = inl refl

after_poll-Advances :
    (now : ℕ) (selected : List Replay) (r : Replay)
    → ((after_poll now selected r).id ≡ r.id) × Advances r (after_poll now selected r)
after_poll-Advances now selected r = ground arith

judged_twice :
    (now id vul_id : ℕ) (r : Replay)
    → let s = if r.id == id then judged now solved recheck_true r else r in
      let t =
        if same_number s.relation_id (some vul_id) && not (s.id == id || s.state == solved)
        then judged now discard recheck_discard s
        else s in
      (t.id ≡ r.id) × Advances r t
judged_twice now id vul_id r = ground arith

edit_twice-Pairs :
    (R : Replay → Replay → Type 0) (one two : Replay → Bool) (change then_ : Replay → Replay)
    (rows : List Replay)
    → ((r : Replay)
        → let s = if one r then change r else r in
          let t = if two s then then_ s else s in (t.id ≡ r.id) × R r t)
    → Pairs R rows (edit two then_ (edit one change rows))
unfolding edit
edit_twice-Pairs R one two change then_ [] h = tt
edit_twice-Pairs R one two change then_ (r ∷ rows) h =
    let (same, here) = h r in (same, here, edit_twice-Pairs R one two change then_ rows h)

-- An event other than the creation of a task and the sending of a request keeps the rows, and each goes on from state to state in
-- the order of the replay, if the ids go up along the table.
pub run-Advances :
    (e : Event) (q : Queue)
    → IsNoRequest e
    → Ascending 0 q.rows q.next_id
    → Pairs Advances q.rows (run e q).rows × ((run e q).next_id ≡ q.next_id)
unfolding run answered refuted confirmed
run-Advances (polled now agents) q ok asc =
    let selected = replay_queryset agents q.rows in
    (
      rw ((issue_exact now selected q.rows).1) (
          map-Pairs Advances (after_poll now selected) q.rows
            (λ r m. after_poll-Advances now selected r)),
      refl,
    )
run-Advances (replayed id) q ok asc = (
  edit-Pairs Advances (λ r. r.id == id) (λ r. record r { state = solved }) q.rows Advances-refl
      (λ r m e. (refl, inr (inl refl))),
  refl,
)
run-Advances (unverified now id) q ok asc = (
  edit-Pairs Advances (λ r. r.id == id) (judged now solved recheck_false) q.rows Advances-refl
      (λ r m e. (refl, inr (inl refl))),
  refl,
)
run-Advances (verified now id vul_id) q ok asc = (
  edit_twice-Pairs Advances (λ r. r.id == id)
      (λ r. same_number r.relation_id (some vul_id) && not (r.id == id || r.state == solved))
      (judged now solved recheck_true) (judged now discard recheck_discard) q.rows
      (judged_twice now id vul_id),
  refl,
)
run-Advances (requested _ _ _ _ _ _) q ok asc = absurd ok
run-Advances (resent _ _ _ _ _) q ok asc = absurd ok
run-Advances (swept wire payloads now vuls) q ok asc = (
  Pairs-map Sweeps Advances (λ r s h. ground (arith, h)) q.rows _
      (vul_recheck-Sweeps wire payloads now q.next_id vuls q.rows asc),
  refl,
)
