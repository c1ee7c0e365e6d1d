-- ===== src/ReplayQueue/Lifecycle/Goes.antt =====
-- What any event makes of the queue, the creation of a task and a request sent by a user included.
use dong_tai_server.Prelude.{
  ℕ, suc, ◌+◌, ◌≤◌, ◌≡◌, refl, sym, ap, subst, inl, inr, Bool, Option, false, ◌&&◌, ◌||◌, some,
  List, [], ◌∷◌, ◌++◌, ◌∈◌, All, arith, Bool-cases, Option-cases, ◌==◌, number_comparison,
  nat_beq_iff,
}
use dong_tai_server.Heartbeat.{Replay, PayloadRef, waiting, solving, vul_replay, same_number}
use dong_tai_server.ReplayQueue.{
  Queue, pending, edit, replay_of, new_row, new_rows, payload_refs, count_of, enqueue,
  create_vul_recheck_task, is_validated,
}
use dong_tai_server.ReplayQueue.Resent.{
  RawRequest, row_of, resend, sent_row, send_request_to_replay_queue,
}
use dong_tai_server.ReplayQueue.Rows.{
  Pairs, Advances, Ascending, Pairs-map, Pairs-refl, edit-Pairs, Ascending-Pairs, unique-Ascending,
}
use dong_tai_server.ReplayQueue.Lifecycle.{
  Event, run, polled, replayed, unverified, verified, requested, swept, resent, IsNoRequest, Moves,
  Comes, run-Advances,
}

-- The ids go up along the table, and the next id is above them.
abbrev pub IsProper : Queue → Type 0
IsProper q = Ascending 0 q.rows q.next_id

-- The rows are kept, each as the event may move it, and rows come new behind them as it may add them.
abbrev pub Goes : Event → Queue → Queue → Type 0
Goes e q after =
    (mid : List Replay) × (added : List Replay) × (after.rows ≡ mid ++ added)
    × Pairs (Moves e) q.rows mid
    × All (Comes e) added

append-nil : {A : Type 0} (xs : List A) → xs ++ [] ≡ xs
append-nil [] = refl
append-nil (x ∷ xs) = ap (λ ys. x ∷ ys) (append-nil xs)

kept-Goes : (e : Event) (q after : Queue) → Pairs (Moves e) q.rows after.rows → Goes e q after
kept-Goes e q after h = (after.rows, [], sym (append-nil after.rows), h, tt)

same-Goes : (e : Event) (q : Queue) → Goes e q q
same-Goes e q = kept-Goes e q q (Pairs-refl (Moves e) (λ r. inl (inl refl)) q.rows)

replay_of-mem :
    (vul_id : ℕ) (rows : List Replay) (r : Replay) → replay_of vul_id rows ≡ some r → r ∈ rows
unfolding replay_of
replay_of-mem vul_id [] r h = absurd (cc)
replay_of-mem vul_id (s ∷ rows) r h =
    elim (Bool-cases (s.replay_type == vul_replay && same_number s.relation_id (some vul_id))) [
      | inl e ↦ let here = rw (replay_of, e) at h in inl (cc)
      | inr e ↦ inr (replay_of-mem vul_id rows r (rw (replay_of, e) at h))
    ]

new_rows-pending :
    (now vul_id agent_id : ℕ) (ps : List PayloadRef) (id : ℕ)
    → All (λ (r : Replay). r.state ≡ pending) (new_rows (new_row now vul_id agent_id) ps id)
unfolding new_rows
new_rows-pending now vul_id agent_id [] id = tt
new_rows-pending now vul_id agent_id (p ∷ ps) id =
    (refl, new_rows-pending now vul_id agent_id ps (suc id))

new_rows-Ascending :
    (now vul_id agent_id : ℕ) (ps : List PayloadRef) (id : ℕ)
    → Ascending id (new_rows (new_row now vul_id agent_id) ps id) (id + count_of ps)
unfolding new_rows
new_rows-Ascending now vul_id agent_id [] id = omega arith
new_rows-Ascending now vul_id agent_id (p ∷ ps) id =
    let rest = new_rows-Ascending now vul_id agent_id ps (suc id) in
    let sum : suc id + count_of ps ≡ id + suc (count_of ps) = omega arith in
    (
      omega arith,
      subst (Ascending (suc id) (new_rows (new_row now vul_id agent_id) ps (suc id))) sum rest,
    )

low-le :
    (low id : ℕ) (rows : List Replay) (next : ℕ)
    → low ≤ id
    → Ascending id rows next
    → Ascending low rows next
low-le low id [] next l h = omega arith
low-le low id (r ∷ rows) next l (k, h) = (omega arith, h)

append-Ascending :
    (low mid next : ℕ) (rows added : List Replay)
    → Ascending low rows mid
    → Ascending mid added next
    → Ascending low (rows ++ added) next
append-Ascending low mid next [] added h k = low-le low mid added next h k
append-Ascending low mid next (r ∷ rows) added (l, h) k =
    (l, append-Ascending (suc r.id) mid next rows added h k)

-- The new state of the row that is found for the vulnerability.
reopened : ℕ → Replay → Replay → Replay
reopened now first r = record r { state = pending; update_time = now; count = first.count + 1 }

reopen-Pairs :
    (validation : Option ℕ) (global_state : Bool) (now vul_id agent_id : ℕ) (payloads : List ℕ)
    (q : Queue) (first : Replay)
    → IsProper q
    → first ∈ q.rows
    → (first.state == pending || (first.state == waiting || first.state == solving)) ≡ false
    → Pairs
        (Moves (requested validation global_state now vul_id agent_id payloads))
        q.rows
        (edit (λ r. r.id == first.id) (reopened now first) q.rows)
unfolding reopened
reopen-Pairs validation global_state now vul_id agent_id payloads q first proper there closed =
    edit-Pairs (Moves (requested validation global_state now vul_id agent_id payloads))
      (λ r. r.id == first.id) (reopened now first) q.rows (λ r. inl (inl refl))
      (λ r m e.
        let one : r ≡ first =
          unique-Ascending 0 q.next_id q.rows r first proper m there
            ((nat_beq_iff r.id first.id).0 e) in
        let state : r.state ≡ first.state = ap (λ (x : Replay). x.state) one in
        (refl, inr (ground (arith, closed, state))))

enqueue-Goes :
    (validation : Option ℕ) (global_state : Bool) (now vul_id agent_id : ℕ) (payloads : List ℕ)
    (q : Queue)
    → IsProper q
    → Goes
        (requested validation global_state now vul_id agent_id payloads)
        q
        (enqueue now vul_id agent_id payloads q)
      × IsProper (enqueue now vul_id agent_id payloads q)
unfolding enqueue reopened
enqueue-Goes validation global_state now vul_id agent_id payloads q proper =
    let event = requested validation global_state now vul_id agent_id payloads in
    elim (Option-cases (replay_of vul_id q.rows)) [
      | inl e ↦
          let refs = payload_refs payloads in
          let added = new_rows (new_row now vul_id agent_id) refs q.next_id in
          rw (enqueue, e)
            (
              (
                q.rows,
                added,
                refl,
                Pairs-refl (Moves event) (λ r. inl (inl refl)) q.rows,
                new_rows-pending now vul_id agent_id refs q.next_id,
              ),
              append-Ascending 0 q.next_id (q.next_id + count_of refs) q.rows added proper
                  (new_rows-Ascending now vul_id agent_id refs q.next_id),
            )
      | inr (first, e) ↦
          elim (Bool-cases
            (first.state == pending || (first.state == waiting || first.state == solving))) [
              | inl f ↦ rw (enqueue, e, f) (same-Goes event q, proper)
              | inr f ↦
                  let pairs =
                    reopen-Pairs validation global_state now vul_id agent_id payloads q first proper
                      (replay_of-mem vul_id q.rows first e) f in
                  rw (enqueue, e, f)
                    (
                      kept-Goes event q
                          (record q {
                            rows = edit (λ r. r.id == first.id) (reopened now first) q.rows;
                          })
                          pairs,
                      Ascending-Pairs (Moves event) 0 q.next_id q.rows _ pairs proper,
                    )
            ]
    ]

row_of-mem :
    (replay_type relation_id agent_id : ℕ) (rows : List Replay) (r : Replay)
    → row_of replay_type relation_id agent_id rows ≡ some r
    → r ∈ rows
unfolding row_of
row_of-mem replay_type relation_id agent_id [] r h = absurd (cc)
row_of-mem replay_type relation_id agent_id (s ∷ rows) r h =
    elim (Bool-cases (
      s.replay_type == replay_type
      && (same_number s.relation_id (some relation_id) && s.agent_id == agent_id))) [
        | inl e ↦ let here = rw (row_of, e) at h in inl (cc)
        | inr e ↦ inr (row_of-mem replay_type relation_id agent_id rows r (rw (row_of, e) at h))
      ]

resent-Goes :
    (now relation_id agent_id : ℕ) (request : RawRequest) (replay_type : ℕ) (q : Queue)
    → IsProper q
    → let event = resent now relation_id agent_id request replay_type in
      Goes event q (run event q) × IsProper (run event q)
unfolding run send_request_to_replay_queue resend sent_row
resent-Goes now relation_id agent_id request replay_type q proper =
    let event = resent now relation_id agent_id request replay_type in
    elim (Option-cases (row_of replay_type relation_id agent_id q.rows)) [
      | inl e ↦
          rw (send_request_to_replay_queue, e)
            (
              (
                q.rows,
                sent_row now relation_id agent_id request replay_type q.next_id ∷ [],
                refl,
                Pairs-refl (Moves event) (λ r. inl (inl refl)) q.rows,
                (refl, tt),
              ),
              append-Ascending 0 q.next_id (suc q.next_id) q.rows
                  (sent_row now relation_id agent_id request replay_type q.next_id ∷ []) proper
                  (omega arith, omega arith),
            )
      | inr (first, e) ↦ elim (Bool-cases (first.state == waiting)) [
        | inl f ↦ rw (send_request_to_replay_queue, e, f) (same-Goes event q, proper)
        | inr f ↦
            let there = row_of-mem replay_type relation_id agent_id q.rows first e in
            let pairs =
              edit-Pairs (Moves event) (λ r. r.id == first.id) (resend now agent_id request) q.rows
                (λ r. inl (inl refl))
                (λ r m k.
                  let one : r ≡ first =
                    unique-Ascending 0 q.next_id q.rows r first proper m there
                      ((nat_beq_iff r.id first.id).0 k) in
                  let state : r.state ≡ first.state = ap (λ (x : Replay). x.state) one in
                  (refl, inr (ground (arith, f, state)))) in
            rw (send_request_to_replay_queue, e, f)
              (
                kept-Goes event q
                    (record q {
                      rows = edit (λ r. r.id == first.id) (resend now agent_id request) q.rows;
                    })
                    pairs,
                Ascending-Pairs (Moves event) 0 q.next_id q.rows _ pairs proper,
              )
      ]
    ]

advances-Goes :
    (e : Event) (q : Queue) → IsNoRequest e → IsProper q → Goes e q (run e q) × IsProper (run e q)
advances-Goes e q ok proper =
    let (pairs, next) = run-Advances e q ok proper in
    (
      kept-Goes e q (run e q)
          (Pairs-map Advances (Moves e) (λ r s h. inl h) q.rows (run e q).rows pairs),
      subst (Ascending 0 (run e q).rows) (sym next)
          (Ascending-Pairs Advances 0 q.next_id q.rows (run e q).rows pairs proper),
    )

-- If the ids go up along the table, then every event of Lifecycle keeps the rows in their order with
-- their ids, and the ids still go up. It leaves each row in its state, solves it, discards one that is
-- not solved, makes a pending one ready, or hands a ready one out. Besides, the creation of a task may
-- make a row pending that is neither pending, ready nor handed out, and a request sent by a user may
-- make ready one that is not. These two alone add rows, pending ones and ready ones.
pub run-Goes : (e : Event) (q : Queue) → IsProper q → Goes e q (run e q) × IsProper (run e q)
unfolding run create_vul_recheck_task
run-Goes (polled now agents) q proper = advances-Goes (polled now agents) q tt proper
run-Goes (replayed id) q proper = advances-Goes (replayed id) q tt proper
run-Goes (unverified now id) q proper = advances-Goes (unverified now id) q tt proper
run-Goes (verified now id vul_id) q proper = advances-Goes (verified now id vul_id) q tt proper
run-Goes (requested validation state now vul_id agent_id payloads) q proper =
    elim (Bool-cases (is_validated validation state)) [
      | inl e ↦
          rw (create_vul_recheck_task, e)
            (enqueue-Goes validation state now vul_id agent_id payloads q proper)
      | inr e ↦
          rw (create_vul_recheck_task, e)
            (same-Goes (requested validation state now vul_id agent_id payloads) q, proper)
    ]
run-Goes (resent now relation_id agent_id request replay_type) q proper =
    resent-Goes now relation_id agent_id request replay_type q proper
run-Goes (swept wire payloads now vuls) q proper =
    advances-Goes (swept wire payloads now vuls) q tt proper
