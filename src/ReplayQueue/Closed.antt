-- ===== src/ReplayQueue/Closed.antt =====
-- When the replays of a vulnerability are closed, and when one is open.
use dong_tai_server.Prelude.{
  ℕ, ◌+◌, ◌≡◌, refl, ap, subst, ◌⊎◌, inl, inr, Bool, true, not, ◌&&◌, ◌||◌, Option, some, List, [],
  ◌∷◌, ◌∈◌, All, mem-append_right, arith, Bool-cases, Option-cases, if◌then◌else◌, ◌==◌,
  number_comparison, nat_beq_iff,
}
use dong_tai_server.Heartbeat.{
  Replay, payload, null, waiting, solved, solving, vul_replay, same_number,
}
use dong_tai_server.ReplayQueue.{
  Queue, pending, discard, recheck_true, recheck_discard, edit, judged, confirmed, replay_of,
  new_row, new_rows, payload_refs, enqueue, create_vul_recheck_task, is_validated,
}

abbrev pub IsFor : ℕ → Replay → Type 0
IsFor vul_id r = same_number r.relation_id (some vul_id) ≡ true

abbrev pub IsClosed : Replay → Type 0
IsClosed r = (r.state ≡ solved) ⊎ (r.state ≡ discard)

abbrev pub IsOpen : Replay → Type 0
IsOpen r = (r.state ≡ pending) ⊎ (r.state ≡ waiting) ⊎ (r.state ≡ solving)

row-IsClosed :
    (now id vul_id : ℕ) (r : Replay)
    → let s = if r.id == id then judged now solved recheck_true r else r in
      let t =
        if same_number s.relation_id (some vul_id) && not (s.id == id || s.state == solved)
        then judged now discard recheck_discard s
        else s in
      IsFor vul_id t → IsClosed t
row-IsClosed now id vul_id r = ground arith

rows-IsClosed :
    (now id vul_id : ℕ) (rows : List Replay)
    → All
        (λ r. IsFor vul_id r → IsClosed r)
        (edit
          (λ r. same_number r.relation_id (some vul_id) && not (r.id == id || r.state == solved))
          (judged now discard recheck_discard)
          (edit (λ r. r.id == id) (judged now solved recheck_true) rows))
unfolding edit
rows-IsClosed now id vul_id [] = tt
rows-IsClosed now id vul_id (r ∷ rows) =
    (row-IsClosed now id vul_id r, rows-IsClosed now id vul_id rows)

pub confirmed-IsClosed :
    (now id vul_id : ℕ) (q : Queue)
    → All (λ r. IsFor vul_id r → IsClosed r) (confirmed now id vul_id q).rows
unfolding confirmed
confirmed-IsClosed now id vul_id q = rows-IsClosed now id vul_id q.rows

replay_of-found :
    (vul_id : ℕ) (rows : List Replay) (r : Replay)
    → replay_of vul_id rows ≡ some r
    → (r ∈ rows) × (r.replay_type ≡ vul_replay) × IsFor vul_id r
unfolding replay_of
replay_of-found vul_id [] r h = absurd (cc)
replay_of-found vul_id (s ∷ rows) r h =
    elim (Bool-cases (s.replay_type == vul_replay && same_number s.relation_id (some vul_id))) [
      | inl e ↦
          let here = rw (replay_of, e) at h in
          let same : r ≡ s = cc in
          (inl same, rw same (ground (arith, e)), rw same (ground (arith, e)))
      | inr e ↦
          let (there, kind, for) = replay_of-found vul_id rows r (rw (replay_of, e) at h) in
          (inr there, kind, for)
    ]

edit-mem :
    (test : Replay → Bool) (change : Replay → Replay) (rows : List Replay) (r : Replay)
    → r ∈ rows
    → test r ≡ true
    → change r ∈ edit test change rows
unfolding edit
edit-mem test change [] r m e = absurd m
edit-mem test change (s ∷ rows) r (inl q) e =
    inl (let here : test s ≡ true = subst (λ x. test x ≡ true) q e in rw here (ap change q))
edit-mem test change (s ∷ rows) r (inr m) e = inr (edit-mem test change rows r m e)

-- Once a vulnerability is to be verified, it has a row in the queue that is open.
abbrev pub HasOpen : ℕ → List Replay → Type 0
HasOpen vul_id rows =
    (r : Replay) × (r ∈ rows) × (r.replay_type ≡ vul_replay) × IsFor vul_id r × IsOpen r

nat_beq_self : (n : ℕ) → (n == n) ≡ true
nat_beq_self n = (nat_beq_iff n n).1 refl

enqueue-HasOpen :
    (now vul_id agent_id : ℕ) (payloads : List ℕ) (q : Queue)
    → HasOpen vul_id (enqueue now vul_id agent_id payloads q).rows
unfolding enqueue new_rows
enqueue-HasOpen now vul_id agent_id payloads q = elim (Option-cases (replay_of vul_id q.rows)) [
  | inr (first, e) ↦
      let (there, kind, for) = replay_of-found vul_id q.rows first e in
      elim (Bool-cases
        (first.state == pending || (first.state == waiting || first.state == solving))) [
          | inl f ↦ rw (enqueue, e, f) (first, there, kind, for, ground (arith, f))
          | inr f ↦
              let change : Replay → Replay =
                λ r. record r { state = pending; update_time = now; count = first.count + 1 } in
              let made =
                edit-mem (λ r. r.id == first.id) change q.rows first there
                  (nat_beq_self first.id) in
              rw (enqueue, e, f) (change first, made, kind, for, inl refl)
        ]
  | inl e ↦
      let refs = payload_refs payloads in
      let added = new_rows (new_row now vul_id agent_id) refs q.next_id in
      let (r, there, kind, for, open_) = new_rows-first now vul_id agent_id payloads q.next_id in
      rw (enqueue, e) (r, mem-append_right r q.rows added there, kind, for, open_)
]
  where
    new_rows-first :
        (now vul_id agent_id : ℕ) (payloads : List ℕ) (id : ℕ)
        → (r : Replay) × (r ∈ new_rows (new_row now vul_id agent_id) (payload_refs payloads) id)
          × (r.replay_type ≡ vul_replay)
          × IsFor vul_id r
          × IsOpen r
    new_rows-first now vul_id agent_id [] id =
        (new_row now vul_id agent_id null id, inl refl, refl, nat_beq_self vul_id, inl refl)
    new_rows-first now vul_id agent_id (i ∷ is_) id =
        (new_row now vul_id agent_id (payload i) id, inl refl, refl, nat_beq_self vul_id, inl refl)

pub create_vul_recheck_task-HasOpen :
    (validation : Option ℕ) (state : Bool) (now vul_id agent_id : ℕ) (payloads : List ℕ) (q : Queue)
    → is_validated validation state ≡ true
    → HasOpen vul_id (create_vul_recheck_task validation state now vul_id agent_id payloads q).rows
unfolding create_vul_recheck_task
create_vul_recheck_task-HasOpen validation state now vul_id agent_id payloads q e =
    rw (create_vul_recheck_task, e) (enqueue-HasOpen now vul_id agent_id payloads q)
