-- ===== src/ReplayQueue.antt =====
-- The replay queue (dongtai_common/models/replay_queue.py) and who writes it besides the heartbeat:
-- create_vul_recheck_task and handler_replay_vul of dongtai_engine/signals/handlers/vul_handler.py,
-- search_and_save_vul of dongtai_engine/tasks.py, the handler of method pools, and Replay.replay_failed
-- of dongtai_engine/replay.py. vul_recheck is in Sweep, and the view by which a user sends a request
-- again in Resent.
pub mod Sweep
pub mod Rows
pub mod Lifecycle
pub mod Closed
pub mod Resent
mod Tests
use dong_tai_server.Prelude.{
  ℕ, suc, ◌+◌, Bool, true, false, not, ◌&&◌, ◌||◌, Option, none, some, List, [], ◌∷◌, ◌++◌, map,
  if◌then◌else◌, ◌==◌, number_comparison,
}
use dong_tai_server.Heartbeat.{
  Replay, PayloadRef, null, payload, waiting, solved, solving, vul_replay, follow_global, enable,
  same_number,
}

abbrev pub pending : ℕ
pending = 0

abbrev pub discard : ℕ
discard = 4

-- RECHECK_FALSE, RECHECK_TRUE, RECHECK_ERROR and RECHECK_DISCARD
abbrev pub recheck_false : ℕ
recheck_false = 0

abbrev pub recheck_true : ℕ
recheck_true = 1

abbrev pub recheck_error : ℕ
recheck_error = 2

abbrev pub recheck_discard : ℕ
recheck_discard = 3

-- The table, and the id that the database gives to the next row.
pub record Queue : Type 0 where
  pub rows : List Replay
  pub next_id : ℕ

-- `filter(test).update(…)`
pub edit : (Replay → Bool) → (Replay → Replay) → List Replay → List Replay
edit test change rows = map (λ r. if test r then change r else r) rows

-- Replay.replay_failed, on the object and in the table
pub failed : ℕ → Replay → Replay
failed now r = record r {
  update_time = now;
  verify_time = some now;
  state = solved;
  result = some recheck_error;
}

abbrev pub judged : ℕ → ℕ → ℕ → Replay → Replay
judged now state result r = record r {
  update_time = now;
  verify_time = some now;
  state = state;
  result = some result;
}

-- The update of the handler of method pools, after a replay has come in.
pub answered : ℕ → Queue → Queue
unfolding edit
answered replay_id q = record q {
  rows = edit (λ r. r.id == replay_id) (λ r. record r { state = solved }) q.rows;
}

-- The update of search_and_save_vul for the replay of a vulnerability.
pub refuted : ℕ → ℕ → Queue → Queue
unfolding edit
refuted now replay_id q = record q {
  rows = edit (λ r. r.id == replay_id) (judged now solved recheck_false) q.rows;
}

-- The two updates of handler_replay_vul, where the vulnerability has been found again.
pub confirmed : ℕ → ℕ → ℕ → Queue → Queue
unfolding edit
confirmed now replay_id vul_id q =
    let verified = edit (λ r. r.id == replay_id) (judged now solved recheck_true) q.rows in
    record q {
      rows =
          edit
            (λ r.
              same_number r.relation_id (some vul_id)
              && not (r.id == replay_id || r.state == solved))
            (judged now discard recheck_discard) verified;
    }

abbrev pub disable : ℕ
disable = 2

-- Whether a vulnerability is to be verified, from the vul_validation of its project, if there is one.
unfoldable pub is_validated : Option ℕ → Bool → Bool
is_validated none global_state = global_state
is_validated (some v) global_state =
    if v == disable then false else if v == follow_global then global_state else v == enable

-- The first row for the vulnerability.
pub replay_of : ℕ → List Replay → Option Replay
replay_of vul_id [] = none
replay_of vul_id (r ∷ rows) =
    let rest = replay_of vul_id rows in
    if r.replay_type == vul_replay && same_number r.relation_id (some vul_id) then some r else rest

abbrev pub new_row : ℕ → ℕ → ℕ → PayloadRef → ℕ → Replay
new_row now vul_id agent_id payload_id id = record {
  id = id;
  agent_id = agent_id;
  relation_id = some vul_id;
  state = pending;
  count = 1;
  result = none;
  create_time = now;
  update_time = now;
  verify_time = none;
  uri = [];
  method = [];
  scheme = [];
  header = [];
  params = [];
  body = none;
  replay_type = vul_replay;
  payload_id = payload_id;
}

-- bulk_create of a row for each payload, with ids from `id` on
pub new_rows : (PayloadRef → ℕ → Replay) → List PayloadRef → ℕ → List Replay
new_rows row [] id = []
new_rows row (p ∷ ps) id = row p id ∷ new_rows row ps (suc id)

abbrev pub payload_refs : List ℕ → List PayloadRef
payload_refs [] = null ∷ []
payload_refs (i ∷ is_) = payload i ∷ map (λ j. payload j) is_

abbrev pub count_of : List PayloadRef → ℕ
count_of [] = 0
count_of (p ∷ ps) = suc (count_of ps)

-- The part of create_vul_recheck_task behind the check of the settings; `payload_ids` are those of the
-- payloads of the vulnerability's strategy, and no payload makes one row with none.
unfoldable pub enqueue : ℕ → ℕ → ℕ → List ℕ → Queue → Queue
unfolding edit new_rows
enqueue now vul_id agent_id payload_ids q = elim (replay_of vul_id q.rows) [
  | some first ↦
      if first.state == pending || (first.state == waiting || first.state == solving)
      then q
      else record q {
        rows =
            edit (λ r. r.id == first.id)
              (λ r. record r { state = pending; update_time = now; count = first.count + 1 })
              q.rows;
      }
  | none ↦
      let refs = payload_refs payload_ids in
      record {
        rows = q.rows ++ new_rows (new_row now vul_id agent_id) refs q.next_id;
        next_id = q.next_id + count_of refs;
      }
]

pub create_vul_recheck_task : Option ℕ → Bool → ℕ → ℕ → ℕ → List ℕ → Queue → Queue
create_vul_recheck_task validation global_state now vul_id agent_id payload_ids q =
    if is_validated validation global_state then enqueue now vul_id agent_id payload_ids q else q
