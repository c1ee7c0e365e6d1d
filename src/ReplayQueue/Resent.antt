-- ===== src/ReplayQueue/Resent.antt =====
-- dongtai_web/views/vul_request_replay.py: RequestReplayEndPoint.send_request_to_replay_queue, by which
-- a user puts a request of their own into the replay queue. That the replies to an earlier sending are
-- deleted is a write to another table, and not modelled. A relation id is only compared, so the -1 of a
-- request without a method pool is one more number here.
use dong_tai_server.Prelude.{
  ℕ, suc, ◌∷◌, ◌++◌, ◌&&◌, Option, none, some, List, [], if◌then◌else◌, ◌==◌, number_comparison,
}
use dong_tai_server.Prelude.Text.{Text}
use dong_tai_server.Heartbeat.{Replay, null, waiting, same_number}
use dong_tai_server.ReplayQueue.{Queue, edit}

-- The request that check_replay_request has read.
pub record RawRequest : Type 0 where
  pub uri : Text
  pub method : Text
  pub scheme : Text
  pub header : Text
  pub params : Text
  pub body : Text

-- The first row of the type for the relation and the agent.
unfoldable pub row_of : ℕ → ℕ → ℕ → List Replay → Option Replay
row_of replay_type relation_id agent_id [] = none
row_of replay_type relation_id agent_id (r ∷ rows) =
    let rest = row_of replay_type relation_id agent_id rows in
    if r.replay_type == replay_type
      && (same_number r.relation_id (some relation_id) && r.agent_id == agent_id)
    then some r
    else rest

-- The fields that the saved row takes from the request.
unfoldable pub resend : ℕ → ℕ → RawRequest → Replay → Replay
resend now agent_id request r = record r {
  state = waiting;
  uri = request.uri;
  method = request.method;
  scheme = request.scheme;
  header = request.header;
  params = request.params;
  body = some request.body;
  update_time = now;
  agent_id = agent_id;
}

unfoldable pub sent_row : ℕ → ℕ → ℕ → RawRequest → ℕ → ℕ → Replay
sent_row now relation_id agent_id request replay_type id = record {
  id = id;
  agent_id = agent_id;
  relation_id = some relation_id;
  state = waiting;
  count = 0;
  result = none;
  create_time = now;
  update_time = now;
  verify_time = none;
  uri = request.uri;
  method = request.method;
  scheme = request.scheme;
  header = request.header;
  params = request.params;
  body = some request.body;
  replay_type = replay_type;
  payload_id = null;
}

unfoldable pub send_request_to_replay_queue : ℕ → ℕ → ℕ → RawRequest → ℕ → Queue → Queue
unfolding edit resend sent_row
send_request_to_replay_queue now relation_id agent_id request replay_type q =
    elim (row_of replay_type relation_id agent_id q.rows) [
      | some first ↦
          if first.state == waiting
          then q
          else record q { rows = edit (λ r. r.id == first.id) (resend now agent_id request) q.rows }
      | none ↦ record {
        rows = q.rows ++ sent_row now relation_id agent_id request replay_type q.next_id ∷ [];
        next_id = suc q.next_id;
      }
    ]
