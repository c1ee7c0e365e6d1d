-- ===== src/ReplayQueue/Sweep.antt =====
-- vul_recheck of dongtai_engine/tasks.py: the pending rows get the request that an agent is to send.
-- The query takes rows of the type VUL_REPLAY alone, so the branches for other types are not reached.
pub mod Blocked
pub mod Rewritten
pub mod Leaves
pub mod Progress
pub mod Saved
mod Tests
use dong_tai_server.Prelude.{
  ℕ, Bool, true, false, not, ◌&&◌, Option, none, some, List, [], ◌∷◌, map, filter, contains, length,
  take, if◌then◌else◌, ◌==◌, number_comparison,
}
use mathlib.Core.Option
use dong_tai_server.Prelude.Dict.{lookup}
use dong_tai_server.Prelude.Sorting.{sort_down_by}
use dong_tai_server.Prelude.Text.{Text, codes}
use dong_tai_server.Heartbeat.{Replay, PayloadRef, null, minus_one, payload, waiting, vul_replay}
use dong_tai_server.ReplayRequest.{
  Wire, Loaded, invalid, no_dict, positions, Sent, rewrite_positions,
}
use dong_tai_server.ReplayQueue.{pending, failed, edit}

-- The columns that replay_payload_data reads.
pub record Vulnerability : Type 0 where
  pub id : ℕ
  pub agent : ℕ
  pub uri : Text
  pub http_method : Text
  pub http_scheme : Text
  pub req_header : Text
  pub req_params : Text
  pub req_data : Option Text
  pub taint_value : Text
  pub param_name : Text

-- `id__in=relation_ids`, as a dict by id
pub replay_payload_data : List ℕ → List Vulnerability → List (ℕ × Vulnerability)
replay_payload_data relation_ids vuls =
    map (λ v. (v.id, v)) (filter (λ v. contains relation_ids v.id) vuls)

-- recheck_payload: with NULL for the payload, `replay.payload.value` raises, and so does a payload
-- that is not in its table.
pub recheck_payload : List (ℕ × Text) → PayloadRef → Option Text
recheck_payload payloads null = none
recheck_payload payloads minus_one = some (codes ".%2F..%2F%60dongtai")
recheck_payload payloads (payload i) = lookup i payloads

abbrev pub sent_of : Vulnerability → Sent
sent_of v = record { uri = v.uri; params = v.req_params; header = v.req_header; body = v.req_data }

-- The row with the request, ready to be handed out.
pub ready : ℕ → Vulnerability → Sent → Replay → Replay
ready now v sent r = record r {
  uri = sent.uri;
  method = v.http_method;
  scheme = v.http_scheme;
  header = sent.header;
  params = sent.params;
  body = sent.body;
  update_time = now;
  state = waiting;
  agent_id = v.agent;
}

-- From "param_name" on. If that is no json, the row is marked as failed, and made ready all the same.
pub made_ready : Wire → ℕ → Text → Vulnerability → Loaded → Replay → Option Replay
unfolding ready failed
made_ready wire now text v invalid r = some (ready now v (sent_of v) (failed now r))
made_ready wire now text v no_dict r = none
made_ready wire now text v (positions params) r =
    Option.map (λ sent. ready now v sent r)
      (rewrite_positions wire text v.taint_value params (sent_of v))

abbrev pub found_by : Option ℕ → List (ℕ × Vulnerability) → Option Vulnerability
found_by none vul_data = none
found_by (some i) vul_data = lookup i vul_data

-- With a payload and a vulnerability.
pub prepared : Wire → ℕ → Text → Vulnerability → Replay → Option Replay
unfolding made_ready ready
prepared wire now text v r =
    if length v.param_name == 0
    then some (ready now v (sent_of v) r)
    else made_ready wire now text v (wire.load_positions v.param_name) r

-- One round of the second loop: the row as it is saved; `none` is an exception.
pub round : Wire → List (ℕ × Text) → ℕ → List (ℕ × Vulnerability) → Replay → Option Replay
unfolding recheck_payload prepared failed
round wire payloads now vul_data r = elim (recheck_payload payloads r.payload_id) [
  | none ↦ none
  | some text ↦ elim (found_by r.relation_id vul_data) [
    | none ↦ some (failed now r)
    | some v ↦ prepared wire now text v r
  ]
]

-- `save` of one row
pub save : Replay → List Replay → List Replay
unfolding edit
save row rows = edit (λ r. r.id == row.id) (λ _. row) rows

-- The table that a sweep leaves, and whether it came to its end.
pub record Swept : Type 0 where
  pub rows : List Replay
  pub finished : Bool

pub rounds :
    Wire → List (ℕ × Text) → ℕ → List (ℕ × Vulnerability) → List Replay → List Replay → Swept
unfolding round save
rounds wire payloads now vul_data [] rows = record { rows = rows; finished = true }
rounds wire payloads now vul_data (r ∷ rs) rows = elim (round wire payloads now vul_data r) [
  | none ↦ record { rows = rows; finished = false }
  | some row ↦ rounds wire payloads now vul_data rs (save row rows)
]

abbrev pub has_relation : Replay → Bool
has_relation r = elim r.relation_id [ none ↦ false | some i ↦ true ]

-- The first loop: a row with no relation fails, in the list and in the table.
pub fail_row : ℕ → Replay → Replay
unfolding failed
fail_row now r = if has_relation r then r else failed now r

pub save_all : List Replay → List Replay → List Replay
unfolding save
save_all [] rows = rows
save_all (r ∷ rs) rows = save_all rs (save r rows)

abbrev pub relation_ids : List Replay → List ℕ
relation_ids [] = []
relation_ids (r ∷ rs) = elim r.relation_id [ none ↦ relation_ids rs | some i ↦ i ∷ relation_ids rs ]

-- sub_replay_queue: the newest 100 pending rows
pub sub_replay_queue : List Replay → List Replay
sub_replay_queue rows = take 100 (
    filter (λ r. r.replay_type == vul_replay && r.state == pending) (sort_down_by (λ r. r.id) rows))

-- Both loops, over the batch as the first loop leaves its objects
pub sweep : Wire → List (ℕ × Text) → ℕ → List Vulnerability → List Replay → List Replay → Swept
unfolding save_all replay_payload_data rounds
sweep wire payloads now vuls batch rows =
    let rows' = save_all (filter (λ r. not (has_relation r)) batch) rows in
    let vul_ids = relation_ids batch in
    if length vul_ids == 0
    then record { rows = rows'; finished = true }
    else rounds wire payloads now (replay_payload_data vul_ids vuls) batch rows'

pub vul_recheck : Wire → List (ℕ × Text) → ℕ → List Vulnerability → List Replay → Swept
vul_recheck wire payloads now vuls rows =
    sweep wire payloads now vuls (map (fail_row now) (sub_replay_queue rows)) rows
