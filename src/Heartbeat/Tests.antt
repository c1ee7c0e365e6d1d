-- ===== src/Heartbeat/Tests.antt =====
-- Runs and instances for heartbeats.
use dong_tai_server.Prelude.{ℕ, ◌≡◌, refl, true, none, some, List, [], ◌∷◌, map, number_comparison}
use dong_tai_server.Prelude.Text.{codes}
use dong_tai_server.AgentStatus.{Agent}
use dong_tai_server.Heartbeat.{
  Detail, Beats, Replay, minus_one, waiting, solving, solved, save_heartbeat,
  delay_update_heartbeat, measures, issue, get_result, update_rows, replay_queryset, project_agents,
}
use dong_tai_server.Heartbeat.Delivery.{after_poll, issue_exact, Delivers, get_result-Delivers}

abbrev detail : Detail
detail = record {
  cpu = none;
  memory = some (codes "{}");
  disk = none;
  req_count = some 12;
  report_queue = 0;
  method_queue = 3;
  replay_queue = 0;
  return_queue = some 1;
}

abbrev no_beats : Beats
no_beats = record { cache = []; tasks = []; locked = [] }

-- With a "returnQueue" of 0 a task is queued, but no second one while it is pending.
abbrev twice : Beats
twice =
    let report = record detail { return_queue = some 0 } in
    save_heartbeat 110 5 report (save_heartbeat 100 5 report no_beats)

one_task : map (λ t. t.1.dt) twice.tasks ≡ 100 ∷ []
unfolding save_heartbeat delay_update_heartbeat measures
one_task = refl

newest_cached : map (λ t. t.1.dt) twice.cache ≡ 110 ∷ []
unfolding save_heartbeat delay_update_heartbeat measures
newest_cached = refl

abbrev row : ℕ → ℕ → Replay
row id state = record {
  id = id;
  agent_id = 5;
  relation_id = some 40;
  state = state;
  count = 1;
  result = none;
  create_time = 0;
  update_time = 0;
  verify_time = none;
  uri = codes "/api";
  method = codes "GET";
  scheme = codes "http";
  header = [];
  params = [];
  body = none;
  replay_type = 1;
  payload_id = minus_one;
}

abbrev table : List Replay
table = row 1 waiting ∷ row 2 solving ∷ record (row 3 waiting) { uri = [] } ∷ row 4 solved ∷ []

abbrev agent : Agent
agent = record {
  id = 5;
  user_id = 1;
  project_id = some 4;
  language = codes "JAVA";
  filepathsimhash = [];
  server = some (record { path = []; hostname = [] });
  actual_status = 1;
}

issue_exact_example :
    ((issue 9 table table).requests ≡ row 1 waiting ∷ row 2 solving ∷ row 4 solved ∷ [])
    × ((issue 9 table table).table ≡ map (after_poll 9 table) table)
issue_exact_example = issue_exact 9 table table

get_result-Delivers_example :
    Delivers agent (agent ∷ []) table (get_result 9 detail true agent (agent ∷ []) table)
get_result-Delivers_example = get_result-Delivers 9 detail true agent (agent ∷ []) table

-- The rows that a poll leaves behind: the first is open for a second hand-out.
poll_run :
    map (λ r. r.state) (get_result 9 detail true agent (agent ∷ []) table).table
    ≡ solving ∷ solved ∷ solved ∷ solved ∷ []
unfolding get_result issue update_rows replay_queryset project_agents
poll_run = refl
