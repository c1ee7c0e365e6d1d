-- ===== src/Heartbeat.antt =====
-- dongtai_protocol/report/handler/heartbeat_handler.py: a heartbeat report is stored, and answered
-- with the requests of the replay queue (dongtai_common/models/replay_queue.py) that the agent may
-- send again. Tables are lists of rows; an update of a table is a map over it.
pub mod Delivery
mod Tests
use dong_tai_server.Prelude.{
  ℕ, ◌≤◌, Bool, true, false, not, ◌&&◌, ◌||◌, Option, none, some, List, [], ◌∷◌, ◌++◌, map, filter,
  contains, length, take, if◌then◌else◌, ◌==◌, number_comparison, text_comparison,
}
use dong_tai_server.Prelude.Sorting.{sort_down_by}
use dong_tai_server.Prelude.Dict.{put}
use dong_tai_server.Prelude.Text.{Text}
use dong_tai_server.AgentStatus.{Agent, Server, is_number, is_none, revive}

-- What `parse` takes from the report.
pub record Detail : Type 0 where
  pub cpu : Option Text
  pub memory : Option Text
  pub disk : Option Text
  pub req_count : Option ℕ
  pub report_queue : ℕ
  pub method_queue : ℕ
  pub replay_queue : ℕ
  pub return_queue : Option ℕ

-- The keys of default_dict; `none`: the key is not set.
pub record Defaults : Type 0 where
  pub dt : ℕ
  pub req_count : Option (Option ℕ)
  pub report_queue : Option ℕ
  pub method_queue : Option ℕ
  pub replay_queue : Option ℕ
  pub memory : Option (Option Text)
  pub cpu : Option (Option Text)
  pub disk : Option (Option Text)

-- The cache of heartbeats by agent id, the tasks update_heartbeat that have been queued so far, and
-- the agents whose lock is held: the task is a Singleton with `unique_on=["agent_id"]`. That a lock
-- ends with its task, or after 20 seconds, and that the cache ends after 521, is not modelled.
pub record Beats : Type 0 where
  pub cache : List (ℕ × Defaults)
  pub tasks : List (ℕ × Defaults)
  pub locked : List ℕ

abbrev pub only_time : ℕ → Defaults
only_time now = record {
  dt = now;
  req_count = none;
  report_queue = none;
  method_queue = none;
  replay_queue = none;
  memory = none;
  cpu = none;
  disk = none;
}

pub queues : ℕ → Detail → Defaults
queues now d = record (only_time now) {
  req_count = some d.req_count;
  report_queue = some d.report_queue;
  method_queue = some d.method_queue;
  replay_queue = some d.replay_queue;
}

pub measures : ℕ → Detail → Defaults
measures now d = record (only_time now) {
  req_count = elim d.req_count [ none ↦ none | some n ↦ some (some n) ];
  memory = some d.memory;
  cpu = some d.cpu;
  disk = some d.disk;
}

pub both : ℕ → Detail → Defaults
unfolding queues
both now d = record (queues now d) { memory = some d.memory; cpu = some d.cpu; disk = some d.disk }

-- `update_heartbeat.delay(…)`: while a task of the agent is pending, a further one is dropped.
pub delay_update_heartbeat : ℕ → Defaults → Beats → Beats
delay_update_heartbeat agent_id defaults s =
    if contains s.locked agent_id
    then s
    else record s { tasks = s.tasks ++ (agent_id, defaults) ∷ []; locked = agent_id ∷ s.locked }

-- `save_heartbeat`, at the time `now`
pub save_heartbeat : ℕ → ℕ → Detail → Beats → Beats
unfolding delay_update_heartbeat
save_heartbeat now agent_id d s =
    if is_number d.return_queue 1
    then record s { cache = put agent_id (queues now d) s.cache }
    else if is_number d.return_queue 0
    then record (delay_update_heartbeat agent_id (measures now d) s) {
      cache = put agent_id (measures now d) s.cache;
    }
    else record (delay_update_heartbeat agent_id (both now d) s) {
      cache = put agent_id (both now d) s.cache;
    }

-- FOLLOW_GLOBAL and ENABLE of VulValidation
abbrev pub follow_global : ℕ
follow_global = 0

abbrev pub enable : ℕ
enable = 1

-- get_project_vul_validation_state and vul_recheck_state, from the value that the query returns
pub vul_recheck_state : Option ℕ → Bool → Bool
vul_recheck_state state global_state =
    let project_level : ℕ = elim state [ none ↦ follow_global | some v ↦ v ] in
    if project_level == follow_global then global_state else project_level == enable

abbrev pub waiting : ℕ
waiting = 1

abbrev pub solved : ℕ
solved = 2

abbrev pub solving : ℕ
solving = 3

abbrev pub vul_replay : ℕ
vul_replay = 1

-- The payload of a row: NULL, the -1 that stands for the built-in one, or an id.
pub data PayloadRef : Type 0 where
  null minus_one : PayloadRef
  payload : ℕ → PayloadRef

-- A row of the queue. The empty uri stands for NULL too, which the code tests alike.
pub record Replay : Type 0 where
  pub id : ℕ
  pub agent_id : ℕ
  pub relation_id : Option ℕ
  pub state : ℕ
  pub count : ℕ
  pub result : Option ℕ
  pub create_time : ℕ
  pub update_time : ℕ
  pub verify_time : Option ℕ
  pub uri : Text
  pub method : Text
  pub scheme : Text
  pub header : Text
  pub params : Text
  pub body : Option Text
  pub replay_type : ℕ
  pub payload_id : PayloadRef

abbrev pub same_number : Option ℕ → Option ℕ → Bool
same_number none none = true
same_number (some a) (some b) = a == b
same_number _ _ = false

abbrev pub same_place : Option Server → Server → Bool
same_place none s = false
same_place (some r) s =
    r.path == s.path
    && r.hostname == s.hostname
    && not (length r.path == 0)
    && not (length r.hostname == 0)

-- The ids of project_agents: the agents of the project, those with the same simhash, and those at
-- the same path of the same host, all of the language.
pub project_agents : Agent → Server → List Agent → List ℕ
project_agents agent server agents =
    map (λ a. a.id)
      (filter
        (λ a.
          a.language == agent.language
          && (same_number a.project_id agent.project_id
              || a.filepathsimhash == agent.filepathsimhash
              || same_place a.server server))
        agents)

-- replay_queryset: the order of the model, and the first 200
pub replay_queryset : List ℕ → List Replay → List Replay
replay_queryset agents table = take 200 (
    filter (λ r. contains agents r.agent_id && (r.state == waiting || r.state == solving))
      (sort_down_by (λ r. r.replay_type) table))

abbrev pub has_uri : Replay → Bool
has_uri r = not (length r.uri == 0)

abbrev pub ids : List Replay → List ℕ
ids rows = map (λ r. r.id) rows

pub update_rows : (Replay → Bool) → ℕ → ℕ → List Replay → List Replay
update_rows test now state table =
    map (λ r. if test r then record r { update_time = now; state = state } else r) table

-- What get_result hands to the agent, the vulnerabilities that it logs, and the table it leaves.
pub record Issued : Type 0 where
  pub requests : List Replay
  pub logged : List (Option ℕ)
  pub table : List Replay

-- The body of the `try`, for the rows of replay_queryset: the three updates in the order of the code.
pub issue : ℕ → List Replay → List Replay → Issued
unfolding update_rows
issue now selected table =
    let success = filter has_uri selected in
    let failure = filter (λ r. not (has_uri r)) selected in
    let solved_rows =
      update_rows (λ r. contains (ids success) r.id && r.state == solving) now solved table in
    let solving_rows =
      update_rows (λ r. contains (ids success) r.id && r.state == waiting) now solving
        solved_rows in
    record {
      requests = success;
      logged = map (λ r. r.relation_id) (filter (λ r. r.replay_type == vul_replay) success);
      table = update_rows (λ r. contains (ids failure) r.id) now solved solving_rows;
    }

-- `get_result`. With no server of the agent the query raises, and the answer is empty.
pub get_result : ℕ → Detail → Bool → Agent → List Agent → List Replay → Issued
unfolding issue
get_result now d recheck agent agents table =
    if (is_none d.return_queue || is_number d.return_queue 1) && recheck
    then elim agent.server [
      | none ↦ record { requests = []; logged = []; table = table }
      | some server ↦ issue now (replay_queryset (project_agents agent server agents) table) table
    ]
    else record { requests = []; logged = []; table = table }
