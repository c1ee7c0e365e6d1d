-- ===== src/AgentStatus.antt =====
-- The running state of agents: dongtai_common/models/agent.py, the branch of
-- dongtai_protocol/report/report_handler_factory.py on reports of type 1, update_heartbeat of
-- dongtai_protocol/report/handler/heartbeat_handler.py and update_agent_status of
-- dongtai_engine/tasks.py. A table is the list of its rows.
pub mod Changes
mod Tests
use dong_tai_server.Prelude.{
  ℕ, Bool, true, false, not, ◌&&◌, Option, none, some, List, [], ◌∷◌, map, filter, contains,
  if◌then◌else◌, ◌==◌, number_comparison,
}
use dong_tai_server.Prelude.Text.{Text}

-- STATUS_RUNNING, STATUS_PAUSED and STATUS_OFFLINE
abbrev pub running : ℕ
running = 1

abbrev pub paused : ℕ
paused = 2

abbrev pub offline : ℕ
offline = 3

pub record Server : Type 0 where
  pub path : Text
  pub hostname : Text

-- A row of the table whose columns `language` and `filepathsimhash` are set; a project or a server may
-- be missing.
pub record Agent : Type 0 where
  pub id : ℕ
  pub user_id : ℕ
  pub project_id : Option ℕ
  pub language : Text
  pub filepathsimhash : Text
  pub server : Option Server
  pub actual_status : ℕ

-- `IastAgent.objects.filter(…).update(actual_status=status)`
pub update_status : (Agent → Bool) → ℕ → List Agent → List Agent
update_status where_ status agents =
    map (λ a. if where_ a then record a { actual_status = status } else a) agents

-- What a report of type 1 says in its detail; `none` if the key is missing.
pub record CoreReport : Type 0 where
  pub is_core_installed : Option ℕ
  pub is_core_running : Option ℕ
  pub agent_id : ℕ

abbrev pub is_number : Option ℕ → ℕ → Bool
is_number none n = false
is_number (some m) n = m == n

abbrev pub is_none : Option ℕ → Bool
is_none none = true
is_none (some m) = false

-- The branch `report_type == 1` of ReportHandler.handler.
pub report_core : ℕ → CoreReport → List Agent → List Agent
unfolding update_status
report_core user r agents =
    let own = λ (a : Agent). a.user_id == user && a.id == r.agent_id in
    if is_none r.is_core_installed && is_none r.is_core_running
    then agents
    else if is_number r.is_core_installed 0
    then update_status own paused agents
    else if is_number r.is_core_running 1
    then update_status own running agents
    else update_status own paused agents

-- The second statement of update_heartbeat.
pub revive : ℕ → List Agent → List Agent
unfolding update_status
revive agent_id agents =
    update_status (λ a. a.id == agent_id && a.actual_status == offline) running agents

-- update_agent_status, where `alive` are the agents whose heartbeat key is in the cache.
pub update_agent_status : List ℕ → List Agent → List Agent
unfolding update_status
update_agent_status alive agents =
    let online = filter (λ a. not (a.actual_status == offline)) agents in
    let running_agents_ids = map (λ a. a.id) online in
    let stop_agent_ids = filter (λ i. not (contains alive i)) running_agents_ids in
    update_status (λ a. contains stop_agent_ids a.id) offline agents
