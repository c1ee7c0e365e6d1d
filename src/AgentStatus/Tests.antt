-- ===== src/AgentStatus/Tests.antt =====
-- Instances for the changes of agents.
use dong_tai_server.Prelude.{ℕ, none, some, List, [], ◌∷◌}
use dong_tai_server.AgentStatus.{
  Agent, CoreReport, paused, offline, update_agent_status, report_core,
}
use dong_tai_server.AgentStatus.Changes.{
  Becomes, after_check, after_report, update_agent_status_exact, report_core_exact,
}

abbrev agent : ℕ → ℕ → Agent
agent id status = record {
  id = id;
  user_id = 1;
  project_id = some 4;
  language = [];
  filepathsimhash = [];
  server = none;
  actual_status = status;
}

abbrev agents : List Agent
agents = agent 1 1 ∷ agent 2 paused ∷ agent 3 offline ∷ []

abbrev core_gone : CoreReport
core_gone = record { is_core_installed = some 0; is_core_running = none; agent_id = 1 }

update_agent_status_exact_example :
    Becomes (after_check (1 ∷ [])) agents (update_agent_status (1 ∷ []) agents)
update_agent_status_exact_example = update_agent_status_exact (1 ∷ []) agents

report_core_exact_example :
    Becomes (after_report 1 core_gone) agents (report_core 1 core_gone agents)
report_core_exact_example = report_core_exact 1 core_gone agents
