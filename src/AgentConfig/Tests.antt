-- ===== src/AgentConfig/Tests.antt =====
-- Runs and instances for the configuration of an agent.
use dong_tai_server.Prelude.{ℕ, ◌≡◌, refl, some, List, [], ◌∷◌}
use dong_tai_server.Prelude.Sorting.{InOrder, up}
use dong_tai_server.Prelude.Text.{codes}
use dong_tai_server.AgentConfig.{
  Details, Target, Config, ok, text, number, missing, candidates, get_agent_config_by_scan,
  target_holds, target_type, target_operator, attribute, compare_by, scan, all_hold,
  targets_of_config,
}
use dong_tai_server.AgentConfig.Scan.{Found, AreTestable, get_agent_config_by_scan-Found}

abbrev details : Details
details = record {
  account_name = text (codes "admin");
  project_name = text (codes "shop");
  protocol = text (codes "http");
  agent_name = missing;
  agent_ip = text (codes "10.0.0.1");
  agent_path = text (codes "/srv");
  port = number 80;
  agent_language = text (codes "JAVA");
}

abbrev targets : List Target
targets =
    record { circuit_config_id = 1; target_type = 7; opt = 1; value = codes "80" }
    ∷ record { circuit_config_id = 2; target_type = 8; opt = 1; value = codes "JAVA" }
    ∷ []

abbrev config : ℕ → ℕ → Config
config id priority = record {
  id = id;
  is_enable = 1;
  is_deleted = 0;
  metric_group = 1;
  priority = priority;
  interval = 30;
}

abbrev configs : List Config
configs = config 2 9 ∷ config 1 3 ∷ []

testable : AreTestable details targets
unfolding target_holds target_type target_operator attribute compare_by
testable = ((_, refl), ((_, refl), tt))

get_agent_config_by_scan-Found_example :
    InOrder (up (λ (c : Config). c.priority)) (candidates configs 1)
    × Found details targets
        (candidates configs 1)
        (get_agent_config_by_scan (some details) targets configs 1)
get_agent_config_by_scan-Found_example =
    get_agent_config_by_scan-Found details targets configs 1 testable

-- A port is a number and the value of a target a text, so the first configuration by priority, which
-- asks for the port of this agent, is passed over.
port_run : get_agent_config_by_scan (some details) targets configs 1 ≡ some (ok 2)
unfolding get_agent_config_by_scan candidates scan all_hold targets_of_config target_holds
    target_type target_operator attribute compare_by
port_run = refl
