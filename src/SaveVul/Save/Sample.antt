-- ===== src/SaveVul/Save/Sample.antt =====
-- A method pool, a sighting in it and a store, for the runs.
use dong_tai_server.Prelude.{none, some, false, [], ◌∷◌}
use dong_tai_server.Prelude.Text.{Text, codes}
use dong_tai_server.Compatibility.{Report}
use dong_tai_server.TaintOrigin.{Codecs, Names}
use dong_tai_server.SaveVul.{VulMeta, Sighting, Vul, Store, pattern_method}
use dong_tai_server.SaveVul.Save.{key_of_sighting, created, VulKey}

abbrev pub codecs : Codecs
codecs = record {
  query_items = λ s. some ((codes "q", s) ∷ []);
  unquote_plus = λ s. s;
  json_loads = λ s. none;
  b64decode = λ s. some s;
  decode_utf8 = λ s. some s;
  parse_headers = λ s. some [];
  java_params = λ s. some [];
}

abbrev pub dumps : Names → Text
dumps names = codes "{}"

abbrev pub report : Text → Text → Report
report signature value = record {
  invoke_id = 1;
  class_name = [];
  method_name = [];
  signature = signature;
  source = false;
  source_hash = [];
  target_hash = none;
  source_values = none;
  target_values = some value;
  source_type = none;
  target_range = none;
  taint_position = none;
  parameter_values = none;
  obj_value = none;
  ret_value = none;
}

abbrev pub vul_meta : VulMeta
vul_meta = record {
  id = 70;
  agent_id = 5;
  project_id = 2;
  project_version_id = 3;
  server_id = 4;
  language = codes "JAVA";
  url = codes "http://h/u/ab";
  uri = codes "/u/ab";
  http_method = codes "GET";
  http_scheme = codes "http";
  http_protocol = codes "HTTP/1.1";
  req_header = codes "h:1";
  req_params = codes "a=1";
  req_data = none;
  res_header = [];
  res_body = [];
  context_path = [];
  clent_ip = codes "10.0.0.1";
  create_time = 90;
  method_pool = report pattern_method (codes "/u/{id}") ∷ report (codes "f") [] ∷ [];
}

abbrev pub sighting : Sighting
sighting = record {
  vul_level = 1;
  strategy_id = 8;
  vul_stack = (report (codes "f") (codes "ab") ∷ []) ∷ [];
  full_stack = codes "[[]]";
  top_stack = codes "m";
  bottom_stack = codes "n";
  taint_value = codes "ab";
}

abbrev pub key : VulKey
key = key_of_sighting vul_meta sighting (codes "/u/{id}") (codes "{}")

abbrev pub known : Vul
known = created vul_meta sighting key [] 91 1

abbrev pub store : Store
store = record {
  vuls = known ∷ [];
  next_id = 2;
  vul_pools = [];
  held = [];
  project_updates = [];
  notified = [];
  replay_logs = [];
}
