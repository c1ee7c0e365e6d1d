-- ===== src/Registration/Rows.antt =====
-- The rows that a registration makes, and how it changes those that are there.
use dong_tai_server.Prelude.{
  ℕ, Bool, ◌&&◌, Option, none, some, List, [], ◌∷◌, contains, if◌then◌else◌, ◌==◌,
  number_comparison, text_comparison,
}
use dong_tai_server.Prelude.Splits.{number_of}
use dong_tai_server.Prelude.Text.{Text, codes}
use dong_tai_server.Registration.{
  User, Project, Version, AgentRow, ServerRow, Port, missing, number, text, Param, Outside,
  is_empty, get_runtime,
}
use dong_tai_server.Registration.Address.{get_ipaddress, get_ipaddresslist}
use dong_tai_server.Registration.Visible.{is_tenant_admin}

-- The template of the parameters, if the user sees it.
abbrev pub template_of : Outside → User → Option ℕ → Option ℕ
template_of around user none = none
template_of around user (some i) = if contains (around.templates user) i then some i else none

abbrev pub or_else : Option ℕ → Option ℕ → Option ℕ
or_else none old = old
or_else (some i) old = some i

unfoldable pub new_project : Outside → User → Param → Text → ℕ → ℕ → Project
new_project around user param name tenant id = record {
  id = id;
  name = name;
  tenant = tenant;
  departments = [];
  template_id = template_of around user param.project_template_id;
  scan_id = around.first_scan user;
  latest_time = around.now;
  current_version = none;
}

unfoldable pub old_project : Outside → User → Param → Project → Project
old_project around user param p = record p {
  template_id = or_else (template_of around user param.project_template_id) p.template_id;
  scan_id = or_else (around.first_scan user) p.scan_id;
  latest_time = around.now;
}

-- `departments.clear()` and `departments.set(…)`
abbrev pub set_departments : User → Project → Project
set_departments user p = record p {
  departments = if is_tenant_admin user then [] else user.departments;
}

abbrev pub project_id : Project → ℕ
project_id p = p.id

abbrev pub version_id : Version → ℕ
version_id v = v.id

abbrev pub is_version : Text → ℕ → Version → Bool
is_version name project v = v.version_name == name && v.project == project

unfoldable pub new_version : Text → ℕ → ℕ → Version
new_version name project id = record { id = id; version_name = name; project = project }

-- The project with its version, where it has none.
unfoldable pub with_version : Version → Project → Project
with_version v p = elim p.current_version [
  | none ↦ record p { current_version = some v.id }
  | some i ↦ p
]

-- `port`, as it is stored; `none` is the ValueError of a text that is no number.
abbrev pub port_of : Port → Option ℕ
port_of missing = some 0
port_of (number n) = some n
port_of (text []) = some 0
port_of (text (c ∷ s)) = number_of (c ∷ s)

abbrev pub port_or_zero : Port → ℕ
port_or_zero missing = 0
port_or_zero (number n) = n
port_or_zero (text s) = elim (number_of s) [ none ↦ 0 | some n ↦ n ]

abbrev pub agent_id : AgentRow → ℕ
agent_id a = a.id

abbrev pub is_agent : User → Text → Text → ℕ → ℕ → AgentRow → Bool
is_agent user token version project project_version a =
    a.token == token
    && a.project == project
    && a.project_version == project_version
    && a.version == version
    && a.user == user.id

-- The defaults of update_or_create, on a row.
unfoldable pub old_agent : Outside → Param → List Text → Text → ℕ → AgentRow → AgentRow
old_agent around param env_list command port a = record a {
  hostname = param.hostname;
  language = param.language;
  latest_time = around.now;
  ip = param.server_addr;
  port = port;
  path = param.server_path;
  cmdline = command;
  env = env_list;
  pid = param.pid;
  ipaddresslist = get_ipaddresslist (around.load_network param.network);
}

unfoldable pub new_agent :
    Outside → User → Param → Text → Text → ℕ → ℕ → List Text → Text → ℕ → ℕ → AgentRow
new_agent around user param token version project project_version env_list command port id =
    record {
      id = id;
      token = token;
      version = version;
      user = user.id;
      project = project;
      project_version = project_version;
      hostname = param.hostname;
      language = param.language;
      latest_time = around.now;
      ip = param.server_addr;
      port = port;
      path = param.server_path;
      cmdline = command;
      env = env_list;
      pid = param.pid;
      ipaddresslist = get_ipaddresslist (around.load_network param.network);
      server_id = none;
    }

abbrev pub server_id_of : ServerRow → ℕ
server_id_of s = s.id

abbrev pub address_of : Outside → Param → Text
address_of around param =
    let ip = get_ipaddress (around.load_network param.network) in
    if is_empty ip then param.server_addr else ip

-- The columns of update_fields; `network` and `pid` are set on the object and not saved.
unfoldable pub old_server : Outside → Param → Text → Text → ServerRow → ServerRow
old_server around param env command s = record s {
  hostname = param.hostname;
  command = command;
  ip = address_of around param;
  port = port_or_zero param.server_port;
  env = env;
  status = codes "online";
  update_time = around.now;
  cluster_name = param.cluster_name;
  cluster_version = param.cluster_version;
  ipaddresslist = get_ipaddresslist (around.load_network param.network);
}

unfoldable pub new_server : Outside → Param → Text → List Text → Text → ℕ → ServerRow
new_server around param env env_list command id = record {
  id = id;
  hostname = param.hostname;
  ip = address_of around param;
  port = port_or_zero param.server_port;
  pid = param.pid;
  network = param.network;
  env = env;
  path = param.server_path;
  status = codes "online";
  container = param.container_name;
  container_path = param.server_path;
  cluster_name = param.cluster_name;
  cluster_version = param.cluster_version;
  command = command;
  runtime = get_runtime around.lower env_list;
  create_time = around.now;
  update_time = around.now;
  ipaddresslist = get_ipaddresslist (around.load_network param.network);
}
