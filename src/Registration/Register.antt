-- ===== src/Registration/Register.antt =====
-- The steps of a registration, and the endpoint that runs them in one transaction.
mod Steps
mod Endpoint
pub mod Again
pub mod Departments
mod Tests
use dong_tai_server.Prelude.{
  ℕ, suc, Bool, true, false, not, ◌&&◌, ◌||◌, Option, none, some, List, [], ◌∷◌, ◌++◌, map, filter,
  contains, length, if◌then◌else◌, ◌==◌, number_comparison, text_comparison,
}
use dong_tai_server.Prelude.Splits.{number_of}
use dong_tai_server.Prelude.Text.{Text, codes}
use dong_tai_server.Registration.{
  User, Project, Version, AgentRow, ServerRow, Port, missing, number, text, Param, Outside,
  is_empty, get_command, get_runtime, env_of, env_list_of, project_name_of,
}
use dong_tai_server.Registration.Tables.{Table, Made, update_or_create, put_row}
use dong_tai_server.Registration.Address.{get_ipaddress, get_ipaddresslist}
use dong_tai_server.Registration.Visible.{
  level_tenant, level_super, is_tenant_admin, is_of, departments_of, seen_as, joined_projects,
  get_projects, is_project,
}
use dong_tai_server.Registration.Rows.{
  template_of, or_else, new_project, old_project, set_departments, project_id, version_id,
  new_version, with_version, port_of, port_or_zero, agent_id, old_agent, new_agent, server_id_of,
  address_of, old_server, new_server, is_agent, is_version,
}

infixl 5 ◌>>=◌
abbrev pub ◌>>=◌ : {A B : Type 0} → Option A → (A → Option B) → Option B
none >>= f = none
some a >>= f = f a

pub record Db : Type 0 where
  pub projects : Table Project
  pub versions : Table Version
  pub agents : Table AgentRow
  pub servers : Table ServerRow

abbrev pub any_row : {A : Type 0} → (A → Bool) → List A → Bool
any_row test [] = false
any_row test (x ∷ xs) = test x || any_row test xs

-- Without a tenant, no project is found and none can be created.
pub register_project : Outside → User → Param → Text → Table Project → Option (Made Project)
unfolding get_projects new_project old_project
register_project around user param name projects = elim user.tenant [
  | none ↦ none
  | some tenant ↦ do
    visible ← get_projects user projects.rows
    made ←
        update_or_create project_id (filter (is_project name user.tenant) visible)
          (any_row (is_project name user.tenant) projects.rows)
          (new_project around user param name tenant) (old_project around user param) projects
    let row = set_departments user made.row
    some (record made {
      row = row;
      table = record made.table { rows = put_row project_id row made.table.rows };
    })
]

abbrev pub with_id : {A : Type 0} → (A → ℕ) → ℕ → List A → Option A
with_id id_of i [] = none
with_id id_of i (x ∷ xs) = let rest = with_id id_of i xs in if id_of x == i then some x else rest

abbrev pub text_or : Option Text → Text → Text
text_or (some (c ∷ s)) other = c ∷ s
text_or _ other = other

abbrev pub is_missing : Option Text → Bool
is_missing (some (c ∷ s)) = false
is_missing _ = true

abbrev pub by_name : Text → Project → Table Version → Option (Made Version)
by_name name project versions =
    update_or_create version_id (filter (is_version name project.id) versions.rows) false
      (new_version name project.id) (λ v. v) versions

pub find_version : Outside → Param → Project → Bool → Table Version → Option (Made Version)
unfolding new_version
find_version around param project created versions =
    if not created && is_missing param.project_version
    then elim project.current_version [
      | none ↦ by_name around.today project versions
      | some i ↦ elim (with_id version_id i versions.rows) [
        | none ↦ none
        | some v ↦ some (record { row = v; created = false; table = versions })
      ]
    ]
    else by_name (text_or param.project_version around.today) project versions

pub register_agent :
    Outside
    → User
    → Param
    → Text
    → Text
    → ℕ
    → ℕ
    → List Text
    → Text
    → Table AgentRow
    → Option (Made AgentRow)
unfolding new_agent old_agent
register_agent around user param token version project project_version env_list command agents = do
  port ← port_of param.server_port
  update_or_create agent_id
      (filter (is_agent user token version project project_version) agents.rows) false
      (new_agent around user param token version project project_version env_list command port)
      (old_agent around param env_list command port) agents

-- The server of the agent, if it has one that is there.
abbrev pub server_of : AgentRow → Table ServerRow → Option ServerRow
server_of agent servers = elim agent.server_id [
  | none ↦ none
  | some i ↦ with_id server_id_of i servers.rows
]

-- register_server: the agents and the servers afterwards.
pub register_server :
    Outside
    → Param
    → Text
    → List Text
    → Text
    → AgentRow
    → Table AgentRow
    → Table ServerRow
    → Table AgentRow × Table ServerRow
unfolding old_server new_server
register_server around param env env_list command agent agents servers =
    elim (server_of agent servers) [
      | some s ↦ (
        agents,
        record servers {
          rows = put_row server_id_of (old_server around param env command s) servers.rows;
        },
      )
      | none ↦ (
        record agents {
          rows = put_row agent_id (record agent { server_id = some servers.next_id }) agents.rows;
        },
        record {
          rows = servers.rows ++ new_server around param env env_list command servers.next_id ∷ [];
          next_id = suc servers.next_id;
        },
      )
    ]

-- The body of the transaction, for a token and a version that are not empty: the id of the agent, and the tables.
pub register : Outside → User → Param → Text → Text → Db → Option (ℕ × Db)
unfolding register_project find_version with_version register_agent register_server env_of
register around user param token version db = do
  env ← env_of around param.server_env
  let env_list = env_list_of param.server_env env
  let command = get_command around.lower env_list
  project ←
      register_project around user param (project_name_of around param.project_name command)
        db.projects
  version_made ← find_version around param project.row project.created db.versions
  let row = with_version version_made.row project.row
  agent ←
      register_agent around user param token version row.id version_made.row.id env_list command
        db.agents
  let (agents, servers) =
      register_server around param env env_list command agent.row agent.table db.servers
  some (
    agent.row.id,
    record {
      projects = record project.table { rows = put_row project_id row project.table.rows };
      versions = version_made.table;
      agents = agents;
      servers = servers;
    },
  )

pub data Response : Type 0 where
  bad_parameters failed : Response
  success : ℕ → Response

abbrev pub responded : Db → Option (ℕ × Db) → Response × Db
responded db none = (failed, db)
responded db (some (id, db')) = (success id, db')

-- The endpoint, after the data have been read. An exception rolls the transaction back.
pub post : Outside → User → Param → Db → Response × Db
unfolding register
post around user param db = elim param.name [
  | some (c ∷ s) ↦ elim param.version [
    | some (d ∷ t) ↦ responded db (register around user param (c ∷ s) (d ∷ t) db)
    | _ ↦ (bad_parameters, db)
  ]
  | _ ↦ (bad_parameters, db)
]
