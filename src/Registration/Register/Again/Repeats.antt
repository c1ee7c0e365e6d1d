-- ===== src/Registration/Register/Again/Repeats.antt =====
-- A second registration for the same project, version and token, on the tables that the first has left.
use dong_tai_server.Prelude.{
  ℕ, ◌≡◌, refl, sym, ◌∙◌, ap, subst, Bool, false, some, List, [], ◌∷◌, map, filter,
  number_comparison, text_comparison,
}
use dong_tai_server.Prelude.Text.{Text}
use dong_tai_server.Registration.{
  User, Project, Version, AgentRow, ServerRow, Param, Outside, env_of,
}
use dong_tai_server.Registration.Tables.{Table, Made, put_row, put_row_ids}
use dong_tai_server.Registration.Tables.Found.{update_or_create_one}
use dong_tai_server.Registration.Visible.{level_tenant, is_project}
use dong_tai_server.Registration.Rows.{
  new_project, old_project, new_version, old_agent, project_id, version_id, is_version,
  with_version, port_of, agent_id, is_agent, server_id_of,
}
use dong_tai_server.Registration.Register.{
  Db, register_project, find_version, register_agent, server_of, register,
}
use dong_tai_server.Registration.Register.Again.Projects.{
  as_admin, register_project_admin, without_departments, store_project,
}
use dong_tai_server.Registration.Register.Again.Rest.{find_version_is, register_agent_is}
use dong_tai_server.Registration.Register.Again.Servers.{register_server_kept}
use dong_tai_server.Registration.Register.Again.Settles.{IsSettled, AreProper, register_settles}
use dong_tai_server.Registration.Register.Steps.{
  register_of_steps, envs, command, project_name_of_sent, id-with_version,
}

-- The rows of the tables are those of before, by their ids.
abbrev pub HasSameRows : Db → Db → Type 0
HasSameRows db db' =
    (map project_id db'.projects.rows ≡ map project_id db.projects.rows)
    × (map version_id db'.versions.rows ≡ map version_id db.versions.rows)
    × (map agent_id db'.agents.rows ≡ map agent_id db.agents.rows)
    × (map server_id_of db'.servers.rows ≡ map server_id_of db.servers.rows)

server_of_same :
    (agent a : AgentRow) (servers : Table ServerRow) (s : ServerRow)
    → agent.server_id ≡ a.server_id
    → server_of a servers ≡ some s
    → server_of agent servers ≡ some s
server_of_same agent a servers s same there = rw same there

module _ (tenant : ℕ) (user : User) (around : Outside) (param : Param) where
  abbrev me : User
  me = as_admin tenant user

  -- If the project is there, no project is added.
  register_project_again :
      (name : Text) (t : Table Project) (p : Project)
      → filter (is_project name (some tenant)) t.rows ≡ p ∷ []
      → (made : Made Project) × (register_project around me param name t ≡ some made)
        × (made.row.id ≡ p.id)
        × (map project_id made.table.rows ≡ map project_id t.rows)
  unfolding old_project
  register_project_again name t p one =
      let change = old_project around me param in
      let stored : Made Project = record {
        row = change p;
        created = false;
        table = record t { rows = put_row project_id (change p) t.rows };
      } in
      let is_stored : store_project tenant user around param name t ≡ some stored =
        rw one (
          update_or_create_one project_id _ (new_project around me param name tenant) change t p) in
      (
        without_departments tenant user around param stored,
        register_project_admin tenant user around param name t ∙ (rw is_stored refl),
        refl,
        put_row_ids project_id _ _ ∙ put_row_ids project_id _ t.rows,
      )

  find_version_again :
      (c : ℕ) (s : Text) (project : Project) (created : Bool) (t : Table Version) (v : Version)
      → param.project_version ≡ some (c ∷ s)
      → filter (is_version (c ∷ s) project.id) t.rows ≡ v ∷ []
      → (made : Made Version) × (find_version around param project created t ≡ some made)
        × (made.row ≡ v)
        × (map version_id made.table.rows ≡ map version_id t.rows)
  find_version_again c s project created t v sent one = (
    record { row = v; created = false; table = record t { rows = put_row version_id v t.rows } },
    find_version_is around me param c s project created t sent
        ∙ (rw one
            (update_or_create_one version_id false (new_version (c ∷ s) project.id) (λ w. w) t v)),
    refl,
    put_row_ids version_id v t.rows,
  )

  register_agent_again :
      (token version : Text) (project project_version : ℕ) (env_list : List Text) (command : Text)
      (t : Table AgentRow) (a : AgentRow) (port : ℕ)
      → port_of param.server_port ≡ some port
      → filter (is_agent me token version project project_version) t.rows ≡ a ∷ []
      → (made : Made AgentRow) × (register_agent around me param token version project
            project_version env_list command t
          ≡ some made)
        × (made.row.id ≡ a.id)
        × (made.row.server_id ≡ a.server_id)
        × (map agent_id made.table.rows ≡ map agent_id t.rows)
  unfolding old_agent
  register_agent_again token version project project_version env_list command t a port is_port one =
      let change = old_agent around param env_list command port in
      (
        record {
          row = change a;
          created = false;
          table = record t { rows = put_row agent_id (change a) t.rows };
        },
        register_agent_is around me param token version project project_version env_list command t
            ∙ (rw (is_port, one) (update_or_create_one agent_id false _ change t a)),
        refl,
        refl,
        put_row_ids agent_id (change a) t.rows,
      )

  -- On settled tables, a registration succeeds with the same agent, and adds no row.
  register_settled :
      (token version : Text) (b c : ℕ) (s t : Text) (db : Db) (id : ℕ) (env : Text) (port : ℕ)
      → IsSettled me tenant token version (b ∷ s) (c ∷ t) id db
      → param.project_name ≡ some (b ∷ s)
      → param.project_version ≡ some (c ∷ t)
      → env_of around param.server_env ≡ some env
      → port_of param.server_port ≡ some port
      → (db' : Db) × (register around me param token version db ≡ some (id, db'))
        × HasSameRows db db'
  register_settled token version b c s t db id env port
        (p, v, a, server, one_p, one_v, one_a, there, same_id) named versioned is_env is_port =
      let command' = command around me param token version db env in
      let env_list = envs around me param token version db env in
      let name = project_name_of_sent around param.project_name command' b s named in
      let (made, is_made, id_p, ids_p) = register_project_again (b ∷ s) db.projects p one_p in
      let is_made' =
        subst (λ n. register_project around me param n db.projects ≡ some made) (sym name)
          is_made in
      let one_v' =
        subst (λ i. filter (is_version (c ∷ t) i) db.versions.rows ≡ v ∷ []) (sym id_p) one_v in
      let (found, is_found, is_v, ids_v) =
        find_version_again c t made.row made.created db.versions v versioned one_v' in
      let id_p' : (with_version found.row made.row).id ≡ p.id =
        id-with_version found.row made.row ∙ id_p in
      let one_a' =
        subst (λ i. filter (is_agent me token version i found.row.id) db.agents.rows ≡ a ∷ [])
          (sym id_p')
          (subst (λ w. filter (is_agent me token version p.id w.id) db.agents.rows ≡ a ∷ [])
            (sym is_v) one_a) in
      let (agent, is_agent_, id_a, linked, ids_a) =
        register_agent_again token version (with_version found.row made.row).id found.row.id
          env_list command' db.agents a port is_port one_a' in
      let there' = server_of_same agent.row a db.servers server linked there in
      let (servers, is_server, ids_s) =
        register_server_kept around param env env_list command' agent.row agent.table db.servers
          server there' in
      let db' : Db = record {
        projects = record made.table {
          rows = put_row project_id (with_version found.row made.row) made.table.rows;
        };
        versions = found.table;
        agents = agent.table;
        servers = servers;
      } in
      (
        db',
        register_of_steps around me param token version db env made found agent is_env is_made'
              is_found is_agent_
            ∙ ap (λ r. some (agent.row.id, record db' { agents = r.0; servers = r.1 })) is_server
            ∙ ap (λ i. some (i, db')) (id_a ∙ same_id),
        (put_row_ids project_id _ made.table.rows ∙ ids_p, ids_v, ids_a, ids_s),
      )

pub register_again :
    (around around' : Outside) (user : User) (param param' : Param) (token version : Text) (b c : ℕ)
    (s t : Text) (tenant : ℕ) (db db1 : Db) (id : ℕ) (env : Text) (port : ℕ)
    → user.level ≡ level_tenant
    → user.tenant ≡ some tenant
    → AreProper db
    → param.project_name ≡ some (b ∷ s)
    → param.project_version ≡ some (c ∷ t)
    → param'.project_name ≡ some (b ∷ s)
    → param'.project_version ≡ some (c ∷ t)
    → env_of around' param'.server_env ≡ some env
    → port_of param'.server_port ≡ some port
    → register around user param token version db ≡ some (id, db1)
    → (db2 : Db) × (register around' user param' token version db1 ≡ some (id, db2))
      × HasSameRows db1 db2
register_again around around' user param param' token version b c s t tenant db db1 id env port
      admin has proper n v n' v' is_env is_port first =
    let is_me : user ≡ as_admin tenant user =
      λ i. record user { level = admin i; tenant = has i } in
    let settled =
      register_settles tenant user token version b c s t around param db db1 id proper n v
        (subst (λ u. register around u param token version db ≡ some (id, db1)) is_me first) in
    subst
      (λ u.
        (db2 : Db) × (register around' u param' token version db1 ≡ some (id, db2))
        × HasSameRows db1 db2)
      (sym is_me)
      (register_settled tenant user around' param' token version b c s t db1 id env port settled n'
        v' is_env is_port)
