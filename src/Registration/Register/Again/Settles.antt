-- ===== src/Registration/Register/Again/Settles.antt =====
-- What a registration of the admin of a tenant leaves in the tables: one row for each of its queries.
use dong_tai_server.Prelude.{
  ℕ, ◌≡◌, refl, sym, ◌∙◌, subst, some, [], ◌∷◌, filter, number_comparison, text_comparison,
}
use dong_tai_server.Prelude.Text.{Text}
use dong_tai_server.Registration.{
  User, Project, Version, AgentRow, ServerRow, Param, Outside, env_of, project_name_of,
}
use dong_tai_server.Registration.Tables.{Made, IsProper, put_row}
use dong_tai_server.Registration.Tables.Found.{put_row_settled}
use dong_tai_server.Registration.Visible.{is_project}
use dong_tai_server.Registration.Rows.{
  project_id, version_id, is_version, with_version, agent_id, is_agent,
}
use dong_tai_server.Registration.Register.{
  Db, register_project, find_version, register_agent, server_of, register_server, register,
}
use dong_tai_server.Registration.Register.Steps.{
  bind_inv, envs, command, saved, after_agent, after_version, after_project, after_env,
  register_steps, project_name_of_sent, id-with_version, is_project-with_version,
}
use dong_tai_server.Registration.Register.Again.Projects.{as_admin, register_project_found}
use dong_tai_server.Registration.Register.Again.Rest.{find_version_found, register_agent_found}
use dong_tai_server.Registration.Register.Again.Servers.{register_server_linked}

-- The only rows that the queries find: a project of the name in the tenant, its version, the agent with the id, and its server.
abbrev pub IsSettled : User → ℕ → Text → Text → Text → Text → ℕ → Db → Type 0
IsSettled user tenant token version name version_name id db =
    (p : Project) × (v : Version) × (a : AgentRow) × (s : ServerRow) × (filter
        (is_project name (some tenant)) db.projects.rows
      ≡ p ∷ [])
    × (filter (is_version version_name p.id) db.versions.rows ≡ v ∷ [])
    × (filter (is_agent user token version p.id v.id) db.agents.rows ≡ a ∷ [])
    × (server_of a db.servers ≡ some s)
    × (a.id ≡ id)

abbrev pub AreProper : Db → Type 0
AreProper db =
    IsProper project_id db.projects × IsProper version_id db.versions × IsProper agent_id db.agents

module _ (tenant : ℕ) (user : User) (token version : Text) (b c : ℕ) (s t : Text) where
  abbrev me : User
  me = as_admin tenant user

  module _ (around : Outside) (param : Param) (db : Db) (env : Text) where
    steps_settle :
        (made : Made Project) (found : Made Version) (agent : Made AgentRow) (db' : Db) (id : ℕ)
        → AreProper db
        → param.project_version ≡ some (c ∷ t)
        → register_project around me param (b ∷ s) db.projects ≡ some made
        → find_version around param made.row made.created db.versions ≡ some found
        → register_agent around me param token version
            (with_version found.row made.row).id
            found.row.id
            (envs around me param token version db env)
            (command around me param token version db env)
            db.agents
          ≡ some agent
        → after_agent around me param token version db env made found agent ≡ some (id, db')
        → IsSettled me tenant token version (b ∷ s) (c ∷ t) id db'
    steps_settle made found agent db' id (proper_p, proper_v, proper_a) versioned is_made is_found
          is_agent_ run =
        let p : Project = with_version found.row made.row in
        let (proper_p', one_p) =
          register_project_found tenant user around param (b ∷ s) db.projects made proper_p
            is_made in
        let (_, one_p') =
          put_row_settled project_id (is_project (b ∷ s) (some tenant)) made.table made.row p
            proper_p' one_p (id-with_version found.row made.row)
            (is_project-with_version (b ∷ s) (some tenant) found.row made.row) in
        let (_, one_v) =
          find_version_found around me param c t made.row made.created db.versions found versioned
            proper_v is_found in
        let (proper_a', one_a) =
          register_agent_found around me param token version p.id found.row.id _ _ db.agents agent
            proper_a is_agent_ in
        let envs' = envs around me param token version db env in
        let command' = command around me param token version db env in
        let linked =
          register_server around param env envs' command' agent.row agent.table db.servers in
        let (a, server, one_a', same_id, there) =
          register_server_linked around param env envs' command' me token version p.id found.row.id
            agent.row agent.table linked.0 db.servers linked.1 proper_a' one_a refl in
        let tables : Db = record {
          projects = record made.table { rows = put_row project_id p made.table.rows };
          versions = found.table;
          agents = linked.0;
          servers = linked.1;
        } in
        let made_of : ℕ × Db = (agent.row.id, tables) in
        let result : made_of ≡ (id, db') = cc in
        let one_v' =
          subst (λ i. filter (is_version (c ∷ t) i) found.table.rows ≡ found.row ∷ [])
            (sym (id-with_version found.row made.row)) one_v in
        subst (λ r. IsSettled me tenant token version (b ∷ s) (c ∷ t) r.0 r.1) result
          (p, found.row, a, server, one_p', one_v', one_a', there, same_id)

  pub register_settles :
      (around : Outside) (param : Param) (db db' : Db) (id : ℕ)
      → AreProper db
      → param.project_name ≡ some (b ∷ s)
      → param.project_version ≡ some (c ∷ t)
      → register around me param token version db ≡ some (id, db')
      → IsSettled me tenant token version (b ∷ s) (c ∷ t) id db'
  register_settles around param db db' id proper named versioned e =
      let (env, is_env, run) =
        bind_inv (env_of around param.server_env) (after_env around me param token version db)
          (id, db') (sym (register_steps around me param token version db) ∙ e) in
      let name =
        project_name_of around param.project_name (command around me param token version db env) in
      let (made, is_made, run1) =
        bind_inv (register_project around me param name db.projects)
          (after_project around me param token version db env) (id, db') run in
      let (found, is_found, run2) =
        bind_inv (find_version around param made.row made.created db.versions)
          (after_version around me param token version db env made) (id, db') run1 in
      let (agent, is_agent_, run3) =
        bind_inv
          (register_agent around me param token version
            (saved around me param token version db env made found).id found.row.id
            (envs around me param token version db env)
            (command around me param token version db env) db.agents)
          (after_agent around me param token version db env made found) (id, db') run2 in
      let is_made' =
        subst (λ n. register_project around me param n db.projects ≡ some made)
          (project_name_of_sent around param.project_name
            (command around me param token version db env) b s named)
          is_made in
      steps_settle around param db env made found agent db' id proper versioned is_made' is_found
        is_agent_ run3
