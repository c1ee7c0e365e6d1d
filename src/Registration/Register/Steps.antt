-- ===== src/Registration/Register/Steps.antt =====
-- The transaction of a registration as its steps, one after the other.
use dong_tai_server.Prelude.{
  ℕ, ◌≡◌, refl, ◌∙◌, ap, Option, none, some, List, ◌∷◌, inl, inr, Option-cases, number_comparison,
  text_comparison,
}
use dong_tai_server.Prelude.Text.{Text}
use dong_tai_server.Registration.{
  User, Project, Version, AgentRow, Param, Outside, env_of, env_list_of, get_command,
  project_name_of,
}
use dong_tai_server.Registration.Tables.{Made, put_row}
use dong_tai_server.Registration.Visible.{is_project}
use dong_tai_server.Registration.Rows.{project_id, with_version}
use dong_tai_server.Registration.Register.{
  ◌>>=◌, Db, register_project, find_version, register_agent, register_server, register,
}

pub bind_inv :
    {A B : Type 0} (m : Option A) (f : A → Option B) (b : B)
    → (m >>= f) ≡ some b
    → (a : A) × (m ≡ some a) × (f a ≡ some b)
bind_inv none f b e = absurd (cc)
bind_inv (some a) f b e = (a, refl, e)

-- The body of the transaction, from each of its steps on
module _ (around : Outside) (user : User) (param : Param) (token version : Text) (db : Db) where
  module _ (env : Text) where
    abbrev pub envs : List Text
    envs = env_list_of param.server_env env

    abbrev pub command : Text
    command = get_command around.lower envs

    module _ (made : Made Project) where
      abbrev pub saved : Made Version → Project
      saved found = with_version found.row made.row

      abbrev pub after_agent : Made Version → Made AgentRow → Option (ℕ × Db)
      after_agent found agent =
          let (agents, servers) =
            register_server around param env envs command agent.row agent.table db.servers in
          some (
            agent.row.id,
            record {
              projects = record made.table {
                rows = put_row project_id (saved found) made.table.rows;
              };
              versions = found.table;
              agents = agents;
              servers = servers;
            },
          )

      abbrev pub after_version : Made Version → Option (ℕ × Db)
      after_version found =
          register_agent around user param token version (saved found).id found.row.id envs command
            db.agents
          >>= after_agent found

      abbrev pub after_project : Option (ℕ × Db)
      after_project = find_version around param made.row made.created db.versions >>= after_version

    abbrev pub after_env : Option (ℕ × Db)
    after_env =
        register_project around user param (project_name_of around param.project_name command)
          db.projects
        >>= after_project

  pub register_steps :
      register around user param token version db ≡ (env_of around param.server_env >>= after_env)
  unfolding register
  register_steps = refl

-- The steps of a registration that succeeds, put together
pub register_of_steps :
    (around : Outside) (user : User) (param : Param) (token version : Text) (db : Db) (env : Text)
    (made : Made Project) (found : Made Version) (agent : Made AgentRow)
    → env_of around param.server_env ≡ some env
    → register_project around user param
        (project_name_of around param.project_name (command around user param token version db env))
        db.projects
      ≡ some made
    → find_version around param made.row made.created db.versions ≡ some found
    → register_agent around user param token version
        (with_version found.row made.row).id
        found.row.id
        (envs around user param token version db env)
        (command around user param token version db env)
        db.agents
      ≡ some agent
    → register around user param token version db
      ≡ after_agent around user param token version db env made found agent
register_of_steps around user param token version db env made found agent e0 e1 e2 e3 =
    register_steps around user param token version db
    ∙ ap (λ o. o >>= after_env around user param token version db) e0
    ∙ ap (λ o. o >>= after_project around user param token version db env) e1
    ∙ ap (λ o. o >>= after_version around user param token version db env made) e2
    ∙ ap (λ o. o >>= after_agent around user param token version db env made found) e3

pub project_name_of_sent :
    (around : Outside) (sent : Option Text) (command : Text) (b : ℕ) (s : Text)
    → sent ≡ some (b ∷ s)
    → project_name_of around sent command ≡ b ∷ s
unfolding project_name_of
project_name_of_sent around sent command b s e = rw (e, project_name_of) refl

pub id-with_version : (v : Version) (p : Project) → (with_version v p).id ≡ p.id
unfolding with_version
id-with_version v p = elim (Option-cases p.current_version) [
  | inl e ↦ rw (e, with_version) refl
  | inr (i, e) ↦ rw (e, with_version) refl
]

pub is_project-with_version :
    (name : Text) (tenant : Option ℕ) (v : Version) (p : Project)
    → is_project name tenant (with_version v p) ≡ is_project name tenant p
unfolding with_version
is_project-with_version name tenant v p = elim (Option-cases p.current_version) [
  | inl e ↦ rw (e, with_version) refl
  | inr (i, e) ↦ rw (e, with_version) refl
]

pub departments-with_version :
    (v : Version) (p : Project) → (with_version v p).departments ≡ p.departments
unfolding with_version
departments-with_version v p = elim (Option-cases p.current_version) [
  | inl e ↦ rw (e, with_version) refl
  | inr (i, e) ↦ rw (e, with_version) refl
]
