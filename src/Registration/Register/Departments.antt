-- ===== src/Registration/Register/Departments.antt =====
-- Two registrations of a user of two or more departments for one project.
mod Joined
use dong_tai_server.Prelude.{
  ℕ, ◌≤◌, ◌≡◌, ◌≢◌, refl, sym, ◌∙◌, ap, subst, ◌⊎◌, inl, inr, Bool, true, Option, none, some, List,
  [], ◌∷◌, ◌∈◌, length, Option-cases,
}
use dong_tai_server.Prelude.Text.{Text}
use dong_tai_server.Registration.{User, Project, Version, Param, Outside, env_of, project_name_of}
use dong_tai_server.Registration.Tables.{Table, Made, put_row}
use dong_tai_server.Registration.Tables.Found.{mem-put_row}
use dong_tai_server.Registration.Visible.{level_tenant, level_super, is_project}
use dong_tai_server.Registration.Rows.{project_id, with_version}
use dong_tai_server.Registration.Register.{
  ◌>>=◌, Db, register_project, find_version, register_agent, register, Response, success, failed,
  responded, post,
}
use dong_tai_server.Registration.Register.Steps.{
  bind_inv, envs, command, saved, after_agent, after_version, after_project, after_env,
  register_steps, project_name_of_sent, id-with_version, is_project-with_version,
  departments-with_version,
}
use dong_tai_server.Registration.Register.Endpoint.{post_inv, post_sent}
use dong_tai_server.Registration.Register.Departments.Joined.{
  IsNormal, IsShared, register_project-IsShared, register_project_many,
}

module _ (user : User) (normal : IsNormal user) (b : ℕ) (s : Text) where
  abbrev HasShared : Db → Type 0
  HasShared db =
      (p : Project) × (p ∈ db.projects.rows)
      × (is_project (b ∷ s) user.tenant p ≡ true)
      × (p.departments ≡ user.departments)

  register-HasShared :
      (around : Outside) (param : Param) (token version : Text) (db db' : Db) (id : ℕ)
      → param.project_name ≡ some (b ∷ s)
      → register around user param token version db ≡ some (id, db')
      → HasShared db'
  register-HasShared around param token version db db' id named e =
      let (env, is_env, run) =
        bind_inv (env_of around param.server_env) (after_env around user param token version db)
          (id, db') (sym (register_steps around user param token version db) ∙ e) in
      let name =
        project_name_of around param.project_name
          (command around user param token version db env) in
      let (made, is_made, run1) =
        bind_inv (register_project around user param name db.projects)
          (after_project around user param token version db env) (id, db') run in
      let (found, is_found, run2) =
        bind_inv (find_version around param made.row made.created db.versions)
          (after_version around user param token version db env made) (id, db') run1 in
      let (agent, is_agent_, run3) =
        bind_inv
          (register_agent around user param token version
            (saved around user param token version db env made found).id found.row.id
            (envs around user param token version db env)
            (command around user param token version db env) db.agents)
          (after_agent around user param token version db env made found) (id, db') run2 in
      let is_made' =
        subst (λ n. register_project around user param n db.projects ≡ some made)
          (project_name_of_sent around param.project_name
            (command around user param token version db env) b s named)
          is_made in
      let (m, named', of) =
        register_project-IsShared user normal around param (b ∷ s) db.projects made is_made' in
      let p : Project = with_version found.row made.row in
      let rows = put_row project_id p made.table.rows in
      let result = ap (λ o. elim o [ none ↦ rows | some r ↦ r.1.projects.rows ]) run3 in
      (
        p,
        subst (λ ps. p ∈ ps) result
            (mem-put_row project_id made.row p made.table.rows m
              (id-with_version found.row made.row)),
        is_project-with_version (b ∷ s) user.tenant found.row made.row ∙ named',
        departments-with_version found.row made.row ∙ of,
      )

  shared_fails :
      (around : Outside) (param : Param) (token version : Text) (db : Db)
      → 2 ≤ length user.departments
      → HasShared db
      → param.project_name ≡ some (b ∷ s)
      → register around user param token version db ≡ none
  shared_fails around param token version db many (p, m, found, of) named =
      elim (Option-cases (env_of around param.server_env)) [
        | inl bad ↦
            register_steps around user param token version db
            ∙ ap (λ o. o >>= after_env around user param token version db) bad
        | inr (env, is_env) ↦
            let command' = command around user param token version db env in
            let none_made =
              subst (λ n. register_project around user param n db.projects ≡ none)
                (sym (project_name_of_sent around param.project_name command' b s named))
                (register_project_many user normal around param (b ∷ s) db.projects p many
                  (m, found, of)) in
            register_steps around user param token version db
            ∙ ap (λ o. o >>= after_env around user param token version db) is_env
            ∙ ap (λ o. o >>= after_project around user param token version db env) none_made
      ]

-- A user that is neither the admin of a tenant nor a system admin and has two or more departments registers
-- with a project name that is not empty, and succeeds. Then its next registration with the same project name,
-- token and agent version fails, whatever else it sends, and the tables stay.
pub post_twice_fails :
    (around around' : Outside) (user : User) (param param' : Param) (b : ℕ) (s : Text) (db db1 : Db)
    (id : ℕ)
    → user.level ≢ level_tenant
    → user.level ≢ level_super
    → 2 ≤ length user.departments
    → param.project_name ≡ some (b ∷ s)
    → param'.project_name ≡ some (b ∷ s)
    → param'.name ≡ param.name
    → param'.version ≡ param.version
    → post around user param db ≡ (success id, db1)
    → post around' user param' db1 ≡ (failed, db1)
post_twice_fails around around' user param param' b s db db1 id no_tenant no_super many n n'
      same_token same_version first =
    let (x, token, y, version, is_token, is_version_, run) =
      post_inv around user param db db1 id first in
    let shared =
      register-HasShared user (no_tenant, no_super) b s around param (x ∷ token) (y ∷ version) db
        db1 id n run in
    post_sent around' user param' db1 x y token version (same_token ∙ is_token)
      (same_version ∙ is_version_)
    ∙ ap (responded db1) (
        shared_fails user (no_tenant, no_super) b s around' param' (x ∷ token) (y ∷ version) db1
          many shared n')
