-- ===== src/Registration/Register/Again/Rest.antt =====
-- What the steps after register_project leave in the tables of versions, agents and servers.
use dong_tai_server.Prelude.{
  ℕ, ◌≡◌, refl, sym, ◌∙◌, Bool, true, false, Option, some, List, [], ◌∷◌, filter, equal_self,
  number_comparison, text_comparison,
}
use dong_tai_server.Prelude.Text.{Text}
use dong_tai_server.Registration.{User, Project, Version, AgentRow, Param, Outside}
use dong_tai_server.Registration.Tables.{Table, Made, IsProper, update_or_create}
use dong_tai_server.Registration.Tables.Found.{update_or_create_found}
use dong_tai_server.Registration.Rows.{
  version_id, is_version, new_version, port_of, agent_id, is_agent, old_agent, new_agent,
}
use dong_tai_server.Registration.Register.{◌>>=◌, by_name, find_version, register_agent}
use dong_tai_server.Registration.Register.Steps.{bind_inv}

module _ (around : Outside) (user : User) (param : Param) where
  pub find_version_is :
      (c : ℕ) (s : Text) (project : Project) (created : Bool) (t : Table Version)
      → param.project_version ≡ some (c ∷ s)
      → find_version around param project created t ≡ by_name (c ∷ s) project t
  unfolding find_version
  find_version_is c s project true t sent = rw sent refl
  find_version_is c s project false t sent = rw sent refl

  pub find_version_found :
      (c : ℕ) (s : Text) (project : Project) (created : Bool) (t : Table Version)
      (made : Made Version)
      → param.project_version ≡ some (c ∷ s)
      → IsProper version_id t
      → find_version around param project created t ≡ some made
      → IsProper version_id made.table
        × (filter (is_version (c ∷ s) project.id) made.table.rows ≡ made.row ∷ [])
  unfolding new_version
  find_version_found c s project created t made sent proper e =
      update_or_create_found version_id (is_version (c ∷ s) project.id)
        (new_version (c ∷ s) project.id) (λ v. v) (λ i. refl)
        (λ i. rw (equal_self (c ∷ s), equal_self project.id) refl) (λ v. refl) (λ v h. h) false t
        made proper (sym (find_version_is c s project created t sent) ∙ e)

  module _ (token version : Text) (project project_version : ℕ) (env_list : List Text)
      (command : Text) where
    abbrev store_agent : ℕ → Table AgentRow → Option (Made AgentRow)
    store_agent port t =
        update_or_create agent_id
          (filter (is_agent user token version project project_version) t.rows) false
          (new_agent around user param token version project project_version env_list command port)
          (old_agent around param env_list command port) t

    pub register_agent_is :
        (t : Table AgentRow)
        → register_agent around user param token version project project_version env_list command t
          ≡ (port_of param.server_port >>= λ port. store_agent port t)
    unfolding register_agent
    register_agent_is t = refl

    pub register_agent_found :
        (t : Table AgentRow) (made : Made AgentRow)
        → IsProper agent_id t
        → register_agent around user param token version project project_version env_list command t
          ≡ some made
        → IsProper agent_id made.table
          × (filter (is_agent user token version project project_version) made.table.rows
              ≡ made.row ∷ [])
    unfolding new_agent old_agent
    register_agent_found t made proper e =
        let run : (port_of param.server_port >>= λ port. store_agent port t) ≡ some made =
          sym (register_agent_is t) ∙ e in
        let (port, _, stored) =
          bind_inv (port_of param.server_port) (λ port. store_agent port t) made run in
        update_or_create_found agent_id (is_agent user token version project project_version)
          (new_agent around user param token version project project_version env_list command port)
          (old_agent around param env_list command port) (λ i. refl)
          (λ i.
            rw
              (
                equal_self token,
                equal_self project,
                equal_self project_version,
                equal_self version,
                equal_self user.id,
              )
              refl)
          (λ a. refl) (λ a h. h) false t made proper stored
