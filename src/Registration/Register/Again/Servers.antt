-- ===== src/Registration/Register/Again/Servers.antt =====
-- What register_server leaves in the tables: the agent has a server that is there.
use dong_tai_server.Prelude.{
  ℕ, ◌≡◌, refl, sym, ap, subst, inl, inr, some, List, [], ◌∷◌, ◌++◌, map, filter, equal_self,
  Bool-cases, Option-cases, ◌==◌, number_comparison, nat_beq_iff,
}
use dong_tai_server.Prelude.Text.{Text}
use dong_tai_server.Registration.{User, AgentRow, ServerRow, Param, Outside}
use dong_tai_server.Registration.Tables.{Table, IsProper, put_row, put_row_ids}
use dong_tai_server.Registration.Tables.Found.{put_row_settled}
use dong_tai_server.Registration.Rows.{agent_id, is_agent, server_id_of, old_server, new_server}
use dong_tai_server.Registration.Register.{with_id, server_of, register_server}

module _ {A : Type 0} (id_of : A → ℕ) (i : ℕ) where
  with_id_append :
      (row : A) (rows : List A)
      → id_of row ≡ i
      → (s : A) × (with_id id_of i (rows ++ row ∷ []) ≡ some s)
  with_id_append row [] e = (row, rw (e, equal_self i) refl)
  with_id_append row (x ∷ rows) e = elim (Bool-cases (id_of x == i)) [
    | inl f ↦ (x, rw f refl)
    | inr f ↦ rw f (with_id_append row rows e)
  ]

  with_id-put_row :
      (row s : A) (rows : List A)
      → with_id id_of i rows ≡ some s
      → (s' : A) × (with_id id_of i (put_row id_of row rows) ≡ some s')
  with_id-put_row row s [] e = absurd (cc)
  with_id-put_row row s (x ∷ rows) e = elim (Bool-cases (id_of x == id_of row)) [
    | inl f ↦
        let same : id_of row ≡ id_of x = sym ((nat_beq_iff (id_of x) (id_of row)).0 f) in
        elim (Bool-cases (id_of x == i)) [
          | inl g ↦ (row, rw (f, same, g) refl)
          | inr g ↦ rw (f, same, g) (with_id-put_row row s rows (rw g at e))
        ]
    | inr f ↦ elim (Bool-cases (id_of x == i)) [
      | inl g ↦ (x, rw (f, g) refl)
      | inr g ↦ rw (f, g) (with_id-put_row row s rows (rw g at e))
    ]
  ]

server_of-put_row :
    (agent : AgentRow) (row s : ServerRow) (servers : Table ServerRow)
    → server_of agent servers ≡ some s
    → (s' : ServerRow) × (server_of agent
          (record servers { rows = put_row server_id_of row servers.rows })
        ≡ some s')
server_of-put_row agent row s servers there = elim (Option-cases agent.server_id) [
  | inl alone ↦ absurd (let clash = rw alone at there in cc)
  | inr (i, linked) ↦
      let found = rw linked at there in
      rw linked (with_id-put_row server_id_of i row s servers.rows found)
]

module _ (around : Outside) (param : Param) (env : Text) (env_list : List Text)
    (command : Text) where
  -- For an agent that has a server, the agents stay, and no server is added.
  pub register_server_kept :
      (agent : AgentRow) (agents : Table AgentRow) (servers : Table ServerRow) (s : ServerRow)
      → server_of agent servers ≡ some s
      → (servers' : Table ServerRow) × (register_server around param env env_list command agent
            agents servers
          ≡ (agents, servers'))
        × (map server_id_of servers'.rows ≡ map server_id_of servers.rows)
  unfolding register_server
  register_server_kept agent agents servers s there = (
    record servers {
      rows = put_row server_id_of (old_server around param env command s) servers.rows;
    },
    rw (there, register_server) refl,
    put_row_ids server_id_of _ servers.rows,
  )

  module _ (user : User) (token version : Text) (project project_version : ℕ) where
    pub register_server_linked :
        (agent : AgentRow) (agents agents' : Table AgentRow) (servers servers' : Table ServerRow)
        → IsProper agent_id agents
        → filter (is_agent user token version project project_version) agents.rows ≡ agent ∷ []
        → register_server around param env env_list command agent agents servers
          ≡ (agents', servers')
        → (a : AgentRow) × (s : ServerRow) × (filter
              (is_agent user token version project project_version)
              agents'.rows
            ≡ a ∷ [])
          × (a.id ≡ agent.id)
          × (server_of a servers' ≡ some s)
    unfolding register_server new_server old_server
    register_server_linked agent agents agents' servers servers' proper one e =
        elim (Option-cases (server_of agent servers)) [
          | inl alone ↦
              let run = rw (alone, register_server) at e in
              let row : AgentRow = record agent { server_id = some servers.next_id } in
              let new : ServerRow = new_server around param env env_list command servers.next_id in
              let (_, found) =
                put_row_settled agent_id (is_agent user token version project project_version)
                  agents agent row proper one refl refl in
              let (s, there) = with_id_append server_id_of servers.next_id new servers.rows refl in
              (
                row,
                s,
                subst
                    (λ t.
                      filter (is_agent user token version project project_version) t.rows
                      ≡ row ∷ [])
                    (ap (λ r. r.0) run) found,
                refl,
                subst (λ t. with_id server_id_of servers.next_id t.rows ≡ some s)
                    (ap (λ r. r.1) run) there,
              )
          | inr (s, there) ↦
              let run = rw (there, register_server) at e in
              let changed : ServerRow = old_server around param env command s in
              let (s', still) = server_of-put_row agent changed s servers there in
              (
                agent,
                s',
                subst
                    (λ t.
                      filter (is_agent user token version project project_version) t.rows
                      ≡ agent ∷ [])
                    (ap (λ r. r.0) run) one,
                refl,
                subst (λ t. server_of agent t ≡ some s') (ap (λ r. r.1) run) still,
              )
        ]
