-- ===== src/Heartbeat/Delivery.antt =====
-- What a poll for replay requests hands out, and what it makes of each row of the queue.
use dong_tai_server.Prelude.{
  ℕ, zero, suc, ◌≤◌, ◌⊎◌, ◌≡◌, refl, sym, inl, inr, Bool, true, false, not, ◌&&◌, ◌||◌, Option,
  none, some, List, [], ◌∷◌, ◌∈◌, map, filter, mem-filter, mem-take, contains, length, take, arith,
  Bool-cases, if◌then◌else◌, ◌==◌, number_comparison, All, All-of, text_beq_iff, length-filter-le,
  contains_iff,
}
use dong_tai_server.Prelude.Sorting.{sort_down_by, mem-arrange, down}
use dong_tai_server.AgentStatus.{Agent, Server, is_number, is_none}
use dong_tai_server.Heartbeat.{
  Replay, Issued, Detail, waiting, solving, solved, has_uri, ids, update_rows, issue,
  replay_queryset, project_agents, get_result,
}

-- The next state of a row that is handed out: a first hand-out leaves it open for one more.
abbrev pub advanced : ℕ → Replay → Replay
advanced now r =
    if r.state == waiting
    then record r { update_time = now; state = solving }
    else if r.state == solving
    then record r { update_time = now; state = solved }
    else r

-- What a poll at the time `now` that selected the rows `selected` makes of a row.
abbrev pub after_poll : ℕ → List Replay → Replay → Replay
after_poll now selected r =
    if contains (ids (filter (λ s. not (has_uri s)) selected)) r.id
    then record r { update_time = now; state = solved }
    else if contains (ids (filter has_uri selected)) r.id
    then advanced now r
    else r

row_lem :
    (now : ℕ) (wins fails : List ℕ) (r : Replay)
    → (let one =
          if contains wins r.id && r.state == solving
          then record r { update_time = now; state = solved }
          else r in
        let two =
          if contains wins one.id && one.state == waiting
          then record one { update_time = now; state = solving }
          else one in
        (if contains fails two.id then record two { update_time = now; state = solved } else two)
        ≡ (if contains fails r.id
            then record r { update_time = now; state = solved }
            else if contains wins r.id
            then advanced now r
            else r))
row_lem now wins fails r = ground arith

rows_lem :
    (now : ℕ) (wins fails : List ℕ) (table : List Replay)
    → update_rows
        (λ r. contains fails r.id)
        now
        solved
        (update_rows
          (λ r. contains wins r.id && r.state == waiting)
          now
          solving
          (update_rows (λ r. contains wins r.id && r.state == solving) now solved table))
      ≡ map
          (λ r.
            if contains fails r.id
            then record r { update_time = now; state = solved }
            else if contains wins r.id
            then advanced now r
            else r)
          table
unfolding update_rows
rows_lem now wins fails [] = refl
rows_lem now wins fails (r ∷ table) =
    rw (row_lem now wins fails r, rows_lem now wins fails table) refl

-- A poll hands out the selected rows with a uri, in their order, and makes of each row of the table
-- what `after_poll` says: a row without a uri is solved at once, a waiting row is being solved, a
-- row that was being solved is solved, and a row that was not selected stays as it is.
pub issue_exact :
    (now : ℕ) (selected table : List Replay)
    → ((issue now selected table).requests ≡ filter has_uri selected)
      × ((issue now selected table).table ≡ map (after_poll now selected) table)
unfolding issue
issue_exact now selected table = (
  refl,
  rows_lem now (ids (filter has_uri selected)) (ids (filter (λ s. not (has_uri s)) selected)) table,
)

-- A row of the queue that may be handed out to `agent`: it is in the table, it has a uri, it is open,
-- and it belongs to an agent of the same language.
abbrev pub Deliverable : Agent → List Agent → List Replay → Replay → Type 0
Deliverable agent agents table r =
    (r ∈ table)
    × (has_uri r ≡ true)
    × ((r.state ≡ waiting) ⊎ (r.state ≡ solving))
    × ((a : Agent) × (a ∈ agents) × (a.id ≡ r.agent_id) × (a.language ≡ agent.language))

length-take-le : {A : Type 0} (n : ℕ) (xs : List A) → length (take n xs) ≤ n
length-take-le zero xs = omega arith
length-take-le (suc n) [] = omega arith
length-take-le (suc n) (x ∷ xs) = omega (arith, length-take-le n xs)

of_mem-ids :
    (i : ℕ) (agents : List Agent)
    → i ∈ map (λ a. a.id) agents
    → (a : Agent) × (a ∈ agents) × (a.id ≡ i)
of_mem-ids i [] m = absurd m
of_mem-ids i (a ∷ agents) (inl e) = (a, inl refl, sym e)
of_mem-ids i (a ∷ agents) (inr m) = let (b, there, e) = of_mem-ids i agents m in (b, inr there, e)

and-left : (a b : Bool) → (a && b) ≡ true → a ≡ true
and-left true b h = refl
and-left false b h = h

mem-project_agents :
    (agent : Agent) (server : Server) (agents : List Agent) (i : ℕ)
    → i ∈ project_agents agent server agents
    → (a : Agent) × (a ∈ agents) × (a.id ≡ i) × (a.language ≡ agent.language)
unfolding project_agents
mem-project_agents agent server agents i m =
    let (a, there, e) = of_mem-ids i _ m in
    let (known, test) = (mem-filter _ a agents).0 there in
    (a, known, e, (text_beq_iff a.language agent.language).0 (and-left _ _ test))

abbrev open_row : List ℕ → Replay → Bool
open_row theirs r = contains theirs r.agent_id && (r.state == waiting || r.state == solving)

abbrev queue : List Replay → List Replay
queue table = sort_down_by (λ r. r.replay_type) table

requests_lem :
    (agent : Agent) (server : Server) (agents : List Agent) (table : List Replay) (r : Replay)
    → r ∈ filter has_uri (replay_queryset (project_agents agent server agents) table)
    → Deliverable agent agents table r
unfolding replay_queryset
requests_lem agent server agents table r m =
    let theirs = project_agents agent server agents in
    let found = filter (open_row theirs) (queue table) in
    let (chosen, uri) = (mem-filter has_uri r (take 200 found)).0 m in
    let (sorted, test) =
      (mem-filter (open_row theirs) r (queue table)).0 (mem-take 200 r found chosen) in
    let there = (mem-arrange (down (λ (x : Replay). x.replay_type)) r table).0 sorted in
    let here =
      and-left (contains theirs r.agent_id) (r.state == waiting || r.state == solving) test in
    let open_ : (r.state ≡ waiting) ⊎ (r.state ≡ solving) = ground (arith, test) in
    (
      there,
      uri,
      open_,
      mem-project_agents agent server agents r.agent_id ((contains_iff theirs r.agent_id).0 here),
    )

-- What is claimed of an answer to a poll.
abbrev pub Delivers : Agent → List Agent → List Replay → Issued → Type 0
Delivers agent agents table out =
    (length out.requests ≤ 200) × All (Deliverable agent agents table) out.requests

issued_lem :
    (now : ℕ) (agent : Agent) (server : Server) (agents : List Agent) (table : List Replay)
    → Delivers agent agents table
        (issue now (replay_queryset (project_agents agent server agents) table) table)
unfolding issue replay_queryset
issued_lem now agent server agents table =
    let theirs = project_agents agent server agents in
    let found = filter (open_row theirs) (queue table) in
    let few : length (filter has_uri (take 200 found)) ≤ length (take 200 found) =
      length-filter-le has_uri (take 200 found) in
    let most : length (take 200 found) ≤ 200 = length-take-le 200 found in
    (
      omega arith,
      All-of _ (filter has_uri (take 200 found)) (requests_lem agent server agents table),
    )

-- Whatever the report, the agents and the queue: a poll hands out at most 200 rows, and each of them
-- is in the queue, has a uri, is waiting or being solved, and belongs to an agent of the language of
-- the polling one.
pub get_result-Delivers :
    (now : ℕ) (d : Detail) (recheck : Bool) (agent : Agent) (agents : List Agent)
    (table : List Replay)
    → Delivers agent agents table (get_result now d recheck agent agents table)
unfolding get_result
get_result-Delivers now d recheck agent agents table =
    elim (Bool-cases ((is_none d.return_queue || is_number d.return_queue 1) && recheck)) [
      | inr e ↦ rw e (omega arith, tt)
      | inl e ↦ rw e (server_cases agent.server)
    ]
  where
    server_cases :
        (o : Option Server)
        → Delivers agent agents table (elim o [
          | none ↦ record { requests = []; logged = []; table = table }
          | some server ↦
              issue now (replay_queryset (project_agents agent server agents) table) table
        ])
    server_cases none = (omega arith, tt)
    server_cases (some server) = issued_lem now agent server agents table
