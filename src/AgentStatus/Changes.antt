-- ===== src/AgentStatus/Changes.antt =====
-- What each change of the agents' table does to each row.
use dong_tai_server.Prelude.{
  ℕ, zero, suc, ◌≡◌, refl, inl, inr, Bool, false, not, ◌&&◌, Option, none, some, List, [], ◌∷◌, ◌∈◌,
  map, filter, mem-filter, contains, contains_iff, arith, Bool-cases, if◌then◌else◌, ◌==◌,
  number_comparison, ap, All, All-of,
}
use dong_tai_server.AgentStatus.{
  Agent, CoreReport, running, paused, offline, update_status, report_core, revive,
  update_agent_status, is_number,
}

-- Row by row, `after` is `before` with the status that `next` gives.
abbrev pub Becomes : (Agent → ℕ) → List Agent → List Agent → Type 0
Becomes next [] [] = Unit
Becomes next [] (b ∷ bs) = ⊥
Becomes next (a ∷ as_) [] = ⊥
Becomes next (a ∷ as_) (b ∷ bs) = (b ≡ record a { actual_status = next a }) × Becomes next as_ bs

update_status-Becomes :
    (test : Agent → Bool) (status : ℕ) (next : Agent → ℕ) (agents : List Agent)
    → All (λ a. next a ≡ (if test a then status else a.actual_status)) agents
    → Becomes next agents (update_status test status agents)
unfolding update_status
update_status-Becomes test status next [] h = tt
update_status-Becomes test status next (a ∷ agents) (e, hs) = elim (Bool-cases (test a)) [
  | inl hit ↦
      let to = rw hit at e in
      (ground (arith, to, hit), update_status-Becomes test status next agents hs)
  | inr miss ↦
      let to = rw miss at e in
      (ground (arith, to, miss), update_status-Becomes test status next agents hs)
]

contains-false : (xs : List ℕ) (a : ℕ) → ¬ (a ∈ xs) → contains xs a ≡ false
contains-false xs a h = elim (Bool-cases (contains xs a)) [
  | inl e ↦ absurd (h ((contains_iff xs a).0 e))
  | inr e ↦ e
]

mem-ids : (a : Agent) (agents : List Agent) → a ∈ agents → a.id ∈ map (λ b. b.id) agents
mem-ids a [] m = absurd m
mem-ids a (b ∷ agents) (inl e) = inl (ap (λ (x : Agent). x.id) e)
mem-ids a (b ∷ agents) (inr m) = inr (mem-ids a agents m)

module _ (alive : List ℕ) where
  abbrev pub after_check : Agent → ℕ
  after_check a = if contains alive a.id then a.actual_status else offline

  abbrev stopped : List Agent → List ℕ
  stopped agents =
      filter (λ i. not (contains alive i))
        (map (λ a. a.id) (filter (λ a. not (a.actual_status == offline)) agents))

  stops :
      (agents : List Agent) (a : Agent)
      → a ∈ agents
      → after_check a ≡ (if contains (stopped agents) a.id then offline else a.actual_status)
  stops agents a m =
      let silent = λ (i : ℕ). not (contains alive i) in
      let online = λ (x : Agent). not (x.actual_status == offline) in
      let ids = map (λ (x : Agent). x.id) (filter online agents) in
      elim (Bool-cases (contains alive a.id)) [
        | inl e ↦
            let none_stops =
              contains-false (stopped agents) a.id
                (λ k. let out = ((mem-filter silent a.id ids).0 k).1 in cc (out, e)) in
            rw (e, none_stops) refl
        | inr e ↦ elim (Bool-cases (a.actual_status == offline)) [
          | inl off ↦ let same : a.actual_status ≡ offline = ground arith in ground arith
          | inr on ↦
              let there =
                mem-ids a (filter online agents) ((mem-filter online a agents).1 (m, rw on)) in
              let hit =
                (contains_iff (stopped agents) a.id).1
                  ((mem-filter silent a.id ids).1 (there, rw e)) in
              rw (e, hit) refl
        ]
      ]

  -- The periodic check sets to offline exactly those agents that have no heartbeat in the cache,
  -- and leaves every other agent and every other column alone.
  pub update_agent_status_exact :
      (agents : List Agent) → Becomes after_check agents (update_agent_status alive agents)
  unfolding update_agent_status
  update_agent_status_exact agents =
      update_status-Becomes (λ a. contains (stopped agents) a.id) offline after_check agents
        (All-of _ agents (stops agents))

-- The status that a heartbeat of the agent `agent_id` gives to an agent.
abbrev pub after_heartbeat : ℕ → Agent → ℕ
after_heartbeat agent_id a =
    if a.id == agent_id
    then (if a.actual_status == offline then running else a.actual_status)
    else a.actual_status

-- A heartbeat sets its own agent to running if that was offline; a paused or running agent stays as
-- it is, and so does every other agent.
pub revive_exact :
    (agent_id : ℕ) (agents : List Agent)
    → Becomes (after_heartbeat agent_id) agents (revive agent_id agents)
unfolding revive
revive_exact agent_id agents =
    update_status-Becomes _ running (after_heartbeat agent_id) agents
      (All-of _ agents (λ a m. ground arith))

-- The status that a report on the core gives to an agent.
abbrev pub after_report : ℕ → CoreReport → Agent → ℕ
after_report user r a = elim r.is_core_installed [
  | none ↦ elim r.is_core_running [
    | none ↦ a.actual_status
    | some flag ↦ own (if flag == 1 then running else paused)
  ]
  | some zero ↦ own paused
  | some (suc n) ↦ own (if is_number r.is_core_running 1 then running else paused)
]
  where
    own : ℕ → ℕ
    own status = if a.user_id == user && a.id == r.agent_id then status else a.actual_status

Becomes-refl :
    (next : Agent → ℕ) (agents : List Agent)
    → All (λ a. next a ≡ a.actual_status) agents
    → Becomes next agents agents
Becomes-refl next [] h = tt
Becomes-refl next (a ∷ agents) (e, hs) = (rw e refl, Becomes-refl next agents hs)

core_cases :
    (user id : ℕ) (installed runs : Option ℕ) (agents : List Agent)
    → (let r : CoreReport = record {
      is_core_installed = installed;
      is_core_running = runs;
      agent_id = id;
    } in
        Becomes (after_report user r) agents (report_core user r agents))
unfolding report_core
core_cases user id none none agents = Becomes-refl _ agents (All-of _ agents (λ a m. refl))
core_cases user id none (some flag) agents = elim (Bool-cases (flag == 1)) [
  | inl e ↦ rw e (update_status-Becomes _ running _ agents (All-of _ agents (λ a m. ground arith)))
  | inr e ↦ rw e (update_status-Becomes _ paused _ agents (All-of _ agents (λ a m. ground arith)))
]
core_cases user id (some zero) runs agents =
    update_status-Becomes _ paused _ agents (All-of _ agents (λ a m. ground arith))
core_cases user id (some (suc n)) runs agents =
    let here : (suc n == 0) ≡ false = ground arith in
    rw here (elim (Bool-cases (is_number runs 1)) [
      | inl e ↦
          rw e (update_status-Becomes _ running _ agents (All-of _ agents (λ a m. ground arith)))
      | inr e ↦
          rw e (update_status-Becomes _ paused _ agents (All-of _ agents (λ a m. ground arith)))
    ])

-- A report on the core changes at most the status of the reporting user's agent with that id:
-- nothing if it names neither flag, running if the core is not said to be uninstalled and is said to
-- run, and paused in every other case.
pub report_core_exact :
    (user : ℕ) (r : CoreReport) (agents : List Agent)
    → Becomes (after_report user r) agents (report_core user r agents)
report_core_exact user r agents =
    core_cases user r.agent_id r.is_core_installed r.is_core_running agents
