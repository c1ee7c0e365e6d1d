-- ===== src/AgentConfig/Scan.antt =====
-- Which configuration the scan of an agent finds.
use dong_tai_server.Prelude.{
  ℕ, ◌≡◌, ◌⊎◌, refl, ◌∙◌, inl, inr, Bool, true, false, ◌&&◌, Option, some, List, [], ◌∷◌, All, Any,
  Bool-cases, filter, ◌==◌, number_comparison,
}
use dong_tai_server.Prelude.Sorting.{InOrder, up, sort_by-InOrder}
use dong_tai_server.AgentConfig.{
  Details, Target, Config, Result, ok, err, target_holds, all_hold, targets_of_config, candidates,
  scan, get_agent_config_by_scan,
}

-- The test on a target is true, or false.
abbrev pub Holds : Details → Target → Type 0
Holds d t = target_holds d t ≡ some true

abbrev pub Fails : Details → Target → Type 0
Fails d t = target_holds d t ≡ some false

-- Every target has a known type and operator, and `in` is used on texts alone.
abbrev pub AreTestable : Details → List Target → Type 0
AreTestable d ts = All (λ t. (b : Bool) × (target_holds d t ≡ some b)) ts

-- All targets of the configuration hold for the agent, or one of them fails.
abbrev pub Matches : Details → List Target → Config → Type 0
Matches d targets c = All (Holds d) (targets_of_config targets c.id)

abbrev pub Misses : Details → List Target → Config → Type 0
Misses d targets c = Any (Fails d) (targets_of_config targets c.id)

all_hold-cases :
    (d : Details) (ts : List Target)
    → AreTestable d ts
    → ((all_hold d ts ≡ some true) × All (Holds d) ts)
      ⊎ ((all_hold d ts ≡ some false) × Any (Fails d) ts)
unfolding all_hold
all_hold-cases d [] h = inl (refl, tt)
all_hold-cases d (t ∷ ts) ((true, e), hs) = elim (all_hold-cases d ts hs) [
  | inl (f, every) ↦ inl (rw (e, f) refl, (e, every))
  | inr (f, one) ↦ inr (rw (e, f) refl, inr one)
]
all_hold-cases d (t ∷ ts) ((false, e), hs) = elim (all_hold-cases d ts hs) [
  | inl (f, every) ↦ inr (rw (e, f) refl, inl e)
  | inr (f, one) ↦ inr (rw (e, f) refl, inl e)
]

AreTestable-filter :
    (d : Details) (targets : List Target) (id : ℕ)
    → AreTestable d targets
    → AreTestable d (targets_of_config targets id)
unfolding targets_of_config
AreTestable-filter d [] id h = tt
AreTestable-filter d (t ∷ ts) id (h, hs) = elim (Bool-cases (t.circuit_config_id == id)) [
  | inl e ↦ rw e (h, AreTestable-filter d ts id hs)
  | inr e ↦ rw e (AreTestable-filter d ts id hs)
]

-- The first configuration of the list that matches, while those before it miss.
abbrev pub FirstMatch : Details → List Target → ℕ → List Config → Type 0
FirstMatch d targets i [] = ⊥
FirstMatch d targets i (c ∷ cs) =
    (Matches d targets c × (i ≡ c.id)) ⊎ (Misses d targets c × FirstMatch d targets i cs)

-- The scan has found the first match, or nothing because every configuration misses.
abbrev pub Found : Details → List Target → List Config → Option Result → Type 0
Found d targets cs out =
    ((i : ℕ) × (out ≡ some (ok i)) × FirstMatch d targets i cs)
    ⊎ ((out ≡ some err) × All (Misses d targets) cs)

scan-Found :
    (d : Details) (targets : List Target) (cs : List Config)
    → AreTestable d targets
    → Found d targets cs (scan d targets cs)
unfolding scan
scan-Found d targets [] h = inr (refl, tt)
scan-Found d targets (c ∷ cs) h =
    elim (all_hold-cases d (targets_of_config targets c.id) (AreTestable-filter d targets c.id h)) [
      | inl (e, every) ↦ inl (c.id, rw (scan, e) refl, inl (every, refl))
      | inr (e, one) ↦
          let step : scan d targets (c ∷ cs) ≡ scan d targets cs = rw (scan, e) refl in
          elim (scan-Found d targets cs h) [
            | inl (i, f, first) ↦ inl (i, step ∙ f, inr (one, first))
            | inr (f, misses) ↦ inr (step ∙ f, (one, misses))
          ]
    ]

-- If every target can be tested, the scan of an agent raises nothing: it finds the first enabled
-- configuration of the group, by rising priority, all of whose targets hold for the agent, while
-- each one before it has a failing target; or it finds none, because each has a failing target.
pub get_agent_config_by_scan-Found :
    (d : Details) (targets : List Target) (configs : List Config) (mg : ℕ)
    → AreTestable d targets
    → InOrder (up (λ (c : Config). c.priority)) (candidates configs mg)
      × Found d targets
          (candidates configs mg)
          (get_agent_config_by_scan (some d) targets configs mg)
unfolding get_agent_config_by_scan candidates
get_agent_config_by_scan-Found d targets configs mg h =
    let live =
      filter (λ (c : Config). c.is_deleted == 0 && (c.metric_group == mg && c.is_enable == 1))
        configs in
    (
      sort_by-InOrder {A = Config} (λ c. c.priority) live,
      scan-Found d targets (candidates configs mg) h,
    )
