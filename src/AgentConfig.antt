-- ===== src/AgentConfig.antt =====
-- dongtai_protocol/views/agent_config.py, with the choices of dongtai_common/models/agent_config.py:
-- which circuit breaking configuration an agent gets. `none` is an exception.
pub mod Scan
pub mod Answers
mod Tests
use dong_tai_server.Prelude.{
  ℕ, suc, zero, ◌≤◌, Bool, true, false, not, ◌&&◌, ◌||◌, Option, none, some, List, [], ◌∷◌, ◌++◌,
  map, filter, length, if◌then◌else◌, ◌==◌, leb, number_comparison, text_comparison,
}
use dong_tai_server.Prelude.Sorting.{sort_by}
use dong_tai_server.Prelude.Text.{Text, codes, starts_with}

-- A value of the agent's row: a text, a number (a port), or NULL.
pub data Value : Type 0 where
  text : Text → Value
  number : ℕ → Value
  missing : Value

pub data TargetOperator : Type 0 where
  equal not_equal contain not_contain : TargetOperator

pub data TargetType : Type 0 where
  account_name project_name protocol agent_name agent_ip agent_path port agent_language : TargetType

-- `TargetOperator(n)` and `TargetType(n)`; `none` is the ValueError.
pub target_operator : ℕ → Option TargetOperator
target_operator n =
    if n == 1
    then some equal
    else if n == 2
    then some not_equal
    else if n == 3
    then some contain
    else if n == 4
    then some not_contain
    else none

pub target_type : ℕ → Option TargetType
target_type n =
    if n == 1
    then some account_name
    else if n == 2
    then some project_name
    else if n == 3
    then some protocol
    else if n == 4
    then some agent_name
    else if n == 5
    then some agent_ip
    else if n == 6
    then some agent_path
    else if n == 7
    then some port
    else if n == 8
    then some agent_language
    else none

-- What get_agent_filter_details annotates.
pub record Details : Type 0 where
  pub account_name : Value
  pub project_name : Value
  pub protocol : Value
  pub agent_name : Value
  pub agent_ip : Value
  pub agent_path : Value
  pub port : Value
  pub agent_language : Value

-- `x[targetattr]`
pub attribute : Details → TargetType → Value
attribute d TargetType.account_name = d.account_name
attribute d TargetType.project_name = d.project_name
attribute d TargetType.protocol = d.protocol
attribute d TargetType.agent_name = d.agent_name
attribute d TargetType.agent_ip = d.agent_ip
attribute d TargetType.agent_path = d.agent_path
attribute d TargetType.port = d.port
attribute d TargetType.agent_language = d.agent_language

-- Python's `p in s` for texts
pub is_within : Text → Text → Bool
is_within p [] = starts_with [] p
is_within p (c ∷ s) = starts_with (c ∷ s) p || is_within p s

abbrev pub equals_text : Value → Text → Bool
equals_text (text s) t = s == t
equals_text (number n) t = false
equals_text missing t = false

-- What get_function gives, applied; `in` on a text raises unless the value is a text.
pub compare_by : TargetOperator → Value → Text → Option Bool
compare_by equal x y = some (equals_text x y)
compare_by not_equal x y = some (not (equals_text x y))
compare_by contain (text s) y = some (is_within s y)
compare_by contain (number n) y = none
compare_by contain missing y = none
compare_by not_contain (text s) y = some (not (is_within s y))
compare_by not_contain (number n) y = none
compare_by not_contain missing y = none

-- Rows of the tables IastCircuitTarget, IastCircuitConfig and IastCircuitMetric.
pub record Target : Type 0 where
  pub circuit_config_id : ℕ
  pub target_type : ℕ
  pub opt : ℕ
  pub value : Text

pub record Config : Type 0 where
  pub id : ℕ
  pub is_enable : ℕ
  pub is_deleted : ℕ
  pub metric_group : ℕ
  pub priority : ℕ
  pub interval : ℕ

-- get_filter_by_target, applied to the details
pub target_holds : Details → Target → Option Bool
target_holds d t = elim (target_type t.target_type) [
  | none ↦ none
  | some kind ↦ elim (target_operator t.opt) [
    | none ↦ none
    | some opt ↦ compare_by opt (attribute d kind) t.value
  ]
]

abbrev pub and_also : Option Bool → Option Bool → Option Bool
and_also (some a) (some b) = some (a && b)
and_also _ _ = none

-- `all(result_list)`, where the whole list is computed before.
pub all_hold : Details → List Target → Option Bool
all_hold d [] = some true
all_hold d (t ∷ ts) = and_also (target_holds d t) (all_hold d ts)

pub targets_of_config : List Target → ℕ → List Target
targets_of_config targets id = filter (λ t. t.circuit_config_id == id) targets

-- The rows of the scan, by priority.
pub candidates : List Config → ℕ → List Config
candidates configs mg =
    sort_by (λ c. c.priority)
      (filter (λ c. c.is_deleted == 0 && (c.metric_group == mg && c.is_enable == 1)) configs)

-- Ok or Err of a scan: the id of a configuration, or "config not found".
pub data Result : Type 0 where
  ok : ℕ → Result
  err : Result

pub scan : Details → List Target → List Config → Option Result
scan d targets [] = some err
scan d targets (c ∷ cs) =
    let rest = scan d targets cs in
    elim (all_hold d (targets_of_config targets c.id)) [
      | none ↦ none
      | some matches ↦ if matches then some (ok c.id) else rest
    ]

pub get_agent_config_by_scan : Option Details → List Target → List Config → ℕ → Option Result
get_agent_config_by_scan none targets configs mg = some err
get_agent_config_by_scan (some d) targets configs mg = scan d targets (candidates configs mg)
