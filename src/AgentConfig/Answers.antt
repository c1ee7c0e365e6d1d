-- ===== src/AgentConfig/Answers.antt =====
-- get_agent_config: what an agent is told for the configurations that its scans find.
use dong_tai_server.Prelude.{
  ℕ, Bool, true, false, Option, none, some, List, [], ◌∷◌, ◌++◌, filter, if◌then◌else◌, ◌==◌, leb,
  number_comparison,
}
use dong_tai_server.Prelude.Text.{Text, codes}
use dong_tai_server.AgentConfig.{Details, Target, Config, Result, ok, err, get_agent_config_by_scan}

pub record Metric : Type 0 where
  pub circuit_config_id : ℕ
  pub metric_type : ℕ
  pub opt : ℕ
  pub value : Text

-- What convert_metric gives.
pub record Condition : Type 0 where
  pub fallback_name : Text
  pub conditions : Text
  pub value : Text

-- The names of MetricType and of MetricOperator in small letters; `none` is the ValueError.
pub metric_type_name : ℕ → Option Text
metric_type_name n =
    if n == 1
    then some (codes "cpuUsagePercentage")
    else if n == 2
    then some (codes "sysMemUsagePercentage")
    else none

pub metric_operator_name : ℕ → Option Text
metric_operator_name n = if n == 5 then some (codes "greater") else none

pub convert_metric : Metric → Option Condition
convert_metric metric = elim (metric_type_name metric.metric_type) [
  | none ↦ none
  | some name ↦ elim (metric_operator_name metric.opt) [
    | none ↦ none
    | some opt ↦ some (record { fallback_name = name; conditions = opt; value = metric.value })
  ]
]

pub convert_metrics : List Metric → Option (List Condition)
convert_metrics [] = some []
convert_metrics (metric ∷ rest) = elim (convert_metric metric) [
  | none ↦ none
  | some condition ↦ elim (convert_metrics rest) [
    | none ↦ none
    | some more ↦ some (condition ∷ more)
  ]
]

pub find_config : ℕ → List Config → Option Config
find_config i [] = none
find_config i (c ∷ cs) = let rest = find_config i cs in if c.id == i then some c else rest

-- The entries that the loop adds to `data` for a group, and the interval of its configuration.
pub record Group : Type 0 where
  pub metric_group : ℕ
  pub metric_list : List Condition
  pub is_uninstall : Bool
  pub interval : ℕ

-- What one round reads: the result of the scan, then the tables.
pub group_of : Result → List Config → List Metric → ℕ → Option (List Group)
group_of err configs metrics mg = some []
group_of (ok i) configs metrics mg = elim (find_config i configs) [
  | none ↦ some []
  | some c ↦ elim (convert_metrics (filter (λ m. m.circuit_config_id == c.id) metrics)) [
    | none ↦ none
    | some metric_list ↦ some (
        record {
          metric_group = mg;
          metric_list = metric_list;
          is_uninstall = false;
          interval = c.interval;
        }
        ∷ [])
  ]
]

pub groups_of :
    Option Details → List Target → List Config → List Metric → List ℕ → Option (List Group)
groups_of d targets configs metrics [] = some []
groups_of d targets configs metrics (mg ∷ mgs) =
    elim (get_agent_config_by_scan d targets configs mg) [
      | none ↦ none
      | some res ↦ elim (group_of res configs metrics mg) [
        | none ↦ none
        | some entries ↦ elim (groups_of d targets configs metrics mgs) [
          | none ↦ none
          | some more ↦ some (entries ++ more)
        ]
      ]
    ]

pub record Answer : Type 0 where
  pub enable_auto_fallback : Bool
  pub performance_limit_risk_max_metrics_count : ℕ
  pub groups : List Group

-- `min(interval_list)`, where the first interval is `least`.
pub least_interval : ℕ → List Group → ℕ
least_interval least [] = least
least_interval least (g ∷ gs) =
    least_interval (if leb least g.interval then least else g.interval) gs

-- Ok of the data, or (inside) `none` for "No config found".
pub answer_of : List Group → Option Answer
answer_of [] = none
answer_of (g ∷ gs) = some (record {
  enable_auto_fallback = true;
  performance_limit_risk_max_metrics_count = least_interval g.interval gs;
  groups = g ∷ gs;
})

-- MetricGroup has the one member SYSTEM.
abbrev pub metric_groups : List ℕ
metric_groups = 1 ∷ []

pub get_agent_config :
    Option Details → List Target → List Config → List Metric → Option (Option Answer)
get_agent_config d targets configs metrics =
    elim (groups_of d targets configs metrics metric_groups) [
      | none ↦ none
      | some groups ↦ some (answer_of groups)
    ]
