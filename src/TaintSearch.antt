-- ===== src/TaintSearch.antt =====
-- dongtai_common/engine/vul_engine.py: VulEngine, which looks for taint paths from a source method to
-- a sink in a method pool. The calls are named by their invokeId, which is how the source's
-- invokeid_dict reaches them; the marks that copy_method leaves on a call are a store of their own,
-- since every stack refers to the same call.
pub mod Arcs
pub mod Paths
pub mod Merge
pub mod Results
mod Tests
use dong_tai_server.Prelude.{
  ℕ, zero, suc, ◌+◌, ◌-◌, ◌*◌, Bool, true, false, not, ◌&&◌, ◌||◌, Option, none, some, List, [],
  ◌∷◌, ◌++◌, map, filter, contains, length, if◌then◌else◌, ◌==◌, number_comparison, text_comparison,
}
use dong_tai_server.Prelude.Sorting.{sort_by, sort_down_by}
use dong_tai_server.Prelude.Sets.{shares, unique}
use dong_tai_server.Prelude.Dict.{lookup, put}
use dong_tai_server.Prelude.Text.{Text, codes}
use dong_tai_server.MethodCall.{MethodCall, SourceType, TargetRange, Range, dotted, dots}
use dong_tai_server.Compatibility.{Report, method_pool_is_3, method_pool_3_to_2, parse_target_value}

-- `list(map(method_pool_3_to_2, reports))`; `none` is its KeyError.
pub convert_all : List Report → Option (List Report)
convert_all [] = some []
convert_all (r ∷ rs) =
    let rest = convert_all rs in
    elim (method_pool_3_to_2 r) [
      | none ↦ none
      | some r' ↦ elim rest [ none ↦ none | some rs' ↦ some (r' ∷ rs') ]
    ]

-- `filter(lambda x: x["targetHash"] is not None, …)`
pub calls_with_targets : List Report → List MethodCall
calls_with_targets [] = []
calls_with_targets (r ∷ rs) =
    let rest = calls_with_targets rs in
    elim r.target_hash [
      | none ↦ rest
      | some target_hash ↦
          record {
            invoke_id = r.invoke_id;
            class_name = r.class_name;
            method_name = r.method_name;
            signature = r.signature;
            source = r.source;
            source_hash = r.source_hash;
            target_hash = target_hash;
            source_values = r.source_values;
            target_values = r.target_values;
            source_type = r.source_type;
            target_range = r.target_range;
          }
          ∷ rest
    ]

-- `method_pool and method_pool_is_3(method_pool[0])`
pub starts_at_3 : List Report → Bool
starts_at_3 [] = false
starts_at_3 (r ∷ rs) = method_pool_is_3 r

pub record Pool : Type 0 where
  pub calls : List MethodCall
  pub version : ℕ

-- The setter of `method_pool`, over the engine's version so far.
pub set_method_pool : ℕ → List Report → Option Pool
unfolding calls_with_targets convert_all starts_at_3
set_method_pool version method_pool =
    let sorted_reports = sort_down_by (λ e. e.invoke_id) method_pool in
    let finish =
      λ (reports : List Report). sort_down_by (λ e. e.invoke_id) (calls_with_targets reports) in
    if starts_at_3 method_pool
    then elim (convert_all sorted_reports) [
      | none ↦ none
      | some reports ↦ some (record { calls = finish reports; version = 3 })
    ]
    else some (record { calls = finish sorted_reports; version = version })

-- method_pool_signatures, without its cache
pub method_pool_signatures : List MethodCall → List Text
method_pool_signatures pool = map (λ m. dots m.class_name ++ (b'.' ∷ m.method_name)) pool

pub hit_vul_method : Text → MethodCall → Bool
hit_vul_method vul_method_signature method = dotted method == vul_method_signature

abbrev pub path_pattern : Text
path_pattern = codes "org.springframework.web.util.pattern.PathPattern.getPatternString()"

pub is_source_method : MethodCall → Bool
is_source_method x = x.source && not (x.signature == path_pattern)

pub vul_methods : Text → List MethodCall → List ℕ
vul_methods signature pool = map (λ x. x.invoke_id) (filter (hit_vul_method signature) pool)

pub source_methods : List MethodCall → List ℕ
source_methods pool = map (λ x. x.invoke_id) (filter is_source_method pool)

-- `target_hash_dict[h]`
pub writers : List MethodCall → ℕ → List ℕ
writers pool h = map (λ c. c.invoke_id) (filter (λ c. contains c.target_hash h) pool)

-- `invokeid_dict`
pub invokeid_dict_from : List MethodCall → List (ℕ × MethodCall) → List (ℕ × MethodCall)
invokeid_dict_from [] d = d
invokeid_dict_from (pool ∷ pools) d = invokeid_dict_from pools (put pool.invoke_id pool d)

pub invokeid_dict : List MethodCall → List (ℕ × MethodCall)
invokeid_dict pools = invokeid_dict_from pools []

pub record Arc : Type 0 where
  pub source : ℕ
  pub target : ℕ
  pub weight : ℕ

-- `reduce(lambda x, y: x | y, (target_hash_dict[i] for i in hashes), set())`
pub writers_of_any : List MethodCall → List ℕ → List ℕ
writers_of_any pool [] = []
writers_of_any pool (h ∷ hs) = writers pool h ++ writers_of_any pool hs

-- The loop over "sourceType": each entry of the type HOST replaces what was found before.
pub host_writers : List MethodCall → List SourceType → List ℕ → List ℕ
host_writers pool [] vecs = vecs
host_writers pool (t ∷ ts) vecs =
    host_writers pool ts (if t.kind == codes "HOST" then writers pool t.hash else vecs)

pub predecessors : List MethodCall → MethodCall → List ℕ
predecessors pool call = elim call.source_type [
  | some types ↦ unique (host_writers pool types [])
  | none ↦ unique (writers_of_any pool call.source_hash)
]

-- `(source - target) * (source - target)`, over the integers
pub square_gap : ℕ → ℕ → ℕ
square_gap a b = (a - b + (b - a)) * (a - b + (b - a))

pub arcs_into : MethodCall → List ℕ → List Arc
arcs_into call [] = []
arcs_into call (s ∷ ss) =
    record { source = s; target = call.invoke_id; weight = square_gap s call.invoke_id }
    ∷ arcs_into call ss

pub build_graph : List MethodCall → List MethodCall → List Arc
build_graph pool [] = []
build_graph pool (call ∷ calls) = arcs_into call (predecessors pool call) ++ build_graph pool calls

pub has_node : List Arc → ℕ → Bool
has_node [] n = false
has_node (a ∷ g) n = (a.source == n) || (a.target == n) || has_node g n

-- `path[-1]` and `path[-2]`
pub last? : List ℕ → Option ℕ
last? [] = none
last? (x ∷ []) = some x
last? (x ∷ y ∷ r) = last? (y ∷ r)

pub before_last? : List ℕ → Option ℕ
before_last? [] = none
before_last? (x ∷ []) = none
before_last? (x ∷ y ∷ []) = some x
before_last? (x ∷ y ∷ z ∷ r) = before_last? (y ∷ z ∷ r)

-- `"ranges" in x and x["ranges"]`
abbrev pub has_ranges : TargetRange → Bool
has_ranges x = elim x.ranges [ none ↦ false | some l ↦ not (length l == 0) ]

-- "targetRange" is there, and none of its entries has a range.
pub lost_taint : Option MethodCall → Bool
lost_taint none = false
lost_taint (some call) = elim call.target_range [
  | none ↦ false
  | some l ↦ length (filter has_ranges l) == 0
]

-- The path is dropped: the last call in front of the sink has no tainted range.
pub is_dropped : List MethodCall → List ℕ → Bool
is_dropped pool path = elim (before_last? path) [
  | none ↦ false
  | some k ↦ lost_taint (lookup k (invokeid_dict pool))
]
