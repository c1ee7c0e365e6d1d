-- ===== src/TaintSearch/Tests.antt =====
-- Runs and instances for vul_engine.py, over a search that knows paths of one step.
use dong_tai_server.Prelude.{
  ℕ, ◌<◌, ◌≡◌, refl, ◌↔◌, inl, inr, Bool, true, false, ◌&&◌, ◌||◌, none, some, List, [], ◌∷◌, ◌∈◌,
  All, map, ◌==◌, number_comparison, arith, if◌then◌else◌, nat_beq_iff, Bool-cases,
}
use dong_tai_server.Prelude.Dict.{lookup}
use dong_tai_server.Prelude.Text.{Text, codes}
use dong_tai_server.MethodCall.{MethodCall}
use dong_tai_server.TaintSearch.{
  Arc, Pool, build_graph, arcs_into, predecessors, writers_of_any, writers, has_node,
  source_methods, is_source_method, vul_methods, hit_vul_method, square_gap, is_dropped,
  before_last?, lost_taint, invokeid_dict, invokeid_dict_from, last?,
}
use dong_tai_server.TaintSearch.Arcs.{HasArc, Flow, build_graph_flows}
use dong_tai_server.TaintSearch.Paths.{Leads, Networkx, FindsPaths, total_paths}
use dong_tai_server.TaintSearch.Paths.Sound.{total_paths_sound, total_paths_complete}
use dong_tai_server.TaintSearch.Merge.{merge_paths}
use dong_tai_server.TaintSearch.Merge.Covers.{Covered, OnSome, merge_paths_covers}
use dong_tai_server.TaintSearch.Merge.Ends.{EndsIn, merge_paths_ends}
use dong_tai_server.TaintSearch.Results.{
  Engine, Found, Mark, mark_as, role_of, report_path, report_calls, report_call, finish_path,
  search_pool, results,
}
use dong_tai_server.TaintSearch.Results.Returns.{Known, HasValues, handed_out, invokeid_dict-Known}
use dong_tai_server.TaintSearch.Results.Shared.{role_on, report_path_marks}
use dong_tai_server.TaintSearch.Results.Complete.{UniqueIds, search_reports_paths}

abbrev call : ℕ → Text → Bool → List ℕ → List ℕ → MethodCall
call id class_name source reads writes = record {
  invoke_id = id;
  class_name = class_name;
  method_name = codes "b";
  signature = codes "A.b()";
  source = source;
  source_hash = reads;
  target_hash = writes;
  source_values = some (codes "x");
  target_values = some (codes "y");
  source_type = none;
  target_range = none;
}

abbrev first : MethodCall
first = call 1 (codes "S") true [] (7 ∷ [])

abbrev second : MethodCall
second = call 2 (codes "A") false (7 ∷ []) []

abbrev calls : List MethodCall
calls = second ∷ first ∷ []

abbrev steps_to : List Arc → ℕ → ℕ → Bool
steps_to [] s t = false
steps_to (a ∷ g) s t = (a.source == s) && (a.target == t) || steps_to g s t

abbrev one_step : Networkx
one_step = record {
  has_path = λ g s t. (s == t) || steps_to g s t;
  shortest_path = λ g s t. if s == t then s ∷ [] else s ∷ t ∷ [];
}

graph_run : build_graph calls calls ≡ record { source = 1; target = 2; weight = 1 } ∷ []
unfolding build_graph arcs_into predecessors writers_of_any writers square_gap
graph_run = refl

abbrev single : List Arc
single = record { source = 1; target = 2; weight = 1 } ∷ []

steps_in_single :
    (s t : ℕ) (path : List ℕ) → Leads (HasArc single) s t path → one_step.has_path single s t ≡ true
steps_in_single s t [] h = absurd h
steps_in_single s t (x ∷ []) h = ground (arith, h.1)
steps_in_single s t (x ∷ y ∷ []) h = ground (arith, h.1, h.2)
steps_in_single s t (x ∷ y ∷ z ∷ path) h = ground (arith, h.1, h.2.1)

finds_single : FindsPaths one_step single
unfolding has_node
finds_single = record {
  found = λ s t from into path. elim (Bool-cases (s == t)) [
    | inl e ↦ rw e (refl, (nat_beq_iff s t).0 e)
    | inr e ↦ rw e (refl, ground arith, (refl, refl))
  ];
  complete = λ s t path from into led. steps_in_single s t path led;
}

finds : FindsPaths one_step (build_graph calls calls)
finds = rw graph_run finds_single

sources_run : source_methods calls ≡ 1 ∷ []
unfolding source_methods is_source_method
sources_run = refl

sinks_run : vul_methods (codes "A.b") calls ≡ 2 ∷ []
unfolding vul_methods hit_vul_method
sinks_run = refl

abbrev sink : Text
sink = codes "A.b"

kept : is_dropped calls (1 ∷ 2 ∷ []) ≡ false
unfolding is_dropped before_last? lost_taint invokeid_dict invokeid_dict_from
kept = refl

-- Each flow of the pool leads from the first call to the second.
Flow-grows : (a b : ℕ) → Flow calls a b → a < b
Flow-grows a b f = let arc = rw graph_run at ((build_graph_flows calls a b).1 f) in ground arith

merge_paths_covers_example :
    ((path : List ℕ) → path ∈ (1 ∷ 2 ∷ []) ∷ [] → Covered path (merge_paths ((1 ∷ 2 ∷ []) ∷ [])))
    × ((x : ℕ) → OnSome x (merge_paths ((1 ∷ 2 ∷ []) ∷ [])) → OnSome x ((1 ∷ 2 ∷ []) ∷ []))
merge_paths_covers_example = merge_paths_covers ((1 ∷ 2 ∷ []) ∷ [])

merge_paths_ends_example :
    All (EndsIn (vul_methods sink calls)) (merge_paths (total_paths one_step sink calls))
merge_paths_ends_example = merge_paths_ends one_step sink calls finds Flow-grows

unique : UniqueIds calls
unique c d (inl e) (inl f) i = cc
unique c d (inl e) (inr (inl f)) i = absurd (let ids : ◌≡◌ {A = ℕ} 2 1 = cc in omega arith)
unique c d (inr (inl e)) (inl f) i = absurd (let ids : ◌≡◌ {A = ℕ} 1 2 = cc in omega arith)
unique c d (inr (inl e)) (inr (inl f)) i = cc
unique c d (inr (inr z)) m i = absurd z
unique c d (inl e) (inr (inr z)) i = absurd z
unique c d (inr (inl e)) (inr (inr z)) i = absurd z

values : (c : MethodCall) → c ∈ calls → HasValues c
values c (inl e) = rw e ((_, refl), (_, refl))
values c (inr (inl e)) = rw e ((_, refl), (_, refl))
values c (inr (inr z)) = absurd z

abbrev idle : Engine
idle = record {
  version = 1;
  vul_stack = [];
  vul_source_signature = [];
  vul_method_signature = [];
  taint_value = [];
  more_results = [];
  marks = [];
}

abbrev pool : Pool
pool = record { calls = calls; version = 1 }

search_reports_paths_example :
    (e' : Engine) × (search_pool one_step sink pool idle ≡ some e')
    × (found : List Found) × (map (λ r. r.stack) found
        ≡ merge_paths (total_paths one_step sink calls))
    × (results e' ≡ handed_out found)
search_reports_paths_example = search_reports_paths one_step sink pool finds unique values idle

first_writes : Flow calls 1 2
first_writes = (second, 7, inl refl, refl, inl refl, (first, inr (inl refl), refl, inl refl))

total_paths_complete_example :
    one_step.shortest_path (build_graph calls calls) 1 2 ∈ total_paths one_step sink calls
total_paths_complete_example =
    total_paths_complete one_step sink calls finds 1 2 2 [] (rw sources_run (inl refl))
      (rw sinks_run (inl refl)) (refl, first_writes, (refl, refl)) kept

total_paths_sound_example :
    (s : ℕ) × (t : ℕ) × (s ∈ source_methods calls)
    × (t ∈ vul_methods sink calls)
    × Leads (Flow calls) s t (1 ∷ 2 ∷ [])
total_paths_sound_example =
    total_paths_sound one_step sink calls finds (1 ∷ 2 ∷ []) total_paths_complete_example

known : All (Known calls (invokeid_dict calls)) (1 ∷ 2 ∷ 1 ∷ [])
known =
    let one = invokeid_dict-Known calls first (inr (inl refl)) in
    let two = invokeid_dict-Known calls second (inl refl) in (one, (two, (one, tt)))

-- The second call bears the mark of a sink of an earlier path; a path that goes on behind it, to
-- the first call here, takes the mark away.
abbrev marked : Engine
marked = record idle {
  marks =
      (2, record { tag = some (codes "sink"); code = codes "A.b()(..., <em>x</em>, ...)" }) ∷ [];
}

abbrev as_step : Mark
as_step = record {
  tag = some (codes "propagator");
  code = codes "<em>y</em> = A.b()(..., <em>x</em>, ...)";
}

abbrev through : Engine
through = record {
  version = 1;
  vul_stack = 1 ∷ 2 ∷ 1 ∷ [];
  vul_source_signature = codes "S.b";
  vul_method_signature = [];
  taint_value = [];
  more_results =
      record {
        stack = 1 ∷ 2 ∷ 1 ∷ [];
        source_signature = codes "S.b";
        sink_signature = [];
        taint_value = [];
      }
      ∷ [];
  marks =
      (2, as_step)
      ∷ (1, record { tag = some (codes "source"); code = codes "<em>y</em> = A.b()(...)" })
      ∷ [];
}

abbrev walk : List ℕ
walk = 1 ∷ 2 ∷ 1 ∷ []

walk_runs : report_path (invokeid_dict calls) walk none marked ≡ some (through, some (codes "S.b"))
unfolding report_path report_calls finish_path report_call last? mark_as role_of invokeid_dict
    invokeid_dict_from
walk_runs = refl

second_named : lookup 2 (invokeid_dict calls) ≡ some second
unfolding invokeid_dict invokeid_dict_from
second_named = refl

last_of_walk : last? walk ≡ some 1
unfolding last?
last_of_walk = refl

report_path_marks_example :
    (mark : Mark) × (mark_as (role_on 1 second) second ≡ some mark)
    × (lookup 2 through.marks ≡ some mark)
report_path_marks_example =
    report_path_marks calls (invokeid_dict calls) walk none (some (codes "S.b")) marked through 1 2
      second known last_of_walk (inr (inl refl)) second_named refl walk_runs

sink_mark_lost : lookup 2 through.marks ≡ some as_step
sink_mark_lost = refl

build_graph_flows_example : HasArc (build_graph calls calls) 1 2 ↔ Flow calls 1 2
build_graph_flows_example = build_graph_flows calls 1 2
