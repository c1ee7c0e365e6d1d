-- ===== src/TaintGraph/Tests.antt =====
-- Runs and instances for vul_engine_v2.py.
use dong_tai_server.Prelude.{ℕ, ◌≡◌, refl, ◌↔◌, true, false, some, none, List, [], ◌∷◌, arith}
use mathlib.Core.List.{reverse}
use dong_tai_server.Prelude.Dict.{keys}
use dong_tai_server.Prelude.Text.{Text, codes}
use dong_tai_server.MethodCall.{MethodCall}
use dong_tai_server.TaintGraph.{
  Graph, Reported, Drawing, set_method_pool, draw, create_graph, drawn_nodes, search_all_link,
  filter_invalid_data, create_graph_from, extend, targets_of, create_edge, draw_heads, draw_targets,
  remove_invalid, clean_heads, drop_heads, clean_targets, filter_invalid_node,
}
use dong_tai_server.TaintGraph.Flows.{Flows}
use dong_tai_server.TaintGraph.Drawn.{HasEdge, Numbered, search_all_link_edges}
use dong_tai_server.TaintGraph.Pruning.{IsClean, filter_invalid_data_ends}

abbrev call : ℕ → List ℕ → List ℕ → MethodCall
call id reads writes = record {
  invoke_id = id;
  class_name = codes "java.lang.String";
  method_name = codes "concat";
  signature = codes "java.lang.String.concat";
  source = false;
  source_hash = reads;
  target_hash = writes;
  source_values = none;
  target_values = none;
  source_type = none;
  target_range = none;
}

abbrev calls : List MethodCall
calls = call 1 [] (7 ∷ []) ∷ call 2 (7 ∷ []) (8 ∷ []) ∷ call 3 (8 ∷ 7 ∷ []) [] ∷ []

abbrev reported : MethodCall → Reported
reported c = record {
  call = c;
  has_type = false;
  has_stack = false;
  has_position = false;
  has_node = true;
}

abbrev pool : List Reported
pool = reported (call 2 (7 ∷ []) (8 ∷ [])) ∷ reported (call 1 [] (7 ∷ [])) ∷ []

graph_runs : create_graph calls ≡ (1, 2 ∷ 3 ∷ []) ∷ (2, 3 ∷ []) ∷ (3, []) ∷ []
unfolding create_graph create_graph_from extend targets_of
graph_runs = refl

nodes_run : drawn_nodes (draw (set_method_pool pool)) ≡ 2 ∷ 2 ∷ 1 ∷ []
unfolding draw drawn_nodes create_edge draw_heads create_graph create_graph_from set_method_pool
    extend draw_targets targets_of
nodes_run = refl

search_all_link_edges_example :
    (d : Drawing) × (search_all_link pool ≡ some d)
    × ((a b : ℕ) → HasEdge d.edges a b ↔ Flows (reverse (set_method_pool pool)) a b)
    × Numbered 1 d.edges
search_all_link_edges_example =
    search_all_link_edges (reported (call 2 (7 ∷ []) (8 ∷ []))) (reported (call 1 [] (7 ∷ [])) ∷ [])
      (λ e. absurd (ground (arith, e))) (refl, (refl, tt))

-- The call 2 is a String's, and nothing reads what it writes.
abbrev types : ℕ → Text
types id = codes "String"

abbrev leafy : Graph
leafy = (1, 2 ∷ 3 ∷ []) ∷ (3, 2 ∷ []) ∷ []

pruned : filter_invalid_data types 5 leafy ≡ some []
unfolding filter_invalid_data remove_invalid clean_heads drop_heads clean_targets
    filter_invalid_node
pruned = refl

filter_invalid_data_ends_example :
    (g' : Graph) × (filter_invalid_data types 5 leafy ≡ some g') × IsClean types (keys g') g'
filter_invalid_data_ends_example = filter_invalid_data_ends types 5 leafy (omega arith)
