-- ===== src/TaintGraph.antt =====
-- dongtai_common/engine/vul_engine_v2.py: the graph of taint flows between the calls of a method
-- pool, as the method graph of the web service draws it. The source keeps target ids as decimal
-- texts and turns them back by int(); here they are numbers, and `NodeId` keeps the two apart where
-- the source mixes them.
pub mod Flows
pub mod Drawn
pub mod Nodes
pub mod Pruning
mod Tests
use dong_tai_server.Prelude.{
  ℕ, zero, suc, ◌+◌, ◌||◌, Bool, true, false, not, ◌&&◌, Option, none, some, List, [], ◌∷◌, ◌++◌,
  map, filter, contains, length, if◌then◌else◌, ◌==◌, nat_beq, number_comparison, text_comparison,
}
use mathlib.Core.List.{reverse}
use dong_tai_server.Prelude.Sorting.{sort_down_by}
use dong_tai_server.Prelude.Sets.{shares, unique}
use dong_tai_server.Prelude.Dict.{keys}
use dong_tai_server.Prelude.Text.{Text, codes}
use dong_tai_server.MethodCall.{MethodCall, dotted}

-- A reported element. `has_type`, `has_stack` and `has_position` say that the keys "type", "stack" and
-- "taintPosition" are there, and `has_node` that it has an "invokeId", lists of hashes, and the other
-- keys that create_node reads. Of what the conversion to version 2 changes, the graph reads nothing.
pub record Reported : Type 0 where
  pub call : MethodCall
  pub has_type : Bool
  pub has_stack : Bool
  pub has_position : Bool
  pub has_node : Bool

abbrev pub Graph : Type 0
Graph = List (ℕ × List ℕ)

-- `not ("type" in x and "stack" in x)`
abbrev pub is_call : Reported → Bool
is_call x = not (x.has_type && x.has_stack)

-- The setter of `method_pool`: drops what is no call, and sorts by invokeId, last call first.
pub set_method_pool : List Reported → List MethodCall
set_method_pool method_pool =
    sort_down_by (λ e. e.invoke_id) (map (λ x. x.call) (filter is_call method_pool))

-- The inner loop of create_graph: the later calls that read what `node` wrote.
pub targets_of : MethodCall → List MethodCall → List ℕ
targets_of node [] = []
targets_of node (later ∷ rest) =
    let found = targets_of node rest in
    if shares node.target_hash later.source_hash then later.invoke_id ∷ found else found

-- `if k not in g: g[k] = []`, and then `g[k].append` for each of `targets`.
pub extend : ℕ → List ℕ → Graph → Graph
extend k targets [] = (k, targets) ∷ []
extend k targets ((j, old) ∷ g) =
    let rest = extend k targets g in if j == k then (j, old ++ targets) ∷ g else (j, old) ∷ rest

pub create_graph_from : List MethodCall → Graph → Graph
create_graph_from [] g = g
create_graph_from (node ∷ rest) g =
    create_graph_from rest (extend node.invoke_id (targets_of node rest) g)

pub create_graph : List MethodCall → Graph
create_graph method_pool_asc = create_graph_from method_pool_asc []

pub record Edge : Type 0 where
  pub id : ℕ
  pub source : ℕ
  pub target : ℕ

-- The heads go into `node_ids` as numbers and the targets as texts.
pub data NodeId : Type 0 where
  number : ℕ → NodeId
  digits : ℕ → NodeId

abbrev pub node_beq : NodeId → NodeId → Bool
node_beq (number a) (number b) = nat_beq a b
node_beq (digits a) (digits b) = nat_beq a b
node_beq _ _ = false

-- `node_ids.add(n)`
abbrev pub has_node : NodeId → List NodeId → Bool
has_node n [] = false
has_node n (k ∷ ks) = if node_beq n k then true else has_node n ks

abbrev pub add_node : List NodeId → NodeId → List NodeId
add_node ids n = if has_node n ids then ids else n ∷ ids

pub record Drawing : Type 0 where
  pub edge_code : ℕ
  pub node_ids : List NodeId
  pub edges : List Edge

-- The inner and the outer loop of create_edge.
pub draw_targets : ℕ → List ℕ → Drawing → Drawing
draw_targets head [] d = d
draw_targets head (sub_node ∷ subs) d = draw_targets head subs (record {
  edge_code = d.edge_code + 1;
  node_ids = add_node d.node_ids (digits sub_node);
  edges = d.edges ++ record { id = d.edge_code; source = head; target = sub_node } ∷ [];
})

pub draw_heads : Graph → Drawing → Drawing
draw_heads [] d = d
draw_heads ((head, subs) ∷ g) d =
    draw_heads g
      (draw_targets head subs (record d { node_ids = add_node d.node_ids (number head) }))

pub create_edge : Graph → Drawing
create_edge g = draw_heads g (record { edge_code = 1; node_ids = []; edges = [] })

-- `int(node_id)`
abbrev pub int_of : NodeId → ℕ
int_of (number n) = n
int_of (digits n) = n

-- The ids of `graphy_data["nodes"]`.
pub drawn_nodes : Drawing → List ℕ
drawn_nodes d = map int_of d.node_ids

pub every : (Reported → Bool) → List Reported → Bool
every test [] = true
every test (x ∷ xs) = test x && every test xs

-- `prepare`; `none` is the IndexError of `method_pool[0]`, or the KeyError of the conversion, where the
-- first element is of version 3 and another one is not.
pub prepare : List Reported → Option (List MethodCall)
prepare [] = none
prepare (first ∷ rest) =
    if first.has_position && not (every (λ x. x.has_position) rest)
    then none
    else some (set_method_pool (first ∷ rest))

-- `method_pool[::-1]`, the graph of create_graph, and create_edge
pub draw : List MethodCall → Drawing
draw method_pool = create_edge (create_graph (reverse method_pool))

-- prepare, and then search_all_link, as the web service calls them; `none` is an exception, that of
-- create_node on a missing key included.
pub search_all_link : List Reported → Option Drawing
unfolding prepare draw
search_all_link method_pool = elim (prepare method_pool) [
  | none ↦ none
  | some calls ↦
      if every (λ x. x.has_node) (filter is_call method_pool) then some (draw calls) else none
]

-- is_invalid_node and filter_invalid_node, where `node_type` is the short class name that
-- raw_node_data has for an id.
pub is_invalid_node : Text → Bool
is_invalid_node classname =
    contains
      (codes "List"
        ∷ codes "String"
        ∷ codes "StringBuilder"
        ∷ codes "StringReader"
        ∷ codes "Enumeration"
        ∷ codes "Map"
        ∷ [])
      classname

module _ (node_type : ℕ → Text) where
  pub filter_invalid_node : ℕ → Bool
  unfolding is_invalid_node
  filter_invalid_node node_id = if is_invalid_node (node_type node_id) then false else true

  -- The heads with no target are deleted.
  pub drop_heads : Graph → Graph
  drop_heads [] = []
  drop_heads ((head, subs) ∷ g) =
      if length subs == 0 then drop_heads g else (head, subs) ∷ drop_heads g

  -- One key of the loop: its new targets, and whether has_invalid is set. A leaf is a target that
  -- is no head.
  pub clean_targets : List ℕ → List ℕ → List ℕ × Bool
  clean_targets heads subs =
      let leaf_nodes = filter (λ x. not (contains heads x)) subs in
      let inner_nodes = filter (λ x. contains heads x) subs in
      let kept = unique (filter filter_invalid_node leaf_nodes) in
      if length leaf_nodes == 0
      then (subs, false)
      else (kept ++ unique inner_nodes, not (length leaf_nodes == length kept))

  -- The keys do not change in the loop and each round reads and writes its own key alone, so the
  -- order of the keys plays no part.
  pub clean_heads : List ℕ → Graph → Graph × Bool
  clean_heads heads [] = ([], false)
  clean_heads heads ((head, subs) ∷ g) =
      let (subs', changed) = clean_targets heads subs in
      let (g', has_invalid) = clean_heads heads g in ((head, subs') ∷ g', changed || has_invalid)

  pub remove_invalid : Graph → Graph × Bool
  remove_invalid g = let g' = drop_heads g in clean_heads (keys g') g'

  -- `while True`, with fuel; `none` if the fuel runs out.
  pub filter_invalid_data : ℕ → Graph → Option Graph
  filter_invalid_data zero g = none
  filter_invalid_data (suc fuel) g =
      let (g', has_invalid) = remove_invalid g in
      let again = filter_invalid_data fuel g' in if has_invalid then again else some g'
