-- ===== src/TaintGraph/Nodes.antt =====
-- The nodes that create_edge draws: the set holds numbers and texts, so it does not join them.
use dong_tai_server.Prelude.{
  ℕ, ◌+◌, ◌≤◌, ◌≡◌, refl, ap, sym, inl, inr, true, List, [], ◌∷◌, ◌∈◌, map, arith, Bool-cases,
  if◌then◌else◌, ◌==◌, nat_beq_iff, number_comparison,
}
use mathlib.Core.List.{reverse}
use dong_tai_server.Prelude.Dict.{keys}
use dong_tai_server.MethodCall.{MethodCall}
use dong_tai_server.TaintGraph.{
  Graph, Drawing, Reported, NodeId, number, digits, has_node, add_node, node_beq, draw_targets,
  draw_heads, create_edge, create_graph, create_graph_from, extend, targets_of, drawn_nodes, int_of,
  set_method_pool, draw,
}
use dong_tai_server.TaintGraph.Flows.{Flows, Reads, Linked, create_graph-Flows}

node_beq-eq : (m n : NodeId) → node_beq m n ≡ true → m ≡ n
node_beq-eq (number a) (number b) h = ap number ((nat_beq_iff a b).0 h)
node_beq-eq (digits a) (digits b) h = ap digits ((nat_beq_iff a b).0 h)
node_beq-eq (number a) (digits b) h = cc
node_beq-eq (digits a) (number b) h = cc

mem_of_has_node : (n : NodeId) (ids : List NodeId) → has_node n ids ≡ true → n ∈ ids
mem_of_has_node n [] h = cc
mem_of_has_node n (k ∷ ks) h = elim (Bool-cases (node_beq n k)) [
  | inl e ↦ inl (node_beq-eq n k e)
  | inr e ↦ inr (mem_of_has_node n ks (rw e at h))
]

mem-add_node_self : (n : NodeId) (ids : List NodeId) → n ∈ add_node ids n
mem-add_node_self n ids = elim (Bool-cases (has_node n ids)) [
  | inl e ↦ rw e (mem_of_has_node n ids e)
  | inr e ↦ rw e (inl refl)
]

mem-add_node_old : (m n : NodeId) (ids : List NodeId) → m ∈ ids → m ∈ add_node ids n
mem-add_node_old m n ids h = elim (Bool-cases (has_node n ids)) [
  | inl e ↦ rw e h
  | inr e ↦ rw e (inr h)
]

draw_targets-keeps :
    (head : ℕ) (subs : List ℕ) (d : Drawing) (n : NodeId)
    → n ∈ d.node_ids
    → n ∈ (draw_targets head subs d).node_ids
unfolding draw_targets
draw_targets-keeps head [] d n h = h
draw_targets-keeps head (s ∷ subs) d n h =
    draw_targets-keeps head subs _ n (mem-add_node_old n (digits s) d.node_ids h)

draw_targets-adds :
    (head : ℕ) (subs : List ℕ) (d : Drawing) (b : ℕ)
    → b ∈ subs
    → digits b ∈ (draw_targets head subs d).node_ids
unfolding draw_targets
draw_targets-adds head [] d b m = absurd m
draw_targets-adds head (s ∷ subs) d b (inl e) =
    draw_targets-keeps head subs _ (digits b) (rw e (mem-add_node_self (digits s) d.node_ids))
draw_targets-adds head (s ∷ subs) d b (inr m) = draw_targets-adds head subs _ b m

draw_heads-keeps :
    (g : Graph) (d : Drawing) (n : NodeId) → n ∈ d.node_ids → n ∈ (draw_heads g d).node_ids
unfolding draw_heads
draw_heads-keeps [] d n h = h
draw_heads-keeps ((head, subs) ∷ g) d n h =
    draw_heads-keeps g _ n
      (draw_targets-keeps head subs _ n (mem-add_node_old n (number head) d.node_ids h))

draw_heads-number :
    (g : Graph) (d : Drawing) (a : ℕ) → a ∈ keys g → number a ∈ (draw_heads g d).node_ids
unfolding draw_heads
draw_heads-number [] d a m = absurd m
draw_heads-number ((head, subs) ∷ g) d a (inl e) =
    draw_heads-keeps g _ (number a) (
      draw_targets-keeps head subs _ (number a) (rw e (mem-add_node_self (number head) d.node_ids)))
draw_heads-number ((head, subs) ∷ g) d a (inr m) = draw_heads-number g _ a m

draw_heads-digits :
    (g : Graph) (d : Drawing) (a b : ℕ) → Linked g a b → digits b ∈ (draw_heads g d).node_ids
unfolding draw_heads
draw_heads-digits [] d a b m = absurd m
draw_heads-digits ((head, subs) ∷ g) d a b (inl e) =
    draw_heads-keeps g _ (digits b) (draw_targets-adds head subs _ b e.1)
draw_heads-digits ((head, subs) ∷ g) d a b (inr m) = draw_heads-digits g _ a b m

-- Every call is a head of the graph.
keys-extend_old : (k a : ℕ) (t : List ℕ) (g : Graph) → a ∈ keys g → a ∈ keys (extend k t g)
unfolding extend
keys-extend_old k a t [] m = absurd m
keys-extend_old k a t ((j, old) ∷ g) m = elim (Bool-cases (j == k)) [
  | inl e ↦ rw e m
  | inr e ↦ rw e (elim m [ inl q ↦ inl q | inr r ↦ inr (keys-extend_old k a t g r) ])
]

keys-extend_self : (k : ℕ) (t : List ℕ) (g : Graph) → k ∈ keys (extend k t g)
unfolding extend
keys-extend_self k t [] = inl refl
keys-extend_self k t ((j, old) ∷ g) = elim (Bool-cases (j == k)) [
  | inl e ↦ rw e (inl (sym ((nat_beq_iff j k).0 e)))
  | inr e ↦ rw e (inr (keys-extend_self k t g))
]

keys-create_graph_old :
    (pool : List MethodCall) (g : Graph) (a : ℕ) → a ∈ keys g → a ∈ keys (create_graph_from pool g)
unfolding create_graph_from
keys-create_graph_old [] g a m = m
keys-create_graph_old (node ∷ rest) g a m =
    keys-create_graph_old rest _ a (keys-extend_old node.invoke_id a (targets_of node rest) g m)

keys-create_graph :
    (pool : List MethodCall) (g : Graph) (a : ℕ)
    → a ∈ map (λ c. c.invoke_id) pool
    → a ∈ keys (create_graph_from pool g)
unfolding create_graph_from
keys-create_graph [] g a m = absurd m
keys-create_graph (node ∷ rest) g a (inl e) =
    keys-create_graph_old rest _ a (rw e (keys-extend_self node.invoke_id (targets_of node rest) g))
keys-create_graph (node ∷ rest) g a (inr m) = keys-create_graph rest _ a m

Reads-mem :
    (node : MethodCall) (rest : List MethodCall) (b : ℕ)
    → Reads node rest b
    → b ∈ map (λ c. c.invoke_id) rest
Reads-mem node [] b r = absurd r
Reads-mem node (later ∷ rest) b (inl q) = inl q.0
Reads-mem node (later ∷ rest) b (inr r) = inr (Reads-mem node rest b r)

Flows-mem : (pool : List MethodCall) (a b : ℕ) → Flows pool a b → b ∈ map (λ c. c.invoke_id) pool
Flows-mem [] a b f = absurd f
Flows-mem (node ∷ rest) a b (inl q) = inr (Reads-mem node rest b q.1)
Flows-mem (node ∷ rest) a b (inr f) = inr (Flows-mem rest a b f)

-- How often `b` stands in a list.
abbrev pub count : ℕ → List ℕ → ℕ
count b [] = 0
count b (x ∷ xs) = (if x == b then 1 else 0) + count b xs

count_one : (n : NodeId) (ids : List NodeId) → n ∈ ids → 1 ≤ count (int_of n) (map int_of ids)
count_one n [] m = absurd m
count_one n (k ∷ ks) (inl e) = rw e (ground arith)
count_one n (k ∷ ks) (inr m) = omega (arith, count_one n ks m)

count_two :
    (b : ℕ) (ids : List NodeId) → number b ∈ ids → digits b ∈ ids → 2 ≤ count b (map int_of ids)
count_two b [] m k = absurd m
count_two b (n ∷ ns) (inl e) (inl q) = cc
count_two b (n ∷ ns) (inl e) (inr k) =
    let once = count_one (digits b) ns k in rw (← e) (ground arith)
count_two b (n ∷ ns) (inr m) (inl q) =
    let once = count_one (number b) ns m in rw (← q) (ground arith)
count_two b (n ∷ ns) (inr m) (inr k) = omega (arith, count_two b ns m k)

heads-create_graph :
    (pool : List MethodCall) (a : ℕ)
    → a ∈ map (λ c. c.invoke_id) pool
    → a ∈ keys (create_graph pool)
unfolding create_graph
heads-create_graph pool a m = keys-create_graph pool [] a m

-- A call that reads what an earlier call of the pool wrote is drawn as a node at least twice.
pub drawn_twice :
    (pool : List Reported) (a b : ℕ)
    → Flows (reverse (set_method_pool pool)) a b
    → 2 ≤ count b (drawn_nodes (draw (set_method_pool pool)))
unfolding drawn_nodes draw create_edge
drawn_twice pool a b f =
    let calls = reverse (set_method_pool pool) in
    let g = create_graph calls in
    count_two b _ (draw_heads-number g _ b (heads-create_graph calls b (Flows-mem calls a b f)))
      (draw_heads-digits g _ a b ((create_graph-Flows calls a b).1 f))
