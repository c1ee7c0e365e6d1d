-- ===== src/TaintGraph/Flows.antt =====
-- The edges that are drawn are the flows between calls of the pool.
use dong_tai_server.Prelude.{
  ℕ, ◌≡◌, sym, ◌∙◌, ◌↔◌, ◌⊎◌, inl, inr, List, [], ◌∷◌, ◌∈◌, Bool-cases, ◌==◌, nat_beq_iff,
  number_comparison, mem-append_cases, mem-append_left, mem-append_right,
}
use dong_tai_server.Prelude.Sets.{Meet, shares, shares_iff}
use dong_tai_server.MethodCall.{MethodCall}
use dong_tai_server.TaintGraph.{Graph, targets_of, extend, create_graph_from, create_graph}

-- Some call of `pool` with id `b` reads a value that `node` has written.
abbrev pub Reads : MethodCall → List MethodCall → ℕ → Type 0
Reads node [] b = ⊥
Reads node (later ∷ rest) b =
    ((b ≡ later.invoke_id) × Meet node.target_hash later.source_hash) ⊎ Reads node rest b

-- Some call of `pool` with id `a` writes a value that a call behind it, with id `b`, reads.
abbrev pub Flows : List MethodCall → ℕ → ℕ → Type 0
Flows [] a b = ⊥
Flows (node ∷ rest) a b = ((a ≡ node.invoke_id) × Reads node rest b) ⊎ Flows rest a b

-- The graph has the target `b` under the head `a`.
abbrev pub Linked : Graph → ℕ → ℕ → Type 0
Linked [] a b = ⊥
Linked ((k, targets) ∷ g) a b = ((a ≡ k) × (b ∈ targets)) ⊎ Linked g a b

mem-targets_of :
    (node : MethodCall) (rest : List MethodCall) (b : ℕ)
    → (b ∈ targets_of node rest) ↔ Reads node rest b
unfolding targets_of
mem-targets_of node [] b = (λ m. m, λ m. m)
mem-targets_of node (later ∷ rest) b =
    let test = shares_iff node.target_hash later.source_hash in
    let ih = mem-targets_of node rest b in
    elim (Bool-cases (shares node.target_hash later.source_hash)) [
      | inl e ↦ rw e (
        λ m. elim m [ inl q ↦ inl (q, test.0 e) | inr k ↦ inr (ih.0 k) ],
        λ m. elim m [ inl q ↦ inl q.0 | inr k ↦ inr (ih.1 k) ],
      )
      | inr e ↦ rw e (λ m. inr (ih.0 m), λ m. elim m [ inl q ↦ cc (test.1 q.1) | inr k ↦ ih.1 k ])
    ]

Linked-extend :
    (k : ℕ) (targets : List ℕ) (g : Graph) (a b : ℕ)
    → Linked (extend k targets g) a b ↔ (((a ≡ k) × (b ∈ targets)) ⊎ Linked g a b)
unfolding extend
Linked-extend k targets [] a b = (λ m. m, λ m. m)
Linked-extend k targets ((j, old) ∷ g) a b =
    let ih = Linked-extend k targets g a b in
    let test = nat_beq_iff j k in
    elim (Bool-cases (j == k)) [
      | inl e ↦ rw e (
        λ m. elim m [
          | inl q ↦ elim (mem-append_cases b old targets q.1) [
            | inl l ↦ inr (inl (q.0, l))
            | inr r ↦ inl (q.0 ∙ test.0 e, r)
          ]
          | inr l ↦ inr (inr l)
        ],
        λ m. elim m [
          | inl q ↦ inl (q.0 ∙ sym (test.0 e), mem-append_right b old targets q.1)
          | inr l ↦ elim l [ inl q ↦ inl (q.0, mem-append_left b old targets q.1) | inr r ↦ inr r ]
        ],
      )
      | inr e ↦ rw e (
        λ m. elim m [
          | inl q ↦ inr (inl q)
          | inr l ↦ elim (ih.0 l) [ inl q ↦ inl q | inr r ↦ inr (inr r) ]
        ],
        λ m. elim m [
          | inl q ↦ inr (ih.1 (inl q))
          | inr l ↦ elim l [ inl q ↦ inl q | inr r ↦ inr (ih.1 (inr r)) ]
        ],
      )
    ]

Linked-create_graph_from :
    (pool : List MethodCall) (g : Graph) (a b : ℕ)
    → Linked (create_graph_from pool g) a b ↔ (Flows pool a b ⊎ Linked g a b)
unfolding create_graph_from
Linked-create_graph_from [] g a b = (λ m. inr m, λ m. elim m [ inl q ↦ absurd q | inr l ↦ l ])
Linked-create_graph_from (node ∷ rest) g a b =
    let ih = Linked-create_graph_from rest (extend node.invoke_id (targets_of node rest) g) a b in
    let ext = Linked-extend node.invoke_id (targets_of node rest) g a b in
    let reads = mem-targets_of node rest b in
    (
      λ m. elim (ih.0 m) [
        | inl q ↦ inl (inr q)
        | inr l ↦ elim (ext.0 l) [ inl q ↦ inl (inl (q.0, reads.0 q.1)) | inr r ↦ inr r ]
      ],
      λ m. elim m [
        | inl q ↦ elim q [
          | inl f ↦ ih.1 (inr (ext.1 (inl (f.0, reads.1 f.1))))
          | inr f ↦ ih.1 (inl f)
        ]
        | inr l ↦ ih.1 (inr (ext.1 (inr l)))
      ],
    )

-- The graph links `a` to `b` exactly if some call with id `a` writes a value that a call behind it
-- in the pool, with id `b`, reads.
pub create_graph-Flows :
    (pool : List MethodCall) (a b : ℕ) → Linked (create_graph pool) a b ↔ Flows pool a b
unfolding create_graph
create_graph-Flows pool a b =
    let all = Linked-create_graph_from pool [] a b in
    (λ m. elim (all.0 m) [ inl q ↦ q | inr l ↦ absurd l ], λ m. all.1 (inl m))
