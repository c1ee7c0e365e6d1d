-- ===== src/TaintGraph/Drawn.antt =====
-- What create_edge hands to the web page: the edges, their numbers and the nodes.
use dong_tai_server.Prelude.{
  ℕ, suc, ◌+◌, ◌≡◌, refl, ◌↔◌, ◌⊎◌, inl, inr, Bool, true, false, not, ◌&&◌, some, List, [], ◌∷◌,
  ◌++◌, ◌∈◌, All, filter, length, length-append, Bool-cases, arith, number_comparison,
}
use mathlib.Core.List.{reverse}
use dong_tai_server.MethodCall.{MethodCall}
use dong_tai_server.TaintGraph.{
  Graph, Edge, Drawing, Reported, draw_targets, draw_heads, create_edge, create_graph,
  set_method_pool, is_call, every, prepare, draw, search_all_link,
}
use dong_tai_server.TaintGraph.Flows.{Flows, Linked, create_graph-Flows}

-- Some edge leads from `a` to `b`.
abbrev pub HasEdge : List Edge → ℕ → ℕ → Type 0
HasEdge [] a b = ⊥
HasEdge (e ∷ es) a b = (a ≡ e.source) × (b ≡ e.target) ⊎ HasEdge es a b

HasEdge-append :
    (es fs : List Edge) (a b : ℕ) → HasEdge (es ++ fs) a b ↔ (HasEdge es a b ⊎ HasEdge fs a b)
HasEdge-append [] fs a b = (λ m. inr m, λ m. elim m [ inl q ↦ absurd q | inr q ↦ q ])
HasEdge-append (e ∷ es) fs a b =
    let ih = HasEdge-append es fs a b in (ground (arith, ih.0), ground (arith, ih.1))

HasEdge-draw_targets :
    (head : ℕ) (subs : List ℕ) (d : Drawing) (a b : ℕ)
    → HasEdge (draw_targets head subs d).edges a b ↔ (HasEdge d.edges a b ⊎ (a ≡ head) × (b ∈ subs))
unfolding draw_targets
HasEdge-draw_targets head [] d a b = (λ m. inl m, λ m. elim m [ inl q ↦ q | inr q ↦ absurd q.1 ])
HasEdge-draw_targets head (s ∷ subs) d a b =
    let ih = HasEdge-draw_targets head subs _ a b in
    let app = HasEdge-append d.edges _ a b in
    (
      λ m. elim (ih.0 m) [
        | inl q ↦ elim (app.0 q) [
          | inl l ↦ inl l
          | inr l ↦ elim l [ inl e ↦ inr (e.0, inl e.1) | inr z ↦ absurd z ]
        ]
        | inr q ↦ inr (q.0, inr q.1)
      ],
      λ m. elim m [
        | inl l ↦ ih.1 (inl (app.1 (inl l)))
        | inr q ↦ elim q.1 [
          | inl e ↦ ih.1 (inl (app.1 (inr (inl (q.0, e)))))
          | inr k ↦ ih.1 (inr (q.0, k))
        ]
      ],
    )

HasEdge-draw_heads :
    (g : Graph) (d : Drawing) (a b : ℕ)
    → HasEdge (draw_heads g d).edges a b ↔ (HasEdge d.edges a b ⊎ Linked g a b)
unfolding draw_heads
HasEdge-draw_heads [] d a b = (λ m. inl m, λ m. elim m [ inl q ↦ q | inr q ↦ absurd q ])
HasEdge-draw_heads ((head, subs) ∷ g) d a b =
    let ih = HasEdge-draw_heads g _ a b in
    let one = HasEdge-draw_targets head subs _ a b in
    (
      λ m. elim (ih.0 m) [
        | inl q ↦ elim (one.0 q) [ inl l ↦ inl l | inr l ↦ inr (inl l) ]
        | inr q ↦ inr (inr q)
      ],
      λ m. elim m [
        | inl l ↦ ih.1 (inl (one.1 (inl l)))
        | inr q ↦ elim q [ inl l ↦ ih.1 (inl (one.1 (inr l))) | inr l ↦ ih.1 (inr l) ]
      ],
    )

-- The edges carry the numbers 1, 2, … in the order of the list.
abbrev pub Numbered : ℕ → List Edge → Type 0
Numbered n [] = Unit
Numbered n (e ∷ es) = (e.id ≡ n) × Numbered (suc n) es

Numbered-snoc :
    (n m : ℕ) (es : List Edge) (e : Edge)
    → Numbered n es
    → n + length es ≡ m
    → e.id ≡ m
    → Numbered n (es ++ e ∷ [])
Numbered-snoc n m [] e h k q = (omega arith, tt)
Numbered-snoc n m (f ∷ es) e h k q = (h.0, Numbered-snoc (suc n) m es e h.1 (omega arith) q)

abbrev Counted : Drawing → Type 0
Counted d = Numbered 1 d.edges × (1 + length d.edges ≡ d.edge_code)

Counted-draw_targets :
    (head : ℕ) (subs : List ℕ) (d : Drawing) → Counted d → Counted (draw_targets head subs d)
unfolding draw_targets
Counted-draw_targets head [] d h = h
Counted-draw_targets head (s ∷ subs) d h =
    Counted-draw_targets head subs _ (
      Numbered-snoc 1 d.edge_code d.edges _ h.0 h.1 refl,
      omega (arith, length-append {0} d.edges _),
    )

Counted-draw_heads : (g : Graph) (d : Drawing) → Counted d → Counted (draw_heads g d)
unfolding draw_heads
Counted-draw_heads [] d h = h
Counted-draw_heads ((head, subs) ∷ g) d h =
    Counted-draw_heads g _ (Counted-draw_targets head subs _ h)

every-All :
    (test : Reported → Bool) (pool : List Reported)
    → All (λ x. test x ≡ true) pool
    → every test pool ≡ true
unfolding every
every-All test [] h = refl
every-All test (x ∷ pool) (e, hs) = ground (arith, e, every-All test pool hs)

draw_edges :
    (calls : List MethodCall)
    → ((a b : ℕ) → HasEdge (draw calls).edges a b ↔ Flows (reverse calls) a b)
      × Numbered 1 (draw calls).edges
unfolding draw create_edge
draw_edges calls =
    let pool = reverse calls in
    (
      λ a b.
          let all = HasEdge-draw_heads (create_graph pool) _ a b in
          let flows = create_graph-Flows pool a b in
          (
            λ m. elim (all.0 m) [ inl q ↦ absurd q | inr l ↦ flows.0 l ],
            λ m. all.1 (inr (flows.1 m)),
          ),
      (Counted-draw_heads (create_graph pool) _ (tt, omega arith)).0,
    )

-- If the elements behind the first have a "taintPosition" wherever the first has one, and each call has
-- the keys that its node needs, then the page gets its drawing without an exception. It has an edge from
-- `a` to `b` exactly if some call with id `a` writes a value that a call behind it in the sorted pool,
-- with id `b`, reads, and the edges are numbered from 1 in the order of the list.
pub search_all_link_edges :
    (first : Reported) (rest : List Reported)
    → (first.has_position ≡ true → All (λ x. x.has_position ≡ true) rest)
    → All (λ x. x.has_node ≡ true) (filter is_call (first ∷ rest))
    → (d : Drawing) × (search_all_link (first ∷ rest) ≡ some d)
      × ((a b : ℕ) → HasEdge d.edges a b ↔ Flows (reverse (set_method_pool (first ∷ rest))) a b)
      × Numbered 1 d.edges
unfolding search_all_link prepare
search_all_link_edges first rest convertible nodes =
    let (edges, numbered) = draw_edges (set_method_pool (first ∷ rest)) in
    let drawn = every-All (λ x. x.has_node) (filter is_call (first ∷ rest)) nodes in
    let raises : (first.has_position && not (every (λ x. x.has_position) rest)) ≡ false =
      elim (Bool-cases first.has_position) [
        | inl e ↦ let fit = every-All (λ x. x.has_position) rest (convertible e) in rw (e, fit) refl
        | inr e ↦ rw e refl
      ] in
    (
      draw (set_method_pool (first ∷ rest)),
      rw (search_all_link, raises, drawn) refl,
      edges,
      numbered,
    )
