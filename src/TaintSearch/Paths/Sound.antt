-- ===== src/TaintSearch/Paths/Sound.antt =====
-- Which paths are collected.
use dong_tai_server.Prelude.{
  ℕ, ◌≡◌, refl, sym, ◌↔◌, inl, inr, true, false, List, [], ◌∷◌, ◌∈◌, mem-append_left,
  mem-append_right, mem-append_cases, arith, subst, number_comparison,
}
use dong_tai_server.Prelude.Text.{Text}
use dong_tai_server.MethodCall.{MethodCall}
use dong_tai_server.TaintSearch.{
  Arc, build_graph, has_node, is_dropped, source_methods, vul_methods,
}
use dong_tai_server.TaintSearch.Arcs.{HasArc, Flow, build_graph_flows}
use dong_tai_server.TaintSearch.Paths.{
  Leads, Networkx, FindsPaths, path_between, paths_from, paths_between, total_paths,
}

pub Leads-map :
    (R S : ℕ → ℕ → Type 0)
    → ((a b : ℕ) → R a b → S a b)
    → (s t : ℕ) (path : List ℕ) → Leads R s t path
    → Leads S s t path
Leads-map R S f s t [] h = absurd h
Leads-map R S f s t (x ∷ []) h = h
Leads-map R S f s t (x ∷ y ∷ path) h = (h.0, f s y h.1, Leads-map R S f y t (y ∷ path) h.2)

has_node_source : (g : List Arc) (a b : ℕ) → HasArc g a b → has_node g a ≡ true
unfolding has_node
has_node_source [] a b h = absurd h
has_node_source (e ∷ g) a b h = ground (arith, has_node_source g a b)

has_node_target : (g : List Arc) (a b : ℕ) → HasArc g a b → has_node g b ≡ true
unfolding has_node
has_node_target [] a b h = absurd h
has_node_target (e ∷ g) a b h = ground (arith, has_node_target g a b)

-- The end of a path of at least one arc is a node.
Leads-target :
    (g : List Arc) (s a t : ℕ) (path : List ℕ)
    → HasArc g s a
    → Leads (HasArc g) a t (a ∷ path)
    → has_node g t ≡ true
Leads-target g s a t [] h l = has_node_target g s t (rw l.1 at h)
Leads-target g s a t (y ∷ path) h l = Leads-target g a y t path l.1 l.2

module _ (nx : Networkx) (pool : List MethodCall) (g : List Arc) where
  -- The round for `s` and `t` collects `path`.
  abbrev pub Collects : ℕ → ℕ → List ℕ → Type 0
  Collects s t path =
      (has_node g s ≡ true)
      × (has_node g t ≡ true)
      × (nx.has_path g s t ≡ true)
      × (path ≡ nx.shortest_path g s t)
      × (is_dropped pool (nx.shortest_path g s t) ≡ false)

  mem-path_between :
      (s t : ℕ) (path : List ℕ) → (path ∈ path_between nx pool g s t) ↔ Collects s t path
  unfolding path_between
  mem-path_between s t path = (ground arith, ground arith)

  mem-paths_from :
      (s : ℕ) (ts : List ℕ) (path : List ℕ)
      → (path ∈ paths_from nx pool g s ts) ↔ ((t : ℕ) × (t ∈ ts) × Collects s t path)
  unfolding paths_from
  mem-paths_from s [] path = (λ m. absurd m, λ m. absurd m.1)
  mem-paths_from s (t ∷ ts) path =
      let one = mem-path_between s t path in
      let ih = mem-paths_from s ts path in
      (
        λ m.
            elim (mem-append_cases path (path_between nx pool g s t) (paths_from nx pool g s ts)
              m) [
                | inl l ↦ (t, inl refl, one.0 l)
                | inr r ↦ let (u, k, c) = ih.0 r in (u, inr k, c)
              ],
        λ m. elim m.1 [
          | inl e ↦
              mem-append_left path (path_between nx pool g s t) (paths_from nx pool g s ts)
                (one.1 (subst (λ u. Collects s u path) e m.2))
          | inr k ↦
              mem-append_right path (path_between nx pool g s t) (paths_from nx pool g s ts)
                (ih.1 (m.0, k, m.2))
        ],
      )

  mem-paths_between :
      (ss ts : List ℕ) (path : List ℕ)
      → (path ∈ paths_between nx pool g ss ts)
        ↔ ((s : ℕ) × (t : ℕ) × (s ∈ ss) × (t ∈ ts) × Collects s t path)
  unfolding paths_between
  mem-paths_between [] ts path = (λ m. absurd m, λ m. absurd m.2)
  mem-paths_between (s ∷ ss) ts path =
      let one = mem-paths_from s ts path in
      let ih = mem-paths_between ss ts path in
      (
        λ m.
            elim (mem-append_cases path (paths_from nx pool g s ts) (paths_between nx pool g ss ts)
              m) [
                | inl l ↦ let (t, k, c) = one.0 l in (s, t, inl refl, k, c)
                | inr r ↦ let (u, t, j, k, c) = ih.0 r in (u, t, inr j, k, c)
              ],
        λ m. elim m.2 [
          | inl e ↦
              mem-append_left path (paths_from nx pool g s ts) (paths_between nx pool g ss ts)
                (one.1 (m.1, m.3, subst (λ u. Collects u m.1 path) e m.4))
          | inr k ↦
              mem-append_right path (paths_from nx pool g s ts) (paths_between nx pool g ss ts)
                (ih.1 (m.0, m.1, k, m.3, m.4))
        ],
      )

module _ (nx : Networkx) (signature : Text) (pool : List MethodCall)
    (finds : FindsPaths nx (build_graph pool pool)) where
  -- A collected path leads from a source method to a method with the searched signature, and a
  -- value flows along each of its steps.
  pub total_paths_sound :
      (path : List ℕ)
      → path ∈ total_paths nx signature pool
      → (s : ℕ) × (t : ℕ) × (s ∈ source_methods pool)
        × (t ∈ vul_methods signature pool)
        × Leads (Flow pool) s t path
  unfolding total_paths
  total_paths_sound path m =
      let g = build_graph pool pool in
      let all =
        mem-paths_between nx pool g (source_methods pool) (vul_methods signature pool) path in
      let (s, t, j, k, c) = all.0 m in
      let led = finds.found s t c.0 c.1 c.2 in
      (
        s,
        t,
        j,
        k,
        Leads-map (HasArc g) (Flow pool) (λ a b. (build_graph_flows pool a b).0) s t path
            (subst (λ (p : List ℕ). Leads (HasArc g) s t p) (sym c.3) led),
      )

  -- Where values flow from a source method over one step or more to a method with the searched
  -- signature, the path that networkx finds between the two is collected, unless the call in front
  -- of its end has lost its tainted ranges.
  pub total_paths_complete :
      (s t a : ℕ) (rest : List ℕ)
      → s ∈ source_methods pool
      → t ∈ vul_methods signature pool
      → Leads (Flow pool) s t (s ∷ a ∷ rest)
      → is_dropped pool (nx.shortest_path (build_graph pool pool) s t) ≡ false
      → nx.shortest_path (build_graph pool pool) s t ∈ total_paths nx signature pool
  unfolding total_paths
  total_paths_complete s t a rest j k led kept =
      let g = build_graph pool pool in
      let arcs =
        Leads-map (Flow pool) (HasArc g) (λ x y. (build_graph_flows pool x y).1) s t (s ∷ a ∷ rest)
          led in
      let from = has_node_source g s a arcs.1 in
      let into = Leads-target g s a t rest arcs.1 arcs.2 in
      let all =
        mem-paths_between nx pool g (source_methods pool) (vul_methods signature pool)
          (nx.shortest_path g s t) in
      all.1 (s, t, j, k, (from, into, finds.complete s t (s ∷ a ∷ rest) from into arcs, refl, kept))
